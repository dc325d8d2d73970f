-- ===== src/SyntaxStyle.antt =====
-- packages/opentui-raw/syntax_style_stubs.c: syntax styles of the native library, with the checks
-- of their arguments. Its readers of colours are those of Readers.
pub mod Laws
pub mod Allowed
pub mod Calls
pub mod Safety
pub mod Tests
use opentui_ocaml.Prelude.{
  ℕ, zero, suc, ◌-◌, ◌%◌, ◌^◌, Bool, true, false, not, ◌||◌, Option, none, some, List, [], ◌∷◌,
  ◌==◌, leb, if◌then◌else◌, found, length,
}
use opentui_ocaml.Prelude.Int.{ℤ, pos, negsuc}
use opentui_ocaml.Values.{Value, is_block, int32_val, string_val, to_uint32}
use opentui_ocaml.Readers.{read_optional_color}
use opentui_ocaml.Status.{Status, ok, invalid_argument, stale_handle, native_failure}

-- The native styles. A string is passed with its length, and no colour is a null pointer.
pub record NativeStyles : Type 1 where
  pub World : Type 0
  pub create_syntax_style : World → ℕ × World
  pub destroy_syntax_style : ℕ → World → World
  pub style_register : ℕ → List ℕ → ℕ → Option (List ℕ) → Option (List ℕ) → ℕ → World → ℕ × World
  pub style_resolve_by_name : ℕ → List ℕ → ℕ → World → ℕ × World
  pub style_count : ℕ → World → ℕ × World

module _ (native : NativeStyles) where
  open native use {
    World, create_syntax_style, destroy_syntax_style, style_register, style_resolve_by_name,
    style_count,
  }

  unfoldable pub syntax_style_create : World → (Status × ℕ) × World
  syntax_style_create w =
      let made = create_syntax_style w in
      if made.0 == 0 then ((native_failure, 0), made.1) else ((ok, made.0), made.1)

  unfoldable pub syntax_style_destroy : ℕ → World → World
  syntax_style_destroy handle w = if handle == 0 then w else destroy_syntax_style handle w

  -- The call of the native library, its arguments checked.
  unfoldable pub register_checked :
      ℕ → List ℕ → Option (List ℕ) → Option (List ℕ) → ℤ → World → (Status × ℕ) × World
  register_checked handle name fg bg attributes w =
      let registered =
        style_register handle name (length name % 2 ^ 32) fg bg (to_uint32 attributes) w in
      if registered.0 == 0
      then ((native_failure, 0), registered.1)
      else ((ok, registered.0), registered.1)

  unfoldable pub syntax_style_register :
      ℕ → Value → Value → Value → Value → World → (Status × ℕ) × World
  unfolding register_checked
  syntax_style_register handle name_value fg_value bg_value attributes_value w =
      if handle == 0 || not (is_block attributes_value)
      then ((invalid_argument, 0), w)
      else found (string_val name_value) ((invalid_argument, 0), w)
          (λ name.
            found (read_optional_color fg_value) ((invalid_argument, 0), w)
              (λ fg.
                found (read_optional_color bg_value) ((invalid_argument, 0), w)
                  (λ bg. register_checked handle name fg bg (int32_val attributes_value) w)))

  unfoldable pub syntax_style_resolve : ℕ → Value → World → (Status × ℕ) × World
  syntax_style_resolve handle name_value w =
      if handle == 0
      then ((invalid_argument, 0), w)
      else found (string_val name_value) ((invalid_argument, 0), w)
          (λ name.
            let resolved = style_resolve_by_name handle name (length name % 2 ^ 32) w in
            ((ok, resolved.0), resolved.1))

  unfoldable pub syntax_style_count : ℕ → World → (Status × ℕ) × World
  syntax_style_count handle w =
      if handle == 0
      then ((stale_handle, 0), w)
      else let counted = style_count handle w in ((ok, counted.0), counted.1)
