-- ===== src/SyntaxStyle/Allowed.antt =====
-- Which arguments the native functions behind syntax_style_stubs.c may be given, by the
-- declarations of native/opentui_abi.h.
use opentui_ocaml.Prelude.{ℕ, ◌^◌, ◌≤◌, ◌<◌, ◌≢◌, Option, List, length}
use opentui_ocaml.Readers.Laws.{IsColor}
use opentui_ocaml.SyntaxStyle.{NativeStyles}

-- A name goes with a 32-bit length that does not reach beyond its bytes.
abbrev pub IsName : List ℕ → ℕ → Type 0
IsName name len = (len ≤ length name) × (len < 2 ^ 32)

-- A property of the native state that every call with such arguments keeps: no null handle, names
-- with their length, colours of four bytes or null, and 32-bit attributes.
pub record Keeps (native : NativeStyles) (Good : native.World → Type 0) : Type 0 where
  pub creates : (w : native.World) → Good w → Good (native.create_syntax_style w).1
  pub destroys :
      (h : ℕ) (w : native.World) → h ≢ 0 → Good w → Good (native.destroy_syntax_style h w)
  pub registers :
      (h : ℕ) (name : List ℕ) (len : ℕ) (fg bg : Option (List ℕ)) (attributes : ℕ)
      (w : native.World)
      → h ≢ 0
      → IsName name len
      → IsColor fg
      → IsColor bg
      → attributes < 2 ^ 32
      → Good w
      → Good (native.style_register h name len fg bg attributes w).1
  pub resolves :
      (h : ℕ) (name : List ℕ) (len : ℕ) (w : native.World)
      → h ≢ 0
      → IsName name len
      → Good w
      → Good (native.style_resolve_by_name h name len w).1
  pub counts : (h : ℕ) (w : native.World) → h ≢ 0 → Good w → Good (native.style_count h w).1
