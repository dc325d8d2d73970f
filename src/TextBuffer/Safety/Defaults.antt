-- ===== src/TextBuffer/Safety/Defaults.antt =====
-- The default colours and attributes, and the syntax style, of text_buffer_stubs.c keep whatever
-- allowed native calls keep.
use opentui_ocaml.Prelude.{
  ℕ, zero, suc, ◌^◌, ◌<◌, ◌≡◌, ◌≢◌, ◌&&◌, Option, none, some, arith, Option-cases, inl, inr,
  if-eq-some, some-injective, subst,
}
use opentui_ocaml.Prelude.Int.{pos, negsuc}
use opentui_ocaml.Values.{
  to_uint32-lt, Value, long, block, string, custom, double, double_array, has_fields, is_block,
  field, int32_val,
}
use opentui_ocaml.TextBuffer.Native.{Command, Attempt, NativeText}
use opentui_ocaml.TextBuffer.Arguments.{read_optional_color}
use opentui_ocaml.TextBuffer.Allowed.{Keeps, IsAllowed}
use opentui_ocaml.TextBuffer.Behaves.{Behaves}
use opentui_ocaml.Readers.Laws.{read_optional_color-IsColor}
use opentui_ocaml.TextBuffer.Styles.{
  text_buffer_set_default_fg, text_buffer_set_default_bg, text_buffer_set_default_attributes,
  text_buffer_reset_defaults, text_buffer_set_syntax_style, read_optional_attributes, read_style,
}

module _ (native : NativeText) (Good : native.World → Type 0) (keeps : Keeps native Good) where
  read_optional_attributes-IsAllowed :
      (h : ℕ) (v : Value) (o : Option ℕ)
      → read_optional_attributes v ≡ some o
      → h ≢ 0
      → IsAllowed (Command.set_default_attributes h o)
  unfolding read_optional_attributes
  read_optional_attributes-IsAllowed h (long (pos zero)) none e live = live
  read_optional_attributes-IsAllowed h (long (pos zero)) (some n) e live = cc
  read_optional_attributes-IsAllowed h (long (pos (suc n))) o e live = cc
  read_optional_attributes-IsAllowed h (long (negsuc n)) o e live = cc
  read_optional_attributes-IsAllowed h (string bytes) o e live = cc
  read_optional_attributes-IsAllowed h (custom n) o e live = cc
  read_optional_attributes-IsAllowed h (double d) o e live = cc
  read_optional_attributes-IsAllowed h (double_array ds) o e live = cc
  read_optional_attributes-IsAllowed h (block tag fields) none e live =
      let whole =
        (if-eq-some (has_fields (block tag fields) 1 && is_block (field (block tag fields) 0))
          e).1 in
      cc
  read_optional_attributes-IsAllowed h (block tag fields) (some n) e live =
      let v = block tag fields in
      let whole = some-injective (if-eq-some (has_fields v 1 && is_block (field v 0)) e).1 in
      (live, subst (λ m. m < 2 ^ 32) (some-injective whole) (to_uint32-lt (int32_val (field v 0))))

  read_style-lt : (v : Value) {n : ℕ} → read_style v ≡ some n → n < 2 ^ 32
  unfolding read_style
  read_style-lt (long (pos zero)) e = omega (arith, some-injective e)
  read_style-lt (long (pos (suc n))) e = cc
  read_style-lt (long (negsuc n)) e = cc
  read_style-lt (string bytes) e = cc
  read_style-lt (custom n) e = cc
  read_style-lt (double d) e = cc
  read_style-lt (double_array ds) e = cc
  read_style-lt (block tag fields) {n} e =
      let v = block tag fields in
      subst (λ m. m < 2 ^ 32) (some-injective (if-eq-some (has_fields v 1) e).1)
        (to_uint32-lt (int32_val (field v 0)))

  pub text_buffer_set_default_fg-Behaves :
      (h : ℕ) (v : Value) (w : native.World)
      → Behaves Good h w
          ((text_buffer_set_default_fg native h v w).0)
          (text_buffer_set_default_fg native h v w).1
  unfolding text_buffer_set_default_fg
  text_buffer_set_default_fg-Behaves h v w = elim (Option-cases (read_optional_color v)) [
    | inl e ↦ ground (arith, e)
    | inr (c, e) ↦
        ground
          (arith, e, read_optional_color-IsColor v e, keeps.performs (Command.set_default_fg h c) w)
  ]

  pub text_buffer_set_default_bg-Behaves :
      (h : ℕ) (v : Value) (w : native.World)
      → Behaves Good h w
          ((text_buffer_set_default_bg native h v w).0)
          (text_buffer_set_default_bg native h v w).1
  unfolding text_buffer_set_default_bg
  text_buffer_set_default_bg-Behaves h v w = elim (Option-cases (read_optional_color v)) [
    | inl e ↦ ground (arith, e)
    | inr (c, e) ↦
        ground
          (arith, e, read_optional_color-IsColor v e, keeps.performs (Command.set_default_bg h c) w)
  ]

  pub text_buffer_set_default_attributes-Behaves :
      (h : ℕ) (v : Value) (w : native.World)
      → Behaves Good h w
          ((text_buffer_set_default_attributes native h v w).0)
          (text_buffer_set_default_attributes native h v w).1
  unfolding text_buffer_set_default_attributes
  text_buffer_set_default_attributes-Behaves h v w =
      elim (Option-cases (read_optional_attributes v)) [
        | inl e ↦ ground (arith, e)
        | inr (c, e) ↦ ground (
          arith,
          e,
          read_optional_attributes-IsAllowed h v c e,
          keeps.performs (Command.set_default_attributes h c) w,
        )
      ]

  pub text_buffer_reset_defaults-Behaves :
      (h : ℕ) (w : native.World)
      → Behaves Good h w
          ((text_buffer_reset_defaults native h w).0)
          (text_buffer_reset_defaults native h w).1
  unfolding text_buffer_reset_defaults
  text_buffer_reset_defaults-Behaves h w =
      ground (arith, keeps.performs (Command.reset_defaults h) w)

  pub text_buffer_set_syntax_style-Behaves :
      (h : ℕ) (v : Value) (w : native.World)
      → Behaves Good h w
          ((text_buffer_set_syntax_style native h v w).0)
          (text_buffer_set_syntax_style native h v w).1
  unfolding text_buffer_set_syntax_style
  text_buffer_set_syntax_style-Behaves h v w = elim (Option-cases (read_style v)) [
    | inl e ↦ ground (arith, e)
    | inr (c, e) ↦
        ground (arith, e, read_style-lt v e, keeps.tries (Attempt.set_syntax_style h c) w)
  ]
