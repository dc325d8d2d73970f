-- ===== src/TextBuffer/Safety/Styles.antt =====
-- The bindings on styled text and highlights keep what allowed calls of the native side keep.
use opentui_ocaml.Prelude.{
  ℕ, zero, suc, ◌-◌, ◌^◌, ◌≢◌, arith, ◌==◌, Option-cases, Bool-cases, inl, inr,
}
use opentui_ocaml.Prelude.Int.{pos, negsuc}
use opentui_ocaml.Values.{
  Value, long, block, string, custom, double, double_array, to_uint32, zero_value, custom_val,
  long_val,
}
use opentui_ocaml.TextBuffer.Native.{Command, NativeText}
use opentui_ocaml.TextBuffer.Arguments.{read_highlight, read_styled_chunks}
use opentui_ocaml.TextBuffer.Allowed.{Keeps}
use opentui_ocaml.TextBuffer.Behaves.{Behaves}
use opentui_ocaml.TextBuffer.Ranges.{read_highlight-IsHighlight, read_styled_chunks-AllChunks}
use opentui_ocaml.Readers.Laws.{in_range-le}
use opentui_ocaml.TextBuffer.Styles.{
  text_buffer_set_styled_text, text_buffer_clear_all_highlights,
  text_buffer_add_highlight_by_char_range, text_buffer_add_highlight,
  text_buffer_remove_highlights_by_ref, text_buffer_clear_line_highlights, set_nonzero_chunks,
  set_chunks,
}

module _ (native : NativeText) (Good : native.World → Type 0) (keeps : Keeps native Good) where
  set_chunks-Behaves :
      (h : ℕ) (v : Value) (w : native.World)
      → h ≢ 0
      → v ≢ zero_value
      → let r = set_chunks native h v w in Behaves Good h w r.0 r.1
  unfolding set_chunks
  set_chunks-Behaves h v w live filled = elim (Option-cases (read_styled_chunks v)) [
    | inl e ↦ ground (arith, e)
    | inr (c, e) ↦
        let allowed = read_styled_chunks-AllChunks v e filled in
        let called =
          keeps.performs (Command.set_styled_text h c) w (live, allowed.0, allowed.1, allowed.2) in
        ground (arith, e)
  ]

  set_nonzero_chunks-Behaves :
      (h : ℕ) (v : Value) (w : native.World)
      → h ≢ 0
      → let r = set_nonzero_chunks native h v w in Behaves Good h w r.0 r.1
  unfolding set_nonzero_chunks
  set_nonzero_chunks-Behaves h (long (pos zero)) w live =
      let cleared = native.perform (Command.clear h) w in
      ground (
        arith,
        keeps.performs (Command.clear h) w,
        keeps.performs (Command.clear_all_highlights h) cleared,
      )
  set_nonzero_chunks-Behaves h (long (pos (suc n))) w live =
      set_chunks-Behaves h (long (pos (suc n))) w live (λ e. cc)
  set_nonzero_chunks-Behaves h (long (negsuc n)) w live =
      set_chunks-Behaves h (long (negsuc n)) w live (λ e. cc)
  set_nonzero_chunks-Behaves h (string bytes) w live =
      set_chunks-Behaves h (string bytes) w live (λ e. cc)
  set_nonzero_chunks-Behaves h (custom n) w live = set_chunks-Behaves h (custom n) w live (λ e. cc)
  set_nonzero_chunks-Behaves h (double d) w live = set_chunks-Behaves h (double d) w live (λ e. cc)
  set_nonzero_chunks-Behaves h (double_array ds) w live =
      set_chunks-Behaves h (double_array ds) w live (λ e. cc)
  set_nonzero_chunks-Behaves h (block tag fields) w live =
      set_chunks-Behaves h (block tag fields) w live (λ e. cc)

  pub text_buffer_set_styled_text-Behaves :
      (h : ℕ) (v : Value) (w : native.World)
      → Behaves Good h w
          ((text_buffer_set_styled_text native h v w).0)
          (text_buffer_set_styled_text native h v w).1
  unfolding text_buffer_set_styled_text
  text_buffer_set_styled_text-Behaves h v w = elim (Bool-cases (h == 0)) [
    | inl null ↦ ground (arith, null)
    | inr live ↦ rw live (set_nonzero_chunks-Behaves h v w (ground (arith, live)))
  ]

  pub text_buffer_clear_all_highlights-Behaves :
      (h : ℕ) (w : native.World)
      → Behaves Good h w
          ((text_buffer_clear_all_highlights native h w).0)
          (text_buffer_clear_all_highlights native h w).1
  unfolding text_buffer_clear_all_highlights
  text_buffer_clear_all_highlights-Behaves h w =
      ground (arith, keeps.performs (Command.clear_all_highlights h) w)

  pub text_buffer_add_highlight_by_char_range-Behaves :
      (h : ℕ) (v : Value) (w : native.World)
      → Behaves Good h w
          ((text_buffer_add_highlight_by_char_range native h v w).0)
          (text_buffer_add_highlight_by_char_range native h v w).1
  unfolding text_buffer_add_highlight_by_char_range
  text_buffer_add_highlight_by_char_range-Behaves h v w = elim (Option-cases (read_highlight v)) [
    | inl e ↦ ground (arith, e)
    | inr (c, e) ↦ ground (
      arith,
      e,
      read_highlight-IsHighlight v e,
      keeps.performs (Command.add_highlight_by_char_range h c) w,
    )
  ]

  pub text_buffer_add_highlight-Behaves :
      (h : ℕ) (l : Value) (v : Value) (w : native.World)
      → Behaves Good h w
          ((text_buffer_add_highlight native h l v w).0)
          (text_buffer_add_highlight native h l v w).1
  unfolding text_buffer_add_highlight
  text_buffer_add_highlight-Behaves h l v w = elim (Option-cases (custom_val l)) [
    | inl e ↦ ground (arith, e)
    | inr (n, el) ↦ elim (Option-cases (read_highlight v)) [
      | inl e ↦ ground (arith, el, e)
      | inr (c, e) ↦ ground (
        arith,
        el,
        e,
        in_range-le n (2 ^ 31 - 1),
        read_highlight-IsHighlight v e,
        keeps.performs (Command.add_highlight h (to_uint32 n) c) w,
      )
    ]
  ]

  pub text_buffer_remove_highlights_by_ref-Behaves :
      (h : ℕ) (v : Value) (w : native.World)
      → Behaves Good h w
          ((text_buffer_remove_highlights_by_ref native h v w).0)
          (text_buffer_remove_highlights_by_ref native h v w).1
  unfolding text_buffer_remove_highlights_by_ref
  text_buffer_remove_highlights_by_ref-Behaves h v w = elim (Option-cases (long_val v)) [
    | inl e ↦ ground (arith, e)
    | inr (c, e) ↦ ground (
      arith,
      e,
      in_range-le c 65535,
      keeps.performs (Command.remove_highlights_by_ref h (to_uint32 c)) w,
    )
  ]

  pub text_buffer_clear_line_highlights-Behaves :
      (h : ℕ) (v : Value) (w : native.World)
      → Behaves Good h w
          ((text_buffer_clear_line_highlights native h v w).0)
          (text_buffer_clear_line_highlights native h v w).1
  unfolding text_buffer_clear_line_highlights
  text_buffer_clear_line_highlights-Behaves h v w = elim (Option-cases (custom_val v)) [
    | inl e ↦ ground (arith, e)
    | inr (c, e) ↦ ground (
      arith,
      e,
      in_range-le c (2 ^ 31 - 1),
      keeps.performs (Command.clear_line_highlights h (to_uint32 c)) w,
    )
  ]
