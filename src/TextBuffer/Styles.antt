-- ===== src/TextBuffer/Styles.antt =====
-- The bindings of text_buffer_stubs.c on the styled text, the highlights and the defaults of a
-- buffer.
use opentui_ocaml.Prelude.{ℕ, ◌-◌, ◌^◌, ◌&&◌, Option, none, some, ◌==◌, if◌then◌else◌, found, zero}
use opentui_ocaml.Prelude.Int.{pos}
use opentui_ocaml.Status.{Status, ok, invalid_argument, stale_handle, native_failure}
use opentui_ocaml.Values.{
  Value, long, has_fields, is_block, field, int32_val, custom_val, long_val, to_uint32,
}
use opentui_ocaml.TextBuffer.Native.{Command, Attempt, NativeText}
use opentui_ocaml.TextBuffer.Arguments.{
  in_range, read_optional_color, read_highlight, read_styled_chunks,
}

-- `none` where the option is refused; otherwise the attributes or a null pointer.
unfoldable pub read_optional_attributes : Value → Option (Option ℕ)
read_optional_attributes (long (pos zero)) = some none
read_optional_attributes v =
    if has_fields v 1 && is_block (field v 0)
    then some (some (to_uint32 (int32_val (field v 0))))
    else none

-- A style is looked up in its option before the option is checked, which matters for no option.
unfoldable pub read_style : Value → Option ℕ
read_style (long (pos zero)) = some 0
read_style v = if has_fields v 1 then some (to_uint32 (int32_val (field v 0))) else none

module _ (native : NativeText) where
  open native use {World, perform, try}

  -- The part after the check for an empty list.
  unfoldable pub set_chunks : ℕ → Value → World → Status × World
  set_chunks handle chunks_value w =
      found (read_styled_chunks chunks_value) (invalid_argument, w)
        (λ chunks. (ok, perform (Command.set_styled_text handle chunks) w))

  unfoldable pub set_nonzero_chunks : ℕ → Value → World → Status × World
  unfolding set_chunks
  set_nonzero_chunks handle (long (pos zero)) w =
      (ok, perform (Command.clear_all_highlights handle) (perform (Command.clear handle) w))
  set_nonzero_chunks handle chunks_value w = set_chunks handle chunks_value w

  unfoldable pub text_buffer_set_styled_text : ℕ → Value → World → Status × World
  unfolding set_nonzero_chunks
  text_buffer_set_styled_text handle chunks_value w =
      if handle == 0 then (stale_handle, w) else set_nonzero_chunks handle chunks_value w

  unfoldable pub text_buffer_clear_all_highlights : ℕ → World → Status × World
  text_buffer_clear_all_highlights handle w =
      if handle == 0
      then (stale_handle, w)
      else (ok, perform (Command.clear_all_highlights handle) w)

  unfoldable pub text_buffer_add_highlight_by_char_range : ℕ → Value → World → Status × World
  text_buffer_add_highlight_by_char_range handle highlight_value w =
      if handle == 0
      then (stale_handle, w)
      else found (read_highlight highlight_value) (invalid_argument, w)
          (λ highlight. (ok, perform (Command.add_highlight_by_char_range handle highlight) w))

  unfoldable pub text_buffer_add_highlight : ℕ → Value → Value → World → Status × World
  text_buffer_add_highlight handle line_value highlight_value w =
      if handle == 0
      then (stale_handle, w)
      else found (custom_val line_value) (invalid_argument, w)
          (λ line.
            found (read_highlight highlight_value) (invalid_argument, w)
              (λ highlight.
                if in_range line (2 ^ 31 - 1)
                then (ok, perform (Command.add_highlight handle (to_uint32 line) highlight) w)
                else (invalid_argument, w)))

  unfoldable pub text_buffer_remove_highlights_by_ref : ℕ → Value → World → Status × World
  text_buffer_remove_highlights_by_ref handle reference_value w =
      if handle == 0
      then (stale_handle, w)
      else found (long_val reference_value) (invalid_argument, w)
          (λ reference.
            if in_range reference 65535
            then (ok, perform (Command.remove_highlights_by_ref handle (to_uint32 reference)) w)
            else (invalid_argument, w))

  unfoldable pub text_buffer_clear_line_highlights : ℕ → Value → World → Status × World
  text_buffer_clear_line_highlights handle line_value w =
      if handle == 0
      then (stale_handle, w)
      else found (custom_val line_value) (invalid_argument, w)
          (λ line.
            if in_range line (2 ^ 31 - 1)
            then (ok, perform (Command.clear_line_highlights handle (to_uint32 line)) w)
            else (invalid_argument, w))

  unfoldable pub text_buffer_set_default_fg : ℕ → Value → World → Status × World
  text_buffer_set_default_fg handle color_value w =
      if handle == 0
      then (stale_handle, w)
      else found (read_optional_color color_value) (invalid_argument, w)
          (λ color. (ok, perform (Command.set_default_fg handle color) w))

  unfoldable pub text_buffer_set_default_bg : ℕ → Value → World → Status × World
  text_buffer_set_default_bg handle color_value w =
      if handle == 0
      then (stale_handle, w)
      else found (read_optional_color color_value) (invalid_argument, w)
          (λ color. (ok, perform (Command.set_default_bg handle color) w))

  unfoldable pub text_buffer_set_default_attributes : ℕ → Value → World → Status × World
  unfolding read_optional_attributes
  text_buffer_set_default_attributes handle attributes_value w =
      if handle == 0
      then (stale_handle, w)
      else found (read_optional_attributes attributes_value) (invalid_argument, w)
          (λ attributes. (ok, perform (Command.set_default_attributes handle attributes) w))

  unfoldable pub text_buffer_reset_defaults : ℕ → World → Status × World
  text_buffer_reset_defaults handle w =
      if handle == 0 then (stale_handle, w) else (ok, perform (Command.reset_defaults handle) w)

  unfoldable pub text_buffer_set_syntax_style : ℕ → Value → World → Status × World
  unfolding read_style
  text_buffer_set_syntax_style handle style_value w =
      if handle == 0
      then (stale_handle, w)
      else found (read_style style_value) (invalid_argument, w)
          (λ style.
            let set = try (Attempt.set_syntax_style handle style) w in
            if set.0 then (ok, set.1) else (native_failure, set.1))
