-- ===== src/TextBuffer/Calls.antt =====
-- Histories of the bindings of text_buffer_stubs.c.
use opentui_ocaml.Prelude.{ℕ, Bool, Option, none, some, List, [], ◌∷◌}
use opentui_ocaml.Prelude.Int.{ℤ}
use opentui_ocaml.Status.{Status}
use opentui_ocaml.Values.{Value}
use opentui_ocaml.TextBuffer.Native.{NativeText}
use opentui_ocaml.TextBuffer.Arguments.{ByteArray}
use opentui_ocaml.TextBuffer.Buffer.{
  text_buffer_create, text_buffer_destroy, text_buffer_clear, text_buffer_reset, text_buffer_append,
  text_buffer_register_mem_buffer, text_buffer_replace_mem_buffer, text_buffer_set_text_from_mem,
  text_buffer_length, text_buffer_byte_size, text_buffer_line_count, text_buffer_load_file,
  text_buffer_get_tab_width, text_buffer_set_tab_width,
}
use opentui_ocaml.TextBuffer.Styles.{
  text_buffer_set_styled_text, text_buffer_clear_all_highlights,
  text_buffer_add_highlight_by_char_range, text_buffer_add_highlight,
  text_buffer_remove_highlights_by_ref, text_buffer_clear_line_highlights,
  text_buffer_set_default_fg, text_buffer_set_default_bg, text_buffer_set_default_attributes,
  text_buffer_reset_defaults, text_buffer_set_syntax_style,
}
use opentui_ocaml.TextBuffer.View.{
  text_buffer_view_create, text_buffer_view_destroy, text_buffer_view_set_wrap_width,
  text_buffer_view_set_first_line_offset, text_buffer_view_set_tab_indicator,
  text_buffer_view_set_wrap_mode, text_buffer_view_set_viewport_size, text_buffer_view_set_viewport,
  text_buffer_view_get_virtual_line_count, text_buffer_view_set_tab_indicator_color,
  text_buffer_view_set_truncate, text_buffer_view_measure_for_dimensions,
  text_buffer_view_get_line_info, text_buffer_view_get_logical_line_info,
}
use opentui_ocaml.TextBuffer.Selection.{
  text_buffer_view_set_selection, text_buffer_view_update_selection,
  text_buffer_view_reset_selection, text_buffer_view_get_selection_info,
  text_buffer_view_set_local_selection, text_buffer_view_update_local_selection,
  text_buffer_view_reset_local_selection, text_buffer_view_get_selected_text,
  native_renderable_create, native_renderable_destroy, native_renderable_set_measure_target,
  native_renderable_clear_measure_target,
}

-- A binding with its arguments.
pub data Call : Type 0 where
  create : ℤ → Call
  destroy : ℕ → Call
  clear : ℕ → Call
  reset : ℕ → Call
  append : ℕ → ByteArray → Call
  register_mem_buffer : ℕ → ByteArray → Bool → Call
  replace_mem_buffer : ℕ → ℤ → ByteArray → Bool → Call
  set_text_from_mem : ℕ → ℤ → ℤ → Call
  length : ℕ → Call
  byte_size : ℕ → Call
  line_count : ℕ → Call
  load_file : ℕ → Value → Call
  get_tab_width : ℕ → Call
  set_tab_width : ℕ → ℤ → Call
  set_styled_text : ℕ → Value → Call
  clear_all_highlights : ℕ → Call
  add_highlight_by_char_range : ℕ → Value → Call
  add_highlight : ℕ → Value → Value → Call
  remove_highlights_by_ref : ℕ → Value → Call
  clear_line_highlights : ℕ → Value → Call
  set_default_fg : ℕ → Value → Call
  set_default_bg : ℕ → Value → Call
  set_default_attributes : ℕ → Value → Call
  reset_defaults : ℕ → Call
  set_syntax_style : ℕ → Value → Call
  view_create : ℕ → Call
  view_destroy : ℕ → Call
  view_set_wrap_width : ℕ → ℤ → Call
  view_set_first_line_offset : ℕ → ℤ → Call
  view_set_tab_indicator : ℕ → ℤ → Call
  view_set_wrap_mode : ℕ → ℤ → Call
  view_set_viewport_size : ℕ → ℤ → ℤ → Call
  view_set_viewport : ℕ → ℤ → ℤ → ℤ → ℤ → Call
  view_get_virtual_line_count : ℕ → Call
  view_set_tab_indicator_color : ℕ → Value → Call
  view_set_truncate : ℕ → Bool → Call
  view_measure_for_dimensions : ℕ → ℤ → ℤ → Call
  view_get_line_info : ℕ → Call
  view_get_logical_line_info : ℕ → Call
  view_set_selection : ℕ → ℤ → ℤ → Value → Value → Call
  view_update_selection : ℕ → ℤ → Value → Value → Call
  view_reset_selection : ℕ → Call
  view_get_selection_info : ℕ → Call
  view_set_local_selection : ℕ → Value → Call
  view_update_local_selection : ℕ → Value → Call
  view_reset_local_selection : ℕ → Call
  view_get_selected_text : ℕ → List ℕ → ℤ → Call
  renderable_create : Call
  renderable_destroy : ℕ → Call
  renderable_set_measure_target : ℕ → ℤ → ℕ → Call
  renderable_clear_measure_target : ℕ → Call

-- The handle that a call is about; 1 where there is none.
abbrev pub handle_of : Call → ℕ
handle_of (create n) = 1
handle_of (destroy h) = h
handle_of (clear h) = h
handle_of (reset h) = h
handle_of (append h a) = h
handle_of (register_mem_buffer h a owned) = h
handle_of (replace_mem_buffer h n a owned) = h
handle_of (set_text_from_mem h n m) = h
handle_of (length h) = h
handle_of (byte_size h) = h
handle_of (line_count h) = h
handle_of (load_file h v) = h
handle_of (get_tab_width h) = h
handle_of (set_tab_width h n) = h
handle_of (set_styled_text h v) = h
handle_of (clear_all_highlights h) = h
handle_of (add_highlight_by_char_range h v) = h
handle_of (add_highlight h l v) = h
handle_of (remove_highlights_by_ref h v) = h
handle_of (clear_line_highlights h v) = h
handle_of (set_default_fg h v) = h
handle_of (set_default_bg h v) = h
handle_of (set_default_attributes h v) = h
handle_of (reset_defaults h) = h
handle_of (set_syntax_style h v) = h
handle_of (view_create h) = h
handle_of (view_destroy h) = h
handle_of (view_set_wrap_width h n) = h
handle_of (view_set_first_line_offset h n) = h
handle_of (view_set_tab_indicator h n) = h
handle_of (view_set_wrap_mode h n) = h
handle_of (view_set_viewport_size h n m) = h
handle_of (view_set_viewport h x y n m) = h
handle_of (view_get_virtual_line_count h) = h
handle_of (view_set_tab_indicator_color h v) = h
handle_of (view_set_truncate h on) = h
handle_of (view_measure_for_dimensions h n m) = h
handle_of (view_get_line_info h) = h
handle_of (view_get_logical_line_info h) = h
handle_of (view_set_selection h n m b f) = h
handle_of (view_update_selection h n b f) = h
handle_of (view_reset_selection h) = h
handle_of (view_get_selection_info h) = h
handle_of (view_set_local_selection h v) = h
handle_of (view_update_local_selection h v) = h
handle_of (view_reset_local_selection h) = h
handle_of (view_get_selected_text h output n) = h
handle_of renderable_create = 1
handle_of (renderable_destroy h) = h
handle_of (renderable_set_measure_target h n t) = h
handle_of (renderable_clear_measure_target h) = h

module _ (native : NativeText) where
  open native use {World}

  -- The status, where the binding returns one, and the state afterwards.
  unfoldable pub call : Call → World → Option Status × World
  call (create n) w = let r = text_buffer_create native n w in (some r.0.0, r.1)
  call (destroy h) w = (none, text_buffer_destroy native h w)
  call (clear h) w = let r = text_buffer_clear native h w in (some r.0, r.1)
  call (reset h) w = let r = text_buffer_reset native h w in (some r.0, r.1)
  call (append h a) w = let r = text_buffer_append native h a w in (some r.0, r.1)
  call (register_mem_buffer h a owned) w =
      let r = text_buffer_register_mem_buffer native h a owned w in (some r.0.0, r.1)
  call (replace_mem_buffer h n a owned) w =
      let r = text_buffer_replace_mem_buffer native h n a owned w in (some r.0, r.1)
  call (set_text_from_mem h n m) w =
      let r = text_buffer_set_text_from_mem native h n m w in (some r.0, r.1)
  call (length h) w = let r = text_buffer_length native h w in (some r.0.0, r.1)
  call (byte_size h) w = let r = text_buffer_byte_size native h w in (some r.0.0, r.1)
  call (line_count h) w = let r = text_buffer_line_count native h w in (some r.0.0, r.1)
  call (load_file h v) w = let r = text_buffer_load_file native h v w in (some r.0, r.1)
  call (get_tab_width h) w = let r = text_buffer_get_tab_width native h w in (some r.0.0, r.1)
  call (set_tab_width h n) w = let r = text_buffer_set_tab_width native h n w in (some r.0, r.1)
  call (set_styled_text h v) w = let r = text_buffer_set_styled_text native h v w in (some r.0, r.1)
  call (clear_all_highlights h) w =
      let r = text_buffer_clear_all_highlights native h w in (some r.0, r.1)
  call (add_highlight_by_char_range h v) w =
      let r = text_buffer_add_highlight_by_char_range native h v w in (some r.0, r.1)
  call (add_highlight h l v) w = let r = text_buffer_add_highlight native h l v w in (some r.0, r.1)
  call (remove_highlights_by_ref h v) w =
      let r = text_buffer_remove_highlights_by_ref native h v w in (some r.0, r.1)
  call (clear_line_highlights h v) w =
      let r = text_buffer_clear_line_highlights native h v w in (some r.0, r.1)
  call (set_default_fg h v) w = let r = text_buffer_set_default_fg native h v w in (some r.0, r.1)
  call (set_default_bg h v) w = let r = text_buffer_set_default_bg native h v w in (some r.0, r.1)
  call (set_default_attributes h v) w =
      let r = text_buffer_set_default_attributes native h v w in (some r.0, r.1)
  call (reset_defaults h) w = let r = text_buffer_reset_defaults native h w in (some r.0, r.1)
  call (set_syntax_style h v) w =
      let r = text_buffer_set_syntax_style native h v w in (some r.0, r.1)
  call (view_create h) w = let r = text_buffer_view_create native h w in (some r.0.0, r.1)
  call (view_destroy h) w = (none, text_buffer_view_destroy native h w)
  call (view_set_wrap_width h n) w =
      let r = text_buffer_view_set_wrap_width native h n w in (some r.0, r.1)
  call (view_set_first_line_offset h n) w =
      let r = text_buffer_view_set_first_line_offset native h n w in (some r.0, r.1)
  call (view_set_tab_indicator h n) w =
      let r = text_buffer_view_set_tab_indicator native h n w in (some r.0, r.1)
  call (view_set_wrap_mode h n) w =
      let r = text_buffer_view_set_wrap_mode native h n w in (some r.0, r.1)
  call (view_set_viewport_size h n m) w =
      let r = text_buffer_view_set_viewport_size native h n m w in (some r.0, r.1)
  call (view_set_viewport h x y n m) w =
      let r = text_buffer_view_set_viewport native h x y n m w in (some r.0, r.1)
  call (view_get_virtual_line_count h) w =
      let r = text_buffer_view_get_virtual_line_count native h w in (some r.0.0, r.1)
  call (view_set_tab_indicator_color h v) w =
      let r = text_buffer_view_set_tab_indicator_color native h v w in (some r.0, r.1)
  call (view_set_truncate h on) w =
      let r = text_buffer_view_set_truncate native h on w in (some r.0, r.1)
  call (view_measure_for_dimensions h n m) w =
      let r = text_buffer_view_measure_for_dimensions native h n m w in (some r.0.0, r.1)
  call (view_get_line_info h) w =
      let r = text_buffer_view_get_line_info native h w in (some r.0.0, r.1)
  call (view_get_logical_line_info h) w =
      let r = text_buffer_view_get_logical_line_info native h w in (some r.0.0, r.1)
  call (view_set_selection h n m b f) w =
      let r = text_buffer_view_set_selection native h n m b f w in (some r.0, r.1)
  call (view_update_selection h n b f) w =
      let r = text_buffer_view_update_selection native h n b f w in (some r.0, r.1)
  call (view_reset_selection h) w =
      let r = text_buffer_view_reset_selection native h w in (some r.0, r.1)
  call (view_get_selection_info h) w = (none, (text_buffer_view_get_selection_info native h w).1)
  call (view_set_local_selection h v) w =
      let r = text_buffer_view_set_local_selection native h v w in (some r.0.0, r.1)
  call (view_update_local_selection h v) w =
      let r = text_buffer_view_update_local_selection native h v w in (some r.0.0, r.1)
  call (view_reset_local_selection h) w =
      let r = text_buffer_view_reset_local_selection native h w in (some r.0, r.1)
  call (view_get_selected_text h output n) w =
      let r = text_buffer_view_get_selected_text native h output n w in (some r.0.0, r.1)
  call renderable_create w = let r = native_renderable_create native w in (some r.0.0, r.1)
  call (renderable_destroy h) w = (none, native_renderable_destroy native h w)
  call (renderable_set_measure_target h n t) w =
      let r = native_renderable_set_measure_target native h n t w in (some r.0, r.1)
  call (renderable_clear_measure_target h) w =
      let r = native_renderable_clear_measure_target native h w in (some r.0, r.1)

  unfoldable pub run_text_calls : List Call → World → World
  run_text_calls [] w = w
  run_text_calls (c ∷ cs) w = run_text_calls cs (call c w).1
