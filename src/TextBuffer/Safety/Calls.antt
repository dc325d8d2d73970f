-- ===== src/TextBuffer/Safety/Calls.antt =====
-- Every binding of text_buffer_stubs.c, and every history of them.
use opentui_ocaml.Prelude.{ℕ, ◌≡◌, ◌≢◌, Option, none, some, List, [], ◌∷◌, arith, some-injective}
use opentui_ocaml.Status.{Status, ok, invalid_argument, stale_handle}
use opentui_ocaml.TextBuffer.Native.{Command, Query, NativeText}
use opentui_ocaml.TextBuffer.Allowed.{Keeps}
use opentui_ocaml.TextBuffer.Behaves.{Behaves}
use opentui_ocaml.TextBuffer.Buffer.{text_buffer_destroy}
use opentui_ocaml.TextBuffer.View.{text_buffer_view_destroy}
use opentui_ocaml.TextBuffer.Selection.{
  text_buffer_view_get_selection_info, native_renderable_destroy,
}
use opentui_ocaml.TextBuffer.Safety.Buffer.{
  text_buffer_create-Behaves, text_buffer_clear-Behaves, text_buffer_reset-Behaves,
  text_buffer_append-Behaves, text_buffer_register_mem_buffer-Behaves,
  text_buffer_replace_mem_buffer-Behaves, text_buffer_set_text_from_mem-Behaves,
  text_buffer_length-Behaves, text_buffer_byte_size-Behaves, text_buffer_line_count-Behaves,
  text_buffer_load_file-Behaves, text_buffer_get_tab_width-Behaves,
  text_buffer_set_tab_width-Behaves,
}
use opentui_ocaml.TextBuffer.Safety.Styles.{
  text_buffer_set_styled_text-Behaves, text_buffer_clear_all_highlights-Behaves,
  text_buffer_add_highlight_by_char_range-Behaves, text_buffer_add_highlight-Behaves,
  text_buffer_remove_highlights_by_ref-Behaves, text_buffer_clear_line_highlights-Behaves,
}
use opentui_ocaml.TextBuffer.Safety.Defaults.{
  text_buffer_set_default_fg-Behaves, text_buffer_set_default_bg-Behaves,
  text_buffer_set_default_attributes-Behaves, text_buffer_reset_defaults-Behaves,
  text_buffer_set_syntax_style-Behaves,
}
use opentui_ocaml.TextBuffer.Safety.View.{
  text_buffer_view_create-Behaves, text_buffer_view_set_wrap_width-Behaves,
  text_buffer_view_set_first_line_offset-Behaves, text_buffer_view_set_tab_indicator-Behaves,
  text_buffer_view_set_wrap_mode-Behaves, text_buffer_view_set_viewport_size-Behaves,
  text_buffer_view_set_viewport-Behaves, text_buffer_view_get_virtual_line_count-Behaves,
  text_buffer_view_set_tab_indicator_color-Behaves, text_buffer_view_set_truncate-Behaves,
  text_buffer_view_measure_for_dimensions-Behaves, text_buffer_view_get_line_info-Behaves,
  text_buffer_view_get_logical_line_info-Behaves,
}
use opentui_ocaml.TextBuffer.Safety.Selection.{
  text_buffer_view_set_selection-Behaves, text_buffer_view_update_selection-Behaves,
  text_buffer_view_reset_selection-Behaves, text_buffer_view_set_local_selection-Behaves,
  text_buffer_view_update_local_selection-Behaves, text_buffer_view_reset_local_selection-Behaves,
  text_buffer_view_get_selected_text-Behaves, native_renderable_create-Behaves,
  native_renderable_set_measure_target-Behaves, native_renderable_clear_measure_target-Behaves,
}
use opentui_ocaml.TextBuffer.Calls.{
  Call, handle_of, call, run_text_calls, create, destroy, clear, reset, append, register_mem_buffer,
  replace_mem_buffer, set_text_from_mem, length, byte_size, line_count, load_file, get_tab_width,
  set_tab_width, set_styled_text, clear_all_highlights, add_highlight_by_char_range, add_highlight,
  remove_highlights_by_ref, clear_line_highlights, set_default_fg, set_default_bg,
  set_default_attributes, reset_defaults, set_syntax_style, view_create, view_destroy,
  view_set_wrap_width, view_set_first_line_offset, view_set_tab_indicator, view_set_wrap_mode,
  view_set_viewport_size, view_set_viewport, view_get_virtual_line_count,
  view_set_tab_indicator_color, view_set_truncate, view_measure_for_dimensions, view_get_line_info,
  view_get_logical_line_info, view_set_selection, view_update_selection, view_reset_selection,
  view_get_selection_info, view_set_local_selection, view_update_local_selection,
  view_reset_local_selection, view_get_selected_text, renderable_create, renderable_destroy,
  renderable_set_measure_target, renderable_clear_measure_target,
}

module _ (native : NativeText) (Good : native.World → Type 0) (keeps : Keeps native Good) where
  -- As `Behaves`, for a binding that may return no status.
  pub record Conforms (h : ℕ) (w : native.World) (status : Option Status) (w' : native.World)
      : Type 0 where
    pub kept : Good w → Good w'
    pub invalid : status ≡ some invalid_argument → w' ≡ w
    pub stale : status ≡ some stale_handle → h ≡ 0
    pub null : h ≡ 0 → (w' ≡ w) × (status ≢ some ok)

  conforms :
      {h : ℕ} {w : native.World} {status : Status} {w' : native.World}
      → Behaves Good h w status w'
      → Conforms h w (some status) w'
  conforms b = record {
    kept = b.kept;
    invalid = λ e. b.invalid (some-injective e);
    stale = λ e. b.stale (some-injective e);
    null = λ z. ((b.null z).0, λ e. (b.null z).1 (some-injective e));
  }

  text_buffer_destroy-Conforms :
      (h : ℕ) (w : native.World) → Conforms h w none (text_buffer_destroy native h w)
  unfolding text_buffer_destroy
  text_buffer_destroy-Conforms h w =
      ground (arith, keeps.performs (Command.destroy_text_buffer h) w)

  text_buffer_view_destroy-Conforms :
      (h : ℕ) (w : native.World) → Conforms h w none (text_buffer_view_destroy native h w)
  unfolding text_buffer_view_destroy
  text_buffer_view_destroy-Conforms h w = ground (arith, keeps.performs (Command.destroy_view h) w)

  text_buffer_view_get_selection_info-Conforms :
      (h : ℕ) (w : native.World)
      → Conforms h w none ((text_buffer_view_get_selection_info native h w).1)
  unfolding text_buffer_view_get_selection_info
  text_buffer_view_get_selection_info-Conforms h w =
      ground (arith, keeps.asks (Query.get_selection_info h) w)

  native_renderable_destroy-Conforms :
      (h : ℕ) (w : native.World) → Conforms h w none (native_renderable_destroy native h w)
  unfolding native_renderable_destroy
  native_renderable_destroy-Conforms h w =
      ground (arith, keeps.performs (Command.destroy_renderable h) w)

  pub call-Conforms :
      (c : Call) (w : native.World)
      → Conforms (handle_of c) w (call native c w).0 (call native c w).1
  unfolding call
  call-Conforms (create n) w = conforms (text_buffer_create-Behaves native Good keeps n w)
  call-Conforms (destroy h) w = text_buffer_destroy-Conforms h w
  call-Conforms (clear h) w = conforms (text_buffer_clear-Behaves native Good keeps h w)
  call-Conforms (reset h) w = conforms (text_buffer_reset-Behaves native Good keeps h w)
  call-Conforms (append h a) w = conforms (text_buffer_append-Behaves native Good keeps h a w)
  call-Conforms (register_mem_buffer h a owned) w =
      conforms (text_buffer_register_mem_buffer-Behaves native Good keeps h a owned w)
  call-Conforms (replace_mem_buffer h n a owned) w =
      conforms (text_buffer_replace_mem_buffer-Behaves native Good keeps h n a owned w)
  call-Conforms (set_text_from_mem h n m) w =
      conforms (text_buffer_set_text_from_mem-Behaves native Good keeps h n m w)
  call-Conforms (length h) w = conforms (text_buffer_length-Behaves native Good keeps h w)
  call-Conforms (byte_size h) w = conforms (text_buffer_byte_size-Behaves native Good keeps h w)
  call-Conforms (line_count h) w = conforms (text_buffer_line_count-Behaves native Good keeps h w)
  call-Conforms (load_file h v) w = conforms (text_buffer_load_file-Behaves native Good keeps h v w)
  call-Conforms (get_tab_width h) w =
      conforms (text_buffer_get_tab_width-Behaves native Good keeps h w)
  call-Conforms (set_tab_width h n) w =
      conforms (text_buffer_set_tab_width-Behaves native Good keeps h n w)
  call-Conforms (set_styled_text h v) w =
      conforms (text_buffer_set_styled_text-Behaves native Good keeps h v w)
  call-Conforms (clear_all_highlights h) w =
      conforms (text_buffer_clear_all_highlights-Behaves native Good keeps h w)
  call-Conforms (add_highlight_by_char_range h v) w =
      conforms (text_buffer_add_highlight_by_char_range-Behaves native Good keeps h v w)
  call-Conforms (add_highlight h l v) w =
      conforms (text_buffer_add_highlight-Behaves native Good keeps h l v w)
  call-Conforms (remove_highlights_by_ref h v) w =
      conforms (text_buffer_remove_highlights_by_ref-Behaves native Good keeps h v w)
  call-Conforms (clear_line_highlights h v) w =
      conforms (text_buffer_clear_line_highlights-Behaves native Good keeps h v w)
  call-Conforms (set_default_fg h v) w =
      conforms (text_buffer_set_default_fg-Behaves native Good keeps h v w)
  call-Conforms (set_default_bg h v) w =
      conforms (text_buffer_set_default_bg-Behaves native Good keeps h v w)
  call-Conforms (set_default_attributes h v) w =
      conforms (text_buffer_set_default_attributes-Behaves native Good keeps h v w)
  call-Conforms (reset_defaults h) w =
      conforms (text_buffer_reset_defaults-Behaves native Good keeps h w)
  call-Conforms (set_syntax_style h v) w =
      conforms (text_buffer_set_syntax_style-Behaves native Good keeps h v w)
  call-Conforms (view_create h) w = conforms (text_buffer_view_create-Behaves native Good keeps h w)
  call-Conforms (view_destroy h) w = text_buffer_view_destroy-Conforms h w
  call-Conforms (view_set_wrap_width h n) w =
      conforms (text_buffer_view_set_wrap_width-Behaves native Good keeps h n w)
  call-Conforms (view_set_first_line_offset h n) w =
      conforms (text_buffer_view_set_first_line_offset-Behaves native Good keeps h n w)
  call-Conforms (view_set_tab_indicator h n) w =
      conforms (text_buffer_view_set_tab_indicator-Behaves native Good keeps h n w)
  call-Conforms (view_set_wrap_mode h n) w =
      conforms (text_buffer_view_set_wrap_mode-Behaves native Good keeps h n w)
  call-Conforms (view_set_viewport_size h n m) w =
      conforms (text_buffer_view_set_viewport_size-Behaves native Good keeps h n m w)
  call-Conforms (view_set_viewport h x y n m) w =
      conforms (text_buffer_view_set_viewport-Behaves native Good keeps h x y n m w)
  call-Conforms (view_get_virtual_line_count h) w =
      conforms (text_buffer_view_get_virtual_line_count-Behaves native Good keeps h w)
  call-Conforms (view_set_tab_indicator_color h v) w =
      conforms (text_buffer_view_set_tab_indicator_color-Behaves native Good keeps h v w)
  call-Conforms (view_set_truncate h on) w =
      conforms (text_buffer_view_set_truncate-Behaves native Good keeps h on w)
  call-Conforms (view_measure_for_dimensions h n m) w =
      conforms (text_buffer_view_measure_for_dimensions-Behaves native Good keeps h n m w)
  call-Conforms (view_get_line_info h) w =
      conforms (text_buffer_view_get_line_info-Behaves native Good keeps h w)
  call-Conforms (view_get_logical_line_info h) w =
      conforms (text_buffer_view_get_logical_line_info-Behaves native Good keeps h w)
  call-Conforms (view_set_selection h n m b f) w =
      conforms (text_buffer_view_set_selection-Behaves native Good keeps h n m b f w)
  call-Conforms (view_update_selection h n b f) w =
      conforms (text_buffer_view_update_selection-Behaves native Good keeps h n b f w)
  call-Conforms (view_reset_selection h) w =
      conforms (text_buffer_view_reset_selection-Behaves native Good keeps h w)
  call-Conforms (view_get_selection_info h) w = text_buffer_view_get_selection_info-Conforms h w
  call-Conforms (view_set_local_selection h v) w =
      conforms (text_buffer_view_set_local_selection-Behaves native Good keeps h v w)
  call-Conforms (view_update_local_selection h v) w =
      conforms (text_buffer_view_update_local_selection-Behaves native Good keeps h v w)
  call-Conforms (view_reset_local_selection h) w =
      conforms (text_buffer_view_reset_local_selection-Behaves native Good keeps h w)
  call-Conforms (view_get_selected_text h output n) w =
      conforms (text_buffer_view_get_selected_text-Behaves native Good keeps h output n w)
  call-Conforms renderable_create w =
      conforms (native_renderable_create-Behaves native Good keeps w)
  call-Conforms (renderable_destroy h) w = native_renderable_destroy-Conforms h w
  call-Conforms (renderable_set_measure_target h n t) w =
      conforms (native_renderable_set_measure_target-Behaves native Good keeps h n t w)
  call-Conforms (renderable_clear_measure_target h) w =
      conforms (native_renderable_clear_measure_target-Behaves native Good keeps h w)

  -- Whatever property of the native state the allowed native calls keep, every history of the
  -- bindings keeps it, whatever their arguments are: no call works on a null handle, every unsigned
  -- integer is in the range of its type, every mode in its enumeration, and every colour is null or
  -- four bytes. Nothing is said of the signed coordinates of a local selection; a syntax style may
  -- be null, and a measure target is null exactly where nothing is measured.
  pub run_text_calls-Good :
      (cs : List Call) (w : native.World) → Good w → Good (run_text_calls native cs w)
  unfolding run_text_calls
  run_text_calls-Good [] w g = g
  run_text_calls-Good (c ∷ cs) w g =
      run_text_calls-Good cs (call native c w).1 ((call-Conforms c w).kept g)
