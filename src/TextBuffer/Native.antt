-- ===== src/TextBuffer/Native.antt =====
-- What text_buffer_stubs.c calls: text buffers, views and renderables of the native library behind
-- native/opentui_abi.h. A request names the native function with the arguments that it is given.
-- Nothing is assumed of the answers.
use opentui_ocaml.Prelude.{ℕ, Bool, Option, List}
use opentui_ocaml.Prelude.Int.{ℤ}
use opentui_ocaml.Readers.{Color}

-- `opentui_external_styled_chunk`; a null link has length 0.
pub record StyledChunk : Type 0 where
  pub text : List ℕ
  pub fg : Color
  pub bg : Color
  pub attributes : ℕ
  pub link : Option (List ℕ)

-- `opentui_external_highlight`
pub record Highlight : Type 0 where
  pub start : ℕ
  pub end : ℕ
  pub style_id : ℕ
  pub priority : ℕ
  pub hl_ref : ℕ

-- `opentui_external_measure_result`
pub record MeasureResult : Type 0 where
  pub line_count : ℕ
  pub width_cols_max : ℕ

-- `opentui_external_line_info`; an array is passed with its length.
pub record LineInfo : Type 0 where
  pub start_cols : List ℕ
  pub width_cols : List ℕ
  pub sources : List ℕ
  pub wraps : List ℕ
  pub width_cols_max : ℕ

-- The native functions that return nothing. Bytes are passed with their length, and those of
-- length 0 by a null pointer.
pub data Command : Type 0 where
  destroy_text_buffer clear reset clear_all_highlights reset_defaults : ℕ → Command
  append : ℕ → List ℕ → Command
  set_text_from_mem set_tab_width remove_highlights_by_ref clear_line_highlights : ℕ → ℕ → Command
  set_styled_text : ℕ → List StyledChunk → Command
  add_highlight_by_char_range : ℕ → Highlight → Command
  add_highlight : ℕ → ℕ → Highlight → Command
  set_default_fg set_default_bg : ℕ → Color → Command
  set_default_attributes : ℕ → Option ℕ → Command
  destroy_view reset_selection reset_local_selection destroy_renderable : ℕ → Command
  set_wrap_width set_wrap_mode set_first_line_offset set_tab_indicator : ℕ → ℕ → Command
  set_selection : ℕ → ℕ → ℕ → Color → Color → Command
  update_selection : ℕ → ℕ → Color → Color → Command
  set_viewport_size : ℕ → ℕ → ℕ → Command
  set_viewport : ℕ → ℕ → ℕ → ℕ → ℕ → Command
  set_tab_indicator_color : ℕ → List ℕ → Command
  set_truncate : ℕ → Bool → Command

-- Those that return an unsigned integer or a handle.
pub data Query : Type 0 where
  create_text_buffer create_view : ℕ → Query
  get_byte_size get_length get_line_count get_tab_width : ℕ → Query
  register_mem_buffer : ℕ → List ℕ → Bool → Query
  get_selection_info get_virtual_line_count : ℕ → Query
  create_renderable : Query

-- Those that return whether they succeeded.
pub data Attempt : Type 0 where
  replace_mem_buffer : ℕ → ℕ → List ℕ → Bool → Attempt
  load_file : ℕ → List ℕ → Attempt
  set_syntax_style : ℕ → ℕ → Attempt
  set_local_selection update_local_selection : ℕ → ℤ → ℤ → ℤ → ℤ → Color → Color → Attempt
  set_measure_target : ℕ → ℕ → ℕ → Attempt

-- `selected_text` is given the bytes that it may overwrite and returns how many it reports and what
-- they are afterwards; `measure` answers `none` where it fails.
pub record NativeText : Type 1 where
  pub World : Type 0
  pub perform : Command → World → World
  pub ask : Query → World → ℕ × World
  pub try : Attempt → World → Bool × World
  pub selected_text : ℕ → List ℕ → World → ℕ × List ℕ × World
  pub measure : ℕ → ℕ → ℕ → World → Option MeasureResult × World
  pub line_info : ℕ → World → LineInfo × World
  pub logical_line_info : ℕ → World → LineInfo × World
