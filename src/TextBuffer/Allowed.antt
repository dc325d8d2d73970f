-- ===== src/TextBuffer/Allowed.antt =====
-- Which arguments the native functions behind text_buffer_stubs.c may be given, by the types of
-- native/opentui_abi.h and the enumerations of the native library: no call on a null handle,
-- unsigned integers that fit their type, and colours of four byte-sized channels. A null syntax
-- style takes the style away.
use opentui_ocaml.Prelude.{ℕ, ◌^◌, ◌≤◌, ◌<◌, ◌≡◌, ◌≢◌, ◌↔◌, none, some, List, [], ◌∷◌, length}
use opentui_ocaml.Readers.Laws.{IsChannels, IsColor}
use opentui_ocaml.TextBuffer.Native.{
  StyledChunk, Highlight, Command, Query, Attempt, NativeText, destroy_text_buffer, clear, reset,
  clear_all_highlights, reset_defaults, append, set_text_from_mem, set_tab_width,
  remove_highlights_by_ref, clear_line_highlights, set_styled_text, add_highlight_by_char_range,
  add_highlight, set_default_fg, set_default_bg, set_default_attributes, destroy_view,
  reset_selection, reset_local_selection, destroy_renderable, set_wrap_width, set_wrap_mode,
  set_first_line_offset, set_tab_indicator, set_selection, update_selection, set_viewport_size,
  set_viewport, set_tab_indicator_color, set_truncate, create_text_buffer, create_view,
  get_byte_size, get_length, get_line_count, get_tab_width, register_mem_buffer, get_selection_info,
  get_virtual_line_count, create_renderable, replace_mem_buffer, load_file, set_syntax_style,
  set_local_selection, update_local_selection, set_measure_target,
}

pub record IsHighlight (h : Highlight) : Type 0 where
  pub starts : h.start < 2 ^ 32
  pub ends : h.end < 2 ^ 32
  pub styled : h.style_id < 2 ^ 32
  pub prior : h.priority < 2 ^ 8
  pub referred : h.hl_ref < 2 ^ 16

pub record IsChunk (c : StyledChunk) : Type 0 where
  pub foreground : IsColor c.fg
  pub background : IsColor c.bg
  pub attributed : c.attributes < 2 ^ 32

abbrev pub AllChunks : List StyledChunk → Type 0
AllChunks [] = Unit {0}
AllChunks (c ∷ cs) = IsChunk c × AllChunks cs

-- Bytes are passed with a 32-bit length.
abbrev pub IsSized : List ℕ → Type 0
IsSized bytes = length bytes < 2 ^ 32

abbrev pub IsAllowed : Command → Type 0
IsAllowed (destroy_text_buffer h) = h ≢ 0
IsAllowed (clear h) = h ≢ 0
IsAllowed (reset h) = h ≢ 0
IsAllowed (clear_all_highlights h) = h ≢ 0
IsAllowed (reset_defaults h) = h ≢ 0
IsAllowed (append h bytes) = (h ≢ 0) × IsSized bytes
IsAllowed (set_text_from_mem h id) = (h ≢ 0) × (id < 2 ^ 8)
IsAllowed (set_tab_width h width) = (h ≢ 0) × (width < 2 ^ 8)
IsAllowed (remove_highlights_by_ref h ref) = (h ≢ 0) × (ref < 2 ^ 16)
IsAllowed (clear_line_highlights h line) = (h ≢ 0) × (line < 2 ^ 31)
IsAllowed (set_styled_text h chunks) =
    (h ≢ 0) × (0 < length chunks) × (length chunks < 2 ^ 32) × AllChunks chunks
IsAllowed (add_highlight_by_char_range h l) = (h ≢ 0) × IsHighlight l
IsAllowed (add_highlight h line l) = (h ≢ 0) × (line < 2 ^ 31) × IsHighlight l
IsAllowed (set_default_fg h color) = (h ≢ 0) × IsColor color
IsAllowed (set_default_bg h color) = (h ≢ 0) × IsColor color
IsAllowed (set_default_attributes h none) = h ≢ 0
IsAllowed (set_default_attributes h (some n)) = (h ≢ 0) × (n < 2 ^ 32)
IsAllowed (destroy_view h) = h ≢ 0
IsAllowed (reset_selection h) = h ≢ 0
IsAllowed (reset_local_selection h) = h ≢ 0
IsAllowed (destroy_renderable h) = h ≢ 0
IsAllowed (set_wrap_width h width) = (h ≢ 0) × (width < 2 ^ 31)
IsAllowed (set_wrap_mode h mode) = (h ≢ 0) × (mode ≤ 2)
IsAllowed (set_first_line_offset h offset) = (h ≢ 0) × (offset < 2 ^ 31)
IsAllowed (set_tab_indicator h indicator) = (h ≢ 0) × (indicator < 2 ^ 31)
IsAllowed (set_selection h start end bg fg) =
    (h ≢ 0) × (start < 2 ^ 31) × (end < 2 ^ 31) × IsColor bg × IsColor fg
IsAllowed (update_selection h end bg fg) = (h ≢ 0) × (end < 2 ^ 31) × IsColor bg × IsColor fg
IsAllowed (set_viewport_size h width height) = (h ≢ 0) × (width < 2 ^ 31) × (height < 2 ^ 31)
IsAllowed (set_viewport h x y width height) =
    (h ≢ 0) × (x < 2 ^ 31) × (y < 2 ^ 31) × (width < 2 ^ 31) × (height < 2 ^ 31)
IsAllowed (set_tab_indicator_color h color) = (h ≢ 0) × IsChannels color
IsAllowed (set_truncate h on) = h ≢ 0

abbrev pub MayAsk : Query → Type 0
MayAsk (create_text_buffer method) = method ≤ 1
MayAsk (create_view buffer) = buffer ≢ 0
MayAsk (get_byte_size h) = h ≢ 0
MayAsk (get_length h) = h ≢ 0
MayAsk (get_line_count h) = h ≢ 0
MayAsk (get_tab_width h) = h ≢ 0
MayAsk (register_mem_buffer h bytes owned) = (h ≢ 0) × IsSized bytes
MayAsk (get_selection_info h) = h ≢ 0
MayAsk (get_virtual_line_count h) = h ≢ 0
MayAsk create_renderable = Unit {0}

-- A renderable measures either nothing, with no target, or a text buffer view.
abbrev pub MayTry : Attempt → Type 0
MayTry (replace_mem_buffer h id bytes owned) = (h ≢ 0) × (id < 2 ^ 8) × IsSized bytes
MayTry (load_file h path) = (h ≢ 0) × IsSized path
MayTry (set_syntax_style h style) = (h ≢ 0) × (style < 2 ^ 32)
MayTry (set_local_selection h ax ay fx fy bg fg) = (h ≢ 0) × IsColor bg × IsColor fg
MayTry (update_local_selection h ax ay fx fy bg fg) = (h ≢ 0) × IsColor bg × IsColor fg
MayTry (set_measure_target h kind target) = (h ≢ 0) × (kind ≤ 1) × ((kind ≡ 0) ↔ (target ≡ 0))

-- A property of the native state that every call with such arguments keeps.
pub record Keeps (native : NativeText) (Good : native.World → Type 0) : Type 0 where
  pub performs : (c : Command) (w : native.World) → IsAllowed c → Good w → Good (native.perform c w)
  pub asks : (q : Query) (w : native.World) → MayAsk q → Good w → Good (native.ask q w).1
  pub tries : (a : Attempt) (w : native.World) → MayTry a → Good w → Good (native.try a w).1
  pub selects :
      (h : ℕ) (room : List ℕ) (w : native.World)
      → h ≢ 0
      → IsSized room
      → Good w
      → Good (native.selected_text h room w).2
  pub measures :
      (h width height : ℕ) (w : native.World)
      → h ≢ 0
      → width < 2 ^ 31
      → height < 2 ^ 31
      → Good w
      → Good (native.measure h width height w).1
  pub lines : (h : ℕ) (w : native.World) → h ≢ 0 → Good w → Good (native.line_info h w).1
  pub logical_lines :
      (h : ℕ) (w : native.World) → h ≢ 0 → Good w → Good (native.logical_line_info h w).1
