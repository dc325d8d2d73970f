-- ===== src/CellBuffer/Native.antt =====
-- What the buffer bindings of raw_stubs.c call: cell buffers of the native library behind
-- native/opentui_abi.h. A drawing names the native function with the arguments that it is given.
use opentui_ocaml.Prelude.{ℕ, Bool, List, Option}
use opentui_ocaml.Prelude.Int.{ℤ}
use opentui_ocaml.Yoga.Native.{Double}
use opentui_ocaml.Readers.{Color}

-- `opentui_external_grid_draw_options`
pub record GridOptions : Type 0 where
  pub draw_inner : Bool
  pub draw_outer : Bool

-- A cell or a text at a position, with its two colours and its attributes.
pub record Spot : Type 0 where
  pub x : ℕ
  pub y : ℕ
  pub fg : List ℕ
  pub bg : List ℕ
  pub attributes : ℕ

-- What a box looks like; a null title has no bytes.
pub record BoxStyle : Type 0 where
  pub border_chars : List ℕ
  pub packed_options : ℕ
  pub border_color : List ℕ
  pub background_color : List ℕ
  pub title_color : List ℕ
  pub title : Option (List ℕ)
  pub bottom_title : Option (List ℕ)

-- The native functions that return nothing.
pub data Drawing (Single : Type 0) : Type 0 where
  clear : ℕ → List ℕ → Drawing Single
  set_cell set_cell_blended : ℕ → ℕ → Spot → Drawing Single
  draw_text : ℕ → List ℕ → Spot → Drawing Single
  draw_box : ℕ → ℤ → ℤ → ℕ → ℕ → BoxStyle → Drawing Single
  draw_view : ℕ → ℕ → ℤ → ℤ → Drawing Single
  fill_rect : ℕ → ℕ → ℕ → ℕ → ℕ → List ℕ → Drawing Single
  draw_gray draw_gray_supersampled :
      ℕ → ℤ → ℤ → List Single → ℕ → ℕ → Color → Color → Drawing Single
  draw_frame : ℕ → ℤ → ℤ → ℕ → ℕ → ℕ → ℕ → ℕ → Drawing Single
  resize : ℕ → ℕ → ℕ → Drawing Single
  draw_grid : ℕ → List ℕ → List ℕ → List ℕ → List ℤ → ℕ → List ℤ → ℕ → GridOptions → Drawing Single
  push_scissor_rect : ℕ → ℤ → ℤ → ℕ → ℕ → Drawing Single
  pop_scissor_rect clear_scissor_rects pop_opacity clear_opacity : ℕ → Drawing Single
  push_opacity : ℕ → Single → Drawing Single

-- `write_chars` overwrites the bytes that it is given and returns how many it wrote.
pub record NativeBuffer : Type 1 where
  pub World : Type 0
  pub Single : Type 0
  pub to_single : Double → Single
  pub to_double : Single → Double
  pub buffer_width : ℕ → World → ℕ
  pub buffer_height : ℕ → World → ℕ
  pub draw : Drawing Single → World → World
  pub current_opacity : ℕ → World → Single
  pub write_chars : ℕ → List ℕ → Bool → World → (ℕ × List ℕ) × World
  pub create_optimized : ℕ → ℕ → Bool → ℕ → List ℕ → World → ℕ × World
  pub destroy_optimized : ℕ → World → World
