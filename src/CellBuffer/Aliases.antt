-- ===== src/CellBuffer/Aliases.antt =====
-- The bindings of raw_stubs.c on buffers that only call another one.
use opentui_ocaml.Prelude.{ℕ, true, false}
use opentui_ocaml.Status.{Status}
use opentui_ocaml.Values.{Value}
use opentui_ocaml.CellBuffer.Native.{NativeBuffer}
use opentui_ocaml.CellBuffer.Drawing.{
  optimized_buffer_set_cell, optimized_buffer_fill_rect, optimized_buffer_draw_grayscale_buffer,
  optimized_buffer_draw_frame_buffer, optimized_buffer_draw_grid,
}

abbrev pub optimized_buffer_as_buffer : ℕ → ℕ
optimized_buffer_as_buffer h = h

module _ (native : NativeBuffer) where
  open native use {World}

  abbrev pub optimized_buffer_set_cell_with_alpha_blending : ℕ → Value → World → Status × World
  optimized_buffer_set_cell_with_alpha_blending h v w = optimized_buffer_set_cell native h v true w

  abbrev pub buffer_set_cell_with_alpha_blending : ℕ → Value → World → Status × World
  buffer_set_cell_with_alpha_blending h v w = optimized_buffer_set_cell_with_alpha_blending h v w

  abbrev pub buffer_fill_rect : ℕ → Value → World → Status × World
  buffer_fill_rect h v w = optimized_buffer_fill_rect native h v w

  abbrev pub buffer_draw_grayscale_buffer : ℕ → Value → World → Status × World
  buffer_draw_grayscale_buffer h v w = optimized_buffer_draw_grayscale_buffer native h v false w

  abbrev pub buffer_draw_grayscale_buffer_supersampled : ℕ → Value → World → Status × World
  buffer_draw_grayscale_buffer_supersampled h v w =
      optimized_buffer_draw_grayscale_buffer native h v true w

  abbrev pub buffer_draw_frame_buffer : ℕ → Value → World → Status × World
  buffer_draw_frame_buffer target v w = optimized_buffer_draw_frame_buffer native target v w

  abbrev pub buffer_draw_grid : ℕ → Value → World → Status × World
  buffer_draw_grid h v w = optimized_buffer_draw_grid native h v w
