-- ===== src/CellBuffer/Refusal.antt =====
-- What a refused call of the buffer bindings of raw_stubs.c leaves alone.
use opentui_ocaml.Prelude.{◌≡◌, ◌≢◌, Bool, true, false, not, ◌&&◌, ◌==◌}
use opentui_ocaml.Status.{Status, ok}
use opentui_ocaml.Values.{field, int32_val, to_uint32}
use opentui_ocaml.CellBuffer.Native.{NativeBuffer}
use opentui_ocaml.CellBuffer.Request.{Request, buffer_is_valid}
use opentui_ocaml.CellBuffer.Calls.{
  Call, write_resolved_chars, create, destroy, clear, optimized_clear, set_cell, optimized_set_cell,
  draw_text, optimized_draw_text, draw_box, draw_text_buffer_view, optimized_fill_rect,
  optimized_draw_grayscale_buffer, optimized_draw_frame_buffer, optimized_resize,
  optimized_draw_grid, push_scissor_rect, pop_scissor_rect, clear_scissor_rects, push_opacity,
  pop_opacity, clear_opacity,
}

module _ (native : NativeBuffer) where
  open native use {World, Single}

  -- Whether a call has what it works on: buffers that are there, or for a destruction a handle that
  -- is not null. A creation works on nothing.
  abbrev pub finds_buffers : Call → World → Bool
  finds_buffers (clear h v) w = buffer_is_valid native h w
  finds_buffers (optimized_clear h v) w = buffer_is_valid native h w
  finds_buffers (set_cell h v) w = buffer_is_valid native h w
  finds_buffers (optimized_set_cell h v b) w = buffer_is_valid native h w
  finds_buffers (draw_text h v) w = buffer_is_valid native h w
  finds_buffers (optimized_draw_text h v) w = buffer_is_valid native h w
  finds_buffers (draw_box h v) w = buffer_is_valid native h w
  finds_buffers (draw_text_buffer_view h k m n) w = buffer_is_valid native h w
  finds_buffers (optimized_fill_rect h v) w = buffer_is_valid native h w
  finds_buffers (optimized_draw_grayscale_buffer h v b) w = buffer_is_valid native h w
  finds_buffers (optimized_draw_frame_buffer h v) w =
      buffer_is_valid native h w && buffer_is_valid native (to_uint32 (int32_val (field v 2))) w
  finds_buffers (optimized_resize h m n) w = buffer_is_valid native h w
  finds_buffers (optimized_draw_grid h v) w = buffer_is_valid native h w
  finds_buffers (push_scissor_rect h v) w = buffer_is_valid native h w
  finds_buffers (pop_scissor_rect h) w = buffer_is_valid native h w
  finds_buffers (clear_scissor_rects h) w = buffer_is_valid native h w
  finds_buffers (push_opacity h v) w = buffer_is_valid native h w
  finds_buffers (pop_opacity h) w = buffer_is_valid native h w
  finds_buffers (clear_opacity h) w = buffer_is_valid native h w
  finds_buffers (write_resolved_chars h output b) w = buffer_is_valid native h w
  finds_buffers (create m n b method id) w = true
  finds_buffers (destroy h) w = not (h == 0)

  -- Whether the binding answers a status; a destruction does not.
  abbrev pub answers : Call → Bool
  answers (destroy h) = false
  answers _ = true

  -- An answer that is not success, with the state as it was.
  abbrev pub Refused : World → Status × World → Type 0
  Refused w r = (r.0 ≢ ok) × (r.1 ≡ w)
