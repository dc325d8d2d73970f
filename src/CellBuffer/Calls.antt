-- ===== src/CellBuffer/Calls.antt =====
-- Histories of the buffer bindings of raw_stubs.c.
use opentui_ocaml.Prelude.{ℕ, Bool, List, [], ◌∷◌}
use opentui_ocaml.Prelude.Int.{ℤ}
use opentui_ocaml.Status.{Status, ok}
use opentui_ocaml.Values.{Value}
use opentui_ocaml.CellBuffer.Native.{NativeBuffer}
use opentui_ocaml.CellBuffer.Drawing.{
  buffer_clear, optimized_buffer_clear, buffer_set_cell, optimized_buffer_set_cell,
  buffer_draw_text, optimized_buffer_draw_text, buffer_draw_box, buffer_draw_text_buffer_view,
  optimized_buffer_fill_rect, optimized_buffer_draw_grayscale_buffer,
  optimized_buffer_draw_frame_buffer, optimized_buffer_resize, optimized_buffer_draw_grid,
}
use opentui_ocaml.CellBuffer.Scopes.{
  buffer_push_scissor_rect, buffer_pop_scissor_rect, buffer_clear_scissor_rects,
  buffer_push_opacity, buffer_pop_opacity, buffer_clear_opacity, buffer_write_resolved_chars,
  optimized_buffer_create, optimized_buffer_destroy,
}

-- The bindings that draw, and those that write out, create and destroy.
pub data Call : Type 0 where
  clear : ℕ → Value → Call
  optimized_clear : ℕ → Value → Call
  set_cell : ℕ → Value → Call
  optimized_set_cell : ℕ → Value → Bool → Call
  draw_text : ℕ → Value → Call
  optimized_draw_text : ℕ → Value → Call
  draw_box : ℕ → Value → Call
  draw_text_buffer_view : ℕ → ℕ → ℤ → ℤ → Call
  optimized_fill_rect : ℕ → Value → Call
  optimized_draw_grayscale_buffer : ℕ → Value → Bool → Call
  optimized_draw_frame_buffer : ℕ → Value → Call
  optimized_resize : ℕ → ℤ → ℤ → Call
  optimized_draw_grid : ℕ → Value → Call
  push_scissor_rect : ℕ → Value → Call
  pop_scissor_rect : ℕ → Call
  clear_scissor_rects : ℕ → Call
  push_opacity : ℕ → Value → Call
  pop_opacity : ℕ → Call
  clear_opacity : ℕ → Call
  write_resolved_chars : ℕ → List ℕ → Bool → Call
  create : ℤ → ℤ → Bool → ℤ → List ℕ → Call
  destroy : ℕ → Call

module _ (native : NativeBuffer) where
  open native use {World}

  -- The status, which a destruction does not have, and the state afterwards.
  unfoldable pub call : Call → World → Status × World
  call (clear h v) w = buffer_clear native h v w
  call (optimized_clear h v) w = optimized_buffer_clear native h v w
  call (set_cell h v) w = buffer_set_cell native h v w
  call (optimized_set_cell h v b) w = optimized_buffer_set_cell native h v b w
  call (draw_text h v) w = buffer_draw_text native h v w
  call (optimized_draw_text h v) w = optimized_buffer_draw_text native h v w
  call (draw_box h v) w = buffer_draw_box native h v w
  call (draw_text_buffer_view h k m n) w = buffer_draw_text_buffer_view native h k m n w
  call (optimized_fill_rect h v) w = optimized_buffer_fill_rect native h v w
  call (optimized_draw_grayscale_buffer h v b) w =
      optimized_buffer_draw_grayscale_buffer native h v b w
  call (optimized_draw_frame_buffer h v) w = optimized_buffer_draw_frame_buffer native h v w
  call (optimized_resize h m n) w = optimized_buffer_resize native h m n w
  call (optimized_draw_grid h v) w = optimized_buffer_draw_grid native h v w
  call (push_scissor_rect h v) w = buffer_push_scissor_rect native h v w
  call (pop_scissor_rect h) w = buffer_pop_scissor_rect native h w
  call (clear_scissor_rects h) w = buffer_clear_scissor_rects native h w
  call (push_opacity h v) w = buffer_push_opacity native h v w
  call (pop_opacity h) w = buffer_pop_opacity native h w
  call (clear_opacity h) w = buffer_clear_opacity native h w
  call (write_resolved_chars h output b) w =
      let r = buffer_write_resolved_chars native h output b w in (r.0.0, r.1)
  call (create m n b method id) w =
      let r = optimized_buffer_create native m n b method id w in (r.0.0, r.1)
  -- A destruction answers no status.
  call (destroy h) w = (ok, optimized_buffer_destroy native h w)

  unfoldable pub run_buffer_calls : List Call → World → World
  run_buffer_calls [] w = w
  run_buffer_calls (c ∷ cs) w = run_buffer_calls cs (call c w).1
