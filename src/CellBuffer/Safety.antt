-- ===== src/CellBuffer/Safety.antt =====
-- The buffer bindings of raw_stubs.c keep whatever allowed calls of the native side keep.
use opentui_ocaml.Prelude.{
  ℕ, ◌-◌, ◌^◌, ◌≡◌, ◌≢◌, refl, Bool, false, List, [], ◌∷◌, arith, length, leb→le,
}
use opentui_ocaml.Prelude.Int.{ℤ}
use opentui_ocaml.Status.{Status, ok, invalid_argument, stale_handle}
use opentui_ocaml.Values.{Value, to_uint32}
use opentui_ocaml.Readers.Laws.{in_range-le}
use opentui_ocaml.CellBuffer.Native.{NativeBuffer}
use opentui_ocaml.CellBuffer.Request.{Request, refuse, issue, execute}
use opentui_ocaml.CellBuffer.Drawing.{
  buffer_clear, optimized_buffer_clear, buffer_set_cell, optimized_buffer_set_cell,
  buffer_draw_text, optimized_buffer_draw_text, buffer_draw_box, buffer_draw_text_buffer_view,
  optimized_buffer_fill_rect, optimized_buffer_draw_grayscale_buffer,
  optimized_buffer_draw_frame_buffer, optimized_buffer_resize, optimized_buffer_draw_grid,
}
use opentui_ocaml.CellBuffer.Scopes.{
  buffer_push_scissor_rect, buffer_pop_scissor_rect, buffer_clear_scissor_rects,
  buffer_push_opacity, buffer_pop_opacity, buffer_clear_opacity, buffer_write_resolved_chars,
  optimized_buffer_create, optimized_buffer_destroy,
}
use opentui_ocaml.CellBuffer.Allowed.{IsAllowed, Keeps}
use opentui_ocaml.CellBuffer.Rules.{buffer_is_valid-IsLive, valid_rule, is_nonzero_positive-bounds}
use opentui_ocaml.CellBuffer.Requests.{
  clear_request-IsAllowed, cell_request-IsAllowed, text_request-IsAllowed, box_request-IsAllowed,
  view_request-IsAllowed, rect_request-IsAllowed, gray_request-IsAllowed, frame_request-IsAllowed,
  resize_request-IsAllowed, grid_request-IsAllowed, scissor_request-IsAllowed,
  opacity_request-IsAllowed,
}
use opentui_ocaml.CellBuffer.Calls.{
  Call, call, run_buffer_calls, write_resolved_chars, create, destroy, clear, optimized_clear,
  set_cell, optimized_set_cell, draw_text, optimized_draw_text, draw_box, draw_text_buffer_view,
  optimized_fill_rect, optimized_draw_grayscale_buffer, optimized_draw_frame_buffer,
  optimized_resize, optimized_draw_grid, push_scissor_rect, pop_scissor_rect, clear_scissor_rects,
  push_opacity, pop_opacity, clear_opacity,
}

module _ (native : NativeBuffer) (Good : native.World → Type 0) (keeps : Keeps native Good) where
  -- A drawing that keeps the property, and touches nothing unless it succeeds.
  abbrev Draws : native.World → Status × native.World → Type 0
  Draws w r = (Good w → Good r.1) × (r.0 ≢ ok → r.1 ≡ w)

  execute-Draws :
      (w : native.World) (r : Request native.Single)
      → IsAllowed native w r
      → Draws w (execute native r w)
  unfolding execute
  execute-Draws w (refuse s) a = ((λ g. g), λ e. refl)
  execute-Draws w (issue d) a = (keeps.draws d w a, λ e. absurd (e refl))

  buffer_clear-Draws : (h : ℕ) (v : Value) (w : native.World) → Draws w (buffer_clear native h v w)
  unfolding buffer_clear
  buffer_clear-Draws h v w = execute-Draws w _ (clear_request-IsAllowed native w h v)

  optimized_buffer_clear-Draws :
      (h : ℕ) (v : Value) (w : native.World) → Draws w (optimized_buffer_clear native h v w)
  unfolding optimized_buffer_clear
  optimized_buffer_clear-Draws h v w = execute-Draws w _ (clear_request-IsAllowed native w h v)

  buffer_set_cell-Draws :
      (h : ℕ) (v : Value) (w : native.World) → Draws w (buffer_set_cell native h v w)
  unfolding buffer_set_cell
  buffer_set_cell-Draws h v w = execute-Draws w _ (cell_request-IsAllowed native w h v false)

  optimized_buffer_set_cell-Draws :
      (h : ℕ) (v : Value) (b : Bool) (w : native.World)
      → Draws w (optimized_buffer_set_cell native h v b w)
  unfolding optimized_buffer_set_cell
  optimized_buffer_set_cell-Draws h v b w =
      execute-Draws w _ (cell_request-IsAllowed native w h v b)

  buffer_draw_text-Draws :
      (h : ℕ) (v : Value) (w : native.World) → Draws w (buffer_draw_text native h v w)
  unfolding buffer_draw_text
  buffer_draw_text-Draws h v w = execute-Draws w _ (text_request-IsAllowed native w h v)

  optimized_buffer_draw_text-Draws :
      (h : ℕ) (v : Value) (w : native.World) → Draws w (optimized_buffer_draw_text native h v w)
  unfolding optimized_buffer_draw_text
  optimized_buffer_draw_text-Draws h v w = execute-Draws w _ (text_request-IsAllowed native w h v)

  buffer_draw_box-Draws :
      (h : ℕ) (v : Value) (w : native.World) → Draws w (buffer_draw_box native h v w)
  unfolding buffer_draw_box
  buffer_draw_box-Draws h v w = execute-Draws w _ (box_request-IsAllowed native w h v)

  buffer_draw_text_buffer_view-Draws :
      (h : ℕ) (k : ℕ) (m : ℤ) (n : ℤ) (w : native.World)
      → Draws w (buffer_draw_text_buffer_view native h k m n w)
  unfolding buffer_draw_text_buffer_view
  buffer_draw_text_buffer_view-Draws h k m n w =
      execute-Draws w _ (view_request-IsAllowed native w h k m n)

  optimized_buffer_fill_rect-Draws :
      (h : ℕ) (v : Value) (w : native.World) → Draws w (optimized_buffer_fill_rect native h v w)
  unfolding optimized_buffer_fill_rect
  optimized_buffer_fill_rect-Draws h v w = execute-Draws w _ (rect_request-IsAllowed native w h v)

  optimized_buffer_draw_grayscale_buffer-Draws :
      (h : ℕ) (v : Value) (b : Bool) (w : native.World)
      → Draws w (optimized_buffer_draw_grayscale_buffer native h v b w)
  unfolding optimized_buffer_draw_grayscale_buffer
  optimized_buffer_draw_grayscale_buffer-Draws h v b w =
      execute-Draws w _ (gray_request-IsAllowed native w h v b)

  optimized_buffer_draw_frame_buffer-Draws :
      (h : ℕ) (v : Value) (w : native.World)
      → Draws w (optimized_buffer_draw_frame_buffer native h v w)
  unfolding optimized_buffer_draw_frame_buffer
  optimized_buffer_draw_frame_buffer-Draws h v w =
      execute-Draws w _ (frame_request-IsAllowed native w h v)

  optimized_buffer_resize-Draws :
      (h : ℕ) (m : ℤ) (n : ℤ) (w : native.World) → Draws w (optimized_buffer_resize native h m n w)
  unfolding optimized_buffer_resize
  optimized_buffer_resize-Draws h m n w =
      execute-Draws w _ (resize_request-IsAllowed native w h m n)

  optimized_buffer_draw_grid-Draws :
      (h : ℕ) (v : Value) (w : native.World) → Draws w (optimized_buffer_draw_grid native h v w)
  unfolding optimized_buffer_draw_grid
  optimized_buffer_draw_grid-Draws h v w = execute-Draws w _ (grid_request-IsAllowed native w h v)

  buffer_push_scissor_rect-Draws :
      (h : ℕ) (v : Value) (w : native.World) → Draws w (buffer_push_scissor_rect native h v w)
  unfolding buffer_push_scissor_rect
  buffer_push_scissor_rect-Draws h v w = execute-Draws w _ (scissor_request-IsAllowed native w h v)

  buffer_pop_scissor_rect-Draws :
      (h : ℕ) (w : native.World) → Draws w (buffer_pop_scissor_rect native h w)
  unfolding buffer_pop_scissor_rect
  buffer_pop_scissor_rect-Draws h w = execute-Draws w _ (valid_rule native w h _ (λ live. live))

  buffer_clear_scissor_rects-Draws :
      (h : ℕ) (w : native.World) → Draws w (buffer_clear_scissor_rects native h w)
  unfolding buffer_clear_scissor_rects
  buffer_clear_scissor_rects-Draws h w = execute-Draws w _ (valid_rule native w h _ (λ live. live))

  buffer_push_opacity-Draws :
      (h : ℕ) (v : Value) (w : native.World) → Draws w (buffer_push_opacity native h v w)
  unfolding buffer_push_opacity
  buffer_push_opacity-Draws h v w = execute-Draws w _ (opacity_request-IsAllowed native w h v)

  buffer_pop_opacity-Draws : (h : ℕ) (w : native.World) → Draws w (buffer_pop_opacity native h w)
  unfolding buffer_pop_opacity
  buffer_pop_opacity-Draws h w = execute-Draws w _ (valid_rule native w h _ (λ live. live))

  buffer_clear_opacity-Draws :
      (h : ℕ) (w : native.World) → Draws w (buffer_clear_opacity native h w)
  unfolding buffer_clear_opacity
  buffer_clear_opacity-Draws h w = execute-Draws w _ (valid_rule native w h _ (λ live. live))

  -- A call keeps the property, and changes nothing where it refuses an argument or a handle.
  pub record Behaves (w : native.World) (r : Status × native.World) : Type 0 where
    pub kept : Good w → Good r.1
    pub invalid : r.0 ≡ invalid_argument → r.1 ≡ w
    pub stale : r.0 ≡ stale_handle → r.1 ≡ w

  drawn : {w : native.World} {r : Status × native.World} → Draws w r → Behaves w r
  drawn d = record { kept = d.0; invalid = λ e. d.1 (λ good. cc); stale = λ e. d.1 (λ good. cc) }

  pub call-Behaves : (c : Call) (w : native.World) → Behaves w (call native c w)
  unfolding call buffer_write_resolved_chars optimized_buffer_create optimized_buffer_destroy
  call-Behaves (clear h v) w = drawn (buffer_clear-Draws h v w)
  call-Behaves (optimized_clear h v) w = drawn (optimized_buffer_clear-Draws h v w)
  call-Behaves (set_cell h v) w = drawn (buffer_set_cell-Draws h v w)
  call-Behaves (optimized_set_cell h v b) w = drawn (optimized_buffer_set_cell-Draws h v b w)
  call-Behaves (draw_text h v) w = drawn (buffer_draw_text-Draws h v w)
  call-Behaves (optimized_draw_text h v) w = drawn (optimized_buffer_draw_text-Draws h v w)
  call-Behaves (draw_box h v) w = drawn (buffer_draw_box-Draws h v w)
  call-Behaves (draw_text_buffer_view h k m n) w =
      drawn (buffer_draw_text_buffer_view-Draws h k m n w)
  call-Behaves (optimized_fill_rect h v) w = drawn (optimized_buffer_fill_rect-Draws h v w)
  call-Behaves (optimized_draw_grayscale_buffer h v b) w =
      drawn (optimized_buffer_draw_grayscale_buffer-Draws h v b w)
  call-Behaves (optimized_draw_frame_buffer h v) w =
      drawn (optimized_buffer_draw_frame_buffer-Draws h v w)
  call-Behaves (optimized_resize h m n) w = drawn (optimized_buffer_resize-Draws h m n w)
  call-Behaves (optimized_draw_grid h v) w = drawn (optimized_buffer_draw_grid-Draws h v w)
  call-Behaves (push_scissor_rect h v) w = drawn (buffer_push_scissor_rect-Draws h v w)
  call-Behaves (pop_scissor_rect h) w = drawn (buffer_pop_scissor_rect-Draws h w)
  call-Behaves (clear_scissor_rects h) w = drawn (buffer_clear_scissor_rects-Draws h w)
  call-Behaves (push_opacity h v) w = drawn (buffer_push_opacity-Draws h v w)
  call-Behaves (pop_opacity h) w = drawn (buffer_pop_opacity-Draws h w)
  call-Behaves (clear_opacity h) w = drawn (buffer_clear_opacity-Draws h w)
  call-Behaves (write_resolved_chars h output b) w = ground (
    arith,
    buffer_is_valid-IsLive native w h,
    leb→le (length output) (2 ^ 32 - 1),
    keeps.writes h output b w,
  )
  call-Behaves (create m n b method id) w = ground (
    arith,
    is_nonzero_positive-bounds m,
    is_nonzero_positive-bounds n,
    in_range-le method 1,
    leb→le (length id) (2 ^ 32 - 1),
    keeps.creates (to_uint32 m) (to_uint32 n) b (to_uint32 method) id w,
  )
  call-Behaves (destroy h) w = ground (arith, keeps.destroys h w)

  -- Whatever property of the native state the allowed calls of the native side keep, every history
  -- of the buffer bindings keeps it, whatever their arguments are: only buffers that are there are
  -- drawn into, unsigned numbers fit their types, colours have four bytes, borders eleven
  -- characters, a grayscale image as many finite elements as its size says, and a grid one offset
  -- more than it has columns, or no offsets and no columns, and so for its rows. Nothing is said of
  -- signed positions, nor of the values of offsets.
  pub run_buffer_calls-Good :
      (cs : List Call) (w : native.World) → Good w → Good (run_buffer_calls native cs w)
  unfolding run_buffer_calls
  run_buffer_calls-Good [] w g = g
  run_buffer_calls-Good (c ∷ cs) w g =
      run_buffer_calls-Good cs (call native c w).1 ((call-Behaves c w).kept g)
