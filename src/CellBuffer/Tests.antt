-- ===== src/CellBuffer/Tests.antt =====
-- Buffer bindings over a native side that notes what it is asked.
use opentui_ocaml.Prelude.{
  ℕ, ◌^◌, ◌≤◌, ◌<◌, ◌≡◌, ◌≢◌, refl, true, false, List, [], ◌∷◌, ◌==◌, if◌then◌else◌, length,
}
use opentui_ocaml.Prelude.Int.{pos, negsuc}
use opentui_ocaml.Yoga.Native.{Double, finite}
use opentui_ocaml.Values.{Value, custom, block, nil, cons, double}
use opentui_ocaml.CellBuffer.Native.{Drawing, NativeBuffer}
use opentui_ocaml.CellBuffer.Request.{execute, buffer_is_valid}
use opentui_ocaml.CellBuffer.Drawing.{optimized_buffer_resize, resize_request}
use opentui_ocaml.CellBuffer.Scopes.{
  optimized_buffer_destroy, buffer_write_resolved_chars, buffer_push_opacity,
  buffer_push_scissor_rect, optimized_buffer_create, opacity_request, scissor_request,
}
use opentui_ocaml.Image.Arguments.{is_finite}
use opentui_ocaml.CellBuffer.Allowed.{MayDraw, Keeps}
use opentui_ocaml.CellBuffer.Calls.{Call, call, run_buffer_calls}
use opentui_ocaml.CellBuffer.Calls
use opentui_ocaml.CellBuffer.Safety.{run_buffer_calls-Good}

data Entry : Type 0 where
  drawn : Drawing Double → Entry
  wrote : List ℕ → Entry
  created : ℕ → ℕ → ℕ → List ℕ → Entry
  destroyed : ℕ → Entry

-- The buffers 5 and 6 are there and two cells wide.
abbrev side : NativeBuffer
side = record {
  World = List Entry;
  Single = Double;
  to_single = λ d. d;
  to_double = λ d. d;
  buffer_width = λ h w. if h == 5 then 2 else if h == 6 then 2 else 0;
  buffer_height = λ h w. 2;
  draw = λ d w. drawn d ∷ w;
  current_opacity = λ h w. finite (pos 0);
  write_chars = λ h room breaks w. ((1, room), wrote room ∷ w);
  create_optimized = λ width height alpha method id w. (6, created width height method id ∷ w);
  destroy_optimized = λ h w. destroyed h ∷ w;
}

abbrev MayHappen : Entry → Type 0
MayHappen (drawn d) = MayDraw side [] d
MayHappen (wrote room) = (0 < length room) × (length room < 2 ^ 32)
MayHappen (created width height method id) =
    ((0 < width) × (width < 2 ^ 31) × (0 < height) × (height < 2 ^ 31))
    × (method ≤ 1)
    × (length id < 2 ^ 32)
MayHappen (destroyed h) = h ≢ 0

abbrev AllHappen : List Entry → Type 0
AllHappen [] = Unit {0}
AllHappen (e ∷ es) = MayHappen e × AllHappen es

may_happen : (d : Drawing Double) (w : List Entry) → MayDraw side w d → MayDraw side [] d
may_happen d w a = by_drawing d a
  where
    by_drawing : (d : Drawing Double) → MayDraw side w d → MayDraw side [] d
    by_drawing (Drawing.clear h c) a = a
    by_drawing (Drawing.set_cell h c s) a = a
    by_drawing (Drawing.set_cell_blended h c s) a = a
    by_drawing (Drawing.draw_text h b s) a = a
    by_drawing (Drawing.draw_box h x y m n s) a = a
    by_drawing (Drawing.draw_view h v x y) a = a
    by_drawing (Drawing.fill_rect h x y m n c) a = a
    by_drawing (Drawing.draw_gray h x y fs m n fg bg) a = a
    by_drawing (Drawing.draw_gray_supersampled h x y fs m n fg bg) a = a
    by_drawing (Drawing.draw_frame h x y s p q m n) a = a
    by_drawing (Drawing.resize h m n) a = a
    by_drawing (Drawing.draw_grid h b fg bg cs c rs r o) a = a
    by_drawing (Drawing.push_scissor_rect h x y m n) a = a
    by_drawing (Drawing.pop_scissor_rect h) a = a
    by_drawing (Drawing.clear_scissor_rects h) a = a
    by_drawing (Drawing.pop_opacity h) a = a
    by_drawing (Drawing.clear_opacity h) a = a
    by_drawing (Drawing.push_opacity h o) a = a

side_keeps : Keeps side AllHappen
side_keeps = record {
  draws = λ d w a g. (may_happen d w a, g);
  writes = λ h room breaks w live some_room small g. ((some_room, small), g);
  creates = λ width height alpha method id w sized known small g. ((sized, known, small), g);
  destroys = λ h w there g. (there, g);
}

abbrev resizing : Call
resizing = Calls.optimized_resize 7 (pos 3) (pos 4)

abbrev rect : Value
rect = block 0 (
    cons (custom (negsuc 2))
      (cons (custom (pos 1)) (cons (custom (pos 4)) (cons (custom (pos 5)) nil))))

abbrev session : List Call
session =
    Calls.create (pos 3) (pos 4) true (pos 1) (65 ∷ [])
    ∷ Calls.optimized_resize 5 (pos 3) (pos 4)
    ∷ resizing
    ∷ Calls.push_scissor_rect 5 rect
    ∷ Calls.push_opacity 6 (double (finite (pos 1)))
    ∷ Calls.write_resolved_chars 6 (0 ∷ 0 ∷ []) false
    ∷ Calls.destroy 6
    ∷ []

-- The rectangle reaches over the left edge, and the call on the buffer 7 does nothing.
session_noted :
    run_buffer_calls side session []
    ≡ destroyed 6
      ∷ wrote (0 ∷ 0 ∷ [])
      ∷ drawn (Drawing.push_opacity 6 (finite (pos 1)))
      ∷ drawn (Drawing.push_scissor_rect 5 (negsuc 2) (pos 1) 4 5)
      ∷ drawn (Drawing.resize 5 3 4)
      ∷ created 3 4 1 (65 ∷ [])
      ∷ []
unfolding run_buffer_calls call optimized_buffer_destroy buffer_write_resolved_chars buffer_is_valid
    buffer_push_opacity execute is_finite buffer_push_scissor_rect optimized_buffer_resize
    optimized_buffer_create opacity_request scissor_request resize_request
session_noted = refl

run_buffer_calls-Good_example : AllHappen (run_buffer_calls side session [])
run_buffer_calls-Good_example = run_buffer_calls-Good side AllHappen side_keeps session [] tt
