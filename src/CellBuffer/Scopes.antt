-- ===== src/CellBuffer/Scopes.antt =====
-- The bindings of raw_stubs.c on the scissor rectangles and the opacities of a buffer, and on the
-- buffer itself.
use opentui_ocaml.Prelude.{
  ℕ, ◌-◌, ◌^◌, Bool, not, ◌&&◌, ◌||◌, List, ◌==◌, leb, if◌then◌else◌, length,
}
use opentui_ocaml.Prelude.Int.{ℤ, pos}
use opentui_ocaml.Yoga.Native.{Double, finite}
use opentui_ocaml.Status.{
  Status, ok, invalid_argument, stale_handle, native_failure, output_too_small,
}
use opentui_ocaml.Values.{Value, has_fields, field, int32_val, double_val, to_uint32, to_int32}
use opentui_ocaml.Readers.{is_positive, in_range}
use opentui_ocaml.Image.Arguments.{is_finite}
use opentui_ocaml.CellBuffer.Native.{Drawing, NativeBuffer}
use opentui_ocaml.CellBuffer.Request.{
  Request, issue, execute, buffer_is_valid, on_valid, requiring, reading,
}
use opentui_ocaml.CellBuffer.Drawing.{is_nonzero_positive}

module _ (native : NativeBuffer) where
  open native use {
    World, Single, to_single, to_double, buffer_width, buffer_height, current_opacity, write_chars,
    create_optimized, destroy_optimized,
  }

  unfoldable pub scissor_request : ℕ → Value → World → Request Single
  scissor_request h v w = requiring (has_fields v 4) (
      on_valid native h w (
        requiring (is_positive (int32_val (field v 2)) && is_positive (int32_val (field v 3))) (
          issue (
            Drawing.push_scissor_rect h (int32_val (field v 0)) (int32_val (field v 1))
              (to_uint32 (int32_val (field v 2))) (to_uint32 (int32_val (field v 3)))))))

  unfoldable pub buffer_push_scissor_rect : ℕ → Value → World → Status × World
  unfolding scissor_request
  buffer_push_scissor_rect h v w = execute native (scissor_request h v w) w

  unfoldable pub buffer_pop_scissor_rect : ℕ → World → Status × World
  buffer_pop_scissor_rect h w =
      execute native (on_valid native h w (issue (Drawing.pop_scissor_rect h))) w

  unfoldable pub buffer_clear_scissor_rects : ℕ → World → Status × World
  buffer_clear_scissor_rects h w =
      execute native (on_valid native h w (issue (Drawing.clear_scissor_rects h))) w

  unfoldable pub opacity_request : ℕ → Value → World → Request Single
  opacity_request h v w = on_valid native h w (
      reading (double_val v)
        (λ d. requiring (is_finite d) (issue (Drawing.push_opacity h (to_single d)))))

  unfoldable pub buffer_push_opacity : ℕ → Value → World → Status × World
  unfolding opacity_request
  buffer_push_opacity h v w = execute native (opacity_request h v w) w

  unfoldable pub buffer_pop_opacity : ℕ → World → Status × World
  buffer_pop_opacity h w = execute native (on_valid native h w (issue (Drawing.pop_opacity h))) w

  unfoldable pub buffer_clear_opacity : ℕ → World → Status × World
  buffer_clear_opacity h w =
      execute native (on_valid native h w (issue (Drawing.clear_opacity h))) w

  -- 1.0 is 2 ^ 1074 units.
  unfoldable pub buffer_get_current_opacity : ℕ → World → Double
  buffer_get_current_opacity h w =
      if buffer_is_valid native h w
      then to_double (current_opacity h w)
      else finite (pos (2 ^ 1074))

  unfoldable pub buffer_dimensions : ℕ → World → Status × ℤ × ℤ
  buffer_dimensions h w =
      if buffer_is_valid native h w
      then (ok, to_int32 (buffer_width h w), to_int32 (buffer_height h w))
      else (stale_handle, pos 0, pos 0)

  unfoldable pub optimized_buffer_dimensions : ℕ → World → Status × ℤ × ℤ
  optimized_buffer_dimensions h w =
      if buffer_is_valid native h w
      then (ok, to_int32 (buffer_width h w), to_int32 (buffer_height h w))
      else (stale_handle, pos 0, pos 0)

  -- The status, the count, and the bytes of the output afterwards.
  unfoldable pub buffer_write_resolved_chars :
      ℕ → List ℕ → Bool → World → (Status × ℤ × List ℕ) × World
  buffer_write_resolved_chars h output add_line_breaks w =
      if not (buffer_is_valid native h w)
      then ((stale_handle, pos 0, output), w)
      else if length output == 0 || not (leb (length output) (2 ^ 32 - 1))
      then ((output_too_small, pos 0, output), w)
      else let written = write_chars h output add_line_breaks w in
        if written.0.0 == 0
        then ((output_too_small, pos 0, written.0.1), written.1)
        else ((ok, to_int32 written.0.0, written.0.1), written.1)

  unfoldable pub optimized_buffer_create : ℤ → ℤ → Bool → ℤ → List ℕ → World → (Status × ℕ) × World
  optimized_buffer_create width height respect_alpha width_method id w =
      if not (is_nonzero_positive width)
        || not (is_nonzero_positive height)
        || not (in_range width_method 1)
        || not (leb (length id) (2 ^ 32 - 1))
      then ((invalid_argument, 0), w)
      else let made =
          create_optimized (to_uint32 width) (to_uint32 height) respect_alpha
            (to_uint32 width_method) id w in
        if made.0 == 0 then ((native_failure, 0), made.1) else ((ok, made.0), made.1)

  unfoldable pub optimized_buffer_destroy : ℕ → World → World
  optimized_buffer_destroy h w = if h == 0 then w else destroy_optimized h w
