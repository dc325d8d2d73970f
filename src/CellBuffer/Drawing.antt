-- ===== src/CellBuffer/Drawing.antt =====
-- The bindings of raw_stubs.c that draw into a buffer. What `opentui_raw_buffer_...` and
-- `opentui_raw_optimized_buffer_...` check alike is one request.
use opentui_ocaml.Prelude.{
  ℕ, zero, ◌-◌, Bool, true, false, not, ◌&&◌, ◌||◌, ◌==◌, if◌then◌else◌, length,
}
use opentui_ocaml.Prelude.Int.{ℤ, pos}
use opentui_ocaml.Status.{Status, stale_handle}
use opentui_ocaml.Values.{Value, has_fields, field, int32_val, to_uint32, long}
use opentui_ocaml.Readers.{is_positive, read_color, read_optional_color}
use opentui_ocaml.CellBuffer.Native.{Drawing, NativeBuffer}
use opentui_ocaml.CellBuffer.Arguments.{
  read_text_length, read_border_chars, read_int32_array, read_grayscale_floatarray, read_spot,
  read_box_style,
}
use opentui_ocaml.CellBuffer.Request.{
  Request, refuse, issue, execute, buffer_is_valid, on_valid, requiring, reading,
}

-- `n > 0` for an `int32_t`
abbrev pub is_nonzero_positive : ℤ → Bool
is_nonzero_positive n = is_positive n && not (to_uint32 n == 0)

-- `Bool_val`
abbrev pub bool_val : Value → Bool
bool_val (long (pos zero)) = false
bool_val _ = true

module _ (native : NativeBuffer) where
  open native use {World, Single, to_single}

  unfoldable pub clear_request : ℕ → Value → World → Request Single
  clear_request h color_value w =
      on_valid native h w
        (reading (read_color color_value) (λ background. issue (Drawing.clear h background)))

  unfoldable pub buffer_clear : ℕ → Value → World → Status × World
  unfolding clear_request
  buffer_clear h color_value w = execute native (clear_request h color_value w) w

  unfoldable pub optimized_buffer_clear : ℕ → Value → World → Status × World
  unfolding clear_request
  optimized_buffer_clear h color_value w = execute native (clear_request h color_value w) w

  -- What `buffer_set_cell` and `optimized_buffer_set_cell` check.
  unfoldable pub cell_request : ℕ → Value → Bool → World → Request Single
  cell_request h v blending w = on_valid native h w (
      requiring (has_fields v 6) (
        reading (read_spot v 0 1 3 4 5) (λ spot.
          let character = to_uint32 (int32_val (field v 2)) in
          if blending
          then issue (Drawing.set_cell_blended h character spot)
          else issue (Drawing.set_cell h character spot))))

  unfoldable pub buffer_set_cell : ℕ → Value → World → Status × World
  unfolding cell_request
  buffer_set_cell h v w = execute native (cell_request h v false w) w

  unfoldable pub optimized_buffer_set_cell : ℕ → Value → Bool → World → Status × World
  unfolding cell_request
  optimized_buffer_set_cell h v blending w = execute native (cell_request h v blending w) w

  unfoldable pub text_request : ℕ → Value → World → Request Single
  text_request h v w = on_valid native h w (
      requiring (has_fields v 6) (
        reading (read_spot v 1 2 3 4 5) (λ spot.
          reading (read_text_length (field v 0))
            (λ bytes. issue (Drawing.draw_text h bytes spot)))))

  unfoldable pub buffer_draw_text : ℕ → Value → World → Status × World
  unfolding text_request
  buffer_draw_text h v w = execute native (text_request h v w) w

  unfoldable pub optimized_buffer_draw_text : ℕ → Value → World → Status × World
  unfolding text_request
  optimized_buffer_draw_text h v w = execute native (text_request h v w) w

  unfoldable pub box_request : ℕ → Value → World → Request Single
  box_request h v w = on_valid native h w (
      requiring (has_fields v 11) (
        requiring (is_positive (int32_val (field v 2)) && is_positive (int32_val (field v 3))) (
          reading (read_box_style v) (λ style. issue (
            Drawing.draw_box h (int32_val (field v 0)) (int32_val (field v 1))
              (to_uint32 (int32_val (field v 2))) (to_uint32 (int32_val (field v 3))) style)))))

  unfoldable pub buffer_draw_box : ℕ → Value → World → Status × World
  unfolding box_request
  buffer_draw_box h v w = execute native (box_request h v w) w

  unfoldable pub view_request : ℕ → ℕ → ℤ → ℤ → World → Request Single
  view_request h view x y w =
      if not (buffer_is_valid native h w) || view == 0
      then refuse stale_handle
      else issue (Drawing.draw_view h view x y)

  unfoldable pub buffer_draw_text_buffer_view : ℕ → ℕ → ℤ → ℤ → World → Status × World
  unfolding view_request
  buffer_draw_text_buffer_view h view x y w = execute native (view_request h view x y w) w

  unfoldable pub rect_request : ℕ → Value → World → Request Single
  rect_request h v w = on_valid native h w (
      requiring (has_fields v 5) (
        requiring
          (is_positive (int32_val (field v 0))
            && is_positive (int32_val (field v 1))
            && is_positive (int32_val (field v 2))
            && is_positive (int32_val (field v 3)))
          (reading (read_color (field v 4)) (λ background. issue (
            Drawing.fill_rect h (to_uint32 (int32_val (field v 0)))
              (to_uint32 (int32_val (field v 1))) (to_uint32 (int32_val (field v 2)))
              (to_uint32 (int32_val (field v 3))) background)))))

  unfoldable pub optimized_buffer_fill_rect : ℕ → Value → World → Status × World
  unfolding rect_request
  optimized_buffer_fill_rect h v w = execute native (rect_request h v w) w

  unfoldable pub gray_request : ℕ → Value → Bool → World → Request Single
  gray_request h v supersampled w =
      let width = int32_val (field v 3) in
      let height = int32_val (field v 4) in
      on_valid native h w (
        requiring (has_fields v 7) (
          requiring (is_positive width && is_positive height) (
            reading
              (read_grayscale_floatarray to_single (field v 2) (to_uint32 width) (to_uint32 height))
              (λ intensities. reading (read_optional_color (field v 5)) (λ fg.
                reading (read_optional_color (field v 6)) (λ bg.
                  if supersampled
                  then issue (
                      Drawing.draw_gray_supersampled h (int32_val (field v 0))
                        (int32_val (field v 1)) intensities (to_uint32 width) (to_uint32 height) fg
                        bg)
                  else issue (
                      Drawing.draw_gray h (int32_val (field v 0)) (int32_val (field v 1))
                        intensities (to_uint32 width) (to_uint32 height) fg bg)))))))

  unfoldable pub optimized_buffer_draw_grayscale_buffer : ℕ → Value → Bool → World → Status × World
  unfolding gray_request
  optimized_buffer_draw_grayscale_buffer h v supersampled w =
      execute native (gray_request h v supersampled w) w

  unfoldable pub frame_request : ℕ → Value → World → Request Single
  frame_request target v w =
      let source = to_uint32 (int32_val (field v 2)) in
      requiring (has_fields v 7) (
        if buffer_is_valid native target w && buffer_is_valid native source w
        then requiring
            (is_positive (int32_val (field v 3))
              && is_positive (int32_val (field v 4))
              && is_positive (int32_val (field v 5))
              && is_positive (int32_val (field v 6)))
            (issue (
              Drawing.draw_frame target (int32_val (field v 0)) (int32_val (field v 1)) source
                (to_uint32 (int32_val (field v 3))) (to_uint32 (int32_val (field v 4)))
                (to_uint32 (int32_val (field v 5))) (to_uint32 (int32_val (field v 6)))))
        else refuse stale_handle)

  unfoldable pub optimized_buffer_draw_frame_buffer : ℕ → Value → World → Status × World
  unfolding frame_request
  optimized_buffer_draw_frame_buffer target v w = execute native (frame_request target v w) w

  unfoldable pub resize_request : ℕ → ℤ → ℤ → World → Request Single
  resize_request h width height w = on_valid native h w (
      requiring (is_nonzero_positive width && is_nonzero_positive height)
        (issue (Drawing.resize h (to_uint32 width) (to_uint32 height))))

  unfoldable pub optimized_buffer_resize : ℕ → ℤ → ℤ → World → Status × World
  unfolding resize_request
  optimized_buffer_resize h width height w = execute native (resize_request h width height w) w

  -- A list of n + 1 offsets bounds n columns or rows.
  unfoldable pub grid_request : ℕ → Value → World → Request Single
  grid_request h v w = on_valid native h w (
      requiring (has_fields v 7) (
        reading (read_border_chars (field v 0)) (λ chars. reading (read_color (field v 1)) (λ fg.
          reading (read_color (field v 2)) (λ bg. reading (read_int32_array (field v 3)) (λ columns.
            reading (read_int32_array (field v 4)) (λ rows. issue (
              Drawing.draw_grid h chars fg bg columns (length columns - 1) rows (length rows - 1)
                (record {
                  draw_inner = bool_val (field v 5);
                  draw_outer = bool_val (field v 6);
                })))))))))

  unfoldable pub optimized_buffer_draw_grid : ℕ → Value → World → Status × World
  unfolding grid_request
  optimized_buffer_draw_grid h v w = execute native (grid_request h v w) w
