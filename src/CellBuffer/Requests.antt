-- ===== src/CellBuffer/Requests.antt =====
-- The requests of the drawing bindings are allowed.
use opentui_ocaml.Prelude.{ℕ, refl, Bool, ◌&&◌, arith, if_rule}
use opentui_ocaml.Prelude.Int.{ℤ}
use opentui_ocaml.Values.{Value, has_fields, field, int32_val, double_val, to_uint32, to_uint32-lt}
use opentui_ocaml.Readers.{is_positive, read_color, read_optional_color}
use opentui_ocaml.Readers.Laws.{read_color-IsChannels, read_optional_color-IsColor}
use opentui_ocaml.Image.Arguments.{is_finite}
use opentui_ocaml.CellBuffer.Native.{NativeBuffer}
use opentui_ocaml.CellBuffer.Arguments.{
  read_text_length, read_border_chars, read_int32_array, read_grayscale_floatarray, read_spot,
  read_box_style,
}
use opentui_ocaml.CellBuffer.Request.{buffer_is_valid}
use opentui_ocaml.CellBuffer.Drawing.{
  is_nonzero_positive, clear_request, cell_request, text_request, box_request, view_request,
  rect_request, gray_request, frame_request, resize_request, grid_request,
}
use opentui_ocaml.CellBuffer.Scopes.{scissor_request, opacity_request}
use opentui_ocaml.CellBuffer.Allowed.{IsAllowed}
use opentui_ocaml.CellBuffer.Ranges.{
  read_text_length-lt, read_border_chars-IsBorder, read_spot-IsSpot, read_box_style-IsBoxStyle,
  read_grayscale_floatarray-AllFinite, read_int32_array_length-lt,
}
use opentui_ocaml.CellBuffer.Rules.{
  two_positive, four_positive, two_sizes, one_less, buffer_is_valid-IsLive, both-IsLive, valid_rule,
  requiring_rule, reading_rule,
}

module _ (native : NativeBuffer) (w : native.World) where
  pub clear_request-IsAllowed :
      (h : ℕ) (v : Value) → IsAllowed native w (clear_request native h v w)
  unfolding clear_request
  clear_request-IsAllowed h v = valid_rule native w h _ (λ live.
      reading_rule native w (read_color v) _ (λ color e. (live, read_color-IsChannels v e)))

  pub cell_request-IsAllowed :
      (h : ℕ) (v : Value) (blending : Bool)
      → IsAllowed native w (cell_request native h v blending w)
  unfolding cell_request
  cell_request-IsAllowed h v blending = valid_rule native w h _ (λ live.
      requiring_rule native w (has_fields v 6) _ (λ six.
        reading_rule native w (read_spot v 0 1 3 4 5) _ (λ spot e.
          let good = read_spot-IsSpot v 0 1 3 4 5 e in
          let small = to_uint32-lt (int32_val (field v 2)) in
          if_rule (IsAllowed native w) blending (λ b. (live, small, good))
            (λ b. (live, small, good)))))

  pub text_request-IsAllowed : (h : ℕ) (v : Value) → IsAllowed native w (text_request native h v w)
  unfolding text_request
  text_request-IsAllowed h v = valid_rule native w h _ (λ live.
      requiring_rule native w (has_fields v 6) _ (λ six.
        reading_rule native w (read_spot v 1 2 3 4 5) _ (λ spot e.
          reading_rule native w (read_text_length (field v 0)) _ (λ bytes e2.
            (live, read_text_length-lt (field v 0) e2, read_spot-IsSpot v 1 2 3 4 5 e)))))

  pub box_request-IsAllowed : (h : ℕ) (v : Value) → IsAllowed native w (box_request native h v w)
  unfolding box_request
  box_request-IsAllowed h v = valid_rule native w h _ (λ live.
      requiring_rule native w (has_fields v 11) _ (λ eleven.
        requiring_rule native w
          (is_positive (int32_val (field v 2)) && is_positive (int32_val (field v 3))) _
          (λ sized. reading_rule native w (read_box_style v) _ (λ style e.
            let (wide, high) = two_positive (int32_val (field v 2)) (int32_val (field v 3)) sized in
            (live, wide, high, read_box_style-IsBoxStyle v e)))))

  pub view_request-IsAllowed :
      (h : ℕ) (view : ℕ) (x : ℤ) (y : ℤ) → IsAllowed native w (view_request native h view x y w)
  unfolding view_request
  view_request-IsAllowed h view x y = ground (arith, buffer_is_valid-IsLive native w h)

  pub rect_request-IsAllowed : (h : ℕ) (v : Value) → IsAllowed native w (rect_request native h v w)
  unfolding rect_request
  rect_request-IsAllowed h v = valid_rule native w h _ (λ live.
      requiring_rule native w (has_fields v 5) _ (λ five.
        requiring_rule native w
          (is_positive (int32_val (field v 0))
            && is_positive (int32_val (field v 1))
            && is_positive (int32_val (field v 2))
            && is_positive (int32_val (field v 3)))
          _
          (λ sized. reading_rule native w (read_color (field v 4)) _ (λ color e.
            let (a, b, c, d) =
              four_positive (int32_val (field v 0)) (int32_val (field v 1)) (int32_val (field v 2))
                (int32_val (field v 3)) sized in
            (live, a, b, c, d, read_color-IsChannels (field v 4) e)))))

  pub gray_request-IsAllowed :
      (h : ℕ) (v : Value) (supersampled : Bool)
      → IsAllowed native w (gray_request native h v supersampled w)
  unfolding gray_request
  gray_request-IsAllowed h v supersampled = valid_rule native w h _ (λ live.
      requiring_rule native w (has_fields v 7) _ (λ seven.
        requiring_rule native w
          (is_positive (int32_val (field v 3)) && is_positive (int32_val (field v 4))) _
          (λ sized.
            reading_rule native w
              (read_grayscale_floatarray native.to_single (field v 2)
                (to_uint32 (int32_val (field v 3))) (to_uint32 (int32_val (field v 4))))
              _
              (λ fs e. reading_rule native w (read_optional_color (field v 5)) _ (λ fg e1.
                reading_rule native w (read_optional_color (field v 6)) _ (λ bg e2.
                  let (wide, high) =
                    two_positive (int32_val (field v 3)) (int32_val (field v 4)) sized in
                  let r =
                    read_grayscale_floatarray-AllFinite native.to_single (field v 2)
                      (to_uint32 (int32_val (field v 3))) (to_uint32 (int32_val (field v 4))) e in
                  if_rule (IsAllowed native w) supersampled
                    (λ b. (
                      live,
                      (
                        r.0,
                        r.1,
                        wide,
                        high,
                        read_optional_color-IsColor (field v 5) e1,
                        read_optional_color-IsColor (field v 6) e2,
                      ),
                    ))
                    (λ b. (
                      live,
                      (
                        r.0,
                        r.1,
                        wide,
                        high,
                        read_optional_color-IsColor (field v 5) e1,
                        read_optional_color-IsColor (field v 6) e2,
                      ),
                    ))))))))

  pub frame_request-IsAllowed :
      (target : ℕ) (v : Value) → IsAllowed native w (frame_request native target v w)
  unfolding frame_request
  frame_request-IsAllowed target v = requiring_rule native w (has_fields v 7) _ (λ seven.
      if_rule (IsAllowed native w)
        (buffer_is_valid native target w
          && buffer_is_valid native (to_uint32 (int32_val (field v 2))) w)
        (λ valid.
          requiring_rule native w
            (is_positive (int32_val (field v 3))
              && is_positive (int32_val (field v 4))
              && is_positive (int32_val (field v 5))
              && is_positive (int32_val (field v 6)))
            _
            (λ sized.
              let (a, b, c, d) =
                four_positive (int32_val (field v 3)) (int32_val (field v 4))
                  (int32_val (field v 5)) (int32_val (field v 6)) sized in
              let (t, s) = both-IsLive native w target (to_uint32 (int32_val (field v 2))) valid in
              (t, s, a, b, c, d)))
        (λ stale e. cc))

  pub resize_request-IsAllowed :
      (h : ℕ) (width : ℤ) (height : ℤ) → IsAllowed native w (resize_request native h width height w)
  unfolding resize_request
  resize_request-IsAllowed h width height = valid_rule native w h _ (λ live.
      requiring_rule native w (is_nonzero_positive width && is_nonzero_positive height) _
        (λ sized. let (a, b) = two_sizes width height sized in (live, a.0, a.1, b.0, b.1)))

  pub grid_request-IsAllowed : (h : ℕ) (v : Value) → IsAllowed native w (grid_request native h v w)
  unfolding grid_request
  grid_request-IsAllowed h v = valid_rule native w h _ (λ live.
      requiring_rule native w (has_fields v 7) _ (λ seven.
        reading_rule native w (read_border_chars (field v 0)) _ (λ chars e.
          reading_rule native w (read_color (field v 1)) _ (λ fg e1.
            reading_rule native w (read_color (field v 2)) _ (λ bg e2.
              reading_rule native w (read_int32_array (field v 3)) _ (λ columns e3.
                reading_rule native w (read_int32_array (field v 4)) _ (λ rows e4. (
                  live,
                  read_border_chars-IsBorder (field v 0) e,
                  read_color-IsChannels (field v 1) e1,
                  read_color-IsChannels (field v 2) e2,
                  one_less columns (read_int32_array_length-lt (field v 3) e3),
                  one_less rows (read_int32_array_length-lt (field v 4) e4),
                ))))))))

  pub scissor_request-IsAllowed :
      (h : ℕ) (v : Value) → IsAllowed native w (scissor_request native h v w)
  unfolding scissor_request
  scissor_request-IsAllowed h v = requiring_rule native w (has_fields v 4) _ (λ four.
      valid_rule native w h _ (λ live.
        requiring_rule native w
          (is_positive (int32_val (field v 2)) && is_positive (int32_val (field v 3))) _
          (λ sized.
            let (wide, high) = two_positive (int32_val (field v 2)) (int32_val (field v 3)) sized in
            (live, wide, high))))

  pub opacity_request-IsAllowed :
      (h : ℕ) (v : Value) → IsAllowed native w (opacity_request native h v w)
  unfolding opacity_request
  opacity_request-IsAllowed h v = valid_rule native w h _ (λ live.
      reading_rule native w (double_val v) _
        (λ d e. requiring_rule native w (is_finite d) _ (λ good. (live, (d, good, refl)))))
