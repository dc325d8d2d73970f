-- ===== src/Image/Safety.antt =====
-- The bindings of image_stubs.c keep whatever allowed calls of the native side keep.
pub mod Images
use opentui_ocaml.Prelude.{
  ℕ, ◌≡◌, ◌≢◌, refl, Option, none, some, List, [], ◌∷◌, arith, Option-cases, inl, inr,
}
use opentui_ocaml.Values.{Value, string_val, double_val}
use opentui_ocaml.Image.Native.{NativeImage, Request, Drawing}
use opentui_ocaml.Image.Arguments.{read_u32, read_floatarray, read_matrix_and_mask}
use opentui_ocaml.Image.Operations.{
  read_small, encoded_bytes, resize_request, extract_request, extend_request, composite_request,
  rgba_request, make_or_refuse, image_info, image_decode, image_create_from_rgba, image_destroy,
  image_retain, image_get_info, image_materialize, image_ensure_encoded_png, image_clone,
  image_copy_pixels, image_resize, image_extract, image_extend, image_transform, image_composite,
}
use opentui_ocaml.Image.Drawing.{
  read_draw_arguments, buffer_draw_image, buffer_color_matrix, buffer_color_matrix_uniform,
}
use opentui_ocaml.Image.Allowed.{
  MayMake, IsThere, Keeps, read_u32-lt, encoded_bytes-IsEncoded, read_small_bounds,
  read_floatarray-AllFinite,
}
use opentui_ocaml.Image.Calls.{
  Call, call, run_image_calls, info, decode, create_from_rgba, destroy, retain, get_info,
  materialize, ensure_encoded_png, clone, copy_pixels, resize, extract, extend, transform,
  composite, draw_image, color_matrix, color_matrix_uniform,
}
use opentui_ocaml.Image.Ranges.{
  resize_request-MayMake, extract_request-MayMake, extend_request-MayMake,
  composite_request-MayMake, rgba_request-MayMake, read_draw_arguments-IsOptions,
  read_matrix_and_mask-Reads, buffer_is_valid-IsThere,
}
use opentui_ocaml.Image.Safety.Images.{
  image_extract-kept, image_create_from_rgba-kept, image_decode-kept, image_info-kept,
  image_ensure_encoded_png-kept, image_copy_pixels-kept, image_transform-kept, image_resize-kept,
  image_retain-kept, image_get_info-kept, image_composite-kept, image_extend-kept,
  image_materialize-kept, image_destroy-kept, image_clone-kept,
}

module _ (native : NativeImage) (Good : native.World → Type 0) (keeps : Keeps native Good) where
  buffer_draw_image-kept :
      (h : ℕ) (v : Value) (w : native.World) → Good w → Good (buffer_draw_image native h v w).1
  unfolding buffer_draw_image
  buffer_draw_image-kept h v w g = elim (Option-cases (read_draw_arguments v)) [
    | inl e ↦ ground (arith, e)
    | inr ((options, image), e) ↦ ground (
      arith,
      e,
      buffer_is_valid-IsThere native h w,
      read_draw_arguments-IsOptions v e,
      keeps.draws (Drawing.draw_image h image options) w,
    )
  ]

  buffer_color_matrix-kept :
      (h : ℕ) (v : Value) (a : Value) (b : Value) (c : Value) (w : native.World)
      → Good w
      → Good (buffer_color_matrix native h v a b c w).1
  unfolding buffer_color_matrix
  buffer_color_matrix-kept h v a b c w g =
      elim (Option-cases (read_matrix_and_mask native.to_single v a)) [
        | inl e ↦ ground (arith, e)
        | inr ((matrix, mask, count), em) ↦ elim (Option-cases (double_val b)) [
          | inl e ↦ ground (arith, em, e)
          | inr (strength, es) ↦ elim (Option-cases (read_small c 1 3)) [
            | inl e ↦ ground (arith, em, es, e)
            | inr (target, et) ↦
                let read = read_matrix_and_mask-Reads native.to_single v a em in
                let bounds = read_small_bounds c 1 3 et in
                ground (
                  arith,
                  em,
                  es,
                  et,
                  buffer_is_valid-IsThere native h w,
                  λ (live : IsThere native w h).
                      keeps.draws
                        (Drawing.color_matrix h matrix mask count (native.to_single strength)
                          target)
                        w
                        (
                          live, read.sixteen, read.matrix_finite, read.triples, read.count_fits,
                          read.mask_finite, bounds.0, bounds.1,
                        )
                        g,
                )
          ]
        ]
      ]

  buffer_color_matrix_uniform-kept :
      (h : ℕ) (v : Value) (a : Value) (b : Value) (w : native.World)
      → Good w
      → Good (buffer_color_matrix_uniform native h v a b w).1
  unfolding buffer_color_matrix_uniform
  buffer_color_matrix_uniform-kept h v a b w g =
      elim (Option-cases (read_floatarray native.to_single v 16)) [
        | inl e ↦ ground (arith, e)
        | inr (matrix, em) ↦ elim (Option-cases (double_val a)) [
          | inl e ↦ ground (arith, em, e)
          | inr (strength, es) ↦ elim (Option-cases (read_small b 1 3)) [
            | inl e ↦ ground (arith, em, es, e)
            | inr (target, et) ↦
                let read = read_floatarray-AllFinite native.to_single v 16 em in
                let bounds = read_small_bounds b 1 3 et in
                ground (
                  arith,
                  em,
                  es,
                  et,
                  buffer_is_valid-IsThere native h w,
                  λ (live : IsThere native w h).
                      keeps.draws
                        (Drawing.color_matrix_uniform h matrix (native.to_single strength) target) w
                        (live, read.0 (omega arith), read.1, bounds.0, bounds.1) g,
                )
          ]
        ]
      ]

  call-kept : (c : Call) (w : native.World) → Good w → Good (call native c w)
  unfolding call
  call-kept (info v) w g = image_info-kept native Good keeps v w g
  call-kept (decode v) w g = image_decode-kept native Good keeps v w g
  call-kept (create_from_rgba v a b c) w g =
      image_create_from_rgba-kept native Good keeps v a b c w g
  call-kept (destroy h) w g = image_destroy-kept native Good keeps h w g
  call-kept (retain h) w g = image_retain-kept native Good keeps h w g
  call-kept (get_info h) w g = image_get_info-kept native Good keeps h w g
  call-kept (materialize h) w g = image_materialize-kept native Good keeps h w g
  call-kept (ensure_encoded_png h) w g = image_ensure_encoded_png-kept native Good keeps h w g
  call-kept (clone h) w g = image_clone-kept native Good keeps h w g
  call-kept (copy_pixels h v a b) w g = image_copy_pixels-kept native Good keeps h v a b w g
  call-kept (resize h v) w g = image_resize-kept native Good keeps h v w g
  call-kept (extract h v) w g = image_extract-kept native Good keeps h v w g
  call-kept (extend h v) w g = image_extend-kept native Good keeps h v w g
  call-kept (transform h v) w g = image_transform-kept native Good keeps h v w g
  call-kept (composite h k v) w g = image_composite-kept native Good keeps h k v w g
  call-kept (draw_image h v) w g = buffer_draw_image-kept h v w g
  call-kept (color_matrix h v a b c) w g = buffer_color_matrix-kept h v a b c w g
  call-kept (color_matrix_uniform h v a b) w g = buffer_color_matrix_uniform-kept h v a b w g

  -- Whatever property of the native state the allowed calls of the image subsystem keep, every
  -- history of the bindings on images and of those that draw keeps it, whatever their arguments
  -- are: unsigned numbers fit their types, encoded images are not empty, matrices have 16 finite
  -- elements, masks consist of triples, the protocol and the target of a drawing are among those
  -- that there are, and drawing needs a buffer that is there, which has a width. Nothing is said of
  -- signed positions, of strengths, nor of the handles of images.
  pub run_image_calls-Good :
      (cs : List Call) (w : native.World) → Good w → Good (run_image_calls native cs w)
  unfolding run_image_calls
  run_image_calls-Good [] w g = g
  run_image_calls-Good (c ∷ cs) w g = run_image_calls-Good cs (call native c w) (call-kept c w g)
