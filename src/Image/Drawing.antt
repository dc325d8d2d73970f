-- ===== src/Image/Drawing.antt =====
-- The bindings of image_stubs.c that draw into a buffer.
use opentui_ocaml.Prelude.{
  ℕ, zero, suc, Option, none, some, List, [], ◌∷◌, leb, if◌then◌else◌, found,
}
use opentui_ocaml.Prelude.Int.{ℤ}
use opentui_ocaml.Status.{Status, ok, invalid_argument, stale_handle}
use opentui_ocaml.Values.{Value, has_fields, field, custom_val, to_uint32, double_val}
use opentui_ocaml.Image.Native.{
  NativeImage, DrawOptions, draw_image, color_matrix, color_matrix_uniform,
}
use opentui_ocaml.Image.Arguments.{read_u32, read_i32, read_floatarray, read_matrix_and_mask}
use opentui_ocaml.Image.Operations.{read_small}
use opentui_ocaml.Image.Snapshot.{buffer_is_valid}

-- The numbers of the fields from an index on.
unfoldable pub read_u32_fields : Value → ℕ → ℕ → Option (List ℕ)
read_u32_fields args start zero = some []
read_u32_fields args start (suc count) =
    let rest = read_u32_fields args (suc start) count in
    found (read_u32 (field args start)) none (λ n. found rest none (λ ns. some (n ∷ ns)))

-- The options, from the two signed fields and the nine unsigned ones.
unfoldable pub options_of : ℤ → ℤ → List ℕ → Option DrawOptions
options_of x y
      (width ∷ height ∷ pixel_width ∷ pixel_height ∷ source_x ∷ source_y ∷ source_width
        ∷ source_height ∷ protocol ∷ []) =
    if leb protocol 3
    then some (record {
      x = x;
      y = y;
      width = width;
      height = height;
      pixel_width = pixel_width;
      pixel_height = pixel_height;
      source_x = source_x;
      source_y = source_y;
      source_width = source_width;
      source_height = source_height;
      protocol = protocol;
    })
    else none
options_of x y _ = none

-- The options and the handle of the image.
unfoldable pub read_draw_arguments : Value → Option (DrawOptions × ℕ)
unfolding read_u32_fields options_of
read_draw_arguments args =
    if has_fields args 12
    then found (read_i32 (field args 0)) none (λ x. found (read_i32 (field args 1)) none (λ y.
      found (read_u32_fields args 2 9) none (λ ns. found (options_of x y ns) none (λ options.
        found (custom_val (field args 11)) none (λ image. some (options, to_uint32 image))))))
    else none

module _ (native : NativeImage) where
  open native use {World, Single, to_single, draw}

  unfoldable pub buffer_draw_image : ℕ → Value → World → Status × World
  unfolding read_draw_arguments
  buffer_draw_image h args w =
      found (read_draw_arguments args) (invalid_argument, w)
        (λ (options, image).
          if buffer_is_valid native h w
          then (ok, draw (draw_image h image options) w)
          else (stale_handle, w))

  unfoldable pub buffer_color_matrix : ℕ → Value → Value → Value → Value → World → Status × World
  buffer_color_matrix h matrix_value mask_value strength_value target_value w =
      found (read_matrix_and_mask to_single matrix_value mask_value) (invalid_argument, w)
        (λ (matrix, mask, mask_count).
          found (double_val strength_value) (invalid_argument, w)
            (λ strength.
              found (read_small target_value 1 3) (invalid_argument, w)
                (λ target.
                  if buffer_is_valid native h w
                  then (
                    ok,
                    draw (color_matrix h matrix mask mask_count (to_single strength) target) w,
                  )
                  else (stale_handle, w))))

  unfoldable pub buffer_color_matrix_uniform : ℕ → Value → Value → Value → World → Status × World
  buffer_color_matrix_uniform h matrix_value strength_value target_value w =
      found (read_floatarray to_single matrix_value 16) (invalid_argument, w)
        (λ matrix.
          found (double_val strength_value) (invalid_argument, w)
            (λ strength.
              found (read_small target_value 1 3) (invalid_argument, w)
                (λ target.
                  if buffer_is_valid native h w
                  then (ok, draw (color_matrix_uniform h matrix (to_single strength) target) w)
                  else (stale_handle, w))))
