-- ===== src/Image/Calls.antt =====
-- Histories of the bindings of image_stubs.c on images and of those that draw.
use opentui_ocaml.Prelude.{ℕ, List, [], ◌∷◌}
use opentui_ocaml.Values.{Value}
use opentui_ocaml.Image.Native.{NativeImage}
use opentui_ocaml.Image.Operations.{
  image_info, image_decode, image_create_from_rgba, image_destroy, image_retain, image_get_info,
  image_materialize, image_ensure_encoded_png, image_clone, image_copy_pixels, image_resize,
  image_extract, image_extend, image_transform, image_composite,
}
use opentui_ocaml.Image.Drawing.{
  buffer_draw_image, buffer_color_matrix, buffer_color_matrix_uniform,
}

pub data Call : Type 0 where
  info : Value → Call
  decode : Value → Call
  create_from_rgba : Value → Value → Value → Value → Call
  destroy : ℕ → Call
  retain : ℕ → Call
  get_info : ℕ → Call
  materialize : ℕ → Call
  ensure_encoded_png : ℕ → Call
  clone : ℕ → Call
  copy_pixels : ℕ → Value → Value → Value → Call
  resize : ℕ → Value → Call
  extract : ℕ → Value → Call
  extend : ℕ → Value → Call
  transform : ℕ → Value → Call
  composite : ℕ → ℕ → Value → Call
  draw_image : ℕ → Value → Call
  color_matrix : ℕ → Value → Value → Value → Value → Call
  color_matrix_uniform : ℕ → Value → Value → Value → Call

module _ (native : NativeImage) where
  open native use {World}

  -- The state after a call.
  unfoldable pub call : Call → World → World
  call (info v) w = (image_info native v w).1
  call (decode v) w = (image_decode native v w).1
  call (create_from_rgba v a b c) w = (image_create_from_rgba native v a b c w).1
  call (destroy h) w = image_destroy native h w
  call (retain h) w = (image_retain native h w).1
  call (get_info h) w = (image_get_info native h w).1
  call (materialize h) w = (image_materialize native h w).1
  call (ensure_encoded_png h) w = (image_ensure_encoded_png native h w).1
  call (clone h) w = (image_clone native h w).1
  call (copy_pixels h v a b) w = (image_copy_pixels native h v a b w).1
  call (resize h v) w = (image_resize native h v w).1
  call (extract h v) w = (image_extract native h v w).1
  call (extend h v) w = (image_extend native h v w).1
  call (transform h v) w = (image_transform native h v w).1
  call (composite h k v) w = (image_composite native h k v w).1
  call (draw_image h v) w = (buffer_draw_image native h v w).1
  call (color_matrix h v a b c) w = (buffer_color_matrix native h v a b c w).1
  call (color_matrix_uniform h v a b) w = (buffer_color_matrix_uniform native h v a b w).1

  unfoldable pub run_image_calls : List Call → World → World
  run_image_calls [] w = w
  run_image_calls (c ∷ cs) w = run_image_calls cs (call c w)
