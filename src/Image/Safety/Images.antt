-- ===== src/Image/Safety/Images.antt =====
-- The bindings on images of image_stubs.c keep whatever allowed calls of the native side keep.
use opentui_ocaml.Prelude.{ℕ, ◌≡◌, refl, Option, none, some, arith, Option-cases, inl, inr}
use opentui_ocaml.Values.{Value, string_val}
use opentui_ocaml.Image.Native.{NativeImage, Request}
use opentui_ocaml.Image.Arguments.{read_u32}
use opentui_ocaml.Image.Operations.{
  read_small, encoded_bytes, resize_request, extract_request, extend_request, composite_request,
  rgba_request, make_or_refuse, image_info, image_decode, image_create_from_rgba, image_destroy,
  image_retain, image_get_info, image_materialize, image_ensure_encoded_png, image_clone,
  image_copy_pixels, image_resize, image_extract, image_extend, image_transform, image_composite,
}
use opentui_ocaml.Image.Allowed.{
  MayMake, Keeps, read_u32-lt, encoded_bytes-IsEncoded, read_small_bounds,
}
use opentui_ocaml.Image.Ranges.{
  resize_request-MayMake, extract_request-MayMake, extend_request-MayMake,
  composite_request-MayMake, rgba_request-MayMake,
}

module _ (native : NativeImage) (Good : native.World → Type 0) (keeps : Keeps native Good) where
  make_or_refuse-kept :
      (o : Option Request) (w : native.World)
      → ((r : Request) → o ≡ some r → MayMake r)
      → Good w
      → Good (make_or_refuse native o w).1
  unfolding make_or_refuse
  make_or_refuse-kept none w allowed g = g
  make_or_refuse-kept (some r) w allowed g = keeps.makes r w (allowed r refl) g

  pub image_info-kept : (v : Value) (w : native.World) → Good w → Good (image_info native v w).1
  unfolding image_info
  image_info-kept v w g = elim (Option-cases (encoded_bytes v)) [
    | inl e ↦ ground (arith, e)
    | inr (bytes, e) ↦ ground (arith, e, keeps.informs bytes w (encoded_bytes-IsEncoded v e) g)
  ]

  pub image_decode-kept : (v : Value) (w : native.World) → Good w → Good (image_decode native v w).1
  unfolding image_decode
  image_decode-kept v w g = elim (Option-cases (encoded_bytes v)) [
    | inl e ↦ rw (e, make_or_refuse) g
    | inr (bytes, e) ↦
        rw (e, make_or_refuse)
          (keeps.makes (Request.decode bytes) w (encoded_bytes-IsEncoded v e) g)
  ]

  pub image_create_from_rgba-kept :
      (v : Value) (a : Value) (b : Value) (c : Value) (w : native.World)
      → Good w
      → Good (image_create_from_rgba native v a b c w).1
  unfolding image_create_from_rgba
  image_create_from_rgba-kept v a b c w g =
      make_or_refuse-kept (rgba_request v a b c) w (λ r e. rgba_request-MayMake v a b c e) g

  pub image_destroy-kept : (h : ℕ) (w : native.World) → Good w → Good (image_destroy native h w)
  unfolding image_destroy
  image_destroy-kept h w g = keeps.destroys h w g

  pub image_retain-kept : (h : ℕ) (w : native.World) → Good w → Good (image_retain native h w).1
  unfolding image_retain
  image_retain-kept h w g = keeps.makes (Request.retain h) w tt g

  pub image_get_info-kept : (h : ℕ) (w : native.World) → Good w → Good (image_get_info native h w).1
  unfolding image_get_info
  image_get_info-kept h w g = keeps.describes h w g

  pub image_materialize-kept :
      (h : ℕ) (w : native.World) → Good w → Good (image_materialize native h w).1
  unfolding image_materialize
  image_materialize-kept h w g = keeps.materializes h w g

  pub image_ensure_encoded_png-kept :
      (h : ℕ) (w : native.World) → Good w → Good (image_ensure_encoded_png native h w).1
  unfolding image_ensure_encoded_png
  image_ensure_encoded_png-kept h w g = keeps.encodes h w g

  pub image_clone-kept : (h : ℕ) (w : native.World) → Good w → Good (image_clone native h w).1
  unfolding image_clone
  image_clone-kept h w g = keeps.makes (Request.clone h) w tt g

  pub image_copy_pixels-kept :
      (h : ℕ) (v : Value) (a : Value) (b : Value) (w : native.World)
      → Good w
      → Good (image_copy_pixels native h v a b w).1
  unfolding image_copy_pixels
  image_copy_pixels-kept h v a b w g = elim (Option-cases (string_val v)) [
    | inl e ↦ ground (arith, e)
    | inr (room, ev) ↦ elim (Option-cases (read_u32 a)) [
      | inl e ↦ ground (arith, ev, e)
      | inr (stride, ea) ↦ elim (Option-cases (read_small b 0 1)) [
        | inl e ↦ ground (arith, ev, ea, e)
        | inr (bgra, eb) ↦
            let kept =
              keeps.copies h room stride bgra w (read_u32-lt a ea) (read_small_bounds b 0 1 eb).1
                g in
            ground (arith, ev, ea, eb)
      ]
    ]
  ]

  pub image_resize-kept :
      (h : ℕ) (v : Value) (w : native.World) → Good w → Good (image_resize native h v w).1
  unfolding image_resize
  image_resize-kept h v w g =
      make_or_refuse-kept (resize_request h v) w (λ r e. resize_request-MayMake h v e) g

  pub image_extract-kept :
      (h : ℕ) (v : Value) (w : native.World) → Good w → Good (image_extract native h v w).1
  unfolding image_extract
  image_extract-kept h v w g =
      make_or_refuse-kept (extract_request h v) w (λ r e. extract_request-MayMake h v e) g

  pub image_extend-kept :
      (h : ℕ) (v : Value) (w : native.World) → Good w → Good (image_extend native h v w).1
  unfolding image_extend
  image_extend-kept h v w g =
      make_or_refuse-kept (extend_request h v) w (λ r e. extend_request-MayMake h v e) g

  pub image_transform-kept :
      (h : ℕ) (v : Value) (w : native.World) → Good w → Good (image_transform native h v w).1
  unfolding image_transform
  image_transform-kept h v w g = elim (Option-cases (read_u32 v)) [
    | inl e ↦ rw (e, make_or_refuse) g
    | inr (n, e) ↦
        rw (e, make_or_refuse) (keeps.makes (Request.transform h n) w (read_u32-lt v e) g)
  ]

  pub image_composite-kept :
      (h : ℕ) (k : ℕ) (v : Value) (w : native.World)
      → Good w
      → Good (image_composite native h k v w).1
  unfolding image_composite
  image_composite-kept h k v w g =
      make_or_refuse-kept (composite_request h k v) w (λ r e. composite_request-MayMake h k v e) g
