-- ===== src/Image/Ranges.antt =====
-- What the readers of image_stubs.c that take several arguments let through.
use opentui_ocaml.Prelude.{
  ℕ, zero, suc, ◌-◌, ◌*◌, ◌/◌, ◌%◌, ◌^◌, ◌<◌, ◌≡◌, true, ◌&&◌, some, List, [], ◌∷◌, arith, ◌==◌,
  leb, length, subst, found-eq-some, if-eq-some, some-injective, leb→le, ap,
}
use opentui_ocaml.Prelude.Int.{ℤ}
use opentui_ocaml.Yoga.Native.{Double}
use opentui_ocaml.Values.{Value, has_fields, field, string_val, custom_val}
use opentui_ocaml.Image.Native.{NativeImage, Request, DrawOptions}
use opentui_ocaml.Image.Arguments.{
  read_u32, read_i32, read_byte_array, read_floatarray, read_matrix_and_mask,
}
use opentui_ocaml.Image.Snapshot.{buffer_is_valid}
use opentui_ocaml.Image.Operations.{
  read_small, resize_request, extract_request, extend_request, composite_request, rgba_request,
}
use opentui_ocaml.Image.Drawing.{read_u32_fields, options_of, read_draw_arguments}
use opentui_ocaml.Image.Allowed.{
  MayMake, IsOptions, IsThere, AllFinite, read_u32-lt, read_byte_array-length, read_small_bounds,
  read_floatarray-AllFinite,
}

divides : (n : ℕ) → (n % 3 == 0 && leb (n / 3) (2 ^ 32 - 1)) ≡ true → n ≡ n / 3 * 3
divides n h = ground arith

fits : (n : ℕ) → (n % 3 == 0 && leb (n / 3) (2 ^ 32 - 1)) ≡ true → n / 3 < 2 ^ 32
fits n h = ground arith

pub resize_request-MayMake :
    (h : ℕ) (args : Value) {r : Request} → resize_request h args ≡ some r → MayMake r
unfolding resize_request
resize_request-MayMake h args e =
    let (shape, h0) = if-eq-some (has_fields args 3) e in
    let (x0, e1, h1) = found-eq-some (read_u32 (field args 0)) _ h0 in
    let (x1, e2, h2) = found-eq-some (read_u32 (field args 1)) _ h1 in
    let (x2, e3, h3) = found-eq-some (read_u32 (field args 2)) _ h2 in
    subst MayMake (some-injective h3)
      (read_u32-lt (field args 0) e1, read_u32-lt (field args 1) e2, read_u32-lt (field args 2) e3)

pub extract_request-MayMake :
    (h : ℕ) (args : Value) {r : Request} → extract_request h args ≡ some r → MayMake r
unfolding extract_request
extract_request-MayMake h args e =
    let (shape, h0) = if-eq-some (has_fields args 4) e in
    let (x0, e1, h1) = found-eq-some (read_u32 (field args 0)) _ h0 in
    let (x1, e2, h2) = found-eq-some (read_u32 (field args 1)) _ h1 in
    let (x2, e3, h3) = found-eq-some (read_u32 (field args 2)) _ h2 in
    let (x3, e4, h4) = found-eq-some (read_u32 (field args 3)) _ h3 in
    subst MayMake (some-injective h4) (
      read_u32-lt (field args 0) e1,
      read_u32-lt (field args 1) e2,
      read_u32-lt (field args 2) e3,
      read_u32-lt (field args 3) e4,
    )

pub extend_request-MayMake :
    (h : ℕ) (args : Value) {r : Request} → extend_request h args ≡ some r → MayMake r
unfolding extend_request
extend_request-MayMake h args e =
    let (shape, h0) = if-eq-some (has_fields args 5) e in
    let (x0, e1, h1) = found-eq-some (read_u32 (field args 0)) _ h0 in
    let (x1, e2, h2) = found-eq-some (read_u32 (field args 1)) _ h1 in
    let (x2, e3, h3) = found-eq-some (read_u32 (field args 2)) _ h2 in
    let (x3, e4, h4) = found-eq-some (read_u32 (field args 3)) _ h3 in
    let (bg, e5, h5) = found-eq-some (read_byte_array (field args 4)) _ h4 in
    subst MayMake (some-injective h5) (
      read_u32-lt (field args 0) e1,
      read_u32-lt (field args 1) e2,
      read_u32-lt (field args 2) e3,
      read_u32-lt (field args 3) e4,
      read_byte_array-length (field args 4) e5,
    )

pub composite_request-MayMake :
    (h : ℕ) (o : ℕ) (args : Value) {r : Request} → composite_request h o args ≡ some r → MayMake r
unfolding composite_request
composite_request-MayMake h o args e =
    let (shape, h0) = if-eq-some (has_fields args 4) e in
    let (x, e1, h1) = found-eq-some (read_i32 (field args 0)) _ h0 in
    let (y, e2, h2) = found-eq-some (read_i32 (field args 1)) _ h1 in
    let (b, e3, h3) = found-eq-some (read_u32 (field args 2)) _ h2 in
    let (p, e4, h4) = found-eq-some (read_small (field args 3) 0 255) _ h3 in
    subst MayMake (some-injective h4)
      (read_u32-lt (field args 2) e3, omega (arith, (read_small_bounds (field args 3) 0 255 e4).1))

pub rgba_request-MayMake :
    (v : Value) (a : Value) (b : Value) (c : Value) {r : Request}
    → rgba_request v a b c ≡ some r
    → MayMake r
unfolding rgba_request
rgba_request-MayMake v a b c e =
    let (bytes, e1, h1) = found-eq-some (string_val v) _ e in
    let (x, e2, h2) = found-eq-some (read_u32 a) _ h1 in
    let (y, e3, h3) = found-eq-some (read_u32 b) _ h2 in
    let (z, e4, h4) = found-eq-some (read_u32 c) _ h3 in
    subst MayMake (some-injective h4) (read_u32-lt a e2, read_u32-lt b e3, read_u32-lt c e4)

abbrev AllSmall : List ℕ → Type 0
AllSmall [] = Unit {0}
AllSmall (n ∷ ns) = (n < 2 ^ 32) × AllSmall ns

read_u32_fields-AllSmall :
    (v : Value) (start count : ℕ) {ns : List ℕ}
    → read_u32_fields v start count ≡ some ns
    → AllSmall ns
unfolding read_u32_fields
read_u32_fields-AllSmall v start zero e = subst AllSmall (some-injective e) tt
read_u32_fields-AllSmall v start (suc count) e =
    let (n, e1, h1) = found-eq-some (read_u32 (field v start)) _ e in
    let (ns, e2, h2) = found-eq-some (read_u32_fields v (suc start) count) _ h1 in
    subst AllSmall (some-injective h2)
      (read_u32-lt (field v start) e1, read_u32_fields-AllSmall v (suc start) count e2)

options_of-IsOptions :
    (x y : ℤ) (ns : List ℕ) {o : DrawOptions}
    → AllSmall ns
    → options_of x y ns ≡ some o
    → IsOptions o
unfolding options_of
options_of-IsOptions x y (a ∷ b ∷ c ∷ d ∷ e ∷ f ∷ g ∷ h ∷ p ∷ []) small eq =
    let (known, e1) = if-eq-some (leb p 3) eq in
    let (ta, (tb, (tc, (td, (te, (tf, (tg, (th, rest)))))))) = small in
    subst IsOptions (some-injective e1) (record {
      size = (ta, tb);
      pixels = (tc, td);
      source = (te, tf);
      source_size = (tg, th);
      protocol_known = leb→le p 3 known;
    })
options_of-IsOptions x y _ small eq = cc

pub read_draw_arguments-IsOptions :
    (v : Value) {o : DrawOptions} {image : ℕ}
    → read_draw_arguments v ≡ some (o, image)
    → IsOptions o
unfolding read_draw_arguments
read_draw_arguments-IsOptions v e =
    let (shape, h0) = if-eq-some (has_fields v 12) e in
    let (x, e1, h1) = found-eq-some (read_i32 (field v 0)) _ h0 in
    let (y, e2, h2) = found-eq-some (read_i32 (field v 1)) _ h1 in
    let (ns, e3, h3) = found-eq-some (read_u32_fields v 2 9) _ h2 in
    let (options, e4, h4) = found-eq-some (options_of x y ns) _ h3 in
    let (image, e5, h5) = found-eq-some (custom_val (field v 11)) _ h4 in
    subst IsOptions (ap (λ r. r.0) (some-injective h5))
      (options_of-IsOptions x y ns (read_u32_fields-AllSmall v 2 9 e3) e4)

-- What `read_matrix_and_mask` lets through.
pub record Reads {Single : Type 0} (to_single : Double → Single) (matrix mask : List Single)
    (count : ℕ) : Type 0 where
  pub sixteen : length matrix ≡ 16
  pub matrix_finite : AllFinite to_single matrix
  pub triples : length mask ≡ count * 3
  pub count_fits : count < 2 ^ 32
  pub mask_finite : AllFinite to_single mask

pub read_matrix_and_mask-Reads :
    {Single : Type 0} (to_single : Double → Single) (v a : Value) {matrix mask : List Single}
    {count : ℕ}
    → read_matrix_and_mask to_single v a ≡ some (matrix, mask, count)
    → Reads to_single matrix mask count
unfolding read_matrix_and_mask
read_matrix_and_mask-Reads to_single v a e =
    let (matrix, e1, h1) = found-eq-some (read_floatarray to_single v 16) _ e in
    let (mask, e2, h2) = found-eq-some (read_floatarray to_single a 0) _ h1 in
    let (whole, h3) = if-eq-some (length mask % 3 == 0 && leb (length mask / 3) (2 ^ 32 - 1)) h2 in
    let m = read_floatarray-AllFinite to_single v 16 e1 in
    let k = read_floatarray-AllFinite to_single a 0 e2 in
    subst (λ r. Reads to_single r.0 r.1 r.2) (some-injective h3)
      (record {
        sixteen = m.0 (omega arith);
        matrix_finite = m.1;
        triples = divides (length mask) whole;
        count_fits = fits (length mask) whole;
        mask_finite = k.1;
      })

pub buffer_is_valid-IsThere :
    (native : NativeImage) (h : ℕ) (w : native.World)
    → buffer_is_valid native h w ≡ true
    → IsThere native w h
unfolding buffer_is_valid
buffer_is_valid-IsThere native h w e = ground arith
