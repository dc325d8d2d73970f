-- ===== src/Image/Allowed.antt =====
-- Which arguments the native functions behind image_stubs.c may be given, and what the readers of
-- image_stubs.c let through.
use opentui_ocaml.Prelude.{
  ℕ, suc, ◌-◌, ◌*◌, ◌/◌, ◌^◌, ◌≤◌, ◌<◌, ◌≡◌, ◌≢◌, refl, ap, inl, inr, true, not, ◌&&◌, none, some,
  List, [], ◌∷◌, arith, ◌==◌, leb, if◌then◌else◌, length, subst, found-eq-some, if-eq-some,
  some-injective, Bool-cases, leb→le,
}
use opentui_ocaml.Prelude.Int.{pos, negsuc}
use opentui_ocaml.Yoga.Native.{Double}
use opentui_ocaml.Values.{Value, long, block, string, custom, double, double_array, string_val}
use opentui_ocaml.Image.Native.{
  NativeImage, Request, decode, create_from_rgba, retain, clone, resize, extract, extend, transform,
  composite, Drawing, DrawOptions, draw_image, color_matrix, color_matrix_uniform,
}
use opentui_ocaml.Image.Arguments.{
  read_u32, read_byte_array, is_finite, read_floats, read_floatarray,
}
use opentui_ocaml.Image.Operations.{encoded_bytes, read_small}

-- Bytes that are there and have a 32-bit length.
abbrev pub IsEncoded : List ℕ → Type 0
IsEncoded bytes = (0 < length bytes) × (length bytes < 2 ^ 32)

abbrev pub MayMake : Request → Type 0
MayMake (decode bytes) = IsEncoded bytes
MayMake (create_from_rgba bytes width height stride) =
    (width < 2 ^ 32) × (height < 2 ^ 32) × (stride < 2 ^ 32)
MayMake (retain h) = Unit {0}
MayMake (clone h) = Unit {0}
MayMake (resize h width height filter) = (width < 2 ^ 32) × (height < 2 ^ 32) × (filter < 2 ^ 32)
MayMake (extract h left top width height) =
    (left < 2 ^ 32) × (top < 2 ^ 32) × (width < 2 ^ 32) × (height < 2 ^ 32)
MayMake (extend h top right bottom left background) =
    (top < 2 ^ 32)
    × (right < 2 ^ 32)
    × (bottom < 2 ^ 32)
    × (left < 2 ^ 32)
    × (length background ≡ 4)
MayMake (transform h operation) = operation < 2 ^ 32
MayMake (composite base overlay left top blend opacity) = (blend < 2 ^ 32) × (opacity < 2 ^ 8)

-- Each float is the cast of a double that is neither infinite nor no number.
abbrev pub AllFinite : {Single : Type 0} → (Double → Single) → List Single → Type 0
AllFinite to_single [] = Unit {0}
AllFinite to_single (f ∷ fs) =
    ((d : Double) × (is_finite d ≡ true) × (f ≡ to_single d)) × AllFinite to_single fs

-- The unsigned options fit their type, and the protocol is one of the four of the native library.
pub record IsOptions (o : DrawOptions) : Type 0 where
  pub size : (o.width < 2 ^ 32) × (o.height < 2 ^ 32)
  pub pixels : (o.pixel_width < 2 ^ 32) × (o.pixel_height < 2 ^ 32)
  pub source : (o.source_x < 2 ^ 32) × (o.source_y < 2 ^ 32)
  pub source_size : (o.source_width < 2 ^ 32) × (o.source_height < 2 ^ 32)
  pub protocol_known : o.protocol ≤ 3

module _ (native : NativeImage) (w : native.World) where
  -- A buffer that is there has a width.
  abbrev pub IsThere : ℕ → Type 0
  IsThere h = (h ≢ 0) × (native.buffer_width h w ≢ 0)

  -- A mask is read in triples; a target is one of the three that the native library has.
  abbrev pub MayDraw : Drawing native.Single → Type 0
  MayDraw (draw_image h image options) = IsThere h × IsOptions options
  MayDraw (color_matrix h matrix mask count strength target) =
      IsThere h
      × (length matrix ≡ 16)
      × AllFinite native.to_single matrix
      × (length mask ≡ count * 3)
      × (count < 2 ^ 32)
      × AllFinite native.to_single mask
      × (1 ≤ target)
      × (target ≤ 3)
  MayDraw (color_matrix_uniform h matrix strength target) =
      IsThere h
      × (length matrix ≡ 16)
      × AllFinite native.to_single matrix
      × (1 ≤ target)
      × (target ≤ 3)

-- A property of the native state that every call with such arguments keeps.
pub record Keeps (native : NativeImage) (Good : native.World → Type 0) : Type 0 where
  pub makes : (r : Request) (w : native.World) → MayMake r → Good w → Good (native.make r w).1
  pub informs : (b : List ℕ) (w : native.World) → IsEncoded b → Good w → Good (native.info b w).1
  pub describes : (h : ℕ) (w : native.World) → Good w → Good (native.get_info h w).1
  pub destroys : (h : ℕ) (w : native.World) → Good w → Good (native.destroy h w)
  pub materializes : (h : ℕ) (w : native.World) → Good w → Good (native.materialize h w).1
  pub encodes : (h : ℕ) (w : native.World) → Good w → Good (native.ensure_encoded_png h w).1
  pub copies :
      (h : ℕ) (room : List ℕ) (stride bgra : ℕ) (w : native.World)
      → stride < 2 ^ 32
      → bgra ≤ 1
      → Good w
      → Good (native.copy_pixels h room stride bgra w).1
  pub draws :
      (d : Drawing native.Single) (w : native.World)
      → MayDraw native w d
      → Good w
      → Good (native.draw d w)

pub read_u32-lt : (v : Value) {n : ℕ} → read_u32 v ≡ some n → n < 2 ^ 32
unfolding read_u32
read_u32-lt (custom (pos k)) e = omega (arith, some-injective e)
read_u32-lt (custom (negsuc k)) e = cc
read_u32-lt (long k) e = cc
read_u32-lt (block tag fields) e = cc
read_u32-lt (string bytes) e = cc
read_u32-lt (double d) e = cc
read_u32-lt (double_array ds) e = cc

pub read_byte_array-length : (v : Value) {ns : List ℕ} → read_byte_array v ≡ some ns → length ns ≡ 4
unfolding read_byte_array
read_byte_array-length (string bytes) {ns} e = ground (arith, if-eq-some (length bytes == 4) e)
read_byte_array-length (long k) e = cc
read_byte_array-length (block tag fields) e = cc
read_byte_array-length (custom k) e = cc
read_byte_array-length (double d) e = cc
read_byte_array-length (double_array ds) e = cc

pub encoded_bytes-IsEncoded : (v : Value) {ns : List ℕ} → encoded_bytes v ≡ some ns → IsEncoded ns
unfolding encoded_bytes
encoded_bytes-IsEncoded v e =
    let (bytes, e1, h1) = found-eq-some (string_val v) _ e in
    ground (arith, leb→le (length bytes) (2 ^ 32 - 1))

pub read_small_bounds :
    (v : Value) (low high : ℕ) {n : ℕ} → read_small v low high ≡ some n → (low ≤ n) × (n ≤ high)
unfolding read_small
read_small_bounds (long (pos k)) low high e =
    let (inside, e1) = if-eq-some (leb low k && leb k high) e in
    ground (arith, some-injective e1, leb→le low k, leb→le k high)
read_small_bounds (long (negsuc k)) low high e = cc
read_small_bounds (block tag fields) low high e = cc
read_small_bounds (string bytes) low high e = cc
read_small_bounds (custom k) low high e = cc
read_small_bounds (double d) low high e = cc
read_small_bounds (double_array ds) low high e = cc

module _ {Single : Type 0} (to_single : Double → Single) where
  pub read_floats-AllFinite :
      (ds : List Double) {fs : List Single}
      → read_floats to_single ds ≡ some fs
      → (length fs ≡ length ds) × AllFinite to_single fs
  unfolding read_floats
  read_floats-AllFinite [] e =
      subst (λ l. (length l ≡ 0) × AllFinite to_single l) (some-injective e) (refl, tt)
  read_floats-AllFinite (d ∷ ds) e =
      let (good, e1) = if-eq-some (is_finite d) e in
      let (fs, e2, h2) = found-eq-some (read_floats to_single ds) _ e1 in
      let below = read_floats-AllFinite ds e2 in
      subst (λ l. (length l ≡ suc (length ds)) × AllFinite to_single l) (some-injective h2)
        (ap suc below.0, ((d, good, refl), below.1))

  pub read_floatarray-AllFinite :
      (v : Value) (expected : ℕ) {fs : List Single}
      → read_floatarray to_single v expected ≡ some fs
      → (expected ≢ 0 → length fs ≡ expected) × AllFinite to_single fs
  unfolding read_floatarray
  read_floatarray-AllFinite (double_array ds) expected {fs} e =
      elim (Bool-cases (not (expected == 0) && not (length ds == expected))) [
        | inl wrong ↦ let refused : none ≡ some fs = rw wrong at e in cc
        | inr right ↦
            let e1 : (if leb (length ds) ((2 ^ 64 - 1) / 4) then read_floats to_single ds else none)
                ≡ some fs =
              rw right at e in
            let read = (if-eq-some (leb (length ds) ((2 ^ 64 - 1) / 4)) e1).1 in
            let r = read_floats-AllFinite ds read in
            (λ nonzero. ground (arith, r.0, right, nonzero), r.1)
      ]
  read_floatarray-AllFinite (long k) expected e = cc
  read_floatarray-AllFinite (block tag fields) expected e = cc
  read_floatarray-AllFinite (string bytes) expected e = cc
  read_floatarray-AllFinite (custom k) expected e = cc
  read_floatarray-AllFinite (double d) expected e = cc
