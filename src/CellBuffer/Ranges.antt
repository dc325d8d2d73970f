-- ===== src/CellBuffer/Ranges.antt =====
-- What the readers of the buffer bindings let through.
use opentui_ocaml.Prelude.{
  ℕ, zero, suc, ◌-◌, ◌*◌, ◌/◌, ◌^◌, ◌<◌, ◌≡◌, refl, ap, ◌∙◌, subst, true, ◌&&◌, Option, none, some,
  List, arith, ◌==◌, leb, if◌then◌else◌, found, length, leb→le, ==_iff, found-eq-some, if-eq-some,
  some-injective,
}
use opentui_ocaml.Prelude.Int.{ℤ}
use opentui_ocaml.Yoga.Native.{Double}
use opentui_ocaml.Values.{
  Value, long, block, string, custom, double, double_array, Fields, nil, cons, count_fields, field,
  int32_val, to_uint32, to_uint32-lt,
}
use opentui_ocaml.Readers.{is_positive, read_color, is_option_string}
use opentui_ocaml.Readers.Laws.{in_range-le, read_color-IsChannels}
use opentui_ocaml.Image.Arguments.{read_u32}
use opentui_ocaml.Image.Allowed.{AllFinite, read_u32-lt, read_floats-AllFinite}
use opentui_ocaml.Image.Snapshot.Bounds.{read_elements-length}
use opentui_ocaml.CellBuffer.Native.{Spot, BoxStyle}
use opentui_ocaml.CellBuffer.Arguments.{
  read_text_length, read_optional_text, read_codepoints, read_border_chars, read_int32_array,
  read_grayscale_floatarray, read_spot, read_box_style,
}
use opentui_ocaml.CellBuffer.Allowed.{IsSpot, AllCodepoints, IsBorder, IsTitle, IsBoxStyle}

pub is_positive-lt : (n : ℤ) → is_positive n ≡ true → to_uint32 n < 2 ^ 31
is_positive-lt n h = omega (arith, in_range-le n (2 ^ 31 - 1) h)

pub read_text_length-lt :
    (v : Value) {bytes : List ℕ} → read_text_length v ≡ some bytes → length bytes < 2 ^ 32
unfolding read_text_length
read_text_length-lt (string bs) e =
    let (small, e1) = if-eq-some (leb (length bs) (2 ^ 32 - 1)) e in
    omega (arith, ap length (some-injective e1), leb→le (length bs) (2 ^ 32 - 1) small)
read_text_length-lt (long n) e = omega (arith, ap length (some-injective e))
read_text_length-lt (block tag fields) e = omega (arith, ap length (some-injective e))
read_text_length-lt (custom n) e = omega (arith, ap length (some-injective e))
read_text_length-lt (double d) e = omega (arith, ap length (some-injective e))
read_text_length-lt (double_array ds) e = omega (arith, ap length (some-injective e))

pub read_optional_text-IsTitle :
    (v : Value) {title : Option (List ℕ)} → read_optional_text v ≡ some title → IsTitle title
unfolding read_optional_text
read_optional_text-IsTitle v e =
    let (text, e1, h1) = found-eq-some (is_option_string v) _ e in titled text h1
  where
    titled :
        (text : Option (List ℕ)) {title : Option (List ℕ)}
        → found text
            (some none)
            (λ bytes. if leb (length bytes) (2 ^ 32 - 1) then some (some bytes) else none)
          ≡ some title
        → IsTitle title
    titled none h = subst IsTitle (some-injective h) tt
    titled (some bytes) h =
        let (small, h1) = if-eq-some (leb (length bytes) (2 ^ 32 - 1)) h in
        subst IsTitle (some-injective h1) (omega (arith, leb→le (length bytes) (2 ^ 32 - 1) small))

read_codepoints-AllCodepoints :
    (fields : Fields) {ns : List ℕ}
    → read_codepoints fields ≡ some ns
    → (length ns ≡ count_fields fields) × AllCodepoints ns
unfolding read_codepoints
read_codepoints-AllCodepoints nil e =
    subst (λ ns. (length ns ≡ 0) × AllCodepoints ns) (some-injective e) (refl, tt)
read_codepoints-AllCodepoints (cons v fields) e =
    let (n, e1, h1) = found-eq-some (read_u32 v) _ e in
    let (ns, e2, h2) = found-eq-some (read_codepoints fields) _ h1 in
    let below = read_codepoints-AllCodepoints fields e2 in
    subst (λ l. (length l ≡ suc (count_fields fields)) × AllCodepoints l) (some-injective h2)
      (ap suc below.0, (read_u32-lt v e1, below.1))

pub read_border_chars-IsBorder :
    (v : Value) {ns : List ℕ} → read_border_chars v ≡ some ns → IsBorder ns
unfolding read_border_chars
read_border_chars-IsBorder (block tag fields) e =
    let (eleven, e1) = if-eq-some (count_fields fields == 11) e in
    let r = read_codepoints-AllCodepoints fields e1 in
    (r.0 ∙ (==_iff (count_fields fields) 11).0 eleven, r.1)
read_border_chars-IsBorder (long n) e = cc
read_border_chars-IsBorder (string bytes) e = cc
read_border_chars-IsBorder (custom n) e = cc
read_border_chars-IsBorder (double d) e = cc
read_border_chars-IsBorder (double_array ds) e = cc

pub read_int32_array_length-lt :
    (v : Value) {ns : List ℤ} → read_int32_array v ≡ some ns → length ns < 2 ^ 32
unfolding read_int32_array
read_int32_array_length-lt (block zero fields) e =
    let (small, e1) = if-eq-some (leb (count_fields fields) (2 ^ 32 - 1)) e in
    omega (arith, read_elements-length fields e1, leb→le (count_fields fields) (2 ^ 32 - 1) small)
read_int32_array_length-lt (block (suc tag) fields) e = cc
read_int32_array_length-lt (long n) e = cc
read_int32_array_length-lt (string bytes) e = cc
read_int32_array_length-lt (custom n) e = cc
read_int32_array_length-lt (double d) e = cc
read_int32_array_length-lt (double_array ds) e = cc

pub read_spot-IsSpot :
    (v : Value) (x y fg bg attributes : ℕ) {s : Spot}
    → read_spot v x y fg bg attributes ≡ some s
    → IsSpot s
unfolding read_spot
read_spot-IsSpot v x y fg bg attributes e =
    let (placed, h0) =
      if-eq-some (is_positive (int32_val (field v x)) && is_positive (int32_val (field v y))) e in
    let (f, e1, h1) = found-eq-some (read_color (field v fg)) _ h0 in
    let (b, e2, h2) = found-eq-some (read_color (field v bg)) _ h1 in
    let (across, down) = both (int32_val (field v x)) (int32_val (field v y)) placed in
    subst IsSpot (some-injective h2) (record {
      across = across;
      down = down;
      foreground = read_color-IsChannels (field v fg) e1;
      background = read_color-IsChannels (field v bg) e2;
      attributed = to_uint32-lt (int32_val (field v attributes));
    })
  where
    both :
        (m n : ℤ)
        → (is_positive m && is_positive n) ≡ true
        → (to_uint32 m < 2 ^ 31) × (to_uint32 n < 2 ^ 31)
    both m n h = ground (arith, is_positive-lt m, is_positive-lt n)

pub read_box_style-IsBoxStyle :
    (v : Value) {b : BoxStyle} → read_box_style v ≡ some b → IsBoxStyle b
unfolding read_box_style
read_box_style-IsBoxStyle v e =
    let (chars, e1, h1) = found-eq-some (read_border_chars (field v 4)) _ e in
    let (border, e2, h2) = found-eq-some (read_color (field v 6)) _ h1 in
    let (background, e3, h3) = found-eq-some (read_color (field v 7)) _ h2 in
    let (title_color, e4, h4) = found-eq-some (read_color (field v 8)) _ h3 in
    let (title, e5, h5) = found-eq-some (read_optional_text (field v 9)) _ h4 in
    let (bottom, e6, h6) = found-eq-some (read_optional_text (field v 10)) _ h5 in
    subst IsBoxStyle (some-injective h6) (record {
      bordered = read_border_chars-IsBorder (field v 4) e1;
      packed = to_uint32-lt (int32_val (field v 5));
      border = read_color-IsChannels (field v 6) e2;
      background = read_color-IsChannels (field v 7) e3;
      titled = read_color-IsChannels (field v 8) e4;
      above = read_optional_text-IsTitle (field v 9) e5;
      below = read_optional_text-IsTitle (field v 10) e6;
    })

pub read_grayscale_floatarray-AllFinite :
    {Single : Type 0} (to_single : Double → Single) (v : Value) (width height : ℕ)
    {fs : List Single}
    → read_grayscale_floatarray to_single v width height ≡ some fs
    → (length fs ≡ width * height) × AllFinite to_single fs
unfolding read_grayscale_floatarray
read_grayscale_floatarray-AllFinite to_single (double_array ds) width height e =
    let (shape, e1) =
      if-eq-some (length ds == width * height && leb (width * height) ((2 ^ 64 - 1) / 4)) e in
    let r = read_floats-AllFinite to_single ds e1 in
    (r.0 ∙ sized (length ds) (width * height) shape, r.1)
  where
    sized : (m n : ℕ) → (m == n && leb n ((2 ^ 64 - 1) / 4)) ≡ true → m ≡ n
    sized m n h = ground arith
read_grayscale_floatarray-AllFinite to_single (long n) width height e = cc
read_grayscale_floatarray-AllFinite to_single (block tag fields) width height e = cc
read_grayscale_floatarray-AllFinite to_single (string bytes) width height e = cc
read_grayscale_floatarray-AllFinite to_single (custom n) width height e = cc
read_grayscale_floatarray-AllFinite to_single (double d) width height e = cc
