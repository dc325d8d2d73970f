-- ===== src/Image/Masks.antt =====
-- Which matrices and masks image_stubs.c reads.
use opentui_ocaml.Prelude.{
  ℕ, suc, ◌-◌, ◌*◌, ◌/◌, ◌%◌, ◌^◌, ◌<◌, ◌≡◌, ◌↔◌, ◌⊎◌, refl, sym, ap, ◌∙◌, inl, inr, true, false,
  not, ◌&&◌, none, some, List, [], ◌∷◌, map, arith, ◌==◌, leb, if◌then◌else◌, length, subst,
  found-eq-some, if-eq-some, some-injective, Bool-cases,
}
use opentui_ocaml.Yoga.Native.{Double}
use opentui_ocaml.Values.{Value, long, block, string, custom, double, double_array}
use opentui_ocaml.Image.Arguments.{is_finite, read_floats, read_floatarray, read_matrix_and_mask}

abbrev pub AreFinite : List Double → Type 0
AreFinite [] = Unit {0}
AreFinite (d ∷ ds) = (is_finite d ≡ true) × AreFinite ds

module _ {Single : Type 0} (to_single : Double → Single) where
  -- The value is an array of finite doubles, and these are their casts.
  pub record Floats (v : Value) (fs : List Single) : Type 0 where
    pub doubles : List Double
    pub array : v ≡ double_array doubles
    pub are_finite : AreFinite doubles
    pub casts : fs ≡ map to_single doubles

  read_floats-map :
      (ds : List Double) {fs : List Single}
      → read_floats to_single ds ≡ some fs
      → AreFinite ds × (fs ≡ map to_single ds)
  unfolding read_floats
  read_floats-map [] e = (tt, sym (some-injective e))
  read_floats-map (d ∷ ds) e =
      let (good, e1) = if-eq-some (is_finite d) e in
      let (fs, e2, h2) = found-eq-some (read_floats to_single ds) _ e1 in
      let below = read_floats-map ds e2 in
      ((good, below.0), sym (some-injective h2) ∙ ap (λ l. to_single d ∷ l) below.1)

  map-read_floats :
      (ds : List Double) → AreFinite ds → read_floats to_single ds ≡ some (map to_single ds)
  unfolding read_floats
  map-read_floats [] g = refl
  map-read_floats (d ∷ ds) g = rw (g.0, map-read_floats ds g.1) refl

  length-map : (ds : List Double) → length (map to_single ds) ≡ length ds
  length-map [] = refl
  length-map (d ∷ ds) = ap suc (length-map ds)

  read_floatarray-Floats :
      (v : Value) (expected : ℕ) {fs : List Single}
      → read_floatarray to_single v expected ≡ some fs
      → Floats v fs × ((expected ≡ 0) ⊎ (length fs ≡ expected))
  unfolding read_floatarray
  read_floatarray-Floats (double_array ds) expected {fs} e =
      elim (Bool-cases (not (expected == 0) && not (length ds == expected))) [
        | inl wrong ↦ let refused : none ≡ some fs = rw wrong at e in cc
        | inr right ↦
            let e1 : (if leb (length ds) ((2 ^ 64 - 1) / 4) then read_floats to_single ds else none)
                ≡ some fs =
              rw right at e in
            let r = read_floats-map ds (if-eq-some (leb (length ds) ((2 ^ 64 - 1) / 4)) e1).1 in
            let same = ap length r.1 ∙ length-map ds in
            (
              record { doubles = ds; array = refl; are_finite = r.0; casts = r.1 },
              ground (arith, same, right),
            )
      ]
  read_floatarray-Floats (long k) expected e = cc
  read_floatarray-Floats (block tag fields) expected e = cc
  read_floatarray-Floats (string bytes) expected e = cc
  read_floatarray-Floats (custom k) expected e = cc
  read_floatarray-Floats (double d) expected e = cc

  Floats-read_floatarray :
      (v : Value) (expected : ℕ) {fs : List Single}
      → Floats v fs
      → (expected ≡ 0) ⊎ (length fs ≡ expected)
      → length fs < 2 ^ 34
      → read_floatarray to_single v expected ≡ some fs
  unfolding read_floatarray
  Floats-read_floatarray v expected {fs} f fits small =
      let same : length fs ≡ length f.doubles = ap length f.casts ∙ length-map f.doubles in
      let right : (not (expected == 0) && not (length f.doubles == expected)) ≡ false =
        ground (arith, same, fits) in
      let room : leb (length f.doubles) ((2 ^ 64 - 1) / 4) ≡ true = ground (arith, same, small) in
      rw (f.array, right, room, f.casts) (map-read_floats f.doubles f.are_finite)

  pub record AreRead (v a : Value) (matrix mask : List Single) (count : ℕ) : Type 0 where
    pub matrix_floats : Floats v matrix
    pub sixteen : length matrix ≡ 16
    pub mask_floats : Floats a mask
    pub triples : length mask ≡ count * 3
    pub count_fits : count < 2 ^ 32

  -- A matrix and a mask are read exactly where both values are arrays of finite doubles, the matrix
  -- of 16 and the mask of triples, fewer than 2 ^ 32; and then their casts and the number of
  -- triples are what is read. A value of any other tag is refused, also the block of tag 0 that
  -- OCaml has for an array without elements.
  pub read_matrix_and_mask_iff :
      (v a : Value) (matrix mask : List Single) (count : ℕ)
      → (read_matrix_and_mask to_single v a ≡ some (matrix, mask, count))
        ↔ AreRead v a matrix mask count
  unfolding read_matrix_and_mask
  read_matrix_and_mask_iff v a matrix mask count = (sound, complete)
    where
      sound :
          read_matrix_and_mask to_single v a ≡ some (matrix, mask, count)
          → AreRead v a matrix mask count
      sound e =
          let (m, e1, h1) = found-eq-some (read_floatarray to_single v 16) _ e in
          let (k, e2, h2) = found-eq-some (read_floatarray to_single a 0) _ h1 in
          let (whole, h3) = if-eq-some (length k % 3 == 0 && leb (length k / 3) (2 ^ 32 - 1)) h2 in
          let r = read_floatarray-Floats v 16 e1 in
          subst (λ x. AreRead v a x.0 x.1 x.2) (some-injective h3)
            (record {
              matrix_floats = r.0;
              sixteen = ground (arith, r.1);
              mask_floats = (read_floatarray-Floats a 0 e2).0;
              triples = ground (arith, whole);
              count_fits = ground (arith, whole);
            })

      complete :
          AreRead v a matrix mask count
          → read_matrix_and_mask to_single v a ≡ some (matrix, mask, count)
      complete h =
          let small : length mask < 2 ^ 34 = omega (arith, h.triples, h.count_fits) in
          let e1 = Floats-read_floatarray v 16 h.matrix_floats (inr h.sixteen) (omega arith) in
          let e2 = Floats-read_floatarray a 0 h.mask_floats (inl refl) small in
          let whole : (length mask % 3 == 0 && leb (length mask / 3) (2 ^ 32 - 1)) ≡ true =
            ground (arith, h.triples, h.count_fits) in
          let third : length mask / 3 ≡ count = omega (arith, h.triples) in
          rw (e1, e2, whole, third) refl
