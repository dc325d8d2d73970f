-- ===== src/Image/Snapshot/Bounds.antt =====
-- Restoring a buffer writes inside its arrays only, whatever the snapshot is.
use opentui_ocaml.Prelude.{
  ℕ, zero, suc, ◌+◌, ◌*◌, ◌^◌, ◌≤◌, ◌<◌, ◌≡◌, ◌≢◌, refl, sym, ap, ◌∙◌, inl, inr, List, [], ◌∷◌,
  arith, length, true, ◌==◌, some, found-eq-some, if-eq-some, some-injective, subst, ==_iff,
  Option-cases,
}
use opentui_ocaml.Prelude.Int.{ℤ}
use opentui_ocaml.Status.{ok}
use opentui_ocaml.Values.{
  Value, long, block, string, custom, double, double_array, Fields, nil, cons, count_fields,
  custom_val, field,
}
use opentui_ocaml.Image.Native.{NativeImage, Plane, chars, foreground, background, attributes}
use opentui_ocaml.Image.Arguments.{read_elements, read_int32_array_values}
use opentui_ocaml.Image.Snapshot.{
  Cells, read_snapshot, to_element, store_two, planes_exist, buffer_restore, restore_cells,
}
use opentui_ocaml.Image.Snapshot.Memory.{
  IsMemory, elements, element_bits, Stands, store-Stands, to_element-lt,
}
use opentui_ocaml.Image.Snapshot.Loops.{store_two-Stands}

pub read_elements-length :
    (fields : Fields) {ns : List ℤ}
    → read_elements fields ≡ some ns
    → length ns ≡ count_fields fields
unfolding read_elements
read_elements-length nil e = ap length (sym (some-injective e))
read_elements-length (cons v fields) e =
    let (n, e1, h1) = found-eq-some (custom_val v) _ e in
    let (ns, e2, h2) = found-eq-some (read_elements fields) _ h1 in
    ap length (sym (some-injective h2)) ∙ ap suc (read_elements-length fields e2)

read_values-length :
    (v : Value) (n : ℕ) {ns : List ℤ} → read_int32_array_values v n ≡ some ns → length ns ≡ n
unfolding read_int32_array_values
read_values-length (block zero fields) n e =
    let (counted, e1) = if-eq-some (count_fields fields == n) e in
    omega (arith, read_elements-length fields e1, (==_iff (count_fields fields) n).0 counted)
read_values-length (block (suc tag) fields) n e = cc
read_values-length (long k) n e = cc
read_values-length (string bytes) n e = cc
read_values-length (custom k) n e = cc
read_values-length (double d) n e = cc
read_values-length (double_array ds) n e = cc

-- The lists of a snapshot that is accepted are as long as the arrays.
record Fits (cells : ℕ) (c : Cells) : Type 0 where
  chars_fit : length c.char_values ≡ cells
  foreground_fit : length c.foreground_values ≡ cells * 4
  background_fit : length c.background_values ≡ cells * 4
  attributes_fit : length c.attribute_values ≡ cells

read_snapshot-Fits :
    (v : Value) (cells : ℕ) {c : Cells} → read_snapshot v cells ≡ some c → Fits cells c
unfolding read_snapshot
read_snapshot-Fits v cells e =
    let (cs, e1, h1) = found-eq-some (read_int32_array_values (field v 0) cells) _ e in
    let (fs, e2, h2) = found-eq-some (read_int32_array_values (field v 1) (cells * 4)) _ h1 in
    let (bs, e3, h3) = found-eq-some (read_int32_array_values (field v 2) (cells * 4)) _ h2 in
    let (ats, e4, h4) = found-eq-some (read_int32_array_values (field v 3) cells) _ h3 in
    subst (Fits cells) (some-injective h4) (record {
      chars_fit = read_values-length (field v 0) cells e1;
      foreground_fit = read_values-length (field v 1) (cells * 4) e2;
      background_fit = read_values-length (field v 2) (cells * 4) e3;
      attributes_fit = read_values-length (field v 3) cells e4;
    })

module _ (native : NativeImage) (h : ℕ) (memory : IsMemory native h) (Good : native.World → Type 0)
    (writes : (p : Plane) (i v : ℕ) (w : native.World)
      → native.plane_ptr p h w ≢ 0
      → i < elements p (native.buffer_width h w * native.buffer_height h w)
      → v < 2 ^ element_bits p
      → Good w
      → Good (native.store p (native.plane_ptr p h w) i v w)) where
  module _ (at : Plane → ℕ) (cells : ℕ) (there : (p : Plane) → at p ≢ 0) where
    write-Good :
        (p : Plane) (i v : ℕ) {w : native.World}
        → Stands native h memory at cells w
        → i < elements p cells
        → v < 2 ^ element_bits p
        → Good w
        → Good (native.store p (at p) i v w)
    write-Good p i v {w} s inside small g =
        subst (λ a. Good (native.store p a i v w)) (s.points p)
          (writes p i v w (λ e. there p (sym (s.points p) ∙ e))
            (subst (λ c. i < elements p c) (sym s.sized) inside) small g)

    store_two-Good :
        (p q : Plane) (xs ys : List ℤ) (start : ℕ) {w : native.World}
        → Stands native h memory at cells w
        → start + length xs ≤ elements p cells
        → start + length ys ≤ elements q cells
        → Good w
        → Good (store_two native p (at p) q (at q) start xs ys w)
    unfolding store_two
    store_two-Good p q [] ys start s a b g = g
    store_two-Good p q (x ∷ xs) [] start s a b g = g
    store_two-Good p q (x ∷ xs) (y ∷ ys) start s a b g =
        let first_in : start < elements p cells = omega arith in
        let second_in : start < elements q cells = omega arith in
        let s' = store-Stands native h memory at cells s p start (to_element p x) first_in in
        let g' = write-Good p start (to_element p x) s first_in (to_element-lt p x) g in
        store_two-Good p q xs ys (start + 1)
          (store-Stands native h memory at cells s' q start (to_element q y) second_in)
          (omega arith) (omega arith)
          (write-Good q start (to_element q y) s' second_in (to_element-lt q y) g')

  planes_exist-there :
      (w : native.World) → planes_exist native h w ≡ true → (p : Plane) → native.plane_ptr p h w ≢ 0
  unfolding planes_exist
  planes_exist-there w e chars = ground arith
  planes_exist-there w e foreground = ground arith
  planes_exist-there w e background = ground arith
  planes_exist-there w e attributes = ground arith

  restore_cells-Good :
      (c : Cells) (w : native.World)
      → Fits (native.buffer_width h w * native.buffer_height h w) c
      → planes_exist native h w ≡ true
      → Good w
      → Good (restore_cells native h c w)
  unfolding restore_cells
  restore_cells-Good c w fit exist g =
      let at = λ (p : Plane). native.plane_ptr p h w in
      let cells = native.buffer_width h w * native.buffer_height h w in
      let there = planes_exist-there w exist in
      let s : Stands native h memory at cells w = record { points = λ p. refl; sized = refl } in
      let s' =
        store_two-Stands native h memory at cells chars attributes (λ e. cc) c.char_values
          c.attribute_values 0 s (omega (arith, fit.chars_fit))
          (omega (arith, fit.attributes_fit)) in
      store_two-Good at cells there foreground background c.foreground_values c.background_values 0
        s' (omega (arith, fit.foreground_fit)) (omega (arith, fit.background_fit))
        (store_two-Good at cells there chars attributes c.char_values c.attribute_values 0 s
          (omega (arith, fit.chars_fit)) (omega (arith, fit.attributes_fit)) g)

  -- Whatever holds of the native state and is kept by writes of elements that fit their type inside
  -- the arrays of the buffer, at addresses that are not null, is kept by restoring it from any
  -- value, if the arrays are memory that keeps what is written; and where the result is not success
  -- nothing changes.
  pub restore_in_bounds :
      (snapshot : Value) (w : native.World)
      → Good w
      → Good (buffer_restore native h snapshot w).1
        × ((buffer_restore native h snapshot w).0 ≢ ok → (buffer_restore native h snapshot w).1 ≡ w)
  unfolding buffer_restore
  restore_in_bounds snapshot w g =
      let cells = native.buffer_width h w * native.buffer_height h w in
      elim (Option-cases (read_snapshot snapshot cells)) [
        | inl e ↦ ground (arith, e)
        | inr (c, e) ↦
            let fit = read_snapshot-Fits snapshot cells e in
            ground (arith, e, restore_cells-Good c w fit)
      ]
