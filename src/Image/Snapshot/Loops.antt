-- ===== src/Image/Snapshot/Loops.antt =====
-- The loops of `opentui_raw_buffer_restore` over two arrays of a buffer.
use opentui_ocaml.Prelude.{
  ℕ, ◌+◌, ◌≤◌, ◌<◌, ◌≡◌, ◌≢◌, refl, sym, ◌∙◌, ◌⊎◌, inl, inr, List, [], ◌∷◌, map, arith, length,
}
use opentui_ocaml.Prelude.Int.{ℤ}
use opentui_ocaml.Image.Native.{NativeImage, Plane}
use opentui_ocaml.Image.Snapshot.{to_element, load_from, store_two}
use opentui_ocaml.Image.Snapshot.Memory.{
  IsMemory, elements, to_element-lt, Stands, store-Stands, load-store_same, load-store_other,
}

module _ (native : NativeImage) (h : ℕ) (memory : IsMemory native h) (at : Plane → ℕ) (cells : ℕ)
    (p q : Plane) (apart : p ≢ q) where
  -- Both elements of one round.
  stored : ℕ → ℤ → ℤ → native.World → native.World
  stored i x y w =
      native.store q (at q) i (to_element q y) (native.store p (at p) i (to_element p x) w)

  module _ {w : native.World} (s : Stands native h memory at cells w) (i : ℕ) (x y : ℤ)
      (in_p : i < elements p cells) (in_q : i < elements q cells) where
    middle : Stands native h memory at cells (native.store p (at p) i (to_element p x) w)
    middle = store-Stands native h memory at cells s p i (to_element p x) in_p

    stored-Stands : Stands native h memory at cells (stored i x y w)
    unfolding stored
    stored-Stands = store-Stands native h memory at cells middle q i (to_element q y) in_q

    load-stored_other :
        (r : Plane) (j : ℕ)
        → j < elements r cells
        → ((p ≢ r) × (q ≢ r)) ⊎ (i ≢ j)
        → native.load r (at r) j (stored i x y w) ≡ native.load r (at r) j w
    unfolding stored
    load-stored_other r j near (inl (np, nq)) =
        load-store_other native h memory at cells middle q i (to_element q y) in_q r j near (inl nq)
        ∙ load-store_other native h memory at cells s p i (to_element p x) in_p r j near (inl np)
    load-stored_other r j near (inr n) =
        load-store_other native h memory at cells middle q i (to_element q y) in_q r j near (inr n)
        ∙ load-store_other native h memory at cells s p i (to_element p x) in_p r j near (inr n)

    load-stored_first : native.load p (at p) i (stored i x y w) ≡ to_element p x
    unfolding stored
    load-stored_first =
        load-store_other native h memory at cells middle q i (to_element q y) in_q p i in_p
          (inl (λ e. apart (sym e)))
        ∙ load-store_same native h memory at cells s p i (to_element p x) in_p (to_element-lt p x)

    load-stored_second : native.load q (at q) i (stored i x y w) ≡ to_element q y
    unfolding stored
    load-stored_second =
        load-store_same native h memory at cells middle q i (to_element q y) in_q
          (to_element-lt q y)

  pub store_two-Stands :
      (xs ys : List ℤ) (start : ℕ) {w : native.World}
      → Stands native h memory at cells w
      → start + length xs ≤ elements p cells
      → start + length ys ≤ elements q cells
      → Stands native h memory at cells (store_two native p (at p) q (at q) start xs ys w)
  unfolding store_two stored
  store_two-Stands [] ys start s a b = s
  store_two-Stands (x ∷ xs) [] start s a b = s
  store_two-Stands (x ∷ xs) (y ∷ ys) start s a b =
      store_two-Stands xs ys (start + 1) (stored-Stands s start x y (omega arith) (omega arith))
        (omega arith) (omega arith)

  pub load-store_two :
      (xs ys : List ℤ) (start : ℕ) {w : native.World} (r : Plane) (j : ℕ)
      → Stands native h memory at cells w
      → start + length xs ≤ elements p cells
      → start + length ys ≤ elements q cells
      → j < elements r cells
      → ((p ≢ r) × (q ≢ r)) ⊎ (j < start)
      → native.load r (at r) j (store_two native p (at p) q (at q) start xs ys w)
        ≡ native.load r (at r) j w
  unfolding store_two stored
  load-store_two [] ys start r j s a b near out = refl
  load-store_two (x ∷ xs) [] start r j s a b near out = refl
  load-store_two (x ∷ xs) (y ∷ ys) start r j s a b near out =
      load-store_two xs ys (start + 1) r j (stored-Stands s start x y (omega arith) (omega arith))
        (omega arith) (omega arith) near (later out)
      ∙ load-stored_other s start x y (omega arith) (omega arith) r j near (elsewhere out)
    where
      later : ((p ≢ r) × (q ≢ r)) ⊎ (j < start) → ((p ≢ r) × (q ≢ r)) ⊎ (j < start + 1)
      later (inl n) = inl n
      later (inr n) = inr (omega arith)

      elsewhere : ((p ≢ r) × (q ≢ r)) ⊎ (j < start) → ((p ≢ r) × (q ≢ r)) ⊎ (start ≢ j)
      elsewhere (inl n) = inl n
      elsewhere (inr n) = inr (omega arith)

  -- After the loop both arrays hold the cast lists, from the start on.
  pub load_from-store_two :
      (xs ys : List ℤ) (start : ℕ) {w : native.World}
      → Stands native h memory at cells w
      → start + length xs ≤ elements p cells
      → start + length ys ≤ elements q cells
      → length xs ≡ length ys
      → let w' = store_two native p (at p) q (at q) start xs ys w in
        (load_from native p (at p) start (length xs) w' ≡ map (to_element p) xs)
        × (load_from native q (at q) start (length ys) w' ≡ map (to_element q) ys)
  unfolding load_from store_two stored
  load_from-store_two [] [] start s a b same = (refl, refl)
  load_from-store_two [] (y ∷ ys) start s a b same = absurd (omega arith)
  load_from-store_two (x ∷ xs) [] start s a b same = absurd (omega arith)
  load_from-store_two (x ∷ xs) (y ∷ ys) start {w} s a b same =
      let s' = stored-Stands s start x y (omega arith) (omega arith) in
      let rest =
        load_from-store_two xs ys (start + 1) s' (omega arith) (omega arith) (omega arith) in
      let first =
        load-store_two xs ys (start + 1) p start s' (omega arith) (omega arith) (omega arith)
          (inr (omega arith))
        ∙ load-stored_first s start x y (omega arith) (omega arith) in
      let second =
        load-store_two xs ys (start + 1) q start s' (omega arith) (omega arith) (omega arith)
          (inr (omega arith))
        ∙ load-stored_second s start x y (omega arith) (omega arith) in
      ((λ i. first i ∷ rest.0 i), (λ i. second i ∷ rest.1 i))
