-- ===== src/Ring.antt =====
-- Rings: a fixed array whose elements are read from a start index on, around its end. The event
-- queue of raw_stubs.c and the diagnostics of wgpu_stubs.c are rings.
use opentui_ocaml.Prelude.{
  ℕ, zero, suc, ◌+◌, ◌%◌, ◌<◌, ◌≡◌, refl, sym, ap, ◌∙◌, ◌≢◌, List, [], ◌∷◌, ◌++◌, arith, ◌==◌,
  if◌then◌else◌, length, drop, ◌-◌, ◌≤◌,
}

-- `array[index] = x`
abbrev pub write_at {ℓ} : {A : Type ℓ} → (ℕ → A) → ℕ → A → ℕ → A
write_at array index x j = if index == j then x else array j

module _ {ℓ κ} {A : Type ℓ} {B : Type κ} (size : ℕ) (read : A → B) where
  -- `count` elements from `start` on, read.
  unfoldable pub contents : (ℕ → A) → ℕ → ℕ → List B
  contents array start zero = []
  contents array start (suc count) = read (array (start % size)) ∷ contents array (start + 1) count

  pub length-contents :
      (array : ℕ → A) (start count : ℕ) → length (contents array start count) ≡ count
  unfolding contents
  length-contents array start zero = refl
  length-contents array start (suc count) = ap suc (length-contents array (start + 1) count)

  step_on : (a i : ℕ) → (a + 1 + i) % size ≡ (a + (i + 1)) % size
  step_on a i = let same : a + 1 + i ≡ a + (i + 1) = omega arith in ap (λ x. x % size) same

  no_step : (a : ℕ) → (a + 0) % size ≡ a % size
  no_step a = let same : a + 0 ≡ a = omega arith in ap (λ x. x % size) same

  -- Starts that are the same around the ring.
  pub contents-agree :
      (count : ℕ) (array : ℕ → A) (a b : ℕ)
      → ((i : ℕ) → (a + i) % size ≡ (b + i) % size)
      → contents array a count ≡ contents array b count
  unfolding contents
  contents-agree zero array a b e = refl
  contents-agree (suc count) array a b e =
      let same : a % size ≡ b % size = sym (no_step a) ∙ e 0 ∙ no_step b in
      rw
        (
          same,
          contents-agree count array (a + 1) (b + 1)
              (λ i. step_on a i ∙ e (i + 1) ∙ sym (step_on b i)),
        )
        refl

  pub contents-write_at :
      (count : ℕ) (array : ℕ → A) (start index : ℕ) (x : A)
      → ((i : ℕ) → i < count → (start + i) % size ≢ index)
      → contents (write_at array index x) start count ≡ contents array start count
  unfolding contents
  contents-write_at zero array start index x h = refl
  contents-write_at (suc count) array start index x h =
      let there : start % size ≢ index = λ e. h 0 (omega arith) (no_step start ∙ e) in
      let same : write_at array index x (start % size) ≡ array (start % size) = ground arith in
      rw
        (
          same,
          contents-write_at count array (start + 1) index x
              (λ i p e. h (i + 1) (omega arith) (sym (step_on start i) ∙ e)),
        )
        refl

  pub contents-suc :
      (count : ℕ) (array : ℕ → A) (start : ℕ)
      → contents array start (suc count)
        ≡ contents array start count ++ (read (array ((start + count) % size)) ∷ [])
  unfolding contents
  contents-suc zero array start =
      let same : start ≡ start + 0 = omega arith in ap (λ i. read (array (i % size)) ∷ []) same
  contents-suc (suc count) array start =
      let same : start + 1 + count ≡ start + suc count = omega arith in
      ap (λ es. read (array (start % size)) ∷ es)
        (contents-suc count array (start + 1)
          ∙ ap (λ i. contents array (start + 1) count ++ (read (array (i % size)) ∷ [])) same)

  -- Writing the place after the last element appends it.
  pub contents-push :
      (array : ℕ → A) (start count : ℕ) (x : A)
      → ((i : ℕ) → i < count → (start + i) % size ≢ (start + count) % size)
      → contents (write_at array ((start + count) % size) x) start (suc count)
        ≡ contents array start count ++ (read x ∷ [])
  contents-push array start count x h =
      let index = (start + count) % size in
      let here : write_at array index x index ≡ x = ground arith in
      contents-suc count (write_at array index x) start
      ∙ ap (λ es. es ++ (read (write_at array index x index) ∷ []))
          (contents-write_at count array start index x h)
      ∙ ap (λ y. contents array start count ++ (read y ∷ [])) here

  -- Starting later leaves the first elements out.
  pub contents-drop :
      (n : ℕ) (array : ℕ → A) (start count : ℕ)
      → n ≤ count
      → contents array (start + n) (count - n) ≡ drop n (contents array start count)
  unfolding contents
  contents-drop zero array start count h =
      let same : start + 0 ≡ start = omega arith in
      let all : count - 0 ≡ count = omega arith in rw (same, all) refl
  contents-drop (suc n) array start zero h = absurd (omega arith)
  contents-drop (suc n) array start (suc count) h =
      let same : start + suc n ≡ start + 1 + n = omega arith in
      let fewer : suc count - suc n ≡ count - n = omega arith in
      rw (same, fewer) (contents-drop n array (start + 1) count (omega arith))
