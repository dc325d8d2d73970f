-- ===== src/Slots/Laws.antt =====
-- Lookup, allocation and release of slots: what each does to the table.
use opentui_ocaml.Prelude.{
  ℕ, zero, suc, ◌+◌, ◌-◌, ◌^◌, ◌≤◌, ◌<◌, ◌≡◌, refl, ◌≢◌, ◌⊎◌, inl, inr, true, false, none, some,
  arith, Bool-cases, sym, ap, ◌∙◌,
}
use opentui_ocaml.Token.{make_token, token_index, token_generation}
use opentui_ocaml.Token.Laws.{
  make_token_fields, token_index-make_token, token_generation-make_token, make_token_ne_zero,
  next_generation_range,
}
use opentui_ocaml.Slots.{
  Slot, Table, from_token, claimed, taken, allocate_from, allocate, release_slot,
}

module _ {ℓ} {P : Type ℓ} where
  -- Generations fit 16 bits, and a live slot has one that is not 0.
  pub record IsValid (t : Table P) : Type ℓ where
    pub small : (i : ℕ) → (t i).generation < 2 ^ 16
    pub used : (i : ℕ) → (t i).alive ≡ true → 0 < (t i).generation

  -- A token resolves exactly when its index is in range and its slot is live at its generation.
  abbrev pub Names : ℕ → Table P → ℕ → ℕ → Type 0
  Names capacity t token i =
      (token_index token ≡ i)
      × (0 < i)
      × (i < capacity)
      × ((t i).alive ≡ true)
      × ((t i).generation ≡ token_generation token)

  pub from_token-Names :
      (capacity : ℕ) (t : Table P) (token i : ℕ)
      → from_token capacity t token ≡ some i
      → Names capacity t token i
  unfolding from_token
  from_token-Names capacity t token i h = ground arith

  pub from_token-eq-some :
      (capacity : ℕ) (t : Table P) (token i : ℕ)
      → Names capacity t token i
      → from_token capacity t token ≡ some i
  unfolding from_token
  from_token-eq-some capacity t token i h = ground arith

  pub allocate_from_cases :
      (prepare : P → P) (t : Table P) (rounds index : ℕ)
      → (((i : ℕ) → index ≤ i → i < index + rounds → (t i).alive ≡ true)
          × (allocate_from prepare t rounds index ≡ record { token = 0; index = 0; table = t }))
        ⊎ ((k : ℕ) × (index ≤ k)
            × (k < index + rounds)
            × ((t k).alive ≡ false)
            × (allocate_from prepare t rounds index ≡ taken prepare t k))
  unfolding allocate_from
  allocate_from_cases prepare t zero index = inl (λ i p q. absurd (omega arith), refl)
  allocate_from_cases prepare t (suc rounds) index = elim (Bool-cases (t index).alive) [
    | inl live ↦ elim (allocate_from_cases prepare t rounds (index + 1)) [
      | inl (all, e) ↦ inl (
        λ i p q.
            let here : (index ≡ i) ⊎ (index + 1 ≤ i) = omega arith in
            elim here [ inl same ↦ rw (← same) live | inr later ↦ all i later (omega arith) ],
        rw (live, allocate_from) e,
      )
      | inr (k, p, q, dead, e) ↦ inr (k, omega arith, omega arith, dead, rw (live, allocate_from) e)
    ]
    | inr free ↦ inr (index, omega arith, omega arith, free, rw (free, allocate_from))
  ]

  -- An allocator either finds every slot live, and says so by the token 0, or takes a free slot.
  pub allocate_cases :
      (capacity : ℕ) (prepare : P → P) (t : Table P)
      → 0 < capacity
      → (((i : ℕ) → 0 < i → i < capacity → (t i).alive ≡ true)
          × (allocate capacity prepare t ≡ record { token = 0; index = 0; table = t }))
        ⊎ ((k : ℕ) × (0 < k)
            × (k < capacity)
            × ((t k).alive ≡ false)
            × (allocate capacity prepare t ≡ taken prepare t k))
  unfolding allocate
  allocate_cases capacity prepare t h = elim (allocate_from_cases prepare t (capacity - 1) 1) [
    | inl (all, e) ↦ inl (λ i p q. all i p (omega arith), e)
    | inr (k, p, q, dead, e) ↦ inr (k, p, omega arith, dead, e)
  ]

  pub generation-claimed :
      (prepare : P → P) (slot : Slot P)
      → slot.generation < 2 ^ 16
      → (0 < (claimed prepare slot).generation) × ((claimed prepare slot).generation < 2 ^ 16)
  unfolding claimed
  generation-claimed prepare slot h = ground (arith, next_generation_range slot.generation h)

  module _ (capacity : ℕ) (prepare : P → P) (t : Table P) (v : IsValid t) (k : ℕ) where
    -- Taking a free slot: its token names it, and its generation is new.
    pub token-taken :
        k < 2 ^ 16
        → (token_index (taken prepare t k).token ≡ k)
          × (token_generation (taken prepare t k).token ≡ (claimed prepare (t k)).generation)
          × ((taken prepare t k).token ≢ 0)
    unfolding taken
    token-taken h =
        let g = generation-claimed prepare (t k) (v.small k) in
        (
          token_index-make_token k _ h g.1,
          token_generation-make_token k _ h g.1,
          make_token_ne_zero k _ h g.0 g.1,
        )

    pub taken-IsValid : IsValid (taken prepare t k).table
    unfolding taken claimed
    taken-IsValid = record {
      small = λ i. ground (arith, v.small i, generation-claimed prepare (t k) (v.small k));
      used = λ i. ground (arith, v.used i, generation-claimed prepare (t k) (v.small k));
    }

  pub slot-taken :
      (prepare : P → P) (t : Table P) (k : ℕ)
      → ((taken prepare t k).table k ≡ claimed prepare (t k))
        × ((taken prepare t k).index ≡ k)
        × (((taken prepare t k).table k).alive ≡ true)
        × (((taken prepare t k).table k).payload ≡ prepare (t k).payload)
  unfolding taken claimed
  slot-taken prepare t k = ground arith

  pub slot-taken_ne :
      (prepare : P → P) (t : Table P) (k i : ℕ) → k ≢ i → (taken prepare t k).table i ≡ t i
  unfolding taken
  slot-taken_ne prepare t k i h = ground arith

  -- A token that names a live slot does so in any table that has the same slot there.
  pub from_token-same_slot :
      (capacity : ℕ) (t u : Table P) (token i : ℕ)
      → u i ≡ t i
      → from_token capacity t token ≡ some i
      → from_token capacity u token ≡ some i
  from_token-same_slot capacity t u token i e h =
      let n = from_token-Names capacity t token i h in
      from_token-eq-some capacity u token i (n.0, n.1, n.2, rw e n.3, rw e n.4)

  -- A token whose slot is dead names nothing.
  pub from_token-dead :
      (capacity : ℕ) (t : Table P) (token : ℕ)
      → (t (token_index token)).alive ≡ false
      → from_token capacity t token ≡ none
  unfolding from_token
  from_token-dead capacity t token h = ground arith

  -- Two 32-bit tokens that name one slot are equal.
  pub from_token-injective :
      (capacity : ℕ) (t : Table P) (a b i : ℕ)
      → a < 2 ^ 32
      → b < 2 ^ 32
      → from_token capacity t a ≡ some i
      → from_token capacity t b ≡ some i
      → a ≡ b
  from_token-injective capacity t a b i ha hb na nb =
      let n = from_token-Names capacity t a i na in
      let m = from_token-Names capacity t b i nb in
      sym (make_token_fields a ha)
      ∙ ap (λ k. make_token k (token_generation a)) (n.0 ∙ sym m.0)
      ∙ ap (make_token (token_index b)) (sym n.4 ∙ m.4)
      ∙ make_token_fields b hb

  module _ (capacity : ℕ) (clear : P → P) (t : Table P) (i : ℕ) where
    pub release_slot-IsValid : IsValid t → IsValid (release_slot clear t i)
    unfolding release_slot
    release_slot-IsValid v = record {
      small = λ j. ground (arith, v.small i, v.small j);
      used = λ j. ground (arith, v.used j);
    }

    pub release_slot_self : (release_slot clear t i i).alive ≡ false
    unfolding release_slot
    release_slot_self = ground arith

    pub release_slot_ne : (j : ℕ) → i ≢ j → release_slot clear t i j ≡ t j
    unfolding release_slot
    release_slot_ne j h = ground arith

    -- Releasing the slot of a live token makes the token stale, and every token of another slot
    -- keeps its slot.
    pub from_token-release_slot :
        (token : ℕ)
        → from_token capacity t token ≡ some i
        → (from_token capacity (release_slot clear t i) token ≡ none)
          × ((other j : ℕ)
              → i ≢ j
              → from_token capacity t other ≡ some j
              → (from_token capacity (release_slot clear t i) other ≡ some j)
                × (release_slot clear t i j ≡ t j))
    from_token-release_slot token h = (
      from_token-dead capacity _ token
          (rw (from_token-Names capacity t token i h).0 release_slot_self),
      λ other j ne o. (
        from_token-same_slot capacity t _ other j (release_slot_ne j ne) o,
        release_slot_ne j ne,
      ),
    )
