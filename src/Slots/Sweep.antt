-- ===== src/Slots/Sweep.antt =====
-- The loops that release every slot of a table that belongs to one owner.
use opentui_ocaml.Prelude.{
  ℕ, zero, suc, ◌+◌, ◌-◌, ◌≤◌, ◌<◌, ◌≡◌, refl, ◌≢◌, ◌∙◌, ◌⊎◌, inl, inr, true, arith, sym, ap,
}
use opentui_ocaml.Slots.{Slot, Table, sweep_slot, sweep_from, sweep}

module _ {ℓ} {P : Type ℓ} (owner : P → ℕ) (h : ℕ) where
  -- A slot after the loop has passed: its generation stays, it is live only if it was, with the
  -- same contents, and a slot of another owner is as it was.
  pub record Swept (old new : Slot P) : Type ℓ where
    pub generation : new.generation ≡ old.generation
    pub fewer : new.alive ≡ true → (old.alive ≡ true) × (new ≡ old)
    pub others : owner old.payload ≢ h → new ≡ old

  Swept-trans : {a b c : Slot P} → Swept a b → Swept b c → Swept a c
  Swept-trans {a} {b} {c} p q = record {
    generation = q.generation ∙ p.generation;
    fewer = λ live.
        let later = q.fewer live in
        let earlier = p.fewer later.0 in (earlier.0, later.1 ∙ earlier.1);
    others = λ ne.
        let same = p.others ne in
        q.others (λ e. ne (ap (λ (x : Slot P). owner x.payload) (sym same) ∙ e)) ∙ same;
  }

module _ {ℓ} {P : Type ℓ} (owner : P → ℕ) (clear : P → P) (h : ℕ) where
  sweep_slot-Swept :
      (index : ℕ) (t : Table P) (i : ℕ) → Swept owner h (t i) (sweep_slot owner clear h index t i)
  unfolding sweep_slot
  sweep_slot-Swept index t i = record {
    generation = ground arith;
    fewer = ground arith;
    others = ground arith;
  }

  sweep_slot_self :
      (index : ℕ) (t : Table P)
      → (sweep_slot owner clear h index t index).alive ≡ true
      → owner (sweep_slot owner clear h index t index).payload ≢ h
  unfolding sweep_slot
  sweep_slot_self index t live = ground arith

  sweep_from-Swept :
      (rounds index : ℕ) (t : Table P) (i : ℕ)
      → Swept owner h (t i) (sweep_from owner clear h rounds index t i)
        × (index ≤ i
            → i < index + rounds
            → (sweep_from owner clear h rounds index t i).alive ≡ true
            → owner (sweep_from owner clear h rounds index t i).payload ≢ h)
  unfolding sweep_from
  sweep_from-Swept zero index t i = (
    record { generation = refl; fewer = λ live. (live, refl); others = λ _. refl },
    λ p q. absurd (omega arith),
  )
  sweep_from-Swept (suc rounds) index t i =
      let rest = sweep_from-Swept rounds (index + 1) (sweep_slot owner clear h index t) i in
      (
        Swept-trans owner h (sweep_slot-Swept index t i) rest.0,
        λ p q live.
            let here : (index ≡ i) ⊎ (index + 1 ≤ i) = omega arith in
            elim here [
              | inl same ↦ passed i same rest.0 live
              | inr later ↦ rest.1 later (omega arith) live
            ],
      )
    where
      passed :
          (i : ℕ)
          → index ≡ i
          → Swept owner h
              (sweep_slot owner clear h index t i)
              (sweep_from owner clear h rounds (index + 1) (sweep_slot owner clear h index t) i)
          → (sweep_from owner clear h rounds (index + 1) (sweep_slot owner clear h index t) i).alive
            ≡ true
          → owner
              (sweep_from owner clear h rounds
                (index + 1)
                (sweep_slot owner clear h index t)
                i).payload
            ≢ h
      passed i same s live e =
          let was = s.fewer live in
          sweep_slot_self index t
            (ap (λ k. (sweep_slot owner clear h index t k).alive) same ∙ was.0)
            (ap (λ k. owner (sweep_slot owner clear h index t k).payload) same
              ∙ ap (λ (x : Slot P). owner x.payload) (sym was.1)
              ∙ e)

  -- After the loop over a table no live slot in range belongs to the owner; generations stay, a
  -- slot is live only if it was and then it is unchanged, and the slots of other owners are as they
  -- were.
  pub sweep-Swept :
      (capacity : ℕ) (t : Table P) (i : ℕ)
      → Swept owner h (t i) (sweep owner clear capacity h t i)
        × (0 < i
            → i < capacity
            → (sweep owner clear capacity h t i).alive ≡ true
            → owner (sweep owner clear capacity h t i).payload ≢ h)
  unfolding sweep
  sweep-Swept capacity t i =
      let loop = sweep_from-Swept (capacity - 1) 1 t i in
      (loop.0, λ p q live. loop.1 p (omega arith) live)
