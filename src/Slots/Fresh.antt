-- ===== src/Slots/Fresh.antt =====
-- The allocators of the slot tables (`span_allocate` and its copies): the slot that is handed out,
-- and the token 0.
use mathlib.Core.Bool.{false≢true}
use native.Mathlib.Decide.{ℕ_discrete}
use opentui_ocaml.Prelude.{
  ℕ, ◌^◌, ◌≤◌, ◌<◌, ◌≡◌, ◌≢◌, ◌↔◌, ◌⊎◌, inl, inr, true, false, none, some, arith, sym, ap, ◌∙◌,
}
use opentui_ocaml.Slots.{Table, from_token, Allocation, taken, allocate}
use opentui_ocaml.Slots.Laws.{
  IsValid, from_token-Names, from_token-eq-some, allocate_cases, token-taken, taken-IsValid,
  slot-taken, slot-taken_ne, from_token-same_slot, from_token-dead,
}

module _ {ℓ} {P : Type ℓ} where
  module _ (capacity : ℕ) (prepare : P → P) (t : Table P) where
    -- What an allocation that succeeds guarantees: the token named nothing before and names the
    -- returned slot now, that slot is prepared, and no token that was live is disturbed.
    pub record IsFresh (a : Allocation P) : Type ℓ where
      pub unused : from_token capacity t a.token ≡ none
      pub names : from_token capacity a.table a.token ≡ some a.index
      pub free : (t a.index).alive ≡ false
      pub in_range : (0 < a.index) × (a.index < capacity)
      pub prepared : (a.table a.index).payload ≡ prepare (t a.index).payload
      pub valid : IsValid a.table
      pub undisturbed :
          (token i : ℕ)
          → from_token capacity t token ≡ some i
          → (from_token capacity a.table token ≡ some i) × (a.table i ≡ t i)

    live_elsewhere :
        (k token i : ℕ) → (t k).alive ≡ false → from_token capacity t token ≡ some i → k ≢ i
    live_elsewhere k token i dead h e =
        let live : (t k).alive ≡ true = rw e (from_token-Names capacity t token i h).3 in
        false≢true (sym dead ∙ live)

    taken-IsFresh :
        IsValid t
        → (k : ℕ) → capacity ≤ 2 ^ 16
        → 0 < k
        → k < capacity
        → (t k).alive ≡ false
        → IsFresh (taken prepare t k)
    taken-IsFresh v k c p q dead =
        let facts = token-taken capacity prepare t v k (omega arith) in
        let slot = slot-taken prepare t k in
        let a = taken prepare t k in
        record {
          unused = from_token-dead capacity t a.token (rw facts.0 dead);
          names = rw slot.1 (
              from_token-eq-some capacity a.table a.token k
                (facts.0, p, q, slot.2, rw slot.0 (sym facts.1)));
          free = rw slot.1 dead;
          in_range = rw slot.1 (p, q);
          prepared = rw slot.1 slot.3;
          valid = taken-IsValid capacity prepare t v k;
          undisturbed = λ token i h.
              let same = slot-taken_ne prepare t k i (live_elsewhere k token i dead h) in
              (from_token-same_slot capacity t a.table token i same h, same);
        }

    -- An allocation in a valid table of at most 2 ^ 16 slots that returns a token other than 0
    -- hands out a free slot in range: the token named nothing before and names the slot now, the
    -- slot is prepared, the table is valid still, and no token that was live is disturbed.
    pub allocate-IsFresh :
        IsValid t
        → 0 < capacity
        → capacity ≤ 2 ^ 16
        → (allocate capacity prepare t).token ≢ 0
        → IsFresh (allocate capacity prepare t)
    allocate-IsFresh v p c h = elim (allocate_cases capacity prepare t p) [
      | inl (all, e) ↦ absurd (h (ap (λ (a : Allocation P). a.token) e))
      | inr (k, pk, qk, dead, e) ↦ rw e (taken-IsFresh v k c pk qk dead)
    ]

    -- Every slot of the table that it leaves is an old one or a prepared one.
    pub allocate_slots :
        0 < capacity
        → (i : ℕ)
        → ((allocate capacity prepare t).table i ≡ t i)
          ⊎ (((allocate capacity prepare t).table i).payload ≡ prepare (t i).payload)
    allocate_slots p i = elim (allocate_cases capacity prepare t p) [
      | inl (all, e) ↦ inl (ap (λ (a : Allocation P). a.table i) e)
      | inr (k, pk, qk, dead, e) ↦ elim (ℕ_discrete k i) [
        | yes same ↦ inr (
            ap (λ (a : Allocation P). (a.table i).payload) e
            ∙ rw (← same) (slot-taken prepare t k).3)
        | no ne ↦ inl (ap (λ (a : Allocation P). a.table i) e ∙ slot-taken_ne prepare t k i ne)
      ]
    ]

    -- In a valid table of at most 2 ^ 16 slots the allocator returns the token 0 exactly when every
    -- slot is live.
    pub allocate-eq-zero_iff :
        IsValid t
        → 0 < capacity
        → capacity ≤ 2 ^ 16
        → ((allocate capacity prepare t).token ≡ 0)
          ↔ ((i : ℕ) → 0 < i → i < capacity → (t i).alive ≡ true)
    allocate-eq-zero_iff v p c = elim (allocate_cases capacity prepare t p) [
      | inl (all, e) ↦ (λ _. all, λ _. ap (λ (a : Allocation P). a.token) e)
      | inr (k, pk, qk, dead, e) ↦ (
        λ z. absurd (
            (token-taken capacity prepare t v k (omega arith)).2
              (ap (λ (a : Allocation P). a.token) (sym e) ∙ z)),
        λ all. absurd (false≢true (sym dead ∙ all k pk qk)),
      )
    ]
