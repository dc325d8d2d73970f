-- ===== src/Slots/History.antt =====
-- Histories of allocations and releases of one slot table, and the tokens of released slots.
use mathlib.Core.Bool.{false≢true}
use native.Mathlib.Decide.{ℕ_discrete}
use opentui_ocaml.Prelude.{
  ℕ, suc, ◌+◌, ◌%◌, ◌<◌, ◌≡◌, refl, ◌≢◌, ◌⊎◌, inl, inr, true, false, none, some, List, [], ◌∷◌,
  arith, ◌==◌, if◌then◌else◌, sym, ap, subst, ◌∙◌, Option-cases,
}
use opentui_ocaml.Token.{next_generation}
use opentui_ocaml.Token.Laws.{next_generation_range, generation_after, generation_after_eq_iff}
use opentui_ocaml.Slots.{
  Slot, Table, from_token, claimed, Allocation, taken, allocate, release_slot,
}
use opentui_ocaml.Slots.Laws.{
  IsValid, from_token-Names, allocate_cases, slot-taken, slot-taken_ne, taken-IsValid,
  release_slot_self, release_slot-IsValid,
}

pub data Call : Type 0 where
  allocates : Call
  releases : ℕ → Call

module _ {ℓ} {P : Type ℓ} (capacity : ℕ) (prepare clear : P → P) where
  -- One call on the table; a release through a stale token changes nothing.
  pub step : Table P → Call → Table P
  step t allocates = (allocate capacity prepare t).table
  step t (releases token) = elim (from_token capacity t token) [
    | none ↦ t
    | some i ↦ release_slot clear t i
  ]

  pub run : Table P → List Call → Table P
  run t [] = t
  run t (c ∷ cs) = run (step t c) cs

  -- How often a call hands out slot `i`.
  pub uses : ℕ → Table P → Call → ℕ
  uses i t allocates = if (allocate capacity prepare t).index == i then 1 else 0
  uses i t (releases token) = 0

  pub total_uses : ℕ → Table P → List Call → ℕ
  total_uses i t [] = 0
  total_uses i t (c ∷ cs) = uses i t c + total_uses i (step t c) cs

  -- What a call does to slot `i`: nothing that shows in the generation, or the next generation.
  abbrev Moves : ℕ → Table P → Table P → ℕ → Type 0
  Moves i t u n =
      ((n ≡ 0)
        × ((u i).generation ≡ (t i).generation)
        × ((t i).alive ≡ false → (u i).alive ≡ false))
      ⊎ ((n ≡ 1) × ((u i).generation ≡ next_generation (t i).generation))

  generation-claimed :
      (slot : Slot P)
      → 0 < slot.generation
      → (claimed prepare slot).generation ≡ next_generation slot.generation
  unfolding claimed
  generation-claimed slot h = ground arith

  taken-Moves :
      (t : Table P) (i k : ℕ)
      → 0 < (t i).generation
      → Moves i t (taken prepare t k).table (if (taken prepare t k).index == i then 1 else 0)
  taken-Moves t i k h = elim (ℕ_discrete k i) [
    | yes e ↦
        let slot = slot-taken prepare t k in
        inr (
          ground (arith, slot.1),
          rw (← e)
              (ap (λ (x : Slot P). x.generation) slot.0 ∙ generation-claimed (t k) (rw (← e) at h)),
        )
    | no ne ↦
        let same = slot-taken_ne prepare t k i ne in
        inl (ground (arith, (slot-taken prepare t k).1), rw same, λ dead. rw same dead)
  ]

  step-Moves :
      (t : Table P) (c : Call) (i : ℕ)
      → 0 < capacity
      → 0 < i
      → 0 < (t i).generation
      → Moves i t (step t c) (uses i t c)
  unfolding step uses release_slot
  step-Moves t allocates i p q h = elim (allocate_cases capacity prepare t p) [
    | inl (all, e) ↦ subst effect (sym e) (inl (ground arith, refl, λ dead. dead))
    | inr (k, pk, qk, dead, e) ↦ subst effect (sym e) (taken-Moves t i k h)
  ]
    where
      effect : Allocation P → Type 0
      effect a = Moves i t a.table (if a.index == i then 1 else 0)
  step-Moves t (releases token) i p q h = elim (Option-cases (from_token capacity t token)) [
    | inl e ↦ rw (e, step) (inl (refl, refl, λ dead. dead))
    | inr (j, e) ↦ rw (e, step) (inl (refl, released j, dead_still j))
  ]
    where
      released : (j : ℕ) → (release_slot clear t j i).generation ≡ (t i).generation
      released j = ground arith

      dead_still : (j : ℕ) → (t i).alive ≡ false → (release_slot clear t j i).alive ≡ false
      dead_still j dead = ground arith

  step-IsValid : (t : Table P) (c : Call) → 0 < capacity → IsValid t → IsValid (step t c)
  unfolding step
  step-IsValid t allocates p v = elim (allocate_cases capacity prepare t p) [
    | inl (all, e) ↦ subst (λ (a : Allocation P). IsValid a.table) (sym e) v
    | inr (k, pk, qk, dead, e) ↦
        subst (λ (a : Allocation P). IsValid a.table) (sym e) (taken-IsValid capacity prepare t v k)
  ]
  step-IsValid t (releases token) p v = elim (Option-cases (from_token capacity t token)) [
    | inl e ↦ rw (e, step) v
    | inr (j, e) ↦ rw (e, step) (release_slot-IsValid capacity clear t j v)
  ]

  -- The generation of a slot counts its uses.
  pub generation-run :
      (cs : List Call) (t : Table P) (i : ℕ)
      → 0 < capacity
      → 0 < i
      → IsValid t
      → 0 < (t i).generation
      → (run t cs i).generation ≡ generation_after (total_uses i t cs) (t i).generation
  unfolding run total_uses generation_after
  generation-run [] t i p q v h = refl
  generation-run (c ∷ cs) t i p q v h = elim (step-Moves t c i p q h) [
    | inl (n, g, d) ↦
        let none_more : total_uses i (step t c) cs ≡ uses i t c + total_uses i (step t c) cs =
          omega (arith, n) in
        generation-run cs (step t c) i p q (step-IsValid t c p v) (rw g h)
        ∙ ap (generation_after (total_uses i (step t c) cs)) g
        ∙ ap (λ m. generation_after m (t i).generation) none_more
    | inr (n, g) ↦
        let one_more : suc (total_uses i (step t c) cs) ≡ uses i t c + total_uses i (step t c) cs =
          omega (arith, n) in
        generation-run cs (step t c) i p q (step-IsValid t c p v)
          (rw g (next_generation_range (t i).generation (v.small i)).0)
        ∙ ap (generation_after (total_uses i (step t c) cs)) g
        ∙ ap (λ m. generation_after m (t i).generation) one_more
  ]

  -- A slot that is dead stays dead until it is used again.
  dead-run :
      (cs : List Call) (t : Table P) (i : ℕ)
      → 0 < capacity
      → 0 < i
      → IsValid t
      → 0 < (t i).generation
      → (t i).alive ≡ false
      → total_uses i t cs ≡ 0
      → (run t cs i).alive ≡ false
  unfolding run total_uses
  dead-run [] t i p q v h dead none_used = dead
  dead-run (c ∷ cs) t i p q v h dead none_used = elim (step-Moves t c i p q h) [
    | inl (n, g, d) ↦
        dead-run cs (step t c) i p q (step-IsValid t c p v) (rw g h) (d dead) (omega arith)
    | inr (n, g) ↦ absurd (omega arith)
  ]

  generation-release_slot :
      (t : Table P) (i : ℕ) → (release_slot clear t i i).generation ≡ (t i).generation
  unfolding release_slot
  generation-release_slot t i = ground arith

  revival :
      (t : Table P) (token i j : ℕ) (cs : List Call)
      → 0 < capacity
      → IsValid t
      → from_token capacity t token ≡ some i
      → let u = release_slot clear t i in
        from_token capacity (run u cs) token ≡ some j
        → (0 < total_uses i u cs) × (total_uses i u cs % 65535 ≡ 0)
  revival t token i j cs p v names again =
      let u = release_slot clear t i in
      let n = from_token-Names capacity t token i names in
      let m = from_token-Names capacity (run u cs) token j again in
      let same : j ≡ i = sym m.0 ∙ n.0 in
      let w : IsValid u = release_slot-IsValid capacity clear t i v in
      let kept : (u i).generation ≡ (t i).generation = generation-release_slot t i in
      let positive : 0 < (u i).generation = rw kept (v.used i n.3) in
      let live : (run u cs i).alive ≡ true = ap (λ k. (run u cs k).alive) (sym same) ∙ m.3 in
      let back : generation_after (total_uses i u cs) (u i).generation ≡ (u i).generation =
        sym (generation-run cs u i p n.1 w positive)
        ∙ ap (λ k. (run u cs k).generation) (sym same)
        ∙ m.4
        ∙ sym n.4
        ∙ sym kept in
      (
        used_once (total_uses i u cs) (λ z. false≢true (
            sym (dead-run cs u i p n.1 w positive (release_slot_self capacity clear t i) z)
            ∙ live)),
        (generation_after_eq_iff (total_uses i u cs) (u i).generation positive (w.small i)).0 back,
      )
    where
      used_once : (n : ℕ) → n ≢ 0 → 0 < n
      used_once n h = omega arith

  -- After the slot of a token of a valid table is released, no history in which the slot is handed
  -- out fewer than 65535 times makes the token name anything again; and if it does name something,
  -- the number of uses since is a nonzero multiple of 65535.
  pub stale_after_release :
      (t : Table P) (token i : ℕ) (cs : List Call)
      → 0 < capacity
      → IsValid t
      → from_token capacity t token ≡ some i
      → let u = release_slot clear t i in
        (total_uses i u cs < 65535 → from_token capacity (run u cs) token ≡ none)
        × ((j : ℕ)
            → from_token capacity (run u cs) token ≡ some j
            → (0 < total_uses i u cs) × (total_uses i u cs % 65535 ≡ 0))
  stale_after_release t token i cs p v names = (
    λ few. elim (Option-cases (from_token capacity (run (release_slot clear t i) cs) token)) [
      | inl e ↦ e
      | inr (j, e) ↦ let r = revival t token i j cs p v names e in absurd (omega arith)
    ],
    λ j e. revival t token i j cs p v names e,
  )
