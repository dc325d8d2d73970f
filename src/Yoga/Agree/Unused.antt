-- ===== src/Yoga/Agree/Unused.antt =====
-- The node table of yoga_stubs.c while a slot that is free gets another content.
use mathlib.Core.Bool.{false≢true}
use opentui_ocaml.Prelude.{
  ℕ, ◌≡◌, ◌≢◌, ◌⊎◌, sym, ap, ◌∙◌, inl, inr, false, none, some, [], arith, Option-cases,
}
use opentui_ocaml.Slots.{Allocation}
use opentui_ocaml.Slots.Laws.{from_token-same_slot, allocate_cases, slot-taken, slot-taken_ne}
use opentui_ocaml.Yoga.{
  NodeFields, Nodes, no_node, yoga_node_capacity, yoga_allocate_node, yoga_node_from_handle,
}
use opentui_ocaml.Yoga.Subtree.Walk.{Linked}
use opentui_ocaml.Yoga.Agree.{Live, node_of, owner}
use opentui_ocaml.Yoga.Agree.Owner.{named-Live, node_of_named, node_of_zero}

-- A table that differs from `t` in a slot that is dead there.
module _ (t u : Nodes) (k : ℕ) (free : (t k).alive ≡ false) (same : (i : ℕ) → k ≢ i → u i ≡ t i)
    (linked : Linked t []) where
  pub taken_apart : (i : ℕ) → Live t i → k ≢ i
  taken_apart i live here = false≢true (sym free ∙ ap (λ j. (t j).alive) here ∙ live.2)

  pub was_there : (i : ℕ) → k ≢ i → Live u i → Live t i
  was_there i ne live = (live.0, live.1, ap (λ x. x.alive) (sym (same i ne)) ∙ live.2)

  parent_before : (i : ℕ) → k ≢ i → (u i).payload.parent_handle ≡ (t i).payload.parent_handle
  parent_before i ne = ap (λ x. x.payload.parent_handle) (same i ne)

  pub node_before : (i : ℕ) → k ≢ i → (u i).payload.node ≡ (t i).payload.node
  node_before i ne = ap (λ x. x.payload.node) (same i ne)

  names_still :
      (h j : ℕ) → k ≢ j → yoga_node_from_handle t h ≡ some j → yoga_node_from_handle u h ≡ some j
  unfolding yoga_node_from_handle
  names_still h j ne names = from_token-same_slot yoga_node_capacity t u h j (same j ne) names

  names_after : (h j : ℕ) → yoga_node_from_handle t h ≡ some j → yoga_node_from_handle u h ≡ some j
  names_after h j names = names_still h j (taken_apart j (named-Live t h j names)) names

  -- A slot that was live has no parent, or one that is live before and after.
  parent_cases :
      (i : ℕ)
      → Live t i
      → ((t i).payload.parent_handle ≡ 0)
        ⊎ ((j : ℕ) × (yoga_node_from_handle t (t i).payload.parent_handle ≡ some j)
            × (yoga_node_from_handle u (t i).payload.parent_handle ≡ some j))
  parent_cases i live = elim (linked i live.0 live.1 live.2) [
    | inl root ↦ inl root
    | inr (inl named) ↦ elim (Option-cases (yoga_node_from_handle t (t i).payload.parent_handle)) [
      | inl stale ↦ absurd (named stale)
      | inr (j, names) ↦ inr (j, names, names_after (t i).payload.parent_handle j names)
    ]
    | inr (inr nowhere) ↦ absurd nowhere
  ]

  pub linked_after :
      (i : ℕ)
      → k ≢ i
      → Live u i
      → ((u i).payload.parent_handle ≡ 0)
        ⊎ (yoga_node_from_handle u (u i).payload.parent_handle ≢ none)
  linked_after i ne live = elim (parent_cases i (was_there i ne live)) [
    | inl root ↦ inl (parent_before i ne ∙ root)
    | inr (j, _, names) ↦
        inr (λ stale.
          let there = ap (yoga_node_from_handle u) (sym (parent_before i ne)) ∙ stale in cc)
  ]

  pub owner_after : (i : ℕ) → Live t i → owner u i ≡ owner t i
  owner_after i live =
      let same_parent = parent_before i (taken_apart i live) in
      ap (node_of u) same_parent ∙ elim (parent_cases i live) [
        | inl root ↦
            ap (node_of u) root ∙ node_of_zero u ∙ sym (ap (node_of t) root ∙ node_of_zero t)
        | inr (j, before, after) ↦
            node_of_named u (t i).payload.parent_handle j after
            ∙ node_before j (taken_apart j (named-Live t (t i).payload.parent_handle j before))
            ∙ sym (node_of_named t (t i).payload.parent_handle j before)
      ]

-- A slot that an allocation does not hand out stays as it is.
pub allocated_elsewhere :
    (t : Nodes) (i : ℕ) → (yoga_allocate_node t).index ≢ i → (yoga_allocate_node t).table i ≡ t i
unfolding yoga_allocate_node
allocated_elsewhere t i ne =
    elim (allocate_cases yoga_node_capacity (λ _. no_node) t (omega arith)) [
      | inl (all, e) ↦ ap (λ (a : Allocation NodeFields). a.table i) e
      | inr (k, p, q, free, e) ↦
          let index : (yoga_allocate_node t).index ≡ k =
            ap (λ (a : Allocation NodeFields). a.index) e ∙ (slot-taken (λ _. no_node) t k).1 in
          ap (λ (a : Allocation NodeFields). a.table i) e
          ∙ slot-taken_ne (λ _. no_node) t k i (λ same. ne (index ∙ same))
    ]
