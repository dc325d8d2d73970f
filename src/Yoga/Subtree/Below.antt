-- ===== src/Yoga/Subtree/Below.antt =====
-- The nodes of yoga_stubs.c below handles that wait, and what the release of one node does to them.
use native.Mathlib.Decide.{ℕ_discrete}
use opentui_ocaml.Prelude.{
  ℕ, ◌-◌, ◌<◌, ◌≡◌, sym, ap, ◌∙◌, ◌≢◌, inl, inr, true, some, List, [], ◌∷◌, arith, subst,
}
use opentui_ocaml.Token.{make_token, token_index}
use opentui_ocaml.Token.Laws.{token_index-make_token}
use opentui_ocaml.Slots.Laws.{from_token-Names}
use opentui_ocaml.Yoga.{Nodes, yoga_node_capacity, yoga_node_from_handle}
use opentui_ocaml.Yoga.Subtree.{handle_of}
use opentui_ocaml.Yoga.Subtree.Children.{In, push_children-In, In-push_children}
use opentui_ocaml.Yoga.Subtree.Walk.{
  Walk, released_ne, names_still, names_back, handle_of-names, handle_of-named,
}
use opentui_ocaml.Yoga.Subtree.Round.{w, after, pushed, child_pushed, same_handle}

-- Following parent handles from the node of a slot meets a node whose handle is in the list.
pub data Below (t : Nodes) (pending : List ℕ) : ℕ → Type 0 where
  waits : {i : ℕ} → In (handle_of t i) pending → Below t pending i
  descends :
      {i : ℕ} (j : ℕ)
      → yoga_node_from_handle t (t i).payload.parent_handle ≡ some j
      → Below t pending j
      → Below t pending i

pub nothing-Below : (t : Nodes) (i : ℕ) → Below t [] i → ⊥
nothing-Below t i (waits nowhere) = nowhere
nothing-Below t i (descends j names b) = nothing-Below t j b

module _ (t : Nodes) (h : ℕ) (rest : List ℕ) (walk : Walk t (h ∷ rest)) where
  abbrev slot : ℕ
  slot = (w t h rest walk).slot

  abbrev next : Nodes
  next = after t h rest walk

  abbrev waiting : List ℕ
  waiting = pushed t h rest walk

  handle_same : (i : ℕ) → slot ≢ i → handle_of next i ≡ handle_of t i
  handle_same i ne = ap (λ x. make_token i x.generation) (released_ne t h (w t h rest walk) i ne)

  parent_same : (i : ℕ) → slot ≢ i → (next i).payload.parent_handle ≡ (t i).payload.parent_handle
  parent_same i ne = ap (λ x. x.payload.parent_handle) (released_ne t h (w t h rest walk) i ne)

  -- The handle of the node that is released.
  handle_of_slot : handle_of t slot ≡ h
  handle_of_slot =
      handle_of-named t h slot walk.forest.valid (w t h rest walk).word (w t h rest walk).names

  -- Another node below the handles that wait is below those that wait afterwards.
  pub Below-after :
      (i : ℕ)
      → slot ≢ i
      → 0 < i
      → i < yoga_node_capacity
      → (t i).alive ≡ true
      → Below t (h ∷ rest) i
      → Below next waiting i
  unfolding yoga_node_from_handle
  Below-after i ne p q live (waits (inl here)) =
      let n = (handle_of-names t i walk.forest.valid p q live).0 in
      let mine : yoga_node_from_handle t h ≡ some i = ap (yoga_node_from_handle t) (sym here) ∙ n in
      absurd (ne (ground (arith, sym (w t h rest walk).names ∙ mine)))
  Below-after i ne p q live (waits (inr later)) = waits (
      subst (λ e. In e waiting) (sym (handle_same i ne))
        (In-push_children (yoga_node_capacity - 1) 1 t h rest (handle_of t i) (inl later)))
  Below-after i ne p q live (descends j names b) = elim (ℕ_discrete slot j) [
    | yes here ↦ waits (
        subst (λ e. In e waiting) (sym (handle_same i ne))
          (child_pushed t h rest walk i p q live (same_handle t h rest walk i j here names)))
    | no other ↦
        let n = from_token-Names yoga_node_capacity t (t i).payload.parent_handle j names in
        descends j
          (ap (yoga_node_from_handle next) (parent_same i ne)
            ∙ names_still t h (w t h rest walk) (t i).payload.parent_handle j other names)
          (Below-after j other n.1 n.2 n.3 b)
  ]

  -- And a node below those that wait afterwards was below those that waited.
  pub Below-before :
      (i : ℕ) → slot ≢ i → i < yoga_node_capacity → Below next waiting i → Below t (h ∷ rest) i
  unfolding yoga_node_from_handle
  Below-before i ne q (waits found_there) =
      elim (push_children-In (yoga_node_capacity - 1) 1 t h rest (handle_of t i)
        (subst (λ e. In e waiting) (handle_same i ne) found_there)) [
          | inl old ↦ waits (inr old)
          | inr c ↦
              let v = walk.forest.valid in
              let here = token_index-make_token i (t i).generation (omega arith) (v.small i) in
              let there =
                token_index-make_token c.slot (t c.slot).generation (omega (arith, c.below))
                  (v.small c.slot) in
              let same : c.slot ≡ i = sym there ∙ ap token_index (sym c.handle) ∙ here in
              let child : (t c.slot).payload.parent_handle ≡ h = ground (arith, c.child) in
              descends slot
                (ap (λ k. yoga_node_from_handle t (t k).payload.parent_handle) (sym same)
                  ∙ ap (yoga_node_from_handle t) child
                  ∙ (w t h rest walk).names)
                (waits (inl handle_of_slot))
        ]
  Below-before i ne q (descends j names b) =
      let back =
        names_back t h (w t h rest walk) (t i).payload.parent_handle j
          (ap (yoga_node_from_handle next) (sym (parent_same i ne)) ∙ names) in
      let n = from_token-Names yoga_node_capacity t (t i).payload.parent_handle j back.1 in
      descends j back.1 (Below-before j back.0 n.2 b)

  pub slot-Below : Below t (h ∷ rest) slot
  slot-Below = waits (inl handle_of_slot)
