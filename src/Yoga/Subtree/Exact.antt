-- ===== src/Yoga/Subtree/Exact.antt =====
-- What `yoga_release_subtree_slots` releases: the nodes below the root.
use native.Mathlib.Decide.{ℕ_discrete}
use mathlib.Core.Bool.{false≢true}
use opentui_ocaml.Prelude.{
  ℕ, zero, suc, ◌<◌, ◌≡◌, sym, ap, ◌∙◌, true, false, some, List, [], ◌∷◌, subst, some-injective,
}
use opentui_ocaml.Slots.Laws.{from_token-Names}
use opentui_ocaml.Yoga.{Nodes, yoga_node_capacity, yoga_node_from_handle}
use opentui_ocaml.Yoga.Subtree.{release_loop}
use opentui_ocaml.Yoga.Subtree.Walk.{Walk, u, released_self, released_ne}
use opentui_ocaml.Yoga.Subtree.Round.{w, after, pushed, Walk-after}
use opentui_ocaml.Yoga.Subtree.Below.{Below, nothing-Below, Below-after, Below-before, slot-Below}

-- The slots of `after` are those of `before` without the live nodes below the handles that waited.
pub record Cut (before : Nodes) (pending : List ℕ) (after : Nodes) : Type 0 where
  pub released :
      (i : ℕ)
      → 0 < i
      → i < yoga_node_capacity
      → (before i).alive ≡ true
      → Below before pending i
      → (after i).alive ≡ false
  pub kept :
      (i : ℕ)
      → i < yoga_node_capacity
      → ((before i).alive ≡ true → Below before pending i → ⊥)
      → after i ≡ before i

pub slot_facts :
    (t : Nodes) (h : ℕ) (rest : List ℕ) (walk : Walk t (h ∷ rest))
    → let slot = (w t h rest walk).slot in
      (0 < slot) × (slot < yoga_node_capacity) × ((t slot).alive ≡ true)
unfolding yoga_node_from_handle
slot_facts t h rest walk =
    let n =
      from_token-Names yoga_node_capacity t h (w t h rest walk).slot (w t h rest walk).names in
    (n.1, n.2, n.3)

-- What a round adds to what the rest of the walk cuts.
Cut-before :
    (t : Nodes) (h : ℕ) (rest : List ℕ) (walk : Walk t (h ∷ rest)) (v : Nodes)
    → Cut (after t h rest walk) (pushed t h rest walk) v
    → Cut t (h ∷ rest) v
Cut-before t h rest walk v cut = record {
  released = λ i p q live b. elim (ℕ_discrete (w t h rest walk).slot i) [
    | yes here ↦ ap (λ k. (v k).alive) (sym here) ∙ gone
    | no other ↦
        cut.released i p q (ap (λ x. x.alive) (released_ne t h (w t h rest walk) i other) ∙ live)
          (Below-after t h rest walk i other p q live b)
  ];
  kept = λ i q apart. elim (ℕ_discrete (w t h rest walk).slot i) [
    | yes here ↦ absurd (
        apart (ap (λ k. (t k).alive) (sym here) ∙ slot_live)
          (subst (Below t (h ∷ rest)) here (slot-Below t h rest walk)))
    | no other ↦
        let same = released_ne t h (w t h rest walk) i other in
        cut.kept i q (λ live b.
          apart (ap (λ x. x.alive) (sym same) ∙ live) (Below-before t h rest walk i other q b))
        ∙ same
  ];
}
  where
    slot_live : (t (w t h rest walk).slot).alive ≡ true
    slot_live = (slot_facts t h rest walk).2

    gone : (v (w t h rest walk).slot).alive ≡ false
    gone =
        let dead_now = released_self t h (w t h rest walk) in
        ap (λ x. x.alive)
          (cut.kept (w t h rest walk).slot (slot_facts t h rest walk).1
            (λ live b. false≢true (sym dead_now ∙ live)))
        ∙ dead_now

pub release_loop-Cut :
    (rounds : ℕ) (t v : Nodes) (pending : List ℕ)
    → Walk t pending
    → release_loop rounds t pending ≡ some v
    → Cut t pending v
unfolding release_loop u
release_loop-Cut rounds t v [] walk e =
    let same : t ≡ v = some-injective e in
    record {
      released = λ i p q live b. absurd (nothing-Below t i b);
      kept = λ i q apart. ap (λ (x : Nodes). x i) (sym same);
    }
release_loop-Cut zero t v (h ∷ rest) walk e = cc
release_loop-Cut (suc rounds) t v (h ∷ rest) walk e = Cut-before t h rest walk v (
    release_loop-Cut rounds (after t h rest walk) v (pushed t h rest walk)
      (Walk-after t h rest walk) e)
