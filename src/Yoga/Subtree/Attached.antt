-- ===== src/Yoga/Subtree/Attached.antt =====
-- What `yoga_subtree_has_native_renderable` answers: whether a node below the root is attached.
use native.Mathlib.Decide.{ℕ_discrete}
use mathlib.Core.Bool.{false≢true}
use opentui_ocaml.Prelude.{
  ℕ, zero, suc, ◌-◌, ◌<◌, ◌≡◌, sym, ap, ◌∙◌, ◌≢◌, inl, inr, true, false, some, List, [], ◌∷◌,
  Bool-cases, Option-cases,
}
use opentui_ocaml.Yoga.{Nodes, yoga_node_capacity}
use opentui_ocaml.Yoga.Subtree.{push_children_bounded, renderable_loop}
use opentui_ocaml.Yoga.Subtree.Walk.{Walk, released_self, released_ne}
use opentui_ocaml.Yoga.Subtree.Round.{w, after, pushed, Walk-after}
use opentui_ocaml.Yoga.Subtree.Renderable.{
  Shadows, Shadows-after, names_top, top, same_child, same_handle,
  push_children_bounded-push_children, renderable_attached, renderable_full, renderable_next,
}
use opentui_ocaml.Yoga.Subtree.Room.{waiting-lt, push_children_bounded_fits}
use opentui_ocaml.Yoga.Subtree.Below.{Below, nothing-Below, Below-after, Below-before, slot-Below}
use opentui_ocaml.Yoga.Subtree.Exact.{slot_facts}

-- A walk whose answer is false has met no node with a native renderable.
pub renderable_loop-false :
    (rounds : ℕ) (t s : Nodes) (pending : List ℕ)
    → Shadows t s
    → Walk s pending
    → renderable_loop rounds t pending ≡ some false
    → (i : ℕ) → 0 < i
    → i < yoga_node_capacity
    → (s i).alive ≡ true
    → Below s pending i
    → (t i).payload.native_renderable_attached ≡ false
unfolding renderable_loop top
renderable_loop-false rounds t s [] shadows walk e i p q live b = absurd (nothing-Below s i b)
renderable_loop-false zero t s (h ∷ rest) shadows walk e i p q live b = cc
renderable_loop-false (suc rounds) t s (h ∷ rest) shadows walk e i p q live b =
    let node = (top t s shadows h rest walk).slot in
    let names = names_top t s shadows h rest walk in
    elim (Bool-cases (t node).payload.native_renderable_attached) [
      | inl attached ↦ let stop = renderable_attached rounds t h rest node names attached in cc
      | inr free ↦ elim (Option-cases (push_children_bounded (yoga_node_capacity - 1) 1 t h rest)) [
        | inl full ↦ let stop = renderable_full rounds t h rest node names free full in cc
        | inr (found_there, pe) ↦ elim (ℕ_discrete node i) [
          | yes here ↦ ap (λ k. (t k).payload.native_renderable_attached) (sym here) ∙ free
          | no other ↦
              let same =
                push_children_bounded-push_children (yoga_node_capacity - 1) 1 t s h rest
                  found_there (same_child t s shadows h rest walk)
                  (same_handle t s shadows h rest walk) pe in
              renderable_loop-false rounds t (after s h rest walk) (pushed s h rest walk)
                (Shadows-after t s shadows h rest walk) (Walk-after s h rest walk)
                (ap (renderable_loop rounds t) same
                  ∙ sym (renderable_next rounds t h rest node names found_there free pe)
                  ∙ e)
                i p q (ap (λ x. x.alive) (released_ne s h (w s h rest walk) i other) ∙ live)
                (Below-after s h rest walk i other p q live b)
        ]
      ]
    ]

-- A live node with a native renderable below the handles that wait.
pub record Attached (t s : Nodes) (pending : List ℕ) : Type 0 where
  pub node : ℕ
  pub from : 0 < node
  pub to : node < yoga_node_capacity
  pub alive : (s node).alive ≡ true
  pub below : Below s pending node
  pub attached : (t node).payload.native_renderable_attached ≡ true

Attached-before :
    (t s : Nodes) (h : ℕ) (rest : List ℕ) (walk : Walk s (h ∷ rest))
    → Attached t (after s h rest walk) (pushed s h rest walk)
    → Attached t s (h ∷ rest)
Attached-before t s h rest walk a =
    let other : (w s h rest walk).slot ≢ a.node = λ same. false≢true (
      sym (released_self s h (w s h rest walk))
      ∙ ap (λ k. (after s h rest walk k).alive) same
      ∙ a.alive) in
    record {
      node = a.node;
      from = a.from;
      to = a.to;
      alive = ap (λ x. x.alive) (sym (released_ne s h (w s h rest walk) a.node other)) ∙ a.alive;
      below = Below-before s h rest walk a.node other a.to a.below;
      attached = a.attached;
    }

-- A walk whose answer is true has met a node with a native renderable.
pub renderable_loop-true :
    (rounds : ℕ) (t s : Nodes) (pending : List ℕ)
    → Shadows t s
    → Walk s pending
    → renderable_loop rounds t pending ≡ some true
    → Attached t s pending
unfolding renderable_loop top
renderable_loop-true rounds t s [] shadows walk e = cc
renderable_loop-true zero t s (h ∷ rest) shadows walk e = cc
renderable_loop-true (suc rounds) t s (h ∷ rest) shadows walk e =
    let node = (top t s shadows h rest walk).slot in
    let names = names_top t s shadows h rest walk in
    let facts = slot_facts s h rest walk in
    elim (Bool-cases (t node).payload.native_renderable_attached) [
      | inl attached ↦ record {
        node = node;
        from = facts.0;
        to = facts.1;
        alive = facts.2;
        below = slot-Below s h rest walk;
        attached = attached;
      }
      | inr free ↦ elim (Option-cases (push_children_bounded (yoga_node_capacity - 1) 1 t h rest)) [
        | inl full ↦ absurd (
            push_children_bounded_fits (yoga_node_capacity - 1) 1 t s h rest
              (same_child t s shadows h rest walk) (same_handle t s shadows h rest walk)
              (waiting-lt (after s h rest walk) (pushed s h rest walk) (Walk-after s h rest walk))
              full)
        | inr (found_there, pe) ↦
            let same =
              push_children_bounded-push_children (yoga_node_capacity - 1) 1 t s h rest found_there
                (same_child t s shadows h rest walk) (same_handle t s shadows h rest walk) pe in
            Attached-before t s h rest walk (
              renderable_loop-true rounds t (after s h rest walk) (pushed s h rest walk)
                (Shadows-after t s shadows h rest walk) (Walk-after s h rest walk)
                (ap (renderable_loop rounds t) same
                  ∙ sym (renderable_next rounds t h rest node names found_there free pe)
                  ∙ e))
      ]
    ]
