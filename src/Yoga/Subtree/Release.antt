-- ===== src/Yoga/Subtree/Release.antt =====
-- The loop of `yoga_release_subtree_slots`.
use opentui_ocaml.Prelude.{
  ℕ, zero, suc, ◌-◌, ◌<◌, ◌≡◌, refl, ap, ◌∙◌, inl, inr, none, some, List, [], ◌∷◌, arith,
}
use opentui_ocaml.Yoga.{Nodes, yoga_node_capacity, yoga_node_from_handle, yoga_release_node}
use opentui_ocaml.Yoga.Forest.{IsForest}
use opentui_ocaml.Yoga.Count.{count}
use opentui_ocaml.Yoga.Subtree.{push_children, release_loop}
use opentui_ocaml.Yoga.Subtree.Children.{In, In-push_children}
use opentui_ocaml.Yoga.Subtree.Walk.{Linked, Walk, dead, u, none_still, none_now}
use opentui_ocaml.Yoga.Subtree.Round.{Linked-after, Walk-after, fewer_live}

-- What a walk leaves: a forest, in which every parent is live if it was or waited before, and in
-- which no handle that named nothing or waited names anything.
abbrev pub Released : Nodes → List ℕ → Nodes → Type 0
Released t pending u =
    IsForest u
    × (Linked t pending → Linked u [])
    × ((e : ℕ) → yoga_node_from_handle t e ≡ none → yoga_node_from_handle u e ≡ none)
    × ((e : ℕ) → In e pending → yoga_node_from_handle u e ≡ none)

pub release_loop-Released :
    (rounds : ℕ) (t : Nodes) (pending : List ℕ)
    → Walk t pending
    → count yoga_node_capacity (dead t) < rounds
    → (u : Nodes) × (release_loop rounds t pending ≡ some u) × Released t pending u
unfolding release_loop u
release_loop-Released rounds t [] walk few =
    (t, refl, (walk.forest, (λ linked. linked), (λ e gone. gone), λ e i. absurd i))
release_loop-Released zero t (h ∷ rest) walk few = absurd (omega arith)
release_loop-Released (suc rounds) t (h ∷ rest) walk few =
    let w = walk.waits h (inl refl) in
    let next =
      release_loop-Released rounds (yoga_release_node t h)
        (push_children (yoga_node_capacity - 1) 1 t h rest) (Walk-after t h rest walk)
        (omega (arith, fewer_live t h rest walk)) in
    (
      next.0,
      next.1,
      (
        next.2.0,
        (λ linked. next.2.1 (Linked-after t h rest walk linked)),
        (λ e gone. next.2.2 e (none_still t h w e gone)),
        λ e i. elim i [
          | inl here ↦
              next.2.2 e (ap (yoga_node_from_handle (yoga_release_node t h)) here ∙ none_now t h w)
          | inr old ↦ next.2.3 e (In-push_children (yoga_node_capacity - 1) 1 t h rest e (inl old))
        ],
      ),
    )
