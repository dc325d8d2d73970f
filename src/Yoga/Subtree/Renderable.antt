-- ===== src/Yoga/Subtree/Renderable.antt =====
-- The walk of `yoga_subtree_has_native_renderable` beside the walk that releases the same nodes.
use native.Mathlib.Decide.{ℕ_discrete}
use mathlib.Core.Bool.{false≢true}
use opentui_ocaml.Prelude.{
  ℕ, zero, suc, ◌+◌, ◌-◌, ◌<◌, ◌≡◌, refl, sym, ap, ◌∙◌, ◌≢◌, ◌⊎◌, inl, inr, true, false, ◌&&◌, none,
  some, List, [], ◌∷◌, arith, ◌==◌, length, Bool-cases, Option-cases, subst,
}
use opentui_ocaml.Token.{make_token}
use opentui_ocaml.Slots.Laws.{from_token-Names, from_token-same_slot}
use opentui_ocaml.Yoga.{Nodes, yoga_node_capacity, yoga_node_from_handle}
use opentui_ocaml.Yoga.Count.{count}
use opentui_ocaml.Yoga.Subtree.{
  is_child, handle_of, push_children, push_children_bounded, renderable_loop,
}
use opentui_ocaml.Yoga.Subtree.Walk.{Waits, Walk, dead, u, released_self, released_ne, none_still}
use opentui_ocaml.Yoga.Subtree.Round.{Walk-after, fewer_live}

-- `s` is the table `t` after the nodes that the walk has passed are released: the parents of these
-- name nothing any more.
abbrev pub Shadows : Nodes → Nodes → Type 0
Shadows t s =
    (i : ℕ)
    → (s i ≡ t i)
      ⊎ (((s i).alive ≡ false) × (yoga_node_from_handle s (t i).payload.parent_handle ≡ none))

pub bounded_skip :
    (rounds index : ℕ) (t : Nodes) (h : ℕ) (pending : List ℕ)
    → is_child t h index ≡ false
    → push_children_bounded (suc rounds) index t h pending
      ≡ push_children_bounded rounds (index + 1) t h pending
unfolding push_children_bounded
bounded_skip rounds index t h pending no_child = rw (no_child, push_children_bounded) refl

pub bounded_push :
    (rounds index : ℕ) (t : Nodes) (h : ℕ) (pending : List ℕ)
    → is_child t h index ≡ true
    → (length pending == yoga_node_capacity) ≡ false
    → push_children_bounded (suc rounds) index t h pending
      ≡ push_children_bounded rounds (index + 1) t h (handle_of t index ∷ pending)
unfolding push_children_bounded
bounded_push rounds index t h pending child room =
    rw (child, push_children_bounded) (rw (room, push_children_bounded) refl)

bounded_full :
    (rounds index : ℕ) (t : Nodes) (h : ℕ) (pending : List ℕ)
    → is_child t h index ≡ true
    → (length pending == yoga_node_capacity) ≡ true
    → push_children_bounded (suc rounds) index t h pending ≡ none
unfolding push_children_bounded
bounded_full rounds index t h pending child full =
    rw (child, push_children_bounded) (rw (full, push_children_bounded) refl)

pub push_children_bounded-push_children :
    (rounds index : ℕ) (t s : Nodes) (h : ℕ) (pending pushed : List ℕ)
    → ((i : ℕ) → is_child t h i ≡ is_child s h i)
    → ((i : ℕ) → is_child s h i ≡ true → handle_of t i ≡ handle_of s i)
    → push_children_bounded rounds index t h pending ≡ some pushed
    → push_children rounds index s h pending ≡ pushed
unfolding push_children_bounded push_children
push_children_bounded-push_children zero index t s h pending pushed same handles e =
    ground (arith, e)
push_children_bounded-push_children (suc rounds) index t s h pending pushed same handles e =
    elim (Bool-cases (is_child s h index)) [
      | inl child ↦ elim (Bool-cases (length pending == yoga_node_capacity)) [
        | inl full ↦
            let stop = bounded_full rounds index t h pending (same index ∙ child) full in cc
        | inr room ↦ rw child (
            push_children_bounded-push_children rounds (index + 1) t s h
              (handle_of s index ∷ pending) pushed same handles
              (ap (λ x. push_children_bounded rounds (index + 1) t h (x ∷ pending))
                  (sym (handles index child))
                ∙ sym (bounded_push rounds index t h pending (same index ∙ child) room)
                ∙ e))
      ]
      | inr no_child ↦ rw no_child (
          push_children_bounded-push_children rounds (index + 1) t s h pending pushed same handles
            (sym (bounded_skip rounds index t h pending (same index ∙ no_child)) ∙ e))
    ]

module _ (t s : Nodes) (shadows : Shadows t s) (h : ℕ) (rest : List ℕ)
    (walk : Walk s (h ∷ rest)) where
  unfoldable pub top : Waits s h
  top = walk.waits h (inl refl)

  pub same_slot : s top.slot ≡ t top.slot
  unfolding yoga_node_from_handle
  same_slot =
      let live = (from_token-Names yoga_node_capacity s h top.slot top.names).3 in
      elim (shadows top.slot) [
        | inl same ↦ same
        | inr (gone, stale) ↦ absurd (false≢true (sym gone ∙ live))
      ]

  pub names_top : yoga_node_from_handle t h ≡ some top.slot
  unfolding yoga_node_from_handle
  names_top = from_token-same_slot yoga_node_capacity s t h top.slot (sym same_slot) top.names

  -- No node that the walk has passed is a child of a node that waits.
  pub same_child : (i : ℕ) → is_child t h i ≡ is_child s h i
  same_child i = elim (shadows i) [
    | inl same ↦ ap (λ x. x.alive && x.payload.parent_handle == h) (sym same)
    | inr (gone, stale) ↦
        let other : (t i).payload.parent_handle ≢ h = λ e.
          (let live = top.names in
            let none_here : yoga_node_from_handle s h ≡ none =
              ap (yoga_node_from_handle s) (sym e) ∙ stale in
            cc) in
        ground (arith, gone, other)
  ]

  pub same_handle : (i : ℕ) → is_child s h i ≡ true → handle_of t i ≡ handle_of s i
  same_handle i child = elim (shadows i) [
    | inl same ↦ ap (λ x. make_token i x.generation) (sym same)
    | inr (gone, stale) ↦ absurd (ground (arith, gone, child))
  ]

  pub Shadows-after : Shadows t (u s h top)
  Shadows-after i = elim (ℕ_discrete top.slot i) [
    | yes here ↦ inr (
      ap (λ k. (u s h top k).alive) (sym here) ∙ released_self s h top,
      none_still s h top (t i).payload.parent_handle (
          ap (λ k. yoga_node_from_handle s (t k).payload.parent_handle) (sym here)
          ∙ ap (λ x. yoga_node_from_handle s x.payload.parent_handle) (sym same_slot)
          ∙ top.orphan),
    )
    | no other ↦ elim (shadows i) [
      | inl same ↦ inl (released_ne s h top i other ∙ same)
      | inr (gone, stale) ↦ inr (
        ap (λ x. x.alive) (released_ne s h top i other) ∙ gone,
        none_still s h top (t i).payload.parent_handle stale,
      )
    ]
  ]

module _ (rounds : ℕ) (t : Nodes) (h : ℕ) (rest : List ℕ) (node : ℕ)
    (names : yoga_node_from_handle t h ≡ some node) where
  pub renderable_attached :
      (t node).payload.native_renderable_attached ≡ true
      → renderable_loop (suc rounds) t (h ∷ rest) ≡ some true
  unfolding renderable_loop
  renderable_attached attached = rw (names, renderable_loop) (rw (attached, renderable_loop) refl)

  pub renderable_full :
      (t node).payload.native_renderable_attached ≡ false
      → push_children_bounded (yoga_node_capacity - 1) 1 t h rest ≡ none
      → renderable_loop (suc rounds) t (h ∷ rest) ≡ some true
  unfolding renderable_loop
  renderable_full free full =
      rw (names, renderable_loop) (rw (free, renderable_loop) (rw (full, renderable_loop) refl))

  pub renderable_next :
      (pushed : List ℕ)
      → (t node).payload.native_renderable_attached ≡ false
      → push_children_bounded (yoga_node_capacity - 1) 1 t h rest ≡ some pushed
      → renderable_loop (suc rounds) t (h ∷ rest) ≡ renderable_loop rounds t pushed
  unfolding renderable_loop
  renderable_next pushed free e =
      rw (names, renderable_loop) (rw (free, renderable_loop) (rw (e, renderable_loop) refl))

-- The walk ends within as many rounds as there are live nodes, and one more.
pub renderable_loop-ends :
    (rounds : ℕ) (t s : Nodes) (pending : List ℕ)
    → Shadows t s
    → Walk s pending
    → count yoga_node_capacity (dead s) < rounds
    → renderable_loop rounds t pending ≢ none
unfolding renderable_loop top
renderable_loop-ends rounds t s [] shadows walk few e = cc
renderable_loop-ends zero t s (h ∷ rest) shadows walk few e = omega arith
renderable_loop-ends (suc rounds) t s (h ∷ rest) shadows walk few e =
    let names = names_top t s shadows h rest walk in
    let node = (top t s shadows h rest walk).slot in
    elim (Bool-cases (t node).payload.native_renderable_attached) [
      | inl attached ↦ let stop = renderable_attached rounds t h rest node names attached in cc
      | inr free ↦ elim (Option-cases (push_children_bounded (yoga_node_capacity - 1) 1 t h rest)) [
        | inl full ↦ let stop = renderable_full rounds t h rest node names free full in cc
        | inr (pushed, pe) ↦
            let same =
              push_children_bounded-push_children (yoga_node_capacity - 1) 1 t s h rest pushed
                (same_child t s shadows h rest walk) (same_handle t s shadows h rest walk) pe in
            renderable_loop-ends rounds t (u s h (top t s shadows h rest walk)) pushed
              (Shadows-after t s shadows h rest walk)
              (subst (Walk (u s h (top t s shadows h rest walk))) same (Walk-after s h rest walk))
              (omega (arith, fewer_live s h rest walk))
              (sym (renderable_next rounds t h rest node names pushed free pe) ∙ e)
      ]
    ]
