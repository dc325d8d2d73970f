-- ===== src/Yoga/Agree/Owner.antt =====
-- What a change of the node table does to the owners of its nodes.
use opentui_ocaml.Prelude.{ℕ, ◌≡◌, refl, sym, ap, ◌∙◌, inl, inr, some, [], Option-cases}
use opentui_ocaml.Slots.Laws.{from_token-Names, from_token-eq-some}
use opentui_ocaml.Yoga.{Nodes, yoga_node_capacity, yoga_node_from_handle}
use opentui_ocaml.Yoga.Forest.{zero_names_none}
use opentui_ocaml.Yoga.Subtree.Walk.{Linked}
use opentui_ocaml.Yoga.Agree.{owner, node_of, Live}

-- A handle names live slots only.
pub named-Live : (t : Nodes) (h i : ℕ) → yoga_node_from_handle t h ≡ some i → Live t i
unfolding yoga_node_from_handle
named-Live t h i names = let n = from_token-Names yoga_node_capacity t h i names in (n.1, n.2, n.3)

pub node_of_named :
    (t : Nodes) (h j : ℕ) → yoga_node_from_handle t h ≡ some j → node_of t h ≡ (t j).payload.node
node_of_named t h j names = rw names refl

pub node_of_zero : (t : Nodes) → node_of t 0 ≡ 0
node_of_zero t = rw (zero_names_none t) refl

-- A live slot of `u` is one of `t`, but for the flags of its node.
abbrev pub Shrinks : Nodes → Nodes → Type 0
Shrinks t u =
    (i : ℕ)
    → Live u i
    → Live t i
      × ((u i).generation ≡ (t i).generation)
      × ((u i).payload.node ≡ (t i).payload.node)
      × ((u i).payload.parent_handle ≡ (t i).payload.parent_handle)

-- A slot that is left as it was.
pub same_slot :
    (t u : Nodes) (i : ℕ)
    → u i ≡ t i
    → Live u i
    → Live t i
      × ((u i).generation ≡ (t i).generation)
      × ((u i).payload.node ≡ (t i).payload.node)
      × ((u i).payload.parent_handle ≡ (t i).payload.parent_handle)
same_slot t u i same live = (
  (live.0, live.1, ap (λ x. x.alive) (sym same) ∙ live.2),
  ap (λ x. x.generation) same,
  ap (λ x. x.payload.node) same,
  ap (λ x. x.payload.parent_handle) same,
)

pub Shrinks-names :
    (t u : Nodes) (h i : ℕ)
    → Shrinks t u
    → yoga_node_from_handle u h ≡ some i
    → yoga_node_from_handle t h ≡ some i
unfolding yoga_node_from_handle
Shrinks-names t u h i shrinks names =
    let n = from_token-Names yoga_node_capacity u h i names in
    let same = shrinks i (n.1, n.2, n.3) in
    from_token-eq-some yoga_node_capacity t h i (n.0, n.1, n.2, same.0.2, sym same.1 ∙ n.4)

-- Where every parent handle still names a node, owners are what they were.
pub owner-Shrinks :
    (t u : Nodes) (i : ℕ) → Shrinks t u → Linked u [] → Live u i → owner u i ≡ owner t i
owner-Shrinks t u i shrinks linked live =
    let same = shrinks i live in
    elim (linked i live.0 live.1 live.2) [
      | inl root ↦
          ap (node_of u) root
          ∙ node_of_zero u
          ∙ sym (ap (node_of t) (sym same.3 ∙ root) ∙ node_of_zero t)
      | inr (inl parent) ↦
          elim (Option-cases (yoga_node_from_handle u (u i).payload.parent_handle)) [
            | inl stale ↦ absurd (parent stale)
            | inr (j, names) ↦
                let was = Shrinks-names t u (u i).payload.parent_handle j shrinks names in
                node_of_named u (u i).payload.parent_handle j names
                ∙ (shrinks j (named-Live u (u i).payload.parent_handle j names)).2
                ∙ sym (node_of_named t (u i).payload.parent_handle j was)
                ∙ ap (node_of t) same.3
          ]
      | inr (inr nowhere) ↦ absurd nowhere
    ]
