-- ===== src/Yoga/Subtree/Walk.antt =====
-- The state of a walk over a subtree, and what the release of one node does to it.
use mathlib.Core.Bool.{false≢true}
use opentui_ocaml.Prelude.{
  ℕ, ◌^◌, ◌<◌, ◌≡◌, sym, ap, ◌∙◌, ◌≢◌, ◌⊎◌, inl, inr, Bool, true, false, ◌||◌, not, none, some,
  List, arith, ◌==◌, Option-cases,
}
use opentui_ocaml.Token.{token_index}
use opentui_ocaml.Token.Laws.{token_index-make_token, token_generation-make_token, make_token_sum}
use opentui_ocaml.Slots.Laws.{
  IsValid, from_token-Names, from_token-eq-some, from_token-same_slot, from_token-injective,
  release_slot_self, release_slot_ne,
}
use opentui_ocaml.Yoga.{
  Nodes, no_node, yoga_node_capacity, yoga_node_from_handle, yoga_release_node,
}
use opentui_ocaml.Yoga.Forest.{IsForest}
use opentui_ocaml.Yoga.Subtree.{handle_of}
use opentui_ocaml.Yoga.Subtree.Children.{In, Distinct}

-- A handle that waits for its release: it names a node whose parent handle names none.
pub record Waits (t : Nodes) (e : ℕ) : Type 0 where
  pub word : e < 2 ^ 32
  pub slot : ℕ
  pub names : yoga_node_from_handle t e ≡ some slot
  pub orphan : yoga_node_from_handle t (t slot).payload.parent_handle ≡ none

-- Every node of the table has no parent, or a parent that is live, or waits for its release.
abbrev pub Linked : Nodes → List ℕ → Type 0
Linked t pending =
    (i : ℕ)
    → 0 < i
    → i < yoga_node_capacity
    → (t i).alive ≡ true
    → ((t i).payload.parent_handle ≡ 0)
      ⊎ (yoga_node_from_handle t (t i).payload.parent_handle ≢ none)
      ⊎ In (handle_of t i) pending

pub record Walk (t : Nodes) (pending : List ℕ) : Type 0 where
  pub forest : IsForest t
  pub waits : (e : ℕ) → In e pending → Waits t e
  pub distinct : Distinct pending

abbrev pub dead : Nodes → ℕ → Bool
dead t i = i == 0 || not (t i).alive

module _ (t : Nodes) (h : ℕ) (w : Waits t h) where
  unfoldable pub u : Nodes
  u = yoga_release_node t h

  pub released_self : (u w.slot).alive ≡ false
  unfolding u yoga_release_node yoga_node_from_handle
  released_self =
      let n = from_token-Names yoga_node_capacity t h w.slot w.names in
      rw (← n.0) (release_slot_self yoga_node_capacity (λ _. no_node) t (token_index h))

  pub released_ne : (i : ℕ) → w.slot ≢ i → u i ≡ t i
  unfolding u yoga_release_node yoga_node_from_handle
  released_ne i ne =
      let n = from_token-Names yoga_node_capacity t h w.slot w.names in
      release_slot_ne yoga_node_capacity (λ _. no_node) t (token_index h) i (λ e. ne (sym n.0 ∙ e))

  -- A handle of another node still names it; one that names nothing still names nothing.
  pub names_still :
      (e i : ℕ)
      → w.slot ≢ i
      → yoga_node_from_handle t e ≡ some i
      → yoga_node_from_handle u e ≡ some i
  unfolding yoga_node_from_handle
  names_still e i ne live = from_token-same_slot yoga_node_capacity t u e i (released_ne i ne) live

  pub names_back :
      (e i : ℕ)
      → yoga_node_from_handle u e ≡ some i
      → (w.slot ≢ i) × (yoga_node_from_handle t e ≡ some i)
  unfolding yoga_node_from_handle
  names_back e i live =
      let n = from_token-Names yoga_node_capacity u e i live in
      let ne : w.slot ≢ i =
        λ same. false≢true (sym released_self ∙ ap (λ k. (u k).alive) same ∙ n.3) in
      (ne, from_token-same_slot yoga_node_capacity u t e i (sym (released_ne i ne)) live)

  pub none_still : (e : ℕ) → yoga_node_from_handle t e ≡ none → yoga_node_from_handle u e ≡ none
  none_still e stale = elim (Option-cases (yoga_node_from_handle u e)) [
    | inl gone ↦ gone
    | inr (i, live) ↦ let back = (names_back e i live).1 in cc
  ]

  pub none_now : yoga_node_from_handle u h ≡ none
  none_now = elim (Option-cases (yoga_node_from_handle u h)) [
    | inl gone ↦ gone
    | inr (i, live) ↦
        let back = names_back h i live in
        let same : w.slot ≡ i = ground (arith, sym w.names ∙ back.1) in absurd (back.0 same)
  ]

-- The handle of a live node names it.
pub handle_of-names :
    (t : Nodes) (i : ℕ)
    → IsValid t
    → 0 < i
    → i < yoga_node_capacity
    → (t i).alive ≡ true
    → (yoga_node_from_handle t (handle_of t i) ≡ some i) × (handle_of t i < 2 ^ 32)
unfolding yoga_node_from_handle
handle_of-names t i v p q live =
    let g = v.small i in
    (
      from_token-eq-some yoga_node_capacity t (handle_of t i) i (
        token_index-make_token i (t i).generation (omega arith) g,
        p,
        q,
        live,
        sym (token_generation-make_token i (t i).generation (omega arith) g),
      ),
      omega (arith, g, make_token_sum i (t i).generation (omega arith) g),
    )

-- A handle that names a slot is the handle of its node.
pub handle_of-named :
    (t : Nodes) (h i : ℕ)
    → IsValid t
    → h < 2 ^ 32
    → yoga_node_from_handle t h ≡ some i
    → handle_of t i ≡ h
unfolding yoga_node_from_handle
handle_of-named t h i v word names =
    let n = from_token-Names yoga_node_capacity t h i names in
    let m = handle_of-names t i v n.1 n.2 n.3 in
    from_token-injective yoga_node_capacity t (handle_of t i) h i m.1 word m.0 names
