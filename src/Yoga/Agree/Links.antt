-- ===== src/Yoga/Agree/Links.antt =====
-- The bindings of yoga_stubs.c that insert, remove and move children, against the tree of the
-- layout library.
use native.Mathlib.Decide.{ℕ_discrete}
use opentui_ocaml.Prelude.{
  ℕ, ◌≡◌, ◌≢◌, ◌⊎◌, refl, sym, ap, ◌∙◌, inl, inr, none, [], arith, subst, Option-cases,
}
use opentui_ocaml.Yoga.Native.{NativeYoga}
use opentui_ocaml.Yoga.{Nodes, State, yoga_node_from_handle, set_parent}
use opentui_ocaml.Yoga.Forest.{IsForest}
use opentui_ocaml.Yoga.Subtree.Walk.{Linked}
use opentui_ocaml.Yoga.Agree.{Tree, Stays, Agrees, Live, node_of}
use opentui_ocaml.Yoga.Agree.Flags.{write_node-names, write_node-Live}

module _ (t : Nodes) (child p : ℕ) where
  abbrev linked_to : Nodes
  linked_to = set_parent t child p

  pub names_same : (h : ℕ) → yoga_node_from_handle linked_to h ≡ yoga_node_from_handle t h
  names_same h = write_node-names t child _ h

  pub node_same : (i : ℕ) → (linked_to i).payload.node ≡ (t i).payload.node
  node_same i = ground arith

  pub linked_Live : (i : ℕ) → Live linked_to i → Live t i
  linked_Live i live = write_node-Live t child _ i live

  pub parent_there : (linked_to child).payload.parent_handle ≡ p
  parent_there = ground arith

  pub parent_elsewhere :
      (i : ℕ) → child ≢ i → (linked_to i).payload.parent_handle ≡ (t i).payload.parent_handle
  parent_elsewhere i ne = ground arith

  pub node_of_same : (h : ℕ) → node_of linked_to h ≡ node_of t h
  node_of_same h = elim (Option-cases (yoga_node_from_handle t h)) [
    | inl stale ↦ rw (names_same h, stale) refl
    | inr (j, names) ↦ rw (names_same h, names) (node_same j)
  ]

  -- The new parent is live, or there is none.
  pub set_parent-Linked :
      (p ≡ 0) ⊎ (yoga_node_from_handle t p ≢ none) → Linked t [] → Linked linked_to []
  set_parent-Linked parent linked i x y live = elim (ℕ_discrete child i) [
    | yes here ↦
        let now : (linked_to i).payload.parent_handle ≡ p =
          ap (λ k. (linked_to k).payload.parent_handle) (sym here) ∙ parent_there in
        elim parent [
          | inl root ↦ inl (now ∙ root)
          | inr named ↦ inr (
              inl (λ stale.
                named
                  (sym (names_same p) ∙ ap (yoga_node_from_handle linked_to) (sym now) ∙ stale)))
        ]
    | no other ↦
        let same = parent_elsewhere i other in
        elim (linked i x y (linked_Live i (x, y, live)).2) [
          | inl root ↦ inl (same ∙ root)
          | inr (inl named) ↦ inr (
              inl (λ stale. named (
                ap (yoga_node_from_handle t) (sym same)
                ∙ sym (names_same (linked_to i).payload.parent_handle)
                ∙ stale)))
          | inr (inr nowhere) ↦ absurd nowhere
        ]
  ]

module _ {native : NativeYoga} (tree : Tree native) where
  -- The child of a slot changes its owner as its parent handle does, and the other nodes stay.
  pub set_parent-Agrees :
      (s : State native) (child p : ℕ) (w' : native.World)
      → Agrees tree s
      → Live s.yoga_nodes child
      → IsForest (set_parent s.yoga_nodes child p)
      → (p ≡ 0) ⊎ (yoga_node_from_handle s.yoga_nodes p ≢ none)
      → tree.Exists (s.yoga_nodes child).payload.node w'
        × (tree.owner_of (s.yoga_nodes child).payload.node w' ≡ node_of s.yoga_nodes p)
      → ((b : ℕ)
          → b ≢ (s.yoga_nodes child).payload.node
          → tree.Exists b s.world
          → Stays tree b s.world w')
      → Agrees tree (record s { yoga_nodes = set_parent s.yoga_nodes child p; world = w' })
  set_parent-Agrees s child p w' a child_live forest parent now others =
      let t = s.yoga_nodes in
      record {
        forest = forest;
        linked = set_parent-Linked t child p parent a.linked;
        existing = λ i live.
            subst (λ n. tree.Exists n w') (sym (node_same t child p i))
              (elim (ℕ_discrete child i) [
                | yes here ↦ subst (λ k. tree.Exists (t k).payload.node w') here now.0
                | no other ↦ (stays i other (linked_Live t child p i live)).0
              ]);
        distinct = λ i j x y same.
            a.distinct i j (linked_Live t child p i x) (linked_Live t child p j y)
              (sym (node_same t child p i) ∙ same ∙ node_same t child p j);
        owners = λ i live.
            ap (λ n. tree.owner_of n w') (node_same t child p i) ∙ elim (ℕ_discrete child i) [
              | yes here ↦
                  ap (λ k. tree.owner_of (t k).payload.node w') (sym here)
                  ∙ now.1
                  ∙ ap (node_of t) (
                      sym (parent_there t child p)
                      ∙ ap (λ k. (set_parent t child p k).payload.parent_handle) here)
                  ∙ sym (node_of_same t child p (set_parent t child p i).payload.parent_handle)
              | no other ↦
                  (stays i other (linked_Live t child p i live)).1
                  ∙ a.owners i (linked_Live t child p i live)
                  ∙ ap (node_of t) (sym (parent_elsewhere t child p i other))
                  ∙ sym (node_of_same t child p (set_parent t child p i).payload.parent_handle)
            ];
      }
    where
      stays :
          (i : ℕ)
          → child ≢ i
          → Live s.yoga_nodes i
          → Stays tree (s.yoga_nodes i).payload.node s.world w'
      stays i other live =
          others (s.yoga_nodes i).payload.node
            (λ same. other (sym (a.distinct i child live child_live same))) (a.existing i live)
