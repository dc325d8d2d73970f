-- ===== src/Yoga/Agree/Children.antt =====
-- `opentui_raw_yoga_node_insert_child`, `_remove_child` and `_move_child` of yoga_stubs.c against
-- the tree of the layout library.
use native.Mathlib.Decide.{ℕ_discrete}
use opentui_ocaml.Prelude.{
  ℕ, ◌^◌, ◌<◌, ◌≡◌, ◌≢◌, refl, sym, ap, ◌∙◌, inl, inr, not, some, arith, ◌==◌, leb, found_rule,
  if_rule, subst, some-injective,
}
use opentui_ocaml.Prelude.Int.{ℤ, pos, negsuc}
use opentui_ocaml.Slots.Laws.{from_token-injective}
use opentui_ocaml.Status.{Status}
use opentui_ocaml.Yoga.Native.{NativeYoga}
use opentui_ocaml.Yoga.{Nodes, State, yoga_node_capacity, yoga_node_from_handle, set_parent}
use opentui_ocaml.Yoga.Tree.{insert_child, remove_child, move_live, move_child}
use opentui_ocaml.Yoga.Forest.{IsForest, Rooted, ends, climbs}
use opentui_ocaml.Yoga.Steps.{insert_child-IsForest, write_node-IsForest}
use opentui_ocaml.Yoga.Insert.{MayInsert, insert_child-InsertCase}
use opentui_ocaml.Yoga.Agree.{Tree, AllStay, IsLibrary, Agrees, node_of}
use opentui_ocaml.Yoga.Agree.Owner.{named-Live, node_of_named, node_of_zero}
use opentui_ocaml.Yoga.Agree.Keep.{AllStay-Agrees}
use opentui_ocaml.Yoga.Agree.Links.{set_parent-Agrees}

-- No node is its own parent.
not_own_parent :
    (t : Nodes) (h i : ℕ)
    → yoga_node_from_handle t h ≡ some i
    → (t i).payload.parent_handle ≡ h
    → {g : ℕ} → Rooted t g
    → g ≡ h
    → ⊥
not_own_parent t h i names own (ends stale) same =
    let live = ap (yoga_node_from_handle t) same ∙ names in cc
not_own_parent t h i names own (climbs j e rooted) same =
    let live : yoga_node_from_handle t _ ≡ some i = ap (yoga_node_from_handle t) same ∙ names in
    let index : j ≡ i = some-injective (sym e ∙ live) in
    not_own_parent t h i names own rooted (ap (λ k. (t k).payload.parent_handle) index ∙ own)

module _ {native : NativeYoga} (tree : Tree native) (library : IsLibrary tree) (s : State native)
    (a : Agrees tree s) where
  abbrev After : Status × State native → Type 0
  After r = Agrees tree r.1

  abbrev t : Nodes
  t = s.yoga_nodes

  exists_named :
      (h i : ℕ) → yoga_node_from_handle t h ≡ some i → tree.Exists (t i).payload.node s.world
  exists_named h i names = a.existing i (named-Live t h i names)

  owner_child :
      (i j : ℕ) (p c : ℕ)
      → yoga_node_from_handle t p ≡ some j
      → yoga_node_from_handle t c ≡ some i
      → (t i).payload.parent_handle ≡ p
      → tree.owner_of (t i).payload.node s.world ≡ (t j).payload.node
  owner_child i j p c np nc same =
      a.owners i (named-Live t c i nc) ∙ ap (node_of t) same ∙ node_of_named t p j np

  nodes_apart :
      (p c parent child : ℕ)
      → p < 2 ^ 32
      → c < 2 ^ 32
      → p ≢ c
      → yoga_node_from_handle t p ≡ some parent
      → yoga_node_from_handle t c ≡ some child
      → (t parent).payload.node ≢ (t child).payload.node
  unfolding yoga_node_from_handle
  nodes_apart p c parent child wp wc ne np nc same =
      let index_same =
        a.distinct parent child (named-Live t p parent np) (named-Live t c child nc) same in
      ne (from_token-injective yoga_node_capacity t p c child wp wc (np ∙ ap some index_same) nc)

  insert-Agrees :
      (p c parent child index : ℕ)
      → p < 2 ^ 32
      → c < 2 ^ 32
      → MayInsert native s p c parent child index
      → IsForest (set_parent t child p)
      → Agrees tree (record s {
        yoga_nodes = set_parent t child p;
        world =
            native.node_insert_child (t parent).payload.node (t child).payload.node index s.world;
      })
  insert-Agrees p c parent child index wp wc may forest =
      let live = named-Live t c child may.child_live in
      let inserted =
        library.inserts (t parent).payload.node (t child).payload.node index s.world
          (exists_named p parent may.parent_live) (exists_named c child may.child_live)
          (nodes_apart p c parent child wp wc may.distinct may.parent_live may.child_live)
          (a.owners child live ∙ ap (node_of t) may.orphan ∙ node_of_zero t) may.in_bounds in
      set_parent-Agrees tree s child p _ a live forest
        (inr (λ stale. let parent_live = may.parent_live in cc))
        (inserted.0.0, inserted.0.1 ∙ sym (node_of_named t p parent may.parent_live)) inserted.1

  pub insert_child-Agrees :
      (p c : ℕ) (index : ℤ) → p < 2 ^ 32 → c < 2 ^ 32 → After (insert_child native s p c index)
  unfolding insert_child
  insert_child-Agrees p c (negsuc n) wp wc = a
  insert_child-Agrees p c (pos index) wp wc =
      elim (insert_child-InsertCase native s p c index a.forest) [
        | inl (parent, child, may, e) ↦
            let forest = insert_child-IsForest native s p c (pos index) wp wc a.forest in
            subst After (sym e) (
              insert-Agrees p c parent child index wp wc may
                (subst (λ r. IsForest r.1.yoga_nodes) e forest))
        | inr (failed, same, _) ↦ subst (Agrees tree) (sym same) a
      ]

  pub remove_child-Agrees : (p c : ℕ) → After (remove_child native s p c)
  unfolding remove_child
  remove_child-Agrees p c =
      found_rule After (yoga_node_from_handle t p) (λ _. a)
        (λ parent np.
          found_rule After (yoga_node_from_handle t c) (λ _. a)
            (λ child nc.
              if_rule After (not ((t child).payload.parent_handle == p)) (λ _. a)
                (λ same.
                  let removed =
                    library.removes (t parent).payload.node (t child).payload.node s.world
                      (exists_named p parent np) (exists_named c child nc)
                      (owner_child child parent p c np nc (ground (arith, same))) in
                  set_parent-Agrees tree s child 0 _ a (named-Live t c child nc)
                    (write_node-IsForest t child _ (inl refl) a.forest) (inl refl)
                    (removed.0.0, removed.0.1 ∙ sym (node_of_zero t)) removed.1)))

  abbrev moved : ℕ → ℕ → ℕ → native.World
  moved parent child index =
      native.node_insert_child (t parent).payload.node (t child).payload.node index
        (native.node_remove_child (t parent).payload.node (t child).payload.node s.world)

  -- Removing a child and inserting it again leaves the tree as it was.
  move-AllStay :
      (p c parent child index : ℕ)
      → yoga_node_from_handle t p ≡ some parent
      → yoga_node_from_handle t c ≡ some child
      → (t child).payload.parent_handle ≡ p
      → index < native.node_child_count (t parent).payload.node s.world
      → AllStay tree s.world (moved parent child index)
  move-AllStay p c parent child index np nc same within =
      let owned = owner_child child parent p c np nc same in
      let apart : (t parent).payload.node ≢ (t child).payload.node = λ equal.
        let here =
          a.distinct parent child (named-Live t p parent np) (named-Live t c child nc) equal in
        not_own_parent t p child (np ∙ ap some here) same (a.forest.rooted p) refl in
      let removed =
        library.removes (t parent).payload.node (t child).payload.node s.world
          (exists_named p parent np) (exists_named c child nc) owned in
      let inserted =
        library.inserts (t parent).payload.node (t child).payload.node index
          (native.node_remove_child (t parent).payload.node (t child).payload.node s.world)
          (removed.1 (t parent).payload.node apart (exists_named p parent np)).0 removed.0.0 apart
          removed.0.1 (omega (arith, removed.2, within)) in
      λ b there. elim (ℕ_discrete b (t child).payload.node) [
        | yes child_here ↦ (
          subst (λ n. tree.Exists n (moved parent child index)) (sym child_here) inserted.0.0,
          ap (λ n. tree.owner_of n (moved parent child index)) child_here
              ∙ inserted.0.1
              ∙ sym (ap (λ n. tree.owner_of n s.world) child_here ∙ owned),
        )
        | no other ↦
            let once = removed.1 b other there in
            let twice = inserted.1 b other once.0 in (twice.0, twice.1 ∙ once.1)
      ]

  move_live-Agrees :
      (p c parent child index : ℕ)
      → yoga_node_from_handle t p ≡ some parent
      → yoga_node_from_handle t c ≡ some child
      → After (move_live native s p parent child index)
  unfolding move_live
  move_live-Agrees p c parent child index np nc =
      if_rule After (not ((t child).payload.parent_handle == p)) (λ _. a)
        (λ same.
          if_rule After (leb (native.node_child_count (t parent).payload.node s.world) index)
            (λ _. a)
            (λ within. AllStay-Agrees tree s _ a (
              move-AllStay p c parent child index np nc (ground (arith, same))
                (ground (arith, within)))))

  pub move_child-Agrees : (p c : ℕ) (index : ℤ) → After (move_child native s p c index)
  unfolding move_child
  move_child-Agrees p c (negsuc n) = a
  move_child-Agrees p c (pos index) =
      found_rule After (yoga_node_from_handle t p) (λ _. a)
        (λ parent np.
          found_rule After (yoga_node_from_handle t c) (λ _. a)
            (λ child nc. move_live-Agrees p c parent child index np nc))
