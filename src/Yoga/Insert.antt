-- ===== src/Yoga/Insert.antt =====
-- When `opentui_raw_yoga_node_insert_child` inserts, and what it does then and otherwise.
use mathlib.Core.Bool.{false≢true}
use opentui_ocaml.Prelude.{
  ℕ, ◌≤◌, ◌≡◌, refl, sym, ap, ◌∙◌, ◌≢◌, ◌⊎◌, false, not, ◌||◌, some, inl, inr, arith, ◌==◌, ltb,
  found_rule, if_rule,
}
use opentui_ocaml.Prelude.Int.{pos}
use opentui_ocaml.Status.{Status, ok}
use opentui_ocaml.Yoga.Native.{NativeYoga}
use opentui_ocaml.Yoga.{State, yoga_node_from_handle, set_parent, yoga_would_create_cycle}
use opentui_ocaml.Yoga.Tree.{insert_live, insert_child}
use opentui_ocaml.Yoga.Forest.{Avoids, IsForest}
use opentui_ocaml.Yoga.Cycle.{yoga_would_create_cycle_iff}

module _ (native : NativeYoga) where
  -- Both handles are live, the parent has no measure function, the child has no parent and is not
  -- on the chain from the parent to its root, and the index is within the parent's children.
  pub record MayInsert (s : State native) (p c parent child index : ℕ) : Type 0 where
    pub parent_live : yoga_node_from_handle s.yoga_nodes p ≡ some parent
    pub child_live : yoga_node_from_handle s.yoga_nodes c ≡ some child
    pub unmeasured : (s.yoga_nodes parent).payload.native_measure_attached ≡ false
    pub distinct : p ≢ c
    pub orphan : (s.yoga_nodes child).payload.parent_handle ≡ 0
    pub avoids : Avoids s.yoga_nodes c p
    pub in_bounds : index ≤ native.node_child_count (s.yoga_nodes parent).payload.node s.world

  -- The insertion's outcome: it succeeds, and then exactly the child's parent handle changes in the
  -- table and the layout library is told; or it fails and nothing changes.
  abbrev pub InsertCase : State native → ℕ → ℕ → ℕ → Status × State native → Type 0
  InsertCase s p c index r =
      ((parent child : ℕ) × MayInsert s p c parent child index
        × (r ≡ (
          ok,
          record s {
            yoga_nodes = set_parent s.yoga_nodes child p;
            world =
                native.node_insert_child (s.yoga_nodes parent).payload.node
                  (s.yoga_nodes child).payload.node index s.world;
          },
        )))
      ⊎ ((r.0 ≢ ok) × (r.1 ≡ s) × ((parent child : ℕ) → MayInsert s p c parent child index → ⊥))

  insert_live-InsertCase :
      (s : State native) (p c parent child index : ℕ)
      → IsForest s.yoga_nodes
      → yoga_node_from_handle s.yoga_nodes p ≡ some parent
      → yoga_node_from_handle s.yoga_nodes c ≡ some child
      → InsertCase s p c index (insert_live native s p c parent child index)
  unfolding insert_live
  insert_live-InsertCase s p c parent child index f np nc =
      let check = (yoga_would_create_cycle_iff s.yoga_nodes p c f).1 in
      if_rule (InsertCase s p c index) (s.yoga_nodes parent).payload.native_measure_attached
        (λ measured. inr (
          λ e. cc,
          refl,
          λ i j may.
              let same : i ≡ parent = ground (arith, sym may.parent_live ∙ np) in
              let unmeasured : (s.yoga_nodes parent).payload.native_measure_attached ≡ false =
                ap (λ k. (s.yoga_nodes k).payload.native_measure_attached) (sym same)
                ∙ may.unmeasured in
              false≢true (sym unmeasured ∙ measured),
        ))
        (λ unmeasured.
          if_rule (InsertCase s p c index)
            (p == c
              || not ((s.yoga_nodes child).payload.parent_handle == 0)
              || yoga_would_create_cycle s.yoga_nodes p c)
            (λ refused. inr (
              λ e. cc,
              refl,
              λ i j may.
                  let same : j ≡ child = ground (arith, sym may.child_live ∙ nc) in
                  let orphan : (s.yoga_nodes child).payload.parent_handle ≡ 0 =
                    ap (λ k. (s.yoga_nodes k).payload.parent_handle) (sym same) ∙ may.orphan in
                  let acyclic = check.1 may.avoids in
                  let apart = may.distinct in ground (arith, refused, orphan, acyclic, apart),
            ))
            (λ allowed.
              if_rule (InsertCase s p c index)
                (ltb (native.node_child_count (s.yoga_nodes parent).payload.node s.world) index)
                (λ beyond. inr (
                  λ e. cc,
                  refl,
                  λ i j may.
                      let same : i ≡ parent = ground (arith, sym may.parent_live ∙ np) in
                      let bound : index
                          ≤ native.node_child_count (s.yoga_nodes parent).payload.node s.world =
                        rw (← same) may.in_bounds in
                      ground (arith, beyond, bound),
                ))
                (λ within. inl (
                  parent,
                  child,
                  record {
                    parent_live = np;
                    child_live = nc;
                    unmeasured = unmeasured;
                    distinct = ground arith;
                    orphan = ground arith;
                    avoids = check.0 (ground arith);
                    in_bounds = ground arith;
                  },
                  refl,
                ))))

  -- An insertion into a forest, with an index that is not negative, succeeds exactly where the
  -- handles are live, the parent has no measure function, the child is an orphan that is not on the
  -- chain from the parent to its root, and the index is in bounds; then exactly its parent handle
  -- is set and the layout library is told. Otherwise nothing changes.
  pub insert_child-InsertCase :
      (s : State native) (p c index : ℕ)
      → IsForest s.yoga_nodes
      → InsertCase s p c index (insert_child native s p c (pos index))
  unfolding insert_child
  insert_child-InsertCase s p c index f =
      found_rule (InsertCase s p c index) (yoga_node_from_handle s.yoga_nodes p)
        (λ stale. inr (λ e. cc, refl, λ i j may. let live = may.parent_live in cc))
        (λ parent np.
          found_rule (InsertCase s p c index) (yoga_node_from_handle s.yoga_nodes c)
            (λ stale. inr (λ e. cc, refl, λ i j may. let live = may.child_live in cc))
            (λ child nc. insert_live-InsertCase s p c parent child index f np nc))
