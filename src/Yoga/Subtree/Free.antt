-- ===== src/Yoga/Subtree/Free.antt =====
-- `opentui_raw_yoga_node_free_recursive`.
use opentui_ocaml.Prelude.{
  ℕ, ◌^◌, ◌<◌, ◌≡◌, refl, sym, ap, ◌∙◌, ◌≢◌, inl, inr, Bool, true, false, ◌||◌, not, Option, none,
  some, [], ◌∷◌, arith, ◌==◌, found, if_rule, found_rule, Option-cases, subst,
}
use opentui_ocaml.Status.{Status, ok}
use opentui_ocaml.Yoga.Native.{NativeYoga}
use opentui_ocaml.Yoga.{Nodes, State, yoga_node_capacity, yoga_node_from_handle}
use opentui_ocaml.Yoga.Forest.{IsForest, zero_names_none}
use opentui_ocaml.Yoga.Count.{count, count_below}
use opentui_ocaml.Yoga.Subtree.{
  renderable_loop, yoga_release_subtree_slots, yoga_subtree_has_native_renderable,
  node_free_recursive_binding,
}
use opentui_ocaml.Yoga.Subtree.Walk.{Waits, Walk, Linked, dead}
use opentui_ocaml.Yoga.Subtree.Release.{Released, release_loop-Released}
use opentui_ocaml.Yoga.Subtree.Renderable.{renderable_loop-ends}

module _ (t : Nodes) (h index : ℕ) (f : IsForest t) (word : h < 2 ^ 32)
    (names : yoga_node_from_handle t h ≡ some index)
    (root : (t index).payload.parent_handle ≡ 0) where
  pub root-Walk : Walk t (h ∷ [])
  root-Walk = record {
    forest = f;
    waits = λ e i. elim i [ inl same ↦ rw same waits_root | inr nowhere ↦ absurd nowhere ];
    distinct = ((λ i. i), tt);
  }
    where
      waits_root : Waits t h
      waits_root = record {
        word = word;
        slot = index;
        names = names;
        orphan = ap (yoga_node_from_handle t) root ∙ zero_names_none t;
      }

  few : count yoga_node_capacity (dead t) < yoga_node_capacity
  few = let below = count_below 4095 (dead t) refl in omega (arith, below)

  -- Both walks end: the one that looks for native renderables with an answer, the other with a
  -- table that is a forest, in which the root is stale.
  pub walks_end :
      ((answer : Bool) × (yoga_subtree_has_native_renderable t h ≡ some answer))
      × ((u : Nodes) × (yoga_release_subtree_slots t h ≡ some u) × Released t (h ∷ []) u)
  unfolding yoga_subtree_has_native_renderable yoga_release_subtree_slots
  walks_end = (
    elim (Option-cases (renderable_loop yoga_node_capacity t (h ∷ []))) [
      | inl out ↦
          absurd
            (renderable_loop-ends yoga_node_capacity t t (h ∷ []) (λ i. inl refl) root-Walk few out)
      | inr (answer, e) ↦ (answer, e)
    ],
    release_loop-Released yoga_node_capacity t (h ∷ []) root-Walk few,
  )

module _ (native : NativeYoga) where
  -- What a call of the binding leaves, by its status.
  abbrev pub FreeCase : State native → ℕ → Status × State native → Type 0
  FreeCase s h r =
      (r.0 ≡ ok
        → (yoga_subtree_has_native_renderable s.yoga_nodes h ≡ some false)
          × ((u : Nodes) × (yoga_release_subtree_slots s.yoga_nodes h ≡ some u)
              × (r.1.yoga_nodes ≡ u))
          × IsForest r.1.yoga_nodes
          × (Linked s.yoga_nodes [] → Linked r.1.yoga_nodes [])
          × (yoga_node_from_handle r.1.yoga_nodes h ≡ none))
      × (r.0 ≢ ok → r.1 ≡ s)

  -- Freeing a subtree of a forest by a 32-bit handle either succeeds, both walks over it having
  -- ended, and then the table is a forest still, the handle of the root is stale, and if every
  -- parent was live before, every parent is live now; or it changes nothing.
  pub node_free_recursive_binding-FreeCase :
      (s : State native) (h : ℕ)
      → IsForest s.yoga_nodes
      → h < 2 ^ 32
      → FreeCase s h (node_free_recursive_binding native s h)
  unfolding node_free_recursive_binding
  node_free_recursive_binding-FreeCase s h f word =
      found_rule (FreeCase s h) (yoga_node_from_handle s.yoga_nodes h) (λ _. ((λ e. cc), λ _. refl))
        (λ index names.
          if_rule (FreeCase s h)
            ((s.yoga_nodes index).payload.native_renderable_attached
              || not ((s.yoga_nodes index).payload.parent_handle == 0)
              || found (yoga_subtree_has_native_renderable s.yoga_nodes h) true (λ answer. answer))
            (λ _. ((λ e. cc), λ _. refl))
            (λ allowed.
              let ends = walks_end s.yoga_nodes h index f word names (ground (arith, allowed)) in
              (
                (λ _.
                    let after = freed ends.1.0 ends.1.1 ends.1.2 in
                    (
                      ends.0.1 ∙ ap some (ground (arith, allowed, ends.0.1)),
                      (ends.1.0, ends.1.1, rw ends.1.1 refl),
                      after.0,
                      after.1,
                      after.2,
                    )),
                λ ne. absurd (ne refl),
              )))
    where
      weaken : Linked s.yoga_nodes [] → Linked s.yoga_nodes (h ∷ [])
      weaken linked i p q live = elim (linked i p q live) [
        | inl root ↦ inl root
        | inr (inl parent) ↦ inr (inl parent)
        | inr (inr nowhere) ↦ absurd nowhere
      ]

      freed :
          (u : Nodes)
          → yoga_release_subtree_slots s.yoga_nodes h ≡ some u
          → Released s.yoga_nodes (h ∷ []) u
          → let nodes = found (yoga_release_subtree_slots s.yoga_nodes h) s.yoga_nodes (λ t. t) in
            IsForest nodes
            × (Linked s.yoga_nodes [] → Linked nodes [])
            × (yoga_node_from_handle nodes h ≡ none)
      freed u e r =
          subst
            (λ (o : Option Nodes).
              IsForest (found o s.yoga_nodes (λ t. t))
              × (Linked s.yoga_nodes [] → Linked (found o s.yoga_nodes (λ t. t)) [])
              × (yoga_node_from_handle (found o s.yoga_nodes (λ t. t)) h ≡ none))
            (sym e) (r.0, (λ linked. r.1 (weaken linked)), r.3 h (inl refl))
