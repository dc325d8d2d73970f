-- ===== src/Yoga/Agree/Frees.antt =====
-- `opentui_raw_yoga_node_free` and `_free_recursive` of yoga_stubs.c against the tree of the layout
-- library.
use mathlib.Core.Bool.{false≢true}
use opentui_ocaml.Prelude.{
  ℕ, ◌≡◌, ◌≢◌, sym, ap, ◌∙◌, inl, inr, false, not, ◌||◌, some, [], arith, ◌==◌, found_rule, if_rule,
  Option-cases,
}
use opentui_ocaml.Token.{token_index}
use opentui_ocaml.Slots.Laws.{
  from_token-Names, from_token-same_slot, release_slot_self, release_slot_ne,
}
use opentui_ocaml.Status.{Status}
use opentui_ocaml.Yoga.Native.{NativeYoga}
use opentui_ocaml.Yoga.{
  Nodes, State, no_node, yoga_node_capacity, yoga_node_from_handle, yoga_release_node,
}
use opentui_ocaml.Yoga.Tree.{node_free_binding}
use opentui_ocaml.Yoga.Steps.{yoga_release_node-IsForest}
use opentui_ocaml.Yoga.Subtree.Walk.{Linked}
use opentui_ocaml.Yoga.Agree.{Tree, IsLibrary, Agrees, Live, node_of}
use opentui_ocaml.Yoga.Agree.Owner.{named-Live, node_of_named, node_of_zero, Shrinks, same_slot}
use opentui_ocaml.Yoga.Agree.Keep.{Shrinks-Agrees}

-- The release of the slot of a live handle.
module _ (t : Nodes) (h k : ℕ) (names : yoga_node_from_handle t h ≡ some k) where
  pub released_slot : (yoga_release_node t h k).alive ≡ false
  unfolding yoga_release_node yoga_node_from_handle
  released_slot =
      let n = from_token-Names yoga_node_capacity t h k names in
      rw (← n.0) (release_slot_self yoga_node_capacity (λ _. no_node) t (token_index h))

  pub kept_slot : (i : ℕ) → k ≢ i → yoga_release_node t h i ≡ t i
  unfolding yoga_release_node yoga_node_from_handle
  kept_slot i ne =
      let n = from_token-Names yoga_node_capacity t h k names in
      release_slot_ne yoga_node_capacity (λ _. no_node) t (token_index h) i (λ e. ne (sym n.0 ∙ e))

  pub kept_ne : (i : ℕ) → Live (yoga_release_node t h) i → k ≢ i
  kept_ne i live same =
      false≢true (sym released_slot ∙ ap (λ j. (yoga_release_node t h j).alive) same ∙ live.2)

  release-Shrinks : Shrinks t (yoga_release_node t h)
  release-Shrinks i live = same_slot t (yoga_release_node t h) i (kept_slot i (kept_ne i live)) live

  kept_names :
      (e j : ℕ)
      → k ≢ j
      → yoga_node_from_handle t e ≡ some j
      → yoga_node_from_handle (yoga_release_node t h) e ≡ some j
  unfolding yoga_node_from_handle
  kept_names e j ne live =
      from_token-same_slot yoga_node_capacity t (yoga_release_node t h) e j (kept_slot j ne) live

  -- No node has the released one as its parent.
  release-Linked :
      ((i : ℕ) → Live t i → yoga_node_from_handle t (t i).payload.parent_handle ≢ some k)
      → Linked t []
      → Linked (yoga_release_node t h) []
  release-Linked childless linked i p q live =
      let was = release-Shrinks i (p, q, live) in
      elim (linked i p q was.0.2) [
        | inl root ↦ inl (was.3 ∙ root)
        | inr (inl named) ↦
            elim (Option-cases (yoga_node_from_handle t (t i).payload.parent_handle)) [
              | inl stale ↦ absurd (named stale)
              | inr (j, parent) ↦
                  let still =
                    kept_names (t i).payload.parent_handle j
                      (λ same. childless i was.0 (parent ∙ ap some (sym same))) parent in
                  inr (
                    inl (λ stale.
                      let there =
                        ap (yoga_node_from_handle (yoga_release_node t h)) (sym was.3) ∙ stale in
                      cc))
            ]
        | inr (inr nowhere) ↦ absurd nowhere
      ]

module _ {native : NativeYoga} (tree : Tree native) (library : IsLibrary tree) (s : State native)
    (a : Agrees tree s) where
  abbrev After : Status × State native → Type 0
  After r = Agrees tree r.1

  abbrev t : Nodes
  t = s.yoga_nodes

  free-Agrees :
      (h k : ℕ)
      → yoga_node_from_handle t h ≡ some k
      → (t k).payload.parent_handle ≡ 0
      → native.node_child_count (t k).payload.node s.world ≡ 0
      → Agrees tree (record s {
        yoga_nodes = yoga_release_node t h;
        world = native.node_free (t k).payload.node s.world;
      })
  free-Agrees h k names root childless =
      let live = named-Live t h k names in
      Shrinks-Agrees tree s _ a (yoga_release_node-IsForest t h a.forest)
        (release-Linked t h k names
          (λ i child parent.
            library.counts (t k).payload.node (t i).payload.node s.world (a.existing k live)
              (a.existing i child)
              (a.owners i child ∙ node_of_named t (t i).payload.parent_handle k parent) childless)
          a.linked)
        (release-Shrinks t h k names)
        (λ i kept.
          let was = (release-Shrinks t h k names i kept).0 in
          library.frees (t k).payload.node s.world (a.existing k live)
            (a.owners k live ∙ ap (node_of t) root ∙ node_of_zero t) childless (t i).payload.node
            (λ same. kept_ne t h k names i kept (sym (a.distinct i k was live same)))
            (a.existing i was))

  pub node_free_binding-Agrees : (h : ℕ) → After (node_free_binding native s h)
  unfolding node_free_binding
  node_free_binding-Agrees h =
      found_rule After (yoga_node_from_handle t h) (λ _. a)
        (λ k names.
          if_rule After
            ((t k).payload.native_renderable_attached
              || not ((t k).payload.parent_handle == 0)
              || not (native.node_child_count (t k).payload.node s.world == 0))
            (λ _. a)
            (λ allowed. free-Agrees h k names (ground (arith, allowed)) (ground (arith, allowed))))
