-- ===== src/Yoga/Subtree/Whole.antt =====
-- `opentui_raw_yoga_node_free_recursive` against the tree that parent handles describe.
use opentui_ocaml.Prelude.{
  ℕ, ◌^◌, ◌<◌, ◌≡◌, ◌↔◌, refl, sym, ap, ◌∙◌, inl, inr, true, false, ◌||◌, not, some, [], ◌∷◌, arith,
  ◌==◌, found, if_rule, found_rule, Bool-cases, subst,
}
use opentui_ocaml.Status.{Status, ok}
use opentui_ocaml.Yoga.Native.{NativeYoga}
use opentui_ocaml.Yoga.{Nodes, State, yoga_node_capacity, yoga_node_from_handle}
use opentui_ocaml.Yoga.Forest.{IsForest}
use opentui_ocaml.Yoga.Subtree.{
  yoga_release_subtree_slots, yoga_subtree_has_native_renderable, node_free_recursive_binding,
}
use opentui_ocaml.Yoga.Subtree.Free.{root-Walk, walks_end, node_free_recursive_binding-FreeCase}
use opentui_ocaml.Yoga.Subtree.Below.{Below, waits}
use opentui_ocaml.Yoga.Subtree.Walk.{handle_of-named}
use opentui_ocaml.Slots.Laws.{from_token-Names}
use mathlib.Core.Bool.{false≢true}
use opentui_ocaml.Yoga.Subtree.Exact.{Cut, release_loop-Cut}
use opentui_ocaml.Yoga.Subtree.Attached.{renderable_loop-false, renderable_loop-true}

-- The handle names a node without a parent, and no node below it has a native renderable.
pub record Freeable (t : Nodes) (h : ℕ) : Type 0 where
  pub index : ℕ
  pub names : yoga_node_from_handle t h ≡ some index
  pub root : (t index).payload.parent_handle ≡ 0
  pub free :
      (i : ℕ)
      → 0 < i
      → i < yoga_node_capacity
      → (t i).alive ≡ true
      → Below t (h ∷ []) i
      → (t i).payload.native_renderable_attached ≡ false

module _ (native : NativeYoga) where
  -- A call that succeeds has a root without a parent, and the library is told to free its node.
  abbrev pub HasRoot : State native → ℕ → Status × State native → Type 0
  HasRoot s h r =
      r.0 ≡ ok
      → (index : ℕ) × (yoga_node_from_handle s.yoga_nodes h ≡ some index)
        × ((s.yoga_nodes index).payload.parent_handle ≡ 0)
        × (r.1.world ≡ native.node_free_recursive (s.yoga_nodes index).payload.node s.world)

  pub freed_root : (s : State native) (h : ℕ) → HasRoot s h (node_free_recursive_binding native s h)
  unfolding node_free_recursive_binding
  freed_root s h =
      found_rule (HasRoot s h) (yoga_node_from_handle s.yoga_nodes h) (λ _ e. cc)
        (λ index names.
          if_rule (HasRoot s h)
            ((s.yoga_nodes index).payload.native_renderable_attached
              || not ((s.yoga_nodes index).payload.parent_handle == 0)
              || found (yoga_subtree_has_native_renderable s.yoga_nodes h) true (λ answer. answer))
            (λ _ e. cc) (λ allowed e. (index, names, ground (arith, allowed), refl)))

  freed-ok :
      (s : State native) (h : ℕ)
      → (f : Freeable s.yoga_nodes h)
      → (s.yoga_nodes f.index).payload.native_renderable_attached ≡ false
      → yoga_subtree_has_native_renderable s.yoga_nodes h ≡ some false
      → (node_free_recursive_binding native s h).0 ≡ ok
  unfolding node_free_recursive_binding
  freed-ok s h f root_free none_below = ground (arith, f.names, f.root)

  module _ (s : State native) (h : ℕ) (f : IsForest s.yoga_nodes) (word : h < 2 ^ 32) where
    freed-Freeable : (node_free_recursive_binding native s h).0 ≡ ok → Freeable s.yoga_nodes h
    unfolding yoga_subtree_has_native_renderable
    freed-Freeable success =
        let root = freed_root s h success in
        let answer = (node_free_recursive_binding-FreeCase native s h f word).0 success in
        record {
          index = root.0;
          names = root.1;
          root = root.2;
          free =
              renderable_loop-false yoga_node_capacity s.yoga_nodes s.yoga_nodes (h ∷ [])
                (λ i. inl refl) (root-Walk s.yoga_nodes h root.0 f word root.1 root.2) answer.0;
        }

    Freeable-ok : Freeable s.yoga_nodes h → (node_free_recursive_binding native s h).0 ≡ ok
    unfolding yoga_subtree_has_native_renderable yoga_node_from_handle
    Freeable-ok can =
        let t = s.yoga_nodes in
        let walk = root-Walk t h can.index f word can.names can.root in
        let (answer, e) = (walks_end t h can.index f word can.names can.root).0 in
        let n = from_token-Names yoga_node_capacity t h can.index can.names in
        let root_free =
          can.free can.index n.1 n.2 n.3
            (waits (inl (handle_of-named t h can.index f.valid word can.names))) in
        elim (Bool-cases answer) [
          | inl yes_attached ↦
              let a =
                renderable_loop-true yoga_node_capacity t t (h ∷ []) (λ i. inl refl) walk
                  (e ∙ ap some yes_attached) in
              let unattached = can.free a.node a.from a.to a.alive a.below in
              absurd (false≢true (sym unattached ∙ a.attached))
          | inr none_attached ↦ freed-ok s h can root_free (e ∙ ap some none_attached)
        ]

    freed-Cut :
        (node_free_recursive_binding native s h).0 ≡ ok
        → Cut s.yoga_nodes (h ∷ []) (node_free_recursive_binding native s h).1.yoga_nodes
    unfolding yoga_release_subtree_slots
    freed-Cut success =
        let root = freed_root s h success in
        let (u, e, same) = ((node_free_recursive_binding-FreeCase native s h f word).0 success).1 in
        subst (Cut s.yoga_nodes (h ∷ [])) (sym same) (
          release_loop-Cut yoga_node_capacity s.yoga_nodes u (h ∷ [])
            (root-Walk s.yoga_nodes h root.0 f word root.1 root.2) e)

    -- In a forest, with a 32-bit handle, a call succeeds exactly where the handle names a node
    -- without a parent below which no node has a native renderable; and where it succeeds, the live
    -- nodes whose chain of parents meets that node are freed, the node itself among them, and every
    -- other slot of the table stays as it was.
    pub node_free_recursive_binding-Cut :
        ((node_free_recursive_binding native s h).0 ≡ ok ↔ Freeable s.yoga_nodes h)
        × ((node_free_recursive_binding native s h).0 ≡ ok
            → Cut s.yoga_nodes (h ∷ []) (node_free_recursive_binding native s h).1.yoga_nodes)
    node_free_recursive_binding-Cut = ((freed-Freeable, Freeable-ok), freed-Cut)
