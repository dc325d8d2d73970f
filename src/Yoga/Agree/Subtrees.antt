-- ===== src/Yoga/Agree/Subtrees.antt =====
-- `opentui_raw_yoga_node_free_recursive` of yoga_stubs.c against the tree of the layout library:
-- what the library frees is what the walk over the table releases.
use mathlib.Core.Bool.{false≢true}
use opentui_ocaml.Prelude.{
  ℕ, ◌^◌, ◌<◌, ◌≡◌, refl, sym, ap, ◌∙◌, inl, inr, true, some, [], ◌∷◌, subst, Option-cases,
}
use opentui_ocaml.Status.{ok, ok_cases}
use opentui_ocaml.Yoga.Native.{NativeYoga}
use opentui_ocaml.Yoga.{Nodes, State, yoga_node_from_handle}
use opentui_ocaml.Yoga.Subtree.{handle_of, node_free_recursive_binding}
use opentui_ocaml.Yoga.Subtree.Walk.{handle_of-named}
use opentui_ocaml.Yoga.Subtree.Below.{Below, waits, descends}
use opentui_ocaml.Yoga.Subtree.Exact.{Cut}
use opentui_ocaml.Yoga.Subtree.Free.{node_free_recursive_binding-FreeCase}
use opentui_ocaml.Yoga.Subtree.Whole.{freed_root, node_free_recursive_binding-Cut}
use opentui_ocaml.Yoga.Agree.{Tree, Under, itself, owned, Stays, IsLibrary, Agrees, Live, node_of}
use opentui_ocaml.Yoga.Agree.Owner.{named-Live, node_of_named, node_of_zero, Shrinks, same_slot}
use opentui_ocaml.Yoga.Agree.Keep.{Shrinks-Agrees}

-- A live slot that is left by a cut is as it was, and was not below.
module _ (t u : Nodes) (h : ℕ) (cut : Cut t (h ∷ []) u) (i : ℕ) (live : Live u i) where
  cut_apart : (t i).alive ≡ true → Below t (h ∷ []) i → ⊥
  cut_apart alive below = false≢true (sym (cut.released i live.0 live.1 alive below) ∙ live.2)

  cut_same : u i ≡ t i
  cut_same = cut.kept i live.1 cut_apart

module _ {native : NativeYoga} (tree : Tree native) (library : IsLibrary tree) (s : State native)
    (a : Agrees tree s) (h : ℕ) (word : h < 2 ^ 32) where
  abbrev t : Nodes
  t = s.yoga_nodes

  Under-Exists :
      (n : ℕ) → tree.Exists n s.world → {b : ℕ} → Under tree s.world n b → tree.Exists b s.world
  Under-Exists n there itself = there
  Under-Exists n there (owned exists under) = exists

  -- A slot whose node is under the root's in the library is below the root in the table.
  Under-Below :
      (k : ℕ)
      → yoga_node_from_handle t h ≡ some k
      → {b : ℕ} → Under tree s.world (t k).payload.node b
      → (i : ℕ) → Live t i
      → b ≡ (t i).payload.node
      → Below t (h ∷ []) i
  Under-Below k names itself i live same =
      let index = a.distinct k i (named-Live t h k names) live same in
      waits (inl (ap (handle_of t) (sym index) ∙ handle_of-named t h k a.forest.valid word names))
  Under-Below k names {b} (owned exists under) i live same =
      let up : tree.owner_of b s.world ≡ node_of t (t i).payload.parent_handle =
        ap (λ n. tree.owner_of n s.world) same ∙ a.owners i live in
      elim (Option-cases (yoga_node_from_handle t (t i).payload.parent_handle)) [
        | inl stale ↦
            let null_owner : node_of t (t i).payload.parent_handle ≡ 0 = rw stale refl in
            absurd (
              library.null s.world (
                subst (λ n. tree.Exists n s.world) (up ∙ null_owner)
                  (Under-Exists (t k).payload.node (a.existing k (named-Live t h k names)) under)))
        | inr (j, parent) ↦ descends j parent (
            Under-Below k names under j (named-Live t (t i).payload.parent_handle j parent)
              (up ∙ node_of_named t (t i).payload.parent_handle j parent))
      ]

  freed-Agrees :
      (node_free_recursive_binding native s h).0 ≡ ok
      → Agrees tree (node_free_recursive_binding native s h).1
  freed-Agrees success =
      let r = (node_free_recursive_binding native s h).1 in
      let root = freed_root native s h success in
      let freed = (node_free_recursive_binding-FreeCase native s h a.forest word).0 success in
      let cut = (node_free_recursive_binding-Cut native s h a.forest word).1 success in
      let live = named-Live t h root.0 root.1 in
      let shrinks : Shrinks t r.yoga_nodes =
        λ i left. same_slot t r.yoga_nodes i (cut_same t r.yoga_nodes h cut i left) left in
      Shrinks-Agrees tree s r a freed.2 (freed.3 a.linked) shrinks (λ i left.
        let was = (shrinks i left).0 in
        subst (Stays tree (t i).payload.node s.world) (sym root.3) (
          library.frees_recursively (t root.0).payload.node s.world (a.existing root.0 live)
            (a.owners root.0 live ∙ ap (node_of t) root.2 ∙ node_of_zero t) (t i).payload.node
            (λ under.
              cut_apart t r.yoga_nodes h cut i left was.2
                (Under-Below root.0 root.1 under i was refl))
            (a.existing i was)))

  pub node_free_recursive_binding-Agrees : Agrees tree (node_free_recursive_binding native s h).1
  node_free_recursive_binding-Agrees = elim (ok_cases (node_free_recursive_binding native s h).0) [
    | inl success ↦ freed-Agrees success
    | inr failure ↦
        subst (Agrees tree)
          (sym ((node_free_recursive_binding-FreeCase native s h a.forest word).1 failure)) a
  ]
