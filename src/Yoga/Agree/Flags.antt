-- ===== src/Yoga/Agree/Flags.antt =====
-- The bindings of yoga_stubs.c that set the flags of a node, against the tree of the layout
-- library.
use opentui_ocaml.Prelude.{
  ℕ, ◌≡◌, refl, sym, ap, ◌∙◌, inl, inr, Bool, not, ◌&&◌, [], arith, found_rule, if_rule,
}
use opentui_ocaml.Slots.{from_token}
use opentui_ocaml.Status.{Status}
use opentui_ocaml.Yoga.Native.{NativeYoga}
use opentui_ocaml.Yoga.{Nodes, NodeFields, State, yoga_node_from_handle, write_node}
use opentui_ocaml.Yoga.Layout.{
  claim_native_renderable, release_native_renderable, set_native_measure_attached,
}
use opentui_ocaml.Yoga.Steps.{write_node-IsForest}
use opentui_ocaml.Yoga.Subtree.Walk.{Linked}
use opentui_ocaml.Yoga.Agree.{Tree, Agrees, Live}
use opentui_ocaml.Yoga.Agree.Owner.{Shrinks}
use opentui_ocaml.Yoga.Agree.Keep.{Shrinks-Agrees}

-- Writing the fields of a node changes no handle.
pub write_node-names :
    (t : Nodes) (i : ℕ) (fields : NodeFields) (h : ℕ)
    → yoga_node_from_handle (write_node t i fields) h ≡ yoga_node_from_handle t h
unfolding yoga_node_from_handle from_token
write_node-names t i fields h = ground arith

pub write_node-Live :
    (t : Nodes) (i : ℕ) (fields : NodeFields) (j : ℕ) → Live (write_node t i fields) j → Live t j
write_node-Live t i fields j live = ground (arith, live)

module _ (t : Nodes) (i : ℕ) (fields : NodeFields) (node : fields.node ≡ (t i).payload.node)
    (parent : fields.parent_handle ≡ (t i).payload.parent_handle) where
  flags-Shrinks : Shrinks t (write_node t i fields)
  flags-Shrinks j live =
      (write_node-Live t i fields j live, ground arith, ground arith, ground arith)

  flags-Linked : Linked t [] → Linked (write_node t i fields) []
  flags-Linked linked j p q live =
      let same = (flags-Shrinks j (p, q, live)).3 in
      elim (linked j p q (flags-Shrinks j (p, q, live)).0.2) [
        | inl root ↦ inl (same ∙ root)
        | inr (inl named) ↦ inr (
            inl (λ stale. named (
              ap (yoga_node_from_handle t) (sym same)
              ∙ sym (write_node-names t i fields _)
              ∙ stale)))
        | inr (inr nowhere) ↦ absurd nowhere
      ]

module _ {native : NativeYoga} (tree : Tree native) (s : State native) (a : Agrees tree s) where
  flags-Agrees :
      (i : ℕ) (fields : NodeFields)
      → fields.node ≡ (s.yoga_nodes i).payload.node
      → fields.parent_handle ≡ (s.yoga_nodes i).payload.parent_handle
      → Agrees tree (record s { yoga_nodes = write_node s.yoga_nodes i fields })
  flags-Agrees i fields node parent =
      Shrinks-Agrees tree s (record s { yoga_nodes = write_node s.yoga_nodes i fields }) a
        (write_node-IsForest s.yoga_nodes i fields (inr parent) a.forest)
        (flags-Linked s.yoga_nodes i fields node parent a.linked)
        (flags-Shrinks s.yoga_nodes i fields node parent)
        (λ j live. (a.existing j (write_node-Live s.yoga_nodes i fields j live), refl))

  abbrev After : Status × State native → Type 0
  After r = Agrees tree r.1

  pub claim_native_renderable-Agrees : (h : ℕ) → After (claim_native_renderable native s h)
  unfolding claim_native_renderable
  claim_native_renderable-Agrees h =
      found_rule After (yoga_node_from_handle s.yoga_nodes h) (λ _. a)
        (λ i _.
          if_rule After (s.yoga_nodes i).payload.native_renderable_attached (λ _. a)
            (λ _. flags-Agrees i _ refl refl))

  pub release_native_renderable-Agrees : (h : ℕ) → After (release_native_renderable native s h)
  unfolding release_native_renderable
  release_native_renderable-Agrees h =
      found_rule After (yoga_node_from_handle s.yoga_nodes h) (λ _. a)
        (λ i _. flags-Agrees i _ refl refl)

  pub set_native_measure_attached-Agrees :
      (h : ℕ) (attached : Bool) → After (set_native_measure_attached native s h attached)
  unfolding set_native_measure_attached
  set_native_measure_attached-Agrees h attached =
      found_rule After (yoga_node_from_handle s.yoga_nodes h) (λ _. a)
        (λ i _.
          if_rule After (attached && not (s.yoga_nodes i).payload.native_renderable_attached)
            (λ _. a) (λ _. flags-Agrees i _ refl refl))
