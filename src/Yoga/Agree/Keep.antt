-- ===== src/Yoga/Agree/Keep.antt =====
-- The bindings of yoga_stubs.c that keep the tree of the layout library, or take nodes from it.
use opentui_ocaml.Prelude.{ℕ, refl, sym, ap, ◌∙◌, [], subst}
use opentui_ocaml.Yoga.Native.{NativeYoga}
use opentui_ocaml.Yoga.{State}
use opentui_ocaml.Yoga.Forest.{IsForest}
use opentui_ocaml.Yoga.Subtree.Walk.{Linked}
use opentui_ocaml.Yoga.Agree.{Tree, Stays, AllStay, Live, Agrees}
use opentui_ocaml.Yoga.Agree.Owner.{Shrinks, owner-Shrinks}

module _ {native : NativeYoga} (tree : Tree native) where
  -- The table loses slots at most, and the nodes of those that it keeps stay.
  pub Shrinks-Agrees :
      (s s' : State native)
      → Agrees tree s
      → IsForest s'.yoga_nodes
      → Linked s'.yoga_nodes []
      → Shrinks s.yoga_nodes s'.yoga_nodes
      → ((i : ℕ) → Live s'.yoga_nodes i → Stays tree (s.yoga_nodes i).payload.node s.world s'.world)
      → Agrees tree s'
  Shrinks-Agrees s s' a forest linked shrinks stays = record {
    forest = forest;
    linked = linked;
    existing =
        λ i live. subst (λ n. tree.Exists n s'.world) (sym (shrinks i live).2) (stays i live).0;
    distinct = λ i j p q same.
        a.distinct i j (shrinks i p).0 (shrinks j q).0
          (sym (shrinks i p).2 ∙ same ∙ (shrinks j q).2);
    owners = λ i live.
        ap (λ n. tree.owner_of n s'.world) (shrinks i live).2
        ∙ (stays i live).1
        ∙ a.owners i (shrinks i live).0
        ∙ sym (owner-Shrinks s.yoga_nodes s'.yoga_nodes i shrinks linked live);
  }

  -- The table stays as it is.
  pub AllStay-Agrees :
      (s : State native) (w' : native.World)
      → Agrees tree s
      → AllStay tree s.world w'
      → Agrees tree (record s { world = w' })
  AllStay-Agrees s w' a stay =
      Shrinks-Agrees s (record s { world = w' }) a a.forest a.linked
        (λ i live. (live, refl, refl, refl))
        (λ i live. stay (s.yoga_nodes i).payload.node (a.existing i live))
