-- ===== src/Yoga/Tests.antt =====
-- Runs of the node bindings on a small layout library.
use opentui_ocaml.Prelude.{ℕ, ◌+◌, ◌≡◌, ◌↔◌, Bool, true, false, some, List, [], ◌∷◌, arith}
use opentui_ocaml.Prelude.Int.{pos}
use opentui_ocaml.Yoga.Native.{NativeYoga, Double, nan, finite}
use opentui_ocaml.Status.{ok}
use opentui_ocaml.Yoga.{Nodes, State, ancestor_loop, yoga_node_capacity, yoga_would_create_cycle}
use opentui_ocaml.Yoga.Forest.{IsForest, Avoids}
use opentui_ocaml.Yoga.Calls.{
  Call, creates, inserts, claims, sets_float, run, initial, run-initial-IsForest,
}
use opentui_ocaml.Yoga.Tree.{insert_child}
use opentui_ocaml.Yoga.Insert.{InsertCase, insert_child-InsertCase}
use opentui_ocaml.Yoga.Subtree.{node_free_recursive_binding}
use opentui_ocaml.Yoga.Subtree.Exact.{Cut}
use opentui_ocaml.Yoga.Subtree.Whole.{Freeable, node_free_recursive_binding-Cut}
use opentui_ocaml.Yoga.Subtree.Free.{FreeCase, node_free_recursive_binding-FreeCase}
use opentui_ocaml.Yoga.Cycle.{yoga_would_create_cycle_iff}

-- A layout library that counts its nodes and reports one child for each.
abbrev counting : NativeYoga
counting = record {
  World = ℕ;
  Single = Double;
  to_single = λ x. x;
  node_create = λ w. (w + 1, w + 1);
  node_free = λ node w. w;
  node_free_recursive = λ node w. w;
  node_child_count = λ node w. 1;
  node_insert_child = λ node child index w. w;
  node_remove_child = λ node child w. w;
  node_calculate_layout = λ node width height direction w. w;
  node_is_dirty = λ node w. false;
  node_mark_dirty = λ node w. w;
  node_has_new_layout = λ node w. true;
  node_set_has_new_layout = λ node seen w. w;
  node_style_set_value = λ node kind edge unit x w. w;
  node_style_set_enum = λ node kind code w. w;
  node_style_set_float = λ node kind x w. w;
  node_style_set_border = λ node edge x w. w;
  node_computed_layout = λ node w. record {
    left = nan;
    top = nan;
    right = nan;
    bottom = nan;
    width = nan;
    height = nan;
  };
  node_set_measure_func = λ node enabled w. w;
  node_unset_measure_func = λ node w. w;
  node_has_measure_func = λ node w. false;
  renderable_attach = λ renderable node w. (true, w);
}

-- Two nodes, the second below the first, and an insertion the other way round.
abbrev calls : List Call
calls =
    creates
    ∷ creates
    ∷ inserts 0x10001 0x10002 (pos 0)
    ∷ inserts 0x10002 0x10001 (pos 0)
    ∷ sets_float 0x10002 (pos 2) (finite (pos 7))
    ∷ claims 0x10001
    ∷ []

run-initial-IsForest_example : IsForest (run counting (initial counting 0) calls).yoga_nodes
run-initial-IsForest_example =
    run-initial-IsForest counting 0 calls
      (tt, (tt, ((omega arith, omega arith), ((omega arith, omega arith), (tt, (tt, tt))))))

abbrev nodes : Nodes
nodes = (run counting (initial counting 0) calls).yoga_nodes

nodes-IsForest : IsForest nodes
nodes-IsForest =
    run-initial-IsForest counting 0 calls
      (tt, (tt, ((omega arith, omega arith), ((omega arith, omega arith), (tt, (tt, tt))))))

yoga_would_create_cycle_iff_example :
    ((answer : Bool) × (ancestor_loop yoga_node_capacity nodes 0x10001 0x10002 ≡ some answer)
      × (yoga_would_create_cycle nodes 0x10002 0x10001 ≡ answer))
    × ((yoga_would_create_cycle nodes 0x10002 0x10001 ≡ false) ↔ Avoids nodes 0x10001 0x10002)
yoga_would_create_cycle_iff_example =
    yoga_would_create_cycle_iff nodes 0x10002 0x10001 nodes-IsForest

-- The second node, below the first already, cannot be inserted again.
insert_child-InsertCase_example :
    InsertCase counting
      (run counting (initial counting 0) calls)
      0x10001
      0x10002
      0
      (insert_child counting (run counting (initial counting 0) calls) 0x10001 0x10002 (pos 0))
insert_child-InsertCase_example =
    insert_child-InsertCase counting (run counting (initial counting 0) calls) 0x10001 0x10002 0
      nodes-IsForest

-- Freeing the first node and the one below it.
node_free_recursive_binding-FreeCase_example :
    FreeCase counting
      (run counting (initial counting 0) calls)
      0x10001
      (node_free_recursive_binding counting (run counting (initial counting 0) calls) 0x10001)
node_free_recursive_binding-FreeCase_example =
    node_free_recursive_binding-FreeCase counting (run counting (initial counting 0) calls) 0x10001
      nodes-IsForest (omega arith)

-- Two nodes, the second below the first, and one apart.
abbrev family : State counting
family =
    run counting (initial counting 0)
      (creates ∷ creates ∷ creates ∷ inserts 0x10001 0x10002 (pos 0) ∷ [])

family-IsForest : IsForest family.yoga_nodes
family-IsForest =
    run-initial-IsForest counting 0
      (creates ∷ creates ∷ creates ∷ inserts 0x10001 0x10002 (pos 0) ∷ [])
      (tt, (tt, (tt, ((omega arith, omega arith), tt))))

node_free_recursive_binding-Cut_example :
    ((node_free_recursive_binding counting family 0x10001).0 ≡ ok
      ↔ Freeable family.yoga_nodes 0x10001)
    × ((node_free_recursive_binding counting family 0x10001).0 ≡ ok
        → Cut family.yoga_nodes
            (0x10001 ∷ [])
            (node_free_recursive_binding counting family 0x10001).1.yoga_nodes)
node_free_recursive_binding-Cut_example =
    node_free_recursive_binding-Cut counting family 0x10001 family-IsForest (omega arith)
