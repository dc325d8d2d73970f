-- ===== src/Yoga/Agree/History.antt =====
-- Histories of the bindings of yoga_stubs.c against the tree of the layout library.
use opentui_ocaml.Prelude.{List, [], ◌∷◌}
use opentui_ocaml.Yoga.Native.{NativeYoga}
use opentui_ocaml.Yoga.{State}
use opentui_ocaml.Yoga.Calls.{
  Call, IsWord, AllWords, perform, run, initial, run-initial-IsForest, creates, frees,
  frees_recursively, inserts, removes, moves, calculates, marks_dirty, marks_layout_seen,
  sets_value, sets_enum, sets_float, sets_border, attaches, claims, releases, sets_measure_attached,
  sets_measure_func, unsets_measure_func,
}
use opentui_ocaml.Yoga.Agree.{Tree, IsLibrary, Agrees}
use opentui_ocaml.Yoga.Agree.Creates.{node_create_binding-Agrees}
use opentui_ocaml.Yoga.Agree.Frees.{node_free_binding-Agrees}
use opentui_ocaml.Yoga.Agree.Subtrees.{node_free_recursive_binding-Agrees}
use opentui_ocaml.Yoga.Agree.Children.{insert_child-Agrees, remove_child-Agrees, move_child-Agrees}
use opentui_ocaml.Yoga.Agree.Flags.{
  claim_native_renderable-Agrees, release_native_renderable-Agrees,
  set_native_measure_attached-Agrees,
}
use opentui_ocaml.Yoga.Agree.Quiet.{
  calculate-Agrees, mark_dirty-Agrees, mark_layout_seen-Agrees, style_set_value-Agrees,
  style_set_enum-Agrees, style_set_float-Agrees, style_set_border-Agrees, attach_yoga_node-Agrees,
  set_measure_func-Agrees, unset_measure_func-Agrees,
}

module _ {native : NativeYoga} (tree : Tree native) (library : IsLibrary tree) where
  perform-Agrees :
      (s : State native) (c : Call) → IsWord c → Agrees tree s → Agrees tree (perform native s c)
  unfolding perform
  perform-Agrees s creates w a = node_create_binding-Agrees tree library s a
  perform-Agrees s (frees h) w a = node_free_binding-Agrees tree library s a h
  perform-Agrees s (frees_recursively h) w a =
      node_free_recursive_binding-Agrees tree library s a h w
  perform-Agrees s (sets_measure_func h enabled) w a =
      set_measure_func-Agrees tree library s a h enabled
  perform-Agrees s (unsets_measure_func h) w a = unset_measure_func-Agrees tree library s a h
  perform-Agrees s (inserts p c index) w a = insert_child-Agrees tree library s a p c index w.0 w.1
  perform-Agrees s (removes p c) w a = remove_child-Agrees tree library s a p c
  perform-Agrees s (moves p c index) w a = move_child-Agrees tree library s a p c index
  perform-Agrees s (calculates h width height direction) w a =
      calculate-Agrees tree library s a h width height direction
  perform-Agrees s (marks_dirty h) w a = mark_dirty-Agrees tree library s a h
  perform-Agrees s (marks_layout_seen h) w a = mark_layout_seen-Agrees tree library s a h
  perform-Agrees s (sets_value h kind edge unit x) w a =
      style_set_value-Agrees tree library s a h kind edge unit x
  perform-Agrees s (sets_enum h kind code) w a = style_set_enum-Agrees tree library s a h kind code
  perform-Agrees s (sets_float h kind x) w a = style_set_float-Agrees tree library s a h kind x
  perform-Agrees s (sets_border h edge x) w a = style_set_border-Agrees tree library s a h edge x
  perform-Agrees s (attaches renderable h) w a =
      attach_yoga_node-Agrees tree library s a renderable h
  perform-Agrees s (claims h) w a = claim_native_renderable-Agrees tree s a h
  perform-Agrees s (releases h) w a = release_native_renderable-Agrees tree s a h
  perform-Agrees s (sets_measure_attached h attached) w a =
      set_native_measure_attached-Agrees tree s a h attached

  run-Agrees :
      (cs : List Call) (s : State native)
      → AllWords cs
      → Agrees tree s
      → Agrees tree (run native s cs)
  unfolding run
  run-Agrees [] s w a = a
  run-Agrees (c ∷ cs) s w a = run-Agrees cs (perform native s c) w.1 (perform-Agrees s c w.0 a)

  initial-Agrees : (w : native.World) → Agrees tree (initial native w)
  unfolding run
  initial-Agrees w = record {
    forest = run-initial-IsForest native w [] tt;
    linked = λ i p q live. cc;
    existing = λ i live. cc;
    distinct = λ i j x y same. cc;
    owners = λ i live. cc;
  }

  -- After any history of the bindings that create, free, link and configure nodes, from the zeroed
  -- table, with 32-bit handles, if the layout library keeps a tree as Yoga documents it, then the
  -- node of each live slot exists in the library, so that no binding hands it a node that was
  -- freed; two live slots share no node; the owner of a node in the library is the node of its
  -- parent in the table; and a parent handle that is not 0 names a live node.
  pub run-initial-Agrees :
      (w : native.World) (cs : List Call)
      → AllWords cs
      → Agrees tree (run native (initial native w) cs)
  run-initial-Agrees w cs words = run-Agrees cs (initial native w) words (initial-Agrees w)
