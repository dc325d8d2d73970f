-- ===== src/Yoga/Tree.antt =====
-- The bindings of yoga_stubs.c that create and free nodes and that change the tree.
use opentui_ocaml.Prelude.{ℕ, not, ◌||◌, ◌==◌, ltb, leb, if◌then◌else◌, found}
use opentui_ocaml.Prelude.Int.{ℤ, pos, negsuc}
use opentui_ocaml.Status.{Status, ok, invalid_argument, stale_handle, native_failure}
use opentui_ocaml.Yoga.Native.{NativeYoga}
use opentui_ocaml.Yoga.{
  State, yoga_allocate_node, yoga_node_from_handle, yoga_release_node, write_node, set_parent,
  yoga_would_create_cycle,
}

module _ (native : NativeYoga) where
  open native use {
    World, node_create, node_free, node_child_count, node_insert_child, node_remove_child,
  }

  unfoldable pub node_create_binding : State native → (Status × ℕ) × State native
  node_create_binding s =
      let slot = yoga_allocate_node s.yoga_nodes in
      if slot.token == 0
      then ((native_failure, 0), s)
      else let made = node_create s.world in
        let nodes =
          write_node slot.table slot.index
            (record ((slot.table slot.index).payload) { node = made.0 }) in
        if made.0 == 0
        then (
          (native_failure, 0),
          record s { yoga_nodes = yoga_release_node nodes slot.token; world = made.1 },
        )
        else ((ok, slot.token), record s { yoga_nodes = nodes; world = made.1 })

  unfoldable pub node_free_binding : State native → ℕ → Status × State native
  node_free_binding s handle =
      found (yoga_node_from_handle s.yoga_nodes handle) (stale_handle, s)
        (λ index.
          let fields = (s.yoga_nodes index).payload in
          if fields.native_renderable_attached
            || not (fields.parent_handle == 0)
            || not (node_child_count fields.node s.world == 0)
          then (invalid_argument, s)
          else (
            ok,
            record s {
              yoga_nodes = yoga_release_node s.yoga_nodes handle;
              world = node_free fields.node s.world;
            },
          ))

  -- `opentui_raw_yoga_node_insert_child` on live nodes.
  unfoldable pub insert_live : State native → ℕ → ℕ → ℕ → ℕ → ℕ → Status × State native
  insert_live s parent_handle child_handle parent child index =
      let p = (s.yoga_nodes parent).payload in
      let c = (s.yoga_nodes child).payload in
      if p.native_measure_attached
      then (invalid_argument, s)
      else if parent_handle == child_handle
          || not (c.parent_handle == 0)
          || yoga_would_create_cycle s.yoga_nodes parent_handle child_handle
      then (invalid_argument, s)
      else if ltb (node_child_count p.node s.world) index
      then (invalid_argument, s)
      else (
        ok,
        record s {
          yoga_nodes = set_parent s.yoga_nodes child parent_handle;
          world = node_insert_child p.node c.node index s.world;
        },
      )

  unfoldable pub insert_child : State native → ℕ → ℕ → ℤ → Status × State native
  unfolding insert_live
  insert_child s parent_handle child_handle (negsuc n) = (invalid_argument, s)
  insert_child s parent_handle child_handle (pos index) =
      found (yoga_node_from_handle s.yoga_nodes parent_handle) (stale_handle, s)
        (λ parent.
          found (yoga_node_from_handle s.yoga_nodes child_handle) (stale_handle, s)
            (λ child. insert_live s parent_handle child_handle parent child index))

  unfoldable pub remove_child : State native → ℕ → ℕ → Status × State native
  remove_child s parent_handle child_handle =
      found (yoga_node_from_handle s.yoga_nodes parent_handle) (stale_handle, s)
        (λ parent.
          found (yoga_node_from_handle s.yoga_nodes child_handle) (stale_handle, s)
            (λ child.
              let c = (s.yoga_nodes child).payload in
              if not (c.parent_handle == parent_handle) then (invalid_argument, s) else (
                ok,
                record s {
                  yoga_nodes = set_parent s.yoga_nodes child 0;
                  world = node_remove_child (s.yoga_nodes parent).payload.node c.node s.world;
                },
              )))

  -- `opentui_raw_yoga_node_move_child` on live nodes: the table stays as it is.
  unfoldable pub move_live : State native → ℕ → ℕ → ℕ → ℕ → Status × State native
  move_live s parent_handle parent child index =
      let p = (s.yoga_nodes parent).payload in
      let c = (s.yoga_nodes child).payload in
      if not (c.parent_handle == parent_handle)
      then (invalid_argument, s)
      else if leb (node_child_count p.node s.world) index
      then (invalid_argument, s)
      else (
        ok,
        record s {
          world = node_insert_child p.node c.node index (node_remove_child p.node c.node s.world);
        },
      )

  unfoldable pub move_child : State native → ℕ → ℕ → ℤ → Status × State native
  unfolding move_live
  move_child s parent_handle child_handle (negsuc n) = (invalid_argument, s)
  move_child s parent_handle child_handle (pos index) =
      found (yoga_node_from_handle s.yoga_nodes parent_handle) (stale_handle, s)
        (λ parent.
          found (yoga_node_from_handle s.yoga_nodes child_handle) (stale_handle, s)
            (λ child. move_live s parent_handle parent child index))

  unfoldable pub child_count : State native → ℕ → Status × ℕ
  child_count s handle =
      found (yoga_node_from_handle s.yoga_nodes handle) (stale_handle, 0)
        (λ index. (ok, node_child_count (s.yoga_nodes index).payload.node s.world))
