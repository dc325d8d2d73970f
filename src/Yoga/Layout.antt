-- ===== src/Yoga/Layout.antt =====
-- The bindings of yoga_stubs.c on one node: layout, styles, and the flags of native renderables.
use opentui_ocaml.Prelude.{
  ℕ, Bool, true, false, not, ◌&&◌, Option, none, some, ◌==◌, if◌then◌else◌, found,
}
use opentui_ocaml.Prelude.Int.{ℤ}
use opentui_ocaml.Status.{Status, ok, invalid_argument, stale_handle, native_failure}
use opentui_ocaml.Yoga.Native.{Double, Layout, NativeYoga}
use opentui_ocaml.Yoga.{State, yoga_node_from_handle, write_node}
use opentui_ocaml.Yoga.Numbers.{
  in_range, unsigned, yoga_validate_layout_dimension, yoga_validate_style_value, float_or_nan,
  yoga_valid_enum_value, yoga_valid_value_location,
}

module _ (native : NativeYoga) where
  open native use {
    World, Single, to_single, node_calculate_layout, node_is_dirty, node_mark_dirty,
    node_has_new_layout, node_set_has_new_layout, node_style_set_value, node_style_set_enum,
    node_style_set_float, node_style_set_border, node_computed_layout, renderable_attach,
    node_set_measure_func, node_unset_measure_func, node_has_measure_func,
  }

  abbrev address : State native → ℕ → ℕ
  address s index = (s.yoga_nodes index).payload.node

  unfoldable pub calculate : State native → ℕ → Double → Double → ℤ → Status × State native
  calculate s handle width height direction =
      found (yoga_node_from_handle s.yoga_nodes handle) (stale_handle, s)
        (λ index.
          found (yoga_validate_layout_dimension width) (invalid_argument, s)
            (λ w.
              found (yoga_validate_layout_dimension height) (invalid_argument, s)
                (λ h.
                  if in_range 2 direction
                  then (
                    ok,
                    record s {
                      world =
                          node_calculate_layout (address s index) (to_single w) (to_single h)
                            (unsigned direction) s.world;
                    },
                  )
                  else (invalid_argument, s))))

  unfoldable pub is_dirty : State native → ℕ → Status × Bool
  is_dirty s handle =
      found (yoga_node_from_handle s.yoga_nodes handle) (stale_handle, false)
        (λ index. (ok, node_is_dirty (address s index) s.world))

  unfoldable pub mark_dirty : State native → ℕ → Status × State native
  mark_dirty s handle =
      found (yoga_node_from_handle s.yoga_nodes handle) (stale_handle, s)
        (λ index.
          if (s.yoga_nodes index).payload.native_measure_attached
          then (ok, record s { world = node_mark_dirty (address s index) s.world })
          else (invalid_argument, s))

  unfoldable pub has_new_layout : State native → ℕ → Status × Bool
  has_new_layout s handle =
      found (yoga_node_from_handle s.yoga_nodes handle) (stale_handle, false)
        (λ index. (ok, node_has_new_layout (address s index) s.world))

  unfoldable pub mark_layout_seen : State native → ℕ → Status × State native
  mark_layout_seen s handle =
      found (yoga_node_from_handle s.yoga_nodes handle) (stale_handle, s)
        (λ index.
          (ok, record s { world = node_set_has_new_layout (address s index) false s.world }))

  unfoldable pub style_set_value : State native → ℕ → ℤ → ℤ → ℤ → Double → Status × State native
  style_set_value s handle kind edge_or_gutter unit numeric =
      found (yoga_node_from_handle s.yoga_nodes handle) (stale_handle, s)
        (λ index.
          if yoga_valid_value_location kind edge_or_gutter
          then found (yoga_validate_style_value unit numeric) (invalid_argument, s)
              (λ valid. (
                ok,
                record s {
                  world =
                      node_style_set_value (address s index) (unsigned kind)
                        (unsigned edge_or_gutter) (unsigned unit) (to_single valid) s.world;
                },
              ))
          else (invalid_argument, s))

  unfoldable pub style_set_enum : State native → ℕ → ℤ → ℤ → Status × State native
  style_set_enum s handle kind enum_code =
      found (yoga_node_from_handle s.yoga_nodes handle) (stale_handle, s)
        (λ index.
          if yoga_valid_enum_value kind enum_code
          then (
            ok,
            record s {
              world =
                  node_style_set_enum (address s index) (unsigned kind) (unsigned enum_code)
                    s.world;
            },
          )
          else (invalid_argument, s))

  unfoldable pub style_set_float : State native → ℕ → ℤ → Double → Status × State native
  style_set_float s handle kind numeric =
      found (yoga_node_from_handle s.yoga_nodes handle) (stale_handle, s)
        (λ index.
          if in_range 3 kind
          then found (float_or_nan numeric) (invalid_argument, s)
              (λ valid. (
                ok,
                record s {
                  world =
                      node_style_set_float (address s index) (unsigned kind) (to_single valid)
                        s.world;
                },
              ))
          else (invalid_argument, s))

  unfoldable pub style_set_border : State native → ℕ → ℤ → Double → Status × State native
  style_set_border s handle edge numeric =
      found (yoga_node_from_handle s.yoga_nodes handle) (stale_handle, s)
        (λ index.
          if in_range 8 edge
          then found (float_or_nan numeric) (invalid_argument, s)
              (λ valid. (
                ok,
                record s {
                  world =
                      node_style_set_border (address s index) (unsigned edge) (to_single valid)
                        s.world;
                },
              ))
          else (invalid_argument, s))

  unfoldable pub layout : State native → ℕ → Status × Option (Layout Single)
  layout s handle =
      found (yoga_node_from_handle s.yoga_nodes handle) (stale_handle, none)
        (λ index. (ok, some (node_computed_layout (address s index) s.world)))

  unfoldable pub attach_yoga_node : State native → ℕ → ℕ → Status × State native
  attach_yoga_node s renderable handle =
      if renderable == 0
      then (stale_handle, s)
      else found (yoga_node_from_handle s.yoga_nodes handle) (stale_handle, s)
          (λ index.
            let attached = renderable_attach renderable (address s index) s.world in
            let s' = record s { world = attached.1 } in
            if attached.0 then (ok, s') else (native_failure, s'))

  unfoldable pub claim_native_renderable : State native → ℕ → Status × State native
  claim_native_renderable s handle =
      found (yoga_node_from_handle s.yoga_nodes handle) (stale_handle, s)
        (λ index.
          let fields = (s.yoga_nodes index).payload in
          if fields.native_renderable_attached then (invalid_argument, s) else (
            ok,
            record s {
              yoga_nodes =
                  write_node s.yoga_nodes index
                    (record fields { native_renderable_attached = true });
            },
          ))

  unfoldable pub release_native_renderable : State native → ℕ → Status × State native
  release_native_renderable s handle =
      found (yoga_node_from_handle s.yoga_nodes handle) (stale_handle, s)
        (λ index. (
          ok,
          record s {
            yoga_nodes = write_node s.yoga_nodes index (record ((s.yoga_nodes index).payload) {
              native_renderable_attached = false;
              native_measure_attached = false;
            });
          },
        ))

  unfoldable pub set_native_measure_attached : State native → ℕ → Bool → Status × State native
  set_native_measure_attached s handle attached =
      found (yoga_node_from_handle s.yoga_nodes handle) (stale_handle, s)
        (λ index.
          let fields = (s.yoga_nodes index).payload in
          if attached && not fields.native_renderable_attached then (invalid_argument, s) else (
            ok,
            record s {
              yoga_nodes =
                  write_node s.yoga_nodes index
                    (record fields { native_measure_attached = attached });
            },
          ))

  -- The measure function of a live node; a stale handle is ignored.
  unfoldable pub set_measure_func : State native → ℕ → Bool → State native
  set_measure_func s handle enabled =
      found (yoga_node_from_handle s.yoga_nodes handle) s
        (λ index. record s { world = node_set_measure_func (address s index) enabled s.world })

  unfoldable pub unset_measure_func : State native → ℕ → State native
  unset_measure_func s handle =
      found (yoga_node_from_handle s.yoga_nodes handle) s
        (λ index. record s { world = node_unset_measure_func (address s index) s.world })

  unfoldable pub has_measure_func : State native → ℕ → Bool
  has_measure_func s handle =
      found (yoga_node_from_handle s.yoga_nodes handle) false
        (λ index. node_has_measure_func (address s index) s.world)

  -- `opentui_raw_yoga_node_pointer`
  unfoldable pub pointer : State native → ℕ → ℕ
  pointer s handle = found (yoga_node_from_handle s.yoga_nodes handle) 0 (λ index. address s index)
