-- ===== src/Yoga/Steps.antt =====
-- The bindings of yoga_stubs.c, one by one, against the forest of Yoga.Forest.
use native.Mathlib.Decide.{ℕ_discrete}
use opentui_ocaml.Prelude.{
  ℕ, ◌^◌, ◌<◌, ◌≡◌, refl, sym, ap, ◌∙◌, ◌≢◌, ◌⊎◌, inl, inr, Bool, some, arith, ◌==◌, ◌||◌, ◌&&◌,
  not, ltb, if_rule, found_rule,
}
use opentui_ocaml.Prelude.Int.{ℤ, pos, negsuc}
use opentui_ocaml.Status.{Status}
use opentui_ocaml.Token.{token_index}
use opentui_ocaml.Slots.{Slot, release_slot}
use opentui_ocaml.Slots.Laws.{release_slot-IsValid}
use opentui_ocaml.Slots.Fresh.{allocate-IsFresh, allocate_slots}
use opentui_ocaml.Yoga.Native.{NativeYoga, Double}
use opentui_ocaml.Yoga.{
  NodeFields, Nodes, State, no_node, yoga_node_capacity, yoga_allocate_node, yoga_node_from_handle,
  yoga_release_node, write_node, yoga_would_create_cycle,
}
use opentui_ocaml.Yoga.Tree.{
  node_create_binding, node_free_binding, insert_live, insert_child, remove_child, move_child,
}
use opentui_ocaml.Yoga.Layout.{
  calculate, mark_dirty, mark_layout_seen, style_set_value, style_set_enum, style_set_float,
  style_set_border, attach_yoga_node, claim_native_renderable, release_native_renderable,
  set_native_measure_attached,
}
use opentui_ocaml.Yoga.Forest.{IsForest, Covers, set_parent-IsForest, Covers-IsForest}

-- Writing a node's fields, its parent kept or dropped.
pub write_node-IsForest :
    (t : Nodes) (i : ℕ) (fields : NodeFields)
    → (fields.parent_handle ≡ 0) ⊎ (fields.parent_handle ≡ (t i).payload.parent_handle)
    → IsForest t
    → IsForest (write_node t i fields)
write_node-IsForest t i fields parent f =
    Covers-IsForest t (write_node t i fields)
      (λ j. elim parent [ inl root ↦ ground arith | inr same ↦ ground arith ])
      (record {
        small = λ j. ground (arith, f.valid.small i, f.valid.small j);
        used = λ j. ground (arith, f.valid.used i, f.valid.used j);
      })
      f

pub yoga_release_node-IsForest :
    (t : Nodes) (handle : ℕ) → IsForest t → IsForest (yoga_release_node t handle)
unfolding yoga_release_node release_slot
yoga_release_node-IsForest t handle f =
    Covers-IsForest t _ (λ j. released j)
      (release_slot-IsValid yoga_node_capacity (λ _. no_node) t (token_index handle) f.valid) f
  where
    released : Covers t (release_slot (λ _. no_node) t (token_index handle))
    released j = elim (ℕ_discrete (token_index handle) j) [
      | yes same ↦ inl (ground arith)
      | no other ↦ inr (ground arith, (λ live. ground arith), ground arith)
    ]

pub allocate-IsForest :
    (t : Nodes)
    → (yoga_allocate_node t).token ≢ 0
    → IsForest t
    → IsForest (yoga_allocate_node t).table
unfolding yoga_allocate_node
allocate-IsForest t took f =
    let fresh =
      allocate-IsFresh yoga_node_capacity (λ _. no_node) t f.valid (omega arith) (omega arith)
        took in
    Covers-IsForest t _
      (λ i. elim (allocate_slots yoga_node_capacity (λ _. no_node) t (omega arith) i) [
        | inl same ↦ inr (
          ap (λ (x : Slot NodeFields). x.generation) same,
          (λ live. ap (λ (x : Slot NodeFields). x.alive) (sym same) ∙ live),
          ap (λ (x : Slot NodeFields). x.payload.parent_handle) same,
        )
        | inr prepared ↦ inl (ap (λ (x : NodeFields). x.parent_handle) prepared)
      ])
      fresh.valid f

module _ (native : NativeYoga) where
  abbrev ForestAfter {ℓ} : {A : Type ℓ} → A × State native → Type 0
  ForestAfter r = IsForest r.1.yoga_nodes

  abbrev StatusForest : Status × State native → Type 0
  StatusForest r = IsForest r.1.yoga_nodes

  pub node_create_binding-IsForest :
      (s : State native) → IsForest s.yoga_nodes → ForestAfter (node_create_binding native s)
  unfolding node_create_binding
  node_create_binding-IsForest s f =
      if_rule ForestAfter ((yoga_allocate_node s.yoga_nodes).token == 0) (λ _. f)
        (λ took.
          let slot = yoga_allocate_node s.yoga_nodes in
          let made = native.node_create s.world in
          let written =
            write_node-IsForest slot.table slot.index
              (record ((slot.table slot.index).payload) { node = made.0 }) (inr refl)
              (allocate-IsForest s.yoga_nodes (ground arith) f) in
          if_rule ForestAfter (made.0 == 0) (λ _. yoga_release_node-IsForest _ slot.token written)
            (λ _. written))

  pub node_free_binding-IsForest :
      (s : State native) (handle : ℕ)
      → IsForest s.yoga_nodes
      → ForestAfter (node_free_binding native s handle)
  unfolding node_free_binding
  node_free_binding-IsForest s handle f =
      found_rule ForestAfter (yoga_node_from_handle s.yoga_nodes handle) (λ _. f)
        (λ index _.
          if_rule ForestAfter _ (λ _. f) (λ _. yoga_release_node-IsForest s.yoga_nodes handle f))

  pub insert_live-IsForest :
      (s : State native) (p c parent child index : ℕ)
      → p < 2 ^ 32
      → c < 2 ^ 32
      → yoga_node_from_handle s.yoga_nodes c ≡ some child
      → IsForest s.yoga_nodes
      → ForestAfter (insert_live native s p c parent child index)
  unfolding insert_live
  insert_live-IsForest s p c parent child index wp wc names f =
      if_rule StatusForest (s.yoga_nodes parent).payload.native_measure_attached (λ _. f)
        (λ _.
          if_rule StatusForest
            (p == c
              || not ((s.yoga_nodes child).payload.parent_handle == 0)
              || yoga_would_create_cycle s.yoga_nodes p c)
            (λ _. f)
            (λ fine.
              if_rule StatusForest
                (ltb (native.node_child_count (s.yoga_nodes parent).payload.node s.world) index)
                (λ _. f)
                (λ _. set_parent-IsForest s.yoga_nodes c child p f wc wp names (ground arith))))

  pub insert_child-IsForest :
      (s : State native) (p c : ℕ) (index : ℤ)
      → p < 2 ^ 32
      → c < 2 ^ 32
      → IsForest s.yoga_nodes
      → ForestAfter (insert_child native s p c index)
  unfolding insert_child
  insert_child-IsForest s p c (negsuc n) wp wc f = f
  insert_child-IsForest s p c (pos index) wp wc f =
      found_rule ForestAfter (yoga_node_from_handle s.yoga_nodes p) (λ _. f)
        (λ parent _.
          found_rule ForestAfter (yoga_node_from_handle s.yoga_nodes c) (λ _. f)
            (λ child names. insert_live-IsForest s p c parent child index wp wc names f))

  pub remove_child-IsForest :
      (s : State native) (p c : ℕ) → IsForest s.yoga_nodes → ForestAfter (remove_child native s p c)
  unfolding remove_child
  remove_child-IsForest s p c f =
      found_rule ForestAfter (yoga_node_from_handle s.yoga_nodes p) (λ _. f)
        (λ parent _.
          found_rule ForestAfter (yoga_node_from_handle s.yoga_nodes c) (λ _. f)
            (λ child _.
              if_rule ForestAfter _ (λ _. f)
                (λ _.
                  write_node-IsForest s.yoga_nodes child
                    (record ((s.yoga_nodes child).payload) { parent_handle = 0 }) (inl refl) f)))

  -- A binding that does not touch the table.
  abbrev Untouched : State native → Status × State native → Type 0
  Untouched s r = r.1.yoga_nodes ≡ s.yoga_nodes

  pub move_child-yoga_nodes :
      (s : State native) (p c : ℕ) (index : ℤ) → Untouched s (move_child native s p c index)
  unfolding move_child
  move_child-yoga_nodes s p c (negsuc n) = refl
  move_child-yoga_nodes s p c (pos index) = ground arith

  pub layout-yoga_nodes :
      (s : State native) (h : ℕ) (a b : Double) (k l m : ℤ)
      → Untouched s (calculate native s h a b k)
        × Untouched s (mark_dirty native s h)
        × Untouched s (mark_layout_seen native s h)
        × Untouched s (style_set_value native s h k l m a)
        × Untouched s (style_set_enum native s h k l)
        × Untouched s (style_set_float native s h k a)
        × Untouched s (style_set_border native s h k a)
  unfolding calculate mark_dirty mark_layout_seen style_set_value style_set_enum style_set_float
      style_set_border
  layout-yoga_nodes s h a b k l m = (
    ground arith,
    ground arith,
    ground arith,
    ground arith,
    ground arith,
    ground arith,
    ground arith,
  )

  pub attach_yoga_node-yoga_nodes :
      (s : State native) (renderable h : ℕ) → Untouched s (attach_yoga_node native s renderable h)
  unfolding attach_yoga_node
  attach_yoga_node-yoga_nodes s renderable h = ground arith

  pub claim_native_renderable-IsForest :
      (s : State native) (h : ℕ)
      → IsForest s.yoga_nodes
      → StatusForest (claim_native_renderable native s h)
  unfolding claim_native_renderable
  claim_native_renderable-IsForest s h f =
      found_rule StatusForest (yoga_node_from_handle s.yoga_nodes h) (λ _. f)
        (λ i _.
          if_rule StatusForest (s.yoga_nodes i).payload.native_renderable_attached (λ _. f)
            (λ _. write_node-IsForest s.yoga_nodes i _ (inr refl) f))

  pub release_native_renderable-IsForest :
      (s : State native) (h : ℕ)
      → IsForest s.yoga_nodes
      → StatusForest (release_native_renderable native s h)
  unfolding release_native_renderable
  release_native_renderable-IsForest s h f =
      found_rule StatusForest (yoga_node_from_handle s.yoga_nodes h) (λ _. f)
        (λ i _. write_node-IsForest s.yoga_nodes i _ (inr refl) f)

  pub set_native_measure_attached-IsForest :
      (s : State native) (h : ℕ) (attached : Bool)
      → IsForest s.yoga_nodes
      → StatusForest (set_native_measure_attached native s h attached)
  unfolding set_native_measure_attached
  set_native_measure_attached-IsForest s h attached f =
      found_rule StatusForest (yoga_node_from_handle s.yoga_nodes h) (λ _. f)
        (λ i _.
          if_rule StatusForest (attached && not (s.yoga_nodes i).payload.native_renderable_attached)
            (λ _. f) (λ _. write_node-IsForest s.yoga_nodes i _ (inr refl) f))
