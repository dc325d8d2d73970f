-- ===== src/Yoga/Agree/Creates.antt =====
-- `opentui_raw_yoga_node_create` of yoga_stubs.c against the tree of the layout library.
use native.Mathlib.Decide.{ℕ_discrete}
use opentui_ocaml.Prelude.{
  ℕ, ◌≡◌, ◌≢◌, refl, sym, ap, ◌∙◌, inl, inr, some, [], arith, ◌==◌, if_rule, subst,
}
use opentui_ocaml.Slots.{Allocation}
use opentui_ocaml.Slots.Fresh.{IsFresh, allocate-IsFresh}
use opentui_ocaml.Status.{Status}
use opentui_ocaml.Yoga.Native.{NativeYoga}
use opentui_ocaml.Yoga.{
  NodeFields, Nodes, State, no_node, yoga_node_capacity, yoga_allocate_node, yoga_node_from_handle,
  yoga_release_node, write_node,
}
use opentui_ocaml.Yoga.Tree.{node_create_binding}
use opentui_ocaml.Yoga.Forest.{IsForest}
use opentui_ocaml.Yoga.Steps.{write_node-IsForest, allocate-IsForest, yoga_release_node-IsForest}
use opentui_ocaml.Yoga.Subtree.Walk.{Linked}
use opentui_ocaml.Yoga.Agree.{Tree, IsLibrary, Agrees, Live, node_of, owner}
use opentui_ocaml.Yoga.Agree.Owner.{node_of_zero, Shrinks, same_slot}
use opentui_ocaml.Yoga.Agree.Keep.{Shrinks-Agrees}
use opentui_ocaml.Yoga.Agree.Flags.{write_node-names}
use opentui_ocaml.Yoga.Agree.Frees.{kept_slot, kept_ne}
use opentui_ocaml.Yoga.Agree.Unused.{
  was_there, node_before, linked_after, owner_after, allocated_elsewhere,
}

module _ {native : NativeYoga} (tree : Tree native) (library : IsLibrary tree) (s : State native)
    (a : Agrees tree s) (took : (yoga_allocate_node s.yoga_nodes).token ≢ 0) where
  abbrev t : Nodes
  t = s.yoga_nodes

  abbrev slot : Allocation NodeFields
  slot = yoga_allocate_node t

  abbrev k : ℕ
  k = slot.index

  abbrev made : ℕ × native.World
  made = native.node_create s.world

  -- The table with the new node in the slot that is handed out.
  abbrev written : Nodes
  written =
      write_node slot.table slot.index (record ((slot.table slot.index).payload) { node = made.0 })

  fresh : IsFresh yoga_node_capacity (λ _. no_node) t slot
  unfolding yoga_allocate_node
  fresh =
      allocate-IsFresh yoga_node_capacity (λ _. no_node) t a.forest.valid (omega arith)
        (omega arith) took

  written_elsewhere : (i : ℕ) → k ≢ i → written i ≡ t i
  written_elsewhere i ne = ground (arith, allocated_elsewhere t i ne)

  written_node : (written k).payload.node ≡ made.0
  written_node = ground arith

  written_root : (written k).payload.parent_handle ≡ 0
  written_root =
      let same : (written k).payload.parent_handle ≡ (slot.table k).payload.parent_handle =
        ground arith in
      same ∙ ap (λ x. x.parent_handle) fresh.prepared

  written-IsForest : IsForest written
  written-IsForest =
      write_node-IsForest slot.table slot.index _ (inr refl) (allocate-IsForest t took a.forest)

  node_elsewhere : (i : ℕ) → k ≢ i → (written i).payload.node ≡ (t i).payload.node
  node_elsewhere = node_before t written k fresh.free written_elsewhere a.linked

  old_there : (i : ℕ) → k ≢ i → Live written i → Live t i
  old_there = was_there t written k fresh.free written_elsewhere a.linked

  written_here : (i : ℕ) → k ≡ i → (written i).payload.node ≡ made.0
  written_here i here = ap (λ j. (written j).payload.node) (sym here) ∙ written_node

  -- The new node is not that of another slot.
  new_apart : made.0 ≢ 0 → (i : ℕ) → k ≢ i → Live written i → (written i).payload.node ≢ made.0
  new_apart there i ne live same = (library.created s.world there).0 (
      subst (λ n. tree.Exists n s.world) (sym (node_elsewhere i ne) ∙ same)
        (a.existing i (old_there i ne live)))

  created-distinct :
      made.0 ≢ 0
      → (i j : ℕ) → Live written i
      → Live written j
      → (written i).payload.node ≡ (written j).payload.node
      → i ≡ j
  created-distinct there i j x y same = elim (ℕ_discrete k i) [
    | yes i_new ↦ elim (ℕ_discrete k j) [
      | yes j_new ↦ sym i_new ∙ j_new
      | no j_old ↦ absurd (new_apart there j j_old y (sym same ∙ written_here i i_new))
    ]
    | no i_old ↦ elim (ℕ_discrete k j) [
      | yes j_new ↦ absurd (new_apart there i i_old x (same ∙ written_here j j_new))
      | no j_old ↦
          a.distinct i j (old_there i i_old x) (old_there j j_old y)
            (sym (node_elsewhere i i_old) ∙ same ∙ node_elsewhere j j_old)
    ]
  ]

  created-owners :
      made.0 ≢ 0
      → (i : ℕ) → Live written i
      → tree.owner_of (written i).payload.node made.1 ≡ owner written i
  created-owners there i live = elim (ℕ_discrete k i) [
    | yes here ↦
        ap (λ n. tree.owner_of n made.1) (written_here i here)
        ∙ (library.created s.world there).2
        ∙ sym (
            ap (node_of written)
              (ap (λ j. (written j).payload.parent_handle) (sym here) ∙ written_root)
            ∙ node_of_zero written)
    | no other ↦
        let before = old_there i other live in
        ap (λ n. tree.owner_of n made.1) (node_elsewhere i other)
        ∙ (library.creates s.world (t i).payload.node (a.existing i before)).1
        ∙ a.owners i before
        ∙ sym (owner_after t written k fresh.free written_elsewhere a.linked i before)
  ]

  created-Agrees : made.0 ≢ 0 → Agrees tree (record s { yoga_nodes = written; world = made.1 })
  created-Agrees there =
      let new = library.created s.world there in
      record {
        forest = written-IsForest;
        linked = λ i p q live. elim (ℕ_discrete k i) [
          | yes here ↦ inl (ap (λ j. (written j).payload.parent_handle) (sym here) ∙ written_root)
          | no other ↦
              elim (linked_after t written k fresh.free written_elsewhere a.linked i other
                (p, q, live)) [ inl root ↦ inl root | inr named ↦ inr (inl named) ]
        ];
        existing = λ i live. elim (ℕ_discrete k i) [
          | yes here ↦ subst (λ n. tree.Exists n made.1) (sym (written_here i here)) new.1
          | no other ↦
              subst (λ n. tree.Exists n made.1) (sym (node_elsewhere i other))
                (library.creates s.world (t i).payload.node
                  (a.existing i (old_there i other live))).0
        ];
        distinct = created-distinct there;
        owners = created-owners there;
      }

  token_names : yoga_node_from_handle written slot.token ≡ some k
  unfolding yoga_node_from_handle
  token_names = write_node-names slot.table slot.index _ slot.token ∙ fresh.names

  abbrev undone : Nodes
  undone = yoga_release_node written slot.token

  undone_elsewhere : (i : ℕ) → k ≢ i → undone i ≡ t i
  undone_elsewhere i ne = kept_slot written slot.token k token_names i ne ∙ written_elsewhere i ne

  undone-Linked : Linked undone []
  undone-Linked i p q live =
      elim (linked_after t undone k fresh.free undone_elsewhere a.linked i
        (kept_ne written slot.token k token_names i (p, q, live)) (p, q, live)) [
          | inl root ↦ inl root
          | inr named ↦ inr (inl named)
        ]

  undone-Shrinks : Shrinks t undone
  undone-Shrinks i live =
      same_slot t undone i (undone_elsewhere i (kept_ne written slot.token k token_names i live))
        live

  -- Where the library makes no node, the slot is given back.
  undone-Agrees : Agrees tree (record s { yoga_nodes = undone; world = made.1 })
  undone-Agrees =
      Shrinks-Agrees tree s _ a (yoga_release_node-IsForest written slot.token written-IsForest)
        undone-Linked undone-Shrinks
        (λ i live.
          library.creates s.world (t i).payload.node (a.existing i (undone-Shrinks i live).0))

module _ {native : NativeYoga} (tree : Tree native) (library : IsLibrary tree) (s : State native)
    (a : Agrees tree s) where
  pub node_create_binding-Agrees : Agrees tree (node_create_binding native s).1
  unfolding node_create_binding
  node_create_binding-Agrees =
      if_rule (λ (r : (Status × ℕ) × State native). Agrees tree r.1)
        ((yoga_allocate_node s.yoga_nodes).token == 0) (λ _. a)
        (λ took.
          if_rule (λ (r : (Status × ℕ) × State native). Agrees tree r.1)
            ((native.node_create s.world).0 == 0)
            (λ _. undone-Agrees tree library s a (ground (arith, took)))
            (λ there.
              created-Agrees tree library s a (ground (arith, took)) (ground (arith, there))))
