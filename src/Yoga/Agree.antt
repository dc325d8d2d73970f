-- ===== src/Yoga/Agree.antt =====
-- The tree of the layout library against the node table of yoga_stubs.c.
pub mod Owner
pub mod Keep
pub mod Quiet
pub mod Flags
pub mod Links
pub mod Children
pub mod Frees
pub mod Subtrees
pub mod Unused
pub mod Creates
pub mod History
pub mod Tests
use opentui_ocaml.Prelude.{ℕ, suc, Bool, ◌≤◌, ◌<◌, ◌≡◌, ◌≢◌, true, [], found}
use opentui_ocaml.Yoga.Native.{NativeYoga}
use opentui_ocaml.Yoga.{Nodes, State, yoga_node_capacity, yoga_node_from_handle}
use opentui_ocaml.Yoga.Forest.{IsForest}
use opentui_ocaml.Yoga.Subtree.Walk.{Linked}

-- The nodes that the library has allocated and not freed, and the owner of each, 0 for a root.
pub record Tree (native : NativeYoga) : Type 1 where
  pub Exists : ℕ → native.World → Type 0
  pub owner_of : ℕ → native.World → ℕ

-- The calls on a node that leave the tree as it is, from one state to the next.
pub data IsQuiet (native : NativeYoga) (a : ℕ) (w : native.World) : native.World → Type 0 where
  calculates :
      (x y : native.Single) (direction : ℕ)
      → IsQuiet native a w (native.node_calculate_layout a x y direction w)
  marks_dirty : IsQuiet native a w (native.node_mark_dirty a w)
  sets_has_new_layout : (new : Bool) → IsQuiet native a w (native.node_set_has_new_layout a new w)
  sets_value :
      (kind edge unit : ℕ) (x : native.Single)
      → IsQuiet native a w (native.node_style_set_value a kind edge unit x w)
  sets_enum : (kind code : ℕ) → IsQuiet native a w (native.node_style_set_enum a kind code w)
  sets_float :
      (kind : ℕ) (x : native.Single) → IsQuiet native a w (native.node_style_set_float a kind x w)
  sets_border :
      (edge : ℕ) (x : native.Single) → IsQuiet native a w (native.node_style_set_border a edge x w)
  sets_measure_func :
      (enabled : Bool) → IsQuiet native a w (native.node_set_measure_func a enabled w)
  unsets_measure_func : IsQuiet native a w (native.node_unset_measure_func a w)
  attaches : (renderable : ℕ) → IsQuiet native a w (native.renderable_attach renderable a w).1

module _ {native : NativeYoga} (tree : Tree native) where
  open native use {World}
  open tree use {Exists, owner_of}

  -- Following owners from a node meets the node `a`.
  pub data Under (w : World) (a : ℕ) : ℕ → Type 0 where
    itself : Under w a a
    owned : {b : ℕ} → Exists b w → Under w a (owner_of b w) → Under w a b

  -- A node that exists still does, and has its owner still.
  abbrev pub Stays : ℕ → World → World → Type 0
  Stays b w w' = Exists b w' × (owner_of b w' ≡ owner_of b w)

  abbrev pub AllStay : World → World → Type 0
  AllStay w w' = (b : ℕ) → Exists b w → Stays b w w'

  -- What Yoga documents of the calls that change its tree: a new node is a root that did not exist;
  -- freeing a node without children, or a node with those under it, leaves the others; inserting
  -- and removing change the owner of the child; and the other calls leave the tree as it is. Each
  -- is given nodes that exist.
  pub record IsLibrary : Type 0 where
    pub null : (w : World) → Exists 0 w → ⊥
    pub creates : (w : World) → AllStay w (native.node_create w).1
    pub created :
        (w : World)
        → (native.node_create w).0 ≢ 0
        → (Exists (native.node_create w).0 w → ⊥)
          × Exists (native.node_create w).0 (native.node_create w).1
          × (owner_of (native.node_create w).0 (native.node_create w).1 ≡ 0)
    pub counts :
        (a b : ℕ) (w : World)
        → Exists a w
        → Exists b w
        → owner_of b w ≡ a
        → native.node_child_count a w ≢ 0
    pub frees :
        (a : ℕ) (w : World)
        → Exists a w
        → owner_of a w ≡ 0
        → native.node_child_count a w ≡ 0
        → (b : ℕ) → b ≢ a
        → Exists b w
        → Stays b w (native.node_free a w)
    pub frees_recursively :
        (a : ℕ) (w : World)
        → Exists a w
        → owner_of a w ≡ 0
        → (b : ℕ) → (Under w a b → ⊥)
        → Exists b w
        → Stays b w (native.node_free_recursive a w)
    pub inserts :
        (a b index : ℕ) (w : World)
        → Exists a w
        → Exists b w
        → a ≢ b
        → owner_of b w ≡ 0
        → index ≤ native.node_child_count a w
        → (Exists b (native.node_insert_child a b index w)
            × (owner_of b (native.node_insert_child a b index w) ≡ a))
          × ((c : ℕ) → c ≢ b → Exists c w → Stays c w (native.node_insert_child a b index w))
    pub removes :
        (a b : ℕ) (w : World)
        → Exists a w
        → Exists b w
        → owner_of b w ≡ a
        → (Exists b (native.node_remove_child a b w)
            × (owner_of b (native.node_remove_child a b w) ≡ 0))
          × ((c : ℕ) → c ≢ b → Exists c w → Stays c w (native.node_remove_child a b w))
          × (native.node_child_count a w
              ≡ suc (native.node_child_count a (native.node_remove_child a b w)))
    pub quiet : (a : ℕ) (w w' : World) → Exists a w → IsQuiet native a w w' → AllStay w w'

-- The node of a handle, 0 where it names none, and that of the parent of a slot's node.
abbrev pub node_of : Nodes → ℕ → ℕ
node_of t h = found (yoga_node_from_handle t h) 0 (λ j. (t j).payload.node)

abbrev pub owner : Nodes → ℕ → ℕ
owner t i = node_of t (t i).payload.parent_handle

abbrev pub Live : Nodes → ℕ → Type 0
Live t i = (0 < i) × (i < yoga_node_capacity) × ((t i).alive ≡ true)

-- The node of each live slot exists, no two live slots share a node, its owner is the node of its
-- parent, and a parent handle that is not 0 names a live node.
pub record Agrees {native : NativeYoga} (tree : Tree native) (s : State native) : Type 0 where
  pub forest : IsForest s.yoga_nodes
  pub linked : Linked s.yoga_nodes []
  pub existing : (i : ℕ) → Live s.yoga_nodes i → tree.Exists (s.yoga_nodes i).payload.node s.world
  pub distinct :
      (i j : ℕ)
      → Live s.yoga_nodes i
      → Live s.yoga_nodes j
      → (s.yoga_nodes i).payload.node ≡ (s.yoga_nodes j).payload.node
      → i ≡ j
  pub owners :
      (i : ℕ)
      → Live s.yoga_nodes i
      → tree.owner_of (s.yoga_nodes i).payload.node s.world ≡ owner s.yoga_nodes i
