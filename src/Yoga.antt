-- ===== src/Yoga.antt =====
-- packages/opentui-raw/yoga_stubs.c: layout nodes behind handles. A handle is a token of the slot
-- table `yoga_nodes`, whose slots remember the handle of their parent.
pub mod Native
pub mod Numbers
pub mod Tree
pub mod Layout
pub mod Forest
pub mod Steps
pub mod Calls
pub mod Measure
pub mod Count
pub mod Cycle
pub mod Subtree
pub mod Insert
pub mod Agree
pub mod Tests
use Native.{NativeYoga}
use opentui_ocaml.Prelude.{
  ℕ, zero, suc, Bool, true, false, Option, none, some, ◌==◌, if◌then◌else◌, found,
}
use opentui_ocaml.Token.{token_index}
use opentui_ocaml.Slots.{Slot, Table, write_slot, from_token, Allocation, allocate, release_slot}

-- OPENTUI_RAW_YOGA_NODE_CAPACITY
abbrev pub yoga_node_capacity : ℕ
yoga_node_capacity = 4096

-- `opentui_raw_yoga_node_slot` without `generation` and `alive`
pub record NodeFields : Type 0 where
  pub native_renderable_attached : Bool
  pub native_measure_attached : Bool
  pub node : ℕ
  pub parent_handle : ℕ

abbrev pub no_node : NodeFields
no_node = record {
  native_renderable_attached = false;
  native_measure_attached = false;
  node = 0;
  parent_handle = 0;
}

abbrev pub Nodes : Type 0
Nodes = Table NodeFields

pub yoga_allocate_node : Nodes → Allocation NodeFields
yoga_allocate_node = allocate yoga_node_capacity (λ _. no_node)

pub yoga_node_from_handle : Nodes → ℕ → Option ℕ
yoga_node_from_handle = from_token yoga_node_capacity

-- The slot at the handle's index, whatever the handle's generation.
pub yoga_release_node : Nodes → ℕ → Nodes
yoga_release_node t handle = release_slot (λ _. no_node) t (token_index handle)

-- `yoga_nodes[index].payload = fields`
abbrev pub write_node : Nodes → ℕ → NodeFields → Nodes
write_node t index fields = write_slot t index (record (t index) { payload = fields })

abbrev pub set_parent : Nodes → ℕ → ℕ → Nodes
set_parent t index parent =
    write_node t index (record ((t index).payload) { parent_handle = parent })

-- The loop of `yoga_would_create_cycle` with the rounds left; `none` when they run out.
unfoldable pub ancestor_loop : ℕ → Nodes → ℕ → ℕ → Option Bool
ancestor_loop zero t child_handle ancestor_handle = none
ancestor_loop (suc rounds) t child_handle ancestor_handle = elim (ancestor_handle == 0) [
  | true ↦ some false
  | false ↦ elim (ancestor_handle == child_handle) [
    | true ↦ some true
    | false ↦ elim (yoga_node_from_handle t ancestor_handle) [
      | none ↦ some true
      | some ancestor ↦ ancestor_loop rounds t child_handle (t ancestor).payload.parent_handle
    ]
  ]
]

-- A chain without cycles climbs over fewer nodes than the loop has rounds.
pub yoga_would_create_cycle : Nodes → ℕ → ℕ → Bool
yoga_would_create_cycle t parent_handle child_handle =
    found (ancestor_loop yoga_node_capacity t child_handle parent_handle) true (λ cycle. cycle)

pub record State (native : NativeYoga) : Type 0 where
  pub yoga_nodes : Nodes
  pub world : native.World
