-- ===== src/Yoga/Subtree.antt =====
-- The walks of yoga_stubs.c over a subtree: `yoga_release_subtree_slots` and
-- `yoga_subtree_has_native_renderable`, and `free_recursive`, which uses them. The array `pending`
-- of handles is a list with its top first. A walk takes the number of its rounds, and answers
-- `none` when they run out.
pub mod Children
pub mod Walk
pub mod Round
pub mod Release
pub mod Renderable
pub mod Below
pub mod Room
pub mod Exact
pub mod Attached
pub mod Free
pub mod Whole
use opentui_ocaml.Prelude.{
  ℕ, zero, suc, ◌+◌, ◌-◌, Bool, true, false, not, ◌&&◌, ◌||◌, Option, none, some, List, [], ◌∷◌,
  ◌==◌, if◌then◌else◌, found, length,
}
use opentui_ocaml.Status.{Status, ok, invalid_argument, stale_handle}
use opentui_ocaml.Token.{make_token}
use opentui_ocaml.Yoga.Native.{NativeYoga}
use opentui_ocaml.Yoga.{Nodes, State, yoga_node_capacity, yoga_node_from_handle, yoga_release_node}

-- The test of the loop over candidates.
abbrev pub is_child : Nodes → ℕ → ℕ → Bool
is_child t handle index = (t index).alive && (t index).payload.parent_handle == handle

-- `yoga_handle(index, candidate->generation)`
abbrev pub handle_of : Nodes → ℕ → ℕ
handle_of t index = make_token index (t index).generation

-- The loop over candidates, with the rounds left: the children of `handle` go on top of `pending`.
unfoldable pub push_children : ℕ → ℕ → Nodes → ℕ → List ℕ → List ℕ
push_children zero index t handle pending = pending
push_children (suc rounds) index t handle pending =
    push_children rounds (index + 1) t handle
      (if is_child t handle index then handle_of t index ∷ pending else pending)

unfoldable pub release_loop : ℕ → Nodes → List ℕ → Option Nodes
release_loop rounds t [] = some t
release_loop zero t (handle ∷ rest) = none
release_loop (suc rounds) t (handle ∷ rest) =
    release_loop rounds (yoga_release_node t handle)
      (push_children (yoga_node_capacity - 1) 1 t handle rest)

unfoldable pub yoga_release_subtree_slots : Nodes → ℕ → Option Nodes
yoga_release_subtree_slots t root_handle = release_loop yoga_node_capacity t (root_handle ∷ [])

-- The same loop with the test for a full array, `none` where it is met.
unfoldable pub push_children_bounded : ℕ → ℕ → Nodes → ℕ → List ℕ → Option (List ℕ)
push_children_bounded zero index t handle pending = some pending
push_children_bounded (suc rounds) index t handle pending = elim (is_child t handle index) [
  | true ↦ elim (length pending == yoga_node_capacity) [
    | true ↦ none
    | false ↦ push_children_bounded rounds (index + 1) t handle (handle_of t index ∷ pending)
  ]
  | false ↦ push_children_bounded rounds (index + 1) t handle pending
]

unfoldable pub renderable_loop : ℕ → Nodes → List ℕ → Option Bool
renderable_loop rounds t [] = some false
renderable_loop zero t (handle ∷ rest) = none
renderable_loop (suc rounds) t (handle ∷ rest) = elim (yoga_node_from_handle t handle) [
  | none ↦ some true
  | some node ↦ elim (t node).payload.native_renderable_attached [
    | true ↦ some true
    | false ↦ elim (push_children_bounded (yoga_node_capacity - 1) 1 t handle rest) [
      | none ↦ some true
      | some pending ↦ renderable_loop rounds t pending
    ]
  ]
]

unfoldable pub yoga_subtree_has_native_renderable : Nodes → ℕ → Option Bool
yoga_subtree_has_native_renderable t root_handle =
    renderable_loop yoga_node_capacity t (root_handle ∷ [])

module _ (native : NativeYoga) where
  -- What stands for `none` has no counterpart in the code, whose walks have no bound.
  unfoldable pub node_free_recursive_binding : State native → ℕ → Status × State native
  node_free_recursive_binding s handle =
      found (yoga_node_from_handle s.yoga_nodes handle) (stale_handle, s)
        (λ index.
          let fields = (s.yoga_nodes index).payload in
          if fields.native_renderable_attached
            || not (fields.parent_handle == 0)
            || found (yoga_subtree_has_native_renderable s.yoga_nodes handle) true
                (λ answer. answer)
          then (invalid_argument, s)
          else (
            ok,
            record s {
              yoga_nodes =
                  found (yoga_release_subtree_slots s.yoga_nodes handle) s.yoga_nodes (λ t. t);
              world = native.node_free_recursive fields.node s.world;
            },
          ))
