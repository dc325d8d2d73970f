-- ===== src/Yoga/Calls.antt =====
-- Histories of the bindings of yoga_stubs.c.
use opentui_ocaml.Prelude.{ℕ, ◌≡◌, true, inl, inr, ◌^◌, ◌<◌, Bool, List, [], ◌∷◌, arith}
use opentui_ocaml.Prelude.Int.{ℤ, pos}
use opentui_ocaml.Slots.{zeroed, from_token}
use opentui_ocaml.Status.{ok_cases}
use opentui_ocaml.Yoga.Subtree.{node_free_recursive_binding}
use opentui_ocaml.Yoga.Subtree.Free.{node_free_recursive_binding-FreeCase}
use opentui_ocaml.Yoga.Native.{NativeYoga, Double, nan}
use opentui_ocaml.Yoga.{State, no_node, yoga_node_from_handle}
use opentui_ocaml.Yoga.Tree.{
  node_create_binding, node_free_binding, insert_child, remove_child, move_child,
}
use opentui_ocaml.Yoga.Layout.{
  calculate, mark_dirty, mark_layout_seen, style_set_value, style_set_enum, style_set_float,
  style_set_border, attach_yoga_node, claim_native_renderable, release_native_renderable,
  set_native_measure_attached, set_measure_func, unset_measure_func,
}
use opentui_ocaml.Yoga.Forest.{ends, IsForest}
use opentui_ocaml.Yoga.Steps.{
  node_create_binding-IsForest, node_free_binding-IsForest, insert_child-IsForest,
  remove_child-IsForest, move_child-yoga_nodes, layout-yoga_nodes, attach_yoga_node-yoga_nodes,
  claim_native_renderable-IsForest, release_native_renderable-IsForest,
  set_native_measure_attached-IsForest,
}

-- The bindings with their arguments.
pub data Call : Type 0 where
  creates : Call
  frees : ℕ → Call
  frees_recursively : ℕ → Call
  inserts : ℕ → ℕ → ℤ → Call
  removes : ℕ → ℕ → Call
  moves : ℕ → ℕ → ℤ → Call
  calculates : ℕ → Double → Double → ℤ → Call
  marks_dirty : ℕ → Call
  marks_layout_seen : ℕ → Call
  sets_value : ℕ → ℤ → ℤ → ℤ → Double → Call
  sets_enum : ℕ → ℤ → ℤ → Call
  sets_float : ℕ → ℤ → Double → Call
  sets_border : ℕ → ℤ → Double → Call
  attaches : ℕ → ℕ → Call
  claims : ℕ → Call
  releases : ℕ → Call
  sets_measure_attached : ℕ → Bool → Call
  sets_measure_func : ℕ → Bool → Call
  unsets_measure_func : ℕ → Call

-- The handles that an insertion stores, and the root that a walk starts from, are `int32` bit
-- patterns.
abbrev pub IsWord : Call → Type 0
IsWord (inserts parent child index) = (parent < 2 ^ 32) × (child < 2 ^ 32)
IsWord (frees_recursively handle) = handle < 2 ^ 32
IsWord _ = Unit {0}

abbrev pub AllWords : List Call → Type 0
AllWords [] = Unit {0}
AllWords (c ∷ cs) = IsWord c × AllWords cs

module _ (native : NativeYoga) where
  unfoldable pub perform : State native → Call → State native
  perform s creates = (node_create_binding native s).1
  perform s (frees h) = (node_free_binding native s h).1
  perform s (frees_recursively h) = (node_free_recursive_binding native s h).1
  perform s (sets_measure_func h enabled) = set_measure_func native s h enabled
  perform s (unsets_measure_func h) = unset_measure_func native s h
  perform s (inserts p c index) = (insert_child native s p c index).1
  perform s (removes p c) = (remove_child native s p c).1
  perform s (moves p c index) = (move_child native s p c index).1
  perform s (calculates h width height direction) = (calculate native s h width height direction).1
  perform s (marks_dirty h) = (mark_dirty native s h).1
  perform s (marks_layout_seen h) = (mark_layout_seen native s h).1
  perform s (sets_value h kind edge unit x) = (style_set_value native s h kind edge unit x).1
  perform s (sets_enum h kind code) = (style_set_enum native s h kind code).1
  perform s (sets_float h kind x) = (style_set_float native s h kind x).1
  perform s (sets_border h edge x) = (style_set_border native s h edge x).1
  perform s (attaches renderable h) = (attach_yoga_node native s renderable h).1
  perform s (claims h) = (claim_native_renderable native s h).1
  perform s (releases h) = (release_native_renderable native s h).1
  perform s (sets_measure_attached h attached) = (set_native_measure_attached native s h attached).1

  unfoldable pub run : State native → List Call → State native
  unfolding perform
  run s [] = s
  run s (c ∷ cs) = run (perform s c) cs

  node_free_recursive_binding-IsForest :
      (s : State native) (h : ℕ)
      → IsForest s.yoga_nodes
      → h < 2 ^ 32
      → IsForest (node_free_recursive_binding native s h).1.yoga_nodes
  node_free_recursive_binding-IsForest s h f word =
      let freed = node_free_recursive_binding-FreeCase native s h f word in
      elim (ok_cases (node_free_recursive_binding native s h).0) [
        | inl success ↦ (freed.0 success).2
        | inr failure ↦ rw (freed.1 failure) f
      ]

  measure_func-yoga_nodes :
      (s : State native) (h : ℕ) (enabled : Bool)
      → ((set_measure_func native s h enabled).yoga_nodes ≡ s.yoga_nodes)
        × ((unset_measure_func native s h).yoga_nodes ≡ s.yoga_nodes)
  unfolding set_measure_func unset_measure_func
  measure_func-yoga_nodes s h enabled = (ground arith, ground arith)

  perform-IsForest :
      (s : State native) (c : Call)
      → IsWord c
      → IsForest s.yoga_nodes
      → IsForest (perform s c).yoga_nodes
  unfolding perform
  perform-IsForest s creates w f = node_create_binding-IsForest native s f
  perform-IsForest s (frees h) w f = node_free_binding-IsForest native s h f
  perform-IsForest s (frees_recursively h) w f = node_free_recursive_binding-IsForest s h f w
  perform-IsForest s (sets_measure_func h enabled) w f =
      rw (measure_func-yoga_nodes s h enabled).0 f
  perform-IsForest s (unsets_measure_func h) w f = rw (measure_func-yoga_nodes s h true).1 f
  perform-IsForest s (inserts p c index) w f = insert_child-IsForest native s p c index w.0 w.1 f
  perform-IsForest s (removes p c) w f = remove_child-IsForest native s p c f
  perform-IsForest s (moves p c index) w f = rw (move_child-yoga_nodes native s p c index) f
  perform-IsForest s (calculates h a b k) w f = rw (layout-yoga_nodes native s h a b k k k).0 f
  perform-IsForest s (marks_dirty h) w f =
      rw (layout-yoga_nodes native s h nan nan (pos 0) (pos 0) (pos 0)).1 f
  perform-IsForest s (marks_layout_seen h) w f =
      rw (layout-yoga_nodes native s h nan nan (pos 0) (pos 0) (pos 0)).2 f
  perform-IsForest s (sets_value h k l m a) w f = rw (layout-yoga_nodes native s h a a k l m).3 f
  perform-IsForest s (sets_enum h k l) w f = rw (layout-yoga_nodes native s h nan nan k l l).4 f
  perform-IsForest s (sets_float h k a) w f = rw (layout-yoga_nodes native s h a a k k k).5 f
  perform-IsForest s (sets_border h k a) w f = rw (layout-yoga_nodes native s h a a k k k).6 f
  perform-IsForest s (attaches renderable h) w f =
      rw (attach_yoga_node-yoga_nodes native s renderable h) f
  perform-IsForest s (claims h) w f = claim_native_renderable-IsForest native s h f
  perform-IsForest s (releases h) w f = release_native_renderable-IsForest native s h f
  perform-IsForest s (sets_measure_attached h attached) w f =
      set_native_measure_attached-IsForest native s h attached f

  run-IsForest :
      (cs : List Call) (s : State native)
      → AllWords cs
      → IsForest s.yoga_nodes
      → IsForest (run s cs).yoga_nodes
  unfolding run
  run-IsForest [] s w f = f
  run-IsForest (c ∷ cs) s w f = run-IsForest cs (perform s c) w.1 (perform-IsForest s c w.0 f)

  abbrev pub initial : native.World → State native
  initial w = record { yoga_nodes = zeroed no_node; world = w }

  initial-IsForest : (w : native.World) → IsForest (initial w).yoga_nodes
  unfolding yoga_node_from_handle from_token
  initial-IsForest w = record {
    valid = record { small = λ i. omega arith; used = λ i e. cc };
    words = λ i. omega arith;
    rooted = λ h. ends (ground arith);
  }

  -- After any history of the bindings that create, free, link and configure nodes, from the zeroed
  -- table, with 32-bit handles and whatever the layout library answers, the parent handles have no
  -- cycle: following them from any handle ends.
  pub run-initial-IsForest :
      (w : native.World) (cs : List Call) → AllWords cs → IsForest (run (initial w) cs).yoga_nodes
  run-initial-IsForest w cs words = run-IsForest cs (initial w) words (initial-IsForest w)
