-- ===== src/Yoga/Agree/Quiet.antt =====
-- The bindings of yoga_stubs.c on one node, against the tree of the layout library.
use opentui_ocaml.Prelude.{ℕ, ◌≡◌, Bool, false, some, ◌==◌, found_rule, if_rule}
use opentui_ocaml.Prelude.Int.{ℤ}
use opentui_ocaml.Status.{Status}
use opentui_ocaml.Yoga.Native.{NativeYoga, Double}
use opentui_ocaml.Yoga.{State, yoga_node_from_handle}
use opentui_ocaml.Yoga.Numbers.{
  in_range, yoga_validate_layout_dimension, yoga_validate_style_value, float_or_nan,
  yoga_valid_enum_value, yoga_valid_value_location,
}
use opentui_ocaml.Yoga.Layout.{
  calculate, mark_dirty, mark_layout_seen, style_set_value, style_set_enum, style_set_float,
  style_set_border, attach_yoga_node, set_measure_func, unset_measure_func,
}
use opentui_ocaml.Yoga.Agree.{
  Tree, IsLibrary, IsQuiet, Agrees, calculates, marks_dirty, sets_has_new_layout, sets_value,
  sets_enum, sets_float, sets_border, sets_measure_func, unsets_measure_func, attaches,
}
use opentui_ocaml.Yoga.Agree.Owner.{named-Live}
use opentui_ocaml.Yoga.Agree.Keep.{AllStay-Agrees}

module _ {native : NativeYoga} (tree : Tree native) (library : IsLibrary tree) (s : State native)
    (a : Agrees tree s) where
  -- A quiet call on the node of a handle.
  quiet-Agrees :
      (h i : ℕ) (w' : native.World)
      → yoga_node_from_handle s.yoga_nodes h ≡ some i
      → IsQuiet native (s.yoga_nodes i).payload.node s.world w'
      → Agrees tree (record s { world = w' })
  quiet-Agrees h i w' names quiet = AllStay-Agrees tree s w' a (
      library.quiet (s.yoga_nodes i).payload.node s.world w'
        (a.existing i (named-Live s.yoga_nodes h i names)) quiet)

  abbrev After : Status × State native → Type 0
  After r = Agrees tree r.1

  pub calculate-Agrees :
      (h : ℕ) (width height : Double) (direction : ℤ)
      → After (calculate native s h width height direction)
  unfolding calculate
  calculate-Agrees h width height direction =
      found_rule After (yoga_node_from_handle s.yoga_nodes h) (λ _. a)
        (λ i names.
          found_rule After (yoga_validate_layout_dimension width) (λ _. a)
            (λ x _.
              found_rule After (yoga_validate_layout_dimension height) (λ _. a)
                (λ y _.
                  if_rule After (in_range 2 direction)
                    (λ _. quiet-Agrees h i _ names (calculates _ _ _)) (λ _. a))))

  pub mark_dirty-Agrees : (h : ℕ) → After (mark_dirty native s h)
  unfolding mark_dirty
  mark_dirty-Agrees h =
      found_rule After (yoga_node_from_handle s.yoga_nodes h) (λ _. a)
        (λ i names.
          if_rule After (s.yoga_nodes i).payload.native_measure_attached
            (λ _. quiet-Agrees h i _ names marks_dirty) (λ _. a))

  pub mark_layout_seen-Agrees : (h : ℕ) → After (mark_layout_seen native s h)
  unfolding mark_layout_seen
  mark_layout_seen-Agrees h =
      found_rule After (yoga_node_from_handle s.yoga_nodes h) (λ _. a)
        (λ i names. quiet-Agrees h i _ names (sets_has_new_layout false))

  pub style_set_value-Agrees :
      (h : ℕ) (kind edge unit : ℤ) (x : Double)
      → After (style_set_value native s h kind edge unit x)
  unfolding style_set_value
  style_set_value-Agrees h kind edge unit x =
      found_rule After (yoga_node_from_handle s.yoga_nodes h) (λ _. a)
        (λ i names.
          if_rule After (yoga_valid_value_location kind edge)
            (λ _.
              found_rule After (yoga_validate_style_value unit x) (λ _. a)
                (λ y _. quiet-Agrees h i _ names (sets_value _ _ _ _)))
            (λ _. a))

  pub style_set_enum-Agrees : (h : ℕ) (kind code : ℤ) → After (style_set_enum native s h kind code)
  unfolding style_set_enum
  style_set_enum-Agrees h kind code =
      found_rule After (yoga_node_from_handle s.yoga_nodes h) (λ _. a)
        (λ i names.
          if_rule After (yoga_valid_enum_value kind code)
            (λ _. quiet-Agrees h i _ names (sets_enum _ _)) (λ _. a))

  pub style_set_float-Agrees :
      (h : ℕ) (kind : ℤ) (x : Double) → After (style_set_float native s h kind x)
  unfolding style_set_float
  style_set_float-Agrees h kind x =
      found_rule After (yoga_node_from_handle s.yoga_nodes h) (λ _. a)
        (λ i names.
          if_rule After (in_range 3 kind)
            (λ _.
              found_rule After (float_or_nan x) (λ _. a)
                (λ y _. quiet-Agrees h i _ names (sets_float _ _)))
            (λ _. a))

  pub style_set_border-Agrees :
      (h : ℕ) (edge : ℤ) (x : Double) → After (style_set_border native s h edge x)
  unfolding style_set_border
  style_set_border-Agrees h edge x =
      found_rule After (yoga_node_from_handle s.yoga_nodes h) (λ _. a)
        (λ i names.
          if_rule After (in_range 8 edge)
            (λ _.
              found_rule After (float_or_nan x) (λ _. a)
                (λ y _. quiet-Agrees h i _ names (sets_border _ _)))
            (λ _. a))

  pub attach_yoga_node-Agrees : (renderable h : ℕ) → After (attach_yoga_node native s renderable h)
  unfolding attach_yoga_node
  attach_yoga_node-Agrees renderable h =
      if_rule After (renderable == 0) (λ _. a)
        (λ _.
          found_rule After (yoga_node_from_handle s.yoga_nodes h) (λ _. a)
            (λ i names.
              let kept = quiet-Agrees h i _ names (attaches renderable) in
              if_rule After
                (native.renderable_attach renderable (s.yoga_nodes i).payload.node s.world).0
                (λ _. kept) (λ _. kept)))

  pub set_measure_func-Agrees :
      (h : ℕ) (enabled : Bool) → Agrees tree (set_measure_func native s h enabled)
  unfolding set_measure_func
  set_measure_func-Agrees h enabled =
      found_rule (Agrees tree) (yoga_node_from_handle s.yoga_nodes h) (λ _. a)
        (λ i names. quiet-Agrees h i _ names (sets_measure_func enabled))

  pub unset_measure_func-Agrees : (h : ℕ) → Agrees tree (unset_measure_func native s h)
  unfolding unset_measure_func
  unset_measure_func-Agrees h =
      found_rule (Agrees tree) (yoga_node_from_handle s.yoga_nodes h) (λ _. a)
        (λ i names. quiet-Agrees h i _ names unsets_measure_func)
