-- ===== src/Yoga/Native.antt =====
-- What yoga_stubs.c calls: the Yoga layout nodes and native renderables behind the declarations of
-- native/opentui_abi.h, and the numbers that cross that boundary. Nothing is assumed of the calls.
use opentui_ocaml.Prelude.{ℕ, Bool}
use opentui_ocaml.Prelude.Int.{ℤ}

-- A double. A finite one is a multiple of 2 ^ -1074, and `finite n` is n of these.
pub data Double : Type 0 where
  nan : Double
  infinite : Bool → Double
  negative_zero : Double
  finite : ℤ → Double

-- `opentui_external_yoga_layout` over the type of the native side's floats
pub record Layout (Single : Type 0) : Type 0 where
  pub left : Single
  pub top : Single
  pub right : Single
  pub bottom : Single
  pub width : Single
  pub height : Single

-- A node is an address, and 0 is NULL. `to_single` is the conversion to `float`.
pub record NativeYoga : Type 1 where
  pub World : Type 0
  pub Single : Type 0
  pub to_single : Double → Single
  pub node_create : World → ℕ × World
  pub node_free : ℕ → World → World
  pub node_free_recursive : ℕ → World → World
  pub node_child_count : ℕ → World → ℕ
  pub node_insert_child : ℕ → ℕ → ℕ → World → World
  pub node_remove_child : ℕ → ℕ → World → World
  pub node_calculate_layout : ℕ → Single → Single → ℕ → World → World
  pub node_is_dirty : ℕ → World → Bool
  pub node_mark_dirty : ℕ → World → World
  pub node_has_new_layout : ℕ → World → Bool
  pub node_set_has_new_layout : ℕ → Bool → World → World
  pub node_style_set_value : ℕ → ℕ → ℕ → ℕ → Single → World → World
  pub node_style_set_enum : ℕ → ℕ → ℕ → World → World
  pub node_style_set_float : ℕ → ℕ → Single → World → World
  pub node_style_set_border : ℕ → ℕ → Single → World → World
  pub node_computed_layout : ℕ → World → Layout Single
  pub node_set_measure_func : ℕ → Bool → World → World
  pub node_unset_measure_func : ℕ → World → World
  pub node_has_measure_func : ℕ → World → Bool
  pub renderable_attach : ℕ → ℕ → World → Bool × World
