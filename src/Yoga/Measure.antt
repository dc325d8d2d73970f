-- ===== src/Yoga/Measure.antt =====
-- packages/opentui-raw/yoga_stubs.c, the measure callback: one OCaml closure, which the layout
-- library reaches through `raw_yoga_measure_callback`.
pub mod Refines
pub mod Tests
use opentui_ocaml.Prelude.{
  ℕ, zero, suc, Bool, true, false, Option, none, some, List, [], ◌∷◌, ◌&&◌, ◌==◌, if◌then◌else◌,
  found,
}
use opentui_ocaml.Yoga.Native.{Double, nan}
use opentui_ocaml.Values.{Value, long, block, nil, cons, has_fields, field, double_val}

-- What the callback is asked, and what the closure is given; the modes are `int32` bit patterns.
pub record Question (Number : Type 0) : Type 0 where
  pub node : ℕ
  pub width : Number
  pub width_mode : ℕ
  pub height : Number
  pub height_mode : ℕ

-- What a closure does with the registration while it runs.
pub data Change (Closure : Type 0) : Type 0 where
  sets : Closure → Change Closure
  clears : Change Closure

-- The layout library, the conversions between `float` and `double`, and the OCaml closures. A
-- closure answers a value, or none when it raises. `set_callback` is told whether it gets the
-- address of `raw_yoga_measure_callback` or NULL.
pub record NativeMeasure : Type 1 where
  pub World : Type 0
  pub Single : Type 0
  pub Closure : Type 0
  pub to_single : Double → Single
  pub to_double : Single → Double
  pub set_callback : Bool → World → World
  pub store_measure_result : Single → Single → World → World
  pub apply : Closure → Question Double → World → (Option Value × List (Change Closure)) × World

module _ (native : NativeMeasure) where
  open native use {
    World, Single, Closure, to_single, to_double, set_callback, store_measure_result, apply,
  }

  -- `yoga_measure_callback` with none for `Val_unit`, `yoga_measure_callback_registered`, and
  -- whether the address of the first is among the global roots of the OCaml heap.
  pub record Registration : Type 0 where
    pub yoga_measure_callback : Option Closure
    pub yoga_measure_callback_registered : Bool
    pub rooted : Bool
    pub world : World

  -- `if (registered) { caml_remove_global_root(...); registered = false; }`
  unfoldable pub unregister : Registration → Registration
  unregister s =
      if s.yoga_measure_callback_registered
      then record s { rooted = false; yoga_measure_callback_registered = false }
      else s

  unfoldable pub set_measure_callback : Registration → Closure → Registration
  unfolding unregister
  set_measure_callback s callback =
      let gone = unregister s in
      record gone {
        yoga_measure_callback = some callback;
        rooted = true;
        yoga_measure_callback_registered = true;
        world = set_callback true gone.world;
      }

  unfoldable pub clear_measure_callback : Registration → Registration
  unfolding unregister
  clear_measure_callback s = record (unregister (record s { world = set_callback false s.world })) {
    yoga_measure_callback = none;
  }

  unfoldable pub change : Registration → Change Closure → Registration
  change s (sets callback) = set_measure_callback s callback
  change s clears = clear_measure_callback s

  unfoldable pub change_all : Registration → List (Change Closure) → Registration
  change_all s [] = s
  change_all s (c ∷ cs) = change_all (change s c) cs

  -- The two numbers of the closure's result, or NAN twice.
  unfoldable pub measured : Option Value → Single × Single
  measured none = (to_single nan, to_single nan)
  measured (some result) =
      if has_fields result 2
      then found (double_val (field result 0)) (to_single nan, to_single nan)
          (λ width.
            found (double_val (field result 1)) (to_single nan, to_single nan)
              (λ height. (to_single width, to_single height)))
      else (to_single nan, to_single nan)

  abbrev pub store : Single × Single → Registration → Registration
  store size s = record s { world = store_measure_result size.0 size.1 s.world }

  -- The tuple that the closure is given.
  abbrev pub in_doubles : Question Single → Question Double
  in_doubles q = record {
    node = q.node;
    width = to_double q.width;
    width_mode = q.width_mode;
    height = to_double q.height;
    height_mode = q.height_mode;
  }

  -- `caml_callback_exn(yoga_measure_callback, arguments)`, where `Val_unit` is no closure.
  unfoldable pub call_closure : Option Closure → Question Single → Registration → Registration
  unfolding change_all measured
  call_closure none q s = store (to_single nan, to_single nan) s
  call_closure (some closure) q s =
      let answer = apply closure (in_doubles q) s.world in
      store (measured answer.0.0) (change_all (record s { world = answer.1 }) answer.0.1)

  unfoldable pub raw_yoga_measure_callback : Registration → Question Single → Registration
  unfolding call_closure
  raw_yoga_measure_callback s q =
      if s.yoga_measure_callback_registered
      then call_closure s.yoga_measure_callback q s
      else store (to_single nan, to_single nan) s

  -- A binding, or a measurement that the layout library asks for.
  pub data Event : Type 0 where
    changes : Change Closure → Event
    measures : Question Single → Event

  unfoldable pub occur : Registration → Event → Registration
  unfolding change raw_yoga_measure_callback
  occur s (changes c) = change s c
  occur s (measures q) = raw_yoga_measure_callback s q

  unfoldable pub occur_all : Registration → List Event → Registration
  unfolding occur
  occur_all s [] = s
  occur_all s (e ∷ es) = occur_all (occur s e) es

  abbrev pub unregistered : World → Registration
  unregistered w = record {
    yoga_measure_callback = none;
    yoga_measure_callback_registered = false;
    rooted = false;
    world = w;
  }
