-- ===== src/Yoga/Measure/Tests.antt =====
-- Two closures measure in turn.
use opentui_ocaml.Prelude.{◌≡◌, refl, Option, none, some, List, [], ◌∷◌}
use opentui_ocaml.Prelude.Int.{pos}
use opentui_ocaml.Yoga.Native.{Double, nan, finite}
use opentui_ocaml.Values.{Value, block, nil, cons, double}
use opentui_ocaml.Yoga.Measure.{
  Question, Change, sets, clears, NativeMeasure, Event, changes, measures, occur_all, unregistered,
}
use opentui_ocaml.Yoga.Measure.Refines.{happen_all, registration, occur_all-happen_all}

data Kind : Type 0 where
  rectangle raising resigning : Kind

abbrev pair : Double → Double → Option Value
pair x y = some (block 0 (cons (double x) (cons (double y) nil)))

abbrev answer : Kind → Question Double → Option Value × List (Change Kind)
answer rectangle q = (pair q.width q.height, [])
answer raising q = (none, [])
answer resigning q = (pair q.height q.height, clears ∷ [])

-- The native side keeps the sizes that were stored.
abbrev side : NativeMeasure
side = record {
  World = List (Double × Double);
  Single = Double;
  Closure = Kind;
  to_single = λ d. d;
  to_double = λ d. d;
  set_callback = λ present w. w;
  store_measure_result = λ width height w. (width, height) ∷ w;
  apply = λ closure q w. (answer closure q, w);
}

abbrev question : Question Double
question = record {
  node = 9;
  width = finite (pos 3);
  width_mode = 1;
  height = finite (pos 5);
  height_mode = 2;
}

-- A measurement without a closure, one by each of three, and one after the third has resigned.
abbrev session : List (Event side)
session =
    measures question
    ∷ changes (sets rectangle)
    ∷ measures question
    ∷ changes (sets raising)
    ∷ measures question
    ∷ changes (sets resigning)
    ∷ measures question
    ∷ measures question
    ∷ []

sizes_stored : happen_all side (none, []) session ≡ (
  none,
  (nan, nan)
      ∷ (finite (pos 5), finite (pos 5))
      ∷ (nan, nan)
      ∷ (finite (pos 3), finite (pos 5))
      ∷ (nan, nan)
      ∷ [],
)
sizes_stored = refl

start_unregistered : unregistered side [] ≡ registration side (none, [])
start_unregistered = refl

occur_all-happen_all_example :
    occur_all side (registration side (none, [])) session
    ≡ registration side (happen_all side (none, []) session)
occur_all-happen_all_example = occur_all-happen_all side session (none, [])
