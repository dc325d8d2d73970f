-- ===== src/Yoga/Measure/Refines.antt =====
-- The registration of yoga_stubs.c is a closure that may be missing.
use opentui_ocaml.Prelude.{
  ◌≡◌, refl, ap, ◌∙◌, Bool, true, false, Option, none, some, List, [], ◌∷◌, arith, found,
}
use opentui_ocaml.Yoga.Native.{nan}
use opentui_ocaml.Values.{
  Value, long, block, string, custom, double, double_array, nil, cons, double_val,
}
use opentui_ocaml.Yoga.Measure.{
  in_doubles, Change, sets, clears, NativeMeasure, Registration, store, unregister,
  set_measure_callback, clear_measure_callback, change, change_all, measured, call_closure,
  raw_yoga_measure_callback, Event, changes, measures, occur, occur_all,
}

module _ (native : NativeMeasure) where
  open native use {
    World, Single, Closure, to_single, to_double, set_callback, store_measure_result, apply,
  }

  abbrev pub no_size : Single × Single
  no_size = (to_single nan, to_single nan)

  abbrev pub sizes_of : Value → Value → Single × Single
  sizes_of (double width) (double height) = (to_single width, to_single height)
  sizes_of _ _ = no_size

  -- A pair of floats counts, and anything else is two NaNs.
  abbrev pub size_of : Option Value → Single × Single
  size_of (some (block tag (cons width (cons height nil)))) = sizes_of width height
  size_of _ = no_size

  -- The closure in charge, and the state of the native side.
  abbrev pub Charge : Type 0
  Charge = Option Closure × World

  abbrev pub take_over : Charge → Change Closure → Charge
  take_over (current, w) (sets closure) = (some closure, set_callback true w)
  take_over (current, w) clears = (none, set_callback false w)

  abbrev pub take_over_all : Charge → List (Change Closure) → Charge
  take_over_all c [] = c
  take_over_all c (d ∷ ds) = take_over_all (take_over c d) ds

  abbrev pub stored : Single × Single → Charge → Charge
  stored size (current, w) = (current, store_measure_result size.0 size.1 w)

  -- The closure in charge measures; the result is stored after what it did to the registration.
  abbrev pub happen : Charge → Event native → Charge
  happen c (changes d) = take_over c d
  happen (none, w) (measures q) = stored (to_single nan, to_single nan) (none, w)
  happen (some closure, w) (measures q) =
      let answer = apply closure (in_doubles native q) w in
      stored (size_of answer.0.0) (take_over_all (some closure, answer.1) answer.0.1)

  abbrev pub happen_all : Charge → List (Event native) → Charge
  happen_all c [] = c
  happen_all c (e ∷ es) = happen_all (happen c e) es

  -- The registration of a closure that may be missing.
  abbrev pub kept : Option Closure → Bool
  kept none = false
  kept (some closure) = true

  abbrev pub registration : Charge → Registration native
  registration (current, w) = record {
    yoga_measure_callback = current;
    yoga_measure_callback_registered = kept current;
    rooted = kept current;
    world = w;
  }

  two_numbers :
      (a b : Value)
      → found
          (double_val a)
          (to_single nan, to_single nan)
          (λ width.
            found
              (double_val b)
              (to_single nan, to_single nan)
              (λ height. (to_single width, to_single height)))
        ≡ sizes_of a b
  two_numbers (double x) (double y) = refl
  two_numbers (double x) (long n) = refl
  two_numbers (double x) (block t fields) = refl
  two_numbers (double x) (string bytes) = refl
  two_numbers (double x) (custom n) = refl
  two_numbers (double x) (double_array ds) = refl
  two_numbers (long n) b = refl
  two_numbers (block t fields) b = refl
  two_numbers (string bytes) b = refl
  two_numbers (custom n) b = refl
  two_numbers (double_array ds) b = refl

  measured-size_of : (v : Option Value) → measured native v ≡ size_of v
  unfolding measured
  measured-size_of none = refl
  measured-size_of (some (long n)) = refl
  measured-size_of (some (string bytes)) = refl
  measured-size_of (some (custom n)) = refl
  measured-size_of (some (double d)) = refl
  measured-size_of (some (double_array ds)) = refl
  measured-size_of (some (block tag nil)) = refl
  measured-size_of (some (block tag (cons a nil))) = refl
  measured-size_of (some (block tag (cons a (cons b nil)))) = two_numbers a b
  measured-size_of (some (block tag (cons a (cons b (cons c fields))))) = ground arith

  change-take_over :
      (c : Charge) (d : Change Closure)
      → change native (registration c) d ≡ registration (take_over c d)
  unfolding change set_measure_callback clear_measure_callback unregister
  change-take_over (none, w) (sets closure) = refl
  change-take_over (some old, w) (sets closure) = refl
  change-take_over (none, w) clears = refl
  change-take_over (some old, w) clears = refl

  change_all-take_over_all :
      (ds : List (Change Closure)) (c : Charge)
      → change_all native (registration c) ds ≡ registration (take_over_all c ds)
  unfolding change_all
  change_all-take_over_all [] c = refl
  change_all-take_over_all (d ∷ ds) c =
      ap (λ s. change_all native s ds) (change-take_over c d)
      ∙ change_all-take_over_all ds (take_over c d)

  store-stored :
      (v : Option Value) (ds : List (Change Closure)) (c : Charge)
      → store native (measured native v) (change_all native (registration c) ds)
        ≡ registration (stored (size_of v) (take_over_all c ds))
  store-stored v ds c =
      ap (λ size. store native size (change_all native (registration c) ds)) (measured-size_of v)
      ∙ ap (store native (size_of v)) (change_all-take_over_all ds c)

  occur-happen :
      (c : Charge) (e : Event native) → occur native (registration c) e ≡ registration (happen c e)
  unfolding occur raw_yoga_measure_callback call_closure
  occur-happen c (changes d) = change-take_over c d
  occur-happen (none, w) (measures q) = refl
  occur-happen (some closure, w) (measures q) =
      let answer = apply closure (in_doubles native q) w in
      store-stored answer.0.0 answer.0.1 (some closure, answer.1)

  -- From a registration that holds the closure in charge, whatever the bindings and the layout
  -- library do, the registration holds the closure in charge afterwards: the one that was set last
  -- and not cleared since, or none; it counts as registered, and is a root of the OCaml heap,
  -- exactly while there is one; and each measurement has stored what that closure answers, or NAN
  -- twice where there is none, it raises, or its result is not a pair of numbers.
  pub occur_all-happen_all :
      (es : List (Event native)) (c : Charge)
      → occur_all native (registration c) es ≡ registration (happen_all c es)
  unfolding occur_all
  occur_all-happen_all [] c = refl
  occur_all-happen_all (e ∷ es) c =
      ap (λ s. occur_all native s es) (occur-happen c e) ∙ occur_all-happen_all es (happen c e)
