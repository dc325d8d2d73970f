-- ===== src/Yoga/Numbers.antt =====
-- The checks of yoga_stubs.c on numbers that come from OCaml: `yoga_validate_*` and `yoga_valid_*`.
use opentui_ocaml.Prelude.{
  ℕ, suc, ◌-◌, ◌*◌, ◌^◌, Bool, false, not, ◌&&◌, ◌||◌, Option, none, some, ◌==◌, leb, ltb,
  if◌then◌else◌,
}
use opentui_ocaml.Prelude.Int.{ℤ, pos, negsuc}
use opentui_ocaml.Yoga.Native.{Double, nan, infinite, negative_zero, finite}

-- FLT_MAX, (2 ^ 24 - 1) * 2 ^ 104, in units of 2 ^ -1074
abbrev pub flt_max : ℕ
flt_max = (2 ^ 24 - 1) * 2 ^ 1178

-- An `int32_t` between 0 and a bound.
abbrev pub in_range : ℕ → ℤ → Bool
in_range bound (pos n) = leb n bound
in_range bound (negsuc n) = false

abbrev pub equals : ℕ → ℤ → Bool
equals k (pos n) = n == k
equals k (negsuc n) = false

abbrev pub unsigned : ℤ → ℕ
unsigned (pos n) = n
unsigned (negsuc n) = 0

-- What the `float` written to `*output` is converted from; `none` is
-- OPENTUI_RAW_STATUS_INVALID_ARGUMENT.
pub yoga_validate_finite_float : Double → Option Double
yoga_validate_finite_float nan = none
yoga_validate_finite_float (infinite negative) = none
yoga_validate_finite_float negative_zero = some negative_zero
yoga_validate_finite_float (finite (pos n)) = if ltb flt_max n then none else some (finite (pos n))
yoga_validate_finite_float (finite (negsuc n)) =
    if ltb flt_max (suc n) then none else some (finite (negsuc n))

pub yoga_validate_layout_dimension : Double → Option Double
yoga_validate_layout_dimension nan = some nan
yoga_validate_layout_dimension (infinite negative) = none
yoga_validate_layout_dimension negative_zero = some negative_zero
yoga_validate_layout_dimension (finite (pos n)) =
    if ltb flt_max n then none else some (finite (pos n))
yoga_validate_layout_dimension (finite (negsuc n)) = none

pub yoga_validate_style_value : ℤ → Double → Option Double
unfolding yoga_validate_finite_float
yoga_validate_style_value unit numeric =
    if equals 0 unit || equals 3 unit
    then some nan
    else if not (equals 1 unit) && not (equals 2 unit)
    then none
    else yoga_validate_finite_float numeric

-- The `isnan` test of `style_set_float` and `style_set_border` before the check.
pub float_or_nan : Double → Option Double
unfolding yoga_validate_finite_float
float_or_nan nan = some nan
float_or_nan numeric = yoga_validate_finite_float numeric

pub yoga_valid_enum_value : ℤ → ℤ → Bool
yoga_valid_enum_value kind value =
    if equals 0 kind
    then in_range 2 value
    else if equals 1 kind
    then in_range 3 value
    else if equals 2 kind
    then in_range 5 value
    else if equals 3 kind || equals 4 kind || equals 5 kind
    then in_range 8 value
    else if equals 6 kind
    then in_range 2 value
    else if equals 7 kind
    then in_range 2 value
    else if equals 8 kind || equals 9 kind
    then in_range 2 value
    else if equals 10 kind
    then in_range 1 value
    else false

pub yoga_valid_value_location : ℤ → ℤ → Bool
yoga_valid_value_location kind edge_or_gutter =
    if in_range 6 kind
    then equals 0 edge_or_gutter
    else if equals 7 kind || equals 8 kind || equals 9 kind
    then in_range 8 edge_or_gutter
    else if equals 10 kind
    then in_range 2 edge_or_gutter
    else false
