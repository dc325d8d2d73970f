-- ===== src/Image/Arguments.antt =====
-- How image_stubs.c reads its arguments.
use opentui_ocaml.Prelude.{
  ℕ, zero, ◌-◌, ◌/◌, ◌%◌, ◌^◌, Bool, true, false, not, ◌&&◌, Option, none, some, List, [], ◌∷◌,
  ◌==◌, leb, if◌then◌else◌, found, length,
}
use opentui_ocaml.Prelude.Int.{ℤ, pos}
use opentui_ocaml.Yoga.Native.{Double, nan, infinite, negative_zero, finite}
use opentui_ocaml.Values.{
  Value, block, Fields, nil, cons, count_fields, custom_val, custom, string, double_array,
}

-- A `uint32_t` from a boxed int32 that is not negative.
unfoldable pub read_u32 : Value → Option ℕ
read_u32 (custom (pos n)) = some (n % 2 ^ 32)
read_u32 _ = none

unfoldable pub read_i32 : Value → Option ℤ
read_i32 v = custom_val v

-- The four bytes of a colour.
unfoldable pub read_byte_array : Value → Option (List ℕ)
read_byte_array (string bytes) = if length bytes == 4 then some bytes else none
read_byte_array _ = none

unfoldable pub is_finite : Double → Bool
is_finite nan = false
is_finite (infinite sign) = false
is_finite negative_zero = true
is_finite (finite n) = true

module _ {Single : Type 0} (to_single : Double → Single) where
  -- The loop of `read_floatarray`.
  unfoldable pub read_floats : List Double → Option (List Single)
  unfolding is_finite
  read_floats [] = some []
  read_floats (d ∷ ds) =
      let rest = read_floats ds in
      if is_finite d then found rest none (λ fs. some (to_single d ∷ fs)) else none

  -- An expected length of 0 accepts any.
  unfoldable pub read_floatarray : Value → ℕ → Option (List Single)
  unfolding read_floats
  read_floatarray (double_array ds) expected =
      if not (expected == 0) && not (length ds == expected)
      then none
      else if leb (length ds) ((2 ^ 64 - 1) / 4)
      then read_floats ds
      else none
  read_floatarray _ expected = none

  -- The matrix, the mask and the number of triples in it.
  unfoldable pub read_matrix_and_mask : Value → Value → Option (List Single × List Single × ℕ)
  unfolding read_floatarray
  read_matrix_and_mask matrix_value mask_value =
      found (read_floatarray matrix_value 16) none (λ matrix.
        found (read_floatarray mask_value 0) none (λ mask.
          if length mask % 3 == 0 && leb (length mask / 3) (2 ^ 32 - 1)
          then some (matrix, mask, length mask / 3)
          else none))

-- The elements of an array of boxed int32.
unfoldable pub read_elements : Fields → Option (List ℤ)
read_elements nil = some []
read_elements (cons v fields) =
    let rest = read_elements fields in
    found (custom_val v) none (λ n. found rest none (λ ns. some (n ∷ ns)))

unfoldable pub read_int32_array_values : Value → ℕ → Option (List ℤ)
unfolding read_elements
read_int32_array_values (block zero fields) expected =
    if count_fields fields == expected then read_elements fields else none
read_int32_array_values _ expected = none

abbrev pub custom_fields : List ℤ → Fields
custom_fields [] = nil
custom_fields (n ∷ ns) = cons (custom n) (custom_fields ns)

unfoldable pub make_int32_array : List ℤ → Value
make_int32_array ns = block 0 (custom_fields ns)
