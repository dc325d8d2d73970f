-- ===== src/Values.antt =====
-- OCaml values as C code sees them through caml/mlvalues.h, for the bindings that look at the shape
-- of an argument before they use it. The size of a block counts the fields that are values: the
-- words of a string, of a boxed number or of an array of floats are none, and no binding is called,
-- at its OCaml type, with one of these where it looks for fields. An array without elements, of
-- floats or not, is the block of tag 0 without fields.
use opentui_ocaml.Prelude.{
  arith, ◌<◌, ◌≡◌, ℕ, zero, suc, leb, if◌then◌else◌, ◌-◌, ◌%◌, ◌^◌, Bool, true, false, ◌&&◌, Option,
  none, some, List, ◌==◌,
}
use opentui_ocaml.Prelude.Int.{ℤ, pos, negsuc}
use opentui_ocaml.Yoga.Native.{Double}

-- `long` is an immediate integer, `custom` a boxed int32, `double` a boxed float.
mutual
  pub data Value : Type 0 where
    long : ℤ → Value
    block : ℕ → Fields → Value
    string : List ℕ → Value
    custom : ℤ → Value
    double : Double → Value
    double_array : List Double → Value

  pub data Fields : Type 0 where
    nil : Fields
    cons : Value → Fields → Fields

-- `Val_none`, `Val_emptylist` and `Val_false`
abbrev pub zero_value : Value
zero_value = long (pos 0)

abbrev pub is_block : Value → Bool
is_block (long n) = false
is_block (block tag fields) = true
is_block (string bytes) = true
is_block (custom n) = true
is_block (double d) = true
is_block (double_array ds) = true

abbrev pub count_fields : Fields → ℕ
count_fields nil = 0
count_fields (cons v fields) = suc (count_fields fields)

-- `Wosize_val`
abbrev pub wosize : Value → ℕ
wosize (block tag fields) = count_fields fields
wosize _ = 0

abbrev pub nth : Fields → ℕ → Value
nth nil i = zero_value
nth (cons v fields) zero = v
nth (cons v fields) (suc i) = nth fields i

-- `Field`; the bindings read no field beyond the size.
abbrev pub field : Value → ℕ → Value
field (block tag fields) i = nth fields i
field _ i = zero_value

-- `Is_block(v) && Wosize_val(v) == n`
abbrev pub has_fields : Value → ℕ → Bool
has_fields v n = is_block v && wosize v == n

-- `Is_long` and `Long_val`
abbrev pub long_val : Value → Option ℤ
long_val (long n) = some n
long_val _ = none

-- `Tag_val(v) == Custom_tag` and `Int32_val`
abbrev pub custom_val : Value → Option ℤ
custom_val (custom n) = some n
custom_val _ = none

-- `Int32_val` where no check precedes it: the type of the binding makes the value a boxed int32.
abbrev pub int32_val : Value → ℤ
int32_val (custom n) = n
int32_val _ = pos 0

-- `Tag_val(v) == String_tag`, the bytes and `caml_string_length`
abbrev pub string_val : Value → Option (List ℕ)
string_val (string bytes) = some bytes
string_val _ = none

-- `Tag_val(v) == Double_tag` and `Double_val`
abbrev pub double_val : Value → Option Double
double_val (double d) = some d
double_val _ = none

-- The casts of an `int32_t` or an `intnat` to `uint32_t`, and back to a signed integer.
abbrev pub to_uint32 : ℤ → ℕ
to_uint32 (pos n) = n % 2 ^ 32
to_uint32 (negsuc n) = 2 ^ 32 - 1 - n % 2 ^ 32

-- The cast of a `uint32_t` to `int32_t`.
abbrev pub to_int32 : ℕ → ℤ
to_int32 n =
    if leb (2 ^ 31) (n % 2 ^ 32) then negsuc (2 ^ 32 - 1 - n % 2 ^ 32) else pos (n % 2 ^ 32)

-- `Int_val` kept in an `int`: the low 32 bits of an `intnat`, signed.
unfoldable pub to_int : ℤ → ℤ
to_int n = let low = to_uint32 n in if leb (2 ^ 31) low then negsuc (2 ^ 32 - 1 - low) else pos low

pub to_uint32-lt : (n : ℤ) → to_uint32 n < 2 ^ 32
to_uint32-lt (pos n) = omega arith
to_uint32-lt (negsuc n) = omega arith

pub to_uint32-to_int32 : (n : ℕ) → n < 2 ^ 32 → to_uint32 (to_int32 n) ≡ n
to_uint32-to_int32 n h = ground arith
