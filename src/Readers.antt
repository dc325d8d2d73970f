-- ===== src/Readers.antt =====
-- Readers that text_buffer_stubs.c, raw_stubs.c and syntax_style_stubs.c of packages/opentui-raw
-- all have: integers in a range, colours and optional strings. They are given for
-- text_buffer_stubs.c.
pub mod Laws
use opentui_ocaml.Prelude.{
  ℕ, zero, ◌-◌, ◌^◌, Bool, false, Option, none, some, List, [], ◌∷◌, leb, if◌then◌else◌, found,
}
use opentui_ocaml.Prelude.Int.{ℤ, pos, negsuc}
use opentui_ocaml.Values.{Value, long, block, Fields, nil, cons, has_fields, field, string_val}

-- Four channels, or a null pointer.
abbrev pub Color : Type 0
Color = Option (List ℕ)

-- `0 <= n <= bound`
abbrev pub in_range : ℤ → ℕ → Bool
in_range (pos n) bound = leb n bound
in_range (negsuc n) bound = false

-- A field of a colour, checked.
unfoldable pub read_channel : Value → Option ℕ
read_channel (long (pos n)) = if leb n 255 then some n else none
read_channel _ = none

-- The loop of `read_color`, over the fields of the block.
unfoldable pub read_channels : Fields → Option (List ℕ)
unfolding read_channel
read_channels nil = some []
read_channels (cons v fields) =
    let rest = read_channels fields in
    found (read_channel v) none (λ n. found rest none (λ ns. some (n ∷ ns)))

unfoldable pub read_color : Value → Option (List ℕ)
unfolding read_channels
read_color (block tag fields) =
    if has_fields (block tag fields) 4 then read_channels fields else none
read_color _ = none

-- `none` where the option is refused; otherwise a colour or a null pointer.
unfoldable pub read_optional_color : Value → Option Color
unfolding read_color
read_optional_color (long (pos zero)) = some none
read_optional_color v =
    if has_fields v 1 then found (read_color (field v 0)) none (λ ns. some (some ns)) else none

-- `n >= 0` for an `int32_t`
abbrev pub is_positive : ℤ → Bool
is_positive n = in_range n (2 ^ 31 - 1)

unfoldable pub is_option_string : Value → Option (Option (List ℕ))
is_option_string (long (pos zero)) = some none
is_option_string v =
    if has_fields v 1
    then found (string_val (field v 0)) none (λ bytes. some (some bytes))
    else none
