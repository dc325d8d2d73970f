-- ===== src/CellBuffer/Arguments.antt =====
-- How the buffer bindings of raw_stubs.c read their arguments.
use opentui_ocaml.Prelude.{
  ℕ, zero, ◌-◌, ◌*◌, ◌/◌, ◌^◌, ◌&&◌, Option, none, some, List, [], ◌∷◌, ◌==◌, leb, if◌then◌else◌,
  found, length,
}
use opentui_ocaml.Prelude.Int.{ℤ}
use opentui_ocaml.Yoga.Native.{Double}
use opentui_ocaml.Values.{
  Value, block, string, Fields, nil, cons, count_fields, has_fields, field, int32_val, double_array,
  to_uint32,
}
use opentui_ocaml.Readers.{is_positive, read_color, is_option_string}
use opentui_ocaml.Image.Arguments.{read_u32, read_floats, read_elements}
use opentui_ocaml.CellBuffer.Native.{Spot, BoxStyle}

-- The bytes of a string if their number fits 32 bits. The code does not look at the type, which the
-- OCaml side fixes; here another value has no bytes.
unfoldable pub read_text_length : Value → Option (List ℕ)
read_text_length (string bytes) = if leb (length bytes) (2 ^ 32 - 1) then some bytes else none
read_text_length _ = some []

unfoldable pub read_optional_text : Value → Option (Option (List ℕ))
unfolding read_text_length
read_optional_text v = found (is_option_string v) none (λ text.
    found text (some none)
      (λ bytes. if leb (length bytes) (2 ^ 32 - 1) then some (some bytes) else none))

-- The loop of `read_border_chars`.
unfoldable pub read_codepoints : Fields → Option (List ℕ)
read_codepoints nil = some []
read_codepoints (cons v fields) =
    let rest = read_codepoints fields in
    found (read_u32 v) none (λ n. found rest none (λ ns. some (n ∷ ns)))

unfoldable pub read_border_chars : Value → Option (List ℕ)
unfolding read_codepoints
read_border_chars (block tag fields) =
    if has_fields (block tag fields) 11 then read_codepoints fields else none
read_border_chars _ = none

unfoldable pub read_int32_array : Value → Option (List ℤ)
read_int32_array (block zero fields) =
    if leb (count_fields fields) (2 ^ 32 - 1) then read_elements fields else none
read_int32_array _ = none

unfoldable pub read_grayscale_floatarray :
    {Single : Type 0} → (Double → Single) → Value → ℕ → ℕ → Option (List Single)
read_grayscale_floatarray to_single (double_array ds) width height =
    if length ds == width * height && leb (width * height) ((2 ^ 64 - 1) / 4)
    then read_floats to_single ds
    else none
read_grayscale_floatarray to_single _ width height = none

-- A position, two colours and attributes, from the fields of the given indices.
unfoldable pub read_spot : Value → ℕ → ℕ → ℕ → ℕ → ℕ → Option Spot
read_spot v x y fg bg attributes =
    if is_positive (int32_val (field v x)) && is_positive (int32_val (field v y))
    then found (read_color (field v fg)) none (λ foreground.
      found (read_color (field v bg)) none (λ background. some (record {
        x = to_uint32 (int32_val (field v x));
        y = to_uint32 (int32_val (field v y));
        fg = foreground;
        bg = background;
        attributes = to_uint32 (int32_val (field v attributes));
      })))
    else none

-- The fields of a box from the fifth on.
unfoldable pub read_box_style : Value → Option BoxStyle
unfolding read_border_chars read_optional_text
read_box_style v = found (read_border_chars (field v 4)) none (λ chars.
    found (read_color (field v 6)) none (λ border.
      found (read_color (field v 7)) none (λ background.
        found (read_color (field v 8)) none (λ title_color.
          found (read_optional_text (field v 9)) none (λ title.
            found (read_optional_text (field v 10)) none (λ bottom. some (record {
              border_chars = chars;
              packed_options = to_uint32 (int32_val (field v 5));
              border_color = border;
              background_color = background;
              title_color = title_color;
              title = title;
              bottom_title = bottom;
            })))))))
