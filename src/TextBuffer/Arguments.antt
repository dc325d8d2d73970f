-- ===== src/TextBuffer/Arguments.antt =====
-- How text_buffer_stubs.c reads its arguments.
use opentui_ocaml.Prelude.{
  ℕ, zero, suc, ◌-◌, ◌%◌, ◌^◌, ◌&&◌, Option, none, some, List, [], ◌∷◌, ◌==◌, leb, if◌then◌else◌,
  found, take,
}
use opentui_ocaml.Prelude.Int.{ℤ, pos}
use opentui_ocaml.Values.{
  Value, long, block, nil, cons, is_block, has_fields, field, long_val, int32_val, string_val,
  to_uint32, to_int,
}
unfoldable pub use opentui_ocaml.Readers.{
  in_range, read_color, read_optional_color, is_option_string,
}
use opentui_ocaml.TextBuffer.Native.{StyledChunk, Highlight}

-- A one-dimensional array of bytes is what `Caml_ba_array_val` shows of a bigarray.
pub record ByteArray : Type 0 where
  pub num_dims : ℕ
  pub dim : ℤ
  pub contents : List ℕ

-- The bytes that the pointer and the length given to the native side stand for.
unfoldable pub read_byte_array : ByteArray → Option (List ℕ)
read_byte_array a =
    if a.num_dims == 1 && in_range a.dim (2 ^ 32 - 1)
    then some (take (to_uint32 a.dim) a.contents)
    else none

-- The two small fields are cast to `int` before their range is checked.
unfoldable pub read_highlight : Value → Option Highlight
unfolding to_int
read_highlight v =
    if has_fields v 5
    then found (long_val (field v 3)) none (λ priority. found (long_val (field v 4)) none (λ hl_ref.
      if in_range (to_int priority) 255 && in_range (to_int hl_ref) 65535
      then some (record {
        start = to_uint32 (int32_val (field v 0));
        end = to_uint32 (int32_val (field v 1));
        style_id = to_uint32 (int32_val (field v 2));
        priority = to_uint32 (to_int priority) % 2 ^ 8;
        hl_ref = to_uint32 (to_int hl_ref) % 2 ^ 16;
      })
      else none))
    else none

-- The first loop of `read_styled_chunks`: the length of the list.
unfoldable pub count_cells : Value → Option ℕ
count_cells (long (pos zero)) = some 0
count_cells (block zero (cons v (cons rest nil))) =
    let below = count_cells rest in found below none (λ n. some (suc n))
count_cells _ = none

-- The body of the second loop.
unfoldable pub read_chunk : Value → Option StyledChunk
unfolding read_optional_color is_option_string
read_chunk (block zero fields) =
    let pair = block zero fields in
    if has_fields pair 5
    then found (string_val (field pair 0)) none (λ text.
      found (read_optional_color (field pair 1)) none (λ fg.
        found (read_optional_color (field pair 2)) none (λ bg.
          if is_block (field pair 3)
          then found (is_option_string (field pair 4)) none (λ link. some (record {
            text = text;
            fg = fg;
            bg = bg;
            attributes = to_uint32 (int32_val (field pair 3));
            link = link;
          }))
          else none)))
    else none
read_chunk _ = none

-- The second loop, over the cells that the first one counted.
unfoldable pub read_cells : ℕ → Value → Option (List StyledChunk)
unfolding read_chunk
read_cells zero cursor = some []
read_cells (suc count) cursor =
    let rest = read_cells count (field cursor 1) in
    found (read_chunk (field cursor 0)) none
      (λ chunk. found rest none (λ chunks. some (chunk ∷ chunks)))

unfoldable pub read_styled_chunks : Value → Option (List StyledChunk)
unfolding count_cells read_cells
read_styled_chunks v =
    found (count_cells v) none
      (λ count. if leb count (2 ^ 32 - 1) then read_cells count v else none)
