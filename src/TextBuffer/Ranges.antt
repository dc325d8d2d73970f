-- ===== src/TextBuffer/Ranges.antt =====
-- What the readers of text_buffer_stubs.c let through.
use opentui_ocaml.Prelude.{
  ℕ, zero, suc, ◌-◌, ◌^◌, ◌<◌, ◌≡◌, refl, ap, subst, ◌&&◌, some, List, arith, leb, length, leb→le,
  found-eq-some, if-eq-some, some-injective, length-take, ◌≢◌, ◌∙◌,
}
use opentui_ocaml.Prelude.Int.{pos}
use opentui_ocaml.Values.{
  to_uint32-lt, zero_value, Value, long, block, string, custom, double, double_array, Fields, nil,
  cons, is_block, has_fields, field, long_val, int32_val, string_val, to_uint32, to_int,
}
use opentui_ocaml.Readers.Laws.{read_optional_color-IsColor}
use opentui_ocaml.TextBuffer.Native.{StyledChunk, Highlight}
use opentui_ocaml.TextBuffer.Arguments.{
  in_range, ByteArray, read_byte_array, read_optional_color, read_highlight, is_option_string,
  count_cells, read_cells, read_chunk, read_styled_chunks,
}
use opentui_ocaml.TextBuffer.Allowed.{IsHighlight, IsChunk, AllChunks, IsSized}

pub read_byte_array-IsSized :
    (a : ByteArray) {bytes : List ℕ} → read_byte_array a ≡ some bytes → IsSized bytes
unfolding read_byte_array
read_byte_array-IsSized a {bytes} h =
    ground (arith, length-take (to_uint32 a.dim) a.contents, to_uint32-lt a.dim)

pub read_highlight-IsHighlight :
    (v : Value) {h : Highlight} → read_highlight v ≡ some h → IsHighlight h
unfolding read_highlight
read_highlight-IsHighlight v read =
    let (five, h1) = if-eq-some (has_fields v 5) read in
    let (priority, e1, h2) = found-eq-some (long_val (field v 3)) _ h1 in
    let (hl_ref, e2, h3) = found-eq-some (long_val (field v 4)) _ h2 in
    let (small, h4) =
      if-eq-some (in_range (to_int priority) 255 && in_range (to_int hl_ref) 65535) h3 in
    subst IsHighlight (some-injective h4) (record {
      starts = to_uint32-lt (int32_val (field v 0));
      ends = to_uint32-lt (int32_val (field v 1));
      styled = to_uint32-lt (int32_val (field v 2));
      prior = omega arith;
      referred = omega arith;
    })

fields-IsChunk :
    (fields : Fields) {c : StyledChunk} → read_chunk (block zero fields) ≡ some c → IsChunk c
unfolding read_chunk
fields-IsChunk fields read =
    let pair = block zero fields in
    let (five, h1) = if-eq-some (has_fields pair 5) read in
    let (text, e1, h2) = found-eq-some (string_val (field pair 0)) _ h1 in
    let (fg, e2, h3) = found-eq-some (read_optional_color (field pair 1)) _ h2 in
    let (bg, e3, h4) = found-eq-some (read_optional_color (field pair 2)) _ h3 in
    let (boxed, h5) = if-eq-some (is_block (field pair 3)) h4 in
    let (link, e4, h6) = found-eq-some (is_option_string (field pair 4)) _ h5 in
    subst IsChunk (some-injective h6) (record {
      foreground = read_optional_color-IsColor (field pair 1) e2;
      background = read_optional_color-IsColor (field pair 2) e3;
      attributed = to_uint32-lt (int32_val (field pair 3));
    })

read_chunk-IsChunk : (v : Value) {c : StyledChunk} → read_chunk v ≡ some c → IsChunk c
unfolding read_chunk
read_chunk-IsChunk (block zero fields) h = fields-IsChunk fields h
read_chunk-IsChunk (block (suc tag) fields) h = cc
read_chunk-IsChunk (long n) h = cc
read_chunk-IsChunk (string bytes) h = cc
read_chunk-IsChunk (custom n) h = cc
read_chunk-IsChunk (double d) h = cc
read_chunk-IsChunk (double_array ds) h = cc

read_cells-AllChunks :
    (count : ℕ) (cursor : Value) {cs : List StyledChunk}
    → read_cells count cursor ≡ some cs
    → (length cs ≡ count) × AllChunks cs
unfolding read_cells
read_cells-AllChunks zero cursor h =
    subst (λ l. (length l ≡ 0) × AllChunks l) (some-injective h) (refl, tt)
read_cells-AllChunks (suc count) cursor h =
    let (c, e, h1) = found-eq-some (read_chunk (field cursor 0)) _ h in
    let (rest, e2, h2) = found-eq-some (read_cells count (field cursor 1)) _ h1 in
    let below = read_cells-AllChunks count (field cursor 1) e2 in
    subst (λ l. (length l ≡ suc count) × AllChunks l) (some-injective h2)
      (ap suc below.0, (read_chunk-IsChunk (field cursor 0) e, below.1))

-- Only the empty list has no cells.
count_cells-zero : (v : Value) → count_cells v ≡ some 0 → v ≡ zero_value
unfolding count_cells
count_cells-zero (long (pos zero)) h = refl
count_cells-zero (block zero (cons v (cons rest nil))) h =
    let (n, e, h1) = found-eq-some (count_cells rest) _ h in
    absurd (omega (arith, some-injective h1))
count_cells-zero _ h = cc

pub read_styled_chunks-AllChunks :
    (v : Value) {cs : List StyledChunk}
    → read_styled_chunks v ≡ some cs
    → v ≢ zero_value
    → (0 < length cs) × (length cs < 2 ^ 32) × AllChunks cs
unfolding read_styled_chunks
read_styled_chunks-AllChunks v {cs} h filled =
    let (count, counted, h1) = found-eq-some (count_cells v) _ h in
    let (few, h2) = if-eq-some (leb count (2 ^ 32 - 1)) h1 in
    let r = read_cells-AllChunks count v h2 in
    let some_cells : count ≢ 0 = λ e. filled (count_cells-zero v (counted ∙ ap some e)) in
    (omega (arith, r.0), omega (arith, r.0, leb→le count (2 ^ 32 - 1) few), r.1)
