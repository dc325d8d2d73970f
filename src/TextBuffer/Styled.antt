-- ===== src/TextBuffer/Styled.antt =====
-- The OCaml values of styled text and of highlights, and how text_buffer_stubs.c reads them.
use opentui_ocaml.Prelude.{
  ℕ, ◌+◌, ◌-◌, ◌*◌, ◌^◌, ◌<◌, ◌≡◌, refl, Option, none, some, List, [], ◌∷◌, arith, leb, length,
  true,
}
use opentui_ocaml.Prelude.Int.{ℤ, pos}
use opentui_ocaml.Values.{
  Value, long, block, string, custom, Fields, nil, cons, zero_value, to_uint32,
}
use opentui_ocaml.Readers.Laws.{AllBytes}
use opentui_ocaml.TextBuffer.Native.{StyledChunk}
use opentui_ocaml.Readers.{Color}
use opentui_ocaml.TextBuffer.Arguments.{
  read_optional_color, read_highlight, is_option_string, count_cells, read_cells, read_chunk,
  read_styled_chunks,
}
use opentui_ocaml.Readers.{read_channels}
use opentui_ocaml.TextBuffer.Allowed.{IsChunk, AllChunks}
use opentui_ocaml.Readers.Laws.{IsColor}
use opentui_ocaml.Values.{to_int32, to_uint32-to_int32}

abbrev pub channel_fields : List ℕ → Fields
channel_fields [] = nil
channel_fields (n ∷ ns) = cons (long (pos n)) (channel_fields ns)

abbrev pub color_value : Color → Value
color_value none = zero_value
color_value (some ns) = block 0 (cons (block 0 (channel_fields ns)) nil)

abbrev pub link_value : Option (List ℕ) → Value
link_value none = zero_value
link_value (some bytes) = block 0 (cons (string bytes) nil)

abbrev pub chunk_value : StyledChunk → Value
chunk_value c = block 0 (
    cons (string c.text) (
      cons (color_value c.fg) (
        cons (color_value c.bg)
          (cons (custom (to_int32 c.attributes)) (cons (link_value c.link) nil)))))

-- An OCaml list.
abbrev pub chunk_list : List StyledChunk → Value
chunk_list [] = zero_value
chunk_list (c ∷ cs) = block 0 (cons (chunk_value c) (cons (chunk_list cs) nil))

read_channels-channel_fields :
    (ns : List ℕ) → AllBytes ns → read_channels (channel_fields ns) ≡ some ns
unfolding read_channels
read_channels-channel_fields [] h = refl
read_channels-channel_fields (n ∷ ns) h = ground (arith, read_channels-channel_fields ns h.1)

read_optional_color-color_value :
    (c : Color) → IsColor c → read_optional_color (color_value c) ≡ some c
unfolding read_optional_color
read_optional_color-color_value none h = refl
read_optional_color-color_value (some (a ∷ b ∷ c ∷ d ∷ [])) h =
    rw (read_channels-channel_fields (a ∷ b ∷ c ∷ d ∷ []) h.1) refl
read_optional_color-color_value (some []) h = absurd (omega (arith, h.0))
read_optional_color-color_value (some (a ∷ [])) h = absurd (omega (arith, h.0))
read_optional_color-color_value (some (a ∷ b ∷ [])) h = absurd (omega (arith, h.0))
read_optional_color-color_value (some (a ∷ b ∷ c ∷ [])) h = absurd (omega (arith, h.0))
read_optional_color-color_value (some (a ∷ b ∷ c ∷ d ∷ e ∷ ns)) h = absurd (omega (arith, h.0))

is_option_string-link_value : (o : Option (List ℕ)) → is_option_string (link_value o) ≡ some o
unfolding is_option_string
is_option_string-link_value none = refl
is_option_string-link_value (some bytes) = refl

read_chunk-chunk_value : (c : StyledChunk) → IsChunk c → read_chunk (chunk_value c) ≡ some c
unfolding read_chunk
read_chunk-chunk_value c good =
    rw
      (
        read_optional_color-color_value c.fg good.foreground,
        read_optional_color-color_value c.bg good.background,
        is_option_string-link_value c.link,
        to_uint32-to_int32 c.attributes good.attributed,
      )
      refl

count_cells-chunk_list : (cs : List StyledChunk) → count_cells (chunk_list cs) ≡ some (length cs)
unfolding count_cells
count_cells-chunk_list [] = refl
count_cells-chunk_list (c ∷ cs) = rw (count_cells-chunk_list cs) refl

read_cells-chunk_list :
    (cs : List StyledChunk) → AllChunks cs → read_cells (length cs) (chunk_list cs) ≡ some cs
unfolding read_cells
read_cells-chunk_list [] h = refl
read_cells-chunk_list (c ∷ cs) h =
    rw (read_chunk-chunk_value c h.0, read_cells-chunk_list cs h.1) refl

-- A list of fewer than 2 ^ 32 styled chunks, with colours of four bytes and 32-bit attributes, is
-- read back whole and in order from its OCaml value.
pub read_styled_chunks-chunk_list :
    (cs : List StyledChunk)
    → AllChunks cs
    → length cs < 2 ^ 32
    → read_styled_chunks (chunk_list cs) ≡ some cs
unfolding read_styled_chunks
read_styled_chunks-chunk_list cs h few =
    let small : leb (length cs) (2 ^ 32 - 1) ≡ true = ground arith in
    rw (count_cells-chunk_list cs, small) (read_cells-chunk_list cs h)

abbrev pub highlight_value : ℤ → ℤ → ℤ → ℤ → ℤ → Value
highlight_value start end style_id priority hl_ref = block 0 (
    cons (custom start)
      (cons (custom end) (cons (custom style_id) (cons (long priority) (cons (long hl_ref) nil)))))

-- The priority and the reference of a highlight are checked after the cast to `int`: a priority
-- below 2 ^ 8 and a reference below 2 ^ 16 are read as they are, and so are the same numbers with
-- any multiple of 2 ^ 32 on top, which are out of range.
pub read_highlight_wraps :
    (start end style_id : ℤ) (priority hl_ref i j : ℕ)
    → priority < 2 ^ 8
    → hl_ref < 2 ^ 16
    → read_highlight (
        highlight_value start end style_id
          (pos (priority + i * 2 ^ 32))
          (pos (hl_ref + j * 2 ^ 32)))
      ≡ some (record {
        start = to_uint32 start;
        end = to_uint32 end;
        style_id = to_uint32 style_id;
        priority = priority;
        hl_ref = hl_ref;
      })
unfolding read_highlight
read_highlight_wraps start end style_id priority hl_ref i j p r = ground arith
