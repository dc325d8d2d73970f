-- ===== src/SyntaxStyle/Laws.antt =====
-- The colours that syntax_style_stubs.c reads.
use opentui_ocaml.Prelude.{
  ℕ, suc, ◌≡◌, refl, ap, ◌∙◌, ◌↔◌, true, some, List, [], ◌∷◌, arith, ◌==◌, leb, length,
  found-eq-some, if-eq-some, some-injective,
}
use opentui_ocaml.Prelude.Int.{pos, negsuc}
use opentui_ocaml.Values.{
  Value, long, block, string, custom, double, double_array, Fields, nil, cons, count_fields,
}
use opentui_ocaml.Readers.{read_channel, read_channels, read_color}
use opentui_ocaml.Readers.Laws.{AllBytes, IsChannels, read_color-IsChannels}

-- The fields of the OCaml value of a colour.
abbrev pub channels : List ℕ → Fields
channels [] = nil
channels (n ∷ ns) = cons (long (pos n)) (channels ns)

count_fields-channels : (ns : List ℕ) → count_fields (channels ns) ≡ length ns
count_fields-channels [] = refl
count_fields-channels (n ∷ ns) = ap suc (count_fields-channels ns)

read_channels-channels : (ns : List ℕ) → AllBytes ns → read_channels (channels ns) ≡ some ns
unfolding read_channels read_channel
read_channels-channels [] h = refl
read_channels-channels (n ∷ ns) h =
    let small : leb n 255 ≡ true = ground (arith, h.0) in
    rw (read_channels-channels ns h.1, small) refl

-- A field that is read as a number is that number.
read_channel-long : (v : Value) {n : ℕ} → read_channel v ≡ some n → v ≡ long (pos n)
unfolding read_channel
read_channel-long (long (pos m)) e =
    let (small, same) = if-eq-some (leb m 255) e in ap (λ k. long (pos k)) (some-injective same)
read_channel-long (long (negsuc m)) e = cc
read_channel-long (block tag fields) e = cc
read_channel-long (string bytes) e = cc
read_channel-long (custom m) e = cc
read_channel-long (double d) e = cc
read_channel-long (double_array ds) e = cc

read_channels-fields :
    (fields : Fields) {ns : List ℕ} → read_channels fields ≡ some ns → fields ≡ channels ns
unfolding read_channels
read_channels-fields nil e = ap channels (some-injective e)
read_channels-fields (cons v fields) e =
    let (n, e1, h1) = found-eq-some (read_channel v) _ e in
    let (ms, e2, h2) = found-eq-some (read_channels fields) _ h1 in
    ap (λ x. cons x fields) (read_channel-long v e1)
    ∙ ap (cons (long (pos n))) (read_channels-fields fields e2)
    ∙ ap channels (some-injective h2)

-- A value is read as a colour exactly where it is a block of four numbers, each of which fits a
-- byte, as OCaml integers, and then as these numbers.
pub read_color_iff :
    (value : Value) (ns : List ℕ)
    → (read_color value ≡ some ns)
      ↔ (((tag : ℕ) × (value ≡ block tag (channels ns))) × IsChannels ns)
unfolding read_color
read_color_iff value ns = (λ e. (sound value e, read_color-IsChannels value e), complete)
  where
    sound : (v : Value) → read_color v ≡ some ns → (tag : ℕ) × (v ≡ block tag (channels ns))
    sound (block tag fields) e =
        let (four, read) = if-eq-some (count_fields fields == 4) e in
        (tag, ap (block tag) (read_channels-fields fields read))
    sound (long n) e = cc
    sound (string bytes) e = cc
    sound (custom n) e = cc
    sound (double d) e = cc
    sound (double_array ds) e = cc

    complete :
        ((tag : ℕ) × (value ≡ block tag (channels ns))) × IsChannels ns → read_color value ≡ some ns
    complete h =
        let four : (count_fields (channels ns) == 4) ≡ true =
          ground (arith, count_fields-channels ns, h.1.0) in
        ap read_color h.0.1 ∙ rw four (read_channels-channels ns h.1.1)
