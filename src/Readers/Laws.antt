-- ===== src/Readers/Laws.antt =====
-- What the shared readers let through.
use opentui_ocaml.Prelude.{
  ℕ, zero, suc, ◌≤◌, ◌<◌, ◌≡◌, refl, ap, subst, true, none, some, List, [], ◌∷◌, arith, ◌==◌,
  if◌then◌else◌, found, length, found-eq-some, if-eq-some, some-injective,
}
use opentui_ocaml.Prelude.Int.{ℤ, pos, negsuc}
use opentui_ocaml.Values.{
  Value, long, block, string, custom, double, double_array, Fields, nil, cons, count_fields,
  has_fields, field, to_uint32,
}
use opentui_ocaml.Readers.{
  Color, in_range, read_channel, read_channels, read_color, read_optional_color,
}

abbrev pub AllBytes : List ℕ → Type 0
AllBytes [] = Unit {0}
AllBytes (n ∷ ns) = (n < 256) × AllBytes ns

abbrev pub IsChannels : List ℕ → Type 0
IsChannels ns = (length ns ≡ 4) × AllBytes ns

abbrev pub IsColor : Color → Type 0
IsColor none = Unit {0}
IsColor (some ns) = IsChannels ns

pub in_range-le : (n : ℤ) (bound : ℕ) → in_range n bound ≡ true → to_uint32 n ≤ bound
in_range-le (pos n) bound h = ground arith
in_range-le (negsuc n) bound h = cc

read_channel-lt : (v : Value) {n : ℕ} → read_channel v ≡ some n → n < 256
unfolding read_channel
read_channel-lt (long (pos n)) h = ground arith
read_channel-lt (long (negsuc n)) h = cc
read_channel-lt (block tag fields) h = cc
read_channel-lt (string bytes) h = cc
read_channel-lt (custom n) h = cc
read_channel-lt (double d) h = cc
read_channel-lt (double_array ds) h = cc

read_channels-AllBytes :
    (fields : Fields) {ns : List ℕ}
    → read_channels fields ≡ some ns
    → (length ns ≡ count_fields fields) × AllBytes ns
unfolding read_channels
read_channels-AllBytes nil {ns} h =
    subst (λ ns. (length ns ≡ 0) × AllBytes ns) (some-injective h) (refl, tt)
read_channels-AllBytes (cons v fields) {ns} h =
    let (n, e, h1) = found-eq-some (read_channel v) _ h in
    let (ms, e2, h2) = found-eq-some (read_channels fields) _ h1 in
    let below = read_channels-AllBytes fields e2 in
    subst (λ l. (length l ≡ suc (count_fields fields)) × AllBytes l) (some-injective h2)
      (ap suc below.0, (read_channel-lt v e, below.1))

pub read_color-IsChannels : (v : Value) {ns : List ℕ} → read_color v ≡ some ns → IsChannels ns
unfolding read_color
read_color-IsChannels (long n) h = cc
read_color-IsChannels (string bytes) h = cc
read_color-IsChannels (custom n) h = cc
read_color-IsChannels (double d) h = cc
read_color-IsChannels (double_array ds) h = cc
read_color-IsChannels (block tag fields) h =
    let (four, read) = if-eq-some (count_fields fields == 4) h in
    let r = read_channels-AllBytes fields read in (ground (arith, r.0, four), r.1)

-- An option with one field that `read` accepts.
color_field :
    (v : Value) {c : Color}
    → (if has_fields v 1 then found (read_color (field v 0)) none (λ ns. some (some ns)) else none)
      ≡ some c
    → IsColor c
color_field v h =
    let (one, h1) = if-eq-some (has_fields v 1) h in
    let (ns, e, h2) = found-eq-some (read_color (field v 0)) _ h1 in
    subst IsColor (some-injective h2) (read_color-IsChannels (field v 0) e)

pub read_optional_color-IsColor :
    (v : Value) {c : Color} → read_optional_color v ≡ some c → IsColor c
unfolding read_optional_color
read_optional_color-IsColor (long (pos zero)) h = subst IsColor (some-injective h) tt
read_optional_color-IsColor (long (pos (suc n))) h = cc
read_optional_color-IsColor (long (negsuc n)) h = cc
read_optional_color-IsColor (string bytes) h = color_field (string bytes) h
read_optional_color-IsColor (custom n) h = color_field (custom n) h
read_optional_color-IsColor (double d) h = color_field (double d) h
read_optional_color-IsColor (double_array ds) h = color_field (double_array ds) h
read_optional_color-IsColor (block tag fields) h = color_field (block tag fields) h
