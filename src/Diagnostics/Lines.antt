-- ===== src/Diagnostics/Lines.antt =====
-- `snprintf` into a line of wgpu_stubs.c, and reading the line back.
use opentui_ocaml.Prelude.{
  ℕ, zero, suc, ◌+◌, ◌-◌, ◌<◌, ◌≡◌, refl, sym, ap, ◌∙◌, ◌≢◌, false, List, [], ◌∷◌, arith, ◌==◌,
  length, take, drop, length-take,
}
use opentui_ocaml.Buffers.{Buffer, copy_bytes, read_bytes, read_bytes-agree, read_bytes-copy_bytes}
use opentui_ocaml.Diagnostics.{diag_line, print_string, read_string, line_text}

-- A C string has no 0 before its end.
abbrev pub NoZero : List ℕ → Type 0
NoZero [] = Unit {0}
NoZero (b ∷ bs) = (b ≢ 0) × NoZero bs

NoZero-take : (n : ℕ) (bs : List ℕ) → NoZero bs → NoZero (take n bs)
NoZero-take zero bs h = tt
NoZero-take (suc n) [] h = tt
NoZero-take (suc n) (b ∷ bs) h = (h.0, NoZero-take n bs h.1)

abbrev first_or_zero : List ℕ → ℕ
first_or_zero [] = 0
first_or_zero (b ∷ bs) = b

read_string-read_bytes :
    (bs : List ℕ) (left : ℕ) (buffer : Buffer) (start : ℕ)
    → read_bytes buffer start (length bs) ≡ bs
    → NoZero bs
    → buffer (start + length bs) ≡ 0
    → length bs < left
    → read_string left buffer start ≡ bs
unfolding read_string read_bytes
read_string-read_bytes bs zero buffer start e nz z h = absurd (omega arith)
read_string-read_bytes [] (suc left) buffer start e nz z h =
    let here : start + 0 ≡ start = omega arith in
    let stop : buffer start ≡ 0 = ap buffer (sym here) ∙ z in rw (stop, read_string) refl
read_string-read_bytes (b ∷ bs) (suc left) buffer start e nz z h =
    let here : buffer start ≡ b = ap first_or_zero e in
    let next : start + 1 + length bs ≡ start + suc (length bs) = omega arith in
    let rest : read_string left buffer (start + 1) ≡ bs =
      read_string-read_bytes bs left buffer (start + 1) (ap (drop 1) e) nz.1 (ap buffer next ∙ z)
        (omega arith) in
    let test : (buffer start == 0) ≡ false = ground (arith, here, nz.0) in
    rw (test, read_string) (rw (here, rest) refl)

-- A text without zero bytes printed into a line is read back, cut to the 255 bytes that leave room
-- for the final 0.
pub line_text-print_string :
    (d : Buffer) (text : List ℕ)
    → NoZero text
    → line_text (print_string d diag_line text) ≡ take (diag_line - 1) text
unfolding print_string
line_text-print_string d text nz =
    let kept = take (diag_line - 1) text in
    let short : length kept < diag_line = omega (arith, length-take 255 text) in
    read_string-read_bytes kept diag_line (print_string d diag_line text) 0
      (read_bytes-agree (length kept) 0 (print_string d diag_line text) (copy_bytes d 0 kept)
          (λ i p q. ground arith)
        ∙ read_bytes-copy_bytes kept d 0)
      (NoZero-take 255 text nz) (ground arith) short
