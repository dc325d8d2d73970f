-- ===== src/Diagnostics/Laws.antt =====
-- The ring of diagnostics of wgpu_stubs.c as a list of its lines, oldest first.
use opentui_ocaml.Prelude.{
  ℕ, suc, ◌+◌, ◌-◌, ◌%◌, ◌≤◌, ◌<◌, ◌≡◌, sym, ap, ◌∙◌, ◌⊎◌, inl, inr, List, [], ◌∷◌, ◌++◌, arith,
  length, take, drop, length-append, drop-append,
}
use opentui_ocaml.Ring
use opentui_ocaml.Ring.{
  write_at, length-contents, contents-agree, contents-suc, contents-push, contents-drop,
}
use opentui_ocaml.Buffers.{Buffer}
use opentui_ocaml.Diagnostics.{State, diag_slots, diag_line, print_string, diag_push, line_text}
use opentui_ocaml.Diagnostics.Lines.{NoZero, line_text-print_string}

abbrev pub IsValid : State → Type 0
IsValid s = (s.diag_head < diag_slots) × (s.diag_count ≤ diag_slots)

abbrev pub start : State → ℕ
start s = s.diag_head + diag_slots - s.diag_count

-- The captured lines, oldest first.
abbrev pub lines : State → List (List ℕ)
lines s = Ring.contents diag_slots line_text s.diag_lines (start s) s.diag_count

-- The last 256 elements of a list.
abbrev pub newest : List (List ℕ) → List (List ℕ)
newest xs = drop (length xs - diag_slots) xs

-- A push on a ring that is not full, and on a full one.
push_room :
    (s : State) (line : Buffer)
    → IsValid s
    → s.diag_count < diag_slots
    → Ring.contents diag_slots line_text
        (write_at s.diag_lines s.diag_head line)
        ((s.diag_head + 1) % diag_slots + diag_slots - suc s.diag_count)
        (suc s.diag_count)
      ≡ lines s ++ (line_text line ∷ [])
push_room s line v room =
    let index : (start s + s.diag_count) % diag_slots ≡ s.diag_head = omega (arith, v.0) in
    contents-agree diag_slots line_text (suc s.diag_count) _ _ (start s) (λ i. omega (arith, v.0))
    ∙ ap
        (λ i.
          Ring.contents diag_slots line_text (write_at s.diag_lines i line) (start s)
            (suc s.diag_count))
        (sym index)
    ∙ contents-push diag_slots line_text s.diag_lines (start s) s.diag_count line
        (λ i p. omega arith)

push_full :
    (s : State) (line : Buffer)
    → IsValid s
    → s.diag_count ≡ diag_slots
    → Ring.contents diag_slots line_text
        (write_at s.diag_lines s.diag_head line)
        ((s.diag_head + 1) % diag_slots + diag_slots - s.diag_count)
        s.diag_count
      ≡ drop 1 (lines s) ++ (line_text line ∷ [])
push_full s line v full =
    let index : (start s + 1 + (s.diag_count - 1)) % diag_slots ≡ s.diag_head =
      omega (arith, v.0) in
    let count : s.diag_count ≡ suc (s.diag_count - 1) = omega arith in
    let written = write_at s.diag_lines s.diag_head line in
    ap
      (Ring.contents diag_slots line_text written
        ((s.diag_head + 1) % diag_slots + diag_slots - s.diag_count))
      count
    ∙ contents-agree diag_slots line_text (suc (s.diag_count - 1)) written _ (start s + 1)
        (λ i. omega (arith, v.0))
    ∙ ap
        (λ i.
          Ring.contents diag_slots line_text (write_at s.diag_lines i line) (start s + 1)
            (suc (s.diag_count - 1)))
        (sym index)
    ∙ contents-push diag_slots line_text s.diag_lines (start s + 1) (s.diag_count - 1) line
        (λ i p. omega arith)
    ∙ ap (λ xs. xs ++ (line_text line ∷ []))
        (contents-drop diag_slots line_text 1 s.diag_lines (start s) s.diag_count (omega arith))

-- A text as a line holds it.
abbrev pub cut : List ℕ → List ℕ
cut = take (diag_line - 1)

-- Pushing a text keeps the newest 256 lines, the text cut to 255 bytes last.
pub lines-diag_push :
    (s : State) (text : List ℕ)
    → IsValid s
    → NoZero text
    → IsValid (diag_push s text) × (lines (diag_push s text) ≡ newest (lines s ++ (cut text ∷ [])))
unfolding diag_push
lines-diag_push s text v nz =
    let printed = line_text-print_string (s.diag_lines s.diag_head) text nz in
    let size = length-contents diag_slots line_text s.diag_lines (start s) s.diag_count in
    let room : (s.diag_count < diag_slots) ⊎ (s.diag_count ≡ diag_slots) = omega (arith, v.1) in
    elim room [
      | inl room ↦ (
        (omega arith, ground arith),
        pushed (suc s.diag_count) (ground arith)
            ∙ push_room s line v room
            ∙ ap (λ t. lines s ++ (t ∷ [])) printed
            ∙ none_dropped (omega (arith, size, length-append (lines s) (kept ∷ []))),
      )
      | inr full ↦ (
        (omega arith, ground arith),
        pushed s.diag_count (ground arith)
            ∙ push_full s line v full
            ∙ ap (λ t. drop 1 (lines s) ++ (t ∷ [])) printed
            ∙ one_dropped (omega (arith, size, length-append (lines s) (kept ∷ [])))
                (omega (arith, size)),
      )
    ]
  where
    line : Buffer
    line = print_string (s.diag_lines s.diag_head) diag_line text

    kept : List ℕ
    kept = take (diag_line - 1) text

    pushed :
        (count : ℕ)
        → (diag_push s text).diag_count ≡ count
        → lines (diag_push s text)
          ≡ Ring.contents diag_slots line_text
              (write_at s.diag_lines s.diag_head line)
              ((s.diag_head + 1) % diag_slots + diag_slots - count)
              count
    pushed count e =
        ap
          (λ c.
            Ring.contents diag_slots line_text (write_at s.diag_lines s.diag_head line)
              ((s.diag_head + 1) % diag_slots + diag_slots - c) c)
          e

    none_dropped :
        length (lines s ++ (kept ∷ [])) - diag_slots ≡ 0
        → lines s ++ (kept ∷ []) ≡ newest (lines s ++ (kept ∷ []))
    none_dropped e = sym (ap (λ n. drop n (lines s ++ (kept ∷ []))) e)

    one_dropped :
        length (lines s ++ (kept ∷ [])) - diag_slots ≡ 1
        → 0 < length (lines s)
        → drop 1 (lines s) ++ (kept ∷ []) ≡ newest (lines s ++ (kept ∷ []))
    one_dropped e some_lines =
        sym (drop-append 1 (lines s) (kept ∷ []) some_lines)
        ∙ sym (ap (λ n. drop n (lines s ++ (kept ∷ []))) e)
