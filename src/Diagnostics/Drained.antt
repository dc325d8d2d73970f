-- ===== src/Diagnostics/Drained.antt =====
-- What `opentui_wgpu_drain_diagnostics` of wgpu_stubs.c takes out of the ring.
use opentui_ocaml.Prelude.{
  ℕ, zero, suc, ◌+◌, ◌-◌, ◌%◌, ◌≤◌, ◌≡◌, refl, sym, ap, ◌∙◌, inl, inr, true, false, List, [], ◌∷◌,
  map, arith, ◌==◌, ltb, min, length, take, drop, length-take, Bool-cases, if_rule,
}
use opentui_ocaml.Prelude.Int.{ℤ, pos_part}
use opentui_ocaml.Ring
use opentui_ocaml.Ring.{
  write_at, length-contents, contents-agree, contents-suc, contents-push, contents-drop,
}
use opentui_ocaml.Buffers.{Buffer}
use opentui_ocaml.Values.{to_int}
use opentui_ocaml.Diagnostics.{State, diag_slots, drain_loop, line_text, drain_diagnostics}
use opentui_ocaml.Diagnostics.Laws.{start, lines, IsValid}

drain_loop_more :
    (s : State) (remaining copied : ℕ)
    → ltb copied s.diag_count ≡ true
    → drain_loop s (suc remaining) copied
      ≡ s.diag_lines ((start s + copied) % diag_slots) ∷ drain_loop s remaining (copied + 1)
unfolding drain_loop
drain_loop_more s remaining copied more = rw (more, drain_loop) refl

drain_loop_done :
    (s : State) (remaining copied : ℕ)
    → ltb copied s.diag_count ≡ false
    → drain_loop s (suc remaining) copied ≡ []
unfolding drain_loop
drain_loop_done s remaining copied done = rw (done, drain_loop) refl

-- The lines that the loop copies.
drain_loop-lines :
    (remaining : ℕ) (s : State) (copied : ℕ)
    → copied ≤ s.diag_count
    → s.diag_count ≤ diag_slots
    → map line_text (drain_loop s remaining copied)
      ≡ take remaining (
          Ring.contents diag_slots line_text s.diag_lines
            (start s + copied)
            (s.diag_count - copied))
unfolding drain_loop Ring.contents
drain_loop-lines zero s copied h v = refl
drain_loop-lines (suc remaining) s copied h v = elim (Bool-cases (ltb copied s.diag_count)) [
  | inl more ↦
      let left : s.diag_count - copied ≡ suc (s.diag_count - (copied + 1)) = ground (arith, more) in
      let next : start s + copied + 1 ≡ start s + (copied + 1) = omega arith in
      let line = s.diag_lines ((start s + copied) % diag_slots) in
      ap (map line_text) (drain_loop_more s remaining copied more)
      ∙ ap (λ xs. line_text line ∷ xs)
          (drain_loop-lines remaining s (copied + 1) (ground (arith, more)) v
            ∙ ap
                (λ b.
                  take remaining (
                    Ring.contents diag_slots line_text s.diag_lines b
                      (s.diag_count - (copied + 1))))
                (sym next))
      ∙ ap
          (λ n.
            take (suc remaining)
              (Ring.contents diag_slots line_text s.diag_lines (start s + copied) n))
          (sym left)
  | inr done ↦
      let none_left : s.diag_count - copied ≡ 0 = ground (arith, done) in
      ap (map line_text) (drain_loop_done s remaining copied done)
      ∙ ap
          (λ n.
            take (suc remaining)
              (Ring.contents diag_slots line_text s.diag_lines (start s + copied) n))
          (sym none_left)
]

drop_all : (n : ℕ) (xs : List (List ℕ)) → length xs ≤ n → drop n xs ≡ []
drop_all zero [] h = refl
drop_all zero (x ∷ xs) h = absurd (omega arith)
drop_all (suc n) [] h = refl
drop_all (suc n) (x ∷ xs) h = drop_all n xs (omega arith)

length-map : (xs : List Buffer) → length (map line_text xs) ≡ length xs
length-map [] = refl
length-map (x ∷ xs) = ap suc (length-map xs)

-- Draining at most as many lines as `max_value` says as an `int` returns the oldest of them, in
-- order, and keeps the others; a negative `int` returns none.
pub drain_diagnostics-lines :
    (s : State) (max_value : ℤ)
    → IsValid s
    → ((drain_diagnostics s max_value).0 ≡ take (pos_part (to_int max_value)) (lines s))
      × (lines (drain_diagnostics s max_value).1 ≡ drop (pos_part (to_int max_value)) (lines s))
      × IsValid (drain_diagnostics s max_value).1
unfolding drain_diagnostics Ring.contents
drain_diagnostics-lines s max_value v =
    let after =
      if_rule After (length (drain_loop s n 0) == s.diag_count)
        (λ all. (
          sym (drop_all n (lines s) (ground (arith, all, copied, size))),
          (omega arith, omega arith),
        ))
        (λ some_left. (
          rest (ground (arith, some_left, copied)) (ground (arith, some_left, copied)),
          (v.0, omega (arith, v.1)),
        )) in
    (taken, after.0, after.1)
  where
    n : ℕ
    n = pos_part (to_int max_value)

    After : State → Type 0
    After t = (lines t ≡ drop n (lines s)) × IsValid t

    size : length (lines s) ≡ s.diag_count
    size = length-contents diag_slots line_text s.diag_lines (start s) s.diag_count

    taken : map line_text (drain_loop s n 0) ≡ take n (lines s)
    taken =
        let same : start s + 0 ≡ start s = omega arith in
        let all : s.diag_count - 0 ≡ s.diag_count = omega arith in
        drain_loop-lines n s 0 (omega arith) v.1
        ∙ ap (λ b. take n (Ring.contents diag_slots line_text s.diag_lines b (s.diag_count - 0)))
            same
        ∙ ap (λ c. take n (Ring.contents diag_slots line_text s.diag_lines (start s) c)) all

    copied : length (drain_loop s n 0) ≡ min n s.diag_count
    copied =
        sym (length-map (drain_loop s n 0))
        ∙ ap length taken
        ∙ length-take n (lines s)
        ∙ ap (min n) size

    rest :
        length (drain_loop s n 0) ≡ n
        → n ≤ s.diag_count
        → lines (record s { diag_count = s.diag_count - length (drain_loop s n 0) })
          ≡ drop n (lines s)
    rest e h =
        let same : s.diag_head + diag_slots - (s.diag_count - n) ≡ start s + n =
          omega (arith, v.1) in
        ap
          (λ k.
            Ring.contents diag_slots line_text s.diag_lines
              (s.diag_head + diag_slots - (s.diag_count - k)) (s.diag_count - k))
          e
        ∙ ap (λ b. Ring.contents diag_slots line_text s.diag_lines b (s.diag_count - n)) same
        ∙ contents-drop diag_slots line_text n s.diag_lines (start s) s.diag_count h
