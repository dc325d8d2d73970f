-- ===== src/Diagnostics/Newest.antt =====
-- Many diagnostics of wgpu_stubs.c before one drain.
use mathlib.Core.List.{append-nil, append_assoc}
use opentui_ocaml.Prelude.{
  ℕ, ◌+◌, ◌-◌, ◌≡◌, sym, ap, ◌∙◌, List, [], ◌∷◌, ◌++◌, map, arith, length, take, drop,
  length-append, length-drop, drop-append, drop-drop,
}
use opentui_ocaml.Prelude.Int.{ℤ, pos_part}
use opentui_ocaml.Ring.{length-contents}
use opentui_ocaml.Values.{to_int}
use opentui_ocaml.Diagnostics.{State, diag_slots, diag_push, line_text, drain_diagnostics}
use opentui_ocaml.Diagnostics.Lines.{NoZero}
use opentui_ocaml.Diagnostics.Laws.{IsValid, start, lines, newest, cut, lines-diag_push}
use opentui_ocaml.Diagnostics.Drained.{drain_diagnostics-lines}

-- Every push in turn.
unfoldable pub push_all : State → List (List ℕ) → State
push_all s [] = s
push_all s (t ∷ ts) = push_all (diag_push s t) ts

abbrev pub AllNoZero : List (List ℕ) → Type 0
AllNoZero [] = Unit {0}
AllNoZero (t ∷ ts) = NoZero t × AllNoZero ts

newest-append : (xs ys : List (List ℕ)) → newest (newest xs ++ ys) ≡ newest (xs ++ ys)
newest-append xs ys =
    let d = length xs - diag_slots in
    let joined : newest xs ++ ys ≡ drop d (xs ++ ys) = sym (drop-append d xs ys (omega arith)) in
    let count : d + (length (drop d (xs ++ ys)) - diag_slots) ≡ length (xs ++ ys) - diag_slots =
      omega (arith, length-drop d (xs ++ ys), length-append xs ys) in
    ap newest joined
    ∙ drop-drop d (length (drop d (xs ++ ys)) - diag_slots) (xs ++ ys)
    ∙ ap (λ n. drop n (xs ++ ys)) count

lines-push_all :
    (ts : List (List ℕ)) (s : State)
    → IsValid s
    → AllNoZero ts
    → IsValid (push_all s ts) × (lines (push_all s ts) ≡ newest (lines s ++ map cut ts))
unfolding push_all
lines-push_all [] s v nz =
    let size = length-contents diag_slots line_text s.diag_lines (start s) s.diag_count in
    let none_dropped : length (lines s) - diag_slots ≡ 0 = omega (arith, size, v.1) in
    (v, sym (ap (λ n. drop n (lines s)) none_dropped) ∙ ap newest (sym (append-nil (lines s))))
lines-push_all (t ∷ ts) s v nz =
    let pushed = lines-diag_push s t v nz.0 in
    let rest = lines-push_all ts (diag_push s t) pushed.0 nz.1 in
    (
      rest.0,
      rest.1
          ∙ ap (λ l. newest (l ++ map cut ts)) pushed.1
          ∙ newest-append (lines s ++ (cut t ∷ [])) (map cut ts)
          ∙ ap newest (append_assoc (lines s) (cut t ∷ []) (map cut ts)),
    )

-- From a valid ring, whatever texts without zero bytes are pushed, a drain returns the oldest of
-- the newest 256 lines, in order and each new one cut to 255 bytes, as many at most as the low 32
-- bits of max_value say as an int, and the others stay; where that int is negative or 0 it drains
-- none.
pub drain_diagnostics-push_all :
    (s : State) (ts : List (List ℕ)) (max_value : ℤ)
    → IsValid s
    → AllNoZero ts
    → let r = drain_diagnostics (push_all s ts) max_value in
      let all = newest (lines s ++ map cut ts) in
      (r.0 ≡ take (pos_part (to_int max_value)) all)
      × (lines r.1 ≡ drop (pos_part (to_int max_value)) all)
      × IsValid r.1
drain_diagnostics-push_all s ts max_value v nz =
    let pushed = lines-push_all ts s v nz in
    let drained = drain_diagnostics-lines (push_all s ts) max_value pushed.0 in
    (
      drained.0 ∙ ap (take (pos_part (to_int max_value))) pushed.1,
      drained.1 ∙ ap (drop (pos_part (to_int max_value))) pushed.1,
      drained.2,
    )
