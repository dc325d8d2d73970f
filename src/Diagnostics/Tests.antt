-- ===== src/Diagnostics/Tests.antt =====
-- Runs of the diagnostics ring.
use opentui_ocaml.Prelude.{
  ◌-◌, ◌^◌, refl, some, inl, ℕ, ◌≡◌, List, [], ◌∷◌, ◌++◌, map, take, drop, arith,
}
use opentui_ocaml.Prelude.Int.{pos, negsuc, pos_part}
use opentui_ocaml.Values.{to_int}
use opentui_ocaml.Diagnostics.{
  diag_push, State, drain_diagnostics, drain_loop, line_text, print_string, diag_line,
}
use opentui_ocaml.Diagnostics.Lines.{line_text-print_string}
use opentui_ocaml.Diagnostics.Callbacks.{
  StringView, size_max, c_string, digits, decimal, error_start, error_end, log_start, log_end,
  uncaptured_error, log_callback,
}
use opentui_ocaml.Diagnostics.Captured.{text_of, callbacks-diag_push}
use opentui_ocaml.Diagnostics.Laws.{IsValid, lines, newest, cut}
use opentui_ocaml.Diagnostics.Newest.{push_all, drain_diagnostics-push_all}

abbrev empty : State
empty = record { diag_lines = λ i j. 0; diag_head = 0; diag_count = 0 }

abbrev texts : List (List ℕ)
texts = (97 ∷ []) ∷ (98 ∷ 99 ∷ []) ∷ []

drain_diagnostics-push_all_example :
    ((drain_diagnostics (push_all empty texts) (pos 1)).0
      ≡ take (pos_part (to_int (pos 1))) (newest (lines empty ++ map cut texts)))
    × (lines (drain_diagnostics (push_all empty texts) (pos 1)).1
        ≡ drop (pos_part (to_int (pos 1))) (newest (lines empty ++ map cut texts)))
    × IsValid (drain_diagnostics (push_all empty texts) (pos 1)).1
drain_diagnostics-push_all_example =
    drain_diagnostics-push_all empty texts (pos 1) (omega arith, omega arith)
      ((omega arith, tt), ((omega arith, (omega arith, tt)), tt))

-- A maximum above 2 ^ 31 is a negative `int`.
wide_drain : (drain_diagnostics (push_all empty texts) (pos (2 ^ 62 - 1))).0 ≡ []
unfolding drain_diagnostics drain_loop to_int
wide_drain = refl

line_text-print_string_example :
    line_text (print_string (λ i. 7) diag_line (97 ∷ 98 ∷ [])) ≡ 97 ∷ 98 ∷ []
line_text-print_string_example =
    line_text-print_string (λ i. 7) (97 ∷ 98 ∷ []) (omega arith, (omega arith, tt))

abbrev message : StringView
message = record { bytes = some (104 ∷ 105 ∷ 0 ∷ []); length = size_max }

-- "uncaptured gpu error (type 2): hi" and "wgpu[-1]: hi"
callbacks-diag_push_example :
    (uncaptured_error (λ i. 7) (λ i. 9) empty (pos 2) message
      ≡ diag_push empty (text_of error_start (pos 2) error_end message))
    × (log_callback (λ i. 7) (λ i. 9) empty (negsuc 0) message
        ≡ diag_push empty (text_of log_start (negsuc 0) log_end message))
callbacks-diag_push_example =
    callbacks-diag_push (λ i. 7) (λ i. 9) empty 2 (negsuc 0) message (omega arith) (inl refl)

log_text :
    text_of log_start (negsuc 0) log_end message
    ≡ log_start ++ 45 ∷ 49 ∷ 93 ∷ 58 ∷ 32 ∷ 104 ∷ 105 ∷ []
unfolding decimal digits c_string
log_text = refl
