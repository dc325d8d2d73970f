-- ===== src/Diagnostics.antt =====
-- packages/opentui-wgpu/src/wgpu_stubs.c, the capture of diagnostics: a ring of text lines that
-- keeps the newest, and the binding that drains it. Both run under one mutex, so their calls are a
-- sequence.
pub mod Lines
pub mod Laws
pub mod Drained
pub mod Newest
pub mod Callbacks
pub mod Messages
pub mod Captured
pub mod Tests
use opentui_ocaml.Prelude.{
  ℕ, zero, suc, ◌+◌, ◌-◌, ◌%◌, true, false, List, [], ◌∷◌, map, ◌==◌, ltb, if◌then◌else◌, length,
  take,
}
use opentui_ocaml.Prelude.Int.{ℤ, pos_part}
use opentui_ocaml.Ring.{write_at}
use opentui_ocaml.Values.{to_int}
use opentui_ocaml.Buffers.{Buffer, copy_bytes}

-- OPENTUI_WGPU_DIAG_SLOTS, OPENTUI_WGPU_DIAG_LINE
abbrev pub diag_slots : ℕ
diag_slots = 256

abbrev pub diag_line : ℕ
diag_line = 256

-- `opentui_wgpu_diag_lines`, `opentui_wgpu_diag_head`, `opentui_wgpu_diag_count`
pub record State : Type 0 where
  pub diag_lines : ℕ → Buffer
  pub diag_head : ℕ
  pub diag_count : ℕ

-- `snprintf(destination, size, "%s", text)`, the text without its final 0.
unfoldable pub print_string : Buffer → ℕ → List ℕ → Buffer
print_string destination size text =
    let kept = take (size - 1) text in write_at (copy_bytes destination 0 kept) (length kept) 0

-- The bytes before the first 0, in an array of so many.
unfoldable pub read_string : ℕ → Buffer → ℕ → List ℕ
read_string zero buffer start = []
read_string (suc left) buffer start = elim (buffer start == 0) [
  | true ↦ []
  | false ↦ buffer start ∷ read_string left buffer (start + 1)
]

unfoldable pub diag_push : State → List ℕ → State
diag_push s text = record {
  diag_lines =
      write_at s.diag_lines s.diag_head (print_string (s.diag_lines s.diag_head) diag_line text);
  diag_head = (s.diag_head + 1) % diag_slots;
  diag_count = if ltb s.diag_count diag_slots then s.diag_count + 1 else s.diag_count;
}

-- The loop of `opentui_wgpu_drain_diagnostics` with what remains and how many lines it has copied.
-- The index is `head - count + copied + SLOTS`, which is not negative.
unfoldable pub drain_loop : State → ℕ → ℕ → List Buffer
drain_loop s zero copied = []
drain_loop s (suc remaining) copied = elim (ltb copied s.diag_count) [
  | true ↦
      s.diag_lines ((s.diag_head + diag_slots - s.diag_count + copied) % diag_slots)
      ∷ drain_loop s remaining (copied + 1)
  | false ↦ []
]

abbrev pub line_text : Buffer → List ℕ
line_text line = read_string diag_line line 0

-- `remaining` is an `int`, so that the argument keeps its low 32 bits.
unfoldable pub drain_diagnostics : State → ℤ → List (List ℕ) × State
drain_diagnostics s max_value =
    let drained = drain_loop s (pos_part (to_int max_value)) 0 in
    (
      map line_text drained,
      if length drained == s.diag_count
          then record s { diag_head = 0; diag_count = 0 }
          else record s { diag_count = s.diag_count - length drained },
    )
