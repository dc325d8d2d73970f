-- ===== src/Diagnostics/Callbacks.antt =====
-- packages/opentui-wgpu/src/wgpu_stubs.c, the callbacks that write the diagnostic lines.
use opentui_ocaml.Prelude.{
  ℕ, zero, suc, ◌+◌, ◌-◌, ◌/◌, ◌%◌, ◌^◌, Option, List, [], ◌∷◌, ◌++◌, ◌==◌, ltb, leb, if◌then◌else◌,
  found, length, take,
}
use opentui_ocaml.Prelude.Int.{ℤ, pos, negsuc}
use opentui_ocaml.Ring.{write_at}
use opentui_ocaml.Buffers.{Buffer, copy_bytes}
use opentui_ocaml.Diagnostics.{State, diag_line, print_string, read_string, diag_push}

-- `SIZE_MAX`
abbrev pub size_max : ℕ
size_max = 2 ^ 64 - 1

-- `WGPUStringView`, with the bytes from the address `data` on, or none if it is NULL.
pub record StringView : Type 0 where
  pub bytes : Option (List ℕ)
  pub length : ℕ

-- The bytes before the first 0; `strlen` counts them.
unfoldable pub c_string : List ℕ → List ℕ
c_string [] = []
c_string (b ∷ bs) = let rest = c_string bs in if b == 0 then [] else b ∷ rest

unfoldable pub copy_message : Buffer → ℕ → StringView → Buffer
copy_message destination destination_size message =
    found message.bytes (write_at destination 0 0) (λ there.
      if message.length == 0
      then write_at destination 0 0
      else let measured =
          if message.length == size_max then length (c_string there) else message.length in
        let copied = if leb destination_size measured then destination_size - 1 else measured in
        write_at (copy_bytes destination 0 (take copied there)) copied 0)

-- The decimal digits of a number, at most so many.
unfoldable pub digits : ℕ → ℕ → List ℕ
digits zero n = []
digits (suc rounds) n =
    let front = digits rounds (n / 10) in
    if ltb n 10 then (48 + n) ∷ [] else front ++ (48 + n % 10) ∷ []

-- `%d`; an `int` has at most ten digits.
unfoldable pub decimal : ℤ → List ℕ
decimal (pos n) = digits 10 n
decimal (negsuc n) = 45 ∷ digits 10 (n + 1)

-- "uncaptured gpu error (type ", "): ", "wgpu[" and "]: "
abbrev pub error_start : List ℕ
error_start =
    117 ∷ 110 ∷ 99 ∷ 97 ∷ 112 ∷ 116 ∷ 117 ∷ 114 ∷ 101 ∷ 100 ∷ 32 ∷ 103 ∷ 112 ∷ 117 ∷ 32 ∷ 101 ∷ 114
    ∷ 114 ∷ 111 ∷ 114 ∷ 32 ∷ 40 ∷ 116 ∷ 121 ∷ 112 ∷ 101 ∷ 32 ∷ []

abbrev pub error_end : List ℕ
error_end = 41 ∷ 58 ∷ 32 ∷ []

abbrev pub log_start : List ℕ
log_start = 119 ∷ 103 ∷ 112 ∷ 117 ∷ 91 ∷ []

abbrev pub log_end : List ℕ
log_end = 93 ∷ 58 ∷ 32 ∷ []

-- `OPENTUI_WGPU_DIAG_LINE - 32`
abbrev pub message_size : ℕ
message_size = diag_line - 32

-- What `snprintf` makes of a start, "%d", an end and "%s".
abbrev pub formatted : List ℕ → ℤ → List ℕ → List ℕ → List ℕ
formatted start n end text = start ++ (decimal n ++ (end ++ text))

-- The two arrays of a callback have no contents at first.
unfoldable pub uncaptured_error : Buffer → Buffer → State → ℤ → StringView → State
uncaptured_error line message_text s type message =
    let copied = copy_message message_text message_size message in
    let printed =
      print_string line diag_line
        (formatted error_start type error_end (read_string message_size copied 0)) in
    diag_push s (read_string diag_line printed 0)

unfoldable pub log_callback : Buffer → Buffer → State → ℤ → StringView → State
log_callback line message_text s level message =
    let copied = copy_message message_text message_size message in
    let printed =
      print_string line diag_line
        (formatted log_start level log_end (read_string message_size copied 0)) in
    diag_push s (read_string diag_line printed 0)
