-- ===== src/Diagnostics/Captured.antt =====
-- What the callbacks of wgpu_stubs.c push: the lines hold their messages.
use opentui_ocaml.Prelude.{
  not, ◌&&◌, ℕ, zero, suc, ◌+◌, ◌-◌, ◌/◌, ◌%◌, ◌≤◌, ◌<◌, ◌≡◌, refl, ap, ◌∙◌, Bool, true, List, [],
  ◌∷◌, ◌++◌, arith, ◌==◌, ltb, if_rule, length, take, length-take, length-append,
}
use opentui_ocaml.Prelude.Int.{ℤ, pos, negsuc}
use opentui_ocaml.Buffers.{Buffer}
use opentui_ocaml.Diagnostics.{State, diag_line, print_string, read_string, diag_push}
use opentui_ocaml.Diagnostics.Lines.{NoZero, line_text-print_string}
use opentui_ocaml.Diagnostics.Callbacks.{
  StringView, c_string, copy_message, digits, decimal, formatted, error_start, error_end, log_start,
  log_end, message_size, uncaptured_error, log_callback,
}
use opentui_ocaml.Diagnostics.Messages.{
  view_bytes, IsReadable, take_all, length-c_string, copy_message-c_string,
}

NoZero-append : (xs ys : List ℕ) → NoZero xs → NoZero ys → NoZero (xs ++ ys)
NoZero-append [] ys h k = k
NoZero-append (x ∷ xs) ys h k = (h.0, NoZero-append xs ys h.1 k)

NoZero-c_string : (bs : List ℕ) → NoZero (c_string bs)
unfolding c_string
NoZero-c_string [] = tt
NoZero-c_string (b ∷ bs) = ground (arith, NoZero-c_string bs)

NoZero-digits : (rounds n : ℕ) → NoZero (digits rounds n)
unfolding digits
NoZero-digits zero n = tt
NoZero-digits (suc rounds) n =
    let both =
      NoZero-append (digits rounds (n / 10)) ((48 + n % 10) ∷ []) (NoZero-digits rounds (n / 10))
        (omega arith, tt) in
    if_rule NoZero (ltb n 10) (λ one. (omega arith, tt)) (λ more. both)

NoZero-decimal : (n : ℤ) → NoZero (decimal n)
unfolding decimal
NoZero-decimal (pos n) = NoZero-digits 10 n
NoZero-decimal (negsuc n) = (omega arith, NoZero-digits 10 (n + 1))

length-digits : (rounds n : ℕ) → length (digits rounds n) ≤ rounds
unfolding digits
length-digits zero n = omega arith
length-digits (suc rounds) n = ground (
  arith,
  length-digits rounds (n / 10),
  length-append (digits rounds (n / 10)) ((48 + n % 10) ∷ []),
)

length-decimal : (n : ℤ) → length (decimal n) ≤ 11
unfolding decimal
length-decimal (pos n) = omega (arith, length-digits 10 n)
length-decimal (negsuc n) = omega (arith, length-digits 10 (n + 1))

one_digit : (rounds n : ℕ) → n < 10 → length (digits rounds n) ≤ 1
unfolding digits
one_digit zero n h = omega arith
one_digit (suc rounds) n h = ground arith

two_digits : (rounds n : ℕ) → n < 100 → length (digits rounds n) ≤ 2
unfolding digits
two_digits zero n h = omega arith
two_digits (suc rounds) n h = ground (
  arith,
  one_digit rounds (n / 10) (omega arith),
  length-append (digits rounds (n / 10)) ((48 + n % 10) ∷ []),
)

length-decimal-two : (n : ℕ) → n < 100 → length (decimal (pos n)) ≤ 2
unfolding decimal
length-decimal-two n h = two_digits 10 n h

-- The text of a line.
abbrev pub text_of : List ℕ → ℤ → List ℕ → StringView → List ℕ
text_of start n end m = formatted start n end (c_string (take (message_size - 1) (view_bytes m)))

NoZero-text_of :
    (start : List ℕ) (n : ℤ) (end : List ℕ) (m : StringView)
    → NoZero start
    → NoZero end
    → NoZero (text_of start n end m)
NoZero-text_of start n end m a b =
    NoZero-append start _ a
      (NoZero-append (decimal n) _ (NoZero-decimal n) (NoZero-append end _ b (NoZero-c_string _)))

length-text_of :
    (start : List ℕ) (n : ℤ) (end : List ℕ) (m : StringView) (count : ℕ)
    → length (decimal n) ≤ count
    → length (text_of start n end m) ≤ length start + count + length end + 223
length-text_of start n end m count h =
    let text = take 223 (view_bytes m) in
    omega (
      arith,
      length-append start (decimal n ++ (end ++ c_string text)),
      length-append (decimal n) (end ++ c_string text),
      length-append end (c_string text),
      length-c_string text,
      length-take 223 (view_bytes m),
    )

-- A text without 0 that fits a line is pushed whole.
fitting_line :
    (line : Buffer) (text : List ℕ)
    → NoZero text
    → length text ≤ 255
    → read_string diag_line (print_string line diag_line text) 0 ≡ text
fitting_line line text nz h = line_text-print_string line text nz ∙ take_all 255 text h

abbrev all_nonzero : List ℕ → Bool
all_nonzero [] = true
all_nonzero (b ∷ bs) = not (b == 0) && all_nonzero bs

NoZero-all_nonzero : (bs : List ℕ) → all_nonzero bs ≡ true → NoZero bs
NoZero-all_nonzero [] h = tt
NoZero-all_nonzero (b ∷ bs) h = ground (arith, NoZero-all_nonzero bs)

-- A line that starts with so much, and a number of so many digits, is read back whole.
pushed_whole :
    (line message_text : Buffer) (s : State) (start : List ℕ) (n : ℤ) (end : List ℕ)
    (m : StringView)
    → all_nonzero start ≡ true
    → all_nonzero end ≡ true
    → length start + length (decimal n) + length end ≤ 32
    → IsReadable m
    → diag_push s (
        read_string diag_line
          (print_string line diag_line (
            formatted start n end
              (read_string message_size (copy_message message_text message_size m) 0)))
          0)
      ≡ diag_push s (text_of start n end m)
pushed_whole line message_text s start n end m a b short readable =
    rw (copy_message-c_string message_text m readable) (
      ap (diag_push s) (
        fitting_line line (text_of start n end m)
          (NoZero-text_of start n end m (NoZero-all_nonzero start a) (NoZero-all_nonzero end b))
          (omega (arith, length-text_of start n end m (length (decimal n)) (omega arith), short))))

-- With a message whose length is not more than the bytes that it has, or that is measured, an error
-- of a type below 100 pushes the text with its type and the message, cut to 223 bytes and then to
-- the first 0, and nothing of it is lost; a log line of any level does so too.
pub callbacks-diag_push :
    (line message_text : Buffer) (s : State) (type : ℕ) (level : ℤ) (m : StringView)
    → type < 100
    → IsReadable m
    → (uncaptured_error line message_text s (pos type) m
        ≡ diag_push s (text_of error_start (pos type) error_end m))
      × (log_callback line message_text s level m ≡ diag_push s (text_of log_start level log_end m))
unfolding uncaptured_error log_callback
callbacks-diag_push line message_text s type level m small readable = (
  pushed_whole line message_text s error_start (pos type) error_end m refl refl
      (omega (arith, length-decimal-two type small)) readable,
  pushed_whole line message_text s log_start level log_end m refl refl
      (omega (arith, length-decimal level)) readable,
)
