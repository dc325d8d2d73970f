-- ===== src/Diagnostics/Messages.antt =====
-- A message that wgpu_stubs.c copies into an array is read back from it.
use opentui_ocaml.Prelude.{
  ℕ, zero, suc, ◌+◌, ◌-◌, ◌≤◌, ◌<◌, ◌≡◌, ◌⊎◌, refl, sym, ap, ◌∙◌, subst, Bool, true, false, Option,
  none, some, List, [], ◌∷◌, arith, ◌==◌, leb, if◌then◌else◌, if_rule, length, take, drop,
  length-take,
}
use opentui_ocaml.Ring.{write_at}
use opentui_ocaml.Buffers.{Buffer, copy_bytes, read_bytes, read_bytes-agree, read_bytes-copy_bytes}
use opentui_ocaml.Diagnostics.{read_string}
use opentui_ocaml.Diagnostics.Callbacks.{size_max, StringView, c_string, copy_message, message_size}

-- The bytes that a message has, by its length or up to a 0.
abbrev pub view_bytes : StringView → List ℕ
view_bytes m = elim m.bytes [
  | none ↦ []
  | some bytes ↦ if m.length == size_max then c_string bytes else take m.length bytes
]

-- No more bytes are claimed than there are.
abbrev pub IsReadable : StringView → Type 0
IsReadable m = elim m.bytes [
  | none ↦ Unit {0}
  | some bytes ↦ (m.length ≡ size_max) ⊎ (m.length ≤ length bytes)
]

first_or_zero : List ℕ → ℕ
first_or_zero [] = 0
first_or_zero (b ∷ bs) = b

-- Reading an array as a string gives its bytes up to the first 0.
read_string-c_string :
    (bs : List ℕ) (left : ℕ) (buffer : Buffer) (start : ℕ)
    → read_bytes buffer start (length bs) ≡ bs
    → buffer (start + length bs) ≡ 0
    → length bs < left
    → read_string left buffer start ≡ c_string bs
unfolding read_string read_bytes c_string first_or_zero
read_string-c_string bs zero buffer start e z h = absurd (omega arith)
read_string-c_string [] (suc left) buffer start e z h =
    let here : start + 0 ≡ start = omega arith in
    let stop : buffer start ≡ 0 = ap buffer (sym here) ∙ z in rw (stop, read_string) refl
read_string-c_string (b ∷ bs) (suc left) buffer start e z h =
    let here : buffer start ≡ b = ap first_or_zero e in
    let next : start + 1 + length bs ≡ start + suc (length bs) = omega arith in
    let rest : read_string left buffer (start + 1) ≡ c_string bs =
      read_string-c_string bs left buffer (start + 1) (ap (drop 1) e) (ap buffer next ∙ z)
        (omega arith) in
    if_rule (λ x. read_string (suc left) buffer start ≡ x) (b == 0)
      (λ e0. rw (ap (λ n. n == 0) here ∙ e0, read_string) refl)
      (λ e0. rw (ap (λ n. n == 0) here ∙ e0, read_string) (rw (here, rest) refl))

pub take_all : (n : ℕ) (xs : List ℕ) → length xs ≤ n → take n xs ≡ xs
take_all zero [] h = refl
take_all (suc n) [] h = refl
take_all zero (x ∷ xs) h = absurd (omega arith)
take_all (suc n) (x ∷ xs) h = ap (λ r. x ∷ r) (take_all n xs (omega arith))

pub length-c_string : (bs : List ℕ) → length (c_string bs) ≤ length bs
unfolding c_string
length-c_string [] = omega arith
length-c_string (b ∷ bs) = ground (arith, length-c_string bs)

take-c_string : (n : ℕ) (bs : List ℕ) → n ≤ length (c_string bs) → take n bs ≡ take n (c_string bs)
unfolding c_string
take-c_string zero bs h = refl
take-c_string (suc n) [] h = refl
take-c_string (suc n) (b ∷ bs) h = ground (arith, take-c_string n bs)

take-take : (n k : ℕ) (bs : List ℕ) → n ≤ k → take n bs ≡ take n (take k bs)
take-take zero k bs h = refl
take-take (suc n) zero bs h = absurd (omega arith)
take-take (suc n) (suc k) [] h = refl
take-take (suc n) (suc k) (b ∷ bs) h = ap (λ r. b ∷ r) (take-take n k bs (omega arith))

copied_bytes :
    (d : Buffer) (bs : List ℕ) (kept : ℕ)
    → length bs ≡ kept
    → kept < message_size
    → read_string message_size (write_at (copy_bytes d 0 bs) kept 0) 0 ≡ c_string bs
copied_bytes d bs kept e h =
    read_string-c_string bs message_size (write_at (copy_bytes d 0 bs) kept 0) 0
      (read_bytes-agree (length bs) 0 (write_at (copy_bytes d 0 bs) kept 0) (copy_bytes d 0 bs)
          (λ i p q. ground arith)
        ∙ read_bytes-copy_bytes bs d 0)
      (ground arith) (omega arith)

-- A message that is copied up to where it fits is read back up to where it fits.
copied-c_string :
    (d : Buffer) (bytes v : List ℕ)
    → ((j : ℕ) → j ≤ length v → take j bytes ≡ take j v)
    → let kept = if leb message_size (length v) then message_size - 1 else length v in
      read_string message_size (write_at (copy_bytes d 0 (take kept bytes)) kept 0) 0
      ≡ c_string (take (message_size - 1) v)
copied-c_string d bytes v same =
    if_rule
      (λ kept.
        read_string message_size (write_at (copy_bytes d 0 (take kept bytes)) kept 0) 0
        ≡ c_string (take 223 v))
      (leb message_size (length v))
      (λ long.
        let enough : 224 ≤ length v = ground arith in
        rw (same 223 (omega arith))
          (copied_bytes d (take 223 v) 223 (omega (arith, length-take 223 v)) (omega arith)))
      (λ short.
        let few : length v ≤ 223 = ground arith in
        rw (same (length v) (omega arith), take_all (length v) v (omega arith), take_all 223 v few)
          (copied_bytes d v (length v) refl (omega arith)))

-- The same by the test on the length.
measured-c_string :
    (d : Buffer) (bytes : List ℕ) (l : ℕ) (by_zero : Bool)
    → (by_zero ≡ false → l ≤ length bytes)
    → let measured = if by_zero then length (c_string bytes) else l in
      let v = if by_zero then c_string bytes else take l bytes in
      let kept = if leb message_size measured then message_size - 1 else measured in
      read_string message_size (write_at (copy_bytes d 0 (take kept bytes)) kept 0) 0
      ≡ c_string (take (message_size - 1) v)
measured-c_string d bytes l true h =
    copied-c_string d bytes (c_string bytes) (λ j. take-c_string j bytes)
measured-c_string d bytes l false h =
    let all : length (take l bytes) ≡ l = omega (arith, length-take l bytes, h refl) in
    subst
      (λ n.
        let kept = if leb message_size n then message_size - 1 else n in
        read_string message_size (write_at (copy_bytes d 0 (take kept bytes)) kept 0) 0
        ≡ c_string (take 223 (take l bytes)))
      all (copied-c_string d bytes (take l bytes) (λ j p. take-take j l bytes (omega (arith, all))))

pub copy_message-c_string :
    (d : Buffer) (m : StringView)
    → IsReadable m
    → read_string message_size (copy_message d message_size m) 0
      ≡ c_string (take (message_size - 1) (view_bytes m))
unfolding copy_message copy_bytes c_string
copy_message-c_string d m r = by_bytes m.bytes m.length r
  where
    by_bytes :
        (bytes : Option (List ℕ)) (size : ℕ)
        → IsReadable (record { bytes = bytes; length = size })
        → read_string message_size
            (copy_message d message_size (record { bytes = bytes; length = size }))
            0
          ≡ c_string
              (take (message_size - 1) (view_bytes (record { bytes = bytes; length = size })))
    by_bytes none l r = copied_bytes d [] 0 refl (omega arith)
    by_bytes (some bytes) zero r = copied_bytes d [] 0 refl (omega arith)
    by_bytes (some bytes) (suc l) r =
        let nonzero : (suc l == 0) ≡ false = ground arith in
        rw nonzero (measured-c_string d bytes (suc l) (suc l == size_max) (λ e. ground arith))
