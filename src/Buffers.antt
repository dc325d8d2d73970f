-- ===== src/Buffers.antt =====
-- Byte arrays of the C code: what `memcpy` writes, and what is read back.
use opentui_ocaml.Prelude.{
  ℕ, zero, suc, ◌+◌, ◌≤◌, ◌<◌, ◌≡◌, refl, ap, ◌∙◌, ◌⊎◌, List, [], ◌∷◌, arith, length,
}
use opentui_ocaml.Ring.{write_at}

abbrev pub Buffer : Type 0
Buffer = ℕ → ℕ

-- `memcpy(destination + start, bytes, length)`
unfoldable pub copy_bytes : Buffer → ℕ → List ℕ → Buffer
copy_bytes destination start [] = destination
copy_bytes destination start (b ∷ bs) = copy_bytes (write_at destination start b) (start + 1) bs

-- The first `count` bytes from `start` on.
unfoldable pub read_bytes : Buffer → ℕ → ℕ → List ℕ
read_bytes buffer start zero = []
read_bytes buffer start (suc count) = buffer start ∷ read_bytes buffer (start + 1) count

pub copy_bytes_outside :
    (bs : List ℕ) (d : Buffer) (start i : ℕ)
    → (i < start) ⊎ (start + length bs ≤ i)
    → copy_bytes d start bs i ≡ d i
unfolding copy_bytes
copy_bytes_outside [] d start i h = refl
copy_bytes_outside (b ∷ bs) d start i h =
    copy_bytes_outside bs (write_at d start b) (start + 1) i (omega arith) ∙ ground arith

pub read_bytes-agree :
    (n start : ℕ) (f g : Buffer)
    → ((i : ℕ) → start ≤ i → i < start + n → f i ≡ g i)
    → read_bytes f start n ≡ read_bytes g start n
unfolding read_bytes
read_bytes-agree zero start f g h = refl
read_bytes-agree (suc n) start f g h = rw (h start (omega arith) (omega arith)) (
    ap (λ r. g start ∷ r)
      (read_bytes-agree n (start + 1) f g (λ i p q. h i (omega arith) (omega arith))))

pub read_bytes-copy_bytes :
    (bs : List ℕ) (d : Buffer) (start : ℕ)
    → read_bytes (copy_bytes d start bs) start (length bs) ≡ bs
unfolding read_bytes copy_bytes
read_bytes-copy_bytes [] d start = refl
read_bytes-copy_bytes (b ∷ bs) d start =
    rw (read_bytes-copy_bytes bs (write_at d start b) (start + 1)) (
      ap (λ x. x ∷ bs)
        (copy_bytes_outside bs (write_at d start b) (start + 1) start (omega arith) ∙ ground arith))
