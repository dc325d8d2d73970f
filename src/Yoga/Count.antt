-- ===== src/Yoga/Count.antt =====
-- How many numbers below a bound are not marked yet: the measure of the loops of yoga_stubs.c over
-- the node table.
use native.Mathlib.Decide.{ℕ_discrete}
use opentui_ocaml.Prelude.{
  ℕ, zero, suc, ◌+◌, ◌≤◌, ◌<◌, ◌≡◌, refl, Bool, true, false, arith, ◌==◌, if◌then◌else◌,
}

-- How many numbers below `n` are not marked.
pub count : ℕ → (ℕ → Bool) → ℕ
count zero marked = 0
count (suc n) marked = (if marked n then 0 else 1) + count n marked

abbrev pub mark : (ℕ → Bool) → ℕ → ℕ → Bool
mark marked i j = if i == j then true else marked j

count-mark_above :
    (n : ℕ) (marked : ℕ → Bool) (i : ℕ) → n ≤ i → count n (mark marked i) ≡ count n marked
unfolding count
count-mark_above zero marked i h = refl
count-mark_above (suc n) marked i h = ground (arith, count-mark_above n marked i (omega arith))

pub count-mark :
    (n : ℕ) (marked : ℕ → Bool) (i : ℕ)
    → i < n
    → marked i ≡ false
    → suc (count n (mark marked i)) ≡ count n marked
unfolding count
count-mark zero marked i h e = absurd (omega arith)
count-mark (suc n) marked i h e = elim (ℕ_discrete i n) [
  | yes same ↦ ground (arith, count-mark_above n marked i (omega arith))
  | no other ↦ ground (arith, count-mark n marked i (omega arith) e)
]

pub count_none : (n : ℕ) → count n (λ j. false) ≡ n
unfolding count
count_none zero = refl
count_none (suc n) = omega (arith, count_none n)

pub count-agree : (n : ℕ) (a b : ℕ → Bool) → ((i : ℕ) → i < n → a i ≡ b i) → count n a ≡ count n b
unfolding count
count-agree zero a b e = refl
count-agree (suc n) a b e =
    rw (e n (omega arith), count-agree n a b (λ i p. e i (omega arith))) refl

pub count_below : (n : ℕ) (marked : ℕ → Bool) → marked 0 ≡ true → count (suc n) marked ≤ n
unfolding count
count_below zero marked e = ground (arith, e)
count_below (suc n) marked e = ground (arith, count_below n marked e)
