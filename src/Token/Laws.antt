-- ===== src/Token/Laws.antt =====
-- Packing and unpacking a token, and the cycle of the generations.
use native.Mathlib.Nat.{mod-eq_of_lt}
use opentui_ocaml.Prelude.{ℕ, zero, suc, ◌+◌, ◌-◌, ◌*◌, ◌/◌, ◌%◌, ◌^◌, ◌<◌, ◌≡◌, ◌↔◌, ◌≢◌, arith}
use opentui_ocaml.Prelude.Bits.{bit_or_shifted, bit_and_mask}
use opentui_ocaml.Token.{make_token, token_index, token_generation, next_generation}

pub make_token_sum : (i g : ℕ) → i < 2 ^ 16 → g < 2 ^ 16 → make_token i g ≡ g * 2 ^ 16 + i
unfolding make_token
make_token_sum i g hi hg =
    rw (mod-eq_of_lt {n = g * 2 ^ 16} {m = 2 ^ 32} (omega arith)) (bit_or_shifted 16 g i hi)

pub token_index_mod : (token : ℕ) → token_index token ≡ token % 2 ^ 16
unfolding token_index
token_index_mod token = bit_and_mask 16 token

-- A token gives back the index that it was made from.
pub token_index-make_token : (i g : ℕ) → i < 2 ^ 16 → g < 2 ^ 16 → token_index (make_token i g) ≡ i
token_index-make_token i g hi hg =
    omega (arith, token_index_mod (make_token i g), make_token_sum i g hi hg)

-- A token gives back the generation that it was made from.
pub token_generation-make_token :
    (i g : ℕ) → i < 2 ^ 16 → g < 2 ^ 16 → token_generation (make_token i g) ≡ g
unfolding token_generation
token_generation-make_token i g hi hg = omega (arith, make_token_sum i g hi hg)

-- Every 32-bit token is made of its index and its generation.
pub make_token_fields :
    (token : ℕ) → token < 2 ^ 32 → make_token (token_index token) (token_generation token) ≡ token
unfolding token_generation
make_token_fields token h = omega (
  arith,
  make_token_sum (token_index token) (token / 2 ^ 16 % 2 ^ 16)
      (omega (arith, token_index_mod token)) (omega arith),
  token_index_mod token,
)

-- A token with a nonzero generation is not the 0 that reports a failure.
pub make_token_ne_zero : (i g : ℕ) → i < 2 ^ 16 → 0 < g → g < 2 ^ 16 → make_token i g ≢ 0
make_token_ne_zero i g hi hp hg = omega (arith, make_token_sum i g hi hg)

-- The next generation is a 16-bit number other than 0.
pub next_generation_range :
    (g : ℕ) → g < 2 ^ 16 → (0 < next_generation g) × (next_generation g < 2 ^ 16)
unfolding next_generation
next_generation_range g h = ground arith

-- The generation of a slot after it was handed out `n` times more.
unfoldable pub generation_after : ℕ → ℕ → ℕ
generation_after zero g = g
generation_after (suc n) g = generation_after n (next_generation g)

next_generation_mod : (g : ℕ) → 0 < g → g < 2 ^ 16 → next_generation g ≡ (g - 1 + 1) % 65535 + 1
unfolding next_generation
next_generation_mod g p h = ground arith

pub generation_after_mod :
    (n g : ℕ) → 0 < g → g < 2 ^ 16 → generation_after n g ≡ (g - 1 + n) % 65535 + 1
unfolding generation_after
generation_after_mod zero g p h = omega arith
generation_after_mod (suc n) g p h = omega (
  arith,
  generation_after_mod n (next_generation g) (next_generation_range g h).0
      (next_generation_range g h).1,
  next_generation_mod g p h,
)

-- A slot with a nonzero 16-bit generation comes back to it exactly after a multiple of 65535
-- further uses.
pub generation_after_eq_iff :
    (n g : ℕ) → 0 < g → g < 2 ^ 16 → (generation_after n g ≡ g) ↔ (n % 65535 ≡ 0)
generation_after_eq_iff n g p h = (
  λ e. omega (arith, generation_after_mod n g p h),
  λ e. omega (arith, generation_after_mod n g p h),
)
