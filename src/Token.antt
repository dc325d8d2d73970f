-- ===== src/Token.antt =====
-- Handle tokens of packages/opentui-raw: `make_token`, `token_index`, `token_generation` and
-- `next_generation` of span_feed_stubs.c; yoga_stubs.c has the same functions under other names.
-- A `uint32_t` or `uint16_t` is a number, and its wrap-around is written out.
pub mod Laws
use opentui_ocaml.Prelude.{ℕ, ◌+◌, ◌*◌, ◌/◌, ◌%◌, ◌^◌, bit_and, bit_or, ◌==◌, if◌then◌else◌}

-- `((uint32_t)generation << 16) | index`
unfoldable pub make_token : ℕ → ℕ → ℕ
make_token index generation = bit_or (generation * 2 ^ 16 % 2 ^ 32) index

unfoldable pub token_index : ℕ → ℕ
token_index token = bit_and token 0xffff

unfoldable pub token_generation : ℕ → ℕ
token_generation token = token / 2 ^ 16 % 2 ^ 16

-- Generation 0 marks a slot that was never used, so the counter skips it.
unfoldable pub next_generation : ℕ → ℕ
next_generation generation = if generation == 0xffff then 1 else (generation + 1) % 2 ^ 16
