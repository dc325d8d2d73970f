-- ===== src/Slots/Tests.antt =====
-- Slot tables and tokens on small inputs.
use opentui_ocaml.Prelude.{ℕ, ◌%◌, ◌<◌, ◌≡◌, ◌≢◌, ◌↔◌, refl, true, none, some, [], ◌∷◌, arith}
use opentui_ocaml.Token.{make_token, token_index, token_generation}
use opentui_ocaml.Token.Laws.{make_token_fields, generation_after, generation_after_eq_iff}
use opentui_ocaml.Slots.{
  Table, zeroed, from_token, claimed, taken, allocate_from, allocate, release_slot, sweep,
}
use opentui_ocaml.Slots.Laws.{IsValid, from_token-release_slot}
use opentui_ocaml.Slots.Fresh.{IsFresh, allocate-IsFresh, allocate-eq-zero_iff}
use opentui_ocaml.Slots.History.{allocates, releases, run, total_uses, stale_after_release}
use opentui_ocaml.Slots.Sweep.{Swept, sweep-Swept}

make_token_fields_example : make_token (token_index 0x30002) (token_generation 0x30002) ≡ 0x30002
make_token_fields_example = make_token_fields 0x30002 (omega arith)

generation_after_eq_iff_example : (generation_after 3 7 ≡ 7) ↔ (3 % 65535 ≡ 0)
generation_after_eq_iff_example = generation_after_eq_iff 3 7 (omega arith) (omega arith)

-- A table of four slots, whose payload is the owner of the slot.
abbrev empty : Table ℕ
empty = zeroed 0

empty-IsValid : IsValid empty
empty-IsValid = record { small = λ i. omega arith; used = λ i e. cc }

abbrev one_used : Table ℕ
one_used = (allocate 4 (λ _. 9) empty).table

takes_one : (allocate 4 (λ _. 9) empty).token ≢ 0
unfolding allocate allocate_from taken claimed make_token
takes_one = omega arith

allocate-IsFresh_example : IsFresh 4 (λ _. 9) empty (allocate 4 (λ _. 9) empty)
allocate-IsFresh_example =
    allocate-IsFresh 4 (λ _. 9) empty empty-IsValid (omega arith) (omega arith) takes_one

allocate-eq-zero_iff_example :
    ((allocate 4 (λ _. 9) empty).token ≡ 0) ↔ ((i : ℕ) → 0 < i → i < 4 → (empty i).alive ≡ true)
allocate-eq-zero_iff_example =
    allocate-eq-zero_iff 4 (λ _. 9) empty empty-IsValid (omega arith) (omega arith)

names_one : from_token 4 one_used 0x10001 ≡ some 1
unfolding from_token allocate allocate_from taken claimed make_token token_index token_generation
names_one = refl

from_token-release_slot_example :
    (from_token 4 (release_slot (λ _. 0) one_used 1) 0x10001 ≡ none)
    × ((other j : ℕ)
        → 1 ≢ j
        → from_token 4 one_used other ≡ some j
        → (from_token 4 (release_slot (λ _. 0) one_used 1) other ≡ some j)
          × (release_slot (λ _. 0) one_used 1 j ≡ one_used j))
from_token-release_slot_example = from_token-release_slot 4 (λ _. 0) one_used 1 0x10001 names_one

sweep-Swept_example :
    Swept (λ x. x) 9 (one_used 1) (sweep (λ x. x) (λ _. 0) 4 9 one_used 1)
    × (0 < 1
        → 1 < 4
        → (sweep (λ x. x) (λ _. 0) 4 9 one_used 1).alive ≡ true
        → (sweep (λ x. x) (λ _. 0) 4 9 one_used 1).payload ≢ 9)
sweep-Swept_example = sweep-Swept (λ x. x) (λ _. 0) 9 4 one_used 1

one_used-IsValid : IsValid one_used
one_used-IsValid =
    (allocate-IsFresh 4 (λ _. 9) empty empty-IsValid (omega arith) (omega arith) takes_one).valid

stale_after_release_example :
    (total_uses 4
          (λ _. 9)
          (λ _. 0)
          1
          (release_slot (λ _. 0) one_used 1)
          (allocates ∷ releases 0x10001 ∷ [])
        < 65535
      → from_token 4
          (run 4
            (λ _. 9)
            (λ _. 0)
            (release_slot (λ _. 0) one_used 1)
            (allocates ∷ releases 0x10001 ∷ []))
          0x10001
        ≡ none)
    × ((j : ℕ)
        → from_token 4
            (run 4
              (λ _. 9)
              (λ _. 0)
              (release_slot (λ _. 0) one_used 1)
              (allocates ∷ releases 0x10001 ∷ []))
            0x10001
          ≡ some j
        → (0
            < total_uses 4
                (λ _. 9)
                (λ _. 0)
                1
                (release_slot (λ _. 0) one_used 1)
                (allocates ∷ releases 0x10001 ∷ []))
          × (total_uses 4
                  (λ _. 9)
                  (λ _. 0)
                  1
                  (release_slot (λ _. 0) one_used 1)
                  (allocates ∷ releases 0x10001 ∷ [])
                % 65535
              ≡ 0))
stale_after_release_example =
    stale_after_release 4 (λ _. 9) (λ _. 0) one_used 0x10001 1 (allocates ∷ releases 0x10001 ∷ [])
      (omega arith) one_used-IsValid names_one
