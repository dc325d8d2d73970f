-- ===== src/Slots.antt =====
-- The slot tables of packages/opentui-raw: fixed arrays of slots that a token addresses by index
-- and generation. The feed, span and reservation tables of span_feed_stubs.c and the node table of
-- yoga_stubs.c repeat the same three functions, over slots that differ in their other fields. A
-- table is a function of the index, and a pointer into it is an index; index 0 is never used.
pub mod Laws
pub mod Fresh
pub mod History
pub mod Sweep
pub mod Tests
use opentui_ocaml.Prelude.{
  ℕ, zero, suc, ◌+◌, ◌-◌, Bool, true, false, not, ◌||◌, ◌&&◌, Option, none, some, ◌==◌, leb,
  if◌then◌else◌,
}
use opentui_ocaml.Token.{make_token, token_index, token_generation, next_generation}

-- The fields that every slot has; `payload` holds the others.
pub record Slot {ℓ} (P : Type ℓ) : Type ℓ where
  pub generation : ℕ
  pub alive : Bool
  pub payload : P

abbrev pub Table {ℓ} : Type ℓ → Type ℓ
Table P = ℕ → Slot P

-- What an allocator returns: the token, the slot behind `*output`, and the table that it leaves.
pub record Allocation {ℓ} (P : Type ℓ) : Type ℓ where
  pub token : ℕ
  pub index : ℕ
  pub table : Table P

module _ {ℓ} {P : Type ℓ} where
  -- `array[index] = slot`
  abbrev pub write_slot : Table P → ℕ → Slot P → Table P
  write_slot t index slot j = if index == j then slot else t j

  -- A statically allocated array is filled with zeros.
  abbrev pub zeroed : P → Table P
  zeroed zeros _ = record { generation = 0; alive = false; payload = zeros }

  -- `x_from_token`: the index of the live slot that a token names, or NULL.
  unfoldable pub from_token : ℕ → Table P → ℕ → Option ℕ
  from_token capacity t token =
      let index = token_index token in
      if index == 0 || leb capacity index
      then none
      else if not (t index).alive || not ((t index).generation == token_generation token)
      then none
      else some index

  -- What the allocators do to the free slot that they find.
  unfoldable pub claimed : (P → P) → Slot P → Slot P
  claimed prepare slot = record {
    generation = if slot.generation == 0 then 1 else next_generation slot.generation;
    alive = true;
    payload = prepare slot.payload;
  }

  -- The allocator's result when it takes the free slot `index`.
  unfoldable pub taken : (P → P) → Table P → ℕ → Allocation P
  taken prepare t index =
      let slot = claimed prepare (t index) in
      record {
        token = make_token index slot.generation;
        index = index;
        table = write_slot t index slot;
      }

  -- The rounds left of the search, and the index that it has come to. The token 0 says that no
  -- slot is free.
  unfoldable pub allocate_from : (P → P) → Table P → ℕ → ℕ → Allocation P
  allocate_from prepare t zero index = record { token = 0; index = 0; table = t }
  allocate_from prepare t (suc rounds) index = elim (t index).alive [
    | true ↦ allocate_from prepare t rounds (index + 1)
    | false ↦ taken prepare t index
  ]

  -- `x_allocate`: the first free slot from index 1 on.
  unfoldable pub allocate : ℕ → (P → P) → Table P → Allocation P
  unfolding allocate_from
  allocate capacity prepare t = allocate_from prepare t (capacity - 1) 1

  -- `x_release_slot`
  unfoldable pub release_slot : (P → P) → Table P → ℕ → Table P
  release_slot clear t index =
      write_slot t index (record (t index) { alive = false; payload = clear (t index).payload })

  -- One round of `invalidate_feed_spans` and `release_feed_reservations`: release slot `index` if
  -- it is live and belongs to `feed_handle`.
  unfoldable pub sweep_slot : (P → ℕ) → (P → P) → ℕ → ℕ → Table P → Table P
  unfolding release_slot
  sweep_slot owner clear feed_handle index t =
      if (t index).alive && owner (t index).payload == feed_handle
      then release_slot clear t index
      else t

  -- The rounds left of the loop, and the index that it has come to.
  unfoldable pub sweep_from : (P → ℕ) → (P → P) → ℕ → ℕ → ℕ → Table P → Table P
  sweep_from owner clear feed_handle zero index t = t
  sweep_from owner clear feed_handle (suc rounds) index t =
      sweep_from owner clear feed_handle rounds (index + 1)
        (sweep_slot owner clear feed_handle index t)

  unfoldable pub sweep : (P → ℕ) → (P → P) → ℕ → ℕ → Table P → Table P
  unfolding sweep_from sweep_slot
  sweep owner clear capacity feed_handle = sweep_from owner clear feed_handle (capacity - 1) 1
