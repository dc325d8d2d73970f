-- ===== src/SpanFeed.antt =====
-- packages/opentui-raw/span_feed_stubs.c: tokens for native output feeds, drained spans and
-- reservations. The three static tables and the native state are the fields of `State`; an
-- operation takes the state and returns its result beside the new state. An OCaml allocation that
-- raises Out_of_memory leaves the function at once: `drain` and `reserve` take `room`, which says
-- whether the heap has room for what they allocate once their native work is done.
pub mod Native
pub mod Ownership
pub mod Consistent
pub mod Cleanup
pub mod Operations
pub mod Transfers
pub mod Calls
pub mod Tests
use Native.{FeedOptions, FeedStats, SpanInfo, ReserveInfo, NativeFeed}
use opentui_ocaml.Prelude.{
  ℕ, zero, suc, ◌+◌, ◌-◌, ◌%◌, ◌^◌, Bool, true, false, not, ◌&&◌, ◌||◌, Option, none, some, List,
  ◌==◌, ltb, leb, if◌then◌else◌, found, length, take,
}
use opentui_ocaml.Prelude.Int.{ℤ, pos, negsuc, ltb_ℤ}
use opentui_ocaml.Values.{to_int}
pub use opentui_ocaml.Status.{Outcome, returns, raises}
use opentui_ocaml.Status.{
  Status, ok, invalid_argument, stale_handle, native_failure, no_space, max_bytes, busy,
}
use opentui_ocaml.Slots.{
  Slot, Table, write_slot, zeroed, from_token, claimed, Allocation, allocate, release_slot, sweep,
}

-- OPENTUI_RAW_SPAN_FEED_CAPACITY, OPENTUI_RAW_SPAN_CAPACITY, OPENTUI_RAW_RESERVATION_CAPACITY
abbrev pub span_feed_capacity : ℕ
span_feed_capacity = 64

abbrev pub span_capacity : ℕ
span_capacity = 4096

abbrev pub reservation_capacity : ℕ
reservation_capacity = 64

-- `opentui_raw_span_feed_slot` without `generation` and `alive`
pub record FeedFields : Type 0 where
  pub stream : ℕ
  pub pending_span : Bool
  pub pending_span_handle : ℕ
  pub pending_info : SpanInfo
  pub pending_reservation : Bool
  pub pending_reservation_handle : ℕ

-- `opentui_raw_span_slot`, likewise
pub record SpanFields : Type 0 where
  pub feed_handle : ℕ
  pub info : SpanInfo

-- `opentui_raw_reservation_slot`, likewise
pub record ReservationFields : Type 0 where
  pub feed_handle : ℕ
  pub info : ReserveInfo

pub map_native_status : ℤ → Status
map_native_status (pos zero) = ok
map_native_status (negsuc zero) = no_space
map_native_status (negsuc (suc zero)) = max_bytes
map_native_status (negsuc (suc (suc zero))) = invalid_argument
map_native_status (negsuc (suc (suc (suc zero)))) = native_failure
map_native_status (negsuc (suc (suc (suc (suc zero))))) = busy
map_native_status _ = native_failure

-- The six fields of the options tuple; `none` is a value that is no block of six fields.
pub record OptionsValue : Type 0 where
  pub chunk_size : ℤ
  pub initial_chunks : ℤ
  pub max_bytes : ℤ
  pub growth_policy : ℤ
  pub auto_commit_on_full : Bool
  pub span_queue_capacity : ℤ

abbrev is_negative : ℤ → Bool
is_negative (pos n) = false
is_negative (negsuc n) = true

-- The cast of an integer that is known not to be negative.
abbrev unsigned : ℤ → ℕ
unsigned (pos n) = n
unsigned (negsuc n) = 0

abbrev is_zero_or_one : ℤ → Bool
is_zero_or_one (pos zero) = true
is_zero_or_one (pos (suc zero)) = true
is_zero_or_one _ = false

pub read_options : Option OptionsValue → Option FeedOptions
unfolding to_int
read_options none = none
read_options (some v) =
    if is_negative v.chunk_size
      || is_negative v.initial_chunks
      || is_negative v.max_bytes
      || is_negative v.span_queue_capacity
      || not (is_zero_or_one (to_int v.growth_policy))
    then none
    else some (record {
      chunk_size = unsigned v.chunk_size;
      initial_chunks = unsigned v.initial_chunks;
      max_bytes = unsigned v.max_bytes;
      growth_policy = unsigned (to_int v.growth_policy);
      auto_commit_on_full = v.auto_commit_on_full;
      span_queue_capacity = unsigned v.span_queue_capacity;
    })

abbrev pub uintptr_max : ℕ
uintptr_max = 2 ^ 64 - 1

-- The address of a span's bytes (0, that is NULL, for an empty span), or `none` where the address
-- arithmetic would wrap.
pub span_source : SpanInfo → Option ℕ
span_source info =
    if info.len == 0
    then some 0
    else if info.chunk_ptr == 0 || ltb (uintptr_max - info.chunk_ptr) info.offset
    then none
    else let start = (info.chunk_ptr + info.offset) % 2 ^ 64 in
      if ltb (uintptr_max - start) info.len then none else some start

-- What the allocators reset in the slot that they find.
abbrev pub fresh_feed : FeedFields → FeedFields
fresh_feed f = record f {
  stream = 0;
  pending_span = false;
  pending_span_handle = 0;
  pending_reservation = false;
  pending_reservation_handle = 0;
}

-- `feed_handle = 0` of `span_release_slot` and `reservation_release_slot`
abbrev pub forget_span : SpanFields → SpanFields
forget_span f = record f { feed_handle = 0 }

abbrev pub forget_reservation : ReservationFields → ReservationFields
forget_reservation f = record f { feed_handle = 0 }

pub span_feed_from_token : Table FeedFields → ℕ → Option ℕ
span_feed_from_token = from_token span_feed_capacity

pub span_from_token : Table SpanFields → ℕ → Option ℕ
span_from_token = from_token span_capacity

pub reservation_from_token : Table ReservationFields → ℕ → Option ℕ
reservation_from_token = from_token reservation_capacity

pub span_feed_allocate : Table FeedFields → Allocation FeedFields
span_feed_allocate = allocate span_feed_capacity fresh_feed

pub span_allocate : Table SpanFields → ℕ → SpanInfo → Allocation SpanFields
span_allocate t feed_handle info =
    allocate span_capacity (λ _. record { feed_handle = feed_handle; info = info }) t

pub reservation_allocate : Table ReservationFields → ℕ → ReserveInfo → Allocation ReservationFields
reservation_allocate t feed_handle info =
    allocate reservation_capacity (λ _. record { feed_handle = feed_handle; info = info }) t

pub span_release_slot : Table SpanFields → ℕ → Table SpanFields
span_release_slot = release_slot forget_span

pub reservation_release_slot : Table ReservationFields → ℕ → Table ReservationFields
reservation_release_slot = release_slot forget_reservation

-- Releases the slot that a token names, if it names one.
pub release_span : Table SpanFields → ℕ → Table SpanFields
release_span t token = found (span_from_token t token) t (λ i. span_release_slot t i)

pub release_reservation : Table ReservationFields → ℕ → Table ReservationFields
release_reservation t token =
    found (reservation_from_token t token) t (λ i. reservation_release_slot t i)

pub invalidate_feed_spans : ℕ → Table SpanFields → Table SpanFields
invalidate_feed_spans = sweep (λ f. f.feed_handle) forget_span span_capacity

pub release_feed_reservations : ℕ → Table ReservationFields → Table ReservationFields
release_feed_reservations = sweep (λ f. f.feed_handle) forget_reservation reservation_capacity

-- The static tables and the native state.
pub record State (native : NativeFeed) : Type 0 where
  pub feeds : Table FeedFields
  pub spans : Table SpanFields
  pub reservations : Table ReservationFields
  pub world : native.World

module _ (native : NativeFeed) where
  open native use {World, stream_mark_span_consumed, stream_cancel_reserved}

  -- `span_feed_slots[index].payload = f`
  abbrev pub write_feed : State native → ℕ → FeedFields → State native
  write_feed s index f = record s {
    feeds = write_slot s.feeds index (record (s.feeds index) { payload = f });
  }

  pub clear_feed_pending_span : State native → ℕ → State native
  clear_feed_pending_span s feed =
      write_feed s feed
        (record ((s.feeds feed).payload) { pending_span = false; pending_span_handle = 0 })

  pub clear_feed_pending_reservation : State native → ℕ → State native
  clear_feed_pending_reservation s feed = write_feed s feed (record ((s.feeds feed).payload) {
    pending_reservation = false;
    pending_reservation_handle = 0;
  })

  -- `cleanup_feed_pending`, its two halves: a span or a reservation that an operation took from the
  -- native feed and could not hand to OCaml is given back.
  pub cleanup_pending_span : State native → ℕ → State native
  unfolding clear_feed_pending_span
  cleanup_pending_span s feed =
      let f = (s.feeds feed).payload in
      if f.pending_span
      then clear_feed_pending_span
          (record s {
            spans =
                if f.pending_span_handle == 0
                then s.spans
                else release_span s.spans f.pending_span_handle;
            world = (stream_mark_span_consumed f.stream f.pending_info s.world).1;
          })
          feed
      else s

  pub cleanup_pending_reservation : State native → ℕ → State native
  unfolding clear_feed_pending_reservation
  cleanup_pending_reservation s feed =
      let f = (s.feeds feed).payload in
      if f.pending_reservation
      then clear_feed_pending_reservation
          (record s {
            reservations =
                if f.pending_reservation_handle == 0
                then s.reservations
                else release_reservation s.reservations f.pending_reservation_handle;
            world = (stream_cancel_reserved f.stream s.world).1;
          })
          feed
      else s

  pub cleanup_feed_pending : State native → ℕ → State native
  unfolding cleanup_pending_span cleanup_pending_reservation
  cleanup_feed_pending s feed = cleanup_pending_reservation (cleanup_pending_span s feed) feed
