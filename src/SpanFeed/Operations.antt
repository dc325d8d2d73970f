-- ===== src/SpanFeed/Operations.antt =====
-- The bindings of packages/opentui-raw/span_feed_stubs.c, one definition for each `CAMLprim`.
-- A token argument is the bit pattern of the `int32` that OCaml passes.
pub mod Consistent
pub mod Retired
pub mod Lifetime
pub mod Spared
pub mod Close
use opentui_ocaml.Prelude.{
  ℕ, ◌+◌, ◌-◌, ◌%◌, ◌^◌, Bool, true, false, not, ◌||◌, Option, none, some, List, [], ◌==◌, ltb, leb,
  if◌then◌else◌, found, length, take,
}
use opentui_ocaml.Prelude.Int.{ℤ, pos, negsuc}
use opentui_ocaml.Status.{Status, ok, on_ok, invalid_argument, stale_handle, native_failure}
use opentui_ocaml.Slots.{Slot, Table, write_slot, Allocation}
use opentui_ocaml.SpanFeed.Native.{FeedOptions, FeedStats, SpanInfo, ReserveInfo, NativeFeed}
use opentui_ocaml.SpanFeed.{
  FeedFields, SpanFields, ReservationFields, Outcome, returns, raises, OptionsValue, State,
  map_native_status, read_options, span_source, is_negative, unsigned, span_feed_from_token,
  span_from_token, reservation_from_token, span_feed_allocate, span_allocate, reservation_allocate,
  span_release_slot, reservation_release_slot, invalidate_feed_spans, release_feed_reservations,
  write_feed, clear_feed_pending_span, clear_feed_pending_reservation, cleanup_feed_pending,
}

-- `slot->stream = stream`
abbrev with_stream : Table FeedFields → ℕ → ℕ → Table FeedFields
with_stream t index stream =
    write_slot t index
      (record (t index) { payload = record ((t index).payload) { stream = stream } })

-- `slot->alive = false; slot->stream = NULL;`
pub retire_feed : Table FeedFields → ℕ → Table FeedFields
retire_feed t index =
    write_slot t index
      (record (t index) { alive = false; payload = record ((t index).payload) { stream = 0 } })

module _ (native : NativeFeed) where
  open native use {
    World, create_native_span_feed, attach_native_span_feed, destroy_native_span_feed, stream_close,
    stream_write, stream_commit, stream_reserve, stream_commit_reserved, stream_cancel_reserved,
    stream_get_stats, stream_drain_span, stream_mark_span_consumed, read_memory, write_memory,
  }

  -- `opentui_raw_span_feed_create` after the slot is allocated.
  create_attach : State native → ℕ → Allocation FeedFields → (Status × ℕ) × State native
  unfolding retire_feed
  create_attach s stream slot =
      let feeds = with_stream slot.table slot.index stream in
      let attached = attach_native_span_feed stream s.world in
      let status = map_native_status attached.0 in
      on_ok status ((ok, slot.token), record s { feeds = feeds; world = attached.1 })
        (λ failed. (
          (failed, 0),
          record s {
            feeds = retire_feed feeds slot.index;
            world = destroy_native_span_feed stream attached.1;
          },
        ))

  create_allocate : State native → ℕ → (Status × ℕ) × State native
  unfolding create_attach
  create_allocate s stream =
      let slot = span_feed_allocate s.feeds in
      if slot.token == 0
      then ((native_failure, 0), record s { world = destroy_native_span_feed stream s.world })
      else create_attach s stream slot

  unfoldable pub create : State native → Option OptionsValue → (Status × ℕ) × State native
  unfolding create_allocate
  create s value =
      found (read_options value) ((invalid_argument, 0), s)
        (λ options.
          let created = create_native_span_feed options s.world in
          let s' = record s { world = created.1 } in
          if created.0 == 0 then ((native_failure, 0), s') else create_allocate s' created.0)

  close_feed : State native → ℕ → ℕ → Status × State native
  unfolding retire_feed
  close_feed s token feed =
      let closed = stream_close (s.feeds feed).payload.stream s.world in
      on_ok (map_native_status closed.0)
        (
          ok,
          record s {
            feeds = retire_feed s.feeds feed;
            spans = invalidate_feed_spans token s.spans;
            reservations = release_feed_reservations token s.reservations;
            world = destroy_native_span_feed (s.feeds feed).payload.stream closed.1;
          },
        )
        (λ failed. (failed, record s { world = closed.1 }))

  unfoldable pub close : State native → ℕ → Status × State native
  unfolding close_feed
  close s token =
      found (span_feed_from_token s.feeds token) (stale_handle, s)
        (λ feed. close_feed (cleanup_feed_pending native s feed) token feed)

  write_feed_data : State native → ℕ → List ℕ → Status × State native
  write_feed_data s feed source =
      if leb (2 ^ 32) (length source)
      then (invalid_argument, s)
      else let written = stream_write (s.feeds feed).payload.stream source s.world in
        (map_native_status written.0, record s { world = written.1 })

  pub write : State native → ℕ → List ℕ → Status × State native
  unfolding write_feed_data
  write s token source =
      found (span_feed_from_token s.feeds token) (stale_handle, s)
        (λ feed. write_feed_data (cleanup_feed_pending native s feed) feed source)

  commit_feed : State native → ℕ → Status × State native
  commit_feed s feed =
      let committed = stream_commit (s.feeds feed).payload.stream s.world in
      (map_native_status committed.0, record s { world = committed.1 })

  pub commit : State native → ℕ → Status × State native
  unfolding commit_feed
  commit s token =
      found (span_feed_from_token s.feeds token) (stale_handle, s)
        (λ feed. commit_feed (cleanup_feed_pending native s feed) feed)

  -- `opentui_raw_span_feed_reserve` once the native feed has reserved `info`.
  reserve_allocate :
      State native → ℕ → ℕ → ReserveInfo → Bool → Outcome (Status × Option (ℕ × ℕ)) × State native
  reserve_allocate s token feed info room =
      let marked = write_feed native s feed (record ((s.feeds feed).payload) {
        pending_reservation = true;
        pending_reservation_handle = 0;
      }) in
      let slot = reservation_allocate marked.reservations token info in
      if slot.token == 0
      then (returns (native_failure, none), cleanup_feed_pending native marked feed)
      else let held =
          write_feed native (record marked { reservations = slot.table }) feed
            (record ((marked.feeds feed).payload) { pending_reservation_handle = slot.token }) in
        if room
        then (
          returns (ok, some (slot.token, info.len)),
          clear_feed_pending_reservation native held feed,
        )
        else (raises, held)

  reserve_feed : State native → ℕ → ℕ → ℕ → Bool → Outcome (Status × Option (ℕ × ℕ)) × State native
  unfolding reserve_allocate
  reserve_feed s token feed minimum room =
      let reserved = stream_reserve (s.feeds feed).payload.stream minimum s.world in
      let s' = record s { world = reserved.2 } in
      on_ok (map_native_status reserved.0) (reserve_allocate s' token feed reserved.1 room)
        (λ failed. (returns (failed, none), s'))

  -- On success the token and the capacity of the reservation.
  unfoldable pub reserve :
      State native → ℕ → ℤ → Bool → Outcome (Status × Option (ℕ × ℕ)) × State native
  unfolding reserve_feed
  reserve s token (negsuc n) room = (returns (invalid_argument, none), s)
  reserve s token (pos minimum) room =
      found (span_feed_from_token s.feeds token) (returns (stale_handle, none), s)
        (λ feed. reserve_feed (cleanup_feed_pending native s feed) token feed minimum room)
