-- ===== src/SpanFeed/Transfers.antt =====
-- The bindings of packages/opentui-raw/span_feed_stubs.c that move bytes and hand tokens back:
-- `drain`, `span_release`, `reservation_commit`, `reservation_cancel` and `stats`.
pub mod Consistent
pub mod Drain
pub mod OneShot
pub mod Recovery
use opentui_ocaml.Prelude.{
  ℕ, ◌^◌, Bool, true, false, ◌||◌, Option, none, some, List, [], ◌==◌, ltb, leb, if◌then◌else◌,
  found, length, take,
}
use opentui_ocaml.Prelude.Int.{ℤ, pos, negsuc}
use opentui_ocaml.Status.{Status, ok, on_ok, invalid_argument, stale_handle, native_failure}
use opentui_ocaml.Slots.{Slot, Table, Allocation}
use opentui_ocaml.SpanFeed.Native.{FeedStats, SpanInfo, ReserveInfo, NativeFeed}
use opentui_ocaml.SpanFeed.{
  FeedFields, SpanFields, ReservationFields, Outcome, returns, raises, State, map_native_status,
  span_source, span_feed_from_token, span_from_token, reservation_from_token, span_allocate,
  span_release_slot, reservation_release_slot, write_feed, clear_feed_pending_span,
  cleanup_feed_pending,
}

-- A drained span: its bytes and the token that releases it.
abbrev pub Drained : Type 0
Drained = Outcome (Status × Option (List ℕ × ℕ))

-- The checks of `used` against the reservation and against the bytes that came with it.
unfoldable pub accepts_used : ReserveInfo → List ℕ → ℤ → Bool
accepts_used info bytes (negsuc n) = false
accepts_used info bytes (pos used) =
    if ltb info.len used || ltb (length bytes) used then false else true

unfoldable pub unsigned_used : ℤ → ℕ
unsigned_used (pos n) = n
unsigned_used (negsuc n) = 0

module _ (native : NativeFeed) where
  open native use {
    World, stream_commit_reserved, stream_cancel_reserved, stream_get_stats, stream_drain_span,
    stream_mark_span_consumed, read_memory, write_memory,
  }

  -- `opentui_raw_span_feed_drain` from the allocation of the span's slot on.
  drain_allocate : State native → ℕ → ℕ → SpanInfo → ℕ → Bool → Drained × State native
  drain_allocate s token feed info source room =
      let slot = span_allocate s.spans token info in
      if slot.token == 0
      then (returns (native_failure, none), cleanup_feed_pending native s feed)
      else let held =
          write_feed native (record s { spans = slot.table }) feed
            (record ((s.feeds feed).payload) { pending_span_handle = slot.token }) in
        if room
        then (
          returns (
            ok,
            some (if info.len == 0 then [] else read_memory source info.len s.world, slot.token),
          ),
          clear_feed_pending_span native held feed,
        )
        else (raises, held)

  -- The same from the native drain on.
  drain_feed : State native → ℕ → ℕ → Bool → Drained × State native
  unfolding drain_allocate
  drain_feed s token feed room =
      let drained = stream_drain_span (s.feeds feed).payload.stream s.world in
      let s' = record s { world = drained.2 } in
      let info = drained.1 in
      if drained.0 == 0
      then (returns (ok, none), s')
      else let marked = write_feed native s' feed (record ((s.feeds feed).payload) {
        pending_span = true;
        pending_span_handle = 0;
        pending_info = info;
      }) in
        found (span_source info)
          (returns (native_failure, none), cleanup_feed_pending native marked feed)
          (λ source. drain_allocate marked token feed info source room)

  unfoldable pub drain : State native → ℕ → Bool → Drained × State native
  unfolding drain_feed
  drain s token room =
      found (span_feed_from_token s.feeds token) (returns (stale_handle, none), s)
        (λ feed. drain_feed (cleanup_feed_pending native s feed) token feed room)

  -- `opentui_raw_span_release` on a live span and its live feed.
  release_live : State native → ℕ → ℕ → Status × State native
  release_live s span feed =
      let marked =
        stream_mark_span_consumed (s.feeds feed).payload.stream (s.spans span).payload.info
          s.world in
      on_ok (map_native_status marked.0)
        (ok, record s { spans = span_release_slot s.spans span; world = marked.1 })
        (λ failed. (failed, record s { world = marked.1 }))

  unfoldable pub span_release : State native → ℕ → Status × State native
  unfolding release_live
  span_release s token =
      found (span_from_token s.spans token) (stale_handle, s)
        (λ span.
          found (span_feed_from_token s.feeds (s.spans span).payload.feed_handle) (stale_handle, s)
            (λ feed. release_live (cleanup_feed_pending native s feed) span feed))

  -- The end of `opentui_raw_span_feed_reservation_commit`, after the copy.
  commit_reserved : State native → ℕ → ℕ → ℕ → Status × State native
  commit_reserved s reservation feed used =
      let committed = stream_commit_reserved (s.feeds feed).payload.stream used s.world in
      on_ok (map_native_status committed.0)
        (
          ok,
          record s {
            reservations = reservation_release_slot s.reservations reservation;
            world = committed.1;
          },
        )
        (λ failed. (failed, record s { world = committed.1 }))

  commit_live : State native → ℕ → ℕ → List ℕ → ℕ → Status × State native
  unfolding commit_reserved
  commit_live s reservation feed bytes used =
      let ptr = (s.reservations reservation).payload.info.ptr in
      if used == 0
      then commit_reserved s reservation feed used
      else if ptr == 0
      then (native_failure, s)
      else commit_reserved (record s { world = write_memory ptr (take used bytes) s.world })
          reservation feed used

  unfoldable pub reservation_commit : State native → ℕ → List ℕ → ℤ → Status × State native
  unfolding commit_live unsigned_used
  reservation_commit s token bytes used =
      found (reservation_from_token s.reservations token) (stale_handle, s)
        (λ reservation.
          let fields = (s.reservations reservation).payload in
          if accepts_used fields.info bytes used
          then found (span_feed_from_token s.feeds fields.feed_handle) (stale_handle, s)
              (λ feed.
                commit_live (cleanup_feed_pending native s feed) reservation feed bytes
                  (unsigned_used used))
          else (invalid_argument, s))

  cancel_live : State native → ℕ → ℕ → Status × State native
  cancel_live s reservation feed =
      let cancelled = stream_cancel_reserved (s.feeds feed).payload.stream s.world in
      on_ok (map_native_status cancelled.0)
        (
          ok,
          record s {
            reservations = reservation_release_slot s.reservations reservation;
            world = cancelled.1;
          },
        )
        (λ failed. (failed, record s { world = cancelled.1 }))

  unfoldable pub reservation_cancel : State native → ℕ → Status × State native
  unfolding cancel_live
  reservation_cancel s token =
      found (reservation_from_token s.reservations token) (stale_handle, s)
        (λ reservation.
          found (span_feed_from_token s.feeds (s.reservations reservation).payload.feed_handle)
            (stale_handle, s)
            (λ feed. cancel_live (cleanup_feed_pending native s feed) reservation feed))

  stats_feed : State native → ℕ → (Status × Option FeedStats) × State native
  stats_feed s feed =
      let got = stream_get_stats (s.feeds feed).payload.stream s.world in
      let s' = record s { world = got.2 } in
      on_ok (map_native_status got.0) ((ok, some got.1), s') (λ failed. ((failed, none), s'))

  pub stats : State native → ℕ → (Status × Option FeedStats) × State native
  unfolding stats_feed
  stats s token =
      found (span_feed_from_token s.feeds token) ((stale_handle, none), s)
        (λ feed. stats_feed (cleanup_feed_pending native s feed) feed)
