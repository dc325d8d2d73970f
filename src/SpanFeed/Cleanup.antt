-- ===== src/SpanFeed/Cleanup.antt =====
-- `cleanup_feed_pending`: what a call finds of an earlier call that OCaml's allocator left early.
use opentui_ocaml.Prelude.{ℕ, ◌≡◌, ◌∙◌, true, false, arith, ◌==◌, if◌then◌else◌}
use opentui_ocaml.SpanFeed.Native.{NativeFeed}
use opentui_ocaml.SpanFeed.{
  FeedFields, State, release_span, write_feed, cleanup_pending_span, cleanup_pending_reservation,
  cleanup_feed_pending,
}

module _ (native : NativeFeed) where
  open native use {World, stream_mark_span_consumed, stream_cancel_reserved}

  abbrev pub fields : State native → ℕ → FeedFields
  fields s feed = (s.feeds feed).payload

  -- The fields of a feed after its own slot is written.
  pub write_feed-fields :
      (s : State native) (feed : ℕ) (f : FeedFields) → fields (write_feed native s feed f) feed ≡ f
  write_feed-fields s feed f = ground arith

  cleanup_pending_span-fields :
      (s : State native) (feed : ℕ)
      → let u = cleanup_pending_span native s feed in
        ((fields u feed).pending_span ≡ false)
        × ((fields u feed).pending_reservation ≡ (fields s feed).pending_reservation)
        × ((fields u feed).stream ≡ (fields s feed).stream)
  unfolding cleanup_pending_span
  cleanup_pending_span-fields s feed = ground arith

  cleanup_pending_reservation-fields :
      (s : State native) (feed : ℕ)
      → let u = cleanup_pending_reservation native s feed in
        ((fields u feed).pending_reservation ≡ false)
        × ((fields u feed).pending_span ≡ (fields s feed).pending_span)
        × ((fields u feed).stream ≡ (fields s feed).stream)
  unfolding cleanup_pending_reservation
  cleanup_pending_reservation-fields s feed = ground arith

  -- After the cleanup nothing is pending, and the feed has its stream still.
  pub cleanup_feed_pending-fields :
      (s : State native) (feed : ℕ)
      → let u = cleanup_feed_pending native s feed in
        ((fields u feed).pending_span ≡ false)
        × ((fields u feed).pending_reservation ≡ false)
        × ((fields u feed).stream ≡ (fields s feed).stream)
  unfolding cleanup_feed_pending
  cleanup_feed_pending-fields s feed =
      let a = cleanup_pending_span-fields s feed in
      let b = cleanup_pending_reservation-fields (cleanup_pending_span native s feed) feed in
      (b.1 ∙ a.0, b.0, b.2 ∙ a.2)

  -- A pending span is reported consumed to the native feed, once, and its slot is released.
  pub cleanup_feed_pending_span :
      (s : State native) (feed : ℕ)
      → (fields s feed).pending_span ≡ true
      → (fields s feed).pending_reservation ≡ false
      → let u = cleanup_feed_pending native s feed in
        (u.world
          ≡ (stream_mark_span_consumed
              (fields s feed).stream
              (fields s feed).pending_info
              s.world).1)
        × (u.spans ≡ (
            if (fields s feed).pending_span_handle == 0
            then s.spans
            else release_span s.spans (fields s feed).pending_span_handle))
        × (u.reservations ≡ s.reservations)
  unfolding cleanup_feed_pending
  cleanup_feed_pending_span s feed p q = ground arith

  -- With nothing pending the cleanup does nothing.
  pub cleanup_feed_pending_none :
      (s : State native) (feed : ℕ)
      → (fields s feed).pending_span ≡ false
      → (fields s feed).pending_reservation ≡ false
      → cleanup_feed_pending native s feed ≡ s
  unfolding cleanup_feed_pending
  cleanup_feed_pending_none s feed p q = ground arith
