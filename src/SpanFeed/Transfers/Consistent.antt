-- ===== src/SpanFeed/Transfers/Consistent.antt =====
-- The bindings of SpanFeed.Transfers against the invariant of the tables.
use opentui_ocaml.Prelude.{
  ℕ, ◌^◌, ◌<◌, ◌≡◌, refl, Bool, false, some, List, arith, ◌==◌, if_rule, found_rule,
}
use opentui_ocaml.Prelude.Int.{ℤ}
use opentui_ocaml.Status.{on_ok_rule}
use opentui_ocaml.Slots.{Allocation, allocate}
use opentui_ocaml.Slots.Fresh.{allocate-IsFresh}
use opentui_ocaml.SpanFeed.Native.{NativeFeed, SpanInfo}
use opentui_ocaml.SpanFeed.{
  SpanFields, State, span_capacity, map_native_status, span_source, span_feed_from_token,
  span_from_token, reservation_from_token, span_allocate, clear_feed_pending_span,
}
use opentui_ocaml.SpanFeed.Consistent.{
  IsConsistent, Keeps, KeepsAfter, ConsistentAfter, Keeps-refl, Keeps-trans, Keeps-IsConsistent,
  world-Keeps, write_feed-Keeps, cleanup_feed_pending-Keeps,
}
use opentui_ocaml.SpanFeed.Ownership.{
  allocate-Owned, span_release_slot-FewerSpans, reservation_release_slot-FewerReservations,
  span_feed_from_token-SameFeeds,
}
use opentui_ocaml.SpanFeed.Transfers.{
  drain_allocate, drain_feed, drain, release_live, span_release, commit_reserved, commit_live,
  accepts_used, reservation_commit, cancel_live, reservation_cancel, stats,
}

module _ (native : NativeFeed) where
  release_live-Keeps :
      (s : State native) (span feed : ℕ) → Keeps native s (release_live native s span feed).1
  unfolding release_live
  release_live-Keeps s span feed =
      on_ok_rule (KeepsAfter native s) (map_native_status _) _ _
        (λ _. record {
          feeds = λ i. (refl, refl);
          spans = span_release_slot-FewerSpans s.spans span;
          reservations = λ i. (refl, λ live. (live, refl));
        })
        (λ failed _ _. world-Keeps native s _)

  pub span_release-Keeps :
      (s : State native) (token : ℕ) → Keeps native s (span_release native s token).1
  unfolding span_release
  span_release-Keeps s token =
      found_rule (KeepsAfter native s) (span_from_token s.spans token) (λ _. Keeps-refl native s)
        (λ span _.
          found_rule (KeepsAfter native s)
            (span_feed_from_token s.feeds (s.spans span).payload.feed_handle)
            (λ _. Keeps-refl native s)
            (λ feed _.
              Keeps-trans native (cleanup_feed_pending-Keeps native s feed)
                (release_live-Keeps _ span feed)))

  commit_reserved-Keeps :
      (s : State native) (reservation feed used : ℕ)
      → Keeps native s (commit_reserved native s reservation feed used).1
  unfolding commit_reserved
  commit_reserved-Keeps s reservation feed used =
      on_ok_rule (KeepsAfter native s) (map_native_status _) _ _
        (λ _. record {
          feeds = λ i. (refl, refl);
          spans = λ i. (refl, λ live. (live, refl));
          reservations = reservation_release_slot-FewerReservations s.reservations reservation;
        })
        (λ failed _ _. world-Keeps native s _)

  commit_live-Keeps :
      (s : State native) (reservation feed : ℕ) (bytes : List ℕ) (used : ℕ)
      → Keeps native s (commit_live native s reservation feed bytes used).1
  unfolding commit_live
  commit_live-Keeps s reservation feed bytes used =
      if_rule (KeepsAfter native s) (used == 0) (λ _. commit_reserved-Keeps s reservation feed used)
        (λ _.
          if_rule (KeepsAfter native s) ((s.reservations reservation).payload.info.ptr == 0)
            (λ _. Keeps-refl native s)
            (λ _.
              Keeps-trans native (world-Keeps native s _)
                (commit_reserved-Keeps _ reservation feed used)))

  pub reservation_commit-Keeps :
      (s : State native) (token : ℕ) (bytes : List ℕ) (used : ℤ)
      → Keeps native s (reservation_commit native s token bytes used).1
  unfolding reservation_commit
  reservation_commit-Keeps s token bytes used =
      found_rule (KeepsAfter native s) (reservation_from_token s.reservations token)
        (λ _. Keeps-refl native s)
        (λ reservation _.
          if_rule (KeepsAfter native s) (accepts_used _ bytes used)
            (λ _.
              found_rule (KeepsAfter native s) (span_feed_from_token s.feeds _)
                (λ _. Keeps-refl native s)
                (λ feed _.
                  Keeps-trans native (cleanup_feed_pending-Keeps native s feed)
                    (commit_live-Keeps _ reservation feed bytes _)))
            (λ _. Keeps-refl native s))

  cancel_live-Keeps :
      (s : State native) (reservation feed : ℕ)
      → Keeps native s (cancel_live native s reservation feed).1
  unfolding cancel_live
  cancel_live-Keeps s reservation feed =
      on_ok_rule (KeepsAfter native s) (map_native_status _) _ _
        (λ _. record {
          feeds = λ i. (refl, refl);
          spans = λ i. (refl, λ live. (live, refl));
          reservations = reservation_release_slot-FewerReservations s.reservations reservation;
        })
        (λ failed _ _. world-Keeps native s _)

  pub reservation_cancel-Keeps :
      (s : State native) (token : ℕ) → Keeps native s (reservation_cancel native s token).1
  unfolding reservation_cancel
  reservation_cancel-Keeps s token =
      found_rule (KeepsAfter native s) (reservation_from_token s.reservations token)
        (λ _. Keeps-refl native s)
        (λ reservation _.
          found_rule (KeepsAfter native s) (span_feed_from_token s.feeds _)
            (λ _. Keeps-refl native s)
            (λ feed _.
              Keeps-trans native (cleanup_feed_pending-Keeps native s feed)
                (cancel_live-Keeps _ reservation feed)))

  pub stats-Keeps : (s : State native) (token : ℕ) → Keeps native s (stats native s token).1
  unfolding stats
  stats-Keeps s token =
      found_rule (KeepsAfter native s) (span_feed_from_token s.feeds token)
        (λ _. Keeps-refl native s)
        (λ feed _. Keeps-trans native (cleanup_feed_pending-Keeps native s feed) (
          on_ok_rule (KeepsAfter native _) (map_native_status _) _ _ (λ _. world-Keeps native _ _)
            (λ failed _ _. world-Keeps native _ _)))

  drain_allocate-IsConsistent :
      (s : State native) (token feed : ℕ) (info : SpanInfo) (source : ℕ) (room : Bool)
      → token < 2 ^ 32
      → span_feed_from_token s.feeds token ≡ some feed
      → IsConsistent native s
      → IsConsistent native (drain_allocate native s token feed info source room).1
  unfolding drain_allocate span_allocate clear_feed_pending_span
  drain_allocate-IsConsistent s token feed info source room small names c =
      if_rule (ConsistentAfter native) (slot.token == 0)
        (λ _. Keeps-IsConsistent native (cleanup_feed_pending-Keeps native s feed) c)
        (λ took.
          let held =
            Keeps-IsConsistent native (write_feed-Keeps native _ feed _) (allocated took) in
          if_rule (ConsistentAfter native) room
            (λ _. Keeps-IsConsistent native (write_feed-Keeps native _ feed _) held) (λ _. held))
    where
      prepare : SpanFields → SpanFields
      prepare _ = record { feed_handle = token; info = info }

      slot : Allocation SpanFields
      slot = allocate span_capacity prepare s.spans

      allocated : (slot.token == 0) ≡ false → IsConsistent native (record s { spans = slot.table })
      allocated took = record {
        feeds_valid = c.feeds_valid;
        spans_valid =
            (allocate-IsFresh span_capacity prepare s.spans c.spans_valid (omega arith)
              (omega arith) (ground arith)).valid;
        reservations_valid = c.reservations_valid;
        spans_owned =
            allocate-Owned (λ (f : SpanFields). f.feed_handle) span_capacity prepare s.feeds s.spans
              token feed (omega arith) small names (λ x. refl) c.spans_owned;
        reservations_owned = c.reservations_owned;
      }

  drain_feed-IsConsistent :
      (s : State native) (token feed : ℕ) (room : Bool)
      → token < 2 ^ 32
      → span_feed_from_token s.feeds token ≡ some feed
      → IsConsistent native s
      → IsConsistent native (drain_feed native s token feed room).1
  unfolding drain_feed
  drain_feed-IsConsistent s token feed room small names c =
      if_rule (ConsistentAfter native)
        ((stream_drain_span (s.feeds feed).payload.stream s.world).0 == 0)
        (λ _. Keeps-IsConsistent native (world-Keeps native s _) c)
        (λ _.
          let marked =
            Keeps-trans native (world-Keeps native s _) (write_feed-Keeps native _ feed _) in
          found_rule (ConsistentAfter native) (span_source _)
            (λ _.
              Keeps-IsConsistent native
                (Keeps-trans native marked (cleanup_feed_pending-Keeps native _ feed)) c)
            (λ source _.
              drain_allocate-IsConsistent _ token feed _ source room small
                (span_feed_from_token-SameFeeds s.feeds _ token feed marked.feeds names)
                (Keeps-IsConsistent native marked c)))
    where
      open native use {stream_drain_span}

  -- Draining keeps the tables consistent, also when the OCaml allocation raises.
  pub drain-IsConsistent :
      (s : State native) (token : ℕ) (room : Bool)
      → token < 2 ^ 32
      → IsConsistent native s
      → IsConsistent native (drain native s token room).1
  unfolding drain
  drain-IsConsistent s token room small c =
      found_rule (ConsistentAfter native) (span_feed_from_token s.feeds token) (λ _. c)
        (λ feed names.
          let k = cleanup_feed_pending-Keeps native s feed in
          drain_feed-IsConsistent _ token feed room small
            (span_feed_from_token-SameFeeds s.feeds _ token feed k.feeds names)
            (Keeps-IsConsistent native k c))
