-- ===== src/SpanFeed/Operations/Lifetime.antt =====
-- Opening and closing a feed: the two operations that change which feeds are live.
use mathlib.Core.Bool.{false≢true}
use opentui_ocaml.Prelude.{
  ℕ, ◌^◌, ◌<◌, ◌≡◌, sym, ap, ◌∙◌, ◌≢◌, Option, some, arith, ◌==◌, if_rule, found_rule,
}
use opentui_ocaml.Status.{on_ok_rule}
use opentui_ocaml.Slots.{Table, Allocation, allocate}
use opentui_ocaml.Slots.Laws.{IsValid, from_token-Names, from_token-same_slot}
use opentui_ocaml.Slots.Fresh.{IsFresh, allocate-IsFresh}
use opentui_ocaml.SpanFeed.Native.{NativeFeed}
use opentui_ocaml.SpanFeed.{
  FeedFields, State, OptionsValue, fresh_feed, span_feed_capacity, span_capacity,
  reservation_capacity, map_native_status, read_options, span_feed_from_token, span_feed_allocate,
}
use opentui_ocaml.SpanFeed.Consistent.{
  IsConsistent, ConsistentAfter, Keeps-IsConsistent, world-Keeps, cleanup_feed_pending-Keeps,
}
use opentui_ocaml.SpanFeed.Ownership.{span_feed_from_token-SameFeeds}
use opentui_ocaml.SpanFeed.Operations.{
  with_stream, retire_feed, create_attach, create_allocate, create, close_feed, close,
}
use opentui_ocaml.SpanFeed.Operations.Retired.{
  replaced, retire_feed_ne, span_owner, sweep-Owned, reservation_owner, invalidate_feed_spans-Swept,
  SameFeeds-IsValid, KeepsTokens, retire_feed-IsValid, with_stream_ne, with_stream-SameFeeds,
  release_feed_reservations-Swept, Swept-IsValid,
}

module _ (native : NativeFeed) where
  create_attach-IsConsistent :
      (s : State native) (stream : ℕ) (slot : Allocation FeedFields)
      → IsFresh span_feed_capacity fresh_feed s.feeds slot
      → IsConsistent native s
      → IsConsistent native (create_attach native s stream slot).1
  unfolding create_attach span_feed_from_token
  create_attach-IsConsistent s stream slot fresh c =
      on_ok_rule (ConsistentAfter native) (map_native_status _) _ _
        (λ _. replaced native s opened _ opened-IsValid opened_keeps c)
        (λ failed _ _.
          replaced native s (retire_feed opened slot.index) _
            (retire_feed-IsValid opened slot.index opened-IsValid) retired_keeps c)
    where
      opened : Table FeedFields
      opened = with_stream slot.table slot.index stream

      opened-IsValid : IsValid opened
      opened-IsValid =
          SameFeeds-IsValid slot.table opened (with_stream-SameFeeds slot.table slot.index stream)
            fresh.valid

      opened_keeps : KeepsTokens s.feeds opened
      opened_keeps token i names =
          span_feed_from_token-SameFeeds slot.table opened token i
            (with_stream-SameFeeds slot.table slot.index stream) (fresh.undisturbed token i names).0

      elsewhere : (token i : ℕ) → span_feed_from_token s.feeds token ≡ some i → slot.index ≢ i
      elsewhere token i names e = false≢true (
          sym fresh.free
          ∙ ap (λ k. (s.feeds k).alive) e
          ∙ (from_token-Names span_feed_capacity s.feeds token i names).3)

      retired_keeps : KeepsTokens s.feeds (retire_feed opened slot.index)
      retired_keeps token i names =
          let ne = elsewhere token i names in
          from_token-same_slot span_feed_capacity s.feeds _ token i
            (retire_feed_ne opened slot.index i ne
              ∙ with_stream_ne slot.table slot.index stream i ne
              ∙ (fresh.undisturbed token i names).1)
            names

  -- Opening a feed keeps the tables consistent, on every path.
  pub create-IsConsistent :
      (s : State native) (value : Option OptionsValue)
      → IsConsistent native s
      → IsConsistent native (create native s value).1
  unfolding create create_allocate span_feed_allocate
  create-IsConsistent s value c =
      found_rule (ConsistentAfter native) (read_options value) (λ _. c)
        (λ options _.
          let made = Keeps-IsConsistent native (world-Keeps native s _) c in
          if_rule (ConsistentAfter native) ((native.create_native_span_feed options s.world).0 == 0)
            (λ _. made)
            (λ _.
              if_rule (ConsistentAfter native)
                ((allocate span_feed_capacity fresh_feed s.feeds).token == 0)
                (λ _. Keeps-IsConsistent native (world-Keeps native _ _) made)
                (λ took.
                  create_attach-IsConsistent _ _ _
                    (allocate-IsFresh span_feed_capacity fresh_feed s.feeds c.feeds_valid
                      (omega arith) (omega arith) (ground arith))
                    made)))

  close_feed-IsConsistent :
      (s : State native) (token feed : ℕ)
      → token < 2 ^ 32
      → span_feed_from_token s.feeds token ≡ some feed
      → IsConsistent native s
      → IsConsistent native (close_feed native s token feed).1
  unfolding close_feed
  close_feed-IsConsistent s token feed small names c =
      on_ok_rule (ConsistentAfter native) (map_native_status _) _ _
        (λ _. record {
          feeds_valid = retire_feed-IsValid s.feeds feed c.feeds_valid;
          spans_valid =
              Swept-IsValid span_owner token s.spans _
                (λ i. (invalidate_feed_spans-Swept token s.spans i).0) c.spans_valid;
          reservations_valid =
              Swept-IsValid reservation_owner token s.reservations _
                (λ i. (release_feed_reservations-Swept token s.reservations i).0)
                c.reservations_valid;
          spans_owned =
              sweep-Owned span_owner span_capacity s.feeds s.spans _ token feed small names
                (invalidate_feed_spans-Swept token s.spans) c.spans_owned;
          reservations_owned =
              sweep-Owned reservation_owner reservation_capacity s.feeds s.reservations _ token feed
                small names (release_feed_reservations-Swept token s.reservations)
                c.reservations_owned;
        })
        (λ failed _ _. Keeps-IsConsistent native (world-Keeps native s _) c)

  -- Closing a feed keeps the tables consistent, whether the native close succeeds or not.
  pub close-IsConsistent :
      (s : State native) (token : ℕ)
      → token < 2 ^ 32
      → IsConsistent native s
      → IsConsistent native (close native s token).1
  unfolding close
  close-IsConsistent s token small c =
      found_rule (ConsistentAfter native) (span_feed_from_token s.feeds token) (λ _. c)
        (λ feed names.
          let k = cleanup_feed_pending-Keeps native s feed in
          close_feed-IsConsistent _ token feed small
            (span_feed_from_token-SameFeeds s.feeds _ token feed k.feeds names)
            (Keeps-IsConsistent native k c))
