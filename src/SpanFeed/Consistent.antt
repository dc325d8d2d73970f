-- ===== src/SpanFeed/Consistent.antt =====
-- The invariant of the three tables of span_feed_stubs.c, and the steps that cannot break it.
use opentui_ocaml.Prelude.{ℕ, refl, ap, ◌∙◌, arith, ◌==◌, if◌then◌else◌, if_rule}
use opentui_ocaml.Slots.Laws.{IsValid}
use opentui_ocaml.SpanFeed.Native.{NativeFeed}
use opentui_ocaml.SpanFeed.{
  FeedFields, State, span_feed_from_token, release_span, release_reservation, write_feed,
  cleanup_pending_span, cleanup_pending_reservation, cleanup_feed_pending,
}
use opentui_ocaml.SpanFeed.Ownership.{
  release_span-FewerSpans, release_reservation-FewerReservations, ReservationsOwned, FewerSpans,
  FewerReservations, span_feed_from_token-SameFeeds, SpansOwned, SameFeeds,
}

module _ (native : NativeFeed) where
  -- The invariant: the tables are valid, and every live span and reservation has a live feed.
  pub record IsConsistent (s : State native) : Type 0 where
    pub feeds_valid : IsValid s.feeds
    pub spans_valid : IsValid s.spans
    pub reservations_valid : IsValid s.reservations
    pub spans_owned : SpansOwned s.feeds s.spans
    pub reservations_owned : ReservationsOwned s.feeds s.reservations

  -- What most steps do: the feeds stay as live as they were, spans and reservations go at most.
  pub record Keeps (s u : State native) : Type 0 where
    pub feeds : SameFeeds s.feeds u.feeds
    pub spans : FewerSpans s.spans u.spans
    pub reservations : FewerReservations s.reservations u.reservations

  pub Keeps-refl : (s : State native) → Keeps s s
  Keeps-refl s = record {
    feeds = λ i. (refl, refl);
    spans = λ i. (refl, λ live. (live, refl));
    reservations = λ i. (refl, λ live. (live, refl));
  }

  pub Keeps-trans : {s u w : State native} → Keeps s u → Keeps u w → Keeps s w
  Keeps-trans h k = record {
    feeds = λ i. ((k.feeds i).0 ∙ (h.feeds i).0, (k.feeds i).1 ∙ (h.feeds i).1);
    spans = λ i. (
      (k.spans i).0 ∙ (h.spans i).0,
      λ live.
          let later = (k.spans i).1 live in
          let earlier = (h.spans i).1 later.0 in (earlier.0, later.1 ∙ earlier.1),
    );
    reservations = λ i. (
      (k.reservations i).0 ∙ (h.reservations i).0,
      λ live.
          let later = (k.reservations i).1 live in
          let earlier = (h.reservations i).1 later.0 in (earlier.0, later.1 ∙ earlier.1),
    );
  }

  pub Keeps-IsConsistent : {s u : State native} → Keeps s u → IsConsistent s → IsConsistent u
  Keeps-IsConsistent {s} {u} k c = record {
    feeds_valid = record {
      small = λ i. ground (arith, k.feeds i, c.feeds_valid.small i);
      used = λ i live. ground (arith, k.feeds i, c.feeds_valid.used i);
    };
    spans_valid = record {
      small = λ i. ground (arith, (k.spans i).0, c.spans_valid.small i);
      used = λ i live. ground (arith, (k.spans i).0, (k.spans i).1 live, c.spans_valid.used i);
    };
    reservations_valid = record {
      small = λ i. ground (arith, (k.reservations i).0, c.reservations_valid.small i);
      used = λ i live.
          ground
            (arith, (k.reservations i).0, (k.reservations i).1 live, c.reservations_valid.used i);
    };
    spans_owned = λ i p q live.
        let was = (k.spans i).1 live in
        let (f, owned, small) = c.spans_owned i p q was.0 in
        (
          f,
          span_feed_from_token-SameFeeds s.feeds u.feeds _ f k.feeds
              (ap (span_feed_from_token s.feeds) was.1 ∙ owned),
          rw was.1 small,
        );
    reservations_owned = λ i p q live.
        let was = (k.reservations i).1 live in
        let (f, owned, small) = c.reservations_owned i p q was.0 in
        (
          f,
          span_feed_from_token-SameFeeds s.feeds u.feeds _ f k.feeds
              (ap (span_feed_from_token s.feeds) was.1 ∙ owned),
          rw was.1 small,
        );
  }

  pub world-Keeps : (s : State native) (w : native.World) → Keeps s (record s { world = w })
  world-Keeps s w = record {
    feeds = λ i. (refl, refl);
    spans = λ i. (refl, λ live. (live, refl));
    reservations = λ i. (refl, λ live. (live, refl));
  }

  pub write_feed-Keeps :
      (s : State native) (k : ℕ) (f : FeedFields) → Keeps s (write_feed native s k f)
  write_feed-Keeps s k f = record {
    feeds = λ i. ground arith;
    spans = λ i. (refl, λ live. (live, refl));
    reservations = λ i. (refl, λ live. (live, refl));
  }

  cleanup_pending_span-Keeps :
      (s : State native) (feed : ℕ) → Keeps s (cleanup_pending_span native s feed)
  unfolding cleanup_pending_span
  cleanup_pending_span-Keeps s feed =
      if_rule (Keeps s) (s.feeds feed).payload.pending_span
        (λ _. Keeps-trans (released _) (write_feed-Keeps _ feed _)) (λ _. Keeps-refl s)
    where
      open (s.feeds feed).payload use {pending_span_handle as handle}

      released :
          (w : native.World)
          → Keeps s (record s {
            spans = if handle == 0 then s.spans else release_span s.spans handle;
            world = w;
          })
      released w = record {
        feeds = λ i. (refl, refl);
        spans =
            if_rule (FewerSpans s.spans) (handle == 0) (λ _ i. (refl, λ live. (live, refl)))
              (λ _. release_span-FewerSpans s.spans handle);
        reservations = λ i. (refl, λ live. (live, refl));
      }

  cleanup_pending_reservation-Keeps :
      (s : State native) (feed : ℕ) → Keeps s (cleanup_pending_reservation native s feed)
  unfolding cleanup_pending_reservation
  cleanup_pending_reservation-Keeps s feed =
      if_rule (Keeps s) (s.feeds feed).payload.pending_reservation
        (λ _. Keeps-trans (released _) (write_feed-Keeps _ feed _)) (λ _. Keeps-refl s)
    where
      open (s.feeds feed).payload use {pending_reservation_handle as handle}

      released :
          (w : native.World)
          → Keeps s (record s {
            reservations =
                if handle == 0 then s.reservations else release_reservation s.reservations handle;
            world = w;
          })
      released w = record {
        feeds = λ i. (refl, refl);
        reservations =
            if_rule (FewerReservations s.reservations) (handle == 0)
              (λ _ i. (refl, λ live. (live, refl)))
              (λ _. release_reservation-FewerReservations s.reservations handle);
        spans = λ i. (refl, λ live. (live, refl));
      }

  -- Cleaning up releases at most a span and a reservation, and kills no feed.
  pub cleanup_feed_pending-Keeps :
      (s : State native) (feed : ℕ) → Keeps s (cleanup_feed_pending native s feed)
  unfolding cleanup_feed_pending
  cleanup_feed_pending-Keeps s feed =
      Keeps-trans (cleanup_pending_span-Keeps s feed) (cleanup_pending_reservation-Keeps _ feed)

  -- The same for the state that an operation returns beside its result.
  abbrev pub KeepsAfter : State native → {A : Type 0} → A × State native → Type 0
  KeepsAfter s r = Keeps s r.1

  abbrev pub ConsistentAfter : {A : Type 0} → A × State native → Type 0
  ConsistentAfter r = IsConsistent r.1
