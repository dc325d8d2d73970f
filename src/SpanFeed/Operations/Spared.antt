-- ===== src/SpanFeed/Operations/Spared.antt =====
-- Which spans and reservations of span_feed_stubs.c the cleanup before a call leaves alone.
use opentui_ocaml.Prelude.{
  ℕ, ◌≡◌, ◌≢◌, refl, sym, ap, ◌∙◌, true, some, arith, ◌==◌, if_rule, found_rule,
}
use opentui_ocaml.Slots.{Table}
use opentui_ocaml.Slots.Laws.{release_slot_ne}
use opentui_ocaml.SpanFeed.Native.{NativeFeed}
use opentui_ocaml.SpanFeed.{
  SpanFields, ReservationFields, State, forget_span, forget_reservation, span_capacity,
  reservation_capacity, span_from_token, reservation_from_token, span_release_slot,
  reservation_release_slot, release_span, release_reservation, cleanup_pending_span,
  cleanup_pending_reservation, cleanup_feed_pending,
}

release_span_ne :
    (t : Table SpanFields) (token i : ℕ)
    → span_from_token t token ≢ some i
    → release_span t token i ≡ t i
unfolding release_span span_release_slot
release_span_ne t token i apart =
    found_rule (λ (u : Table SpanFields). u i ≡ t i) (span_from_token t token) (λ _. refl)
      (λ k names.
        release_slot_ne span_capacity forget_span t k i (λ same. apart (names ∙ ap some same)))

release_reservation_ne :
    (t : Table ReservationFields) (token i : ℕ)
    → reservation_from_token t token ≢ some i
    → release_reservation t token i ≡ t i
unfolding release_reservation reservation_release_slot
release_reservation_ne t token i apart =
    found_rule (λ (u : Table ReservationFields). u i ≡ t i) (reservation_from_token t token)
      (λ _. refl)
      (λ k names.
        release_slot_ne reservation_capacity forget_reservation t k i
          (λ same. apart (names ∙ ap some same)))

module _ (native : NativeFeed) (s : State native) (feed i : ℕ) where
  -- The span slot, or the reservation slot, that an earlier call left pending on the feed.
  abbrev pub PendingSpan : Type 0
  PendingSpan =
      ((s.feeds feed).payload.pending_span ≡ true)
      × (span_from_token s.spans (s.feeds feed).payload.pending_span_handle ≡ some i)

  abbrev pub PendingReservation : Type 0
  PendingReservation =
      ((s.feeds feed).payload.pending_reservation ≡ true)
      × (reservation_from_token s.reservations (s.feeds feed).payload.pending_reservation_handle
          ≡ some i)

  cleanup_pending_span-spans :
      (PendingSpan → ⊥) → (cleanup_pending_span native s feed).spans i ≡ s.spans i
  unfolding cleanup_pending_span
  cleanup_pending_span-spans apart =
      if_rule (λ (u : State native). u.spans i ≡ s.spans i) (s.feeds feed).payload.pending_span
        (λ pending.
          if_rule (λ (t : Table SpanFields). t i ≡ s.spans i)
            ((s.feeds feed).payload.pending_span_handle == 0) (λ _. refl)
            (λ _.
              release_span_ne s.spans (s.feeds feed).payload.pending_span_handle i
                (λ named. apart (pending, named))))
        (λ _. refl)

  cleanup_pending_reservation-reservations :
      (PendingReservation → ⊥)
      → (cleanup_pending_reservation native s feed).reservations i ≡ s.reservations i
  unfolding cleanup_pending_reservation
  cleanup_pending_reservation-reservations apart =
      if_rule (λ (u : State native). u.reservations i ≡ s.reservations i)
        (s.feeds feed).payload.pending_reservation
        (λ pending.
          if_rule (λ (t : Table ReservationFields). t i ≡ s.reservations i)
            ((s.feeds feed).payload.pending_reservation_handle == 0) (λ _. refl)
            (λ _.
              release_reservation_ne s.reservations
                (s.feeds feed).payload.pending_reservation_handle i
                (λ named. apart (pending, named))))
        (λ _. refl)

  -- The half on spans leaves what is pending of reservations, and the other half leaves the spans.
  reservations_wait :
      ((cleanup_pending_span native s feed).reservations ≡ s.reservations)
      × (((cleanup_pending_span native s feed).feeds feed).payload.pending_reservation
          ≡ (s.feeds feed).payload.pending_reservation)
      × (((cleanup_pending_span native s feed).feeds feed).payload.pending_reservation_handle
          ≡ (s.feeds feed).payload.pending_reservation_handle)
  unfolding cleanup_pending_span
  reservations_wait = ground arith

  cleanup_pending_reservation-spans : (cleanup_pending_reservation native s feed).spans ≡ s.spans
  unfolding cleanup_pending_reservation
  cleanup_pending_reservation-spans = ground arith

module _ (native : NativeFeed) (s : State native) (feed i : ℕ) where
  pub cleanup_feed_pending-spans :
      (PendingSpan native s feed i → ⊥) → (cleanup_feed_pending native s feed).spans i ≡ s.spans i
  unfolding cleanup_feed_pending
  cleanup_feed_pending-spans apart =
      ap (λ (t : Table SpanFields). t i)
        (cleanup_pending_reservation-spans native (cleanup_pending_span native s feed) feed i)
      ∙ cleanup_pending_span-spans native s feed i apart

  pub cleanup_feed_pending-reservations :
      (PendingReservation native s feed i → ⊥)
      → (cleanup_feed_pending native s feed).reservations i ≡ s.reservations i
  unfolding cleanup_feed_pending
  cleanup_feed_pending-reservations apart =
      let w = reservations_wait native s feed i in
      cleanup_pending_reservation-reservations native (cleanup_pending_span native s feed) feed i
        (λ p. apart (
          sym w.1 ∙ p.0,
          ap (λ t. reservation_from_token t (s.feeds feed).payload.pending_reservation_handle)
                (sym w.0)
              ∙ ap (reservation_from_token (cleanup_pending_span native s feed).reservations)
                  (sym w.2)
              ∙ p.1,
        ))
      ∙ ap (λ (t : Table ReservationFields). t i) w.0
