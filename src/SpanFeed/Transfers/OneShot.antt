-- ===== src/SpanFeed/Transfers/OneShot.antt =====
-- Calls of span_feed_stubs.c on a token that an earlier call has ended.
use opentui_ocaml.Prelude.{ℕ, ◌≡◌, refl, none, some, List, ◌==◌, if_rule, found_rule, take}
use opentui_ocaml.Prelude.Int.{ℤ}
use opentui_ocaml.Status.{Status, ok, stale_handle, on_ok_rule}
use opentui_ocaml.Slots.{Table}
use opentui_ocaml.Slots.Laws.{from_token-Names, from_token-dead, release_slot_self}
use opentui_ocaml.SpanFeed.Native.{NativeFeed}
use opentui_ocaml.SpanFeed.{
  SpanFields, ReservationFields, State, span_capacity, reservation_capacity, forget_span,
  forget_reservation, span_feed_from_token, span_from_token, reservation_from_token,
  span_release_slot, reservation_release_slot, map_native_status, cleanup_feed_pending,
}
use opentui_ocaml.SpanFeed.Transfers.{
  span_release, commit_reserved, commit_live, accepts_used, unsigned_used, reservation_commit,
  reservation_cancel,
}

-- Releasing the slot behind a token makes the token stale, whatever else changed in the table.
span_stale :
    (t u : Table SpanFields) (token span : ℕ)
    → span_from_token t token ≡ some span
    → span_from_token (span_release_slot u span) token ≡ none
unfolding span_from_token span_release_slot
span_stale t u token span names = from_token-dead span_capacity _ token (
    rw (from_token-Names span_capacity t token span names).0
      (release_slot_self span_capacity forget_span u span))

reservation_stale :
    (t u : Table ReservationFields) (token reservation : ℕ)
    → reservation_from_token t token ≡ some reservation
    → reservation_from_token (reservation_release_slot u reservation) token ≡ none
unfolding reservation_from_token reservation_release_slot
reservation_stale t u token reservation names = from_token-dead reservation_capacity _ token (
    rw (from_token-Names reservation_capacity t token reservation names).0
      (release_slot_self reservation_capacity forget_reservation u reservation))

module _ (native : NativeFeed) where
  abbrev SpanGone : ℕ → Status × State native → Type 0
  SpanGone token r = r.0 ≡ ok → span_from_token r.1.spans token ≡ none

  abbrev ReservationGone : ℕ → Status × State native → Type 0
  ReservationGone token r = r.0 ≡ ok → reservation_from_token r.1.reservations token ≡ none

  span_release-Gone : (s : State native) (token : ℕ) → SpanGone token (span_release native s token)
  unfolding span_release
  span_release-Gone s token =
      found_rule (SpanGone token) (span_from_token s.spans token) (λ _ e. cc)
        (λ span names.
          found_rule (SpanGone token) (span_feed_from_token s.feeds _) (λ _ e. cc)
            (λ feed _.
              on_ok_rule (SpanGone token) (map_native_status _) _ _
                (λ _ _. span_stale s.spans _ token span names) (λ failed _ ne e. absurd (ne e))))

  commit_reserved-Gone :
      (s s' : State native) (token reservation feed used : ℕ)
      → reservation_from_token s.reservations token ≡ some reservation
      → ReservationGone token (commit_reserved native s' reservation feed used)
  unfolding commit_reserved
  commit_reserved-Gone s s' token reservation feed used names =
      on_ok_rule (ReservationGone token) (map_native_status _) _ _
        (λ _ _. reservation_stale s.reservations _ token reservation names)
        (λ failed _ ne e. absurd (ne e))

  commit_live-Gone :
      (s s' : State native) (token reservation feed : ℕ) (bytes : List ℕ) (used : ℕ)
      → reservation_from_token s.reservations token ≡ some reservation
      → ReservationGone token (commit_live native s' reservation feed bytes used)
  unfolding commit_live
  commit_live-Gone s s' token reservation feed bytes used names =
      if_rule (ReservationGone token) (used == 0)
        (λ _. commit_reserved-Gone s s' token reservation feed used names)
        (λ _.
          if_rule (ReservationGone token) ((s'.reservations reservation).payload.info.ptr == 0)
            (λ _ e. cc)
            (λ _.
              commit_reserved-Gone s
                (record s' {
                  world =
                      native.write_memory (s'.reservations reservation).payload.info.ptr
                        (take used bytes) s'.world;
                })
                token reservation feed used names))

  reservation_commit-Gone :
      (s : State native) (token : ℕ) (bytes : List ℕ) (used : ℤ)
      → ReservationGone token (reservation_commit native s token bytes used)
  unfolding reservation_commit
  reservation_commit-Gone s token bytes used =
      found_rule (ReservationGone token) (reservation_from_token s.reservations token) (λ _ e. cc)
        (λ reservation names.
          if_rule (ReservationGone token) (accepts_used _ bytes used)
            (λ _.
              found_rule (ReservationGone token) (span_feed_from_token s.feeds _) (λ _ e. cc)
                (λ feed _.
                  commit_live-Gone s (cleanup_feed_pending native s feed) token reservation feed
                    bytes (unsigned_used used) names))
            (λ _ e. cc))

  reservation_cancel-Gone :
      (s : State native) (token : ℕ) → ReservationGone token (reservation_cancel native s token)
  unfolding reservation_cancel
  reservation_cancel-Gone s token =
      found_rule (ReservationGone token) (reservation_from_token s.reservations token) (λ _ e. cc)
        (λ reservation names.
          found_rule (ReservationGone token) (span_feed_from_token s.feeds _) (λ _ e. cc)
            (λ feed _.
              on_ok_rule (ReservationGone token) (map_native_status _) _ _
                (λ _ _. reservation_stale s.reservations _ token reservation names)
                (λ failed _ ne e. absurd (ne e))))

  span_release_stale :
      (u : State native) (token : ℕ)
      → span_from_token u.spans token ≡ none
      → span_release native u token ≡ (stale_handle, u)
  unfolding span_release
  span_release_stale u token stale = rw stale refl

  -- A span whose release succeeded cannot be released again: the second call reports a stale handle
  -- and changes nothing.
  pub span_release_once :
      (s : State native) (token : ℕ)
      → (span_release native s token).0 ≡ ok
      → let u = (span_release native s token).1 in span_release native u token ≡ (stale_handle, u)
  span_release_once s token e = span_release_stale _ token (span_release-Gone s token e)

  -- What a call on a reservation that is gone does.
  abbrev pub Refused : State native → ℕ → Type 0
  Refused u token =
      ((bytes : List ℕ) (used : ℤ)
        → reservation_commit native u token bytes used ≡ (stale_handle, u))
      × (reservation_cancel native u token ≡ (stale_handle, u))

  reservation_stale-Refused :
      (u : State native) (token : ℕ)
      → reservation_from_token u.reservations token ≡ none
      → Refused u token
  unfolding reservation_commit reservation_cancel
  reservation_stale-Refused u token stale = (λ bytes used. rw stale refl, rw stale refl)

  -- A reservation ends once: after a commit or a cancel of its token that succeeded, a commit of
  -- any bytes and a cancel report a stale handle and change nothing.
  pub reservation_once :
      (s : State native) (token : ℕ) (bytes : List ℕ) (used : ℤ)
      → ((reservation_commit native s token bytes used).0 ≡ ok
          → Refused (reservation_commit native s token bytes used).1 token)
        × ((reservation_cancel native s token).0 ≡ ok
            → Refused (reservation_cancel native s token).1 token)
  reservation_once s token bytes used = (
    λ e. reservation_stale-Refused _ token (reservation_commit-Gone s token bytes used e),
    λ e. reservation_stale-Refused _ token (reservation_cancel-Gone s token e),
  )
