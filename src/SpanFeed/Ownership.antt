-- ===== src/SpanFeed/Ownership.antt =====
-- Which slots of span_feed_stubs.c have a live feed, and what leaves it so.
use opentui_ocaml.Prelude.{
  ℕ, ◌^◌, ◌<◌, ◌≡◌, refl, sym, ap, ◌∙◌, true, some, arith, found_rule, inl, inr,
}
use opentui_ocaml.Slots.{Table, allocate, release_slot}
use opentui_ocaml.Slots.Laws.{from_token-Names, from_token-eq-some}
use opentui_ocaml.Slots.Fresh.{allocate_slots}
use opentui_ocaml.SpanFeed.{
  FeedFields, SpanFields, ReservationFields, span_capacity, reservation_capacity,
  span_feed_from_token, span_from_token, reservation_from_token, span_release_slot,
  reservation_release_slot, release_span, release_reservation,
}

-- Every live slot of a table has a live feed for its owner.
abbrev pub Owned : {P : Type 0} → (P → ℕ) → ℕ → Table FeedFields → Table P → Type 0
Owned owner capacity feeds t =
    (i : ℕ)
    → 0 < i
    → i < capacity
    → (t i).alive ≡ true
    → (f : ℕ) × (span_feed_from_token feeds (owner (t i).payload) ≡ some f)
      × (owner (t i).payload < 2 ^ 32)

abbrev pub SpansOwned : Table FeedFields → Table SpanFields → Type 0
SpansOwned = Owned (λ (f : SpanFields). f.feed_handle) span_capacity

abbrev pub ReservationsOwned : Table FeedFields → Table ReservationFields → Type 0
ReservationsOwned = Owned (λ (f : ReservationFields). f.feed_handle) reservation_capacity

-- A slot that is allocated for a live feed is owned, and the other slots are as they were.
pub allocate-Owned :
    {P : Type 0} (owner : P → ℕ) (capacity : ℕ) (prepare : P → P) (feeds : Table FeedFields)
    (t : Table P) (token feed : ℕ)
    → 0 < capacity
    → token < 2 ^ 32
    → span_feed_from_token feeds token ≡ some feed
    → ((x : P) → owner (prepare x) ≡ token)
    → Owned owner capacity feeds t
    → Owned owner capacity feeds (allocate capacity prepare t).table
allocate-Owned owner capacity prepare feeds t token feed c small names mine owned i p q live =
    elim (allocate_slots capacity prepare t c i) [
      | inl old ↦
          let (f, theirs, bounded) = owned i p q (sym (ap (λ x. x.alive) old) ∙ live) in
          (f, ap (λ x. span_feed_from_token feeds (owner x.payload)) old ∙ theirs, rw old bounded)
      | inr new ↦
          let e : owner ((allocate capacity prepare t).table i).payload ≡ token =
            ap owner new ∙ mine (t i).payload in
          (feed, ap (span_feed_from_token feeds) e ∙ names, rw e small)
    ]

-- The same slots are live, at the same generations.
abbrev pub SameFeeds : Table FeedFields → Table FeedFields → Type 0
SameFeeds t u = (i : ℕ) → ((u i).alive ≡ (t i).alive) × ((u i).generation ≡ (t i).generation)

-- Slots are at most released: what is live in `u` was live in `t`, with the same owner.
abbrev pub FewerSpans : Table SpanFields → Table SpanFields → Type 0
FewerSpans t u =
    (i : ℕ)
    → ((u i).generation ≡ (t i).generation)
      × ((u i).alive ≡ true
          → ((t i).alive ≡ true) × ((u i).payload.feed_handle ≡ (t i).payload.feed_handle))

abbrev pub FewerReservations : Table ReservationFields → Table ReservationFields → Type 0
FewerReservations t u =
    (i : ℕ)
    → ((u i).generation ≡ (t i).generation)
      × ((u i).alive ≡ true
          → ((t i).alive ≡ true) × ((u i).payload.feed_handle ≡ (t i).payload.feed_handle))

pub span_feed_from_token-SameFeeds :
    (t u : Table FeedFields) (token i : ℕ)
    → SameFeeds t u
    → span_feed_from_token t token ≡ some i
    → span_feed_from_token u token ≡ some i
unfolding span_feed_from_token
span_feed_from_token-SameFeeds t u token i same h =
    let n = from_token-Names 64 t token i h in
    from_token-eq-some 64 u token i (n.0, n.1, n.2, (same i).0 ∙ n.3, (same i).1 ∙ n.4)

pub span_release_slot-FewerSpans :
    (t : Table SpanFields) (k : ℕ) → FewerSpans t (span_release_slot t k)
unfolding span_release_slot release_slot
span_release_slot-FewerSpans t k i = ground arith

pub reservation_release_slot-FewerReservations :
    (t : Table ReservationFields) (k : ℕ) → FewerReservations t (reservation_release_slot t k)
unfolding reservation_release_slot release_slot
reservation_release_slot-FewerReservations t k i = ground arith

pub release_span-FewerSpans :
    (t : Table SpanFields) (token : ℕ) → FewerSpans t (release_span t token)
unfolding release_span
release_span-FewerSpans t token =
    found_rule (FewerSpans t) (span_from_token t token) (λ _ i. (refl, λ live. (live, refl)))
      (λ k _. span_release_slot-FewerSpans t k)

pub release_reservation-FewerReservations :
    (t : Table ReservationFields) (token : ℕ) → FewerReservations t (release_reservation t token)
unfolding release_reservation
release_reservation-FewerReservations t token =
    found_rule (FewerReservations t) (reservation_from_token t token)
      (λ _ i. (refl, λ live. (live, refl))) (λ k _. reservation_release_slot-FewerReservations t k)
