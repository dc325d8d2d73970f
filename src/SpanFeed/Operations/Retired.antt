-- ===== src/SpanFeed/Operations/Retired.antt =====
-- What closing a feed of span_feed_stubs.c leaves in the three tables.
use opentui_ocaml.Prelude.{ℕ, ◌^◌, ◌<◌, ◌≡◌, ap, ◌∙◌, ◌≢◌, true, false, some, arith}
use opentui_ocaml.Slots.{Slot, Table, from_token}
use opentui_ocaml.Slots.Laws.{IsValid, from_token-same_slot, from_token-injective}
use opentui_ocaml.Slots.Sweep.{Swept, sweep-Swept}
use opentui_ocaml.SpanFeed.Native.{NativeFeed}
use opentui_ocaml.SpanFeed.{
  FeedFields, SpanFields, ReservationFields, State, forget_span, forget_reservation,
  span_feed_capacity, span_capacity, reservation_capacity, span_feed_from_token,
  invalidate_feed_spans, release_feed_reservations,
}
use opentui_ocaml.SpanFeed.Consistent.{IsConsistent}
use opentui_ocaml.SpanFeed.Ownership.{Owned, SameFeeds}
use opentui_ocaml.SpanFeed.Operations.{with_stream, retire_feed}

-- Every token that names a feed of `t` names the same feed of `u`.
abbrev pub KeepsTokens : Table FeedFields → Table FeedFields → Type 0
KeepsTokens t u =
    (token i : ℕ) → span_feed_from_token t token ≡ some i → span_feed_from_token u token ≡ some i

Owned-KeepsTokens :
    {P : Type 0} (owner : P → ℕ) (capacity : ℕ) (t u : Table FeedFields) (slots : Table P)
    → KeepsTokens t u
    → Owned owner capacity t slots
    → Owned owner capacity u slots
Owned-KeepsTokens owner capacity t u slots keeps owned i p q live =
    let (f, names, small) = owned i p q live in (f, keeps _ f names, small)

pub retire_feed-IsValid : (t : Table FeedFields) (k : ℕ) → IsValid t → IsValid (retire_feed t k)
unfolding retire_feed
retire_feed-IsValid t k v = record {
  small = λ i. ground (arith, v.small i, v.small k);
  used = λ i. ground (arith, v.used i, v.used k);
}

pub retire_feed_ne : (t : Table FeedFields) (k i : ℕ) → k ≢ i → retire_feed t k i ≡ t i
unfolding retire_feed
retire_feed_ne t k i h = ground arith

pub retire_feed_self : (t : Table FeedFields) (k : ℕ) → (retire_feed t k k).alive ≡ false
unfolding retire_feed
retire_feed_self t k = ground arith

pub with_stream-SameFeeds :
    (t : Table FeedFields) (k stream : ℕ) → SameFeeds t (with_stream t k stream)
with_stream-SameFeeds t k stream i = ground arith

pub with_stream_ne :
    (t : Table FeedFields) (k stream i : ℕ) → k ≢ i → with_stream t k stream i ≡ t i
with_stream_ne t k stream i h = ground arith

pub SameFeeds-IsValid : (t u : Table FeedFields) → SameFeeds t u → IsValid t → IsValid u
SameFeeds-IsValid t u same v = record {
  small = λ i. ground (arith, same i, v.small i);
  used = λ i. ground (arith, same i, v.used i);
}

-- A table of feeds in place of another one that it keeps the tokens of.
pub replaced :
    (native : NativeFeed) (s : State native) (feeds : Table FeedFields) (w : native.World)
    → IsValid feeds
    → KeepsTokens s.feeds feeds
    → IsConsistent native s
    → IsConsistent native (record s { feeds = feeds; world = w })
replaced native s feeds w v keeps c = record {
  feeds_valid = v;
  spans_valid = c.spans_valid;
  reservations_valid = c.reservations_valid;
  spans_owned =
      Owned-KeepsTokens (λ (f : SpanFields). f.feed_handle) span_capacity s.feeds feeds s.spans
        keeps c.spans_owned;
  reservations_owned =
      Owned-KeepsTokens (λ (f : ReservationFields). f.feed_handle) reservation_capacity s.feeds
        feeds s.reservations keeps c.reservations_owned;
}

-- What the loop of `close` leaves is owned by the feeds that stay open.
pub sweep-Owned :
    {P : Type 0} (owner : P → ℕ) (capacity : ℕ) (feeds : Table FeedFields) (old new : Table P)
    (token feed : ℕ)
    → token < 2 ^ 32
    → span_feed_from_token feeds token ≡ some feed
    → ((i : ℕ)
        → Swept owner token (old i) (new i)
          × (0 < i → i < capacity → (new i).alive ≡ true → owner (new i).payload ≢ token))
    → Owned owner capacity feeds old
    → Owned owner capacity (retire_feed feeds feed) new
unfolding span_feed_from_token
sweep-Owned owner capacity feeds old new token feed small names swept owned i p q live =
    let was = (swept i).0.fewer live in
    let (f, theirs, bounded) = owned i p q was.0 in
    let same : owner (new i).payload ≡ owner (old i).payload =
      ap (λ (x : Slot _). owner x.payload) was.1 in
    let other : feed ≢ f = λ e. (swept i).1 p q live (
      same
      ∙ from_token-injective span_feed_capacity feeds _ token f bounded small theirs
          (names ∙ ap some e)) in
    (
      f,
      ap (from_token span_feed_capacity (retire_feed feeds feed)) same
          ∙ from_token-same_slot span_feed_capacity feeds _ _ f (retire_feed_ne feeds feed f other)
              theirs,
      rw same bounded,
    )

abbrev pub span_owner : SpanFields → ℕ
span_owner f = f.feed_handle

abbrev pub reservation_owner : ReservationFields → ℕ
reservation_owner f = f.feed_handle

pub invalidate_feed_spans-Swept :
    (token : ℕ) (t : Table SpanFields) (i : ℕ)
    → Swept span_owner token (t i) (invalidate_feed_spans token t i)
      × (0 < i
          → i < span_capacity
          → (invalidate_feed_spans token t i).alive ≡ true
          → span_owner (invalidate_feed_spans token t i).payload ≢ token)
unfolding invalidate_feed_spans
invalidate_feed_spans-Swept token t i = sweep-Swept span_owner forget_span token span_capacity t i

pub release_feed_reservations-Swept :
    (token : ℕ) (t : Table ReservationFields) (i : ℕ)
    → Swept reservation_owner token (t i) (release_feed_reservations token t i)
      × (0 < i
          → i < reservation_capacity
          → (release_feed_reservations token t i).alive ≡ true
          → reservation_owner (release_feed_reservations token t i).payload ≢ token)
unfolding release_feed_reservations
release_feed_reservations-Swept token t i =
    sweep-Swept reservation_owner forget_reservation token reservation_capacity t i

pub Swept-IsValid :
    {P : Type 0} (owner : P → ℕ) (token : ℕ) (t u : Table P)
    → ((i : ℕ) → Swept owner token (t i) (u i))
    → IsValid t
    → IsValid u
Swept-IsValid owner token t u swept v = record {
  small = λ i. rw (swept i).generation (v.small i);
  used = λ i live. rw (swept i).generation (v.used i ((swept i).fewer live).0);
}
