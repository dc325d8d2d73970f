-- ===== src/SpanFeed/Operations/Close.antt =====
-- What a successful `opentui_raw_span_feed_close` leaves of the tokens of the feed and of others.
use opentui_ocaml.Prelude.{
  ℕ, ◌<◌, ◌≡◌, sym, ap, ◌∙◌, ◌≢◌, true, none, some, inl, inr, found_rule, Option-cases,
}
use opentui_ocaml.Status.{Status, ok, on_ok_rule}
use opentui_ocaml.Slots.{Slot, Table, from_token}
use opentui_ocaml.Slots.Laws.{from_token-Names, from_token-same_slot, from_token-dead}
use opentui_ocaml.Slots.Sweep.{Swept}
use opentui_ocaml.SpanFeed.Native.{NativeFeed}
use opentui_ocaml.SpanFeed.{
  State, span_feed_capacity, span_capacity, reservation_capacity, map_native_status,
  span_feed_from_token, span_from_token, reservation_from_token,
}
use opentui_ocaml.SpanFeed.Consistent.{Keeps, cleanup_feed_pending-Keeps}
use opentui_ocaml.SpanFeed.Ownership.{span_feed_from_token-SameFeeds}
use opentui_ocaml.SpanFeed.Operations.Spared.{
  PendingSpan, PendingReservation, cleanup_feed_pending-spans, cleanup_feed_pending-reservations,
}
use opentui_ocaml.SpanFeed.Operations.{retire_feed, close_feed, close}
use opentui_ocaml.SpanFeed.Operations.Retired.{
  span_owner, reservation_owner, invalidate_feed_spans-Swept, release_feed_reservations-Swept,
  retire_feed_self, retire_feed_ne,
}

-- A slot that was live for the feed is dead once the sweep has passed.
from_token-Swept :
    {P : Type 0} (owner : P → ℕ) (capacity : ℕ) (first old new : Table P) (h token i : ℕ)
    → ((k : ℕ) → (old k).alive ≡ true → owner (old k).payload ≡ owner (first k).payload)
    → ((k : ℕ)
        → Swept owner h (old k) (new k)
          × (0 < k → k < capacity → (new k).alive ≡ true → owner (new k).payload ≢ h))
    → from_token capacity first token ≡ some i
    → owner (first i).payload ≡ h
    → from_token capacity new token ≡ none
from_token-Swept owner capacity first old new h token i same swept names mine =
    elim (Option-cases (from_token capacity new token)) [
      | inl stale ↦ stale
      | inr (j, e) ↦
          let n = from_token-Names capacity first token i names in
          let m = from_token-Names capacity new token j e in
          let was = (swept j).0.fewer m.3 in
          let at : j ≡ i = sym m.0 ∙ n.0 in
          absurd (
            (swept j).1 m.1 m.2 m.3 (
              ap (λ (x : Slot _). owner x.payload) was.1
              ∙ same j was.0
              ∙ ap (λ k. owner (first k).payload) at
              ∙ mine))
    ]

-- A slot of another owner that an earlier step left as it was.
spared_Swept :
    {P : Type 0} (owner : P → ℕ) (capacity : ℕ) (first old new : Table P) (h token i : ℕ)
    → old i ≡ first i
    → Swept owner h (old i) (new i)
    → from_token capacity first token ≡ some i
    → owner (first i).payload ≢ h
    → (from_token capacity new token ≡ some i) × (new i ≡ first i)
spared_Swept owner capacity first old new h token i kept swept names theirs =
    let same =
      swept.others (λ e. theirs (ap (λ (x : Slot _). owner x.payload) (sym kept) ∙ e)) ∙ kept in
    (from_token-same_slot capacity first new token i same names, same)

module _ (native : NativeFeed) where
  -- What is left of the feed with this token in slot `feed`, once `s` has become `u`.
  pub record IsClosed (s u : State native) (token feed : ℕ) : Type 0 where
    pub feed_stale : span_feed_from_token u.feeds token ≡ none
    pub spans_stale :
        (span i : ℕ)
        → span_from_token s.spans span ≡ some i
        → (s.spans i).payload.feed_handle ≡ token
        → span_from_token u.spans span ≡ none
    pub reservations_stale :
        (reservation i : ℕ)
        → reservation_from_token s.reservations reservation ≡ some i
        → (s.reservations i).payload.feed_handle ≡ token
        → reservation_from_token u.reservations reservation ≡ none
    pub others_live :
        (other i : ℕ)
        → span_feed_from_token s.feeds other ≡ some i
        → feed ≢ i
        → span_feed_from_token u.feeds other ≡ some i
    pub other_spans :
        (span i : ℕ)
        → span_from_token s.spans span ≡ some i
        → (s.spans i).payload.feed_handle ≢ token
        → (PendingSpan native s feed i → ⊥)
        → (span_from_token u.spans span ≡ some i) × (u.spans i ≡ s.spans i)
    pub other_reservations :
        (reservation i : ℕ)
        → reservation_from_token s.reservations reservation ≡ some i
        → (s.reservations i).payload.feed_handle ≢ token
        → (PendingReservation native s feed i → ⊥)
        → (reservation_from_token u.reservations reservation ≡ some i)
          × (u.reservations i ≡ s.reservations i)

  close_feed-IsClosed :
      (s s' : State native) (token feed : ℕ)
      → Keeps native s s'
      → ((i : ℕ) → (PendingSpan native s feed i → ⊥) → s'.spans i ≡ s.spans i)
      → ((i : ℕ) → (PendingReservation native s feed i → ⊥) → s'.reservations i ≡ s.reservations i)
      → span_feed_from_token s'.feeds token ≡ some feed
      → (close_feed native s' token feed).0 ≡ ok
      → IsClosed s (close_feed native s' token feed).1 token feed
  unfolding close_feed span_feed_from_token span_from_token reservation_from_token
  close_feed-IsClosed s s' token feed k spared_spans spared_reservations names =
      on_ok_rule (λ (r : Status × State native). r.0 ≡ ok → IsClosed s r.1 token feed)
        (map_native_status _) _ _
        (λ _ _. record {
          feed_stale = from_token-dead span_feed_capacity _ token (
              ap (λ i. (retire_feed s'.feeds feed i).alive)
                (from_token-Names span_feed_capacity s'.feeds token feed names).0
              ∙ retire_feed_self s'.feeds feed);
          spans_stale = λ span i.
              from_token-Swept span_owner span_capacity s.spans s'.spans _ token span i
                (λ j live. ((k.spans j).1 live).1) (invalidate_feed_spans-Swept token s'.spans);
          reservations_stale = λ reservation i.
              from_token-Swept reservation_owner reservation_capacity s.reservations s'.reservations
                _ token reservation i (λ j live. ((k.reservations j).1 live).1)
                (release_feed_reservations-Swept token s'.reservations);
          others_live = λ other i live ne.
              from_token-same_slot span_feed_capacity s'.feeds _ other i
                (retire_feed_ne s'.feeds feed i ne)
                (span_feed_from_token-SameFeeds s.feeds s'.feeds other i k.feeds live);
          other_spans = λ span i live theirs apart.
              spared_Swept span_owner span_capacity s.spans s'.spans _ token span i
                (spared_spans i apart) (invalidate_feed_spans-Swept token s'.spans i).0 live theirs;
          other_reservations = λ reservation i live theirs apart.
              spared_Swept reservation_owner reservation_capacity s.reservations s'.reservations _
                token reservation i (spared_reservations i apart)
                (release_feed_reservations-Swept token s'.reservations i).0 live theirs;
        })
        (λ failed _ ne e. absurd (ne e))

  -- When close reports success the token was live, and afterwards it and every span and reservation
  -- token of its feed are stale, while the tokens of other feeds name their feeds as before. So do
  -- those of the spans and reservations of other feeds, whose slots are unchanged, but for a slot
  -- that a pending handle of the closed feed names.
  pub close-IsClosed :
      (s : State native) (token : ℕ)
      → (close native s token).0 ≡ ok
      → (feed : ℕ) × (span_feed_from_token s.feeds token ≡ some feed)
        × IsClosed s (close native s token).1 token feed
  unfolding close
  close-IsClosed s token =
      found_rule
        (λ (r : Status × State native).
          r.0 ≡ ok
          → (feed : ℕ) × (span_feed_from_token s.feeds token ≡ some feed)
            × IsClosed s r.1 token feed)
        (span_feed_from_token s.feeds token) (λ _ e. cc)
        (λ feed names e.
          let k = cleanup_feed_pending-Keeps native s feed in
          (
            feed,
            names,
            close_feed-IsClosed s _ token feed k (λ i. cleanup_feed_pending-spans native s feed i)
                (λ i. cleanup_feed_pending-reservations native s feed i)
                (span_feed_from_token-SameFeeds s.feeds _ token feed k.feeds names) e,
          ))
