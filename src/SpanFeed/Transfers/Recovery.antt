-- ===== src/SpanFeed/Transfers/Recovery.antt =====
-- A drain of span_feed_stubs.c that OCaml's allocator left by an exception, and the cleanup after
-- it.
use opentui_ocaml.Prelude.{ℕ, ◌^◌, ◌<◌, ◌≡◌, sym, ap, ◌∙◌, ◌≢◌, Bool, false, none, some, arith}
use opentui_ocaml.Slots.{Table}
use opentui_ocaml.Slots.Laws.{from_token-release_slot}
use opentui_ocaml.SpanFeed.Native.{NativeFeed, SpanInfo}
use opentui_ocaml.SpanFeed.{
  SpanFields, State, returns, raises, span_capacity, forget_span, span_feed_from_token,
  span_from_token, span_release_slot, release_span, cleanup_feed_pending,
}
use opentui_ocaml.SpanFeed.Consistent.{IsConsistent}
use opentui_ocaml.SpanFeed.Cleanup.{fields, cleanup_feed_pending-fields, cleanup_feed_pending_span}
use opentui_ocaml.SpanFeed.Transfers.{Drained, drain}
use opentui_ocaml.SpanFeed.Transfers.Drain.{
  DrainCase, nothing, given_back, handed_over, kept, drain-DrainCase,
}

raises-ne-returns : {A : Type 0} {a : A} → returns a ≢ raises
raises-ne-returns e = cc

release_span_stale :
    (t : Table SpanFields) (token i : ℕ)
    → span_from_token t token ≡ some i
    → span_from_token (release_span t token) token ≡ none
unfolding release_span span_release_slot span_from_token
release_span_stale t token i e =
    rw (e, release_span) (from_token-release_slot span_capacity forget_span t i token e).0

module _ (native : NativeFeed) where
  open native use {stream_drain_span, stream_mark_span_consumed}

  -- What the cleanup makes of a state that a drain left by an exception.
  abbrev pub Recovered : State native → ℕ → ℕ × SpanInfo × native.World → Type 0
  Recovered s feed d =
      let u = cleanup_feed_pending native s feed in
      (u.world ≡ (stream_mark_span_consumed (fields native s feed).stream d.1 d.2).1)
      × (span_from_token s.spans (fields native s feed).pending_span_handle ≢ none)
      × (span_from_token u.spans (fields native s feed).pending_span_handle ≡ none)
      × ((fields native u feed).pending_span ≡ false)

  recovered :
      (s' : State native) (token feed : ℕ) (d : ℕ × SpanInfo × native.World)
      (r : Drained × State native)
      → DrainCase native s' token feed d r
      → r.0 ≡ raises
      → Recovered r.1 feed d
  recovered s' token feed d r (nothing z e) h =
      absurd (raises-ne-returns (sym (ap (λ (x : Drained × State native). x.0) e) ∙ h))
  recovered s' token feed d r (given_back m e w p f) h = absurd (raises-ne-returns (sym e ∙ h))
  recovered s' token feed d r (handed_over m bytes span i e b x n p w f) h =
      absurd (raises-ne-returns (sym e ∙ h))
  recovered s' token feed d r (kept m span i e z n p f1 f2 f3 f4 w) h =
      let cleaned = cleanup_feed_pending_span native r.1 feed f1 f4 in
      let named : span_from_token r.1.spans (fields native r.1 feed).pending_span_handle ≡ some i =
        ap (span_from_token r.1.spans) f2 ∙ n in
      (
        ground (arith, cleaned.0),
        λ stale. cc,
        ground (arith, cleaned.1, release_span_stale r.1.spans _ i named),
        (cleanup_feed_pending-fields native r.1 feed).0,
      )

  -- If the OCaml allocator raises out of a drain of a live feed of consistent tables, where the
  -- native feed answered with a 64-bit chunk address, the next cleanup of the feed reports the span
  -- consumed, makes its token stale and leaves no span pending.
  pub drain_raised_recovers :
      (s : State native) (token feed : ℕ) (room : Bool)
      → IsConsistent native s
      → span_feed_from_token s.feeds token ≡ some feed
      → let s' = cleanup_feed_pending native s feed in
        let d = stream_drain_span (fields native s' feed).stream s'.world in
        let r = drain native s token room in
        let u = cleanup_feed_pending native r.1 feed in
        d.1.chunk_ptr < 2 ^ 64
        → r.0 ≡ raises
        → (u.world ≡ (stream_mark_span_consumed (fields native r.1 feed).stream d.1 d.2).1)
          × (span_from_token r.1.spans (fields native r.1 feed).pending_span_handle ≢ none)
          × (span_from_token u.spans (fields native r.1 feed).pending_span_handle ≡ none)
          × ((fields native u feed).pending_span ≡ false)
  drain_raised_recovers s token feed room c names wide e =
      recovered _ token feed _ _ (drain-DrainCase native s token feed room c names wide) e
