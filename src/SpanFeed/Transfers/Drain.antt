-- ===== src/SpanFeed/Transfers/Drain.antt =====
-- What `opentui_raw_span_feed_drain` does with the span that it takes from the native feed: it
-- hands it over, gives it back, or remembers it for the next call.
use opentui_ocaml.Prelude.{
  ℕ, ◌+◌, ◌^◌, ◌≤◌, ◌<◌, ◌≡◌, refl, ◌≢◌, ◌⊎◌, ◌↔◌, inl, inr, Bool, true, false, none, some, List,
  [], arith, ◌==◌, if◌then◌else◌, if_rule, found_rule, subst,
}
use opentui_ocaml.Status.{ok, native_failure}
use opentui_ocaml.Slots.{Allocation, allocate}
use opentui_ocaml.Slots.Laws.{IsValid}
use opentui_ocaml.Slots.Fresh.{IsFresh, allocate-IsFresh}
use opentui_ocaml.SpanFeed.Native.{NativeFeed, SpanInfo}
use opentui_ocaml.SpanFeed.{
  SpanFields, State, returns, raises, span_capacity, uintptr_max, span_source, span_feed_from_token,
  span_from_token, span_allocate, write_feed, clear_feed_pending_span, cleanup_feed_pending,
}
use opentui_ocaml.SpanFeed.Consistent.{IsConsistent, Keeps-IsConsistent, cleanup_feed_pending-Keeps}
use opentui_ocaml.SpanFeed.Cleanup.{fields, cleanup_feed_pending-fields, cleanup_feed_pending_span}
use opentui_ocaml.SpanFeed.Transfers.{Drained, drain_allocate, drain_feed, drain}

-- A span's bytes lie in the address space: no address of `span_source` or of the copy wraps.
abbrev pub IsAddressable : SpanInfo → Type 0
IsAddressable info = (0 < info.chunk_ptr) × (info.chunk_ptr + info.offset + info.len ≤ uintptr_max)

-- For a 64-bit chunk address span_source accepts exactly the empty spans, with address 0, and those
-- whose bytes lie in the address space, with the address of the first byte.
pub span_source_iff :
    (info : SpanInfo) (p : ℕ)
    → info.chunk_ptr < 2 ^ 64
    → (span_source info ≡ some p) ↔ (
        ((info.len ≡ 0) × (p ≡ 0))
        ⊎ ((0 < info.len) × IsAddressable info × (p ≡ info.chunk_ptr + info.offset)))
unfolding span_source
span_source_iff info p h = (λ e. ground arith, λ e. ground arith)

module _ (native : NativeFeed) where
  open native use {stream_drain_span, stream_mark_span_consumed, read_memory}

  -- The ends that a drain can come to. `s` is the state in which the native feed is asked, `d` its
  -- answer (a count, a span, the native state) and `r` the result with the state that is left.
  pub data DrainCase (s : State native) (token feed : ℕ) (d : ℕ × SpanInfo × native.World)
      (r : Drained × State native) : Type 0 where
    -- There was no span.
    nothing :
        d.0 ≡ 0 → r ≡ (returns (ok, none), record s { world = d.2 }) → DrainCase s token feed d r
    -- The span cannot be handed over; it is reported consumed, and nothing is pending.
    given_back :
        d.0 ≢ 0
        → r.0 ≡ returns (native_failure, none)
        → r.1.world ≡ (stream_mark_span_consumed (fields native s feed).stream d.1 d.2).1
        → r.1.spans ≡ s.spans
        → (fields native r.1 feed).pending_span ≡ false
        → DrainCase s token feed d r
    -- The caller has the bytes and a token that is new and names the span; nothing is pending.
    handed_over :
        d.0 ≢ 0
        → (bytes : List ℕ) (span i : ℕ) → r.0 ≡ returns (ok, some (bytes, span))
        → ((d.1.len ≡ 0) × (bytes ≡ []))
          ⊎ ((0 < d.1.len)
              × IsAddressable d.1
              × (bytes ≡ read_memory (d.1.chunk_ptr + d.1.offset) d.1.len d.2))
        → span_from_token s.spans span ≡ none
        → span_from_token r.1.spans span ≡ some i
        → (r.1.spans i).payload ≡ record { feed_handle = token; info = d.1 }
        → r.1.world ≡ d.2
        → (fields native r.1 feed).pending_span ≡ false
        → DrainCase s token feed d r
    -- OCaml's allocator raised; the span is pending under a token that names it.
    kept :
        d.0 ≢ 0
        → (span i : ℕ) → r.0 ≡ raises
        → span ≢ 0
        → span_from_token r.1.spans span ≡ some i
        → (r.1.spans i).payload ≡ record { feed_handle = token; info = d.1 }
        → (fields native r.1 feed).pending_span ≡ true
        → (fields native r.1 feed).pending_span_handle ≡ span
        → (fields native r.1 feed).pending_info ≡ d.1
        → (fields native r.1 feed).pending_reservation ≡ false
        → r.1.world ≡ d.2
        → DrainCase s token feed d r

  -- Giving back a span that has just been marked pending under no token.
  give_back :
      (s : State native) (feed : ℕ) (info : SpanInfo) (w : native.World)
      → (fields native s feed).pending_reservation ≡ false
      → let marked =
          write_feed native
            (record s { world = w })
            feed
            (record (fields native s feed) {
              pending_span = true;
              pending_span_handle = 0;
              pending_info = info;
            }) in
        let u = cleanup_feed_pending native marked feed in
        (u.world ≡ (stream_mark_span_consumed (fields native s feed).stream info w).1)
        × (u.spans ≡ s.spans)
        × ((fields native u feed).pending_span ≡ false)
  give_back s feed info w idle =
      let marked =
        write_feed native (record s { world = w }) feed
          (record (fields native s feed) {
            pending_span = true;
            pending_span_handle = 0;
            pending_info = info;
          }) in
      let cleaned = cleanup_feed_pending_span native marked feed (ground arith) (ground arith) in
      (
        ground (arith, cleaned.0),
        ground (arith, cleaned.1),
        (cleanup_feed_pending-fields native marked feed).0,
      )

  drain_feed-DrainCase :
      (s : State native) (token feed : ℕ) (room : Bool)
      → IsValid s.spans
      → (fields native s feed).pending_reservation ≡ false
      → (stream_drain_span (fields native s feed).stream s.world).1.chunk_ptr < 2 ^ 64
      → DrainCase s token feed
          (stream_drain_span (fields native s feed).stream s.world)
          (drain_feed native s token feed room)
  unfolding drain_feed drain_allocate span_allocate clear_feed_pending_span span_from_token
  drain_feed-DrainCase s token feed room v idle wide =
      if_rule (DrainCase s token feed d) (d.0 == 0) (λ e. nothing (ground arith) refl)
        (λ more.
          found_rule (DrainCase s token feed d) (span_source d.1)
            (λ _.
              let back = give_back s feed d.1 d.2 idle in
              given_back (ground arith) refl back.0 back.1 back.2)
            (λ source at.
              if_rule (DrainCase s token feed d) (slot.token == 0)
                (λ _.
                  let back = give_back s feed d.1 d.2 idle in
                  given_back (ground arith) refl back.0 back.1 back.2)
                (λ took.
                  if_rule (DrainCase s token feed d) room
                    (λ _.
                      handed_over (ground arith) _ slot.token slot.index refl (contents source at)
                        (fresh took).unused (fresh took).names (fresh took).prepared refl
                        (ground arith))
                    (λ _.
                      kept (ground arith) slot.token slot.index refl (ground arith)
                        (fresh took).names (fresh took).prepared (ground arith) (ground arith)
                        (ground arith) (ground arith) refl))))
    where
      d : ℕ × SpanInfo × native.World
      d = stream_drain_span (fields native s feed).stream s.world

      prepare : SpanFields → SpanFields
      prepare _ = record { feed_handle = token; info = d.1 }

      slot : Allocation SpanFields
      slot = allocate span_capacity prepare s.spans

      fresh : (slot.token == 0) ≡ false → IsFresh span_capacity prepare s.spans slot
      fresh took =
          allocate-IsFresh span_capacity prepare s.spans v (omega arith) (omega arith)
            (ground arith)

      contents :
          (source : ℕ)
          → span_source d.1 ≡ some source
          → ((d.1.len ≡ 0) × ((if d.1.len == 0 then [] else read_memory source d.1.len d.2) ≡ []))
            ⊎ ((0 < d.1.len)
                × IsAddressable d.1
                × ((if d.1.len == 0 then [] else read_memory source d.1.len d.2)
                    ≡ read_memory (d.1.chunk_ptr + d.1.offset) d.1.len d.2))
      contents source at = elim ((span_source_iff d.1 source wide).0 at) [
        | inl (z, e) ↦ inl (z, ground arith)
        | inr (l, a, e) ↦ inr (l, a, ground arith)
      ]

  -- A drain of a live feed of consistent tables, where the native feed answers with a 64-bit chunk
  -- address, ends in one of four ways: there is no span; the span is given back; its bytes and a
  -- new token are handed over; or the OCaml allocator raises and the span is kept pending under a
  -- token.
  pub drain-DrainCase :
      (s : State native) (token feed : ℕ) (room : Bool)
      → IsConsistent native s
      → span_feed_from_token s.feeds token ≡ some feed
      → let s' = cleanup_feed_pending native s feed in
        let d = stream_drain_span (fields native s' feed).stream s'.world in
        d.1.chunk_ptr < 2 ^ 64 → DrainCase s' token feed d (drain native s token room)
  unfolding drain
  drain-DrainCase s token feed room c names wide =
      found_rule
        (DrainCase (cleanup_feed_pending native s feed) token feed (
          stream_drain_span (fields native (cleanup_feed_pending native s feed) feed).stream
            (cleanup_feed_pending native s feed).world))
        (span_feed_from_token s.feeds token) (λ stale. cc)
        (λ i named.
          let same : feed ≡ i = ground arith in
          subst
            (λ k.
              DrainCase (cleanup_feed_pending native s feed) token feed
                (stream_drain_span (fields native (cleanup_feed_pending native s feed) feed).stream
                  (cleanup_feed_pending native s feed).world)
                (drain_feed native (cleanup_feed_pending native s k) token k room))
            same
            (drain_feed-DrainCase (cleanup_feed_pending native s feed) token feed room
              (Keeps-IsConsistent native (cleanup_feed_pending-Keeps native s feed) c).spans_valid
              (cleanup_feed_pending-fields native s feed).1 wide))
