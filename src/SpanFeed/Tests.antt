-- ===== src/SpanFeed/Tests.antt =====
-- Runs of the span feed bindings on a small native feed.
use opentui_ocaml.Prelude.{
  ℕ, ◌+◌, ◌↔◌, ◌⊎◌, ◌-◌, ◌<◌, ◌≡◌, refl, true, false, Option, some, List, [], ◌∷◌, arith, ◌==◌,
  if◌then◌else◌,
}
use opentui_ocaml.Prelude.Int.{pos}
use opentui_ocaml.Status.{Status, ok, stale_handle}
use opentui_ocaml.Token.{make_token, token_index, token_generation}
use opentui_ocaml.SpanFeed.Operations.Close.{IsClosed, close-IsClosed}
use opentui_ocaml.SpanFeed.Cleanup.{fields}
use opentui_ocaml.SpanFeed.Transfers.Drain.{
  IsAddressable, span_source_iff, DrainCase, drain-DrainCase,
}
use opentui_ocaml.SpanFeed.Transfers.Recovery.{Recovered, drain_raised_recovers}
use opentui_ocaml.SpanFeed.Transfers.OneShot.{Refused, span_release_once, reservation_once}
use opentui_ocaml.Slots.{from_token, allocate, taken, claimed}
use opentui_ocaml.SpanFeed.Native.{SpanInfo, NativeFeed}
use opentui_ocaml.SpanFeed.{
  OptionsValue, State, Outcome, raises, map_native_status, read_options, span_source,
  span_feed_from_token, span_from_token, span_feed_allocate, span_allocate, cleanup_feed_pending,
  reservation_allocate, reservation_from_token, clear_feed_pending_reservation,
}
use opentui_ocaml.SpanFeed.Consistent.{IsConsistent}
use opentui_ocaml.SpanFeed.Operations.{create, close, reserve}
use opentui_ocaml.SpanFeed.Transfers.{
  drain, span_release, accepts_used, reservation_commit, reservation_cancel,
}
use opentui_ocaml.SpanFeed.Calls.{
  Call, creates, reserves, drains, releases, closes, initial, run, run-initial-IsConsistent,
}

abbrev some_span : SpanInfo
some_span = record { chunk_ptr = 4096; offset = 16; len = 3; chunk_index = 0; reserved = 0 }

-- A native feed that counts the spans that wait to be drained.
abbrev counting : NativeFeed
counting = record {
  World = ℕ;
  create_native_span_feed = λ options w. (8192, w);
  attach_native_span_feed = λ stream w. (pos 0, w);
  destroy_native_span_feed = λ stream w. w;
  stream_close = λ stream w. (pos 0, w);
  stream_write = λ stream source w. (pos 0, w);
  stream_commit = λ stream w. (pos 0, w);
  stream_reserve = λ stream minimum w. (pos 0, record { ptr = 4096; len = 8; reserved = 0 }, w);
  stream_commit_reserved = λ stream used w. (pos 0, w);
  stream_cancel_reserved = λ stream w. (pos 0, w);
  stream_get_stats = λ stream w.
      (pos 0, record { bytes_written = 0; spans_committed = 0; chunks = 1; pending_spans = w }, w);
  stream_drain_span = λ stream w. (if w == 0 then 0 else 1, some_span, w - 1);
  stream_mark_span_consumed = λ stream info w. (pos 0, w);
  read_memory = λ address count w. 1 ∷ 2 ∷ 3 ∷ [];
  write_memory = λ address bytes w. w;
}

abbrev options : OptionsValue
options = record {
  chunk_size = pos 4096;
  initial_chunks = pos 1;
  max_bytes = pos 0;
  growth_policy = pos 1;
  auto_commit_on_full = true;
  span_queue_capacity = pos 0;
}

-- The token of slot 1 in its first generation.
abbrev first : ℕ
first = 0x10001

-- One feed, with two spans waiting.
abbrev created : State counting
created = run counting (initial counting 2) (creates (some options) ∷ [])

created_token : (create counting (initial counting 2) (some options)).0 ≡ (ok, first)
unfolding create read_options map_native_status span_feed_allocate allocate taken claimed make_token
created_token = refl

created_live : span_feed_from_token created.feeds first ≡ some 1
unfolding run create read_options map_native_status span_feed_allocate span_feed_from_token allocate
    taken claimed make_token from_token token_index token_generation
created_live = refl

-- The history that drains a span and cannot hand it over, drains the other, releases it, and closes
-- the feed.
abbrev history : List Call
history =
    creates (some options)
    ∷ drains first false
    ∷ reserves first (pos 4) true
    ∷ drains first true
    ∷ releases 0x20001
    ∷ closes first
    ∷ []

run-initial-IsConsistent_example : IsConsistent counting (run counting (initial counting 2) history)
run-initial-IsConsistent_example =
    run-initial-IsConsistent counting 2 history
      (tt, (omega arith, (omega arith, (omega arith, (tt, (omega arith, tt))))))

created_closes : (close counting created first).0 ≡ ok
unfolding close run create read_options map_native_status span_feed_allocate span_feed_from_token
    allocate taken claimed make_token from_token token_index token_generation cleanup_feed_pending
created_closes = refl

close-IsClosed_example :
    (feed : ℕ) × (span_feed_from_token created.feeds first ≡ some feed)
    × IsClosed counting created (close counting created first).1 first feed
close-IsClosed_example = close-IsClosed counting created first created_closes

created-IsConsistent : IsConsistent counting created
created-IsConsistent = run-initial-IsConsistent counting 2 (creates (some options) ∷ []) (tt, tt)

-- The state in which the native feed is asked for a span.
abbrev asked : State counting
asked = cleanup_feed_pending counting created 1

abbrev answer : ℕ × SpanInfo × ℕ
answer = counting.stream_drain_span (fields counting asked 1).stream asked.world

drain-DrainCase_example :
    DrainCase counting asked first 1 answer (drain counting created first true)
drain-DrainCase_example =
    drain-DrainCase counting created first 1 true created-IsConsistent created_live (omega arith)

-- The drain that OCaml's allocator leaves by an exception.
abbrev left : Outcome (Status × Option (List ℕ × ℕ)) × State counting
left = drain counting created first false

left_raises : left.0 ≡ raises
unfolding drain run create read_options map_native_status span_source span_feed_allocate
    span_allocate span_feed_from_token allocate taken claimed make_token from_token token_index
    token_generation cleanup_feed_pending
left_raises = refl

drain_raised_recovers_example : Recovered counting left.1 1 answer
drain_raised_recovers_example =
    drain_raised_recovers counting created first 1 false created-IsConsistent created_live
      (omega arith) left_raises

-- A state with a drained span, whose token is the first of the span table.
abbrev drained : State counting
drained = (drain counting created first true).1

drained_releases : (span_release counting drained first).0 ≡ ok
unfolding span_release drain run create read_options map_native_status span_source
    span_feed_allocate span_allocate span_feed_from_token span_from_token allocate taken claimed
    make_token from_token token_index token_generation cleanup_feed_pending
drained_releases = refl

span_release_once_example :
    span_release counting (span_release counting drained first).1 first
    ≡ (stale_handle, (span_release counting drained first).1)
span_release_once_example = span_release_once counting drained first drained_releases

abbrev reserved : State counting
reserved = (reserve counting created first (pos 4) true).1

reservation_once_example :
    ((reservation_commit counting reserved first (7 ∷ []) (pos 1)).0 ≡ ok
      → Refused counting (reservation_commit counting reserved first (7 ∷ []) (pos 1)).1 first)
    × ((reservation_cancel counting reserved first).0 ≡ ok
        → Refused counting (reservation_cancel counting reserved first).1 first)
reservation_once_example = reservation_once counting reserved first (7 ∷ []) (pos 1)

-- Both of its hypotheses hold there.
reserved_commits :
    ((reservation_commit counting reserved first (7 ∷ []) (pos 1)).0 ≡ ok)
    × ((reservation_cancel counting reserved first).0 ≡ ok)
unfolding reservation_commit reservation_cancel reserve run create read_options map_native_status
    span_feed_allocate reservation_allocate span_feed_from_token reservation_from_token allocate
    taken claimed make_token from_token token_index token_generation cleanup_feed_pending
    clear_feed_pending_reservation accepts_used
reserved_commits = (refl, refl)

abbrev some_address : ℕ
some_address = 4112

span_source_iff_example : (span_source some_span ≡ some some_address) ↔ (
    ((some_span.len ≡ 0) × (some_address ≡ 0))
    ⊎ ((0 < some_span.len) × IsAddressable some_span × (some_address ≡ 4096 + 16)))
span_source_iff_example = span_source_iff some_span some_address (omega arith)
