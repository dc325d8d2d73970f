-- ===== src/SpanFeed/Calls.antt =====
-- Histories of calls of the span feed bindings.
use opentui_ocaml.Prelude.{ℕ, ◌^◌, ◌<◌, Bool, false, Option, List, [], ◌∷◌, arith}
use opentui_ocaml.Prelude.Int.{ℤ}
use opentui_ocaml.Slots.{zeroed}
use opentui_ocaml.SpanFeed.Native.{NativeFeed, SpanInfo, ReserveInfo}
use opentui_ocaml.SpanFeed.{OptionsValue, State}
use opentui_ocaml.SpanFeed.Consistent.{IsConsistent, Keeps-IsConsistent}
use opentui_ocaml.SpanFeed.Operations.{create, close, write, commit, reserve}
use opentui_ocaml.SpanFeed.Operations.Consistent.{write-Keeps, commit-Keeps, reserve-IsConsistent}
use opentui_ocaml.SpanFeed.Operations.Lifetime.{create-IsConsistent, close-IsConsistent}
use opentui_ocaml.SpanFeed.Transfers.{
  drain, span_release, reservation_commit, reservation_cancel, stats,
}
use opentui_ocaml.SpanFeed.Transfers.Consistent.{
  drain-IsConsistent, span_release-Keeps, reservation_commit-Keeps, reservation_cancel-Keeps,
  stats-Keeps,
}

-- A call with its arguments; the `Bool` says whether the OCaml heap has room for the result.
pub data Call : Type 0 where
  creates : Option OptionsValue → Call
  closes : ℕ → Call
  writes : ℕ → List ℕ → Call
  commits : ℕ → Call
  reserves : ℕ → ℤ → Bool → Call
  commits_reservation : ℕ → List ℕ → ℤ → Call
  cancels_reservation : ℕ → Call
  reads_stats : ℕ → Call
  drains : ℕ → Bool → Call
  releases : ℕ → Call

-- The feed token of a call that stores it is an `int32` bit pattern.
abbrev pub IsWord : Call → Type 0
IsWord (closes token) = token < 2 ^ 32
IsWord (reserves token minimum room) = token < 2 ^ 32
IsWord (drains token room) = token < 2 ^ 32
IsWord _ = Unit {0}

abbrev pub AllWords : List Call → Type 0
AllWords [] = Unit {0}
AllWords (c ∷ cs) = IsWord c × AllWords cs

abbrev no_span : SpanInfo
no_span = record { chunk_ptr = 0; offset = 0; len = 0; chunk_index = 0; reserved = 0 }

abbrev no_reserve : ReserveInfo
no_reserve = record { ptr = 0; len = 0; reserved = 0 }

module _ (native : NativeFeed) where
  -- The static tables before the first call.
  abbrev pub initial : native.World → State native
  initial w = record {
    feeds = zeroed (record {
      stream = 0;
      pending_span = false;
      pending_span_handle = 0;
      pending_info = no_span;
      pending_reservation = false;
      pending_reservation_handle = 0;
    });
    spans = zeroed (record { feed_handle = 0; info = no_span });
    reservations = zeroed (record { feed_handle = 0; info = no_reserve });
    world = w;
  }

  unfoldable pub perform : State native → Call → State native
  perform s (creates value) = (create native s value).1
  perform s (closes token) = (close native s token).1
  perform s (writes token source) = (write native s token source).1
  perform s (commits token) = (commit native s token).1
  perform s (reserves token minimum room) = (reserve native s token minimum room).1
  perform s (commits_reservation token bytes used) =
      (reservation_commit native s token bytes used).1
  perform s (cancels_reservation token) = (reservation_cancel native s token).1
  perform s (reads_stats token) = (stats native s token).1
  perform s (drains token room) = (drain native s token room).1
  perform s (releases token) = (span_release native s token).1

  unfoldable pub run : State native → List Call → State native
  unfolding perform
  run s [] = s
  run s (c ∷ cs) = run (perform s c) cs

  initial-IsConsistent : (w : native.World) → IsConsistent native (initial w)
  initial-IsConsistent w = record {
    feeds_valid = record { small = λ i. omega arith; used = λ i e. cc };
    spans_valid = record { small = λ i. omega arith; used = λ i e. cc };
    reservations_valid = record { small = λ i. omega arith; used = λ i e. cc };
    spans_owned = λ i p q e. cc;
    reservations_owned = λ i p q e. cc;
  }

  -- Every call keeps the tables consistent, on each of its branches.
  pub perform-IsConsistent :
      (s : State native) (c : Call)
      → IsWord c
      → IsConsistent native s
      → IsConsistent native (perform s c)
  unfolding perform
  perform-IsConsistent s (creates value) w c = create-IsConsistent native s value c
  perform-IsConsistent s (closes token) w c = close-IsConsistent native s token w c
  perform-IsConsistent s (writes token source) w c =
      Keeps-IsConsistent native (write-Keeps native s token source) c
  perform-IsConsistent s (commits token) w c =
      Keeps-IsConsistent native (commit-Keeps native s token) c
  perform-IsConsistent s (reserves token minimum room) w c =
      reserve-IsConsistent native s token minimum room w c
  perform-IsConsistent s (commits_reservation token bytes used) w c =
      Keeps-IsConsistent native (reservation_commit-Keeps native s token bytes used) c
  perform-IsConsistent s (cancels_reservation token) w c =
      Keeps-IsConsistent native (reservation_cancel-Keeps native s token) c
  perform-IsConsistent s (reads_stats token) w c =
      Keeps-IsConsistent native (stats-Keeps native s token) c
  perform-IsConsistent s (drains token room) w c = drain-IsConsistent native s token room w c
  perform-IsConsistent s (releases token) w c =
      Keeps-IsConsistent native (span_release-Keeps native s token) c

  run-IsConsistent :
      (cs : List Call) (s : State native)
      → AllWords cs
      → IsConsistent native s
      → IsConsistent native (run s cs)
  unfolding run
  run-IsConsistent [] s w c = c
  run-IsConsistent (x ∷ cs) s w c =
      run-IsConsistent cs (perform s x) w.1 (perform-IsConsistent s x w.0 c)

  -- After any history of calls from the zeroed tables, with 32-bit tokens, whatever the native feed
  -- answers and whichever OCaml allocations raise, generations are in range and every live span and
  -- every live reservation belongs to a live feed.
  pub run-initial-IsConsistent :
      (w : native.World) (cs : List Call) → AllWords cs → IsConsistent native (run (initial w) cs)
  run-initial-IsConsistent w cs words =
      run-IsConsistent cs (initial w) words (initial-IsConsistent w)
