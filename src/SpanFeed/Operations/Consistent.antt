-- ===== src/SpanFeed/Operations/Consistent.antt =====
-- `close`, `write`, `commit` and `reserve` of span_feed_stubs.c against the invariant of the
-- tables.
use opentui_ocaml.Prelude.{
  ℕ, ◌^◌, ◌<◌, ◌≡◌, refl, Bool, false, some, List, arith, ◌==◌, leb, length, if_rule, found_rule,
}
use opentui_ocaml.Prelude.Int.{ℤ, pos, negsuc}
use opentui_ocaml.Status.{on_ok_rule}
use opentui_ocaml.Slots.{Allocation, allocate}
use opentui_ocaml.Slots.Fresh.{allocate-IsFresh}
use opentui_ocaml.SpanFeed.Native.{NativeFeed, ReserveInfo}
use opentui_ocaml.SpanFeed.{
  ReservationFields, State, reservation_capacity, map_native_status, span_feed_from_token,
  reservation_allocate, clear_feed_pending_reservation,
}
use opentui_ocaml.SpanFeed.Consistent.{
  IsConsistent, Keeps, KeepsAfter, ConsistentAfter, Keeps-refl, Keeps-trans, Keeps-IsConsistent,
  world-Keeps, write_feed-Keeps, cleanup_feed_pending-Keeps,
}
use opentui_ocaml.SpanFeed.Ownership.{allocate-Owned, span_feed_from_token-SameFeeds}
use opentui_ocaml.SpanFeed.Operations.{write, commit, reserve_allocate, reserve_feed, reserve}

module _ (native : NativeFeed) where
  pub write-Keeps :
      (s : State native) (token : ℕ) (source : List ℕ)
      → Keeps native s (write native s token source).1
  unfolding write
  write-Keeps s token source =
      found_rule (KeepsAfter native s) (span_feed_from_token s.feeds token)
        (λ _. Keeps-refl native s)
        (λ feed _. Keeps-trans native (cleanup_feed_pending-Keeps native s feed) (
          if_rule (KeepsAfter native _) (leb (2 ^ 32) (length source)) (λ _. Keeps-refl native _)
            (λ _. world-Keeps native _ _)))

  pub commit-Keeps : (s : State native) (token : ℕ) → Keeps native s (commit native s token).1
  unfolding commit
  commit-Keeps s token =
      found_rule (KeepsAfter native s) (span_feed_from_token s.feeds token)
        (λ _. Keeps-refl native s)
        (λ feed _.
          Keeps-trans native (cleanup_feed_pending-Keeps native s feed) (world-Keeps native _ _))

  reserve_allocate-IsConsistent :
      (s : State native) (token feed : ℕ) (info : ReserveInfo) (room : Bool)
      → token < 2 ^ 32
      → span_feed_from_token s.feeds token ≡ some feed
      → IsConsistent native s
      → IsConsistent native (reserve_allocate native s token feed info room).1
  unfolding reserve_allocate reservation_allocate clear_feed_pending_reservation
  reserve_allocate-IsConsistent s token feed info room small names c =
      if_rule (ConsistentAfter native) (slot.token == 0)
        (λ _.
          Keeps-IsConsistent native
            (Keeps-trans native (write_feed-Keeps native s feed _)
              (cleanup_feed_pending-Keeps native _ feed))
            c)
        (λ took.
          let held =
            Keeps-IsConsistent native
              (Keeps-trans native (write_feed-Keeps native _ feed _)
                (write_feed-Keeps native _ feed _))
              (allocated took) in
          if_rule (ConsistentAfter native) room
            (λ _. Keeps-IsConsistent native (write_feed-Keeps native _ feed _) held) (λ _. held))
    where
      prepare : ReservationFields → ReservationFields
      prepare _ = record { feed_handle = token; info = info }

      slot : Allocation ReservationFields
      slot = allocate reservation_capacity prepare s.reservations

      allocated :
          (slot.token == 0) ≡ false → IsConsistent native (record s { reservations = slot.table })
      allocated took = record {
        feeds_valid = c.feeds_valid;
        spans_valid = c.spans_valid;
        reservations_valid =
            (allocate-IsFresh reservation_capacity prepare s.reservations c.reservations_valid
              (omega arith) (omega arith) (ground arith)).valid;
        spans_owned = c.spans_owned;
        reservations_owned =
            allocate-Owned (λ (f : ReservationFields). f.feed_handle) reservation_capacity prepare
              s.feeds s.reservations token feed (omega arith) small names (λ x. refl)
              c.reservations_owned;
      }

  -- Reserving keeps the tables consistent, also when the OCaml allocation raises.
  pub reserve-IsConsistent :
      (s : State native) (token : ℕ) (minimum : ℤ) (room : Bool)
      → token < 2 ^ 32
      → IsConsistent native s
      → IsConsistent native (reserve native s token minimum room).1
  unfolding reserve reserve_feed
  reserve-IsConsistent s token (negsuc n) room small c = c
  reserve-IsConsistent s token (pos minimum) room small c =
      found_rule (ConsistentAfter native) (span_feed_from_token s.feeds token) (λ _. c)
        (λ feed names.
          let k =
            Keeps-trans native (cleanup_feed_pending-Keeps native s feed)
              (world-Keeps native _ _) in
          on_ok_rule (ConsistentAfter native) (map_native_status _) _ _
            (λ _.
              reserve_allocate-IsConsistent _ token feed _ room small
                (span_feed_from_token-SameFeeds s.feeds _ token feed k.feeds names)
                (Keeps-IsConsistent native k c))
            (λ failed _ _. Keeps-IsConsistent native k c))
