-- ===== src/EventSink/Delivery.antt =====
-- The events of raw_stubs.c from the native callback to the polls.
use mathlib.Core.List.{append-nil, append_assoc}
use opentui_ocaml.Ring
use opentui_ocaml.Prelude.{
  ℕ, zero, suc, ◌+◌, ◌≤◌, ◌≡◌, refl, sym, ap, ◌∙◌, ◌≢◌, true, Option, some, List, [], ◌∷◌, ◌++◌,
  map, arith, length, length-append,
}
use opentui_ocaml.Status.{Status, Outcome, returns, ok}
use opentui_ocaml.EventSink.Native.{Event, NativeSink}
use opentui_ocaml.EventSink.{State, event_queue_capacity, emit_all, event_sink_poll}
use opentui_ocaml.EventSink.Bytes.{Fits}
use opentui_ocaml.EventSink.Spec.{Fifo, offer, offer_all, take_event}
use opentui_ocaml.EventSink.Refine.{IsValid, view, emit_all-Implements, event_sink_poll-Implements}

abbrev pub AllFit : List Event → Type 0
AllFit [] = Unit {0}
AllFit (e ∷ es) = Fits e × AllFit es

abbrev delivered : Event → Outcome (Status × Option Event)
delivered e = returns (ok, some e)

module _ (native : NativeSink) where
  -- The results of so many polls in a row, with room in the OCaml heap.
  unfoldable pub poll_times : ℕ → ℕ → State native → List (Outcome (Status × Option Event))
  poll_times zero handle s = []
  poll_times (suc n) handle s =
      let r = event_sink_poll native s handle true in r.0 ∷ poll_times n handle r.1

  offer_all-pending :
      (es : List Event) (f : Fifo native)
      → f.sink ≢ 0
      → AllFit es
      → length f.pending + length es ≤ event_queue_capacity
      → offer_all native f es ≡ record f { pending = f.pending ++ es }
  unfolding offer_all offer
  offer_all-pending [] f h fit room =
      ap (λ p. record f { pending = p }) (sym (append-nil f.pending))
  offer_all-pending (e ∷ es) f h fit room =
      let took : offer native f e ≡ record f { pending = f.pending ++ (e ∷ []) } = ground arith in
      ap (λ g. offer_all native g es) took
      ∙ offer_all-pending es (record f { pending = f.pending ++ (e ∷ []) }) h fit.1
          (omega (arith, length-append f.pending (e ∷ [])))
      ∙ ap (λ p. record f { pending = p }) (append_assoc f.pending (e ∷ []) es)

  poll_times-pending :
      (es : List Event) (handle : ℕ) (s : State native)
      → IsValid native s
      → handle ≢ 0
      → s.event_sink_handle ≡ handle
      → (view native s).pending ≡ es
      → poll_times (length es) handle s ≡ map delivered es
  unfolding poll_times take_event
  poll_times-pending [] handle s v h e p = refl
  poll_times-pending (x ∷ es) handle s v h e p =
      let i = event_sink_poll-Implements native s handle true v in
      let took : take_event native (view native s) handle true
          ≡ (delivered x, record (view native s) { pending = es }) =
        ground arith in
      let rest : view native (event_sink_poll native s handle true).1
          ≡ record (view native s) { pending = es } =
        i.1.1 ∙ ap (λ r. r.1) took in
      rw
        (
          i.0 ∙ ap (λ r. r.0) took,
          poll_times-pending es handle (event_sink_poll native s handle true).1 i.1.0 h
              (ap (λ (f : Fifo native). f.sink) rest ∙ e)
              (ap (λ (f : Fifo native). f.pending) rest),
        )
        refl

  -- Events that fit their slots, 64 at most, emitted to a live sink with an empty queue in a valid
  -- state, are returned by as many polls with the handle of the sink, whole and in order.
  pub poll_times-emit_all :
      (es : List Event) (handle : ℕ) (s : State native)
      → IsValid native s
      → handle ≢ 0
      → s.event_sink_handle ≡ handle
      → s.event_queue_count ≡ 0
      → AllFit es
      → length es ≤ event_queue_capacity
      → poll_times (length es) handle (emit_all native s es) ≡ map delivered es
  unfolding Ring.contents
  poll_times-emit_all es handle s v h e z fit room =
      let none_yet : (view native s).pending ≡ [] = rw z refl in
      let i = emit_all-Implements native es s (view native s) (v, refl) in
      let all : view native (emit_all native s es)
          ≡ record (view native s) { pending = (view native s).pending ++ es } =
        i.1
        ∙ offer_all-pending es (view native s) (λ x. h (sym e ∙ x)) fit
            (ground (arith, none_yet)) in
      poll_times-pending es handle (emit_all native s es) i.0 h
        (ap (λ (f : Fifo native). f.sink) all ∙ e)
        (ap (λ (f : Fifo native). f.pending) all ∙ ap (λ p. p ++ es) none_yet)
