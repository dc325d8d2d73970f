-- ===== src/EventSink/Calls.antt =====
-- Histories of the event sink: the bindings' calls, and the callbacks of the native side in
-- between.
use opentui_ocaml.Ring
use opentui_ocaml.Prelude.{ℕ, ◌≡◌, refl, ap, Bool, false, Option, List, [], ◌∷◌, arith}
use opentui_ocaml.Status.{Status, Outcome}
use opentui_ocaml.EventSink.Native.{Event, NativeSink}
use opentui_ocaml.EventSink.{
  State, EventSlot, raw_event_callback, event_sink_create, event_sink_destroy, event_sink_poll,
  test_event_sink_emit,
}
use opentui_ocaml.EventSink.Spec.{Fifo, offer, open_sink, close_sink, take_event, type_text}
use opentui_ocaml.EventSink.Refine.{
  IsValid, view, Implements, raw_event_callback-Implements, event_sink_create-Implements,
  event_sink_destroy-Implements, event_sink_poll-Implements, test_event_sink_emit-Implements,
}

pub data Call : Type 0 where
  creates : Call
  destroys : ℕ → Call
  polls : ℕ → Bool → Call
  types : Call
  native_emits : Event → Call

-- What a call shows to its caller.
pub data Answer : Type 0 where
  created : Status × ℕ → Answer
  polled : Outcome (Status × Option Event) → Answer
  typed : Bool → Answer
  nothing : Answer

module _ (native : NativeSink) where
  unfoldable pub perform : State native → Call → Answer × State native
  perform s creates = let r = event_sink_create native s in (created r.0, r.1)
  perform s (destroys handle) = (nothing, event_sink_destroy native s handle)
  perform s (polls handle room) = let r = event_sink_poll native s handle room in (polled r.0, r.1)
  perform s types = let r = test_event_sink_emit native s in (typed r.0, r.1)
  perform s (native_emits event) = (nothing, raw_event_callback native s event)

  -- The same calls on the bounded queue.
  unfoldable pub serve : Fifo native → Call → Answer × Fifo native
  serve f creates = let r = open_sink native f in (created r.0, r.1)
  serve f (destroys handle) = (nothing, close_sink native f handle)
  serve f (polls handle room) = let r = take_event native f handle room in (polled r.0, r.1)
  serve f types = let r = type_text native f in (typed r.0, r.1)
  serve f (native_emits event) = (nothing, offer native f event)

  unfoldable pub answers : State native → List Call → List Answer
  answers s [] = []
  answers s (c ∷ cs) = (perform s c).0 ∷ answers (perform s c).1 cs

  unfoldable pub served : Fifo native → List Call → List Answer
  served f [] = []
  served f (c ∷ cs) = (serve f c).0 ∷ served (serve f c).1 cs

  perform-Implements :
      (s : State native) (c : Call)
      → IsValid native s
      → ((perform s c).0 ≡ (serve (view native s) c).0)
        × Implements native (perform s c).1 (serve (view native s) c).1
  unfolding perform serve
  perform-Implements s creates v =
      let i = event_sink_create-Implements native s v in (ap created i.0, i.1)
  perform-Implements s (destroys handle) v = (refl, event_sink_destroy-Implements native s handle v)
  perform-Implements s (polls handle room) v =
      let i = event_sink_poll-Implements native s handle room v in (ap polled i.0, i.1)
  perform-Implements s types v =
      let i = test_event_sink_emit-Implements native s v in (ap typed i.0, i.1)
  perform-Implements s (native_emits event) v =
      (refl, raw_event_callback-Implements native s event v)

  answers-served :
      (cs : List Call) (s : State native)
      → IsValid native s
      → answers s cs ≡ served (view native s) cs
  unfolding answers served
  answers-served [] s v = refl
  answers-served (c ∷ cs) s v =
      let i = perform-Implements s c v in
      rw (i.0, answers-served cs (perform s c).1 i.1.0, i.1.1) refl

  -- The static variables before the first call; the slots' contents do not matter.
  abbrev pub initial : (ℕ → EventSlot) → native.World → State native
  initial queue w = record {
    event_queue = queue;
    event_queue_head = 0;
    event_queue_count = 0;
    event_queue_overflow = false;
    event_sink_handle = 0;
    world = w;
  }

  abbrev pub no_sink : native.World → Fifo native
  no_sink w = record { pending = []; lost = false; sink = 0; world = w }

  -- In any history of calls and callbacks from the initial state every call answers what it answers
  -- on a bounded queue of events with a flag for lost ones, whatever the native side does and
  -- wherever the OCaml heap has no room for an event.
  pub answers-initial :
      (queue : ℕ → EventSlot) (w : native.World) (cs : List Call)
      → answers (initial queue w) cs ≡ served (no_sink w) cs
  unfolding Ring.contents
  answers-initial queue w cs = answers-served cs (initial queue w) (omega arith, omega arith)
