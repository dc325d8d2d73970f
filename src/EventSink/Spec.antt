-- ===== src/EventSink/Spec.antt =====
-- The abstract view of the event sink of raw_stubs.c: a bounded queue of events, in order, with a
-- flag for lost ones, that exists between the creation and the destruction of a sink.
use opentui_ocaml.Prelude.{
  ℕ, Bool, true, false, ◌&&◌, Option, none, some, List, [], ◌∷◌, ◌++◌, ◌==◌, ltb, leb,
  if◌then◌else◌, length,
}
use opentui_ocaml.Status.{
  Status, Outcome, returns, raises, ok, invalid_argument, native_failure, stale_handle,
  queue_overflow,
}
use opentui_ocaml.EventSink.Native.{Event, NativeSink}
use opentui_ocaml.EventSink.{event_queue_capacity, event_name_capacity, event_data_capacity}

-- The sink's handle is 0 where there is none.
pub record Fifo (native : NativeSink) : Type 0 where
  pub pending : List Event
  pub lost : Bool
  pub sink : ℕ
  pub world : native.World

abbrev pub fits : Event → Bool
fits event =
    leb (length event.name) event_name_capacity && leb (length event.data_bytes) event_data_capacity

module _ (native : NativeSink) where
  open native use {
    World, create_event_sink, destroy_event_sink, create_edit_buffer, edit_buffer_insert_text,
    destroy_edit_buffer,
  }

  -- An event joins the queue if it fits and there is room; otherwise it is lost.
  unfoldable pub offer : Fifo native → Event → Fifo native
  offer f event =
      if f.sink == 0
      then f
      else if fits event && ltb (length f.pending) event_queue_capacity
      then record f { pending = f.pending ++ (event ∷ []) }
      else record f { lost = true }

  unfoldable pub offer_all : Fifo native → List Event → Fifo native
  offer_all f [] = f
  offer_all f (e ∷ es) = offer_all (offer f e) es

  -- There is one sink at a time, and it starts with nothing pending; the events of its creation are
  -- not its own.
  unfoldable pub open_sink : Fifo native → (Status × ℕ) × Fifo native
  open_sink f =
      if f.sink == 0
      then (let made = create_event_sink f.world in
          let fresh : Fifo native = record {
            pending = [];
            lost = false;
            sink = made.0;
            world = made.2;
          } in
          if made.0 == 0 then ((native_failure, 0), fresh) else ((ok, made.0), fresh))
      else ((invalid_argument, 0), f)

  -- With the sink everything that is pending goes, and what the native side emits meanwhile.
  unfoldable pub close_sink : Fifo native → ℕ → Fifo native
  close_sink f handle =
      if handle == 0
      then f
      else if handle == f.sink
      then record {
        pending = [];
        lost = false;
        sink = 0;
        world = (destroy_event_sink handle f.world).1;
      }
      else f

  -- Once the events are read the loss is reported, once.
  unfoldable pub take_last : Fifo native → Outcome (Status × Option Event) × Fifo native
  take_last f =
      if f.lost
      then (returns (queue_overflow, none), record f { lost = false })
      else (returns (ok, none), f)

  -- The oldest event; it stays where the OCaml heap has no room for it.
  unfoldable pub take_pending :
      Fifo native → List Event → Bool → Outcome (Status × Option Event) × Fifo native
  unfolding take_last
  take_pending f [] room = take_last f
  take_pending f (e ∷ es) room =
      if room then (returns (ok, some e), record f { pending = es }) else (raises, f)

  unfoldable pub take_event : Fifo native → ℕ → Bool → Outcome (Status × Option Event) × Fifo native
  unfolding take_pending
  take_event f handle room =
      if handle == 0
      then (returns (stale_handle, none), f)
      else if handle == f.sink
      then take_pending f f.pending room
      else (returns (stale_handle, none), f)

  unfoldable pub type_text : Fifo native → Bool × Fifo native
  type_text f =
      if f.sink == 0
      then (false, f)
      else let made = create_edit_buffer 1 f.sink f.world in
        let f1 = offer_all (record f { world = made.2 }) made.1 in
        if made.0 == 0
        then (false, f1)
        else let inserted = edit_buffer_insert_text made.0 (88 ∷ []) f1.world in
          let f2 = offer_all (record f1 { world = inserted.1 }) inserted.0 in
          let destroyed = destroy_edit_buffer made.0 f2.world in
          (true, offer_all (record f2 { world = destroyed.1 }) destroyed.0)
