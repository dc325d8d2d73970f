-- ===== src/EventSink.antt =====
-- packages/opentui-raw/raw_stubs.c, from OPENTUI_RAW_EVENT_QUEUE_CAPACITY on: the queue between the
-- native event callback and the OCaml side that polls it. A `uint8_t` array is a function of the
-- index, and bytes that come with a length are a list.
pub mod Native
pub mod Bytes
pub mod Queue
pub mod Spec
pub mod Refine
pub mod Calls
pub mod Delivery
pub mod Tests
use Native.{Event, NativeSink}
pub use opentui_ocaml.Buffers.{Buffer}
unfoldable pub use opentui_ocaml.Buffers.{copy_bytes, read_bytes}
pub use opentui_ocaml.Ring.{write_at}
use opentui_ocaml.Prelude.{
  ℕ, zero, suc, ◌+◌, ◌-◌, ◌%◌, Bool, true, false, ◌||◌, Option, none, some, List, [], ◌∷◌, ◌==◌,
  ltb, if◌then◌else◌, length,
}
use opentui_ocaml.Status.{
  Status, Outcome, returns, raises, ok, invalid_argument, native_failure, stale_handle,
  queue_overflow,
}

-- OPENTUI_RAW_EVENT_QUEUE_CAPACITY, OPENTUI_RAW_EVENT_NAME_CAPACITY,
-- OPENTUI_RAW_EVENT_DATA_CAPACITY
abbrev pub event_queue_capacity : ℕ
event_queue_capacity = 64

abbrev pub event_name_capacity : ℕ
event_name_capacity = 256

abbrev pub event_data_capacity : ℕ
event_data_capacity = 4096

-- `opentui_raw_event_slot`
pub record EventSlot : Type 0 where
  pub name_length : ℕ
  pub data_length : ℕ
  pub name : Buffer
  pub data_bytes : Buffer

-- The bytes, and a 0 after them where there is room for one.
pub copy_event_bytes : Buffer → ℕ → List ℕ → Buffer
unfolding copy_bytes
copy_event_bytes destination capacity source =
    let copied = if length source == 0 then destination else copy_bytes destination 0 source in
    if ltb (length source) capacity then write_at copied (length source) 0 else copied

-- The static variables, and the native state.
pub record State (native : NativeSink) : Type 0 where
  pub event_queue : ℕ → EventSlot
  pub event_queue_head : ℕ
  pub event_queue_count : ℕ
  pub event_queue_overflow : Bool
  pub event_sink_handle : ℕ
  pub world : native.World

-- The event that `make_status_event` makes of a slot.
pub slot_event : EventSlot → Event
unfolding read_bytes
slot_event slot = record {
  name = read_bytes slot.name 0 slot.name_length;
  data_bytes = read_bytes slot.data_bytes 0 slot.data_length;
}

-- What the callback writes into the slot that it takes.
pub fill_slot : EventSlot → Event → EventSlot
unfolding copy_event_bytes
fill_slot slot event = record {
  name_length = length event.name;
  data_length = length event.data_bytes;
  name = copy_event_bytes slot.name event_name_capacity event.name;
  data_bytes = copy_event_bytes slot.data_bytes event_data_capacity event.data_bytes;
}

module _ (native : NativeSink) where
  open native use {
    World, create_event_sink, destroy_event_sink, create_edit_buffer, edit_buffer_insert_text,
    destroy_edit_buffer,
  }

  unfoldable pub reset_event_queue : State native → State native
  reset_event_queue s = record s {
    event_queue_head = 0;
    event_queue_count = 0;
    event_queue_overflow = false;
  }

  unfoldable pub raw_event_callback : State native → Event → State native
  raw_event_callback s event =
      if s.event_sink_handle == 0
      then s
      else if ltb event_name_capacity (length event.name)
          || ltb event_data_capacity (length event.data_bytes)
          || s.event_queue_count == event_queue_capacity
      then record s { event_queue_overflow = true }
      else let tail = (s.event_queue_head + s.event_queue_count) % event_queue_capacity in
        record s {
          event_queue = write_at s.event_queue tail (fill_slot (s.event_queue tail) event);
          event_queue_count = s.event_queue_count + 1;
        }

  -- The callbacks of one native call.
  unfoldable pub emit_all : State native → List Event → State native
  emit_all s [] = s
  emit_all s (e ∷ es) = emit_all (raw_event_callback s e) es

  unfoldable pub event_sink_create : State native → (Status × ℕ) × State native
  event_sink_create s =
      if s.event_sink_handle == 0
      then (let made = create_event_sink s.world in
          let s' = emit_all (record (reset_event_queue s) { world = made.2 }) made.1 in
          if made.0 == 0
          then ((native_failure, 0), s')
          else ((ok, made.0), record s' { event_sink_handle = made.0 }))
      else ((invalid_argument, 0), s)

  unfoldable pub event_sink_destroy : State native → ℕ → State native
  event_sink_destroy s handle =
      if handle == 0
      then s
      else if handle == s.event_sink_handle
      then (let gone = destroy_event_sink handle s.world in
          let s' = emit_all (record s { world = gone.1 }) gone.0 in
          reset_event_queue (record s' { event_sink_handle = 0 }))
      else s

  -- `room`: the OCaml heap has room for the event.
  unfoldable pub event_sink_poll :
      State native → ℕ → Bool → Outcome (Status × Option Event) × State native
  event_sink_poll s handle room =
      if handle == 0
      then (returns (stale_handle, none), s)
      else if handle == s.event_sink_handle
      then if s.event_queue_count == 0
        then if s.event_queue_overflow
          then (returns (queue_overflow, none), record s { event_queue_overflow = false })
          else (returns (ok, none), s)
        else if room
        then (
          returns (ok, some (slot_event (s.event_queue s.event_queue_head))),
          record s {
            event_queue_head = (s.event_queue_head + 1) % event_queue_capacity;
            event_queue_count = s.event_queue_count - 1;
          },
        )
        else (raises, s)
      else (returns (stale_handle, none), s)

  -- `opentui_raw_test_event_sink_emit`: the byte 'X' into a new edit buffer.
  unfoldable pub test_event_sink_emit : State native → Bool × State native
  test_event_sink_emit s =
      if s.event_sink_handle == 0
      then (false, s)
      else let made = create_edit_buffer 1 s.event_sink_handle s.world in
        let s1 = emit_all (record s { world = made.2 }) made.1 in
        if made.0 == 0
        then (false, s1)
        else let inserted = edit_buffer_insert_text made.0 (88 ∷ []) s1.world in
          let s2 = emit_all (record s1 { world = inserted.1 }) inserted.0 in
          let destroyed = destroy_edit_buffer made.0 s2.world in
          (true, emit_all (record s2 { world = destroyed.1 }) destroyed.0)
