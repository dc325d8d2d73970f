-- ===== src/EventSink/Tests.antt =====
-- Runs of the event sink on a small native side.
use opentui_ocaml.Prelude.{ℕ, ◌+◌, ◌≤◌, ◌≡◌, refl, true, false, some, List, [], ◌∷◌, arith}
use opentui_ocaml.Status.{returns, ok}
use opentui_ocaml.EventSink.Native.{Event, NativeSink}
use opentui_ocaml.EventSink.{
  EventSlot, State, read_bytes, copy_event_bytes, emit_all, event_sink_create, reset_event_queue,
}
use opentui_ocaml.EventSink.Bytes.{read_bytes-copy_event_bytes}
use opentui_ocaml.EventSink.Calls.{
  Call, creates, polls, types, native_emits, destroys, answers, served, initial, no_sink,
  answers-initial,
}
use opentui_ocaml.EventSink.Delivery.{poll_times, poll_times-emit_all}

abbrev changed : Event
changed = record { name = 99 ∷ 104 ∷ []; data_bytes = 1 ∷ 2 ∷ 3 ∷ [] }

-- Text inserted into an edit buffer emits one event.
abbrev echoing : NativeSink
echoing = record {
  World = ℕ;
  create_event_sink = λ w. (7, [], w + 1);
  destroy_event_sink = λ sink w. (changed ∷ [], w);
  create_edit_buffer = λ kind sink w. (3, [], w);
  edit_buffer_insert_text = λ buffer text w. (changed ∷ [], w);
  destroy_edit_buffer = λ buffer w. ([], w);
}

abbrev zeros : ℕ → EventSlot
zeros i = record { name_length = 0; data_length = 0; name = λ j. 0; data_bytes = λ j. 0 }

abbrev calls : List Call
calls =
    creates
    ∷ types
    ∷ native_emits changed
    ∷ polls 7 true
    ∷ polls 7 false
    ∷ polls 6 true
    ∷ polls 7 true
    ∷ polls 7 true
    ∷ destroys 7
    ∷ polls 7 true
    ∷ []

answers-initial_example :
    answers echoing (initial echoing zeros 0) calls ≡ served echoing (no_sink echoing 0) calls
answers-initial_example = answers-initial echoing zeros 0 calls

-- The state after the creation of a sink.
abbrev ready : State echoing
ready = (event_sink_create echoing (initial echoing zeros 0)).1

ready_live : ready.event_sink_handle ≡ 7
unfolding event_sink_create
ready_live = refl

ready_empty : ready.event_queue_count ≡ 0
unfolding event_sink_create emit_all reset_event_queue
ready_empty = refl

ready_head : ready.event_queue_head ≡ 0
unfolding event_sink_create emit_all reset_event_queue
ready_head = refl

poll_times-emit_all_example :
    poll_times echoing 2 7 (emit_all echoing ready (changed ∷ changed ∷ []))
    ≡ returns (ok, some changed) ∷ returns (ok, some changed) ∷ []
poll_times-emit_all_example =
    poll_times-emit_all echoing (changed ∷ changed ∷ []) 7 ready
      (omega (arith, ready_head), omega (arith, ready_empty)) (omega arith) ready_live ready_empty
      ((omega arith, omega arith), ((omega arith, omega arith), tt)) (omega arith)

read_bytes-copy_event_bytes_example :
    (read_bytes (copy_event_bytes (λ j. 9) 4 (1 ∷ 2 ∷ 3 ∷ [])) 0 3 ≡ 1 ∷ 2 ∷ 3 ∷ [])
    × ((i : ℕ) → 4 ≤ i → copy_event_bytes (λ j. 9) 4 (1 ∷ 2 ∷ 3 ∷ []) i ≡ 9)
read_bytes-copy_event_bytes_example =
    read_bytes-copy_event_bytes (λ j. 9) 4 (1 ∷ 2 ∷ 3 ∷ []) (omega arith)
