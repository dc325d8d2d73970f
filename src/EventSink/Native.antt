-- ===== src/EventSink/Native.antt =====
-- What the event sink bindings call: the native event sinks and edit buffers behind the
-- declarations of native/opentui_abi.h. A native call can call back into `raw_event_callback`, so
-- it returns the events that it emits beside its new state. Nothing is assumed of it.
use opentui_ocaml.Prelude.{ℕ, List}

-- The bytes of an event's name and of its data.
pub record Event : Type 0 where
  pub name : List ℕ
  pub data_bytes : List ℕ

pub record NativeSink : Type 1 where
  pub World : Type 0
  pub create_event_sink : World → ℕ × List Event × World
  pub destroy_event_sink : ℕ → World → List Event × World
  pub create_edit_buffer : ℕ → ℕ → World → ℕ × List Event × World
  pub edit_buffer_insert_text : ℕ → List ℕ → World → List Event × World
  pub destroy_edit_buffer : ℕ → World → List Event × World
