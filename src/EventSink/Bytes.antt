-- ===== src/EventSink/Bytes.antt =====
-- `copy_event_bytes` of raw_stubs.c: bytes copied into the fixed buffers of an event slot and read
-- back.
use opentui_ocaml.Prelude.{ℕ, ◌≤◌, ◌≡◌, refl, ◌∙◌, List, [], ◌∷◌, arith, length}
use opentui_ocaml.Buffers.{copy_bytes_outside, read_bytes-agree, read_bytes-copy_bytes}
use opentui_ocaml.EventSink.Native.{Event}
use opentui_ocaml.EventSink.{
  Buffer, EventSlot, copy_bytes, read_bytes, copy_event_bytes, slot_event, fill_slot,
  event_name_capacity, event_data_capacity,
}

-- Bytes that fit a buffer can be read back after they are copied into it, and the copy writes no
-- byte outside the buffer.
pub read_bytes-copy_event_bytes :
    (d : Buffer) (capacity : ℕ) (bs : List ℕ)
    → length bs ≤ capacity
    → (read_bytes (copy_event_bytes d capacity bs) 0 (length bs) ≡ bs)
      × ((i : ℕ) → capacity ≤ i → copy_event_bytes d capacity bs i ≡ d i)
unfolding copy_event_bytes read_bytes
read_bytes-copy_event_bytes d capacity [] h = (refl, λ i p. ground arith)
read_bytes-copy_event_bytes d capacity (b ∷ bs) h = (
  read_bytes-agree (length (b ∷ bs)) 0 (copy_event_bytes d capacity (b ∷ bs))
        (copy_bytes d 0 (b ∷ bs)) (λ i p q. ground arith)
      ∙ read_bytes-copy_bytes (b ∷ bs) d 0,
  λ i p. ground (arith, copy_bytes_outside (b ∷ bs) d 0 i (omega arith)),
)

abbrev pub Fits : Event → Type 0
Fits event =
    (length event.name ≤ event_name_capacity) × (length event.data_bytes ≤ event_data_capacity)

-- An event that fits the slot comes back whole.
pub slot_event-fill_slot :
    (slot : EventSlot) (event : Event) → Fits event → slot_event (fill_slot slot event) ≡ event
unfolding slot_event fill_slot
slot_event-fill_slot slot event h =
    rw
      (
        (read_bytes-copy_event_bytes slot.name event_name_capacity event.name h.0).0,
        (read_bytes-copy_event_bytes slot.data_bytes event_data_capacity event.data_bytes h.1).0,
      )
      refl
