-- ===== src/EventSink/Queue.antt =====
-- The events in the ring of slots, oldest first, and what a push and a pop do to them.
use opentui_ocaml.Prelude.{
  ℕ, zero, suc, ◌+◌, ◌%◌, ◌<◌, ◌≡◌, refl, ap, ◌∙◌, ◌-◌, ◌⊎◌, inl, inr, List, [], ◌∷◌, ◌++◌, arith,
  length,
}
use opentui_ocaml.Ring
use opentui_ocaml.Ring.{write_at, contents-agree, contents-push}
use opentui_ocaml.EventSink.Native.{Event}
use opentui_ocaml.EventSink.{EventSlot, event_queue_capacity, slot_event}

abbrev pub contents : (ℕ → EventSlot) → ℕ → ℕ → List Event
contents = Ring.contents event_queue_capacity slot_event

pub length-contents :
    (queue : ℕ → EventSlot) (head count : ℕ) → length (contents queue head count) ≡ count
length-contents = Ring.length-contents event_queue_capacity slot_event

-- Writing the slot after the last appends its event.
pub push-contents :
    (queue : ℕ → EventSlot) (head count : ℕ) (slot : EventSlot)
    → count < event_queue_capacity
    → contents (write_at queue ((head + count) % event_queue_capacity) slot) head (count + 1)
      ≡ contents queue head count ++ (slot_event slot ∷ [])
push-contents queue head count slot h =
    let next : count + 1 ≡ suc count = omega arith in
    ap (contents (write_at queue ((head + count) % event_queue_capacity) slot) head) next
    ∙ contents-push event_queue_capacity slot_event queue head count slot (λ i p. omega arith)

-- The ring is empty, or it gives its first event up.
pub contents-cases :
    (queue : ℕ → EventSlot) (head count : ℕ)
    → head < event_queue_capacity
    → ((count ≡ 0) × (contents queue head count ≡ []))
      ⊎ ((0 < count)
          × (contents queue head count
              ≡ slot_event (queue head)
                ∷ contents queue ((head + 1) % event_queue_capacity) (count - 1)))
unfolding Ring.contents
contents-cases queue head zero h = inl (refl, refl)
contents-cases queue head (suc count) h =
    let pred : suc count - 1 ≡ count = omega arith in
    let same : head % event_queue_capacity ≡ head = omega arith in
    inr (
      omega arith,
      rw
          (
            pred,
            same,
            contents-agree event_queue_capacity slot_event count queue
                ((head + 1) % event_queue_capacity) (head + 1) (λ i. omega arith),
          )
          refl,
    )
