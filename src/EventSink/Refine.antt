-- ===== src/EventSink/Refine.antt =====
-- The ring of raw_stubs.c against the bounded queue of EventSink.Spec, binding by binding.
use opentui_ocaml.Ring
use opentui_ocaml.Prelude.{
  ℕ, ◌+◌, ◌%◌, ◌≤◌, ◌<◌, ◌≡◌, refl, ap, ◌∙◌, Bool, true, false, List, [], ◌∷◌, ◌++◌, arith, ◌==◌,
  if◌then◌else◌, subst, inl, inr,
}
use opentui_ocaml.EventSink.Native.{Event, NativeSink}
use opentui_ocaml.EventSink.{
  State, write_at, event_queue_capacity, fill_slot, reset_event_queue, raw_event_callback, emit_all,
  event_sink_create, event_sink_destroy, event_sink_poll, test_event_sink_emit,
}
use opentui_ocaml.EventSink.Bytes.{Fits, slot_event-fill_slot}
use opentui_ocaml.EventSink.Queue.{contents, length-contents, push-contents, contents-cases}
use opentui_ocaml.EventSink.Spec.{
  Fifo, offer, offer_all, open_sink, close_sink, take_event, type_text,
}

module _ (native : NativeSink) where
  -- The head is an index of the ring, and no more slots are in use than there are.
  abbrev pub IsValid : State native → Type 0
  IsValid s =
      (s.event_queue_head < event_queue_capacity) × (s.event_queue_count ≤ event_queue_capacity)

  abbrev pub view : State native → Fifo native
  view s = record {
    pending = contents s.event_queue s.event_queue_head s.event_queue_count;
    lost = s.event_queue_overflow;
    sink = s.event_sink_handle;
    world = s.world;
  }

  -- A state that is valid and that a state of the queue describes.
  abbrev pub Implements : State native → Fifo native → Type 0
  Implements s f = IsValid s × (view s ≡ f)

  pushed :
      (s : State native) (event : Event)
      → s.event_queue_count < event_queue_capacity
      → Fits event
      → let tail = (s.event_queue_head + s.event_queue_count) % event_queue_capacity in
        contents
          (write_at s.event_queue tail (fill_slot (s.event_queue tail) event))
          s.event_queue_head
          (s.event_queue_count + 1)
        ≡ (view s).pending ++ (event ∷ [])
  pushed s event h k =
      let tail = (s.event_queue_head + s.event_queue_count) % event_queue_capacity in
      push-contents s.event_queue s.event_queue_head s.event_queue_count
        (fill_slot (s.event_queue tail) event) h
      ∙ ap (λ e. (view s).pending ++ (e ∷ [])) (slot_event-fill_slot (s.event_queue tail) event k)

  pub raw_event_callback-Implements :
      (s : State native) (event : Event)
      → IsValid s
      → Implements (raw_event_callback native s event) (offer native (view s) event)
  unfolding raw_event_callback offer
  raw_event_callback-Implements s event v =
      ground (
        arith,
        length-contents s.event_queue s.event_queue_head s.event_queue_count,
        pushed s event,
      )

  pub emit_all-Implements :
      (es : List Event) (s : State native) (f : Fifo native)
      → Implements s f
      → Implements (emit_all native s es) (offer_all native f es)
  unfolding emit_all offer_all
  emit_all-Implements [] s f i = i
  emit_all-Implements (e ∷ es) s f i =
      let step = raw_event_callback-Implements s e i.0 in
      emit_all-Implements es (raw_event_callback native s e) (offer native f e)
        (step.0, step.1 ∙ ap (λ g. offer native g e) i.1)

  -- The callback does nothing where there is no sink.
  emit_all_idle :
      (es : List Event) (s : State native) → s.event_sink_handle ≡ 0 → emit_all native s es ≡ s
  unfolding emit_all raw_event_callback
  emit_all_idle [] s z = refl
  emit_all_idle (e ∷ es) s z =
      let same : raw_event_callback native s e ≡ s = ground arith in
      ap (λ t. emit_all native t es) same ∙ emit_all_idle es s z

  emit_all-world : (es : List Event) (s : State native) → (emit_all native s es).world ≡ s.world
  unfolding emit_all raw_event_callback
  emit_all-world [] s = refl
  emit_all-world (e ∷ es) s = emit_all-world es (raw_event_callback native s e) ∙ ground arith

  -- A call's result and the state that it leaves, against what the queue gives.
  abbrev pub ImplementsCall {ℓ} : {A : Type ℓ} → A × State native → A × Fifo native → Type ℓ
  ImplementsCall r q = (r.0 ≡ q.0) × Implements r.1 q.1

  pub event_sink_create-Implements :
      (s : State native)
      → IsValid s
      → ImplementsCall (event_sink_create native s) (open_sink native (view s))
  unfolding event_sink_create open_sink reset_event_queue Ring.contents
  event_sink_create-Implements s v =
      let made = native.create_event_sink s.world in
      ground (arith, emit_all_idle made.1 (record (reset_event_queue native s) { world = made.2 }))

  pub event_sink_destroy-Implements :
      (s : State native) (handle : ℕ)
      → IsValid s
      → Implements (event_sink_destroy native s handle) (close_sink native (view s) handle)
  unfolding event_sink_destroy close_sink reset_event_queue Ring.contents
  event_sink_destroy-Implements s handle v = ground (
    arith,
    emit_all-world (native.destroy_event_sink handle s.world).0
        (record s { world = (native.destroy_event_sink handle s.world).1 }),
  )

  pub event_sink_poll-Implements :
      (s : State native) (handle : ℕ) (room : Bool)
      → IsValid s
      → ImplementsCall
          (event_sink_poll native s handle room)
          (take_event native (view s) handle room)
  unfolding event_sink_poll take_event
  event_sink_poll-Implements s handle room v =
      elim (contents-cases s.event_queue s.event_queue_head s.event_queue_count v.0) [
        | inl (none_left, e) ↦ ground arith
        | inr (some_left, e) ↦ ground arith
      ]

  if_both :
      {A : Type 0} (b : Bool) (x y : A × State native) (f g : A × Fifo native)
      → ImplementsCall x f
      → (b ≡ false → ImplementsCall y g)
      → ImplementsCall (if b then x else y) (if b then f else g)
  if_both true x y f g h k = h
  if_both false x y f g h k = k refl

  -- A native call, and the events that it emits, on both sides.
  emitting :
      (call : native.World → List Event × native.World) (s : State native) (f : Fifo native)
      → Implements s f
      → Implements
          (emit_all native (record s { world = (call s.world).1 }) (call s.world).0)
          (offer_all native (record f { world = (call f.world).1 }) (call f.world).0)
  emitting call s f i =
      subst
        (λ g.
          Implements (emit_all native (record s { world = (call s.world).1 }) (call s.world).0)
            (offer_all native (record g { world = (call g.world).1 }) (call g.world).0))
        i.1 (emit_all-Implements (call s.world).0 _ _ (i.0, refl))

  pub test_event_sink_emit-Implements :
      (s : State native)
      → IsValid s
      → ImplementsCall (test_event_sink_emit native s) (type_text native (view s))
  unfolding test_event_sink_emit type_text
  test_event_sink_emit-Implements s v =
      let made = native.create_edit_buffer 1 s.event_sink_handle s.world in
      let i1 = emit_all-Implements made.1 (record s { world = made.2 }) _ (v, refl) in
      let i2 = emitting (native.edit_buffer_insert_text made.0 (88 ∷ [])) _ _ i1 in
      let i3 = emitting (native.destroy_edit_buffer made.0) _ _ i2 in
      if_both (s.event_sink_handle == 0) _ _ _ _ (refl, (v, refl))
        (λ _. if_both (made.0 == 0) _ _ _ _ (refl, i1) (λ _. (refl, i3)))
