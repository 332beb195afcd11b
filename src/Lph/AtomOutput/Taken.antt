-- ===== src/Lph/AtomOutput/Taken.antt =====
-- What PipeWire gets of a plugin's sequence.
use soundcan.Base.{
  ℕ, zero, suc, ◌+◌, ◌-◌, ◌^◌, ◌≡◌, ◌≤◌, ◌<◌, ◌∙◌, ap, arith, true, some, List, [], ◌∷◌, length,
  ◌==◌, Bool-cases, inl, inr, if◌then◌else◌,
}
use soundcan.Base.Memory.{load_bytes}
use soundcan.Lv2.{AtomLayout}
use soundcan.Jalv.Evbuf.Readback.{Event, IsEvent, Holds, Holds-le, stride}
use soundcan.Lph.AtomOutput.{
  OutputBuffer, QueuedBuffer, untouched, controls, midi_of, event_step, take_events,
  post_run_atom_output,
}

-- The bodies of the MIDI events.
abbrev pub midi_bodies : ℕ → List Event → List (List ℕ)
midi_bodies midi [] = []
midi_bodies midi (e ∷ es) =
    let rest = midi_bodies midi es in if e.type == midi then e.body ∷ rest else rest

-- What is queued for the events of a sequence.
abbrev pub queued : ℕ → List Event → QueuedBuffer
queued midi [] = untouched
queued midi (e ∷ es) = controls (midi_bodies midi (e ∷ es))

module _ (lv2 : AtomLayout) where
  pad_size-add_16 :
      (n : ℕ) → n + 32 < 2 ^ 32 → lv2.pad_size 16 + lv2.pad_size n ≡ lv2.pad_size (16 + n)
  pad_size-add_16 n h = omega (
    arith,
    lv2.pad_size_ge 16 (omega arith),
    lv2.pad_size_lt 16 (omega arith),
    lv2.pad_size_aligned 16 (omega arith),
    lv2.pad_size_ge n (omega arith),
    lv2.pad_size_lt n (omega arith),
    lv2.pad_size_aligned n (omega arith),
    lv2.pad_size_ge (16 + n) (omega arith),
    lv2.pad_size_lt (16 + n) (omega arith),
    lv2.pad_size_aligned (16 + n) (omega arith),
  )

  module _ (s : OutputBuffer) (offset : ℕ) (e : Event) where
    header_size :
        IsEvent e
        → load_bytes s.contents offset 16 ≡ lv2.put_event e.frames e.type (length e.body)
        → lv2.event_size (load_bytes s.contents offset lv2.sizeof_event) ≡ length e.body
    header_size v held =
        let is_16 = ap (load_bytes s.contents offset) lv2.event_is_16 in
        ap lv2.event_size (is_16 ∙ held)
        ∙ lv2.size-put_event e.frames e.type (length e.body) v.frames_small v.type_small
            (omega (arith, v.body_small))

    header_type :
        IsEvent e
        → load_bytes s.contents offset 16 ≡ lv2.put_event e.frames e.type (length e.body)
        → lv2.event_type (load_bytes s.contents offset lv2.sizeof_event) ≡ e.type
    header_type v held =
        let is_16 = ap (load_bytes s.contents offset) lv2.event_is_16 in
        ap lv2.event_type (is_16 ∙ held)
        ∙ lv2.type-put_event e.frames e.type (length e.body) v.frames_small v.type_small
            (omega (arith, v.body_small))

    event_step-stride :
        IsEvent e
        → load_bytes s.contents offset 16 ≡ lv2.put_event e.frames e.type (length e.body)
        → event_step lv2 s offset ≡ stride lv2 e
    unfolding event_step
    event_step-stride v held =
        let n = header_size v held in
        let padded = pad_size-add_16 (length e.body) v.body_small in
        let small = lv2.pad_size_lt (16 + length e.body) (omega (arith, v.body_small)) in
        omega
          (arith, ap lv2.pad_size n, ap lv2.pad_size lv2.event_is_16, padded, small, v.body_small)

    midi_of-body :
        (midi : ℕ)
        → IsEvent e
        → 32 + offset + length e.body ≤ 8192
        → load_bytes s.contents offset 16 ≡ lv2.put_event e.frames e.type (length e.body)
        → load_bytes s.contents (offset + 16) (length e.body) ≡ e.body
        → midi_of lv2 midi s offset ≡ some (if e.type == midi then e.body ∷ [] else [])
    unfolding midi_of
    midi_of-body midi v fits held stored =
        let n = header_size v held in
        let t = header_type v held in
        let body : load_bytes s.contents (offset + lv2.sizeof_event)
              (lv2.event_size (load_bytes s.contents offset lv2.sizeof_event))
            ≡ e.body =
          ap (load_bytes s.contents (offset + lv2.sizeof_event)) n
          ∙ ap (λ k. load_bytes s.contents (offset + k) (length e.body)) lv2.event_is_16
          ∙ stored in
        elim (Bool-cases (e.type == midi)) [
          | inl is ↦ ground (arith, n, t, body, is, lv2.event_is_16, lv2.sequence_is_16)
          | inr is ↦ ground (arith, n, t, is, lv2.event_is_16, lv2.sequence_is_16)
        ]

  take_events-midi_bodies :
      (fuel midi : ℕ) (s : OutputBuffer) (offset end payload : ℕ) (es : List Event)
      → Holds lv2 s.contents offset end es
      → end + 16 ≤ 8192
      → payload ≡ end - offset + 8
      → offset ≤ end
      → end - offset < fuel
      → take_events lv2 fuel midi s offset payload ≡ some (midi_bodies midi es)
  unfolding take_events
  take_events-midi_bodies zero midi s offset end payload es h fits p le more = absurd (omega arith)
  take_events-midi_bodies (suc fuel) midi s offset end payload [] h fits p le more =
      ground (arith, h, p, lv2.event_is_16)
  take_events-midi_bodies (suc fuel) midi s offset end payload (e ∷ es)
        (v, inside, held, stored, next) fits p le more =
      let step = event_step-stride s offset e v held in
      let here = midi_of-body s offset e midi v (omega arith) held stored in
      let ge = lv2.pad_size_ge (16 + length e.body) (omega (arith, v.body_small)) in
      let lt = lv2.pad_size_lt (16 + length e.body) (omega (arith, v.body_small)) in
      let on = Holds-le lv2 s.contents (offset + stride lv2 e) end es (omega arith) next in
      let rest =
        take_events-midi_bodies fuel midi s (offset + stride lv2 e) end (payload - stride lv2 e) es
          next fits (omega (arith, ge, on)) on (omega (arith, ge, on)) in
      elim (Bool-cases (e.type == midi)) [
        | inl is ↦ ground (arith, step, here, rest, is, lv2.event_is_16, lt)
        | inr is ↦ ground (arith, step, here, rest, is, lv2.event_is_16, lt)
      ]

  -- Where a sequence of at most 8184 bytes stands in the buffer, post_run_atom_output ends, stays inside
  -- of the buffer, and queues the bodies of the MIDI events, in order, or nothing for an empty sequence.
  pub post_run_atom_output-queued :
      (midi : ℕ) (s : OutputBuffer) (es : List Event)
      → 8 ≤ s.size
      → s.size ≤ 8184
      → Holds lv2 s.contents 0 (s.size - 8) es
      → post_run_atom_output lv2 midi s true ≡ some (queued midi es)
  unfolding post_run_atom_output
  post_run_atom_output-queued midi s [] low high h = ground (arith, h, lv2.sequence_is_16)
  post_run_atom_output-queued midi s (e ∷ es) low high h =
      let taken =
        take_events-midi_bodies (suc s.size) midi s 0 (s.size - 8) s.size (e ∷ es) h (omega arith)
          (omega arith) (omega arith) (omega arith) in
      ground (arith, taken, h.1, lv2.sequence_is_16)
