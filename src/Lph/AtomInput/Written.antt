-- ===== src/Lph/AtomInput/Written.antt =====
-- MIDI events written to the sequence, as an event buffer takes them.
use soundcan.Base.{
  ℕ, ◌+◌, ◌-◌, ◌%◌, ◌^◌, ◌≡◌, ◌<◌, ◌≤◌, refl, ap, arith, dec_lt, Option, some, List, [], ◌∷◌,
  length,
}
use soundcan.Base.Maybe.{◌>>=◌}
use soundcan.Base.Memory.{store_bytes}
use soundcan.Lv2.{AtomLayout}
use soundcan.Jalv.Evbuf.{Evbuf}
use soundcan.Jalv.Evbuf.Bounds.{IsSequence, written, write_fits, write_full, written-IsSequence}
use soundcan.Jalv.Evbuf.Readback.{Event, AllEvents, write_all}
use soundcan.Lph.AtomInput.{Sequence, space_left, write_midi}

-- Each event is a MIDI event.
abbrev pub AllOf : ℕ → List Event → Type 0
AllOf midi [] = Unit {0}
AllOf midi (e ∷ es) = (e.type ≡ midi) × AllOf midi es

module _ (lv2 : AtomLayout) where
  -- The sequence is the event buffer of the same bytes.
  pub record Same (s : Sequence) (ev : Evbuf) : Type 0 where
    pub whole : ev.capacity ≡ 8192
    pub sized : s.size ≡ ev.size
    pub stored : s.contents ≡ ev.contents
    pub offset : s.buf_offset ≡ ev.size - 8

  space_left_lem :
      (s : Sequence) (ev : Evbuf) → Same s ev → IsSequence ev → space_left lv2 s ≡ 8184 - ev.size
  unfolding space_left
  space_left_lem s ev same v = omega (arith, lv2.atom_is_8, same.sized, same.whole, v.within)

  midi_full :
      (midi frames : ℕ) (bytes : List ℕ) (s : Sequence) (ev : Evbuf)
      → Same s ev
      → IsSequence ev
      → ev.capacity < 24 + length bytes + ev.size
      → write_midi lv2 midi s frames bytes ≡ some s
  unfolding write_midi
  midi_full midi frames bytes s ev same v h =
      ground (arith, lv2.event_is_16, space_left_lem s ev same v, same.whole)

  midi_fits :
      (midi frames : ℕ) (bytes : List ℕ) (s : Sequence) (ev : Evbuf)
      → Same s ev
      → IsSequence ev
      → 24 + length bytes + ev.size ≤ ev.capacity
      → (s' : Sequence) × (write_midi lv2 midi s frames bytes ≡ some s')
        × Same s' (written lv2 ev frames midi bytes)
  unfolding write_midi written
  midi_fits midi frames bytes s ev same v h =
      let n = 16 + length bytes in
      let lt = lv2.pad_size_lt n (omega (arith, same.whole, h)) in
      let step = lv2.pad_size ((lv2.sizeof_event + length bytes) % 2 ^ 32) in
      let unwrapped : step ≡ lv2.pad_size n =
        ap lv2.pad_size (omega (arith, lv2.event_is_16, same.whole, h)) in
      let s' : Sequence = record {
        type = s.type;
        size = (s.size + step) % 2 ^ 32;
        contents =
            store_bytes
              (store_bytes s.contents s.buf_offset (lv2.put_event frames midi (length bytes)))
              (s.buf_offset + lv2.sizeof_event) bytes;
        buf_offset = s.buf_offset + step;
      } in
      (
        s',
        ground (
          arith,
          lv2.event_is_16,
          lv2.sequence_is_16,
          space_left_lem s ev same v,
          same.whole,
          same.offset,
          v.header,
        ),
        record {
          whole = same.whole;
          sized = omega (arith, unwrapped, same.sized, same.whole, lt, v.within, h);
          stored = cc (same.stored, same.offset, lv2.event_is_16);
          offset = omega (arith, unwrapped, same.offset, v.header);
        },
      )

  -- The events one after another.
  unfoldable pub write_events : ℕ → Sequence → List Event → Option Sequence
  write_events midi s [] = some s
  write_events midi s (e ∷ es) =
      write_midi lv2 midi s e.frames e.body >>= (λ s'. write_events midi s' es)

  pub events_written :
      (midi : ℕ) (s : Sequence) (ev : Evbuf) (es : List Event)
      → Same s ev
      → IsSequence ev
      → AllEvents lv2 es
      → AllOf midi es
      → (s' : Sequence) × (ev' : Evbuf) × (taken : List Event) × (write_events midi s es ≡ some s')
        × (write_all lv2 ev es ≡ some (ev', taken))
        × Same s' ev'
  unfolding write_events write_all
  events_written midi s ev [] same v a m = (s, ev, [], refl, refl, same)
  events_written midi s ev (e ∷ es) same v (one, a) (t, m) =
      elim (dec_lt ev.capacity (24 + length e.body + ev.size)) [
        | yes p ↦
            let (s', ev', taken, run, run', after) = events_written midi s ev es same v a m in
            (
              s',
              ev',
              taken,
              ground (arith, midi_full midi e.frames e.body s ev same v p, run),
              ground (arith, write_full lv2 ev e.frames e.type e.body v p, run'),
              after,
            )
        | no p ↦
            let fits : 24 + length e.body + ev.size ≤ ev.capacity = omega arith in
            let (s₁, here, same₁) = midi_fits midi e.frames e.body s ev same v fits in
            let next = written lv2 ev e.frames midi e.body in
            let (s', ev', taken, run, run', after) =
              events_written midi s₁ next es same₁
                (written-IsSequence lv2 ev e.frames midi e.body v fits) a m in
            (
              s',
              ev',
              e ∷ taken,
              ground (arith, here, run),
              ground (arith, write_fits lv2 ev e.frames e.type e.body v fits, t, run'),
              after,
            )
      ]
