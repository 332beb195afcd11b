-- ===== src/Jalv/JackBackend/Inputs.antt =====
-- What a plugin reads from its event inputs in a cycle.
use soundcan.Base.{
  ℕ, ◌+◌, ◌%◌, ◌^◌, ◌≡◌, ◌<◌, ◌≤◌, ◌∙◌, sym, refl, ap, arith, Bool, true, false, Option, none, some,
  List, [], ◌∷◌, length, map, Bool-cases, inl, inr,
}
use soundcan.Lv2.{AtomLayout}
use soundcan.Jack.{MidiEvent}
use soundcan.Jalv.Types.{ProcessPort, type_event, flow_input}
use soundcan.Jalv.Process.{is_event, is_input}
use soundcan.Jalv.Evbuf.{Evbuf, lv2_evbuf_reset, lv2_evbuf_begin, lv2_evbuf_end}
use soundcan.Jalv.Evbuf.Bounds.{IsSequence, write-IsSequence, reset-IsSequence}
use soundcan.Jalv.Evbuf.Readback.{Event, AllEvents, write_all, read_from, got, readback, total}
use soundcan.Jalv.Evbuf.Growth.{write_all_rest, begin_reset}
use soundcan.Jalv.JackBackend.{JackCycle, write_events, input_events, prepare_port, is_signal}

-- The MIDI of JACK as events: each at its time, with its bytes.
unfoldable pub arrived : ℕ → List MidiEvent → List Event
arrived midi_event [] = []
arrived midi_event (e ∷ es) =
    record { frames = e.time; type = midi_event; body = e.buffer } ∷ arrived midi_event es

-- The position of the transport as an event at the start of the cycle.
abbrev pub position_event : JackCycle → Event
position_event jack = record { frames = 0; type = jack.position.0; body = jack.position.1 }

-- What comes in for a port: the position where the transport changed and the port is the primary one,
-- and then the MIDI.
unfoldable pub incoming : ℕ → JackCycle → Bool → Bool → List MidiEvent → List Event
incoming midi_event jack true true es = position_event jack ∷ arrived midi_event es
incoming midi_event jack true false es = arrived midi_event es
incoming midi_event jack false changed es = arrived midi_event es

-- The MIDI that JACK has for a port, none for a port that is not registered.
unfoldable pub midi_of_port : JackCycle → Option ℕ → List MidiEvent
midi_of_port jack none = []
midi_of_port jack (some j) = jack.midi_in j

map-arrived :
    (midi_event : ℕ) (es : List MidiEvent)
    → map (λ (e : MidiEvent). record { frames = e.time; type = midi_event; body = e.buffer }) es
      ≡ arrived midi_event es
unfolding arrived
map-arrived midi_event [] = refl
map-arrived midi_event (e ∷ es) =
    ap (◌∷◌ (record { frames = e.time; type = midi_event; body = e.buffer }))
      (map-arrived midi_event es)

module _ (lv2 : AtomLayout) where
  registered_events :
      (midi_event : ℕ) (jack : JackCycle) (sys_port : Option ℕ)
      → elim sys_port [
        | none ↦ []
        | some j ↦
            map
              (λ (e : MidiEvent). record { frames = e.time; type = midi_event; body = e.buffer })
              (jack.midi_in j)
      ]
        ≡ arrived midi_event (midi_of_port jack sys_port)
  unfolding arrived midi_of_port
  registered_events midi_event jack none = refl
  registered_events midi_event jack (some j) = map-arrived midi_event (jack.midi_in j)

  input_events-incoming :
      (midi_event : ℕ) (jack : JackCycle) (changed : Bool) (port : ProcessPort)
      → input_events lv2 midi_event jack changed port
        ≡ incoming midi_event jack port.is_primary changed (midi_of_port jack port.sys_port)
  unfolding input_events incoming
  input_events-incoming midi_event jack changed port =
      let es = registered_events midi_event jack port.sys_port in
      elim (Bool-cases port.is_primary) [
        | inl p ↦ elim (Bool-cases changed) [
          | inl c ↦ ground (arith, p, c, es)
          | inr c ↦ ground (arith, p, c, es)
        ]
        | inr p ↦ ground (arith, p, es)
      ]

  -- An iterator that is moved by each write stays at the end.
  write_events-write_all :
      (ev ev' : Evbuf) (offset : ℕ) (es taken : List Event)
      → IsSequence ev
      → offset ≡ lv2_evbuf_end lv2 ev
      → write_all lv2 ev es ≡ some (ev', taken)
      → write_events lv2 ev offset es ≡ some ev'
  unfolding write_events write_all
  write_events-write_all ev ev' offset [] taken v at e = ground (arith, e)
  write_events-write_all ev ev' offset (x ∷ es) taken v at e =
      let (r, run, n, v', next) = write-IsSequence lv2 ev x.frames x.type x.body v in
      let (more, rest, eq) = write_all_rest lv2 ev ev' x es taken r run e in
      ground (arith, at, run, write_events-write_all (r.1) ev' (r.2) es more v' next rest)

  -- What comes in for an input port is what the plugin reads there: exactly the events that fit, in
  -- order, and all of them if their padded sizes add up to at most the capacity less 16. That is the
  -- MIDI that JACK has for the port, with its times, and for a primary port the position first, where
  -- the transport changed. The writes never leave the buffer. The port has a buffer with a capacity
  -- that is a multiple of 8 from 16 on; times, URIDs and sizes are 32 bit words.
  pub prepare_port-read_from :
      (midi_event : ℕ) (jack : JackCycle) (changed : Bool) (port : ProcessPort) (ev : Evbuf)
      (es : List Event)
      → port.type ≡ type_event
      → port.flow ≡ flow_input
      → port.evbuf ≡ some ev
      → ev.capacity < 2 ^ 32
      → ev.capacity % 8 ≡ 0
      → 16 ≤ ev.capacity
      → es ≡ incoming midi_event jack port.is_primary changed (midi_of_port jack port.sys_port)
      → AllEvents lv2 es
      → (ev' : Evbuf) × (taken : List Event) × (prepare_port lv2 midi_event jack changed port
          ≡ some (record port { evbuf = some ev' }))
        × (write_all lv2 (lv2_evbuf_reset lv2 ev true) es ≡ some (ev', taken))
        × (read_from lv2 (length taken + 1) ev' (lv2_evbuf_begin lv2 ev') ≡ map got taken)
        × (total lv2 es + 16 ≤ ev.capacity → taken ≡ es)
  unfolding prepare_port is_event is_input is_signal
  prepare_port-read_from midi_event jack changed port ev es t f b small whole least came all =
      let start = lv2_evbuf_reset lv2 ev true in
      let v = reset-IsSequence lv2 ev small whole least in
      let (ev', taken, run, read, every) = readback lv2 ev es small whole least all in
      let at : lv2_evbuf_begin lv2 start ≡ lv2_evbuf_end lv2 start = begin_reset lv2 ev v in
      let done = write_events-write_all start ev' (lv2_evbuf_begin lv2 start) es taken v at run in
      let same : input_events lv2 midi_event jack changed port ≡ es =
        input_events-incoming midi_event jack changed port ∙ sym came in
      (ev', taken, ground (arith, t, f, b, done, same), run, read, every)
