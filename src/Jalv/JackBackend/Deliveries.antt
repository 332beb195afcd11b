-- ===== src/Jalv/JackBackend/Deliveries.antt =====
-- Where the events of an output port go.
use mathlib.Core.List.{append_assoc, append-nil}
use soundcan.Base.{
  ℕ, zero, suc, ◌+◌, ◌≡◌, ◌<◌, ◌≤◌, ◌∙◌, refl, sym, ap, arith, Bool, true, false, Option, some,
  List, [], ◌∷◌, ◌++◌, length, length-append, map, set, get_elem?, ◌==◌, if◌then◌else◌,
  Option-cases, inl, inr,
}
use soundcan.Zix.{ZixRing}
use soundcan.Abi.{Words, Floats}
use soundcan.Lv2.{AtomLayout}
use soundcan.Jack.{JackMidi, MidiEvent}
use soundcan.Jalv.Types.{ProcessPort}
use soundcan.Jalv.Evbuf.{Evbuf, Got, lv2_evbuf_begin, lv2_evbuf_next, lv2_evbuf_get}
use soundcan.Jalv.Evbuf.Readback.{Event, read_from, got}
use soundcan.Jalv.Comm.Sends.{Message, event, encode, send, send_fits}
use soundcan.Jalv.Process.{Process}
use soundcan.Jalv.Process.Perform.{encode_all, AllMessages}
use soundcan.Jalv.JackBackend.{Output, midi, deliver_event, deliver_events, kept, at_output}
use soundcan.Jalv.JackBackend.Callback.{deliver_buffer, midi_buffer, put_buffer}

-- The MIDI events among those of a buffer, and all of them as messages for the UI.
unfoldable pub midi_out : ℕ → List Event → List MidiEvent
midi_out midi_event [] = []
midi_out midi_event (e ∷ es) =
    if e.type == midi_event
    then record { time = e.frames; buffer = e.body } ∷ midi_out midi_event es
    else midi_out midi_event es

unfoldable pub to_ui : ℕ → List Event → List Message
to_ui index [] = []
to_ui index (e ∷ es) = event index e.type e.body ∷ to_ui index es

module _ (jack : JackMidi) where
  open jack use {Buffer, events, accepts, event_write}

  -- JACK accepts each event, one after another.
  abbrev pub AllAccepted : Buffer → List MidiEvent → Type 0
  AllAccepted b [] = Unit {0}
  AllAccepted b (e ∷ es) = (accepts b e ≡ true) × AllAccepted (event_write b e) es

module _ (zix : ZixRing) (abi : Words) (lv2 : AtomLayout) (floats : Floats) (jack : JackMidi) where
  open zix use {Ring, contents, space}
  open jack use {Buffer, events, accepts, event_write}

  deliver_all : ℕ → Bool → ℕ → Ring × Option Buffer → List Got → Ring × Option Buffer
  deliver_all midi_event has_ui index out [] = out
  deliver_all midi_event has_ui index out (g ∷ gs) =
      deliver_all midi_event has_ui index
        (deliver_event zix abi lv2 floats jack midi_event has_ui index out g) gs

  -- The loop delivers what can be read.
  deliver_read :
      (fuel more midi_event index offset : ℕ) (has_ui : Bool) (ev : Evbuf)
      (out : Ring × Option Buffer) (gs : List Got)
      → read_from lv2 fuel ev offset ≡ gs
      → length gs < fuel
      → fuel ≤ more
      → deliver_events zix abi lv2 floats jack more midi_event has_ui index ev offset out
        ≡ some (deliver_all midi_event has_ui index out gs)
  unfolding deliver_events deliver_all read_from
  deliver_read zero more midi_event index offset has_ui ev out gs e h k = absurd (omega arith)
  deliver_read (suc fuel) zero midi_event index offset has_ui ev out gs e h k = absurd (omega arith)
  deliver_read (suc fuel) (suc more) midi_event index offset has_ui ev out [] e h k =
      elim (Option-cases (lv2_evbuf_get lv2 ev offset)) [
        | inl last ↦ ground (arith, last)
        | inr (g, here) ↦ absurd (ground (arith, here, e))
      ]
  deliver_read (suc fuel) (suc more) midi_event index offset has_ui ev out (x ∷ gs) e h k =
      elim (Option-cases (lv2_evbuf_get lv2 ev offset)) [
        | inl last ↦ absurd (ground (arith, last, e))
        | inr (g, here) ↦
            let first : g ≡ x = ground (arith, here, e) in
            let rest : read_from lv2 fuel ev (lv2_evbuf_next lv2 ev offset) ≡ gs =
              ground (arith, here, e) in
            ground (
              arith,
              here,
              first,
              deliver_read fuel more midi_event index (lv2_evbuf_next lv2 ev offset) has_ui ev
                  (deliver_event zix abi lv2 floats jack midi_event has_ui index out x) gs rest
                  (omega arith) (omega arith),
            )
      ]

  deliver_event_lem :
      (midi_event index : ℕ) (r r₁ : Ring) (b b₁ : Buffer) (e : Event)
      → send zix abi r (event index e.type e.body) ≡ some r₁
      → (if e.type == midi_event
          then some (event_write b (record { time = e.frames; buffer = e.body }))
          else some b)
        ≡ some b₁
      → deliver_event zix abi lv2 floats jack midi_event true index (r, some b) (got e)
        ≡ (r₁, some b₁)
  unfolding deliver_event kept send
  deliver_event_lem midi_event index r r₁ b b₁ e sent wrote = ground (arith, sent, wrote)

  length-map : {A B : Type 0} (f : A → B) (xs : List A) → length (map f xs) ≡ length xs
  length-map f [] = refl
  length-map f (x ∷ xs) = ap suc (length-map f xs)

  jack_step :
      (t : Bool) (b : Buffer) (x : MidiEvent) (xs : List MidiEvent)
      → AllAccepted jack b (if t then x ∷ xs else xs)
      → (b₁ : Buffer) × ((if t then some (event_write b x) else some b) ≡ some b₁)
        × (events b₁ ++ xs ≡ events b ++ (if t then x ∷ xs else xs))
        × AllAccepted jack b₁ xs
  jack_step true b x xs (one, a) = (
    event_write b x,
    refl,
    ap (λ ys. ys ++ xs) (jack.write_accepted b x one) ∙ append_assoc (events b) (x ∷ []) xs,
    a,
  )
  jack_step false b x xs a = (b, refl, refl, a)

  deliver_events_lem :
      (midi_event index : ℕ) (r : Ring) (b : Buffer) (es : List Event)
      → AllAccepted jack b (midi_out midi_event es)
      → AllMessages zix abi (to_ui index es)
      → length (encode_all abi (to_ui index es)) ≤ space r
      → (r' : Ring) × (b' : Buffer) × (deliver_all midi_event true index (r, some b) (map got es)
          ≡ (r', some b'))
        × (events b' ≡ events b ++ midi_out midi_event es)
        × (contents r' ≡ contents r ++ encode_all abi (to_ui index es))
  unfolding deliver_all deliver_event midi_out to_ui encode_all kept
  deliver_events_lem midi_event index r b [] a m h =
      (r, b, refl, sym (append-nil (events b)), sym (append-nil (contents r)))
  deliver_events_lem midi_event index r b (e ∷ es) a (m, ms) h =
      let x : MidiEvent = record { time = e.frames; buffer = e.body } in
      let msg = event index e.type e.body in
      let (b₁, wrote, same, a₁) = jack_step (e.type == midi_event) b x (midi_out midi_event es) a in
      let size = length-append (encode abi msg) (encode_all abi (to_ui index es)) in
      let (r₁, sent, (c, s)) = send_fits zix abi r msg m (omega (arith, size, h)) in
      let (r', b', run, kept_events, left) =
        deliver_events_lem midi_event index r₁ b₁ es a₁ ms (omega (arith, size, h, s)) in
      (
        r',
        b',
        ap (λ out. deliver_all midi_event true index out (map got es))
              (deliver_event_lem midi_event index r r₁ b b₁ e sent wrote)
            ∙ run,
        kept_events ∙ same,
        left
            ∙ ap (λ xs. xs ++ encode_all abi (to_ui index es)) c
            ∙ append_assoc (contents r) (encode abi msg) (encode_all abi (to_ui index es)),
      )

  -- What the plugin has left in the event buffer of an output port goes, each event once and in order,
  -- to the UI, and the MIDI events among them to the port of JACK. The events can be read from the
  -- buffer, of which they are no more than it has bytes; JACK accepts them, and they fit the ring.
  -- The process has a UI, and the port a MIDI buffer of JACK.
  pub deliver_buffer-events :
      (midi_event index j : ℕ) (p : Process) (r : Ring) (b : Buffer) (outs : List (Output Buffer))
      (port : ProcessPort) (ev : Evbuf) (es : List Event)
      → p.has_ui ≡ true
      → port.evbuf ≡ some ev
      → port.sys_port ≡ some j
      → get_elem? outs j ≡ some (midi b)
      → read_from lv2 (length es + 1) ev (lv2_evbuf_begin lv2 ev) ≡ map got es
      → length es ≤ ev.size
      → AllAccepted jack (jack.clear_buffer b) (midi_out midi_event es)
      → AllMessages zix abi (to_ui index es)
      → length (encode_all abi (to_ui index es)) ≤ space r
      → (r' : Ring) × (b' : Buffer) × (deliver_buffer zix abi lv2 floats jack midi_event p r outs
            index port
          ≡ some (r', set outs j (midi b')))
        × (events b' ≡ midi_out midi_event es)
        × (contents r' ≡ contents r ++ encode_all abi (to_ui index es))
  unfolding deliver_buffer midi_buffer put_buffer at_output
  deliver_buffer-events midi_event index j p r b outs port ev es ui has sys out read fits a m room =
      let c = jack.clear_buffer b in
      let (r', b', run, kept_events, left) = deliver_events_lem midi_event index r c es a m room in
      let all =
        deliver_read (length es + 1) (ev.size + 1) midi_event index (lv2_evbuf_begin lv2 ev) true ev
          (r, some c) (map got es) read (omega (arith, length-map got es)) (omega arith) in
      (
        r',
        b',
        ground (arith, ui, has, sys, out, all, run),
        kept_events ∙ ap (λ xs. xs ++ midi_out midi_event es) (jack.events-clear b),
        left,
      )
