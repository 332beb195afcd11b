-- ===== src/Jalv/JackBackend.antt =====
-- ATTIC/galv/golang/jalv/jack.c: the process callback of JACK, which moves MIDI between JACK's ports
-- and the event buffers of the plugin's ports.
pub mod Transport
pub mod Inputs
pub mod Callback
pub mod Deliveries
use soundcan.Base.{
  ℕ, zero, suc, ◌+◌, ◌-◌, ◌%◌, ◌^◌, Bool, true, false, not, Option, none, some, List, [], ◌∷◌, ◌++◌,
  map, length, take, drop, set, get_elem?, ◌&&◌, ◌||◌, ◌==◌, ltb, leb, if◌then◌else◌,
}
use soundcan.Base.Maybe.{◌>>=◌}
use soundcan.Zix.{ZixRing}
use soundcan.Abi.{Words, Floats}
use soundcan.Lv2.{AtomLayout}
use soundcan.Jack.{JackMidi, MidiEvent}
use soundcan.Jalv.Types.{
  ProcessPort, PortType, type_audio, type_cv, type_event, type_control, PortFlow, flow_input,
  flow_output, jalv_paused,
}
use soundcan.Jalv.Evbuf.{
  Evbuf, Got, lv2_evbuf_reset, lv2_evbuf_begin, lv2_evbuf_write, lv2_evbuf_next, lv2_evbuf_get,
}
use soundcan.Jalv.Evbuf.Readback.{Event}
use soundcan.Jalv.Comm.{
  jalv_write_event, jalv_write_control, jalv_write_split_message, header_bytes, latency_change,
}
use soundcan.Jalv.Process.{Process, is_event, is_input, jalv_bypass}
use soundcan.Jalv.Setup.{is_output, is_control, calloc}
use soundcan.Jalv.Cycle.{Cycle, Plugin, jalv_run}

-- What jack_port_get_buffer gives for an output port.
pub data Output (B : Type 0) : Type 0 where
  midi : B → Output B
  samples : List ℕ → Output B

-- The parts of `jack_position_t` that the transport is compared by; `has_bbt` is its bit of `valid`.
pub record JackPosition : Type 0 where
  pub frame : ℕ
  pub has_bbt : Bool
  pub beats_per_minute : ℕ

-- What JACK gives in a cycle: `midi_in` has the events of each port, and `position` is the atom that
-- forge_position leaves in `pos_buf`, its type and its body.
pub record JackCycle : Type 0 where
  pub nframes : ℕ
  pub rolling : Bool
  pub pos : JackPosition
  pub midi_in : ℕ → List MidiEvent
  pub position : ℕ × List ℕ

module _ {B : Type 0} where
  -- A change of the buffer of an output port.
  unfoldable pub at_output : (Output B → Output B) → ℕ → List (Output B) → List (Output B)
  at_output f j outs = elim (get_elem? outs j) [ none ↦ outs | some b ↦ set outs j (f b) ]

-- memset with zeros over `nframes` samples.
unfoldable pub silence : ℕ → List ℕ → List ℕ
silence nframes xs = calloc nframes 0 ++ drop nframes xs

module _ (floats : Floats) where
  open floats use {differs, double_of, float_of}

  unfoldable pub xor : Bool → Bool → Bool
  xor true b = not b
  xor false b = b

  -- Whether the transport is not as expected, and the process that expects the next cycle.
  unfoldable pub process_transport : Process → Bool → JackPosition → ℕ → Bool × Process
  process_transport p rolling pos nframes = (
    xor rolling p.rolling
        || not (pos.frame == p.position)
        || (pos.has_bbt && differs pos.beats_per_minute (double_of p.bpm)),
    record p {
      position = if rolling then (pos.frame + nframes) % 2 ^ 32 else pos.frame;
      bpm = if pos.has_bbt then float_of pos.beats_per_minute else p.bpm;
      rolling = rolling;
    },
  )

module _ (lv2 : AtomLayout) where
  -- Writes through one iterator, one after another; the results are dropped.
  unfoldable pub write_events : Evbuf → ℕ → List Event → Option Evbuf
  write_events ev offset [] = some ev
  write_events ev offset (e ∷ es) = do
    (taken, ev', offset') ← lv2_evbuf_write lv2 ev offset e.frames e.type e.body
    write_events ev' offset' es

  -- The transport position, where it changed, and the MIDI of the port in JACK.
  unfoldable pub input_events : ℕ → JackCycle → Bool → ProcessPort → List Event
  input_events midi_event jack changed port =
      (if port.is_primary && changed
        then record { frames = 0; type = jack.position.0; body = jack.position.1 } ∷ []
        else [])
      ++ elim port.sys_port [
        | none ↦ []
        | some j ↦
            map (λ (e : MidiEvent). record { frames = e.time; type = midi_event; body = e.buffer })
              (jack.midi_in j)
      ]

  unfoldable pub is_signal : PortType → Bool
  is_signal type_audio = true
  is_signal type_cv = true
  is_signal _ = false

  unfoldable pub is_some : Option ℕ → Bool
  is_some none = false
  is_some (some j) = true

  -- "Prepare port buffers". A signal port is connected to JACK's buffer. `none` is an access through a
  -- null buffer or outside it.
  unfoldable pub prepare_port : ℕ → JackCycle → Bool → ProcessPort → Option ProcessPort
  prepare_port midi_event jack changed port =
      if is_some port.sys_port && is_signal port.type
      then some port
      else if is_event port.type
      then elim port.evbuf [
        | none ↦ none
        | some ev ↦
            if is_input port.flow
            then (do
              ev' ←
                  write_events (lv2_evbuf_reset lv2 ev true)
                    (lv2_evbuf_begin lv2 (lv2_evbuf_reset lv2 ev true))
                    (input_events midi_event jack changed port)
              some (record port { evbuf = some ev' }))
            else some (record port { evbuf = some (lv2_evbuf_reset lv2 ev false) })
      ]
      else some port

  unfoldable pub prepare_ports : ℕ → JackCycle → Bool → List ProcessPort → Option (List ProcessPort)
  prepare_ports midi_event jack changed [] = some []
  prepare_ports midi_event jack changed (port ∷ ports) = do
    first ← prepare_port midi_event jack changed port
    rest ← prepare_ports midi_event jack changed ports
    some (first ∷ rest)

module _ (zix : ZixRing) (abi : Words) (lv2 : AtomLayout) (floats : Floats) (jack : JackMidi) where
  open zix use {Ring}
  open jack use {Buffer, clear_buffer, event_write}

  -- A write whose result is dropped.
  unfoldable pub kept : Ring → Option Ring → Ring
  kept ring none = ring
  kept ring (some ring') = ring'

  -- An event of the plugin goes to JACK, if it is MIDI and the port has a buffer, and to the UI.
  unfoldable pub deliver_event : ℕ → Bool → ℕ → Ring × Option Buffer → Got → Ring × Option Buffer
  deliver_event midi_event has_ui index (ring, buffer) g = (
    (if has_ui then kept ring (jalv_write_event zix abi ring index g.type g.body) else ring),
    elim buffer [
      | none ↦ none
      | some b ↦
          if g.type == midi_event
          then some (event_write b (record { time = g.frames; buffer = g.body }))
          else some b
    ],
  )

  -- The loop over an event buffer; lv2_evbuf_get has no event where the iterator is not valid. `none`
  -- is out of fuel.
  unfoldable pub deliver_events :
      ℕ → ℕ → Bool → ℕ → Evbuf → ℕ → Ring × Option Buffer → Option (Ring × Option Buffer)
  deliver_events zero midi_event has_ui index ev offset out = none
  deliver_events (suc fuel) midi_event has_ui index ev offset out =
      elim (lv2_evbuf_get lv2 ev offset) [
        | none ↦ some out
        | some g ↦
            deliver_events fuel midi_event has_ui index ev (lv2_evbuf_next lv2 ev offset)
              (deliver_event midi_event has_ui index out g)
      ]
