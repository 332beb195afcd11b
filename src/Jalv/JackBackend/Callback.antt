-- ===== src/Jalv/JackBackend/Callback.antt =====
-- ATTIC/galv/golang/jalv/jack.c: delivery of a cycle's output, and the process callback.
use soundcan.Base.{
  ℕ, ◌+◌, Bool, Option, none, some, List, [], ◌∷◌, get_elem?, get_or, ◌&&◌, ◌==◌, if◌then◌else◌,
}
use soundcan.Base.Maybe.{◌>>=◌}
use soundcan.Zix.{ZixRing}
use soundcan.Abi.{Words, Floats}
use soundcan.Lv2.{AtomLayout}
use soundcan.Jack.{JackMidi}
use soundcan.Jalv.Types.{ProcessPort, jalv_paused}
use soundcan.Jalv.Evbuf.{lv2_evbuf_begin}
use soundcan.Jalv.Comm.{jalv_write_control, jalv_write_split_message, header_bytes, latency_change}
use soundcan.Jalv.Process.{Process, is_event, jalv_bypass}
use soundcan.Jalv.Setup.{is_output, is_control}
use soundcan.Jalv.Cycle.{Cycle, Plugin, jalv_run}
use soundcan.Jalv.JackBackend.{
  Output, midi, samples, JackCycle, at_output, silence, process_transport, prepare_ports, kept,
  deliver_events,
}

-- 16777216.0f
abbrev pub max_latency : ℕ
max_latency = 1266679808

module _ (floats : Floats) where
  -- The latency in frames of a control value: the comparisons are on floats, and 0.0f is 0.
  unfoldable pub latency_frames : ℕ → ℕ
  latency_frames value =
      if floats.float_le 0 value && floats.float_le value max_latency
      then floats.uint_of value
      else 0

module _ (jack : JackMidi) where
  open jack use {Buffer, clear_buffer}

  unfoldable pub cleared_output : Output Buffer → Output Buffer
  cleared_output (midi b) = midi (clear_buffer b)
  cleared_output (samples xs) = samples xs

  unfoldable pub silenced : ℕ → Output Buffer → Output Buffer
  silenced nframes (midi b) = midi b
  silenced nframes (samples xs) = samples (silence nframes xs)

  -- The MIDI buffer of a port, if it has one.
  unfoldable pub midi_buffer : Option ℕ → List (Output Buffer) → Option Buffer
  midi_buffer none outs = none
  midi_buffer (some j) outs = elim (get_elem? outs j) [
    | none ↦ none
    | some out ↦ elim out [ midi b ↦ some (clear_buffer b) | samples xs ↦ none ]
  ]

  unfoldable pub put_buffer : Option ℕ → Option Buffer → List (Output Buffer) → List (Output Buffer)
  put_buffer none buffer outs = outs
  put_buffer (some j) none outs = outs
  put_buffer (some j) (some b) outs = at_output (λ out. midi b) j outs

  -- An output port while the plugin is paused.
  unfoldable pub silence_port : ℕ → ProcessPort → List (Output Buffer) → List (Output Buffer)
  silence_port nframes port outs = elim port.sys_port [
    | none ↦ outs
    | some j ↦
        if is_output port.flow
        then at_output (if is_event port.type then cleared_output else silenced nframes) j outs
        else outs
  ]

  unfoldable pub silence_ports : ℕ → List ProcessPort → List (Output Buffer) → List (Output Buffer)
  silence_ports nframes [] outs = outs
  silence_ports nframes (port ∷ ports) outs =
      silence_ports nframes ports (silence_port nframes port outs)

module _ (zix : ZixRing) (abi : Words) (lv2 : AtomLayout) (floats : Floats) (jack : JackMidi) where
  open zix use {Ring}
  open abi use {put_u32}
  open jack use {Buffer}

  -- A changed latency is kept, and sent to the UI.
  unfoldable pub deliver_latency : Process → Ring → ℕ → Process × Ring
  deliver_latency p ring frames = if p.plugin_latency == frames then (p, ring) else (
    record p { plugin_latency = frames },
    kept zix abi lv2 floats jack ring (
        jalv_write_split_message zix abi ring (header_bytes abi latency_change 4)
          (put_u32 (floats.float_of_uint frames))),
  )

  -- The events of an output port.
  unfoldable pub deliver_buffer :
      ℕ
      → Process
      → Ring
      → List (Output Buffer)
      → ℕ
      → ProcessPort
      → Option (Ring × List (Output Buffer))
  deliver_buffer midi_event p ring outs index port = do
    ev ← port.evbuf
    (ring', buffer) ←
        deliver_events zix abi lv2 floats jack (ev.size + 1) midi_event p.has_ui index ev
          (lv2_evbuf_begin lv2 ev) (ring, midi_buffer jack port.sys_port outs)
    some (ring', put_buffer jack port.sys_port buffer outs)

  -- "Deliver MIDI output and UI events" for one port; what is delivered is the state.
  unfoldable pub deliver_port :
      ℕ
      → Bool
      → Process × Ring × List (Output Buffer)
      → ℕ
      → ProcessPort
      → Option (Process × Ring × List (Output Buffer))
  deliver_port midi_event update (p, ring, outs) index port =
      if is_output port.flow && is_control port.type && port.reports_latency
      then (let (p', ring') =
            deliver_latency p ring (latency_frames floats (get_or p.controls_buf index 0)) in
          some (p', ring', outs))
      else if is_output port.flow && is_event port.type
      then (do
        (ring', outs') ← deliver_buffer midi_event p ring outs index port
        some (p, ring', outs'))
      else if update && is_output port.flow && is_control port.type
      then some (
        p,
        kept zix abi lv2 floats jack ring
            (jalv_write_control zix abi ring index (get_or p.controls_buf index 0)),
        outs,
      )
      else some (p, ring, outs)

  unfoldable pub deliver_ports :
      ℕ
      → Bool
      → Process × Ring × List (Output Buffer)
      → ℕ
      → List ProcessPort
      → Option (Process × Ring × List (Output Buffer))
  deliver_ports midi_event update out index [] = some out
  deliver_ports midi_event update out index (port ∷ ports) = do
    out' ← deliver_port midi_event update out index port
    deliver_ports midi_event update out' (index + 1) ports

  module _ {P : Type 0} (plugin : Plugin P) where
    -- A paused cycle: silence, and the messages of the UI.
    unfoldable pub process_silent :
        Cycle Ring P (Output Buffer) → ℕ → Option (ℕ × Cycle Ring P (Output Buffer))
    process_silent c nframes = do
      (status, ring, p) ← jalv_bypass zix abi lv2 c.ui_to_plugin c.process nframes
      some (
        status,
        record c {
          ui_to_plugin = ring;
          process = p;
          outputs = silence_ports jack nframes c.process.ports c.outputs;
        },
      )

    -- `midi_event` is the URID of midi:MidiEvent.
    unfoldable pub process_cb :
        ℕ → Cycle Ring P (Output Buffer) → JackCycle → Option (ℕ × Cycle Ring P (Output Buffer))
    process_cb midi_event c jc =
        if c.process.run_state == jalv_paused then process_silent c jc.nframes else (do
          let (changed, p) = process_transport floats c.process jc.rolling jc.pos jc.nframes
          ports ← prepare_ports lv2 midi_event jc changed p.ports
          (update, c') ←
              jalv_run zix abi lv2 plugin (record c { process = record p { ports = ports } })
                jc.nframes
          (p', ring, outs) ←
              deliver_ports midi_event update (c'.process, c'.plugin_to_ui, c'.outputs) 0
                c'.process.ports
          some (0, record c' { process = p'; plugin_to_ui = ring; outputs = outs }))
