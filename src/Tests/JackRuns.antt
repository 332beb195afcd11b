-- ===== src/Tests/JackRuns.antt =====
-- A cycle of JACK.
use soundcan.Base.{
  ℕ, ◌+◌, ◌*◌, ◌/◌, ◌≡◌, ◌≤◌, refl, arith, false, true, not, none, some, Option, List, [], ◌∷◌,
  ◌++◌, length, map, set, leb, ◌==◌,
}
use soundcan.Abi.{Floats}
use soundcan.Base.{◌<◌}
use soundcan.Base.Memory.{store_bytes, load_bytes}
use soundcan.Jalv.Comm.{header_bytes, event_transfer_bytes}
use soundcan.Jalv.Comm.Sends.{encode}
use soundcan.Jack.{JackMidi, MidiEvent}
use soundcan.Jalv.Types.{ProcessPort, flow_output}
use soundcan.Jalv.Evbuf.{
  Evbuf, lv2_evbuf_reset, lv2_evbuf_begin, lv2_evbuf_get, lv2_evbuf_next, lv2_evbuf_is_valid,
  lv2_evbuf_write, lv2_evbuf_end, lv2_evbuf_get_size, size_at, room, allocated,
}
use soundcan.Jalv.Evbuf.Readback.{Event, write_all, read_from, got, total}
use soundcan.Jalv.Process.{Process, is_input}
use soundcan.Jalv.Process.Perform.{encode_all, AllMessages}
use soundcan.Jalv.JackBackend.{JackPosition, JackCycle, midi, process_transport, prepare_port}
use soundcan.Jalv.JackBackend.Transport.{process_transport_steady}
use soundcan.Jalv.JackBackend.Inputs.{arrived, incoming, midi_of_port, prepare_port-read_from}
use soundcan.Jalv.JackBackend.Callback.{deliver_buffer}
use soundcan.Jalv.JackBackend.Deliveries.{midi_out, to_ui, AllAccepted, deliver_buffer-events}
use soundcan.Jalv.JackLatency.{LatencyRange, latency_cb, port_of_mode}
use soundcan.Jalv.JackLatency.Range.{ranges_of, least, greatest, latency_cb-covers}
use soundcan.Jalv.Setup.{uint32_max}
use soundcan.Tests.Layout.{lv2}
use soundcan.Tests.Rings.{Bytes, byte_ring, words}
use soundcan.Tests.EvbufRuns.{buffer}
use soundcan.Tests.ProcessRuns.{process, keys}

-- Tempos as themselves, with a float that keeps no fraction of 10.
abbrev pub floats : Floats
floats = record {
  double_of = λ n. n;
  float_of = λ n. n / 10 * 10;
  float_of_uint = λ n. n;
  uint_of = λ n. n;
  float_le = leb;
  differs = λ a b. not (a == b);
}

abbrev position : JackPosition
position = record { frame = 100; has_bbt = true; beats_per_minute = 1203 }

process_transport_steady_example :
    (process_transport floats
      ((process_transport floats process true position 64).1)
      true
      (record position { frame = 164 })
      64).0
    ≡ true
process_transport_steady_example =
    process_transport_steady floats process true position (record position { frame = 164 }) 64 64
      refl refl refl

abbrev jack_keys : ProcessPort
jack_keys = record keys { sys_port = some 0 }

abbrev cycle : JackCycle
cycle = record {
  nframes = 64;
  rolling = true;
  pos = position;
  midi_in = λ j. record { time = 5; buffer = 0x90 ∷ 60 ∷ 100 ∷ [] } ∷ [];
  position = (3, []);
}

abbrev note : Event
note = record { frames = 5; type = 7; body = 0x90 ∷ 60 ∷ 100 ∷ [] }

note_comes : note ∷ [] ≡ incoming 7 cycle false true (midi_of_port cycle (some 0))
unfolding incoming arrived midi_of_port
note_comes = refl

prepare_port-read_from_example :
    (ev' : Evbuf) × (taken : List Event) × (prepare_port lv2 7 cycle true jack_keys
      ≡ some (record jack_keys { evbuf = some ev' }))
    × (write_all lv2 (lv2_evbuf_reset lv2 buffer true) (note ∷ []) ≡ some (ev', taken))
    × (read_from lv2 (length taken + 1) ev' (lv2_evbuf_begin lv2 ev') ≡ map got taken)
    × (total lv2 (note ∷ []) + 16 ≤ 64 → taken ≡ note ∷ [])
prepare_port-read_from_example =
    prepare_port-read_from lv2 7 cycle true jack_keys buffer (note ∷ []) refl refl refl
      (omega arith) refl (omega arith) note_comes (omega arith)

-- What the plugin leaves: a note and an event that is no MIDI.
abbrev left : List Event
left =
    record { frames = 3; type = 7; body = 0x90 ∷ 60 ∷ 100 ∷ [] }
    ∷ record { frames = 9; type = 8; body = 1 ∷ 2 ∷ [] }
    ∷ []

never_refused : (b : List MidiEvent) (e : MidiEvent) → true ≡ false → b ++ e ∷ [] ≡ b
never_refused b e h = cc h

abbrev notes : JackMidi
notes = record {
  Buffer = List MidiEvent;
  events = λ b. b;
  accepts = λ b e. true;
  clear_buffer = λ b. [];
  event_write = λ b e. b ++ e ∷ [];
  events-clear = λ b. refl;
  write_accepted = λ b e h. refl;
  write_refused = never_refused;
}

abbrev result : Option (Evbuf × List Event) → Evbuf
result none = buffer
result (some (ev, taken)) = ev

abbrev filled_buffer : Evbuf
filled_buffer = result (write_all lv2 (lv2_evbuf_reset lv2 buffer true) left)

abbrev jack_out : ProcessPort
jack_out = record jack_keys { flow = flow_output; evbuf = some filled_buffer }

reads_left : read_from lv2 3 filled_buffer (lv2_evbuf_begin lv2 filled_buffer) ≡ map got left
unfolding read_from write_all lv2_evbuf_begin lv2_evbuf_get lv2_evbuf_next lv2_evbuf_is_valid
    lv2_evbuf_write lv2_evbuf_reset lv2_evbuf_end lv2_evbuf_get_size size_at room allocated
    store_bytes load_bytes
reads_left = refl

left_size : 2 ≤ filled_buffer.size
unfolding write_all lv2_evbuf_write lv2_evbuf_reset lv2_evbuf_end lv2_evbuf_get_size room allocated
left_size = omega arith

accepted : AllAccepted notes [] (midi_out 7 left)
unfolding midi_out
accepted = (refl, tt)

told : AllMessages byte_ring words (to_ui 1 left)
unfolding to_ui
told = omega arith

told_fits : length (encode_all words (to_ui 1 left)) ≤ 100
unfolding to_ui encode_all encode header_bytes event_transfer_bytes
told_fits = omega arith

abbrev shown : Process
shown = record process { has_ui = true }

abbrev ring : Bytes
ring = record { bytes = []; room = 100 }

deliver_buffer-events_example :
    (r' : Bytes) × (b' : List MidiEvent) × (deliver_buffer byte_ring words lv2 floats notes 7 shown
        ring
        (midi [] ∷ [])
        1
        jack_out
      ≡ some (r', set (midi [] ∷ []) 0 (midi b')))
    × (b' ≡ midi_out 7 left)
    × (r'.bytes ≡ encode_all words (to_ui 1 left))
deliver_buffer-events_example =
    deliver_buffer-events byte_ring words lv2 floats notes 7 1 0 shown ring [] (midi [] ∷ [])
      jack_out filled_buffer left refl refl refl refl reads_left left_size accepted told told_fits

abbrev ranges : ℕ → LatencyRange
ranges j = record { low = 64; high = 128 }

abbrev late : Process
late = record process { ports = jack_keys ∷ []; plugin_latency = 10 }

top : greatest 0 (ranges_of true ranges (jack_keys ∷ [])) + 10 < 4294967296
unfolding ranges_of port_of_mode is_input
top = omega arith

at_port : port_of_mode true jack_keys ≡ some 0
unfolding port_of_mode is_input
at_port = refl

latency_cb-covers_example :
    ((latency_cb true ranges late).low
      ≡ least uint32_max (ranges_of true ranges (jack_keys ∷ [])) + 10)
    × ((latency_cb true ranges late).high
        ≡ greatest 0 (ranges_of true ranges (jack_keys ∷ [])) + 10)
    × ((latency_cb true ranges late).low ≤ 74)
    × (138 ≤ (latency_cb true ranges late).high)
latency_cb-covers_example =
    latency_cb-covers true ranges late 0 0 jack_keys (omega arith) top (omega arith) refl at_port
