-- ===== src/Tests/ProcessRuns.antt =====
-- Messages from the UI to the audio thread.
use soundcan.Base.{◌≡◌, ◌≤◌, refl, arith, false, true, none, some, Option, List, [], ◌∷◌, length}
use soundcan.Jalv.Types.{ProcessPort, type_event, type_control, flow_input}
use soundcan.Jalv.Evbuf.{lv2_evbuf_write, lv2_evbuf_end, lv2_evbuf_get_size, room, allocated}
use soundcan.Jalv.Comm.{event_transfer_bytes, control_change_bytes, header_bytes}
use soundcan.Jalv.Comm.Sends.{Message, control, event, encode}
use soundcan.Jalv.Process.{Process, apply_ui_events, set_control_value, write_to_port, receive}
use soundcan.Jalv.Process.Perform.{perform, perform_all, encode_all}
use soundcan.Jalv.Process.Sent.{send_all, sent_messages_applied}
use soundcan.Tests.Layout.{lv2}
use soundcan.Tests.Rings.{Bytes, byte_ring, words}
use soundcan.Tests.EvbufRuns.{buffer}

abbrev knob : ProcessPort
knob = record {
  type = type_control;
  flow = flow_input;
  sys_port = none;
  evbuf = none;
  buf_size = 0;
  reports_latency = false;
  is_primary = false;
  supports_midi = false;
}

abbrev pub keys : ProcessPort
keys = record {
  type = type_event;
  flow = flow_input;
  sys_port = none;
  evbuf = some buffer;
  buf_size = 64;
  reports_latency = false;
  is_primary = false;
  supports_midi = true;
}

abbrev pub process : Process
process = record {
  ports = knob ∷ keys ∷ [];
  num_ports = 2;
  controls_buf = 0 ∷ 0 ∷ [];
  process_msg = 0 ∷ 0 ∷ [];
  process_msg_size = 1024;
  get_type = 5;
  get_body = [];
  paused = 0;
  run_state = 1;
  control_in = 1;
  pending_frames = 0;
  update_frames = 0;
  plugin_latency = 0;
  position = 0;
  bpm = 0;
  rolling = false;
  has_ui = false;
}

abbrev messages : List Message
messages = control 0 77 ∷ event 1 9 (1 ∷ 2 ∷ 3 ∷ []) ∷ control 1 78 ∷ []

abbrev result : Option Process → Process
result none = process
result (some p) = p

abbrev after : Process
after = result (perform_all words lv2 process 4 messages)

performs : perform_all words lv2 process 4 messages ≡ some after
unfolding perform_all perform set_control_value write_to_port receive lv2_evbuf_write room allocated
    lv2_evbuf_end lv2_evbuf_get_size event_transfer_bytes
performs = refl

abbrev pub empty_ring : Bytes
empty_ring = record { bytes = []; room = 100 }

messages_fit : length (encode_all words messages) ≤ 100
unfolding encode_all encode event_transfer_bytes control_change_bytes header_bytes
messages_fit = omega arith

sent_messages_applied_example :
    (r₁ : Bytes) × (r₂ : Bytes) × (send_all byte_ring words empty_ring messages ≡ some r₁)
    × (apply_ui_events byte_ring words lv2 r₁ process 4 ≡ some (0, r₂, after))
    × (r₂.bytes ≡ [])
sent_messages_applied_example =
    sent_messages_applied byte_ring words lv2 empty_ring process after 4 messages (omega arith) refl
      messages_fit performs
