-- ===== src/Tests/HostRuns.antt =====
-- Setting up a plugin with an event input, and what its UI writes.
use soundcan.Base.{
  ℕ, ◌≡◌, ◌↔◌, ◌≤◌, refl, arith, false, true, none, some, Option, List, [], ◌∷◌, ◌++◌,
}
use soundcan.Base.Memory.{Memory}
use soundcan.Jalv.Comm.{header_bytes, state_request}
use soundcan.Jalv.Comm.Sends.{event, send}
use soundcan.Jalv.Process.{Process, apply_ui_events, write_to_port, is_event}
use soundcan.Jalv.Evbuf.{lv2_evbuf_new}
use soundcan.Jalv.Setup.{
  LilvPort, Jalv, size_of, jalv_create_ports, jalv_process_activate, create_ports_from, create_port,
  jalv_process_port_init, jalv_process_init, activate_from, activate_port, port_flow, port_type,
}
use soundcan.Jalv.Setup.{
  known_flow, known_type, stored_control_in, has_control, buf_size_of, is_output,
}
use soundcan.Jalv.Setup.Ports.{create_ports-AllUsable, AllUsable}
use soundcan.Jalv.Setup.Buffers.{activated_port_takes_events}
use soundcan.Jalv.Setup.Requests.{set_up, set_up-state_request}
use soundcan.Jalv.Worker.{err_unknown}
use soundcan.Jalv.Host.{Allocated, schedule_work, jalv_send_to_plugin, wrote}
use soundcan.Jalv.Host.Schedules.{opened, opened-schedule_work}
use soundcan.Jalv.Host.Writes.{send_to_plugin-send, buffer_of}
use soundcan.Tests.Layout.{lv2}
use soundcan.Tests.Rings.{Bytes, byte_ring, words}
use soundcan.Tests.ProcessRuns.{process, keys}
use soundcan.Tests.WorkerRuns.{echo}

abbrev pub keys_in : LilvPort
keys_in = record {
  is_input_port = true;
  is_output_port = false;
  is_control_port = false;
  is_audio_port = false;
  is_cv_port = false;
  is_atom_port = true;
  optional = false;
  minimum_size = size_of 4096;
  reports_latency = false;
  designated_latency = false;
  midi = true;
  not_on_gui = false;
}

abbrev pub jalv : Jalv
jalv = record {
  process = process;
  controls = [];
  show_hidden = false;
  ring_size = 0;
  ui_msg_size = 0;
}

create_ports-AllUsable_example :
    ((jalv_create_ports true jalv (keys_in ∷ []) (0 ∷ [])).0 ≡ 0) ↔ AllUsable true (keys_in ∷ [])
create_ports-AllUsable_example = create_ports-AllUsable true jalv (keys_in ∷ []) (0 ∷ [])

abbrev memory : ℕ → Option Memory
memory index = some (λ address. 0)

abbrev result : Option Process → Process
result none = process
result (some p) = p

abbrev made : Process
made = result (set_up lv2 true jalv (keys_in ∷ []) (0 ∷ []) 5 [] 0 1 2 1024 memory [])

sets_up : set_up lv2 true jalv (keys_in ∷ []) (0 ∷ []) 5 [] 0 1 2 1024 memory [] ≡ some made
unfolding set_up jalv_create_ports create_ports_from create_port jalv_process_port_init
    jalv_process_init jalv_process_activate activate_from activate_port port_flow port_type
    lv2_evbuf_new is_event known_flow known_type stored_control_in has_control buf_size_of is_output
sets_up = refl

abbrev requested : Bytes
requested = record { bytes = header_bytes words state_request 0 ++ []; room = 100 }

set_up-state_request_example : apply_ui_events byte_ring words lv2 requested made 64 ≡ none
set_up-state_request_example =
    set_up-state_request byte_ring words lv2 true jalv (keys_in ∷ []) (0 ∷ []) 5 [] 0 1 2 1024
      memory [] made requested 64 [] (omega arith) sets_up refl

-- The process of a plugin with a control and an event input.
abbrev activated : Process
activated = result (jalv_process_activate lv2 process 1 2 64 memory [])

activates : jalv_process_activate lv2 process 1 2 64 memory [] ≡ some activated
unfolding jalv_process_activate activate_from activate_port lv2_evbuf_new is_event
activates = refl

activated_port_takes_events_example :
    (q' : Process) × (write_to_port lv2 activated 1 3 7 (1 ∷ 2 ∷ 3 ∷ []) ≡ some q')
    × (64 ≤ activated.process_msg_size)
activated_port_takes_events_example =
    activated_port_takes_events lv2 process activated 1 2 64 memory [] 1 keys 3 7 (1 ∷ 2 ∷ 3 ∷ [])
      activates refl refl refl (omega arith)

abbrev allocated_worker : Allocated Bytes (List (List ℕ))
allocated_worker = record {
  requests = record { bytes = []; room = 4095 };
  responses = record { bytes = []; room = 4095 };
  plugin = [];
}

opened-schedule_work_example :
    let h =
      opened byte_ring words echo true true
        (some allocated_worker)
        (some allocated_worker)
        true
        true
        true in
    (schedule_work byte_ring words echo h h.sched_handle (1 ∷ []) ≡ (err_unknown, h))
    × (schedule_work byte_ring words echo h h.ssched_handle (1 ∷ []) ≡ (err_unknown, h))
opened-schedule_work_example =
    opened-schedule_work byte_ring words echo true true (some allocated_worker)
      (some allocated_worker) true true true (1 ∷ [])

abbrev ring : Bytes
ring = record { bytes = []; room = 100 }

send_to_plugin-send_example :
    jalv_send_to_plugin byte_ring words 2 9 ring 1 9
      (buffer_of byte_ring words (event 1 7 (1 ∷ 2 ∷ [])))
    ≡ wrote byte_ring words ring (send byte_ring words ring (event 1 7 (1 ∷ 2 ∷ [])))
send_to_plugin-send_example =
    send_to_plugin-send byte_ring words 2 9 ring (event 1 7 (1 ∷ 2 ∷ [])) (omega arith)
      (omega arith)
