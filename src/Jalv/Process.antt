-- ===== src/Jalv/Process.antt =====
-- ATTIC/galv/golang/jalv/process.c: what the audio thread does with the messages of the UI.
pub mod Perform
pub mod Apply
pub mod Sent
pub mod Requests
use soundcan.Base.{
  ℕ, zero, suc, ◌+◌, ◌%◌, ◌^◌, ◌≡◌, Bool, true, false, Option, none, some, List, ◌++◌, length, take,
  drop, set, get_elem?, ◌&&◌, ltb, leb, ◌==◌, if◌then◌else◌,
}
use soundcan.Base.Maybe.{◌>>=◌}
use soundcan.Zix.{ZixRing}
use soundcan.Abi.{Words}
use soundcan.Lv2.{AtomLayout}
use soundcan.Jalv.Types.{ProcessPort, PortType, type_event, PortFlow, flow_input, jalv_paused}
use soundcan.Jalv.Evbuf.{Evbuf, lv2_evbuf_end, lv2_evbuf_write}
use soundcan.Jalv.Comm.{
  code_of, control_port_change, event_transfer, state_request, run_state_change, sizeof_header,
  sizeof_control_change,
}

-- `JalvProcess` less `ui_to_plugin`, the plugin and what only the setup uses. `get_type` and `get_body`
-- are those of `get_msg`, `paused` is the count of the semaphore, floats are bit patterns.
pub record Process : Type 0 where
  pub ports : List ProcessPort
  pub num_ports : ℕ
  pub controls_buf : List ℕ
  pub process_msg : List ℕ
  pub process_msg_size : ℕ
  pub get_type : ℕ
  pub get_body : List ℕ
  pub paused : ℕ
  pub run_state : ℕ
  pub control_in : ℕ
  pub pending_frames : ℕ
  pub update_frames : ℕ
  pub plugin_latency : ℕ
  pub position : ℕ
  pub bpm : ℕ
  pub rolling : Bool
  pub has_ui : Bool

-- How a round of the loop ends: an assertion fails or memory is left, the function returns 1, or it
-- goes on.
pub data Round {ℓ} (A : Type ℓ) : Type ℓ where
  aborted : Round A
  failed : A → Round A
  went_on : A → Round A

unfoldable pub is_event : PortType → Bool
is_event type_event = true
is_event _ = false

unfoldable pub is_input : PortFlow → Bool
is_input flow_input = true
is_input _ = false

module _ (lv2 : AtomLayout) where
  -- lv2_evbuf_end and lv2_evbuf_write on the buffer of a port; the result of the write is dropped.
  unfoldable pub write_to_port : Process → ℕ → ℕ → ℕ → List ℕ → Option Process
  write_to_port p index nframes type body = do
    port ← get_elem? p.ports index
    ev ← port.evbuf
    (taken, ev', offset) ← lv2_evbuf_write lv2 ev (lv2_evbuf_end lv2 ev) nframes type body
    some (record p { ports = set p.ports index (record port { evbuf = some ev' }) })

-- What a read of the message body leaves in `process_msg`.
unfoldable pub receive : Process → List ℕ → Process
receive p bytes = record p { process_msg = bytes ++ drop (length bytes) p.process_msg }

-- The assertion that an index is below num_ports, before a write of a control value: `controls_buf`
-- has a value for each port.
unfoldable pub set_control_value : Process → ℕ → ℕ → Option Process
set_control_value p index value =
    if ltb index p.num_ports
    then some (record p { controls_buf = set p.controls_buf index value })
    else none

module _ (zix : ZixRing) (abi : Words) (lv2 : AtomLayout) where
  open zix use {Ring, contents, read}
  open abi use {get_u32}

  abbrev pub go_on : Ring → Option Process → Round (Ring × Process)
  go_on ring none = aborted
  go_on ring (some p) = went_on (ring, p)

  pub apply_control_change : Ring → Process → ℕ → Round (Ring × Process)
  apply_control_change ring p size =
      if size == sizeof_control_change
      then elim (read ring sizeof_control_change) [
        | none ↦ failed (ring, p)
        | some (msg, ring') ↦
            go_on ring' (set_control_value p (get_u32 (take 4 msg)) (get_u32 (drop 4 msg)))
      ]
      else aborted

  -- The atom starts 4 bytes into the message; its body follows its size and its type.
  pub write_received : Process → ℕ → Option Process
  write_received p nframes =
      let index = get_u32 (take 4 p.process_msg) in
      let size = get_u32 (take 4 (drop 4 p.process_msg)) in
      let type = get_u32 (take 4 (drop 8 p.process_msg)) in
      if ltb index p.num_ports
      then if leb (12 + size) p.process_msg_size
        then write_to_port lv2 p index nframes type (take size (drop 12 p.process_msg))
        else none
      else none

  pub apply_event_transfer : Ring → Process → ℕ → ℕ → Round (Ring × Process)
  apply_event_transfer ring p nframes size =
      if leb size p.process_msg_size
      then elim (read ring size) [
        | none ↦ failed (ring, p)
        | some (msg, ring') ↦ go_on ring' (write_received (receive p msg) nframes)
      ]
      else aborted

  -- The assertions about the control port, and the write of `get_msg`.
  pub request_from : ProcessPort → Process → ℕ → Option Process
  request_from port p nframes =
      if is_event port.type && is_input port.flow
      then write_to_port lv2 p p.control_in nframes p.get_type p.get_body
      else none

  pub write_request : Process → ℕ → Option Process
  write_request p nframes = do port ← get_elem? p.ports p.control_in; request_from port p nframes

  -- `run_state` is set, and a pause is signalled.
  pub change_run_state : Process → ℕ → Process
  change_run_state p state =
      if state == jalv_paused
      then record p { run_state = state; paused = p.paused + 1 }
      else record p { run_state = state }

  pub apply_run_state_change : Ring → Process → ℕ → Round (Ring × Process)
  apply_run_state_change ring p size =
      if size == 4
      then elim (read ring 4) [
        | none ↦ failed (ring, p)
        | some (msg, ring') ↦ went_on (ring', change_run_state p (get_u32 msg))
      ]
      else aborted

  -- The body of the loop after the header.
  pub apply_message : Ring → Process → ℕ → ℕ → ℕ → Round (Ring × Process)
  apply_message ring p nframes type size =
      if type == code_of control_port_change
      then apply_control_change ring p size
      else if type == code_of event_transfer
      then apply_event_transfer ring p nframes size
      else if type == code_of state_request
      then go_on ring (write_request p nframes)
      else if type == code_of run_state_change
      then apply_run_state_change ring p size
      else failed (ring, p)

  -- The loop from `i`; `none` is an abort, or out of fuel.
  pub apply_from : ℕ → Ring → Process → ℕ → ℕ → ℕ → Option (ℕ × Ring × Process)
  apply_from zero ring p nframes i space = none
  apply_from (suc fuel) ring p nframes i space = elim (ltb i space) [
    | false ↦ some (0, ring, p)
    | true ↦ elim (read ring sizeof_header) [
      | none ↦ some (1, ring, p)
      | some (header, ring') ↦
          let size = get_u32 (drop 4 header) in
          elim (apply_message ring' p nframes (get_u32 (take 4 header)) size) [
            | aborted ↦ none
            | failed (r, q) ↦ some (1, r, q)
            | went_on (r, q) ↦ apply_from fuel r q nframes (i + sizeof_header + size) space
          ]
    ]
  ]

  -- A round takes 8 bytes at least, so there are fewer rounds than bytes.
  pub apply_ui_events : Ring → Process → ℕ → Option (ℕ × Ring × Process)
  apply_ui_events ring p nframes =
      apply_from (length (contents ring) + 1) ring p nframes 0 (length (contents ring))

  -- The part of jalv_run after the plugin has run: whether to update the UI.
  pub count_frames : Process → ℕ → Bool × Process
  count_frames p nframes =
      let pending = (p.pending_frames + nframes) % 2 ^ 32 in
      if p.update_frames == 0
      then (false, record p { pending_frames = pending })
      else if ltb p.update_frames pending
      then (true, record p { pending_frames = 0 })
      else (false, record p { pending_frames = pending })

  pub jalv_bypass : Ring → Process → ℕ → Option (ℕ × Ring × Process)
  jalv_bypass ring p nframes = do
    (status, ring', p') ← apply_ui_events ring p nframes
    some (0, ring', p')
