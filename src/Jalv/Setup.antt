-- ===== src/Jalv/Setup.antt =====
-- ATTIC/galv/golang/jalv/process_setup.c, and the ports of jalv.c: what jalv_open makes of a plugin's
-- ports before the audio thread runs.
pub mod Ports
pub mod Buffers
pub mod Requests
pub mod Sizes
use soundcan.Base.{
  ℕ, zero, suc, ◌+◌, ◌*◌, ◌%◌, ◌^◌, Bool, true, false, not, Option, none, some, List, [], ◌∷◌, ◌++◌,
  length, set, max, ◌&&◌, ◌||◌, ◌==◌, if◌then◌else◌,
}
use soundcan.Jalv.Types.{
  ProcessPort, PortType, type_unknown, type_control, type_audio, type_event, type_cv, PortFlow,
  flow_unknown, flow_input, flow_output, jalv_paused,
}
use soundcan.Base.Memory.{Memory}
use soundcan.Base.Maybe.{◌>>=◌}
use soundcan.Lv2.{AtomLayout}
use soundcan.Jalv.Evbuf.{Evbuf, lv2_evbuf_new, lv2_evbuf_reset}
use soundcan.Jalv.Process.{Process, is_event, is_input}

-- The value of rsz:minimumSize, if the port has one: no integer, an integer below 0, or from 0 on.
pub data MinimumSize : Type 0 where
  absent no_integer below_zero : MinimumSize
  size_of : ℕ → MinimumSize

-- What lilv answers about a port.
pub record LilvPort : Type 0 where
  pub is_input_port : Bool
  pub is_output_port : Bool
  pub is_control_port : Bool
  pub is_audio_port : Bool
  pub is_cv_port : Bool
  pub is_atom_port : Bool
  pub optional : Bool
  pub minimum_size : MinimumSize
  pub reports_latency : Bool
  pub designated_latency : Bool
  pub midi : Bool
  pub not_on_gui : Bool

unfoldable pub is_output : PortFlow → Bool
is_output flow_output = true
is_output _ = false

unfoldable pub is_control : PortType → Bool
is_control type_control = true
is_control _ = false

unfoldable pub known_flow : PortFlow → Bool
known_flow flow_unknown = false
known_flow _ = true

unfoldable pub known_type : PortType → Bool
known_type type_unknown = false
known_type _ = true

unfoldable pub port_flow : LilvPort → PortFlow
port_flow lp =
    if lp.is_input_port then flow_input else if lp.is_output_port then flow_output else flow_unknown

-- `metadata` is USE_JACK_METADATA.
unfoldable pub port_type : Bool → LilvPort → PortType
port_type metadata lp =
    if lp.is_control_port
    then type_control
    else if lp.is_audio_port
    then type_audio
    else if metadata && lp.is_cv_port
    then type_cv
    else if lp.is_atom_port
    then type_event
    else type_unknown

unfoldable pub buf_size_of : MinimumSize → ℕ
buf_size_of (size_of n) = n
buf_size_of _ = 0

-- The status, and the port; an early return leaves the rest of the port as it was.
unfoldable pub jalv_process_port_init : Bool → LilvPort → ProcessPort → ℕ × ProcessPort
jalv_process_port_init metadata lp port =
    let started = record port {
      type = type_unknown;
      flow = port_flow lp;
      sys_port = none;
      evbuf = none;
      buf_size = 0;
      reports_latency = false;
    } in
    let typed = record started { type = port_type metadata lp } in
    if not (known_flow (port_flow lp)) && not lp.optional
    then (1, started)
    else if not (known_type (port_type metadata lp)) && not lp.optional
    then (1, typed)
    else (
      0,
      record typed {
        buf_size = buf_size_of lp.minimum_size;
        reports_latency =
            is_output (port_flow lp)
            && is_control (port_type metadata lp)
            && (lp.reports_latency || lp.designated_latency);
        supports_midi = lp.midi;
      },
    )

abbrev pub uint32_max : ℕ
uint32_max = 4294967295

-- 120.0f
abbrev pub float_120 : ℕ
float_120 = 1123024896

-- `object` and `body` are the type and the body of a patch:Get message, `p` what memory holds.
unfoldable pub jalv_process_init : Process → ℕ → List ℕ → ℕ → Process
jalv_process_init p object body update_frames = record p {
  get_type = object;
  get_body = body;
  ports = [];
  process_msg_size = 1024;
  process_msg = [];
  run_state = jalv_paused;
  control_in = uint32_max;
  num_ports = 0;
  pending_frames = 0;
  update_frames = update_frames;
  position = 0;
  bpm = float_120;
  rolling = false;
  has_ui = false;
  paused = 0;
}

-- The parts of `struct JalvImpl` that create_port reads and writes. The ports that have a control are
-- those for which add_control was called with new_port_control.
pub record Jalv : Type 0 where
  pub process : Process
  pub controls : List ℕ
  pub show_hidden : Bool
  pub ring_size : ℕ
  pub ui_msg_size : ℕ

unfoldable pub has_control : Jalv → LilvPort → Bool
has_control jalv lp = lp.is_control_port && not (not jalv.show_hidden && lp.not_on_gui)

-- The designated control input.
unfoldable pub stored_control_in : ℕ → ProcessPort → ℕ → ℕ
stored_control_in control_in port index =
    if (control_in == uint32_max) && port.is_primary && is_input port.flow && is_event port.type
    then index
    else control_in

-- `port` is what calloc left at the index.
unfoldable pub create_port : Bool → Jalv → LilvPort → ProcessPort → ℕ → ℕ × Jalv
create_port metadata jalv lp port index =
    let (status, made) = jalv_process_port_init metadata lp port in
    let p = jalv.process in
    let stored = record p { ports = set p.ports index made } in
    if status == 1 then (1, record jalv { process = stored }) else (
      0,
      record jalv {
        process = record stored { control_in = stored_control_in p.control_in made index };
        controls = if has_control jalv lp then jalv.controls ++ index ∷ [] else jalv.controls;
        ring_size = max jalv.ring_size ((made.buf_size * 16) % 2 ^ 32);
        ui_msg_size =
            if is_output made.flow then max jalv.ui_msg_size made.buf_size else jalv.ui_msg_size;
      },
    )

-- What calloc leaves.
abbrev pub zero_port : ProcessPort
zero_port = record {
  type = type_unknown;
  flow = flow_unknown;
  sys_port = none;
  evbuf = none;
  buf_size = 0;
  reports_latency = false;
  is_primary = false;
  supports_midi = false;
}

abbrev pub calloc {ℓ} : {A : Type ℓ} → ℕ → A → List A
calloc zero x = []
calloc (suc n) x = x ∷ calloc n x

-- The loop of jalv_create_ports, from `index` on.
unfoldable pub create_ports_from : Bool → Jalv → List LilvPort → ℕ → ℕ × Jalv
create_ports_from metadata jalv [] index = (0, jalv)
create_ports_from metadata jalv (lp ∷ lps) index =
    let (status, next) = create_port metadata jalv lp zero_port index in
    let rest = create_ports_from metadata next lps (index + 1) in
    if status == 1 then (1, next) else rest

-- `defaults` are the values that lilv_plugin_get_port_ranges_float gives.
unfoldable pub jalv_create_ports : Bool → Jalv → List LilvPort → List ℕ → ℕ × Jalv
jalv_create_ports metadata jalv lps defaults =
    let n = length lps in
    let p = jalv.process in
    create_ports_from metadata
      (record jalv {
        process = record p { num_ports = n; ports = calloc n zero_port; controls_buf = defaults };
      })
      lps 0

-- The largest message for the ports.
unfoldable pub message_size : ℕ → List ProcessPort → ℕ
message_size size [] = size
message_size size (port ∷ ports) =
    message_size (if is_event port.type && is_input port.flow then max size port.buf_size else size)
      ports

module _ (lv2 : AtomLayout) where
  -- The buffer of an event port: `none` is a failed allocation, whose null pointer lv2_evbuf_reset
  -- then reads.
  unfoldable pub activate_port : ℕ → ℕ → ℕ → Option Memory → ProcessPort → Option ProcessPort
  activate_port chunk sequence midi_buf_size memory port =
      if is_event port.type
      then (let size = if port.buf_size == 0 then midi_buf_size else port.buf_size in
          elim (lv2_evbuf_new lv2 memory (size % 2 ^ 32) chunk sequence) [
            | none ↦ none
            | some ev ↦
                some (record port { evbuf = some (lv2_evbuf_reset lv2 ev (is_input port.flow)) })
          ])
      else some port

  -- The loop over the ports from `index` on; `memory` gives the allocations.
  unfoldable pub activate_from :
      ℕ → ℕ → ℕ → (ℕ → Option Memory) → List ProcessPort → ℕ → Option (List ProcessPort)
  activate_from chunk sequence midi_buf_size memory [] index = some []
  activate_from chunk sequence midi_buf_size memory (port ∷ ports) index = do
    first ← activate_port chunk sequence midi_buf_size (memory index) port
    rest ← activate_from chunk sequence midi_buf_size memory ports (index + 1)
    some (first ∷ rest)

  -- `garbage` is what the new message buffer holds.
  unfoldable pub jalv_process_activate :
      Process → ℕ → ℕ → ℕ → (ℕ → Option Memory) → List ℕ → Option Process
  jalv_process_activate p chunk sequence midi_buf_size memory garbage = do
    ports ← activate_from chunk sequence midi_buf_size memory p.ports 0
    some (record p {
      ports = ports;
      process_msg_size = message_size p.process_msg_size p.ports;
      process_msg = garbage;
    })

-- The ports lose their buffers.
unfoldable pub drop_buffers : List ProcessPort → List ProcessPort
drop_buffers [] = []
drop_buffers (port ∷ ports) = record port { evbuf = none } ∷ drop_buffers ports

pub jalv_process_deactivate : Process → Process
jalv_process_deactivate p = record p { process_msg = []; ports = drop_buffers p.ports }
