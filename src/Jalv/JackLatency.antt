-- ===== src/Jalv/JackLatency.antt =====
-- ATTIC/galv/golang/jalv/jack.c: latency_cb, the name of the client, and buffer_size_cb.
pub mod Range
use soundcan.Base.{
  ℕ, ◌+◌, ◌-◌, ◌%◌, ◌^◌, Bool, true, false, Option, none, some, List, [], ◌∷◌, length, take, ◌&&◌,
  ◌==◌, ltb, leb, if◌then◌else◌,
}
use soundcan.Base.Memory.{Memory}
use soundcan.Lv2.{AtomLayout}
use soundcan.CText.{Text}
use soundcan.Jalv.Types.{ProcessPort, PortFlow, flow_input, flow_output, jalv_running}
use soundcan.Jalv.Process.{Process, is_input}
use soundcan.Jalv.Setup.{is_output, jalv_process_activate, uint32_max}

-- `jack_latency_range_t`
pub record LatencyRange : Type 0 where
  pub low : ℕ
  pub high : ℕ

-- The port of JACK of a port with the flow of the mode: capture is for inputs.
unfoldable pub port_of_mode : Bool → ProcessPort → Option ℕ
port_of_mode capture port =
    if (if capture then is_input port.flow else is_output port.flow) then port.sys_port else none

unfoldable pub widen : LatencyRange → LatencyRange → LatencyRange
widen range r = record {
  low = if ltb r.low range.low then r.low else range.low;
  high = if ltb range.high r.high then r.high else range.high;
}

-- The number of ports, and the range of all of them; `ranges` has that of each port of JACK.
unfoldable pub gather_ranges :
    Bool → (ℕ → LatencyRange) → List ProcessPort → ℕ → LatencyRange → ℕ × LatencyRange
gather_ranges capture ranges [] found range = (found, range)
gather_ranges capture ranges (port ∷ ports) found range = elim (port_of_mode capture port) [
  | none ↦ gather_ranges capture ranges ports found range
  | some j ↦ gather_ranges capture ranges ports ((found + 1) % 2 ^ 32) (widen range (ranges j))
]

-- The range that is set for each port of the mode.
unfoldable pub latency_cb : Bool → (ℕ → LatencyRange) → Process → LatencyRange
latency_cb capture ranges p =
    let (found, range) =
      gather_ranges capture ranges p.ports 0 (record { low = uint32_max; high = 0 }) in
    record {
      low = ((if found == 0 then 0 else range.low) + p.plugin_latency) % 2 ^ 32;
      high = (range.high + p.plugin_latency) % 2 ^ 32;
    }

-- The name for jack_client_open; `limit` is jack_client_name_size(), which is from 1 on.
unfoldable pub client_name : ℕ → Text → Text
client_name limit name = if leb (limit - 1) (length name) then take (limit - 1) name else name

module _ (lv2 : AtomLayout) where
  -- The buffers are made anew for a process that runs.
  unfoldable pub buffer_size_cb :
      Process → ℕ → ℕ → ℕ → (ℕ → Option Memory) → List ℕ → Option Process
  buffer_size_cb p chunk sequence midi_buf_size memory garbage =
      if p.run_state == jalv_running
      then jalv_process_activate lv2 p chunk sequence midi_buf_size memory garbage
      else some p
