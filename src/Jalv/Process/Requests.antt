-- ===== src/Jalv/Process/Requests.antt =====
-- A state request without a control port.
use soundcan.Base.{
  ℕ, ◌≡◌, ◌≤◌, sym, ap, arith, none, List, ◌++◌, length, get_elem?_out, length-append,
}
use soundcan.Zix.{ZixRing}
use soundcan.Zix.Front.{read_front}
use soundcan.Abi.{Words}
use soundcan.Lv2.{AtomLayout}
use soundcan.Jalv.Comm.{header_bytes, state_request}
use soundcan.Jalv.Comm.Parts.{header_parts}
use soundcan.Jalv.Comm.Sends.{length-header_bytes}
use soundcan.Jalv.Process.{Process, write_request, apply_message, apply_from, apply_ui_events}

module _ (zix : ZixRing) (abi : Words) (lv2 : AtomLayout) where
  open zix use {Ring, contents}

  -- A state request reads the port at `control_in`: where there is none, the call does not return.
  pub no_control_port :
      (r : Ring) (p : Process) (nframes : ℕ) (rest : List ℕ)
      → length p.ports ≤ p.control_in
      → contents r ≡ header_bytes abi state_request 0 ++ rest
      → apply_ui_events zix abi lv2 r p nframes ≡ none
  unfolding apply_ui_events apply_from apply_message write_request
  no_control_port r p nframes rest h held =
      let header = header_bytes abi state_request 0 in
      let eight = length-header_bytes abi state_request 0 in
      let (r₁, run, left) = read_front zix r header rest 8 (sym eight) held in
      let (t, s) = header_parts abi state_request 0 (omega arith) in
      let out = get_elem?_out p.ports p.control_in h in
      let some_space : 8 ≤ length (contents r) =
        omega (arith, ap length held, length-append header rest, eight) in
      ground (arith, run, t, s, out, some_space)
