-- ===== src/Jalv/Setup/Requests.antt =====
-- A state request to a plugin that jalv_open has set up.
use soundcan.Base.{ℕ, ◌^◌, ◌≡◌, ◌<◌, arith, Bool, Option, none, some, List, ◌++◌, length}
use soundcan.Base.Memory.{Memory}
use soundcan.Zix.{ZixRing}
use soundcan.Abi.{Words}
use soundcan.Lv2.{AtomLayout}
use soundcan.Jalv.Comm.{header_bytes, state_request}
use soundcan.Jalv.Process.{Process, apply_ui_events}
use soundcan.Jalv.Process.Requests.{no_control_port}
use soundcan.Jalv.Setup.{
  LilvPort, Jalv, jalv_process_init, jalv_create_ports, jalv_process_activate,
}
use soundcan.Jalv.Setup.Ports.{control_in_create_ports}
use soundcan.Jalv.Setup.Buffers.{activate_keeps}

module _ (lv2 : AtomLayout) where
  -- The calls of jalv_open: jalv_process_init, jalv_create_ports, jalv_process_activate.
  unfoldable pub set_up :
      Bool
      → Jalv
      → List LilvPort
      → List ℕ
      → ℕ
      → List ℕ
      → ℕ
      → ℕ
      → ℕ
      → ℕ
      → (ℕ → Option Memory)
      → List ℕ
      → Option Process
  set_up metadata jalv lps defaults object body update chunk sequence midi memory garbage =
      let start = record jalv { process = jalv_process_init jalv.process object body update } in
      jalv_process_activate lv2 ((jalv_create_ports metadata start lps defaults).1.process) chunk
        sequence midi memory garbage

module _ (zix : ZixRing) (abi : Words) (lv2 : AtomLayout) where
  open zix use {Ring, contents}

  -- Whatever the ports of the plugin, of which there are fewer than 2^32: once jalv_process_init,
  -- jalv_create_ports and jalv_process_activate have set the process up, a state request at the front
  -- of the ring makes apply_ui_events read a port that does not exist.
  pub set_up-state_request :
      (metadata : Bool) (jalv : Jalv) (lps : List LilvPort) (defaults : List ℕ) (object : ℕ)
      (body : List ℕ) (update chunk sequence midi : ℕ) (memory : ℕ → Option Memory)
      (garbage : List ℕ) (q : Process) (r : Ring) (nframes : ℕ) (rest : List ℕ)
      → length lps < 2 ^ 32
      → set_up lv2 metadata jalv lps defaults object body update chunk sequence midi memory garbage
        ≡ some q
      → contents r ≡ header_bytes abi state_request 0 ++ rest
      → apply_ui_events zix abi lv2 r q nframes ≡ none
  unfolding set_up jalv_process_init
  set_up-state_request metadata jalv lps defaults object body update chunk sequence midi memory
        garbage q r nframes rest h run held =
      let start = record jalv { process = jalv_process_init jalv.process object body update } in
      let made = (jalv_create_ports metadata start lps defaults).1.process in
      let (kept, same) = activate_keeps lv2 made q chunk sequence midi memory garbage run in
      let (control, ports) = control_in_create_ports metadata start lps defaults in
      no_control_port zix abi lv2 r q nframes rest (omega (arith, kept, same, control, ports)) held
