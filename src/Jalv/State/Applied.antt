-- ===== src/Jalv/State/Applied.antt =====
-- A preset that is loaded while the plugin runs, and while it is paused.
use soundcan.Base.{
  ℕ, ◌≡◌, ◌≤◌, ◌<◌, ◌^◌, refl, arith, some, List, [], ◌∷◌, ◌++◌, length, set, length-append,
}
use soundcan.CText.{Text}
use soundcan.Zix.{ZixRing}
use soundcan.Abi.{Words}
use soundcan.Lv2.{AtomLayout}
use soundcan.Jalv.Types.{jalv_paused, jalv_running}
use soundcan.Jalv.Comm.{jalv_write_control, header_bytes, control_change_bytes, control_port_change}
use soundcan.Jalv.Host.{ZixStatus, wrote}
use soundcan.Jalv.Comm.Sends.{
  control, send, encode, length-header_bytes, length-control_change_bytes,
}
use soundcan.Jalv.Process.{Process, apply_ui_events, set_control_value}
use soundcan.Jalv.Process.Perform.{perform, perform_all, encode_all}
use soundcan.Jalv.Process.Sent.{send_all, sent_messages_applied}
use soundcan.Jalv.State.{
  Numbers, Shared, jalv_port_by_symbol, float_value, set_value, tell_ui, set_number, set_port,
  set_port_value,
}

-- The same with the plugin paused.
abbrev pub pause_of : {A : Type 0} → Shared A → Shared A
pause_of s = record s { process = record (s.process) { run_state = jalv_paused } }

module _ (zix : ZixRing) (abi : Words) where
  open zix use {Ring}

  -- The parts of `set_value` and of `tell_ui` that the theorem is about.
  set_value_paused :
      (s : Shared Ring) (i v : ℕ)
      → (set_value zix abi (pause_of s) i v).1.process.controls_buf ≡ set s.process.controls_buf i v
  unfolding set_value
  set_value_paused s i v = refl

  set_value_running :
      (s : Shared Ring) (i v : ℕ) (r : Ring)
      → s.process.run_state ≡ jalv_running
      → jalv_write_control zix abi s.ui_to_plugin i v ≡ some r
      → (set_value zix abi s i v).1 ≡ record s { ui_to_plugin = r }
  unfolding set_value wrote
  set_value_running s i v r h w = ground (arith, h, w)

  tell_ui_keeps :
      (st : ZixStatus) (s : Shared Ring) (i v : ℕ)
      → ((tell_ui zix abi st s i v).1.process ≡ s.process)
        × ((tell_ui zix abi st s i v).1.ui_to_plugin ≡ s.ui_to_plugin)
  unfolding tell_ui
  tell_ui_keeps st s i v = (ground arith, ground arith)

length-one : (abi : Words) (i v : ℕ) → length (encode_all abi (control i v ∷ [])) ≡ 16
unfolding encode_all encode
length-one abi i v = omega (
  arith,
  length-append (header_bytes abi control_port_change 8 ++ control_change_bytes abi i v) [],
  length-append (header_bytes abi control_port_change 8) (control_change_bytes abi i v),
  length-header_bytes abi control_port_change 8,
  length-control_change_bytes abi i v,
)

perform_one :
    (abi : Words) (lv2 : AtomLayout) (p : Process) (nframes i v : ℕ)
    → i < p.num_ports
    → perform_all abi lv2 p nframes (control i v ∷ [])
      ≡ some (record p { controls_buf = set p.controls_buf i v })
unfolding perform_all perform set_control_value
perform_one abi lv2 p nframes i v inside = ground arith

send_one :
    (zix : ZixRing) (abi : Words) (r r' : zix.Ring) (i v : ℕ)
    → send_all zix abi r (control i v ∷ []) ≡ some r'
    → jalv_write_control zix abi r i v ≡ some r'
unfolding send_all send
send_one zix abi r r' i v h = ground (arith, h)

-- A preset that sets a port of the plugin to a number while the plugin runs leaves the process as it
-- is, and what apply_ui_events makes of the message are the values that the preset sets at once while
-- the plugin is paused. The ring was empty and has space for the message of 16 bytes, and the numbers
-- are 32 bit words.
pub set_port_value-apply_ui_events :
    (zix : ZixRing) (abi : Words) (lv2 : AtomLayout) (numbers : Numbers) (symbols : List Text)
    (s : Shared zix.Ring) (port_symbol : Text) (value : List ℕ) (type i v nframes : ℕ)
    → jalv_port_by_symbol symbols port_symbol ≡ some i
    → float_value numbers type value ≡ some v
    → s.process.run_state ≡ jalv_running
    → i < s.process.num_ports
    → i < 2 ^ 32
    → v < 2 ^ 32
    → zix.contents s.ui_to_plugin ≡ []
    → 16 ≤ zix.space s.ui_to_plugin
    → ((set_port_value zix abi numbers symbols s port_symbol value type).1.process ≡ s.process)
      × (r : zix.Ring) × (apply_ui_events zix abi lv2
            (set_port_value zix abi numbers symbols s port_symbol value type).1.ui_to_plugin
            s.process
            nframes
          ≡ some (
            0,
            r,
            record (s.process) {
              controls_buf =
                  (set_port_value zix abi numbers symbols
                    (pause_of s)
                    port_symbol
                    value
                    type).1.process.controls_buf;
            },
          ))
      × (zix.contents r ≡ [])
unfolding set_port_value set_port set_number
set_port_value-apply_ui_events zix abi lv2 numbers symbols s port_symbol value type i v nframes
      found number runs inside i32 v32 empty fits =
    let after = record (s.process) { controls_buf = set s.process.controls_buf i v } in
    let (r₁, r₂, sent, run, left) =
      sent_messages_applied zix abi lv2 s.ui_to_plugin s.process after nframes (control i v ∷ [])
        ((i32, v32), tt) empty (omega (arith, length-one abi i v))
        (perform_one abi lv2 s.process nframes i v inside) in
    let written = send_one zix abi s.ui_to_plugin r₁ i v sent in
    let now = set_value_running zix abi s i v r₁ runs written in
    let kept = tell_ui_keeps zix abi (set_value zix abi s i v).0 (set_value zix abi s i v).1 i v in
    let p = pause_of s in
    let held = tell_ui_keeps zix abi (set_value zix abi p i v).0 (set_value zix abi p i v).1 i v in
    let paused = set_value_paused zix abi s i v in
    (
      ground (arith, found, number, kept, now),
      r₂,
      ground (arith, found, number, kept, now, held, paused, run),
      left,
    )
