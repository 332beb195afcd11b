-- ===== src/Jalv/State.antt =====
-- ATTIC/galv/golang/jalv/state.c: how a preset sets the value of a port.
pub mod Applied
use soundcan.Base.{
  ℕ, suc, ◌+◌, Bool, true, false, Option, none, some, List, [], ◌∷◌, set, ◌==◌, if◌then◌else◌,
}
use soundcan.CText.{Text, same_text}
use soundcan.Zix.{ZixRing}
use soundcan.Abi.{Words}
use soundcan.Jalv.Types.{jalv_running}
use soundcan.Jalv.Comm.{jalv_write_control}
use soundcan.Jalv.Process.{Process}
use soundcan.Jalv.Host.{ZixStatus, zix_success, wrote}

-- The loop of `jalv_port_by_symbol`, over the symbols of the ports from port `i` on. The index of a
-- port is its place.
unfoldable pub port_from : ℕ → List Text → Text → Option ℕ
port_from i [] sym = none
port_from i (symbol ∷ symbols) sym =
    let rest = port_from (suc i) symbols sym in if same_text symbol sym then some i else rest

abbrev pub jalv_port_by_symbol : List Text → Text → Option ℕ
jalv_port_by_symbol symbols sym = port_from 0 symbols sym

-- The URIDs of the types, and the bytes of a value of each as the bit pattern of a float.
pub record Numbers : Type 0 where
  pub float : ℕ
  pub double : ℕ
  pub int : ℕ
  pub long : ℕ
  pub of_float : List ℕ → ℕ
  pub of_double : List ℕ → ℕ
  pub of_int : List ℕ → ℕ
  pub of_long : List ℕ → ℕ

-- `fvalue`. `none` is a type that is not a number's.
unfoldable pub float_value : Numbers → ℕ → List ℕ → Option ℕ
float_value numbers type value =
    if type == numbers.float
    then some (numbers.of_float value)
    else if type == numbers.double
    then some (numbers.of_double value)
    else if type == numbers.int
    then some (numbers.of_int value)
    else if type == numbers.long
    then some (numbers.of_long value)
    else none

-- The process with its two rings.
pub record Shared (Ring : Type 0) : Type 0 where
  pub process : Process
  pub ui_to_plugin : Ring
  pub plugin_to_ui : Ring

-- What is logged: nothing, or an error.
pub data Log : Type 0 where
  missing_port bad_type : Log
  control_change : ZixStatus → Log

module _ (zix : ZixRing) (abi : Words) where
  open zix use {Ring}

  unfoldable pub set_value : Shared Ring → ℕ → ℕ → ZixStatus × Shared Ring
  set_value s index fvalue =
      if s.process.run_state == jalv_running
      then (let (st, ring) =
            wrote zix abi s.ui_to_plugin (jalv_write_control zix abi s.ui_to_plugin index fvalue) in
          (st, record s { ui_to_plugin = ring }))
      else (
        zix_success,
        record s {
          process = record (s.process) { controls_buf = set s.process.controls_buf index fvalue };
        },
      )

  -- The status of the write to the plugin is lost where there is a UI.
  unfoldable pub tell_ui : ZixStatus → Shared Ring → ℕ → ℕ → ZixStatus × Shared Ring
  tell_ui st s index fvalue =
      if s.process.has_ui
      then (let (st', ring) =
            wrote zix abi s.plugin_to_ui (jalv_write_control zix abi s.plugin_to_ui index fvalue) in
          (st', record s { plugin_to_ui = ring }))
      else (st, s)

  module _ (numbers : Numbers) (symbols : List Text) where
    -- The value for a port that is known, if it is a number.
    unfoldable pub set_number : Shared Ring → ℕ → Option ℕ → Log × Shared Ring
    set_number s index none = (bad_type, s)
    set_number s index (some fvalue) =
        let (st, s') = set_value s index fvalue in
        let (st', s'') = tell_ui st s' index fvalue in (control_change st', s'')

    unfoldable pub set_port : Shared Ring → Option ℕ → List ℕ → ℕ → Log × Shared Ring
    set_port s none value type = (missing_port, s)
    set_port s (some index) value type = set_number s index (float_value numbers type value)

    unfoldable pub set_port_value : Shared Ring → Text → List ℕ → ℕ → Log × Shared Ring
    set_port_value s port_symbol value type =
        set_port s (jalv_port_by_symbol symbols port_symbol) value type
