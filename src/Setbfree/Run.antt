-- ===== src/Setbfree/Run.antt =====
-- ATTIC/setbfree/src/plugin.c: a cycle of the plugin.
pub mod Sent
pub mod Cycles
pub mod Configuration
use soundcan.Base.{
  ℕ, zero, suc, ◌+◌, ◌-◌, Bool, true, false, Option, none, some, List, [], ◌∷◌, ◌++◌, get_elem?,
  set, ◌==◌, if◌then◌else◌,
}
use soundcan.Base.Maybe.{◌>>=◌}
use soundcan.Abi.{natural}
use soundcan.Setbfree.Midi.{
  port_control_first, port_control_send_configuration, port_control_preset,
  port_control_lower_manual_preset, port_control_upper_manual_preset, port_control_first_setting,
  port_enum_size, Parameter, FloatOps, write_midi_signal,
}

-- A round of the loop over the ports: the loop goes on, or is left.
pub data PortRound : Type 0 where
  goes_on : List Parameter → List (List ℕ) → PortRound
  breaks : List Parameter → List (List ℕ) → PortRound

module _ (floats : FloatOps) (memory : ℕ → ℕ) where
  open floats use {equal, of_int}

  -- The settings from a port on: `n` of them.
  unfoldable pub write_settings : ℕ → ℕ → List Parameter → List (List ℕ) → Option (List (List ℕ))
  write_settings zero port parameters msgs = some msgs
  write_settings (suc n) port parameters msgs = do
    msgs' ← write_midi_signal floats parameters msgs port
    write_settings n (suc port) parameters msgs'

  -- The presets, and all the settings where there is none.
  unfoldable pub or_settings : List Parameter → List (List ℕ) → Option (List (List ℕ))
  or_settings parameters [] =
      write_settings (port_enum_size - port_control_first_setting) port_control_first_setting
        parameters []
  or_settings parameters (msg ∷ msgs) = some (msg ∷ msgs)

  unfoldable pub write_configuration : List Parameter → Option (List (List ℕ))
  write_configuration parameters = do
    first ← write_midi_signal floats parameters [] port_control_preset
    second ← write_midi_signal floats parameters first port_control_lower_manual_preset
    third ← write_midi_signal floats parameters second port_control_upper_manual_preset
    or_settings parameters third

  -- A parameter that differs from its port, with `last_value` set.
  unfoldable pub changed : List Parameter → List (List ℕ) → ℕ → ℕ → Option PortRound
  changed parameters msgs port value =
      if port == port_control_send_configuration
      then (if equal value (of_int (natural 0))
          then some (goes_on parameters msgs)
          else (write_configuration parameters >>= λ msgs'. some (breaks parameters msgs')))
      else (write_midi_signal floats parameters msgs port >>= λ msgs'.
          some (goes_on parameters msgs'))

  -- `none` is a read of NULL, where the port is not connected.
  unfoldable pub visit : List Parameter → List (List ℕ) → ℕ → Option PortRound
  visit parameters msgs port = do
    parameter ← get_elem? parameters port
    address ← parameter.port
    let value = memory address
    if equal parameter.last_value value
        then some (goes_on parameters msgs)
        else changed (set parameters port (record parameter { last_value = value })) msgs port value

  -- The loop, with `n` ports left.
  unfoldable pub scan :
      ℕ → ℕ → List Parameter → List (List ℕ) → Option (List Parameter × List (List ℕ))
  scan zero port parameters msgs = some (parameters, msgs)
  scan (suc n) port parameters msgs = elim (visit parameters msgs port) [
    | none ↦ none
    | some (goes_on parameters' msgs') ↦ scan n (suc port) parameters' msgs'
    | some (breaks parameters' msgs') ↦ some (parameters', msgs')
  ]

-- lv2_atom_sequence_clear, lv2_atom_sequence_append_event and the fields of the sequences of the atom
-- ports. An event has its type and its bytes; its time is 0.
pub record Sequences : Type 1 where
  pub Seq : Type 0
  pub size : Seq → ℕ
  pub type : Seq → ℕ
  pub set_type : Seq → ℕ → Seq
  pub clear : Seq → Seq
  pub append_event : Seq → ℕ → ℕ → List ℕ → Seq

module _ (floats : FloatOps) (memory : ℕ → ℕ) (sequences : Sequences) where
  open sequences use {Seq, size, type, set_type, clear, append_event}

  abbrev append_all : ℕ → ℕ → Seq → List (List ℕ) → Seq
  append_all capacity midi_event out [] = out
  append_all capacity midi_event out (msg ∷ msgs) =
      append_all capacity midi_event (append_event out capacity midi_event msg) msgs

  -- The output is left alone where there is no message.
  unfoldable pub send_messages : ℕ → Seq → Seq → List (List ℕ) → Seq
  send_messages midi_event in_ out [] = out
  send_messages midi_event in_ out (msg ∷ msgs) =
      append_all (size out) midi_event (set_type (clear out) (type in_)) (msg ∷ msgs)

  unfoldable pub run : ℕ → List Parameter → Seq → Seq → Option (List Parameter × Seq)
  run midi_event parameters in_ out = do
    (parameters', msgs) ←
        scan floats memory (port_enum_size - port_control_first) port_control_first parameters []
    some (parameters', send_messages midi_event in_ out msgs)
