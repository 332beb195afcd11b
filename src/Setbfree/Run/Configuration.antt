-- ===== src/Setbfree/Run/Configuration.antt =====
-- The cycle in which the configuration is asked for.
use mathlib.Core.List.{append_assoc, append-nil}
use soundcan.Base.{
  ℕ, suc, ◌+◌, ◌≡◌, ◌≤◌, refl, arith, true, false, ◌||◌, some, List, [], ◌∷◌, ◌++◌, length,
  length-append, get_elem?-append_middle, ltb,
}
use soundcan.Abi.{natural}
use soundcan.Setbfree.Midi.{Parameter, FloatOps, port_control_first_setting}
use soundcan.Setbfree.Run.{
  changed, visit, scan, Sequences, send_messages, run, write_settings, or_settings,
  write_configuration,
}
use soundcan.Setbfree.Run.Sent.{
  ready_from, is_connected, connected_some, has_convert, value_of, is_synced, messages_of,
  signal-messages_of, write_midi_signal-messages_of,
}

module _ (floats : FloatOps) where
  -- The messages of all parameters from a port on, by the values that the plugin has kept.
  abbrev pub all_messages : ℕ → List Parameter → List (List ℕ)
  all_messages port [] = []
  all_messages port (p ∷ ps) = messages_of floats port p ++ all_messages (suc port) ps

  abbrev pub presets : Parameter → Parameter → Parameter → List (List ℕ)
  presets d e f = messages_of floats 3 d ++ (messages_of floats 4 e ++ messages_of floats 5 f)

  abbrev or_all : List (List ℕ) → List Parameter → List (List ℕ)
  or_all [] settings = all_messages 7 settings
  or_all (msg ∷ msgs) settings = msg ∷ msgs

  -- The presets, and the settings where there is no preset.
  abbrev pub configuration : Parameter → Parameter → Parameter → List Parameter → List (List ℕ)
  configuration d e f settings = or_all (presets d e f) settings

  write_settings-all_messages :
      (xs ps : List Parameter) (msgs : List (List ℕ)) (port : ℕ) (memory : ℕ → ℕ)
      → port ≡ length xs
      → 3 ≤ port
      → ready_from port ps ≡ true
      → length msgs + length ps ≤ 45
      → write_settings floats memory (length ps) port (xs ++ ps) msgs
        ≡ some (msgs ++ all_messages port ps)
  unfolding write_settings
  write_settings-all_messages xs [] msgs port memory at low r small =
      ground (arith, append-nil msgs)
  write_settings-all_messages xs (p ∷ ps) msgs port memory at low r small =
      let h : (ltb port port_control_first_setting || has_convert p.convert) ≡ true =
        ground (arith, r) in
      let r' : ready_from (suc port) ps ≡ true = ground (arith, r) in
      let there = get_elem?-append_middle xs ps p port at in
      let here =
        write_midi_signal-messages_of floats (xs ++ p ∷ ps) msgs port p there low h (omega arith) in
      let (e, one) = signal-messages_of floats port p low h in
      let new = messages_of floats port p in
      let n = length-append xs (p ∷ []) in
      let m = length-append msgs new in
      let rest =
        write_settings-all_messages (xs ++ p ∷ []) ps (msgs ++ new) (suc port) memory
          (omega (arith, n)) (omega arith) r' (omega (arith, m, one)) in
      let left = append_assoc xs (p ∷ []) ps in
      let right = append_assoc msgs new (all_messages (suc port) ps) in
      ground (arith, here, rest, left, right)

  or_settings-or_all :
      (ps settings : List Parameter) (msgs : List (List ℕ)) (memory : ℕ → ℕ)
      → write_settings floats memory 38 7 ps [] ≡ some (all_messages 7 settings)
      → or_settings floats memory ps msgs ≡ some (or_all msgs settings)
  unfolding or_settings
  or_settings-or_all ps settings [] memory h = h
  or_settings-or_all ps settings (msg ∷ msgs) memory h = refl

  write_configuration-configuration :
      (a b c d e f g : Parameter) (settings : List Parameter) (memory : ℕ → ℕ)
      → length settings ≡ 38
      → ready_from 7 settings ≡ true
      → write_configuration floats memory (a ∷ b ∷ c ∷ d ∷ e ∷ f ∷ g ∷ settings)
        ≡ some (configuration d e f settings)
  unfolding write_configuration or_settings
  write_configuration-configuration a b c d e f g settings memory n r =
      let ps = a ∷ b ∷ c ∷ d ∷ e ∷ f ∷ g ∷ settings in
      let m₁ = messages_of floats 3 d in
      let m₂ = messages_of floats 4 e in
      let m₃ = messages_of floats 5 f in
      let (_, one) = signal-messages_of floats 3 d (omega arith) refl in
      let (_, two) = signal-messages_of floats 4 e (omega arith) refl in
      let first =
        write_midi_signal-messages_of floats ps [] 3 d refl (omega arith) refl (omega arith) in
      let second =
        write_midi_signal-messages_of floats ps m₁ 4 e refl (omega arith) refl
          (omega (arith, one)) in
      let third =
        write_midi_signal-messages_of floats ps (m₁ ++ m₂) 5 f refl (omega arith) refl
          (omega (arith, length-append m₁ m₂, one, two)) in
      let all =
        write_settings-all_messages (a ∷ b ∷ c ∷ d ∷ e ∷ f ∷ g ∷ []) settings [] 7 memory refl
          (omega arith) r (omega (arith, n)) in
      let join = append_assoc m₁ m₂ m₃ in
      let chosen =
        or_settings-or_all ps settings (m₁ ++ (m₂ ++ m₃)) memory (ground (arith, all, n)) in
      ground (arith, first, second, third, join, chosen)

-- Where the configuration is asked for, the cycle ends, sends the presets by the values that the plugin
-- has kept, or all the settings where no preset is set, and brings no other parameter to the value of
-- its port. All ports are connected, there are 45 parameters, and each setting has its function.
pub run-configuration :
    (floats : FloatOps) (memory : ℕ → ℕ) (sequences : Sequences) (midi_event : ℕ)
    (a b c d e f g : Parameter) (settings : List Parameter) (in_ out : sequences.Seq)
    → length settings ≡ 38
    → ready_from 2 (c ∷ d ∷ e ∷ f ∷ g ∷ settings) ≡ true
    → is_synced floats memory c ≡ false
    → floats.equal (value_of floats memory c) (floats.of_int (natural 0)) ≡ false
    → run floats memory sequences midi_event (a ∷ b ∷ c ∷ d ∷ e ∷ f ∷ g ∷ settings) in_ out
      ≡ some (
        a ∷ b ∷ record c { last_value = value_of floats memory c } ∷ d ∷ e ∷ f ∷ g ∷ settings,
        send_messages floats memory sequences midi_event in_ out
            (configuration floats d e f settings),
      )
unfolding run scan visit changed
run-configuration floats memory sequences midi_event a b c d e f g settings in_ out n r differs
      asked =
    let c' = record c { last_value = value_of floats memory c } in
    let r' : ready_from 7 settings ≡ true = ground (arith, r) in
    let connected : is_connected c.port ≡ true = ground (arith, r) in
    let (address, pa) = connected_some c.port connected in
    let sent = write_configuration-configuration floats a b c' d e f g settings memory n r' in
    ground (arith, pa, differs, asked, sent)
