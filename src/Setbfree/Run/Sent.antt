-- ===== src/Setbfree/Run/Sent.antt =====
-- What a cycle of the plugin sends.
use mathlib.Core.List.{append_assoc, append-nil}
use soundcan.Base.{
  ℕ, suc, ◌+◌, ◌≡◌, ◌≤◌, ◌<◌, refl, arith, inl, inr, dec_lt, Bool, true, false, ◌&&◌, ◌||◌, Option,
  none, some, List, [], ◌∷◌, ◌++◌, map, length, length-append, get_elem?, ltb,
  get_elem?-append_middle, set-append_middle, Bool-cases, if◌then◌else◌,
}
use soundcan.Setbfree.Midi.{
  port_control_first_setting, Convert, no_convert, convert_8to0, convert_linear, convert_0to1,
  convert_0to2, convert_0to5, Parameter, FloatOps, convert_byte, signal, push, write_midi_signal,
}
use soundcan.Setbfree.Run.{goes_on, changed, visit, scan}

abbrev pub has_convert : Convert → Bool
has_convert no_convert = false
has_convert _ = true

abbrev pub is_connected : Option ℕ → Bool
is_connected none = false
is_connected (some address) = true

pub connected_some : (port : Option ℕ) → is_connected port ≡ true → (a : ℕ) × (port ≡ some a)
connected_some none h = absurd (ground arith)
connected_some (some a) h = (a, refl)

-- Each parameter from a port on is connected, and each setting has its function.
abbrev pub ready_from : ℕ → List Parameter → Bool
ready_from port [] = true
ready_from port (p ∷ ps) =
    (is_connected p.port && (ltb port port_control_first_setting || has_convert p.convert))
    && ready_from (suc port) ps

module _ (floats : FloatOps) where
  open floats use {equal, of_int}

  -- The messages of a port, one or none.
  abbrev pub messages_of : ℕ → Parameter → List (List ℕ)
  messages_of port p = elim (signal floats port p) [ none ↦ [] | some msgs ↦ msgs ]

  convert_byte-some :
      (k : Convert) (c : ℕ)
      → has_convert k ≡ true
      → (byte : ℕ) × (convert_byte floats k c ≡ some byte)
  unfolding convert_byte
  convert_byte-some no_convert c h = absurd (ground arith)
  convert_byte-some convert_8to0 c h = (_, refl)
  convert_byte-some convert_linear c h = (_, refl)
  convert_byte-some convert_0to1 c h = (_, refl)
  convert_byte-some convert_0to2 c h = (_, refl)
  convert_byte-some convert_0to5 c h = (_, refl)

  pub signal-messages_of :
      (port : ℕ) (p : Parameter)
      → 3 ≤ port
      → (ltb port port_control_first_setting || has_convert p.convert) ≡ true
      → (signal floats port p ≡ some (messages_of port p)) × (length (messages_of port p) ≤ 1)
  unfolding signal
  signal-messages_of port p low h = elim (dec_lt port 7) [
    | yes q ↦ (ground arith, ground arith)
    | no q ↦
        let (byte, e) = convert_byte-some p.convert p.last_value (ground arith) in
        (ground (arith, e), ground (arith, e))
  ]

  pub write_midi_signal-messages_of :
      (ps : List Parameter) (msgs : List (List ℕ)) (port : ℕ) (p : Parameter)
      → get_elem? ps port ≡ some p
      → 3 ≤ port
      → (ltb port port_control_first_setting || has_convert p.convert) ≡ true
      → length msgs < 45
      → write_midi_signal floats ps msgs port ≡ some (msgs ++ messages_of port p)
  unfolding write_midi_signal push
  write_midi_signal-messages_of ps msgs port p there low h small =
      let (e, one) = signal-messages_of port p low h in ground (arith, there, e, one)

module _ (floats : FloatOps) (memory : ℕ → ℕ) where
  open floats use {equal, of_int}

  -- The value at a port.
  abbrev pub value_at : Option ℕ → ℕ
  value_at none = 0
  value_at (some address) = memory address

  abbrev pub value_of : Parameter → ℕ
  value_of p = value_at p.port

  abbrev pub is_synced : Parameter → Bool
  is_synced p = equal p.last_value (value_of p)

  -- A parameter after its port was looked at.
  abbrev pub synced : Parameter → Parameter
  synced p = if is_synced p then p else record p { last_value = value_of p }

  -- The messages that the ports from `port` on give rise to: those of the parameters that differ.
  abbrev pub differences : ℕ → List Parameter → List (List ℕ)
  differences port [] = []
  differences port (p ∷ ps) =
      (if is_synced p then [] else messages_of floats port (record p { last_value = value_of p }))
      ++ differences (suc port) ps

  visit-synced :
      (xs ps : List Parameter) (p : Parameter) (msgs : List (List ℕ)) (port : ℕ)
      → port ≡ length xs
      → 3 ≤ port
      → is_connected p.port ≡ true
      → (ltb port port_control_first_setting || has_convert p.convert) ≡ true
      → length msgs < 45
      → visit floats memory (xs ++ p ∷ ps) msgs port
        ≡ some (
            goes_on (xs ++ synced p ∷ ps) (
              msgs
              ++ (if is_synced p
                  then []
                  else messages_of floats port (record p { last_value = value_of p }))))
  unfolding visit changed
  visit-synced xs ps p msgs port at low c h small =
      let there = get_elem?-append_middle xs ps p port at in
      let p' = record p { last_value = value_of p } in
      let stored = set-append_middle xs ps p p' port at in
      let there' = get_elem?-append_middle xs ps p' port at in
      let sent =
        write_midi_signal-messages_of floats (xs ++ p' ∷ ps) msgs port p' there' low h small in
      let (a, pa) = connected_some p.port c in
      elim (Bool-cases (is_synced p)) [
        | inl e ↦ ground (arith, there, e, pa, append-nil msgs)
        | inr e ↦ ground (arith, there, e, pa, stored, sent)
      ]

  length-new :
      (port : ℕ) (p : Parameter)
      → 3 ≤ port
      → (ltb port port_control_first_setting || has_convert p.convert) ≡ true
      → length (
          if is_synced p
          then []
          else messages_of floats port (record p { last_value = value_of p }))
        ≤ 1
  length-new port p low h =
      let (e, one) = signal-messages_of floats port (record p { last_value = value_of p }) low h in
      elim (Bool-cases (is_synced p)) [ inl b ↦ ground arith | inr b ↦ ground (arith, one) ]

  pub scan-differences :
      (xs ps : List Parameter) (msgs : List (List ℕ)) (port : ℕ)
      → port ≡ length xs
      → 3 ≤ port
      → ready_from port ps ≡ true
      → length msgs + length ps ≤ 45
      → scan floats memory (length ps) port (xs ++ ps) msgs
        ≡ some (xs ++ map synced ps, msgs ++ differences port ps)
  unfolding scan
  scan-differences xs [] msgs port at low r small = ground (arith, append-nil xs, append-nil msgs)
  scan-differences xs (p ∷ ps) msgs port at low r small =
      let c : is_connected p.port ≡ true = ground (arith, r) in
      let h : (ltb port port_control_first_setting || has_convert p.convert) ≡ true =
        ground (arith, r) in
      let r' : ready_from (suc port) ps ≡ true = ground (arith, r) in
      let here = visit-synced xs ps p msgs port at low c h (omega arith) in
      let new =
        if is_synced p
        then []
        else messages_of floats port (record p { last_value = value_of p }) in
      let one = length-new port p low h in
      let n = length-append xs (synced p ∷ []) in
      let m = length-append msgs new in
      let rest =
        scan-differences (xs ++ synced p ∷ []) ps (msgs ++ new) (suc port) (omega (arith, n))
          (omega arith) r' (omega (arith, m, one)) in
      let left = append_assoc xs (synced p ∷ []) ps in
      let left' = append_assoc xs (synced p ∷ []) (map synced ps) in
      let right = append_assoc msgs new (differences (suc port) ps) in
      ground (arith, here, rest, left, left', right)
