-- ===== src/Setbfree/Run/Cycles.antt =====
-- Cycles in which the configuration is not sent.
use soundcan.Base.{
  ℕ, suc, ◌≡◌, ◌∙◌, refl, ap, arith, ◌⊎◌, inl, inr, Bool, true, some, List, [], ◌∷◌, map, length,
  Bool-cases, ◌&&◌,
}
use soundcan.Abi.{natural}
use soundcan.Setbfree.Midi.{Parameter, FloatOps}
use soundcan.Setbfree.Run.{goes_on, changed, visit, scan, Sequences, send_messages, run}
use soundcan.Setbfree.Run.Sent.{
  ready_from, is_connected, connected_some, value_of, is_synced, synced, differences,
  scan-differences,
}

module _ (floats : FloatOps) (memory : ℕ → ℕ) where
  open floats use {equal, of_int}

  -- The configuration is not asked for: its port is as it was, or is 0.
  abbrev pub IsQuiet : Parameter → Type 0
  IsQuiet c =
      (is_synced floats memory c ≡ true)
      ⊎ (equal (value_of floats memory c) (of_int (natural 0)) ≡ true)

  quiet_visit :
      (a b c : Parameter) (ps : List Parameter)
      → is_connected c.port ≡ true
      → IsQuiet c
      → visit floats memory (a ∷ b ∷ c ∷ ps) [] 2
        ≡ some (goes_on (a ∷ b ∷ synced floats memory c ∷ ps) [])
  unfolding visit changed
  quiet_visit a b c ps connected (inl e) =
      let (address, pa) = connected_some c.port connected in ground (arith, pa, e)
  quiet_visit a b c ps connected (inr z) =
      let (address, pa) = connected_some c.port connected in
      elim (Bool-cases (is_synced floats memory c)) [
        | inl e ↦ ground (arith, pa, e)
        | inr e ↦ ground (arith, pa, e, z)
      ]

  quiet_scan :
      (a b c : Parameter) (ps : List Parameter)
      → length ps ≡ 42
      → ready_from 2 (c ∷ ps) ≡ true
      → IsQuiet c
      → scan floats memory 43 2 (a ∷ b ∷ c ∷ ps) []
        ≡ some (a ∷ b ∷ map (synced floats memory) (c ∷ ps), differences floats memory 3 ps)
  unfolding scan
  quiet_scan a b c ps n r quiet =
      let connected : is_connected c.port ≡ true = ground (arith, r) in
      let r' : ready_from 3 ps ≡ true = ground (arith, r) in
      let here = quiet_visit a b c ps connected quiet in
      let rest =
        scan-differences floats memory (a ∷ b ∷ synced floats memory c ∷ []) ps [] 3 refl
          (omega arith) r' (omega (arith, n)) in
      ground (arith, n, here, rest)

-- Where all ports are connected and the configuration is not asked for, a cycle ends, brings every
-- parameter to the value of its port, and sends the messages of those that differed, in the order of
-- the ports. There are 45 parameters, and each setting has its function.
pub run-differences :
    (floats : FloatOps) (memory : ℕ → ℕ) (sequences : Sequences) (midi_event : ℕ)
    (a b c : Parameter) (ps : List Parameter) (in_ out : sequences.Seq)
    → length ps ≡ 42
    → ready_from 2 (c ∷ ps) ≡ true
    → IsQuiet floats memory c
    → run floats memory sequences midi_event (a ∷ b ∷ c ∷ ps) in_ out
      ≡ some (
        a ∷ b ∷ map (synced floats memory) (c ∷ ps),
        send_messages floats memory sequences midi_event in_ out (differences floats memory 3 ps),
      )
unfolding run
run-differences floats memory sequences midi_event a b c ps in_ out n r quiet =
    ground (arith, quiet_scan floats memory a b c ps n r quiet)

module _ (floats : FloatOps) (memory : ℕ → ℕ) where
  open floats use {equal}

  -- The values at the ports are equal to themselves: none is a NaN.
  abbrev pub no_nan : List Parameter → Bool
  no_nan [] = true
  no_nan (p ∷ ps) = equal (value_of floats memory p) (value_of floats memory p) && no_nan ps

  synced-is_synced :
      (p : Parameter)
      → equal (value_of floats memory p) (value_of floats memory p) ≡ true
      → is_synced floats memory (synced floats memory p) ≡ true
  synced-is_synced p h = elim (Bool-cases (is_synced floats memory p)) [
    | inl e ↦ ground (arith, e)
    | inr e ↦ ground (arith, e, h)
  ]

  synced-port : (p : Parameter) → (synced floats memory p).port ≡ p.port
  synced-port p = elim (Bool-cases (is_synced floats memory p)) [
    | inl e ↦ ground (arith, e)
    | inr e ↦ ground (arith, e)
  ]

  synced-convert : (p : Parameter) → (synced floats memory p).convert ≡ p.convert
  synced-convert p = elim (Bool-cases (is_synced floats memory p)) [
    | inl e ↦ ground (arith, e)
    | inr e ↦ ground (arith, e)
  ]

  synced_twice :
      (ps : List Parameter)
      → no_nan ps ≡ true
      → map (synced floats memory) (map (synced floats memory) ps) ≡ map (synced floats memory) ps
  synced_twice [] h = refl
  synced_twice (p ∷ ps) h =
      let e = synced-is_synced p (ground (arith, h)) in
      let es = synced_twice ps (ground (arith, h)) in ground (arith, e, es)

  differences-synced :
      (port : ℕ) (ps : List Parameter)
      → no_nan ps ≡ true
      → differences floats memory port (map (synced floats memory) ps) ≡ []
  differences-synced port [] h = refl
  differences-synced port (p ∷ ps) h =
      let e = synced-is_synced p (ground (arith, h)) in
      let es = differences-synced (suc port) ps (ground (arith, h)) in ground (arith, e, es)

  ready_from-synced :
      (port : ℕ) (ps : List Parameter)
      → ready_from port (map (synced floats memory) ps) ≡ ready_from port ps
  ready_from-synced port [] = refl
  ready_from-synced port (p ∷ ps) =
      let e = synced-port p in
      let e' = synced-convert p in
      let es = ready_from-synced (suc port) ps in ground (arith, e, e', es)

length-map : {A : Type 0} (f : A → A) (xs : List A) → length (map f xs) ≡ length xs
length-map f [] = refl
length-map f (x ∷ xs) = ap suc (length-map f xs)

-- The cycle after such a cycle writes nothing to its output, whatever that holds, and changes no
-- parameter, if no port has changed and none is a NaN.
pub run_twice :
    (floats : FloatOps) (memory : ℕ → ℕ) (sequences : Sequences) (midi_event : ℕ)
    (a b c : Parameter) (ps qs : List Parameter) (in_ out out' in_' next : sequences.Seq)
    → length ps ≡ 42
    → ready_from 2 (c ∷ ps) ≡ true
    → IsQuiet floats memory c
    → no_nan floats memory (c ∷ ps) ≡ true
    → run floats memory sequences midi_event (a ∷ b ∷ c ∷ ps) in_ out ≡ some (qs, out')
    → run floats memory sequences midi_event qs in_' next ≡ some (qs, next)
unfolding send_messages
run_twice floats memory sequences midi_event a b c ps qs in_ out out' in_' next n r quiet numbers
      first =
    let f = synced floats memory in
    let once = run-differences floats memory sequences midi_event a b c ps in_ out n r quiet in
    let e = synced-is_synced floats memory c (ground (arith, numbers)) in
    let es : no_nan floats memory ps ≡ true = ground (arith, numbers) in
    let again =
      run-differences floats memory sequences midi_event a b (f c) (map f ps) in_' next
        (length-map f ps ∙ n) (ready_from-synced floats memory 2 (c ∷ ps) ∙ r) (inl e) in
    let same = synced_twice floats memory (c ∷ ps) numbers in
    let none_sent = differences-synced floats memory 3 ps es in
    ground (arith, once, again, first, same, none_sent)
