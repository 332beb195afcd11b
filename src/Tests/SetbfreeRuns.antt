-- ===== src/Tests/SetbfreeRuns.antt =====
-- The plugin for the organ with floats that are whole numbers: 2 n is n, and 2 n + 1 is -n.
use soundcan.Base.{
  ℕ, zero, suc, ◌+◌, ◌*◌, ◌/◌, ◌%◌, ◌≡◌, refl, Bool, true, inl, none, some, List, [], ◌∷◌, ◌++◌,
  map, ◌==◌, if◌then◌else◌,
}
use soundcan.Abi.{Int32, natural, negative}
use soundcan.Setbfree.Midi.{
  no_convert, convert_8to0, Parameter, FloatOps, scaled, convert_byte, signal,
}
use soundcan.Setbfree.Run.{Sequences, send_messages, run}
use soundcan.Setbfree.Run.Sent.{synced, differences}
use soundcan.Setbfree.Run.Cycles.{run-differences, run_twice}
use soundcan.Setbfree.Run.Configuration.{configuration, run-configuration}

abbrev int_of : ℕ → Int32
int_of n = if n % 2 == 0 then natural (n / 2) else negative (n / 2)

abbrev of_int : Int32 → ℕ
of_int (natural n) = 2 * n
of_int (negative n) = 2 * n + 1

abbrev times : Int32 → Int32 → Int32
times (natural n) (natural m) = natural (n * m)
times (natural n) (negative m) = negative (n * m)
times (negative n) (natural m) = negative (n * m)
times (negative n) (negative m) = natural (n * m)

abbrev over : Int32 → Int32 → Int32
over (natural n) (natural m) = natural (n / m)
over (natural n) (negative m) = negative (n / m)
over (negative n) (natural m) = negative (n / m)
over (negative n) (negative m) = natural (n / m)

abbrev below_half : Int32 → Bool
below_half (natural n) = n == 0
below_half (negative n) = true

abbrev byte : Int32 → ℕ
byte (natural n) = n % 256
byte (negative n) = 0

abbrev floats : FloatOps
floats = record {
  mul = λ x y. of_int (times (int_of x) (int_of y));
  div = λ x y. of_int (over (int_of x) (int_of y));
  equal = λ x y. x == y;
  below_half = λ x. below_half (int_of x);
  of_int = of_int;
  to_int = int_of;
  to_byte = λ x. byte (int_of x);
}

-- The events by themselves.
abbrev sequences : Sequences
sequences = record {
  Seq = List (List ℕ);
  size = λ s. 100;
  type = λ s. 0;
  set_type = λ s type. s;
  clear = λ s. [];
  append_event = λ s capacity midi_event msg. s ++ msg ∷ [];
}

-- Port 18 is at 8, the configuration at what is given, and the others are at the first value of theirs.
abbrev memory : ℕ → ℕ → ℕ
memory asked address =
    if address == 18 then 16 else if address == 2 then asked else if address / 7 == 0 then 0 else 3

abbrev unconnected : Parameter
unconnected = record { port = none; last_value = 0; channel = 0; control = 0; convert = no_convert }

abbrev at_port : ℕ → Parameter
at_port port = record unconnected { port = some port }

abbrev settings : ℕ → ℕ → List Parameter
settings zero port = []
settings (suc n) port =
    record {
      port = some port;
      last_value = 3;
      channel = 0;
      control = 52 + port;
      convert = convert_8to0;
    }
    ∷ settings n (suc port)

abbrev others : List Parameter
others = at_port 3 ∷ at_port 4 ∷ at_port 5 ∷ at_port 6 ∷ settings 38 7

abbrev drawbar_out : List (List ℕ)
drawbar_out = (0xb0 ∷ 70 ∷ 0 ∷ []) ∷ []

sends_drawbar :
    send_messages floats (memory 0) sequences 9 [] [] (differences floats (memory 0) 3 others)
    ≡ drawbar_out
unfolding send_messages signal convert_byte scaled
sends_drawbar = refl

run-differences_example :
    run floats (memory 0) sequences 9 (unconnected ∷ unconnected ∷ at_port 2 ∷ others) [] []
    ≡ some (
      unconnected ∷ unconnected ∷ map (synced floats (memory 0)) (at_port 2 ∷ others),
      send_messages floats (memory 0) sequences 9 [] [] (differences floats (memory 0) 3 others),
    )
run-differences_example =
    run-differences floats (memory 0) sequences 9 unconnected unconnected (at_port 2) others [] []
      refl refl (inl refl)

run_twice_example :
    run floats
      (memory 0)
      sequences
      9
      (unconnected ∷ unconnected ∷ map (synced floats (memory 0)) (at_port 2 ∷ others))
      []
      ([] ∷ [])
    ≡ some
        (unconnected ∷ unconnected ∷ map (synced floats (memory 0)) (at_port 2 ∷ others), [] ∷ [])
run_twice_example =
    run_twice floats (memory 0) sequences 9 unconnected unconnected (at_port 2) others
      (unconnected ∷ unconnected ∷ map (synced floats (memory 0)) (at_port 2 ∷ others)) [] []
      (send_messages floats (memory 0) sequences 9 [] [] (differences floats (memory 0) 3 others))
      [] ([] ∷ []) refl refl (inl refl) refl run-differences_example

run-configuration_example :
    run floats (memory 2) sequences 9 (unconnected ∷ unconnected ∷ at_port 2 ∷ others) [] []
    ≡ some (
      unconnected ∷ unconnected ∷ record (at_port 2) { last_value = 2 } ∷ others,
      send_messages floats
          (memory 2)
          sequences
          9
          []
          []
          (configuration floats (at_port 3) (at_port 4) (at_port 5) (settings 38 7)),
    )
run-configuration_example =
    run-configuration floats (memory 2) sequences 9 unconnected unconnected (at_port 2) (at_port 3)
      (at_port 4) (at_port 5) (at_port 6) (settings 38 7) [] [] refl refl refl refl

-- A value that was never read from its port gives a byte of 142, which is no data byte of MIDI.
first_byte : convert_byte floats convert_8to0 3 ≡ some 142
unfolding convert_byte scaled
first_byte = refl
