-- ===== src/Fluid/Client.antt =====
-- ATTIC/fluidsynth/fluid-ui/fluid-tcp-client.c: a command to fluidsynth and its answer.
pub mod Reads
use soundcan.Base.{ℕ, ◌+◌, Bool, Option, List, [], ◌∷◌, ◌++◌, length, leb, if◌then◌else◌}
use soundcan.CText.{Text}
use soundcan.Fluid.Outcome.{Outcome, returned, never, broken}

-- What reads of the socket meet: bytes other than 0, or nothing for 10 milliseconds. Where the list ends, the other
-- side has closed the connection.
pub data Read : Type 0 where
  chunk : Text → Read
  pause : Read

-- The socket or the connection failed, or what comes back.
pub data Answer : Type 0 where
  refused : Answer
  stream : List Read → Answer

-- fluidsynth: its state after a command, and the answer.
pub record Synth : Type 1 where
  pub State : Type 0
  pub command : State → Text → State × Answer

-- The loop, with what `response` holds so far. A read of no bytes, at the end of the stream or where
-- the buffer is full, returns 0, and the loop does it again without end.
unfoldable pub read_all : ℕ → Text → List Read → Outcome Text
read_all size p [] = never
read_all size p (pause ∷ more) = returned p
read_all size p (chunk bytes ∷ more) =
    let rest = read_all size (p ++ bytes) more in
    if leb size (length p + length bytes) then never else rest

unfoldable pub read_answer : ℕ → Answer → Outcome Text
read_answer size refused = returned []
read_answer size (stream reads) = read_all size [] reads

module _ (synth : Synth) where
  open synth use {State, command}

  -- `size` is the size of the response buffer.
  unfoldable pub run_command : State → Text → ℕ → Outcome (State × Text)
  run_command s line size =
      let (s', answer) = command s line in
      elim (read_answer size answer) [
        | returned response ↦ returned (s', response)
        | never ↦ never
        | broken ↦ broken
      ]
