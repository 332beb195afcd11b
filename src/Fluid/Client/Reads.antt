-- ===== src/Fluid/Client/Reads.antt =====
-- When a command returns.
use mathlib.Core.List.{append_assoc, append-nil}
use soundcan.Base.{
  ℕ, ◌+◌, ◌≡◌, ◌≤◌, ◌<◌, sym, ap, arith, ◌⊎◌, inl, inr, dec_lt, List, [], ◌∷◌, ◌++◌, length,
  length-append,
}
use soundcan.CText.{Text}
use soundcan.Fluid.Outcome.{returned, never}
use soundcan.Fluid.Client.{Read, chunk, pause, read_all}

-- The bytes that come before the first pause, and whether there is one.
abbrev pub before_pause : List Read → Text
before_pause [] = []
before_pause (pause ∷ more) = []
before_pause (chunk bytes ∷ more) = bytes ++ before_pause more

abbrev pub Pauses : List Read → Type 0
Pauses [] = ⊥
Pauses (pause ∷ more) = Unit {0}
Pauses (chunk bytes ∷ more) = Pauses more

read_all_from :
    (size : ℕ) (p : Text) (reads : List Read)
    → Pauses reads
    → length p + length (before_pause reads) < size
    → read_all size p reads ≡ returned (p ++ before_pause reads)
unfolding read_all
read_all_from size p [] w h = absurd w
read_all_from size p (pause ∷ more) w h = ap returned (sym (append-nil p))
read_all_from size p (chunk bytes ∷ more) w h =
    let n = length-append bytes (before_pause more) in
    let m = length-append p bytes in
    let next = read_all_from size (p ++ bytes) more w (omega (arith, n, m)) in
    let join = append_assoc p bytes (before_pause more) in ground (arith, n, next, join)

full_from :
    (size : ℕ) (p : Text) (reads : List Read)
    → length p < size
    → size ≤ length p + length (before_pause reads)
    → read_all size p reads ≡ never
unfolding read_all
full_from size p [] small h = absurd (omega arith)
full_from size p (pause ∷ more) small h = absurd (omega arith)
full_from size p (chunk bytes ∷ more) small h = elim (dec_lt (length p + length bytes) size) [
  | yes q ↦
      let n = length-append bytes (before_pause more) in
      let m = length-append p bytes in
      let next = full_from size (p ++ bytes) more (omega (arith, m)) (omega (arith, n, m)) in
      ground (arith, next)
  | no q ↦ ground arith
]

-- A command returns what fluidsynth answers before it pauses, if that leaves a byte of the buffer
-- free, and never returns if it does not. fluidsynth pauses.
pub read_all-before_pause :
    (size : ℕ) (reads : List Read)
    → 0 < size
    → Pauses reads
    → ((length (before_pause reads) < size)
        × (read_all size [] reads ≡ returned (before_pause reads)))
      ⊎ (size ≤ length (before_pause reads)) × (read_all size [] reads ≡ never)
read_all-before_pause size reads pos w = elim (dec_lt (length (before_pause reads)) size) [
  | yes p ↦ inl (p, read_all_from size [] reads w (omega arith))
  | no p ↦ inr (omega arith, full_from size [] reads (omega arith) (omega arith))
]
