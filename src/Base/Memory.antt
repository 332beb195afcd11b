-- ===== src/Base/Memory.antt =====
-- A stretch of memory, byte by byte from its start, with memcpy into it and out of it.
use Prim.Native.Nat.{ℕ, zero, suc, ◌+◌, ◌<◌, ◌≤◌}
use mathlib.Core.Path.{◌≡◌, refl, ◌∙◌}
use mathlib.Core.List.{List, [], ◌∷◌}
use native.Mathlib.Omega.{arith}
use soundcan.Base.{◌==◌, if◌then◌else◌, length}

abbrev pub Memory : Type 0
Memory = ℕ → ℕ

abbrev pub store : Memory → ℕ → ℕ → Memory
store mem p b a = if a == p then b else mem a

unfoldable pub store_bytes : Memory → ℕ → List ℕ → Memory
store_bytes mem p [] = mem
store_bytes mem p (b ∷ bs) = store_bytes (store mem p b) (p + 1) bs

unfoldable pub load_bytes : Memory → ℕ → ℕ → List ℕ
load_bytes mem p zero = []
load_bytes mem p (suc n) = mem p ∷ load_bytes mem (p + 1) n

-- A store leaves what lies below it.
store_below : (mem : Memory) (p : ℕ) (bs : List ℕ) (a : ℕ) → a < p → store_bytes mem p bs a ≡ mem a
unfolding store_bytes
store_below mem p [] a h = refl
store_below mem p (b ∷ bs) a h =
    store_below (store mem p b) (p + 1) bs a (omega arith) ∙ ground arith

pub load-store_below :
    (mem : Memory) (p : ℕ) (bs : List ℕ) (a n : ℕ)
    → a + n ≤ p
    → load_bytes (store_bytes mem p bs) a n ≡ load_bytes mem a n
unfolding load_bytes
load-store_below mem p bs a zero h = refl
load-store_below mem p bs a (suc n) h =
    ground (
      arith,
      store_below mem p bs a (omega arith),
      load-store_below mem p bs (a + 1) n (omega arith),
    )

-- What was stored is loaded.
pub load-store_self :
    (mem : Memory) (p : ℕ) (bs : List ℕ) → load_bytes (store_bytes mem p bs) p (length bs) ≡ bs
unfolding load_bytes store_bytes
load-store_self mem p [] = refl
load-store_self mem p (b ∷ bs) = ground (
  arith,
  store_below (store mem p b) (p + 1) bs p (omega arith),
  load-store_self (store mem p b) (p + 1) bs,
)
