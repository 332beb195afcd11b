-- ===== src/Fluid/Outcome.antt =====
-- How a piece of C ends: it returns, it never returns, or it reads or writes outside its memory.
use soundcan.Base.{ℕ, ◌≡◌, ◌<◌, length, ltb, arith, if◌then◌else◌}
use soundcan.CText.{Text}

pub data Outcome {ℓ} (A : Type ℓ) : Type ℓ where
  returned : A → Outcome A
  never : Outcome A
  broken : Outcome A

infixl 5 ◌>>=◌
abbrev pub ◌>>=◌ {ℓ κ} : {A : Type ℓ} {B : Type κ} → Outcome A → (A → Outcome B) → Outcome B
returned a >>= f = f a
never >>= f = never
broken >>= f = broken

-- strcpy, strcat or sprintf of a text into an array of `size` bytes, its terminator included.
unfoldable pub fit : ℕ → Text → Outcome Text
fit size s = if ltb (length s) size then returned s else broken

pub fit_fits : (size : ℕ) (s : Text) → length s < size → fit size s ≡ returned s
unfolding fit
fit_fits size s h = ground arith
