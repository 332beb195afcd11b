-- ===== src/Abi.antt =====
-- How the machine keeps a uint32_t, an enum or a float in four bytes. A float is only moved by these
-- functions, so it is its bit pattern.
use soundcan.Base.{ℕ, ◌^◌, ◌<◌, ◌≡◌, Bool, List, length}

pub record Words : Type 0 where
  pub put_u32 : ℕ → List ℕ
  pub get_u32 : List ℕ → ℕ
  pub length-put_u32 : (n : ℕ) → length (put_u32 n) ≡ 4
  pub get-put_u32 : (n : ℕ) → n < 2 ^ 32 → get_u32 (put_u32 n) ≡ n

-- What the code uses of C's floating point numbers, each number as its bit pattern: conversions between
-- float, double and uint32_t, `<=` on floats and `!=` on doubles. A difference tells numbers apart.
pub record Floats : Type 0 where
  pub double_of : ℕ → ℕ
  pub float_of : ℕ → ℕ
  pub float_of_uint : ℕ → ℕ
  pub uint_of : ℕ → ℕ
  pub float_le : ℕ → ℕ → Bool
  pub differs : ℕ → ℕ → Bool

-- An int.
pub data Int32 : Type 0 where
  natural : ℕ → Int32
  negative : ℕ → Int32
