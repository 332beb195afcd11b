-- ===== src/Tests/Layout.antt =====
-- The layout of LV2's structs on a 64-bit little-endian machine.
use soundcan.Base.{ℕ, ◌+◌, ◌*◌, ◌/◌, ◌%◌, ◌^◌, refl, List, [], ◌∷◌, ◌++◌, get_or, arith}
use soundcan.Lv2.{AtomLayout}

-- A uint32_t as four bytes.
abbrev pub bytes4 : ℕ → List ℕ
bytes4 n = n % 256 ∷ (n / 256) % 256 ∷ (n / 65536) % 256 ∷ (n / 16777216) % 256 ∷ []

abbrev pub word : List ℕ → ℕ → ℕ
word bs i =
    get_or bs i 0
    + 256 * get_or bs (i + 1) 0
    + 65536 * get_or bs (i + 2) 0
    + 16777216 * get_or bs (i + 3) 0

abbrev pub event_bytes : ℕ → ℕ → ℕ → List ℕ
event_bytes f t s = bytes4 f ++ (0 ∷ 0 ∷ 0 ∷ 0 ∷ []) ++ bytes4 s ++ bytes4 t

abbrev pub lv2 : AtomLayout
lv2 = record {
  sizeof_atom = 8;
  sizeof_event = 16;
  sizeof_sequence_body = 8;
  sizeof_sequence = 16;
  pad_size = λ n. (n + 7) % 2 ^ 32 / 8 * 8;
  put_event = event_bytes;
  event_frames = λ bs. word bs 0;
  event_type = λ bs. word bs 12;
  event_size = λ bs. word bs 8;
  atom_is_8 = refl;
  event_is_16 = refl;
  sequence_body_is_8 = refl;
  sequence_is_16 = refl;
  pad_size_ge = λ n h. omega arith;
  pad_size_lt = λ n h. omega arith;
  pad_size_aligned = λ n h. omega arith;
  length-put_event = λ f t s p q r. refl;
  frames-put_event = λ f t s p q r. omega arith;
  type-put_event = λ f t s p q r. omega arith;
  size-put_event = λ f t s p q r. omega arith;
}
