-- ===== src/Lv2.antt =====
-- What the program relies on of LV2's headers, which are not part of the repository.
use soundcan.Base.{ℕ, ◌+◌, ◌%◌, ◌^◌, ◌≤◌, ◌<◌, ◌≡◌, List, length}

-- lv2/atom/atom.h and lv2/atom/util.h: the sizes of the C structs, `lv2_atom_pad_size`, and the bytes
-- of an LV2_Atom_Event before its body, written from and read as frames, type and body size.
pub record AtomLayout : Type 0 where
  pub sizeof_atom : ℕ
  pub sizeof_event : ℕ
  pub sizeof_sequence_body : ℕ
  pub sizeof_sequence : ℕ
  pub pad_size : ℕ → ℕ
  pub put_event : ℕ → ℕ → ℕ → List ℕ
  pub event_frames : List ℕ → ℕ
  pub event_type : List ℕ → ℕ
  pub event_size : List ℕ → ℕ
  pub atom_is_8 : sizeof_atom ≡ 8
  pub event_is_16 : sizeof_event ≡ 16
  pub sequence_body_is_8 : sizeof_sequence_body ≡ 8
  pub sequence_is_16 : sizeof_sequence ≡ 16
  pub pad_size_ge : (n : ℕ) → n + 7 < 2 ^ 32 → n ≤ pad_size n
  pub pad_size_lt : (n : ℕ) → n + 7 < 2 ^ 32 → pad_size n < n + 8
  pub pad_size_aligned : (n : ℕ) → n + 7 < 2 ^ 32 → pad_size n % 8 ≡ 0
  pub length-put_event :
      (f t s : ℕ) → f < 2 ^ 32 → t < 2 ^ 32 → s < 2 ^ 32 → length (put_event f t s) ≡ sizeof_event
  pub frames-put_event :
      (f t s : ℕ) → f < 2 ^ 32 → t < 2 ^ 32 → s < 2 ^ 32 → event_frames (put_event f t s) ≡ f
  pub type-put_event :
      (f t s : ℕ) → f < 2 ^ 32 → t < 2 ^ 32 → s < 2 ^ 32 → event_type (put_event f t s) ≡ t
  pub size-put_event :
      (f t s : ℕ) → f < 2 ^ 32 → t < 2 ^ 32 → s < 2 ^ 32 → event_size (put_event f t s) ≡ s
