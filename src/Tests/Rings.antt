-- ===== src/Tests/Rings.antt =====
-- A ring as a list of bytes and the space left, and words as four bytes.
use soundcan.Base.{
  ℕ, ◌+◌, ◌-◌, ◌≤◌, ◌<◌, ◌≡◌, refl, arith, Option, none, some, List, [], ◌++◌, length, take, drop,
  leb, if◌then◌else◌,
}
use soundcan.Zix.{ZixRing}
use soundcan.Abi.{Words}
use soundcan.Tests.Layout.{bytes4, word}

pub record Bytes : Type 0 where
  pub bytes : List ℕ
  pub room : ℕ

abbrev pub amend : Bytes → List ℕ → List ℕ → Option (List ℕ)
amend r tx bs = if leb (length tx + length bs) r.room then some (tx ++ bs) else none

abbrev pub put : Bytes → List ℕ → Option Bytes
put r bs =
    if leb (length bs) r.room
    then some (record { bytes = r.bytes ++ bs; room = r.room - length bs })
    else none

abbrev pub get : Bytes → ℕ → Option (List ℕ × Bytes)
get r n =
    if leb n (length r.bytes)
    then some (take n r.bytes, record { bytes = drop n r.bytes; room = r.room + n })
    else none

pub amend_fits_bytes :
    (r : Bytes) (tx bs : List ℕ)
    → length tx + length bs ≤ r.room
    → (tx' : List ℕ) × (amend r tx bs ≡ some tx') × (tx' ≡ tx ++ bs)
amend_fits_bytes r tx bs h = (tx ++ bs, ground arith, refl)

pub put_fits :
    (r : Bytes) (bs : List ℕ)
    → length bs ≤ r.room
    → (r' : Bytes) × (put r bs ≡ some r')
      × (r'.bytes ≡ r.bytes ++ bs)
      × (r'.room ≡ r.room - length bs)
put_fits r bs h =
    (record { bytes = r.bytes ++ bs; room = r.room - length bs }, ground arith, refl, refl)

pub get_fits :
    (r : Bytes) (n : ℕ)
    → n ≤ length r.bytes
    → (r' : Bytes) × (get r n ≡ some (take n r.bytes, r'))
      × (r'.bytes ≡ drop n r.bytes)
      × (r'.room ≡ r.room + n)
get_fits r n h = (record { bytes = drop n r.bytes; room = r.room + n }, ground arith, refl, refl)

pub amend_full_bytes :
    (r : Bytes) (tx bs : List ℕ) → r.room < length tx + length bs → amend r tx bs ≡ none
amend_full_bytes r tx bs h = ground arith

pub put_full : (r : Bytes) (bs : List ℕ) → r.room < length bs → put r bs ≡ none
put_full r bs h = ground arith

pub get_short : (r : Bytes) (n : ℕ) → length r.bytes < n → get r n ≡ none
get_short r n h = ground arith

abbrev pub byte_ring : ZixRing
byte_ring = record {
  Ring = Bytes;
  Transaction = List ℕ;
  contents = λ r. r.bytes;
  space = λ r. r.room;
  pending = λ tx. tx;
  begin_write = λ r. [];
  amend_write = amend;
  commit_write = λ r tx. record { bytes = r.bytes ++ tx; room = r.room - length tx };
  write = put;
  read = get;
  skip = λ r n. record { bytes = drop n r.bytes; room = r.room + n };
  pending-begin = λ r. refl;
  amend_fits = amend_fits_bytes;
  amend_full = amend_full_bytes;
  contents-commit = λ r tx. refl;
  space-commit = λ r tx. refl;
  write_fits = put_fits;
  write_full = put_full;
  read_fits = get_fits;
  read_short = get_short;
  contents-skip = λ r n h. refl;
}

abbrev pub words : Words
words = record {
  put_u32 = bytes4;
  get_u32 = λ bs. word bs 0;
  length-put_u32 = λ n. refl;
  get-put_u32 = λ n h. omega arith;
}
