-- ===== src/Zix.antt =====
-- What the program relies on of the zix library, which is not part of the repository: zix/ring.h, a
-- byte ring for one reader and one writer.
pub mod Front
use soundcan.Base.{
  ℕ, ◌+◌, ◌-◌, ◌≤◌, ◌<◌, ◌≡◌, Option, none, some, List, [], ◌++◌, length, take, drop,
}

-- `contents` is what can be read, oldest byte first, and `space` how many bytes can be written. A
-- transaction holds the bytes that are not visible yet. `none` stands for a result that is not
-- ZIX_STATUS_SUCCESS, and for a byte count that is not the one that was asked for.
pub record ZixRing : Type 1 where
  pub Ring : Type 0
  pub Transaction : Type 0
  pub contents : Ring → List ℕ
  pub space : Ring → ℕ
  pub pending : Transaction → List ℕ
  pub begin_write : Ring → Transaction
  pub amend_write : Ring → Transaction → List ℕ → Option Transaction
  pub commit_write : Ring → Transaction → Ring
  pub write : Ring → List ℕ → Option Ring
  pub read : Ring → ℕ → Option (List ℕ × Ring)
  pub skip : Ring → ℕ → Ring
  pub pending-begin : (r : Ring) → pending (begin_write r) ≡ []
  pub amend_fits :
      (r : Ring) (tx : Transaction) (bs : List ℕ)
      → length (pending tx) + length bs ≤ space r
      → (tx' : Transaction) × (amend_write r tx bs ≡ some tx') × (pending tx' ≡ pending tx ++ bs)
  pub amend_full :
      (r : Ring) (tx : Transaction) (bs : List ℕ)
      → space r < length (pending tx) + length bs
      → amend_write r tx bs ≡ none
  pub contents-commit :
      (r : Ring) (tx : Transaction) → contents (commit_write r tx) ≡ contents r ++ pending tx
  pub space-commit :
      (r : Ring) (tx : Transaction) → space (commit_write r tx) ≡ space r - length (pending tx)
  pub write_fits :
      (r : Ring) (bs : List ℕ)
      → length bs ≤ space r
      → (r' : Ring) × (write r bs ≡ some r')
        × (contents r' ≡ contents r ++ bs)
        × (space r' ≡ space r - length bs)
  pub write_full : (r : Ring) (bs : List ℕ) → space r < length bs → write r bs ≡ none
  pub read_fits :
      (r : Ring) (n : ℕ)
      → n ≤ length (contents r)
      → (r' : Ring) × (read r n ≡ some (take n (contents r), r'))
        × (contents r' ≡ drop n (contents r))
        × (space r' ≡ space r + n)
  pub read_short : (r : Ring) (n : ℕ) → length (contents r) < n → read r n ≡ none
  pub contents-skip :
      (r : Ring) (n : ℕ) → n ≤ length (contents r) → contents (skip r n) ≡ drop n (contents r)
