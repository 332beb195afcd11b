-- ===== src/Zix/Front.antt =====
-- Reads of bytes that are known to stand at the front of a ring.
use soundcan.Base.{
  ℕ, ◌≡◌, ◌∙◌, ap, arith, some, List, ◌++◌, length, take, drop, length-append, take-append,
  drop-append,
}
use soundcan.Zix.{ZixRing}

module _ (zix : ZixRing) where
  open zix use {Ring, contents, read}

  -- A read of bytes that stand at the front of the ring.
  pub read_front :
      (r : Ring) (bytes rest : List ℕ) (n : ℕ)
      → n ≡ length bytes
      → contents r ≡ bytes ++ rest
      → (r' : Ring) × (read r n ≡ some (bytes, r')) × (contents r' ≡ rest)
  read_front r bytes rest n e held =
      let (r', run, left, room) =
        zix.read_fits r n (omega (arith, e, ap length held, length-append bytes rest)) in
      (
        r',
        run ∙ ap (λ bs. some (bs, r')) (ap (take n) held ∙ take-append bytes rest n e),
        left ∙ ap (drop n) held ∙ drop-append bytes rest n e,
      )
