-- ===== src/Jalv/Worker/Threads/Queued.antt =====
-- What was worked on and what is queued.
use soundcan.Base.{ℕ, ◌^◌, ◌<◌, ◌≡◌, refl, List, [], ◌∷◌, ◌++◌, length}
use mathlib.Core.Path.{subst}
use soundcan.Zix.{ZixRing}
use soundcan.Abi.{Words}
use soundcan.Jalv.Worker.{launched, Interface}
use soundcan.Jalv.Worker.Packets.{packets}
use soundcan.Jalv.Worker.Threads.{System, worked}

module _ (zix : ZixRing) (abi : Words) {P : Type 0} (iface : Interface P) where
  open zix use {Ring, contents}

  pub worked-append :
      (p : P) (done : List (List ℕ)) (bytes : List ℕ)
      → worked zix abi iface p (done ++ bytes ∷ [])
        ≡ (iface.work (worked zix abi iface p done) bytes).0
  unfolding worked
  worked-append p [] bytes = refl
  worked-append p (d ∷ done) bytes = worked-append ((iface.work p d).0) done bytes

  abbrev pub AllSmall : List (List ℕ) → Type 0
  AllSmall [] = Unit {0}
  AllSmall (p ∷ ps) = (length p < 2 ^ 32) × AllSmall ps

  pub AllSmall-append :
      (ps : List (List ℕ)) (p : List ℕ) → AllSmall ps → length p < 2 ^ 32 → AllSmall (ps ++ p ∷ [])
  AllSmall-append [] p a h = (h, tt)
  AllSmall-append (q ∷ ps) p a h = (a.0, AllSmall-append ps p (a.1) h)

  pub small_rest :
      (queue : List (List ℕ)) (bytes : List ℕ) (rest : List (List ℕ))
      → queue ≡ bytes ∷ rest
      → AllSmall queue
      → AllSmall rest
  small_rest queue bytes rest e a = (subst AllSmall e a).1

  -- Each accepted request was worked on, in order, or stands in the ring, and the semaphore counts
  -- those.
  pub record Queued (p : P) (s : System zix abi iface) (done queue : List (List ℕ)) : Type 0 where
    pub running : s.worker.state ≡ launched
    pub split : s.accepted ≡ done ++ queue
    pub plugin : s.worker.plugin ≡ worked zix abi iface p done
    pub ring : contents s.worker.requests ≡ packets abi queue
    pub counted : s.worker.sem ≡ length queue
    pub small : AllSmall queue
