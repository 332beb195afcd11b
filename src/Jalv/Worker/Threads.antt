-- ===== src/Jalv/Worker/Threads.antt =====
-- The audio thread and the worker thread in any order of their steps.
pub mod Queued
pub mod Queue
use mathlib.Core.List.{append_assoc, append-nil}
use soundcan.Base.{
  ℕ, zero, suc, ◌+◌, ◌-◌, ◌^◌, ◌≤◌, ◌<◌, ◌≡◌, ◌∙◌, refl, sym, ap, arith, Bool, true, false, Option,
  none, some, List, [], ◌∷◌, ◌++◌, length, length-append, ◌==◌, Option-cases, Bool-cases, ◌⊎◌, inl,
  inr, ◌≢◌,
}
use mathlib.Core.Path.{subst}
use soundcan.Zix.{ZixRing}
use soundcan.Abi.{Words}
use soundcan.Jalv.Worker.{
  Worker, WorkerStatus, success, WorkerState, launched, Interface, do_work,
  jalv_worker_write_packet, jalv_worker_schedule, worker_round, read_size, read_body,
}
use soundcan.Jalv.Worker.Packets.{
  packet, packets, packets-append, contents-write_packet, read_packet,
}

module _ (zix : ZixRing) (abi : Words) {P : Type 0} (iface : Interface P) where
  open zix use {Ring, contents}

  -- The requests for which jalv_worker_schedule returned LV2_WORKER_SUCCESS, and the worker.
  pub record System : Type 0 where
    pub worker : Worker Ring P
    pub accepted : List (List ℕ)

  record_accepted : WorkerStatus → List (List ℕ) → List ℕ → List (List ℕ)
  record_accepted success accepted bytes = accepted ++ bytes ∷ []
  record_accepted _ accepted bytes = accepted

  -- A call of jalv_worker_schedule.
  pub request : System → List ℕ → System
  request s bytes = record {
    worker = (jalv_worker_schedule zix abi iface s.worker bytes).1;
    accepted =
        record_accepted ((jalv_worker_schedule zix abi iface s.worker bytes).0) s.accepted bytes;
  }

  -- The worker thread runs a round where its wait on the semaphore can end, and its realloc succeeds.
  pub data Step (s : System) : System → Type 0 where
    requests : (bytes : List ℕ) → length bytes < 2 ^ 32 → Step s (request s bytes)
    works :
        (garbage : List ℕ) (w : Worker Ring P)
        → 0 < s.worker.sem
        → worker_round zix abi iface s.worker true garbage ≡ some w
        → Step s (record s { worker = w })

  pub data Reach (s : System) : System → Type 0 where
    here : Reach s s
    next : {t u : System} → Reach s t → Step t u → Reach s u

  -- The plugin's state after `work` was called for some requests.
  pub worked : P → List (List ℕ) → P
  worked p [] = p
  worked p (bytes ∷ more) = worked ((iface.work p bytes).0) more

  -- A launched worker with nothing queued, and no request accepted yet.
  abbrev pub IsFresh : System → Type 0
  IsFresh s =
      (s.worker.state ≡ launched)
      × (s.accepted ≡ [])
      × (contents s.worker.requests ≡ [])
      × (s.worker.sem ≡ 0)
