-- ===== src/Jalv/Host/Schedules.antt =====
-- What a plugin gets for the work that it schedules.
use soundcan.Base.{ℕ, ◌≡◌, refl, arith, Bool, true, false, Option, none, some, List}
use soundcan.Zix.{ZixRing}
use soundcan.Abi.{Words}
use soundcan.Jalv.Worker.{Worker, Interface, err_unknown, stopped}
use soundcan.Jalv.Worker.Stopped.{schedule_stopped}
use soundcan.Jalv.Host.{
  Host, Allocated, jalv_worker_new, create_state_worker, create_workers, init_workers,
  jalv_open_workers, at_worker, jalv_activate_workers, schedule_work,
}

module _ (zix : ZixRing) (abi : Words) {P : Type 0} (iface : Interface P) where
  open zix use {Ring}

  -- The plugin's calls after jalv_open and jalv_activate.
  pub opened :
      Bool
      → Bool
      → Option (Allocated Ring P)
      → Option (Allocated Ring P)
      → Bool
      → Bool
      → Bool
      → Host Ring P
  opened has_work thread_safe memory state_memory backend sem_made thread_made =
      jalv_activate_workers zix abi iface
        (jalv_open_workers has_work thread_safe memory state_memory) backend sem_made thread_made

  -- The worker that jalv_open makes.
  abbrev made_worker : Allocated Ring P → Worker Ring P
  made_worker a = record {
    requests = a.requests;
    responses = a.responses;
    sem = 0;
    state = stopped;
    plugin = a.plugin;
  }

  -- Whatever the plugin offers and whatever can be allocated: after jalv_open and jalv_activate, a
  -- request for work returns LV2_WORKER_ERR_UNKNOWN through either handle, and queues nothing.
  pub opened-schedule_work :
      (has_work thread_safe : Bool) (memory state_memory : Option (Allocated Ring P))
      (backend sem_made thread_made : Bool) (bytes : List ℕ)
      → let h = opened has_work thread_safe memory state_memory backend sem_made thread_made in
        (schedule_work zix abi iface h h.sched_handle bytes ≡ (err_unknown, h))
        × (schedule_work zix abi iface h h.ssched_handle bytes ≡ (err_unknown, h))
  unfolding opened jalv_activate_workers at_worker jalv_open_workers create_workers init_workers
      jalv_worker_new create_state_worker schedule_work
  opened-schedule_work false thread_safe memory state_memory false sem_made thread_made bytes =
      (refl, refl)
  opened-schedule_work false thread_safe memory state_memory true sem_made thread_made bytes =
      (refl, refl)
  opened-schedule_work true thread_safe none state_memory false sem_made thread_made bytes =
      (refl, refl)
  opened-schedule_work true thread_safe none state_memory true sem_made thread_made bytes =
      (refl, refl)
  opened-schedule_work true thread_safe (some a) state_memory false sem_made thread_made bytes =
      (ground (arith, schedule_stopped zix abi iface (made_worker a) bytes refl), refl)
  opened-schedule_work true thread_safe (some a) state_memory true sem_made thread_made bytes =
      (ground (arith, schedule_stopped zix abi iface (made_worker a) bytes refl), refl)
