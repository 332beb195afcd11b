-- ===== src/Jalv/Host.antt =====
-- ATTIC/galv/golang/jalv/jalv.c: the workers that jalv_open and jalv_activate handle, in the order of
-- jalv_open, and what the UI sends through jalv_send_to_plugin.
pub mod Schedules
pub mod Writes
use soundcan.Base.{
  ℕ, ◌+◌, ◌^◌, ◌≡◌, Bool, true, false, Option, none, some, List, [], ◌∷◌, ◌++◌, length, take, drop,
  set, get_elem?, ltb, leb, ◌==◌, if◌then◌else◌, not, ◌||◌,
}
use soundcan.Zix.{ZixRing}
use soundcan.Abi.{Words}
use soundcan.Jalv.Comm.{jalv_write_control, jalv_write_event}
use soundcan.Jalv.Worker.{
  Worker, Interface, WorkerStatus, err_unknown, WorkerState, stopped, single_threaded,
  jalv_worker_launch, jalv_worker_exit, jalv_worker_schedule,
}

-- `jalv->process.worker`, `state_worker`, `features.sched.handle`, `features.ssched.handle`, and the
-- workers that were allocated: a pointer is an index, and `none` is NULL.
pub record Host (R P : Type 0) : Type 0 where
  pub workers : List (Worker R P)
  pub worker : Option ℕ
  pub state_worker : Option ℕ
  pub sched_handle : Option ℕ
  pub ssched_handle : Option ℕ
  pub safe_restore : Bool

-- What jalv_worker_new gets from its allocations, and the plugin.
pub record Allocated (R P : Type 0) : Type 0 where
  pub requests : R
  pub responses : R
  pub plugin : P

module _ {R P : Type 0} where
  -- `none` where an allocation fails.
  pub jalv_worker_new : Host R P → Bool → Option (Allocated R P) → Option ℕ × Host R P
  jalv_worker_new h threaded none = (none, h)
  jalv_worker_new h threaded (some a) = (
    some (length h.workers),
    record h {
      workers =
          h.workers
          ++ record {
            requests = a.requests;
            responses = a.responses;
            sem = 0;
            state = if threaded then stopped else single_threaded;
            plugin = a.plugin;
          }
            ∷ [];
    },
  )

  -- The state worker, where `safe_restore` is set.
  pub create_state_worker : Host R P → Option (Allocated R P) → Host R P
  create_state_worker h memory =
      let (pointer, made) = jalv_worker_new h false memory in
      if h.safe_restore then record made { state_worker = pointer; ssched_handle = pointer } else h

  -- "Create workers if necessary".
  pub create_workers : Host R P → Bool → Option (Allocated R P) → Option (Allocated R P) → Host R P
  create_workers h has_work_interface memory state_memory =
      let (pointer, made) = jalv_worker_new h true memory in
      if has_work_interface
      then create_state_worker (record made { worker = pointer; sched_handle = pointer })
          state_memory
      else h

  -- What jalv_process_init does with the workers.
  pub init_workers : Host R P → Host R P
  init_workers h = record h { worker = none; state_worker = none }

  -- The steps of jalv_open that touch the workers, from a cleared `struct JalvImpl`.
  pub jalv_open_workers : Bool → Bool → Option (Allocated R P) → Option (Allocated R P) → Host R P
  jalv_open_workers has_work_interface thread_safe memory state_memory =
      let cleared : Host R P = record {
        workers = [];
        worker = none;
        state_worker = none;
        sched_handle = none;
        ssched_handle = none;
        safe_restore = false;
      } in
      let created = create_workers cleared has_work_interface memory state_memory in
      init_workers (record created { safe_restore = thread_safe })

module _ (zix : ZixRing) (abi : Words) {P : Type 0} (iface : Interface P) where
  open zix use {Ring}

  -- A call for the worker at a pointer.
  at_worker : Host Ring P → Option ℕ → (Worker Ring P → Worker Ring P) → Host Ring P
  at_worker h none f = h
  at_worker h (some i) f = elim (get_elem? h.workers i) [
    | none ↦ h
    | some w ↦ record h { workers = set h.workers i (f w) }
  ]

  -- The workers under jalv_activate. The flags tell whether there is a backend, and whether the
  -- semaphore and the thread can be made.
  pub jalv_activate_workers : Host Ring P → Bool → Bool → Bool → Host Ring P
  jalv_activate_workers h backend sem_made thread_made =
      if backend
      then at_worker h h.worker (λ w. (jalv_worker_launch zix abi iface w sem_made thread_made).1)
      else h

  -- The workers under jalv_deactivate, up to the join.
  pub jalv_deactivate_workers : Host Ring P → Host Ring P
  jalv_deactivate_workers h = at_worker h h.worker (jalv_worker_exit zix abi iface)

  -- The plugin's call of `schedule_work` with a handle.
  pub schedule_work : Host Ring P → Option ℕ → List ℕ → WorkerStatus × Host Ring P
  schedule_work h none bytes = (err_unknown, h)
  schedule_work h (some i) bytes = elim (get_elem? h.workers i) [
    | none ↦ (err_unknown, h)
    | some w ↦
        let (status, w') = jalv_worker_schedule zix abi iface w bytes in
        (status, record h { workers = set h.workers i w' })
  ]

-- The statuses of zix that jalv_send_to_plugin meets.
pub data ZixStatus : Type 0 where
  zix_success zix_bad_arg zix_error : ZixStatus

module _ (zix : ZixRing) (abi : Words) where
  open zix use {Ring}
  open abi use {get_u32}

  unfoldable pub wrote : Ring → Option Ring → ZixStatus × Ring
  wrote ring none = (zix_error, ring)
  wrote ring (some ring') = (zix_success, ring')

  -- `buffer` has the length `buffer_size`; the status is only logged.
  pub jalv_send_to_plugin : ℕ → ℕ → Ring → ℕ → ℕ → List ℕ → ZixStatus × Ring
  jalv_send_to_plugin num_ports atom_event_transfer ring port_index protocol buffer =
      if leb num_ports port_index
      then (zix_success, ring)
      else if protocol == 0
      then (if not (length buffer == 4)
          then (zix_bad_arg, ring)
          else wrote ring (jalv_write_control zix abi ring port_index (get_u32 buffer)))
      else if protocol == atom_event_transfer
      then (if ltb (length buffer) 8 || not (8 + get_u32 (take 4 buffer) == length buffer)
          then (zix_bad_arg, ring)
          else wrote ring (
              jalv_write_event zix abi ring port_index (get_u32 (take 4 (drop 4 buffer)))
                (drop 8 buffer)))
      else (zix_success, ring)
