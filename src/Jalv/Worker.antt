-- ===== src/Jalv/Worker.antt =====
-- ATTIC/galv/golang/jalv/worker.c: work that a plugin hands from the audio thread to another thread.
pub mod Packets
pub mod Stopped
pub mod Threads
pub mod Responses
use soundcan.Base.{
  ℕ, zero, suc, ◌+◌, ◌-◌, ◌^◌, ◌≡◌, Bool, true, false, Option, none, some, List, [], ◌∷◌, ◌++◌,
  length, leb, ltb, ◌==◌, ◌||◌, if◌then◌else◌,
}
use soundcan.Zix.{ZixRing}
use soundcan.Abi.{Words}

-- `WorkerState`
pub data WorkerState : Type 0 where
  single_threaded stopped launched must_exit : WorkerState

-- `LV2_Worker_Status`, as far as worker.c returns it by itself.
pub data WorkerStatus : Type 0 where
  success err_unknown err_no_space : WorkerStatus
  of_plugin : ℕ → WorkerStatus

abbrev pub max_packet_size : ℕ
max_packet_size = 4096

-- The plugin's LV2_Worker_Interface over its state `P`. `work` gives the responses that it makes
-- through jalv_worker_respond, in order, and its status.
pub record Interface (P : Type 0) : Type 0 where
  pub work : P → List ℕ → P × List (List ℕ) × ℕ
  pub work_response : P → List ℕ → P

-- `struct JalvWorkerImpl` with the state of its plugin. `sem` is the count of the semaphore.
pub record Worker (R P : Type 0) : Type 0 where
  pub requests : R
  pub responses : R
  pub sem : ℕ
  pub state : WorkerState
  pub plugin : P

module _ (zix : ZixRing) (abi : Words) where
  open zix use {Ring, contents, begin_write, amend_write, commit_write, read, skip}
  open abi use {put_u32, get_u32}

  -- `none` is LV2_WORKER_ERR_NO_SPACE.
  pub jalv_worker_write_packet : Ring → List ℕ → Option Ring
  jalv_worker_write_packet target bytes =
      elim (amend_write target (begin_write target) (put_u32 (length bytes))) [
        | none ↦ none
        | some tx ↦ elim (amend_write target tx bytes) [
          | none ↦ none
          | some tx' ↦ some (commit_write target tx')
        ]
      ]

  -- The calls of jalv_worker_respond that `work` makes; a response that does not fit is lost.
  pub respond_all : Ring → List (List ℕ) → Ring
  respond_all target [] = target
  respond_all target (bytes ∷ more) = elim (jalv_worker_write_packet target bytes) [
    | none ↦ respond_all target more
    | some target' ↦ respond_all target' more
  ]

  -- A size that could not be read is 0, and a body that could not be read is what realloc left.
  pub read_size : Ring → ℕ × Ring
  read_size ring = elim (read ring 4) [
    | none ↦ (0, ring)
    | some (bytes, ring') ↦ (get_u32 bytes, ring')
  ]

  pub read_body : List ℕ → Ring → ℕ → List ℕ × Ring
  read_body garbage ring size = elim (read ring size) [ none ↦ (garbage, ring) | some r ↦ r ]

  module _ {P : Type 0} (iface : Interface P) where
    -- A call of the plugin's `work`.
    pub do_work : Worker Ring P → List ℕ → Worker Ring P × ℕ
    do_work w bytes =
        let (plugin, answers, status) = iface.work w.plugin bytes in
        (record w { plugin = plugin; responses = respond_all w.responses answers }, status)

    -- `size` is the length of the data; the worker is not NULL.
    pub jalv_worker_schedule : Worker Ring P → List ℕ → WorkerStatus × Worker Ring P
    jalv_worker_schedule w bytes = if length bytes == 0 then (err_unknown, w) else elim w.state [
      | stopped ↦ (err_unknown, w)
      | launched ↦ elim (jalv_worker_write_packet w.requests bytes) [
        | none ↦ (err_no_space, w)
        | some ring ↦ (success, record w { requests = ring; sem = w.sem + 1 })
      ]
      | single_threaded ↦
          let (w', status) = do_work w bytes in
          if status == 0 then (success, w') else (of_plugin status, w')
      | must_exit ↦ (success, w)
    ]

    -- A round of worker_func after its wait: `none` is the end of the loop. `allocated` tells whether
    -- realloc succeeds, and `garbage` is what its memory holds.
    pub worker_round : Worker Ring P → Bool → List ℕ → Option (Worker Ring P)
    worker_round w allocated garbage =
        let w₁ = record w { sem = w.sem - 1 } in
        elim w.state [
          | must_exit ↦ none
          | _ ↦
              let (size, ring) = read_size w.requests in
              if allocated
              then (let (bytes, ring') = read_body garbage ring size in
                  some ((do_work (record w₁ { requests = ring' }) bytes).0))
              else some (record w₁ { requests = skip ring size })
        ]

    -- The two calls that can fail tell whether they do.
    pub jalv_worker_launch : Worker Ring P → Bool → Bool → Bool × Worker Ring P
    jalv_worker_launch w sem_made thread_made = elim w.state [
      | stopped ↦
          if sem_made
          then if thread_made
            then (true, record w { sem = 0; state = launched })
            else (false, record w { sem = 0 })
          else (false, w)
      | _ ↦ (true, w)
    ]

    -- Up to the join: the request to exit.
    pub jalv_worker_exit : Worker Ring P → Worker Ring P
    jalv_worker_exit w = elim w.state [
      | launched ↦ record w { state = must_exit; sem = w.sem + 1 }
      | _ ↦ w
    ]

    -- The loop; `none` is a response that does not fit the buffer, or out of fuel.
    pub emit_from : ℕ → Ring → P → Option (Ring × P)
    emit_from zero ring plugin = none
    emit_from (suc fuel) ring plugin = elim (read ring 4) [
      | none ↦ some (ring, plugin)
      | some (header, ring') ↦
          let size = get_u32 header in
          elim (leb size max_packet_size) [
            | false ↦ none
            | true ↦ elim (read ring' size) [
              | none ↦ emit_from fuel ring' plugin
              | some (bytes, ring'') ↦ emit_from fuel ring'' (iface.work_response plugin bytes)
            ]
          ]
    ]

    -- A round takes 4 bytes at least.
    pub jalv_worker_emit_responses : Worker Ring P → Option (Worker Ring P)
    jalv_worker_emit_responses w =
        elim (emit_from (length (contents w.responses) + 1) w.responses w.plugin) [
          | none ↦ none
          | some (ring, plugin) ↦ some (record w { responses = ring; plugin = plugin })
        ]
