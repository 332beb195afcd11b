-- ===== src/Jalv/Worker/Threads/Queue.antt =====
-- The worker's queue, by induction on the steps of the two threads.
use mathlib.Core.List.{append_assoc}
use soundcan.Base.{
  ℕ, ◌+◌, ◌-◌, ◌^◌, ◌<◌, ◌≡◌, ◌∙◌, refl, sym, ap, arith, true, some, List, [], ◌∷◌, ◌++◌, length,
  length-append, ◌==◌, Option-cases, Bool-cases, ◌⊎◌, inl, inr, ◌≢◌,
}
use soundcan.Zix.{ZixRing}
use soundcan.Abi.{Words}
use soundcan.Jalv.Worker.{
  Worker, WorkerStatus, success, launched, Interface, do_work, jalv_worker_write_packet,
  jalv_worker_schedule, worker_round,
}
use soundcan.Jalv.Worker.Packets.{
  packet, packets, packets-append, contents-write_packet, read_packet,
}
use soundcan.Jalv.Worker.Threads.{
  System, Step, requests, works, Reach, here, next, request, record_accepted, worked, IsFresh,
}
use soundcan.Jalv.Worker.Threads.Queued.{AllSmall-append, small_rest, worked-append, Queued}

module _ (zix : ZixRing) (abi : Words) {P : Type 0} (iface : Interface P) where
  open zix use {Ring, contents}

  not_accepted :
      (st : WorkerStatus) (accepted : List (List ℕ)) (bytes : List ℕ)
      → st ≢ success
      → record_accepted zix abi iface st accepted bytes ≡ accepted
  unfolding record_accepted
  not_accepted success accepted bytes h = absurd (h refl)
  not_accepted _ accepted bytes h = refl

  schedule_launched :
      (w : Worker Ring P) (bytes : List ℕ)
      → w.state ≡ launched
      → ((ring : Ring) × (jalv_worker_write_packet zix abi w.requests bytes ≡ some ring)
          × (jalv_worker_schedule zix abi iface w bytes
              ≡ (success, record w { requests = ring; sem = w.sem + 1 })))
        ⊎ ((jalv_worker_schedule zix abi iface w bytes).1 ≡ w)
          × ((jalv_worker_schedule zix abi iface w bytes).0 ≢ success)
  unfolding jalv_worker_schedule
  schedule_launched w bytes e = elim (Bool-cases (length bytes == 0)) [
    | inl z ↦ inr (ground arith, ground arith)
    | inr nz ↦ elim (Option-cases (jalv_worker_write_packet zix abi w.requests bytes)) [
      | inl full ↦ inr (ground arith, ground arith)
      | inr (ring, run) ↦ inl (ring, run, ground arith)
    ]
  ]

  -- A state that the two threads can be in, with what was worked on and what is queued.
  abbrev pub Consistent : P → System zix abi iface → Type 0
  Consistent p s =
      (done : List (List ℕ)) × (queue : List (List ℕ)) × Queued zix abi iface p s done queue

  request-Consistent :
      (p : P) (s : System zix abi iface) (bytes : List ℕ)
      → length bytes < 2 ^ 32
      → Consistent p s
      → Consistent p (request zix abi iface s bytes)
  unfolding request record_accepted
  request-Consistent p s bytes h (done, queue, q) =
      elim (schedule_launched s.worker bytes q.running) [
        | inl (ring, run, e) ↦ (
          done,
          queue ++ bytes ∷ [],
          record {
            running = ap (λ (r : WorkerStatus × Worker Ring P). r.1.state) e ∙ q.running;
            split =
                ap
                  (λ (r : WorkerStatus × Worker Ring P).
                    record_accepted zix abi iface (r.0) s.accepted bytes)
                  e
                ∙ ap (λ xs. xs ++ bytes ∷ []) q.split
                ∙ append_assoc done queue (bytes ∷ []);
            plugin = ap (λ (r : WorkerStatus × Worker Ring P). r.1.plugin) e ∙ q.plugin;
            ring =
                ap (λ (r : WorkerStatus × Worker Ring P). contents (r.1.requests)) e
                ∙ contents-write_packet zix abi s.worker.requests ring bytes run
                ∙ ap (λ xs. xs ++ packet abi bytes) q.ring
                ∙ sym (packets-append abi queue bytes);
            counted = omega (
              arith,
              ap (λ (r : WorkerStatus × Worker Ring P). r.1.sem) e,
              length-append queue (bytes ∷ []),
              q.counted,
            );
            small = AllSmall-append zix abi iface queue bytes q.small h;
          },
        )
        | inr (same, failed) ↦ (
          done,
          queue,
          record {
            running = ap (λ (w : Worker Ring P). w.state) same ∙ q.running;
            split =
                not_accepted ((jalv_worker_schedule zix abi iface s.worker bytes).0) s.accepted
                  bytes failed
                ∙ q.split;
            plugin = ap (λ (w : Worker Ring P). w.plugin) same ∙ q.plugin;
            ring = ap (λ (w : Worker Ring P). contents (w.requests)) same ∙ q.ring;
            counted = ap (λ (w : Worker Ring P). w.sem) same ∙ q.counted;
            small = q.small;
          },
        )
      ]

  round_launched :
      (s : System zix abi iface) (p : P) (done queue : List (List ℕ)) (garbage : List ℕ)
      → 0 < s.worker.sem
      → Queued zix abi iface p s done queue
      → (bytes : List ℕ) × (rest : List (List ℕ)) × (ring : Ring) × (queue ≡ bytes ∷ rest)
        × (contents ring ≡ packets abi rest)
        × (worker_round zix abi iface s.worker true garbage
            ≡ some (
                (do_work zix abi iface
                  (record (s.worker) { sem = s.worker.sem - 1; requests = ring })
                  bytes).0))
  unfolding worker_round
  round_launched s p done [] garbage h q = absurd (omega (arith, q.counted))
  round_launched s p done (bytes ∷ rest) garbage h q =
      let (r₁, r₂, size, body, left) =
        read_packet zix abi s.worker.requests garbage bytes (packets abi rest) (q.small.0) q.ring in
      (bytes, rest, r₂, refl, left, ground (arith, q.running, size, body))

  work-Consistent :
      (p : P) (s : System zix abi iface) (garbage : List ℕ) (w : Worker Ring P)
      → 0 < s.worker.sem
      → worker_round zix abi iface s.worker true garbage ≡ some w
      → Consistent p s
      → Consistent p (record s { worker = w })
  unfolding do_work
  work-Consistent p s garbage w pos run (done, queue, q) =
      let (bytes, rest, ring, front, left, round) = round_launched s p done queue garbage pos q in
      let after =
        (do_work zix abi iface (record (s.worker) { sem = s.worker.sem - 1; requests = ring })
          bytes).0 in
      let same : w ≡ after = cc (run, round) in
      (
        done ++ bytes ∷ [],
        rest,
        record {
          running = ap (λ (v : Worker Ring P). v.state) same ∙ q.running;
          split = q.split ∙ ap (λ xs. done ++ xs) front ∙ sym (append_assoc done (bytes ∷ []) rest);
          plugin =
              ap (λ (v : Worker Ring P). v.plugin) same
              ∙ ap (λ (x : P). (iface.work x bytes).0) q.plugin
              ∙ sym (worked-append zix abi iface p done bytes);
          ring = ap (λ (v : Worker Ring P). contents (v.requests)) same ∙ left;
          counted =
              omega
                (arith, ap (λ (v : Worker Ring P). v.sem) same, q.counted, ap length front, pos);
          small = small_rest zix abi iface queue bytes rest front q.small;
        },
      )

  pub Step-Consistent :
      {p : P} {s t : System zix abi iface}
      → Step zix abi iface s t
      → Consistent p s
      → Consistent p t
  Step-Consistent {p} {s} (requests bytes h) c = request-Consistent p s bytes h c
  Step-Consistent {p} {s} (works garbage w pos run) c = work-Consistent p s garbage w pos run c

  Reach-Consistent :
      {p : P} {s t : System zix abi iface}
      → Consistent p s
      → Reach zix abi iface s t
      → Consistent p t
  Reach-Consistent c here = c
  Reach-Consistent c (next r st) = Step-Consistent st (Reach-Consistent c r)

  -- Whatever the order in which the audio thread schedules and the worker thread takes its rounds, from a
  -- launched worker with nothing queued, and if realloc succeeds: the
  -- plugin has worked on the accepted requests from the first on, each once, in order and as it was
  -- handed over; those it has not worked on stand in the ring as whole packets; and the semaphore
  -- counts exactly these.
  pub Reach-Queued :
      (s t : System zix abi iface)
      → IsFresh zix abi iface s
      → Reach zix abi iface s t
      → (done : List (List ℕ)) × (queue : List (List ℕ)) × (t.accepted ≡ done ++ queue)
        × (t.worker.plugin ≡ worked zix abi iface s.worker.plugin done)
        × (contents t.worker.requests ≡ packets abi queue)
        × (t.worker.sem ≡ length queue)
  unfolding worked
  Reach-Queued s t fresh r =
      let start : Consistent s.worker.plugin s = (
        [],
        [],
        record {
          running = fresh.0;
          split = fresh.1;
          plugin = refl;
          ring = fresh.2;
          counted = fresh.3;
          small = tt;
        },
      ) in
      let (done, queue, q) = Reach-Consistent start r in
      (done, queue, q.split, q.plugin, q.ring, q.counted)
