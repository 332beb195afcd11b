-- ===== src/Tests/WorkerRuns.antt =====
-- A plugin that logs the requests and the responses that it gets, and answers each request with it.
use soundcan.Base.{ℕ, ◌≡◌, refl, arith, some, List, [], ◌∷◌, ◌++◌, length}
use soundcan.Jalv.Worker.{Worker, Interface, launched, jalv_worker_emit_responses}
use soundcan.Jalv.Worker.Packets.{packets}
use soundcan.Jalv.Worker.Threads.{System, requests, Reach, here, next, request, worked}
use soundcan.Jalv.Worker.Threads.Queue.{Reach-Queued}
use soundcan.Jalv.Worker.Responses.{delivered, emit-delivered}
use soundcan.Tests.Rings.{Bytes, byte_ring, words}

abbrev pub echo : Interface (List (List ℕ))
echo = record {
  work = λ log bytes. (log ++ bytes ∷ [], bytes ∷ [], 0);
  work_response = λ log bytes. log ++ bytes ∷ [];
}

abbrev idle : Worker Bytes (List (List ℕ))
idle = record {
  requests = record { bytes = []; room = 64 };
  responses = record { bytes = []; room = 64 };
  sem = 0;
  state = launched;
  plugin = [];
}

abbrev start : System byte_ring words echo
start = record { worker = idle; accepted = [] }

-- Two requests.
two_requests :
    Reach byte_ring words echo start
      (request byte_ring words echo (request byte_ring words echo start (1 ∷ 2 ∷ [])) (3 ∷ []))
two_requests =
    next (next here (requests (1 ∷ 2 ∷ []) (omega arith))) (requests (3 ∷ []) (omega arith))

Reach-Queued_example :
    let t =
      request byte_ring words echo (request byte_ring words echo start (1 ∷ 2 ∷ [])) (3 ∷ []) in
    (done : List (List ℕ)) × (queue : List (List ℕ)) × (t.accepted ≡ done ++ queue)
    × (t.worker.plugin ≡ worked byte_ring words echo [] done)
    × (t.worker.requests.bytes ≡ packets words queue)
    × (t.worker.sem ≡ length queue)
Reach-Queued_example =
    Reach-Queued byte_ring words echo start
      (request byte_ring words echo (request byte_ring words echo start (1 ∷ 2 ∷ [])) (3 ∷ []))
      (refl, refl, refl, refl) two_requests

-- Two responses in the ring.
abbrev answered : Worker Bytes (List (List ℕ))
answered = record idle {
  responses = record { bytes = packets words ((7 ∷ []) ∷ (8 ∷ 9 ∷ []) ∷ []); room = 10 };
}

emit-delivered_example :
    (w' : Worker Bytes (List (List ℕ))) × (jalv_worker_emit_responses byte_ring words echo answered
      ≡ some w')
    × (w'.plugin ≡ delivered byte_ring words echo [] ((7 ∷ []) ∷ (8 ∷ 9 ∷ []) ∷ []))
    × (w'.responses.bytes ≡ [])
    × (w'.state ≡ launched)
    × (w'.sem ≡ 0)
emit-delivered_example =
    emit-delivered byte_ring words echo answered ((7 ∷ []) ∷ (8 ∷ 9 ∷ []) ∷ []) (omega arith) refl
