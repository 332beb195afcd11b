-- ===== src/Jalv/Worker/Stopped.antt =====
-- A worker that was not launched.
use soundcan.Base.{ℕ, ◌≡◌, arith, List}
use soundcan.Zix.{ZixRing}
use soundcan.Abi.{Words}
use soundcan.Jalv.Worker.{Worker, Interface, err_unknown, stopped, jalv_worker_schedule}

-- It takes no request.
pub schedule_stopped :
    (zix : ZixRing) (abi : Words) {P : Type 0} (iface : Interface P) (w : Worker zix.Ring P)
    (bytes : List ℕ)
    → w.state ≡ stopped
    → jalv_worker_schedule zix abi iface w bytes ≡ (err_unknown, w)
unfolding jalv_worker_schedule
schedule_stopped zix abi iface w bytes h = ground arith
