-- ===== src/Handler/Worker.antt =====
-- Cornus/include/worker/: what a participant asks of a worker, and the worker that accepts everything.
use cornus.Base.{Bool, true, Bytes}

-- `WorkerImpl`, over what the worker changes.
pub record WorkerImpl (W : Type 0) : Type 0 where
  pub vote_req : Bytes → W → Bool × W
  pub commit : Bytes → W → W

unfoldable pub accept_all_worker : {W : Type 0} → WorkerImpl W
accept_all_worker = record { vote_req = λ req w. (true, w); commit = λ req w. w }
