-- ===== src/Queue/Reach.antt =====
-- The queue and the one worker as a transition system (src/queue/index.ts, src/queue/worker.ts):
-- the handlers of requests enqueue, cancel and prune at any moment, the worker claims a job only
-- when it runs none, and it completes or fails only the job that it runs. A restart forgets the
-- running job and returns every lease. Recording an outcome can itself fail, which leaves the lease
-- (`forgets`).
pub mod Lifecycle
pub mod Invariant
pub mod Claims
pub mod Finished
use musdash.Prelude.{
  ℕ, zero, suc, ◌+◌, ◌≤◌, ◌<◌, ◌≡◌, ◌≢◌, refl, sym, ◌⊎◌, inl, inr, String, Bool, true, false,
  Option, none, some, List, arith, if◌then◌else◌, str_eq, eq_iff, map_option, Bool-cases,
  Option-cases, max,
}
use musdash.Queue.Fields.{Payload}
use musdash.Queue.Table.{
  Job, Rows, Status, pending, leased, done, failed, cancelled, is_finished, get_job,
}
use musdash.Queue.{
  EnqueueOptions, enqueue, claim, complete, fail, recover_orphaned_leases, cancel_pending_deploy,
  prune_finished_jobs,
}

-- The table, the job whose handler is running, and how often leases were recovered.
pub record World : Type 0 where
  pub rows : Rows
  pub running : Option String
  pub recoveries : ℕ

abbrev pub id_of : Option Job → Option String
id_of o = map_option (λ j. j.id) o

pub data Step (w v : World) : Type 0 where
  enqueues :
      (type : String) (payload : Payload) (opts : EnqueueOptions) (fresh i : String) (now : ℕ)
      (t : Rows)
      → enqueue type payload opts fresh now w.rows ≡ some (i, t)
      → v ≡ record w { rows = t }
      → Step w v
  claims :
      (now : ℕ)
      → w.running ≡ none
      → v ≡ record w { rows = (claim now w.rows).1; running = id_of (claim now w.rows).0 }
      → Step w v
  completes :
      (i : String)
      → w.running ≡ some i
      → v ≡ record w { rows = complete i w.rows; running = none }
      → Step w v
  fails :
      (i error : String) (now : ℕ)
      → w.running ≡ some i
      → v ≡ record w { rows = (fail i error now w.rows).1; running = none }
      → Step w v
  forgets : w.running ≢ none → v ≡ record w { running = none } → Step w v
  cancels :
      (deployment_id : String)
      → v ≡ record w { rows = (cancel_pending_deploy deployment_id w.rows).1 }
      → Step w v
  prunes :
      (hours now : ℕ) → v ≡ record w { rows = (prune_finished_jobs hours now w.rows).1 } → Step w v
  restarts :
      v ≡ record w {
        rows = (recover_orphaned_leases w.rows).1;
        running = none;
        recoveries = suc w.recoveries;
      }
      → Step w v

pub data Reach (w : World) : World → Type 0 where
  here : Reach w w
  next : {u v : World} → Reach w u → Step u v → Reach w v

abbrev pub start : World
start = record { rows = List.[]; running = none; recoveries = 0 }
