-- ===== src/Reconcile/Sidecars.antt =====
-- The bootstrap jobs of the proxy and of the build daemon (src/reconciler.ts), over the jobs table of
-- the queue. What Docker and the two sidecars answer is given; an enqueue that fails for another
-- reason than the primary key is logged and changes nothing either. PROCESS_NONCE is a parameter.
pub mod Buckets
use musdash.Prelude.{
  ℕ, ◌+◌, ◌*◌, ◌/◌, String, Bool, true, false, ◌&&◌, not, Option, none, some, List, [], ◌∷◌, any,
  if◌then◌else◌,
}
use Prim.Native.String.{◌++◌ as ◌+s◌}
use musdash.Prelude.Show.{show}
use musdash.Queue.Table.{Rows}
use musdash.Queue.{EnqueueOptions, enqueue}

abbrev pub caddy_job_bucket_ms : ℕ
caddy_job_bucket_ms = 5 * 60 * 1000

abbrev pub buildkit_job_bucket_ms : ℕ
buildkit_job_bucket_ms = 60 * 1000

-- A pass at a time; `fresh` is the id that enqueue would draw.
pub record Tick : Type 0 where
  pub now : ℕ
  pub fresh : String
  -- The containers of the sidecar, running or not; none when Docker does not answer.
  pub found : Option (List Bool)
  -- caddy.ping(), or probeDaemon().
  pub answers : Bool
  pub worker_busy : Bool

abbrev pub has_running : List Bool → Bool
has_running cs = any (λ running. running) cs

-- The table after an enqueue; a conflict leaves it.
abbrev pub rows_after : Rows → Option (String × Rows) → Rows
rows_after rows none = rows
rows_after rows (some (i, t)) = t

abbrev pub bootstrap_options : String → EnqueueOptions
bootstrap_options id = record { run_after = none; max_attempts = some 1; id = some id }

module _ (nonce : String) where
  unfoldable pub caddy_job_id : ℕ → String
  caddy_job_id now = "ensure-caddy-" +s nonce +s "-" +s show (now / caddy_job_bucket_ms)

  unfoldable pub buildkit_job_id : ℕ → String
  buildkit_job_id now = "ensure-buildkit-" +s nonce +s "-" +s show (now / buildkit_job_bucket_ms)

  unfoldable pub queue_caddy_bootstrap : ℕ → String → Rows → Rows
  unfolding caddy_job_id
  queue_caddy_bootstrap now fresh rows =
      rows_after rows
        (enqueue "ensure_caddy" [] (bootstrap_options (caddy_job_id now)) fresh now rows)

  unfoldable pub queue_buildkit_bootstrap : ℕ → String → Rows → Rows
  unfolding buildkit_job_id
  queue_buildkit_bootstrap now fresh rows =
      rows_after rows
        (enqueue "ensure_buildkit" [] (bootstrap_options (buildkit_job_id now)) fresh now rows)

  unfoldable pub queue_sidecar_bootstraps : ℕ → String → String → Rows → Rows
  unfolding queue_caddy_bootstrap queue_buildkit_bootstrap
  queue_sidecar_bootstraps now fresh fresh' rows =
      queue_buildkit_bootstrap now fresh' (queue_caddy_bootstrap now fresh rows)

  -- The proxy is known to be down or not to answer.
  unfoldable pub caddy_needed : Option (List Bool) → Bool → Bool
  caddy_needed none answers = false
  caddy_needed (some cs) answers = if has_running cs then not answers else true

  unfoldable pub ensure_caddy_queued : Tick → Rows → Rows
  unfolding caddy_needed queue_caddy_bootstrap
  ensure_caddy_queued t rows =
      if caddy_needed t.found t.answers then queue_caddy_bootstrap t.now t.fresh rows else rows

  -- The table, buildkitReported, and how many lines the outages have logged.
  unfoldable pub buildkit_down : Tick → Rows × Bool × ℕ → Rows × Bool × ℕ
  unfolding queue_buildkit_bootstrap
  buildkit_down t (rows, reported, logged) =
      (queue_buildkit_bootstrap t.now t.fresh rows, true, if reported then logged else logged + 1)

  unfoldable pub ensure_buildkit_found :
      Tick → Option (List Bool) → Rows × Bool × ℕ → Rows × Bool × ℕ
  unfolding buildkit_down
  ensure_buildkit_found t none s = s
  ensure_buildkit_found t (some cs) s =
      let running = has_running cs in
      if running && t.worker_busy
      then s
      else if running && t.answers
      then (s.0, false, s.2)
      else buildkit_down t s

  unfoldable pub ensure_buildkit_queued : Tick → Rows × Bool × ℕ → Rows × Bool × ℕ
  unfolding ensure_buildkit_found
  ensure_buildkit_queued t s = ensure_buildkit_found t t.found s

  -- The passes in the order of the list.
  unfoldable pub caddy_ticks : List Tick → Rows → Rows
  unfolding ensure_caddy_queued
  caddy_ticks [] rows = rows
  caddy_ticks (t ∷ ts) rows = caddy_ticks ts (ensure_caddy_queued t rows)

  unfoldable pub buildkit_ticks : List Tick → Rows × Bool × ℕ → Rows × Bool × ℕ
  unfolding ensure_buildkit_queued
  buildkit_ticks [] s = s
  buildkit_ticks (t ∷ ts) s = buildkit_ticks ts (ensure_buildkit_queued t s)
