-- ===== src/Logs/Deploys.antt =====
-- The logs of deployments (src/events.ts): publishDeployLog, markDeployLogFinished and
-- sweepDeployLogs. The Map is the list of its entries in the order of insertion, one for each id, so
-- deleting the entry that an iteration stands at leaves it out. How many pages listen to a
-- deployment's topic is a function of its id; emitting to them is left out.
pub mod Bounds
pub mod Live
use musdash.Prelude.{
  ℕ, suc, zero, ◌+◌, ◌-◌, ◌*◌, Bool, true, false, ◌&&◌, String, Option, none, some, List, [], ◌∷◌,
  ◌++◌, if◌then◌else◌, ◌==◌, ltb, length, drop, is_some, get_or_else, map_option,
}
use musdash.Prelude.Dict.{Dict, get, set, delete}

pub record DeployLog : Type 0 where
  pub lines : List String
  pub finished_at : Option ℕ

abbrev pub DeployLogs : Type 0
DeployLogs = Dict DeployLog

abbrev pub deploy_log_cap : ℕ
deploy_log_cap = 2000

abbrev pub deploy_log_keep : ℕ
deploy_log_keep = 50

abbrev pub finished_ttl_ms : ℕ
finished_ttl_ms = 10 * 60 * 1000

abbrev pub Listeners : Type 0
Listeners = String → ℕ

-- log.finishedAt !== null && now - log.finishedAt > TTL. A clock that was set back makes the
-- difference negative in the program and 0 here: neither is above the limit.
abbrev is_old : ℕ → Option ℕ → Bool
is_old now none = false
is_old now (some finished_at) = ltb finished_ttl_ms (now - finished_at)

unfoldable pub is_expired : Listeners → ℕ → String → DeployLog → Bool
is_expired listeners now id log = is_old now log.finished_at && (listeners id == 0)

-- The first loop.
unfoldable pub sweep_expired : Listeners → ℕ → DeployLogs → DeployLogs
unfolding is_expired
sweep_expired listeners now [] = []
sweep_expired listeners now ((id, log) ∷ logs) =
    let rest = sweep_expired listeners now logs in
    if is_expired listeners now id log then rest else (id, log) ∷ rest

-- The second loop; `size` is deployLogs.size when it reaches the entries that are left.
unfoldable pub sweep_finished : ℕ → DeployLogs → DeployLogs
sweep_finished size [] = []
sweep_finished size ((id, log) ∷ logs) =
    let finished = is_some log.finished_at in
    let rest = sweep_finished (if finished then size - 1 else size) logs in
    if ltb size deploy_log_keep
    then (id, log) ∷ logs
    else if finished
    then rest
    else (id, log) ∷ rest

-- The third loop.
unfoldable pub sweep_oldest : ℕ → DeployLogs → DeployLogs
sweep_oldest size [] = []
sweep_oldest size ((id, log) ∷ logs) =
    let rest = sweep_oldest (size - 1) logs in
    if ltb size deploy_log_keep then (id, log) ∷ logs else rest

unfoldable pub sweep_deploy_logs : Listeners → ℕ → DeployLogs → DeployLogs
unfolding sweep_expired sweep_finished sweep_oldest
sweep_deploy_logs listeners now logs =
    let unexpired = sweep_expired listeners now logs in
    let unfinished = sweep_finished (length unexpired) unexpired in
    sweep_oldest (length unfinished) unfinished

-- log.lines.push(text), and the splice above the cap.
unfoldable pub append_text : String → DeployLog → DeployLog
append_text text log =
    let lines = log.lines ++ (text ∷ []) in
    record log {
      lines =
          if ltb deploy_log_cap (length lines)
          then drop (length lines - deploy_log_cap) lines
          else lines;
    }

abbrev pub empty_log : DeployLog
empty_log = record { lines = []; finished_at = none }

-- The map and the log of the deployment, given what the map has for it: where it has none, a sweep
-- makes room and a new log enters the map.
unfoldable pub found_or_new :
    Listeners → ℕ → String → DeployLogs → Option DeployLog → DeployLogs × DeployLog
unfolding sweep_deploy_logs
found_or_new listeners now id logs (some log) = (logs, log)
found_or_new listeners now id logs none =
    (set id empty_log (sweep_deploy_logs listeners now logs), empty_log)

-- The log is an object, so what is pushed on it is pushed on the map's entry.
unfoldable pub publish_deploy_log : Listeners → ℕ → String → String → DeployLogs → DeployLogs
unfolding found_or_new append_text
publish_deploy_log listeners now id text logs =
    let found = found_or_new listeners now id logs (get id logs) in
    set id (append_text text found.1) found.0

abbrev mark_finished : ℕ → DeployLog → DeployLog
mark_finished now log =
    if is_some log.finished_at then log else record log { finished_at = some now }

unfoldable pub mark_found : String → ℕ → DeployLogs → Option DeployLog → DeployLogs
mark_found id now logs none = logs
mark_found id now logs (some log) = set id (mark_finished now log) logs

unfoldable pub mark_deploy_log_finished : String → ℕ → DeployLogs → DeployLogs
unfolding mark_found
mark_deploy_log_finished id now logs = mark_found id now logs (get id logs)

unfoldable pub drop_deploy_logs : String → DeployLogs → DeployLogs
drop_deploy_logs id logs = delete id logs

unfoldable pub deploy_log_count : DeployLogs → ℕ
deploy_log_count logs = length logs

unfoldable pub deploy_log_tail : String → DeployLogs → List String
deploy_log_tail id logs = get_or_else [] (map_option (λ log. log.lines) (get id logs))

-- What happens to the map in the life of the process.
pub data DeployLogEvent : Type 0 where
  publishes : (listeners : Listeners) (now : ℕ) (id text : String) → DeployLogEvent
  finishes : (id : String) (now : ℕ) → DeployLogEvent
  drops : (id : String) → DeployLogEvent

unfoldable pub on_deploy_log_event : DeployLogEvent → DeployLogs → DeployLogs
unfolding publish_deploy_log mark_deploy_log_finished drop_deploy_logs
on_deploy_log_event (publishes listeners now id text) logs =
    publish_deploy_log listeners now id text logs
on_deploy_log_event (finishes id now) logs = mark_deploy_log_finished id now logs
on_deploy_log_event (drops id) logs = drop_deploy_logs id logs

-- The last event is in front.
unfoldable pub deploy_logs_after : List DeployLogEvent → DeployLogs
unfolding on_deploy_log_event
deploy_logs_after [] = []
deploy_logs_after (e ∷ es) = on_deploy_log_event e (deploy_logs_after es)
