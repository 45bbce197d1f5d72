-- ===== src/Logs/Tests.antt =====
-- Tests of the log buffers (src/logs/buffer.ts): a ring of two slots after three lines.
use musdash.Prelude.{
  ℕ, ◌-◌, ◌<◌, ◌≡◌, refl, String, List, [], ◌∷◌, Option, some, length, get_elem?, arith,
}
use musdash.Logs.Ring.{RingBuffer, new_ring, push, to_array}
use musdash.Logs.Ring.History.{Holds, new_ring-Holds, push-Holds, to_array-Holds}
use musdash.Logs.Buffers.{Tracks}
use musdash.Prelude.{none}
use musdash.Prelude.Dict.{get, set}
use musdash.Logs.Deploys.{
  DeployLog, DeployLogs, Listeners, DeployLogEvent, publishes, finishes, drops, publish_deploy_log,
  found_or_new, append_text, sweep_deploy_logs, sweep_expired, sweep_finished, sweep_oldest,
  is_expired, deploy_logs_after,
}
use musdash.Logs.Deploys.Bounds.{Bounded, deploy_logs_after-Bounded}
use musdash.Logs.Deploys.Live.{live_count, live_log_is_kept}

abbrev empty_ring : RingBuffer String
empty_ring = new_ring 2

abbrev full_ring : RingBuffer String
full_ring = push "c" (push "b" (push "a" empty_ring))

Holds-empty : Holds empty_ring []
Holds-empty = new_ring-Holds 2 (omega arith)

Holds-full : Holds full_ring ("c" ∷ "b" ∷ "a" ∷ [])
Holds-full = push-Holds "c" _ _ (push-Holds "b" _ _ (push-Holds "a" empty_ring [] Holds-empty))

to_array-Holds_example :
    (length (to_array full_ring 500) ≡ 2)
    × ((i : ℕ)
        → i < 2
        → get_elem? (to_array full_ring 500) i
          ≡ some (get_elem? ("c" ∷ "b" ∷ "a" ∷ []) (2 - 1 - i)))
unfolding new_ring push
to_array-Holds_example = to_array-Holds 500 full_ring ("c" ∷ "b" ∷ "a" ∷ []) Holds-full

abbrev no_log : String → List String
no_log id = []

Tracks-empty : Tracks {A = String} [] no_log
unfolding musdash.Prelude.Dict.get
Tracks-empty id = refl

abbrev nobody : Listeners
nobody id = 0

abbrev two_deploys : DeployLogs
two_deploys = publish_deploy_log nobody 2 "d2" "start" (publish_deploy_log nobody 1 "d1" "start" [])

abbrev first_log : DeployLog
first_log = record { lines = "start" ∷ []; finished_at = none }

first_is_there : get "d1" two_deploys ≡ some first_log
unfolding publish_deploy_log found_or_new append_text sweep_deploy_logs sweep_expired sweep_finished
    sweep_oldest is_expired get set
first_is_there = refl

first_is_live : live_count two_deploys < 50
unfolding publish_deploy_log found_or_new append_text sweep_deploy_logs sweep_expired sweep_finished
    sweep_oldest is_expired get set
first_is_live = omega arith

live_log_is_kept_example :
    get "d1" (publish_deploy_log nobody 3 "d3" "start" two_deploys) ≡ some first_log
live_log_is_kept_example =
    live_log_is_kept nobody 3 "d3" "start" "d1" first_log two_deploys refl refl first_is_there
      first_is_live

abbrev some_events : List DeployLogEvent
some_events =
    drops "d0"
    ∷ finishes "d1" 5
    ∷ publishes nobody 2 "d1" "pulled"
    ∷ publishes nobody 1 "d1" "start"
    ∷ []

deploy_logs_after-Bounded_example : Bounded (deploy_logs_after some_events)
deploy_logs_after-Bounded_example = deploy_logs_after-Bounded some_events
