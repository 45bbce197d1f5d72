-- ===== src/Logs/Deploys/Bounds.antt =====
-- The memory that the logs of deployments take (src/events.ts) stays bounded.
use musdash.Prelude.{
  ℕ, suc, ◌+◌, ◌-◌, ◌≤◌, ◌<◌, ◌≡◌, refl, ap, sym, eq_iff, ◌∙◌, subst, ltb→lt, String, Option, none,
  some, List, [], ◌∷◌, ◌++◌, arith, ltb, length, length-drop, All, inl, inr, Bool-cases, str_eq,
  is_some,
}
use mathlib.Core.Option.{some-injective, none-ne-some}
use musdash.Prelude.Dict.{get, set, delete, get-set}
use musdash.Logs.Deploys.{
  DeployLog, DeployLogs, deploy_log_cap, deploy_log_keep, Listeners, is_expired, sweep_expired,
  sweep_finished, sweep_oldest, sweep_deploy_logs, append_text, empty_log, found_or_new, mark_found,
  mark_finished, publish_deploy_log, mark_deploy_log_finished, drop_deploy_logs, DeployLogEvent,
  publishes, finishes, drops, on_deploy_log_event, deploy_logs_after,
}

-- No log is longer than the cap.
abbrev pub Capped : DeployLogs → Type 0
Capped logs = All (λ e. length e.1.lines ≤ deploy_log_cap) logs

Capped-get :
    (id : String) (logs : DeployLogs) (log : DeployLog)
    → Capped logs
    → get id logs ≡ some log
    → length log.lines ≤ deploy_log_cap
unfolding get
Capped-get id [] log h e = absurd (none-ne-some _ e)
Capped-get id ((j, found) ∷ logs) log h e = elim (Bool-cases (str_eq j id)) [
  | inl f ↦ subst (λ l. length l.lines ≤ deploy_log_cap) (some-injective _ _ (rw f at e)) h.0
  | inr f ↦ Capped-get id logs log h.1 (rw f at e)
]

Capped-set :
    (id : String) (log : DeployLog) (logs : DeployLogs)
    → length log.lines ≤ deploy_log_cap
    → Capped logs
    → Capped (set id log logs)
unfolding set
Capped-set id log [] hl h = (hl, tt)
Capped-set id log ((j, found) ∷ logs) hl h = elim (Bool-cases (str_eq j id)) [
  | inl e ↦ rw e (hl, h.1)
  | inr e ↦ rw e (h.0, Capped-set id log logs hl h.1)
]

Capped-delete : (id : String) (logs : DeployLogs) → Capped logs → Capped (delete id logs)
unfolding delete
Capped-delete id [] h = tt
Capped-delete id ((j, found) ∷ logs) h = elim (Bool-cases (str_eq j id)) [
  | inl e ↦ rw e (Capped-delete id logs h.1)
  | inr e ↦ rw e (h.0, Capped-delete id logs h.1)
]

Capped-sweep_expired :
    (listeners : Listeners) (now : ℕ) (logs : DeployLogs)
    → Capped logs
    → Capped (sweep_expired listeners now logs)
unfolding sweep_expired
Capped-sweep_expired listeners now [] h = tt
Capped-sweep_expired listeners now ((id, log) ∷ logs) h =
    elim (Bool-cases (is_expired listeners now id log)) [
      | inl e ↦ rw e (Capped-sweep_expired listeners now logs h.1)
      | inr e ↦ rw e (h.0, Capped-sweep_expired listeners now logs h.1)
    ]

Capped-sweep_finished :
    (size : ℕ) (logs : DeployLogs) → Capped logs → Capped (sweep_finished size logs)
unfolding sweep_finished
Capped-sweep_finished size [] h = tt
Capped-sweep_finished size ((id, log) ∷ logs) h = elim (Bool-cases (ltb size deploy_log_keep)) [
  | inl e ↦ rw e h
  | inr e ↦ elim (Bool-cases (is_some log.finished_at)) [
    | inl f ↦ rw (e, f) (Capped-sweep_finished (size - 1) logs h.1)
    | inr f ↦ rw (e, f) (h.0, Capped-sweep_finished size logs h.1)
  ]
]

Capped-sweep_oldest : (size : ℕ) (logs : DeployLogs) → Capped logs → Capped (sweep_oldest size logs)
unfolding sweep_oldest
Capped-sweep_oldest size [] h = tt
Capped-sweep_oldest size ((id, log) ∷ logs) h = elim (Bool-cases (ltb size deploy_log_keep)) [
  | inl e ↦ rw e h
  | inr e ↦ rw e (Capped-sweep_oldest (size - 1) logs h.1)
]

length-sweep_oldest :
    (logs : DeployLogs) → length (sweep_oldest (length logs) logs) < deploy_log_keep
unfolding sweep_oldest
length-sweep_oldest [] = omega arith
length-sweep_oldest ((id, log) ∷ logs) =
    elim (Bool-cases (ltb (suc (length logs)) deploy_log_keep)) [
      | inl e ↦ rw e (ltb→lt _ _ e)
      | inr e ↦ rw e (
          subst (λ n. length (sweep_oldest n logs) < deploy_log_keep) (omega arith)
            (length-sweep_oldest logs))
    ]

length-append_text :
    (text : String) (log : DeployLog) → length (append_text text log).lines ≤ deploy_log_cap
unfolding append_text
length-append_text text log =
    let lines = log.lines ++ (text ∷ []) in
    elim (Bool-cases (ltb deploy_log_cap (length lines))) [
      | inl e ↦
          rw e (omega (arith, ltb→lt _ _ e, length-drop (length lines - deploy_log_cap) lines))
      | inr e ↦ rw e (ground (arith, e))
    ]

length-set_old :
    (id : String) (log : DeployLog) (logs : DeployLogs) (old : DeployLog)
    → get id logs ≡ some old
    → length (set id log logs) ≡ length logs
unfolding get set
length-set_old id log [] old e = absurd (none-ne-some _ e)
length-set_old id log ((j, found) ∷ logs) old e = elim (Bool-cases (str_eq j id)) [
  | inl f ↦ rw f refl
  | inr f ↦ rw f (ap suc (length-set_old id log logs old (rw f at e)))
]

get-set_self :
    (id : String) (log : DeployLog) (logs : DeployLogs) → get id (set id log logs) ≡ some log
get-set_self id log logs = get-set id id log logs ∙ ground (arith, eq_iff id id)

length-set_bound :
    (id : String) (log : DeployLog) (logs : DeployLogs) → length (set id log logs) ≤ length logs + 1
unfolding set
length-set_bound id log [] = omega arith
length-set_bound id log ((j, found) ∷ logs) = elim (Bool-cases (str_eq j id)) [
  | inl f ↦ rw f (omega arith)
  | inr f ↦ rw f (omega (arith, length-set_bound id log logs))
]

length-delete_bound : (id : String) (logs : DeployLogs) → length (delete id logs) ≤ length logs
unfolding delete
length-delete_bound id [] = omega arith
length-delete_bound id ((j, found) ∷ logs) = elim (Bool-cases (str_eq j id)) [
  | inl f ↦ rw f (omega (arith, length-delete_bound id logs))
  | inr f ↦ rw f (omega (arith, length-delete_bound id logs))
]

-- Both bounds of the map.
abbrev pub Bounded : DeployLogs → Type 0
Bounded logs = Capped logs × (length logs ≤ deploy_log_keep)

Capped-sweep_deploy_logs :
    (listeners : Listeners) (now : ℕ) (logs : DeployLogs)
    → Capped logs
    → Capped (sweep_deploy_logs listeners now logs)
unfolding sweep_deploy_logs
Capped-sweep_deploy_logs listeners now logs h =
    Capped-sweep_oldest _ _ (Capped-sweep_finished _ _ (Capped-sweep_expired listeners now logs h))

pub length-sweep_deploy_logs :
    (listeners : Listeners) (now : ℕ) (logs : DeployLogs)
    → length (sweep_deploy_logs listeners now logs) < deploy_log_keep
unfolding sweep_deploy_logs
length-sweep_deploy_logs listeners now logs =
    let unexpired = sweep_expired listeners now logs in
    length-sweep_oldest (sweep_finished (length unexpired) unexpired)

publish-Bounded :
    (listeners : Listeners) (now : ℕ) (id text : String) (logs : DeployLogs) (o : Option DeployLog)
    → get id logs ≡ o
    → Bounded logs
    → Bounded (
        set id
          (append_text text (found_or_new listeners now id logs o).1)
          (found_or_new listeners now id logs o).0)
unfolding found_or_new
publish-Bounded listeners now id text logs (some log) e h = (
  Capped-set id (append_text text log) logs (length-append_text text log) h.0,
  subst (λ n. n ≤ deploy_log_keep) (sym (length-set_old id (append_text text log) logs log e)) h.1,
)
publish-Bounded listeners now id text logs none e h =
    let swept = sweep_deploy_logs listeners now logs in
    let opened = set id empty_log swept in
    (
      Capped-set id (append_text text empty_log) opened (length-append_text text empty_log) (
          Capped-set id empty_log swept (omega arith)
            (Capped-sweep_deploy_logs listeners now logs h.0)),
      subst (λ n. n ≤ deploy_log_keep)
          (sym (
            length-set_old id (append_text text empty_log) opened empty_log
              (get-set_self id empty_log swept)))
          (omega (
            arith,
            length-set_bound id empty_log swept,
            length-sweep_deploy_logs listeners now logs,
          )),
    )

marked_lines :
    (now : ℕ) (log : DeployLog)
    → length log.lines ≤ deploy_log_cap
    → length (mark_finished now log).lines ≤ deploy_log_cap
marked_lines now log h = elim (Bool-cases (is_some log.finished_at)) [
  | inl e ↦ rw e h
  | inr e ↦ rw e h
]

mark-Bounded :
    (id : String) (now : ℕ) (logs : DeployLogs) (o : Option DeployLog)
    → get id logs ≡ o
    → Bounded logs
    → Bounded (mark_found id now logs o)
unfolding mark_found
mark-Bounded id now logs none e h = h
mark-Bounded id now logs (some log) e h = (
  Capped-set id (mark_finished now log) logs (marked_lines now log (Capped-get id logs log h.0 e))
      h.0,
  subst (λ n. n ≤ deploy_log_keep) (sym (length-set_old id (mark_finished now log) logs log e)) h.1,
)

event-Bounded :
    (e : DeployLogEvent) (logs : DeployLogs) → Bounded logs → Bounded (on_deploy_log_event e logs)
unfolding on_deploy_log_event publish_deploy_log mark_deploy_log_finished drop_deploy_logs
event-Bounded (publishes listeners now id text) logs h =
    publish-Bounded listeners now id text logs (get id logs) refl h
event-Bounded (finishes id now) logs h = mark-Bounded id now logs (get id logs) refl h
event-Bounded (drops id) logs h =
    (Capped-delete id logs h.0, omega (arith, length-delete_bound id logs, h.1))

-- Whatever is published, marked finished and dropped, in any order, at any time and with any pages
-- listening: no deployment's log is longer than 2000 lines, and at most 50 logs are held.
pub deploy_logs_after-Bounded : (es : List DeployLogEvent) → Bounded (deploy_logs_after es)
unfolding deploy_logs_after
deploy_logs_after-Bounded [] = (tt, omega arith)
deploy_logs_after-Bounded (e ∷ es) =
    event-Bounded e (deploy_logs_after es) (deploy_logs_after-Bounded es)
