-- ===== src/Logs/Deploys/Live.antt =====
-- The log of a deployment that has not finished (src/events.ts) outlives the sweeps.
use musdash.Prelude.{
  ℕ, suc, ◌+◌, ◌-◌, ◌≤◌, ◌<◌, ◌≡◌, refl, ap, sym, ◌∙◌, Bool, true, false, String, Option, none,
  some, [], ◌∷◌, arith, if◌then◌else◌, ltb, lt→ltb, ltb→lt, length, ◌⊎◌, inl, inr, Bool-cases,
  str_eq, is_some, ◌&&◌,
}
use mathlib.Core.Bool.{false≢true}
use mathlib.Core.Option.{some-injective}
use musdash.Prelude.Dict.{get, set, get-set}
use musdash.Logs.Deploys.{
  DeployLog, DeployLogs, deploy_log_keep, Listeners, is_old, is_expired, sweep_expired,
  sweep_finished, sweep_oldest, sweep_deploy_logs, append_text, found_or_new, publish_deploy_log,
}

abbrev pub live : DeployLog → ℕ
live log = if is_some log.finished_at then 0 else 1

-- How many deployments with a log have not finished.
abbrev pub live_count : DeployLogs → ℕ
live_count [] = 0
live_count ((id, log) ∷ logs) = live log + live_count logs

old_is_finished :
    (now : ℕ) (o : Option ℕ) (b : Bool) → (is_old now o && b) ≡ true → is_some o ≡ true
old_is_finished now none b h = absurd (false≢true h)
old_is_finished now (some t) b h = refl

expired-finished :
    (listeners : Listeners) (now : ℕ) (j : String) (l : DeployLog)
    → is_expired listeners now j l ≡ true
    → is_some l.finished_at ≡ true
unfolding is_expired
expired-finished listeners now j l h = old_is_finished now l.finished_at _ h

-- The entry that a look-up of `id` finds, when the first entry is or is not under that id.
module _ (id : String) (log : DeployLog) (unfinished : log.finished_at ≡ none) where
  keeps_first :
      (j : String) (l : DeployLog) (rest more : DeployLogs)
      → (get id rest ≡ some log → get id more ≡ some log)
      → get id ((j, l) ∷ rest) ≡ some log
      → get id ((j, l) ∷ more) ≡ some log
  unfolding get
  keeps_first j l rest more f e = elim (Bool-cases (str_eq j id)) [
    | inl h ↦ rw h (rw h at e)
    | inr h ↦ rw h (f (rw h at e))
  ]

  -- An entry that is found live is under another id when it has finished.
  past_first :
      (j : String) (l : DeployLog) (rest : DeployLogs)
      → is_some l.finished_at ≡ true
      → get id ((j, l) ∷ rest) ≡ some log
      → get id rest ≡ some log
  unfolding get
  past_first j l rest f e = elim (Bool-cases (str_eq j id)) [
    | inl h ↦ absurd (
        false≢true (
          sym (ap (λ o. is_some o) unfinished)
          ∙ sym (ap (λ x. is_some x.finished_at) (some-injective _ _ (rw h at e)))
          ∙ f))
    | inr h ↦ rw h at e
  ]

  sweep_expired-keeps :
      (listeners : Listeners) (now : ℕ) (logs : DeployLogs)
      → get id logs ≡ some log
      → get id (sweep_expired listeners now logs) ≡ some log
  unfolding sweep_expired
  sweep_expired-keeps listeners now [] e = e
  sweep_expired-keeps listeners now ((j, l) ∷ logs) e =
      elim (Bool-cases (is_expired listeners now j l)) [
        | inl h ↦ rw h (
            sweep_expired-keeps listeners now logs
              (past_first j l logs (expired-finished listeners now j l h) e))
        | inr h ↦ rw h (keeps_first j l logs _ (sweep_expired-keeps listeners now logs) e)
      ]

  sweep_finished-keeps :
      (size : ℕ) (logs : DeployLogs)
      → get id logs ≡ some log
      → get id (sweep_finished size logs) ≡ some log
  unfolding sweep_finished
  sweep_finished-keeps size [] e = e
  sweep_finished-keeps size ((j, l) ∷ logs) e = elim (Bool-cases (ltb size deploy_log_keep)) [
    | inl h ↦ rw h e
    | inr h ↦ elim (Bool-cases (is_some l.finished_at)) [
      | inl f ↦ rw (h, f) (sweep_finished-keeps (size - 1) logs (past_first j l logs f e))
      | inr f ↦ rw (h, f) (keeps_first j l logs _ (sweep_finished-keeps size logs) e)
    ]
  ]

live_count-sweep_expired :
    (listeners : Listeners) (now : ℕ) (logs : DeployLogs)
    → live_count (sweep_expired listeners now logs) ≤ live_count logs
unfolding sweep_expired
live_count-sweep_expired listeners now [] = omega arith
live_count-sweep_expired listeners now ((j, l) ∷ logs) =
    elim (Bool-cases (is_expired listeners now j l)) [
      | inl h ↦ rw h (omega (arith, live_count-sweep_expired listeners now logs))
      | inr h ↦ rw h (omega (arith, live_count-sweep_expired listeners now logs))
    ]

none_more :
    (kept a c : ℕ)
    → (kept + a < deploy_log_keep) ⊎ (a ≡ c)
    → (kept + a < deploy_log_keep) ⊎ (a ≡ 0 + c)
none_more kept a c (inl h) = inl h
none_more kept a c (inr h) = inr (omega (arith, h))

one_more :
    (kept a c : ℕ)
    → (kept + 1 + a < deploy_log_keep) ⊎ (a ≡ c)
    → (kept + suc a < deploy_log_keep) ⊎ (suc a ≡ 1 + c)
one_more kept a c (inl h) = inl (omega (arith, h))
one_more kept a c (inr h) = inr (omega (arith, h))

-- After the second loop there is room, or all that are left have not finished.
length-sweep_finished :
    (kept size : ℕ) (logs : DeployLogs)
    → size ≡ kept + length logs
    → (kept + length (sweep_finished size logs) < deploy_log_keep)
      ⊎ (length (sweep_finished size logs) ≡ live_count logs)
unfolding sweep_finished
length-sweep_finished kept size [] e = inr refl
length-sweep_finished kept size ((j, l) ∷ logs) e = elim (Bool-cases (ltb size deploy_log_keep)) [
  | inl h ↦ rw h (inl (omega (arith, ltb→lt _ _ h)))
  | inr h ↦ elim (Bool-cases (is_some l.finished_at)) [
    | inl f ↦
        rw (h, f)
          (none_more kept _ _ (length-sweep_finished kept (size - 1) logs (omega (arith, e))))
    | inr f ↦
        rw (h, f)
          (one_more kept _ _ (length-sweep_finished (kept + 1) size logs (omega (arith, e))))
  ]
]

sweep_oldest-room :
    (logs : DeployLogs) → length logs < deploy_log_keep → sweep_oldest (length logs) logs ≡ logs
unfolding sweep_oldest
sweep_oldest-room [] h = refl
sweep_oldest-room ((j, l) ∷ logs) h = rw (lt→ltb _ _ h) refl

room : (a c : ℕ) → (0 + a < deploy_log_keep) ⊎ (a ≡ c) → c < deploy_log_keep → a < deploy_log_keep
room a c (inl h) hc = omega (arith, h)
room a c (inr h) hc = omega (arith, h, hc)

sweep_deploy_logs-keeps :
    (listeners : Listeners) (now : ℕ) (id : String) (log : DeployLog) (logs : DeployLogs)
    → log.finished_at ≡ none
    → get id logs ≡ some log
    → live_count logs < deploy_log_keep
    → get id (sweep_deploy_logs listeners now logs) ≡ some log
unfolding sweep_deploy_logs
sweep_deploy_logs-keeps listeners now id log logs u e h =
    let unexpired = sweep_expired listeners now logs in
    let unfinished = sweep_finished (length unexpired) unexpired in
    let few : length unfinished < deploy_log_keep =
      room _ _ (length-sweep_finished 0 (length unexpired) unexpired (omega arith))
        (omega (arith, live_count-sweep_expired listeners now logs, h)) in
    ap (get id) (sweep_oldest-room unfinished few)
    ∙ sweep_finished-keeps id log u (length unexpired) unexpired
        (sweep_expired-keeps id log u listeners now logs e)

publish-keeps :
    (listeners : Listeners) (now : ℕ) (other text id : String) (log : DeployLog) (logs : DeployLogs)
    (o : Option DeployLog)
    → str_eq other id ≡ false
    → log.finished_at ≡ none
    → get id logs ≡ some log
    → live_count logs < deploy_log_keep
    → get id (
        set other
          (append_text text (found_or_new listeners now other logs o).1)
          (found_or_new listeners now other logs o).0)
      ≡ some log
unfolding found_or_new
publish-keeps listeners now other text id log logs (some l) d u e h = get-set other id _ _ ∙ rw d e
publish-keeps listeners now other text id log logs none d u e h =
    get-set other id _ _
    ∙ rw d (get-set other id _ _ ∙ rw d (sweep_deploy_logs-keeps listeners now id log logs u e h))

-- While fewer than 50 deployments that have a log are unfinished, output of one deployment leaves
-- the log of any other unfinished one as it is, however many logs are swept to make room.
pub live_log_is_kept :
    (listeners : Listeners) (now : ℕ) (other text id : String) (log : DeployLog) (logs : DeployLogs)
    → str_eq other id ≡ false
    → log.finished_at ≡ none
    → get id logs ≡ some log
    → live_count logs < deploy_log_keep
    → get id (publish_deploy_log listeners now other text logs) ≡ some log
unfolding publish_deploy_log
live_log_is_kept listeners now other text id log logs d u e h =
    publish-keeps listeners now other text id log logs (get other logs) d u e h
