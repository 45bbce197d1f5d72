-- ===== src/Volumes/Shared.antt =====
-- Every page shares one measurement (src/volumes/sizes.ts): how often the daemon is asked.
use musdash.Prelude.{
  ℕ, ◌+◌, ◌-◌, ◌*◌, ◌≤◌, ◌≡◌, refl, subst, Bool, true, false, Option, none, some, List, [], ◌∷◌,
  arith, if◌then◌else◌, inl, inr, Bool-cases,
}
use musdash.Volumes.Sizes.{
  VolumeUsage, VolumeSizeCacheOptions, VolumeSizeCache, Stored, Answer, serves, joins, starts,
  create_volume_size_cache, is_fresh, get_sizes, refreshed,
}

-- A page asks, or the fetch in progress settles with a list or with none, which is a failure. `wait`
-- is how much later than the event before that happens.
pub data CacheEvent : Type 0 where
  asks : (wait : ℕ) → CacheEvent
  fetched : (wait : ℕ) (result : Option (List VolumeUsage)) → CacheEvent

-- The cache, the clock, and how many fetches were started.
pub record Run : Type 0 where
  pub cache : VolumeSizeCache
  pub now : ℕ
  pub fetches : ℕ

abbrev one_if_starts : Answer → ℕ
one_if_starts (serves s) = 0
one_if_starts joins = 0
one_if_starts starts = 1

module _ (options : VolumeSizeCacheOptions) where
  -- A fetch that is not in progress cannot settle.
  unfoldable pub on_cache_event : CacheEvent → Run → Run
  unfolding get_sizes refreshed
  on_cache_event (asks wait) r =
      let at = r.now + wait in
      let answer = get_sizes at r.cache in
      record { cache = answer.0; now = at; fetches = r.fetches + one_if_starts answer.1 }
  on_cache_event (fetched wait result) r =
      let at = r.now + wait in
      if r.cache.in_flight
      then record r { cache = refreshed options result at; now = at }
      else record r { now = at }

  -- The last event is in front; the clock starts at 0.
  unfoldable pub run : List CacheEvent → Run
  unfolding on_cache_event create_volume_size_cache
  run [] = record { cache = create_volume_size_cache; now = 0; fetches = 0 }
  run (e ∷ es) = on_cache_event e (run es)

-- A result was stored at a time, to be served for at least `gap`.
abbrev StoredAfter : ℕ → ℕ → ℕ → Option Stored → Type 0
StoredAfter gap fetches now none = fetches ≡ 0
StoredAfter gap fetches now (some s) =
    (fetches * gap ≤ s.at + gap) × (s.at ≤ now) × (gap ≤ s.ttl_ms)

-- Fetches that ended take their time each; the one in progress started when they had.
abbrev Pacing : ℕ → Bool → Option Stored → ℕ → ℕ → Type 0
Pacing gap true stored fetches now = fetches * gap ≤ now + gap
Pacing gap false stored fetches now = StoredAfter gap fetches now stored

abbrev PacedRun : ℕ → Run → Type 0
PacedRun gap r = Pacing gap r.cache.in_flight r.cache.stored r.fetches r.now

StoredAfter-later :
    (gap fetches now wait : ℕ) (o : Option Stored)
    → StoredAfter gap fetches now o
    → StoredAfter gap fetches (now + wait) o
StoredAfter-later gap fetches now wait none h = h
StoredAfter-later gap fetches now wait (some s) h = (h.0, omega (arith, h.1), h.2)

Pacing-later :
    (gap : ℕ) (in_flight : Bool) (o : Option Stored) (fetches now wait : ℕ)
    → Pacing gap in_flight o fetches now
    → Pacing gap in_flight o fetches (now + wait)
Pacing-later gap true o fetches now wait h = omega (arith, h)
Pacing-later gap false o fetches now wait h = StoredAfter-later gap fetches now wait o h

-- A fetch that starts comes at least `gap` after the last one ended.
start_is_paced :
    (gap fetches now wait : ℕ) (o : Option Stored)
    → is_fresh (now + wait) o ≡ false
    → StoredAfter gap fetches now o
    → (fetches + 1) * gap ≤ now + wait + gap
start_is_paced gap fetches now wait none e h = rw h (omega arith)
start_is_paced gap fetches now wait (some s) e h =
    let late : s.ttl_ms ≤ now + wait - s.at = ground (arith, e) in
    omega (arith, h.0, h.1, h.2, late)

Pacing-bound :
    (gap : ℕ) (in_flight : Bool) (o : Option Stored) (fetches now : ℕ)
    → Pacing gap in_flight o fetches now
    → fetches * gap ≤ now + gap
Pacing-bound gap true o fetches now h = h
Pacing-bound gap false none fetches now h = rw h (omega arith)
Pacing-bound gap false (some s) fetches now h = omega (arith, h.0, h.1)

plus_nothing : (n : ℕ) → n ≡ n + 0
plus_nothing n = omega arith

module _ (options : VolumeSizeCacheOptions) (gap : ℕ) (ttl : gap ≤ options.ttl_ms)
    (failure_ttl : gap ≤ options.failure_ttl_ms) where
  busy_bound : (r : Run) → r.cache.in_flight ≡ true → PacedRun gap r → r.fetches * gap ≤ r.now + gap
  busy_bound r busy h = rw busy at h

  idle_after :
      (r : Run)
      → r.cache.in_flight ≡ false
      → PacedRun gap r
      → StoredAfter gap r.fetches r.now r.cache.stored
  idle_after r idle h = rw idle at h

  asks-PacedRun :
      (wait : ℕ) (r : Run) → PacedRun gap r → PacedRun gap (on_cache_event options (asks wait) r)
  unfolding on_cache_event get_sizes
  asks-PacedRun wait r h = elim (Bool-cases (is_fresh (r.now + wait) r.cache.stored)) [
    | inl fresh ↦ rw fresh (
        subst (λ f. Pacing gap r.cache.in_flight r.cache.stored f (r.now + wait))
          (plus_nothing r.fetches)
          (Pacing-later gap r.cache.in_flight r.cache.stored r.fetches r.now wait h))
    | inr stale ↦ elim (Bool-cases r.cache.in_flight) [
      | inl busy ↦ rw (stale, busy) (omega (arith, busy_bound r busy h))
      | inr idle ↦
          rw (stale, idle)
            (start_is_paced gap r.fetches r.now wait r.cache.stored stale (idle_after r idle h))
    ]
  ]

  fetched-PacedRun :
      (wait : ℕ) (result : Option (List VolumeUsage)) (r : Run)
      → PacedRun gap r
      → PacedRun gap (on_cache_event options (fetched wait result) r)
  unfolding on_cache_event refreshed
  fetched-PacedRun wait none r h = elim (Bool-cases r.cache.in_flight) [
    | inl busy ↦ rw busy (omega (arith, busy_bound r busy h), omega arith, failure_ttl)
    | inr idle ↦
        rw idle (StoredAfter-later gap r.fetches r.now wait r.cache.stored (idle_after r idle h))
  ]
  fetched-PacedRun wait (some list) r h = elim (Bool-cases r.cache.in_flight) [
    | inl busy ↦ rw busy (omega (arith, busy_bound r busy h), omega arith, ttl)
    | inr idle ↦
        rw idle (StoredAfter-later gap r.fetches r.now wait r.cache.stored (idle_after r idle h))
  ]

  run-PacedRun : (es : List CacheEvent) → PacedRun gap (run options es)
  unfolding run create_volume_size_cache
  run-PacedRun [] = refl
  run-PacedRun (asks wait ∷ es) = asks-PacedRun wait (run options es) (run-PacedRun es)
  run-PacedRun (fetched wait result ∷ es) =
      fetched-PacedRun wait result (run options es) (run-PacedRun es)

  -- However often pages ask and whether fetches succeed or fail: the daemon is asked to measure at
  -- most once for every `gap` of time, and once more. Both limits of the cache are at least `gap`.
  pub fetches_are_paced :
      (es : List CacheEvent) → (run options es).fetches * gap ≤ (run options es).now + gap
  fetches_are_paced es =
      let r = run options es in
      Pacing-bound gap r.cache.in_flight r.cache.stored r.fetches r.now (run-PacedRun es)
