-- ===== src/Reconcile/Plan/Backoff.antt =====
-- The waits of a streak (src/reconciler.ts, backoffMs).
use native.Mathlib.Nat.{pow-suc}
use musdash.Prelude.{
  ℕ, zero, suc, ◌+◌, ◌-◌, ◌*◌, ◌^◌, ◌≤◌, ◌≡◌, refl, ap, ◌∙◌, false, min, arith, leb,
}
use musdash.Reconcile.Plan.{backoff_ms, backoff_base_ms, backoff_max_ms}

doubled : (n : ℕ) → 2 ^ suc n ≡ 2 * 2 ^ n
doubled n = omega (arith, pow-suc 2 n)

pow_pos : (n : ℕ) → 1 ≤ 2 ^ n
pow_pos zero = omega arith
pow_pos (suc n) = omega (arith, doubled n, pow_pos n)

three : (n : ℕ) → n + 3 ≡ suc n + 2
three n = omega arith

two_less : (n : ℕ) → n + 2 - 2 ≡ n
two_less n = omega arith

backoff_ms_lem : (n : ℕ) → backoff_ms (n + 2) ≡ min (backoff_base_ms * 2 ^ n) backoff_max_ms
unfolding backoff_ms
backoff_ms_lem n = let large : leb (n + 2) 1 ≡ false = ground arith in rw (large, two_less n)

pub backoff_ms-le_max : (n : ℕ) → backoff_ms n ≤ backoff_max_ms
unfolding backoff_ms
backoff_ms-le_max n = ground arith

-- The first redeploy of a streak is immediate; every later wait is between thirty seconds and half
-- an hour, and the next one is twice as long or the longest.
pub backoff_ms_bounds :
    (n : ℕ)
    → (backoff_ms 1 ≡ 0)
      × (backoff_base_ms ≤ backoff_ms (n + 2))
      × (backoff_ms (n + 2) ≤ backoff_max_ms)
      × (backoff_ms (n + 3) ≡ min (2 * backoff_ms (n + 2)) backoff_max_ms)
unfolding backoff_ms
backoff_ms_bounds n =
    let wait = 30000 * 2 ^ n in
    let here : backoff_ms (n + 2) ≡ min wait backoff_max_ms = backoff_ms_lem n in
    let next : backoff_ms (n + 3) ≡ min (30000 * 2 ^ suc n) backoff_max_ms =
      ap backoff_ms (three n) ∙ backoff_ms_lem (suc n) in
    (
      refl,
      omega (arith, here, pow_pos n),
      omega (arith, here),
      omega (arith, here, next, doubled n),
    )
