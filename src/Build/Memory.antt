-- ===== src/Build/Memory.antt =====
-- The memory cap of the build daemon, and what its readings say (src/build/memory.ts). Bytes are
-- natural numbers, so of the precondition on the host's memory only its not being 0 is left to test;
-- a difference below 0 takes the floor, as 0 does.
use musdash.Prelude.{
  ◌%◌, ltb→lt, ℕ, ◌+◌, ◌-◌, ◌*◌, ◌/◌, ◌≤◌, ◌<◌, ◌≡◌, ◌⊎◌, inl, inr, refl, min, Bool, true, false,
  Option, none, some, arith, if◌then◌else◌, ltb, leb, ◌==◌, Bool-cases,
}

abbrev mib : ℕ
mib = 1024 * 1024

abbrev pub reserve : ℕ
reserve = 576 * mib

abbrev pub min_cap : ℕ
min_cap = 192 * mib

abbrev pub max_cap : ℕ
max_cap = 8192 * mib

abbrev pub step : ℕ
step = 32 * mib

pub record BuildkitMemoryCap : Type 0 where
  pub bytes : ℕ
  pub floored : Bool

abbrev pub stepped : ℕ → ℕ
stepped mem_total_bytes = min (mem_total_bytes - reserve) (mem_total_bytes / 2) / step * step

-- none is the RangeError.
unfoldable pub buildkit_memory_cap : ℕ → Option BuildkitMemoryCap
buildkit_memory_cap mem_total_bytes =
    if mem_total_bytes == 0
    then none
    else if ltb (stepped mem_total_bytes) min_cap
    then some (record { bytes = min_cap; floored = true })
    else some (record { bytes = min (stepped mem_total_bytes) max_cap; floored = false })

pub record MemoryReading : Type 0 where
  pub usage_bytes : ℕ
  pub anon_bytes : Option ℕ
  pub limit_bytes : ℕ

-- anon >= limit * 0.9, and usage >= limit * 0.98 where the Engine has no anonymous figure.
abbrev starved_by : Option ℕ → ℕ → ℕ → Bool
starved_by (some anon) usage limit = leb (limit * 9) (anon * 10)
starved_by none usage limit = leb (limit * 98) (usage * 100)

unfoldable pub is_starved : MemoryReading → Bool
is_starved m = starved_by m.anon_bytes m.usage_bytes m.limit_bytes

abbrev kept_by : Option ℕ → ℕ → Bool
kept_by (some anon) limit = ltb limit (anon * 2)
kept_by none limit = false

unfoldable pub kept_after_build : MemoryReading → Bool
kept_after_build m = kept_by m.anon_bytes m.limit_bytes

-- The floor, on a host that cannot hold the reserve and the floor.
abbrev pub IsFloored : ℕ → BuildkitMemoryCap → Type 0
IsFloored mem_total_bytes c =
    (c.floored ≡ true) × (c.bytes ≡ min_cap) × (mem_total_bytes < reserve + min_cap)

-- The largest number of whole steps up to the maximum that leaves the reserve, and half of the host.
abbrev pub IsLargest : ℕ → BuildkitMemoryCap → Type 0
IsLargest mem_total_bytes c =
    (c.floored ≡ false)
    × (c.bytes % step ≡ 0)
    × (min_cap ≤ c.bytes)
    × (c.bytes ≤ max_cap)
    × (c.bytes + reserve ≤ mem_total_bytes)
    × (c.bytes * 2 ≤ mem_total_bytes)
    × ((c.bytes ≡ max_cap)
        ⊎ (mem_total_bytes < c.bytes + step + reserve)
        ⊎ (mem_total_bytes < (c.bytes + step) * 2))

steps_of : (n : ℕ) → (n / step * step ≤ n) × (n < n / step * step + step)
steps_of n = (omega arith, omega arith)

too_small : (m : ℕ) → ltb (stepped m) min_cap ≡ true → m < reserve + min_cap
too_small m h =
    let around = steps_of (min (m - reserve) (m / 2)) in
    let short = ltb→lt (stepped m) min_cap h in omega arith

whole_steps : (k : ℕ) → min (k * step) max_cap % step ≡ 0
whole_steps k = omega arith

-- One step more takes too much, unless the maximum stops it.
no_larger :
    (m s : ℕ)
    → (s ≤ min (m - reserve) (m / 2)) × (min (m - reserve) (m / 2) < s + step)
    → (min s max_cap ≡ max_cap)
      ⊎ (m < min s max_cap + step + reserve)
      ⊎ (m < (min s max_cap + step) * 2)
no_larger m s (below, above) = elim (Bool-cases (ltb s max_cap)) [
  | inr e ↦ inl (ground arith)
  | inl e ↦
      let small = ltb→lt s max_cap e in
      elim (Bool-cases (ltb m (s + step + reserve))) [
        | inl f ↦ let near = ltb→lt m (s + step + reserve) f in inr (inl (omega arith))
        | inr f ↦ inr (inr (ground arith))
      ]
]

capped-IsLargest :
    (m : ℕ)
    → ltb (stepped m) min_cap ≡ false
    → IsLargest m (record { bytes = min (stepped m) max_cap; floored = false })
capped-IsLargest m h =
    let around = steps_of (min (m - reserve) (m / 2)) in
    let big : min_cap ≤ stepped m = ground arith in
    (
      refl,
      whole_steps (min (m - reserve) (m / 2) / step),
      omega arith,
      omega arith,
      omega arith,
      omega arith,
      no_larger m (stepped m) around,
    )

-- Every host with memory gets a cap. A host that cannot hold both the reserve of 576 MiB and the floor
-- of 192 MiB gets the floor. Any other gets a cap from 192 MiB to 8 GiB, of whole steps of 32 MiB, that
-- leaves the reserve and half of the host to everything else; it is 8 GiB, or one step more would not
-- leave the reserve or would take more than half.
pub buildkit_memory_cap-IsLargest :
    (mem_total_bytes : ℕ)
    → 0 < mem_total_bytes
    → (c : BuildkitMemoryCap) × (buildkit_memory_cap mem_total_bytes ≡ some c)
      × (IsFloored mem_total_bytes c ⊎ IsLargest mem_total_bytes c)
unfolding buildkit_memory_cap
buildkit_memory_cap-IsLargest m there =
    let some_memory : (m == 0) ≡ false = ground arith in
    elim (Bool-cases (ltb (stepped m) min_cap)) [
      | inl small ↦ (
        record { bytes = min_cap; floored = true },
        rw (some_memory, small),
        inl (refl, refl, too_small m small),
      )
      | inr big ↦ (
        record { bytes = min (stepped m) max_cap; floored = false },
        rw (some_memory, big),
        inr (capped-IsLargest m big),
      )
    ]
