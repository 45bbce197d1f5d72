-- ===== src/Build/Tests.antt =====
-- Tests of the build daemon's memory cap (src/build/memory.ts): a host of 961 MiB.
use musdash.Prelude.{ℕ, ◌≡◌, ◌*◌, ◌⊎◌, refl, false, some, arith}
use musdash.Build.Memory.{
  BuildkitMemoryCap, buildkit_memory_cap, IsFloored, IsLargest, buildkit_memory_cap-IsLargest,
}

abbrev host : ℕ
host = 961 * 1024 * 1024

cap_of_host :
    buildkit_memory_cap host ≡ some (record { bytes = 384 * 1024 * 1024; floored = false })
unfolding buildkit_memory_cap
cap_of_host = refl

buildkit_memory_cap-IsLargest_example :
    (c : BuildkitMemoryCap) × (buildkit_memory_cap host ≡ some c)
    × (IsFloored host c ⊎ IsLargest host c)
buildkit_memory_cap-IsLargest_example = buildkit_memory_cap-IsLargest host (omega arith)
