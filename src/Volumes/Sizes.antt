-- ===== src/Volumes/Sizes.antt =====
-- The cached measurement of volume sizes (src/volumes/sizes.ts): snapshotOf, and the cache as a
-- function of its events. A fetch in progress is a flag; it settles once.
use musdash.Prelude.{
  ℕ, ◌+◌, ◌-◌, ◌*◌, Bool, true, false, Option, none, some, List, [], ◌∷◌, ◌++◌, if◌then◌else◌, ◌==◌,
  ltb, take, get_or_else,
}
use musdash.Prelude.Code.{Text, text_eq, before}
use musdash.Prelude.Dict.{Dict, get}
use musdash.Volumes.Select.{label_resource, is_resource_id}

abbrev pub volume_sizes_ttl_ms : ℕ
volume_sizes_ttl_ms = 10 * 60000

abbrev pub volume_sizes_failure_ttl_ms : ℕ
volume_sizes_failure_ttl_ms = 60000

abbrev pub volume_sizes_max_resources : ℕ
volume_sizes_max_resources = 64

pub record VolumeUsage : Type 0 where
  pub name : Text
  pub labels : Dict Text
  pub size_bytes : Option ℕ

pub record VolumeSizeEntry : Type 0 where
  pub name : Text
  pub resource_id : Text
  pub size_bytes : Option ℕ

pub data VolumeSizes : Type 0 where
  known : (taken_at : ℕ) (volumes : List VolumeSizeEntry) → VolumeSizes
  unknown : VolumeSizes

pub record Group : Type 0 where
  pub resource_id : Text
  pub total : ℕ
  pub vols : List VolumeSizeEntry

-- The volume joins its resource's group, or starts one.
unfoldable pub add_to_group : Text → VolumeUsage → List Group → List Group
add_to_group resource_id v [] =
    record {
      resource_id = resource_id;
      total = 0 + get_or_else 0 v.size_bytes;
      vols = record { name = v.name; resource_id = resource_id; size_bytes = v.size_bytes } ∷ [];
    }
    ∷ []
add_to_group resource_id v (g ∷ gs) =
    let rest = add_to_group resource_id v gs in
    if text_eq g.resource_id resource_id
    then record g {
      total = g.total + get_or_else 0 v.size_bytes;
      vols =
          g.vols
          ++ (record { name = v.name; resource_id = resource_id; size_bytes = v.size_bytes } ∷ []);
    }
      ∷ gs
    else g ∷ rest

unfoldable pub add_usage : VolumeUsage → Option Text → List Group → List Group
unfolding add_to_group is_resource_id
add_usage v none gs = gs
add_usage v (some resource_id) gs =
    if is_resource_id resource_id then add_to_group resource_id v gs else gs

unfoldable pub group_usage : List VolumeUsage → List Group → List Group
unfolding add_usage
group_usage [] gs = gs
group_usage (v ∷ list) gs = group_usage list (add_usage v (get label_resource v.labels) gs)

-- The order of the groups: the larger total first, then by id.
abbrev precedes : Group → Group → Bool
precedes a b =
    if a.total == b.total then before a.resource_id b.resource_id else ltb b.total a.total

unfoldable pub insert_group : Group → List Group → List Group
insert_group g [] = g ∷ []
insert_group g (h ∷ gs) =
    let rest = insert_group g gs in if precedes g h then g ∷ h ∷ gs else h ∷ rest

unfoldable pub sort_groups : List Group → List Group
unfolding insert_group
sort_groups [] = []
sort_groups (g ∷ gs) = insert_group g (sort_groups gs)

unfoldable pub volumes_of : List Group → List VolumeSizeEntry
volumes_of [] = []
volumes_of (g ∷ gs) = g.vols ++ volumes_of gs

unfoldable pub insert_entry : VolumeSizeEntry → List VolumeSizeEntry → List VolumeSizeEntry
insert_entry e [] = e ∷ []
insert_entry e (f ∷ es) =
    let rest = insert_entry e es in if before f.name e.name then f ∷ rest else e ∷ f ∷ es

unfoldable pub sort_entries : List VolumeSizeEntry → List VolumeSizeEntry
unfolding insert_entry
sort_entries [] = []
sort_entries (e ∷ es) = insert_entry e (sort_entries es)

unfoldable pub snapshot_of : List VolumeUsage → ℕ → ℕ → VolumeSizes
unfolding group_usage sort_groups volumes_of sort_entries
snapshot_of list max_resources taken_at =
    known taken_at
      (sort_entries (volumes_of (take max_resources (sort_groups (group_usage list [])))))

pub record Stored : Type 0 where
  pub sizes : VolumeSizes
  pub at : ℕ
  pub ttl_ms : ℕ

pub record VolumeSizeCacheOptions : Type 0 where
  pub ttl_ms : ℕ
  pub failure_ttl_ms : ℕ
  pub max_resources : ℕ

pub record VolumeSizeCache : Type 0 where
  pub stored : Option Stored
  pub in_flight : Bool

unfoldable pub create_volume_size_cache : VolumeSizeCache
create_volume_size_cache = record { stored = none; in_flight = false }

-- What `get` answers: a stored result, the fetch that is in progress, or a new one.
pub data Answer : Type 0 where
  serves : VolumeSizes → Answer
  joins : Answer
  starts : Answer

-- stored && at - stored.at < stored.ttlMs. A clock that was set back makes the difference negative in
-- the program and 0 here, and both are below a limit above 0.
abbrev pub is_fresh : ℕ → Option Stored → Bool
is_fresh at none = false
is_fresh at (some s) = ltb (at - s.at) s.ttl_ms

abbrev pub sizes_in : Option Stored → VolumeSizes
sizes_in none = unknown
sizes_in (some s) = s.sizes

unfoldable pub get_sizes : ℕ → VolumeSizeCache → VolumeSizeCache × Answer
get_sizes at cache =
    if is_fresh at cache.stored
    then (cache, serves (sizes_in cache.stored))
    else if cache.in_flight
    then (cache, joins)
    else (record cache { in_flight = true }, starts)

-- refresh after its await, and the finally that clears the flag.
unfoldable pub refreshed : VolumeSizeCacheOptions → Option (List VolumeUsage) → ℕ → VolumeSizeCache
unfolding snapshot_of
refreshed options (some list) at = record {
  stored = some (record {
    sizes = snapshot_of list options.max_resources at;
    at = at;
    ttl_ms = options.ttl_ms;
  });
  in_flight = false;
}
refreshed options none at = record {
  stored = some (record { sizes = unknown; at = at; ttl_ms = options.failure_ttl_ms });
  in_flight = false;
}
