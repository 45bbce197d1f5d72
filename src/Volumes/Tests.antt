-- ===== src/Volumes/Tests.antt =====
-- Tests of the volumes (src/volumes): one stack's volume, and a cache that is asked four times.
use musdash.Prelude.{◌+◌, ◌*◌, ◌≤◌, ◌≡◌, refl, Bool, true, false, none, some, List, [], ◌∷◌, arith}
use musdash.Prelude.Code.{Text, codes, text_eq}
use musdash.Prelude.Dict.{get}
use musdash.Env.Chars.{has_prefix}
use musdash.Volumes.Select.{
  VolumeSummary, KeptVolume, is_volume_of, is_resource_id, compose_project, is_stack_volume_name,
  matches_stack_volume, removable_kept_volume, kept_volumes, kept_unsorted, kept_volume, sort_kept,
  insert_kept, named,
}
use musdash.Volumes.Owners.{IsOrphan, volume_has_one_owner, removable-IsOrphan}
use musdash.Volumes.Sizes.{VolumeSizeCacheOptions}
use musdash.Volumes.Shared.{CacheEvent, asks, fetched, run, fetches_are_paced}

abbrev stack_id : Text
stack_id = codes "01ARZ3NDEKTSV4RRFFQ69G5FAV"

abbrev volume_name : Text
volume_name = codes "musdash-01arz3ndektsv4rrffq69g5fav_data"

abbrev data_volume : VolumeSummary
data_volume = record {
  name = volume_name;
  labels =
      ("musdash.resource_id", stack_id)
      ∷ ("musdash.managed", codes "true")
      ∷ ("com.docker.compose.project", codes "musdash-01arz3ndektsv4rrffq69g5fav")
      ∷ ("musdash.volume", codes "data")
      ∷ [];
}

is_of_stack : is_volume_of data_volume stack_id ≡ true
unfolding is_volume_of is_resource_id compose_project is_stack_volume_name matches_stack_volume get
    text_eq has_prefix
is_of_stack = refl

volume_has_one_owner_example : stack_id ≡ stack_id
volume_has_one_owner_example =
    volume_has_one_owner data_volume data_volume stack_id stack_id is_of_stack is_of_stack refl

abbrev no_rows : Text → Bool
no_rows id = false

abbrev data_kept : KeptVolume
data_kept = record { name = volume_name; key = codes "data"; resource_id = stack_id }

is_removable : removable_kept_volume (data_volume ∷ []) volume_name no_rows ≡ some data_kept
unfolding is_volume_of is_resource_id compose_project is_stack_volume_name matches_stack_volume get
    text_eq has_prefix removable_kept_volume kept_volumes kept_unsorted kept_volume sort_kept
    insert_kept named
is_removable = refl

removable-IsOrphan_example : (data_kept.name ≡ volume_name) × IsOrphan no_rows data_kept
removable-IsOrphan_example =
    removable-IsOrphan (data_volume ∷ []) volume_name no_rows data_kept is_removable

abbrev options : VolumeSizeCacheOptions
options = record { ttl_ms = 600000; failure_ttl_ms = 60000; max_resources = 64 }

abbrev a_minute : List CacheEvent
a_minute = asks 60000 ∷ asks 10 ∷ fetched 500 none ∷ asks 5 ∷ asks 0 ∷ []

fetches_are_paced_example :
    (run options a_minute).fetches * 60000 ≤ (run options a_minute).now + 60000
fetches_are_paced_example = fetches_are_paced options 60000 (omega arith) (omega arith) a_minute
