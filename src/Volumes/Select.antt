-- ===== src/Volumes/Select.antt =====
-- Which volumes a delete may remove (src/volumes/select.ts). Names are the codes of their
-- characters; the labels of a volume are a Map from label names to texts.
use musdash.Prelude.{
  ℕ, ◌+◌, ◌-◌, Bool, false, ◌&&◌, ◌||◌, not, String, Option, none, some, List, [], ◌∷◌, ◌++◌,
  if◌then◌else◌, ◌==◌, leb, length, all, map, drop, take, head_option,
}
use musdash.Prelude.Code.{Text, codes, text_eq, before}
use musdash.Prelude.Dict.{Dict, get}
use musdash.Env.Chars.{has_prefix}

pub record VolumeSummary : Type 0 where
  pub name : Text
  pub labels : Dict Text

abbrev pub label_managed : String
label_managed = "musdash.managed"

abbrev pub label_resource : String
label_resource = "musdash.resource_id"

abbrev pub label_volume : String
label_volume = "musdash.volume"

abbrev pub label_compose_project : String
label_compose_project = "com.docker.compose.project"

abbrev pub volume_prefix : Text
volume_prefix = codes "musdash-"

-- `[0-9A-HJKMNP-TV-Z]`
abbrev pub is_id_char : ℕ → Bool
is_id_char c =
    (leb 48 c && leb c 57)
    || (leb 65 c && leb c 72)
    || (c == 74)
    || (c == 75)
    || (c == 77)
    || (c == 78)
    || (leb 80 c && leb c 84)
    || (leb 86 c && leb c 90)

-- RESOURCE_ID_RE.
unfoldable pub is_resource_id : Text → Bool
is_resource_id id = (length id == 26) && all is_id_char id

-- `[0-9a-hjkmnp-tv-z]`
abbrev is_lower_id_char : ℕ → Bool
is_lower_id_char c =
    (leb 48 c && leb c 57)
    || (leb 97 c && leb c 104)
    || (c == 106)
    || (c == 107)
    || (c == 109)
    || (c == 110)
    || (leb 112 c && leb c 116)
    || (leb 118 c && leb c 122)

-- `[a-zA-Z0-9._-]`
abbrev is_key_char : ℕ → Bool
is_key_char c =
    (leb 97 c && leb c 122)
    || (leb 65 c && leb c 90)
    || (leb 48 c && leb c 57)
    || (c == 46)
    || (c == 95)
    || (c == 45)

-- `_` and one to 200 key characters.
abbrev is_key_part : Text → Bool
is_key_part [] = false
is_key_part (c ∷ key) =
    (c == 95) && all is_key_char key && leb 1 (length key) && leb (length key) 200

abbrev is_id_part : Text → Bool
is_id_part id = (length id == 26) && all is_lower_id_char id

-- STACK_VOLUME_RE.
unfoldable pub matches_stack_volume : Text → Bool
matches_stack_volume name =
    has_prefix volume_prefix name
    && is_id_part (take 26 (drop 8 name))
    && is_key_part (drop 34 name)

abbrev pub key_offset : ℕ
key_offset = 35

unfoldable pub is_stack_volume_name : Text → Bool
unfolding matches_stack_volume
is_stack_volume_name name =
    let key = drop key_offset name in
    matches_stack_volume name && not (text_eq key (codes ".")) && not (text_eq key (codes ".."))

-- toUpperCase and toLowerCase on the characters of an id.
abbrev upper_char : ℕ → ℕ
upper_char c = if leb 97 c && leb c 122 then c - 32 else c

abbrev pub lower_char : ℕ → ℕ
lower_char c = if leb 65 c && leb c 90 then c + 32 else c

unfoldable pub stack_volume_resource_id : Text → Text
stack_volume_resource_id name = map upper_char (take 26 (drop 8 name))

-- composeProject of src/jobs/compose-plan.ts.
unfoldable pub compose_project : Text → Text
compose_project resource_id = volume_prefix ++ map lower_char resource_id

abbrev pub label_is : Option Text → Text → Bool
label_is none value = false
label_is (some v) value = text_eq v value

abbrev pub names_key : Text → Text → Option Text → Bool
names_key name project none = false
names_key name project (some key) = text_eq name (project ++ (95 ∷ key))

unfoldable pub is_volume_of : VolumeSummary → Text → Bool
unfolding is_resource_id compose_project is_stack_volume_name
is_volume_of volume resource_id =
    let project = compose_project resource_id in
    is_resource_id resource_id
    && (label_is (get label_resource volume.labels) resource_id
        && (label_is (get label_managed volume.labels) (codes "true")
            && (label_is (get label_compose_project volume.labels) project
                && (is_stack_volume_name volume.name
                    && names_key volume.name project (get label_volume volume.labels)))))

-- The volumes to remove, and those that are skipped.
unfoldable pub stack_volumes_to_remove :
    List VolumeSummary → Text → List VolumeSummary × List VolumeSummary
unfolding is_volume_of
stack_volumes_to_remove [] resource_id = ([], [])
stack_volumes_to_remove (volume ∷ list) resource_id =
    let rest = stack_volumes_to_remove list resource_id in
    if is_volume_of volume resource_id then (volume ∷ rest.0, rest.1) else (rest.0, volume ∷ rest.1)

pub record KeptVolume : Type 0 where
  pub name : Text
  pub key : Text
  pub resource_id : Text

-- The body of the loop of keptVolumes, given the two labels.
unfoldable pub kept_volume :
    (Text → Bool) → VolumeSummary → Option Text → Option Text → Option KeptVolume
unfolding is_volume_of
kept_volume has_row volume none key = none
kept_volume has_row volume (some resource_id) none = none
kept_volume has_row volume (some resource_id) (some key) =
    if not (is_volume_of volume resource_id)
    then none
    else if has_row resource_id
    then none
    else some (record { name = volume.name; key = key; resource_id = resource_id })

abbrev pub cons_some : Option KeptVolume → List KeptVolume → List KeptVolume
cons_some none ks = ks
cons_some (some k) ks = k ∷ ks

unfoldable pub insert_kept : KeptVolume → List KeptVolume → List KeptVolume
insert_kept k [] = k ∷ []
insert_kept k (j ∷ ks) =
    let rest = insert_kept k ks in if before j.name k.name then j ∷ rest else k ∷ j ∷ ks

unfoldable pub kept_unsorted : (Text → Bool) → List VolumeSummary → List KeptVolume
unfolding kept_volume
kept_unsorted has_row [] = []
kept_unsorted has_row (volume ∷ list) =
    cons_some
      (kept_volume has_row volume (get label_resource volume.labels)
        (get label_volume volume.labels))
      (kept_unsorted has_row list)

unfoldable pub sort_kept : List KeptVolume → List KeptVolume
unfolding insert_kept
sort_kept [] = []
sort_kept (k ∷ ks) = insert_kept k (sort_kept ks)

unfoldable pub kept_volumes : List VolumeSummary → (Text → Bool) → List KeptVolume
unfolding kept_unsorted sort_kept
kept_volumes list has_row = sort_kept (kept_unsorted has_row list)

unfoldable pub named : Text → List VolumeSummary → List VolumeSummary
named name [] = []
named name (volume ∷ list) =
    let rest = named name list in if text_eq volume.name name then volume ∷ rest else rest

unfoldable pub removable_kept_volume : List VolumeSummary → Text → (Text → Bool) → Option KeptVolume
unfolding kept_volumes named
removable_kept_volume list name has_row =
    if is_stack_volume_name name then head_option (kept_volumes (named name list) has_row) else none
