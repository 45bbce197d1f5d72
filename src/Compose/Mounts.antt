-- ===== src/Compose/Mounts.antt =====
-- What a service may mount (src/compose/validate.ts, isDockerSocketPath and checkVolumes), and the
-- network mode it may have. `is_valid_image_ref` (src/docker/client.ts) is a parameter.
use Prim.Native.String.{◌++◌ as ◌+s◌, slice, len}
use musdash.Prelude.{
  ℕ, ◌+◌, String, Bool, true, false, ◌&&◌, ◌||◌, not, Option, none, some, List, [], ◌∷◌, ◌++◌,
  if◌then◌else◌, str_eq, ◌==◌, starts_with,
}
use musdash.Prelude.Dict.{Dict, get, includes}
use musdash.Prelude.Code.{Text, codes, text_eq}
use musdash.Prelude.Show.{show}
use musdash.Compose.Json.{Value, null, text, array, elements, as_record}
use musdash.Compose.Refusal.{bind_mount, docker_socket, image_invalid, volume_name}
use musdash.Compose.Keys.{Added, one, when}

-- `path.replace(/\/{2,}/g, "/")`
fold_slashes : Text → Text
fold_slashes [] = []
fold_slashes (c ∷ []) = c ∷ []
fold_slashes (c ∷ d ∷ s) =
    let rest = fold_slashes (d ∷ s) in if c == b'/' && d == b'/' then rest else c ∷ rest

-- The characters that `.` does not match.
abbrev is_line_end : ℕ → Bool
is_line_end c = c == b'\n' || c == b'\r' || c == 8232 || c == 8233

-- `.replace(/(.)\/$/, "$1")`
drop_slash : Text → Text
drop_slash [] = []
drop_slash (c ∷ []) = c ∷ []
drop_slash (c ∷ d ∷ []) = if d == b'/' && not (is_line_end c) then c ∷ [] else c ∷ d ∷ []
drop_slash (c ∷ d ∷ e ∷ s) = c ∷ drop_slash (d ∷ e ∷ s)

abbrev is_socket_text : Text → Bool
is_socket_text s = text_eq s (codes "/var/run/docker.sock") || text_eq s (codes "/run/docker.sock")

unfoldable pub is_docker_socket_path : Option Value → Bool
unfolding fold_slashes drop_slash
is_docker_socket_path (some (text path)) = is_socket_text (drop_slash (fold_slashes (codes path)))
is_docker_socket_path _ = false

abbrev service_prefix : String
service_prefix = "service:"

unfoldable pub network_mode_allowed : Option Value → List String → Bool
network_mode_allowed none services = true
network_mode_allowed (some null) services = true
network_mode_allowed (some (text mode)) services =
    str_eq mode "none"
    || starts_with mode service_prefix
      && includes (slice mode (len service_prefix) (len mode)) services
network_mode_allowed (some _) services = false

abbrev pub safe_mount_types : List String
safe_mount_types = "volume" ∷ "tmpfs" ∷ "image" ∷ []

-- `forEach` with the index.
unfoldable pub each_from {ℓ} : {A : Type ℓ} → (ℕ → A → Added) → ℕ → List A → Added
each_from f i [] = []
each_from f i (x ∷ xs) = f i x ++ each_from f (i + 1) xs

abbrev pub is_declared : List String → Option Value → Bool
is_declared declared none = true
is_declared declared (some null) = true
is_declared declared (some (text source)) = str_eq source "" || includes source declared
is_declared declared (some _) = false

module _ (is_valid_image_ref : String → Bool) where
  abbrev pub is_image : Option Value → Bool
  is_image (some (text ref)) = is_valid_image_ref ref
  is_image _ = false

  -- An entry of a safe type.
  abbrev pub check_typed : List String → String → String → Option Value → Added
  check_typed declared field type source =
      if str_eq type "image" && not (is_image source)
      then one image_invalid field
      else when (str_eq type "volume" && not (is_declared declared source)) volume_name field

  abbrev pub check_type : List String → String → Option Value → Option Value → Added
  check_type declared field (some (text type)) source =
      if includes type safe_mount_types
      then check_typed declared field type source
      else one bind_mount field
  check_type declared field _ source = one bind_mount field

  abbrev pub check_mount : List String → String → Dict Value → Added
  check_mount declared field entry =
      if is_docker_socket_path (get "source" entry) || is_docker_socket_path (get "target" entry)
      then one docker_socket field
      else check_type declared field (get "type" entry) (get "source" entry)

  abbrev pub check_entry : List String → String → Option (Dict Value) → Added
  check_entry declared field none = one bind_mount field
  check_entry declared field (some entry) = check_mount declared field entry

  unfoldable pub check_volume : List String → ℕ → Value → Added
  check_volume declared i entry =
      check_entry declared ("volumes[" +s show i +s "]") (as_record entry)

  unfoldable pub check_volumes : Option Value → List String → Added
  unfolding check_volume each_from
  check_volumes none declared = []
  check_volumes (some null) declared = []
  check_volumes (some (array vs)) declared = each_from (check_volume declared) 0 (elements vs)
  check_volumes (some _) declared = one bind_mount "volumes"
