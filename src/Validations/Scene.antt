-- ===== src/Validations/Scene.antt =====
-- Validations of a scene: src/logic/validations/scene.ts.
use worlds_content_server.Prelude.{
  ℕ, ◌+◌, Bool, false, not, ◌&&◌, ◌||◌, Option, none, some, List, [], ◌∷◌, ◌++◌, ◌==◌,
  if◌then◌else◌, ltb, leb, map,
}
use worlds_content_server.Prelude.Eq.{text_eq, nat_eq}
use worlds_content_server.Prelude.Lists.{length, any}
use worlds_content_server.Prelude.Map.{Map, get}
use worlds_content_server.Prelude.Number.{is_space}
use worlds_content_server.Prelude.Text.{Text, codes}
use worlds_content_server.Prelude.Result.{Result, ok, err, ◌>>=◌}
use worlds_content_server.Errors.{Outcome}
use worlds_content_server.Entities.{ContentMapping, truthy}
use worlds_content_server.Coordinates.{Coordinate, canonicalize_parcels, parse_coordinate}
use worlds_content_server.Database.{deployment}
use worlds_content_server.NameDenyList.{check_name_deny_list}
use worlds_content_server.Permissions.Component.{has_permission_for_parcels}
use worlds_content_server.Quota.{
  get_max_allowed_parcels_for, get_max_allowed_size_in_bytes_for, get_allow_sdk6_for,
}
use worlds_content_server.Validations.{
  Problem, schema_error, no_world_name, pointers_differ, deprecated_name, deprecated_minimap,
  deprecated_skybox, banned_name, no_permission, too_many_parcels, too_many_files, too_big,
  sdk_not_supported, invalid_coordinate, content_not_fetched, image_not_present,
  texture_not_present, thumbnail_not_present, thumbnail_not_relative, FileInfo,
  DeploymentToValidate, ValidatorComponents, Validation,
}
use worlds_content_server.Validations.Common.{report_if, or_default}
use worlds_content_server.Validations.Sets.{unique, same_set}

abbrev pub default_max_file_count : ℕ
default_max_file_count = 10000

abbrev pub deployment_parcels : DeploymentToValidate → List Text
deployment_parcels d = unique (canonicalize_parcels d.pointers)

abbrev pub or_no_parcels : Option (List Text) → List Text
or_no_parcels none = []
or_no_parcels (some ps) = ps

-- `metadata.worldConfiguration.name`, as the later validations read it.
abbrev pub world_of : DeploymentToValidate → Text
world_of d = elim d.metadata.world_name [ none ↦ [] | some name ↦ name ]

unfoldable pub validate_scene_pointers : Validation
validate_scene_pointers d = ok (
    report_if
      (not (
        same_set (deployment_parcels d)
          (unique (canonicalize_parcels (or_no_parcels d.metadata.scene_parcels)))))
      pointers_differ)

unfoldable pub validate_deprecated_config : Validation
validate_deprecated_config d =
    if d.metadata.dcl_name
    then ok (deprecated_name ∷ [])
    else if d.metadata.minimap_visible
    then ok (deprecated_minimap ∷ [])
    else ok (report_if d.metadata.skybox deprecated_skybox)

abbrev pub coordinate_problem : Outcome Coordinate → List Problem
coordinate_problem (ok c) = []
coordinate_problem (err e) = invalid_coordinate e ∷ []

unfoldable pub coordinate_problems : List Text → List Problem
coordinate_problems [] = []
coordinate_problems (p ∷ ps) = coordinate_problem (parse_coordinate p) ++ coordinate_problems ps

unfoldable pub validate_parcel_coordinates : Validation
validate_parcel_coordinates d = ok (coordinate_problems (deployment_parcels d))

-- Empty files are retrieved without a size.
abbrev pub size_or_zero : FileInfo → ℕ
size_or_zero info = or_default info.size 0

abbrev pub found_size : Text → Option FileInfo → Result Problem ℕ
found_size hash none = err (content_not_fetched hash)
found_size hash (some info) = ok (size_or_zero info)

-- The size of one file: that of the upload, or else what the snapshot or the storage says.
unfoldable pub file_size : (Text → Option FileInfo) → DeploymentToValidate → Text → Result Problem ℕ
file_size look_up d hash = elim (get hash d.files) [
  | some file ↦ ok file.size
  | none ↦ found_size hash (look_up hash)
]

unfoldable pub total_size :
    (Text → Option FileInfo) → DeploymentToValidate → List Text → Result Problem ℕ
unfolding file_size
total_size look_up d [] = ok 0
total_size look_up d (h ∷ hs) =
    let rest = total_size look_up d hs in file_size look_up d h >>= λ n. rest >>= λ m. ok (n + m)

abbrev pub unique_hashes : DeploymentToValidate → List Text
unique_hashes d = unique (map (λ c. c.hash) d.content)

unfoldable pub calculate_deployment_size_from_file_infos :
    Map FileInfo → DeploymentToValidate → Result Problem ℕ
unfolding total_size
calculate_deployment_size_from_file_infos infos d =
    total_size (λ hash. get hash infos) d (unique_hashes d)

unfoldable pub has_file : List ContentMapping → Text → Bool
has_file content file = any (λ c. c.file == file) content

-- A file that is named, and not empty, is part of the deployment.
abbrev pub file_problem : (Text → Problem) → List ContentMapping → Option Text → List Problem
file_problem problem content file = elim (truthy file) [
  | none ↦ []
  | some f ↦ report_if (not (has_file content f)) (problem f)
]

unfoldable pub validate_mini_map_images : Validation
validate_mini_map_images d = ok (
    file_problem image_not_present d.content d.metadata.data_image
    ++ file_problem image_not_present d.content d.metadata.estate_image)

unfoldable pub texture_problems : List ContentMapping → List Text → List Problem
texture_problems content [] = []
texture_problems content (t ∷ ts) =
    file_problem texture_not_present content (some t) ++ texture_problems content ts

unfoldable pub validate_skybox_textures : Validation
validate_skybox_textures d = ok (texture_problems d.content d.metadata.textures)

unfoldable pub is_letter : ℕ → Bool
is_letter c = leb b'a' c && leb c b'z' || leb b'A' c && leb c b'Z'

-- `[a-zA-Z0-9+.-]`.
unfoldable pub is_scheme_character : ℕ → Bool
unfolding is_letter
is_scheme_character c =
    is_letter c || leb b'0' c && leb c b'9' || c == b'+' || c == b'.' || c == b'-'

unfoldable pub ends_scheme : Text → Bool
unfolding is_scheme_character
ends_scheme [] = false
ends_scheme (c ∷ s) = c == b':' || is_scheme_character c && ends_scheme s

-- `/^[a-zA-Z][a-zA-Z0-9+.-]*:/`.
unfoldable pub has_scheme : Text → Bool
unfolding ends_scheme
has_scheme [] = false
has_scheme (c ∷ s) = is_letter c && ends_scheme s

abbrev pub starts_with_slash : Text → Bool
starts_with_slash [] = false
starts_with_slash (c ∷ s) = c == b'/'

abbrev pub starts_with_space : Text → Bool
starts_with_space [] = false
starts_with_space (c ∷ s) = is_space c

unfoldable pub ends_with_space : Text → Bool
ends_with_space [] = false
ends_with_space (c ∷ []) = is_space c
ends_with_space (c ∷ d ∷ s) = ends_with_space (d ∷ s)

-- `\p{Cc}`.
unfoldable pub is_control : ℕ → Bool
is_control c = leb c 31 || leb 127 c && leb c 159

abbrev pub breaks_out : ℕ → Bool
breaks_out c = c == b'<' || c == b'>' || c == b'"'

unfoldable pub is_relative_thumbnail_path : Text → Bool
is_relative_thumbnail_path path =
    if has_scheme path || starts_with_slash path
    then false
    else if starts_with_space path || ends_with_space path || any is_control path
    then false
    else not (any breaks_out path)

unfoldable pub thumbnail_problems : List ContentMapping → Option Text → List Problem
thumbnail_problems content none = []
thumbnail_problems content (some t) =
    if not (is_relative_thumbnail_path t)
    then thumbnail_not_relative t ∷ []
    else report_if (not (has_file content t)) (thumbnail_not_present t)

unfoldable pub validate_thumbnail : Validation
validate_thumbnail d = ok (thumbnail_problems d.content (truthy d.metadata.navmap_thumbnail))

abbrev pub is_sdk7 : Option Text → Bool
is_sdk7 none = false
is_sdk7 (some v) = v == codes "7"

abbrev pub named_problems : Option Text → List Problem
named_problems none = no_world_name ∷ []
named_problems (some name) = []

abbrev pub scene_entity_problems : Option (List Text) → Option Text → List Problem
scene_entity_problems (some messages) name = map schema_error messages
scene_entity_problems none name = named_problems name

abbrev pub size_problems : ℕ → Result Problem ℕ → List Problem
size_problems max (err p) = p ∷ []
size_problems max (ok size) = report_if (ltb max size) too_big

module _ (k : ValidatorComponents) where
  unfoldable pub validate_scene_entity : Validation
  validate_scene_entity d =
      ok (scene_entity_problems (k.scene_schema d) (truthy d.metadata.world_name))

  unfoldable pub validate_banned_names : Validation
  validate_banned_names d =
      ok (report_if (not (check_name_deny_list k.banned_names (world_of d))) banned_name)

  unfoldable pub may_deploy : DeploymentToValidate → Bool
  may_deploy d =
      k.check_permission d.signer (world_of d)
      || has_permission_for_parcels (world_of d) deployment d.signer (deployment_parcels d) k.db

  unfoldable pub validate_deployment_permission : Validation
  unfolding may_deploy
  validate_deployment_permission d = ok (report_if (not (may_deploy d)) no_permission)

  unfoldable pub validate_scene_dimensions : Validation
  validate_scene_dimensions d = ok (
      report_if
        (ltb (get_max_allowed_parcels_for k.services k.hard_limits (world_of d))
          (length (deployment_parcels d)))
        too_many_parcels)

  unfoldable pub validate_file_count : Validation
  validate_file_count d = ok (
      report_if (ltb (or_default k.max_file_count default_max_file_count) (length d.content))
        too_many_files)

  unfoldable pub calculate_deployment_size : DeploymentToValidate → Result Problem ℕ
  unfolding total_size calculate_deployment_size_from_file_infos
  calculate_deployment_size d = elim d.content_file_infos [
    | some infos ↦ calculate_deployment_size_from_file_infos infos d
    | none ↦ total_size k.retrieve d (unique_hashes d)
  ]

  unfoldable pub validate_size : Validation
  validate_size d = do
    max ←
        get_max_allowed_size_in_bytes_for k.services k.hard_limits (world_of d)
          (some (deployment_parcels d)) k.db
    ok (size_problems max (calculate_deployment_size d))

  unfoldable pub validate_sdk_version : Validation
  validate_sdk_version d = ok (
      report_if
        (not (is_sdk7 d.metadata.runtime_version)
          && not (get_allow_sdk6_for k.services k.hard_limits (world_of d)))
        sdk_not_supported)
