-- ===== src/Validations/Tests.antt =====
-- A deployment of one parcel that src/logic/validations/validator.ts accepts, and one that it
-- refuses before the storage is asked.
use worlds_content_server.Prelude.Double.{round_ℤ}
use worlds_content_server.Prelude.Positions.{total}
use worlds_content_server.Worlds.Scenes.{is_deployed_in, overlaps}
use worlds_content_server.NameDenyList.{check_name_deny_list}
use worlds_content_server.Quota.{
  get_max_allowed_parcels_for, remaining_space, get_deployed_scene_size_for_parcels,
  get_max_allowed_size_in_bytes_for, owner_limit, ends_with, get_stats, get_total_world_size,
  fetch_stored_data,
}
use worlds_content_server.Prelude.Number.{
  is_digit, is_space, parse_int, drop_digits, decimal, take_digits, number_text, skip_spaces,
  digits_value,
}
use worlds_content_server.Coordinates.{
  split_comma, canonicalize_parcels, parcel_match, canonicalize_parcel, parse_coordinate,
  check_bounds,
}
use worlds_content_server.Validations.Sets.{add_all, same_set}
use worlds_content_server.Prelude.Lists.{includes, all, filter}
use worlds_content_server.Validations.Scene.{
  validate_deprecated_config, validate_scene_entity, validate_file_count,
  validate_parcel_coordinates, coordinate_problems, thumbnail_problems, validate_scene_dimensions,
  is_relative_thumbnail_path, validate_thumbnail, validate_banned_names, validate_skybox_textures,
  validate_scene_pointers, texture_problems, validate_mini_map_images,
  validate_deployment_permission, ends_with_space, validate_size, has_scheme, is_control, has_file,
  calculate_deployment_size,
}
use worlds_content_server.Validations.Common.{
  validate_deployment_ttl, validate_supported_entity_type, validate_entity_id, validate_signer,
  validate_base_entity, validate_signature, validate_auth_chain, validate_files,
}
use worlds_content_server.Prelude.Eq.{text_beq}
use worlds_content_server.Prelude.Map.{get, add_element}
use worlds_content_server.Prelude.{◌≡◌, refl, true, false, none, some, [], ◌∷◌}
use worlds_content_server.Prelude.Text.{codes, lower_case}
use worlds_content_server.Prelude.Result.{ok}
use worlds_content_server.Fixtures.{world, owner, sample_db}
use worlds_content_server.Validations.{
  DeploymentToValidate, SceneMetadata, ValidatorComponents, entity_type_scene, validate_all,
  validate_if_type_matches, validate_if_condition_met,
}
use worlds_content_server.Validations.Pipeline.{
  validate, validate_before_storage, validate_after_storage,
}
use worlds_content_server.Validations.Acceptance.{IsAcceptable, validate-accepts}

abbrev metadata : SceneMetadata
metadata = record {
  world_name = some world;
  dcl_name = false;
  minimap_visible = false;
  skybox = false;
  scene_parcels = some (codes "0,1" ∷ []);
  data_image = none;
  estate_image = none;
  textures = [];
  navmap_thumbnail = some (codes "a.png");
  runtime_version = some (codes "7");
}

-- The image is uploaded again, the game is stored already.
abbrev deployment : DeploymentToValidate
deployment = record {
  entity_id = codes "bafy2";
  entity_type = entity_type_scene;
  pointers = codes "0,1" ∷ [];
  content =
      record { file = codes "a.png"; hash = codes "bafy3" }
      ∷ record { file = codes "game.js"; hash = codes "bafy4" }
      ∷ [];
  timestamp = 1000;
  metadata = metadata;
  files =
      (codes "bafy2", record { size = 5; actual_hash = codes "bafy2" })
      ∷ (codes "bafy3", record { size = 7; actual_hash = codes "bafy3" })
      ∷ [];
  signer = owner;
  content_hashes_in_storage = (codes "bafy4", true) ∷ [];
  content_file_infos = none;
}

abbrev components : ValidatorComponents
components = record {
  entity_schema = λ d. none;
  auth_chain_schema = λ d. none;
  scene_schema = λ d. none;
  is_eth_address = λ a. true;
  is_cid_v1 = λ h. true;
  validate_signature = λ d. none;
  check_permission = λ a w. true;
  banned_names = codes "b" ∷ [];
  db = sample_db;
  services = record {
    space_allowance = λ w. ok 1;
    whitelist = ok [];
    find_owner = λ w. ok (some owner);
  };
  hard_limits = record {
    max_parcels = 4;
    max_size = 100;
    max_size_for_ens = 25;
    allow_sdk6 = false;
  };
  retrieve = λ h. some (record { size = some 20 });
  deployment_ttl = none;
  max_file_count = none;
  now = 2000;
}

accepted : validate components deployment ≡ ok []
unfolding is_digit check_name_deny_list validate_all validate_if_type_matches is_space
    thumbnail_problems validate_deployment_permission digits_value validate_mini_map_images
    is_deployed_in validate_scene_dimensions validate_banned_names validate_if_condition_met
    validate_deployment_ttl canonicalize_parcels validate_deprecated_config
    is_relative_thumbnail_path validate_signer remaining_space validate_files
    get_deployed_scene_size_for_parcels validate_supported_entity_type filter same_set add_element
    has_file validate_thumbnail all parcel_match validate_base_entity get_max_allowed_parcels_for
    take_digits drop_digits validate_before_storage ends_with_space overlaps validate_file_count
    total is_control canonicalize_parcel validate_size get_total_world_size parse_coordinate
    validate_entity_id get_max_allowed_size_in_bytes_for owner_limit get lower_case
    validate_skybox_textures has_scheme validate_parcel_coordinates texture_problems
    validate_signature validate_scene_entity add_all ends_with calculate_deployment_size split_comma
    text_beq coordinate_problems number_text parse_int round_ℤ validate_after_storage
    validate_scene_pointers decimal check_bounds skip_spaces validate includes validate_auth_chain
    get_stats fetch_stored_data
accepted = refl

validate-accepts_example : IsAcceptable components deployment
validate-accepts_example = validate-accepts components deployment (λ e. cc) accepted
