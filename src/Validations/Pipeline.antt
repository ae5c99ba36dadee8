-- ===== src/Validations/Pipeline.antt =====
-- The phases of a deployment's validation: src/logic/validations/validator.ts.
use worlds_content_server.Prelude.{List, [], ◌∷◌}
use worlds_content_server.Prelude.Result.{◌>>=◌}
use worlds_content_server.Validations.{
  ValidatorComponents, Validation, validate_all, validate_if_type_matches, entity_type_scene,
  or_continue,
}
use worlds_content_server.Validations.Common.{
  validate_base_entity, validate_supported_entity_type, validate_auth_chain, validate_signer,
  validate_deployment_ttl, validate_entity_id, validate_signature, validate_files,
}
use worlds_content_server.Validations.Scene.{
  validate_file_count, validate_scene_entity, validate_deprecated_config,
  validate_parcel_coordinates, validate_scene_pointers, validate_banned_names,
  validate_deployment_permission, validate_scene_dimensions, validate_mini_map_images,
  validate_skybox_textures, validate_thumbnail, validate_size,
}

module _ (k : ValidatorComponents) where
  abbrev pub authorize_scene : Validation
  authorize_scene = validate_all (validate_banned_names k ∷ validate_deployment_permission k ∷ [])

  abbrev pub scene_validations : List Validation
  scene_validations =
      validate_scene_entity k
      ∷ validate_deprecated_config
      ∷ validate_parcel_coordinates
      ∷ validate_scene_pointers
      ∷ authorize_scene
      ∷ validate_scene_dimensions k
      ∷ validate_mini_map_images
      ∷ validate_skybox_textures
      ∷ validate_thumbnail
      ∷ []

  abbrev pub before_storage_validate_fns : List Validation
  before_storage_validate_fns =
      validate_base_entity k
      ∷ validate_supported_entity_type
      ∷ validate_if_type_matches entity_type_scene (validate_file_count k)
      ∷ validate_auth_chain k
      ∷ validate_signer k
      ∷ validate_deployment_ttl k
      ∷ validate_entity_id
      ∷ validate_signature k
      ∷ validate_if_type_matches entity_type_scene (validate_all scene_validations)
      ∷ []

  abbrev pub after_storage_validate_fns : List Validation
  after_storage_validate_fns =
      validate_files k ∷ validate_if_type_matches entity_type_scene (validate_size k) ∷ []

  -- `runValidations` stops where `validateAll` does.
  unfoldable pub validate_before_storage : Validation
  validate_before_storage = validate_all before_storage_validate_fns

  unfoldable pub validate_after_storage : Validation
  validate_after_storage = validate_all after_storage_validate_fns

  unfoldable pub validate : Validation
  validate d =
      let later = validate_after_storage d in
      validate_before_storage d >>= λ problems. or_continue problems later
