-- ===== src/Errors.antt =====
-- The errors that the modelled code throws, one constructor for each error class or message
-- (src/logic/*/errors.ts, src/types.ts), with the values that callers read. Messages are left out.
use worlds_content_server.Prelude.{List}
use worlds_content_server.Prelude.Text.{Text}
use worlds_content_server.Prelude.Result.{Result}

pub data Error : Type 0 where
  invalid_coordinate_format invalid_coordinate_values : Error
  x_out_of_bounds y_out_of_bounds : Error
  no_spawn_coordinates : Error
  foreign_key_violation unique_violation : Error
  invalid_permission_request : Error
  no_parcels invalid_integer : Error
  invalid_access_type invalid_allow_list_setting not_allow_list_access : Error
  unauthorized_community : List Text → Error
  no_deployed_scenes spawn_coordinates_out_of_bounds : Error
  unauthorized validation_failed world_not_found : Error
  user_platform_banned user_denylisted user_banned_from_world : Error
  invalid_world invalid_access scene_not_found world_at_capacity : Error
  publication_failed owner_unknown lock_not_acquired : Error
  invalid_byte_limit invalid_reservation retained_exceeds_reservation : Error

-- What a call returns, or the error that it throws.
abbrev pub Outcome {ℓ} : Type ℓ → Type ℓ
Outcome A = Result Error A
