-- ===== src/Settings.antt =====
-- The settings of a world: src/logic/settings/component.ts. The checker of names and the hash of a
-- thumbnail are parameters.
use worlds_content_server.Prelude.{
  ℕ, Bool, true, false, not, ◌&&◌, ◌||◌, Option, none, some, List, [], ◌∷◌, ◌++◌, if◌then◌else◌,
}
use worlds_content_server.Prelude.Text.{Text, lower_case}
use worlds_content_server.Prelude.Result.{Result, ok, err}
use worlds_content_server.Errors.{
  Error, Outcome, no_deployed_scenes, spawn_coordinates_out_of_bounds, unauthorized,
  validation_failed, world_not_found,
}
use worlds_content_server.Entities.{truthy}
use worlds_content_server.Coordinates.{Coordinate, parse_coordinate, are_coordinates_equal}
use worlds_content_server.Database.{Date, Db, WorldSettings, deployment}
use worlds_content_server.Permissions.Component.{has_world_wide_permission}
use worlds_content_server.Worlds.Settings.{UpdateResult}
use worlds_content_server.Worlds.Settings
use worlds_content_server.Server.{
  Server, Message, settings_changed, spawn_coordinate_set, Exec, pure, throw, lift, query, publish,
  ◌>>=◌, ◌>>◌, transaction,
}
-- What a request changes: the settings, and a new thumbnail.
pub mod Rows
pub mod Update
pub mod Tests

pub record WorldSettingsInput : Type 0 where
  pub settings : WorldSettings
  pub thumbnail : Option Text

abbrev pub parse_spawn_coordinates : Option Text → Outcome (Option Coordinate)
parse_spawn_coordinates spawn = elim (truthy spawn) [
  | none ↦ ok none
  | some t ↦ elim (parse_coordinate t) [ ok c ↦ ok (some c) | err e ↦ err e ]
]

unfoldable pub get_world_settings : Text → Exec WorldSettings
get_world_settings world = query (Settings.get_world_settings world) >>= λ found. elim found [
  | none ↦ throw world_not_found
  | some s ↦ pure s
]

-- Two errors of the manager become validation errors.
abbrev pub convert_error : Error → Error
convert_error no_deployed_scenes = validation_failed
convert_error spawn_coordinates_out_of_bounds = validation_failed
convert_error e = e

unfoldable pub settings_events :
    Text → WorldSettings → Option Coordinate → Option Coordinate → List Message
settings_events world s old none = settings_changed world s ∷ []
settings_events world s old (some c) =
    if are_coordinates_equal old (some c)
    then settings_changed world s ∷ []
    else settings_changed world s ∷ spawn_coordinate_set world old (some c) ∷ []

abbrev store_stream : Text → Exec (Unit {0})
store_stream hash s = (ok tt, record s { stored = s.stored ++ hash ∷ [] })

abbrev rethrow {ℓ} : {A : Type ℓ} → (Error → Error) → Exec A → Exec A
rethrow f m s = elim ((m s).0) [ ok a ↦ m s | err e ↦ (err (f e), (m s).1) ]

unfoldable pub may_change_settings : (Text → Text → Bool) → Text → Text → Db → Bool
may_change_settings check_permission world signer db =
    check_permission (lower_case signer) world
    || has_world_wide_permission world deployment (lower_case signer) db

module _ (sha256 : Text → Text) where
  abbrev pub hash_of : Option Text → Option Text
  hash_of none = none
  hash_of (some content) = some (sha256 content)

  abbrev pub store_thumbnail : Option Text → Exec (Unit {0})
  store_thumbnail none = pure tt
  store_thumbnail (some content) = store_stream (sha256 content)

  abbrev pub with_hash : WorldSettingsInput → WorldSettings
  with_hash input = record input.settings { thumbnail_hash = hash_of input.thumbnail }

abbrev pub emit_events : Text → UpdateResult → Exec WorldSettings
emit_events world r = lift (parse_spawn_coordinates r.old_spawn_coordinates) >>= λ old.
    lift (parse_spawn_coordinates r.settings.spawn_coordinates) >>= λ new.
    publish (settings_events world r.settings old new) >> pure r.settings

abbrev pub write_settings : Date → Text → Text → WorldSettings → Exec UpdateResult
write_settings now world signer given =
    rethrow convert_error (transaction (Settings.update_world_settings now world signer given))

module _ (check_permission : Text → Text → Bool) (sha256 : Text → Text) where
  unfoldable pub update_world_settings :
      Date → Text → Text → WorldSettingsInput → Exec WorldSettings
  update_world_settings now world signer input =
      query (may_change_settings check_permission world signer) >>= λ allowed.
      if allowed
      then store_thumbnail sha256 input.thumbnail
        >> (write_settings now world (lower_case signer) (with_hash sha256 input)
            >>= emit_events world)
      else throw unauthorized
