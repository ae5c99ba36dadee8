-- ===== src/Settings/Tests.antt =====
-- Settings of src/logic/settings/component.ts on a world with one deployed scene.
use worlds_content_server.Prelude.Double.{round_ℤ}
use worlds_content_server.Prelude.{◌≡◌, refl, sym, ap, ◌∙◌, Bool, true, false, none, some, [], ◌∷◌}
use worlds_content_server.Prelude.Text.{Text, codes, lower_case, to_lower}
use worlds_content_server.Prelude.Result.{ok, err, map_result}
use worlds_content_server.Errors.{unauthorized}
use worlds_content_server.Coordinates.{
  BoundingRectangle, whole_int, split_comma, are_coordinates_equal, check_bounds, extent,
  is_coordinate_within_rectangle, max_of, min_of, parse_coordinate, parcel_match,
}
use worlds_content_server.Database.{PermissionRow, WorldSettings, world_named}
use worlds_content_server.Server.{Server}
use mathlib.Core.List.{Memᴰ}
use worlds_content_server.Fixtures.{world, owner, server_of, sample_db}
use worlds_content_server.Worlds.Scenes.{
  world_bounding_rectangle, cast_parcel, append_parcels, cast_integer, deployed_parcels,
  is_deployed_in, update_world,
}
use worlds_content_server.Worlds.Spawn.{IsSpawnIn}
use worlds_content_server.Settings.{
  WorldSettingsInput, update_world_settings, get_world_settings, may_change_settings,
  settings_events,
}
use worlds_content_server.Settings.Update.{
  update_world_settings-unauthorized, update_world_settings-get, update_world_settings-IsSpawnIn,
}
use worlds_content_server.Prelude.Eq.{text_beq}
use worlds_content_server.Prelude.Number.{
  skip_spaces, is_space, take_digits, is_digit, drop_digits, parse_int, digits_value,
}
use worlds_content_server.Prelude.Int.{max_ℤ, min_ℤ}
use worlds_content_server.Prelude.Lists.{any, filter, find}
use worlds_content_server.Worlds.Manager.{spawn_coordinates_of}
use worlds_content_server.Worlds.Settings.{
  check_spawn, change_settings, map_world_record_to_settings, settings_row, upsert_settings,
}
use worlds_content_server.Worlds.Settings
use worlds_content_server.Permissions.Manager.{parcels_of}

abbrev given : WorldSettings
given = record {
  title = some (codes "Land");
  description = none;
  content_rating = none;
  spawn_coordinates = some (codes "0,1");
  skybox_time = some none;
  categories = some none;
  single_player = none;
  show_in_places = some true;
  thumbnail_hash = none;
}

abbrev input : WorldSettingsInput
input = record { settings = given; thumbnail = some (codes "png") }

abbrev server : Server
server = server_of sample_db

everyone : Text → Text → Bool
everyone address name = true

nobody : Text → Text → Bool
nobody address name = false

hash : Text → Text
hash content = codes "h"

given_back : WorldSettings
given_back = record {
  title = some (codes "Land");
  description = none;
  content_rating = none;
  spawn_coordinates = some (codes "0,1");
  skybox_time = none;
  categories = some (some []);
  single_player = none;
  show_in_places = some true;
  thumbnail_hash = some (codes "h");
}

returned : (update_world_settings everyone hash 9 world owner input server).0 ≡ ok given_back
unfolding update_world_settings everyone hash given_back Settings.update_world_settings map_result
    text_beq cast_parcel whole_int skip_spaces split_comma is_space take_digits is_digit drop_digits
    parse_int round_ℤ digits_value are_coordinates_equal check_bounds extent
    is_coordinate_within_rectangle max_of min_of parse_coordinate world_named max_ℤ min_ℤ any filter
    find to_lower lower_case settings_events may_change_settings spawn_coordinates_of append_parcels
    cast_integer deployed_parcels is_deployed_in update_world world_bounding_rectangle check_spawn
    change_settings map_world_record_to_settings settings_row upsert_settings parcel_match
returned = refl

-- The deployer's row has parcels.
restricted :
    (r : PermissionRow)
    → Memᴰ r server.db.permissions.rows
    → ¬ (parcels_of r.id server.db.permissions ≡ [])
unfolding parcels_of filter
restricted r (Memᴰ.head same) none_left =
    let parcels : codes "0,0" ∷ codes "0,1" ∷ [] ≡ [] =
      ap (λ (r : PermissionRow). parcels_of r.id server.db.permissions) (sym same) ∙ none_left in
    cc
restricted r (Memᴰ.tail m) none_left = elim m [ ]

update_world_settings-unauthorized_example :
    update_world_settings nobody hash 9 world (codes "0xB") input server
    ≡ (err unauthorized, server)
unfolding nobody
update_world_settings-unauthorized_example =
    update_world_settings-unauthorized nobody hash 9 world (codes "0xB") input server refl
      (λ r m named typed addressed. restricted r m)

update_world_settings-get_example :
    let s = (update_world_settings everyone hash 9 world owner input server).1 in
    get_world_settings world s ≡ (ok given_back, s)
update_world_settings-get_example =
    update_world_settings-get everyone hash 9 world owner input server given_back returned

update_world_settings-IsSpawnIn_example :
    let db = (update_world_settings everyone hash 9 world owner input server).1.db in
    (shape : BoundingRectangle) × (world_bounding_rectangle (lower_case world) db.scenes
      ≡ ok (some shape))
    × IsSpawnIn shape (codes "0,1")
    × (given_back.spawn_coordinates ≡ some (codes "0,1"))
    × (db.scenes ≡ server.db.scenes)
update_world_settings-IsSpawnIn_example =
    update_world_settings-IsSpawnIn everyone hash 9 world owner input server given_back b'0'
      (codes ",1") refl returned
