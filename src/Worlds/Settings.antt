-- ===== src/Worlds/Settings.antt =====
-- The settings of a world in src/adapters/worlds-manager.ts: `updateWorldSettings`,
-- `getWorldSettings` and `mapWorldRecordToSettings`.
use worlds_content_server.Prelude.{ℕ, Option, none, some, List, [], ◌∷◌, ◌++◌, if◌then◌else◌, ◌==◌}
use worlds_content_server.Prelude.Eq.{text_eq}
use worlds_content_server.Prelude.Lists.{find}
use worlds_content_server.Prelude.Text.{Text, lower_case}
use worlds_content_server.Prelude.Result.{ok, err, ◌>>=◌, guard}
use worlds_content_server.Errors.{Outcome, no_deployed_scenes, spawn_coordinates_out_of_bounds}
use worlds_content_server.Entities.{truthy}
use worlds_content_server.Coordinates.{
  BoundingRectangle, parse_coordinate, is_coordinate_within_rectangle,
}
use worlds_content_server.Database.{Date, WorldRow, WorldSettings, Db, world_named}
use worlds_content_server.Worlds.Basic.{basic_world}
use worlds_content_server.Worlds.Scenes.{world_bounding_rectangle, update_world}
use worlds_content_server.Worlds.Manager.{spawn_coordinates_of}

abbrev pub within_shape : Text → Option BoundingRectangle → Outcome (Unit {0})
within_shape spawn none = err no_deployed_scenes
within_shape spawn (some r) = parse_coordinate spawn >>= λ c.
    guard (is_coordinate_within_rectangle c r) spawn_coordinates_out_of_bounds

-- `if (settings.spawnCoordinates)`: an empty text is not validated.
unfoldable pub check_spawn : Text → Option Text → Db → Outcome (Unit {0})
check_spawn world spawn db = elim (truthy spawn) [
  | none ↦ ok tt
  | some t ↦ world_bounding_rectangle (lower_case world) db.scenes >>= within_shape t
]

-- A null list of categories is stored as an empty one.
abbrev pub categories_value : Option (Option (List Text)) → Option (List Text)
categories_value none = none
categories_value (some none) = some []
categories_value (some (some cs)) = some cs

abbrev pub flatten {ℓ} : {A : Type ℓ} → Option (Option A) → Option A
flatten none = none
flatten (some o) = o

abbrev pub coalesce {ℓ} : {A : Type ℓ} → Option A → Option A → Option A
coalesce none b = b
coalesce (some a) b = some a

-- `skyboxTimeProvided`: a null that is given overwrites.
abbrev pub new_skybox_time : Option (Option ℕ) → Option ℕ → Option ℕ
new_skybox_time none current = current
new_skybox_time (some given) current = given

unfoldable pub settings_row : Date → Text → Text → WorldSettings → WorldRow
settings_row now world owner s = record (basic_world now world owner) {
  title = s.title;
  description = s.description;
  content_rating = s.content_rating;
  spawn_coordinates = s.spawn_coordinates;
  skybox_time = flatten s.skybox_time;
  categories = categories_value s.categories;
  single_player = s.single_player;
  show_in_places = s.show_in_places;
  thumbnail_hash = s.thumbnail_hash;
}

unfoldable pub change_settings : Date → WorldSettings → WorldRow → WorldRow
change_settings now s w = record w {
  title = coalesce s.title w.title;
  description = coalesce s.description w.description;
  content_rating = coalesce s.content_rating w.content_rating;
  spawn_coordinates = coalesce s.spawn_coordinates w.spawn_coordinates;
  skybox_time = new_skybox_time s.skybox_time w.skybox_time;
  categories = coalesce (categories_value s.categories) w.categories;
  single_player = coalesce s.single_player w.single_player;
  show_in_places = coalesce s.show_in_places w.show_in_places;
  thumbnail_hash = coalesce s.thumbnail_hash w.thumbnail_hash;
  updated_at = now;
}

abbrev pub present {ℓ} : {A : Type ℓ} → Option A → Option (Option A)
present none = none
present (some a) = some (some a)

unfoldable pub map_world_record_to_settings : WorldRow → WorldSettings
map_world_record_to_settings w = record {
  title = truthy w.title;
  description = truthy w.description;
  content_rating = truthy w.content_rating;
  spawn_coordinates = truthy w.spawn_coordinates;
  skybox_time = present w.skybox_time;
  categories = present w.categories;
  single_player = w.single_player;
  show_in_places = w.show_in_places;
  thumbnail_hash = truthy w.thumbnail_hash;
}

abbrev pub row_named : Text → List WorldRow → Option WorldRow
row_named world worlds = find (λ w. w.name == world) worlds

-- The row that `RETURNING *` gives.
abbrev pub row_after : Date → Text → Text → WorldSettings → Option WorldRow → WorldRow
row_after now world owner s none = settings_row now world owner s
row_after now world owner s (some w) = change_settings now s w

unfoldable pub upsert_settings : Date → Text → Text → WorldSettings → List WorldRow → List WorldRow
upsert_settings now world owner s worlds =
    if world_named world worlds
    then update_world world (change_settings now s) worlds
    else worlds ++ settings_row now world owner s ∷ []

pub record UpdateResult : Type 0 where
  pub settings : WorldSettings
  pub old_spawn_coordinates : Option Text

unfoldable pub update_world_settings :
    Date → Text → Text → WorldSettings → Db → Outcome (UpdateResult × Db)
update_world_settings now world owner s db =
    let name = lower_case world in
    let row = row_after now name (lower_case owner) s (row_named name db.worlds) in
    check_spawn world s.spawn_coordinates db >>= λ checked. ok (
      record {
        settings = map_world_record_to_settings row;
        old_spawn_coordinates = truthy (spawn_coordinates_of name db.worlds);
      },
      record db { worlds = upsert_settings now name (lower_case owner) s db.worlds },
    )

unfoldable pub get_world_settings : Text → Db → Option WorldSettings
get_world_settings world db = elim (row_named (lower_case world) db.worlds) [
  | none ↦ none
  | some w ↦ some (map_world_record_to_settings w)
]
