-- ===== src/Worlds/Basic.antt =====
-- `createBasicWorldIfNotExists` of src/adapters/worlds-manager.ts, and the row that it inserts.
use worlds_content_server.Prelude.{none, some, [], ◌∷◌, ◌++◌, if◌then◌else◌}
use worlds_content_server.Prelude.Text.{Text, lower_case}
use worlds_content_server.AccessSetting.{default_access}
use worlds_content_server.Database.{Date, WorldRow, world_named}
use worlds_content_server.Server.{Exec, update_db}

-- The columns that an `INSERT` leaves out are NULL, and the count of scenes is 0.
abbrev pub basic_world : Date → Text → Text → WorldRow
basic_world now name owner = record {
  name = name;
  owner = some owner;
  access = some default_access;
  spawn_coordinates = none;
  title = none;
  description = none;
  content_rating = none;
  skybox_time = none;
  categories = none;
  single_player = none;
  show_in_places = none;
  thumbnail_hash = none;
  last_deployed_at = none;
  deployed_scene_count = 0;
  scene_min_x = none;
  scene_max_x = none;
  scene_min_y = none;
  scene_max_y = none;
  created_at = now;
  updated_at = now;
}

unfoldable pub create_basic_world_if_not_exists : Date → Text → Text → Exec (Unit {0})
create_basic_world_if_not_exists now world owner = update_db λ db.
    if world_named (lower_case world) db.worlds then db else record db {
      worlds = db.worlds ++ basic_world now (lower_case world) (lower_case owner) ∷ [];
    }
