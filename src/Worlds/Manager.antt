-- ===== src/Worlds/Manager.antt =====
-- The operations of src/adapters/worlds-manager.ts that change scenes: deployment, the two kinds of
-- undeployment, and eviction. The authentication chain's deployer and the size come prevalidated;
-- request cancellation and the statement timeout are not modelled.
use worlds_content_server.Prelude.{
  ℕ, ◌+◌, Bool, false, not, ◌&&◌, Option, none, some, List, [], ◌∷◌, ◌++◌, if◌then◌else◌, ◌==◌, ltb,
}
use worlds_content_server.Prelude.Eq.{text_eq}
use worlds_content_server.Prelude.Lists.{length, filter, find, any}
use worlds_content_server.Prelude.Text.{Text, codes, lower_case}
use worlds_content_server.Prelude.Result.{ok, err, ◌>>=◌}
use worlds_content_server.Prelude.Number.{number_text}
use worlds_content_server.Errors.{Outcome, unique_violation, no_parcels}
use worlds_content_server.Entities.{
  Entity, SceneParcels, ContentMapping, truthy, extract_spawn_coordinates,
}
use worlds_content_server.Coordinates.{
  BoundingRectangle, comma, canonicalize_parcels, parse_coordinate, is_coordinate_within_rectangle,
  get_rectangle_center,
}
use worlds_content_server.Database.{
  Date, deployed, is_deployed, WorldRow, SceneRow, Db, world_named,
}
use worlds_content_server.Server.{Exec, throw, transaction}
use worlds_content_server.Worlds.Basic.{basic_world}
use worlds_content_server.Worlds.Scenes.{
  undeploy_overlapping, undeploy_all, world_bounding_rectangle, update_world,
  recalculate_world_scene_stats,
}

-- `SceneDeploymentData`: the first link of the chain, and the total size.
pub record SceneDeploymentData : Type 0 where
  pub deployer : Text
  pub size : ℕ

abbrev pub scene_parcels : Option SceneParcels → List Text
scene_parcels none = []
scene_parcels (some scene) = scene.parcels

hash_of : Option ContentMapping → Option Text
hash_of none = none
hash_of (some c) = truthy (some c.hash)

scene_thumbnail_hash : Entity → Option Text
unfolding hash_of
scene_thumbnail_hash scene = elim (truthy scene.settings.navmap_thumbnail) [
  | none ↦ none
  | some file ↦ hash_of (find (λ c. c.file == file) scene.content)
]

not_empty : List Text → Option (List Text)
not_empty [] = none
not_empty (x ∷ xs) = some (x ∷ xs)

text_is : Option Text → Text → Bool
text_is none t = false
text_is (some s) t = s == t

-- The row of a first deployment.
unfoldable pub first_row : Date → Text → Text → Text → Entity → WorldRow
unfolding scene_thumbnail_hash not_empty text_is
first_row now world owner spawn scene = record (basic_world now world owner) {
  spawn_coordinates = some spawn;
  title = truthy scene.settings.title;
  description = truthy scene.settings.description;
  content_rating = scene.settings.rating;
  skybox_time = scene.settings.skybox_fixed_time;
  categories = not_empty scene.settings.tags;
  single_player = some (text_is scene.settings.fixed_adapter (codes "offline:offline"));
  show_in_places = some (not scene.settings.opt_out);
  thumbnail_hash = scene_thumbnail_hash scene;
}

coalesce : Option Text → Text → Option Text
coalesce none b = some b
coalesce (some a) b = some a

-- A later deployment keeps the settings, and the spawn coordinates unless they are NULL.
unfoldable pub redeployed_row : Date → Text → Text → WorldRow → WorldRow
unfolding coalesce
redeployed_row now owner spawn w = record w {
  owner = some owner;
  spawn_coordinates = coalesce w.spawn_coordinates spawn;
  updated_at = now;
}

unfoldable pub upsert_world : Date → Text → Text → Text → Entity → List WorldRow → List WorldRow
unfolding first_row redeployed_row
upsert_world now world owner spawn scene worlds =
    if world_named world worlds
    then update_world world (redeployed_row now owner spawn) worlds
    else worlds ++ first_row now world owner spawn scene ∷ []

unfoldable pub new_scene : Date → Text → List Text → Entity → SceneDeploymentData → SceneRow
new_scene now world parcels scene deployment = record {
  world_name = world;
  entity_id = scene.id;
  deployer = lower_case deployment.deployer;
  entity = scene;
  parcels = parcels;
  size = deployment.size;
  status = deployed;
  created_at = now;
  updated_at = now;
}

-- The primary key (world_name, entity_id).
unfoldable pub has_scene : Text → Text → List SceneRow → Bool
unfolding any
has_scene world entity_id scenes =
    any (λ r. r.world_name == world && r.entity_id == entity_id) scenes

unfoldable pub insert_scene : SceneRow → List SceneRow → Outcome (List SceneRow)
unfolding has_scene
insert_scene row scenes =
    if has_scene row.world_name row.entity_id scenes
    then err unique_violation
    else ok (scenes ++ row ∷ [])

-- The statements of the deployment's transaction.
unfoldable pub deploy_statements :
    Date → Text → Text → Text → List Text → Entity → SceneDeploymentData → Db → Outcome Db
unfolding insert_scene
deploy_statements now world owner spawn parcels scene deployment db =
    insert_scene (new_scene now world parcels scene deployment)
      (undeploy_overlapping now world parcels db.scenes)
    >>= λ scenes.
        recalculate_world_scene_stats now world (record db {
          worlds = upsert_world now world owner spawn scene db.worlds;
          scenes = scenes;
        })

unfoldable pub in_transaction : (Db → Outcome Db) → Exec (Unit {0})
in_transaction f = transaction (λ db. f db >>= λ db'. ok (tt, db'))

unfoldable pub deploy_parcels :
    Date → Text → Entity → Text → SceneDeploymentData → List Text → Exec (Unit {0})
unfolding in_transaction
deploy_parcels now world scene owner deployment [] = throw no_parcels
deploy_parcels now world scene owner deployment (p ∷ ps) = elim (extract_spawn_coordinates scene) [
  | err e ↦ throw e
  | ok spawn ↦
      in_transaction (
        deploy_statements now (lower_case world) (lower_case owner) spawn (p ∷ ps) scene deployment)
]

unfoldable pub deploy_scene : Date → Text → Entity → Text → SceneDeploymentData → Exec (Unit {0})
unfolding deploy_parcels
deploy_scene now world scene owner deployment =
    deploy_parcels now world scene owner deployment
      (canonicalize_parcels (scene_parcels scene.scene))

unfoldable pub cleared_row : Date → WorldRow → WorldRow
cleared_row now w = record w {
  spawn_coordinates = none;
  last_deployed_at = none;
  deployed_scene_count = 0;
  scene_min_x = none;
  scene_max_x = none;
  scene_min_y = none;
  scene_max_y = none;
  updated_at = now;
}

unfoldable pub undeploy_world : Date → Text → Exec (Unit {0})
unfolding cleared_row in_transaction
undeploy_world now world = in_transaction λ db. ok (record db {
  scenes = undeploy_all now (lower_case world) db.scenes;
  worlds = update_world (lower_case world) (cleared_row now) db.worlds;
})

-- The spawn coordinates of a world's row.
spawn_of : Option WorldRow → Option Text
spawn_of none = none
spawn_of (some w) = w.spawn_coordinates

unfoldable pub spawn_coordinates_of : Text → List WorldRow → Option Text
unfolding spawn_of find
spawn_coordinates_of world worlds = spawn_of (find (λ w. w.name == world) worlds)

-- `${center.x},${center.y}`.
unfoldable pub center_text : BoundingRectangle → Text
center_text r =
    let c = get_rectangle_center r in number_text (some c.x) ++ comma ∷ number_text (some c.y)

unfoldable pub keep_or_center : Text → BoundingRectangle → Outcome (Option Text)
unfolding center_text
keep_or_center current r = parse_coordinate current >>= λ c.
    ok (some (if is_coordinate_within_rectangle c r then current else center_text r))

-- The spawn coordinates after an undeployment, from the current ones and the new rectangle.
unfoldable pub new_spawn_coordinates :
    Option Text → Option BoundingRectangle → Outcome (Option Text)
unfolding keep_or_center
new_spawn_coordinates current none = ok none
new_spawn_coordinates none (some r) = ok none
new_spawn_coordinates (some []) (some r) = ok (some [])
new_spawn_coordinates (some (c ∷ s)) (some r) = keep_or_center (c ∷ s) r

unfoldable pub set_spawn : Option Text → WorldRow → WorldRow
set_spawn spawn w = record w { spawn_coordinates = spawn }

-- Writing the spawn coordinates that the row has already changes nothing, so the source's test for
-- a change is left to the value.
unfoldable pub undeploy_statements : Date → Text → List Text → Db → Outcome Db
unfolding spawn_coordinates_of set_spawn
undeploy_statements now world parcels db =
    let scenes = undeploy_overlapping now world parcels db.scenes in
    world_bounding_rectangle world scenes >>= λ rectangle.
    new_spawn_coordinates (spawn_coordinates_of world db.worlds) rectangle >>= λ spawn.
    recalculate_world_scene_stats now world
      (record db { scenes = scenes; worlds = update_world world (set_spawn spawn) db.worlds })

unfoldable pub undeploy_scene : Date → Text → List Text → Exec (Unit {0})
unfolding in_transaction
undeploy_scene now world parcels =
    in_transaction (undeploy_statements now (lower_case world) parcels)

-- The number of the rows that the eviction deletes.
unfoldable pub evict_undeployed_scenes : Date → ℕ → Exec ℕ
unfolding filter
evict_undeployed_scenes now older_than = transaction λ db.
    let old = λ (r : SceneRow). not (is_deployed r.status) && ltb (r.updated_at + older_than) now in
    ok (length (filter old db.scenes), record db { scenes = filter (λ r. not (old r)) db.scenes })
