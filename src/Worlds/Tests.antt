-- ===== src/Worlds/Tests.antt =====
-- The worlds manager of src/adapters/worlds-manager.ts on small tables.
use worlds_content_server.Prelude.{refl, List, [], ◌∷◌}
use worlds_content_server.Prelude.Text.{Text, codes}
use worlds_content_server.Server.{Server, after}
use worlds_content_server.Fixtures.{
  world, owner, scene_of, scene_row, server_of, empty_db, sample_db,
}
use worlds_content_server.Prelude.Int.{pos, negsuc}
use worlds_content_server.Coordinates.{BoundingRectangle}
use worlds_content_server.Worlds.Manager.{SceneDeploymentData, deploy_scene, undeploy_scene}
use worlds_content_server.Worlds.Overlap.{NoOverlap, deploy_scene-NoOverlap}
use worlds_content_server.Worlds.Stats.{
  StatsCurrent, deploy_scene-StatsCurrent, undeploy_scene-StatsCurrent,
}
use worlds_content_server.Worlds.Reachable.{start, deploy, undeploy, Reachable-sound}

abbrev first_link : SceneDeploymentData
first_link = record { deployer = owner; size = 10 }

abbrev sample : Server
sample = server_of (record sample_db { worlds = [] })

abbrev second : List Text
second = codes "0,1" ∷ codes "0,2" ∷ []

-- The new scene takes a parcel of the deployed one.
deploy_scene-NoOverlap_example :
    NoOverlap
      (after
        (deploy_scene 5 world (scene_of (codes "bafy2") second) owner first_link)
        sample).db.scenes
deploy_scene-NoOverlap_example =
    deploy_scene-NoOverlap 5 world (scene_of (codes "bafy2") second) owner first_link sample
      (tt, tt)

deploy_scene-StatsCurrent_example :
    StatsCurrent
      (after (deploy_scene 5 world (scene_of (codes "bafy2") second) owner first_link) sample).db
deploy_scene-StatsCurrent_example =
    deploy_scene-StatsCurrent 5 world (scene_of (codes "bafy2") second) owner first_link sample tt

abbrev deployed_once : Server
deployed_once =
    after (deploy_scene 5 world (scene_of (codes "bafy2") second) owner first_link) sample

deploy_scene-StatsCurrent_once : StatsCurrent deployed_once.db
deploy_scene-StatsCurrent_once =
    deploy_scene-StatsCurrent 5 world (scene_of (codes "bafy2") second) owner first_link sample tt

undeploy_scene-StatsCurrent_example :
    StatsCurrent (after (undeploy_scene 6 world second) deployed_once).db
undeploy_scene-StatsCurrent_example =
    undeploy_scene-StatsCurrent 6 world second deployed_once deploy_scene-StatsCurrent_once

abbrev empty_server : Server
empty_server = server_of empty_db

-- A deployment, one that takes a parcel of it, and an undeployment.
Reachable-sound_example :
    NoOverlap
      (after (undeploy_scene 7 world (codes "0,2" ∷ [])) (
        after
          (deploy_scene 6 world (scene_of (codes "bafy2") second) owner first_link)
          (after (deploy_scene 5 world scene_row.entity owner first_link) empty_server))).db.scenes
    × StatsCurrent
        (after (undeploy_scene 7 world (codes "0,2" ∷ [])) (
          after
            (deploy_scene 6 world (scene_of (codes "bafy2") second) owner first_link)
            (after (deploy_scene 5 world scene_row.entity owner first_link) empty_server))).db
Reachable-sound_example =
    Reachable-sound empty_server
      (after (undeploy_scene 7 world (codes "0,2" ∷ [])) (
        after (deploy_scene 6 world (scene_of (codes "bafy2") second) owner first_link)
          (after (deploy_scene 5 world scene_row.entity owner first_link) empty_server)))
      refl refl
      (undeploy 7 world (codes "0,2" ∷ []) (
        deploy 6 world (scene_of (codes "bafy2") second) owner first_link
          (deploy 5 world scene_row.entity owner first_link start)))

abbrev square : BoundingRectangle
square = record { min = record { x = negsuc 2; y = pos 0 }; max = record { x = pos 2; y = pos 5 } }
