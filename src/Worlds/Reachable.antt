-- ===== src/Worlds/Reachable.antt =====
-- What holds after any sequence of the operations of src/adapters/worlds-manager.ts that change
-- scenes.
use worlds_content_server.Prelude.{ℕ, ◌≡◌, List, []}
use worlds_content_server.Prelude.Text.{Text}
use worlds_content_server.Entities.{Entity}
use worlds_content_server.Database.{Date, Db}
use worlds_content_server.Server.{Server, after}
use worlds_content_server.Worlds.Manager.{
  SceneDeploymentData, deploy_scene, undeploy_scene, undeploy_world, evict_undeployed_scenes,
}
use worlds_content_server.Worlds.Overlap.{
  NoOverlap, deploy_scene-NoOverlap, undeploy_scene-NoOverlap, undeploy_world-NoOverlap,
  evict-NoOverlap,
}
use worlds_content_server.Worlds.Stats.{
  StatsCurrent, deploy_scene-StatsCurrent, undeploy_scene-StatsCurrent, undeploy_world-StatsCurrent,
  evict-StatsCurrent,
}

-- The states that the operations lead to from one with no worlds and no scenes.
pub data Reachable (s : Server) : Server → Type 0 where
  start : Reachable s s
  deploy :
      {t : Server} (now : Date) (world : Text) (scene : Entity) (owner : Text)
      (d : SceneDeploymentData)
      → Reachable s t
      → Reachable s (after (deploy_scene now world scene owner d) t)
  undeploy :
      {t : Server} (now : Date) (world : Text) (parcels : List Text)
      → Reachable s t
      → Reachable s (after (undeploy_scene now world parcels) t)
  undeploy_the_world :
      {t : Server} (now : Date) (world : Text)
      → Reachable s t
      → Reachable s (after (undeploy_world now world) t)
  evict :
      {t : Server} (now : Date) (older : ℕ)
      → Reachable s t
      → Reachable s (after (evict_undeployed_scenes now older) t)

abbrev IsSound : Db → Type 0
IsSound db = NoOverlap db.scenes × StatsCurrent db

kept : (s t : Server) → Reachable s t → IsSound s.db → IsSound t.db
kept s t start h = h
kept s t (deploy {t = u} now world scene owner d r) h =
    let (apart, current) = kept s u r h in
    (
      deploy_scene-NoOverlap now world scene owner d u apart,
      deploy_scene-StatsCurrent now world scene owner d u current,
    )
kept s t (undeploy {t = u} now world parcels r) h =
    let (apart, current) = kept s u r h in
    (
      undeploy_scene-NoOverlap now world parcels u apart,
      undeploy_scene-StatsCurrent now world parcels u current,
    )
kept s t (undeploy_the_world {t = u} now world r) h =
    let (apart, current) = kept s u r h in
    (undeploy_world-NoOverlap now world u apart, undeploy_world-StatsCurrent now world u current)
kept s t (evict {t = u} now older r) h =
    let (apart, current) = kept s u r h in
    (evict-NoOverlap now older u apart, evict-StatsCurrent now older u current)

-- From a database without worlds and scenes, any sequence of deployments, undeployments of scenes or
-- of a world, and evictions, whichever succeed, leads to one in which no two deployed scenes of a
-- world share a parcel, and every world's statistics are those of its deployed scenes.
pub Reachable-sound :
    (s t : Server)
    → s.db.worlds ≡ []
    → s.db.scenes ≡ []
    → Reachable s t
    → NoOverlap t.db.scenes × StatsCurrent t.db
Reachable-sound s t worlds scenes r = kept s t r (rw scenes tt, rw worlds tt)
