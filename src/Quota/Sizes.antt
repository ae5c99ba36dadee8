-- ===== src/Quota/Sizes.antt =====
-- The size of a world after a deployment (src/adapters/worlds-manager.ts) is the one that the quota
-- of src/adapters/limits-manager.ts reckons with.
use worlds_content_server.Prelude.{ℕ, ◌+◌, ◌≡◌, refl, Bool, List, [], ◌∷◌, arith}
use worlds_content_server.Prelude.Eq.{text_eq, text_beq_refl}
use worlds_content_server.Prelude.Lists.{filter, filter-append}
use worlds_content_server.Prelude.Positions.{total, total-append}
use worlds_content_server.Prelude.Text.{Text, lower_case}
use worlds_content_server.Prelude.Result.{ok, err}
use worlds_content_server.Errors.{Outcome}
use worlds_content_server.Entities.{Entity, extract_spawn_coordinates}
use worlds_content_server.Coordinates.{canonicalize_parcels}
use worlds_content_server.Database.{Date, SceneRow, Db}
use worlds_content_server.Server.{Server, Exec, after, throw}
use worlds_content_server.Worlds.Scenes.{is_deployed_in, undeploy_row, undeploy_overlapping}
use worlds_content_server.Worlds.Manager.{
  SceneDeploymentData, scene_parcels, new_scene, deploy_statements, deploy_scene, deploy_parcels,
  in_transaction,
}
use worlds_content_server.Worlds.Inversion.{deploy_statements-ok}
use worlds_content_server.Quota.{
  is_replaced, get_total_world_size, get_deployed_scene_size_for_parcels,
}

abbrev size_of : SceneRow → ℕ
size_of r = r.size

size_where : (SceneRow → Bool) → List SceneRow → ℕ
size_where p rows = total size_of (filter p rows)

-- What stays deployed and what is replaced make up what was deployed.
undeploy_overlapping-sizes :
    (now : Date) (world : Text) (parcels : List Text) (rows : List SceneRow)
    → size_where (is_deployed_in world) (undeploy_overlapping now world parcels rows)
        + size_where (is_replaced world parcels) rows
      ≡ size_where (is_deployed_in world) rows
unfolding size_where undeploy_overlapping undeploy_row filter total is_deployed_in
undeploy_overlapping-sizes now world parcels [] = omega arith
undeploy_overlapping-sizes now world parcels (r ∷ rs) =
    ground (arith, undeploy_overlapping-sizes now world parcels rs)

new_scene_size :
    (now : Date) (world : Text) (parcels : List Text) (scene : Entity) (d : SceneDeploymentData)
    → size_where (is_deployed_in world) (new_scene now world parcels scene d ∷ []) ≡ d.size
unfolding size_where is_deployed_in filter total new_scene
new_scene_size now world parcels scene d = rw text_beq_refl (omega arith)

in_transaction-ok :
    (f : Db → Outcome Db) (s : Server)
    → ((in_transaction f) s).0 ≡ ok tt
    → f s.db ≡ ok (after (in_transaction f) s).db
unfolding in_transaction
in_transaction-ok f s h = go (f s.db) h
  where
    go :
        (o : Outcome Db)
        → (in_transaction (λ db. o) s).0 ≡ ok tt
        → o ≡ ok (after (in_transaction (λ db. o)) s).db
    go (ok db) h = refl
    go (err e) h = cc h

module _ (now : Date) (world : Text) (scene : Entity) (owner : Text) (d : SceneDeploymentData)
    (s : Server) where
  abbrev statements : Text → List Text → Db → Outcome Db
  statements spawn parcels =
      deploy_statements now (lower_case world) (lower_case owner) spawn parcels scene d

  abbrev with_spawn : List Text → Outcome Text → Exec (Unit {0})
  with_spawn parcels (err e) = throw e
  with_spawn parcels (ok spawn) = in_transaction (statements spawn parcels)

  with_spawn-ok :
      (parcels : List Text) (o : Outcome Text)
      → (with_spawn parcels o s).0 ≡ ok tt
      → (spawn : Text) × (statements spawn parcels s.db ≡ ok (after (with_spawn parcels o) s).db)
  with_spawn-ok parcels (err e) h = cc h
  with_spawn-ok parcels (ok spawn) h = (spawn, in_transaction-ok (statements spawn parcels) s h)

  deployed_size :
      (db : Db) (p : Text) (ps : List Text) (spawn : Text)
      → statements spawn (p ∷ ps) s.db ≡ ok db
      → get_total_world_size world db + get_deployed_scene_size_for_parcels world (p ∷ ps) s.db
        ≡ get_total_world_size world s.db + d.size
  unfolding get_total_world_size get_deployed_scene_size_for_parcels size_where
  deployed_size db p ps spawn ran =
      let rows =
        (deploy_statements-ok now (lower_case world) s.db db (lower_case owner) spawn (p ∷ ps) scene
          d ran).0 in
      rw (rows, filter-append, total-append)
        (omega (
          arith,
          undeploy_overlapping-sizes now (lower_case world) (p ∷ ps) s.db.scenes,
          new_scene_size now (lower_case world) (p ∷ ps) scene d,
        ))

  deployed_parcels_size :
      (parcels : List Text)
      → (deploy_parcels now world scene owner d parcels s).0 ≡ ok tt
      → get_total_world_size world (after (deploy_parcels now world scene owner d parcels) s).db
          + get_deployed_scene_size_for_parcels world parcels s.db
        ≡ get_total_world_size world s.db + d.size
  unfolding deploy_parcels
  deployed_parcels_size [] h = cc h
  deployed_parcels_size (p ∷ ps) h =
      let (spawn, ran) = with_spawn-ok (p ∷ ps) (extract_spawn_coordinates scene) h in
      deployed_size _ p ps spawn ran

  -- A deployment that returns adds its size to the world's and takes off that of the scenes on its
  -- parcels, the one that the limits manager credits back for these parcels.
  pub deploy_scene-get_total_world_size :
      (deploy_scene now world scene owner d s).0 ≡ ok tt
      → get_total_world_size world (after (deploy_scene now world scene owner d) s).db
          + get_deployed_scene_size_for_parcels world
              (canonicalize_parcels (scene_parcels scene.scene))
              s.db
        ≡ get_total_world_size world s.db + d.size
  unfolding deploy_scene
  deploy_scene-get_total_world_size done =
      deployed_parcels_size (canonicalize_parcels (scene_parcels scene.scene)) done
