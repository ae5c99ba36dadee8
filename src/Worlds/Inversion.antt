-- ===== src/Worlds/Inversion.antt =====
-- What a successful statement of src/adapters/worlds-manager.ts leaves in the tables.
use mathlib.Core.Path.{subst}
use worlds_content_server.Prelude.{
  ◌≡◌, refl, sym, ap, ◌∙◌, false, Option, List, [], ◌∷◌, ◌++◌, Bool-cases, inl, inr,
}
use worlds_content_server.Prelude.Text.{Text, lower_case}
use worlds_content_server.Prelude.Result.{ok, err, >>=-eq-ok, ok_inj}
use worlds_content_server.Errors.{Outcome}
use worlds_content_server.Entities.{Entity, extract_spawn_coordinates}
use worlds_content_server.Coordinates.{canonicalize_parcels, BoundingRectangle}
use worlds_content_server.Database.{Date, SceneRow, Db}
use worlds_content_server.Server.{Server, after}
use worlds_content_server.Worlds.Scenes.{
  undeploy_overlapping, world_bounding_rectangle, SceneStats, scene_stats, set_stats, update_world,
  recalculate_world_scene_stats,
}
use worlds_content_server.Worlds.Manager.{
  SceneDeploymentData, scene_parcels, deploy_parcels, deploy_scene, upsert_world, new_scene,
  has_scene, insert_scene, deploy_statements, in_transaction, undeploy_statements,
  spawn_coordinates_of, new_spawn_coordinates, set_spawn,
}

pub recalculate-ok :
    (now : Date) (world : Text) (db db' : Db)
    → recalculate_world_scene_stats now world db ≡ ok db'
    → (st : SceneStats) × (scene_stats world db.scenes ≡ ok st)
      × (record db { worlds = update_world world (set_stats now st) db.worlds } ≡ db')
unfolding recalculate_world_scene_stats
recalculate-ok now world db db' h =
    let (st, e, k) = >>=-eq-ok (scene_stats world db.scenes) _ h in (st, e, ok_inj k)

insert_scene-ok :
    (row : SceneRow) (scenes rows : List SceneRow)
    → insert_scene row scenes ≡ ok rows
    → (has_scene row.world_name row.entity_id scenes ≡ false) × (scenes ++ row ∷ [] ≡ rows)
unfolding insert_scene
insert_scene-ok row scenes rows h =
    elim (Bool-cases (has_scene row.world_name row.entity_id scenes)) [
      | inl e ↦ cc (rw e at h)
      | inr e ↦ (e, ok_inj (rw e at h))
    ]

-- A transaction keeps a property of the database that its statements keep when they succeed.
pub in_transaction-keeps {ℓ} :
    (P : Db → Type ℓ) (f : Db → Outcome Db) (s : Server)
    → P s.db
    → ((db : Db) → f s.db ≡ ok db → P db)
    → P (after (in_transaction f) s).db
unfolding in_transaction
in_transaction-keeps P f s h step = go (f s.db) refl
  where
    go : (o : Outcome Db) → f s.db ≡ o → P (after (in_transaction f) s).db
    go (ok db) e = rw (after, e) (step db e)
    go (err x) e = rw (after, e) h

module _ (now : Date) (world : Text) (db db' : Db) where
  pub deploy_statements-ok :
      (owner spawn : Text) (parcels : List Text) (scene : Entity) (d : SceneDeploymentData)
      → deploy_statements now world owner spawn parcels scene d db ≡ ok db'
      → (db'.scenes
          ≡ undeploy_overlapping now world parcels db.scenes
            ++ new_scene now world parcels scene d ∷ [])
        × (st : SceneStats) × (scene_stats world db'.scenes ≡ ok st)
        × (db'.worlds
            ≡ update_world world
                (set_stats now st)
                (upsert_world now world owner spawn scene db.worlds))
  unfolding deploy_statements
  deploy_statements-ok owner spawn parcels scene d h =
      let row = new_scene now world parcels scene d in
      let (scenes, inserted, h') =
        >>=-eq-ok (insert_scene row (undeploy_overlapping now world parcels db.scenes)) _ h in
      let (fresh, rows) = insert_scene-ok row _ scenes inserted in
      let (st, stats, left) = recalculate-ok now world _ db' h' in
      (
        sym (ap (λ (d : Db). d.scenes) left) ∙ sym rows,
        st,
        subst (λ (t : List SceneRow). scene_stats world t ≡ ok st) (ap (λ (d : Db). d.scenes) left)
            stats,
        sym (ap (λ (d : Db). d.worlds) left),
      )

  pub undeploy_statements-ok :
      (parcels : List Text)
      → undeploy_statements now world parcels db ≡ ok db'
      → (db'.scenes ≡ undeploy_overlapping now world parcels db.scenes)
        × (r : Option BoundingRectangle) × (spawn : Option Text) × (st : SceneStats)
        × (world_bounding_rectangle world db'.scenes ≡ ok r)
        × (new_spawn_coordinates (spawn_coordinates_of world db.worlds) r ≡ ok spawn)
        × (scene_stats world db'.scenes ≡ ok st)
        × (db'.worlds
            ≡ update_world world
                (set_stats now st)
                (update_world world (set_spawn spawn) db.worlds))
  unfolding undeploy_statements
  undeploy_statements-ok parcels h =
      let scenes = undeploy_overlapping now world parcels db.scenes in
      let (r, rectangle, h') = >>=-eq-ok (world_bounding_rectangle world scenes) _ h in
      let (spawn, chosen, h'') =
        >>=-eq-ok (new_spawn_coordinates (spawn_coordinates_of world db.worlds) r) _ h' in
      let (st, stats, left) = recalculate-ok now world _ db' h'' in
      let same = ap (λ (d : Db). d.scenes) left in
      (
        sym same,
        r,
        spawn,
        st,
        subst (λ (t : List SceneRow). world_bounding_rectangle world t ≡ ok r) same rectangle,
        chosen,
        subst (λ (t : List SceneRow). scene_stats world t ≡ ok st) same stats,
        sym (ap (λ (d : Db). d.worlds) left),
      )

-- A deployment that is refused leaves the database; otherwise its statements run.
pub deploy_scene-keeps {ℓ} :
    (P : Db → Type ℓ) (now : Date) (world : Text) (scene : Entity) (owner : Text)
    (d : SceneDeploymentData) (s : Server)
    → P s.db
    → ((spawn : Text) (db : Db)
        → deploy_statements now
            (lower_case world)
            (lower_case owner)
            spawn
            (canonicalize_parcels (scene_parcels scene.scene))
            scene
            d
            s.db
          ≡ ok db
        → P db)
    → P (after (deploy_scene now world scene owner d) s).db
unfolding deploy_scene
deploy_scene-keeps P now world scene owner d s h step =
    go (canonicalize_parcels (scene_parcels scene.scene)) step (extract_spawn_coordinates scene)
      refl
  where
    go :
        (ps : List Text)
        → ((spawn : Text) (db : Db)
            → deploy_statements now (lower_case world) (lower_case owner) spawn ps scene d s.db
              ≡ ok db
            → P db)
        → (o : Outcome Text) → extract_spawn_coordinates scene ≡ o
        → P (after (deploy_parcels now world scene owner d ps) s).db
    go [] step o e = h
    go (p ∷ ps) step (err x) e = rw (after, e) h
    go (p ∷ ps) step (ok spawn) e =
        rw (after, e)
          (in_transaction-keeps P
            (deploy_statements now (lower_case world) (lower_case owner) spawn (p ∷ ps) scene d) s h
            (step spawn))
