-- ===== src/Worlds/Overlap.antt =====
-- No two deployed scenes of a world share a parcel: the operations of
-- src/adapters/worlds-manager.ts keep this.
use mathlib.Core.Path.{subst}
use worlds_content_server.Prelude.{
  ℕ, ◌≡◌, refl, sym, Bool, false, ◌&&◌, List, [], ◌∷◌, ◌++◌, map, arith, if◌then◌else◌, ◌==◌,
  Bool-cases, inl, inr,
}
use worlds_content_server.Prelude.Eq.{text_eq}
use worlds_content_server.Prelude.Lists.{All, filter}
use worlds_content_server.Prelude.Text.{Text, lower_case}
use worlds_content_server.Entities.{Entity}
use worlds_content_server.Coordinates.{canonicalize_parcels}
use worlds_content_server.Database.{Date, is_deployed, SceneRow}
use worlds_content_server.Server.{Server, after}
use worlds_content_server.Worlds.Scenes.{
  overlaps, is_deployed_in, undeploy_row, undeploy_overlapping, undeploy_all,
}
use worlds_content_server.Worlds.Manager.{
  SceneDeploymentData, scene_parcels, new_scene, deploy_scene, undeploy_statements, undeploy_scene,
  undeploy_world, evict_undeployed_scenes,
}
use worlds_content_server.Worlds.Inversion.{
  in_transaction-keeps, deploy_scene-keeps, deploy_statements-ok, undeploy_statements-ok,
}

-- Both scenes are deployed in one world, and share a parcel.
unfoldable pub conflict : SceneRow → SceneRow → Bool
conflict a b =
    a.world_name == b.world_name
    && is_deployed a.status
    && is_deployed b.status
    && overlaps a.parcels b.parcels

abbrev pub NoOverlap : List SceneRow → Type 0
NoOverlap [] = Unit
NoOverlap (r ∷ rs) = All (λ q. conflict r q ≡ false) rs × NoOverlap rs

All-map :
    (f : SceneRow → SceneRow) (r : SceneRow) (rs : List SceneRow)
    → ((a b : SceneRow) → conflict a b ≡ false → conflict (f a) (f b) ≡ false)
    → All (λ q. conflict r q ≡ false) rs
    → All (λ q. conflict (f r) q ≡ false) (map f rs)
All-map f r [] keep h = tt
All-map f r (q ∷ rs) keep (k, h) = (keep r q k, All-map f r rs keep h)

NoOverlap-map :
    (f : SceneRow → SceneRow) (rs : List SceneRow)
    → ((a b : SceneRow) → conflict a b ≡ false → conflict (f a) (f b) ≡ false)
    → NoOverlap rs
    → NoOverlap (map f rs)
NoOverlap-map f [] keep h = tt
NoOverlap-map f (r ∷ rs) keep (k, h) = (All-map f r rs keep k, NoOverlap-map f rs keep h)

All-concat :
    (r n : SceneRow) (rs : List SceneRow)
    → All (λ q. conflict r q ≡ false) rs
    → conflict r n ≡ false
    → All (λ q. conflict r q ≡ false) (rs ++ n ∷ [])
All-concat r n [] h k = (k, tt)
All-concat r n (q ∷ rs) (g, h) k = (g, All-concat r n rs h k)

NoOverlap-concat :
    (n : SceneRow) (rs : List SceneRow)
    → NoOverlap rs
    → All (λ r. conflict r n ≡ false) rs
    → NoOverlap (rs ++ n ∷ [])
NoOverlap-concat n [] h k = (tt, tt)
NoOverlap-concat n (r ∷ rs) (g, h) (k, l) = (All-concat r n rs g k, NoOverlap-concat n rs h l)

All-filter :
    (keep : SceneRow → Bool) (r : SceneRow) (rs : List SceneRow)
    → All (λ q. conflict r q ≡ false) rs
    → All (λ q. conflict r q ≡ false) (filter keep rs)
unfolding filter
All-filter keep r [] h = tt
All-filter keep r (q ∷ rs) (k, h) = elim (Bool-cases (keep q)) [
  | inl e ↦ rw e (k, All-filter keep r rs h)
  | inr e ↦ rw e (All-filter keep r rs h)
]

NoOverlap-filter :
    (keep : SceneRow → Bool) (rs : List SceneRow) → NoOverlap rs → NoOverlap (filter keep rs)
unfolding filter
NoOverlap-filter keep [] h = tt
NoOverlap-filter keep (r ∷ rs) (k, h) = elim (Bool-cases (keep r)) [
  | inl e ↦ rw e (All-filter keep r rs k, NoOverlap-filter keep rs h)
  | inr e ↦ rw e (NoOverlap-filter keep rs h)
]

-- A soft delete of some rows makes no conflict.
conflict-undeploy :
    (now : Date) (gone : SceneRow → Bool) (a b : SceneRow)
    → conflict a b ≡ false
    → conflict (if gone a then undeploy_row now a else a) (if gone b then undeploy_row now b else b)
      ≡ false
unfolding conflict undeploy_row
conflict-undeploy now gone a b h = ground arith

overlapping-NoOverlap :
    (now : Date) (world : Text) (ps : List Text) (rs : List SceneRow)
    → NoOverlap rs
    → NoOverlap (undeploy_overlapping now world ps rs)
unfolding undeploy_overlapping
overlapping-NoOverlap now world ps rs h =
    NoOverlap-map _ rs
      (conflict-undeploy now (λ r. is_deployed_in world r && overlaps r.parcels ps)) h

-- Nothing that is left deployed in the world overlaps the parcels.
undeploy_overlapping-clear :
    (now : Date) (world : Text) (n : SceneRow) (rs : List SceneRow)
    → n.world_name ≡ world
    → All (λ r. conflict r n ≡ false) (undeploy_overlapping now world n.parcels rs)
unfolding undeploy_overlapping conflict undeploy_row
undeploy_overlapping-clear now world n [] e = tt
undeploy_overlapping-clear now world n (r ∷ rs) e =
    (ground arith, undeploy_overlapping-clear now world n rs e)

-- A deployment, whether it succeeds or is refused, leads to scenes of which no two that are deployed
-- in one world share a parcel, if there were no such two before.
pub deploy_scene-NoOverlap :
    (now : Date) (world : Text) (scene : Entity) (owner : Text) (d : SceneDeploymentData)
    (s : Server)
    → NoOverlap s.db.scenes
    → NoOverlap (after (deploy_scene now world scene owner d) s).db.scenes
deploy_scene-NoOverlap now world scene owner d s h =
    let ps = canonicalize_parcels (scene_parcels scene.scene) in
    let w = lower_case world in
    deploy_scene-keeps (λ db. NoOverlap db.scenes) now world scene owner d s h
      λ spawn db e.
        let (scenes, _, _, _) =
          deploy_statements-ok now w s.db db (lower_case owner) spawn ps scene d e in
        subst NoOverlap (sym scenes) (
          NoOverlap-concat (new_scene now w ps scene d) (undeploy_overlapping now w ps s.db.scenes)
            (overlapping-NoOverlap now w ps s.db.scenes h)
            (unfold new_scene in
              undeploy_overlapping-clear now w (new_scene now w ps scene d) s.db.scenes refl))

-- An undeployment of the scenes on some parcels leaves no two scenes that are deployed in one world
-- and share a parcel, if there were no such two before.
pub undeploy_scene-NoOverlap :
    (now : Date) (world : Text) (parcels : List Text) (s : Server)
    → NoOverlap s.db.scenes
    → NoOverlap (after (undeploy_scene now world parcels) s).db.scenes
unfolding undeploy_scene
undeploy_scene-NoOverlap now world parcels s h =
    let w = lower_case world in
    in_transaction-keeps (λ db. NoOverlap db.scenes) (undeploy_statements now w parcels) s h
      λ db e.
        subst NoOverlap (sym (undeploy_statements-ok now w s.db db parcels e).0)
          (overlapping-NoOverlap now w parcels s.db.scenes h)

-- An undeployment of a world leaves no two scenes that are deployed in one world and share a parcel,
-- if there were no such two before.
pub undeploy_world-NoOverlap :
    (now : Date) (world : Text) (s : Server)
    → NoOverlap s.db.scenes
    → NoOverlap (after (undeploy_world now world) s).db.scenes
unfolding undeploy_world undeploy_all
undeploy_world-NoOverlap now world s h =
    NoOverlap-map _ s.db.scenes (conflict-undeploy now (is_deployed_in (lower_case world))) h

-- An eviction of undeployed scenes leaves no two scenes that are deployed in one world and share a
-- parcel, if there were no such two before.
pub evict-NoOverlap :
    (now : Date) (older : ℕ) (s : Server)
    → NoOverlap s.db.scenes
    → NoOverlap (after (evict_undeployed_scenes now older) s).db.scenes
unfolding evict_undeployed_scenes
evict-NoOverlap now older s h = NoOverlap-filter _ s.db.scenes h
