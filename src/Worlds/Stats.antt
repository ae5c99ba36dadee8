-- ===== src/Worlds/Stats.antt =====
-- The denormalized statistics of a world agree with its deployed scenes after each operation of
-- src/adapters/worlds-manager.ts.
use mathlib.Core.Path.{subst}
use worlds_content_server.Prelude.{
  ℕ, ◌+◌, ◌≡◌, refl, sym, ap, ◌∙◌, Bool, false, not, ◌&&◌, none, List, [], ◌∷◌, ◌++◌, arith, ◌==◌,
  Bool-cases, inl, inr, ltb,
}
use worlds_content_server.Prelude.Eq.{text_eq, text_beq_sound, text_beq_refl}
use worlds_content_server.Prelude.Lists.{All, filter}
use worlds_content_server.Prelude.Text.{Text, lower_case}
use worlds_content_server.Prelude.Result.{ok, map_result}
use worlds_content_server.Entities.{Entity}
use worlds_content_server.Coordinates.{canonicalize_parcels, extent}
use worlds_content_server.Database.{Date, is_deployed, WorldRow, SceneRow, Db, world_named}
use worlds_content_server.Server.{Server, after}
use worlds_content_server.Worlds.Scenes.{
  undeploy_all, world_bounding_rectangle, counted_scenes, deployed_parcels, count_distinct, latest,
  SceneStats, scene_stats, shape_value, set_stats, update_world,
}
use worlds_content_server.Worlds.Manager.{
  SceneDeploymentData, scene_parcels, new_scene, first_row, redeployed_row, upsert_world,
  deploy_scene, set_spawn, undeploy_statements, undeploy_scene, cleared_row, undeploy_world,
  evict_undeployed_scenes,
}
use worlds_content_server.Worlds.Inversion.{
  in_transaction-keeps, deploy_scene-keeps, deploy_statements-ok, undeploy_statements-ok,
}
use worlds_content_server.Worlds.Deployed.{
  scene_stats-congr, deployed_in, deployed_in-overlapping, deployed_in-undeploy_all,
  deployed_in-append, deployed_in-undeploy_all_self, deployed_in-filter,
}

-- The columns of the row hold the statistics.
abbrev pub HasStats : SceneStats → WorldRow → Type 0
HasStats st w =
    (w.last_deployed_at ≡ st.last_deployed_at)
    × (w.deployed_scene_count ≡ st.deployed_scene_count)
    × (w.scene_min_x ≡ shape_value (λ r. r.min.x) st.shape)
    × (w.scene_max_x ≡ shape_value (λ r. r.max.x) st.shape)
    × (w.scene_min_y ≡ shape_value (λ r. r.min.y) st.shape)
    × (w.scene_max_y ≡ shape_value (λ r. r.max.y) st.shape)

-- The row's columns are those computed from the scenes.
abbrev pub IsCurrent : List SceneRow → WorldRow → Type 0
IsCurrent rs w = (st : SceneStats) × (scene_stats w.name rs ≡ ok st) × HasStats st w

abbrev pub StatsCurrent : Db → Type 0
StatsCurrent db = All (IsCurrent db.scenes) db.worlds

-- Every world but the named one is current.
abbrev OthersCurrent : Text → List SceneRow → WorldRow → Type 0
OthersCurrent world rs w = (w.name == world) ≡ false → IsCurrent rs w

All-update_world :
    (P Q : WorldRow → Type 0) (world : Text) (f : WorldRow → WorldRow) (ws : List WorldRow)
    → ((w : WorldRow) → w.name ≡ world → P w → Q (f w))
    → ((w : WorldRow) → (w.name == world) ≡ false → P w → Q w)
    → All P ws
    → All Q (update_world world f ws)
unfolding update_world
All-update_world P Q world f [] named others h = tt
All-update_world P Q world f (w ∷ ws) named others (k, h) = elim (Bool-cases (w.name == world)) [
  | inl e ↦
      rw e
        (named w (text_beq_sound w.name world e) k, All-update_world P Q world f ws named others h)
  | inr e ↦ rw e (others w e k, All-update_world P Q world f ws named others h)
]

set_stats-IsCurrent :
    (now : Date) (world : Text) (rs : List SceneRow) (st : SceneStats) (w : WorldRow)
    → scene_stats world rs ≡ ok st
    → w.name ≡ world
    → IsCurrent rs (set_stats now st w)
unfolding set_stats
set_stats-IsCurrent now world rs st w e k =
    (st, ap (λ (n : Text). scene_stats n rs) k ∙ e, (refl, refl, refl, refl, refl, refl))

-- Recomputing one world makes all current when the others are.
recalculated :
    (now : Date) (world : Text) (rs : List SceneRow) (st : SceneStats) (ws : List WorldRow)
    → scene_stats world rs ≡ ok st
    → All (OthersCurrent world rs) ws
    → All (IsCurrent rs) (update_world world (set_stats now st) ws)
recalculated now world rs st ws e h =
    All-update_world (OthersCurrent world rs) (IsCurrent rs) world (set_stats now st) ws
      (λ w k _. set_stats-IsCurrent now world rs st w e k) (λ w k c. c k) h

-- Other worlds stay current under a change of scenes that leaves their deployed ones.
others_kept :
    (world : Text) (rs qs : List SceneRow) (ws : List WorldRow)
    → ((other : Text) → (other == world) ≡ false → deployed_in other qs ≡ deployed_in other rs)
    → All (IsCurrent rs) ws
    → All (OthersCurrent world qs) ws
others_kept world rs qs [] same h = tt
others_kept world rs qs (w ∷ ws) same ((st, e, columns), h) = (
  λ k. (st, scene_stats-congr w.name qs rs (same w.name k) ∙ e, columns),
  others_kept world rs qs ws same h,
)

others_updated :
    (world : Text) (rs : List SceneRow) (f : WorldRow → WorldRow) (ws : List WorldRow)
    → ((w : WorldRow) → (f w).name ≡ w.name)
    → All (OthersCurrent world rs) ws
    → All (OthersCurrent world rs) (update_world world f ws)
others_updated world rs f ws keeps h =
    All-update_world (OthersCurrent world rs) (OthersCurrent world rs) world f ws
      (λ w k _ n. cc (n, text_beq_refl world, ap (λ (t : Text). t == world) (keeps w ∙ k)))
      (λ w k c. c) h

module _ (now : Date) (world owner spawn : Text) (scene : Entity) (rs : List SceneRow) where
  appended :
      (ws : List WorldRow)
      → All (OthersCurrent world rs) ws
      → All (OthersCurrent world rs) (ws ++ first_row now world owner spawn scene ∷ [])
  unfolding first_row
  appended [] h = (λ n. cc (n, text_beq_refl world), tt)
  appended (w ∷ ws) (k, h) = (k, appended ws h)

  upserted :
      (ws : List WorldRow)
      → All (OthersCurrent world rs) ws
      → All (OthersCurrent world rs) (upsert_world now world owner spawn scene ws)
  unfolding upsert_world redeployed_row
  upserted ws h = elim (Bool-cases (world_named world ws)) [
    | inl e ↦ rw e (others_updated world rs (redeployed_row now owner spawn) ws (λ w. refl) h)
    | inr e ↦ rw e (appended ws h)
  ]

-- A deployment, whether it succeeds or is refused, leaves every world's statistics equal to what
-- its deployed scenes give, if they were before.
pub deploy_scene-StatsCurrent :
    (now : Date) (world : Text) (scene : Entity) (owner : Text) (d : SceneDeploymentData)
    (s : Server)
    → StatsCurrent s.db
    → StatsCurrent (after (deploy_scene now world scene owner d) s).db
deploy_scene-StatsCurrent now world scene owner d s h =
    let ps = canonicalize_parcels (scene_parcels scene.scene) in
    let w = lower_case world in
    let o = lower_case owner in
    deploy_scene-keeps StatsCurrent now world scene owner d s h λ spawn db e.
      let (scenes, st, stats, worlds) = deploy_statements-ok now w s.db db o spawn ps scene d e in
      subst (All (IsCurrent db.scenes)) (sym worlds) (
        recalculated now w db.scenes st (upsert_world now w o spawn scene s.db.worlds) stats (
          upserted now w o spawn scene db.scenes s.db.worlds (
            others_kept w s.db.scenes db.scenes s.db.worlds
              (λ other apart.
                ap (deployed_in other) scenes
                ∙ deployed_in-append now w other apart (new_scene now w ps scene d) _
                    (unfold new_scene in refl)
                ∙ deployed_in-overlapping now w other apart ps s.db.scenes)
              h)))

-- An undeployment of scenes leaves every world's statistics equal to what its deployed scenes
-- give, if they were before.
pub undeploy_scene-StatsCurrent :
    (now : Date) (world : Text) (parcels : List Text) (s : Server)
    → StatsCurrent s.db
    → StatsCurrent (after (undeploy_scene now world parcels) s).db
unfolding undeploy_scene set_spawn
undeploy_scene-StatsCurrent now world parcels s h =
    let w = lower_case world in
    in_transaction-keeps StatsCurrent (undeploy_statements now w parcels) s h λ db e.
      let (scenes, _, spawn, st, _, _, stats, worlds) =
        undeploy_statements-ok now w s.db db parcels e in
      subst (All (IsCurrent db.scenes)) (sym worlds) (
        recalculated now w db.scenes st _ stats (
          others_updated w db.scenes (set_spawn spawn) s.db.worlds (λ r. refl)
            (others_kept w s.db.scenes db.scenes s.db.worlds
              (λ other apart.
                ap (deployed_in other) scenes
                ∙ deployed_in-overlapping now w other apart parcels s.db.scenes)
              h)))

-- A world that has no scene deployed is current once its columns are cleared.
cleared-IsCurrent :
    (now : Date) (world : Text) (rs : List SceneRow) (w : WorldRow)
    → deployed_in world rs ≡ []
    → w.name ≡ world
    → IsCurrent rs (cleared_row now w)
unfolding cleared_row scene_stats world_bounding_rectangle counted_scenes deployed_parcels filter
    latest count_distinct deployed_in extent map_result shape_value
cleared-IsCurrent now world rs w none_left e = (
  record { last_deployed_at = none; deployed_scene_count = 0; shape = none },
  ap (λ (n : Text). scene_stats n rs) e ∙ scene_stats-congr world rs [] none_left,
  (refl, refl, refl, refl, refl, refl),
)

-- An undeployment of a world leaves every world's statistics equal to what its deployed scenes
-- give, if they were before.
pub undeploy_world-StatsCurrent :
    (now : Date) (world : Text) (s : Server)
    → StatsCurrent s.db
    → StatsCurrent (after (undeploy_world now world) s).db
unfolding undeploy_world
undeploy_world-StatsCurrent now world s h =
    let w = lower_case world in
    let rs = undeploy_all now w s.db.scenes in
    All-update_world (OthersCurrent w rs) (IsCurrent rs) w (cleared_row now) s.db.worlds
      (λ r k _. cleared-IsCurrent now w rs r (deployed_in-undeploy_all_self now w s.db.scenes) k)
      (λ r k c. c k)
      (others_kept w s.db.scenes rs s.db.worlds
        (λ other apart. deployed_in-undeploy_all now w other apart s.db.scenes) h)

-- An eviction of undeployed scenes leaves every world's statistics equal to what its deployed
-- scenes give, if they were before.
pub evict-StatsCurrent :
    (now : Date) (older : ℕ) (s : Server)
    → StatsCurrent s.db
    → StatsCurrent (after (evict_undeployed_scenes now older) s).db
unfolding evict_undeployed_scenes
evict-StatsCurrent now older s h = go s.db.worlds h
  where
    gone : SceneRow → Bool
    gone r = not (is_deployed r.status) && ltb (r.updated_at + older) now

    go :
        (ws : List WorldRow)
        → All (IsCurrent s.db.scenes) ws
        → All (IsCurrent (filter (λ r. not (gone r)) s.db.scenes)) ws
    go [] h = tt
    go (w ∷ ws) ((st, e, columns), h) = (
      (
        st,
        scene_stats-congr w.name _ s.db.scenes
              (deployed_in-filter gone w.name s.db.scenes (λ r k. ground arith))
            ∙ e,
        columns,
      ),
      go ws h,
    )
