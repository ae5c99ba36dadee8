-- ===== src/Worlds/Deployed.antt =====
-- The statistics of a world depend on its deployed scenes alone, and an operation on one world
-- leaves the deployed scenes of the others (src/adapters/worlds-manager.ts).
use mathlib.Core.Path.{ap₂}
use worlds_content_server.Prelude.{
  ◌≡◌, refl, sym, ap, ◌∙◌, Bool, true, false, not, List, [], ◌∷◌, ◌++◌, map, arith, ◌==◌,
}
use worlds_content_server.Prelude.Eq.{text_eq, text_beq_iff}
use worlds_content_server.Prelude.Lists.{filter}
use worlds_content_server.Prelude.Text.{Text}
use worlds_content_server.Prelude.Result.{ok, map_result, ◌>>=◌}
use worlds_content_server.Coordinates.{extent}
use worlds_content_server.Database.{Date, SceneRow, is_deployed}
use worlds_content_server.Worlds.Scenes.{
  is_deployed_in, undeploy_row, undeploy_overlapping, undeploy_all, append_parcels,
  deployed_parcels, cast_parcel, is_empty, counted_scenes, count_distinct, latest, scene_stats,
}

-- The deployed scenes of a world, in the order of the table.
unfoldable pub deployed_in : Text → List SceneRow → List SceneRow
deployed_in world rs = filter (is_deployed_in world) rs

all_parcels : List SceneRow → List Text
all_parcels [] = []
all_parcels (r ∷ rs) = append_parcels r.parcels (all_parcels rs)

deployed_parcels-filter :
    (world : Text) (rs : List SceneRow)
    → deployed_parcels world rs ≡ all_parcels (deployed_in world rs)
unfolding deployed_parcels deployed_in all_parcels filter
deployed_parcels-filter world [] = refl
deployed_parcels-filter world (r ∷ rs) = ground (arith, deployed_parcels-filter world rs)

counted_scenes-filter :
    (world : Text) (rs : List SceneRow)
    → counted_scenes world rs ≡ filter (λ r. not (is_empty r.parcels)) (deployed_in world rs)
unfolding counted_scenes deployed_in filter
counted_scenes-filter world [] = refl
counted_scenes-filter world (r ∷ rs) = ground (arith, counted_scenes-filter world rs)

pub scene_stats-congr :
    (world : Text) (rs qs : List SceneRow)
    → deployed_in world rs ≡ deployed_in world qs
    → scene_stats world rs ≡ scene_stats world qs
unfolding scene_stats
scene_stats-congr world rs qs h =
    ap₂
      (λ (ps : List Text) (cs : List SceneRow).
        (map_result cast_parcel ps >>= λ found. ok (extent found)) >>= λ shape. ok (record {
          last_deployed_at = latest (map (λ r. r.created_at) cs);
          deployed_scene_count = count_distinct (map (λ r. r.entity_id) cs);
          shape = shape;
        }))
      (deployed_parcels-filter world rs ∙ ap all_parcels h ∙ sym (deployed_parcels-filter world qs))
      (counted_scenes-filter world rs
        ∙ ap (filter (λ r. not (is_empty r.parcels))) h
        ∙ sym (counted_scenes-filter world qs))

module _ (now : Date) (world other : Text) (apart : (other == world) ≡ false) where
  pub deployed_in-overlapping :
      (ps : List Text) (rs : List SceneRow)
      → deployed_in other (undeploy_overlapping now world ps rs) ≡ deployed_in other rs
  unfolding deployed_in undeploy_overlapping undeploy_row is_deployed_in filter
  deployed_in-overlapping ps [] = refl
  deployed_in-overlapping ps (r ∷ rs) = ground (
    arith,
    deployed_in-overlapping ps rs,
    text_beq_iff r.world_name world,
    text_beq_iff r.world_name other,
    text_beq_iff other world,
  )

  pub deployed_in-undeploy_all :
      (rs : List SceneRow) → deployed_in other (undeploy_all now world rs) ≡ deployed_in other rs
  unfolding deployed_in undeploy_all undeploy_row is_deployed_in filter
  deployed_in-undeploy_all [] = refl
  deployed_in-undeploy_all (r ∷ rs) = ground (
    arith,
    deployed_in-undeploy_all rs,
    text_beq_iff r.world_name world,
    text_beq_iff r.world_name other,
    text_beq_iff other world,
  )

  pub deployed_in-append :
      (n : SceneRow) (rs : List SceneRow)
      → n.world_name ≡ world
      → deployed_in other (rs ++ n ∷ []) ≡ deployed_in other rs
  unfolding deployed_in is_deployed_in filter
  deployed_in-append n [] e =
      ground (arith, text_beq_iff n.world_name other, text_beq_iff other world)
  deployed_in-append n (r ∷ rs) e = ground (arith, deployed_in-append n rs e)

-- No scene of a world is left deployed after the undeployment of the world.
pub deployed_in-undeploy_all_self :
    (now : Date) (world : Text) (rs : List SceneRow)
    → deployed_in world (undeploy_all now world rs) ≡ []
unfolding deployed_in undeploy_all undeploy_row is_deployed_in filter
deployed_in-undeploy_all_self now world [] = refl
deployed_in-undeploy_all_self now world (r ∷ rs) =
    ground (arith, deployed_in-undeploy_all_self now world rs)

-- Deleting rows that are not deployed leaves the deployed scenes.
pub deployed_in-filter :
    (gone : SceneRow → Bool) (world : Text) (rs : List SceneRow)
    → ((r : SceneRow) → gone r ≡ true → is_deployed r.status ≡ false)
    → deployed_in world (filter (λ r. not (gone r)) rs) ≡ deployed_in world rs
unfolding deployed_in is_deployed_in filter
deployed_in-filter gone world [] h = refl
deployed_in-filter gone world (r ∷ rs) h = ground (arith, deployed_in-filter gone world rs h, h r)
