-- ===== src/Worlds/Scenes.antt =====
-- The statements on `world_scenes` and on the statistics of `worlds` in
-- src/adapters/worlds-manager.ts.
use worlds_content_server.Prelude.{
  ℕ, suc, Bool, true, false, not, ◌&&◌, ◌||◌, Option, none, some, List, [], ◌∷◌, map, if◌then◌else◌,
  ◌==◌, leb,
}
use worlds_content_server.Prelude.Eq.{text_eq}
use worlds_content_server.Prelude.Lists.{filter, any, includes}
use worlds_content_server.Prelude.Int.{ℤ, pos, negsuc, ltb_ℤ}
use worlds_content_server.Prelude.Text.{Text}
use worlds_content_server.Prelude.Result.{ok, err, map_result, ◌>>=◌}
use worlds_content_server.Errors.{Outcome, invalid_integer}
use worlds_content_server.Coordinates.{
  Coordinate, BoundingRectangle, split_comma, extent, whole_int,
}
use worlds_content_server.Database.{Date, undeployed, is_deployed, WorldRow, SceneRow, Db}

-- `parcels && …::text[]`: the two arrays share an element.
unfoldable pub overlaps : List Text → List Text → Bool
unfolding any includes
overlaps ps qs = any (λ p. includes p qs) ps

-- `WHERE world_name = … AND status = 'DEPLOYED'`.
unfoldable pub is_deployed_in : Text → SceneRow → Bool
is_deployed_in world r = r.world_name == world && is_deployed r.status

unfoldable pub undeploy_row : Date → SceneRow → SceneRow
undeploy_row now r = record r { status = undeployed; updated_at = now }

-- The soft delete of the scenes on some of the parcels.
unfoldable pub undeploy_overlapping : Date → Text → List Text → List SceneRow → List SceneRow
unfolding overlaps is_deployed_in undeploy_row
undeploy_overlapping now world parcels scenes =
    map
      (λ r. if is_deployed_in world r && overlaps r.parcels parcels then undeploy_row now r else r)
      scenes

-- The soft delete of a world's scenes.
unfoldable pub undeploy_all : Date → Text → List SceneRow → List SceneRow
unfolding is_deployed_in undeploy_row
undeploy_all now world scenes =
    map (λ r. if is_deployed_in world r then undeploy_row now r else r) scenes

unfoldable pub append_parcels : List Text → List Text → List Text
append_parcels [] qs = qs
append_parcels (p ∷ ps) qs = p ∷ append_parcels ps qs

-- `UNNEST(parcels)` over a world's deployed scenes.
unfoldable pub deployed_parcels : Text → List SceneRow → List Text
unfolding append_parcels is_deployed_in
deployed_parcels world [] = []
deployed_parcels world (r ∷ rs) =
    if is_deployed_in world r
    then append_parcels r.parcels (deployed_parcels world rs)
    else deployed_parcels world rs

-- `…::integer`: a whole number in 32 bits, with spaces round it.
unfoldable pub cast_integer : Text → Outcome ℤ
cast_integer s = elim (whole_int s) [
  | none ↦ err invalid_integer
  | some n ↦
      if ltb_ℤ n (negsuc 2147483647) || ltb_ℤ (pos 2147483647) n then err invalid_integer else ok n
]

-- `SPLIT_PART(parcel, ',', 1)` and `SPLIT_PART(parcel, ',', 2)`; a part that is missing is empty.
first_part : List Text → Text
first_part [] = []
first_part (a ∷ as') = a

second_part : List Text → Text
second_part [] = []
second_part (a ∷ as') = first_part as'

unfoldable pub cast_parcel : Text → Outcome Coordinate
unfolding cast_integer first_part second_part
cast_parcel p = cast_integer (first_part (split_comma p)) >>= λ x.
    cast_integer (second_part (split_comma p)) >>= λ y. ok (record { x = x; y = y })

unfoldable pub world_bounding_rectangle : Text → List SceneRow → Outcome (Option BoundingRectangle)
unfolding deployed_parcels
world_bounding_rectangle world scenes =
    map_result cast_parcel (deployed_parcels world scenes) >>= λ cs. ok (extent cs)

abbrev pub is_empty : List Text → Bool
is_empty [] = true
is_empty (x ∷ xs) = false

-- The scenes that the aggregates of the statistics see: those that `UNNEST` gives a row.
unfoldable pub counted_scenes : Text → List SceneRow → List SceneRow
unfolding filter is_deployed_in
counted_scenes world scenes =
    filter (λ r. is_deployed_in world r && not (is_empty r.parcels)) scenes

unfoldable pub count_distinct : List Text → ℕ
unfolding includes
count_distinct [] = 0
count_distinct (x ∷ xs) = let rest = count_distinct xs in if includes x xs then rest else suc rest

unfoldable pub latest : List Date → Option Date
latest [] = none
latest (d ∷ ds) = elim (latest ds) [ none ↦ some d | some e ↦ some (if leb e d then d else e) ]

pub record SceneStats : Type 0 where
  pub last_deployed_at : Option Date
  pub deployed_scene_count : ℕ
  pub shape : Option BoundingRectangle

-- The `stats` of `buildRecalculateWorldSceneStatsQuery`.
unfoldable pub scene_stats : Text → List SceneRow → Outcome SceneStats
unfolding world_bounding_rectangle counted_scenes count_distinct latest
scene_stats world scenes =
    let counted = counted_scenes world scenes in
    world_bounding_rectangle world scenes >>= λ shape. ok (record {
      last_deployed_at = latest (map (λ r. r.created_at) counted);
      deployed_scene_count = count_distinct (map (λ r. r.entity_id) counted);
      shape = shape;
    })

unfoldable pub shape_value : (BoundingRectangle → ℤ) → Option BoundingRectangle → Option ℤ
shape_value f none = none
shape_value f (some r) = some (f r)

unfoldable pub set_stats : Date → SceneStats → WorldRow → WorldRow
unfolding shape_value
set_stats now st w = record w {
  last_deployed_at = st.last_deployed_at;
  deployed_scene_count = st.deployed_scene_count;
  scene_min_x = shape_value (λ r. r.min.x) st.shape;
  scene_max_x = shape_value (λ r. r.max.x) st.shape;
  scene_min_y = shape_value (λ r. r.min.y) st.shape;
  scene_max_y = shape_value (λ r. r.max.y) st.shape;
  updated_at = now;
}

-- `UPDATE worlds SET … WHERE name = …`.
unfoldable pub update_world : Text → (WorldRow → WorldRow) → List WorldRow → List WorldRow
update_world world f worlds = map (λ w. if w.name == world then f w else w) worlds

unfoldable pub recalculate_world_scene_stats : Date → Text → Db → Outcome Db
unfolding scene_stats update_world set_stats
recalculate_world_scene_stats now world db = scene_stats world db.scenes >>= λ st.
    ok (record db { worlds = update_world world (set_stats now st) db.worlds })
