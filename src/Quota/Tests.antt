-- ===== src/Quota/Tests.antt =====
-- Quotas of src/adapters/blocking/component.ts and src/adapters/limits-manager.ts on a world of one
-- scene.
use worlds_content_server.Entities.{extract_spawn_coordinates}
use worlds_content_server.Prelude.Double.{round_ℤ}
use worlds_content_server.Prelude.Number.{
  skip_spaces, is_space, take_digits, is_digit, drop_digits, number_text, parse_int, decimal,
  digits_value,
}
use worlds_content_server.Prelude.Int.{max_ℤ, min_ℤ}
use worlds_content_server.Prelude.Lists.{filter, find, any, includes}
use worlds_content_server.Prelude.Positions.{total}
use worlds_content_server.Prelude.Eq.{text_beq}
use worlds_content_server.Worlds.Scenes.{
  is_deployed_in, undeploy_overlapping, append_parcels, cast_integer, cast_parcel, count_distinct,
  counted_scenes, deployed_parcels, latest, overlaps, recalculate_world_scene_stats, scene_stats,
  set_stats, shape_value, undeploy_row, update_world, world_bounding_rectangle,
}
use worlds_content_server.Prelude.{
  ◌+◌, ◌<◌, ◌≤◌, ltb, leb, ◌≡◌, refl, true, false, ◌&&◌, none, some, List, [], ◌∷◌, if◌then◌else◌,
}
use worlds_content_server.Prelude.Map.{get}
use worlds_content_server.Prelude.Text.{Text, codes, lower_case, to_lower}
use worlds_content_server.Prelude.Result.{ok, map_result}
use worlds_content_server.Database.{world_named}
use worlds_content_server.Server.{Server, after}
use worlds_content_server.Fixtures.{world, owner, scene_of, server_of, sample_db}
use worlds_content_server.Worlds.Manager.{
  SceneDeploymentData, deploy_scene, deploy_statements, deploy_parcels, first_row, has_scene,
  in_transaction, insert_scene, new_scene, redeployed_row, upsert_world,
}
use worlds_content_server.Coordinates.{
  canonicalize_parcels, canonicalize_parcel, parcel_match, extent, max_of, min_of, split_comma,
  whole_int,
}
use worlds_content_server.Quota.{
  Services, fetch_blocked_status, get_total_world_size, get_deployed_scene_size_for_parcels,
  fetch_stored_data, ends_with,
}
use worlds_content_server.Quota.Blocking.{block_if_over_quota, unblock_if_under_quota}
use worlds_content_server.Quota.Decisions.{
  or_now, is_blocked, counted_space, block_if_over_quota-decides, unblock_if_under_quota-decides,
}
use worlds_content_server.Quota.Sizes.{deploy_scene-get_total_world_size}

-- The owner holds nothing.
abbrev services : Services
services = record {
  space_allowance = λ wallet. ok 0;
  whitelist = ok [];
  find_owner = λ w. ok (some owner);
}

abbrev server : Server
server = server_of sample_db

-- The owner's world takes 10 bytes, and its name is not on the whitelist.
counted : counted_space owner [] sample_db ≡ 10
unfolding filter total fetch_stored_data text_beq lower_case ends_with get_total_world_size
    is_deployed_in get
counted = refl

block_if_over_quota-decides_example :
    (0 < counted_space owner [] sample_db
      → (fetch_blocked_status owner (after (block_if_over_quota true services 7 owner) server).db
          ≡ some (or_now 7 (fetch_blocked_status owner sample_db)))
        × (true ≡ true → (block_if_over_quota true services 7 owner server).0 ≡ ok true))
    × (counted_space owner [] sample_db ≤ 0
        → block_if_over_quota true services 7 owner server ≡ (ok false, server))
block_if_over_quota-decides_example =
    block_if_over_quota-decides true services 7 owner server 0 [] refl refl

unblock_if_under_quota-decides_example :
    ((unblock_if_under_quota true services owner server).0
      ≡ ok (
          is_blocked (fetch_blocked_status owner sample_db)
          && leb (counted_space owner [] sample_db) 0))
    × (fetch_blocked_status owner (after (unblock_if_under_quota true services owner) server).db ≡ (
        if ltb 0 (counted_space owner [] sample_db)
        then fetch_blocked_status owner sample_db
        else none))
unblock_if_under_quota-decides_example =
    unblock_if_under_quota-decides true services 7 owner server 0 [] refl refl

abbrev data_of : SceneDeploymentData
data_of = record { deployer = owner; size = 25 }

abbrev parcels : List Text
parcels = codes "0,1" ∷ codes "0,2" ∷ []

done : (deploy_scene 9 world (scene_of (codes "bafy2") parcels) owner data_of server).0 ≡ ok tt
unfolding deploy_scene canonicalize_parcels extract_spawn_coordinates deploy_statements
    undeploy_overlapping text_beq lower_case canonicalize_parcel parcel_match skip_spaces is_space
    take_digits is_digit drop_digits number_text parse_int round_ℤ decimal digits_value extent
    max_of min_of split_comma whole_int world_named max_ℤ min_ℤ any filter find includes map_result
    to_lower deploy_parcels first_row has_scene in_transaction insert_scene new_scene redeployed_row
    upsert_world append_parcels cast_integer cast_parcel count_distinct counted_scenes
    deployed_parcels is_deployed_in latest overlaps recalculate_world_scene_stats scene_stats
    set_stats shape_value undeploy_row update_world world_bounding_rectangle
done = refl

-- The scene of 10 bytes on one of the parcels is replaced.
deploy_scene-get_total_world_size_example :
    let s = after (deploy_scene 9 world (scene_of (codes "bafy2") parcels) owner data_of) server in
    get_total_world_size world s.db
      + get_deployed_scene_size_for_parcels world (canonicalize_parcels parcels) sample_db
    ≡ get_total_world_size world sample_db + 25
deploy_scene-get_total_world_size_example =
    deploy_scene-get_total_world_size 9 world (scene_of (codes "bafy2") parcels) owner data_of
      server done
