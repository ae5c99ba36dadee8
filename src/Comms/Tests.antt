-- ===== src/Comms/Tests.antt =====
-- Rooms of src/logic/comms/component.ts with every check answered.
use worlds_content_server.Prelude.{◌≡◌, ◌↔◌, refl, true, false, none, some}
use worlds_content_server.Prelude.Text.{codes}
use worlds_content_server.Prelude.Result.{ok, err}
use worlds_content_server.Errors.{user_denylisted}
use worlds_content_server.Fixtures.{world, owner}
use worlds_content_server.Comms.{
  CommsInterfaces, get_world_scene_room_connection_string, get_world_room_connection_string,
  assert_user_not_platform_banned, assert_user_not_denylisted, default_max_users_per_world,
}
use worlds_content_server.Comms.Admission.{
  IsAdmitted, HasRoom, IsWelcome, get_world_room_connection_string_iff,
  get_world_scene_room_connection_string_iff,
}

abbrev open_door : CommsInterfaces
open_door = record {
  is_player_banned = λ user. ok false;
  is_denylisted = λ user. ok false;
  is_world_valid = λ w. ok true;
  check_permission = λ user w. ok false;
  check_access = λ w user secret. ok true;
  get_world_scene_base_parcel = λ w scene. ok (some (codes "0,0"));
  is_user_banned_from_scene = λ user w parcel. ok false;
  get_scene_rooms_participant_count = λ w. ok 3;
  get_world_room_participant_count = λ w. ok 99;
  get_scene_room_connection = λ user w scene. ok (codes "scene-token");
  get_world_room_connection = λ user w. ok (codes "world-token");
}

-- The deny list is asked before the world.
denied :
    get_world_room_connection_string
      (record open_door { is_denylisted = λ user. ok true; is_world_valid = λ w. ok false })
      100
      owner
      world
      none
    ≡ err user_denylisted
unfolding get_world_room_connection_string assert_user_not_platform_banned
    assert_user_not_denylisted
denied = refl

get_world_room_connection_string_iff_example :
    (get_world_room_connection_string open_door default_max_users_per_world owner world none
      ≡ ok (codes "world-token"))
    ↔ (IsAdmitted open_door owner world none
        × HasRoom open_door default_max_users_per_world owner world none (ok 99)
        × (open_door.get_world_room_connection owner world ≡ ok (codes "world-token")))
get_world_room_connection_string_iff_example =
    get_world_room_connection_string_iff open_door default_max_users_per_world owner world none
      (codes "world-token")

get_world_scene_room_connection_string_iff_example :
    (get_world_scene_room_connection_string open_door default_max_users_per_world owner world
        (codes "bafy1")
        none
      ≡ ok (codes "scene-token"))
    ↔ (IsAdmitted open_door owner world none
        × IsWelcome open_door default_max_users_per_world owner world none (codes "bafy1")
        × (open_door.get_scene_room_connection owner world (codes "bafy1")
            ≡ ok (codes "scene-token")))
get_world_scene_room_connection_string_iff_example =
    get_world_scene_room_connection_string_iff open_door default_max_users_per_world owner world
      none (codes "bafy1") (codes "scene-token")
