-- ===== src/Comms.antt =====
-- Who gets into a room of a world: src/logic/comms/component.ts. The components that it asks are an
-- interface, whose calls may throw.
use worlds_content_server.Prelude.{
  ℕ, ◌+◌, ◌<◌, ◌≡◌, ◌↔◌, Bool, true, false, not, ◌&&◌, ◌||◌, Option, none, some, List, [], ◌∷◌,
  if◌then◌else◌, ltb, leb, inl, inr,
}
use worlds_content_server.Prelude.Text.{Text}
use worlds_content_server.Prelude.Result.{Result, ok, err, ◌>>=◌, guard}
use worlds_content_server.Errors.{
  Outcome, user_platform_banned, user_denylisted, user_banned_from_world, invalid_world,
  invalid_access, scene_not_found, world_at_capacity,
}
use worlds_content_server.Entities.{truthy}
pub mod Admission
pub mod Tests

pub record CommsInterfaces : Type 0 where
  pub is_player_banned : Text → Outcome Bool
  pub is_denylisted : Text → Outcome Bool
  pub is_world_valid : Text → Outcome Bool
  pub check_permission : (address world : Text) → Outcome Bool
  pub check_access : (world address : Text) → (secret : Option Text) → Outcome Bool
  pub get_world_scene_base_parcel : (world scene : Text) → Outcome (Option Text)
  pub is_user_banned_from_scene : (address world parcel : Text) → Outcome Bool
  pub get_scene_rooms_participant_count : (world : Text) → Outcome ℕ
  pub get_world_room_participant_count : (world : Text) → Outcome ℕ
  pub get_scene_room_connection : (address world scene : Text) → Outcome Text
  pub get_world_room_connection : (address world : Text) → Outcome Text

abbrev pub default_max_users_per_world : ℕ
default_max_users_per_world = 100

abbrev pub or_scene_not_found : Option Text → Outcome Text
or_scene_not_found none = err scene_not_found
or_scene_not_found (some parcel) = ok parcel

module _ (i : CommsInterfaces) where
  unfoldable pub assert_user_not_platform_banned : Text → Outcome (Unit {0})
  assert_user_not_platform_banned user =
      i.is_player_banned user >>= λ banned. guard (not banned) user_platform_banned

  unfoldable pub assert_user_not_denylisted : Text → Outcome (Unit {0})
  assert_user_not_denylisted user =
      i.is_denylisted user >>= λ listed. guard (not listed) user_denylisted

  unfoldable pub assert_user_not_banned_from_scene : Text → Text → Text → Outcome (Unit {0})
  assert_user_not_banned_from_scene user world parcel =
      i.is_user_banned_from_scene user world parcel >>= λ banned.
      guard (not banned) user_banned_from_world

  -- `Promise.all`: of two errors, the permission's is taken for the first.
  unfoldable pub assert_world_access : Text → Text → Option Text → Outcome (Unit {0})
  assert_world_access user world secret = do
    valid ← i.is_world_valid world
    usable ← guard valid invalid_world
    permitted ← i.check_permission user world
    accessible ← i.check_access world user secret
    guard (permitted || accessible) invalid_access

  unfoldable pub get_world_scene_room_connection_string :
      (max_users : ℕ) → Text → Text → Text → Option Text → Outcome Text
  get_world_scene_room_connection_string max_users user world scene secret = do
    free ← assert_user_not_platform_banned user
    listed ← assert_user_not_denylisted user
    accessible ← assert_world_access user world secret
    found ← i.get_world_scene_base_parcel world scene
    parcel ← or_scene_not_found (truthy found)
    welcome ← assert_user_not_banned_from_scene user world parcel
    count ← i.get_scene_rooms_participant_count world
    room ← guard (ltb count max_users) world_at_capacity
    i.get_scene_room_connection user world scene

  unfoldable pub get_world_room_connection_string :
      (max_users : ℕ) → Text → Text → Option Text → Outcome Text
  get_world_room_connection_string max_users user world secret = do
    free ← assert_user_not_platform_banned user
    listed ← assert_user_not_denylisted user
    accessible ← assert_world_access user world secret
    count ← i.get_world_room_participant_count world
    room ← guard (ltb count max_users) world_at_capacity
    i.get_world_room_connection user world
