-- ===== src/Comms/Admission.antt =====
-- A room's connection string is given exactly when every check of src/logic/comms/component.ts
-- lets the user pass.
use worlds_content_server.Prelude.{
  ℕ, ◌<◌, ◌≡◌, ◌↔◌, ◌∙◌, ap, refl, Bool, true, false, not, ◌||◌, Option, none, some, ltb, ltb→lt,
  lt→ltb, arith,
}
use worlds_content_server.Prelude.Text.{Text}
use worlds_content_server.Prelude.Result.{ok, >>=-eq-ok, guard}
use worlds_content_server.Errors.{Outcome, Error}
use worlds_content_server.Entities.{truthy}
use worlds_content_server.Comms.{
  CommsInterfaces, assert_user_not_platform_banned, assert_user_not_denylisted,
  assert_user_not_banned_from_scene, assert_world_access, or_scene_not_found,
  get_world_scene_room_connection_string, get_world_room_connection_string,
}

guard-ok : (b : Bool) (e : Error) (u : Unit {0}) → guard b e ≡ ok u → b ≡ true
guard-ok true e u h = refl
guard-ok false e u h = cc

false_of_negation : (b : Bool) → not b ≡ true → b ≡ false
false_of_negation b h = ground arith

named_parcel :
    (o : Option Text) (parcel : Text) → or_scene_not_found o ≡ ok parcel → o ≡ some parcel
named_parcel none parcel h = cc
named_parcel (some p) parcel h = cc

module _ (i : CommsInterfaces) (user world : Text) (secret : Option Text) where
  -- The user is not banned from the platform nor denied, the world is valid, and the user has a
  -- permission on its name or access to it.
  pub record IsAdmitted : Type 0 where
    pub not_banned : i.is_player_banned user ≡ ok false
    pub not_denied : i.is_denylisted user ≡ ok false
    pub valid : i.is_world_valid world ≡ ok true
    pub permitted : Bool
    pub accessible : Bool
    pub permission : i.check_permission user world ≡ ok permitted
    pub access : i.check_access world user secret ≡ ok accessible
    pub either : (permitted || accessible) ≡ true

  not_platform_banned :
      (u : Unit {0})
      → assert_user_not_platform_banned i user ≡ ok u
      → i.is_player_banned user ≡ ok false
  unfolding assert_user_not_platform_banned
  not_platform_banned u h =
      let (b, e, g) = >>=-eq-ok (i.is_player_banned user) _ h in
      e ∙ ap ok (false_of_negation b (guard-ok (not b) _ u g))

  not_denylisted :
      (u : Unit {0}) → assert_user_not_denylisted i user ≡ ok u → i.is_denylisted user ≡ ok false
  unfolding assert_user_not_denylisted
  not_denylisted u h =
      let (b, e, g) = >>=-eq-ok (i.is_denylisted user) _ h in
      e ∙ ap ok (false_of_negation b (guard-ok (not b) _ u g))

  world_access-ok :
      (u v w : Unit {0})
      → assert_user_not_platform_banned i user ≡ ok u
      → assert_user_not_denylisted i user ≡ ok v
      → assert_world_access i user world secret ≡ ok w
      → IsAdmitted
  unfolding assert_world_access
  world_access-ok u v w a b h =
      let (valid, e, h) = >>=-eq-ok (i.is_world_valid world) _ h in
      let (x, g, h) = >>=-eq-ok (guard valid _) _ h in
      let (permitted, p, h) = >>=-eq-ok (i.check_permission user world) _ h in
      let (accessible, q, h) = >>=-eq-ok (i.check_access world user secret) _ h in
      record {
        not_banned = not_platform_banned u a;
        not_denied = not_denylisted v b;
        valid = e ∙ ap ok (guard-ok valid _ x g);
        permitted = permitted;
        accessible = accessible;
        permission = p;
        access = q;
        either = guard-ok _ _ w h;
      }

  -- The three first checks pass exactly for the admitted.
  admitted-passes :
      IsAdmitted
      → (assert_user_not_platform_banned i user ≡ ok tt)
        × (assert_user_not_denylisted i user ≡ ok tt)
        × (assert_world_access i user world secret ≡ ok tt)
  unfolding assert_user_not_platform_banned assert_user_not_denylisted assert_world_access
  admitted-passes h = (
    rw h.not_banned refl,
    rw h.not_denied refl,
    rw (h.valid, h.permission, h.access, h.either) refl,
  )

module _ (i : CommsInterfaces) (max_users : ℕ) (user world : Text) (secret : Option Text) where
  -- The world's room has a place left.
  pub record HasRoom (participants : Outcome ℕ) : Type 0 where
    pub count : ℕ
    pub counted : participants ≡ ok count
    pub less : count < max_users

  -- The scene is known, the user is not banned from it, and there is a place left.
  pub record IsWelcome (scene : Text) : Type 0 where
    pub found : Option Text
    pub parcel : Text
    pub based : i.get_world_scene_base_parcel world scene ≡ ok found
    pub named : truthy found ≡ some parcel
    pub welcome : i.is_user_banned_from_scene user world parcel ≡ ok false
    pub room : HasRoom (i.get_scene_rooms_participant_count world)

  -- A user gets the connection string of a world's room exactly when the user is admitted (not
  -- banned from the platform, not denied, the world valid, with a permission or access), fewer
  -- users than the limit are in the room, and the adapter gives that string.
  pub get_world_room_connection_string_iff :
      (token : Text)
      → (get_world_room_connection_string i max_users user world secret ≡ ok token) ↔ (
          IsAdmitted i user world secret
          × HasRoom (i.get_world_room_participant_count world)
          × (i.get_world_room_connection user world ≡ ok token))
  unfolding get_world_room_connection_string
  get_world_room_connection_string_iff token = (
    λ h.
        let (u, a, h) = >>=-eq-ok (assert_user_not_platform_banned i user) _ h in
        let (v, b, h) = >>=-eq-ok (assert_user_not_denylisted i user) _ h in
        let (w, c, h) = >>=-eq-ok (assert_world_access i user world secret) _ h in
        let (n, d, h) = >>=-eq-ok (i.get_world_room_participant_count world) _ h in
        let (x, e, h) = >>=-eq-ok (guard (ltb n max_users) _) _ h in
        (
          world_access-ok i user world secret u v w a b c,
          record { count = n; counted = d; less = ltb→lt n max_users (guard-ok _ _ x e) },
          h,
        ),
    λ h.
        let (a, r, t) = h in
        let (x, y, z) = admitted-passes i user world secret a in
        rw (x, y, z, r.counted, lt→ltb r.count max_users r.less) t,
  )

  -- A user gets the connection string of a scene's room exactly when the user is admitted (as for
  -- the world's room), the scene has a base parcel, the user is not banned from it, fewer users
  -- than the limit are in the world's scene rooms, and the adapter gives that string.
  pub get_world_scene_room_connection_string_iff :
      (scene token : Text)
      → (get_world_scene_room_connection_string i max_users user world scene secret ≡ ok token) ↔ (
          IsAdmitted i user world secret
          × IsWelcome scene
          × (i.get_scene_room_connection user world scene ≡ ok token))
  unfolding get_world_scene_room_connection_string assert_user_not_banned_from_scene
  get_world_scene_room_connection_string_iff scene token = (
    λ h.
        let (u, a, h) = >>=-eq-ok (assert_user_not_platform_banned i user) _ h in
        let (v, b, h) = >>=-eq-ok (assert_user_not_denylisted i user) _ h in
        let (w, c, h) = >>=-eq-ok (assert_world_access i user world secret) _ h in
        let (found, d, h) = >>=-eq-ok (i.get_world_scene_base_parcel world scene) _ h in
        let (parcel, e, h) = >>=-eq-ok (or_scene_not_found (truthy found)) _ h in
        let (s, f, h) = >>=-eq-ok (assert_user_not_banned_from_scene i user world parcel) _ h in
        let (banned, g, f) = >>=-eq-ok (i.is_user_banned_from_scene user world parcel) _ f in
        let (n, k, h) = >>=-eq-ok (i.get_scene_rooms_participant_count world) _ h in
        let (x, l, h) = >>=-eq-ok (guard (ltb n max_users) _) _ h in
        (
          world_access-ok i user world secret u v w a b c,
          record {
            found = found;
            parcel = parcel;
            based = d;
            named = named_parcel (truthy found) parcel e;
            welcome = g ∙ ap ok (false_of_negation banned (guard-ok (not banned) _ s f));
            room = record { count = n; counted = k; less = ltb→lt n max_users (guard-ok _ _ x l) };
          },
          h,
        ),
    λ h.
        let (a, r, t) = h in
        let (x, y, z) = admitted-passes i user world secret a in
        rw
          (
            x,
            y,
            z,
            r.based,
            r.named,
            r.welcome,
            r.room.counted,
            lt→ltb r.room.count max_users r.room.less,
          )
          t,
  )
