-- ===== src/Permissions/Effects.antt =====
-- What the operations of src/logic/permissions/component.ts leave in the tables.
use worlds_content_server.Prelude.{
  ◌≡◌, refl, true, not, ◌&&◌, ◌||◌, none, List, [], ◌∷◌, map, arith, ◌==◌,
}
use worlds_content_server.Prelude.Eq.{text_eq}
use worlds_content_server.Prelude.Lists.{includes}
use worlds_content_server.Prelude.Text.{Text, lower_case}
use worlds_content_server.Prelude.Result.{ok}
use worlds_content_server.Database.{
  Date, AllowListPermission, permission_eq, PermissionRow, world_named, world_named-append,
  world_named_self,
}
use worlds_content_server.Server.{Server, after}
use worlds_content_server.Worlds.Basic.{create_basic_world_if_not_exists, basic_world}
use worlds_content_server.Permissions.Manager.{
  has_row, grant_tables, grant_addresses_world_wide_permission,
}
use worlds_content_server.Permissions.Component.{revoke_permission, grant_world_wide_permission}
use worlds_content_server.Permissions.Rows.{has_row-remove_tables, has_row-grant_tables}

abbrev pub permission_rows : Server → List PermissionRow
permission_rows s = s.db.permissions.rows

-- Granting to at least one wallet, in a world that exists, writes the granted tables.
pub grant_cons :
    (now : Date) (w : Text) (p : AllowListPermission) (a : Text) (as' : List Text) (s : Server)
    → world_named (lower_case w) s.db.worlds ≡ true
    → grant_addresses_world_wide_permission now w p (a ∷ as') s ≡ (
      ok (grant_tables now (lower_case w) p (map lower_case (a ∷ as')) s.db.permissions).1,
      record s {
        db = record s.db {
          permissions =
              (grant_tables now (lower_case w) p (map lower_case (a ∷ as')) s.db.permissions).0;
        };
      },
    )
unfolding grant_addresses_world_wide_permission
grant_cons now w p a as' s h = ground arith

pub revoke_permission_ok :
    (w : Text) (p : AllowListPermission) (as' : List Text) (s : Server)
    → ((revoke_permission w p as' s).0 ≡ ok tt)
      × ((after (revoke_permission w p as') s).db.worlds ≡ s.db.worlds)
unfolding revoke_permission
revoke_permission_ok w p [] s = (refl, refl)
revoke_permission_ok w p (a ∷ as') s = (refl, refl)

pub grant_world_wide_permission_ok :
    (now : Date) (w : Text) (p : AllowListPermission) (as' : List Text) (s : Server)
    → world_named (lower_case w) s.db.worlds ≡ true
    → (grant_world_wide_permission now w p as' none s).0 ≡ ok tt
unfolding grant_world_wide_permission
grant_world_wide_permission_ok now w p [] s h = refl
grant_world_wide_permission_ok now w p (a ∷ as') s h = rw (grant_cons now w p a as' s h)

-- A world exists after it was asked for.
pub create_basic_world-named :
    (now : Date) (w o : Text) (s : Server)
    → world_named (lower_case w) (after (create_basic_world_if_not_exists now w o) s).db.worlds
      ≡ true
unfolding create_basic_world_if_not_exists
create_basic_world-named now w o s =
    let row = basic_world now (lower_case w) (lower_case o) in
    ground (arith, world_named-append (lower_case w) s.db.worlds (row ∷ []), world_named_self row)

pub create_basic_world-permissions :
    (now : Date) (w o : Text) (s : Server)
    → (after (create_basic_world_if_not_exists now w o) s).db.permissions ≡ s.db.permissions
unfolding create_basic_world_if_not_exists
create_basic_world-permissions now w o s = ground arith

module _ (w' : Text) (p' : AllowListPermission) (a' : Text) where
  pub revoke_permission-has_row :
      (w : Text) (p : AllowListPermission) (as' : List Text) (s : Server)
      → has_row w' p' a' (permission_rows (after (revoke_permission w p as') s)) ≡ (
          has_row w' p' a' (permission_rows s)
          && not (lower_case w == w' && p == p' && includes a' (map lower_case as')))
  unfolding revoke_permission includes
  revoke_permission-has_row w p [] s = ground arith
  revoke_permission-has_row w p (a ∷ as') s =
      has_row-remove_tables w' p' a' (lower_case w) p (map lower_case (a ∷ as')) s.db.permissions

  pub grant_world_wide_permission-has_row :
      (now : Date) (w : Text) (p : AllowListPermission) (as' : List Text) (s : Server)
      → world_named (lower_case w) s.db.worlds ≡ true
      → has_row w' p' a' (permission_rows (after (grant_world_wide_permission now w p as' none) s))
        ≡ (has_row w' p' a' (permission_rows s)
            || (lower_case w == w' && p == p' && includes a' (map lower_case as')))
  unfolding grant_world_wide_permission includes has_row
  grant_world_wide_permission-has_row now w p [] s h = ground arith
  grant_world_wide_permission-has_row now w p (a ∷ as') s h = rw (grant_cons now w p a as' s h) (
      has_row-grant_tables w' p' a' now (lower_case w) p (map lower_case (a ∷ as'))
        s.db.permissions)
