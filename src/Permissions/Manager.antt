-- ===== src/Permissions/Manager.antt =====
-- src/adapters/permissions-manager.ts: the statements on `world_permissions` and
-- `world_permission_parcels`, and the methods that run them.
use worlds_content_server.Prelude.{
  ℕ, ◌+◌, Bool, true, false, not, ◌&&◌, Option, none, some, List, [], ◌∷◌, ◌++◌, map, if◌then◌else◌,
  ◌==◌,
}
use worlds_content_server.Prelude.Eq.{nat_eq, text_eq}
use worlds_content_server.Prelude.Lists.{length, filter, find, any, includes}
use worlds_content_server.Prelude.Text.{Text, lower_case}
use worlds_content_server.Prelude.Result.{ok, err}
use worlds_content_server.Errors.{Outcome, foreign_key_violation}
use worlds_content_server.Database.{
  Date, AllowListPermission, permission_eq, PermissionRow, PermissionTables, Db, world_named,
}
use worlds_content_server.Coordinates.{canonicalize_parcels}
use worlds_content_server.Server.{Exec, pure, transaction}

-- `WHERE world_name = … AND permission_type = … AND address = …`.
unfoldable pub is_for : Text → AllowListPermission → Text → PermissionRow → Bool
is_for world permission address row =
    row.world_name == world && row.permission_type == permission && row.address == address

unfoldable pub has_row : Text → AllowListPermission → Text → List PermissionRow → Bool
unfolding is_for any
has_row world permission address rows = any (is_for world permission address) rows

-- The ids of the selected rows.
unfoldable pub ids_where : (PermissionRow → Bool) → List PermissionRow → List ℕ
unfolding filter
ids_where p rows = map (λ r. r.id) (filter p rows)

abbrev pub new_row : Date → Text → AllowListPermission → Text → ℕ → PermissionRow
new_row now world permission address id = record {
  id = id;
  world_name = world;
  permission_type = permission;
  address = address;
  created_at = now;
  updated_at = now;
}

-- One row of `INSERT … ON CONFLICT DO NOTHING`. The sequence moves on also at a conflict.
unfoldable pub insert_row :
    Date → Text → AllowListPermission → Text → PermissionTables → PermissionTables
insert_row now world permission address t =
    if has_row world permission address t.rows
    then record t { next_id = t.next_id + 1 }
    else record t {
      rows = t.rows ++ new_row now world permission address t.next_id ∷ [];
      next_id = t.next_id + 1;
    }

-- The rows of the statement in turn, and the addresses that it returns.
unfoldable pub insert_rows :
    Date → Text → AllowListPermission → List Text → PermissionTables → PermissionTables × List Text
unfolding insert_row
insert_rows now world permission [] t = (t, [])
insert_rows now world permission (a ∷ as') t =
    let (t', added) = insert_rows now world permission as' (insert_row now world permission a t) in
    (t', if has_row world permission a t.rows then added else a ∷ added)

-- `DELETE FROM world_permission_parcels WHERE permission_id IN (…)`.
unfoldable pub delete_parcels_of : List ℕ → PermissionTables → PermissionTables
unfolding filter includes
delete_parcels_of ids t = record t {
  parcels = filter (λ r. not (includes r.permission_id ids)) t.parcels;
}

-- `WHERE world_name = … AND permission_type = … AND address = ANY(…)`.
unfoldable pub is_for_any : Text → AllowListPermission → List Text → PermissionRow → Bool
unfolding includes
is_for_any world permission addresses row =
    row.world_name == world && row.permission_type == permission && includes row.address addresses

abbrev is_empty {ℓ} : {A : Type ℓ} → List A → Bool
is_empty [] = true
is_empty (x ∷ xs) = false

unfoldable pub grant_tables :
    Date → Text → AllowListPermission → List Text → PermissionTables → PermissionTables × List Text
unfolding insert_rows delete_parcels_of ids_where is_for_any
grant_tables now world permission addresses t =
    let (t', added) = insert_rows now world permission addresses t in
    (delete_parcels_of (ids_where (is_for_any world permission addresses) t'.rows) t', added)

-- A row that is inserted must name a world.
check_world : Text → Db → Bool → Outcome (Unit {0})
check_world world db inserts =
    if inserts && not (world_named world db.worlds) then err foreign_key_violation else ok tt

unfoldable pub grant_addresses_world_wide_permission :
    Date → Text → AllowListPermission → List Text → Exec (List Text)
unfolding grant_tables check_world
grant_addresses_world_wide_permission now world permission [] = pure []
grant_addresses_world_wide_permission now world permission (a ∷ as') = transaction λ db.
    let (t, added) =
      grant_tables now (lower_case world) permission (map lower_case (a ∷ as')) db.permissions in
    elim (check_world (lower_case world) db (not (is_empty added))) [
      | ok u ↦ ok (added, record db { permissions = t })
      | err e ↦ err e
    ]

-- The deletion of rows cascades to their parcels.
unfoldable pub remove_tables :
    Text → AllowListPermission → List Text → PermissionTables → PermissionTables × List Text
unfolding delete_parcels_of ids_where is_for_any filter
remove_tables world permission addresses t =
    let gone = is_for_any world permission addresses in
    (
      delete_parcels_of (ids_where gone t.rows)
          (record t { rows = filter (λ r. not (gone r)) t.rows }),
      map (λ r. r.address) (filter gone t.rows),
    )

unfoldable pub remove_addresses_permission :
    Text → AllowListPermission → List Text → Exec (List Text)
unfolding remove_tables
remove_addresses_permission world permission [] = pure []
remove_addresses_permission world permission (a ∷ as') = transaction λ db.
    let (t, removed) =
      remove_tables (lower_case world) permission (map lower_case (a ∷ as')) db.permissions in
    ok (removed, record db { permissions = t })

unfoldable pub get_address_permissions :
    Text → AllowListPermission → Text → Db → Option PermissionRow
unfolding is_for find
get_address_permissions world permission address db =
    find (is_for (lower_case world) permission (lower_case address)) db.permissions.rows

-- The parcels of a permission.
unfoldable pub parcels_of : ℕ → PermissionTables → List Text
unfolding filter
parcels_of id t = map (λ r. r.parcel) (filter (λ r. r.permission_id == id) t.parcels)

pub record PermissionRecord : Type 0 where
  pub row : PermissionRow
  pub open row use *
  pub is_world_wide : Bool
  pub parcel_count : ℕ

unfoldable pub for_checking : PermissionTables → PermissionRow → PermissionRecord
unfolding parcels_of
for_checking t r =
    let count = length (parcels_of r.id t) in
    record { row = r; is_world_wide = count == 0; parcel_count = count }

unfoldable pub get_world_permission_records : Text → Db → List PermissionRecord
unfolding for_checking filter
get_world_permission_records world db =
    map (for_checking db.permissions)
      (filter (λ r. r.world_name == lower_case world) db.permissions.rows)

unfoldable pub check_parcels_allowed : ℕ → List Text → Db → Bool
unfolding parcels_of filter includes
check_parcels_allowed id parcels db =
    length (filter (λ p. includes p parcels) (parcels_of id db.permissions)) == length parcels

unfoldable pub has_permission_entries : Text → AllowListPermission → Db → Bool
unfolding any
has_permission_entries world permission db =
    any (λ r. r.world_name == lower_case world && r.permission_type == permission)
      db.permissions.rows

-- `INSERT INTO world_permission_parcels … ON CONFLICT DO NOTHING`.
unfoldable pub insert_parcels : ℕ → List Text → PermissionTables → PermissionTables
unfolding parcels_of includes
insert_parcels id [] t = t
insert_parcels id (p ∷ ps) t = insert_parcels id ps (
    if includes p (parcels_of id t)
    then t
    else record t { parcels = t.parcels ++ record { permission_id = id; parcel = p } ∷ [] })

unfoldable pub touch : Date → ℕ → PermissionTables → PermissionTables
touch now id t = record t {
  rows = map (λ r. if r.id == id then record r { updated_at = now } else r) t.rows;
}

-- Whether the permission was created.
unfoldable pub add_parcels_to_permission :
    Date → Text → AllowListPermission → Text → List Text → Exec Bool
unfolding insert_parcels touch check_world is_for find insert_row
add_parcels_to_permission now world permission address parcels = transaction λ db.
    let w = lower_case world in
    let a = lower_case address in
    let t = db.permissions in
    elim (find (is_for w permission a) t.rows) [
      | none ↦ elim (check_world w db true) [
        | err e ↦ err e
        | ok u ↦ ok (
          true,
          record db {
            permissions =
                insert_parcels t.next_id (canonicalize_parcels parcels)
                  (insert_row now w permission a t);
          },
        )
      ]
      | some r ↦ ok (
        false,
        record db {
          permissions = insert_parcels r.id (canonicalize_parcels parcels) (touch now r.id t);
        },
      )
    ]

unfoldable pub delete_parcels : ℕ → List Text → PermissionTables → PermissionTables
unfolding filter includes
delete_parcels id parcels t = record t {
  parcels = filter (λ r. not (r.permission_id == id && includes r.parcel parcels)) t.parcels;
}

unfoldable pub remove_parcels_from_permission : Date → ℕ → List Text → Exec (Unit {0})
unfolding delete_parcels touch
remove_parcels_from_permission now id [] = pure tt
remove_parcels_from_permission now id (p ∷ ps) = transaction λ db. ok (
  tt,
  record db {
    permissions = touch now id (delete_parcels id (canonicalize_parcels (p ∷ ps)) db.permissions);
  },
)
