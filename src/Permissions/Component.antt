-- ===== src/Permissions/Component.antt =====
-- src/logic/permissions/component.ts: checks, grants and revocations with their messages.
use worlds_content_server.Prelude.{
  ℕ, Bool, true, false, not, ◌&&◌, Option, none, some, List, [], ◌∷◌, ◌++◌, map, if◌then◌else◌,
  ◌==◌,
}
use worlds_content_server.Prelude.Eq.{text_eq}
use worlds_content_server.Prelude.Lists.{filter, find, includes}
use worlds_content_server.Prelude.Text.{Text, lower_case}
use worlds_content_server.Errors.{invalid_permission_request}
use worlds_content_server.Entities.{truthy}
use worlds_content_server.Database.{
  Date, AllowListPermission, deployment, streaming, permission_eq, Db,
}
use worlds_content_server.Coordinates.{canonicalize_parcels}
use worlds_content_server.Server.{
  Exec, pure, throw, query, publish, ◌>>=◌, ◌>>◌, permission_granted, permission_revoked,
}
use worlds_content_server.Worlds.Basic.{create_basic_world_if_not_exists}
use worlds_content_server.Permissions.Manager.{
  PermissionRecord, get_world_permission_records, check_parcels_allowed, get_address_permissions,
  grant_addresses_world_wide_permission, remove_addresses_permission,
  add_parcels_to_permission as manager_add_parcels,
  remove_parcels_from_permission as manager_remove_parcels,
}

-- The type that a request names; `other` is any text that is neither of the enum's.
pub data PermissionType : Type 0 where
  unrestricted allow_list : PermissionType
  other : Text → PermissionType

unfoldable pub send_permission_granted_notifications :
    Text → AllowListPermission → List Text → Exec (Unit {0})
send_permission_granted_notifications world permission addresses =
    publish (map (λ a. permission_granted world permission (lower_case a)) addresses)

unfoldable pub send_permission_revoked_notifications :
    Text → AllowListPermission → List Text → Exec (Unit {0})
send_permission_revoked_notifications world permission addresses =
    publish (map (λ a. permission_revoked world permission (lower_case a)) addresses)

-- The record whose key `${permissionType}:${address}` is the one that is asked for.
unfoldable pub find_record :
    AllowListPermission → Text → List PermissionRecord → Option PermissionRecord
unfolding find
find_record permission address records =
    find (λ r. r.permission_type == permission && lower_case r.address == lower_case address)
      records

unfoldable pub record_is_world_wide : Option PermissionRecord → Bool
record_is_world_wide none = false
record_is_world_wide (some r) = r.is_world_wide

unfoldable pub has_world_wide_permission : Text → AllowListPermission → Text → Db → Bool
unfolding find_record record_is_world_wide get_world_permission_records
has_world_wide_permission world permission address db =
    record_is_world_wide (find_record permission address (get_world_permission_records world db))

unfoldable pub record_allows : Option PermissionRecord → List Text → Db → Bool
unfolding check_parcels_allowed canonicalize_parcels
record_allows none parcels db = false
record_allows (some r) parcels db = check_parcels_allowed r.id (canonicalize_parcels parcels) db

unfoldable pub has_permission_for_parcels :
    Text → AllowListPermission → Text → List Text → Db → Bool
unfolding has_world_wide_permission record_allows find_record get_world_permission_records
has_permission_for_parcels world permission address parcels db =
    if has_world_wide_permission world permission address db
    then true
    else record_allows (find_record permission address (get_world_permission_records world db))
        parcels db

-- `if (owner) { … }`: an absent or empty owner creates no world.
ensure_world : Date → Text → Option Text → Exec (Unit {0})
unfolding create_basic_world_if_not_exists
ensure_world now world none = pure tt
ensure_world now world (some owner) = create_basic_world_if_not_exists now world owner

unfoldable pub grant_world_wide_permission :
    Date → Text → AllowListPermission → List Text → Option Text → Exec (Unit {0})
unfolding ensure_world grant_addresses_world_wide_permission send_permission_granted_notifications
grant_world_wide_permission now world permission [] owner = pure tt
grant_world_wide_permission now world permission (w ∷ ws) owner = do
  ensure_world now world (truthy owner)
  added ← grant_addresses_world_wide_permission now world permission (w ∷ ws)
  send_permission_granted_notifications world permission added

unfoldable pub revoke_permission : Text → AllowListPermission → List Text → Exec (Unit {0})
unfolding remove_addresses_permission send_permission_revoked_notifications
revoke_permission world permission [] = pure tt
revoke_permission world permission (a ∷ as') = do
  deleted ← remove_addresses_permission world permission (a ∷ as')
  send_permission_revoked_notifications world permission deleted

-- The addresses that hold a permission on a world.
unfoldable pub current_addresses : Text → AllowListPermission → Db → List Text
unfolding get_world_permission_records filter
current_addresses world permission db =
    map (λ r. lower_case r.address)
      (filter (λ r. r.permission_type == permission) (get_world_permission_records world db))

-- The wallets of the permission become the given ones: those missing are revoked, those new granted.
-- Nothing is asked for an empty list, so the length tests of the source are in the callees.
unfoldable pub replace_wallets : Date → Text → AllowListPermission → List Text → Exec (Unit {0})
replace_wallets now world permission wallets = do
  current ← query (current_addresses world permission)
  let new = map lower_case wallets
  revoke_permission (lower_case world) permission (filter (λ a. not (includes a new)) current)
  grant_world_wide_permission now (lower_case world) permission
      (filter (λ a. not (includes a current)) new) none

unfoldable pub set_deployment_permission :
    Date → Text → Text → PermissionType → List Text → Exec (Unit {0})
set_deployment_permission now world owner allow_list wallets = do
  create_basic_world_if_not_exists now world owner
  replace_wallets now world deployment wallets
set_deployment_permission now world owner unrestricted wallets = throw invalid_permission_request
set_deployment_permission now world owner (other t) wallets = throw invalid_permission_request

unfoldable pub wallets_or_empty : Option (List Text) → List Text
wallets_or_empty none = []
wallets_or_empty (some ws) = ws

unfoldable pub set_streaming_permission :
    Date → Text → Text → PermissionType → Option (List Text) → Exec (Unit {0})
unfolding replace_wallets current_addresses revoke_permission create_basic_world_if_not_exists
    wallets_or_empty
set_streaming_permission now world owner unrestricted wallets = do
  create_basic_world_if_not_exists now world owner
  current ← query (current_addresses world streaming)
  revoke_permission (lower_case world) streaming current
set_streaming_permission now world owner allow_list wallets = do
  create_basic_world_if_not_exists now world owner
  replace_wallets now world streaming (wallets_or_empty wallets)
set_streaming_permission now world owner (other t) wallets = throw invalid_permission_request

unfoldable pub add_parcels_to_permission :
    Date → Text → AllowListPermission → Text → List Text → Exec (Unit {0})
unfolding manager_add_parcels send_permission_granted_notifications
add_parcels_to_permission now world permission address parcels = do
  created ← manager_add_parcels now world permission address parcels
  if created then send_permission_granted_notifications world permission (address ∷ []) else pure tt

unfoldable pub remove_parcels_from_permission :
    Date → Text → AllowListPermission → Text → List Text → Exec (Unit {0})
unfolding get_address_permissions manager_remove_parcels
remove_parcels_from_permission now world permission address parcels = do
  existing ← query (get_address_permissions world permission address)
  elim existing [
    | none ↦ throw invalid_permission_request
    | some r ↦ manager_remove_parcels now r.id parcels
  ]

pub record AddressPermissionSummary : Type 0 where
  pub permission : AllowListPermission
  pub world_wide : Bool
  pub parcel_count : Option ℕ

summarize : PermissionRecord → AddressPermissionSummary
summarize r = record {
  permission = r.permission_type;
  world_wide = r.is_world_wide;
  parcel_count = if r.is_world_wide then none else some r.parcel_count;
}

-- `summary[address].push(entry)`, the list made when it is missing.
push_summary :
    Text
    → AddressPermissionSummary
    → List (Text × List AddressPermissionSummary)
    → List (Text × List AddressPermissionSummary)
push_summary address entry [] = (address, entry ∷ []) ∷ []
push_summary address entry ((a, entries) ∷ rest) =
    if a == address
    then (a, entries ++ entry ∷ []) ∷ rest
    else (a, entries) ∷ push_summary address entry rest

summary_loop :
    List PermissionRecord
    → List (Text × List AddressPermissionSummary)
    → List (Text × List AddressPermissionSummary)
unfolding push_summary summarize
summary_loop [] summary = summary
summary_loop (r ∷ rs) summary = summary_loop rs (push_summary r.address (summarize r) summary)

unfoldable pub get_permissions_summary : Text → Db → List (Text × List AddressPermissionSummary)
unfolding summary_loop get_world_permission_records
get_permissions_summary world db = summary_loop (get_world_permission_records world db) []
