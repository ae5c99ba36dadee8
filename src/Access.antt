-- ===== src/Access.antt =====
-- src/logic/access/component.ts: the access settings of worlds.
use worlds_content_server.Prelude.{
  ℕ, ◌+◌, Bool, true, false, not, ◌&&◌, ◌||◌, Option, none, some, List, [], ◌∷◌, ◌++◌, map,
  if◌then◌else◌, ◌==◌, ltb, leb,
}
use worlds_content_server.Prelude.Eq.{text_eq}
use worlds_content_server.Prelude.Lists.{length, filter, find, any, includes}
use worlds_content_server.Prelude.Text.{Text, lower_case}
use worlds_content_server.Prelude.Result.{Result, ok, err}
use worlds_content_server.Errors.{
  Outcome, invalid_access_type, invalid_allow_list_setting, not_allow_list_access,
  unauthorized_community,
}
use worlds_content_server.Entities.{truthy}
use worlds_content_server.AccessSetting.{
  AccessType, AllowListAccessSetting, AccessSetting, access_type,
}
use worlds_content_server.Database.{Date, WorldRow, Db, world_named}
use worlds_content_server.Server.{
  Exec, pure, lift, query, publish, transaction, update_db, ◌>>=◌, ◌>>◌, access_changed,
}
use worlds_content_server.Worlds.Basic.{basic_world, create_basic_world_if_not_exists}
use worlds_content_server.Worlds.Scenes.{update_world}
use worlds_content_server.Access.Checker.{Externals, row_access, get_world_access}
use worlds_content_server.Access.Changes.{handle_access_change}
pub mod Checker
pub mod Changes
pub mod Outsiders
pub mod Kicks
pub mod Bounds
pub mod Limits
pub mod Banned
pub mod Tests
pub mod Effects

-- The type that a request names; `other` is a text that is none of the enum's.
pub data RequestedType : Type 0 where
  known : AccessType → RequestedType
  other : Text → RequestedType

pub record AccessInput : Type 0 where
  pub type : RequestedType
  pub wallets : Option (List Text)
  pub communities : Option (List Text)
  pub nft : Option Text
  pub secret : Option Text

-- The limits, the batch of kicks, and the services.
pub record AccessConfig : Type 0 where
  pub max_communities : ℕ
  pub max_wallets : ℕ
  pub kick_batch_size : ℕ
  pub ext : Externals

or_empty : Option (List Text) → List Text
or_empty none = []
or_empty (some xs) = xs

unauthorized : List Text → Outcome (Unit {0})
unauthorized [] = ok tt
unauthorized (c ∷ cs) = err (unauthorized_community (c ∷ cs))

members_only : List Text → Outcome (List Text) → Outcome (Unit {0})
unfolding unauthorized
members_only communities (err e) = err e
members_only communities (ok members) =
    unauthorized (filter (λ id. not (includes id members)) communities)

-- The signer is a member of all the communities, of which there may be none.
unfoldable pub check_membership : Externals → Text → List Text → Outcome (Unit {0})
unfolding members_only
check_membership ext signer [] = ok tt
check_membership ext signer (c ∷ cs) =
    members_only (c ∷ cs) (ext.get_member_communities signer (c ∷ cs))

allow_list_of : List Text → List Text → Outcome (Unit {0}) → Outcome AccessSetting
allow_list_of wallets communities (err e) = err e
allow_list_of wallets communities (ok u) =
    ok (AccessSetting.allow_list (record { wallets = wallets; communities = communities }))

unfoldable pub make_allow_list : AccessConfig → Text → List Text → List Text → Outcome AccessSetting
unfolding allow_list_of
make_allow_list config signer wallets communities =
    if ltb config.max_communities (length communities)
    then err invalid_allow_list_setting
    else if ltb config.max_wallets (length wallets)
    then err invalid_allow_list_setting
    else allow_list_of wallets communities (check_membership config.ext signer communities)

make_nft : Option Text → Outcome AccessSetting
make_nft none = err invalid_access_type
make_nft (some n) = ok (AccessSetting.nft_ownership n)

make_secret : Externals → Option Text → Outcome AccessSetting
make_secret ext none = err invalid_access_type
make_secret ext (some s) = ok (AccessSetting.shared_secret (ext.hash_sync s))

-- The setting that the input describes.
unfoldable pub make_setting :
    AccessConfig → Text → AccessInput → RequestedType → Outcome AccessSetting
unfolding make_nft make_secret or_empty
make_setting config signer input (known AccessType.allow_list) =
    make_allow_list config signer (or_empty input.wallets) (or_empty input.communities)
make_setting config signer input (known AccessType.unrestricted) = ok AccessSetting.unrestricted
make_setting config signer input (known AccessType.nft_ownership) = make_nft (truthy input.nft)
make_setting config signer input (known AccessType.shared_secret) =
    make_secret config.ext (truthy input.secret)
make_setting config signer input (other t) = err invalid_access_type

new_access_row : Date → Text → AccessSetting → WorldRow
new_access_row now world access = record (basic_world now world []) {
  owner = none;
  access = some access;
}

set_access_of : Date → AccessSetting → WorldRow → WorldRow
set_access_of now access w = record w { access = some access; updated_at = now }

-- `storeAccess`, on the name in lower case.
unfoldable pub store_access : Date → Text → AccessSetting → Db → Db
unfolding new_access_row set_access_of
store_access now world access db = record db {
  worlds =
      if world_named world db.worlds
      then update_world world (set_access_of now access) db.worlds
      else db.worlds ++ new_access_row now world access ∷ [];
}

-- A modifier gives the error that it throws, the same object (`none`), or a new setting.
abbrev pub Modifier : Type 0
Modifier = AccessSetting → Outcome (Option AccessSetting)

stored_change :
    Date
    → Text
    → AccessSetting
    → Db
    → Outcome (Option AccessSetting)
    → Outcome ((AccessSetting × AccessSetting) × Db)
stored_change now world previous db (err e) = err e
stored_change now world previous db (ok none) = ok ((previous, previous), db)
stored_change now world previous db (ok (some updated)) =
    ok ((previous, updated), store_access now world updated db)

unfoldable pub modify_access :
    Date → Text → Modifier → Db → Outcome ((AccessSetting × AccessSetting) × Db)
unfolding stored_change find
modify_access now world modifier db =
    let previous = row_access (find (λ w. w.name == lower_case world) db.worlds) in
    stored_change now (lower_case world) previous db (modifier previous)

-- The access before and after.
unfoldable pub modify_access_atomically :
    Date → Text → Modifier → Exec (AccessSetting × AccessSetting)
modify_access_atomically now world modifier = transaction (modify_access now world modifier)

on_allow_list : (AllowListAccessSetting → Outcome (Option AccessSetting)) → Modifier
on_allow_list f AccessSetting.unrestricted = err not_allow_list_access
on_allow_list f (AccessSetting.shared_secret s) = err not_allow_list_access
on_allow_list f (AccessSetting.nft_ownership n) = err not_allow_list_access
on_allow_list f (AccessSetting.allow_list l) = f l

unfoldable pub add_wallet : ℕ → Text → Modifier
unfolding on_allow_list
add_wallet max wallet = on_allow_list λ l.
    if any (λ w. lower_case w == lower_case wallet) l.wallets
    then ok none
    else if ltb max (length (l.wallets ++ lower_case wallet ∷ []))
    then err invalid_allow_list_setting
    else ok (
        some
          (AccessSetting.allow_list (record l { wallets = l.wallets ++ lower_case wallet ∷ [] })))

unfoldable pub remove_wallet : Text → Modifier
unfolding on_allow_list
remove_wallet wallet = on_allow_list λ l. ok (
    some (
      AccessSetting.allow_list
        (record l { wallets = filter (λ w. not (lower_case w == lower_case wallet)) l.wallets })))

unfoldable pub add_community : ℕ → Text → Modifier
unfolding on_allow_list
add_community max community = on_allow_list λ l.
    if includes community l.communities
    then ok none
    else if leb max (length l.communities)
    then err invalid_allow_list_setting
    else ok (
        some
          (AccessSetting.allow_list (record l { communities = l.communities ++ community ∷ [] })))

unfoldable pub remove_community : Text → Modifier
unfolding on_allow_list
remove_community community = on_allow_list λ l. ok (
    some (
      AccessSetting.allow_list
        (record l { communities = filter (λ id. not (id == community)) l.communities })))

one_member : Text → Outcome (List Text) → Outcome (Unit {0})
one_member community (err e) = err e
one_member community (ok members) =
    if includes community members then ok tt else err (unauthorized_community (community ∷ []))

module _ (config : AccessConfig) where
  unfoldable pub handle_change : Text → AccessSetting × AccessSetting → Exec (Unit {0})
  handle_change world (previous, updated) =
      handle_access_change config.ext config.kick_batch_size world previous updated

  unfoldable pub publish_change : Text → RequestedType → Exec (Unit {0})
  publish_change world (known t) = publish (access_changed world t ∷ [])
  publish_change world (other t) = pure tt

  unfoldable pub set_access : Date → Text → Text → AccessInput → Exec (Unit {0})
  set_access now world signer input = do
    previous ← query (get_world_access config.ext world)
    setting ← lift (make_setting config signer input input.type)
    create_basic_world_if_not_exists now world signer
    update_db (store_access now (lower_case world) setting)
    handle_change world (previous, setting)
    publish_change world input.type

  unfoldable pub add_wallet_to_access_allow_list : Date → Text → Text → Text → Exec (Unit {0})
  add_wallet_to_access_allow_list now world owner wallet = do
    create_basic_world_if_not_exists now world owner
    modify_access_atomically now world (add_wallet config.max_wallets wallet)
    pure tt

  unfoldable pub remove_wallet_from_access_allow_list : Date → Text → Text → Exec (Unit {0})
  remove_wallet_from_access_allow_list now world wallet = do
    change ← modify_access_atomically now world (remove_wallet wallet)
    handle_change world change

  unfoldable pub add_community_to_access_allow_list : Date → Text → Text → Text → Exec (Unit {0})
  unfolding one_member
  add_community_to_access_allow_list now world signer community = do
    lift (one_member community (config.ext.get_member_communities signer (community ∷ [])))
    modify_access_atomically now world (add_community config.max_communities community)
    pure tt

  unfoldable pub remove_community_from_access_allow_list : Date → Text → Text → Exec (Unit {0})
  remove_community_from_access_allow_list now world community = do
    change ← modify_access_atomically now world (remove_community community)
    handle_change world change
