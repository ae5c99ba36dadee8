-- ===== src/Access/Checker.antt =====
-- src/logic/access-checker/component.ts: who may enter a world. The social service and bcrypt are
-- parameters.
use worlds_content_server.Prelude.{
  Bool, true, false, not, ◌&&◌, Option, none, some, List, [], ◌∷◌, map, if◌then◌else◌, ◌==◌,
}
use worlds_content_server.Prelude.Eq.{text_eq}
use worlds_content_server.Prelude.Lists.{find, includes}
use worlds_content_server.Prelude.Text.{Text, lower_case}
use worlds_content_server.Prelude.Result.{ok, err}
use worlds_content_server.Errors.{Outcome}
use worlds_content_server.AccessSetting.{AllowListAccessSetting, AccessSetting, default_access}
use worlds_content_server.Database.{WorldRow, Db}
use worlds_content_server.NameDenyList.{get_banned_names}

-- What the access code asks of services: the communities among the given ones that an address is a
-- member of, bcrypt's two functions, the owner of a name, and the names that are banned.
pub record Externals : Type 0 where
  pub get_member_communities : Text → List Text → Outcome (List Text)
  pub hash_sync : Text → Text
  pub compare : Text → Text → Bool
  pub find_owner : Text → Option Text
  pub banned : List Text

unfoldable pub access_or_default : Option AccessSetting → AccessSetting
access_or_default none = default_access
access_or_default (some a) = a

unfoldable pub row_access : Option WorldRow → AccessSetting
unfolding access_or_default
row_access none = default_access
row_access (some w) = access_or_default w.access

-- The access of `getRawWorldRecords({ worldName })`'s first record. An empty name, with which the
-- source would filter by no name, is not given to it.
unfoldable pub get_world_access : Externals → Text → Db → AccessSetting
unfolding row_access find
get_world_access ext world db = row_access (
    find (λ w. not (includes w.name (get_banned_names ext.banned)) && w.name == lower_case world)
      db.worlds)

is_empty : List Text → Bool
is_empty [] = true
is_empty (x ∷ xs) = false

has_community : Outcome (List Text) → Outcome Bool
unfolding is_empty
has_community (err e) = err e
has_community (ok members) = ok (not (is_empty members))

unfoldable pub check_communities : Externals → List Text → Text → Outcome Bool
unfolding has_community
check_communities ext [] address = ok false
check_communities ext (c ∷ cs) address = has_community (ext.get_member_communities address (c ∷ cs))

unfoldable pub check_allow_list : Externals → AllowListAccessSetting → Text → Outcome Bool
unfolding check_communities includes
check_allow_list ext access address =
    if includes (lower_case address) (map lower_case access.wallets)
    then ok true
    else check_communities ext access.communities address

check_secret : Externals → Text → Option Text → Bool
check_secret ext secret none = false
check_secret ext secret (some []) = false
check_secret ext secret (some (c ∷ s)) = ext.compare (c ∷ s) secret

unfoldable pub check_setting : Externals → AccessSetting → Text → Option Text → Outcome Bool
unfolding check_secret
check_setting ext AccessSetting.unrestricted address extras = ok true
check_setting ext (AccessSetting.shared_secret s) address extras = ok (check_secret ext s extras)
check_setting ext (AccessSetting.nft_ownership n) address extras = ok false
check_setting ext (AccessSetting.allow_list l) address extras = check_allow_list ext l address

-- `extras` is the secret that the user gives, if it is a text.
unfoldable pub check_access : Externals → Text → Text → Option Text → Db → Outcome Bool
check_access ext world address extras db =
    check_setting ext (get_world_access ext world db) address extras
