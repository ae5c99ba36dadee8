-- ===== src/Access/Changes.antt =====
-- src/logic/access-change-handler and src/logic/participant-kicker: who is put out of a world's
-- rooms when its access changes. Log messages are left out.
use worlds_content_server.Prelude.{
  ℕ, zero, suc, Bool, true, false, not, ◌&&◌, ◌||◌, Option, none, some, List, [], ◌∷◌, ◌++◌, map,
  if◌then◌else◌, ◌==◌, ltb,
}
use worlds_content_server.Prelude.Eq.{nat_eq, text_eq}
use worlds_content_server.Prelude.Lists.{length, take, drop, filter, find, includes}
use worlds_content_server.Prelude.Text.{Text, lower_case}
use worlds_content_server.Prelude.Result.{ok, err}
use worlds_content_server.Errors.{Outcome}
use worlds_content_server.Entities.{truthy}
use worlds_content_server.AccessSetting.{AccessType, access_type, AccessSetting}
use worlds_content_server.Database.{deployment, permission_eq, WorldRow, Db}
use worlds_content_server.Server.{Server, Exec}
use worlds_content_server.Peers.{PeersRegistry, get_peers_in_world, get_peer_rooms}
use worlds_content_server.NameDenyList.{check_name_deny_list}
use worlds_content_server.Permissions.Manager.{get_world_permission_records}
use worlds_content_server.Access.Checker.{Externals, check_access}

pub data AccessChangeAction : Type 0 where
  no_kick kick_all_participants kick_participants_without_access : AccessChangeAction

same_type : AccessType → AccessType → Bool
same_type AccessType.unrestricted AccessType.unrestricted = true
same_type AccessType.shared_secret AccessType.shared_secret = true
same_type AccessType.nft_ownership AccessType.nft_ownership = true
same_type AccessType.allow_list AccessType.allow_list = true
same_type a b = false

unfoldable pub secret_changed : AccessSetting → AccessSetting → Bool
secret_changed (AccessSetting.shared_secret s) (AccessSetting.shared_secret t) = not (s == t)
secret_changed a b = false

-- The order of JavaScript's `sort()`: by UTF-16 code units.
unfoldable pub text_leb : Text → Text → Bool
text_leb [] t = true
text_leb (c ∷ s) [] = false
text_leb (c ∷ s) (d ∷ t) = ltb c d || (c == d && text_leb s t)

unfoldable pub insert : Text → List Text → List Text
unfolding text_leb
insert x [] = x ∷ []
insert x (y ∷ ys) = if text_leb x y then x ∷ y ∷ ys else y ∷ insert x ys

unfoldable pub sort : List Text → List Text
unfolding insert
sort [] = []
sort (x ∷ xs) = insert x (sort xs)

-- The lengths differ, or some element does.
unfoldable pub differ : List Text → List Text → Bool
differ [] [] = false
differ [] (y ∷ ys) = true
differ (x ∷ xs) [] = true
differ (x ∷ xs) (y ∷ ys) = not (x == y) || differ xs ys

unfoldable pub allow_list_changed : AccessSetting → AccessSetting → Bool
unfolding differ sort
allow_list_changed (AccessSetting.allow_list a) (AccessSetting.allow_list b) =
    differ (sort (map lower_case a.wallets)) (sort (map lower_case b.wallets))
    || differ (sort a.communities) (sort b.communities)
allow_list_changed a b = false

is_unrestricted : AccessSetting → Bool
is_unrestricted AccessSetting.unrestricted = true
is_unrestricted a = false

-- The first rule whose condition holds gives the action.
unfoldable pub resolve_action : AccessSetting → AccessSetting → AccessChangeAction
unfolding is_unrestricted same_type secret_changed
resolve_action prev next =
    if is_unrestricted next
    then no_kick
    else if not (same_type (access_type prev) (access_type next)) || secret_changed prev next
    then kick_all_participants
    else if allow_list_changed prev next
    then kick_participants_without_access
    else no_kick

owner_of : Option WorldRow → Option Text
owner_of none = none
owner_of (some w) = truthy w.owner

or_found : Option Text → Option Text → Option Text
or_found (some o) found = some o
or_found none found = found

-- `getOwner`: the world's row, unless the name is banned, else the owner of the name.
unfoldable pub get_owner : Externals → Text → Db → Option Text
unfolding owner_of or_found find
get_owner ext world db =
    if check_name_deny_list ext.banned world
    then or_found (owner_of (find (λ w. w.name == lower_case world) db.worlds))
        (ext.find_owner world)
    else ext.find_owner world

abbrev pub lower_owner : Option Text → List Text
lower_owner none = []
lower_owner (some o) = lower_case o ∷ []

-- The owner and the deployers are privileged.
unfoldable pub privileged : Externals → Text → Db → List Text
privileged ext world db =
    lower_owner (truthy (get_owner ext world db))
    ++ map (λ r. lower_case r.address)
        (filter (λ r. r.permission_type == deployment) (get_world_permission_records world db))

unfoldable pub filter_out_privileged_users : Externals → Text → List Text → Db → List Text
filter_out_privileged_users ext world identities db =
    filter (λ i. not (includes (lower_case i) (privileged ext world db))) identities

-- `for (let i = 0; i < identities.length; i += kickBatchSize)`.
unfoldable pub batches : ℕ → ℕ → List Text → List (List Text)
batches zero size ids = []
batches (suc fuel) size [] = []
batches (suc fuel) size (i ∷ ids) = take size (i ∷ ids) ∷ batches fuel size (drop size (i ∷ ids))

rooms_of : PeersRegistry → Text → List (Text × Text)
rooms_of reg identity = map (λ room. (room, identity)) (get_peer_rooms identity reg)

unfoldable pub kicks : PeersRegistry → List Text → List (Text × Text)
unfolding rooms_of
kicks reg [] = []
kicks reg (i ∷ ids) = rooms_of reg i ++ kicks reg ids

unfoldable pub kick_batches : PeersRegistry → List (List Text) → List (Text × Text)
unfolding kicks
kick_batches reg [] = []
kick_batches reg (b ∷ bs) = kicks reg b ++ kick_batches reg bs

-- A removal that fails is logged and the next is tried. Every batch takes at least one identity, so
-- the number of identities is enough fuel.
unfoldable pub kick_participants : ℕ → List Text → Exec (Unit {0})
unfolding kick_batches batches
kick_participants size ids s = (
  ok tt,
  record s { removed = s.removed ++ kick_batches s.peers (batches (length ids) size ids) },
)

-- A check that fails does not put the peer out.
lost_access : Outcome Bool → Bool
lost_access (err e) = false
lost_access (ok b) = not b

unfoldable pub without_access : Externals → Text → List Text → Db → List Text
unfolding lost_access filter
without_access ext world identities db =
    filter (λ i. lost_access (check_access ext world i none db)) identities

unfoldable pub react : Externals → ℕ → AccessChangeAction → Text → List Text → Exec (Unit {0})
react ext size no_kick world identities s = (ok tt, s)
react ext size kick_all_participants world identities s = kick_participants size identities s
react ext size kick_participants_without_access world identities s =
    kick_participants size (without_access ext world identities s.db) s

-- The peers that an action concerns.
unfoldable pub concerned : Externals → AccessChangeAction → Text → Server → List Text
concerned ext no_kick world s = get_peers_in_world world s.peers
concerned ext kick_all_participants world s =
    filter_out_privileged_users ext world (get_peers_in_world world s.peers) s.db
concerned ext kick_participants_without_access world s =
    filter_out_privileged_users ext world (get_peers_in_world world s.peers) s.db

-- The early returns on an empty list are in the callees, which do nothing then.
unfoldable pub handle_access_change :
    Externals → ℕ → Text → AccessSetting → AccessSetting → Exec (Unit {0})
unfolding react concerned
handle_access_change ext size world previous new s =
    let action = resolve_action previous new in
    react ext size action world (concerned ext action world s) s
