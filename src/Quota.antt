-- ===== src/Quota.antt =====
-- The space that a wallet's worlds use: src/adapters/wallet-stats.ts, the sums of sizes of
-- src/adapters/worlds-manager.ts, and src/adapters/limits-manager.ts. Sizes are whole numbers of
-- bytes; the holdings, the whitelist and the owners of names come from services.
use worlds_content_server.Prelude.{
  ℕ, ◌+◌, ◌-◌, ◌*◌, Bool, true, false, not, ◌&&◌, ◌||◌, Option, none, some, List, [], ◌∷◌, ◌==◌,
  if◌then◌else◌, leb, map,
}
use worlds_content_server.Prelude.Eq.{text_eq, nat_eq}
use worlds_content_server.Prelude.Lists.{length, drop, filter, find}
use worlds_content_server.Prelude.Positions.{total}
use worlds_content_server.Prelude.Map.{Map, get}
use worlds_content_server.Prelude.Text.{Text, codes, lower_case}
use worlds_content_server.Prelude.Result.{ok, err, ◌>>=◌}
use worlds_content_server.Errors.{Outcome, owner_unknown}
use worlds_content_server.Entities.{truthy}
use worlds_content_server.Database.{Date, WorldRow, SceneRow, BlockedRow, Db}
use worlds_content_server.Worlds.Scenes.{is_deployed_in, overlaps}
pub mod Blocking
pub mod Sizes
pub mod Decisions
pub mod Tests

-- `MB_BigInt`.
abbrev pub megabyte : ℕ
megabyte = 1048576

unfoldable pub get_total_world_size : Text → Db → ℕ
get_total_world_size world db =
    total (λ r. r.size) (filter (is_deployed_in (lower_case world)) db.scenes)

abbrev pub is_replaced : Text → List Text → SceneRow → Bool
is_replaced world parcels r = is_deployed_in world r && overlaps r.parcels parcels

-- The scenes that a deployment on the parcels would replace.
unfoldable pub get_deployed_scene_size_for_parcels : Text → List Text → Db → ℕ
get_deployed_scene_size_for_parcels world [] db = 0
get_deployed_scene_size_for_parcels world (p ∷ ps) db =
    total (λ r. r.size) (filter (is_replaced (lower_case world) (p ∷ ps)) db.scenes)

-- `text.endsWith(suffix)`.
unfoldable pub ends_with : Text → Text → Bool
ends_with suffix t = leb (length suffix) (length t) && drop (length t - length suffix) t == suffix

abbrev pub is_dcl_name : Text → Bool
is_dcl_name name = ends_with (codes ".dcl.eth") name

pub record NamedSize : Type 0 where
  pub name : Text
  pub size : ℕ

pub record WalletStats : Type 0 where
  pub wallet : Text
  pub dcl_names : List NamedSize
  pub ens_names : List NamedSize
  pub used_space : ℕ
  pub max_allowed_space : ℕ
  pub blocked_since : Option Date

pub record WhitelistEntry : Type 0 where
  pub max_parcels : Option ℕ
  pub max_size_in_mb : Option ℕ
  pub allow_sdk6 : Option Bool

abbrev pub Whitelist : Type 0
Whitelist = Map WhitelistEntry

-- What the services answer; without a stats URL the holdings are the largest safe integer.
pub record Services : Type 0 where
  pub space_allowance : (wallet : Text) → Outcome ℕ
  pub whitelist : Outcome Whitelist
  pub find_owner : (world : Text) → Outcome (Option Text)

abbrev pub is_owned_by : Text → WorldRow → Bool
is_owned_by wallet w = elim w.owner [ none ↦ false | some o ↦ o == wallet ]

unfoldable pub fetch_stored_data : Text → Db → List NamedSize
fetch_stored_data wallet db =
    map (λ w. record { name = w.name; size = get_total_world_size w.name db })
      (filter (is_owned_by (lower_case wallet)) db.worlds)

abbrev pub blocked_row : Text → List BlockedRow → Option BlockedRow
blocked_row wallet rows = find (λ r. r.wallet == wallet) rows

-- `getBlockedSince` of the blocking component is the same query.
unfoldable pub fetch_blocked_status : Text → Db → Option Date
fetch_blocked_status wallet db = elim (blocked_row (lower_case wallet) db.blocked) [
  | none ↦ none
  | some r ↦ some r.created_at
]

unfoldable pub get_stats : Services → Text → Db → Outcome WalletStats
get_stats services wallet db =
    let stored = fetch_stored_data wallet db in
    let dcl_names = filter (λ w. is_dcl_name w.name) stored in
    services.space_allowance wallet >>= λ allowance. ok (record {
      wallet = wallet;
      dcl_names = dcl_names;
      ens_names = filter (λ w. not (is_dcl_name w.name)) stored;
      used_space = total (λ w. w.size) dcl_names;
      max_allowed_space = allowance * megabyte;
      blocked_since = fetch_blocked_status wallet db;
    })

pub record HardLimits : Type 0 where
  pub max_parcels : ℕ
  pub max_size : ℕ
  pub max_size_for_ens : ℕ
  pub allow_sdk6 : Bool

-- `a || b` on numbers.
abbrev pub or_number : Option ℕ → ℕ → ℕ
or_number none b = b
or_number (some a) b = if a == 0 then b else a

-- An unavailable whitelist is an empty one.
abbrev pub resolve_whitelist : Services → Whitelist
resolve_whitelist services = elim services.whitelist [ err e ↦ [] | ok w ↦ w ]

-- What is left of the allowance when the replaced scenes are credited back, at least 0: the
-- largest of 0 and `max - (used - credited)`.
unfoldable pub remaining_space : (max used credited : ℕ) → ℕ
remaining_space max used credited = max + credited - used

module _ (services : Services) (hard : HardLimits) where
  unfoldable pub get_allow_sdk6_for : Text → Bool
  get_allow_sdk6_for world = elim (get world (resolve_whitelist services)) [
    | none ↦ hard.allow_sdk6
    | some w ↦ elim w.allow_sdk6 [ none ↦ hard.allow_sdk6 | some b ↦ b || hard.allow_sdk6 ]
  ]

  unfoldable pub get_max_allowed_parcels_for : Text → ℕ
  get_max_allowed_parcels_for world = elim (get world (resolve_whitelist services)) [
    | none ↦ hard.max_parcels
    | some w ↦ or_number w.max_parcels hard.max_parcels
  ]

  abbrev pub credited_back_size : Text → Option (List Text) → WalletStats → Db → ℕ
  credited_back_size world (some parcels) stats db =
      get_deployed_scene_size_for_parcels world parcels db
  credited_back_size world none stats db =
      elim (find (λ n. n.name == lower_case world) stats.dcl_names) [ none ↦ 0 | some n ↦ n.size ]

  abbrev pub or_unknown : Option Text → Outcome Text
  or_unknown none = err owner_unknown
  or_unknown (some owner) = ok owner

  unfoldable pub owner_limit : Text → Option (List Text) → Db → Outcome ℕ
  owner_limit world parcels db = do
    found ← services.find_owner world
    owner ← or_unknown (truthy found)
    stats ← get_stats services owner db
    ok (
        remaining_space stats.max_allowed_space stats.used_space
          (credited_back_size world parcels stats db))

  unfoldable pub get_max_allowed_size_in_bytes_for : Text → Option (List Text) → Db → Outcome ℕ
  get_max_allowed_size_in_bytes_for world parcels db =
      let limit = owner_limit world parcels db in
      if ends_with (codes ".eth") world && not (is_dcl_name world)
      then ok (hard.max_size_for_ens * megabyte)
      else elim (get world (resolve_whitelist services)) [
        | some w ↦ ok (or_number w.max_size_in_mb hard.max_size * megabyte)
        | none ↦ limit
      ]
