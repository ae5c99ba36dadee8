-- ===== src/Quota/Blocking.antt =====
-- Wallets over their quota are blocked: src/adapters/blocking/component.ts. Whether a publication
-- succeeds is a parameter; logs are left out.
use worlds_content_server.Prelude.{
  ℕ, ◌-◌, ◌*◌, Bool, true, false, not, ◌&&◌, Option, none, some, List, [], ◌∷◌, ◌==◌, if◌then◌else◌,
  ltb, map,
}
use worlds_content_server.Prelude.Eq.{text_eq}
use worlds_content_server.Prelude.Lists.{filter, includes}
use worlds_content_server.Prelude.Positions.{total}
use worlds_content_server.Prelude.Map.{get}
use worlds_content_server.Prelude.Text.{Text, lower_case}
use worlds_content_server.Prelude.Result.{ok, err}
use worlds_content_server.Errors.{publication_failed}
use worlds_content_server.Entities.{truthy}
use worlds_content_server.Database.{Date, BlockedRow}
use worlds_content_server.Server.{
  Message, missing_resources, access_restricted, access_restored, Exec, pure, throw, lift, query,
  publish, update_db, ◌>>=◌, ◌>>◌,
}
use worlds_content_server.Quota.{
  WalletStats, Whitelist, Services, get_stats, blocked_row, fetch_blocked_status,
}

abbrev pub two_days_in_ms : ℕ
two_days_in_ms = 2 * 24 * 60 * 60 * 1000

abbrev pub is_whitelisted : Whitelist → Text → Bool
is_whitelisted w name = elim (get name w) [ none ↦ false | some e ↦ true ]

-- The whitelisted names are among the names that the used space sums up.
unfoldable pub effective_used_space : WalletStats → Whitelist → ℕ
effective_used_space stats w =
    stats.used_space - total (λ n. n.size) (filter (λ n. is_whitelisted w n.name) stats.dcl_names)

unfoldable pub is_over_quota : WalletStats → Whitelist → Bool
is_over_quota stats w = ltb stats.max_allowed_space (effective_used_space stats w)

abbrev pub new_block : Date → Text → BlockedRow
new_block now wallet = record { wallet = wallet; created_at = now; updated_at = now }

-- `INSERT … ON CONFLICT (wallet) DO UPDATE`.
unfoldable pub upsert_block : Date → Text → List BlockedRow → List BlockedRow
upsert_block now wallet [] = new_block now wallet ∷ []
upsert_block now wallet (r ∷ rs) =
    if r.wallet == wallet
    then record r { updated_at = now } ∷ rs
    else r ∷ upsert_block now wallet rs

-- The row that is returned, and the event that it asks for.
abbrev pub block_after : Date → Text → Option BlockedRow → BlockedRow
block_after now wallet none = new_block now wallet
block_after now wallet (some r) = record r { updated_at = now }

unfoldable pub block_event : BlockedRow → Message
block_event r =
    if ltb (r.updated_at - r.created_at) two_days_in_ms
    then missing_resources r.wallet r.created_at
    else access_restricted r.wallet r.created_at

-- `Promise.all` of the two services.
abbrev pub evaluate : Services → Text → Exec (WalletStats × Whitelist)
evaluate services wallet = query (get_stats services wallet) >>= λ stats.
    lift stats >>= λ stats. lift services.whitelist >>= λ w. pure (stats, w)

abbrev pub delete_block : Text → List BlockedRow → List BlockedRow
delete_block wallet rows = filter (λ r. not (r.wallet == wallet)) rows

abbrev pub or_else_false : Exec Bool → Exec Bool
or_else_false m s = elim ((m s).0) [ ok b ↦ m s | err e ↦ (ok false, (m s).1) ]

-- Falsy wallets are dropped and the others put in lower case.
unfoldable pub wallets_to_keep : List Text → List Text
wallets_to_keep [] = []
wallets_to_keep (w ∷ ws) = elim (truthy (some w)) [
  | none ↦ wallets_to_keep ws
  | some t ↦ lower_case t ∷ wallets_to_keep ws
]

abbrev pub is_stale : Date → List Text → BlockedRow → Bool
is_stale started keep r = ltb r.updated_at started && not (includes r.wallet keep)

module _ (sns : Bool) where
  abbrev pub publish_messages : List Message → Exec (Unit {0})
  publish_messages ms = if sns then publish ms else throw publication_failed

  unfoldable pub upsert_blocking_record : Date → Text → Exec (Unit {0})
  upsert_blocking_record now wallet =
      query (λ db. block_after now (lower_case wallet) (blocked_row (lower_case wallet) db.blocked))
      >>= λ row.
          update_db (λ db. record db { blocked = upsert_block now (lower_case wallet) db.blocked })
          >> publish_messages (block_event row ∷ [])

  unfoldable pub block_if_over_quota : Services → Date → Text → Exec Bool
  block_if_over_quota services now wallet = evaluate services wallet >>= λ r.
      if is_over_quota r.0 r.1 then upsert_blocking_record now wallet >> pure true else pure false

  -- A failed publication is only logged.
  abbrev pub try_publish : List Message → Exec (Unit {0})
  try_publish ms = if sns then publish ms else pure tt

  abbrev pub unblock_blocked : Services → Text → Date → Exec Bool
  unblock_blocked services wallet created_at = evaluate services wallet >>= λ r.
      if is_over_quota r.0 r.1
      then pure false
      else update_db (λ db. record db { blocked = delete_block (lower_case wallet) db.blocked })
        >> try_publish (access_restored (lower_case wallet) created_at ∷ [])
        >> pure true

  unfoldable pub unblock_if_under_quota : Services → Text → Exec Bool
  unblock_if_under_quota services wallet = or_else_false (
      query (fetch_blocked_status wallet) >>= λ created_at. elim created_at [
        | none ↦ pure false
        | some t ↦ unblock_blocked services wallet t
      ])

  unfoldable pub collect_stale_blocking_records : Date → List Text → Exec (Unit {0})
  collect_stale_blocking_records started keep =
      query (λ db. filter (is_stale started (wallets_to_keep keep)) db.blocked) >>= λ removed.
      update_db (λ db. record db {
        blocked = filter (λ r. not (is_stale started (wallets_to_keep keep) r)) db.blocked;
      })
      >> elim removed [
        | [] ↦ pure tt
        | r ∷ rs ↦ publish_messages (map (λ r. access_restored r.wallet r.created_at) (r ∷ rs))
      ]
