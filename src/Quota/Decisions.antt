-- ===== src/Quota/Decisions.antt =====
-- The two decisions of src/adapters/blocking/component.ts agree: a wallet is blocked when its stats
-- are over its quota, and unblocked when they are not.
use worlds_content_server.Prelude.{
  ℕ, ◌+◌, ◌*◌, ◌<◌, ◌≤◌, ltb, lt→ltb, leb, arith, ◌≡◌, refl, ap, ◌∙◌, Bool, true, false, not, ◌&&◌,
  Option, none, some, List, [], ◌∷◌, ◌==◌, if◌then◌else◌, Bool-cases, Option-cases, inl, inr,
}
use worlds_content_server.Prelude.Eq.{text_eq, text_beq_refl}
use worlds_content_server.Prelude.Lists.{filter, find}
use worlds_content_server.Prelude.Positions.{total}
use worlds_content_server.Prelude.Text.{Text, lower_case}
use worlds_content_server.Prelude.Result.{ok, err}
use worlds_content_server.Errors.{Outcome}
use worlds_content_server.Database.{Date, BlockedRow, Db}
use worlds_content_server.Server.{
  access_restored, update_db, Server, Exec, after, lift, pure, continue, ◌>>=◌, ◌>>◌,
}
use worlds_content_server.Quota.{
  WalletStats, Whitelist, Services, megabyte, is_dcl_name, fetch_stored_data, get_stats,
  blocked_row, fetch_blocked_status,
}
use worlds_content_server.Quota.Blocking.{
  evaluate, unblock_blocked, or_else_false, try_publish, is_over_quota, is_whitelisted,
  effective_used_space, upsert_block, block_after, block_if_over_quota, upsert_blocking_record,
  unblock_if_under_quota, delete_block,
}

blocked_row-upsert_block :
    (now : Date) (wallet : Text) (rows : List BlockedRow)
    → blocked_row wallet (upsert_block now wallet rows)
      ≡ some (block_after now wallet (blocked_row wallet rows))
unfolding upsert_block find
blocked_row-upsert_block now wallet [] = rw text_beq_refl refl
blocked_row-upsert_block now wallet (r ∷ rs) = elim (Bool-cases (r.wallet == wallet)) [
  | inl e ↦ rw (e, e) refl
  | inr e ↦ rw (e, e) (blocked_row-upsert_block now wallet rs)
]

blocked_row-delete_block :
    (wallet : Text) (rows : List BlockedRow) → blocked_row wallet (delete_block wallet rows) ≡ none
unfolding filter find
blocked_row-delete_block wallet [] = refl
blocked_row-delete_block wallet (r ∷ rs) = elim (Bool-cases (r.wallet == wallet)) [
  | inl e ↦ rw e (blocked_row-delete_block wallet rs)
  | inr e ↦ rw (e, e) (blocked_row-delete_block wallet rs)
]

-- A date that is kept, or the new one.
abbrev pub or_now : Date → Option Date → Date
or_now now none = now
or_now now (some t) = t

created_at-block_after :
    (now : Date) (wallet : Text) (o : Option BlockedRow)
    → some ((block_after now wallet o).created_at)
      ≡ some (or_now now (elim o [ none ↦ none | some r ↦ some r.created_at ]))
created_at-block_after now wallet none = refl
created_at-block_after now wallet (some r) = refl

abbrev since : Option BlockedRow → Option Date
since o = elim o [ none ↦ none | some r ↦ some r.created_at ]

abbrev status_of : Text → List BlockedRow → Option Date
status_of wallet rows = since (blocked_row (lower_case wallet) rows)

abbrev evaluated : Outcome WalletStats → Outcome Whitelist → Exec (WalletStats × Whitelist)
evaluated a b = lift a >>= λ stats. lift b >>= λ w. pure (stats, w)

abbrev pub is_blocked : Option Date → Bool
is_blocked none = false
is_blocked (some t) = true

-- What counts against the allowance of a wallet: the sizes of its worlds whose names end in .dcl.eth
-- and are not on the whitelist.
abbrev pub counted_space : Text → Whitelist → Db → ℕ
counted_space wallet w db =
    total (λ n. n.size)
      (filter (λ n. not (is_whitelisted w n.name))
        (filter (λ n. is_dcl_name n.name) (fetch_stored_data wallet db)))

total-filter {ℓ} :
    {A : Type ℓ} (f : A → ℕ) (p : A → Bool) (xs : List A)
    → total f (filter p xs) + total f (filter (λ x. not (p x)) xs) ≡ total f xs
unfolding total filter
total-filter f p [] = omega arith
total-filter f p (x ∷ xs) = elim (Bool-cases (p x)) [
  | inl e ↦ rw e (omega (arith, total-filter f p xs))
  | inr e ↦ rw e (omega (arith, total-filter f p xs))
]

not_above : (a b : ℕ) → b ≤ a → ltb a b ≡ false
not_above a b h = ground arith

not_over : (a b : ℕ) → not (ltb a b) ≡ leb b a
not_over a b = ground arith

abbrev stats_of : Text → Db → ℕ → WalletStats
stats_of wallet db allowance = record {
  wallet = wallet;
  dcl_names = filter (λ n. is_dcl_name n.name) (fetch_stored_data wallet db);
  ens_names = filter (λ n. not (is_dcl_name n.name)) (fetch_stored_data wallet db);
  used_space = total (λ n. n.size) (filter (λ n. is_dcl_name n.name) (fetch_stored_data wallet db));
  max_allowed_space = allowance * megabyte;
  blocked_since = fetch_blocked_status wallet db;
}

get_stats-ok :
    (services : Services) (wallet : Text) (db : Db) (allowance : ℕ)
    → services.space_allowance wallet ≡ ok allowance
    → get_stats services wallet db ≡ ok (stats_of wallet db allowance)
unfolding get_stats
get_stats-ok services wallet db allowance granted = rw granted refl

is_over_quota-counted_space :
    (wallet : Text) (db : Db) (allowance : ℕ) (w : Whitelist)
    → is_over_quota (stats_of wallet db allowance) w
      ≡ ltb (allowance * megabyte) (counted_space wallet w db)
unfolding is_over_quota effective_used_space
is_over_quota-counted_space wallet db allowance w =
    let names = filter (λ n. is_dcl_name n.name) (fetch_stored_data wallet db) in
    ap (λ (n : ℕ). ltb (allowance * megabyte) n)
      (omega (arith, total-filter (λ n. n.size) (λ n. is_whitelisted w n.name) names))

module _ (sns : Bool) (services : Services) (now : Date) (wallet : Text) (s : Server)
    (stats : WalletStats) (w : Whitelist) (known : get_stats services wallet s.db ≡ ok stats)
    (listed : services.whitelist ≡ ok w) where
  evaluate-ok : evaluate services wallet s ≡ (ok (stats, w), s)
  evaluate-ok =
      ap (λ a. evaluated a services.whitelist s) known ∙ ap (λ b. evaluated (ok stats) b s) listed

  block_evaluated :
      block_if_over_quota sns services now wallet s
      ≡ (if is_over_quota stats w
            then upsert_blocking_record sns now wallet >> pure true
            else pure false)
          s
  unfolding block_if_over_quota
  block_evaluated =
      ap
        (λ (r : Outcome (WalletStats × Whitelist) × Server).
          continue r.0
            (λ r.
              if is_over_quota r.0 r.1
              then upsert_blocking_record sns now wallet >> pure true
              else pure false)
            r.1)
        evaluate-ok

  upsert_blocking_record-db :
      (after (upsert_blocking_record sns now wallet >> pure true) s).db.blocked
      ≡ upsert_block now (lower_case wallet) s.db.blocked
  unfolding upsert_blocking_record
  upsert_blocking_record-db = elim (Bool-cases sns) [ inl e ↦ rw e refl | inr e ↦ rw e refl ]

  blocked_since :
      fetch_blocked_status wallet (after (upsert_blocking_record sns now wallet >> pure true) s).db
      ≡ some (or_now now (fetch_blocked_status wallet s.db))
  unfolding fetch_blocked_status
  blocked_since =
      ap (status_of wallet) upsert_blocking_record-db
      ∙ ap since (blocked_row-upsert_block now (lower_case wallet) s.db.blocked)
      ∙ created_at-block_after now (lower_case wallet)
          (blocked_row (lower_case wallet) s.db.blocked)

  upsert_blocking_record-ok :
      sns ≡ true → ((upsert_blocking_record sns now wallet >> pure true) s).0 ≡ ok true
  unfolding upsert_blocking_record
  upsert_blocking_record-ok h = rw h refl

  blocked_when_over :
      is_over_quota stats w ≡ true
      → (fetch_blocked_status wallet (after (block_if_over_quota sns services now wallet) s).db
          ≡ some (or_now now (fetch_blocked_status wallet s.db)))
        × (sns ≡ true → (block_if_over_quota sns services now wallet s).0 ≡ ok true)
  blocked_when_over e =
      rw (after, block_evaluated, e) (blocked_since, λ h. upsert_blocking_record-ok h)

  kept_when_within :
      is_over_quota stats w ≡ false → block_if_over_quota sns services now wallet s ≡ (ok false, s)
  kept_when_within e = block_evaluated ∙ rw e refl

  restored : (t : Date) → Exec Bool
  restored t =
      update_db (λ db. record db { blocked = delete_block (lower_case wallet) db.blocked })
      >> try_publish sns (access_restored (lower_case wallet) t ∷ [])
      >> pure true

  restored-db :
      (t : Date) → (after (restored t) s).db.blocked ≡ delete_block (lower_case wallet) s.db.blocked
  unfolding restored
  restored-db t = elim (Bool-cases sns) [ inl e ↦ rw e refl | inr e ↦ rw e refl ]

  restored-ok : (t : Date) → ((restored t) s).0 ≡ ok true
  unfolding restored
  restored-ok t = elim (Bool-cases sns) [ inl e ↦ rw e refl | inr e ↦ rw e refl ]

  restored-status : (t : Date) → fetch_blocked_status wallet (after (restored t) s).db ≡ none
  unfolding fetch_blocked_status
  restored-status t =
      ap (status_of wallet) (restored-db t)
      ∙ ap since (blocked_row-delete_block (lower_case wallet) s.db.blocked)

  unblock_evaluated :
      (t : Date)
      → unblock_blocked sns services wallet t s
        ≡ (if is_over_quota stats w then pure false else restored t) s
  unfolding restored
  unblock_evaluated t =
      ap
        (λ (r : Outcome (WalletStats × Whitelist) × Server).
          continue r.0 (λ r. if is_over_quota r.0 r.1 then pure false else restored t) r.1)
        evaluate-ok

  caught : Outcome Bool × Server → Outcome Bool × Server
  caught r = elim r.0 [ ok b ↦ r | err e ↦ (ok false, r.1) ]

  rechecked : Option Date → Outcome Bool × Server
  unfolding caught
  rechecked none = (ok false, s)
  rechecked (some t) = caught (unblock_blocked sns services wallet t s)

  unblock_rechecked :
      unblock_if_under_quota sns services wallet s ≡ rechecked (fetch_blocked_status wallet s.db)
  unfolding unblock_if_under_quota rechecked caught
  unblock_rechecked = go (fetch_blocked_status wallet s.db)
    where
      go :
          (o : Option Date)
          → or_else_false
              (elim o [ none ↦ pure false | some t ↦ unblock_blocked sns services wallet t ])
              s
            ≡ rechecked o
      go none = refl
      go (some t) = refl

  over_or_restored :
      (t : Date) (b : Bool)
      → is_over_quota stats w ≡ b
      → rechecked (some t) ≡ (if b then (ok false, s) else (ok true, after (restored t) s))
  unfolding rechecked caught
  over_or_restored t true e = ap caught (unblock_evaluated t) ∙ rw e refl
  over_or_restored t false e = ap caught (unblock_evaluated t) ∙ rw (e, restored-ok t) refl

  unblock_decided :
      ((unblock_if_under_quota sns services wallet s).0
        ≡ ok (is_blocked (fetch_blocked_status wallet s.db) && not (is_over_quota stats w)))
      × (fetch_blocked_status wallet (after (unblock_if_under_quota sns services wallet) s).db
          ≡ (if is_over_quota stats w then fetch_blocked_status wallet s.db else none))
  unfolding rechecked
  unblock_decided = elim (Option-cases (fetch_blocked_status wallet s.db)) [
    | inl q ↦
        rw (after, unblock_rechecked, q)
          (refl, elim (Bool-cases (is_over_quota stats w)) [ inl e ↦ rw e q | inr e ↦ rw e q ])
    | inr (t, q) ↦ elim (Bool-cases (is_over_quota stats w)) [
      | inl e ↦ rw (after, unblock_rechecked, q, over_or_restored t true e, e) (refl, q)
      | inr e ↦
          rw (after, unblock_rechecked, q, over_or_restored t false e, e) (refl, restored-status t)
    ]
  ]

module _ (sns : Bool) (services : Services) (now : Date) (wallet : Text) (s : Server)
    (allowance : ℕ) (w : Whitelist) (granted : services.space_allowance wallet ≡ ok allowance)
    (listed : services.whitelist ≡ ok w) where
  -- When its allowance and the whitelist are known: a wallet whose worlds, those of dcl names that
  -- are not on the whitelist, take more than the allowance in megabytes is blocked afterwards, since
  -- the time at which it was blocked first, and the answer is true if the publication succeeds; for
  -- any other wallet the answer is false and nothing changes.
  pub block_if_over_quota-decides :
      (allowance * megabyte < counted_space wallet w s.db
        → (fetch_blocked_status wallet (after (block_if_over_quota sns services now wallet) s).db
            ≡ some (or_now now (fetch_blocked_status wallet s.db)))
          × (sns ≡ true → (block_if_over_quota sns services now wallet s).0 ≡ ok true))
      × (counted_space wallet w s.db ≤ allowance * megabyte
          → block_if_over_quota sns services now wallet s ≡ (ok false, s))
  block_if_over_quota-decides =
      let stats = stats_of wallet s.db allowance in
      let known = get_stats-ok services wallet s.db allowance granted in
      let over = is_over_quota-counted_space wallet s.db allowance w in
      (
        λ h. blocked_when_over sns services now wallet s stats w known listed (over ∙ lt→ltb _ _ h),
        λ h.
            kept_when_within sns services now wallet s stats w known listed
              (over ∙ not_above _ _ h),
      )

  -- When its allowance and the whitelist are known, the recheck of a wallet answers true exactly when
  -- it was blocked and its worlds, those of dcl names that are not on the whitelist, do not take more
  -- than the allowance in megabytes, also when the publication fails; afterwards it is blocked,
  -- since the same time, if they take more, and otherwise it is not blocked.
  pub unblock_if_under_quota-decides :
      ((unblock_if_under_quota sns services wallet s).0
        ≡ ok (
            is_blocked (fetch_blocked_status wallet s.db)
            && leb (counted_space wallet w s.db) (allowance * megabyte)))
      × (fetch_blocked_status wallet (after (unblock_if_under_quota sns services wallet) s).db ≡ (
          if ltb (allowance * megabyte) (counted_space wallet w s.db)
          then fetch_blocked_status wallet s.db
          else none))
  unblock_if_under_quota-decides =
      let stats = stats_of wallet s.db allowance in
      let (answer, status) =
        unblock_decided sns services now wallet s stats w
          (get_stats-ok services wallet s.db allowance granted) listed in
      let over = is_over_quota-counted_space wallet s.db allowance w in
      (
        answer
            ∙ ap (λ (b : Bool). ok (is_blocked (fetch_blocked_status wallet s.db) && not b)) over
            ∙ ap (λ (b : Bool). ok (is_blocked (fetch_blocked_status wallet s.db) && b))
                (not_over _ _),
        status ∙ ap (λ (b : Bool). if b then fetch_blocked_status wallet s.db else none) over,
      )
