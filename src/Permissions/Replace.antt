-- ===== src/Permissions/Replace.antt =====
-- Setting the deployment or streaming wallets of a world (src/logic/permissions/component.ts).
use mathlib.Core.Path.{ap₂}
use worlds_content_server.Prelude.{
  ◌≡◌, refl, ap, ◌∙◌, Bool, true, not, ◌&&◌, ◌||◌, none, List, [], ◌∷◌, map, arith, if◌then◌else◌,
  ◌==◌, Bool-cases, inl, inr,
}
use worlds_content_server.Prelude.Eq.{text_eq, text_beq_refl}
use worlds_content_server.Prelude.Lists.{filter, includes, includes-filter, All}
use worlds_content_server.Prelude.Text.{Text, lower_case, lower_case_idem}
use worlds_content_server.Prelude.Result.{ok}
use worlds_content_server.Errors.{Outcome}
use worlds_content_server.Database.{
  Date, AllowListPermission, permission_eq, PermissionRow, PermissionTables, world_named,
}
use worlds_content_server.Server.{Server, after}
use worlds_content_server.Permissions.Manager.{has_row, for_checking, PermissionRecord}
use worlds_content_server.Permissions.Component.{
  current_addresses, replace_wallets, revoke_permission, grant_world_wide_permission,
}
use worlds_content_server.Permissions.Rows.{has_row-same}
use worlds_content_server.Permissions.Effects.{
  permission_rows, revoke_permission-has_row, revoke_permission_ok,
  grant_world_wide_permission-has_row, grant_world_wide_permission_ok,
}

-- Names and addresses are stored in lower case.
abbrev pub IsLowerRow : PermissionRow → Type 0
IsLowerRow r = (lower_case r.world_name ≡ r.world_name) × (lower_case r.address ≡ r.address)

abbrev pub IsLower : Server → Type 0
IsLower s = All IsLowerRow (permission_rows s)

AllLower : List Text → Type 0
AllLower = All (λ y. lower_case y ≡ y)

lower_filter :
    (keep : Text → Bool) (ys : List Text)
    → AllLower ys
    → map lower_case (filter keep ys) ≡ filter keep ys
unfolding filter AllLower
lower_filter keep [] h = refl
lower_filter keep (y ∷ ys) (k, h) = elim (Bool-cases (keep y)) [
  | inl e ↦ rw e (cc (k, lower_filter keep ys h))
  | inr e ↦ rw e (lower_filter keep ys h)
]

AllLower-map {ℓ} :
    {A : Type ℓ} (f : A → Text) (xs : List A) → AllLower (map (λ x. lower_case (f x)) xs)
unfolding AllLower
AllLower-map f [] = tt
AllLower-map f (x ∷ xs) = (lower_case_idem (f x), AllLower-map f xs)

-- The addresses that are read are those with a row.
current_rows :
    (w : Text) (p : AllowListPermission) (t : PermissionTables) (rows : List PermissionRow)
    (a : Text)
    → All IsLowerRow rows
    → includes a (
        map
          (λ r. lower_case r.address)
          (filter
            (λ r. r.permission_type == p)
            (map (for_checking t) (filter (λ r. r.world_name == w) rows))))
      ≡ has_row w p a rows
unfolding has_row filter includes for_checking
current_rows w p t [] a h = refl
current_rows w p t (r ∷ rows) a (k, h) = ground (arith, current_rows w p t rows a h)

pub current_addresses-includes :
    (w : Text) (p : AllowListPermission) (a : Text) (s : Server)
    → IsLower s
    → includes a (current_addresses w p s.db) ≡ has_row (lower_case w) p a (permission_rows s)
unfolding current_addresses
current_addresses-includes w p a s h =
    current_rows (lower_case w) p s.db.permissions (permission_rows s) a h

module _ (now : Date) (w : Text) (p : AllowListPermission) (ws : List Text) (s : Server) where
  gone : List Text
  gone = filter (λ a. not (includes a (map lower_case ws))) (current_addresses w p s.db)

  fresh : List Text
  fresh = filter (λ a. not (includes a (current_addresses w p s.db))) (map lower_case ws)

  revoked : Server
  revoked = after (revoke_permission (lower_case w) p gone) s

  replace_steps :
      replace_wallets now w p ws s
      ≡ grant_world_wide_permission now (lower_case w) p fresh none revoked
  unfolding replace_wallets gone fresh revoked
  replace_steps = rw (revoke_permission_ok (lower_case w) p gone s).0

  lower_gone : map lower_case gone ≡ gone
  unfolding gone current_addresses
  lower_gone =
      lower_filter _ (current_addresses w p s.db)
        (AllLower-map (λ (r : PermissionRecord). r.address) _)

  lower_fresh : map lower_case fresh ≡ fresh
  unfolding fresh
  lower_fresh = lower_filter _ (map lower_case ws) (AllLower-map (λ a. a) ws)

  revoked-named :
      world_named (lower_case w) s.db.worlds ≡ true
      → world_named (lower_case (lower_case w)) revoked.db.worlds ≡ true
  unfolding revoked
  revoked-named named =
      ap₂ world_named (lower_case_idem w) (revoke_permission_ok (lower_case w) p gone s).1 ∙ named

  pub replace_wallets_ok :
      world_named (lower_case w) s.db.worlds ≡ true → (replace_wallets now w p ws s).0 ≡ ok tt
  replace_wallets_ok named =
      ap (λ (r : Outcome (Unit {0}) × Server). r.0) replace_steps
      ∙ grant_world_wide_permission_ok now (lower_case w) p fresh revoked (revoked-named named)

  module _ (w' : Text) (p' : AllowListPermission) (a' : Text) where
    revoked-has_row : has_row w' p' a' (permission_rows revoked) ≡ (
        has_row w' p' a' (permission_rows s)
        && not (lower_case w == w' && p == p' && includes a' gone))
    unfolding revoked
    revoked-has_row =
        revoke_permission-has_row w' p' a' (lower_case w) p gone s
        ∙ ap₂
            (λ (u : Text) (g : List Text).
              has_row w' p' a' (permission_rows s) && not (u == w' && p == p' && includes a' g))
            (lower_case_idem w) lower_gone

    granted-has_row :
        world_named (lower_case w) s.db.worlds ≡ true
        → has_row w' p' a' (permission_rows (after (replace_wallets now w p ws) s)) ≡ (
            has_row w' p' a' (permission_rows revoked)
            || (lower_case w == w' && p == p' && includes a' fresh))
    granted-has_row named =
        ap (λ (r : Outcome (Unit {0}) × Server). has_row w' p' a' (permission_rows r.1))
          replace_steps
        ∙ grant_world_wide_permission-has_row w' p' a' now (lower_case w) p fresh revoked
            (revoked-named named)
        ∙ ap₂
            (λ (u : Text) (g : List Text).
              has_row w' p' a' (permission_rows revoked) || (u == w' && p == p' && includes a' g))
            (lower_case_idem w) lower_fresh

    gone-includes :
        includes a' gone
        ≡ (includes a' (current_addresses w p s.db) && not (includes a' (map lower_case ws)))
    unfolding gone
    gone-includes =
        includes-filter a' (λ a. not (includes a (map lower_case ws))) (current_addresses w p s.db)

    fresh-includes :
        includes a' fresh
        ≡ (includes a' (map lower_case ws) && not (includes a' (current_addresses w p s.db)))
    unfolding fresh
    fresh-includes =
        includes-filter a' (λ a. not (includes a (current_addresses w p s.db))) (map lower_case ws)

    -- The permission's addresses are the given wallets, and other keys keep their rows.
    pub replace_wallets-has_row :
        world_named (lower_case w) s.db.worlds ≡ true
        → IsLower s
        → has_row w' p' a' (permission_rows (after (replace_wallets now w p ws) s)) ≡ (
            if lower_case w == w' && p == p'
            then includes a' (map lower_case ws)
            else has_row w' p' a' (permission_rows s))
    replace_wallets-has_row named lower = ground (
      arith,
      granted-has_row named,
      revoked-has_row,
      gone-includes,
      fresh-includes,
      current_addresses-includes w p a' s lower,
      has_row-same w' p' a' (lower_case w) p a' (permission_rows s),
      text_beq_refl a',
    )
