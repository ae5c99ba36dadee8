-- ===== src/Access/Effects.antt =====
-- What a change of an allow list does to the check of access (src/logic/access/component.ts with
-- src/logic/access-checker/component.ts).
use mathlib.Core.Path.{subst}
use worlds_content_server.Prelude.{
  ℕ, ◌≡◌, refl, ap, ◌∙◌, true, false, not, ◌||◌, Option, none, some, List, [], ◌∷◌, ◌++◌, map, ◌==◌,
  arith, Bool-cases, inl, inr, ltb,
}
use worlds_content_server.Prelude.Eq.{text_eq, text_beq_refl}
use worlds_content_server.Prelude.Lists.{length, filter, any, any-append, any-filter, includes}
use worlds_content_server.Prelude.Text.{Text, lower_case, lower_case_idem}
use worlds_content_server.Prelude.Result.{ok, ok_inj}
use worlds_content_server.AccessSetting.{AllowListAccessSetting, AccessSetting}
use worlds_content_server.Access.{add_wallet, remove_wallet}
use worlds_content_server.Access.Checker.{
  Externals, check_communities, check_allow_list, check_setting,
}

includes-map :
    (x : Text) (ws : List Text) → includes x (map lower_case ws) ≡ any (λ w. lower_case w == x) ws
unfolding includes any
includes-map x [] = refl
includes-map x (w ∷ ws) = ap (λ b. lower_case w == x || b) (includes-map x ws)

-- The setting after a modifier.
unfoldable pub result_of : AccessSetting → Option AccessSetting → AccessSetting
result_of a none = a
result_of a (some b) = b

-- A wallet that was added, or was there already, passes the check under any case of its letters.
pub add_wallet-check :
    (ext : Externals) (max : ℕ) (wallet address : Text) (extras : Option Text)
    (l : AllowListAccessSetting) (o : Option AccessSetting)
    → add_wallet max wallet (AccessSetting.allow_list l) ≡ ok o
    → lower_case address ≡ lower_case wallet
    → check_setting ext (result_of (AccessSetting.allow_list l) o) address extras ≡ ok true
unfolding add_wallet result_of check_setting check_allow_list any
add_wallet-check ext max wallet address extras l o h same =
    elim (Bool-cases (any (λ w. lower_case w == lower_case wallet) l.wallets)) [
      | inl e ↦
          subst
            (λ (p : Option AccessSetting).
              check_setting ext (result_of (AccessSetting.allow_list l) p) address extras ≡ ok true)
            (ok_inj (rw e at h))
            (passes l (includes-map (lower_case address) l.wallets ∙ rw same e))
      | inr e ↦ elim (Bool-cases (ltb max (length (l.wallets ++ lower_case wallet ∷ [])))) [
        | inl full ↦ cc (rw (e, full) at h)
        | inr free ↦
            subst
              (λ (p : Option AccessSetting).
                check_setting ext (result_of (AccessSetting.allow_list l) p) address extras
                ≡ ok true)
              (ok_inj (rw (e, free) at h))
              (passes (record l { wallets = l.wallets ++ lower_case wallet ∷ [] }) held)
      ]
    ]
  where
    passes :
        (m : AllowListAccessSetting)
        → includes (lower_case address) (map lower_case m.wallets) ≡ true
        → check_setting ext (AccessSetting.allow_list m) address extras ≡ ok true
    passes m e = rw e refl

    held :
        includes (lower_case address) (map lower_case (l.wallets ++ lower_case wallet ∷ [])) ≡ true
    held =
        includes-map (lower_case address) (l.wallets ++ lower_case wallet ∷ [])
        ∙ any-append (λ w. lower_case w == lower_case address) l.wallets (lower_case wallet ∷ [])
        ∙ rw (lower_case_idem, same, text_beq_refl) (ground arith)

-- A wallet that was removed passes the check, under any case of its letters, through a community only.
pub remove_wallet-check :
    (ext : Externals) (wallet address : Text) (extras : Option Text) (l : AllowListAccessSetting)
    (o : Option AccessSetting)
    → remove_wallet wallet (AccessSetting.allow_list l) ≡ ok o
    → lower_case address ≡ lower_case wallet
    → check_setting ext (result_of (AccessSetting.allow_list l) o) address extras
      ≡ check_communities ext l.communities address
unfolding remove_wallet result_of check_setting check_allow_list
remove_wallet-check ext wallet address extras l o h same =
    subst
      (λ (p : Option AccessSetting).
        check_setting ext (result_of (AccessSetting.allow_list l) p) address extras
        ≡ check_communities ext l.communities address)
      (ok_inj h) (rw gone refl)
  where
    left : List Text
    left = filter (λ w. not (lower_case w == lower_case wallet)) l.wallets

    gone : includes (lower_case address) (map lower_case left) ≡ false
    gone =
        includes-map (lower_case address) left
        ∙ any-filter (λ w. not (lower_case w == lower_case wallet))
            (λ w. lower_case w == lower_case address) false l.wallets (λ w e. ap not (rw same at e))
        ∙ ground arith
