-- ===== src/Access/Bounds.antt =====
-- The allow lists stay within the configured sizes (src/logic/access/component.ts).
use mathlib.Core.Path.{subst}
use worlds_content_server.Prelude.{
  ◌≤◌, ◌≡◌, not, Option, none, some, List, [], ◌∷◌, ◌++◌, ◌==◌, arith, Bool-cases, inl, inr,
  some_inj, ltb, leb,
}
use worlds_content_server.Prelude.Eq.{text_eq}
use worlds_content_server.Prelude.Lists.{
  All, length, any, includes, length-append, length-filter_le,
}
use worlds_content_server.Prelude.Text.{Text, lower_case}
use worlds_content_server.Prelude.Result.{ok, err, ok_inj}
use worlds_content_server.Errors.{Outcome}
use worlds_content_server.Entities.{truthy}
use worlds_content_server.AccessSetting.{AccessType, AccessSetting}
use worlds_content_server.Database.{Db}
use worlds_content_server.Access.{
  AccessInput, AccessConfig, RequestedType, known, other, or_empty, check_membership, allow_list_of,
  make_allow_list, make_setting, make_nft, make_secret, Modifier, add_wallet, remove_wallet,
  add_community, remove_community,
}

module _ (config : AccessConfig) where
  -- An allow list within both limits; the other settings have none.
  abbrev pub IsBounded : AccessSetting → Type 0
  IsBounded AccessSetting.unrestricted = Unit
  IsBounded (AccessSetting.shared_secret s) = Unit
  IsBounded (AccessSetting.nft_ownership n) = Unit
  IsBounded (AccessSetting.allow_list l) =
      (length l.wallets ≤ config.max_wallets) × (length l.communities ≤ config.max_communities)

  abbrev pub HasBounded : Option AccessSetting → Type 0
  HasBounded none = Unit
  HasBounded (some a) = IsBounded a

  abbrev pub AllBounded : Db → Type 0
  AllBounded db = All (λ w. HasBounded w.access) db.worlds

  make_allow_list-IsBounded :
      (signer : Text) (wallets communities : List Text) (a : AccessSetting)
      → make_allow_list config signer wallets communities ≡ ok a
      → IsBounded a
  unfolding make_allow_list
  make_allow_list-IsBounded signer wallets communities a h =
      elim (Bool-cases (ltb config.max_communities (length communities))) [
        | inl e ↦ cc (rw e at h)
        | inr few ↦ elim (Bool-cases (ltb config.max_wallets (length wallets))) [
          | inl e ↦ cc (rw (few, e) at h)
          | inr e ↦
              subst IsBounded
                (made (check_membership config.ext signer communities) (rw (few, e) at h))
                (ground arith, ground arith)
        ]
      ]
    where
      made :
          (o : Outcome (Unit {0}))
          → allow_list_of wallets communities o ≡ ok a
          → AccessSetting.allow_list (record { wallets = wallets; communities = communities }) ≡ a
      made (err e) h = cc
      made (ok u) h = ok_inj h

  pub make_setting-IsBounded :
      (signer : Text) (input : AccessInput) (t : RequestedType) (a : AccessSetting)
      → make_setting config signer input t ≡ ok a
      → IsBounded a
  unfolding make_setting make_nft make_secret
  make_setting-IsBounded signer input (known AccessType.unrestricted) a h =
      subst IsBounded (ok_inj h) tt
  make_setting-IsBounded signer input (known AccessType.shared_secret) a h =
      go (truthy input.secret) h
    where
      go : (o : Option Text) → make_secret config.ext o ≡ ok a → IsBounded a
      go none h = cc
      go (some s) h = subst IsBounded (ok_inj h) tt
  make_setting-IsBounded signer input (known AccessType.nft_ownership) a h = go (truthy input.nft) h
    where
      go : (o : Option Text) → make_nft o ≡ ok a → IsBounded a
      go none h = cc
      go (some s) h = subst IsBounded (ok_inj h) tt
  make_setting-IsBounded signer input (known AccessType.allow_list) a h =
      make_allow_list-IsBounded signer (or_empty input.wallets) (or_empty input.communities) a h
  make_setting-IsBounded signer input (other t) a h = cc

  -- A modifier keeps the limits.
  abbrev pub Keeps : Modifier → Type 0
  Keeps f = (a b : AccessSetting) → f a ≡ ok (some b) → IsBounded a → IsBounded b

  changed :
      {a b : AccessSetting}
      → ◌≡◌ {A = Outcome (Option AccessSetting)} (ok (some a)) (ok (some b))
      → a ≡ b
  changed h = some_inj (ok_inj h)

  pub add_wallet-Keeps : (wallet : Text) → Keeps (add_wallet config.max_wallets wallet)
  unfolding add_wallet
  add_wallet-Keeps wallet (AccessSetting.allow_list l) b h k =
      elim (Bool-cases (any (λ w. lower_case w == lower_case wallet) l.wallets)) [
        | inl e ↦ cc (rw e at h)
        | inr e ↦
            elim (Bool-cases
              (ltb config.max_wallets (length (l.wallets ++ lower_case wallet ∷ [])))) [
                | inl full ↦ cc (rw (e, full) at h)
                | inr free ↦ subst IsBounded (changed (rw (e, free) at h)) (ground arith, k.1)
              ]
      ]
  add_wallet-Keeps wallet AccessSetting.unrestricted b h k = cc
  add_wallet-Keeps wallet (AccessSetting.shared_secret s) b h k = cc
  add_wallet-Keeps wallet (AccessSetting.nft_ownership n) b h k = cc

  pub add_community-Keeps :
      (community : Text) → Keeps (add_community config.max_communities community)
  unfolding add_community
  add_community-Keeps community (AccessSetting.allow_list l) b h k =
      elim (Bool-cases (includes community l.communities)) [
        | inl e ↦ cc (rw e at h)
        | inr e ↦ elim (Bool-cases (leb config.max_communities (length l.communities))) [
          | inl full ↦ cc (rw (e, full) at h)
          | inr free ↦
              subst IsBounded (changed (rw (e, free) at h))
                (k.0, ground (arith, length-append l.communities (community ∷ [])))
        ]
      ]
  add_community-Keeps community AccessSetting.unrestricted b h k = cc
  add_community-Keeps community (AccessSetting.shared_secret s) b h k = cc
  add_community-Keeps community (AccessSetting.nft_ownership n) b h k = cc

  pub remove_wallet-Keeps : (wallet : Text) → Keeps (remove_wallet wallet)
  unfolding remove_wallet
  remove_wallet-Keeps wallet (AccessSetting.allow_list l) b h k = subst IsBounded (changed h) (
    omega (arith, k.0, length-filter_le (λ w. not (lower_case w == lower_case wallet)) l.wallets),
    k.1,
  )
  remove_wallet-Keeps wallet AccessSetting.unrestricted b h k = cc
  remove_wallet-Keeps wallet (AccessSetting.shared_secret s) b h k = cc
  remove_wallet-Keeps wallet (AccessSetting.nft_ownership n) b h k = cc

  pub remove_community-Keeps : (community : Text) → Keeps (remove_community community)
  unfolding remove_community
  remove_community-Keeps community (AccessSetting.allow_list l) b h k =
      subst IsBounded (changed h)
        (k.0, omega (arith, k.1, length-filter_le (λ id. not (id == community)) l.communities))
  remove_community-Keeps community AccessSetting.unrestricted b h k = cc
  remove_community-Keeps community (AccessSetting.shared_secret s) b h k = cc
  remove_community-Keeps community (AccessSetting.nft_ownership n) b h k = cc
