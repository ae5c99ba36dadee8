-- ===== src/AccessSetting.antt =====
-- The access settings of a world: src/logic/access/types.ts and constants.ts.
use worlds_content_server.Prelude.{ℕ, List}
use worlds_content_server.Prelude.Text.{Text}

pub data AccessType : Type 0 where
  unrestricted shared_secret nft_ownership allow_list : AccessType

pub record AllowListAccessSetting : Type 0 where
  pub wallets : List Text
  pub communities : List Text

pub data AccessSetting : Type 0 where
  unrestricted : AccessSetting
  shared_secret : (secret : Text) → AccessSetting
  nft_ownership : (nft : Text) → AccessSetting
  allow_list : AllowListAccessSetting → AccessSetting

-- The `type` field of a setting.
abbrev pub access_type : AccessSetting → AccessType
access_type AccessSetting.unrestricted = AccessType.unrestricted
access_type (AccessSetting.shared_secret s) = AccessType.shared_secret
access_type (AccessSetting.nft_ownership n) = AccessType.nft_ownership
access_type (AccessSetting.allow_list l) = AccessType.allow_list

abbrev pub default_access : AccessSetting
default_access = AccessSetting.unrestricted

abbrev pub default_max_communities : ℕ
default_max_communities = 50

abbrev pub default_max_wallets : ℕ
default_max_wallets = 1000
