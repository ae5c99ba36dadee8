-- ===== src/Permissions/Tests.antt =====
-- The permissions of src/logic/permissions/component.ts on small tables.
use worlds_content_server.Prelude.Double.{round_ℤ}
use worlds_content_server.Prelude.{
  ◌≡◌, refl, ◌↔◌, true, false, ◌&&◌, some, List, [], ◌∷◌, map, if◌then◌else◌, ◌==◌, Bool-cases, inl,
  inr,
}
use worlds_content_server.Prelude.Eq.{text_eq, nat_eq, text_beq}
use worlds_content_server.Prelude.Lists.{includes, find, filter}
use worlds_content_server.Prelude.Text.{Text, codes, lower_case}
use worlds_content_server.Prelude.Result.{ok}
use worlds_content_server.Prelude.Number.{
  parse_int, decimal, skip_spaces, take_digits, drop_digits, digits_value, number_text, is_space,
  is_digit,
}
use worlds_content_server.Coordinates.{canonicalize_parcels, canonicalize_parcel, parcel_match}
use worlds_content_server.Database.{AllowListPermission, deployment, streaming, permission_eq}
use worlds_content_server.Server.{Server, after}
use worlds_content_server.Fixtures.{world, owner, permission_row, tables, server_of, sample_db}
use worlds_content_server.Permissions.Manager.{has_row, get_address_permissions, parcels_of, is_for}
use worlds_content_server.Permissions.Component.{
  allow_list, set_deployment_permission, set_streaming_permission, has_world_wide_permission,
  has_permission_for_parcels, remove_parcels_from_permission,
}
use worlds_content_server.Permissions.Effects.{permission_rows}
use worlds_content_server.Permissions.Replace.{IsLowerRow}
use worlds_content_server.Permissions.Setting.{
  set_deployment_permission-wallets, set_streaming_permission-wallets,
}
use worlds_content_server.Permissions.Counting.{included, distinct}
use worlds_content_server.Permissions.Checks.{
  IsKeyed, Allows, world_wide_row, has_world_wide_permission_row, has_permission_for_parcels_iff,
  has_permission_for_parcels-repeated,
}
use worlds_content_server.Permissions.Parcels.{remove_parcels_from_permission-world_wide}

abbrev sample : Server
sample = server_of sample_db

abbrev wallets : List Text
wallets = codes "0xC" ∷ codes "0xb" ∷ []

lower_row : IsLowerRow permission_row
unfolding lower_case
lower_row = (refl, refl)

set_deployment_permission-wallets_example :
    ((set_deployment_permission 5 world owner allow_list wallets sample).0 ≡ ok tt)
    × ((w' : Text) (p' : AllowListPermission) (a' : Text)
        → has_row w' p' a' (
            permission_rows
              (after (set_deployment_permission 5 world owner allow_list wallets) sample))
          ≡ (if lower_case world == w' && deployment == p'
              then includes a' (map lower_case wallets)
              else has_row w' p' a' (permission_rows sample)))
set_deployment_permission-wallets_example =
    set_deployment_permission-wallets 5 world owner sample wallets (lower_row, tt)

set_streaming_permission-wallets_example :
    ((set_streaming_permission 5 world owner allow_list (some wallets) sample).0 ≡ ok tt)
    × ((w' : Text) (p' : AllowListPermission) (a' : Text)
        → has_row w' p' a' (
            permission_rows
              (after (set_streaming_permission 5 world owner allow_list (some wallets)) sample))
          ≡ (if lower_case world == w' && streaming == p'
              then includes a' (map lower_case wallets)
              else has_row w' p' a' (permission_rows sample)))
set_streaming_permission-wallets_example =
    set_streaming_permission-wallets 5 world owner sample wallets (lower_row, tt)

has_world_wide_permission_row_example :
    has_world_wide_permission world deployment (codes "0xB") sample_db
    ≡ world_wide_row tables (get_address_permissions world deployment (codes "0xB") sample_db)
has_world_wide_permission_row_example =
    has_world_wide_permission_row world deployment (codes "0xB") sample_db (lower_row, tt)

keyed : IsKeyed tables
unfolding parcels_of filter distinct includes text_beq
keyed id = elim (Bool-cases (0 == id)) [ inl e ↦ rw e refl | inr e ↦ rw e refl ]

abbrev two : List Text
two = codes "0,0" ∷ codes " 0,01" ∷ []

has_permission_for_parcels_iff_example :
    (has_permission_for_parcels world deployment (codes "0xb") two sample_db ≡ true)
    ↔ Allows tables
        (canonicalize_parcels two)
        (get_address_permissions world deployment (codes "0xb") sample_db)
has_permission_for_parcels_iff_example =
    has_permission_for_parcels_iff world deployment (codes "0xb") sample_db (lower_row, tt) two
      keyed

abbrev twice : List Text
twice = codes "0,0" ∷ codes " 0,00" ∷ []

restricted : has_world_wide_permission world deployment (codes "0xb") sample_db ≡ false
unfolding has_world_wide_permission lower_case text_beq find filter parcels_of
restricted = refl

repeated : distinct (canonicalize_parcels twice) ≡ false
unfolding distinct includes text_beq canonicalize_parcels canonicalize_parcel parcel_match parse_int
    round_ℤ decimal skip_spaces take_digits drop_digits digits_value number_text is_space is_digit
repeated = refl

-- Both texts name a parcel that the address may deploy on.
has_permission_for_parcels-repeated_example :
    has_permission_for_parcels world deployment (codes "0xb") twice sample_db ≡ false
has_permission_for_parcels-repeated_example =
    has_permission_for_parcels-repeated world deployment (codes "0xb") sample_db twice
      (lower_row, tt) keyed restricted repeated

held : get_address_permissions world deployment (codes "0xb") sample_db ≡ some permission_row
unfolding get_address_permissions is_for find lower_case text_beq
held = refl

-- The address loses its two parcels.
remove_parcels_from_permission-world_wide_example :
    ((remove_parcels_from_permission 5 world deployment
        (codes "0xb")
        (codes "0,0" ∷ codes "0,1" ∷ [])
        sample).0
      ≡ ok tt)
    × (has_world_wide_permission world deployment
          (codes "0xb")
          (after
            (remove_parcels_from_permission 5 world deployment
              (codes "0xb")
              (codes "0,0" ∷ codes "0,1" ∷ []))
            sample).db
        ≡ included (parcels_of 0 tables) (canonicalize_parcels (codes "0,0" ∷ codes "0,1" ∷ [])))
remove_parcels_from_permission-world_wide_example =
    remove_parcels_from_permission-world_wide 5 world deployment (codes "0xb") (codes "0,0")
      (codes "0,1" ∷ []) sample permission_row (lower_row, tt) held
