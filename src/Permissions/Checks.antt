-- ===== src/Permissions/Checks.antt =====
-- The checks of src/logic/permissions/component.ts against the meaning of the tables.
use mathlib.Core.List.{Memᴰ}
use worlds_content_server.Prelude.{
  ℕ, ◌≡◌, refl, sym, ap, ◌∙◌, Bool, true, false, ◌||◌, ◌&&◌, Option, none, some, List, [], ◌∷◌, map,
  arith, if◌then◌else◌, ◌==◌, Bool-cases, Option-cases, inl, inr, ◌↔◌, ◌⊎◌,
}
use worlds_content_server.Prelude.Eq.{nat_eq, text_eq, text_beq_iff}
use worlds_content_server.Prelude.Lists.{length, filter, find, All, List-cases, mem_of_mem_map}
use worlds_content_server.Prelude.Filter.{mem_of_find, mem_of_filter}
use worlds_content_server.Prelude.Text.{Text, lower_case}
use worlds_content_server.Coordinates.{canonicalize_parcels}
use worlds_content_server.Database.{
  AllowListPermission, permission_eq, PermissionRow, PermissionTables, Db,
}
use worlds_content_server.Permissions.Manager.{
  is_for, PermissionRecord, for_checking, get_world_permission_records, get_address_permissions,
  parcels_of,
}
use worlds_content_server.Permissions.Component.{
  find_record, record_is_world_wide, record_allows, has_world_wide_permission,
  has_permission_for_parcels,
}
use worlds_content_server.Permissions.Replace.{IsLowerRow}
use worlds_content_server.Permissions.Counting.{
  distinct, included, count_in, count_in-eq-length_iff,
}

no_parcels : (ps : List Text) → (length ps == 0) ≡ true → ps ≡ []
no_parcels [] h = refl
no_parcels (p ∷ ps) h = absurd (ground (arith, h))

found_row :
    (w : Text) (p : AllowListPermission) (a : Text) (db : Db) (r : PermissionRow)
    → Memᴰ r db.permissions.rows
    → r.world_name ≡ lower_case w
    → ((for_checking db.permissions r).permission_type == p
        && lower_case (for_checking db.permissions r).address == lower_case a)
      ≡ true
    → (for_checking db.permissions r).is_world_wide ≡ true
    → (r : PermissionRow) × Memᴰ r db.permissions.rows
      × (r.world_name ≡ lower_case w)
      × (r.permission_type ≡ p)
      × (lower_case r.address ≡ lower_case a)
      × (parcels_of r.id db.permissions ≡ [])
unfolding for_checking
found_row w p a db r m named test wide = (
  r,
  m,
  named,
  (permission_eq.agrees r.permission_type p).0 (ground (arith, test)),
  (text_beq_iff (lower_case r.address) (lower_case a)).0 (ground (arith, test)),
  no_parcels (parcels_of r.id db.permissions) wide,
)

-- A world-wide permission that is found is a row without parcels.
pub has_world_wide_permission-row :
    (w : Text) (p : AllowListPermission) (a : Text) (db : Db)
    → has_world_wide_permission w p a db ≡ true
    → (r : PermissionRow) × Memᴰ r db.permissions.rows
      × (r.world_name ≡ lower_case w)
      × (r.permission_type ≡ p)
      × (lower_case r.address ≡ lower_case a)
      × (parcels_of r.id db.permissions ≡ [])
unfolding has_world_wide_permission find_record get_world_permission_records record_is_world_wide
has_world_wide_permission-row w p a db h =
    let test =
      λ (r : PermissionRecord). r.permission_type == p && lower_case r.address == lower_case a in
    let records = get_world_permission_records w db in
    elim (Option-cases (find test records)) [
      | inl e ↦ cc (sym (ap record_is_world_wide e) ∙ h)
      | inr (c, e) ↦
          let (m, passed) = mem_of_find test records e in
          let (r, k, same) = mem_of_mem_map (for_checking db.permissions) _ m in
          let (inside, named) =
            mem_of_filter (λ r. r.world_name == lower_case w) db.permissions.rows k in
          let wide = sym (ap record_is_world_wide e) ∙ h in
          found_row w p a db r inside ((text_beq_iff r.world_name (lower_case w)).0 named)
            (ap test same ∙ passed) (ap (λ (r : PermissionRecord). r.is_world_wide) same ∙ wide)
    ]

record_of : PermissionTables → Option PermissionRow → Option PermissionRecord
record_of t none = none
record_of t (some r) = some (for_checking t r)

find_record-rows :
    (w : Text) (p : AllowListPermission) (a : Text) (t : PermissionTables)
    (rows : List PermissionRow)
    → All IsLowerRow rows
    → find_record p a (map (for_checking t) (filter (λ r. r.world_name == w) rows))
      ≡ record_of t (find (is_for w p (lower_case a)) rows)
unfolding find_record find filter is_for record_of for_checking
find_record-rows w p a t [] h = refl
find_record-rows w p a t (r ∷ rows) (k, h) = ground (arith, find_record-rows w p a t rows h)

-- The key (permission_id, parcel) of the parcels' table.
abbrev pub IsKeyed : PermissionTables → Type 0
IsKeyed t = (id : ℕ) → distinct (parcels_of id t) ≡ true

-- What a row allows: everything if it has no parcels, else the lists of distinct parcels of its own.
abbrev pub Allows : PermissionTables → List Text → Option PermissionRow → Type 0
Allows t ps none = ⊥
Allows t ps (some r) =
    (parcels_of r.id t ≡ []) ⊎ ((distinct ps ≡ true) × (included ps (parcels_of r.id t) ≡ true))

-- What the checks compute from the address's row.
unfoldable pub world_wide_row : PermissionTables → Option PermissionRow → Bool
world_wide_row t none = false
world_wide_row t (some r) = length (parcels_of r.id t) == 0

check_row : PermissionTables → List Text → Option PermissionRow → Bool
check_row t ps none = false
check_row t ps (some r) =
    length (parcels_of r.id t) == 0 || count_in ps (parcels_of r.id t) == length ps

module _ (w : Text) (p : AllowListPermission) (a : Text) (db : Db)
    (lower : All IsLowerRow db.permissions.rows) where
  found :
      find_record p a (get_world_permission_records w db)
      ≡ record_of db.permissions (get_address_permissions w p a db)
  unfolding get_world_permission_records get_address_permissions
  found = find_record-rows (lower_case w) p a db.permissions db.permissions.rows lower

  world_wide-record_of :
      (o : Option PermissionRow)
      → record_is_world_wide (record_of db.permissions o) ≡ world_wide_row db.permissions o
  unfolding record_is_world_wide record_of for_checking world_wide_row
  world_wide-record_of none = refl
  world_wide-record_of (some r) = refl

  allows-record_of :
      (o : Option PermissionRow) (ps : List Text)
      → (if record_is_world_wide (record_of db.permissions o)
          then true
          else record_allows (record_of db.permissions o) ps db)
        ≡ check_row db.permissions (canonicalize_parcels ps) o
  unfolding record_is_world_wide record_allows record_of for_checking check_row count_in
  allows-record_of none ps = refl
  allows-record_of (some r) ps = ground arith

  -- When names and addresses are stored in lower case, the world-wide check is true exactly when the
  -- address has a row with no parcels.
  pub has_world_wide_permission_row :
      has_world_wide_permission w p a db
      ≡ world_wide_row db.permissions (get_address_permissions w p a db)
  unfolding has_world_wide_permission
  has_world_wide_permission_row =
      ap record_is_world_wide found ∙ world_wide-record_of (get_address_permissions w p a db)

  has_permission_for_parcels_row :
      (ps : List Text)
      → has_permission_for_parcels w p a ps db
        ≡ check_row db.permissions (canonicalize_parcels ps) (get_address_permissions w p a db)
  unfolding has_permission_for_parcels has_world_wide_permission
  has_permission_for_parcels_row ps =
      ap (λ o. if record_is_world_wide o then true else record_allows o ps db) found
      ∙ allows-record_of (get_address_permissions w p a db) ps

  check_row_iff :
      IsKeyed db.permissions
      → (ps : List Text) (o : Option PermissionRow)
      → (check_row db.permissions ps o ≡ true) ↔ Allows db.permissions ps o
  unfolding check_row
  check_row_iff keyed ps none = (λ h. cc, λ h. absurd h)
  check_row_iff keyed ps (some r) =
      let held = parcels_of r.id db.permissions in
      let (full, counted) = count_in-eq-length_iff held (keyed r.id) ps in
      (
        λ h. elim (List-cases held) [
          | inl e ↦ inl e
          | inr (x, rest, e) ↦ inr (full (ground (arith, ap length e)))
        ],
        λ k. elim k [ inl e ↦ ground (arith, ap length e) | inr q ↦ ground (arith, counted q) ],
      )

  -- When names and addresses are stored in lower case and no row has a parcel twice, the check for
  -- parcels is true exactly when the address has a row that has no parcels, or the canonical forms of
  -- the parcels are distinct and all among the row's.
  pub has_permission_for_parcels_iff :
      (ps : List Text)
      → IsKeyed db.permissions
      → (has_permission_for_parcels w p a ps db ≡ true)
        ↔ Allows db.permissions (canonicalize_parcels ps) (get_address_permissions w p a db)
  has_permission_for_parcels_iff ps keyed =
      rw (has_permission_for_parcels_row ps)
        (check_row_iff keyed (canonicalize_parcels ps) (get_address_permissions w p a db))

restricted-distinct :
    (t : PermissionTables) (ps : List Text) (o : Option PermissionRow)
    → world_wide_row t o ≡ false
    → Allows t ps o
    → distinct ps ≡ true
unfolding world_wide_row
restricted-distinct t ps none h k = absurd k
restricted-distinct t ps (some r) h (inl e) = ground (arith, ap length e)
restricted-distinct t ps (some r) h (inr q) = q.0

-- When names and addresses are stored in lower case and no row has a parcel twice, parcels of which
-- two have one canonical form are refused to an address that is not world-wide, whatever it was
-- granted.
pub has_permission_for_parcels-repeated :
    (w : Text) (p : AllowListPermission) (a : Text) (db : Db) (ps : List Text)
    → All IsLowerRow db.permissions.rows
    → IsKeyed db.permissions
    → has_world_wide_permission w p a db ≡ false
    → distinct (canonicalize_parcels ps) ≡ false
    → has_permission_for_parcels w p a ps db ≡ false
has_permission_for_parcels-repeated w p a db ps lower keyed restricted repeated =
    let row = get_address_permissions w p a db in
    elim (Bool-cases (has_permission_for_parcels w p a ps db)) [
      | inl granted ↦
          let allowed = (has_permission_for_parcels_iff w p a db lower ps keyed).0 granted in
          let narrow = sym (has_world_wide_permission_row w p a db lower) ∙ restricted in
          cc (
            repeated,
            restricted-distinct db.permissions (canonicalize_parcels ps) row narrow allowed,
          )
      | inr refused ↦ refused
    ]
