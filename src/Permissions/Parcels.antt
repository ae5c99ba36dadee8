-- ===== src/Permissions/Parcels.antt =====
-- Adding parcels to a permission and removing them (src/adapters/permissions-manager.ts and
-- src/logic/permissions/component.ts).
use worlds_content_server.Prelude.{
  ℕ, ◌≡◌, refl, ap, ◌∙◌, not, ◌&&◌, Option, none, some, List, [], ◌∷◌, map, arith, if◌then◌else◌,
  ◌==◌,
}
use worlds_content_server.Prelude.Eq.{nat_eq, text_eq}
use worlds_content_server.Prelude.Lists.{length, filter, find, includes, All}
use worlds_content_server.Prelude.Text.{Text, lower_case}
use worlds_content_server.Prelude.Result.{ok}
use worlds_content_server.Errors.{Outcome}
use worlds_content_server.Coordinates.{canonicalize_parcels}
use worlds_content_server.Database.{
  Date, AllowListPermission, permission_eq, PermissionRow, PermissionParcelRow, PermissionTables,
  Db,
}
use worlds_content_server.Server.{Server, after}
use worlds_content_server.Permissions.Manager.{
  is_for, get_address_permissions, parcels_of, delete_parcels, touch,
}
use worlds_content_server.Permissions.Component.{
  has_world_wide_permission, remove_parcels_from_permission,
}
use worlds_content_server.Permissions.Counting.{included}
use worlds_content_server.Permissions.Replace.{IsLowerRow}
use worlds_content_server.Permissions.Checks.{world_wide_row, has_world_wide_permission_row}

parcels-delete :
    (id : ℕ) (qs : List Text) (rows : List PermissionParcelRow)
    → map
        (λ r. r.parcel)
        (filter
          (λ r. r.permission_id == id)
          (filter (λ r. not (r.permission_id == id && includes r.parcel qs)) rows))
      ≡ filter
          (λ q. not (includes q qs))
          (map (λ r. r.parcel) (filter (λ r. r.permission_id == id) rows))
unfolding filter
parcels-delete id qs [] = refl
parcels-delete id qs (r ∷ rows) = ground (arith, parcels-delete id qs rows)

parcels_of-delete_parcels :
    (id : ℕ) (qs : List Text) (t : PermissionTables)
    → parcels_of id (delete_parcels id qs t) ≡ filter (λ q. not (includes q qs)) (parcels_of id t)
unfolding parcels_of delete_parcels
parcels_of-delete_parcels id qs t = parcels-delete id qs t.parcels

touched : Date → ℕ → PermissionRow → PermissionRow
touched now id r = if r.id == id then record r { updated_at = now } else r

touched_row : Date → ℕ → Option PermissionRow → Option PermissionRow
touched_row now id none = none
touched_row now id (some r) = some (touched now id r)

find-touch :
    (now : Date) (id : ℕ) (w : Text) (p : AllowListPermission) (a : Text)
    (rows : List PermissionRow)
    → find (is_for w p a) (map (touched now id) rows)
      ≡ touched_row now id (find (is_for w p a) rows)
unfolding find is_for touched touched_row
find-touch now id w p a [] = refl
find-touch now id w p a (r ∷ rows) = ground (arith, find-touch now id w p a rows)

lower-touch :
    (now : Date) (id : ℕ) (rows : List PermissionRow)
    → All IsLowerRow rows
    → All IsLowerRow (map (touched now id) rows)
lower-touch now id [] h = tt
lower-touch now id (r ∷ rows) (k, h) = (unfold touched in ground arith, lower-touch now id rows h)

touched-id : (now : Date) (id : ℕ) (r : PermissionRow) → (touched now id r).id ≡ r.id
unfolding touched
touched-id now id r = ground arith

parcels_of-touch :
    (now : Date) (id j : ℕ) (t : PermissionTables) → parcels_of j (touch now id t) ≡ parcels_of j t
unfolding parcels_of touch
parcels_of-touch now id j t = refl

nothing_left :
    (qs xs : List Text) → (length (filter (λ x. not (includes x qs)) xs) == 0) ≡ included xs qs
unfolding filter included
nothing_left qs [] = refl
nothing_left qs (x ∷ xs) = ground (arith, nothing_left qs xs)

module _ (now : Date) (w : Text) (p : AllowListPermission) (a : Text) (q : Text) (qs : List Text)
    (s : Server) where
  removed : PermissionRow → Db
  removed r = record s.db {
    permissions =
        touch now r.id (delete_parcels r.id (canonicalize_parcels (q ∷ qs)) s.db.permissions);
  }

  remove_steps :
      (r : PermissionRow)
      → get_address_permissions w p a s.db ≡ some r
      → remove_parcels_from_permission now w p a (q ∷ qs) s ≡ (ok tt, record s { db = removed r })
  unfolding remove_parcels_from_permission removed
  remove_steps r e = rw e

  removed-row :
      (r : PermissionRow)
      → get_address_permissions w p a s.db ≡ some r
      → get_address_permissions w p a (removed r) ≡ some (touched now r.id r)
  unfolding get_address_permissions removed touch delete_parcels touched touched_row
  removed-row r e =
      find-touch now r.id (lower_case w) p (lower_case a) s.db.permissions.rows
      ∙ ap (touched_row now r.id) e

  removed-lower :
      (r : PermissionRow)
      → All IsLowerRow s.db.permissions.rows
      → All IsLowerRow (removed r).permissions.rows
  unfolding removed touch delete_parcels touched
  removed-lower r h = lower-touch now r.id s.db.permissions.rows h

  left : PermissionRow → List Text
  left r =
      filter (λ x. not (includes x (canonicalize_parcels (q ∷ qs))))
        (parcels_of r.id s.db.permissions)

  removed-parcels :
      (r : PermissionRow) → parcels_of (touched now r.id r).id (removed r).permissions ≡ left r
  unfolding removed left
  removed-parcels r =
      let t = delete_parcels r.id (canonicalize_parcels (q ∷ qs)) s.db.permissions in
      ap (λ (id : ℕ). parcels_of id (touch now r.id t)) (touched-id now r.id r)
      ∙ parcels_of-touch now r.id r.id t
      ∙ parcels_of-delete_parcels r.id (canonicalize_parcels (q ∷ qs)) s.db.permissions

  -- When names and addresses are stored in lower case and the address has a row, removing one or more
  -- parcels from its permission succeeds, and leaves the address world-wide exactly when every parcel
  -- that it held is among the canonical forms of the removed ones.
  pub remove_parcels_from_permission-world_wide :
      (r : PermissionRow)
      → All IsLowerRow s.db.permissions.rows
      → get_address_permissions w p a s.db ≡ some r
      → ((remove_parcels_from_permission now w p a (q ∷ qs) s).0 ≡ ok tt)
        × (has_world_wide_permission w p a
              (after (remove_parcels_from_permission now w p a (q ∷ qs)) s).db
            ≡ included (parcels_of r.id s.db.permissions) (canonicalize_parcels (q ∷ qs)))
  unfolding world_wide_row left
  remove_parcels_from_permission-world_wide r lower e = (
    ap (λ (o : Outcome (Unit {0}) × Server). o.0) (remove_steps r e),
    ap (λ (o : Outcome (Unit {0}) × Server). has_world_wide_permission w p a o.1.db)
          (remove_steps r e)
        ∙ has_world_wide_permission_row w p a (removed r) (removed-lower r lower)
        ∙ ap (world_wide_row (removed r).permissions) (removed-row r e)
        ∙ ap (λ (l : List Text). length l == 0) (removed-parcels r)
        ∙ nothing_left (canonicalize_parcels (q ∷ qs)) (parcels_of r.id s.db.permissions),
  )
