-- ===== src/Permissions/Rows.antt =====
-- Which (world, permission, address) keys have a row after the statements of
-- src/adapters/permissions-manager.ts.
use worlds_content_server.Prelude.{
  ℕ, ◌≡◌, ap, Bool, true, not, ◌&&◌, ◌||◌, List, [], ◌∷◌, ◌++◌, arith, ◌==◌, Bool-cases, inl, inr,
}
use worlds_content_server.Prelude.Eq.{text_eq, text_beq_iff, text_beq_sym}
use worlds_content_server.Prelude.Lists.{filter, any-append, any-filter, includes}
use worlds_content_server.Prelude.Text.{Text}
use worlds_content_server.Database.{
  Date, AllowListPermission, permission_eq, PermissionRow, PermissionTables,
}
use worlds_content_server.Permissions.Manager.{
  is_for, has_row, new_row, insert_row, insert_rows, delete_parcels_of, is_for_any, grant_tables,
  remove_tables,
}

-- Whether two keys are the same.
abbrev pub same_key : Text → AllowListPermission → Text → Text → AllowListPermission → Text → Bool
same_key w p a w' p' a' = w == w' && p == p' && a == a'

module _ (w' : Text) (p' : AllowListPermission) (a' : Text) where
  has_row-append :
      (xs ys : List PermissionRow)
      → has_row w' p' a' (xs ++ ys) ≡ (has_row w' p' a' xs || has_row w' p' a' ys)
  unfolding has_row
  has_row-append xs ys = any-append (is_for w' p' a') xs ys

  has_row-new :
      (now : Date) (w : Text) (p : AllowListPermission) (a : Text) (id : ℕ)
      → has_row w' p' a' (new_row now w p a id ∷ []) ≡ same_key w p a w' p' a'
  unfolding has_row
  has_row-new now w p a id = ground arith

  pub has_row-same :
      (w : Text) (p : AllowListPermission) (a : Text) (rows : List PermissionRow)
      → same_key w p a w' p' a' ≡ true
      → has_row w' p' a' rows ≡ has_row w p a rows
  has_row-same w p a rows h = ground (arith, text_beq_iff w w', text_beq_iff a a')

  pub has_row-insert_row :
      (now : Date) (w : Text) (p : AllowListPermission) (a : Text) (t : PermissionTables)
      → has_row w' p' a' (insert_row now w p a t).rows
        ≡ (has_row w' p' a' t.rows || same_key w p a w' p' a')
  unfolding insert_row
  has_row-insert_row now w p a t = elim (Bool-cases (has_row w p a t.rows)) [
    | inl h ↦ ground (arith, has_row-same w p a t.rows)
    | inr h ↦ ground (
      arith,
      has_row-append t.rows (new_row now w p a t.next_id ∷ []),
      has_row-new now w p a t.next_id,
    )
  ]

  pub has_row-insert_rows :
      (now : Date) (w : Text) (p : AllowListPermission) (as' : List Text) (t : PermissionTables)
      → has_row w' p' a' (insert_rows now w p as' t).0.rows
        ≡ (has_row w' p' a' t.rows || (w == w' && p == p' && includes a' as'))
  unfolding insert_rows includes
  has_row-insert_rows now w p [] t = ground arith
  has_row-insert_rows now w p (a ∷ as') t = ground (
    arith,
    has_row-insert_rows now w p as' (insert_row now w p a t),
    has_row-insert_row now w p a t,
  )

  pub has_row-grant_tables :
      (now : Date) (w : Text) (p : AllowListPermission) (as' : List Text) (t : PermissionTables)
      → has_row w' p' a' (grant_tables now w p as' t).0.rows
        ≡ (has_row w' p' a' t.rows || (w == w' && p == p' && includes a' as'))
  unfolding grant_tables delete_parcels_of
  has_row-grant_tables now w p as' t = has_row-insert_rows now w p as' t

  is_for_any_of_is_for :
      (w : Text) (p : AllowListPermission) (as' : List Text) (r : PermissionRow)
      → is_for w' p' a' r ≡ true
      → is_for_any w p as' r ≡ (w == w' && p == p' && includes a' as')
  unfolding is_for is_for_any
  is_for_any_of_is_for w p as' r h =
      ground (arith, text_beq_iff r.world_name w', text_beq_iff r.address a', text_beq_sym w w')

  has_row-filter :
      (w : Text) (p : AllowListPermission) (as' : List Text) (rows : List PermissionRow)
      → has_row w' p' a' (filter (λ r. not (is_for_any w p as' r)) rows)
        ≡ (has_row w' p' a' rows && not (w == w' && p == p' && includes a' as'))
  unfolding has_row
  has_row-filter w p as' rows =
      any-filter (λ r. not (is_for_any w p as' r)) (is_for w' p' a')
        (not (w == w' && p == p' && includes a' as')) rows
        (λ r h. ap not (is_for_any_of_is_for w p as' r h))

  pub has_row-remove_tables :
      (w : Text) (p : AllowListPermission) (as' : List Text) (t : PermissionTables)
      → has_row w' p' a' (remove_tables w p as' t).0.rows
        ≡ (has_row w' p' a' t.rows && not (w == w' && p == p' && includes a' as'))
  unfolding remove_tables delete_parcels_of
  has_row-remove_tables w p as' t = has_row-filter w p as' t.rows
