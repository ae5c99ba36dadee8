-- ===== src/Settings/Update.antt =====
-- What an update of settings promises (src/logic/settings/component.ts with `updateWorldSettings` of
-- src/adapters/worlds-manager.ts).
use mathlib.Core.List.{Memᴰ, []}
use worlds_content_server.Prelude.{
  ℕ, ◌≡◌, refl, sym, ap, ◌∙◌, Bool, true, false, Option, none, some, ◌∷◌, arith, Bool-cases, inl,
  inr, ◌⊎◌,
}
use worlds_content_server.Prelude.Eq.{text_eq}
use worlds_content_server.Prelude.Text.{Text, lower_case}
use worlds_content_server.Prelude.Result.{ok, err, ok_inj, >>=-eq-ok}
use worlds_content_server.Errors.{Error, Outcome, unauthorized}
use worlds_content_server.Coordinates.{Coordinate, BoundingRectangle, parse_coordinate}
use worlds_content_server.Coordinates.Rectangle.{is_coordinate-Within_iff}
use worlds_content_server.Permissions.Manager.{parcels_of}
use worlds_content_server.Permissions.Checks.{has_world_wide_permission-row}
use worlds_content_server.Database.{deployment, PermissionRow, Date, WorldRow, WorldSettings, Db}
use worlds_content_server.Worlds.Scenes.{world_bounding_rectangle}
use worlds_content_server.Worlds.Spawn.{IsSpawnIn}
use worlds_content_server.Worlds.Settings.{
  check_spawn, within_shape, row_named, row_after, settings_row, change_settings, upsert_settings,
  map_world_record_to_settings, UpdateResult,
}
use worlds_content_server.Worlds.Settings
use worlds_content_server.Server.{Server, lift, publish, pure, ◌>>=◌, ◌>>◌, transaction}
use worlds_content_server.Settings.Rows.{row_named-upsert_settings}
use worlds_content_server.Settings.{
  WorldSettingsInput, rethrow, convert_error, with_hash, write_settings, emit_events,
  parse_spawn_coordinates, settings_events, store_thumbnail, may_change_settings,
  update_world_settings, get_world_settings,
}

emit_events-keeps :
    (world : Text) (r : UpdateResult) (t : Server)
    → ((emit_events world r t).1.db ≡ t.db)
      × (((emit_events world r t).0 ≡ ok r.settings)
          ⊎ ((e : Error) × ((emit_events world r t).0 ≡ err e)))
emit_events-keeps world r t =
    go (parse_spawn_coordinates r.old_spawn_coordinates)
      (parse_spawn_coordinates r.settings.spawn_coordinates)
  where
    go :
        (old new : Outcome (Option Coordinate))
        → let m =
            (lift old >>= λ old. lift new >>= λ new.
            publish (settings_events world r.settings old new) >> pure r.settings) in
          ((m t).1.db ≡ t.db) × (((m t).0 ≡ ok r.settings) ⊎ ((e : Error) × ((m t).0 ≡ err e)))
    go (err e) new = (refl, inr (e, refl))
    go (ok old) (err e) = (refl, inr (e, refl))
    go (ok old) (ok new) = (refl, inl refl)

store_thumbnail-keeps :
    (sha256 : Text → Text) (thumbnail : Option Text) (s : Server)
    → (t : Server) × (store_thumbnail sha256 thumbnail s ≡ (ok tt, t)) × (t.db ≡ s.db)
store_thumbnail-keeps sha256 none s = (s, refl, refl)
store_thumbnail-keeps sha256 (some c) s = ((store_thumbnail sha256 (some c) s).1, refl, refl)

module _ {ℓ} (now : Date) (world signer : Text) (s : Server) (given : WorldSettings)
    (P : Outcome WorldSettings × Server → Type ℓ)
    (failed : (e : Error) (s' : Server) → s'.db ≡ s.db → P (err e, s'))
    (done : (r : UpdateResult) (db : Db)
      → Settings.update_world_settings now world signer given s.db ≡ ok (r, db)
      → (o : Outcome WorldSettings) (s' : Server) → s'.db ≡ db
      → (o ≡ ok r.settings) ⊎ ((e : Error) × (o ≡ err e))
      → P (o, s')) where
  write_cases :
      (t : Server)
      → t.db ≡ s.db
      → P ((write_settings now world signer given >>= emit_events world) t)
  write_cases t same = go (Settings.update_world_settings now world signer given t.db) refl
    where
      go :
          (o : Outcome (UpdateResult × Db))
          → Settings.update_world_settings now world signer given t.db ≡ o
          → P ((rethrow convert_error (transaction (λ db. o)) >>= emit_events world) t)
      go (err e) q = failed (convert_error e) t same
      go (ok (r, db)) q =
          let (kept, result) = emit_events-keeps world r (record t { db = db }) in
          done r db (rw (← same) q) _ _ kept result

-- The three ways through an update: refused, failed without a change, committed.
update_world_settings_cases {ℓ} :
    (check_permission : Text → Text → Bool) (sha256 : Text → Text) (now : Date)
    (world signer : Text) (input : WorldSettingsInput) (s : Server)
    (P : Outcome WorldSettings × Server → Type ℓ)
    → (may_change_settings check_permission world signer s.db ≡ false → P (err unauthorized, s))
    → (may_change_settings check_permission world signer s.db ≡ true
        → (e : Error) (s' : Server) → s'.db ≡ s.db
        → P (err e, s'))
    → (may_change_settings check_permission world signer s.db ≡ true
        → (r : UpdateResult) (db : Db)
        → Settings.update_world_settings now world (lower_case signer) (with_hash sha256 input) s.db
          ≡ ok (r, db)
        → (o : Outcome WorldSettings) (s' : Server) → s'.db ≡ db
        → (o ≡ ok r.settings) ⊎ ((e : Error) × (o ≡ err e))
        → P (o, s'))
    → P (update_world_settings check_permission sha256 now world signer input s)
unfolding update_world_settings
update_world_settings_cases check_permission sha256 now world signer input s P refused failed done =
    elim (Bool-cases (may_change_settings check_permission world signer s.db)) [
      | inr e ↦ rw e (refused e)
      | inl e ↦
          let (t, stored, same) = store_thumbnail-keeps sha256 input.thumbnail s in
          rw (e, stored)
            (write_cases now world (lower_case signer) s (with_hash sha256 input) P (failed e)
              (done e) t same)
    ]

-- What the manager's update checked, and what it returns and stores.
manager_update-ok :
    (now : Date) (world owner : Text) (given : WorldSettings) (db : Db) {r : UpdateResult}
    {db' : Db}
    → Settings.update_world_settings now world owner given db ≡ ok (r, db')
    → (check_spawn world given.spawn_coordinates db ≡ ok tt)
      × (r.settings
          ≡ map_world_record_to_settings (
              row_after now
                (lower_case world)
                (lower_case owner)
                given
                (row_named (lower_case world) db.worlds)))
      × (db' ≡ record db {
        worlds = upsert_settings now (lower_case world) (lower_case owner) given db.worlds;
      })
unfolding Settings.update_world_settings
manager_update-ok now world owner given db {r = r} {db' = db'} e =
    let (checked, h, q) = >>=-eq-ok (check_spawn world given.spawn_coordinates db) _ e in
    let same = ok_inj q in
    (
      h,
      ap (λ (x : UpdateResult × Db). x.0.settings) (sym same),
      ap (λ (x : UpdateResult × Db). x.1) (sym same),
    )

check_spawn-IsSpawnIn :
    (world : Text) (c : ℕ) (rest : Text) (db : Db)
    → check_spawn world (some (c ∷ rest)) db ≡ ok tt
    → (shape : BoundingRectangle) × (world_bounding_rectangle (lower_case world) db.scenes
        ≡ ok (some shape))
      × IsSpawnIn shape (c ∷ rest)
unfolding check_spawn
check_spawn-IsSpawnIn world c rest db e =
    let (shape, found, e') =
      >>=-eq-ok (world_bounding_rectangle (lower_case world) db.scenes) _ e in
    go shape found e'
  where
    go :
        (o : Option BoundingRectangle)
        → world_bounding_rectangle (lower_case world) db.scenes ≡ ok o
        → within_shape (c ∷ rest) o ≡ ok tt
        → (shape : BoundingRectangle) × (world_bounding_rectangle (lower_case world) db.scenes
            ≡ ok (some shape))
          × IsSpawnIn shape (c ∷ rest)
    go none found e = cc e
    go (some r) found e =
        let (k, parsed, inside) = >>=-eq-ok (parse_coordinate (c ∷ rest)) _ e in
        (r, found, (k, parsed, (is_coordinate-Within_iff k r).0 (ground arith)))

returned :
    {o : Outcome WorldSettings} {a r : WorldSettings}
    → (o ≡ ok a) ⊎ ((e : Error) × (o ≡ err e))
    → o ≡ ok r
    → a ≡ r
returned (inl p) k = ok_inj (sym p ∙ k)
returned (inr (e, p)) k = cc (sym p ∙ k)

get_world_settings-row_named :
    (world : Text) (t : Server) (w : WorldRow)
    → row_named (lower_case world) t.db.worlds ≡ some w
    → get_world_settings world t ≡ (ok (map_world_record_to_settings w), t)
unfolding get_world_settings Settings.get_world_settings
get_world_settings-row_named world t w e =
    rw (get_world_settings, Settings.get_world_settings, e) refl

spawn-row_after :
    (now : Date) (world owner : Text) (given : WorldSettings) (o : Option WorldRow) (c : ℕ)
    (rest : Text)
    → given.spawn_coordinates ≡ some (c ∷ rest)
    → (map_world_record_to_settings (row_after now world owner given o)).spawn_coordinates
      ≡ some (c ∷ rest)
unfolding map_world_record_to_settings settings_row change_settings
spawn-row_after now world owner given none c rest e = rw e refl
spawn-row_after now world owner given (some w) c rest e = rw e refl

module _ (check_permission : Text → Text → Bool) (sha256 : Text → Text) (now : Date)
    (world signer : Text) (input : WorldSettingsInput) (s : Server) where
  -- An update by a signer whom the name check does not accept, and for whom the world has no
  -- deployment permission without parcels, whatever the case of its address, is refused and nothing
  -- is changed: no row, no stored thumbnail, no message.
  pub update_world_settings-unauthorized :
      check_permission (lower_case signer) world ≡ false
      → ((r : PermissionRow)
          → Memᴰ r s.db.permissions.rows
          → r.world_name ≡ lower_case world
          → r.permission_type ≡ deployment
          → lower_case r.address ≡ lower_case (lower_case signer)
          → ¬ (parcels_of r.id s.db.permissions ≡ []))
      → update_world_settings check_permission sha256 now world signer input s
        ≡ (err unauthorized, s)
  unfolding may_change_settings
  update_world_settings-unauthorized stranger narrow =
      update_world_settings_cases check_permission sha256 now world signer input s
        (λ o. o ≡ (err unauthorized, s)) (λ e. refl) (λ e. absurd (barred e))
        (λ e. absurd (barred e))
    where
      barred : may_change_settings check_permission world signer s.db ≡ true → ⊥
      barred e =
          let (r, m, named, typed, addressed, all) =
            has_world_wide_permission-row world deployment (lower_case signer) s.db
              (ground (arith, stranger, e)) in
          narrow r m named typed addressed all

  -- After an update that returns, reading the settings of the world gives what was returned.
  pub update_world_settings-get :
      (r : WorldSettings)
      → (update_world_settings check_permission sha256 now world signer input s).0 ≡ ok r
      → let s' = (update_world_settings check_permission sha256 now world signer input s).1 in
        get_world_settings world s' ≡ (ok r, s')
  update_world_settings-get r =
      update_world_settings_cases check_permission sha256 now world signer input s
        (λ o. o.0 ≡ ok r → get_world_settings world o.1 ≡ (ok r, o.1)) (λ h e. cc e)
        (λ h e t q k. cc k)
        (λ h result db e o t q kept k.
          let (checked, settings, stored) =
            manager_update-ok now world (lower_case signer) (with_hash sha256 input) s.db e in
          let row =
            row_after now (lower_case world) (lower_case (lower_case signer))
              (with_hash sha256 input) (row_named (lower_case world) s.db.worlds) in
          let found : row_named (lower_case world) t.db.worlds ≡ some row =
            ap (λ (d : Db). row_named (lower_case world) d.worlds) (q ∙ stored)
            ∙ row_named-upsert_settings now (lower_case world) (lower_case (lower_case signer))
                (with_hash sha256 input) s.db.worlds in
          get_world_settings-row_named world t row found
          ∙ ap (λ (x : WorldSettings). (ok x, t)) (sym settings ∙ returned kept k))

  -- After an update that returns, spawn coordinates that were given and not empty are those of the
  -- world, and they name a coordinate of the rectangle of its deployed scenes; the scenes are those
  -- from before.
  pub update_world_settings-IsSpawnIn :
      (r : WorldSettings) (c : ℕ) (rest : Text)
      → input.settings.spawn_coordinates ≡ some (c ∷ rest)
      → (update_world_settings check_permission sha256 now world signer input s).0 ≡ ok r
      → let db = (update_world_settings check_permission sha256 now world signer input s).1.db in
        (shape : BoundingRectangle) × (world_bounding_rectangle (lower_case world) db.scenes
          ≡ ok (some shape))
        × IsSpawnIn shape (c ∷ rest)
        × (r.spawn_coordinates ≡ some (c ∷ rest))
        × (db.scenes ≡ s.db.scenes)
  update_world_settings-IsSpawnIn r c rest given =
      update_world_settings_cases check_permission sha256 now world signer input s
        (λ o.
          o.0 ≡ ok r
          → (shape : BoundingRectangle) × (world_bounding_rectangle (lower_case world) o.1.db.scenes
              ≡ ok (some shape))
            × IsSpawnIn shape (c ∷ rest)
            × (r.spawn_coordinates ≡ some (c ∷ rest))
            × (o.1.db.scenes ≡ s.db.scenes))
        (λ h e. cc e) (λ h e t q k. cc k)
        (λ h result db e o t q kept k.
          let (checked, settings, stored) =
            manager_update-ok now world (lower_case signer) (with_hash sha256 input) s.db e in
          let scenes : t.db.scenes ≡ s.db.scenes = ap (λ (d : Db). d.scenes) (q ∙ stored) in
          let (shape, found, inside) =
            check_spawn-IsSpawnIn world c rest s.db (rw given at checked) in
          (
            shape,
            ap (world_bounding_rectangle (lower_case world)) scenes ∙ found,
            inside,
            ap (λ (x : WorldSettings). x.spawn_coordinates) (sym (returned kept k) ∙ settings)
                ∙ spawn-row_after now (lower_case world) (lower_case (lower_case signer))
                    (with_hash sha256 input) _ c rest given,
            scenes,
          ))
