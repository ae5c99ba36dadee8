-- ===== src/Database.antt =====
-- The tables that the components share (src/types.ts, src/logic/permissions/types.ts and the
-- migrations): rows as records, a table as the list of its rows. Times are milliseconds.
use worlds_content_server.Prelude.{
  ℕ, ◌≡◌, ◌↔◌, Bool, true, false, Option, List, [], ◌∷◌, ◌++◌, ◌||◌, arith, ◌==◌,
}
use worlds_content_server.Prelude.Eq.{Eq, text_eq, text_beq_refl}
use worlds_content_server.Prelude.Lists.{any, any-append}
use worlds_content_server.Prelude.Text.{Text}
use worlds_content_server.Prelude.Int.{ℤ}
use worlds_content_server.AccessSetting.{AccessSetting}
use worlds_content_server.Entities.{Entity}

abbrev pub Date : Type 0
Date = ℕ

pub data SceneStatus : Type 0 where
  deployed undeployed : SceneStatus

abbrev pub is_deployed : SceneStatus → Bool
is_deployed deployed = true
is_deployed undeployed = false

pub record WorldRow : Type 0 where
  pub name : Text
  pub owner : Option Text
  pub access : Option AccessSetting
  pub spawn_coordinates : Option Text
  pub title : Option Text
  pub description : Option Text
  pub content_rating : Option Text
  pub skybox_time : Option ℕ
  pub categories : Option (List Text)
  pub single_player : Option Bool
  pub show_in_places : Option Bool
  pub thumbnail_hash : Option Text
  pub last_deployed_at : Option Date
  pub deployed_scene_count : ℕ
  pub scene_min_x : Option ℤ
  pub scene_max_x : Option ℤ
  pub scene_min_y : Option ℤ
  pub scene_max_y : Option ℤ
  pub created_at : Date
  pub updated_at : Date

-- The settings of a world. Where JavaScript tells an absent value from a null, `none` is absent and
-- `some none` is null.
pub record WorldSettings : Type 0 where
  pub title : Option Text
  pub description : Option Text
  pub content_rating : Option Text
  pub spawn_coordinates : Option Text
  pub skybox_time : Option (Option ℕ)
  pub categories : Option (Option (List Text))
  pub single_player : Option Bool
  pub show_in_places : Option Bool
  pub thumbnail_hash : Option Text

pub record SceneRow : Type 0 where
  pub world_name : Text
  pub entity_id : Text
  pub deployer : Text
  pub entity : Entity
  pub parcels : List Text
  pub size : ℕ
  pub status : SceneStatus
  pub created_at : Date
  pub updated_at : Date

-- 'deployment' | 'streaming'
pub data AllowListPermission : Type 0 where
  deployment streaming : AllowListPermission

abbrev pub permission_beq : AllowListPermission → AllowListPermission → Bool
permission_beq deployment deployment = true
permission_beq deployment streaming = false
permission_beq streaming deployment = false
permission_beq streaming streaming = true

pub permission_beq_iff : (a b : AllowListPermission) → (permission_beq a b ≡ true) ↔ (a ≡ b)
permission_beq_iff a b = (λ h. ground arith, λ h. ground arith)

instance abbrev pub permission_eq : Eq AllowListPermission
permission_eq = record { same = permission_beq; agrees = permission_beq_iff }

pub record PermissionRow : Type 0 where
  pub id : ℕ
  pub world_name : Text
  pub permission_type : AllowListPermission
  pub address : Text
  pub created_at : Date
  pub updated_at : Date

pub record PermissionParcelRow : Type 0 where
  pub permission_id : ℕ
  pub parcel : Text

-- `world_permissions`, its sequence of ids, and `world_permission_parcels`.
pub record PermissionTables : Type 0 where
  pub rows : List PermissionRow
  pub parcels : List PermissionParcelRow
  pub next_id : ℕ

pub record BlockedRow : Type 0 where
  pub wallet : Text
  pub created_at : Date
  pub updated_at : Date

pub record Db : Type 0 where
  pub worlds : List WorldRow
  pub scenes : List SceneRow
  pub permissions : PermissionTables
  pub blocked : List BlockedRow

-- `SELECT EXISTS(SELECT 1 FROM worlds WHERE name = …)`.
unfoldable pub world_named : Text → List WorldRow → Bool
world_named name worlds = any (λ w. w.name == name) worlds

pub world_named-append :
    (name : Text) (xs ys : List WorldRow)
    → world_named name (xs ++ ys) ≡ (world_named name xs || world_named name ys)
unfolding world_named
world_named-append name xs ys = any-append (λ w. w.name == name) xs ys

pub world_named_self : (w : WorldRow) → world_named w.name (w ∷ []) ≡ true
unfolding world_named any
world_named_self w = rw (text_beq_refl w.name)
