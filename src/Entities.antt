-- ===== src/Entities.antt =====
-- The parts of a scene entity that the server reads, and `extractSpawnCoordinates` of
-- src/logic/coordinates/component.ts. Absent fields are `none`; the metadata is taken as typed.
use worlds_content_server.Prelude.{ℕ, Bool, List, [], ◌∷◌, Option, none, some}
use worlds_content_server.Prelude.Text.{Text}
use worlds_content_server.Prelude.Result.{ok, err}
use worlds_content_server.Errors.{Outcome, no_spawn_coordinates}

pub record ContentMapping : Type 0 where
  pub file : Text
  pub hash : Text

-- `metadata.scene`.
pub record SceneParcels : Type 0 where
  pub base : Option Text
  pub parcels : List Text

-- The metadata's settings that the first deployment copies to the world.
pub record SceneSettings : Type 0 where
  pub title : Option Text
  pub description : Option Text
  pub navmap_thumbnail : Option Text
  pub skybox_fixed_time : Option ℕ
  pub fixed_adapter : Option Text
  pub opt_out : Bool
  pub tags : List Text
  pub rating : Option Text

pub record Entity : Type 0 where
  pub id : Text
  pub scene : Option SceneParcels
  pub settings : SceneSettings
  pub content : List ContentMapping

-- `a || undefined` on a text: the empty text is falsy.
abbrev pub truthy : Option Text → Option Text
truthy none = none
truthy (some []) = none
truthy (some (c ∷ s)) = some (c ∷ s)

first_parcel : List Text → Option Text
first_parcel [] = none
first_parcel (p ∷ ps) = truthy (some p)

or_else : Option Text → Option Text → Option Text
or_else none b = b
or_else (some a) b = some a

spawn_parcel : Option SceneParcels → Option Text
unfolding first_parcel or_else
spawn_parcel none = none
spawn_parcel (some scene) = or_else (truthy scene.base) (first_parcel scene.parcels)

or_throw : Option Text → Outcome Text
or_throw none = err no_spawn_coordinates
or_throw (some p) = ok p

unfoldable pub extract_spawn_coordinates : Entity → Outcome Text
unfolding spawn_parcel or_throw
extract_spawn_coordinates entity = or_throw (spawn_parcel entity.scene)
