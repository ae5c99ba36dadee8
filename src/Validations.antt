-- ===== src/Validations.antt =====
-- Validation of a deployment: the types that src/logic/validations shares, and its combinators
-- (src/logic/validations/utils.ts). A result is the list of its errors, one constructor for each
-- message; it is ok when there is none. The signal of a request is left out.
use worlds_content_server.Prelude.{
  ℕ, Bool, true, false, not, ◌&&◌, ◌||◌, Option, none, some, List, [], ◌∷◌, ◌==◌, if◌then◌else◌,
}
use worlds_content_server.Prelude.Eq.{text_eq}
use worlds_content_server.Prelude.Map.{Map}
use worlds_content_server.Prelude.Text.{Text, codes}
use worlds_content_server.Prelude.Result.{Result, ok, err, ◌>>=◌}
use worlds_content_server.Errors.{Error, Outcome}
use worlds_content_server.Entities.{ContentMapping}
use worlds_content_server.Database.{Date, Db}
use worlds_content_server.Quota.{Services, HardLimits}
pub mod Common
pub mod Scene
pub mod Pipeline
pub mod Acceptance
pub mod Sets
pub mod Membership
pub mod Tests

pub data Problem : Type 0 where
  schema_error : Text → Problem
  entity_not_in_files invalid_entity_hash deployment_expired invalid_signer invalid_signature :
      Problem
  unsupported_entity_type : Text → Problem
  extra_file not_a_cid_v1 hash_mismatch missing_file : Text → Problem
  no_world_name pointers_differ deprecated_name deprecated_minimap deprecated_skybox : Problem
  banned_name no_permission too_many_parcels too_many_files too_big sdk_not_supported : Problem
  invalid_coordinate : Error → Problem
  content_not_fetched : Text → Problem
  image_not_present texture_not_present thumbnail_not_present thumbnail_not_relative :
      Text → Problem

-- An uploaded file, with the hash of its bytes.
pub record DeploymentFile : Type 0 where
  pub size : ℕ
  pub actual_hash : Text

-- What is stored of a file: its size may be null.
pub record FileInfo : Type 0 where
  pub size : Option ℕ

-- `entity.metadata`, as far as it is read; an empty text is falsy.
pub record SceneMetadata : Type 0 where
  pub world_name : Option Text
  pub dcl_name : Bool
  pub minimap_visible : Bool
  pub skybox : Bool
  pub scene_parcels : Option (List Text)
  pub data_image : Option Text
  pub estate_image : Option Text
  pub textures : List Text
  pub navmap_thumbnail : Option Text
  pub runtime_version : Option Text

pub record DeploymentToValidate : Type 0 where
  pub entity_id : Text
  pub entity_type : Text
  pub pointers : List Text
  pub content : List ContentMapping
  pub timestamp : Date
  pub metadata : SceneMetadata
  pub files : Map DeploymentFile
  -- `authChain[0].payload`.
  pub signer : Text
  pub content_hashes_in_storage : Map Bool
  pub content_file_infos : Option (Map FileInfo)

-- What the validators ask of others: schemas and signatures of the libraries, the owner check, the
-- database, services and limits, and the storage.
pub record ValidatorComponents : Type 0 where
  pub entity_schema : DeploymentToValidate → Option (List Text)
  pub auth_chain_schema : DeploymentToValidate → Option (List Text)
  pub scene_schema : DeploymentToValidate → Option (List Text)
  pub is_eth_address : Text → Bool
  pub is_cid_v1 : Text → Bool
  pub validate_signature : DeploymentToValidate → Option Text
  pub check_permission : (address world : Text) → Bool
  pub banned_names : List Text
  pub db : Db
  pub services : Services
  pub hard_limits : HardLimits
  pub retrieve : Text → Option FileInfo
  pub deployment_ttl : Option ℕ
  pub max_file_count : Option ℕ
  pub now : Date

abbrev pub Validation : Type 0
Validation = DeploymentToValidate → Outcome (List Problem)

unfoldable pub validate_if_condition_met : (DeploymentToValidate → Bool) → Validation → Validation
validate_if_condition_met condition validation d =
    let result = validation d in if condition d then result else ok []

abbrev pub entity_type_scene : Text
entity_type_scene = codes "scene"

unfoldable pub validate_if_type_matches : Text → Validation → Validation
validate_if_type_matches type validation =
    validate_if_condition_met (λ d. d.entity_type == type) validation

abbrev pub or_continue : List Problem → Outcome (List Problem) → Outcome (List Problem)
or_continue [] rest = rest
or_continue (p ∷ ps) rest = ok (p ∷ ps)

-- The first result that is not ok ends the validation.
unfoldable pub validate_all : List Validation → Validation
validate_all [] d = ok []
validate_all (v ∷ vs) d =
    let rest = validate_all vs d in v d >>= λ problems. or_continue problems rest
