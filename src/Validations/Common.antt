-- ===== src/Validations/Common.antt =====
-- Validations of any deployment: src/logic/validations/common.ts.
use worlds_content_server.Prelude.{
  ℕ, zero, suc, ◌-◌, Bool, true, false, not, ◌&&◌, ◌||◌, Option, none, some, List, [], ◌∷◌, ◌++◌,
  ◌==◌, ltb, map,
}
use worlds_content_server.Prelude.Eq.{text_eq}
use worlds_content_server.Prelude.Lists.{includes}
use worlds_content_server.Prelude.Map.{Map, get}
use worlds_content_server.Prelude.Text.{Text}
use worlds_content_server.Prelude.Result.{ok}
use worlds_content_server.Entities.{ContentMapping, truthy}
use worlds_content_server.Validations.{
  Problem, schema_error, entity_not_in_files, invalid_entity_hash, deployment_expired,
  invalid_signer, invalid_signature, unsupported_entity_type, extra_file, not_a_cid_v1,
  hash_mismatch, missing_file, DeploymentFile, DeploymentToValidate, ValidatorComponents,
  Validation, entity_type_scene,
}

abbrev pub report_if : Bool → Problem → List Problem
report_if true p = p ∷ []
report_if false p = []

abbrev pub schema_problems : Option (List Text) → List Problem
schema_problems none = []
schema_problems (some messages) = map schema_error messages

unfoldable pub entity_id_problems : Text → Option DeploymentFile → List Problem
entity_id_problems id none = entity_not_in_files ∷ []
entity_id_problems id (some file) = report_if (not (file.actual_hash == id)) invalid_entity_hash

unfoldable pub validate_entity_id : Validation
unfolding entity_id_problems
validate_entity_id d = ok (entity_id_problems d.entity_id (get d.entity_id d.files))

-- `a || b` on a number.
abbrev pub or_default : Option ℕ → ℕ → ℕ
or_default none b = b
or_default (some zero) b = b
or_default (some (suc n)) b = suc n

unfoldable pub supported_type_problems : Text → List Problem
supported_type_problems type =
    report_if (not (type == entity_type_scene)) (unsupported_entity_type type)

unfoldable pub validate_supported_entity_type : Validation
unfolding supported_type_problems
validate_supported_entity_type d = ok (supported_type_problems d.entity_type)

-- A file that is neither the entity nor part of its content.
abbrev pub unknown_problems : DeploymentToValidate → Text → List Problem
unknown_problems d hash =
    report_if (not (includes hash (map (λ c. c.hash) d.content)) && not (hash == d.entity_id))
      (extra_file hash)

-- What is wrong with one uploaded file.
unfoldable pub file_problems :
    (Text → Bool) → DeploymentToValidate → Text → DeploymentFile → List Problem
file_problems is_cid_v1 d hash file =
    unknown_problems d hash
    ++ report_if (not (is_cid_v1 hash)) (not_a_cid_v1 hash)
    ++ report_if (not (file.actual_hash == hash)) (hash_mismatch hash)

unfoldable pub uploaded_problems :
    (Text → Bool) → DeploymentToValidate → Map DeploymentFile → List Problem
unfolding file_problems
uploaded_problems is_cid_v1 d [] = []
uploaded_problems is_cid_v1 d ((hash, file) ∷ fs) =
    file_problems is_cid_v1 d hash file ++ uploaded_problems is_cid_v1 d fs

abbrev pub is_uploaded : DeploymentToValidate → Text → Bool
is_uploaded d hash = elim (get hash d.files) [ none ↦ false | some f ↦ true ]

abbrev pub is_stored : DeploymentToValidate → Text → Bool
is_stored d hash = elim (get hash d.content_hashes_in_storage) [ none ↦ false | some b ↦ b ]

unfoldable pub missing_problems : DeploymentToValidate → List ContentMapping → List Problem
missing_problems d [] = []
missing_problems d (c ∷ cs) =
    report_if (not (is_uploaded d c.hash || is_stored d c.hash)) (missing_file c.hash)
    ++ missing_problems d cs

module _ (k : ValidatorComponents) where
  unfoldable pub validate_base_entity : Validation
  validate_base_entity d = ok (schema_problems (k.entity_schema d))

  unfoldable pub validate_deployment_ttl : Validation
  validate_deployment_ttl d = ok (
      report_if (ltb (or_default k.deployment_ttl 300000) (k.now - d.timestamp)) deployment_expired)

  unfoldable pub validate_auth_chain : Validation
  validate_auth_chain d = ok (schema_problems (k.auth_chain_schema d))

  unfoldable pub validate_signer : Validation
  validate_signer d = ok (report_if (not (k.is_eth_address d.signer)) invalid_signer)

  unfoldable pub validate_signature : Validation
  validate_signature d = elim (truthy (k.validate_signature d)) [
    | none ↦ ok []
    | some message ↦ ok (invalid_signature ∷ [])
  ]

  unfoldable pub validate_files : Validation
  unfolding uploaded_problems missing_problems
  validate_files d = ok (uploaded_problems k.is_cid_v1 d d.files ++ missing_problems d d.content)
