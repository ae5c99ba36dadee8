-- ===== src/Validations/Acceptance.antt =====
-- What a deployment is that src/logic/validations/validator.ts accepts.
use worlds_content_server.Prelude.{
  ℕ, ◌-◌, ◌≤◌, ◌≡◌, refl, ap, ◌∙◌, Bool, true, false, not, ◌||◌, Option, none, some, List, [], ◌∷◌,
  ◌++◌, ◌==◌, ltb, arith,
}
use worlds_content_server.Prelude.Eq.{text_eq, text_beq_iff}
use worlds_content_server.Prelude.Lists.{All, length, includes}
use worlds_content_server.Prelude.Map.{Map, get}
use worlds_content_server.Prelude.Text.{Text}
use worlds_content_server.Prelude.Result.{Result, ok, err, ◌>>=◌, >>=-eq-ok, ok_inj}
use worlds_content_server.Errors.{Outcome}
use worlds_content_server.Entities.{ContentMapping, truthy}
use worlds_content_server.NameDenyList.{check_name_deny_list}
use worlds_content_server.Coordinates.{Coordinate, canonicalize_parcels, parse_coordinate}
use worlds_content_server.Quota.{get_max_allowed_parcels_for, get_max_allowed_size_in_bytes_for}
use worlds_content_server.Validations.{
  Problem, banned_name, no_permission, pointers_differ, too_many_parcels, too_many_files,
  deployment_expired, DeploymentFile, DeploymentToValidate, ValidatorComponents, Validation,
  not_a_cid_v1, hash_mismatch, missing_file, validate_all, validate_if_type_matches,
  validate_if_condition_met, entity_type_scene, or_continue,
}
use worlds_content_server.Validations.Membership.{same_set-unique}
use worlds_content_server.Validations.Common.{
  report_if, or_default, entity_id_problems, validate_entity_id, supported_type_problems,
  validate_supported_entity_type, unknown_problems, file_problems, uploaded_problems, is_uploaded,
  is_stored, missing_problems, validate_deployment_ttl, validate_files,
}
use worlds_content_server.Validations.Scene.{
  default_max_file_count, deployment_parcels, or_no_parcels, world_of, validate_scene_pointers,
  coordinate_problem, coordinate_problems, validate_parcel_coordinates, named_problems,
  scene_entity_problems, validate_scene_entity, validate_banned_names, may_deploy,
  validate_deployment_permission, validate_scene_dimensions, validate_file_count,
  calculate_deployment_size, size_problems, validate_size,
}
use worlds_content_server.Validations.Pipeline.{
  before_storage_validate_fns, after_storage_validate_fns, scene_validations, validate,
  validate_before_storage, validate_after_storage,
}

nothing_reported : (b : Bool) (p : Problem) → report_if b p ≡ [] → b ≡ false
nothing_reported true p h = cc
nothing_reported false p h = refl

true_of_negation : (b : Bool) → not b ≡ false → b ≡ true
true_of_negation b h = ground arith

passed : (b : Bool) (p : Problem) → report_if (not b) p ≡ [] → b ≡ true
passed b p h = true_of_negation b (nothing_reported (not b) p h)

within : (a b : ℕ) (p : Problem) → report_if (ltb a b) p ≡ [] → b ≤ a
within a b p h = let q = nothing_reported (ltb a b) p h in ground arith

nothing_appended : (xs ys : List Problem) → xs ++ ys ≡ [] → (xs ≡ []) × (ys ≡ [])
nothing_appended [] ys h = (refl, h)
nothing_appended (x ∷ xs) ys h = cc

continued :
    (problems : List Problem) (rest : Outcome (List Problem))
    → or_continue problems rest ≡ ok []
    → (problems ≡ []) × (rest ≡ ok [])
continued [] rest h = (refl, h)
continued (p ∷ ps) rest h = cc

both_ok :
    (first rest : Outcome (List Problem))
    → (first >>= λ problems. or_continue problems rest) ≡ ok []
    → (first ≡ ok []) × (rest ≡ ok [])
both_ok first rest h =
    let (problems, e, g) = >>=-eq-ok first _ h in
    let (empty, later) = continued problems rest g in (e ∙ ap ok empty, later)

-- A chain of validations accepts only what each of them accepts.
validate_all-ok :
    (vs : List Validation) (d : DeploymentToValidate)
    → validate_all vs d ≡ ok []
    → All (λ v. v d ≡ ok []) vs
unfolding validate_all
validate_all-ok [] d h = tt
validate_all-ok (v ∷ vs) d h =
    let (first, rest) = both_ok (v d) (validate_all vs d) h in (first, validate_all-ok vs d rest)

matching :
    (v : Validation) (d : DeploymentToValidate)
    → (d.entity_type == entity_type_scene) ≡ true
    → validate_if_type_matches entity_type_scene v d ≡ ok []
    → v d ≡ ok []
unfolding validate_if_type_matches validate_if_condition_met
matching v d is_scene h = ground (arith, is_scene, h)

scene_named :
    (name : Option Text) → named_problems (truthy name) ≡ [] → (w : Text) × (truthy name ≡ some w)
scene_named none h = cc
scene_named (some []) h = cc
scene_named (some (c ∷ s)) h = (c ∷ s, refl)

-- The schema of a scene says what is wrong when it refuses.
scene_entity_named :
    (errors : Option (List Text)) (name : Option Text)
    → ¬ (errors ≡ some [])
    → scene_entity_problems errors (truthy name) ≡ []
    → (w : Text) × (truthy name ≡ some w)
scene_entity_named none name reports h = scene_named name h
scene_entity_named (some []) name reports h = elim (reports refl) [ ]
scene_entity_named (some (m ∷ ms)) name reports h = cc

parsed :
    (parcels : List Text)
    → coordinate_problems parcels ≡ []
    → All (λ p. (c : Coordinate) × (parse_coordinate p ≡ ok c)) parcels
unfolding coordinate_problems
parsed [] h = tt
parsed (p ∷ ps) h =
    let (first, rest) = nothing_appended (coordinate_problem (parse_coordinate p)) _ h in
    (parsed_one (parse_coordinate p) first, parsed ps rest)
  where
    parsed_one :
        (r : Outcome Coordinate) → coordinate_problem r ≡ [] → (c : Coordinate) × (r ≡ ok c)
    parsed_one (ok c) g = (c, refl)
    parsed_one (err e) g = cc

entity_file :
    (id : Text) (file : Option DeploymentFile)
    → entity_id_problems id file ≡ []
    → (f : DeploymentFile) × (file ≡ some f) × (f.actual_hash ≡ id)
unfolding entity_id_problems
entity_file id none h = cc
entity_file id (some f) h = (f, refl, (text_beq_iff f.actual_hash id).0 (passed _ _ h))

uploads_match :
    (is_cid_v1 : Text → Bool) (d : DeploymentToValidate) (files : Map DeploymentFile)
    → uploaded_problems is_cid_v1 d files ≡ []
    → All (λ e. e.1.actual_hash ≡ e.0) files
unfolding uploaded_problems file_problems
uploads_match is_cid_v1 d [] h = tt
uploads_match is_cid_v1 d ((hash, f) ∷ fs) h =
    let (here, rest) = nothing_appended (file_problems is_cid_v1 d hash f) _ h in
    let cid = report_if (not (is_cid_v1 hash)) (not_a_cid_v1 hash) in
    let mismatch = report_if (not (f.actual_hash == hash)) (hash_mismatch hash) in
    let (valid, same) = nothing_appended (unknown_problems d hash ++ cid) mismatch here in
    (
      (text_beq_iff f.actual_hash hash).0
          (passed (f.actual_hash == hash) (hash_mismatch hash) same),
      uploads_match is_cid_v1 d fs rest,
    )

nothing_missing :
    (d : DeploymentToValidate) (content : List ContentMapping)
    → missing_problems d content ≡ []
    → All (λ c. (is_uploaded d c.hash || is_stored d c.hash) ≡ true) content
unfolding missing_problems
nothing_missing d [] h = tt
nothing_missing d (c ∷ cs) h =
    let (first, rest) =
      nothing_appended
        (report_if (not (is_uploaded d c.hash || is_stored d c.hash)) (missing_file c.hash)) _ h in
    (passed _ (missing_file c.hash) first, nothing_missing d cs rest)

sized :
    (max : ℕ) (size : Result Problem ℕ)
    → size_problems max size ≡ []
    → (n : ℕ) × (size ≡ ok n) × (n ≤ max)
sized max (err p) h = cc
sized max (ok n) h = (n, refl, within max n _ h)

module _ (k : ValidatorComponents) (d : DeploymentToValidate) where
  -- A fresh scene of a named world, that its signer may deploy there, within the limits, whose
  -- files are what their hashes say and all there.
  pub record IsAcceptable : Type 0 where
    pub scene : d.entity_type ≡ entity_type_scene
    pub named : (w : Text) × (truthy d.metadata.world_name ≡ some w)
    pub not_banned : check_name_deny_list k.banned_names (world_of d) ≡ true
    pub permitted : may_deploy k d ≡ true
    pub on_the_map :
        All (λ p. (c : Coordinate) × (parse_coordinate p ≡ ok c)) (deployment_parcels d)
    pub same_parcels :
        (q : Text)
        → includes q (canonicalize_parcels d.pointers)
          ≡ includes q (canonicalize_parcels (or_no_parcels d.metadata.scene_parcels))
    pub few_parcels :
        length (deployment_parcels d)
        ≤ get_max_allowed_parcels_for k.services k.hard_limits (world_of d)
    pub few_files : length d.content ≤ or_default k.max_file_count default_max_file_count
    pub max : ℕ
    pub within_max :
        get_max_allowed_size_in_bytes_for k.services k.hard_limits
          (world_of d)
          (some (deployment_parcels d))
          k.db
        ≡ ok max
    pub small : (n : ℕ) × (calculate_deployment_size k d ≡ ok n) × (n ≤ max)
    pub fresh : k.now - d.timestamp ≤ or_default k.deployment_ttl 300000
    pub entity :
        (f : DeploymentFile) × (get d.entity_id d.files ≡ some f) × (f.actual_hash ≡ d.entity_id)
    pub hashed : All (λ e. e.1.actual_hash ≡ e.0) d.files
    pub complete : All (λ c. (is_uploaded d c.hash || is_stored d c.hash) ≡ true) d.content

  size-within :
      validate_size k d ≡ ok []
      → (max : ℕ) × (get_max_allowed_size_in_bytes_for k.services k.hard_limits
            (world_of d)
            (some (deployment_parcels d))
            k.db
          ≡ ok max)
        × ((n : ℕ) × (calculate_deployment_size k d ≡ ok n) × (n ≤ max))
  unfolding validate_size
  size-within h =
      let (max, found, g) =
        >>=-eq-ok
          (get_max_allowed_size_in_bytes_for k.services k.hard_limits (world_of d)
            (some (deployment_parcels d)) k.db)
          _ h in
      (max, found, sized max (calculate_deployment_size k d) (ok_inj g))

  -- When the schema of scenes says what is wrong with each scene it refuses, a deployment that
  -- passes the validation, before and after the storage is asked, is a fresh scene of a named world
  -- whose name is not banned and where the signer owns the name or may deploy on its parcels. The
  -- parcels are coordinates in bounds, the same set as the scene's, and as few as the world may
  -- have; so are the files. The size is known and at most what the world may use, the entity and
  -- all uploaded files have the hash they go by, and all content is uploaded or stored.
  pub validate-accepts : ¬ (k.scene_schema d ≡ some []) → validate k d ≡ ok [] → IsAcceptable
  unfolding validate validate_before_storage validate_after_storage validate_supported_entity_type
      supported_type_problems validate_files validate_scene_entity validate_entity_id
      validate_deployment_ttl validate_file_count validate_parcel_coordinates
      validate_scene_pointers validate_banned_names validate_deployment_permission
      validate_scene_dimensions
  validate-accepts reports h =
      let (before, after) = both_ok (validate_before_storage k d) (validate_after_storage k d) h in
      let (base, (type, (count, (auth, (signer, (ttl, (id, (signature, (checks, u))))))))) =
        validate_all-ok (before_storage_validate_fns k) d before in
      let (files, (size, u)) = validate_all-ok (after_storage_validate_fns k) d after in
      let is_scene = passed (d.entity_type == entity_type_scene) _ (ok_inj type) in
      let (
        name,
        (
          config,
          (
            coordinates,
            (pointers, (authorized, (dimensions, (images, (textures, (thumbnail, u)))))),
          ),
        ),
      ) =
        validate_all-ok (scene_validations k) d
          (matching (validate_all (scene_validations k)) d is_scene checks) in
      let (allowed, (permission, u)) =
        validate_all-ok (validate_banned_names k ∷ validate_deployment_permission k ∷ []) d
          authorized in
      let (max, found, small) = size-within (matching (validate_size k) d is_scene size) in
      let (uploads, missing) =
        nothing_appended (uploaded_problems k.is_cid_v1 d d.files) _ (ok_inj files) in
      record {
        scene = (text_beq_iff d.entity_type entity_type_scene).0 is_scene;
        named = scene_entity_named (k.scene_schema d) d.metadata.world_name reports (ok_inj name);
        not_banned = passed _ banned_name (ok_inj allowed);
        permitted = passed _ no_permission (ok_inj permission);
        on_the_map = parsed (deployment_parcels d) (ok_inj coordinates);
        same_parcels = same_set-unique _ _ (passed _ pointers_differ (ok_inj pointers));
        few_parcels = within _ _ too_many_parcels (ok_inj dimensions);
        few_files =
            within _ _ too_many_files (ok_inj (matching (validate_file_count k) d is_scene count));
        max = max;
        within_max = found;
        small = small;
        fresh = within _ _ deployment_expired (ok_inj ttl);
        entity = entity_file d.entity_id (get d.entity_id d.files) (ok_inj id);
        hashed = uploads_match k.is_cid_v1 d d.files uploads;
        complete = nothing_missing d d.content missing;
      }
