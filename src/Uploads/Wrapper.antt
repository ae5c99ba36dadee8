-- ===== src/Uploads/Wrapper.antt =====
-- What surrounds the parsing of a multipart body: `multipartParserWrapper` of
-- src/logic/multipart.ts, from the request's headers to the response and the clean-up. The handler
-- is a parameter; its exceptions are among its results. Telemetry and the draining of refused
-- bodies are left out.
use worlds_content_server.Prelude.{
  ℕ, Bool, true, false, not, ◌||◌, Option, none, some, List, [], ◌∷◌, if◌then◌else◌, ltb, leb,
}
use worlds_content_server.Prelude.Int.{ℤ, pos}
use worlds_content_server.Prelude.Lists.{all}
use worlds_content_server.Prelude.Number.{is_digit, digits_value}
use worlds_content_server.Prelude.Text.{Text}
use worlds_content_server.Prelude.Map.{Map}
use worlds_content_server.Prelude.Result.{ok, ◌>>=◌, guard}
use worlds_content_server.Errors.{Outcome, invalid_byte_limit}
use worlds_content_server.Uploads.Budget.{
  Budget, Lease, RejectionReason, no_bytes, no_concurrency, no_storage,
  validate_positive_byte_limit, validate_reservation_bytes, max_safe_integer, refusal, admit,
  new_lease, resize_to, release, release_retained_resources, keep_nothing, ReleaseOptions,
}
use worlds_content_server.Uploads.Parser.{
  MultipartRejectionReason, bytes, concurrency, timeout, wire_size, payload_size, files, storage,
  invalid_multipart, UploadedFile, Parsing, PipelineFailure, over_wire, broken, Event, parse,
}

pub record WrapperOptions : Type 0 where
  pub max_size_in_bytes : ℤ
  pub max_wire_size_in_bytes : ℤ
  pub upload_timeout_ms : ℤ
  pub cleanup_retry_delays_ms : List ℤ

abbrev check_delays : List ℤ → Outcome (Unit {0})
check_delays [] = ok tt
check_delays (d ∷ ds) = let rest = check_delays ds in validate_reservation_bytes d >>= λ n. rest

-- The limits on the payload and on the wire, when the wrapper may be built.
unfoldable pub check_options : WrapperOptions → Budget → Outcome (ℕ × ℕ)
check_options o b = do
  max_size ← validate_positive_byte_limit o.max_size_in_bytes
  max_wire ← validate_positive_byte_limit o.max_wire_size_in_bytes
  capacity ← validate_positive_byte_limit (pos b.limits.capacity)
  upload_timeout ← validate_positive_byte_limit o.upload_timeout_ms
  delays ← check_delays o.cleanup_retry_delays_ms
  enough ← guard (leb max_size capacity) invalid_byte_limit
  wide ← guard (leb max_size max_wire) invalid_byte_limit
  ok (max_size, max_wire)

pub data Response {ℓ} (R : Type ℓ) : Type ℓ where
  invalid_request : MultipartRejectionReason → Response R
  refused : (status : ℕ) (retry_after : Bool) (reason : MultipartRejectionReason) → Response R
  answers : R → Response R

abbrev is_empty : Text → Bool
is_empty [] = true
is_empty (c ∷ cs) = false

-- `/^\d+$/` and `Number`, on the header `Content-Length`.
unfoldable pub check_content_length : ℕ → Option Text → Option MultipartRejectionReason
check_content_length max_wire_size none = none
check_content_length max_wire_size (some header) =
    if is_empty header || not (all is_digit header)
    then some invalid_multipart
    else if ltb max_safe_integer (digits_value 0 header)
        || ltb max_wire_size (digits_value 0 header)
    then some wire_size
    else none

abbrev pub refusal_reason : RejectionReason → MultipartRejectionReason
refusal_reason no_bytes = bytes
refusal_reason no_concurrency = concurrency
refusal_reason no_storage = storage

unfoldable pub rejection_response {ℓ} : {R : Type ℓ} → MultipartRejectionReason → Response R
rejection_response bytes = refused 503 true bytes
rejection_response files = refused 503 true files
rejection_response storage = refused 503 true storage
rejection_response timeout = refused 408 false timeout
rejection_response concurrency = invalid_request concurrency
rejection_response wire_size = invalid_request wire_size
rejection_response payload_size = invalid_request payload_size
rejection_response invalid_multipart = invalid_request invalid_multipart

abbrev pub failure_reason : PipelineFailure → MultipartRejectionReason
failure_reason (over_wire n) = wire_size
failure_reason broken = invalid_multipart

-- What the parsing fails with: an error of a part first, then the pipeline's.
unfoldable pub parsing_failure : Parsing → Option MultipartRejectionReason
parsing_failure p = elim p.parsing_error [
  | some e ↦ some e.reason
  | none ↦ elim p.pipeline_failure [ none ↦ none | some why ↦ some (failure_reason why) ]
]

abbrev pub start_parsing : Lease → Budget → Parsing
start_parsing lease b = record {
  fields = [];
  uploaded = [];
  parts = [];
  file_index = 0;
  total_bytes = 0;
  total_file_bytes = 0;
  total_files = 0;
  wire_bytes = 0;
  parsing_error = none;
  pipeline_failure = none;
  lease = lease;
  budget = b;
}

-- What is left on disk when the directory was not removed.
abbrev pub keep_files : Parsing → ReleaseOptions
keep_files p = record {
  retain_bytes = some (pos p.total_file_bytes);
  retain_files = some (pos p.total_files);
  retain_directory = some true;
}

-- The `finally` of the parsing, then that of the request: the second release does nothing after
-- the first.
unfoldable pub clean_up : (removed : Bool) → Parsing → Outcome (Lease × Budget)
clean_up true p = release keep_nothing p.lease p.budget
clean_up false p = release (keep_files p) p.lease p.budget >>= λ r. release keep_nothing r.0 r.1

-- The retries of the removal, one for each delay: the results say how far they went.
unfoldable pub retry_cleanup :
    (delays : List ℤ) (removals : List Bool) → Lease × Budget → Lease × Budget
retry_cleanup [] removals r = r
retry_cleanup (d ∷ ds) [] r = r
retry_cleanup (d ∷ ds) (true ∷ removals) (l, b) = release_retained_resources l b
retry_cleanup (d ∷ ds) (false ∷ removals) r = retry_cleanup ds removals r

module _ {ℓ} {R : Type ℓ} (handler : Map (List Text) → Map UploadedFile → R) where
  -- The handler runs on a lease of exactly the parsed bytes.
  unfoldable pub handle_parsed : Parsing → Response R × Parsing
  handle_parsed p =
      let (granted, lease, budget) = resize_to p.total_bytes p.lease p.budget in
      elim (parsing_failure p) [
        | some reason ↦ (rejection_response reason, p)
        | none ↦
            if granted
            then (
              answers (handler p.fields p.uploaded),
              record p { lease = lease; budget = budget },
            )
            else (rejection_response bytes, p)
      ]

module _ {ℓ} {R : Type ℓ} (handler : Map (List Text) → Map UploadedFile → R)
    (byte_length : Text → ℕ) (max_size max_wire_size : ℕ) where
  -- A request: the response, and the lease and the budget that it leaves, if it had a lease.
  unfoldable pub serve :
      Option Text
      → List Event
      → (removed : Bool) → Budget
      → Response R × Outcome (Option Lease × Budget)
  serve content_length events removed b = elim (check_content_length max_wire_size content_length) [
    | some reason ↦ (invalid_request reason, ok (none, b))
    | none ↦ elim (refusal 0 b) [
      | some reason ↦ (refused 503 true (refusal_reason reason), ok (none, b))
      | none ↦
          let (response, p) = handle_parsed handler (
            parse byte_length max_size max_wire_size events
              (start_parsing (new_lease 0) (admit 0 b))) in
          (response, clean_up removed p >>= λ r. ok (some r.0, r.1))
    ]
  ]
