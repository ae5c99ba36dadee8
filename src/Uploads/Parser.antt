-- ===== src/Uploads/Parser.antt =====
-- The handlers of a multipart body's parts: `parseAndHandle` of src/logic/multipart.ts. What
-- busboy, the streams and the timer report is a list of events; between two of them other uploads
-- may change the budget.
use worlds_content_server.Prelude.{
  ℕ, suc, ◌+◌, Bool, true, false, Option, none, some, List, [], ◌∷◌, ◌++◌, if◌then◌else◌, ltb, leb,
}
use worlds_content_server.Prelude.Positions.{get_elem?, update_at}
use worlds_content_server.Prelude.Text.{Text}
use worlds_content_server.Prelude.Map.{Map, get, set}
use worlds_content_server.Uploads.Budget.{Budget, Lease, resize_to, resize_files_to}

pub data MultipartRejectionReason : Type 0 where
  bytes concurrency timeout wire_size payload_size files storage invalid_multipart :
      MultipartRejectionReason

-- A rejection error with its reason and its `actualBytes`.
pub record Rejection : Type 0 where
  pub reason : MultipartRejectionReason
  pub actual_bytes : ℕ

-- An uploaded file: `filepath` is its number in the temporary directory.
pub record UploadedFile : Type 0 where
  pub fieldname : Text
  pub filepath : ℕ
  pub size : ℕ

-- A part that is being written: the variables of the `file` handler.
pub record Part : Type 0 where
  pub name : Text
  pub number : ℕ
  pub written : ℕ
  pub aborted : Bool
  pub finalized : Bool

-- What the pipeline fails with: the guard on the wire, or anything else.
pub data PipelineFailure : Type 0 where
  over_wire : (actual_bytes : ℕ) → PipelineFailure
  broken : PipelineFailure

pub record Parsing : Type 0 where
  pub fields : Map (List Text)
  pub uploaded : Map UploadedFile
  pub parts : List Part
  pub file_index : ℕ
  pub total_bytes : ℕ
  pub total_file_bytes : ℕ
  pub total_files : ℕ
  pub wire_bytes : ℕ
  pub parsing_error : Option Rejection
  pub pipeline_failure : Option PipelineFailure
  pub lease : Lease
  pub budget : Budget

pub data Event : Type 0 where
  chunk : (length : ℕ) → Event
  field : (name value : Text) (truncated : Bool) → Event
  file : (name : Text) → Event
  data_of : (part length : ℕ) → Event
  limit_of fails closes : (part : ℕ) → Event
  store_fails : (part : ℕ) → Event
  parts_limit files_limit fields_limit times_out breaks : Event
  others : Budget → Event

-- The first error is kept.
unfoldable pub abort_parsing : MultipartRejectionReason → ℕ → Parsing → Parsing
abort_parsing why actual p = elim p.parsing_error [
  | none ↦ record p { parsing_error = some (record { reason = why; actual_bytes = actual }) }
  | some e ↦ p
]

abbrev pub break_pipeline : PipelineFailure → Parsing → Parsing
break_pipeline why p = elim p.pipeline_failure [
  | none ↦ record p { pipeline_failure = some why }
  | some e ↦ p
]

abbrev pub has_failed : Parsing → Bool
has_failed p = elim p.parsing_error [ none ↦ false | some e ↦ true ]

abbrev pub new_part : Text → ℕ → Part
new_part name number = record {
  name = name;
  number = number;
  written = 0;
  aborted = false;
  finalized = false;
}

abbrev pub add_part : Text → Parsing → Parsing
add_part name p = record p {
  total_files = suc p.total_files;
  file_index = suc p.file_index;
  parts = p.parts ++ new_part name p.file_index ∷ [];
}

-- `stream.on('error')`, `close` before the end of the writing, a failed write.
abbrev pub abort_part : ℕ → Parsing → Parsing
abort_part i p = elim (get_elem? p.parts i) [
  | none ↦ p
  | some k ↦ record p { parts = update_at i (record k { aborted = true }) p.parts }
]

abbrev pub grow : ℕ → Part → ℕ → Parsing → Parsing
grow i k n p = record p {
  total_file_bytes = p.total_file_bytes + n;
  parts = update_at i (record k { written = k.written + n }) p.parts;
}

-- The file is listed once, when its writing has closed.
abbrev pub finalize : ℕ → Parsing → Parsing
finalize i p = elim (get_elem? p.parts i) [
  | none ↦ p
  | some k ↦ if k.finalized then p else record p {
    parts = update_at i (record k { finalized = true }) p.parts;
    uploaded =
        set k.name (record { fieldname = k.name; filepath = k.number; size = k.written })
          p.uploaded;
  }
]

abbrev pub append_value : Text → Option (List Text) → List Text
append_value value none = value ∷ []
append_value value (some values) = values ++ value ∷ []

-- A total beyond the lease grows the lease.
unfoldable pub reserve : Parsing → Bool × Parsing
reserve p =
    let (granted, lease, budget) = resize_to p.total_bytes p.lease p.budget in
    if leb p.total_bytes p.lease.lease_bytes
    then (true, p)
    else if granted
    then (true, record p { lease = lease; budget = budget })
    else (false, abort_parsing bytes p.total_bytes p)

abbrev pub store_field : Text → Text → Bool × Parsing → Parsing
store_field name value (false, p) = p
store_field name value (true, p) = record p {
  fields = set name (append_value value (get name p.fields)) p.fields;
}

abbrev pub write_part : ℕ → Part → ℕ → Bool × Parsing → Parsing
write_part i k n (false, p) = abort_part i p
write_part i k n (true, p) = grow i k n p

unfoldable pub on_file : Text → Parsing → Parsing
on_file name p =
    let (granted, lease, budget) = resize_files_to (suc p.total_files) p.lease p.budget in
    if granted
    then add_part name (record p { lease = lease; budget = budget })
    else abort_parsing files p.total_bytes p

-- The guard on the wire fails the pipeline.
unfoldable pub on_chunk : (max_wire_size : ℕ) → ℕ → Parsing → Parsing
on_chunk max_wire_size n p =
    let counted = record p { wire_bytes = p.wire_bytes + n } in
    if ltb max_wire_size counted.wire_bytes
    then break_pipeline (over_wire p.lease.lease_bytes) counted
    else counted

-- `byte_length` is `Buffer.byteLength`. The limits are safe integers, so the total that is passed
-- to `resize` is one, too.
module _ (max_size : ℕ) where
  unfoldable pub account_bytes : ℕ → Parsing → Bool × Parsing
  account_bytes n p =
      let counted = record p { total_bytes = p.total_bytes + n } in
      let reserved = reserve counted in
      if ltb max_size counted.total_bytes
      then (false, abort_parsing payload_size counted.total_bytes counted)
      else reserved

  unfoldable pub on_data : ℕ → ℕ → Parsing → Parsing
  on_data i n p = elim (get_elem? p.parts i) [
    | none ↦ p
    | some k ↦
        if k.aborted
        then p
        else if has_failed p
        then abort_part i p
        else write_part i k n (account_bytes n p)
  ]

module _ (byte_length : Text → ℕ) (max_size max_wire_size : ℕ) where
  unfoldable pub on_field : Text → Text → Bool → Parsing → Parsing
  on_field name value truncated p =
      if has_failed p
      then p
      else if truncated
      then abort_parsing payload_size (p.total_bytes + byte_length value) p
      else store_field name value (account_bytes max_size (byte_length value) p)

  unfoldable pub on_event : Event → Parsing → Parsing
  unfolding on_field on_file on_data on_chunk
  on_event (chunk n) p = on_chunk max_wire_size n p
  on_event (field name value truncated) p = on_field name value truncated p
  on_event (file name) p = on_file name p
  on_event (data_of i n) p = on_data max_size i n p
  on_event (limit_of i) p = abort_parsing payload_size p.total_bytes p
  on_event (fails i) p = abort_part i p
  on_event (closes i) p = finalize i p
  on_event (store_fails i) p = abort_part i (abort_parsing storage p.total_bytes p)
  on_event parts_limit p = abort_parsing invalid_multipart p.total_bytes p
  on_event files_limit p = abort_parsing invalid_multipart p.total_bytes p
  on_event fields_limit p = abort_parsing invalid_multipart p.total_bytes p
  on_event times_out p = abort_parsing timeout p.lease.lease_bytes p
  on_event breaks p = break_pipeline broken p
  on_event (others b) p = record p { budget = b }

  unfoldable pub parse : List Event → Parsing → Parsing
  parse [] p = p
  parse (e ∷ es) p = parse es (on_event e p)
