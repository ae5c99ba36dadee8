-- ===== src/Uploads/Budget.antt =====
-- The budget of uploads in flight: `createInFlightUploadBudget` of src/logic/multipart.ts. The
-- closures that it returns are the members of `leases` and of `drains`, in order of creation.
-- Subtraction stops at 0, which Uploads/Accounts shows never to happen to a counter.
use worlds_content_server.Prelude.{
  ℕ, suc, ◌+◌, ◌-◌, Bool, true, false, ◌&&◌, ◌||◌, Option, none, some, List, [], ◌∷◌, ◌++◌,
  if◌then◌else◌, ltb, leb,
}
use worlds_content_server.Prelude.Int.{ℤ, pos, negsuc}
use worlds_content_server.Prelude.Result.{ok, err, ◌>>=◌}
use worlds_content_server.Errors.{
  Outcome, invalid_byte_limit, invalid_reservation, retained_exceeds_reservation,
}

-- `Number.MAX_SAFE_INTEGER`.
abbrev pub max_safe_integer : ℕ
max_safe_integer = 9007199254740991

pub record Limits : Type 0 where
  pub capacity : ℕ
  pub max_concurrent_uploads : ℕ
  pub max_in_flight_upload_files : ℕ
  pub max_orphaned_upload_directories : ℕ

-- The counters of a snapshot.
pub record Counters : Type 0 where
  pub reserved_bytes : ℕ
  pub orphaned_bytes : ℕ
  pub reserved_files : ℕ
  pub orphaned_files : ℕ
  pub orphaned_directories : ℕ
  pub active_uploads : ℕ

-- The variables that one lease's functions close over.
pub record Lease : Type 0 where
  pub lease_bytes : ℕ
  pub lease_files : ℕ
  pub released : Bool
  pub retained_bytes : ℕ
  pub retained_files : ℕ
  pub retained_directory : Bool

-- `drains` says of each rejected body whether its drain was released; `emitted` is what the
-- listener received, the latest first.
pub record Budget : Type 0 where
  pub limits : Limits
  pub counters : Counters
  pub active_rejected_body_drains : ℕ
  pub leases : List Lease
  pub drains : List Bool
  pub emitted : List Counters

pub record ReleaseOptions : Type 0 where
  pub retain_bytes : Option ℤ
  pub retain_files : Option ℤ
  pub retain_directory : Option Bool

pub data RejectionReason : Type 0 where
  no_bytes no_concurrency no_storage : RejectionReason

-- Integers only: what JavaScript calls a safe integer is one within bounds.
abbrev pub validate_positive_byte_limit : ℤ → Outcome ℕ
validate_positive_byte_limit (pos n) =
    if ltb 0 n && leb n max_safe_integer then ok n else err invalid_byte_limit
validate_positive_byte_limit (negsuc n) = err invalid_byte_limit

abbrev pub validate_reservation_bytes : ℤ → Outcome ℕ
validate_reservation_bytes (pos n) =
    if leb n max_safe_integer then ok n else err invalid_reservation
validate_reservation_bytes (negsuc n) = err invalid_reservation

abbrev pub empty_counters : Counters
empty_counters = record {
  reserved_bytes = 0;
  orphaned_bytes = 0;
  reserved_files = 0;
  orphaned_files = 0;
  orphaned_directories = 0;
  active_uploads = 0;
}

abbrev pub empty_budget : Limits → Budget
empty_budget limits = record {
  limits = limits;
  counters = empty_counters;
  active_rejected_body_drains = 0;
  leases = [];
  drains = [];
  emitted = [];
}

unfoldable pub create_in_flight_upload_budget : ℤ → ℤ → ℤ → ℤ → Outcome Budget
create_in_flight_upload_budget capacity uploads files directories = do
  capacity ← validate_positive_byte_limit capacity
  uploads ← validate_positive_byte_limit uploads
  files ← validate_positive_byte_limit files
  directories ← validate_positive_byte_limit directories
  ok (
      empty_budget (record {
        capacity = capacity;
        max_concurrent_uploads = uploads;
        max_in_flight_upload_files = files;
        max_orphaned_upload_directories = directories;
      }))

-- The counters after a call, which the listener receives.
abbrev pub emit_state : Counters → Budget → Budget
emit_state c b = record b { counters = c; emitted = c ∷ b.emitted }

abbrev pub new_lease : ℕ → Lease
new_lease bytes = record {
  lease_bytes = bytes;
  lease_files = 0;
  released = false;
  retained_bytes = 0;
  retained_files = 0;
  retained_directory = false;
}

abbrev pub admit : ℕ → Budget → Budget
admit bytes b =
    record (emit_state
      (record b.counters {
        reserved_bytes = b.counters.reserved_bytes + bytes;
        active_uploads = suc b.counters.active_uploads;
      })
      b) { leases = b.leases ++ new_lease bytes ∷ [] }

-- The reason of a refusal, if there is one.
unfoldable pub refusal : ℕ → Budget → Option RejectionReason
refusal bytes b =
    if leb b.limits.max_concurrent_uploads b.counters.active_uploads
    then some no_concurrency
    else if leb b.limits.max_orphaned_upload_directories b.counters.orphaned_directories
    then some no_storage
    else if ltb b.limits.capacity (b.counters.reserved_bytes + bytes)
    then some no_bytes
    else none

unfoldable pub acquire_bytes : ℕ → Budget → Option RejectionReason × Budget
acquire_bytes n b = elim (refusal n b) [ none ↦ (none, admit n b) | some reason ↦ (some reason, b) ]

abbrev pub acquire : ℤ → Budget → Outcome (Option RejectionReason × Budget)
acquire bytes b = do n ← validate_reservation_bytes bytes; ok (acquire_bytes n b)

-- The functions of one lease return its new variables, and the budget with new counters.
unfoldable pub resize_to : ℕ → Lease → Budget → Bool × Lease × Budget
resize_to n l b =
    if l.released || ltb b.limits.capacity (b.counters.reserved_bytes - l.lease_bytes + n)
    then (false, l, b)
    else (
      true,
      record l { lease_bytes = n },
      emit_state
          (record b.counters { reserved_bytes = b.counters.reserved_bytes - l.lease_bytes + n }) b,
    )

abbrev pub resize : ℤ → Lease → Budget → Outcome (Bool × Lease × Budget)
resize next_bytes l b = do n ← validate_reservation_bytes next_bytes; ok (resize_to n l b)

unfoldable pub resize_files_to : ℕ → Lease → Budget → Bool × Lease × Budget
resize_files_to n l b =
    if l.released
      || ltb b.limits.max_in_flight_upload_files (b.counters.reserved_files - l.lease_files + n)
    then (false, l, b)
    else (
      true,
      record l { lease_files = n },
      emit_state
          (record b.counters { reserved_files = b.counters.reserved_files - l.lease_files + n }) b,
    )

abbrev pub resize_files : ℤ → Lease → Budget → Outcome (Bool × Lease × Budget)
resize_files next_files l b = do
  n ← validate_reservation_bytes next_files
  ok (resize_files_to n l b)

-- `lease.release()`.
abbrev pub keep_nothing : ReleaseOptions
keep_nothing = record { retain_bytes = none; retain_files = none; retain_directory = none }

abbrev pub or_zero : Option ℤ → ℤ
or_zero none = pos 0
or_zero (some n) = n

abbrev pub or_false : Option Bool → Bool
or_false none = false
or_false (some b) = b

abbrev pub count : Bool → ℕ
count true = 1
count false = 0

abbrev pub retain : ℕ → ℕ → Bool → Lease → Budget → Lease × Budget
retain bytes files directory l b = (
  record l {
    released = true;
    retained_bytes = bytes;
    retained_files = files;
    retained_directory = directory;
  },
  emit_state
      (record {
        reserved_bytes = b.counters.reserved_bytes - (l.lease_bytes - bytes);
        orphaned_bytes = b.counters.orphaned_bytes + bytes;
        reserved_files = b.counters.reserved_files - (l.lease_files - files);
        orphaned_files = b.counters.orphaned_files + files;
        orphaned_directories = b.counters.orphaned_directories + count directory;
        active_uploads = b.counters.active_uploads - 1;
      })
      b,
)

-- What is released cannot retain more than the lease holds.
unfoldable pub release_to : ℕ → ℕ → Bool → Lease → Budget → Outcome (Lease × Budget)
release_to bytes files directory l b =
    if ltb l.lease_bytes bytes || ltb l.lease_files files
    then err retained_exceeds_reservation
    else ok (retain bytes files directory l b)

abbrev pub release_active : ReleaseOptions → Lease → Budget → Outcome (Lease × Budget)
release_active options l b = do
  bytes ← validate_reservation_bytes (or_zero options.retain_bytes)
  files ← validate_reservation_bytes (or_zero options.retain_files)
  release_to bytes files (or_false options.retain_directory) l b

unfoldable pub release : ReleaseOptions → Lease → Budget → Outcome (Lease × Budget)
release options l b =
    let next = release_active options l b in if l.released then ok (l, b) else next

abbrev pub drop_retained : Lease → Budget → Lease × Budget
drop_retained l b = (
  record l { retained_bytes = 0; retained_files = 0; retained_directory = false },
  emit_state
      (record b.counters {
        reserved_bytes = b.counters.reserved_bytes - l.retained_bytes;
        orphaned_bytes = b.counters.orphaned_bytes - l.retained_bytes;
        reserved_files = b.counters.reserved_files - l.retained_files;
        orphaned_files = b.counters.orphaned_files - l.retained_files;
        orphaned_directories = b.counters.orphaned_directories - count l.retained_directory;
      })
      b,
)

unfoldable pub release_retained_resources : Lease → Budget → Lease × Budget
release_retained_resources l b =
    if ltb 0 l.retained_bytes || ltb 0 l.retained_files || l.retained_directory
    then drop_retained l b
    else (l, b)

-- A drain is admitted while fewer run than uploads may; it is released once.
unfoldable pub try_acquire_rejected_body_drain : Budget → Bool × Budget
try_acquire_rejected_body_drain b =
    if leb b.limits.max_concurrent_uploads b.active_rejected_body_drains then (false, b) else (
      true,
      record b {
        active_rejected_body_drains = suc b.active_rejected_body_drains;
        drains = b.drains ++ false ∷ [];
      },
    )

unfoldable pub release_drain : Bool → Budget → Bool × Budget
release_drain released b =
    if released
    then (released, b)
    else (true, record b { active_rejected_body_drains = b.active_rejected_body_drains - 1 })

-- The variables and the budget that a resize leaves, without its answer.
abbrev pub answered : Outcome (Bool × Lease × Budget) → Outcome (Lease × Budget)
answered (err e) = err e
answered (ok (a, l, b)) = ok (l, b)
