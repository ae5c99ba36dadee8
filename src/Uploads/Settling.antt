-- ===== src/Uploads/Settling.antt =====
-- How an upload of src/logic/multipart.ts ends: its lease is released whatever happened, and keeps
-- what is left on disk until a retry removes it.
use worlds_content_server.Prelude.{
  ℕ, ◌≤◌, ◌≡◌, refl, Bool, true, false, not, ◌||◌, none, List, [], ◌∷◌, arith, if◌then◌else◌, ltb,
  leb, Bool-cases, Option-cases, inl, inr,
}
use worlds_content_server.Prelude.Int.{ℤ}
use worlds_content_server.Prelude.Lists.{length, take, any}
use worlds_content_server.Prelude.Positions.{total}
use worlds_content_server.Prelude.Text.{Text}
use worlds_content_server.Prelude.Map.{Map}
use worlds_content_server.Prelude.Result.{ok}
use worlds_content_server.Uploads.Budget.{
  Budget, Lease, max_safe_integer, new_lease, release, release_to, release_retained_resources,
  resize_to, retain,
}
use worlds_content_server.Uploads.Parser.{
  MultipartRejectionReason, bytes, Parsing, UploadedFile, Event, parse,
}
use worlds_content_server.Uploads.Wrapper.{
  Response, answers, start_parsing, clean_up, retry_cleanup, handle_parsed, parsing_failure,
  rejection_response,
}
use worlds_content_server.Uploads.Covering.{IsWithin, IsCovered}
use worlds_content_server.Uploads.Parsing.{parse_from-IsWithin}

start_parsing-IsWithin : (m : ℕ) (b : Budget) → IsWithin m (start_parsing (new_lease 0) b)
unfolding total
start_parsing-IsWithin m b = record { covered = ground arith; accepted = λ h. ground arith }

-- What the lease keeps when the request is over.
pub record IsSettled (removed : Bool) (p : Parsing) (l : Lease) : Type 0 where
  pub released : l.released ≡ true
  pub kept_bytes : l.retained_bytes ≡ (if removed then 0 else p.total_file_bytes)
  pub kept_files : l.retained_files ≡ (if removed then 0 else p.total_files)
  pub kept_directory : l.retained_directory ≡ not removed

module _ (p : Parsing) {m : ℕ} (c : IsCovered m p) (safe : m ≤ max_safe_integer) where
  kept_files_fit :
      p.total_files ≤ max_safe_integer
      → clean_up false p ≡ ok (retain p.total_file_bytes p.total_files true p.lease p.budget)
  unfolding clean_up release release_to
  kept_files_fit y =
      let a : leb p.total_file_bytes max_safe_integer ≡ true = ground (arith, c.fit, safe) in
      let b : leb p.total_files max_safe_integer ≡ true = ground (arith, y) in
      let d : (ltb p.lease.lease_bytes p.total_file_bytes || ltb p.lease.lease_files p.total_files)
          ≡ false =
        ground (arith, c.held, c.filed) in
      rw (c.out, a, b, d) refl

  clean_up-IsSettled :
      (removed : Bool)
      → p.total_files ≤ max_safe_integer
      → (l : Lease) × (b : Budget) × (clean_up removed p ≡ ok (l, b)) × IsSettled removed p l
  unfolding clean_up release release_to
  clean_up-IsSettled true y =
      let (l, b) = retain 0 0 false p.lease p.budget in
      (
        l,
        b,
        ground (arith, c.out),
        record { released = refl; kept_bytes = refl; kept_files = refl; kept_directory = refl },
      )
  clean_up-IsSettled false y =
      let (l, b) = retain p.total_file_bytes p.total_files true p.lease p.budget in
      (
        l,
        b,
        kept_files_fit y,
        record { released = refl; kept_bytes = refl; kept_files = refl; kept_directory = refl },
      )

resize_to_granted :
    (n : ℕ) (l : Lease) (b : Budget)
    → (resize_to n l b).0 ≡ true
    → (resize_to n l b).1 ≡ record l { lease_bytes = n }
unfolding resize_to
resize_to_granted n l b h = ground arith

parsing_failure-none : (p : Parsing) → parsing_failure p ≡ none → p.parsing_error ≡ none
unfolding parsing_failure
parsing_failure-none p h = ground arith

module _ {ℓ} {R : Type ℓ} (handler : Map (List Text) → Map UploadedFile → R) (p : Parsing) where
  -- The three ways through the last steps: rejected, refused for want of bytes, handled.
  handle_parsed_cases {κ} :
      (P : Response R × Parsing → Type κ)
      → ((reason : MultipartRejectionReason) → P (rejection_response reason, p))
      → ((b : Budget)
          → parsing_failure p ≡ none
          → P (
            answers (handler p.fields p.uploaded),
            record p { lease = record p.lease { lease_bytes = p.total_bytes }; budget = b },
          ))
      → P (handle_parsed handler p)
  unfolding handle_parsed
  handle_parsed_cases P rejected handled = elim (Option-cases (parsing_failure p)) [
    | inr (e, q) ↦ rw (handle_parsed, q) (rejected e)
    | inl q ↦ elim (Bool-cases ((resize_to p.total_bytes p.lease p.budget).0)) [
      | inl z ↦
          rw (handle_parsed, q, z, resize_to_granted p.total_bytes p.lease p.budget z) (handled _ q)
      | inr z ↦ rw (handle_parsed, q, z) (rejected bytes)
    ]
  ]

  handle_parsed-IsCovered : {m : ℕ} → IsWithin m p → IsCovered m ((handle_parsed handler p).1)
  handle_parsed-IsCovered {m} h =
      handle_parsed_cases (λ r. IsCovered m r.1) (λ e. h.covered)
        (λ b q. let within = h.accepted (parsing_failure-none p q) in ground arith)

retry_cleanup_empties :
    (delays : List ℤ) (removals : List Bool) (l : Lease) (b : Budget)
    → any (λ r. r) (take (length delays) removals) ≡ true
    → let l' = (retry_cleanup delays removals (l, b)).0 in
      (l'.retained_bytes ≡ 0) × (l'.retained_files ≡ 0) × (l'.retained_directory ≡ false)
unfolding retry_cleanup any release_retained_resources
retry_cleanup_empties [] rs l b h = cc
retry_cleanup_empties (d ∷ ds) [] l b h = cc
retry_cleanup_empties (d ∷ ds) (true ∷ rs) l b h = ground arith
retry_cleanup_empties (d ∷ ds) (false ∷ rs) l b h = retry_cleanup_empties ds rs l b h

module _ {ℓ} {R : Type ℓ} (handler : Map (List Text) → Map UploadedFile → R)
    (byte_length : Text → ℕ) (m w : ℕ) (es : List Event) (b : Budget) where
  parsed : Parsing
  parsed = parse byte_length m w es (start_parsing (new_lease 0) b)

  parsed-IsWithin : IsWithin m parsed
  unfolding parsed
  parsed-IsWithin =
      parse_from-IsWithin byte_length m w es (start_parsing (new_lease 0) b)
        (start_parsing-IsWithin m b)

  -- Whatever happens to a body, if its parts are fewer than the safe integers (busboy stops at
  -- 10,000 files) and the limit is one of them, the clean-up throws no error: the lease is
  -- released, and it keeps the bytes, the files and the directory that are left on disk exactly
  -- when the directory was not removed. A retry that removes the directory empties it.
  pub clean_up-settles :
      (removed : Bool) (delays : List ℤ) (removals : List Bool)
      → m ≤ max_safe_integer
      → (handle_parsed handler
          (parse byte_length m w es (start_parsing (new_lease 0) b))).1.total_files
        ≤ max_safe_integer
      → let p =
          (handle_parsed handler (parse byte_length m w es (start_parsing (new_lease 0) b))).1 in
        (l : Lease) × (b' : Budget) × (clean_up removed p ≡ ok (l, b'))
        × IsSettled removed p l
        × (any (λ r. r) (take (length delays) removals) ≡ true
            → ((retry_cleanup delays removals (l, b')).0.retained_bytes ≡ 0)
              × ((retry_cleanup delays removals (l, b')).0.retained_files ≡ 0)
              × ((retry_cleanup delays removals (l, b')).0.retained_directory ≡ false))
  unfolding parsed
  clean_up-settles removed delays removals safe few =
      let c = handle_parsed-IsCovered handler parsed parsed-IsWithin in
      let (l, b', e, h) = clean_up-IsSettled _ c safe removed few in
      (l, b', e, h, retry_cleanup_empties delays removals l b')
