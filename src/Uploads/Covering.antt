-- ===== src/Uploads/Covering.antt =====
-- What the lease of a multipart body in src/logic/multipart.ts covers, and the steps that the
-- handlers of its parts share.
use worlds_content_server.Prelude.{
  ℕ, ◌+◌, ◌-◌, ◌≤◌, ◌≡◌, sym, ◌∙◌, Bool, true, false, none, ◌||◌, arith, ltb, leb, Bool-cases,
  Option-cases, inl, inr,
}
use worlds_content_server.Prelude.Lists.{length}
use worlds_content_server.Prelude.Positions.{get_elem?, length-update_at, total, total-update_at}
use worlds_content_server.Uploads.Budget.{Budget, resize_to}
use worlds_content_server.Uploads.Parser.{
  MultipartRejectionReason, bytes, payload_size, Parsing, PipelineFailure, abort_parsing,
  break_pipeline, abort_part, reserve, account_bytes,
}

-- The lease covers the files that were written, and the counts are those of the parts.
pub record IsCovered (m : ℕ) (p : Parsing) : Type 0 where
  pub out : p.lease.released ≡ false
  pub held : p.total_file_bytes ≤ p.lease.lease_bytes
  pub fit : p.total_file_bytes ≤ m
  pub counted : p.total_file_bytes ≤ p.total_bytes
  pub filed : p.total_files ≤ p.lease.lease_files
  pub sizes : total (λ k. k.written) p.parts ≡ p.total_file_bytes
  pub numbered : length p.parts ≡ p.total_files

-- While nothing was refused, the total is within the limit and within the lease.
pub record IsWithin (max_size : ℕ) (p : Parsing) : Type 0 where
  pub covered : IsCovered max_size p
  pub accepted :
      p.parsing_error ≡ none → (p.total_bytes ≤ max_size) × (p.total_bytes ≤ p.lease.lease_bytes)

module _ (m : ℕ) (p : Parsing) where
  pub abort_parsing-IsWithin :
      (why : MultipartRejectionReason) (n : ℕ) → IsCovered m p → IsWithin m (abort_parsing why n p)
  unfolding abort_parsing
  abort_parsing-IsWithin why n c = elim (Option-cases p.parsing_error) [
    | inl e ↦ rw (abort_parsing, e) (record { covered = ground arith; accepted = λ h. cc h })
    | inr (x, e) ↦ rw (abort_parsing, e) (record { covered = c; accepted = λ h. cc (sym e ∙ h) })
  ]

  pub break_pipeline-IsWithin :
      (why : PipelineFailure) → IsWithin m p → IsWithin m (break_pipeline why p)
  break_pipeline-IsWithin why h =
      let c = h.covered in
      elim (Option-cases p.pipeline_failure) [
        | inl e ↦ rw (break_pipeline, e) (record { covered = ground arith; accepted = h.accepted })
        | inr (x, e) ↦ rw (break_pipeline, e) h
      ]

  pub abort_part-IsWithin : (i : ℕ) → IsWithin m p → IsWithin m (abort_part i p)
  abort_part-IsWithin i h =
      let c = h.covered in
      elim (Option-cases (get_elem? p.parts i)) [
        | inl e ↦ rw (abort_part, e) h
        | inr (k, e) ↦
            rw (abort_part, e)
              (record {
                covered = record {
                  out = c.out;
                  fit = ground arith;
                  held = c.held;
                  counted = c.counted;
                  filed = c.filed;
                  sizes = ground (
                    arith,
                    c.sizes,
                    total-update_at (λ k. k.written) p.parts i (record k { aborted = true }) e,
                  );
                  numbered = length-update_at p.parts i _ ∙ c.numbered;
                };
                accepted = h.accepted;
              })
      ]

  pub account_bytes_cases :
      (P : Bool × Parsing → Type 0) (n : ℕ)
      → ((why : MultipartRejectionReason) (actual : ℕ)
          → P (false, abort_parsing why actual (record p { total_bytes = p.total_bytes + n })))
      → (p.total_bytes + n ≤ m
          → p.total_bytes + n ≤ p.lease.lease_bytes
          → P (true, record p { total_bytes = p.total_bytes + n }))
      → ((b : Budget)
          → p.total_bytes + n ≤ m
          → p.lease.lease_bytes ≤ p.total_bytes + n
          → P (
            true,
            record p {
              total_bytes = p.total_bytes + n;
              lease = record p.lease { lease_bytes = p.total_bytes + n };
              budget = b;
            },
          ))
      → P (account_bytes m n p)
  unfolding account_bytes reserve resize_to
  account_bytes_cases P n refused within grown = elim (Bool-cases (ltb m (p.total_bytes + n))) [
    | inl e ↦ rw e (refused payload_size (p.total_bytes + n))
    | inr e ↦ elim (Bool-cases (leb (p.total_bytes + n) p.lease.lease_bytes)) [
      | inl q ↦ rw (e, q) (within (ground arith) (ground arith))
      | inr q ↦
          elim (Bool-cases (
            p.lease.released
            || ltb p.budget.limits.capacity
                (p.budget.counters.reserved_bytes - p.lease.lease_bytes + (p.total_bytes + n)))) [
                  | inl z ↦ rw (e, q, z) (refused bytes (p.total_bytes + n))
                  | inr z ↦ rw (e, q, z) (grown _ (ground arith) (ground arith))
                ]
    ]
  ]
