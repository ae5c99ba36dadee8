-- ===== src/Uploads/Parsing.antt =====
-- What the parsing of a multipart body in src/logic/multipart.ts accounts for: its lease covers
-- what it has written, at every moment, whatever the events are.
use worlds_content_server.Prelude.{
  ℕ, suc, ◌+◌, ◌-◌, ◌≡◌, ◌∙◌, Bool, true, some, List, [], ◌∷◌, ◌||◌, arith, ltb, Bool-cases,
  Option-cases, inl, inr,
}
use worlds_content_server.Prelude.Lists.{length-append}
use worlds_content_server.Prelude.Positions.{
  get_elem?, length-update_at, total, total-append, total-update_at,
}
use worlds_content_server.Prelude.Text.{Text}
use worlds_content_server.Uploads.Budget.{resize_files_to}
use worlds_content_server.Uploads.Parser.{
  files, Part, Parsing, Event, chunk, field, file, data_of, limit_of, fails, closes, store_fails,
  parts_limit, files_limit, fields_limit, times_out, breaks, others, has_failed, new_part, finalize,
  account_bytes, store_field, on_field, on_file, write_part, on_data, on_chunk, on_event, parse,
}
use worlds_content_server.Uploads.Covering.{
  IsCovered, IsWithin, abort_parsing-IsWithin, break_pipeline-IsWithin, abort_part-IsWithin,
  account_bytes_cases,
}

module _ (m : ℕ) (p : Parsing) (h : IsWithin m p) where
  finalize-IsWithin : (i : ℕ) → IsWithin m (finalize i p)
  finalize-IsWithin i =
      let c = h.covered in
      elim (Option-cases (get_elem? p.parts i)) [
        | inl e ↦ rw (finalize, e) h
        | inr (k, e) ↦ elim (Bool-cases k.finalized) [
          | inl q ↦ rw (finalize, e, q) h
          | inr q ↦
              rw (finalize, e, q)
                (record {
                  covered = record {
                    out = c.out;
                    fit = ground arith;
                    held = c.held;
                    counted = c.counted;
                    filed = c.filed;
                    sizes = ground (
                      arith,
                      c.sizes,
                      total-update_at (λ k. k.written) p.parts i (record k { finalized = true }) e,
                    );
                    numbered = length-update_at p.parts i _ ∙ c.numbered;
                  };
                  accepted = h.accepted;
                })
        ]
      ]

  refused-IsCovered : (n : ℕ) → IsCovered m (record p { total_bytes = p.total_bytes + n })
  refused-IsCovered n = let c = h.covered in ground arith

  store_field-IsWithin :
      (name value : Text) (n : ℕ) → IsWithin m (store_field name value (account_bytes m n p))
  store_field-IsWithin name value n =
      account_bytes_cases m p (λ r. IsWithin m (store_field name value r)) n
        (λ why k. abort_parsing-IsWithin m _ why k (refused-IsCovered n))
        (λ a b. record { covered = ground arith; accepted = λ z. (a, b) })
        (λ b x y.
          let c = h.covered in
          record {
            covered = record {
              out = c.out;
              fit = ground arith;
              held = ground arith;
              counted = ground arith;
              filed = c.filed;
              sizes = c.sizes;
              numbered = c.numbered;
            };
            accepted = λ z. (x, omega arith);
          })

  write_part-IsWithin :
      (i n : ℕ) {k : Part}
      → get_elem? p.parts i ≡ some k
      → IsWithin m (write_part i k n (account_bytes m n p))
  write_part-IsWithin i n {k} e =
      account_bytes_cases m p (λ r. IsWithin m (write_part i k n r)) n
        (λ why k.
          abort_part-IsWithin m _ i (abort_parsing-IsWithin m _ why k (refused-IsCovered n)))
        (λ a b.
          let c = h.covered in
          record {
            covered = record {
              out = c.out;
              fit = ground arith;
              held = ground arith;
              counted = ground arith;
              filed = c.filed;
              sizes = ground (
                arith,
                c.sizes,
                total-update_at (λ k. k.written) p.parts i (record k { written = k.written + n }) e,
              );
              numbered = length-update_at p.parts i _ ∙ c.numbered;
            };
            accepted = λ z. (a, b);
          })
        (λ b x y.
          let c = h.covered in
          record {
            covered = record {
              out = c.out;
              fit = ground arith;
              held = ground arith;
              counted = ground arith;
              filed = c.filed;
              sizes = ground (
                arith,
                c.sizes,
                total-update_at (λ k. k.written) p.parts i (record k { written = k.written + n }) e,
              );
              numbered = length-update_at p.parts i _ ∙ c.numbered;
            };
            accepted = λ z. (x, omega arith);
          })

  on_file-IsWithin : (name : Text) → IsWithin m (on_file name p)
  unfolding on_file resize_files_to total
  on_file-IsWithin name =
      elim (Bool-cases (
        p.lease.released
        || ltb p.budget.limits.max_in_flight_upload_files
            (p.budget.counters.reserved_files - p.lease.lease_files + suc p.total_files))) [
              | inl e ↦ rw e (abort_parsing-IsWithin m p files p.total_bytes h.covered)
              | inr e ↦ rw e (record {
                covered =
                    let c = h.covered in
                    record {
                      out = c.out;
                      fit = ground arith;
                      held = c.held;
                      counted = c.counted;
                      filed = omega arith;
                      sizes = ground (
                        arith,
                        c.sizes,
                        total-append (λ k. k.written) p.parts (new_part name p.file_index ∷ []),
                      );
                      numbered = ground (
                        arith,
                        c.numbered,
                        length-append p.parts (new_part name p.file_index ∷ []),
                      );
                    };
                accepted = h.accepted;
              })
            ]

  on_data-IsWithin : (i n : ℕ) → IsWithin m (on_data m i n p)
  unfolding on_data
  on_data-IsWithin i n = elim (Option-cases (get_elem? p.parts i)) [
    | inl e ↦ rw (on_data, e) h
    | inr (k, e) ↦ elim (Bool-cases k.aborted) [
      | inl q ↦ rw (on_data, e, q) h
      | inr q ↦ elim (Bool-cases (has_failed p)) [
        | inl z ↦ rw (on_data, e, q, z) (abort_part-IsWithin m p i h)
        | inr z ↦ simp (on_data, e, q, z) (write_part-IsWithin i n e)
      ]
    ]
  ]

on_chunk-IsWithin : (m w n : ℕ) (p : Parsing) → IsWithin m p → IsWithin m (on_chunk w n p)
unfolding on_chunk
on_chunk-IsWithin m w n p h = elim (Bool-cases (ltb w (p.wire_bytes + n))) [
  | inl e ↦ rw e (break_pipeline-IsWithin m _ _ (rewired n))
  | inr e ↦ rw e (rewired n)
]
  where
    rewired : (n : ℕ) → IsWithin m (record p { wire_bytes = p.wire_bytes + n })
    rewired n = record { covered = ground arith; accepted = h.accepted }

module _ (byte_length : Text → ℕ) (m w : ℕ) where
  on_field-IsWithin :
      (name value : Text) (truncated : Bool) (p : Parsing)
      → IsWithin m p
      → IsWithin m (on_field byte_length m w name value truncated p)
  unfolding on_field
  on_field-IsWithin name value truncated p h = elim (Bool-cases (has_failed p)) [
    | inl e ↦ rw e h
    | inr e ↦ elim (Bool-cases truncated) [
      | inl q ↦ rw (e, q) (abort_parsing-IsWithin m p _ _ h.covered)
      | inr q ↦ rw (e, q) (store_field-IsWithin m p h name value (byte_length value))
    ]
  ]

  on_event-IsWithin :
      (e : Event) (p : Parsing) → IsWithin m p → IsWithin m (on_event byte_length m w e p)
  unfolding on_event
  on_event-IsWithin (chunk n) p h = on_chunk-IsWithin m w n p h
  on_event-IsWithin (field name value truncated) p h = on_field-IsWithin name value truncated p h
  on_event-IsWithin (file name) p h = on_file-IsWithin m p h name
  on_event-IsWithin (data_of i n) p h = on_data-IsWithin m p h i n
  on_event-IsWithin (limit_of i) p h = abort_parsing-IsWithin m p _ _ h.covered
  on_event-IsWithin (fails i) p h = abort_part-IsWithin m p i h
  on_event-IsWithin (closes i) p h = finalize-IsWithin m p h i
  on_event-IsWithin (store_fails i) p h =
      abort_part-IsWithin m _ i (abort_parsing-IsWithin m p _ _ h.covered)
  on_event-IsWithin parts_limit p h = abort_parsing-IsWithin m p _ _ h.covered
  on_event-IsWithin files_limit p h = abort_parsing-IsWithin m p _ _ h.covered
  on_event-IsWithin fields_limit p h = abort_parsing-IsWithin m p _ _ h.covered
  on_event-IsWithin times_out p h = abort_parsing-IsWithin m p _ _ h.covered
  on_event-IsWithin breaks p h = break_pipeline-IsWithin m p _ h
  on_event-IsWithin (others b) p h = record { covered = ground arith; accepted = h.accepted }

  pub parse_from-IsWithin :
      (es : List Event) (p : Parsing) → IsWithin m p → IsWithin m (parse byte_length m w es p)
  unfolding parse
  parse_from-IsWithin [] p h = h
  parse_from-IsWithin (e ∷ es) p h =
      parse_from-IsWithin es (on_event byte_length m w e p) (on_event-IsWithin e p h)
