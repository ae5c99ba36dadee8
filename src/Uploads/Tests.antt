-- ===== src/Uploads/Tests.antt =====
-- Uploads of src/logic/multipart.ts at concrete bodies and budgets.
use worlds_content_server.Prelude.{ℕ, ◌≤◌, ◌≡◌, refl, true, false, none, some, List, [], ◌∷◌, arith}
use worlds_content_server.Prelude.Int.{pos, negsuc}
use worlds_content_server.Prelude.Lists.{length, take, any}
use worlds_content_server.Prelude.Positions.{get_elem?, update_at}
use worlds_content_server.Prelude.Eq.{text_beq}
use worlds_content_server.Prelude.Text.{Text, codes}
use worlds_content_server.Prelude.Map.{Map, get, set}
use worlds_content_server.Prelude.Result.{ok}
use worlds_content_server.Uploads.Budget.{
  Budget, Limits, ReleaseOptions, empty_budget, empty_counters, create_in_flight_upload_budget,
  refusal, new_lease, Lease, resize_to, resize_files_to,
}
use worlds_content_server.Uploads.Calls.{
  Call, acquires, resizes, resizes_files, releases, drains_body, ends_drain, run_calls,
}
use worlds_content_server.Uploads.Accounts.{totals, IsBounded}
use worlds_content_server.Uploads.Closing.{
  closing, run_calls-totals, run_calls-IsBounded, closing-admits,
}
use worlds_content_server.Uploads.Parser.{
  Parsing, UploadedFile, Event, chunk, field, file, data_of, closes, parse, on_event, on_field,
  on_file, on_data, on_chunk, account_bytes, reserve,
}
use worlds_content_server.Uploads.Wrapper.{
  start_parsing, clean_up, retry_cleanup, handle_parsed, parsing_failure,
}
use worlds_content_server.Uploads.Settling.{IsSettled, clean_up-settles}

abbrev limits : Limits
limits = record {
  capacity = 1000;
  max_concurrent_uploads = 2;
  max_in_flight_upload_files = 5;
  max_orphaned_upload_directories = 2;
}

made : create_in_flight_upload_budget (pos 1000) (pos 2) (pos 5) (pos 2) ≡ ok (empty_budget limits)
unfolding create_in_flight_upload_budget
made = refl

abbrev keep_some : ReleaseOptions
keep_some = record {
  retain_bytes = some (pos 40);
  retain_files = some (pos 1);
  retain_directory = some true;
}

-- Two uploads, of which the first leaves a file behind; a third one is refused.
abbrev history : List Call
history =
    acquires (pos 0)
    ∷ acquires (pos 10)
    ∷ acquires (pos 1)
    ∷ resizes 0 (pos 50)
    ∷ resizes 1 (negsuc 0)
    ∷ resizes_files 0 (pos 2)
    ∷ drains_body
    ∷ releases 0 keep_some
    ∷ ends_drain 0
    ∷ []

run_calls-totals_example :
    (run_calls history (empty_budget limits)).counters
    ≡ totals (run_calls history (empty_budget limits)).leases
run_calls-totals_example = run_calls-totals (pos 1000) (pos 2) (pos 5) (pos 2) made history

run_calls-IsBounded_example :
    IsBounded limits (run_calls history (empty_budget limits)).counters
    × ((run_calls history (empty_budget limits)).active_rejected_body_drains ≤ 2)
run_calls-IsBounded_example = run_calls-IsBounded (pos 1000) (pos 2) (pos 5) (pos 2) made history

closing-admits_example :
    let b = run_calls history (empty_budget limits) in
    ((run_calls (closing 0 b.leases) b).counters ≡ empty_counters)
    × (refusal 900 (run_calls (closing 0 b.leases) b) ≡ none)
closing-admits_example =
    closing-admits (pos 1000) (pos 2) (pos 5) (pos 2) made history 900 (omega arith)

-- A field and a file of two chunks.
abbrev body : List Event
body =
    chunk 60
    ∷ field (codes "name") (codes "land") false
    ∷ file (codes "scene")
    ∷ data_of 0 20
    ∷ data_of 0 7
    ∷ closes 0
    ∷ []

abbrev count_fields : Map (List Text) → Map UploadedFile → ℕ
count_fields fields files = length fields

abbrev read : Parsing
read = parse length 100 200 body (start_parsing (new_lease 0) (empty_budget limits))

abbrev settled : Parsing
settled = (handle_parsed count_fields read).1

few : settled.total_files ≤ 9007199254740991
unfolding handle_parsed parse on_event on_field on_file on_data on_chunk account_bytes reserve
    resize_to resize_files_to get set get_elem? update_at parsing_failure text_beq
few = omega arith

-- The directory stays at first; the second retry removes it.
clean_up-settles_example :
    (l : Lease) × (b : Budget) × (clean_up false settled ≡ ok (l, b))
    × IsSettled false settled l
    × (any (λ r. r) (take 3 (false ∷ true ∷ [])) ≡ true
        → ((retry_cleanup
              (pos 100 ∷ pos 1000 ∷ pos 5000 ∷ [])
              (false ∷ true ∷ [])
              (l, b)).0.retained_bytes
            ≡ 0)
          × ((retry_cleanup
                (pos 100 ∷ pos 1000 ∷ pos 5000 ∷ [])
                (false ∷ true ∷ [])
                (l, b)).0.retained_files
              ≡ 0)
          × ((retry_cleanup
                (pos 100 ∷ pos 1000 ∷ pos 5000 ∷ [])
                (false ∷ true ∷ [])
                (l, b)).0.retained_directory
              ≡ false))
clean_up-settles_example =
    clean_up-settles count_fields length 100 200 body (empty_budget limits) false
      (pos 100 ∷ pos 1000 ∷ pos 5000 ∷ []) (false ∷ true ∷ []) (omega arith) few
