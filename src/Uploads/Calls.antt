-- ===== src/Uploads/Calls.antt =====
-- Histories of calls on the budget of src/logic/multipart.ts, its leases and its drains.
use worlds_content_server.Prelude.{ℕ, none, some, List, [], ◌∷◌}
use worlds_content_server.Prelude.Int.{ℤ}
use worlds_content_server.Prelude.Positions.{get_elem?, update_at}
use worlds_content_server.Prelude.Result.{ok, err}
use worlds_content_server.Errors.{Outcome}
use worlds_content_server.Uploads.Budget.{
  answered, Budget, Lease, ReleaseOptions, acquire, resize, resize_files, release,
  release_retained_resources, try_acquire_rejected_body_drain, release_drain,
}

-- Leases and drains are numbered in the order of their admission.
pub data Call : Type 0 where
  acquires : ℤ → Call
  resizes resizes_files : ℕ → ℤ → Call
  releases : ℕ → ReleaseOptions → Call
  releases_retained : ℕ → Call
  drains_body : Call
  ends_drain : ℕ → Call

abbrev pub store : ℕ → Lease × Budget → Budget
store i (l, b) = record b { leases = update_at i l b.leases }

abbrev pub on_lease : (Lease → Budget → Outcome (Lease × Budget)) → ℕ → Budget → Outcome Budget
on_lease f i b = elim (get_elem? b.leases i) [
  | none ↦ ok b
  | some l ↦ elim (f l b) [ err e ↦ err e | ok r ↦ ok (store i r) ]
]

abbrev pub forget {ℓ} : {A : Type ℓ} → Outcome (A × Budget) → Outcome Budget
forget (err e) = err e
forget (ok (a, b)) = ok b

unfoldable pub end_drain : ℕ → Budget → Budget
unfolding release_drain
end_drain i b = elim (get_elem? b.drains i) [
  | none ↦ b
  | some d ↦ let (d', b') = release_drain d b in record b' { drains = update_at i d' b.drains }
]

-- A call on a number that was not handed out does nothing.
unfoldable pub call : Call → Budget → Outcome Budget
unfolding end_drain
call (acquires n) b = forget (acquire n b)
call (resizes i n) b = on_lease (λ l c. answered (resize n l c)) i b
call (resizes_files i n) b = on_lease (λ l c. answered (resize_files n l c)) i b
call (releases i o) b = on_lease (release o) i b
call (releases_retained i) b = on_lease (λ l c. ok (release_retained_resources l c)) i b
call drains_body b = ok ((try_acquire_rejected_body_drain b).1)
call (ends_drain i) b = ok (end_drain i b)

abbrev pub after : Budget → Outcome Budget → Budget
after b (err e) = b
after b (ok b') = b'

-- A call that throws changes nothing.
unfoldable pub run_calls : List Call → Budget → Budget
run_calls [] b = b
run_calls (c ∷ cs) b = run_calls cs (after b (call c b))
