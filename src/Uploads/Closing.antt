-- ===== src/Uploads/Closing.antt =====
-- What the budget of src/logic/multipart.ts promises its clients: counters that are the sums of
-- what is out, and nothing kept once every lease is released.
use mathlib.Core.Path.{subst}
use mathlib.Core.List.{append_assoc, append-nil}
use worlds_content_server.Prelude.{
  ℕ, suc, ◌≤◌, ◌<◌, ◌≡◌, refl, sym, ◌∙◌, true, false, ◌||◌, none, List, [], ◌∷◌, ◌++◌, arith, ltb,
  Bool-cases, inl, inr,
}
use worlds_content_server.Prelude.Int.{ℤ}
use worlds_content_server.Prelude.Lists.{All, length, length-append}
use worlds_content_server.Prelude.Positions.{
  total_zero, all_append_one, get_elem?-append, update_at-append,
}
use worlds_content_server.Prelude.Result.{ok}
use worlds_content_server.Errors.{Outcome}
use worlds_content_server.Uploads.Budget.{
  keep_nothing, Budget, Lease, Limits, release, release_to, release_retained_resources, refusal,
  create_in_flight_upload_budget, retain, empty_counters,
}
use worlds_content_server.Uploads.Calls.{
  Call, releases, releases_retained, on_lease, store, call, after, run_calls,
}
use worlds_content_server.Uploads.Accounts.{
  held_bytes, held_files, is_out, directories, totals, IsBounded,
}
use worlds_content_server.Uploads.Invariant.{
  IsAccounted, run_calls-IsAccounted, create_in_flight_upload_budget_positive,
  create_in_flight_upload_budget-IsAccounted,
}

-- Every lease is released, and what it retained is cleaned up.
abbrev pub closing : ℕ → List Lease → List Call
closing i [] = []
closing i (l ∷ ls) = releases i keep_nothing ∷ releases_retained i ∷ closing (suc i) ls

record IsClosed (l : Lease) : Type 0 where
  released : l.released ≡ true
  bytes : l.retained_bytes ≡ 0
  files : l.retained_files ≡ 0
  directory : l.retained_directory ≡ false

release-keep_nothing :
    (l : Lease) (b : Budget)
    → (r : Lease × Budget) × (release keep_nothing l b ≡ ok r)
      × (r.0.released ≡ true)
      × (r.1.leases ≡ b.leases)
unfolding release release_to
release-keep_nothing l b = elim (Bool-cases l.released) [
  | inl q ↦ ((l, b), ground arith, q, refl)
  | inr q ↦ (retain 0 0 false l b, ground arith, refl, refl)
]

release_retained_resources-IsClosed :
    (l : Lease) (b : Budget)
    → l.released ≡ true
    → IsClosed ((release_retained_resources l b).0)
      × ((release_retained_resources l b).1.leases ≡ b.leases)
unfolding release_retained_resources
release_retained_resources-IsClosed l b h =
    elim (Bool-cases (ltb 0 l.retained_bytes || ltb 0 l.retained_files || l.retained_directory)) [
      | inl e ↦ rw e (record { released = h; bytes = refl; files = refl; directory = refl }, refl)
      | inr e ↦ rw e (
        record {
          released = h;
          bytes = ground arith;
          files = ground arith;
          directory = ground arith;
        },
        refl,
      )
    ]

module _ (b : Budget) (done : List Lease) (l : Lease) (rest : List Lease)
    (e : b.leases ≡ done ++ l ∷ rest) where
  on_lease_at :
      (f : Lease → Budget → Outcome (Lease × Budget)) (r : Lease × Budget)
      → f l b ≡ ok r
      → on_lease f (length done) b ≡ ok (store (length done) r)
  on_lease_at f r q = rw (on_lease, e, get_elem?-append done l rest, q) refl

  leases-store :
      (r : Lease × Budget)
      → r.1.leases ≡ b.leases
      → (store (length done) r).leases ≡ done ++ r.0 ∷ rest
  leases-store r s = rw (s, e) (update_at-append done l r.0 rest)

-- The two calls close the lease and leave the others.
close_one :
    (b : Budget) (done : List Lease) (l : Lease) (rest : List Lease)
    → b.leases ≡ done ++ l ∷ rest
    → (l' : Lease) × IsClosed l'
      × ((run_calls
            (releases (length done) keep_nothing ∷ releases_retained (length done) ∷ [])
            b).leases
          ≡ done ++ l' ∷ rest)
unfolding run_calls call
close_one b done l rest e =
    let (r, q, h, s) = release-keep_nothing l b in
    let b' = store (length done) r in
    let e' : b'.leases ≡ done ++ r.0 ∷ rest = leases-store b done l rest e r s in
    let (k, s') = release_retained_resources-IsClosed r.0 b' h in
    (
      (release_retained_resources r.0 b').0,
      k,
      rw
          (
            on_lease_at b done l rest e (release keep_nothing) r q,
            on_lease_at b' done r.0 rest e' (λ l c. ok (release_retained_resources l c))
                (release_retained_resources r.0 b') refl,
          )
          (leases-store b' done r.0 rest e' (release_retained_resources r.0 b') s'),
    )

run_calls-append :
    (cs ds : List Call) (b : Budget) → run_calls (cs ++ ds) b ≡ run_calls ds (run_calls cs b)
unfolding run_calls
run_calls-append [] ds b = refl
run_calls-append (c ∷ cs) ds b = run_calls-append cs ds (after b (call c b))

close_all :
    (done rest : List Lease) (b : Budget)
    → b.leases ≡ done ++ rest
    → All IsClosed done
    → All IsClosed ((run_calls (closing (length done) rest) b).leases)
unfolding run_calls
close_all done [] b e h = subst (All IsClosed) (sym (e ∙ append-nil done)) h
close_all done (l ∷ rest) b e h =
    let (l', k, q) = close_one b done l rest e in
    let shift : length (done ++ l' ∷ []) ≡ suc (length done) =
      omega (arith, length-append done (l' ∷ [])) in
    subst (λ i. All IsClosed ((run_calls (closing i rest) (next l done b)).leases)) shift
      (close_all (done ++ l' ∷ []) rest (next l done b) (q ∙ sym (append_assoc done (l' ∷ []) rest))
        (all_append_one IsClosed done l' h k))
  where
    next : Lease → List Lease → Budget → Budget
    next l done b =
        run_calls (releases (length done) keep_nothing ∷ releases_retained (length done) ∷ []) b

closed_totals : (ls : List Lease) → All IsClosed ls → totals ls ≡ empty_counters
unfolding totals
closed_totals ls h = ground (
  arith,
  total_zero held_bytes IsClosed (λ l k. ground (arith, k.released, k.bytes)) ls h,
  total_zero (λ l. l.retained_bytes) IsClosed (λ l k. k.bytes) ls h,
  total_zero held_files IsClosed (λ l k. ground (arith, k.released, k.files)) ls h,
  total_zero (λ l. l.retained_files) IsClosed (λ l k. k.files) ls h,
  total_zero directories IsClosed (λ l k. ground (arith, k.directory)) ls h,
  total_zero is_out IsClosed (λ l k. ground (arith, k.released)) ls h,
)

refusal-none :
    (m : Limits) (b : Budget) (n : ℕ)
    → b.limits ≡ m
    → b.counters ≡ empty_counters
    → 0 < m.max_concurrent_uploads
    → 0 < m.max_orphaned_upload_directories
    → n ≤ m.capacity
    → refusal n b ≡ none
unfolding refusal
refusal-none m b n e c u d h = rw (refusal, c, e) (ground arith)

module _ (capacity uploads files directories : ℤ) {b : Budget}
    (e : create_in_flight_upload_budget capacity uploads files directories ≡ ok b)
    (cs : List Call) where
  made : IsAccounted b.limits (run_calls cs b)
  made =
      run_calls-IsAccounted cs b
        (create_in_flight_upload_budget-IsAccounted capacity uploads files directories e)

  -- After any calls on a new budget, on its leases and on its drains, also after calls that throw,
  -- the six counters are what a sum over the leases gives: bytes and files held or retained, bytes,
  -- files and directories retained, and uploads not released.
  pub run_calls-totals : (run_calls cs b).counters ≡ totals (run_calls cs b).leases
  run_calls-totals = made.exact

  -- After any calls on a new budget the reserved bytes, the reserved files and the active uploads
  -- are within its limits, the drains of rejected bodies are within the limit on uploads, and the
  -- directories left behind together with the active uploads stay below the sum of their limits.
  pub run_calls-IsBounded :
      IsBounded b.limits (run_calls cs b).counters
      × ((run_calls cs b).active_rejected_body_drains ≤ b.limits.max_concurrent_uploads)
  run_calls-IsBounded = (
    subst (λ m. IsBounded m (run_calls cs b).counters) made.limits made.bounded,
    subst (λ m. (run_calls cs b).active_rejected_body_drains ≤ m.max_concurrent_uploads) made.limits
        made.drains_bounded,
  )

  -- After any calls on a new budget, once every lease has been released and what it retained has
  -- been cleaned up, all counters are 0, and an upload that fits the capacity is admitted.
  pub closing-admits :
      (n : ℕ)
      → n ≤ b.limits.capacity
      → ((run_calls (closing 0 (run_calls cs b).leases) (run_calls cs b)).counters ≡ empty_counters)
        × (refusal n (run_calls (closing 0 (run_calls cs b).leases) (run_calls cs b)) ≡ none)
  closing-admits n h =
      let (u, d, same) =
        create_in_flight_upload_budget_positive capacity uploads files directories e in
      let b' = run_calls cs b in
      let closed = run_calls-IsAccounted (closing 0 b'.leases) b' made in
      let zero = closed.exact ∙ closed_totals _ (close_all [] b'.leases b' refl tt) in
      (zero, refusal-none b.limits _ n closed.limits zero u d h)
