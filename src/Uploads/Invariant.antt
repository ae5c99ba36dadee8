-- ===== src/Uploads/Invariant.antt =====
-- The counters after any history of calls on the budget of src/logic/multipart.ts.
use worlds_content_server.Prelude.{
  ℕ, ◌≤◌, ◌<◌, ◌≡◌, refl, sym, ap, ◌∙◌, true, false, none, some, List, [], ◌∷◌, arith, leb,
  Bool-cases, Option-cases, inl, inr,
}
use mathlib.Core.Path.{subst}
use worlds_content_server.Prelude.Int.{ℤ, pos, negsuc}
use worlds_content_server.Prelude.Lists.{All}
use worlds_content_server.Prelude.Positions.{
  get_elem?, update_at, total, total-append, total-update_at, total_member, all_update_at,
  all_append_one, all_member,
}
use worlds_content_server.Prelude.Result.{ok, err, ◌>>=◌, >>=-eq-ok, ok_inj}
use worlds_content_server.Errors.{Outcome}
use worlds_content_server.Uploads.Budget.{
  answered, Budget, Counters, Lease, Limits, acquire_bytes, admit, refusal, new_lease, resize,
  resize_files, resize_to, resize_files_to, release, release_retained_resources,
  try_acquire_rejected_body_drain, release_drain, validate_reservation_bytes,
  validate_positive_byte_limit, empty_budget, create_in_flight_upload_budget,
}
use worlds_content_server.Uploads.Calls.{
  Call, acquires, resizes, resizes_files, releases, releases_retained, drains_body, ends_drain,
  on_lease, forget, store, call, after, run_calls, end_drain,
}
use worlds_content_server.Uploads.Accounts.{
  held_bytes, held_files, is_out, directories, is_draining, totals, IsSound, IsBounded, Covers,
  Moves, Follows, resize_to-Follows, resize_files_to-Follows, release_retained_resources-Follows,
  answered-Follows, release-Follows,
}

-- The counters are the totals of the leases, within the limits; the same for the drains.
pub record IsAccounted (m : Limits) (b : Budget) : Type 0 where
  pub limits : b.limits ≡ m
  pub exact : b.counters ≡ totals b.leases
  pub sound : All IsSound b.leases
  pub bounded : IsBounded b.limits b.counters
  pub draining : b.active_rejected_body_drains ≡ total is_draining b.drains
  pub drains_bounded : b.active_rejected_body_drains ≤ b.limits.max_concurrent_uploads

module _ {m : Limits} (b : Budget) (h : IsAccounted m b) (i : ℕ) {l : Lease}
    (e : get_elem? b.leases i ≡ some l) where
  member-Covers : Covers l b.counters
  unfolding totals
  member-Covers = rw h.exact (record {
    bytes = total_member held_bytes b.leases i e;
    kept_bytes = total_member (λ k. k.retained_bytes) b.leases i e;
    files = total_member held_files b.leases i e;
    kept_files = total_member (λ k. k.retained_files) b.leases i e;
    kept_directories = total_member directories b.leases i e;
    out = total_member is_out b.leases i e;
  })

  moved_totals :
      (l' : Lease) (c : Counters)
      → Moves b.limits l l' b.counters c
      → c ≡ totals (update_at i l' b.leases)
  unfolding totals
  moved_totals l' c m = ground (
    arith,
    h.exact,
    total-update_at held_bytes b.leases i l' e,
    total-update_at (λ k. k.retained_bytes) b.leases i l' e,
    total-update_at held_files b.leases i l' e,
    total-update_at (λ k. k.retained_files) b.leases i l' e,
    total-update_at directories b.leases i l' e,
    total-update_at is_out b.leases i l' e,
  )

  store-IsAccounted : (r : Lease × Budget) → Follows l b r → IsAccounted m (store i r)
  store-IsAccounted (l', b') f = record {
    limits = f.limits ∙ h.limits;
    exact =
        moved_totals l' b'.counters f.moves ∙ ap (λ ls. totals (update_at i l' ls)) (sym f.leases);
    sound = rw f.leases (all_update_at IsSound b.leases i l' h.sound f.moves.sound);
    bounded = rw f.limits f.moves.bounded;
    draining = rw (f.draining, f.drains) h.draining;
    drains_bounded = rw (f.draining, f.limits) h.drains_bounded;
  }

lease_call-IsAccounted :
    {m : Limits} (b : Budget)
    → IsAccounted m b
    → (i : ℕ) (f : Lease → Budget → Outcome (Lease × Budget))
    → ((l : Lease)
        → IsSound l
        → Covers l b.counters
        → (r : Lease × Budget) → f l b ≡ ok r
        → Follows l b r)
    → IsAccounted m (after b (on_lease f i b))
lease_call-IsAccounted {m = m} b h i f k = elim (Option-cases (get_elem? b.leases i)) [
  | inl e ↦ rw (on_lease, e) h
  | inr (l, e) ↦ rw (on_lease, e) (go l e (f l b) refl)
]
  where
    go :
        (l : Lease)
        → get_elem? b.leases i ≡ some l
        → (o : Outcome (Lease × Budget)) → f l b ≡ o
        → IsAccounted m (after b (elim o [ err x ↦ err x | ok r ↦ ok (store i r) ]))
    go l e (err x) q = h
    go l e (ok r) q =
        store-IsAccounted b h i e r
          (k l (all_member IsSound b.leases i e h.sound) (member-Covers b h i e) r q)

admit-IsBounded :
    (bytes : ℕ) (b : Budget)
    → refusal bytes b ≡ none
    → IsBounded b.limits b.counters
    → IsBounded b.limits ((admit bytes b).counters)
unfolding refusal
admit-IsBounded bytes b e h = ground arith

module _ {m : Limits} (b : Budget) (h : IsAccounted m b) where
  admit-IsAccounted : (n : ℕ) → refusal n b ≡ none → IsAccounted m (admit n b)
  unfolding totals total
  admit-IsAccounted n q = record {
    limits = h.limits;
    exact = ground (
      arith,
      h.exact,
      total-append held_bytes b.leases (new_lease n ∷ []),
      total-append (λ k. k.retained_bytes) b.leases (new_lease n ∷ []),
      total-append held_files b.leases (new_lease n ∷ []),
      total-append (λ k. k.retained_files) b.leases (new_lease n ∷ []),
      total-append directories b.leases (new_lease n ∷ []),
      total-append is_out b.leases (new_lease n ∷ []),
    );
    sound =
        all_append_one IsSound b.leases (new_lease n) h.sound
          (record { bytes = λ _. refl; files = λ _. refl; directory = λ _. refl });
    bounded = admit-IsBounded n b q h.bounded;
    draining = h.draining;
    drains_bounded = h.drains_bounded;
  }

  acquire-IsAccounted :
      (o : Outcome ℕ) → IsAccounted m (after b (forget (o >>= λ n. ok (acquire_bytes n b))))
  unfolding acquire_bytes
  acquire-IsAccounted (err x) = h
  acquire-IsAccounted (ok n) = elim (Option-cases (refusal n b)) [
    | inl q ↦ rw (acquire_bytes, q) (admit-IsAccounted n q)
    | inr (r, q) ↦ rw (acquire_bytes, q) h
  ]

drain-IsAccounted :
    {m : Limits} (b : Budget)
    → IsAccounted m b
    → IsAccounted m ((try_acquire_rejected_body_drain b).1)
unfolding try_acquire_rejected_body_drain total
drain-IsAccounted b h =
    elim (Bool-cases (leb b.limits.max_concurrent_uploads b.active_rejected_body_drains)) [
      | inl e ↦ rw e h
      | inr e ↦ rw e (record {
        limits = h.limits;
        exact = h.exact;
        sound = h.sound;
        bounded = h.bounded;
        draining = ground (arith, h.draining, total-append is_draining b.drains (false ∷ []));
        drains_bounded = ground arith;
      })
    ]

end_drain-IsAccounted :
    {m : Limits} (i : ℕ) (b : Budget) → IsAccounted m b → IsAccounted m (end_drain i b)
unfolding end_drain release_drain
end_drain-IsAccounted i b h = elim (Option-cases (get_elem? b.drains i)) [
  | inl e ↦ rw (end_drain, e) h
  | inr (true, e) ↦
      rw (end_drain, e)
        (record {
          limits = h.limits;
          exact = h.exact;
          sound = h.sound;
          bounded = h.bounded;
          draining = ground (arith, h.draining, total-update_at is_draining b.drains i true e);
          drains_bounded = h.drains_bounded;
        })
  | inr (false, e) ↦
      rw (end_drain, e)
        (record {
          limits = h.limits;
          exact = h.exact;
          sound = h.sound;
          bounded = h.bounded;
          draining = ground (
            arith,
            h.draining,
            total-update_at is_draining b.drains i true e,
            total_member is_draining b.drains i e,
          );
          drains_bounded = ground (arith, h.drains_bounded);
        })
]

-- A call keeps the counters exact and within the limits.
pub call-IsAccounted :
    {m : Limits} (c : Call) (b : Budget) → IsAccounted m b → IsAccounted m (after b (call c b))
unfolding call
call-IsAccounted (acquires n) b h = acquire-IsAccounted b h (validate_reservation_bytes n)
call-IsAccounted (resizes i n) b h =
    lease_call-IsAccounted b h i (λ l c. answered (resize n l c))
      λ l s v r e.
        answered-Follows l b (λ m. resize_to m l b) (resize_to-Follows l b s v h.bounded)
          (validate_reservation_bytes n) e
call-IsAccounted (resizes_files i n) b h =
    lease_call-IsAccounted b h i (λ l c. answered (resize_files n l c))
      λ l s v r e.
        answered-Follows l b (λ m. resize_files_to m l b)
          (resize_files_to-Follows l b s v h.bounded) (validate_reservation_bytes n) e
call-IsAccounted (releases i o) b h =
    lease_call-IsAccounted b h i (release o) λ l s v r e. release-Follows l b o s v h.bounded e
call-IsAccounted (releases_retained i) b h =
    lease_call-IsAccounted b h i (λ l c. ok (release_retained_resources l c))
      λ l s v r e.
        subst (Follows l b) (ok_inj e) (release_retained_resources-Follows l b s v h.bounded)
call-IsAccounted drains_body b h = drain-IsAccounted b h
call-IsAccounted (ends_drain i) b h = end_drain-IsAccounted i b h

pub run_calls-IsAccounted :
    {m : Limits} (cs : List Call) (b : Budget) → IsAccounted m b → IsAccounted m (run_calls cs b)
unfolding run_calls
run_calls-IsAccounted [] b h = h
run_calls-IsAccounted (c ∷ cs) b h =
    run_calls-IsAccounted cs (after b (call c b)) (call-IsAccounted c b h)

validate_positive : (n : ℤ) {k : ℕ} → validate_positive_byte_limit n ≡ ok k → 0 < k
validate_positive (pos n) e = ground arith
validate_positive (negsuc n) e = cc

empty_budget-IsAccounted :
    (m : Limits) → 0 < m.max_concurrent_uploads → IsAccounted m (empty_budget m)
unfolding totals total
empty_budget-IsAccounted m h = record {
  limits = refl;
  exact = refl;
  sound = tt;
  bounded = ground arith;
  draining = refl;
  drains_bounded = ground arith;
}

module _ (capacity uploads files directories : ℤ) {b : Budget}
    (e : create_in_flight_upload_budget capacity uploads files directories ≡ ok b) where
  pub create_in_flight_upload_budget_positive :
      (0 < b.limits.max_concurrent_uploads)
      × (0 < b.limits.max_orphaned_upload_directories)
      × (b ≡ empty_budget b.limits)
  unfolding create_in_flight_upload_budget
  create_in_flight_upload_budget_positive =
      let (c, x, e) = >>=-eq-ok (validate_positive_byte_limit capacity) _ e in
      let (u, y, e) = >>=-eq-ok (validate_positive_byte_limit uploads) _ e in
      let (f, z, e) = >>=-eq-ok (validate_positive_byte_limit files) _ e in
      let (d, w, e) = >>=-eq-ok (validate_positive_byte_limit directories) _ e in
      subst
        (λ b.
          (0 < b.limits.max_concurrent_uploads)
          × (0 < b.limits.max_orphaned_upload_directories)
          × (b ≡ empty_budget b.limits))
        (ok_inj e) (validate_positive uploads y, validate_positive directories w, refl)

  pub create_in_flight_upload_budget-IsAccounted : IsAccounted b.limits b
  create_in_flight_upload_budget-IsAccounted =
      let (u, d, same) = create_in_flight_upload_budget_positive in
      subst (IsAccounted b.limits) (sym same) (empty_budget-IsAccounted b.limits u)
