-- ===== src/Uploads/Accounts.antt =====
-- The counters of src/logic/multipart.ts against the leases that are out: what each lease holds,
-- and what each of its functions does to the counters.
use worlds_content_server.Prelude.{
  ℕ, ◌+◌, ◌-◌, ◌≤◌, ◌<◌, ◌≡◌, refl, Bool, false, not, ◌||◌, List, arith, if◌then◌else◌, ltb,
  Bool-cases, inl, inr,
}
use mathlib.Core.Path.{subst}
use worlds_content_server.Prelude.Positions.{total}
use worlds_content_server.Prelude.Result.{ok, err, ◌>>=◌, >>=-eq-ok, ok_inj}
use worlds_content_server.Errors.{Outcome, Error}
use worlds_content_server.Uploads.Budget.{
  answered, Budget, Counters, Lease, Limits, ReleaseOptions, count, emit_state, resize_to,
  resize_files_to, release, release_active, release_to, release_retained_resources,
  validate_reservation_bytes, retain, or_zero, or_false,
}

abbrev pub held_bytes : Lease → ℕ
held_bytes l = if l.released then l.retained_bytes else l.lease_bytes

abbrev pub held_files : Lease → ℕ
held_files l = if l.released then l.retained_files else l.lease_files

abbrev pub is_out : Lease → ℕ
is_out l = count (not l.released)

abbrev pub directories : Lease → ℕ
directories l = count l.retained_directory

abbrev pub is_draining : Bool → ℕ
is_draining released = count (not released)

-- The counters computed anew from the leases.
unfoldable pub totals : List Lease → Counters
totals leases = record {
  reserved_bytes = total held_bytes leases;
  orphaned_bytes = total (λ l. l.retained_bytes) leases;
  reserved_files = total held_files leases;
  orphaned_files = total (λ l. l.retained_files) leases;
  orphaned_directories = total directories leases;
  active_uploads = total is_out leases;
}

-- A lease that is out has retained nothing yet.
pub record IsSound (l : Lease) : Type 0 where
  pub bytes : l.released ≡ false → l.retained_bytes ≡ 0
  pub files : l.released ≡ false → l.retained_files ≡ 0
  pub directory : l.released ≡ false → l.retained_directory ≡ false

-- The limits that admission keeps. Directories are left behind by uploads admitted while fewer
-- than the limit were left, so together they stay below the sum.
pub record IsBounded (m : Limits) (c : Counters) : Type 0 where
  pub bytes : c.reserved_bytes ≤ m.capacity
  pub files : c.reserved_files ≤ m.max_in_flight_upload_files
  pub uploads : c.active_uploads ≤ m.max_concurrent_uploads
  pub left :
      c.orphaned_directories + c.active_uploads
      < m.max_orphaned_upload_directories + m.max_concurrent_uploads

-- The counters hold at least what the lease contributes.
pub record Covers (l : Lease) (c : Counters) : Type 0 where
  pub bytes : held_bytes l ≤ c.reserved_bytes
  pub kept_bytes : l.retained_bytes ≤ c.orphaned_bytes
  pub files : held_files l ≤ c.reserved_files
  pub kept_files : l.retained_files ≤ c.orphaned_files
  pub kept_directories : directories l ≤ c.orphaned_directories
  pub out : is_out l ≤ c.active_uploads

-- What a function of the lease may do: the counters follow the lease, and stay within the limits.
pub record Moves (m : Limits) (l l' : Lease) (c c' : Counters) : Type 0 where
  pub bytes : c'.reserved_bytes + held_bytes l ≡ c.reserved_bytes + held_bytes l'
  pub kept_bytes : c'.orphaned_bytes + l.retained_bytes ≡ c.orphaned_bytes + l'.retained_bytes
  pub files : c'.reserved_files + held_files l ≡ c.reserved_files + held_files l'
  pub kept_files : c'.orphaned_files + l.retained_files ≡ c.orphaned_files + l'.retained_files
  pub kept_directories :
      c'.orphaned_directories + directories l ≡ c.orphaned_directories + directories l'
  pub out : c'.active_uploads + is_out l ≡ c.active_uploads + is_out l'
  pub sound : IsSound l'
  pub bounded : IsBounded m c'

-- The rest of the budget stays as it is.
pub record Follows (l : Lease) (b : Budget) (r : Lease × Budget) : Type 0 where
  pub limits : r.1.limits ≡ b.limits
  pub leases : r.1.leases ≡ b.leases
  pub drains : r.1.drains ≡ b.drains
  pub draining : r.1.active_rejected_body_drains ≡ b.active_rejected_body_drains
  pub moves : Moves b.limits l r.0 b.counters r.1.counters

abbrev pub moved : Bool × Lease × Budget → Lease × Budget
moved (t, l, b) = (l, b)

pub stays-Follows :
    (l : Lease) (b : Budget) → IsSound l → IsBounded b.limits b.counters → Follows l b (l, b)
stays-Follows l b s h = record {
  limits = refl;
  leases = refl;
  drains = refl;
  draining = refl;
  moves = record {
    bytes = refl;
    kept_bytes = refl;
    files = refl;
    kept_files = refl;
    kept_directories = refl;
    out = refl;
    sound = s;
    bounded = h;
  };
}

emit_state-Follows :
    (l l' : Lease) (b : Budget) (c : Counters)
    → Moves b.limits l l' b.counters c
    → Follows l b (l', emit_state c b)
emit_state-Follows l l' b c m = record {
  limits = refl;
  leases = refl;
  drains = refl;
  draining = refl;
  moves = m;
}

module _ (l : Lease) (b : Budget) (s : IsSound l) (v : Covers l b.counters)
    (h : IsBounded b.limits b.counters) where
  pub resize_to-Follows : (n : ℕ) → Follows l b (moved (resize_to n l b))
  unfolding resize_to
  resize_to-Follows n =
      elim (Bool-cases
        (l.released || ltb b.limits.capacity (b.counters.reserved_bytes - l.lease_bytes + n))) [
          | inl e ↦ rw e (stays-Follows l b s h)
          | inr e ↦ rw e (emit_state-Follows l _ b _ (ground arith))
        ]

  pub resize_files_to-Follows : (n : ℕ) → Follows l b (moved (resize_files_to n l b))
  unfolding resize_files_to
  resize_files_to-Follows n =
      elim (Bool-cases (
        l.released
        || ltb b.limits.max_in_flight_upload_files
            (b.counters.reserved_files - l.lease_files + n))) [
              | inl e ↦ rw e (stays-Follows l b s h)
              | inr e ↦ rw e (emit_state-Follows l _ b _ (ground arith))
            ]

  pub retain-Follows :
      (bytes files : ℕ) (directory : Bool)
      → l.released ≡ false
      → bytes ≤ l.lease_bytes
      → files ≤ l.lease_files
      → Follows l b (retain bytes files directory l b)
  retain-Follows bytes files directory r p q = emit_state-Follows l _ b _ (ground arith)

  pub release_retained_resources-Follows : Follows l b (release_retained_resources l b)
  unfolding release_retained_resources
  release_retained_resources-Follows =
      elim (Bool-cases (ltb 0 l.retained_bytes || ltb 0 l.retained_files || l.retained_directory)) [
        | inl e ↦ rw e (emit_state-Follows l _ b _ (ground arith))
        | inr e ↦ rw e (stays-Follows l b s h)
      ]

module _ (l : Lease) (b : Budget) where
  pub answered-Follows :
      (f : ℕ → Bool × Lease × Budget)
      → ((m : ℕ) → Follows l b (moved (f m)))
      → (o : Outcome ℕ) {r : Lease × Budget} → answered (o >>= λ m. ok (f m)) ≡ ok r
      → Follows l b r
  answered-Follows f k (err x) e = cc
  answered-Follows f k (ok m) e = subst (Follows l b) (ok_inj e) (k m)

  release_to-Follows :
      (bytes files : ℕ) (directory : Bool) {r : Lease × Budget}
      → IsSound l
      → Covers l b.counters
      → IsBounded b.limits b.counters
      → l.released ≡ false
      → release_to bytes files directory l b ≡ ok r
      → Follows l b r
  unfolding release_to
  release_to-Follows bytes files directory {r} s v h q e =
      elim (Bool-cases (ltb l.lease_bytes bytes || ltb l.lease_files files)) [
        | inl z ↦ ground arith
        | inr z ↦
            subst (Follows l b) (ok_inj {E = Error} (ground arith))
              (retain-Follows l b s v h bytes files directory q (ground arith) (ground arith))
      ]

  pub release-Follows :
      (o : ReleaseOptions) {r : Lease × Budget}
      → IsSound l
      → Covers l b.counters
      → IsBounded b.limits b.counters
      → release o l b ≡ ok r
      → Follows l b r
  unfolding release
  release-Follows o {r} s v h e = elim (Bool-cases l.released) [
    | inl q ↦ subst (Follows l b) (ok_inj {E = Error} (ground arith)) (stays-Follows l b s h)
    | inr q ↦ go q (ground (arith, e))
  ]
    where
      go : l.released ≡ false → release_active o l b ≡ ok r → Follows l b r
      go q e =
          let (bytes, x, e) = >>=-eq-ok (validate_reservation_bytes (or_zero o.retain_bytes)) _ e in
          let (files, y, e) = >>=-eq-ok (validate_reservation_bytes (or_zero o.retain_files)) _ e in
          release_to-Follows bytes files (or_false o.retain_directory) s v h q e
