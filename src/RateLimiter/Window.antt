-- ===== src/RateLimiter/Window.antt =====
-- The sliding window of src/logic/rate-limiter/component.ts.
use worlds_content_server.Prelude.{
  ℕ, ◌+◌, ◌*◌, ◌<◌, ◌≤◌, ◌≡◌, refl, sym, ap, ◌∙◌, Bool, true, false, Option, none, some, List, [],
  ◌∷◌, ◌++◌, if◌then◌else◌, leb, arith, Bool-cases, inl, inr,
}
use worlds_content_server.Prelude.Lists.{length, filter, All, length-append}
use worlds_content_server.Prelude.Text.{Text}
use worlds_content_server.Prelude.Result.{ok}
use worlds_content_server.Database.{Date}
use worlds_content_server.RateLimiter.{
  Redis, build_attempts_key, build_lock_key, values, is_recent, recent_attempts, is_rate_limited,
  push_attempt, locked_attempt, record_failed_attempt, clear_attempts, IsRedis,
  rate_limit_window_seconds, rate_limit_ttl_seconds,
}

keys_apart :
    (world subject : Text) → build_lock_key world subject ≡ build_attempts_key world subject → ⊥
unfolding build_lock_key build_attempts_key
keys_apart world subject h = omega (arith, ap length h)

-- Attempts that are all recent stay.
recent-All :
    (now : Date) (ts : List Date)
    → All (λ t. now < t + rate_limit_window_seconds * 1000) ts
    → filter (is_recent now) ts ≡ ts
unfolding filter is_recent
recent-All now [] h = refl
recent-All now (t ∷ ts) (k, h) = ground (arith, recent-All now ts h)

module _ {ℓ} {S : Type ℓ} (redis : Redis S) (laws : IsRedis redis) (max_attempts : ℕ)
    (world subject : Text) where
  abbrev key : Text
  key = build_attempts_key world subject

  abbrev lock : Text
  lock = build_lock_key world subject

  -- Until the deadline, the store gives these attempts.
  abbrev Holds : Date → List Date → S → Type 0
  Holds deadline ts s =
      (now : Date)
      → now < deadline
      → (stored : Option (List Date)) × (redis.get now key s ≡ ok stored) × (values stored ≡ ts)

  is_rate_limited-Holds :
      (deadline now : Date) (ts : List Date) (s : S)
      → Holds deadline ts s
      → now < deadline
      → is_rate_limited redis max_attempts now world subject s
        ≡ leb max_attempts (length (filter (is_recent now) ts))
  unfolding is_rate_limited recent_attempts
  is_rate_limited-Holds deadline now ts s h k =
      let (stored, e, v) = h now k in rw (is_rate_limited, e, recent_attempts, v) refl

  -- What an attempt leaves, from what is stored.
  record_failed_attempt-locked :
      (now : Date) (ts : List Date) (s s₁ : S) (stored : Option (List Date))
      → redis.acquire_lock now lock s ≡ ok s₁
      → redis.get now key s₁ ≡ ok stored
      → recent_attempts now stored ≡ ts
      → (s₂ : S) × (redis.set now key (ts ++ now ∷ []) rate_limit_ttl_seconds s₁ ≡ ok s₂)
        × (record_failed_attempt redis max_attempts now world subject s ≡ (
            if leb max_attempts (length ts)
            then (true, redis.release_lock lock s₁)
            else (false, redis.release_lock lock s₂)))
  unfolding record_failed_attempt locked_attempt push_attempt
  record_failed_attempt-locked now ts s s₁ stored acquired got recent =
      let (s₂, set) = laws.set_ok now key (ts ++ now ∷ []) rate_limit_ttl_seconds s₁ in
      (
        s₂,
        set,
        rw (record_failed_attempt, acquired, locked_attempt, got, push_attempt, recent)
            (elim (Bool-cases (leb max_attempts (length ts))) [
              | inl full ↦ rw full refl
              | inr free ↦ rw (free, set) refl
            ]),
      )

  record_failed_attempt-Holds :
      (deadline now : Date) (ts : List Date) (s : S)
      → Holds deadline ts s
      → now < deadline
      → deadline ≤ now + rate_limit_ttl_seconds * 1000
      → All (λ t. now < t + rate_limit_window_seconds * 1000) ts
      → laws.is_free lock s ≡ true
      → Holds deadline
          (if leb max_attempts (length ts) then ts else ts ++ now ∷ [])
          (record_failed_attempt redis max_attempts now world subject s).1
        × (laws.is_free lock (record_failed_attempt redis max_attempts now world subject s).1
            ≡ true)
  record_failed_attempt-Holds deadline now ts s h k ttl fresh free =
      let (s₁, acquired, held) = laws.acquire_free now lock s free in
      let (stored, got, vals) = h now k in
      let same =
        λ (t : Date). laws.get_acquire now t lock key s s₁ acquired (keys_apart world subject) in
      let released =
        λ (t : Date) (r : S). laws.get_release t lock key r (keys_apart world subject) in
      let recent : recent_attempts now stored ≡ ts =
        unfold recent_attempts in ap (filter (is_recent now)) vals ∙ recent-All now ts fresh in
      let (s₂, set, result) =
        record_failed_attempt-locked now ts s s₁ stored acquired (same now ∙ got) recent in
      elim (Bool-cases (leb max_attempts (length ts))) [
        | inl full ↦
            rw (result, full)
              (
                λ t before. let (o, e, v) = h t before in (o, released t s₁ ∙ same t ∙ e, v),
                laws.release_free lock s₁ held,
              )
        | inr room ↦
            rw (result, room)
              (
                λ t before. (
                  some (ts ++ now ∷ []),
                  released t s₂
                      ∙ laws.get_set now t key (ts ++ now ∷ []) rate_limit_ttl_seconds s₁ s₂ set
                          (omega arith),
                  refl,
                ),
                laws.release_free lock s₂ (
                    laws.held_set now key lock (ts ++ now ∷ []) rate_limit_ttl_seconds s₁ s₂ set
                      (λ e. keys_apart world subject (sym e)) held),
              )
      ]

  -- Wrong secrets at these times.
  abbrev fail_at : List Date → S → S
  fail_at [] s = s
  fail_at (t ∷ ts) s = fail_at ts (record_failed_attempt redis max_attempts t world subject s).1

  abbrev InWindow : Date → Date → Type 0
  InWindow start t = (start ≤ t) × (t < start + rate_limit_window_seconds * 1000)

  window-recent :
      (start now : Date) (ts : List Date)
      → InWindow start now
      → All (InWindow start) ts
      → All (λ t. now < t + rate_limit_window_seconds * 1000) ts
  window-recent start now [] k h = tt
  window-recent start now (t ∷ ts) k (g, h) = (omega arith, window-recent start now ts k h)

  window-snoc :
      (start t : Date) (ts : List Date)
      → All (InWindow start) ts
      → InWindow start t
      → All (InWindow start) (ts ++ t ∷ [])
  window-snoc start t [] h k = (k, tt)
  window-snoc start t (u ∷ ts) (g, h) k = (g, window-snoc start t ts h k)

  -- The attempts that a window keeps: as many as there were, up to the limit.
  fail_at-Holds :
      (start : Date) (ts kept : List Date) (s : S)
      → All (InWindow start) ts
      → Holds (start + rate_limit_window_seconds * 1000) kept s
      → All (InWindow start) kept
      → length kept ≤ max_attempts
      → laws.is_free lock s ≡ true
      → (left : List Date) × Holds (start + rate_limit_window_seconds * 1000) left (fail_at ts s)
        × All (InWindow start) left
        × (laws.is_free lock (fail_at ts s) ≡ true)
        × (leb max_attempts (length left) ≡ leb max_attempts (length kept + length ts))
  fail_at-Holds start [] kept s inside h k b free = (kept, h, k, free, ground arith)
  fail_at-Holds start (t ∷ ts) kept s (now_in, inside) h k b free =
      let (next, free) =
        record_failed_attempt-Holds (start + rate_limit_window_seconds * 1000) t kept s h now_in.1
          (omega arith) (window-recent start t kept now_in k) free in
      elim (Bool-cases (leb max_attempts (length kept))) [
        | inl full ↦
            let (left, holds, k', unlocked, n) =
              fail_at-Holds start ts kept _ inside (rw full at next) k b free in
            (left, holds, k', unlocked, ground arith)
        | inr room ↦
            let (left, holds, k', unlocked, n) =
              fail_at-Holds start ts (kept ++ t ∷ []) _ inside (rw room at next)
                (window-snoc start t kept k now_in) (ground (arith, length-append kept (t ∷ [])))
                free in
            (left, holds, k', unlocked, ground (arith, length-append kept (t ∷ [])))
      ]

  -- When Redis keeps its laws, a subject with no stored attempts and whose lock is free, that fails at
  -- times within one window, is limited at a time of that window exactly when it failed at least the
  -- allowed number of times, and its lock is free again.
  pub is_rate_limited-fail_at :
      (start now : Date) (ts : List Date) (s : S)
      → ((t : Date) → redis.get t key s ≡ ok none)
      → laws.is_free lock s ≡ true
      → All (InWindow start) ts
      → InWindow start now
      → (is_rate_limited redis max_attempts now world subject (fail_at ts s)
          ≡ leb max_attempts (length ts))
        × (laws.is_free lock (fail_at ts s) ≡ true)
  is_rate_limited-fail_at start now ts s fresh free inside k =
      let (left, holds, recent, unlocked, n) =
        fail_at-Holds start ts [] s inside (λ t _. (none, fresh t, refl)) tt (omega arith) free in
      (
        is_rate_limited-Holds (start + rate_limit_window_seconds * 1000) now left (fail_at ts s)
              holds k.1
            ∙ ap (λ (xs : List Date). leb max_attempts (length xs))
                (recent-All now left (window-recent start now left k recent))
            ∙ n
            ∙ ap (leb max_attempts) (the_length (length ts)),
        unlocked,
      )
    where
      the_length : (n : ℕ) → 0 + n ≡ n
      the_length n = omega arith

  is_rate_limited-get :
      (now : Date) (s : S) (stored : Option (List Date))
      → redis.get now key s ≡ ok stored
      → is_rate_limited redis max_attempts now world subject s
        ≡ leb max_attempts (length (recent_attempts now stored))
  unfolding is_rate_limited
  is_rate_limited-get now s stored e = rw (is_rate_limited, e) refl

  -- When Redis keeps its laws and the lock is free, a failed attempt is answered as limited exactly
  -- when the check just before it says so.
  pub record_failed_attempt-is_rate_limited :
      (now : Date) (s : S)
      → laws.is_free lock s ≡ true
      → (record_failed_attempt redis max_attempts now world subject s).0
        ≡ is_rate_limited redis max_attempts now world subject s
  record_failed_attempt-is_rate_limited now s free =
      let (s₁, acquired, held) = laws.acquire_free now lock s free in
      let (stored, got) = laws.get_ok now key s in
      let (s₂, set, result) =
        record_failed_attempt-locked now (recent_attempts now stored) s s₁ stored acquired
          (laws.get_acquire now now lock key s s₁ acquired (keys_apart world subject) ∙ got) refl in
      ap (λ (r : Bool × S). r.0) result
      ∙ answer (leb max_attempts (length (recent_attempts now stored))) _ _
      ∙ sym (is_rate_limited-get now s stored got)
    where
      answer : (b : Bool) (x y : S) → (if◌then◌else◌ {A = Bool × S} b (true, x) (false, y)).0 ≡ b
      answer true x y = refl
      answer false x y = refl

  -- When Redis keeps its laws and some attempt is allowed, clearing the attempts succeeds and the
  -- subject is not limited after it.
  pub clear_attempts-is_rate_limited :
      (now : Date) (s : S)
      → 0 < max_attempts
      → (s' : S) × (clear_attempts redis max_attempts world subject s ≡ ok s')
        × (is_rate_limited redis max_attempts now world subject s' ≡ false)
  unfolding clear_attempts recent_attempts filter
  clear_attempts-is_rate_limited now s h =
      let (s', removed, gone) = laws.remove_get now key s in
      (s', removed, is_rate_limited-get now s' none gone ∙ positive)
    where
      positive : leb max_attempts 0 ≡ false
      positive = ground arith
