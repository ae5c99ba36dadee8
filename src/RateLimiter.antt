-- ===== src/RateLimiter.antt =====
-- The limit on wrong shared secrets: src/logic/rate-limiter/component.ts. Redis is a parameter: an
-- implementation of the five calls that the source makes, on a state of its own. `Date.now()` is
-- an argument, in milliseconds.
use worlds_content_server.Prelude.{
  ℕ, ◌+◌, ◌*◌, ◌<◌, ◌≡◌, Bool, true, false, Option, none, some, List, [], ◌∷◌, ◌++◌, if◌then◌else◌,
  ltb, leb,
}
use worlds_content_server.Prelude.Lists.{length, filter}
use worlds_content_server.Prelude.Text.{Text, codes, lower_case}
use worlds_content_server.Prelude.Result.{Result, ok, err}
use worlds_content_server.Errors.{Error, Outcome}
use worlds_content_server.Database.{Date}
pub mod Window
pub mod Tests

abbrev pub rate_limit_window_seconds : ℕ
rate_limit_window_seconds = 60

abbrev pub rate_limit_ttl_seconds : ℕ
rate_limit_ttl_seconds = 70

-- The calls of Redis on the keys of attempts and of locks; a failed call changes nothing.
pub record Redis {ℓ} (S : Type ℓ) : Type ℓ where
  pub get : Date → Text → S → Outcome (Option (List Date))
  pub set : Date → Text → List Date → (ttl : ℕ) → S → Outcome S
  pub remove : Text → S → Outcome S
  pub acquire_lock : Date → Text → S → Outcome S
  pub release_lock : Text → S → S

colon : ℕ
colon = b':'

unfoldable pub build_attempts_key : Text → Text → Text
unfolding colon
build_attempts_key world subject =
    codes "shared-secret:attempts" ++ colon ∷ lower_case world ++ colon ∷ lower_case subject

unfoldable pub build_lock_key : Text → Text → Text
unfolding colon
build_lock_key world subject =
    codes "shared-secret:attempts:lock" ++ colon ∷ lower_case world ++ colon ∷ lower_case subject

abbrev pub values : Option (List Date) → List Date
values none = []
values (some ts) = ts

-- `ts > now - RATE_LIMIT_WINDOW_SECONDS * 1000`.
unfoldable pub is_recent : Date → Date → Bool
is_recent now ts = ltb now (ts + rate_limit_window_seconds * 1000)

unfoldable pub recent_attempts : Date → Option (List Date) → List Date
unfolding is_recent filter
recent_attempts now stored = filter (is_recent now) (values stored)

module _ {ℓ} {S : Type ℓ} (redis : Redis S) (max_attempts : ℕ) where
  -- An error lets the request through.
  unfoldable pub is_rate_limited : Date → Text → Text → S → Bool
  is_rate_limited now world subject s = elim (redis.get now (build_attempts_key world subject) s) [
    | err e ↦ false
    | ok stored ↦ leb max_attempts (length (recent_attempts now stored))
  ]

  -- The attempt is stored unless the window is full.
  unfoldable pub push_attempt : Date → Text → Option (List Date) → S → Bool × S
  push_attempt now key stored s =
      if leb max_attempts (length (recent_attempts now stored))
      then (true, s)
      else elim (redis.set now key (recent_attempts now stored ++ now ∷ []) rate_limit_ttl_seconds
          s) [ err e ↦ (false, s) | ok s' ↦ (false, s') ]

  unfoldable pub locked_attempt : Date → Text → S → Bool × S
  locked_attempt now key s = elim (redis.get now key s) [
    | err e ↦ (false, s)
    | ok stored ↦ push_attempt now key stored s
  ]

  -- Whether the caller is limited, and the state after the lock's release.
  unfoldable pub record_failed_attempt : Date → Text → Text → S → Bool × S
  record_failed_attempt now world subject s =
      let lock = build_lock_key world subject in
      elim (redis.acquire_lock now lock s) [
        | err e ↦ (false, redis.release_lock lock s)
        | ok s₁ ↦
            let (limited, s₂) = locked_attempt now (build_attempts_key world subject) s₁ in
            (limited, redis.release_lock lock s₂)
      ]

  unfoldable pub clear_attempts : Text → Text → S → Outcome S
  clear_attempts world subject s = redis.remove (build_attempts_key world subject) s

-- What the limiter relies on, when no other caller touches the keys of its subject: calls succeed, a
-- value lasts for its time to live, a lock is acquired when it is free and not otherwise, is then
-- held by the caller until it is released, and does not touch the other keys.
pub record IsRedis {ℓ} {S : Type ℓ} (redis : Redis S) : Type ℓ where
  pub get_ok :
      (now : Date) (k : Text) (s : S)
      → (stored : Option (List Date)) × (redis.get now k s ≡ ok stored)
  pub set_ok :
      (now : Date) (k : Text) (ts : List Date) (ttl : ℕ) (s : S)
      → (s' : S) × (redis.set now k ts ttl s ≡ ok s')
  pub get_set :
      (now later : Date) (k : Text) (ts : List Date) (ttl : ℕ) (s s' : S)
      → redis.set now k ts ttl s ≡ ok s'
      → later < now + ttl * 1000
      → redis.get later k s' ≡ ok (some ts)
  pub remove_get :
      (now : Date) (k : Text) (s : S)
      → (s' : S) × (redis.remove k s ≡ ok s') × (redis.get now k s' ≡ ok none)
  pub is_free : Text → S → Bool
  pub is_held : Text → S → Bool
  pub acquire_free :
      (now : Date) (k : Text) (s : S)
      → is_free k s ≡ true
      → (s' : S) × (redis.acquire_lock now k s ≡ ok s') × (is_held k s' ≡ true)
  pub acquire_taken :
      (now : Date) (k : Text) (s : S)
      → is_free k s ≡ false
      → (e : Error) × (redis.acquire_lock now k s ≡ err e)
  pub held_not_free : (k : Text) (s : S) → is_held k s ≡ true → is_free k s ≡ false
  pub held_set :
      (now : Date) (k j : Text) (ts : List Date) (ttl : ℕ) (s s' : S)
      → redis.set now k ts ttl s ≡ ok s'
      → (k ≡ j → ⊥)
      → is_held j s ≡ true
      → is_held j s' ≡ true
  pub release_free :
      (k : Text) (s : S) → is_held k s ≡ true → is_free k (redis.release_lock k s) ≡ true
  pub get_acquire :
      (now later : Date) (k j : Text) (s s' : S)
      → redis.acquire_lock now k s ≡ ok s'
      → (k ≡ j → ⊥)
      → redis.get later j s' ≡ redis.get later j s
  pub get_release :
      (later : Date) (k j : Text) (s : S)
      → (k ≡ j → ⊥)
      → redis.get later j (redis.release_lock k s) ≡ redis.get later j s
