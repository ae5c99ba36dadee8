-- ===== src/RateLimiter/Tests.antt =====
-- The rate limiter of src/logic/rate-limiter/component.ts on a store with expiry.
use worlds_content_server.Prelude.{
  ◌+◌, ◌*◌, ◌<◌, ◌≡◌, refl, sym, ap, ◌∙◌, Bool, true, false, not, ◌&&◌, ◌==◌, Option, none, some,
  List, [], ◌∷◌, if◌then◌else◌, ltb, arith,
}
use worlds_content_server.Prelude.Eq.{text_eq, text_beq_refl}
use worlds_content_server.Prelude.Lists.{includes}
use worlds_content_server.Errors.{Outcome, lock_not_acquired}
use worlds_content_server.Prelude.Text.{Text, codes}
use worlds_content_server.Prelude.Result.{ok, err, ok_inj}
use worlds_content_server.Prelude.Map.{
  Map, get, set, delete, get-set, get-delete, delete_element, includes-delete_element,
}
use worlds_content_server.Database.{Date}
use worlds_content_server.RateLimiter.{
  Redis, IsRedis, build_lock_key, is_rate_limited, record_failed_attempt,
}
use worlds_content_server.RateLimiter.Window.{is_rate_limited-fail_at}

-- Values with the time at which they go, and the locks that are held.
record Store : Type 0 where
  entries : Map (List Date × Date)
  locks : List Text

live : Date → Option (List Date × Date) → Option (List Date)
live now none = none
live now (some (ts, expiry)) = if ltb now expiry then some ts else none

take_lock : Text → Store → Bool → Outcome Store
take_lock k s true = err lock_not_acquired
take_lock k s false = ok (record s { locks = k ∷ s.locks })

abbrev store : Redis Store
unfolding live take_lock
store = record {
  get = λ now k s. ok (live now (get k s.entries));
  set = λ now k ts ttl s. ok (record s { entries = set k (ts, now + ttl * 1000) s.entries });
  remove = λ k s. ok (record s { entries = delete k s.entries });
  acquire_lock = λ now k s. take_lock k s (includes k s.locks);
  release_lock = λ k s. record s { locks = delete_element k s.locks };
}

taken_or_free :
    (k : Text) (s s' : Store) (b : Bool)
    → take_lock k s b ≡ ok s'
    → s' ≡ record s { locks = k ∷ s.locks }
unfolding take_lock
taken_or_free k s s' true e = cc
taken_or_free k s s' false e = sym (ok_inj e)

bool_of_not : (b c : Bool) → not b ≡ c → b ≡ not c
bool_of_not b c h = ground arith

store-IsRedis : IsRedis store
unfolding live take_lock includes
store-IsRedis = record {
  get_ok = λ now k s. (live now (get k s.entries), refl);
  set_ok = λ now k ts ttl s. (record s { entries = set k (ts, now + ttl * 1000) s.entries }, refl);
  get_set = λ now later k ts ttl s s' e h. ap ok (
      ap (λ (r : Store). live later (get k r.entries)) (sym (ok_inj e))
      ∙ stored later k ts (now + ttl * 1000) s.entries h);
  remove_get =
      λ now k s. (record s { entries = delete k s.entries }, refl, ap ok (gone now k s.entries));
  is_free = λ k s. not (includes k s.locks);
  is_held = λ k s. includes k s.locks;
  acquire_free = λ now k s free. (
    record s { locks = k ∷ s.locks },
    ap (take_lock k s) (bool_of_not (includes k s.locks) true free),
    rw text_beq_refl refl,
  );
  acquire_taken = λ now k s taken.
      (lock_not_acquired, ap (take_lock k s) (bool_of_not (includes k s.locks) false taken));
  held_not_free = λ k s h. ap not h;
  held_set =
      λ now k j ts ttl s s' e apart h. ap (λ (r : Store). includes j r.locks) (sym (ok_inj e)) ∙ h;
  release_free =
      λ k s h. ap not (includes-delete_element k k s.locks) ∙ unlocked (includes k s.locks) k;
  get_acquire = λ now later k j s s' e apart.
      ap (λ (r : Store). store.get later j r) (taken_or_free k s s' (includes k s.locks) e);
  get_release = λ later k j s apart. refl;
}
  where
    unlocked : (b : Bool) (k : Text) → not (b && not (k == k)) ≡ true
    unlocked b k = rw text_beq_refl (ground arith)

    stored :
        (later : Date) (k : Text) (ts : List Date) (expiry : Date) (m : Map (List Date × Date))
        → later < expiry
        → live later (get k (set k (ts, expiry) m)) ≡ some ts
    stored later k ts expiry m h = rw (get-set, text_beq_refl) (ground arith)

    gone :
        (now : Date) (k : Text) (m : Map (List Date × Date)) → live now (get k (delete k m)) ≡ none
    gone now k m = rw (get-delete, text_beq_refl) refl

empty_store : Store
empty_store = record { entries = []; locks = [] }

abbrev world : Text
world = codes "a.dcl.eth"

abbrev subject : Text
subject = codes "0xab"

-- Three failures at 1, 2 and 5 seconds, asked at 6 seconds: three is the limit.
is_rate_limited-fail_at_example :
    (is_rate_limited store 3 6000 world subject
        (record_failed_attempt store 3 5000 world subject
          (record_failed_attempt store 3 2000 world subject
            (record_failed_attempt store 3 1000 world subject empty_store).1).1).1
      ≡ true)
    × (store-IsRedis.is_free
          (build_lock_key world subject)
          (record_failed_attempt store 3 5000 world subject
            (record_failed_attempt store 3 2000 world subject
              (record_failed_attempt store 3 1000 world subject empty_store).1).1).1
        ≡ true)
unfolding get store empty_store live store-IsRedis
is_rate_limited-fail_at_example =
    is_rate_limited-fail_at store store-IsRedis 3 world subject 1000 6000 (1000 ∷ 2000 ∷ 5000 ∷ [])
      empty_store (λ t. refl) refl
      ((omega arith, omega arith), ((omega arith, omega arith), ((omega arith, omega arith), tt)))
      (omega arith, omega arith)
