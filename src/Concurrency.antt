-- ===== src/Concurrency.antt =====
-- The pool of workers of `mapWithConcurrency` in src/logic/concurrency.ts. A worker runs until its
-- next `await`: it takes an item, or stores what the mapper gave for the item it had. What the
-- mapper gives for an item is a value, and an order of the workers' steps a list of events.
use worlds_content_server.Prelude.{
  ℕ, zero, suc, ◌+◌, Option, none, some, List, [], ◌∷◌, if◌then◌else◌, ◌==◌, ltb,
}
use worlds_content_server.Prelude.Eq.{nat_eq}
use worlds_content_server.Prelude.Lists.{length}
use worlds_content_server.Prelude.Positions.{get_elem?, update_at}
use worlds_content_server.Prelude.Result.{Result, ok, err}
pub mod Ordering
pub mod Progress
pub mod Tests

-- A worker that runs holds the index of its item and the item.
pub data Worker {ℓ} (A : Type ℓ) : Type ℓ where
  ready : Worker A
  running : ℕ → A → Worker A
  stopped : Worker A

-- `failed` and `firstError` are one field; an item without a result yet is a hole of the array.
pub record Pool {ℓ} (A E R : Type ℓ) : Type ℓ where
  pub next_index : ℕ
  pub first_error : Option E
  pub results : List (Option R)
  pub workers : List (Worker A)

pub data WorkerEvent {ℓ} (E : Type ℓ) : Type ℓ where
  proceed : ℕ → WorkerEvent E
  abort : E → WorkerEvent E

abbrev pub repeat {ℓ} : {A : Type ℓ} → ℕ → A → List A
repeat zero a = []
repeat (suc n) a = a ∷ repeat n a

abbrev pub min : ℕ → ℕ → ℕ
min a b = if ltb a b then a else b

-- The first error is kept.
abbrev pub keep_first {ℓ} : {E : Type ℓ} → Option E → E → Option E
keep_first none e = some e
keep_first (some first) e = some first

-- `index >= items.length` ends the worker.
abbrev pub next_item {ℓ} : {A : Type ℓ} → ℕ → Option A → Worker A
next_item index none = stopped
next_item index (some item) = running index item

-- What is returned once all workers have stopped.
abbrev pub outcome_of {ℓ} : {E R : Type ℓ} → Option E → List (Option R) → Result E (List (Option R))
outcome_of none results = ok results
outcome_of (some e) results = err e

module _ {ℓ} {A E R : Type ℓ} where
  abbrev pub set_worker : ℕ → Worker A → Pool A E R → Pool A E R
  set_worker w s p = record p { workers = update_at w s p.workers }

  abbrev pub settle : ℕ → ℕ → Result E R → Pool A E R → Pool A E R
  settle w index (ok r) p = record p {
    results = update_at index (some r) p.results;
    workers = update_at w ready p.workers;
  }
  settle w index (err e) p = record p {
    first_error = keep_first p.first_error e;
    workers = update_at w ready p.workers;
  }

  unfoldable pub outcome : Pool A E R → Result E (List (Option R))
  outcome p = outcome_of p.first_error p.results

module _ {ℓ} {A E R : Type ℓ} (items : List A) where
  -- A concurrency that is not positive is refused.
  unfoldable pub start : (invalid : E) → ℕ → Result E (Pool A E R)
  start invalid zero = err invalid
  start invalid (suc concurrency) = ok (record {
    next_index = 0;
    first_error = none;
    results = repeat (length items) none;
    workers = repeat (min (suc concurrency) (length items)) ready;
  })

  abbrev pub take_item : ℕ → Option E → Pool A E R → Pool A E R
  take_item w (some e) p = set_worker w stopped p
  take_item w none p = record p {
    next_index = suc p.next_index;
    workers = update_at w (next_item p.next_index (get_elem? items p.next_index)) p.workers;
  }

module _ {ℓ} {A E R : Type ℓ} (mapper : A → ℕ → Result E R) (items : List A) where
  abbrev pub proceed_worker : ℕ → Option (Worker A) → Pool A E R → Pool A E R
  proceed_worker w none p = p
  proceed_worker w (some stopped) p = p
  proceed_worker w (some ready) p = take_item items w p.first_error p
  proceed_worker w (some (running index item)) p = settle w index (mapper item index) p

  unfoldable pub step : WorkerEvent E → Pool A E R → Pool A E R
  step (proceed w) p = proceed_worker w (get_elem? p.workers w) p
  step (abort e) p = record p { first_error = keep_first p.first_error e }

  unfoldable pub run : List (WorkerEvent E) → Pool A E R → Pool A E R
  run [] p = p
  run (e ∷ es) p = run es (step e p)
