-- ===== src/Concurrency/Progress.antt =====
-- The workers of `mapWithConcurrency` in src/logic/concurrency.ts come to an end.
use worlds_content_server.Prelude.{
  ℕ, zero, suc, ◌+◌, ◌*◌, ◌-◌, ◌≤◌, ◌≡◌, refl, sym, ap, Option, none, some, List, [], ◌∷◌, arith,
}
use mathlib.Core.Path.{subst}
use worlds_content_server.Prelude.Lists.{length}
use worlds_content_server.Prelude.Positions.{
  get_elem?, update_at, total, total-update_at, position_within,
}
use worlds_content_server.Prelude.Result.{Result, ok, err, ok_inj}
use worlds_content_server.Concurrency.{
  repeat, min, start, Worker, ready, running, stopped, Pool, WorkerEvent, proceed, abort, next_item,
  take_item, settle, proceed_worker, step, run,
}

module _ {ℓ} {A E R : Type ℓ} (mapper : A → ℕ → Result E R) (items : List A) where
  abbrev pub weight : Worker A → ℕ
  weight stopped = 0
  weight ready = 1
  weight (running i x) = 2

  -- The steps that the workers can still take.
  abbrev pub steps_left : Pool A E R → ℕ
  steps_left p = total weight p.workers + 2 * (length items - p.next_index)

  -- Every step of a worker is one of a worker that has not stopped.
  unfoldable pub IsBusy : List (WorkerEvent E) → Pool A E R → Type ℓ
  IsBusy [] p = Unit
  IsBusy (proceed w ∷ es) p =
      ((s : Worker A) × (get_elem? p.workers w ≡ some s) × ¬ (s ≡ stopped))
      × IsBusy es (step mapper items (proceed w) p)
  IsBusy (abort e ∷ es) p = IsBusy es (step mapper items (abort e) p)

  abbrev pub moves : List (WorkerEvent E) → ℕ
  moves [] = 0
  moves (proceed w ∷ es) = suc (moves es)
  moves (abort e ∷ es) = moves es

  take_item-steps_left :
      (w : ℕ) (o : Option E) (p : Pool A E R)
      → get_elem? p.workers w ≡ some ready
      → suc (steps_left (take_item items w o p)) ≤ steps_left p
  take_item-steps_left w (some e) p at =
      let h = total-update_at weight p.workers w stopped at in omega arith
  take_item-steps_left w none p at = taken (get_elem? items p.next_index) refl
    where
      taken :
          (o : Option A)
          → get_elem? items p.next_index ≡ o
          → suc (
              total weight (update_at w (next_item p.next_index o) p.workers)
              + 2 * (length items - suc p.next_index))
            ≤ steps_left p
      taken none e = let h = total-update_at weight p.workers w stopped at in omega arith
      taken (some x) e =
          let h = total-update_at weight p.workers w (running p.next_index x) at in
          let inside = position_within items p.next_index e in omega arith

  settle-steps_left :
      (w j : ℕ) (x : A) (r : Result E R) (p : Pool A E R)
      → get_elem? p.workers w ≡ some (running j x)
      → suc (steps_left (settle w j r p)) ≤ steps_left p
  settle-steps_left w j x (ok r) p at =
      let h = total-update_at weight p.workers w ready at in omega arith
  settle-steps_left w j x (err e) p at =
      let h = total-update_at weight p.workers w ready at in omega arith

  proceed_worker-steps_left :
      (w : ℕ) (s : Worker A) (p : Pool A E R)
      → get_elem? p.workers w ≡ some s
      → ¬ (s ≡ stopped)
      → suc (steps_left (proceed_worker mapper items w (some s) p)) ≤ steps_left p
  proceed_worker-steps_left w stopped p at busy = absurd (busy refl)
  proceed_worker-steps_left w ready p at busy = take_item-steps_left w p.first_error p at
  proceed_worker-steps_left w (running j x) p at busy = settle-steps_left w j x (mapper x j) p at

  run-steps_left :
      (es : List (WorkerEvent E)) (p : Pool A E R)
      → IsBusy es p
      → moves es + steps_left (run mapper items es p) ≤ steps_left p
  unfolding run IsBusy step
  run-steps_left [] p busy = omega arith
  run-steps_left (abort e ∷ es) p busy = run-steps_left es (step mapper items (abort e) p) busy
  run-steps_left (proceed w ∷ es) p ((s, at, going), later) =
      let h = run-steps_left es (step mapper items (proceed w) p) later in
      let moved =
        subst (λ o. suc (steps_left (proceed_worker mapper items w o p)) ≤ steps_left p) (sym at)
          (proceed_worker-steps_left w s p at going) in
      omega arith

  total-repeat : (n : ℕ) → total weight (repeat n ready) ≡ n
  unfolding total
  total-repeat zero = refl
  total-repeat (suc n) = omega (arith, total-repeat n)

  min_within : (a b : ℕ) → min a b ≤ b
  min_within a b = ground arith

  -- Whatever the order, also when the call is aborted or an item fails: the workers that a call
  -- starts take at most three steps for each item, when each step is one of a worker that has not
  -- stopped.
  pub start-moves :
      (invalid : E) (concurrency : ℕ) (p : Pool A E R) (es : List (WorkerEvent E))
      → start items invalid concurrency ≡ ok p
      → IsBusy es p
      → moves es ≤ 3 * length items
  unfolding start
  start-moves invalid zero p es h busy = cc
  start-moves invalid (suc c) p es h busy =
      let left = run-steps_left es p busy in
      let fresh = ap steps_left (sym (ok_inj h)) in
      let workers = total-repeat (min (suc c) (length items)) in
      let few = min_within (suc c) (length items) in omega arith
