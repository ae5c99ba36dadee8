-- ===== src/Concurrency/Ordering.antt =====
-- What `mapWithConcurrency` of src/logic/concurrency.ts returns, in whatever order its workers run.
use worlds_content_server.Prelude.{
  ℕ, zero, suc, ◌+◌, ◌≤◌, ◌≡◌, refl, sym, ap, ◌∙◌, ◌⊎◌, inl, inr, Option, none, some, List, [], ◌∷◌,
  map, arith, some_inj,
}
use mathlib.Core.Path.{subst}
use worlds_content_server.Prelude.Lists.{length}
use worlds_content_server.Prelude.Positions.{
  get_elem?, update_at, length-update_at, update_at_here, update_at_elsewhere, update_at_inverts,
  position_exists, position_within, position_beyond,
}
use worlds_content_server.Prelude.Result.{Result, ok, err, ◌>>=◌, ok_inj}
use worlds_content_server.Concurrency.{
  Worker, ready, running, stopped, Pool, WorkerEvent, proceed, abort, repeat, min, start,
  keep_first, set_worker, next_item, take_item, settle, proceed_worker, step, run, outcome_of,
  outcome,
}

-- The items mapped one after another.
unfoldable pub map_from {ℓ} :
    {A E R : Type ℓ} → (A → ℕ → Result E R) → ℕ → List A → Result E (List R)
map_from mapper i [] = ok []
map_from mapper i (x ∷ xs) =
    let rest = map_from mapper (suc i) xs in mapper x i >>= λ r. rest >>= λ rs. ok (r ∷ rs)

-- All workers have stopped.
unfoldable pub IsFinished {ℓ} : {A E R : Type ℓ} → Pool A E R → Type ℓ
IsFinished {A = A} p = (w : ℕ) (s : Worker A) → get_elem? p.workers w ≡ some s → s ≡ stopped

module _ {ℓ} {A E R : Type ℓ} (mapper : A → ℕ → Result E R) (items : List A) where
  -- An item whose result is stored at its index.
  pub record IsDone (i : ℕ) (p : Pool A E R) : Type ℓ where
    pub item : A
    pub result : R
    pub found : get_elem? items i ≡ some item
    pub mapped : mapper item i ≡ ok result
    pub stored : get_elem? p.results i ≡ some (some result)

  abbrev pub IsHeld : ℕ → Pool A E R → Type ℓ
  IsHeld i p = (w : ℕ) × (x : A) × (get_elem? p.workers w ≡ some (running i x))

  abbrev pub HoldsItem : Worker A → Type ℓ
  HoldsItem ready = Unit
  HoldsItem stopped = Unit
  HoldsItem (running i x) = get_elem? items i ≡ some x

  -- The results have the items' length, workers hold items; without an error each item that was
  -- taken is held or done, and a worker stops only when all have been taken.
  pub record IsPool (p : Pool A E R) : Type ℓ where
    pub sized : length p.results ≡ length items
    pub holding : (w : ℕ) (s : Worker A) → get_elem? p.workers w ≡ some s → HoldsItem s
    pub covered :
        p.first_error ≡ none
        → (i : ℕ) → suc i ≤ p.next_index
        → suc i ≤ length items
        → IsHeld i p ⊎ IsDone i p
    pub exhausted :
        p.first_error ≡ none
        → (w : ℕ) → get_elem? p.workers w ≡ some stopped
        → length items ≤ p.next_index
    pub staffed : 1 ≤ length items → 1 ≤ length p.workers

  -- A worker that holds no item changes: what is held stays held.
  held_elsewhere :
      (i w : ℕ) (s : Worker A) (p : Pool A E R)
      → get_elem? p.workers w ≡ some ready
      → IsHeld i p
      → (v : ℕ) × (x : A) × (get_elem? (update_at w s p.workers) v ≡ some (running i x))
  held_elsewhere i w s p idle (v, x, h) = elim (update_at_elsewhere p.workers w v s h) [
    | inl k ↦ (v, x, k)
    | inr k ↦ cc
  ]

  -- A worker stops on an error: nothing is promised then.
  halt-IsPool :
      (w : ℕ) (e : E) (p : Pool A E R)
      → IsPool p
      → p.first_error ≡ some e
      → IsPool (set_worker w stopped p)
  halt-IsPool w e p k h = record {
    sized = k.sized;
    staffed = λ h. let e = length-update_at p.workers w stopped in omega (arith, k.staffed h);
    holding = λ v s g. elim (update_at_inverts p.workers w v stopped g) [
      | inl old ↦ k.holding v s old
      | inr same ↦ subst HoldsItem same tt
    ];
    covered = λ none_yet. cc;
    exhausted = λ none_yet. cc;
  }

  next_item-HoldsItem : (i : ℕ) (o : Option A) → get_elem? items i ≡ o → HoldsItem (next_item i o)
  next_item-HoldsItem i none e = tt
  next_item-HoldsItem i (some x) e = e

  next_item-stopped :
      (i : ℕ) (o : Option A) → get_elem? items i ≡ o → next_item i o ≡ stopped → length items ≤ i
  next_item-stopped i none e h = position_beyond items i e
  next_item-stopped i (some x) e h = cc

  keeps_error : (o : Option E) (e : E) → ¬ (keep_first o e ≡ none)
  keeps_error none e h = cc
  keeps_error (some first) e h = cc

  take_item-IsPool :
      (w : ℕ) (p : Pool A E R)
      → IsPool p
      → get_elem? p.workers w ≡ some ready
      → p.first_error ≡ none
      → IsPool (take_item items w none p)
  take_item-IsPool w p k idle fine =
      let s = next_item p.next_index (get_elem? items p.next_index) in
      record {
        sized = k.sized;
        staffed = λ h. let e = length-update_at p.workers w s in omega (arith, k.staffed h);
        holding = λ v t g. elim (update_at_inverts p.workers w v s g) [
          | inl old ↦ k.holding v t old
          | inr same ↦ subst HoldsItem same (next_item-HoldsItem p.next_index _ refl)
        ];
        covered = λ none_yet i taken inside. elim (ℕ-cases i p.next_index taken) [
          | inl earlier ↦ elim (k.covered fine i earlier inside) [
            | inl held ↦ inl (held_elsewhere i w s p idle held)
            | inr d ↦ inr (record {
              item = d.item;
              result = d.result;
              found = d.found;
              mapped = d.mapped;
              stored = d.stored;
            })
          ]
          | inr now ↦
              let (x, found) = position_exists items i inside in
              inl (
                w,
                x,
                update_at_here p.workers w s idle
                    ∙ ap (λ j. some (next_item j (get_elem? items j))) (sym now)
                    ∙ ap (λ o. some (next_item i o)) found,
              )
        ];
        exhausted = λ none_yet v g. elim (update_at_inverts p.workers w v s g) [
          | inl old ↦ let h = k.exhausted fine v old in omega arith
          | inr same ↦ let h = next_item-stopped p.next_index _ refl same in omega arith
        ];
      }
    where
      ℕ-cases : (i n : ℕ) → suc i ≤ suc n → (suc i ≤ n) ⊎ (i ≡ n)
      ℕ-cases i n h = ground arith

  settle_ok-IsPool :
      (w j : ℕ) (x : A) (r : R) (p : Pool A E R)
      → IsPool p
      → get_elem? p.workers w ≡ some (running j x)
      → mapper x j ≡ ok r
      → IsPool (settle w j (ok r) p)
  settle_ok-IsPool w j x r p k busy mapped = record {
    sized = length-update_at p.results j (some r) ∙ k.sized;
    staffed = λ h. let e = length-update_at p.workers w ready in omega (arith, k.staffed h);
    holding = λ v t g. elim (update_at_inverts p.workers w v ready g) [
      | inl old ↦ k.holding v t old
      | inr same ↦ subst HoldsItem same tt
    ];
    covered = λ none_yet i taken inside. elim (k.covered none_yet i taken inside) [
      | inl (v, y, held) ↦ elim (update_at_elsewhere p.workers w v ready held) [
        | inl kept ↦ inl (v, y, kept)
        | inr same ↦
            inr
              (subst (λ n. IsDone n (settle w j (ok r) p)) (same_index w v i y same held busy) here)
      ]
      | inr d ↦ elim (update_at_elsewhere p.results j i (some r) d.stored) [
        | inl kept ↦ inr (record {
          item = d.item;
          result = d.result;
          found = d.found;
          mapped = d.mapped;
          stored = kept;
        })
        | inr same ↦ inr (subst (λ n. IsDone n (settle w j (ok r) p)) same here)
      ]
    ];
    exhausted = λ none_yet v g. elim (update_at_inverts p.workers w v ready g) [
      | inl old ↦ k.exhausted none_yet v old
      | inr same ↦ cc
    ];
  }
    where
      same_index :
          (w v i : ℕ) (y : A)
          → w ≡ v
          → get_elem? p.workers v ≡ some (running i y)
          → get_elem? p.workers w ≡ some (running j x)
          → j ≡ i
      same_index w v i y same held busy = cc

      here : IsDone j (settle w j (ok r) p)
      here =
          let found = k.holding w (running j x) busy in
          let inside = position_within items j found in
          let (old, there) = position_exists p.results j (omega (arith, k.sized)) in
          record {
            item = x;
            result = r;
            found = found;
            mapped = mapped;
            stored = update_at_here p.results j (some r) there;
          }

  -- A worker that holds an item is set to ready, and an error is kept.
  settle_err-IsPool :
      (w j : ℕ) (x : A) (e : E) (p : Pool A E R) → IsPool p → IsPool (settle w j (err e) p)
  settle_err-IsPool w j x e p k = record {
    sized = k.sized;
    staffed = λ h. let e = length-update_at p.workers w ready in omega (arith, k.staffed h);
    holding = λ v t g. elim (update_at_inverts p.workers w v ready g) [
      | inl old ↦ k.holding v t old
      | inr same ↦ subst HoldsItem same tt
    ];
    covered = λ none_yet. elim (keeps_error p.first_error e none_yet) [ ];
    exhausted = λ none_yet. elim (keeps_error p.first_error e none_yet) [ ];
  }

  take-IsPool :
      (w : ℕ) (o : Option E) (p : Pool A E R)
      → IsPool p
      → get_elem? p.workers w ≡ some ready
      → p.first_error ≡ o
      → IsPool (take_item items w o p)
  take-IsPool w none p k idle fine = take_item-IsPool w p k idle fine
  take-IsPool w (some e) p k idle failed = halt-IsPool w e p k failed

  settle-IsPool :
      (w j : ℕ) (x : A) (r : Result E R) (p : Pool A E R)
      → IsPool p
      → get_elem? p.workers w ≡ some (running j x)
      → mapper x j ≡ r
      → IsPool (settle w j r p)
  settle-IsPool w j x (ok r) p k busy mapped = settle_ok-IsPool w j x r p k busy mapped
  settle-IsPool w j x (err e) p k busy mapped = settle_err-IsPool w j x e p k

  proceed_worker-IsPool :
      (w : ℕ) (o : Option (Worker A)) (p : Pool A E R)
      → IsPool p
      → get_elem? p.workers w ≡ o
      → IsPool (proceed_worker mapper items w o p)
  proceed_worker-IsPool w none p k at = k
  proceed_worker-IsPool w (some stopped) p k at = k
  proceed_worker-IsPool w (some ready) p k at = take-IsPool w p.first_error p k at refl
  proceed_worker-IsPool w (some (running j x)) p k at = settle-IsPool w j x (mapper x j) p k at refl

  step-IsPool : (e : WorkerEvent E) (p : Pool A E R) → IsPool p → IsPool (step mapper items e p)
  unfolding step
  step-IsPool (proceed w) p k = proceed_worker-IsPool w (get_elem? p.workers w) p k refl
  step-IsPool (abort e) p k = record {
    sized = k.sized;
    staffed = k.staffed;
    holding = k.holding;
    covered = λ none_yet. elim (keeps_error p.first_error e none_yet) [ ];
    exhausted = λ none_yet. elim (keeps_error p.first_error e none_yet) [ ];
  }

  run-IsPool :
      (es : List (WorkerEvent E)) (p : Pool A E R) → IsPool p → IsPool (run mapper items es p)
  unfolding run
  run-IsPool [] p k = k
  run-IsPool (e ∷ es) p k = run-IsPool es (step mapper items e p) (step-IsPool e p k)

  length-repeat : {B : Type ℓ} (n : ℕ) (b : B) → length (repeat n b) ≡ n
  length-repeat zero b = refl
  length-repeat (suc n) b = ap suc (length-repeat n b)

  repeated : {B : Type ℓ} (n w : ℕ) (b : B) {s : B} → get_elem? (repeat n b) w ≡ some s → b ≡ s
  unfolding get_elem?
  repeated zero w b h = cc
  repeated (suc n) zero b h = some_inj h
  repeated (suc n) (suc w) b h = repeated n w b h

  start-IsPool :
      (invalid : E) (concurrency : ℕ) (p : Pool A E R)
      → start items invalid concurrency ≡ ok p
      → IsPool p
  unfolding start
  start-IsPool invalid zero p h = cc
  start-IsPool invalid (suc c) p h = subst IsPool (ok_inj h) (record {
    sized = length-repeat (length items) none;
    staffed = λ h.
        let e = length-repeat {B = Worker A} (min (suc c) (length items)) ready in
        ground (arith, e, h);
    holding = λ w s g. subst HoldsItem (repeated _ w ready g) tt;
    covered = λ none_yet i taken. absurd (omega arith);
    exhausted = λ none_yet w g. let same = repeated _ w ready g in cc;
  })

  all-IsDone :
      (p : Pool A E R)
      → IsPool p
      → IsFinished p
      → p.first_error ≡ none
      → (i : ℕ) → suc i ≤ length items
      → IsDone i p
  unfolding IsFinished
  all-IsDone p k finished fine i inside =
      let (s, at) = position_exists p.workers 0 (k.staffed (omega arith)) in
      let taken = k.exhausted fine 0 (at ∙ ap some (finished 0 s at)) in
      elim (k.covered fine i (omega arith) inside) [
        | inl (w, x, held) ↦ let same = finished w (running i x) held in cc
        | inr d ↦ d
      ]

module _ {ℓ} {A E R : Type ℓ} (mapper : A → ℕ → Result E R) where
  collect :
      (i : ℕ) (xs : List A) (rs : List (Option R))
      → length rs ≡ length xs
      → ((k : ℕ)
          → suc k ≤ length xs
          → (x : A) × (r : R) × (get_elem? xs k ≡ some x)
            × (mapper x (k + i) ≡ ok r)
            × (get_elem? rs k ≡ some (some r)))
      → (ys : List R) × (map_from mapper i xs ≡ ok ys) × (rs ≡ map some ys)
  unfolding map_from get_elem?
  collect i [] [] same h = ([], refl, refl)
  collect i [] (o ∷ rs) same h = absurd (omega arith)
  collect i (x ∷ xs) [] same h = absurd (omega arith)
  collect i (x ∷ xs) (o ∷ rs) same h =
      let (y, r, found, mapped, stored) = h 0 (omega arith) in
      let (ys, rest, tail) = collect (suc i) xs rs (omega arith) (λ k inside.
        let (z, q, e, m, g) = h (suc k) (omega arith) in
        (z, q, e, ap (mapper z) (omega arith) ∙ m, g)) in
      let first = ap (λ z. mapper z i) (some_inj found) ∙ ap (mapper y) (omega arith) ∙ mapped in
      (
        r ∷ ys,
        ap (λ a. a >>= λ q. map_from mapper (suc i) xs >>= λ qs. ok (q ∷ qs)) first
            ∙ ap (λ b. b >>= λ qs. ok (r ∷ qs)) rest,
        ap (λ l. o ∷ l) tail ∙ ap (λ q. q ∷ map some ys) (some_inj stored),
      )

  without_error :
      (o : Option E) (results : List (Option R)) {rs : List (Option R)}
      → outcome_of o results ≡ ok rs
      → (o ≡ none) × (results ≡ rs)
  without_error none results h = (refl, ok_inj h)
  without_error (some e) results h = cc

  -- Whatever the order of the workers' steps: when a positive concurrency is given, all workers
  -- have stopped and the call does not throw, the results are those of the items mapped one after
  -- another, in the items' order, without a hole.
  pub run-map_from :
      (items : List A) (invalid : E) (concurrency : ℕ) (es : List (WorkerEvent E)) (p : Pool A E R)
      {rs : List (Option R)}
      → start items invalid concurrency ≡ ok p
      → IsFinished (run mapper items es p)
      → outcome (run mapper items es p) ≡ ok rs
      → (ys : List R) × (map_from mapper 0 items ≡ ok ys) × (rs ≡ map some ys)
  unfolding outcome
  run-map_from items invalid concurrency es p started finished h =
      let q = run mapper items es p in
      let k =
        run-IsPool mapper items es p (start-IsPool mapper items invalid concurrency p started) in
      let (fine, same) = without_error q.first_error q.results h in
      let (ys, mapped, stored) = collect 0 items q.results k.sized (λ i inside.
        let d = all-IsDone mapper items q k finished fine i inside in
        (d.item, d.result, d.found, ap (mapper d.item) (omega arith) ∙ d.mapped, d.stored)) in
      (ys, mapped, sym same ∙ stored)
