-- ===== src/Concurrency/Tests.antt =====
-- Three items mapped by two workers of src/logic/concurrency.ts, the second of which is faster.
use worlds_content_server.Prelude.{
  ℕ, zero, suc, ◌+◌, ◌*◌, ◌≤◌, ◌≡◌, refl, sym, none, some, List, [], ◌∷◌, map, some_inj,
}
use worlds_content_server.Prelude.Lists.{length}
use worlds_content_server.Prelude.Positions.{get_elem?, update_at}
use worlds_content_server.Prelude.Result.{Result, ok}
use worlds_content_server.Concurrency.{
  ready, running, Pool, WorkerEvent, proceed, start, step, run, outcome,
}
use worlds_content_server.Concurrency.Ordering.{IsFinished, map_from, run-map_from}
use worlds_content_server.Concurrency.Progress.{IsBusy, moves, start-moves}

abbrev items : List ℕ
items = 5 ∷ 6 ∷ 7 ∷ []

abbrev mapper : ℕ → ℕ → Result ℕ ℕ
mapper x i = ok (x * 10 + i)

abbrev pool : Pool ℕ ℕ ℕ
pool = record {
  next_index = 0;
  first_error = none;
  results = none ∷ none ∷ none ∷ [];
  workers = ready ∷ ready ∷ [];
}

started : start items 0 2 ≡ ok pool
unfolding start
started = refl

abbrev events : List (WorkerEvent ℕ)
events =
    proceed 0
    ∷ proceed 1
    ∷ proceed 1
    ∷ proceed 1
    ∷ proceed 1
    ∷ proceed 1
    ∷ proceed 0
    ∷ proceed 0
    ∷ []

finished : IsFinished (run mapper items events pool)
unfolding IsFinished run step get_elem? update_at
finished zero s h = sym (some_inj h)
finished (suc zero) s h = sym (some_inj h)
finished (suc (suc w)) s h = cc

returned : outcome (run mapper items events pool) ≡ ok (some 50 ∷ some 61 ∷ some 72 ∷ [])
unfolding outcome run step get_elem? update_at
returned = refl

run-map_from_example :
    (ys : List ℕ) × (map_from mapper 0 items ≡ ok ys)
    × (some 50 ∷ some 61 ∷ some 72 ∷ [] ≡ map some ys)
run-map_from_example = run-map_from mapper items 0 2 events pool started finished returned

busy : IsBusy mapper items events pool
unfolding IsBusy step get_elem? update_at
busy = (
  (ready, refl, λ e. cc),
  (
    (ready, refl, λ e. cc),
    (
      (running 1 6, refl, λ e. cc),
      (
        (ready, refl, λ e. cc),
        (
          (running 2 7, refl, λ e. cc),
          ((ready, refl, λ e. cc), ((running 0 5, refl, λ e. cc), ((ready, refl, λ e. cc), tt))),
        ),
      ),
    ),
  ),
)

start-moves_example : moves mapper items events ≤ 3 * length items
start-moves_example = start-moves mapper items 0 2 pool events started busy
