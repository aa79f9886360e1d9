-- ===== src/Pipeline/Parallel.antt =====
-- berlue/pipeline/parallel.py: one operation on every element of a list, on a pool of threads. The
-- pool of the standard library hands its tasks out in the order of their submission, at most
-- `workers` at a time, and they end in any order; a list of moves stands for what the scheduler
-- and the network decide. A task that has not started when the first failure is read is cancelled:
-- no result is read behind a failure, so none depends on it.
pub mod Order
mod Examples
use berlue.Base.{ℕ, zero, suc, ◌+◌, Bool, true, false, List, [], ◌∷◌, map}
use berlue.Base.{Result, ok, err, ◌>>=◌, other_error, map_result, length, ltb, leb, if◌then◌else◌}

-- The future of one task: what it was submitted with, and how far it is.
pub data Stage (R : Type 0) : Type 0 where
  waiting running : Stage R
  finished : Result R → Stage R

pub record Future (T R : Type 0) : Type 0 where
  pub item : T
  pub stage : Stage R

pub data Move : Type 0 where
  start : Move
  finish : ℕ → Move

module _ {R : Type 0} where
  abbrev pub is_running : Stage R → ℕ
  is_running running = 1
  is_running _ = 0

  -- `future.result()`
  abbrev pub outcome : Stage R → Result R
  outcome (finished r) = r
  outcome _ = err (other_error "unfinished")

-- `min(max_workers, len(items))`
abbrev pub pool_size : {T : Type 0} → ℕ → List T → ℕ
pool_size max_workers items = if ltb (length items) max_workers then length items else max_workers

module _ {T R : Type 0} where
  abbrev pub submit : List T → List (Future T R)
  submit = map (λ x. record { item = x; stage = waiting })

  unfoldable pub count_running : List (Future T R) → ℕ
  count_running [] = 0
  count_running (f ∷ fs) = is_running f.stage + count_running fs

  -- A free thread takes the oldest task that waits.
  abbrev pub start_at :
      Future T R → Stage R → List (Future T R) → List (Future T R) → List (Future T R)
  start_at f waiting fs rest = record { item = f.item; stage = running } ∷ fs
  start_at f _ fs rest = f ∷ rest

  unfoldable pub start_first : List (Future T R) → List (Future T R)
  start_first [] = []
  start_first (f ∷ fs) = start_at f f.stage fs (start_first fs)

  module _ (fn : T → Result R) where
    -- A task that runs ends with what `fn` returns or raises.
    abbrev pub end_task : T → Stage R → Stage R
    end_task x running = finished (fn x)
    end_task x s = s

    unfoldable pub finish_at : ℕ → List (Future T R) → List (Future T R)
    finish_at n [] = []
    finish_at zero (f ∷ fs) = record { item = f.item; stage = end_task f.item f.stage } ∷ fs
    finish_at (suc n) (f ∷ fs) = f ∷ finish_at n fs

    -- A move that is not possible changes nothing.
    unfoldable pub move : ℕ → Move → List (Future T R) → List (Future T R)
    move workers start fs = if ltb (count_running fs) workers then start_first fs else fs
    move workers (finish n) fs = finish_at n fs

    unfoldable pub run_pool : ℕ → List Move → List (Future T R) → List (Future T R)
    run_pool workers [] fs = fs
    run_pool workers (m ∷ ms) fs = run_pool workers ms (move workers m fs)

    -- What is still to do ends as well: leaving the `with` waits for it.
    abbrev pub await : T → Stage R → Stage R
    await x (finished r) = finished r
    await x _ = finished (fn x)

    unfoldable pub settle : List (Future T R) → List (Future T R)
    settle [] = []
    settle (f ∷ fs) = record { item = f.item; stage = await f.item f.stage } ∷ settle fs

  -- `list(executor.map(fn, items))` reads the futures in the order of their submission.
  unfoldable pub collect : List (Future T R) → Result (List R)
  collect [] = ok []
  collect (f ∷ fs) = do y ← outcome f.stage; ys ← collect fs; ok (y ∷ ys)

  unfoldable pub map_parallele : List Move → (T → Result R) → List T → ℕ → Result (List R)
  map_parallele moves fn [] max_workers = ok []
  map_parallele moves fn (x ∷ xs) max_workers =
      let workers = pool_size max_workers (x ∷ xs) in
      if leb workers 1
      then map_result fn (x ∷ xs)
      else collect (settle fn (run_pool fn workers moves (submit (x ∷ xs))))
