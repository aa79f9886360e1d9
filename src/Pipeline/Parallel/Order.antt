-- ===== src/Pipeline/Parallel/Order.antt =====
-- berlue/pipeline/parallel.py: what the order in which the threads run does to the result.
use berlue.Base.{ℕ, zero, suc, ◌+◌, ◌≤◌, ◌≡◌, refl, ap, ◌∙◌, inl, inr, List, [], ◌∷◌, arith}
use berlue.Base.{Result, map_result, leb, Bool-cases}
use berlue.Pipeline.Parallel.{
  Future, Move, start, finish, submit, count_running, start_first, finish_at, move, run_pool,
  settle, pool_size, collect, map_parallele,
}

module _ {T R : Type 0} (fn : T → Result R) where
  -- What the pool will have done in the end is what it would do now.
  settle-start_first : (fs : List (Future T R)) → settle fn (start_first fs) ≡ settle fn fs
  unfolding settle start_first
  settle-start_first [] = refl
  settle-start_first (f ∷ fs) = ground (arith, settle-start_first fs)

  settle-finish_at : (n : ℕ) (fs : List (Future T R)) → settle fn (finish_at fn n fs) ≡ settle fn fs
  unfolding settle finish_at
  settle-finish_at n [] = refl
  settle-finish_at zero (f ∷ fs) = ground arith
  settle-finish_at (suc n) (f ∷ fs) = ground (arith, settle-finish_at n fs)

  settle-move :
      (w : ℕ) (m : Move) (fs : List (Future T R)) → settle fn (move fn w m fs) ≡ settle fn fs
  unfolding move
  settle-move w start fs = ground (arith, settle-start_first fs)
  settle-move w (finish n) fs = settle-finish_at n fs

  settle-run_pool :
      (w : ℕ) (ms : List Move) (fs : List (Future T R))
      → settle fn (run_pool fn w ms fs) ≡ settle fn fs
  unfolding run_pool
  settle-run_pool w [] fs = refl
  settle-run_pool w (m ∷ ms) fs = rw (settle-run_pool w ms (move fn w m fs)) (settle-move w m fs)

  collect-submit : (xs : List T) → collect (settle fn (submit xs)) ≡ map_result fn xs
  unfolding settle collect map_result
  collect-submit [] = refl
  collect-submit (x ∷ xs) = rw (collect-submit xs)

  -- In whatever order the threads take the tasks and end them, the result is that of the sequential
  -- loop: the values in the order of the input, or the exception of the first element that raises.
  pub map_parallele-sequential :
      (moves : List Move) (items : List T) (max_workers : ℕ)
      → map_parallele moves fn items max_workers ≡ map_result fn items
  unfolding map_parallele
  map_parallele-sequential moves [] w = unfold map_result in refl
  map_parallele-sequential moves (x ∷ xs) w = elim (Bool-cases (leb (pool_size w (x ∷ xs)) 1)) [
    | inl one ↦ rw one
    | inr more ↦ rw more (
        ap collect (settle-run_pool (pool_size w (x ∷ xs)) moves (submit (x ∷ xs)))
        ∙ collect-submit (x ∷ xs))
  ]

module _ {T R : Type 0} (fn : T → Result R) where
  count_running-submit : (xs : List T) → count_running {R = R} (submit xs) ≡ 0
  unfolding count_running
  count_running-submit [] = refl
  count_running-submit (x ∷ xs) = omega (arith, count_running-submit xs)

  start_first-count_running :
      (fs : List (Future T R)) → count_running (start_first fs) ≤ count_running fs + 1
  unfolding count_running start_first
  start_first-count_running [] = omega arith
  start_first-count_running (f ∷ fs) = ground (arith, start_first-count_running fs)

  finish_at-count_running :
      (n : ℕ) (fs : List (Future T R)) → count_running (finish_at fn n fs) ≤ count_running fs
  unfolding count_running finish_at
  finish_at-count_running n [] = omega arith
  finish_at-count_running zero (f ∷ fs) = ground arith
  finish_at-count_running (suc n) (f ∷ fs) = omega (arith, finish_at-count_running n fs)

  move-count_running :
      (w : ℕ) (m : Move) (fs : List (Future T R))
      → count_running fs ≤ w
      → count_running (move fn w m fs) ≤ w
  unfolding move
  move-count_running w start fs h = ground (arith, start_first-count_running fs)
  move-count_running w (finish n) fs h = omega (arith, finish_at-count_running n fs)

  run_pool-count_running :
      (w : ℕ) (moves : List Move) (fs : List (Future T R))
      → count_running fs ≤ w
      → count_running (run_pool fn w moves fs) ≤ w
  unfolding run_pool
  run_pool-count_running w [] fs h = h
  run_pool-count_running w (m ∷ ms) fs h =
      run_pool-count_running w ms (move fn w m fs) (move-count_running w m fs h)

  -- At no time do more tasks run than the pool has threads.
  pub run_pool_bounded :
      (w : ℕ) (moves : List Move) (items : List T)
      → count_running (run_pool fn w moves (submit items)) ≤ w
  run_pool_bounded w moves items =
      run_pool-count_running w moves (submit items) (omega (arith, count_running-submit items))
