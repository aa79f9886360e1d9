-- ===== src/Selfcheck/Loading.antt =====
-- berlue/selfcheck/scorer.py: `_get_selfcheck_nli`, which several threads call at a time. A thread
-- tests the global variable, takes the lock, tests again and loads; each of these is one step, and
-- the steps of the threads come in any order. A load that raises leaves the variable None, releases
-- the lock and ends the call by the exception, so that the next thread loads again.
use berlue.Base.{
  ℕ, zero, suc, ◌+◌, ◌≤◌, ◌<◌, ◌≡◌, refl, ◌⊎◌, inr, Bool, true, false, List, [], ◌∷◌, arith,
}

-- Where a thread is: before the first test, waiting for the lock, holding it before the second test,
-- holding it while the model loads, with the model, and with the exception of the load.
pub data Place : Type 0 where
  outside waiting holding loading served failed : Place

-- The global variable, the lock and how often `SelfCheckNLI` was called, with the threads.
pub record Loader : Type 0 where
  pub loaded : Bool
  pub locked : Bool
  pub calls : ℕ
  pub threads : List Place

-- One step of the thread at a place: the new place, with the variable, the lock and the calls. A
-- thread that waits for a lock that is taken stays where it is. The flag says whether a load that
-- ends in this step returns.
abbrev pub Shared : Type 0
Shared = Bool × Bool × ℕ

unfoldable pub step_place : Bool → Place → Shared → Place × Shared
step_place returns outside (true, lock, n) = (served, (true, lock, n))
step_place returns outside (false, lock, n) = (waiting, (false, lock, n))
step_place returns waiting (m, true, n) = (waiting, (m, true, n))
step_place returns waiting (m, false, n) = (holding, (m, true, n))
step_place returns holding (true, lock, n) = (served, (true, false, n))
step_place returns holding (false, lock, n) = (loading, (false, lock, suc n))
step_place true loading (m, lock, n) = (served, (true, false, n))
step_place false loading (m, lock, n) = (failed, (m, false, n))
step_place returns served s = (served, s)
step_place returns failed s = (failed, s)

-- A step of the schedule: the number of the thread, and whether a load that ends here returns.
abbrev pub Turn : Type 0
Turn = ℕ × Bool

-- The thread with this number takes one step; there may be none.
unfoldable pub step_thread : ℕ → Bool → List Place → Shared → List Place × Shared
step_thread n returns [] s = ([], s)
step_thread zero returns (t ∷ ts) s = let (t', s') = step_place returns t s in (t' ∷ ts, s')
step_thread (suc n) returns (t ∷ ts) s = let (ts', s') = step_thread n returns ts s in (t ∷ ts', s')

unfoldable pub run_threads : List Turn → List Place × Shared → List Place × Shared
run_threads [] x = x
run_threads ((n, returns) ∷ turns) (ts, s) = run_threads turns (step_thread n returns ts s)

-- Before any call: the variable is None, the lock is free, and no thread is in the function.
unfoldable pub new_threads : ℕ → List Place
new_threads zero = []
new_threads (suc n) = outside ∷ new_threads n

abbrev pub unloaded : Shared
unloaded = (false, false, 0)

abbrev bit : Bool → ℕ
bit true = 1
bit false = 0

abbrev holds_lock : Place → ℕ
holds_lock holding = 1
holds_lock loading = 1
holds_lock _ = 0

abbrev pub loads : Place → ℕ
loads loading = 1
loads _ = 0

abbrev pub is_served : Place → ℕ
is_served served = 1
is_served _ = 0

abbrev pub is_failed : Place → ℕ
is_failed failed = 1
is_failed _ = 0

pub total : (Place → ℕ) → List Place → ℕ
total f [] = 0
total f (t ∷ ts) = f t + total f ts

-- `held`, `busy`, `done` and `lost` threads hold the lock, load the model, have it and failed to.
record Inv (held busy done lost : ℕ) (s : Shared) : Type 0 where
  lock : held ≡ bit s.1
  once : s.2 ≡ bit s.0 + busy + lost
  one_load : bit s.0 + busy ≤ 1
  model : (s.0 ≡ true) ⊎ (done ≡ 0)

-- What a thread at a place adds to the four counts.
abbrev InvWith : ℕ → ℕ → ℕ → ℕ → Place → Shared → Type 0
InvWith a b k l t = Inv (a + holds_lock t) (b + loads t) (k + is_served t) (l + is_failed t)

step_place-Inv :
    (a b k l : ℕ) (returns : Bool) (t : Place) (s : Shared)
    → b ≤ a
    → InvWith a b k l t s
    → let (t', s') = step_place returns t s in InvWith a b k l t' s'
unfolding step_place
step_place-Inv a b k l returns outside (true, lock, n) h i = ground arith
step_place-Inv a b k l returns outside (false, lock, n) h i = ground arith
step_place-Inv a b k l returns waiting (m, true, n) h i = ground arith
step_place-Inv a b k l returns waiting (m, false, n) h i = ground arith
step_place-Inv a b k l returns holding (true, lock, n) h i = ground arith
step_place-Inv a b k l returns holding (false, lock, n) h i = ground arith
step_place-Inv a b k l true loading (m, lock, n) h i = ground arith
step_place-Inv a b k l false loading (m, lock, n) h i = ground arith
step_place-Inv a b k l returns served s h i = i
step_place-Inv a b k l returns failed s h i = i

total-le : (ts : List Place) → total loads ts ≤ total holds_lock ts
unfolding total
total-le [] = omega arith
total-le (t ∷ ts) = ground (arith, total-le ts)

Inv-same :
    {a b k l a' b' k' l' : ℕ} {s : Shared}
    → Inv a b k l s
    → a ≡ a'
    → b ≡ b'
    → k ≡ k'
    → l ≡ l'
    → Inv a' b' k' l' s
Inv-same {s = s} i p q r o = ground arith

-- The counts of all threads, beside those of others.
abbrev InvAll : ℕ → ℕ → ℕ → ℕ → List Place → Shared → Type 0
InvAll a b k l ts =
    Inv (a + total holds_lock ts) (b + total loads ts) (k + total is_served ts)
      (l + total is_failed ts)

step_thread-Inv :
    (n : ℕ) (returns : Bool) (a b k l : ℕ) (ts : List Place) (s : Shared)
    → b ≤ a
    → InvAll a b k l ts s
    → let (ts', s') = step_thread n returns ts s in InvAll a b k l ts' s'
unfolding step_thread total
step_thread-Inv n returns a b k l [] s h i = i
step_thread-Inv zero returns a b k l (t ∷ ts) s h i =
    let others =
      step_place-Inv (a + total holds_lock ts) (b + total loads ts) (k + total is_served ts)
        (l + total is_failed ts) returns t s (omega (arith, total-le ts))
        (Inv-same i (omega arith) (omega arith) (omega arith) (omega arith)) in
    Inv-same others (omega arith) (omega arith) (omega arith) (omega arith)
step_thread-Inv (suc n) returns a b k l (t ∷ ts) s h i =
    let rest =
      step_thread-Inv n returns (a + holds_lock t) (b + loads t) (k + is_served t) (l + is_failed t)
        ts s (omega (arith, total-le (t ∷ [])))
        (Inv-same i (omega arith) (omega arith) (omega arith) (omega arith)) in
    Inv-same rest (omega arith) (omega arith) (omega arith) (omega arith)

run_threads-Inv :
    (turns : List Turn) (ts : List Place) (s : Shared)
    → InvAll 0 0 0 0 ts s
    → let (ts', s') = run_threads turns (ts, s) in InvAll 0 0 0 0 ts' s'
unfolding run_threads
run_threads-Inv [] ts s i = i
run_threads-Inv ((n, returns) ∷ turns) ts s i =
    let (ts', s') = step_thread n returns ts s in
    run_threads-Inv turns ts' s' (step_thread-Inv n returns 0 0 0 0 ts s (omega arith) i)

new_threads-Inv :
    (n : ℕ)
    → (total holds_lock (new_threads n) ≡ 0)
      × (total loads (new_threads n) ≡ 0)
      × (total is_served (new_threads n) ≡ 0)
      × (total is_failed (new_threads n) ≡ 0)
unfolding new_threads total
new_threads-Inv zero = (refl, refl, refl, refl)
new_threads-Inv (suc n) = omega (arith, new_threads-Inv n)

-- However the calls of any number of threads interleave and whichever loads raise, no two loads run
-- at a time; apart from the calls that raised, each ending its own thread's call, `SelfCheckNLI` is
-- called once at most; and when a thread has been served, the model is there and was loaded by one
-- call exactly, none being under way.
pub run_threads_once :
    (n : ℕ) (turns : List Turn)
    → let (threads, (model, lock, calls)) = run_threads turns (new_threads n, unloaded) in
      (total loads threads ≤ 1)
      × (calls ≤ total is_failed threads + 1)
      × (0 < total is_served threads
          → (model ≡ true) × (calls ≡ total is_failed threads + 1) × (total loads threads ≡ 0))
run_threads_once n turns =
    let start = new_threads-Inv n in
    let i = run_threads-Inv turns (new_threads n) unloaded (record {
      lock = omega (arith, start);
      once = omega (arith, start);
      one_load = omega (arith, start);
      model = inr (omega (arith, start));
    }) in
    (
      omega (arith, i.one_load),
      omega (arith, i.once, i.one_load),
      λ some_served. ground (arith, i.model, i.once, i.one_load),
    )
