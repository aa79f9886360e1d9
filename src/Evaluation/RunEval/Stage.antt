-- ===== src/Evaluation/RunEval/Stage.antt =====
-- One stage of `evaluate_model_generated` in berlue/evaluation/run_eval.py: the questions without a
-- value in the store are handed to a pool of threads. A worker reads the store and computes, then
-- it writes its value, then it counts towards the next flush of the registry; these are steps that
-- the threads take in any order. A list of turns stands for that order. The count and the flush are
-- one step, since `registry_lock` is held for both.
pub mod Writes
pub mod Complete
use berlue.Base.{
  ℕ, zero, suc, ◌+◌, ◌%◌, Bool, true, false, String, Option, none, some, List, [], ◌∷◌, map, Result,
  ok, err, Error, ◌>>=◌, ◌==◌, nat_eq, ltb, if◌then◌else◌,
}
use berlue.Evaluation.RunEval.{flush_every}

-- What a stage asks of the store, its worker, and the flush of the registry.
pub record Stage (S V : Type 0) : Type 0 where
  pub get : S → String → Result (Option V)
  pub put : String → V → S → S
  pub work : S → String → Result V
  pub flush : S → S

pub data Phase (V : Type 0) : Type 0 where
  queued at_work unregistered stored : Phase V
  computed : V → Phase V
  raised : Error → Phase V

pub record Job (V : Type 0) : Type 0 where
  pub question : String
  pub phase : Phase V

pub record Desk (S V : Type 0) : Type 0 where
  pub jobs : List (Job V)
  pub store : S
  pub n_flushed : ℕ

pub data Turn : Type 0 where
  take_job : Turn
  compute write register : ℕ → Turn

module _ {V : Type 0} where
  abbrev pub is_busy : Phase V → ℕ
  is_busy at_work = 1
  is_busy (computed v) = 1
  is_busy unregistered = 1
  is_busy _ = 0

  unfoldable pub count_busy : List (Job V) → ℕ
  count_busy [] = 0
  count_busy (j ∷ js) = is_busy j.phase + count_busy js

  abbrev pub take_at : Job V → Phase V → List (Job V) → List (Job V) → List (Job V)
  take_at j queued js rest = record { question = j.question; phase = at_work } ∷ js
  take_at j _ js rest = j ∷ rest

  unfoldable pub take_first : List (Job V) → List (Job V)
  take_first [] = []
  take_first (j ∷ js) = take_at j j.phase js (take_first js)

  abbrev pub phase_of : Result V → Phase V
  phase_of (ok v) = computed v
  phase_of (err e) = raised e

  abbrev pub computed_phase : Result V → Phase V → Phase V
  computed_phase r at_work = phase_of r
  computed_phase r p = p

  unfoldable pub compute_at : (String → Result V) → ℕ → List (Job V) → List (Job V)
  compute_at work n [] = []
  compute_at work zero (j ∷ js) =
      record { question = j.question; phase = computed_phase (work j.question) j.phase } ∷ js
  compute_at work (suc n) (j ∷ js) = j ∷ compute_at work n js

  abbrev pub value_in : String → Phase V → Option (String × V)
  value_in q (computed v) = some (q, v)
  value_in q _ = none

  unfoldable pub value_at : ℕ → List (Job V) → Option (String × V)
  value_at n [] = none
  value_at zero (j ∷ js) = value_in j.question j.phase
  value_at (suc n) (j ∷ js) = value_at n js

  unfoldable pub mark_at : Phase V → ℕ → List (Job V) → List (Job V)
  mark_at p n [] = []
  mark_at p zero (j ∷ js) = record { question = j.question; phase = p } ∷ js
  mark_at p (suc n) (j ∷ js) = j ∷ mark_at p n js

  -- Whether a worker has written its value and has still to call `_maybe_flush_registry`.
  abbrev pub awaits : Phase V → Bool
  awaits unregistered = true
  awaits _ = false

  unfoldable pub awaits_at : ℕ → List (Job V) → Bool
  awaits_at n [] = false
  awaits_at zero (j ∷ js) = awaits j.phase
  awaits_at (suc n) (j ∷ js) = awaits_at n js

  -- `list(executor.map(worker, todo))`: the first exception in the order of the questions, once all
  -- before it are stored; `none` while a worker that is waited for has not ended.
  abbrev pub outcome_at : Phase V → Option (Result (Unit {0})) → Option (Result (Unit {0}))
  outcome_at stored rest = rest
  outcome_at (raised e) rest = some (err e)
  outcome_at _ rest = none

  unfoldable pub outcome : List (Job V) → Option (Result (Unit {0}))
  outcome [] = some (ok tt)
  outcome (j ∷ js) = outcome_at j.phase (outcome js)

module _ {S V : Type 0} (st : Stage S V) where
  -- `_maybe_flush_registry`
  abbrev pub maybe_flush_registry : ℕ → S → S
  maybe_flush_registry n s = if n % flush_every == 0 then st.flush s else s

  abbrev pub write_job : ℕ → Desk S V → Option (String × V) → Desk S V
  write_job n d none = d
  write_job n d (some (q, v)) = record {
    jobs = mark_at unregistered n d.jobs;
    store = st.put q v d.store;
    n_flushed = d.n_flushed;
  }

  abbrev pub register_job : ℕ → Desk S V → Desk S V
  register_job n d =
      if awaits_at n d.jobs
      then record {
        jobs = mark_at stored n d.jobs;
        store = maybe_flush_registry (d.n_flushed + 1) d.store;
        n_flushed = d.n_flushed + 1;
      }
      else d

  -- A turn that is not possible changes nothing.
  unfoldable pub take_turn : ℕ → Turn → Desk S V → Desk S V
  take_turn concurrency take_job d =
      if ltb (count_busy d.jobs) concurrency then record d { jobs = take_first d.jobs } else d
  take_turn concurrency (compute n) d = record d { jobs = compute_at (st.work d.store) n d.jobs }
  take_turn concurrency (write n) d = write_job n d (value_at n d.jobs)
  take_turn concurrency (register n) d = register_job n d

  unfoldable pub take_turns : ℕ → List Turn → Desk S V → Desk S V
  take_turns concurrency [] d = d
  take_turns concurrency (t ∷ ts) d = take_turns concurrency ts (take_turn concurrency t d)

  -- `[q for q in subset if get(q) is None]`
  abbrev pub if_missing : String → Option V → List String → List String
  if_missing q none rest = q ∷ rest
  if_missing q (some v) rest = rest

  unfoldable pub missing : S → List String → Result (List String)
  missing s [] = ok []
  missing s (q ∷ qs) = do v ← st.get s q; rest ← missing s qs; ok (if_missing q v rest)

  abbrev pub new_desk : S → ℕ → List String → Desk S V
  new_desk s n todo = record {
    jobs = map (λ q. record { question = q; phase = queued }) todo;
    store = s;
    n_flushed = n;
  }
