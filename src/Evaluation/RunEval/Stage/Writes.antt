-- ===== src/Evaluation/RunEval/Stage/Writes.antt =====
-- berlue/evaluation/run_eval.py: what the turns of a stage leave in the store.
use berlue.Base.{
  true, ℕ, zero, suc, ◌+◌, ◌%◌, ◌≡◌, refl, sym, ◌∙◌, ◌⊎◌, inl, inr, String, Option, none, some,
  List, [], ◌∷◌, map, Result, ok, err, All, All-imp, ◌==◌, ==_iff, ==_refl, nat_eq, string_eq, ltb,
  if◌then◌else◌, Bool-cases, arith,
}
use mathlib.Core.Path.{subst}
use berlue.Evaluation.RunEval.{flush_every}
use berlue.Evaluation.RunEval.Stage.{
  Stage, Phase, queued, at_work, unregistered, stored, computed, raised, Job, Desk, Turn, take_job,
  compute, write, register, count_busy, take_at, take_first, phase_of, computed_phase, compute_at,
  value_in, value_at, mark_at, awaits, awaits_at, maybe_flush_registry, write_job, register_job,
  take_turn, take_turns,
}

-- A value that stands is kept by a write.
abbrev pub or_first : {V : Type 0} → V → Result (Option V) → Result (Option V)
or_first v (ok none) = ok (some v)
or_first v r = r

-- What the stage relies on: a value that is put is read back unless one stood there, no other value
-- moves, and neither the writes nor the flush change what a worker computes or, for the flush, what
-- is read.
pub record IsLawfulStage {S V : Type 0} (st : Stage S V) : Type 0 where
  pub get-put :
      (q q' : String) (v : V) (s : S)
      → st.get (st.put q v s) q' ≡ (if q == q' then or_first v (st.get s q') else st.get s q')
  pub get-flush : (q : String) (s : S) → st.get (st.flush s) q ≡ st.get s q
  pub work-put : (q q' : String) (v : V) (s : S) → st.work (st.put q v s) q' ≡ st.work s q'
  pub work-flush : (q : String) (s : S) → st.work (st.flush s) q ≡ st.work s q

module _ {S V : Type 0} (st : Stage S V) (lawful : IsLawfulStage st) (s0 : S) where
  -- What is true of a job while the store is `s`.
  abbrev pub JobOk : S → String → Phase V → Type 0
  JobOk s q (computed v) = st.work s0 q ≡ ok v
  JobOk s q unregistered = (v : V) × (st.work s0 q ≡ ok v) × (st.get s q ≡ ok (some v))
  JobOk s q stored = (v : V) × (st.work s0 q ≡ ok v) × (st.get s q ≡ ok (some v))
  JobOk s q (raised e) = st.work s0 q ≡ err e
  JobOk s q _ = Unit

  -- What a question reads in the store: what it read before the stage, or the value of its worker.
  abbrev pub Reads : S → String → Type 0
  Reads s q =
      (st.get s q ≡ st.get s0 q)
      ⊎ ((v : V) × (st.get s0 q ≡ ok none) × (st.work s0 q ≡ ok v) × (st.get s q ≡ ok (some v)))

  abbrev pub Fits : S → Job V → Type 0
  Fits s j = (st.get s0 j.question ≡ ok none) × JobOk s j.question j.phase

  pub record Inv (todo : List String) (d : Desk S V) : Type 0 where
    pub ids : map (λ j. j.question) d.jobs ≡ todo
    pub jobs : All (Fits d.store) d.jobs
    pub reads : (q : String) → Reads d.store q
    pub work : (q : String) → st.work d.store q ≡ st.work s0 q

  abbrev pub questions : List (Job V) → List String
  questions = map (λ j. j.question)

  take_first-ids : (js : List (Job V)) → questions (take_first js) ≡ questions js
  unfolding take_first
  take_first-ids [] = refl
  take_first-ids (j ∷ js) = ground (arith, take_first-ids js)

  compute_at-ids :
      (f : String → Result V) (n : ℕ) (js : List (Job V))
      → questions (compute_at f n js) ≡ questions js
  unfolding compute_at
  compute_at-ids f n [] = refl
  compute_at-ids f zero (j ∷ js) = refl
  compute_at-ids f (suc n) (j ∷ js) = ground (arith, compute_at-ids f n js)

  mark_at-ids :
      (p : Phase V) (n : ℕ) (js : List (Job V)) → questions (mark_at p n js) ≡ questions js
  unfolding mark_at
  mark_at-ids p n [] = refl
  mark_at-ids p zero (j ∷ js) = refl
  mark_at-ids p (suc n) (j ∷ js) = ground (arith, mark_at-ids p n js)

  take_at-Fits :
      (s : S) (j : Job V) (p : Phase V) (js rest : List (Job V))
      → Fits s j
      → All (Fits s) js
      → All (Fits s) rest
      → All (Fits s) (take_at j p js rest)
  take_at-Fits s j queued js rest h hs hr = ((h.0, tt), hs)
  take_at-Fits s j at_work js rest h hs hr = (h, hr)
  take_at-Fits s j unregistered js rest h hs hr = (h, hr)
  take_at-Fits s j stored js rest h hs hr = (h, hr)
  take_at-Fits s j (computed v) js rest h hs hr = (h, hr)
  take_at-Fits s j (raised e) js rest h hs hr = (h, hr)

  take_first-Fits : (s : S) (js : List (Job V)) → All (Fits s) js → All (Fits s) (take_first js)
  unfolding take_first
  take_first-Fits s [] h = tt
  take_first-Fits s (j ∷ js) h =
      take_at-Fits s j j.phase js (take_first js) h.0 h.1 (take_first-Fits s js h.1)

  phase_of-JobOk : (s : S) (q : String) (r : Result V) → st.work s0 q ≡ r → JobOk s q (phase_of r)
  phase_of-JobOk s q (ok v) e = e
  phase_of-JobOk s q (err x) e = e

  computed_phase-JobOk :
      (s : S) (q : String) (p : Phase V)
      → st.work s q ≡ st.work s0 q
      → JobOk s q p
      → JobOk s q (computed_phase (st.work s q) p)
  computed_phase-JobOk s q queued e h = h
  computed_phase-JobOk s q at_work e h = phase_of-JobOk s q (st.work s q) (sym e)
  computed_phase-JobOk s q unregistered e h = h
  computed_phase-JobOk s q stored e h = h
  computed_phase-JobOk s q (computed v) e h = h
  computed_phase-JobOk s q (raised x) e h = h

  compute_at-Fits :
      (s : S) (n : ℕ) (js : List (Job V))
      → ((q : String) → st.work s q ≡ st.work s0 q)
      → All (Fits s) js
      → All (Fits s) (compute_at (st.work s) n js)
  unfolding compute_at
  compute_at-Fits s n [] same h = tt
  compute_at-Fits s zero (j ∷ js) same h =
      ((h.0.0, computed_phase-JobOk s j.question j.phase (same j.question) h.0.1), h.1)
  compute_at-Fits s (suc n) (j ∷ js) same h = (h.0, compute_at-Fits s n js same h.1)

  -- The store after the write of `v` for `q`.
  module _ (q : String) (v : V) (s : S) where
    written : S
    written = st.put q v s

    get-written :
        (q' : String)
        → st.get written q' ≡ (if q == q' then or_first v (st.get s q') else st.get s q')
    unfolding written
    get-written q' = lawful.get-put q q' v s

    work-written : (q' : String) → st.work written q' ≡ st.work s q'
    unfolding written
    work-written q' = lawful.work-put q q' v s

    get-written_kept :
        (q' : String) (u : V) → st.get s q' ≡ ok (some u) → st.get written q' ≡ ok (some u)
    get-written_kept q' u e = elim (Bool-cases (q == q')) [
      | inl same ↦ get-written q' ∙ rw (same, e)
      | inr other ↦ get-written q' ∙ rw (other, e)
    ]

    -- The value that is read for `q`: its own, since none stood there before the stage.
    get-written_self :
        st.get s0 q ≡ ok none → st.work s0 q ≡ ok v → Reads s q → st.get written q ≡ ok (some v)
    get-written_self absent value (inl e) = get-written q ∙ rw (==_refl q, e, absent)
    get-written_self absent value (inr (u, _, value', e)) =
        get-written_kept q u e ∙ cc (value, value')

    Fits-written : (j : Job V) → Fits s j → Fits written j
    Fits-written j h = (h.0, JobOk-written j.question j.phase h.1)
      where
        JobOk-written : (q' : String) (p : Phase V) → JobOk s q' p → JobOk written q' p
        JobOk-written q' unregistered (u, e, k) = (u, e, get-written_kept q' u k)
        JobOk-written q' stored (u, e, k) = (u, e, get-written_kept q' u k)
        JobOk-written q' queued k = k
        JobOk-written q' at_work k = k
        JobOk-written q' (computed u) k = k
        JobOk-written q' (raised u) k = k

    Reads-written :
        st.get s0 q ≡ ok none
        → st.work s0 q ≡ ok v
        → Reads s q
        → (q' : String) → Reads s q'
        → Reads written q'
    Reads-written absent value own q' known = elim (Bool-cases (q == q')) [
      | inl same ↦
          subst (Reads written) ((==_iff q q').0 same)
            (inr (v, absent, value, get-written_self absent value own))
      | inr other ↦ Reads-moved (get-written q' ∙ rw other) known
    ]
      where
        Reads-moved : st.get written q' ≡ st.get s q' → Reads s q' → Reads written q'
        Reads-moved e (inl k) = inl (e ∙ k)
        Reads-moved e (inr (u, a, b, k)) = inr (u, a, b, e ∙ k)

    value_in-Fits :
        (j : Job V) (p : Phase V)
        → (st.get s0 j.question ≡ ok none) × JobOk s j.question p
        → value_in j.question p ≡ some (q, v)
        → (j.question ≡ q) × (st.get s0 q ≡ ok none) × (st.work s0 q ≡ ok v)
    value_in-Fits j (computed u) h e =
        let same : j.question ≡ q = cc e in
        let value : u ≡ v = cc e in (same, cc (same, h.0), cc (same, value, h.1))
    value_in-Fits j queued h e = cc
    value_in-Fits j at_work h e = cc
    value_in-Fits j unregistered h e = cc
    value_in-Fits j stored h e = cc
    value_in-Fits j (raised x) h e = cc

    value_at-Fits :
        (m : ℕ) (js : List (Job V))
        → All (Fits s) js
        → value_at m js ≡ some (q, v)
        → (st.get s0 q ≡ ok none) × (st.work s0 q ≡ ok v)
    unfolding value_at
    value_at-Fits m [] h e = cc
    value_at-Fits zero (j ∷ js) h e =
        let (same, absent, value) = value_in-Fits j j.phase h.0 e in (absent, value)
    value_at-Fits (suc m) (j ∷ js) h e = value_at-Fits m js h.1 e

    mark_at-Fits :
        (m : ℕ) (js : List (Job V))
        → Reads s q
        → All (Fits s) js
        → value_at m js ≡ some (q, v)
        → All (Fits written) (mark_at unregistered m js)
    unfolding value_at mark_at
    mark_at-Fits m [] own h e = tt
    mark_at-Fits zero (j ∷ js) own h e =
        let (same, absent, value) = value_in-Fits j j.phase h.0 e in
        (
          (
            h.0.0,
            subst (λ k. JobOk written k unregistered) (sym same)
                (v, value, get-written_self absent value own),
          ),
          All-imp Fits-written js h.1,
        )
    mark_at-Fits (suc m) (j ∷ js) own h e = (Fits-written j h.0, mark_at-Fits m js own h.1 e)

  write_job-Inv :
      (todo : List String) (n : ℕ) (d : Desk S V) (o : Option (String × V))
      → value_at n d.jobs ≡ o
      → Inv todo d
      → Inv todo (write_job st n d o)
  unfolding written
  write_job-Inv todo n d none e i = i
  write_job-Inv todo n d (some (q, v)) e i =
      let (absent, value) = value_at-Fits q v d.store n d.jobs i.jobs e in
      record {
        ids = mark_at-ids unregistered n d.jobs ∙ i.ids;
        jobs = mark_at-Fits q v d.store n d.jobs (i.reads q) i.jobs e;
        reads = λ q'. Reads-written q v d.store absent value (i.reads q) q' (i.reads q');
        work = λ q'. work-written q v d.store q' ∙ i.work q';
      }

  -- The store after a count, with the flush that may follow.
  module _ (n : ℕ) (s : S) where
    counted : S
    counted = maybe_flush_registry st n s

    get-counted : (q : String) → st.get counted q ≡ st.get s q
    unfolding counted
    get-counted q = elim (Bool-cases (n % flush_every == 0)) [
      | inl flushed ↦ rw flushed (lawful.get-flush q s)
      | inr later ↦ rw later
    ]

    work-counted : (q : String) → st.work counted q ≡ st.work s q
    unfolding counted
    work-counted q = elim (Bool-cases (n % flush_every == 0)) [
      | inl flushed ↦ rw flushed (lawful.work-flush q s)
      | inr later ↦ rw later
    ]

    Fits-counted : (j : Job V) → Fits s j → Fits counted j
    Fits-counted j h = (h.0, JobOk-counted j.question j.phase h.1)
      where
        JobOk-counted : (q : String) (p : Phase V) → JobOk s q p → JobOk counted q p
        JobOk-counted q unregistered (u, e, k) = (u, e, get-counted q ∙ k)
        JobOk-counted q stored (u, e, k) = (u, e, get-counted q ∙ k)
        JobOk-counted q queued k = k
        JobOk-counted q at_work k = k
        JobOk-counted q (computed u) k = k
        JobOk-counted q (raised u) k = k

    Reads-counted : (q : String) → Reads s q → Reads counted q
    Reads-counted q (inl e) = inl (get-counted q ∙ e)
    Reads-counted q (inr (u, a, b, e)) = inr (u, a, b, get-counted q ∙ e)

  awaits-JobOk :
      (s : S) (q : String) (p : Phase V) → awaits p ≡ true → JobOk s q p → JobOk s q stored
  awaits-JobOk s q unregistered e h = h
  awaits-JobOk s q queued e h = cc e
  awaits-JobOk s q at_work e h = cc e
  awaits-JobOk s q stored e h = cc e
  awaits-JobOk s q (computed v) e h = cc e
  awaits-JobOk s q (raised x) e h = cc e

  mark_stored-Fits :
      (s : S) (n : ℕ) (js : List (Job V))
      → awaits_at n js ≡ true
      → All (Fits s) js
      → All (Fits s) (mark_at stored n js)
  unfolding awaits_at mark_at
  mark_stored-Fits s n [] e h = tt
  mark_stored-Fits s zero (j ∷ js) e h = ((h.0.0, awaits-JobOk s j.question j.phase e h.0.1), h.1)
  mark_stored-Fits s (suc n) (j ∷ js) e h = (h.0, mark_stored-Fits s n js e h.1)

  register_job-Inv :
      (todo : List String) (n : ℕ) (d : Desk S V) → Inv todo d → Inv todo (register_job st n d)
  unfolding counted
  register_job-Inv todo n d i = elim (Bool-cases (awaits_at n d.jobs)) [
    | inl waits ↦
        let m = d.n_flushed + 1 in
        rw waits (record {
          ids = mark_at-ids stored n d.jobs ∙ i.ids;
          jobs =
              All-imp (Fits-counted m d.store) (mark_at stored n d.jobs)
                (mark_stored-Fits d.store n d.jobs waits i.jobs);
          reads = λ q. Reads-counted m d.store q (i.reads q);
          work = λ q. work-counted m d.store q ∙ i.work q;
        })
    | inr idle ↦ rw idle i
  ]

  take_turn-Inv :
      (todo : List String) (c : ℕ) (t : Turn) (d : Desk S V)
      → Inv todo d
      → Inv todo (take_turn st c t d)
  unfolding take_turn
  take_turn-Inv todo c take_job d i = elim (Bool-cases (ltb (count_busy d.jobs) c)) [
    | inl free ↦ rw free (record {
      ids = take_first-ids d.jobs ∙ i.ids;
      jobs = take_first-Fits d.store d.jobs i.jobs;
      reads = i.reads;
      work = i.work;
    })
    | inr full ↦ rw full i
  ]
  take_turn-Inv todo c (compute n) d i = record {
    ids = compute_at-ids (st.work d.store) n d.jobs ∙ i.ids;
    jobs = compute_at-Fits d.store n d.jobs i.work i.jobs;
    reads = i.reads;
    work = i.work;
  }
  take_turn-Inv todo c (write n) d i = write_job-Inv todo n d (value_at n d.jobs) refl i
  take_turn-Inv todo c (register n) d i = register_job-Inv todo n d i

  pub take_turns-Inv :
      (todo : List String) (c : ℕ) (ts : List Turn) (d : Desk S V)
      → Inv todo d
      → Inv todo (take_turns st c ts d)
  unfolding take_turns
  take_turns-Inv todo c [] d i = i
  take_turns-Inv todo c (t ∷ ts) d i =
      take_turns-Inv todo c ts (take_turn st c t d) (take_turn-Inv todo c t d i)
