-- ===== src/Evaluation/RunEval/GeneratedMatrix.antt =====
-- The two matrices of mode 2 of berlue/evaluation/run_eval.py: the verdicts of Berlue, or of the
-- baseline, against the judge's. Both loops are one function of what they read.
use berlue.Base.{
  ℕ, ◌+◌, ◌≤◌, ◌≡◌, refl, sym, ap, ◌∙◌, Bool, true, false, String, Option, none, some, List, [],
  ◌∷◌, ◌++◌, Result, ok, err, ◌>>=◌, >>=-eq-ok, Ensures, Ensures-bind, value_error, length, ltb,
  if◌then◌else◌, arith,
}
use mathlib.Core.List.{append_assoc, append-nil}
use berlue.Core.Schemas.{Verdict, supported}
use berlue.Evaluation.Metrics.{ConfusionMatrix, build_confusion_matrix}
use berlue.Evaluation.RunEval.{Gathered}

-- `judge_verdict == Verdict.SUPPORTED`
abbrev pub is_supported : Verdict → Bool
is_supported supported = true
is_supported _ = false

abbrev pub gather_pair : Option Verdict → Option Verdict → Gathered → Gathered
gather_pair (some j) (some v) g = record g {
  ground_truths = g.ground_truths ++ (is_supported j ∷ []);
  predictions = g.predictions ++ (v ∷ []);
}
gather_pair _ _ g = record g { missing = g.missing + 1 }

abbrev pub matrix_of : Gathered → Result ConfusionMatrix
matrix_of g =
    if ltb 0 g.missing
    then err (value_error "Cache incomplet")
    else build_confusion_matrix g.ground_truths g.predictions

module _ {S : Type 0} (judged predicted : S → String → Result (Option Verdict)) where
  unfoldable pub gather_pairs : S → List String → Gathered → Result Gathered
  gather_pairs s [] g = ok g
  gather_pairs s (q ∷ qs) g = do
    j ← judged s q
    v ← predicted s q
    gather_pairs s qs (gather_pair j v g)

  unfoldable pub matrix_against_judge : S → List String → Result ConfusionMatrix
  matrix_against_judge s valid_questions = do
    g ←
        gather_pairs s valid_questions
          (record { missing = 0; ground_truths = []; predictions = [] })
    matrix_of g

-- `get_judge` and the other reads are those of the store at the scope of the run, `put` is the put of
-- the matrix, and `dataset_test_size` is computed from the dataset.
module _ {S : Type 0} (get_judge : S → String → Result (Option Verdict)) where
  unfoldable pub evaluate_model_generated_matrix :
      (S → String → Result (Option Verdict))
      → (ConfusionMatrix → ℕ → Option ℕ → S → S)
      → Option ℕ
      → List String
      → S
      → Result (ConfusionMatrix × S)
  evaluate_model_generated_matrix get_berlue put dataset_test_size valid_questions s = do
    matrix ← matrix_against_judge get_judge get_berlue s valid_questions
    ok (matrix, put matrix (length valid_questions) dataset_test_size s)

  unfoldable pub evaluate_baseline_generated_matrix :
      (S → String → Result (Option Verdict))
      → (ConfusionMatrix → ℕ → Option ℕ → S → S)
      → Option ℕ
      → List String
      → S
      → Result (ConfusionMatrix × S)
  evaluate_baseline_generated_matrix get_baseline put dataset_test_size valid_questions s = do
    matrix ← matrix_against_judge get_judge get_baseline s valid_questions
    ok (matrix, put matrix (length valid_questions) dataset_test_size s)

module _ {S : Type 0} (judged predicted : S → String → Result (Option Verdict)) (s : S) where
  -- What is read for the questions, in their order: whether the judge supports the answer, and the
  -- verdict.
  abbrev pub AreRead : List String → List Bool → List Verdict → Type 0
  AreRead [] [] [] = Unit
  AreRead (q ∷ qs) (b ∷ bs) (v ∷ vs) =
      ((j : Verdict) × (judged s q ≡ ok (some j)) × (is_supported j ≡ b))
      × (predicted s q ≡ ok (some v))
      × AreRead qs bs vs
  AreRead _ _ _ = ⊥

  -- The accumulators grow by what is read, unless a verdict is missing.
  record Grows (qs : List String) (g g' : Gathered) : Type 0 where
    bs : List Bool
    vs : List Verdict
    read : AreRead qs bs vs
    truths : g'.ground_truths ≡ g.ground_truths ++ bs
    verdicts : g'.predictions ≡ g.predictions ++ vs

  gather_pair-missing :
      (j v : Option Verdict) (g : Gathered) → g.missing ≤ (gather_pair j v g).missing
  gather_pair-missing (some j) (some v) g = omega arith
  gather_pair-missing (some j) none g = omega arith
  gather_pair-missing none (some v) g = omega arith
  gather_pair-missing none none g = omega arith

  gather_pairs-missing :
      (qs : List String) (g g' : Gathered)
      → gather_pairs judged predicted s qs g ≡ ok g'
      → g.missing ≤ g'.missing
  unfolding gather_pairs
  gather_pairs-missing [] g g' e =
      let same : g ≡ g' = cc e in omega (arith, ap (λ (x : Gathered). x.missing) same)
  gather_pairs-missing (q ∷ qs) g g' e =
      let (j, ej, next) = >>=-eq-ok (judged s q) _ e in
      let (v, ev, last) = >>=-eq-ok (predicted s q) _ next in
      omega (arith, gather_pair-missing j v g, gather_pairs-missing qs (gather_pair j v g) g' last)

  gather_pair-Grows :
      (q : String) (qs : List String) (g g' : Gathered) (j v : Option Verdict)
      → judged s q ≡ ok j
      → predicted s q ≡ ok v
      → (gather_pair j v g).missing ≤ g'.missing
      → g'.missing ≡ g.missing
      → (g'.missing ≡ (gather_pair j v g).missing → Grows qs (gather_pair j v g) g')
      → Grows (q ∷ qs) g g'
  gather_pair-Grows q qs g g' (some j) (some v) ej ev le k next =
      let r = next k in
      record {
        bs = is_supported j ∷ r.bs;
        vs = v ∷ r.vs;
        read = ((j, ej, refl), ev, r.read);
        truths = r.truths ∙ append_assoc g.ground_truths (is_supported j ∷ []) r.bs;
        verdicts = r.verdicts ∙ append_assoc g.predictions (v ∷ []) r.vs;
      }
  gather_pair-Grows q qs g g' (some j) none ej ev le k next = absurd (omega arith)
  gather_pair-Grows q qs g g' none (some v) ej ev le k next = absurd (omega arith)
  gather_pair-Grows q qs g g' none none ej ev le k next = absurd (omega arith)

  gather_pairs-Grows :
      (qs : List String) (g g' : Gathered)
      → gather_pairs judged predicted s qs g ≡ ok g'
      → g'.missing ≡ g.missing
      → Grows qs g g'
  unfolding gather_pairs
  gather_pairs-Grows [] g g' e k =
      let same : g ≡ g' = cc e in
      record {
        bs = [];
        vs = [];
        read = tt;
        truths =
            ap (λ (x : Gathered). x.ground_truths) (sym same) ∙ sym (append-nil g.ground_truths);
        verdicts = ap (λ (x : Gathered). x.predictions) (sym same) ∙ sym (append-nil g.predictions);
      }
  gather_pairs-Grows (q ∷ qs) g g' e k =
      let (j, ej, next) = >>=-eq-ok (judged s q) _ e in
      let (v, ev, last) = >>=-eq-ok (predicted s q) _ next in
      gather_pair-Grows q qs g g' j v ej ev (gather_pairs-missing qs (gather_pair j v g) g' last) k
        (gather_pairs-Grows qs (gather_pair j v g) g' last)

  none_missing : (g : Gathered) {m : ConfusionMatrix} → matrix_of g ≡ ok m → g.missing ≡ 0
  none_missing g h = ground arith

  matrix_of_complete :
      (g : Gathered) (m : ConfusionMatrix)
      → g.missing ≡ 0
      → matrix_of g ≡ ok m
      → build_confusion_matrix g.ground_truths g.predictions ≡ ok m
  matrix_of_complete g m k h = ground arith

  -- The matrix is that of verdicts which were all stored.
  abbrev pub IsBuilt : List String → ConfusionMatrix → Type 0
  IsBuilt qs m =
      (bs : List Bool) × (vs : List Verdict) × AreRead qs bs vs
      × (build_confusion_matrix bs vs ≡ ok m)

  matrix_against_judge-IsBuilt :
      (qs : List String) (m : ConfusionMatrix)
      → matrix_against_judge judged predicted s qs ≡ ok m
      → IsBuilt qs m
  unfolding matrix_against_judge
  matrix_against_judge-IsBuilt qs m e =
      let start : Gathered = record { missing = 0; ground_truths = []; predictions = [] } in
      let (g, read, built) = >>=-eq-ok (gather_pairs judged predicted s qs start) _ e in
      let r = gather_pairs-Grows qs start g read (none_missing g built) in
      (
        r.bs,
        r.vs,
        r.read,
        rw (r.truths, r.verdicts) at (matrix_of_complete g m (none_missing g built) built),
      )

module _ {S : Type 0} (get_judge get_berlue get_baseline : S → String → Result (Option Verdict))
    (put : ConfusionMatrix → ℕ → Option ℕ → S → S) (size : Option ℕ) (qs : List String)
    (s : S) where
  -- Either matrix of mode 2 that is built leaves no question out: for each of them both verdicts were
  -- stored, the matrix is that of the verdicts with the judge's as the truth, in the order of the
  -- questions, and it is put with their number.
  pub generated_matrices-IsBuilt :
      Ensures
        (λ r. IsBuilt get_judge get_berlue s qs r.0 × (r.1 ≡ put r.0 (length qs) size s))
        (evaluate_model_generated_matrix get_judge get_berlue put size qs s)
      × Ensures
          (λ r. IsBuilt get_judge get_baseline s qs r.0 × (r.1 ≡ put r.0 (length qs) size s))
          (evaluate_baseline_generated_matrix get_judge get_baseline put size qs s)
  unfolding evaluate_model_generated_matrix evaluate_baseline_generated_matrix
  generated_matrices-IsBuilt = (
    Ensures-bind _ (matrix_against_judge get_judge get_berlue s qs) _
        (λ m e. (matrix_against_judge-IsBuilt get_judge get_berlue s qs m e, refl)),
    Ensures-bind _ (matrix_against_judge get_judge get_baseline s qs) _
        (λ m e. (matrix_against_judge-IsBuilt get_judge get_baseline s qs m e, refl)),
  )
