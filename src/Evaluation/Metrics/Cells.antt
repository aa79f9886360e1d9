-- ===== src/Evaluation/Metrics/Cells.antt =====
-- `build_confusion_matrix` of berlue/evaluation/metrics.py, cell by cell.
use berlue.Base.{
  ℕ, ◌+◌, ◌≡◌, refl, Bool, true, false, List, [], ◌∷◌, length, arith, ok, nat_eq, if◌then◌else◌,
  ==_iff, ==_refl,
}
use berlue.Core.Schemas.{Verdict, supported, contradicted, not_enough_info, panne}
use berlue.Evaluation.Metrics.{
  ConfusionRow, ConfusionMatrix, Counts, count, count_all, empty_matrix, build_confusion_matrix,
}

-- How many positions hold the label `b` and the verdict `v`.
abbrev same_label : Bool → Bool → Bool
same_label true b = b
same_label false true = false
same_label false false = true

abbrev same_verdict : Verdict → Verdict → Bool
same_verdict supported supported = true
same_verdict contradicted contradicted = true
same_verdict not_enough_info not_enough_info = true
same_verdict panne panne = true
same_verdict _ _ = false

abbrev pub pairs : Bool → Verdict → List Bool → List Verdict → ℕ
pairs b v (gt ∷ gts) (pred ∷ preds) =
    (if same_label b gt then if same_verdict v pred then 1 else 0 else 0) + pairs b v gts preds
pairs b v _ _ = 0

-- The cells of `after` are those of `before` and the pairs of the two lists.
pub record Adds (before after : Counts) (gts : List Bool) (preds : List Verdict) : Type 0 where
  pub true_true :
      after.matrix.ground_truth_true.predicted_true
      ≡ before.matrix.ground_truth_true.predicted_true + pairs true supported gts preds
  pub true_undecided :
      after.matrix.ground_truth_true.predicted_undecided
      ≡ before.matrix.ground_truth_true.predicted_undecided + pairs true not_enough_info gts preds
  pub true_false :
      after.matrix.ground_truth_true.predicted_false
      ≡ before.matrix.ground_truth_true.predicted_false + pairs true contradicted gts preds
  pub false_true :
      after.matrix.ground_truth_false.predicted_true
      ≡ before.matrix.ground_truth_false.predicted_true + pairs false supported gts preds
  pub false_undecided :
      after.matrix.ground_truth_false.predicted_undecided
      ≡ before.matrix.ground_truth_false.predicted_undecided + pairs false not_enough_info gts preds
  pub false_false :
      after.matrix.ground_truth_false.predicted_false
      ≡ before.matrix.ground_truth_false.predicted_false + pairs false contradicted gts preds
  pub pannes :
      after.n_pannes ≡ before.n_pannes + pairs true panne gts preds + pairs false panne gts preds

count-Adds :
    (gt : Bool) (pred : Verdict) (gts : List Bool) (preds : List Verdict) (c after : Counts)
    → Adds (count gt pred c) after gts preds
    → Adds c after (gt ∷ gts) (pred ∷ preds)
count-Adds true supported gts preds c after a = ground arith
count-Adds true contradicted gts preds c after a = ground arith
count-Adds true not_enough_info gts preds c after a = ground arith
count-Adds true panne gts preds c after a = ground arith
count-Adds false supported gts preds c after a = ground arith
count-Adds false contradicted gts preds c after a = ground arith
count-Adds false not_enough_info gts preds c after a = ground arith
count-Adds false panne gts preds c after a = ground arith

count_all-Adds :
    (gts : List Bool) (preds : List Verdict) (c : Counts) → Adds c (count_all gts preds c) gts preds
unfolding count_all
count_all-Adds (gt ∷ gts) (pred ∷ preds) c =
    count-Adds gt pred gts preds c _ (count_all-Adds gts preds (count gt pred c))
count_all-Adds [] preds c = ground arith
count_all-Adds (gt ∷ gts) [] c = ground arith

abbrev pub row_sum : ConfusionRow → ℕ
row_sum r = r.predicted_true + r.predicted_undecided + r.predicted_false

-- The six cells, each as the number of pairs of the label and the verdict that it stands for.
pub record Counted (m : ConfusionMatrix) (gts : List Bool) (preds : List Verdict) : Type 0 where
  pub true_true : m.ground_truth_true.predicted_true ≡ pairs true supported gts preds
  pub true_undecided :
      m.ground_truth_true.predicted_undecided ≡ pairs true not_enough_info gts preds
  pub true_false : m.ground_truth_true.predicted_false ≡ pairs true contradicted gts preds
  pub false_true : m.ground_truth_false.predicted_true ≡ pairs false supported gts preds
  pub false_undecided :
      m.ground_truth_false.predicted_undecided ≡ pairs false not_enough_info gts preds
  pub false_false : m.ground_truth_false.predicted_false ≡ pairs false contradicted gts preds

-- For two lists of one length a matrix is built, and each cell counts the pairs of its label and
-- its verdict.
pub build_confusion_matrix-Counted :
    (gts : List Bool) (preds : List Verdict)
    → length gts ≡ length preds
    → (m : ConfusionMatrix) × (build_confusion_matrix gts preds ≡ ok m) × Counted m gts preds
unfolding build_confusion_matrix
build_confusion_matrix-Counted gts preds h =
    let start : Counts = record { matrix = empty_matrix; n_pannes = 0 } in
    let a = count_all-Adds gts preds start in
    (
      (count_all gts preds start).matrix,
      rw (h, ==_refl (length preds)) refl,
      record {
        true_true = omega (arith, a.true_true);
        true_undecided = omega (arith, a.true_undecided);
        true_false = omega (arith, a.true_false);
        false_true = omega (arith, a.false_true);
        false_undecided = omega (arith, a.false_undecided);
        false_false = omega (arith, a.false_false);
      },
    )

pairs_total :
    (gts : List Bool) (preds : List Verdict)
    → length gts ≡ length preds
    → pairs true supported gts preds
        + pairs true not_enough_info gts preds
        + pairs true contradicted gts preds
        + pairs true panne gts preds
        + pairs false supported gts preds
        + pairs false not_enough_info gts preds
        + pairs false contradicted gts preds
        + pairs false panne gts preds
      ≡ length preds
pairs_total [] [] h = omega arith
pairs_total [] (p ∷ ps) h = absurd (omega arith)
pairs_total (b ∷ gts) [] h = absurd (omega arith)
pairs_total (true ∷ gts) (supported ∷ ps) h = omega (arith, pairs_total gts ps (omega arith))
pairs_total (true ∷ gts) (contradicted ∷ ps) h = omega (arith, pairs_total gts ps (omega arith))
pairs_total (true ∷ gts) (not_enough_info ∷ ps) h = omega (arith, pairs_total gts ps (omega arith))
pairs_total (true ∷ gts) (panne ∷ ps) h = omega (arith, pairs_total gts ps (omega arith))
pairs_total (false ∷ gts) (supported ∷ ps) h = omega (arith, pairs_total gts ps (omega arith))
pairs_total (false ∷ gts) (contradicted ∷ ps) h = omega (arith, pairs_total gts ps (omega arith))
pairs_total (false ∷ gts) (not_enough_info ∷ ps) h = omega (arith, pairs_total gts ps (omega arith))
pairs_total (false ∷ gts) (panne ∷ ps) h = omega (arith, pairs_total gts ps (omega arith))

abbrev pub cells : ConfusionMatrix → ℕ
cells m = row_sum m.ground_truth_true + row_sum m.ground_truth_false

-- A matrix that is built accounts for every pair: its cells and the failures left out add up to
-- the number of predictions, and the two lists had one length.
pub build_confusion_matrix_total :
    (gts : List Bool) (preds : List Verdict) {m : ConfusionMatrix}
    → build_confusion_matrix gts preds ≡ ok m
    → (length gts ≡ length preds)
      × (cells m + pairs true panne gts preds + pairs false panne gts preds ≡ length preds)
unfolding build_confusion_matrix
build_confusion_matrix_total gts preds {m} h =
    let e : length gts ≡ length preds = ground (arith, ==_iff (length gts) (length preds)) in
    let start : Counts = record { matrix = empty_matrix; n_pannes = 0 } in
    let same : (count_all gts preds start).matrix ≡ m = ground arith in
    (e, rw (← same) (omega (arith, count_all-Adds gts preds start, pairs_total gts preds e)))
