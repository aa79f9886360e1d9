-- ===== src/Evaluation/Metrics.antt =====
-- berlue/evaluation/metrics.py: the confusion matrix of a list of predictions.
pub mod Cells
use berlue.Base.{ℕ, zero, suc, ◌+◌, Bool, true, false, List, [], ◌∷◌, length, ◌==◌, nat_eq}
use berlue.Base.{Result, ok, err, value_error, if◌then◌else◌}
use berlue.Core.Schemas.{Verdict, supported, contradicted, not_enough_info, panne}

-- `ConfusionRow` and `ConfusionMatrix` of berlue/api/schemas.py.
pub record ConfusionRow : Type 0 where
  pub predicted_true : ℕ
  pub predicted_undecided : ℕ
  pub predicted_false : ℕ

pub record ConfusionMatrix : Type 0 where
  pub ground_truth_true : ConfusionRow
  pub ground_truth_false : ConfusionRow

abbrev pub empty_row : ConfusionRow
empty_row = record { predicted_true = 0; predicted_undecided = 0; predicted_false = 0 }

abbrev pub empty_matrix : ConfusionMatrix
empty_matrix = record { ground_truth_true = empty_row; ground_truth_false = empty_row }

-- One more prediction in its cell.
abbrev pub count_row : Verdict → ConfusionRow → ConfusionRow
count_row supported r = record r { predicted_true = r.predicted_true + 1 }
count_row not_enough_info r = record r { predicted_undecided = r.predicted_undecided + 1 }
count_row contradicted r = record r { predicted_false = r.predicted_false + 1 }
count_row panne r = r

-- The counters of the loop: the six cells and the failures left out.
pub record Counts : Type 0 where
  pub matrix : ConfusionMatrix
  pub n_pannes : ℕ

-- The body of the loop: a failure is no prediction.
abbrev pub count : Bool → Verdict → Counts → Counts
count gt panne c = record c { n_pannes = c.n_pannes + 1 }
count true pred c = record c {
  matrix = record c.matrix { ground_truth_true = count_row pred c.matrix.ground_truth_true };
}
count false pred c = record c {
  matrix = record c.matrix { ground_truth_false = count_row pred c.matrix.ground_truth_false };
}

-- `zip(ground_truth, predictions)`, on lists that the test before has found of one length.
unfoldable pub count_all : List Bool → List Verdict → Counts → Counts
count_all (gt ∷ gts) (pred ∷ preds) c = count_all gts preds (count gt pred c)
count_all _ _ c = c

unfoldable pub build_confusion_matrix : List Bool → List Verdict → Result ConfusionMatrix
build_confusion_matrix ground_truth predictions =
    if length ground_truth == length predictions
    then ok
        (count_all ground_truth predictions (record { matrix = empty_matrix; n_pannes = 0 })).matrix
    else err (value_error "Taille asymétrique")
