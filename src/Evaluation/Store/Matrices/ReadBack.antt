-- ===== src/Evaluation/Store/Matrices/ReadBack.antt =====
-- The matrices of `LocalResultStore`: reads after a put, in each of the three tables.
use berlue.Base.{ℕ, ◌≡◌, refl, true, String, Option, some, Eq, ==_refl, string_eq}
use berlue.Evaluation.Metrics.{ConfusionMatrix}
use berlue.Evaluation.Sql.{Database, matches}
use berlue.Evaluation.Sql.Reads.{update_self, select_one-upsert}
use berlue.Evaluation.Store.{
  EvalScope, mode1_key, generated_key, baseline_scope, matrix_row, matrix_row_to_object, put_matrix,
  get_matrix,
}
use berlue.Evaluation.Store.Tables.{matrix_key, matrix_berlue_key, matrix_baseline_key}
use berlue.Evaluation.Store.Matrices.{
  put_generated_berlue_matrix, get_generated_berlue_matrix, put_generated_baseline_matrix,
  get_generated_baseline_matrix,
}

module _ {F : Type 0} ⦃e : Eq F⦄ (s : EvalScope F) where
  mode1-matches :
      (m : ConfusionMatrix) (n : ℕ) (size : Option ℕ) (now : String)
      → matches (mode1_key s) (matrix_row (mode1_key s) m n size now) ≡ true
  unfolding matches
  mode1-matches m n size now = simp (==_refl {A = String}, ==_refl {A = F})

  generated-matches :
      (m : ConfusionMatrix) (n : ℕ) (size : Option ℕ) (now : String)
      → matches (generated_key s) (matrix_row (generated_key s) m n size now) ≡ true
  unfolding matches
  generated-matches m n size now = simp (==_refl {A = String}, ==_refl {A = F})

  baseline-matches :
      (m : ConfusionMatrix) (n : ℕ) (size : Option ℕ) (now : String)
      → matches (baseline_scope s.dataset s.ratio s.model_id s.generation_version s.eval_version) (
          matrix_row
            (baseline_scope s.dataset s.ratio s.model_id s.generation_version s.eval_version)
            m
            n
            size
            now)
        ≡ true
  unfolding matches
  baseline-matches m n size now = simp (==_refl {A = String}, ==_refl {A = F})

  -- Each of the three tables of matrices gives back the matrix that was put last for its key,
  -- whatever stood there: all six cells come through the flat columns unchanged.
  pub matrices-put_self :
      (m : ConfusionMatrix) (n : ℕ) (size : Option ℕ) (now : String) (db : Database F)
      → (get_matrix s (put_matrix s m n size now db) ≡ some m)
        × (get_generated_berlue_matrix s (put_generated_berlue_matrix s m n size now db) ≡ some m)
        × (get_generated_baseline_matrix s.dataset s.ratio s.model_id s.generation_version
              s.eval_version
              (put_generated_baseline_matrix s.dataset s.ratio s.model_id s.generation_version
                s.eval_version m n size now db)
            ≡ some m)
  unfolding put_matrix get_matrix put_generated_berlue_matrix get_generated_berlue_matrix
      put_generated_baseline_matrix get_generated_baseline_matrix matrix_row_to_object
  matrices-put_self m n size now db = (
    rw
        (
          update_self,
          select_one-upsert matrix_key (matrix_row (mode1_key s) m n size now) (db "eval_matrices")
              (mode1-matches m n size now),
        )
        refl,
    rw
        (
          update_self,
          select_one-upsert matrix_berlue_key (matrix_row (generated_key s) m n size now)
              (db "eval_matrices_generated_berlue") (generated-matches m n size now),
        )
        refl,
    rw
        (
          update_self,
          select_one-upsert matrix_baseline_key
              (matrix_row
                (baseline_scope s.dataset s.ratio s.model_id s.generation_version s.eval_version) m
                n size now)
              (db "eval_matrices_generated_baseline") (baseline-matches m n size now),
        )
        refl,
  )
