-- ===== src/Evaluation/Gcp/Purge/Spared.antt =====
-- `GcpResultStore.purge` by a version of the pipeline: the collections that have no such field.
use berlue.Base.{
  ◌≡◌, refl, ◌∙◌, Bool, true, false, ◌⊎◌, String, Option, none, some, List, [], ◌∷◌, Eq, Bool-cases,
  inl, inr, ◌==◌, ==_iff, string_eq, if◌then◌else◌,
}
use mathlib.Core.Path.{subst}
use berlue.Base.Act.{Runs, Runs-imp}
use berlue.Evaluation.Store.Purge.{one_of, demandes, scopes_valides}
use berlue.Evaluation.Store.Purge.Guard.{by_version}
use berlue.Evaluation.Store.Matrices.{where_from_filters}
use berlue.Evaluation.Gcp.{
  string_value, Dict, Fields, Python, Name, Google, GcpState, to_fields, to_value,
  running_on_cloud_run,
}
use berlue.Evaluation.Gcp.Codec.{IsPython}
use berlue.Evaluation.Gcp.Firestore.{Docs, has_value, satisfies, IsFirestore}
use berlue.Evaluation.Gcp.Documents.{Holds}
use berlue.Evaluation.Gcp.Registry.Accounts.{IsSound}
use berlue.Evaluation.Gcp.BigQuery.{BigQuery}
use berlue.Evaluation.Gcp.Purge.{steps, purge}
use berlue.Evaluation.Gcp.Purge.Survivors.{IsApart, rest_of, purge-Purged}

-- The scopes that delete predictions.
abbrev pub scopes : List String
scopes = "all" ∷ "results" ∷ "fusion" ∷ []

one_of_scopes :
    (P : String → Type 0)
    → P "all"
    → P "results"
    → P "fusion"
    → (scope : String) → one_of scopes scope ≡ true
    → P scope
one_of_scopes P a r f scope h = elim (Bool-cases ("all" == scope)) [
  | inl e ↦ subst P ((==_iff "all" scope).0 e) a
  | inr e ↦ elim (Bool-cases ("results" == scope)) [
    | inl e' ↦ subst P ((==_iff "results" scope).0 e') r
    | inr e' ↦ elim (Bool-cases ("fusion" == scope)) [
      | inl e'' ↦ subst P ((==_iff "fusion" scope).0 e'') f
      | inr e'' ↦ cc (rw (e, e', e'') at h)
    ]
  ]
]

-- The document `i` of a collection.
abbrev pub at_id : String → String → Name
at_id collection i = record { collection = collection; doc_id = i }

module _ {F : Type 0} ⦃e : Eq F⦄ (py : Python F) where
  -- The document without the version: it is gone if its field `pipeline_version` is this text.
  abbrev pub unless_version : String → Option (Dict F) → Option (Dict F)
  unless_version version none = none
  unless_version version (some x) =
      if has_value "pipeline_version" (string_value version) (to_fields py x) then none else some x

  abbrev rest : String → String → Name → Option (Dict F) → Option (Dict F)
  rest version scope = rest_of py (demandes (by_version version)) (steps (by_version version) scope)

  -- What the steps do to the four collections.
  abbrev Spares : String → String → String → Option (Dict F) → Type 0
  Spares version i scope o =
      (rest version scope (at_id "llm_answers" i) o ≡ o)
      × (rest version scope (at_id "judge_verdicts" i) o ≡ o)
      × (rest version scope (at_id "eval_baseline_generated" i) o ≡ o)
      × (rest version scope (at_id "eval_predictions" i) o ≡ unless_version version o)

  rest-Spares :
      (version i scope : String) (o : Option (Dict F))
      → one_of scopes scope ≡ true
      → Spares version i scope o
  unfolding steps satisfies where_from_filters to_value to_fields
  rest-Spares version i scope none h =
      one_of_scopes (λ k. Spares version i k none) (refl, refl, refl, refl) (refl, refl, refl, refl)
        (refl, refl, refl, refl) scope h
  rest-Spares version i scope (some x) h =
      elim (Bool-cases (has_value "pipeline_version" (string_value version) (to_fields py x))) [
        | inl b ↦
            one_of_scopes (λ k. Spares version i k (some x)) (refl, refl, refl, rw b refl)
              (refl, refl, refl, rw b refl) (refl, refl, refl, rw b refl) scope h
        | inr b ↦
            one_of_scopes (λ k. Spares version i k (some x)) (refl, refl, refl, rw b refl)
              (refl, refl, refl, rw b refl) (refl, refl, refl, rw b refl) scope h
      ]

module _ {F W : Type 0} ⦃e : Eq F⦄ (py : Python F) (hash : String → String) (g : Google F W)
    (bq : BigQuery F W) (accepts : W → String → Bool) (docs : W → Docs (Fields F))
    (python : IsPython py) (fs : IsFirestore py g accepts docs)
    (configured : (running_on_cloud_run g ≡ true) ⊎ ((g.service_account == "") ≡ false))
    (bigq : IsApart py hash g bq accepts docs python fs configured) where
  -- A purge by a version of the pipeline alone, in each of the scopes that delete predictions,
  -- leaves every answer of a model, every verdict of the judge and every verdict of the baseline as
  -- it was: these carry no such version. Of the predictions it deletes those of this version, and
  -- no other.
  pub purge-by_version-Spares :
      (version scope : String) (s : GcpState F W) (d : Docs (Dict F))
      → one_of scopes scope ≡ true
      → IsSound py hash g accepts docs python fs configured s d
      → Runs (purge py hash g bq (by_version version) scope) s (λ s' counts.
        (after : Docs (Dict F)) × Holds py (docs s'.world) after
        × ((i : String)
            → (after (at_id "llm_answers" i) ≡ d (at_id "llm_answers" i))
              × (after (at_id "judge_verdicts" i) ≡ d (at_id "judge_verdicts" i))
              × (after (at_id "eval_baseline_generated" i) ≡ d (at_id "eval_baseline_generated" i))
              × (after (at_id "eval_predictions" i)
                  ≡ unless_version py version (d (at_id "eval_predictions" i)))))
  purge-by_version-Spares version scope s d h sound =
      Runs-imp (purge py hash g bq (by_version version) scope) s
        (purge-Purged py hash g bq accepts docs python fs configured bigq (by_version version) scope
          s d (one_of_scopes (λ k. one_of scopes_valides k ≡ true) refl refl refl scope h) sound)
        (λ s' counts q. (
          q.1.after,
          q.1.holds,
          λ i. (
            q.1.rest (at_id "llm_answers" i) refl
                ∙ (rest-Spares py version i scope (d (at_id "llm_answers" i)) h).0,
            q.1.rest (at_id "judge_verdicts" i) refl
                ∙ (rest-Spares py version i scope (d (at_id "judge_verdicts" i)) h).1,
            q.1.rest (at_id "eval_baseline_generated" i) refl
                ∙ (rest-Spares py version i scope (d (at_id "eval_baseline_generated" i)) h).2,
            q.1.rest (at_id "eval_predictions" i) refl
                ∙ (rest-Spares py version i scope (d (at_id "eval_predictions" i)) h).3,
          ),
        ))
