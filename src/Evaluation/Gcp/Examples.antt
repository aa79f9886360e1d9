-- ===== src/Evaluation/Gcp/Examples.antt =====
-- The theorems on the store of Google Cloud at a server whose token was renewed behind the client's
-- back: the first request of each call is refused.
use berlue.Base.{
  ℕ, ◌≡◌, refl, sym, ap, ◌∙◌, true, false, Bool, inl, String, Option, none, some, [], ◌∷◌, ok,
  nat_eq, arith,
}
use berlue.Base.Act.{Act, Runs, ◌>>=◌}
use berlue.Core.Schemas.{Verdict, supported}
use berlue.Evaluation.Store.{EvalScope, mode1_key, generated_key, baseline_scope}
use berlue.Evaluation.Store.Generated.{judge_scope}
use berlue.Evaluation.Gcp.{str, Dict, Fields, Name, get_document, GcpState, dict, find_key}
use berlue.Evaluation.Gcp.Rest.{request}
use berlue.Evaluation.Gcp.Firestore.{Docs, found_reply}
use berlue.Evaluation.Gcp.Served.{Leaves, request-Answered}
use berlue.Evaluation.Gcp.Documents.{Holds, is_none}
use berlue.Evaluation.Gcp.Deletions.{without_selected}
use berlue.Evaluation.Gcp.Ids.Separate.{
  IsClean, SamePrediction, prediction_name-inj, prediction_name-collides,
}
use berlue.Evaluation.Gcp.Registry.{register_new_row, total}
use berlue.Evaluation.Gcp.Registry.Entries.{IsScope}
use berlue.Evaluation.Gcp.Registry.Counts.{counts_for}
use berlue.Evaluation.Gcp.Registry.Accounts.{IsSound, Accounts, register_new_row_lem}
use berlue.Evaluation.Gcp.Results.{prediction_name, put_prediction}
use berlue.Evaluation.Gcp.Results.Puts.{one_if}
use berlue.Evaluation.Gcp.Results.Verdicts.{Stores, put_prediction-Stores}
use berlue.Api.Schemas.{PredictOutput}
use berlue.Api.PredictCache.{Text}
use berlue.Evaluation.Gcp.Results.Generated.{
  question_name, get_judge_verdict, put_judge_verdict, get_generated_berlue_verdict,
  put_generated_berlue_verdict, get_generated_baseline_verdict, put_generated_baseline_verdict,
}
use berlue.Evaluation.Gcp.Results.Judged.{StoresUnder, generated_verdicts-Stores}
use berlue.Evaluation.Gcp.Results.Verdicts.{Reads}
use berlue.Evaluation.Gcp.Results.Cache.{get_predict_cache, put_predict_cache}
use berlue.Evaluation.Gcp.Results.Entries.{put_predict_cache-Reads}
use berlue.Evaluation.Gcp.BigQuery.{BigQuery}
use berlue.Evaluation.Gcp.Purge.{purge}
use berlue.Evaluation.Gcp.Purge.Survivors.{IsApart}
use berlue.Evaluation.Gcp.Purge.Spared.{at_id, unless_version, purge-by_version-Spares}
use berlue.Evaluation.Store.Purge.Guard.{by_version}
use berlue.Evaluation.Gcp.{to_fields, to_value}
use berlue.Evaluation.Gcp.Demo.{put_in}
use berlue.Evaluation.Gcp.Documents.{put_doc-Holds}
use berlue.Evaluation.Gcp.Firestore.{put_doc, name_beq, satisfies, has_value, name_eq}
use berlue.Evaluation.Gcp.Demo.{
  unary, from_unary, from_unary-unary, base_one, base_one-IsPython, Server, accepts, cloud,
}
use berlue.Evaluation.Gcp.Demo.Laws.{docs, fs}

abbrev digest : String → String
digest s = s

abbrev isoformat : Server → String
isoformat w = "2026-01-01"

abbrev server : Server
server = record { accepted = "fresh"; names = []; stored = λ m. none; covers = λ m h. refl }

-- The token that is held on is not the one that is accepted, and seems to last.
abbrev start : GcpState ℕ Server
start = record { token = some "old"; token_expiry = 100; world = server; registry_buffer = [] }

abbrev no_docs : Docs (Dict ℕ)
no_docs m = none

start-Holds : Holds base_one (docs server) no_docs
start-Holds = record { coded_docs = λ m. refl; storable = λ m. tt }

start-IsSound :
    IsSound base_one digest cloud accepts docs base_one-IsPython fs (inl refl) start no_docs
unfolding total
start-IsSound = record {
  holds = start-Holds;
  entries = λ i. tt;
  scopes = tt;
  bounded = omega arith;
}

abbrev scope : EvalScope ℕ
scope = record {
  dataset = "truthfulqa";
  ratio = 1;
  model_id = "llama";
  pipeline_version = "2";
  generation_version = "1";
  eval_version = "3";
}

put_prediction-Stores_example :
    Runs
      (put_prediction base_one digest cloud isoformat scope "q" "a" true supported)
      start
      (λ s' new.
        (new ≡ is_none (no_docs (prediction_name base_one digest cloud isoformat scope "q" "a")))
        × Stores base_one digest cloud isoformat accepts docs base_one-IsPython fs
            (inl refl)
            start
            s'
            no_docs
            (prediction_name base_one digest cloud isoformat scope "q" "a")
            supported
            (one_if base_one digest cloud isoformat accepts docs base_one-IsPython fs
              (inl refl)
              new
              "eval_predictions"
              (dict (mode1_key scope))))
put_prediction-Stores_example =
    put_prediction-Stores base_one digest cloud isoformat accepts docs base_one-IsPython fs
      (inl refl) scope "q" "a" true supported start no_docs start-IsSound

abbrev answers_key : Dict ℕ
answers_key = ("model_id", str "llama") ∷ ("generation_version", str "1") ∷ []

answers_key-IsScope : IsScope ("llm_answers", answers_key)
unfolding find_key
answers_key-IsScope = (omega arith, refl)

register_new_row_lem_example :
    Runs (register_new_row base_one digest cloud "llm_answers" answers_key) start (λ s' u.
      Accounts base_one digest cloud accepts docs base_one-IsPython fs
        (inl refl)
        start
        s'
        no_docs
        no_docs
        (λ i. counts_for base_one digest i ("llm_answers", answers_key) 1))
register_new_row_lem_example =
    register_new_row_lem base_one digest cloud accepts docs base_one-IsPython fs (inl refl)
      "llm_answers" answers_key start no_docs start-IsSound answers_key-IsScope

abbrev never : Name
never = record { collection = "eval_predictions"; doc_id = "x" }

-- The server refuses the first request, and answers the second.
request-Answered_example : Runs (request base_one cloud (get_document never)) start (λ s' x.
    (x ≡ found_reply none)
    × Leaves base_one cloud accepts docs fs (inl refl) start s' (docs server))
request-Answered_example =
    request-Answered base_one cloud accepts docs fs (inl refl) (get_document never)
      (λ x. x ≡ found_reply none) (docs server) start
      (λ t w ok_t same. (
        found_reply none,
        refl,
        rw (← ap (λ (d : Docs (Fields ℕ)). found_reply (d never)) same, ← same)
            (fs.gets t never w ok_t),
      ))
      (λ x h. rw h refl)

unary-inj : (x y : ℕ) → unary x ≡ unary y → x ≡ y
unary-inj x y h = sym (from_unary-unary x) ∙ ap from_unary h ∙ from_unary-unary y

scope-IsClean : IsClean base_one digest scope "q" "a"
unfolding unary
scope-IsClean = record {
  dataset = ground arith;
  ratio = ground arith;
  model_id = ground arith;
  pipeline_version = ground arith;
  eval_version = ground arith;
  question_hash = ground arith;
  answer_hash = ground arith;
}

prediction_name-inj_example : SamePrediction scope scope "q" "a" "q" "a"
prediction_name-inj_example =
    prediction_name-inj base_one digest cloud isoformat scope scope "q" "a" "q" "a" unary-inj
      (λ x y h. h) scope-IsClean scope-IsClean refl

prediction_name-collides_example :
    prediction_name base_one digest cloud isoformat
      (record scope { model_id = "llama|1"; pipeline_version = "2" })
      "q"
      "a"
    ≡ prediction_name base_one digest cloud isoformat
        (record scope { pipeline_version = "1|2" })
        "q"
        "a"
prediction_name-collides_example =
    prediction_name-collides base_one digest cloud isoformat scope "1" "2" "q" "a"

abbrev cached : Name
cached = record { collection = "predict_cache"; doc_id = "x" }

abbrev cached_doc : Dict ℕ
cached_doc = ("model_id", str "llama") ∷ []

abbrev predicted : Name
predicted = record { collection = "eval_predictions"; doc_id = "x" }

abbrev predicted_doc : Dict ℕ
predicted_doc = ("pipeline_version", str "1") ∷ []

-- A server with a document in the cache and a prediction.
abbrev stocked : Server
stocked =
    put_in predicted (to_fields base_one predicted_doc)
      (put_in cached (to_fields base_one cached_doc) server)

abbrev stocked_docs : Docs (Dict ℕ)
stocked_docs = put_doc predicted predicted_doc (put_doc cached cached_doc no_docs)

abbrev restart : GcpState ℕ Server
restart = record { token = some "old"; token_expiry = 100; world = stocked; registry_buffer = [] }

stocked-Holds : Holds base_one (docs stocked) stocked_docs
unfolding put_in
stocked-Holds =
    put_doc-Holds base_one (put_doc cached (to_fields base_one cached_doc) (docs server))
      (put_doc cached cached_doc no_docs) predicted predicted_doc
      (put_doc-Holds base_one (docs server) no_docs cached cached_doc start-Holds (tt, tt)) (tt, tt)

restart-IsSound :
    IsSound base_one digest cloud accepts docs base_one-IsPython fs (inl refl) restart stocked_docs
unfolding total name_beq
restart-IsSound = record {
  holds = stocked-Holds;
  entries = λ i. tt;
  scopes = tt;
  bounded = omega arith;
}

-- The document of the cache is selected, and goes.
cached_goes :
    without_selected base_one cloud accepts docs base_one-IsPython fs
      (inl refl)
      "predict_cache"
      (("model_id", str "llama") ∷ [])
      stocked_docs
      cached
    ≡ none
unfolding name_beq satisfies has_value to_fields to_value
cached_goes = refl

abbrev query_nothing : BigQuery ℕ Server
query_nothing = record {
  project = "p";
  dataset = "d";
  query = λ q ps w. (w, ok (record { rows = []; num_dml_affected_rows = none }));
}

apart : IsApart base_one digest cloud query_nothing accepts docs base_one-IsPython fs (inl refl)
apart = record {
  runs = λ q ps w. (w, record { rows = []; num_dml_affected_rows = none }, refl, refl);
}

-- The one prediction is of the version, and goes.
predicted_goes : unless_version base_one "1" (stocked_docs predicted) ≡ none
unfolding name_beq has_value to_fields to_value
predicted_goes = refl

purge-by_version-Spares_example :
    Runs (purge base_one digest cloud query_nothing (by_version "1") "all") restart (λ s' counts.
      (after : Docs (Dict ℕ)) × Holds base_one (docs s'.world) after
      × ((i : String)
          → (after (at_id "llm_answers" i) ≡ stocked_docs (at_id "llm_answers" i))
            × (after (at_id "judge_verdicts" i) ≡ stocked_docs (at_id "judge_verdicts" i))
            × (after (at_id "eval_baseline_generated" i)
                ≡ stocked_docs (at_id "eval_baseline_generated" i))
            × (after (at_id "eval_predictions" i)
                ≡ unless_version base_one "1" (stocked_docs (at_id "eval_predictions" i)))))
purge-by_version-Spares_example =
    purge-by_version-Spares base_one digest cloud query_nothing accepts docs base_one-IsPython fs
      (inl refl) apart "1" "all" restart stocked_docs refl restart-IsSound

abbrev plain_text : Text ℕ
plain_text = record {
  is_digit = λ c. false;
  is_space = λ c. false;
  is_word = λ c. false;
  strip = λ s. s;
  lower = λ s. s;
  float_of = λ ds. 0;
}

abbrev output : PredictOutput ℕ
output = record {
  question = "q";
  llm_used = record { name = "llama"; temperature = 7 };
  full_llm_answer = "r";
  claims = [];
  origin = none;
  debug = none;
}

put_predict_cache-Reads_example :
    Runs
      (put_predict_cache base_one digest cloud isoformat plain_text
          (λ x. "{}")
          "q"
          7
          "m"
          "e"
          "r"
          output
        >>= (λ _.
            get_predict_cache base_one digest cloud isoformat plain_text
              (λ s. ok (ok output))
              "q"
              7))
      start
      (λ s' found.
        found
        ≡ some (record {
          question = "q";
          generator_model = "m";
          extract_model = "e";
          rag_model = "r";
          payload = ok output;
          computed_at = "2026-01-01";
        }))
put_predict_cache-Reads_example =
    put_predict_cache-Reads base_one digest cloud isoformat plain_text accepts docs
      base_one-IsPython fs (inl refl) (λ x. "{}") (λ s. ok (ok output)) "q" "q" 7 "m" "e" "r" output
      (ok output) start no_docs start-Holds refl refl

abbrev PutsAt : String → Dict ℕ → GcpState ℕ Server → Bool → Type 0
PutsAt table key s' new =
    StoresUnder base_one digest cloud isoformat accepts docs base_one-IsPython fs (inl refl) table
      key "q" supported start no_docs s' new

abbrev ReadsAt : Act (GcpState ℕ Server) (Option Verdict) → String → Dict ℕ → Type 0
ReadsAt m table key =
    Reads base_one digest cloud isoformat accepts docs base_one-IsPython fs (inl refl) m start
      no_docs (question_name base_one digest cloud isoformat table key "q")

generated_verdicts-Stores_example :
    Runs
      (put_judge_verdict base_one digest cloud isoformat "llama" "1" "j" "3" "q" supported)
      start
      (PutsAt "judge_verdicts" (dict (judge_scope "llama" "1" "j" "3")))
    × Runs
        (put_generated_berlue_verdict base_one digest cloud isoformat scope "q" supported)
        start
        (PutsAt "eval_berlue_generated" (dict (generated_key scope)))
    × Runs
        (put_generated_baseline_verdict base_one digest cloud isoformat "truthfulqa" 1 "llama" "1"
          "3" "q" supported)
        start
        (PutsAt "eval_baseline_generated" (dict (baseline_scope "truthfulqa" 1 "llama" "1" "3")))
    × ReadsAt
        (get_judge_verdict base_one digest cloud isoformat "llama" "1" "j" "3" "q")
        "judge_verdicts"
        (dict (judge_scope "llama" "1" "j" "3"))
    × ReadsAt
        (get_generated_berlue_verdict base_one digest cloud isoformat scope "q")
        "eval_berlue_generated"
        (dict (generated_key scope))
    × ReadsAt
        (get_generated_baseline_verdict base_one digest cloud isoformat "truthfulqa" 1 "llama" "1"
          "3" "q")
        "eval_baseline_generated"
        (dict (baseline_scope "truthfulqa" 1 "llama" "1" "3"))
generated_verdicts-Stores_example =
    generated_verdicts-Stores base_one digest cloud isoformat accepts docs base_one-IsPython fs
      (inl refl) scope "j" "q" supported start no_docs start-IsSound
