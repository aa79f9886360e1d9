-- ===== src/Evaluation/Gcp/Results.antt =====
-- `GcpResultStore`, mode 1: the predictions and the signals, each in a collection of Firestore under
-- an id that its key determines. The clock and JSON are parameters.
pub mod Generated
pub mod Cache
pub mod Puts
pub mod Verdicts
pub mod Judged
pub mod Entries
use berlue.Base.{
  ℕ, Bool, true, false, String, ◌<>◌, Option, none, some, List, [], ◌∷◌, ◌++◌, map, Result, ok, err,
  value_error, other_error, map_result, if◌then◌else◌, Eq, ◌>>=◌ as ◌>>=R◌,
}
use berlue.Base.Act.{pure, lift, gets, ◌>>=◌, ◌>>◌}
use berlue.Core.Schemas.{Verdict, verdict_value, verdict_of}
use berlue.Evaluation.Signals.{Signals}
use berlue.Evaluation.Store.{EvalScope, mode1_key, signals_scope, current}
use berlue.Evaluation.Gcp.{
  Plain, bool, int, float, str, absent, Dict, Python, Name, Google, dict, find_key,
}
use berlue.Evaluation.Gcp.Rest.{Rest, get, create, query}
use berlue.Evaluation.Gcp.Ids.{doc_id, values, str_of}
use berlue.Evaluation.Gcp.Registry.{register_new_row}

abbrev pub verdict_named : String → Option Verdict → Result Verdict
verdict_named s (some v) = ok v
verdict_named s none = err (value_error s)

abbrev pub found : {A : Type 0} → Result A → Result (Option A)
found r = r >>=R (λ a. ok (some a))

abbrev pub optional : {A : Type 0} → Result (Option (Option A)) → Result (Option A)
optional (ok none) = ok none
optional (ok (some o)) = ok o
optional (err e) = err e

module _ {F : Type 0} where
  -- `doc[key]` where the store wrote a text.
  abbrev pub text_of : String → Option (Plain F) → Result String
  text_of k (some (str s)) = ok s
  text_of k _ = err (other_error ("KeyError: " <> k))

  abbrev pub text_at : String → Dict F → Result String
  text_at k d = text_of k (find_key k d)

  -- `Verdict(doc["verdict"])`
  abbrev pub verdict_in : Dict F → Result Verdict
  verdict_in d = text_at "verdict" d >>=R (λ s. verdict_named s (verdict_of s))

  -- `… if doc else None`: an empty dictionary counts as an absence.
  abbrev pub if_found : {A : Type 0} → (Dict F → Result A) → Option (Dict F) → Result (Option A)
  if_found read none = ok none
  if_found read (some []) = ok none
  if_found read (some (f ∷ d)) = found (read (f ∷ d))

  -- `bool(doc["ground_truth_label"])`
  abbrev pub truth_of : Option (Plain F) → Result Bool
  truth_of (some (bool b)) = ok b
  truth_of _ = err (other_error "KeyError: ground_truth_label")

-- An entry of `list_predictions`.
pub record Prediction : Type 0 where
  pub question : String
  pub answer : String
  pub ground_truth_label : Bool
  pub verdict : Verdict
  pub computed_at : String

abbrev pub prediction_in : {F : Type 0} → Dict F → Result Prediction
prediction_in d = text_at "question" d >>=R λ q. text_at "answer" d >>=R λ a.
    truth_of (find_key "ground_truth_label" d) >>=R λ gt. verdict_in d >>=R λ v.
    text_at "computed_at" d >>=R λ at.
    ok (record { question = q; answer = a; ground_truth_label = gt; verdict = v; computed_at = at })

module _ {F W : Type 0} ⦃e : Eq F⦄ (py : Python F) (hash : String → String) (g : Google F W)
    (isoformat : W → String) where
  abbrev pub now : Rest F W String
  now = gets (λ s. isoformat s.world)

  abbrev pub id_of : Dict F → List String → String
  id_of key hashed = doc_id py hash (values key ++ map (λ s. str (hash s)) hashed)

  -- `if created: self._register_new_row(...)`
  abbrev pub register_if : Bool → String → Dict F → Rest F W (Unit {0})
  register_if created table key = if created then register_new_row py hash g table key else pure tt

  -- What every method that puts a result does.
  unfoldable pub put_new : Name → String → Dict F → (String → Dict F) → Rest F W Bool
  put_new name table key row = do
    at ← now
    created ← create py g name (row at)
    register_if created table key
    pure created

  abbrev pub prediction_name : EvalScope F → String → String → Name
  prediction_name scope question answer = record {
    collection = "eval_predictions";
    doc_id = id_of (dict (mode1_key scope)) (question ∷ answer ∷ []);
  }

  unfoldable pub get_verdict : EvalScope F → String → String → Rest F W (Option Verdict)
  get_verdict scope question answer = do
    doc ← get py g (prediction_name scope question answer)
    lift (if_found verdict_in doc)

  abbrev pub prediction_doc : EvalScope F → String → String → Bool → Verdict → String → Dict F
  prediction_doc scope question answer ground_truth_label verdict at =
      dict (mode1_key scope)
      ++ (("question", str question)
          ∷ ("answer", str answer)
          ∷ ("ground_truth_label", bool ground_truth_label)
          ∷ ("verdict", str (verdict_value verdict))
          ∷ ("computed_at", str at)
          ∷ [])

  unfoldable pub put_prediction : EvalScope F → String → String → Bool → Verdict → Rest F W Bool
  put_prediction scope question answer ground_truth_label verdict =
      put_new (prediction_name scope question answer) "eval_predictions" (dict (mode1_key scope))
        (prediction_doc scope question answer ground_truth_label verdict)

  unfoldable pub list_predictions : EvalScope F → Rest F W (List Prediction)
  list_predictions scope = do
    docs ← query py g "eval_predictions" (dict (mode1_key scope))
    lift (map_result prediction_in docs)

  abbrev pub signals_name : EvalScope F → String → String → Name
  signals_name scope question answer = record {
    collection = "eval_signals";
    doc_id = id_of (dict (signals_scope scope)) (question ∷ answer ∷ []);
  }

  abbrev pub signals_in : (String → Result (Signals F)) → Dict F → Result (Option (Signals F))
  signals_in loads d =
      text_at "signals" d >>=R λ s. loads s >>=R λ signals. ok (current hash signals)

  unfoldable pub get_signals :
      (String → Result (Signals F)) → EvalScope F → String → String → Rest F W (Option (Signals F))
  get_signals loads scope question answer = do
    doc ← get py g (signals_name scope question answer)
    lift (optional (if_found (signals_in loads) doc))

  abbrev pub signals_doc :
      (Signals F → String) → EvalScope F → String → String → Signals F → String → Dict F
  signals_doc dumps scope question answer signals at =
      dict (signals_scope scope)
      ++ (("question", str question)
          ∷ ("answer", str answer)
          ∷ ("signals", str (dumps signals))
          ∷ ("computed_at", str at)
          ∷ [])

  unfoldable pub put_signals :
      (Signals F → String) → EvalScope F → String → String → Signals F → Rest F W Bool
  put_signals dumps scope question answer signals =
      put_new (signals_name scope question answer) "eval_signals" (dict (signals_scope scope))
        (signals_doc dumps scope question answer signals)
