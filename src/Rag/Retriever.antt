-- ===== src/Rag/Retriever.antt =====
-- berlue/rag/retriever.py: an affirmation is compared with the nearest passages of the corpus, and
-- the model's answer becomes a verdict. What FAISS, the embedding and the model give is a parameter,
-- and so are the text of the prompt and the conversions of Python's `float` and `str`. The lines
-- of the journal are left out.
pub mod Passages
pub mod Verdicts
use berlue.Base.{
  ℕ, zero, suc, Bool, true, false, ◌||◌, String, ◌<>◌, Option, none, some, List, [], ◌∷◌, map,
  Result, ok, err, ◌>>=◌, Error, rag_panne, json_decode_error, other_error, get_elem?, length, ltb,
  ◌==◌, string_eq, if◌then◌else◌,
}
use berlue.Base.Double.{Double, nought, one}
use berlue.Base.Json.{
  ℤ, pos, negsuc, Json, null, bool, int, float, text, arr, obj, Items, nil, cons, Fields, end,
  get_field, item_at, is_text, codes,
}
use berlue.Core.Schemas.{
  RagJudgment, fever_confirms, fever_refutes, likely_true, likely_false, i_dont_known, Generation,
  Meta, meta, Claim, Evidence, RagVerdict, RagCheck, RagOutcome,
}
use berlue.Pipeline.Parallel.{Move, map_parallele}
use berlue.Rag.Answer.{premier_objet_json}

pub record Neighbour (F : Type 0) : Type 0 where
  pub distance : F
  pub index : ℤ

-- One entry of the list that `retrieve` returns.
pub record Passage (F : Type 0) : Type 0 where
  pub text : String
  pub label : String
  pub distance : F
  pub evidence_url : Json F

-- One entry of `context_list`.
pub record Excerpt : Type 0 where
  pub excerpt_index : ℕ
  pub text : String
  pub fever_label : String

pub record TraceEvidence (F : Type 0) : Type 0 where
  pub index : ℕ
  pub distance : F
  pub label : String
  pub text : String

-- The dictionary that `_trace` returns.
pub record Trace (F : Type 0) : Type 0 where
  pub claim_id : String
  pub claim_text : String
  pub evidences : List (TraceEvidence F)
  pub generation : Option (Meta F)
  pub verdict : Json F
  pub confidence : F
  pub used_evidence_index : Option (Json F)
  pub reasoning : Option (Json F)

-- The fields of `RagRetriever`, and what it calls: `search` is the index on the embedding of a text,
-- `prompt` the `format` of the system prompt on the excerpts, `generate` a call of `generate_detail`,
-- `show_error` is `str(e)`, and `title` the text by which a value of the corpus is shown.
pub record Corpus (F : Type 0) : Type 0 where
  pub claims : List String
  pub labels : List String
  pub evidence_urls : List (Json F)
  pub search : String → ℕ → Result (List (Neighbour F))
  pub prompt : String → List Excerpt → String
  pub generate : String → Result (Generation F)
  pub is_space : ℕ → Bool
  pub raw_decode : List ℕ → Result (Json F)
  pub float_of_text : String → Result F
  pub float_of_int : ℤ → Result F
  pub show_error : Error → String
  pub title : Json F → String

-- `RAG_VERDICT_TO_JUDGMENT.get(s, RagJudgment.I_DONT_KNOWN)`
unfoldable pub rag_verdict_to_judgment : String → RagJudgment
rag_verdict_to_judgment s =
    if s == "FEVER_CONFIRMS"
    then fever_confirms
    else if s == "FEVER_REFUTES"
    then fever_refutes
    else if s == "LIKELY_TRUE"
    then likely_true
    else if s == "LIKELY_FALSE"
    then likely_false
    else i_dont_known

abbrev pub char_at : ℕ → String → Option String
char_at n String.[] = none
char_at zero (String.◌∷◌ c s) = some (String.◌∷◌ c String.[])
char_at (suc n) (String.◌∷◌ c s) = char_at n s

abbrev pub found : {A : Type 0} → String → Option A → Result A
found e none = err (other_error e)
found e (some a) = ok a

module _ {F : Type 0} where
  -- `v[n]` for a number `n`: no other value has an element at it.
  abbrev pub at_index : ℕ → Option (Json F) → Option (Json F)
  at_index n (some (arr vs)) = item_at n vs
  at_index n (some (text s)) = elim (char_at n s) [ none ↦ none | some c ↦ some (text c) ]
  at_index n _ = none

  abbrev pub excerpts_from : ℕ → List (Passage F) → List Excerpt
  excerpts_from n [] = []
  excerpts_from n (p ∷ ps) =
      record { excerpt_index = n; text = p.text; fever_label = p.label } ∷ excerpts_from (suc n) ps

  abbrev pub trace_evidences : ℕ → List (Passage F) → List (TraceEvidence F)
  trace_evidences n [] = []
  trace_evidences n (p ∷ ps) =
      record { index = n; distance = p.distance; label = p.label; text = p.text }
      ∷ trace_evidences (suc n) ps

  -- A list or a dictionary is no key of a dictionary.
  unfoldable pub judgment_for : Json F → Result RagJudgment
  judgment_for (arr vs) = err (other_error "TypeError")
  judgment_for (obj fs) = err (other_error "TypeError")
  judgment_for (text s) = ok (rag_verdict_to_judgment s)
  judgment_for _ = ok i_dont_known

  -- `used_idx[0] if isinstance(used_idx, list) else used_idx`
  abbrev pub first_used : Option (Json F) → Result (Option (Json F))
  first_used (some (arr nil)) = err (other_error "IndexError")
  first_used (some (arr (cons v vs))) = ok (some v)
  first_used v = ok v

  -- The passage that a valid index names: a number that is no Boolean, within the list.
  unfoldable pub chosen : Option (Json F) → List (Passage F) → Option (Passage F)
  chosen (some (int (pos n))) ps = get_elem? ps n
  chosen _ ps = none

  -- `verdict_str in ("FEVER_CONFIRMS", "FEVER_REFUTES")`
  unfoldable pub verdict_avec_preuve : Json F → Bool
  verdict_avec_preuve v = is_text "FEVER_CONFIRMS" v || is_text "FEVER_REFUTES" v

-- What is kept of an answer: `verdict_str`, `confidence` and `final_evidence`.
pub record Settled (F : Type 0) : Type 0 where
  pub verdict : Json F
  pub confidence : F
  pub evidence : Option (Evidence F)

module _ {F : Type 0} ⦃d : Double F⦄ (c : Corpus F) where
  unfoldable pub to_float : Json F → Result F
  to_float (bool true) = ok one
  to_float (bool false) = ok nought
  to_float (int n) = c.float_of_int n
  to_float (float x) = ok x
  to_float (text s) = c.float_of_text s
  to_float _ = err (other_error "TypeError")

  abbrev pub or_fever : Option (Json F) → String
  or_fever none = "FEVER"
  or_fever (some v) = c.title v

  unfoldable pub source_de : Json F → String
  source_de url = or_fever (at_index 2 (at_index 0 (at_index 0 (some url))))

  -- The entry that the index names in the three lists of the metadata.
  abbrev pub passage_at : ℕ → F → Result (Passage F)
  passage_at n distance = do
    passage ← found "IndexError" (get_elem? c.claims n)
    label ← found "IndexError" (get_elem? c.labels n)
    url ← found "IndexError" (get_elem? c.evidence_urls n)
    ok (record { text = passage; label = label; distance = distance; evidence_url = url })

  -- `0 <= idx < len(self.metadata["claims"])`
  abbrev pub index_in_corpus : ℤ → Option ℕ
  index_in_corpus (pos n) = if ltb n (length c.claims) then some n else none
  index_in_corpus (negsuc n) = none

  abbrev pub keep_passage : F → Option ℕ → Result (List (Passage F)) → Result (List (Passage F))
  keep_passage distance none rest = rest
  keep_passage distance (some n) rest = do p ← passage_at n distance; ps ← rest; ok (p ∷ ps)

  unfoldable pub passages : List (Neighbour F) → Result (List (Passage F))
  passages [] = ok []
  passages (near ∷ more) = keep_passage near.distance (index_in_corpus near.index) (passages more)

  unfoldable pub retrieve : Claim → ℕ → Result (List (Passage F))
  retrieve claim top_k = do near ← c.search claim.text top_k; passages near

  -- `_trace`, with the dictionary `resultat` by its fields.
  abbrev pub trace_of : Claim → List (Passage F) → Option (Meta F) → Fields F → Json F → F → Trace F
  trace_of claim ps generation resultat verdict confidence = record {
    claim_id = claim.id;
    claim_text = claim.text;
    evidences = trace_evidences 0 ps;
    generation = generation;
    verdict = verdict;
    confidence = confidence;
    used_evidence_index = get_field "used_evidence_index" resultat;
    reasoning = get_field "reasoning" resultat;
  }

  abbrev pub evidence_of : Passage F → Evidence F
  evidence_of p = record {
    text = p.text;
    source = source_de p.evidence_url;
    similarity_score = p.distance;
  }

  abbrev pub with_passage : Json F → F → Bool → Option (Passage F) → Settled F
  with_passage verdict confidence true (some p) = record {
    verdict = verdict;
    confidence = confidence;
    evidence = some (evidence_of p);
  }
  with_passage verdict confidence true none = record {
    verdict = text "I_DONT_KNOW";
    confidence = nought;
    evidence = none;
  }
  with_passage verdict confidence false _ = record {
    verdict = verdict;
    confidence = confidence;
    evidence = none;
  }

  unfoldable pub settle_answer : Json F → F → Option (Passage F) → Settled F
  settle_answer verdict confidence p =
      with_passage verdict confidence (verdict_avec_preuve verdict) p

  abbrev pub or_default : Json F → Option (Json F) → Json F
  or_default v none = v
  or_default v (some w) = w

  abbrev pub check_of :
      Claim → Option (Evidence F) → RagJudgment → F → Trace F → RagCheck F (Trace F)
  check_of claim evidence judgment confidence trace = record {
    verdict = record {
      claim_id = claim.id;
      verdict = judgment;
      confidence = confidence;
      evidence = evidence;
    };
    trace = trace;
  }

  unfoldable pub check_answer :
      Claim
      → List (Passage F)
      → Generation F
      → Fields F
      → F
      → Option (Json F)
      → Result (RagCheck F (Trace F))
  check_answer claim ps generation llm_result confidence used_idx = do
    let verdict_str = or_default (text "NOT ENOUGH INFO") (get_field "verdict" llm_result)
    let s = settle_answer verdict_str confidence (chosen used_idx ps)
    judgment ← judgment_for s.verdict
    ok (
        check_of claim s.evidence judgment s.confidence
          (trace_of claim ps (some (meta generation)) llm_result s.verdict s.confidence))

  -- What is made of the object that the model answered with.
  unfoldable pub check_object :
      Claim → List (Passage F) → Generation F → Json F → Result (RagCheck F (Trace F))
  check_object claim ps generation (obj llm_result) = do
    confidence ← to_float (or_default (float nought) (get_field "confidence" llm_result))
    used_idx ← first_used (get_field "used_evidence_index" llm_result)
    check_answer claim ps generation llm_result confidence used_idx
  check_object claim ps generation _ = err (other_error "AttributeError")

  unfoldable pub ask : Claim → List (Passage F) → Result (RagCheck F (Trace F))
  ask claim ps = do
    generation ← c.generate (c.prompt claim.text (excerpts_from 0 ps))
    llm_result ← premier_objet_json c.is_space c.raw_decode (codes generation.text)
    check_object claim ps generation llm_result

  -- The `except` clauses.
  abbrev pub as_panne : {A : Type 0} → Claim → Result A → Result A
  as_panne claim (ok a) = ok a
  as_panne claim (err (json_decode_error e)) =
      err (rag_panne ("réponse du RAG inexploitable sur l'affirmation " <> claim.id))
  as_panne claim (err (rag_panne e)) = err (rag_panne e)
  as_panne claim (err e) =
      err (rag_panne ("échec du RAG sur l'affirmation " <> (claim.id <> (" : " <> c.show_error e))))

  abbrev pub check_passages : Claim → List (Passage F) → Result (RagCheck F (Trace F))
  check_passages claim [] = ok (
      check_of claim none i_dont_known nought
        (trace_of claim [] none end (text "I_DONT_KNOW") nought))
  check_passages claim (p ∷ ps) = as_panne claim (ask claim (p ∷ ps))

  unfoldable pub verify_claim_detail : Claim → Result (RagCheck F (Trace F))
  verify_claim_detail claim = do ps ← retrieve claim 3; check_passages claim ps

  unfoldable pub verify_claim : Claim → Result (RagVerdict F)
  verify_claim claim = do check ← verify_claim_detail claim; ok check.verdict

  -- `except RagPanne`
  abbrev pub outcome_of : Result (List (RagCheck F (Trace F))) → Result (RagOutcome F (Trace F))
  outcome_of (ok checks) = ok (record {
    verdicts = map (λ k. k.verdict) checks;
    traces = map (λ k. k.trace) checks;
    panne = none;
  })
  outcome_of (err (rag_panne e)) =
      ok (record { verdicts = []; traces = []; panne = some ("RAG en panne (" <> (e <> ")")) })
  outcome_of (err e) = err e

  unfoldable pub verify_claims : List Move → ℕ → List Claim → Result (RagOutcome F (Trace F))
  verify_claims moves max_workers [] = ok (record { verdicts = []; traces = []; panne = none })
  verify_claims moves max_workers (x ∷ xs) =
      outcome_of (map_parallele moves verify_claim_detail (x ∷ xs) max_workers)
