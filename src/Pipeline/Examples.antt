-- ===== src/Pipeline/Examples.antt =====
-- berlue/pipeline/extraction.py and hurlu_berlu.py on one answer.
use Prim.Native.Char.{Char, code}
use berlue.Base.{
  ℕ, ap, suc, zero, ◌≡◌, ◌≢◌, refl, true, String, none, some, List, [], ◌∷◌, Result, ok, Ensures,
  All, ◌==◌, nat_eq, arith,
}
use berlue.Base.Double.Thousandths.{thousandths}
use berlue.Base.Json.{Items, pos, null, int, text, arr, obj, Fields, end, field, nil, cons}
use berlue.Core.Schemas.{PipelineResult}
use berlue.Llm.Client.{answered}
use berlue.Pipeline.Extraction.{Tools, do_extraction}
use berlue.Pipeline.Extraction.Ids.{IsDecimal, AreSeparate, AreClaims, do_extraction-AreClaims}
use berlue.Pipeline.Fusion.{default_params}
use berlue.Pipeline.HurluBerlu.{HurluBerlu, Schedule, run}
use berlue.Pipeline.HurluBerlu.Sourced.{ShowsRetrieved, run-ShowsRetrieved}
use berlue.Base.{map_result, get_by}
use berlue.Base.Json.{get_field}
use berlue.Base.Double.{divide}
use berlue.Core.Schemas.{meta}
use berlue.Llm.Client.{client, generate_detail, generate, spaced, temperatures, generate_many}
use berlue.Pipeline.Extraction.{claim_id, claims_from, search_array, up_to_bracket}
use berlue.Pipeline.Fusion.{
  do_fusion, fuse_one, fuse_claim, selfcheck_belief, present, without_proof, rag_belief, clamp,
}
use berlue.Pipeline.HurluBerlu.{compute_signals, extract_claims}
use berlue.Pipeline.Parallel.{map_parallele, run_pool, settle, collect}
use berlue.Rag.Answer.{premier_objet_json, from_brace}
use berlue.Rag.Retriever.{
  verify_claims, verify_claim_detail, retrieve, passages, ask, check_object, check_answer,
  settle_answer, chosen, verdict_avec_preuve, judgment_for, rag_verdict_to_judgment, to_float,
  source_de,
}
use berlue.Selfcheck.Branch.{run_selfcheck, sample_responses, compute_divergence}
use berlue.Rag.Retriever.{Trace, Corpus}

-- A rank is written in base one.
abbrev ones : ℕ → List ℕ
ones zero = []
ones (suc n) = 1 ∷ ones n

ones_inj : (m n : ℕ) → ones m ≡ ones n → m ≡ n
ones_inj zero zero e = refl
ones_inj zero (suc n) e = cc
ones_inj (suc m) zero e = cc
ones_inj (suc m) (suc n) e = omega (arith, ones_inj m n (cc e))

ones_no_nul : (n : ℕ) → All (λ c. c ≢ 0) (ones n)
ones_no_nul zero = tt
ones_no_nul (suc n) = (omega arith, ones_no_nul n)

abbrev put : ℕ → String → String
put zero s = String.◌∷◌ "0" s
put (suc n) s = String.◌∷◌ "1" (put n s)

-- A digest that tells the lengths of texts apart.
abbrev count : List ℕ → String
count [] = "0"
count (n ∷ ns) = String.◌∷◌ "1" (count ns)

abbrev tools : Tools ℕ
tools = record {
  strip = λ s. s;
  digits = ones;
  hexdigest = count;
  loads = λ s. ok (arr (cons (text "a") (cons null (cons (text "a") nil))));
}

tools-IsDecimal : IsDecimal tools
tools-IsDecimal = record { digits_inj = ones_inj; digits_no_nul = ones_no_nul }

chars_differ : ◌≢◌ {A = Char} "0" "1"
chars_differ e = absurd (omega (arith, ap code e))

-- The texts of the two elements.
two-AreSeparate : AreSeparate tools "a, a" ((0, "a") ∷ (2, "a") ∷ [])
two-AreSeparate = (
  ((λ e. refl), ((λ e. absurd (chars_differ (cc e))), tt)),
  (((λ e. absurd (chars_differ (cc e))), ((λ e. refl), tt)), tt),
)

arr-inj : {vs ws : Items ℕ} → ok (arr vs) ≡ ok (arr ws) → vs ≡ ws
arr-inj e = cc

-- The two affirmations have one text and two ids.
do_extraction-AreClaims_example :
    Ensures
      (AreClaims tools "a, a" tools-IsDecimal)
      (do_extraction tools (λ q a. ok "[...]") "q" "a, a")
do_extraction-AreClaims_example =
    do_extraction-AreClaims tools "a, a" tools-IsDecimal (λ q a. ok "[...]") "q"
      (λ raw array vs e found loaded. rw (← arr-inj loaded) two-AreSeparate)

abbrev answer : Fields ℕ
answer = field "verdict" (text "FEVER_CONFIRMS") (field "used_evidence_index" (int (pos 0)) end)

-- One document, which every affirmation finds and every answer cites.
abbrev corpus : Corpus ℕ
corpus = record {
  claims = "a is true." ∷ [];
  labels = "SUPPORTS" ∷ [];
  evidence_urls = null ∷ [];
  search = λ t k. ok (record { distance = 300; index = pos 0 } ∷ []);
  prompt = λ t es. t;
  generate = λ p.
      ok (record { text = "{"; modele = "r"; secondes = 0; done_reason = none; tokens = none });
  is_space = λ c. c == 32;
  raw_decode = λ s. ok (obj answer);
  float_of_text = λ s. ok 0;
  float_of_int = λ n. ok 0;
  show_error = λ e. "";
  title = λ v. "";
}

abbrev stages : HurluBerlu ℕ ℕ
stages = record {
  llm_client = record { host = "h"; model = "m"; temperature = 0; credentials = none; http = none };
  llm_extract = record {
    host = "h";
    model = "e";
    temperature = 0;
    credentials = none;
    http = none;
  };
  auth = record {
    valid = λ now c. true;
    token = λ c. "t";
    refresh = λ now c. ok c;
    show_error = λ e. "";
  };
  post = λ h m p o.
      answered (record { response = some "[...]"; done_reason = none; eval_count = none });
  elapsed = 1;
  tools = tools;
  corpus = corpus;
  predict = λ sentences samples. ok (400 ∷ []);
  answer_prompt = λ q. q;
  extract_prompt = λ q a. q;
  num_predict_answer = 300;
  num_predict_extraction = 400;
  rag_workers = 4;
  selfcheck = record {
    k = 2;
    temperature_min = 300;
    temperature_max = 1000;
    sample_workers = 2;
    score_workers = 2;
    num_predict = some 300;
  };
  fusion = default_params;
}

abbrev in_order : Schedule
in_order = record { rag = []; samples = []; scores = [] }

-- The result of the run, by which the statement below is written.
abbrev result : Result (PipelineResult ℕ (Trace ℕ))
result = run stages 0 in_order "q" (some "a, a")

returned : (r : PipelineResult ℕ (Trace ℕ)) × (result ≡ ok r)
unfolding run compute_signals extract_claims do_extraction claims_from claim_id search_array
    up_to_bracket verify_claims map_parallele run_pool settle collect map_result verify_claim_detail
    retrieve passages ask premier_objet_json from_brace check_object check_answer settle_answer
    chosen verdict_avec_preuve judgment_for rag_verdict_to_judgment get_field to_float run_selfcheck
    sample_responses generate_many temperatures spaced generate generate_detail client
    compute_divergence do_fusion fuse_one fuse_claim selfcheck_belief present get_by divide
    source_de without_proof rag_belief clamp meta
returned = (_, refl)

run-ShowsRetrieved_example :
    All (ShowsRetrieved stages.corpus stages.fusion returned.0.claims) returned.0.fused_verdicts
run-ShowsRetrieved_example =
    run-ShowsRetrieved stages 0 in_order "q" (some "a, a") {r = returned.0} returned.1
