-- ===== src/Api/Examples.antt =====
-- The service at concrete inputs: a memory for one entry as its store, and a pipeline that answers.
-- Temperatures and sizes are thousandths; the classes of characters are those of ASCII.
use berlue.Base.{
  ℕ, ◌≡◌, ◌-◌, ◌*◌, ◌+◌, ◌||◌, ◌&&◌, refl, true, false, String, Option, none, some, List, [], ◌∷◌,
  Result, ok, err, other_error, IsOk, string_eq, nat_eq, ◌==◌, leb, if◌then◌else◌,
}
use berlue.Base.Double.Thousandths.{thousandths}
use berlue.Core.Schemas.{PipelineResult}
use berlue.Api.Schemas.{PredictInput, PredictOutput}
use berlue.Api.PredictCache.{
  Text, digits, unit_follows, search_size, after_colon, taille_modele, fits, all_fit, satisfait,
}
use berlue.Evaluation.Store.PredictCache.{Entry}
use berlue.Api.Service.{PredictStore, Models, entry_tags, served, predict}
use berlue.Api.Service.Served.{predict_total, predict-served}
use berlue.Api.Service.Again.{Rereads, Repeats, predict_again}

-- The value of a numeral, in thousandths; a point ends it.
abbrev whole : ℕ → List ℕ → ℕ
whole n [] = n * 1000
whole n (c ∷ cs) = let rest = whole (n * 10 + (c - 48)) cs in if c == 46 then n * 1000 else rest

abbrev ascii : Text ℕ
ascii = record {
  is_digit = λ c. leb 48 c && leb c 57;
  is_space = λ c. c == 32;
  is_word = λ c. leb 97 c && leb c 122 || leb 48 c && leb c 57;
  strip = λ s. s;
  lower = λ s. s;
  float_of = whole 0;
}

-- The version is not the size, and a size is read behind the colon.
sizes :
    (taille_modele ascii "llama3.2:3b" ≡ some 3000)
    × (taille_modele ascii "phi3.5:latest" ≡ none)
    × (taille_modele ascii "llama3.1:8b-instruct" ≡ some 8000)
unfolding taille_modele search_size digits unit_follows after_colon
sizes = (refl, refl, refl)

abbrev small : List String
small = "llama3.2:3b" ∷ []

abbrev medium : List String
medium = "mistral:7b" ∷ []

abbrev large : List String
large = "phi3:14b" ∷ []

abbrev request : PredictInput ℕ
request = record {
  question = "q";
  answer = none;
  llm = record { name = "llama3.2:3b"; temperature = 700 };
  ignore_cache = false;
  debug = false;
}

abbrev result : PipelineResult ℕ (Unit {0})
result = record {
  question = "q";
  raw_answer = "r";
  claims = [];
  samples = [];
  selfcheck_scores = [];
  rag_scores = [];
  fused_verdicts = [];
  rag_traces = [];
  panne = none;
}

abbrev answering : String → Result (PipelineResult ℕ (Unit {0}))
answering q = ok result

abbrev raising : String → Result (PipelineResult ℕ (Unit {0}))
raising q = err (other_error "no model")

abbrev detail : PipelineResult ℕ (Unit {0}) → Models → String
detail r m = "detail"

abbrev memory : PredictStore ℕ (Option (Entry ℕ))
memory = record {
  get_predict_cache = λ q x s. ok s;
  put_predict_cache = λ q x g ex r payload s. ok (
      some (record {
        question = q;
        generator_model = g;
        extract_model = ex;
        rag_model = r;
        payload = ok payload;
        computed_at = "2026";
      }));
}

-- A store that is out of reach.
abbrev unreachable : PredictStore ℕ (Option (Entry ℕ))
unreachable = record {
  get_predict_cache = λ q x s. err (other_error "closed");
  put_predict_cache = λ q x g ex r payload s. err (other_error "closed");
}

abbrev first : Result (PredictOutput ℕ) × Option (Entry ℕ)
first = predict ascii "e" "m" answering detail (some memory) request none

abbrev out : PredictOutput ℕ
out = record {
  question = "q";
  llm_used = request.llm;
  full_llm_answer = "r";
  claims = [];
  origin = some (record {
    cached = false;
    generator_model = "llama3.2:3b";
    extract_model = "e";
    rag_model = "m";
    computed_at = none;
  });
  debug = none;
}

predict_total_example :
    IsOk (predict ascii "e" "m" answering detail (some unreachable) request none).0
predict_total_example =
    predict_total ascii "e" "m" answering detail (some unreachable) request none tt tt

abbrev entry : Entry ℕ
entry = record {
  question = "q";
  generator_model = "phi3:14b";
  extract_model = "e";
  rag_model = "m";
  payload = ok out;
  computed_at = "2025";
}

predict-served_example :
    (request.ignore_cache ≡ false)
    × (e : Entry ℕ) × (output : PredictOutput ℕ) × (memory.get_predict_cache "q" 700 (some entry)
        ≡ ok (some e))
    × (satisfait ascii ("llama3.2:3b" ∷ "e" ∷ "m" ∷ []) (entry_tags e) ≡ ok true)
    × (e.payload ≡ ok output)
    × (served false entry out ≡ served false e output)
unfolding predict satisfait all_fit fits taille_modele search_size digits unit_follows after_colon
predict-served_example =
    predict-served ascii "e" "m" raising detail memory request (some entry) refl refl

memory-Rereads : Rereads memory
memory-Rereads = record {
  get-put = λ q x g ex r payload s s' h. (
    record {
      question = q;
      generator_model = g;
      extract_model = ex;
      rag_model = r;
      payload = ok payload;
      computed_at = "2026";
    },
    h2 s' h,
    refl,
    refl,
  );
}
  where
    h2 : {a : Entry ℕ} (s' : Option (Entry ℕ)) → ok (some a) ≡ ok s' → ok s' ≡ ok (some a)
    h2 s' h = cc

predict_again_example :
    Repeats ascii "e" "m" detail memory memory-Rereads request raising out first.1
unfolding predict
predict_again_example =
    predict_again ascii "e" "m" detail memory memory-Rereads request answering raising none first.1
      out (λ o. tt) refl
