-- ===== src/Rag/Examples.antt =====
-- berlue/rag/retriever.py on a corpus of one document and an answer that cites it.
use berlue.Base.{
  ℕ, ◌≡◌, refl, ◌↔◌, Bool, none, some, List, [], ◌∷◌, Result, ok, err, json_decode_error, IsOk,
  Ensures, map_result, ◌==◌, nat_eq, if◌then◌else◌,
}
use berlue.Base.Double.Thousandths.{thousandths}
use berlue.Base.Json.{pos, negsuc, Json, null, int, text, obj, Fields, end, field, codes}
use berlue.Core.Schemas.{Claim, RagOutcome}
use berlue.Pipeline.Parallel.{start, finish}
use berlue.Rag.Answer.{reparer_objet_tronque}
use berlue.Rag.Answer.Repair.{IsLongest, reparer_objet_tronque-IsLongest}
use berlue.Rag.Retriever.{
  Neighbour, Passage, Trace, Corpus, passages, retrieve, verify_claim, verify_claim_detail,
  verify_claims,
}
use berlue.Rag.Retriever.Verdicts.{
  IsSound, OnlyPanne, Reports, verify_claim_detail-IsSound, verify_claim_detail-OnlyPanne,
  verify_claims-Reports,
}

-- Reads `{}` and refuses all else.
abbrev decode : List ℕ → Result (Json ℕ)
decode (a ∷ b ∷ s) =
    if a == b'{'
    then if b == b'}' then ok (obj end) else err (json_decode_error "value")
    else err (json_decode_error "object")
decode _ = err (json_decode_error "short")

abbrev blank : ℕ → Bool
blank c = c == b' '

reparer_objet_tronque-IsLongest_example :
    (reparer_objet_tronque blank decode (codes "{ ,a") ≡ ok (some end))
    ↔ ((fin : ℕ) × IsLongest blank decode 4 (codes "{ ,a") end fin)
reparer_objet_tronque-IsLongest_example =
    reparer_objet_tronque-IsLongest blank decode (codes "{ ,a") end

abbrev answer : Fields ℕ
answer = field "verdict" (text "FEVER_CONFIRMS") (field "used_evidence_index" (int (pos 0)) end)

-- The second neighbour is missing.
abbrev near : List (Neighbour ℕ)
near = record { distance = 300; index = pos 0 } ∷ record { distance = 900; index = negsuc 0 } ∷ []

abbrev corpus : Corpus ℕ
corpus = record {
  claims = "Paris is in France." ∷ [];
  labels = "SUPPORTS" ∷ [];
  evidence_urls = null ∷ [];
  search = λ t k. ok near;
  prompt = λ t es. t;
  generate = λ p.
      ok (record { text = "{"; modele = "m"; secondes = 0; done_reason = none; tokens = none });
  is_space = blank;
  raw_decode = λ s. ok (obj answer);
  float_of_text = λ s. ok 0;
  float_of_int = λ n. ok 0;
  show_error = λ e. "";
  title = λ v. "";
}

abbrev paris : Claim
paris = record { id = "1"; text = "Paris is French."; source_answer = "Paris is French." }

abbrev cited_passages : List (Passage ℕ)
cited_passages =
    record { text = "Paris is in France."; label = "SUPPORTS"; distance = 300; evidence_url = null }
    ∷ []

retrieved : retrieve corpus paris 3 ≡ ok cited_passages
unfolding retrieve passages
retrieved = refl

retrieves : IsOk (retrieve corpus paris 3)
unfolding retrieve passages
retrieves = tt

verify_claim_detail-IsSound_example :
    Ensures (IsSound corpus paris cited_passages) (verify_claim_detail corpus paris)
verify_claim_detail-IsSound_example =
    verify_claim_detail-IsSound corpus paris cited_passages retrieved

verify_claim_detail-OnlyPanne_example : OnlyPanne corpus (verify_claim_detail corpus paris)
verify_claim_detail-OnlyPanne_example = verify_claim_detail-OnlyPanne corpus paris retrieves

verify_claims-Reports_example :
    (out : RagOutcome ℕ (Trace ℕ)) × (verify_claims corpus
        (start ∷ start ∷ finish 1 ∷ [])
        4
        (paris ∷ paris ∷ [])
      ≡ ok out)
    × Reports corpus (map_result (verify_claim corpus) (paris ∷ paris ∷ [])) out
verify_claims-Reports_example =
    verify_claims-Reports corpus (start ∷ start ∷ finish 1 ∷ []) 4 (paris ∷ paris ∷ [])
      (retrieves, (retrieves, tt))
