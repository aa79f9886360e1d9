-- ===== src/Rag/Retriever/Verdicts.antt =====
-- berlue/rag/retriever.py: what a verdict of the RAG carries, which exceptions leave a check, and
-- what the outcome of a list of affirmations is.
use berlue.Base.{
  ℕ, ◌≡◌, ◌⊎◌, inl, inr, refl, Bool, true, false, ◌||◌, String, Option, none, some, List, [], ◌∷◌,
  map, Result, ok, err, ◌>>=◌, IsOk, returns, json_decode_error, ◌<>◌, All-imp, map_result-then,
  Ensures, Ensures-bind, Ensures-imp, map_result, get_elem?, Bool-cases, ◌==◌, string_eq, All,
  rag_panne,
}
use berlue.Base.Double.{Double}
use berlue.Base.Json.{pos, Json, null, bool, int, float, text, arr, obj, Fields, get_field}
use berlue.Core.Schemas.{
  RagJudgment, fever_confirms, fever_refutes, i_dont_known, Claim, RagVerdict, RagCheck, RagOutcome,
  Generation, meta,
}
use berlue.Pipeline.Parallel.{Move}
use berlue.Pipeline.Parallel.Order.{map_parallele-sequential}
use berlue.Rag.Answer.{premier_objet_json}
use berlue.Rag.Retriever.{
  Passage, Trace, Corpus, Settled, rag_verdict_to_judgment, judgment_for, chosen,
  verdict_avec_preuve, evidence_of, with_passage, settle_answer, or_default, trace_of, check_answer,
  check_object, ask, as_panne, check_passages, verify_claim_detail, verify_claim, outcome_of,
  verify_claims, retrieve, first_used, check_of, to_float,
}

-- The judgments that claim a proof.
abbrev pub IsProof : RagJudgment → Type 0
IsProof fever_confirms = Unit
IsProof fever_refutes = Unit
IsProof _ = ⊥

rag_verdict_to_judgment-cases :
    (s : String)
    → (IsProof (rag_verdict_to_judgment s)
        × (((s == "FEVER_CONFIRMS") || (s == "FEVER_REFUTES")) ≡ true))
      ⊎ ((IsProof (rag_verdict_to_judgment s) → ⊥)
          × (((s == "FEVER_CONFIRMS") || (s == "FEVER_REFUTES")) ≡ false))
unfolding rag_verdict_to_judgment
rag_verdict_to_judgment-cases s = elim (Bool-cases (s == "FEVER_CONFIRMS")) [
  | inl a ↦ inl (rw a tt, rw a)
  | inr a ↦ elim (Bool-cases (s == "FEVER_REFUTES")) [
    | inl b ↦ inl (rw (a, b) tt, rw (a, b))
    | inr b ↦ elim (Bool-cases (s == "LIKELY_TRUE")) [
      | inl k ↦ inr (rw (a, b, k) (λ x. x), rw (a, b))
      | inr k ↦ elim (Bool-cases (s == "LIKELY_FALSE")) [
        | inl l ↦ inr (rw (a, b, k, l) (λ x. x), rw (a, b))
        | inr l ↦ inr (rw (a, b, k, l) (λ x. x), rw (a, b))
      ]
    ]
  ]
]

dont_know-judged : (F : Type 0) → judgment_for {F = F} (text "I_DONT_KNOW") ≡ ok i_dont_known
unfolding judgment_for rag_verdict_to_judgment
dont_know-judged F = refl

module _ {F : Type 0} ⦃d : Double F⦄ (c : Corpus F) where
  -- A verdict that claims a proof carries one of the passages `ps`, and no other carries any.
  abbrev pub IsGrounded : List (Passage F) → RagVerdict F → Type 0
  IsGrounded ps v =
      (IsProof v.verdict
        × ((n : ℕ) × (p : Passage F) × (get_elem? ps n ≡ some p)
            × (v.evidence ≡ some (evidence_of c p))))
      ⊎ ((IsProof v.verdict → ⊥) × (v.evidence ≡ none))

  chosen_in :
      (used : Option (Json F)) (ps : List (Passage F)) {p : Passage F}
      → chosen used ps ≡ some p
      → (n : ℕ) × (get_elem? ps n ≡ some p)
  unfolding chosen
  chosen_in (some (int (pos n))) ps h = (n, h)
  chosen_in _ ps h = cc

  judged :
      (v : Json F)
      → Ensures
          (λ j.
            (IsProof j × (verdict_avec_preuve v ≡ true))
            ⊎ ((IsProof j → ⊥) × (verdict_avec_preuve v ≡ false)))
          (judgment_for v)
  unfolding verdict_avec_preuve judgment_for
  judged (text s) = rag_verdict_to_judgment-cases s
  judged null = inr (λ x. x, refl)
  judged (bool b) = inr (λ x. x, refl)
  judged (int b) = inr (λ x. x, refl)
  judged (float b) = inr (λ x. x, refl)
  judged (arr b) = tt
  judged (obj b) = tt

  -- The passage is one of `ps`, where there is one.
  abbrev IsChosen : List (Passage F) → Option (Passage F) → Type 0
  IsChosen ps o = (p : Passage F) → o ≡ some p → (n : ℕ) × (get_elem? ps n ≡ some p)

  -- The verdict that is made of the settled answer and a judgment is grounded.
  abbrev Fits : Claim → List (Passage F) → Settled F → RagJudgment → Type 0
  Fits claim ps s j = IsGrounded ps (record {
    claim_id = claim.id;
    verdict = j;
    confidence = s.confidence;
    evidence = s.evidence;
  })

  with_passage-IsGrounded :
      (claim : Claim) (ps : List (Passage F)) (v : Json F) (confidence : F) (asks : Bool)
      (o : Option (Passage F))
      → verdict_avec_preuve v ≡ asks
      → IsChosen ps o
      → let s = with_passage c v confidence asks o in
        Ensures (Fits claim ps s) (judgment_for s.verdict)
  with_passage-IsGrounded claim ps v confidence true (some p) e k =
      let (n, there) = k p refl in
      Ensures-imp _ _
        (λ j h. elim h [
          | inl (proof, _) ↦ inl (proof, (n, p, there, refl))
          | inr (_, no_proof) ↦ cc
        ])
        (judgment_for v) (judged v)
  with_passage-IsGrounded claim ps v confidence true none e k =
      rw (dont_know-judged F) (inr (λ x. x, refl))
  with_passage-IsGrounded claim ps v confidence false o e k =
      Ensures-imp _ _
        (λ j h. elim h [ inl (_, proof) ↦ cc | inr (no_proof, _) ↦ inr (no_proof, refl) ])
        (judgment_for v) (judged v)

  -- What holds of the check of one affirmation, where `ps` are the passages that were retrieved.
  abbrev pub IsSound : Claim → List (Passage F) → RagCheck F (Trace F) → Type 0
  IsSound claim ps k = (k.verdict.claim_id ≡ claim.id) × IsGrounded ps k.verdict

  settle_answer-Fits :
      (claim : Claim) (ps : List (Passage F)) (v : Json F) (confidence : F) (used : Option (Json F))
      → let s = settle_answer c v confidence (chosen used ps) in
        Ensures (Fits claim ps s) (judgment_for s.verdict)
  unfolding settle_answer
  settle_answer-Fits claim ps v confidence used =
      with_passage-IsGrounded claim ps v confidence (verdict_avec_preuve v) (chosen used ps) refl
        (λ p h. chosen_in used ps h)

  check_of-IsSound :
      (claim : Claim) (ps : List (Passage F)) (s : Settled F) (t : Trace F) (r : Result RagJudgment)
      → Ensures (Fits claim ps s) r
      → Ensures (IsSound claim ps) (do j ← r; ok (check_of c claim s.evidence j s.confidence t))
  check_of-IsSound claim ps s t (ok j) h = (refl, h)
  check_of-IsSound claim ps s t (err e) h = tt

  check_answer-IsSound :
      (claim : Claim) (ps : List (Passage F)) (g : Generation F) (fs : Fields F) (confidence : F)
      (used : Option (Json F))
      → Ensures (IsSound claim ps) (check_answer c claim ps g fs confidence used)
  unfolding check_answer
  check_answer-IsSound claim ps g fs confidence used =
      let v = or_default c (text "NOT ENOUGH INFO") (get_field "verdict" fs) in
      let s = settle_answer c v confidence (chosen used ps) in
      check_of-IsSound claim ps s (trace_of c claim ps (some (meta g)) fs s.verdict s.confidence)
        (judgment_for s.verdict) (settle_answer-Fits claim ps v confidence used)

  check_object-IsSound :
      (claim : Claim) (ps : List (Passage F)) (g : Generation F) (v : Json F)
      → Ensures (IsSound claim ps) (check_object c claim ps g v)
  unfolding check_object
  check_object-IsSound claim ps g (obj fs) =
      Ensures-bind (IsSound claim ps) (to_float c _) _ (λ confidence _.
        Ensures-bind (IsSound claim ps) (first_used (get_field "used_evidence_index" fs))
          (check_answer c claim ps g fs confidence)
          (λ used _. check_answer-IsSound claim ps g fs confidence used))
  check_object-IsSound claim ps g _ = tt

  ask-IsSound :
      (claim : Claim) (ps : List (Passage F)) → Ensures (IsSound claim ps) (ask c claim ps)
  unfolding ask
  ask-IsSound claim ps = Ensures-bind _ (c.generate _) _ (λ g _.
      Ensures-bind _ (premier_objet_json c.is_space c.raw_decode _) _
        (λ v _. check_object-IsSound claim ps g v))

  as_panne-Ensures :
      {A : Type 0} (P : A → Type 0) (claim : Claim) (r : Result A)
      → Ensures P r
      → Ensures P (as_panne c claim r)
  as_panne-Ensures P claim (ok a) h = h
  as_panne-Ensures P claim (err (rag_panne e)) h = tt
  as_panne-Ensures P claim (err e) h = tt

  pub check_passages-IsSound :
      (claim : Claim) (ps : List (Passage F))
      → Ensures (IsSound claim ps) (check_passages c claim ps)
  check_passages-IsSound claim [] = (refl, inr (λ x. x, refl))
  check_passages-IsSound claim (p ∷ ps) =
      as_panne-Ensures _ claim (ask c claim (p ∷ ps)) (ask-IsSound claim (p ∷ ps))

  -- A check that returns carries the affirmation's id. It cites a passage exactly where it is
  -- judged FEVER_CONFIRMS or FEVER_REFUTES, and the passage is one of the three that were retrieved.
  pub verify_claim_detail-IsSound :
      (claim : Claim) (ps : List (Passage F))
      → retrieve c claim 3 ≡ ok ps
      → Ensures (IsSound claim ps) (verify_claim_detail c claim)
  unfolding verify_claim_detail
  verify_claim_detail-IsSound claim ps e = rw e (check_passages-IsSound claim ps)

  -- No other exception than RagPanne leaves.
  abbrev pub OnlyPanne : {A : Type 0} → Result A → Type 0
  OnlyPanne (ok a) = Unit
  OnlyPanne (err (rag_panne e)) = Unit
  OnlyPanne (err e) = ⊥

  as_panne-OnlyPanne : {A : Type 0} (claim : Claim) (r : Result A) → OnlyPanne (as_panne c claim r)
  as_panne-OnlyPanne claim (ok a) = tt
  as_panne-OnlyPanne claim (err (json_decode_error e)) = tt
  as_panne-OnlyPanne claim (err (rag_panne e)) = tt
  as_panne-OnlyPanne claim (err e) = tt

  check_passages-OnlyPanne :
      (claim : Claim) (ps : List (Passage F)) → OnlyPanne (check_passages c claim ps)
  check_passages-OnlyPanne claim [] = tt
  check_passages-OnlyPanne claim (p ∷ ps) = as_panne-OnlyPanne claim (ask c claim (p ∷ ps))

  -- Whatever the model answers, or if it does not, the check of an affirmation whose retrieval
  -- returns raises nothing but a RagPanne.
  pub verify_claim_detail-OnlyPanne :
      (claim : Claim) → IsOk (retrieve c claim 3) → OnlyPanne (verify_claim_detail c claim)
  unfolding verify_claim_detail
  verify_claim_detail-OnlyPanne claim h =
      let (ps, e) = returns (retrieve c claim 3) h in rw e (check_passages-OnlyPanne claim ps)

  -- What the outcome says of the verdicts that a sequential check gives one by one.
  abbrev pub Reports : Result (List (RagVerdict F)) → RagOutcome F (Trace F) → Type 0
  Reports (ok verdicts) out = (out.panne ≡ none) × (out.verdicts ≡ verdicts)
  Reports (err (rag_panne e)) out =
      (out.panne ≡ some ("RAG en panne (" <> (e <> ")"))) × (out.verdicts ≡ []) × (out.traces ≡ [])
  Reports (err e) out = ⊥

  outcome_of-Reports :
      (r : Result (List (RagCheck F (Trace F))))
      → OnlyPanne r
      → (out : RagOutcome F (Trace F)) × (outcome_of c r ≡ ok out)
        × Reports (do ks ← r; ok (map (λ k. k.verdict) ks)) out
  outcome_of-Reports (ok ks) h = (_, refl, (refl, refl))
  outcome_of-Reports (err (rag_panne e)) h = (_, refl, (refl, refl, refl))
  outcome_of-Reports (err e) h = absurd h

  OnlyPanne-cons :
      {A : Type 0} (r : Result A) (rs : Result (List A))
      → OnlyPanne r
      → OnlyPanne rs
      → OnlyPanne (do y ← r; ys ← rs; ok (y ∷ ys))
  OnlyPanne-cons (ok a) (ok b) h k = tt
  OnlyPanne-cons (ok a) (err (rag_panne e)) h k = tt
  OnlyPanne-cons (ok a) (err e) h k = absurd k
  OnlyPanne-cons (err (rag_panne e)) rs h k = tt
  OnlyPanne-cons (err e) rs h k = absurd h

  OnlyPanne-map_result :
      {A B : Type 0} (f : A → Result B) (xs : List A)
      → All (λ x. OnlyPanne (f x)) xs
      → OnlyPanne (map_result f xs)
  unfolding map_result
  OnlyPanne-map_result f [] h = tt
  OnlyPanne-map_result f (x ∷ xs) h =
      OnlyPanne-cons (f x) (map_result f xs) h.0 (OnlyPanne-map_result f xs h.1)

  -- Where every retrieval returns, the outcome is there whatever the order of the threads. It holds
  -- the verdicts that one check after the other gives, in the order of the affirmations; or, where
  -- one of these checks raises a RagPanne, the first in that order is told and no verdict and no
  -- trace is kept.
  pub verify_claims-Reports :
      (moves : List Move) (max_workers : ℕ) (claims : List Claim)
      → All (λ k. IsOk (retrieve c k 3)) claims
      → (out : RagOutcome F (Trace F)) × (verify_claims c moves max_workers claims ≡ ok out)
        × Reports (map_result (verify_claim c) claims) out
  unfolding verify_claims map_result verify_claim
  verify_claims-Reports moves w [] h = (_, refl, (refl, refl))
  verify_claims-Reports moves w (x ∷ xs) h =
      let (out, e, reports) = outcome_of-Reports (map_result (verify_claim_detail c) (x ∷ xs)) (
        OnlyPanne-map_result (verify_claim_detail c) (x ∷ xs)
          (All-imp (λ k. verify_claim_detail-OnlyPanne k) (x ∷ xs) h)) in
      (
        out,
        rw (map_parallele-sequential (verify_claim_detail c) moves (x ∷ xs) w) e,
        rw (map_result-then (verify_claim_detail c) (λ k. k.verdict) (x ∷ xs)) reports,
      )
