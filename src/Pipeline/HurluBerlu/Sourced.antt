-- ===== src/Pipeline/HurluBerlu/Sourced.antt =====
-- berlue/pipeline/hurlu_berlu.py: what the result of a whole run holds.
use berlue.Base.{
  ℕ, suc, ◌≡◌, refl, sym, ap, ◌∙◌, String, Option, none, some, List, [], ◌∷◌, map, Result, ok, err,
  Ensures, Ensures-ok, Ensures-bind, Ensures-imp, All, All-imp, All-map, All-map_result, map_result,
  get_elem?, get_by, ◌==◌, ==_iff, string_eq, Bool-cases, inl, inr, rag_panne, Option-cases,
}
use mathlib.Core.Path.{subst}
use berlue.Selfcheck.Branch.{run_selfcheck}
use berlue.Base.Double.{Double}
use berlue.Core.Schemas.{
  Claim, Evidence, RagVerdict, RagCheck, FusedVerdict, SelfCheckScore, PipelineResult, Fondement,
  preuve_fever,
}
use berlue.Pipeline.Parallel.{Move}
use berlue.Pipeline.Parallel.Order.{map_parallele-sequential}
use berlue.Pipeline.Fusion.{
  FusionParams, present, fuse_claim, cited, divergence_of, fuse_one, fuse_in, no_verdict, fuse_all,
  do_fusion,
}
use berlue.Rag.Retriever.{
  Passage, Trace, Corpus, evidence_of, retrieve, check_passages, verify_claim_detail, outcome_of,
  verify_claims,
}
use berlue.Rag.Retriever.Verdicts.{IsSound, IsGrounded, check_passages-IsSound}
use berlue.Pipeline.HurluBerlu.{
  HurluBerlu, Schedule, answer_or_generate, extract_claims, compute_signals, run,
}

-- The claim is one of the list.
abbrev pub IsAmong : List Claim → Claim → Type 0
IsAmong claims claim = (n : ℕ) × (get_elem? claims n ≡ some claim)

each-IsAmong : (claims : List Claim) → All (IsAmong claims) claims
each-IsAmong [] = tt
each-IsAmong (x ∷ xs) = ((0, refl), All-imp (λ y h. (suc h.0, h.1)) xs (each-IsAmong xs))

map_result-Ensures :
    {A B : Type 0} (P : B → Type 0) (f : A → Result B) (xs : List A)
    → All (λ x. Ensures P (f x)) xs
    → Ensures (All P) (map_result f xs)
unfolding map_result
map_result-Ensures P f [] h = tt
map_result-Ensures P f (x ∷ xs) h = Ensures-bind (All P) (f x) _ (λ y e.
    Ensures-bind (All P) (map_result f xs) _
      (λ ys e'. (Ensures-ok P _ h.0 e, Ensures-ok (All P) _ (map_result-Ensures P f xs h.1) e')))

module _ {F : Type 0} ⦃d : Double F⦄ (c : Corpus F) (claims : List Claim) where
  -- The evidence is a passage that was retrieved for one of the claims, and the id is this claim's.
  pub record IsRetrieved (id : String) (e : Evidence F) : Type 0 where
    pub claim : Claim
    pub among : IsAmong claims claim
    pub same_id : claim.id ≡ id
    pub passages : List (Passage F)
    pub retrieved : retrieve c claim 3 ≡ ok passages
    pub rank : ℕ
    pub passage : Passage F
    pub there : get_elem? passages rank ≡ some passage
    pub is_evidence : e ≡ evidence_of c passage

  abbrev pub IsSourced : RagVerdict F → Type 0
  IsSourced v = (e : Evidence F) → v.evidence ≡ some e → IsRetrieved v.claim_id e

  IsSound-IsSourced :
      (claim : Claim) (ps : List (Passage F)) (v : RagVerdict F)
      → IsAmong claims claim
      → retrieve c claim 3 ≡ ok ps
      → v.claim_id ≡ claim.id
      → IsGrounded c ps v
      → IsSourced v
  IsSound-IsSourced claim ps v one r same (inl (proof, (n, q, there, cites))) e shown = record {
    claim = claim;
    among = one;
    same_id = sym same;
    passages = ps;
    retrieved = r;
    rank = n;
    passage = q;
    there = there;
    is_evidence = cc;
  }
  IsSound-IsSourced claim ps v one r same (inr (_, silent)) e shown = cc

  verdicts-IsSourced :
      (ks : List (RagCheck F (Trace F)))
      → All (λ k. IsSourced k.verdict) ks
      → All IsSourced (map (λ k. k.verdict) ks)
  verdicts-IsSourced [] h = tt
  verdicts-IsSourced (k ∷ ks) h = (h.0, verdicts-IsSourced ks h.1)

  outcome_of-IsSourced :
      (r : Result (List (RagCheck F (Trace F))))
      → Ensures (All (λ k. IsSourced k.verdict)) r
      → Ensures (λ o. All IsSourced o.verdicts) (outcome_of c r)
  outcome_of-IsSourced (ok ks) h = verdicts-IsSourced ks h
  outcome_of-IsSourced (err (rag_panne e)) h = tt
  outcome_of-IsSourced (err e) h = tt

  verify_claim_detail-IsSourced :
      (claim : Claim)
      → IsAmong claims claim
      → Ensures (λ k. IsSourced k.verdict) (verify_claim_detail c claim)
  unfolding verify_claim_detail
  verify_claim_detail-IsSourced claim one =
      Ensures-bind (λ k. IsSourced k.verdict) (retrieve c claim 3) (check_passages c claim)
        (λ ps r.
          Ensures-imp (IsSound c claim ps) (λ k. IsSourced k.verdict)
            (λ k sound. IsSound-IsSourced claim ps k.verdict one r sound.0 sound.1)
            (check_passages c claim ps) (check_passages-IsSound c claim ps))

module _ {F : Type 0} ⦃d : Double F⦄ (c : Corpus F) where
  verify_claims-IsSourced :
      (moves : List Move) (w : ℕ) (claims : List Claim)
      → Ensures (λ o. All (IsSourced c claims) o.verdicts) (verify_claims c moves w claims)
  unfolding verify_claims
  verify_claims-IsSourced moves w [] = tt
  verify_claims-IsSourced moves w (x ∷ xs) =
      rw (map_parallele-sequential (verify_claim_detail c) moves (x ∷ xs) w) (
        outcome_of-IsSourced c (x ∷ xs) (map_result (verify_claim_detail c) (x ∷ xs)) (
          map_result-Ensures (λ k. IsSourced c (x ∷ xs) k.verdict) (verify_claim_detail c) (x ∷ xs)
            (All-imp (verify_claim_detail-IsSourced c (x ∷ xs)) (x ∷ xs) (each-IsAmong (x ∷ xs)))))

some-inj : {A : Type 0} {a b : A} → some a ≡ some b → a ≡ b
some-inj h = cc

-- What is looked up by its key is one of the list, and has the key.
get_by-All :
    {A : Type 0} (P : A → Type 0) (key : A → String) (k : String) (xs : List A) {x : A}
    → All P xs
    → get_by key k xs ≡ some x
    → P x × (key x ≡ k)
unfolding get_by
get_by-All P key k [] h e = cc
get_by-All P key k (y ∷ ys) h e = elim (Option-cases (get_by key k ys)) [
  | inl missing ↦ elim (Bool-cases (key y == k)) [
    | inl hit ↦
        let same = some-inj (rw (missing, hit) at e) in
        (subst P same h.0, ap key (sym same) ∙ (==_iff (key y) k).0 hit)
    | inr other ↦ cc (rw (missing, other) at e)
  ]
  | inr (z, later) ↦ get_by-All P key k ys h.1 (later ∙ (rw later at e))
]

module _ {F : Type 0} ⦃d : Double F⦄ (c : Corpus F) (p : FusionParams F) where
  -- A fused verdict that shows evidence shows a passage that was retrieved for one of the claims,
  -- the one with its own id.
  abbrev pub ShowsRetrieved : List Claim → FusedVerdict F → Type 0
  ShowsRetrieved claims v =
      (e : Evidence F)
      → v.evidence ≡ some e
      → IsRetrieved c claims v.claim_id e × (v.fondement ≡ preuve_fever)

  cited-some :
      (rag : Option (RagVerdict F)) (f : Fondement) (e : Evidence F)
      → cited p rag f ≡ some e
      → (r : RagVerdict F) × (rag ≡ some r) × (r.evidence ≡ some e) × (f ≡ preuve_fever)
  cited-some none f e h = cc
  cited-some (some r) preuve_fever e h = (r, refl, h, refl)
  cited-some (some r) _ e h = cc

  fuse_one-ShowsRetrieved :
      (claims : List Claim) (claim : Claim) (vs : List (RagVerdict F))
      (sc : Option (SelfCheckScore F))
      → All (IsSourced c claims) vs
      → Ensures (ShowsRetrieved claims) (fuse_one p claim (get_by (λ v. v.claim_id) claim.id vs) sc)
  unfolding fuse_one
  fuse_one-ShowsRetrieved claims claim vs sc h =
      let rag = get_by (λ (v : RagVerdict F). v.claim_id) claim.id vs in
      Ensures-bind (ShowsRetrieved claims) (fuse_claim p rag (divergence_of p sc)) _ (λ x _ e shown.
        let (r, there, evidence, founded) = cited-some rag x.fondement e shown in
        let (sourced, same) =
          get_by-All (IsSourced c claims) (λ v. v.claim_id) claim.id vs h there in
        (subst (λ i. IsRetrieved c claims i e) same (sourced e evidence), founded))

  fuse_all-ShowsRetrieved :
      {T : Type 0} (r : PipelineResult F T) (o : Option String)
      → All (IsSourced c r.claims) r.rag_scores
      → Ensures (All (ShowsRetrieved r.claims)) (fuse_all p r o)
  fuse_all-ShowsRetrieved r (some cause) h =
      All-map (ShowsRetrieved r.claims) (no_verdict p cause) (λ k e shown. cc) r.claims
  fuse_all-ShowsRetrieved r none h =
      All-map_result (ShowsRetrieved r.claims) (fuse_in p r)
        (λ k. fuse_one-ShowsRetrieved r.claims k r.rag_scores _ h) r.claims

  do_fusion-ShowsRetrieved :
      {T : Type 0} (r : PipelineResult F T)
      → All (IsSourced c r.claims) r.rag_scores
      → Ensures (λ s. All (ShowsRetrieved s.claims) s.fused_verdicts) (do_fusion p r)
  unfolding do_fusion
  do_fusion-ShowsRetrieved r h =
      Ensures-bind (λ s. All (ShowsRetrieved s.claims) s.fused_verdicts)
        (fuse_all p r (present r.panne)) _
        (λ vs e.
          Ensures-ok (All (ShowsRetrieved r.claims)) _
            (fuse_all-ShowsRetrieved r (present r.panne) h) e)

module _ {F C : Type 0} ⦃d : Double F⦄ (h : HurluBerlu F C) (now : ℕ) where
  compute_signals-IsSourced :
      (sched : Schedule) (question : String) (answer : Option String)
      → Ensures
          (λ r. All (IsSourced h.corpus r.claims) r.rag_scores)
          (compute_signals h now sched question answer)
  unfolding compute_signals
  compute_signals-IsSourced sched question answer =
      let P = λ (r : PipelineResult F (Trace F)). All (IsSourced h.corpus r.claims) r.rag_scores in
      Ensures-bind P (answer_or_generate h now question answer) _ (λ raw _.
        Ensures-bind P (extract_claims h now question raw) _ (λ claims _.
          Ensures-bind P (verify_claims h.corpus sched.rag h.rag_workers claims) _ (λ rag e.
            Ensures-bind P (run_selfcheck _ _ _ _ _ _ _ _ _ _ _ _) _ (λ selfcheck _.
              Ensures-ok (λ o. All (IsSourced h.corpus claims) o.verdicts) _
                (verify_claims-IsSourced h.corpus sched.rag h.rag_workers claims) e))))

  -- A verdict in the result of a run that shows evidence shows a passage that the corpus gave for a
  -- claim of this very result, the id of the verdict being this claim's, and it is founded on a
  -- proof.
  pub run-ShowsRetrieved :
      (sched : Schedule) (question : String) (answer : Option String)
      {r : PipelineResult F (Trace F)}
      → run h now sched question answer ≡ ok r
      → All (ShowsRetrieved h.corpus h.fusion r.claims) r.fused_verdicts
  unfolding run
  run-ShowsRetrieved sched question answer e =
      let P = λ (s : PipelineResult F (Trace F)).
        All (ShowsRetrieved h.corpus h.fusion s.claims) s.fused_verdicts in
      Ensures-ok P _
        (Ensures-bind P (compute_signals h now sched question answer) _ (λ signals known.
          do_fusion-ShowsRetrieved h.corpus h.fusion signals (
            Ensures-ok
              (λ (s : PipelineResult F (Trace F)). All (IsSourced h.corpus s.claims) s.rag_scores) _
              (compute_signals-IsSourced sched question answer) known)))
        e
