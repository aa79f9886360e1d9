-- ===== src/Evaluation/RunEval/Aggregate.antt =====
-- `aggregate_verdict` of berlue/evaluation/run_eval.py: one verdict for the claims of an answer.
use berlue.Base.{
  ℕ, ◌≡◌, ◌≢◌, ◌↔◌, ◌≤◌, refl, Bool, true, false, List, [], ◌∷◌, any, if◌then◌else◌, arith,
}
use Prim.Native.Nat.{max}
use berlue.Core.Schemas.{Verdict, supported, contradicted, not_enough_info, panne}
use berlue.Api.Schemas.{ClaimStatus, green, orange, red, broken, ClaimResult}

abbrev pub is_broken : ClaimStatus → Bool
is_broken broken = true
is_broken _ = false

abbrev pub is_red : ClaimStatus → Bool
is_red red = true
is_red _ = false

abbrev pub is_orange : ClaimStatus → Bool
is_orange orange = true
is_orange _ = false

module _ {F : Type 0} where
  -- `text in statuses`, for the set of the statuses of the claims.
  abbrev pub has : (ClaimStatus → Bool) → List (ClaimResult F) → Bool
  has test = any (λ c. test c.status)

  unfoldable pub aggregate_verdict : List (ClaimResult F) → Verdict
  aggregate_verdict [] = not_enough_info
  aggregate_verdict claims =
      if has is_broken claims
      then panne
      else if has is_red claims
      then contradicted
      else if has is_orange claims
      then not_enough_info
      else supported

-- How bad a status is.
abbrev pub severity : ClaimStatus → ℕ
severity green = 0
severity orange = 1
severity red = 2
severity broken = 3

abbrev pub verdict_severity : Verdict → ℕ
verdict_severity supported = 0
verdict_severity not_enough_info = 1
verdict_severity contradicted = 2
verdict_severity panne = 3

abbrev pub worst : {F : Type 0} → List (ClaimResult F) → ℕ
worst [] = 0
worst (c ∷ cs) = max (severity c.status) (worst cs)

module _ {F : Type 0} where
  -- The tests read off the worst status.
  Tells : List (ClaimResult F) → Type 0
  Tells cs =
      ((has is_broken cs ≡ true) ↔ (worst cs ≡ 3))
      × ((has is_broken cs ≡ false) → (has is_red cs ≡ true) ↔ (worst cs ≡ 2))
      × ((has is_broken cs ≡ false)
          → (has is_red cs ≡ false)
          → (has is_orange cs ≡ true) ↔ (worst cs ≡ 1))
      × (worst cs ≤ 3)

  tells : (cs : List (ClaimResult F)) → Tells cs
  unfolding Tells
  tells [] = ground arith
  tells (c ∷ cs) = let h = tells cs in ground arith

  -- The verdict of an answer with claims is as severe as its worst claim, whatever their order.
  pub aggregate_verdict-worst :
      (cs : List (ClaimResult F)) → cs ≢ [] → verdict_severity (aggregate_verdict cs) ≡ worst cs
  unfolding aggregate_verdict Tells
  aggregate_verdict-worst [] h = absurd (h refl)
  aggregate_verdict-worst (c ∷ cs) h = ground (arith, tells (c ∷ cs))
