-- ===== src/Pipeline/Extraction.antt =====
-- berlue/pipeline/extraction.py: an answer is cut into affirmations. The model's answer, `json.loads`,
-- `str.strip` and `hexdigest` of SHA-256 are parameters; the lines of the journal are left out.
pub mod Ids
use berlue.Base.{
  ℕ, zero, suc, Bool, true, false, String, Option, none, some, List, [], ◌∷◌, ◌++◌, Result, ok, err,
  ◌>>=◌, json_decode_error, ◌==◌, nat_eq, string_eq, if◌then◌else◌,
}
use berlue.Base.Json.{Json, text, arr, Items, nil, cons, codes}
use berlue.Core.Schemas.{Claim}

-- `str.strip`, the decimal digits of a rank, the SHA-256 of a text in hexadecimal digits, and
-- `json.loads`.
pub record Tools (F : Type 0) : Type 0 where
  pub strip : String → String
  pub digits : ℕ → List ℕ
  pub hexdigest : List ℕ → String
  pub loads : List ℕ → Result (Json F)

-- The shortest beginning that ends with a `]`.
unfoldable pub up_to_bracket : List ℕ → Option (List ℕ)
up_to_bracket [] = none
up_to_bracket (c ∷ s) =
    let rest = up_to_bracket s in
    if c == b']' then some (c ∷ []) else elim rest [ none ↦ none | some t ↦ some (c ∷ t) ]

-- `re.search(r"\[.*?\]", ...)`: where no `]` follows the first `[`, none follows a later one.
unfoldable pub search_array : List ℕ → Option (List ℕ)
search_array [] = none
search_array (c ∷ s) =
    let rest = search_array s in
    if c == b'[' then elim (up_to_bracket s) [ none ↦ none | some t ↦ some (c ∷ t) ] else rest

-- `empreinte[:n]`
abbrev pub first : ℕ → String → String
first zero s = ""
first (suc n) String.[] = ""
first (suc n) (String.◌∷◌ c s) = String.◌∷◌ c (first n s)

module _ {F : Type 0} (t : Tools F) where
  -- The text that is hashed: `f"{answer_text}\x00{rank}\x00{text}"`.
  abbrev pub message : String → ℕ → String → List ℕ
  message answer_text rank x = codes answer_text ++ (0 ∷ (t.digits rank ++ (0 ∷ codes x)))

  unfoldable pub claim_id : String → ℕ → String → String
  claim_id answer_text rank x = first 16 (t.hexdigest (message answer_text rank x))

  abbrev pub claim_of : String → ℕ → String → List Claim → List Claim
  claim_of answer_text rank claim_text rest =
      if claim_text == ""
      then rest
      else record {
        id = claim_id answer_text rank claim_text;
        text = claim_text;
        source_answer = answer_text;
      }
        ∷ rest

  -- The loop over the elements: one that is no text is skipped, its rank is not given again.
  abbrev pub element_claim : String → ℕ → Json F → List Claim → List Claim
  element_claim answer_text rank (text s) rest = claim_of answer_text rank (t.strip s) rest
  element_claim answer_text rank _ rest = rest

  unfoldable pub claims_from : String → ℕ → Items F → List Claim
  claims_from answer_text rank nil = []
  claims_from answer_text rank (cons v vs) =
      element_claim answer_text rank v (claims_from answer_text (suc rank) vs)

  abbrev pub claims_of : String → Json F → List Claim
  claims_of answer_text (arr vs) = claims_from answer_text 0 vs
  claims_of answer_text _ = []

  -- `except json.JSONDecodeError: return []`
  abbrev pub or_no_claims : String → Result (Json F) → Result (List Claim)
  or_no_claims answer_text (ok v) = ok (claims_of answer_text v)
  or_no_claims answer_text (err (json_decode_error e)) = ok []
  or_no_claims answer_text (err e) = err e

  abbrev pub parse_array : String → Option (List ℕ) → Result (List Claim)
  parse_array answer_text none = ok []
  parse_array answer_text (some array) = or_no_claims answer_text (t.loads array)

  -- `generate` is the call of the model on the prompt that is made of the question and the answer.
  unfoldable pub do_extraction :
      (String → String → Result String) → String → String → Result (List Claim)
  do_extraction generate question answer_text =
      if (if answer_text == "" then true else t.strip answer_text == "") then ok [] else do
        raw_response ← generate question answer_text
        parse_array answer_text (search_array (codes raw_response))
