-- ===== src/Rag/Answer.antt =====
-- berlue/rag/retriever.py: reading the object that the model answers with. `raw_decode` is that of
-- `json.JSONDecoder`: the value at the start of a text, or an exception. `is_space` is the class
-- of characters that `str.rstrip` takes away.
pub mod Repair
use berlue.Base.{ℕ, zero, suc, Bool, true, Option, none, some, List, [], ◌∷◌, ◌++◌, String}
use berlue.Base.{
  Result, ok, err, other_error, json_decode_error, length, take, ◌==◌, nat_eq, if◌then◌else◌,
}
use berlue.Base.Json.{Json, obj, Fields, end, rstrip}

-- `texte[texte.find("{"):]`
unfoldable pub from_brace : List ℕ → Option (List ℕ)
from_brace [] = none
from_brace (c ∷ s) = let rest = from_brace s in if c == b'{' then some (c ∷ s) else rest

module _ {F : Type 0} (is_space : ℕ → Bool) (raw_decode : List ℕ → Result (Json F)) where
  -- `texte[:fin].rstrip().rstrip(",")`
  unfoldable pub fragment : ℕ → List ℕ → List ℕ
  fragment fin texte = rstrip (λ c. c == b',') (rstrip is_space (take fin texte))

  -- `objet if isinstance(objet, dict) else None`
  abbrev pub dict_or_none : Json F → Option (Fields F)
  dict_or_none (obj fs) = some fs
  dict_or_none _ = none

  -- What follows a call of the decoder in the loop: `next` is the rest of it.
  abbrev pub decoded : Result (Json F) → Result (Option (Fields F)) → Result (Option (Fields F))
  decoded (ok v) next = ok (dict_or_none v)
  decoded (err (json_decode_error e)) next = next
  decoded (err e) next = err e

  abbrev pub attempt : List ℕ → Result (Option (Fields F)) → Result (Option (Fields F))
  attempt [] next = ok none
  attempt (c ∷ s) next = decoded (raw_decode ((c ∷ s) ++ (b'}' ∷ []))) next

  -- `for fin in range(len(texte), 0, -1)`
  unfoldable pub shorten : ℕ → List ℕ → Result (Option (Fields F))
  shorten zero texte = ok none
  shorten (suc n) texte = let next = shorten n texte in attempt (fragment (suc n) texte) next

  unfoldable pub reparer_objet_tronque : List ℕ → Result (Option (Fields F))
  reparer_objet_tronque texte = shorten (length texte) texte

  -- `if objet is None: raise`, with the exception of the first call.
  abbrev pub or_raise : String → Result (Option (Fields F)) → Result (Json F)
  or_raise e (ok none) = err (json_decode_error e)
  or_raise e (ok (some fs)) = ok (obj fs)
  or_raise e (err e') = err e'

  abbrev pub or_repair : List ℕ → Result (Json F) → Result (Json F)
  or_repair texte (ok v) = ok v
  or_repair texte (err (json_decode_error e)) = or_raise e (reparer_objet_tronque texte)
  or_repair texte (err e) = err e

  abbrev pub first_object : Option (List ℕ) → Result (Json F)
  first_object none = ok (obj end)
  first_object (some texte) = or_repair texte (raw_decode texte)

  unfoldable pub premier_objet_json : List ℕ → Result (Json F)
  premier_objet_json texte = first_object (from_brace texte)
