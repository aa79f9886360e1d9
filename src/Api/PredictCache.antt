-- ===== src/Api/PredictCache.antt =====
-- berlue/api/predict_cache.py: the key of an entry and the rule that says whether it satisfies a
-- request. Python's tables of characters, `str.strip`, `str.lower` and `float` are parameters.
pub mod Order
use berlue.Base.{
  ℕ, Bool, true, false, ◌||◌, not, String, Option, none, some, List, [], ◌∷◌, ◌++◌, length, Result,
  ok, err, value_error, ◌==◌, nat_eq, string_eq, if◌then◌else◌,
}
use berlue.Base.Double.{Double}
use berlue.Base.Json.{codes}

-- What the code asks of Python's text: the classes `\d`, `\s` and `\w`, two methods of `str`, and
-- the value of the decimal numeral that `float` is given.
pub record Text (F : Type 0) : Type 0 where
  pub is_digit : ℕ → Bool
  pub is_space : ℕ → Bool
  pub is_word : ℕ → Bool
  pub strip : String → String
  pub lower : String → String
  pub float_of : List ℕ → F

-- `tag.split(":", 1)[1] if ":" in tag else tag`
unfoldable pub after_colon : List ℕ → Option (List ℕ)
after_colon [] = none
after_colon (c ∷ s) = let rest = after_colon s in if c == b':' then some s else rest

abbrev pub or_else : {A : Type 0} → A → Option A → A
or_else a none = a
or_else a (some b) = b

module _ {F : Type 0} ⦃d : Double F⦄ where
  -- One pair of the loop: `false` where the code returns False.
  abbrev pub sizes_fit : Option F → Option F → Bool
  sizes_fit (some asked) (some cached) = not (d.lt cached asked)
  sizes_fit _ _ = false

module _ {F : Type 0} (t : Text F) where
  unfoldable pub normaliser_question : String → String
  normaliser_question question = t.lower (t.strip question)

  -- The longest prefix of digits, and what follows.
  unfoldable pub digits : List ℕ → List ℕ × List ℕ
  digits [] = ([], [])
  digits (c ∷ s) = let (ds, rest) = digits s in if t.is_digit c then (c ∷ ds, rest) else ([], c ∷ s)

  -- `\s*b\b`, in either case.
  unfoldable pub unit_follows : List ℕ → Bool
  unit_follows [] = false
  unit_follows (c ∷ s) =
      let rest = unit_follows s in
      if c == b'b' || c == b'B'
      then elim s [ [] ↦ true | ◌∷◌ d _ ↦ not (t.is_word d) ]
      else if t.is_space c
      then rest
      else false

  abbrev pub point_digits : List ℕ → List ℕ → List ℕ × List ℕ → List ℕ × List ℕ
  point_digits ds rest ([], _) = (ds, rest)
  point_digits ds rest (d ∷ fraction, after) = (ds ++ (b'.' ∷ d ∷ fraction), after)

  -- `(?:\.\d+)?`, as much as is there: less of it leaves a digit or a point ahead, where no unit
  -- follows.
  abbrev pub with_fraction : List ℕ → List ℕ → List ℕ × List ℕ
  with_fraction ds [] = (ds, [])
  with_fraction ds (c ∷ s) =
      let fraction = point_digits ds (c ∷ s) (digits s) in
      if c == b'.' then fraction else (ds, c ∷ s)

  abbrev pub group_of : List ℕ × List ℕ → Option (List ℕ)
  group_of (group, rest) = if unit_follows rest then some group else none

  -- A match of `_TAILLE` at the start of the text: its group 1.
  abbrev pub match_here : List ℕ × List ℕ → Option (List ℕ)
  match_here ([], _) = none
  match_here (d ∷ ds, rest) = group_of (with_fraction (d ∷ ds) rest)

  -- `_TAILLE.search`: the leftmost match.
  unfoldable pub search_size : List ℕ → Option (List ℕ)
  search_size [] = none
  search_size (c ∷ s) =
      let rest = search_size s in
      elim (match_here (digits (c ∷ s))) [ some group ↦ some group | none ↦ rest ]

  unfoldable pub taille_modele : String → Option F
  taille_modele tag = elim (search_size (or_else (codes tag) (after_colon (codes tag)))) [
    | none ↦ none
    | some group ↦ some (t.float_of group)
  ]

  module _ ⦃d : Double F⦄ where
    unfoldable pub fits : String → String → Bool
    fits demande cache =
        if demande == cache then true else sizes_fit (taille_modele demande) (taille_modele cache)

    -- The loop over `zip(demandes, caches)`.
    unfoldable pub all_fit : List String → List String → Bool
    all_fit (demande ∷ demandes) (cache ∷ caches) =
        let rest = all_fit demandes caches in if fits demande cache then rest else false
    all_fit _ _ = true

    unfoldable pub satisfait : List String → List String → Result Bool
    satisfait demandes caches =
        if length demandes == length caches
        then ok (all_fit demandes caches)
        else err (value_error "rôles non appariés")
