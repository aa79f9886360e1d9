-- ===== src/Rag/Retriever/Passages.antt =====
-- berlue/rag/retriever.py: which passages `retrieve` returns.
use berlue.Base.{ℕ, ◌≡◌, some, List, [], ◌∷◌, get_elem?, length, ltb, if◌then◌else◌}
use berlue.Base.Double.{Double}
use berlue.Base.Json.{ℤ, pos, negsuc}
use berlue.Rag.Retriever.{Neighbour, Passage, Corpus}

-- The neighbours that the corpus holds: those with an index from 0 to its length.
abbrev pub named : {F : Type 0} → ℕ → ℤ → F → List (ℕ × F) → List (ℕ × F)
named n (pos i) x rest = if ltb i n then (i, x) ∷ rest else rest
named n (negsuc i) x rest = rest

abbrev pub in_corpus : {F : Type 0} → ℕ → List (Neighbour F) → List (ℕ × F)
in_corpus n [] = []
in_corpus n (near ∷ more) = named n near.index near.distance (in_corpus n more)

-- The three lists of the metadata have an entry for each document.
pub record IsAligned {F : Type 0} (c : Corpus F) : Type 0 where
  pub labels : length c.labels ≡ length c.claims
  pub evidence_urls : length c.evidence_urls ≡ length c.claims

-- The entry of the corpus that a passage stands for.
pub record IsEntry {F : Type 0} (c : Corpus F) (i : ℕ) (x : F) (p : Passage F) : Type 0 where
  pub text : get_elem? c.claims i ≡ some p.text
  pub label : get_elem? c.labels i ≡ some p.label
  pub evidence_url : get_elem? c.evidence_urls i ≡ some p.evidence_url
  pub distance : p.distance ≡ x

-- The lists agree element by element.
abbrev pub AreEntries : {F : Type 0} → Corpus F → List (ℕ × F) → List (Passage F) → Type 0
AreEntries c [] [] = Unit
AreEntries c ((i, x) ∷ es) (p ∷ ps) = IsEntry c i x p × AreEntries c es ps
AreEntries c _ _ = ⊥
