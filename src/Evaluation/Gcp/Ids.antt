-- ===== src/Evaluation/Gcp/Ids.antt =====
-- `_doc_id`: the id of a document from the parts of a key.
pub mod Separate
use berlue.Base.{
  ℕ, ◌≡◌, refl, Bool, true, false, ◌&&◌, ◌↔◌, String, ◌<>◌, List, [], ◌∷◌, map, Eq, arith, ◌==◌,
  ==_iff, nat_eq, string_eq, if◌then◌else◌,
}
use berlue.Evaluation.Gcp.{Plain, bool, int, float, str, absent, Dict, Python}

-- `"|".join(...)`
unfoldable pub join_bar : List String → String
join_bar [] = ""
join_bar (s ∷ []) = s
join_bar (s ∷ t ∷ rest) = s <> ("|" <> join_bar (t ∷ rest))

module _ {F : Type 0} (py : Python F) (hash : String → String) where
  -- `str(p)`
  abbrev pub str_of : Plain F → String
  str_of (bool b) = if b then "True" else "False"
  str_of (int n) = py.str_int n
  str_of (float x) = py.str_float x
  str_of (str s) = s
  str_of absent = "None"

  unfoldable pub doc_id : List (Plain F) → String
  doc_id parts = hash (join_bar (map str_of parts))

-- `list(d.values())`
abbrev pub values : {F : Type 0} → Dict F → List (Plain F)
values d = map (λ f. f.1) d

module _ {F : Type 0} ⦃e : Eq F⦄ where
  abbrev pub plain_beq : Plain F → Plain F → Bool
  plain_beq (bool true) (bool b) = b
  plain_beq (bool false) (bool true) = false
  plain_beq (bool false) (bool false) = true
  plain_beq (int a) (int b) = a == b
  plain_beq (float a) (float b) = a == b
  plain_beq (str a) (str b) = a == b
  plain_beq absent absent = true
  plain_beq _ _ = false

  plain_beq_sound : (a b : Plain F) → plain_beq a b ≡ true → a ≡ b
  plain_beq_sound (bool true) (bool b) h = cc
  plain_beq_sound (bool false) (bool true) h = cc
  plain_beq_sound (bool false) (bool false) h = refl
  plain_beq_sound (int a) (int b) h = cc ((==_iff a b).0 h)
  plain_beq_sound (float a) (float b) h = cc ((==_iff a b).0 h)
  plain_beq_sound (str a) (str b) h = cc ((==_iff a b).0 h)
  plain_beq_sound absent absent h = refl
  plain_beq_sound a b h = cc

  plain_beq_refl : (a : Plain F) → plain_beq a a ≡ true
  plain_beq_refl (bool true) = refl
  plain_beq_refl (bool false) = refl
  plain_beq_refl (int a) = (==_iff a a).1 refl
  plain_beq_refl (float a) = (==_iff a a).1 refl
  plain_beq_refl (str a) = (==_iff a a).1 refl
  plain_beq_refl absent = refl

  pub plain_beq_iff : (a b : Plain F) → (plain_beq a b ≡ true) ↔ (a ≡ b)
  plain_beq_iff a b = (plain_beq_sound a b, λ h. rw h (plain_beq_refl b))

instance abbrev pub plain_eq : {F : Type 0} ⦃e : Eq F⦄ → Eq (Plain F)
plain_eq = record { equal = plain_beq; equal_iff = plain_beq_iff }
