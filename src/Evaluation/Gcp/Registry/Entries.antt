-- ===== src/Evaluation/Gcp/Registry/Entries.antt =====
-- A document of the registry: its count, and how the count changes.
use berlue.Base.{
  ℕ, ◌≡◌, refl, ap, inl, inr, String, Option, none, some, [], ◌∷◌, ◌++◌, Bool-cases, ◌==◌, ==_refl,
  string_eq, if◌then◌else◌, All,
}
use berlue.Evaluation.Gcp.{
  Plain, int, Dict, integer_value, Python, ScopeKey, to_value, to_fields, find_key,
}
use berlue.Evaluation.Gcp.Codec.{IsStorable}
use berlue.Evaluation.Gcp.Firestore.{Docs, name_eq, set_field, field_at}
use berlue.Evaluation.Gcp.Documents.{IsStorableDoc}
use berlue.Evaluation.Gcp.Registry.{Buffer, registry_collection, new_entry}

module _ {F : Type 0} where
  -- The dictionary with another value of one key.
  abbrev pub set_key : String → Plain F → Dict F → Dict F
  set_key k v [] = []
  set_key k v ((j, w) ∷ d) = (j, if j == k then v else w) ∷ set_key k v d

  abbrev pub count_in : Option (Plain F) → ℕ
  count_in (some (int n)) = n
  count_in _ = 0

  abbrev pub rows_in : Option (Dict F) → ℕ
  rows_in none = 0
  rows_in (some x) = count_in (find_key "n_rows" x)

  -- The count that the registry has for the document `i`.
  unfoldable pub registered : String → Docs (Dict F) → ℕ
  registered i d = rows_in (d (record { collection = registry_collection; doc_id = i }))

  abbrev pub IsEntry : Option (Dict F) → Type 0
  IsEntry none = Unit
  IsEntry (some x) = (n : ℕ) × (find_key "n_rows" x ≡ some (int n))

  -- Every document of the registry has a count.
  abbrev pub IsRegistry : Docs (Dict F) → Type 0
  IsRegistry d =
      (i : String) → IsEntry (d (record { collection = registry_collection; doc_id = i }))

  abbrev pub IsScope : ScopeKey F → Type 0
  IsScope (table, scope) = IsStorable scope × (find_key "n_rows" scope ≡ none)

  -- Every key of the buffer is the scope of a table.
  abbrev pub AreScopes : Buffer F → Type 0
  AreScopes b = All (λ x. IsScope x.0) b

  module _ (py : Python F) where
    pub set_field-to_fields :
        (k : String) (v : Plain F) (d : Dict F)
        → set_field k (to_value py v) (to_fields py d) ≡ to_fields py (set_key k v d)
    unfolding to_fields
    set_field-to_fields k v [] = refl
    set_field-to_fields k v ((j, w) ∷ d) = elim (Bool-cases (j == k)) [
      | inl e ↦ rw e (ap (λ t. (j, to_value py v) ∷ t) (set_field-to_fields k v d))
      | inr e ↦ rw e (ap (λ t. (j, to_value py w) ∷ t) (set_field-to_fields k v d))
    ]

    pub field_at-to_fields :
        (k : String) (n : ℕ) (d : Dict F)
        → find_key k d ≡ some (int n)
        → field_at k (to_fields py d) ≡ some (integer_value (py.str_int n))
    unfolding to_fields field_at find_key to_value
    field_at-to_fields k n [] h = cc
    field_at-to_fields k n ((j, w) ∷ d) h = elim (Bool-cases (j == k)) [
      | inl e ↦ let same = rw e at h in rw e (cc same)
      | inr e ↦ rw e (field_at-to_fields k n d (rw e at h))
    ]

  pub find_key-set_key :
      (k : String) (n m : ℕ) (d : Dict F)
      → find_key k d ≡ some (int n)
      → find_key k (set_key k (int m) d) ≡ some (int m)
  unfolding find_key
  find_key-set_key k n m [] h = cc
  find_key-set_key k n m ((j, w) ∷ d) h = elim (Bool-cases (j == k)) [
    | inl e ↦ rw e refl
    | inr e ↦ rw e (find_key-set_key k n m d (rw e at h))
  ]

  set_key-IsStorable :
      (k : String) (n : ℕ) (d : Dict F) → IsStorable d → IsStorable (set_key k (int n) d)
  set_key-IsStorable k n [] h = tt
  set_key-IsStorable k n ((j, w) ∷ d) h = elim (Bool-cases (j == k)) [
    | inl e ↦ rw e (tt, set_key-IsStorable k n d h.1)
    | inr e ↦ rw e (h.0, set_key-IsStorable k n d h.1)
  ]

  pub set_key-IsStorableDoc :
      (k : String) (n : ℕ) (d : Dict F)
      → IsStorableDoc (some d)
      → IsStorableDoc (some (set_key k (int n) d))
  set_key-IsStorableDoc k n [] h = absurd h
  set_key-IsStorableDoc k n (f ∷ d) h = set_key-IsStorable k n (f ∷ d) h

  find_key-last :
      (k : String) (v : Plain F) (d : Dict F)
      → find_key k d ≡ none
      → find_key k (d ++ ((k, v) ∷ [])) ≡ some v
  unfolding find_key
  find_key-last k v [] h = rw (==_refl k)
  find_key-last k v ((j, w) ∷ d) h = elim (Bool-cases (j == k)) [
    | inl e ↦ absurd (cc (rw e at h))
    | inr e ↦ rw e (find_key-last k v d (rw e at h))
  ]

  append-IsStorable :
      (d : Dict F) (k : String) (n : ℕ) → IsStorable d → IsStorable (d ++ ((k, int n) ∷ []))
  append-IsStorable [] k n h = (tt, tt)
  append-IsStorable ((j, w) ∷ d) k n h = (h.0, append-IsStorable d k n h.1)

  pub new_entry-IsStorable : (key : ScopeKey F) → IsScope key → IsStorableDoc (some (new_entry key))
  new_entry-IsStorable (table, scope) h = (tt, append-IsStorable scope "n_rows" 0 h.0)

  pub new_entry-rows :
      (key : ScopeKey F) → IsScope key → find_key "n_rows" (new_entry key) ≡ some (int 0)
  unfolding find_key
  new_entry-rows (table, scope) h = find_key-last "n_rows" (int 0) scope h.1
