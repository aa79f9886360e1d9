-- ===== src/Evaluation/Gcp/Registry/Counts.antt =====
-- The counts that the buffer holds for a document of the registry.
use berlue.Base.{
  ℕ, ◌+◌, ◌≡◌, refl, String, [], ◌∷◌, Eq, arith, Bool-cases, inl, inr, ap, ◌==◌, ==_iff, string_eq,
  if◌then◌else◌, All,
}
use berlue.Base.Equality.{pair_eq, list_eq}
use berlue.Evaluation.Gcp.{Python, ScopeKey}
use berlue.Evaluation.Gcp.Ids.{plain_eq}
use berlue.Evaluation.Gcp.Registry.{Buffer, count_row, total, registry_id}

module _ {F : Type 0} (py : Python F) (hash : String → String) where
  abbrev pub counts_for : String → ScopeKey F → ℕ → ℕ
  counts_for i key n = if registry_id py hash key == i then n else 0

  -- What a flush of the buffer adds to the document `i`.
  unfoldable pub buffered : String → Buffer F → ℕ
  buffered i [] = 0
  buffered i ((key, n) ∷ buffer) = counts_for i key n + buffered i buffer

module _ {F : Type 0} ⦃e : Eq F⦄ (py : Python F) (hash : String → String) where
  pub buffered-count_row :
      (i : String) (key : ScopeKey F) (b : Buffer F)
      → buffered py hash i (count_row key b) ≡ buffered py hash i b + counts_for py hash i key 1
  unfolding buffered count_row
  buffered-count_row i key [] = omega arith
  buffered-count_row i key ((k, n) ∷ b) = ground (
    arith,
    ==_iff k key,
    ap (λ x. registry_id py hash x) ((==_iff k key).0 _),
    buffered-count_row i key b,
  )

  pub total-count_row : (key : ScopeKey F) (b : Buffer F) → total (count_row key b) ≡ total b + 1
  unfolding total count_row
  total-count_row key [] = refl
  total-count_row key ((k, n) ∷ b) = ground (arith, total-count_row key b)

  -- A predicate of the keys that are counted is one of the keys in the buffer.
  pub All-count_row :
      (P : ScopeKey F → Type 0) (key : ScopeKey F) (b : Buffer F)
      → P key
      → All (λ x. P x.0) b
      → All (λ x. P x.0) (count_row key b)
  unfolding count_row
  All-count_row P key [] p h = (p, tt)
  All-count_row P key ((k, n) ∷ b) p h = elim (Bool-cases (k == key)) [
    | inl same ↦ rw same (h.0, h.1)
    | inr other ↦ rw other (h.0, All-count_row P key b p h.1)
  ]
