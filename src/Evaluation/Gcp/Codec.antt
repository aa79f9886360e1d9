-- ===== src/Evaluation/Gcp/Codec.antt =====
-- The values of a document: what is written is read back.
use berlue.Base.{ℕ, ◌≡◌, refl, [], ◌∷◌, ok, map_result, All}
use berlue.Evaluation.Gcp.{
  Plain, bool, int, float, str, absent, Dict, Python, to_value, to_fields, from_value, int_value,
}
use berlue.Evaluation.Gcp.Rest.{with_key, from_fields}

-- `int(str(n))` is `n`.
pub record IsPython {F : Type 0} (py : Python F) : Type 0 where
  pub int_str : (n : ℕ) → py.int_of (py.str_int n) ≡ ok n

-- `None` is stored as a text.
abbrev pub IsPresent : {F : Type 0} → Plain F → Type 0
IsPresent absent = ⊥
IsPresent _ = Unit

abbrev pub IsStorable : {F : Type 0} → Dict F → Type 0
IsStorable d = All (λ f. IsPresent f.1) d

module _ {F : Type 0} (py : Python F) (laws : IsPython py) where
  from_value-to_value : (v : Plain F) → IsPresent v → from_value py (to_value py v) ≡ ok v
  unfolding from_value to_value
  from_value-to_value (bool b) h = refl
  from_value-to_value (int n) h = rw (laws.int_str n, int_value)
  from_value-to_value (float x) h = refl
  from_value-to_value (str s) h = refl
  from_value-to_value absent h = absurd h

  -- A dictionary without None that is written to a document is read back as it was.
  pub from_fields-to_fields : (d : Dict F) → IsStorable d → from_fields py (to_fields py d) ≡ ok d
  unfolding from_fields to_fields map_result
  from_fields-to_fields [] h = refl
  from_fields-to_fields ((k, v) ∷ d) h =
      rw (from_value-to_value v h.0, with_key) (rw (from_fields-to_fields d h.1))
