-- ===== src/Base/Json.antt =====
-- The values that Python's `json` gives, and texts as lists of code points where the code walks
-- through them.
use Prim.Native.Nat.{ℕ, zero, suc}
use Prim.Native.String.{String}
use Prim.Native.Char.{code}
use mathlib.Core.Bool.{Bool, false}
use mathlib.Core.Option.{Option, none, some}
use mathlib.Core.List.{List, [], ◌∷◌}
use berlue.Base.Tests.{◌==◌, string_eq, if◌then◌else◌}

abbrev pub codes : String → List ℕ
codes String.[] = []
codes (String.◌∷◌ c s) = code c ∷ codes s

-- `negsuc n` is -(n + 1).
pub data ℤ : Type 0 where
  pos : ℕ → ℤ
  negsuc : ℕ → ℤ

mutual
  pub data Json (F : Type 0) : Type 0 where
    null : Json F
    bool : Bool → Json F
    int : ℤ → Json F
    float : F → Json F
    text : String → Json F
    arr : Items F → Json F
    obj : Fields F → Json F

  pub data Items (F : Type 0) : Type 0 where
    nil : Items F
    cons : Json F → Items F → Items F

  pub data Fields (F : Type 0) : Type 0 where
    end : Fields F
    field : String → Json F → Fields F → Fields F

module _ {F : Type 0} where
  -- `d.get(key)`: the decoder keeps the last of several values of one key.
  unfoldable pub get_field : String → Fields F → Option (Json F)
  get_field k end = none
  get_field k (field j v fs) = elim (get_field k fs) [
    | some w ↦ some w
    | none ↦ if j == k then some v else none
  ]

  -- `xs[n]`
  abbrev pub item_at : ℕ → Items F → Option (Json F)
  item_at n nil = none
  item_at zero (cons v vs) = some v
  item_at (suc n) (cons v vs) = item_at n vs

  -- `isinstance(v, str)` with the text.
  abbrev pub as_text : Json F → Option String
  as_text (text s) = some s
  as_text _ = none

  -- `v == s` for a text `s`.
  abbrev pub is_text : String → Json F → Bool
  is_text s (text t) = t == s
  is_text s _ = false

-- `s.rstrip(...)`: without the characters of a class at the end.
unfoldable pub rstrip : (ℕ → Bool) → List ℕ → List ℕ
rstrip p [] = []
rstrip p (c ∷ s) =
    let rest = rstrip p s in elim rest [ [] ↦ if p c then [] else c ∷ [] | ◌∷◌ a b ↦ c ∷ a ∷ b ]
