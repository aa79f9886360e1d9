-- ===== src/Evaluation/Gcp/Slices.antt =====
-- The slices of `delete_matching`: together they hold every name.
use berlue.Base.{
  ℕ, zero, suc, ◌≤◌, ◌≡◌, refl, sym, ap, ◌∙◌, Bool, true, none, List, [], ◌∷◌, map, arith, any,
  take, drop, length, ◌==◌, string_eq, if◌then◌else◌,
}
use berlue.Evaluation.Gcp.{Name}
use berlue.Evaluation.Gcp.Rest.{slices}
use berlue.Evaluation.Gcp.Firestore.{Docs, remove_docs, name_eq}

module _ {A : Type 0} (p : A → Bool) where
  any-take-drop :
      (n : ℕ) (xs : List A) → any p xs ≡ (if any p (take n xs) then true else any p (drop n xs))
  any-take-drop zero xs = refl
  any-take-drop (suc n) [] = refl
  any-take-drop (suc n) (x ∷ xs) = ground (arith, any-take-drop n xs)

length-drop-le : {A : Type 0} (n : ℕ) (xs : List A) → length (drop n xs) ≤ length xs
length-drop-le zero xs = omega arith
length-drop-le (suc n) [] = omega arith
length-drop-le (suc n) (x ∷ xs) = omega (arith, length-drop-le n xs)

-- Every element is in one of the slices.
pub any-slices :
    {A : Type 0} (p : A → Bool) (rounds size : ℕ) (xs : List A)
    → length xs ≤ rounds
    → any (any p) (slices rounds (suc size) xs) ≡ any p xs
unfolding slices
any-slices p rounds size [] h = refl
any-slices p zero size (x ∷ xs) h = absurd (omega arith)
any-slices p (suc rounds) size (x ∷ xs) h =
    ap (λ b. if any p (x ∷ take size xs) then true else b)
      (any-slices p rounds size (drop size xs) (omega (arith, length-drop-le size xs)))
    ∙ sym (any-take-drop p (suc size) (x ∷ xs))

module _ {A : Type 0} where
  -- The documents after the slices are deleted in turn.
  unfoldable pub removed : List (List Name) → Docs A → Docs A
  removed [] d = d
  removed (c ∷ cs) d = removed cs (remove_docs c d)

  pub removed_lem :
      (cs : List (List Name)) (d : Docs A) (m : Name)
      → removed cs d m ≡ (if any (any (λ n. n == m)) cs then none else d m)
  unfolding removed
  removed_lem [] d m = refl
  removed_lem (c ∷ cs) d m = removed_lem cs (remove_docs c d) m ∙ (ground arith)

pub any-map :
    {A B : Type 0} (p : B → Bool) (f : A → B) (xs : List A)
    → any p (map f xs) ≡ any (λ x. p (f x)) xs
any-map p f [] = refl
any-map p f (x ∷ xs) = ap (λ b. if p (f x) then true else b) (any-map p f xs)
