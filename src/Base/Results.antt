-- ===== src/Base/Results.antt =====
-- Exceptions as values. A constructor of `Error` for each class of exception that the code raises
-- or tells apart.
use Prim.Native.String.{String}
use mathlib.Core.Path.{◌≡◌, refl}
use mathlib.Core.List.{List, [], ◌∷◌, map}
use native.Mathlib.Omega.{arith}
use berlue.Base.Lists.{All}

pub data Error : Type 0 where
  value_error : String → Error
  runtime_error : String → Error
  timeout_error : String → Error
  json_decode_error : String → Error
  rag_panne : String → Error
  zero_division : Error
  other_error : String → Error

pub data Result {ℓ} (A : Type ℓ) : Type ℓ where
  ok : A → Result A
  err : Error → Result A

-- The first exception ends a chain of calls.
module _ {ℓ κ} {A : Type ℓ} {B : Type κ} where
  infixl 5 ◌>>=◌
  abbrev pub ◌>>=◌ : Result A → (A → Result B) → Result B
  err e >>= next = err e
  ok a >>= next = next a

-- `[f(x) for x in xs]` where `f` may raise: the first exception ends the loop.
module _ {ℓ κ} {A : Type ℓ} {B : Type κ} where
  unfoldable pub map_result : (A → Result B) → List A → Result (List B)
  map_result f [] = ok []
  map_result f (x ∷ xs) = do y ← f x; ys ← map_result f xs; ok (y ∷ ys)

-- The call returns and does not raise.
abbrev pub IsOk {ℓ} : {A : Type ℓ} → Result A → Type 0
IsOk (ok a) = Unit
IsOk (err e) = ⊥

pub returns {ℓ} : {A : Type ℓ} (r : Result A) → IsOk r → (a : A) × (r ≡ ok a)
returns (ok a) h = (a, refl)
returns (err e) h = absurd h

module _ {ℓ κ} {A : Type ℓ} {B : Type κ} where
  pub IsOk-bind :
      (m : Result A) (f : A → Result B) → IsOk m → ((a : A) → IsOk (f a)) → IsOk (m >>= f)
  IsOk-bind (ok a) f h k = k a
  IsOk-bind (err e) f h k = absurd h

  -- Where a chain of two calls returns, so has its first.
  pub >>=-eq-ok :
      {b : B} (m : Result A) (next : A → Result B)
      → (m >>= next) ≡ ok b
      → (a : A) × (m ≡ ok a) × (next a ≡ ok b)
  >>=-eq-ok (err e) next same = cc
  >>=-eq-ok (ok a) next same = (a, refl, same)

pub IsOk-map_result {ℓ κ} :
    {A : Type ℓ} {B : Type κ} (f : A → Result B)
    → ((a : A) → IsOk (f a))
    → (xs : List A) → IsOk (map_result f xs)
unfolding map_result
IsOk-map_result f h [] = tt
IsOk-map_result f h (x ∷ xs) =
    IsOk-bind (f x) _ (h x) (λ y. IsOk-bind (map_result f xs) _ (IsOk-map_result f h xs) (λ ys. tt))

-- What holds of the value whenever the call returns.
abbrev pub Ensures {ℓ κ} : {A : Type ℓ} → (A → Type κ) → Result A → Type κ
Ensures P (ok a) = P a
Ensures P (err e) = Unit

module _ {ℓ κ υ} {A : Type ℓ} (P : A → Type κ) (Q : A → Type υ) where
  pub Ensures-imp : ((a : A) → P a → Q a) → (r : Result A) → Ensures P r → Ensures Q r
  Ensures-imp k (ok a) h = k a h
  Ensures-imp k (err e) h = tt

module _ {ℓ κ} {A : Type ℓ} (P : A → Type κ) where
  pub Ensures-ok : (r : Result A) {a : A} → Ensures P r → r ≡ ok a → P a
  Ensures-ok r h e = rw e at h

module _ {ℓ κ υ} {A : Type ℓ} {B : Type κ} (P : B → Type υ) where
  pub Ensures-bind :
      (m : Result A) (f : A → Result B)
      → ((a : A) → m ≡ ok a → Ensures P (f a))
      → Ensures P (m >>= f)
  Ensures-bind (ok a) f k = k a refl
  Ensures-bind (err e) f k = tt

module _ {ℓ κ υ} {A : Type ℓ} {B : Type κ} (Q : B → Type υ) (f : A → Result B) where
  -- What every call ensures holds of each element of the list.
  pub All-map_result :
      ((x : A) → Ensures Q (f x)) → (xs : List A) → Ensures (All Q) (map_result f xs)
  unfolding map_result
  All-map_result h [] = tt
  All-map_result h (x ∷ xs) = Ensures-bind (All Q) (f x) _ (λ y e.
      Ensures-bind (All Q) (map_result f xs) _ (λ ys es. (
        Ensures-ok Q (f x) (h x) e,
        Ensures-ok (All Q) (map_result f xs) (All-map_result h xs) es,
      )))

module _ {ℓ κ υ} {A : Type ℓ} {B : Type κ} {C : Type υ} (f : A → Result B) (g : B → C)
    (k : A → C) where
  -- A projection that each call keeps is kept by the list, in order.
  pub map-map_result :
      ((x : A) → Ensures (λ y. g y ≡ k x) (f x))
      → (xs : List A) → Ensures (λ ys. map g ys ≡ map k xs) (map_result f xs)
  unfolding map_result
  map-map_result h [] = refl
  map-map_result h (x ∷ xs) = Ensures-bind _ (f x) _ (λ y e.
      Ensures-bind _ (map_result f xs) _ (λ ys es. cc (
        Ensures-ok (λ y. g y ≡ k x) (f x) (h x) e,
        Ensures-ok (λ ys. map g ys ≡ map k xs) (map_result f xs) (map-map_result h xs) es,
      )))

-- What is done with each value can be done with the list of the values.
pub map_result-then {ℓ κ υ} :
    {A : Type ℓ} {B : Type κ} {C : Type υ} (f : A → Result B) (g : B → C) (xs : List A)
    → map_result (λ x. f x >>= (λ y. ok (g y))) xs ≡ (map_result f xs >>= (λ ys. ok (map g ys)))
unfolding map_result
map_result-then f g [] = refl
map_result-then f g (x ∷ xs) = ground (arith, map_result-then f g xs)

pub ok-inj {ℓ} : {A : Type ℓ} {a b : A} → ok a ≡ ok b → a ≡ b
ok-inj h = cc
