-- ===== src/Base/Act.antt =====
-- Methods that change the state of an object and may raise: what was changed before the exception
-- stays changed.
use mathlib.Core.Path.{◌≡◌, refl}
use mathlib.Core.List.{List, [], ◌∷◌}
use berlue.Base.Results.{Error, Result, ok, err}

abbrev pub Act : Type 0 → Type 0 → Type 0
Act S A = S → S × Result A

module _ {S : Type 0} where
  abbrev pub pure : {A : Type 0} → A → Act S A
  pure a s = (s, ok a)

  abbrev pub raise : {A : Type 0} → Error → Act S A
  raise e s = (s, err e)

  abbrev pub lift : {A : Type 0} → Result A → Act S A
  lift r s = (s, r)

  abbrev pub gets : {A : Type 0} → (S → A) → Act S A
  gets f s = (s, ok (f s))

  abbrev pub modify : (S → S) → Act S (Unit {0})
  modify f s = (f s, ok tt)

module _ {S A B : Type 0} where
  abbrev pub continue : S × Result A → (A → Act S B) → S × Result B
  continue (s, ok a) next = next a s
  continue (s, err e) next = (s, err e)

  infixl 5 ◌>>=◌
  abbrev pub ◌>>=◌ : Act S A → (A → Act S B) → Act S B
  ◌>>=◌ m next s = continue (m s) next

module _ {S B : Type 0} where
  infixl 5 ◌>>◌
  abbrev pub ◌>>◌ : Act S (Unit {0}) → Act S B → Act S B
  m >> next = m >>= λ _. next

-- `for x in xs`
module _ {S A : Type 0} where
  unfoldable pub for_each : List A → (A → Act S (Unit {0})) → Act S (Unit {0})
  for_each [] body = pure tt
  for_each (x ∷ xs) body = let rest = for_each xs body in body x >>= (λ _. rest)

-- The call returns, in a state and with a value for which `Q` holds.
module _ {S A : Type 0} where
  pub record Runs (m : Act S A) (s : S) (Q : S → A → Type 0) : Type 0 where
    pub after : S
    pub value : A
    pub returned : m s ≡ (after, ok value)
    pub holds : Q after value

  pub Runs-pure : (a : A) (s : S) (Q : S → A → Type 0) → Q s a → Runs (pure a) s Q
  Runs-pure a s Q h = record { after = s; value = a; returned = refl; holds = h }

  pub Runs-imp :
      {P Q : S → A → Type 0} (m : Act S A) (s : S)
      → Runs m s P
      → ((s' : S) (a : A) → P s' a → Q s' a)
      → Runs m s Q
  Runs-imp m s r k = record {
    after = r.after;
    value = r.value;
    returned = r.returned;
    holds = k r.after r.value r.holds;
  }

module _ {S A B : Type 0} where
  pub Runs-bind :
      {P : S → A → Type 0} {Q : S → B → Type 0} (m : Act S A) (next : A → Act S B) (s : S)
      → Runs m s P
      → ((s' : S) (a : A) → P s' a → Runs (next a) s' Q)
      → Runs (m >>= next) s Q
  Runs-bind m next s r k =
      let rest = k r.after r.value r.holds in
      record {
        after = rest.after;
        value = rest.value;
        returned = rw r.returned rest.returned;
        holds = rest.holds;
      }
