-- ===== src/Pipeline/Extraction/Ids.antt =====
-- berlue/pipeline/extraction.py: the ids, which pair an affirmation with its verdicts.
use berlue.Base.{
  ℕ, zero, suc, ◌≤◌, ◌≡◌, ◌≢◌, refl, sym, ◌∙◌, true, String, Option, none, some, List, [], ◌∷◌,
  ◌++◌, Result, ok, err, json_decode_error, Ensures, Ensures-bind, All, All-imp, Bool-cases, inl,
  inr, ◌==◌, ==_iff, string_eq, if◌then◌else◌, arith, get_elem?,
}
use mathlib.Core.Path.{subst}
use berlue.Base.Json.{Json, text, arr, Items, nil, cons, codes}
use berlue.Core.Schemas.{Claim}
use berlue.Pipeline.Extraction.{
  Tools, first, message, claim_id, claims_from, or_no_claims, parse_array, search_array,
  do_extraction,
}

some-inj : {A : Type 0} {a b : A} → some a ≡ some b → a ≡ b
some-inj h = cc

-- Two texts that go on with a NUL are equal up to the first of them.
cut_equal :
    (xs ys s t : List ℕ)
    → All (λ c. c ≢ 0) xs
    → All (λ c. c ≢ 0) ys
    → (xs ++ (0 ∷ s)) ≡ (ys ++ (0 ∷ t))
    → xs ≡ ys
cut_equal [] [] s t h k e = refl
cut_equal [] (y ∷ ys) s t h k e = absurd (k.0 (cc e))
cut_equal (x ∷ xs) [] s t h k e = absurd (h.0 (cc e))
cut_equal (x ∷ xs) (y ∷ ys) s t h k e = cc (cut_equal xs ys s t h.1 k.1 (cc e))

-- No later element has the id of an earlier one.
abbrev pub AreDistinct : List Claim → Type 0
AreDistinct [] = Unit
AreDistinct (x ∷ xs) = All (λ y. y.id ≢ x.id) xs × AreDistinct xs

-- What is true of the digits of numbers.
pub record IsDecimal {F : Type 0} (t : Tools F) : Type 0 where
  pub digits_inj : (m n : ℕ) → t.digits m ≡ t.digits n → m ≡ n
  pub digits_no_nul : (n : ℕ) → All (λ c. c ≢ 0) (t.digits n)

append_cancel : (xs s t : List ℕ) → (xs ++ s) ≡ (xs ++ t) → s ≡ t
append_cancel [] s t e = e
append_cancel (x ∷ xs) s t e = append_cancel xs s t (cc e)

-- The pair is one of the list.
abbrev IsIn : {A : Type 0} → List A → A → Type 0
IsIn xs x = (n : ℕ) × (get_elem? xs n ≡ some x)

each-IsIn : {A : Type 0} (xs : List A) → All (IsIn xs) xs
each-IsIn [] = tt
each-IsIn (x ∷ xs) = ((0, refl), All-imp (λ y h. (suc h.0, h.1)) xs (each-IsIn xs))

All-IsIn : {A : Type 0} (P : A → Type 0) (xs : List A) (x : A) → All P xs → IsIn xs x → P x
All-IsIn P [] x h (n, e) = cc e
All-IsIn P (y ∷ ys) x h (zero, e) = subst P (some-inj e) h.0
All-IsIn P (y ∷ ys) x h (suc n, e) = All-IsIn P ys x h.1 (n, e)

module _ {F : Type 0} (t : Tools F) (answer : String) where
  -- The rank and the text of the elements that get an id: the texts that are not blank.
  abbrev pub asked : ℕ → Items F → List (ℕ × String)
  asked n nil = []
  asked n (cons (text s) vs) =
      if t.strip s == "" then asked (suc n) vs else (n, t.strip s) ∷ asked (suc n) vs
  asked n (cons _ vs) = asked (suc n) vs

  -- Two of these elements whose digests begin with the same 16 digits are hashed from one text.
  abbrev pub AreSeparate : List (ℕ × String) → Type 0
  AreSeparate xs =
      All
        (λ x.
          All
            (λ y.
              first 16 (t.hexdigest (message t answer x.0 x.1))
                ≡ first 16 (t.hexdigest (message t answer y.0 y.1))
              → message t answer x.0 x.1 ≡ message t answer y.0 y.1)
            xs)
        xs

module _ {F : Type 0} (t : Tools F) (answer : String) (g : IsDecimal t) where
  message-rank : (m n : ℕ) (s u : String) → message t answer m s ≡ message t answer n u → m ≡ n
  message-rank m n s u e =
      let same = append_cancel (codes answer) _ _ e in
      g.digits_inj m n (
        cut_equal (t.digits m) (t.digits n) (codes s) (codes u) (g.digits_no_nul m)
          (g.digits_no_nul n) (cc same))

  module _ (all : List (ℕ × String)) (separate : AreSeparate t answer all) where
    claim_id-rank :
        (m n : ℕ) (s u : String)
        → IsIn all (m, s)
        → IsIn all (n, u)
        → claim_id t answer m s ≡ claim_id t answer n u
        → m ≡ n
    unfolding claim_id
    claim_id-rank m n s u i j e =
        message-rank m n s u (All-IsIn _ all (n, u) (All-IsIn _ all (m, s) separate i) j e)

    -- The id is that of a rank at or above `n`.
    abbrev pub IsFrom : ℕ → Claim → Type 0
    IsFrom n k = (m : ℕ) × (u : String) × IsIn all (m, u) × (n ≤ m) × (k.id ≡ claim_id t answer m u)

    -- The claims that a part of the elements gives.
    abbrev pub IsPart : ℕ → List Claim → Type 0
    IsPart n ks =
        All (IsFrom n) ks
        × AreDistinct ks
        × All (λ k. (k.text ≢ "") × (k.source_answer ≡ answer)) ks

    IsFrom-ne :
        (n : ℕ) (s : String)
        → IsIn all (n, s)
        → (y : Claim) → IsFrom (suc n) y
        → y.id ≢ claim_id t answer n s
    IsFrom-ne n s i y (m, u, j, later, e) same =
        omega (arith, claim_id-rank m n u s j i (sym e ∙ same), later)

    All-IsFrom : (n : ℕ) (ks : List Claim) → All (IsFrom (suc n)) ks → All (IsFrom n) ks
    All-IsFrom n ks later = All-imp (λ y h. (h.0, h.1, h.2, omega (arith, h.3), h.4)) ks later

    claims_from-IsPart :
        (n : ℕ) (vs : Items F)
        → All (IsIn all) (asked t answer n vs)
        → IsPart n (claims_from t answer n vs)
    unfolding claims_from
    claims_from-IsPart n nil h = (tt, tt, tt)
    claims_from-IsPart n (cons (text s) vs) h = elim (Bool-cases (t.strip s == "")) [
      | inl blank ↦
          let (later, distinct, texts) = claims_from-IsPart (suc n) vs (rw blank at h) in
          rw blank (All-IsFrom n (claims_from t answer (suc n) vs) later, distinct, texts)
      | inr full ↦
          let here : IsIn all (n, t.strip s) × All (IsIn all) (asked t answer (suc n) vs) =
            rw full at h in
          let ks = claims_from t answer (suc n) vs in
          let (later, distinct, texts) = claims_from-IsPart (suc n) vs here.1 in
          rw full (
            ((n, t.strip s, here.0, omega arith, refl), All-IsFrom n ks later),
            (All-imp (IsFrom-ne n (t.strip s) here.0) ks later, distinct),
            (((λ x. cc (full, (==_iff (t.strip s) "").1 x)), refl), texts),
          )
    ]
    claims_from-IsPart n (cons _ vs) h =
        let (later, distinct, texts) = claims_from-IsPart (suc n) vs h in
        (All-IsFrom n (claims_from t answer (suc n) vs) later, distinct, texts)

  -- The claims of an extraction.
  abbrev pub AreClaims : List Claim → Type 0
  AreClaims ks = AreDistinct ks × All (λ k. (k.text ≢ "") × (k.source_answer ≡ answer)) ks

  or_no_claims-AreClaims :
      (r : Result (Json F))
      → ((vs : Items F) → r ≡ ok (arr vs) → AreSeparate t answer (asked t answer 0 vs))
      → Ensures AreClaims (or_no_claims t answer r)
  or_no_claims-AreClaims (ok (arr vs)) separate =
      let h =
        claims_from-IsPart (asked t answer 0 vs) (separate vs refl) 0 vs
          (each-IsIn (asked t answer 0 vs)) in
      (h.1, h.2)
  or_no_claims-AreClaims (ok _) separate = (tt, tt)
  or_no_claims-AreClaims (err (json_decode_error e)) separate = (tt, tt)
  or_no_claims-AreClaims (err e) separate = tt

  parse_array-AreClaims :
      (o : Option (List ℕ))
      → ((array : List ℕ) (vs : Items F)
          → o ≡ some array
          → t.loads array ≡ ok (arr vs)
          → AreSeparate t answer (asked t answer 0 vs))
      → Ensures AreClaims (parse_array t answer o)
  parse_array-AreClaims none separate = (tt, tt)
  parse_array-AreClaims (some array) separate =
      or_no_claims-AreClaims (t.loads array) (λ vs e. separate array vs refl e)

  -- Where no two texts that this extraction hashes, one for each element with its rank, share the
  -- first 16 digits of their digest, no two affirmations of the answer have one id; and none of them
  -- is empty, and each keeps the answer that it comes from.
  pub do_extraction-AreClaims :
      (generate : String → String → Result String) (question : String)
      → ((raw : String) (array : List ℕ) (vs : Items F)
          → generate question answer ≡ ok raw
          → search_array (codes raw) ≡ some array
          → t.loads array ≡ ok (arr vs)
          → AreSeparate t answer (asked t answer 0 vs))
      → Ensures AreClaims (do_extraction t generate question answer)
  unfolding do_extraction
  do_extraction-AreClaims generate question separate =
      elim (Bool-cases (if answer == "" then true else t.strip answer == "")) [
        | inl blank ↦ rw blank (tt, tt)
        | inr full ↦ rw full (
            Ensures-bind AreClaims (generate question answer) _ (λ raw e.
              parse_array-AreClaims (search_array (codes raw))
                (λ array vs found loaded. separate raw array vs e found loaded)))
      ]
