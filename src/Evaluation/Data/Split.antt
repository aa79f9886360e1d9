-- ===== src/Evaluation/Data/Split.antt =====
-- berlue/evaluation/data.py: what the split gives.
use berlue.Base.{
  ℕ, suc, ◌+◌, ◌≤◌, ◌≡◌, ◌≢◌, refl, ap, sym, ◌∙◌, Bool, true, false, not, String, List, [], ◌∷◌,
  ◌++◌, map, length, select, any, All, All-imp, ◌==◌, string_eq, Bool-cases, inl, inr, arith,
}
use berlue.Evaluation.Data.{
  LabeledExample, Chance, labeled, minimum, of_source, drawn, balance_sources, balance_classes,
  in_train, split_train_test,
}

-- What the draws are documented to do: a sample of `n` elements is taken from the population, and a
-- shuffle moves elements only.
pub record IsFair (c : Chance) : Type 1 where
  pub sample_All :
      (P : LabeledExample → Type 0) (k : ℕ) (xs : List LabeledExample) (n : ℕ)
      → All P xs
      → All P (c.sample k xs n)
  pub sample_length :
      (k : ℕ) (xs : List LabeledExample) (n : ℕ) → n ≤ length xs → length (c.sample k xs n) ≡ n
  pub shuffle_All :
      (P : LabeledExample → Type 0) (xs : List LabeledExample) → All P xs → All P (c.shuffle xs)
  pub shuffle_count :
      (p : LabeledExample → Bool) (xs : List LabeledExample)
      → length (select p (c.shuffle xs)) ≡ length (select p xs)

abbrev pub count : (LabeledExample → Bool) → List LabeledExample → ℕ
count p xs = length (select p xs)

count-append :
    (p : LabeledExample → Bool) (xs ys : List LabeledExample)
    → count p (xs ++ ys) ≡ count p xs + count p ys
count-append p [] ys = omega arith
count-append p (x ∷ xs) ys = ground (arith, count-append p xs ys)

select-All :
    (p : LabeledExample → Bool) (xs : List LabeledExample) → All (λ x. p x ≡ true) (select p xs)
select-All p [] = tt
select-All p (x ∷ xs) = elim (Bool-cases (p x)) [
  | inl yes_p ↦ rw yes_p (yes_p, select-All p xs)
  | inr no_p ↦ rw no_p (select-All p xs)
]

All-select :
    (P : LabeledExample → Type 0) (p : LabeledExample → Bool) (xs : List LabeledExample)
    → All P xs
    → All P (select p xs)
All-select P p [] h = tt
All-select P p (x ∷ xs) h = elim (Bool-cases (p x)) [
  | inl yes_p ↦ rw yes_p (h.0, All-select P p xs h.1)
  | inr no_p ↦ rw no_p (All-select P p xs h.1)
]

All-append :
    (P : LabeledExample → Type 0) (xs ys : List LabeledExample)
    → All P xs
    → All P ys
    → All P (xs ++ ys)
All-append P [] ys h k = k
All-append P (x ∷ xs) ys h k = (h.0, All-append P xs ys h.1 k)

-- Where all have one label, that many have it, and none has the other.
count_labeled :
    (b : Bool) (xs : List LabeledExample)
    → All (λ x. labeled b x ≡ true) xs
    → (count (labeled b) xs ≡ length xs) × (count (labeled (not b)) xs ≡ 0)
count_labeled b [] h = (refl, refl)
count_labeled true (x ∷ xs) h = ground (arith, count_labeled true xs h.1)
count_labeled false (x ∷ xs) h = ground (arith, count_labeled false xs h.1)

module _ (c : Chance) (fair : IsFair c) where
  draw_length :
      (k : ℕ) (b : Bool) (xs : List LabeledExample) (n : ℕ)
      → All (λ x. labeled b x ≡ true) xs
      → n ≤ length xs
      → (count (labeled b) (c.sample k xs n) ≡ n) × (count (labeled (not b)) (c.sample k xs n) ≡ 0)
  draw_length k b xs n h m =
      let labels =
        count_labeled b (c.sample k xs n) (fair.sample_All (λ x. labeled b x ≡ true) k xs n h) in
      (labels.0 ∙ fair.sample_length k xs n m, labels.1)

  -- Two draws of one size, one from each label.
  draws_even :
      (k : ℕ) (ts fs : List LabeledExample) (n : ℕ)
      → All (λ x. labeled true x ≡ true) ts
      → All (λ x. labeled false x ≡ true) fs
      → n ≤ length ts
      → n ≤ length fs
      → let xs = c.sample k ts n ++ c.sample (suc k) fs n in
        count (labeled true) xs ≡ count (labeled false) xs
  draws_even k ts fs n ht hf lt lf = omega (
    arith,
    count-append (labeled true) (c.sample k ts n) (c.sample (suc k) fs n),
    count-append (labeled false) (c.sample k ts n) (c.sample (suc k) fs n),
    draw_length k true ts n ht lt,
    draw_length (suc k) false fs n hf lf,
  )

  minimum_left : (a b : ℕ) → minimum a b ≤ a
  minimum_left a b = ground arith

  minimum_right : (a b : ℕ) → minimum a b ≤ b
  minimum_right a b = ground arith

  drawn_even :
      (k : ℕ) (source : String) (xs : List LabeledExample)
      → count (labeled true) (drawn c k source xs) ≡ count (labeled false) (drawn c k source xs)
  drawn_even k source xs =
      let ts = of_source source true xs in
      let fs = of_source source false xs in
      let own = select (λ ex. ex.source == source) xs in
      draws_even k ts fs (minimum (length ts) (length fs)) (select-All (labeled true) own)
        (select-All (labeled false) own) (minimum_left (length ts) (length fs))
        (minimum_right (length ts) (length fs))

  balance_sources_even :
      (k : ℕ) (sources : List String) (xs : List LabeledExample)
      → count (labeled true) (balance_sources c k sources xs)
        ≡ count (labeled false) (balance_sources c k sources xs)
  unfolding balance_sources
  balance_sources_even k [] xs = refl
  balance_sources_even k (source ∷ sources) xs =
      let rest = balance_sources c (suc (suc k)) sources xs in
      omega (
        arith,
        count-append (labeled true) (drawn c k source xs) rest,
        count-append (labeled false) (drawn c k source xs) rest,
        drawn_even k source xs,
        balance_sources_even (suc (suc k)) sources xs,
      )

  balance_sources-All :
      (P : LabeledExample → Type 0) (k : ℕ) (sources : List String) (xs : List LabeledExample)
      → All P xs
      → All P (balance_sources c k sources xs)
  unfolding balance_sources
  balance_sources-All P k [] xs h = tt
  balance_sources-All P k (source ∷ sources) xs h =
      let own = All-select P (λ ex. ex.source == source) xs h in
      All-append P (drawn c k source xs) _
        (All-append P _ _ (fair.sample_All P k _ _ (All-select P (labeled true) _ own))
          (fair.sample_All P (suc k) _ _ (All-select P (labeled false) _ own)))
        (balance_sources-All P (suc (suc k)) sources xs h)

  abbrev asked : List LabeledExample → String → Bool
  asked examples q =
      any (λ k. k == q) (c.train_questions (c.sorted_set (map (λ e. e.question) examples)))

  asked_alike :
      (examples : List LabeledExample) (q r : String) → q ≡ r → asked examples q ≡ asked examples r
  asked_alike examples q r same = ap (asked examples) same

  abbrev untrained : List LabeledExample → List LabeledExample
  untrained examples = select (λ ex. not (in_train c examples ex)) examples

  apart :
      (examples : List LabeledExample) (x : LabeledExample)
      → in_train c examples x ≡ true
      → All (λ y. x.question ≢ y.question) (untrained examples)
  apart examples x h =
      All-imp (λ y k same. cc (asked_alike examples x.question y.question same, h, k))
        (untrained examples) (select-All (λ ex. not (in_train c examples ex)) examples)

  -- No question of the tests is asked in the training, which has as many true examples as false ones.
  pub split_train_test-IsSeparate :
      (examples : List LabeledExample)
      → let (train, test) = split_train_test c examples in
        All (λ x. All (λ y. x.question ≢ y.question) test) train
        × (count (labeled true) train ≡ count (labeled false) train)
  unfolding split_train_test balance_classes
  split_train_test-IsSeparate examples =
      let chosen = select (in_train c examples) examples in
      let sources = c.sorted_set (map (λ ex. ex.source) chosen) in
      let balanced = balance_sources c 0 sources chosen in
      (
        fair.shuffle_All (λ x. All (λ y. x.question ≢ y.question) (untrained examples)) balanced
            (balance_sources-All (λ x. All (λ y. x.question ≢ y.question) (untrained examples)) 0
              sources chosen
              (All-imp (λ x h. apart examples x h) chosen
                (select-All (in_train c examples) examples))),
        fair.shuffle_count (labeled true) balanced
            ∙ balance_sources_even 0 sources chosen
            ∙ sym (fair.shuffle_count (labeled false) balanced),
      )
