-- ===== src/Evaluation/Data/Examples.antt =====
-- berlue/evaluation/data.py on four examples of two questions, of which the first is trained on.
use berlue.Base.{
  ℕ, zero, suc, ◌≤◌, ◌≡◌, ◌≢◌, refl, true, false, List, [], ◌∷◌, length, take, All, arith,
}
use berlue.Evaluation.Data.{LabeledExample, Chance, labeled, split_train_test}
use berlue.Evaluation.Data.Split.{IsFair, count, split_train_test-IsSeparate}

-- Every draw takes the first elements.
abbrev plain : Chance
plain = record {
  sorted_set = λ qs. qs;
  train_questions = λ qs. take 1 qs;
  sample = λ k xs n. take n xs;
  shuffle = λ xs. xs;
}

All-take :
    (P : LabeledExample → Type 0) (xs : List LabeledExample) (n : ℕ) → All P xs → All P (take n xs)
All-take P xs zero h = tt
All-take P [] (suc n) h = tt
All-take P (x ∷ xs) (suc n) h = (h.0, All-take P xs n h.1)

length-take : (xs : List LabeledExample) (n : ℕ) → n ≤ length xs → length (take n xs) ≡ n
length-take xs zero h = refl
length-take [] (suc n) h = absurd (omega arith)
length-take (x ∷ xs) (suc n) h = omega (arith, length-take xs n (omega arith))

plain-IsFair : IsFair plain
plain-IsFair = record {
  sample_All = λ P k xs n h. All-take P xs n h;
  sample_length = λ k xs n h. length-take xs n h;
  shuffle_All = λ P xs h. h;
  shuffle_count = λ p xs. refl;
}

abbrev examples : List LabeledExample
examples =
    record { question = "p"; answer = "1"; ground_truth_label = true; source = "halueval" }
    ∷ record { question = "p"; answer = "2"; ground_truth_label = false; source = "halueval" }
    ∷ record { question = "p"; answer = "3"; ground_truth_label = false; source = "halueval" }
    ∷ record { question = "q"; answer = "4"; ground_truth_label = true; source = "halueval" }
    ∷ []

split_train_test-IsSeparate_example :
    let (train, test) = split_train_test plain examples in
    All (λ x. All (λ y. x.question ≢ y.question) test) train
    × (count (labeled true) train ≡ count (labeled false) train)
split_train_test-IsSeparate_example = split_train_test-IsSeparate plain plain-IsFair examples
