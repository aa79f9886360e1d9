-- ===== src/Evaluation/Data.antt =====
-- berlue/evaluation/data.py: the examples are split by question into those for training, balanced, and
-- those for the tests. The sorting of a set, scikit-learn's choice of the questions and the random
-- draws are parameters; the download and the loading of the datasets are left out.
pub mod Split
mod Examples
use berlue.Base.{
  ℕ, suc, ◌+◌, ◌≤◌, ◌≡◌, ◌≢◌, refl, ap, sym, ◌∙◌, Bool, true, false, not, String, List, [], ◌∷◌,
  ◌++◌, map, length, length-append, select, any, All, All-imp, ◌==◌, string_eq, ltb, if◌then◌else◌,
  Bool-cases, inl, inr, arith,
}

pub record LabeledExample : Type 0 where
  pub question : String
  pub answer : String
  pub ground_truth_label : Bool
  pub source : String

-- `sorted(set(...))`, `train_test_split` and the methods of `random.Random(seed)`, of which the draws
-- are numbered.
pub record Chance : Type 0 where
  pub sorted_set : List String → List String
  pub train_questions : List String → List String
  pub sample : ℕ → List LabeledExample → ℕ → List LabeledExample
  pub shuffle : List LabeledExample → List LabeledExample

abbrev pub labeled : Bool → LabeledExample → Bool
labeled b ex = if b then ex.ground_truth_label else not ex.ground_truth_label

abbrev pub minimum : ℕ → ℕ → ℕ
minimum a b = if ltb b a then b else a

abbrev pub of_source : String → Bool → List LabeledExample → List LabeledExample
of_source source b examples = select (labeled b) (select (λ ex. ex.source == source) examples)

module _ (c : Chance) where
  abbrev pub drawn : ℕ → String → List LabeledExample → List LabeledExample
  drawn k source examples =
      let n =
        minimum (length (of_source source true examples))
          (length (of_source source false examples)) in
      c.sample k (of_source source true examples) n
      ++ c.sample (suc k) (of_source source false examples) n

  unfoldable pub balance_sources : ℕ → List String → List LabeledExample → List LabeledExample
  balance_sources k [] examples = []
  balance_sources k (source ∷ sources) examples =
      drawn k source examples ++ balance_sources (suc (suc k)) sources examples

  unfoldable pub balance_classes : List LabeledExample → List LabeledExample
  balance_classes examples =
      c.shuffle (balance_sources 0 (c.sorted_set (map (λ ex. ex.source) examples)) examples)

  abbrev pub in_train : List LabeledExample → LabeledExample → Bool
  in_train examples ex =
      any (λ q. q == ex.question)
        (c.train_questions (c.sorted_set (map (λ e. e.question) examples)))

  unfoldable pub split_train_test : List LabeledExample → List LabeledExample × List LabeledExample
  split_train_test examples = (
    balance_classes (select (in_train examples) examples),
    select (λ ex. not (in_train examples ex)) examples,
  )
