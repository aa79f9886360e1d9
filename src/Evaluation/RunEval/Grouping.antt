-- ===== src/Evaluation/RunEval/Grouping.antt =====
-- `group_examples_by_question` of berlue/evaluation/run_eval.py: the reference answers of each
-- question. A dictionary is the list of its entries in the order of insertion.
use berlue.Base.{
  ◌≡◌, refl, sym, ◌∙◌, Bool, true, false, not, ◌&&◌, String, Option, none, some, List, [], ◌∷◌,
  ◌++◌, map, any, select, ◌==◌, string_eq, ==_iff, ==_refl, arith, if◌then◌else◌, Bool-cases, inl,
  inr,
}
use mathlib.Core.List.{append_assoc, append-nil}
use berlue.Evaluation.RunEval.{Example}

pub record References : Type 0 where
  pub correct_answers : List String
  pub incorrect_answers : List String

abbrev pub Grouped : Type 0
Grouped = List (String × References)

abbrev pub no_answers : References
no_answers = record { correct_answers = []; incorrect_answers = [] }

-- `entry[key].append(ex["answer"])`
abbrev pub append_answer : Bool → String → References → References
append_answer true answer r = record r { correct_answers = r.correct_answers ++ (answer ∷ []) }
append_answer false answer r = record r { incorrect_answers = r.incorrect_answers ++ (answer ∷ []) }

-- The body of the loop: `setdefault`, then the append.
unfoldable pub add_example : Example → Grouped → Grouped
add_example ex [] = (ex.question, append_answer ex.ground_truth_label ex.answer no_answers) ∷ []
add_example ex ((q, r) ∷ g) =
    let rest = add_example ex g in
    if q == ex.question
    then (q, append_answer ex.ground_truth_label ex.answer r) ∷ g
    else (q, r) ∷ rest

unfoldable pub group_from : Grouped → List Example → Grouped
group_from g [] = g
group_from g (ex ∷ xs) = group_from (add_example ex g) xs

abbrev pub group_examples_by_question : List Example → Grouped
group_examples_by_question test_examples = group_from [] test_examples

-- `grouped.get(question)`
unfoldable pub lookup : String → Grouped → Option References
lookup q [] = none
lookup q ((k, r) ∷ g) = let rest = lookup q g in if k == q then some r else rest

-- The answers to a question that bear a label, in the order of the examples.
abbrev pub answers : Bool → String → List Example → List String
answers true q xs =
    map (λ ex. ex.answer) (select (λ ex. ex.question == q && ex.ground_truth_label) xs)
answers false q xs =
    map (λ ex. ex.answer) (select (λ ex. ex.question == q && not ex.ground_truth_label) xs)

abbrev or_none : Option References → References
or_none none = no_answers
or_none (some r) = r

abbrev extended : References → String → List Example → References
extended r q xs = record {
  correct_answers = r.correct_answers ++ answers true q xs;
  incorrect_answers = r.incorrect_answers ++ answers false q xs;
}

abbrev joined : Option References → String → List Example → Option References
joined none q xs =
    let there : Option References = some (extended no_answers q xs) in
    if any (λ ex. ex.question == q) xs then there else none
joined (some r) q xs = some (extended r q xs)

lookup-add_self :
    (ex : Example) (g : Grouped)
    → lookup ex.question (add_example ex g)
      ≡ some (append_answer ex.ground_truth_label ex.answer (or_none (lookup ex.question g)))
unfolding lookup add_example
lookup-add_self ex [] = ground (arith, ==_iff ex.question ex.question)
lookup-add_self ex ((k, r) ∷ g) = ground (arith, lookup-add_self ex g, ==_iff k ex.question)

lookup-add_ne :
    (ex : Example) (q : String) (g : Grouped)
    → (ex.question == q) ≡ false
    → lookup q (add_example ex g) ≡ lookup q g
unfolding lookup add_example
lookup-add_ne ex q [] h = rw h refl
lookup-add_ne ex q ((k, r) ∷ g) h =
    ground (arith, lookup-add_ne ex q g h, ==_iff k ex.question, ==_iff k q, ==_iff ex.question q)

joined_self :
    (b : Bool) (a : String) (o : Option References) (q : String) (xs : List Example)
    → joined (some (append_answer b a (or_none o))) q xs
      ≡ joined o q (record { question = q; answer = a; ground_truth_label = b } ∷ xs)
joined_self true a none q xs = simp (==_refl {A = String})
joined_self false a none q xs = simp (==_refl {A = String})
joined_self true a (some r) q xs = simp (==_refl {A = String}, append_assoc)
joined_self false a (some r) q xs = simp (==_refl {A = String}, append_assoc)

joined_ne :
    (ex : Example) (o : Option References) (q : String) (xs : List Example)
    → (ex.question == q) ≡ false
    → joined o q (ex ∷ xs) ≡ joined o q xs
joined_ne ex none q xs h = simp (h)
joined_ne ex (some r) q xs h = simp (h)

joined_nil : (o : Option References) (q : String) → joined o q [] ≡ o
joined_nil none q = refl
joined_nil (some r) q = simp (append-nil)

lookup-group_from :
    (g : Grouped) (xs : List Example) (q : String)
    → lookup q (group_from g xs) ≡ joined (lookup q g) q xs
unfolding group_from
lookup-group_from g [] q = sym (joined_nil (lookup q g) q)
lookup-group_from g (ex ∷ xs) q = elim (Bool-cases (ex.question == q)) [
  | inl same ↦
      let here : ex.question ≡ q = (==_iff ex.question q).0 same in
      lookup-group_from (add_example ex g) xs q
      ∙ rw (← here) (
          rw (lookup-add_self ex g)
            (joined_self ex.ground_truth_label ex.answer (lookup ex.question g) ex.question xs))
  | inr other ↦
      lookup-group_from (add_example ex g) xs q
      ∙ rw (lookup-add_ne ex q g other) (sym (joined_ne ex (lookup q g) q xs other))
]

-- A question has an entry exactly where an example asks it, and the entry holds the answers to it in
-- the order of the examples, those labelled true apart from those labelled false.
pub lookup-group_examples_by_question :
    (q : String) (test_examples : List Example)
    → lookup q (group_examples_by_question test_examples) ≡ (
        if any (λ ex. ex.question == q) test_examples
        then some (record {
          correct_answers = answers true q test_examples;
          incorrect_answers = answers false q test_examples;
        })
        else none)
unfolding lookup
lookup-group_examples_by_question q test_examples = lookup-group_from [] test_examples q
