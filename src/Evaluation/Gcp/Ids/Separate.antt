-- ===== src/Evaluation/Gcp/Ids/Separate.antt =====
-- When two keys have one document: never if their parts hold no `|`, and sometimes if they do.
use Prim.Native.Char.{Char, code}
use text.Mathlib.TextLemmas.{nil-append, cons-append, cons-eq-cons, append_assoc}
use berlue.Base.{
  ◌≡◌, refl, sym, ap, ◌∙◌, false, String, ◌<>◌, List, [], ◌∷◌, Eq, arith, All, ◌==◌, nat_eq, length,
}
use berlue.Evaluation.Store.{EvalScope}
use berlue.Evaluation.Gcp.{Python, Google, Name}
use berlue.Evaluation.Gcp.Ids.{join_bar, doc_id}
use berlue.Evaluation.Gcp.Results.{prediction_name}

abbrev pub HasNoBar : String → Type 0
HasNoBar String.[] = Unit
HasNoBar (String.◌∷◌ c s) = ((code c == b'|') ≡ false) × HasNoBar s

bar : Char
bar = "|"

-- Where a text without `|` stands before a `|`, the first `|` is that one.
split_bar :
    (s t r r' : String)
    → HasNoBar s
    → HasNoBar t
    → s <> (String.◌∷◌ bar r) ≡ t <> (String.◌∷◌ bar r')
    → (s ≡ t) × (r ≡ r')
unfolding bar
split_bar String.[] String.[] r r' h k e =
    (refl, (cons-eq-cons.0 (sym (nil-append _) ∙ e ∙ nil-append _)).1)
split_bar String.[] (String.◌∷◌ c t) r r' h k e =
    let heads = (cons-eq-cons.0 (sym (nil-append _) ∙ e ∙ cons-append c t _)).0 in
    absurd (cc (k.0, ap (λ x. code x == b'|') heads))
split_bar (String.◌∷◌ c s) String.[] r r' h k e =
    let heads = (cons-eq-cons.0 (sym (cons-append c s _) ∙ e ∙ nil-append _)).0 in
    absurd (cc (h.0, ap (λ x. code x == b'|') heads))
split_bar (String.◌∷◌ c s) (String.◌∷◌ d t) r r' h k e =
    let same = cons-eq-cons.0 (sym (cons-append c s _) ∙ e ∙ cons-append d t _) in
    let rest = split_bar s t r r' h.1 k.1 same.1 in (cons-eq-cons.1 (same.0, rest.0), rest.1)

bar-append : (s : String) → "|" <> s ≡ String.◌∷◌ bar s
unfolding bar
bar-append s = cons-append _ _ s ∙ ap (λ z. String.◌∷◌ bar z) (nil-append s)

-- Joined texts without `|` are told apart.
join_bar-inj :
    (xs ys : List String)
    → length xs ≡ length ys
    → All HasNoBar xs
    → All HasNoBar ys
    → join_bar xs ≡ join_bar ys
    → xs ≡ ys
unfolding join_bar
join_bar-inj [] [] n h k e = refl
join_bar-inj [] (y ∷ ys) n h k e = absurd (omega (arith, n))
join_bar-inj (x ∷ xs) [] n h k e = absurd (omega (arith, n))
join_bar-inj (x ∷ []) (y ∷ []) n h k e = ap (λ z. z ∷ []) e
join_bar-inj (x ∷ []) (y ∷ y' ∷ ys) n h k e = absurd (omega (arith, n))
join_bar-inj (x ∷ x' ∷ xs) (y ∷ []) n h k e = absurd (omega (arith, n))
join_bar-inj (x ∷ x' ∷ xs) (y ∷ y' ∷ ys) n h k e =
    let parts =
      split_bar x y (join_bar (x' ∷ xs)) (join_bar (y' ∷ ys)) h.0 k.0
        (ap (λ z. x <> z) (sym (bar-append _)) ∙ e ∙ ap (λ z. y <> z) (bar-append _)) in
    let rest = join_bar-inj (x' ∷ xs) (y' ∷ ys) (omega (arith, n)) h.1 k.1 parts.1 in
    cc (parts.0, rest)

-- The parts of the key of a prediction, as texts without `|`.
pub record IsClean {F : Type 0} (py : Python F) (hash : String → String) (c : EvalScope F)
    (q a : String) : Type 0 where
  pub dataset : HasNoBar c.dataset
  pub ratio : HasNoBar (py.str_float c.ratio)
  pub model_id : HasNoBar c.model_id
  pub pipeline_version : HasNoBar c.pipeline_version
  pub eval_version : HasNoBar c.eval_version
  pub question_hash : HasNoBar (hash q)
  pub answer_hash : HasNoBar (hash a)

-- What two predictions have in common that are one.
pub record SamePrediction {F : Type 0} (c c' : EvalScope F) (q a q' a' : String) : Type 0 where
  pub dataset : c.dataset ≡ c'.dataset
  pub ratio : c.ratio ≡ c'.ratio
  pub model_id : c.model_id ≡ c'.model_id
  pub pipeline_version : c.pipeline_version ≡ c'.pipeline_version
  pub eval_version : c.eval_version ≡ c'.eval_version
  pub question : q ≡ q'
  pub answer : a ≡ a'

module _ {F W : Type 0} ⦃e : Eq F⦄ (py : Python F) (hash : String → String) (g : Google F W)
    (isoformat : W → String) where
  abbrev parts : EvalScope F → String → String → List String
  parts c q a =
      c.dataset
      ∷ py.str_float c.ratio
      ∷ c.model_id
      ∷ c.pipeline_version
      ∷ c.eval_version
      ∷ hash q
      ∷ hash a
      ∷ []

  all_clean : (c : EvalScope F) (q a : String) → IsClean py hash c q a → All HasNoBar (parts c q a)
  all_clean c q a h = (
    h.dataset,
    (
      h.ratio,
      (h.model_id, (h.pipeline_version, (h.eval_version, (h.question_hash, (h.answer_hash, tt))))),
    ),
  )

  same_parts :
      (c c' : EvalScope F) (q a q' a' : String)
      → ((x y : F) → py.str_float x ≡ py.str_float y → x ≡ y)
      → ((x y : String) → hash x ≡ hash y → x ≡ y)
      → parts c q a ≡ parts c' q' a'
      → SamePrediction c c' q a q' a'
  same_parts c c' q a q' a' float_inj hash_inj h = record {
    dataset = cc;
    ratio = float_inj c.ratio c'.ratio (cc);
    model_id = cc;
    pipeline_version = cc;
    eval_version = cc;
    question = hash_inj q q' (cc);
    answer = hash_inj a a' (cc);
  }

  -- Where the parts of two keys hold no `|`, and neither the digest nor the printed ratio takes one
  -- value twice, one document stands for one prediction.
  pub prediction_name-inj :
      (c c' : EvalScope F) (q a q' a' : String)
      → ((x y : F) → py.str_float x ≡ py.str_float y → x ≡ y)
      → ((x y : String) → hash x ≡ hash y → x ≡ y)
      → IsClean py hash c q a
      → IsClean py hash c' q' a'
      → prediction_name py hash g isoformat c q a ≡ prediction_name py hash g isoformat c' q' a'
      → SamePrediction c c' q a q' a'
  unfolding doc_id
  prediction_name-inj c c' q a q' a' float_inj hash_inj h k same =
      same_parts c c' q a q' a' float_inj hash_inj (
        join_bar-inj (parts c q a) (parts c' q' a') refl (all_clean c q a h) (all_clean c' q' a' k)
          (hash_inj (join_bar (parts c q a)) (join_bar (parts c' q' a'))
            (ap (λ (n : Name). n.doc_id) same)))

  -- A `|` that ends a model's name or begins a version moves between the two: two scopes that differ
  -- have one document for each prediction, whatever the digest.
  pub prediction_name-collides :
      (c : EvalScope F) (x version q a : String)
      → prediction_name py hash g isoformat
          (record c { model_id = c.model_id <> ("|" <> x); pipeline_version = version })
          q
          a
        ≡ prediction_name py hash g isoformat
            (record c { pipeline_version = x <> ("|" <> version) })
            q
            a
  unfolding doc_id join_bar
  prediction_name-collides c x version q a = simp append_assoc
