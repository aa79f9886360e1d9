-- ===== src/Evaluation/Gcp/Demo/Laws.antt =====
-- The laws of Firestore, for the server of the examples.
use berlue.Base.{
  ℕ, ◌+◌, ◌≡◌, refl, ap, ◌∙◌, Bool, true, false, ◌&&◌, inl, inr, String, Option, none, some, List,
  [], ◌∷◌, map, nat_eq, any, Bool-cases, Option-cases, ◌==◌, ==_iff, ==_refl, string_eq,
  if◌then◌else◌, All,
}
use berlue.Evaluation.Gcp.{
  Field, integer_value, Fields, Name, Call, get_document, create_document, patch_document,
  increment_field, run_query, delete_documents, Document, Reply,
}
use berlue.Evaluation.Gcp.Rest.{documents}
use berlue.Evaluation.Gcp.Firestore.{
  Docs, put_doc, unless_there, set_field, field_at, selected, IsFirestore, Gives, name_eq,
}
use berlue.Evaluation.Gcp.Demo.{
  unary, from_unary-unary, base_one, Server, put_in, remove_in, create_in, increase, increment_in,
  entry_for, answer, accepts, cloud,
}

abbrev pub docs : Server → Docs (Fields ℕ)
docs w = w.stored

created :
    (o : Option (Fields ℕ)) (n : Name) (f : Fields ℕ) (w : Server)
    → (create_in o n f w).stored ≡ unless_there o (put_doc n f w.stored) w.stored
unfolding create_in put_in
created none n f w = refl
created (some old) n f w = refl

increased :
    (o : Option (Field ℕ)) (n : Name) (k : String) (by old : ℕ) (f : Fields ℕ) (w : Server)
    → o ≡ some (integer_value (unary old))
    → (increase o n k (unary by) f w).stored
      ≡ put_doc n (set_field k (integer_value (unary (old + by))) f) w.stored
unfolding increase put_in
increased o n k by old f w h = rw h (rw (from_unary-unary old, from_unary-unary by) refl)

incremented :
    (o : Option (Fields ℕ)) (n : Name) (k : String) (by old : ℕ) (f : Fields ℕ) (w : Server)
    → o ≡ some f
    → field_at k f ≡ some (integer_value (unary old))
    → (increment_in o n k (unary by) w).stored
      ≡ put_doc n (set_field k (integer_value (unary (old + by))) f) w.stored
unfolding increment_in
incremented o n k by old f w h count = rw h (increased (field_at k f) n k by old f w count)

given :
    (t : String) (c : Call ℕ) (w : Server) (r : Reply ℕ) (d : Docs (Fields ℕ))
    → accepts w t ≡ true
    → (answer c w).1 ≡ r
    → (answer c w).0.stored ≡ d
    → Gives base_one cloud accepts docs t c w r d
given t c w r d ok_t same left = record {
  next = (answer c w).0;
  given = rw (ok_t, same) refl;
  docs_next = left;
}

listed : String → Fields ℕ → Server → List Name → List (Document ℕ)
listed c filters w ns = documents (map (λ n. entry_for c filters n (w.stored n)) ns)

listed_fields :
    (c : String) (filters : Fields ℕ) (w : Server) (ns : List Name)
    → All (λ x. w.stored x.name ≡ some x.fields) (listed c filters w ns)
unfolding listed documents entry_for
listed_fields c filters w [] = tt
listed_fields c filters w (n ∷ ns) = elim (Option-cases (w.stored n)) [
  | inl e ↦ rw e (listed_fields c filters w ns)
  | inr (f, e) ↦ elim (Bool-cases (selected c filters n (some f))) [
    | inl chosen ↦ rw e (rw chosen (e, listed_fields c filters w ns))
    | inr other ↦ rw e (rw other (listed_fields c filters w ns))
  ]
]

entry_name :
    (c : String) (filters : Fields ℕ) (n m : Name) (o : Option (Fields ℕ))
    (es : List (Option (Document ℕ)))
    → any (λ x. x.name == m) (documents (entry_for c filters n o ∷ es))
      ≡ (if n == m && selected c filters n o then true else any (λ x. x.name == m) (documents es))
unfolding documents entry_for
entry_name c filters n m none es = elim (Bool-cases (n == m)) [
  | inl b ↦ rw b refl
  | inr b ↦ rw b refl
]
entry_name c filters n m (some f) es = elim (Bool-cases (selected c filters n (some f))) [
  | inl chosen ↦ elim (Bool-cases (n == m)) [
    | inl b ↦ rw chosen (rw b refl)
    | inr b ↦ rw chosen (rw b refl)
  ]
  | inr other ↦ elim (Bool-cases (n == m)) [
    | inl b ↦ rw other (rw b refl)
    | inr b ↦ rw other (rw b refl)
  ]
]

either_way : (a b : Bool) → (if b then true else (if a then b else false)) ≡ b
either_way a true = refl
either_way true false = refl
either_way false false = refl

listed_names :
    (c : String) (filters : Fields ℕ) (w : Server) (ns : List Name) (m : Name)
    → any (λ x. x.name == m) (listed c filters w ns)
      ≡ (if any (λ n. n == m) ns then selected c filters m (w.stored m) else false)
unfolding listed documents
listed_names c filters w [] m = refl
listed_names c filters w (n ∷ ns) m =
    let rest = listed_names c filters w ns m in
    entry_name c filters n m (w.stored n) (map (λ n. entry_for c filters n (w.stored n)) ns)
    ∙ elim (Bool-cases (n == m)) [
      | inl b ↦
          let here : selected c filters n (w.stored n) ≡ selected c filters m (w.stored m) =
            ap (λ x. selected c filters x (w.stored x)) ((==_iff n m).0 b) in
          rw (b, here, rest) (either_way (any (λ n. n == m) ns) (selected c filters m (w.stored m)))
      | inr b ↦ rw (b, rest) refl
    ]

listed_all :
    (c : String) (filters : Fields ℕ) (w : Server) (m : Name)
    → any (λ x. x.name == m) (listed c filters w w.names) ≡ selected c filters m (w.stored m)
listed_all c filters w m =
    listed_names c filters w w.names m ∙ elim (Bool-cases (any (λ n. n == m) w.names)) [
      | inl there ↦ rw there refl
      | inr missing ↦ rw (missing, w.covers m missing) refl
    ]

pub fs : IsFirestore base_one cloud accepts docs
unfolding answer put_in remove_in listed
fs = record {
  fresh_adc = λ w. (w, w.accepted, none, refl, ==_refl w.accepted, refl);
  fresh_cli = λ account w. (w, w.accepted, refl, ==_refl w.accepted, refl);
  denied = λ t c w no_. record { next = w; given = rw no_ refl; docs_next = refl };
  gets = λ t n w ok_t. given t (get_document n) w _ _ ok_t refl refl;
  creates =
      λ t n f w ok_t. given t (create_document n f) w _ _ ok_t refl (created (w.stored n) n f w);
  patches = λ t n f w ok_t. given t (patch_document n f) w _ _ ok_t refl refl;
  increments = λ t n k by old f w ok_t there count.
      given t (increment_field n k (unary by)) w _ _ ok_t refl
        (incremented (w.stored n) n k by old f w there count);
  queries = λ t c filters w ok_t. (
    map (λ n. entry_for c filters n (w.stored n)) w.names,
    given t (run_query c filters) w _ _ ok_t refl refl,
    listed_fields c filters w w.names,
    listed_all c filters w,
  );
  deletes = λ t ns w ok_t. given t (delete_documents ns) w _ _ ok_t refl refl;
}
