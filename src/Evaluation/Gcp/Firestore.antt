-- ===== src/Evaluation/Gcp/Firestore.antt =====
-- What Firestore documents of its REST calls, as laws of the parameter: a token that is not accepted
-- is answered 401 and changes nothing, a token that was just given is accepted, and an accepted call
-- is answered by the documents that are stored.
use berlue.Base.{
  ℕ, ◌+◌, ◌≡◌, Bool, true, false, ◌&&◌, ◌↔◌, String, Option, none, some, List, [], ◌∷◌, Eq, any, ok,
  arith, ◌==◌, ==_iff, string_eq, if◌then◌else◌, All,
}
use berlue.Evaluation.Gcp.{
  Field, boolean_value, integer_value, double_value, string_value, Fields, Python, Name, Call,
  get_document, create_document, patch_document, increment_field, run_query, delete_documents,
  Document, Body, empty, document, entries, Reply, Google,
}
use berlue.Evaluation.Gcp.Rest.{documents}

unfoldable pub name_beq : Name → Name → Bool
name_beq a b = a.collection == b.collection && a.doc_id == b.doc_id

name_beq_sound : (a b : Name) → name_beq a b ≡ true → a ≡ b
unfolding name_beq
name_beq_sound a b h = ground (arith, ==_iff a.collection b.collection, ==_iff a.doc_id b.doc_id)

name_beq_complete : (a b : Name) → a ≡ b → name_beq a b ≡ true
unfolding name_beq
name_beq_complete a b h =
    rw h (ground (arith, ==_iff b.collection b.collection, ==_iff b.doc_id b.doc_id))

pub name_beq_iff : (a b : Name) → (name_beq a b ≡ true) ↔ (a ≡ b)
name_beq_iff a b = (name_beq_sound a b, name_beq_complete a b)

instance abbrev pub name_eq : Eq Name
name_eq = record { equal = name_beq; equal_iff = name_beq_iff }

-- The documents, by name.
abbrev pub Docs : Type 0 → Type 0
Docs A = Name → Option A

module _ {A : Type 0} where
  abbrev pub put_doc : Name → A → Docs A → Docs A
  put_doc n a docs m = if n == m then some a else docs m

  abbrev pub unless_there : Option A → Docs A → Docs A → Docs A
  unless_there none new docs = new
  unless_there (some b) new docs = docs

  -- A document that is there stays.
  abbrev pub create_doc : Name → A → Docs A → Docs A
  create_doc n a docs = unless_there (docs n) (put_doc n a docs) docs

  abbrev pub remove_docs : List Name → Docs A → Docs A
  remove_docs names docs m = if any (λ n. n == m) names then none else docs m

module _ {F : Type 0} ⦃e : Eq F⦄ where
  abbrev pub same_value : Field F → Field F → Bool
  same_value (boolean_value true) (boolean_value b) = b
  same_value (boolean_value false) (boolean_value true) = false
  same_value (boolean_value false) (boolean_value false) = true
  same_value (integer_value a) (integer_value b) = a == b
  same_value (double_value a) (double_value b) = a == b
  same_value (string_value a) (string_value b) = a == b
  same_value _ _ = false

  -- The filter EQUAL on one field.
  unfoldable pub has_value : String → Field F → Fields F → Bool
  has_value k v [] = false
  has_value k v ((j, w) ∷ fields) = if j == k then same_value w v else has_value k v fields

  unfoldable pub satisfies : Fields F → Fields F → Bool
  satisfies [] fields = true
  satisfies ((k, v) ∷ filters) fields = has_value k v fields && satisfies filters fields

  -- Whether a query of a collection selects a document.
  abbrev pub selected : String → Fields F → Name → Option (Fields F) → Bool
  selected collection filters n none = false
  selected collection filters n (some fields) =
      n.collection == collection && satisfies filters fields

module _ {F : Type 0} where
  abbrev pub found_reply : Option (Fields F) → Reply F
  found_reply none = record { status_code = 404; body = empty }
  found_reply (some fields) = record { status_code = 200; body = document fields }

  abbrev pub created_reply : Option (Fields F) → Fields F → Reply F
  created_reply none fields = record { status_code = 200; body = document fields }
  created_reply (some old) fields = record { status_code = 409; body = empty }

  abbrev pub done_reply : Body F → Reply F
  done_reply body = record { status_code = 200; body = body }

  -- The field that a transform writes.
  abbrev pub set_field : String → Field F → Fields F → Fields F
  set_field k v [] = []
  set_field k v ((j, w) ∷ fields) = (j, if j == k then v else w) ∷ set_field k v fields

  unfoldable pub field_at : String → Fields F → Option (Field F)
  field_at k [] = none
  field_at k ((j, w) ∷ fields) = if j == k then some w else field_at k fields

module _ {F W : Type 0} ⦃e : Eq F⦄ (py : Python F) (g : Google F W) (accepts : W → String → Bool)
    (docs : W → Docs (Fields F)) where
  -- A call with the token `t` in `w` gives the answer `r`, after which the documents are `d`.
  pub record Gives (t : String) (c : Call F) (w : W) (r : Reply F) (d : Docs (Fields F))
      : Type 0 where
    pub next : W
    pub given : g.request t c w ≡ (next, ok r)
    pub docs_next : docs next ≡ d

  pub record IsFirestore : Type 0 where
    pub fresh_adc :
        (w : W)
        → (w' : W) × (t : String) × (x : Option ℕ) × (g.default_credentials w ≡ (w', ok (t, x)))
          × (accepts w' t ≡ true)
          × (docs w' ≡ docs w)
    pub fresh_cli :
        (account : String) (w : W)
        → (w' : W) × (t : String) × (g.print_access_token account w ≡ (w', ok t))
          × (accepts w' t ≡ true)
          × (docs w' ≡ docs w)
    pub denied :
        (t : String) (c : Call F) (w : W)
        → accepts w t ≡ false
        → Gives t c w (record { status_code = 401; body = empty }) (docs w)
    pub gets :
        (t : String) (n : Name) (w : W)
        → accepts w t ≡ true
        → Gives t (get_document n) w (found_reply (docs w n)) (docs w)
    pub creates :
        (t : String) (n : Name) (f : Fields F) (w : W)
        → accepts w t ≡ true
        → Gives t (create_document n f) w (created_reply (docs w n) f) (create_doc n f (docs w))
    pub patches :
        (t : String) (n : Name) (f : Fields F) (w : W)
        → accepts w t ≡ true
        → Gives t (patch_document n f) w (done_reply (document f)) (put_doc n f (docs w))
    pub increments :
        (t : String) (n : Name) (k : String) (by old : ℕ) (f : Fields F) (w : W)
        → accepts w t ≡ true
        → docs w n ≡ some f
        → field_at k f ≡ some (integer_value (py.str_int old))
        → Gives t
            (increment_field n k (py.str_int by))
            w
            (done_reply empty)
            (put_doc n (set_field k (integer_value (py.str_int (old + by))) f) (docs w))
    pub queries :
        (t c : String) (filters : Fields F) (w : W)
        → accepts w t ≡ true
        → (es : List (Option (Document F))) × Gives t
            (run_query c filters)
            w
            (done_reply (entries es))
            (docs w)
          × All (λ x. docs w x.name ≡ some x.fields) (documents es)
          × ((m : Name) → any (λ x. x.name == m) (documents es) ≡ selected c filters m (docs w m))
    pub deletes :
        (t : String) (names : List Name) (w : W)
        → accepts w t ≡ true
        → Gives t (delete_documents names) w (done_reply empty) (remove_docs names (docs w))
