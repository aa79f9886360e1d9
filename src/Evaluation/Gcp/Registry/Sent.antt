-- ===== src/Evaluation/Gcp/Registry/Sent.antt =====
-- The documents after one entry of the buffer is sent.
use berlue.Base.{
  ℕ, ◌+◌, ◌≡◌, refl, ap, ◌∙◌, false, inl, inr, String, some, arith, Bool-cases, Option-cases, ◌==◌,
  ==_refl, ==_iff, string_eq,
}
use berlue.Evaluation.Gcp.{int, Dict, Python, Name, ScopeKey, find_key}
use berlue.Evaluation.Gcp.Firestore.{Docs, put_doc, create_doc, name_eq, name_beq}
use berlue.Evaluation.Gcp.Registry.{registry_collection, registry_id, registry_name, new_entry}
use berlue.Evaluation.Gcp.Registry.Entries.{
  set_key, rows_in, registered, IsRegistry, IsScope, find_key-set_key, new_entry-rows,
}
use berlue.Evaluation.Gcp.Registry.Counts.{counts_for}

abbrev at : String → Name
at i = record { collection = registry_collection; doc_id = i }

module _ {A : Type 0} where
  pub put_doc_self : (n : Name) (a : A) (d : Docs A) → put_doc n a d n ≡ some a
  put_doc_self n a d = rw (==_refl n)

  pub create_doc-other :
      (n m : Name) (a : A) (d : Docs A) → (n == m) ≡ false → create_doc n a d m ≡ d m
  create_doc-other n m a d h = elim (Option-cases (d n)) [
    | inl e ↦ rw e (rw h)
    | inr (b, e) ↦ rw e refl
  ]

module _ {F : Type 0} (py : Python F) (hash : String → String) where
  at_registry :
      (key : ScopeKey F) (i : String)
      → (registry_name py hash key == record { collection = registry_collection; doc_id = i })
        ≡ (registry_id py hash key == i)
  unfolding name_beq
  at_registry key i = refl

  -- The document that an increment meets after the creation, with its count.
  pub record Entered (key : ScopeKey F) (d : Docs (Dict F)) : Type 0 where
    pub entry : Dict F
    pub old : ℕ
    pub there :
        create_doc (registry_name py hash key) (new_entry key) d (registry_name py hash key)
        ≡ some entry
    pub counts : find_key "n_rows" entry ≡ some (int old)
    pub same : old ≡ rows_in (d (registry_name py hash key))

  pub entered : (key : ScopeKey F) (d : Docs (Dict F)) → IsScope key → IsRegistry d → Entered key d
  entered key d scope reg = elim (Option-cases (d (registry_name py hash key))) [
    | inl e ↦ record {
      entry = new_entry key;
      old = 0;
      there = rw e (put_doc_self (registry_name py hash key) (new_entry key) d);
      counts = new_entry-rows key scope;
      same = rw e refl;
    }
    | inr (x, e) ↦
        let (n, count) = rw e at (reg (registry_id py hash key)) in
        record { entry = x; old = n; there = rw e e; counts = count; same = rw e (rw count refl) }
  ]

  -- The documents after an entry was sent.
  abbrev pub sent_docs :
      (key : ScopeKey F) → ℕ → (d : Docs (Dict F)) → Entered key d → Docs (Dict F)
  sent_docs key n d x =
      put_doc (registry_name py hash key) (set_key "n_rows" (int (x.old + n)) x.entry)
        (create_doc (registry_name py hash key) (new_entry key) d)

  pub sent-other :
      (key : ScopeKey F) (n : ℕ) (d : Docs (Dict F)) (x : Entered key d) (m : Name)
      → (registry_name py hash key == m) ≡ false
      → sent_docs key n d x m ≡ d m
  sent-other key n d x m h =
      rw h (create_doc-other (registry_name py hash key) m (new_entry key) d h)

  pub sent-registered :
      (key : ScopeKey F) (n : ℕ) (d : Docs (Dict F)) (x : Entered key d) (i : String)
      → registered i (sent_docs key n d x) ≡ registered i d + counts_for py hash i key n
  unfolding registered
  sent-registered key n d x i = elim (Bool-cases (registry_id py hash key == i)) [
    | inl e ↦
        let found = find_key-set_key "n_rows" x.old (x.old + n) x.entry x.counts in
        rw ((at_registry key i ∙ e), e, found)
          (ap (λ (t : ℕ). t + n)
            (x.same ∙ ap (λ j. rows_in (d (at j))) ((==_iff (registry_id py hash key) i).0 e)))
    | inr e ↦
        rw ((at_registry key i ∙ e), e)
          (omega (
            arith,
            ap rows_in (
                create_doc-other (registry_name py hash key) (at i) (new_entry key) d
                  (at_registry key i ∙ e)),
          ))
  ]

  pub sent-IsRegistry :
      (key : ScopeKey F) (n : ℕ) (d : Docs (Dict F)) (x : Entered key d)
      → IsRegistry d
      → IsRegistry (sent_docs key n d x)
  sent-IsRegistry key n d x reg i = elim (Bool-cases (registry_id py hash key == i)) [
    | inl e ↦
        rw (at_registry key i ∙ e)
          (x.old + n, find_key-set_key "n_rows" x.old (x.old + n) x.entry x.counts)
    | inr e ↦ rw (at_registry key i ∙ e) (
        rw
          (create_doc-other (registry_name py hash key) (at i) (new_entry key) d
            (at_registry key i ∙ e))
          (reg i))
  ]
