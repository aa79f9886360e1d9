-- ===== src/Evaluation/Gcp/Registry/Flushed.antt =====
-- The registry after a flush: every row that was counted is in the count of its scope.
use berlue.Base.{
  ℕ, ◌+◌, ◌≡◌, refl, ap, ◌∙◌, Bool, true, false, ◌⊎◌, String, some, [], ◌∷◌, Eq, arith, ◌==◌,
  string_eq,
}
use berlue.Base.Act.{Runs, Runs-bind, Runs-pure, Runs-imp, for_each}
use berlue.Evaluation.Gcp.{
  int, Dict, integer_value, Fields, Python, Name, increment_field, empty, Google, GcpState,
  ScopeKey, to_value, to_fields, find_key, running_on_cloud_run,
}
use berlue.Evaluation.Gcp.Rest.{request, create, increment, raise_for_status}
use berlue.Evaluation.Gcp.Codec.{IsPython}
use berlue.Evaluation.Gcp.Firestore.{
  Docs, put_doc, create_doc, done_reply, IsFirestore, name_eq, set_field, name_beq,
}
use berlue.Evaluation.Gcp.Served.{request_lem}
use berlue.Evaluation.Gcp.Documents.{coded, Holds, put_doc-Holds, Left, left, create_lem}
use berlue.Evaluation.Gcp.Registry.{
  Buffer, registry_collection, registry_name, new_entry, send_entry,
}
use berlue.Evaluation.Gcp.Registry.Entries.{
  set_key, registered, IsRegistry, IsScope, AreScopes, set_field-to_fields, field_at-to_fields,
  set_key-IsStorableDoc, new_entry-IsStorable,
}
use berlue.Evaluation.Gcp.Registry.Sent.{
  entered, sent_docs, sent-other, sent-registered, sent-IsRegistry,
}
use berlue.Evaluation.Gcp.Registry.Counts.{counts_for, buffered}

module _ {F W : Type 0} ⦃e : Eq F⦄ (py : Python F) (hash : String → String) (g : Google F W)
    (accepts : W → String → Bool) (docs : W → Docs (Fields F)) (python : IsPython py)
    (fs : IsFirestore py g accepts docs)
    (configured : (running_on_cloud_run g ≡ true) ⊎ ((g.service_account == "") ≡ false)) where
  abbrev LeftBy : GcpState F W → GcpState F W → Docs (Dict F) → Type 0
  LeftBy = Left py g accepts docs python fs configured

  -- `increment` adds to the integer that stands in a field.
  increment_lem :
      (n : Name) (k : String) (by old : ℕ) (x : Dict F) (s : GcpState F W) (d : Docs (Dict F))
      → Holds py (docs s.world) d
      → d n ≡ some x
      → find_key k x ≡ some (int old)
      → Runs
          (increment py g n k by)
          s
          (λ s' u. LeftBy s s' (put_doc n (set_key k (int (old + by)) x) d))
  unfolding increment to_value
  increment_lem n k by old x s d h there count =
      let f = to_fields py x in
      let stored : docs s.world n ≡ some f = h.coded_docs n ∙ ap (coded py) there in
      let x' = set_key k (int (old + by)) x in
      let new : set_field k (integer_value (py.str_int (old + by))) f ≡ to_fields py x' =
        set_field-to_fields py k (int (old + by)) x in
      Runs-bind (request py g (increment_field n k (py.str_int by))) raise_for_status s
        (request_lem py g accepts docs fs configured (increment_field n k (py.str_int by)) s
          (done_reply empty) (put_doc n (to_fields py x') (docs s.world)) refl
          (λ t w ok_t same.
            rw (← same, ← new)
              (fs.increments t n k by old f w ok_t (rw same stored)
                (field_at-to_fields py k old x count))))
        (λ s' r m. record {
          after = s';
          value = tt;
          returned = rw m.0 refl;
          holds =
              left py g accepts docs python fs configured s s'
                (put_doc n (to_fields py x') (docs s.world)) (put_doc n x' d) m.1
                (put_doc-Holds py (docs s.world) d n x' h
                  (set_key-IsStorableDoc k (old + by) x (rw there at (h.storable n))));
        })

  -- What was sent: the count of every document grew by `count`, and nothing else changed.
  pub record Registered (s s' : GcpState F W) (d : Docs (Dict F)) (count : String → ℕ)
      : Type 0 where
    pub after : Docs (Dict F)
    pub left_docs : LeftBy s s' after
    pub entries : IsRegistry after
    pub counted : (i : String) → registered i after ≡ registered i d + count i
    pub others : (m : Name) → (registry_collection == m.collection) ≡ false → after m ≡ d m

  other_collection :
      (key : ScopeKey F) (m : Name)
      → (registry_collection == m.collection) ≡ false
      → (registry_name py hash key == m) ≡ false
  unfolding name_beq
  other_collection key m h = rw h refl

  send_entry_lem :
      (key : ScopeKey F) (n : ℕ) (s : GcpState F W) (d : Docs (Dict F))
      → Holds py (docs s.world) d
      → IsRegistry d
      → IsScope key
      → Runs
          (send_entry py hash g (key, n))
          s
          (λ s' u. Registered s s' d (λ i. counts_for py hash i key n))
  unfolding send_entry
  send_entry_lem key n s d h reg scope =
      let x = entered py hash key d scope reg in
      let nm = registry_name py hash key in
      Runs-bind (create py g nm (new_entry key)) (λ _. increment py g nm "n_rows" n) s
        (create_lem py g accepts docs python fs configured nm (new_entry key) s d h
          (new_entry-IsStorable key scope))
        (λ s' b k.
          Runs-imp (increment py g nm "n_rows" n) s'
            (increment_lem nm "n_rows" n x.old x.entry s' (create_doc nm (new_entry key) d)
              k.1.holds x.there x.counts)
            (λ s'' u l. record {
              after = sent_docs py hash key n d x;
              left_docs = record { holds = l.holds; buffer = l.buffer ∙ k.1.buffer };
              entries = sent-IsRegistry py hash key n d x reg;
              counted = sent-registered py hash key n d x;
              others = λ m o. sent-other py hash key n d x m (other_collection key m o);
            }))

  pub send_all_lem :
      (b : Buffer F) (s : GcpState F W) (d : Docs (Dict F))
      → Holds py (docs s.world) d
      → IsRegistry d
      → AreScopes b
      → Runs
          (for_each b (send_entry py hash g))
          s
          (λ s' u. Registered s s' d (λ i. buffered py hash i b))
  unfolding for_each buffered
  send_all_lem [] s d h reg scopes = Runs-pure tt s _ (record {
    after = d;
    left_docs = record { holds = h; buffer = refl };
    entries = reg;
    counted = λ i. omega arith;
    others = λ m o. refl;
  })
  send_all_lem ((key, n) ∷ b) s d h reg scopes =
      Runs-bind (send_entry py hash g (key, n)) (λ _. for_each b (send_entry py hash g)) s
        (send_entry_lem key n s d h reg scopes.0)
        (λ s' u r.
          Runs-imp (for_each b (send_entry py hash g)) s'
            (send_all_lem b s' r.after r.left_docs.holds r.entries scopes.1)
            (λ s'' v q. record {
              after = q.after;
              left_docs = record {
                holds = q.left_docs.holds;
                buffer = q.left_docs.buffer ∙ r.left_docs.buffer;
              };
              entries = q.entries;
              counted = λ i. omega (arith, q.counted i, r.counted i);
              others = λ m o. q.others m o ∙ r.others m o;
            }))
