-- ===== src/Evaluation/Gcp/Deletions.antt =====
-- `delete_matching`: the documents that a query selects go, in slices of 500, and no others.
use berlue.Base.{
  ◌≡◌, refl, sym, ap, ◌∙◌, Bool, true, false, ◌⊎◌, String, Option, none, some, List, [], ◌∷◌, map,
  Result, ok, map_result, Eq, arith, any, length, Bool-cases, inl, inr, ◌==◌, string_eq,
  if◌then◌else◌, All,
}
use berlue.Base.Act.{Runs, Runs-bind, Runs-pure, Runs-imp, for_each, ◌>>=◌, lift}
use berlue.Evaluation.Gcp.{
  Dict, Fields, Python, Name, run_query, delete_documents, Document, empty, entries, Reply, Google,
  GcpState, to_fields, running_on_cloud_run,
}
use berlue.Evaluation.Gcp.Rest.{
  Found, from_fields, with_name, documents, slices, commit_limit, request, raise_for_status,
  query_raw, delete_chunk, delete_matching, entries_of,
}
use berlue.Evaluation.Gcp.Codec.{IsPython, from_fields-to_fields}
use berlue.Evaluation.Gcp.Firestore.{Docs, remove_docs, done_reply, selected, IsFirestore, name_eq}
use berlue.Evaluation.Gcp.Served.{Leaves, AnswersWith, request_lem, request-Answered, Leaves-trans}
use berlue.Evaluation.Gcp.Documents.{coded, IsStorableDoc, Holds, Left}
use berlue.Evaluation.Gcp.Slices.{any-slices, removed, removed_lem, any-map}

module _ {F : Type 0} (py : Python F) (python : IsPython py) where
  abbrev found_in : Document F → Result (Found F)
  found_in x = with_name x.name (from_fields py x.fields)

  decoded :
      (o : Option (Dict F)) (f : Fields F)
      → IsStorableDoc o
      → coded py o ≡ some f
      → (y : Dict F) × (from_fields py f ≡ ok y)
  decoded none f h e = cc
  decoded (some []) f h e = absurd h
  decoded (some (x ∷ y)) f h e =
      let same : to_fields py (x ∷ y) ≡ f = cc e in
      (x ∷ y, rw (← same) (from_fields-to_fields py python (x ∷ y) h))

  -- The dictionaries of documents that are stored are read without an exception.
  found_names :
      (docs : Docs (Fields F)) (d : Docs (Dict F)) (xs : List (Document F))
      → Holds py docs d
      → All (λ x. docs x.name ≡ some x.fields) xs
      → (fs : List (Found F)) × (map_result found_in xs ≡ ok fs)
        × (map (λ f. f.name) fs ≡ map (λ x. x.name) xs)
  unfolding map_result
  found_names docs d [] h all = ([], refl, refl)
  found_names docs d (x ∷ xs) h all =
      let (fs, ok_fs, names) = found_names docs d xs h all.1 in
      let (y, ok_y) =
        decoded (d x.name) x.fields (h.storable x.name) (sym (h.coded_docs x.name) ∙ all.0) in
      (record { name = x.name; fields = y } ∷ fs, rw (ok_y, ok_fs) refl, ap (λ t. x.name ∷ t) names)

module _ {F W : Type 0} ⦃e : Eq F⦄ (py : Python F) (g : Google F W) (accepts : W → String → Bool)
    (docs : W → Docs (Fields F)) (python : IsPython py) (fs : IsFirestore py g accepts docs)
    (configured : (running_on_cloud_run g ≡ true) ⊎ ((g.service_account == "") ≡ false)) where
  abbrev Leave : GcpState F W → GcpState F W → Docs (Fields F) → Type 0
  Leave = Leaves py g accepts docs fs configured

  -- Whether a document is one that the filters select in the collection.
  abbrev pub selects : String → Dict F → Docs (Dict F) → Name → Bool
  selects c filters d m = selected c (to_fields py filters) m (coded py (d m))

  -- The documents without the selected ones.
  abbrev pub without_selected : String → Dict F → Docs (Dict F) → Docs (Dict F)
  without_selected c filters d m = if selects c filters d m then none else d m

  without_selected-Holds :
      (c : String) (filters : Dict F) (f f' : Docs (Fields F)) (d : Docs (Dict F))
      → Holds py f d
      → ((m : Name) → f' m ≡ (if selects c filters d m then none else f m))
      → Holds py f' (without_selected c filters d)
  without_selected-Holds c filters f f' d h same = record {
    coded_docs = λ m. elim (Bool-cases (selects c filters d m)) [
      | inl out ↦ rw (same m, out) refl
      | inr stays ↦ rw (same m, stays) (h.coded_docs m)
    ];
    storable = λ m. elim (Bool-cases (selects c filters d m)) [
      | inl out ↦ rw out tt
      | inr stays ↦ rw stays (h.storable m)
    ];
  }

  delete_chunk_lem :
      (names : List Name) (s : GcpState F W)
      → Runs (delete_chunk py g names) s (λ s' u. Leave s s' (remove_docs names (docs s.world)))
  delete_chunk_lem names s =
      Runs-bind (request py g (delete_documents names)) raise_for_status s
        (request_lem py g accepts docs fs configured (delete_documents names) s (done_reply empty)
          (remove_docs names (docs s.world)) refl
          (λ t w ok_t same. rw (← same) (fs.deletes t names w ok_t)))
        (λ s' r k. record { after = s'; value = tt; returned = rw k.0 refl; holds = k.1 })

  delete_chunks_lem :
      (chunks : List (List Name)) (s : GcpState F W)
      → Runs
          (for_each chunks (delete_chunk py g))
          s
          (λ s' u. Leave s s' (removed chunks (docs s.world)))
  unfolding for_each removed
  delete_chunks_lem [] s =
      Runs-pure tt s (λ s' u. Leave s s' (docs s.world))
        (record { docs_left = refl; buffer_left = refl })
  delete_chunks_lem (c ∷ cs) s =
      Runs-bind (delete_chunk py g c) (λ _. for_each cs (delete_chunk py g)) s
        (delete_chunk_lem c s)
        (λ s' u k.
          Runs-imp (for_each cs (delete_chunk py g)) s' (delete_chunks_lem cs s') (λ s'' v l.
            Leaves-trans py g accepts docs fs configured s s' s'' k (record {
              docs_left = l.docs_left ∙ ap (removed cs) k.docs_left;
              buffer_left = l.buffer_left;
            })))

  -- The answer of a query: the documents that are selected, with their fields.
  record Selected (c : String) (filters : Fields F) (stored : Docs (Fields F)) (r : Reply F)
      : Type 0 where
    es : List (Option (Document F))
    reply : r ≡ done_reply (entries es)
    fields : All (λ x. stored x.name ≡ some x.fields) (documents es)
    names : (m : Name) → any (λ x. x.name == m) (documents es) ≡ selected c filters m (stored m)

  query_answers :
      (c : String) (filters : Fields F) (s : GcpState F W)
      → AnswersWith py g accepts docs fs configured
          (run_query c filters)
          (docs s.world)
          (Selected c filters (docs s.world))
          (docs s.world)
  query_answers c filters s t w ok_t same =
      let (es, gives, fields, names) = fs.queries t c filters w ok_t in
      (
        done_reply (entries es),
        record {
          es = es;
          reply = refl;
          fields = rw (← same) fields;
          names = λ m. rw (← same) (names m);
        },
        rw (← same) gives,
      )

  query_raw_lem :
      (c : String) (filters : Dict F) (s : GcpState F W) (d : Docs (Dict F))
      → Holds py (docs s.world) d
      → Runs (query_raw py g c filters) s (λ s' found.
        Leave s s' (docs s.world)
        × ((m : Name) → any (λ n. n == m) (map (λ f. f.name) found) ≡ selects c filters d m))
  unfolding query_raw
  query_raw_lem c filters s d h =
      Runs-bind (request py g (run_query c (to_fields py filters)))
        (λ r.
          raise_for_status r
          >>= (λ _. lift (map_result (found_in py python) (documents (entries_of r.body)))))
        s
        (request-Answered py g accepts docs fs configured (run_query c (to_fields py filters))
          (Selected c (to_fields py filters) (docs s.world)) (docs s.world) s
          (query_answers c (to_fields py filters) s) (λ r q. rw q.reply refl))
        (λ s' r k.
          let q = k.0 in
          let (found, ok_found, same) =
            found_names py python (docs s.world) d (documents q.es) h q.fields in
          record {
            after = s';
            value = found;
            returned = rw (q.reply, ok_found) refl;
            holds = (
              k.1,
              λ m.
                  ap (any (λ n. n == m)) same
                  ∙ any-map (λ n. n == m) (λ x. x.name) (documents q.es)
                  ∙ q.names m
                  ∙ ap (selected c (to_fields py filters) m) (h.coded_docs m),
            );
          })

  removed-selected :
      (names : List Name) (c : String) (filters : Dict F) (f : Docs (Fields F)) (d : Docs (Dict F))
      → ((m : Name) → any (λ n. n == m) names ≡ selects c filters d m)
      → (m : Name)
      → removed (slices (length names) commit_limit names) f m
        ≡ (if selects c filters d m then none else f m)
  removed-selected names c filters f d h m =
      removed_lem (slices (length names) commit_limit names) f m
      ∙ ap (λ b. if b then none else f m)
          (any-slices (λ n. n == m) (length names) 499 names (omega arith) ∙ h m)

  pub delete_matching-Left :
      (c : String) (filters : Dict F) (s : GcpState F W) (d : Docs (Dict F))
      → Holds py (docs s.world) d
      → Runs
          (delete_matching py g c filters)
          s
          (λ s' n. Left py g accepts docs python fs configured s s' (without_selected c filters d))
  unfolding delete_matching
  delete_matching-Left c filters s d h =
      let r = query_raw_lem c filters s d h in
      let names = map (λ f. f.name) r.value in
      let out = delete_chunks_lem (slices (length names) commit_limit names) r.after in
      let left : Leave s out.after
          (removed (slices (length names) commit_limit names) (docs s.world)) =
        Leaves-trans py g accepts docs fs configured s r.after out.after r.holds.0 (record {
          docs_left =
              out.holds.docs_left
              ∙ ap (removed (slices (length names) commit_limit names)) r.holds.0.docs_left;
          buffer_left = out.holds.buffer_left;
        }) in
      record {
        after = out.after;
        value = length names;
        returned = rw (r.returned, out.returned) refl;
        holds = record {
          holds = rw left.docs_left (
              without_selected-Holds c filters (docs s.world)
                (removed (slices (length names) commit_limit names) (docs s.world)) d h
                (removed-selected names c filters (docs s.world) d r.holds.1));
          buffer = left.buffer_left;
        };
      }
