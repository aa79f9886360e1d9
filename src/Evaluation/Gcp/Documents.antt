-- ===== src/Evaluation/Gcp/Documents.antt =====
-- The operations of `_FirestoreRest` on the dictionaries that the documents stand for.
use berlue.Base.{
  ◌≡◌, refl, ap, ◌∙◌, Bool, true, false, ◌⊎◌, inl, inr, String, Option, none, some, [], ◌∷◌, Eq, ok,
  Bool-cases, Option-cases, ◌==◌, nat_eq, string_eq,
}
use berlue.Base.Act.{Runs, Runs-bind}
use berlue.Evaluation.Gcp.{
  Dict, Fields, Python, Name, get_document, create_document, patch_document, document, Google,
  GcpState, to_fields, running_on_cloud_run,
}
use berlue.Evaluation.Gcp.Rest.{
  request, get, create, write, read_document, was_created, raise_for_status,
}
use berlue.Evaluation.Gcp.Codec.{IsPython, IsStorable, from_fields-to_fields}
use berlue.Evaluation.Gcp.Firestore.{
  Docs, put_doc, create_doc, found_reply, created_reply, done_reply, IsFirestore, name_eq,
}
use berlue.Evaluation.Gcp.Served.{Leaves, request_lem}

module _ {F : Type 0} where
  -- The document of a dictionary.
  abbrev pub coded : Python F → Option (Dict F) → Option (Fields F)
  coded py none = none
  coded py (some x) = some (to_fields py x)

  -- The store writes no empty document.
  abbrev pub IsStorableDoc : Option (Dict F) → Type 0
  IsStorableDoc none = Unit
  IsStorableDoc (some []) = ⊥
  IsStorableDoc (some (f ∷ x)) = IsStorable (f ∷ x)

  abbrev pub is_none : Option (Dict F) → Bool
  is_none none = true
  is_none (some x) = false

  -- The documents are those of the dictionaries `d`.
  pub record Holds (py : Python F) (docs : Docs (Fields F)) (d : Docs (Dict F)) : Type 0 where
    pub coded_docs : (n : Name) → docs n ≡ coded py (d n)
    pub storable : (n : Name) → IsStorableDoc (d n)

  module _ (py : Python F) (docs : Docs (Fields F)) (d : Docs (Dict F)) (n : Name)
      (x : Dict F) where
    pub put_doc-Holds :
        Holds py docs d
        → IsStorableDoc (some x)
        → Holds py (put_doc n (to_fields py x) docs) (put_doc n x d)
    put_doc-Holds h ok_x = record {
      coded_docs =
          λ m. elim (Bool-cases (n == m)) [ inl e ↦ rw e refl | inr e ↦ rw e (h.coded_docs m) ];
      storable =
          λ m. elim (Bool-cases (n == m)) [ inl e ↦ rw e ok_x | inr e ↦ rw e (h.storable m) ];
    }

    pub create_doc-Holds :
        Holds py docs d
        → IsStorableDoc (some x)
        → Holds py (create_doc n (to_fields py x) docs) (create_doc n x d)
    create_doc-Holds h ok_x = elim (Option-cases (d n)) [
      | inl e ↦ rw (e, (h.coded_docs n ∙ ap (coded py) e)) (put_doc-Holds h ok_x)
      | inr (y, e) ↦ rw (e, (h.coded_docs n ∙ ap (coded py) e)) h
    ]

module _ {F W : Type 0} ⦃e : Eq F⦄ (py : Python F) (g : Google F W) (accepts : W → String → Bool)
    (docs : W → Docs (Fields F)) (python : IsPython py) (fs : IsFirestore py g accepts docs)
    (configured : (running_on_cloud_run g ≡ true) ⊎ ((g.service_account == "") ≡ false)) where
  -- After a call the documents are those of `d`, and the buffer is as it was.
  pub record Left (s s' : GcpState F W) (d : Docs (Dict F)) : Type 0 where
    pub holds : Holds py (docs s'.world) d
    pub buffer : s'.registry_buffer ≡ s.registry_buffer

  pub left :
      (s s' : GcpState F W) (f : Docs (Fields F)) (d : Docs (Dict F))
      → Leaves py g accepts docs fs configured s s' f
      → Holds py f d
      → Left s s' d
  left s s' f d l h = record { holds = rw l.docs_left h; buffer = l.buffer_left }

  not_refused : (o : Option (Fields F)) → ((found_reply o).status_code == 401) ≡ false
  not_refused none = refl
  not_refused (some f) = refl

  not_refused_created :
      (o : Option (Fields F)) (f : Fields F) → ((created_reply o f).status_code == 401) ≡ false
  not_refused_created none f = refl
  not_refused_created (some x) f = refl

  read_found :
      (o : Option (Dict F)) (s : GcpState F W)
      → IsStorableDoc o
      → read_document py g (found_reply (coded py o)) s ≡ (s, ok o)
  read_found none s h = refl
  read_found (some []) s h = absurd h
  read_found (some (f ∷ x)) s h = rw (from_fields-to_fields py python (f ∷ x) h) refl

  -- What is stored at a name is what `get` returns; nothing is changed.
  pub get_lem :
      (n : Name) (s : GcpState F W) (d : Docs (Dict F))
      → Holds py (docs s.world) d
      → Runs (get py g n) s (λ s' x. (x ≡ d n) × Left s s' d)
  unfolding get
  get_lem n s d h =
      Runs-bind (request py g (get_document n)) (read_document py g) s
        (request_lem py g accepts docs fs configured (get_document n) s
          (found_reply (docs s.world n)) (docs s.world) (not_refused (docs s.world n))
          (λ t w ok_t same. rw (← same) (fs.gets t n w ok_t)))
        (λ s' r k. record {
          after = s';
          value = d n;
          returned = rw (k.0, h.coded_docs n) (read_found (d n) s' (h.storable n));
          holds = (refl, left s s' (docs s.world) d k.1 h);
        })

  created :
      (o : Option (Dict F)) (f : Fields F) (s : GcpState F W)
      → was_created (created_reply (coded py o) f) s ≡ (s, ok (is_none o))
  created none f s = refl
  created (some x) f s = refl

  -- `create` writes a document where none stands, keeps the one that does, and returns which.
  pub create_lem :
      (n : Name) (x : Dict F) (s : GcpState F W) (d : Docs (Dict F))
      → Holds py (docs s.world) d
      → IsStorableDoc (some x)
      → Runs (create py g n x) s (λ s' b. (b ≡ is_none (d n)) × Left s s' (create_doc n x d))
  unfolding create
  create_lem n x s d h ok_x =
      Runs-bind (request py g (create_document n (to_fields py x))) was_created s
        (request_lem py g accepts docs fs configured (create_document n (to_fields py x)) s
          (created_reply (docs s.world n) (to_fields py x))
          (create_doc n (to_fields py x) (docs s.world))
          (not_refused_created (docs s.world n) (to_fields py x))
          (λ t w ok_t same. rw (← same) (fs.creates t n (to_fields py x) w ok_t)))
        (λ s' r k. record {
          after = s';
          value = is_none (d n);
          returned = rw (k.0, h.coded_docs n) (created (d n) (to_fields py x) s');
          holds = (
            refl,
            left s s' (create_doc n (to_fields py x) (docs s.world)) (create_doc n x d) k.1
                (create_doc-Holds py (docs s.world) d n x h ok_x),
          );
        })

  -- `write` leaves the new document, whatever stood there.
  pub write_lem :
      (n : Name) (x : Dict F) (s : GcpState F W) (d : Docs (Dict F))
      → Holds py (docs s.world) d
      → IsStorableDoc (some x)
      → Runs (write py g n x) s (λ s' u. Left s s' (put_doc n x d))
  unfolding write
  write_lem n x s d h ok_x =
      Runs-bind (request py g (patch_document n (to_fields py x))) raise_for_status s
        (request_lem py g accepts docs fs configured (patch_document n (to_fields py x)) s
          (done_reply (document (to_fields py x))) (put_doc n (to_fields py x) (docs s.world)) refl
          (λ t w ok_t same. rw (← same) (fs.patches t n (to_fields py x) w ok_t)))
        (λ s' r k. record {
          after = s';
          value = tt;
          returned = rw k.0 refl;
          holds =
              left s s' (put_doc n (to_fields py x) (docs s.world)) (put_doc n x d) k.1
                (put_doc-Holds py (docs s.world) d n x h ok_x);
        })
