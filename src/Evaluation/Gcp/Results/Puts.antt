-- ===== src/Evaluation/Gcp/Results/Puts.antt =====
-- What a method of `GcpResultStore` that puts a result leaves behind: the document, unless one stood
-- there, and one more row in the counts of its scope.
use berlue.Base.{
  ℕ, ◌+◌, ◌≡◌, refl, ap, ◌∙◌, Bool, true, false, ◌⊎◌, inl, inr, String, some, Eq, arith, Bool-cases,
  ◌==◌, ==_refl, ==_iff, string_eq, if◌then◌else◌,
}
use berlue.Base.Act.{Runs, Runs-bind, Runs-pure, pure, ◌>>=◌}
use berlue.Evaluation.Gcp.{Dict, Fields, Python, Name, Google, GcpState, running_on_cloud_run}
use berlue.Evaluation.Gcp.Rest.{create}
use berlue.Evaluation.Gcp.Codec.{IsPython}
use berlue.Evaluation.Gcp.Firestore.{Docs, create_doc, IsFirestore, name_eq}
use berlue.Evaluation.Gcp.Documents.{IsStorableDoc, Left, create_lem, is_none}
use berlue.Evaluation.Gcp.Registry.{registry_collection}
use berlue.Evaluation.Gcp.Registry.Entries.{registered, IsScope}
use berlue.Evaluation.Gcp.Registry.Sent.{create_doc-other}
use berlue.Evaluation.Gcp.Registry.Counts.{counts_for}
use berlue.Evaluation.Gcp.Registry.Accounts.{IsSound, accounted, Accounts, register_new_row_lem}
use berlue.Evaluation.Gcp.Results.{register_if, put_new}

abbrev at : String → Name
at i = record { collection = registry_collection; doc_id = i }

module _ {F W : Type 0} ⦃e : Eq F⦄ (py : Python F) (hash : String → String) (g : Google F W)
    (isoformat : W → String) (accepts : W → String → Bool) (docs : W → Docs (Fields F))
    (python : IsPython py) (fs : IsFirestore py g accepts docs)
    (configured : (running_on_cloud_run g ≡ true) ⊎ ((g.service_account == "") ≡ false)) where
  abbrev pub Sound : GcpState F W → Docs (Dict F) → Type 0
  Sound = IsSound py hash g accepts docs python fs configured

  abbrev pub AccountsFor :
      GcpState F W → GcpState F W → Docs (Dict F) → Docs (Dict F) → (String → ℕ) → Type 0
  AccountsFor = Accounts py hash g accepts docs python fs configured

  -- One more row for a scope, where the document is new.
  abbrev pub one_if : Bool → String → Dict F → String → ℕ
  one_if new table key i = if new then counts_for py hash i (table, key) 1 else 0

  not_registry :
      (n : Name) (i : String) → (registry_collection == n.collection) ≡ false → (n == at i) ≡ false
  not_registry n i h = elim (Bool-cases (n == at i)) [
    | inl same ↦
        let is_at = (==_iff n (at i)).0 same in
        absurd (cc (h, ==_refl registry_collection, ap (λ (m : Name). m.collection) is_at))
    | inr other ↦ other
  ]

  created_registry :
      (n : Name) (x : Dict F) (d : Docs (Dict F)) (i : String)
      → (registry_collection == n.collection) ≡ false
      → create_doc n x d (at i) ≡ d (at i)
  created_registry n x d i h = create_doc-other n (at i) x d (not_registry n i h)

  created-Sound :
      (n : Name) (x : Dict F) (s s' : GcpState F W) (d : Docs (Dict F))
      → Sound s d
      → (registry_collection == n.collection) ≡ false
      → Left py g accepts docs python fs configured s s' (create_doc n x d)
      → Sound s' (create_doc n x d)
  created-Sound n x s s' d h apart l = record {
    holds = l.holds;
    entries = λ i. rw (created_registry n x d i apart) (h.entries i);
    scopes = rw l.buffer h.scopes;
    bounded = rw l.buffer h.bounded;
  }

  created_counts :
      (n : Name) (x : Dict F) (s s' : GcpState F W) (d : Docs (Dict F)) (i : String)
      → (registry_collection == n.collection) ≡ false
      → Left py g accepts docs python fs configured s s' (create_doc n x d)
      → accounted py hash g accepts docs python fs configured i s' (create_doc n x d)
        ≡ accounted py hash g accepts docs python fs configured i s d
  unfolding registered
  created_counts n x s s' d i apart l = rw (l.buffer, created_registry n x d i apart) refl

  register_if-lem :
      (new : Bool) (table : String) (key : Dict F) (s : GcpState F W) (d : Docs (Dict F))
      → Sound s d
      → IsScope (table, key)
      → Runs
          (register_if py hash g isoformat new table key)
          s
          (λ s' u. AccountsFor s s' d d (one_if new table key))
  register_if-lem true table key s d h scope =
      register_new_row_lem py hash g accepts docs python fs configured table key s d h scope
  register_if-lem false table key s d h scope =
      Runs-pure tt s _
        (record { after = d; sound = h; counted = λ i. omega arith; others = λ m o. refl })

  -- A put returns whether its document is new; it keeps a document that stands there, and counts a
  -- row for its scope exactly if the document is new.
  pub put_new_lem :
      (n : Name) (table : String) (key : Dict F) (row : String → Dict F) (s : GcpState F W)
      (d : Docs (Dict F))
      → Sound s d
      → (registry_collection == n.collection) ≡ false
      → IsScope (table, key)
      → ((x : String) → IsStorableDoc (some (row x)))
      → Runs (put_new py hash g isoformat n table key row) s (λ s' new.
        (new ≡ is_none (d n))
        × AccountsFor s s' d (create_doc n (row (isoformat s.world)) d) (one_if new table key))
  unfolding put_new
  put_new_lem n table key row s d h apart scope storable =
      let x = row (isoformat s.world) in
      let r : Runs
          (create py g n x
            >>= (λ new. register_if py hash g isoformat new table key >>= (λ _. pure new)))
          s
          (λ s' new.
            (new ≡ is_none (d n)) × AccountsFor s s' d (create_doc n x d) (one_if new table key)) =
        Runs-bind (create py g n x)
          (λ new. register_if py hash g isoformat new table key >>= (λ _. pure new)) s
          (create_lem py g accepts docs python fs configured n x s d h.holds
            (storable (isoformat s.world)))
          (λ s' new k.
            Runs-bind (register_if py hash g isoformat new table key) (λ _. pure new) s'
              (register_if-lem new table key s' (create_doc n x d)
                (created-Sound n x s s' d h apart k.1) scope)
              (λ s'' u a. Runs-pure new s'' _ (
                k.0,
                record {
                  after = a.after;
                  sound = a.sound;
                  counted = λ i.
                      a.counted i
                      ∙ ap (λ (c : ℕ). c + one_if new table key i)
                          (created_counts n x s s' d i apart k.1);
                  others = a.others;
                },
              ))) in
      record { after = r.after; value = r.value; returned = r.returned; holds = r.holds }
