-- ===== src/Evaluation/Gcp/Results/Verdicts.antt =====
-- The verdicts of `GcpResultStore`: what is read after a put, at every key.
use berlue.Base.{
  ℕ, ◌+◌, ◌≡◌, refl, sym, ap, ◌∙◌, Bool, true, false, ◌⊎◌, inl, inr, String, Option, none, some, [],
  ◌∷◌, Result, ok, err, Eq, arith, Bool-cases, Option-cases, ◌==◌, ==_iff, string_eq, if◌then◌else◌,
}
use berlue.Base.Act.{Act, Runs, Runs-imp}
use berlue.Core.Schemas.{Verdict, verdict_of-verdict_value}
use berlue.Evaluation.Store.{EvalScope, mode1_key}
use berlue.Evaluation.Store.Verdicts.{stored_or}
use berlue.Evaluation.Gcp.{
  Dict, Fields, Python, Name, Google, GcpState, dict, find_key, running_on_cloud_run,
}
use berlue.Evaluation.Gcp.Codec.{IsPython}
use berlue.Evaluation.Gcp.Firestore.{Docs, create_doc, IsFirestore, name_eq}
use berlue.Evaluation.Gcp.Documents.{IsStorableDoc, Left, get_lem, is_none}
use berlue.Evaluation.Gcp.Registry.{registry_collection}
use berlue.Evaluation.Gcp.Registry.Entries.{IsScope}
use berlue.Evaluation.Gcp.Registry.Accounts.{accounted}
use berlue.Evaluation.Gcp.Results.{
  if_found, verdict_in, verdict_named, found, prediction_name, prediction_doc, get_verdict,
  put_prediction, put_new,
}
use berlue.Evaluation.Gcp.Results.Puts.{Sound, one_if, put_new_lem}

stored_stays : (r : Result Verdict) (v : Verdict) → found r ≡ stored_or (found r) v
stored_stays (ok w) v = refl
stored_stays (err e) v = refl

module _ {F : Type 0} where
  -- What a method that reads a verdict returns of a document.
  abbrev pub verdict_at : Docs (Dict F) → Name → Result (Option Verdict)
  verdict_at d n = if_found verdict_in (d n)

  -- The verdict that was stored at `n` stays, or else the new one is there; the others stay.
  abbrev pub verdicts_with : Name → Verdict → Docs (Dict F) → Name → Result (Option Verdict)
  verdicts_with n v d m = if n == m then stored_or (verdict_at d m) v else verdict_at d m

  document_stays :
      (o : Option (Dict F)) (y : Dict F) (v : Verdict)
      → o ≡ some y
      → IsStorableDoc o
      → if_found verdict_in o ≡ stored_or (if_found verdict_in o) v
  document_stays none y v e h = cc
  document_stays (some []) y v e h = absurd h
  document_stays (some (f ∷ x)) y v e h = stored_stays (verdict_in (f ∷ x)) v

  pub verdict_at-create_doc :
      (n m : Name) (x : Dict F) (v : Verdict) (d : Docs (Dict F))
      → IsStorableDoc (d n)
      → if_found verdict_in (some x) ≡ ok (some v)
      → verdict_at (create_doc n x d) m ≡ verdicts_with n v d m
  verdict_at-create_doc n m x v d h new = elim (Bool-cases (n == m)) [
    | inl same ↦ elim (Option-cases (d n)) [
      | inl e ↦
          let there : d m ≡ none = ap d (sym ((==_iff n m).0 same)) ∙ e in
          rw e (rw same (rw there new))
      | inr (y, e) ↦
          let there : d m ≡ d n = ap d (sym ((==_iff n m).0 same)) in
          rw e (rw same (rw there (document_stays (d n) y v e h)))
    ]
    | inr other ↦ elim (Option-cases (d n)) [
      | inl e ↦ rw e (rw other refl)
      | inr (y, e) ↦ rw e (rw other refl)
    ]
  ]

module _ {F W : Type 0} ⦃e : Eq F⦄ (py : Python F) (hash : String → String) (g : Google F W)
    (isoformat : W → String) (accepts : W → String → Bool) (docs : W → Docs (Fields F))
    (python : IsPython py) (fs : IsFirestore py g accepts docs)
    (configured : (running_on_cloud_run g ≡ true) ⊎ ((g.service_account == "") ≡ false)) where
  abbrev pub SoundHere : GcpState F W → Docs (Dict F) → Type 0
  SoundHere = Sound py hash g isoformat accepts docs python fs configured

  -- A put of the verdict `v` in the document `n`, which counts `count` more rows.
  pub record Stores (s s' : GcpState F W) (d : Docs (Dict F)) (n : Name) (v : Verdict)
      (count : String → ℕ) : Type 0 where
    pub after : Docs (Dict F)
    pub sound : SoundHere s' after
    pub reads :
        (m : Name)
        → (registry_collection == m.collection) ≡ false
        → verdict_at after m ≡ verdicts_with n v d m
    pub counted :
        (i : String)
        → accounted py hash g accepts docs python fs configured i s' after
          ≡ accounted py hash g accepts docs python fs configured i s d + count i

  -- The call returns what it reads of the document `n`, and no document changes.
  pub record Reads (m : Act (GcpState F W) (Option Verdict)) (s : GcpState F W) (d : Docs (Dict F))
      (n : Name) : Type 0 where
    pub after : GcpState F W
    pub returned : m s ≡ (after, verdict_at d n)
    pub sound : SoundHere after d

  pub kept_sound :
      (s s' : GcpState F W) (d : Docs (Dict F))
      → SoundHere s d
      → Left py g accepts docs python fs configured s s' d
      → SoundHere s' d
  kept_sound s s' d h l = record {
    holds = l.holds;
    entries = h.entries;
    scopes = rw l.buffer h.scopes;
    bounded = rw l.buffer h.bounded;
  }

  pub stores :
      (n : Name) (table : String) (key : Dict F) (row : String → Dict F) (v : Verdict)
      (s : GcpState F W) (d : Docs (Dict F))
      → SoundHere s d
      → (registry_collection == n.collection) ≡ false
      → IsScope (table, key)
      → ((x : String) → IsStorableDoc (some (row x)))
      → ((x : String) → if_found verdict_in (some (row x)) ≡ ok (some v))
      → Runs (put_new py hash g isoformat n table key row) s (λ s' new.
        (new ≡ is_none (d n))
        × Stores s s' d n v
            (one_if py hash g isoformat accepts docs python fs configured new table key))
  stores n table key row v s d h apart scope storable new =
      Runs-imp (put_new py hash g isoformat n table key row) s
        (put_new_lem py hash g isoformat accepts docs python fs configured n table key row s d h
          apart scope storable)
        (λ s' b r. (
          r.0,
          record {
            after = r.1.after;
            sound = r.1.sound;
            reads = λ m o.
                ap (if_found verdict_in) (r.1.others m o)
                ∙ verdict_at-create_doc n m (row (isoformat s.world)) v d (h.holds.storable n)
                    (new (isoformat s.world));
            counted = r.1.counted;
          },
        ))

  prediction-verdict :
      (c : EvalScope F) (q a : String) (gt : Bool) (v : Verdict) (x : String)
      → if_found verdict_in (some (prediction_doc py hash g isoformat c q a gt v x)) ≡ ok (some v)
  unfolding find_key
  prediction-verdict c q a gt v x = rw (verdict_of-verdict_value v, verdict_named) refl

  -- A prediction that is put is read back at its key, unless one stood there: that one stays, at
  -- this key and at any other. The call returns whether it is new, and its scope counts one more
  -- row exactly then.
  pub put_prediction-Stores :
      (c : EvalScope F) (q a : String) (gt : Bool) (v : Verdict) (s : GcpState F W)
      (d : Docs (Dict F))
      → SoundHere s d
      → Runs (put_prediction py hash g isoformat c q a gt v) s (λ s' new.
        (new ≡ is_none (d (prediction_name py hash g isoformat c q a)))
        × Stores s s' d (prediction_name py hash g isoformat c q a) v (
            one_if py hash g isoformat accepts docs python fs configured new "eval_predictions"
              (dict (mode1_key c))))
  unfolding put_prediction find_key
  put_prediction-Stores c q a gt v s d h =
      stores (prediction_name py hash g isoformat c q a) "eval_predictions" (dict (mode1_key c))
        (prediction_doc py hash g isoformat c q a gt v) v s d h refl (omega arith, refl)
        (λ x. omega arith) (prediction-verdict c q a gt v)

  -- A verdict is read as it is stored, whatever token is held on; reading changes no document.
  pub get_verdict-Reads :
      (c : EvalScope F) (q a : String) (s : GcpState F W) (d : Docs (Dict F))
      → SoundHere s d
      → Reads
          (get_verdict py hash g isoformat c q a)
          s
          d
          (prediction_name py hash g isoformat c q a)
  unfolding get_verdict
  get_verdict-Reads c q a s d h =
      let n = prediction_name py hash g isoformat c q a in
      let r = get_lem py g accepts docs python fs configured n s d h.holds in
      record {
        after = r.after;
        returned = rw (r.returned, r.holds.0) refl;
        sound = kept_sound s r.after d h r.holds.1;
      }
