-- ===== src/Evaluation/Gcp/Results/Judged.antt =====
-- Mode 2 of `GcpResultStore`: the verdicts of the judge, of Berlue and of the baseline are read back.
use berlue.Base.{◌≡◌, refl, Bool, true, ◌⊎◌, String, some, ok, Eq, arith, ◌==◌, string_eq, false}
use berlue.Base.Act.{Runs}
use berlue.Core.Schemas.{Verdict, verdict_of-verdict_value}
use berlue.Evaluation.Store.{EvalScope, generated_key, baseline_scope}
use berlue.Evaluation.Store.Generated.{judge_scope}
use berlue.Evaluation.Gcp.{
  Dict, Fields, Python, Google, GcpState, dict, find_key, running_on_cloud_run,
}
use berlue.Evaluation.Gcp.Codec.{IsPython}
use berlue.Evaluation.Gcp.Firestore.{Docs, IsFirestore}
use berlue.Evaluation.Gcp.Documents.{IsStorableDoc, get_lem, is_none}
use berlue.Evaluation.Gcp.Registry.{registry_collection}
use berlue.Evaluation.Gcp.Registry.Entries.{IsScope}
use berlue.Evaluation.Gcp.Results.{if_found, verdict_in, verdict_named}
use berlue.Evaluation.Gcp.Results.Puts.{one_if}
use berlue.Evaluation.Gcp.Results.Generated.{
  question_name, read_verdict_of, verdict_doc, put_verdict_of, get_judge_verdict, put_judge_verdict,
  get_generated_berlue_verdict, put_generated_berlue_verdict, get_generated_baseline_verdict,
  put_generated_baseline_verdict,
}
use berlue.Evaluation.Gcp.Results.Verdicts.{SoundHere, Stores, Reads, kept_sound, stores}

module _ {F W : Type 0} ⦃e : Eq F⦄ (py : Python F) (hash : String → String) (g : Google F W)
    (isoformat : W → String) (accepts : W → String → Bool) (docs : W → Docs (Fields F))
    (python : IsPython py) (fs : IsFirestore py g accepts docs)
    (configured : (running_on_cloud_run g ≡ true) ⊎ ((g.service_account == "") ≡ false)) where
  abbrev Here : GcpState F W → Docs (Dict F) → Type 0
  Here = SoundHere py hash g isoformat accepts docs python fs configured

  -- The put of a verdict under a key and a question: whether it is new is returned, a verdict that
  -- stood there stays, and the scope counts one more row exactly if it is new.
  abbrev pub StoresUnder :
      String
      → Dict F
      → String
      → Verdict
      → GcpState F W
      → Docs (Dict F)
      → GcpState F W
      → Bool
      → Type 0
  StoresUnder table key q v s d s' new =
      (new ≡ is_none (d (question_name py hash g isoformat table key q)))
      × Stores py hash g isoformat accepts docs python fs configured s s' d
          (question_name py hash g isoformat table key q) v
          (one_if py hash g isoformat accepts docs python fs configured new table key)

  read_verdict_of-Reads :
      (table : String) (key : Dict F) (q : String) (s : GcpState F W) (d : Docs (Dict F))
      → Here s d
      → Reads py hash g isoformat accepts docs python fs configured
          (read_verdict_of py hash g isoformat table key q)
          s
          d
          (question_name py hash g isoformat table key q)
  read_verdict_of-Reads table key q s d h =
      let n = question_name py hash g isoformat table key q in
      let r = get_lem py g accepts docs python fs configured n s d h.holds in
      record {
        after = r.after;
        returned = rw (r.returned, r.holds.0) refl;
        sound =
            kept_sound py hash g isoformat accepts docs python fs configured s r.after d h
              r.holds.1;
      }

  put_verdict_of-Stores :
      (table : String) (key : Dict F) (q : String) (v : Verdict) (s : GcpState F W)
      (d : Docs (Dict F))
      → Here s d
      → (registry_collection == table) ≡ false
      → IsScope (table, key)
      → ((x : String) → IsStorableDoc (some (verdict_doc py hash g isoformat key q v x)))
      → ((x : String)
          → if_found verdict_in (some (verdict_doc py hash g isoformat key q v x)) ≡ ok (some v))
      → Runs (put_verdict_of py hash g isoformat table key q v) s (StoresUnder table key q v s d)
  put_verdict_of-Stores table key q v s d h apart scope storable new =
      stores py hash g isoformat accepts docs python fs configured
        (question_name py hash g isoformat table key q) table key
        (verdict_doc py hash g isoformat key q v) v s d h apart scope storable new

  -- A verdict of the judge that is put is read back by its key, unless one stood there.
  put_judge_verdict-Stores :
      (model_id generation_version judge_model eval_version q : String) (v : Verdict)
      (s : GcpState F W) (d : Docs (Dict F))
      → Here s d
      → Runs
          (put_judge_verdict py hash g isoformat model_id generation_version judge_model
            eval_version q v)
          s
          (StoresUnder "judge_verdicts"
            (dict (judge_scope model_id generation_version judge_model eval_version))
            q
            v
            s
            d)
  unfolding put_judge_verdict find_key
  put_judge_verdict-Stores model_id generation_version judge_model eval_version q v s d h =
      put_verdict_of-Stores "judge_verdicts"
        (dict (judge_scope model_id generation_version judge_model eval_version)) q v s d h refl
        (omega arith, refl) (λ x. omega arith)
        (λ x. rw (verdict_of-verdict_value v, verdict_named) refl)

  put_berlue_verdict-Stores :
      (c : EvalScope F) (q : String) (v : Verdict) (s : GcpState F W) (d : Docs (Dict F))
      → Here s d
      → Runs
          (put_generated_berlue_verdict py hash g isoformat c q v)
          s
          (StoresUnder "eval_berlue_generated" (dict (generated_key c)) q v s d)
  unfolding put_generated_berlue_verdict find_key
  put_berlue_verdict-Stores c q v s d h =
      put_verdict_of-Stores "eval_berlue_generated" (dict (generated_key c)) q v s d h refl
        (omega arith, refl) (λ x. omega arith)
        (λ x. rw (verdict_of-verdict_value v, verdict_named) refl)

  put_baseline_verdict-Stores :
      (dataset : String) (ratio : F) (model_id generation_version eval_version q : String)
      (v : Verdict) (s : GcpState F W) (d : Docs (Dict F))
      → Here s d
      → Runs
          (put_generated_baseline_verdict py hash g isoformat dataset ratio model_id
            generation_version eval_version q v)
          s
          (StoresUnder "eval_baseline_generated"
            (dict (baseline_scope dataset ratio model_id generation_version eval_version))
            q
            v
            s
            d)
  unfolding put_generated_baseline_verdict find_key
  put_baseline_verdict-Stores dataset ratio model_id generation_version eval_version q v s d h =
      put_verdict_of-Stores "eval_baseline_generated"
        (dict (baseline_scope dataset ratio model_id generation_version eval_version)) q v s d h
        refl (omega arith, refl) (λ x. omega arith)
        (λ x. rw (verdict_of-verdict_value v, verdict_named) refl)

  -- The three kinds of verdicts of mode 2 are put and read under their keys, each in a collection of
  -- its own: a put keeps the verdict that stands there and returns whether there was none, and a
  -- read gives what is stored.
  pub generated_verdicts-Stores :
      (c : EvalScope F) (judge_model q : String) (v : Verdict) (s : GcpState F W)
      (d : Docs (Dict F))
      → Here s d
      → Runs
          (put_judge_verdict py hash g isoformat c.model_id c.generation_version judge_model
            c.eval_version q v)
          s
          (StoresUnder "judge_verdicts"
            (dict (judge_scope c.model_id c.generation_version judge_model c.eval_version))
            q
            v
            s
            d)
        × Runs
            (put_generated_berlue_verdict py hash g isoformat c q v)
            s
            (StoresUnder "eval_berlue_generated" (dict (generated_key c)) q v s d)
        × Runs
            (put_generated_baseline_verdict py hash g isoformat c.dataset c.ratio c.model_id
              c.generation_version c.eval_version q v)
            s
            (StoresUnder "eval_baseline_generated"
              (dict
                (baseline_scope c.dataset c.ratio c.model_id c.generation_version c.eval_version))
              q
              v
              s
              d)
        × Reads py hash g isoformat accepts docs python fs configured
            (get_judge_verdict py hash g isoformat c.model_id c.generation_version judge_model
              c.eval_version q)
            s
            d
            (question_name py hash g isoformat "judge_verdicts"
              (dict (judge_scope c.model_id c.generation_version judge_model c.eval_version))
              q)
        × Reads py hash g isoformat accepts docs python fs configured
            (get_generated_berlue_verdict py hash g isoformat c q)
            s
            d
            (question_name py hash g isoformat "eval_berlue_generated" (dict (generated_key c)) q)
        × Reads py hash g isoformat accepts docs python fs configured
            (get_generated_baseline_verdict py hash g isoformat c.dataset c.ratio c.model_id
              c.generation_version c.eval_version q)
            s
            d
            (question_name py hash g isoformat "eval_baseline_generated"
              (dict
                (baseline_scope c.dataset c.ratio c.model_id c.generation_version c.eval_version))
              q)
  unfolding get_judge_verdict get_generated_berlue_verdict get_generated_baseline_verdict
  generated_verdicts-Stores c judge_model q v s d h = (
    put_judge_verdict-Stores c.model_id c.generation_version judge_model c.eval_version q v s d h,
    put_berlue_verdict-Stores c q v s d h,
    put_baseline_verdict-Stores c.dataset c.ratio c.model_id c.generation_version c.eval_version q v
        s d h,
    read_verdict_of-Reads "judge_verdicts"
        (dict (judge_scope c.model_id c.generation_version judge_model c.eval_version)) q s d h,
    read_verdict_of-Reads "eval_berlue_generated" (dict (generated_key c)) q s d h,
    read_verdict_of-Reads "eval_baseline_generated"
        (dict (baseline_scope c.dataset c.ratio c.model_id c.generation_version c.eval_version)) q s
        d h,
  )
