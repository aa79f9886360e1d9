-- ===== src/Evaluation/Store/Local.antt =====
-- `LocalResultStore` of berlue/evaluation/result_store.py as the store that `run_eval.py` uses. Its
-- state is the database and the ticks of the clock, each of which `stamp` prints as a time.
use berlue.Base.{ℕ, ◌+◌, ◌≡◌, refl, String, Eq, Result}
use berlue.Evaluation.Signals.{Signals}
use berlue.Evaluation.Sql.{Database, update}
use berlue.Evaluation.Store.{
  EvalScope, get_verdict, put_prediction, get_signals, put_signals, flush_registry, put_matrix,
}
use berlue.Evaluation.Store.Verdicts.{get_verdict-put_self, get_verdict-put_kept}
use berlue.Evaluation.Store.Interface.{ResultStore, IsLawful}

module _ {F : Type 0} ⦃e : Eq F⦄ (hash : String → String) (stamp : ℕ → String)
    (dumps : Signals F → String) (loads : String → Result (Signals F)) where
  abbrev pub local_store : ResultStore F (Database F × ℕ)
  local_store = record {
    get_verdict = λ scope q a s. get_verdict hash scope q a s.0;
    put_prediction =
        λ scope q a gt v s. ((put_prediction hash scope q a gt v (stamp s.1) s.0).0, s.1 + 1);
    get_signals = λ scope q a s. get_signals hash loads scope q a s.0;
    put_signals =
        λ scope q a x s. ((put_signals hash dumps scope q a x (stamp s.1) s.0).0, s.1 + 1);
    flush_registry = λ s. (flush_registry s.0, s.1);
    put_matrix = λ scope m n size s. (put_matrix scope m n size (stamp s.1) s.0, s.1 + 1);
  }

  signals-apart :
      (s : Database F × ℕ) (c : EvalScope F) (q a : String) (c' : EvalScope F) (q' a' : String)
      (x : Signals F)
      → local_store.get_verdict c q a (local_store.put_signals c' q' a' x s)
        ≡ local_store.get_verdict c q a s
  unfolding get_verdict put_signals update
  signals-apart s c q a c' q' a' x = refl

  -- The local store keeps the promises that the evaluation rests on: a verdict that is put is read
  -- back unless one stood there before, no verdict that stands is overwritten by any other put, and
  -- neither putting signals nor flushing the registry moves a verdict.
  pub local_store-IsLawful : IsLawful local_store
  local_store-IsLawful = record {
    read_back = λ s c q a gt v. get_verdict-put_self hash c q a gt v (stamp s.1) s.0;
    kept = λ s c q a w c' q' a' gt v h.
        get_verdict-put_kept hash c q a w c' q' a' gt v (stamp s.1) s.0 h;
    signals_apart = signals-apart;
    flush_apart = λ s c q a. refl;
  }
