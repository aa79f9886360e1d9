-- ===== src/Evaluation/Store/Interface.antt =====
-- What the evaluation of mode 1 asks of a store of results, local or remote, and the laws that its
-- loop rests on.
use berlue.Base.{ℕ, ◌≡◌, Bool, String, Option, some, Result, ok}
use berlue.Core.Schemas.{Verdict}
use berlue.Evaluation.Metrics.{ConfusionMatrix}
use berlue.Evaluation.Signals.{Signals}
use berlue.Evaluation.Store.{EvalScope}
use berlue.Evaluation.Store.Verdicts.{stored_or}

pub record ResultStore (F S : Type 0) : Type 0 where
  pub get_verdict : EvalScope F → String → String → S → Result (Option Verdict)
  pub put_prediction : EvalScope F → String → String → Bool → Verdict → S → S
  pub get_signals : EvalScope F → String → String → S → Result (Option (Signals F))
  pub put_signals : EvalScope F → String → String → Signals F → S → S
  pub flush_registry : S → S
  pub put_matrix : EvalScope F → ConfusionMatrix → ℕ → Option ℕ → S → S

-- Predictions are read back, are never overwritten, and are moved by no other operation.
pub record IsLawful {F S : Type 0} (st : ResultStore F S) : Type 0 where
  pub read_back :
      (s : S) (c : EvalScope F) (q a : String) (gt : Bool) (v : Verdict)
      → st.get_verdict c q a (st.put_prediction c q a gt v s) ≡ stored_or (st.get_verdict c q a s) v
  pub kept :
      (s : S) (c : EvalScope F) (q a : String) (w : Verdict) (c' : EvalScope F) (q' a' : String)
      (gt : Bool) (v : Verdict)
      → st.get_verdict c q a s ≡ ok (some w)
      → st.get_verdict c q a (st.put_prediction c' q' a' gt v s) ≡ ok (some w)
  pub signals_apart :
      (s : S) (c : EvalScope F) (q a : String) (c' : EvalScope F) (q' a' : String) (x : Signals F)
      → st.get_verdict c q a (st.put_signals c' q' a' x s) ≡ st.get_verdict c q a s
  pub flush_apart :
      (s : S) (c : EvalScope F) (q a : String)
      → st.get_verdict c q a (st.flush_registry s) ≡ st.get_verdict c q a s
