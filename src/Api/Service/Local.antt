-- ===== src/Api/Service/Local.antt =====
-- The local store of results as the store of the service. Its state is the database and the ticks of
-- the clock, each of which `stamp` prints as a time.
use berlue.Base.{ℕ, ◌+◌, ◌≡◌, refl, String, Eq, Result, ok, ok-inj}
use berlue.Api.Schemas.{PredictOutput}
use berlue.Api.PredictCache.{Text}
use berlue.Evaluation.Sql.{Database}
use berlue.Evaluation.Store.PredictCache.{Entry, get_predict_cache, put_predict_cache}
use berlue.Evaluation.Store.PredictCache.Entries.{get_predict_cache-put}
use berlue.Api.Service.{PredictStore}
use berlue.Api.Service.Again.{Rereads}

module _ {F : Type 0} ⦃e : Eq F⦄ (t : Text F) (stamp : ℕ → String)
    (dumps : PredictOutput F → String) (loads : String → Result (Result (PredictOutput F))) where
  abbrev pub local_predict_store : PredictStore F (Database F × ℕ)
  local_predict_store = record {
    get_predict_cache = λ q x s. get_predict_cache t loads q x s.0;
    put_predict_cache = λ q x g ex r payload s.
        ok (put_predict_cache t dumps q x g ex r payload (stamp s.1) s.0, s.1 + 1);
  }

  -- Where each payload that `json.dumps` wrote is read back and validates as it was, the local store gives back the entry that
  -- was put last for a question and a temperature, with its models and its payload.
  pub local_predict_store-Rereads :
      ((payload : PredictOutput F) → loads (dumps payload) ≡ ok (ok payload))
      → Rereads local_predict_store
  local_predict_store-Rereads round_trip = record {
    get-put = λ q x g ex r payload s s' h.
        let there =
          get_predict_cache-put t dumps loads q q x g ex r payload (stamp s.1) s.0
            (round_trip payload) refl in
        let entry : Entry F = record {
          question = q;
          generator_model = g;
          extract_model = ex;
          rag_model = r;
          payload = ok payload;
          computed_at = stamp s.1;
        } in
        (entry, rw (← ok-inj h) there, refl, refl);
  }
