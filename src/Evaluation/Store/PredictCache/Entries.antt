-- ===== src/Evaluation/Store/PredictCache/Entries.antt =====
-- The cache of predictions of `LocalResultStore`: reads after a put.
use berlue.Base.{◌≡◌, refl, true, String, some, Eq, Result, ok, ==_refl, string_eq, nat_eq}
use berlue.Api.Schemas.{PredictOutput}
use berlue.Api.PredictCache.{Text, normaliser_question}
use berlue.Evaluation.Sql.{Database, matches}
use berlue.Evaluation.Sql.Reads.{update_self, select_one-replace}
use berlue.Evaluation.Store.Tables.{predict_cache_key}
use berlue.Evaluation.Store.PredictCache.{
  cache_key, cache_row, get_predict_cache, put_predict_cache,
}

module _ {F : Type 0} ⦃e : Eq F⦄ (t : Text F) (dumps : PredictOutput F → String)
    (loads : String → Result (Result (PredictOutput F))) where
  cache_row-matches :
      (q : String) (x : F) (g ex r : String) (payload : PredictOutput F) (now : String)
      → matches (cache_key t q x) (cache_row t dumps q x g ex r payload now) ≡ true
  unfolding matches
  cache_row-matches q x g ex r payload now = simp (==_refl {A = String}, ==_refl {A = F})

  -- Where the payload that `json.dumps` wrote is read back and validates as it was, an entry that is put replaces the one of
  -- its question and temperature: whoever asks a question with the same key at this temperature
  -- reads the new models, the new payload and the new time.
  pub get_predict_cache-put :
      (q q' : String) (x : F) (g ex r : String) (payload : PredictOutput F) (now : String)
      (db : Database F)
      → loads (dumps payload) ≡ ok (ok payload)
      → normaliser_question t q' ≡ normaliser_question t q
      → get_predict_cache t loads q' x (put_predict_cache t dumps q x g ex r payload now db)
        ≡ ok (
            some (record {
              question = q;
              generator_model = g;
              extract_model = ex;
              rag_model = r;
              payload = ok payload;
              computed_at = now;
            }))
  unfolding get_predict_cache put_predict_cache
  get_predict_cache-put q q' x g ex r payload now db round_trip same =
      rw
        (
          same,
          update_self,
          select_one-replace predict_cache_key (cache_row t dumps q x g ex r payload now)
              (db "predict_cache") (cache_row-matches q x g ex r payload now),
        )
        (rw round_trip refl)
