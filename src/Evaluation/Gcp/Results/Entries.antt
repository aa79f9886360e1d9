-- ===== src/Evaluation/Gcp/Results/Entries.antt =====
-- The cache of predictions of `GcpResultStore`: an entry is read back as it was last written.
use berlue.Base.{
  ◌≡◌, refl, sym, ap, ◌∙◌, Bool, true, false, ◌⊎◌, String, some, Result, ok, Eq, arith, ◌==◌,
  string_eq,
}
use berlue.Base.Act.{Runs, ◌>>=◌}
use berlue.Api.Schemas.{PredictOutput}
use berlue.Api.PredictCache.{Text, normaliser_question}
use berlue.Evaluation.Gcp.{Dict, Fields, Python, Google, GcpState, find_key, running_on_cloud_run}
use berlue.Evaluation.Gcp.Codec.{IsPython}
use berlue.Evaluation.Gcp.Firestore.{Docs, put_doc, IsFirestore, name_eq}
use berlue.Evaluation.Gcp.Documents.{Holds, get_lem, write_lem}
use berlue.Evaluation.Gcp.Registry.Sent.{put_doc_self}
use berlue.Evaluation.Gcp.Results.Cache.{
  predict_cache_name, cache_doc, read_entry, put_predict_cache, get_predict_cache,
}

module _ {F W : Type 0} ⦃e : Eq F⦄ (py : Python F) (hash : String → String) (g : Google F W)
    (isoformat : W → String) (t : Text F) (accepts : W → String → Bool) (docs : W → Docs (Fields F))
    (python : IsPython py) (fs : IsFirestore py g accepts docs)
    (configured : (running_on_cloud_run g ≡ true) ⊎ ((g.service_account == "") ≡ false)) where
  same_name :
      (q q' : String) (x : F)
      → normaliser_question t q ≡ normaliser_question t q'
      → predict_cache_name py hash g isoformat t q x ≡ predict_cache_name py hash g isoformat t q' x
  unfolding predict_cache_name
  same_name q q' x h = rw h refl

  entry_read :
      (dumps : PredictOutput F → String) (loads : String → Result (Result (PredictOutput F)))
      (q : String) (x : F) (generator extract rag : String) (p : PredictOutput F)
      (r : Result (PredictOutput F)) (now : String)
      → loads (dumps p) ≡ ok r
      → read_entry loads
          (some (cache_doc py hash g isoformat t dumps q x generator extract rag p now))
        ≡ ok (
            some (record {
              question = q;
              generator_model = generator;
              extract_model = extract;
              rag_model = rag;
              payload = r;
              computed_at = now;
            }))
  unfolding find_key
  entry_read dumps loads q x generator extract rag p r now h = rw h refl

  -- What is written for a question and a temperature is read for every question with the same key,
  -- at that temperature: the models, the payload that JSON gives back, and the time of the write,
  -- whatever entry stood there.
  pub put_predict_cache-Reads :
      (dumps : PredictOutput F → String) (loads : String → Result (Result (PredictOutput F)))
      (q q' : String) (x : F) (generator extract rag : String) (p : PredictOutput F)
      (r : Result (PredictOutput F)) (s : GcpState F W) (d : Docs (Dict F))
      → Holds py (docs s.world) d
      → loads (dumps p) ≡ ok r
      → normaliser_question t q ≡ normaliser_question t q'
      → Runs
          (put_predict_cache py hash g isoformat t dumps q x generator extract rag p
            >>= (λ _. get_predict_cache py hash g isoformat t loads q' x))
          s
          (λ s' found.
            found
            ≡ some (record {
              question = q;
              generator_model = generator;
              extract_model = extract;
              rag_model = rag;
              payload = r;
              computed_at = isoformat s.world;
            }))
  unfolding put_predict_cache get_predict_cache
  put_predict_cache-Reads dumps loads q q' x generator extract rag p r s d h same key =
      let now = isoformat s.world in
      let doc = cache_doc py hash g isoformat t dumps q x generator extract rag p now in
      let n = predict_cache_name py hash g isoformat t q x in
      let n' = predict_cache_name py hash g isoformat t q' x in
      let put = write_lem py g accepts docs python fs configured n doc s d h (omega arith) in
      let read =
        get_lem py g accepts docs python fs configured n' put.after (put_doc n doc d)
          put.holds.holds in
      let there : put_doc n doc d n' ≡ some doc =
        ap (λ m. put_doc n doc d m) (sym (same_name q q' x key)) ∙ put_doc_self n doc d in
      record {
        after = read.after;
        value = some (record {
          question = q;
          generator_model = generator;
          extract_model = extract;
          rag_model = rag;
          payload = r;
          computed_at = now;
        });
        returned =
            rw
              (
                put.returned,
                read.returned,
                read.holds.0,
                there,
                entry_read dumps loads q x generator extract rag p r now same,
              )
              refl;
        holds = refl;
      }
