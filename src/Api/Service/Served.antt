-- ===== src/Api/Service/Served.antt =====
-- `BerlueService.predict` and the reads and writes of its cache, those that raise included.
use berlue.Base.{
  ◌≡◌, refl, ap, sym, ◌∙◌, Bool, true, false, String, Option, none, some, [], ◌∷◌, Result, ok, err,
  IsOk, nat_eq, if◌then◌else◌,
}
use berlue.Base.Double.{Double}
use berlue.Core.Schemas.{PipelineResult}
use berlue.Api.Schemas.{PredictInput, PredictOrigin, PredictOutput}
use berlue.Api.PredictCache.{Text, all_fit, satisfait}
use berlue.Evaluation.Store.PredictCache.{Entry}
use berlue.Api.Service.{
  PredictStore, Models, tags, entry_tags, expose, served, without_origin, use_entry, serve_payload,
  lire_cache, ecrire_cache, models_of, fresh_output, compute, read_cache, serve_or_compute, predict,
}

abbrev pub from_cache : Option PredictOrigin → Bool
from_cache none = false
from_cache (some o) = o.cached

-- The answer says that it comes from the cache.
abbrev pub is_cached : {F : Type 0} → PredictOutput F → Bool
is_cached output = from_cache output.origin

module _ {F : Type 0} where
  exposed-origin : (b : Bool) (output : PredictOutput F) → (expose b output).origin ≡ output.origin
  exposed-origin true output = refl
  exposed-origin false output = refl

  -- What is shown of an output does not depend on its origin.
  pub exposed-without_origin :
      (b : Bool) (output : PredictOutput F)
      → without_origin (expose b (without_origin output)) ≡ without_origin (expose b output)
  exposed-without_origin true output = refl
  exposed-without_origin false output = refl

absurd_bool : (b : Bool) {A : Type 0} → b ≡ true → b ≡ false → A
absurd_bool true h k = cc
absurd_bool false h k = cc

unless : {A : Type 0} (b : Bool) (r : Result (Option A)) → IsOk r → IsOk (if b then ok none else r)
unless true r h = tt
unless false r h = h

pub asked_cache :
    {F : Type 0} (b : Bool) (r : Result (Option (PredictOutput F))) {out : PredictOutput F}
    → (if b then ok none else r) ≡ ok (some out)
    → (b ≡ false) × (r ≡ ok (some out))
asked_cache true r h = cc
asked_cache false r h = (refl, h)

-- A read or a write that raises.
failed-read :
    {F : Type 0} ⦃d : Double F⦄ (t : Text F) (m : Models) (debug b : Bool)
    (r : Result (Option (Entry F)))
    → ¬ IsOk r
    → (if b then ok none else lire_cache t m debug r) ≡ ok none
failed-read t m debug true r h = refl
failed-read t m debug false (err x) h = refl
failed-read t m debug false (ok o) h = absurd (h tt)

abbrev answered : {A S : Type 0} → A → S → A × S
answered a s = (a, s)

failed-write : {S : Type 0} (s : S) (r : Result S) → ¬ IsOk r → ecrire_cache s r ≡ s
failed-write s (err x) h = refl
failed-write s (ok s') h = absurd (h tt)

-- The payload of the entry that a read gives, if it gives one, validates.
abbrev pub Validates : {F : Type 0} → Result (Option (Entry F)) → Type 0
Validates (err x) = Unit
Validates (ok none) = Unit
Validates (ok (some e)) = IsOk e.payload

module _ {F : Type 0} where
  serve_payload-IsOk :
      (debug : Bool) (e : Entry F) (r : Result (PredictOutput F))
      → IsOk r
      → IsOk (serve_payload debug e r)
  serve_payload-IsOk debug e (err x) h = h
  serve_payload-IsOk debug e (ok output) h = tt

  serve_payload-eq-ok :
      (debug : Bool) (e : Entry F) (r : Result (PredictOutput F)) {out : PredictOutput F}
      → serve_payload debug e r ≡ ok (some out)
      → (output : PredictOutput F) × (r ≡ ok output) × (out ≡ served debug e output)
  serve_payload-eq-ok debug e (err x) h = cc
  serve_payload-eq-ok debug e (ok output) h = (output, refl, cc)

module _ {F : Type 0} ⦃d : Double F⦄ (t : Text F) where
  -- The rule is asked about three models on either side, so it does not raise.
  lire_cache-IsOk :
      (m : Models) (debug : Bool) (r : Result (Option (Entry F)))
      → Validates r
      → IsOk (lire_cache t m debug r)
  unfolding satisfait
  lire_cache-IsOk m debug (err x) v = tt
  lire_cache-IsOk m debug (ok none) v = tt
  lire_cache-IsOk m debug (ok (some e)) v = used (all_fit t (tags m) (entry_tags e))
    where
      used : (b : Bool) → IsOk (use_entry debug e (ok b))
      used true = serve_payload-IsOk debug e e.payload v
      used false = tt

  served-by :
      (m : Models) (debug : Bool) (r : Result (Option (Entry F))) {out : PredictOutput F}
      → lire_cache t m debug r ≡ ok (some out)
      → (e : Entry F) × (output : PredictOutput F) × (r ≡ ok (some e))
        × (satisfait t (tags m) (entry_tags e) ≡ ok true)
        × (e.payload ≡ ok output)
        × (out ≡ served debug e output)
  unfolding satisfait
  served-by m debug (err x) h = cc
  served-by m debug (ok none) h = cc
  served-by m debug (ok (some e)) {out} h =
      let (suits, output, read, same) = used (all_fit t (tags m) (entry_tags e)) h in
      (e, output, refl, ap ok suits, read, same)
    where
      used :
          (b : Bool)
          → use_entry debug e (ok b) ≡ ok (some out)
          → (b ≡ true)
            × (output : PredictOutput F) × (e.payload ≡ ok output)
            × (out ≡ served debug e output)
      used true g =
          let (output, read, same) = serve_payload-eq-ok debug e e.payload g in
          (refl, output, read, same)
      used false g = cc

-- What a request reads from the cache, if there is one, validates.
abbrev pub Readable : {F S : Type 0} → Option (PredictStore F S) → PredictInput F → S → Type 0
Readable none payload s = Unit
Readable (some st) payload s =
    Validates (st.get_predict_cache payload.question payload.llm.temperature s)

module _ {F T S : Type 0} ⦃d : Double F⦄ (t : Text F) (extract_model rag_model : String)
    (run : String → Result (PipelineResult F T))
    (construire_debug : PipelineResult F T → Models → String) where
  read_cache-IsOk :
      (store : Option (PredictStore F S)) (payload : PredictInput F) (s : S)
      → Readable store payload s
      → IsOk (read_cache t extract_model rag_model run construire_debug store payload s)
  read_cache-IsOk none payload s v = tt
  read_cache-IsOk (some st) payload s v = unless payload.ignore_cache _ (
      lire_cache-IsOk t (models_of extract_model rag_model payload) payload.debug
        (st.get_predict_cache payload.question payload.llm.temperature s) v)

  serve-IsOk :
      (store : Option (PredictStore F S)) (payload : PredictInput F) (s : S)
      (r : Result (Option (PredictOutput F)))
      → IsOk r
      → IsOk (run payload.question)
      → IsOk (serve_or_compute t extract_model rag_model run construire_debug store payload s r).0
  serve-IsOk store payload s (err x) h k = absurd h
  serve-IsOk store payload s (ok (some output)) h k = tt
  serve-IsOk store payload s (ok none) h k = ran (run payload.question) k
    where
      ran :
          (r : Result (PipelineResult F T))
          → IsOk r
          → IsOk (compute t extract_model rag_model run construire_debug store payload s r).0
      ran (ok res) i = tt
      ran (err x) i = absurd i

  -- Where the pipeline returns, so does the prediction, whether or not the reads of the cache and the
  -- writes into it raise, provided that the payload of an entry that is read validates.
  pub predict_total :
      (store : Option (PredictStore F S)) (payload : PredictInput F) (s : S)
      → Readable store payload s
      → IsOk (run payload.question)
      → IsOk (predict t extract_model rag_model run construire_debug store payload s).0
  unfolding predict
  predict_total store payload s v h =
      serve-IsOk store payload s
        (read_cache t extract_model rag_model run construire_debug store payload s)
        (read_cache-IsOk store payload s v) h

  computed-fresh :
      (store : Option (PredictStore F S)) (payload : PredictInput F) (s : S)
      (r : Result (PipelineResult F T)) {out : PredictOutput F}
      → (compute t extract_model rag_model run construire_debug store payload s r).0 ≡ ok out
      → is_cached out ≡ false
  computed-fresh store payload s (err x) h = cc
  computed-fresh store payload s (ok res) {out} h =
      let output = fresh_output t extract_model rag_model run construire_debug payload res in
      let same : expose payload.debug output ≡ out = cc in
      ap from_cache
        (ap (λ (x : PredictOutput F). x.origin) (sym same) ∙ exposed-origin payload.debug output)

  origin-served :
      (st : PredictStore F S) (payload : PredictInput F) (s : S)
      (r : Result (Option (PredictOutput F))) {out : PredictOutput F}
      → (serve_or_compute t extract_model rag_model run construire_debug (some st) payload s r).0
        ≡ ok out
      → is_cached out ≡ true
      → r ≡ ok (some out)
  origin-served st payload s (err x) h k = cc
  origin-served st payload s (ok (some output)) h k = cc
  origin-served st payload s (ok none) {out} h k =
      absurd_bool (is_cached out) k (computed-fresh (some st) payload s (run payload.question) h)

  -- An answer that says it comes from the cache is the payload of the entry that the store gives for
  -- the question and the temperature, made by models that satisfy the three that are asked for, and
  -- the caller did not ask to ignore the cache.
  pub predict-served :
      (st : PredictStore F S) (payload : PredictInput F) (s : S) {out : PredictOutput F}
      → (predict t extract_model rag_model run construire_debug (some st) payload s).0 ≡ ok out
      → is_cached out ≡ true
      → (payload.ignore_cache ≡ false)
        × (e : Entry F) × (output : PredictOutput F) × (st.get_predict_cache payload.question
              payload.llm.temperature s
            ≡ ok (some e))
        × (satisfait t (payload.llm.name ∷ extract_model ∷ rag_model ∷ []) (entry_tags e) ≡ ok true)
        × (e.payload ≡ ok output)
        × (out ≡ served payload.debug e output)
  unfolding predict
  predict-served st payload s h k =
      let read =
        origin-served st payload s
          (read_cache t extract_model rag_model run construire_debug (some st) payload s) h k in
      let (asked, found) = asked_cache payload.ignore_cache _ read in
      let (e, output, given, suits, valid, same) =
        served-by t (models_of extract_model rag_model payload) payload.debug
          (st.get_predict_cache payload.question payload.llm.temperature s) found in
      (asked, e, output, given, suits, valid, same)

  compute-failed :
      (st : PredictStore F S) (payload : PredictInput F) (s : S) (r : Result (PipelineResult F T))
      → ((g ex m : String) (output : PredictOutput F)
          → ¬ IsOk (st.put_predict_cache payload.question payload.llm.temperature g ex m output s))
      → compute t extract_model rag_model run construire_debug (some st) payload s r
        ≡ compute t extract_model rag_model run construire_debug none payload s r
  compute-failed st payload s (err x) k = refl
  compute-failed st payload s (ok res) k =
      let output = fresh_output t extract_model rag_model run construire_debug payload res in
      ap (answered (ok (expose payload.debug output)))
        (failed-write s _ (k payload.llm.name extract_model rag_model (without_origin output)))

  -- Where the read of the cache and the write into it raise, the prediction is what it is without a
  -- store.
  pub predict_despite_cache :
      (st : PredictStore F S) (payload : PredictInput F) (s : S)
      → ¬ IsOk (st.get_predict_cache payload.question payload.llm.temperature s)
      → ((g ex r : String) (output : PredictOutput F)
          → ¬ IsOk (st.put_predict_cache payload.question payload.llm.temperature g ex r output s))
      → predict t extract_model rag_model run construire_debug (some st) payload s
        ≡ predict t extract_model rag_model run construire_debug none payload s
  unfolding predict
  predict_despite_cache st payload s h k =
      rw
        (failed-read t (models_of extract_model rag_model payload) payload.debug
          payload.ignore_cache (st.get_predict_cache payload.question payload.llm.temperature s) h)
        (compute-failed st payload s (run payload.question) k)
