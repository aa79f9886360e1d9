-- ===== src/Evaluation/Gcp/Purge/Survivors.antt =====
-- What a purge leaves in the collections of Firestore.
use berlue.Base.{
  ◌≡◌, refl, sym, ap, ◌∙◌, Bool, true, false, ◌&&◌, ◌⊎◌, inl, inr, String, ◌<>◌, Option, none, some,
  List, [], ◌∷◌, map, ok, Eq, any, Bool-cases, ◌==◌, ==_iff, string_eq, if◌then◌else◌,
}
use berlue.Base.Act.{Runs, Runs-bind, Runs-pure, Runs-imp, pure, ◌>>=◌}
use berlue.Evaluation.Sql.{Filters}
use berlue.Evaluation.Store.Purge.{PurgeFilters, one_of, demandes, scopes_valides}
use berlue.Evaluation.Gcp.{
  str, Dict, Fields, Python, Name, Google, GcpState, dict, to_fields, running_on_cloud_run,
}
use berlue.Evaluation.Gcp.Codec.{IsPython}
use berlue.Evaluation.Gcp.Firestore.{Docs, selected, IsFirestore, name_eq}
use berlue.Evaluation.Gcp.Documents.{coded, Holds}
use berlue.Evaluation.Gcp.Deletions.{selects, without_selected, delete_matching-Left}
use berlue.Evaluation.Gcp.Registry.{flush_registry, registry_collection}
use berlue.Evaluation.Gcp.Registry.Accounts.{IsSound, flush_registry_lem}
use berlue.Evaluation.Gcp.BigQuery.{
  BigQuery, Param, Job, purge_bigquery, bq_where, bq_table_ref, where_true, affected,
}
use berlue.Evaluation.Gcp.Purge.{
  Backend, firestore, bigquery, Step, concerne, steps, purge_firestore, purge_in, run_step,
  run_steps, purge,
}

abbrev pub on_firestore : Backend → Bool
on_firestore firestore = true
on_firestore bigquery = false

-- Whether a step deletes the document `m`, which stands for `o`.
abbrev pub goes :
    {F : Type 0} ⦃e : Eq F⦄ → Python F → Filters F → Name → Option (Dict F) → Step F → Bool
goes py asked m o s =
    concerne asked s.filters
    && (on_firestore s.backend && selected s.table (to_fields py (dict s.filters)) m (coded py o))

-- The document `m` after the steps.
abbrev pub rest_of :
    {F : Type 0} ⦃e : Eq F⦄
    → Python F
    → Filters F
    → List (Step F)
    → Name
    → Option (Dict F)
    → Option (Dict F)
rest_of py asked ss m o = if any (goes py asked m o) ss then none else o

==_flip : (a b : String) → (a == b) ≡ false → (b == a) ≡ false
==_flip a b h = elim (Bool-cases (b == a)) [
  | inl same ↦ absurd (cc (h, (==_iff a b).1 (sym ((==_iff b a).0 same))))
  | inr other ↦ other
]

-- A query of one collection selects no document of another.
not_selected :
    {F : Type 0} ⦃e : Eq F⦄ (c : String) (f : Fields F) (m : Name) (o : Option (Fields F))
    → (m.collection == c) ≡ false
    → selected c f m o ≡ false
not_selected c f m none h = refl
not_selected c f m (some x) h = rw h refl

both_none : {A : Type 0} (b : Bool) → ◌≡◌ {A = Option A} (if b then none else none) none
both_none true = refl
both_none false = refl

module _ {F W : Type 0} ⦃e : Eq F⦄ (py : Python F) (hash : String → String) (g : Google F W)
    (bq : BigQuery F W) (accepts : W → String → Bool) (docs : W → Docs (Fields F))
    (python : IsPython py) (fs : IsFirestore py g accepts docs)
    (configured : (running_on_cloud_run g ≡ true) ⊎ ((g.service_account == "") ≡ false)) where
  -- A job of BigQuery returns, and moves no document of Firestore.
  pub record IsApart : Type 0 where
    pub runs :
        (q : String) (ps : List (Param F)) (w : W)
        → (w' : W) × (job : Job F) × (bq.query q ps w ≡ (w', ok job)) × (docs w' ≡ docs w)

  -- The documents after some of the steps, the registry aside.
  pub record Purged (s : GcpState F W) (d : Docs (Dict F)) (asked : Filters F) (ss : List (Step F))
      : Type 0 where
    pub after : Docs (Dict F)
    pub holds : Holds py (docs s.world) after
    pub rest :
        (m : Name)
        → (registry_collection == m.collection) ≡ false
        → after m ≡ rest_of py asked ss m (d m)

  module _ (bigq : IsApart) where
    purge_firestore_lem :
        (t : String) (filters : Filters F) (s : GcpState F W) (d : Docs (Dict F))
        → Holds py (docs s.world) d
        → Runs (purge_firestore py hash g bq t filters) s (λ s' n.
          (after : Docs (Dict F)) × Holds py (docs s'.world) after
          × ((m : Name)
              → (registry_collection == m.collection) ≡ false
              → after m ≡ (
                  if selects py g accepts docs python fs configured t (dict filters) d m
                  then none
                  else d m)))
    unfolding purge_firestore
    purge_firestore_lem t filters s d h =
        let entries = ("table", str t) ∷ dict filters in
        let kept = without_selected py g accepts docs python fs configured t (dict filters) d in
        let one =
          delete_matching-Left py g accepts docs python fs configured t (dict filters) s d h in
        let two =
          delete_matching-Left py g accepts docs python fs configured registry_collection entries
            one.after kept one.holds.holds in
        record {
          after = two.after;
          value = one.value;
          returned = rw (one.returned, two.returned) refl;
          holds = (
            without_selected py g accepts docs python fs configured registry_collection entries
                kept,
            two.holds.holds,
            λ m o.
                rw
                  (not_selected registry_collection (to_fields py entries) m (coded py (kept m))
                    (==_flip registry_collection m.collection o))
                  refl,
          );
        }

    purge_bigquery_lem :
        (t : String) (filters : Filters F) (s : GcpState F W) (d : Docs (Dict F))
        → Holds py (docs s.world) d
        → Runs (purge_bigquery bq t filters) s (λ s' n. Holds py (docs s'.world) d)
    unfolding purge_bigquery
    purge_bigquery_lem t filters s d h =
        let (w', job, given, same) =
          bigq.runs
            ("DELETE FROM `" <> (bq_table_ref bq t <> ("` " <> where_true bq (bq_where filters).0)))
            (bq_where filters).1 s.world in
        record {
          after = record s { world = w' };
          value = affected bq job.num_dml_affected_rows;
          returned = rw given refl;
          holds = rw same h;
        }

    -- The documents `d'` are those of `d` after one step, the registry aside.
    abbrev After : Filters F → Step F → Docs (Dict F) → GcpState F W → Docs (Dict F) → Type 0
    After asked st d s' after =
        Holds py (docs s'.world) after
        × ((m : Name)
            → (registry_collection == m.collection) ≡ false
            → after m ≡ (if goes py asked m (d m) st then none else d m))

    purge_in-After :
        (b : Backend) (c t : String) (f asked : Filters F) (s : GcpState F W) (d : Docs (Dict F))
        → concerne asked f ≡ true
        → Holds py (docs s.world) d
        → Runs (purge_in py hash g bq b t f) s (λ s' n.
          (after : Docs (Dict F)) × After asked
            (record { count = c; backend = b; table = t; filters = f })
            d
            s'
            after)
    purge_in-After firestore c t f asked s d asks h =
        Runs-imp (purge_firestore py hash g bq t f) s (purge_firestore_lem t f s d h)
          (λ s' n r. (r.0, (r.1, λ m o. rw asks (r.2 m o))))
    purge_in-After bigquery c t f asked s d asks h =
        Runs-imp (purge_bigquery bq t f) s (purge_bigquery_lem t f s d h)
          (λ s' n r. (d, (r, λ m o. rw asks refl)))

    run_step-After :
        (asked : Filters F) (st : Step F) (s : GcpState F W) (d : Docs (Dict F))
        → Holds py (docs s.world) d
        → Runs
            (run_step py hash g bq asked st)
            s
            (λ s' n. (after : Docs (Dict F)) × After asked st d s' after)
    unfolding run_step
    run_step-After asked st s d h = elim (Bool-cases (concerne asked st.filters)) [
      | inl asks ↦
          let r = purge_in-After st.backend st.count st.table st.filters asked s d asks h in
          record {
            after = r.after;
            value = r.value;
            returned = rw asks r.returned;
            holds = r.holds;
          }
      | inr spared ↦ record {
        after = s;
        value = 0;
        returned = rw spared refl;
        holds = (d, (h, λ m o. rw spared refl));
      }
    ]

    rest_of-step :
        (asked : Filters F) (st : Step F) (ss : List (Step F)) (m : Name) (o o' : Option (Dict F))
        → o' ≡ (if goes py asked m o st then none else o)
        → rest_of py asked ss m o' ≡ rest_of py asked (st ∷ ss) m o
    rest_of-step asked st ss m o o' h = elim (Bool-cases (goes py asked m o st)) [
      | inl out ↦
          let gone : o' ≡ none = rw out at h in
          rw (gone, out) (both_none (any (goes py asked m none) ss))
      | inr stays ↦ let same : o' ≡ o = rw stays at h in rw (same, stays) refl
    ]

    run_steps-Purged :
        (asked : Filters F) (ss : List (Step F)) (s : GcpState F W) (d : Docs (Dict F))
        → Holds py (docs s.world) d
        → Runs
            (run_steps py hash g bq asked ss)
            s
            (λ s' counts. (map (λ c. c.0) counts ≡ map (λ st. st.count) ss) × Purged s' d asked ss)
    unfolding run_steps
    run_steps-Purged asked [] s d h =
        Runs-pure [] s _ (refl, record { after = d; holds = h; rest = λ m o. refl })
    run_steps-Purged asked (st ∷ ss) s d h =
        Runs-bind (run_step py hash g bq asked st)
          (λ n. run_steps py hash g bq asked ss >>= (λ counts. pure ((st.count, n) ∷ counts))) s
          (run_step-After asked st s d h)
          (λ s' n r.
            Runs-bind (run_steps py hash g bq asked ss) (λ counts. pure ((st.count, n) ∷ counts)) s'
              (run_steps-Purged asked ss s' r.0 r.1.0)
              (λ s'' counts q. Runs-pure ((st.count, n) ∷ counts) s'' _ (
                ap (λ t. st.count ∷ t) q.0,
                record {
                  after = q.1.after;
                  holds = q.1.holds;
                  rest = λ m o. q.1.rest m o ∙ rest_of-step asked st ss m (d m) (r.0 m) (r.1.1 m o);
                },
              )))

    -- A purge under a valid scope returns a count for each of its steps, in their order. A document
    -- outside of the registry is gone exactly if a step that concerns the filters asked for selects
    -- it, and every other one is as it was.
    pub purge-Purged :
        (p : PurgeFilters F) (scope : String) (s : GcpState F W) (d : Docs (Dict F))
        → one_of scopes_valides scope ≡ true
        → IsSound py hash g accepts docs python fs configured s d
        → Runs (purge py hash g bq p scope) s (λ s' counts.
          (map (λ c. c.0) counts ≡ map (λ st. st.count) (steps p scope))
          × Purged s' d (demandes p) (steps p scope))
    unfolding purge
    purge-Purged p scope s d valid h = rw valid (
        Runs-bind (flush_registry py hash g)
          (λ _. run_steps py hash g bq (demandes p) (steps p scope)) s
          (flush_registry_lem py hash g accepts docs python fs configured s d h)
          (λ s' u a.
            Runs-imp (run_steps py hash g bq (demandes p) (steps p scope)) s'
              (run_steps-Purged (demandes p) (steps p scope) s' a.1.after a.1.sound.holds)
              (λ s'' counts q. (
                q.0,
                record {
                  after = q.1.after;
                  holds = q.1.holds;
                  rest = λ m o.
                      q.1.rest m o
                      ∙ ap (rest_of py (demandes p) (steps p scope) m) (a.1.others m o);
                },
              ))))
