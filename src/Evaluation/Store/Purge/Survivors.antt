-- ===== src/Evaluation/Store/Purge/Survivors.antt =====
-- `LocalResultStore.purge` row by row.
use berlue.Base.{
  ◌≡◌, refl, sym, Bool, true, false, not, ◌&&◌, String, List, [], ◌∷◌, ◌++◌, Eq, ok, any, select,
  ◌==◌, string_eq, ==_refl, if◌then◌else◌, Bool-cases, inl, inr, arith, ==_iff,
}
use berlue.Evaluation.Sql.{Row, Filters, Database, update, delete, matches}
use berlue.Evaluation.Store.Matrices.{where_from_filters}
use berlue.Evaluation.Store.Purge.{
  PurgeFilters, Deletion, Purged, applies, demandes, deletions, delete_in, run_deletions, purge,
}

both : (a b : Bool) → (if not a then not b else false) ≡ not (if a then true else b)
both true b = refl
both false b = refl

module _ {F : Type 0} ⦃e : Eq F⦄ where
  -- Whether a deletion takes a row of the table `t`: it is about that table, one of the filters
  -- that were asked for applies to it, and the row meets all of its filters.
  abbrev pub takes : Filters F → String → Row F → Deletion F → Bool
  takes asked t row d =
      (t == d.table) && (applies asked d.filters && matches (where_from_filters d.filters) row)

  abbrev pub survives : Filters F → List (Deletion F) → String → Row F → Bool
  survives asked ds t row = not (any (takes asked t row) ds)

  delete-select :
      (f : Filters F) (rows : List (Row F))
      → (delete f rows).0 ≡ select (λ r. not (matches f r)) rows
  unfolding delete
  delete-select f [] = refl
  delete-select f (r ∷ rows) = ground (arith, delete-select f rows)

  select_cong :
      (p q : Row F → Bool)
      → ((r : Row F) → p r ≡ q r)
      → (rows : List (Row F)) → select p rows ≡ select q rows
  select_cong p q h [] = refl
  select_cong p q h (r ∷ rows) = rw (h r, select_cong p q h rows) refl

  pub select_id :
      (p : Row F → Bool) → ((r : Row F) → p r ≡ true) → (rows : List (Row F)) → select p rows ≡ rows
  select_id p h [] = refl
  select_id p h (r ∷ rows) = rw (h r, select_id p h rows) refl

  select-select :
      (p q : Row F → Bool) (rows : List (Row F))
      → select p (select q rows) ≡ select (λ r. if q r then p r else false) rows
  select-select p q [] = refl
  select-select p q (r ∷ rows) = ground (arith, select-select p q rows)

  delete_in-rows :
      (asked : Filters F) (d : Deletion F) (db : Database F) (t : String)
      → (delete_in asked d db).0 t ≡ select (λ r. not (takes asked t r d)) (db t)
  unfolding delete_in update
  delete_in-rows asked d db t = elim (Bool-cases (applies asked d.filters)) [
    | inl asks ↦ elim (Bool-cases (t == d.table)) [
      | inl here ↦
          let same : t ≡ d.table = (==_iff t d.table).0 here in
          rw (asks, delete_in)
            (rw (same, ==_refl d.table) (delete-select (where_from_filters d.filters) (db d.table)))
      | inr other ↦ rw (asks, delete_in) (rw other (sym (select_id (λ r. true) (λ r. refl) (db t))))
    ]
    | inr apart ↦ rw (apart, delete_in) (sym (select_id _ (λ r. ground (arith, apart)) (db t)))
  ]

  run_deletions-rows :
      (asked : Filters F) (ds : List (Deletion F)) (s : Purged F) (t : String)
      → (run_deletions asked ds s).1 t ≡ select (survives asked ds t) (s.1 t)
  unfolding run_deletions
  run_deletions-rows asked [] (counts, db) t = sym (select_id _ (λ r. refl) (db t))
  run_deletions-rows asked (d ∷ ds) (counts, db) t =
      let next =
        run_deletions-rows asked ds
          (counts ++ ((d.count, (delete_in asked d db).1) ∷ []), (delete_in asked d db).0) t in
      rw (next, delete_in-rows asked d db t, select-select)
        (select_cong _ _ (λ r. both (takes asked t r d) (any (takes asked t r) ds)) (db t))

  -- After a purge each table holds, in their order, exactly the rows that survive: those that no
  -- deletion of the scope takes.
  pub purge-survives :
      (p : PurgeFilters F) (scope : String) (db : Database F) {done : Purged F}
      → purge p scope db ≡ ok done
      → (t : String) → done.1 t ≡ select (survives (demandes p) (deletions p scope) t) (db t)
  unfolding purge
  purge-survives p scope db {done} h t =
      let ran : run_deletions (demandes p) (deletions p scope) ([], db) ≡ done = ground arith in
      rw (← ran) (run_deletions-rows (demandes p) (deletions p scope) ([], db) t)
