-- ===== src/Evaluation/Sql/Reads.antt =====
-- What a SELECT reads after an INSERT or a DELETE.
use berlue.Base.{
  ◌+◌, ◌≡◌, refl, true, false, String, Option, none, some, List, [], ◌∷◌, ◌++◌, Eq, ◌==◌, string_eq,
  length, arith, Option-cases, inl, inr,
}
use berlue.Evaluation.Sql.{
  Row, Filters, Database, update, matches, select_one, insert_or_ignore, delete, insert_or_replace,
  replace_first, upsert, pick,
}

module _ {F : Type 0} where
  pub update_self : (t : String) (rows : List (Row F)) (db : Database F) → update t rows db t ≡ rows
  unfolding update
  update_self t rows db = rw ((string_eq.equal_iff t t).1 refl)

  pub update_ne :
      (t u : String) (rows : List (Row F)) (db : Database F)
      → (u == t) ≡ false
      → update t rows db u ≡ db u
  unfolding update
  update_ne t u rows db h = rw h

-- The row that is there, or else the new one.
abbrev pub first_or {ℓ} : {A : Type ℓ} → Option A → A → A
first_or none a = a
first_or (some b) a = b

module _ {F : Type 0} ⦃e : Eq F⦄ where
  select_one-append :
      (f : Filters F) (new : Row F) (rows : List (Row F))
      → matches f new ≡ true
      → select_one f (rows ++ (new ∷ [])) ≡ some (first_or (select_one f rows) new)
  unfolding select_one
  select_one-append f new [] h = rw h
  select_one-append f new (r ∷ rows) h = ground (arith, select_one-append f new rows h)

  select_one-append_ne :
      (f : Filters F) (new : Row F) (rows : List (Row F))
      → matches f new ≡ false
      → select_one f (rows ++ (new ∷ [])) ≡ select_one f rows
  unfolding select_one
  select_one-append_ne f new [] h = rw h
  select_one-append_ne f new (r ∷ rows) h = ground (arith, select_one-append_ne f new rows h)

  -- The key of a row that was inserted finds the row that was there before, or else the new one.
  pub select_one-insert_self :
      (unique : List String) (new : Row F) (rows : List (Row F))
      → matches (pick unique new) new ≡ true
      → select_one (pick unique new) (insert_or_ignore unique new rows).0
        ≡ some (first_or (select_one (pick unique new) rows) new)
  unfolding insert_or_ignore
  select_one-insert_self unique new rows h =
      elim (Option-cases (select_one (pick unique new) rows)) [
        | inl absent ↦
            rw (absent, insert_or_ignore)
              (rw (select_one-append (pick unique new) new rows h) (rw absent))
        | inr (r, there) ↦ rw (there, insert_or_ignore) there
      ]

  -- A SELECT that the new row does not match reads what it read.
  pub select_one-insert_ne :
      (f : Filters F) (unique : List String) (new : Row F) (rows : List (Row F))
      → matches f new ≡ false
      → select_one f (insert_or_ignore unique new rows).0 ≡ select_one f rows
  unfolding insert_or_ignore
  select_one-insert_ne f unique new rows h = ground (arith, select_one-append_ne f new rows h)

  select_one-append_some :
      (f : Filters F) (new r : Row F) (rows : List (Row F))
      → select_one f rows ≡ some r
      → select_one f (rows ++ (new ∷ [])) ≡ some r
  unfolding select_one
  select_one-append_some f new r [] h = cc
  select_one-append_some f new r (x ∷ rows) h = ground (arith, select_one-append_some f new r rows)

  -- What a SELECT finds it still finds after an INSERT OR IGNORE.
  pub select_one-insert_some :
      (f : Filters F) (unique : List String) (new r : Row F) (rows : List (Row F))
      → select_one f rows ≡ some r
      → select_one f (insert_or_ignore unique new rows).0 ≡ some r
  unfolding insert_or_ignore
  select_one-insert_some f unique new r rows h =
      ground (arith, select_one-append_some f new r rows h)

  -- An insertion is reported exactly where the key was free.
  pub insert_or_ignore-reports :
      (unique : List String) (new : Row F) (rows : List (Row F))
      → (insert_or_ignore unique new rows).1 ≡ true
      → (select_one (pick unique new) rows ≡ none)
        × ((insert_or_ignore unique new rows).0 ≡ rows ++ (new ∷ []))
  unfolding insert_or_ignore
  insert_or_ignore-reports unique new rows h = ground arith

  -- No row that a DELETE is asked for stays.
  pub select_one-delete_self :
      (f : Filters F) (rows : List (Row F)) → select_one f (delete f rows).0 ≡ none
  unfolding select_one delete
  select_one-delete_self f [] = refl
  select_one-delete_self f (r ∷ rows) = ground (arith, select_one-delete_self f rows)

  -- The number that a DELETE reports is the number of rows that went.
  pub length-delete :
      (f : Filters F) (rows : List (Row F))
      → length (delete f rows).0 + (delete f rows).1 ≡ length rows
  unfolding delete
  length-delete f [] = refl
  length-delete f (r ∷ rows) = ground (arith, length-delete f rows)

  -- A SELECT whose rows the DELETE does not match reads what it read.
  pub select_one-delete-some :
      (f g : Filters F) (r : Row F) (rows : List (Row F))
      → select_one g rows ≡ some r
      → matches f r ≡ false
      → select_one g (delete f rows).0 ≡ some r
  unfolding select_one delete
  select_one-delete-some f g r [] h k = cc
  select_one-delete-some f g r (x ∷ rows) h k = ground (arith, select_one-delete-some f g r rows)

  pub select_one-replace :
      (unique : List String) (new : Row F) (rows : List (Row F))
      → matches (pick unique new) new ≡ true
      → select_one (pick unique new) (insert_or_replace unique new rows) ≡ some new
  unfolding insert_or_replace
  select_one-replace unique new rows h =
      rw (select_one-append (pick unique new) new (delete (pick unique new) rows).0 h)
        (rw (select_one-delete_self (pick unique new) rows))

  select_one-replace_first :
      (f : Filters F) (new : Row F) (rows : List (Row F))
      → matches f new ≡ true
      → select_one f (replace_first f new rows) ≡ some new
  unfolding select_one replace_first
  select_one-replace_first f new [] h = rw h
  select_one-replace_first f new (r ∷ rows) h =
      ground (arith, select_one-replace_first f new rows h)

  -- The key of an upserted row finds the new row.
  pub select_one-upsert :
      (unique : List String) (new : Row F) (rows : List (Row F))
      → matches (pick unique new) new ≡ true
      → select_one (pick unique new) (upsert unique new rows) ≡ some new
  unfolding upsert
  select_one-upsert unique new rows h = select_one-replace_first (pick unique new) new rows h
