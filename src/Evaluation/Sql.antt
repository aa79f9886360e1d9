-- ===== src/Evaluation/Sql.antt =====
-- The statements of SQL that berlue/evaluation/result_store.py sends to sqlite3: a row holds values
-- by column name, a database holds rows by table name, in the order of insertion.
pub mod Reads
use berlue.Base.{
  ℕ, zero, suc, ◌+◌, Bool, true, false, ◌&&◌, String, Option, none, some, List, [], ◌∷◌, ◌++◌, map,
  Eq, ◌==◌, string_eq, nat_eq, any, if◌then◌else◌,
}

-- `REAL` columns hold floats of the type `F`.
pub data Value (F : Type 0) : Type 0 where
  text : String → Value F
  real : F → Value F
  integer : ℕ → Value F
  null : Value F

abbrev pub Row : Type 0 → Type 0
Row F = List (String × Value F)

-- `column=?` conditions, joined by AND.
abbrev pub Filters : Type 0 → Type 0
Filters F = List (String × Value F)

abbrev pub Database : Type 0 → Type 0
Database F = String → List (Row F)

module _ {F : Type 0} where
  -- The value of a column; a column that the row lacks is NULL.
  abbrev pub column : String → Row F → Value F
  column c [] = null
  column c ((n, v) ∷ r) = if n == c then v else column c r

  -- The values of a row under the columns of a UNIQUE constraint.
  abbrev pub pick : List String → Row F → Filters F
  pick [] r = []
  pick (c ∷ cs) r = (c, column c r) ∷ pick cs r

  -- The new rows of one table; the other tables stay.
  unfoldable pub update : String → List (Row F) → Database F → Database F
  update t rows db = λ u. if u == t then rows else db u

  module _ ⦃e : Eq F⦄ where
    -- SQL's `=`, which is not true of NULL.
    abbrev pub equals : Value F → Value F → Bool
    equals (text a) (text b) = a == b
    equals (real a) (real b) = a == b
    equals (integer a) (integer b) = a == b
    equals _ _ = false

    unfoldable pub matches : Filters F → Row F → Bool
    matches [] r = true
    matches ((c, v) ∷ f) r = equals (column c r) v && matches f r

    -- `SELECT … WHERE …`, all rows or `fetchone()`.
    unfoldable pub select_all : Filters F → List (Row F) → List (Row F)
    select_all f [] = []
    select_all f (r ∷ rows) = let rest = select_all f rows in if matches f r then r ∷ rest else rest

    unfoldable pub select_one : Filters F → List (Row F) → Option (Row F)
    select_one f [] = none
    select_one f (r ∷ rows) = let rest = select_one f rows in if matches f r then some r else rest

    -- `INSERT OR IGNORE` under a UNIQUE constraint: the rows, and whether `rowcount > 0`.
    unfoldable pub insert_or_ignore : List String → Row F → List (Row F) → List (Row F) × Bool
    insert_or_ignore unique new rows = elim (select_one (pick unique new) rows) [
      | some _ ↦ (rows, false)
      | none ↦ (rows ++ (new ∷ []), true)
    ]

    -- `DELETE … WHERE …`: the rows that stay, and `rowcount`.
    unfoldable pub delete : Filters F → List (Row F) → List (Row F) × ℕ
    delete f [] = ([], 0)
    delete f (r ∷ rows) =
        let (rest, n) = delete f rows in if matches f r then (rest, n + 1) else (r ∷ rest, n)

    -- `INSERT OR REPLACE`: what conflicts goes, and the new row comes last.
    unfoldable pub insert_or_replace : List String → Row F → List (Row F) → List (Row F)
    insert_or_replace unique new rows = (delete (pick unique new) rows).0 ++ (new ∷ [])

    -- `INSERT … ON CONFLICT … DO UPDATE SET` of every other column: the row takes the new values
    -- where it stands.
    unfoldable pub replace_first : Filters F → Row F → List (Row F) → List (Row F)
    replace_first f new [] = new ∷ []
    replace_first f new (r ∷ rows) =
        let rest = replace_first f new rows in if matches f r then new ∷ rows else r ∷ rest

    unfoldable pub upsert : List String → Row F → List (Row F) → List (Row F)
    upsert unique new rows = replace_first (pick unique new) new rows
