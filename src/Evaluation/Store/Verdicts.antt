-- ===== src/Evaluation/Store/Verdicts.antt =====
-- Predictions of mode 1 of `LocalResultStore`: reads after a put.
use berlue.Base.{
  ◌≡◌, refl, Bool, true, false, String, Option, none, some, Eq, Result, ok, err, ◌>>=◌, ◌==◌,
  ==_refl, string_eq,
}
use berlue.Core.Schemas.{Verdict, verdict_of-verdict_value}
use berlue.Evaluation.Sql.{Row, Database, column, matches, select_one}
use berlue.Evaluation.Sql.Reads.{
  update_self, first_or, select_one-insert_self, select_one-insert_ne, select_one-insert_some,
}
use berlue.Evaluation.Store.Tables.{prediction_key}
use berlue.Evaluation.Store.{
  EvalScope, read_verdict, verdict_from, mode1_key, pair_key, prediction_row, get_verdict,
  put_prediction,
}

-- The verdict that is stored, or else the new one.
abbrev pub stored_or : Result (Option Verdict) → Verdict → Result (Option Verdict)
stored_or (ok none) v = ok (some v)
stored_or r v = r

pub stored_or_read :
    (m : Result Verdict) (v : Verdict)
    → (do w ← m; ok (some w)) ≡ stored_or (do w ← m; ok (some w)) v
stored_or_read (ok w) v = refl
stored_or_read (err e) v = refl

-- A verdict is read only from a row that is there.
read_some :
    {F : Type 0} (o : Option (Row F)) {w : Verdict}
    → read_verdict o ≡ ok (some w)
    → (r : Row F) × (o ≡ some r)
read_some none h = cc
read_some (some r) h = (r, refl)

module _ {F : Type 0} ⦃e : Eq F⦄ (hash : String → String) (s : EvalScope F) where
  prediction_row-matches :
      (q a : String) (gt : Bool) (v : Verdict) (now : String)
      → matches (pair_key hash (mode1_key s) q a) (prediction_row hash s q a gt v now) ≡ true
  unfolding matches
  prediction_row-matches q a gt v now = simp (==_refl {A = String}, ==_refl {A = F})

  read_new :
      (q a : String) (gt : Bool) (v : Verdict) (now : String)
      → read_verdict (some (prediction_row hash s q a gt v now)) ≡ ok (some v)
  read_new q a gt v now = rw (verdict_of-verdict_value v, verdict_from)

  read-first_or :
      (o : Option (Row F)) (q a : String) (gt : Bool) (v : Verdict) (now : String)
      → read_verdict (some (first_or o (prediction_row hash s q a gt v now)))
        ≡ stored_or (read_verdict o) v
  read-first_or none q a gt v now = read_new q a gt v now
  read-first_or (some r) q a gt v now = stored_or_read (verdict_from (column "verdict" r)) v

  -- A prediction that was put is read back, unless one was stored before: that one stays.
  pub get_verdict-put_self :
      (q a : String) (gt : Bool) (v : Verdict) (now : String) (db : Database F)
      → get_verdict hash s q a (put_prediction hash s q a gt v now db).0
        ≡ stored_or (get_verdict hash s q a db) v
  unfolding get_verdict put_prediction
  get_verdict-put_self q a gt v now db =
      rw
        (
          update_self,
          select_one-insert_self prediction_key (prediction_row hash s q a gt v now)
              (db "eval_predictions") (prediction_row-matches q a gt v now),
        )
        (read-first_or (select_one (pair_key hash (mode1_key s) q a) (db "eval_predictions")) q a gt
          v now)

  -- A verdict that is stored stays as it is, whatever prediction is put.
  pub get_verdict-put_kept :
      (q a : String) (w : Verdict) (s' : EvalScope F) (q' a' : String) (gt : Bool) (v : Verdict)
      (now : String) (db : Database F)
      → get_verdict hash s q a db ≡ ok (some w)
      → get_verdict hash s q a (put_prediction hash s' q' a' gt v now db).0 ≡ ok (some w)
  unfolding get_verdict put_prediction
  get_verdict-put_kept q a w s' q' a' gt v now db h =
      let (r, there) =
        read_some (select_one (pair_key hash (mode1_key s) q a) (db "eval_predictions")) h in
      rw
        (
          update_self,
          select_one-insert_some (pair_key hash (mode1_key s) q a) prediction_key
              (prediction_row hash s' q' a' gt v now) r (db "eval_predictions") there,
        )
        (rw there at h)

  prediction_row-other :
      (q a q' a' : String) (gt : Bool) (v : Verdict) (now : String)
      → (hash q' == hash q) ≡ false
      → matches (pair_key hash (mode1_key s) q a) (prediction_row hash s q' a' gt v now) ≡ false
  unfolding matches
  prediction_row-other q a q' a' gt v now h = simp (==_refl {A = String}, ==_refl {A = F}, h)

  -- Under a hash that tells two questions apart, a prediction for one leaves the reading of the other.
  pub get_verdict-put_ne :
      (q a q' a' : String) (gt : Bool) (v : Verdict) (now : String) (db : Database F)
      → (hash q' == hash q) ≡ false
      → get_verdict hash s q a (put_prediction hash s q' a' gt v now db).0
        ≡ get_verdict hash s q a db
  unfolding get_verdict put_prediction
  get_verdict-put_ne q a q' a' gt v now db h = rw (
    update_self,
    select_one-insert_ne (pair_key hash (mode1_key s) q a) prediction_key
        (prediction_row hash s q' a' gt v now) (db "eval_predictions")
        (prediction_row-other q a q' a' gt v now h),
  )
