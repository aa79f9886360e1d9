-- ===== src/Api/PredictCache/Order.antt =====
-- `satisfait` of berlue/api/predict_cache.py as a relation between lists of models.
use berlue.Base.{
  ◌≡◌, refl, true, String, Option, none, some, List, [], ◌∷◌, length, ok, ==_iff, ==_refl, nat_eq,
  string_eq, arith,
}
use berlue.Base.Double.{Double, IsOrdered}
use berlue.Api.PredictCache.{Text, sizes_fit, fits, all_fit, satisfait, taille_modele}

module _ {F : Type 0} ⦃d : Double F⦄ (t : Text F) where
  fits_refl : (tag : String) → fits t tag tag ≡ true
  unfolding fits
  fits_refl tag = rw (==_refl tag) refl

  all_fit_refl : (tags : List String) → all_fit t tags tags ≡ true
  unfolding all_fit
  all_fit_refl [] = refl
  all_fit_refl (tag ∷ tags) = rw (fits_refl tag) (all_fit_refl tags)

  -- An entry satisfies a request for the very models that made it, also where a tag does not tell
  -- its size.
  pub satisfait_refl : (tags : List String) → satisfait t tags tags ≡ ok true
  unfolding satisfait
  satisfait_refl tags = rw (==_refl (length tags), all_fit_refl tags) refl

module _ {F : Type 0} ⦃d : Double F⦄ (o : IsOrdered F) (t : Text F) where
  sizes_fit_trans :
      (a b c : Option F) → sizes_fit a b ≡ true → sizes_fit b c ≡ true → sizes_fit a c ≡ true
  sizes_fit_trans (some a) (some b) (some c) h k =
      ground (arith, o.lt-eq-not-le b a, o.lt-eq-not-le c b, o.lt-eq-not-le c a, o.le_trans a b c)
  sizes_fit_trans (some a) (some b) none h k = cc
  sizes_fit_trans (some a) none c h k = cc
  sizes_fit_trans none b c h k = cc

  fits_trans : (a b c : String) → fits t a b ≡ true → fits t b c ≡ true → fits t a c ≡ true
  unfolding fits
  fits_trans a b c h k = ground (
    arith,
    ==_iff a b,
    ==_iff b c,
    ==_iff a c,
    sizes_fit_trans (taille_modele t a) (taille_modele t b) (taille_modele t c),
  )

  all_fit_trans :
      (xs ys zs : List String)
      → length xs ≡ length ys
      → length ys ≡ length zs
      → all_fit t xs ys ≡ true
      → all_fit t ys zs ≡ true
      → all_fit t xs zs ≡ true
  unfolding all_fit
  all_fit_trans [] [] [] m n h k = refl
  all_fit_trans (a ∷ xs) (b ∷ ys) (c ∷ zs) m n h k =
      ground (arith, fits_trans a b c, all_fit_trans xs ys zs)
  all_fit_trans [] [] (c ∷ zs) m n h k = absurd (omega arith)
  all_fit_trans [] (b ∷ ys) zs m n h k = absurd (omega arith)
  all_fit_trans (a ∷ xs) [] zs m n h k = absurd (omega arith)
  all_fit_trans (a ∷ xs) (b ∷ ys) [] m n h k = absurd (omega arith)

  -- Where an entry made by `ys` satisfies a request for `xs`, an entry that satisfies a request for
  -- `ys` satisfies the one for `xs` too: replacing an entry by one of larger models loses nobody.
  pub satisfait_trans :
      (xs ys zs : List String)
      → satisfait t xs ys ≡ ok true
      → satisfait t ys zs ≡ ok true
      → satisfait t xs zs ≡ ok true
  unfolding satisfait
  satisfait_trans xs ys zs h k = ground (
    arith,
    ==_iff (length xs) (length ys),
    ==_iff (length ys) (length zs),
    ==_iff (length xs) (length zs),
    all_fit_trans xs ys zs,
  )
