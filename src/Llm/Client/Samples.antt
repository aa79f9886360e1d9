-- ===== src/Llm/Client/Samples.antt =====
-- berlue/llm/client.py: the temperatures of the samples, and the samples in their order.
use berlue.Base.{
  ℕ, zero, suc, ◌≤◌, ◌≡◌, refl, ap, true, String, Option, some, List, [], ◌∷◌, Result, map_result,
  Ensures, Ensures-ok, Ensures-bind, length, arith,
}
use berlue.Base.Double.{Double, IsOrdered, nought}
use berlue.Pipeline.Parallel.{Move}
use berlue.Pipeline.Parallel.Order.{map_parallele-sequential}
use berlue.Llm.Client.{
  Auth, Http, Client, Options, Answer, generate, spaced, temperatures, generate_many,
}

-- What rounding keeps of whole numbers: their order, and the order of the factors of a product.
pub record CountsInOrder (F : Type 0) ⦃d : Double F⦄ : Type 0 where
  pub of_nat_mono : (m n : ℕ) → m ≤ n → d.le (d.of_nat m) (d.of_nat n) ≡ true
  pub of_nat_nonneg : (n : ℕ) → d.le nought (d.of_nat n) ≡ true
  pub mul_comm : (a b : F) → d.mul a b ≡ d.mul b a

module _ {F : Type 0} ⦃d : Double F⦄ where
  -- Each value is at or above the one before it, and the first at or above `low`.
  abbrev pub IsAscending : F → List F → Type 0
  IsAscending low [] = Unit
  IsAscending low (t ∷ ts) = (d.le low t ≡ true) × IsAscending t ts

  length-spaced : (low step : F) (i k : ℕ) → length (spaced low step i k) ≡ k
  unfolding spaced
  length-spaced low step i zero = refl
  length-spaced low step i (suc k) = omega (arith, length-spaced low step (suc i) k)

  length-temperatures : (k : ℕ) (low high : F) → length (temperatures k low high) ≡ k
  unfolding temperatures
  length-temperatures zero low high = refl
  length-temperatures (suc zero) low high = refl
  length-temperatures (suc (suc k)) low high = length-spaced low _ 0 (suc (suc k))

  module _ (o : IsOrdered F) (n : CountsInOrder F) where
    spaced_mono :
        (low step : F) (i j : ℕ)
        → d.le nought step ≡ true
        → i ≤ j
        → d.le (d.add low (d.mul (d.of_nat i) step)) (d.add low (d.mul (d.of_nat j) step)) ≡ true
    spaced_mono low step i j h k = o.add_mono low low _ _ (o.le_refl low) (
        rw (n.mul_comm (d.of_nat i) step, n.mul_comm (d.of_nat j) step)
          (o.mul_mono step (d.of_nat i) (d.of_nat j) h (n.of_nat_mono i j k)))

    spaced-IsAscending :
        (low step : F) (before : F) (i k : ℕ)
        → d.le nought step ≡ true
        → d.le before (d.add low (d.mul (d.of_nat i) step)) ≡ true
        → IsAscending before (spaced low step i k)
    unfolding spaced
    spaced-IsAscending low step before i zero h b = tt
    spaced-IsAscending low step before i (suc k) h b = (
      b,
      spaced-IsAscending low step (d.add low (d.mul (d.of_nat i) step)) (suc i) k h
          (spaced_mono low step i (suc i) h (omega arith)),
    )

    -- Two temperatures or more, over an interval with its bounds in order, ascend from the lower
    -- bound on.
    pub temperatures-IsAscending :
        (k : ℕ) (low high : F)
        → d.le low high ≡ true
        → IsAscending low (temperatures (suc (suc k)) low high)
    unfolding temperatures
    temperatures-IsAscending k low high h =
        let step_nonneg =
          o.quot_nonneg (d.sub high low) (d.of_nat (suc k)) (o.sub_nonneg low high h)
            (n.of_nat_nonneg (suc k)) in
        spaced-IsAscending low _ low 0 (suc (suc k)) step_nonneg
          (o.le-add low _ (o.mul_nonneg _ _ (n.of_nat_nonneg 0) step_nonneg))

length-map_result :
    {A B : Type 0} (f : A → Result B) (xs : List A)
    → Ensures (λ ys. length ys ≡ length xs) (map_result f xs)
unfolding map_result
length-map_result f [] = refl
length-map_result f (x ∷ xs) = Ensures-bind _ (f x) _ (λ y _.
    Ensures-bind _ (map_result f xs) _ (λ ys e.
      ap suc
        (Ensures-ok (λ zs. length zs ≡ length xs) (map_result f xs) (length-map_result f xs) e)))

module _ {F C : Type 0} ⦃d : Double F⦄ (a : Auth C)
    (post : Http → String → String → Options F → Answer) (elapsed : F) where
  -- The samples are what one generation after the other gives at the `k` temperatures, in their
  -- order, whatever the order of the threads; where one raises, the first that does so is told.
  -- Where all return there are `k` of them.
  pub generate_many_ordered :
      (moves : List Move) (now : ℕ) (s : Client F C) (prompt : String) (k : ℕ) (low high : F)
      (num_predict : Option ℕ) (w : ℕ)
      → let samples = generate_many a post elapsed moves now s prompt k low high num_predict w in
        (samples
          ≡ map_result
              (λ t. generate a post elapsed now s prompt (some t) num_predict)
              (temperatures k low high))
        × Ensures (λ ss. length ss ≡ k) samples
  unfolding generate_many
  generate_many_ordered moves now s prompt zero low high num_predict w =
      (unfold temperatures in unfold map_result in refl, refl)
  generate_many_ordered moves now s prompt (suc k) low high num_predict w =
      let f = λ (t : F). generate a post elapsed now s prompt (some t) num_predict in
      let same = map_parallele-sequential f moves (temperatures (suc k) low high) w in
      (
        same,
        rw same (
            rw (length-temperatures (suc k) low high) at
              (length-map_result f (temperatures (suc k) low high))),
      )
