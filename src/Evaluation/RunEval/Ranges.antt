-- ===== src/Evaluation/RunEval/Ranges.antt =====
-- `format_index_ranges` of berlue/evaluation/run_eval.py: indices are printed as ranges.
use berlue.Base.{
  ℕ, zero, suc, ◌+◌, ◌-◌, ◌≤◌, ◌≡◌, ◌≢◌, refl, ap, sym, ◌∙◌, true, false, String, ◌<>◌, List, [],
  ◌∷◌, ◌++◌, map, arith, ◌==◌, nat_eq, ==_iff, if◌then◌else◌, Bool-cases, inl, inr,
}
use mathlib.Core.List.{append_assoc}

-- The ranges that the loop appends, from the bounds of the one it is in.
unfoldable pub collect : ℕ → ℕ → List ℕ → List (ℕ × ℕ)
collect start prev [] = (start, prev) ∷ []
collect start prev (i ∷ is) = elim (i == prev + 1) [
  | true ↦ collect start i is
  | false ↦ (start, prev) ∷ collect i i is
]

unfoldable pub index_ranges : List ℕ → List (ℕ × ℕ)
index_ranges [] = []
index_ranges (i ∷ is) = collect i i is

-- `", ".join(…)`
abbrev pub join : List String → String
join [] = ""
join (s ∷ []) = s
join (s ∷ t ∷ ss) = s <> (", " <> join (t ∷ ss))

-- `str` prints a number.
abbrev pub format_range : (ℕ → String) → ℕ × ℕ → String
format_range str (start, prev) = if start == prev then str start else str start <> ("-" <> str prev)

abbrev pub format_index_ranges : (ℕ → String) → List ℕ → String
format_index_ranges str [] = "(aucun)"
format_index_ranges str (i ∷ is) = join (map (format_range str) (index_ranges (i ∷ is)))

abbrev pub upto : ℕ → ℕ → List ℕ
upto start zero = []
upto start (suc n) = start ∷ upto (start + 1) n

-- The indices that a list of ranges stands for.
abbrev pub expand : List (ℕ × ℕ) → List ℕ
expand [] = []
expand ((start, prev) ∷ rs) = upto start (prev + 1 - start) ++ expand rs

-- No range is empty, and none could be joined to the one before it.
abbrev pub IsCompact : List (ℕ × ℕ) → Type 0
IsCompact [] = Unit
IsCompact ((a, b) ∷ []) = a ≤ b
IsCompact ((a, b) ∷ (c, e) ∷ rs) = (a ≤ b) × (c ≢ b + 1) × IsCompact ((c, e) ∷ rs)

upto_end : (start n : ℕ) → upto start (suc n) ≡ upto start n ++ ((start + n) ∷ [])
upto_end start zero = ap (λ x. x ∷ []) (omega arith)
upto_end start (suc n) = cc (upto_end (start + 1) n, shift start n)
  where
    shift : (s m : ℕ) → s + 1 + m ≡ s + suc m
    shift s m = omega arith

longer :
    (start n i : ℕ) (is : List ℕ)
    → i ≡ start + n
    → upto start (suc n) ++ is ≡ upto start n ++ (i ∷ is)
longer start n i is e =
    ap (λ xs. xs ++ is) (upto_end start n)
    ∙ (append_assoc (upto start n) ((start + n) ∷ []) is
        ∙ ap (λ x. upto start n ++ (x ∷ is)) (sym e))

one_index : (i : ℕ) (is : List ℕ) → upto i (i + 1 - i) ++ is ≡ i ∷ is
one_index i is = ap (λ n. upto i n ++ is) (only i)
  where
    only : (j : ℕ) → j + 1 - j ≡ 1
    only j = omega arith

collect_next :
    (start prev i : ℕ) (is : List ℕ)
    → (i == prev + 1) ≡ true
    → collect start prev (i ∷ is) ≡ collect start i is
unfolding collect
collect_next start prev i is h = rw (h, collect) refl

collect_gap :
    (start prev i : ℕ) (is : List ℕ)
    → (i == prev + 1) ≡ false
    → collect start prev (i ∷ is) ≡ (start, prev) ∷ collect i i is
unfolding collect
collect_gap start prev i is h = rw (h, collect) refl

collect_head :
    (start prev : ℕ) (is : List ℕ)
    → (e : ℕ) × (rs : List (ℕ × ℕ)) × (collect start prev is ≡ (start, e) ∷ rs)
unfolding collect
collect_head start prev [] = (prev, [], refl)
collect_head start prev (i ∷ is) = elim (Bool-cases (i == prev + 1)) [
  | inl next ↦
      let (e, rs, same) = collect_head start i is in
      (e, rs, collect_next start prev i is next ∙ same)
  | inr gap ↦ (prev, collect i i is, collect_gap start prev i is gap)
]

-- A range that ends before the next one begins.
IsCompact-after :
    (start prev i : ℕ) (is : List ℕ)
    → start ≤ prev
    → i ≢ prev + 1
    → IsCompact (collect i i is)
    → IsCompact ((start, prev) ∷ collect i i is)
IsCompact-after start prev i is h gap k =
    let (e, rs, same) = collect_head i i is in rw same (h, gap, rw same at k)

expand-collect :
    (start prev : ℕ) (is : List ℕ)
    → start ≤ prev
    → expand (collect start prev is) ≡ upto start (prev + 1 - start) ++ is
unfolding collect
expand-collect start prev [] h = refl
expand-collect start prev (i ∷ is) h = elim (Bool-cases (i == prev + 1)) [
  | inl next ↦
      let here : i ≡ prev + 1 = (==_iff i (prev + 1)).0 next in
      let size : i + 1 - start ≡ suc (prev + 1 - start) = omega arith in
      rw (collect_next start prev i is next) (
        expand-collect start i is (omega arith)
        ∙ ap (λ n. upto start n ++ is) size
        ∙ longer start (prev + 1 - start) i is (omega arith))
  | inr gap ↦ rw (collect_gap start prev i is gap) (
      ap (λ xs. upto start (prev + 1 - start) ++ xs)
        (expand-collect i i is (omega arith) ∙ one_index i is))
]

apart : (i prev : ℕ) → (i == prev + 1) ≡ false → i ≢ prev + 1
apart i prev h e = ground (arith, ==_iff i (prev + 1))

collect-IsCompact :
    (start prev : ℕ) (is : List ℕ) → start ≤ prev → IsCompact (collect start prev is)
unfolding collect
collect-IsCompact start prev [] h = h
collect-IsCompact start prev (i ∷ is) h = elim (Bool-cases (i == prev + 1)) [
  | inl next ↦
      let here : i ≡ prev + 1 = (==_iff i (prev + 1)).0 next in
      rw (collect_next start prev i is next) (collect-IsCompact start i is (omega arith))
  | inr gap ↦ rw (collect_gap start prev i is gap) (
      IsCompact-after start prev i is h (λ e. apart i prev gap e)
        (collect-IsCompact i i is (omega arith)))
]

-- The ranges stand for the very indices that are printed, in their order, whether or not they are
-- sorted; no range is empty, and none could be joined to the one before it.
pub expand-index_ranges :
    (indices : List ℕ)
    → (expand (index_ranges indices) ≡ indices) × IsCompact (index_ranges indices)
unfolding index_ranges
expand-index_ranges [] = (refl, tt)
expand-index_ranges (i ∷ is) =
    (expand-collect i i is (omega arith) ∙ one_index i is, collect-IsCompact i i is (omega arith))
