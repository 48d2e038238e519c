-- ===== src/Prelude/Counts.antt =====
-- How often a number occurs in a list, and two lists with the same numbers as often.
use Prim.Native.Nat.{ℕ, zero, suc, ◌+◌}
use Prim.Native.Nat.{Ordering}
use mathlib.Core.Path.{◌≡◌, refl, ◌∙◌, sym, ap}
use mathlib.Core.Bool.{Bool, false, ◌||◌}
use mathlib.Core.Logic.{◌≢◌}
use mathlib.Core.List.{List, [], ◌∷◌, ◌++◌, Perm, foldr}
use mathlib.Core.List.Perm
use native.Mathlib.Omega.{arith}
use trt_llm_rs.Prelude.Tests.{◌==◌, if◌then◌else◌, if_elim, ltb}
use trt_llm_rs.Prelude.Lists.{range_from, All}
use trt_llm_rs.Prelude.Sort.{insert_by, sort_by}

abbrev pub count : ℕ → List ℕ → ℕ
count n [] = 0
count n (m ∷ ms) = let here = if m == n then 1 else 0 in here + count n ms

abbrev pub contains : List ℕ → ℕ → Bool
contains [] a = false
contains (x ∷ xs) a = x == a || contains xs a

-- `retain(|x| *x != a)`.
abbrev pub retain_ne : ℕ → List ℕ → List ℕ
retain_ne a [] = []
retain_ne a (x ∷ xs) = let rest = retain_ne a xs in if x == a then rest else x ∷ rest

pub count-retain_ne :
    (a b : ℕ) (xs : List ℕ) → count b (retain_ne a xs) ≡ (if a == b then 0 else count b xs)
count-retain_ne a b [] = ground arith
count-retain_ne a b (x ∷ xs) = ground (arith, count-retain_ne a b xs)

pub contains-count : (xs : List ℕ) (a : ℕ) → contains xs a ≡ ltb 0 (count a xs)
contains-count [] a = refl
contains-count (x ∷ xs) a = ground (arith, contains-count xs a)

pub contains-retain_ne :
    (a b : ℕ) (xs : List ℕ)
    → contains (retain_ne a xs) b ≡ (if a == b then false else contains xs b)
contains-retain_ne a b [] = ground arith
contains-retain_ne a b (x ∷ xs) = ground (arith, contains-retain_ne a b xs)

pub count-append :
    (n : ℕ) (front back : List ℕ) → count n (front ++ back) ≡ count n front + count n back
count-append n [] back = omega arith
count-append n (m ∷ ms) back = let rest = count-append n ms back in ground (arith, rest)

pub count-range_from :
    (a from n : ℕ)
    → count a (range_from from n) ≡ (if ltb a from then 0 else if ltb a (from + n) then 1 else 0)
count-range_from a from zero = ground arith
count-range_from a from (suc n) = ground (arith, count-range_from a (suc from) n)

module _ (cmp : ℕ → ℕ → Ordering) where
  count-insert_by : (a x : ℕ) (xs : List ℕ) → count a (insert_by cmp x xs) ≡ count a (x ∷ xs)
  unfolding insert_by
  count-insert_by a x [] = refl
  count-insert_by a x (y ∷ ys) = ground (arith, count-insert_by a x ys)

  pub count-sort_by : (a : ℕ) (xs : List ℕ) → count a (sort_by cmp xs) ≡ count a xs
  unfolding sort_by
  count-sort_by a [] = refl
  count-sort_by a (x ∷ xs) = omega (arith, count-insert_by a x (sort_by cmp xs), count-sort_by a xs)

abbrev tally : ℕ → ℕ → ℕ → ℕ
tally a x n = (if x == a then 1 else 0) + n

count-foldr : (a : ℕ) (xs : List ℕ) → count a xs ≡ foldr (tally a) 0 xs
count-foldr a [] = refl
count-foldr a (x ∷ xs) = ap (tally a x) (count-foldr a xs)

pub count-Perm : (a : ℕ) (xs ys : List ℕ) → Perm xs ys → count a xs ≡ count a ys
count-Perm a xs ys p =
    count-foldr a xs
    ∙ Perm.foldr-eq (hlevel) (tally a) (λ x y n. omega arith) p 0
    ∙ sym (count-foldr a ys)

pub All-retain_ne {κ} :
    (P : ℕ → Type κ) (a : ℕ) (xs : List ℕ) → All P xs → All (λ x. P x × (a ≢ x)) (retain_ne a xs)
All-retain_ne P a [] ps = tt
All-retain_ne P a (x ∷ xs) (p, ps) =
    if_elim (All (λ x. P x × (a ≢ x))) (x == a) (λ _. All-retain_ne P a xs ps)
      (λ other. ((p, ground arith), All-retain_ne P a xs ps))
