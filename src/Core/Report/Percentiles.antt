-- ===== src/Core/Report/Percentiles.antt =====
-- The percentiles of crates/core/src/stats.rs.
use trt_llm_rs.Prelude.{
  ℕ, zero, suc, ◌-◌, ◌≤◌, ◌<◌, ◌≡◌, refl, ◌∙◌, sym, subst, min, max, some, List, [], ◌∷◌, true,
  false, ◌==◌, arith, length, get_elem?, get_elem?_total, All,
}
use mathlib.Core.Option.{some-injective}
use trt_llm_rs.Prelude.Float.{Floats}
use trt_llm_rs.Prelude.Sort.{sort_by, sort_by-IsSorted, length-sort_by, IsSorted, IsTotal, le_by}
use trt_llm_rs.Core.Report.{LatencyStats, rank, percentile, sum, from_samples}

module _ {ℓ} {A : Type ℓ} where
  All-get_elem? {κ} :
      (P : A → Type κ) (xs : List A) (i : ℕ) (a : A) → All P xs → get_elem? xs i ≡ some a → P a
  All-get_elem? P [] i a ps e = absurd (ground arith)
  All-get_elem? P (x ∷ xs) zero a (p, ps) e = subst P (some-injective x a e) p
  All-get_elem? P (x ∷ xs) (suc i) a (p, ps) e = All-get_elem? P xs i a ps e

module _ {F : Type 0} (fl : Floats F) where
  abbrev pub place : F → ℕ → ℕ
  place q n = min (max (rank fl q n) 1) n - 1

  percentile_lem :
      (v : List F) (q : F) → 0 < length v → percentile fl v q ≡ get_elem? v (place q (length v))
  unfolding percentile
  percentile_lem v q h = ground arith

  sorted-le :
      IsTotal fl.total_cmp
      → (v : List F) (i j : ℕ) (a b : F) → IsSorted fl.total_cmp v
      → i ≤ j
      → get_elem? v i ≡ some a
      → get_elem? v j ≡ some b
      → le_by fl.total_cmp a b ≡ true
  sorted-le t [] i j a b s h ea eb = absurd (ground arith)
  sorted-le t (x ∷ v) zero zero a b s h ea eb =
      subst (λ c. le_by fl.total_cmp a c ≡ true)
        (sym (some-injective x a ea) ∙ some-injective x b eb) (le_refl a)
    where
      le_refl : (a : F) → le_by fl.total_cmp a a ≡ true
      le_refl a = ground (arith, t.flips a a)
  sorted-le t (x ∷ v) zero (suc j) a b (later, s) h ea eb =
      subst (λ c. le_by fl.total_cmp c b ≡ true) (some-injective x a ea)
        (All-get_elem? (λ y. le_by fl.total_cmp x y ≡ true) v j b later eb)
  sorted-le t (x ∷ v) (suc i) zero a b s h ea eb = absurd (omega arith)
  sorted-le t (x ∷ v) (suc i) (suc j) a b (later, s) h ea eb =
      sorted-le t v i j a b s (omega arith) ea eb

  -- A summary of samples never reads past the end, counts them all, and has its percentiles and its
  -- maximum in order. Of the floats it takes that the total order is one and that the ranks of
  -- the four fractions are in order.
  pub from_samples-IsOrdered :
      IsTotal fl.total_cmp
      → ((n : ℕ)
          → (rank fl (fl.literal 50 100) n ≤ rank fl (fl.literal 90 100) n)
            × (rank fl (fl.literal 90 100) n ≤ rank fl (fl.literal 95 100) n)
            × (rank fl (fl.literal 95 100) n ≤ rank fl (fl.literal 99 100) n))
      → (samples : List F) → 0 < length samples
      → (s : LatencyStats F) × (from_samples fl samples ≡ some s)
        × (s.count ≡ length samples)
        × (le_by fl.total_cmp s.p50 s.p90 ≡ true)
        × (le_by fl.total_cmp s.p90 s.p95 ≡ true)
        × (le_by fl.total_cmp s.p95 s.p99 ≡ true)
        × (le_by fl.total_cmp s.p99 s.max ≡ true)
  unfolding from_samples
  from_samples-IsOrdered t ranks samples h =
      let v = sort_by fl.total_cmp samples in
      let n = length v in
      let len : n ≡ length samples = length-sort_by fl.total_cmp samples in
      let some_v : 0 < n = omega (arith, len) in
      let sorted = sort_by-IsSorted fl.total_cmp t samples in
      let none_empty : (length samples == 0) ≡ false = ground arith in
      let (r₁, r₂, r₃) = ranks n in
      let (a, ea) = get_elem?_total v (place (fl.literal 50 100) n) (omega arith) in
      let (b, eb) = get_elem?_total v (place (fl.literal 90 100) n) (omega arith) in
      let (c, ec) = get_elem?_total v (place (fl.literal 95 100) n) (omega arith) in
      let (d, ed) = get_elem?_total v (place (fl.literal 99 100) n) (omega arith) in
      let (m, em) = get_elem?_total v (n - 1) (omega arith) in
      (
        record {
          count = n;
          mean = fl.div (sum fl v (fl.literal 0 1)) (fl.of_ℕ n);
          p50 = a;
          p90 = b;
          p95 = c;
          p99 = d;
          max = m;
        },
        rw
            (
              none_empty,
              percentile_lem v (fl.literal 50 100) some_v ∙ ea,
              percentile_lem v (fl.literal 90 100) some_v ∙ eb,
              percentile_lem v (fl.literal 95 100) some_v ∙ ec,
              percentile_lem v (fl.literal 99 100) some_v ∙ ed,
              em,
            )
            refl,
        len,
        sorted-le t v _ _ a b sorted (omega arith) ea eb,
        sorted-le t v _ _ b c sorted (omega arith) eb ec,
        sorted-le t v _ _ c d sorted (omega arith) ec ed,
        sorted-le t v _ _ d m sorted (omega arith) ed em,
      )
