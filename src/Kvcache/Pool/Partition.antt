-- ===== src/Kvcache/Pool/Partition.antt =====
-- `BlockPool::stats` of crates/kvcache/src/pool.rs, and what `alloc` followed by `release` leaves.
use trt_llm_rs.Prelude.{
  ℕ, zero, suc, ◌+◌, ◌<◌, ◌≡◌, refl, sym, ap, subst, ◌∙◌, List, [], ◌∷◌, arith, ◌==◌, if◌then◌else◌,
  length, inl, inr,
}
use trt_llm_rs.Prelude.Counts.{count}
use trt_llm_rs.Kvcache.Pool.Counting.{unheld, refs, unheld-refs}
use trt_llm_rs.Kvcache.Pool.Invariant.{IsValid}
use trt_llm_rs.Kvcache.Pool.Alloc.{Allocated, alloc_total}
use trt_llm_rs.Kvcache.Pool.Release.{release-Released}
use trt_llm_rs.Kvcache.Pool.{
  BlockPool, Result, ok, err, count_positive, stats, available, alloc, release,
}

sum_below : ℕ → (ℕ → ℕ) → ℕ
sum_below zero f = 0
sum_below (suc n) f = f 0 + sum_below n (λ b. f (suc b))

sum_below-cong : (n : ℕ) (f g : ℕ → ℕ) → ((b : ℕ) → f b ≡ g b) → sum_below n f ≡ sum_below n g
unfolding sum_below
sum_below-cong zero f g h = refl
sum_below-cong (suc n) f g h =
    omega (arith, h 0, sum_below-cong n (λ b. f (suc b)) (λ b. g (suc b)) (λ b. h (suc b)))

sum_below-add : (n : ℕ) (f g : ℕ → ℕ) → sum_below n (λ b. f b + g b) ≡ sum_below n f + sum_below n g
unfolding sum_below
sum_below-add zero f g = omega arith
sum_below-add (suc n) f g = omega (arith, sum_below-add n (λ b. f (suc b)) (λ b. g (suc b)))

sum_below-zero : (n : ℕ) → sum_below n (λ b. 0) ≡ 0
unfolding sum_below
sum_below-zero zero = refl
sum_below-zero (suc n) = omega (arith, sum_below-zero n)

sum_below-one : (n x : ℕ) → x < n → sum_below n (λ b. if x == b then 1 else 0) ≡ 1
unfolding sum_below
sum_below-one zero x h = elim h [ ]
sum_below-one (suc n) zero h = ground (
  arith,
  sum_below-zero n,
  sum_below-cong n (λ b. if 0 == suc b then 1 else 0) (λ b. 0) (λ b. ground arith),
)
sum_below-one (suc n) (suc x) h = ground (
  arith,
  sum_below-one n x,
  sum_below-cong n (λ b. if suc x == suc b then 1 else 0) (λ b. if x == b then 1 else 0)
      (λ b. ground arith),
)

sum_below-count :
    (n : ℕ) (xs : List ℕ)
    → ((b : ℕ) → 0 < count b xs → b < n)
    → sum_below n (λ b. count b xs) ≡ length xs
sum_below-count n [] h = sum_below-zero n
sum_below-count n (x ∷ xs) h = omega (
  arith,
  sum_below-add n (λ b. if x == b then 1 else 0) (λ b. count b xs),
  sum_below-one n x (h x (ground arith)),
  sum_below-count n xs (λ b k. h b (ground arith)),
)

sum_below-unheld : (rc : List ℕ) → sum_below (length rc) (unheld rc) + count_positive rc ≡ length rc
unfolding sum_below count_positive
sum_below-unheld [] = refl
sum_below-unheld (c ∷ rc) = ground (arith, sum_below-unheld rc)

refs-ext : (xs ys : List ℕ) → length xs ≡ length ys → ((b : ℕ) → refs xs b ≡ refs ys b) → xs ≡ ys
refs-ext [] [] e h = refl
refs-ext [] (y ∷ ys) e h = absurd (omega arith)
refs-ext (x ∷ xs) [] e h = absurd (omega arith)
refs-ext (x ∷ xs) (y ∷ ys) e h = cc (h 0, refs-ext xs ys (omega arith) (λ b. h (suc b)))

-- `Allocated` of a result that is `ok`.
abbrev Handed : {F : Type 0} → BlockPool F → Result (List ℕ × BlockPool F) → Type 0
Handed p (ok (out, p')) = Allocated p out p'
Handed p (err e) = Unit

module _ {F : Type 0} where
  alloc-Allocated :
      (n : ℕ) (p p' : BlockPool F) (out : List ℕ)
      → IsValid p
      → alloc n p ≡ ok (out, p')
      → Allocated p out p'
  alloc-Allocated n p p' out v e = elim (alloc_total n p v) [
    | inl (_, (out₁, p₁, e₁, _, a)) ↦ subst (λ r. Handed p r) (sym e₁ ∙ e) a
    | inr (_, e₁) ↦ cc
  ]

  -- The statistics of a valid pool partition it: each block is free, cached or in use.
  pub stats-partition :
      (p : BlockPool F)
      → IsValid p
      → (stats p).free + (stats p).cached + (stats p).in_use ≡ (stats p).total
  unfolding stats
  stats-partition p v =
      let inside = λ (b : ℕ) (k : 0 < count b p.free + count b p.cached).
        let e = v.balanced b in
        let u = unheld-refs p.refcount b in let r : b < length p.refcount = ground arith in r in
      omega (
        arith,
        sum_below-unheld p.refcount,
        sum_below-cong (length p.refcount) (λ b. count b p.free + count b p.cached)
            (unheld p.refcount) v.balanced,
        sum_below-add (length p.refcount) (λ b. count b p.free) (λ b. count b p.cached),
        sum_below-count (length p.refcount) p.free (λ b k. inside b (omega arith)),
        sum_below-count (length p.refcount) p.cached (λ b k. inside b (omega arith)),
      )

  available-partition :
      (p : BlockPool F) → IsValid p → available p + count_positive p.refcount ≡ length p.refcount
  available-partition p v = unfold stats in stats-partition p v

  -- Releasing what `alloc` handed out gives back every count and as many available blocks as before,
  -- and never panics.
  pub release-alloc :
      (n : ℕ) (p p' : BlockPool F) (out : List ℕ)
      → IsValid p
      → alloc n p ≡ ok (out, p')
      → (q : BlockPool F) × (release out p' ≡ ok q)
        × IsValid q
        × (q.refcount ≡ p.refcount)
        × (available q ≡ available p)
  release-alloc n p p' out v e =
      let a : Allocated p out p' = alloc-Allocated n p p' out v e in
      let (q, r, d, _) = release-Released out p' a.valid (λ b. omega (arith, a.referenced b)) in
      let same : q.refcount ≡ p.refcount =
        refs-ext q.refcount p.refcount (d.size ∙ a.size)
          (λ b. omega (arith, a.referenced b, d.dropped b)) in
      (
        q,
        r,
        d.valid,
        same,
        omega (
          arith,
          available-partition q d.valid,
          available-partition p v,
          ap count_positive same,
          ap length same,
        ),
      )
