-- ===== src/Kvcache/Pool/Release.antt =====
-- `BlockPool::incref`, `release` and `release_to_cache` of crates/kvcache/src/pool.rs.
use mathlib.Core.List.{append-nil, append_assoc}
use trt_llm_rs.Prelude.{
  ℕ, ◌+◌, ◌-◌, ◌≤◌, ◌<◌, ◌≡◌, refl, sym, ◌∙◌, List, [], ◌∷◌, ◌++◌, arith, ◌==◌, ◌&&◌, if◌then◌else◌,
  length-set, set,
}
use trt_llm_rs.Prelude.Counts.{count, count-append}
use trt_llm_rs.Kvcache.Pool.Counting.{
  refs, unheld-set, refs-set, unheld-refs, refs-lt, get_elem?-refs,
}
use trt_llm_rs.Kvcache.Pool.Invariant.{IsValid}
use trt_llm_rs.Kvcache.Pool.{
  BlockPool, ok, total, drop_ref, release_one, release, release_to_cache_one, release_to_cache,
}

-- The blocks of `bs` that are left without a reference, each at its last mention.
abbrev pub emptied : List ℕ → List ℕ → List ℕ
emptied refcount [] = []
emptied refcount (b ∷ bs) =
    let later = emptied refcount bs in
    if count b bs == 0 && refs refcount b == 0 then b ∷ later else later

module _ {F : Type 0} where
  -- The caller holds the references that it gives back.
  abbrev pub Holds : BlockPool F → List ℕ → Type 0
  Holds p bs = (b : ℕ) → count b bs ≤ refs p.refcount b

  -- What giving back the references `bs` promises: a valid pool of the same size, each block with as
  -- many references fewer as it occurs in `bs`.
  pub record Released (p : BlockPool F) (bs : List ℕ) (p' : BlockPool F) : Type 0 where
    pub valid : IsValid p'
    pub size : total p' ≡ total p
    pub dropped : (b : ℕ) → refs p'.refcount b + count b bs ≡ refs p.refcount b

  drop_ref_lem :
      (b : ℕ) (p : BlockPool F)
      → b < total p
      → drop_ref b p
        ≡ ok (
          refs p.refcount b - 1,
          record p { refcount = set p.refcount b (refs p.refcount b - 1) },
        )
  unfolding drop_ref
  drop_ref_lem b p h = ground (arith, get_elem?-refs p.refcount b h)

  release_one_lem :
      (b : ℕ) (p : BlockPool F)
      → IsValid p
      → 0 < refs p.refcount b
      → (p' : BlockPool F) × (release_one b p ≡ ok p')
        × Released p (b ∷ []) p'
        × (p'.cached ≡ p.cached)
  unfolding release_one
  release_one_lem b p v held =
      let inside = refs-lt p.refcount b held in
      (
        (if refs p.refcount b - 1 == 0
            then record p { refcount = set p.refcount b (refs p.refcount b - 1); free = b ∷ p.free }
            else record p { refcount = set p.refcount b (refs p.refcount b - 1) }),
        rw (drop_ref_lem b p inside) (ground arith),
        record {
          valid = record {
            balanced = λ j. ground (
              arith,
              v.balanced j,
              unheld-set p.refcount b (refs p.refcount b - 1) j inside,
              unheld-refs p.refcount j,
            );
          };
          size = ground (arith, length-set p.refcount b (refs p.refcount b - 1));
          dropped = λ j. ground (arith, refs-set p.refcount b (refs p.refcount b - 1) j inside);
        },
        ground arith,
      )

  Released-none : (p : BlockPool F) → IsValid p → Released p [] p
  Released-none p v = record { valid = v; size = refl; dropped = λ b. omega arith }

  Released-cons :
      {p p₁ p₂ : BlockPool F} {b : ℕ} {bs : List ℕ}
      → Released p (b ∷ []) p₁
      → Released p₁ bs p₂
      → Released p (b ∷ bs) p₂
  Released-cons r s = record {
    valid = s.valid;
    size = s.size ∙ r.size;
    dropped = λ j. omega (arith, r.dropped j, s.dropped j);
  }

  Holds-tail :
      {p p' : BlockPool F} (b : ℕ) (bs : List ℕ)
      → Holds p (b ∷ bs)
      → Released p (b ∷ []) p'
      → Holds p' bs
  Holds-tail b bs h r j = omega (arith, h j, r.dropped j)

  -- Giving back references that the caller holds never panics, leaves a valid pool with each count
  -- lowered by the references given back, and moves nothing into or out of the cached queue.
  pub release-Released :
      (bs : List ℕ) (p : BlockPool F)
      → IsValid p
      → Holds p bs
      → (p' : BlockPool F) × (release bs p ≡ ok p') × Released p bs p' × (p'.cached ≡ p.cached)
  unfolding release
  release-Released [] p v h = (p, refl, Released-none p v, refl)
  release-Released (b ∷ bs) p v h =
      let (p₁, e₁, r, c) = release_one_lem b p v (ground (arith, h b)) in
      let (p₂, e₂, s, d) = release-Released bs p₁ r.valid (Holds-tail b bs h r) in
      (p₂, rw (e₁, e₂), Released-cons r s, d ∙ c)

  release_to_cache_one_lem :
      (b : ℕ) (p : BlockPool F)
      → IsValid p
      → 0 < refs p.refcount b
      → (p' : BlockPool F) × (release_to_cache_one b p ≡ ok p')
        × Released p (b ∷ []) p'
        × (p'.free ≡ p.free)
        × (p'.cached ≡ (if refs p.refcount b == 1 then p.cached ++ b ∷ [] else p.cached))
  unfolding release_to_cache_one
  release_to_cache_one_lem b p v held =
      let inside = refs-lt p.refcount b held in
      (
        (if refs p.refcount b - 1 == 0
            then record p {
              refcount = set p.refcount b (refs p.refcount b - 1);
              cached = p.cached ++ b ∷ [];
            }
            else record p { refcount = set p.refcount b (refs p.refcount b - 1) }),
        rw (drop_ref_lem b p inside) (ground arith),
        record {
          valid = record {
            balanced = λ j. ground (
              arith,
              v.balanced j,
              unheld-set p.refcount b (refs p.refcount b - 1) j inside,
              unheld-refs p.refcount j,
              count-append j p.cached (b ∷ []),
            );
          };
          size = ground (arith, length-set p.refcount b (refs p.refcount b - 1));
          dropped = λ j. ground (arith, refs-set p.refcount b (refs p.refcount b - 1) j inside);
        },
        ground arith,
        ground arith,
      )

  cached_then :
      (b : ℕ) (bs : List ℕ) (p p₁ p₂ : BlockPool F)
      → Released p (b ∷ []) p₁
      → Released p₁ bs p₂
      → p₁.cached ≡ (if refs p.refcount b == 1 then p.cached ++ b ∷ [] else p.cached)
      → p₂.cached ≡ p₁.cached ++ emptied p₂.refcount bs
      → p₂.cached ≡ p.cached ++ emptied p₂.refcount (b ∷ bs)
  cached_then b bs p p₁ p₂ r s first rest = ground (
    arith,
    first,
    rest,
    r.dropped b,
    s.dropped b,
    append_assoc p.cached (b ∷ []) (emptied p₂.refcount bs),
  )

  -- Giving references back by `release_to_cache` never panics, leaves a valid pool with each count
  -- lowered by the references given back, and leaves the free list alone. What it adds to the cached
  -- queue, it adds at the back: each block that is left without a reference, once, in the order in
  -- which the blocks were last mentioned.
  pub release_to_cache-Released :
      (bs : List ℕ) (p : BlockPool F)
      → IsValid p
      → Holds p bs
      → (p' : BlockPool F) × (release_to_cache bs p ≡ ok p')
        × Released p bs p'
        × (p'.free ≡ p.free)
        × (p'.cached ≡ p.cached ++ emptied p'.refcount bs)
  unfolding release_to_cache
  release_to_cache-Released [] p v h = (p, refl, Released-none p v, refl, sym (append-nil p.cached))
  release_to_cache-Released (b ∷ bs) p v h =
      let (p₁, e₁, r, c, first) = release_to_cache_one_lem b p v (ground (arith, h b)) in
      let (p₂, e₂, s, d, rest) = release_to_cache-Released bs p₁ r.valid (Holds-tail b bs h r) in
      (p₂, rw (e₁, e₂), Released-cons r s, d ∙ c, cached_then b bs p p₁ p₂ r s first rest)
