-- ===== src/Kvcache/Pool/Cached.antt =====
-- `BlockPool::incref`, `reacquire` and `evict_cached` of crates/kvcache/src/pool.rs.
use trt_llm_rs.Prelude.{
  ℕ, zero, suc, ◌+◌, ◌<◌, ◌≡◌, refl, ap, true, false, none, some, List, [], ◌∷◌, arith, ◌==◌,
  if◌then◌else◌, length, length-set, set, ltb, inl, inr, ◌⊎◌, Bool-cases, Option-cases, take, drop,
}
use trt_llm_rs.Prelude.Words.{u32_mod}
use trt_llm_rs.Prelude.Counts.{count}
use trt_llm_rs.Kvcache.Pool.Counting.{
  refs, unheld-set, refs-set, unheld-refs, unheld-le, refs-lt, get_elem?-refs,
}
use trt_llm_rs.Kvcache.Pool.Invariant.{IsValid}
use trt_llm_rs.Kvcache.Pool.{
  BlockPool, ok, total, available, incref_one, incref, without, reacquire, evict_cached,
}

pub count-without :
    (b : ℕ) (xs ys : List ℕ) (j : ℕ)
    → without b xs ≡ some ys
    → count j xs ≡ (if b == j then 1 else 0) + count j ys
unfolding without
count-without b [] ys j e = ground arith
count-without b (x ∷ xs) ys j e = elim (Option-cases (without b xs)) [
  | inl n ↦ ground arith
  | inr (zs, s) ↦ ground (arith, count-without b xs zs j s)
]

pub without-none : (b : ℕ) (xs : List ℕ) → without b xs ≡ none → count b xs ≡ 0
unfolding without
without-none b [] e = refl
without-none b (x ∷ xs) e = ground (arith, without-none b xs)

module _ {F : Type 0} where
  -- What one more reference to a block promises.
  pub record Gained (p : BlockPool F) (b : ℕ) (p' : BlockPool F) : Type 0 where
    pub valid : IsValid p'
    pub size : total p' ≡ total p
    pub gained : (j : ℕ) → refs p'.refcount j ≡ refs p.refcount j + (if b == j then 1 else 0)
    pub unlisted : count b p'.free + count b p'.cached ≡ 0

  incref_one_lem :
      (b : ℕ) (p : BlockPool F)
      → b < total p
      → refs p.refcount b + 1 < u32_mod
      → incref_one b p ≡ ok (record p { refcount = set p.refcount b (refs p.refcount b + 1) })
  unfolding incref_one
  incref_one_lem b p h small = ground (arith, get_elem?-refs p.refcount b h)

  -- On a valid pool `reacquire` of one of its blocks, whose references are fewer than 2^32 - 1, the
  -- largest count that a `u32` holds, answers true exactly when the block is cached or
  -- referenced, and then the block has one reference more and stands in neither list; it answers
  -- false, and changes nothing, exactly when the block is free.
  pub reacquire_total :
      (b : ℕ) (p : BlockPool F)
      → IsValid p
      → b < total p
      → refs p.refcount b + 1 < u32_mod
      → ((count b p.free ≡ 0)
          × ((p' : BlockPool F) × (reacquire b p ≡ ok (true, p')) × Gained p b p'))
        ⊎ ((count b p.free ≡ 1) × (reacquire b p ≡ ok (false, p)))
  unfolding reacquire
  reacquire_total b p v inside small = elim (Option-cases (without b p.cached)) [
    | inr (rest, e) ↦ inl (
      ground (arith, v.balanced b, count-without b p.cached rest b e, unheld-le p.refcount b),
      (
        record p { cached = rest; refcount = set p.refcount b (refs p.refcount b + 1) },
        ground (arith, get_elem?-refs p.refcount b inside),
        record {
          valid = record {
            balanced = λ j. ground (
              arith,
              v.balanced j,
              count-without b p.cached rest j e,
              unheld-set p.refcount b (refs p.refcount b + 1) j inside,
              unheld-le p.refcount j,
            );
          };
          size = length-set p.refcount b (refs p.refcount b + 1);
          gained = λ j. ground (arith, refs-set p.refcount b (refs p.refcount b + 1) j inside);
          unlisted =
              ground
                (arith, v.balanced b, count-without b p.cached rest b e, unheld-le p.refcount b);
        },
      ),
    )
    | inl e ↦ elim (Bool-cases (ltb 0 (refs p.refcount b))) [
      | inl held ↦ inl (
        ground (arith, v.balanced b, unheld-refs p.refcount b),
        (
          record p { refcount = set p.refcount b (refs p.refcount b + 1) },
          ground (arith, get_elem?-refs p.refcount b inside),
          record {
            valid = record {
              balanced = λ j. ground (
                arith,
                v.balanced j,
                unheld-refs p.refcount j,
                unheld-set p.refcount b (refs p.refcount b + 1) j inside,
              );
            };
            size = length-set p.refcount b (refs p.refcount b + 1);
            gained = λ j. ground (arith, refs-set p.refcount b (refs p.refcount b + 1) j inside);
            unlisted = ground (arith, v.balanced b, unheld-refs p.refcount b);
          },
        ),
      )
      | inr bare ↦ inr (
        ground (arith, v.balanced b, unheld-refs p.refcount b, without-none b p.cached e),
        ground (arith, get_elem?-refs p.refcount b inside),
      )
    ]
  ]

  -- `incref` of blocks that are all referenced never panics, keeps the pool valid, and adds to each
  -- count the occurrences of the block; no count may reach 2^32.
  pub incref-IsValid :
      (bs : List ℕ) (p : BlockPool F)
      → IsValid p
      → ((b : ℕ)
          → 0 < count b bs
          → (0 < refs p.refcount b) × (refs p.refcount b + count b bs < u32_mod))
      → (p' : BlockPool F) × (incref bs p ≡ ok p')
        × IsValid p'
        × (p'.free ≡ p.free)
        × (p'.cached ≡ p.cached)
        × ((b : ℕ) → refs p'.refcount b ≡ refs p.refcount b + count b bs)
  unfolding incref
  incref-IsValid [] p v h = (p, refl, v, refl, refl, λ b. omega arith)
  incref-IsValid (b ∷ bs) p v h =
      let (held, small) = h b (ground arith) in
      let inside = refs-lt p.refcount b held in
      let c = refs p.refcount b + 1 in
      let p₁ : BlockPool F = record p { refcount = set p.refcount b c } in
      let at = λ (j : ℕ). refs-set p.refcount b c j inside in
      let v₁ : IsValid p₁ = record {
        balanced = λ j.
            ground
              (arith, v.balanced j, unheld-set p.refcount b c j inside, unheld-refs p.refcount j);
      } in
      let (p₂, e, v₂, f, q, r) = incref-IsValid bs p₁ v₁ (λ j k. ground (arith, h j, at j, h b)) in
      (
        p₂,
        rw (incref_one_lem b p inside (ground arith)) e,
        v₂,
        f,
        q,
        λ j. ground (arith, r j, at j),
      )

  evict_cached_lem :
      (n : ℕ) (p : BlockPool F) (cs : List ℕ)
      → IsValid (record p { cached = cs })
      → IsValid (evict_cached n (record p { cached = cs })).1
        × ((evict_cached n (record p { cached = cs })).0 ≡ take n cs)
        × ((evict_cached n (record p { cached = cs })).1.cached ≡ drop n cs)
        × ((evict_cached n (record p { cached = cs })).1.refcount ≡ p.refcount)
        × (available (evict_cached n (record p { cached = cs })).1 ≡ length p.free + length cs)
  unfolding evict_cached
  evict_cached_lem zero p cs v = (v, refl, refl, refl, refl)
  evict_cached_lem (suc n) p [] v = (v, refl, refl, refl, refl)
  evict_cached_lem (suc n) p (c ∷ cs) v =
      let p₁ : BlockPool F = record p { free = c ∷ p.free } in
      let v₁ : IsValid (record p₁ { cached = cs }) = record {
        balanced = λ j. omega (arith, v.balanced j);
      } in
      let (w, out, rest, same, left) = evict_cached_lem n p₁ cs v₁ in
      (w, ap (◌∷◌ c) out, rest, same, omega (arith, left))

  -- `evict_cached` moves the oldest cached blocks, `n` of them or all, to the free list: the pool stays
  -- valid, no count changes, as many blocks stay available, and the blocks returned are those that
  -- left the front of the queue.
  pub evict_cached-IsValid :
      (n : ℕ) (p : BlockPool F)
      → IsValid p
      → IsValid (evict_cached n p).1
        × ((evict_cached n p).0 ≡ take n p.cached)
        × ((evict_cached n p).1.cached ≡ drop n p.cached)
        × ((evict_cached n p).1.refcount ≡ p.refcount)
        × (available (evict_cached n p).1 ≡ available p)
  evict_cached-IsValid n p v = evict_cached_lem n p p.cached v
