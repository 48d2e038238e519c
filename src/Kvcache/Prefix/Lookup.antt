-- ===== src/Kvcache/Prefix/Lookup.antt =====
-- `PrefixCache::lookup` of crates/kvcache/src/prefix.rs, over the pool of pool.rs.
use Prim.Native.Nat.mul
use mathlib.Core.List.{append-nil, append_assoc}
use trt_llm_rs.Prelude.{
  ℕ, ◌+◌, ◌*◌, ◌%◌, ◌≤◌, ◌<◌, ◌≡◌, refl, ap, ◌∙◌, true, false, not, none, some, List, [], ◌∷◌, ◌++◌,
  arith, inl, inr, Option-cases, if_elim, length, take, map,
}
use trt_llm_rs.Prelude.Words.{u32_mod, u64_mod, inc64}
use trt_llm_rs.Prelude.Counts.{count}
use trt_llm_rs.Prelude.Assoc.{lookup-remove}
use trt_llm_rs.Prelude.Assoc
use trt_llm_rs.Kvcache.Pool.{BlockPool, ok, total, reacquire}
use trt_llm_rs.Kvcache.Pool.Counting.{refs}
use trt_llm_rs.Kvcache.Pool.Invariant.{IsValid}
use trt_llm_rs.Kvcache.Pool.Cached.{reacquire_total}
use trt_llm_rs.Kvcache.Prefix.Hashes.{length-block_hashes}
use trt_llm_rs.Kvcache.Prefix.Index.{IsIndexed, drop_stale-IsIndexed}
use trt_llm_rs.Kvcache.Prefix.{
  PrefixCache, PrefixMatch, no_match, block_hashes, drop_stale, lookup_loop, lookup,
}

-- What the loop returns for the blocks that it found.
abbrev match_with : PrefixMatch → ℕ → List ℕ → PrefixMatch
match_with m size found = record {
  num_tokens = m.num_tokens + length found * size;
  blocks = m.blocks ++ found;
}

match_with-none : (m : PrefixMatch) (size : ℕ) → m ≡ match_with m size []
match_with-none m size = ground (arith, append-nil m.blocks)

match_with-cons :
    (m : PrefixMatch) (size b : ℕ) (found : List ℕ)
    → match_with
        (record { num_tokens = m.num_tokens + size; blocks = m.blocks ++ b ∷ [] })
        size
        found
      ≡ match_with m size (b ∷ found)
match_with-cons m size b found =
    ground (arith, append_assoc m.blocks (b ∷ []) found, mul.suc (length found) size)

module _ {F : Type 0} where
  -- Every block that the index names is one of the pool's.
  abbrev pub InPool : PrefixCache → BlockPool F → Type 0
  InPool c p = (h b : ℕ) → Assoc.lookup h c.by_hash ≡ some b → b < total p

  -- What a lookup promises, for the blocks `found` that it adds to the match: they are what the index
  -- holds for the first hashes, the pool has one reference more to each, and both structures stay
  -- consistent.
  pub record Matched (hs found : List ℕ) (c c' : PrefixCache) (p p' : BlockPool F) : Type 0 where
    pub indexed : IsIndexed c'
    pub valid : IsValid p'
    pub size : total p' ≡ total p
    pub fits : length found ≤ length hs
    pub from_index : map some found ≡ map (λ h. Assoc.lookup h c.by_hash) (take (length found) hs)
    pub referenced : (b : ℕ) → refs p'.refcount b ≡ refs p.refcount b + count b found

  Matched-none :
      (hs : List ℕ) (c c' : PrefixCache) (p : BlockPool F)
      → IsIndexed c'
      → IsValid p
      → Matched hs [] c c' p p
  Matched-none hs c c' p i v = record {
    indexed = i;
    valid = v;
    size = refl;
    fits = omega arith;
    from_index = refl;
    referenced = λ b. omega arith;
  }

  module _ (h : ℕ) (hs : List ℕ) (m : PrefixMatch) (c : PrefixCache) (p : BlockPool F) where
    miss_lem :
        Assoc.lookup h c.by_hash ≡ none
        → lookup_loop (h ∷ hs) m c p ≡ ok (m, record c { misses = inc64 c.misses }, p)
    unfolding lookup_loop
    miss_lem e = rw (e, lookup_loop)

    stale_lem :
        (b : ℕ)
        → Assoc.lookup h c.by_hash ≡ some b
        → reacquire b p ≡ ok (false, p)
        → lookup_loop (h ∷ hs) m c p ≡ ok (m, drop_stale h b c, p)
    unfolding lookup_loop
    stale_lem b e r = rw (e, lookup_loop) (rw r)

    hit_lem :
        (b : ℕ) (p₁ : BlockPool F)
        → Assoc.lookup h c.by_hash ≡ some b
        → reacquire b p ≡ ok (true, p₁)
        → lookup_loop (h ∷ hs) m c p
          ≡ lookup_loop hs
              (record { num_tokens = m.num_tokens + c.block_size; blocks = m.blocks ++ b ∷ [] })
              (record c { hits = inc64 c.hits })
              p₁
    unfolding lookup_loop
    hit_lem b p₁ e r = rw (e, lookup_loop) (rw r)

  lookup_loop_lem :
      (hs : List ℕ) (m : PrefixMatch) (c : PrefixCache) (p : BlockPool F)
      → IsIndexed c
      → IsValid p
      → InPool c p
      → ((b : ℕ) → refs p.refcount b + length hs < u32_mod)
      → (found : List ℕ) × (c' : PrefixCache) × (p' : BlockPool F) × (lookup_loop hs m c p
          ≡ ok (match_with m c.block_size found, c', p'))
        × Matched hs found c c' p p'
  lookup_loop_lem [] m c p i v inside small = (
    [],
    c,
    p,
    unfold lookup_loop in ap (λ n. ok (n, c, p)) (match_with-none m c.block_size),
    Matched-none [] c c p i v,
  )
  lookup_loop_lem (h ∷ hs) m c p i v inside small = elim (Option-cases (Assoc.lookup h c.by_hash)) [
    | inl missing ↦
        let c' : PrefixCache = record c { misses = inc64 c.misses } in
        (
          [],
          c',
          p,
          miss_lem h hs m c p missing ∙ ap (λ n. ok (n, c', p)) (match_with-none m c.block_size),
          Matched-none (h ∷ hs) c c' p (record { found = i.found }) v,
        )
    | inr (b, e) ↦ elim (reacquire_total b p v (inside h b e) (omega (arith, small b))) [
      | inl (_, (p₁, r, g)) ↦
          let c₁ : PrefixCache = record c { hits = inc64 c.hits } in
          let m₁ : PrefixMatch = record {
            num_tokens = m.num_tokens + c.block_size;
            blocks = m.blocks ++ b ∷ [];
          } in
          let (found, c', p', eq, t) =
            lookup_loop_lem hs m₁ c₁ p₁ (record { found = i.found }) g.valid
              (λ k j at. rw g.size (inside k j at)) (λ j. ground (arith, small j, g.gained j)) in
          (
            b ∷ found,
            c',
            p',
            hit_lem h hs m c p b p₁ e r
                ∙ eq
                ∙ ap (λ n. ok (n, c', p')) (match_with-cons m c.block_size b found),
            record {
              indexed = t.indexed;
              valid = t.valid;
              size = t.size ∙ g.size;
              fits = omega (arith, t.fits);
              from_index = cc (e, t.from_index);
              referenced = λ j. omega (arith, t.referenced j, g.gained j);
            },
          )
      | inr (_, r) ↦ (
        [],
        drop_stale h b c,
        p,
        stale_lem h hs m c p b e r
            ∙ ap (λ n. ok (n, drop_stale h b c, p)) (match_with-none m c.block_size),
        Matched-none (h ∷ hs) c (drop_stale h b c) p (drop_stale-IsIndexed h b c e i) v,
      )
    ]
  ]

  -- An enabled cache over a valid pool: a lookup never panics; the blocks that it returns are those
  -- that the index holds for the first block hashes of the tokens, they cover `block_size` tokens
  -- each, every one of them has gained a reference, and pool and index stay consistent. No count may
  -- come within the number of hashes of 2^32.
  pub lookup-Matched :
      (tokens : List ℕ) (c : PrefixCache) (p : BlockPool F)
      → c.enabled ≡ true
      → IsIndexed c
      → IsValid p
      → InPool c p
      → ((b : ℕ) → refs p.refcount b + length (block_hashes tokens c.block_size) < u32_mod)
      → (m : PrefixMatch) × (c' : PrefixCache) × (p' : BlockPool F) × (lookup tokens c p
          ≡ ok (m, c', p'))
        × (m.num_tokens ≡ length m.blocks * c.block_size)
        × Matched (block_hashes tokens c.block_size) m.blocks c c' p p'
  unfolding lookup
  lookup-Matched tokens c p on i v inside small =
      let (found, c', p', e, t) =
        lookup_loop_lem (block_hashes tokens c.block_size) no_match c p i v inside small in
      (
        match_with no_match c.block_size found,
        c',
        p',
        if_elim (λ r. r ≡ ok (match_with no_match c.block_size found, c', p')) (not c.enabled)
            (λ off. cc) (λ _. e),
        omega arith,
        t,
      )

  -- A disabled cache finds nothing and leaves the pool and the index alone; it counts each whole
  -- block of the tokens as a miss.
  pub lookup_disabled :
      (tokens : List ℕ) (c : PrefixCache) (p : BlockPool F)
      → c.enabled ≡ false
      → lookup tokens c p
        ≡ ok (
          no_match,
          record c { misses = (c.misses + length (block_hashes tokens c.block_size)) % u64_mod },
          p,
        )
  unfolding lookup
  lookup_disabled tokens c p off = ground (arith, length-block_hashes tokens c.block_size)
