-- ===== src/Kvcache/Tests.antt =====
-- A pool, a cache and a prompt, and the theorems of Kvcache at them.
use trt_llm_rs.Prelude.{
  ◌++◌, ℕ, zero, suc, ◌+◌, ◌*◌, ◌≤◌, ◌<◌, ◌≡◌, refl, max, true, false, List, [], ◌∷◌, arith, length,
  take, ◌⊎◌,
}
use trt_llm_rs.Prelude.Words.{u32_mod}
use trt_llm_rs.Prelude.Counts.{count}
use trt_llm_rs.Prelude.Int.{ℤ, pos, ◌*ℤ◌}
use trt_llm_rs.Prelude.Whole.{whole}
use trt_llm_rs.Prelude.Assoc
use trt_llm_rs.Kvcache.Pool.{
  BlockPool, ok, err, kv_exhausted, total, available, can_admit, alloc, alloc_loop, take_block,
  set_refcount, release, release_to_cache, reacquire, stats,
}
use trt_llm_rs.Kvcache.Pool.Counting.{refs, unheld}
use trt_llm_rs.Kvcache.Pool.Invariant.{IsValid}
use trt_llm_rs.Kvcache.Pool.Alloc.{Allocated, alloc_total, can_admit-alloc}
use trt_llm_rs.Kvcache.Pool.Release.{
  Holds, Released, release-Released, release_to_cache-Released, emptied,
}
use trt_llm_rs.Kvcache.Pool.Cached.{Gained, reacquire_total}
use trt_llm_rs.Kvcache.Pool.Partition.{stats-partition, release-alloc}
use trt_llm_rs.Kvcache.Prefix.{PrefixCache, PrefixMatch, block_hashes, insert, lookup}
use trt_llm_rs.Kvcache.Prefix.Hashes.{length-block_hashes, block_hashes-take}
use trt_llm_rs.Kvcache.Prefix.Index.{IsIndexed, insert-IsIndexed}
use trt_llm_rs.Kvcache.Prefix.Lookup.{InPool, Matched, lookup-Matched}

-- Four blocks: two held, one free, one cached.
abbrev pool : BlockPool ℤ
pool = record {
  block_size = 2;
  refcount = 1 ∷ 0 ∷ 0 ∷ 2 ∷ [];
  free = 1 ∷ [];
  cached = 2 ∷ [];
  watermark = pos 0;
}

abbrev pool_after : BlockPool ℤ
pool_after = record {
  block_size = 2;
  refcount = 1 ∷ 1 ∷ 1 ∷ 2 ∷ [];
  free = [];
  cached = [];
  watermark = pos 0;
}

abbrev given_back : List ℕ
given_back = 0 ∷ 3 ∷ []

pool_balanced : (b : ℕ) → count b (1 ∷ []) + count b (2 ∷ []) ≡ unheld (1 ∷ 0 ∷ 0 ∷ 2 ∷ []) b
pool_balanced zero = refl
pool_balanced (suc zero) = refl
pool_balanced (suc (suc zero)) = refl
pool_balanced (suc (suc (suc zero))) = refl
pool_balanced (suc (suc (suc (suc b)))) = ground arith

pool-IsValid : IsValid pool
pool-IsValid = record { balanced = pool_balanced }

given_back-Holds : Holds pool given_back
given_back-Holds zero = omega arith
given_back-Holds (suc zero) = omega arith
given_back-Holds (suc (suc zero)) = omega arith
given_back-Holds (suc (suc (suc zero))) = omega arith
given_back-Holds (suc (suc (suc (suc b)))) = ground arith

given_back-room :
    (b : ℕ)
    → 0 < count b given_back
    → (0 < refs pool.refcount b) × (refs pool.refcount b + count b given_back < u32_mod)
given_back-room zero h = (omega arith, omega arith)
given_back-room (suc zero) h = absurd (ground arith)
given_back-room (suc (suc zero)) h = absurd (ground arith)
given_back-room (suc (suc (suc zero))) h = (omega arith, omega arith)
given_back-room (suc (suc (suc (suc b)))) h = absurd (ground arith)

abbrev prompt : List ℕ
prompt = 5 ∷ 6 ∷ 7 ∷ []

abbrev first_hash : ℕ
first_hash = 13189456744481400806

-- The first block of the prompt is cached in block 2.
abbrev cache : PrefixCache
cache = record {
  block_size = 2;
  by_hash = (first_hash, 2) ∷ [];
  by_block = (2, first_hash) ∷ [];
  hits = 0;
  misses = 0;
  enabled = true;
}

first_hash_lem : block_hashes prompt 2 ≡ first_hash ∷ []
unfolding block_hashes
first_hash_lem = refl

cache-IsIndexed : IsIndexed cache
unfolding Assoc.lookup
cache-IsIndexed = record { found = λ b h e. ground (arith, e) }

cache-InPool : InPool cache pool
unfolding Assoc.lookup
cache-InPool h b e = ground (arith, e)

pool-room : (b : ℕ) → refs pool.refcount b + length (block_hashes prompt 2) < u32_mod
pool-room zero = omega (arith, length-block_hashes prompt 2)
pool-room (suc zero) = omega (arith, length-block_hashes prompt 2)
pool-room (suc (suc zero)) = omega (arith, length-block_hashes prompt 2)
pool-room (suc (suc (suc zero))) = omega (arith, length-block_hashes prompt 2)
pool-room (suc (suc (suc (suc b)))) = omega (arith, length-block_hashes prompt 2)

alloc_total_example :
    ((2 ≤ available pool)
      × ((out : List ℕ) × (p' : BlockPool ℤ) × (alloc 2 pool ≡ ok (out, p'))
          × (length out ≡ 2)
          × Allocated pool out p'))
    ⊎ ((available pool < 2) × (alloc 2 pool ≡ err (kv_exhausted 2 (available pool))))
alloc_total_example = alloc_total 2 pool pool-IsValid

can_admit-alloc_example :
    (out : List ℕ) × (p' : BlockPool ℤ) × (alloc 2 pool ≡ ok (out, p'))
    × (length out ≡ 2)
    × (whole.to_ℕ (whole.ceil (whole.mul (whole.of_ℕ (total pool)) pool.watermark)) ≤ available p')
unfolding can_admit ◌*ℤ◌
can_admit-alloc_example = can_admit-alloc whole pool 2 pool-IsValid refl

release-Released_example :
    (p' : BlockPool ℤ) × (release given_back pool ≡ ok p')
    × Released pool given_back p'
    × (p'.cached ≡ pool.cached)
release-Released_example = release-Released given_back pool pool-IsValid given_back-Holds

release_to_cache-Released_example :
    (p' : BlockPool ℤ) × (release_to_cache given_back pool ≡ ok p')
    × Released pool given_back p'
    × (p'.free ≡ pool.free)
    × (p'.cached ≡ pool.cached ++ emptied p'.refcount given_back)
release_to_cache-Released_example =
    release_to_cache-Released given_back pool pool-IsValid given_back-Holds

reacquire_total_example :
    ((count 2 pool.free ≡ 0)
      × ((p' : BlockPool ℤ) × (reacquire 2 pool ≡ ok (true, p')) × Gained pool 2 p'))
    ⊎ ((count 2 pool.free ≡ 1) × (reacquire 2 pool ≡ ok (false, pool)))
reacquire_total_example = reacquire_total 2 pool pool-IsValid (omega arith) (omega arith)

stats-partition_example :
    (stats pool).free + (stats pool).cached + (stats pool).in_use ≡ (stats pool).total
stats-partition_example = stats-partition pool pool-IsValid

release-alloc_example :
    (q : BlockPool ℤ) × (release (1 ∷ 2 ∷ []) pool_after ≡ ok q)
    × IsValid q
    × (q.refcount ≡ pool.refcount)
    × (available q ≡ available pool)
unfolding alloc alloc_loop take_block set_refcount
release-alloc_example = release-alloc 2 pool pool_after (1 ∷ 2 ∷ []) pool-IsValid refl

block_hashes-take_example :
    block_hashes (take (1 * max 2 1) prompt) 2 ≡ take 1 (block_hashes prompt 2)
block_hashes-take_example = block_hashes-take 1 prompt 2

insert-IsIndexed_example : IsIndexed (insert prompt (1 ∷ 2 ∷ []) cache)
insert-IsIndexed_example = insert-IsIndexed prompt (1 ∷ 2 ∷ []) cache cache-IsIndexed

lookup-Matched_example :
    (m : PrefixMatch) × (c' : PrefixCache) × (p' : BlockPool ℤ) × (lookup prompt cache pool
      ≡ ok (m, c', p'))
    × (m.num_tokens ≡ length m.blocks * cache.block_size)
    × Matched (block_hashes prompt cache.block_size) m.blocks cache c' pool p'
lookup-Matched_example =
    lookup-Matched prompt cache pool refl cache-IsIndexed pool-IsValid cache-InPool pool-room
