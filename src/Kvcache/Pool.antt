-- ===== src/Kvcache/Pool.antt =====
-- crates/kvcache/src/pool.rs and lib.rs: the paged block pool. `f64` is an interface (`Floats`),
-- a `u32` counter wraps, an index past the end of `refcount` is the result `panicked`.
pub mod Counting
pub mod Invariant
pub mod Alloc
pub mod Release
pub mod Cached
pub mod Partition
use trt_llm_rs.Prelude.{
  ℕ, zero, suc, ◌+◌, ◌-◌, ◌*◌, ◌/◌, max, Bool, true, false, Option, none, some, List, [], ◌∷◌, ◌++◌,
  ltb, leb, ◌==◌, if◌then◌else◌, length, get_elem?, set, replicate, range,
}
use trt_llm_rs.Prelude.Words.{inc32}
use trt_llm_rs.Prelude.Float.{Floats, clamp}

abbrev pub BlockId : Type 0
BlockId = ℕ

-- `Error::KvExhausted`, and a panic.
pub data Error : Type 0 where
  kv_exhausted : ℕ → ℕ → Error
  panicked : Error

pub data Result {ℓ} (A : Type ℓ) : Type ℓ where
  ok : A → Result A
  err : Error → Result A

infixl 5 ◌>>=◌
abbrev pub ◌>>=◌ {ℓ κ} : {A : Type ℓ} {B : Type κ} → Result A → (A → Result B) → Result B
ok a >>= f = f a
err e >>= f = err e

-- The last block of the source's `free` is the head of the list here, so that `pop` takes the head.
-- The head of `cached` is the front of the queue, its oldest block.
pub record BlockPool (F : Type 0) : Type 0 where
  pub block_size : ℕ
  pub refcount : List ℕ
  pub free : List BlockId
  pub cached : List BlockId
  pub watermark : F

pub record PoolStats : Type 0 where
  pub total : ℕ
  pub free : ℕ
  pub in_use : ℕ
  pub cached : ℕ

pub record SequenceBlocks : Type 0 where
  pub blocks : List BlockId
  pub num_tokens : ℕ

unfoldable pub capacity_tokens : SequenceBlocks → ℕ → ℕ
capacity_tokens s block_size = length s.blocks * block_size

unfoldable pub blocks_for : ℕ → ℕ → ℕ
blocks_for tokens block_size = let bs = max block_size 1 in (tokens + bs - 1) / bs

module _ {F : Type 0} (fl : Floats F) where
  unfoldable pub new : ℕ → ℕ → F → BlockPool F
  new num_blocks block_size watermark = record {
    block_size = block_size;
    refcount = replicate num_blocks 0;
    free = range num_blocks;
    cached = [];
    watermark = clamp fl watermark (fl.literal 0 1) (fl.literal 1 1);
  }

unfoldable pub count_positive : List ℕ → ℕ
count_positive [] = 0
count_positive (c ∷ cs) = (if ltb 0 c then 1 else 0) + count_positive cs

-- `position` and `remove`: the queue without the first entry that is `b`.
unfoldable pub without : BlockId → List BlockId → Option (List BlockId)
without b [] = none
without b (x ∷ xs) =
    let rest = without b xs in
    if x == b then some xs else elim rest [ none ↦ none | some ys ↦ some (x ∷ ys) ]

module _ {F : Type 0} where
  abbrev pub total : BlockPool F → ℕ
  total p = length p.refcount

  abbrev pub free_blocks : BlockPool F → ℕ
  free_blocks p = length p.free

  abbrev pub available : BlockPool F → ℕ
  available p = length p.free + length p.cached

  unfoldable pub stats : BlockPool F → PoolStats
  unfolding count_positive
  stats p = record {
    total = total p;
    free = length p.free;
    in_use = count_positive p.refcount;
    cached = length p.cached;
  }

  unfoldable pub utilisation : Floats F → PoolStats → F
  utilisation fl s =
      if s.total == 0 then fl.literal 0 1 else fl.div (fl.of_ℕ s.in_use) (fl.of_ℕ s.total)

  unfoldable pub can_admit : Floats F → BlockPool F → ℕ → Bool
  can_admit fl p blocks =
      let reserve = fl.to_ℕ (fl.ceil (fl.mul (fl.of_ℕ (total p)) p.watermark)) in
      leb (blocks + reserve) (available p)

  -- `free.pop()`, and the front of `cached` when nothing is free.
  unfoldable pub take_block : BlockPool F → Result (BlockId × BlockPool F)
  take_block p = elim p.free [
    | id ∷ rest ↦ ok (id, record p { free = rest })
    | [] ↦ elim p.cached [ id ∷ rest ↦ ok (id, record p { cached = rest }) | [] ↦ err panicked ]
  ]

  -- `self.refcount[i] = c`.
  unfoldable pub set_refcount : BlockPool F → BlockId → ℕ → Result (BlockPool F)
  set_refcount p b c =
      if ltb b (total p) then ok (record p { refcount = set p.refcount b c }) else err panicked

  unfoldable pub alloc_loop : ℕ → BlockPool F → Result (List BlockId × BlockPool F)
  alloc_loop zero p = ok ([], p)
  alloc_loop (suc n) p = do
    (id, p₁) ← take_block p
    p₂ ← set_refcount p₁ id 1
    (out, p₃) ← alloc_loop n p₂
    ok (id ∷ out, p₃)

  unfoldable pub alloc : ℕ → BlockPool F → Result (List BlockId × BlockPool F)
  alloc n p = if ltb (available p) n then err (kv_exhausted n (available p)) else alloc_loop n p

  -- `self.refcount[i]`.
  unfoldable pub get_refcount : BlockPool F → BlockId → Result ℕ
  get_refcount p b = elim (get_elem? p.refcount b) [ none ↦ err panicked | some c ↦ ok c ]

  unfoldable pub incref_one : BlockId → BlockPool F → Result (BlockPool F)
  unfolding get_refcount set_refcount
  incref_one b p = do c ← get_refcount p b; set_refcount p b (inc32 c)

  unfoldable pub incref : List BlockId → BlockPool F → Result (BlockPool F)
  incref [] p = ok p
  incref (b ∷ bs) p = do p' ← incref_one b p; incref bs p'

  -- One reference less, stopping at zero.
  unfoldable pub drop_ref : BlockId → BlockPool F → Result (ℕ × BlockPool F)
  unfolding get_refcount set_refcount
  drop_ref b p = do
    rc ← get_refcount p b
    let rc' = if ltb 0 rc then rc - 1 else rc
    p' ← set_refcount p b rc'
    ok (rc', p')

  unfoldable pub release_one : BlockId → BlockPool F → Result (BlockPool F)
  release_one b p = do
    (rc, p') ← drop_ref b p
    ok (if rc == 0 then record p' { free = b ∷ p'.free } else p')

  unfoldable pub release : List BlockId → BlockPool F → Result (BlockPool F)
  release [] p = ok p
  release (b ∷ bs) p = do p' ← release_one b p; release bs p'

  unfoldable pub release_to_cache_one : BlockId → BlockPool F → Result (BlockPool F)
  release_to_cache_one b p = do
    (rc, p') ← drop_ref b p
    ok (if rc == 0 then record p' { cached = p'.cached ++ b ∷ [] } else p')

  unfoldable pub release_to_cache : List BlockId → BlockPool F → Result (BlockPool F)
  release_to_cache [] p = ok p
  release_to_cache (b ∷ bs) p = do p' ← release_to_cache_one b p; release_to_cache bs p'

  unfoldable pub reacquire : BlockId → BlockPool F → Result (Bool × BlockPool F)
  unfolding incref_one get_refcount without
  reacquire b p = elim (without b p.cached) [
    | some rest ↦ do p' ← incref_one b (record p { cached = rest }); ok (true, p')
    | none ↦ do
      rc ← get_refcount p b
      if ltb 0 rc then (do p' ← incref_one b p; ok (true, p')) else ok (false, p)
  ]

  unfoldable pub evict_cached : ℕ → BlockPool F → List BlockId × BlockPool F
  evict_cached zero p = ([], p)
  evict_cached (suc n) p = elim p.cached [
    | [] ↦ ([], p)
    | b ∷ rest ↦
        let (out, p') = evict_cached n (record p { free = b ∷ p.free; cached = rest }) in
        (b ∷ out, p')
  ]
