-- ===== src/Kvcache/Prefix.antt =====
-- crates/kvcache/src/prefix.rs: the hash chain over whole blocks and the prefix cache.
pub mod Hashes
pub mod Index
pub mod Lookup
use Prim.Native.Nat.{bit_xor}
use mathlib.Core.List.{foldl, zip}
use trt_llm_rs.Prelude.{
  ℕ, zero, suc, ◌+◌, ◌*◌, ◌/◌, ◌%◌, max, Bool, true, false, not, ◌&&◌, Option, none, some, List, [],
  ◌∷◌, ◌++◌, ltb, ◌==◌, if◌then◌else◌, length, take, drop,
}
use trt_llm_rs.Prelude.Words.{u64_mod, inc64, wrapping_mul64}
use trt_llm_rs.Prelude.Assoc.{Map}
use trt_llm_rs.Prelude.Assoc
use trt_llm_rs.Kvcache.Pool.{BlockId, BlockPool, Result, ok, ◌>>=◌, reacquire}

abbrev pub TokenId : Type 0
TokenId = ℕ

abbrev pub BlockHash : Type 0
BlockHash = ℕ

abbrev pub fnv_offset : ℕ
fnv_offset = 0xcbf2_9ce4_8422_2325

abbrev pub fnv_prime : ℕ
fnv_prime = 0x0000_0100_0000_01b3

-- The loop over `v.to_le_bytes()`, `k` bytes of it.
unfoldable pub fnv1a_bytes : ℕ → ℕ → ℕ → ℕ
fnv1a_bytes zero h v = h
fnv1a_bytes (suc k) h v = fnv1a_bytes k (wrapping_mul64 (bit_xor h (v % 256)) fnv_prime) (v / 256)

unfoldable pub fnv1a_u64 : ℕ → ℕ → ℕ
unfolding fnv1a_bytes
fnv1a_u64 h v = fnv1a_bytes 8 h v

-- The standard library's `chunks_exact(size)` for a positive size; the fuel is the length.
unfoldable pub chunks_exact {ℓ} : {A : Type ℓ} → ℕ → ℕ → List A → List (List A)
chunks_exact zero size xs = []
chunks_exact (suc fuel) size xs =
    let rest = chunks_exact fuel size (drop size xs) in
    if ltb (length xs) size then [] else take size xs ∷ rest

-- The loops of `block_hashes`: `h` is carried from one chunk to the next.
unfoldable pub hash_chunks : ℕ → List (List TokenId) → List BlockHash
hash_chunks h [] = []
hash_chunks h (chunk ∷ chunks) = let h' = foldl fnv1a_u64 h chunk in h' ∷ hash_chunks h' chunks

unfoldable pub block_hashes : List TokenId → ℕ → List BlockHash
unfolding hash_chunks chunks_exact fnv1a_u64
block_hashes tokens block_size =
    hash_chunks fnv_offset (chunks_exact (length tokens) (max block_size 1) tokens)

pub record PrefixMatch : Type 0 where
  pub num_tokens : ℕ
  pub blocks : List BlockId

abbrev pub no_match : PrefixMatch
no_match = record { num_tokens = 0; blocks = [] }

pub record PrefixCache : Type 0 where
  pub block_size : ℕ
  pub by_hash : Map BlockId
  pub by_block : Map BlockHash
  pub hits : ℕ
  pub misses : ℕ
  pub enabled : Bool

unfoldable pub new : ℕ → Bool → PrefixCache
new block_size enabled = record {
  block_size = block_size;
  by_hash = [];
  by_block = [];
  hits = 0;
  misses = 0;
  enabled = enabled;
}

-- The arm for an index entry that the pool has given away: the entry is dropped.
abbrev pub drop_stale : BlockHash → BlockId → PrefixCache → PrefixCache
drop_stale h block c = record c {
  by_hash = Assoc.remove h c.by_hash;
  by_block = Assoc.remove block c.by_block;
  misses = inc64 c.misses;
}

module _ {F : Type 0} where
  -- The loop of `lookup`; `break` is a branch that returns.
  unfoldable pub lookup_loop :
      List BlockHash
      → PrefixMatch
      → PrefixCache
      → BlockPool F
      → Result (PrefixMatch × PrefixCache × BlockPool F)
  lookup_loop [] m c pool = ok (m, c, pool)
  lookup_loop (h ∷ hs) m c pool = elim (Assoc.lookup h c.by_hash) [
    | none ↦ ok (m, record c { misses = inc64 c.misses }, pool)
    | some block ↦ do
      (reacquired, pool') ← reacquire block pool
      let m' = record m {
        blocks = m.blocks ++ block ∷ [];
        num_tokens = m.num_tokens + c.block_size;
      }
      let c' = record c { hits = inc64 c.hits }
      let rest = lookup_loop hs m' c' pool'
      if reacquired then rest else ok (m, drop_stale h block c, pool')
  ]

  unfoldable pub lookup :
      List TokenId → PrefixCache → BlockPool F → Result (PrefixMatch × PrefixCache × BlockPool F)
  lookup tokens c pool =
      if not c.enabled
      then ok (
        no_match,
        record c { misses = (c.misses + length tokens / max c.block_size 1) % u64_mod },
        pool,
      )
      else lookup_loop (block_hashes tokens c.block_size) no_match c pool

-- One round of the loop of `insert`.
unfoldable pub insert_one : BlockHash → BlockId → PrefixCache → PrefixCache
insert_one h b c =
    let by_block' : Map BlockHash = elim (Assoc.lookup h c.by_hash) [
      | some prev ↦ if prev == b then c.by_block else Assoc.remove prev c.by_block
      | none ↦ c.by_block
    ] in
    record c { by_hash = Assoc.insert h b c.by_hash; by_block = Assoc.insert b h by_block' }

unfoldable pub insert_loop : List (BlockHash × BlockId) → PrefixCache → PrefixCache
insert_loop [] c = c
insert_loop ((h, b) ∷ entries) c = insert_loop entries (insert_one h b c)

unfoldable pub insert : List TokenId → List BlockId → PrefixCache → PrefixCache
insert tokens blocks c =
    if not c.enabled then c else insert_loop (zip (block_hashes tokens c.block_size) blocks) c

unfoldable pub forget_one : BlockId → PrefixCache → PrefixCache
forget_one b c = elim (Assoc.lookup b c.by_block) [
  | none ↦ c
  | some h ↦ record c { by_block = Assoc.remove b c.by_block; by_hash = Assoc.remove h c.by_hash }
]

unfoldable pub forget : List BlockId → PrefixCache → PrefixCache
forget [] c = c
forget (b ∷ bs) c = forget bs (forget_one b c)
