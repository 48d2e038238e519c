-- ===== src/Kvcache/Pool/Invariant.antt =====
-- The invariant of crates/kvcache/src/pool.rs: every block of the pool is referenced, or stands
-- exactly once in one of the two lists.
use trt_llm_rs.Prelude.{ℕ, ◌+◌, ◌≡◌, arith}
use trt_llm_rs.Prelude.Float.{Floats}
use trt_llm_rs.Prelude.Counts.{count, count-range_from}
use trt_llm_rs.Kvcache.Pool.Counting.{unheld, unheld-replicate}
use trt_llm_rs.Kvcache.Pool.{BlockPool, new}

pub record IsValid {F : Type 0} (p : BlockPool F) : Type 0 where
  pub balanced : (b : ℕ) → count b p.free + count b p.cached ≡ unheld p.refcount b

-- A new pool is valid, and every block of it is free.
pub new-IsValid :
    {F : Type 0} (fl : Floats F) (num_blocks block_size : ℕ) (watermark : F)
    → IsValid (new fl num_blocks block_size watermark)
unfolding new
new-IsValid fl n block_size watermark = record {
  balanced = λ b. ground (arith, unheld-replicate n b, count-range_from b 0 n);
}
