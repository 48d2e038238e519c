-- ===== src/Kvcache/Radix/Sweep.antt =====
-- kvcache/src/radix.rs, `prune`: the sweep keeps the trie.
use trt_llm_rs.Prelude.{
  ℕ, zero, suc, ◌+◌, ◌≤◌, ◌<◌, ◌≡◌, some, List, arith, length, Option-cases, inl, inr,
}
use trt_llm_rs.Prelude.Float.{Floats}
use trt_llm_rs.Kvcache.Radix.{Node, detach, victim_from, prune_loop}
use trt_llm_rs.Kvcache.Radix.Trie.{IsTrie}
use trt_llm_rs.Kvcache.Radix.Detach.{detach-Detached}
use trt_llm_rs.Kvcache.Radix.Shrink.{moved_path, detach-IsTrie}
use trt_llm_rs.Kvcache.Radix.Prune.{victim_from_found}

module _ {F : Type 0} (fl : Floats F) where
  -- The sweep ends, and what it leaves is a trie.
  pub prune_loop-IsTrie :
      (R : ℕ → List ℕ → Type 0) (now ttl_ms : F) (fuel : ℕ) (path : ℕ → List ℕ)
      (nodes : List (Node F)) (removed : ℕ)
      → length nodes ≤ fuel
      → IsTrie R path nodes
      → (left : List (Node F)) × (total : ℕ) × (path' : ℕ → List ℕ) × (prune_loop fl fuel now ttl_ms
            nodes removed
          ≡ some (left, total))
        × IsTrie R path' left
  unfolding prune_loop
  prune_loop-IsTrie R now ttl_ms zero path nodes removed h t = absurd (omega (arith, t.inhabited))
  prune_loop-IsTrie R now ttl_ms (suc fuel) path nodes removed h t =
      elim (Option-cases (victim_from fl now ttl_ms 0 nodes)) [
        | inl clean ↦ (nodes, removed, path, ground arith, t)
        | inr (victim, found) ↦
            let (_, below, pos) = victim_from_found fl now ttl_ms 0 nodes victim found in
            let lt : victim < length nodes = omega (arith, below) in
            let t' = detach-IsTrie R path nodes t victim pos lt in
            let (left, total, path', e, t'') =
              prune_loop-IsTrie R now ttl_ms fuel (moved_path R path nodes t victim pos lt)
                (detach victim nodes) (removed + 1)
                (omega (arith, (detach-Detached victim nodes pos lt).one_less)) t' in
            (left, total, path', ground (arith, e), t'')
      ]
