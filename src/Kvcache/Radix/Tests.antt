-- ===== src/Kvcache/Radix/Tests.antt =====
-- Two prompts that share a prefix, and the theorems of Kvcache.Radix at them.
use trt_llm_rs.Prelude.{ℕ, ◌+◌, ◌≤◌, ◌≡◌, refl, some, List, [], ◌∷◌, length, take, max, All}
use trt_llm_rs.Prelude.Int.{ℤ, pos}
use trt_llm_rs.Prelude.Whole.{whole}
use trt_llm_rs.Prelude.Assoc.{Map, lookup}
use trt_llm_rs.Prelude.Assoc
use trt_llm_rs.Kvcache.Radix.{RadixIndex, new, match_workers, insert, node_count}
use trt_llm_rs.Kvcache.Radix.History.{
  Call, recorded, pruned, Recorded, call, run, match_workers-Recorded,
}
use trt_llm_rs.Kvcache.Radix.Bounds.{run-node_count}

abbrev prompts : List (Call ℤ)
prompts = recorded 7 (1 ∷ 2 ∷ 3 ∷ []) (pos 1) ∷ recorded 8 (1 ∷ 2 ∷ 9 ∷ []) (pos 2) ∷ []

abbrev prompt : List ℕ
prompt = 1 ∷ 2 ∷ 9 ∷ 4 ∷ []

-- The index that they leave, with a cap of 3 nodes: it has 4.
abbrev full : RadixIndex ℤ
full = record {
  nodes =
      record { edge = []; children = (1, 1) ∷ []; workers = 7 ∷ 8 ∷ []; last_access_ms = pos 2 }
      ∷ record {
        edge = 1 ∷ 2 ∷ [];
        children = (3, 2) ∷ (9, 3) ∷ [];
        workers = 7 ∷ 8 ∷ [];
        last_access_ms = pos 2;
      }
      ∷ record { edge = 3 ∷ []; children = []; workers = 7 ∷ []; last_access_ms = pos 2 }
      ∷ record { edge = 9 ∷ []; children = []; workers = 8 ∷ []; last_access_ms = pos 2 }
      ∷ [];
  min_prefix_tokens = 1;
  max_nodes = 3;
}

run-prompts : run whole prompts (new whole 1 3) ≡ some full
unfolding run call new insert lookup Assoc.insert
run-prompts = refl

match_full : match_workers prompt full ≡ some ((7, 2) ∷ (8, 3) ∷ [])
unfolding match_workers lookup Assoc.insert
match_full = refl

over_the_cap : node_count full ≡ 4
unfolding node_count
over_the_cap = refl

-- The same prompts, a sweep that leaves only the root, and the first prompt again.
abbrev swept : List (Call ℤ)
swept =
    recorded 7 (1 ∷ 2 ∷ 3 ∷ []) (pos 1)
    ∷ recorded 8 (1 ∷ 2 ∷ 9 ∷ []) (pos 2)
    ∷ pruned (pos 90) (pos 5)
    ∷ recorded 7 (1 ∷ 2 ∷ 3 ∷ []) (pos 91)
    ∷ []

match_workers-Recorded_example :
    (g : RadixIndex ℤ) × (out : Map ℕ) × (run whole swept (new whole 1 3) ≡ some g)
    × (match_workers prompt g ≡ some out)
    × All (λ e. (e.1 ≤ length prompt) × Recorded swept e.0 (take e.1 prompt)) out
match_workers-Recorded_example = match_workers-Recorded whole 1 3 swept prompt

run-node_count_example : node_count full ≤ max 3 1 + 1
run-node_count_example = run-node_count whole 1 3 prompts full run-prompts
