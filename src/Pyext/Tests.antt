-- ===== src/Pyext/Tests.antt =====
-- A step of three requests, and the theorems of Pyext at it.
use trt_llm_rs.Prelude.{
  ℕ, ◌+◌, ◌≤◌, ◌<◌, ◌≡◌, refl, true, false, List, [], ◌∷◌, ◌++◌, arith, ltb, if◌then◌else◌, length,
  take, drop, ◌⊎◌, All,
}
use trt_llm_rs.Prelude.Counts.{count}
use trt_llm_rs.Prelude.Int.{ℤ, pos, compare_ℤ-IsTotal}
use trt_llm_rs.Prelude.Whole.{whole}
use trt_llm_rs.Pyext.Decide.{
  DecideInput, arrival, decide_indices, is_inflight, generation_sorted, done_at, admit_all,
  admit_generation, generation_loop, generation_step, context_loop, context_step, context_sorted,
  candidates, is_context_at, by_arrival_then_id,
}
use trt_llm_rs.Prelude.Sort.{sort_by, insert_by}
use trt_llm_rs.Pyext.Decide.Phases.{IsContext}
use trt_llm_rs.Pyext.Decide.Budgets.{sum_cost, count_generation, decide_indices-budgets}
use trt_llm_rs.Pyext.Decide.Partition.{decide_indices-partition}
use trt_llm_rs.Pyext.Decide.Order.{InOrder, decide_indices-InOrder}
use trt_llm_rs.Pyext.Decide.Priority.{room, decide_indices-admits}

-- Two requests that generate and one with a prompt to compute, which does not fit.
abbrev input : DecideInput ℤ
input = record {
  ids = pos 10 ∷ pos 11 ∷ pos 12 ∷ [];
  is_context = false ∷ true ∷ false ∷ [];
  prompt_lens = 4 ∷ 9 ∷ 4 ∷ [];
  context_done_tokens = 4 ∷ 0 ∷ 4 ∷ [];
  arrival_ms = pos 3 ∷ pos 1 ∷ pos 2 ∷ [];
  inflight = [];
  max_batch_size = 8;
  max_num_tokens = 10;
  tokens_generated = 2 ∷ 0 ∷ 1 ∷ [];
  max_new_tokens = 9 ∷ 9 ∷ 9 ∷ [];
  now_ms = pos 5;
  itl_budget_ms = pos 20;
  decode_order = arrival;
  kv_free_blocks = 4;
  kv_watermark_blocks = 1;
  generation_cap = 8;
}

-- The second of the generating requests arrived first.
runs_generation : decide_indices whole input ≡ (2 ∷ 0 ∷ [], 1 ∷ [])
unfolding decide_indices admit_all admit_generation generation_loop generation_step context_loop
    context_step generation_sorted context_sorted candidates is_inflight is_context_at
    by_arrival_then_id sort_by insert_by
runs_generation = refl

decide_indices-budgets_example :
    (length (decide_indices whole input).0 ≤ input.max_batch_size)
    × (sum_cost whole input (decide_indices whole input).0 ≤ input.max_num_tokens)
    × (count_generation whole input (decide_indices whole input).0 ≤ input.generation_cap)
decide_indices-budgets_example = decide_indices-budgets whole input (omega arith)

decide_indices-partition_example :
    count 1 (decide_indices whole input).0 + count 1 (decide_indices whole input).1
    ≡ (if is_inflight whole input 1 then 0 else if ltb 1 (length input.ids) then 1 else 0)
decide_indices-partition_example = decide_indices-partition whole input 1

decide_indices-InOrder_example :
    All
      (λ i. All (InOrder whole input i) (decide_indices whole input).1)
      (decide_indices whole input).0
decide_indices-InOrder_example = decide_indices-InOrder whole input compare_ℤ-IsTotal (omega arith)

decide_indices-admits_example :
    (ran : List ℕ) × (held : List ℕ) × ((decide_indices whole input).0
      ≡ take (room whole input) (generation_sorted whole input) ++ ran)
    × ((decide_indices whole input).1
        ≡ drop (room whole input) (generation_sorted whole input) ++ held)
    × All (IsContext whole input) ran
    × All (IsContext whole input) held
    × ((drop (room whole input) (generation_sorted whole input) ≡ []) ⊎ (ran ≡ []))
    × All
        (λ i. (0 < done_at whole input i) ⊎ (input.kv_watermark_blocks ≤ input.kv_free_blocks))
        ran
decide_indices-admits_example = decide_indices-admits whole input (omega arith)
