-- ===== src/Pyext/Decide/Budgets.antt =====
-- The budgets of `decide_indices` in crates/pyext/src/decide.rs.
use trt_llm_rs.Prelude.{
  ℕ, ◌+◌, ◌≤◌, ◌<◌, ◌≡◌, Bool, true, false, List, [], ◌∷◌, ◌++◌, arith, if◌then◌else◌, length,
  length-append, All,
}
use trt_llm_rs.Prelude.Words.{u64_mod}
use trt_llm_rs.Prelude.Float.{Floats}
use trt_llm_rs.Pyext.Decide.Phases.{
  IsContext, IsGeneration, context_sorted-phase, generation_sorted-phase,
}
use trt_llm_rs.Pyext.Decide.{
  DecideInput, Admission, no_admission, is_context_at, remaining_at, generation_sorted,
  context_sorted, generation_step, generation_loop, context_step, context_loop, admit_generation,
  admit_all, decide_indices,
}

module _ {F : Type 0} (fl : Floats F) (input : DecideInput F) where
  -- What a request that runs costs: its prefill work, or the one token that it emits.
  abbrev pub cost : ℕ → ℕ
  cost i = if is_context_at fl input i then remaining_at fl input i else 1

  abbrev pub sum_cost : List ℕ → ℕ
  sum_cost [] = 0
  sum_cost (i ∷ is) = cost i + sum_cost is

  abbrev pub count_generation : List ℕ → ℕ
  count_generation [] = 0
  count_generation (i ∷ is) = (if is_context_at fl input i then 0 else 1) + count_generation is

  sum_cost-append : (xs ys : List ℕ) → sum_cost (xs ++ ys) ≡ sum_cost xs + sum_cost ys
  sum_cost-append [] ys = omega arith
  sum_cost-append (x ∷ xs) ys = omega (arith, sum_cost-append xs ys)

  count_generation-append :
      (xs ys : List ℕ) → count_generation (xs ++ ys) ≡ count_generation xs + count_generation ys
  count_generation-append [] ys = omega arith
  count_generation-append (x ∷ xs) ys = omega (arith, count_generation-append xs ys)

  -- The three counters are what they count, and within their budgets.
  record IsWithin (a : Admission) : Type 0 where
    batch : a.batch_used ≡ length a.fitting_indices
    tokens : a.token_used ≡ sum_cost a.fitting_indices
    generation : a.gen_admitted ≡ count_generation a.fitting_indices
    batch_fits : a.batch_used ≤ input.max_batch_size
    tokens_fit : a.token_used ≤ input.max_num_tokens
    generation_fits : a.gen_admitted ≤ input.generation_cap

  generation_step-IsWithin :
      (idx : ℕ) (a : Admission)
      → input.max_num_tokens + 1 < u64_mod
      → is_context_at fl input idx ≡ false
      → IsWithin a
      → IsWithin (generation_step fl input idx a)
  unfolding generation_step
  generation_step-IsWithin idx a h phase w = ground (
    arith,
    length-append a.fitting_indices (idx ∷ []),
    sum_cost-append a.fitting_indices (idx ∷ []),
    count_generation-append a.fitting_indices (idx ∷ []),
  )

  context_step-IsWithin :
      (stalled : Bool) (idx : ℕ) (a : Admission)
      → input.max_num_tokens + 1 < u64_mod
      → is_context_at fl input idx ≡ true
      → IsWithin a
      → IsWithin (context_step fl input stalled idx a)
  unfolding context_step
  context_step-IsWithin stalled idx a h phase w = ground (
    arith,
    length-append a.fitting_indices (idx ∷ []),
    sum_cost-append a.fitting_indices (idx ∷ []),
    count_generation-append a.fitting_indices (idx ∷ []),
  )

  generation_loop-IsWithin :
      (is : List ℕ) (a : Admission)
      → input.max_num_tokens + 1 < u64_mod
      → All (IsGeneration fl input) is
      → IsWithin a
      → IsWithin (generation_loop fl input is a)
  unfolding generation_loop
  generation_loop-IsWithin [] a h ps w = w
  generation_loop-IsWithin (i ∷ is) a h (p, ps) w =
      generation_loop-IsWithin is _ h ps (generation_step-IsWithin i a h p w)

  context_loop-IsWithin :
      (stalled : Bool) (is : List ℕ) (a : Admission)
      → input.max_num_tokens + 1 < u64_mod
      → All (IsContext fl input) is
      → IsWithin a
      → IsWithin (context_loop fl input stalled is a)
  unfolding context_loop
  context_loop-IsWithin stalled [] a h ps w = w
  context_loop-IsWithin stalled (i ∷ is) a h (p, ps) w =
      context_loop-IsWithin stalled is _ h ps (context_step-IsWithin stalled i a h p w)

  -- The requests that fit keep every budget: no more of them than the batch holds, their costs within
  -- the token budget, and no more generation requests than the controller's cap. The token budget is
  -- one that a saturating u64 sum can exceed.
  pub decide_indices-budgets :
      input.max_num_tokens + 1 < u64_mod
      → (length (decide_indices fl input).0 ≤ input.max_batch_size)
        × (sum_cost (decide_indices fl input).0 ≤ input.max_num_tokens)
        × (count_generation (decide_indices fl input).0 ≤ input.generation_cap)
  unfolding decide_indices admit_generation
  decide_indices-budgets h =
      let w : IsWithin (admit_all fl input) =
        context_loop-IsWithin _ (context_sorted fl input) _ h (context_sorted-phase fl input) (
          generation_loop-IsWithin (generation_sorted fl input) no_admission h
            (generation_sorted-phase fl input) (omega arith)) in
      (
        omega (arith, w.batch, w.batch_fits),
        omega (arith, w.tokens, w.tokens_fit),
        omega (arith, w.generation, w.generation_fits),
      )
