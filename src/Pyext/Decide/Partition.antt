-- ===== src/Pyext/Decide/Partition.antt =====
-- `decide_indices` of crates/pyext/src/decide.rs puts each request in one list.
use trt_llm_rs.Prelude.{
  ℕ, ◌+◌, ◌≡◌, ap, Bool, not, List, [], ◌∷◌, arith, ltb, if◌then◌else◌, length, range, ==_iff,
}
use trt_llm_rs.Prelude.Counts.{count, count-append, count-range_from, count-sort_by}
use trt_llm_rs.Prelude.Float.{Floats}
use trt_llm_rs.Pyext.Decide.{
  DecideInput, Admission, is_inflight, is_context_at, candidates, generation_order,
  by_arrival_then_id, generation_sorted, context_sorted, generation_step, generation_loop,
  context_step, context_loop, admit_generation, decide_indices, is_empty, no_admission,
}

-- How often an index stands in either list.
abbrev placed : ℕ → Admission → ℕ
placed j a = count j a.fitting_indices + count j a.paused_indices

module _ {F : Type 0} (fl : Floats F) (input : DecideInput F) where
  pub count-candidates :
      (is : List ℕ) (j : ℕ)
      → (count j (candidates fl input is).0 ≡ (
          if is_inflight fl input j then 0 else if is_context_at fl input j then count j is else 0))
        × (count j (candidates fl input is).1 ≡ (
            if is_inflight fl input j
            then 0
            else if is_context_at fl input j
            then 0
            else count j is))
  unfolding candidates
  count-candidates [] j = ground arith
  count-candidates (i ∷ is) j =
      let (c, g) = count-candidates is j in
      let f = λ (e : i ≡ j). ap (is_inflight fl input) e in
      let k = λ (e : i ≡ j). ap (is_context_at fl input) e in
      let split = (==_iff i j).0 in (ground (arith, c, f, k, split), ground (arith, g, f, k, split))

  generation_step-placed :
      (idx j : ℕ) (a : Admission)
      → placed j (generation_step fl input idx a) ≡ count j (idx ∷ []) + placed j a
  unfolding generation_step
  generation_step-placed idx j a = ground (
    arith,
    count-append j a.fitting_indices (idx ∷ []),
    count-append j a.paused_indices (idx ∷ []),
  )

  generation_loop-placed :
      (is : List ℕ) (j : ℕ) (a : Admission)
      → placed j (generation_loop fl input is a) ≡ count j is + placed j a
  unfolding generation_loop
  generation_loop-placed [] j a = omega arith
  generation_loop-placed (i ∷ is) j a = omega (
    arith,
    generation_loop-placed is j (generation_step fl input i a),
    generation_step-placed i j a,
  )

  context_step-placed :
      (stalled : Bool) (idx j : ℕ) (a : Admission)
      → placed j (context_step fl input stalled idx a) ≡ count j (idx ∷ []) + placed j a
  unfolding context_step
  context_step-placed stalled idx j a = ground (
    arith,
    count-append j a.fitting_indices (idx ∷ []),
    count-append j a.paused_indices (idx ∷ []),
  )

  context_loop-placed :
      (stalled : Bool) (is : List ℕ) (j : ℕ) (a : Admission)
      → placed j (context_loop fl input stalled is a) ≡ count j is + placed j a
  unfolding context_loop
  context_loop-placed stalled [] j a = omega arith
  context_loop-placed stalled (i ∷ is) j a = omega (
    arith,
    context_loop-placed stalled is j (context_step fl input stalled i a),
    context_step-placed stalled i j a,
  )

  -- Each index of a request that is not in flight stands once in one of the two lists, fitting or
  -- paused; an index in flight or past the last request stands in neither.
  pub decide_indices-partition :
      (j : ℕ)
      → count j (decide_indices fl input).0 + count j (decide_indices fl input).1
        ≡ (if is_inflight fl input j then 0 else if ltb j (length input.ids) then 1 else 0)
  unfolding decide_indices admit_generation generation_sorted context_sorted
  decide_indices-partition j =
      let n = range (length input.ids) in
      let (c, g) = count-candidates n j in
      let start = admit_generation fl input in
      ground (
        arith,
        c,
        g,
        count-range_from j 0 (length input.ids),
        count-sort_by (generation_order fl input) j (candidates fl input n).1,
        count-sort_by (by_arrival_then_id fl input) j (candidates fl input n).0,
        generation_loop-placed (generation_sorted fl input) j no_admission,
        context_loop-placed (not (is_empty start.paused_indices)) (context_sorted fl input) j start,
      )
