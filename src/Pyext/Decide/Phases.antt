-- ===== src/Pyext/Decide/Phases.antt =====
-- Which candidates `decide_indices` of crates/pyext/src/decide.rs sorts.
use trt_llm_rs.Prelude.{ℕ, ◌≡◌, true, false, List, [], ◌∷◌, arith, length, range, All}
use trt_llm_rs.Prelude.Float.{Floats}
use trt_llm_rs.Prelude.Sort.{All-sort_by}
use trt_llm_rs.Pyext.Decide.{
  DecideInput, is_context_at, candidates, generation_order, by_arrival_then_id, generation_sorted,
  context_sorted,
}

module _ {F : Type 0} (fl : Floats F) (input : DecideInput F) where
  abbrev pub IsContext : ℕ → Type 0
  IsContext i = is_context_at fl input i ≡ true

  abbrev pub IsGeneration : ℕ → Type 0
  IsGeneration i = is_context_at fl input i ≡ false

  candidates-phase :
      (is : List ℕ)
      → All IsContext (candidates fl input is).0 × All IsGeneration (candidates fl input is).1
  unfolding candidates
  candidates-phase [] = (tt, tt)
  candidates-phase (i ∷ is) = let (c, g) = candidates-phase is in ground (arith, c, g)

  pub context_sorted-phase : All IsContext (context_sorted fl input)
  unfolding context_sorted
  context_sorted-phase =
      All-sort_by IsContext (by_arrival_then_id fl input) _
        (candidates-phase (range (length input.ids))).0

  pub generation_sorted-phase : All IsGeneration (generation_sorted fl input)
  unfolding generation_sorted
  generation_sorted-phase =
      All-sort_by IsGeneration (generation_order fl input) _
        (candidates-phase (range (length input.ids))).1
