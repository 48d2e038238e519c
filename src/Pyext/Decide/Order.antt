-- ===== src/Pyext/Decide/Order.antt =====
-- crates/pyext/src/decide.rs: `decide_indices` keeps to the order of the generation requests.
use trt_llm_rs.Prelude.{
  ℕ, ◌+◌, ◌<◌, ◌≡◌, ◌⊎◌, true, ◌++◌, take, drop, All, All-append, All-weaken, All-pointwise, inl,
  inr,
}
use trt_llm_rs.Prelude.Words.{u64_mod}
use trt_llm_rs.Prelude.Float.{Floats}
use trt_llm_rs.Prelude.Sort.{
  IsTotal, le_by, sort_by-IsSorted, IsSorted-take-drop, then_cmp-IsTotal, key-IsTotal,
}
use trt_llm_rs.Prelude.Int.{compare_ℤ, compare_ℤ-IsTotal}
use trt_llm_rs.Pyext.Decide.Phases.{IsContext}
use trt_llm_rs.Pyext.Decide.{
  DecideInput, DecodeOrder, arrival, slack, generation_sorted, decide_indices, generation_order,
  generation_order_of, by_arrival_then_id, by_tolerance_then_id, arrival_at, id_at, tolerance_at,
}
use trt_llm_rs.Pyext.Decide.Priority.{room, decide_indices-admits}

module _ {F : Type 0} (fl : Floats F) (input : DecideInput F) where
  generation_order-IsTotal : IsTotal fl.total_cmp → IsTotal (generation_order fl input)
  unfolding by_arrival_then_id by_tolerance_then_id
  generation_order-IsTotal t = order_of input.decode_order
    where
      ids : IsTotal (λ (a b : ℕ). compare_ℤ (id_at fl input a) (id_at fl input b))
      ids = key-IsTotal (id_at fl input) compare_ℤ compare_ℤ-IsTotal

      order_of : (o : DecodeOrder) → IsTotal (generation_order_of fl input o)
      order_of arrival =
          then_cmp-IsTotal
            (λ (a b : ℕ). fl.total_cmp (arrival_at fl input a) (arrival_at fl input b)) _
            (key-IsTotal (arrival_at fl input) fl.total_cmp t) ids
      order_of slack =
          then_cmp-IsTotal
            (λ (a b : ℕ). fl.total_cmp (tolerance_at fl input a) (tolerance_at fl input b)) _
            (key-IsTotal (tolerance_at fl input) fl.total_cmp t) ids

  -- Of two indices: one is a context request, or they are in the order of the generation requests.
  abbrev pub InOrder : ℕ → ℕ → Type 0
  InOrder i j =
      IsContext fl input i ⊎ IsContext fl input j ⊎ (le_by (generation_order fl input) i j ≡ true)

  -- No generation request is paused in favour of one that comes after it in the order: by arrival and
  -- id, or by the latency that it can still tolerate and id. `total_cmp` is a total order.
  pub decide_indices-InOrder :
      IsTotal fl.total_cmp
      → input.max_num_tokens + 1 < u64_mod
      → All (λ i. All (InOrder i) (decide_indices fl input).1) (decide_indices fl input).0
  decide_indices-InOrder t h =
      let (ran, held, f, p, rs, hs, _, _) = decide_indices-admits fl input h in
      let sorted =
        IsSorted-take-drop (generation_order fl input) (room fl input) (generation_sorted fl input)
          (unfold generation_sorted in
            sort_by-IsSorted (generation_order fl input) (generation_order-IsTotal t) _) in
      rw (f, p)
        (All-append _ (take (room fl input) (generation_sorted fl input)) ran
          (All-weaken _ _ (take (room fl input) (generation_sorted fl input))
            (λ i le.
              All-append (InOrder i) (drop (room fl input) (generation_sorted fl input)) held
                (All-weaken _ (InOrder i) (drop (room fl input) (generation_sorted fl input))
                  (λ j e. inr (inr e)) le)
                (All-weaken _ (InOrder i) held (λ j c. inr (inl c)) hs))
            sorted)
          (All-weaken _ _ ran
            (λ i c.
              All-pointwise (InOrder i) (λ j. inl c)
                (drop (room fl input) (generation_sorted fl input) ++ held))
            rs))
