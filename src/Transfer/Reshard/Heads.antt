-- ===== src/Transfer/Reshard/Heads.antt =====
-- The plans of crates/transfer/src/reshard.rs that give each decode rank heads of its own.
use trt_llm_rs.Prelude.{
  ℕ, zero, suc, ◌+◌, ◌-◌, ◌*◌, ◌/◌, ◌%◌, ◌≤◌, ◌<◌, ◌≡◌, refl, ap, ◌∙◌, sym, subst, List, [], ◌∷◌,
  ◌++◌, map, true, leb, arith, ◌↔◌, inr, range, range_from, All,
}
use native.Mathlib.Nat.{div-lt_iff_lt-mul, div-add-mod, le-div_iff_mul-le}
use trt_llm_rs.Transfer.Reshard.{
  Reshard, ReshardEdge, ReshardPlan, src_rank_of, edges_of, edges_of_all, plan,
}
use trt_llm_rs.Transfer.Reshard.Accepts.{plan-Accepted}

module _ (r : Reshard) where
  abbrev share : ℕ
  share = r.num_kv_heads / r.dst_tp

  abbrev edge : ℕ → ReshardEdge
  edge head = record { head = head; src_rank = src_rank_of r head; dst_rank = head / share }

  edges_of_all_lem :
      leb r.dst_tp r.num_kv_heads ≡ true → (heads : List ℕ) → edges_of_all r heads ≡ map edge heads
  unfolding edges_of_all edges_of
  edges_of_all_lem few [] = refl
  edges_of_all_lem few (head ∷ heads) =
      let here : edges_of r head ≡ edge head ∷ [] = rw (few, edges_of) refl in
      ap (λ es. es ++ edges_of_all r heads) here ∙ ap (◌∷◌ (edge head)) (edges_of_all_lem few heads)

  heads-edges : (heads : List ℕ) → map (λ e. e.head) (map edge heads) ≡ heads
  heads-edges [] = refl
  heads-edges (head ∷ heads) = ap (◌∷◌ head) (heads-edges heads)

  in_range :
      0 < share
      → (from n : ℕ) → from + n ≤ r.dst_tp * share
      → All (λ e. e.dst_rank < r.dst_tp) (map edge (range_from from n))
  in_range s from zero h = tt
  in_range s from (suc n) h =
      ((div-lt_iff_lt-mul s).1 (omega arith), in_range s (suc from) n (omega arith))

  back :
      0 < share
      → (from n : ℕ) → All (λ e. e.dst_rank < r.dst_tp) (map edge (range_from from (suc n)))
      → from + n < r.dst_tp * share
  back s from zero (h, _) = omega (arith, (div-lt_iff_lt-mul s).0 h)
  back s from (suc n) (_, h) = omega (arith, back s (suc from) n h)

-- With no more decode ranks than heads, a plan has exactly one edge for each head, in their order; and
-- its decode ranks are all ranks of the worker exactly if their number divides that of the heads.
pub plan-ranks :
    (r : Reshard) (p : ReshardPlan)
    → plan r ≡ inr p
    → r.dst_tp ≤ r.num_kv_heads
    → (map (λ e. e.head) p.edges ≡ range r.num_kv_heads)
      × (All (λ e. e.dst_rank < r.dst_tp) p.edges ↔ (r.num_kv_heads % r.dst_tp ≡ 0))
plan-ranks r p e under =
    let a = plan-Accepted r p e in
    let edges : p.edges ≡ map (edge r) (range r.num_kv_heads) =
      ap (λ (q : ReshardPlan). q.edges) a.planned
      ∙ edges_of_all_lem r (ground arith) (range r.num_kv_heads) in
    let s : 0 < share r = (le-div_iff_mul-le a.targets).1 (omega arith) in
    let split : r.num_kv_heads ≡ r.dst_tp * share r + r.num_kv_heads % r.dst_tp =
      omega (arith, div-add-mod r.num_kv_heads r.dst_tp) in
    (
      ap (map (λ e. e.head)) edges ∙ heads-edges r (range r.num_kv_heads),
      (
        (λ fits.
            let last : r.num_kv_heads ≡ suc (r.num_kv_heads - 1) = omega (arith, a.heads) in
            let all =
              subst (All (λ e. e.dst_rank < r.dst_tp))
                (edges ∙ ap (λ n. map (edge r) (range n)) last) fits in
            omega (arith, split, back r s 0 (r.num_kv_heads - 1) all)),
        (λ even.
            subst (All (λ e. e.dst_rank < r.dst_tp)) (sym edges)
              (in_range r s 0 r.num_kv_heads (omega arith))),
      ),
    )
