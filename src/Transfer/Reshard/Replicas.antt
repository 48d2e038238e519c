-- ===== src/Transfer/Reshard/Replicas.antt =====
-- The plans of crates/transfer/src/reshard.rs that replicate heads.
use trt_llm_rs.Prelude.{
  ℕ, zero, suc, ◌+◌, ◌*◌, ◌/◌, ◌%◌, ◌≤◌, ◌<◌, ◌≡◌, refl, ap, ◌∙◌, sym, subst, List, ◌∷◌, ◌++◌, map,
  false, leb, arith, inr, range, range_from, All, All-append, All-weaken,
}
use mathlib.Core.List.{map-append}
use native.Mathlib.Nat.{mul-add-div_right, div-eq_of_lt, div-add-mod', mul_comm}
use trt_llm_rs.Prelude.Words.{u32_mod, wrapping_add32, wrapping_mul32}
use trt_llm_rs.Transfer.Reshard.Accepts.{plan-Accepted}
use trt_llm_rs.Transfer.Reshard.{
  Reshard, ReshardEdge, ReshardPlan, src_rank_of, edges_of, edges_of_all, plan,
}

range_from-append : (a m n : ℕ) → range_from a m ++ range_from (a + m) n ≡ range_from a (m + n)
range_from-append a zero n =
    ap (λ k. range_from k n) {x = a + zero} {y = a} (omega arith)
    ∙ ap (range_from a) {x = n} {y = zero + n} (omega arith)
range_from-append a (suc m) n =
    ap (λ k. a ∷ (range_from (suc a) m ++ range_from k n)) {x = a + suc m} {y = suc a + m}
      (omega arith)
    ∙ ap (◌∷◌ a) (range_from-append (suc a) m n)
    ∙ ap (range_from a) {x = suc (m + n)} {y = suc m + n} (omega arith)

place : (k i : ℕ) → k + i < u32_mod → wrapping_add32 (k % u32_mod) i ≡ k + i
place k i h = omega arith

suc-times : (a k : ℕ) → suc a * k ≡ a * k + k
suc-times a k = grind arith

plus-times : (a b k : ℕ) → (a + b) * k ≡ a * k + b * k
plus-times a b k = grind arith

module _ (r : Reshard) where
  abbrev rep : ℕ
  rep = r.dst_tp / r.num_kv_heads

  abbrev replica : ℕ → ℕ → ReshardEdge
  replica head i = record {
    head = head;
    src_rank = src_rank_of r head;
    dst_rank = wrapping_add32 (wrapping_mul32 head rep) i;
  }

  abbrev ranks : List ReshardEdge → List ℕ
  ranks edges = map (λ e. e.dst_rank) edges

  ranks-replicas :
      (head i n : ℕ)
      → head * rep + (i + n) ≤ u32_mod
      → ranks (map (replica head) (range_from i n)) ≡ range_from (head * rep + i) n
  ranks-replicas head i zero h = refl
  ranks-replicas head i (suc n) h =
      ap (λ k. k ∷ ranks (map (replica head) (range_from (suc i) n)))
        (place (head * rep) i (omega arith))
      ∙ ap (◌∷◌ (head * rep + i)) (ranks-replicas head (suc i) n (omega arith))
      ∙ ap (λ k. (head * rep + i) ∷ range_from k n) {x = head * rep + suc i}
          {y = suc (head * rep + i)} (omega arith)

  ranks-edges_of_all :
      leb r.dst_tp r.num_kv_heads ≡ false
      → (head n : ℕ) → (head + n) * rep ≤ u32_mod
      → ranks (edges_of_all r (range_from head n)) ≡ range_from (head * rep) (n * rep)
  unfolding edges_of_all edges_of
  ranks-edges_of_all over head zero h =
      ap (range_from (head * rep)) {x = 0} {y = zero * rep} (grind arith)
  ranks-edges_of_all over head (suc n) h =
      let here : edges_of r head ≡ map (replica head) (range rep) = rw (over, edges_of) refl in
      map-append (λ e. e.dst_rank) (edges_of r head) _
      ∙ ap (λ es. ranks es ++ ranks (edges_of_all r (range_from (suc head) n))) here
      ∙ ap (λ ks. ks ++ ranks (edges_of_all r (range_from (suc head) n)))
          (ranks-replicas head 0 rep
            (omega (arith, h, plus-times head (suc n) rep, suc-times n rep)))
      ∙ ap (λ ks. range_from (head * rep + 0) rep ++ ks)
          (ranks-edges_of_all over (suc head) n (
            omega (
              arith,
              h,
              plus-times head (suc n) rep,
              plus-times (suc head) n rep,
              suc-times n rep,
              suc-times head rep,
            )))
      ∙ ap (λ k. range_from (head * rep + 0) rep ++ range_from k (n * rep)) {x = suc head * rep}
          {y = head * rep + 0 + rep} (omega (arith, suc-times head rep))
      ∙ range_from-append (head * rep + 0) rep (n * rep)
      ∙ ap (λ k. range_from k (rep + n * rep)) {x = head * rep + 0} {y = head * rep} (omega arith)
      ∙ ap (range_from (head * rep)) {x = rep + n * rep} {y = suc n * rep}
          (omega (arith, suc-times n rep))

  -- The head that a rank of a worker with more ranks than heads gets.
  record IsPlaced (e : ReshardEdge) : Type 0 where
    owned : e.head ≡ e.dst_rank / rep
    sent : e.src_rank ≡ src_rank_of r e.head

  replicas-IsPlaced :
      (head i n : ℕ)
      → i + n ≤ rep
      → head * rep + (i + n) ≤ u32_mod
      → All IsPlaced (map (replica head) (range_from i n))
  replicas-IsPlaced head i zero l h = tt
  replicas-IsPlaced head i (suc n) l h =
      let small : i < rep = omega arith in
      let owner : (head * rep + i) / rep ≡ head =
        mul-add-div_right (omega arith) head i
        ∙ ap (λ k. head + k) (div-eq_of_lt small)
        ∙ omega arith in
      (
        record {
          owned = sym (ap (λ k. k / rep) (place (head * rep) i (omega arith)) ∙ owner);
          sent = refl;
        },
        replicas-IsPlaced head (suc i) n (omega arith) (omega arith),
      )

  edges_of_all-IsPlaced :
      leb r.dst_tp r.num_kv_heads ≡ false
      → (head n : ℕ) → (head + n) * rep ≤ u32_mod
      → All IsPlaced (edges_of_all r (range_from head n))
  unfolding edges_of_all edges_of
  edges_of_all-IsPlaced over head zero h = tt
  edges_of_all-IsPlaced over head (suc n) h =
      let here : edges_of r head ≡ map (replica head) (range rep) = rw (over, edges_of) refl in
      All-append IsPlaced (edges_of r head) _
        (subst (All IsPlaced) (sym here) (
          replicas-IsPlaced head 0 rep (omega arith)
            (omega (arith, h, plus-times head (suc n) rep, suc-times n rep))))
        (edges_of_all-IsPlaced over (suc head) n (
          omega (
            arith,
            h,
            plus-times head (suc n) rep,
            plus-times (suc head) n rep,
            suc-times n rep,
            suc-times head rep,
          )))

-- With more decode ranks than heads, a multiple of them, and fewer than 2^32, a plan has exactly one edge for each decode
-- rank, in their order: rank d gets head d / (ranks per head),
-- from the prefill rank that the layout gives for this head.
pub plan-replicates :
    (r : Reshard) (p : ReshardPlan)
    → plan r ≡ inr p
    → r.num_kv_heads < r.dst_tp
    → r.dst_tp < u32_mod
    → (map (λ e. e.dst_rank) p.edges ≡ range r.dst_tp)
      × All
          (λ e.
            (e.head ≡ e.dst_rank / (r.dst_tp / r.num_kv_heads))
            × (e.src_rank ≡ src_rank_of r e.head))
          p.edges
plan-replicates r p e over small =
    let a = plan-Accepted r p e in
    let few : leb r.dst_tp r.num_kv_heads ≡ false = ground arith in
    let even : r.dst_tp % r.num_kv_heads ≡ 0 = ground (arith, a.dst_even) in
    let all_ranks : r.num_kv_heads * (r.dst_tp / r.num_kv_heads) ≡ r.dst_tp = omega (
      arith,
      even,
      mul_comm r.num_kv_heads (r.dst_tp / r.num_kv_heads),
      div-add-mod' r.dst_tp r.num_kv_heads,
    ) in
    let bound : (0 + r.num_kv_heads) * (r.dst_tp / r.num_kv_heads) ≤ u32_mod =
      subst (λ h. h * (r.dst_tp / r.num_kv_heads) ≤ u32_mod) {x = r.num_kv_heads}
        {y = 0 + r.num_kv_heads} (omega arith) (omega arith) in
    subst
      (λ (q : ReshardPlan).
        (map (λ e. e.dst_rank) q.edges ≡ range r.dst_tp)
        × All
            (λ e.
              (e.head ≡ e.dst_rank / (r.dst_tp / r.num_kv_heads))
              × (e.src_rank ≡ src_rank_of r e.head))
            q.edges)
      (sym a.planned)
      (
        ranks-edges_of_all r few 0 r.num_kv_heads bound
            ∙ ap (λ k. range_from k (r.num_kv_heads * (r.dst_tp / r.num_kv_heads)))
                {x = 0 * (r.dst_tp / r.num_kv_heads)} {y = 0} (grind arith)
            ∙ ap range all_ranks,
        All-weaken (IsPlaced r) _ _ (λ e v. (v.owned, v.sent))
            (edges_of_all-IsPlaced r few 0 r.num_kv_heads bound),
      )
