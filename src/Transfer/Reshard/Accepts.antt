-- ===== src/Transfer/Reshard/Accepts.antt =====
-- The layouts that `Reshard::plan` of crates/transfer/src/reshard.rs accepts.
use trt_llm_rs.Prelude.{
  ◌<◌, ◌%◌, ◌≡◌, ap, sym, false, not, ◌&&◌, ◌||◌, ltb, ◌==◌, arith, ◌⊎◌, inl, inr, range,
  Bool-cases,
}
use trt_llm_rs.Transfer.Reshard.{Reshard, ReshardPlan, ReshardError, edges_of_all, plan}

-- A layout that can be planned, and the plan of it.
pub record Accepted (r : Reshard) (p : ReshardPlan) : Type 0 where
  pub heads : 0 < r.num_kv_heads
  pub sources : 0 < r.src_tp
  pub targets : 0 < r.dst_tp
  pub src_even : (ltb r.num_kv_heads r.src_tp && not (r.src_tp % r.num_kv_heads == 0)) ≡ false
  pub dst_even : (ltb r.num_kv_heads r.dst_tp && not (r.dst_tp % r.num_kv_heads == 0)) ≡ false
  pub planned : p ≡ record { reshard = r; edges = edges_of_all r (range r.num_kv_heads) }

right_injective : (x y : ReshardPlan) → ◌≡◌ {A = ReshardError ⊎ ReshardPlan} (inr x) (inr y) → x ≡ y
right_injective x y e = ap (λ (s : ReshardError ⊎ ReshardPlan). elim s [ inl _ ↦ x | inr z ↦ z ]) e

pub plan-Accepted : (r : Reshard) (p : ReshardPlan) → plan r ≡ inr p → Accepted r p
unfolding plan
plan-Accepted r p e = elim (Bool-cases (r.num_kv_heads == 0 || r.src_tp == 0 || r.dst_tp == 0)) [
  | inl z ↦ absurd (ground (arith, z))
  | inr z ↦
      elim (Bool-cases (ltb r.num_kv_heads r.src_tp && not (r.src_tp % r.num_kv_heads == 0))) [
        | inl s ↦ absurd (ground (arith, s, z))
        | inr s ↦
            elim (Bool-cases
              (ltb r.num_kv_heads r.dst_tp && not (r.dst_tp % r.num_kv_heads == 0))) [
                | inl d ↦ absurd (ground (arith, s, z, d))
                | inr d ↦ record {
                  heads = ground (arith, z);
                  sources = ground (arith, z);
                  targets = ground (arith, z);
                  src_even = s;
                  dst_even = d;
                  planned = sym (right_injective _ p (ground (arith, e, z, s, d)));
                }
              ]
      ]
]
