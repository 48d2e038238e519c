-- ===== src/Transfer/Reshard.antt =====
-- crates/transfer/src/reshard.rs: which rank of a decode worker gets which head of a prefill worker.
pub mod Accepts
pub mod Heads
pub mod Replicas
use trt_llm_rs.Prelude.{
  ℕ, zero, suc, ◌+◌, ◌/◌, ◌%◌, max, List, [], ◌∷◌, ◌++◌, map, Bool, true, false, not, ◌&&◌, ◌||◌,
  ltb, leb, ◌==◌, if◌then◌else◌, ◌⊎◌, inl, inr, range, length,
}
use trt_llm_rs.Prelude.Words.{wrapping_add32, wrapping_mul32}
use trt_llm_rs.Prelude.Float.{Floats}

pub record Reshard : Type 0 where
  pub num_kv_heads : ℕ
  pub src_tp : ℕ
  pub dst_tp : ℕ

pub record ReshardEdge : Type 0 where
  pub head : ℕ
  pub src_rank : ℕ
  pub dst_rank : ℕ

pub record ReshardPlan : Type 0 where
  pub reshard : Reshard
  pub edges : List ReshardEdge

-- The texts of `Error::Transfer`.
pub data ReshardError : Type 0 where
  zero_degrees src_uneven dst_uneven : ReshardError

-- `Reshard::identity`.
abbrev pub identity : ℕ → ℕ → Reshard
identity num_kv_heads tp = record { num_kv_heads = num_kv_heads; src_tp = tp; dst_tp = tp }

unfoldable pub is_identity : Reshard → Bool
is_identity r = r.src_tp == r.dst_tp

unfoldable pub heads_per_rank : ℕ → Reshard → ℕ
heads_per_rank tp r = if tp == 0 then 0 else r.num_kv_heads / tp

unfoldable pub dst_replication : Reshard → ℕ
dst_replication r = max (if r.num_kv_heads == 0 then 1 else r.dst_tp / r.num_kv_heads) 1

unfoldable pub src_rank_of : Reshard → ℕ → ℕ
src_rank_of r head =
    if leb r.src_tp r.num_kv_heads
    then head / (r.num_kv_heads / r.src_tp)
    else wrapping_mul32 head (r.src_tp / r.num_kv_heads)

-- The edges of one head.
unfoldable pub edges_of : Reshard → ℕ → List ReshardEdge
edges_of r head =
    if leb r.dst_tp r.num_kv_heads
    then record {
      head = head;
      src_rank = src_rank_of r head;
      dst_rank = head / (r.num_kv_heads / r.dst_tp);
    }
      ∷ []
    else map
        (λ i. record {
          head = head;
          src_rank = src_rank_of r head;
          dst_rank = wrapping_add32 (wrapping_mul32 head (r.dst_tp / r.num_kv_heads)) i;
        })
        (range (r.dst_tp / r.num_kv_heads))

unfoldable pub edges_of_all : Reshard → List ℕ → List ReshardEdge
edges_of_all r [] = []
edges_of_all r (head ∷ heads) = edges_of r head ++ edges_of_all r heads

unfoldable pub plan : Reshard → ReshardError ⊎ ReshardPlan
plan r =
    if r.num_kv_heads == 0 || r.src_tp == 0 || r.dst_tp == 0
    then inl zero_degrees
    else if ltb r.num_kv_heads r.src_tp && not (r.src_tp % r.num_kv_heads == 0)
    then inl src_uneven
    else if ltb r.num_kv_heads r.dst_tp && not (r.dst_tp % r.num_kv_heads == 0)
    then inl dst_uneven
    else inr (record { reshard = r; edges = edges_of_all r (range r.num_kv_heads) })

unfoldable pub amplification : {F : Type 0} → Floats F → ReshardPlan → F
amplification fl p = fl.div (fl.of_ℕ (length p.edges)) (fl.of_ℕ (max p.reshard.num_kv_heads 1))
