-- ===== src/Transfer/Tests.antt =====
-- Two layouts, and the theorems of Transfer at them.
use trt_llm_rs.Prelude.{◌/◌, ◌%◌, ◌<◌, ◌≡◌, refl, [], map, arith, ◌↔◌, range, All}
use trt_llm_rs.Transfer.Reshard.{Reshard, ReshardPlan, src_rank_of, edges_of_all, plan}
use trt_llm_rs.Transfer.Reshard.Replicas.{plan-replicates}
use trt_llm_rs.Transfer.Reshard.Heads.{plan-ranks}
use trt_llm_rs.Prelude.Int.{ℤ, pos}
use trt_llm_rs.Transfer.Local.{LocalTransfer, TransferRequest}

-- Four heads, two prefill ranks and eight decode ranks.
abbrev two_to_eight : Reshard
two_to_eight = record { num_kv_heads = 4; src_tp = 2; dst_tp = 8 }

-- Four heads over three decode ranks, which do not divide them.
abbrev four_to_three : Reshard
four_to_three = record { num_kv_heads = 4; src_tp = 2; dst_tp = 3 }

abbrev link : LocalTransfer ℤ
link = record { bytes_per_token = 96256; bandwidth_gib_s = pos 40; latency_ms = pos 1 }

abbrev request : TransferRequest
request = record {
  id = 1;
  src_blocks = [];
  dst_blocks = [];
  num_tokens = 4000;
  reshard = two_to_eight;
}

abbrev made : Reshard → ReshardPlan
made r = record { reshard = r; edges = edges_of_all r (range r.num_kv_heads) }

plan-replicates_example :
    (map (λ e. e.dst_rank) (made two_to_eight).edges ≡ range two_to_eight.dst_tp)
    × All
        (λ e.
          (e.head ≡ e.dst_rank / (two_to_eight.dst_tp / two_to_eight.num_kv_heads))
          × (e.src_rank ≡ src_rank_of two_to_eight e.head))
        (made two_to_eight).edges
unfolding plan
plan-replicates_example =
    plan-replicates two_to_eight (made two_to_eight) refl (omega arith) (omega arith)

plan-ranks_example :
    (map (λ e. e.head) (made four_to_three).edges ≡ range four_to_three.num_kv_heads)
    × (All (λ e. e.dst_rank < four_to_three.dst_tp) (made four_to_three).edges
        ↔ (four_to_three.num_kv_heads % four_to_three.dst_tp ≡ 0))
unfolding plan
plan-ranks_example = plan-ranks four_to_three (made four_to_three) refl (omega arith)
