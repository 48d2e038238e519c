-- ===== src/Transfer/Local.antt =====
-- crates/transfer/src/local.rs and the statistics of a transfer in crates/transfer/src/lib.rs.
use trt_llm_rs.Prelude.{
  ℕ, ◌*◌, ◌<◌, ◌≡◌, refl, ap, Bool, List, ltb, if◌then◌else◌, ◌⊎◌, inl, inr, arith,
}
use trt_llm_rs.Prelude.Words.{u64_mod, wrapping_mul64}
use trt_llm_rs.Prelude.Float.{Floats}
use trt_llm_rs.Kvcache.Pool.{BlockId}
use trt_llm_rs.Transfer.Reshard.{Reshard, ReshardPlan, ReshardError, plan, amplification}

pub record TransferRequest : Type 0 where
  pub id : ℕ
  pub src_blocks : List BlockId
  pub dst_blocks : List BlockId
  pub num_tokens : ℕ
  pub reshard : Reshard

pub record TransferStats (F : Type 0) : Type 0 where
  pub bytes : ℕ
  pub elapsed_ms : F

pub record LocalTransfer (F : Type 0) : Type 0 where
  pub bytes_per_token : ℕ
  pub bandwidth_gib_s : F
  pub latency_ms : F

unfoldable pub bytes_per_token_of : ℕ → ℕ → ℕ → ℕ → ℕ
bytes_per_token_of layers kv_heads head_dim dtype_bytes =
    wrapping_mul64 (wrapping_mul64 (wrapping_mul64 (wrapping_mul64 2 layers) kv_heads) head_dim)
      dtype_bytes

unfoldable pub moved_data : {F : Type 0} → TransferStats F → Bool
moved_data s = ltb 0 s.bytes

module _ {F : Type 0} (fl : Floats F) where
  unfoldable pub gib_per_s : TransferStats F → F
  gib_per_s s =
      let kib = fl.literal 1024 1 in
      if fl.le s.elapsed_ms (fl.literal 0 1)
      then fl.literal 0 1
      else fl.div (fl.div (fl.div (fl.div (fl.of_ℕ s.bytes) kib) kib) kib)
          (fl.div s.elapsed_ms (fl.literal 1000 1))

  -- `LocalTransfer::default`.
  unfoldable pub default_transfer : LocalTransfer F
  default_transfer = record {
    bytes_per_token = bytes_per_token_of 94 4 128 1;
    bandwidth_gib_s = fl.literal 40 1;
    latency_ms = fl.literal 5 10;
  }

  unfoldable pub stats_of : LocalTransfer F → TransferRequest → ReshardPlan → TransferStats F
  stats_of t req p =
      let kib = fl.literal 1024 1 in
      let bytes = wrapping_mul64 req.num_tokens t.bytes_per_token in
      let on_wire = fl.mul (fl.of_ℕ bytes) (amplification fl p) in
      let secs = fl.div on_wire (fl.mul (fl.mul (fl.mul t.bandwidth_gib_s kib) kib) kib) in
      record { bytes = bytes; elapsed_ms = fl.add t.latency_ms (fl.mul secs (fl.literal 1000 1)) }

  unfoldable pub transfer : LocalTransfer F → TransferRequest → ReshardError ⊎ TransferStats F
  transfer t req = elim (plan req.reshard) [ inl e ↦ inl e | inr p ↦ inr (stats_of t req p) ]

  -- A transfer of a layout that can be planned reports the bytes of its tokens, if these are fewer than
  -- 2^64, and that it moved data exactly if there are any.
  pub transfer-moved_data :
      (t : LocalTransfer F) (req : TransferRequest) (p : ReshardPlan)
      → plan req.reshard ≡ inr p
      → req.num_tokens * t.bytes_per_token < u64_mod
      → (s : TransferStats F) × (transfer t req ≡ inr s)
        × (s.bytes ≡ req.num_tokens * t.bytes_per_token)
        × (moved_data s ≡ ltb 0 (req.num_tokens * t.bytes_per_token))
  unfolding transfer stats_of moved_data
  transfer-moved_data t req p e small =
      let whole : wrapping_mul64 req.num_tokens t.bytes_per_token
          ≡ req.num_tokens * t.bytes_per_token =
        omega arith in
      (stats_of t req p, rw (e, transfer) refl, whole, ap (ltb 0) whole)
