-- ===== src/Core/Capacity/Gap.antt =====
-- crates/core/src/capacity.rs: what a goodput target requires of each side of a split, and the ceiling
-- of prefill and decode on shared cards.
use trt_llm_rs.Prelude.{ℕ, Bool, ◌||◌, if◌then◌else◌}
use trt_llm_rs.Prelude.Float.{Floats}
use trt_llm_rs.Core.Calibration.{MfuBreakdown, num, mfu_breakdown, compute_mfu_worth}
use trt_llm_rs.Core.Capacity.{PdSplit, CapacityModel}

pub record TargetGap (F : Type 0) : Type 0 where
  pub target_goodput : F
  pub required_req_s : F
  pub prefill_req_s : F
  pub decode_req_s : F
  pub xfer_req_s : F
  pub prefill_factor : F
  pub decode_factor : F
  pub xfer_factor : F
  pub mfu_now : F
  pub mfu_required : F

module _ {F : Type 0} (fl : Floats F) where
  unfoldable pub within_the_envelope : MfuBreakdown F → TargetGap F → Bool
  unfolding compute_mfu_worth
  within_the_envelope b gap = fl.le gap.prefill_factor (
      fl.mul (fl.mul b.duty_cycle_worth b.allreduce_worth)
        (compute_mfu_worth fl (fl.literal 50 100) b))

  -- The closure `f` of `target_gap`.
  abbrev pub factor_of : F → F → F
  factor_of required have = if fl.lt (num fl 0) have then fl.div required have else fl.infinity

  unfoldable pub target_gap : PdSplit F → F → CapacityModel F → TargetGap F
  unfolding mfu_breakdown
  target_gap split target m =
      let required = fl.div target (fl.fmax m.good_frac (fl.literal 1 1_000_000_000)) in
      let b = mfu_breakdown fl m.prefill_cal in
      record {
        target_goodput = target;
        required_req_s = required;
        prefill_req_s = split.prefill_req_s;
        decode_req_s = split.decode_req_s;
        xfer_req_s = split.transfer_req_s;
        prefill_factor = factor_of required split.prefill_req_s;
        decode_factor = factor_of required split.decode_req_s;
        xfer_factor = factor_of required split.transfer_req_s;
        mfu_now = b.overall;
        mfu_required =
            fl.mul b.overall (fl.fmax (factor_of required split.prefill_req_s) (num fl 1));
      }

  unfoldable pub in_card_pd_req_s : ℕ → F → F → CapacityModel F → F
  in_card_pd_req_s gpus prefill_tok_s decode_tok_s m =
      let per_request_gpu_s =
        fl.add (fl.div (fl.of_ℕ m.isl) prefill_tok_s) (fl.div (fl.of_ℕ m.osl) decode_tok_s) in
      if fl.le prefill_tok_s (num fl 0) || fl.le decode_tok_s (num fl 0)
      then num fl 0
      else fl.div (fl.of_ℕ gpus) per_request_gpu_s

  unfoldable pub prefill_share : F → F → CapacityModel F → F
  prefill_share prefill_tok_s decode_tok_s m =
      let p = fl.div (fl.of_ℕ m.isl) (fl.fmax prefill_tok_s (fl.literal 1 1_000_000_000)) in
      let d = fl.div (fl.of_ℕ m.osl) (fl.fmax decode_tok_s (fl.literal 1 1_000_000_000)) in
      fl.div p (fl.add p d)
