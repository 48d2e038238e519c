-- ===== src/Core/Calibration.antt =====
-- crates/core/src/capacity.rs: what was measured of one prefill and one decode worker, and the rates
-- that follow from it.
use trt_llm_rs.Prelude.{ℕ, ◌-◌, max, Option, none, some, leb, if◌then◌else◌}
use trt_llm_rs.Prelude.Float.{Floats, clamp}
use trt_llm_rs.Prelude.Words.{wrapping_mul32, inc32}
use trt_llm_rs.Core.Outcome.{Slo}

pub record PrefillCalibration (F : Type 0) : Type 0 where
  pub tok_s_per_gpu : F
  pub tp_ref : ℕ
  pub tp_allreduce_frac : F
  pub duty_cycle : F
  pub active_params_b : F
  pub peak_tflops_per_gpu : F

pub record MfuBreakdown (F : Type 0) : Type 0 where
  pub overall : F
  pub compute_time_frac : F
  pub compute_mfu : F
  pub duty_cycle_worth : F
  pub allreduce_worth : F

-- The names that `largest_lever` returns, the empty one first.
pub data Lever : Type 0 where
  unnamed duty_cycle_lever tp_all_reduce compute_mfu_lever : Lever

pub record Speculation (F : Type 0) : Type 0 where
  pub draft_tokens : ℕ
  pub itl_ratio : F

pub record DecodeCalibration (F : Type 0) : Type 0 where
  pub concurrency_per_gpu : F
  pub itl_ms_at_ref : F
  pub itl_slope_ms : F
  pub max_extrapolation : F
  pub speculation : Option (Speculation F)

unfoldable pub graph_batch_for : {F : Type 0} → ℕ → Speculation F → ℕ
graph_batch_for cap s = wrapping_mul32 cap (inc32 s.draft_tokens)

module _ {F : Type 0} (fl : Floats F) where
  abbrev pub num : ℕ → F
  num n = fl.literal n 1

  unfoldable pub ring_factor : ℕ → F
  ring_factor tp = if leb tp 1 then num 0 else fl.div (fl.of_ℕ (tp - 1)) (fl.of_ℕ tp)

  unfoldable pub default_prefill : PrefillCalibration F
  default_prefill = record {
    tok_s_per_gpu = num 7796;
    tp_ref = 4;
    tp_allreduce_frac = fl.literal 25 100;
    duty_cycle = fl.literal 91 100;
    active_params_b = num 22;
    peak_tflops_per_gpu = num 1979;
  }

  unfoldable pub achieved_tflops_per_gpu : PrefillCalibration F → F
  achieved_tflops_per_gpu c =
      fl.div
        (fl.mul (fl.mul (fl.mul c.tok_s_per_gpu (num 2)) c.active_params_b) (num 1_000_000_000))
        (num 1_000_000_000_000)

  unfoldable pub mfu : PrefillCalibration F → F
  unfolding achieved_tflops_per_gpu
  mfu c =
      if fl.le c.peak_tflops_per_gpu (num 0)
      then num 0
      else fl.div (achieved_tflops_per_gpu c) c.peak_tflops_per_gpu

  unfoldable pub mfu_breakdown : PrefillCalibration F → MfuBreakdown F
  unfolding mfu
  mfu_breakdown c =
      let compute_time_frac = fl.mul c.duty_cycle (fl.sub (num 1) c.tp_allreduce_frac) in
      let overall = mfu c in
      record {
        overall = overall;
        compute_time_frac = compute_time_frac;
        compute_mfu =
            if fl.lt (num 0) compute_time_frac then fl.div overall compute_time_frac else num 0;
        duty_cycle_worth =
            if fl.lt (num 0) c.duty_cycle then fl.div (num 1) c.duty_cycle else fl.infinity;
        allreduce_worth =
            fl.div (num 1)
              (fl.fmax (fl.sub (num 1) c.tp_allreduce_frac) (fl.literal 1 1_000_000_000));
      }

  unfoldable pub compute_mfu_worth : F → MfuBreakdown F → F
  compute_mfu_worth target b =
      if fl.le b.compute_mfu (num 0) then fl.infinity else fl.div target b.compute_mfu

  unfoldable pub larger_lever : Lever × F → Lever × F → Lever × F
  larger_lever best c = if fl.lt best.1 c.1 then c else best

  unfoldable pub largest_lever : F → MfuBreakdown F → Lever × F
  unfolding larger_lever compute_mfu_worth
  largest_lever compute_target b =
      larger_lever
        (larger_lever (larger_lever (unnamed, num 0) (duty_cycle_lever, b.duty_cycle_worth))
          (tp_all_reduce, b.allreduce_worth))
        (compute_mfu_lever, compute_mfu_worth compute_target b)

  unfoldable pub tok_s_per_gpu_at_tp : ℕ → PrefillCalibration F → F
  unfolding ring_factor
  tok_s_per_gpu_at_tp tp c =
      let ref_ratio = ring_factor c.tp_ref in
      let compute = fl.sub (num 1) c.tp_allreduce_frac in
      let unit = fl.div c.tp_allreduce_frac ref_ratio in
      let t = fl.add compute (fl.mul unit (ring_factor tp)) in
      if fl.le ref_ratio (num 0) then c.tok_s_per_gpu else fl.div c.tok_s_per_gpu t

  unfoldable pub prefill_req_per_s : ℕ → ℕ → ℕ → PrefillCalibration F → F
  unfolding tok_s_per_gpu_at_tp
  prefill_req_per_s gpus tp isl c =
      fl.div (fl.mul (fl.of_ℕ gpus) (tok_s_per_gpu_at_tp tp c)) (fl.of_ℕ isl)

  unfoldable pub eagle3_topk1 : Speculation F
  eagle3_topk1 = record {
    draft_tokens = 1;
    itl_ratio = fl.div (fl.literal 1108 100) (fl.literal 1918 100);
  }

  unfoldable pub default_decode : DecodeCalibration F
  default_decode = record {
    concurrency_per_gpu = fl.div (num 53) (num 8);
    itl_ms_at_ref = fl.literal 1723 100;
    itl_slope_ms = fl.literal 106 100;
    max_extrapolation = num 1;
    speculation = none;
  }

  -- `self.speculation.map_or(1.0, |s| s.itl_ratio)`.
  abbrev pub itl_ratio_of : DecodeCalibration F → F
  itl_ratio_of c = elim (c.speculation) [ none ↦ num 1 | some s ↦ s.itl_ratio ]

  unfoldable pub itl_ms_baseline : F → ℕ → DecodeCalibration F → F
  itl_ms_baseline concurrency gpus c =
      let per_gpu = fl.div concurrency (fl.of_ℕ (max gpus 1)) in
      fl.add c.itl_ms_at_ref (fl.mul c.itl_slope_ms (fl.sub per_gpu c.concurrency_per_gpu))

  unfoldable pub itl_ms : F → ℕ → DecodeCalibration F → F
  unfolding itl_ms_baseline
  itl_ms concurrency gpus c = fl.mul (itl_ms_baseline concurrency gpus c) (itl_ratio_of c)

  -- `none` is the panic of `clamp` on a ceiling that is not at least 1.
  unfoldable pub max_concurrency_for_slo : ℕ → Slo F → F → DecodeCalibration F → Option F
  max_concurrency_for_slo gpus slo safety c =
      let ceiling = fl.mul c.concurrency_per_gpu (fl.fmax c.max_extrapolation (num 1)) in
      let budget = fl.div (fl.mul slo.itl_ms safety) (itl_ratio_of c) in
      let per_gpu =
        fl.add c.concurrency_per_gpu (fl.div (fl.sub budget c.itl_ms_at_ref) c.itl_slope_ms) in
      if fl.le c.itl_slope_ms (num 0)
      then some (fl.mul c.concurrency_per_gpu (fl.of_ℕ gpus))
      else if fl.le (num 1) ceiling
      then some (fl.mul (clamp fl per_gpu (num 1) ceiling) (fl.of_ℕ gpus))
      else none

  unfoldable pub decode_rate : ℕ → ℕ → Slo F → F → DecodeCalibration F → Option F
  unfolding max_concurrency_for_slo itl_ms
  decode_rate gpus osl slo safety c = elim (max_concurrency_for_slo gpus slo safety c) [
    | none ↦ none
    | some concurrency ↦
        let itl = fl.fmin (itl_ms concurrency gpus c) slo.itl_ms in
        some (fl.div concurrency (fl.div (fl.mul (fl.of_ℕ osl) itl) (num 1000)))
  ]
