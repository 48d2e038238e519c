-- ===== src/Core/Run.antt =====
-- crates/core/src/verdict.rs: a measured run against its prediction, and the side that it implicates.
pub mod Blame
mod Tests
use trt_llm_rs.Prelude.{Option, none, some, List, [], ◌∷◌, ℕ, Bool, ◌&&◌, if◌then◌else◌}
use trt_llm_rs.Prelude.Float.{Floats}
use trt_llm_rs.Core.Outcome.{Slo}
use trt_llm_rs.Core.Capacity.{Bottleneck, prefill_bound, decode_bound, ◌>>=◌}

pub record MeasuredRun (F : Type 0) : Type 0 where
  pub goodput_req_s : F
  pub request_throughput_req_s : F
  pub output_token_throughput : F
  pub ttft_avg_ms : F
  pub ttft_p90_ms : F
  pub itl_avg_ms : F
  pub request_count : F

-- The fields stand in the order of the source.
pub data Diagnosis (F : Type 0) : Type 0 where
  met : Diagnosis F
  itl_gate : F → F → Diagnosis F
  both_gates : F → F → F → F → Diagnosis F
  ttft_gate : F → F → Diagnosis F
  throughput_shortfall : F → F → Bottleneck → Diagnosis F
  nothing_served : Diagnosis F

pub record RunVerdict (F : Type 0) : Type 0 where
  pub predicted_goodput_req_s : F
  pub measured : MeasuredRun F
  pub ratio : F
  pub diagnosis : Diagnosis F

-- The statistics of AIPerf's export that are read.
pub data Metric : Type 0 where
  goodput request_throughput output_tokens ttft_avg ttft_p90 itl_avg requests : Metric

module _ {F : Type 0} (fl : Floats F) where
  unfoldable pub implicates : Diagnosis F → Option Bottleneck
  implicates met = none
  implicates nothing_served = none
  implicates (itl_gate measured_ms budget_ms) = some decode_bound
  implicates (both_gates itl_ms itl_budget_ms ttft_p90_ms ttft_budget_ms) = some (
      if fl.lt (fl.div itl_ms itl_budget_ms) (fl.div ttft_p90_ms ttft_budget_ms)
      then prefill_bound
      else decode_bound)
  implicates (ttft_gate measured_ms budget_ms) = some prefill_bound
  implicates (throughput_shortfall measured_req_s predicted_req_s binding) = some binding

  unfoldable pub diagnose : MeasuredRun F → F → F → Slo F → Bottleneck → F → Diagnosis F
  diagnose measured predicted ratio slo binding tolerance =
      let late_tokens = fl.lt slo.itl_ms measured.itl_avg_ms in
      let late_first = fl.lt slo.ttft_ms measured.ttft_p90_ms in
      if fl.lt measured.request_count (fl.literal 1 1)
      then nothing_served
      else if fl.le (fl.sub (fl.literal 1 1) tolerance) ratio
      then met
      else if late_tokens && late_first
      then both_gates measured.itl_avg_ms slo.itl_ms measured.ttft_p90_ms slo.ttft_ms
      else if late_tokens
      then itl_gate measured.itl_avg_ms slo.itl_ms
      else if late_first
      then ttft_gate measured.ttft_p90_ms slo.ttft_ms
      else throughput_shortfall measured.request_throughput_req_s predicted binding

  unfoldable pub ratio_of : MeasuredRun F → F → F
  ratio_of measured predicted =
      if fl.lt (fl.literal 0 1) predicted then fl.div measured.goodput_req_s predicted else fl.nan

  unfoldable pub assess : MeasuredRun F → F → Slo F → Bottleneck → F → RunVerdict F
  unfolding diagnose ratio_of
  assess measured predicted slo binding tolerance =
      let ratio = ratio_of measured predicted in
      record {
        predicted_goodput_req_s = predicted;
        measured = measured;
        ratio = ratio;
        diagnosis = diagnose measured predicted ratio slo binding tolerance;
      }

-- `from_aiperf_json`, where `field` looks a statistic up in the document; the error is `none`.
unfoldable pub from_aiperf_json : {F : Type 0} → (Metric → Option F) → Option (MeasuredRun F)
from_aiperf_json field = do
  goodput_req_s ← field goodput
  request_throughput_req_s ← field request_throughput
  output_token_throughput ← field output_tokens
  ttft_avg_ms ← field ttft_avg
  ttft_p90_ms ← field ttft_p90
  itl_avg_ms ← field itl_avg
  request_count ← field requests
  some (record {
    goodput_req_s = goodput_req_s;
    request_throughput_req_s = request_throughput_req_s;
    output_token_throughput = output_token_throughput;
    ttft_avg_ms = ttft_avg_ms;
    ttft_p90_ms = ttft_p90_ms;
    itl_avg_ms = itl_avg_ms;
    request_count = request_count;
  })
