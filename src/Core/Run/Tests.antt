-- ===== src/Core/Run/Tests.antt =====
-- A run whose tokens are late and whose prefill binds in the model.
use trt_llm_rs.Prelude.{◌≡◌, ◌≢◌, ◌↔◌, none, some, true, false, ◌||◌}
use trt_llm_rs.Prelude.Int.{ℤ, pos}
use trt_llm_rs.Prelude.Whole.{whole}
use trt_llm_rs.Core.Outcome.{Slo}
use trt_llm_rs.Core.Capacity.{prefill_bound, decode_bound, kv_transfer}
use trt_llm_rs.Core.Run.{MeasuredRun, RunVerdict, implicates, assess}
use trt_llm_rs.Core.Run.Blame.{assess_blames}

abbrev slow_run : MeasuredRun ℤ
slow_run = record {
  goodput_req_s = pos 5;
  request_throughput_req_s = pos 9;
  output_token_throughput = pos 1800;
  ttft_avg_ms = pos 900;
  ttft_p90_ms = pos 1500;
  itl_avg_ms = pos 31;
  request_count = pos 400;
}

abbrev targets : Slo ℤ
targets = record { ttft_ms = pos 3000; itl_ms = pos 20; good_frac_target = pos 1 }

abbrev slow_verdict : RunVerdict ℤ
slow_verdict = assess whole slow_run (pos 7) targets prefill_bound (pos 0)

assess_blames_example :
    let blamed = implicates whole slow_verdict.diagnosis in
    let late_tokens = whole.lt targets.itl_ms slow_run.itl_avg_ms in
    let late_first = whole.lt targets.ttft_ms slow_run.ttft_p90_ms in
    let excused =
      whole.lt slow_run.request_count (whole.literal 1 1)
      || whole.le (whole.sub (whole.literal 1 1) (pos 0)) slow_verdict.ratio in
    ((blamed ≡ none) ↔ (excused ≡ true))
    × (blamed ≡ some prefill_bound → prefill_bound ≢ prefill_bound → late_first ≡ true)
    × (blamed ≡ some decode_bound → prefill_bound ≢ decode_bound → late_tokens ≡ true)
    × (blamed ≡ some kv_transfer → prefill_bound ≡ kv_transfer)
    × (excused ≡ false → late_first ≡ true → late_tokens ≡ false → blamed ≡ some prefill_bound)
    × (excused ≡ false → late_tokens ≡ true → late_first ≡ false → blamed ≡ some decode_bound)
assess_blames_example = assess_blames whole slow_run (pos 7) targets prefill_bound (pos 0)
