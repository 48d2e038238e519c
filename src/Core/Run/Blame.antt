-- ===== src/Core/Run/Blame.antt =====
-- core/src/verdict.rs: which side a run implicates, in terms of the gates that it missed.
use trt_llm_rs.Prelude.{◌≡◌, ◌≢◌, ◌↔◌, none, some, true, false, ◌||◌, arith}
use trt_llm_rs.Prelude.Float.{Floats}
use trt_llm_rs.Core.Outcome.{Slo}
use trt_llm_rs.Core.Capacity.{Bottleneck, prefill_bound, decode_bound, kv_transfer}
use trt_llm_rs.Core.Run.{MeasuredRun, implicates, assess}

-- A run implicates nothing exactly if it served less than one request or came within the tolerance
-- of its prediction. One that implicates a side other than the one that binds in the model missed
-- the gate of that side: prefill only if the first tokens were late, decode only if the others were,
-- and never the transfer. If it missed just one gate, it implicates the side of that gate.
pub assess_blames :
    {F : Type 0} (fl : Floats F) (r : MeasuredRun F) (predicted : F) (slo : Slo F)
    (binding : Bottleneck) (tolerance : F)
    → let v = assess fl r predicted slo binding tolerance in
      let blamed = implicates fl v.diagnosis in
      let late_tokens = fl.lt slo.itl_ms r.itl_avg_ms in
      let late_first = fl.lt slo.ttft_ms r.ttft_p90_ms in
      let excused =
        fl.lt r.request_count (fl.literal 1 1)
        || fl.le (fl.sub (fl.literal 1 1) tolerance) v.ratio in
      ((blamed ≡ none) ↔ (excused ≡ true))
      × (blamed ≡ some prefill_bound → binding ≢ prefill_bound → late_first ≡ true)
      × (blamed ≡ some decode_bound → binding ≢ decode_bound → late_tokens ≡ true)
      × (blamed ≡ some kv_transfer → binding ≡ kv_transfer)
      × (excused ≡ false → late_first ≡ true → late_tokens ≡ false → blamed ≡ some prefill_bound)
      × (excused ≡ false → late_tokens ≡ true → late_first ≡ false → blamed ≡ some decode_bound)
unfolding assess implicates
assess_blames fl r predicted slo binding tolerance =
    (ground arith, ground arith, ground arith, ground arith, ground arith, ground arith)
