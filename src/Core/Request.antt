-- ===== src/Core/Request.antt =====
-- crates/core/src/request.rs: a request, and its sampling parameters without the free-form `extra`.
use trt_llm_rs.Prelude.{ℕ, Option, none, List, Bool, true, length}
use trt_llm_rs.Prelude.Float.{Floats}
use trt_llm_rs.Prelude.Int.{ℤ, negsuc}
use trt_llm_rs.Core.Outcome.{Slo}

pub record SamplingParams (F : Type 0) : Type 0 where
  pub max_tokens : ℕ
  pub temperature : F
  pub top_p : F
  pub top_k : ℤ
  pub ignore_eos : Bool
  pub seed : Option ℕ

pub data Phase : Type 0 where
  prefill decode : Phase

pub record Request (F : Type 0) : Type 0 where
  pub id : ℕ
  pub prompt : List ℕ
  pub params : SamplingParams F
  pub arrival_ms : F
  pub ttft_deadline_ms : F
  pub prefill_worker : Option ℕ
  pub decode_worker : Option ℕ

module _ {F : Type 0} (fl : Floats F) where
  unfoldable pub default_params : SamplingParams F
  default_params = record {
    max_tokens = 200;
    temperature = fl.literal 0 1;
    top_p = fl.literal 1 1;
    top_k = negsuc 0;
    ignore_eos = true;
    seed = none;
  }

  unfoldable pub new : ℕ → List ℕ → SamplingParams F → F → Slo F → Request F
  new id prompt params arrival_ms slo = record {
    id = id;
    prompt = prompt;
    params = params;
    arrival_ms = arrival_ms;
    ttft_deadline_ms = fl.add arrival_ms slo.ttft_ms;
    prefill_worker = none;
    decode_worker = none;
  }

  unfoldable pub slack_ms : Request F → F → F
  slack_ms r now = fl.sub r.ttft_deadline_ms now

unfoldable pub prompt_len : {F : Type 0} → Request F → ℕ
prompt_len r = length r.prompt
