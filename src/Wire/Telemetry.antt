-- ===== src/Wire/Telemetry.antt =====
-- crates/wire/src/telemetry.rs: what is observed of one request.
use trt_llm_rs.Prelude.{ℕ, ◌+◌, ◌%◌, Option, none, some}
use trt_llm_rs.Prelude.Words.{u32_mod}
use trt_llm_rs.Core.Outcome.{RequestOutcome}
use trt_llm_rs.Core.Request.{Request, prompt_len}

pub record RequestTelemetry (F : Type 0) : Type 0 where
  pub request : Request F
  pub first_token_ms : Option F
  pub last_token_ms : Option F
  pub output_tokens : ℕ

abbrev pub unwrap_or : {F : Type 0} → F → Option F → F
unwrap_or x none = x
unwrap_or x (some y) = y

module _ {F : Type 0} where
  unfoldable pub new : Request F → RequestTelemetry F
  new request = record {
    request = request;
    first_token_ms = none;
    last_token_ms = none;
    output_tokens = 0;
  }

  unfoldable pub observe_token : F → RequestTelemetry F → RequestTelemetry F
  observe_token at_ms t = record t {
    first_token_ms = some (unwrap_or at_ms t.first_token_ms);
    last_token_ms = some at_ms;
    output_tokens = (t.output_tokens + 1) % u32_mod;
  }

  unfoldable pub finish : F → RequestTelemetry F → RequestOutcome F
  finish at_ms t = record {
    id = t.request.id;
    arrival_ms = t.request.arrival_ms;
    first_token_ms = unwrap_or at_ms t.first_token_ms;
    last_token_ms = unwrap_or at_ms t.last_token_ms;
    prompt_tokens = prompt_len t.request % u32_mod;
    output_tokens = t.output_tokens;
    requested_tokens = t.request.params.max_tokens;
  }
