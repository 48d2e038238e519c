-- ===== src/Core/Outcome.antt =====
-- crates/core/src/slo.rs and the outcome of a request in crates/core/src/request.rs.
use trt_llm_rs.Prelude.{ℕ, ◌-◌, ◌≡◌, Bool, true, false, not, ◌&&◌, ltb, leb, if◌then◌else◌, arith}
use trt_llm_rs.Prelude.Float.{Floats}

pub record Slo (F : Type 0) : Type 0 where
  pub ttft_ms : F
  pub itl_ms : F
  pub good_frac_target : F

pub data Verdict : Type 0 where
  good late_first_token slow_tokens late_and_slow incomplete : Verdict

pub record RequestOutcome (F : Type 0) : Type 0 where
  pub id : ℕ
  pub arrival_ms : F
  pub first_token_ms : F
  pub last_token_ms : F
  pub prompt_tokens : ℕ
  pub output_tokens : ℕ
  pub requested_tokens : ℕ

unfoldable pub is_good : Verdict → Bool
is_good good = true
is_good _ = false

-- `match (late, slow)`.
unfoldable pub judge : Bool → Bool → Verdict
judge false false = good
judge true false = late_first_token
judge false true = slow_tokens
judge true true = late_and_slow

module _ {F : Type 0} (fl : Floats F) where
  -- `Slo::default`.
  unfoldable pub default_slo : Slo F
  default_slo = record {
    ttft_ms = fl.literal 3000 1;
    itl_ms = fl.literal 20 1;
    good_frac_target = fl.literal 90 100;
  }

  unfoldable pub decode_slot_seconds : ℕ → Slo F → F
  decode_slot_seconds osl slo = fl.div (fl.mul (fl.of_ℕ osl) slo.itl_ms) (fl.literal 1000 1)

  unfoldable pub decode_req_per_s : F → ℕ → Slo F → F
  decode_req_per_s concurrency osl slo = fl.div concurrency (decode_slot_seconds osl slo)

  abbrev pub ttft_ms : RequestOutcome F → F
  ttft_ms o = fl.sub o.first_token_ms o.arrival_ms

  unfoldable pub mean_itl_ms : RequestOutcome F → F
  mean_itl_ms o =
      if leb o.output_tokens 1
      then fl.literal 0 1
      else fl.div (fl.sub o.last_token_ms o.first_token_ms) (fl.of_ℕ (o.output_tokens - 1))

  unfoldable pub verdict : Slo F → RequestOutcome F → Verdict
  verdict slo o =
      if ltb o.output_tokens o.requested_tokens
      then incomplete
      else judge (fl.lt slo.ttft_ms (ttft_ms o)) (fl.lt slo.itl_ms (mean_itl_ms o))

  -- A request is good exactly if it has all the tokens it asked for, its first token is not over its
  -- budget and its mean latency between tokens is not over its own.
  pub verdict-is_good :
      (slo : Slo F) (o : RequestOutcome F)
      → is_good (verdict slo o) ≡ (
          leb o.requested_tokens o.output_tokens
          && not (fl.lt slo.ttft_ms (ttft_ms o))
          && not (fl.lt slo.itl_ms (mean_itl_ms o)))
  unfolding verdict is_good judge
  verdict-is_good slo o = ground arith
