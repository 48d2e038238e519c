-- ===== src/Core/Report.antt =====
-- crates/core/src/stats.rs: percentiles, and the report on a benchmark window. A counter of requests
-- is not bounded; the sum of tokens is a `u64`, which wraps.
pub mod Counts
pub mod Percentiles
use trt_llm_rs.Prelude.{
  ℕ, zero, suc, ◌+◌, ◌-◌, ◌%◌, min, max, Option, none, some, List, [], ◌∷◌, map, Bool, true, false,
  ltb, ◌==◌, if◌then◌else◌, length, get_elem?,
}
use trt_llm_rs.Prelude.Words.{u64_mod}
use trt_llm_rs.Prelude.Float.{Floats}
use trt_llm_rs.Prelude.Sort.{sort_by}
use trt_llm_rs.Sched.Policy.{◌>>=◌}
use trt_llm_rs.Core.Outcome.{
  Slo, RequestOutcome, Verdict, good, late_first_token, slow_tokens, late_and_slow, incomplete,
  ttft_ms, mean_itl_ms, verdict,
}

pub record LatencyStats (F : Type 0) : Type 0 where
  pub count : ℕ
  pub mean : F
  pub p50 : F
  pub p90 : F
  pub p95 : F
  pub p99 : F
  pub max : F

-- What the loop over the outcomes counts.
pub record Tally : Type 0 where
  pub good_requests : ℕ
  pub late : ℕ
  pub slow : ℕ
  pub both : ℕ
  pub unfinished : ℕ
  pub good_tokens : ℕ

-- The fields `late_first_token`, `slow_tokens`, `late_and_slow` and `incomplete` of the source are
-- those of `tally`.
pub record GoodputReport (F : Type 0) : Type 0 where
  pub window_s : F
  pub total_requests : ℕ
  pub tally : Tally
  pub good_frac : F
  pub req_per_s : F
  pub goodput_req_s : F
  pub good_output_tok_s : F
  pub ttft : LatencyStats F
  pub itl : LatencyStats F
  pub passed : Bool

abbrev pub no_tally : Tally
no_tally = record {
  good_requests = 0;
  late = 0;
  slow = 0;
  both = 0;
  unfinished = 0;
  good_tokens = 0;
}

-- The `match` on a verdict.
unfoldable pub count_verdict : Verdict → ℕ → Tally → Tally
count_verdict good tokens t = record t {
  good_requests = t.good_requests + 1;
  good_tokens = (t.good_tokens + tokens) % u64_mod;
}
count_verdict late_first_token tokens t = record t { late = t.late + 1 }
count_verdict slow_tokens tokens t = record t { slow = t.slow + 1 }
count_verdict late_and_slow tokens t = record t { both = t.both + 1 }
count_verdict incomplete tokens t = record t { unfinished = t.unfinished + 1 }

module _ {F : Type 0} (fl : Floats F) where
  unfoldable pub rank : F → ℕ → ℕ
  rank q n = fl.to_ℕ (fl.ceil (fl.mul q (fl.of_ℕ n)))

  -- `none` is a read past the end.
  unfoldable pub percentile : List F → F → Option F
  percentile sorted q =
      if length sorted == 0
      then some (fl.literal 0 1)
      else get_elem? sorted (min (max (rank q (length sorted)) 1) (length sorted) - 1)

  unfoldable pub sum : List F → F → F
  sum [] total = total
  sum (x ∷ xs) total = sum xs (fl.add total x)

  -- `LatencyStats::default`.
  abbrev pub no_stats : LatencyStats F
  no_stats = record {
    count = 0;
    mean = fl.literal 0 1;
    p50 = fl.literal 0 1;
    p90 = fl.literal 0 1;
    p95 = fl.literal 0 1;
    p99 = fl.literal 0 1;
    max = fl.literal 0 1;
  }

  unfoldable pub from_samples : List F → Option (LatencyStats F)
  from_samples samples = if length samples == 0 then some no_stats else do
    let v = sort_by fl.total_cmp samples
    p50 ← percentile v (fl.literal 50 100)
    p90 ← percentile v (fl.literal 90 100)
    p95 ← percentile v (fl.literal 95 100)
    p99 ← percentile v (fl.literal 99 100)
    last ← get_elem? v (length v - 1)
    some (record {
      count = length v;
      mean = fl.div (sum v (fl.literal 0 1)) (fl.of_ℕ (length v));
      p50 = p50;
      p90 = p90;
      p95 = p95;
      p99 = p99;
      max = last;
    })

  unfoldable pub tally_outcomes : Slo F → List (RequestOutcome F) → Tally → Tally
  tally_outcomes slo [] t = t
  tally_outcomes slo (o ∷ outcomes) t =
      tally_outcomes slo outcomes (count_verdict (verdict fl slo o) o.output_tokens t)

  unfoldable pub from_outcomes : List (RequestOutcome F) → F → Slo F → Option (GoodputReport F)
  from_outcomes outcomes window_s slo = do
    let t = tally_outcomes slo outcomes no_tally
    let n = length outcomes
    let zero_f : F = fl.literal 0 1
    let timed = fl.lt zero_f window_s
    let good_frac : F = if ltb 0 n then fl.div (fl.of_ℕ t.good_requests) (fl.of_ℕ n) else zero_f
    ttft ← from_samples (map (ttft_ms fl) outcomes)
    itl ← from_samples (map (mean_itl_ms fl) outcomes)
    some (record {
      window_s = window_s;
      total_requests = n;
      tally = t;
      good_frac = good_frac;
      req_per_s = if timed then fl.div (fl.of_ℕ n) window_s else zero_f;
      goodput_req_s = if timed then fl.div (fl.of_ℕ t.good_requests) window_s else zero_f;
      good_output_tok_s = if timed then fl.div (fl.of_ℕ t.good_tokens) window_s else zero_f;
      ttft = ttft;
      itl = itl;
      passed = fl.le slo.good_frac_target good_frac;
    })
