-- ===== src/Core/Tests.antt =====
-- A finished request, and the theorems of Core at it.
use trt_llm_rs.Prelude.{ℕ, ◌≡◌, ◌≤◌, List, [], ◌∷◌, some, length, arith, true}
use trt_llm_rs.Prelude.Sort.{le_by}
use trt_llm_rs.Core.Report.{LatencyStats, rank, from_samples}
use trt_llm_rs.Core.Report.Percentiles.{from_samples-IsOrdered}
use trt_llm_rs.Prelude.Int.{ℤ, pos, ◌*ℤ◌, compare_ℤ-IsTotal}
use trt_llm_rs.Prelude.Whole.{whole}
use trt_llm_rs.Core.Outcome.{Slo, RequestOutcome}

abbrev slo : Slo ℤ
slo = record { ttft_ms = pos 3000; itl_ms = pos 20; good_frac_target = pos 0 }

abbrev outcome : RequestOutcome ℤ
outcome = record {
  id = 1;
  arrival_ms = pos 0;
  first_token_ms = pos 2500;
  last_token_ms = pos 6000;
  prompt_tokens = 4000;
  output_tokens = 200;
  requested_tokens = 200;
}

abbrev samples : List ℤ
samples = pos 7 ∷ pos 3 ∷ pos 5 ∷ []

whole_ranks :
    (n : ℕ)
    → (rank whole (whole.literal 50 100) n ≤ rank whole (whole.literal 90 100) n)
      × (rank whole (whole.literal 90 100) n ≤ rank whole (whole.literal 95 100) n)
      × (rank whole (whole.literal 95 100) n ≤ rank whole (whole.literal 99 100) n)
unfolding rank ◌*ℤ◌
whole_ranks n = (omega arith, omega arith, omega arith)

from_samples-IsOrdered_example :
    (s : LatencyStats ℤ) × (from_samples whole samples ≡ some s)
    × (s.count ≡ length samples)
    × (le_by whole.total_cmp s.p50 s.p90 ≡ true)
    × (le_by whole.total_cmp s.p90 s.p95 ≡ true)
    × (le_by whole.total_cmp s.p95 s.p99 ≡ true)
    × (le_by whole.total_cmp s.p99 s.max ≡ true)
from_samples-IsOrdered_example =
    from_samples-IsOrdered whole compare_ℤ-IsTotal whole_ranks samples (omega arith)
