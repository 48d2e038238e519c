-- ===== src/Core/Report/Counts.antt =====
-- The counts of the report of crates/core/src/stats.rs.
use trt_llm_rs.Prelude.{ℕ, suc, ◌+◌, ◌≡◌, List, [], ◌∷◌, if◌then◌else◌, arith, length}
use trt_llm_rs.Prelude.Float.{Floats}
use trt_llm_rs.Core.Outcome.{
  Slo, RequestOutcome, Verdict, good, late_first_token, slow_tokens, late_and_slow, incomplete,
  verdict, is_good,
}
use trt_llm_rs.Core.Report.{Tally, no_tally, count_verdict, tally_outcomes}

module _ {F : Type 0} (fl : Floats F) (slo : Slo F) where
  abbrev pub sum_counts : Tally → ℕ
  sum_counts t = t.good_requests + t.late + t.slow + t.both + t.unfinished

  abbrev pub good_outcomes : List (RequestOutcome F) → ℕ
  good_outcomes [] = 0
  good_outcomes (o ∷ outcomes) =
      (if is_good (verdict fl slo o) then 1 else 0) + good_outcomes outcomes

  count_verdict_lem :
      (v : Verdict) (tokens : ℕ) (t : Tally)
      → (sum_counts (count_verdict v tokens t) ≡ suc (sum_counts t))
        × ((count_verdict v tokens t).good_requests
            ≡ (if is_good v then 1 else 0) + t.good_requests)
  unfolding count_verdict is_good
  count_verdict_lem good tokens t = (omega arith, omega arith)
  count_verdict_lem late_first_token tokens t = (omega arith, omega arith)
  count_verdict_lem slow_tokens tokens t = (omega arith, omega arith)
  count_verdict_lem late_and_slow tokens t = (omega arith, omega arith)
  count_verdict_lem incomplete tokens t = (omega arith, omega arith)

  tally_outcomes_lem :
      (outcomes : List (RequestOutcome F)) (t : Tally)
      → (sum_counts (tally_outcomes fl slo outcomes t) ≡ length outcomes + sum_counts t)
        × ((tally_outcomes fl slo outcomes t).good_requests
            ≡ good_outcomes outcomes + t.good_requests)
  unfolding tally_outcomes
  tally_outcomes_lem [] t = (omega arith, omega arith)
  tally_outcomes_lem (o ∷ outcomes) t =
      let (s, g) =
        tally_outcomes_lem outcomes (count_verdict (verdict fl slo o) o.output_tokens t) in
      let (s₁, g₁) = count_verdict_lem (verdict fl slo o) o.output_tokens t in
      (omega (arith, s, s₁), omega (arith, g, g₁))

  -- The loop over the outcomes counts each of them under exactly one verdict, and as good exactly
  -- those whose verdict is good.
  pub tally_outcomes-sum_counts :
      (outcomes : List (RequestOutcome F))
      → (sum_counts (tally_outcomes fl slo outcomes no_tally) ≡ length outcomes)
        × ((tally_outcomes fl slo outcomes no_tally).good_requests ≡ good_outcomes outcomes)
  tally_outcomes-sum_counts outcomes =
      let (s, g) = tally_outcomes_lem outcomes no_tally in (omega (arith, s), omega (arith, g))
