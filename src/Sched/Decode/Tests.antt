-- ===== src/Sched/Decode/Tests.antt =====
-- A controller and a decode scheduler with one sequence, and the theorems of Sched at them.
use trt_llm_rs.Prelude.{
  ℕ, ◌+◌, ◌<◌, ◌≡◌, refl, true, false, not, ◌&&◌, List, [], ◌∷◌, arith, length, ◌⊎◌, All,
}
use trt_llm_rs.Prelude.Counts.{contains}
use trt_llm_rs.Prelude.Int.{ℤ, pos, ◌+ℤ◌, ◌-ℤ◌, ◌*ℤ◌}
use trt_llm_rs.Prelude.Whole.{whole}
use trt_llm_rs.Prelude.Assoc.{holds}
use trt_llm_rs.Sched.Controller.{
  ItlController, observe, take_sample, steer, resume, throttle, open_probe, judge, decrease,
  give_up,
}
use trt_llm_rs.Sched.Controller.Range.{CapLaws, InRange, observe-InRange}
use trt_llm_rs.Sched.Controller.Latch.{observe_gives_up}
use trt_llm_rs.Sched.Decode.{RunningSeq, DecodeScheduler, values, p90_index, book_step, is_done}
use trt_llm_rs.Sched.Decode.Running.{IsConsistent}
use trt_llm_rs.Sched.Decode.Steps.{inc64_times, book_step-IsConsistent}

-- A controller with one observation less than it needs to steer.
abbrev controller : ItlController ℤ
controller = record {
  target_ms = pos 20;
  ewma_ms = pos 50;
  alpha = pos 1;
  cap = pos 8;
  min_cap = pos 1;
  max_cap = pos 64;
  increase_step = pos 1;
  decrease_factor = pos 0;
  low_water = pos 1;
  high_water = pos 1;
  utilisation_gate = pos 1;
  samples = 7;
  concurrency_not_binding = false;
  ewma_at_decrease = pos 50;
  observations_since_decrease = 14;
  probe_window = 15;
  improvement_threshold = pos 0;
}

abbrev running : DecodeScheduler ℤ
running = record {
  running =
      (
        7,
        record {
          id = 7;
          admitted_ms = pos 12;
          first_token_ms = pos 10;
          last_token_ms = pos 30;
          tokens_emitted = 3;
          requested_tokens = 9;
        },
      )
      ∷ [];
  controller = record controller { samples = 8; ewma_ms = pos 15 };
  itl_budget_ms = pos 20;
  risk_margin = pos 1;
  tokens_per_step = 2;
  admitted = 1;
  refused = 0;
  finish_disagreements = 0;
  flagged = [];
  unknown_finish_reports = 0;
}

-- One of the two runs.
abbrev reports : List ℕ
reports = 7 ∷ 8 ∷ []

running-IsConsistent : IsConsistent running
running-IsConsistent = record {
  sequences = (record { keyed = refl; in_budget = omega arith }, tt);
  flags = λ id. refl;
}

whole_fmin :
    (a b x : ℤ)
    → whole.lt (whole.fmin a b) x ≡ false
    → (whole.lt a x ≡ false) × (whole.lt b x ≡ false)
whole_fmin a b x h = ground arith

whole_p90 : (n : ℕ) → 0 < n → p90_index whole n < n
unfolding p90_index ◌*ℤ◌
whole_p90 n h = ground arith

whole-CapLaws : CapLaws whole
unfolding ◌+ℤ◌ ◌*ℤ◌
whole-CapLaws = record {
  le_refl = λ a b h. ground arith;
  le_trans = λ a b c h k. ground arith;
  le_lt = λ a b h k l. ground arith;
  fmax_upper = λ a b h. ground arith;
  fmax_least = λ a b c h k. ground arith;
  fmin_lower = λ a b h k. ground arith;
  fmin_greatest = λ a b c h k. ground arith;
  of_ℕ_nonneg = λ n. ground arith;
  nine_tenths = λ a h. ground arith;
  one_more = λ a h. ground arith;
}

controller-InRange : InRange whole controller
controller-InRange = record {
  range = record { floor = refl; low = refl; high = refl; steps = refl; factors = refl };
}

observe-InRange_example : InRange whole (observe whole (pos 50) 3 controller)
observe-InRange_example =
    observe-InRange whole whole-CapLaws (pos 50) 3 controller controller-InRange

observe_gives_up_example :
    ((observe whole (pos 50) 3 controller).cap ≡ controller.max_cap)
    ⊎ ((controller.concurrency_not_binding ≡ true)
        × ((observe whole (pos 50) 3 controller).cap ≡ controller.cap))
unfolding observe take_sample steer resume throttle open_probe judge decrease give_up ◌+ℤ◌ ◌*ℤ◌ ◌-ℤ◌
observe_gives_up_example = observe_gives_up whole (pos 50) 3 controller refl

book_step-IsConsistent_example :
    (d' : DecodeScheduler ℤ) × (done : List (RunningSeq ℤ)) × (book_step
        (pos 40)
        (7 ∷ [])
        reports
        running
      ≡ (d', done))
    × IsConsistent d'
    × ((j : ℕ) → holds j d'.running ≡ (holds j running.running && not (contains reports j)))
    × ((unknown : ℕ) × (length done + unknown ≡ length reports)
        × (d'.unknown_finish_reports ≡ inc64_times unknown running.unknown_finish_reports))
    × (d'.controller ≡ running.controller)
    × All (λ s. (is_done s && not (contains d'.flagged s.id)) ≡ false) (values d'.running)
book_step-IsConsistent_example =
    book_step-IsConsistent (pos 40) (7 ∷ []) reports running running-IsConsistent
