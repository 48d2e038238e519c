-- ===== src/Sched/Decode.antt =====
-- crates/sched/src/decode.rs: the sequences in decode, their admission, and the steps of the engine.
pub mod Running
pub mod Steps
mod Tests
use trt_llm_rs.Prelude.{
  ℕ, zero, suc, ◌+◌, ◌-◌, min, max, Option, none, some, List, [], ◌∷◌, ◌++◌, map, Bool, true, false,
  not, ◌&&◌, ltb, leb, ◌==◌, if◌then◌else◌, length, get_elem?, Ordering,
}
use trt_llm_rs.Prelude.Words.{inc32, inc64, saturating_add32}
use trt_llm_rs.Prelude.Float.{Floats}
use trt_llm_rs.Prelude.Counts.{contains, retain_ne}
use trt_llm_rs.Prelude.Sort.{sort_by}
use trt_llm_rs.Prelude.Assoc.{Map}
use trt_llm_rs.Prelude.Assoc
use trt_llm_rs.Sched.Policy.{RequestId, ◌>>=◌}
use trt_llm_rs.Sched.Controller.{ItlController, observe, back_off}

pub record RunningSeq (F : Type 0) : Type 0 where
  pub id : RequestId
  pub admitted_ms : F
  pub first_token_ms : F
  pub last_token_ms : F
  pub tokens_emitted : ℕ
  pub requested_tokens : ℕ

pub data AdmitDecision : Type 0 where
  admits at_cap would_spoil_running no_kv_headroom : AdmitDecision

-- `flagged` is a hash set: a list without repetitions.
pub record DecodeScheduler (F : Type 0) : Type 0 where
  pub running : Map (RunningSeq F)
  pub controller : ItlController F
  pub itl_budget_ms : F
  pub risk_margin : F
  pub tokens_per_step : ℕ
  pub admitted : ℕ
  pub refused : ℕ
  pub finish_disagreements : ℕ
  pub flagged : List RequestId
  pub unknown_finish_reports : ℕ

unfoldable pub is_admit : AdmitDecision → Bool
is_admit admits = true
is_admit _ = false

module _ {F : Type 0} where
  -- `RunningSeq::new`.
  unfoldable pub new_seq : RequestId → F → ℕ → RunningSeq F
  new_seq id first_token_ms requested_tokens = record {
    id = id;
    admitted_ms = first_token_ms;
    first_token_ms = first_token_ms;
    last_token_ms = first_token_ms;
    tokens_emitted = 1;
    requested_tokens = requested_tokens;
  }

  -- A saturating subtraction, as `-` on ℕ is.
  abbrev pub remaining_tokens : RunningSeq F → ℕ
  remaining_tokens s = s.requested_tokens - s.tokens_emitted

  abbrev pub is_done : RunningSeq F → Bool
  is_done s = leb s.requested_tokens s.tokens_emitted

  -- `DecodeScheduler::running` as a list.
  abbrev pub values : Map (RunningSeq F) → List (RunningSeq F)
  values m = map (λ e. e.1) m

  unfoldable pub concurrency : DecodeScheduler F → ℕ
  concurrency d = length d.running

  unfoldable pub admit : RunningSeq F → DecodeScheduler F → DecodeScheduler F
  admit seq d = record d { running = Assoc.insert seq.id seq d.running }

  unfoldable pub set_tokens_per_step : ℕ → DecodeScheduler F → DecodeScheduler F
  set_tokens_per_step tokens d = record d { tokens_per_step = max tokens 1 }

  unfoldable pub remove : RequestId → DecodeScheduler F → DecodeScheduler F × Option (RunningSeq F)
  remove id d = (
    record d { flagged = retain_ne id d.flagged; running = Assoc.remove id d.running },
    Assoc.lookup id d.running,
  )

  -- A sequence after a step that it advanced in.
  unfoldable pub advance_seq : F → ℕ → RunningSeq F → RunningSeq F
  advance_seq now per_step s = record s {
    tokens_emitted = min (saturating_add32 s.tokens_emitted per_step) s.requested_tokens;
    last_token_ms = now;
  }

  unfoldable pub advance_one : F → ℕ → RequestId → Map (RunningSeq F) → Map (RunningSeq F)
  advance_one now per_step id m = elim (Assoc.lookup id m) [
    | none ↦ m
    | some s ↦ Assoc.insert id (advance_seq now per_step s) m
  ]

  unfoldable pub advance_all : F → ℕ → List RequestId → Map (RunningSeq F) → Map (RunningSeq F)
  advance_all now per_step [] m = m
  advance_all now per_step (id ∷ ids) m =
      advance_all now per_step ids (advance_one now per_step id m)

  -- One report of a finished sequence; the finished ones are gathered in `done`.
  unfoldable pub finish_one :
      RequestId → DecodeScheduler F × List (RunningSeq F) → DecodeScheduler F × List (RunningSeq F)
  finish_one id (d, done) = elim (Assoc.lookup id d.running) [
    | some s ↦ (
      record d { running = Assoc.remove id d.running; flagged = retain_ne id d.flagged },
      done ++ s ∷ [],
    )
    | none ↦ (record d { unknown_finish_reports = inc64 d.unknown_finish_reports }, done)
  ]

  unfoldable pub finish_all :
      List RequestId
      → DecodeScheduler F × List (RunningSeq F)
      → DecodeScheduler F × List (RunningSeq F)
  finish_all [] st = st
  finish_all (id ∷ ids) st = finish_all ids (finish_one id st)

  -- The running sequences that have emitted all they may, each counted once.
  unfoldable pub flag_all : List (RunningSeq F) → DecodeScheduler F → DecodeScheduler F
  flag_all [] d = d
  flag_all (s ∷ seqs) d = flag_all seqs (
      if is_done s && not (contains d.flagged s.id)
      then (record d {
        flagged = s.id ∷ d.flagged;
        finish_disagreements = inc64 d.finish_disagreements;
      })
      else d)

  -- The part of a step after the controller has observed it.
  unfoldable pub book_step :
      F
      → List RequestId
      → List RequestId
      → DecodeScheduler F
      → DecodeScheduler F × List (RunningSeq F)
  book_step now advanced finished d =
      let moved = record d {
        running = advance_all now (max d.tokens_per_step 1) advanced d.running;
      } in
      let (retired, done) = finish_all finished (moved, []) in
      (flag_all (values retired.running) retired, done)

  unfoldable pub due : List (RunningSeq F) → List RequestId
  due [] = []
  due (s ∷ seqs) =
      let rest = due seqs in
      if leb s.requested_tokens (inc32 s.tokens_emitted) then s.id ∷ rest else rest

module _ {F : Type 0} (fl : Floats F) where
  abbrev pub elapsed_ms : RunningSeq F → F
  elapsed_ms s = fl.sub s.last_token_ms s.first_token_ms

  unfoldable pub mean_itl_so_far_ms : RunningSeq F → F
  mean_itl_so_far_ms s =
      if leb s.tokens_emitted 1
      then fl.literal 0 1
      else fl.div (elapsed_ms s) (fl.of_ℕ (s.tokens_emitted - 1))

  unfoldable pub tolerable_itl_ms : F → RunningSeq F → F
  tolerable_itl_ms budget_ms s =
      if remaining_tokens s == 0
      then fl.infinity
      else fl.div (fl.sub (fl.mul budget_ms (fl.of_ℕ (s.requested_tokens - 1))) (elapsed_ms s))
          (fl.of_ℕ (remaining_tokens s))

  -- `DecodeScheduler::new`.
  unfoldable pub new : F → ItlController F → DecodeScheduler F
  new itl_budget_ms controller = record {
    running = [];
    controller = controller;
    itl_budget_ms = itl_budget_ms;
    risk_margin = fl.literal 105 100;
    tokens_per_step = 1;
    admitted = 0;
    refused = 0;
    finish_disagreements = 0;
    flagged = [];
    unknown_finish_reports = 0;
  }

  unfoldable pub fold_min : F → List F → F
  fold_min a [] = a
  fold_min a (x ∷ xs) = fold_min (fl.fmin a x) xs

  unfoldable pub tightest_tolerance_ms : DecodeScheduler F → F
  tightest_tolerance_ms d =
      fold_min fl.infinity (map (tolerable_itl_ms d.itl_budget_ms) (values d.running))

  -- Whether a sequence in flight cannot absorb the latency that is measured.
  abbrev pub spoils : DecodeScheduler F → Bool
  spoils d =
      leb 8 d.controller.samples
      && fl.is_finite (tightest_tolerance_ms d)
      && fl.lt (tightest_tolerance_ms d) (fl.mul d.controller.ewma_ms d.risk_margin)

  unfoldable pub can_admit : Bool → DecodeScheduler F → AdmitDecision
  can_admit kv_headroom d =
      if not kv_headroom
      then no_kv_headroom
      else if fl.le d.controller.cap (fl.of_ℕ (concurrency d))
      then at_cap
      else if spoils d
      then would_spoil_running
      else admits

  unfoldable pub note : AdmitDecision → DecodeScheduler F → DecodeScheduler F
  note admits d = record d { admitted = inc64 d.admitted }
  note would_spoil_running d = record d {
    refused = inc64 d.refused;
    controller = back_off fl d.controller;
  }
  note at_cap d = record d { refused = inc64 d.refused }
  note no_kv_headroom d = record d { refused = inc64 d.refused }

  unfoldable pub admit_at : RunningSeq F → F → DecodeScheduler F → DecodeScheduler F
  admit_at seq now d =
      admit (record seq { admitted_ms = now; last_token_ms = fl.fmax seq.last_token_ms now }) d

  -- How long a sequence has waited for its next token.
  abbrev pub age : F → RunningSeq F → F
  age now s = fl.sub now (fl.fmax s.last_token_ms s.admitted_ms)

  unfoldable pub comparable : F → List F → Bool
  comparable a [] = true
  comparable a (x ∷ xs) =
      elim (fl.partial_cmp a x) [ none ↦ false | some _ ↦ true ] && comparable a xs

  -- Each value compares with each that follows it.
  unfoldable pub all_comparable : List F → Bool
  all_comparable [] = true
  all_comparable (x ∷ xs) = comparable x xs && all_comparable xs

  unfoldable pub by_partial : F → F → Ordering
  by_partial a b = elim (fl.partial_cmp a b) [ none ↦ Ordering.eq | some o ↦ o ]

  -- `sort_by(|a, b| a.partial_cmp(b).expect(..))`: a value that does not compare is met, whichever
  -- way the sort goes, if there is another.
  unfoldable pub sort_partial : List F → Option (List F)
  sort_partial xs = if all_comparable xs then some (sort_by by_partial xs) else none

  -- `round((n - 1) * 0.90)`.
  unfoldable pub p90_index : ℕ → ℕ
  p90_index n = fl.to_ℕ (fl.round (fl.mul (fl.of_ℕ (n - 1)) (fl.literal 90 100)))

  -- A panic is the outer `none`, and no sequence the inner one.
  unfoldable pub steering_itl_ms : F → DecodeScheduler F → Option (Option F)
  steering_itl_ms now d =
      let samples = map (age now) (values d.running) in
      if length samples == 0 then some none else do
        sorted ← sort_partial samples
        sample ← get_elem? sorted (p90_index (length sorted))
        some (some sample)

  -- `none` is a panic.
  unfoldable pub on_step :
      F
      → F
      → List RequestId
      → List RequestId
      → DecodeScheduler F
      → Option (DecodeScheduler F × List (RunningSeq F))
  on_step now step_ms advanced finished d = do
    measured ← steering_itl_ms now d
    let steer : F = elim measured [ none ↦ step_ms | some itl ↦ itl ]
    some (
        book_step now advanced finished
          (record d { controller = observe fl steer (concurrency d) d.controller }))

  unfoldable pub on_step_synthetic :
      F → F → DecodeScheduler F → Option (DecodeScheduler F × List (RunningSeq F))
  on_step_synthetic now step_ms d =
      on_step now step_ms (map (λ e. e.0) d.running) (due (values d.running)) d
