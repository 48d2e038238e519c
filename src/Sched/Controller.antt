-- ===== src/Sched/Controller.antt =====
-- crates/sched/src/decode.rs: the AIMD controller over the cap on concurrent decodes.
use trt_llm_rs.Prelude.{
  ℕ, Option, none, some, Bool, true, false, not, ◌&&◌, ltb, leb, ◌==◌, if◌then◌else◌,
}
use trt_llm_rs.Prelude.Words.{inc64}
use trt_llm_rs.Prelude.Float.{Floats, clamp}
pub mod Range
pub mod Latch

pub record ItlController (F : Type 0) : Type 0 where
  pub target_ms : F
  pub ewma_ms : F
  pub alpha : F
  pub cap : F
  pub min_cap : F
  pub max_cap : F
  pub increase_step : F
  pub decrease_factor : F
  pub low_water : F
  pub high_water : F
  pub utilisation_gate : F
  pub samples : ℕ
  pub concurrency_not_binding : Bool
  pub ewma_at_decrease : F
  pub observations_since_decrease : ℕ
  pub probe_window : ℕ
  pub improvement_threshold : F

module _ {F : Type 0} (fl : Floats F) where
  -- `none` is the panic of `clamp` on bounds that are not in order.
  unfoldable pub new : F → F → F → F → Option (ItlController F)
  new target_ms initial_cap min_cap max_cap =
      if fl.le min_cap max_cap
      then some (record {
        target_ms = target_ms;
        ewma_ms = fl.literal 0 1;
        alpha = fl.literal 1 10;
        cap = clamp fl initial_cap min_cap max_cap;
        min_cap = min_cap;
        max_cap = max_cap;
        increase_step = fl.literal 1 1;
        decrease_factor = fl.literal 9 10;
        low_water = fl.literal 90 100;
        high_water = fl.literal 98 100;
        utilisation_gate = fl.literal 9 10;
        samples = 0;
        concurrency_not_binding = false;
        ewma_at_decrease = fl.infinity;
        observations_since_decrease = 0;
        probe_window = 15;
        improvement_threshold = fl.literal 2 100;
      })
      else none

  -- The two fields that judge a decrease, as they start.
  abbrev pub reset_probe : ItlController F → ItlController F
  reset_probe c = record c { ewma_at_decrease = fl.infinity; observations_since_decrease = 0 }

  unfoldable pub give_up : ItlController F → ItlController F
  give_up c = reset_probe (record c { concurrency_not_binding = true; cap = c.max_cap })

  unfoldable pub back_off : ItlController F → ItlController F
  back_off c = record c { cap = fl.fmax (fl.mul c.cap c.decrease_factor) c.min_cap }

  -- The new sample in the moving average.
  unfoldable pub take_sample : F → ItlController F → ItlController F
  take_sample itl_ms c =
      let samples = inc64 c.samples in
      record c {
        samples = samples;
        ewma_ms =
            if samples == 1
            then itl_ms
            else fl.add (fl.mul (fl.sub (fl.literal 1 1) c.alpha) c.ewma_ms)
                (fl.mul c.alpha itl_ms);
      }

  -- The mark under which the budget counts as reachable.
  abbrev pub is_low : ItlController F → Bool
  is_low c = fl.lt c.ewma_ms (fl.mul c.target_ms c.low_water)

  abbrev pub is_high : ItlController F → Bool
  is_high c = fl.lt (fl.mul c.target_ms c.high_water) c.ewma_ms

  -- Steering again, once the budget is reachable.
  unfoldable pub resume : ItlController F → ItlController F
  resume c =
      if c.concurrency_not_binding && is_low c
      then reset_probe (record c { concurrency_not_binding = false })
      else c

  -- The observation counted, in a window that starts with the first decrease.
  unfoldable pub open_probe : ItlController F → ItlController F
  open_probe c =
      let opened =
        if fl.is_infinite c.ewma_at_decrease
        then (record c { ewma_at_decrease = c.ewma_ms; observations_since_decrease = 0 })
        else c in
      record opened { observations_since_decrease = inc64 opened.observations_since_decrease }

  abbrev pub improved : ItlController F → Bool
  improved c =
      fl.le c.ewma_ms (fl.mul c.ewma_at_decrease (fl.sub (fl.literal 1 1) c.improvement_threshold))

  -- The decrease itself, and what follows at the floor.
  unfoldable pub decrease : ℕ → ItlController F → ItlController F
  decrease concurrency c =
      let binding = if ltb 0 concurrency then fl.fmin c.cap (fl.of_ℕ concurrency) else c.cap in
      let lowered = record c { cap = fl.fmax (fl.mul binding c.decrease_factor) c.min_cap } in
      if fl.le lowered.cap (fl.mul lowered.min_cap (fl.literal 101 100))
      then give_up lowered
      else lowered

  -- At the end of a window, whether the decreases in it bought enough.
  unfoldable pub judge : ℕ → ItlController F → ItlController F
  judge concurrency c =
      if leb c.probe_window c.observations_since_decrease
      then if improved c
        then decrease concurrency
            (record c { ewma_at_decrease = c.ewma_ms; observations_since_decrease = 0 })
        else give_up c
      else decrease concurrency c

  -- The branch over the high mark.
  unfoldable pub throttle : ℕ → ItlController F → ItlController F
  throttle concurrency c = if c.concurrency_not_binding then c else judge concurrency (open_probe c)

  -- The branch not over it.
  unfoldable pub grow : ℕ → ItlController F → ItlController F
  grow concurrency c =
      if is_low c && fl.le (fl.mul c.cap c.utilisation_gate) (fl.of_ℕ concurrency)
      then reset_probe (record c { cap = fl.fmin (fl.add c.cap c.increase_step) c.max_cap })
      else c

  unfoldable pub steer : ℕ → ItlController F → ItlController F
  steer concurrency c = if is_high c then throttle concurrency c else grow concurrency c

  unfoldable pub observe : F → ℕ → ItlController F → ItlController F
  observe itl_ms concurrency c =
      let sampled = take_sample itl_ms c in
      if ltb sampled.samples 8 then sampled else steer concurrency (resume sampled)
