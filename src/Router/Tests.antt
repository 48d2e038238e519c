-- ===== src/Router/Tests.antt =====
-- Two workers, and the theorem of Router at them.
use trt_llm_rs.Prelude.{ℕ, ◌≡◌, refl, none, some, [], ◌∷◌, true, false, map, if◌then◌else◌, compare}
use trt_llm_rs.Prelude.Counts.{count}
use trt_llm_rs.Prelude.Int.{ℤ, pos}
use trt_llm_rs.Prelude.Whole.{whole}
use trt_llm_rs.Prelude.Assoc
use trt_llm_rs.Prelude.Sort.{IsSorted}
use trt_llm_rs.Router.Registry.{
  WorkerLoad, WorkerState, WorkerRegistry, prefill, get, live, is_live,
}
use trt_llm_rs.Router.Registry.Live.{IsRegistry, live_exact}

abbrev load : WorkerLoad ℤ
load = record {
  queued_tokens = 10;
  queue_depth = 1;
  decode_concurrency = 0;
  decode_cap = pos 0;
  kv_utilisation = pos 0;
  tokens_per_ms = pos 17;
  step_ms = pos 0;
  updated_ms = pos 5;
}

-- A healthy prefill worker, and one that is not.
abbrev fleet : WorkerRegistry ℤ
fleet = record {
  workers =
      (
        4,
        record {
          id = 4;
          role = prefill;
          endpoint = [];
          tensor_parallel = 2;
          healthy = true;
          load = load;
        },
      )
      ∷ (
        2,
        record {
          id = 2;
          role = prefill;
          endpoint = [];
          tensor_parallel = 2;
          healthy = false;
          load = load;
        },
      )
      ∷ [];
  stale_after_ms = pos 10;
}

fleet-IsRegistry : IsRegistry fleet
unfolding Assoc.lookup
fleet-IsRegistry = record { keyed = (refl, (refl, tt)); distinct = (refl, (refl, tt)) }

live_exact_example :
    ((id : ℕ)
      → count id (map (λ w. w.id) (live whole prefill (pos 9) fleet)) ≡ elim (get id fleet) [
        | none ↦ 0
        | some w ↦ if is_live whole prefill (pos 9) fleet.stale_after_ms w then 1 else 0
      ])
    × IsSorted (λ (a b : WorkerState ℤ). compare a.id b.id) (live whole prefill (pos 9) fleet)
live_exact_example = live_exact whole prefill (pos 9) fleet fleet-IsRegistry
