-- ===== src/Router/Policy/Tests.antt =====
-- Three workers and two prompts, and the theorem of Router.Policy at them.
use trt_llm_rs.Prelude.{ℕ, ◌≡◌, refl, some, List, [], ◌∷◌, true}
use trt_llm_rs.Prelude.Int.{ℤ, pos, compare_ℤ-IsTotal}
use trt_llm_rs.Prelude.Whole.{whole}
use trt_llm_rs.Prelude.Assoc
use trt_llm_rs.Router.Registry.{
  WorkerRole, WorkerLoad, WorkerState, WorkerRegistry, prefill, decode,
}
use trt_llm_rs.Router.Registry.Live.{IsRegistry}
use trt_llm_rs.Kvcache.Radix
use trt_llm_rs.Kvcache.Radix.{RadixIndex}
use trt_llm_rs.Kvcache.Radix.History.{Call, recorded, run}
use trt_llm_rs.Router.Policy.{RouterTuning, route}
use trt_llm_rs.Router.Policy.Route.{IsAnswer, route_total}

abbrev load : WorkerLoad ℤ
load = record {
  queued_tokens = 34;
  queue_depth = 1;
  decode_concurrency = 2;
  decode_cap = pos 8;
  kv_utilisation = pos 0;
  tokens_per_ms = pos 17;
  step_ms = pos 0;
  updated_ms = pos 5;
}

abbrev worker : ℕ → WorkerRole → WorkerState ℤ
worker id role = record {
  id = id;
  role = role;
  endpoint = [];
  tensor_parallel = 2;
  healthy = true;
  load = load;
}

abbrev fleet : WorkerRegistry ℤ
fleet = record {
  workers = (1, worker 1 prefill) ∷ (2, worker 2 prefill) ∷ (3, worker 3 decode) ∷ [];
  stale_after_ms = pos 10;
}

fleet-IsRegistry : IsRegistry fleet
unfolding Assoc.lookup
fleet-IsRegistry = record {
  keyed = (refl, (refl, (refl, tt)));
  distinct = (refl, (refl, (refl, tt)));
}

abbrev tuning : RouterTuning ℤ
tuning = record { kv_transfer_ms = pos 10; default_tokens_per_ms = pos 17; min_prefix_tokens = 1 }

abbrev calls : List (Call ℤ)
calls = recorded 2 (5 ∷ 6 ∷ []) (pos 1) ∷ []

route_total_example :
    (g' : RadixIndex ℤ) × (run whole calls (Radix.new whole 1 65_536) ≡ some g')
    × IsAnswer whole fleet tuning calls (5 ∷ 6 ∷ 7 ∷ []) (pos 9) (pos 3000) (
        route whole
          (5 ∷ 6 ∷ 7 ∷ [])
          (pos 9)
          (pos 3000)
          (record { registry = fleet; prefix_index = g'; tuning = tuning }))
route_total_example =
    route_total whole compare_ℤ-IsTotal fleet fleet-IsRegistry tuning calls (5 ∷ 6 ∷ 7 ∷ []) (pos 9)
      (pos 3000)
