-- ===== src/Router/Policy.antt =====
-- crates/router/src/policy.rs: the choice of a prefill worker and a decode worker for one prompt.
pub mod Route
mod Tests
use trt_llm_rs.Prelude.{
  ℕ, ◌+◌, ◌-◌, min, Option, none, some, List, [], ◌∷◌, Bool, true, false, ◌&&◌, ◌||◌, ltb,
  if◌then◌else◌, length, compare, Ordering,
}
use trt_llm_rs.Prelude.Float.{Floats}
use trt_llm_rs.Prelude.Assoc.{Map, lookup}
use trt_llm_rs.Prelude.Sort.{then_cmp}
use trt_llm_rs.Prelude.Pick.{max_by}
use trt_llm_rs.Router.Registry.{WorkerState, WorkerRegistry, prefill, decode, live, decode_headroom}
use trt_llm_rs.Kvcache.Radix
use trt_llm_rs.Kvcache.Radix.{RadixIndex, match_workers, ◌>>=◌}

pub data RoutingError : Type 0 where
  no_prefill_worker no_decode_worker : RoutingError

pub record RoutingDecision (F : Type 0) : Type 0 where
  pub prefill_id : ℕ
  pub decode_id : ℕ
  pub prefix_hit_tokens : ℕ
  pub predicted_ttft_ms : F
  pub predicted_late : Bool

pub record RouterTuning (F : Type 0) : Type 0 where
  pub kv_transfer_ms : F
  pub default_tokens_per_ms : F
  pub min_prefix_tokens : ℕ

pub record Router (F : Type 0) : Type 0 where
  pub registry : WorkerRegistry F
  pub prefix_index : RadixIndex F
  pub tuning : RouterTuning F

-- `Result<RoutingDecision, RoutingError>`.
pub data Routed (F : Type 0) : Type 0 where
  routed : RoutingDecision F → Routed F
  refused : RoutingError → Routed F

-- `best`: the cost, the worker and the hit of the cheapest worker so far.
pub record Best (F : Type 0) : Type 0 where
  pub cost : F
  pub id : ℕ
  pub hit : ℕ

abbrev pub no_workers : {F : Type 0} → List (WorkerState F) → Bool
no_workers [] = true
no_workers (_ ∷ _) = false

unfoldable pub hit_of : {F : Type 0} → Map ℕ → List ℕ → WorkerState F → ℕ
hit_of overlaps prompt w =
    let overlap : ℕ = elim (lookup w.id overlaps) [ none ↦ 0 | some k ↦ k ] in
    min overlap (length prompt)

module _ {F : Type 0} (fl : Floats F) where
  unfoldable pub default_tuning : RouterTuning F
  default_tuning = record {
    kv_transfer_ms = fl.literal 10 1;
    default_tokens_per_ms = fl.literal 17 1;
    min_prefix_tokens = 256;
  }

  unfoldable pub new : WorkerRegistry F → RouterTuning F → Router F
  new registry tuning = record {
    registry = registry;
    prefix_index = Radix.new fl tuning.min_prefix_tokens 65_536;
    tuning = tuning;
  }

  unfoldable pub rate_of : RouterTuning F → WorkerState F → F
  rate_of tuning w =
      if fl.lt (fl.literal 0 1) w.load.tokens_per_ms
      then w.load.tokens_per_ms
      else tuning.default_tokens_per_ms

  unfoldable pub cost_of : RouterTuning F → List ℕ → WorkerState F → ℕ → F
  unfolding rate_of
  cost_of tuning prompt w hit =
      let rate = rate_of tuning w in
      let compute = fl.of_ℕ (length prompt - hit) in
      let wait = fl.div (fl.of_ℕ w.load.queued_tokens) rate in
      fl.add (fl.add wait (fl.div compute rate)) tuning.kv_transfer_ms

  unfoldable pub is_better : F → ℕ → Option (Best F) → Bool
  is_better cost id none = true
  is_better cost id (some b) =
      fl.lt cost (fl.sub b.cost (fl.literal 1 1_000_000_000))
      || fl.le (fl.abs (fl.sub cost b.cost)) (fl.literal 1 1_000_000_000) && ltb id b.id

  -- The loop over the prefill pool.
  unfoldable pub pick :
      RouterTuning F → List ℕ → Map ℕ → List (WorkerState F) → Option (Best F) → Option (Best F)
  unfolding hit_of cost_of is_better
  pick tuning prompt overlaps [] best = best
  pick tuning prompt overlaps (w ∷ ws) best =
      let hit = hit_of overlaps prompt w in
      let cost = cost_of tuning prompt w hit in
      let kept =
        if is_better cost w.id best
        then some (record { cost = cost; id = w.id; hit = hit })
        else best in
      pick tuning prompt overlaps ws kept

  -- More room first, then less of the cache in use, then the lower id.
  abbrev pub by_room : WorkerState F → WorkerState F → Ordering
  by_room a b =
      then_cmp
        (then_cmp (fl.total_cmp (decode_headroom fl a) (decode_headroom fl b))
          (fl.total_cmp b.load.kv_utilisation a.load.kv_utilisation))
        (compare b.id a.id)

  unfoldable pub choose :
      RouterTuning F
      → List ℕ
      → F
      → Map ℕ
      → List (WorkerState F)
      → List (WorkerState F)
      → Option (RoutingDecision F)
  unfolding pick
  choose tuning prompt ttft_budget_ms overlaps prefill_pool decode_pool = do
    best ← pick tuning prompt overlaps prefill_pool none
    chosen ← max_by by_room decode_pool
    some (record {
      prefill_id = best.id;
      decode_id = chosen.id;
      prefix_hit_tokens = best.hit;
      predicted_ttft_ms = best.cost;
      predicted_late = fl.lt ttft_budget_ms best.cost;
    })

  -- `none` is a panic: of the index, or of `expect` on an empty pool.
  unfoldable pub route : List ℕ → F → F → Router F → Option (Routed F)
  unfolding choose
  route prompt now ttft_budget_ms r =
      let prefill_pool = live fl prefill now r.registry in
      let decode_pool = live fl decode now r.registry in
      if no_workers prefill_pool
      then some (refused no_prefill_worker)
      else if no_workers decode_pool
      then some (refused no_decode_worker)
      else (do
        overlaps ← match_workers prompt r.prefix_index
        d ← choose r.tuning prompt ttft_budget_ms overlaps prefill_pool decode_pool
        some (routed d))

  unfoldable pub note_prefill : ℕ → List ℕ → F → Router F → Option (Router F)
  note_prefill worker prompt now r = do
    index ← Radix.insert worker prompt now r.prefix_index
    some (record r { prefix_index = index })
