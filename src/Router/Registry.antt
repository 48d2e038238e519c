-- ===== src/Router/Registry.antt =====
-- crates/router/src/registry.rs: the workers known to the router, and those that are live.
pub mod Live
pub mod Serving
use trt_llm_rs.Prelude.{
  ℕ, ◌+◌, ◌≡◌, refl, ap, ◌∙◌, sym, subst, Option, none, some, List, [], ◌∷◌, map, Bool, true, false,
  not, ◌&&◌, ◌==◌, if◌then◌else◌, if_elim, arith, compare, Ordering, All, Bool-cases, Option-cases,
  inl, inr, length,
}
use mathlib.Core.Option.{some-injective}
use trt_llm_rs.Prelude.Float.{Floats}
use trt_llm_rs.Prelude.Assoc
use trt_llm_rs.Prelude.Assoc.{
  Map, lookup, lookup-insert, lookup-remove, All-insert, All-remove, All-lookup,
}
use trt_llm_rs.Prelude.Sort.{
  sort_by, sort_by-IsSorted, All-sort_by, IsSorted, le_by, key-IsTotal, compare-IsTotal,
}

pub data WorkerRole : Type 0 where
  prefill decode : WorkerRole

pub record WorkerLoad (F : Type 0) : Type 0 where
  pub queued_tokens : ℕ
  pub queue_depth : ℕ
  pub decode_concurrency : ℕ
  pub decode_cap : F
  pub kv_utilisation : F
  pub tokens_per_ms : F
  pub step_ms : F
  pub updated_ms : F

-- `endpoint` is the bytes of the string.
pub record WorkerState (F : Type 0) : Type 0 where
  pub id : ℕ
  pub role : WorkerRole
  pub endpoint : List ℕ
  pub tensor_parallel : ℕ
  pub healthy : Bool
  pub load : WorkerLoad F

pub record WorkerRegistry (F : Type 0) : Type 0 where
  pub workers : Map (WorkerState F)
  pub stale_after_ms : F

unfoldable pub same_role : WorkerRole → WorkerRole → Bool
same_role prefill prefill = true
same_role decode decode = true
same_role _ _ = false

module _ {F : Type 0} where
  unfoldable pub new : F → WorkerRegistry F
  new stale_after_ms = record { workers = []; stale_after_ms = stale_after_ms }

  unfoldable pub register : WorkerState F → WorkerRegistry F → WorkerRegistry F
  register w g = record g { workers = Assoc.insert w.id w g.workers }

  unfoldable pub deregister : ℕ → WorkerRegistry F → WorkerRegistry F × Option (WorkerState F)
  deregister id g = (record g { workers = Assoc.remove id g.workers }, lookup id g.workers)

  unfoldable pub get : ℕ → WorkerRegistry F → Option (WorkerState F)
  get id g = lookup id g.workers

  unfoldable pub update_load : ℕ → WorkerLoad F → WorkerRegistry F → WorkerRegistry F
  update_load id load g = elim (lookup id g.workers) [
    | none ↦ g
    | some w ↦ record g {
      workers = Assoc.insert id (record w { load = load; healthy = true }) g.workers;
    }
  ]

  -- Each worker stands under its own id.
  abbrev pub IsKeyed : ℕ × WorkerState F → Type 0
  IsKeyed e = e.1.id ≡ e.0

module _ {F : Type 0} (fl : Floats F) where
  -- `WorkerState::decode_headroom`.
  unfoldable pub decode_headroom : WorkerState F → F
  decode_headroom w =
      fl.fmax (fl.sub w.load.decode_cap (fl.of_ℕ w.load.decode_concurrency)) (fl.literal 0 1)

  abbrev pub is_live : WorkerRole → F → F → WorkerState F → Bool
  is_live role now stale_after_ms w =
      same_role w.role role && w.healthy && fl.le (fl.sub now w.load.updated_ms) stale_after_ms

  unfoldable pub live_of : WorkerRole → F → F → Map (WorkerState F) → List (WorkerState F)
  live_of role now stale_after_ms [] = []
  live_of role now stale_after_ms ((_, w) ∷ m) =
      let rest = live_of role now stale_after_ms m in
      if is_live role now stale_after_ms w then w ∷ rest else rest

  unfoldable pub live : WorkerRole → F → WorkerRegistry F → List (WorkerState F)
  live role now g = sort_by (λ a b. compare a.id b.id) (live_of role now g.stale_after_ms g.workers)

  unfoldable pub sum_rates : List (WorkerState F) → F → F
  sum_rates [] total = total
  sum_rates (w ∷ ws) total = sum_rates ws (fl.add total w.load.tokens_per_ms)

  unfoldable pub prefill_rate : F → WorkerRegistry F → F
  prefill_rate now g = sum_rates (live prefill now g) (fl.literal 0 1)
