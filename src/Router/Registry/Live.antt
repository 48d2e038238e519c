-- ===== src/Router/Registry/Live.antt =====
-- The live workers of crates/router/src/registry.rs.
use trt_llm_rs.Prelude.{
  ℕ, ◌≡◌, refl, ap, ◌∙◌, none, some, [], ◌∷◌, map, if◌then◌else◌, arith, compare, Ordering, All,
  Option-cases, inl, inr,
}
use trt_llm_rs.Prelude.Counts.{count, count-Perm}
use trt_llm_rs.Prelude.Float.{Floats}
use trt_llm_rs.Prelude.Assoc.{
  Map, lookup, Distinct, insert-Distinct, remove-Distinct, All-insert, All-remove, All-lookup,
}
use trt_llm_rs.Prelude.Sort.{sort_by-IsSorted, sort_by-perm, IsSorted, key-IsTotal, compare-IsTotal}
use mathlib.Core.List.Perm
use trt_llm_rs.Router.Registry.{
  WorkerRole, WorkerLoad, WorkerState, WorkerRegistry, new, register, deregister, get, update_load,
  IsKeyed, is_live, live_of, live,
}

-- Each worker stands under its own id, once.
pub record IsRegistry {F : Type 0} (g : WorkerRegistry F) : Type 0 where
  pub keyed : All IsKeyed g.workers
  pub distinct : Distinct g.workers

module _ {F : Type 0} where
  new-IsRegistry : (ttl : F) → IsRegistry (new ttl)
  unfolding new
  new-IsRegistry ttl = record { keyed = tt; distinct = tt }

  pub register-IsRegistry :
      (w : WorkerState F) (g : WorkerRegistry F) → IsRegistry g → IsRegistry (register w g)
  unfolding register
  register-IsRegistry w g v = record {
    keyed = All-insert IsKeyed w.id w g.workers refl v.keyed;
    distinct = insert-Distinct w.id w g.workers v.distinct;
  }

  deregister-IsRegistry :
      (id : ℕ) (g : WorkerRegistry F) → IsRegistry g → IsRegistry (deregister id g).0
  unfolding deregister
  deregister-IsRegistry id g v = record {
    keyed = All-remove IsKeyed id g.workers v.keyed;
    distinct = remove-Distinct id g.workers v.distinct;
  }

  pub update_load-IsRegistry :
      (id : ℕ) (load : WorkerLoad F) (g : WorkerRegistry F)
      → IsRegistry g
      → IsRegistry (update_load id load g)
  unfolding update_load
  update_load-IsRegistry id load g v = elim (Option-cases (lookup id g.workers)) [
    | inl n ↦ rw (n, update_load) v
    | inr (w, e) ↦
        rw (e, update_load)
          (record {
            keyed =
                All-insert IsKeyed id _ g.workers (All-lookup IsKeyed id w g.workers e v.keyed)
                  v.keyed;
            distinct = insert-Distinct id _ g.workers v.distinct;
          })
  ]

module _ {F : Type 0} (fl : Floats F) where
  ids-live_of :
      (role : WorkerRole) (now ttl : F) (m : Map (WorkerState F)) (id : ℕ)
      → All IsKeyed m
      → Distinct m
      → count id (map (λ w. w.id) (live_of fl role now ttl m))
        ≡ elim (lookup id m) [ none ↦ 0 | some w ↦ if is_live fl role now ttl w then 1 else 0 ]
  unfolding live_of lookup
  ids-live_of role now ttl [] id k d = refl
  ids-live_of role now ttl ((j, w) ∷ m) id (k, ks) (d, ds) =
      ground
        (arith, k, d, ids-live_of role now ttl m id ks ds, λ (e : j ≡ id). ap (λ i. lookup i m) e)

  -- `live` returns exactly the workers of the role that are healthy and whose load is not stale,
  -- each once, in the order of their ids.
  pub live_exact :
      (role : WorkerRole) (now : F) (g : WorkerRegistry F)
      → IsRegistry g
      → ((id : ℕ)
          → count id (map (λ w. w.id) (live fl role now g)) ≡ elim (get id g) [
            | none ↦ 0
            | some w ↦ if is_live fl role now g.stale_after_ms w then 1 else 0
          ])
        × IsSorted (λ (a b : WorkerState F). compare a.id b.id) (live fl role now g)
  unfolding live get
  live_exact role now g v =
      let by_id : WorkerState F → WorkerState F → Ordering = λ a b. compare a.id b.id in
      let ws = live_of fl role now g.stale_after_ms g.workers in
      (
        (λ id.
            count-Perm id _ _ (Perm.map (λ w. w.id) (sort_by-perm by_id ws))
            ∙ ids-live_of role now g.stale_after_ms g.workers id v.keyed v.distinct),
        sort_by-IsSorted by_id (key-IsTotal (λ (w : WorkerState F). w.id) compare compare-IsTotal)
            ws,
      )
