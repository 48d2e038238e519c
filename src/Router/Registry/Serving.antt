-- ===== src/Router/Registry/Serving.antt =====
-- router/src/registry.rs, `live`: every listed worker is live and registered under its id.
use trt_llm_rs.Prelude.{
  ◌≡◌, inl, inr, sym, ap, subst, ◌∙◌, some, [], ◌∷◌, true, arith, compare, All, All-weaken, if_elim,
  ◌==◌, Bool-cases,
}
use trt_llm_rs.Prelude.Float.{Floats}
use trt_llm_rs.Prelude.Assoc.{Map, lookup, Distinct}
use trt_llm_rs.Prelude.Sort.{All-sort_by}
use trt_llm_rs.Router.Registry.{
  WorkerRole, WorkerState, WorkerRegistry, IsKeyed, is_live, live, live_of, get,
}
use trt_llm_rs.Router.Registry.Live.{IsRegistry}

Distinct-lookup {ℓ} : {V : Type ℓ} (m : Map V) → Distinct m → All (λ e. lookup e.0 m ≡ some e.1) m
unfolding lookup
Distinct-lookup [] d = tt
Distinct-lookup ((j, w) ∷ m) (fresh, d) = (
  ground arith,
  All-weaken (λ e. lookup e.0 m ≡ some e.1) (λ e. lookup e.0 ((j, w) ∷ m) ≡ some e.1) m
      (λ e found. elim (Bool-cases (j == e.0)) [
        | inl same ↦ cc (sym found ∙ ap (λ k. lookup k m) (sym (ground arith)) ∙ fresh)
        | inr other ↦ rw other found
      ])
      (Distinct-lookup m d),
)

module _ {F : Type 0} (fl : Floats F) where
  -- A worker that is registered and live in a role.
  pub record IsServing (role : WorkerRole) (now : F) (g : WorkerRegistry F) (w : WorkerState F)
      : Type 0 where
    pub alive : is_live fl role now g.stale_after_ms w ≡ true
    pub registered : get w.id g ≡ some w

  live_of-IsServing :
      (role : WorkerRole) (now : F) (g : WorkerRegistry F) (m : Map (WorkerState F))
      → All IsKeyed m
      → All (λ e. lookup e.0 g.workers ≡ some e.1) m
      → All (IsServing role now g) (live_of fl role now g.stale_after_ms m)
  unfolding live_of get
  live_of-IsServing role now g [] ks fs = tt
  live_of-IsServing role now g ((j, w) ∷ m) (k, ks) (f, fs) =
      if_elim (All (IsServing role now g)) (is_live fl role now g.stale_after_ms w)
        (λ alive. (
          record { alive = alive; registered = subst (λ i. lookup i g.workers ≡ some w) (sym k) f },
          live_of-IsServing role now g m ks fs,
        ))
        (λ _. live_of-IsServing role now g m ks fs)

  pub live-IsServing :
      (role : WorkerRole) (now : F) (g : WorkerRegistry F)
      → IsRegistry g
      → All (IsServing role now g) (live fl role now g)
  unfolding live
  live-IsServing role now g v =
      All-sort_by (IsServing role now g) (λ a b. compare a.id b.id)
        (live_of fl role now g.stale_after_ms g.workers)
        (live_of-IsServing role now g g.workers v.keyed (Distinct-lookup g.workers v.distinct))
