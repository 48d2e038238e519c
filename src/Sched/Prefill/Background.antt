-- ===== src/Sched/Prefill/Background.antt =====
-- The demoted requests in `plan` of crates/sched/src/prefill.rs.
use trt_llm_rs.Prelude.{
  ◌≡◌, ap, ◌∙◌, sym, subst, some, List, [], ◌∷◌, Bool, true, false, arith, All, All-append,
}
use mathlib.Core.Option.{some-injective}
use trt_llm_rs.Prelude.Counts.{contains}
use trt_llm_rs.Prelude.Float.{Floats}
use trt_llm_rs.Prelude.Assoc.{Map}
use trt_llm_rs.Sched.Policy.{RequestId, JobOrdering}
use trt_llm_rs.Sched.Prefill.{
  PendingPrefill, PrefillChunk, PrefillBatch, PrefillTuning, PrefillScheduler, Filling, Flow, stop,
  go, visit, fill_pass, fill, plan, plan_order, plan_rate, secondary_of, default_batch,
}
use trt_llm_rs.Sched.Prefill.Rounds.{
  Visit, halts, skips, halts_limited, skips_limited, takes, visit-Visit,
}
use trt_llm_rs.Sched.Prefill.Deadlines.{contains-All}
use trt_llm_rs.Sched.Prefill.Batch.{planned, idle, plan-Planned}

-- The chunks are of requests of a list.
abbrev pub Among : List RequestId → List PrefillChunk → Type 0
Among known chunks = All (λ c. contains known c.id ≡ true) chunks

module _ {F : Type 0} (fl : Floats F) (tuning : PrefillTuning F) (queue : Map (PendingPrefill F))
    (now rate : F) (known : List RequestId) where
  abbrev FlowAmong : Flow F → Type 0
  FlowAmong (stop b) = Among known b.chunks
  FlowAmong (go b) = Among known b.chunks

  Visit-FlowAmong :
      (pass : Bool) (id : RequestId) (b : Filling F) (r : Flow F)
      → contains known id ≡ true
      → Visit fl tuning queue now rate pass id b r
      → Among known b.chunks
      → FlowAmong r
  Visit-FlowAmong pass id b _ m halts v = v
  Visit-FlowAmong pass id b _ m skips v = v
  Visit-FlowAmong pass id b _ m halts_limited v = v
  Visit-FlowAmong pass id b _ m skips_limited v = v
  Visit-FlowAmong pass id b _ m (takes p want e w r t l free) v =
      All-append (λ c. contains known c.id ≡ true) b.chunks _ v (m, tt)

  abbrev FillingAmong : Filling F → Type 0
  FillingAmong b = Among known b.chunks

  fill_pass-Among :
      (pass : Bool) (ids : List RequestId) (b : Filling F)
      → All (λ id. contains known id ≡ true) ids
      → FillingAmong b
      → FillingAmong (fill_pass fl tuning queue now rate pass ids b)
  unfolding fill_pass
  fill_pass-Among pass [] b m v = v
  fill_pass-Among pass (id ∷ ids) b (m, ms) v =
      elim (visit fl tuning queue now rate pass id b)
          as (λ r.
            FlowAmong r
            → FillingAmong (elim r [
              | stop b' ↦ b'
              | go b' ↦ fill_pass fl tuning queue now rate pass ids b'
            ])) [ stop b' ↦ λ v'. v' | go b' ↦ λ v'. fill_pass-Among pass ids b' ms v' ]
        (Visit-FlowAmong pass id b _ m (visit-Visit fl tuning queue now rate pass id b) v)

  fill-Among :
      (primary : List RequestId)
      → All (λ id. contains known id ≡ true) primary
      → FillingAmong (fill fl tuning queue now rate primary [])
  unfolding fill fill_pass
  fill-Among primary ms = fill_pass-Among false primary _ ms tt

module _ {F : Type 0} (fl : Floats F) where
  -- If demoted requests are not to run behind the others, they do not run at all: every chunk of the
  -- batch is of a request that the policy put on time.
  pub plan-Among :
      (s : PrefillScheduler F) (now : F) (o : JobOrdering) (batch : PrefillBatch F)
      (s' : PrefillScheduler F)
      → s.tuning.demote_hopeless ≡ false
      → plan_order fl s now ≡ some o
      → plan fl s now ≡ some (batch, s')
      → Among o.on_time batch.chunks
  plan-Among s now o batch s' off q e = elim (plan-Planned fl s now) [
    | idle _ e' ↦
        subst (λ (r : PrefillBatch F × PrefillScheduler F). Among o.on_time r.0.chunks)
          (some-injective (default_batch fl, s) (batch, s') (sym e' ∙ e)) tt
    | planned o' _ q' e' ↦
        subst (λ (r : PrefillBatch F × PrefillScheduler F). Among o.on_time r.0.chunks)
          (some-injective (_, _) (batch, s') (sym e' ∙ e))
          (subst
            (λ known.
              Among known
                (fill fl s.tuning s.queue now (plan_rate fl s) o'.on_time
                  (secondary_of fl s.tuning o')).chunks)
            (ap (λ (o : JobOrdering). o.on_time) (some-injective o' o (sym q' ∙ q)))
            (subst
              (λ ids.
                Among o'.on_time
                  (fill fl s.tuning s.queue now (plan_rate fl s) o'.on_time ids).chunks)
              (sym (none_behind o'))
              (fill-Among fl s.tuning s.queue now (plan_rate fl s) o'.on_time o'.on_time
                (contains-All o'.on_time o'.on_time (λ a h. h)))))
  ]
    where
      none_behind : (o : JobOrdering) → secondary_of fl s.tuning o ≡ []
      none_behind o = ground (arith, off)
