-- ===== src/Sched/Prefill/Progress.antt =====
-- When `plan` of crates/sched/src/prefill.rs runs something.
use trt_llm_rs.Prelude.{
  ℕ, ◌-◌, ◌≤◌, ◌<◌, ◌≡◌, refl, ap, ◌∙◌, sym, min, some, List, [], ◌∷◌, ◌++◌, Bool, true, false, leb,
  ◌==◌, arith, subst, Option-cases, Bool-cases, if_elim, inl, inr, ◌⊎◌, length, length-append, All,
  map,
}
use mathlib.Core.Option.{some-injective}
use trt_llm_rs.Prelude.Counts.{contains, count, contains-count, count-append, count-Perm}
use trt_llm_rs.Prelude.Float.{Floats}
use trt_llm_rs.Prelude.Assoc.{Map, lookup}
use trt_llm_rs.Sched.Policy.{RequestId, ids}
use trt_llm_rs.Sched.Prefill.{
  PendingPrefill, PrefillChunk, PrefillBatch, PrefillTuning, PrefillScheduler, Filling, Flow, stop,
  go, remaining, offer, visit, fill_pass, fill, plan, plan_rate, secondary_of, pending_in_order,
  job_of,
}
use trt_llm_rs.Sched.Prefill.Queue.{IsQueue}
use trt_llm_rs.Sched.Prefill.Rounds.{
  Visit, halts, skips, halts_limited, skips_limited, takes, visit-Visit,
}
use trt_llm_rs.Sched.Prefill.Batch.{planned, idle, plan-Planned, IsSlice, sum_tokens, fill-IsBatch}

module _ {F : Type 0} (fl : Floats F) (tuning : PrefillTuning F) (queue : Map (PendingPrefill F))
    (now rate : F) where
  abbrev IsRunning : Filling F → Type 0
  IsRunning b = 0 < length b.chunks

  abbrev Runs : Flow F → Type 0
  Runs (stop b) = 0 < length b.chunks
  Runs (go b) = 0 < length b.chunks

  Visit-Runs :
      (pass : Bool) (id : RequestId) (b : Filling F) (r : Flow F)
      → Visit fl tuning queue now rate pass id b r
      → 0 < length b.chunks
      → Runs r
  Visit-Runs pass id b _ halts v = v
  Visit-Runs pass id b _ skips v = v
  Visit-Runs pass id b _ halts_limited v = v
  Visit-Runs pass id b _ skips_limited v = v
  Visit-Runs pass id b _ (takes p want e w r t l free) v =
      omega (arith, length-append b.chunks (_ ∷ []))

  fill_pass-Runs :
      (pass : Bool) (ids : List RequestId) (b : Filling F)
      → 0 < length b.chunks
      → IsRunning (fill_pass fl tuning queue now rate pass ids b)
  unfolding fill_pass
  fill_pass-Runs pass [] b v = v
  fill_pass-Runs pass (id ∷ ids) b v =
      elim (visit fl tuning queue now rate pass id b)
          as (λ r.
            Runs r
            → IsRunning (elim r [
              | stop b' ↦ b'
              | go b' ↦ fill_pass fl tuning queue now rate pass ids b'
            ])) [ stop b' ↦ λ v'. v' | go b' ↦ λ v'. fill_pass-Runs pass ids b' v' ]
        (Visit-Runs pass id b _ (visit-Visit fl tuning queue now rate pass id b) v)

  -- What a round does to an empty batch that has room.
  abbrev Start : RequestId → Filling F → Flow F → Type 0
  Start id b (stop b') = ⊥
  Start id b (go b') =
      (((p : PendingPrefill F) → lookup id queue ≡ some p → remaining p ≡ 0) × (b' ≡ b))
      ⊎ (0 < length b'.chunks)

  offer-Start :
      (pass : Bool) (id : RequestId) (p : PendingPrefill F) (want : ℕ) (b : Filling F)
      → b.chunks ≡ []
      → Start id b (offer fl tuning queue now rate pass id p want b)
  unfolding offer
  offer-Start pass id p want b e = rw e (inr (omega arith))

  visit-Start :
      (pass : Bool) (id : RequestId) (b : Filling F)
      → b.chunks ≡ []
      → b.total_tokens ≡ 0
      → 0 < tuning.max_seqs
      → 0 < tuning.chunk_tokens
      → Start id b (visit fl tuning queue now rate pass id b)
  unfolding visit
  visit-Start pass id b e z m c =
      if_elim (Start id b) (leb tuning.max_seqs (length b.chunks))
        (λ full. absurd (ground (arith, ap length e)))
        (λ room.
          if_elim (Start id b) (tuning.chunk_tokens - b.total_tokens == 0)
            (λ full. absurd (ground arith))
            (λ left. elim (Option-cases (lookup id queue)) [
              | inl q ↦ rw q (inl ((λ p q'. absurd (ground arith)), refl))
              | inr (p, q) ↦ rw q (
                  if_elim (Start id b)
                    (min (remaining p) (tuning.chunk_tokens - b.total_tokens) == 0)
                    (λ none_left. inl (
                      (λ p' q'.
                          subst (λ (q : PendingPrefill F). remaining q ≡ 0)
                            (some-injective p p' (sym q ∙ q')) (ground arith)),
                      refl,
                    ))
                    (λ some_left. offer-Start pass id p _ b e))
            ]))

  -- An empty batch, or one that runs something.
  abbrev IsReady : Filling F → Type 0
  IsReady b = ((b.chunks ≡ []) × (b.total_tokens ≡ 0)) ⊎ IsRunning b

  module _ (seats : 0 < tuning.max_seqs) (budget : 0 < tuning.chunk_tokens) where
    fill_pass-IsReady :
        (pass : Bool) (ids : List RequestId) (b : Filling F)
        → IsReady b
        → IsReady (fill_pass fl tuning queue now rate pass ids b)
    unfolding fill_pass
    fill_pass-IsReady pass [] b v = v
    fill_pass-IsReady pass (id ∷ ids) b (inr v) = inr (fill_pass-Runs pass (id ∷ ids) b v)
    fill_pass-IsReady pass (id ∷ ids) b (inl (e, z)) =
        elim (visit fl tuning queue now rate pass id b)
            as (λ r.
              Start id b r
              → IsReady (elim r [
                | stop b' ↦ b'
                | go b' ↦ fill_pass fl tuning queue now rate pass ids b'
              ])) [
                | stop b' ↦ λ st. elim st [ ]
                | go b' ↦ λ st. elim st [
                  | inl (_, same) ↦
                      fill_pass-IsReady pass ids b'
                        (inl (ap (λ b. b.chunks) same ∙ e, ap (λ b. b.total_tokens) same ∙ z))
                  | inr r ↦ inr (fill_pass-Runs pass ids b' r)
                ]
              ]
          (visit-Start pass id b e z seats budget)

    module _ (id : RequestId) (p : PendingPrefill F) (queued : lookup id queue ≡ some p)
        (left : 0 < remaining p) where
      fill_pass-IsRunning :
          (pass : Bool) (ids : List RequestId) (b : Filling F)
          → contains ids id ≡ true
          → IsReady b
          → IsRunning (fill_pass fl tuning queue now rate pass ids b)
      unfolding fill_pass
      fill_pass-IsRunning pass [] b h v = absurd (ground arith)
      fill_pass-IsRunning pass (j ∷ ids) b h (inr v) = fill_pass-Runs pass (j ∷ ids) b v
      fill_pass-IsRunning pass (j ∷ ids) b h (inl (e, z)) =
          elim (visit fl tuning queue now rate pass j b)
              as (λ r.
                Start j b r
                → IsRunning (elim r [
                  | stop b' ↦ b'
                  | go b' ↦ fill_pass fl tuning queue now rate pass ids b'
                ])) [
                  | stop b' ↦ λ st. elim st [ ]
                  | go b' ↦ λ st. elim st [
                    | inl (done, same) ↦
                        fill_pass-IsRunning pass ids b'
                          (ground (
                            arith,
                            λ (same : j ≡ id). done p (ap (λ k. lookup k queue) same ∙ queued),
                          ))
                          (inl (ap (λ b. b.chunks) same ∙ e, ap (λ b. b.total_tokens) same ∙ z))
                    | inr r ↦ fill_pass-Runs pass ids b' r
                  ]
                ]
            (visit-Start pass j b e z seats budget)

      fill-IsRunning :
          (primary secondary : List RequestId)
          → 0 < count id (primary ++ secondary)
          → IsRunning (fill fl tuning queue now rate primary secondary)
      unfolding fill
      fill-IsRunning primary secondary h =
          let empty : Filling F = record {
            chunks = [];
            total_tokens = 0;
            deadline_limited = false;
            binding_deadline = fl.infinity;
          } in
          elim (Bool-cases (contains primary id)) [
            | inl first ↦
                fill_pass-Runs true secondary _
                  (fill_pass-IsRunning false primary empty first (inl (refl, refl)))
            | inr not_first ↦
                fill_pass-IsRunning true secondary _
                  (ground (
                    arith,
                    count-append id primary secondary,
                    contains-count primary id,
                    contains-count secondary id,
                  ))
                  (fill_pass-IsReady false primary empty (inl (refl, refl)))
          ]

module _ {F : Type 0} (fl : Floats F) (rate : F) where
  count-jobs :
      (id : RequestId) (p : PendingPrefill F) (queue : Map (PendingPrefill F))
      (order : List RequestId)
      → ((j : ℕ) (q : PendingPrefill F) → lookup j queue ≡ some q → q.id ≡ j)
      → lookup id queue ≡ some p
      → count id order ≤ count id (ids (map (job_of fl rate) (pending_in_order order queue)))
  unfolding pending_in_order job_of
  count-jobs id p queue [] k e = omega arith
  count-jobs id p queue (j ∷ order) k e = elim (Option-cases (lookup j queue)) [
    | inl n ↦
        ground (arith, count-jobs id p queue order k e, λ (q : j ≡ id). ap (λ a. lookup a queue) q)
    | inr (q, s) ↦ ground (arith, count-jobs id p queue order k e, k j q s)
  ]

length-lookup : {V : Type 0} (k : ℕ) (v : V) (m : Map V) → length m ≡ 0 → lookup k m ≡ some v → ⊥
unfolding lookup
length-lookup k v [] e q = cc
length-lookup k v (x ∷ m) e q = omega arith

sum_tokens-IsRunning :
    {F : Type 0} (queue : Map (PendingPrefill F)) (cs : List PrefillChunk)
    → 0 < length cs
    → All (IsSlice queue) cs
    → 0 < sum_tokens cs
sum_tokens-IsRunning queue [] h v = omega arith
sum_tokens-IsRunning queue (c ∷ cs) h (v, _) = omega (arith, v.runs)

module _ {F : Type 0} (fl : Floats F) where
  -- While demoted requests may run, a queued request with tokens left to compute, room for a
  -- sequence and a budget of tokens give a batch that is not empty: `plan` never idles over work.
  pub plan-IsRunning :
      (s : PrefillScheduler F) (now : F) (id : RequestId) (p : PendingPrefill F)
      → IsQueue s
      → lookup id s.queue ≡ some p
      → 0 < remaining p
      → 0 < s.tuning.max_seqs
      → 0 < s.tuning.chunk_tokens
      → s.tuning.demote_hopeless ≡ true
      → (batch : PrefillBatch F) × (s' : PrefillScheduler F) × (plan fl s now ≡ some (batch, s'))
        × (0 < length batch.chunks)
        × (0 < batch.total_tokens)
  plan-IsRunning s now id p v q left seats budget demoting = elim (plan-Planned fl s now) [
    | idle empty _ ↦ absurd (length-lookup id p s.queue empty q)
    | planned o perm _ e ↦
        let ran =
          fill-IsRunning fl s.tuning s.queue now (plan_rate fl s) seats budget id p q left o.on_time
            (secondary_of fl s.tuning o)
            (ground (
              arith,
              demoting,
              v.matched id,
              count-Perm id _ _ perm,
              count-jobs fl (plan_rate fl s) id p s.queue s.order v.keyed q,
            )) in
        let batch =
          fill-IsBatch fl s.tuning s.queue now (plan_rate fl s) o.on_time
            (secondary_of fl s.tuning o) in
        (
          _,
          _,
          e,
          ran,
          subst (λ n. 0 < n) (sym batch.summed) (sum_tokens-IsRunning s.queue _ ran batch.slices),
        )
  ]
