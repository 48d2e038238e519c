-- ===== src/Sched/Prefill/Batch.antt =====
-- What the batches of `plan` in crates/sched/src/prefill.rs hold.
use trt_llm_rs.Prelude.{
  ℕ, ◌+◌, ◌≤◌, ◌<◌, ◌≡◌, refl, some, List, [], ◌∷◌, ◌++◌, Bool, true, false, ◌==◌, arith,
  Bool-cases, inl, inr, length, length-append, All, All-append, map,
}
use mathlib.Core.List.{Perm}
use trt_llm_rs.Prelude.Float.{Floats}
use trt_llm_rs.Prelude.Assoc.{Map, lookup}
use trt_llm_rs.Sched.Policy.{RequestId, Job, JobOrdering, all, ids}
use trt_llm_rs.Sched.Policy.Permutes.{order_jobs-perm}
use trt_llm_rs.Sched.Prefill.{
  PendingPrefill, PrefillChunk, PrefillBatch, PrefillTuning, PrefillScheduler, Filling, Flow, stop,
  go, job_of, pending_in_order, visit, fill_pass, fill, default_batch, batch_of, plan, plan_order,
  plan_rate, secondary_of, queue_depth,
}
use trt_llm_rs.Sched.Prefill.Rounds.{
  Visit, halts, skips, halts_limited, skips_limited, takes, visit-Visit,
}

abbrev pub sum_tokens : List PrefillChunk → ℕ
sum_tokens [] = 0
sum_tokens (c ∷ cs) = c.tokens + sum_tokens cs

sum_tokens-append :
    (cs ds : List PrefillChunk) → sum_tokens (cs ++ ds) ≡ sum_tokens cs + sum_tokens ds
sum_tokens-append [] ds = omega arith
sum_tokens-append (c ∷ cs) ds = omega (arith, sum_tokens-append cs ds)

-- The next tokens of a queued request, at least one of them and none that it does not have.
pub record IsSlice {F : Type 0} (queue : Map (PendingPrefill F)) (c : PrefillChunk) : Type 0 where
  pub of : PendingPrefill F
  pub queued : lookup c.id queue ≡ some of
  pub resumes : c.start ≡ of.done_tokens
  pub runs : 0 < c.tokens
  pub inside : c.start + c.tokens ≤ of.compute_tokens
  pub flagged : c.completes ≡ (c.start + c.tokens == of.compute_tokens)

-- A batch within the budgets, made of slices.
pub record IsBatch {F : Type 0} (tuning : PrefillTuning F) (queue : Map (PendingPrefill F))
    (chunks : List PrefillChunk) (total : ℕ) : Type 0 where
  pub slices : All (IsSlice queue) chunks
  pub summed : total ≡ sum_tokens chunks
  pub in_budget : total ≤ tuning.chunk_tokens
  pub in_width : length chunks ≤ tuning.max_seqs

module _ {F : Type 0} (fl : Floats F) (tuning : PrefillTuning F) (queue : Map (PendingPrefill F))
    (now rate : F) where
  abbrev IsFilled : Filling F → Type 0
  IsFilled b = IsBatch tuning queue b.chunks b.total_tokens

  abbrev IsFlow : Flow F → Type 0
  IsFlow (stop b) = IsFilled b
  IsFlow (go b) = IsFilled b

  Visit-IsFlow :
      (pass : Bool) (id : RequestId) (b : Filling F) (r : Flow F)
      → Visit fl tuning queue now rate pass id b r
      → IsFilled b
      → IsFlow r
  Visit-IsFlow pass id b _ halts v = v
  Visit-IsFlow pass id b _ skips v = v
  Visit-IsFlow pass id b _ halts_limited v = v
  Visit-IsFlow pass id b _ skips_limited v = v
  Visit-IsFlow pass id b _ (takes p want e w r t l _) v = record {
    slices = All-append (IsSlice queue) b.chunks _ v.slices (
      record {
        of = p;
        queued = e;
        resumes = refl;
        runs = w;
        inside = omega arith;
        flagged = ground arith;
      },
      tt,
    );
    summed = omega (arith, v.summed, sum_tokens-append b.chunks (_ ∷ []));
    in_budget = t;
    in_width = omega (arith, length-append b.chunks (_ ∷ []));
  }

  fill_pass-IsFilled :
      (pass : Bool) (ids : List RequestId) (b : Filling F)
      → IsFilled b
      → IsFilled (fill_pass fl tuning queue now rate pass ids b)
  unfolding fill_pass
  fill_pass-IsFilled pass [] b v = v
  fill_pass-IsFilled pass (id ∷ ids) b v =
      elim (visit fl tuning queue now rate pass id b)
          as (λ r.
            IsFlow r
            → IsFilled (elim r [
              | stop b' ↦ b'
              | go b' ↦ fill_pass fl tuning queue now rate pass ids b'
            ])) [ stop b' ↦ λ v'. v' | go b' ↦ λ v'. fill_pass-IsFilled pass ids b' v' ]
        (Visit-IsFlow pass id b _ (visit-Visit fl tuning queue now rate pass id b) v)

  pub fill-IsBatch :
      (primary secondary : List RequestId)
      → IsFilled (fill fl tuning queue now rate primary secondary)
  unfolding fill
  fill-IsBatch primary secondary = fill_pass-IsFilled true secondary _ (
      fill_pass-IsFilled false primary _
        (record { slices = tt; summed = refl; in_budget = omega arith; in_width = omega arith }))

module _ {F : Type 0} (fl : Floats F) where
  abbrev pub jobs_of : PrefillScheduler F → List (Job F)
  jobs_of s = map (job_of fl (plan_rate fl s)) (pending_in_order s.order s.queue)

  -- What `plan` does with the order of the policy.
  pub data Planned (s : PrefillScheduler F) (now : F) : Type 0 where
    idle : length s.queue ≡ 0 → plan fl s now ≡ some (default_batch fl, s) → Planned s now
    planned :
        (o : JobOrdering)
        → Perm (all o) (ids (jobs_of s))
        → plan_order fl s now ≡ some o
        → plan fl s now
          ≡ some (
            batch_of fl (plan_rate fl s) (
                fill fl s.tuning s.queue now
                  (plan_rate fl s)
                  o.on_time
                  (secondary_of fl s.tuning o)),
            record s { demoted = secondary_of fl s.tuning o },
          )
        → Planned s now

  pub plan-Planned : (s : PrefillScheduler F) (now : F) → Planned s now
  unfolding plan plan_order queue_depth
  plan-Planned s now = elim (Bool-cases (length s.queue == 0)) [
    | inl e ↦ idle (ground arith) (rw e refl)
    | inr e ↦
        let (o, q, perm, _) = order_jobs-perm fl (jobs_of s) now s.tuning.policy in
        planned o perm q (rw (e, q) refl)
  ]

  -- `plan` never panics, and its batch is within the token budget and the number of sequences, its
  -- total is that of its chunks, and each chunk is the next tokens of a queued request, flagged
  -- exactly when it finishes the request. Nothing but the set of demoted requests changes.
  pub plan-IsBatch :
      (s : PrefillScheduler F) (now : F)
      → (batch : PrefillBatch F) × (s' : PrefillScheduler F) × (plan fl s now ≡ some (batch, s'))
        × IsBatch s.tuning s.queue batch.chunks batch.total_tokens
        × (s' ≡ record s { demoted = s'.demoted })
  plan-IsBatch s now = elim (plan-Planned s now) [
    | idle _ e ↦ (
      _,
      _,
      e,
      record { slices = tt; summed = refl; in_budget = omega arith; in_width = omega arith },
      refl,
    )
    | planned o _ _ e ↦
        (_, _, e, fill-IsBatch fl s.tuning s.queue now (plan_rate fl s) o.on_time _, refl)
  ]
