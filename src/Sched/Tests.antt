-- ===== src/Sched/Tests.antt =====
-- Two requests that wait for prefill, and the theorems of Sched at them.
use trt_llm_rs.Prelude.{
  ℕ, ◌<◌, ◌≡◌, refl, true, false, none, some, List, [], ◌∷◌, ◌++◌, arith, if◌then◌else◌, length,
  ◌⊎◌, All, ◌+◌,
}
use mathlib.Core.List.{Perm}
use trt_llm_rs.Prelude.Counts.{contains}
use trt_llm_rs.Prelude.Int.{ℤ, pos, ◌+ℤ◌}
use trt_llm_rs.Prelude.Whole.{whole, div_ℤ}
use trt_llm_rs.Prelude.Assoc
use trt_llm_rs.Prelude.Assoc.{Map}
use trt_llm_rs.Prelude.Sort.{sort_by, insert_by}
use trt_llm_rs.Sched.Policy.{
  Job, JobOrdering, edf, moore_hodgson, order_jobs, by_deadline, all, ids,
}
use trt_llm_rs.Sched.Policy.Feasible.{Feasible, order_jobs-Feasible}
use trt_llm_rs.Sched.Policy.Permutes.{order_jobs-perm}
use trt_llm_rs.Sched.Prefill.{
  PendingPrefill, PrefillBatch, PrefillTuning, PrefillScheduler, complete, plan, plan_order,
  plan_rate, queue_depth, pending_in_order, job_of, fill, fill_pass, visit, offer, finish,
}
use trt_llm_rs.Sched.Prefill.Queue.{IsQueue}
use trt_llm_rs.Sched.Prefill.Finished.{granted, finishes, complete_exact}
use trt_llm_rs.Sched.Prefill.Batch.{IsBatch, plan-IsBatch}
use trt_llm_rs.Sched.Prefill.Deadlines.{MeetsBy, plan-MeetsBy}
use trt_llm_rs.Sched.Prefill.Progress.{plan-IsRunning}
use trt_llm_rs.Sched.Prefill.Background.{Among, plan-Among}

-- The last of these cannot end by its deadline once the others run.
abbrev jobs : List (Job ℤ)
jobs =
    record { id = 1; arrival_ms = pos 0; deadline_ms = pos 5; service_ms = pos 3 }
    ∷ record { id = 2; arrival_ms = pos 0; deadline_ms = pos 9; service_ms = pos 4 }
    ∷ record { id = 3; arrival_ms = pos 1; deadline_ms = pos 10; service_ms = pos 6 }
    ∷ []

abbrev tuning : PrefillTuning ℤ
tuning = record {
  chunk_tokens = 100;
  max_seqs = 4;
  policy = edf;
  demote_hopeless = true;
  tokens_per_ms = pos 2;
  rate_alpha = pos 0;
}

abbrev first : PendingPrefill ℤ
first = record {
  id = 1;
  arrival_ms = pos 0;
  deadline_ms = pos 50;
  compute_tokens = 20;
  done_tokens = 4;
}

abbrev second : PendingPrefill ℤ
second = record {
  id = 2;
  arrival_ms = pos 1;
  deadline_ms = pos 90;
  compute_tokens = 30;
  done_tokens = 0;
}

abbrev third : PendingPrefill ℤ
third = record {
  id = 3;
  arrival_ms = pos 2;
  deadline_ms = pos 90;
  compute_tokens = 8;
  done_tokens = 0;
}

abbrev waiting : PrefillScheduler ℤ
waiting = record {
  tuning = tuning;
  queue = (1, first) ∷ (2, second) ∷ [];
  order = 1 ∷ 2 ∷ [];
  demoted = [];
}

-- The same queue, with no work behind that of the requests on time.
abbrev foreground : PrefillScheduler ℤ
foreground = record waiting { tuning = record tuning { demote_hopeless = false } }

abbrev order : JobOrdering
order = record { on_time = 1 ∷ 2 ∷ []; demoted = [] }

-- The batch of both.
abbrev both : PrefillBatch ℤ
both = record {
  chunks =
      record { id = 1; start = 4; tokens = 16; completes = true }
      ∷ record { id = 2; start = 0; tokens = 30; completes = true }
      ∷ [];
  total_tokens = 46;
  est_service_ms = pos 23;
  deadline_limited = false;
}

waiting-IsQueue : IsQueue waiting
unfolding Assoc.lookup
waiting-IsQueue = record { matched = λ id. ground arith; keyed = λ id p e. ground (arith, e) }

whole_fmin :
    (a b x : ℤ)
    → whole.lt (whole.fmin a b) x ≡ false
    → (whole.lt a x ≡ false) × (whole.lt b x ≡ false)
whole_fmin a b x h = ground arith

order_jobs-Feasible_example :
    (o : JobOrdering) × (kept : List (Job ℤ)) × (dropped : List (Job ℤ)) × (order_jobs whole jobs
        (pos 0)
        moore_hodgson
      ≡ some o)
    × (o.on_time ≡ ids kept)
    × Perm (kept ++ dropped) jobs
    × Feasible (pos 0) kept
order_jobs-Feasible_example =
    order_jobs-Feasible jobs (pos 0) (omega arith, (omega arith, (omega arith, tt)))

order_jobs-perm_example :
    (o : JobOrdering) × (order_jobs whole jobs (pos 0) moore_hodgson ≡ some o)
    × Perm (all o) (ids jobs)
    × ((moore_hodgson ≡ moore_hodgson) ⊎ (o.demoted ≡ []))
order_jobs-perm_example = order_jobs-perm whole jobs (pos 0) moore_hodgson

plan-IsBatch_example :
    (batch : PrefillBatch ℤ) × (s' : PrefillScheduler ℤ) × (plan whole waiting (pos 0)
      ≡ some (batch, s'))
    × IsBatch waiting.tuning waiting.queue batch.chunks batch.total_tokens
    × (s' ≡ record waiting { demoted = s'.demoted })
plan-IsBatch_example = plan-IsBatch whole waiting (pos 0)

plan-MeetsBy_example :
    All
      (MeetsBy whole waiting.queue waiting.demoted (
        finish whole waiting.tuning waiting.queue
          (pos 0)
          (plan_rate whole waiting)
          both.total_tokens))
      both.chunks
unfolding plan plan_order queue_depth pending_in_order job_of order_jobs sort_by insert_by
    by_deadline fill fill_pass visit offer Assoc.lookup div_ℤ ◌+ℤ◌
plan-MeetsBy_example = plan-MeetsBy whole whole_fmin waiting (pos 0) both waiting refl (omega arith)

plan-IsRunning_example :
    (batch : PrefillBatch ℤ) × (s' : PrefillScheduler ℤ) × (plan whole waiting (pos 0)
      ≡ some (batch, s'))
    × (0 < length batch.chunks)
    × (0 < batch.total_tokens)
unfolding Assoc.lookup
plan-IsRunning_example =
    plan-IsRunning whole waiting (pos 0) 1 first waiting-IsQueue refl (omega arith) (omega arith)
      (omega arith) refl

plan-Among_example : Among order.on_time both.chunks
unfolding plan plan_order queue_depth pending_in_order job_of order_jobs sort_by insert_by
    by_deadline fill fill_pass visit offer Assoc.lookup div_ℤ ◌+ℤ◌
plan-Among_example = plan-Among whole foreground (pos 0) order both foreground refl refl refl

-- A batch that finishes the first request and leaves 20 tokens of the second.
abbrev partly : PrefillBatch ℤ
partly = record both {
  chunks =
      record { id = 1; start = 4; tokens = 16; completes = true }
      ∷ record { id = 2; start = 0; tokens = 10; completes = false }
      ∷ [];
  total_tokens = 26;
}

complete_exact_example :
    IsQueue (complete whole partly (pos 100) waiting).0
    × ((id : ℕ)
        → contains (complete whole partly (pos 100) waiting).1 id
          ≡ elim (Assoc.lookup id waiting.queue) [
            | none ↦ false
            | some p ↦ finishes id partly.chunks p
          ])
    × ((id : ℕ)
        → Assoc.lookup id (complete whole partly (pos 100) waiting).0.queue
          ≡ elim (Assoc.lookup id waiting.queue) [
            | none ↦ none
            | some p ↦
                if finishes id partly.chunks p
                then none
                else some (record p { done_tokens = p.done_tokens + granted id partly.chunks })
          ])
complete_exact_example = complete_exact whole partly (pos 100) waiting waiting-IsQueue

abbrev newcomer : PendingPrefill ℤ
newcomer = record second { id = 3 }

-- The second request is demoted.
abbrev crowded : PrefillScheduler ℤ
crowded = record waiting { demoted = 2 ∷ [] }
