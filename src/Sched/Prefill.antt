-- ===== src/Sched/Prefill.antt =====
-- crates/sched/src/prefill.rs: the prefill queue and the assembly of batches. A token count is a
-- `usize`, taken as unbounded.
pub mod Finished
pub mod Queue
pub mod Rounds
pub mod Batch
pub mod Deadlines
pub mod Progress
pub mod Background
use trt_llm_rs.Prelude.{
  ℕ, zero, suc, ◌+◌, ◌-◌, ◌≤◌, min, Option, none, some, List, [], ◌∷◌, ◌++◌, map, Bool, true, false,
  not, ◌&&◌, ltb, leb, ◌==◌, if◌then◌else◌, length,
}
use trt_llm_rs.Prelude.Counts.{contains, retain_ne}
use trt_llm_rs.Prelude.Float.{Floats, clamp}
use trt_llm_rs.Prelude.Assoc.{Map}
use trt_llm_rs.Prelude.Assoc
use trt_llm_rs.Sched.Policy.{
  RequestId, PrefillPolicy, moore_hodgson, Job, JobOrdering, ◌>>=◌, order_jobs,
}

pub record PendingPrefill (F : Type 0) : Type 0 where
  pub id : RequestId
  pub arrival_ms : F
  pub deadline_ms : F
  pub compute_tokens : ℕ
  pub done_tokens : ℕ

pub record PrefillChunk : Type 0 where
  pub id : RequestId
  pub start : ℕ
  pub tokens : ℕ
  pub completes : Bool

pub record PrefillBatch (F : Type 0) : Type 0 where
  pub chunks : List PrefillChunk
  pub total_tokens : ℕ
  pub est_service_ms : F
  pub deadline_limited : Bool

pub record PrefillTuning (F : Type 0) : Type 0 where
  pub chunk_tokens : ℕ
  pub max_seqs : ℕ
  pub policy : PrefillPolicy
  pub demote_hopeless : Bool
  pub tokens_per_ms : F
  pub rate_alpha : F

pub record PrefillScheduler (F : Type 0) : Type 0 where
  pub tuning : PrefillTuning F
  pub queue : Map (PendingPrefill F)
  pub order : List RequestId
  pub demoted : List RequestId

unfoldable pub new : {F : Type 0} → PrefillTuning F → PrefillScheduler F
new tuning = record { tuning = tuning; queue = []; order = []; demoted = [] }

-- `PrefillTuning::default`.
unfoldable pub default_tuning : {F : Type 0} → Floats F → PrefillTuning F
default_tuning fl = record {
  chunk_tokens = 16384;
  max_seqs = 8;
  policy = moore_hodgson;
  demote_hopeless = true;
  tokens_per_ms = fl.literal 68 1;
  rate_alpha = fl.literal 2 10;
}

-- What the loop of `plan` carries.
pub record Filling (F : Type 0) : Type 0 where
  pub chunks : List PrefillChunk
  pub total_tokens : ℕ
  pub deadline_limited : Bool
  pub binding_deadline : F

-- What a round of the loop does next: `break`, or the next round.
pub data Flow (F : Type 0) : Type 0 where
  stop : Filling F → Flow F
  go : Filling F → Flow F

module _ {F : Type 0} where
  -- A saturating subtraction, as `-` on ℕ is.
  abbrev pub remaining : PendingPrefill F → ℕ
  remaining p = p.compute_tokens - p.done_tokens

  abbrev pub is_complete : PendingPrefill F → Bool
  is_complete p = remaining p == 0

  unfoldable pub queue_depth : PrefillScheduler F → ℕ
  queue_depth s = length s.queue

  unfoldable pub sum_remaining : Map (PendingPrefill F) → ℕ
  sum_remaining [] = 0
  sum_remaining ((_, p) ∷ m) = remaining p + sum_remaining m

  unfoldable pub queued_tokens : PrefillScheduler F → ℕ
  queued_tokens s = sum_remaining s.queue

  unfoldable pub enqueue : PendingPrefill F → PrefillScheduler F → PrefillScheduler F
  enqueue p s = record s {
    queue = Assoc.insert p.id p s.queue;
    order = elim (Assoc.lookup p.id s.queue) [ none ↦ s.order ++ p.id ∷ [] | some _ ↦ s.order ];
  }

  unfoldable pub remove :
      RequestId → PrefillScheduler F → PrefillScheduler F × Option (PendingPrefill F)
  remove id s = (
    record s {
      queue = Assoc.remove id s.queue;
      order = retain_ne id s.order;
      demoted = retain_ne id s.demoted;
    },
    Assoc.lookup id s.queue,
  )

  unfoldable pub is_demoted : PrefillScheduler F → RequestId → Bool
  is_demoted s id = contains s.demoted id

  unfoldable pub demoted_count : PrefillScheduler F → ℕ
  demoted_count s = length s.demoted

  -- One chunk of a completed batch: the tokens computed, and whether that finished the request.
  unfoldable pub complete_chunk :
      PrefillChunk
      → Map (PendingPrefill F) × List RequestId
      → Map (PendingPrefill F) × List RequestId
  complete_chunk c (queue, finished) = elim (Assoc.lookup c.id queue) [
    | none ↦ (queue, finished)
    | some p ↦
        let p' = record p { done_tokens = min (p.done_tokens + c.tokens) p.compute_tokens } in
        (Assoc.insert c.id p' queue, if is_complete p' then finished ++ c.id ∷ [] else finished)
  ]

  unfoldable pub complete_chunks :
      List PrefillChunk
      → Map (PendingPrefill F) × List RequestId
      → Map (PendingPrefill F) × List RequestId
  complete_chunks [] st = st
  complete_chunks (c ∷ cs) st = complete_chunks cs (complete_chunk c st)

  unfoldable pub remove_all : List RequestId → PrefillScheduler F → PrefillScheduler F
  remove_all [] s = s
  remove_all (id ∷ ids) s = remove_all ids (remove id s).0

  -- `order.iter().filter_map(|id| queue.get(id))`.
  unfoldable pub pending_in_order :
      List RequestId → Map (PendingPrefill F) → List (PendingPrefill F)
  pending_in_order [] queue = []
  pending_in_order (id ∷ ids) queue =
      let rest = pending_in_order ids queue in
      elim (Assoc.lookup id queue) [ none ↦ rest | some p ↦ p ∷ rest ]

module _ {F : Type 0} (fl : Floats F) where
  -- The moving average of the pool's rate.
  unfoldable pub observe_rate : PrefillTuning F → ℕ → F → PrefillTuning F
  observe_rate tuning total_tokens elapsed_ms =
      if fl.lt (fl.literal 0 1) elapsed_ms && ltb 0 total_tokens
      then (let observed = fl.div (fl.of_ℕ total_tokens) elapsed_ms in
          let a = clamp fl tuning.rate_alpha (fl.literal 0 1) (fl.literal 1 1) in
          record tuning {
            tokens_per_ms =
                fl.add (fl.mul (fl.sub (fl.literal 1 1) a) tuning.tokens_per_ms)
                  (fl.mul a observed);
          })
      else tuning

  unfoldable pub complete :
      PrefillBatch F → F → PrefillScheduler F → PrefillScheduler F × List RequestId
  complete batch elapsed_ms s =
      let (queue, finished) = complete_chunks batch.chunks (s.queue, []) in
      (
        remove_all finished (record s {
          tuning = observe_rate s.tuning batch.total_tokens elapsed_ms;
          queue = queue;
        }),
        finished,
      )

  unfoldable pub job_of : F → PendingPrefill F → Job F
  job_of rate p = record {
    id = p.id;
    arrival_ms = p.arrival_ms;
    deadline_ms = p.deadline_ms;
    service_ms = fl.div (fl.of_ℕ (remaining p)) rate;
  }

  module _ (tuning : PrefillTuning F) (queue : Map (PendingPrefill F)) (now rate : F) where
    -- When a batch of so many tokens ends.
    abbrev pub finish : ℕ → F
    finish tokens = fl.add now (fl.div (fl.of_ℕ tokens) rate)

    -- The end of the body of the loop, for a queued request with `want` tokens to run.
    unfoldable pub offer : Bool → RequestId → PendingPrefill F → ℕ → Filling F → Flow F
    offer pass id p want b =
        let cand_deadline =
          if pass then b.binding_deadline else fl.fmin b.binding_deadline p.deadline_ms in
        let cand_tokens = b.total_tokens + want in
        if ltb 0 (length b.chunks) && fl.lt cand_deadline (finish cand_tokens)
        then (let limited = record b { deadline_limited = true } in
            if pass then stop limited else go limited)
        else go (record b {
          chunks =
              b.chunks
              ++ record {
                id = id;
                start = p.done_tokens;
                tokens = want;
                completes = want == remaining p;
              }
                ∷ [];
          total_tokens = cand_tokens;
          binding_deadline = cand_deadline;
        })

    -- The body of the loop.
    unfoldable pub visit : Bool → RequestId → Filling F → Flow F
    visit pass id b =
        let budget_left = tuning.chunk_tokens - b.total_tokens in
        if leb tuning.max_seqs (length b.chunks)
        then stop b
        else if budget_left == 0
        then stop b
        else elim (Assoc.lookup id queue) [
          | none ↦ go b
          | some p ↦
              let want = min (remaining p) budget_left in
              if want == 0 then go b else offer pass id p want b
        ]

    unfoldable pub fill_pass : Bool → List RequestId → Filling F → Filling F
    fill_pass pass [] b = b
    fill_pass pass (id ∷ ids) b = elim (visit pass id b) [
      | stop b' ↦ b'
      | go b' ↦ fill_pass pass ids b'
    ]

    -- The two passes: the requests on time, then the demoted ones.
    unfoldable pub fill : List RequestId → List RequestId → Filling F
    fill primary secondary = fill_pass true secondary (
        fill_pass false primary (record {
          chunks = [];
          total_tokens = 0;
          deadline_limited = false;
          binding_deadline = fl.infinity;
        }))

  abbrev pub plan_rate : PrefillScheduler F → F
  plan_rate s = fl.fmax s.tuning.tokens_per_ms fl.min_positive

  -- The order that `plan` asks for; `none` is a panic of `order_jobs`.
  unfoldable pub plan_order : PrefillScheduler F → F → Option JobOrdering
  plan_order s now =
      order_jobs fl (map (job_of (plan_rate s)) (pending_in_order s.order s.queue)) now
        s.tuning.policy

  abbrev pub secondary_of : PrefillTuning F → JobOrdering → List RequestId
  secondary_of tuning o = if tuning.demote_hopeless then o.demoted else []

  abbrev pub batch_of : F → Filling F → PrefillBatch F
  batch_of rate b = record {
    chunks = b.chunks;
    total_tokens = b.total_tokens;
    est_service_ms = fl.div (fl.of_ℕ b.total_tokens) rate;
    deadline_limited = b.deadline_limited;
  }

  -- `PrefillBatch::default`.
  abbrev pub default_batch : PrefillBatch F
  default_batch = record {
    chunks = [];
    total_tokens = 0;
    est_service_ms = fl.literal 0 1;
    deadline_limited = false;
  }

  unfoldable pub plan : PrefillScheduler F → F → Option (PrefillBatch F × PrefillScheduler F)
  plan s now = if queue_depth s == 0 then some (default_batch, s) else do
    o ← plan_order s now
    let b = fill s.tuning s.queue now (plan_rate s) o.on_time (secondary_of s.tuning o)
    some (batch_of (plan_rate s) b, record s { demoted = secondary_of s.tuning o })
