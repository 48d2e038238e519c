-- ===== src/Sched/Policy.antt =====
-- crates/sched/src/policy.rs: the orders of the prefill queue, Moore-Hodgson among them.
pub mod Permutes
pub mod Feasible
use trt_llm_rs.Prelude.{
  ℕ, suc, Option, none, some, List, [], ◌∷◌, ◌++◌, map, Bool, true, false, compare, Ordering,
  if◌then◌else◌,
}
use trt_llm_rs.Prelude.Float.{Floats}
use trt_llm_rs.Prelude.Sort.{sort_by, then_cmp}
use trt_llm_rs.Prelude.Pick.{enumerate_from, max_by, remove_at}

abbrev pub RequestId : Type 0
RequestId = ℕ

pub data PrefillPolicy : Type 0 where
  fcfs edf moore_hodgson : PrefillPolicy

pub record Job (F : Type 0) : Type 0 where
  pub id : RequestId
  pub arrival_ms : F
  pub deadline_ms : F
  pub service_ms : F

pub record JobOrdering : Type 0 where
  pub on_time : List RequestId
  pub demoted : List RequestId

-- `JobOrdering::all`.
abbrev pub all : JobOrdering → List RequestId
all o = o.on_time ++ o.demoted

infixl 5 ◌>>=◌
abbrev pub ◌>>=◌ {ℓ κ} : {A : Type ℓ} {B : Type κ} → Option A → (A → Option B) → Option B
none >>= f = none
some a >>= f = f a

abbrev pub ids : {F : Type 0} → List (Job F) → List RequestId
ids = map (λ j. j.id)

-- What the loop of `moore_hodgson` carries.
pub record Schedule (F : Type 0) : Type 0 where
  pub accepted : List (Job F)
  pub demoted : List (Job F)
  pub clock : F

module _ {F : Type 0} (fl : Floats F) where
  unfoldable pub by_arrival : Job F → Job F → Ordering
  by_arrival a b = then_cmp (fl.total_cmp a.arrival_ms b.arrival_ms) (compare a.id b.id)

  unfoldable pub by_deadline : Job F → Job F → Ordering
  by_deadline a b = then_cmp (fl.total_cmp a.deadline_ms b.deadline_ms) (compare a.id b.id)

  unfoldable pub by_service : Job F → Job F → Ordering
  by_service a b =
      then_cmp
        (then_cmp (fl.total_cmp a.service_ms b.service_ms)
          (fl.total_cmp a.deadline_ms b.deadline_ms))
        (compare a.id b.id)

  -- The longest accepted job goes; `none` is the panic of `expect` or `remove`.
  unfoldable pub evict : Schedule F → Option (Schedule F)
  evict s = do
    (victim, _) ← max_by (λ a b. by_service a.1 b.1) (enumerate_from 0 s.accepted)
    (removed, rest) ← remove_at victim s.accepted
    some (record {
      accepted = rest;
      demoted = s.demoted ++ removed ∷ [];
      clock = fl.sub s.clock removed.service_ms;
    })

  -- One round of the loop.
  unfoldable pub accept : Job F → Schedule F → Option (Schedule F)
  accept job s =
      let s' : Schedule F = record {
        accepted = s.accepted ++ job ∷ [];
        demoted = s.demoted;
        clock = fl.add s.clock job.service_ms;
      } in
      if fl.lt job.deadline_ms s'.clock then evict s' else some s'

  unfoldable pub accept_all : List (Job F) → Schedule F → Option (Schedule F)
  accept_all [] s = some s
  accept_all (job ∷ jobs) s = do s' ← accept job s; accept_all jobs s'

  unfoldable pub moore_hodgson_order : List (Job F) → F → Option JobOrdering
  moore_hodgson_order jobs now = do
    s ← accept_all (sort_by by_deadline jobs) (record { accepted = []; demoted = []; clock = now })
    some (record { on_time = ids s.accepted; demoted = ids (sort_by by_deadline s.demoted) })

  unfoldable pub order_jobs : List (Job F) → F → PrefillPolicy → Option JobOrdering
  order_jobs jobs now fcfs = some (record { on_time = ids (sort_by by_arrival jobs); demoted = [] })
  order_jobs jobs now edf = some (record { on_time = ids (sort_by by_deadline jobs); demoted = [] })
  order_jobs jobs now moore_hodgson = moore_hodgson_order jobs now
