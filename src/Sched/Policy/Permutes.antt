-- ===== src/Sched/Policy/Permutes.antt =====
-- Every order of crates/sched/src/policy.rs returns each job of the queue once.
use mathlib.Core.List.{Perm, map-append, append_assoc, append-nil, perm_append_comm, perm_middle}
use mathlib.Core.List.Perm
use trt_llm_rs.Prelude.{
  ℕ, suc, ◌+◌, ◌≡◌, refl, ap, ◌∙◌, ◌⊎◌, inl, inr, Bool-cases, some, List, [], ◌∷◌, ◌++◌, true,
  compare, Ordering, All, get_elem?, arith,
}
use trt_llm_rs.Prelude.Float.{Floats}
use trt_llm_rs.Prelude.Sort.{
  IsTotal, le_by, then_cmp, then_cmp-IsTotal, key-IsTotal, compare-IsTotal, sort_by, sort_by-perm,
}
use trt_llm_rs.Prelude.Pick.{
  enumerate_from, max_by_keeps, le_by-max_by, remove_at, get_elem?-remove_at, remove_at-perm,
}
use trt_llm_rs.Sched.Policy.{
  Job, Schedule, JobOrdering, PrefillPolicy, fcfs, edf, moore_hodgson, all, ids, ◌>>=◌, by_service,
  by_deadline, by_arrival, evict, accept, accept_all, moore_hodgson_order, order_jobs,
}

-- What an enumeration pairs with an index stands at that index.
enumerate_from-get {ℓ} :
    {A : Type ℓ} (xs ys : List A) (n : ℕ)
    → ((i : ℕ) → get_elem? ys (n + i) ≡ get_elem? xs i)
    → All (λ (p : ℕ × A). get_elem? ys p.0 ≡ some p.1) (enumerate_from n xs)
enumerate_from-get [] ys n h = tt
enumerate_from-get (x ∷ xs) ys n h = (
  ap (get_elem? ys) (omega arith) ∙ h 0,
  enumerate_from-get xs ys (suc n) (λ i. ap (get_elem? ys) (omega arith) ∙ h (suc i)),
)

All-enumerate_from {ℓ κ} :
    {A : Type ℓ} (P : A → Type κ) (xs : List A) (n : ℕ)
    → All (λ (p : ℕ × A). P p.1) (enumerate_from n xs)
    → All P xs
All-enumerate_from P [] n h = tt
All-enumerate_from P (x ∷ xs) n (h, hs) = (h, All-enumerate_from P xs (suc n) hs)

-- One accepted job `v` has moved to the demoted ones.
pub record Evicted {F : Type 0} (fl : Floats F) (s : Schedule F) (v : Job F) (s' : Schedule F)
    : Type 0 where
  pub place : ℕ
  pub removed : remove_at place s.accepted ≡ some (v, s'.accepted)
  pub demotes : s'.demoted ≡ s.demoted ++ v ∷ []
  pub relieved : s'.clock ≡ fl.sub s.clock v.service_ms

module _ {F : Type 0} (fl : Floats F) where
  by_service-IsTotal : IsTotal fl.total_cmp → IsTotal (by_service fl)
  unfolding by_service
  by_service-IsTotal t =
      then_cmp-IsTotal
        (λ (a b : Job F).
          then_cmp (fl.total_cmp a.service_ms b.service_ms)
            (fl.total_cmp a.deadline_ms b.deadline_ms))
        _
        (then_cmp-IsTotal (λ (a b : Job F). fl.total_cmp a.service_ms b.service_ms) _
          (key-IsTotal (λ (j : Job F). j.service_ms) fl.total_cmp t)
          (key-IsTotal (λ (j : Job F). j.deadline_ms) fl.total_cmp t))
        (key-IsTotal (λ (j : Job F). j.id) compare compare-IsTotal)

  abbrev pairs : ℕ × Job F → ℕ × Job F → Ordering
  pairs a b = by_service fl a.1 b.1

  -- `evict` succeeds on the schedule with the accepted jobs `acc`, and takes a longest job if
  -- `total_cmp` is a total order.
  abbrev pub Evicts : Schedule F → List (Job F) → Type 0
  Evicts s acc =
      (v : Job F) × (s' : Schedule F) × (evict fl (record s { accepted = acc }) ≡ some s')
      × Evicted fl (record s { accepted = acc }) v s'
      × (IsTotal fl.total_cmp → All (λ y. le_by (by_service fl) y v ≡ true) acc)

  evict-Evicted : (s : Schedule F) (j : Job F) (js : List (Job F)) → Evicts s (j ∷ js)
  unfolding evict
  evict-Evicted s j js =
      let ((i, v), m, at) =
        max_by_keeps pairs (λ (p : ℕ × Job F). get_elem? (j ∷ js) p.0 ≡ some p.1) (0, j)
          (enumerate_from 1 js)
          (enumerate_from-get (j ∷ js) (j ∷ js) 0 (λ i. ap (get_elem? (j ∷ js)) (omega arith))) in
      let (rest, r) = get_elem?-remove_at i (j ∷ js) v at in
      (
        v,
        record {
          accepted = rest;
          demoted = s.demoted ++ v ∷ [];
          clock = fl.sub s.clock v.service_ms;
        },
        rw (m, ◌>>=◌) (rw (r, ◌>>=◌)),
        record { place = i; removed = r; demotes = refl; relieved = refl },
        λ t.
            All-enumerate_from (λ y. le_by (by_service fl) y v ≡ true) (j ∷ js) 0
              (le_by-max_by pairs
                (key-IsTotal (λ (p : ℕ × Job F). p.1) (by_service fl) (by_service-IsTotal t))
                ((0, j) ∷ enumerate_from 1 js) (i, v) m),
      )

  pub evict_pushed :
      (s : Schedule F) (acc : List (Job F)) (job : Job F) → Evicts s (acc ++ job ∷ [])
  evict_pushed s [] job = evict-Evicted s job []
  evict_pushed s (j ∷ js) job = evict-Evicted s j (js ++ job ∷ [])

  jobs_of : Schedule F → List (Job F)
  jobs_of s = s.accepted ++ s.demoted

  Evicted-perm :
      (s : Schedule F) (v : Job F) (s' : Schedule F)
      → Evicted fl s v s'
      → Perm (jobs_of s') (jobs_of s)
  unfolding jobs_of
  Evicted-perm s v s' e = rw e.demotes (
      Perm.trans (Perm.append_left s'.accepted (perm_append_comm s.demoted (v ∷ []))) (
        Perm.trans (perm_middle s'.accepted s.demoted) (
          Perm.append_right s.demoted
            (Perm.symm (remove_at-perm e.place s.accepted v s'.accepted e.removed)))))

  abbrev pub push : Job F → Schedule F → Schedule F
  push job s = record {
    accepted = s.accepted ++ job ∷ [];
    demoted = s.demoted;
    clock = fl.add s.clock job.service_ms;
  }

  push-perm : (job : Job F) (s : Schedule F) → Perm (jobs_of (push job s)) (job ∷ jobs_of s)
  unfolding jobs_of
  push-perm job s = rw append_assoc (perm_middle s.accepted s.demoted)

  -- Taking one job on never panics and loses none.
  accept_lem :
      (job : Job F) (s : Schedule F)
      → (s' : Schedule F) × (accept fl job s ≡ some s') × Perm (jobs_of s') (job ∷ jobs_of s)
  unfolding accept
  accept_lem job s = elim (Bool-cases (fl.lt job.deadline_ms (fl.add s.clock job.service_ms))) [
    | inl late ↦
        let (v, s', e, d, _) = evict_pushed (push job s) s.accepted job in
        (s', rw (late, accept) e, Perm.trans (Evicted-perm (push job s) v s' d) (push-perm job s))
    | inr early ↦ (push job s, rw (early, accept), push-perm job s)
  ]

  accept_all_lem :
      (jobs : List (Job F)) (s : Schedule F)
      → (s' : Schedule F) × (accept_all fl jobs s ≡ some s') × Perm (jobs_of s') (jobs ++ jobs_of s)
  unfolding accept_all
  accept_all_lem [] s = (s, refl, Perm.refl _)
  accept_all_lem (job ∷ jobs) s =
      let (s₁, e₁, p₁) = accept_lem job s in
      let (s₂, e₂, p₂) = accept_all_lem jobs s₁ in
      (
        s₂,
        rw e₁ e₂,
        Perm.trans p₂ (Perm.trans (Perm.append_left jobs p₁) (perm_middle jobs (jobs_of s))),
      )

  pub accept_all-perm :
      (jobs : List (Job F)) (now : F)
      → (s : Schedule F) × (accept_all fl jobs (record { accepted = []; demoted = []; clock = now })
          ≡ some s)
        × Perm (s.accepted ++ s.demoted) jobs
  unfolding jobs_of
  accept_all-perm jobs now =
      let (s, e, p) = accept_all_lem jobs (record { accepted = []; demoted = []; clock = now }) in
      (s, e, Perm.trans p (rw append-nil (Perm.refl jobs)))

  -- Whatever the policy, `order_jobs` never panics, and every job of the queue comes back exactly
  -- once, to run or demoted; only Moore-Hodgson demotes.
  pub order_jobs-perm :
      (jobs : List (Job F)) (now : F) (policy : PrefillPolicy)
      → (o : JobOrdering) × (order_jobs fl jobs now policy ≡ some o)
        × Perm (all o) (ids jobs)
        × ((policy ≡ moore_hodgson) ⊎ (o.demoted ≡ []))
  unfolding order_jobs moore_hodgson_order
  order_jobs-perm jobs now fcfs =
      (_, refl, rw append-nil (Perm.map _ (sort_by-perm (by_arrival fl) jobs)), inr refl)
  order_jobs-perm jobs now edf =
      (_, refl, rw append-nil (Perm.map _ (sort_by-perm (by_deadline fl) jobs)), inr refl)
  order_jobs-perm jobs now moore_hodgson =
      let (s, e, p) = accept_all-perm (sort_by (by_deadline fl) jobs) now in
      (
        record { on_time = ids s.accepted; demoted = ids (sort_by (by_deadline fl) s.demoted) },
        rw (e, moore_hodgson_order),
        rw (← map-append) (
            Perm.map _ (
              Perm.trans (Perm.append_left s.accepted (sort_by-perm (by_deadline fl) s.demoted))
                (Perm.trans p (sort_by-perm (by_deadline fl) jobs)))),
        inl refl,
      )
