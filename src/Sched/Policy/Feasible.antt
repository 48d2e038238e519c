-- ===== src/Sched/Policy/Feasible.antt =====
-- What Moore-Hodgson of crates/sched/src/policy.rs keeps is on time, where no sum is rounded: the
-- times are whole milliseconds.
use trt_llm_rs.Prelude.{
  ℕ, zero, suc, ◌≡◌, refl, ap, ◌∙◌, inl, inr, Bool-cases, sym, subst, some, List, [], ◌∷◌, ◌++◌,
  true, false, compare, All, All-append, All-snoc, All-weaken₂, All-pointwise, arith, Option-cases,
}
use mathlib.Core.List.{Perm}
use mathlib.Core.List.Perm
use mathlib.Core.Option.{some-injective}
use trt_llm_rs.Prelude.Int.{ℤ, pos, ◌+ℤ◌, ◌-ℤ◌, ◌≤ℤ◌, int_laws, eq_of_parts, compare_ℤ-IsTotal}
use trt_llm_rs.Prelude.Whole.{whole}
use trt_llm_rs.Prelude.Sort.{
  sort_by, sort_by-perm, IsTotal, then_cmp-IsTotal, key-IsTotal, compare-IsTotal, le_by, IsSorted,
  sort_by-IsSorted, All-sort_by,
}
use trt_llm_rs.Prelude.Pick.{remove_at, All-remove_at}
use trt_llm_rs.Sched.Policy.Permutes.{evict_pushed, push, accept_all-perm}
use trt_llm_rs.Sched.Policy.{
  Job, Schedule, JobOrdering, moore_hodgson, ids, by_service, by_deadline, accept, accept_all,
  moore_hodgson_order, order_jobs,
}

-- Run one after the other from `t`, every job ends by its deadline.
abbrev pub Feasible : ℤ → List (Job ℤ) → Type 0
Feasible t [] = Unit
Feasible t (j ∷ js) = (t +ℤ j.service_ms ≤ℤ j.deadline_ms) × Feasible (t +ℤ j.service_ms) js

-- When the last of them ends.
abbrev finish : ℤ → List (Job ℤ) → ℤ
finish t [] = t
finish t (j ∷ js) = finish (t +ℤ j.service_ms) js

abbrev DueBy : Job ℤ → Job ℤ → Type 0
DueBy job j = j.deadline_ms ≤ℤ job.deadline_ms

-- `xs` is feasible from `u`, and starts earlier by at least `w` when `job` follows it instead.
Feasible-shift :
    (job : Job ℤ) (xs : List (Job ℤ)) (t u w : ℤ)
    → t +ℤ w ≤ℤ u
    → u ≤ℤ job.deadline_ms
    → job.service_ms ≤ℤ w
    → pos 0 ≤ℤ w
    → Feasible u xs
    → All (DueBy job) xs
    → Feasible t (xs ++ job ∷ [])
Feasible-shift job [] t u w a b c d f due = (omega int_laws, tt)
Feasible-shift job (y ∷ ys) t u w a b c d (f, fs) (due, dues) = (
  omega int_laws,
  Feasible-shift job ys (t +ℤ y.service_ms) (u +ℤ y.service_ms) w (omega int_laws) (omega int_laws)
      c d fs dues,
)

Feasible-remove :
    (job : Job ℤ) (xs : List (Job ℤ)) (t : ℤ) (i : ℕ) (v : Job ℤ) (rest : List (Job ℤ))
    → remove_at i (xs ++ job ∷ []) ≡ some (v, rest)
    → job.service_ms ≤ℤ v.service_ms
    → pos 0 ≤ℤ job.service_ms
    → Feasible t xs
    → All (DueBy job) xs
    → Feasible t rest
unfolding remove_at
Feasible-remove job [] t zero v rest e c d f due =
    subst (λ (q : Job ℤ × List (Job ℤ)). Feasible t q.1) (some-injective _ _ e) tt
Feasible-remove job [] t (suc i) v rest e c d f due = absurd (ground arith)
Feasible-remove job (x ∷ xs) t zero v rest e c d (f, fs) (due, dues) =
    let q : ◌≡◌ {A = Job ℤ × List (Job ℤ)} (x, xs ++ job ∷ []) (v, rest) = some-injective _ _ e in
    let same : x ≡ v = ap (λ (p : Job ℤ × List (Job ℤ)). p.0) q in
    let c' : job.service_ms ≤ℤ x.service_ms = rw same c in
    subst (λ (q : Job ℤ × List (Job ℤ)). Feasible t q.1) q
      (Feasible-shift job xs t (t +ℤ x.service_ms) x.service_ms (omega arith) (omega int_laws) c'
        (omega int_laws) fs dues)
Feasible-remove job (x ∷ xs) t (suc i) v rest e c d (f, fs) (due, dues) =
    elim (Option-cases (remove_at i (xs ++ job ∷ []))) [
      | inl n ↦ absurd (ground arith)
      | inr ((y, others), r) ↦
          let q : ◌≡◌ {A = Job ℤ × List (Job ℤ)} (y, x ∷ others) (v, rest) =
            some-injective _ _ (ground arith) in
          let same : y ≡ v = ap (λ (p : Job ℤ × List (Job ℤ)). p.0) q in
          subst (λ (q : Job ℤ × List (Job ℤ)). Feasible t q.1) q
            (f, Feasible-remove job xs (t +ℤ x.service_ms) i y others r (rw same c) d fs dues)
    ]

finish-shift : (xs : List (Job ℤ)) (t a : ℤ) → finish (t +ℤ a) xs ≡ finish t xs +ℤ a
finish-shift [] t a = refl
finish-shift (x ∷ xs) t a =
    ap (λ u. finish u xs)
      (eq_of_parts (t +ℤ a +ℤ x.service_ms) (t +ℤ x.service_ms +ℤ a) (omega int_laws))
    ∙ finish-shift xs (t +ℤ x.service_ms) a

finish-remove :
    (xs : List (Job ℤ)) (t : ℤ) (i : ℕ) (v : Job ℤ) (rest : List (Job ℤ))
    → remove_at i xs ≡ some (v, rest)
    → finish t xs ≡ finish t rest +ℤ v.service_ms
unfolding remove_at
finish-remove [] t i v rest e = cc
finish-remove (x ∷ xs) t zero v rest e =
    subst (λ (q : Job ℤ × List (Job ℤ)). finish t (x ∷ xs) ≡ finish t q.1 +ℤ q.0.service_ms)
      (some-injective _ _ e) (finish-shift xs t x.service_ms)
finish-remove (x ∷ xs) t (suc i) v rest e = elim (Option-cases (remove_at i xs)) [
  | inl n ↦ absurd (ground arith)
  | inr ((y, others), r) ↦
      subst (λ (q : Job ℤ × List (Job ℤ)). finish t (x ∷ xs) ≡ finish t q.1 +ℤ q.0.service_ms)
        (some-injective {A = Job ℤ × List (Job ℤ)} (y, x ∷ others) (v, rest) (ground arith))
        (finish-remove xs (t +ℤ x.service_ms) i y others r)
]

Feasible-push :
    (job : Job ℤ) (xs : List (Job ℤ)) (t : ℤ)
    → Feasible t xs
    → finish t xs +ℤ job.service_ms ≤ℤ job.deadline_ms
    → Feasible t (xs ++ job ∷ [])
Feasible-push job [] t f h = (h, tt)
Feasible-push job (x ∷ xs) t (f, fs) h = (f, Feasible-push job xs (t +ℤ x.service_ms) fs h)

-- Between two rounds: what is accepted is feasible, and `clock` is when its last job ends.
record Sound (now : ℤ) (s : Schedule ℤ) : Type 0 where
  feasible : Feasible now s.accepted
  clock : s.clock ≡ finish now s.accepted

service-le : (a b : Job ℤ) → le_by (by_service whole) a b ≡ true → a.service_ms ≤ℤ b.service_ms
unfolding by_service
service-le a b h = ground arith

deadline-le : (a b : Job ℤ) → le_by (by_deadline whole) a b ≡ true → DueBy b a
unfolding by_deadline
deadline-le a b h = ground arith

finish-push :
    (xs : List (Job ℤ)) (job : Job ℤ) (t : ℤ)
    → finish t (xs ++ job ∷ []) ≡ finish t xs +ℤ job.service_ms
finish-push [] job t = refl
finish-push (x ∷ xs) job t = finish-push xs job (t +ℤ x.service_ms)

sub_add : (a b : ℤ) → a +ℤ b -ℤ b ≡ a
sub_add a b = eq_of_parts (a +ℤ b -ℤ b) a (omega int_laws)

early_fits : (a b : ℤ) → whole.lt b a ≡ false → a ≤ℤ b
early_fits a b h = ground arith

accept-Sound :
    (now : ℤ) (job : Job ℤ) (s : Schedule ℤ)
    → pos 0 ≤ℤ job.service_ms
    → All (DueBy job) s.accepted
    → Sound now s
    → (s' : Schedule ℤ) × (accept whole job s ≡ some s')
      × Sound now s'
      × ((k : Job ℤ) → DueBy k job → All (DueBy k) s.accepted → All (DueBy k) s'.accepted)
unfolding accept
accept-Sound now job s positive due w =
    elim (Bool-cases (whole.lt job.deadline_ms (whole.add s.clock job.service_ms))) [
      | inl late ↦
          let (v, s', e, d, longest) = evict_pushed whole (push whole job s) s.accepted job in
          let longer : job.service_ms ≤ℤ v.service_ms = service-le job v (
            All-snoc (λ y. le_by (by_service whole) y v ≡ true) s.accepted job
              (longest compare_ℤ-IsTotal)) in
          let ends : s.clock +ℤ job.service_ms ≡ finish now s'.accepted +ℤ v.service_ms =
            ap (λ t. t +ℤ job.service_ms) w.clock
            ∙ sym (finish-push s.accepted job now)
            ∙ finish-remove (s.accepted ++ job ∷ []) now d.place v s'.accepted d.removed in
          (
            s',
            rw (late, accept) e,
            record {
              feasible =
                  Feasible-remove job s.accepted now d.place v s'.accepted d.removed longer positive
                    w.feasible due;
              clock =
                  d.relieved
                  ∙ ap (λ t. t -ℤ v.service_ms) ends
                  ∙ sub_add (finish now s'.accepted) v.service_ms;
            },
            λ k a accepted.
                All-remove_at (DueBy k) d.place (s.accepted ++ job ∷ []) v s'.accepted d.removed
                  (All-append (DueBy k) s.accepted (job ∷ []) accepted (a, tt)),
          )
      | inr early ↦ (
        push whole job s,
        rw (early, accept),
        record {
          feasible = Feasible-push job s.accepted now w.feasible (
              subst (λ t. t +ℤ job.service_ms ≤ℤ job.deadline_ms) w.clock
                (early_fits (s.clock +ℤ job.service_ms) job.deadline_ms early));
          clock = ap (λ t. t +ℤ job.service_ms) w.clock ∙ sym (finish-push s.accepted job now);
        },
        λ k a accepted. All-append (DueBy k) s.accepted (job ∷ []) accepted (a, tt),
      )
    ]

by_deadline-IsTotal : IsTotal (by_deadline whole)
unfolding by_deadline
by_deadline-IsTotal =
    then_cmp-IsTotal (λ (a b : Job ℤ). whole.total_cmp a.deadline_ms b.deadline_ms) _
      (key-IsTotal (λ (j : Job ℤ). j.deadline_ms) whole.total_cmp compare_ℤ-IsTotal)
      (key-IsTotal (λ (j : Job ℤ). j.id) compare compare-IsTotal)

accept_all-Sound :
    (now : ℤ) (jobs : List (Job ℤ)) (s : Schedule ℤ)
    → All (λ j. pos 0 ≤ℤ j.service_ms) jobs
    → IsSorted (by_deadline whole) jobs
    → All (λ j. All (DueBy j) s.accepted) jobs
    → Sound now s
    → (s' : Schedule ℤ) × (accept_all whole jobs s ≡ some s') × Sound now s'
unfolding accept_all
accept_all-Sound now [] s ps sorted dues w = (s, refl, w)
accept_all-Sound now (job ∷ jobs) s (p, ps) (later, sorted) (due, dues) w =
    let (s₁, e₁, w₁, keep) = accept-Sound now job s p due w in
    let dues₁ =
      All-weaken₂ (λ k. le_by (by_deadline whole) job k ≡ true) (λ k. All (DueBy k) s.accepted)
        (λ k. All (DueBy k) s₁.accepted) jobs (λ k l a. keep k (deadline-le job k l) a) later
        dues in
    let (s₂, e₂, w₂) = accept_all-Sound now jobs s₁ ps sorted dues₁ w₁ in (s₂, rw e₁ e₂, w₂)

-- With times in whole milliseconds and no negative service time, the requests that Moore-Hodgson
-- keeps are those of a list of the queue's jobs which, run in that order from `now`, all end by their
-- deadlines.
pub order_jobs-Feasible :
    (jobs : List (Job ℤ)) (now : ℤ)
    → All (λ j. pos 0 ≤ℤ j.service_ms) jobs
    → (o : JobOrdering) × (kept : List (Job ℤ)) × (dropped : List (Job ℤ)) × (order_jobs whole jobs
          now moore_hodgson
        ≡ some o)
      × (o.on_time ≡ ids kept)
      × Perm (kept ++ dropped) jobs
      × Feasible now kept
unfolding order_jobs moore_hodgson_order
order_jobs-Feasible jobs now ps =
    let start : Schedule ℤ = record { accepted = []; demoted = []; clock = now } in
    let sorted = sort_by (by_deadline whole) jobs in
    let (s, e, w) =
      accept_all-Sound now sorted start (All-sort_by _ (by_deadline whole) jobs ps)
        (sort_by-IsSorted (by_deadline whole) by_deadline-IsTotal jobs)
        (All-pointwise _ (λ j. tt) sorted) (record { feasible = tt; clock = refl }) in
    let (s', e', p) = accept_all-perm whole sorted now in
    (
      record { on_time = ids s.accepted; demoted = ids (sort_by (by_deadline whole) s.demoted) },
      s.accepted,
      s.demoted,
      rw (e, moore_hodgson_order),
      refl,
      Perm.trans
          (subst (λ (r : Schedule ℤ). Perm (r.accepted ++ r.demoted) sorted)
            (some-injective _ _ (sym e' ∙ e)) p)
          (sort_by-perm (by_deadline whole) jobs),
      w.feasible,
    )
