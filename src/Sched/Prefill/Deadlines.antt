-- ===== src/Sched/Prefill/Deadlines.antt =====
-- The deadlines that the batches of `plan` in crates/sched/src/prefill.rs keep.
use trt_llm_rs.Prelude.{
  ℕ, ◌≤◌, ◌≡◌, refl, ap, ◌∙◌, sym, some, List, [], ◌∷◌, ◌++◌, Bool, true, false, ◌&&◌, ltb, arith,
  subst, inl, inr, ◌⊎◌, length, All, All-append, All-weaken, All-pointwise,
}
use mathlib.Core.Option.{some-injective}
use trt_llm_rs.Prelude.Counts.{contains}
use trt_llm_rs.Prelude.Float.{Floats}
use trt_llm_rs.Prelude.Assoc.{Map, lookup}
use trt_llm_rs.Sched.Policy.{RequestId}
use trt_llm_rs.Sched.Prefill.{
  PendingPrefill, PrefillChunk, PrefillBatch, PrefillTuning, PrefillScheduler, Filling, Flow, stop,
  go, finish, visit, fill_pass, fill, plan, plan_rate, secondary_of, default_batch,
}
use trt_llm_rs.Sched.Prefill.Rounds.{
  Visit, halts, skips, halts_limited, skips_limited, takes, visit-Visit, bound,
}
use trt_llm_rs.Sched.Prefill.Batch.{planned, idle, plan-Planned}

-- Whether a list holds each number of another.
pub contains-All :
    (xs ys : List ℕ)
    → ((a : ℕ) → contains ys a ≡ true → contains xs a ≡ true)
    → All (λ a. contains xs a ≡ true) ys
contains-All xs [] h = tt
contains-All xs (y ∷ ys) h = (h y (ground arith), contains-All xs ys (λ a e. h a (ground arith)))

one_or_late :
    (cs : List PrefillChunk) (c : PrefillChunk) (late : Bool)
    → (ltb 0 (length cs) && late) ≡ false
    → (length (cs ++ c ∷ []) ≤ 1) ⊎ (late ≡ false)
one_or_late [] c late h = inl (omega arith)
one_or_late (x ∷ xs) c late h = ground arith

-- A chunk of a request that is demoted, or whose deadline is not before `x`.
abbrev pub MeetsBy :
    {F : Type 0} → Floats F → Map (PendingPrefill F) → List RequestId → F → PrefillChunk → Type 0
MeetsBy fl queue demoted x c =
    (contains demoted c.id ≡ true)
    ⊎ ((p : _) × (lookup c.id queue ≡ some p) × (fl.lt p.deadline_ms x ≡ false))

module _ {F : Type 0} (fl : Floats F) (tuning : PrefillTuning F) (queue : Map (PendingPrefill F))
    (now rate : F) (demoted : List RequestId)
    (fmin_law : (a b x : F)
      → fl.lt (fl.fmin a b) x ≡ false
      → (fl.lt a x ≡ false) × (fl.lt b x ≡ false)) where
  -- The binding deadline is not after that of a chunk, and not before the end of the batch.
  record Keeps (b : Filling F) : Type 0 where
    bounds :
        (x : F) → fl.lt b.binding_deadline x ≡ false → All (MeetsBy fl queue demoted x) b.chunks
    ends :
        (length b.chunks ≤ 1)
        ⊎ (fl.lt b.binding_deadline (finish fl tuning queue now rate b.total_tokens) ≡ false)

  abbrev FlowKeeps : Flow F → Type 0
  FlowKeeps (stop b) = Keeps b
  FlowKeeps (go b) = Keeps b

  bound_lem :
      (pass : Bool) (id : RequestId) (p : PendingPrefill F) (b : Filling F) (x : F)
      → (pass ≡ false) ⊎ (contains demoted id ≡ true)
      → lookup id queue ≡ some p
      → fl.lt (bound fl tuning queue now rate pass p b) x ≡ false
      → (fl.lt b.binding_deadline x ≡ false)
        × ((contains demoted id ≡ true)
            ⊎ ((q : PendingPrefill F) × (lookup id queue ≡ some q)
                × (fl.lt q.deadline_ms x ≡ false)))
  bound_lem true id p b x (inl e) q h = absurd (ground arith)
  bound_lem true id p b x (inr e) q h = (h, inl e)
  bound_lem false id p b x m q h =
      let (l, r) = fmin_law b.binding_deadline p.deadline_ms x h in (l, inr (p, q, r))

  Visit-FlowKeeps :
      (pass : Bool) (id : RequestId) (b : Filling F) (r : Flow F)
      → (pass ≡ false) ⊎ (contains demoted id ≡ true)
      → Visit fl tuning queue now rate pass id b r
      → Keeps b
      → FlowKeeps r
  Visit-FlowKeeps pass id b _ m halts v = v
  Visit-FlowKeeps pass id b _ m skips v = v
  Visit-FlowKeeps pass id b _ m halts_limited v = record { bounds = v.bounds; ends = v.ends }
  Visit-FlowKeeps pass id b _ m skips_limited v = record { bounds = v.bounds; ends = v.ends }
  Visit-FlowKeeps pass id b _ m (takes p want e w r t l free) v = record {
    bounds = λ x h.
        let (old, new) = bound_lem pass id p b x m e h in
        All-append (MeetsBy fl queue demoted x) b.chunks _ (v.bounds x old) (new, tt);
    ends = one_or_late b.chunks _ _ free;
  }

  fill_pass-Keeps :
      (pass : Bool) (ids : List RequestId) (b : Filling F)
      → All (λ id. (pass ≡ false) ⊎ (contains demoted id ≡ true)) ids
      → Keeps b
      → Keeps (fill_pass fl tuning queue now rate pass ids b)
  unfolding fill_pass
  fill_pass-Keeps pass [] b m v = v
  fill_pass-Keeps pass (id ∷ ids) b (m, ms) v =
      elim (visit fl tuning queue now rate pass id b)
          as (λ r.
            FlowKeeps r
            → Keeps (elim r [
              | stop b' ↦ b'
              | go b' ↦ fill_pass fl tuning queue now rate pass ids b'
            ])) [ stop b' ↦ λ v'. v' | go b' ↦ λ v'. fill_pass-Keeps pass ids b' ms v' ]
        (Visit-FlowKeeps pass id b _ m (visit-Visit fl tuning queue now rate pass id b) v)

  abbrev IsOnTime : Filling F → Type 0
  IsOnTime b =
      (length b.chunks ≤ 1)
      ⊎ All (MeetsBy fl queue demoted (finish fl tuning queue now rate b.total_tokens)) b.chunks

  fill-MeetsBy :
      (primary : List RequestId) → IsOnTime (fill fl tuning queue now rate primary demoted)
  unfolding fill
  fill-MeetsBy primary =
      let first =
        fill_pass-Keeps false primary _ (All-pointwise _ (λ id. inl refl) primary)
          (record { bounds = λ x h. tt; ends = inl (omega arith) }) in
      let both =
        fill_pass-Keeps true demoted _
          (All-weaken _ _ demoted (λ id h. inr h) (contains-All demoted demoted (λ a e. e)))
          first in
      elim both.ends [ inl one ↦ inl one | inr late ↦ inr (both.bounds _ late) ]

module _ {F : Type 0} (fl : Floats F) where
  -- In a batch of two sequences or more, no request that `plan` has not demoted has its first-token
  -- deadline before the end of the batch, at the rate the pool is believed to run at. Of the floats
  -- it takes that the minimum of two is below a value if one of them is.
  pub plan-MeetsBy :
      ((a b x : F) → fl.lt (fl.fmin a b) x ≡ false → (fl.lt a x ≡ false) × (fl.lt b x ≡ false))
      → (s : PrefillScheduler F) (now : F) (batch : PrefillBatch F) (s' : PrefillScheduler F)
      → plan fl s now ≡ some (batch, s')
      → 2 ≤ length batch.chunks
      → All
          (MeetsBy fl s.queue s'.demoted
            (finish fl s.tuning s.queue now (plan_rate fl s) batch.total_tokens))
          batch.chunks
  plan-MeetsBy law s now batch s' e two = elim (plan-Planned fl s now) [
    | idle _ e' ↦ absurd (idle_lem (some-injective (batch, s') (default_batch fl, s) (sym e ∙ e')))
    | planned o _ _ e' ↦
        subst
          (λ (r : PrefillBatch F × PrefillScheduler F).
            2 ≤ length r.0.chunks
            → All
                (MeetsBy fl s.queue r.1.demoted
                  (finish fl s.tuning s.queue now (plan_rate fl s) r.0.total_tokens))
                r.0.chunks)
          (some-injective (_, _) (batch, s') (sym e' ∙ e))
          (λ two.
            elim (fill-MeetsBy fl s.tuning s.queue now (plan_rate fl s) (secondary_of fl s.tuning o)
              law o.on_time) [ inl one ↦ absurd (omega arith) | inr late ↦ late ])
          two
  ]
    where
      idle_lem : ◌≡◌ {A = PrefillBatch F × PrefillScheduler F} (batch, s') (default_batch fl, s) → ⊥
      idle_lem q =
          omega (arith, ap (λ (r : PrefillBatch F × PrefillScheduler F). length r.0.chunks) q)
