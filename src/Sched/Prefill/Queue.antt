-- ===== src/Sched/Prefill/Queue.antt =====
-- The queue of `PrefillScheduler` in crates/sched/src/prefill.rs.
use trt_llm_rs.Prelude.{
  ℕ, ◌≤◌, ◌≡◌, refl, ap, ◌∙◌, sym, min, none, some, List, [], ◌∷◌, ◌==◌, if◌then◌else◌, arith,
  subst, Bool-cases, Option-cases, inl, inr,
}
use mathlib.Core.Option.{some-injective}
use trt_llm_rs.Prelude.Float.{Floats}
use trt_llm_rs.Prelude.Counts.{contains, count, count-append, count-retain_ne}
use trt_llm_rs.Prelude.Assoc
use trt_llm_rs.Prelude.Assoc.{Map, lookup, insert, lookup-insert, lookup-remove}
use trt_llm_rs.Sched.Prefill.{
  PendingPrefill, PrefillChunk, PrefillBatch, PrefillTuning, PrefillScheduler, new, enqueue, remove,
  complete_chunk, complete_chunks, remove_all, observe_rate, complete,
}

-- 1 for an id that the map holds, 0 for any other.
abbrev pub listed {ℓ} : {V : Type ℓ} → ℕ → Map V → ℕ
listed id m = elim (lookup id m) [ none ↦ 0 | some _ ↦ 1 ]

-- `order` lists each queued id once and no other, and each request stands under its own id.
pub record IsQueue {F : Type 0} (s : PrefillScheduler F) : Type 0 where
  pub matched : (id : ℕ) → count id s.order ≡ listed id s.queue
  pub keyed : (id : ℕ) (p : PendingPrefill F) → lookup id s.queue ≡ some p → p.id ≡ id

module _ {F : Type 0} where
  pub new-IsQueue : (tuning : PrefillTuning F) → IsQueue (new tuning)
  unfolding new lookup
  new-IsQueue tuning = record { matched = λ id. refl; keyed = λ id p e. cc }

  -- `enqueue` keeps the queue consistent; the request is queued, once, in the place of any that had
  -- its id, and no other is touched.
  pub enqueue-IsQueue :
      (p : PendingPrefill F) (s : PrefillScheduler F)
      → IsQueue s
      → IsQueue (enqueue p s)
        × ((id : ℕ)
            → lookup id (enqueue p s).queue ≡ (if p.id == id then some p else lookup id s.queue))
  unfolding enqueue
  enqueue-IsQueue p s v = (
    record {
      matched = λ id. ground (
        arith,
        v.matched id,
        v.matched p.id,
        lookup-insert p.id id p s.queue,
        count-append id s.order (p.id ∷ []),
        λ (e : p.id ≡ id). ap (λ k. lookup k s.queue) e,
      );
      keyed = λ id q e. ground (arith, v.keyed id q, lookup-insert p.id id p s.queue);
    },
    λ id. lookup-insert p.id id p s.queue,
  )

  pub remove-IsQueue :
      (id : ℕ) (s : PrefillScheduler F)
      → IsQueue s
      → IsQueue (remove id s).0
        × ((j : ℕ) → lookup j (remove id s).0.queue ≡ (if id == j then none else lookup j s.queue))
        × ((remove id s).1 ≡ lookup id s.queue)
        × (count id (remove id s).0.demoted ≡ 0)
  unfolding remove
  remove-IsQueue id s v = (
    record {
      matched = λ j.
          ground (arith, v.matched j, lookup-remove id j s.queue, count-retain_ne id j s.order);
      keyed = λ j q e. ground (arith, v.keyed j q, lookup-remove id j s.queue);
    },
    (λ j. lookup-remove id j s.queue),
    refl,
    ground (arith, count-retain_ne id id s.demoted),
  )

  pub lookup-remove_all :
      (ids : List ℕ) (s : PrefillScheduler F) (j : ℕ)
      → lookup j (remove_all ids s).queue ≡ (if contains ids j then none else lookup j s.queue)
  unfolding remove_all remove
  lookup-remove_all [] s j = refl
  lookup-remove_all (id ∷ ids) s j =
      ground (arith, lookup-remove_all ids (remove id s).0 j, lookup-remove id j s.queue)

  remove_all-IsQueue :
      (ids : List ℕ) (s : PrefillScheduler F) → IsQueue s → IsQueue (remove_all ids s)
  unfolding remove_all
  remove_all-IsQueue [] s v = v
  remove_all-IsQueue (id ∷ ids) s v =
      remove_all-IsQueue ids (remove id s).0 (remove-IsQueue id s v).0

  -- A request further on in its computation, and otherwise the same.
  pub record Advanced (p p' : PendingPrefill F) : Type 0 where
    pub same : p' ≡ record p { done_tokens = p'.done_tokens }
    pub further : min p.done_tokens p.compute_tokens ≤ p'.done_tokens

  Advanced-refl : (p : PendingPrefill F) → Advanced p p
  Advanced-refl p = record { same = refl; further = omega arith }

  Advanced-trans : (p q r : PendingPrefill F) → Advanced p q → Advanced q r → Advanced p r
  Advanced-trans p q r a b = record {
    same = b.same ∙ ap (λ (q : PendingPrefill F). record q { done_tokens = r.done_tokens }) a.same;
    further =
        omega (arith, a.further, b.further, ap (λ (p : PendingPrefill F). p.compute_tokens) a.same);
  }

  -- A queue whose requests are those of another, further on.
  pub record Progressed (queue queue' : Map (PendingPrefill F)) : Type 0 where
    pub same_ids : (id : ℕ) → listed id queue' ≡ listed id queue
    pub advanced :
        (id : ℕ) (p' : PendingPrefill F)
        → lookup id queue' ≡ some p'
        → (p : PendingPrefill F) × (lookup id queue ≡ some p) × Advanced p p'

  Progressed-refl : (queue : Map (PendingPrefill F)) → Progressed queue queue
  Progressed-refl queue = record {
    same_ids = λ id. refl;
    advanced = λ id p' e. (p', e, Advanced-refl p');
  }

  Progressed-trans :
      (q₁ q₂ q₃ : Map (PendingPrefill F)) → Progressed q₁ q₂ → Progressed q₂ q₃ → Progressed q₁ q₃
  Progressed-trans q₁ q₂ q₃ a b = record {
    same_ids = λ id. b.same_ids id ∙ a.same_ids id;
    advanced = λ id r e.
        let (q, e', further) = b.advanced id r e in
        let (p, e'', before) = a.advanced id q e' in (p, e'', Advanced-trans p q r before further);
  }

  insert-Progressed :
      (id : ℕ) (p p' : PendingPrefill F) (queue : Map (PendingPrefill F))
      → lookup id queue ≡ some p
      → Advanced p p'
      → Progressed queue (insert id p' queue)
  insert-Progressed id p p' queue q a = record {
    same_ids = λ j.
        ground (arith, lookup-insert id j p' queue, λ (e : id ≡ j). ap (λ k. lookup k queue) e);
    advanced = λ j r e. elim (Bool-cases (id == j)) [
      | inl same ↦
          let at : lookup j queue ≡ some p =
            ground (arith, λ (e : id ≡ j). ap (λ k. lookup k queue) e) in
          (
            p,
            at,
            subst (Advanced p) (some-injective p' r (ground (arith, lookup-insert id j p' queue)))
                a,
          )
      | inr other ↦ (r, ground (arith, lookup-insert id j p' queue), Advanced-refl r)
    ];
  }

  complete_chunk-Progressed :
      (c : PrefillChunk) (queue : Map (PendingPrefill F)) (finished : List ℕ)
      → Progressed queue (complete_chunk c (queue, finished)).0
  unfolding complete_chunk
  complete_chunk-Progressed c queue finished = elim (Option-cases (lookup c.id queue)) [
    | inl n ↦ rw (n, complete_chunk) (Progressed-refl queue)
    | inr (p, q) ↦
        rw (q, complete_chunk)
          (insert-Progressed c.id p _ queue q (record { same = refl; further = omega arith }))
  ]

  complete_chunks-Progressed :
      (cs : List PrefillChunk) (queue : Map (PendingPrefill F)) (finished : List ℕ)
      → Progressed queue (complete_chunks cs (queue, finished)).0
  unfolding complete_chunks
  complete_chunks-Progressed [] queue finished = Progressed-refl queue
  complete_chunks-Progressed (c ∷ cs) queue finished =
      Progressed-trans queue _ _ (complete_chunk-Progressed c queue finished)
        (complete_chunks-Progressed cs _ _)

  Progressed-IsQueue :
      (s : PrefillScheduler F) (tuning : PrefillTuning F) (queue : Map (PendingPrefill F))
      → IsQueue s
      → Progressed s.queue queue
      → IsQueue (record s { tuning = tuning; queue = queue })
  Progressed-IsQueue s tuning queue v g = record {
    matched = λ id. v.matched id ∙ sym (g.same_ids id);
    keyed = λ id p' e.
        let (p, e', a) = g.advanced id p' e in
        ap (λ (p : PendingPrefill F). p.id) a.same ∙ v.keyed id p e';
  }

module _ {F : Type 0} (fl : Floats F) where
  pub complete-IsQueue :
      (batch : PrefillBatch F) (elapsed_ms : F) (s : PrefillScheduler F)
      → IsQueue s
      → IsQueue (complete fl batch elapsed_ms s).0
  unfolding complete
  complete-IsQueue batch elapsed_ms s v =
      let done = complete_chunks batch.chunks (s.queue, []) in
      let s' : PrefillScheduler F = record s {
        tuning = observe_rate fl s.tuning batch.total_tokens elapsed_ms;
        queue = done.0;
      } in
      let g = complete_chunks-Progressed batch.chunks s.queue [] in
      remove_all-IsQueue done.1 s' (Progressed-IsQueue s _ done.0 v g)
