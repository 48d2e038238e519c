-- ===== src/Sched/Prefill/Finished.antt =====
-- `PrefillScheduler::complete` in crates/sched/src/prefill.rs: which requests finish, and how far the
-- others are.
use trt_llm_rs.Prelude.{
  ℕ, ◌+◌, ◌≡◌, refl, ap, ◌∙◌, min, none, some, List, [], ◌∷◌, ◌++◌, Bool, true, false, ◌&&◌, ◌||◌,
  ◌==◌, leb, if◌then◌else◌, arith, Bool-cases, Option-cases, inl, inr,
}
use trt_llm_rs.Prelude.Float.{Floats}
use trt_llm_rs.Prelude.Counts.{contains}
use trt_llm_rs.Prelude.Assoc.{Map, lookup, lookup-insert}
use trt_llm_rs.Sched.Prefill.{
  PendingPrefill, PrefillChunk, PrefillBatch, PrefillScheduler, complete_chunk, complete_chunks,
  observe_rate, complete,
}
use trt_llm_rs.Sched.Prefill.Queue.{IsQueue, lookup-remove_all, complete-IsQueue}

-- The tokens that the chunks compute for a request.
abbrev pub granted : ℕ → List PrefillChunk → ℕ
granted id [] = 0
granted id (c ∷ cs) = let later = granted id cs in if c.id == id then c.tokens + later else later

abbrev pub is_named : ℕ → List PrefillChunk → Bool
is_named id [] = false
is_named id (c ∷ cs) = c.id == id || is_named id cs

unnamed : (id : ℕ) (cs : List PrefillChunk) → is_named id cs ≡ false → granted id cs ≡ 0
unnamed id [] h = refl
unnamed id (c ∷ cs) h = ground (arith, unnamed id cs)

contains-snoc : (xs : List ℕ) (x a : ℕ) → contains (xs ++ x ∷ []) a ≡ (contains xs a || x == a)
contains-snoc [] x a = ground arith
contains-snoc (y ∷ ys) x a = ground (arith, contains-snoc ys x a)

module _ {F : Type 0} where
  -- The request after the chunks.
  abbrev advance : ℕ → List PrefillChunk → PendingPrefill F → PendingPrefill F
  advance id cs p = record p {
    done_tokens =
        if is_named id cs
        then min (p.done_tokens + granted id cs) p.compute_tokens
        else p.done_tokens;
  }

  -- A chunk names the request, and the chunks compute all that it has left.
  abbrev pub finishes : ℕ → List PrefillChunk → PendingPrefill F → Bool
  finishes id cs p = is_named id cs && leb p.compute_tokens (p.done_tokens + granted id cs)

  chunk_of_other :
      (c : PrefillChunk) (id : ℕ) (queue : Map (PendingPrefill F)) (finished : List ℕ)
      → (c.id == id) ≡ false
      → (lookup id (complete_chunk c (queue, finished)).0 ≡ lookup id queue)
        × (contains (complete_chunk c (queue, finished)).1 id ≡ contains finished id)
  unfolding complete_chunk
  chunk_of_other c id queue finished other = elim (Option-cases (lookup c.id queue)) [
    | inl n ↦ rw (n, complete_chunk) (refl, refl)
    | inr (p, q) ↦
        let p' = record p { done_tokens = min (p.done_tokens + c.tokens) p.compute_tokens } in
        rw (q, complete_chunk)
          (
            ground (arith, lookup-insert c.id id p' queue),
            ground (arith, contains-snoc finished c.id id),
          )
  ]

  chunk_of :
      (c : PrefillChunk) (id : ℕ) (p : PendingPrefill F) (queue : Map (PendingPrefill F))
      (finished : List ℕ)
      → (c.id == id) ≡ true
      → lookup id queue ≡ some p
      → (lookup id (complete_chunk c (queue, finished)).0
          ≡ some (record p { done_tokens = min (p.done_tokens + c.tokens) p.compute_tokens }))
        × (contains (complete_chunk c (queue, finished)).1 id
            ≡ (contains finished id || leb p.compute_tokens (p.done_tokens + c.tokens)))
  unfolding complete_chunk
  chunk_of c id p queue finished same q =
      let p' = record p { done_tokens = min (p.done_tokens + c.tokens) p.compute_tokens } in
      let e : c.id ≡ id = ground arith in
      rw (ap (λ k. lookup k queue) e ∙ q, complete_chunk)
        (
          ground (arith, lookup-insert c.id id p' queue),
          ground (arith, contains-snoc finished c.id id),
        )

  chunk_of_none :
      (c : PrefillChunk) (id : ℕ) (queue : Map (PendingPrefill F)) (finished : List ℕ)
      → (c.id == id) ≡ true
      → lookup id queue ≡ none
      → complete_chunk c (queue, finished) ≡ (queue, finished)
  unfolding complete_chunk
  chunk_of_none c id queue finished same n =
      let e : c.id ≡ id = ground arith in rw (ap (λ k. lookup k queue) e ∙ n, complete_chunk) refl

  chunks_of_none :
      (cs : List PrefillChunk) (id : ℕ) (queue : Map (PendingPrefill F)) (finished : List ℕ)
      → lookup id queue ≡ none
      → (lookup id (complete_chunks cs (queue, finished)).0 ≡ none)
        × (contains (complete_chunks cs (queue, finished)).1 id ≡ contains finished id)
  unfolding complete_chunks
  chunks_of_none [] id queue finished n = (n, refl)
  chunks_of_none (c ∷ cs) id queue finished n = elim (Bool-cases (c.id == id)) [
    | inr other ↦
        let (l, k) = chunk_of_other c id queue finished other in
        let (l', k') = chunks_of_none cs id _ _ (l ∙ n) in (l', k' ∙ k)
    | inl same ↦
        let still = chunk_of_none c id queue finished same n in
        rw (complete_chunks, still) (chunks_of_none cs id queue finished n)
  ]

  chunks_of :
      (cs : List PrefillChunk) (id : ℕ) (p : PendingPrefill F) (queue : Map (PendingPrefill F))
      (finished : List ℕ)
      → lookup id queue ≡ some p
      → (lookup id (complete_chunks cs (queue, finished)).0 ≡ some (advance id cs p))
        × (contains (complete_chunks cs (queue, finished)).1 id
            ≡ (contains finished id || finishes id cs p))
  unfolding complete_chunks
  chunks_of [] id p queue finished q = (q, ground arith)
  chunks_of (c ∷ cs) id p queue finished q = elim (Bool-cases (c.id == id)) [
    | inr other ↦
        let (l, k) = chunk_of_other c id queue finished other in
        let (l', k') = chunks_of cs id p _ _ (l ∙ q) in
        let same_done : (advance id cs p).done_tokens ≡ (advance id (c ∷ cs) p).done_tokens =
          ground arith in
        (l' ∙ ap (λ d. some (record p { done_tokens = d })) same_done, k' ∙ ground (arith, k))
    | inl same ↦
        let (l, k) = chunk_of c id p queue finished same q in
        let p' = record p { done_tokens = min (p.done_tokens + c.tokens) p.compute_tokens } in
        let (l', k') = chunks_of cs id p' _ _ l in
        let same_done : (advance id cs p').done_tokens ≡ (advance id (c ∷ cs) p).done_tokens =
          ground (arith, unnamed id cs) in
        (
          l' ∙ ap (λ d. some (record p { done_tokens = d })) same_done,
          k' ∙ ground (arith, k, unnamed id cs),
        )
  ]

  -- What is left of a request in the queue.
  still_queued :
      (cs : List PrefillChunk) (id : ℕ) (p : PendingPrefill F) (queue : Map (PendingPrefill F))
      → lookup id queue ≡ some p
      → (if contains (complete_chunks cs (queue, [])).1 id
          then none
          else lookup id (complete_chunks cs (queue, [])).0)
        ≡ (if finishes id cs p
            then none
            else some (record p { done_tokens = p.done_tokens + granted id cs }))
  still_queued cs id p queue q =
      let (l, k) = chunks_of cs id p queue [] q in
      elim (Bool-cases (finishes id cs p)) [
        | inl done ↦ ground (arith, k)
        | inr more ↦
            let so_far : (advance id cs p).done_tokens ≡ p.done_tokens + granted id cs =
              ground (arith, unnamed id cs) in
            rw (k, more) (l ∙ ap (λ d. some (record p { done_tokens = d })) so_far)
      ]

module _ {F : Type 0} (fl : Floats F) where
  -- After a batch that `complete` books on a consistent queue, a request is returned as finished
  -- exactly if it was queued, a chunk names it, and the chunks compute all that it has left; it is
  -- then queued no more. Every other queued request is still queued, with the tokens of its chunks
  -- added to those computed and nothing else changed, and no other request is. The queue stays consistent.
  pub complete_exact :
      (batch : PrefillBatch F) (elapsed_ms : F) (s : PrefillScheduler F)
      → IsQueue s
      → IsQueue (complete fl batch elapsed_ms s).0
        × ((id : ℕ)
            → contains (complete fl batch elapsed_ms s).1 id
              ≡ elim (lookup id s.queue) [ none ↦ false | some p ↦ finishes id batch.chunks p ])
        × ((id : ℕ)
            → lookup id (complete fl batch elapsed_ms s).0.queue ≡ elim (lookup id s.queue) [
              | none ↦ none
              | some p ↦
                  if finishes id batch.chunks p
                  then none
                  else some (record p { done_tokens = p.done_tokens + granted id batch.chunks })
            ])
  unfolding complete
  complete_exact batch elapsed_ms s v =
      let done = complete_chunks batch.chunks (s.queue, []) in
      let s' : PrefillScheduler F = record s {
        tuning = observe_rate fl s.tuning batch.total_tokens elapsed_ms;
        queue = done.0;
      } in
      (
        complete-IsQueue fl batch elapsed_ms s v,
        (λ id. elim (Option-cases (lookup id s.queue)) [
          | inl n ↦ rw n (chunks_of_none batch.chunks id s.queue [] n).1
          | inr (p, q) ↦ rw q (chunks_of batch.chunks id p s.queue [] q).1
        ]),
        (λ id. elim (Option-cases (lookup id s.queue)) [
          | inl n ↦ rw n (
              lookup-remove_all done.1 s' id
              ∙ ground (arith, (chunks_of_none batch.chunks id s.queue [] n).0))
          | inr (p, q) ↦
              rw q (lookup-remove_all done.1 s' id ∙ still_queued batch.chunks id p s.queue q)
        ]),
      )
