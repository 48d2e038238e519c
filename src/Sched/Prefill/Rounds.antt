-- ===== src/Sched/Prefill/Rounds.antt =====
-- What a round of the loop of `plan` in crates/sched/src/prefill.rs does.
use trt_llm_rs.Prelude.{
  ℕ, ◌+◌, ◌-◌, ◌≤◌, ◌<◌, ◌≡◌, min, some, [], ◌∷◌, ◌++◌, Bool, true, false, ◌&&◌, ltb, leb, ◌==◌,
  if◌then◌else◌, arith, Option-cases, if_elim, inl, inr, length,
}
use trt_llm_rs.Prelude.Float.{Floats}
use trt_llm_rs.Prelude.Assoc.{Map, lookup}
use trt_llm_rs.Sched.Policy.{RequestId}
use trt_llm_rs.Sched.Prefill.{
  PendingPrefill, PrefillTuning, Filling, Flow, stop, go, remaining, finish, offer, visit,
}

module _ {F : Type 0} (fl : Floats F) (tuning : PrefillTuning F) (queue : Map (PendingPrefill F))
    (now rate : F) where
  -- The deadline that holds once `p` is in the batch.
  abbrev pub bound : Bool → PendingPrefill F → Filling F → F
  bound pass p b = if pass then b.binding_deadline else fl.fmin b.binding_deadline p.deadline_ms

  -- The batch with a chunk of `want` tokens of `p`.
  abbrev pub taking : Bool → RequestId → PendingPrefill F → ℕ → Filling F → Filling F
  taking pass id p want b = record b {
    chunks =
        b.chunks
        ++ record { id = id; start = p.done_tokens; tokens = want; completes = want == remaining p }
          ∷ [];
    total_tokens = b.total_tokens + want;
    binding_deadline = bound pass p b;
  }

  -- What a round of the loop does.
  pub data Visit (pass : Bool) (id : RequestId) (b : Filling F) : Flow F → Type 0 where
    halts : Visit pass id b (stop b)
    skips : Visit pass id b (go b)
    halts_limited : Visit pass id b (stop (record b { deadline_limited = true }))
    skips_limited : Visit pass id b (go (record b { deadline_limited = true }))
    takes :
        (p : PendingPrefill F) (want : ℕ)
        → lookup id queue ≡ some p
        → 0 < want
        → want ≤ remaining p
        → b.total_tokens + want ≤ tuning.chunk_tokens
        → length b.chunks < tuning.max_seqs
        → (ltb 0 (length b.chunks)
            && fl.lt (bound pass p b) (finish fl tuning queue now rate (b.total_tokens + want)))
          ≡ false
        → Visit pass id b (go (taking pass id p want b))

  offer-Visit :
      (pass : Bool) (id : RequestId) (p : PendingPrefill F) (want : ℕ) (b : Filling F)
      → lookup id queue ≡ some p
      → 0 < want
      → want ≤ remaining p
      → b.total_tokens + want ≤ tuning.chunk_tokens
      → length b.chunks < tuning.max_seqs
      → Visit pass id b (offer fl tuning queue now rate pass id p want b)
  unfolding offer
  offer-Visit pass id p want b e w r t l =
      if_elim (Visit pass id b)
        (ltb 0 (length b.chunks)
          && fl.lt (bound pass p b) (finish fl tuning queue now rate (b.total_tokens + want)))
        (λ _. if_elim (Visit pass id b) pass (λ _. halts_limited) (λ _. skips_limited))
        (λ free. takes p want e w r t l free)

  pub visit-Visit :
      (pass : Bool) (id : RequestId) (b : Filling F)
      → Visit pass id b (visit fl tuning queue now rate pass id b)
  unfolding visit
  visit-Visit pass id b =
      if_elim (Visit pass id b) (leb tuning.max_seqs (length b.chunks)) (λ _. halts)
        (λ room.
          if_elim (Visit pass id b) (tuning.chunk_tokens - b.total_tokens == 0) (λ _. halts)
            (λ left. elim (Option-cases (lookup id queue)) [
              | inl e ↦ rw e skips
              | inr (p, e) ↦ rw e (
                  if_elim (Visit pass id b)
                    (min (remaining p) (tuning.chunk_tokens - b.total_tokens) == 0) (λ _. skips)
                    (λ some_left.
                      offer-Visit pass id p _ b e (ground arith) (ground arith) (ground arith)
                        (ground arith)))
            ]))
