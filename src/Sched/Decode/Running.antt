-- ===== src/Sched/Decode/Running.antt =====
-- The running sequences of `DecodeScheduler` in crates/sched/src/decode.rs: what keeps them
-- consistent, and what a step makes of them.
use trt_llm_rs.Prelude.{
  ℕ, ◌≤◌, ◌≡◌, refl, ap, ◌∙◌, none, List, [], ◌∷◌, false, not, ◌&&◌, ◌==◌, if◌then◌else◌, arith,
  Option-cases, inl, inr, All,
}
use trt_llm_rs.Prelude.Counts.{contains, contains-retain_ne}
use trt_llm_rs.Prelude.Assoc.{
  Map, lookup, lookup-insert, lookup-remove, holds, All-insert, All-remove, All-lookup,
}
use trt_llm_rs.Sched.Policy.{RequestId}
use trt_llm_rs.Sched.Decode.{
  RunningSeq, DecodeScheduler, admit, remove, advance_seq, advance_one, advance_all,
}

-- A sequence under its own id, that has emitted no more than it was asked to.
pub record IsEntry {F : Type 0} (e : ℕ × RunningSeq F) : Type 0 where
  pub keyed : e.1.id ≡ e.0
  pub in_budget : e.1.tokens_emitted ≤ e.1.requested_tokens

abbrev pub IsRunning : {F : Type 0} → Map (RunningSeq F) → Type 0
IsRunning m = All IsEntry m

module _ {F : Type 0} where
  advance_one-IsRunning :
      (now : F) (per_step id : ℕ) (m : Map (RunningSeq F))
      → IsRunning m
      → IsRunning (advance_one now per_step id m)
  unfolding advance_one advance_seq
  advance_one-IsRunning now per_step id m v = elim (Option-cases (lookup id m)) [
    | inl n ↦ rw (n, advance_one) v
    | inr (s, e) ↦
        rw (e, advance_one)
          (All-insert IsEntry id (advance_seq now per_step s) m
            (record { keyed = (All-lookup IsEntry id s m e v).keyed; in_budget = omega arith }) v)
  ]

  pub advance_all-IsRunning :
      (now : F) (per_step : ℕ) (ids : List RequestId) (m : Map (RunningSeq F))
      → IsRunning m
      → IsRunning (advance_all now per_step ids m)
  unfolding advance_all
  advance_all-IsRunning now per_step [] m v = v
  advance_all-IsRunning now per_step (id ∷ ids) m v =
      advance_all-IsRunning now per_step ids _ (advance_one-IsRunning now per_step id m v)

  -- A step starts and ends no sequence: the engine's reports of finished ones do.
  pub holds-advance_all :
      (now : F) (per_step : ℕ) (ids : List RequestId) (m : Map (RunningSeq F)) (j : ℕ)
      → holds j (advance_all now per_step ids m) ≡ holds j m
  unfolding advance_all advance_one
  holds-advance_all now per_step [] m j = refl
  holds-advance_all now per_step (id ∷ ids) m j =
      holds-advance_all now per_step ids (advance_one now per_step id m) j
      ∙ elim (Option-cases (lookup id m)) [
        | inl n ↦ rw (n, advance_one) refl
        | inr (s, e) ↦
            rw (e, advance_one)
              (ground (
                arith,
                lookup-insert id j (advance_seq now per_step s) m,
                λ (q : id ≡ j). ap (λ k. lookup k m) q,
              ))
      ]

-- The flagged sequences are running.
pub record IsConsistent {F : Type 0} (d : DecodeScheduler F) : Type 0 where
  pub sequences : IsRunning d.running
  pub flags : (id : ℕ) → (contains d.flagged id && not (holds id d.running)) ≡ false

module _ {F : Type 0} where
  pub admit-IsConsistent :
      (s : RunningSeq F) (d : DecodeScheduler F)
      → s.tokens_emitted ≤ s.requested_tokens
      → IsConsistent d
      → IsConsistent (admit s d)
  unfolding admit
  admit-IsConsistent s d b v = record {
    sequences =
        All-insert IsEntry s.id s d.running (record { keyed = refl; in_budget = b }) v.sequences;
    flags = λ id. ground (arith, v.flags id, lookup-insert s.id id s d.running);
  }

  -- Taking a sequence off leaves no trace of it, and keeps the others and the consistency.
  pub remove-IsConsistent :
      (id : ℕ) (d : DecodeScheduler F)
      → IsConsistent d
      → IsConsistent (remove id d).0
        × ((remove id d).1 ≡ lookup id d.running)
        × ((j : ℕ)
            → lookup j (remove id d).0.running ≡ (if id == j then none else lookup j d.running))
        × (contains (remove id d).0.flagged id ≡ false)
  unfolding remove
  remove-IsConsistent id d v = (
    record {
      sequences = All-remove IsEntry id d.running v.sequences;
      flags = λ j.
          ground
            (arith, v.flags j, lookup-remove id j d.running, contains-retain_ne id j d.flagged);
    },
    refl,
    (λ j. lookup-remove id j d.running),
    ground (arith, contains-retain_ne id id d.flagged),
  )
