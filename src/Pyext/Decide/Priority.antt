-- ===== src/Pyext/Decide/Priority.antt =====
-- The order of admission in `decide_indices` of crates/pyext/src/decide.rs, and what holds new work
-- back.
use mathlib.Core.List.{append-nil, append_assoc}
use trt_llm_rs.Prelude.{
  ℕ, zero, suc, ◌+◌, ◌≤◌, ◌<◌, ◌≡◌, refl, ap, ◌∙◌, ◌⊎◌, Bool, true, false, not, ◌&&◌, List, [], ◌∷◌,
  ◌++◌, arith, ltb, ◌==◌, min, take, drop, All, All-append, if_elim, inl, inr,
}
use trt_llm_rs.Prelude.Words.{u64_mod}
use trt_llm_rs.Prelude.Float.{Floats}
use trt_llm_rs.Pyext.Decide.Phases.{IsContext, context_sorted-phase}
use trt_llm_rs.Pyext.Decide.{
  DecideInput, Admission, pause, no_admission, done_at, generation_sorted, context_sorted,
  generation_step, generation_loop, context_step, context_loop, admit_generation, decide_indices,
  is_empty,
}

module _ {F : Type 0} (fl : Floats F) (input : DecideInput F) where
  -- How many generation requests the three budgets admit.
  abbrev pub room : ℕ
  room = min input.generation_cap (min input.max_batch_size input.max_num_tokens)

  -- Before an index: `n` requests have run, each counted by all three counters.
  record HasRun (n : ℕ) (a : Admission) : Type 0 where
    batch : a.batch_used ≡ n
    tokens : a.token_used ≡ n
    generation : a.gen_admitted ≡ n

  generation_step-fits :
      (idx n : ℕ) (a : Admission)
      → input.max_num_tokens + 1 < u64_mod
      → HasRun n a
      → n < room
      → HasRun (suc n) (generation_step fl input idx a)
        × ((generation_step fl input idx a).fitting_indices ≡ a.fitting_indices ++ idx ∷ [])
        × ((generation_step fl input idx a).paused_indices ≡ a.paused_indices)
  unfolding generation_step
  generation_step-fits idx n a h r k = ground arith

  generation_step-pauses :
      (idx n : ℕ) (a : Admission)
      → input.max_num_tokens + 1 < u64_mod
      → HasRun n a
      → room ≤ n
      → generation_step fl input idx a ≡ pause idx a
  unfolding generation_step
  generation_step-pauses idx n a h r k = ground arith

  -- The loop from `n` runs on, with `k` left in the budgets.
  generation_loop_lem :
      (is : List ℕ) (n k : ℕ) (a : Admission)
      → input.max_num_tokens + 1 < u64_mod
      → HasRun n a
      → n + k ≡ room
      → ((generation_loop fl input is a).fitting_indices ≡ a.fitting_indices ++ take k is)
        × ((generation_loop fl input is a).paused_indices ≡ a.paused_indices ++ drop k is)
  unfolding generation_loop
  generation_loop_lem [] n zero a h r e =
      ground (arith, append-nil a.fitting_indices, append-nil a.paused_indices)
  generation_loop_lem [] n (suc k) a h r e =
      ground (arith, append-nil a.fitting_indices, append-nil a.paused_indices)
  generation_loop_lem (i ∷ is) n zero a h r e =
      let (f, p) =
        generation_loop_lem is n zero (pause i a) h
          (record { batch = r.batch; tokens = r.tokens; generation = r.generation }) e in
      let q = generation_step-pauses i n a h r (omega arith) in
      (
        ap (λ b. (generation_loop fl input is b).fitting_indices) q ∙ f,
        ap (λ b. (generation_loop fl input is b).paused_indices) q
            ∙ p
            ∙ append_assoc a.paused_indices (i ∷ []) is,
      )
  generation_loop_lem (i ∷ is) n (suc k) a h r e =
      let (r', f', p') = generation_step-fits i n a h r (omega arith) in
      let (f, p) =
        generation_loop_lem is (suc n) k (generation_step fl input i a) h r' (omega arith) in
      (
        f ∙ ap (λ l. l ++ take k is) f' ∙ append_assoc a.fitting_indices (i ∷ []) (take k is),
        p ∙ ap (λ l. l ++ drop k is) p',
      )

  admit_generation_lem :
      input.max_num_tokens + 1 < u64_mod
      → ((admit_generation fl input).fitting_indices ≡ take room (generation_sorted fl input))
        × ((admit_generation fl input).paused_indices ≡ drop room (generation_sorted fl input))
  unfolding admit_generation
  admit_generation_lem h =
      generation_loop_lem (generation_sorted fl input) 0 room no_admission h
        (record { batch = refl; tokens = refl; generation = refl }) (omega arith)

  -- What the context loop adds to the two lists: context requests, which run only if nothing is
  -- stalled, and have started or leave the watermark its blocks.
  record Added (stalled : Bool) (a : Admission) (ran held : List ℕ) (a' : Admission) : Type 0 where
    fitting : a'.fitting_indices ≡ a.fitting_indices ++ ran
    paused : a'.paused_indices ≡ a.paused_indices ++ held
    ran_phase : All (IsContext fl input) ran
    held_phase : All (IsContext fl input) held
    unstalled : (stalled ≡ false) ⊎ (ran ≡ [])
    above :
        All (λ i. (0 < done_at fl input i) ⊎ (input.kv_watermark_blocks ≤ input.kv_free_blocks)) ran

  abbrev AddsTo : Bool → Admission → Admission → Type 0
  AddsTo stalled a a' = (ran : List ℕ) × (held : List ℕ) × Added stalled a ran held a'

  pause-AddsTo :
      (stalled : Bool) (idx : ℕ) (a : Admission)
      → IsContext fl input idx
      → AddsTo stalled a (pause idx a)
  pause-AddsTo stalled idx a p = (
    [],
    idx ∷ [],
    record {
      fitting = ground (arith, append-nil a.fitting_indices);
      paused = refl;
      ran_phase = tt;
      held_phase = (p, tt);
      unstalled = inr refl;
      above = tt;
    },
  )

  context_step-AddsTo :
      (stalled : Bool) (idx : ℕ) (a : Admission)
      → IsContext fl input idx
      → AddsTo stalled a (context_step fl input stalled idx a)
  unfolding context_step
  context_step-AddsTo true idx a p = pause-AddsTo true idx a p
  context_step-AddsTo false idx a p =
      if_elim (AddsTo false a)
        (done_at fl input idx == 0 && ltb input.kv_free_blocks input.kv_watermark_blocks)
        (λ _. pause-AddsTo false idx a p)
        (λ above.
          if_elim (AddsTo false a) _
            (λ _. (
              idx ∷ [],
              [],
              record {
                fitting = refl;
                paused = ground (arith, append-nil a.paused_indices);
                ran_phase = (p, tt);
                held_phase = tt;
                unstalled = inl refl;
                above = (ground arith, tt);
              },
            ))
            (λ _. pause-AddsTo false idx a p))

  context_loop-AddsTo :
      (stalled : Bool) (is : List ℕ) (a : Admission)
      → All (IsContext fl input) is
      → AddsTo stalled a (context_loop fl input stalled is a)
  unfolding context_loop
  context_loop-AddsTo stalled [] a ps = (
    [],
    [],
    record {
      fitting = ground (arith, append-nil a.fitting_indices);
      paused = ground (arith, append-nil a.paused_indices);
      ran_phase = tt;
      held_phase = tt;
      unstalled = inr refl;
      above = tt;
    },
  )
  context_loop-AddsTo stalled (i ∷ is) a (p, ps) =
      let (r₁, h₁, d₁) = context_step-AddsTo stalled i a p in
      let (r₂, h₂, d₂) = context_loop-AddsTo stalled is (context_step fl input stalled i a) ps in
      (
        r₁ ++ r₂,
        h₁ ++ h₂,
        record {
          fitting =
              d₂.fitting ∙ ap (λ l. l ++ r₂) d₁.fitting ∙ append_assoc a.fitting_indices r₁ r₂;
          paused = d₂.paused ∙ ap (λ l. l ++ h₂) d₁.paused ∙ append_assoc a.paused_indices h₁ h₂;
          ran_phase = All-append (IsContext fl input) r₁ r₂ d₁.ran_phase d₂.ran_phase;
          held_phase = All-append (IsContext fl input) h₁ h₂ d₁.held_phase d₂.held_phase;
          unstalled = ground (arith, d₁.unstalled, d₂.unstalled);
          above = All-append _ r₁ r₂ d₁.above d₂.above;
        },
      )

  -- Generation requests are admitted in their order: the first ones run, as many as the three budgets
  -- hold, and the others are paused. What else runs are context requests: none of those if a generation
  -- request was paused, and of those that have not started none unless the free blocks reach the
  -- watermark.
  pub decide_indices-admits :
      input.max_num_tokens + 1 < u64_mod
      → (ran : List ℕ) × (held : List ℕ) × ((decide_indices fl input).0
          ≡ take room (generation_sorted fl input) ++ ran)
        × ((decide_indices fl input).1 ≡ drop room (generation_sorted fl input) ++ held)
        × All (IsContext fl input) ran
        × All (IsContext fl input) held
        × ((drop room (generation_sorted fl input) ≡ []) ⊎ (ran ≡ []))
        × All
            (λ i. (0 < done_at fl input i) ⊎ (input.kv_watermark_blocks ≤ input.kv_free_blocks))
            ran
  unfolding decide_indices
  decide_indices-admits h =
      let start = admit_generation fl input in
      let (f, p) = admit_generation_lem h in
      let (ran, held, d) =
        context_loop-AddsTo (not (is_empty start.paused_indices)) (context_sorted fl input) start
          (context_sorted-phase fl input) in
      (
        ran,
        held,
        d.fitting ∙ ap (λ l. l ++ ran) f,
        d.paused ∙ ap (λ l. l ++ held) p,
        d.ran_phase,
        d.held_phase,
        ground (arith, d.unstalled, p),
        d.above,
      )
