-- ===== src/Sched/Controller/Latch.antt =====
-- When `ItlController` of crates/sched/src/decode.rs stops steering.
use trt_llm_rs.Prelude.{
  ℕ, ◌≡◌, refl, ◌∙◌, true, false, ◌&&◌, ltb, leb, if◌then◌else◌, if_elim, arith, ◌⊎◌, inl, inr,
  Bool-cases,
}
use trt_llm_rs.Prelude.Float.{Floats}
use trt_llm_rs.Sched.Controller.{
  ItlController, reset_probe, give_up, take_sample, is_low, is_high, resume, open_probe, improved,
  decrease, judge, throttle, grow, steer, observe,
}

-- A controller that steers, or whose cap is at its ceiling, or that has not moved since `before`,
-- when it did not steer either.
record Latched {F : Type 0} (before after : ItlController F) : Type 0 where
  held :
      (after.concurrency_not_binding ≡ false)
      ⊎ (after.cap ≡ before.max_cap)
      ⊎ ((before.concurrency_not_binding ≡ true) × (after.cap ≡ before.cap))

-- Two controllers that differ in nothing that the latch depends on.
record Alike {F : Type 0} (c c' : ItlController F) : Type 0 where
  cap : c'.cap ≡ c.cap
  ceiling : c'.max_cap ≡ c.max_cap
  latch : c'.concurrency_not_binding ≡ c.concurrency_not_binding

module _ {F : Type 0} (fl : Floats F) where
  Alike-Latched : (c c' : ItlController F) → Alike c c' → Latched c c'
  Alike-Latched c c' a = record { held = ground (arith, a.cap, a.latch) }

  Latched-from : (c c' c'' : ItlController F) → Alike c c' → Latched c' c'' → Latched c c''
  Latched-from c c' c'' a l = record { held = ground (arith, a.cap, a.ceiling, a.latch, l.held) }

  decrease-Latched :
      (n : ℕ) (c : ItlController F)
      → c.concurrency_not_binding ≡ false
      → Latched c (decrease fl n c)
  unfolding decrease give_up
  decrease-Latched n c e =
      let lowered_cap =
        fl.fmax (fl.mul (if ltb 0 n then fl.fmin c.cap (fl.of_ℕ n) else c.cap) c.decrease_factor)
          c.min_cap in
      if_elim (Latched c) (fl.le lowered_cap (fl.mul c.min_cap (fl.literal 101 100)))
        {x = give_up fl (record c { cap = lowered_cap })} {y = record c { cap = lowered_cap }}
        (λ _. record { held = inr (inl refl) }) (λ _. record { held = inl e })

  judge-Latched :
      (n : ℕ) (c : ItlController F) → c.concurrency_not_binding ≡ false → Latched c (judge fl n c)
  unfolding judge give_up
  judge-Latched n c e =
      if_elim (Latched c) (leb c.probe_window c.observations_since_decrease)
        (λ _.
          if_elim (Latched c) (improved fl c) {y = give_up fl c}
            (λ _.
              let c' = record c { ewma_at_decrease = c.ewma_ms; observations_since_decrease = 0 } in
              Latched-from c c' _ (record { cap = refl; ceiling = refl; latch = refl })
                (decrease-Latched n c' e))
            (λ _. record { held = inr (inl refl) }))
        (λ _. decrease-Latched n c e)

  open_probe-Alike : (c : ItlController F) → Alike c (open_probe fl c)
  unfolding open_probe
  open_probe-Alike c = elim (Bool-cases (fl.is_infinite c.ewma_at_decrease)) [
    | inl e ↦ rw (e, open_probe) (record { cap = refl; ceiling = refl; latch = refl })
    | inr e ↦ rw (e, open_probe) (record { cap = refl; ceiling = refl; latch = refl })
  ]

  throttle-Latched : (n : ℕ) (c : ItlController F) → Latched c (throttle fl n c)
  unfolding throttle
  throttle-Latched n c =
      if_elim (Latched c) c.concurrency_not_binding
        (λ _. Alike-Latched c c (record { cap = refl; ceiling = refl; latch = refl }))
        (λ e.
          let same = open_probe-Alike c in
          Latched-from c (open_probe fl c) _ same
            (judge-Latched n (open_probe fl c) (same.latch ∙ e)))

  grow-Latched :
      (n : ℕ) (c : ItlController F)
      → (c.concurrency_not_binding && is_low fl c) ≡ false
      → Latched c (grow fl n c)
  unfolding grow
  grow-Latched n c e =
      if_elim (Latched c) (is_low fl c && fl.le (fl.mul c.cap c.utilisation_gate) (fl.of_ℕ n))
        {x = reset_probe fl (record c { cap = fl.fmin (fl.add c.cap c.increase_step) c.max_cap })}
        (λ low. record { held = inl (ground (arith, e, low)) })
        (λ _. Alike-Latched c c (record { cap = refl; ceiling = refl; latch = refl }))

  steer-Latched :
      (n : ℕ) (c : ItlController F)
      → (c.concurrency_not_binding && is_low fl c) ≡ false
      → Latched c (steer fl n c)
  unfolding steer
  steer-Latched n c e =
      if_elim (Latched c) (is_high fl c) (λ _. throttle-Latched n c) (λ _. grow-Latched n c e)

  steer-resume-Latched : (n : ℕ) (c : ItlController F) → Latched c (steer fl n (resume fl c))
  unfolding resume
  steer-resume-Latched n c =
      if_elim (λ r. Latched c (steer fl n r)) (c.concurrency_not_binding && is_low fl c)
        {x = reset_probe fl (record c { concurrency_not_binding = false })}
        (λ _.
          let l =
            steer-Latched n (reset_probe fl (record c { concurrency_not_binding = false })) refl in
          record { held = ground (arith, l.held) })
        (λ e. steer-Latched n c e)

  -- A controller that has stopped steering after an observation either stands at its ceiling, with
  -- all throttling undone, or had stopped before and has not moved its cap.
  pub observe_gives_up :
      (itl_ms : F) (n : ℕ) (c : ItlController F)
      → (observe fl itl_ms n c).concurrency_not_binding ≡ true
      → ((observe fl itl_ms n c).cap ≡ c.max_cap)
        ⊎ ((c.concurrency_not_binding ≡ true) × ((observe fl itl_ms n c).cap ≡ c.cap))
  unfolding observe take_sample
  observe_gives_up itl_ms n c stopped =
      let s = take_sample fl itl_ms c in
      let same : Alike c s = record { cap = refl; ceiling = refl; latch = refl } in
      let l : Latched c (observe fl itl_ms n c) =
        if_elim (Latched c) (ltb s.samples 8) (λ _. Alike-Latched c s same)
          (λ _. Latched-from c s _ same (steer-resume-Latched n s)) in
      elim l.held [ inl steers ↦ absurd (cc) | inr r ↦ r ]
