-- ===== src/Sched/Decode/Steps.antt =====
-- The steps of `DecodeScheduler` in crates/sched/src/decode.rs.
use trt_llm_rs.Prelude.{
  ℕ, zero, suc, ◌+◌, ◌≡◌, refl, ap, ◌∙◌, sym, subst, max, none, List, [], ◌∷◌, true, false, not,
  ◌&&◌, if◌then◌else◌, if_elim, arith, Option-cases, inl, inr, length, length-append, All,
}
use trt_llm_rs.Prelude.Words.{inc64}
use trt_llm_rs.Prelude.Counts.{contains, contains-retain_ne}
use trt_llm_rs.Prelude.Assoc.{Map, lookup, lookup-remove, holds, All-remove, All-holds}
use trt_llm_rs.Sched.Policy.{RequestId}
use trt_llm_rs.Sched.Decode.{
  RunningSeq, DecodeScheduler, advance_all, finish_one, finish_all, flag_all, is_done, values,
  book_step,
}
use trt_llm_rs.Sched.Decode.Running.{
  IsEntry, IsConsistent, advance_all-IsRunning, holds-advance_all,
}

-- A counter incremented so many times.
abbrev pub inc64_times : ℕ → ℕ → ℕ
inc64_times zero a = a
inc64_times (suc k) a = inc64_times k (inc64 a)

inc64_times_add : (j k a : ℕ) → inc64_times k (inc64_times j a) ≡ inc64_times (j + k) a
inc64_times_add zero k a = ap (λ n. inc64_times n a) {x = k} {y = zero + k} (omega arith)
inc64_times_add (suc j) k a =
    inc64_times_add j k (inc64 a)
    ∙ ap (λ n. inc64_times n a) {x = suc (j + k)} {y = suc j + k} (omega arith)

module _ {F : Type 0} where
  -- What reports of finished sequences do: `d` and `done` before, `d'` and `done'` after.
  pub record Retired (ids : List RequestId) (d : DecodeScheduler F) (done : List (RunningSeq F))
      (d' : DecodeScheduler F) (done' : List (RunningSeq F)) : Type 0 where
    pub unknown : ℕ
    pub reported : length done' + unknown ≡ length done + length ids
    pub counted : d'.unknown_finish_reports ≡ inc64_times unknown d.unknown_finish_reports
    pub left : (j : ℕ) → lookup j d'.running ≡ (if contains ids j then none else lookup j d.running)
    pub steered : d'.controller ≡ d.controller
    pub settled : d'.finish_disagreements ≡ d.finish_disagreements

  finish_one-Retired :
      (id : RequestId) (d : DecodeScheduler F) (done : List (RunningSeq F))
      → Retired (id ∷ []) d done (finish_one id (d, done)).0 (finish_one id (d, done)).1
  unfolding finish_one
  finish_one-Retired id d done = elim (Option-cases (lookup id d.running)) [
    | inl n ↦
        rw (n, finish_one)
          (record {
            unknown = 1;
            reported = omega arith;
            counted = refl;
            left = λ j. ground (arith, λ (q : id ≡ j). ap (λ k. lookup k d.running) q);
            steered = refl;
            settled = refl;
          })
    | inr (s, e) ↦
        rw (e, finish_one)
          (record {
            unknown = 0;
            reported = omega (arith, length-append done (s ∷ []));
            counted = refl;
            left = λ j. ground (arith, lookup-remove id j d.running);
            steered = refl;
            settled = refl;
          })
  ]

  finish_all-Retired :
      (ids : List RequestId) (d : DecodeScheduler F) (done : List (RunningSeq F))
      → Retired ids d done (finish_all ids (d, done)).0 (finish_all ids (d, done)).1
  unfolding finish_all
  finish_all-Retired [] d done = record {
    unknown = 0;
    reported = refl;
    counted = refl;
    left = λ j. refl;
    steered = refl;
    settled = refl;
  }
  finish_all-Retired (id ∷ ids) d done =
      let one = finish_one-Retired id d done in
      let d₁ = (finish_one id (d, done)).0 in
      let rest = finish_all-Retired ids d₁ (finish_one id (d, done)).1 in
      record {
        unknown = one.unknown + rest.unknown;
        reported = omega (arith, one.reported, rest.reported);
        counted =
            rest.counted
            ∙ ap (inc64_times rest.unknown) one.counted
            ∙ inc64_times_add one.unknown rest.unknown _;
        left = λ j. ground (arith, one.left j, rest.left j);
        steered = rest.steered ∙ one.steered;
        settled = rest.settled ∙ one.settled;
      }

  finish_one-IsConsistent :
      (id : RequestId) (d : DecodeScheduler F) (done : List (RunningSeq F))
      → IsConsistent d
      → IsConsistent (finish_one id (d, done)).0
  unfolding finish_one
  finish_one-IsConsistent id d done v = elim (Option-cases (lookup id d.running)) [
    | inl n ↦ rw (n, finish_one) (record { sequences = v.sequences; flags = v.flags })
    | inr (s, e) ↦
        rw (e, finish_one)
          (record {
            sequences = All-remove IsEntry id d.running v.sequences;
            flags = λ j.
                ground (
                  arith,
                  v.flags j,
                  lookup-remove id j d.running,
                  contains-retain_ne id j d.flagged,
                );
          })
  ]

  finish_all-IsConsistent :
      (ids : List RequestId) (d : DecodeScheduler F) (done : List (RunningSeq F))
      → IsConsistent d
      → IsConsistent (finish_all ids (d, done)).0
  unfolding finish_all
  finish_all-IsConsistent [] d done v = v
  finish_all-IsConsistent (id ∷ ids) d done v =
      finish_all-IsConsistent ids _ _ (finish_one-IsConsistent id d done v)

  -- What flagging sequences does: each one done is flagged, and each new flag is counted once.
  pub record Flagged (seqs : List (RunningSeq F)) (d d' : DecodeScheduler F) : Type 0 where
    pub fresh : ℕ
    pub more : length d'.flagged ≡ length d.flagged + fresh
    pub counted : d'.finish_disagreements ≡ inc64_times fresh d.finish_disagreements
    pub kept : (j : ℕ) → (contains d.flagged j && not (contains d'.flagged j)) ≡ false
    pub each : All (λ s. (is_done s && not (contains d'.flagged s.id)) ≡ false) seqs
    pub running : d'.running ≡ d.running
    pub steered : d'.controller ≡ d.controller
    pub unknown : d'.unknown_finish_reports ≡ d.unknown_finish_reports

  flag_all-Flagged :
      (seqs : List (RunningSeq F)) (d : DecodeScheduler F) → Flagged seqs d (flag_all seqs d)
  unfolding flag_all
  flag_all-Flagged [] d = record {
    fresh = 0;
    more = omega arith;
    counted = refl;
    kept = λ j. ground arith;
    each = tt;
    running = refl;
    steered = refl;
    unknown = refl;
  }
  flag_all-Flagged (s ∷ seqs) d =
      if_elim (λ d₁. Flagged (s ∷ seqs) d (flag_all seqs d₁))
        (is_done s && not (contains d.flagged s.id))
        (λ new.
          let d₁ : DecodeScheduler F = record d {
            flagged = s.id ∷ d.flagged;
            finish_disagreements = inc64 d.finish_disagreements;
          } in
          let rest = flag_all-Flagged seqs d₁ in
          record {
            fresh = suc rest.fresh;
            more = omega (arith, rest.more);
            counted = rest.counted;
            kept = λ j. ground (arith, rest.kept j);
            each = (ground (arith, rest.kept s.id), rest.each);
            running = rest.running;
            steered = rest.steered;
            unknown = rest.unknown;
          })
        (λ old.
          let rest = flag_all-Flagged seqs d in
          record {
            fresh = rest.fresh;
            more = rest.more;
            counted = rest.counted;
            kept = rest.kept;
            each = (ground (arith, old, rest.kept s.id), rest.each);
            running = rest.running;
            steered = rest.steered;
            unknown = rest.unknown;
          })

  -- The flags stay on running sequences.
  flag_all-IsConsistent :
      (seqs : List (RunningSeq F)) (d : DecodeScheduler F)
      → All (λ s. holds s.id d.running ≡ true) seqs
      → IsConsistent d
      → IsConsistent (flag_all seqs d)
  unfolding flag_all
  flag_all-IsConsistent [] d hs v = v
  flag_all-IsConsistent (s ∷ seqs) d (h, hs) v =
      if_elim (λ d₁. IsConsistent (flag_all seqs d₁)) (is_done s && not (contains d.flagged s.id))
        (λ new.
          flag_all-IsConsistent seqs
            (record d {
              flagged = s.id ∷ d.flagged;
              finish_disagreements = inc64 d.finish_disagreements;
            })
            hs
            (record {
              sequences = v.sequences;
              flags = λ j.
                  ground (arith, v.flags j, h, λ (q : s.id ≡ j). ap (λ k. holds k d.running) q);
            }))
        (λ old. flag_all-IsConsistent seqs d hs v)

  -- The sequences of a consistent map stand under their own ids.
  values-holds :
      (m n : Map (RunningSeq F))
      → All IsEntry n
      → All (λ e. holds e.0 m ≡ true) n
      → All (λ s. holds s.id m ≡ true) (values n)
  values-holds m [] es hs = tt
  values-holds m (e ∷ n) (v, es) (h, hs) =
      (subst (λ k. holds k m ≡ true) (sym v.keyed) h, values-holds m n es hs)

  -- A step keeps the scheduler consistent. A sequence runs after it exactly if it ran before and was
  -- not reported finished; a report returns the sequence or is counted as unknown, never both;
  -- the controller is left alone; and each running sequence that has emitted all it may is
  -- flagged.
  pub book_step-IsConsistent :
      (now : F) (advanced finished : List RequestId) (d : DecodeScheduler F)
      → IsConsistent d
      → (d' : DecodeScheduler F) × (done : List (RunningSeq F)) × (book_step now advanced finished d
          ≡ (d', done))
        × IsConsistent d'
        × ((j : ℕ) → holds j d'.running ≡ (holds j d.running && not (contains finished j)))
        × ((unknown : ℕ) × (length done + unknown ≡ length finished)
            × (d'.unknown_finish_reports ≡ inc64_times unknown d.unknown_finish_reports))
        × (d'.controller ≡ d.controller)
        × All (λ s. (is_done s && not (contains d'.flagged s.id)) ≡ false) (values d'.running)
  unfolding book_step
  book_step-IsConsistent now advanced finished d v =
      let per_step = max d.tokens_per_step 1 in
      let moved : DecodeScheduler F = record d {
        running = advance_all now per_step advanced d.running;
      } in
      let moved-IsConsistent : IsConsistent moved = record {
        sequences = advance_all-IsRunning now per_step advanced d.running v.sequences;
        flags = λ j. ground (arith, v.flags j, holds-advance_all now per_step advanced d.running j);
      } in
      let out = finish_all finished (moved, []) in
      let r = finish_all-Retired finished moved [] in
      let rv = finish_all-IsConsistent finished moved [] moved-IsConsistent in
      let seqs = values out.0.running in
      let f = flag_all-Flagged seqs out.0 in
      (
        _,
        _,
        refl,
        flag_all-IsConsistent seqs out.0
            (values-holds out.0.running out.0.running rv.sequences (All-holds out.0.running)) rv,
        (λ j. ground (
          arith,
          ap (holds j) f.running,
          r.left j,
          holds-advance_all now per_step advanced d.running j,
        )),
        (r.unknown, omega (arith, r.reported), f.unknown ∙ r.counted),
        f.steered ∙ r.steered,
        subst
            (λ m.
              All (λ s. (is_done s && not (contains (flag_all seqs out.0).flagged s.id)) ≡ false)
                (values m))
            (sym f.running) f.each,
      )
