-- ===== src/Sched/Controller/Range.antt =====
-- The bounds of the cap of `ItlController` in crates/sched/src/decode.rs.
use trt_llm_rs.Prelude.{
  ℕ, ◌≡◌, refl, some, sym, subst, true, false, ◌&&◌, ltb, leb, if◌then◌else◌, if_elim,
}
use trt_llm_rs.Prelude.Float.{Floats, clamp}
use trt_llm_rs.Sched.Controller.{
  ItlController, new, reset_probe, give_up, back_off, take_sample, is_low, is_high, resume,
  open_probe, improved, decrease, judge, throttle, grow, steer, observe,
}

-- What the controller takes of the comparisons and of two multiples; each holds of IEEE values, a NaN
-- being on no side of `≤`.
pub record CapLaws {F : Type 0} (fl : Floats F) : Type 0 where
  pub le_refl : (a b : F) → fl.le a b ≡ true → (fl.le a a ≡ true) × (fl.le b b ≡ true)
  pub le_trans : (a b c : F) → fl.le a b ≡ true → fl.le b c ≡ true → fl.le a c ≡ true
  pub le_lt : (a b : F) → fl.le a a ≡ true → fl.le b b ≡ true → fl.lt a b ≡ false → fl.le b a ≡ true
  pub fmax_upper : (a b : F) → fl.le b b ≡ true → fl.le b (fl.fmax a b) ≡ true
  pub fmax_least : (a b c : F) → fl.le a c ≡ true → fl.le b c ≡ true → fl.le (fl.fmax a b) c ≡ true
  pub fmin_lower :
      (a b : F)
      → fl.le a a ≡ true
      → fl.le b b ≡ true
      → (fl.le (fl.fmin a b) a ≡ true) × (fl.le (fl.fmin a b) b ≡ true)
  pub fmin_greatest :
      (a b c : F) → fl.le c a ≡ true → fl.le c b ≡ true → fl.le c (fl.fmin a b) ≡ true
  pub of_ℕ_nonneg : (n : ℕ) → fl.le (fl.literal 0 1) (fl.of_ℕ n) ≡ true
  pub nine_tenths :
      (a : F) → fl.le (fl.literal 0 1) a ≡ true → fl.le (fl.mul a (fl.literal 9 10)) a ≡ true
  pub one_more : (a : F) → fl.le a a ≡ true → fl.le a (fl.add a (fl.literal 1 1)) ≡ true

-- A cap between two bounds, neither of them negative, that moves by 1 and by 9/10.
pub record Range {F : Type 0} (fl : Floats F) (min_cap cap max_cap step factor : F) : Type 0 where
  pub floor : fl.le (fl.literal 0 1) min_cap ≡ true
  pub low : fl.le min_cap cap ≡ true
  pub high : fl.le cap max_cap ≡ true
  pub steps : step ≡ fl.literal 1 1
  pub factors : factor ≡ fl.literal 9 10

pub record InRange {F : Type 0} (fl : Floats F) (c : ItlController F) : Type 0 where
  pub range : Range fl c.min_cap c.cap c.max_cap c.increase_step c.decrease_factor

module _ {F : Type 0} (fl : Floats F) (laws : CapLaws fl) where
  new_Range :
      (initial lo hi : F)
      → fl.le (fl.literal 0 1) lo ≡ true
      → fl.le lo hi ≡ true
      → fl.le initial initial ≡ true
      → Range fl lo (clamp fl initial lo hi) hi (fl.literal 1 1) (fl.literal 9 10)
  new_Range initial lo hi z h i =
      let (_, top) = laws.le_refl lo hi h in
      let at_least : F = if fl.lt initial lo then lo else initial in
      let above : fl.le lo at_least ≡ true =
        if_elim (λ a. fl.le lo a ≡ true) (fl.lt initial lo) (λ _. (laws.le_refl lo hi h).0)
          (λ e. laws.le_lt initial lo i (laws.le_refl lo hi h).0 e) in
      record {
        floor = z;
        low = if_elim (λ a. fl.le lo a ≡ true) (fl.lt hi at_least) (λ _. h) (λ _. above);
        high =
            if_elim (λ a. fl.le a hi ≡ true) (fl.lt hi at_least) (λ _. top)
              (λ e. laws.le_lt hi at_least top (laws.le_refl lo at_least above).1 e);
        steps = refl;
        factors = refl;
      }

  -- From bounds in order, neither of them negative, and an initial cap that is a number, the
  -- controller starts with a cap between the bounds.
  pub new-InRange :
      (target_ms initial lo hi : F)
      → fl.le (fl.literal 0 1) lo ≡ true
      → fl.le lo hi ≡ true
      → fl.le initial initial ≡ true
      → (c : ItlController F) × (new fl target_ms initial lo hi ≡ some c) × InRange fl c
  unfolding new
  new-InRange target_ms initial lo hi z h i =
      rw h (_, refl, record { range = new_Range initial lo hi z h i })

  raised :
      {lo cap hi step factor : F}
      → Range fl lo cap hi step factor
      → Range fl lo (fl.fmin (fl.add cap step) hi) hi step factor
  raised {cap} {hi} {step} v =
      let (self, top) = laws.le_refl _ _ v.high in
      let more =
        subst (λ s. fl.le cap (fl.add cap s) ≡ true) (sym v.steps) (laws.one_more cap self) in
      record {
        floor = v.floor;
        low =
            laws.fmin_greatest _ _ _ (laws.le_trans _ _ _ v.low more)
              (laws.le_trans _ _ _ v.low v.high);
        high = (laws.fmin_lower _ _ (laws.le_refl _ _ more).1 top).1;
        steps = v.steps;
        factors = v.factors;
      }

  -- Lowered from `binding`, which is not over the cap.
  lowered :
      {lo cap hi step factor : F} (binding : F)
      → Range fl lo cap hi step factor
      → fl.le (fl.literal 0 1) binding ≡ true
      → fl.le binding cap ≡ true
      → Range fl lo (fl.fmax (fl.mul binding factor) lo) hi step factor
  lowered {lo} {cap} {hi} {step} {factor} binding v z b =
      let less =
        subst (λ s. fl.le (fl.mul binding s) binding ≡ true) (sym v.factors)
          (laws.nine_tenths binding z) in
      record {
        floor = v.floor;
        low = laws.fmax_upper _ _ (laws.le_refl _ _ v.low).0;
        high =
            laws.fmax_least _ _ _ (laws.le_trans _ _ _ less (laws.le_trans _ _ _ b v.high))
              (laws.le_trans _ _ _ v.low v.high);
        steps = v.steps;
        factors = v.factors;
      }

  given_up :
      {lo cap hi step factor : F} → Range fl lo cap hi step factor → Range fl lo hi hi step factor
  given_up v = record {
    floor = v.floor;
    low = laws.le_trans _ _ _ v.low v.high;
    high = (laws.le_refl _ _ v.high).1;
    steps = v.steps;
    factors = v.factors;
  }

  cap_nonneg :
      {lo cap hi step factor : F}
      → Range fl lo cap hi step factor
      → fl.le (fl.literal 0 1) cap ≡ true
  cap_nonneg v = laws.le_trans _ _ _ v.floor v.low

  pub back_off-InRange : (c : ItlController F) → InRange fl c → InRange fl (back_off fl c)
  unfolding back_off
  back_off-InRange c v = record {
    range = lowered c.cap v.range (cap_nonneg v.range) (laws.le_refl _ _ v.range.high).0;
  }

  give_up-InRange : (c : ItlController F) → InRange fl c → InRange fl (give_up fl c)
  unfolding give_up
  give_up-InRange c v = record { range = given_up v.range }

  decrease-InRange : (n : ℕ) (c : ItlController F) → InRange fl c → InRange fl (decrease fl n c)
  unfolding decrease
  decrease-InRange n c v =
      let self = (laws.le_refl _ _ v.range.high).0 in
      let number = (laws.le_refl _ _ (laws.of_ℕ_nonneg n)).1 in
      let down =
        if_elim
          (λ b. InRange fl (record c { cap = fl.fmax (fl.mul b c.decrease_factor) c.min_cap }))
          (ltb 0 n) {x = fl.fmin c.cap (fl.of_ℕ n)} {y = c.cap}
          (λ _. record {
            range =
                lowered _ v.range
                  (laws.fmin_greatest _ _ _ (cap_nonneg v.range) (laws.of_ℕ_nonneg n))
                  (laws.fmin_lower _ _ self number).0;
          })
          (λ _. record { range = lowered _ v.range (cap_nonneg v.range) self }) in
      let lowered_cap =
        fl.fmax (fl.mul (if ltb 0 n then fl.fmin c.cap (fl.of_ℕ n) else c.cap) c.decrease_factor)
          c.min_cap in
      if_elim (InRange fl) (fl.le lowered_cap (fl.mul c.min_cap (fl.literal 101 100)))
        (λ _. give_up-InRange (record c { cap = lowered_cap }) down) (λ _. down)

  open_probe-InRange : (c : ItlController F) → InRange fl c → InRange fl (open_probe fl c)
  unfolding open_probe
  open_probe-InRange c v =
      let opened =
        if_elim (InRange fl) (fl.is_infinite c.ewma_at_decrease)
          {x = record c { ewma_at_decrease = c.ewma_ms; observations_since_decrease = 0 }} {y = c}
          (λ _. record { range = v.range }) (λ _. v) in
      record { range = opened.range }

  judge-InRange : (n : ℕ) (c : ItlController F) → InRange fl c → InRange fl (judge fl n c)
  unfolding judge
  judge-InRange n c v =
      if_elim (InRange fl) (leb c.probe_window c.observations_since_decrease)
        (λ _.
          if_elim (InRange fl) (improved fl c)
            (λ _.
              decrease-InRange n
                (record c { ewma_at_decrease = c.ewma_ms; observations_since_decrease = 0 })
                (record { range = v.range }))
            (λ _. give_up-InRange c v))
        (λ _. decrease-InRange n c v)

  throttle-InRange : (n : ℕ) (c : ItlController F) → InRange fl c → InRange fl (throttle fl n c)
  unfolding throttle
  throttle-InRange n c v =
      if_elim (InRange fl) c.concurrency_not_binding (λ _. v)
        (λ _. judge-InRange n _ (open_probe-InRange c v))

  grow-InRange : (n : ℕ) (c : ItlController F) → InRange fl c → InRange fl (grow fl n c)
  unfolding grow
  grow-InRange n c v =
      if_elim (InRange fl) (is_low fl c && fl.le (fl.mul c.cap c.utilisation_gate) (fl.of_ℕ n))
        {x = reset_probe fl (record c { cap = fl.fmin (fl.add c.cap c.increase_step) c.max_cap })}
        (λ _. record { range = raised v.range }) (λ _. v)

  resume-InRange : (c : ItlController F) → InRange fl c → InRange fl (resume fl c)
  unfolding resume
  resume-InRange c v =
      if_elim (InRange fl) (c.concurrency_not_binding && is_low fl c)
        {x = reset_probe fl (record c { concurrency_not_binding = false })}
        (λ _. record { range = v.range }) (λ _. v)

  -- Whatever latency it observes and whatever the concurrency, the controller keeps its cap between
  -- the bounds.
  pub observe-InRange :
      (itl_ms : F) (n : ℕ) (c : ItlController F) → InRange fl c → InRange fl (observe fl itl_ms n c)
  unfolding observe take_sample steer
  observe-InRange itl_ms n c v =
      let sampled : InRange fl (take_sample fl itl_ms c) = record { range = v.range } in
      let resumed = resume-InRange (take_sample fl itl_ms c) sampled in
      if_elim (InRange fl) (ltb (take_sample fl itl_ms c).samples 8) (λ _. sampled)
        (λ _.
          if_elim (InRange fl) (is_high fl (resume fl (take_sample fl itl_ms c)))
            (λ _. throttle-InRange n _ resumed) (λ _. grow-InRange n _ resumed))
