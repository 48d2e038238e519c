-- ===== src/Core/Capacity/Plans.antt =====
-- core/src/capacity.rs, `search`: the splits of all the listed degrees, sorted and without repeats.
use trt_llm_rs.Prelude.{
  ℕ, zero, suc, ◌+◌, ◌-◌, ◌*◌, ◌/◌, ◌%◌, ◌≤◌, ◌<◌, ◌≡◌, refl, sym, ap, subst, ◌∙◌, ◌⊎◌, Option,
  some, List, [], ◌∷◌, ◌++◌, true, false, not, ◌||◌, arith, ◌==◌, All, All-append, All-weaken,
  Bool-cases, inl, inr,
}
use mathlib.Core.Option.{some-injective}
use native.Mathlib.Nat.{div-add-mod}
use trt_llm_rs.Prelude.Float.{Floats}
use trt_llm_rs.Prelude.Sort.{sort_by, All-sort_by, IsTotal, IsSorted, sort_by-IsSorted}
use trt_llm_rs.Core.Capacity.{
  prefill, decode, PdSplit, CapacityModel, evaluate, fits, dedup, search_pair, search_decode,
  search_prefill, by_goodput, search, ◌>>=◌,
}
use trt_llm_rs.Core.Capacity.Search.{Has, IsSplit, search_from-From}
use trt_llm_rs.Core.Capacity.Dedup.{
  Has-append, Has-sort_by, All-dedup, IsSorted-dedup, by_goodput-IsTotal, IsKeyed, Has-dedup,
}

abbrev pub AnyOf : List ℕ → (ℕ → Type 0) → Type 0
AnyOf [] P = ⊥
AnyOf (n ∷ ns) P = P n ⊎ AnyOf ns P

times_lem : (q n k : ℕ) → 0 < n → n ≤ q → n * k + q % n ≡ q → q % n ≡ 0 → q ≡ n + (k - 1) * n
times_lem q n zero pos le e w = absurd (grind arith)
times_lem q n (suc k) pos le e w = grind arith

whole_multiple : (q n : ℕ) → 0 < n → q % n ≡ 0 → n ≤ q → q ≡ n + (q / n - 1) * n
whole_multiple q n pos whole le = times_lem q n (q / n) pos le (div-add-mod q n) whole

-- The result is the list of exactly the splits that satisfy `P`.
record Exactly {F : Type 0} (P : PdSplit F → Type 0) (tried : Option (List (PdSplit F)))
    : Type 0 where
  splits : List (PdSplit F)
  found : tried ≡ some splits
  sound : All P splits
  complete : (s : PdSplit F) → P s → Has s splits

-- One part of the search after another.
Exactly-append :
    {F : Type 0} (P Q : PdSplit F → Type 0) (a b : Option (List (PdSplit F)))
    → Exactly P a
    → Exactly Q b
    → Exactly (λ s. P s ⊎ Q s) (do here ← a; later ← b; some (here ++ later))
Exactly-append P Q a b x y = record {
  splits = x.splits ++ y.splits;
  found = ground (arith, x.found, y.found);
  sound =
      All-append (λ s. P s ⊎ Q s) x.splits y.splits
        (All-weaken P (λ s. P s ⊎ Q s) x.splits (λ s p. inl p) x.sound)
        (All-weaken Q (λ s. P s ⊎ Q s) y.splits (λ s q. inr q) y.sound);
  complete = λ s h.
      Has-append s x.splits y.splits
        (elim h [ inl p ↦ inl (x.complete s p) | inr q ↦ inr (y.complete s q) ]);
}

module _ {F : Type 0} (fl : Floats F) (m : CapacityModel F) (total : ℕ) where
  -- A split that divides the GPUs into whole workers of these degrees, each of which fits in memory.
  pub record IsPlan (ptp dtp : ℕ) (s : PdSplit F) : Type 0 where
    pub ptp_pos : 0 < ptp
    pub dtp_pos : 0 < dtp
    pub prefill_fits : fits fl ptp prefill m ≡ true
    pub decode_fits : fits fl dtp decode m ≡ true
    pub split : IsSplit fl m total ptp dtp s

  module _ (rates : (p d ptp dtp : ℕ) → (s : PdSplit F) × (evaluate fl p d ptp dtp m ≡ some s))
      (small : total < 0x4000_0000) where
    not_skipped :
        (ptp dtp : ℕ)
        → 0 < ptp
        → 0 < dtp
        → fits fl ptp prefill m ≡ true
        → fits fl dtp decode m ≡ true
        → false
          ≡ (ptp == 0 || dtp == 0 || not (fits fl ptp prefill m) || not (fits fl dtp decode m))
    not_skipped ptp dtp a b c d = ground arith

    search_pair-Exactly :
        (ptp dtp : ℕ)
        → ptp < 0x4000_0000
        → dtp < 0x4000_0000
        → Exactly (IsPlan ptp dtp) (search_pair fl total ptp dtp m)
    unfolding search_pair
    search_pair-Exactly ptp dtp sp sd =
        elim (Bool-cases
          (ptp == 0 || dtp == 0 || not (fits fl ptp prefill m) || not (fits fl dtp decode m))) [
            | inl skip ↦ record {
              splits = [];
              found = ground arith;
              sound = tt;
              complete = λ s c.
                  cc (not_skipped ptp dtp c.ptp_pos c.dtp_pos c.prefill_fits c.decode_fits ∙ skip);
            }
            | inr go ↦
                let pp : 0 < ptp = ground arith in
                let dp : 0 < dtp = ground arith in
                let pf : fits fl ptp prefill m ≡ true = ground arith in
                let df : fits fl dtp decode m ≡ true = ground arith in
                let f =
                  search_from-From fl m total rates small ptp dtp pp dp sp sd total ptp
                    (omega arith) (omega arith) (omega arith) in
                record {
                  splits = f.splits;
                  found = ground (arith, f.found);
                  sound =
                      All-weaken (IsSplit fl m total ptp dtp) (IsPlan ptp dtp) f.splits
                        (λ s c. record {
                          ptp_pos = pp;
                          dtp_pos = dp;
                          prefill_fits = pf;
                          decode_fits = df;
                          split = c;
                        })
                        f.sound;
                  complete = λ s c.
                      let v = c.split in
                      let rest : s.decode_gpus ≡ total - s.prefill_gpus = omega (arith, v.covers) in
                      f.complete (s.prefill_gpus / ptp - 1) s.prefill_gpus s
                        (whole_multiple s.prefill_gpus ptp pp v.prefill_workers.0
                          v.prefill_workers.1)
                        (omega (arith, v.covers, v.decode_workers.1)) v.prefill_workers.0
                        (ap (λ n. n % dtp) (sym rest) ∙ v.decode_workers.0)
                        (subst (λ n. evaluate fl s.prefill_gpus n ptp dtp m ≡ some s) rest v.rated);
                }
          ]

    search_decode-Exactly :
        (ptp : ℕ) (dtps : List ℕ)
        → ptp < 0x4000_0000
        → All (λ t. t < 0x4000_0000) dtps
        → Exactly (λ s. AnyOf dtps (λ dtp. IsPlan ptp dtp s)) (search_decode fl total ptp dtps m)
    unfolding search_decode
    search_decode-Exactly ptp [] sp sd = record {
      splits = [];
      found = refl;
      sound = tt;
      complete = λ s h. h;
    }
    search_decode-Exactly ptp (dtp ∷ dtps) sp (sd, sds) =
        Exactly-append (IsPlan ptp dtp) (λ s. AnyOf dtps (λ t. IsPlan ptp t s))
          (search_pair fl total ptp dtp m) (search_decode fl total ptp dtps m)
          (search_pair-Exactly ptp dtp sp sd) (search_decode-Exactly ptp dtps sp sds)

    search_prefill-Exactly :
        (ptps dtps : List ℕ)
        → All (λ t. t < 0x4000_0000) ptps
        → All (λ t. t < 0x4000_0000) dtps
        → Exactly
            (λ s. AnyOf ptps (λ ptp. AnyOf dtps (λ dtp. IsPlan ptp dtp s)))
            (search_prefill fl total ptps dtps m)
    unfolding search_prefill
    search_prefill-Exactly [] dtps sp sd = record {
      splits = [];
      found = refl;
      sound = tt;
      complete = λ s h. h;
    }
    search_prefill-Exactly (ptp ∷ ptps) dtps (sp, sps) sd =
        Exactly-append (λ s. AnyOf dtps (λ t. IsPlan ptp t s))
          (λ s. AnyOf ptps (λ p. AnyOf dtps (λ t. IsPlan p t s)))
          (search_decode fl total ptp dtps m) (search_prefill fl total ptps dtps m)
          (search_decode-Exactly ptp dtps sp sd) (search_prefill-Exactly ptps dtps sps sd)

  AnyOf_elim : (P : ℕ → Type 0) (Q : Type 0) (ns : List ℕ) → ((n : ℕ) → P n → Q) → AnyOf ns P → Q
  AnyOf_elim P Q [] f h = elim h [ ]
  AnyOf_elim P Q (n ∷ ns) f (inl p) = f n p
  AnyOf_elim P Q (n ∷ ns) f (inr h) = AnyOf_elim P Q ns f h

  -- What `evaluate` makes of the four fields is the split.
  IsRated : PdSplit F → Type 0
  IsRated s = evaluate fl s.prefill_gpus s.decode_gpus s.prefill_tp s.decode_tp m ≡ some s

  IsPlan-IsRated : (ptp dtp : ℕ) (s : PdSplit F) → IsPlan ptp dtp s → IsRated s
  unfolding IsRated
  IsPlan-IsRated ptp dtp s c =
      subst (λ n. evaluate fl s.prefill_gpus s.decode_gpus n s.decode_tp m ≡ some s)
        (sym c.split.prefill_tp)
        (subst (λ n. evaluate fl s.prefill_gpus s.decode_gpus ptp n m ≡ some s)
          (sym c.split.decode_tp) c.split.rated)

  IsRated-IsKeyed : IsKeyed IsRated
  unfolding IsRated
  IsRated-IsKeyed = record {
    same = λ a b ra rb e.
        let p : a.prefill_gpus ≡ b.prefill_gpus = ground arith in
        let d : a.decode_gpus ≡ b.decode_gpus = ground arith in
        let pt : a.prefill_tp ≡ b.prefill_tp = ground arith in
        let dt : a.decode_tp ≡ b.decode_tp = ground arith in
        some-injective a b (sym ra ∙ (λ i. evaluate fl (p i) (d i) (pt i) (dt i) m) ∙ rb);
  }

  -- The search ends, if no rate fails to compare, for degrees and a number of GPUs below 2^30. It
  -- lists exactly the splits that give all the GPUs to whole workers, at least one of each kind, of a
  -- listed degree of prefill and a listed degree of decode each of which fits in memory, with the
  -- rates that `evaluate` gives them; and if the total order on `f64` is one, no split is listed
  -- before one that goes before it by goodput and then by the two rates together.
  pub search_exact :
      (ptps dtps : List ℕ)
      → ((p d ptp dtp : ℕ) → (s : PdSplit F) × (evaluate fl p d ptp dtp m ≡ some s))
      → total < 0x4000_0000
      → All (λ t. t < 0x4000_0000) ptps
      → All (λ t. t < 0x4000_0000) dtps
      → IsTotal fl.total_cmp
      → (out : List (PdSplit F)) × (search fl total ptps dtps m ≡ some out)
        × All (λ s. AnyOf ptps (λ ptp. AnyOf dtps (λ dtp. IsPlan ptp dtp s))) out
        × ((s : PdSplit F) → AnyOf ptps (λ ptp. AnyOf dtps (λ dtp. IsPlan ptp dtp s)) → Has s out)
        × IsSorted (by_goodput fl) out
  unfolding search
  search_exact ptps dtps rates small sp sd total_order =
      let P : PdSplit F → Type 0 = λ s. AnyOf ptps (λ ptp. AnyOf dtps (λ dtp. IsPlan ptp dtp s)) in
      let e = search_prefill-Exactly rates small ptps dtps sp sd in
      let sorted = sort_by (by_goodput fl) e.splits in
      let all_P = All-sort_by P (by_goodput fl) e.splits e.sound in
      let all_rated =
        All-weaken P IsRated sorted
          (λ s h.
            AnyOf_elim (λ ptp. AnyOf dtps (λ dtp. IsPlan ptp dtp s)) (IsRated s) ptps
              (λ ptp.
                AnyOf_elim (λ dtp. IsPlan ptp dtp s) (IsRated s) dtps
                  (λ dtp. IsPlan-IsRated ptp dtp s))
              h)
          all_P in
      (
        dedup sorted,
        ground (arith, e.found),
        All-dedup P sorted all_P,
        (λ s h.
            Has-dedup IsRated IsRated-IsKeyed s sorted all_rated
              (Has-sort_by (by_goodput fl) s e.splits (e.complete s h))),
        IsSorted-dedup (by_goodput fl) sorted
            (sort_by-IsSorted (by_goodput fl) (by_goodput-IsTotal fl total_order) e.splits),
      )
