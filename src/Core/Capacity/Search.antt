-- ===== src/Core/Capacity/Search.antt =====
-- core/src/capacity.rs, `search`: exactly the splits that divide the GPUs and fit in memory.
use trt_llm_rs.Prelude.{
  ℕ, zero, suc, ◌+◌, ◌-◌, ◌*◌, ◌%◌, ◌≤◌, ◌<◌, ◌≡◌, sym, ap, subst, ◌∙◌, ◌⊎◌, Option, some, List, [],
  ◌∷◌, Bool, true, false, ◌&&◌, arith, leb, ◌==◌, if◌then◌else◌, All, Option-cases, Bool-cases, inl,
  inr,
}
use mathlib.Core.Option.{some-injective}
use trt_llm_rs.Prelude.Float.{Floats}
use trt_llm_rs.Prelude.Words.{u32_mod, wrapping_add32}
use trt_llm_rs.Core.Calibration.{decode_rate, prefill_req_per_s}
use trt_llm_rs.Core.Capacity.{
  PdSplit, CapacityModel, workers_of, transfer_rate, sorted_rates, first_two, evaluate, search_from,
}

-- Membership, with the place.
abbrev pub Has : {F : Type 0} → PdSplit F → List (PdSplit F) → Type 0
Has a [] = ⊥
Has a (x ∷ xs) = (a ≡ x) ⊎ Has a xs

module _ {F : Type 0} (fl : Floats F) (m : CapacityModel F) (total : ℕ) where
  -- A split of all the GPUs into whole workers of the two degrees, as `evaluate` rates it.
  pub record IsSplit (ptp dtp : ℕ) (s : PdSplit F) : Type 0 where
    pub prefill_tp : s.prefill_tp ≡ ptp
    pub decode_tp : s.decode_tp ≡ dtp
    pub covers : s.prefill_gpus + s.decode_gpus ≡ total
    pub prefill_workers : (s.prefill_gpus % ptp ≡ 0) × (ptp ≤ s.prefill_gpus)
    pub decode_workers : (s.decode_gpus % dtp ≡ 0) × (dtp ≤ s.decode_gpus)
    pub rated : evaluate fl s.prefill_gpus s.decode_gpus ptp dtp m ≡ some s

  evaluate_fields :
      (p d ptp dtp : ℕ) (s : PdSplit F)
      → evaluate fl p d ptp dtp m ≡ some s
      → (s.prefill_gpus ≡ p) × (s.decode_gpus ≡ d) × (s.prefill_tp ≡ ptp) × (s.decode_tp ≡ dtp)
  unfolding evaluate
  evaluate_fields p d ptp dtp s e =
      elim (Option-cases (decode_rate fl d m.osl m.slo m.itl_safety m.decode_cal)) [
        | inl panic ↦ absurd (ground arith)
        | inr (dr, rated) ↦
            elim (Option-cases (
              sorted_rates fl
                (prefill_req_per_s fl (workers_of p ptp * ptp) ptp m.isl m.prefill_cal) dr
                (transfer_rate fl (workers_of d dtp) m))) [
                  | inl panic ↦ absurd (ground arith)
                  | inr (rs, sorted) ↦ elim (Option-cases (first_two rs)) [
                    | inl short ↦ absurd (ground arith)
                    | inr ((r, second), two) ↦ ground arith
                  ]
                ]
      ]

  module _ (rates : (p d ptp dtp : ℕ) → (s : PdSplit F) × (evaluate fl p d ptp dtp m ≡ some s))
      (small : total < 0x4000_0000) (ptp dtp : ℕ) (ptp_pos : 0 < ptp) (dtp_pos : 0 < dtp)
      (ptp_small : ptp < 0x4000_0000) (dtp_small : dtp < 0x4000_0000) where
    abbrev pub IsComplete : ℕ → List (PdSplit F) → Type 0
    IsComplete p splits =
        (k q : ℕ) (s : PdSplit F)
        → q ≡ p + k * ptp
        → q + dtp ≤ total
        → q % ptp ≡ 0
        → (total - q) % dtp ≡ 0
        → evaluate fl q (total - q) ptp dtp m ≡ some s
        → Has s splits

    -- What the loop finds from `p` on.
    pub record From (p : ℕ) (tried : Option (List (PdSplit F))) : Type 0 where
      pub splits : List (PdSplit F)
      pub found : tried ≡ some splits
      pub sound : All (IsSplit ptp dtp) splits
      pub complete : IsComplete p splits

    extend-IsComplete :
        (p : ℕ) (later splits : List (PdSplit F))
        → IsComplete (p + ptp) later
        → ((s : PdSplit F)
            → p % ptp ≡ 0
            → (total - p) % dtp ≡ 0
            → evaluate fl p (total - p) ptp dtp m ≡ some s
            → Has s splits)
        → ((s : PdSplit F) → Has s later → Has s splits)
        → IsComplete p splits
    extend-IsComplete p later splits c here keep zero q s e room a b r =
        let is : q ≡ p = omega arith in
        here s (subst (λ n. n % ptp ≡ 0) is a) (subst (λ n. (total - n) % dtp ≡ 0) is b)
          (subst (λ n. evaluate fl n (total - n) ptp dtp m ≡ some s) is r)
    extend-IsComplete p later splits c here keep (suc k) q s e room a b r =
        keep s (c k q s (omega arith) room a b r)

    ended :
        (fuel p : ℕ)
        → leb (wrapping_add32 p dtp) total ≡ false
        → search_from fl (suc fuel) total ptp dtp p m ≡ some []
    unfolding search_from
    ended fuel p over = ground arith

    unwound :
        (fuel p : ℕ) (b : Bool) (later : List (PdSplit F)) (s : PdSplit F)
        → leb (wrapping_add32 p dtp) total ≡ true
        → (((total + u32_mod - p) % u32_mod % dtp == 0) && (p % ptp == 0)) ≡ b
        → search_from fl fuel total ptp dtp (wrapping_add32 p ptp) m ≡ some later
        → evaluate fl p ((total + u32_mod - p) % u32_mod) ptp dtp m ≡ some s
        → search_from fl (suc fuel) total ptp dtp p m ≡ some (if b then s ∷ later else later)
    unfolding search_from
    unwound fuel p true later s inside test rest rated = ground arith
    unwound fuel p false later s inside test rest rated = ground arith

    found_lem :
        (fuel p : ℕ) (b : Bool) (later : List (PdSplit F)) (s : PdSplit F)
        → p + dtp ≤ total
        → (((total - p) % dtp == 0) && (p % ptp == 0)) ≡ b
        → search_from fl fuel total ptp dtp (p + ptp) m ≡ some later
        → evaluate fl p (total - p) ptp dtp m ≡ some s
        → search_from fl (suc fuel) total ptp dtp p m ≡ some (if b then s ∷ later else later)
    found_lem fuel p b later s room test rest rated =
        let next : wrapping_add32 p ptp ≡ p + ptp = omega arith in
        let d_is : (total + u32_mod - p) % u32_mod ≡ total - p = omega arith in
        let inside : leb (wrapping_add32 p dtp) total ≡ true = ground arith in
        let rest' : search_from fl fuel total ptp dtp (wrapping_add32 p ptp) m ≡ some later =
          subst (λ n. search_from fl fuel total ptp dtp n m ≡ some later) (sym next) rest in
        let rated' : evaluate fl p ((total + u32_mod - p) % u32_mod) ptp dtp m ≡ some s =
          subst (λ n. evaluate fl p n ptp dtp m ≡ some s) (sym d_is) rated in
        let test' : (((total + u32_mod - p) % u32_mod % dtp == 0) && (p % ptp == 0)) ≡ b =
          subst (λ n. ((n % dtp == 0) && (p % ptp == 0)) ≡ b) (sym d_is) test in
        unwound fuel p b later s inside test' rest' rated'

    inside-From :
        (fuel p : ℕ)
        → p + dtp ≤ total
        → ptp ≤ p
        → From (p + ptp) (search_from fl fuel total ptp dtp (p + ptp) m)
        → From p (search_from fl (suc fuel) total ptp dtp p m)
    inside-From fuel p room low later =
        let (s, rated) = rates p (total - p) ptp dtp in
        let (is_p, is_d, is_ptp, is_dtp) = evaluate_fields p (total - p) ptp dtp s rated in
        elim (Bool-cases (((total - p) % dtp == 0) && (p % ptp == 0))) [
          | inr skipped ↦ record {
            splits = later.splits;
            found = found_lem fuel p false later.splits s room skipped later.found rated;
            sound = later.sound;
            complete =
                extend-IsComplete p later.splits later.splits later.complete
                  (λ s' a b _. absurd (ground arith)) (λ s' here. here);
          }
          | inl kept ↦ record {
            splits = s ∷ later.splits;
            found = found_lem fuel p true later.splits s room kept later.found rated;
            sound = (
              record {
                prefill_tp = is_ptp;
                decode_tp = is_dtp;
                covers = omega arith;
                prefill_workers = (ap (λ n. n % ptp) is_p ∙ (ground arith), omega arith);
                decode_workers = (ap (λ n. n % dtp) is_d ∙ (ground arith), omega arith);
                rated =
                    subst (λ n. evaluate fl n s.decode_gpus ptp dtp m ≡ some s) (sym is_p)
                      (subst (λ n. evaluate fl p n ptp dtp m ≡ some s) (sym is_d) rated);
              },
              later.sound,
            );
            complete =
                extend-IsComplete p later.splits (s ∷ later.splits) later.complete
                  (λ s' _ _ r. inl (some-injective s' s (sym r ∙ rated))) (λ s' here. inr here);
          }
        ]

    pub search_from-From :
        (fuel p : ℕ)
        → total ≤ p + fuel
        → ptp ≤ p
        → p ≤ total + ptp
        → From p (search_from fl (suc fuel) total ptp dtp p m)
    search_from-From zero p h low high = elim (Bool-cases (leb (wrapping_add32 p dtp) total)) [
      | inl inside ↦ absurd (ground arith)
      | inr over ↦
          let past : total < p + dtp = ground arith in
          record {
            splits = [];
            found = ended zero p over;
            sound = tt;
            complete = λ k q s e room _ _ _. absurd (omega arith);
          }
    ]
    search_from-From (suc fuel) p h low high =
        elim (Bool-cases (leb (wrapping_add32 p dtp) total)) [
          | inl inside ↦
              let room : p + dtp ≤ total = ground arith in
              inside-From (suc fuel) p room low
                (search_from-From fuel (p + ptp) (omega arith) (omega arith) (omega arith))
          | inr over ↦
              let past : total < p + dtp = ground arith in
              record {
                splits = [];
                found = ended (suc fuel) p over;
                sound = tt;
                complete = λ k q s e room _ _ _. absurd (omega arith);
              }
        ]
