-- ===== src/Core/Capacity/Least.antt =====
-- core/src/capacity.rs, `evaluate`: the rate that is reported is the least of the three.
use trt_llm_rs.Prelude.{
  ℕ, ◌*◌, ◌≡◌, refl, sym, ap, subst, ◌∙◌, none, some, List, [], ◌∷◌, map, Bool, true, false, arith,
  All, Option-cases, Bool-cases, inl, inr, Ordering, ◌&&◌,
}
use mathlib.Core.Option.{some-injective}
use trt_llm_rs.Prelude.Float.{Floats}
use trt_llm_rs.Prelude.Sort.{sort_by, insert_by, flip, IsTotal, IsSorted, le_by, sort_by-IsSorted}
use trt_llm_rs.Core.Calibration.{decode_rate, prefill_req_per_s}
use trt_llm_rs.Core.Capacity.{
  Bottleneck, prefill_bound, decode_bound, kv_transfer, PdSplit, CapacityModel, workers_of,
  transfer_rate, compares, by_rate, sorted_rates, first_two, evaluate,
}

module _ {ℓ κ} {A : Type ℓ} (P : A → Type κ) (cmp : A → A → Ordering) where
  insert_by-All : (x : A) (xs : List A) → All P (insert_by cmp x xs) → P x × All P xs
  unfolding insert_by
  insert_by-All x [] = λ ps. ps
  insert_by-All x (y ∷ ys) =
      elim (cmp x y)
        as (λ o.
          All P (elim o [ Ordering.gt ↦ y ∷ insert_by cmp x ys | _ ↦ x ∷ y ∷ ys ])
          → P x × All P (y ∷ ys)) [
            | Ordering.lt ↦ λ ps. ps
            | Ordering.eq ↦ λ ps. ps
            | Ordering.gt ↦ λ (q, qs). let (p, rest) = insert_by-All x ys qs in (p, (q, rest))
          ]

  sort_by-All : (xs : List A) → All P (sort_by cmp xs) → All P xs
  unfolding sort_by
  sort_by-All [] ps = tt
  sort_by-All (x ∷ xs) ps =
      let (p, rest) = insert_by-All x (sort_by cmp xs) ps in (p, sort_by-All xs rest)

abbrev pub rate_named : {F : Type 0} → Bottleneck → PdSplit F → F
rate_named prefill_bound s = s.prefill_req_s
rate_named decode_bound s = s.decode_req_s
rate_named kv_transfer s = s.transfer_req_s

module _ {F : Type 0} (fl : Floats F) where
  abbrev three : F → F → F → List (Bottleneck × F)
  three p d t = (prefill_bound, p) ∷ (decode_bound, d) ∷ (kv_transfer, t) ∷ []

  abbrev of_three : F → F → F → Bottleneck → F
  of_three p d t prefill_bound = p
  of_three p d t decode_bound = d
  of_three p d t kv_transfer = t

  -- `a <= b`, which a NaN is on neither side of.
  abbrev pub at_most : F → F → Bool
  at_most a b = elim (fl.partial_cmp a b) [
    | none ↦ false
    | some Ordering.gt ↦ false
    | some _ ↦ true
  ]

  -- What `partial_cmp` documents: it answers exactly if neither value is a NaN, which is a value
  -- that does not compare with itself; it answers the other way round for the values swapped; and
  -- `<=` is transitive.
  pub record IsPartialOrder : Type 0 where
    pub answers : (a b : F) → compares fl a b ≡ (compares fl a a && compares fl b b)
    pub flips :
        (a b : F) (o : Ordering) → fl.partial_cmp a b ≡ some o → fl.partial_cmp b a ≡ some (flip o)
    pub trans : (a b c : F) → at_most a b ≡ true → at_most b c ≡ true → at_most a c ≡ true

  by_rate-flips :
      IsPartialOrder
      → (a b : Bottleneck × F) → compares fl a.1 b.1 ≡ true
      → by_rate fl b a ≡ flip (by_rate fl a b)
  unfolding by_rate
  by_rate-flips order a b c = elim (Option-cases (fl.partial_cmp a.1 b.1)) [
    | inl nan ↦ absurd (ground (arith, c))
    | inr (o, e) ↦ ground (arith, e, order.flips a.1 b.1 o e)
  ]

  module _ (order : IsPartialOrder) (p d t : F)
      (fine : (compares fl p d && compares fl p t && compares fl d t) ≡ true) where
    abbrev tag : Bottleneck → Bottleneck × F
    tag b = (b, of_three p d t b)

    abbrev by_name : Bottleneck → Bottleneck → Ordering
    by_name a b = by_rate fl (tag a) (tag b)

    is_number : (b : Bottleneck) → compares fl (of_three p d t b) (of_three p d t b) ≡ true
    is_number prefill_bound =
        ground (arith, order.answers p d, order.answers p t, order.answers d t, fine)
    is_number decode_bound =
        ground (arith, order.answers p d, order.answers p t, order.answers d t, fine)
    is_number kv_transfer =
        ground (arith, order.answers p d, order.answers p t, order.answers d t, fine)

    all_compare : (a b : Bottleneck) → compares fl (of_three p d t a) (of_three p d t b) ≡ true
    all_compare a b =
        order.answers (of_three p d t a) (of_three p d t b)
        ∙ ground (arith, is_number a, is_number b)

    at_most-by_name :
        (a b : Bottleneck) → at_most (of_three p d t a) (of_three p d t b) ≡ le_by by_name a b
    unfolding by_rate
    at_most-by_name a b = ground (arith, all_compare a b)

    by_name-IsTotal : IsTotal by_name
    unfolding by_rate
    by_name-IsTotal = record {
      flips = λ a b. by_rate-flips order (tag a) (tag b) (all_compare a b);
      trans = λ a b c h k.
          sym (at_most-by_name a c)
          ∙ order.trans (of_three p d t a) (of_three p d t b) (of_three p d t c)
              (at_most-by_name a b ∙ h) (at_most-by_name b c ∙ k);
    }

    insert_by-map :
        (b : Bottleneck) (bs : List Bottleneck)
        → insert_by (by_rate fl) (tag b) (map tag bs) ≡ map tag (insert_by by_name b bs)
    unfolding insert_by
    insert_by-map b [] = refl
    insert_by-map b (c ∷ bs) = ground (arith, insert_by-map b bs)

    sort_by-map :
        (bs : List Bottleneck) → sort_by (by_rate fl) (map tag bs) ≡ map tag (sort_by by_name bs)
    unfolding sort_by
    sort_by-map [] = refl
    sort_by-map (b ∷ bs) =
        ap (insert_by (by_rate fl) (tag b)) (sort_by-map bs) ∙ insert_by-map b (sort_by by_name bs)

    abbrev names : List Bottleneck
    names = prefill_bound ∷ decode_bound ∷ kv_transfer ∷ []

    record IsLeast (r : Bottleneck × F) : Type 0 where
      tagged : r.1 ≡ of_three p d t r.0
      least : All (λ q. at_most r.1 q.1 ≡ true) (three p d t)

    first-IsLeast :
        (sorted : List Bottleneck) (r : Bottleneck × F) (second : F)
        → sort_by by_name names ≡ sorted
        → first_two (map tag sorted) ≡ some (r, second)
        → IsLeast r
    first-IsLeast [] r second e f = cc
    first-IsLeast (a ∷ []) r second e f = cc
    first-IsLeast (a ∷ b ∷ rest) r second e f =
        let is : tag a ≡ r = cc (some-injective _ _ f) in
        let sorted = subst (IsSorted by_name) e (sort_by-IsSorted by_name by_name-IsTotal names) in
        let self : le_by by_name a a ≡ true = ground (arith, by_name-IsTotal.flips a a) in
        let all : All (λ q. le_by by_name a q ≡ true) (a ∷ b ∷ rest) = (self, sorted.0) in
        let (l₁, (l₂, (l₃, _))) =
          sort_by-All (λ q. le_by by_name a q ≡ true) by_name names
            (subst (All (λ q. le_by by_name a q ≡ true)) (sym e) all) in
        subst IsLeast is (record {
          tagged = refl;
          least = (
            at_most-by_name a prefill_bound ∙ l₁,
            (at_most-by_name a decode_bound ∙ l₂, (at_most-by_name a kv_transfer ∙ l₃, tt)),
          );
        })

    head-IsLeast :
        (r : Bottleneck × F) (second : F)
        → first_two (sort_by (by_rate fl) (three p d t)) ≡ some (r, second)
        → IsLeast r
    head-IsLeast r second f =
        first-IsLeast (sort_by by_name names) r second refl
          (ap first_two (sym (sort_by-map names)) ∙ f)

  of_three-rate_named :
      (b : Bottleneck) (s : PdSplit F)
      → of_three s.prefill_req_s s.decode_req_s s.transfer_req_s b ≡ rate_named b s
  of_three-rate_named prefill_bound s = refl
  of_three-rate_named decode_bound s = refl
  of_three-rate_named kv_transfer s = refl

  -- The rate that `evaluate` reports is the one of the resource that it names, and it is at most
  -- each of the three rates: prefill, decode and transfer. `partial_cmp` is the partial order that
  -- its documentation says it is.
  pub evaluate_least :
      (order : IsPartialOrder) (m : CapacityModel F)
      (prefill_gpus decode_gpus prefill_tp decode_tp : ℕ) (s : PdSplit F)
      → evaluate fl prefill_gpus decode_gpus prefill_tp decode_tp m ≡ some s
      → (s.sustainable_req_s ≡ rate_named s.bottleneck s)
        × (at_most s.sustainable_req_s s.prefill_req_s ≡ true)
        × (at_most s.sustainable_req_s s.decode_req_s ≡ true)
        × (at_most s.sustainable_req_s s.transfer_req_s ≡ true)
  unfolding evaluate sorted_rates
  evaluate_least order m prefill_gpus decode_gpus prefill_tp decode_tp s e =
      let p =
        prefill_req_per_s fl (workers_of prefill_gpus prefill_tp * prefill_tp) prefill_tp m.isl
          m.prefill_cal in
      let t = transfer_rate fl (workers_of decode_gpus decode_tp) m in
      elim (Option-cases (decode_rate fl decode_gpus m.osl m.slo m.itl_safety m.decode_cal)) [
        | inl panic ↦ absurd (ground arith)
        | inr (d, rated) ↦
            elim (Bool-cases (compares fl p d && compares fl p t && compares fl d t)) [
              | inr nan ↦ absurd (ground arith)
              | inl fine ↦ elim (Option-cases (first_two (sort_by (by_rate fl) (three p d t)))) [
                | inl short ↦ absurd (ground arith)
                | inr ((r, second), two) ↦
                    let v = head-IsLeast order p d t fine r second two in
                    let rates : (s.prefill_req_s ≡ p)
                        × (s.decode_req_s ≡ d)
                        × (s.transfer_req_s ≡ t)
                        × (s.bottleneck ≡ r.0)
                        × (s.sustainable_req_s ≡ r.1) =
                      ground arith in
                    let (is_p, is_d, is_t, is_b, is_x) = rates in
                    let same : ◌≡◌ {A = F × F × F × Bottleneck × F} (p, d, t, r.0, r.1)
                        (
                          s.prefill_req_s, s.decode_req_s, s.transfer_req_s, s.bottleneck,
                          s.sustainable_req_s,
                        ) =
                      λ i. (sym is_p i, sym is_d i, sym is_t i, sym is_b i, sym is_x i) in
                    (
                      is_x
                          ∙ v.tagged
                          ∙ ap (λ (k : F × F × F × Bottleneck × F). of_three k.0 k.1 k.2 k.3) same
                          ∙ of_three-rate_named s.bottleneck s,
                      subst (λ (k : F × F × F × Bottleneck × F). at_most k.4 k.0 ≡ true) same
                          v.least.0,
                      subst (λ (k : F × F × F × Bottleneck × F). at_most k.4 k.1 ≡ true) same
                          v.least.1.0,
                      subst (λ (k : F × F × F × Bottleneck × F). at_most k.4 k.2 ≡ true) same
                          v.least.1.1.0,
                    )
              ]
            ]
      ]
