-- ===== src/Core/Capacity/Tests.antt =====
-- Eight GPUs in whole numbers, and the theorems of Core.Capacity at them.
use trt_llm_rs.Prelude.{
  ℕ, suc, ◌*◌, ◌≤◌, ◌≡◌, refl, none, some, List, [], ◌∷◌, true, arith, length, All, Ordering,
  Option-cases, inl, inr,
}
use trt_llm_rs.Prelude.Int.{ℤ, pos, compare_ℤ-IsTotal}
use trt_llm_rs.Prelude.Whole.{whole}
use trt_llm_rs.Prelude.Sort.{sort_by, insert_by, IsSorted}
use trt_llm_rs.Core.Calibration.{prefill_req_per_s, decode_rate, max_concurrency_for_slo}
use trt_llm_rs.Core.Capacity.{
  Bottleneck, prefill_bound, decode_bound, kv_transfer, PdSplit, CapacityModel, workers_of,
  transfer_rate, by_rate, sorted_rates, first_two, evaluate, by_goodput, search,
}
use trt_llm_rs.Core.Capacity.Least.{rate_named, IsPartialOrder, at_most, evaluate_least}
use trt_llm_rs.Core.Capacity.Search.{Has}
use trt_llm_rs.Core.Capacity.Plans.{AnyOf, IsPlan, search_exact}

abbrev model : CapacityModel ℤ
model = record {
  isl = 4;
  osl = 2;
  slo = record { ttft_ms = pos 3000; itl_ms = pos 20; good_frac_target = pos 1 };
  prefill_cal = record {
    tok_s_per_gpu = pos 40;
    tp_ref = 1;
    tp_allreduce_frac = pos 0;
    duty_cycle = pos 1;
    active_params_b = pos 22;
    peak_tflops_per_gpu = pos 1979;
  };
  decode_cal = record {
    concurrency_per_gpu = pos 6;
    itl_ms_at_ref = pos 17;
    itl_slope_ms = pos 0;
    max_extrapolation = pos 1;
    speculation = none;
  };
  good_frac = pos 1;
  itl_safety = pos 1;
  kv_bytes_per_token = pos 96256;
  kv_xfer_gib_s = pos 2;
  xfer_concurrency = 16;
  weights_gib = pos 220;
  gpu_gib = pos 131;
  kv_dtype_bytes = pos 1;
  kv_heads = 4;
  max_num_tokens = 16384;
  activation_gib = pos 12;
  decode_resident_tokens = 589824;
}

length-insert_by :
    {A : Type 0} (cmp : A → A → Ordering) (x : A) (xs : List A)
    → length (insert_by cmp x xs) ≡ suc (length xs)
unfolding insert_by
length-insert_by cmp x [] = refl
length-insert_by cmp x (y ∷ ys) = ground (arith, length-insert_by cmp x ys)

first_two-some :
    (rs : List (Bottleneck × ℤ))
    → 2 ≤ length rs
    → (r : (Bottleneck × ℤ) × ℤ) × (first_two rs ≡ some r)
first_two-some [] h = absurd (omega arith)
first_two-some (a ∷ []) h = absurd (omega arith)
first_two-some (a ∷ b ∷ rs) h = ((a, b.1), refl)

three_sorted :
    (a b c : Bottleneck × ℤ)
    → (r : (Bottleneck × ℤ) × ℤ) × (first_two (sort_by (by_rate whole) (a ∷ b ∷ c ∷ [])) ≡ some r)
unfolding sort_by
three_sorted a b c = first_two-some (sort_by (by_rate whole) (a ∷ b ∷ c ∷ [])) (
    omega (
      arith,
      length-insert_by (by_rate whole) a (sort_by (by_rate whole) (b ∷ c ∷ [])),
      length-insert_by (by_rate whole) b (sort_by (by_rate whole) (c ∷ [])),
      length-insert_by (by_rate whole) c [],
    ))

model_decode_rate :
    (gpus : ℕ) → (r : ℤ) × (decode_rate whole gpus 2 model.slo (pos 1) model.decode_cal ≡ some r)
unfolding decode_rate max_concurrency_for_slo
model_decode_rate gpus = (_, refl)

-- No rate of the model fails to compare.
model_rates : (p d ptp dtp : ℕ) → (s : PdSplit ℤ) × (evaluate whole p d ptp dtp model ≡ some s)
unfolding evaluate sorted_rates
model_rates p d ptp dtp =
    let (r, rated) = model_decode_rate d in
    let (two, e) =
      three_sorted
        (prefill_bound, prefill_req_per_s whole (workers_of p ptp * ptp) ptp 4 model.prefill_cal)
        (decode_bound, r) (kv_transfer, transfer_rate whole (workers_of d dtp) model) in
    elim (Option-cases (evaluate whole p d ptp dtp model)) [
      | inl panic ↦ absurd (ground (arith, e, rated))
      | inr some_split ↦ some_split
    ]

abbrev Plans : List ℕ → List ℕ → PdSplit ℤ → Type 0
Plans ptps dtps s = AnyOf ptps (λ ptp. AnyOf dtps (λ dtp. IsPlan whole model 8 ptp dtp s))

search_exact_example :
    (out : List (PdSplit ℤ)) × (search whole 8 (2 ∷ 4 ∷ []) (4 ∷ []) model ≡ some out)
    × All (Plans (2 ∷ 4 ∷ []) (4 ∷ [])) out
    × ((s : PdSplit ℤ) → Plans (2 ∷ 4 ∷ []) (4 ∷ []) s → Has s out)
    × IsSorted (by_goodput whole) out
search_exact_example =
    search_exact whole model 8 (2 ∷ 4 ∷ []) (4 ∷ []) model_rates (omega arith) (omega arith)
      (omega arith) compare_ℤ-IsTotal

abbrev split : PdSplit ℤ
split = (model_rates 4 4 4 4).0

whole-IsPartialOrder : IsPartialOrder whole
whole-IsPartialOrder = record {
  answers = λ a b. refl;
  flips = λ a b o e. ground (arith, compare_ℤ-IsTotal.flips a b, e);
  trans = λ a b c h k. ground (arith, compare_ℤ-IsTotal.trans a b c, h, k);
}

evaluate_least_example :
    (split.sustainable_req_s ≡ rate_named split.bottleneck split)
    × (at_most whole split.sustainable_req_s split.prefill_req_s ≡ true)
    × (at_most whole split.sustainable_req_s split.decode_req_s ≡ true)
    × (at_most whole split.sustainable_req_s split.transfer_req_s ≡ true)
evaluate_least_example =
    evaluate_least whole whole-IsPartialOrder model 4 4 4 4 split (model_rates 4 4 4 4).1
