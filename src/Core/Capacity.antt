-- ===== src/Core/Capacity.antt =====
-- crates/core/src/capacity.rs: the capacity model of a deployment, and the search over its splits.
pub mod Dedup
pub mod Gap
pub mod Least
pub mod Plans
mod Tests
pub mod Search
use trt_llm_rs.Prelude.{
  ℕ, zero, suc, ◌+◌, ◌-◌, ◌*◌, ◌/◌, ◌%◌, max, min, Option, none, some, List, [], ◌∷◌, ◌++◌, Bool,
  true, false, not, ◌&&◌, ◌||◌, leb, ltb, ◌==◌, if◌then◌else◌, Ordering,
}
use trt_llm_rs.Prelude.Float.{Floats}
use trt_llm_rs.Prelude.Words.{u32_mod, wrapping_add32}
use trt_llm_rs.Prelude.Sort.{sort_by, then_cmp}
use trt_llm_rs.Core.Outcome.{Slo, default_slo}
use trt_llm_rs.Core.Calibration.{
  PrefillCalibration, DecodeCalibration, num, default_prefill, default_decode, prefill_req_per_s,
  decode_rate,
}

infixl 5 ◌>>=◌
abbrev pub ◌>>=◌ {ℓ κ} : {A : Type ℓ} {B : Type κ} → Option A → (A → Option B) → Option B
none >>= f = none
some a >>= f = f a

pub data Role : Type 0 where
  prefill decode : Role

pub data Bottleneck : Type 0 where
  prefill_bound decode_bound kv_transfer : Bottleneck

pub record PdSplit (F : Type 0) : Type 0 where
  pub prefill_gpus : ℕ
  pub decode_gpus : ℕ
  pub prefill_tp : ℕ
  pub decode_tp : ℕ
  pub prefill_workers : ℕ
  pub prefill_req_s : F
  pub decode_req_s : F
  pub transfer_req_s : F
  pub sustainable_req_s : F
  pub goodput_req_s : F
  pub bottleneck : Bottleneck
  pub headroom_ratio : F

pub record CapacityModel (F : Type 0) : Type 0 where
  pub isl : ℕ
  pub osl : ℕ
  pub slo : Slo F
  pub prefill_cal : PrefillCalibration F
  pub decode_cal : DecodeCalibration F
  pub good_frac : F
  pub itl_safety : F
  pub kv_bytes_per_token : F
  pub kv_xfer_gib_s : F
  pub xfer_concurrency : ℕ
  pub weights_gib : F
  pub gpu_gib : F
  pub kv_dtype_bytes : F
  pub kv_heads : ℕ
  pub max_num_tokens : ℕ
  pub activation_gib : F
  pub decode_resident_tokens : ℕ

-- `gpus.checked_div(tp).unwrap_or(0)`.
abbrev pub workers_of : ℕ → ℕ → ℕ
workers_of gpus tp = if tp == 0 then 0 else gpus / tp

-- `d.dedup_by(same)`: of a run of equal splits the first is kept.
abbrev pub same_split : {F : Type 0} → PdSplit F → PdSplit F → Bool
same_split a b =
    a.prefill_gpus == b.prefill_gpus
    && a.decode_gpus == b.decode_gpus
    && a.prefill_tp == b.prefill_tp
    && a.decode_tp == b.decode_tp

unfoldable pub dedup_from : {F : Type 0} → PdSplit F → List (PdSplit F) → List (PdSplit F)
dedup_from kept [] = kept ∷ []
dedup_from kept (a ∷ splits) =
    let drop = dedup_from kept splits in
    let keep = kept ∷ dedup_from a splits in if same_split a kept then drop else keep

unfoldable pub dedup : {F : Type 0} → List (PdSplit F) → List (PdSplit F)
unfolding dedup_from
dedup [] = []
dedup (a ∷ splits) = dedup_from a splits

abbrev pub first_two : {F : Type 0} → List (Bottleneck × F) → Option ((Bottleneck × F) × F)
first_two (a ∷ b ∷ _) = some (a, b.1)
first_two _ = none

module _ {F : Type 0} (fl : Floats F) where
  abbrev gib : F
  gib = fl.mul (fl.mul (num fl 1024) (num fl 1024)) (num fl 1024)

  unfoldable pub default_model : CapacityModel F
  unfolding default_slo default_prefill default_decode
  default_model = record {
    isl = 4000;
    osl = 200;
    slo = default_slo fl;
    prefill_cal = default_prefill fl;
    decode_cal = default_decode fl;
    good_frac = fl.literal 93 100;
    itl_safety = num fl 1;
    kv_bytes_per_token = fl.mul (fl.mul (fl.mul (num fl 2) (num fl 94)) (num fl 4)) (num fl 128);
    kv_xfer_gib_s = fl.literal 21 10;
    xfer_concurrency = 16;
    weights_gib = fl.literal 2202 10;
    gpu_gib = num fl 131;
    kv_dtype_bytes = num fl 1;
    kv_heads = 4;
    max_num_tokens = 16384;
    activation_gib = num fl 12;
    decode_resident_tokens = 128 * 4608;
  }

  unfoldable pub kv_bytes_per_token_per_rank : ℕ → CapacityModel F → F
  kv_bytes_per_token_per_rank tp m =
      let shards = fl.of_ℕ (min (max tp 1) (max m.kv_heads 1)) in
      fl.div (fl.mul m.kv_bytes_per_token m.kv_dtype_bytes) shards

  abbrev pub resident_tokens : Role → CapacityModel F → ℕ
  resident_tokens prefill m = m.max_num_tokens
  resident_tokens decode m = m.decode_resident_tokens

  unfoldable pub needed_gib_per_rank : ℕ → Role → CapacityModel F → F
  unfolding kv_bytes_per_token_per_rank
  needed_gib_per_rank tp role m =
      let per_token = kv_bytes_per_token_per_rank tp m in
      fl.add m.activation_gib (fl.div (fl.mul per_token (fl.of_ℕ (resident_tokens role m))) gib)

  unfoldable pub free_gib_per_rank : ℕ → CapacityModel F → F
  free_gib_per_rank tp m = fl.sub m.gpu_gib (fl.div m.weights_gib (fl.of_ℕ (max tp 1)))

  unfoldable pub fits : ℕ → Role → CapacityModel F → Bool
  unfolding free_gib_per_rank needed_gib_per_rank
  fits tp role m = fl.le (needed_gib_per_rank tp role m) (free_gib_per_rank tp m)

  unfoldable pub fits_in_memory : ℕ → CapacityModel F → Bool
  unfolding fits
  fits_in_memory tp m = fits tp prefill m

  unfoldable pub transfer_ms : CapacityModel F → F
  transfer_ms m =
      let bytes = fl.mul m.kv_bytes_per_token (fl.of_ℕ m.isl) in
      fl.mul
        (fl.div bytes
          (fl.mul (fl.mul (fl.mul m.kv_xfer_gib_s (num fl 1024)) (num fl 1024)) (num fl 1024)))
        (num fl 1000)

  unfoldable pub transfer_rate : ℕ → CapacityModel F → F
  unfolding transfer_ms
  transfer_rate decode_workers m =
      let ms = transfer_ms m in
      if fl.le ms (num fl 0) || decode_workers == 0
      then fl.infinity
      else fl.div
          (fl.mul (fl.mul (fl.of_ℕ decode_workers) (fl.of_ℕ (max m.xfer_concurrency 1)))
            (num fl 1000))
          ms

  abbrev pub compares : F → F → Bool
  compares a b = elim (fl.partial_cmp a b) [ none ↦ false | some _ ↦ true ]

  -- `partial_cmp(..).expect(..)`, on rates that compare.
  unfoldable pub by_rate : Bottleneck × F → Bottleneck × F → Ordering
  by_rate a b = elim (fl.partial_cmp a.1 b.1) [ none ↦ Ordering.eq | some o ↦ o ]

  -- The three rates in order. `none` is the panic of `expect`: each rate is compared with another.
  unfoldable pub sorted_rates : F → F → F → Option (List (Bottleneck × F))
  unfolding by_rate
  sorted_rates p d t =
      if compares p d && compares p t && compares d t
      then some (sort_by by_rate ((prefill_bound, p) ∷ (decode_bound, d) ∷ (kv_transfer, t) ∷ []))
      else none

  unfoldable pub evaluate : ℕ → ℕ → ℕ → ℕ → CapacityModel F → Option (PdSplit F)
  unfolding sorted_rates transfer_rate
  evaluate prefill_gpus decode_gpus prefill_tp decode_tp m = do
    let prefill_workers = workers_of prefill_gpus prefill_tp
    let prefill_req_s =
        prefill_req_per_s fl (prefill_workers * prefill_tp) prefill_tp m.isl m.prefill_cal
    decode_req_s ← decode_rate fl decode_gpus m.osl m.slo m.itl_safety m.decode_cal
    let transfer_req_s = transfer_rate (workers_of decode_gpus decode_tp) m
    rates ← sorted_rates prefill_req_s decode_req_s transfer_req_s
    (least, second) ← first_two rates
    some (record {
      prefill_gpus = prefill_gpus;
      decode_gpus = decode_gpus;
      prefill_tp = prefill_tp;
      decode_tp = decode_tp;
      prefill_workers = prefill_workers;
      prefill_req_s = prefill_req_s;
      decode_req_s = decode_req_s;
      transfer_req_s = transfer_req_s;
      sustainable_req_s = least.1;
      goodput_req_s = fl.mul least.1 m.good_frac;
      bottleneck = least.0;
      headroom_ratio = if fl.lt (num fl 0) least.1 then fl.div second least.1 else fl.infinity;
    })

  -- The `while` of `search`, from `p` on. `none` is a panic, or the end of the fuel.
  unfoldable pub search_from : ℕ → ℕ → ℕ → ℕ → ℕ → CapacityModel F → Option (List (PdSplit F))
  search_from zero total_gpus ptp dtp p m = none
  search_from (suc fuel) total_gpus ptp dtp p m =
      let later = search_from fuel total_gpus ptp dtp (wrapping_add32 p ptp) m in
      let d = (total_gpus + u32_mod - p) % u32_mod in
      elim (leb (wrapping_add32 p dtp) total_gpus) [
        | false ↦ some []
        | true ↦ elim later [
          | none ↦ none
          | some splits ↦
              if d % dtp == 0 && p % ptp == 0
              then (do s ← evaluate p d ptp dtp m; some (s ∷ splits))
              else some splits
        ]
      ]

  unfoldable pub search_pair : ℕ → ℕ → ℕ → CapacityModel F → Option (List (PdSplit F))
  unfolding search_from
  search_pair total_gpus ptp dtp m =
      if ptp == 0 || dtp == 0 || not (fits ptp prefill m) || not (fits dtp decode m)
      then some []
      else search_from (suc total_gpus) total_gpus ptp dtp ptp m

  unfoldable pub search_decode : ℕ → ℕ → List ℕ → CapacityModel F → Option (List (PdSplit F))
  unfolding search_pair
  search_decode total_gpus ptp [] m = some []
  search_decode total_gpus ptp (dtp ∷ dtps) m = do
    here ← search_pair total_gpus ptp dtp m
    later ← search_decode total_gpus ptp dtps m
    some (here ++ later)

  unfoldable pub search_prefill : ℕ → List ℕ → List ℕ → CapacityModel F → Option (List (PdSplit F))
  unfolding search_decode
  search_prefill total_gpus [] dtps m = some []
  search_prefill total_gpus (ptp ∷ ptps) dtps m = do
    here ← search_decode total_gpus ptp dtps m
    later ← search_prefill total_gpus ptps dtps m
    some (here ++ later)

  -- More goodput first, then more of the two rates together.
  abbrev pub by_goodput : PdSplit F → PdSplit F → Ordering
  by_goodput a b =
      then_cmp (fl.total_cmp b.goodput_req_s a.goodput_req_s) (
        fl.total_cmp (fl.add b.prefill_req_s b.decode_req_s)
          (fl.add a.prefill_req_s a.decode_req_s))

  unfoldable pub search : ℕ → List ℕ → List ℕ → CapacityModel F → Option (List (PdSplit F))
  unfolding search_prefill dedup
  search total_gpus prefill_tps decode_tps m = do
    out ← search_prefill total_gpus prefill_tps decode_tps m
    some (dedup (sort_by by_goodput out))
