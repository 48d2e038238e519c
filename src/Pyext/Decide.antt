-- ===== src/Pyext/Decide.antt =====
-- crates/pyext/src/decide.rs: which requests run this step and which are paused. The arrays are
-- lists; `validate_lengths` is called before, so that no read is past an array's end, where the
-- source would panic and the model reads a default.
pub mod Partition
pub mod Budgets
pub mod Phases
pub mod Order
pub mod Priority
use Prim.Native.String.{String}
use trt_llm_rs.Prelude.{
  ℕ, zero, suc, ◌+◌, ◌-◌, Bool, true, false, not, ◌&&◌, ◌||◌, List, [], ◌∷◌, ◌++◌, ltb, leb, ◌==◌,
  if◌then◌else◌, length, get_or, range, compare, Ordering,
}
use trt_llm_rs.Prelude.Words.{saturating_add64}
use trt_llm_rs.Prelude.Int.{ℤ, pos, compare_ℤ, eq_ℤ}
use trt_llm_rs.Prelude.Float.{Floats}
use trt_llm_rs.Prelude.Sort.{sort_by, then_cmp}

pub data DecodeOrder : Type 0 where
  arrival slack : DecodeOrder

pub record DecideInput (F : Type 0) : Type 0 where
  pub ids : List ℤ
  pub is_context : List Bool
  pub prompt_lens : List ℕ
  pub context_done_tokens : List ℕ
  pub arrival_ms : List F
  pub inflight : List ℤ
  pub max_batch_size : ℕ
  pub max_num_tokens : ℕ
  pub tokens_generated : List ℕ
  pub max_new_tokens : List ℕ
  pub now_ms : F
  pub itl_budget_ms : F
  pub decode_order : DecodeOrder
  pub kv_free_blocks : ℕ
  pub kv_watermark_blocks : ℕ
  pub generation_cap : ℕ

pub data Validation : Type 0 where
  valid : ℕ → Validation
  wrong_length : String → ℕ → ℕ → Validation

unfoldable pub validate_lengths : ℕ → List (String × ℕ) → Validation
validate_lengths ids_len [] = valid ids_len
validate_lengths ids_len ((name, len) ∷ lens) =
    if len == ids_len then validate_lengths ids_len lens else wrong_length name len ids_len

abbrev pub contains : List ℤ → ℤ → Bool
contains [] a = false
contains (x ∷ xs) a = eq_ℤ x a || contains xs a

-- What the loops carry.
pub record Admission : Type 0 where
  pub fitting_indices : List ℕ
  pub paused_indices : List ℕ
  pub batch_used : ℕ
  pub token_used : ℕ
  pub gen_admitted : ℕ

abbrev pub no_admission : Admission
no_admission = record {
  fitting_indices = [];
  paused_indices = [];
  batch_used = 0;
  token_used = 0;
  gen_admitted = 0;
}

abbrev pub pause : ℕ → Admission → Admission
pause idx a = record a { paused_indices = a.paused_indices ++ idx ∷ [] }

abbrev pub is_empty : List ℕ → Bool
is_empty [] = true
is_empty (x ∷ xs) = false

module _ {F : Type 0} (fl : Floats F) where
  -- Subtraction on u32 saturates at zero, as it does on ℕ.
  unfoldable pub tolerable_itl_ms : F → F → ℕ → ℕ → F → F
  tolerable_itl_ms now_ms arrival_ms tokens_generated max_new_tokens budget_ms =
      let gaps_total = fl.of_ℕ (max_new_tokens - 1) in
      let gaps_done = fl.of_ℕ (tokens_generated - 1) in
      let remaining = fl.sub gaps_total gaps_done in
      let elapsed = fl.fmax (fl.sub now_ms arrival_ms) (fl.literal 0 1) in
      if fl.le remaining (fl.literal 0 1)
      then fl.infinity
      else fl.div (fl.sub (fl.mul budget_ms gaps_total) elapsed) remaining

  module _ (input : DecideInput F) where
    abbrev pub id_at : ℕ → ℤ
    id_at i = get_or input.ids i (pos 0)

    abbrev pub arrival_at : ℕ → F
    arrival_at i = get_or input.arrival_ms i (fl.literal 0 1)

    unfoldable pub is_context_at : ℕ → Bool
    is_context_at i = get_or input.is_context i false

    abbrev pub done_at : ℕ → ℕ
    done_at i = get_or input.context_done_tokens i 0

    -- The prefill work still owed.
    abbrev pub remaining_at : ℕ → ℕ
    remaining_at i = get_or input.prompt_lens i 0 - done_at i

    unfoldable pub is_inflight : ℕ → Bool
    is_inflight i = contains input.inflight (id_at i)

    -- The loop over `0..n` that fills the two candidate lists.
    unfoldable pub candidates : List ℕ → List ℕ × List ℕ
    candidates [] = ([], [])
    candidates (i ∷ is) =
        let (context, generation) = candidates is in
        if is_inflight i
        then (context, generation)
        else if is_context_at i
        then (i ∷ context, generation)
        else (context, i ∷ generation)

    unfoldable pub by_arrival_then_id : ℕ → ℕ → Ordering
    by_arrival_then_id a b =
        then_cmp (fl.total_cmp (arrival_at a) (arrival_at b)) (compare_ℤ (id_at a) (id_at b))

    unfoldable pub tolerance_at : ℕ → F
    tolerance_at i =
        tolerable_itl_ms input.now_ms (arrival_at i) (get_or input.tokens_generated i 0)
          (get_or input.max_new_tokens i 0) input.itl_budget_ms

    unfoldable pub by_tolerance_then_id : ℕ → ℕ → Ordering
    by_tolerance_then_id a b =
        then_cmp (fl.total_cmp (tolerance_at a) (tolerance_at b)) (compare_ℤ (id_at a) (id_at b))

    -- The comparison that sorts the generation candidates.
    abbrev pub generation_order_of : DecodeOrder → ℕ → ℕ → Ordering
    generation_order_of arrival = by_arrival_then_id
    generation_order_of slack = by_tolerance_then_id

    abbrev pub generation_order : ℕ → ℕ → Ordering
    generation_order = generation_order_of input.decode_order

    unfoldable pub generation_sorted : List ℕ
    generation_sorted = sort_by generation_order (candidates (range (length input.ids))).1

    unfoldable pub context_sorted : List ℕ
    context_sorted = sort_by by_arrival_then_id (candidates (range (length input.ids))).0

    unfoldable pub generation_step : ℕ → Admission → Admission
    generation_step idx a =
        if ltb a.gen_admitted input.generation_cap
          && ltb a.batch_used input.max_batch_size
          && leb (saturating_add64 a.token_used 1) input.max_num_tokens
        then record a {
          fitting_indices = a.fitting_indices ++ idx ∷ [];
          gen_admitted = a.gen_admitted + 1;
          batch_used = a.batch_used + 1;
          token_used = a.token_used + 1;
        }
        else pause idx a

    unfoldable pub generation_loop : List ℕ → Admission → Admission
    generation_loop [] a = a
    generation_loop (idx ∷ is) a = generation_loop is (generation_step idx a)

    unfoldable pub context_step : Bool → ℕ → Admission → Admission
    context_step stalled idx a =
        if stalled
        then pause idx a
        else if done_at idx == 0 && ltb input.kv_free_blocks input.kv_watermark_blocks
        then pause idx a
        else if ltb a.batch_used input.max_batch_size
            && leb (saturating_add64 a.token_used (remaining_at idx)) input.max_num_tokens
        then record a {
          fitting_indices = a.fitting_indices ++ idx ∷ [];
          batch_used = a.batch_used + 1;
          token_used = a.token_used + remaining_at idx;
        }
        else pause idx a

    unfoldable pub context_loop : Bool → List ℕ → Admission → Admission
    context_loop stalled [] a = a
    context_loop stalled (idx ∷ is) a = context_loop stalled is (context_step stalled idx a)

    unfoldable pub admit_generation : Admission
    admit_generation = generation_loop generation_sorted no_admission

    unfoldable pub admit_all : Admission
    admit_all =
        let a = admit_generation in context_loop (not (is_empty a.paused_indices)) context_sorted a

    unfoldable pub decide_indices : List ℕ × List ℕ
    unfolding admit_all
    decide_indices = (admit_all.fitting_indices, admit_all.paused_indices)
