-- ===== src/Prelude/Whole.antt =====
-- The operations of `f64` where every value is a whole number and none is rounded: the integers.
-- Division rounds towards zero, an infinity is a value past 2^64, and there is
-- no value that is not a number, for which 0 stands.
use trt_llm_rs.Prelude.Tests.{if◌then◌else◌}
use trt_llm_rs.Prelude.Words.{u64_mod}
use trt_llm_rs.Prelude.Float.{Floats}
use trt_llm_rs.Prelude.Int.{
  ℤ, pos, pos_part, neg_part, sub_ℕ, ◌+ℤ◌, ◌-ℤ◌, ◌*ℤ◌, leb_ℤ, ltb_ℤ, compare_ℤ,
}
use Prim.Native.Nat.{◌+◌, ◌/◌}
use mathlib.Core.Bool.{not}
use mathlib.Core.Option.{some}

unfoldable pub div_ℤ : ℤ → ℤ → ℤ
div_ℤ a b =
    sub_ℕ (pos_part a / pos_part b + neg_part a / neg_part b)
      (pos_part a / neg_part b + neg_part a / pos_part b)

abbrev pub whole : Floats ℤ
whole = record {
  infinity = pos u64_mod;
  nan = pos 0;
  min_positive = pos 1;
  literal = λ n d. pos (n / d);
  of_ℕ = pos;
  to_ℕ = pos_part;
  add = ◌+ℤ◌;
  sub = ◌-ℤ◌;
  mul = ◌*ℤ◌;
  div = div_ℤ;
  fmax = λ a b. if leb_ℤ a b then b else a;
  fmin = λ a b. if leb_ℤ a b then a else b;
  abs = λ a. pos (pos_part a + neg_part a);
  ceil = λ a. a;
  round = λ a. a;
  lt = ltb_ℤ;
  le = leb_ℤ;
  total_cmp = compare_ℤ;
  partial_cmp = λ a b. some (compare_ℤ a b);
  is_infinite = λ a. leb_ℤ (pos u64_mod) a;
  is_finite = λ a. not (leb_ℤ (pos u64_mod) a);
}
