-- ===== src/Prelude/Float.antt =====
-- `f64` as an interface: the operations that the program uses, over a type of values.
use Prim.Native.Nat.{ℕ, Ordering}
use mathlib.Core.Bool.{Bool}
use mathlib.Core.Option.{Option}
use trt_llm_rs.Prelude.Tests.{if◌then◌else◌}

-- `literal n d` is the value of the decimal constant n / d; `ceil`, `round` and `to_ℕ` are `ceil`,
-- `round` and the saturating `as usize`; `lt` and `le` are the IEEE comparisons.
pub record Floats (F : Type 0) : Type 0 where
  pub infinity : F
  pub nan : F
  pub min_positive : F
  pub literal : ℕ → ℕ → F
  pub of_ℕ : ℕ → F
  pub to_ℕ : F → ℕ
  pub add : F → F → F
  pub sub : F → F → F
  pub mul : F → F → F
  pub div : F → F → F
  pub fmax : F → F → F
  pub fmin : F → F → F
  pub abs : F → F
  pub ceil : F → F
  pub round : F → F
  pub lt : F → F → Bool
  pub le : F → F → Bool
  pub total_cmp : F → F → Ordering
  pub partial_cmp : F → F → Option Ordering
  pub is_infinite : F → Bool
  pub is_finite : F → Bool

-- `f64::clamp`.
abbrev pub clamp : {F : Type 0} → Floats F → F → F → F → F
clamp fl x lo hi = let x' = if fl.lt x lo then lo else x in if fl.lt hi x' then hi else x'
