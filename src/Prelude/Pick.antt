-- ===== src/Prelude/Pick.antt =====
-- `iter().enumerate().max_by(…)` and `Vec::remove`.
use Prim.Native.Nat.{ℕ, zero, suc, Ordering}
use mathlib.Core.Path.{◌≡◌, refl, subst}
use mathlib.Core.Bool.{true}
use mathlib.Core.Option.{Option, none, some, some-injective}
use mathlib.Core.Logic.{inl, inr}
use mathlib.Core.List.{List, [], ◌∷◌, Perm}
use mathlib.Core.List.Perm
use native.Mathlib.Omega.{arith}
use trt_llm_rs.Prelude.Tests.{Option-cases}
use trt_llm_rs.Prelude.Lists.{All, get_elem?}
use trt_llm_rs.Prelude.Sort.{IsTotal, le_by}

module _ {ℓ} {A : Type ℓ} where
  abbrev pub enumerate_from : ℕ → List A → List (ℕ × A)
  enumerate_from i [] = []
  enumerate_from i (x ∷ xs) = (i, x) ∷ enumerate_from (suc i) xs

  -- `Vec::remove`: the element at an index, and the others; `none` is its panic.
  unfoldable pub remove_at : ℕ → List A → Option (A × List A)
  remove_at i [] = none
  remove_at zero (x ∷ xs) = some (x, xs)
  remove_at (suc i) (x ∷ xs) = elim (remove_at i xs) [
    | none ↦ none
    | some (y, rest) ↦ some (y, x ∷ rest)
  ]

  pub get_elem?-remove_at :
      (i : ℕ) (xs : List A) (v : A)
      → get_elem? xs i ≡ some v
      → (rest : List A) × (remove_at i xs ≡ some (v, rest))
  unfolding remove_at
  get_elem?-remove_at i [] v e = cc
  get_elem?-remove_at zero (x ∷ xs) v e = (xs, ground arith)
  get_elem?-remove_at (suc i) (x ∷ xs) v e =
      let (rest, r) = get_elem?-remove_at i xs v e in (x ∷ rest, rw r)

  pub remove_at-perm :
      (i : ℕ) (xs : List A) (v : A) (rest : List A)
      → remove_at i xs ≡ some (v, rest)
      → Perm xs (v ∷ rest)
  unfolding remove_at
  remove_at-perm i [] v rest e = cc
  remove_at-perm zero (x ∷ xs) v rest e =
      subst (λ (q : A × List A). Perm (x ∷ xs) (q.0 ∷ q.1)) (some-injective _ _ e)
        (Perm.refl (x ∷ xs))
  remove_at-perm (suc i) (x ∷ xs) v rest e = elim (Option-cases (remove_at i xs)) [
    | inl n ↦ absurd (ground arith)
    | inr ((y, others), r) ↦
        let q : ◌≡◌ {A = A × List A} (y, x ∷ others) (v, rest) =
          some-injective _ _ (ground arith) in
        subst (λ (q : A × List A). Perm (x ∷ xs) (q.0 ∷ q.1)) q
          (Perm.trans (Perm.cons x (remove_at-perm i xs y others r)) (Perm.swap y x others))
  ]

module _ {ℓ} {A : Type ℓ} (cmp : A → A → Ordering) where
  -- Of equal elements `max_by` keeps the last.
  larger : A → A → A
  larger b y = elim (cmp b y) [ Ordering.gt ↦ b | _ ↦ y ]

  max_from : A → List A → A
  max_from b [] = b
  max_from b (y ∷ ys) = max_from (larger b y) ys

  unfoldable pub max_by : List A → Option A
  unfolding max_from larger
  max_by [] = none
  max_by (x ∷ xs) = some (max_from x xs)

  larger_keeps {κ} : (P : A → Type κ) (b y : A) → P b → P y → P (larger b y)
  unfolding larger
  larger_keeps P b y p q = elim (cmp b y) as (λ o. P (elim o [ Ordering.gt ↦ b | _ ↦ y ])) [
    | Ordering.lt ↦ q
    | Ordering.eq ↦ q
    | Ordering.gt ↦ p
  ]

  max_from_keeps {κ} : (P : A → Type κ) (b : A) (ys : List A) → P b → All P ys → P (max_from b ys)
  unfolding max_from
  max_from_keeps P b [] p ps = p
  max_from_keeps P b (y ∷ ys) p (q, qs) =
      max_from_keeps P (larger b y) ys (larger_keeps P b y p q) qs

  -- The maximum is one of the elements.
  pub max_by_keeps {κ} :
      (P : A → Type κ) (x : A) (xs : List A)
      → All P (x ∷ xs)
      → (m : A) × (max_by (x ∷ xs) ≡ some m) × P m
  unfolding max_by
  max_by_keeps P x xs (p, ps) = (max_from x xs, refl, max_from_keeps P x xs p ps)

  module _ (t : IsTotal cmp) where
    le_by-larger : (b y : A) → (le_by cmp b (larger b y) ≡ true) × (le_by cmp y (larger b y) ≡ true)
    unfolding larger
    le_by-larger b y = ground (arith, t.flips b y, t.flips b b, t.flips y y)

    le_by-max_from :
        (b : A) (ys : List A)
        → (le_by cmp b (max_from b ys) ≡ true) × All (λ y. le_by cmp y (max_from b ys) ≡ true) ys
    unfolding max_from
    le_by-max_from b [] = (ground (arith, t.flips b b), tt)
    le_by-max_from b (y ∷ ys) =
        let (l, ls) = le_by-max_from (larger b y) ys in
        let (p, q) = le_by-larger b y in (t.trans b _ _ p l, (t.trans y _ _ q l, ls))

    -- Nothing is greater than the maximum.
    pub le_by-max_by :
        (xs : List A) (m : A) → max_by xs ≡ some m → All (λ y. le_by cmp y m ≡ true) xs
    unfolding max_by
    le_by-max_by [] m e = tt
    le_by-max_by (x ∷ xs) m e =
        subst (λ (k : A). All (λ y. le_by cmp y k ≡ true) (x ∷ xs)) (some-injective _ _ e)
          (le_by-max_from x xs)

pub All-remove_at {ℓ κ} :
    {A : Type ℓ} (P : A → Type κ) (i : ℕ) (xs : List A) (v : A) (rest : List A)
    → remove_at i xs ≡ some (v, rest)
    → All P xs
    → All P rest
unfolding remove_at
All-remove_at P i [] v rest e ps = cc
All-remove_at {A} P zero (x ∷ xs) v rest e (p, ps) =
    subst (λ (q : A × List A). All P q.1) (some-injective _ _ e) ps
All-remove_at {A} P (suc i) (x ∷ xs) v rest e (p, ps) = elim (Option-cases (remove_at i xs)) [
  | inl n ↦ absurd (ground arith)
  | inr ((y, others), r) ↦
      subst (λ (q : A × List A). All P q.1)
        (some-injective {A = A × List A} (y, x ∷ others) (v, rest) (ground arith))
        (p, All-remove_at P i xs y others r ps)
]
