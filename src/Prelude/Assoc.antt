-- ===== src/Prelude/Assoc.antt =====
-- A hash map as an association list; no operation of the program depends on its order.
use Prim.Native.Nat.{ℕ}
use mathlib.Core.Path.{◌≡◌, refl, subst}
use mathlib.Core.Bool.{Bool, true, false}
use mathlib.Core.Logic.{inl, inr}
use mathlib.Core.List.{List, [], ◌∷◌}
use mathlib.Core.Option.{Option, none, some, some-injective}
use native.Mathlib.Omega.{arith}
use trt_llm_rs.Prelude.Tests.{◌==◌, if◌then◌else◌, if_elim, Bool-cases}
use trt_llm_rs.Prelude.Lists.{All, All-weaken}

abbrev pub Map {ℓ} : Type ℓ → Type ℓ
Map V = List (ℕ × V)

module _ {ℓ} {V : Type ℓ} where
  unfoldable pub lookup : ℕ → Map V → Option V
  lookup key [] = none
  lookup key ((i, value) ∷ rest) = if i == key then some value else lookup key rest

  unfoldable pub remove : ℕ → Map V → Map V
  remove key [] = []
  remove key ((i, value) ∷ rest) =
      let others = remove key rest in if i == key then others else (i, value) ∷ others

  unfoldable pub insert : ℕ → V → Map V → Map V
  insert key new [] = (key, new) ∷ []
  insert key new ((i, value) ∷ rest) =
      if i == key then (key, new) ∷ rest else (i, value) ∷ insert key new rest

  pub lookup-insert :
      (key at : ℕ) (new : V) (m : Map V)
      → lookup at (insert key new m) ≡ (if key == at then some new else lookup at m)
  unfolding lookup insert
  lookup-insert key at new [] = refl
  lookup-insert key at new (entry ∷ rest) = ground (arith, lookup-insert key at new rest)

  pub lookup-remove :
      (k j : ℕ) (m : Map V) → lookup j (remove k m) ≡ (if k == j then none else lookup j m)
  unfolding lookup remove
  lookup-remove k j [] = ground arith
  lookup-remove k j ((i, w) ∷ m) = ground (arith, lookup-remove k j m)

-- Each key once.
abbrev pub Distinct {ℓ} : {V : Type ℓ} → Map V → Type ℓ
Distinct [] = Unit
Distinct ((k, _) ∷ m) = (lookup k m ≡ none) × Distinct m

module _ {ℓ} {V : Type ℓ} where
  pub insert-Distinct : (k : ℕ) (v : V) (m : Map V) → Distinct m → Distinct (insert k v m)
  unfolding insert lookup
  insert-Distinct k v [] d = (refl, tt)
  insert-Distinct k v ((j, w) ∷ m) (a, d) = elim (Bool-cases (j == k)) [
    | inl e ↦ rw (e, insert) (subst (λ i. lookup i m ≡ none) (ground (arith, e)) a, d)
    | inr e ↦ rw (e, insert) (ground (arith, lookup-insert k j v m), insert-Distinct k v m d)
  ]

  pub remove-Distinct : (k : ℕ) (m : Map V) → Distinct m → Distinct (remove k m)
  unfolding remove
  remove-Distinct k [] d = tt
  remove-Distinct k ((j, w) ∷ m) (a, d) =
      if_elim Distinct (j == k) {x = remove k m} {y = (j, w) ∷ remove k m}
        (λ _. remove-Distinct k m d)
        (λ _. (ground (arith, lookup-remove k j m), remove-Distinct k m d))

module _ {ℓ κ} {V : Type ℓ} (P : ℕ × V → Type κ) where
  pub All-insert : (k : ℕ) (v : V) (m : Map V) → P (k, v) → All P m → All P (insert k v m)
  unfolding insert
  All-insert k v [] p ps = (p, tt)
  All-insert k v ((j, w) ∷ m) p (q, ps) =
      if_elim (All P) (j == k) (λ _. (p, ps)) (λ _. (q, All-insert k v m p ps))

  pub All-remove : (k : ℕ) (m : Map V) → All P m → All P (remove k m)
  unfolding remove
  All-remove k [] ps = tt
  All-remove k ((j, w) ∷ m) (q, ps) =
      if_elim (All P) (j == k) (λ _. All-remove k m ps) (λ _. (q, All-remove k m ps))

  pub All-lookup : (k : ℕ) (v : V) (m : Map V) → lookup k m ≡ some v → All P m → P (k, v)
  unfolding lookup
  All-lookup k v [] e ps = absurd (ground arith)
  All-lookup k v ((j, w) ∷ m) e (q, ps) = elim (Bool-cases (j == k)) [
    | inl same ↦
        subst (λ i. P (i, v)) (ground (arith, same))
          (subst (λ u. P (j, u)) (some-injective w v (ground (arith, same))) q)
    | inr other ↦ All-lookup k v m (ground arith) ps
  ]

abbrev pub holds {ℓ} : {V : Type ℓ} → ℕ → Map V → Bool
holds k m = elim (lookup k m) [ none ↦ false | some _ ↦ true ]

-- Each key of a map is in it.
pub All-holds {ℓ} : {V : Type ℓ} (m : Map V) → All (λ e. holds e.0 m ≡ true) m
unfolding lookup
All-holds [] = tt
All-holds ((j, w) ∷ m) = (
  ground arith,
  All-weaken (λ e. holds e.0 m ≡ true) (λ e. holds e.0 ((j, w) ∷ m) ≡ true) m
      (λ e h. ground (arith, h)) (All-holds m),
)
