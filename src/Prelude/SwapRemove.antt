-- ===== src/Prelude/SwapRemove.antt =====
-- `Vec::swap` with the last element, then `pop`.
use Prim.Native.Nat.{ℕ, zero, suc, ◌+◌, ◌-◌, ◌<◌}
use mathlib.Core.Path.{◌≡◌, refl, sym, ap, subst, ◌∙◌}
use mathlib.Core.Bool.{false}
use mathlib.Core.Logic.{inl, inr}
use mathlib.Core.Option.{none, some, some-injective}
use mathlib.Core.List.{List, [], ◌∷◌, Perm}
use mathlib.Core.List.Perm
use native.Mathlib.Omega.{arith}
use trt_llm_rs.Prelude.Tests.{◌==◌, if◌then◌else◌, Bool-cases}
use trt_llm_rs.Prelude.Lists.{
  length, take, set, get_elem?, get_elem?_total, get_elem?-set_self, get_elem?-set_ne, length-set,
  length-take,
}

module _ {ℓ} {A : Type ℓ} where
  -- The last element takes the place of the one at `i`.
  abbrev pub swap_remove : ℕ → List A → List A
  swap_remove i xs =
      if i == length xs - 1 then take (length xs - 1) xs else elim (get_elem? xs (length xs - 1)) [
        | none ↦ xs
        | some moved ↦ take (length xs - 1) (set xs i moved)
      ]

  pop-perm :
      (xs : List A) (n : ℕ) (v : A)
      → length xs ≡ suc n
      → get_elem? xs n ≡ some v
      → Perm xs (v ∷ take n xs)
  pop-perm [] n v l e = cc
  pop-perm (x ∷ []) zero v l e =
      subst (λ u. Perm (x ∷ []) (u ∷ [])) (some-injective x v e) (Perm.refl (x ∷ []))
  pop-perm (x ∷ y ∷ ys) zero v l e = absurd (omega (arith, l))
  pop-perm (x ∷ ys) (suc n) v l e =
      Perm.trans (Perm.cons x (pop-perm ys n v (omega (arith, l)) e)) (Perm.swap v x (take n ys))

  swap-perm :
      (xs : List A) (i n : ℕ) (v moved : A)
      → length xs ≡ suc n
      → get_elem? xs i ≡ some v
      → get_elem? xs n ≡ some moved
      → i < n
      → Perm xs (v ∷ take n (set xs i moved))
  swap-perm [] i n v moved l e f h = cc
  swap-perm (x ∷ ys) i zero v moved l e f h = absurd (omega arith)
  swap-perm (x ∷ ys) zero (suc n) v moved l e f h =
      subst (λ u. Perm (x ∷ ys) (u ∷ moved ∷ take n ys)) (some-injective x v e)
        (Perm.cons x (pop-perm ys n moved (omega (arith, l)) f))
  swap-perm (x ∷ ys) (suc i) (suc n) v moved l e f h =
      Perm.trans (Perm.cons x (swap-perm ys i n v moved (omega (arith, l)) e f (omega arith)))
        (Perm.swap v x (take n (set ys i moved)))

  pub swap_remove-perm :
      (i : ℕ) (xs : List A) (v : A)
      → get_elem? xs i ≡ some v
      → i < length xs
      → Perm xs (v ∷ swap_remove i xs)
  swap_remove-perm i xs v e h = elim (Bool-cases (i == length xs - 1)) [
    | inl last ↦
        let is : i ≡ length xs - 1 = ground arith in
        rw last (pop-perm xs (length xs - 1) v (omega arith) (ap (get_elem? xs) (sym is) ∙ e))
    | inr other ↦
        let (moved, f) = get_elem?_total xs (length xs - 1) (omega arith) in
        rw other (rw f (swap-perm xs i (length xs - 1) v moved (omega arith) e f (ground arith)))
  ]

  get_elem?-take : (n : ℕ) (xs : List A) (j : ℕ) → j < n → get_elem? (take n xs) j ≡ get_elem? xs j
  get_elem?-take zero xs j h = absurd (omega arith)
  get_elem?-take (suc n) [] j h = refl
  get_elem?-take (suc n) (x ∷ xs) zero h = refl
  get_elem?-take (suc n) (x ∷ xs) (suc j) h = get_elem?-take n xs j (omega arith)

  -- Where each element stands afterwards.
  pub get_elem?-swap_remove :
      (i : ℕ) (xs : List A) (j : ℕ)
      → i < length xs
      → j < length xs - 1
      → get_elem? (swap_remove i xs) j ≡ get_elem? xs (if j == i then length xs - 1 else j)
  get_elem?-swap_remove i xs j h k = elim (Bool-cases (i == length xs - 1)) [
    | inl last ↦
        let other : (j == i) ≡ false = ground arith in
        rw (last, other) (get_elem?-take (length xs - 1) xs j k)
    | inr before ↦
        let (moved, f) = get_elem?_total xs (length xs - 1) (omega arith) in
        rw before (
          rw f (
            get_elem?-take (length xs - 1) (set xs i moved) j k ∙ elim (Bool-cases (j == i)) [
              | inl here ↦
                  let is : i ≡ j = ground arith in
                  ap (get_elem? (set xs i moved)) (sym is)
                  ∙ get_elem?-set_self xs i moved h
                  ∙ sym f
                  ∙ ap (λ b. get_elem? xs (if b then length xs - 1 else j)) (sym here)
              | inr there ↦
                  get_elem?-set_ne xs i moved j (ground arith)
                  ∙ ap (λ b. get_elem? xs (if b then length xs - 1 else j)) (sym there)
            ]))
  ]

  pub length-swap_remove :
      (i : ℕ) (xs : List A) → i < length xs → length (swap_remove i xs) + 1 ≡ length xs
  length-swap_remove i xs h = elim (Bool-cases (i == length xs - 1)) [
    | inl last ↦ rw last (omega (arith, length-take {ℓ} (length xs - 1) xs))
    | inr before ↦
        let (moved, f) = get_elem?_total xs (length xs - 1) (omega arith) in
        rw before (
          rw f (
            omega (arith, length-take {ℓ} (length xs - 1) (set xs i moved), length-set xs i moved)))
  ]
