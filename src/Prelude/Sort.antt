-- ===== src/Prelude/Sort.antt =====
-- `sort_by`: a stable sort by a comparison.
use Prim.Native.Nat.{ℕ, zero, suc, Ordering, compare}
use mathlib.Core.Path.{◌≡◌, refl, ap, ◌∙◌}
use mathlib.Core.Bool.{Bool, true, false}
use mathlib.Core.List.{List, [], ◌∷◌, Perm}
use mathlib.Core.List.Perm
use native.Mathlib.Omega.{arith}
use trt_llm_rs.Prelude.Lists.{All, All-drop, take, drop, length}

abbrev pub flip : Ordering → Ordering
flip Ordering.lt = Ordering.gt
flip Ordering.eq = Ordering.eq
flip Ordering.gt = Ordering.lt

-- `Ordering::then`.
abbrev pub then_cmp : Ordering → Ordering → Ordering
then_cmp Ordering.lt o = Ordering.lt
then_cmp Ordering.eq o = o
then_cmp Ordering.gt o = Ordering.gt

module _ {ℓ} {A : Type ℓ} (cmp : A → A → Ordering) where
  unfoldable pub insert_by : A → List A → List A
  insert_by x [] = x ∷ []
  insert_by x (y ∷ ys) = elim (cmp x y) [ Ordering.gt ↦ y ∷ insert_by x ys | _ ↦ x ∷ y ∷ ys ]

  unfoldable pub sort_by : List A → List A
  unfolding insert_by
  sort_by [] = []
  sort_by (x ∷ xs) = insert_by x (sort_by xs)

  insert_by-perm : (x : A) (xs : List A) → Perm (insert_by x xs) (x ∷ xs)
  unfolding insert_by
  insert_by-perm x [] = Perm.refl (x ∷ [])
  insert_by-perm x (y ∷ ys) =
      let moved = Perm.trans (Perm.cons y (insert_by-perm x ys)) (Perm.swap x y ys) in
      ground (arith, moved, Perm.refl (x ∷ y ∷ ys))

  length-insert_by : (x : A) (xs : List A) → length (insert_by x xs) ≡ suc (length xs)
  unfolding insert_by
  length-insert_by x [] = refl
  length-insert_by x (y ∷ ys) = ground (arith, length-insert_by x ys)

  pub length-sort_by : (xs : List A) → length (sort_by xs) ≡ length xs
  unfolding sort_by
  length-sort_by [] = refl
  length-sort_by (x ∷ xs) = length-insert_by x (sort_by xs) ∙ ap suc (length-sort_by xs)

  pub sort_by-perm : (xs : List A) → Perm (sort_by xs) xs
  unfolding sort_by
  sort_by-perm [] = Perm.nil
  sort_by-perm (x ∷ xs) = Perm.trans (insert_by-perm x (sort_by xs)) (Perm.cons x (sort_by-perm xs))

-- The comparison says "not greater".
abbrev pub le_by {ℓ} : {A : Type ℓ} → (A → A → Ordering) → A → A → Bool
le_by cmp a b = elim (cmp a b) [ Ordering.gt ↦ false | _ ↦ true ]

-- What `sort_by` documents that it needs: a total order.
pub record IsTotal {ℓ} {A : Type ℓ} (cmp : A → A → Ordering) : Type ℓ where
  pub flips : (a b : A) → cmp b a ≡ flip (cmp a b)
  pub trans : (a b c : A) → le_by cmp a b ≡ true → le_by cmp b c ≡ true → le_by cmp a c ≡ true

module _ {ℓ} {A : Type ℓ} (cmp : A → A → Ordering) where
  -- Each element is no greater than all that follow it.
  abbrev pub IsSorted : List A → Type 0
  IsSorted [] = Unit
  IsSorted (x ∷ xs) = All (λ y. le_by cmp x y ≡ true) xs × IsSorted xs

module _ {ℓ} {A : Type ℓ} (cmp : A → A → Ordering) (t : IsTotal cmp) where
  All-le_by_trans :
      (a b : A) (xs : List A)
      → le_by cmp a b ≡ true
      → All (λ y. le_by cmp b y ≡ true) xs
      → All (λ y. le_by cmp a y ≡ true) xs
  All-le_by_trans a b [] h hs = tt
  All-le_by_trans a b (x ∷ xs) h (hx, hs) = (t.trans a b x h hx, All-le_by_trans a b xs h hs)

  All-insert_by :
      (a x : A) (xs : List A)
      → le_by cmp a x ≡ true
      → All (λ y. le_by cmp a y ≡ true) xs
      → All (λ y. le_by cmp a y ≡ true) (insert_by cmp x xs)
  unfolding insert_by
  All-insert_by a x [] h hs = (h, tt)
  All-insert_by a x (y ∷ ys) h (hy, hs) = ground (arith, All-insert_by a x ys h hs)

  insert_by-IsSorted : (x : A) (xs : List A) → IsSorted cmp xs → IsSorted cmp (insert_by cmp x xs)
  unfolding insert_by
  insert_by-IsSorted x [] s = (tt, tt)
  insert_by-IsSorted x (y ∷ ys) (hy, s) =
      ground (
        arith,
        t.flips x y,
        All-le_by_trans x y ys,
        All-insert_by y x ys,
        insert_by-IsSorted x ys s,
      )

  pub sort_by-IsSorted : (xs : List A) → IsSorted cmp (sort_by cmp xs)
  unfolding sort_by
  sort_by-IsSorted [] = tt
  sort_by-IsSorted (x ∷ xs) = insert_by-IsSorted x (sort_by cmp xs) (sort_by-IsSorted xs)

module _ {ℓ} {A : Type ℓ} (c₁ c₂ : A → A → Ordering) where
  -- `c₁(a, b).then(c₂(a, b))` is a total order again.
  pub then_cmp-IsTotal : IsTotal c₁ → IsTotal c₂ → IsTotal (λ a b. then_cmp (c₁ a b) (c₂ a b))
  then_cmp-IsTotal t₁ t₂ = record {
    flips = λ a b. ground (arith, t₁.flips a b, t₂.flips a b);
    trans = λ a b c h k. ground (
      arith,
      t₁.trans a b c,
      t₁.trans b c a,
      t₁.trans c a b,
      t₁.flips a b,
      t₁.flips a c,
      t₁.flips b c,
      t₂.trans a b c,
    );
  }

-- Comparing by a key.
pub key-IsTotal {ℓ κ} :
    {A : Type ℓ} {B : Type κ} (f : A → B) (cmp : B → B → Ordering)
    → IsTotal cmp
    → IsTotal (λ a b. cmp (f a) (f b))
key-IsTotal f cmp t = record {
  flips = λ a b. t.flips (f a) (f b);
  trans = λ a b c. t.trans (f a) (f b) (f c);
}

pub reverse-IsTotal {ℓ} :
    {A : Type ℓ} (cmp : A → A → Ordering) → IsTotal cmp → IsTotal (λ a b. cmp b a)
reverse-IsTotal cmp t = record {
  flips = λ a b. t.flips b a;
  trans = λ a b c h k. ground (
    arith,
    t.trans c b a,
    t.flips a b,
    t.flips b c,
    t.flips a c,
    t.flips b a,
    t.flips c b,
    t.flips c a,
  );
}

pub compare-IsTotal : IsTotal compare
compare-IsTotal = record { flips = λ a b. ground arith; trans = λ a b c h k. ground arith }

module _ {ℓ κ} {A : Type ℓ} (P : A → Type κ) (cmp : A → A → Ordering) where
  All-insert : (x : A) (xs : List A) → P x → All P xs → All P (insert_by cmp x xs)
  unfolding insert_by
  All-insert x [] p ps = (p, ps)
  All-insert x (y ∷ ys) p (q, qs) =
      elim (cmp x y)
        as (λ o. All P (elim o [ Ordering.gt ↦ y ∷ insert_by cmp x ys | _ ↦ x ∷ y ∷ ys ])) [
          | Ordering.lt ↦ (p, (q, qs))
          | Ordering.eq ↦ (p, (q, qs))
          | Ordering.gt ↦ (q, All-insert x ys p qs)
        ]

  -- What holds of every element holds of every element of the sorted list.
  pub All-sort_by : (xs : List A) → All P xs → All P (sort_by cmp xs)
  unfolding sort_by
  All-sort_by [] ps = ps
  All-sort_by (x ∷ xs) (p, ps) = All-insert x (sort_by cmp xs) p (All-sort_by xs ps)

module _ {ℓ} {A : Type ℓ} (cmp : A → A → Ordering) where
  -- In a sorted list each of the first `n` elements is no greater than each of the others.
  pub IsSorted-take-drop :
      (n : ℕ) (xs : List A)
      → IsSorted cmp xs
      → All (λ x. All (λ y. le_by cmp x y ≡ true) (drop n xs)) (take n xs)
  IsSorted-take-drop zero xs s = tt
  IsSorted-take-drop (suc n) [] s = tt
  IsSorted-take-drop (suc n) (x ∷ xs) (h, s) =
      (All-drop (λ y. le_by cmp x y ≡ true) n xs h, IsSorted-take-drop n xs s)
