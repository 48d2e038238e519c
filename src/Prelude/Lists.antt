-- ===== src/Prelude/Lists.antt =====
-- Lists measured and indexed by native numbers, under the library's names.
use Prim.Native.Nat.{ℕ, zero, suc, ◌+◌, ◌-◌, ◌≤◌, ◌<◌, min}
use mathlib.Core.Path.{◌≡◌, refl, sym, ap, ◌∙◌}
use mathlib.Core.List.{List, [], ◌∷◌, ◌++◌, map}
use mathlib.Core.Option.{Option, none, some, some-injective}
use mathlib.Core.Logic.{◌≢◌, ◌⊎◌, inl, inr}
use native.Mathlib.Omega.{arith}

module _ {ℓ} {A : Type ℓ} where
  abbrev pub length : List A → ℕ
  length [] = 0
  length (x ∷ xs) = suc (length xs)

  abbrev pub get_elem? : List A → ℕ → Option A
  get_elem? [] i = none
  get_elem? (x ∷ xs) zero = some x
  get_elem? (x ∷ xs) (suc i) = get_elem? xs i

  abbrev pub get_or : List A → ℕ → A → A
  get_or [] i d = d
  get_or (x ∷ xs) zero d = x
  get_or (x ∷ xs) (suc i) d = get_or xs i d

  -- A write out of bounds changes nothing.
  abbrev pub set : List A → ℕ → A → List A
  set [] i v = []
  set (x ∷ xs) zero v = v ∷ xs
  set (x ∷ xs) (suc i) v = x ∷ set xs i v

  abbrev pub take : ℕ → List A → List A
  take zero xs = []
  take (suc n) [] = []
  take (suc n) (x ∷ xs) = x ∷ take n xs

  abbrev pub drop : ℕ → List A → List A
  drop zero xs = xs
  drop (suc n) [] = []
  drop (suc n) (x ∷ xs) = drop n xs

  abbrev pub replicate : ℕ → A → List A
  replicate zero a = []
  replicate (suc n) a = a ∷ replicate n a

  pub length-append : (xs ys : List A) → length (xs ++ ys) ≡ length xs + length ys
  length-append [] ys = omega arith
  length-append (x ∷ xs) ys = omega (arith, length-append xs ys)

  pub length-take : (n : ℕ) (xs : List A) → length (take n xs) ≡ min n (length xs)
  length-take zero xs = omega arith
  length-take (suc n) [] = omega arith
  length-take (suc n) (x ∷ xs) = omega (arith, length-take n xs)

  pub length-drop : (n : ℕ) (xs : List A) → length (drop n xs) ≡ length xs - n
  length-drop zero xs = omega arith
  length-drop (suc n) [] = omega arith
  length-drop (suc n) (x ∷ xs) = omega (arith, length-drop n xs)

  pub take-append-drop : (n : ℕ) (xs : List A) → take n xs ++ drop n xs ≡ xs
  take-append-drop zero xs = refl
  take-append-drop (suc n) [] = refl
  take-append-drop (suc n) (x ∷ xs) = ap (◌∷◌ x) (take-append-drop n xs)

  pub length-replicate : (n : ℕ) (a : A) → length (replicate n a) ≡ n
  length-replicate zero a = refl
  length-replicate (suc n) a = ap suc (length-replicate n a)

  pub length-set : (xs : List A) (i : ℕ) (v : A) → length (set xs i v) ≡ length xs
  length-set [] i v = refl
  length-set (x ∷ xs) zero v = refl
  length-set (x ∷ xs) (suc i) v = ap suc (length-set xs i v)

-- `(from..from + n)`.
abbrev pub range_from : ℕ → ℕ → List ℕ
range_from from zero = []
range_from from (suc n) = from ∷ range_from (suc from) n

abbrev pub range : ℕ → List ℕ
range n = range_from 0 n

pub length-range_from : (from n : ℕ) → length (range_from from n) ≡ n
length-range_from from zero = refl
length-range_from from (suc n) = ap suc (length-range_from (suc from) n)

-- A predicate on every element, by recursion.
abbrev pub All {ℓ κ} : {A : Type ℓ} → (A → Type κ) → List A → Type κ
All P [] = Unit
All P (x ∷ xs) = P x × All P xs

pub All-append {ℓ κ} :
    {A : Type ℓ} (P : A → Type κ) (xs ys : List A) → All P xs → All P ys → All P (xs ++ ys)
All-append P [] ys hx hy = hy
All-append P (x ∷ xs) ys (h, hx) hy = (h, All-append P xs ys hx hy)

pub length-map {ℓ κ} :
    {A : Type ℓ} {B : Type κ} (f : A → B) (xs : List A) → length (map f xs) ≡ length xs
length-map f [] = refl
length-map f (x ∷ xs) = ap suc (length-map f xs)

module _ {ℓ} {A : Type ℓ} where
  pub take-nil : (n : ℕ) → ◌≡◌ {A = List A} (take n []) []
  take-nil zero = refl
  take-nil (suc n) = refl

  pub take_all : (n : ℕ) (xs : List A) → length xs ≤ n → take n xs ≡ xs
  take_all zero [] h = refl
  take_all zero (x ∷ xs) h = elim h [ ]
  take_all (suc n) [] h = refl
  take_all (suc n) (x ∷ xs) h = ap (◌∷◌ x) (take_all n xs (omega arith))

  pub take-take : (a b : ℕ) (xs : List A) → a ≤ b → take a (take b xs) ≡ take a xs
  take-take zero b xs h = refl
  take-take (suc a) zero xs h = elim h [ ]
  take-take (suc a) (suc b) [] h = refl
  take-take (suc a) (suc b) (x ∷ xs) h = ap (◌∷◌ x) (take-take a b xs (omega arith))

  pub drop-take : (a b c : ℕ) (xs : List A) → c ≡ a + b → drop a (take c xs) ≡ take b (drop a xs)
  drop-take zero b c xs e = ap (λ n. take n xs) (omega arith)
  drop-take (suc a) b zero xs e = absurd (omega arith)
  drop-take (suc a) b (suc c) [] e = refl ∙ sym (take-nil b)
  drop-take (suc a) b (suc c) (x ∷ xs) e = drop-take a b c xs (omega arith)

module _ {ℓ κ} {A : Type ℓ} (P : A → Type κ) where
  pub All-take : (n : ℕ) (xs : List A) → All P xs → All P (take n xs)
  All-take zero xs ps = tt
  All-take (suc n) [] ps = tt
  All-take (suc n) (x ∷ xs) (p, ps) = (p, All-take n xs ps)

  pub All-drop : (n : ℕ) (xs : List A) → All P xs → All P (drop n xs)
  All-drop zero xs ps = ps
  All-drop (suc n) [] ps = tt
  All-drop (suc n) (x ∷ xs) (p, ps) = All-drop n xs ps

  pub All-pointwise : ((x : A) → P x) → (xs : List A) → All P xs
  All-pointwise h [] = tt
  All-pointwise h (x ∷ xs) = (h x, All-pointwise h xs)

pub All-weaken {ℓ κ ρ} :
    {A : Type ℓ} (P : A → Type κ) (Q : A → Type ρ) (xs : List A)
    → ((x : A) → P x → Q x)
    → All P xs
    → All Q xs
All-weaken P Q [] h ps = tt
All-weaken P Q (x ∷ xs) h (p, ps) = (h x p, All-weaken P Q xs h ps)

pub All-weaken₂ {ℓ κ ρ σ} :
    {A : Type ℓ} (P : A → Type κ) (Q : A → Type ρ) (R : A → Type σ) (xs : List A)
    → ((x : A) → P x → Q x → R x)
    → All P xs
    → All Q xs
    → All R xs
All-weaken₂ P Q R [] h ps qs = tt
All-weaken₂ P Q R (x ∷ xs) h (p, ps) (q, qs) = (h x p q, All-weaken₂ P Q R xs h ps qs)

pub All-snoc {ℓ κ} :
    {A : Type ℓ} (P : A → Type κ) (xs : List A) (y : A) → All P (xs ++ y ∷ []) → P y
All-snoc P [] y (p, _) = p
All-snoc P (x ∷ xs) y (_, ps) = All-snoc P xs y ps

pub get_elem?_total {ℓ} :
    {A : Type ℓ} (xs : List A) (i : ℕ) → i < length xs → (a : A) × (get_elem? xs i ≡ some a)
get_elem?_total [] i h = absurd (omega arith)
get_elem?_total (x ∷ xs) zero h = (x, refl)
get_elem?_total (x ∷ xs) (suc i) h = get_elem?_total xs i (omega arith)

-- Reading a list after a write, and after a push.
module _ {ℓ} {A : Type ℓ} where
  pub get_elem?-set :
      (xs : List A) (i : ℕ) (v : A) (j : ℕ) (a : A)
      → get_elem? (set xs i v) j ≡ some a
      → ((i ≡ j) × (v ≡ a)) ⊎ ((i ≢ j) × (get_elem? xs j ≡ some a))
  get_elem?-set [] i v j a e = cc
  get_elem?-set (x ∷ xs) zero v zero a e = inl (refl, some-injective _ _ e)
  get_elem?-set (x ∷ xs) zero v (suc j) a e = inr (omega arith, e)
  get_elem?-set (x ∷ xs) (suc i) v zero a e = inr (omega arith, e)
  get_elem?-set (x ∷ xs) (suc i) v (suc j) a e = elim (get_elem?-set xs i v j a e) [
    | inl (same, eq) ↦ inl (ap suc same, eq)
    | inr (other, eq) ↦ inr (omega arith, eq)
  ]

  pub get_elem?-set_self :
      (xs : List A) (i : ℕ) (v : A) → i < length xs → get_elem? (set xs i v) i ≡ some v
  get_elem?-set_self [] i v h = absurd (omega arith)
  get_elem?-set_self (x ∷ xs) zero v h = refl
  get_elem?-set_self (x ∷ xs) (suc i) v h = get_elem?-set_self xs i v (omega arith)

  pub get_elem?-set_ne :
      (xs : List A) (i : ℕ) (v : A) (j : ℕ) → i ≢ j → get_elem? (set xs i v) j ≡ get_elem? xs j
  get_elem?-set_ne [] i v j h = refl
  get_elem?-set_ne (x ∷ xs) zero v zero h = absurd (h refl)
  get_elem?-set_ne (x ∷ xs) zero v (suc j) h = refl
  get_elem?-set_ne (x ∷ xs) (suc i) v zero h = refl
  get_elem?-set_ne (x ∷ xs) (suc i) v (suc j) h = get_elem?-set_ne xs i v j (omega arith)

  pub get_elem?-lt : (xs : List A) (i : ℕ) (a : A) → get_elem? xs i ≡ some a → i < length xs
  get_elem?-lt [] i a e = cc
  get_elem?-lt (x ∷ xs) zero a e = omega arith
  get_elem?-lt (x ∷ xs) (suc i) a e = omega (arith, get_elem?-lt xs i a e)

  pub get_elem?-snoc :
      (xs : List A) (v : A) (j : ℕ) (a : A)
      → get_elem? (xs ++ v ∷ []) j ≡ some a
      → ((j ≡ length xs) × (v ≡ a)) ⊎ (get_elem? xs j ≡ some a)
  get_elem?-snoc [] v zero a e = inl (refl, some-injective _ _ e)
  get_elem?-snoc [] v (suc j) a e = cc
  get_elem?-snoc (x ∷ xs) v zero a e = inr e
  get_elem?-snoc (x ∷ xs) v (suc j) a e = elim (get_elem?-snoc xs v j a e) [
    | inl (same, eq) ↦ inl (ap suc same, eq)
    | inr eq ↦ inr eq
  ]

  pub get_elem?-snoc_self : (xs : List A) (v : A) → get_elem? (xs ++ v ∷ []) (length xs) ≡ some v
  get_elem?-snoc_self [] v = refl
  get_elem?-snoc_self (x ∷ xs) v = get_elem?-snoc_self xs v

  pub get_elem?-snoc_old :
      (xs : List A) (v : A) (j : ℕ) (a : A)
      → get_elem? xs j ≡ some a
      → get_elem? (xs ++ v ∷ []) j ≡ some a
  get_elem?-snoc_old [] v j a e = cc
  get_elem?-snoc_old (x ∷ xs) v zero a e = e
  get_elem?-snoc_old (x ∷ xs) v (suc j) a e = get_elem?-snoc_old xs v j a e

module _ {ℓ κ} {A : Type ℓ} {B : Type κ} (f : A → B) where
  pub get_elem?-map :
      (xs : List A) (i : ℕ) (b : B)
      → get_elem? (map f xs) i ≡ some b
      → (a : A) × (get_elem? xs i ≡ some a) × (f a ≡ b)
  get_elem?-map [] i b e = cc
  get_elem?-map (x ∷ xs) zero b e = (x, refl, some-injective _ _ e)
  get_elem?-map (x ∷ xs) (suc i) b e = get_elem?-map xs i b e

  pub map-get_elem? :
      (xs : List A) (i : ℕ) (a : A) → get_elem? xs i ≡ some a → get_elem? (map f xs) i ≡ some (f a)
  map-get_elem? [] i a e = cc
  map-get_elem? (x ∷ xs) zero a e = ap (λ y. some (f y)) (some-injective x a e)
  map-get_elem? (x ∷ xs) (suc i) a e = map-get_elem? xs i a e
