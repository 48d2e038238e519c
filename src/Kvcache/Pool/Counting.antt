-- ===== src/Kvcache/Pool/Counting.antt =====
-- Counting blocks in the lists of crates/kvcache/src/pool.rs.
use trt_llm_rs.Prelude.{
  ℕ, zero, suc, ◌≤◌, ◌<◌, ◌≡◌, refl, none, some, List, [], ◌∷◌, arith, ◌==◌, ltb, if◌then◌else◌,
  length, get_elem?, get_or, set, replicate,
}

-- 1 for a block of the pool with no reference, 0 for any other.
abbrev pub unheld : List ℕ → ℕ → ℕ
unheld rc b = elim (get_elem? rc b) [ none ↦ 0 | some c ↦ if c == 0 then 1 else 0 ]

-- The references of a block; none if there is no such block.
abbrev pub refs : List ℕ → ℕ → ℕ
refs rc b = get_or rc b 0

pub unheld-set :
    (rc : List ℕ) (i c b : ℕ)
    → i < length rc
    → unheld (set rc i c) b ≡ (if i == b then (if c == 0 then 1 else 0) else unheld rc b)
unheld-set [] i c b h = elim h [ ]
unheld-set (x ∷ rc) zero c zero h = ground arith
unheld-set (x ∷ rc) zero c (suc b) h = ground arith
unheld-set (x ∷ rc) (suc i) c zero h = ground arith
unheld-set (x ∷ rc) (suc i) c (suc b) h = ground (arith, unheld-set rc i c b)

pub refs-set :
    (rc : List ℕ) (i c b : ℕ)
    → i < length rc
    → refs (set rc i c) b ≡ (if i == b then c else refs rc b)
refs-set [] i c b h = elim h [ ]
refs-set (x ∷ rc) zero c zero h = ground arith
refs-set (x ∷ rc) zero c (suc b) h = ground arith
refs-set (x ∷ rc) (suc i) c zero h = ground arith
refs-set (x ∷ rc) (suc i) c (suc b) h = ground (arith, refs-set rc i c b)

pub unheld-le : (rc : List ℕ) (b : ℕ) → unheld rc b ≤ 1
unheld-le rc b = ground arith

-- A block that has no reference is one of the pool's.
pub unheld-lt : (rc : List ℕ) (b : ℕ) → 0 < unheld rc b → b < length rc
unheld-lt [] b h = elim h [ ]
unheld-lt (x ∷ rc) zero h = omega arith
unheld-lt (x ∷ rc) (suc b) h = omega (arith, unheld-lt rc b h)

-- A block with a reference is one of the pool's, and is not unheld.
pub refs-lt : (rc : List ℕ) (b : ℕ) → 0 < refs rc b → b < length rc
refs-lt [] b h = elim h [ ]
refs-lt (x ∷ rc) zero h = omega arith
refs-lt (x ∷ rc) (suc b) h = omega (arith, refs-lt rc b h)

pub get_elem?-refs : (rc : List ℕ) (b : ℕ) → b < length rc → get_elem? rc b ≡ some (refs rc b)
get_elem?-refs [] b h = elim h [ ]
get_elem?-refs (x ∷ rc) zero h = refl
get_elem?-refs (x ∷ rc) (suc b) h = get_elem?-refs rc b (omega arith)

pub get_elem?-past : (rc : List ℕ) (b : ℕ) → length rc ≤ b → get_elem? rc b ≡ none
get_elem?-past [] b h = refl
get_elem?-past (x ∷ rc) zero h = elim h [ ]
get_elem?-past (x ∷ rc) (suc b) h = get_elem?-past rc b (omega arith)

pub unheld-refs :
    (rc : List ℕ) (b : ℕ)
    → unheld rc b ≡ (if ltb b (length rc) then (if refs rc b == 0 then 1 else 0) else 0)
unheld-refs [] b = ground arith
unheld-refs (x ∷ rc) zero = ground arith
unheld-refs (x ∷ rc) (suc b) = ground (arith, unheld-refs rc b)

pub unheld-replicate : (n b : ℕ) → unheld (replicate n 0) b ≡ (if ltb b n then 1 else 0)
unheld-replicate zero b = ground arith
unheld-replicate (suc n) zero = ground arith
unheld-replicate (suc n) (suc b) = ground (arith, unheld-replicate n b)
