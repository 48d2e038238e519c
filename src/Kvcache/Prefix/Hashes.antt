-- ===== src/Kvcache/Prefix/Hashes.antt =====
-- `block_hashes` of crates/kvcache/src/prefix.rs.
use Prim.Native.Nat.mul
use mathlib.Core.List.{foldl}
use trt_llm_rs.Prelude.{
  ℕ, zero, suc, ◌-◌, ◌*◌, ◌/◌, ◌≤◌, ◌<◌, ◌≡◌, refl, ap, ◌∙◌, sym, max, List, [], ◌∷◌, arith, ltb,
  inl, inr, Bool-cases, length, take, drop, length-drop, length-take, take-take, drop-take, lt→ltb,
  ltb→lt,
}
use trt_llm_rs.Kvcache.Prefix.{fnv1a_u64, fnv_offset, chunks_exact, hash_chunks, block_hashes}

div-sub : (n size : ℕ) → 0 < size → size ≤ n → n / size ≡ suc ((n - size) / size)
div-sub n size h k = grind arith

div_small : (n size : ℕ) → n < size → n / size ≡ 0
div_small n size h = grind arith

module _ {ℓ} {A : Type ℓ} (size : ℕ) (positive : 0 < size) where
  length-chunks_exact :
      (fuel : ℕ) (xs : List A)
      → length xs ≤ fuel
      → length (chunks_exact fuel size xs) ≡ length xs / size
  unfolding chunks_exact
  length-chunks_exact zero [] h = sym (div_small 0 size positive)
  length-chunks_exact zero (x ∷ xs) h = elim h [ ]
  length-chunks_exact (suc fuel) xs h = elim (Bool-cases (ltb (length xs) size)) [
    | inl short ↦ rw short (sym (div_small (length xs) size (ground arith)))
    | inr long ↦
        let enough : size ≤ length xs = ground arith in
        rw long (
          omega (
            arith,
            length-drop size xs,
            div-sub (length xs) size positive enough,
            length-chunks_exact fuel (drop size xs) (omega (arith, length-drop size xs)),
            ap (λ (t : ℕ). t / size) (length-drop size xs),
          ))
  ]

  chunks_exact_short : (fuel : ℕ) (xs : List A) → length xs < size → chunks_exact fuel size xs ≡ []
  unfolding chunks_exact
  chunks_exact_short zero xs h = refl
  chunks_exact_short (suc fuel) xs h = rw (lt→ltb _ _ h)

  chunks_exact_long :
      (fuel : ℕ) (xs : List A)
      → size ≤ length xs
      → length xs ≤ fuel
      → (f : ℕ) × (length (drop size xs) ≤ f)
        × (chunks_exact fuel size xs ≡ take size xs ∷ chunks_exact f size (drop size xs))
  unfolding chunks_exact
  chunks_exact_long zero xs h k = absurd (omega arith)
  chunks_exact_long (suc fuel) xs h k = (fuel, omega (arith, length-drop size xs), ground arith)

  chunks_exact-fuel :
      (fuel f : ℕ) (xs : List A)
      → length xs ≤ fuel
      → length xs ≤ f
      → chunks_exact fuel size xs ≡ chunks_exact f size xs
  unfolding chunks_exact
  chunks_exact-fuel zero f [] h k = sym (chunks_exact_short f [] positive)
  chunks_exact-fuel zero f (x ∷ xs) h k = elim h [ ]
  chunks_exact-fuel (suc fuel) zero [] h k = chunks_exact_short (suc fuel) [] positive
  chunks_exact-fuel (suc fuel) zero (x ∷ xs) h k = elim k [ ]
  chunks_exact-fuel (suc fuel) (suc f) xs h k =
      ground (arith, length-drop size xs, chunks_exact-fuel fuel f (drop size xs))

  chunks_exact-take :
      (k fuel f : ℕ) (xs : List A)
      → length xs ≤ fuel
      → length (take (k * size) xs) ≤ f
      → chunks_exact f size (take (k * size) xs) ≡ take k (chunks_exact fuel size xs)
  chunks_exact-take zero fuel f xs h g = rw mul.zero (chunks_exact_short f [] positive)
  chunks_exact-take (suc k) fuel f xs h g = elim (Bool-cases (ltb (length xs) size)) [
    | inl short ↦ rw (chunks_exact_short fuel xs (ground arith)) (
        chunks_exact_short f (take (suc k * size) xs)
          (omega (arith, ltb→lt _ _ short, length-take (suc k * size) xs)))
    | inr long ↦
        let enough : size ≤ length xs = ground arith in
        let m : ℕ = suc k * size in
        let more : size ≤ m = omega (arith, mul.suc k size) in
        let (f₁, h₁, e₁) = chunks_exact_long fuel xs enough h in
        let (f₂, h₂, e₂) = chunks_exact_long f (take m xs) (omega (arith, length-take m xs)) g in
        let d : drop size (take m xs) ≡ take (k * size) (drop size xs) =
          drop-take size (k * size) m xs (mul.suc k size) in
        rw (e₁, e₂, take-take size m xs more, d)
          (ap (◌∷◌ (take size xs)) (chunks_exact-take k f₁ f₂ (drop size xs) h₁ (rw d at h₂)))
  ]

hash_chunks-take :
    (k h : ℕ) (cs : List (List ℕ)) → hash_chunks h (take k cs) ≡ take k (hash_chunks h cs)
unfolding hash_chunks
hash_chunks-take zero h cs = refl
hash_chunks-take (suc k) h [] = refl
hash_chunks-take (suc k) h (c ∷ cs) =
    ap (◌∷◌ (foldl fnv1a_u64 h c)) (hash_chunks-take k (foldl fnv1a_u64 h c) cs)

length-hash_chunks : (h : ℕ) (cs : List (List ℕ)) → length (hash_chunks h cs) ≡ length cs
unfolding hash_chunks
length-hash_chunks h [] = refl
length-hash_chunks h (c ∷ cs) = ap suc (length-hash_chunks (foldl fnv1a_u64 h c) cs)

-- There is one hash for each whole block of the tokens; a partial block at the end has none.
pub length-block_hashes :
    (tokens : List ℕ) (block_size : ℕ)
    → length (block_hashes tokens block_size) ≡ length tokens / max block_size 1
unfolding block_hashes
length-block_hashes tokens block_size =
    length-hash_chunks fnv_offset (chunks_exact (length tokens) (max block_size 1) tokens)
    ∙ length-chunks_exact (max block_size 1) (omega arith) (length tokens) tokens (omega arith)

-- The first `k` hashes are those of the first `k` blocks alone: no later token has a part in them.
pub block_hashes-take :
    (k : ℕ) (tokens : List ℕ) (block_size : ℕ)
    → block_hashes (take (k * max block_size 1) tokens) block_size
      ≡ take k (block_hashes tokens block_size)
unfolding block_hashes
block_hashes-take k tokens block_size =
    let size : ℕ = max block_size 1 in
    ap (hash_chunks fnv_offset) (
      chunks_exact-take size (omega arith) k (length tokens) (length (take (k * size) tokens))
        tokens (omega arith) (omega arith))
    ∙ hash_chunks-take k fnv_offset (chunks_exact (length tokens) size tokens)
