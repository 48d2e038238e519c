-- ===== src/Wire/Sse/Frames.antt =====
-- wire/src/transport.rs, `sse_frame_end`: the end of the first frame, and that later bytes do not
-- move it, unless the buffer ends in a carriage return.
use trt_llm_rs.Prelude.{
  ℕ, zero, suc, ◌+◌, ◌≤◌, ◌<◌, ◌≡◌, refl, ap, ◌∙◌, none, some, List, [], ◌∷◌, ◌++◌, Bool, false,
  arith, ◌==◌, ltb, length, drop, get_elem?, range_from, Bool-cases, Option-cases, inl, inr,
  length-append, get_elem?-lt, get_elem?_total,
}
use mathlib.Core.Option.{some-injective}
use trt_llm_rs.Wire.Sse.{cr, line_ending_len, frame_end_at, frame_end_among, sse_frame_end}

abbrev pub ends_in_cr : List ℕ → Bool
ends_in_cr [] = false
ends_in_cr (b ∷ []) = b == cr
ends_in_cr (b ∷ c ∷ bs) = ends_in_cr (c ∷ bs)

pub ends_in_cr-append :
    (xs ys : List ℕ) → ends_in_cr xs ≡ false → ends_in_cr ys ≡ false → ends_in_cr (xs ++ ys) ≡ false
ends_in_cr-append [] ys hx hy = hy
ends_in_cr-append (x ∷ []) [] hx hy = hx
ends_in_cr-append (x ∷ []) (y ∷ ys) hx hy = hy
ends_in_cr-append (x ∷ x' ∷ xs) ys hx hy = ends_in_cr-append (x' ∷ xs) ys hx hy

pub ends_in_cr-drop : (n : ℕ) (xs : List ℕ) → ends_in_cr xs ≡ false → ends_in_cr (drop n xs) ≡ false
ends_in_cr-drop zero xs h = h
ends_in_cr-drop (suc n) [] h = refl
ends_in_cr-drop (suc n) (x ∷ []) h = rw (drop-nil n) refl
  where
    drop-nil : (k : ℕ) → ◌≡◌ {A = List ℕ} (drop k []) []
    drop-nil zero = refl
    drop-nil (suc k) = refl
ends_in_cr-drop (suc n) (x ∷ x' ∷ xs) h = ends_in_cr-drop n (x' ∷ xs) h

ends_in_cr_last :
    (xs : List ℕ) (at b : ℕ)
    → get_elem? xs at ≡ some b
    → at + 1 ≡ length xs
    → ends_in_cr xs ≡ (b == cr)
ends_in_cr_last [] at b e l = cc
ends_in_cr_last (x ∷ []) zero b e l = ap (λ k. k == cr) (some-injective x b e)
ends_in_cr_last (x ∷ []) (suc at) b e l = cc
ends_in_cr_last (x ∷ x' ∷ xs) zero b e l = absurd (omega arith)
ends_in_cr_last (x ∷ x' ∷ xs) (suc at) b e l = ends_in_cr_last (x' ∷ xs) at b e (omega arith)

pub get_elem?-append :
    (xs ys : List ℕ) (i : ℕ) → i < length xs → get_elem? (xs ++ ys) i ≡ get_elem? xs i
get_elem?-append [] ys i h = absurd (omega arith)
get_elem?-append (x ∷ xs) ys zero h = refl
get_elem?-append (x ∷ xs) ys (suc i) h = get_elem?-append xs ys i (omega arith)

line_ending_len_bounds :
    (b : List ℕ) (at k : ℕ) → line_ending_len b at ≡ some k → (at + k ≤ length b) × (1 ≤ k)
unfolding line_ending_len
line_ending_len_bounds b at k e = elim (Option-cases (get_elem? b at)) [
  | inl out ↦ absurd (ground arith)
  | inr (x, here) ↦ elim (Option-cases (get_elem? b (at + 1))) [
    | inl out ↦ ground (arith, get_elem?-lt b at x here)
    | inr (y, there) ↦ ground (arith, get_elem?-lt b at x here, get_elem?-lt b (at + 1) y there)
  ]
]

line_ending_len_short : (b : List ℕ) (at k : ℕ) → line_ending_len b at ≡ some k → k ≤ 2
unfolding line_ending_len
line_ending_len_short b at k e = ground arith

module _ (b c : List ℕ) where
  line_ending_len_inside :
      (at : ℕ) → at + 1 < length b → line_ending_len (b ++ c) at ≡ line_ending_len b at
  unfolding line_ending_len
  line_ending_len_inside at h =
      rw (get_elem?-append b c at (omega arith), get_elem?-append b c (at + 1) h) refl

  line_ending_len-none :
      (at : ℕ) → at < length b → line_ending_len b at ≡ none → line_ending_len (b ++ c) at ≡ none
  unfolding line_ending_len
  line_ending_len-none at h e = ground (arith, get_elem?-append b c at h)

  line_ending_len-some :
      (at k : ℕ)
      → ends_in_cr b ≡ false
      → line_ending_len b at ≡ some k
      → line_ending_len (b ++ c) at ≡ some k
  unfolding line_ending_len
  line_ending_len-some at k whole e = elim (Bool-cases (ltb (at + 1) (length b))) [
    | inl inside ↦ line_ending_len_inside at (ground arith) ∙ e
    | inr last ↦
        let bounds = line_ending_len_bounds b at k e in
        let (x, here) = get_elem?_total b at (omega arith) in
        ground (
          arith,
          here,
          get_elem?-append b c at (omega arith),
          ends_in_cr_last b at x here (ground arith),
        )
  ]

  frame_end_at-none :
      (start : ℕ)
      → start + 2 < length b
      → frame_end_at b start ≡ none
      → frame_end_at (b ++ c) start ≡ none
  unfolding frame_end_at
  frame_end_at-none start h e = elim (Option-cases (line_ending_len b start)) [
    | inl no_first ↦ ground (arith, line_ending_len-none start (omega arith) no_first)
    | inr (k, first) ↦ elim (Option-cases (line_ending_len b (start + k))) [
      | inr (k', second) ↦ absurd (ground arith)
      | inl no_second ↦
          let same = line_ending_len_inside start (omega arith) in
          let short : k ≤ 2 = line_ending_len_short b start k first in
          ground (arith, line_ending_len-none (start + k) (omega arith) no_second)
    ]
  ]

  frame_end_at-some :
      (start : ℕ) (p : ℕ × ℕ)
      → ends_in_cr b ≡ false
      → frame_end_at b start ≡ some p
      → frame_end_at (b ++ c) start ≡ some p
  unfolding frame_end_at
  frame_end_at-some start p whole e = elim (Option-cases (line_ending_len b start)) [
    | inl no_first ↦ absurd (ground arith)
    | inr (k, first) ↦ elim (Option-cases (line_ending_len b (start + k))) [
      | inl no_second ↦ absurd (ground arith)
      | inr (k', second) ↦ ground (
        arith,
        line_ending_len-some start k whole first,
        line_ending_len-some (start + k) k' whole second,
      )
    ]
  ]

frame_end_at_bounds :
    (b : List ℕ) (start e d : ℕ)
    → frame_end_at b start ≡ some (e, d)
    → (e ≡ start) × (e + d ≤ length b) × (2 ≤ d)
unfolding frame_end_at
frame_end_at_bounds b start e d h = elim (Option-cases (line_ending_len b start)) [
  | inl no_first ↦ absurd (ground arith)
  | inr (k, first) ↦ elim (Option-cases (line_ending_len b (start + k))) [
    | inl no_second ↦ absurd (ground arith)
    | inr (k', second) ↦ ground (
      arith,
      line_ending_len_bounds b start k first,
      line_ending_len_bounds b (start + k) k' second,
    )
  ]
]

frame_end_among_bounds :
    (b : List ℕ) (from n e d : ℕ)
    → frame_end_among b (range_from from n) ≡ some (e, d)
    → (from ≤ e) × (e + d ≤ length b) × (2 ≤ d)
unfolding frame_end_among
frame_end_among_bounds b from zero e d h = cc
frame_end_among_bounds b from (suc n) e d h = elim (Option-cases (frame_end_at b from)) [
  | inl no_end ↦
      let ih = frame_end_among_bounds b (suc from) n e d (ground arith) in
      (omega (arith, ih.0), ih.1, ih.2)
  | inr ((e', d'), found) ↦
      let bounds = frame_end_at_bounds b from e d (ground arith) in
      (omega (arith, bounds.0), bounds.1, bounds.2)
]

-- The frame and its delimiter lie in the buffer, and the delimiter has two bytes at least.
pub sse_frame_end_bounds :
    (b : List ℕ) (e d : ℕ) → sse_frame_end b ≡ some (e, d) → (e + d ≤ length b) × (2 ≤ d)
unfolding sse_frame_end
sse_frame_end_bounds b e d h =
    let (_, inside, long) = frame_end_among_bounds b 0 (length b) e d h in (inside, long)

frame_end_among_append :
    (b c : List ℕ) (from n m e d : ℕ)
    → ends_in_cr b ≡ false
    → n ≤ m
    → frame_end_among b (range_from from n) ≡ some (e, d)
    → frame_end_among (b ++ c) (range_from from m) ≡ some (e, d)
unfolding frame_end_among
frame_end_among_append b c from zero m e d whole le h = cc
frame_end_among_append b c from (suc n) zero e d whole le h = absurd (omega arith)
frame_end_among_append b c from (suc n) (suc m) e d whole le h =
    elim (Option-cases (frame_end_at b from)) [
      | inr (p, found) ↦ ground (arith, frame_end_at-some b c from p whole found)
      | inl no_end ↦
          let later : frame_end_among b (range_from (suc from) n) ≡ some (e, d) = ground arith in
          let bounds = frame_end_among_bounds b (suc from) n e d later in
          ground (
            arith,
            frame_end_at-none b c from (omega arith) no_end,
            frame_end_among_append b c (suc from) n m e d whole (omega arith) later,
          )
    ]

-- Bytes that arrive later do not move the end of a frame.
pub sse_frame_end-append :
    (b c : List ℕ) (e d : ℕ)
    → ends_in_cr b ≡ false
    → sse_frame_end b ≡ some (e, d)
    → sse_frame_end (b ++ c) ≡ some (e, d)
unfolding sse_frame_end
sse_frame_end-append b c e d whole h =
    frame_end_among_append b c 0 (length b) (length (b ++ c)) e d whole
      (omega (arith, length-append {0} b c)) h
