-- ===== src/Kvcache/Pool/Alloc.antt =====
-- `BlockPool::alloc` and `can_admit` of crates/kvcache/src/pool.rs.
use trt_llm_rs.Prelude.{
  ℕ, zero, suc, ◌+◌, ◌≤◌, ◌<◌, ◌≡◌, refl, ap, ◌∙◌, true, List, [], ◌∷◌, arith, ◌==◌, if◌then◌else◌,
  length, length-set, set, ltb, lt→ltb, ltb→lt, leb→le, Bool-cases, inl, inr, ◌⊎◌,
}
use trt_llm_rs.Prelude.Float.{Floats}
use trt_llm_rs.Prelude.Counts.{count}
use trt_llm_rs.Kvcache.Pool.Counting.{
  unheld, refs, unheld-set, refs-set, unheld-lt, unheld-le, unheld-refs,
}
use trt_llm_rs.Kvcache.Pool.Invariant.{IsValid}
use trt_llm_rs.Kvcache.Pool.{
  BlockPool, ok, err, kv_exhausted, total, available, can_admit, take_block, set_refcount,
  alloc_loop, alloc,
}

-- What a block taken out of the lists leaves behind.
record Took {F : Type 0} (p : BlockPool F) (id : ℕ) (free cached : List ℕ) : Type 0 where
  moved :
      (b : ℕ)
      → count b p.free + count b p.cached
        ≡ (if id == b then 1 else 0) + (count b free + count b cached)
  left : available p ≡ suc (length free + length cached)
  taken : take_block p ≡ ok (id, record p { free = free; cached = cached })

-- What `alloc` promises of the blocks that it hands out and of the pool that it leaves: a valid
-- pool of the same size, as many blocks fewer to hand out, each block handed out without a
-- reference before (so none twice), and with one reference after.
pub record Allocated {F : Type 0} (p : BlockPool F) (out : List ℕ) (p' : BlockPool F) : Type 0 where
  pub valid : IsValid p'
  pub size : total p' ≡ total p
  pub left : available p' + length out ≡ available p
  pub unheld_before : (b : ℕ) → count b out ≤ unheld p.refcount b
  pub referenced : (b : ℕ) → refs p'.refcount b ≡ refs p.refcount b + count b out

module _ {F : Type 0} where
  take_block-Took :
      (p : BlockPool F) (fs cs : List ℕ)
      → p.free ≡ fs
      → p.cached ≡ cs
      → 0 < length fs + length cs
      → (id : ℕ) × (free : List ℕ) × (cached : List ℕ) × Took p id free cached
  unfolding take_block
  take_block-Took p [] [] ef ec h = elim h [ ]
  take_block-Took p [] (x ∷ xs) ef ec h = (
    x,
    p.free,
    xs,
    record {
      moved = λ b. rw (ef, ec) (omega arith);
      left = rw (ef, ec) (omega arith);
      taken = rw (ef, ec);
    },
  )
  take_block-Took p (x ∷ xs) cs ef ec h = (
    x,
    xs,
    p.cached,
    record { moved = λ b. rw ef (omega arith); left = rw ef (omega arith); taken = rw ef },
  )

  step_lem :
      (p : BlockPool F) (id : ℕ) (free cached : List ℕ)
      → IsValid p
      → Took p id free cached
      → (p' : BlockPool F) × (set_refcount (record p { free = free; cached = cached }) id 1 ≡ ok p')
        × Allocated p (id ∷ []) p'
  unfolding set_refcount
  step_lem p id free cached v t =
      let inside : id < length p.refcount =
        unheld-lt p.refcount id (ground (arith, v.balanced id, t.moved id)) in
      (
        record p { free = free; cached = cached; refcount = set p.refcount id 1 },
        rw (lt→ltb id (length p.refcount) inside),
        record {
          valid = record {
            balanced = λ b. ground (
              arith,
              v.balanced b,
              t.moved b,
              unheld-set p.refcount id 1 b inside,
              unheld-le p.refcount b,
            );
          };
          size = length-set p.refcount id 1;
          left = omega (arith, t.left);
          unheld_before = λ b. ground (arith, v.balanced b, t.moved b);
          referenced = λ b. ground (
            arith,
            v.balanced b,
            t.moved b,
            refs-set p.refcount id 1 b inside,
            unheld-refs p.refcount b,
          );
        },
      )

  Allocated-none : (p : BlockPool F) → IsValid p → Allocated p [] p
  Allocated-none p v = record {
    valid = v;
    size = refl;
    left = omega arith;
    unheld_before = λ b. omega arith;
    referenced = λ b. omega arith;
  }

  Allocated-cons :
      {p p₁ p₂ : BlockPool F} {id : ℕ} {out : List ℕ}
      → Allocated p (id ∷ []) p₁
      → Allocated p₁ out p₂
      → Allocated p (id ∷ out) p₂
  Allocated-cons {p} {p₁} {p₂} {id} {out} a c = record {
    valid = c.valid;
    size = c.size ∙ a.size;
    left = omega (arith, a.left, c.left);
    unheld_before = λ b. ground (
      arith,
      a.unheld_before b,
      c.unheld_before b,
      a.referenced b,
      unheld-refs p.refcount b,
      unheld-refs p₁.refcount b,
      a.size,
    );
    referenced = λ b. omega (arith, a.referenced b, c.referenced b);
  }

  alloc_loop_lem :
      (n : ℕ) (p : BlockPool F)
      → IsValid p
      → n ≤ available p
      → (out : List ℕ) × (p' : BlockPool F) × (alloc_loop n p ≡ ok (out, p'))
        × (length out ≡ n)
        × Allocated p out p'
  unfolding alloc_loop
  alloc_loop_lem zero p v h = ([], p, refl, refl, Allocated-none p v)
  alloc_loop_lem (suc n) p v h =
      let (id, free, cached, t) = take_block-Took p p.free p.cached refl refl (omega arith) in
      let (p₁, e₁, a) = step_lem p id free cached v t in
      let (out, p₂, e₂, len, c) = alloc_loop_lem n p₁ a.valid (omega (arith, a.left)) in
      (id ∷ out, p₂, rw (t.taken, e₁, e₂), ap suc len, Allocated-cons a c)

  -- On a valid pool `alloc` returns as many blocks as it is asked for whenever that many are free or
  -- cached, and otherwise the error with the two numbers; it never panics.
  pub alloc_total :
      (n : ℕ) (p : BlockPool F)
      → IsValid p
      → ((n ≤ available p)
          × ((out : List ℕ) × (p' : BlockPool F) × (alloc n p ≡ ok (out, p'))
              × (length out ≡ n)
              × Allocated p out p'))
        ⊎ ((available p < n) × (alloc n p ≡ err (kv_exhausted n (available p))))
  unfolding alloc
  alloc_total n p v = elim (Bool-cases (ltb (available p) n)) [
    | inl short ↦ inr (ltb→lt _ _ short, rw short)
    | inr enough ↦
        let fits : n ≤ available p = ground arith in
        inl (fits, rw enough (alloc_loop_lem n p v fits))
  ]

  -- If the watermark admits `n` blocks of a valid pool, `alloc` hands them out, and at least the
  -- reserve stays available.
  pub can_admit-alloc :
      (fl : Floats F) (p : BlockPool F) (n : ℕ)
      → IsValid p
      → can_admit fl p n ≡ true
      → (out : List ℕ) × (p' : BlockPool F) × (alloc n p ≡ ok (out, p'))
        × (length out ≡ n)
        × (fl.to_ℕ (fl.ceil (fl.mul (fl.of_ℕ (total p)) p.watermark)) ≤ available p')
  unfolding can_admit
  can_admit-alloc fl p n v h = elim (alloc_total n p v) [
    | inl (fits, (out, p', e, len, a)) ↦ (out, p', e, len, omega (arith, leb→le _ _ h, a.left, len))
    | inr (short, _) ↦ absurd (omega (arith, leb→le _ _ h))
  ]
