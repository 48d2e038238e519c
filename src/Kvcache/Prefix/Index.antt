-- ===== src/Kvcache/Prefix/Index.antt =====
-- The two maps of `PrefixCache` in crates/kvcache/src/prefix.rs.
use mathlib.Core.List.{zip}
use trt_llm_rs.Prelude.{
  ℕ, ◌≡◌, refl, none, some, List, [], ◌∷◌, arith, ◌==◌, if◌then◌else◌, inl, inr, if_elim, Bool, not,
  Option-cases, ltb,
}
use trt_llm_rs.Prelude.Counts.{count}
use trt_llm_rs.Prelude.Assoc.{lookup, remove, lookup-insert, lookup-remove}
use trt_llm_rs.Kvcache.Prefix.{
  PrefixCache, new, insert_one, insert_loop, insert, forget_one, forget, drop_stale, block_hashes,
}

-- Each block that is indexed under a hash is the block that this hash finds.
pub record IsIndexed (c : PrefixCache) : Type 0 where
  pub found : (b h : ℕ) → lookup b c.by_block ≡ some h → lookup h c.by_hash ≡ some b

pub new-IsIndexed : (block_size : ℕ) (enabled : Bool) → IsIndexed (new block_size enabled)
unfolding new lookup
new-IsIndexed block_size enabled = record { found = λ b h e. cc }

insert_one-IsIndexed : (h b : ℕ) (c : PrefixCache) → IsIndexed c → IsIndexed (insert_one h b c)
unfolding insert_one
insert_one-IsIndexed h b c v = elim (Option-cases (lookup h c.by_hash)) [
  | inl fresh ↦ record {
    found = λ j k e.
        ground (arith, v.found j k, lookup-insert b j h c.by_block, lookup-insert h k b c.by_hash);
  }
  | inr (prev, e₀) ↦ record {
    found = λ j k e. ground (
      arith,
      v.found j k,
      lookup-insert b j h c.by_block,
      lookup-insert b j h (remove prev c.by_block),
      lookup-remove prev j c.by_block,
      lookup-insert h k b c.by_hash,
    );
  }
]

forget_one-IsIndexed : (b : ℕ) (c : PrefixCache) → IsIndexed c → IsIndexed (forget_one b c)
unfolding forget_one
forget_one-IsIndexed b c v = elim (Option-cases (lookup b c.by_block)) [
  | inl missing ↦ record { found = λ j k e. ground (arith, v.found j k) }
  | inr (h, e₀) ↦ record {
    found = λ j k e. ground (
      arith,
      v.found j k,
      v.found b h e₀,
      lookup-remove b j c.by_block,
      lookup-remove h k c.by_hash,
    );
  }
]

pub drop_stale-IsIndexed :
    (h b : ℕ) (c : PrefixCache)
    → lookup h c.by_hash ≡ some b
    → IsIndexed c
    → IsIndexed (drop_stale h b c)
drop_stale-IsIndexed h b c at v = record {
  found = λ j k e.
      ground (arith, v.found j k, lookup-remove b j c.by_block, lookup-remove h k c.by_hash);
}

forget_one-lookup :
    (b j : ℕ) (c : PrefixCache)
    → lookup j (forget_one b c).by_block ≡ (if b == j then none else lookup j c.by_block)
unfolding forget_one
forget_one-lookup b j c = ground (arith, lookup-remove b j c.by_block)

insert_loop-IsIndexed :
    (entries : List (ℕ × ℕ)) (c : PrefixCache) → IsIndexed c → IsIndexed (insert_loop entries c)
unfolding insert_loop
insert_loop-IsIndexed [] c v = v
insert_loop-IsIndexed ((h, b) ∷ entries) c v =
    insert_loop-IsIndexed entries (insert_one h b c) (insert_one-IsIndexed h b c v)

-- `insert` keeps the two maps consistent: the hash recorded for a block still finds that block.
pub insert-IsIndexed :
    (tokens blocks : List ℕ) (c : PrefixCache) → IsIndexed c → IsIndexed (insert tokens blocks c)
unfolding insert
insert-IsIndexed tokens blocks c v =
    if_elim IsIndexed (not c.enabled) (λ _. v)
      (λ _. insert_loop-IsIndexed (zip (block_hashes tokens c.block_size) blocks) c v)

-- `forget` keeps the two maps consistent, and leaves none of its blocks indexed.
pub forget-IsIndexed :
    (blocks : List ℕ) (c : PrefixCache)
    → IsIndexed c
    → IsIndexed (forget blocks c)
      × ((b : ℕ)
          → lookup b (forget blocks c).by_block
            ≡ (if ltb 0 (count b blocks) then none else lookup b c.by_block))
unfolding forget
forget-IsIndexed [] c v = (v, λ b. refl)
forget-IsIndexed (x ∷ xs) c v =
    let (w, gone) = forget-IsIndexed xs (forget_one x c) (forget_one-IsIndexed x c v) in
    (w, λ b. ground (arith, gone b, forget_one-lookup x b c))
