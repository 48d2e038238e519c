-- ===== src/Kvcache/Radix/Prune.antt =====
-- kvcache/src/radix.rs, `prune`: the sweep ends, and leaves no stale leaf.
use trt_llm_rs.Prelude.{
  ℕ, zero, suc, ◌+◌, ◌-◌, ◌≤◌, ◌<◌, ◌≡◌, sym, ap, ◌∙◌, ◌++◌, true, map, All, inl, inr, Option, some,
  List, [], ◌∷◌, arith, length, get_elem?, false, Bool-cases, Option-cases,
}
use mathlib.Core.Option.{some-injective}
use mathlib.Core.List.{Perm}
use mathlib.Core.List.Perm
use trt_llm_rs.Prelude.Float.{Floats}
use trt_llm_rs.Kvcache.Radix.{Node, RadixIndex, detach, is_stale, victim_from, prune_loop, prune}
use trt_llm_rs.Kvcache.Radix.Detach.{bare, detach-Detached}

module _ {F : Type 0} (fl : Floats F) (now ttl_ms : F) where
  pub victim_from_found :
      (i : ℕ) (nodes : List (Node F)) (victim : ℕ)
      → victim_from fl now ttl_ms i nodes ≡ some victim
      → (i ≤ victim) × (victim < i + length nodes) × (0 < victim)
  unfolding victim_from is_stale
  victim_from_found i [] victim e = cc
  victim_from_found i (n ∷ ns) victim e = ground (arith, victim_from_found (suc i) ns victim)

  abbrev IsStale : Node F → Type 0
  IsStale n = fl.lt ttl_ms (fl.sub now n.last_access_ms) ≡ true

  pub victim_from_stale :
      (i : ℕ) (nodes : List (Node F)) (victim : ℕ)
      → victim_from fl now ttl_ms i nodes ≡ some (i + victim)
      → (n : Node F) × (get_elem? nodes victim ≡ some n)
        × (is_stale fl now ttl_ms (i + victim) n ≡ true)
  unfolding victim_from
  victim_from_stale i [] victim e = cc
  victim_from_stale i (n ∷ ns) victim e = elim (Bool-cases (is_stale fl now ttl_ms i n)) [
    | inl stale ↦
        let first : victim ≡ 0 = omega (arith, some-injective i (i + victim) (ground arith)) in
        (
          n,
          ap (get_elem? (n ∷ ns)) first,
          ap (λ k. is_stale fl now ttl_ms k n) (omega (arith, first)) ∙ stale,
        )
    | inr fresh ↦
        let h : victim_from fl now ttl_ms (suc i) ns ≡ some (i + victim) = ground arith in
        let below = victim_from_found (suc i) ns (i + victim) h in
        let is : victim ≡ suc (victim - 1) = omega (arith, below) in
        let (m, at, stale) =
          victim_from_stale (suc i) ns (victim - 1) (h ∙ ap some (omega (arith, below))) in
        (
          m,
          ap (get_elem? (n ∷ ns)) is ∙ at,
          ap (λ k. is_stale fl now ttl_ms k m) (omega (arith, below)) ∙ stale,
        )
  ]

  -- What the sweep leaves of the nodes, and those that went.
  record Swept (nodes : List (Node F)) (removed : ℕ) (tried : Option (List (Node F) × ℕ))
      : Type 0 where
    left : List (Node F)
    gone : List (Node F)
    ends : tried ≡ some (left, removed + length gone)
    rest : Perm (map bare nodes) (map bare (gone ++ left))
    stale : All IsStale gone
    root_stays :
        (n : Node F)
        → get_elem? nodes 0 ≡ some n
        → (m : Node F) × (get_elem? left 0 ≡ some m) × (bare m ≡ bare n)
    none_stale :
        (j : ℕ) (n : Node F) → get_elem? left j ≡ some n → is_stale fl now ttl_ms j n ≡ false

  prune_loop_shrinks :
      (fuel : ℕ) (nodes : List (Node F)) (removed : ℕ) (left : List (Node F)) (total : ℕ)
      → prune_loop fl fuel now ttl_ms nodes removed ≡ some (left, total)
      → length left ≤ length nodes
  unfolding prune_loop
  prune_loop_shrinks zero nodes removed left total e = cc
  prune_loop_shrinks (suc fuel) nodes removed left total e =
      elim (Option-cases (victim_from fl now ttl_ms 0 nodes)) [
        | inl clean ↦
            let is : ◌≡◌ {A = List (Node F) × ℕ} (nodes, removed) (left, total) =
              some-injective (nodes, removed) (left, total) (ground (arith, e)) in
            omega (arith, ap (λ (q : List (Node F) × ℕ). length q.0) is)
        | inr (victim, found) ↦
            let (_, below, pos) = victim_from_found 0 nodes victim found in
            let d = detach-Detached victim nodes pos (omega (arith, below)) in
            omega (
              arith,
              d.one_less,
              prune_loop_shrinks fuel (detach victim nodes) (removed + 1) left total
                  (ground (arith, e)),
            )
      ]

  -- The sweep only removes nodes.
  pub prune_shrinks :
      (g g' : RadixIndex F) (removed : ℕ)
      → prune fl now ttl_ms g ≡ some (g', removed)
      → (length g'.nodes ≤ length g.nodes) × (g'.max_nodes ≡ g.max_nodes)
  unfolding prune
  prune_shrinks g g' removed e =
      elim (Option-cases (prune_loop fl (length g.nodes) now ttl_ms g.nodes 0)) [
        | inl stuck ↦ absurd (ground (arith, e))
        | inr ((left, total), ends) ↦
            let is : ◌≡◌ {A = RadixIndex F × ℕ} (record g { nodes = left }, total) (g', removed) =
              some-injective (record g { nodes = left }, total) (g', removed) (ground (arith, e)) in
            let index = ap (λ (q : RadixIndex F × ℕ). q.0) is in
            (
              omega (
                arith,
                ap (λ (g : RadixIndex F). length g.nodes) index,
                prune_loop_shrinks (length g.nodes) g.nodes 0 left total ends,
              ),
              ap (λ (g : RadixIndex F). g.max_nodes) (sym index),
            )
      ]
