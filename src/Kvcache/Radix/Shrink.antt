-- ===== src/Kvcache/Radix/Shrink.antt =====
-- kvcache/src/radix.rs, `detach`: the trie without the victim is a trie.
use trt_llm_rs.Prelude.{
  ℕ, ◌-◌, ◌<◌, ◌≡◌, sym, ap, subst, ◌∙◌, ◌≢◌, some, List, ◌++◌, arith, length, get_elem?, ◌==◌,
  if◌then◌else◌, All, get_elem?_total, get_elem?-lt, map-get_elem?,
}
use mathlib.Core.Option.{some-injective}
use trt_llm_rs.Prelude.SwapRemove.{swap_remove, get_elem?-swap_remove, length-swap_remove}
use trt_llm_rs.Kvcache.Radix.{Node, detach}
use trt_llm_rs.Kvcache.Radix.Trie.{IsTrie}
use trt_llm_rs.Kvcache.Radix.Detach.{
  bare, relinked, length-relinked, map-relinked, detach-swap_remove,
}
use trt_llm_rs.Kvcache.Radix.Relink.{Moved, relinked-Moved}

module _ {F : Type 0} where
  module _ (R : ℕ → List ℕ → Type 0) (path : ℕ → List ℕ) (nodes : List (Node F))
      (t : IsTrie R path nodes) where
    module _ (victim : ℕ) (pos : 0 < victim) (within : victim < length nodes) where
      abbrev last : ℕ
      last = length nodes - 1

      -- Where the node at a position stood before.
      abbrev origin : ℕ → ℕ
      origin j = if j == victim then last else j

      detach_at :
          (j : ℕ) (m : Node F)
          → get_elem? (detach victim nodes) j ≡ some m
          → (j < last) × (get_elem? (relinked victim nodes) (origin j) ≡ some m)
      detach_at j m e =
          let len = length-relinked victim nodes in
          let is = detach-swap_remove victim nodes in
          let e' = ap (λ l. get_elem? l j) (sym is) ∙ e in
          let below = get_elem?-lt (swap_remove victim (relinked victim nodes)) j m e' in
          let fewer = length-swap_remove victim (relinked victim nodes) (omega (arith, len)) in
          let lt : j < last = omega (arith, below, fewer, len) in
          (
            lt,
            ap (λ k. get_elem? (relinked victim nodes) (if j == victim then k - 1 else j)) (sym len)
                ∙ sym (
                    get_elem?-swap_remove victim (relinked victim nodes) j (omega (arith, len))
                      (omega (arith, len, lt)))
                ∙ e',
          )

      -- A child that stood at `old`, other than the victim.
      detach_child :
          (old : ℕ) (n : Node F)
          → get_elem? nodes old ≡ some n
          → old ≢ victim
          → (m : Node F) × (get_elem? (detach victim nodes) (if old == last then victim else old)
              ≡ some m)
            × (bare m ≡ bare n)
      detach_child old n e ne =
          let r = relinked victim nodes in
          let len = length-relinked victim nodes in
          let lt = get_elem?-lt nodes old n e in
          let to : ℕ = if old == last then victim else old in
          let (m, f) = get_elem?_total r old (omega (arith, len, lt)) in
          let back : (if to == victim then length r - 1 else to) ≡ old = ground (arith, ne, len) in
          let to_lt : to < length r - 1 = ground (arith, ne, len, lt) in
          (
            m,
            ap (λ l. get_elem? l to) (detach-swap_remove victim nodes)
                ∙ get_elem?-swap_remove victim r to (omega (arith, len)) to_lt
                ∙ ap (get_elem? r) back
                ∙ f,
            some-injective (bare m) (bare n) (
                sym (map-get_elem? bare r old m f)
                ∙ ap (λ l. get_elem? l old) (map-relinked victim nodes)
                ∙ map-get_elem? bare nodes old n e),
          )

      origin_back : (old : ℕ) → old ≢ victim → origin (if old == last then victim else old) ≡ old
      origin_back old ne = ground (arith, ne)

      abbrev pub moved_path : ℕ → List ℕ
      moved_path j = path (origin j)

      abbrev moved_owner : ℕ → ℕ
      moved_owner g = let o = t.owner (origin g) in if o == last then victim else o

      -- The node before, with the same edge and workers.
      detach_from :
          (j : ℕ) (m : Node F)
          → get_elem? (detach victim nodes) j ≡ some m
          → (j < last) × ((d : Moved victim last nodes (origin j) m) × (bare m ≡ bare d.node))
      detach_from j m e =
          let (lt, f) = detach_at j m e in
          let d = relinked-Moved R path nodes t victim (origin j) m f in
          (
            lt,
            (
              d,
              some-injective (bare m) (bare d.node) (
                  sym (map-get_elem? bare (relinked victim nodes) (origin j) m f)
                  ∙ ap (λ l. get_elem? l (origin j)) (map-relinked victim nodes)
                  ∙ map-get_elem? bare nodes (origin j) d.node d.stood),
            ),
          )

      pub detach-IsTrie : IsTrie R moved_path (detach victim nodes)
      detach-IsTrie = record {
        rooted = ap path (let away : origin 0 ≡ 0 = ground arith in away) ∙ t.rooted;
        inhabited = omega (
          arith,
          ap length (detach-swap_remove victim nodes),
          length-swap_remove victim (relinked victim nodes)
              (omega (arith, length-relinked victim nodes)),
          length-relinked victim nodes,
        );
        linked = λ j m key child e l.
            let (lt, (d, same)) = detach_from j m e in
            let (old, named, ne, is) = d.names key child l in
            let link = t.linked (origin j) d.node key old d.stood named in
            let (c, at, same_c) = detach_child old link.node link.stands ne in
            let edges : c.edge ≡ link.node.edge = ap (λ (v : Node F). v.edge) same_c in
            record {
              node = c;
              tail = link.tail;
              stands = ap (get_elem? (detach victim nodes)) is ∙ at;
              starts = edges ∙ link.starts;
              spells =
                  ap moved_path is
                  ∙ ap path (origin_back old ne)
                  ∙ link.spells
                  ∙ ap (λ u. path (origin j) ++ u) (sym edges);
            };
        held = λ j m e.
            let (lt, (d, same)) = detach_from j m e in
            subst (All (λ w. R w (moved_path j))) (ap (λ (v : Node F). v.workers) (sym same))
              (t.held (origin j) d.node d.stood);
        owner = moved_owner;
        owned = λ j m key child e l.
            let (lt, (d, same)) = detach_from j m e in
            let (old, named, ne, is) = d.names key child l in
            let own = t.owned (origin j) d.node key old d.stood named in
            let from : t.owner (origin child) ≡ origin j =
              ap t.owner (ap origin is ∙ origin_back old ne) ∙ own in
            ap (λ o. if o == last then victim else o) from ∙ ground (arith, lt);
        keyed_once = λ j m e. let (lt, (d, same)) = detach_from j m e in d.once;
      }
