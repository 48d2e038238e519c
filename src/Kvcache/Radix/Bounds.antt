-- ===== src/Kvcache/Radix/Bounds.antt =====
-- kvcache/src/radix.rs, `insert`: how many nodes one call adds.
use trt_llm_rs.Prelude.{
  ℕ, zero, suc, ◌+◌, ◌≤◌, ◌<◌, ◌≡◌, refl, sym, ap, subst, ◌∙◌, ◌≢◌, ◌⊎◌, inl, inr, none, some, List,
  [], ◌∷◌, arith, length, get_elem?, set, ◌||◌, leb, ltb, max, Bool-cases, Option-cases, length-map,
  length-append, length-set,
}
use mathlib.Core.Option.{some-injective}
use trt_llm_rs.Prelude.Assoc.{lookup}
use trt_llm_rs.Prelude.Assoc
use trt_llm_rs.Kvcache.Radix.{
  Node, RadixIndex, Round, done, next, root, touch, touch_at, add_leaf, new_node, descend,
  insert_round, insert_loop, insert, node_count, new, clear, forget_worker, forget_at, prune,
}
use trt_llm_rs.Kvcache.Radix.History.{Call, recorded, forgot, cleared, pruned, call, run}
use trt_llm_rs.Prelude.Float.{Floats}
use trt_llm_rs.Kvcache.Radix.Prune.{prune_shrinks}
use trt_llm_rs.Kvcache.Radix.Descend.{IsBlocked, length-touch_at, descend_cost}

module _ {F : Type 0} (worker : ℕ) (now : F) where
  abbrev leaf_parent : ℕ → Node F → List (Node F) → Node F
  leaf_parent first n nodes = record n { children = Assoc.insert first (length nodes) n.children }

  length-add_leaf :
      (first : ℕ) (rest : List ℕ) (cur : ℕ) (n : Node F) (nodes : List (Node F))
      → length (add_leaf worker now first rest cur n nodes) ≡ suc (length nodes)
  unfolding add_leaf
  length-add_leaf first rest cur n nodes = omega (
    arith,
    length-append {0} (set nodes cur (leaf_parent first n nodes))
        (touch worker now (new_node (first ∷ rest) now) ∷ []),
    length-set nodes cur (leaf_parent first n nodes),
  )

  insert_round_result :
      (first : ℕ) (rest : List ℕ) (cur : ℕ) (nodes : List (Node F)) (r : Round F)
      → insert_round worker now first rest cur nodes ≡ some r
      → (n : Node F) × (get_elem? nodes cur ≡ some n)
        × (((lookup first n.children ≡ none)
              × (r ≡ done (add_leaf worker now first rest cur n nodes)))
            ⊎ ((child : ℕ) × (lookup first n.children ≡ some child)
                × (descend worker now (first ∷ rest) child nodes ≡ some r)))
  unfolding insert_round
  insert_round_result first rest cur nodes r e = elim (Option-cases (get_elem? nodes cur)) [
    | inl gone ↦ absurd (ground arith)
    | inr (n, at_n) ↦ (
      n,
      at_n,
      elim (Option-cases (lookup first n.children)) [
        | inl leaf ↦ inl (leaf, ground arith)
        | inr (child, found) ↦ inr (child, found, ground arith)
      ],
    )
  ]

  descend-ne-done :
      (tokens : List ℕ) (child : ℕ) (nodes ended : List (Node F))
      → descend worker now tokens child nodes ≢ some (done ended)
  unfolding descend
  descend-ne-done tokens child nodes ended e = ground arith

  -- A leaf ends the loop, and so does a blocked node; at most one round before it splits.
  insert_loop_cost :
      (fuel : ℕ) (tokens : List ℕ) (cur : ℕ) (nodes ns : List (Node F))
      → insert_loop fuel worker now tokens cur nodes ≡ some ns
      → (length ns ≤ length nodes + 2) × (IsBlocked tokens cur nodes → length ns ≤ length nodes + 1)
  unfolding insert_loop
  insert_loop_cost fuel [] cur nodes ns e =
      let is : nodes ≡ ns = some-injective nodes ns e in
      (omega (arith, ap length is), λ _. omega (arith, ap length is))
  insert_loop_cost zero (first ∷ rest) cur nodes ns e = cc
  insert_loop_cost (suc fuel) (first ∷ rest) cur nodes ns e =
      elim (Option-cases (insert_round worker now first rest cur nodes)) [
        | inl gone ↦ absurd (ground arith)
        | inr (done ended, r) ↦
            let (n, at_n, how) = insert_round_result first rest cur nodes (done ended) r in
            elim how [
              | inr (child, found, d) ↦ absurd (descend-ne-done (first ∷ rest) child nodes ended d)
              | inl (leaf, is) ↦
                  let ns_is : ns ≡ add_leaf worker now first rest cur n nodes = ground arith in
                  let count = ap length ns_is ∙ length-add_leaf first rest cur n nodes in
                  (omega arith, λ _. omega arith)
            ]
        | inr (next later child moved, r) ↦
            let (n, at_n, how) =
              insert_round_result first rest cur nodes (next later child moved) r in
            let e' : insert_loop fuel worker now later child moved ≡ some ns = ground arith in
            let ih = insert_loop_cost fuel later child moved ns e' in
            elim how [
              | inl (leaf, is) ↦ absurd (ground arith)
              | inr (at, found, d) ↦
                  let unblocked : IsBlocked (first ∷ rest) cur nodes → ⊥ =
                    λ (n', at_n', no_child). cc (some-injective n n' (sym at_n ∙ at_n')) in
                  elim (descend_cost worker now (first ∷ rest) at nodes later child moved d) [
                    | inl same ↦ (omega (arith, ih.0), λ b. absurd (unblocked b))
                    | inr (more, b) ↦ (omega (arith, ih.1 b), λ b. absurd (unblocked b))
                  ]
            ]
      ]

module _ {F : Type 0} where
  -- The index stays within one node of its cap, which no call changes.
  record IsBounded (cap : ℕ) (g : RadixIndex F) : Type 0 where
    capped : g.max_nodes ≡ cap
    within : length g.nodes ≤ cap + 1

  insert-IsBounded :
      (cap worker : ℕ) (tokens : List ℕ) (now : F) (g g' : RadixIndex F)
      → insert worker tokens now g ≡ some g'
      → IsBounded cap g
      → IsBounded cap g'
  unfolding insert
  insert-IsBounded cap worker tokens now g g' e b =
      elim (Bool-cases
        (ltb (length tokens) g.min_prefix_tokens || leb g.max_nodes (length g.nodes))) [
          | inl skip ↦ subst (IsBounded cap) (ground arith) b
          | inr go ↦ elim (Option-cases (touch_at worker now root g.nodes)) [
            | inl gone ↦ absurd (ground arith)
            | inr (touched, t) ↦
                elim (Option-cases (insert_loop (length tokens) worker now tokens root touched)) [
                  | inl gone ↦ absurd (ground arith)
                  | inr (ended, l) ↦
                      let room : length g.nodes < g.max_nodes = ground arith in
                      let cost =
                        insert_loop_cost worker now (length tokens) tokens root touched ended l in
                      let same = length-touch_at worker now root g.nodes touched t in
                      let is : record g { nodes = ended } ≡ g' = ground arith in
                      subst (IsBounded cap) is
                        (record { capped = b.capped; within = omega (arith, b.capped, cost.0) })
                ]
          ]
        ]

module _ {F : Type 0} (fl : Floats F) where
  run-IsBounded :
      (cap : ℕ) (calls : List (Call F)) (g g' : RadixIndex F)
      → run fl calls g ≡ some g'
      → 1 ≤ cap
      → IsBounded cap g
      → IsBounded cap g'
  unfolding run call forget_worker clear
  run-IsBounded cap [] g g' e pos b = subst (IsBounded cap) (some-injective g g' e) b
  run-IsBounded cap (recorded worker tokens now ∷ calls) g g' e pos b =
      elim (Option-cases (insert worker tokens now g)) [
        | inl gone ↦ absurd (ground arith)
        | inr (after, i) ↦
            run-IsBounded cap calls after g' (ground arith) pos
              (insert-IsBounded cap worker tokens now g after i b)
      ]
  run-IsBounded cap (forgot worker ∷ calls) g g' e pos b =
      run-IsBounded cap calls (forget_worker worker g) g' e pos (record {
        capped = b.capped;
        within = omega (arith, length-map (forget_at worker) g.nodes, b.within);
      })
  run-IsBounded cap (cleared ∷ calls) g g' e pos b =
      run-IsBounded cap calls (clear fl g) g' e pos
        (record { capped = b.capped; within = omega arith })
  run-IsBounded cap (pruned now ttl_ms ∷ calls) g g' e pos b =
      elim (Option-cases (prune fl now ttl_ms g)) [
        | inl stuck ↦ absurd (ground (arith, e))
        | inr ((after, removed), p) ↦
            let (fewer, same) = prune_shrinks fl now ttl_ms g after removed p in
            run-IsBounded cap calls after g' (ground (arith, e)) pos
              (record { capped = same ∙ b.capped; within = omega (arith, fewer, b.within) })
      ]

  -- Whatever calls of `insert`, `forget_worker`, `clear` and `prune` a new index has answered, it holds
  -- at most one node more than its cap, which is `max_nodes`, or 1 for `max_nodes` = 0.
  pub run-node_count :
      (min_prefix_tokens max_nodes : ℕ) (calls : List (Call F)) (g : RadixIndex F)
      → run fl calls (new fl min_prefix_tokens max_nodes) ≡ some g
      → node_count g ≤ max max_nodes 1 + 1
  unfolding node_count new
  run-node_count min_prefix_tokens max_nodes calls g e =
      (run-IsBounded (max max_nodes 1) calls (new fl min_prefix_tokens max_nodes) g e (omega arith)
        (record { capped = refl; within = omega arith })).within
