-- ===== src/Kvcache/Radix/Insert.antt =====
-- kvcache/src/radix.rs, `insert`: the loop ends, reads no node out of bounds, and leaves a trie.
use trt_llm_rs.Prelude.{
  ℕ, zero, suc, ◌≤◌, ◌<◌, ◌≡◌, refl, sym, ap, subst, ◌∙◌, Option, none, some, List, [], ◌∷◌, ◌++◌,
  arith, length, take, drop, get_elem?, ltb, Bool-cases, Option-cases, inl, inr, length-drop,
  take-append-drop, get_elem?_total, get_elem?-lt, ◌==◌, take_all,
}
use mathlib.Core.List.{append_assoc}
use trt_llm_rs.Prelude.Assoc.{lookup}
use trt_llm_rs.Kvcache.Radix.{
  Node, Round, done, next, ◌>>=◌, common_prefix_len, touch_at, add_leaf, descend, insert_round,
  insert_loop,
}
use trt_llm_rs.Kvcache.Radix.Trie.{IsPrefixClosed, relabel, Linked, IsTrie, touch_at-IsTrie}
use trt_llm_rs.Kvcache.Radix.Grow.{add_leaf-IsTrie}
use trt_llm_rs.Kvcache.Radix.Split.{split_path, at_child, split-IsTrie}

pub common_prefix_len-le :
    (xs ys : List ℕ) → (common_prefix_len xs ys ≤ length xs) × (common_prefix_len xs ys ≤ length ys)
unfolding common_prefix_len
common_prefix_len-le [] ys = omega arith
common_prefix_len-le (x ∷ xs) [] = omega arith
common_prefix_len-le (x ∷ xs) (y ∷ ys) = ground (arith, common_prefix_len-le xs ys)

pub take-common_prefix_len :
    (xs ys : List ℕ) → take (common_prefix_len xs ys) xs ≡ take (common_prefix_len xs ys) ys
unfolding common_prefix_len
take-common_prefix_len [] ys = refl
take-common_prefix_len (x ∷ xs) [] = refl
take-common_prefix_len (x ∷ xs) (y ∷ ys) = elim (Bool-cases (x == y)) [
  | inl same ↦
      let x_is : x ≡ y = ground arith in rw same (λ i. x_is i ∷ take-common_prefix_len xs ys i)
  | inr other ↦ rw other
]

pub common_prefix_len_pos :
    (xs ys : List ℕ) (k : ℕ) (r u : List ℕ) → xs ≡ k ∷ r → ys ≡ k ∷ u → 0 < common_prefix_len xs ys
unfolding common_prefix_len
common_prefix_len_pos xs ys k r u e e' = rw (e, e') (ground arith)

-- A round that goes down: what is left of the tokens completes the path of the child.
pub record Descended {F : Type 0} (R : ℕ → List ℕ → Type 0) (worker child len : ℕ)
    (tried : Option (Round F)) : Type 0 where
  pub path : ℕ → List ℕ
  pub later : List ℕ
  pub nodes : List (Node F)
  pub goes : tried ≡ some (next later child nodes)
  pub trie : IsTrie R path nodes
  pub within : child < length nodes
  pub known : R worker (path child ++ later)
  pub shorter : length later < len

-- What the loop leaves.
pub record Inserted {F : Type 0} (R : ℕ → List ℕ → Type 0) (tried : Option (List (Node F)))
    : Type 0 where
  pub path : ℕ → List ℕ
  pub nodes : List (Node F)
  pub ended : tried ≡ some nodes
  pub trie : IsTrie R path nodes

module _ {F : Type 0} (R : ℕ → List ℕ → Type 0) (closed : IsPrefixClosed R) (worker : ℕ)
    (now : F) where
  descend_tail :
      (path : ℕ → List ℕ) (tokens : List ℕ) (child : ℕ) (common len : ℕ) (moved : List (Node F))
      → IsTrie R path moved
      → child < length moved
      → R worker (path child ++ drop common tokens)
      → length (drop common tokens) < len
      → Descended R worker child len (do
        nodes'' ← touch_at worker now child moved
        some (next (drop common tokens) child nodes''))
  descend_tail path tokens child common len moved t lt known shorter =
      let (nodes, e, t', same) =
        touch_at-IsTrie R worker now path child moved t lt
          (closed worker (path child) (drop common tokens) known) in
      record {
        path = path;
        later = drop common tokens;
        nodes = nodes;
        goes = rw e;
        trie = t';
        within = omega arith;
        known = known;
        shorter = shorter;
      }

  pub descend-Descended :
      (path : ℕ → List ℕ) (first : ℕ) (rest : List ℕ) (cur child : ℕ) (nodes : List (Node F))
      → IsTrie R path nodes
      → Linked path nodes cur first child
      → R worker (path cur ++ first ∷ rest)
      → Descended R worker child
          (length (first ∷ rest))
          (descend worker now (first ∷ rest) child nodes)
  unfolding descend
  descend-Descended path first rest cur child nodes t l r =
      let tokens = first ∷ rest in
      let e = l.node.edge in
      let common = common_prefix_len e tokens in
      let agree : take common e ≡ take common tokens = take-common_prefix_len e tokens in
      let pos = common_prefix_len_pos e tokens first l.tail rest l.starts refl in
      let less : length (drop common tokens) < length tokens =
        omega (arith, length-drop {0} common tokens) in
      let whole : path cur ++ tokens ≡ (path cur ++ take common e) ++ drop common tokens =
        ap (λ u. path cur ++ u) (sym (take-append-drop common tokens))
        ∙ ap (λ u. path cur ++ (u ++ drop common tokens)) (sym agree)
        ∙ sym (append_assoc (path cur) (take common e) (drop common tokens)) in
      rw (l.stands) (elim (Bool-cases (ltb common (length e))) [
        | inl partial ↦
            let (nodes', made, t', count) =
              split-IsTrie R closed path nodes t child common l.node (path cur) first l.tail
                l.stands l.spells l.starts pos now (ground arith) in
            let path' =
              split_path R closed path nodes t child common l.node (path cur) first l.tail l.stands
                l.spells l.starts pos in
            let spelled : path' child ≡ path cur ++ take common e =
              at_child R closed path nodes t child common l.node (path cur) first l.tail l.stands
                l.spells l.starts pos in
            rw partial (
              rw made (
                descend_tail path' tokens child common (length tokens) nodes' t'
                  (omega (arith, get_elem?-lt nodes child l.node l.stands))
                  (subst (R worker) (whole ∙ ap (λ u. u ++ drop common tokens) (sym spelled)) r)
                  less))
        | inr full ↦
            let covers : length e ≤ common = ground arith in
            let spelled : path child ≡ path cur ++ take common e =
              l.spells ∙ ap (λ u. path cur ++ u) (sym (take_all common e covers)) in
            rw full (
              descend_tail path tokens child common (length tokens) nodes t
                (get_elem?-lt nodes child l.node l.stands)
                (subst (R worker) (whole ∙ ap (λ u. u ++ drop common tokens) (sym spelled)) r) less)
      ])

  pub insert_round_leaf :
      (first : ℕ) (rest : List ℕ) (cur : ℕ) (nodes : List (Node F)) (n : Node F)
      → get_elem? nodes cur ≡ some n
      → lookup first n.children ≡ none
      → insert_round worker now first rest cur nodes
        ≡ some (done (add_leaf worker now first rest cur n nodes))
  unfolding insert_round
  insert_round_leaf first rest cur nodes n e leaf = ground arith

  pub insert_round_child :
      (first : ℕ) (rest : List ℕ) (cur : ℕ) (nodes : List (Node F)) (n : Node F) (child : ℕ)
      → get_elem? nodes cur ≡ some n
      → lookup first n.children ≡ some child
      → insert_round worker now first rest cur nodes ≡ descend worker now (first ∷ rest) child nodes
  unfolding insert_round
  insert_round_child first rest cur nodes n child e found = ground arith

  pub insert_loop-Inserted :
      (fuel : ℕ) (path : ℕ → List ℕ) (tokens : List ℕ) (cur : ℕ) (nodes : List (Node F))
      → length tokens ≤ fuel
      → IsTrie R path nodes
      → cur < length nodes
      → R worker (path cur ++ tokens)
      → Inserted R (insert_loop fuel worker now tokens cur nodes)
  unfolding insert_loop
  insert_loop-Inserted fuel path [] cur nodes h t lt r = record {
    path = path;
    nodes = nodes;
    ended = refl;
    trie = t;
  }
  insert_loop-Inserted zero path (first ∷ rest) cur nodes h t lt r = absurd (omega arith)
  insert_loop-Inserted (suc fuel) path (first ∷ rest) cur nodes h t lt r =
      let (n, e) = get_elem?_total nodes cur lt in
      elim (Option-cases (lookup first n.children)) [
        | inl leaf ↦
            rw (insert_round_leaf first rest cur nodes n e leaf, insert_loop)
              (record {
                path = relabel path (length nodes) (path cur ++ first ∷ rest);
                nodes = add_leaf worker now first rest cur n nodes;
                ended = refl;
                trie = add_leaf-IsTrie R path nodes t worker now cur n first rest e r;
              })
        | inr (child, found) ↦
            let d =
              descend-Descended path first rest cur child nodes t
                (t.linked cur n first child e found) r in
            let later =
              insert_loop-Inserted fuel d.path d.later child d.nodes (omega (arith, d.shorter))
                d.trie d.within d.known in
            rw (insert_round_child first rest cur nodes n child e found ∙ d.goes, insert_loop) later
      ]
