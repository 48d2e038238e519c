-- ===== src/Kvcache/Radix/Grow.antt =====
-- kvcache/src/radix.rs: a new leaf, and a split of an edge, keep the trie.
use trt_llm_rs.Prelude.{
  ℕ, ◌<◌, ◌≡◌, refl, sym, ap, subst, ◌∙◌, ◌≢◌, some, List, [], ◌∷◌, ◌++◌, arith, ◌==◌,
  if◌then◌else◌, length, get_elem?, set, All, Bool-cases, inl, inr, get_elem?-set, get_elem?-lt,
  get_elem?-snoc, get_elem?-snoc_self, length-set, length-append,
}
use mathlib.Core.Option.{some-injective}
use trt_llm_rs.Prelude.Assoc.{lookup, lookup-insert, Distinct, insert-Distinct}
use trt_llm_rs.Prelude.Assoc
use trt_llm_rs.Kvcache.Radix.{Node, touch, new_node, add_leaf}
use trt_llm_rs.Kvcache.Radix.Trie.{
  relabel, Linked, IsTrie, Linked-set, Linked-snoc, Linked-relabel, touch_held,
}

relabel_self : (path : ℕ → List ℕ) (at : ℕ) (s : List ℕ) → relabel path at s at ≡ s
relabel_self path at s = ground arith

relabel_ne : (path : ℕ → List ℕ) (at i : ℕ) (s : List ℕ) → i ≢ at → relabel path at s i ≡ path i
relabel_ne path at i s h = ground arith

module _ {F : Type 0} (R : ℕ → List ℕ → Type 0) (path : ℕ → List ℕ) (nodes : List (Node F))
    (t : IsTrie R path nodes) where
  -- A child is never the root, and never stands past the end.
  child_lt :
      (i : ℕ) (n : Node F) (key child : ℕ)
      → get_elem? nodes i ≡ some n
      → lookup key n.children ≡ some child
      → child < length nodes
  child_lt i n key child e l =
      let k = t.linked i n key child e l in get_elem?-lt nodes child k.node k.stands

  pub add_leaf-IsTrie :
      (worker : ℕ) (now : F) (cur : ℕ) (n : Node F) (first : ℕ) (rest : List ℕ)
      → get_elem? nodes cur ≡ some n
      → R worker (path cur ++ first ∷ rest)
      → IsTrie R
          (relabel path (length nodes) (path cur ++ first ∷ rest))
          (add_leaf worker now first rest cur n nodes)
  unfolding add_leaf lookup
  add_leaf-IsTrie worker now cur n first rest e r =
      let id = length nodes in
      let path' = relabel path id (path cur ++ first ∷ rest) in
      let parent : Node F = record n { children = Assoc.insert first id n.children } in
      let leaf : Node F = touch worker now (new_node (first ∷ rest) now) in
      let store : List (Node F) = set nodes cur parent ++ leaf ∷ [] in
      let cur_lt = get_elem?-lt nodes cur n e in
      let same_length = length-set nodes cur parent in
      let at_cur : path' cur ≡ path cur = relabel_ne path id cur _ (omega arith) in
      let keep : (i j key child : ℕ)
          → path' j ≡ path i
          → child < id
          → Linked path nodes i key child
          → Linked path' store j key child =
        λ i j key child pj lt l.
          Linked-relabel path path' store i j key child pj
            (relabel_ne path id child _ (omega arith))
            (Linked-snoc path (set nodes cur parent) i key child leaf
              (Linked-set path nodes i key child cur n parent e refl l)) in
      let leaf_stands : get_elem? store id ≡ some leaf =
        subst (λ j. get_elem? store j ≡ some leaf) same_length
          (get_elem?-snoc_self (set nodes cur parent) leaf) in
      record {
        rooted = relabel_ne path id 0 _ (omega (arith, t.inhabited)) ∙ t.rooted;
        inhabited = omega (arith, length-append {0} (set nodes cur parent) (leaf ∷ []));
        linked = λ i m key child e' l. elim (get_elem?-snoc (set nodes cur parent) leaf i m e') [
          | inl (is, eq) ↦
              cc (subst (λ (k : Node F). lookup key k.children ≡ some child) (sym eq) l)
          | inr old ↦ elim (get_elem?-set nodes cur parent i m old) [
            | inr (ne, older) ↦
                keep i i key child
                  (relabel_ne path id i _ (omega (arith, get_elem?-lt nodes i m older)))
                  (child_lt i m key child older l) (t.linked i m key child older l)
            | inl (is, eq) ↦
                let l' : lookup key parent.children ≡ some child =
                  subst (λ (k : Node F). lookup key k.children ≡ some child) (sym eq) l in
                let found = sym (lookup-insert first key id n.children) ∙ l' in
                subst (λ j. Linked path' store j key child) is
                  (elim (Bool-cases (first == key)) [
                    | inr other ↦
                        let l'' : lookup key n.children ≡ some child = ground arith in
                        keep cur cur key child at_cur (child_lt cur n key child e l'')
                          (t.linked cur n key child e l'')
                    | inl hit ↦
                        let new_id : id ≡ child = some-injective _ _ (ground arith) in
                        let new_key : first ≡ key = ground arith in
                        subst (λ k. Linked path' store cur k child) new_key
                          (subst (λ c. Linked path' store cur first c) new_id
                            (record {
                              node = leaf;
                              tail = rest;
                              stands = leaf_stands;
                              starts = refl;
                              spells =
                                  relabel_self path id _ ∙ ap (λ s. s ++ first ∷ rest) (sym at_cur);
                            }))
                  ])
          ]
        ];
        held = λ i m e'. elim (get_elem?-snoc (set nodes cur parent) leaf i m e') [
          | inl (is, eq) ↦
              subst (λ j. All (λ w. R w (path' j)) m.workers) (sym (is ∙ same_length))
                (subst (λ (k : Node F). All (λ w. R w (path' id)) k.workers) eq
                  (touch_held R worker now (path' id) (new_node (first ∷ rest) now)
                    (subst (R worker) (sym (relabel_self path id _)) r) tt))
          | inr old ↦
              let lt : i < id =
                omega (arith, get_elem?-lt (set nodes cur parent) i m old, same_length) in
              subst (λ s. All (λ w. R w s) m.workers) (sym (relabel_ne path id i _ (omega arith)))
                (elim (get_elem?-set nodes cur parent i m old) [
                  | inr (ne, older) ↦ t.held i m older
                  | inl (is, eq) ↦
                      subst (λ j. All (λ w. R w (path j)) m.workers) is
                        (subst (λ (k : Node F). All (λ w. R w (path cur)) k.workers) eq
                          (t.held cur n e))
                ])
        ];
        owner = λ child. if child == id then cur else t.owner child;
        owned = λ i m key child e' l. elim (get_elem?-snoc (set nodes cur parent) leaf i m e') [
          | inl (is, eq) ↦
              cc (subst (λ (k : Node F). lookup key k.children ≡ some child) (sym eq) l)
          | inr old ↦ elim (get_elem?-set nodes cur parent i m old) [
            | inr (ne, older) ↦
                ground (arith, child_lt i m key child older l, t.owned i m key child older l)
            | inl (is, eq) ↦
                let l' : lookup key parent.children ≡ some child =
                  subst (λ (k : Node F). lookup key k.children ≡ some child) (sym eq) l in
                let found = sym (lookup-insert first key id n.children) ∙ l' in
                elim (Bool-cases (first == key)) [
                  | inr other ↦
                      let l'' : lookup key n.children ≡ some child = ground arith in
                      ground
                        (arith, is, child_lt cur n key child e l'', t.owned cur n key child e l'')
                  | inl hit ↦
                      let new_id : id ≡ child = some-injective _ _ (ground arith) in
                      ground (arith, is)
                ]
          ]
        ];
        keyed_once = λ i m e'. elim (get_elem?-snoc (set nodes cur parent) leaf i m e') [
          | inl (is, eq) ↦ subst (λ (k : Node F). Distinct k.children) eq tt
          | inr old ↦ elim (get_elem?-set nodes cur parent i m old) [
            | inr (ne, older) ↦ t.keyed_once i m older
            | inl (is, eq) ↦
                subst (λ (k : Node F). Distinct k.children) eq
                  (insert-Distinct first id n.children (t.keyed_once cur n e))
          ]
        ];
      }
