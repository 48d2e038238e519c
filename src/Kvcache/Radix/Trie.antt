-- ===== src/Kvcache/Radix/Trie.antt =====
-- kvcache/src/radix.rs: the nodes of the index as a trie. Each node spells a path of tokens, and
-- what a worker is listed for is known of that worker, in a relation that is closed under prefixes.
use trt_llm_rs.Prelude.{
  ℕ, ◌<◌, ◌≡◌, refl, sym, ap, subst, ◌∙◌, some, List, [], ◌∷◌, ◌++◌, arith, ◌==◌, if◌then◌else◌,
  if_elim, length, get_elem?, set, All, All-append, Bool-cases, inl, inr, get_elem?_total,
  get_elem?-set, get_elem?-set_self, get_elem?-set_ne, get_elem?-lt, get_elem?-snoc_old, length-set,
}
use mathlib.Core.Option.{some-injective}
use trt_llm_rs.Prelude.Assoc.{lookup, Distinct}
use trt_llm_rs.Prelude.Counts.{contains}
use trt_llm_rs.Kvcache.Radix.{Node, touch, touch_at}

abbrev pub IsPrefixClosed : (ℕ → List ℕ → Type 0) → Type 0
IsPrefixClosed R = (w : ℕ) (s t : List ℕ) → R w (s ++ t) → R w s

abbrev pub relabel : (ℕ → List ℕ) → ℕ → List ℕ → ℕ → List ℕ
relabel path at s i = if i == at then s else path i

module _ {F : Type 0} where
  -- The child that node `i` names under a token: its edge starts with the token and extends the path.
  pub record Linked (path : ℕ → List ℕ) (nodes : List (Node F)) (i key child : ℕ) : Type 0 where
    pub node : Node F
    pub tail : List ℕ
    pub stands : get_elem? nodes child ≡ some node
    pub starts : node.edge ≡ key ∷ tail
    pub spells : path child ≡ path i ++ node.edge

  pub record IsTrie (R : ℕ → List ℕ → Type 0) (path : ℕ → List ℕ) (nodes : List (Node F))
      : Type 0 where
    pub rooted : path 0 ≡ []
    pub inhabited : 0 < length nodes
    pub linked :
        (i : ℕ) (n : Node F) (key child : ℕ)
        → get_elem? nodes i ≡ some n
        → lookup key n.children ≡ some child
        → Linked path nodes i key child
    pub held : (i : ℕ) (n : Node F) → get_elem? nodes i ≡ some n → All (λ w. R w (path i)) n.workers
    -- The only node that names a child.
    pub owner : ℕ → ℕ
    pub owned :
        (i : ℕ) (n : Node F) (key child : ℕ)
        → get_elem? nodes i ≡ some n
        → lookup key n.children ≡ some child
        → owner child ≡ i
    pub keyed_once : (i : ℕ) (n : Node F) → get_elem? nodes i ≡ some n → Distinct n.children

  pub Linked-set :
      (path : ℕ → List ℕ) (nodes : List (Node F)) (i key child at : ℕ) (n v : Node F)
      → get_elem? nodes at ≡ some n
      → v.edge ≡ n.edge
      → Linked path nodes i key child
      → Linked path (set nodes at v) i key child
  Linked-set path nodes i key child at n v e same l = elim (Bool-cases (at == child)) [
    | inl here ↦
        let at_child : at ≡ child = ground arith in
        let is : n ≡ l.node =
          some-injective _ _ (sym e ∙ ap (get_elem? nodes) at_child ∙ l.stands) in
        let edges : v.edge ≡ l.node.edge = same ∙ ap (λ (k : Node F). k.edge) is in
        record {
          node = v;
          tail = l.tail;
          stands =
              subst (λ j. get_elem? (set nodes at v) j ≡ some v) at_child
                (get_elem?-set_self nodes at v (get_elem?-lt nodes at n e));
          starts = edges ∙ l.starts;
          spells = l.spells ∙ ap (λ s. path i ++ s) (sym edges);
        }
    | inr other ↦ record {
      node = l.node;
      tail = l.tail;
      stands = get_elem?-set_ne nodes at v child (ground arith) ∙ l.stands;
      starts = l.starts;
      spells = l.spells;
    }
  ]

  pub Linked-snoc :
      (path : ℕ → List ℕ) (nodes : List (Node F)) (i key child : ℕ) (v : Node F)
      → Linked path nodes i key child
      → Linked path (nodes ++ v ∷ []) i key child
  Linked-snoc path nodes i key child v l = record {
    node = l.node;
    tail = l.tail;
    stands = get_elem?-snoc_old nodes v child l.node l.stands;
    starts = l.starts;
    spells = l.spells;
  }

  pub Linked-relabel :
      (path path' : ℕ → List ℕ) (nodes : List (Node F)) (i j key child : ℕ)
      → path' j ≡ path i
      → path' child ≡ path child
      → Linked path nodes i key child
      → Linked path' nodes j key child
  Linked-relabel path path' nodes i j key child at_i at_child l = record {
    node = l.node;
    tail = l.tail;
    stands = l.stands;
    starts = l.starts;
    spells = at_child ∙ l.spells ∙ ap (λ s. s ++ l.node.edge) (sym at_i);
  }

  module _ (R : ℕ → List ℕ → Type 0) (worker : ℕ) (now : F) where
    pub touch_held :
        (s : List ℕ) (n : Node F)
        → R worker s
        → All (λ w. R w s) n.workers
        → All (λ w. R w s) (touch worker now n).workers
    unfolding touch
    touch_held s n r held =
        if_elim (All (λ w. R w s)) (contains n.workers worker) (λ _. held)
          (λ _. All-append (λ w. R w s) n.workers (worker ∷ []) held (r, tt))

    pub touch_at-IsTrie :
        (path : ℕ → List ℕ) (at : ℕ) (nodes : List (Node F))
        → IsTrie R path nodes
        → at < length nodes
        → R worker (path at)
        → (nodes' : List (Node F)) × (touch_at worker now at nodes ≡ some nodes')
          × IsTrie R path nodes'
          × (length nodes' ≡ length nodes)
    unfolding touch_at touch
    touch_at-IsTrie path at nodes t h r =
        let (n, e) = get_elem?_total nodes at h in
        let v : Node F = touch worker now n in
        (
          set nodes at v,
          rw e,
          record {
            rooted = t.rooted;
            inhabited = omega (arith, length-set nodes at v, t.inhabited);
            linked = λ i m key child e' l. elim (get_elem?-set nodes at v i m e') [
              | inl (is, eq) ↦ Linked-set path nodes i key child at n v e refl (
                  t.linked i n key child (subst (λ j. get_elem? nodes j ≡ some n) is e)
                    (subst (λ (k : Node F). lookup key k.children ≡ some child) (sym eq) l))
              | inr (ne, old) ↦
                  Linked-set path nodes i key child at n v e refl (t.linked i m key child old l)
            ];
            held = λ i m e'. elim (get_elem?-set nodes at v i m e') [
              | inl (is, eq) ↦
                  subst (λ j. All (λ w. R w (path j)) m.workers) is
                    (subst (λ (k : Node F). All (λ w. R w (path at)) k.workers) eq
                      (touch_held (path at) n r (t.held at n e)))
              | inr (ne, old) ↦ t.held i m old
            ];
            owner = t.owner;
            owned = λ i m key child e' l. elim (get_elem?-set nodes at v i m e') [
              | inl (is, eq) ↦
                  t.owned i n key child (subst (λ j. get_elem? nodes j ≡ some n) is e)
                    (subst (λ (k : Node F). lookup key k.children ≡ some child) (sym eq) l)
              | inr (ne, old) ↦ t.owned i m key child old l
            ];
            keyed_once = λ i m e'. elim (get_elem?-set nodes at v i m e') [
              | inl (is, eq) ↦ subst (λ (k : Node F). Distinct k.children) eq (t.keyed_once at n e)
              | inr (ne, old) ↦ t.keyed_once i m old
            ];
          },
          length-set nodes at v,
        )
