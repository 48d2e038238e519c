-- ===== src/Kvcache/Radix/Unlink.antt =====
-- kvcache/src/radix.rs, `find_parent` and the first step of `detach`: no node names the victim.
use trt_llm_rs.Prelude.{
  ℕ, zero, suc, ◌+◌, ◌≡◌, refl, sym, ap, subst, ◌∙◌, ◌≢◌, ◌⊎◌, inl, inr, none, some, List, [], ◌∷◌,
  arith, get_elem?, ◌==◌, if◌then◌else◌, Bool-cases, Option-cases,
}
use mathlib.Core.Option.{some-injective}
use trt_llm_rs.Prelude.Assoc.{
  Map, lookup, lookup-insert, lookup-remove, Distinct, insert-Distinct, remove-Distinct,
}
use trt_llm_rs.Prelude.Assoc
use trt_llm_rs.Kvcache.Radix.{Node, key_of, find_parent_from, find_parent, edit_children, unlink}
use trt_llm_rs.Kvcache.Radix.Trie.{Linked, IsTrie}

pub key_of-some :
    (node key : ℕ) (m : Map ℕ) → Distinct m → key_of node m ≡ some key → lookup key m ≡ some node
unfolding key_of lookup
key_of-some node key [] d e = cc
key_of-some node key ((k, c) ∷ m) (fresh, d) e = elim (Bool-cases (c == node)) [
  | inl hit ↦ let is : k ≡ key = some-injective k key (ground arith) in ground arith
  | inr other ↦
      let l = key_of-some node key m d (ground arith) in
      elim (Bool-cases (k == key)) [
        | inl same ↦
            let is : k ≡ key = ground arith in cc (sym l ∙ ap (λ j. lookup j m) (sym is) ∙ fresh)
        | inr distinct ↦ rw distinct l
      ]
]

pub key_of-none : (node key : ℕ) (m : Map ℕ) → key_of node m ≡ none → lookup key m ≢ some node
unfolding key_of lookup
key_of-none node key [] e l = cc
key_of-none node key ((k, c) ∷ m) e l = ground (arith, key_of-none node key m)

module _ {F : Type 0} where
  find_parent_from-some :
      (i node parent key : ℕ) (nodes : List (Node F))
      → find_parent_from i node nodes ≡ some (parent, key)
      → (j : ℕ) × (n : Node F) × (i + j ≡ parent)
        × (get_elem? nodes j ≡ some n)
        × (key_of node n.children ≡ some key)
  unfolding find_parent_from
  find_parent_from-some i node parent key [] e = cc
  find_parent_from-some i node parent key (n ∷ ns) e =
      elim (Option-cases (key_of node n.children)) [
        | inr (k, here) ↦
            let is : (i, k) ≡ (parent, key) =
              some-injective (i, k) (parent, key) (ground (arith, e)) in
            (
              0,
              n,
              omega (arith, ap (λ (q : ℕ × ℕ). q.0) is),
              refl,
              here ∙ ap (λ (q : ℕ × ℕ). some q.1) is,
            )
        | inl none_here ↦
            let (j, m, at, stands, names) =
              find_parent_from-some (suc i) node parent key ns (ground (arith, e)) in
            (suc j, m, omega (arith, at), stands, names)
      ]

  find_parent_from-none :
      (i node : ℕ) (nodes : List (Node F))
      → find_parent_from i node nodes ≡ none
      → (j : ℕ) (n : Node F) → get_elem? nodes j ≡ some n
      → key_of node n.children ≡ none
  unfolding find_parent_from
  find_parent_from-none i node [] e j n at = cc
  find_parent_from-none i node (v ∷ ns) e zero n at =
      let is : v ≡ n = some-injective v n at in
      subst (λ (k : Node F). key_of node k.children ≡ none) is (ground arith)
  find_parent_from-none i node (v ∷ ns) e (suc j) n at =
      find_parent_from-none (suc i) node ns (ground arith) j n at

  -- What an edit of one node's children leaves at a position.
  pub record Edited (f : Map ℕ → Map ℕ) (at : ℕ) (nodes : List (Node F)) (i : ℕ) (m : Node F)
      : Type 0 where
    pub node : Node F
    pub stood : get_elem? nodes i ≡ some node
    pub is : ((i ≡ at) × (m.children ≡ f node.children)) ⊎ ((i ≢ at) × (m.children ≡ node.children))

  pub edit_children-Edited :
      (f : Map ℕ → Map ℕ) (at : ℕ) (nodes : List (Node F)) (i : ℕ) (m : Node F)
      → get_elem? (edit_children f at nodes) i ≡ some m
      → Edited f at nodes i m
  unfolding edit_children
  edit_children-Edited f at [] i m e = cc
  edit_children-Edited f zero (n ∷ ns) zero m e = record {
    node = n;
    stood = refl;
    is = inl (refl, ap (λ (v : Node F). v.children) (sym (some-injective _ _ e)));
  }
  edit_children-Edited f zero (n ∷ ns) (suc i) m e = record {
    node = m;
    stood = e;
    is = inr (omega arith, refl);
  }
  edit_children-Edited f (suc at) (n ∷ ns) zero m e = record {
    node = n;
    stood = refl;
    is = inr (omega arith, ap (λ (v : Node F). v.children) (sym (some-injective _ _ e)));
  }
  edit_children-Edited f (suc at) (n ∷ ns) (suc i) m e =
      let d = edit_children-Edited f at ns i m e in
      record {
        node = d.node;
        stood = d.stood;
        is = elim d.is [
          | inl (p, q) ↦ inl (ap suc p, q)
          | inr (p, q) ↦ inr (λ h. p (omega (arith, h)), q)
        ];
      }

  pub find_parent-some :
      (node parent key : ℕ) (nodes : List (Node F))
      → find_parent node nodes ≡ some (parent, key)
      → (n : Node F) × (get_elem? nodes parent ≡ some n) × (key_of node n.children ≡ some key)
  unfolding find_parent
  find_parent-some node parent key nodes e =
      let (j, n, at, stands, names) = find_parent_from-some 0 node parent key nodes e in
      let is : j ≡ parent = omega (arith, at) in (n, ap (get_elem? nodes) (sym is) ∙ stands, names)

  pub find_parent-none :
      (node : ℕ) (nodes : List (Node F))
      → find_parent node nodes ≡ none
      → (j : ℕ) (n : Node F) → get_elem? nodes j ≡ some n
      → key_of node n.children ≡ none
  unfolding find_parent
  find_parent-none node nodes e j n at = find_parent_from-none 0 node nodes e j n at

  -- Two names of one child are the same.
  pub same_key :
      (path : ℕ → List ℕ) (nodes : List (Node F)) (i j key key' child : ℕ)
      → Linked path nodes i key child
      → Linked path nodes j key' child
      → key ≡ key'
  same_key path nodes i j key key' child a b =
      let is : a.node ≡ b.node = some-injective _ _ (sym a.stands ∙ b.stands) in
      let edges : key ∷ a.tail ≡ key' ∷ b.tail =
        sym a.starts ∙ ap (λ (v : Node F). v.edge) is ∙ b.starts in
      ground (arith, edges)

  -- What a node still names, once no node names the victim.
  pub record Kept (victim : ℕ) (nodes : List (Node F)) (i : ℕ) (m : Node F) : Type 0 where
    pub node : Node F
    pub stood : get_elem? nodes i ≡ some node
    pub names :
        (key child : ℕ)
        → lookup key m.children ≡ some child
        → (lookup key node.children ≡ some child) × (child ≢ victim)
    pub once : Distinct m.children

  module _ (R : ℕ → List ℕ → Type 0) (path : ℕ → List ℕ) (nodes : List (Node F))
      (t : IsTrie R path nodes) where
    pub unlink-Kept :
        (victim i : ℕ) (m : Node F)
        → get_elem? (unlink victim nodes) i ≡ some m
        → Kept victim nodes i m
    unfolding unlink
    unlink-Kept victim i m e = elim (Option-cases (find_parent victim nodes)) [
      | inl orphan ↦
          let at : get_elem? nodes i ≡ some m = ground (arith, e) in
          record {
            node = m;
            stood = at;
            names = λ key child l. (
              l,
              λ is.
                  key_of-none victim key m.children (find_parent-none victim nodes orphan i m at)
                    (l ∙ ap some is),
            );
            once = t.keyed_once i m at;
          }
      | inr ((parent, first), found) ↦
          let (n, at, names) = find_parent-some victim parent first nodes found in
          let named = key_of-some victim first n.children (t.keyed_once parent n at) names in
          let link = t.linked parent n first victim at named in
          let own = t.owned parent n first victim at named in
          let d = edit_children-Edited (Assoc.remove first) parent nodes i m (ground (arith, e)) in
          record {
            node = d.node;
            stood = d.stood;
            names = λ key child l. elim d.is [
              | inl (here, same) ↦
                  let found' : (if first == key then none else lookup key d.node.children)
                      ≡ some child =
                    sym (lookup-remove first key d.node.children)
                    ∙ ap (lookup key) (sym same)
                    ∙ l in
                  let old : lookup key d.node.children ≡ some child = ground (arith, found') in
                  (
                    old,
                    λ is.
                        let k =
                          same_key path nodes i parent key first victim
                            (subst (Linked path nodes i key) is
                              (t.linked i d.node key child d.stood old))
                            link in
                        ground (arith, found', k),
                  )
              | inr (there, same) ↦
                  let old = ap (lookup key) (sym same) ∙ l in
                  (
                    old,
                    λ is.
                        there (sym (t.owned i d.node key child d.stood old) ∙ ap t.owner is ∙ own),
                  )
            ];
            once = elim d.is [
              | inl (here, same) ↦
                  subst Distinct (sym same)
                    (remove-Distinct first d.node.children (t.keyed_once i d.node d.stood))
              | inr (there, same) ↦ subst Distinct (sym same) (t.keyed_once i d.node d.stood)
            ];
          }
    ]
