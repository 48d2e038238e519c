-- ===== src/Kvcache/Radix/Descend.antt =====
-- kvcache/src/radix.rs, `insert`: how many nodes one round adds that goes down to a child.
use trt_llm_rs.Prelude.{
  ℕ, suc, ◌<◌, ◌≡◌, refl, sym, ap, subst, ◌∙◌, ◌≢◌, ◌⊎◌, inl, inr, none, some, List, [], ◌∷◌, ◌++◌,
  arith, length, take, drop, get_elem?, set, ◌==◌, ltb, Bool-cases, Option-cases, length-append,
  length-set, get_elem?-lt, get_elem?-set_self, get_elem?-snoc_old,
}
use mathlib.Core.Option.{some-injective}
use trt_llm_rs.Prelude.Assoc.{lookup}
use trt_llm_rs.Kvcache.Radix.{Node, next, common_prefix_len, touch, touch_at, split, descend}

List-cases {ℓ} : {A : Type ℓ} (xs : List A) → (xs ≡ []) ⊎ ((y : A) × (ys : List A) × (xs ≡ y ∷ ys))
List-cases [] = inl refl
List-cases (x ∷ xs) = inr (x, xs, refl)

-- Past the common prefix the two lists differ.
common_prefix_len_max :
    (xs ys : List ℕ) (y : ℕ) (tail : List ℕ) (z : ℕ) (rest : List ℕ)
    → drop (common_prefix_len xs ys) xs ≡ y ∷ tail
    → drop (common_prefix_len xs ys) ys ≡ z ∷ rest
    → y ≢ z
unfolding common_prefix_len
common_prefix_len_max [] ys y tail z rest e e' = cc
common_prefix_len_max (a ∷ xs) [] y tail z rest e e' = cc
common_prefix_len_max (a ∷ xs) (b ∷ ys) y tail z rest e e' = elim (Bool-cases (a == b)) [
  | inl same ↦ common_prefix_len_max xs ys y tail z rest (ground arith) (ground arith)
  | inr other ↦ ground arith
]

-- The node at `cur` has no child for the next token.
abbrev pub IsBlocked : {F : Type 0} → List ℕ → ℕ → List (Node F) → Type 0
IsBlocked {F} [] cur nodes = Unit
IsBlocked {F} (token ∷ _) cur nodes =
    (n : Node F) × (get_elem? nodes cur ≡ some n) × (lookup token n.children ≡ none)

module _ {F : Type 0} (worker : ℕ) (now : F) where
  touch_at_result :
      (at : ℕ) (nodes ns : List (Node F))
      → touch_at worker now at nodes ≡ some ns
      → (n : Node F) × (get_elem? nodes at ≡ some n) × (ns ≡ set nodes at (touch worker now n))
  unfolding touch_at
  touch_at_result at nodes ns e = elim (Option-cases (get_elem? nodes at)) [
    | inl gone ↦ absurd (ground arith)
    | inr (n, at_n) ↦ (n, at_n, ground arith)
  ]

  pub length-touch_at :
      (at : ℕ) (nodes ns : List (Node F))
      → touch_at worker now at nodes ≡ some ns
      → length ns ≡ length nodes
  length-touch_at at nodes ns e =
      let (n, _, is) = touch_at_result at nodes ns e in
      ap length is ∙ length-set nodes at (touch worker now n)

  split_result :
      (child : ℕ) (n : Node F) (at : ℕ) (nodes moved : List (Node F))
      → split child n at now nodes ≡ some moved
      → child < length nodes
      → (y : ℕ) × (ys : List ℕ) × (h : Node F) × (drop at n.edge ≡ y ∷ ys)
        × (length moved ≡ suc (length nodes))
        × (get_elem? moved child ≡ some h)
        × (h.children ≡ (y, length nodes) ∷ [])
  unfolding split
  split_result child n at nodes moved e lt = elim (List-cases (drop at n.edge)) [
    | inl out ↦ absurd (ground arith)
    | inr (y, ys, d) ↦
        let h : Node F = record n { edge = take at n.edge; children = (y, length nodes) ∷ [] } in
        let tail : Node F = record {
          edge = y ∷ ys;
          children = n.children;
          workers = n.workers;
          last_access_ms = now;
        } in
        let is : set nodes child h ++ tail ∷ [] ≡ moved = ground arith in
        (
          y,
          ys,
          h,
          d,
          omega (
            arith,
            ap length is,
            length-append {0} (set nodes child h) (tail ∷ []),
            length-set nodes child h,
          ),
          subst (λ (v : List (Node F)). get_elem? v child ≡ some h) is
              (get_elem?-snoc_old (set nodes child h) tail child h
                (get_elem?-set_self nodes child h lt)),
          refl,
        )
  ]

  -- How a round that goes down came about.
  record Descent (tokens : List ℕ) (child : ℕ) (nodes : List (Node F)) (later : List ℕ) (at : ℕ)
      (ns : List (Node F)) : Type 0 where
    node : Node F
    moved : List (Node F)
    stands : get_elem? nodes child ≡ some node
    move :
        (moved ≡ nodes)
        ⊎ (split child node (common_prefix_len node.edge tokens) now nodes ≡ some moved)
    touched : touch_at worker now child moved ≡ some ns
    rest : drop (common_prefix_len node.edge tokens) tokens ≡ later
    goes_to : child ≡ at

  descend-Descent :
      (tokens : List ℕ) (child : ℕ) (nodes : List (Node F)) (later : List ℕ) (at : ℕ)
      (ns : List (Node F))
      → descend worker now tokens child nodes ≡ some (next later at ns)
      → Descent tokens child nodes later at ns
  unfolding descend
  descend-Descent tokens child nodes later at ns e = elim (Option-cases (get_elem? nodes child)) [
    | inl gone ↦ absurd (ground arith)
    | inr (n, at_n) ↦
        let common = common_prefix_len n.edge tokens in
        elim (Bool-cases (ltb common (length n.edge))) [
          | inr full ↦ elim (Option-cases (touch_at worker now child nodes)) [
            | inl gone ↦ absurd (ground arith)
            | inr (ns', t) ↦ record {
              node = n;
              moved = nodes;
              stands = at_n;
              move = inl refl;
              touched = ground arith;
              rest = ground arith;
              goes_to = ground arith;
            }
          ]
          | inl partial ↦ elim (Option-cases (split child n common now nodes)) [
            | inl gone ↦ absurd (ground arith)
            | inr (moved, made) ↦ elim (Option-cases (touch_at worker now child moved)) [
              | inl gone ↦ absurd (ground arith)
              | inr (ns', t) ↦ record {
                node = n;
                moved = moved;
                stands = at_n;
                move = inr made;
                touched = ground arith;
                rest = ground arith;
                goes_to = ground arith;
              }
            ]
          ]
        ]
  ]

  blocked :
      (later : List ℕ) (child y id : ℕ) (h : Node F) (ns : List (Node F))
      → get_elem? ns child ≡ some h
      → h.children ≡ (y, id) ∷ []
      → ((z : ℕ) (rest : List ℕ) → later ≡ z ∷ rest → y ≢ z)
      → IsBlocked later child ns
  unfolding lookup
  blocked [] child y id h ns e kids ne = tt
  blocked (z ∷ rest) child y id h ns e kids ne = (h, e, rw kids (ground (arith, ne z rest refl)))

  -- A round adds a node only by a split, and then the next round finds no child.
  pub descend_cost :
      (tokens : List ℕ) (child : ℕ) (nodes : List (Node F)) (later : List ℕ) (at : ℕ)
      (ns : List (Node F))
      → descend worker now tokens child nodes ≡ some (next later at ns)
      → (length ns ≡ length nodes) ⊎ ((length ns ≡ suc (length nodes)) × IsBlocked later at ns)
  unfolding touch
  descend_cost tokens child nodes later at ns e =
      let d = descend-Descent tokens child nodes later at ns e in
      let same = length-touch_at child d.moved ns d.touched in
      elim d.move [
        | inl still ↦ inl (same ∙ ap length still)
        | inr made ↦
            let common = common_prefix_len d.node.edge tokens in
            let (y, ys, h, past, more, at_h, kids) =
              split_result child d.node common nodes d.moved made
                (get_elem?-lt nodes child d.node d.stands) in
            let (n, at_n, is) = touch_at_result child d.moved ns d.touched in
            let n_is : h ≡ n = some-injective h n (sym at_h ∙ at_n) in
            let kept : (touch worker now n).children ≡ (y, length nodes) ∷ [] =
              ap (λ (v : Node F). v.children) (sym n_is) ∙ kids in
            inr (
              same ∙ more,
              subst (λ j. IsBlocked later j ns) d.goes_to
                  (blocked later child y (length nodes) (touch worker now n) ns
                    (subst (λ (v : List (Node F)). get_elem? v child ≡ some (touch worker now n))
                      (sym is)
                      (get_elem?-set_self d.moved child (touch worker now n)
                        (get_elem?-lt d.moved child n at_n)))
                    kept
                    (λ z rest l.
                      common_prefix_len_max d.node.edge tokens y ys z rest past (d.rest ∙ l))),
            )
      ]
