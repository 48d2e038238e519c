-- ===== src/Kvcache/Radix/Split.antt =====
-- kvcache/src/radix.rs, `split`: the child keeps the front of its edge, the tail takes the rest of it
-- and the children over, and the trie spells the same strings.
use trt_llm_rs.Prelude.{
  ℕ, zero, suc, ◌<◌, ◌≡◌, refl, sym, ap, subst, ◌∙◌, ◌≢◌, some, List, [], ◌∷◌, ◌++◌, arith, ◌==◌,
  if◌then◌else◌, length, take, drop, get_elem?, set, All, All-weaken, Bool-cases, inl, inr,
  get_elem?-set, get_elem?-set_self, get_elem?-set_ne, get_elem?-lt, get_elem?-snoc,
  get_elem?-snoc_self, get_elem?-snoc_old, length-set, length-append, take-append-drop,
}
use mathlib.Core.Option.{some-injective}
use mathlib.Core.List.{append_assoc, append_cancel_right}
use trt_llm_rs.Prelude.Assoc.{lookup, Distinct}
use trt_llm_rs.Kvcache.Radix.{Node, split}
use trt_llm_rs.Kvcache.Radix.Trie.{
  IsPrefixClosed, relabel, Linked, IsTrie, Linked-snoc, Linked-relabel,
}

take_starts :
    (at : ℕ) (xs : List ℕ) (key : ℕ) (rest : List ℕ)
    → 0 < at
    → xs ≡ key ∷ rest
    → (front : List ℕ) × (take at xs ≡ key ∷ front)
take_starts zero xs key rest h e = absurd (omega arith)
take_starts (suc at) xs key rest h e = (take at rest, rw e)

drop_nonempty :
    (at : ℕ) (xs : List ℕ) → at < length xs → (y : ℕ) × (ys : List ℕ) × (drop at xs ≡ y ∷ ys)
drop_nonempty zero [] h = absurd (omega arith)
drop_nonempty zero (x ∷ xs) h = (x, xs, refl)
drop_nonempty (suc at) [] h = absurd (omega arith)
drop_nonempty (suc at) (x ∷ xs) h = drop_nonempty at xs (omega arith)

longer_with : (s t : List ℕ) (k : ℕ) (r : List ℕ) → t ≡ k ∷ r → length s < length (s ++ t)
longer_with s t k r e = omega (arith, length-append {0} s t, ap length e)

module _ {F : Type 0} where
  split-some :
      (child : ℕ) (n : Node F) (at : ℕ) (now : F) (nodes : List (Node F)) (y : ℕ) (ys : List ℕ)
      → drop at n.edge ≡ y ∷ ys
      → split child n at now nodes
        ≡ some (
            set nodes child (record n { edge = take at n.edge; children = (y, length nodes) ∷ [] })
            ++ record {
              edge = y ∷ ys;
              children = n.children;
              workers = n.workers;
              last_access_ms = now;
            }
              ∷ [])
  unfolding split
  split-some child n at now nodes y ys d = ground (arith, d)

  Linked-set_ne :
      (path : ℕ → List ℕ) (nodes : List (Node F)) (i key child at : ℕ) (v : Node F)
      → at ≢ child
      → Linked path nodes i key child
      → Linked path (set nodes at v) i key child
  Linked-set_ne path nodes i key child at v h l = record {
    node = l.node;
    tail = l.tail;
    stands = get_elem?-set_ne nodes at v child h ∙ l.stands;
    starts = l.starts;
    spells = l.spells;
  }

module _ {F : Type 0} (R : ℕ → List ℕ → Type 0) (closed : IsPrefixClosed R) (path : ℕ → List ℕ)
    (nodes : List (Node F)) (t : IsTrie R path nodes) (child at : ℕ) (n : Node F) (s : List ℕ)
    (key : ℕ) (rest : List ℕ) (e : get_elem? nodes child ≡ some n)
    (spelled : path child ≡ s ++ n.edge) (starts : n.edge ≡ key ∷ rest) (pos : 0 < at) where
  abbrev pub split_path : ℕ → List ℕ
  split_path = relabel (relabel path child (s ++ take at n.edge)) (length nodes) (path child)

  pub at_child : split_path child ≡ s ++ take at n.edge
  at_child = ground (arith, get_elem?-lt nodes child n e)

  at_tail : split_path (length nodes) ≡ path child
  at_tail = ground arith

  at_old : (i : ℕ) → i < length nodes → i ≢ child → split_path i ≡ path i
  at_old i lt ne = ground arith

  below : (g : ℕ) (i key' : ℕ) → Linked path nodes i key' g → g < length nodes
  below g i key' l = get_elem?-lt nodes g l.node l.stands

  module _ (y : ℕ) (ys : List ℕ) (d : drop at n.edge ≡ y ∷ ys) (now : F) where
    abbrev head : Node F
    head = record n { edge = take at n.edge; children = (y, length nodes) ∷ [] }

    abbrev tail : Node F
    tail = record {
      edge = y ∷ ys;
      children = n.children;
      workers = n.workers;
      last_access_ms = now;
    }

    abbrev store : List (Node F)
    store = set nodes child head ++ tail ∷ []

    rejoined : path child ≡ split_path child ++ y ∷ ys
    rejoined =
        spelled
        ∙ ap (λ u. s ++ u) (sym (take-append-drop at n.edge))
        ∙ ap (λ u. s ++ (take at n.edge ++ u)) d
        ∙ sym (append_assoc s (take at n.edge) (y ∷ ys))
        ∙ ap (λ u. u ++ y ∷ ys) (sym at_child)

    kept :
        (i j key' g : ℕ)
        → split_path j ≡ path i
        → g ≢ child
        → Linked path nodes i key' g
        → Linked split_path store j key' g
    kept i j key' g pj ne l =
        Linked-relabel path split_path store i j key' g pj (at_old g (below g i key' l) ne) (
          Linked-snoc path (set nodes child head) i key' g tail
            (Linked-set_ne path nodes i key' g child head (λ q. ne (sym q)) l))

    tail_linked :
        (key' g : ℕ)
        → lookup key' n.children ≡ some g
        → Linked split_path store (length nodes) key' g
    tail_linked key' g l =
        let old = t.linked child n key' g e l in
        kept child (length nodes) key' g at_tail
          (λ q. absurd (
            omega (
              arith,
              longer_with (path child) old.node.edge key' old.tail old.starts,
              ap length old.spells,
              ap (λ k. length (path k)) q,
            )))
          old

    head_linked : Linked split_path store child y (length nodes)
    head_linked = record {
      node = tail;
      tail = ys;
      stands =
          subst (λ j. get_elem? store j ≡ some tail) (length-set nodes child head)
            (get_elem?-snoc_self (set nodes child head) tail);
      starts = refl;
      spells = at_tail ∙ rejoined;
    }

    old_linked :
        (i : ℕ) (m : Node F) (key' g : ℕ)
        → i ≢ child
        → get_elem? nodes i ≡ some m
        → lookup key' m.children ≡ some g
        → Linked split_path store i key' g
    old_linked i m key' g ne old l =
        let k = t.linked i m key' g old l in
        let at_i = at_old i (get_elem?-lt nodes i m old) ne in
        elim (Bool-cases (g == child)) [
          | inr other ↦ kept i i key' g at_i (ground arith) k
          | inl hit ↦
              let g_is : g ≡ child = ground arith in
              let is : k.node ≡ n =
                some-injective _ _ (sym k.stands ∙ ap (get_elem? nodes) g_is ∙ e) in
              let edges : k.node.edge ≡ n.edge = ap (λ (v : Node F). v.edge) is in
              let (front, f) = take_starts at n.edge key' k.tail pos (sym edges ∙ k.starts) in
              let same : path i ≡ s =
                append_cancel_right (path i) s n.edge
                  (ap (λ u. path i ++ u) (sym edges) ∙ sym k.spells ∙ ap path g_is ∙ spelled) in
              subst (λ j. Linked split_path store i key' j) (sym g_is)
                (record {
                  node = head;
                  tail = front;
                  stands =
                      get_elem?-snoc_old (set nodes child head) tail child head
                        (get_elem?-set_self nodes child head (get_elem?-lt nodes child n e));
                  starts = f;
                  spells = at_child ∙ ap (λ u. u ++ take at n.edge) (sym (at_i ∙ same));
                })
        ]

    split_held : All (λ w. R w (split_path child)) n.workers
    split_held =
        All-weaken (λ w. R w (path child)) (λ w. R w (split_path child)) n.workers
          (λ w r. closed w (split_path child) (y ∷ ys) (subst (R w) rejoined r)) (t.held child n e)

    store-IsTrie : IsTrie R split_path store
    unfolding lookup
    store-IsTrie =
        let same_length = length-set nodes child head in
        record {
          rooted =
              at_old 0 t.inhabited (λ q. absurd (
                omega (
                  arith,
                  longer_with s n.edge key rest starts,
                  ap length spelled,
                  ap (λ k. length (path k)) q,
                  ap length t.rooted,
                )))
              ∙ t.rooted;
          inhabited = omega (arith, length-append {0} (set nodes child head) (tail ∷ []));
          linked = λ i m key' g e' l. elim (get_elem?-snoc (set nodes child head) tail i m e') [
            | inl (is, eq) ↦
                subst (λ j. Linked split_path store j key' g) (sym (is ∙ same_length))
                  (tail_linked key' g
                    (subst (λ (k : Node F). lookup key' k.children ≡ some g) (sym eq) l))
            | inr old ↦ elim (get_elem?-set nodes child head i m old) [
              | inr (ne, older) ↦ old_linked i m key' g (λ q. ne (sym q)) older l
              | inl (is, eq) ↦
                  let l' : lookup key' head.children ≡ some g =
                    subst (λ (k : Node F). lookup key' k.children ≡ some g) (sym eq) l in
                  elim (Bool-cases (y == key')) [
                    | inr other ↦ absurd (ground arith)
                    | inl hit ↦
                        subst (λ k. Linked split_path store i k g) (ground arith)
                          (subst (λ k. Linked split_path store i y k)
                            (some-injective (length nodes) g (ground arith))
                            (subst (λ j. Linked split_path store j y (length nodes)) is
                              head_linked))
                  ]
            ]
          ];
          held = λ i m e'. elim (get_elem?-snoc (set nodes child head) tail i m e') [
            | inl (is, eq) ↦
                subst (λ j. All (λ w. R w (split_path j)) m.workers) (sym (is ∙ same_length))
                  (subst (λ (k : Node F). All (λ w. R w (split_path (length nodes))) k.workers) eq
                    (subst (λ u. All (λ w. R w u) n.workers) (sym at_tail) (t.held child n e)))
            | inr old ↦ elim (get_elem?-set nodes child head i m old) [
              | inr (ne, older) ↦
                  subst (λ u. All (λ w. R w u) m.workers)
                    (sym (at_old i (get_elem?-lt nodes i m older) (λ q. ne (sym q))))
                    (t.held i m older)
              | inl (is, eq) ↦
                  subst (λ j. All (λ w. R w (split_path j)) m.workers) is
                    (subst (λ (k : Node F). All (λ w. R w (split_path child)) k.workers) eq
                      split_held)
            ]
          ];
          owner = λ g.
              if g == length nodes
              then child
              else if t.owner g == child
              then length nodes
              else t.owner g;
          owned = λ i m key' g e' l. elim (get_elem?-snoc (set nodes child head) tail i m e') [
            | inl (is, eq) ↦
                let l' : lookup key' n.children ≡ some g =
                  subst (λ (k : Node F). lookup key' k.children ≡ some g) (sym eq) l in
                ground (
                  arith,
                  is,
                  same_length,
                  below g child key' (t.linked child n key' g e l'),
                  t.owned child n key' g e l',
                )
            | inr old ↦ elim (get_elem?-set nodes child head i m old) [
              | inr (ne, older) ↦ ground (
                arith,
                ne,
                below g i key' (t.linked i m key' g older l),
                t.owned i m key' g older l,
              )
              | inl (is, eq) ↦
                  let l' : lookup key' head.children ≡ some g =
                    subst (λ (k : Node F). lookup key' k.children ≡ some g) (sym eq) l in
                  elim (Bool-cases (y == key')) [
                    | inr other ↦ absurd (ground arith)
                    | inl hit ↦
                        let g_is : length nodes ≡ g =
                          some-injective (length nodes) g (ground arith) in
                        ground (arith, is, g_is)
                  ]
            ]
          ];
          keyed_once = λ i m e'. elim (get_elem?-snoc (set nodes child head) tail i m e') [
            | inl (is, eq) ↦ subst (λ (k : Node F). Distinct k.children) eq (t.keyed_once child n e)
            | inr old ↦ elim (get_elem?-set nodes child head i m old) [
              | inr (ne, older) ↦ t.keyed_once i m older
              | inl (is, eq) ↦ subst (λ (k : Node F). Distinct k.children) eq (refl, tt)
            ]
          ];
        }

  pub split-IsTrie :
      (now : F)
      → at < length n.edge
      → (nodes' : List (Node F)) × (split child n at now nodes ≡ some nodes')
        × IsTrie R split_path nodes'
        × (length nodes' ≡ suc (length nodes))
  split-IsTrie now within =
      let (y, ys, d) = drop_nonempty at n.edge within in
      (
        store y ys d now,
        split-some child n at now nodes y ys d,
        store-IsTrie y ys d now,
        omega (
          arith,
          length-append {0} (set nodes child (head y ys d now)) (tail y ys d now ∷ []),
          length-set nodes child (head y ys d now),
        ),
      )
