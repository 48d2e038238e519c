-- ===== src/Kvcache/Radix/Relink.antt =====
-- kvcache/src/radix.rs, the second step of `detach`: the last node is named by the victim's number.
use trt_llm_rs.Prelude.{
  ℕ, ◌-◌, ◌≡◌, sym, ap, subst, ◌∙◌, ◌≢◌, inl, inr, some, List, arith, length, get_elem?, ◌==◌,
  if◌then◌else◌, Bool-cases, Option-cases,
}
use mathlib.Core.Option.{some-injective}
use trt_llm_rs.Prelude.Assoc.{
  Map, lookup, lookup-insert, lookup-remove, Distinct, insert-Distinct, remove-Distinct,
}
use trt_llm_rs.Prelude.Assoc
use trt_llm_rs.Kvcache.Radix.{Node, find_parent, unlink, relink}
use trt_llm_rs.Kvcache.Radix.Trie.{Linked, IsTrie}
use trt_llm_rs.Kvcache.Radix.Detach.{relinked, length-unlink}
use trt_llm_rs.Kvcache.Radix.Unlink.{
  key_of-some, key_of-none, edit_children-Edited, find_parent-some, find_parent-none, same_key,
  Kept, unlink-Kept,
}

module _ {F : Type 0} where
  -- What a node names, once the last node has the number of the victim.
  pub record Moved (victim last : ℕ) (nodes : List (Node F)) (i : ℕ) (m : Node F) : Type 0 where
    pub node : Node F
    pub stood : get_elem? nodes i ≡ some node
    pub names :
        (key child : ℕ)
        → lookup key m.children ≡ some child
        → (old : ℕ) × (lookup key node.children ≡ some old)
          × (old ≢ victim)
          × (child ≡ (if old == last then victim else old))
    pub once : Distinct m.children

  module _ (R : ℕ → List ℕ → Type 0) (path : ℕ → List ℕ) (nodes : List (Node F))
      (t : IsTrie R path nodes) where
    -- A name that `relink` leaves as it was.
    unmoved :
        (victim last i : ℕ) (u : Node F) (k : Kept victim nodes i u) (key child : ℕ)
        → lookup key u.children ≡ some child
        → child ≢ last
        → (old : ℕ) × (lookup key k.node.children ≡ some old)
          × (old ≢ victim)
          × (child ≡ (if old == last then victim else old))
    unmoved victim last i u k key child l ne =
        let (old, other) = k.names key child l in (child, old, other, ground (arith, ne))

    relink-Moved :
        (victim last i : ℕ) (m : Node F)
        → victim ≢ last
        → get_elem? (relink last victim (unlink victim nodes)) i ≡ some m
        → Moved victim last nodes i m
    unfolding relink
    relink-Moved victim last i m apart e =
        let u = unlink victim nodes in
        elim (Option-cases (find_parent last u)) [
          | inl orphan ↦
              let at : get_elem? u i ≡ some m = ground (arith, e) in
              let k = unlink-Kept R path nodes t victim i m at in
              record {
                node = k.node;
                stood = k.stood;
                names = λ key child l. unmoved victim last i m k key child l (λ is.
                    key_of-none last key m.children (find_parent-none last u orphan i m at)
                      (l ∙ ap some is));
                once = k.once;
              }
          | inr ((parent, first), found) ↦
              let (n, at, names) = find_parent-some last parent first u found in
              let kn = unlink-Kept R path nodes t victim parent n at in
              let here = key_of-some last first n.children kn.once names in
              let named = (kn.names first last here).0 in
              let link = t.linked parent kn.node first last kn.stood named in
              let own = t.owned parent kn.node first last kn.stood named in
              let d =
                edit_children-Edited (Assoc.insert first victim) parent u i m (ground (arith, e)) in
              let k = unlink-Kept R path nodes t victim i d.node d.stood in
              record {
                node = k.node;
                stood = k.stood;
                names = λ key child l. elim d.is [
                  | inr (there, same) ↦
                      let l' = ap (lookup key) (sym same) ∙ l in
                      unmoved victim last i d.node k key child l' (λ is. there (
                        sym (t.owned i k.node key child k.stood (k.names key child l').0)
                        ∙ ap t.owner is
                        ∙ own))
                  | inl (at_parent, same) ↦
                      let l' : (if first == key then some victim else lookup key d.node.children)
                          ≡ some child =
                        sym (lookup-insert first key victim d.node.children)
                        ∙ ap (lookup key) (sym same)
                        ∙ l in
                      elim (Bool-cases (first == key)) [
                        | inl hit ↦
                            let is : n ≡ d.node =
                              some-injective _ _
                                (sym at ∙ ap (get_elem? u) (sym at_parent) ∙ d.stood) in
                            let first_is : first ≡ key = ground arith in
                            let last_here : lookup key d.node.children ≡ some last =
                              subst (λ j. lookup j d.node.children ≡ some last) first_is
                                (subst (λ (v : Node F). lookup first v.children ≡ some last) is
                                  here) in
                            (
                              last,
                              (k.names key last last_here).0,
                              (k.names key last last_here).1,
                              ground (arith, l', hit),
                            )
                        | inr other ↦
                            let old : lookup key d.node.children ≡ some child =
                              ground (arith, l', other) in
                            unmoved victim last i d.node k key child old (λ is.
                              let same_first =
                                same_key path nodes i parent key first last
                                  (subst (Linked path nodes i key) is
                                    (t.linked i k.node key child k.stood (k.names key child old).0))
                                  link in
                              ground (arith, same_first, other))
                      ]
                ];
                once = elim d.is [
                  | inl (at_parent, same) ↦
                      subst Distinct (sym same)
                        (insert-Distinct first victim d.node.children k.once)
                  | inr (there, same) ↦ subst Distinct (sym same) k.once
                ];
              }
        ]

    pub relinked-Moved :
        (victim i : ℕ) (m : Node F)
        → get_elem? (relinked victim nodes) i ≡ some m
        → Moved victim (length nodes - 1) nodes i m
    relinked-Moved victim i m e =
        let same = length-unlink victim nodes in
        elim (Bool-cases (victim == length (unlink victim nodes) - 1)) [
          | inl is_last ↦
              let k = unlink-Kept R path nodes t victim i m (ground (arith, e)) in
              record {
                node = k.node;
                stood = k.stood;
                names = λ key child l.
                    unmoved victim (length nodes - 1) i m k key child l
                      (λ is. (k.names key child l).1 (ground (arith, same, is)));
                once = k.once;
              }
          | inr other ↦
              subst (λ last. Moved victim (last - 1) nodes i m) same
                (relink-Moved victim (length (unlink victim nodes) - 1) i m (ground arith)
                  (ground (arith, e)))
        ]
