-- ===== src/Kvcache/Radix/Detach.antt =====
-- kvcache/src/radix.rs, `detach`: which node goes, and what the others keep.
use trt_llm_rs.Prelude.{
  ℕ, zero, suc, ◌+◌, ◌-◌, ◌<◌, ◌≡◌, refl, sym, take, ap, subst, ◌∙◌, map, map-get_elem?,
  if◌then◌else◌, inl, inr, none, some, List, [], ◌∷◌, arith, length, get_elem?, set, ◌==◌, false,
  Bool-cases, Option-cases, length-set, get_elem?_total,
}
use mathlib.Core.Option.{some-injective}
use mathlib.Core.List.{Perm}
use mathlib.Core.List.Perm
use trt_llm_rs.Prelude.SwapRemove.{
  swap_remove, swap_remove-perm, get_elem?-swap_remove, length-swap_remove,
}
use trt_llm_rs.Prelude.Assoc.{Map}
use trt_llm_rs.Prelude.Assoc
use trt_llm_rs.Kvcache.Radix.{Node, edit_children, find_parent, unlink, relink, drop_last, detach}

module _ {F : Type 0} where
  length-edit_children :
      (f : Map ℕ → Map ℕ) (at : ℕ) (nodes : List (Node F))
      → length (edit_children f at nodes) ≡ length nodes
  unfolding edit_children
  length-edit_children f at [] = refl
  length-edit_children f zero (n ∷ ns) = refl
  length-edit_children f (suc at) (n ∷ ns) = ap suc (length-edit_children f at ns)

  pub length-unlink :
      (victim : ℕ) (nodes : List (Node F)) → length (unlink victim nodes) ≡ length nodes
  unfolding unlink
  length-unlink victim nodes = elim (Option-cases (find_parent victim nodes)) [
    | inl orphan ↦ ground arith
    | inr ((parent, key), e) ↦ ground (arith, length-edit_children (Assoc.remove key) parent nodes)
  ]

  length-relink :
      (last victim : ℕ) (nodes : List (Node F)) → length (relink last victim nodes) ≡ length nodes
  unfolding relink
  length-relink last victim nodes = elim (Option-cases (find_parent last nodes)) [
    | inl orphan ↦ ground arith
    | inr ((parent, key), e) ↦
        ground (arith, length-edit_children (Assoc.insert key victim) parent nodes)
  ]

  -- The nodes as they stand before the last one takes the place of the victim.
  abbrev pub relinked : ℕ → List (Node F) → List (Node F)
  relinked victim nodes =
      let unlinked = unlink victim nodes in
      if victim == length unlinked - 1
      then unlinked
      else relink (length unlinked - 1) victim unlinked

  pub length-relinked :
      (victim : ℕ) (nodes : List (Node F)) → length (relinked victim nodes) ≡ length nodes
  length-relinked victim nodes = ground (
    arith,
    length-unlink victim nodes,
    length-relink (length (unlink victim nodes) - 1) victim (unlink victim nodes),
  )

  drop_last-set :
      (r : List (Node F)) (victim last : ℕ)
      → last ≡ length r - 1
      → (victim == last) ≡ false
      → elim (get_elem? r last) [ none ↦ r | some moved ↦ drop_last (set r victim moved) ]
        ≡ swap_remove victim r
  unfolding drop_last
  drop_last-set r victim last is other =
      let not_last : (victim == length r - 1) ≡ false = ground (arith, is) in
      rw is (
        rw not_last (elim (Option-cases (get_elem? r (length r - 1))) [
          | inl gone ↦ rw gone refl
          | inr (moved, e) ↦
              rw e (ap (λ k. take (k - 1) (set r victim moved)) (length-set r victim moved))
        ]))

  pub detach-swap_remove :
      (victim : ℕ) (nodes : List (Node F))
      → detach victim nodes ≡ swap_remove victim (relinked victim nodes)
  unfolding detach drop_last
  detach-swap_remove victim nodes =
      let u = unlink victim nodes in
      elim (Bool-cases (victim == length u - 1)) [
        | inl is_last ↦ rw (is_last, is_last) refl
        | inr other ↦
            let r = relink (length u - 1) victim u in
            let same = length-relink (length u - 1) victim u in
            let is_r : r ≡ relinked victim nodes = rw other refl in
            rw (other, detach) (drop_last-set r victim (length u - 1) (omega (arith, same)) other)
            ∙ ap (swap_remove victim) is_r
      ]

  -- A node without the names of its children.
  abbrev pub bare : Node F → Node F
  bare n = record n { children = [] }

  map-edit_children :
      (f : Map ℕ → Map ℕ) (at : ℕ) (nodes : List (Node F))
      → map bare (edit_children f at nodes) ≡ map bare nodes
  unfolding edit_children
  map-edit_children f at [] = refl
  map-edit_children f zero (n ∷ ns) = refl
  map-edit_children f (suc at) (n ∷ ns) = ap (λ l. bare n ∷ l) (map-edit_children f at ns)

  map-unlink :
      (victim : ℕ) (nodes : List (Node F)) → map bare (unlink victim nodes) ≡ map bare nodes
  unfolding unlink
  map-unlink victim nodes = elim (Option-cases (find_parent victim nodes)) [
    | inl orphan ↦ ground arith
    | inr ((parent, key), e) ↦ ground (arith, map-edit_children (Assoc.remove key) parent nodes)
  ]

  map-relink :
      (last victim : ℕ) (nodes : List (Node F))
      → map bare (relink last victim nodes) ≡ map bare nodes
  unfolding relink
  map-relink last victim nodes = elim (Option-cases (find_parent last nodes)) [
    | inl orphan ↦ ground arith
    | inr ((parent, key), e) ↦
        ground (arith, map-edit_children (Assoc.insert key victim) parent nodes)
  ]

  pub map-relinked :
      (victim : ℕ) (nodes : List (Node F)) → map bare (relinked victim nodes) ≡ map bare nodes
  map-relinked victim nodes = ground (
    arith,
    map-unlink victim nodes,
    map-relink (length (unlink victim nodes) - 1) victim (unlink victim nodes),
  )

  -- One node goes, and the others keep all but the names of their children.
  pub record Detached (victim : ℕ) (nodes left : List (Node F)) : Type 0 where
    pub gone : Node F
    pub stood : (n : Node F) → get_elem? nodes victim ≡ some n → bare n ≡ bare gone
    pub rest : Perm (map bare nodes) (bare gone ∷ map bare left)
    pub one_less : length left + 1 ≡ length nodes
    pub root_stays :
        (n : Node F)
        → get_elem? nodes 0 ≡ some n
        → (m : Node F) × (get_elem? left 0 ≡ some m) × (bare m ≡ bare n)

  pub detach-Detached :
      (victim : ℕ) (nodes : List (Node F))
      → 0 < victim
      → victim < length nodes
      → Detached victim nodes (detach victim nodes)
  detach-Detached victim nodes pos h =
      let r = relinked victim nodes in
      let len = length-relinked victim nodes in
      let is = detach-swap_remove victim nodes in
      let same = map-relinked victim nodes in
      let (v, e) = get_elem?_total r victim (omega arith) in
      let perm = swap_remove-perm victim r v e (omega arith) in
      record {
        gone = v;
        stood = λ n at. some-injective (bare n) (bare v) (
            sym (map-get_elem? bare nodes victim n at)
            ∙ ap (λ l. get_elem? l victim) (sym same)
            ∙ map-get_elem? bare r victim v e);
        rest =
            subst (λ l. Perm l (bare v ∷ map bare (detach victim nodes))) same
              (subst (λ l. Perm (map bare r) (bare v ∷ map bare l)) (sym is) (Perm.map bare perm));
        one_less = omega (arith, ap length is, length-swap_remove victim r (omega arith));
        root_stays = λ n at.
            let (m, f) = get_elem?_total r 0 (omega arith) in
            let not_victim : (0 == victim) ≡ false = ground arith in
            (
              m,
              ap (λ l. get_elem? l 0) is
                  ∙ get_elem?-swap_remove victim r 0 (omega arith) (omega arith)
                  ∙ ap (λ b. get_elem? r (if b then length r - 1 else 0)) not_victim
                  ∙ f,
              some-injective (bare m) (bare n) (
                  sym (map-get_elem? bare r 0 m f)
                  ∙ ap (λ l. get_elem? l 0) same
                  ∙ map-get_elem? bare nodes 0 n at),
            );
      }
