-- ===== src/Kvcache/Radix/Match.antt =====
-- kvcache/src/radix.rs, `match_workers`: the loop ends, and a worker is credited only with a prefix
-- of the prompt that is known of it.
use trt_llm_rs.Prelude.{
  ℕ, zero, suc, ◌+◌, ◌<◌, ◌≡◌, refl, sym, ap, subst, ◌∙◌, Option, none, some, List, [], ◌∷◌, ◌++◌,
  max, arith, length, take, drop, ltb, All, All-weaken, Bool-cases, Option-cases, inl, inr,
  length-drop, length-append, length-take, get_elem?-lt, take-append-drop, get_elem?_total,
  take_all,
}
use mathlib.Core.List.{append_assoc}
use trt_llm_rs.Prelude.Assoc.{Map, lookup, All-insert, All-lookup}
use trt_llm_rs.Prelude.Assoc
use trt_llm_rs.Kvcache.Radix.{Node, common_prefix_len, record_workers, match_loop}
use trt_llm_rs.Kvcache.Radix.Trie.{IsPrefixClosed, IsTrie}
use trt_llm_rs.Kvcache.Radix.Insert.{
  common_prefix_len-le, take-common_prefix_len, common_prefix_len_pos,
}

-- The worker of an entry is known to hold the prefix whose length the entry gives.
pub record IsCredit (R : ℕ → List ℕ → Type 0) (tokens : List ℕ) (entry : ℕ × ℕ) : Type 0 where
  pub front : List ℕ
  pub back : List ℕ
  pub splits : front ++ back ≡ tokens
  pub measured : length front ≡ entry.1
  pub known : R entry.0 front

module _ (R : ℕ → List ℕ → Type 0) (closed : IsPrefixClosed R) (tokens : List ℕ) where
  larger-IsCredit :
      (w k matched : ℕ)
      → IsCredit R tokens (w, k)
      → IsCredit R tokens (w, matched)
      → IsCredit R tokens (w, max k matched)
  larger-IsCredit w k matched c d = elim (Bool-cases (ltb k matched)) [
    | inl less ↦ subst (λ m. IsCredit R tokens (w, m)) (ground arith) d
    | inr more ↦ subst (λ m. IsCredit R tokens (w, m)) (ground arith) c
  ]

  pub record_workers-IsCredit :
      (ws : List ℕ) (matched : ℕ) (out : Map ℕ) (front back : List ℕ)
      → front ++ back ≡ tokens
      → length front ≡ matched
      → All (λ w. R w front) ws
      → All (IsCredit R tokens) out
      → All (IsCredit R tokens) (record_workers ws matched out)
  unfolding record_workers
  record_workers-IsCredit [] matched out front back e l held credits = credits
  record_workers-IsCredit (w ∷ ws) matched out front back e l (r, held) credits =
      let mine : IsCredit R tokens (w, matched) = record {
        front = front;
        back = back;
        splits = e;
        measured = l;
        known = r;
      } in
      record_workers-IsCredit ws matched
        (Assoc.insert w (max (elim (lookup w out) [ none ↦ 0 | some k ↦ k ]) matched) out) front
        back e l held
        (All-insert (IsCredit R tokens) w
          (max (elim (lookup w out) [ none ↦ 0 | some k ↦ k ]) matched) out
          (elim (Option-cases (lookup w out)) [
            | inl unseen ↦ subst (λ k. IsCredit R tokens (w, k)) (ground arith) mine
            | inr (k, seen) ↦
                subst (λ o. IsCredit R tokens (w, max (elim o [ none ↦ 0 | some k ↦ k ]) matched))
                  (sym seen)
                  (larger-IsCredit w k matched (All-lookup (IsCredit R tokens) w k out seen credits)
                    mine)
          ])
          credits)

-- What the loop answers.
pub record Matched (R : ℕ → List ℕ → Type 0) (tokens : List ℕ) (tried : Option (Map ℕ))
    : Type 0 where
  pub out : Map ℕ
  pub answers : tried ≡ some out
  pub credits : All (IsCredit R tokens) out

module _ {F : Type 0} (R : ℕ → List ℕ → Type 0) (closed : IsPrefixClosed R) (tokens : List ℕ)
    (path : ℕ → List ℕ) (nodes : List (Node F)) (t : IsTrie R path nodes) where
  pub match_loop-Matched :
      (fuel : ℕ) (rest : List ℕ) (matched cur : ℕ) (out : Map ℕ)
      → length rest < fuel
      → cur < length nodes
      → path cur ++ rest ≡ tokens
      → length (path cur) ≡ matched
      → All (IsCredit R tokens) out
      → Matched R tokens (match_loop fuel rest matched cur nodes out)
  unfolding match_loop
  match_loop-Matched zero rest matched cur out h lt e l credits = absurd (omega arith)
  match_loop-Matched (suc fuel) [] matched cur out h lt e l credits =
      let (n, at_cur) = get_elem?_total nodes cur lt in
      let credited = record_workers n.workers matched out in
      record {
        out = credited;
        answers = ground arith;
        credits =
            record_workers-IsCredit R closed tokens n.workers matched out (path cur) [] e l
              (t.held cur n at_cur) credits;
      }
  match_loop-Matched (suc fuel) (token ∷ others) matched cur out h lt e l credits =
      let rest = token ∷ others in
      let (n, at_cur) = get_elem?_total nodes cur lt in
      let credited = record_workers n.workers matched out in
      let so_far =
        record_workers-IsCredit R closed tokens n.workers matched out (path cur) rest e l
          (t.held cur n at_cur) credits in
      elim (Option-cases (lookup token n.children)) [
        | inl leaf ↦ record { out = credited; answers = ground arith; credits = so_far }
        | inr (child, found) ↦
            let k = t.linked cur n token child at_cur found in
            let edge = k.node.edge in
            let common = common_prefix_len edge rest in
            let agree : take common edge ≡ take common rest = take-common_prefix_len edge rest in
            let pos = common_prefix_len_pos edge rest token k.tail others k.starts refl in
            let whole : (path cur ++ take common edge) ++ drop common rest ≡ tokens =
              append_assoc (path cur) (take common edge) (drop common rest)
              ∙ ap (λ u. path cur ++ (u ++ drop common rest)) agree
              ∙ ap (λ u. path cur ++ u) (take-append-drop common rest)
              ∙ e in
            let count : length (path cur ++ take common edge) ≡ matched + common = omega (
              arith,
              length-append {0} (path cur) (take common edge),
              length-take {0} common edge,
              common_prefix_len-le edge rest,
            ) in
            elim (Bool-cases (ltb common (length edge))) [
              | inl partial ↦ record {
                out = record_workers k.node.workers (matched + common) credited;
                answers = ground (arith, k.stands);
                credits =
                    record_workers-IsCredit R closed tokens k.node.workers (matched + common)
                      credited (path cur ++ take common edge) (drop common rest) whole count
                      (All-weaken (λ w. R w (path child)) (λ w. R w (path cur ++ take common edge))
                        k.node.workers
                        (λ w r. closed w (path cur ++ take common edge) (drop common edge) (
                          subst (R w)
                            (k.spells
                              ∙ ap (λ u. path cur ++ u) (sym (take-append-drop common edge))
                              ∙ sym (append_assoc (path cur) (take common edge) (drop common edge)))
                            r))
                        (t.held child k.node k.stands))
                      so_far;
              }
              | inr full ↦
                  let spelled : path child ≡ path cur ++ take common edge =
                    k.spells
                    ∙ ap (λ u. path cur ++ u) (sym (take_all common edge (ground arith))) in
                  let later =
                    match_loop-Matched fuel (drop common rest) (matched + common) child credited
                      (omega (arith, length-drop {0} common rest))
                      (get_elem?-lt nodes child k.node k.stands)
                      (ap (λ u. u ++ drop common rest) spelled ∙ whole) (ap length spelled ∙ count)
                      so_far in
                  record {
                    out = later.out;
                    answers = ground (arith, k.stands, later.answers);
                    credits = later.credits;
                  }
            ]
      ]
