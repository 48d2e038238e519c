-- ===== src/Kvcache/Radix/History.antt =====
-- kvcache/src/radix.rs: what the index answers after a sequence of calls, against the calls alone.
use trt_llm_rs.Prelude.{
  ℕ, zero, suc, ◌≤◌, ◌≡◌, refl, sym, ap, subst, ◌∙◌, ◌≢◌, ◌⊎◌, inl, inr, Option, some, List, [],
  ◌∷◌, ◌++◌, arith, length, take, get_elem?, ◌||◌, leb, ltb, All, All-weaken, Bool-cases,
  length-append, length-map, get_elem?-map, map-get_elem?,
}
use mathlib.Core.Option.{some-injective}
use mathlib.Core.List.{append_assoc, append-nil}
use trt_llm_rs.Prelude.Counts.{All-retain_ne}
use trt_llm_rs.Prelude.Float.{Floats}
use trt_llm_rs.Prelude.Assoc.{Distinct, Map, lookup}
use trt_llm_rs.Kvcache.Radix.{
  Node, RadixIndex, ◌>>=◌, new_node, insert, forget_at, forget_worker, match_workers, new, clear,
  prune,
}
use trt_llm_rs.Kvcache.Radix.Trie.{IsPrefixClosed, IsTrie, touch_at-IsTrie}
use trt_llm_rs.Kvcache.Radix.Insert.{insert_loop-Inserted}
use trt_llm_rs.Kvcache.Radix.Sweep.{prune_loop-IsTrie}
use trt_llm_rs.Kvcache.Radix.Match.{IsCredit, match_loop-Matched}

-- The calls that change the index.
pub data Call (F : Type 0) : Type 0 where
  recorded : ℕ → List ℕ → F → Call F
  forgot : ℕ → Call F
  cleared : Call F
  pruned : F → F → Call F

pub record Starts (w : ℕ) (s : List ℕ) (worker : ℕ) (tokens : List ℕ) : Type 0 where
  pub back : List ℕ
  pub mine : worker ≡ w
  pub splits : s ++ back ≡ tokens

module _ {F : Type 0} where
  -- What is known of a worker outlives these calls.
  abbrev pub Survives : List (Call F) → ℕ → Type 0
  Survives [] w = Unit
  Survives (recorded _ _ _ ∷ calls) w = Survives calls w
  Survives (forgot worker ∷ calls) w = (worker ≢ w) × Survives calls w
  Survives (cleared ∷ calls) w = ⊥
  Survives (pruned _ _ ∷ calls) w = Survives calls w

  -- A prompt that starts with `s` was recorded for the worker, and outlived the later calls.
  abbrev pub Recorded : List (Call F) → ℕ → List ℕ → Type 0
  Recorded [] w s = ⊥
  Recorded (recorded worker tokens now ∷ calls) w s =
      (Starts w s worker tokens × Survives calls w) ⊎ Recorded calls w s
  Recorded (forgot worker ∷ calls) w s = Recorded calls w s
  Recorded (cleared ∷ calls) w s = Recorded calls w s
  Recorded (pruned _ _ ∷ calls) w s = Recorded calls w s

  -- What is known after one call, from what was known before it.
  abbrev After : Call F → (ℕ → List ℕ → Type 0) → ℕ → List ℕ → Type 0
  After (recorded worker tokens now) R w s = R w s ⊎ Starts w s worker tokens
  After (forgot worker) R w s = R w s × (worker ≢ w)
  After cleared R w s = ⊥
  After (pruned now ttl_ms) R w s = R w s

  After-IsPrefixClosed :
      (c : Call F) (R : ℕ → List ℕ → Type 0) → IsPrefixClosed R → IsPrefixClosed (After c R)
  After-IsPrefixClosed (recorded worker tokens now) R closed w s t (inl r) = inl (closed w s t r)
  After-IsPrefixClosed (recorded worker tokens now) R closed w s t (inr k) = inr (record {
    back = t ++ k.back;
    mine = k.mine;
    splits = sym (append_assoc s t k.back) ∙ k.splits;
  })
  After-IsPrefixClosed (forgot worker) R closed w s t (r, ne) = (closed w s t r, ne)
  After-IsPrefixClosed cleared R closed w s t r = elim r [ ]
  After-IsPrefixClosed (pruned now ttl_ms) R closed w s t r = closed w s t r

  pub record IsIndex (R : ℕ → List ℕ → Type 0) (g : RadixIndex F) : Type 0 where
    pub path : ℕ → List ℕ
    pub trie : IsTrie R path g.nodes

  IsTrie-weaken :
      (R S : ℕ → List ℕ → Type 0) (path : ℕ → List ℕ) (nodes : List (Node F))
      → ((w : ℕ) (s : List ℕ) → R w s → S w s)
      → IsTrie R path nodes
      → IsTrie S path nodes
  IsTrie-weaken R S path nodes h t = record {
    rooted = t.rooted;
    inhabited = t.inhabited;
    linked = t.linked;
    held = λ i n e.
        All-weaken (λ w. R w (path i)) (λ w. S w (path i)) n.workers (λ w r. h w (path i) r)
          (t.held i n e);
    owner = t.owner;
    owned = t.owned;
    keyed_once = t.keyed_once;
  }

  insert-IsIndex :
      (R : ℕ → List ℕ → Type 0) (closed : IsPrefixClosed R) (worker : ℕ) (tokens : List ℕ) (now : F)
      (g : RadixIndex F)
      → IsIndex R g
      → R worker tokens
      → (g' : RadixIndex F) × (insert worker tokens now g ≡ some g') × IsIndex R g'
  unfolding insert
  insert-IsIndex R closed worker tokens now g ix r =
      elim (Bool-cases
        (ltb (length tokens) g.min_prefix_tokens || leb g.max_nodes (length g.nodes))) [
          | inl skip ↦ (g, rw skip, ix)
          | inr go ↦
              let at_root : ix.path 0 ++ tokens ≡ tokens = ap (λ u. u ++ tokens) ix.trie.rooted in
              let known : R worker (ix.path 0 ++ tokens) = subst (R worker) (sym at_root) r in
              let (touched, e, t, same) =
                touch_at-IsTrie R worker now ix.path 0 g.nodes ix.trie ix.trie.inhabited
                  (closed worker (ix.path 0) tokens known) in
              let i =
                insert_loop-Inserted R closed worker now (length tokens) ix.path tokens 0 touched
                  (omega arith) t t.inhabited known in
              (
                record g { nodes = i.nodes },
                ground (arith, e, i.ended),
                record { path = i.path; trie = i.trie },
              )
        ]

  forget_worker-IsIndex :
      (R : ℕ → List ℕ → Type 0) (worker : ℕ) (g : RadixIndex F)
      → IsIndex R g
      → IsIndex (λ w s. R w s × (worker ≢ w)) (forget_worker worker g)
  unfolding forget_worker
  forget_worker-IsIndex R worker g ix =
      let f = forget_at {F = F} worker in
      record {
        path = ix.path;
        trie = record {
          rooted = ix.trie.rooted;
          inhabited = omega (arith, length-map f g.nodes, ix.trie.inhabited);
          linked = λ i m key child e l.
              let (n, at_i, is) = get_elem?-map f g.nodes i m e in
              let k =
                ix.trie.linked i n key child at_i
                  (subst (λ (v : Node F). lookup key v.children ≡ some child) (sym is) l) in
              record {
                node = f k.node;
                tail = k.tail;
                stands = map-get_elem? f g.nodes child k.node k.stands;
                starts = k.starts;
                spells = k.spells;
              };
          held = λ i m e.
              let (n, at_i, is) = get_elem?-map f g.nodes i m e in
              subst (λ (v : Node F). All (λ w. R w (ix.path i) × (worker ≢ w)) v.workers) is
                (All-retain_ne (λ w. R w (ix.path i)) worker n.workers (ix.trie.held i n at_i));
          owner = ix.trie.owner;
          owned = λ i m key child e l.
              let (n, at_i, is) = get_elem?-map f g.nodes i m e in
              ix.trie.owned i n key child at_i
                (subst (λ (v : Node F). lookup key v.children ≡ some child) (sym is) l);
          keyed_once = λ i m e.
              let (n, at_i, is) = get_elem?-map f g.nodes i m e in
              subst (λ (v : Node F). Distinct v.children) is (ix.trie.keyed_once i n at_i);
        };
      }

get_elem?-singleton {ℓ} :
    {A : Type ℓ} (v : A) (i : ℕ) (a : A) → get_elem? (v ∷ []) i ≡ some a → v ≡ a
get_elem?-singleton v zero a e = some-injective v a e
get_elem?-singleton v (suc i) a e = cc

module _ {F : Type 0} (fl : Floats F) where
  fresh-IsIndex :
      (R : ℕ → List ℕ → Type 0) (min_prefix_tokens max_nodes : ℕ)
      → IsIndex R (new fl min_prefix_tokens max_nodes)
  unfolding new lookup
  fresh-IsIndex R min_prefix_tokens max_nodes = record {
    path = λ i. [];
    trie = record {
      rooted = refl;
      inhabited = omega arith;
      linked = λ i n key child e l. cc (
          subst (λ (v : Node F). lookup key v.children ≡ some child)
            (sym (get_elem?-singleton (new_node [] (fl.literal 0 1)) i n e)) l);
      held = λ i n e.
          subst (λ (v : Node F). All (λ w. R w []) v.workers)
            (get_elem?-singleton (new_node [] (fl.literal 0 1)) i n e) tt;
      owner = λ child. 0;
      owned = λ i n key child e l. cc (
          subst (λ (v : Node F). lookup key v.children ≡ some child)
            (sym (get_elem?-singleton (new_node [] (fl.literal 0 1)) i n e)) l);
      keyed_once = λ i n e.
          subst (λ (v : Node F). Distinct v.children)
            (get_elem?-singleton (new_node [] (fl.literal 0 1)) i n e) tt;
    };
  }

  prune-IsIndex :
      (R : ℕ → List ℕ → Type 0) (now ttl_ms : F) (g : RadixIndex F)
      → IsIndex R g
      → (g' : RadixIndex F) × (removed : ℕ) × (prune fl now ttl_ms g ≡ some (g', removed))
        × IsIndex R g'
  unfolding prune
  prune-IsIndex R now ttl_ms g ix =
      let (left, total, path, e, t) =
        prune_loop-IsTrie fl R now ttl_ms (length g.nodes) ix.path g.nodes 0 (omega arith)
          ix.trie in
      (record g { nodes = left }, total, ground (arith, e), record { path = path; trie = t })

  unfoldable pub call : Call F → RadixIndex F → Option (RadixIndex F)
  call (recorded worker tokens now) g = insert worker tokens now g
  call (forgot worker) g = some (forget_worker worker g)
  call cleared g = some (clear fl g)
  call (pruned now ttl_ms) g = do (g', removed) ← prune fl now ttl_ms g; some g'

  unfoldable pub run : List (Call F) → RadixIndex F → Option (RadixIndex F)
  run [] g = some g
  run (c ∷ calls) g = do g' ← call c g; run calls g'

  call-IsIndex :
      (R : ℕ → List ℕ → Type 0) (closed : IsPrefixClosed R) (c : Call F) (g : RadixIndex F)
      → IsIndex R g
      → (g' : RadixIndex F) × (call c g ≡ some g') × IsIndex (After c R) g'
  unfolding call clear new
  call-IsIndex R closed (recorded worker tokens now) g ix =
      insert-IsIndex (After (recorded worker tokens now) R)
        (After-IsPrefixClosed (recorded worker tokens now) R closed) worker tokens now g
        (record {
          path = ix.path;
          trie =
              IsTrie-weaken R (After (recorded worker tokens now) R) ix.path g.nodes
                (λ w s r. inl r) ix.trie;
        })
        (inr (record { back = []; mine = refl; splits = append-nil tokens }))
  call-IsIndex R closed (forgot worker) g ix =
      (forget_worker worker g, refl, forget_worker-IsIndex R worker g ix)
  call-IsIndex R closed cleared g ix =
      let c : Call F = cleared in
      let fresh = fresh-IsIndex (After c R) 0 0 in
      (clear fl g, refl, record { path = fresh.path; trie = fresh.trie })
  call-IsIndex R closed (pruned now ttl_ms) g ix =
      let (g', removed, e, ix') = prune-IsIndex R now ttl_ms g ix in (g', rw e refl, ix')

  -- What is known at the end: what was known at first and survives, or what the calls recorded.
  abbrev Known : (ℕ → List ℕ → Type 0) → List (Call F) → ℕ → List ℕ → Type 0
  Known R calls w s = (R w s × Survives calls w) ⊎ Recorded calls w s

  Known-After :
      (R : ℕ → List ℕ → Type 0) (c : Call F) (calls : List (Call F)) (w : ℕ) (s : List ℕ)
      → Known (After c R) calls w s
      → Known R (c ∷ calls) w s
  Known-After R (recorded worker tokens now) calls w s (inl (inl r, lives)) = inl (r, lives)
  Known-After R (recorded worker tokens now) calls w s (inl (inr k, lives)) = inr (inl (k, lives))
  Known-After R (recorded worker tokens now) calls w s (inr k) = inr (inr k)
  Known-After R (forgot worker) calls w s (inl ((r, ne), lives)) = inl (r, (ne, lives))
  Known-After R (forgot worker) calls w s (inr k) = inr k
  Known-After R cleared calls w s (inl (r, lives)) = elim r [ ]
  Known-After R cleared calls w s (inr k) = inr k
  Known-After R (pruned now ttl_ms) calls w s known = known

  run-IsIndex :
      (R : ℕ → List ℕ → Type 0) (closed : IsPrefixClosed R) (calls : List (Call F))
      (g : RadixIndex F)
      → IsIndex R g
      → (g' : RadixIndex F) × (S : ℕ → List ℕ → Type 0) × (run calls g ≡ some g')
        × IsPrefixClosed S
        × IsIndex S g'
        × ((w : ℕ) (s : List ℕ) → S w s → Known R calls w s)
  unfolding run
  run-IsIndex R closed [] g ix = (g, R, refl, closed, ix, λ w s r. inl (r, tt))
  run-IsIndex R closed (c ∷ calls) g ix =
      let (g', e, ix') = call-IsIndex R closed c g ix in
      let (g'', S, e', closed', ix'', known) =
        run-IsIndex (After c R) (After-IsPrefixClosed c R closed) calls g' ix' in
      (g'', S, ground (arith, e), closed', ix'', λ w s r. Known-After R c calls w s (known w s r))

  take-front : (front back : List ℕ) → take (length front) (front ++ back) ≡ front
  take-front [] back = refl
  take-front (x ∷ front) back = ap (λ u. x ∷ u) (take-front front back)

  -- After any sequence of `insert`, `forget_worker`, `clear` and `prune` on a new index, none of
  -- which can fail, `match_workers` ends, and
  -- credits a worker with k tokens only if k is at most the length of the prompt, and some prompt
  -- recorded for that worker, and neither forgotten nor cleared since, starts with the first k
  -- tokens of this one.
  pub match_workers-Recorded :
      (min_prefix_tokens max_nodes : ℕ) (calls : List (Call F)) (tokens : List ℕ)
      → (g : RadixIndex F) × (out : Map ℕ) × (run calls (new fl min_prefix_tokens max_nodes)
          ≡ some g)
        × (match_workers tokens g ≡ some out)
        × All (λ e. (e.1 ≤ length tokens) × Recorded calls e.0 (take e.1 tokens)) out
  unfolding match_workers
  match_workers-Recorded min_prefix_tokens max_nodes calls tokens =
      let (g, S, e, closed, ix, known) =
        run-IsIndex (λ _ _. ⊥) (λ w s t r. r) calls (new fl min_prefix_tokens max_nodes)
          (fresh-IsIndex (λ _ _. ⊥) min_prefix_tokens max_nodes) in
      let m =
        match_loop-Matched S closed tokens ix.path g.nodes ix.trie (suc (length tokens)) tokens 0 0
          [] (omega arith) ix.trie.inhabited (ap (λ u. u ++ tokens) ix.trie.rooted)
          (ap length ix.trie.rooted) tt in
      (
        g,
        m.out,
        e,
        m.answers,
        All-weaken (IsCredit S tokens)
            (λ e. (e.1 ≤ length tokens) × Recorded calls e.0 (take e.1 tokens)) m.out
            (λ e c. (
              omega (arith, c.measured, ap length c.splits, length-append {0} c.front c.back),
              elim (known e.0 c.front c.known) [
                | inl (none_known, _) ↦ absurd none_known
                | inr k ↦
                    subst (Recorded calls e.0)
                      (sym (take-front c.front c.back) ∙ (λ i. take (c.measured i) (c.splits i))) k
              ],
            ))
            m.credits,
      )
