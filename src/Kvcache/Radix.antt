-- ===== src/Kvcache/Radix.antt =====
-- crates/kvcache/src/radix.rs: the router's approximate index of prefixes, a radix trie whose nodes
-- stand in one vector and name one another by position. `none` is a read out of bounds, the panic
-- of the source, or the end of the fuel; Kvcache/Radix/Insert and Match show that neither occurs.
pub mod Bounds
pub mod Descend
pub mod Detach
pub mod Grow
pub mod History
pub mod Insert
pub mod Match
pub mod Prune
pub mod Relink
pub mod Shrink
pub mod Split
pub mod Sweep
mod Tests
pub mod Trie
pub mod Unlink
use trt_llm_rs.Prelude.{
  ℕ, zero, suc, ◌+◌, ◌-◌, max, ◌||◌, Bool, true, false, not, ◌&&◌, Option, none, some, List, [],
  ◌∷◌, ◌++◌, map, ltb, leb, ◌==◌, if◌then◌else◌, length, take, drop, get_elem?, get_or, set,
}
use trt_llm_rs.Prelude.Assoc.{Map, lookup}
use trt_llm_rs.Prelude.Assoc
use trt_llm_rs.Prelude.Counts.{contains, retain_ne}
use trt_llm_rs.Prelude.Float.{Floats}

infixl 5 ◌>>=◌
abbrev pub ◌>>=◌ {ℓ κ} : {A : Type ℓ} {B : Type κ} → Option A → (A → Option B) → Option B
none >>= f = none
some a >>= f = f a

pub record Node (F : Type 0) : Type 0 where
  pub edge : List ℕ
  pub children : Map ℕ
  pub workers : List ℕ
  pub last_access_ms : F

pub record RadixIndex (F : Type 0) : Type 0 where
  pub nodes : List (Node F)
  pub min_prefix_tokens : ℕ
  pub max_nodes : ℕ

abbrev pub root : ℕ
root = 0

unfoldable pub common_prefix_len : List ℕ → List ℕ → ℕ
common_prefix_len [] ys = 0
common_prefix_len (x ∷ xs) [] = 0
common_prefix_len (x ∷ xs) (y ∷ ys) = if x == y then suc (common_prefix_len xs ys) else 0

-- `record`: the longest prefix seen so far, for each worker.
unfoldable pub record_workers : List ℕ → ℕ → Map ℕ → Map ℕ
record_workers [] matched out = out
record_workers (w ∷ ws) matched out =
    let e : ℕ = elim (lookup w out) [ none ↦ 0 | some k ↦ k ] in
    record_workers ws matched (Assoc.insert w (max e matched) out)

-- The key under which a node names another.
unfoldable pub key_of : ℕ → Map ℕ → Option ℕ
key_of node [] = none
key_of node ((key, child) ∷ others) =
    let rest = key_of node others in if child == node then some key else rest

-- The outcome of one round of the loop of `insert`.
pub data Round (F : Type 0) : Type 0 where
  done : List (Node F) → Round F
  next : List ℕ → ℕ → List (Node F) → Round F

module _ {F : Type 0} where
  unfoldable pub new_node : List ℕ → F → Node F
  new_node edge now = record { edge = edge; children = []; workers = []; last_access_ms = now }

  unfoldable pub touch : ℕ → F → Node F → Node F
  touch worker now n =
      let held = if contains n.workers worker then n.workers else n.workers ++ worker ∷ [] in
      record n { last_access_ms = now; workers = held }

  -- `self.nodes[at].touch(worker, now)`.
  unfoldable pub touch_at : ℕ → F → ℕ → List (Node F) → Option (List (Node F))
  unfolding touch
  touch_at worker now at nodes = do n ← get_elem? nodes at; some (set nodes at (touch worker now n))

  -- `split(child, at, now)`, with the node that stands at `child`.
  unfoldable pub split : ℕ → Node F → ℕ → F → List (Node F) → Option (List (Node F))
  split child n at now nodes = elim (drop at n.edge) [
    | [] ↦ none
    | tail_first ∷ tail_rest ↦
        let tail : Node F = record {
          edge = tail_first ∷ tail_rest;
          children = n.children;
          workers = n.workers;
          last_access_ms = now;
        } in
        let head : Node F = record n {
          edge = take at n.edge;
          children = (tail_first, length nodes) ∷ [];
        } in
        some (set nodes child head ++ tail ∷ [])
  ]

  -- The branch that finds no child: the rest of the tokens become a leaf.
  unfoldable pub add_leaf : ℕ → F → ℕ → List ℕ → ℕ → Node F → List (Node F) → List (Node F)
  unfolding touch new_node
  add_leaf worker now first rest cur n nodes =
      let parent : Node F = record n { children = Assoc.insert first (length nodes) n.children } in
      set nodes cur parent ++ touch worker now (new_node (first ∷ rest) now) ∷ []

  -- The branch that finds one.
  unfoldable pub descend : ℕ → F → List ℕ → ℕ → List (Node F) → Option (Round F)
  unfolding split touch_at common_prefix_len
  descend worker now tokens child nodes = do
    n ← get_elem? nodes child
    let common = common_prefix_len n.edge tokens
    nodes' ← if ltb common (length n.edge) then split child n common now nodes else some nodes
    nodes'' ← touch_at worker now child nodes'
    some (next (drop common tokens) child nodes'')

  unfoldable pub insert_round : ℕ → F → ℕ → List ℕ → ℕ → List (Node F) → Option (Round F)
  unfolding descend add_leaf
  insert_round worker now first rest cur nodes = do
    n ← get_elem? nodes cur
    elim (lookup first n.children) [
      | none ↦ some (done (add_leaf worker now first rest cur n nodes))
      | some child ↦ descend worker now (first ∷ rest) child nodes
    ]

  -- The loop of `insert`; `tokens` are those from position `i` on.
  unfoldable pub insert_loop : ℕ → ℕ → F → List ℕ → ℕ → List (Node F) → Option (List (Node F))
  unfolding insert_round
  insert_loop fuel worker now [] cur nodes = some nodes
  insert_loop zero worker now (first ∷ rest) cur nodes = none
  insert_loop (suc fuel) worker now (first ∷ rest) cur nodes =
      elim (insert_round worker now first rest cur nodes) [
        | none ↦ none
        | some (done ended) ↦ some ended
        | some (next later child moved) ↦ insert_loop fuel worker now later child moved
      ]

  unfoldable pub insert : ℕ → List ℕ → F → RadixIndex F → Option (RadixIndex F)
  unfolding insert_loop touch_at
  insert worker tokens now g =
      if ltb (length tokens) g.min_prefix_tokens || leb g.max_nodes (length g.nodes)
      then some g
      else (do
        touched ← touch_at worker now root g.nodes
        ended ← insert_loop (length tokens) worker now tokens root touched
        some (record g { nodes = ended }))

  -- The loop of `match_workers`; `rest` are the tokens from position `matched` on.
  unfoldable pub match_loop : ℕ → List ℕ → ℕ → ℕ → List (Node F) → Map ℕ → Option (Map ℕ)
  unfolding record_workers common_prefix_len
  match_loop zero rest matched cur nodes out = none
  match_loop (suc fuel) rest matched cur nodes out = do
    n ← get_elem? nodes cur
    let credited = record_workers n.workers matched out
    elim rest [
      | [] ↦ some credited
      | token ∷ others ↦ elim (lookup token n.children) [
        | none ↦ some credited
        | some child ↦ elim (get_elem? nodes child) [
          | none ↦ none
          | some c ↦
              let common = common_prefix_len c.edge (token ∷ others) in
              elim (ltb common (length c.edge)) [
                | true ↦ some (record_workers c.workers (matched + common) credited)
                | false ↦
                    match_loop fuel (drop common (token ∷ others)) (matched + common) child nodes
                      credited
              ]
        ]
      ]
    ]

  unfoldable pub match_workers : List ℕ → RadixIndex F → Option (Map ℕ)
  unfolding match_loop
  match_workers tokens g = match_loop (suc (length tokens)) tokens 0 root g.nodes []

  unfoldable pub match_worker : ℕ → List ℕ → RadixIndex F → Option ℕ
  match_worker worker tokens g = do
    out ← match_workers tokens g
    some (elim (lookup worker out) [ none ↦ 0 | some k ↦ k ])

  unfoldable pub forget_at : ℕ → Node F → Node F
  forget_at worker n = record n { workers = retain_ne worker n.workers }

  unfoldable pub forget_worker : ℕ → RadixIndex F → RadixIndex F
  unfolding forget_at
  forget_worker worker g = record g { nodes = map (forget_at worker) g.nodes }

  unfoldable pub node_count : RadixIndex F → ℕ
  node_count g = length g.nodes

  unfoldable pub is_empty : RadixIndex F → Bool
  is_empty g = leb (length g.nodes) 1

  unfoldable pub find_parent_from : ℕ → ℕ → List (Node F) → Option (ℕ × ℕ)
  unfolding key_of
  find_parent_from i node [] = none
  find_parent_from i node (n ∷ ns) =
      let rest = find_parent_from (suc i) node ns in
      elim (key_of node n.children) [ none ↦ rest | some key ↦ some (i, key) ]

  unfoldable pub find_parent : ℕ → List (Node F) → Option (ℕ × ℕ)
  unfolding find_parent_from
  find_parent node nodes = find_parent_from 0 node nodes

  unfoldable pub edit_children : (Map ℕ → Map ℕ) → ℕ → List (Node F) → List (Node F)
  edit_children f at [] = []
  edit_children f zero (n ∷ ns) = record n { children = f n.children } ∷ ns
  edit_children f (suc at) (n ∷ ns) = n ∷ edit_children f at ns

  -- `pop`.
  unfoldable pub drop_last : List (Node F) → List (Node F)
  drop_last nodes = take (length nodes - 1) nodes

  unfoldable pub unlink : ℕ → List (Node F) → List (Node F)
  unfolding find_parent edit_children
  unlink victim nodes = elim (find_parent victim nodes) [
    | none ↦ nodes
    | some (parent, key) ↦ edit_children (Assoc.remove key) parent nodes
  ]

  unfoldable pub relink : ℕ → ℕ → List (Node F) → List (Node F)
  unfolding find_parent edit_children
  relink last victim nodes = elim (find_parent last nodes) [
    | none ↦ nodes
    | some (parent, key) ↦ edit_children (Assoc.insert key victim) parent nodes
  ]

  -- `detach`; after the swap the victim stands last, and is popped.
  unfoldable pub detach : ℕ → List (Node F) → List (Node F)
  unfolding unlink relink drop_last
  detach victim nodes =
      let unlinked = unlink victim nodes in
      let last = length unlinked - 1 in
      if victim == last
      then drop_last unlinked
      else (let relinked = relink last victim unlinked in
          elim (get_elem? relinked last) [
            | none ↦ relinked
            | some moved ↦ drop_last (set relinked victim moved)
          ])

module _ {F : Type 0} (fl : Floats F) where
  unfoldable pub new : ℕ → ℕ → RadixIndex F
  unfolding new_node
  new min_prefix_tokens max_nodes = record {
    nodes = new_node [] (fl.literal 0 1) ∷ [];
    min_prefix_tokens = min_prefix_tokens;
    max_nodes = max max_nodes 1;
  }

  unfoldable pub clear : RadixIndex F → RadixIndex F
  unfolding new_node
  clear g = record g { nodes = new_node [] (fl.literal 0 1) ∷ [] }

  abbrev pub is_leaf : Node F → Bool
  is_leaf n = elim (n.children) [ [] ↦ true | _ ∷ _ ↦ false ]

  -- The test of `prune` on the node at a position.
  unfoldable pub is_stale : F → F → ℕ → Node F → Bool
  is_stale now ttl_ms i n =
      not (i == root) && is_leaf n && fl.lt ttl_ms (fl.sub now n.last_access_ms)

  unfoldable pub victim_from : F → F → ℕ → List (Node F) → Option ℕ
  unfolding is_stale
  victim_from now ttl_ms i [] = none
  victim_from now ttl_ms i (n ∷ ns) =
      let rest = victim_from now ttl_ms (suc i) ns in
      if is_stale now ttl_ms i n then some i else rest

  -- The loop of `prune`, with the nodes left and the number removed.
  unfoldable pub prune_loop : ℕ → F → F → List (Node F) → ℕ → Option (List (Node F) × ℕ)
  unfolding victim_from detach
  prune_loop zero now ttl_ms nodes removed = none
  prune_loop (suc fuel) now ttl_ms nodes removed = elim (victim_from now ttl_ms 0 nodes) [
    | none ↦ some (nodes, removed)
    | some victim ↦ prune_loop fuel now ttl_ms (detach victim nodes) (removed + 1)
  ]

  unfoldable pub prune : F → F → RadixIndex F → Option (RadixIndex F × ℕ)
  unfolding prune_loop
  prune now ttl_ms g = do
    (nodes, removed) ← prune_loop (length g.nodes) now ttl_ms g.nodes 0
    some (record g { nodes = nodes }, removed)
