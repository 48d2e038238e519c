-- ===== src/Router/Policy/Route.antt =====
-- router/src/policy.rs, `route`: what it answers on a registry and an index in use.
use trt_llm_rs.Prelude.{
  ℕ, ◌≤◌, ◌≡◌, ◌≢◌, ◌⊎◌, inl, inr, refl, sym, subst, ◌∙◌, Option, none, some, List, [], ◌∷◌, true,
  arith, length, take, compare, All, Bool-cases, Option-cases,
}
use trt_llm_rs.Prelude.Float.{Floats}
use trt_llm_rs.Prelude.Assoc.{Map, lookup, All-lookup}
use trt_llm_rs.Prelude.Sort.{
  IsTotal, le_by, then_cmp-IsTotal, reverse-IsTotal, key-IsTotal, compare-IsTotal,
}
use trt_llm_rs.Prelude.Pick.{max_by_keeps, le_by-max_by}
use trt_llm_rs.Router.Registry.{WorkerState, WorkerRegistry, prefill, decode, live, decode_headroom}
use trt_llm_rs.Router.Registry.Live.{IsRegistry}
use trt_llm_rs.Kvcache.Radix.{RadixIndex, match_workers, ◌>>=◌}
use trt_llm_rs.Kvcache.Radix
use trt_llm_rs.Kvcache.Radix.History.{Call, Recorded, run, match_workers-Recorded}
use trt_llm_rs.Router.Policy.{
  no_prefill_worker, no_decode_worker, RoutingDecision, RouterTuning, Router, Routed, routed,
  refused, Best, hit_of, cost_of, is_better, pick, by_room, choose, route,
}
use trt_llm_rs.Router.Registry.Serving.{IsServing, live-IsServing}

worker-cases :
    {F : Type 0} (ws : List (WorkerState F))
    → (ws ≡ []) ⊎ ((w : WorkerState F) × (rest : List (WorkerState F)) × (ws ≡ w ∷ rest))
worker-cases [] = inl refl
worker-cases (w ∷ ws) = inr (w, ws, refl)

module _ {F : Type 0} (fl : Floats F) where
  -- The candidate that stands for a worker of the pool.
  record IsOffer (tuning : RouterTuning F) (prompt : List ℕ) (overlaps : Map ℕ)
      (P : WorkerState F → Type 0) (b : Best F) : Type 0 where
    worker : WorkerState F
    in_pool : P worker
    names : b.id ≡ worker.id
    hits : b.hit ≡ hit_of overlaps prompt worker
    costs : b.cost ≡ cost_of fl tuning prompt worker b.hit

  record Picked (tuning : RouterTuning F) (prompt : List ℕ) (overlaps : Map ℕ)
      (P : WorkerState F → Type 0) (tried : Option (Best F)) : Type 0 where
    best : Best F
    found : tried ≡ some best
    offer : IsOffer tuning prompt overlaps P best

  module _ (tuning : RouterTuning F) (prompt : List ℕ) (overlaps : Map ℕ)
      (P : WorkerState F → Type 0) where
    pick_from :
        (ws : List (WorkerState F)) (b : Best F)
        → IsOffer tuning prompt overlaps P b
        → All P ws
        → Picked tuning prompt overlaps P (pick fl tuning prompt overlaps ws (some b))
    unfolding pick
    pick_from [] b o ps = record { best = b; found = refl; offer = o }
    pick_from (w ∷ ws) b o (p, ps) =
        let hit = hit_of overlaps prompt w in
        let cost = cost_of fl tuning prompt w hit in
        elim (Bool-cases (is_better fl cost w.id (some b))) [
          | inl better ↦
              rw (better, pick)
                (pick_from ws (record { cost = cost; id = w.id; hit = hit })
                  (record { worker = w; in_pool = p; names = refl; hits = refl; costs = refl }) ps)
          | inr not_better ↦ rw (not_better, pick) (pick_from ws b o ps)
        ]

    pick-Picked :
        (w : WorkerState F) (ws : List (WorkerState F))
        → All P (w ∷ ws)
        → Picked tuning prompt overlaps P (pick fl tuning prompt overlaps (w ∷ ws) none)
    unfolding pick is_better
    pick-Picked w ws (p, ps) =
        let hit = hit_of overlaps prompt w in
        pick_from ws (record { cost = cost_of fl tuning prompt w hit; id = w.id; hit = hit })
          (record { worker = w; in_pool = p; names = refl; hits = refl; costs = refl }) ps

  by_room-IsTotal : IsTotal fl.total_cmp → IsTotal (by_room fl)
  by_room-IsTotal t =
      then_cmp-IsTotal _ _
        (then_cmp-IsTotal _ _ (key-IsTotal (decode_headroom fl) fl.total_cmp t) (
          reverse-IsTotal (λ a b. fl.total_cmp a.load.kv_utilisation b.load.kv_utilisation)
            (key-IsTotal (λ (w : WorkerState F). w.load.kv_utilisation) fl.total_cmp t)))
        (reverse-IsTotal (λ a b. compare a.id b.id)
          (key-IsTotal (λ (w : WorkerState F). w.id) compare compare-IsTotal))

  -- The choice that the router makes, against the calls that built its index.
  pub record IsChoice (g : WorkerRegistry F) (tuning : RouterTuning F) (calls : List (Call F))
      (prompt : List ℕ) (now budget : F) (d : RoutingDecision F) : Type 0 where
    pub prefiller : WorkerState F
    pub prefiller-IsServing : IsServing fl prefill now g prefiller
    pub prefill_id : d.prefill_id ≡ prefiller.id
    pub hit_bound : d.prefix_hit_tokens ≤ length prompt
    pub hit_known :
        (d.prefix_hit_tokens ≡ 0) ⊎ Recorded calls prefiller.id (take d.prefix_hit_tokens prompt)
    pub predicted : d.predicted_ttft_ms ≡ cost_of fl tuning prompt prefiller d.prefix_hit_tokens
    pub late : d.predicted_late ≡ fl.lt budget d.predicted_ttft_ms
    pub decoder : WorkerState F
    pub decoder-IsServing : IsServing fl decode now g decoder
    pub decode_id : d.decode_id ≡ decoder.id
    pub roomiest : All (λ w. le_by (by_room fl) w decoder ≡ true) (live fl decode now g)

  -- A refusal names the pool that is empty, the prefill pool first; a decision is a choice.
  abbrev pub IsAnswer :
      WorkerRegistry F
      → RouterTuning F
      → List (Call F)
      → List ℕ
      → F
      → F
      → Option (Routed F)
      → Type 0
  IsAnswer g tuning calls prompt now budget none = ⊥
  IsAnswer g tuning calls prompt now budget (some (refused no_prefill_worker)) =
      live fl prefill now g ≡ []
  IsAnswer g tuning calls prompt now budget (some (refused no_decode_worker)) =
      (live fl prefill now g ≢ []) × (live fl decode now g ≡ [])
  IsAnswer g tuning calls prompt now budget (some (routed d)) =
      IsChoice g tuning calls prompt now budget d

  hit_lem :
      (overlaps : Map ℕ) (prompt : List ℕ) (calls : List (Call F)) (w : WorkerState F)
      → All (λ e. (e.1 ≤ length prompt) × Recorded calls e.0 (take e.1 prompt)) overlaps
      → (hit_of overlaps prompt w ≤ length prompt)
        × ((hit_of overlaps prompt w ≡ 0)
            ⊎ Recorded calls w.id (take (hit_of overlaps prompt w) prompt))
  unfolding hit_of
  hit_lem overlaps prompt calls w credits = elim (Option-cases (lookup w.id overlaps)) [
    | inl absent ↦ (ground arith, inl (ground arith))
    | inr (k, found) ↦
        let (bound, known) =
          All-lookup (λ e. (e.1 ≤ length prompt) × Recorded calls e.0 (take e.1 prompt)) w.id k
            overlaps found credits in
        (ground arith, inr (subst (λ m. Recorded calls w.id (take m prompt)) (ground arith) known))
  ]

  module _ (total : IsTotal fl.total_cmp) (g : WorkerRegistry F) (valid : IsRegistry g)
      (tuning : RouterTuning F) (calls : List (Call F)) (prompt : List ℕ) (now budget : F) where
    record Chosen (tried : Option (RoutingDecision F)) : Type 0 where
      decision : RoutingDecision F
      made : tried ≡ some decision
      choice : IsChoice g tuning calls prompt now budget decision

    choose-Chosen :
        (overlaps : Map ℕ) (p : WorkerState F) (ps : List (WorkerState F)) (d : WorkerState F)
        (ds : List (WorkerState F))
        → live fl prefill now g ≡ p ∷ ps
        → live fl decode now g ≡ d ∷ ds
        → All (λ e. (e.1 ≤ length prompt) × Recorded calls e.0 (take e.1 prompt)) overlaps
        → Chosen
            (choose fl tuning prompt budget overlaps (live fl prefill now g) (live fl decode now g))
    unfolding choose
    choose-Chosen overlaps p ps d ds is_p is_d credits =
        let picked =
          pick-Picked tuning prompt overlaps (IsServing fl prefill now g) p ps (
            subst (All (IsServing fl prefill now g)) is_p
              (live-IsServing fl prefill now g valid)) in
        let (m, is_m, serves) =
          max_by_keeps (by_room fl) (IsServing fl decode now g) d ds
            (subst (All (IsServing fl decode now g)) is_d (live-IsServing fl decode now g valid)) in
        let o = picked.offer in
        let (bound, known) = hit_lem overlaps prompt calls o.worker credits in
        record {
          decision = record {
            prefill_id = picked.best.id;
            decode_id = m.id;
            prefix_hit_tokens = picked.best.hit;
            predicted_ttft_ms = picked.best.cost;
            predicted_late = fl.lt budget picked.best.cost;
          };
          made = rw (is_p, is_d) (rw (picked.found) (rw is_m));
          choice = record {
            prefiller = o.worker;
            prefiller-IsServing = o.in_pool;
            prefill_id = o.names;
            hit_bound = omega (arith, o.hits);
            hit_known =
                subst (λ k. (k ≡ 0) ⊎ Recorded calls o.worker.id (take k prompt)) (sym o.hits)
                  known;
            predicted = o.costs;
            late = refl;
            decoder = m;
            decoder-IsServing = serves;
            decode_id = refl;
            roomiest = rw is_d (le_by-max_by (by_room fl) (by_room-IsTotal total) (d ∷ ds) m is_m);
          };
        }

    -- On a registry that holds each worker under its id, and an index after any sequence of `insert`,
    -- `forget_worker`, `clear` and `prune`, `route`
    -- does not panic, if the total order on `f64` is one. It refuses for want of a prefill worker
    -- exactly when no prefill worker is live, and else for want of a decode worker exactly when none
    -- is. Otherwise its prefill worker is registered and live, the hit is at most the length of the
    -- prompt, and is 0 or the length of a prefix that was recorded for that worker, and neither
    -- forgotten nor cleared since, the predicted time is that worker's queue and the rest of the
    -- prompt at its rate plus the transfer, and the request is late exactly if that is over its
    -- budget; and the decode worker is registered and live, and no live one goes before it in the
    -- order by room, by cache in use and by id.
    pub route_total :
        (g' : RadixIndex F) × (run fl calls (Radix.new fl tuning.min_prefix_tokens 65_536)
          ≡ some g')
        × IsAnswer g tuning calls prompt now budget (
            route fl prompt now budget
              (record { registry = g; prefix_index = g'; tuning = tuning }))
    unfolding route
    route_total =
        let (g', out, ran, matched, credits) =
          match_workers-Recorded fl tuning.min_prefix_tokens 65_536 calls prompt in
        (
          g',
          ran,
          elim (worker-cases (live fl prefill now g)) [
            | inl no_p ↦ rw no_p no_p
            | inr (p, ps, is_p) ↦ elim (worker-cases (live fl decode now g)) [
              | inl no_d ↦ rw (is_p, no_d) ((λ e. cc (sym is_p ∙ e)), no_d)
              | inr (d, ds, is_d) ↦
                  let c = choose-Chosen out p ps d ds is_p is_d credits in
                  let r : Router F = record { registry = g; prefix_index = g'; tuning = tuning } in
                  let answer : route fl prompt now budget r ≡ some (routed c.decision) =
                    ground (arith, is_p, is_d, matched, c.made) in
                  subst (IsAnswer g tuning calls prompt now budget) (sym answer) c.choice
            ]
          ],
        )
