-- ===== src/Lib.antt =====
-- The control plane of a disaggregated inference service (crates/): its KV block pool and prefix cache,
-- the schedulers of prefill and decode, the decision that the Python extension makes for each step of
-- the engine, the resharding of a KV cache, the router with its registry and its index of prefixes, the
-- transport that streams tokens from a worker, the verdicts on a request and on a run, and the capacity
-- model that predicts the run.
--
-- A prefill worker keeps a `PrefillScheduler`; its `plan` asks `order_jobs` for an order and fills a
-- batch, and `complete` folds the batch back in. A decode worker keeps a `DecodeScheduler`, which
-- admits sequences under the cap of its `ItlController` and books the steps of the engine. Both take
-- blocks from a `BlockPool`, in which the `PrefixCache` finds those that hold a prompt already. When a
-- request moves from one worker to the other, `Reshard` says which rank gets which head. The router's
-- `route` takes the live workers of the `WorkerRegistry` and asks the `RadixIndex` which of them holds how
-- much of a prompt; a `RequestStream` turns the events of a `Transport` into tokens and one end.
--
-- Which file models what:
--   * Prelude and below: Boolean tests, lists and counts over the native numbers, machine words, a
--     stable sort, association lists for hash maps, integers, and `f64` as an interface (Float).
--   * Kvcache/Pool: crates/kvcache/src/pool.rs, with `blocks_for` of lib.rs. `alloc`, `release`, ... are
--     the methods of `BlockPool`; they return a `Result`, in which `panicked` is an index past the end.
--   * Kvcache/Prefix: crates/kvcache/src/prefix.rs. `lookup` takes the cache and the pool and returns
--     both; `insert` and `forget` change the cache.
--   * Pyext/Decide: `decide_indices` of crates/pyext/src/decide.rs, its loops as recursions over the
--     sorted candidates.
--   * Sched/Policy: crates/sched/src/policy.rs; `none` is a panic of `expect`.
--   * Sched/Prefill: crates/sched/src/prefill.rs; `fill_pass` is the loop of `plan`, and `Flow` says
--     whether it breaks or goes on.
--   * Sched/Controller and Sched/Decode: crates/sched/src/decode.rs, the controller and the scheduler.
--   * Transfer/Reshard and Transfer/Local: crates/transfer/src/reshard.rs, local.rs and lib.rs.
--   * Kvcache/Radix: crates/kvcache/src/radix.rs. The nodes are a list, and name one another by position;
--     `none` is an index past the end. Trie, Grow, Split and Insert keep the trie under
--     `insert`, Unlink, Relink, Shrink and Sweep under `prune`; Match reads it, and History compares the
--     answers with the calls.
--   * Router/Registry and Router/Policy: crates/router/src/registry.rs and policy.rs.
--   * Wire/Sse, Wire/Http and Wire/Stream: crates/wire/src/transport.rs, its frames, its HTTP transport on
--     the chunks that the client yields, and the stream of a request; Wire/Telemetry: telemetry.rs. The
--     client and serde_json are parameters, and text is its bytes.
--   * Core/Outcome and Core/Report: crates/core/src/slo.rs, the outcome of a request in request.rs, and
--     stats.rs; Core/Request: the rest of request.rs.
--   * Core/Calibration and Core/Capacity: crates/core/src/capacity.rs, the measured rates, and the model
--     that `evaluate`s a split and `search`es for the best; `none` is a panic of `clamp` or `expect`. Its
--     child Gap says what a target requires.
--   * Core/Run: crates/core/src/verdict.rs, which compares a run with its prediction.
--
-- Numbers: a `u32` or `u64` counter that is added to wraps, as in a release build, or saturates where
-- the source says so; a `usize` that counts entries or tokens in memory is not bounded. A hash set or map is
-- a list, and no operation that is modelled depends on its order. `f64` is a record of operations
-- (`Floats`): a theorem that needs more of it says so in a hypothesis, and the witnesses take the
-- integers for it (Prelude/Whole).
--
-- Fuel and loops: `chunks_exact` runs on fuel, which is the length of the tokens, and each chunk takes at
-- least one of them. `insert_loop` and `match_loop` of the radix index run on the number of tokens that are
-- left, of which each round takes at least one; `prune_loop` on the number of nodes, of which each round
-- removes one; `search_from` on the number of GPUs, of which each round takes at least one; `next_event`
-- on any fuel over the bytes and chunks that are left. That this is enough is part of the theorems. Every
-- other loop is over a list or a count that the source fixes before it.
--
-- Not modelled: the engines, the simulator, the remedies, the tuner, the configuration, the async loops
-- of the workers, and all input and output.
pub mod Core
pub mod Kvcache
pub mod Prelude
pub mod Pyext
pub mod Router
pub mod Sched
pub mod Transfer
pub mod Wire
