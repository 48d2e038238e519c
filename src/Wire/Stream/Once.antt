-- ===== src/Wire/Stream/Once.antt =====
-- wire/src/transport.rs, `RequestStream`: one end, one cancellation at most, and tokens that add up.
use trt_llm_rs.Prelude.{
  ℕ, ◌+◌, ◌%◌, ◌≤◌, ◌<◌, ◌≡◌, refl, sym, subst, Option, none, some, List, [], ◌∷◌, Bool, true,
  false, arith, if◌then◌else◌,
}
use trt_llm_rs.Prelude.Words.{u32_mod}
use trt_llm_rs.Core.Request.{Request}
use trt_llm_rs.Wire.Sse.{Result, ok, err}
use trt_llm_rs.Wire.Telemetry.{observe_token}
use trt_llm_rs.Wire.Stream.{
  Transport, SerdeJson, StreamOutput, token, terminal, RequestStream, start, cleanup, fail, deliver,
  next_at, cancel_at, drop_stream,
}

-- What the owner of a stream can do with it before it drops it.
pub data Op (F : Type 0) : Type 0 where
  poll : F → Op F
  cancelled : F → Op F

abbrev pub Output : Type 0
Output = Result (Option StreamOutput)

-- A transport that counts its cancellations.
abbrev pub counted : {T : Type 0} → Transport T → Transport (T × ℕ)
counted tr = record {
  next_event = λ (t, n). let (t', r) = tr.next_event t in ((t', n), r);
  cancel = λ id (t, n). let (t', r) = tr.cancel id t in ((t', n + 1), r);
}

-- Tokens, then one end, a terminal output or an error, and then nothing.
abbrev pub Tells : Bool → List Output → Bool → Type 0
Tells ended [] ended' = ended ≡ ended'
Tells true (ok none ∷ outs) ended' = Tells true outs ended'
Tells false (ok (some (token _ _)) ∷ outs) ended' = Tells false outs ended'
Tells false (ok (some (terminal _)) ∷ outs) ended' = Tells true outs ended'
Tells false (err _ ∷ outs) ended' = Tells true outs ended'
Tells _ _ _ = ⊥

abbrev pub count_tokens : List Output → ℕ
count_tokens [] = 0
count_tokens (ok (some (token _ _)) ∷ outs) = count_tokens outs + 1
count_tokens (_ ∷ outs) = count_tokens outs

Tells-tail :
    (e e' e'' : Bool) (out : Output) (outs : List Output)
    → Tells e (out ∷ []) e'
    → Tells e' outs e''
    → Tells e (out ∷ outs) e''
Tells-tail true e' e'' (ok none) outs one more = subst (λ b. Tells b outs e'') (sym one) more
Tells-tail true e' e'' (ok (some (token _ _))) outs one more = elim one [ ]
Tells-tail true e' e'' (ok (some (terminal _))) outs one more = elim one [ ]
Tells-tail true e' e'' (err x) outs one more = elim one [ ]
Tells-tail false e' e'' (ok none) outs one more = elim one [ ]
Tells-tail false e' e'' (ok (some (token _ _))) outs one more =
    subst (λ b. Tells b outs e'') (sym one) more
Tells-tail false e' e'' (ok (some (terminal _))) outs one more =
    subst (λ b. Tells b outs e'') (sym one) more
Tells-tail false e' e'' (err x) outs one more = subst (λ b. Tells b outs e'') (sym one) more

count_tokens_tail :
    (out : Output) (outs : List Output)
    → count_tokens (out ∷ outs) ≡ count_tokens (out ∷ []) + count_tokens outs
count_tokens_tail out outs = ground arith

module _ {F T V : Type 0} (tr : Transport T) (json : SerdeJson V) where
  unfoldable pub step : Op F → RequestStream F (T × ℕ) → RequestStream F (T × ℕ) × Output
  step (poll at_ms) s = next_at (counted tr) json at_ms s
  step (cancelled at_ms) s = cancel_at (counted tr) json at_ms s

  unfoldable pub run : List (Op F) → RequestStream F (T × ℕ) → RequestStream F (T × ℕ) × List Output
  run [] s = (s, [])
  run (op ∷ ops) s = let (s', out) = step op s in let (s'', outs) = run ops s' in (s'', out ∷ outs)

  -- An ended stream is cleaned up, and only a clean-up cancels, once.
  record IsStream (s : RequestStream F (T × ℕ)) : Type 0 where
    ended : s.is_terminal ≡ true → s.cleaned_up ≡ true
    once : s.transport.1 ≤ (if s.cleaned_up then 1 else 0)
    wraps : s.telemetry.output_tokens < u32_mod

  -- What one operation does.
  record Told (s s' : RequestStream F (T × ℕ)) (out : Output) : Type 0 where
    tells : Tells s.is_terminal (out ∷ []) s'.is_terminal
    counts :
        s'.telemetry.output_tokens ≡ (s.telemetry.output_tokens + count_tokens (out ∷ [])) % u32_mod
    keeps : IsStream s'

  step-Told :
      (op : Op F) (s : RequestStream F (T × ℕ)) → IsStream s → Told s (step op s).0 (step op s).1
  unfolding step next_at cancel_at fail deliver cleanup observe_token
  step-Told (poll at_ms) s v = ground arith
  step-Told (cancelled at_ms) s v = ground arith

  record Tale (s s' : RequestStream F (T × ℕ)) (outs : List Output) : Type 0 where
    tells : Tells s.is_terminal outs s'.is_terminal
    counts : s'.telemetry.output_tokens ≡ (s.telemetry.output_tokens + count_tokens outs) % u32_mod
    keeps : IsStream s'

  run-Tale :
      (ops : List (Op F)) (s : RequestStream F (T × ℕ))
      → IsStream s
      → Tale s (run ops s).0 (run ops s).1
  unfolding run
  run-Tale [] s v = record { tells = refl; counts = omega (arith, v.wraps); keeps = v }
  run-Tale (op ∷ ops) s v =
      let t = step-Told op s v in
      let r = run-Tale ops (step op s).0 t.keeps in
      record {
        tells =
            Tells-tail s.is_terminal (step op s).0.is_terminal (run ops (step op s).0).0.is_terminal
              (step op s).1 (run ops (step op s).0).1 t.tells r.tells;
        counts =
            omega (
              arith,
              r.counts,
              t.counts,
              count_tokens_tail (step op s).1 (run ops (step op s).0).1,
            );
        keeps = r.keeps;
      }

  dropped_lem :
      (s : RequestStream F (T × ℕ))
      → IsStream s
      → ((drop_stream (counted tr) json s).cleaned_up ≡ true)
        × ((drop_stream (counted tr) json s).transport.1 ≤ 1)
  unfolding drop_stream cleanup
  dropped_lem s v = ground arith

  -- Whatever the transport answers, and however often it is polled and cancelled, a new stream gives
  -- tokens, then at most one terminal output or error, and then nothing; it has ended exactly if that
  -- output came; its telemetry counts the tokens given, modulo 2^32; and by the time it is dropped it
  -- is cleaned up, and the transport was cancelled at most once.
  pub stream_once :
      (ops : List (Op F)) (request : Request F) (transport : T)
      → let (s, outs) = run ops (start (counted tr) json request (transport, 0)) in
        let dropped = drop_stream (counted tr) json s in
        Tells false outs s.is_terminal
        × (s.telemetry.output_tokens ≡ count_tokens outs % u32_mod)
        × (dropped.cleaned_up ≡ true)
        × (dropped.transport.1 ≤ 1)
  unfolding start
  stream_once ops request transport =
      let begun = start (counted tr) json request (transport, 0) in
      let r =
        run-Tale ops begun
          (record { ended = λ e. cc e; once = omega arith; wraps = omega arith }) in
      let (cleaned, cancels) = dropped_lem (run ops begun).0 r.keeps in
      (r.tells, omega (arith, r.counts), cleaned, cancels)
