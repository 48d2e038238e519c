-- ===== src/Wire/Http/Decodes.antt =====
-- wire/src/transport.rs: a reader that asks for events until there is none, and what a stream of
-- bytes says, frame by frame, whatever the chunks.
use trt_llm_rs.Prelude.{
  ℕ, zero, suc, ◌+◌, ◌≡◌, refl, sym, ap, subst, ◌∙◌, Option, none, some, List, [], ◌∷◌, ◌++◌, false,
  length, take, drop,
}
use mathlib.Core.Option.{some-injective}
use trt_llm_rs.Wire.Sse.{
  SseEvent, TransportError, partial_frame, ok, err, sse_frame_end, parse_sse_frame,
}
use trt_llm_rs.Wire.Sse.Frames.{ends_in_cr}
use trt_llm_rs.Wire.Http.{Chunk, bytes, failed, HttpTransport, is_empty, next_event}

-- How a stream ends for its reader.
pub data Ending : Type 0 where
  clean : Ending
  broke : TransportError → Ending

-- A reader that asks for events until there is none, or an error.
unfoldable pub read_all : ℕ → ℕ → HttpTransport → Option (List SseEvent × Ending)
read_all zero fuel t = none
read_all (suc calls) fuel t = elim (next_event fuel t) [
  | none ↦ none
  | some (t', err e) ↦ some ([], broke e)
  | some (t', ok none) ↦ some ([], clean)
  | some (t', ok (some event)) ↦ elim (read_all calls fuel t') [
    | none ↦ none
    | some (events, ending) ↦ some (event ∷ events, ending)
  ]
]

abbrev pub after_frame : ℕ × ℕ → List ℕ → List ℕ
after_frame (e, d) b = drop d (drop e b)

-- What a whole stream of bytes says, frame by frame.
pub data Decodes : List ℕ → List SseEvent → Ending → Type 0 where
  at_end : {b : List ℕ} → b ≡ [] → Decodes b [] clean
  cut :
      {b : List ℕ}
      → sse_frame_end b ≡ none
      → is_empty b ≡ false
      → Decodes b [] (broke partial_frame)
  bad :
      {b : List ℕ} (p : ℕ × ℕ) (e : TransportError)
      → sse_frame_end b ≡ some p
      → parse_sse_frame (take p.0 b) ≡ err e
      → Decodes b [] (broke e)
  silent :
      {b : List ℕ} {events : List SseEvent} {ending : Ending} (p : ℕ × ℕ)
      → sse_frame_end b ≡ some p
      → parse_sse_frame (take p.0 b) ≡ ok none
      → Decodes (after_frame p b) events ending
      → Decodes b events ending
  says :
      {b : List ℕ} {events : List SseEvent} {ending : Ending} (p : ℕ × ℕ) (event : SseEvent)
      → sse_frame_end b ≡ some p
      → parse_sse_frame (take p.0 b) ≡ ok (some event)
      → Decodes (after_frame p b) events ending
      → Decodes b (event ∷ events) ending

-- Chunks without errors, of which none ends in a carriage return.
abbrev pub IsCalm : List Chunk → Type 0
IsCalm [] = Unit
IsCalm (bytes b ∷ chunks) = (ends_in_cr b ≡ false) × IsCalm chunks
IsCalm (failed e ∷ chunks) = ⊥

abbrev pub joined : List Chunk → List ℕ
joined [] = []
joined (bytes b ∷ chunks) = b ++ joined chunks
joined (failed e ∷ chunks) = joined chunks

abbrev pub streaming : List ℕ → List Chunk → HttpTransport
streaming b chunks = record { stream = some chunks; buffered = b }

-- Rounds of the loops that are left, at most.
abbrev pub work : List ℕ → List Chunk → ℕ
work buffered chunks = length buffered + length (joined chunks) + length chunks

sse_frame_end-nil : sse_frame_end [] ≡ none
unfolding sse_frame_end
sse_frame_end-nil = refl

no_frame : (b : List ℕ) (p : ℕ × ℕ) → b ≡ [] → sse_frame_end b ≡ some p → ⊥
no_frame b p e f = cc (sym f ∙ ap sse_frame_end e ∙ sse_frame_end-nil)

same_parse :
    (b : List ℕ) (p p' : ℕ × ℕ)
    → sse_frame_end b ≡ some p
    → sse_frame_end b ≡ some p'
    → parse_sse_frame (take p.0 b) ≡ parse_sse_frame (take p'.0 b)
same_parse b p p' f f' = ap (λ q. parse_sse_frame (take q.0 b)) (some-injective p p' (sym f ∙ f'))

-- The bytes say one thing.
pub Decodes-unique :
    {b : List ℕ} {events events' : List SseEvent} {ending ending' : Ending}
    → Decodes b events ending
    → Decodes b events' ending'
    → (events ≡ events') × (ending ≡ ending')
Decodes-unique (at_end e) (at_end e') = (refl, refl)
Decodes-unique (at_end e) (cut n m) = cc (sym m ∙ ap is_empty e)
Decodes-unique {b} (at_end e) (bad p x f r) = absurd (no_frame b p e f)
Decodes-unique {b} (at_end e) (silent p f r d) = absurd (no_frame b p e f)
Decodes-unique {b} (at_end e) (says p event f r d) = absurd (no_frame b p e f)
Decodes-unique (cut n m) (at_end e) = cc (sym m ∙ ap is_empty e)
Decodes-unique (cut n m) (cut n' m') = (refl, refl)
Decodes-unique (cut n m) (bad p x f r) = cc
Decodes-unique (cut n m) (silent p f r d) = cc
Decodes-unique (cut n m) (says p event f r d) = cc
Decodes-unique {b} (bad p x f r) (at_end e) = absurd (no_frame b p e f)
Decodes-unique (bad p x f r) (cut n m) = cc
Decodes-unique {b} (bad p x f r) (bad p' x' f' r') = (refl, cc (same_parse b p p' f f'))
Decodes-unique {b} (bad p x f r) (silent p' f' r' d') = cc (same_parse b p p' f f')
Decodes-unique {b} (bad p x f r) (says p' event f' r' d') = cc (same_parse b p p' f f')
Decodes-unique {b} (silent p f r d) (at_end e) = absurd (no_frame b p e f)
Decodes-unique (silent p f r d) (cut n m) = cc
Decodes-unique {b} (silent p f r d) (bad p' x f' r') = cc (same_parse b p p' f f')
Decodes-unique {b} {events' = events'} {ending' = ending'} (silent p f r d) (silent p' f' r' d') =
    Decodes-unique d
      (subst (λ q. Decodes (after_frame q b) events' ending') (some-injective p' p (sym f' ∙ f)) d')
Decodes-unique {b} (silent p f r d) (says p' event f' r' d') = cc (same_parse b p p' f f')
Decodes-unique {b} (says p event f r d) (at_end e) = absurd (no_frame b p e f)
Decodes-unique (says p event f r d) (cut n m) = cc
Decodes-unique {b} (says p event f r d) (bad p' x f' r') = cc (same_parse b p p' f f')
Decodes-unique {b} (says p event f r d) (silent p' f' r' d') = cc (same_parse b p p' f f')
Decodes-unique {b} {ending' = ending'} (says p event f r d)
      (says {events = es'} p' event' f' r' d') =
    let (es, en) =
      Decodes-unique d (
        subst (λ q. Decodes (after_frame q b) es' ending') (some-injective p' p (sym f' ∙ f)) d') in
    let same : event ≡ event' = cc (same_parse b p p' f f') in (λ i. same i ∷ es i, en)
