-- ===== src/Wire/Http/Chunks.antt =====
-- wire/src/transport.rs, `next_event`: the events depend on the bytes of the stream, and not on how
-- the network cuts them into chunks, so long as no chunk ends in a carriage return.
use trt_llm_rs.Prelude.{
  ℕ, zero, suc, ◌<◌, ◌≡◌, refl, ap, subst, ◌∙◌, Option, none, some, List, [], ◌∷◌, ◌++◌, false,
  arith,
}
use trt_llm_rs.Wire.Sse.{SseEvent, ok, err}
use trt_llm_rs.Wire.Sse.Frames.{ends_in_cr}
use trt_llm_rs.Wire.Http.{Chunk, Next, next_event}
use trt_llm_rs.Wire.Http.Decodes.{
  Ending, clean, broke, read_all, Decodes, IsCalm, joined, work, streaming, Decodes-unique,
}
use trt_llm_rs.Wire.Http.Rounds.{Says, next_event-Says}

-- What the reader sees is what the bytes say.
record Heard (b : List ℕ) (seen : Option (List SseEvent × Ending)) : Type 0 where
  events : List SseEvent
  ending : Ending
  sees : seen ≡ some (events, ending)
  says_so : Decodes b events ending

module _ (calls fuel : ℕ) (b : List ℕ) (chunks : List Chunk)
    (later : (b' : List ℕ) (chunks' : List Chunk)
      → work b' chunks' < work b chunks
      → IsCalm chunks'
      → ends_in_cr b' ≡ false
      → Heard (b' ++ joined chunks') (read_all calls fuel (streaming b' chunks'))) where
  after_call :
      (n : Next)
      → next_event fuel (streaming b chunks) ≡ n
      → Says (b ++ joined chunks) (work b chunks) n
      → Heard (b ++ joined chunks) (read_all (suc calls) fuel (streaming b chunks))
  unfolding read_all
  after_call none e s = elim s [ ]
  after_call (some (t, err x)) e s = record {
    events = [];
    ending = broke x;
    sees = ground (arith, e);
    says_so = s;
  }
  after_call (some (t, ok none)) e s = record {
    events = [];
    ending = clean;
    sees = ground (arith, e);
    says_so = s;
  }
  after_call (some (t, ok (some event))) e (chunks', open_stream, calm, whole, less, onto) =
      let h = later t.buffered chunks' less calm whole in
      let same : read_all calls fuel t ≡ some (h.events, h.ending) =
        ap
          (λ (st : Option (List Chunk)).
            read_all calls fuel (record { stream = st; buffered = t.buffered }))
          open_stream
        ∙ h.sees in
      record {
        events = event ∷ h.events;
        ending = h.ending;
        sees = ground (arith, e, same);
        says_so = onto h.events h.ending h.says_so;
      }

read_all-Heard :
    (calls fuel : ℕ) (b : List ℕ) (chunks : List Chunk)
    → work b chunks < calls
    → work b chunks < fuel
    → IsCalm chunks
    → ends_in_cr b ≡ false
    → Heard (b ++ joined chunks) (read_all calls fuel (streaming b chunks))
read_all-Heard zero fuel b chunks hc hf calm whole = absurd (omega arith)
read_all-Heard (suc calls) fuel b chunks hc hf calm whole =
    after_call calls fuel b chunks
      (λ b' chunks' less calm' whole'.
        read_all-Heard calls fuel b' chunks' (omega arith) (omega arith) calm' whole')
      (next_event fuel (streaming b chunks)) refl (next_event-Says fuel b chunks hf calm whole)

-- A reader of an open stream, with enough calls and fuel, hears what the whole of the bytes says,
-- frame by frame, however they are cut into chunks, if the client reports no error and no chunk ends
-- in a carriage return. So two such cuts of the same bytes give the same events and the same ending.
pub read_all-chunks :
    (b : List ℕ) (chunks chunks' : List Chunk) (calls fuel : ℕ)
    → ends_in_cr b ≡ false
    → IsCalm chunks
    → IsCalm chunks'
    → joined chunks ≡ joined chunks'
    → work b chunks < calls
    → work b chunks < fuel
    → work b chunks' < calls
    → work b chunks' < fuel
    → (events : List SseEvent) × (ending : Ending) × (read_all calls fuel (streaming b chunks)
        ≡ some (events, ending))
      × (read_all calls fuel (streaming b chunks') ≡ some (events, ending))
      × Decodes (b ++ joined chunks) events ending
read_all-chunks b chunks chunks' calls fuel whole calm calm' same hc hf hc' hf' =
    let h = read_all-Heard calls fuel b chunks hc hf calm whole in
    let h' = read_all-Heard calls fuel b chunks' hc' hf' calm' whole in
    let (evs, ends) =
      Decodes-unique h'.says_so (subst (λ u. Decodes (b ++ u) h.events h.ending) same h.says_so) in
    (h.events, h.ending, h.sees, h'.sees ∙ (λ i. some (evs i, ends i)), h.says_so)
