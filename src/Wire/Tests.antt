-- ===== src/Wire/Tests.antt =====
-- A stream cut in two ways, and the theorems of Wire at it.
use trt_llm_rs.Prelude.{ℕ, ◌%◌, ◌≤◌, ◌≡◌, refl, none, some, List, [], ◌∷◌, ◌++◌, true, false, arith}
use trt_llm_rs.Prelude.Int.{ℤ, pos, negsuc}
use trt_llm_rs.Prelude.Words.{u32_mod}
use trt_llm_rs.Core.Request.{Request}
use trt_llm_rs.Wire.Sse.{SseEvent, partial_frame, ok, sse_frame_end, parse_sse_frame}
use trt_llm_rs.Wire.Http.{Chunk, bytes, HttpTransport, next_event, cancel}
use trt_llm_rs.Wire.Http.Decodes.{Ending, clean, broke, read_all, Decodes, streaming, joined}
use trt_llm_rs.Wire.Http.Chunks.{read_all-chunks}
use trt_llm_rs.Wire.Stream.{Transport, SerdeJson, start, drop_stream}
use trt_llm_rs.Wire.Stream.Once.{
  Op, poll, cancelled, counted, Tells, count_tokens, run, stream_once,
}

-- `data: x`, and the two line endings after it.
abbrev line : List ℕ
line = b'd' ∷ b'a' ∷ b't' ∷ b'a' ∷ b':' ∷ b' ' ∷ b'x' ∷ []

abbrev event_x : SseEvent
event_x = record { event = none; payload = b'x' ∷ [] }

abbrev at_once : List Chunk
at_once = bytes (line ++ 13 ∷ 10 ∷ 13 ∷ 10 ∷ []) ∷ []

abbrev in_two : List Chunk
in_two = bytes line ∷ bytes (13 ∷ 10 ∷ 13 ∷ 10 ∷ []) ∷ []

-- The cut falls between a carriage return and its line feed.
abbrev torn : List Chunk
torn = bytes (line ++ 13 ∷ 10 ∷ 13 ∷ []) ∷ bytes (10 ∷ []) ∷ []

at_once_reads : read_all 20 20 (streaming [] at_once) ≡ some (event_x ∷ [], clean)
unfolding read_all next_event sse_frame_end parse_sse_frame
at_once_reads = refl

torn_reads : read_all 20 20 (streaming [] torn) ≡ some (event_x ∷ [], broke partial_frame)
unfolding read_all next_event sse_frame_end parse_sse_frame
torn_reads = refl

read_all-chunks_example :
    (events : List SseEvent) × (ending : Ending) × (read_all 20 20 (streaming [] at_once)
      ≡ some (events, ending))
    × (read_all 20 20 (streaming [] in_two) ≡ some (events, ending))
    × Decodes ([] ++ joined at_once) events ending
read_all-chunks_example =
    read_all-chunks [] at_once in_two 20 20 refl (refl, tt) (refl, (refl, tt)) refl (omega arith)
      (omega arith) (omega arith) (omega arith)

-- The transport of the source, on chunks that are at hand.
abbrev http : Transport HttpTransport
http = record {
  next_event = λ t. elim (next_event 20 t) [ none ↦ (t, ok none) | some answer ↦ answer ];
  cancel = λ id t. cancel t;
}

-- A reader of JSON that knows no document.
abbrev no_json : SerdeJson ℕ
no_json = record {
  from_str = λ _. none;
  get = λ _ _. none;
  as_str = λ _. none;
  as_u64 = λ _. none;
  is_object = λ _. false;
}

abbrev request : Request ℤ
request = record {
  id = 4;
  prompt = 1 ∷ 2 ∷ [];
  params = record {
    max_tokens = 200;
    temperature = pos 0;
    top_p = pos 1;
    top_k = negsuc 0;
    ignore_eos = true;
    seed = none;
  };
  arrival_ms = pos 0;
  ttft_deadline_ms = pos 3000;
  prefill_worker = none;
  decode_worker = none;
}

abbrev ops : List (Op ℤ)
ops = poll (pos 1) ∷ cancelled (pos 2) ∷ poll (pos 3) ∷ []

stream_once_example :
    let (s, outs) =
      run http no_json ops (start (counted http) no_json request (streaming [] at_once, 0)) in
    let dropped = drop_stream (counted http) no_json s in
    Tells false outs s.is_terminal
    × (s.telemetry.output_tokens ≡ count_tokens outs % u32_mod)
    × (dropped.cleaned_up ≡ true)
    × (dropped.transport.1 ≤ 1)
stream_once_example = stream_once http no_json ops request (streaming [] at_once)
