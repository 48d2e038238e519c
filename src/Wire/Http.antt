-- ===== src/Wire/Http.antt =====
-- crates/wire/src/transport.rs: the HTTP transport of one request. The client is not modelled: a
-- stream is the chunks that it will yield, each of them bytes or an error.
pub mod Chunks
pub mod Decodes
pub mod Rounds
use trt_llm_rs.Prelude.{
  ℕ, zero, suc, ◌+◌, ◌-◌, Option, none, some, List, [], ◌∷◌, ◌++◌, Bool, true, false, if◌then◌else◌,
  length, take, drop,
}
use trt_llm_rs.Wire.Sse.{
  SseEvent, TransportError, already_active, before_send, partial_frame, http, Result, ok, err,
  sse_frame_end, parse_sse_frame,
}

pub data Chunk : Type 0 where
  bytes : List ℕ → Chunk
  failed : List ℕ → Chunk

pub record HttpTransport : Type 0 where
  pub stream : Option (List Chunk)
  pub buffered : List ℕ

-- `HttpTransportFactory::open`.
unfoldable pub open_transport : HttpTransport
open_transport = record { stream = none; buffered = [] }

-- The answer to the POST: an error of the client or of the status, or the body.
unfoldable pub send : Result (List Chunk) → HttpTransport → HttpTransport × Result (Unit {0})
send answer t = elim (t.stream) [
  | some _ ↦ (t, err already_active)
  | none ↦ elim answer [ err e ↦ (t, err e) | ok body ↦ (record t { stream = some body }, ok tt) ]
]

-- The result of `next_event`; `none` is the end of the fuel.
abbrev pub Next : Type 0
Next = Option (HttpTransport × Result (Option SseEvent))

-- Reading one more chunk: a result, or the transport with which the loop goes on.
pub data Read : Type 0 where
  returned : HttpTransport → Result (Option SseEvent) → Read
  extended : HttpTransport → Read

abbrev pub is_empty : List ℕ → Bool
is_empty [] = true
is_empty (_ ∷ _) = false

unfoldable pub read_chunk : HttpTransport → Read
read_chunk t = elim (t.stream) [
  | none ↦ returned t (err before_send)
  | some [] ↦
      let closed = record t { stream = none } in
      if is_empty t.buffered then returned closed (ok none) else returned closed (err partial_frame)
  | some (bytes chunk ∷ chunks) ↦
      extended (record { stream = some chunks; buffered = t.buffered ++ chunk })
  | some (failed e ∷ chunks) ↦ returned (record t { stream = some chunks }) (err (http e))
]

unfoldable pub next_event : ℕ → HttpTransport → Next
unfolding read_chunk
next_event zero t = none
next_event (suc fuel) t = elim (sse_frame_end t.buffered) [
  | some (frame_end, delimiter_len) ↦
      let frame = take frame_end t.buffered in
      let t' = record t { buffered = drop delimiter_len (drop frame_end t.buffered) } in
      elim (parse_sse_frame frame) [
        | err e ↦ some (t', err e)
        | ok (some event) ↦ some (t', ok (some event))
        | ok none ↦ next_event fuel t'
      ]
  | none ↦ elim (read_chunk t) [ returned t' r ↦ some (t', r) | extended t' ↦ next_event fuel t' ]
]

unfoldable pub cancel : HttpTransport → HttpTransport × Result (Unit {0})
cancel t = (record { stream = none; buffered = [] }, ok tt)
