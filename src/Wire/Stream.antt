-- ===== src/Wire/Stream.antt =====
-- crates/wire/src/transport.rs: the stream of one request over any transport, and its payloads.
pub mod Once
use trt_llm_rs.Prelude.{
  ℕ, ◌+◌, ◌<◌, Option, none, some, List, [], ◌∷◌, ◌++◌, Bool, true, false, ◌||◌, ◌&&◌, not, leb,
  ltb, ◌==◌, if◌then◌else◌, take, drop,
}
use trt_llm_rs.Prelude.Words.{u32_mod}
use trt_llm_rs.Core.Outcome.{RequestOutcome}
use trt_llm_rs.Core.Request.{Request}
use trt_llm_rs.Wire.Sse.{
  SseEvent, TransportError, ended_early, invalid_payload, missing_token_id, missing_text,
  no_message, remote, Result, ok, err, same_bytes,
}
use trt_llm_rs.Wire.Telemetry
use trt_llm_rs.Wire.Telemetry.{RequestTelemetry, observe_token, finish}

-- The trait `Transport` once the request is sent.
pub record Transport (T : Type 0) : Type 0 where
  pub next_event : T → T × Result (Option SseEvent)
  pub cancel : ℕ → T → T × Result (Unit {0})

-- What the code uses of serde_json, on values of a type `V`. A text is its bytes.
pub record SerdeJson (V : Type 0) : Type 0 where
  pub from_str : List ℕ → Option V
  pub get : List ℕ → V → Option V
  pub as_str : V → Option (List ℕ)
  pub as_u64 : V → Option ℕ
  pub is_object : V → Bool

pub data StreamOutput : Type 0 where
  token : ℕ → List ℕ → StreamOutput
  terminal : List ℕ → StreamOutput

-- `DecodedEvent`, which has the same constructors.
abbrev pub DecodedEvent : Type 0
DecodedEvent = StreamOutput

-- `char::is_whitespace`, on the bytes of a character.
abbrev pub is_space₁ : ℕ → Bool
is_space₁ a = a == b' ' || leb 9 a && leb a 13

abbrev pub is_space₂ : ℕ → ℕ → Bool
is_space₂ a b = a == 0xc2 && (b == 0x85 || b == 0xa0)

abbrev pub is_space₃ : ℕ → ℕ → ℕ → Bool
is_space₃ a b c =
    a == 0xe1 && b == 0x9a && c == 0x80
    || a == 0xe2 && b == 0x80 && (leb 0x80 c && leb c 0x8a || c == 0xa8 || c == 0xa9 || c == 0xaf)
    || a == 0xe2 && b == 0x81 && c == 0x9f
    || a == 0xe3 && b == 0x80 && c == 0x80

-- The text without the white space that it starts with.
unfoldable pub trim_start : List ℕ → List ℕ
trim_start [] = []
trim_start (a ∷ []) = if is_space₁ a then [] else a ∷ []
trim_start (a ∷ b ∷ []) =
    let after_one = trim_start (b ∷ []) in
    if is_space₁ a then after_one else if is_space₂ a b then [] else a ∷ b ∷ []
trim_start (a ∷ b ∷ c ∷ rest) =
    let after_one = trim_start (b ∷ c ∷ rest) in
    let after_two = trim_start (c ∷ rest) in
    let after_three = trim_start rest in
    if is_space₁ a
    then after_one
    else if is_space₂ a b
    then after_two
    else if is_space₃ a b c
    then after_three
    else a ∷ b ∷ c ∷ rest

abbrev pub done_mark : List ℕ
done_mark = b'[' ∷ b'D' ∷ b'O' ∷ b'N' ∷ b'E' ∷ b']' ∷ []

-- Whether the text, trimmed, is that mark: only white space stands around it.
unfoldable pub trims_to_done : List ℕ → Bool
unfolding trim_start
trims_to_done text =
    let rest = trim_start text in
    same_bytes (take 6 rest) done_mark && same_bytes (trim_start (drop 6 rest)) []

abbrev pub and_then {ℓ κ} : {A : Type ℓ} {B : Type κ} → Option A → (A → Option B) → Option B
and_then none f = none
and_then (some a) f = f a

abbrev pub u32_of : ℕ → Option ℕ
u32_of n = if ltb n u32_mod then some n else none

module _ {V : Type 0} (json : SerdeJson V) where
  abbrev pub code_of : V → List ℕ
  code_of error = elim (and_then (json.get (b'c' ∷ b'o' ∷ b'd' ∷ b'e' ∷ []) error) json.as_str) [
    | some code ↦ code
    | none ↦ b'r' ∷ b'e' ∷ b'm' ∷ b'o' ∷ b't' ∷ b'e' ∷ b'_' ∷ b'e' ∷ b'r' ∷ b'r' ∷ b'o' ∷ b'r' ∷ []
  ]

  unfoldable pub remote_error_message : V → Option (List ℕ)
  remote_error_message payload =
      and_then (json.get (b'e' ∷ b'r' ∷ b'r' ∷ b'o' ∷ b'r' ∷ []) payload) (λ error.
        elim (json.as_str error) [
          | some message ↦ some message
          | none ↦
              if json.is_object error
              then and_then
                  (and_then (json.get (b'm' ∷ b'e' ∷ b's' ∷ b's' ∷ b'a' ∷ b'g' ∷ b'e' ∷ []) error)
                    json.as_str)
                  (λ message. some (code_of error ++ b':' ∷ b' ' ∷ message))
              else none
        ])

  unfoldable pub decode_token : V → Result DecodedEvent
  decode_token payload =
      elim (and_then
        (and_then (json.get (b't' ∷ b'o' ∷ b'k' ∷ b'e' ∷ b'n' ∷ b'_' ∷ b'i' ∷ b'd' ∷ []) payload)
          json.as_u64)
        u32_of) [
          | none ↦ err missing_token_id
          | some id ↦
              elim (and_then (json.get (b't' ∷ b'e' ∷ b'x' ∷ b't' ∷ []) payload) json.as_str) [
                | none ↦ err missing_text
                | some text ↦ ok (token id text)
              ]
        ]

  unfoldable pub decode_payload : V → Result DecodedEvent
  unfolding decode_token remote_error_message
  decode_payload payload = elim (json.get (b'e' ∷ b'r' ∷ b'r' ∷ b'o' ∷ b'r' ∷ []) payload) [
    | some _ ↦ elim (remote_error_message payload) [
      | some message ↦ err (remote message)
      | none ↦ err no_message
    ]
    | none ↦
        elim (and_then
          (json.get
            (b'f' ∷ b'i' ∷ b'n' ∷ b'i' ∷ b's' ∷ b'h' ∷ b'_' ∷ b'r' ∷ b'e' ∷ b'a' ∷ b's' ∷ b'o'
              ∷ b'n' ∷ [])
            payload)
          json.as_str) [ some reason ↦ ok (terminal reason) | none ↦ decode_token payload ]
  ]

  unfoldable pub decode_event : SseEvent → Result DecodedEvent
  unfolding decode_payload trims_to_done
  decode_event event =
      if trims_to_done event.payload
      then ok (terminal (b's' ∷ b't' ∷ b'o' ∷ b'p' ∷ []))
      else elim (json.from_str event.payload) [
        | none ↦ err invalid_payload
        | some payload ↦ decode_payload payload
      ]

pub record RequestStream (F T : Type 0) : Type 0 where
  pub transport : T
  pub request_id : ℕ
  pub telemetry : RequestTelemetry F
  pub is_terminal : Bool
  pub cleaned_up : Bool
  pub outcome : Option (RequestOutcome F)

module _ {F T V : Type 0} (tr : Transport T) (json : SerdeJson V) where
  -- `DynamoAdapter::start`, after `send` has succeeded on the transport.
  unfoldable pub start : Request F → T → RequestStream F T
  unfolding Telemetry.new
  start request transport = record {
    transport = transport;
    request_id = request.id;
    telemetry = Telemetry.new request;
    is_terminal = false;
    cleaned_up = false;
    outcome = none;
  }

  unfoldable pub cleanup : RequestStream F T → RequestStream F T × Result (Unit {0})
  cleanup s =
      if s.cleaned_up
      then (s, ok tt)
      else (let (transport, r) = tr.cancel s.request_id s.transport in
          (record s { transport = transport; cleaned_up = true }, r))

  unfoldable pub fail :
      TransportError → RequestStream F T → RequestStream F T × Result (Option StreamOutput)
  unfolding cleanup
  fail error s = (record (cleanup s).0 { is_terminal = true }, err error)

  -- The arms of the last `match` of `next_at`.
  unfoldable pub deliver :
      F → DecodedEvent → RequestStream F T → RequestStream F T × Result (Option StreamOutput)
  deliver at_ms (token id text) s =
      (record s { telemetry = observe_token at_ms s.telemetry }, ok (some (token id text)))
  deliver at_ms (terminal finish_reason) s = (
    record s { is_terminal = true; cleaned_up = true; outcome = some (finish at_ms s.telemetry) },
    ok (some (terminal finish_reason)),
  )

  unfoldable pub next_at : F → RequestStream F T → RequestStream F T × Result (Option StreamOutput)
  unfolding fail deliver
  next_at at_ms s =
      let (transport, answer) = tr.next_event s.transport in
      let s' : RequestStream F T = record s { transport = transport } in
      if s.is_terminal then (s, ok none) else (elim answer [
        | err error ↦ fail error s'
        | ok none ↦ fail ended_early s'
        | ok (some event) ↦ elim (decode_event json event) [
          | err error ↦ fail error s'
          | ok decoded ↦ deliver at_ms decoded s'
        ]
      ])

  unfoldable pub cancel_at :
      F → RequestStream F T → RequestStream F T × Result (Option StreamOutput)
  unfolding cleanup
  cancel_at at_ms s =
      let (cleaned, r) : RequestStream F T × Result (Unit {0}) = cleanup s in
      let ended : RequestStream F T = record cleaned {
        is_terminal = true;
        outcome = some (finish at_ms cleaned.telemetry);
      } in
      let reason = b'c' ∷ b'a' ∷ b'n' ∷ b'c' ∷ b'e' ∷ b'l' ∷ b'l' ∷ b'e' ∷ b'd' ∷ [] in
      if s.is_terminal
      then (s, ok none)
      else (elim r [ err e ↦ (ended, err e) | ok _ ↦ (ended, ok (some (terminal reason))) ])

  -- `Drop::drop`.
  unfoldable pub drop_stream : RequestStream F T → RequestStream F T
  unfolding cleanup
  drop_stream s = (cleanup s).0
