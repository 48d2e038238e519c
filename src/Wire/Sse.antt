-- ===== src/Wire/Sse.antt =====
-- crates/wire/src/transport.rs: the frames of a stream of server-sent events. Text is its bytes.
pub mod Frames
use trt_llm_rs.Prelude.{
  ℕ, zero, suc, ◌+◌, ◌-◌, Option, none, some, List, [], ◌∷◌, ◌++◌, Bool, true, false, ◌&&◌, ◌||◌,
  not, ltb, leb, ◌==◌, if◌then◌else◌, length, take, drop, get_elem?, range,
}

pub record SseEvent : Type 0 where
  pub event : Option (List ℕ)
  pub payload : List ℕ

-- What goes wrong, for the message of the source; `http` is an error of the client.
pub data TransportError : Type 0 where
  already_active before_send partial_frame invalid_utf8 ended_early invalid_payload : TransportError
  missing_token_id missing_text no_message : TransportError
  http : List ℕ → TransportError
  remote : List ℕ → TransportError

pub data Result {ℓ} (A : Type ℓ) : Type ℓ where
  ok : A → Result A
  err : TransportError → Result A

abbrev pub cr : ℕ
cr = 13

abbrev pub lf : ℕ
lf = 10

abbrev pub is_byte : ℕ → Option ℕ → Bool
is_byte b none = false
is_byte b (some c) = c == b

unfoldable pub line_ending_len : List ℕ → ℕ → Option ℕ
line_ending_len buffer at =
    if is_byte cr (get_elem? buffer at) && is_byte lf (get_elem? buffer (at + 1))
    then some 2
    else if is_byte cr (get_elem? buffer at) || is_byte lf (get_elem? buffer at)
    then some 1
    else none

-- One round of the loop of `sse_frame_end`.
unfoldable pub frame_end_at : List ℕ → ℕ → Option (ℕ × ℕ)
unfolding line_ending_len
frame_end_at buffer start = elim (line_ending_len buffer start) [
  | none ↦ none
  | some first_len ↦ elim (line_ending_len buffer (start + first_len)) [
    | none ↦ none
    | some second_len ↦ some (start, first_len + second_len)
  ]
]

unfoldable pub frame_end_among : List ℕ → List ℕ → Option (ℕ × ℕ)
unfolding frame_end_at
frame_end_among buffer [] = none
frame_end_among buffer (start ∷ starts) =
    let rest = frame_end_among buffer starts in
    elim (frame_end_at buffer start) [ none ↦ rest | some found ↦ some found ]

unfoldable pub sse_frame_end : List ℕ → Option (ℕ × ℕ)
unfolding frame_end_among
sse_frame_end buffer = frame_end_among buffer (range (length buffer))

-- `str::from_utf8`: between `lo` and `hi` for the next byte of a character that wants `more` of them.
abbrev pub between : ℕ → ℕ → ℕ → Bool
between lo hi b = leb lo b && leb b hi

-- What the first byte of a character asks of the next: how many, and the bounds of the first.
unfoldable pub utf8_lead : ℕ → Option (ℕ × ℕ × ℕ)
utf8_lead b =
    if ltb b 0x80
    then some (0, 0x80, 0xbf)
    else if between 0xc2 0xdf b
    then some (1, 0x80, 0xbf)
    else if b == 0xe0
    then some (2, 0xa0, 0xbf)
    else if b == 0xed
    then some (2, 0x80, 0x9f)
    else if between 0xe1 0xef b
    then some (2, 0x80, 0xbf)
    else if b == 0xf0
    then some (3, 0x90, 0xbf)
    else if between 0xf1 0xf3 b
    then some (3, 0x80, 0xbf)
    else if b == 0xf4
    then some (3, 0x80, 0x8f)
    else none

unfoldable pub utf8_from : ℕ → ℕ → ℕ → List ℕ → Bool
unfolding utf8_lead
utf8_from more lo hi [] = more == 0
utf8_from zero lo hi (b ∷ bs) = elim (utf8_lead b) [
  | none ↦ false
  | some (more, lo', hi') ↦ utf8_from more lo' hi' bs
]
utf8_from (suc more) lo hi (b ∷ bs) = between lo hi b && utf8_from more 0x80 0xbf bs

unfoldable pub is_utf8 : List ℕ → Bool
unfolding utf8_from
is_utf8 bytes = utf8_from 0 0x80 0xbf bytes

-- `split(['\r', '\n'])`, with the line that is being read.
unfoldable pub split_lines : List ℕ → List ℕ → List (List ℕ)
split_lines line [] = line ∷ []
split_lines line (b ∷ bs) =
    let ended = line ∷ split_lines [] bs in
    let going = split_lines (line ++ b ∷ []) bs in if b == cr || b == lf then ended else going

-- `split_once(':')`.
unfoldable pub split_once : List ℕ → Option (List ℕ × List ℕ)
split_once [] = none
split_once (b ∷ bs) =
    let later : Option (List ℕ × List ℕ) = elim (split_once bs) [
      | none ↦ none
      | some (field, value) ↦ some (b ∷ field, value)
    ] in
    if b == b':' then some ([], bs) else later

unfoldable pub strip_space : List ℕ → List ℕ
strip_space [] = []
strip_space (b ∷ bs) = if b == b' ' then bs else b ∷ bs

abbrev pub same_bytes : List ℕ → List ℕ → Bool
same_bytes [] [] = true
same_bytes (x ∷ xs) (y ∷ ys) = x == y && same_bytes xs ys
same_bytes _ _ = false

abbrev pub is_comment : List ℕ → Bool
is_comment [] = true
is_comment (b ∷ bs) = b == b':'

-- The variables `event` and `data` of the loop over the lines.
pub record Fields : Type 0 where
  pub event : Option (List ℕ)
  pub lines : List (List ℕ)

unfoldable pub take_line : List ℕ → Fields → Fields
unfolding split_once strip_space
take_line line f =
    let (field, value) : List ℕ × List ℕ = elim (split_once line) [
      | none ↦ (line, [])
      | some pair ↦ pair
    ] in
    let value' = strip_space value in
    if is_comment line
    then f
    else if same_bytes field (b'e' ∷ b'v' ∷ b'e' ∷ b'n' ∷ b't' ∷ [])
    then record f { event = some value' }
    else if same_bytes field (b'd' ∷ b'a' ∷ b't' ∷ b'a' ∷ [])
    then record f { lines = f.lines ++ value' ∷ [] }
    else f

unfoldable pub take_lines : List (List ℕ) → Fields → Fields
unfolding take_line
take_lines [] f = f
take_lines (line ∷ lines) f = take_lines lines (take_line line f)

-- `data.join("\n")`.
unfoldable pub join : List (List ℕ) → List ℕ
join [] = []
join (line ∷ []) = line
join (line ∷ next ∷ lines) = line ++ lf ∷ join (next ∷ lines)

abbrev pub event_of : Fields → Option SseEvent
event_of f = elim (f.lines) [
  | [] ↦ none
  | line ∷ lines ↦ some (record { event = f.event; payload = join (line ∷ lines) })
]

unfoldable pub parse_sse_frame : List ℕ → Result (Option SseEvent)
unfolding is_utf8 split_lines take_lines join
parse_sse_frame frame =
    let fields = take_lines (split_lines [] frame) (record { event = none; lines = [] }) in
    if is_utf8 frame then ok (event_of fields) else err invalid_utf8
