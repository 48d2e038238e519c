-- ===== src/Wire/Http/Rounds.antt =====
-- wire/src/transport.rs, `next_event`: one call, against what the bytes that are still to come say.
use trt_llm_rs.Prelude.{
  ℕ, zero, suc, ◌+◌, ◌≤◌, ◌<◌, ◌≡◌, refl, sym, ap, subst, ◌∙◌, Option, none, some, List, [], ◌∷◌,
  ◌++◌, false, arith, length, take, drop, Option-cases, inl, inr, ◌⊎◌, length-append, length-drop,
}
use mathlib.Core.List.{append_assoc, append-nil}
use trt_llm_rs.Wire.Sse.{
  SseEvent, TransportError, partial_frame, Result, ok, err, sse_frame_end, parse_sse_frame,
}
use trt_llm_rs.Wire.Sse.Frames.{
  ends_in_cr, ends_in_cr-append, ends_in_cr-drop, sse_frame_end_bounds, sse_frame_end-append,
}
use trt_llm_rs.Wire.Http.{Chunk, bytes, failed, Next, is_empty, read_chunk, next_event}
use trt_llm_rs.Wire.Http.Decodes.{
  Ending, clean, broke, after_frame, Decodes, at_end, cut, bad, silent, says, IsCalm, joined, work,
  streaming,
}

take-append : (n : ℕ) (xs ys : List ℕ) → n ≤ length xs → take n (xs ++ ys) ≡ take n xs
take-append zero xs ys h = refl
take-append (suc n) [] ys h = absurd (omega arith)
take-append (suc n) (x ∷ xs) ys h = ap (λ r. x ∷ r) (take-append n xs ys (omega arith))

drop-append : (n : ℕ) (xs ys : List ℕ) → n ≤ length xs → drop n (xs ++ ys) ≡ drop n xs ++ ys
drop-append zero xs ys h = refl
drop-append (suc n) [] ys h = absurd (omega arith)
drop-append (suc n) (x ∷ xs) ys h = drop-append n xs ys (omega arith)

-- The first frame of the buffer is the first frame of the whole stream.
record Frame (b c : List ℕ) (p : ℕ × ℕ) : Type 0 where
  same_end : sse_frame_end (b ++ c) ≡ some p
  same_frame : take p.0 (b ++ c) ≡ take p.0 b
  same_rest : after_frame p (b ++ c) ≡ after_frame p b ++ c
  shorter : length (after_frame p b) < length b
  calm : ends_in_cr (after_frame p b) ≡ false

frame_lem :
    (b c : List ℕ) (p : ℕ × ℕ) → ends_in_cr b ≡ false → sse_frame_end b ≡ some p → Frame b c p
frame_lem b c (e, d) whole h =
    let (inside, long) = sse_frame_end_bounds b e d h in
    record {
      same_end = sse_frame_end-append b c e d whole h;
      same_frame = take-append e b c (omega arith);
      same_rest =
          ap (drop d) (drop-append e b c (omega arith))
          ∙ drop-append d (drop e b) c (omega (arith, length-drop {0} e b));
      shorter = omega (arith, length-drop {0} d (drop e b), length-drop {0} e b);
      calm = ends_in_cr-drop d (drop e b) (ends_in_cr-drop e b whole);
    }

-- What one call says of the bytes that were still to come.
abbrev pub Says : List ℕ → ℕ → Next → Type 0
Says b w none = ⊥
Says b w (some (t, err e)) = Decodes b [] (broke e)
Says b w (some (t, ok none)) = Decodes b [] clean
Says b w (some (t, ok (some event))) =
    (chunks : List Chunk) × (t.stream ≡ some chunks)
    × IsCalm chunks
    × (ends_in_cr t.buffered ≡ false)
    × (work t.buffered chunks < w)
    × ((events : List SseEvent) (ending : Ending)
        → Decodes (t.buffered ++ joined chunks) events ending
        → Decodes b (event ∷ events) ending)

Says-weaken :
    (b b' : List ℕ) (w w' : ℕ) (n : Next)
    → ((events : List SseEvent) (ending : Ending)
        → Decodes b' events ending
        → Decodes b events ending)
    → w' ≤ w
    → Says b' w' n
    → Says b w n
Says-weaken b b' w w' none into le s = s
Says-weaken b b' w w' (some (t, err e)) into le s = into [] (broke e) s
Says-weaken b b' w w' (some (t, ok none)) into le s = into [] clean s
Says-weaken b b' w w' (some (t, ok (some event))) into le
      (chunks, open_stream, calm, whole, less, says_more) =
    (
      chunks,
      open_stream,
      calm,
      whole,
      omega arith,
      λ events ending d. into (event ∷ events) ending (says_more events ending d),
    )

Result-cases {ℓ} :
    {A : Type ℓ} (r : Result A) → ((e : TransportError) × (r ≡ err e)) ⊎ ((a : A) × (r ≡ ok a))
Result-cases (ok a) = inr (a, refl)
Result-cases (err e) = inl (e, refl)

is_empty-cases : (b : List ℕ) → (b ≡ []) ⊎ (is_empty b ≡ false)
is_empty-cases [] = inl refl
is_empty-cases (x ∷ xs) = inr refl

-- A buffer that holds a frame.
frame_Says :
    (fuel : ℕ) (b : List ℕ) (chunks : List Chunk) (p : ℕ × ℕ)
    → IsCalm chunks
    → ends_in_cr b ≡ false
    → sse_frame_end b ≡ some p
    → Says
        (after_frame p b ++ joined chunks)
        (work (after_frame p b) chunks)
        (next_event fuel (streaming (after_frame p b) chunks))
    → Says (b ++ joined chunks) (work b chunks) (next_event (suc fuel) (streaming b chunks))
unfolding next_event
frame_Says fuel b chunks p calm whole found later =
    let f = frame_lem b (joined chunks) p whole found in
    let all = b ++ joined chunks in
    let rest = after_frame p b in
    let onto =
      λ (events : List SseEvent) (ending : Ending)
          (d : Decodes (rest ++ joined chunks) events ending).
        subst (λ u. Decodes u events ending) (sym f.same_rest) d in
    let parsed = λ (r : Result (Option SseEvent)) (e : parse_sse_frame (take p.0 b) ≡ r).
      ap parse_sse_frame f.same_frame ∙ e in
    elim (Result-cases (parse_sse_frame (take p.0 b))) [
      | inl (x, e) ↦ rw (found, next_event) (rw e (bad p x f.same_end (parsed (err x) e)))
      | inr (none, e) ↦
          rw (found, next_event)
            (rw e (
              Says-weaken all (rest ++ joined chunks) (work b chunks) (work rest chunks)
                (next_event fuel (streaming rest chunks))
                (λ events ending d. silent p f.same_end (parsed (ok none) e) (onto events ending d))
                (omega (arith, f.shorter)) later))
      | inr (some event, e) ↦
          rw (found, next_event)
            (rw e (
              chunks,
              refl,
              calm,
              f.calm,
              omega (arith, f.shorter),
              λ events ending d.
                  says p event f.same_end (parsed (ok (some event)) e) (onto events ending d),
            ))
    ]

next_event_ended :
    (fuel : ℕ)
    → next_event (suc fuel) (streaming [] [])
      ≡ some (record { stream = none; buffered = [] }, ok none)
unfolding next_event read_chunk sse_frame_end
next_event_ended fuel = refl

pub next_event-Says :
    (fuel : ℕ) (b : List ℕ) (chunks : List Chunk)
    → work b chunks < fuel
    → IsCalm chunks
    → ends_in_cr b ≡ false
    → Says (b ++ joined chunks) (work b chunks) (next_event fuel (streaming b chunks))
unfolding next_event read_chunk
next_event-Says zero b chunks h calm whole = absurd (omega arith)
next_event-Says (suc fuel) b [] h calm whole = elim (Option-cases (sse_frame_end b)) [
  | inr (p, found) ↦ frame_Says fuel b [] p calm whole found (
      next_event-Says fuel (after_frame p b) []
        (omega (arith, (frame_lem b [] p whole found).shorter)) calm
        (frame_lem b [] p whole found).calm)
  | inl none_yet ↦ elim (is_empty-cases b) [
    | inl done ↦
        subst (λ u. Says (u ++ []) (work u []) (next_event (suc fuel) (streaming u []))) (sym done)
          (subst (λ n. Says [] 0 n) (sym (next_event_ended fuel)) (at_end refl))
    | inr partial ↦
        rw (none_yet, next_event)
          (rw partial (
            subst (λ u. Decodes u [] (broke partial_frame)) (sym (append-nil b))
              (cut none_yet partial)))
  ]
]
next_event-Says (suc fuel) b (bytes c ∷ chunks) h calm whole =
    elim (Option-cases (sse_frame_end b)) [
      | inr (p, found) ↦
          let f = frame_lem b [] p whole found in
          frame_Says fuel b (bytes c ∷ chunks) p calm whole found (
            next_event-Says fuel (after_frame p b) (bytes c ∷ chunks) (omega (arith, f.shorter))
              calm f.calm)
      | inl none_yet ↦
          let regrouped = append_assoc b c (joined chunks) in
          let counts : (length (b ++ c) ≡ length b + length c)
              × (length (c ++ joined chunks) ≡ length c + length (joined chunks)) =
            (length-append b c, length-append c (joined chunks)) in
          rw (none_yet, next_event)
            (Says-weaken (b ++ (c ++ joined chunks)) ((b ++ c) ++ joined chunks)
              (work b (bytes c ∷ chunks)) (work (b ++ c) chunks)
              (next_event fuel (streaming (b ++ c) chunks))
              (λ events ending d. subst (λ u. Decodes u events ending) regrouped d)
              (omega (arith, counts.0, counts.1))
              (next_event-Says fuel (b ++ c) chunks (omega (arith, counts.0, counts.1)) calm.1
                (ends_in_cr-append b c whole calm.0)))
    ]
next_event-Says (suc fuel) b (failed e ∷ chunks) h calm whole = elim calm [ ]
