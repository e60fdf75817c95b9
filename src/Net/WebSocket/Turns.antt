-- ===== src/Net/WebSocket/Turns.antt =====
-- The loop of the parser ends, and an error stays.
use fin_bit.Prelude.{
  ℕ, zero, suc, ◌+◌, ◌/◌, ◌%◌, ◌≤◌, ◌<◌, ◌≡◌, ◌≢◌, refl, sym, ap, ◌∙◌, ◌++◌, Option, none, some,
  Bool, ◌&&◌, not, Bytes, length, length-drop, ltb, eqb, if◌then◌else◌, arith, Bool-cases,
  Option-cases, inl, inr, ◌⊎◌, drop, get_or, take,
}
use fin_bit.Net.WebSocket.{max_message_bytes, apply_mask}
use fin_bit.Net.WebSocket.Parser.{
  FrameParser, ParseError, PopStatus, missing_mask, payload_too_large, need_more, failed, Turn,
  returns, continues, payload_length, dispatch, feed, mask_at, turn, turns, try_pop,
}

-- What a dispatched frame may lead to: the buffer stays, and an error is recorded.
dispatch_continues :
    (fin : Bool) (opcode : ℕ) (payload : Bytes) (p q : FrameParser)
    → dispatch fin opcode payload p ≡ continues q
    → (q.buf ≡ p.buf) × (q.error ≡ p.error)
unfolding dispatch
dispatch_continues fin opcode payload p q h = ground arith

dispatch_failed :
    (fin : Bool) (opcode : ℕ) (payload : Bytes) (p q : FrameParser)
    → dispatch fin opcode payload p ≡ returns failed q
    → q.error ≢ none
unfolding dispatch
dispatch_failed fin opcode payload p q h e = ground arith

payload_length_lem :
    (buf : Bytes) (len header_len : ℕ)
    → payload_length buf ≡ some (len, header_len)
    → 2 ≤ header_len
unfolding payload_length
payload_length_lem buf len header_len h = ground arith

-- What a turn may do.
abbrev TurnCases : FrameParser → Type 0
TurnCases p =
    (turn p ≡ returns need_more p)
    ⊎ ((e : ParseError) × (turn p ≡ returns failed (record p { error = some e })))
    ⊎ ((fin : Bool) × (opcode : ℕ) × (payload : Bytes) × (n : ℕ) × (2 ≤ n)
        × (2 ≤ length p.buf)
        × (turn p ≡ dispatch fin opcode payload (record p { buf = drop n p.buf })))

turn_cases : (p : FrameParser) → TurnCases p
unfolding turn
turn_cases p =
    let masked : Bool = eqb (get_or p.buf 1 0 / 128 % 2) 1 in
    elim (Bool-cases (ltb (length p.buf) 2)) [
      | inl short ↦ inl (rw (short, turn) refl)
      | inr two ↦ elim (Bool-cases (p.expect_masked && not masked)) [
        | inl wrong ↦ inr (inl (missing_mask, rw (two, turn) (rw (wrong, turn) refl)))
        | inr right ↦ elim (Option-cases (payload_length p.buf)) [
          | inl waiting ↦ inl (rw (two, turn) (rw (right, turn) (rw (waiting, turn) refl)))
          | inr ((len, header_len), known) ↦ elim (Bool-cases (ltb max_message_bytes len)) [
            | inl large ↦ inr (
                inl (
                  payload_too_large,
                  rw (two, turn) (rw (right, turn) (rw (known, turn) (rw (large, turn) refl))),
                ))
            | inr small ↦
                let n : ℕ = header_len + (if masked then 4 else 0) in
                elim (Bool-cases (ltb (length p.buf) (n + len))) [
                  | inl part ↦ inl (
                      rw (two, turn)
                        (rw (right, turn)
                          (rw (known, turn) (rw (small, turn) (rw (part, turn) refl)))))
                  | inr whole ↦ inr (
                      inr (
                        eqb (get_or p.buf 0 0 / 128 % 2) 1,
                        get_or p.buf 0 0 % 16,
                        apply_mask (mask_at masked p.buf header_len) (take len (drop n p.buf)),
                        n + len,
                        omega (arith, payload_length_lem p.buf len header_len known),
                        ground arith,
                        rw (two, turn)
                            (rw (right, turn)
                              (rw (known, turn) (rw (small, turn) (rw (whole, turn) refl)))),
                      ))
                ]
          ]
        ]
      ]
    ]

-- A turn that goes round again has taken at least two bytes.
turn_continues :
    (p q : FrameParser)
    → turn p ≡ continues q
    → (length q.buf + 2 ≤ length p.buf) × (q.error ≡ p.error)
turn_continues p q h = elim (turn_cases p) [
  | inl waits ↦ absurd (ground (arith, waits))
  | inr (inl (e, fails)) ↦ absurd (ground (arith, fails))
  | inr (inr (fin, opcode, payload, n, two, enough, takes)) ↦
      let d =
        dispatch_continues fin opcode payload (record p { buf = drop n p.buf }) q (sym takes ∙ h) in
      (omega (arith, ap length d.0, length-drop n p.buf), d.1)
]

turn_failed : (p q : FrameParser) → turn p ≡ returns failed q → q.error ≢ none
turn_failed p q h none_yet = elim (turn_cases p) [
  | inl waits ↦ ground (arith, waits)
  | inr (inl (e, fails)) ↦ ground (arith, fails)
  | inr (inr (fin, opcode, payload, n, two, enough, takes)) ↦
      dispatch_failed fin opcode payload (record p { buf = drop n p.buf }) q (sym takes ∙ h)
        none_yet
]

Turn-cases :
    (t : Turn)
    → ((s : PopStatus) × (q : FrameParser) × (t ≡ returns s q))
      ⊎ ((q : FrameParser) × (t ≡ continues q))
Turn-cases (returns s q) = inl (s, q, refl)
Turn-cases (continues q) = inr (q, refl)

turns_returns :
    (n : ℕ) (p q : FrameParser) (s : PopStatus) → turn p ≡ returns s q → turns (suc n) p ≡ (s, q)
unfolding turns
turns_returns n p q s e = rw (e, turns) refl

turns_continues : (n : ℕ) (p q : FrameParser) → turn p ≡ continues q → turns (suc n) p ≡ turns n q
unfolding turns
turns_continues n p q e = rw (e, turns) refl

any_two : (m n : ℕ) (p : FrameParser) → length p.buf < m → length p.buf < n → turns m p ≡ turns n p
any_two zero n p hm hn = absurd (omega arith)
any_two (suc m) zero p hm hn = absurd (omega arith)
any_two (suc m) (suc n) p hm hn = elim (Turn-cases (turn p)) [
  | inl (s, q, e) ↦ turns_returns m p q s e ∙ sym (turns_returns n p q s e)
  | inr (q, e) ↦
      let shorter = (turn_continues p q e).0 in
      turns_continues m p q e
      ∙ any_two m n q (omega (arith, shorter)) (omega (arith, shorter))
      ∙ sym (turns_continues n p q e)
]

-- More rounds of the loop than bytes in the buffer change nothing: the loop of the source, which
-- has no bound, ends.
pub turns_enough :
    (p : FrameParser) (fuel : ℕ) → p.error ≡ none → length p.buf < fuel → turns fuel p ≡ try_pop p
unfolding try_pop
turns_enough p fuel clean h =
    any_two fuel (suc (length p.buf)) p h (omega arith)
    ∙ sym (
        ap
          (λ (o : Option ParseError). elim o [
            | none ↦ turns (suc (length p.buf)) p
            | some e ↦ (failed, p)
          ])
          clean)

turns_zero : (p : FrameParser) → turns 0 p ≡ (need_more, p)
unfolding turns
turns_zero p = refl

turns_failed : (fuel : ℕ) (p q : FrameParser) → turns fuel p ≡ (failed, q) → q.error ≢ none
turns_failed zero p q h e =
    let waits : need_more ≡ failed =
      ap (λ (x : PopStatus × FrameParser). x.0) (sym (turns_zero p) ∙ h) in
    ground (arith, waits)
turns_failed (suc fuel) p q h e = elim (Turn-cases (turn p)) [
  | inl (s, r, t) ↦
      let same : Path (PopStatus × FrameParser) (s, r) (failed, q) =
        sym (turns_returns fuel p r s t) ∙ h in
      turn_failed p q (t ∙ ap (λ (x : PopStatus × FrameParser). returns x.0 x.1) same) e
  | inr (r, t) ↦ turns_failed fuel r q (sym (turns_continues fuel p r t) ∙ h) e
]

-- Once a call reports an error, every later one does, and no bytes are read any more.
pub try_pop-failed :
    (p q : FrameParser) (bytes : Bytes)
    → p.error ≡ none
    → try_pop p ≡ (failed, q)
    → (feed q bytes ≡ q) × (try_pop (feed q bytes) ≡ (failed, q))
unfolding try_pop feed
try_pop-failed p q bytes clean h = elim (Option-cases q.error) [
  | inl e ↦ absurd (
      turns_failed (suc (length p.buf)) p q
        (turns_enough p (suc (length p.buf)) clean (omega arith) ∙ h) e)
  | inr (x, e) ↦
      let same : feed q bytes ≡ q =
        ap
          (λ (o : Option ParseError). elim o [
            | none ↦ record q { buf = q.buf ++ bytes }
            | some y ↦ q
          ])
          e in
      (
        same,
        ap (λ r. try_pop r) same
            ∙ ap
                (λ (o : Option ParseError). elim o [
                  | none ↦ turns (suc (length q.buf)) q
                  | some y ↦ (failed, q)
                ])
                e,
      )
]
