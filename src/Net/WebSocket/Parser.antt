-- ===== src/Net/WebSocket/Parser.antt =====
-- FrameParser of core/src/net/websocket.cpp. Each error text is a constructor.
use fin_bit.Prelude.{
  ℕ, zero, suc, ◌+◌, ◌/◌, ◌%◌, [], ◌++◌, Option, none, some, Bool, true, false, ◌&&◌, ◌||◌, not,
  Bytes, read16, read64, length, get_or, take, drop, ltb, eqb, if◌then◌else◌,
}
use fin_bit.Net.WebSocket.{max_message_bytes, Mask, apply_mask}

pub data ParseError : Type 0 where
  missing_mask payload_too_large lone_continuation message_too_large unknown_opcode : ParseError

-- `frame_ready` carries what the call writes to `out`.
pub data PopStatus : Type 0 where
  need_more close failed : PopStatus
  frame_ready : Bytes → PopStatus

pub record FrameParser : Type 0 where
  pub expect_masked : Bool
  pub buf : Bytes
  pub partial : Bytes
  pub in_fragment : Bool
  pub error : Option ParseError

abbrev pub new_parser : Bool → FrameParser
new_parser expect_masked = record {
  expect_masked = expect_masked;
  buf = [];
  partial = [];
  in_fragment = false;
  error = none;
}

unfoldable pub feed : FrameParser → Bytes → FrameParser
feed p bytes = elim p.error [ none ↦ record p { buf = p.buf ++ bytes } | some e ↦ p ]

-- A turn of the loop returns, or goes round again.
pub data Turn : Type 0 where
  returns : PopStatus → FrameParser → Turn
  continues : FrameParser → Turn

abbrev pub fails : ParseError → FrameParser → Turn
fails e p = returns failed (record p { error = some e })

-- The payload length and the header length, or that more bytes are needed.
unfoldable pub payload_length : Bytes → Option (ℕ × ℕ)
payload_length buf =
    let field = get_or buf 1 0 % 128 in
    if eqb field 126
    then (if ltb (length buf) 4 then none else some (read16 (get_or buf 2 0) (get_or buf 3 0), 4))
    else (if eqb field 127
        then (if ltb (length buf) 10 then none else some (read64 buf 2, 10))
        else some (field, 2))

-- A frame that has left the buffer.
unfoldable pub dispatch : Bool → ℕ → Bytes → FrameParser → Turn
dispatch fin opcode payload p =
    let started = if eqb opcode 0 then p else record p { partial = []; in_fragment = true } in
    let joined = record started { partial = started.partial ++ payload } in
    if eqb opcode 8
    then returns close p
    else (if eqb opcode 9
        then continues p
        else (if eqb opcode 10
            then continues p
            else (if eqb opcode 0 && not p.in_fragment
                then fails lone_continuation p
                else (if eqb opcode 1 || eqb opcode 2 || eqb opcode 0
                    then (if ltb max_message_bytes (length joined.partial)
                        then fails message_too_large joined
                        else (if fin
                            then returns (frame_ready joined.partial)
                                (record joined { in_fragment = false; partial = [] })
                            else continues joined))
                    else fails unknown_opcode p))))

abbrev pub mask_at : Bool → Bytes → ℕ → Mask
mask_at masked buf at =
    if masked
    then record {
      b0 = get_or buf at 0;
      b1 = get_or buf (at + 1) 0;
      b2 = get_or buf (at + 2) 0;
      b3 = get_or buf (at + 3) 0;
    }
    else record { b0 = 0; b1 = 0; b2 = 0; b3 = 0 }

-- One turn, on a parser without an error.
unfoldable pub turn : FrameParser → Turn
unfolding payload_length dispatch apply_mask
turn p =
    let first = get_or p.buf 0 0 in
    let fin = eqb (first / 128 % 2) 1 in
    let opcode = first % 16 in
    let masked = eqb (get_or p.buf 1 0 / 128 % 2) 1 in
    if ltb (length p.buf) 2
    then returns need_more p
    else (if p.expect_masked && not masked
        then fails missing_mask p
        else elim (payload_length p.buf) [
          | none ↦ returns need_more p
          | some (len, header_len) ↦
              let mask_bytes = if masked then 4 else 0 in
              let start = header_len + mask_bytes in
              if ltb max_message_bytes len
              then fails payload_too_large p
              else (if ltb (length p.buf) (start + len)
                  then returns need_more p
                  else dispatch fin opcode
                      (apply_mask (mask_at masked p.buf header_len) (take len (drop start p.buf)))
                      (record p { buf = drop (start + len) p.buf }))
        ])

unfoldable pub turns : ℕ → FrameParser → PopStatus × FrameParser
unfolding turn
turns zero p = (need_more, p)
turns (suc fuel) p = elim (turn p) [ returns s q ↦ (s, q) | continues q ↦ turns fuel q ]

-- A turn that goes round again has taken at least two bytes from the buffer.
unfoldable pub try_pop : FrameParser → PopStatus × FrameParser
unfolding turns
try_pop p = elim p.error [ none ↦ turns (suc (length p.buf)) p | some e ↦ (failed, p) ]
