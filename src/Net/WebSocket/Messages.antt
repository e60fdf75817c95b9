-- ===== src/Net/WebSocket/Messages.antt =====
-- Whole messages: in one frame, or in fragments with control frames between them.
use fin_bit.Prelude.{
  ℕ, zero, suc, ◌+◌, ◌≤◌, ◌<◌, ◌≡◌, refl, sym, ap, ◌∙◌, List, [], ◌∷◌, ◌++◌, none, true, false,
  Bytes, IsBytes, length, length-append, ltb, arith, append_assoc,
}
use fin_bit.Net.WebSocket.{
  max_message_bytes, Mask, build_server_binary_frame, build_masked_frame, build_client_binary_frame,
}
use fin_bit.Net.WebSocket.Laws.{masked_frame, turn-masked_frame, turn-unmasked_frame}
use fin_bit.Net.WebSocket.Parser.{
  FrameParser, frame_ready, returns, continues, dispatch, turns, try_pop,
}

-- The parser after a whole message.
abbrev pub emptied : FrameParser → Bytes → FrameParser
emptied p rest = record p { buf = rest; partial = []; in_fragment = false }

dispatch_binary :
    (payload : Bytes) (p : FrameParser)
    → length payload ≤ max_message_bytes
    → dispatch true 2 payload p ≡ returns (frame_ready payload) (emptied p p.buf)
unfolding dispatch
dispatch_binary payload p h =
    let small : ltb max_message_bytes (length payload) ≡ false = ground arith in
    rw (small, dispatch) refl

-- A frame that a client built of a payload within the size limit, in front of any bytes, is the next
-- message of a parser that has no error, whichever direction it expects; a message in fragments that
-- had begun is given up.
pub try_pop-build_client_binary_frame :
    (p : FrameParser) (m : Mask) (payload rest : Bytes)
    → p.error ≡ none
    → IsBytes payload
    → length payload ≤ max_message_bytes
    → try_pop (record p { buf = build_client_binary_frame m payload ++ rest })
      ≡ (frame_ready payload, emptied p rest)
unfolding build_client_binary_frame build_masked_frame try_pop turns
try_pop-build_client_binary_frame p m payload rest clean b h =
    rw (clean, try_pop)
      (rw (turn-masked_frame p 130 m payload rest b h, turns)
        (rw (dispatch_binary payload (record p { buf = rest }) h, turns) (rw clean refl)))

-- The same for a frame that a server built and a parser that takes unmasked frames.
pub try_pop-build_server_binary_frame :
    (p : FrameParser) (payload rest : Bytes)
    → p.error ≡ none
    → p.expect_masked ≡ false
    → IsBytes payload
    → length payload ≤ max_message_bytes
    → try_pop (record p { buf = build_server_binary_frame payload ++ rest })
      ≡ (frame_ready payload, emptied p rest)
unfolding build_server_binary_frame try_pop turns
try_pop-build_server_binary_frame p payload rest clean allowed b h =
    rw (clean, try_pop)
      (rw (turn-unmasked_frame p 130 payload rest b h allowed, turns)
        (rw (dispatch_binary payload (record p { buf = rest }) h, turns) (rw clean refl)))

-- What may follow the first fragment of a message.
pub data Piece : Type 0 where
  continuation ping pong : Mask → Bytes → Piece

abbrev pub first_byte : Piece → ℕ
first_byte (continuation m xs) = 0
first_byte (ping m xs) = 137
first_byte (pong m xs) = 138

abbrev pub frame_of : Piece → Bytes
frame_of (continuation m xs) = masked_frame 0 m xs
frame_of (ping m xs) = masked_frame 137 m xs
frame_of (pong m xs) = masked_frame 138 m xs

-- The bytes of the pieces, then those that follow.
abbrev pub frames_of : List Piece → Bytes → Bytes
frames_of [] rest = rest
frames_of (x ∷ xs) rest = frame_of x ++ frames_of xs rest

-- What the pieces add to the message.
abbrev pub text_of : List Piece → Bytes
text_of [] = []
text_of (continuation m payload ∷ xs) = payload ++ text_of xs
text_of (ping m payload ∷ xs) = text_of xs
text_of (pong m payload ∷ xs) = text_of xs

abbrev pub AreSmall : List Piece → Type 0
AreSmall [] = Unit
AreSmall (continuation m payload ∷ xs) = IsBytes payload × AreSmall xs
AreSmall (ping m payload ∷ xs) =
    IsBytes payload × (length payload ≤ max_message_bytes) × AreSmall xs
AreSmall (pong m payload ∷ xs) =
    IsBytes payload × (length payload ≤ max_message_bytes) × AreSmall xs

abbrev assembling : FrameParser → Bytes → Bytes → FrameParser
assembling p so_far rest = record p { buf = rest; partial = so_far; in_fragment = true }

dispatch_continuation :
    (p : FrameParser) (so_far payload rest : Bytes)
    → length so_far + length payload ≤ max_message_bytes
    → dispatch false 0 payload (assembling p so_far rest)
      ≡ continues (assembling p (so_far ++ payload) rest)
unfolding dispatch
dispatch_continuation p so_far payload rest h =
    let small : ltb max_message_bytes (length (so_far ++ payload)) ≡ false =
      ground (arith, length-append so_far payload) in
    rw (small, dispatch) refl

dispatch_last :
    (p : FrameParser) (so_far payload rest : Bytes)
    → length so_far + length payload ≤ max_message_bytes
    → dispatch true 0 payload (assembling p so_far rest)
      ≡ returns (frame_ready (so_far ++ payload)) (emptied p rest)
unfolding dispatch
dispatch_last p so_far payload rest h =
    let small : ltb max_message_bytes (length (so_far ++ payload)) ≡ false =
      ground (arith, length-append so_far payload) in
    rw (small, dispatch) refl

turns-pieces :
    (xs : List Piece) (fuel : ℕ) (p : FrameParser) (so_far last rest : Bytes) (m : Mask)
    → length xs < fuel
    → AreSmall xs
    → IsBytes last
    → length so_far + length (text_of xs) + length last ≤ max_message_bytes
    → turns fuel (assembling p so_far (frames_of xs (masked_frame 128 m last ++ rest)))
      ≡ (frame_ready (so_far ++ (text_of xs ++ last)), emptied p rest)
unfolding turns
turns-pieces xs zero p so_far last rest m f s b h = absurd (omega arith)
turns-pieces [] (suc fuel) p so_far last rest m f s b h =
    rw (turn-masked_frame (assembling p so_far []) 128 m last rest b (omega arith), turns)
      (rw (dispatch_last p so_far last rest (omega arith), turns) refl)
turns-pieces (continuation k payload ∷ xs) (suc fuel) p so_far last rest m f s b h =
    let after : Bytes = frames_of xs (masked_frame 128 m last ++ rest) in
    rw
      (
        turn-masked_frame (assembling p so_far []) 0 k payload after s.0
            (omega (arith, length-append payload (text_of xs))),
        turns,
      )
      (rw
        (
          dispatch_continuation p so_far payload after
              (omega (arith, h, length-append payload (text_of xs))),
          turns,
        )
        (turns-pieces xs fuel p (so_far ++ payload) last rest m (omega arith) s.1 b
            (omega (arith, h, length-append payload (text_of xs), length-append so_far payload))
          ∙ ap (λ t. (frame_ready t, emptied p rest))
              (append_assoc so_far payload (text_of xs ++ last)
                ∙ ap (λ t. so_far ++ t) (sym (append_assoc payload (text_of xs) last)))))
turns-pieces (ping k payload ∷ xs) (suc fuel) p so_far last rest m f s b h =
    let after : Bytes = frames_of xs (masked_frame 128 m last ++ rest) in
    rw (turn-masked_frame (assembling p so_far []) 137 k payload after s.0 s.1, turns)
      (turns-pieces xs fuel p so_far last rest m (omega arith) s.2 b h)
turns-pieces (pong k payload ∷ xs) (suc fuel) p so_far last rest m f s b h =
    let after : Bytes = frames_of xs (masked_frame 128 m last ++ rest) in
    rw (turn-masked_frame (assembling p so_far []) 138 k payload after s.0 s.1, turns)
      (turns-pieces xs fuel p so_far last rest m (omega arith) s.2 b h)

length-frames_of :
    (xs : List Piece) (rest : Bytes) → length xs + length rest ≤ length (frames_of xs rest)
length-frames_of [] rest = omega arith
length-frames_of (continuation m payload ∷ xs) rest =
    omega (
      arith,
      length-frames_of xs rest,
      length-append (masked_frame 0 m payload) (frames_of xs rest),
    )
length-frames_of (ping m payload ∷ xs) rest = omega (
  arith,
  length-frames_of xs rest,
  length-append (masked_frame 137 m payload) (frames_of xs rest),
)
length-frames_of (pong m payload ∷ xs) rest = omega (
  arith,
  length-frames_of xs rest,
  length-append (masked_frame 138 m payload) (frames_of xs rest),
)

dispatch_first :
    (p : FrameParser) (payload rest : Bytes)
    → length payload ≤ max_message_bytes
    → dispatch false 2 payload (record p { buf = rest }) ≡ continues (assembling p payload rest)
unfolding dispatch
dispatch_first p payload rest h =
    let small : ltb max_message_bytes (length payload) ≡ false = ground arith in
    rw (small, dispatch) refl

-- A binary message in fragments, with pings and pongs between them, is returned whole by a parser
-- without an error that has all of it in its buffer, if every frame is masked and has its length in
-- the shortest form, and neither the message nor any ping or pong is longer than the limit.
pub try_pop-fragments :
    (p : FrameParser) (m n : Mask) (head : Bytes) (xs : List Piece) (last rest : Bytes)
    → p.error ≡ none
    → IsBytes head
    → AreSmall xs
    → IsBytes last
    → length head + length (text_of xs) + length last ≤ max_message_bytes
    → try_pop
        (record p { buf = masked_frame 2 m head ++ frames_of xs (masked_frame 128 n last ++ rest) })
      ≡ (frame_ready (head ++ (text_of xs ++ last)), emptied p rest)
unfolding try_pop turns
try_pop-fragments p m n head xs last rest clean bh s bl h =
    let after : Bytes = frames_of xs (masked_frame 128 n last ++ rest) in
    rw (clean, try_pop)
      (rw (turn-masked_frame p 2 m head after bh (omega arith), turns)
        (rw (dispatch_first p head after (omega arith), turns)
          (turns-pieces xs (length (masked_frame 2 m head ++ after)) p head last rest n
              (omega (
                arith,
                length-append (masked_frame 2 m head) after,
                length-frames_of xs (masked_frame 128 n last ++ rest),
              ))
              s bl h
            ∙ ap
                (λ e. (
                  frame_ready (head ++ (text_of xs ++ last)),
                  record (emptied p rest) { error = e },
                ))
                clean)))
