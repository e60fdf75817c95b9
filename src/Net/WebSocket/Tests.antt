-- ===== src/Net/WebSocket/Tests.antt =====
-- Small messages in both directions.
use fin_bit.Prelude.{◌≡◌, ◌++◌, refl, List, [], ◌∷◌, some, true, arith}
use fin_bit.Net.WebSocket.{Mask, build_client_binary_frame}
use fin_bit.Net.WebSocket.Laws.{masked_frame}
use fin_bit.Net.WebSocket.Messages as Messages
use fin_bit.Net.WebSocket.Messages.{Piece, frames_of, text_of, emptied}
use fin_bit.Net.WebSocket.Turns as Turns
use fin_bit.Net.WebSocket.Parser.{
  FrameParser, frame_ready, missing_mask, new_parser, try_pop, turns,
}

abbrev key : Mask
key = record { b0 = 1; b1 = 2; b2 = 3; b3 = 4 }

try_pop-build_client_binary_frame_example :
    try_pop
      (record (new_parser true) { buf = build_client_binary_frame key (7 ∷ 8 ∷ []) ++ (5 ∷ []) })
    ≡ (frame_ready (7 ∷ 8 ∷ []), emptied (new_parser true) (5 ∷ []))
try_pop-build_client_binary_frame_example =
    Messages.try_pop-build_client_binary_frame (new_parser true) key (7 ∷ 8 ∷ []) (5 ∷ []) refl
      (omega arith) (omega arith)

abbrev middle : List Piece
middle = Piece.ping key (1 ∷ []) ∷ Piece.continuation key (8 ∷ []) ∷ []

try_pop-fragments_example :
    try_pop (record (new_parser true) {
      buf = masked_frame 2 key (7 ∷ []) ++ frames_of middle (masked_frame 128 key (9 ∷ []) ++ []);
    })
    ≡ (frame_ready (7 ∷ 8 ∷ 9 ∷ []), emptied (new_parser true) [])
try_pop-fragments_example =
    Messages.try_pop-fragments (new_parser true) key key (7 ∷ []) middle (9 ∷ []) [] refl
      (omega arith) (omega arith) (omega arith) (omega arith)

abbrev unmasked : FrameParser
unmasked = record (new_parser true) { buf = 130 ∷ 0 ∷ [] }

turns_enough_example : turns 10 unmasked ≡ try_pop unmasked
turns_enough_example = Turns.turns_enough unmasked 10 refl (omega arith)

abbrev stopped : FrameParser
stopped = record unmasked { error = some missing_mask }
