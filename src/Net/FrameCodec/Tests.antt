-- ===== src/Net/FrameCodec/Tests.antt =====
-- Runs of the frame decoder, and the theorems at concrete inputs.
use mathlib.Core.List.{flatten}
use fin_bit.Prelude.{◌≡◌, refl, List, [], ◌∷◌, Bytes, arith, some}
use fin_bit.Net.FrameCodec.{failed, new_decoder, encode_frame, feed, try_pop, receive, receive_all}
use fin_bit.Net.FrameCodec.Stream.{outcome, receive_all-flatten, receive_all-encode_all}

-- Two frames, `7 8` and the empty one, cut inside the header and inside the payload.
abbrev reads : List Bytes
reads = (0 ∷ 0 ∷ []) ∷ (0 ∷ 2 ∷ 7 ∷ []) ∷ (8 ∷ 0 ∷ 0 ∷ 0 ∷ 0 ∷ []) ∷ []

abbrev payloads : List Bytes
payloads = (7 ∷ 8 ∷ []) ∷ [] ∷ []

encodes : encode_frame (7 ∷ 8 ∷ []) ≡ 0 ∷ 0 ∷ 0 ∷ 2 ∷ 7 ∷ 8 ∷ []
unfolding encode_frame
encodes = refl

rejects_oversize : (try_pop (feed new_decoder (1 ∷ 0 ∷ 0 ∷ 0 ∷ []))).0 ≡ failed
unfolding try_pop feed
rejects_oversize = refl

receive_all-flatten_example :
    outcome (receive_all new_decoder reads) ≡ outcome (receive new_decoder (flatten reads))
receive_all-flatten_example = receive_all-flatten reads

receive_all-encode_all_example : outcome (receive_all new_decoder reads) ≡ (payloads, some [])
unfolding encode_frame flatten
receive_all-encode_all_example = receive_all-encode_all payloads reads (omega arith) refl
