-- ===== src/Net/FrameCodec.antt =====
-- core/src/net/frame_codec.cpp and core/include/fb/net/frame_codec.hpp: `[u32 BE length][payload]`.
-- `error_msg_` is set together with `error_`, to one constant text, and is not kept.
use fin_bit.Prelude.{
  ℕ, zero, suc, ◌+◌, ◌*◌, ◌%◌, ◌^◌, ◌≡◌, List, [], ◌∷◌, ◌++◌, Bool, true, false, Bytes, be32,
  read32, length, get_or, take, drop, ltb, if◌then◌else◌,
}
pub mod Laws
pub mod Stream
mod Tests

abbrev pub max_frame_bytes : ℕ
max_frame_bytes = 8 * 1024 * 1024

-- The length is cast to 32 bits.
unfoldable pub encode_frame : Bytes → Bytes
encode_frame payload = be32 (length payload % 2 ^ 32) ++ payload

pub record FrameDecoder : Type 0 where
  pub buf : Bytes
  pub error : Bool

-- What `try_pop` reports; `frame_ready` carries what it writes to `out`.
pub data Status : Type 0 where
  need_more : Status
  frame_ready : Bytes → Status
  failed : Status

abbrev pub new_decoder : FrameDecoder
new_decoder = record { buf = []; error = false }

unfoldable pub feed : FrameDecoder → Bytes → FrameDecoder
feed d bytes = if d.error then d else record d { buf = d.buf ++ bytes }

abbrev pub frame_length : Bytes → ℕ
frame_length buf = read32 (get_or buf 0 0) (get_or buf 1 0) (get_or buf 2 0) (get_or buf 3 0)

unfoldable pub try_pop : FrameDecoder → Status × FrameDecoder
try_pop d =
    let len = frame_length d.buf in
    if d.error
    then (failed, d)
    else (if ltb (length d.buf) 4
        then (need_more, d)
        else (if ltb max_frame_bytes len
            then (failed, record d { error = true })
            else (if ltb (length d.buf) (4 + len) then (need_more, d) else (
              frame_ready (take len (drop 4 d.buf)),
              record d { buf = drop (4 + len) d.buf },
            ))))

-- `while ((st = dec.try_pop(frame)) == kFrameReady) …` of core/src/p2p/gossip.cpp: the frames in
-- order, and the decoder that is left.
unfoldable pub drain : ℕ → FrameDecoder → List Bytes × FrameDecoder
drain zero d = ([], d)
drain (suc fuel) d = elim (try_pop d).0 [
  | frame_ready payload ↦ let r = drain fuel (try_pop d).1 in (payload ∷ r.0, r.1)
  | need_more ↦ ([], (try_pop d).1)
  | failed ↦ ([], (try_pop d).1)
]

-- One read from the socket: feed it, then take every frame that is complete. A frame takes at
-- least 4 bytes, so a round for each byte is more than enough.
unfoldable pub receive : FrameDecoder → Bytes → List Bytes × FrameDecoder
unfolding drain
receive d chunk = let d' = feed d chunk in drain (suc (length d'.buf)) d'

-- The reads of one connection.
unfoldable pub receive_all : FrameDecoder → List Bytes → List Bytes × FrameDecoder
unfolding receive
receive_all d [] = ([], d)
receive_all d (chunk ∷ chunks) =
    let r = receive d chunk in let s = receive_all r.1 chunks in (r.0 ++ s.0, s.1)
