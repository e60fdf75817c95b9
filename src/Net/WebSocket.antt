-- ===== src/Net/WebSocket.antt =====
-- core/src/net/websocket.cpp, from build_server_binary_frame on: the frames of RFC 6455, built by
-- both sides, and the parser. The four bytes of a mask are an argument: they are random.
use fin_bit.Prelude.{
  ℕ, zero, suc, ◌+◌, ◌-◌, ◌*◌, ◌/◌, ◌%◌, ◌≡◌, List, [], ◌∷◌, ◌++◌, Bool, true, false, ◌&&◌, ◌||◌,
  not, Bytes, be16, be64, read16, byte_xor, length, get_or, take, drop, ltb, leb, eqb,
  if◌then◌else◌,
}
pub mod Parser
pub mod Masking
pub mod Laws
pub mod Messages
pub mod Turns
mod Tests

abbrev pub max_message_bytes : ℕ
max_message_bytes = 8 * 1024 * 1024

-- The length field: 7 bits, or 126 and 16 bits, or 127 and 64 bits. `flag` is 0x80 for a masked
-- frame, and `0x80 | n` is a sum for n below 0x80.
unfoldable pub length_field : ℕ → ℕ → Bytes
length_field flag len =
    if ltb len 126
    then (flag + len) ∷ []
    else (if leb len 65535 then (flag + 126) ∷ be16 len else (flag + 127) ∷ be64 len)

unfoldable pub build_server_binary_frame : Bytes → Bytes
unfolding length_field
build_server_binary_frame payload = 130 ∷ (length_field 0 (length payload) ++ payload)

abbrev pub build_close_frame : Bytes
build_close_frame = 136 ∷ 0 ∷ []

-- The 4-byte masking key.
pub record Mask : Type 0 where
  pub b0 : ℕ
  pub b1 : ℕ
  pub b2 : ℕ
  pub b3 : ℕ

-- `x[i] ^ mask[i & 3]`, byte after byte: the key turns by one place at each.
unfoldable pub apply_mask : Mask → Bytes → Bytes
apply_mask m [] = []
apply_mask m (x ∷ xs) =
    byte_xor x m.b0 ∷ apply_mask (record { b0 = m.b1; b1 = m.b2; b2 = m.b3; b3 = m.b0 }) xs

unfoldable pub build_masked_frame : Mask → ℕ → Bytes → Bytes
unfolding length_field apply_mask
build_masked_frame m opcode payload =
    (128 + opcode)
    ∷ (length_field 128 (length payload) ++ (m.b0 ∷ m.b1 ∷ m.b2 ∷ m.b3 ∷ apply_mask m payload))

unfoldable pub build_client_binary_frame : Mask → Bytes → Bytes
unfolding build_masked_frame
build_client_binary_frame m payload = build_masked_frame m 2 payload

unfoldable pub build_client_close_frame : Mask → Bytes
unfolding build_masked_frame
build_client_close_frame m = build_masked_frame m 8 []
