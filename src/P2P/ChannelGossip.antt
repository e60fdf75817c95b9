-- ===== src/P2P/ChannelGossip.antt =====
-- core/src/p2p/channel_gossip.cpp: the gossip topic of a channel and of a room.
use fin_bit.Prelude.{ℕ, ◌/◌, ◌%◌, [], ◌∷◌, ◌++◌, Bytes, length, get_or, eqb, if◌then◌else◌}
use fin_bit.Prelude.Result.{Result, ok, err}
pub mod Laws
mod Tests

-- `std::invalid_argument`, told apart by the function that throws it.
pub data TopicError : Type 0 where
  bad_channel_id bad_room_id : TopicError

abbrev pub channel_gossip_topic_prefix : Bytes
channel_gossip_topic_prefix = b'f' ∷ b'b' ∷ b'-' ∷ b'c' ∷ b'h' ∷ b'a' ∷ b'n' ∷ b':' ∷ []

abbrev pub room_gossip_topic_prefix : Bytes
room_gossip_topic_prefix = b'f' ∷ b'b' ∷ b'-' ∷ b'r' ∷ b'o' ∷ b'o' ∷ b'm' ∷ b':' ∷ []

abbrev pub hex : Bytes
hex =
    b'0' ∷ b'1' ∷ b'2' ∷ b'3' ∷ b'4' ∷ b'5' ∷ b'6' ∷ b'7' ∷ b'8' ∷ b'9' ∷ b'a' ∷ b'b' ∷ b'c' ∷ b'd'
    ∷ b'e' ∷ b'f' ∷ []

unfoldable pub hex_bytes : Bytes → Bytes
hex_bytes [] = []
hex_bytes (b ∷ id) = get_or hex (b / 16 % 16) 0 ∷ get_or hex (b % 16) 0 ∷ hex_bytes id

unfoldable pub hex_topic : Bytes → Bytes → Bytes
unfolding hex_bytes
hex_topic prefix id = prefix ++ hex_bytes id

unfoldable pub channel_topic_name : Bytes → Result TopicError Bytes
unfolding hex_topic
channel_topic_name channel_id =
    if eqb (length channel_id) 32
    then ok (hex_topic channel_gossip_topic_prefix channel_id)
    else err bad_channel_id

unfoldable pub room_topic_name : Bytes → Result TopicError Bytes
unfolding hex_topic
room_topic_name room_id =
    if eqb (length room_id) 32
    then ok (hex_topic room_gossip_topic_prefix room_id)
    else err bad_room_id
