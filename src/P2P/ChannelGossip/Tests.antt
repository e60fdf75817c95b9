-- ===== src/P2P/ChannelGossip/Tests.antt =====
-- Topics of small ids.
use fin_bit.Prelude.{◌≡◌, refl, [], ◌∷◌}
use fin_bit.Prelude.Result.{err}
use fin_bit.P2P.ChannelGossip.{bad_channel_id, channel_topic_name, hex_bytes}

hex_of_bytes : hex_bytes (0x5f ∷ 0xa0 ∷ []) ≡ b'5' ∷ b'f' ∷ b'a' ∷ b'0' ∷ []
unfolding hex_bytes
hex_of_bytes = refl

short_id : channel_topic_name (1 ∷ 2 ∷ []) ≡ err bad_channel_id
unfolding channel_topic_name
short_id = refl
