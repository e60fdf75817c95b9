-- ===== src/P2P/ChannelGossip/Laws.antt =====
-- core/src/p2p/channel_gossip.cpp: different channels and rooms have different topics.
use fin_bit.Prelude.{
  ℕ, ◌-◌, ◌/◌, ◌%◌, ◌<◌, ◌≡◌, refl, sym, ap, ◌∙◌, ◌≢◌, inl, inr, Bool, true, [], ◌∷◌, ◌++◌, Bytes,
  IsBytes, length, get_or, drop, eqb, leb, if◌then◌else◌, arith, Bool-cases, all_below,
  all_below_lem,
}
use fin_bit.Prelude.Result.{ok}
use fin_bit.P2P.ChannelGossip.{
  channel_gossip_topic_prefix, channel_topic_name, hex, hex_bytes, room_gossip_topic_prefix,
  room_topic_name,
}

unhex : ℕ → ℕ
unhex c = if leb 97 c then c - 87 else c - 48

digit_ok : ℕ → Bool
digit_ok n = eqb (unhex (get_or hex n 0)) n

digits_ok : all_below 16 digit_ok ≡ true
unfolding digit_ok unhex
digits_ok = refl

digit_read : (n : ℕ) → digit_ok n ≡ true → unhex (get_or hex n 0) ≡ n
unfolding digit_ok
digit_read n h = ground arith

unhex-hex : (n : ℕ) → n < 16 → unhex (get_or hex n 0) ≡ n
unhex-hex n h = digit_read n (all_below_lem 16 digit_ok digits_ok n h)

digit-injective : (m n : ℕ) → m < 16 → n < 16 → get_or hex m 0 ≡ get_or hex n 0 → m ≡ n
digit-injective m n hm hn e = sym (unhex-hex m hm) ∙ ap unhex e ∙ unhex-hex n hn

hex_bytes-injective : (a b : Bytes) → IsBytes a → IsBytes b → hex_bytes a ≡ hex_bytes b → a ≡ b
unfolding hex_bytes
hex_bytes-injective [] [] ha hb e = refl
hex_bytes-injective [] (y ∷ b) ha hb e = absurd (omega (arith, ap length e))
hex_bytes-injective (x ∷ a) [] ha hb e = absurd (omega (arith, ap length e))
hex_bytes-injective (x ∷ a) (y ∷ b) (hx, ha) (hy, hb) e =
    let high =
      digit-injective (x / 16 % 16) (y / 16 % 16) (omega arith) (omega arith)
        (ap (λ l. get_or l 0 0) e) in
    let low =
      digit-injective (x % 16) (y % 16) (omega arith) (omega arith) (ap (λ l. get_or l 1 0) e) in
    let same : x ≡ y = omega (arith, high, low) in
    rw (same, hex_bytes-injective a b ha hb (ap (drop 2) e)) refl

channel_topic :
    (id topic : Bytes)
    → channel_topic_name id ≡ ok topic
    → channel_gossip_topic_prefix ++ hex_bytes id ≡ topic
unfolding channel_topic_name
channel_topic id topic e = elim (Bool-cases (eqb (length id) 32)) [
  | inl good ↦ ground arith
  | inr bad ↦ absurd (ground arith)
]

room_topic :
    (id topic : Bytes)
    → room_topic_name id ≡ ok topic
    → room_gossip_topic_prefix ++ hex_bytes id ≡ topic
unfolding room_topic_name
room_topic id topic e = elim (Bool-cases (eqb (length id) 32)) [
  | inl good ↦ ground arith
  | inr bad ↦ absurd (ground arith)
]

-- Two channels have one topic only if they are the same, two rooms likewise, and no channel has the
-- topic of a room.
pub topic_names-differ :
    (a b topic : Bytes)
    → IsBytes a
    → IsBytes b
    → (channel_topic_name a ≡ ok topic → channel_topic_name b ≡ ok topic → a ≡ b)
      × (room_topic_name a ≡ ok topic → room_topic_name b ≡ ok topic → a ≡ b)
      × (channel_topic_name a ≡ ok topic → room_topic_name b ≢ ok topic)
topic_names-differ a b topic ha hb = (
  λ ea eb.
      hex_bytes-injective a b ha hb
        (ap (drop 8) (channel_topic a topic ea ∙ sym (channel_topic b topic eb))),
  (λ ea eb.
      hex_bytes-injective a b ha hb
        (ap (drop 8) (room_topic a topic ea ∙ sym (room_topic b topic eb)))),
  (λ ea eb.
      omega
        (arith, ap (λ l. get_or l 3 0) (channel_topic a topic ea ∙ sym (room_topic b topic eb)))),
)
