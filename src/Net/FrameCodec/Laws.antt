-- ===== src/Net/FrameCodec/Laws.antt =====
-- One call of the decoder: what it reports, and what more bytes would change.
use fin_bit.Prelude.{
  ℕ, ◌%◌, ◌^◌, ◌≤◌, ◌<◌, ◌≡◌, refl, ◌∙◌, ◌⊎◌, inl, inr, [], ◌∷◌, ◌++◌, true, false, Bytes, read32,
  read32-be32, length, length-append, length-drop, take, drop, ltb, arith, Bool-cases,
  take-length-append, drop-length-append, take-append_le, drop-append_le,
}
use fin_bit.Net.FrameCodec.{
  FrameDecoder, need_more, frame_ready, failed, max_frame_bytes, encode_frame, try_pop,
}

abbrev pub live : Bytes → FrameDecoder
live buf = record { buf = buf; error = false }

abbrev pub dead : Bytes → FrameDecoder
dead buf = record { buf = buf; error = true }

-- The decoder asks for more bytes; or it rejects the length, whatever follows; or it takes a
-- frame off the front, whatever follows.
abbrev pub Pops : Bytes → Type 0
Pops buf =
    (try_pop (live buf) ≡ (need_more, live buf))
    ⊎ ((try_pop (live buf) ≡ (failed, dead buf))
        × ((b : Bytes) → try_pop (live (buf ++ b)) ≡ (failed, dead (buf ++ b))))
    ⊎ ((p : Bytes) × (rest : Bytes) × (try_pop (live buf) ≡ (frame_ready p, live rest))
        × (length rest < length buf)
        × ((b : Bytes) → try_pop (live (buf ++ b)) ≡ (frame_ready p, live (rest ++ b))))

pub try_pop-Pops : (buf : Bytes) → Pops buf
unfolding try_pop
try_pop-Pops [] = inl refl
try_pop-Pops (a ∷ []) = inl refl
try_pop-Pops (a ∷ b ∷ []) = inl refl
try_pop-Pops (a ∷ b ∷ c ∷ []) = inl refl
try_pop-Pops (a ∷ b ∷ c ∷ e ∷ r) =
    let len = read32 a b c e in
    elim (Bool-cases (ltb max_frame_bytes len)) [
      | inl big ↦ inr (inl (ground arith, λ x. ground arith))
      | inr small ↦ elim (Bool-cases (ltb (length r) len)) [
        | inl short ↦ inl (ground arith)
        | inr whole ↦ inr (
            inr (
              take len r,
              drop len r,
              ground arith,
              omega (arith, length-drop len r),
              λ x.
                  ground (arith, take-append_le len r x, drop-append_le len r x, length-append r x),
            ))
      ]
    ]

try_pop_whole :
    (a b c e : ℕ) (p rest : Bytes)
    → read32 a b c e ≡ length p
    → length p ≤ max_frame_bytes
    → try_pop (live (a ∷ b ∷ c ∷ e ∷ (p ++ rest))) ≡ (frame_ready p, live rest)
unfolding try_pop
try_pop_whole a b c e p rest same h =
    rw same
      (ground (arith, length-append p rest, take-length-append p rest, drop-length-append p rest))

-- A frame that was encoded comes back, with what follows it left in the buffer.
pub try_pop-encode_frame :
    (p rest : Bytes)
    → length p ≤ max_frame_bytes
    → try_pop (live (encode_frame p ++ rest)) ≡ (frame_ready p, live rest)
unfolding encode_frame
try_pop-encode_frame p rest h =
    let n : ℕ = length p % 2 ^ 32 in
    try_pop_whole _ _ _ _ p rest (read32-be32 n (omega arith) ∙ omega arith) h
