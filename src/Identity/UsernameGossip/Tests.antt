-- ===== src/Identity/UsernameGossip/Tests.antt =====
-- A page of a small log.
use fin_bit.Prelude.{ℕ, ◌^◌, ◌<◌, ◌≡◌, [], ◌∷◌, ◌++◌, Bool, replicate, length, ltb, arith}
use fin_bit.Identity.UsernameLog.{Claim, Log}
use fin_bit.Identity.UsernameGossip.{response, answer}
use fin_bit.Identity.UsernameGossip.Paging as Paging
use fin_bit.Identity.UsernameGossip.Paging.{newer_sorted}

abbrev claim : ℕ → Claim
claim time = record {
  username = b'b' ∷ b'o' ∷ b'b' ∷ [];
  pubkey = replicate 32 time;
  timestamp_ms = time;
  nonce = replicate 16 0;
  signature = replicate 64 time;
}

abbrev log : Log
log = claim 7 ∷ claim 3 ∷ claim 9 ∷ claim 5 ∷ []

answer-pages_example :
    (page : Log) × (truncated : Bool) × (seen : ℕ) × (answer 3 2 log ≡ response page truncated seen)
    × (page ++ newer_sorted seen log ≡ newer_sorted 3 log)
    × (truncated ≡ ltb 0 (length (newer_sorted seen log)))
    × (seen < 2 ^ 63)
answer-pages_example = Paging.answer-pages 3 2 log (omega arith) (omega arith)
