-- ===== src/Net/FrameCodec/Stream.antt =====
-- The decoder as a stream parser: how the bytes are cut into reads makes no difference.
use mathlib.Core.List.{flatten}
use fin_bit.Prelude.{
  ℕ, zero, suc, ◌+◌, ◌≤◌, ◌<◌, ◌≡◌, refl, ap, sym, ◌∙◌, inl, inr, List, [], ◌∷◌, ◌++◌, Bool, true,
  false, Bytes, length, length-append, Option, none, some, if◌then◌else◌, arith, append_assoc,
  append-nil,
}
use fin_bit.Net.FrameCodec.{
  FrameDecoder, need_more, frame_ready, failed, max_frame_bytes, encode_frame, feed, try_pop, drain,
  receive, receive_all, new_decoder,
}
use fin_bit.Net.FrameCodec.Laws.{live, dead, try_pop-Pops, try_pop-encode_frame}

-- What a client can tell: the frames, and the bytes that wait, or that the stream is broken.
abbrev pub outcome : List Bytes × FrameDecoder → List Bytes × Option Bytes
outcome r = (r.0, if r.1.error then none else some r.1.buf)

try_pop-dead : (buf : Bytes) → try_pop (dead buf) ≡ (failed, dead buf)
unfolding try_pop
try_pop-dead buf = refl

drain-need_more :
    (f : ℕ) (buf : Bytes)
    → try_pop (live buf) ≡ (need_more, live buf)
    → drain f (live buf) ≡ ([], live buf)
unfolding drain
drain-need_more zero buf e = refl
drain-need_more (suc f) buf e = rw (e, drain) (rw e)

drain-failed :
    (f : ℕ) (buf : Bytes)
    → try_pop (live buf) ≡ (failed, dead buf)
    → drain (suc f) (live buf) ≡ ([], dead buf)
unfolding drain
drain-failed f buf e = rw (e, drain) (rw e)

drain-ready :
    (f : ℕ) (buf p rest : Bytes)
    → try_pop (live buf) ≡ (frame_ready p, live rest)
    → drain (suc f) (live buf) ≡ (p ∷ (drain f (live rest)).0, (drain f (live rest)).1)
unfolding drain
drain-ready f buf p rest e = rw (e, drain) (rw e)

-- With a round for each byte the fuel does not matter.
drain_enough :
    (f g : ℕ) (buf : Bytes)
    → length buf < f
    → length buf < g
    → drain f (live buf) ≡ drain g (live buf)
drain_enough zero g buf h k = absurd (omega arith)
drain_enough (suc f) zero buf h k = absurd (omega arith)
drain_enough (suc f) (suc g) buf h k = elim (try_pop-Pops buf) [
  | inl e ↦ drain-need_more (suc f) buf e ∙ sym (drain-need_more (suc g) buf e)
  | inr (inl (e, _)) ↦ drain-failed f buf e ∙ sym (drain-failed g buf e)
  | inr (inr (p, rest, e, less, _)) ↦
      drain-ready f buf p rest e
      ∙ rw (drain_enough f g rest (omega arith) (omega arith)) (sym (drain-ready g buf p rest e))
]

receive-live :
    (f : ℕ) (buf b : Bytes)
    → length (buf ++ b) < f
    → receive (live buf) b ≡ drain f (live (buf ++ b))
unfolding receive feed
receive-live f buf b h = drain_enough (suc (length (buf ++ b))) f (buf ++ b) (omega arith) h

receive-dead : (buf b : Bytes) → receive (dead buf) b ≡ ([], dead buf)
unfolding receive feed drain try_pop
receive-dead buf b = refl

-- Bytes that arrive after a drain, or before it.
abbrev pub then_receive : List Bytes × FrameDecoder → Bytes → List Bytes × FrameDecoder
then_receive r b = (r.0 ++ (receive r.1 b).0, (receive r.1 b).1)

drain-append :
    (f : ℕ) (buf b : Bytes)
    → length (buf ++ b) < f
    → outcome (drain f (live (buf ++ b))) ≡ outcome (then_receive (drain f (live buf)) b)
drain-append zero buf b h = absurd (omega arith)
drain-append (suc f) buf b h = elim (try_pop-Pops buf) [
  | inl e ↦ rw (drain-need_more (suc f) buf e, receive-live (suc f) buf b h)
  | inr (inl (e, ahead)) ↦
      rw (drain-failed f buf e, drain-failed f (buf ++ b) (ahead b), receive-dead buf b)
  | inr (inr (p, rest, e, less, ahead)) ↦
      let small : length (rest ++ b) < f =
        omega (arith, length-append buf b, length-append rest b) in
      rw (drain-ready f buf p rest e, drain-ready f (buf ++ b) p (rest ++ b) (ahead b))
        (ap (λ (o : List Bytes × Option Bytes). (p ∷ o.0, o.1)) (drain-append f rest b small))
]

receive_all-dead : (buf : Bytes) (cs : List Bytes) → receive_all (dead buf) cs ≡ ([], dead buf)
unfolding receive_all
receive_all-dead buf [] = refl
receive_all-dead buf (c ∷ cs) = rw (receive-dead buf c, receive_all-dead buf cs)

abbrev view : FrameDecoder → Option Bytes
view d = if d.error then none else some d.buf

-- A broken decoder reads nothing more, so only the view of a decoder matters.
receive_all-view :
    (x y : Bool) (buf buf' : Bytes) (cs : List Bytes)
    → view (record { buf = buf; error = x }) ≡ view (record { buf = buf'; error = y })
    → outcome (receive_all (record { buf = buf; error = x }) cs)
      ≡ outcome (receive_all (record { buf = buf'; error = y }) cs)
receive_all-view true true buf buf' cs e = rw (receive_all-dead buf cs, receive_all-dead buf' cs)
receive_all-view true false buf buf' cs e = cc
receive_all-view false true buf buf' cs e = cc
receive_all-view false false buf buf' cs e =
    let same : buf ≡ buf' = cc in ap (λ b. outcome (receive_all (live b) cs)) same

abbrev prepend : List Bytes → List Bytes × Option Bytes → List Bytes × Option Bytes
prepend ps o = (ps ++ o.0, o.1)

receive_all-drain :
    (f g : ℕ) (buf : Bytes) (cs : List Bytes)
    → length buf < f
    → length (buf ++ flatten cs) < g
    → prepend (drain f (live buf)).0 (outcome (receive_all (drain f (live buf)).1 cs))
      ≡ outcome (drain g (live (buf ++ flatten cs)))
unfolding receive_all flatten
receive_all-drain f g buf [] h k =
    rw (append-nil buf, append-nil (drain f (live buf)).0)
      (ap outcome (drain_enough f g buf h (rw (append-nil buf) at k)))
receive_all-drain f g buf (c ∷ cs) h k =
    let n : ℕ = suc (length (buf ++ c)) in
    let r : List Bytes × FrameDecoder = drain f (live buf) in
    let s : List Bytes × FrameDecoder = receive r.1 c in
    let r' : List Bytes × FrameDecoder = drain n (live (buf ++ c)) in
    let same : outcome r' ≡ outcome (r.0 ++ s.0, s.1) =
      drain-append n buf c (omega arith)
      ∙ rw (drain_enough n f buf (omega (arith, length-append buf c)) h) in
    let views : outcome (receive_all r'.1 cs) ≡ outcome (receive_all s.1 cs) =
      receive_all-view r'.1.error s.1.error r'.1.buf s.1.buf cs
        (ap (λ (o : List Bytes × Option Bytes). o.1) same) in
    let firsts : r'.0 ≡ r.0 ++ s.0 = ap (λ (o : List Bytes × Option Bytes). o.0) same in
    let ih =
      receive_all-drain n g (buf ++ c) cs (omega arith) (rw (append_assoc buf c (flatten cs)) k) in
    let t : List Bytes × FrameDecoder = receive_all s.1 cs in
    let t' : List Bytes × FrameDecoder = receive_all r'.1 cs in
    ap (λ (ps : List Bytes). outcome (ps, t.1)) (sym (append_assoc r.0 s.0 t.0))
    ∙ ap (prepend (r.0 ++ s.0)) (sym views)
    ∙ ap (λ (ps : List Bytes). prepend ps (outcome t')) (sym firsts)
    ∙ ih
    ∙ ap (λ b. outcome (drain g (live b))) (append_assoc buf c (flatten cs))

-- However the bytes of a connection are cut into reads, the client gets the same frames, and is
-- left with the same waiting bytes or with a broken stream, as if they had come in one read.
pub receive_all-flatten :
    (chunks : List Bytes)
    → outcome (receive_all new_decoder chunks) ≡ outcome (receive new_decoder (flatten chunks))
unfolding receive feed drain try_pop
receive_all-flatten chunks =
    receive_all-drain 1 (suc (length (flatten chunks))) [] chunks (omega arith) (omega arith)

-- What a sender writes for a list of payloads.
abbrev pub encode_all : List Bytes → Bytes
encode_all [] = []
encode_all (p ∷ ps) = encode_frame p ++ encode_all ps

length-encode_frame : (p : Bytes) → length (encode_frame p) ≡ 4 + length p
unfolding encode_frame
length-encode_frame p = omega arith

abbrev pub AllFit : List Bytes → Type 0
AllFit [] = Unit
AllFit (p ∷ ps) = (length p ≤ max_frame_bytes) × AllFit ps

drain-encode_all :
    (f : ℕ) (ps : List Bytes)
    → length (encode_all ps) < f
    → AllFit ps
    → drain f (live (encode_all ps)) ≡ (ps, new_decoder)
drain-encode_all f [] h fit = drain-need_more f [] (unfold try_pop in refl)
drain-encode_all zero (p ∷ ps) h fit = absurd (omega arith)
drain-encode_all (suc f) (p ∷ ps) h fit =
    drain-ready f _ p (encode_all ps) (try_pop-encode_frame p (encode_all ps) fit.0)
    ∙ rw (
        drain-encode_all f ps
          (omega (arith, length-append (encode_frame p) (encode_all ps), length-encode_frame p))
          fit.1)

-- If each payload is within the size limit and the reads together are the encoded payloads, the
-- client gets the payloads, in order, and nothing is left over.
pub receive_all-encode_all :
    (ps chunks : List Bytes)
    → AllFit ps
    → flatten chunks ≡ encode_all ps
    → outcome (receive_all new_decoder chunks) ≡ (ps, some [])
unfolding receive feed
receive_all-encode_all ps chunks fit e =
    receive_all-flatten chunks
    ∙ rw e (ap outcome (drain-encode_all (suc (length (encode_all ps))) ps (omega arith) fit))
