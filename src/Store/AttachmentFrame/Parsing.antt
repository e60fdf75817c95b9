-- ===== src/Store/AttachmentFrame/Parsing.antt =====
-- A blob that parses is a frame.
use fin_bit.Prelude.{
  ℕ, ◌+◌, ◌^◌, ◌≤◌, ◌<◌, ◌≡◌, refl, sym, subst, ap, ◌∙◌, [], ◌∷◌, ◌++◌, none, some, true, false,
  Bytes, IsBytes, byte_at, read16, length, length-append, length-take, get_or-append_right, take,
  drop, drop-append_right, ltb, leb, eqb, if◌then◌else◌, arith, Bool-cases, inl, inr, Option-cases,
  take-append-drop,
}
use fin_bit.Store.AttachmentFrame.{
  magic, magic_len, AttachmentFrame, has_magic, is_framed_attachment, truncated, frame_attachment,
  get_field, parse_attachment_frame,
}
use fin_bit.Store.AttachmentFrame.Laws.{
  field, frame_attachment-fields, parse-fields, is_framed-magic,
}

get_field_at :
    (before : Bytes) (x y : ℕ) (r : Bytes) (n : ℕ)
    → n ≡ length before
    → get_field (before ++ x ∷ y ∷ r) n ≡ (
        if leb (read16 x y) (length r)
        then some (take (read16 x y) r, n + 2 + read16 x y)
        else none)
unfolding get_field
get_field_at before x y r n e = rw (get_or-append_right before (x ∷ y ∷ r) 0 n 0 (omega arith)) (
    rw (get_or-append_right before (x ∷ y ∷ r) 1 (n + 1) 0 (omega arith)) (
      rw (drop-append_right before (x ∷ y ∷ r) 2 (n + 2) (omega arith))
        (ground (arith, length-append before (x ∷ y ∷ r)))))

some_inj : {A : Type 0} {x y : A} → some x ≡ some y → x ≡ y
some_inj {x = x} e = ap (λ o. elim o [ none ↦ x | some z ↦ z ]) e

field-take :
    (x y : ℕ) (r : Bytes)
    → x < 256
    → y < 256
    → read16 x y ≤ length r
    → x ∷ y ∷ r ≡ field (take (read16 x y) r) ++ drop (read16 x y) r
field-take x y r hx hy h =
    let len : length (take (read16 x y) r) ≡ read16 x y =
      omega (arith, length-take (read16 x y) r) in
    let high : byte_at (read16 x y) 8 ≡ x = omega arith in
    let low : byte_at (read16 x y) 0 ≡ y = omega arith in
    rw len (rw high (rw low (ap (λ t. x ∷ y ∷ t) (sym (take-append-drop (read16 x y) r)))))

-- A field that was read is what stands at the offset.
get_field_lem :
    (before rest s : Bytes) (n o : ℕ)
    → IsBytes rest
    → n ≡ length before
    → get_field (before ++ rest) n ≡ some (s, o)
    → (after : Bytes) × (rest ≡ field s ++ after) × (o ≡ n + 2 + length s) × (length s < 2 ^ 16)
unfolding get_field
get_field_lem before [] s n o b e h = absurd (ground (arith, length-append before []))
get_field_lem before (x ∷ []) s n o b e h = absurd (ground (arith, length-append before (x ∷ [])))
get_field_lem before (x ∷ y ∷ r) s n o b e h =
    let at = sym (get_field_at before x y r n e) ∙ h in
    elim (Bool-cases (leb (read16 x y) (length r))) [
      | inr short ↦ absurd (ground (arith, at))
      | inl enough ↦
          let fits : read16 x y ≤ length r = ground arith in
          let got : Path (Bytes × ℕ) (take (read16 x y) r, n + 2 + read16 x y) (s, o) =
            some_inj (ground (arith, at)) in
          let is_s : take (read16 x y) r ≡ s = ap (λ (p : Bytes × ℕ). p.0) got in
          let len : length s ≡ read16 x y =
            sym (ap length is_s) ∙ omega (arith, length-take (read16 x y) r, fits) in
          (
            drop (read16 x y) r,
            subst (λ (t : Bytes). x ∷ y ∷ r ≡ field t ++ drop (read16 x y) r) is_s
                (field-take x y r b.0 b.1.0 fits),
            omega (arith, ap (λ (p : Bytes × ℕ). p.1) got, len),
            omega (arith, len, b),
          )
    ]

has_magic_lem : (ms blob : Bytes) → has_magic ms blob ≡ true → (rest : Bytes) × (blob ≡ ms ++ rest)
unfolding has_magic
has_magic_lem [] blob h = (blob, refl)
has_magic_lem (m ∷ ms) [] h = absurd (ground arith)
has_magic_lem (m ∷ ms) (b ∷ blob) h = elim (Bool-cases (eqb b m)) [
  | inl same ↦ let ih = has_magic_lem ms blob (ground arith) in (ih.0, ground (arith, ih.1))
  | inr differ ↦ absurd (ground arith)
]

is_framed_attachment_lem :
    (blob : Bytes) → is_framed_attachment blob ≡ true → (rest : Bytes) × (blob ≡ magic ++ rest)
unfolding is_framed_attachment
is_framed_attachment_lem blob h = has_magic_lem magic blob (ground arith)

truncated_id : (s : Bytes) → length s < 2 ^ 16 → truncated s ≡ s
unfolding truncated
truncated_id s h =
    let short : ltb 65535 (length s) ≡ false = ground arith in rw (short, truncated) refl

IsBytes-append : (xs ys : Bytes) → IsBytes (xs ++ ys) → IsBytes ys
IsBytes-append [] ys h = h
IsBytes-append (x ∷ xs) ys h = IsBytes-append xs ys h.1

-- The two fields and the content of a blob.
abbrev Fields : Bytes → Type 0
Fields rest =
    (m : Bytes) × (n : Bytes) × (c : Bytes) × (rest ≡ field m ++ (field n ++ c))
    × (length m < 2 ^ 16)
    × (length n < 2 ^ 16)

second_field :
    (m after : Bytes) (o : ℕ) (n : Bytes × ℕ)
    → IsBytes after
    → length m < 2 ^ 16
    → o ≡ 9 + length m
    → get_field (magic ++ (field m ++ after)) o ≡ some n
    → Fields (field m ++ after)
second_field m after o n b hm e h =
    let got = get_field_lem (magic ++ field m) after n.0 o n.1 b (omega arith) h in
    (m, n.0, got.0, ap (λ t. field m ++ t) got.1, hm, got.3)

parse-Fields :
    (rest : Bytes) (f : AttachmentFrame)
    → IsBytes rest
    → parse_attachment_frame (magic ++ rest) ≡ some f
    → Fields rest
unfolding parse_attachment_frame
parse-Fields rest f b h = elim (Option-cases (get_field (magic ++ rest) magic_len)) [
  | inl no_mime ↦ absurd (ground (arith, is_framed-magic rest))
  | inr (m, got_mime) ↦ elim (Option-cases (get_field (magic ++ rest) m.1)) [
    | inl no_name ↦ absurd (ground (arith, is_framed-magic rest))
    | inr (n, got_name) ↦
        let first = get_field_lem magic rest m.0 magic_len m.1 b refl got_mime in
        let whole : rest ≡ field m.0 ++ first.0 = first.1 in
        subst Fields (sym whole) (
          second_field m.0 first.0 m.1 n
            (IsBytes-append (field m.0) first.0 (subst IsBytes whole b)) first.3
            (omega (arith, first.2))
            (ap (λ (t : Bytes). get_field (magic ++ t) m.1) (sym whole) ∙ got_name))
  ]
]

framed_again :
    (m n c : Bytes)
    → length m < 2 ^ 16
    → length n < 2 ^ 16
    → frame_attachment m n c ≡ magic ++ (field m ++ (field n ++ c))
framed_again m n c hm hn =
    frame_attachment-fields m n c ∙ rw (truncated_id m hm) (rw (truncated_id n hn) refl)

-- A blob that parses is the frame of its parts, whose fields fit their 16-bit lengths.
pub frame_attachment-parse_attachment_frame :
    (blob : Bytes) (f : AttachmentFrame)
    → IsBytes blob
    → parse_attachment_frame blob ≡ some f
    → (frame_attachment f.mime f.filename f.content ≡ blob)
      × (length f.mime < 2 ^ 16)
      × (length f.filename < 2 ^ 16)
unfolding parse_attachment_frame
frame_attachment-parse_attachment_frame blob f b h = elim (Bool-cases (is_framed_attachment blob)) [
  | inr foreign ↦ absurd (ground arith)
  | inl framed ↦
      let tail = is_framed_attachment_lem blob framed in
      let bytes : IsBytes tail.0 = IsBytes-append magic tail.0 (subst IsBytes tail.1 b) in
      let parsed : parse_attachment_frame (magic ++ tail.0) ≡ some f =
        ap (λ t. parse_attachment_frame t) (sym tail.1) ∙ h in
      let (m, n, c, whole, hm, hn) = parse-Fields tail.0 f bytes parsed in
      let all : blob ≡ magic ++ (field m ++ (field n ++ c)) = tail.1 ∙ ap (λ t. magic ++ t) whole in
      let is_f : record { mime = m; filename = n; content = c } ≡ f =
        some_inj
          (sym (parse-fields m n c hm hn) ∙ ap (λ t. parse_attachment_frame t) (sym all) ∙ h) in
      subst
        (λ (g : AttachmentFrame).
          (frame_attachment g.mime g.filename g.content ≡ blob)
          × (length g.mime < 2 ^ 16)
          × (length g.filename < 2 ^ 16))
        is_f (framed_again m n c hm hn ∙ sym all, hm, hn)
]
