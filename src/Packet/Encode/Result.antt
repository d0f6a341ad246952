-- ===== src/Packet/Encode/Result.antt =====
-- What `encode` returns: for which specifications, how long, and that the reader reads it back.
use oxideav_mpegts.Base.{
  ℕ, suc, ◌-◌, ◌≤◌, ◌<◌, max, ◌≡◌, refl, sym, ap, ◌∙◌, ◌↔◌, ◌⊎◌, inl, inr, true, false, ◌&&◌,
  Option, none, some, List, [], ◌∷◌, ◌++◌, arith, ltb, leb, le→ltb_false, Bool-cases, length,
  replicate, length-append, length-replicate, Outcome, ok-injective, ◌>>◌, fail_if, index, >>-eq_ok,
  fail_if-eq_ok, invalid_field, ok,
}
use oxideav_mpegts.Base.Int.{IsI8}
use oxideav_mpegts.Packet.Field.{parse_adaptation_field, empty_field}
use oxideav_mpegts.Packet.Encode.{
  AdaptationFieldSpec, is_empty, check_pcr, check_opcr, check_private_data, check_extension,
  clock_bytes, countdown_bytes, private_bytes, extension_bytes, content, finish, encode_sized,
  encode,
}
use oxideav_mpegts.Packet.Encode.Fields.{OptionAll}
use oxideav_mpegts.Packet.Encode.RoundTrip.{IsSpec, decoded, parse_adaptation_field-content}
use oxideav_mpegts.Packet.Encode.Accepts.{IsPaired, Checks, Checks-IsSpec, IsSpec-Checks}

-- The fields of a specification with nothing in it.
abbrev Nothing : AdaptationFieldSpec → Type 0
Nothing s =
    (s.discontinuity_indicator ≡ false)
    × (s.random_access_indicator ≡ false)
    × (s.elementary_stream_priority_indicator ≡ false)
    × (s.pcr ≡ none)
    × (s.opcr ≡ none)
    × (s.splice_countdown ≡ none)
    × (s.transport_private_data ≡ none)
    × (s.extension ≡ none)

is_empty-Nothing : (s : AdaptationFieldSpec) → is_empty s ≡ true → Nothing s
unfolding is_empty
is_empty-Nothing s h = ground arith

-- The stuffing behind the content, and the whole field.
abbrev pub stuffing : AdaptationFieldSpec → ℕ → List ℕ
stuffing s want = replicate (want - suc (length (content s))) 0xFF

abbrev pub encoded : AdaptationFieldSpec → ℕ → List ℕ
encoded s want = length (content s ++ stuffing s want) ∷ (content s ++ stuffing s want)

length-encoded :
    (s : AdaptationFieldSpec) (want : ℕ)
    → length (encoded s want) ≡ max want (suc (length (content s)))
length-encoded s want = omega (
  arith,
  length-append (content s) (stuffing s want),
  length-replicate {A = ℕ} (want - suc (length (content s))) 0xFF,
)

finish-encoded :
    (s : AdaptationFieldSpec) (want : ℕ)
    → want ≤ 184
    → length (content s) < 184
    → finish (0 ∷ content s) want ≡ ok (encoded s want)
unfolding finish
finish-encoded s want h k =
    ap (λ n. ok (n ∷ (content s ++ stuffing s want))) (omega (arith, length-encoded s want))

-- Behind the shortcut for an empty specification.
abbrev checked_encode : AdaptationFieldSpec → ℕ → Outcome (List ℕ)
checked_encode s want = do
  check_pcr s
  check_opcr s
  check_private_data s.transport_private_data
  check_extension s.splice_countdown s.extension
  fail_if (ltb 184 (length (0 ∷ content s)))
      (invalid_field "adaptation field content exceeds 184 bytes")
  finish (0 ∷ content s) want

checked_encode-eq_ok :
    (s : AdaptationFieldSpec) (want : ℕ) (out : List ℕ)
    → checked_encode s want ≡ ok out
    → Checks s × (length (content s) < 184) × (finish (0 ∷ content s) want ≡ ok out)
checked_encode-eq_ok s want out h =
    let (p, h1) = >>-eq_ok (check_pcr s) _ h in
    let (o, h2) = >>-eq_ok (check_opcr s) _ h1 in
    let (d, h3) = >>-eq_ok (check_private_data s.transport_private_data) _ h2 in
    let (x, h4) = >>-eq_ok (check_extension s.splice_countdown s.extension) _ h3 in
    let (r, h5) = >>-eq_ok (fail_if (ltb 184 (length (0 ∷ content s))) _) _ h4 in
    let room = fail_if-eq_ok _ _ r in ((p, o, d, x), ground arith, h5)

checked_encode_ok :
    (s : AdaptationFieldSpec) (want : ℕ)
    → Checks s
    → length (content s) < 184
    → checked_encode s want ≡ finish (0 ∷ content s) want
checked_encode_ok s want (p, o, d, x) room =
    rw (p, o, d, x, le→ltb_false 184 (suc (length (content s))) (omega arith))

encode_sized-split :
    (s : AdaptationFieldSpec) (want : ℕ)
    → ((is_empty s ≡ true) × (want ≤ 1) × (encode_sized s want ≡ ok (0 ∷ [])))
      ⊎ (encode_sized s want ≡ checked_encode s want)
unfolding encode_sized
encode_sized-split s want = elim (Bool-cases (is_empty s && leb want 1)) [
  | inl e ↦ inl (ground arith, ground arith, rw e)
  | inr e ↦ inr (rw e)
]

-- A specification with nothing in it is encodable, and its content is the flags byte alone.
Nothing-IsSpec :
    (s : AdaptationFieldSpec) → Nothing s → IsSpec s × IsPaired s × (length (content s) ≡ 1)
unfolding content clock_bytes countdown_bytes private_bytes extension_bytes
Nothing-IsSpec s (d, r, p, pcr, opcr, c, t, e) = (
  record {
    pcr_fits = rw pcr tt;
    opcr_fits = rw opcr tt;
    countdown_fits = rw c tt;
    private_fits = rw t tt;
    extension_fits = rw e tt;
  },
  record { opcr_with_pcr = λ h. ground arith; splice_with_countdown = λ h. ground arith },
  rw (pcr, opcr, c, t, e),
)

Nothing-decoded :
    (s : AdaptationFieldSpec) (raw : List ℕ) → Nothing s → decoded s 0 raw ≡ empty_field raw
Nothing-decoded s raw n = ground arith

-- What `encode` accepts: fields within their widths, the standard's pairings, content within
-- 184 bytes and a requested size within 184 bytes.
pub record Encodable (s : AdaptationFieldSpec) (min_total_len : ℕ) : Type 0 where
  pub fits : IsSpec s
  pub paired : IsPaired s
  pub room : length (content s) < 184
  pub size : min_total_len ≤ 184

abbrev pub size_of : Option ℕ → ℕ
size_of none = 0
size_of (some want) = want

encode-sized :
    (s : AdaptationFieldSpec) (m : Option ℕ)
    → size_of m ≤ 184
    → encode s m ≡ encode_sized s (size_of m)
unfolding encode
encode-sized s none h = refl
encode-sized s (some want) h = rw (le→ltb_false 184 want h)

encode-eq_ok_size :
    (s : AdaptationFieldSpec) (m : Option ℕ) (out : List ℕ) → encode s m ≡ ok out → size_of m ≤ 184
unfolding encode
encode-eq_ok_size s none out h = omega arith
encode-eq_ok_size s (some want) out h =
    let e = fail_if-eq_ok _ _ (>>-eq_ok (fail_if (ltb 184 want) _) (encode_sized s want) h).0 in
    ground arith

-- The two ways in which `encode` returns.
data Returned (s : AdaptationFieldSpec) (want : ℕ) (out : List ℕ) : Type 0 where
  short : Nothing s → want ≤ 1 → out ≡ 0 ∷ [] → Returned s want out
  full : Checks s → length (content s) < 184 → out ≡ encoded s want → Returned s want out

encode-Returned :
    (s : AdaptationFieldSpec) (m : Option ℕ) (out : List ℕ)
    → encode s m ≡ ok out
    → Returned s (size_of m) out
encode-Returned s m out h = elim (encode_sized-split s (size_of m)) [
  | inl (e, w, r) ↦ short (is_empty-Nothing s e) w (cc (sized, h, r))
  | inr r ↦
      let (c, room, f) = checked_encode-eq_ok s (size_of m) out (sym r ∙ sym sized ∙ h) in
      full c room (cc (f, finish-encoded s (size_of m) (encode-eq_ok_size s m out h) room))
]
  where
    sized : encode s m ≡ encode_sized s (size_of m)
    sized = encode-sized s m (encode-eq_ok_size s m out h)

-- For a splice countdown that an `i8` can hold, `encode` returns bytes exactly for the specifications
-- that it should accept: fields within their widths, OPCR only with PCR, a seamless splice only with a
-- splice countdown, and content and requested size within 184 bytes.
pub encode_returns_iff :
    (s : AdaptationFieldSpec) (m : Option ℕ)
    → OptionAll IsI8 s.splice_countdown
    → ((out : List ℕ) × (encode s m ≡ ok out)) ↔ Encodable s (size_of m)
encode_returns_iff s m i8 = (forth, back)
  where
    accepted :
        (out : List ℕ) → encode s m ≡ ok out → Returned s (size_of m) out → Encodable s (size_of m)
    accepted out h (short n w e) =
        let (f, p, l) = Nothing-IsSpec s n in
        record { fits = f; paired = p; room = omega arith; size = omega arith }
    accepted out h (full c room e) =
        let (f, p) = Checks-IsSpec s i8 c in
        record { fits = f; paired = p; room = room; size = encode-eq_ok_size s m out h }

    forth : ((out : List ℕ) × (encode s m ≡ ok out)) → Encodable s (size_of m)
    forth (out, h) = accepted out h (encode-Returned s m out h)

    back : Encodable s (size_of m) → (out : List ℕ) × (encode s m ≡ ok out)
    back v = elim (encode_sized-split s (size_of m)) [
      | inl (e, w, r) ↦ (0 ∷ [], encode-sized s m v.size ∙ r)
      | inr r ↦ (
        encoded s (size_of m),
        encode-sized s m v.size
            ∙ r
            ∙ checked_encode_ok s (size_of m) (IsSpec-Checks s v.fits v.paired) v.room
            ∙ finish-encoded s (size_of m) v.size v.room,
      )
    ]

-- When `encode` returns bytes, they are at least as many as were asked for, at least one and at most
-- 184.
pub length-encode :
    (s : AdaptationFieldSpec) (m : Option ℕ) (out : List ℕ)
    → encode s m ≡ ok out
    → (size_of m ≤ length out) × (1 ≤ length out) × (length out ≤ 184)
length-encode s m out h = go (encode-Returned s m out h)
  where
    go :
        Returned s (size_of m) out
        → (size_of m ≤ length out) × (1 ≤ length out) × (length out ≤ 184)
    go (short n w e) = rw e (omega arith)
    go (full c room e) =
        rw e (omega (arith, length-encoded s (size_of m), encode-eq_ok_size s m out h))

-- When `encode` returns bytes, for a splice countdown that an `i8` can hold, the parser of adaptation
-- fields reads back from them every field of the specification, the length byte and the bytes
-- themselves.
pub parse_adaptation_field-encode :
    (s : AdaptationFieldSpec) (m : Option ℕ) (out : List ℕ)
    → OptionAll IsI8 s.splice_countdown
    → encode s m ≡ ok out
    → parse_adaptation_field out ≡ ok (decoded s (length out - 1) out)
parse_adaptation_field-encode s m out i8 h = go (encode-Returned s m out h)
  where
    go :
        Returned s (size_of m) out
        → parse_adaptation_field out ≡ ok (decoded s (length out - 1) out)
    go (short n w e) =
        rw e (unfold parse_adaptation_field index in sym (ap ok (Nothing-decoded s (0 ∷ []) n)))
    go (full c room e) = rw e (
        parse_adaptation_field-content s (stuffing s (size_of m)) _ (Checks-IsSpec s i8 c).0 refl
          (omega (arith, length-encoded s (size_of m), encode-eq_ok_size s m out h))
        ∙ ap (λ n. ok (decoded s n (encoded s (size_of m)))) (omega arith))

-- The shortcut, and what is behind it.
encode_sized-short :
    (s : AdaptationFieldSpec) (want : ℕ)
    → (is_empty s && leb want 1) ≡ true
    → encode_sized s want ≡ ok (0 ∷ [])
unfolding encode_sized
encode_sized-short s want e = rw e

checked_encode-encoded :
    (s : AdaptationFieldSpec) (want : ℕ) (out : List ℕ)
    → (is_empty s && leb want 1) ≡ false
    → want ≤ 184
    → encode_sized s want ≡ ok out
    → length out ≡ max want (suc (length (content s)))
unfolding encode_sized
checked_encode-encoded s want out e size h =
    let checked : checked_encode s want ≡ ok out = rw e at h in
    let (c, room, f) = checked_encode-eq_ok s want out checked in
    ap length (ok-injective (sym f ∙ finish-encoded s want size room)) ∙ length-encoded s want

-- At a size that is not below the one it takes by itself, `encode` fills exactly that size.
pub encode-exact :
    (s : AdaptationFieldSpec) (want : ℕ) (bare out : List ℕ)
    → encode s none ≡ ok bare
    → encode s (some want) ≡ ok out
    → length bare ≤ want
    → 1 ≤ want
    → length out ≡ want
encode-exact s want bare out b o h one = elim (Bool-cases (is_empty s && leb want 1)) [
  | inl e ↦
      let short = ok-injective (sym (sized ∙ encode_sized-short s want e) ∙ o) in
      omega (arith, ap length short, small e)
  | inr e ↦
      let full = checked_encode-encoded s want out e size (sym sized ∙ o) in
      elim (Bool-cases (is_empty s)) [
        | inl empty ↦
            let (f, p, l) = Nothing-IsSpec s (is_empty-Nothing s empty) in
            omega (arith, full, l, large e empty)
        | inr given ↦
            let bare_full =
              checked_encode-encoded s 0 bare (rw given refl) (omega arith)
                (sym (encode-sized s none (omega arith)) ∙ b) in
            omega (arith, full, bare_full)
      ]
]
  where
    size : want ≤ 184
    size = encode-eq_ok_size s (some want) out o

    sized : encode s (some want) ≡ encode_sized s want
    sized = encode-sized s (some want) size

    small : (is_empty s && leb want 1) ≡ true → want ≤ 1
    small e = ground arith

    large : (is_empty s && leb want 1) ≡ false → is_empty s ≡ true → 2 ≤ want
    large e k = ground arith

-- By itself `encode` takes no more than its content and the length byte.
pub length-encode_bare :
    (s : AdaptationFieldSpec) (bare : List ℕ)
    → encode s none ≡ ok bare
    → length bare ≤ suc (length (content s))
length-encode_bare s bare h = go (encode-Returned s none bare h)
  where
    go : Returned s 0 bare → length bare ≤ suc (length (content s))
    go (short n w e) = rw e (omega arith)
    go (full c room e) = rw e (omega (arith, length-encoded s 0))

-- The first byte counts the others.
pub encode-framed :
    (s : AdaptationFieldSpec) (m : Option ℕ) (out : List ℕ)
    → encode s m ≡ ok out
    → (body : List ℕ) × (out ≡ length body ∷ body)
encode-framed s m out h = go (encode-Returned s m out h)
  where
    go : Returned s (size_of m) out → (body : List ℕ) × (out ≡ length body ∷ body)
    go (short n w e) = ([], e)
    go (full c room e) = (content s ++ stuffing s (size_of m), e)

-- With something in it, `encode` takes exactly its content and the length byte.
pub length-encode_given :
    (s : AdaptationFieldSpec) (bare : List ℕ)
    → is_empty s ≡ false
    → encode s none ≡ ok bare
    → length bare ≡ suc (length (content s))
length-encode_given s bare given h =
    let full =
      checked_encode-encoded s 0 bare (rw given refl) (omega arith)
        (sym (encode-sized s none (omega arith)) ∙ h) in
    omega (arith, full)
