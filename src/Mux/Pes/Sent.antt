-- ===== src/Mux/Pes/Sent.antt =====
-- One packet of a PES packet: it is always written, it takes a part of what is left, and it reads back.
use oxideav_mpegts.Base.{
  drop_all, ℕ, ◌+◌, ◌-◌, ◌^◌, ◌≤◌, ◌<◌, min, ◌≡◌, refl, sym, ap, subst, ◌∙◌, ◌≢◌, inl, inr, Bool,
  true, false, not, ◌||◌, Option, none, some, List, [], ◌∷◌, ◌++◌, append-nil, arith, ltb, ltb→lt,
  lt→ltb, le→ltb_false, Bool-cases, length, take, drop, length-take, take-append-drop, take_all,
  sub_usize-ok, ok,
}
use oxideav_mpegts.Base.Int.{IsI8}
use oxideav_mpegts.Packet.Field.{AdaptationField, parse_adaptation_field}
use oxideav_mpegts.Packet.Header.{parse}
use oxideav_mpegts.Packet.Encode.{AdaptationFieldSpec, is_empty, content, encode}
use oxideav_mpegts.Packet.Encode.Fields.{OptionAll}
use oxideav_mpegts.Packet.Encode.RoundTrip.{IsSpec, decoded}
use oxideav_mpegts.Packet.Encode.Accepts.{IsPaired}
use oxideav_mpegts.Packet.Encode.Result.{
  encode_returns_iff, length-encode, length-encode_bare, length-encode_given, encode-exact,
  encode-framed, parse_adaptation_field-encode,
}
use oxideav_mpegts.Mux.Frame.{header_bytes, framed, parse-payload, parse-field}
use oxideav_mpegts.Mux.Pes.{packet_bytes}

true-ne_false : true ≢ false
true-ne_false h = cc h

-- A specification that leaves room for payload.
pub record IsSmall (spec : AdaptationFieldSpec) : Type 0 where
  pub fits : IsSpec spec
  pub paired : IsPaired spec
  pub room : length (content spec) ≤ 182

-- The adaptation field of a packet is the one specified, or nothing was specified.
abbrev pub Carries : AdaptationFieldSpec → Option AdaptationField → Type 0
Carries spec none = is_empty spec ≡ true
Carries spec (some af) = (n : ℕ) × (raw : List ℕ) × (af ≡ decoded spec n raw)

pub record Sent (start : Bool) (pid cc : ℕ) (spec : AdaptationFieldSpec) (rest : List ℕ)
    : Type 0 where
  pub packet : List ℕ
  pub chunk : List ℕ
  pub left : List ℕ
  pub af : Option AdaptationField
  pub written : packet_bytes start pid cc spec rest ≡ ok (packet, left)
  pub split : chunk ++ left ≡ rest
  pub progress : 0 < length chunk
  pub bounded : length chunk ≤ 184
  pub read : parse packet ≡ ok (framed start pid cc af chunk packet)
  pub carried : Carries spec af
  pub size : is_empty spec ≡ false → length chunk ≡ min (183 - length (content spec)) (length rest)

module _ (start : Bool) (pid cc : ℕ) (fits : pid < 2 ^ 13) (small : cc < 16)
    (spec : AdaptationFieldSpec) (rest : List ℕ) where
  parse-af :
      (af chunk body : List ℕ) (field : AdaptationField)
      → af ≡ length body ∷ body
      → length af + length chunk ≡ 184
      → parse_adaptation_field af ≡ ok field
      → let packet = header_bytes start pid 3 cc ++ (af ++ chunk) in
        parse packet ≡ ok (framed start pid cc (some field) chunk packet)
  parse-af af chunk body field e size read =
      subst
        (λ a.
          parse_adaptation_field a ≡ ok field
          → parse (header_bytes start pid 3 cc ++ (a ++ chunk))
            ≡ ok (
                framed start pid cc (some field) chunk
                  (header_bytes start pid 3 cc ++ (a ++ chunk))))
        (sym e)
        (parse-field start pid cc fits small (length body) body chunk field refl
          (omega (arith, ap length e)))
        read

  -- The packet with an adaptation field that was encoded.
  parse-encoded :
      (m : Option ℕ) (af chunk : List ℕ)
      → OptionAll IsI8 spec.splice_countdown
      → encode spec m ≡ ok af
      → length af + length chunk ≡ 184
      → let packet = header_bytes start pid 3 cc ++ (af ++ chunk) in
        parse packet
        ≡ ok (framed start pid cc (some (decoded spec (length af - 1) af)) chunk packet)
  parse-encoded m af chunk i8 h size =
      let (body, e) = encode-framed spec m af h in
      parse-af af chunk body (decoded spec (length af - 1) af) e size
        (parse_adaptation_field-encode spec m af i8 h)

  packet_bytes-plain : is_empty spec ≡ true → 184 ≤ length rest → Sent start pid cc spec rest
  unfolding packet_bytes
  packet_bytes-plain e h =
      let long = le→ltb_false (length rest) 184 h in
      let size = length-take 184 rest in
      record {
        packet = header_bytes start pid 1 cc ++ take 184 rest;
        chunk = take 184 rest;
        left = drop 184 rest;
        af = none;
        written = rw (e, long);
        split = take-append-drop 184 rest;
        progress = omega (arith, size);
        bounded = omega (arith, size);
        read = parse-payload start pid cc fits small (take 184 rest) (omega (arith, size));
        carried = e;
        size = λ given. absurd (true-ne_false (sym e ∙ given));
      }

  -- Behind an adaptation field that stuffing fills up, the packet takes all that is left.
  packet_bytes-stuffed :
      (bare : List ℕ)
      → IsSmall spec
      → 0 < length rest
      → (not (is_empty spec) || ltb (length rest) 184) ≡ true
      → encode spec none ≡ ok bare
      → length rest < 184 - length bare
      → Sent start pid cc spec rest
  unfolding packet_bytes
  packet_bytes-stuffed bare w some_left present b short =
      let want = 184 - length rest in
      let (out, h) = (encode_returns_iff spec (some want) w.fits.countdown_fits).1 (record {
        fits = w.fits;
        paired = w.paired;
        room = omega (arith, w.room);
        size = omega arith;
      }) in
      let exact = encode-exact spec want bare out b h (omega arith) (omega arith) in
      let size = length-encode spec none bare b in
      let whole : min (184 - length out) (length rest) ≡ length rest = omega (arith, exact) in
      let full : 184 - length out - length rest ≡ 0 = omega (arith, exact) in
      let all = take_all (length rest) rest (omega arith) in
      record {
        packet = header_bytes start pid 3 cc ++ (out ++ rest);
        chunk = rest;
        left = [];
        af = some (decoded spec (length out - 1) out);
        written = rw (
          present,
          b,
          sub_usize-ok 184 (length bare) size.2,
          lt→ltb (length rest) (184 - length bare) short,
          h,
          whole,
          all,
          full,
          append-nil rest,
          drop_all (length rest) rest (omega arith),
        );
        split = append-nil rest;
        progress = some_left;
        bounded = omega arith;
        read = parse-encoded (some want) out rest w.fits.countdown_fits h (omega (arith, exact));
        carried = (length out - 1, out, refl);
        size = λ given. omega (arith, length-encode_given spec bare given b);
      }

  packet_bytes-filled :
      (bare : List ℕ)
      → IsSmall spec
      → (not (is_empty spec) || ltb (length rest) 184) ≡ true
      → encode spec none ≡ ok bare
      → 184 - length bare ≤ length rest
      → Sent start pid cc spec rest
  unfolding packet_bytes
  packet_bytes-filled bare w present b long =
      let size = length-encode spec none bare b in
      let little = length-encode_bare spec bare b in
      let n = 184 - length bare in
      let room : min n (length rest) ≡ n = omega arith in
      let full : 184 - length bare - n ≡ 0 = omega arith in
      let taken : length (take n rest) ≡ n = omega (arith, length-take n rest) in
      record {
        packet = header_bytes start pid 3 cc ++ (bare ++ take n rest);
        chunk = take n rest;
        left = drop n rest;
        af = some (decoded spec (length bare - 1) bare);
        written = rw (
          present,
          b,
          sub_usize-ok 184 (length bare) size.2,
          le→ltb_false (length rest) n long,
          room,
          full,
          append-nil (take n rest),
        );
        split = take-append-drop n rest;
        progress = omega (arith, taken, w.room, little);
        bounded = omega (arith, taken);
        read =
            parse-encoded none bare (take n rest) w.fits.countdown_fits b
              (omega (arith, taken, size.2));
        carried = (length bare - 1, bare, refl);
        size = λ given. omega (arith, length-encode_given spec bare given b, taken);
      }

  -- A packet for a small specification is written, takes at least a byte of what is left, and reads
  -- back as that byte run behind the specified adaptation field.
  pub packet_bytes-Sent : IsSmall spec → 0 < length rest → Sent start pid cc spec rest
  packet_bytes-Sent w some_left =
      let (bare, b) = (encode_returns_iff spec none w.fits.countdown_fits).1 (record {
        fits = w.fits;
        paired = w.paired;
        room = omega (arith, w.room);
        size = omega arith;
      }) in
      elim (Bool-cases (not (is_empty spec) || ltb (length rest) 184)) [
        | inl present ↦ elim (Bool-cases (ltb (length rest) (184 - length bare))) [
          | inl short ↦ packet_bytes-stuffed bare w some_left present b (ltb→lt _ _ short)
          | inr long ↦ packet_bytes-filled bare w present b (ground arith)
        ]
        | inr plain ↦ packet_bytes-plain (ground arith) (ground arith)
      ]
