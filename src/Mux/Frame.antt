-- ===== src/Mux/Frame.antt =====
-- src/muxer.rs: the four header bytes that the muxer writes, as `TsPacket::parse` reads them.
use oxideav_mpegts.Base.{
  ℕ, ◌+◌, ◌^◌, ◌<◌, ◌≡◌, refl, sym, append-nil, ◌∙◌, Bool, false, Option, none, some, List, [], ◌∷◌,
  ◌++◌, arith, le→ltb_false, length, length-append, take_all, ◌>>>◌, ◌<<<◌, low_bits, flag, bit_of,
  index, add_or_truncated-ok, slice_front, slice_back, ok,
}
use oxideav_mpegts.Base.View.{At, At-length, At-append, slice-At}
use oxideav_mpegts.Packet.Field.{AdaptationField, parse_adaptation_field}
use oxideav_mpegts.Packet.Header.{TsPacket, parse_af_part, parse_synced, parse}

-- `pkt[1]`, `pkt[2]` and `pkt[3]` for a unit start, a PID, an adaptation_field_control and a counter.
unfoldable pub header_bytes : Bool → ℕ → ℕ → ℕ → List ℕ
header_bytes start pid control cc =
    0x47
    ∷ (bit_of start <<< 6 + low_bits (pid >>> 8) 5)
    ∷ low_bits pid 8
    ∷ (control <<< 4 + low_bits cc 4)
    ∷ []

-- The packet that is read.
abbrev pub framed : Bool → ℕ → ℕ → Option AdaptationField → List ℕ → List ℕ → TsPacket
framed start pid cc af payload bytes = record {
  pid = pid;
  payload_unit_start = start;
  transport_error = false;
  transport_priority = false;
  transport_scrambling_control = 0;
  continuity_counter = cc;
  adaptation_field = af;
  payload = payload;
  bytes = bytes;
}

parse-whole : (rest : List ℕ) → length rest ≡ 187 → parse (0x47 ∷ rest) ≡ parse_synced (0x47 ∷ rest)
unfolding parse index
parse-whole rest h = rw (
  le→ltb_false (length (0x47 ∷ rest)) 188 (omega arith),
  slice_front (0x47 ∷ rest) 188 (omega arith),
  take_all 188 (0x47 ∷ rest) (omega arith),
)

header_bits :
    (start : Bool) (pid cc control : ℕ)
    → pid < 2 ^ 13
    → cc < 16
    → control < 4
    → (low_bits (bit_of start <<< 6 + low_bits (pid >>> 8) 5) 5 <<< 8 + low_bits pid 8 ≡ pid)
      × (flag (bit_of start <<< 6 + low_bits (pid >>> 8) 5) 6 ≡ start)
      × (flag (bit_of start <<< 6 + low_bits (pid >>> 8) 5) 7 ≡ false)
      × (flag (bit_of start <<< 6 + low_bits (pid >>> 8) 5) 5 ≡ false)
      × (low_bits ((control <<< 4 + low_bits cc 4) >>> 6) 2 ≡ 0)
      × (low_bits (control <<< 4 + low_bits cc 4) 4 ≡ cc)
      × (low_bits ((control <<< 4 + low_bits cc 4) >>> 4) 2 ≡ control)
header_bits start pid cc control h k m = ground arith

module _ (start : Bool) (pid cc : ℕ) (fits : pid < 2 ^ 13) (small : cc < 16) where
  -- A packet without an adaptation field.
  pub parse-payload :
      (payload : List ℕ)
      → length payload ≡ 184
      → let bytes = header_bytes start pid 1 cc ++ payload in
        parse bytes ≡ ok (framed start pid cc none payload bytes)
  unfolding parse_synced parse_af_part header_bytes index
  parse-payload payload h =
      let bits = header_bits start pid cc 1 fits small (omega arith) in
      let bytes = header_bytes start pid 1 cc ++ payload in
      parse-whole
        ((bit_of start <<< 6 + low_bits (pid >>> 8) 5)
          ∷ low_bits pid 8
          ∷ (1 <<< 4 + low_bits cc 4)
          ∷ payload)
        (omega arith)
      ∙ rw
          (bits.0, bits.1, bits.2, bits.3, bits.4, bits.5, bits.6, slice_back bytes 4 (omega arith))

  -- A packet with an adaptation field and a payload that together fill it.
  pub parse-field :
      (len : ℕ) (body payload : List ℕ) (af : AdaptationField)
      → len ≡ length body
      → length body + length payload ≡ 183
      → parse_adaptation_field (len ∷ body) ≡ ok af
      → let bytes = header_bytes start pid 3 cc ++ ((len ∷ body) ++ payload) in
        parse bytes ≡ ok (framed start pid cc (some af) payload bytes)
  unfolding parse_synced parse_af_part header_bytes index
  parse-field len body payload af e h read =
      let bits = header_bits start pid cc 3 fits small (omega arith) in
      let bytes = header_bytes start pid 3 cc ++ ((len ∷ body) ++ payload) in
      let v : At bytes 4 ((len ∷ body) ++ payload) = record {
        rest_eq = refl;
        inside = omega arith;
      } in
      let total = At-length bytes 4 ((len ∷ body) ++ payload) v in
      let joined = length-append (len ∷ body) payload in
      let end : 4 + (len + 1) ≡ 4 + length (len ∷ body) = omega arith in
      parse-whole
        ((bit_of start <<< 6 + low_bits (pid >>> 8) 5)
          ∷ low_bits pid 8
          ∷ (3 <<< 4 + low_bits cc 4)
          ∷ ((len ∷ body) ++ payload))
        (omega (arith, total, joined))
      ∙ rw (
        bits.0,
        bits.1,
        bits.2,
        bits.3,
        bits.4,
        bits.5,
        bits.6,
        add_or_truncated-ok "TS adaptation_field" (length bytes) 4 (len + 1)
            (omega (arith, total, joined)) (omega arith),
        le→ltb_false 188 (4 + (len + 1)) (omega arith),
        end,
        slice-At bytes 4 (len ∷ body) payload v,
        read,
        slice_back bytes (4 + length (len ∷ body)) (omega (arith, total, joined)),
        (At-append bytes 4 (len ∷ body) payload v).rest_eq,
      )

  -- A packet that an adaptation field fills.
  pub parse-field_only :
      (len : ℕ) (body : List ℕ) (af : AdaptationField)
      → len ≡ length body
      → length body ≡ 183
      → parse_adaptation_field (len ∷ body) ≡ ok af
      → let bytes = header_bytes start pid 2 cc ++ (len ∷ body) in
        parse bytes ≡ ok (framed start pid cc (some af) [] bytes)
  unfolding parse_synced parse_af_part header_bytes index
  parse-field_only len body af e h read =
      let bits = header_bits start pid cc 2 fits small (omega arith) in
      let bytes = header_bytes start pid 2 cc ++ (len ∷ body) in
      let v : At bytes 4 ((len ∷ body) ++ []) = record {
        rest_eq = sym (append-nil (len ∷ body));
        inside = omega arith;
      } in
      let end : 4 + (len + 1) ≡ 4 + length (len ∷ body) = omega arith in
      parse-whole
        ((bit_of start <<< 6 + low_bits (pid >>> 8) 5)
          ∷ low_bits pid 8
          ∷ (2 <<< 4 + low_bits cc 4)
          ∷ (len ∷ body))
        (omega arith)
      ∙ rw (
        bits.0,
        bits.1,
        bits.2,
        bits.3,
        bits.4,
        bits.5,
        bits.6,
        add_or_truncated-ok "TS adaptation_field" (length bytes) 4 (len + 1) (omega arith)
            (omega arith),
        le→ltb_false 188 (4 + (len + 1)) (omega arith),
        end,
        slice-At bytes 4 (len ∷ body) [] v,
        read,
      )
