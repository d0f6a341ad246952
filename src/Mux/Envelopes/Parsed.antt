-- ===== src/Mux/Envelopes/Parsed.antt =====
-- The PES packets that `build_pes` makes of a frame, parsed.
use oxideav_mpegts.Base.{
  ℕ, zero, suc, ◌+◌, ◌-◌, ◌^◌, ◌≤◌, ◌<◌, ◌≡◌, refl, ◌∙◌, Bool, true, false, ◌&&◌, Option, none,
  some, List, [], ◌∷◌, ◌++◌, arith, if◌then◌else◌, is_some, is_none, length, take, drop, All,
  length-take, length-drop, take-append-drop, Outcome, ◌>>=◌, ok,
}
use oxideav_mpegts.Base.Int.{ℤ, pos, negsuc}
use oxideav_mpegts.Packet.Encode.Fields.{OptionAll}
use oxideav_mpegts.Pes.Header.{PesPacket, has_optional_pes_header, parse_pes}
use oxideav_mpegts.Pes.Encode.{PesHeaderSpec, encode_pes}
use oxideav_mpegts.Pes.Encode.Accepts.{IsPair, IsHeader}
use oxideav_mpegts.Pes.Encode.Header.{IsTyped, decoded}
use oxideav_mpegts.Pes.Encode.Lengths.{header_length}
use oxideav_mpegts.Pes.Encode.Returns.{with_header, LengthFits, encode_pes_returns_iff}
use oxideav_mpegts.Pes.Encode.RoundTrip.{parse_pes-encode}
use oxideav_mpegts.Mux.Envelopes.{FrameData, ring, ring?, differs, plain_spec, encode_chunks}

unfoldable pub parse_pes_all : List (List ℕ) → Outcome (List PesPacket)
parse_pes_all [] = ok []
parse_pes_all (bytes ∷ rest) = do
  pes ← parse_pes bytes
  packets ← parse_pes_all rest
  ok (pes ∷ packets)

abbrev pub payloads : List PesPacket → List ℕ
payloads [] = []
payloads (pes ∷ rest) = pes.payload ++ payloads rest

-- A PES packet of the stream with these times.
abbrev pub HasTimes : ℕ → Option ℕ → Option ℕ → PesPacket → Type 0
HasTimes stream_id pts dts pes =
    (pes.stream_id ≡ stream_id) × (pes.pts_90k ≡ pts) × (pes.dts_90k ≡ dts)

ring-lt : (t : ℤ) → ring t < 2 ^ 33
unfolding ring
ring-lt (pos n) = omega arith
ring-lt (negsuc n) = omega arith

-- The DTS that is coded: one that differs from the PTS.
abbrev pub coded_dts : FrameData → Option ℕ
coded_dts frame =
    if is_some frame.dts && differs (ring? frame.dts) (ring? frame.pts)
    then ring? frame.dts
    else none

pub ring?-fits : (t : Option ℤ) → OptionAll (λ n. n ≤ 2 ^ 33 - 1) (ring? t)
ring?-fits none = tt
ring?-fits (some t) = omega (arith, ring-lt t)

-- With a PTS, or without a DTS, the times stand in a pair.
pub coded-IsPair :
    (p d : Option ℤ)
    → (is_some d && is_none p) ≡ false
    → IsPair (ring? p) (if is_some d && differs (ring? d) (ring? p) then ring? d else none)
      × OptionAll
          (λ n. n ≤ 2 ^ 33 - 1)
          (if is_some d && differs (ring? d) (ring? p) then ring? d else none)
coded-IsPair p none h = (tt, tt)
coded-IsPair none (some d) h = cc h
coded-IsPair (some p) (some d) h = ground (arith, ring-lt d)

parse_pes-some : (out : List ℕ) (pes : PesPacket) → parse_pes out ≡ ok pes → 0 < length out
unfolding parse_pes
parse_pes-some [] pes h = cc h
parse_pes-some (b ∷ bs) pes h = omega arith

-- A PES packet with these times, written and read.
abbrev pub timed_spec : ℕ → Option ℕ → Option ℕ → Bool → PesHeaderSpec
timed_spec stream_id pts dts unbounded = record (plain_spec stream_id) {
  pts_90k = pts;
  dts_90k = dts;
  unbounded_length = unbounded;
}

module _ (stream_id : ℕ) (byte : stream_id < 256)
    (header : has_optional_pes_header stream_id ≡ true) where
  pub record Envelope (spec : PesHeaderSpec) (pts dts : Option ℕ) (payload : List ℕ) : Type 0 where
    pub bytes : List ℕ
    pub pes : PesPacket
    pub eq : encode_pes spec payload ≡ ok bytes
    pub read : parse_pes bytes ≡ ok pes
    pub times : HasTimes stream_id pts dts pes
    pub payload_eq : pes.payload ≡ payload
    pub some_bytes : 0 < length bytes

  pub timed_spec-Envelope :
      (pts dts : Option ℕ) (unbounded : Bool) (payload : List ℕ)
      → OptionAll (λ n. n ≤ 2 ^ 33 - 1) pts
      → IsPair pts dts × OptionAll (λ n. n ≤ 2 ^ 33 - 1) dts
      → LengthFits unbounded stream_id
          (3 + header_length (timed_spec stream_id pts dts unbounded) + length payload)
      → header_length (timed_spec stream_id pts dts unbounded) ≤ 255
      → Envelope (timed_spec stream_id pts dts unbounded) pts dts payload
  timed_spec-Envelope pts dts unbounded payload p (pair, q) fits short =
      let spec = timed_spec stream_id pts dts unbounded in
      let fields : IsHeader spec = record {
        scrambling_fits = omega arith;
        pts_fits = p;
        dts_fits = q;
        dts_paired = pair;
        escr_fits = tt;
        rate_fits = tt;
        copy_info_fits = tt;
      } in
      let typed : IsTyped spec = record {
        stream_id_fits = byte;
        crc_fits = tt;
        private_fits = tt;
      } in
      let (out, h) =
        (encode_pes_returns_iff spec payload).1 (with_header header fields tt short fits) in
      let read : parse_pes out ≡ ok (decoded spec payload) =
        parse_pes-encode spec payload out typed h ∙ rw header in
      record {
        bytes = out;
        pes = decoded spec payload;
        eq = h;
        read = read;
        times = (refl, refl, refl);
        payload_eq = refl;
        some_bytes = parse_pes-some out (decoded spec payload) read;
      }

  pub record Envelopes (made : Outcome (List (List ℕ))) (payload : List ℕ) : Type 0 where
    pub packets : List (List ℕ)
    pub list : List PesPacket
    pub eq : made ≡ ok packets
    pub read : parse_pes_all packets ≡ ok list
    pub times : All (HasTimes stream_id none none) list
    pub payload_eq : payloads list ≡ payload
    pub some_bytes : All (λ bytes. 0 < length bytes) packets

  no-Envelopes : Envelopes (ok []) []
  unfolding parse_pes_all
  no-Envelopes = record {
    packets = [];
    list = [];
    eq = refl;
    read = refl;
    times = tt;
    payload_eq = refl;
    some_bytes = tt;
  }

  -- The continuations of a frame.
  pub encode_chunks-Envelopes :
      (fuel : ℕ) (payload : List ℕ)
      → length payload ≤ fuel
      → Envelopes (encode_chunks fuel (plain_spec stream_id) payload) payload
  unfolding encode_chunks parse_pes_all
  encode_chunks-Envelopes zero [] h = no-Envelopes
  encode_chunks-Envelopes (suc fuel) [] h = no-Envelopes
  encode_chunks-Envelopes zero (b ∷ bs) h = absurd (omega arith)
  encode_chunks-Envelopes (suc fuel) (b ∷ bs) h =
      let size = length-take 65532 (b ∷ bs) in
      let first =
        timed_spec-Envelope none none false (take 65532 (b ∷ bs)) tt (tt, tt) (omega (arith, size))
          (omega arith) in
      let later =
        encode_chunks-Envelopes fuel (drop 65532 (b ∷ bs))
          (omega (arith, length-drop 65532 (b ∷ bs))) in
      record {
        packets = first.bytes ∷ later.packets;
        list = first.pes ∷ later.list;
        eq = rw (first.eq, later.eq);
        read = rw (first.read, later.read);
        times = (first.times, later.times);
        payload_eq = rw (first.payload_eq, later.payload_eq) (take-append-drop 65532 (b ∷ bs));
        some_bytes = (first.some_bytes, later.some_bytes);
      }
