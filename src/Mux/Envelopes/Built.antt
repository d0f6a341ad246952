-- ===== src/Mux/Envelopes/Built.antt =====
-- What `build_pes` makes of a frame.
use oxideav_mpegts.Base.{
  ℕ, ◌+◌, ◌-◌, ◌≤◌, ◌<◌, ◌≡◌, refl, ◌∙◌, inl, inr, Bool, true, false, ◌&&◌, ◌||◌, Option, none,
  some, List, [], ◌∷◌, append-nil, arith, leb, leb→le, Bool-cases, is_some, is_none, length, take,
  drop, All, length-take, length-drop, take-append-drop, ok,
}
use oxideav_mpegts.Pes.Header.{PesPacket, has_optional_pes_header}
use oxideav_mpegts.Pes.Encode.{PesHeaderSpec}
use oxideav_mpegts.Pes.Encode.Accepts.{IsPair}
use oxideav_mpegts.Pes.Encode.Lengths.{header_length}
use oxideav_mpegts.Pes.Encode.Returns.{LengthFits}
use oxideav_mpegts.Mux.Envelopes.{FrameData, ring?, first_spec, opt_len, build_pes}
use oxideav_mpegts.Mux.Envelopes.Parsed.{
  parse_pes_all, payloads, HasTimes, coded_dts, ring?-fits, coded-IsPair, timed_spec, Envelope,
  timed_spec-Envelope, encode_chunks-Envelopes,
}

module _ (stream_id : ℕ) (byte : stream_id < 256)
    (header : has_optional_pes_header stream_id ≡ true) where
  -- A frame in PES packets: the first one, and its continuations.
  pub record Built (frame : FrameData) : Type 0 where
    pub packets : List (List ℕ)
    pub first : PesPacket
    pub rest : List PesPacket
    pub eq : build_pes stream_id frame ≡ ok packets
    pub read : parse_pes_all packets ≡ ok (first ∷ rest)
    pub first_times : HasTimes stream_id (ring? frame.pts) (coded_dts frame) first
    pub rest_times : All (HasTimes stream_id none none) rest
    pub payload_eq : payloads (first ∷ rest) ≡ frame.payload
    pub some_bytes : All (λ bytes. 0 < length bytes) packets

  module _ (frame : FrameData) (paired : (is_some frame.dts && is_none frame.pts) ≡ false) where
    abbrev video : Bool
    video = leb 0xE0 stream_id && leb stream_id 0xEF

    abbrev pts : Option ℕ
    pts = ring? frame.pts

    abbrev dts : Option ℕ
    dts = coded_dts frame

    abbrev spec : Bool → PesHeaderSpec
    spec unbounded = timed_spec stream_id pts dts unbounded

    header_length-opt_len :
        (p d : Option ℕ) (u : Bool)
        → IsPair p d
        → header_length (timed_spec stream_id p d u) ≡ opt_len p d
    header_length-opt_len none none u h = refl
    header_length-opt_len none (some d) u h = absurd h
    header_length-opt_len (some p) none u h = refl
    header_length-opt_len (some p) (some d) u h = refl

    opt_len-le : (p d : Option ℕ) → opt_len p d ≤ 10
    opt_len-le none d = omega arith
    opt_len-le (some p) none = omega arith
    opt_len-le (some p) (some d) = omega arith

    first-Envelope :
        (u : Bool) (payload : List ℕ)
        → LengthFits u stream_id (3 + opt_len pts dts + length payload)
        → Envelope stream_id byte header (spec u) pts dts payload
    first-Envelope u payload h =
        let pair = coded-IsPair frame.pts frame.dts paired in
        let size = header_length-opt_len pts dts u pair.0 in
        timed_spec-Envelope stream_id byte header pts dts u payload (ring?-fits frame.pts) pair
          (rw size h) (omega (arith, size, opt_len-le pts dts))

    first_spec-spec : (u : Bool) → video ≡ u → first_spec stream_id frame ≡ spec u
    unfolding first_spec
    first_spec-spec u h = rw h

    single-Built :
        (u : Bool)
        → video ≡ u
        → (u || leb (length frame.payload) (65532 - opt_len pts dts)) ≡ true
        → LengthFits u stream_id (3 + opt_len pts dts + length frame.payload)
        → Built frame
    unfolding build_pes parse_pes_all
    single-Built u v h fits =
        let e = first-Envelope u frame.payload fits in
        record {
          packets = e.bytes ∷ [];
          first = e.pes;
          rest = [];
          eq = rw (first_spec-spec u v, h, e.eq);
          read = rw e.read;
          first_times = e.times;
          rest_times = tt;
          payload_eq = append-nil e.pes.payload ∙ e.payload_eq;
          some_bytes = (e.some_bytes, tt);
        }

    split-Built :
        video ≡ false → leb (length frame.payload) (65532 - opt_len pts dts) ≡ false → Built frame
    unfolding build_pes parse_pes_all
    split-Built v h =
        let first_max = 65532 - opt_len pts dts in
        let size = length-take first_max frame.payload in
        let e =
          first-Envelope false (take first_max frame.payload)
            (omega (arith, size, opt_len-le pts dts)) in
        let later =
          encode_chunks-Envelopes stream_id byte header (length frame.payload)
            (drop first_max frame.payload) (omega (arith, length-drop first_max frame.payload)) in
        record {
          packets = e.bytes ∷ later.packets;
          first = e.pes;
          rest = later.list;
          eq = rw (first_spec-spec false v, h, e.eq, later.eq);
          read = rw (e.read, later.read);
          first_times = e.times;
          rest_times = later.times;
          payload_eq =
              rw (e.payload_eq, later.payload_eq) (take-append-drop first_max frame.payload);
          some_bytes = (e.some_bytes, later.some_bytes);
        }

    pub build_pes-Built : Built frame
    build_pes-Built = elim (Bool-cases video) [
      | inl v ↦ single-Built true v refl (ground arith)
      | inr v ↦ elim (Bool-cases (leb (length frame.payload) (65532 - opt_len pts dts))) [
        | inl fits ↦ single-Built false v fits (omega (arith, leb→le _ _ fits, opt_len-le pts dts))
        | inr over ↦ split-Built v over
      ]
    ]
