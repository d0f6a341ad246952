-- ===== src/Packet/Tests.antt =====
-- src/packet.rs: tests and examples on concrete bytes.
use oxideav_mpegts.Base.{
  ℕ, ◌-◌, ◌≤◌, ◌≡◌, refl, ◌↔◌, true, false, none, some, List, [], ◌∷◌, ◌++◌, map, arith, length,
  replicate, All-replicate, IsByte, IsBytes, index, slice, Ensures, bad_sync_byte, ok, err,
}
use oxideav_mpegts.Base.Int.{negsuc}
use oxideav_mpegts.Packet.Field.{parse_adaptation_field}
use oxideav_mpegts.Packet.Header.{TsPacket, parse, parse_synced, parse_af_part}
use oxideav_mpegts.Packet.Header.Safety.{PacketFits, parse-PacketFits}
use oxideav_mpegts.Packet.Stream.{iter_packets, collect, concat, collect-frames, collect-bad_frame}
use oxideav_mpegts.Packet.Encode.{
  AdaptationFieldSpec, AdaptationFieldExtensionSpec, extension_is_empty, with_pcr, encode,
  flags_byte, extension_len, extension_flags, clock_bytes, countdown_bytes, private_bytes,
  extension_bytes, ltw_bytes, rate_bytes, splice_bytes,
}
use oxideav_mpegts.Packet.Encode.RoundTrip.{decoded}
use oxideav_mpegts.Packet.Encode.Result.{
  encoded, size_of, Encodable, encode_returns_iff, length-encode, parse_adaptation_field-encode,
}

-- A clock reference, a negative splice countdown, two private bytes and stuffing.
abbrev spec : AdaptationFieldSpec
spec = record {
  discontinuity_indicator = false;
  random_access_indicator = true;
  elementary_stream_priority_indicator = false;
  pcr = some (27000, 123);
  opcr = none;
  splice_countdown = some (negsuc 2);
  transport_private_data = some (1 ∷ 2 ∷ []);
  extension =
      some (record {
        ltw = some (true, 77);
        piecewise_rate = none;
        seamless_splice = some (3, 90000);
      });
}

encode-spec : encode spec (some 40) ≡ ok (encoded spec 40)
unfolding encode clock_bytes countdown_bytes private_bytes extension_bytes ltw_bytes rate_bytes
    splice_bytes
encode-spec = refl

parse_adaptation_field-encode_example :
    parse_adaptation_field (encoded spec 40)
    ≡ ok (decoded spec (length (encoded spec 40) - 1) (encoded spec 40))
parse_adaptation_field-encode_example =
    parse_adaptation_field-encode spec (some 40) (encoded spec 40) (omega arith) encode-spec

encode_returns_iff_example :
    ((out : List ℕ) × (encode spec (some 40) ≡ ok out)) ↔ Encodable spec (size_of (some 40))
encode_returns_iff_example = encode_returns_iff spec (some 40) (omega arith)

length-encode_example :
    (size_of (some 40) ≤ length (encoded spec 40))
    × (1 ≤ length (encoded spec 40))
    × (length (encoded spec 40) ≤ 184)
length-encode_example = length-encode spec (some 40) (encoded spec 40) encode-spec

-- A packet that starts a unit of PID 0x11 and carries 184 zero bytes.
abbrev frame : List ℕ
frame = 0x47 ∷ 0x40 ∷ 0x11 ∷ 0x15 ∷ replicate 184 0

abbrev packet : TsPacket
packet = record {
  pid = 0x11;
  payload_unit_start = true;
  transport_error = false;
  transport_priority = false;
  transport_scrambling_control = 0;
  continuity_counter = 5;
  adaptation_field = none;
  payload = replicate 184 0;
  bytes = frame;
}

parse-frame : parse frame ≡ ok packet
unfolding parse index slice parse_synced parse_af_part
parse-frame = refl

frame-IsBytes : IsBytes frame
frame-IsBytes = (
  omega arith,
  (omega arith, (omega arith, (omega arith, All-replicate IsByte 184 0 (omega arith)))),
)

parse-PacketFits_example : Ensures (PacketFits frame) (parse frame)
parse-PacketFits_example = parse-PacketFits frame frame-IsBytes

abbrev lost : List ℕ
lost = replicate 188 0

parse-lost : parse lost ≡ err (bad_sync_byte 0)
unfolding parse index slice
parse-lost = refl

collect-frames_example :
    collect 3 (iter_packets (concat (frame ∷ frame ∷ []) ++ (0x47 ∷ [])))
    ≡ (map parse (frame ∷ frame ∷ []), record { rest = 0x47 ∷ []; halted = false })
collect-frames_example =
    collect-frames (frame ∷ frame ∷ []) (0x47 ∷ [])
      ((refl, (packet, parse-frame)), ((refl, (packet, parse-frame)), tt)) (omega arith)

collect-bad_frame_example :
    collect 3 (iter_packets (concat (frame ∷ []) ++ (lost ++ frame)))
    ≡ (map parse (frame ∷ []) ++ err (bad_sync_byte 0) ∷ [], record { rest = frame; halted = true })
collect-bad_frame_example =
    collect-bad_frame (frame ∷ []) lost frame (bad_sync_byte 0) 0
      ((refl, (packet, parse-frame)), tt) refl parse-lost

encode-with_pcr :
    encode (with_pcr 2 3) (some 9) ≡ ok (8 ∷ 0x10 ∷ 0 ∷ 0 ∷ 0 ∷ 1 ∷ 0x7E ∷ 3 ∷ 0xFF ∷ [])
unfolding encode with_pcr flags_byte clock_bytes countdown_bytes private_bytes extension_bytes
encode-with_pcr = refl

-- An extension with no field in it is written, as its length and its flags.
encode-empty_extension :
    let e : AdaptationFieldExtensionSpec = record {
      ltw = none;
      piecewise_rate = none;
      seamless_splice = none;
    } in
    (extension_is_empty e ≡ true)
    × (encode (record (with_pcr 0 0) { pcr = none; extension = some e }) none
        ≡ ok (3 ∷ 1 ∷ 1 ∷ 0x1F ∷ []))
unfolding encode with_pcr extension_is_empty flags_byte clock_bytes countdown_bytes private_bytes
    extension_bytes extension_len extension_flags ltw_bytes rate_bytes splice_bytes
encode-empty_extension = (refl, refl)
