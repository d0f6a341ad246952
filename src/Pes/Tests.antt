-- ===== src/Pes/Tests.antt =====
-- src/pes.rs: examples on concrete fields.
use oxideav_mpegts.Base.{
  ℕ, ◌<◌, ◌≡◌, length, refl, ◌↔◌, Bool, true, false, none, some, List, [], ◌∷◌, ◌++◌, arith, take,
  drop, IsBytes, Ensures, ok,
}
use oxideav_mpegts.Pes.Timestamp.{encode_ts33, decode_escr, encode_escr, decode_escr-encode_escr}
use oxideav_mpegts.Packet.Header.{TsPacket}
use oxideav_mpegts.Pes.Header.{has_optional_pes_header, parse_pes}
use oxideav_mpegts.Pes.Encode.{
  PesHeaderSpec, with_timestamps, encode_pes, encode_with_header, check_spec, check_dts, check_escr,
  check_es_rate, encode_timestamps, encode_pes_extension, check_pes_extension, middle_bytes,
  escr_bytes, es_rate_bytes, trick_mode_bytes, copy_info_bytes, previous_crc_bytes,
  pes_extension_content, pes_extension_flags, pes_private_bytes, pack_header_bytes,
  sequence_counter_bytes, p_std_buffer_bytes, field_2_bytes, encode_length, flags1_byte,
  flags2_byte,
}
use oxideav_mpegts.Pes.Encode.Header.{IsTyped, decoded_pes}
use oxideav_mpegts.Pes.Encode.RoundTrip.{parse_pes-encode}
use oxideav_mpegts.Pes.Encode.Returns.{Encodable, encode_pes_returns_iff}
use oxideav_mpegts.Pes.Safety.{PesFits, parse_pes-PesFits}
use oxideav_mpegts.Pes.Reassembler.{new_reassembler, reassemble}
use oxideav_mpegts.Pes.Reassembler.Units.{units, parse_units, reassemble-parse_units}
use oxideav_mpegts.Pes.TrickMode.{
  complete_frame, first_six, fast_reverse, IsTrickMode, canonical, from_byte, to_byte,
  from_byte-to_byte, to_byte-from_byte,
}

decode_escr-encode_escr_example :
    (length (encode_escr 27000123) ≡ 6)
    × IsBytes (encode_escr 27000123)
    × (decode_escr (encode_escr 27000123 ++ []) ≡ ok 27000123)
decode_escr-encode_escr_example = decode_escr-encode_escr 27000123 [] (omega arith)

from_byte-to_byte_example :
    (to_byte (fast_reverse complete_frame true first_six) < 256)
    × (from_byte (to_byte (fast_reverse complete_frame true first_six))
        ≡ fast_reverse complete_frame true first_six)
from_byte-to_byte_example = from_byte-to_byte (fast_reverse complete_frame true first_six) tt

to_byte-from_byte_example :
    IsTrickMode (from_byte 0x4D) × (to_byte (from_byte 0x4D) ≡ canonical 0x4D)
to_byte-from_byte_example = to_byte-from_byte 0x4D (omega arith)

-- An audio header with a PTS, a DTS, a rate and an extension.
abbrev spec : PesHeaderSpec
spec = record (with_timestamps 0xC0 90000 (some 86400)) {
  es_rate_50bps = some 4000;
  pes_extension = some (record {
    private_data = none;
    pack_header = none;
    program_packet_sequence_counter = none;
    p_std_buffer = some (record { scale = true; size = 0x1234 });
    extension_field_2 = some (1 ∷ 2 ∷ []);
  });
}

abbrev payload : List ℕ
payload = 7 ∷ 8 ∷ 9 ∷ []

abbrev written : List ℕ
written =
    0 ∷ 0 ∷ 1 ∷ 0xC0 ∷ 0 ∷ 25 ∷ 0x80 ∷ 0xD1 ∷ 19 ∷ 49 ∷ 0 ∷ 5 ∷ 191 ∷ 33 ∷ 17 ∷ 0 ∷ 5 ∷ 163 ∷ 1
    ∷ 0x80 ∷ 0x1F ∷ 0x41 ∷ 0x1F ∷ 0x72 ∷ 0x34 ∷ 0x82 ∷ 1 ∷ 2 ∷ 7 ∷ 8 ∷ 9 ∷ []

encode_pes-spec : encode_pes spec payload ≡ ok written
unfolding with_timestamps has_optional_pes_header encode_pes encode_with_header check_spec check_dts
    check_escr check_es_rate encode_timestamps encode_ts33 middle_bytes escr_bytes es_rate_bytes
    trick_mode_bytes copy_info_bytes previous_crc_bytes encode_pes_extension check_pes_extension
    pes_extension_content pes_extension_flags pes_private_bytes pack_header_bytes
    sequence_counter_bytes p_std_buffer_bytes field_2_bytes encode_length flags1_byte flags2_byte
encode_pes-spec = refl

spec-IsTyped : IsTyped spec
unfolding with_timestamps
spec-IsTyped = record { stream_id_fits = omega arith; crc_fits = tt; private_fits = tt }

written-IsBytes : IsBytes written
written-IsBytes = ground arith

parse_pes-encode_example : parse_pes written ≡ ok (decoded_pes spec payload)
parse_pes-encode_example = parse_pes-encode spec payload written spec-IsTyped encode_pes-spec

encode_pes_returns_iff_example :
    ((out : List ℕ) × (encode_pes spec payload ≡ ok out)) ↔ Encodable spec payload
encode_pes_returns_iff_example = encode_pes_returns_iff spec payload

parse_pes-PesFits_example : Ensures (PesFits written) (parse_pes written)
parse_pes-PesFits_example = parse_pes-PesFits written written-IsBytes

-- A packet that starts a PES packet and one that goes on with it and announces the next one.
abbrev frame : Bool → List ℕ → TsPacket
frame start bytes = record {
  pid = 256;
  payload_unit_start = start;
  transport_error = false;
  transport_priority = false;
  transport_scrambling_control = 0;
  continuity_counter = 0;
  adaptation_field = none;
  payload = bytes;
  bytes = bytes;
}

abbrev frames : List TsPacket
frames = frame true (take 10 written) ∷ frame false (drop 10 written) ∷ frame true written ∷ []

reassemble-parse_units_example :
    reassemble new_reassembler frames ≡ parse_units (units false frames)
reassemble-parse_units_example = reassemble-parse_units frames
