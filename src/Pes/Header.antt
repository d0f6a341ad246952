-- ===== src/Pes/Header.antt =====
-- src/pes.rs: `PesPacket` and `PesPacket::parse`.
use oxideav_mpegts.Base.{
  ℕ, ◌+◌, Bool, false, not, ◌||◌, Option, none, some, List, ltb, ◌==◌, if◌then◌else◌, length, ◌>>>◌,
  low_bits, flag, Outcome, ◌>>=◌, ◌>>◌, fail_if, index, slice, truncated, bad_pes_start_code, ok,
}
use oxideav_mpegts.Pes.Fields.{
  parse_timestamps, parse_escr_field, parse_es_rate, parse_trick_mode_byte, parse_copy_info,
  parse_previous_crc,
}
use oxideav_mpegts.Pes.Extension.{PesExtension, parse_pes_extension}
use oxideav_mpegts.Pes.TrickMode.{DsmTrickMode, from_byte}

unfoldable pub has_optional_pes_header : ℕ → Bool
has_optional_pes_header stream_id = not (
    stream_id == 0xBC
    || stream_id == 0xBE
    || stream_id == 0xBF
    || stream_id == 0xF0
    || stream_id == 0xF1
    || stream_id == 0xFF
    || stream_id == 0xF2
    || stream_id == 0xF8)

pub record PesPacket : Type 0 where
  pub stream_id : ℕ
  pub pes_scrambling_control : ℕ
  pub pes_priority : Bool
  pub data_alignment_indicator : Bool
  pub copyright : Bool
  pub original_or_copy : Bool
  pub pts_90k : Option ℕ
  pub dts_90k : Option ℕ
  pub escr_27mhz : Option ℕ
  pub es_rate_50bps : Option ℕ
  pub dsm_trick_mode : Option ℕ
  pub additional_copy_info : Option ℕ
  pub previous_pes_packet_crc : Option ℕ
  pub pes_extension : Option PesExtension
  pub random_access : Bool
  pub payload : List ℕ

-- The packet of a stream that has no optional header.
abbrev pub headerless : ℕ → List ℕ → PesPacket
headerless stream_id payload = record {
  stream_id = stream_id;
  pes_scrambling_control = 0;
  pes_priority = false;
  data_alignment_indicator = false;
  copyright = false;
  original_or_copy = false;
  pts_90k = none;
  dts_90k = none;
  escr_27mhz = none;
  es_rate_50bps = none;
  dsm_trick_mode = none;
  additional_copy_info = none;
  previous_pes_packet_crc = none;
  pes_extension = none;
  random_access = false;
  payload = payload;
}

-- `PesExtension::parse(&opt[cursor..])`.
unfoldable pub parse_extension_part : List ℕ → ℕ → Bool → Outcome (Option PesExtension)
parse_extension_part opt cursor present =
    if present
    then (do
      rest ← slice opt cursor (length opt)
      (ext, used) ← parse_pes_extension rest
      ok (some ext))
    else ok none

-- The optional header `opt` behind the two flag bytes.
unfoldable pub parse_optional_header : ℕ → ℕ → ℕ → List ℕ → List ℕ → Outcome PesPacket
parse_optional_header stream_id flags1 flags2 opt payload = do
  (pts, dts, c1) ← parse_timestamps opt (low_bits (flags2 >>> 6) 2)
  (escr, c2) ← parse_escr_field opt c1 (flag flags2 5)
  (es_rate, c3) ← parse_es_rate opt c2 (flag flags2 4)
  (trick_mode, c4) ← parse_trick_mode_byte opt c3 (flag flags2 3)
  (copy_info, c5) ← parse_copy_info opt c4 (flag flags2 2)
  (crc, c6) ← parse_previous_crc opt c5 (flag flags2 1)
  ext ← parse_extension_part opt c6 (flag flags2 0)
  ok (record {
    stream_id = stream_id;
    pes_scrambling_control = low_bits (flags1 >>> 4) 2;
    pes_priority = flag flags1 3;
    data_alignment_indicator = flag flags1 2;
    copyright = flag flags1 1;
    original_or_copy = flag flags1 0;
    pts_90k = pts;
    dts_90k = dts;
    escr_27mhz = escr;
    es_rate_50bps = es_rate;
    dsm_trick_mode = trick_mode;
    additional_copy_info = copy_info;
    previous_pes_packet_crc = crc;
    pes_extension = ext;
    random_access = false;
    payload = payload;
  })

-- What `parse` does on a `stream_id` with an optional header.
unfoldable pub parse_with_header : ℕ → List ℕ → Outcome PesPacket
parse_with_header stream_id bytes = do
  fail_if (ltb (length bytes) 9) (truncated "PES optional header" (length bytes) 9)
  flags1 ← index bytes 6
  flags2 ← index bytes 7
  len ← index bytes 8
  fail_if (ltb (length bytes) (9 + len))
      (truncated "PES optional header body" (length bytes) (9 + len))
  opt ← slice bytes 9 (9 + len)
  payload ← slice bytes (9 + len) (length bytes)
  parse_optional_header stream_id flags1 flags2 opt payload

unfoldable pub parse_pes : List ℕ → Outcome PesPacket
parse_pes bytes = do
  fail_if (ltb (length bytes) 6) (truncated "PES header" (length bytes) 6)
  b0 ← index bytes 0
  b1 ← index bytes 1
  b2 ← index bytes 2
  fail_if (not (b0 == 0) || not (b1 == 0) || not (b2 == 1)) (bad_pes_start_code b0 b1 b2)
  stream_id ← index bytes 3
  if has_optional_pes_header stream_id
      then parse_with_header stream_id bytes
      else (do payload ← slice bytes 6 (length bytes); ok (headerless stream_id payload))

-- `PesPacket::trick_mode`.
unfoldable pub trick_mode : PesPacket → Option DsmTrickMode
trick_mode pes = elim pes.dsm_trick_mode [ none ↦ none | some b ↦ some (from_byte b) ]
