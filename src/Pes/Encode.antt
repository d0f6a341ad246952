-- ===== src/Pes/Encode.antt =====
-- src/pes.rs: `PesHeaderSpec`, `encode` and `encode_pes_extension`.
pub mod Fields
pub mod Accepts
pub mod Extension
pub mod Header
pub mod Written
pub mod Lengths
pub mod Returns
pub mod RoundTrip
use oxideav_mpegts.Base.{
  ℕ, zero, suc, ◌+◌, ◌-◌, ◌*◌, ◌/◌, ◌%◌, ◌^◌, ◌≤◌, ◌<◌, min, max, String, ◌≡◌, refl, sym, ap, subst,
  ◌∙◌, ◌≢◌, ◌↔◌, ◌⊎◌, inl, inr, Bool, true, false, not, ◌&&◌, ◌||◌, Option, none, some, List, [],
  ◌∷◌, ◌++◌, map, append_assoc, append-nil, arith, ltb, leb, ◌==◌, if◌then◌else◌, ltb→lt, lt→ltb,
  leb→le, le→leb, lt→leb_false, le→ltb_false, ==_iff, Bool-cases, Option-cases, is_some, is_none,
  length, get_elem?, get_or, take, drop, replicate, All, length-append, length-take, length-drop,
  length-replicate, take-append-drop, take-append_length, drop-append_length, take_all,
  get_elem?-get_or, All-append, All-take, All-drop, All-get_or, All-replicate, IsByte, IsBytes,
  ◌>>>◌, ◌<<<◌, low_bits, flag, bit_of, be16, be32, Within, byte_at-IsByte, TsError, Outcome, ◌>>=◌,
  ◌>>◌, fail_if, index, slice, sub_usize, checked_add, Ensures, Ensures-bind, Ensures-weaken,
  Ensures-ok, Ensures-ne_panic, byte_at, index-ok, slice-ok, sub_usize-ok, truncated_from,
  truncated_from-err, add_or_truncated, add_or_truncated-ok, >>=-eq_ok, >>-eq_ok, fail_if-eq_ok,
  slice_front, slice_back, add_or_overrun, add_or_overrun-ok, take_counted, truncated,
  bad_sync_byte, section_length_overrun, psi_crc_mismatch, bad_pes_start_code, unsupported,
  invalid_field, ok, err, panic,
}
use oxideav_mpegts.Pes.Timestamp.{encode_ts33, encode_escr}
use oxideav_mpegts.Pes.TrickMode.{DsmTrickMode, to_byte}
use oxideav_mpegts.Pes.Extension.{PesExtension, ProgramPacketSequenceCounter, PStdBuffer}
use oxideav_mpegts.Pes.Header.{has_optional_pes_header}

pub record PesHeaderSpec : Type 0 where
  pub stream_id : ℕ
  pub pes_scrambling_control : ℕ
  pub pes_priority : Bool
  pub data_alignment_indicator : Bool
  pub copyright : Bool
  pub original_or_copy : Bool
  pub pts_90k : Option ℕ
  pub dts_90k : Option ℕ
  pub escr_27mhz : Option ℕ
  pub es_rate_50bps : Option ℕ
  pub trick_mode : Option DsmTrickMode
  pub additional_copy_info : Option ℕ
  pub previous_pes_packet_crc : Option ℕ
  pub pes_extension : Option PesExtension
  pub unbounded_length : Bool

unfoldable pub with_timestamps : ℕ → ℕ → Option ℕ → PesHeaderSpec
with_timestamps stream_id pts dts = record {
  stream_id = stream_id;
  pes_scrambling_control = 0;
  pes_priority = false;
  data_alignment_indicator = false;
  copyright = false;
  original_or_copy = false;
  pts_90k = some pts;
  dts_90k = dts;
  escr_27mhz = none;
  es_rate_50bps = none;
  trick_mode = none;
  additional_copy_info = none;
  previous_pes_packet_crc = none;
  pes_extension = none;
  unbounded_length = false;
}

-- The checks of `encode`, in its order.
abbrev exceeds : Option ℕ → ℕ → Bool
exceeds none limit = false
exceeds (some n) limit = ltb limit n

unfoldable pub check_dts : Option ℕ → Option ℕ → Outcome (Unit {0})
check_dts pts none = ok tt
check_dts none (some dts) = do
  fail_if (ltb (2 ^ 33 - 1) dts) (invalid_field "DTS exceeds 33 bits")
  err (invalid_field "DTS without PTS")
check_dts (some pts) (some dts) = do
  fail_if (ltb (2 ^ 33 - 1) dts) (invalid_field "DTS exceeds 33 bits")
  fail_if (pts == dts) (invalid_field "DTS equal to PTS shall not be coded")

unfoldable pub check_escr : Option ℕ → Outcome (Unit {0})
check_escr none = ok tt
check_escr (some escr) =
    fail_if (ltb (2 ^ 33 - 1) (escr / 300)) (invalid_field "ESCR base exceeds 33 bits")

unfoldable pub check_es_rate : Option ℕ → Outcome (Unit {0})
check_es_rate none = ok tt
check_es_rate (some rate) = do
  fail_if (rate == 0) (invalid_field "ES_rate value 0 is forbidden")
  fail_if (ltb 0x3FFFFF rate) (invalid_field "ES_rate exceeds 22 bits")

unfoldable pub check_spec : PesHeaderSpec → Outcome (Unit {0})
check_spec s = do
  fail_if (ltb 3 s.pes_scrambling_control) (invalid_field "PES_scrambling_control exceeds 2 bits")
  fail_if (exceeds s.pts_90k (2 ^ 33 - 1)) (invalid_field "PTS exceeds 33 bits")
  check_dts s.pts_90k s.dts_90k
  check_escr s.escr_27mhz
  check_es_rate s.es_rate_50bps
  fail_if (exceeds s.additional_copy_info 0x7F)
      (invalid_field "additional_copy_info exceeds 7 bits")

-- `PTS_DTS_flags` and the timestamps. A DTS alone does not get this far.
unfoldable pub encode_timestamps : Option ℕ → Option ℕ → Outcome (ℕ × List ℕ)
encode_timestamps (some pts) (some dts) = ok (3, encode_ts33 3 pts ++ encode_ts33 1 dts)
encode_timestamps (some pts) none = ok (2, encode_ts33 2 pts)
encode_timestamps none none = ok (0, [])
encode_timestamps none (some dts) = panic

unfoldable pub escr_bytes : Option ℕ → List ℕ
escr_bytes none = []
escr_bytes (some escr) = encode_escr escr

unfoldable pub es_rate_bytes : Option ℕ → List ℕ
es_rate_bytes none = []
es_rate_bytes (some rate) =
    (128 + low_bits (rate >>> 15) 7) ∷ low_bits (rate >>> 7) 8 ∷ (low_bits rate 7 <<< 1 + 1) ∷ []

unfoldable pub trick_mode_bytes : Option DsmTrickMode → List ℕ
trick_mode_bytes none = []
trick_mode_bytes (some tm) = to_byte tm ∷ []

unfoldable pub copy_info_bytes : Option ℕ → List ℕ
copy_info_bytes none = []
copy_info_bytes (some aci) = (128 + low_bits aci 7) ∷ []

unfoldable pub previous_crc_bytes : Option ℕ → List ℕ
previous_crc_bytes none = []
previous_crc_bytes (some crc) = low_bits (crc >>> 8) 8 ∷ low_bits crc 8 ∷ []

unfoldable pub check_pes_extension : PesExtension → Outcome (Unit {0})
check_pes_extension ext = do
  fail_if (elim ext.program_packet_sequence_counter [ none ↦ false | some p ↦ ltb 0x7F p.counter ])
      (invalid_field "program_packet_sequence_counter exceeds 7 bits")
  fail_if
      (elim ext.program_packet_sequence_counter [
        | none ↦ false
        | some p ↦ ltb 0x3F p.original_stuff_length
      ])
      (invalid_field "original_stuff_length exceeds 6 bits")
  fail_if (elim ext.p_std_buffer [ none ↦ false | some p ↦ ltb 0x1FFF p.size ])
      (invalid_field "P-STD_buffer_size exceeds 13 bits")
  fail_if (elim ext.pack_header [ none ↦ false | some pack ↦ ltb 255 (length pack) ])
      (invalid_field "pack_header exceeds pack_field_length")
  fail_if (elim ext.extension_field_2 [ none ↦ false | some f2 ↦ ltb 0x7F (length f2) ])
      (invalid_field "PES_extension_field_2 exceeds 7 bits of length")

unfoldable pub pes_private_bytes : Option (List ℕ) → List ℕ
pes_private_bytes none = []
pes_private_bytes (some pd) = pd

unfoldable pub pack_header_bytes : Option (List ℕ) → List ℕ
pack_header_bytes none = []
pack_header_bytes (some pack) = low_bits (length pack) 8 ∷ pack

unfoldable pub sequence_counter_bytes : Option ProgramPacketSequenceCounter → List ℕ
sequence_counter_bytes none = []
sequence_counter_bytes (some p) =
    (128 + low_bits p.counter 7)
    ∷ (128 + bit_of p.mpeg1_mpeg2_identifier <<< 6 + low_bits p.original_stuff_length 6)
    ∷ []

unfoldable pub p_std_buffer_bytes : Option PStdBuffer → List ℕ
p_std_buffer_bytes none = []
p_std_buffer_bytes (some p) =
    (64 + bit_of p.scale <<< 5 + low_bits (p.size >>> 8) 5) ∷ low_bits p.size 8 ∷ []

unfoldable pub field_2_bytes : Option (List ℕ) → List ℕ
field_2_bytes none = []
field_2_bytes (some f2) = (128 + low_bits (length f2) 7) ∷ f2

unfoldable pub pes_extension_flags : PesExtension → ℕ
pes_extension_flags ext =
    bit_of (is_some ext.private_data) <<< 7
    + bit_of (is_some ext.pack_header) <<< 6
    + bit_of (is_some ext.program_packet_sequence_counter) <<< 5
    + bit_of (is_some ext.p_std_buffer) <<< 4
    + 14
    + bit_of (is_some ext.extension_field_2)

-- `encode_pes_extension`: what it appends.
unfoldable pub pes_extension_content : PesExtension → List ℕ
pes_extension_content ext =
    pes_extension_flags ext
    ∷ (pes_private_bytes ext.private_data
        ++ (pack_header_bytes ext.pack_header
            ++ (sequence_counter_bytes ext.program_packet_sequence_counter
                ++ (p_std_buffer_bytes ext.p_std_buffer ++ field_2_bytes ext.extension_field_2))))

unfoldable pub encode_pes_extension : Option PesExtension → Outcome (List ℕ)
encode_pes_extension none = ok []
encode_pes_extension (some ext) = do check_pes_extension ext; ok (pes_extension_content ext)

-- `PES_packet_length`.
unfoldable pub encode_length : Bool → ℕ → ℕ → Outcome ℕ
encode_length unbounded_length stream_id tail_len =
    if unbounded_length
    then (if leb 0xE0 stream_id && leb stream_id 0xEF
        then ok 0
        else err (invalid_field "unbounded PES_packet_length on a non-video stream_id"))
    else (do
      fail_if (ltb 65535 tail_len)
          (invalid_field "PES packet exceeds PES_packet_length (use unbounded_length)")
      ok tail_len)

unfoldable pub flags1_byte : PesHeaderSpec → ℕ
flags1_byte s =
    128
    + low_bits s.pes_scrambling_control 2 <<< 4
    + bit_of s.pes_priority <<< 3
    + bit_of s.data_alignment_indicator <<< 2
    + bit_of s.copyright <<< 1
    + bit_of s.original_or_copy

unfoldable pub flags2_byte : PesHeaderSpec → ℕ → ℕ
flags2_byte s pts_dts_flags =
    pts_dts_flags <<< 6
    + bit_of (is_some s.escr_27mhz) <<< 5
    + bit_of (is_some s.es_rate_50bps) <<< 4
    + bit_of (is_some s.trick_mode) <<< 3
    + bit_of (is_some s.additional_copy_info) <<< 2
    + bit_of (is_some s.previous_pes_packet_crc) <<< 1
    + bit_of (is_some s.pes_extension)

-- The fields between the timestamps and the extension.
unfoldable pub middle_bytes : PesHeaderSpec → List ℕ
middle_bytes s =
    escr_bytes s.escr_27mhz
    ++ (es_rate_bytes s.es_rate_50bps
        ++ (trick_mode_bytes s.trick_mode
            ++ (copy_info_bytes s.additional_copy_info
                ++ previous_crc_bytes s.previous_pes_packet_crc)))

-- `encode` on a `stream_id` with an optional header.
unfoldable pub encode_with_header : PesHeaderSpec → List ℕ → Outcome (List ℕ)
encode_with_header s payload = do
  check_spec s
  (pts_dts_flags, timestamps) ← encode_timestamps s.pts_90k s.dts_90k
  ext ← encode_pes_extension s.pes_extension
  let opt = timestamps ++ (middle_bytes s ++ ext)
  fail_if (ltb 255 (length opt))
      (invalid_field "optional PES header exceeds PES_header_data_length")
  n ← encode_length s.unbounded_length s.stream_id (3 + length opt + length payload)
  ok (
      0
      ∷ 0
      ∷ 1
      ∷ s.stream_id
      ∷ low_bits (n >>> 8) 8
      ∷ low_bits n 8
      ∷ flags1_byte s
      ∷ flags2_byte s pts_dts_flags
      ∷ length opt
      ∷ (opt ++ payload))

-- Whether a field of the optional header is given.
unfoldable pub has_optional_fields : PesHeaderSpec → Bool
has_optional_fields s =
    is_some s.pts_90k
    || is_some s.dts_90k
    || is_some s.escr_27mhz
    || is_some s.es_rate_50bps
    || is_some s.trick_mode
    || is_some s.additional_copy_info
    || is_some s.previous_pes_packet_crc
    || is_some s.pes_extension

-- `encode` on the other values of `stream_id`.
unfoldable pub encode_headerless : PesHeaderSpec → List ℕ → Outcome (List ℕ)
encode_headerless s payload = do
  fail_if (has_optional_fields s) (invalid_field "optional PES fields on a header-less stream_id")
  fail_if (ltb 65535 (length payload)) (invalid_field "PES payload exceeds PES_packet_length")
  ok (
      0
      ∷ 0
      ∷ 1
      ∷ s.stream_id
      ∷ low_bits (length payload >>> 8) 8
      ∷ low_bits (length payload) 8
      ∷ payload)

unfoldable pub encode_pes : PesHeaderSpec → List ℕ → Outcome (List ℕ)
encode_pes s payload =
    if has_optional_pes_header s.stream_id
    then encode_with_header s payload
    else encode_headerless s payload
