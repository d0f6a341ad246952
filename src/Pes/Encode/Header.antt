-- ===== src/Pes/Encode/Header.antt =====
-- The optional header that `encode` writes, field by field through its reader.
use oxideav_mpegts.Base.{
  ℕ, ◌+◌, ◌^◌, ◌≤◌, ◌<◌, ◌≡◌, refl, sym, ◌∙◌, false, Option, none, some, List, [], ◌++◌, append-nil,
  arith, if◌then◌else◌, is_some, length, ◌>>>◌, low_bits, flag, >>-eq_ok, slice_back, ok,
}
use oxideav_mpegts.Base.View.{At, At-append}
use oxideav_mpegts.Packet.Encode.Fields.{OptionAll}
use oxideav_mpegts.Packet.Encode.SubFields.{At-assoc}
use oxideav_mpegts.Pes.Fields.{parse_timestamps}
use oxideav_mpegts.Pes.Extension.{PesExtension}
use oxideav_mpegts.Pes.Header.{
  PesPacket, headerless, parse_extension_part, parse_optional_header, has_optional_pes_header,
}
use oxideav_mpegts.Pes.Encode.{
  PesHeaderSpec, escr_bytes, es_rate_bytes, trick_mode_bytes, copy_info_bytes, previous_crc_bytes,
  pes_extension_content, check_pes_extension, encode_pes_extension, flags1_byte, flags2_byte,
}
use oxideav_mpegts.Pes.Encode.Accepts.{IsHeader, check_pes_extension-IsExtension}
use oxideav_mpegts.Pes.Encode.Extension.{parse_pes_extension-content}
use oxideav_mpegts.Pes.Encode.Fields.{
  trick_byte?, parse_escr_field-At, parse_es_rate-At, parse_trick_mode_byte-At, parse_copy_info-At,
  parse_previous_crc-At,
}

-- What Rust's types give: `u8`, `u16` and `[u8; 16]`.
abbrev pub PrivateIsArray : Option PesExtension → Type 0
PrivateIsArray none = Unit {0}
PrivateIsArray (some e) = OptionAll (λ bytes. length bytes ≡ 16) e.private_data

pub record IsTyped (s : PesHeaderSpec) : Type 0 where
  pub stream_id_fits : s.stream_id < 256
  pub crc_fits : OptionAll (λ n. n < 2 ^ 16) s.previous_pes_packet_crc
  pub private_fits : PrivateIsArray s.pes_extension

-- The reader's value for a specification with an optional header.
abbrev pub decoded : PesHeaderSpec → List ℕ → PesPacket
decoded s payload = record {
  stream_id = s.stream_id;
  pes_scrambling_control = s.pes_scrambling_control;
  pes_priority = s.pes_priority;
  data_alignment_indicator = s.data_alignment_indicator;
  copyright = s.copyright;
  original_or_copy = s.original_or_copy;
  pts_90k = s.pts_90k;
  dts_90k = s.dts_90k;
  escr_27mhz = s.escr_27mhz;
  es_rate_50bps = s.es_rate_50bps;
  dsm_trick_mode = trick_byte? s.trick_mode;
  additional_copy_info = s.additional_copy_info;
  previous_pes_packet_crc = s.previous_pes_packet_crc;
  pes_extension = s.pes_extension;
  random_access = false;
  payload = payload;
}

-- A header-less stream gives back its number and its payload alone.
abbrev pub decoded_pes : PesHeaderSpec → List ℕ → PesPacket
decoded_pes s payload =
    if has_optional_pes_header s.stream_id
    then decoded s payload
    else headerless s.stream_id payload

flags1_bits :
    (s : PesHeaderSpec)
    → s.pes_scrambling_control ≤ 3
    → (low_bits (flags1_byte s >>> 4) 2 ≡ s.pes_scrambling_control)
      × (flag (flags1_byte s) 3 ≡ s.pes_priority)
      × (flag (flags1_byte s) 2 ≡ s.data_alignment_indicator)
      × (flag (flags1_byte s) 1 ≡ s.copyright)
      × (flag (flags1_byte s) 0 ≡ s.original_or_copy)
unfolding flags1_byte
flags1_bits s h = ground arith

flags2_bits :
    (s : PesHeaderSpec) (timestamps : ℕ)
    → timestamps < 4
    → (low_bits (flags2_byte s timestamps >>> 6) 2 ≡ timestamps)
      × (flag (flags2_byte s timestamps) 5 ≡ is_some s.escr_27mhz)
      × (flag (flags2_byte s timestamps) 4 ≡ is_some s.es_rate_50bps)
      × (flag (flags2_byte s timestamps) 3 ≡ is_some s.trick_mode)
      × (flag (flags2_byte s timestamps) 2 ≡ is_some s.additional_copy_info)
      × (flag (flags2_byte s timestamps) 1 ≡ is_some s.previous_pes_packet_crc)
      × (flag (flags2_byte s timestamps) 0 ≡ is_some s.pes_extension)
unfolding flags2_byte
flags2_bits s timestamps h = ground arith

-- The extension at the end of the optional header.
parse_extension_part-At :
    (raw : List ℕ) (cursor : ℕ) (ext : Option PesExtension) (bytes : List ℕ)
    → PrivateIsArray ext
    → encode_pes_extension ext ≡ ok bytes
    → At raw cursor bytes
    → parse_extension_part raw cursor (is_some ext) ≡ ok ext
unfolding parse_extension_part encode_pes_extension
parse_extension_part-At raw cursor none bytes private e v = refl
parse_extension_part-At raw cursor (some ext) bytes private e v =
    let (checked, content) =
      >>-eq_ok (check_pes_extension ext) (ok (pes_extension_content ext)) e in
    let fits = (check_pes_extension-IsExtension ext).0 checked in
    let (used, read) = parse_pes_extension-content ext [] fits private in
    let whole = append-nil (pes_extension_content ext) in
    rw (
      slice_back raw cursor v.inside,
      v.rest_eq ∙ sym (ground (arith, content)) ∙ sym (append-nil (pes_extension_content ext)),
      read,
    )

-- The optional header from each field on.
module _ (s : PesHeaderSpec) where
  abbrev from_copy : List ℕ
  from_copy = copy_info_bytes s.additional_copy_info ++ previous_crc_bytes s.previous_pes_packet_crc

  abbrev from_trick : List ℕ
  from_trick = trick_mode_bytes s.trick_mode ++ from_copy

  abbrev from_rate : List ℕ
  from_rate = es_rate_bytes s.es_rate_50bps ++ from_trick

module _ (opt : List ℕ) (start : ℕ) (s : PesHeaderSpec) (ext : List ℕ)
    (v : At opt start ((escr_bytes s.escr_27mhz ++ from_rate s) ++ ext)) where
  abbrev rate_cursor : ℕ
  rate_cursor = start + length (escr_bytes s.escr_27mhz)

  abbrev trick_cursor : ℕ
  trick_cursor = rate_cursor + length (es_rate_bytes s.es_rate_50bps)

  abbrev copy_cursor : ℕ
  copy_cursor = trick_cursor + length (trick_mode_bytes s.trick_mode)

  abbrev crc_cursor : ℕ
  crc_cursor = copy_cursor + length (copy_info_bytes s.additional_copy_info)

  abbrev ext_cursor : ℕ
  ext_cursor = crc_cursor + length (previous_crc_bytes s.previous_pes_packet_crc)

  At-escr : At opt start (escr_bytes s.escr_27mhz ++ (from_rate s ++ ext))
  At-escr = At-assoc opt start (escr_bytes s.escr_27mhz) (from_rate s) ext v

  At-rate : At opt rate_cursor (es_rate_bytes s.es_rate_50bps ++ (from_trick s ++ ext))
  At-rate =
      At-assoc opt rate_cursor (es_rate_bytes s.es_rate_50bps) (from_trick s) ext
        (At-append opt start (escr_bytes s.escr_27mhz) (from_rate s ++ ext) At-escr)

  At-trick : At opt trick_cursor (trick_mode_bytes s.trick_mode ++ (from_copy s ++ ext))
  At-trick =
      At-assoc opt trick_cursor (trick_mode_bytes s.trick_mode) (from_copy s) ext
        (At-append opt rate_cursor (es_rate_bytes s.es_rate_50bps) (from_trick s ++ ext) At-rate)

  At-copy : At opt copy_cursor (
      copy_info_bytes s.additional_copy_info
      ++ (previous_crc_bytes s.previous_pes_packet_crc ++ ext))
  At-copy =
      At-assoc opt copy_cursor (copy_info_bytes s.additional_copy_info)
        (previous_crc_bytes s.previous_pes_packet_crc) ext
        (At-append opt trick_cursor (trick_mode_bytes s.trick_mode) (from_copy s ++ ext) At-trick)

  At-crc : At opt crc_cursor (previous_crc_bytes s.previous_pes_packet_crc ++ ext)
  At-crc =
      At-append opt copy_cursor (copy_info_bytes s.additional_copy_info)
        (previous_crc_bytes s.previous_pes_packet_crc ++ ext) At-copy

  At-ext : At opt ext_cursor ext
  At-ext = At-append opt crc_cursor (previous_crc_bytes s.previous_pes_packet_crc) ext At-crc

  pub parse_optional_header_At :
      (flags : ℕ) (payload : List ℕ)
      → IsTyped s
      → IsHeader s
      → flags < 4
      → parse_timestamps opt flags ≡ ok (s.pts_90k, s.dts_90k, start)
      → encode_pes_extension s.pes_extension ≡ ok ext
      → parse_optional_header s.stream_id (flags1_byte s) (flags2_byte s flags) opt payload
        ≡ ok (decoded s payload)
  unfolding parse_optional_header
  parse_optional_header_At flags payload typed fits small times e =
      let bits1 = flags1_bits s fits.scrambling_fits in
      let bits2 = flags2_bits s flags small in
      rw (
        bits1.0,
        bits1.1,
        bits1.2,
        bits1.3,
        bits1.4,
        bits2.0,
        bits2.1,
        bits2.2,
        bits2.3,
        bits2.4,
        bits2.5,
        bits2.6,
        times,
        parse_escr_field-At opt start (from_rate s ++ ext) s.escr_27mhz fits.escr_fits At-escr,
        parse_es_rate-At opt rate_cursor (from_trick s ++ ext) s.es_rate_50bps fits.rate_fits
            At-rate,
        parse_trick_mode_byte-At opt trick_cursor (from_copy s ++ ext) s.trick_mode At-trick,
        parse_copy_info-At opt copy_cursor (previous_crc_bytes s.previous_pes_packet_crc ++ ext)
            s.additional_copy_info fits.copy_info_fits At-copy,
        parse_previous_crc-At opt crc_cursor ext s.previous_pes_packet_crc typed.crc_fits At-crc,
        parse_extension_part-At opt ext_cursor s.pes_extension ext typed.private_fits e At-ext,
      )
