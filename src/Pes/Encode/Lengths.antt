-- ===== src/Pes/Encode/Lengths.antt =====
-- The lengths of what `encode` writes, from what is given.
use oxideav_mpegts.Base.{
  ℕ, ◌+◌, ◌≡◌, refl, Option, none, some, List, [], ◌++◌, arith, length, length-append, ok,
}
use oxideav_mpegts.Pes.Timestamp.{encode_ts33, encode_escr}
use oxideav_mpegts.Pes.TrickMode.{DsmTrickMode}
use oxideav_mpegts.Pes.Extension.{PesExtension, ProgramPacketSequenceCounter, PStdBuffer}
use oxideav_mpegts.Pes.Encode.{
  PesHeaderSpec, escr_bytes, es_rate_bytes, trick_mode_bytes, copy_info_bytes, previous_crc_bytes,
  pes_private_bytes, pack_header_bytes, sequence_counter_bytes, p_std_buffer_bytes, field_2_bytes,
  pes_extension_content, encode_timestamps, middle_bytes,
}
use oxideav_mpegts.Pes.Encode.Accepts.{IsPair}

abbrev pub given {ℓ} : {A : Type ℓ} → Option A → ℕ → ℕ
given none n = 0
given (some a) n = n

abbrev counted : Option (List ℕ) → ℕ → ℕ
counted none n = 0
counted (some bytes) n = n + length bytes

abbrev pub extension_length : Option PesExtension → ℕ
extension_length none = 0
extension_length (some e) =
    1
    + (counted e.private_data 0
        + (counted e.pack_header 1
            + (given e.program_packet_sequence_counter 2
                + (given e.p_std_buffer 2 + counted e.extension_field_2 1))))

abbrev middle_length : PesHeaderSpec → ℕ
middle_length s =
    given s.escr_27mhz 6
    + (given s.es_rate_50bps 3
        + (given s.trick_mode 1
            + (given s.additional_copy_info 1 + given s.previous_pes_packet_crc 2)))

abbrev pub header_length : PesHeaderSpec → ℕ
header_length s =
    given s.pts_90k 5 + given s.dts_90k 5 + (middle_length s + extension_length s.pes_extension)

length-private : (o : Option (List ℕ)) → length (pes_private_bytes o) ≡ counted o 0
unfolding pes_private_bytes
length-private o = ground arith

length-pack : (o : Option (List ℕ)) → length (pack_header_bytes o) ≡ counted o 1
unfolding pack_header_bytes
length-pack o = ground arith

length-field_2 : (o : Option (List ℕ)) → length (field_2_bytes o) ≡ counted o 1
unfolding field_2_bytes
length-field_2 o = ground arith

length-counter :
    (o : Option ProgramPacketSequenceCounter) → length (sequence_counter_bytes o) ≡ given o 2
unfolding sequence_counter_bytes
length-counter none = refl
length-counter (some p) = refl

length-buffer : (o : Option PStdBuffer) → length (p_std_buffer_bytes o) ≡ given o 2
unfolding p_std_buffer_bytes
length-buffer none = refl
length-buffer (some p) = refl

pub length-content :
    (e : PesExtension) → length (pes_extension_content e) ≡ extension_length (some e)
unfolding pes_extension_content
length-content e =
    rw
      (
        length-append (pes_private_bytes e.private_data) _,
        length-append (pack_header_bytes e.pack_header) _,
        length-append (sequence_counter_bytes e.program_packet_sequence_counter) _,
        length-append (p_std_buffer_bytes e.p_std_buffer) _,
        length-private e.private_data,
        length-pack e.pack_header,
        length-counter e.program_packet_sequence_counter,
        length-buffer e.p_std_buffer,
        length-field_2 e.extension_field_2,
      )
      (omega arith)

length-escr : (o : Option ℕ) → length (escr_bytes o) ≡ given o 6
unfolding escr_bytes encode_escr
length-escr none = refl
length-escr (some n) = refl

length-rate : (o : Option ℕ) → length (es_rate_bytes o) ≡ given o 3
unfolding es_rate_bytes
length-rate none = refl
length-rate (some n) = refl

length-trick : (o : Option DsmTrickMode) → length (trick_mode_bytes o) ≡ given o 1
unfolding trick_mode_bytes
length-trick none = refl
length-trick (some n) = refl

length-copy : (o : Option ℕ) → length (copy_info_bytes o) ≡ given o 1
unfolding copy_info_bytes
length-copy none = refl
length-copy (some n) = refl

length-crc : (o : Option ℕ) → length (previous_crc_bytes o) ≡ given o 2
unfolding previous_crc_bytes
length-crc none = refl
length-crc (some n) = refl

pub length-middle_bytes : (s : PesHeaderSpec) → length (middle_bytes s) ≡ middle_length s
unfolding middle_bytes
length-middle_bytes s = rw (
  length-append (escr_bytes s.escr_27mhz) _,
  length-append (es_rate_bytes s.es_rate_50bps) _,
  length-append (trick_mode_bytes s.trick_mode) _,
  length-append (copy_info_bytes s.additional_copy_info) _,
  length-escr s.escr_27mhz,
  length-rate s.es_rate_50bps,
  length-trick s.trick_mode,
  length-copy s.additional_copy_info,
  length-crc s.previous_pes_packet_crc,
)

-- The timestamps that stand in a pair are written.
pub encode_timestamps-IsPair :
    (pts dts : Option ℕ)
    → IsPair pts dts
    → (flags : ℕ) × (times : List ℕ) × (encode_timestamps pts dts ≡ ok (flags, times))
unfolding encode_timestamps
encode_timestamps-IsPair none none h = (0, [], refl)
encode_timestamps-IsPair none (some d) h = absurd h
encode_timestamps-IsPair (some p) none h = (2, encode_ts33 2 p, refl)
encode_timestamps-IsPair (some p) (some d) h = (3, encode_ts33 3 p ++ encode_ts33 1 d, refl)

pub length-encode_timestamps :
    (pts dts : Option ℕ) (flags : ℕ) (times : List ℕ)
    → encode_timestamps pts dts ≡ ok (flags, times)
    → length times ≡ given pts 5 + given dts 5
unfolding encode_timestamps encode_ts33
length-encode_timestamps none none flags times h = ground arith
length-encode_timestamps none (some d) flags times h = cc
length-encode_timestamps (some p) none flags times h = ground arith
length-encode_timestamps (some p) (some d) flags times h = ground arith
