-- ===== src/Pes/Encode/Extension.antt =====
-- The PES extension: what `encode_pes_extension` writes, `PesExtension::parse` reads back.
use oxideav_mpegts.Base.{
  ℕ, ◌+◌, ◌≤◌, ◌≡◌, refl, Option, none, some, List, ◌∷◌, ◌++◌, arith, is_some, length,
  length-append, low_bits, flag, index, ok,
}
use oxideav_mpegts.Base.View.{At, At-length, index-At, index-At_zero, At-append, At-cons, slice-At}
use oxideav_mpegts.Packet.Encode.Fields.{OptionAll}
use oxideav_mpegts.Packet.Encode.SubFields.{At-assoc}
use oxideav_mpegts.Pes.Fields.{need_bytes}
use oxideav_mpegts.Pes.Extension.{
  PesExtension, ProgramPacketSequenceCounter, PStdBuffer, parse_pes_private_data, parse_pack_header,
  parse_sequence_counter, parse_p_std_buffer, parse_field_2, parse_extension_fields,
  parse_pes_extension,
}
use oxideav_mpegts.Pes.Encode.{
  pes_private_bytes, pack_header_bytes, sequence_counter_bytes, p_std_buffer_bytes, field_2_bytes,
  pes_extension_flags, pes_extension_content,
}
use oxideav_mpegts.Pes.Encode.Accepts.{IsExtension}

module _ (raw : List ℕ) (cursor : ℕ) (post : List ℕ) where
  parse_pes_private_data-At :
      (d : Option (List ℕ))
      → OptionAll (λ bytes. length bytes ≡ 16) d
      → At raw cursor (pes_private_bytes d ++ post)
      → parse_pes_private_data raw cursor (is_some d)
        ≡ ok (d, cursor + length (pes_private_bytes d))
  unfolding parse_pes_private_data pes_private_bytes need_bytes
  parse_pes_private_data-At none h v = ground arith
  parse_pes_private_data-At (some bytes) h v = ground (
    arith,
    At-length raw cursor (bytes ++ post) v,
    length-append bytes post,
    slice-At raw cursor bytes post v,
  )

  parse_pack_header-At :
      (d : Option (List ℕ))
      → OptionAll (λ bytes. length bytes ≤ 255) d
      → At raw cursor (pack_header_bytes d ++ post)
      → parse_pack_header raw cursor (is_some d) ≡ ok (d, cursor + length (pack_header_bytes d))
  unfolding parse_pack_header pack_header_bytes need_bytes index
  parse_pack_header-At none h v = ground arith
  parse_pack_header-At (some bytes) h v = ground (
    arith,
    At-length raw cursor (low_bits (length bytes) 8 ∷ (bytes ++ post)) v,
    length-append bytes post,
    index-At_zero raw cursor (low_bits (length bytes) 8 ∷ (bytes ++ post)) v,
    slice-At raw (cursor + 1) bytes post
        (At-cons raw cursor (low_bits (length bytes) 8) (bytes ++ post) v),
  )

  parse_field_2-At :
      (d : Option (List ℕ))
      → OptionAll (λ bytes. length bytes ≤ 0x7F) d
      → At raw cursor (field_2_bytes d ++ post)
      → parse_field_2 raw cursor (is_some d) ≡ ok (d, cursor + length (field_2_bytes d))
  unfolding parse_field_2 field_2_bytes need_bytes index
  parse_field_2-At none h v = ground arith
  parse_field_2-At (some bytes) h v = ground (
    arith,
    At-length raw cursor ((128 + low_bits (length bytes) 7) ∷ (bytes ++ post)) v,
    length-append bytes post,
    index-At_zero raw cursor ((128 + low_bits (length bytes) 7) ∷ (bytes ++ post)) v,
    slice-At raw (cursor + 1) bytes post
        (At-cons raw cursor (128 + low_bits (length bytes) 7) (bytes ++ post) v),
  )

  parse_sequence_counter-At :
      (c : Option ProgramPacketSequenceCounter)
      → OptionAll
          (λ (p : ProgramPacketSequenceCounter).
            (p.counter ≤ 0x7F) × (p.original_stuff_length ≤ 0x3F))
          c
      → At raw cursor (sequence_counter_bytes c ++ post)
      → parse_sequence_counter raw cursor (is_some c)
        ≡ ok (c, cursor + length (sequence_counter_bytes c))
  unfolding parse_sequence_counter sequence_counter_bytes need_bytes index
  parse_sequence_counter-At none h v = ground arith
  parse_sequence_counter-At (some c) h v = ground (
    arith,
    At-length raw cursor (sequence_counter_bytes (some c) ++ post) v,
    index-At_zero raw cursor (sequence_counter_bytes (some c) ++ post) v,
    index-At raw cursor 1 (sequence_counter_bytes (some c) ++ post) v,
  )

  parse_p_std_buffer-At :
      (c : Option PStdBuffer)
      → OptionAll (λ (p : PStdBuffer). p.size ≤ 0x1FFF) c
      → At raw cursor (p_std_buffer_bytes c ++ post)
      → parse_p_std_buffer raw cursor (is_some c) ≡ ok (c, cursor + length (p_std_buffer_bytes c))
  unfolding parse_p_std_buffer p_std_buffer_bytes need_bytes index
  parse_p_std_buffer-At none h v = ground arith
  parse_p_std_buffer-At (some c) h v = ground (
    arith,
    At-length raw cursor (p_std_buffer_bytes (some c) ++ post) v,
    index-At_zero raw cursor (p_std_buffer_bytes (some c) ++ post) v,
    index-At raw cursor 1 (p_std_buffer_bytes (some c) ++ post) v,
  )

pes_extension_flags_bits :
    (e : PesExtension)
    → (flag (pes_extension_flags e) 7 ≡ is_some e.private_data)
      × (flag (pes_extension_flags e) 6 ≡ is_some e.pack_header)
      × (flag (pes_extension_flags e) 5 ≡ is_some e.program_packet_sequence_counter)
      × (flag (pes_extension_flags e) 4 ≡ is_some e.p_std_buffer)
      × (flag (pes_extension_flags e) 0 ≡ is_some e.extension_field_2)
unfolding pes_extension_flags
pes_extension_flags_bits e = ground arith

-- The bytes behind the flags, from each field on.
module _ (e : PesExtension) where
  abbrev from_buffer : List ℕ
  from_buffer = p_std_buffer_bytes e.p_std_buffer ++ field_2_bytes e.extension_field_2

  abbrev from_counter : List ℕ
  from_counter = sequence_counter_bytes e.program_packet_sequence_counter ++ from_buffer

  abbrev from_pack : List ℕ
  from_pack = pack_header_bytes e.pack_header ++ from_counter

  abbrev from_private : List ℕ
  from_private = pes_private_bytes e.private_data ++ from_pack

module _ (raw : List ℕ) (e : PesExtension) (post : List ℕ)
    (v : At raw 1 (from_private e ++ post)) where
  abbrev pack_cursor : ℕ
  pack_cursor = 1 + length (pes_private_bytes e.private_data)

  abbrev counter_cursor : ℕ
  counter_cursor = pack_cursor + length (pack_header_bytes e.pack_header)

  abbrev buffer_cursor : ℕ
  buffer_cursor = counter_cursor + length (sequence_counter_bytes e.program_packet_sequence_counter)

  abbrev field_2_cursor : ℕ
  field_2_cursor = buffer_cursor + length (p_std_buffer_bytes e.p_std_buffer)

  At-private : At raw 1 (pes_private_bytes e.private_data ++ (from_pack e ++ post))
  At-private = At-assoc raw 1 (pes_private_bytes e.private_data) (from_pack e) post v

  At-pack : At raw pack_cursor (pack_header_bytes e.pack_header ++ (from_counter e ++ post))
  At-pack =
      At-assoc raw pack_cursor (pack_header_bytes e.pack_header) (from_counter e) post
        (At-append raw 1 (pes_private_bytes e.private_data) (from_pack e ++ post) At-private)

  At-counter :
      At raw counter_cursor
        (sequence_counter_bytes e.program_packet_sequence_counter ++ (from_buffer e ++ post))
  At-counter =
      At-assoc raw counter_cursor (sequence_counter_bytes e.program_packet_sequence_counter)
        (from_buffer e) post
        (At-append raw pack_cursor (pack_header_bytes e.pack_header) (from_counter e ++ post)
          At-pack)

  At-buffer :
      At raw buffer_cursor
        (p_std_buffer_bytes e.p_std_buffer ++ (field_2_bytes e.extension_field_2 ++ post))
  At-buffer =
      At-assoc raw buffer_cursor (p_std_buffer_bytes e.p_std_buffer)
        (field_2_bytes e.extension_field_2) post
        (At-append raw counter_cursor (sequence_counter_bytes e.program_packet_sequence_counter)
          (from_buffer e ++ post) At-counter)

  At-field_2 : At raw field_2_cursor (field_2_bytes e.extension_field_2 ++ post)
  At-field_2 =
      At-append raw buffer_cursor (p_std_buffer_bytes e.p_std_buffer)
        (field_2_bytes e.extension_field_2 ++ post) At-buffer

  parse_extension_fields_At :
      IsExtension e
      → OptionAll (λ bytes. length bytes ≡ 16) e.private_data
      → (used : ℕ) × (parse_extension_fields raw (pes_extension_flags e) ≡ ok (e, used))
  unfolding parse_extension_fields
  parse_extension_fields_At fits private = (
    field_2_cursor + length (field_2_bytes e.extension_field_2),
    let bits = pes_extension_flags_bits e in
        rw (
          bits.0,
          bits.1,
          bits.2,
          bits.3,
          bits.4,
          parse_pes_private_data-At raw 1 (from_pack e ++ post) e.private_data private At-private,
          parse_pack_header-At raw pack_cursor (from_counter e ++ post) e.pack_header fits.pack_fits
              At-pack,
          parse_sequence_counter-At raw counter_cursor (from_buffer e ++ post)
              e.program_packet_sequence_counter fits.counter_fits At-counter,
          parse_p_std_buffer-At raw buffer_cursor (field_2_bytes e.extension_field_2 ++ post)
              e.p_std_buffer fits.buffer_fits At-buffer,
          parse_field_2-At raw field_2_cursor post e.extension_field_2 fits.field_2_fits At-field_2,
        ),
  )

-- Whatever stands behind it, an extension that fits is read back whole.
pub parse_pes_extension-content :
    (e : PesExtension) (post : List ℕ)
    → IsExtension e
    → OptionAll (λ bytes. length bytes ≡ 16) e.private_data
    → (used : ℕ) × (parse_pes_extension (pes_extension_content e ++ post) ≡ ok (e, used))
unfolding parse_pes_extension pes_extension_content index
parse_pes_extension-content e post fits private =
    let (used, read) =
      parse_extension_fields_At (pes_extension_flags e ∷ (from_private e ++ post)) e post
        (record { rest_eq = refl; inside = omega arith }) fits private in
    (used, ground (arith, read))
