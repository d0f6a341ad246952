-- ===== src/Pes/Extension/Safety.antt =====
-- src/pes.rs: `PesExtension::parse` on hostile bytes.
use oxideav_mpegts.Base.{
  ℕ, ◌+◌, ◌-◌, ◌^◌, ◌≤◌, ◌<◌, ◌≡◌, Bool, Option, none, some, List, arith, length, take, drop,
  length-take, length-drop, IsBytes, low_bits, byte_at-IsByte, Outcome, slice, Ensures,
  Ensures-bind, byte_at, index-ok, slice-ok, ok,
}
use oxideav_mpegts.Pes.Fields.{need_bytes}
use oxideav_mpegts.Pes.Extension.{
  PesExtension, ProgramPacketSequenceCounter, PStdBuffer, parse_pes_private_data, parse_pack_header,
  parse_sequence_counter, parse_p_std_buffer, parse_field_2, parse_extension_fields,
  parse_pes_extension,
}

-- What the reader leaves in an extension: values within their widths, and only as many bytes of each
-- array as the wire can announce.
abbrev CounterFits : Option ProgramPacketSequenceCounter → Type 0
CounterFits none = Unit {0}
CounterFits (some p) = (p.counter < 2 ^ 7) × (p.original_stuff_length < 2 ^ 6)

abbrev BufferFits : Option PStdBuffer → Type 0
BufferFits none = Unit {0}
BufferFits (some p) = p.size < 2 ^ 13

abbrev LengthWithin : ℕ → Option (List ℕ) → Type 0
LengthWithin limit none = Unit {0}
LengthWithin limit (some xs) = length xs ≤ limit

pub record ExtensionFits (ext : PesExtension) : Type 0 where
  pub private_fits : LengthWithin 16 ext.private_data
  pub pack_fits : LengthWithin 255 ext.pack_header
  pub counter_fits : CounterFits ext.program_packet_sequence_counter
  pub buffer_fits : BufferFits ext.p_std_buffer
  pub field_2_fits : LengthWithin 127 ext.extension_field_2

module _ (b : List ℕ) (bytes : IsBytes b) where
  abbrev Counted : ℕ → Outcome (Option (List ℕ) × ℕ) → Type 0
  Counted limit r =
      Ensures (λ (t : Option (List ℕ) × ℕ). LengthWithin limit t.0 × (t.1 ≤ length b)) r

  length-slice :
      (from n : ℕ)
      → from + n ≤ length b
      → (slice b from (from + n) ≡ ok (take (from + n - from) (drop from b)))
        × (length (take (from + n - from) (drop from b)) ≡ n)
  length-slice from n h = (
    slice-ok b from (from + n) (omega arith) h,
    omega (arith, length-take (from + n - from) (drop from b), length-drop from b),
  )

  parse_pes_private_data-Ensures :
      (cursor : ℕ) (present : Bool)
      → cursor ≤ length b
      → Counted 16 (parse_pes_private_data b cursor present)
  unfolding parse_pes_private_data need_bytes
  parse_pes_private_data-Ensures cursor present h = ground (arith, length-slice cursor 16)

  parse_pack_header-Ensures :
      (cursor : ℕ) (present : Bool)
      → cursor ≤ length b
      → Counted 255 (parse_pack_header b cursor present)
  unfolding parse_pack_header need_bytes
  parse_pack_header-Ensures cursor present h = ground (
    arith,
    index-ok b cursor,
    byte_at-IsByte b cursor,
    length-slice (cursor + 1) (byte_at b cursor),
  )

  parse_field_2-Ensures :
      (cursor : ℕ) (present : Bool)
      → cursor ≤ length b
      → Counted 127 (parse_field_2 b cursor present)
  unfolding parse_field_2 need_bytes
  parse_field_2-Ensures cursor present h =
      ground (arith, index-ok b cursor, length-slice (cursor + 1) (low_bits (byte_at b cursor) 7))

  parse_sequence_counter-Ensures :
      (cursor : ℕ) (present : Bool)
      → cursor ≤ length b
      → Ensures
          (λ (t : Option ProgramPacketSequenceCounter × ℕ). CounterFits t.0 × (t.1 ≤ length b))
          (parse_sequence_counter b cursor present)
  unfolding parse_sequence_counter need_bytes
  parse_sequence_counter-Ensures cursor present h =
      ground (arith, index-ok b cursor, index-ok b (cursor + 1))

  parse_p_std_buffer-Ensures :
      (cursor : ℕ) (present : Bool)
      → cursor ≤ length b
      → Ensures
          (λ (t : Option PStdBuffer × ℕ). BufferFits t.0 × (t.1 ≤ length b))
          (parse_p_std_buffer b cursor present)
  unfolding parse_p_std_buffer need_bytes
  parse_p_std_buffer-Ensures cursor present h = ground (
    arith,
    index-ok b cursor,
    index-ok b (cursor + 1),
    byte_at-IsByte b cursor,
    byte_at-IsByte b (cursor + 1),
  )

  parse_extension_fields-Ensures :
      (flags : ℕ)
      → 1 ≤ length b
      → Ensures
          (λ (t : PesExtension × ℕ). ExtensionFits t.0 × (t.1 ≤ length b))
          (parse_extension_fields b flags)
  unfolding parse_extension_fields
  parse_extension_fields-Ensures flags h =
      Ensures-bind _ _ (parse_pes_private_data b 1 _) _ (parse_pes_private_data-Ensures 1 _ h)
        λ (private, c1) (hp, h1).
          Ensures-bind _ _ (parse_pack_header b c1 _) _ (parse_pack_header-Ensures c1 _ h1)
            λ (pack, c2) (hk, h2).
              Ensures-bind _ _ (parse_sequence_counter b c2 _) _
                (parse_sequence_counter-Ensures c2 _ h2)
                λ (ppsc, c3) (hs, h3).
                  Ensures-bind _ _ (parse_p_std_buffer b c3 _) _
                    (parse_p_std_buffer-Ensures c3 _ h3)
                    λ (p_std, c4) (hb, h4).
                      Ensures-bind _ _ (parse_field_2 b c4 _) _ (parse_field_2-Ensures c4 _ h4)
                        λ (field_2, c5) (hf, h5). (
                          record {
                            private_fits = hp;
                            pack_fits = hk;
                            counter_fits = hs;
                            buffer_fits = hb;
                            field_2_fits = hf;
                          },
                          h5,
                        )

  pub parse_pes_extension-Ensures :
      Ensures
        (λ (t : PesExtension × ℕ). ExtensionFits t.0 × (t.1 ≤ length b))
        (parse_pes_extension b)
  unfolding parse_pes_extension
  parse_pes_extension-Ensures =
      ground (arith, index-ok b 0, parse_extension_fields-Ensures (byte_at b 0))
