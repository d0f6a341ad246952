-- ===== src/Packet/Encode/RoundTrip.antt =====
-- The adaptation field that `encode` writes, `parse_adaptation_field` reads back whole.
use oxideav_mpegts.Base.{
  ℕ, ◌+◌, ◌^◌, ◌≤◌, ◌<◌, ◌≡◌, refl, Bool, List, ◌∷◌, ◌++◌, arith, ◌==◌, is_some, length, flag,
  bit_of, index, ok,
}
use oxideav_mpegts.Base.Int.{IsI8}
use oxideav_mpegts.Base.View.{At, At-append}
use oxideav_mpegts.Packet.Field.{AdaptationField, parse_fields, parse_adaptation_field}
use oxideav_mpegts.Packet.Encode.{
  AdaptationFieldSpec, clock_bytes, countdown_bytes, private_bytes, extension_bytes, flags_byte,
  content,
}
use oxideav_mpegts.Packet.Encode.Fields.{
  IsReference, OptionAll, first_of?, second_of?, parse_clock_field-At, parse_splice_countdown-At,
  parse_private_data-At,
}
use oxideav_mpegts.Packet.Encode.SubFields.{
  IsExtension, decoded_extension?, parse_extension_field-At, bit_of-lt, bit_of-eq_one, At-assoc,
}

-- What the wire format can carry: widths, no OPCR without a PCR, no seamless splice without a
-- countdown, and an `i8` countdown.
pub record IsSpec (s : AdaptationFieldSpec) : Type 0 where
  pub pcr_fits : OptionAll IsReference s.pcr
  pub opcr_fits : OptionAll IsReference s.opcr
  pub countdown_fits : OptionAll IsI8 s.splice_countdown
  pub private_fits : OptionAll (λ bytes. length bytes ≤ 255) s.transport_private_data
  pub extension_fits : OptionAll IsExtension s.extension

-- The reader's value for a spec, a length byte and the bytes read.
abbrev pub decoded : AdaptationFieldSpec → ℕ → List ℕ → AdaptationField
decoded s len raw = record {
  af_length = len;
  discontinuity_indicator = s.discontinuity_indicator;
  random_access_indicator = s.random_access_indicator;
  elementary_stream_priority_indicator = s.elementary_stream_priority_indicator;
  pcr_flag = is_some s.pcr;
  opcr_flag = is_some s.opcr;
  splicing_point_flag = is_some s.splice_countdown;
  transport_private_data_flag = is_some s.transport_private_data;
  adaptation_field_extension_flag = is_some s.extension;
  pcr_base = first_of? s.pcr;
  pcr_extension = second_of? s.pcr;
  opcr_base = first_of? s.opcr;
  opcr_extension = second_of? s.opcr;
  splice_countdown = s.splice_countdown;
  transport_private_data = s.transport_private_data;
  adaptation_field_extension = decoded_extension? s.extension;
  raw = raw;
}

-- A binary digit that is a Boolean's is read as that Boolean.
bit : {n : ℕ} (b : Bool) → n ≡ bit_of b → (n == 1) ≡ b
bit b h = rw h (bit_of-eq_one b)

-- Each bit of the flags byte is its field's.
flags_byte_bits :
    (s : AdaptationFieldSpec)
    → (flag (flags_byte s) 7 ≡ s.discontinuity_indicator)
      × (flag (flags_byte s) 6 ≡ s.random_access_indicator)
      × (flag (flags_byte s) 5 ≡ s.elementary_stream_priority_indicator)
      × (flag (flags_byte s) 4 ≡ is_some s.pcr)
      × (flag (flags_byte s) 3 ≡ is_some s.opcr)
      × (flag (flags_byte s) 2 ≡ is_some s.splice_countdown)
      × (flag (flags_byte s) 1 ≡ is_some s.transport_private_data)
      × (flag (flags_byte s) 0 ≡ is_some s.extension)
unfolding flags_byte
flags_byte_bits s = (
  bit s.discontinuity_indicator (omega (arith, bit_of-lt)),
  bit s.random_access_indicator (omega (arith, bit_of-lt)),
  bit s.elementary_stream_priority_indicator (omega (arith, bit_of-lt)),
  bit (is_some s.pcr) (omega (arith, bit_of-lt)),
  bit (is_some s.opcr) (omega (arith, bit_of-lt)),
  bit (is_some s.splice_countdown) (omega (arith, bit_of-lt)),
  bit (is_some s.transport_private_data) (omega (arith, bit_of-lt)),
  bit (is_some s.extension) (omega (arith, bit_of-lt)),
)

-- What stands behind each field.
module _ (s : AdaptationFieldSpec) where
  abbrev after_countdown : List ℕ
  after_countdown = private_bytes s.transport_private_data ++ extension_bytes s.extension

  abbrev after_opcr : List ℕ
  after_opcr = countdown_bytes s.splice_countdown ++ after_countdown

  abbrev after_pcr : List ℕ
  after_pcr = clock_bytes s.opcr ++ after_opcr

  abbrev after_flags : List ℕ
  after_flags = clock_bytes s.pcr ++ after_pcr

module _ (raw : List ℕ) (s : AdaptationFieldSpec) (post : List ℕ)
    (v : At raw 2 (after_flags s ++ post)) where
  abbrev opcr_cursor : ℕ
  opcr_cursor = 2 + length (clock_bytes s.pcr)

  abbrev countdown_cursor : ℕ
  countdown_cursor = opcr_cursor + length (clock_bytes s.opcr)

  abbrev private_cursor : ℕ
  private_cursor = countdown_cursor + length (countdown_bytes s.splice_countdown)

  abbrev extension_cursor : ℕ
  extension_cursor = private_cursor + length (private_bytes s.transport_private_data)

  At-pcr : At raw 2 (clock_bytes s.pcr ++ (after_pcr s ++ post))
  At-pcr = At-assoc raw 2 (clock_bytes s.pcr) (after_pcr s) post v

  At-opcr : At raw opcr_cursor (clock_bytes s.opcr ++ (after_opcr s ++ post))
  At-opcr =
      At-assoc raw opcr_cursor (clock_bytes s.opcr) (after_opcr s) post
        (At-append raw 2 (clock_bytes s.pcr) (after_pcr s ++ post) At-pcr)

  At-countdown :
      At raw countdown_cursor (countdown_bytes s.splice_countdown ++ (after_countdown s ++ post))
  At-countdown =
      At-assoc raw countdown_cursor (countdown_bytes s.splice_countdown) (after_countdown s) post
        (At-append raw opcr_cursor (clock_bytes s.opcr) (after_opcr s ++ post) At-opcr)

  At-private :
      At raw private_cursor
        (private_bytes s.transport_private_data ++ (extension_bytes s.extension ++ post))
  At-private =
      At-assoc raw private_cursor (private_bytes s.transport_private_data)
        (extension_bytes s.extension) post
        (At-append raw countdown_cursor (countdown_bytes s.splice_countdown)
          (after_countdown s ++ post) At-countdown)

  At-extension : At raw extension_cursor (extension_bytes s.extension ++ post)
  At-extension =
      At-append raw private_cursor (private_bytes s.transport_private_data)
        (extension_bytes s.extension ++ post) At-private

  parse_fields_At :
      (len : ℕ)
      → IsSpec s
      → length raw < 2 ^ 32
      → parse_fields raw len (flags_byte s) ≡ ok (decoded s len raw)
  unfolding parse_fields
  parse_fields_At len fits small =
      let bits = flags_byte_bits s in
      rw (
        bits.0,
        bits.1,
        bits.2,
        bits.3,
        bits.4,
        bits.5,
        bits.6,
        bits.7,
        parse_clock_field-At raw 2 (after_pcr s ++ post) s.pcr "TS adaptation_field PCR"
            fits.pcr_fits At-pcr,
        parse_clock_field-At raw opcr_cursor (after_opcr s ++ post) s.opcr
            "TS adaptation_field OPCR" fits.opcr_fits At-opcr,
        parse_splice_countdown-At raw countdown_cursor (after_countdown s ++ post)
            s.splice_countdown fits.countdown_fits At-countdown,
        parse_private_data-At raw private_cursor (extension_bytes s.extension ++ post)
            s.transport_private_data fits.private_fits small At-private,
        parse_extension_field-At raw s.extension extension_cursor post fits.extension_fits small
            At-extension,
      )

-- The 184 bytes of content at most, with the stuffing, behind a length byte.
pub parse_adaptation_field-content :
    (s : AdaptationFieldSpec) (post : List ℕ) (len : ℕ)
    → IsSpec s
    → len ≡ length (content s ++ post)
    → len < 256
    → parse_adaptation_field (len ∷ (content s ++ post))
      ≡ ok (decoded s len (len ∷ (content s ++ post)))
unfolding parse_adaptation_field content index
parse_adaptation_field-content s post len fits e small = ground (
  arith,
  parse_fields_At (len ∷ flags_byte s ∷ (after_flags s ++ post)) s post
      (record { rest_eq = refl; inside = omega arith }) len fits (omega arith),
)
