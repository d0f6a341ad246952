-- ===== src/Packet/Field/Safety.antt =====
-- The adaptation field parser on hostile bytes: it never panics, and every field that it returns
-- fits the width that the wire gives it.
use oxideav_mpegts.Base.{
  ℕ, ◌+◌, ◌-◌, ◌^◌, ◌≤◌, ◌<◌, String, ◌≡◌, refl, Bool, Option, none, some, List, arith, length,
  take, drop, All-take, All-drop, IsByte, length-take, length-drop, IsBytes, Within, byte_at-IsByte,
  Ensures, Ensures-bind, byte_at, index-ok, slice-ok, truncated_from-err, add_or_truncated-ok,
}
use oxideav_mpegts.Base.Int.{ℤ, IsI8}
use oxideav_mpegts.Packet.Extension.{
  AdaptationFieldExtension, ExtensionFits, parse_extension-Ensures,
}
use oxideav_mpegts.Packet.Field.{
  AdaptationField, parse_clock_reference, parse_clock_field, parse_splice_countdown,
  parse_private_data, parse_extension_field, parse_fields, parse_adaptation_field,
}

abbrev pub OptionalFits : Option AdaptationFieldExtension → Type 0
OptionalFits none = Unit {0}
OptionalFits (some e) = ExtensionFits e

abbrev pub ShortData : ℕ → Option (List ℕ) → Type 0
ShortData n none = Unit {0}
ShortData n (some xs) = (length xs ≤ n) × (length xs < 256) × IsBytes xs

abbrev pub CountdownFits : Option ℤ → Type 0
CountdownFits none = Unit {0}
CountdownFits (some n) = IsI8 n

-- Widths of Table 2-6, and the bytes that were read.
pub record FieldFits (source : List ℕ) (af : AdaptationField) : Type 0 where
  pub length_fits : af.af_length < 256
  pub pcr_base_fits : Within (2 ^ 33) af.pcr_base
  pub pcr_extension_fits : Within (2 ^ 9) af.pcr_extension
  pub opcr_base_fits : Within (2 ^ 33) af.opcr_base
  pub opcr_extension_fits : Within (2 ^ 9) af.opcr_extension
  pub splice_countdown_fits : CountdownFits af.splice_countdown
  pub private_data_fits : ShortData (length source) af.transport_private_data
  pub extension_fits : OptionalFits af.adaptation_field_extension
  pub raw_eq : af.raw ≡ source

pub parse_clock_reference-Ensures :
    (raw : List ℕ) (cursor : ℕ) (what : String)
    → IsBytes raw
    → cursor ≤ length raw
    → Ensures
        (λ (p : ℕ × ℕ). (p.0 < 2 ^ 33) × (p.1 < 2 ^ 9) × (cursor + 6 ≤ length raw))
        (parse_clock_reference raw cursor what)
unfolding parse_clock_reference
parse_clock_reference-Ensures raw cursor what bytes h = ground (
  arith,
  truncated_from-err {A = ℕ × ℕ} what (length raw) cursor 6,
  index-ok raw cursor,
  index-ok raw (cursor + 1),
  index-ok raw (cursor + 2),
  index-ok raw (cursor + 3),
  index-ok raw (cursor + 4),
  index-ok raw (cursor + 5),
  byte_at-IsByte raw cursor,
  byte_at-IsByte raw (cursor + 1),
  byte_at-IsByte raw (cursor + 2),
  byte_at-IsByte raw (cursor + 3),
  byte_at-IsByte raw (cursor + 4),
  byte_at-IsByte raw (cursor + 5),
)

module _ (raw : List ℕ) (bytes : IsBytes raw) (small : length raw < 2 ^ 32) where
  parse_clock_field-Ensures :
      (cursor : ℕ) (what : String) (present : Bool)
      → cursor ≤ length raw
      → Ensures
          (λ (t : Option ℕ × Option ℕ × ℕ).
            Within (2 ^ 33) t.0 × Within (2 ^ 9) t.1 × (t.2 ≤ length raw))
          (parse_clock_field raw cursor what present)
  unfolding parse_clock_field
  parse_clock_field-Ensures cursor what present h =
      ground (arith, parse_clock_reference-Ensures raw cursor what bytes h)

  parse_splice_countdown-Ensures :
      (cursor : ℕ) (present : Bool)
      → cursor ≤ length raw
      → Ensures
          (λ (t : Option ℤ × ℕ). CountdownFits t.0 × (t.1 ≤ length raw))
          (parse_splice_countdown raw cursor present)
  unfolding parse_splice_countdown
  parse_splice_countdown-Ensures cursor present h = ground (
    arith,
    truncated_from-err {A = Option ℤ × ℕ} "TS adaptation_field splice_countdown" (length raw) cursor
        1,
    index-ok raw cursor,
    byte_at-IsByte raw cursor,
  )

  taken-IsBytes : (cursor n : ℕ) → IsBytes (take n (drop cursor raw))
  taken-IsBytes cursor n = All-take IsByte n (drop cursor raw) (All-drop IsByte cursor raw bytes)

  parse_private_data-Ensures :
      (cursor : ℕ) (present : Bool)
      → cursor ≤ length raw
      → Ensures
          (λ (t : Option (List ℕ) × ℕ). ShortData (length raw) t.0 × (t.1 ≤ length raw))
          (parse_private_data raw cursor present)
  unfolding parse_private_data
  parse_private_data-Ensures cursor present h = ground (
    arith,
    truncated_from-err {A = Option (List ℕ) × ℕ} "TS adaptation_field transport_private_data_length"
        (length raw) cursor 1,
    truncated_from-err {A = Option (List ℕ) × ℕ} "TS adaptation_field private_data" (length raw)
        (cursor + 1) (byte_at raw cursor),
    index-ok raw cursor,
    byte_at-IsByte raw cursor,
    add_or_truncated-ok "TS adaptation_field private_data" (length raw) (cursor + 1)
        (byte_at raw cursor),
    slice-ok raw (cursor + 1) (cursor + 1 + byte_at raw cursor),
    length-take (cursor + 1 + byte_at raw cursor - (cursor + 1)) (drop (cursor + 1) raw),
    length-drop (cursor + 1) raw,
    taken-IsBytes (cursor + 1) (cursor + 1 + byte_at raw cursor - (cursor + 1)),
  )

  parse_extension_field-Ensures :
      (cursor : ℕ) (present : Bool)
      → cursor ≤ length raw
      → Ensures
          (λ (t : Option AdaptationFieldExtension × ℕ). OptionalFits t.0 × (t.1 ≤ length raw))
          (parse_extension_field raw cursor present)
  unfolding parse_extension_field
  parse_extension_field-Ensures cursor present h =
      ground (arith, parse_extension-Ensures raw cursor bytes small h)

  parse_fields-Ensures :
      (len flags : ℕ)
      → len < 256
      → 2 ≤ length raw
      → Ensures (FieldFits raw) (parse_fields raw len flags)
  unfolding parse_fields
  parse_fields-Ensures len flags fits h =
      Ensures-bind _ _ (parse_clock_field raw 2 _ _) _ (parse_clock_field-Ensures 2 _ _ h)
        λ (pb, pe, c1) (hb, he, h1).
          Ensures-bind _ _ (parse_clock_field raw c1 _ _) _ (parse_clock_field-Ensures c1 _ _ h1)
            λ (ob, oe, c2) (hob, hoe, h2).
              Ensures-bind _ _ (parse_splice_countdown raw c2 _) _
                (parse_splice_countdown-Ensures c2 _ h2)
                λ (splice, c3) (hc, h3).
                  Ensures-bind _ _ (parse_private_data raw c3 _) _
                    (parse_private_data-Ensures c3 _ h3)
                    λ (private, c4) (hp, h4).
                      Ensures-bind _ _ (parse_extension_field raw c4 _) _
                        (parse_extension_field-Ensures c4 _ h4)
                        λ (ext, c5) (hx, h5). record {
                          length_fits = fits;
                          pcr_base_fits = hb;
                          pcr_extension_fits = he;
                          opcr_base_fits = hob;
                          opcr_extension_fits = hoe;
                          splice_countdown_fits = hc;
                          private_data_fits = hp;
                          extension_fits = hx;
                          raw_eq = refl;
                        }

  -- On any non-empty bytes the parser returns a field that fits, or an error.
  pub parse_adaptation_field-FieldFits :
      0 < length raw → Ensures (FieldFits raw) (parse_adaptation_field raw)
  unfolding parse_adaptation_field
  parse_adaptation_field-FieldFits h = ground (
    arith,
    index-ok raw 0,
    index-ok raw 1,
    byte_at-IsByte raw 0 bytes,
    parse_fields-Ensures (byte_at raw 0) (byte_at raw 1),
  )
