-- ===== src/Pes/Fields/Safety.antt =====
-- src/pes.rs: the fields of the optional header on hostile bytes.
use oxideav_mpegts.Base.{
  ℕ, ◌+◌, ◌-◌, ◌*◌, ◌^◌, ◌≤◌, ◌<◌, ◌≡◌, Bool, ◌&&◌, Option, List, arith, is_some, length, take,
  drop, All-take, All-drop, IsByte, IsBytes, Within, byte_at-IsByte, Outcome, slice, Ensures,
  index-ok, slice-ok, ok,
}
use oxideav_mpegts.Pes.Timestamp.{decode_timestamp, decode_escr}
use oxideav_mpegts.Pes.Fields.{
  parse_timestamps, parse_escr_field, parse_es_rate, parse_trick_mode_byte, parse_copy_info,
  parse_previous_crc, need_bytes,
}

-- Without a panic: a value within its width, and a cursor within the optional header.
abbrev pub FieldEnsures : List ℕ → ℕ → Outcome (Option ℕ × ℕ) → Type 0
FieldEnsures opt bound r = Ensures (λ (t : Option ℕ × ℕ). Within bound t.0 × (t.1 ≤ length opt)) r

decode_timestamp-Ensures :
    (b : List ℕ) → IsBytes b → Ensures (λ ts. ts < 2 ^ 33) (decode_timestamp b)
unfolding decode_timestamp
decode_timestamp-Ensures b bytes = ground (
  arith,
  index-ok b 0,
  index-ok b 1,
  index-ok b 2,
  index-ok b 3,
  index-ok b 4,
  byte_at-IsByte b 0,
  byte_at-IsByte b 1,
  byte_at-IsByte b 2,
  byte_at-IsByte b 3,
  byte_at-IsByte b 4,
)

-- Its base fits 33 bits and its extension 9.
decode_escr-Ensures :
    (b : List ℕ) → IsBytes b → Ensures (λ escr. escr < 2 ^ 33 * 300 + 212) (decode_escr b)
unfolding decode_escr
decode_escr-Ensures b bytes = ground (
  arith,
  index-ok b 0,
  index-ok b 1,
  index-ok b 2,
  index-ok b 3,
  index-ok b 4,
  index-ok b 5,
  byte_at-IsByte b 0,
  byte_at-IsByte b 1,
  byte_at-IsByte b 2,
  byte_at-IsByte b 3,
  byte_at-IsByte b 4,
  byte_at-IsByte b 5,
)

module _ (opt : List ℕ) (bytes : IsBytes opt) where
  pub parse_es_rate-Ensures :
      (cursor : ℕ) (present : Bool)
      → cursor ≤ length opt
      → FieldEnsures opt (2 ^ 22) (parse_es_rate opt cursor present)
  unfolding parse_es_rate need_bytes
  parse_es_rate-Ensures cursor present h = ground (
    arith,
    index-ok opt cursor,
    index-ok opt (cursor + 1),
    index-ok opt (cursor + 2),
    byte_at-IsByte opt cursor,
    byte_at-IsByte opt (cursor + 1),
    byte_at-IsByte opt (cursor + 2),
  )

  pub parse_trick_mode_byte-Ensures :
      (cursor : ℕ) (present : Bool)
      → cursor ≤ length opt
      → FieldEnsures opt 256 (parse_trick_mode_byte opt cursor present)
  unfolding parse_trick_mode_byte need_bytes
  parse_trick_mode_byte-Ensures cursor present h =
      ground (arith, index-ok opt cursor, byte_at-IsByte opt cursor)

  pub parse_copy_info-Ensures :
      (cursor : ℕ) (present : Bool)
      → cursor ≤ length opt
      → FieldEnsures opt 128 (parse_copy_info opt cursor present)
  unfolding parse_copy_info need_bytes
  parse_copy_info-Ensures cursor present h =
      ground (arith, index-ok opt cursor, byte_at-IsByte opt cursor)

  pub parse_previous_crc-Ensures :
      (cursor : ℕ) (present : Bool)
      → cursor ≤ length opt
      → FieldEnsures opt (2 ^ 16) (parse_previous_crc opt cursor present)
  unfolding parse_previous_crc need_bytes
  parse_previous_crc-Ensures cursor present h = ground (
    arith,
    index-ok opt cursor,
    index-ok opt (cursor + 1),
    byte_at-IsByte opt cursor,
    byte_at-IsByte opt (cursor + 1),
  )

  -- A slice within the header is bytes of the length asked for.
  pub slice-IsBytes :
      (from to : ℕ)
      → from ≤ to
      → to ≤ length opt
      → (slice opt from to ≡ ok (take (to - from) (drop from opt)))
        × IsBytes (take (to - from) (drop from opt))
  slice-IsBytes from to h k = (
    slice-ok opt from to h k,
    All-take IsByte (to - from) (drop from opt) (All-drop IsByte from opt bytes),
  )

  pub parse_escr_field-Ensures :
      (cursor : ℕ) (present : Bool)
      → cursor ≤ length opt
      → FieldEnsures opt (2 ^ 33 * 300 + 212) (parse_escr_field opt cursor present)
  unfolding parse_escr_field need_bytes
  parse_escr_field-Ensures cursor present h = ground (
    arith,
    slice-IsBytes cursor (cursor + 6),
    decode_escr-Ensures (take (cursor + 6 - cursor) (drop cursor opt)),
  )

  pub parse_timestamps-Ensures :
      (flags : ℕ)
      → Ensures
          (λ (t : Option ℕ × Option ℕ × ℕ).
            Within (2 ^ 33) t.0
            × Within (2 ^ 33) t.1
            × (is_some t.1 ≡ is_some t.1 && is_some t.0)
            × (t.2 ≤ length opt))
          (parse_timestamps opt flags)
  unfolding parse_timestamps need_bytes
  parse_timestamps-Ensures flags = ground (
    arith,
    slice-IsBytes 0 5,
    slice-IsBytes 5 10,
    decode_timestamp-Ensures (take (5 - 0) (drop 0 opt)),
    decode_timestamp-Ensures (take (10 - 5) (drop 5 opt)),
  )
