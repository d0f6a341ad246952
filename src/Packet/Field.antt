-- ===== src/Packet/Field.antt =====
-- src/packet.rs: `AdaptationField`, `parse_adaptation_field` and `parse_clock_reference`. Each
-- optional field is a function of its own over the cursor, which it returns moved on.
pub mod Safety
use oxideav_mpegts.Base.{
  ℕ, zero, suc, ◌+◌, ◌-◌, ◌*◌, ◌/◌, ◌%◌, ◌^◌, ◌≤◌, ◌<◌, min, max, String, ◌≡◌, refl, sym, ap, ◌∙◌,
  ◌≢◌, ◌↔◌, ◌⊎◌, inl, inr, Bool, true, false, not, ◌&&◌, ◌||◌, Option, none, some, List, [], ◌∷◌,
  ◌++◌, map, append_assoc, append-nil, arith, ltb, leb, ◌==◌, if◌then◌else◌, ltb→lt, lt→ltb, leb→le,
  le→leb, lt→leb_false, le→ltb_false, ==_iff, Bool-cases, Option-cases, length, get_elem?, get_or,
  take, drop, replicate, All, length-append, length-take, length-drop, length-replicate,
  take-append-drop, take-append_length, drop-append_length, take_all, get_elem?-get_or, All-append,
  All-take, All-drop, All-get_or, All-replicate, IsByte, IsBytes, ◌>>>◌, ◌<<<◌, low_bits, flag,
  bit_of, be16, be32, Within, byte_at-IsByte, TsError, Outcome, ◌>>=◌, ◌>>◌, fail_if, index, slice,
  sub_usize, checked_add, Ensures, Ensures-bind, Ensures-weaken, Ensures-ok, Ensures-ne_panic,
  byte_at, index-ok, slice-ok, sub_usize-ok, truncated_from, truncated_from-err, add_or_truncated,
  add_or_truncated-ok, truncated, bad_sync_byte, section_length_overrun, psi_crc_mismatch,
  bad_pes_start_code, unsupported, invalid_field, ok, err, panic,
}
use oxideav_mpegts.Base.Int.{ℤ, as_i8}
use oxideav_mpegts.Packet.Extension.{
  AdaptationFieldExtension, parse_extension, ExtensionFits, parse_extension-Ensures,
}

pub record AdaptationField : Type 0 where
  pub af_length : ℕ
  pub discontinuity_indicator : Bool
  pub random_access_indicator : Bool
  pub elementary_stream_priority_indicator : Bool
  pub pcr_flag : Bool
  pub opcr_flag : Bool
  pub splicing_point_flag : Bool
  pub transport_private_data_flag : Bool
  pub adaptation_field_extension_flag : Bool
  pub pcr_base : Option ℕ
  pub pcr_extension : Option ℕ
  pub opcr_base : Option ℕ
  pub opcr_extension : Option ℕ
  pub splice_countdown : Option ℤ
  pub transport_private_data : Option (List ℕ)
  pub adaptation_field_extension : Option AdaptationFieldExtension
  pub raw : List ℕ

-- 33-bit base, six reserved bits, 9-bit extension.
unfoldable pub parse_clock_reference : List ℕ → ℕ → String → Outcome (ℕ × ℕ)
parse_clock_reference raw cursor what =
    if ltb (length raw) (cursor + 6) then truncated_from what (length raw) cursor 6 else do
      p0 ← index raw cursor
      p1 ← index raw (cursor + 1)
      p2 ← index raw (cursor + 2)
      p3 ← index raw (cursor + 3)
      p4 ← index raw (cursor + 4)
      p5 ← index raw (cursor + 5)
      ok (
        p0 <<< 25 + p1 <<< 17 + p2 <<< 9 + p3 <<< 1 + low_bits (p4 >>> 7) 1,
        low_bits p4 1 <<< 8 + p5,
      )

unfoldable pub parse_clock_field : List ℕ → ℕ → String → Bool → Outcome (Option ℕ × Option ℕ × ℕ)
parse_clock_field raw cursor what present =
    if present
    then (do (b, e) ← parse_clock_reference raw cursor what; ok (some b, some e, cursor + 6))
    else ok (none, none, cursor)

unfoldable pub parse_splice_countdown : List ℕ → ℕ → Bool → Outcome (Option ℤ × ℕ)
parse_splice_countdown raw cursor present =
    if present
    then (if ltb (length raw) (cursor + 1)
        then truncated_from "TS adaptation_field splice_countdown" (length raw) cursor 1
        else do v ← index raw cursor; ok (some (as_i8 v), cursor + 1))
    else ok (none, cursor)

unfoldable pub parse_private_data : List ℕ → ℕ → Bool → Outcome (Option (List ℕ) × ℕ)
parse_private_data raw cursor present =
    if present
    then (if ltb (length raw) (cursor + 1)
        then truncated_from "TS adaptation_field transport_private_data_length" (length raw) cursor
            1
        else (do
          n ← index raw cursor
          end ← add_or_truncated "TS adaptation_field private_data" (length raw) (cursor + 1) n
          if ltb (length raw) end
              then truncated_from "TS adaptation_field private_data" (length raw) (cursor + 1) n
              else (do part ← slice raw (cursor + 1) end; ok (some part, end))))
    else ok (none, cursor)

unfoldable pub parse_extension_field :
    List ℕ → ℕ → Bool → Outcome (Option AdaptationFieldExtension × ℕ)
parse_extension_field raw cursor present =
    if present then (do (e, c) ← parse_extension raw cursor; ok (some e, c)) else ok (none, cursor)

-- The value for `adaptation_field_length == 0`.
abbrev pub empty_field : List ℕ → AdaptationField
empty_field raw = record {
  af_length = 0;
  discontinuity_indicator = false;
  random_access_indicator = false;
  elementary_stream_priority_indicator = false;
  pcr_flag = false;
  opcr_flag = false;
  splicing_point_flag = false;
  transport_private_data_flag = false;
  adaptation_field_extension_flag = false;
  pcr_base = none;
  pcr_extension = none;
  opcr_base = none;
  opcr_extension = none;
  splice_countdown = none;
  transport_private_data = none;
  adaptation_field_extension = none;
  raw = raw;
}

-- The fields behind the flags byte. Bytes behind the last of them are stuffing.
unfoldable pub parse_fields : List ℕ → ℕ → ℕ → Outcome AdaptationField
parse_fields raw len flags = do
  (pb, pe, c1) ← parse_clock_field raw 2 "TS adaptation_field PCR" (flag flags 4)
  (ob, oe, c2) ← parse_clock_field raw c1 "TS adaptation_field OPCR" (flag flags 3)
  (splice, c3) ← parse_splice_countdown raw c2 (flag flags 2)
  (private, c4) ← parse_private_data raw c3 (flag flags 1)
  (ext, c5) ← parse_extension_field raw c4 (flag flags 0)
  ok (record {
    af_length = len;
    discontinuity_indicator = flag flags 7;
    random_access_indicator = flag flags 6;
    elementary_stream_priority_indicator = flag flags 5;
    pcr_flag = flag flags 4;
    opcr_flag = flag flags 3;
    splicing_point_flag = flag flags 2;
    transport_private_data_flag = flag flags 1;
    adaptation_field_extension_flag = flag flags 0;
    pcr_base = pb;
    pcr_extension = pe;
    opcr_base = ob;
    opcr_extension = oe;
    splice_countdown = splice;
    transport_private_data = private;
    adaptation_field_extension = ext;
    raw = raw;
  })

unfoldable pub parse_adaptation_field : List ℕ → Outcome AdaptationField
parse_adaptation_field raw = do
  len ← index raw 0
  if len == 0
      then ok (empty_field raw)
      else (if ltb (length raw) 2
          then err (truncated "TS adaptation_field flags" (length raw) 2)
          else (do flags ← index raw 1; parse_fields raw len flags))
