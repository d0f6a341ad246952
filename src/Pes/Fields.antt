-- ===== src/Pes/Fields.antt =====
-- src/pes.rs: the fields of the optional header that `PesPacket::parse` reads behind its flags. Each
-- is a function over the cursor into the optional header, which it returns moved on.
pub mod Safety
use oxideav_mpegts.Base.{
  ℕ, zero, suc, ◌+◌, ◌-◌, ◌*◌, ◌/◌, ◌%◌, ◌^◌, ◌≤◌, ◌<◌, min, max, String, ◌≡◌, refl, sym, ap, subst,
  ◌∙◌, ◌≢◌, ◌↔◌, ◌⊎◌, inl, inr, Bool, true, false, not, ◌&&◌, ◌||◌, Option, none, some, List, [],
  ◌∷◌, ◌++◌, map, append_assoc, append-nil, arith, ltb, leb, ◌==◌, if◌then◌else◌, ltb→lt, lt→ltb,
  leb→le, le→leb, lt→leb_false, le→ltb_false, ==_iff, Bool-cases, Option-cases, is_some, is_none,
  length, get_elem?, get_or, take, drop, replicate, All, length-append, length-take, length-drop,
  length-replicate, take-append-drop, take-append_length, drop-append_length, take_all,
  get_elem?-get_or, All-append, All-take, All-drop, All-get_or, All-replicate, IsByte, IsBytes,
  ◌>>>◌, ◌<<<◌, low_bits, flag, bit_of, be16, be32, Within, byte_at-IsByte, TsError, Outcome, ◌>>=◌,
  ◌>>◌, fail_if, index, slice, sub_usize, checked_add, Ensures, Ensures-bind, Ensures-weaken,
  Ensures-ok, Ensures-ne_panic, byte_at, index-ok, slice-ok, sub_usize-ok, truncated_from,
  truncated_from-err, add_or_truncated, add_or_truncated-ok, >>=-eq_ok, >>-eq_ok, fail_if-eq_ok,
  slice_front, slice_back, add_or_overrun, add_or_overrun-ok, take_counted, truncated,
  bad_sync_byte, section_length_overrun, psi_crc_mismatch, bad_pes_start_code, unsupported,
  invalid_field, ok, err, panic,
}
use oxideav_mpegts.Pes.Timestamp.{decode_timestamp, decode_escr}

-- `if b.len() < cursor + n { return Err(Truncated { what, have: b.len(), need: cursor + n }) }`.
unfoldable pub need_bytes : String → List ℕ → ℕ → ℕ → Outcome (Unit {0})
need_bytes what b cursor n =
    fail_if (ltb (length b) (cursor + n)) (truncated what (length b) (cursor + n))

-- `PTS_DTS_flags` and the fields that they announce.
unfoldable pub parse_timestamps : List ℕ → ℕ → Outcome (Option ℕ × Option ℕ × ℕ)
parse_timestamps opt flags =
    if flags == 2
    then (do
      need_bytes "PES PTS" opt 0 5
      b ← slice opt 0 5
      pts ← decode_timestamp b
      ok (some pts, none, 5))
    else (if flags == 3
        then (do
          need_bytes "PES PTS+DTS" opt 0 10
          b ← slice opt 0 5
          pts ← decode_timestamp b
          c ← slice opt 5 10
          dts ← decode_timestamp c
          ok (some pts, some dts, 10))
        else (if flags == 0
            then ok (none, none, 0)
            else err (unsupported "PES PTS_DTS_flags = 0b01")))

unfoldable pub parse_escr_field : List ℕ → ℕ → Bool → Outcome (Option ℕ × ℕ)
parse_escr_field opt cursor present =
    if present
    then (do
      need_bytes "PES ESCR" opt cursor 6
      b ← slice opt cursor (cursor + 6)
      escr ← decode_escr b
      ok (some escr, cursor + 6))
    else ok (none, cursor)

unfoldable pub parse_es_rate : List ℕ → ℕ → Bool → Outcome (Option ℕ × ℕ)
parse_es_rate opt cursor present =
    if present
    then (do
      need_bytes "PES ES_rate" opt cursor 3
      b0 ← index opt cursor
      b1 ← index opt (cursor + 1)
      b2 ← index opt (cursor + 2)
      ok (some (low_bits b0 7 <<< 15 + b1 <<< 7 + low_bits (b2 >>> 1) 7), cursor + 3))
    else ok (none, cursor)

unfoldable pub parse_trick_mode_byte : List ℕ → ℕ → Bool → Outcome (Option ℕ × ℕ)
parse_trick_mode_byte opt cursor present =
    if present
    then (do
      need_bytes "PES DSM_trick_mode" opt cursor 1
      b ← index opt cursor
      ok (some b, cursor + 1))
    else ok (none, cursor)

unfoldable pub parse_copy_info : List ℕ → ℕ → Bool → Outcome (Option ℕ × ℕ)
parse_copy_info opt cursor present =
    if present
    then (do
      need_bytes "PES additional_copy_info" opt cursor 1
      b ← index opt cursor
      ok (some (low_bits b 7), cursor + 1))
    else ok (none, cursor)

unfoldable pub parse_previous_crc : List ℕ → ℕ → Bool → Outcome (Option ℕ × ℕ)
parse_previous_crc opt cursor present =
    if present
    then (do
      need_bytes "PES previous_PES_packet_CRC" opt cursor 2
      b0 ← index opt cursor
      b1 ← index opt (cursor + 1)
      ok (some (be16 b0 b1), cursor + 2))
    else ok (none, cursor)
