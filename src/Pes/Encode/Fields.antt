-- ===== src/Pes/Encode/Fields.antt =====
-- Each optional field of the PES header: what `encode` writes, its reader reads back.
use oxideav_mpegts.Base.{
  ℕ, ◌+◌, ◌-◌, ◌*◌, ◌^◌, ◌≤◌, ◌<◌, ◌≡◌, refl, sym, ap, ◌∙◌, Option, none, some, List, [], ◌∷◌, ◌++◌,
  append-nil, arith, is_some, length, length-append, index, slice, ok,
}
use oxideav_mpegts.Base.View.{At, At-length, index-At, index-At_zero, At-append, slice-At}
use oxideav_mpegts.Packet.Encode.Fields.{OptionAll}
use oxideav_mpegts.Packet.Encode.SubFields.{At-assoc}
use oxideav_mpegts.Pes.Timestamp.{
  decode_timestamp, encode_ts33, decode_escr, encode_escr, decode_timestamp-encode_ts33,
  decode_escr-encode_escr,
}
use oxideav_mpegts.Pes.TrickMode.{DsmTrickMode, to_byte}
use oxideav_mpegts.Pes.Fields.{
  parse_timestamps, parse_escr_field, parse_es_rate, parse_trick_mode_byte, parse_copy_info,
  parse_previous_crc, need_bytes,
}
use oxideav_mpegts.Pes.Encode.{
  escr_bytes, es_rate_bytes, trick_mode_bytes, copy_info_bytes, previous_crc_bytes,
  encode_timestamps,
}

-- The five bytes of a time, read alone.
decode_timestamp_alone :
    (prefix ts : ℕ) → prefix < 16 → ts < 2 ^ 33 → decode_timestamp (encode_ts33 prefix ts) ≡ ok ts
decode_timestamp_alone prefix ts p h =
    ap decode_timestamp (sym (append-nil (encode_ts33 prefix ts)))
    ∙ (decode_timestamp-encode_ts33 prefix ts [] p).2
    ∙ ap ok (omega arith)

decode_escr_alone : (escr : ℕ) → escr < 2 ^ 33 * 300 → decode_escr (encode_escr escr) ≡ ok escr
decode_escr_alone escr h =
    ap decode_escr (sym (append-nil (encode_escr escr))) ∙ (decode_escr-encode_escr escr [] h).2

length-encode_ts33 : (prefix ts : ℕ) → length (encode_ts33 prefix ts) ≡ 5
unfolding encode_ts33
length-encode_ts33 prefix ts = refl

length-encode_escr : (escr : ℕ) → length (encode_escr escr) ≡ 6
unfolding encode_escr
length-encode_escr escr = refl

-- The byte that a trick mode is read as.
abbrev pub trick_byte? : Option DsmTrickMode → Option ℕ
trick_byte? none = none
trick_byte? (some tm) = some (to_byte tm)

module _ (raw : List ℕ) (cursor : ℕ) (post : List ℕ) where
  pub parse_escr_field-At :
      (escr : Option ℕ)
      → OptionAll (λ n. n < 2 ^ 33 * 300) escr
      → At raw cursor (escr_bytes escr ++ post)
      → parse_escr_field raw cursor (is_some escr) ≡ ok (escr, cursor + length (escr_bytes escr))
  unfolding parse_escr_field escr_bytes need_bytes
  parse_escr_field-At none h v = ground arith
  parse_escr_field-At (some n) h v = ground (
    arith,
    At-length raw cursor (encode_escr n ++ post) v,
    length-append (encode_escr n) post,
    length-encode_escr n,
    slice-At raw cursor (encode_escr n) post v,
    decode_escr_alone n h,
  )

  pub parse_es_rate-At :
      (rate : Option ℕ)
      → OptionAll (λ n. (1 ≤ n) × (n < 2 ^ 22)) rate
      → At raw cursor (es_rate_bytes rate ++ post)
      → parse_es_rate raw cursor (is_some rate) ≡ ok (rate, cursor + length (es_rate_bytes rate))
  unfolding parse_es_rate es_rate_bytes need_bytes index
  parse_es_rate-At none h v = ground arith
  parse_es_rate-At (some n) h v = ground (
    arith,
    At-length raw cursor (es_rate_bytes (some n) ++ post) v,
    index-At_zero raw cursor (es_rate_bytes (some n) ++ post) v,
    index-At raw cursor 1 (es_rate_bytes (some n) ++ post) v,
    index-At raw cursor 2 (es_rate_bytes (some n) ++ post) v,
  )

  pub parse_trick_mode_byte-At :
      (tm : Option DsmTrickMode)
      → At raw cursor (trick_mode_bytes tm ++ post)
      → parse_trick_mode_byte raw cursor (is_some tm)
        ≡ ok (trick_byte? tm, cursor + length (trick_mode_bytes tm))
  unfolding parse_trick_mode_byte trick_mode_bytes need_bytes index
  parse_trick_mode_byte-At none v = ground arith
  parse_trick_mode_byte-At (some tm) v = ground (
    arith,
    At-length raw cursor (to_byte tm ∷ post) v,
    index-At_zero raw cursor (to_byte tm ∷ post) v,
  )

  pub parse_copy_info-At :
      (aci : Option ℕ)
      → OptionAll (λ n. n ≤ 0x7F) aci
      → At raw cursor (copy_info_bytes aci ++ post)
      → parse_copy_info raw cursor (is_some aci) ≡ ok (aci, cursor + length (copy_info_bytes aci))
  unfolding parse_copy_info copy_info_bytes need_bytes index
  parse_copy_info-At none h v = ground arith
  parse_copy_info-At (some n) h v = ground (
    arith,
    At-length raw cursor (copy_info_bytes (some n) ++ post) v,
    index-At_zero raw cursor (copy_info_bytes (some n) ++ post) v,
  )

  pub parse_previous_crc-At :
      (crc : Option ℕ)
      → OptionAll (λ n. n < 2 ^ 16) crc
      → At raw cursor (previous_crc_bytes crc ++ post)
      → parse_previous_crc raw cursor (is_some crc)
        ≡ ok (crc, cursor + length (previous_crc_bytes crc))
  unfolding parse_previous_crc previous_crc_bytes need_bytes index
  parse_previous_crc-At none h v = ground arith
  parse_previous_crc-At (some n) h v = ground (
    arith,
    At-length raw cursor (previous_crc_bytes (some n) ++ post) v,
    index-At_zero raw cursor (previous_crc_bytes (some n) ++ post) v,
    index-At raw cursor 1 (previous_crc_bytes (some n) ++ post) v,
  )

-- Both times, one behind the other.
pair-At :
    (raw post : List ℕ) (p d : ℕ)
    → At raw 0 ((encode_ts33 3 p ++ encode_ts33 1 d) ++ post)
    → (slice raw 0 5 ≡ ok (encode_ts33 3 p))
      × (slice raw 5 10 ≡ ok (encode_ts33 1 d))
      × (10 ≤ length raw)
unfolding encode_ts33
pair-At raw post p d v =
    let front = At-assoc raw 0 (encode_ts33 3 p) (encode_ts33 1 d) post v in
    let back = At-append raw 0 (encode_ts33 3 p) (encode_ts33 1 d ++ post) front in
    (
      slice-At raw 0 (encode_ts33 3 p) (encode_ts33 1 d ++ post) front,
      slice-At raw 5 (encode_ts33 1 d) post back,
      omega (arith, At-length raw 5 (encode_ts33 1 d ++ post) back),
    )

-- The flags and bytes of the timestamps that `encode` writes.
pub parse_timestamps-At :
    (raw post : List ℕ) (pts dts : Option ℕ) (flags : ℕ) (bytes : List ℕ)
    → OptionAll (λ n. n ≤ 2 ^ 33 - 1) pts
    → OptionAll (λ n. n ≤ 2 ^ 33 - 1) dts
    → encode_timestamps pts dts ≡ ok (flags, bytes)
    → At raw 0 (bytes ++ post)
    → (flags < 4) × (parse_timestamps raw flags ≡ ok (pts, dts, length bytes))
unfolding encode_timestamps parse_timestamps need_bytes
parse_timestamps-At raw post none none flags bytes hp hd e v = ground arith
parse_timestamps-At raw post none (some d) flags bytes hp hd e v = cc
parse_timestamps-At raw post (some p) none flags bytes hp hd e v = ground (
  arith,
  At-length raw 0 (encode_ts33 2 p ++ post),
  length-append (encode_ts33 2 p) post,
  length-encode_ts33 2 p,
  slice-At raw 0 (encode_ts33 2 p) post,
  decode_timestamp_alone 2 p,
)
parse_timestamps-At raw post (some p) (some d) flags bytes hp hd e v = ground (
  arith,
  pair-At raw post p d,
  length-append (encode_ts33 3 p) (encode_ts33 1 d),
  length-encode_ts33 3 p,
  length-encode_ts33 1 d,
  decode_timestamp_alone 3 p,
  decode_timestamp_alone 1 d,
)
