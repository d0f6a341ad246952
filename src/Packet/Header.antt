-- ===== src/Packet/Header.antt =====
-- src/packet.rs: `TsPacket` and `TsPacket::parse`.
pub mod Safety
use oxideav_mpegts.Base.{
  ℕ, zero, suc, ◌+◌, ◌-◌, ◌*◌, ◌/◌, ◌%◌, ◌^◌, ◌≤◌, ◌<◌, min, max, String, ◌≡◌, refl, sym, ap, ◌∙◌,
  ◌≢◌, ◌↔◌, ◌⊎◌, inl, inr, Bool, true, false, not, ◌&&◌, ◌||◌, Option, none, some, List, [], ◌∷◌,
  ◌++◌, map, append_assoc, append-nil, arith, ltb, leb, ◌==◌, if◌then◌else◌, ltb→lt, lt→ltb, leb→le,
  le→leb, lt→leb_false, le→ltb_false, ==_iff, Bool-cases, Option-cases, length, get_elem?, get_or,
  take, drop, replicate, All, length-append, length-take, length-drop, length-replicate,
  take-append-drop, take-append_length, drop-append_length, take_all, get_elem?-get_or, All-append,
  All-take, All-drop, All-get_or, All-replicate, IsByte, IsBytes, ◌>>>◌, ◌<<<◌, low_bits, flag,
  bit_of, be16, be32, Within, byte_at-IsByte, TsError, Outcome, ◌>>=◌, ◌>>◌, fail_if, index, slice,
  sub_usize, checked_add, Ensures, Ensures-bind, Ensures-weaken, Ensures-ok, Ensures-ne_panic,
  byte_at, index-ok, slice-ok, sub_usize-ok, truncated_from, truncated_from-err, add_or_truncated,
  add_or_truncated-ok, truncated, bad_sync_byte, section_length_overrun, psi_crc_mismatch,
  bad_pes_start_code, unsupported, invalid_field, ok, err, panic,
}
use oxideav_mpegts.Packet.Field.{AdaptationField, parse_adaptation_field}

abbrev pub ts_packet_len : ℕ
ts_packet_len = 188

abbrev pub ts_sync_byte : ℕ
ts_sync_byte = 0x47

pub record TsPacket : Type 0 where
  pub pid : ℕ
  pub payload_unit_start : Bool
  pub transport_error : Bool
  pub transport_priority : Bool
  pub transport_scrambling_control : ℕ
  pub continuity_counter : ℕ
  pub adaptation_field : Option AdaptationField
  pub payload : List ℕ
  pub bytes : List ℕ

-- The adaptation field, if there is one, and the cursor behind it.
unfoldable pub parse_af_part : List ℕ → ℕ → Bool → Outcome (Option AdaptationField × ℕ)
parse_af_part bytes cursor has_af =
    if has_af
    then (do
      af_len ← index bytes cursor
      af_end ← add_or_truncated "TS adaptation_field" (length bytes) cursor (af_len + 1)
      if ltb ts_packet_len af_end
          then truncated_from "TS adaptation_field" ts_packet_len cursor (af_len + 1)
          else (do
            af_raw ← slice bytes cursor af_end
            af ← parse_adaptation_field af_raw
            ok (some af, af_end)))
    else ok (none, cursor)

-- What `parse` does behind the sync byte, on exactly 188 bytes.
unfoldable pub parse_synced : List ℕ → Outcome TsPacket
parse_synced bytes = do
  b1 ← index bytes 1
  b2 ← index bytes 2
  b3 ← index bytes 3
  let control = low_bits (b3 >>> 4) 2
  (af, cursor) ← parse_af_part bytes 4 (flag control 1)
  payload ← if flag control 0 then slice bytes cursor (length bytes) else ok []
  ok (record {
    pid = low_bits b1 5 <<< 8 + b2;
    payload_unit_start = flag b1 6;
    transport_error = flag b1 7;
    transport_priority = flag b1 5;
    transport_scrambling_control = low_bits (b3 >>> 6) 2;
    continuity_counter = low_bits b3 4;
    adaptation_field = af;
    payload = payload;
    bytes = bytes;
  })

unfoldable pub parse : List ℕ → Outcome TsPacket
parse buf =
    if ltb (length buf) ts_packet_len
    then err (truncated "TS packet" (length buf) ts_packet_len)
    else (do
      bytes ← slice buf 0 ts_packet_len
      b0 ← index bytes 0
      if b0 == ts_sync_byte then parse_synced bytes else err (bad_sync_byte b0))
