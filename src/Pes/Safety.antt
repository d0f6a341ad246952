-- ===== src/Pes/Safety.antt =====
-- src/pes.rs: `PesPacket::parse` on hostile bytes.
use oxideav_mpegts.Base.{
  ℕ, ◌+◌, ◌-◌, ◌*◌, ◌^◌, ◌≤◌, ◌<◌, ◌≡◌, refl, Bool, ◌&&◌, Option, none, some, List, arith, is_some,
  length, take, drop, All-take, All-drop, IsByte, IsBytes, Within, byte_at-IsByte, Ensures,
  Ensures-bind, byte_at, index-ok, slice_back,
}
use oxideav_mpegts.Pes.Fields.{
  parse_timestamps, parse_escr_field, parse_es_rate, parse_trick_mode_byte, parse_copy_info,
  parse_previous_crc,
}
use oxideav_mpegts.Pes.Fields.Safety.{
  parse_timestamps-Ensures, parse_escr_field-Ensures, parse_es_rate-Ensures,
  parse_trick_mode_byte-Ensures, parse_copy_info-Ensures, parse_previous_crc-Ensures, slice-IsBytes,
}
use oxideav_mpegts.Pes.Extension.{PesExtension}
use oxideav_mpegts.Pes.Extension.Safety.{ExtensionFits, parse_pes_extension-Ensures}
use oxideav_mpegts.Pes.Header.{
  PesPacket, headerless, parse_extension_part, parse_optional_header, parse_with_header, parse_pes,
}

abbrev pub OptionalFits : Option PesExtension → Type 0
OptionalFits none = Unit {0}
OptionalFits (some ext) = ExtensionFits ext

-- Widths of Table 2-17, no DTS without a PTS, and a payload that is what stands behind the header.
pub record PesFits (source : List ℕ) (pes : PesPacket) : Type 0 where
  pub stream_id_fits : pes.stream_id < 256
  pub scrambling_fits : pes.pes_scrambling_control < 4
  pub pts_fits : Within (2 ^ 33) pes.pts_90k
  pub dts_fits : Within (2 ^ 33) pes.dts_90k
  pub dts_with_pts : is_some pes.dts_90k ≡ is_some pes.dts_90k && is_some pes.pts_90k
  pub escr_fits : Within (2 ^ 33 * 300 + 212) pes.escr_27mhz
  pub es_rate_fits : Within (2 ^ 22) pes.es_rate_50bps
  pub trick_mode_fits : Within 256 pes.dsm_trick_mode
  pub copy_info_fits : Within 128 pes.additional_copy_info
  pub crc_fits : Within (2 ^ 16) pes.previous_pes_packet_crc
  pub extension_fits : OptionalFits pes.pes_extension
  pub payload_eq : (start : ℕ) × (6 ≤ start) × (start ≤ 264) × (pes.payload ≡ drop start source)

module _ (opt : List ℕ) (bytes : IsBytes opt) where
  parse_extension_part-Ensures :
      (cursor : ℕ) (present : Bool)
      → cursor ≤ length opt
      → Ensures OptionalFits (parse_extension_part opt cursor present)
  unfolding parse_extension_part
  parse_extension_part-Ensures cursor present h = ground (
    arith,
    slice_back opt cursor,
    parse_pes_extension-Ensures (drop cursor opt) (All-drop IsByte cursor opt bytes),
  )

  parse_optional_header-PesFits :
      (source : List ℕ) (stream_id flags1 flags2 start : ℕ)
      → stream_id < 256
      → 6 ≤ start
      → start ≤ 264
      → Ensures
          (PesFits source)
          (parse_optional_header stream_id flags1 flags2 opt (drop start source))
  unfolding parse_optional_header
  parse_optional_header-PesFits source stream_id flags1 flags2 start id lo hi =
      Ensures-bind _ _ (parse_timestamps opt _) _ (parse_timestamps-Ensures opt bytes _)
        λ (pts, dts, c1) (hp, hd, pair, h1).
          Ensures-bind _ _ (parse_escr_field opt c1 _) _
            (parse_escr_field-Ensures opt bytes c1 _ h1)
            λ (escr, c2) (he, h2).
              Ensures-bind _ _ (parse_es_rate opt c2 _) _ (parse_es_rate-Ensures opt bytes c2 _ h2)
                λ (rate, c3) (hr, h3).
                  Ensures-bind _ _ (parse_trick_mode_byte opt c3 _) _
                    (parse_trick_mode_byte-Ensures opt bytes c3 _ h3)
                    λ (tm, c4) (ht, h4).
                      Ensures-bind _ _ (parse_copy_info opt c4 _) _
                        (parse_copy_info-Ensures opt bytes c4 _ h4)
                        λ (aci, c5) (hc, h5).
                          Ensures-bind _ _ (parse_previous_crc opt c5 _) _
                            (parse_previous_crc-Ensures opt bytes c5 _ h5)
                            λ (crc, c6) (hcrc, h6).
                              Ensures-bind _ _ (parse_extension_part opt c6 _) _
                                (parse_extension_part-Ensures c6 _ h6)
                                λ ext hx. record {
                                  stream_id_fits = id;
                                  scrambling_fits = omega arith;
                                  pts_fits = hp;
                                  dts_fits = hd;
                                  dts_with_pts = pair;
                                  escr_fits = he;
                                  es_rate_fits = hr;
                                  trick_mode_fits = ht;
                                  copy_info_fits = hc;
                                  crc_fits = hcrc;
                                  extension_fits = hx;
                                  payload_eq = (start, lo, hi, refl);
                                }

module _ (source : List ℕ) (bytes : IsBytes source) where
  parse_with_header-PesFits :
      (stream_id : ℕ)
      → stream_id < 256
      → Ensures (PesFits source) (parse_with_header stream_id source)
  unfolding parse_with_header
  parse_with_header-PesFits stream_id id = ground (
    arith,
    index-ok source 6,
    index-ok source 7,
    index-ok source 8,
    byte_at-IsByte source 8,
    slice-IsBytes source bytes 9 (9 + byte_at source 8),
    slice_back source (9 + byte_at source 8),
    parse_optional_header-PesFits (take (9 + byte_at source 8 - 9) (drop 9 source))
        (All-take IsByte (9 + byte_at source 8 - 9) (drop 9 source)
          (All-drop IsByte 9 source bytes))
        source stream_id (byte_at source 6) (byte_at source 7) (9 + byte_at source 8) id,
  )

  headerless-PesFits :
      (stream_id : ℕ) → stream_id < 256 → PesFits source (headerless stream_id (drop 6 source))
  headerless-PesFits stream_id id = record {
    stream_id_fits = id;
    scrambling_fits = omega arith;
    pts_fits = tt;
    dts_fits = tt;
    dts_with_pts = refl;
    escr_fits = tt;
    es_rate_fits = tt;
    trick_mode_fits = tt;
    copy_info_fits = tt;
    crc_fits = tt;
    extension_fits = tt;
    payload_eq = (6, omega arith, omega arith, refl);
  }

-- On any bytes at all, the reader of a PES packet does not panic, and a packet that it returns has
-- every field within its width, no DTS without a PTS, and as its payload the bytes that stand behind
-- a header of 6 to 264 bytes.
pub parse_pes-PesFits : (bytes : List ℕ) → IsBytes bytes → Ensures (PesFits bytes) (parse_pes bytes)
unfolding parse_pes
parse_pes-PesFits bytes h = ground (
  arith,
  index-ok bytes 0,
  index-ok bytes 1,
  index-ok bytes 2,
  index-ok bytes 3,
  byte_at-IsByte bytes 3,
  slice_back bytes 6,
  headerless-PesFits bytes h (byte_at bytes 3),
  parse_with_header-PesFits bytes h (byte_at bytes 3),
)
