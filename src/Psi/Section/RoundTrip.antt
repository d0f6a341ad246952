-- ===== src/Psi/Section/RoundTrip.antt =====
-- The section that `long_section` builds, `parse_section_header` takes apart again.
use oxideav_mpegts.Base.{
  ℕ, ◌+◌, ◌-◌, ◌^◌, ◌≤◌, ◌<◌, ◌≡◌, refl, ap, ◌∙◌, ◌≢◌, List, ◌++◌, arith, le→ltb_false, ==_iff,
  length, length-append, take-append_length, drop-append_length, IsBytes, ◌>>>◌, ◌<<<◌, low_bits,
  be32, index, slice, slice-ok, sub_usize-ok, slice_front, unsupported, ok, err,
}
use oxideav_mpegts.Base.View.{At, index-At, index-At_zero}
use oxideav_mpegts.Psi.Crc.{mpeg2_crc32, mpeg2_crc32-lt}
use oxideav_mpegts.Psi.Section.{
  SectionHeader, read_header, check_crc, frame_section, parse_section_header, uncrced, long_section,
  be32_bytes,
}

-- A header whose fields fit their bytes.
pub record IsHeader (h : SectionHeader) : Type 0 where
  pub extension_fits : h.table_id_extension < 2 ^ 16
  pub version_fits : h.version_number < 32
  pub number_fits : h.section_number < 256
  pub last_fits : h.last_section_number < 256

module _ (t : ℕ) (h : SectionHeader) (body : List ℕ) where
  -- The section up to its CRC.
  abbrev front : List ℕ
  front = uncrced t h body

  abbrev crc : ℕ
  crc = mpeg2_crc32 front

  pub length-uncrced : length front ≡ 8 + length body
  unfolding uncrced
  length-uncrced = omega arith

  pub length-long_section : length (long_section t h body) ≡ 12 + length body
  unfolding long_section
  length-long_section = omega (arith, length-append front (be32_bytes crc), length-uncrced)

  pub uncrced-IsBytes : t < 256 → IsHeader h → IsBytes body → IsBytes front
  unfolding uncrced
  uncrced-IsBytes ht hh hb = (
    ht,
    (
      omega arith,
      (
        omega arith,
        (omega arith, (omega arith, (ground arith, (hh.number_fits, (hh.last_fits, hb))))),
      ),
    ),
  )

  read_header-uncrced :
      IsHeader h → read_header (front ++ be32_bytes crc) (8 + length body) ≡ ok (h, body)
  unfolding read_header uncrced index
  read_header-uncrced hh =
      rw
        (
          slice-ok (front ++ be32_bytes crc) 8 (8 + length body) (omega arith)
              (omega (arith, length-append body (be32_bytes crc))),
          take-append_length (8 + length body - 8) body (be32_bytes crc) (omega arith),
        )
        (ground arith)

  At-crc : At (front ++ be32_bytes crc) (8 + length body) (be32_bytes crc)
  At-crc = record {
    rest_eq = drop-append_length (8 + length body) front (be32_bytes crc) length-uncrced;
    inside = omega (arith, length-append front (be32_bytes crc), length-uncrced);
  }

  crc-index :
      (k : ℕ) → index (front ++ be32_bytes crc) (8 + length body + k) ≡ index (be32_bytes crc) k
  crc-index k = index-At (front ++ be32_bytes crc) (8 + length body) k (be32_bytes crc) At-crc

  covered : slice (front ++ be32_bytes crc) 0 (8 + length body) ≡ ok front
  covered =
      slice_front (front ++ be32_bytes crc) (8 + length body)
        (omega (arith, length-append front (be32_bytes crc), length-uncrced))
      ∙ ap ok (take-append_length (8 + length body) front (be32_bytes crc) length-uncrced)

  check_crc-long :
      IsHeader h
      → crc < 2 ^ 32
      → check_crc (front ++ be32_bytes crc) (8 + length body) ≡ ok (h, body)
  unfolding check_crc
  check_crc-long hh small =
      rw
        (
          covered,
          index-At_zero (front ++ be32_bytes crc) (8 + length body) (be32_bytes crc) At-crc,
          crc-index 1,
          crc-index 2,
          crc-index 3,
          check_crc,
        )
        (unfold index in
          rw
            ((==_iff crc (
                be32 (low_bits (crc >>> 24) 8) (low_bits (crc >>> 16) 8) (low_bits (crc >>> 8) 8)
                  (low_bits crc 8))).1
              (omega arith))
            (read_header-uncrced hh))

  -- What the two length bytes say.
  length_bytes :
      length body ≤ 4086
      → low_bits
          (low_bits (0b1011_0000 + low_bits ((5 + length body + 4) >>> 8) 4) 4 <<< 8
            + low_bits (5 + length body + 4) 8)
          12
        ≡ 9 + length body
  length_bytes fits = omega arith

  frame_section-long :
      (rest : List ℕ)
      → IsHeader h
      → crc < 2 ^ 32
      → length body ≤ 4086
      → frame_section (long_section t h body ++ rest) ≡ ok (h, body)
  unfolding frame_section
  frame_section-long rest hh small fits =
      rw
        (
          byte_one,
          byte_two,
          length_bytes fits,
          le→ltb_false (9 + length body) 9 (omega arith),
          le→ltb_false (length (long_section t h body ++ rest)) (3 + (9 + length body)) room,
          slice_front (long_section t h body ++ rest) (3 + (9 + length body)) room,
          sub_usize-ok (3 + (9 + length body)) 4 (omega arith),
          take-append_length (3 + (9 + length body)) (long_section t h body) rest
              (omega (arith, length-long_section)),
          crc_pos,
        )
        (unfold long_section in check_crc-long hh small)
    where
      byte_one :
          index (long_section t h body ++ rest) 1
          ≡ ok (0b1011_0000 + low_bits ((5 + length body + 4) >>> 8) 4)
      byte_one = unfold long_section uncrced index in refl

      byte_two : index (long_section t h body ++ rest) 2 ≡ ok (low_bits (5 + length body + 4) 8)
      byte_two = unfold long_section uncrced index in refl

      room : 3 + (9 + length body) ≤ length (long_section t h body ++ rest)
      room = omega (arith, length-long_section, length-append (long_section t h body) rest)

      crc_pos : 3 + (9 + length body) - 4 ≡ 8 + length body
      crc_pos = omega arith

-- Whatever follows a section built from a header whose fields fit and a body of at most 4086 bytes,
-- parsing it under its own table_id gives back the header and the body.
pub parse_section_header-long_section :
    (t : ℕ) (h : SectionHeader) (body rest : List ℕ)
    → t < 256
    → IsHeader h
    → IsBytes body
    → length body ≤ 4086
    → parse_section_header (long_section t h body ++ rest) t ≡ ok (h, body)
unfolding parse_section_header
parse_section_header-long_section t h body rest ht hh hb fits =
    rw
      (
        le→ltb_false (length (long_section t h body ++ rest)) 12 (
            omega
              (arith, length-long_section t h body, length-append (long_section t h body) rest)),
        byte_zero,
        (==_iff t t).1 refl,
        parse_section_header,
      )
      (frame_section-long t h body rest hh (mpeg2_crc32-lt _ (uncrced-IsBytes t h body ht hh hb))
        fits)
  where
    byte_zero : index (long_section t h body ++ rest) 0 ≡ ok t
    byte_zero = unfold long_section uncrced index in refl

-- A section that was built under one table_id is refused under any other.
pub parse_section_header-other :
    (t u : ℕ) (h : SectionHeader) (body rest : List ℕ)
    → t ≢ u
    → parse_section_header (long_section t h body ++ rest) u
      ≡ err (unsupported "PSI table_id does not match expected value")
unfolding parse_section_header
parse_section_header-other t u h body rest ne =
    ground (arith, length-long_section t h body, length-append (long_section t h body) rest, first)
  where
    first : index (long_section t h body ++ rest) 0 ≡ ok t
    first = unfold long_section uncrced index in refl
