-- ===== src/Psi/Section/Safety.antt =====
-- `parse_section_header` on hostile bytes.
use oxideav_mpegts.Base.{
  ℕ, ◌+◌, ◌-◌, ◌^◌, ◌≤◌, ◌<◌, inl, inr, List, arith, ltb, Bool-cases, length, take, drop,
  length-take, length-drop, All-take, All-drop, IsByte, IsBytes, ◌<<<◌, low_bits, byte_at-IsByte,
  Ensures, Ensures-weaken, byte_at, index-ok, slice-ok, sub_usize-ok, slice_front,
}
use oxideav_mpegts.Psi.Section.{
  SectionHeader, read_header, check_crc, frame_section, parse_section_header,
}

-- The header's fields fit their widths, and the body is what the length byte leaves of the section.
pub record HeaderFits (section : List ℕ) (r : SectionHeader × List ℕ) : Type 0 where
  pub extension_fits : r.0.table_id_extension < 2 ^ 16
  pub version_fits : r.0.version_number < 32
  pub number_fits : r.0.section_number < 256
  pub last_fits : r.0.last_section_number < 256
  pub body_inside : length r.1 + 12 ≤ length section
  pub body_short : length r.1 + 9 < 2 ^ 12
  pub body_bytes : IsBytes r.1

module _ (section : List ℕ) (bytes : IsBytes section) where
  read_header-Ensures :
      (crc_pos : ℕ)
      → 8 ≤ crc_pos
      → crc_pos + 4 ≤ length section
      → crc_pos < 4095
      → Ensures (HeaderFits section) (read_header section crc_pos)
  unfolding read_header
  read_header-Ensures crc_pos h k m =
      rw
        (
          index-ok section 3 (omega arith),
          index-ok section 4 (omega arith),
          index-ok section 5 (omega arith),
          index-ok section 6 (omega arith),
          index-ok section 7 (omega arith),
          slice-ok section 8 crc_pos h (omega arith),
        )
        (record {
          extension_fits =
              omega (arith, byte_at-IsByte section 3 bytes, byte_at-IsByte section 4 bytes);
          version_fits = omega arith;
          number_fits = omega (arith, byte_at-IsByte section 6 bytes);
          last_fits = omega (arith, byte_at-IsByte section 7 bytes);
          body_inside =
              omega (arith, length-take (crc_pos - 8) (drop 8 section), length-drop 8 section);
          body_short =
              omega (arith, length-take (crc_pos - 8) (drop 8 section), length-drop 8 section);
          body_bytes = All-take IsByte (crc_pos - 8) _ (All-drop IsByte 8 section bytes);
        })

  check_crc-Ensures :
      (crc_pos : ℕ)
      → 8 ≤ crc_pos
      → crc_pos + 4 ≤ length section
      → crc_pos < 4095
      → Ensures (HeaderFits section) (check_crc section crc_pos)
  unfolding check_crc
  check_crc-Ensures crc_pos h k m = ground (
    arith,
    slice-ok section 0 crc_pos,
    index-ok section crc_pos,
    index-ok section (crc_pos + 1),
    index-ok section (crc_pos + 2),
    index-ok section (crc_pos + 3),
    read_header-Ensures crc_pos h k m,
  )

HeaderFits-take :
    (n : ℕ) (section : List ℕ) (r : SectionHeader × List ℕ)
    → HeaderFits (take n section) r
    → HeaderFits section r
HeaderFits-take n section r f = record {
  extension_fits = f.extension_fits;
  version_fits = f.version_fits;
  number_fits = f.number_fits;
  last_fits = f.last_fits;
  body_inside = omega (arith, f.body_inside, length-take n section);
  body_short = f.body_short;
  body_bytes = f.body_bytes;
}

check_crc-framed :
    (section : List ℕ) (n : ℕ)
    → IsBytes section
    → 9 ≤ n
    → n < 4096
    → 3 + n ≤ length section
    → Ensures (HeaderFits section) (check_crc (take (3 + n) section) (3 + n - 4))
check_crc-framed section n bytes h k m =
    Ensures-weaken (HeaderFits (take (3 + n) section)) (HeaderFits section)
      (check_crc (take (3 + n) section) (3 + n - 4)) (HeaderFits-take (3 + n) section)
      (check_crc-Ensures (take (3 + n) section) (All-take IsByte (3 + n) section bytes) (3 + n - 4)
        (omega arith) (omega (arith, length-take (3 + n) section)) (omega arith))

frame_section-Ensures :
    (section : List ℕ)
    → IsBytes section
    → 12 ≤ length section
    → Ensures (HeaderFits section) (frame_section section)
unfolding frame_section
frame_section-Ensures section bytes h =
    rw (index-ok section 1 (omega arith), index-ok section 2 (omega arith))
      (elim (Bool-cases (ltb n 9)) [
        | inl short ↦ rw short tt
        | inr long ↦ elim (Bool-cases (ltb (length section) (3 + n))) [
          | inl over ↦ rw (long, over, sub_usize-ok (length section) 3 (omega arith)) tt
          | inr fits ↦
              let inside : 3 + n ≤ length section = ground arith in
              rw
                (
                  long,
                  fits,
                  slice_front section (3 + n) inside,
                  sub_usize-ok (3 + n) 4 (ground arith),
                )
                (check_crc-framed section n bytes (ground arith) (omega arith) inside)
        ]
      ])
  where
    n : ℕ
    n = low_bits (low_bits (byte_at section 1) 4 <<< 8 + byte_at section 2) 12

-- On any bytes the header parser never panics: it returns an error, or a header with a
-- table_id_extension of 16 bits, a version of 5 and section numbers of 8, and a body of bytes that is at
-- least the 12 bytes of header and CRC shorter than the section and within the 12-bit length.
pub parse_section_header-HeaderFits :
    (section : List ℕ) (expected : ℕ)
    → IsBytes section
    → Ensures (HeaderFits section) (parse_section_header section expected)
unfolding parse_section_header
parse_section_header-HeaderFits section expected bytes =
    ground (arith, index-ok section 0, frame_section-Ensures section bytes)
