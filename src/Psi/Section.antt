-- ===== src/Psi/Section.antt =====
-- src/psi.rs: `SectionHeader` and `parse_section_header`; src/build.rs: `long_section`.
pub mod Safety
pub mod RoundTrip
use oxideav_mpegts.Base.{
  ℕ, zero, suc, ◌+◌, ◌-◌, ◌*◌, ◌/◌, ◌%◌, ◌^◌, ◌≤◌, ◌<◌, min, max, String, ◌≡◌, refl, sym, ap, subst,
  ◌∙◌, ◌≢◌, ◌↔◌, ◌⊎◌, inl, inr, Bool, true, false, not, ◌&&◌, ◌||◌, Option, none, some, List, [],
  ◌∷◌, ◌++◌, map, append_assoc, append-nil, arith, ltb, leb, ◌==◌, if◌then◌else◌, ltb→lt, lt→ltb,
  leb→le, le→leb, lt→leb_false, le→ltb_false, ==_iff, Bool-cases, Option-cases, is_some, is_none,
  length, get_elem?, get_or, take, drop, replicate, All, length-append, length-take, length-drop,
  length-replicate, take-append-drop, take-append_length, drop-append_length, take_all,
  get_elem?-get_or, All-append, All-take, All-drop, All-get_or, All-replicate, IsByte, IsBytes,
  ◌>>>◌, ◌<<<◌, low_bits, flag, bit_of, be16, be32, Within, byte_at-IsByte, TsError, Outcome, ◌>>=◌,
  ◌>>◌, fail_if, index, slice, sub_usize, checked_add, Ensures, Ensures-bind, Ensures-weaken,
  Ensures-ok, Ensures-ne_panic, byte_at, index-ok, slice-ok, sub_usize-ok, truncated_from,
  truncated_from-err, add_or_truncated, add_or_truncated-ok, >>=-eq_ok, >>-eq_ok, fail_if-eq_ok,
  truncated, bad_sync_byte, section_length_overrun, psi_crc_mismatch, bad_pes_start_code,
  unsupported, invalid_field, ok, err, panic,
}
use oxideav_mpegts.Psi.Crc.{mpeg2_crc32}

pub record SectionHeader : Type 0 where
  pub table_id_extension : ℕ
  pub version_number : ℕ
  pub current_next_indicator : Bool
  pub section_number : ℕ
  pub last_section_number : ℕ

abbrev pub section_header_len : ℕ
section_header_len = 8

abbrev pub section_crc_len : ℕ
section_crc_len = 4

-- The header fields and the body of a section cut to its length, whose CRC is right.
unfoldable pub read_header : List ℕ → ℕ → Outcome (SectionHeader × List ℕ)
read_header section crc_pos = do
  b3 ← index section 3
  b4 ← index section 4
  b5 ← index section 5
  b6 ← index section 6
  b7 ← index section 7
  body ← slice section section_header_len crc_pos
  let hdr : SectionHeader = record {
    table_id_extension = be16 b3 b4;
    version_number = low_bits (b5 >>> 1) 5;
    current_next_indicator = flag b5 0;
    section_number = b6;
    last_section_number = b7;
  }
  ok (hdr, body)

-- The CRC check over a section cut to its length, and what follows it.
unfoldable pub check_crc : List ℕ → ℕ → Outcome (SectionHeader × List ℕ)
check_crc section crc_pos = do
  covered ← slice section 0 crc_pos
  let computed = mpeg2_crc32 covered
  c0 ← index section crc_pos
  c1 ← index section (crc_pos + 1)
  c2 ← index section (crc_pos + 2)
  c3 ← index section (crc_pos + 3)
  if computed == be32 c0 c1 c2 c3
      then read_header section crc_pos
      else err (psi_crc_mismatch (be32 c0 c1 c2 c3) computed)

-- The length checks, for a section that carries the expected table_id.
unfoldable pub frame_section : List ℕ → Outcome (SectionHeader × List ℕ)
frame_section section = do
  b1 ← index section 1
  b2 ← index section 2
  let section_length = low_bits (low_bits b1 4 <<< 8 + b2) 12
  if ltb section_length (section_header_len - 3 + section_crc_len)
      then err
          (truncated "PSI section_length (long form spans fixed header + CRC)" section_length 9)
      else (if ltb (length section) (3 + section_length)
          then (do
            have ← sub_usize (length section) 3
            err (section_length_overrun section_length have))
          else (do
            framed ← slice section 0 (3 + section_length)
            crc_pos ← sub_usize (3 + section_length) section_crc_len
            check_crc framed crc_pos))

unfoldable pub parse_section_header : List ℕ → ℕ → Outcome (SectionHeader × List ℕ)
parse_section_header section expected_table_id =
    if ltb (length section) (section_header_len + section_crc_len)
    then err (truncated "PSI section header" (length section) 12)
    else (do
      table_id ← index section 0
      if table_id == expected_table_id
          then frame_section section
          else err (unsupported "PSI table_id does not match expected value"))

-- `u16::to_be_bytes` and `u32::to_be_bytes`.
abbrev pub be16_bytes : ℕ → List ℕ
be16_bytes v = low_bits (v >>> 8) 8 ∷ low_bits v 8 ∷ []

abbrev pub be32_bytes : ℕ → List ℕ
be32_bytes v =
    low_bits (v >>> 24) 8 ∷ low_bits (v >>> 16) 8 ∷ low_bits (v >>> 8) 8 ∷ low_bits v 8 ∷ []

-- `long_section` up to its CRC.
unfoldable pub uncrced : ℕ → SectionHeader → List ℕ → List ℕ
uncrced table_id h body =
    let section_length = 5 + length body + 4 in
    table_id
    ∷ (0b1011_0000 + low_bits (section_length >>> 8) 4)
    ∷ low_bits section_length 8
    ∷ low_bits (h.table_id_extension >>> 8) 8
    ∷ low_bits h.table_id_extension 8
    ∷ (0b1100_0000 + low_bits h.version_number 5 <<< 1 + bit_of h.current_next_indicator)
    ∷ h.section_number
    ∷ h.last_section_number
    ∷ body

unfoldable pub long_section : ℕ → SectionHeader → List ℕ → List ℕ
unfolding uncrced
long_section table_id h body = let s = uncrced table_id h body in s ++ be32_bytes (mpeg2_crc32 s)
