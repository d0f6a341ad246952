-- ===== src/Psi/Pat.antt =====
-- src/psi.rs: `ProgramAssociationTable::parse`; src/build.rs: `build_pat`.
pub mod Laws
use oxideav_mpegts.Base.{
  ℕ, zero, suc, ◌+◌, ◌-◌, ◌*◌, ◌/◌, ◌%◌, ◌^◌, ◌≤◌, ◌<◌, min, max, String, ◌≡◌, refl, sym, ap, subst,
  ◌∙◌, ◌≢◌, ◌↔◌, ◌⊎◌, inl, inr, Bool, true, false, not, ◌&&◌, ◌||◌, Option, none, some, List, [],
  ◌∷◌, ◌++◌, map, append_assoc, append-nil, arith, ltb, leb, ◌==◌, if◌then◌else◌, ltb→lt, lt→ltb,
  leb→le, le→leb, lt→leb_false, le→ltb_false, ==_iff, Bool-cases, Option-cases, is_some, is_none,
  length, get_elem?, get_or, take, drop, replicate, All, length-append, length-take, length-drop,
  length-replicate, take-append-drop, take-append_length, drop-append_length, take_all,
  get_elem?-get_or, All-append, All-take, All-drop, All-get_or, All-replicate, IsByte, IsBytes,
  ◌>>>◌, ◌<<<◌, low_bits, flag, bit_of, be16, be32, Within, byte_at-IsByte, TsError, Outcome, ◌>>=◌,
  ◌>>◌, fail_if, index, slice, sub_usize, checked_add, Ensures, Ensures-bind, Ensures-weaken,
  Ensures-ok, Ensures-ne_panic, byte_at, index-ok, slice-ok, sub_usize-ok, truncated_from,
  truncated_from-err, add_or_truncated, add_or_truncated-ok, >>=-eq_ok, >>-eq_ok, fail_if-eq_ok,
  slice_front, slice_back, truncated, bad_sync_byte, section_length_overrun, psi_crc_mismatch,
  bad_pes_start_code, unsupported, invalid_field, ok, err, panic,
}
use oxideav_mpegts.Psi.Section.{SectionHeader, parse_section_header, long_section, be16_bytes}

abbrev pub pat_table_id : ℕ
pat_table_id = 0x00

pub record ProgramAssociationTable : Type 0 where
  pub transport_stream_id : ℕ
  pub version_number : ℕ
  pub current_next_indicator : Bool
  pub section_number : ℕ
  pub last_section_number : ℕ
  pub programs : List (ℕ × ℕ)

-- One turn of the loop: the entry of four bytes at `i`.
unfoldable pub read_program : List ℕ → ℕ → Outcome (ℕ × ℕ)
read_program body i = do
  b0 ← index body i
  b1 ← index body (i + 1)
  b2 ← index body (i + 2)
  b3 ← index body (i + 3)
  ok (be16 b0 b1, low_bits (low_bits b2 5 <<< 8 + b3) 13)

-- `while i + 4 <= body.len()`. Without fuel it would panic.
unfoldable pub read_programs : ℕ → List ℕ → ℕ → Outcome (List (ℕ × ℕ))
read_programs zero body i = panic
read_programs (suc fuel) body i =
    let entries = (do
      entry ← read_program body i
      rest ← read_programs fuel body (i + 4)
      ok (entry ∷ rest)) in
    if leb (i + 4) (length body) then entries else ok []

unfoldable pub parse_pat : List ℕ → Outcome ProgramAssociationTable
parse_pat section = do
  (hdr, body) ← parse_section_header section pat_table_id
  programs ← read_programs (length body + 1) body 0
  let pat : ProgramAssociationTable = record {
    transport_stream_id = hdr.table_id_extension;
    version_number = hdr.version_number;
    current_next_indicator = hdr.current_next_indicator;
    section_number = hdr.section_number;
    last_section_number = hdr.last_section_number;
    programs = programs;
  }
  ok pat

-- The body that `build_pat` writes.
unfoldable pub program_bytes : List (ℕ × ℕ) → List ℕ
program_bytes [] = []
program_bytes ((number, pid) ∷ ps) =
    low_bits (number >>> 8) 8
    ∷ low_bits number 8
    ∷ (0b1110_0000 + low_bits (pid >>> 8) 5)
    ∷ low_bits pid 8
    ∷ program_bytes ps

-- The header of a single-section table that `build_pat` and `build_pmt` pass on.
abbrev pub single_section : ℕ → ℕ → SectionHeader
single_section extension version = record {
  table_id_extension = extension;
  version_number = version;
  current_next_indicator = true;
  section_number = 0;
  last_section_number = 0;
}

unfoldable pub build_pat : ℕ → ℕ → List (ℕ × ℕ) → List ℕ
unfolding program_bytes
build_pat transport_stream_id version programs =
    long_section pat_table_id (single_section transport_stream_id version) (program_bytes programs)
