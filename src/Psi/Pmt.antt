-- ===== src/Psi/Pmt.antt =====
-- src/psi.rs: `ProgramMapTable::parse`; src/build.rs: `build_pmt`.
pub mod Laws
pub mod RoundTrip
use oxideav_mpegts.Base.{
  ℕ, zero, suc, ◌+◌, ◌-◌, ◌*◌, ◌/◌, ◌%◌, ◌^◌, ◌≤◌, ◌<◌, min, max, String, ◌≡◌, refl, sym, ap, subst,
  ◌∙◌, ◌≢◌, ◌↔◌, ◌⊎◌, inl, inr, Bool, true, false, not, ◌&&◌, ◌||◌, Option, none, some, List, [],
  ◌∷◌, ◌++◌, map, append_assoc, append-nil, arith, ltb, leb, ◌==◌, if◌then◌else◌, ltb→lt, lt→ltb,
  leb→le, le→leb, lt→leb_false, le→ltb_false, ==_iff, Bool-cases, Option-cases, is_some, is_none,
  length, get_elem?, get_or, take, drop, replicate, All, length-append, length-take, length-drop,
  length-replicate, take-append-drop, take-append_length, drop-append_length, take_all,
  get_elem?-get_or, All-append, All-take, All-drop, All-get_or, All-replicate, IsByte, IsBytes,
  ◌>>>◌, ◌<<<◌, low_bits, flag, bit_of, be16, be32, Within, byte_at-IsByte, TsError, Outcome, ◌>>=◌,
  ◌>>◌, fail_if, index, slice, sub_usize, checked_add, Ensures, Ensures-bind, Ensures-weaken,
  Ensures-ok, Ensures-ne_panic, byte_at, index-ok, slice-ok, sub_usize-ok, truncated_from,
  truncated_from-err, add_or_truncated, add_or_truncated-ok, >>=-eq_ok, >>-eq_ok, fail_if-eq_ok,
  slice_front, slice_back, add_or_overrun, add_or_overrun-ok, take_counted, truncated,
  bad_sync_byte, section_length_overrun, psi_crc_mismatch, bad_pes_start_code, unsupported,
  invalid_field, ok, err, panic,
}
use oxideav_mpegts.Psi.Section.{SectionHeader, parse_section_header, long_section}
use oxideav_mpegts.Psi.Pat.{single_section}

abbrev pub pmt_table_id : ℕ
pmt_table_id = 0x02

pub record PmtStream : Type 0 where
  pub stream_type : ℕ
  pub elementary_pid : ℕ
  pub descriptors : List ℕ

pub record ProgramMapTable : Type 0 where
  pub program_number : ℕ
  pub version_number : ℕ
  pub current_next_indicator : Bool
  pub pcr_pid : ℕ
  pub program_info : List ℕ
  pub streams : List PmtStream

-- One turn of the loop: the stream at `i`, and where the next one starts.
unfoldable pub read_stream : List ℕ → ℕ → Outcome (PmtStream × ℕ)
read_stream body i = do
  stream_type ← index body i
  b1 ← index body (i + 1)
  b2 ← index body (i + 2)
  b3 ← index body (i + 3)
  b4 ← index body (i + 4)
  (descriptors, descr_end) ← take_counted body (i + 5) (be16 (low_bits b3 4) b4)
  let stream : PmtStream = record {
    stream_type = stream_type;
    elementary_pid = be16 (low_bits b1 5) b2;
    descriptors = descriptors;
  }
  ok (stream, descr_end)

-- `while i + 5 <= body.len()`. Without fuel it would panic.
unfoldable pub read_streams : ℕ → List ℕ → ℕ → Outcome (List PmtStream)
read_streams zero body i = panic
read_streams (suc fuel) body i =
    let streams = (do
      (stream, next) ← read_stream body i
      rest ← read_streams fuel body next
      ok (stream ∷ rest)) in
    if leb (i + 5) (length body) then streams else ok []

-- The body behind the section header.
unfoldable pub read_pmt_body : SectionHeader → List ℕ → Outcome ProgramMapTable
read_pmt_body hdr body =
    if ltb (length body) 4 then err (truncated "PMT body" (length body) 4) else (do
      b0 ← index body 0
      b1 ← index body 1
      b2 ← index body 2
      b3 ← index body 3
      (program_info, pi_end) ← take_counted body 4 (be16 (low_bits b2 4) b3)
      streams ← read_streams (length body + 1) body pi_end
      let pmt : ProgramMapTable = record {
        program_number = hdr.table_id_extension;
        version_number = hdr.version_number;
        current_next_indicator = hdr.current_next_indicator;
        pcr_pid = be16 (low_bits b0 5) b1;
        program_info = program_info;
        streams = streams;
      }
      ok pmt)

unfoldable pub parse_pmt : List ℕ → Outcome ProgramMapTable
parse_pmt section = do
  (hdr, body) ← parse_section_header section pmt_table_id
  read_pmt_body hdr body

-- A 13-bit PID under three reserved bits, and a 12-bit length under four.
abbrev pub pid_bytes : ℕ → List ℕ → List ℕ
pid_bytes pid rest = (0b1110_0000 + low_bits (pid >>> 8) 5) ∷ low_bits pid 8 ∷ rest

-- `loop_bytes` cuts the descriptors at 0x0FFF bytes, as the source does.
unfoldable pub loop_bytes : List ℕ → List ℕ → List ℕ
loop_bytes descriptors rest =
    let len = low_bits (min (length descriptors) 0x0FFF) 16 in
    (0b1111_0000 + low_bits (len >>> 8) 4) ∷ low_bits len 8 ∷ (take len descriptors ++ rest)

unfoldable pub stream_bytes : List PmtStream → List ℕ
unfolding loop_bytes
stream_bytes [] = []
stream_bytes (s ∷ ss) =
    s.stream_type ∷ pid_bytes s.elementary_pid (loop_bytes s.descriptors (stream_bytes ss))

unfoldable pub pmt_body : ℕ → List ℕ → List PmtStream → List ℕ
pmt_body pcr_pid program_info streams =
    pid_bytes pcr_pid (loop_bytes program_info (stream_bytes streams))

unfoldable pub build_pmt : ℕ → ℕ → ℕ → List ℕ → List PmtStream → List ℕ
build_pmt program_number version pcr_pid program_info streams =
    long_section pmt_table_id (single_section program_number version)
      (pmt_body pcr_pid program_info streams)
