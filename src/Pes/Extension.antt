-- ===== src/Pes/Extension.antt =====
-- src/pes.rs: `PesExtension`, its two parts and `PesExtension::parse`, each optional field a function of
-- its own over the cursor.
pub mod Safety
use oxideav_mpegts.Base.{
  ℕ, zero, suc, ◌+◌, ◌-◌, ◌*◌, ◌/◌, ◌%◌, ◌^◌, ◌≤◌, ◌<◌, min, max, String, ◌≡◌, refl, sym, ap, subst,
  ◌∙◌, ◌≢◌, ◌↔◌, ◌⊎◌, inl, inr, Bool, true, false, not, ◌&&◌, ◌||◌, Option, none, some, List, [],
  ◌∷◌, ◌++◌, map, append_assoc, append-nil, arith, ltb, leb, ◌==◌, if◌then◌else◌, ltb→lt, lt→ltb,
  leb→le, le→leb, lt→leb_false, le→ltb_false, ==_iff, Bool-cases, Option-cases, is_some, is_none,
  length, get_elem?, get_or, take, drop, replicate, All, length-append, length-take, length-drop,
  length-replicate, take-append-drop, take-append_length, drop-append_length, take_all,
  get_elem?-get_or, All-append, All-take, All-drop, All-get_or, All-replicate, IsByte, IsBytes,
  ◌>>>◌, ◌<<<◌, low_bits, flag, bit_of, be16, be32, Within, byte_at-IsByte, TsError, Outcome, ◌>>=◌,
  ◌>>◌, fail_if, index, slice, sub_usize, checked_add, Ensures, Ensures-bind, Ensures-weaken,
  Ensures-ok, Ensures-ne_panic, byte_at, index-ok, slice-ok, sub_usize-ok, truncated_from,
  truncated_from-err, add_or_truncated, add_or_truncated-ok, >>=-eq_ok, >>-eq_ok, fail_if-eq_ok,
  slice_front, slice_back, add_or_overrun, add_or_overrun-ok, take_counted, truncated,
  bad_sync_byte, section_length_overrun, psi_crc_mismatch, bad_pes_start_code, unsupported,
  invalid_field, ok, err, panic,
}
use oxideav_mpegts.Pes.Fields.{need_bytes}

pub record ProgramPacketSequenceCounter : Type 0 where
  pub counter : ℕ
  pub mpeg1_mpeg2_identifier : Bool
  pub original_stuff_length : ℕ

pub record PStdBuffer : Type 0 where
  pub scale : Bool
  pub size : ℕ

-- `size_bytes`, on a `u32`.
unfoldable pub size_bytes : PStdBuffer → ℕ
size_bytes b = b.size * (if b.scale then 1024 else 128) % 2 ^ 32

-- The array of 16 bytes is a list.
pub record PesExtension : Type 0 where
  pub private_data : Option (List ℕ)
  pub pack_header : Option (List ℕ)
  pub program_packet_sequence_counter : Option ProgramPacketSequenceCounter
  pub p_std_buffer : Option PStdBuffer
  pub extension_field_2 : Option (List ℕ)

unfoldable pub parse_pes_private_data : List ℕ → ℕ → Bool → Outcome (Option (List ℕ) × ℕ)
unfolding need_bytes
parse_pes_private_data b cursor present =
    if present
    then (do
      need_bytes "PES_private_data" b cursor 16
      pd ← slice b cursor (cursor + 16)
      ok (some pd, cursor + 16))
    else ok (none, cursor)

unfoldable pub parse_pack_header : List ℕ → ℕ → Bool → Outcome (Option (List ℕ) × ℕ)
unfolding need_bytes
parse_pack_header b cursor present =
    if present
    then (do
      need_bytes "pack_field_length" b cursor 1
      n ← index b cursor
      need_bytes "pack_header" b (cursor + 1) n
      pack ← slice b (cursor + 1) (cursor + 1 + n)
      ok (some pack, cursor + 1 + n))
    else ok (none, cursor)

unfoldable pub parse_sequence_counter :
    List ℕ → ℕ → Bool → Outcome (Option ProgramPacketSequenceCounter × ℕ)
unfolding need_bytes
parse_sequence_counter b cursor present =
    if present
    then (do
      need_bytes "program_packet_sequence_counter" b cursor 2
      b0 ← index b cursor
      b1 ← index b (cursor + 1)
      ok (
        some (record {
          counter = low_bits b0 7;
          mpeg1_mpeg2_identifier = flag b1 6;
          original_stuff_length = low_bits b1 6;
        }),
        cursor + 2,
      ))
    else ok (none, cursor)

unfoldable pub parse_p_std_buffer : List ℕ → ℕ → Bool → Outcome (Option PStdBuffer × ℕ)
unfolding need_bytes
parse_p_std_buffer b cursor present =
    if present
    then (do
      need_bytes "P-STD_buffer" b cursor 2
      b0 ← index b cursor
      b1 ← index b (cursor + 1)
      ok (some (record { scale = flag b0 5; size = low_bits b0 5 <<< 8 + b1 }), cursor + 2))
    else ok (none, cursor)

unfoldable pub parse_field_2 : List ℕ → ℕ → Bool → Outcome (Option (List ℕ) × ℕ)
unfolding need_bytes
parse_field_2 b cursor present =
    if present
    then (do
      need_bytes "PES_extension_field_length" b cursor 1
      b0 ← index b cursor
      let len = low_bits b0 7
      need_bytes "PES_extension_field" b (cursor + 1) len
      field ← slice b (cursor + 1) (cursor + 1 + len)
      ok (some field, cursor + 1 + len))
    else ok (none, cursor)

-- `PesExtension::parse` behind the flags byte.
unfoldable pub parse_extension_fields : List ℕ → ℕ → Outcome (PesExtension × ℕ)
parse_extension_fields b flags = do
  (private, c1) ← parse_pes_private_data b 1 (flag flags 7)
  (pack, c2) ← parse_pack_header b c1 (flag flags 6)
  (ppsc, c3) ← parse_sequence_counter b c2 (flag flags 5)
  (p_std, c4) ← parse_p_std_buffer b c3 (flag flags 4)
  (field_2, c5) ← parse_field_2 b c4 (flag flags 0)
  ok (
    record {
      private_data = private;
      pack_header = pack;
      program_packet_sequence_counter = ppsc;
      p_std_buffer = p_std;
      extension_field_2 = field_2;
    },
    c5,
  )

unfoldable pub parse_pes_extension : List ℕ → Outcome (PesExtension × ℕ)
parse_pes_extension b =
    if length b == 0
    then err (truncated "PES extension flags" 0 1)
    else (do flags ← index b 0; parse_extension_fields b flags)
