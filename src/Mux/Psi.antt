-- ===== src/Mux/Psi.antt =====
-- src/muxer.rs: `write_psi_packet` at a variable rate (`self.cbr` is `None`, so that nothing is paced).
-- It returns the packets that it emits, in order, and the next continuity counter.
pub mod Sections
pub mod Reception
use oxideav_mpegts.Base.{
  ℕ, zero, suc, ◌+◌, ◌-◌, ◌*◌, ◌/◌, ◌%◌, ◌^◌, ◌≤◌, ◌<◌, min, max, String, ◌≡◌, refl, sym, ap, subst,
  ◌∙◌, ◌≢◌, ◌↔◌, ◌⊎◌, inl, inr, Bool, true, false, not, ◌&&◌, ◌||◌, Option, none, some, List, [],
  ◌∷◌, ◌++◌, map, append_assoc, append-nil, arith, ltb, leb, ◌==◌, if◌then◌else◌, ltb→lt, lt→ltb,
  leb→le, le→leb, lt→leb_false, le→ltb_false, ==_iff, Bool-cases, Option-cases, is_some, is_none,
  length, get_elem?, get_or, take, drop, replicate, All, length-append, length-take, length-drop,
  length-replicate, take-append-drop, take-append_length, drop-append_length, take_all,
  get_elem?-get_or, All-append, All-take, All-drop, All-get_or, All-replicate, IsByte, IsBytes,
  ◌>>>◌, ◌<<<◌, low_bits, flag, bit_of, be16, be32, Within, byte_at-IsByte, TsError, Outcome, ◌>>=◌,
  ◌>>◌, fail_if, index, slice, sub_usize, checked_add, Ensures, Ensures-bind, Ensures-weaken,
  Ensures-ok, Ensures-ne_panic, byte_at, index-ok, slice-ok, sub_usize-ok, truncated_from,
  truncated_from-err, add_or_truncated, add_or_truncated-ok, ok-injective, >>=-eq_ok, >>-eq_ok,
  fail_if-eq_ok, slice_front, slice_back, add_or_overrun, add_or_overrun-ok, take_counted,
  truncated, bad_sync_byte, section_length_overrun, psi_crc_mismatch, bad_pes_start_code,
  unsupported, invalid_field, ok, err, panic,
}
use oxideav_mpegts.Mux.Frame.{header_bytes}

-- One packet: the header, the pointer_field in the first packet, as much of the section as fits, and
-- stuffing.
unfoldable pub psi_packet : Bool → ℕ → ℕ → List ℕ → List ℕ
psi_packet true pid cc chunk =
    header_bytes true pid 1 cc ++ 0 ∷ (chunk ++ replicate (183 - length chunk) 0xFF)
psi_packet false pid cc chunk =
    header_bytes false pid 1 cc ++ (chunk ++ replicate (184 - length chunk) 0xFF)

abbrev pub psi_room : Bool → ℕ
psi_room true = 183
psi_room false = 184

-- `while first || cursor < section.len()`, on what is left of the section.
unfoldable pub write_psi_loop : ℕ → Bool → ℕ → ℕ → List ℕ → List (List ℕ) × ℕ
unfolding psi_packet
write_psi_loop zero first pid cc section = ([], cc)
write_psi_loop (suc fuel) first pid cc section =
    let n = min (psi_room first) (length section) in
    let packet = psi_packet first pid cc (take n section) in
    let rest = write_psi_loop fuel false pid (low_bits (cc + 1) 4) (drop n section) in
    if first || ltb 0 (length section) then (packet ∷ rest.0, rest.1) else ([], cc)

-- A packet takes at least a byte of the section, but for the first.
unfoldable pub write_psi_packet : ℕ → ℕ → List ℕ → List (List ℕ) × ℕ
unfolding write_psi_loop
write_psi_packet pid cc section = write_psi_loop (suc (length section)) true pid cc section
