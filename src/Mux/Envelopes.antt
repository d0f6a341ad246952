-- ===== src/Mux/Envelopes.antt =====
-- src/muxer.rs: `build_pes`, and the loop of `write_pes_packet` over the PES packets of one frame.
pub mod Parsed
pub mod Built
pub mod EndToEnd
use oxideav_mpegts.Base.{
  ℕ, zero, suc, ◌+◌, ◌-◌, ◌*◌, ◌/◌, ◌%◌, ◌^◌, ◌≤◌, ◌<◌, min, max, String, ◌≡◌, refl, sym, ap, subst,
  ◌∙◌, ◌≢◌, ◌↔◌, ◌⊎◌, inl, inr, Bool, true, false, not, ◌&&◌, ◌||◌, Option, none, some, List, [],
  ◌∷◌, ◌++◌, map, append_assoc, append-nil, arith, ltb, leb, ◌==◌, if◌then◌else◌, ltb→lt, lt→ltb,
  leb→le, le→leb, lt→leb_false, le→ltb_false, ==_iff, Bool-cases, Option-cases, is_some, is_none,
  length, get_elem?, get_or, take, drop, replicate, All, length-append, length-take, length-drop,
  length-replicate, take-append-drop, take-append_length, drop-append_length, drop_all, take_all,
  get_elem?-get_or, All-append, All-take, All-drop, All-get_or, All-replicate, IsByte, IsBytes,
  ◌>>>◌, ◌<<<◌, low_bits, flag, bit_of, be16, be32, Within, byte_at-IsByte, TsError, Outcome, ◌>>=◌,
  ◌>>◌, fail_if, index, slice, sub_usize, checked_add, Ensures, Ensures-bind, Ensures-weaken,
  Ensures-ok, Ensures-ne_panic, byte_at, index-ok, slice-ok, sub_usize-ok, truncated_from,
  truncated_from-err, add_or_truncated, add_or_truncated-ok, ok-injective, >>=-eq_ok, >>-eq_ok,
  fail_if-eq_ok, slice_front, slice_back, add_or_overrun, add_or_overrun-ok, take_counted,
  truncated, bad_sync_byte, section_length_overrun, psi_crc_mismatch, bad_pes_start_code,
  unsupported, invalid_field, ok, err, panic,
}
use oxideav_mpegts.Base.Int.{ℤ, pos, negsuc}
use oxideav_mpegts.Pes.Encode.{PesHeaderSpec, encode_pes}
use oxideav_mpegts.Mux.Pes.{SpliceSpec, WriterState, write_pes_bytes_as_ts}

-- The parts of a frame that the muxer reads; the type is the caller's.
pub record FrameData : Type 0 where
  pub pts : Option ℤ
  pub dts : Option ℤ
  pub payload : List ℕ

-- `(t as u64) & 0x1_FFFF_FFFF` of an `i64`.
unfoldable pub ring : ℤ → ℕ
ring (pos n) = n % 2 ^ 33
ring (negsuc n) = 2 ^ 33 - 1 - n % 2 ^ 33

abbrev pub ring? : Option ℤ → Option ℕ
ring? none = none
ring? (some t) = some (ring t)

-- `a != b` on `Option<u64>`.
abbrev pub differs : Option ℕ → Option ℕ → Bool
differs none none = false
differs none (some b) = true
differs (some a) none = true
differs (some a) (some b) = not (a == b)

abbrev pub plain_spec : ℕ → PesHeaderSpec
plain_spec stream_id = record {
  stream_id = stream_id;
  pes_scrambling_control = 0;
  pes_priority = false;
  data_alignment_indicator = false;
  copyright = false;
  original_or_copy = false;
  pts_90k = none;
  dts_90k = none;
  escr_27mhz = none;
  es_rate_50bps = none;
  trick_mode = none;
  additional_copy_info = none;
  previous_pes_packet_crc = none;
  pes_extension = none;
  unbounded_length = false;
}

-- `first_spec`.
unfoldable pub first_spec : ℕ → FrameData → PesHeaderSpec
unfolding ring
first_spec stream_id frame =
    let has_dts = is_some frame.dts && differs (ring? frame.dts) (ring? frame.pts) in
    record (plain_spec stream_id) {
      pts_90k = ring? frame.pts;
      dts_90k = if has_dts then ring? frame.dts else none;
      unbounded_length = leb 0xE0 stream_id && leb stream_id 0xEF;
    }

abbrev pub opt_len : Option ℕ → Option ℕ → ℕ
opt_len (some p) (some d) = 10
opt_len (some p) none = 5
opt_len none d = 0

-- `for chunk in data.chunks(u16::MAX - 3)`, on fuel: a chunk takes at least a byte.
unfoldable pub encode_chunks : ℕ → PesHeaderSpec → List ℕ → Outcome (List (List ℕ))
encode_chunks fuel spec [] = ok []
encode_chunks zero spec (b ∷ bs) = panic
encode_chunks (suc fuel) spec (b ∷ bs) = do
  packet ← encode_pes spec (take 65532 (b ∷ bs))
  rest ← encode_chunks fuel spec (drop 65532 (b ∷ bs))
  ok (packet ∷ rest)

unfoldable pub build_pes : ℕ → FrameData → Outcome (List (List ℕ))
build_pes stream_id frame =
    let spec = first_spec stream_id frame in
    let first_max = 65535 - 3 - opt_len spec.pts_90k spec.dts_90k in
    if spec.unbounded_length || leb (length frame.payload) first_max
    then (do packet ← encode_pes spec frame.payload; ok (packet ∷ []))
    else (do
      first ← encode_pes spec (take first_max frame.payload)
      rest ←
          encode_chunks (length frame.payload) (plain_spec stream_id) (drop first_max frame.payload)
      ok (first ∷ rest))

-- The PCR and the random access indicator go with the first PES packet, the splice with the last one.
unfoldable pub write_envelopes :
    ℕ
    → Option (ℕ × ℕ)
    → Bool
    → Option SpliceSpec
    → WriterState
    → List (List ℕ)
    → Outcome (List (List ℕ) × WriterState)
write_envelopes pid pcr ra splice s [] = ok ([], s)
write_envelopes pid pcr ra splice s (pes ∷ []) = write_pes_bytes_as_ts pid pes pcr ra splice s
write_envelopes pid pcr ra splice s (pes ∷ next ∷ rest) = do
  (packets, s1) ← write_pes_bytes_as_ts pid pes pcr ra none s
  (more, s2) ← write_envelopes pid none false splice s1 (next ∷ rest)
  ok (packets ++ more, s2)
