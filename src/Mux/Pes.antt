-- ===== src/Mux/Pes.antt =====
-- src/muxer.rs: `write_pes_bytes_as_ts`, `packets_needed` and `signal_splice_after`, at a variable rate
-- (`self.cbr` is `None`, so that nothing is paced and no PCR is stamped from the byte clock).
pub mod Sent
pub mod Annotation
pub mod Countdown
pub mod Flow
pub mod Delivery
use oxideav_mpegts.Base.{
  ℕ, zero, suc, ◌+◌, ◌-◌, ◌*◌, ◌/◌, ◌%◌, ◌^◌, ◌≤◌, ◌<◌, min, max, String, ◌≡◌, refl, sym, ap, subst,
  ◌∙◌, ◌≢◌, ◌↔◌, ◌⊎◌, inl, inr, Bool, true, false, not, ◌&&◌, ◌||◌, Option, none, some, List, [],
  ◌∷◌, ◌++◌, map, append_assoc, append-nil, arith, ltb, leb, ◌==◌, if◌then◌else◌, ltb→lt, lt→ltb,
  leb→le, le→leb, lt→leb_false, le→ltb_false, ==_iff, Bool-cases, Option-cases, is_some, is_none,
  length, get_elem?, get_or, take, drop, replicate, All, length-append, length-take, length-drop,
  length-replicate, take-append-drop, take-append_length, drop-append_length, take_all,
  get_elem?-get_or, All-append, All-take, All-drop, All-get_or, All-replicate, IsByte, IsBytes,
  ◌>>>◌, ◌<<<◌, low_bits, flag, bit_of, be16, be32, Within, byte_at-IsByte, TsError, Outcome, ◌>>=◌,
  ◌>>◌, fail_if, index, slice, sub_usize, checked_add, Ensures, Ensures-bind, Ensures-weaken,
  Ensures-ok, Ensures-ne_panic, byte_at, index-ok, slice-ok, sub_usize-ok, truncated_from,
  truncated_from-err, add_or_truncated, add_or_truncated-ok, ok-injective, >>=-eq_ok, >>-eq_ok,
  fail_if-eq_ok, slice_front, slice_back, add_or_overrun, add_or_overrun-ok, take_counted,
  truncated, bad_sync_byte, section_length_overrun, psi_crc_mismatch, bad_pes_start_code,
  unsupported, invalid_field, ok, err, panic,
}
use oxideav_mpegts.Base.Int.{ℤ, pos, negsuc, as_i8}
use oxideav_mpegts.Packet.Encode.{
  AdaptationFieldSpec, AdaptationFieldExtensionSpec, is_empty, encode,
}
use oxideav_mpegts.Mux.Frame.{header_bytes}

pub record SeamlessSpliceSpec : Type 0 where
  pub splice_type : ℕ
  pub dts_next_au : ℕ

pub record SpliceSpec : Type 0 where
  pub seamless : Option SeamlessSpliceSpec
  pub post_splice_packets : ℕ

-- The fields of `TrackState` and `ProgramState` that the writer changes.
pub record WriterState : Type 0 where
  pub cc : ℕ
  pub post_splice : Option (ℕ × ℕ)
  pub pending_discontinuity : Bool

-- `CoreError::invalid` with a text is written `invalid_field` with it.
unfoldable pub check_seamless : Bool → SeamlessSpliceSpec → Outcome (Unit {0})
check_seamless is_video seamless = do
  fail_if (ltb 0xF seamless.splice_type) (invalid_field "mpegts muxer: splice_type exceeds 4 bits")
  fail_if (ltb (2 ^ 33 - 1) seamless.dts_next_au)
      (invalid_field "mpegts muxer: DTS_next_AU exceeds 33 bits")
  fail_if (not is_video && not (seamless.splice_type == 0))
      (invalid_field "mpegts muxer: non-zero splice_type on a non-video stream")

-- `is_video` of the tracks by stream_index, and the splice that is armed for the track. The text of the
-- error for an unknown stream_index leaves the number out.
unfoldable pub signal_splice_after : (ℕ → Option Bool) → ℕ → SpliceSpec → Outcome SpliceSpec
unfolding check_seamless
signal_splice_after is_video stream_index spec = do
  video ← elim (is_video stream_index) [
    | none ↦ err (invalid_field "mpegts muxer: splice for unknown stream_index")
    | some video ↦ ok video
  ]
  elim spec.seamless [ none ↦ ok tt | some seamless ↦ check_seamless video seamless ]
  ok (record spec { post_splice_packets = min spec.post_splice_packets 127 })

-- `usize::div_ceil`.
unfoldable pub div_ceil : ℕ → ℕ → Outcome ℕ
div_ceil a zero = panic
div_ceil a (suc b) = ok (if a % suc b == 0 then a / suc b else a / suc b + 1)

unfoldable pub packets_needed : ℕ → ℕ → ℕ → Outcome ℕ
unfolding div_ceil
packets_needed remaining cap_first cap_cont =
    if leb remaining cap_first
    then ok 1
    else (do n ← div_ceil (remaining - cap_first) cap_cont; ok (1 + n))

abbrev pub empty_spec : AdaptationFieldSpec
empty_spec = record {
  discontinuity_indicator = false;
  random_access_indicator = false;
  elementary_stream_priority_indicator = false;
  pcr = none;
  opcr = none;
  splice_countdown = none;
  transport_private_data = none;
  extension = none;
}

abbrev pub seamless_extension : Option SeamlessSpliceSpec → Option AdaptationFieldExtensionSpec
seamless_extension none = none
seamless_extension (some s) = some (record {
  ltw = none;
  piecewise_rate = none;
  seamless_splice = some (s.splice_type, s.dts_next_au);
})

-- The packets from here on, if a signed countdown can count them.
unfoldable pub start_run :
    Option AdaptationFieldExtensionSpec → AdaptationFieldSpec → ℕ → Outcome (Option ℕ)
start_run ext spec remaining = do
  here ← encode (record spec { splice_countdown = some (pos 0); extension = ext }) none
  cont ← encode (record empty_spec { splice_countdown = some (pos 0); extension = ext }) none
  cap_here ← sub_usize 184 (length here)
  cap_cont ← sub_usize 184 (length cont)
  n ← packets_needed remaining cap_here cap_cont
  ok (if leb n 128 then some n else none)

-- `-x` on an `i8`.
unfoldable pub negate_i8 : ℤ → Outcome ℤ
negate_i8 (pos zero) = ok (pos 0)
negate_i8 (pos (suc n)) = ok (negsuc n)
negate_i8 (negsuc n) = if n == 127 then panic else ok (pos (n + 1))

-- The countdown of the packets before the splicing point.
unfoldable pub annotate_run :
    Option AdaptationFieldExtensionSpec
    → AdaptationFieldSpec
    → Option ℕ
    → Outcome (AdaptationFieldSpec × Option ℕ)
annotate_run ext spec none = ok (spec, none)
annotate_run ext spec (some n) = do
  left ← sub_usize n 1
  ok (record spec { splice_countdown = some (as_i8 (low_bits left 8)); extension = ext }, some left)

unfoldable pub run_of :
    Option AdaptationFieldExtensionSpec → AdaptationFieldSpec → Option ℕ → ℕ → Outcome (Option ℕ)
run_of ext spec none remaining = start_run ext spec remaining
run_of ext spec (some n) remaining = ok (some n)

-- The negative countdown behind it.
unfoldable pub annotate_post :
    AdaptationFieldSpec → Option (ℕ × ℕ) → Outcome (AdaptationFieldSpec × Option (ℕ × ℕ))
annotate_post spec none = ok (spec, none)
annotate_post spec (some (next, total)) = do
  countdown ← negate_i8 (as_i8 next)
  ok (
    record spec { splice_countdown = some countdown },
    if ltb next total then some (next + 1, total) else none,
  )

-- Both, on the run and the state.
unfoldable pub annotate :
    Option SpliceSpec
    → AdaptationFieldSpec
    → Option ℕ
    → WriterState
    → ℕ
    → Outcome (AdaptationFieldSpec × Option ℕ × WriterState)
annotate none spec run s remaining = do
  (annotated, post) ← annotate_post spec s.post_splice
  ok (annotated, run, record s { post_splice = post })
annotate (some splice) spec run s remaining = do
  let ext = seamless_extension splice.seamless
  current ← run_of ext spec run remaining
  (annotated, left) ← annotate_run ext spec current
  ok (annotated, left, s)

-- The packet, filled with stuffing or with payload, and what is left of the PES packet.
unfoldable pub packet_bytes :
    Bool → ℕ → ℕ → AdaptationFieldSpec → List ℕ → Outcome (List ℕ × List ℕ)
packet_bytes start pid cc spec rest =
    if not (is_empty spec) || ltb (length rest) 184
    then (do
      bare ← encode spec none
      room ← sub_usize 184 (length bare)
      af ← if ltb (length rest) room then encode spec (some (184 - length rest)) else ok bare
      let n = min (184 - length af) (length rest)
      ok (
        header_bytes start pid 3 cc
            ++ (af ++ (take n rest ++ replicate (184 - length af - n) 0xFF)),
        drop n rest,
      ))
    else ok (header_bytes start pid 1 cc ++ take 184 rest, drop 184 rest)

-- `while cursor < pes.len()`, on what is left. Without fuel it would panic.
unfoldable pub write_loop :
    ℕ
    → ℕ
    → Option (ℕ × ℕ)
    → Bool
    → Option SpliceSpec
    → Bool
    → Option ℕ
    → WriterState
    → List ℕ
    → Outcome (List (List ℕ) × WriterState)
write_loop fuel pid pcr random_access splice first run s [] = ok ([], s)
write_loop zero pid pcr random_access splice first run s (b ∷ bs) = panic
write_loop (suc fuel) pid pcr random_access splice first run s (b ∷ bs) = do
  let pcr_here = if first then pcr else none
  let spec = record empty_spec {
    random_access_indicator = first && random_access;
    pcr = pcr_here;
    discontinuity_indicator = is_some pcr_here && s.pending_discontinuity;
  }
  let taken = record s { pending_discontinuity = not (is_some pcr_here) && s.pending_discontinuity }
  (annotated, left, next) ← annotate splice spec run taken (length (b ∷ bs))
  (packet, rest) ← packet_bytes first pid s.cc annotated (b ∷ bs)
  (packets, end) ←
      write_loop fuel pid pcr random_access splice false left
        (record next { cc = low_bits (s.cc + 1) 4 }) rest
  ok (packet ∷ packets, end)

-- `write_pes_bytes_as_ts`: the packets in the order in which they are emitted. The track's state is
-- that of an `Ok`; an `Err` ends the muxing.
unfoldable pub write_pes_bytes_as_ts :
    ℕ
    → List ℕ
    → Option (ℕ × ℕ)
    → Bool
    → Option SpliceSpec
    → WriterState
    → Outcome (List (List ℕ) × WriterState)
write_pes_bytes_as_ts pid pes pcr random_access none s =
    write_loop (length pes) pid pcr random_access none true none s pes
write_pes_bytes_as_ts pid pes pcr random_access (some splice) s = do
  (packets, end) ←
      write_loop (length pes) pid pcr random_access (some splice) true none
        (record s { post_splice = none }) pes
  ok (
    packets,
    if ltb 0 splice.post_splice_packets
        then record end { post_splice = some (1, splice.post_splice_packets) }
        else end,
  )
