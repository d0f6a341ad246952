-- ===== src/Clock/Recovery.antt =====
-- src/clock.rs: `PcrTracker`. A method returns its event together with the state it leaves. The
-- product of the prediction is computed without overflow, as the source does on `i128`; the cast
-- of its quotient to `i64`, and the subtraction that makes the jitter, wrap as in a release build.
pub mod Laws
use oxideav_mpegts.Base.{
  ℕ, zero, suc, ◌+◌, ◌-◌, ◌*◌, ◌/◌, ◌%◌, ◌^◌, ◌≤◌, ◌<◌, min, max, String, ◌≡◌, refl, sym, ap, subst,
  ◌∙◌, ◌≢◌, ◌↔◌, ◌⊎◌, inl, inr, Bool, true, false, not, ◌&&◌, ◌||◌, Option, none, some, List, [],
  ◌∷◌, ◌++◌, map, append_assoc, append-nil, arith, ltb, leb, ◌==◌, if◌then◌else◌, ltb→lt, lt→ltb,
  leb→le, le→leb, lt→leb_false, le→ltb_false, ==_iff, Bool-cases, Option-cases, is_some, is_none,
  length, get_elem?, get_or, take, drop, replicate, All, length-append, length-take, length-drop,
  length-replicate, take-append-drop, take-append_length, drop-append_length, take_all,
  get_elem?-get_or, All-append, All-take, All-drop, All-get_or, All-replicate, IsByte, IsBytes,
  ◌>>>◌, ◌<<<◌, low_bits, flag, bit_of, be16, be32, Within, byte_at-IsByte, TsError, Outcome, ◌>>=◌,
  ◌>>◌, fail_if, index, slice, sub_usize, checked_add, Ensures, Ensures-bind, Ensures-weaken,
  Ensures-ok, Ensures-ne_panic, byte_at, index-ok, slice-ok, sub_usize-ok, truncated_from,
  truncated_from-err, add_or_truncated, add_or_truncated-ok, >>=-eq_ok, >>-eq_ok, fail_if-eq_ok,
  slice_front, slice_back, add_or_overrun, add_or_overrun-ok, take_counted, truncated,
  bad_sync_byte, section_length_overrun, psi_crc_mismatch, bad_pes_start_code, unsupported,
  invalid_field, ok, err, panic,
}
use oxideav_mpegts.Base.Int.{ℤ, pos, negsuc, scale, unsigned_abs, ◌-ℤ◌}
use oxideav_mpegts.Packet.Field.{AdaptationField}
use oxideav_mpegts.Clock.Pcr.{Pcr, from_base_ext, delta_ticks}

pub data DiscontinuityReason : Type 0 where
  signalled : DiscontinuityReason
  jump_exceeds_tolerance : (observed_delta predicted_delta : ℤ) → DiscontinuityReason

pub data PcrEvent : Type 0 where
  sample : (pcr : Pcr) (jitter_27mhz : ℤ) (bitrate_bps : ℕ) → PcrEvent
  discontinuity : (pcr : Pcr) (reason : DiscontinuityReason) → PcrEvent

pub record PcrTracker : Type 0 where
  pub max_jitter_27mhz : ℕ
  pub last : Option (Pcr × ℕ)
  pub prev : Option (Pcr × ℕ)
  pub pending_signalled_discontinuity : Bool

abbrev pub with_jitter_window : ℕ → PcrTracker
with_jitter_window max_jitter = record {
  max_jitter_27mhz = max_jitter;
  last = none;
  prev = none;
  pending_signalled_discontinuity = false;
}

abbrev pub new : PcrTracker
new = with_jitter_window 2700000

abbrev pub reset : PcrTracker → PcrTracker
reset s = record s { last = none; prev = none; pending_signalled_discontinuity = false }

-- An integer in the range of `i64`, modulo 2^64.
unfoldable pub wrap_i64 : ℤ → ℤ
wrap_i64 (pos n) = let r = n % 2 ^ 64 in if ltb r (2 ^ 63) then pos r else negsuc (2 ^ 64 - 1 - r)
wrap_i64 (negsuc n) =
    let r = n % 2 ^ 64 in if ltb r (2 ^ 63) then negsuc r else pos (2 ^ 64 - 1 - r)

unfoldable pub compute_bitrate_bps : ℤ → ℕ → ℕ
compute_bitrate_bps (negsuc n) delta_bytes = 0
compute_bitrate_bps (pos n) delta_bytes =
    if n == 0 || delta_bytes == 0 then 0 else delta_bytes * 8 * 27000000 / n % 2 ^ 64

-- `self.prev = self.last; self.last = Some((pcr, byte_offset))`.
abbrev pub shifted : PcrTracker → Pcr → ℕ → PcrTracker
shifted s pcr byte_offset = record s { last = some (pcr, byte_offset); prev = s.last }

-- `self.last = Some((pcr, byte_offset)); self.prev = None`.
abbrev pub rebased : PcrTracker → Pcr → ℕ → PcrTracker
rebased s pcr byte_offset = record s { last = some (pcr, byte_offset); prev = none }

abbrev pub predicted : Pcr × ℕ → Pcr × ℕ → ℕ → ℤ
predicted (prev_pcr, prev_off) (last_pcr, last_off) byte_offset =
    wrap_i64
      (scale (delta_ticks last_pcr prev_pcr) (byte_offset - last_off) (max (last_off - prev_off) 1))

-- The third and later clock references.
unfoldable pub observe_third : PcrTracker → Pcr × ℕ → Pcr × ℕ → Pcr → ℕ → PcrEvent × PcrTracker
observe_third s before latest pcr byte_offset =
    let predicted_delta = predicted before latest byte_offset in
    let observed_delta = delta_ticks pcr latest.0 in
    let jitter = wrap_i64 (observed_delta -ℤ predicted_delta) in
    if ltb s.max_jitter_27mhz (unsigned_abs jitter)
    then (
      discontinuity pcr (jump_exceeds_tolerance observed_delta predicted_delta),
      rebased s pcr byte_offset,
    )
    else (
      sample pcr jitter (compute_bitrate_bps observed_delta (byte_offset - latest.1)),
      shifted s pcr byte_offset,
    )

-- The match on what was seen before.
unfoldable pub observe_pcr :
    PcrTracker → Option (Pcr × ℕ) → Option (Pcr × ℕ) → Pcr → ℕ → PcrEvent × PcrTracker
unfolding observe_third
observe_pcr s none none pcr byte_offset = (sample pcr (pos 0) 0, shifted s pcr byte_offset)
observe_pcr s none (some latest) pcr byte_offset = (
  sample pcr (pos 0) (compute_bitrate_bps (delta_ticks pcr latest.0) (byte_offset - latest.1)),
  shifted s pcr byte_offset,
)
observe_pcr s (some before) (some latest) pcr byte_offset =
    observe_third s before latest pcr byte_offset
observe_pcr s (some before) none pcr byte_offset = (sample pcr (pos 0) 0, shifted s pcr byte_offset)

-- A packet with a clock reference.
unfoldable pub observe_reference : PcrTracker → Pcr → ℕ → PcrEvent × PcrTracker
unfolding observe_pcr
observe_reference s pcr byte_offset =
    if s.pending_signalled_discontinuity
    then (
      discontinuity pcr signalled,
      rebased (record s { pending_signalled_discontinuity = false }) pcr byte_offset,
    )
    else observe_pcr s s.prev s.last pcr byte_offset

abbrev pub reference_of : Option ℕ → Option ℕ → Option Pcr
reference_of (some base) (some ext) = some (from_base_ext base ext)
reference_of (some base) none = none
reference_of none ext = none

abbrev pub with_event : PcrEvent × PcrTracker → Option PcrEvent × PcrTracker
with_event (e, s) = (some e, s)

unfoldable pub observe : PcrTracker → AdaptationField → ℕ → Option PcrEvent × PcrTracker
unfolding observe_reference
observe s af byte_offset =
    let noted : PcrTracker =
      if af.discontinuity_indicator
      then record s { pending_signalled_discontinuity = true }
      else s in
    elim (reference_of af.pcr_base af.pcr_extension) [
      | none ↦ (none, noted)
      | some pcr ↦ with_event (observe_reference noted pcr byte_offset)
    ]
