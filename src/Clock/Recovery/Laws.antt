-- ===== src/Clock/Recovery/Laws.antt =====
-- src/clock.rs: `PcrTracker` along a sequence of packets.
use oxideav_mpegts.Base.{
  ℕ, ◌+◌, ◌-◌, ◌*◌, ◌/◌, ◌^◌, ◌≤◌, ◌<◌, max, ◌≡◌, refl, inl, inr, true, false, Option, none, some,
  List, [], ◌∷◌, arith, le→ltb_false, Bool-cases, All,
}
use oxideav_mpegts.Base.Int.{pos, ◌-ℤ◌}
use oxideav_mpegts.Packet.Field.{AdaptationField}
use oxideav_mpegts.Clock.Pcr.{
  Pcr, IsPcr, advance, from_ticks_27mhz, pcr_modulus_27mhz, delta_ticks, delta_ticks-advance,
}
use oxideav_mpegts.Clock.Recovery.{
  PcrTracker, PcrEvent, sample, discontinuity, signalled, wrap_i64, compute_bitrate_bps, observe,
  with_jitter_window, shifted, rebased, with_event, observe_reference, observe_pcr, observe_third,
  reference_of,
}

-- `observe` on a sequence of packets, given with their byte offsets.
unfoldable pub observe_each :
    PcrTracker → List (AdaptationField × ℕ) → List (Option PcrEvent) × PcrTracker
observe_each s [] = ([], s)
observe_each s ((af, byte_offset) ∷ packets) =
    let step = observe s af byte_offset in
    let rest = observe_each step.1 packets in (step.0 ∷ rest.0, rest.1)

-- A packet without a clock reference.
abbrev pub IsSilent : AdaptationField × ℕ → Type 0
IsSilent (af, byte_offset) = reference_of af.pcr_base af.pcr_extension ≡ none

observe-silent :
    (s : PcrTracker) (af : AdaptationField) (byte_offset : ℕ)
    → reference_of af.pcr_base af.pcr_extension ≡ none
    → s.pending_signalled_discontinuity ≡ true
    → observe s af byte_offset ≡ (none, s)
unfolding observe
observe-silent s af byte_offset h k = ground arith

observe_each-silent :
    (s : PcrTracker) (silent : List (AdaptationField × ℕ))
    → All IsSilent silent
    → s.pending_signalled_discontinuity ≡ true
    → (observe_each s silent).1 ≡ s
unfolding observe_each
observe_each-silent s [] h k = refl
observe_each-silent s ((af, byte_offset) ∷ silent) (h, l) k =
    rw (observe-silent s af byte_offset h k, observe_each-silent s silent l k)

abbrev pending : PcrTracker → PcrTracker
pending s = record s { pending_signalled_discontinuity = true }

observe-flagged :
    (s : PcrTracker) (af : AdaptationField) (byte_offset : ℕ)
    → af.discontinuity_indicator ≡ true
    → reference_of af.pcr_base af.pcr_extension ≡ none
    → observe s af byte_offset ≡ (none, pending s)
unfolding observe
observe-flagged s af byte_offset h k = ground arith

observe-pending :
    (s : PcrTracker) (af : AdaptationField) (byte_offset : ℕ) (pcr : Pcr)
    → reference_of af.pcr_base af.pcr_extension ≡ some pcr
    → observe (pending s) af byte_offset ≡ (
      some (discontinuity pcr signalled),
      rebased (record s { pending_signalled_discontinuity = false }) pcr byte_offset,
    )
unfolding observe observe_reference
observe-pending s af byte_offset pcr h = elim (Bool-cases af.discontinuity_indicator) [
  | inl e ↦ rw (h, e, observe)
  | inr e ↦ rw (h, e, observe)
]

-- A discontinuity indicator on a packet without a clock reference is remembered: after any number
-- of further packets without one, the next packet with one is reported as a signalled
-- discontinuity, whatever its value and its own indicator.
pub observe_each-signalled :
    (s : PcrTracker) (flagged : AdaptationField) (here : ℕ) (silent : List (AdaptationField × ℕ))
    (af : AdaptationField) (byte_offset : ℕ) (pcr : Pcr)
    → flagged.discontinuity_indicator ≡ true
    → reference_of flagged.pcr_base flagged.pcr_extension ≡ none
    → All IsSilent silent
    → reference_of af.pcr_base af.pcr_extension ≡ some pcr
    → (observe (observe_each s ((flagged, here) ∷ silent)).1 af byte_offset).0
      ≡ some (discontinuity pcr signalled)
unfolding observe_each
observe_each-signalled s flagged here silent af byte_offset pcr h k l m = rw (
  observe-flagged s flagged here h k,
  observe_each-silent (pending s) silent l refl,
  observe-pending s af byte_offset pcr m,
)

-- Where the tracker stands on a stream of constant rate.
abbrev pub steady : ℕ → Pcr → ℕ → ℕ → ℕ → PcrTracker
steady window p here ticks bytes = record {
  max_jitter_27mhz = window;
  last = some (advance p ticks, here + bytes);
  prev = some (p, here);
  pending_signalled_discontinuity = false;
}

delta_ticks-steady :
    (p : Pcr) (ticks : ℕ)
    → IsPcr p
    → ticks < pcr_modulus_27mhz / 2
    → delta_ticks (advance p ticks) p ≡ pos ticks
delta_ticks-steady p ticks h k = (delta_ticks-advance p ticks h k).0

advance-IsPcr : (p : Pcr) (ticks : ℕ) → IsPcr (advance p ticks)
unfolding from_ticks_27mhz
advance-IsPcr p ticks = omega arith

-- `rate` is, rounded down, the bits per second of `bytes` bytes in `ticks` ticks of 27 MHz.
abbrev pub IsBitrate : (rate bytes ticks : ℕ) → Type 0
IsBitrate rate bytes ticks =
    (rate * ticks ≤ 8 * bytes * 27000000) × (8 * bytes * 27000000 < (rate + 1) * ticks)

div-IsFloor : (n d : ℕ) → 0 < d → (n / d * d ≤ n) × (n < (n / d + 1) * d)
div-IsFloor n d h = grind arith

div-lt : (n d w : ℕ) → n < w * d → n / d < w
div-lt n d w h = grind arith

compute_bitrate_bps-IsBitrate :
    (bytes ticks : ℕ)
    → 0 < bytes
    → 0 < ticks
    → 8 * bytes * 27000000 < 2 ^ 64 * ticks
    → IsBitrate (compute_bitrate_bps (pos ticks) bytes) bytes ticks
unfolding compute_bitrate_bps
compute_bitrate_bps-IsBitrate bytes ticks h k fits =
    let n = bytes * 8 * 27000000 in
    let small : n / ticks < 2 ^ 64 = div-lt n ticks (2 ^ 64) (omega arith) in
    ground (arith, div-IsFloor n ticks k)

mul-div : (a b : ℕ) → 0 < b → a * b / b ≡ a
mul-div a b h = grind arith

wrap_i64-pos : (n : ℕ) → n < 2 ^ 63 → wrap_i64 (pos n) ≡ pos n
unfolding wrap_i64
wrap_i64-pos n h = ground arith

cancelled : (n : ℕ) → pos n -ℤ pos n ≡ pos 0
unfolding ◌-ℤ◌
cancelled n = ground arith

observe_third-steady :
    (s : PcrTracker) (p : Pcr) (here ticks bytes : ℕ)
    → IsPcr p
    → ticks < pcr_modulus_27mhz / 2
    → 0 < bytes
    → let next = advance (advance p ticks) ticks in
      observe_third s (p, here) (advance p ticks, here + bytes) next (here + bytes + bytes) ≡ (
        sample next (pos 0) (compute_bitrate_bps (pos ticks) bytes),
        shifted s next (here + bytes + bytes),
      )
unfolding observe_third
observe_third-steady s p here ticks bytes h k l =
    let elapsed : here + bytes + bytes - (here + bytes) ≡ bytes = omega arith in
    let before : max (here + bytes - here) 1 ≡ bytes = omega arith in
    rw (
      delta_ticks-steady p ticks h k,
      delta_ticks-steady (advance p ticks) ticks (advance-IsPcr p ticks) k,
      elapsed,
      before,
      mul-div ticks bytes l,
      wrap_i64-pos ticks (omega arith),
      cancelled ticks,
      wrap_i64-pos 0 (omega arith),
      le→ltb_false s.max_jitter_27mhz 0 (omega arith),
    )

-- Packets with a clock reference each, the first `p` and the others `ticks` apart.
abbrev pub Steady : Pcr → ℕ → List AdaptationField → Type 0
Steady p ticks [] = Unit {0}
Steady p ticks (af ∷ afs) =
    (af.discontinuity_indicator ≡ false)
    × (reference_of af.pcr_base af.pcr_extension ≡ some p)
    × Steady (advance p ticks) ticks afs

abbrev pub placed : ℕ → ℕ → List AdaptationField → List (AdaptationField × ℕ)
placed here bytes [] = []
placed here bytes (af ∷ afs) = (af, here) ∷ placed (here + bytes) bytes afs

-- The events of these: no jitter and one bitrate.
abbrev pub samples : Pcr → ℕ → ℕ → List AdaptationField → List (Option PcrEvent)
samples p ticks rate [] = []
samples p ticks rate (af ∷ afs) =
    some (sample p (pos 0) rate) ∷ samples (advance p ticks) ticks rate afs

observe-plain :
    (s : PcrTracker) (af : AdaptationField) (byte_offset : ℕ) (pcr : Pcr)
    → s.pending_signalled_discontinuity ≡ false
    → af.discontinuity_indicator ≡ false
    → reference_of af.pcr_base af.pcr_extension ≡ some pcr
    → observe s af byte_offset ≡ with_event (observe_pcr s s.prev s.last pcr byte_offset)
unfolding observe observe_reference
observe-plain s af byte_offset pcr h k l = rw (l, k, h, observe, observe_reference)

observe_each-steady :
    (window : ℕ) (p : Pcr) (here ticks bytes : ℕ) (afs : List AdaptationField)
    → IsPcr p
    → ticks < pcr_modulus_27mhz / 2
    → 0 < bytes
    → Steady (advance (advance p ticks) ticks) ticks afs
    → (observe_each (steady window p here ticks bytes) (placed (here + bytes + bytes) bytes afs)).0
      ≡ samples (advance (advance p ticks) ticks) ticks (compute_bitrate_bps (pos ticks) bytes) afs
unfolding observe_each observe_pcr
observe_each-steady window p here ticks bytes [] h k l m = refl
observe_each-steady window p here ticks bytes (af ∷ afs) h k l (plain, reference, m) =
    let s = steady window p here ticks bytes in
    rw (
      observe-plain s af (here + bytes + bytes) (advance (advance p ticks) ticks) refl plain
          reference,
      observe_third-steady s p here ticks bytes h k l,
      observe_each-steady window (advance p ticks) (here + bytes) ticks bytes afs
          (advance-IsPcr p ticks) k l m,
    )

-- On a stream of constant rate, whose packets with a clock reference are `bytes` bytes and `ticks`
-- ticks apart (at least one, less than half the modulus), with no indicator set, and whose clock may wrap, a fresh
-- tracker of any window reports every packet as a sample without jitter: the first with the bitrate
-- 0 and every other one with the bits per second of the stream, rounded down. The bytes are at least
-- one, and the bits per second fit 64 bits.
pub observe_each-constant_rate :
    (window : ℕ) (p : Pcr) (here ticks bytes : ℕ) (first second : AdaptationField)
    (afs : List AdaptationField)
    → IsPcr p
    → ticks < pcr_modulus_27mhz / 2
    → 0 < ticks
    → 0 < bytes
    → 8 * bytes * 27000000 < 2 ^ 64 * ticks
    → Steady p ticks (first ∷ second ∷ afs)
    → (rate : ℕ) × IsBitrate rate bytes ticks
      × ((observe_each (with_jitter_window window) (placed here bytes (first ∷ second ∷ afs))).0
          ≡ some (sample p (pos 0) 0) ∷ samples (advance p ticks) ticks rate (second ∷ afs))
unfolding observe_each observe_pcr
observe_each-constant_rate window p here ticks bytes first second afs h k some_ticks l fits
      (plain, reference, (plain_2, reference_2, m)) =
    let fresh = with_jitter_window window in
    let one = shifted fresh p here in
    let elapsed : here + bytes - here ≡ bytes = omega arith in
    (
      compute_bitrate_bps (pos ticks) bytes,
      compute_bitrate_bps-IsBitrate bytes ticks l some_ticks fits,
      rw (
        observe-plain fresh first here p refl plain reference,
        observe-plain one second (here + bytes) (advance p ticks) refl plain_2 reference_2,
        delta_ticks-steady p ticks h k,
        elapsed,
        observe_each-steady window p here ticks bytes afs h k l m,
      ),
    )
