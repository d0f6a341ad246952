-- ===== src/Clock/Tests.antt =====
-- src/clock.rs: examples on concrete clocks.
use oxideav_mpegts.Base.{
  ℕ, ◌+◌, ◌-◌, ◌*◌, ◌/◌, ◌%◌, ◌^◌, ◌≤◌, ◌≡◌, refl, true, false, some, List, [], ◌∷◌, map, arith,
}
use oxideav_mpegts.Base.Int.{pos, pos_part, neg_part, ◌-ℤ◌}
use oxideav_mpegts.Packet.Field.{AdaptationField, empty_field}
use oxideav_mpegts.Clock.Continuity
use oxideav_mpegts.Clock.Timestamps
use oxideav_mpegts.Clock.Recovery
use oxideav_mpegts.Clock.Recovery.Laws
use oxideav_mpegts.Clock.Pcr.{
  Pcr, IsPcr, advance, from_base_ext, from_ticks_27mhz, base_90khz, extension, delta_ticks,
  pcr_modulus_27mhz, from_base_ext-parts, delta_ticks-laws,
}
use oxideav_mpegts.Clock.Continuity.{
  behind, verdict, observe-lost, observe_each-unbroken, unbroken, calm,
}
use oxideav_mpegts.Clock.Timestamps.{
  PtsTracker, seed, unwrap, raw_of, timestamp_modulus, abs_diff, extend_near, extend_near-nearest,
  extend_near-recovers, unwrap-seed,
}
use oxideav_mpegts.Clock.Recovery.{
  PcrTracker, PcrEvent, sample, discontinuity, signalled, with_jitter_window, compute_bitrate_bps,
  reference_of,
}
use oxideav_mpegts.Clock.Recovery.Laws.{
  IsBitrate, placed, samples, Steady, observe_each-signalled, observe_each-constant_rate,
}

from_base_ext-parts_example :
    (base_90khz (from_base_ext (2 ^ 33 + 5) 307) ≡ (2 ^ 33 + 5) % 2 ^ 33)
    × (extension (from_base_ext (2 ^ 33 + 5) 307) ≡ 307 % 300)
    × IsPcr (from_base_ext (2 ^ 33 + 5) 307)
    × (from_base_ext
          (base_90khz (record { ticks_27mhz = 1234 }))
          (extension (record { ticks_27mhz = 1234 }))
        ≡ record { ticks_27mhz = 1234 })
from_base_ext-parts_example =
    from_base_ext-parts (2 ^ 33 + 5) 307 (record { ticks_27mhz = 1234 }) (omega arith)

abbrev early : Pcr
early = record { ticks_27mhz = 100 }

abbrev late : Pcr
late = record { ticks_27mhz = 2576980377500 }

delta_ticks-laws_example :
    ((late.ticks_27mhz + pos_part (delta_ticks early late)) % pcr_modulus_27mhz
      ≡ (early.ticks_27mhz + neg_part (delta_ticks early late)) % pcr_modulus_27mhz)
    × (pos_part (delta_ticks early late) ≤ pcr_modulus_27mhz / 2)
    × (neg_part (delta_ticks early late) ≤ pcr_modulus_27mhz / 2)
    × (delta_ticks late early ≡ pos 0 -ℤ delta_ticks early late)
delta_ticks-laws_example = delta_ticks-laws early late (omega arith) (omega arith)

observe-lost_example :
    (Continuity.observe (behind 7 false) (7 + 1 + 3) true false).0 ≡ verdict 3 false
observe-lost_example = observe-lost 7 3 false

observe_each-unbroken_example :
    (Continuity.observe_each (behind 15 true) (unbroken 15 (true ∷ false ∷ true ∷ []))).0
    ≡ map calm (true ∷ false ∷ true ∷ [])
observe_each-unbroken_example = observe_each-unbroken 15 true (true ∷ false ∷ true ∷ [])

extend_near-nearest_example :
    (extend_near 5 (3 * 2 ^ 33) % timestamp_modulus ≡ 5 % timestamp_modulus)
    × (abs_diff (extend_near 5 (3 * 2 ^ 33)) (3 * 2 ^ 33) ≤ abs_diff (2 ^ 33 + 5) (3 * 2 ^ 33))
extend_near-nearest_example = extend_near-nearest 5 (3 * 2 ^ 33) (2 ^ 33 + 5) (omega arith) refl

extend_near-recovers_example :
    extend_near ((2 ^ 33 + 5) % timestamp_modulus) (2 ^ 33 - 7) ≡ 2 ^ 33 + 5
extend_near-recovers_example =
    extend_near-recovers (2 ^ 33 + 5) (2 ^ 33 - 7) (omega arith) (omega arith)

unwrap-seed_example :
    unwrap (seed Timestamps.new (2 ^ 33)) (map raw_of ((2 ^ 33 - 10) ∷ (2 ^ 33 + 10) ∷ []))
    ≡ map some ((2 ^ 33 - 10) ∷ (2 ^ 33 + 10) ∷ [])
unwrap-seed_example =
    unwrap-seed Timestamps.new (2 ^ 33 - 10) (2 ^ 33) ((2 ^ 33 + 10) ∷ []) (omega arith)
      (omega arith) (omega arith) (omega arith, omega arith, omega arith, tt)

abbrev flagged : AdaptationField
flagged = record (empty_field []) { discontinuity_indicator = true }

abbrev stamped : ℕ → AdaptationField
stamped base = record (empty_field []) { pcr_base = some base; pcr_extension = some 0 }

observe_each-signalled_example :
    (Recovery.observe
      (Laws.observe_each (with_jitter_window 9) ((flagged, 0) ∷ (empty_field [], 188) ∷ [])).1
      (stamped 6)
      376).0
    ≡ some (discontinuity (from_base_ext 6 0) signalled)
observe_each-signalled_example =
    observe_each-signalled (with_jitter_window 9) flagged 0 ((empty_field [], 188) ∷ []) (stamped 6)
      376 (from_base_ext 6 0) refl refl (refl, tt) refl

abbrev three : List AdaptationField
three = stamped 5 ∷ stamped 6 ∷ stamped 7 ∷ []

three-Steady : Steady (from_base_ext 5 0) 300 three
unfolding from_base_ext from_ticks_27mhz
three-Steady = (refl, refl, (refl, refl, (refl, refl, tt)))

base_5-IsPcr : IsPcr (from_base_ext 5 0)
unfolding from_base_ext
base_5-IsPcr = omega arith

observe_each-constant_rate_example :
    (rate : ℕ) × IsBitrate rate 376 300
    × ((Laws.observe_each (with_jitter_window 9) (placed 0 376 three)).0
        ≡ some (sample (from_base_ext 5 0) (pos 0) 0)
          ∷ samples (advance (from_base_ext 5 0) 300) 300 rate (stamped 6 ∷ stamped 7 ∷ []))
observe_each-constant_rate_example =
    observe_each-constant_rate 9 (from_base_ext 5 0) 0 300 376 (stamped 5) (stamped 6)
      (stamped 7 ∷ []) base_5-IsPcr (omega arith) (omega arith) (omega arith) (omega arith)
      three-Steady
