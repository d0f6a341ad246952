-- ===== src/Clock/Pcr.antt =====
-- src/clock.rs: `Pcr`. Its ticks lie below the modulus of 2^33 * 300, as the constructors leave
-- them, so that they and their differences fit an `i64`.
use oxideav_mpegts.Base.{ℕ, ◌+◌, ◌*◌, ◌/◌, ◌%◌, ◌^◌, ◌≤◌, ◌<◌, ◌≡◌, arith, if◌then◌else◌}
use oxideav_mpegts.Base.Int.{ℤ, pos, pos_part, neg_part, ◌+ℤ◌, ◌-ℤ◌, ltb_ℤ}

abbrev pub pcr_modulus_27mhz : ℕ
pcr_modulus_27mhz = 2 ^ 33 * 300

pub record Pcr : Type 0 where
  pub ticks_27mhz : ℕ

unfoldable pub from_base_ext : ℕ → ℕ → Pcr
from_base_ext base_90khz extension = record {
  ticks_27mhz = base_90khz % 2 ^ 33 * 300 + extension % 300;
}

unfoldable pub from_ticks_27mhz : ℕ → Pcr
from_ticks_27mhz ticks = record { ticks_27mhz = ticks % pcr_modulus_27mhz }

unfoldable pub base_90khz : Pcr → ℕ
base_90khz p = p.ticks_27mhz / 300

unfoldable pub extension : Pcr → ℕ
extension p = p.ticks_27mhz % 300

unfoldable pub delta_ticks : Pcr → Pcr → ℤ
delta_ticks p q =
    let half = pos (pcr_modulus_27mhz / 2) in
    let raw = pos p.ticks_27mhz -ℤ pos q.ticks_27mhz in
    if ltb_ℤ half raw
    then raw -ℤ pos pcr_modulus_27mhz
    else (if ltb_ℤ raw (pos 0 -ℤ half) then raw +ℤ pos pcr_modulus_27mhz else raw)

abbrev pub IsPcr : Pcr → Type 0
IsPcr p = p.ticks_27mhz < pcr_modulus_27mhz

-- The clock reference that `d` ticks after `p` shows.
abbrev pub advance : Pcr → ℕ → Pcr
advance p d = from_ticks_27mhz (p.ticks_27mhz + d)

-- The parts of a composed value are the base modulo 2^33 and the extension modulo 300, its ticks lie
-- below the modulus, and composing the parts of any value below the modulus gives it back.
pub from_base_ext-parts :
    (base ext : ℕ) (p : Pcr)
    → IsPcr p
    → (base_90khz (from_base_ext base ext) ≡ base % 2 ^ 33)
      × (extension (from_base_ext base ext) ≡ ext % 300)
      × IsPcr (from_base_ext base ext)
      × (from_base_ext (base_90khz p) (extension p) ≡ p)
unfolding from_base_ext base_90khz extension
from_base_ext-parts base ext p h = ground arith

-- For values below the modulus, the difference is congruent to that of the ticks, its magnitude is
-- at most half the modulus, and the difference the other way round is its negative.
pub delta_ticks-laws :
    (p q : Pcr)
    → IsPcr p
    → IsPcr q
    → let d = delta_ticks p q in
      ((q.ticks_27mhz + pos_part d) % pcr_modulus_27mhz
        ≡ (p.ticks_27mhz + neg_part d) % pcr_modulus_27mhz)
      × (pos_part d ≤ pcr_modulus_27mhz / 2)
      × (neg_part d ≤ pcr_modulus_27mhz / 2)
      × (delta_ticks q p ≡ pos 0 -ℤ d)
unfolding delta_ticks ◌+ℤ◌ ◌-ℤ◌
delta_ticks-laws p q h k = ground arith

-- The difference recovers any step of less than half the modulus, across the wrap of the clock too.
pub delta_ticks-advance :
    (p : Pcr) (d : ℕ)
    → IsPcr p
    → d < pcr_modulus_27mhz / 2
    → (delta_ticks (advance p d) p ≡ pos d) × (delta_ticks p (advance p d) ≡ pos 0 -ℤ pos d)
unfolding delta_ticks from_ticks_27mhz ◌+ℤ◌ ◌-ℤ◌
delta_ticks-advance p d h k = ground arith
