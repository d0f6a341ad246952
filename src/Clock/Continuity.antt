-- ===== src/Clock/Continuity.antt =====
-- src/clock.rs: `ContinuityTracker`. A method returns its event together with the state it leaves.
use oxideav_mpegts.Base.{
  ℕ, ◌+◌, ◌-◌, ◌%◌, max, ◌≡◌, refl, Bool, true, false, not, ◌&&◌, Option, none, some, List, [], ◌∷◌,
  map, arith, ◌==◌, if◌then◌else◌, low_bits,
}

pub data ContinuityEvent : Type 0 where
  continuous : ContinuityEvent
  duplicate : ContinuityEvent
  no_payload : ContinuityEvent
  dropped : (gap : ℕ) → ContinuityEvent
  discontinuity : ContinuityEvent

pub record ContinuityTracker : Type 0 where
  pub last_payload_cc : Option ℕ
  pub duplicate_already_seen : Bool

abbrev pub new : ContinuityTracker
new = record { last_payload_cc = none; duplicate_already_seen = false }

abbrev pub reset : ContinuityTracker → ContinuityTracker
reset s = record { last_payload_cc = none; duplicate_already_seen = false }

-- A packet with payload behind one with the counter `prev`.
unfoldable pub observe_next : ContinuityTracker → ℕ → ℕ → ContinuityEvent × ContinuityTracker
observe_next s prev cc =
    let expected = low_bits (prev + 1) 4 in
    let anchored : ContinuityTracker = record {
      last_payload_cc = some cc;
      duplicate_already_seen = false;
    } in
    if cc == expected
    then (continuous, anchored)
    else (if cc == prev && not s.duplicate_already_seen
        then (duplicate, record s { duplicate_already_seen = true })
        else (dropped (max (low_bits ((cc + 256 - expected) % 256) 4) 1), anchored))

unfoldable pub observe : ContinuityTracker → ℕ → Bool → Bool → ContinuityEvent × ContinuityTracker
unfolding observe_next
observe s cc has_payload true = (
  discontinuity,
  record {
    last_payload_cc = if has_payload then some (low_bits cc 4) else none;
    duplicate_already_seen = false;
  },
)
observe s cc false false = (no_payload, s)
observe s cc true false = elim s.last_payload_cc [
  | none ↦ (
    continuous,
    record { last_payload_cc = some (low_bits cc 4); duplicate_already_seen = false },
  )
  | some prev ↦ observe_next s prev (low_bits cc 4)
]

-- The tracker behind a packet with payload that was the `n`-th of its PID.
abbrev pub behind : ℕ → Bool → ContinuityTracker
behind n seen = record { last_payload_cc = some (n % 16); duplicate_already_seen = seen }

-- What the tracker makes of the packet of a PID that comes `lost` packets too late.
abbrev pub verdict : ℕ → Bool → ContinuityEvent
verdict lost seen =
    if lost % 16 == 0
    then continuous
    else (if lost % 16 == 15 && not seen then duplicate else dropped (lost % 16))

-- When `lost` packets with payload are missing between packet `n` of a PID and the next one that
-- arrives, the event is `continuous` where the number is a multiple of 16, `duplicate` where it
-- is one less than such a multiple and no duplicate of packet `n` was seen, and otherwise it is
-- `dropped` with the number lost modulo 16.
pub observe-lost :
    (n lost : ℕ) (seen : Bool)
    → (observe (behind n seen) (n + 1 + lost) true false).0 ≡ verdict lost seen
unfolding observe
observe-lost n lost seen = ground arith

-- `observe` on a sequence of packets: the events in order.
unfoldable pub observe_each :
    ContinuityTracker → List (ℕ × Bool × Bool) → List ContinuityEvent × ContinuityTracker
observe_each s [] = ([], s)
observe_each s ((cc, has_payload, indicator) ∷ packets) =
    let step = observe s cc has_payload indicator in
    let rest = observe_each step.1 packets in (step.0 ∷ rest.0, rest.1)

-- The packets of a PID behind packet `n`, from which ones carry payload: the counter counts these.
abbrev pub unbroken : ℕ → List Bool → List (ℕ × Bool × Bool)
unbroken n [] = []
unbroken n (true ∷ flags) = ((n + 1) % 16, true, false) ∷ unbroken (n + 1) flags
unbroken n (false ∷ flags) = (n % 16, false, false) ∷ unbroken n flags

abbrev pub calm : Bool → ContinuityEvent
calm true = continuous
calm false = no_payload

-- Along packets of a PID of which none is lost, repeated or flagged, with and without payload in
-- any order, every packet with payload is `continuous` and every other one is `no_payload`.
pub observe_each-unbroken :
    (n : ℕ) (seen : Bool) (flags : List Bool)
    → (observe_each (behind n seen) (unbroken n flags)).0 ≡ map calm flags
unfolding observe_each observe
observe_each-unbroken n seen [] = refl
observe_each-unbroken n seen (true ∷ flags) =
    let step : observe (behind n seen) ((n + 1) % 16) true false
        ≡ (continuous, behind (n + 1) false) =
      ground arith in
    rw (step, observe_each-unbroken (n + 1) false flags)
observe_each-unbroken n seen (false ∷ flags) = rw (observe_each-unbroken n seen flags)
