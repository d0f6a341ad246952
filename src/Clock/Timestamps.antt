-- ===== src/Clock/Timestamps.antt =====
-- src/clock.rs: `PtsTracker`, `nearest_epoch` and `extend_near`. Where the source adds and
-- multiplies on `u64`, the wrap-around of a release build is written out.
use oxideav_mpegts.Base.{
  ℕ, ◌+◌, ◌-◌, ◌*◌, ◌/◌, ◌%◌, ◌^◌, ◌≤◌, ◌<◌, ◌≡◌, refl, ap, Option, none, some, List, [], ◌∷◌, map,
  arith, ltb, leb, ◌==◌, if◌then◌else◌,
}

abbrev pub timestamp_modulus : ℕ
timestamp_modulus = 2 ^ 33

abbrev pub wrap_threshold : ℕ
wrap_threshold = 2 ^ 33 / 2

pub data TimestampEvent : Type 0 where
  first : TimestampEvent
  forward : TimestampEvent
  wrapped : TimestampEvent
  backward : TimestampEvent

pub record PtsTracker : Type 0 where
  pub wrap_count : ℕ
  pub last_raw : Option ℕ
  pub seed_hint : Option ℕ

abbrev pub new : PtsTracker
new = record { wrap_count = 0; last_raw = none; seed_hint = none }

abbrev pub reset : PtsTracker → PtsTracker
reset s = record { wrap_count = 0; last_raw = none; seed_hint = none }

abbrev pub seed : PtsTracker → ℕ → PtsTracker
seed s extended_hint = record (reset s) { seed_hint = some extended_hint }

abbrev pub abs_diff : ℕ → ℕ → ℕ
abs_diff a b = (a - b) + (b - a)

-- One candidate of the loop of `nearest_epoch`, against the best one so far.
unfoldable pub nearer : ℕ → ℕ → ℕ → ℕ × ℕ → ℕ × ℕ
nearer raw hint k (best_k, best_d) =
    let d = abs_diff ((k * timestamp_modulus + raw) % 2 ^ 64) hint in
    if ltb d best_d then (k, d) else (best_k, best_d)

unfoldable pub nearest_epoch : ℕ → ℕ → ℕ
unfolding nearer
nearest_epoch raw hint =
    let base = hint / timestamp_modulus in
    (nearer raw hint (base + 1)
      (nearer raw hint base (nearer raw hint (base - 1) (0, 2 ^ 64 - 1)))).0

unfoldable pub extend_near : ℕ → ℕ → ℕ
unfolding nearest_epoch
extend_near raw_timestamp reference =
    let raw = raw_timestamp % timestamp_modulus in
    (nearest_epoch raw reference * timestamp_modulus + raw) % 2 ^ 64

-- The method `extended`.
abbrev pub extended : PtsTracker → Option ℕ
extended s = elim s.last_raw [
  | none ↦ none
  | some raw ↦ some ((s.wrap_count * timestamp_modulus + raw) % 2 ^ 64)
]

-- `observe` behind a raw timestamp `prev`.
unfoldable pub observe_next : PtsTracker → ℕ → ℕ → TimestampEvent × PtsTracker
observe_next s prev raw =
    let moved : PtsTracker = record s { last_raw = some raw } in
    if leb prev raw
    then (if ltb wrap_threshold (raw - prev)
        then (backward, record moved { wrap_count = 0 })
        else (forward, moved))
    else (if ltb wrap_threshold (prev - raw)
        then (wrapped, record moved { wrap_count = (s.wrap_count + 1) % 2 ^ 64 })
        else (backward, record moved { wrap_count = 0 }))

-- `observe` where no timestamp was seen before.
unfoldable pub observe_first : PtsTracker → ℕ → TimestampEvent × PtsTracker
unfolding nearest_epoch
observe_first s raw =
    let epoch : ℕ = elim s.seed_hint [ none ↦ s.wrap_count | some hint ↦ nearest_epoch raw hint ] in
    (first, record s { wrap_count = epoch; last_raw = some raw; seed_hint = none })

unfoldable pub observe : PtsTracker → ℕ → TimestampEvent × PtsTracker
unfolding observe_next observe_first
observe s raw_timestamp =
    let raw = raw_timestamp % timestamp_modulus in
    elim s.last_raw [ none ↦ observe_first s raw | some prev ↦ observe_next s prev raw ]

-- The tracker that has unwrapped the time `t`.
abbrev pub at_time : ℕ → PtsTracker
at_time t = record {
  wrap_count = t / timestamp_modulus;
  last_raw = some (t % timestamp_modulus);
  seed_hint = none;
}

-- When the time advances from `t` to `u` by less than half the modulus, `observe` stores the time
-- `u`, and reports `wrapped` exactly where it lies in another wrap epoch than `t`.
pub observe-at_time :
    (t u : ℕ)
    → t ≤ u
    → u < t + wrap_threshold
    → u < 2 ^ 64
    → observe (at_time t) u
      ≡ (if t / timestamp_modulus == u / timestamp_modulus then forward else wrapped, at_time u)
unfolding observe observe_next
observe-at_time t u h k l = ground arith

extended-at_time : (t : ℕ) → t < 2 ^ 64 → extended (at_time t) ≡ some t
extended-at_time t h = ground arith

-- Against a reference below 2^64 - 2^33, the extension of a raw timestamp is congruent to it modulo
-- 2^33, and no time with this property is nearer to the reference.
pub extend_near-nearest :
    (raw reference t : ℕ)
    → reference < 2 ^ 64 - 2 ^ 33
    → t % timestamp_modulus ≡ raw % timestamp_modulus
    → (extend_near raw reference % timestamp_modulus ≡ raw % timestamp_modulus)
      × (abs_diff (extend_near raw reference) reference ≤ abs_diff t reference)
unfolding extend_near nearest_epoch nearer
extend_near-nearest raw reference t h e = ground arith

-- A time is recovered from its low 33 bits and any reference below 2^64 - 2^33 that is less than
-- half the modulus away.
pub extend_near-recovers :
    (t reference : ℕ)
    → reference < 2 ^ 64 - 2 ^ 33
    → abs_diff t reference < wrap_threshold
    → extend_near (t % timestamp_modulus) reference ≡ t
unfolding extend_near nearest_epoch nearer
extend_near-recovers t reference h k = ground arith

-- The first observation behind `seed`.
observe-seed :
    (s : PtsTracker) (t hint : ℕ)
    → hint < 2 ^ 64 - 2 ^ 33
    → abs_diff t hint < wrap_threshold
    → observe (seed s hint) (t % timestamp_modulus) ≡ (first, at_time t)
unfolding observe observe_first nearest_epoch nearer
observe-seed s t hint h k = ground arith

-- `observe` on a sequence of raw timestamps: the value of `extended` behind each.
unfoldable pub unwrap : PtsTracker → List ℕ → List (Option ℕ)
unwrap s [] = []
unwrap s (raw ∷ raws) = let t = (observe s raw).1 in extended t ∷ unwrap t raws

abbrev pub raw_of : ℕ → ℕ
raw_of t = t % timestamp_modulus

-- Times that never go back, and that advance by less than half the modulus at a step.
abbrev pub Advancing : ℕ → List ℕ → Type 0
Advancing t [] = Unit {0}
Advancing t (u ∷ us) = (t ≤ u) × (u < t + wrap_threshold) × (u < 2 ^ 64) × Advancing u us

observe-raw : (s : PtsTracker) (u : ℕ) → observe s (raw_of u) ≡ observe s u
unfolding observe
observe-raw s u =
    ap
      (λ raw. elim s.last_raw as (λ x. TimestampEvent × PtsTracker) [
        | none ↦ observe_first s raw
        | some prev ↦ observe_next s prev raw
      ])
      (omega arith)

unwrap-at_time :
    (t : ℕ) (us : List ℕ) → Advancing t us → unwrap (at_time t) (map raw_of us) ≡ map some us
unfolding unwrap
unwrap-at_time t [] h = refl
unwrap-at_time t (u ∷ us) (h, k, l, m) = rw (
  observe-raw (at_time t) u,
  observe-at_time t u h k l,
  extended-at_time u l,
  unwrap-at_time u us m,
)

-- From the low 33 bits of times that never go back and advance by less than half the modulus at a
-- step, the tracker restores the times themselves, however many wraps lie between them, once
-- `seed` gave it a hint (below 2^64 - 2^33) less than half the modulus away from the first one.
pub unwrap-seed :
    (s : PtsTracker) (t hint : ℕ) (us : List ℕ)
    → hint < 2 ^ 64 - 2 ^ 33
    → abs_diff t hint < wrap_threshold
    → t < 2 ^ 64
    → Advancing t us
    → unwrap (seed s hint) (map raw_of (t ∷ us)) ≡ map some (t ∷ us)
unfolding unwrap
unwrap-seed s t hint us h k l m =
    rw (observe-seed s t hint h k, extended-at_time t l, unwrap-at_time t us m)
