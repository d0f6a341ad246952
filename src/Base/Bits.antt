-- ===== src/Base/Bits.antt =====
-- The bit operations of the source in plain arithmetic, at every width: `&` with a mask of low
-- bits, `&` with one bit, and `|` of fields that share no bit.
use Prim.Native.Nat.{
  bit_xor, bit_xor-bitwise, differ, ℕ, zero, suc, ◌+◌, ◌-◌, ◌*◌, ◌/◌, ◌%◌, ◌^◌, ◌≤◌, ◌<◌, min, max,
  digits, bitwise, bit_and, bit_or, bit_and-bitwise, bit_or-bitwise,
}
use mathlib.Core.Path.{◌≡◌, refl, ap}
use native.Mathlib.Nat.{le_refl, pow-suc, one-le-pow, div-div-eq-div-mul}
use native.Mathlib.Omega.{arith}

-- The native operations are a recursion on binary digits that spends one unit of fuel at each digit.
-- Any fuel that is not below the first number gives the same digits.
module _ (rest : ℕ → ℕ) (digit : ℕ → ℕ → ℕ) where
  more_fuel :
      (fuel other x y : ℕ)
      → x ≤ other
      → x ≤ fuel
      → digits rest digit fuel x y ≡ digits rest digit other x y
  more_fuel (suc fuel) (suc other) (suc x) y small fits =
      rw (more_fuel fuel other (suc x / 2) (y / 2) (omega arith) (omega arith))
  more_fuel (suc fuel) (suc other) zero y small fits = refl
  more_fuel (suc fuel) zero zero y small fits = refl
  more_fuel (suc fuel) zero (suc x) y small fits = absurd (omega arith)
  more_fuel zero (suc other) zero y small fits = refl
  more_fuel zero (suc other) (suc x) y small fits = absurd (omega arith)
  more_fuel zero zero x y small fits = refl

  -- The lowest digit, and the others.
  bitwise-lowest :
      (x y : ℕ)
      → bitwise rest digit (suc x) y
        ≡ digit (suc x % 2) (y % 2) + 2 * bitwise rest digit (suc x / 2) (y / 2)
  bitwise-lowest x y =
      let half = suc x / 2 in
      omega (arith, more_fuel x half half (y / 2) (le_refl half) (omega arith))

bit_or-lowest : (x y : ℕ) → bit_or x y ≡ max (x % 2) (y % 2) + 2 * bit_or (x / 2) (y / 2)
bit_or-lowest zero y = simp bit_or-bitwise (omega arith)
bit_or-lowest (suc x) y = simp bit_or-bitwise (bitwise-lowest (λ t. t) max x y)

bit_and-lowest : (x y : ℕ) → bit_and x y ≡ min (x % 2) (y % 2) + 2 * bit_and (x / 2) (y / 2)
bit_and-lowest zero y = simp bit_and-bitwise (omega arith)
bit_and-lowest (suc x) y = simp bit_and-bitwise (bitwise-lowest (λ t. 0) min x y)

-- With 0 on the right, digit by digit, below a bound that the recursion counts down.
or_zero_below : (bound x : ℕ) → x ≤ bound → bit_or x 0 ≡ x
or_zero_below bound zero h = refl
or_zero_below zero (suc x) h = absurd (omega arith)
or_zero_below (suc bound) (suc x) h =
    omega (arith, or_zero_below bound (suc x / 2) (omega arith), bit_or-lowest (suc x) 0)

bit_or-zero : (x : ℕ) → bit_or x 0 ≡ x
bit_or-zero x = or_zero_below x x (le_refl x)

and_zero_below : (bound x : ℕ) → x ≤ bound → bit_and x 0 ≡ 0
and_zero_below bound zero h = refl
and_zero_below zero (suc x) h = absurd (omega arith)
and_zero_below (suc bound) (suc x) h =
    omega (arith, and_zero_below bound (suc x / 2) (omega arith), bit_and-lowest (suc x) 0)

bit_and-zero : (x : ℕ) → bit_and x 0 ≡ 0
bit_and-zero x = and_zero_below x x (le_refl x)

double-pow : (n k : ℕ) → 2 * (n * 2 ^ k) ≡ n * 2 ^ suc k
double-pow n k = let twice = ap (λ (power : ℕ). n * power) (pow-suc 2 k) in omega (arith, twice)

-- `(q << k) | r` is a sum when `r` fits `k` bits.
pub bit_or_fields : (k high low : ℕ) → low < 2 ^ k → bit_or (high * 2 ^ k) low ≡ high * 2 ^ k + low
bit_or_fields zero high low small = ground (arith, bit_or-zero high)
bit_or_fields (suc k) high low small =
    let halved = bit_or_fields k high (low / 2) (omega arith) in
    ground (arith, halved, double-pow high k, bit_or-lowest (high * 2 ^ suc k) low)

low_part : (k high low : ℕ) → low < 2 ^ k → bit_and (high * 2 ^ k + low) (2 ^ k - 1) ≡ low
low_part zero high low small = rw bit_and-zero (omega arith)
low_part (suc k) high low small =
    let halved = low_part k high (low / 2) (omega arith) in
    let whole = high * 2 ^ suc k + low in
    ground (arith, halved, pow-suc 2 k, double-pow high k, bit_and-lowest whole (2 ^ suc k - 1))

-- A mask of `k` low bits is the remainder by `2 ^ k`.
pub bit_and_mask : (k x : ℕ) → bit_and x (2 ^ k - 1) ≡ x % 2 ^ k
bit_and_mask k x = ground (arith, low_part k (x / 2 ^ k) (x % 2 ^ k), one-le-pow k 2)

-- A mask of the one bit `k` is that binary digit in its place.
pub bit_and_flag : (k a : ℕ) → bit_and a (2 ^ k) ≡ (a / 2 ^ k) % 2 * 2 ^ k
bit_and_flag zero a = omega (arith, bit_and-lowest a 1, bit_and-zero (a / 2))
bit_and_flag (suc k) a = ground (
  arith,
  bit_and-lowest a (2 ^ suc k),
  pow-suc 2 k,
  bit_and_flag k (a / 2),
  div-div-eq-div-mul a 2 (2 ^ k),
  double-pow (a / 2 ^ suc k % 2) k,
)

digits-lt :
    (f : ℕ → ℕ → ℕ)
    → ((x y : ℕ) → x < 2 → y < 2 → f x y < 2)
    → (n k a b : ℕ) → a < 2 ^ k
    → b < 2 ^ k
    → digits (λ y. y) f n a b < 2 ^ k
digits-lt f h zero k a b p q = q
digits-lt f h (suc n) k zero b p q = q
digits-lt f h (suc n) zero (suc a) b p q = absurd (omega arith)
digits-lt f h (suc n) (suc k) (suc a) b p q = omega (
  arith,
  pow-suc 2 k,
  h (suc a % 2) (b % 2) (omega arith) (omega arith),
  digits-lt f h n k (suc a / 2) (b / 2) (omega (arith, pow-suc 2 k)) (omega (arith, pow-suc 2 k)),
)

differ-lt : (x y : ℕ) → x < 2 → y < 2 → differ x y < 2
differ-lt zero y h k = k
differ-lt (suc x) zero h k = h
differ-lt (suc zero) (suc y) h k = omega arith
differ-lt (suc (suc x)) (suc y) h k = absurd (omega arith)

-- `^` of two numbers of `k` bits has `k` bits.
pub bit_xor-lt : (k a b : ℕ) → a < 2 ^ k → b < 2 ^ k → bit_xor a b < 2 ^ k
bit_xor-lt k a b p q = rw (bit_xor-bitwise a b) (digits-lt _ differ-lt a k a b p q)
