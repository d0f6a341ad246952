-- ===== src/Base/Bytes.antt =====
-- Bytes and machine words as numbers: shifts, masks of low bits, flags, big-endian fields.
use Prim.Native.Nat.{ℕ, ◌+◌, ◌*◌, ◌/◌, ◌%◌, ◌^◌, ◌<◌}
use mathlib.Core.Bool.{Bool, true, false}
use mathlib.Core.List.{List}
use oxideav_mpegts.Base.Tests.{◌==◌}
use mathlib.Core.Option.{Option, none, some}
use native.Mathlib.Omega.{arith}
use oxideav_mpegts.Base.Lists.{All, get_or, All-get_or}

abbrev pub IsByte : ℕ → Type 0
IsByte b = b < 256

-- `&[u8]`.
abbrev pub IsBytes : List ℕ → Type 0
IsBytes = All IsByte

-- `x >> k`.
infixl 69 ◌>>>◌ ◌<<<◌
abbrev pub ◌>>>◌ : ℕ → ℕ → ℕ
x >>> k = x / 2 ^ k

-- `x << k`, where no bit is lost. `|` of fields that share no bit is `+`: `Bits.bit_or_fields`.
abbrev pub ◌<<<◌ : ℕ → ℕ → ℕ
x <<< k = x * 2 ^ k

-- `x & (2^k - 1)`: `Bits.bit_and_mask`. With 8, 16 and 32 bits it is also the cast `as u8` and so on.
abbrev pub low_bits : ℕ → ℕ → ℕ
low_bits x k = x % 2 ^ k

-- `(x & (1 << k)) != 0`: `Bits.bit_and_flag`.
abbrev pub flag : ℕ → ℕ → Bool
flag x k = (x / 2 ^ k) % 2 == 1

-- `u8::from(b)`, and `b` as the bit of a flag.
abbrev pub bit_of : Bool → ℕ
bit_of true = 1
bit_of false = 0

-- `u16::from_be_bytes`.
abbrev pub be16 : ℕ → ℕ → ℕ
be16 hi lo = hi * 256 + lo

-- `u32::from_be_bytes`.
abbrev pub be32 : ℕ → ℕ → ℕ → ℕ → ℕ
be32 a b c d = ((a * 256 + b) * 256 + c) * 256 + d

-- An optional field that, when present, is below the bound.
abbrev pub Within : ℕ → Option ℕ → Type 0
Within n none = Unit {0}
Within n (some x) = x < n

pub byte_at-IsByte : (bs : List ℕ) (i : ℕ) → IsBytes bs → get_or bs i 0 < 256
byte_at-IsByte bs i h = All-get_or IsByte bs i 0 h (omega arith)
