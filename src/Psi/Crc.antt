-- ===== src/Psi/Crc.antt =====
-- src/psi.rs: `mpeg2_crc32`.
use oxideav_mpegts.Base.{
  ℕ, zero, suc, ◌^◌, ◌<◌, List, [], ◌∷◌, arith, if◌then◌else◌, IsBytes, ◌<<<◌, low_bits, flag,
}
use Prim.Native.Nat.{bit_xor}
use oxideav_mpegts.Base.Bits.{bit_xor-lt}

-- One of the eight inner rounds: `crc` is a `u32`, so `<<` drops the top bit.
unfoldable pub crc_bit : ℕ → ℕ
crc_bit crc =
    if flag crc 31 then bit_xor (low_bits (crc <<< 1) 32) 0x04C1_1DB7 else low_bits (crc <<< 1) 32

unfoldable pub crc_bits : ℕ → ℕ → ℕ
unfolding crc_bit
crc_bits zero crc = crc
crc_bits (suc n) crc = crc_bits n (crc_bit crc)

unfoldable pub crc_byte : ℕ → ℕ → ℕ
unfolding crc_bits
crc_byte crc b = crc_bits 8 (bit_xor crc (b <<< 24))

unfoldable pub crc_from : ℕ → List ℕ → ℕ
unfolding crc_byte
crc_from crc [] = crc
crc_from crc (b ∷ bs) = crc_from (crc_byte crc b) bs

unfoldable pub mpeg2_crc32 : List ℕ → ℕ
unfolding crc_from
mpeg2_crc32 bytes = crc_from 0xFFFF_FFFF bytes

crc_bit-lt : (crc : ℕ) → crc_bit crc < 2 ^ 32
unfolding crc_bit
crc_bit-lt crc =
    ground (arith, bit_xor-lt 32 (low_bits (crc <<< 1) 32) 0x04C1_1DB7 (omega arith) (omega arith))

crc_bits-lt : (n crc : ℕ) → crc < 2 ^ 32 → crc_bits n crc < 2 ^ 32
unfolding crc_bits
crc_bits-lt zero crc h = h
crc_bits-lt (suc n) crc h = crc_bits-lt n (crc_bit crc) (crc_bit-lt crc)

crc_byte-lt : (crc b : ℕ) → crc < 2 ^ 32 → b < 256 → crc_byte crc b < 2 ^ 32
unfolding crc_byte
crc_byte-lt crc b h k = crc_bits-lt 8 _ (bit_xor-lt 32 crc (b <<< 24) h (omega arith))

crc_from-lt : (crc : ℕ) (bs : List ℕ) → IsBytes bs → crc < 2 ^ 32 → crc_from crc bs < 2 ^ 32
unfolding crc_from
crc_from-lt crc [] h c = c
crc_from-lt crc (b ∷ bs) (hb, h) c = crc_from-lt (crc_byte crc b) bs h (crc_byte-lt crc b c hb)

-- The CRC fits the four bytes that carry it.
pub mpeg2_crc32-lt : (bs : List ℕ) → IsBytes bs → mpeg2_crc32 bs < 2 ^ 32
unfolding mpeg2_crc32
mpeg2_crc32-lt bs h = crc_from-lt 0xFFFF_FFFF bs h (omega arith)
