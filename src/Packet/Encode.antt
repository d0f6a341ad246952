-- ===== src/Packet/Encode.antt =====
-- src/packet.rs, the write side: `encode_clock_reference`, `AdaptationFieldExtensionSpec` and
-- `AdaptationFieldSpec` with `encode`.
pub mod Fields
pub mod SubFields
pub mod RoundTrip
pub mod Accepts
pub mod Result
use oxideav_mpegts.Base.{
  ℕ, ◌+◌, ◌-◌, String, Bool, false, not, ◌&&◌, Option, none, some, List, [], ◌∷◌, ◌++◌, ltb, leb,
  if◌then◌else◌, is_some, is_none, length, replicate, ◌>>>◌, ◌<<<◌, low_bits, bit_of, Outcome, ◌>>◌,
  fail_if, invalid_field, ok, panic,
}
use oxideav_mpegts.Base.Int.{ℤ, as_u8}

abbrev pub max_adaptation_field_len : ℕ
max_adaptation_field_len = 184

unfoldable pub encode_clock_reference : ℕ → ℕ → List ℕ
encode_clock_reference base_in extension =
    let base = low_bits base_in 33 in
    let ext = low_bits extension 9 in
    low_bits (base >>> 25) 8
    ∷ low_bits (base >>> 17) 8
    ∷ low_bits (base >>> 9) 8
    ∷ low_bits (base >>> 1) 8
    ∷ (low_bits base 1 <<< 7 + 0b0111_1110 + low_bits (ext >>> 8) 1)
    ∷ low_bits ext 8
    ∷ []

pub record AdaptationFieldExtensionSpec : Type 0 where
  pub ltw : Option (Bool × ℕ)
  pub piecewise_rate : Option ℕ
  pub seamless_splice : Option (ℕ × ℕ)

pub record AdaptationFieldSpec : Type 0 where
  pub discontinuity_indicator : Bool
  pub random_access_indicator : Bool
  pub elementary_stream_priority_indicator : Bool
  pub pcr : Option (ℕ × ℕ)
  pub opcr : Option (ℕ × ℕ)
  pub splice_countdown : Option ℤ
  pub transport_private_data : Option (List ℕ)
  pub extension : Option AdaptationFieldExtensionSpec

-- `AdaptationFieldExtensionSpec::is_empty`.
unfoldable pub extension_is_empty : AdaptationFieldExtensionSpec → Bool
extension_is_empty s = is_none s.ltw && is_none s.piecewise_rate && is_none s.seamless_splice

unfoldable pub with_pcr : ℕ → ℕ → AdaptationFieldSpec
with_pcr base extension = record {
  discontinuity_indicator = false;
  random_access_indicator = false;
  elementary_stream_priority_indicator = false;
  pcr = some (base, extension);
  opcr = none;
  splice_countdown = none;
  transport_private_data = none;
  extension = none;
}

-- `AdaptationFieldSpec::is_empty`.
unfoldable pub is_empty : AdaptationFieldSpec → Bool
is_empty s =
    not s.discontinuity_indicator
    && not s.random_access_indicator
    && not s.elementary_stream_priority_indicator
    && is_none s.pcr
    && is_none s.opcr
    && is_none s.splice_countdown
    && is_none s.transport_private_data
    && is_none s.extension

-- A 33-bit base and a 9-bit extension, under the field's own messages.
unfoldable pub check_reference : String → String → Option (ℕ × ℕ) → Outcome (Unit {0})
check_reference base_text ext_text none = ok tt
check_reference base_text ext_text (some (base, ext)) = do
  fail_if (ltb 0x1_FFFF_FFFF base) (invalid_field base_text)
  fail_if (ltb 0x1FF ext) (invalid_field ext_text)

unfoldable pub check_pcr : AdaptationFieldSpec → Outcome (Unit {0})
unfolding check_reference
check_pcr s = check_reference "PCR base exceeds 33 bits" "PCR extension exceeds 9 bits" s.pcr

unfoldable pub check_opcr : AdaptationFieldSpec → Outcome (Unit {0})
unfolding check_reference
check_opcr s = do
  fail_if (not (is_none s.opcr) && is_none s.pcr) (invalid_field "OPCR without PCR")
  check_reference "OPCR base exceeds 33 bits" "OPCR extension exceeds 9 bits" s.opcr

unfoldable pub check_private_data : Option (List ℕ) → Outcome (Unit {0})
check_private_data none = ok tt
check_private_data (some bytes) =
    fail_if (ltb 255 (length bytes)) (invalid_field "transport_private_data exceeds 255 bytes")

unfoldable pub check_ltw : Option (Bool × ℕ) → Outcome (Unit {0})
check_ltw none = ok tt
check_ltw (some (valid, offset)) =
    fail_if (ltb 0x7FFF offset) (invalid_field "ltw_offset exceeds 15 bits")

unfoldable pub check_rate : Option ℕ → Outcome (Unit {0})
check_rate none = ok tt
check_rate (some rate) =
    fail_if (ltb 0x3F_FFFF rate) (invalid_field "piecewise_rate exceeds 22 bits")

unfoldable pub check_splice : Option ℤ → Option (ℕ × ℕ) → Outcome (Unit {0})
check_splice countdown none = ok tt
check_splice countdown (some (splice_type, dts)) = do
  fail_if (ltb 0xF splice_type) (invalid_field "splice_type exceeds 4 bits")
  fail_if (ltb 0x1_FFFF_FFFF dts) (invalid_field "DTS_next_AU exceeds 33 bits")
  fail_if (is_none countdown) (invalid_field "seamless_splice without splice_countdown")

unfoldable pub check_extension : Option ℤ → Option AdaptationFieldExtensionSpec → Outcome (Unit {0})
unfolding check_ltw check_rate check_splice
check_extension countdown none = ok tt
check_extension countdown (some ext) = do
  check_ltw ext.ltw
  check_rate ext.piecewise_rate
  check_splice countdown ext.seamless_splice

unfoldable pub flags_byte : AdaptationFieldSpec → ℕ
flags_byte s =
    bit_of s.discontinuity_indicator <<< 7
    + bit_of s.random_access_indicator <<< 6
    + bit_of s.elementary_stream_priority_indicator <<< 5
    + bit_of (is_some s.pcr) <<< 4
    + bit_of (is_some s.opcr) <<< 3
    + bit_of (is_some s.splice_countdown) <<< 2
    + bit_of (is_some s.transport_private_data) <<< 1
    + bit_of (is_some s.extension)

unfoldable pub clock_bytes : Option (ℕ × ℕ) → List ℕ
unfolding encode_clock_reference
clock_bytes none = []
clock_bytes (some (base, ext)) = encode_clock_reference base ext

unfoldable pub countdown_bytes : Option ℤ → List ℕ
countdown_bytes none = []
countdown_bytes (some c) = as_u8 c ∷ []

unfoldable pub private_bytes : Option (List ℕ) → List ℕ
private_bytes none = []
private_bytes (some bytes) = low_bits (length bytes) 8 ∷ bytes

unfoldable pub ltw_bytes : Option (Bool × ℕ) → List ℕ
ltw_bytes none = []
ltw_bytes (some (valid, offset)) =
    (bit_of valid <<< 7 + low_bits (offset >>> 8) 7) ∷ low_bits offset 8 ∷ []

unfoldable pub rate_bytes : Option ℕ → List ℕ
rate_bytes none = []
rate_bytes (some rate) =
    (0b1100_0000 + low_bits (rate >>> 16) 6) ∷ low_bits (rate >>> 8) 8 ∷ low_bits rate 8 ∷ []

unfoldable pub splice_bytes : Option (ℕ × ℕ) → List ℕ
splice_bytes none = []
splice_bytes (some (splice_type, dts)) =
    (low_bits splice_type 4 <<< 4 + low_bits (dts >>> 30) 3 <<< 1 + 1)
    ∷ low_bits (dts >>> 22) 8
    ∷ (low_bits (dts >>> 15) 7 <<< 1 + 1)
    ∷ low_bits (dts >>> 7) 8
    ∷ (low_bits dts 7 <<< 1 + 1)
    ∷ []

unfoldable pub extension_len : AdaptationFieldExtensionSpec → ℕ
extension_len ext =
    1
    + (if is_some ext.ltw then 2 else 0)
    + (if is_some ext.piecewise_rate then 3 else 0)
    + (if is_some ext.seamless_splice then 5 else 0)

unfoldable pub extension_flags : AdaptationFieldExtensionSpec → ℕ
extension_flags ext =
    0b0001_1111
    + bit_of (is_some ext.ltw) <<< 7
    + bit_of (is_some ext.piecewise_rate) <<< 6
    + bit_of (is_some ext.seamless_splice) <<< 5

unfoldable pub extension_bytes : Option AdaptationFieldExtensionSpec → List ℕ
extension_bytes none = []
extension_bytes (some ext) =
    low_bits (extension_len ext) 8
    ∷ extension_flags ext
    ∷ (ltw_bytes ext.ltw ++ (rate_bytes ext.piecewise_rate ++ splice_bytes ext.seamless_splice))

-- What stands behind the length byte before stuffing.
unfoldable pub content : AdaptationFieldSpec → List ℕ
content s =
    flags_byte s
    ∷ (clock_bytes s.pcr
        ++ (clock_bytes s.opcr
            ++ (countdown_bytes s.splice_countdown
                ++ (private_bytes s.transport_private_data ++ extension_bytes s.extension))))

-- `out[0] = value`.
unfoldable pub set_first : ℕ → List ℕ → Outcome (List ℕ)
set_first value [] = panic
set_first value (x ∷ xs) = ok (value ∷ xs)

-- Stuffing up to `want` bytes, and the length byte written last.
unfoldable pub finish : List ℕ → ℕ → Outcome (List ℕ)
unfolding set_first
finish out want =
    let padded = out ++ replicate (want - length out) 0xFF in
    set_first (low_bits (length padded - 1) 8) padded

-- `encode` behind the check of the requested size.
unfoldable pub encode_sized : AdaptationFieldSpec → ℕ → Outcome (List ℕ)
unfolding is_empty check_pcr check_opcr check_private_data check_extension content finish
encode_sized s want = if is_empty s && leb want 1 then ok (0 ∷ []) else (do
  check_pcr s
  check_opcr s
  check_private_data s.transport_private_data
  check_extension s.splice_countdown s.extension
  let out = 0 ∷ content s
  fail_if (ltb max_adaptation_field_len (length out))
      (invalid_field "adaptation field content exceeds 184 bytes")
  finish out want)

unfoldable pub encode : AdaptationFieldSpec → Option ℕ → Outcome (List ℕ)
unfolding encode_sized
encode s none = encode_sized s 0
encode s (some want) = do
  fail_if (ltb max_adaptation_field_len want)
      (invalid_field "adaptation field padding beyond 184 bytes")
  encode_sized s want
