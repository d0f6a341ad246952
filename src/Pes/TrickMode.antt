-- ===== src/Pes/TrickMode.antt =====
-- src/pes.rs: `FieldId`, `CoefficientSelection` and `DsmTrickMode`.
use oxideav_mpegts.Base.{
  ℕ, ◌+◌, ◌*◌, ◌/◌, ◌<◌, ◌≡◌, Bool, arith, ◌==◌, if◌then◌else◌, ◌>>>◌, ◌<<<◌, low_bits, flag,
  bit_of,
}

pub data FieldId : Type 0 where
  top_field_only : FieldId
  bottom_field_only : FieldId
  complete_frame : FieldId
  reserved_field : FieldId

unfoldable pub field_from_bits : ℕ → FieldId
field_from_bits b =
    let code = low_bits b 2 in
    if code == 0
    then top_field_only
    else (if code == 1
        then bottom_field_only
        else (if code == 2 then complete_frame else reserved_field))

unfoldable pub field_to_bits : FieldId → ℕ
field_to_bits top_field_only = 0
field_to_bits bottom_field_only = 1
field_to_bits complete_frame = 2
field_to_bits reserved_field = 3

pub data CoefficientSelection : Type 0 where
  dc_only : CoefficientSelection
  first_three : CoefficientSelection
  first_six : CoefficientSelection
  all : CoefficientSelection

unfoldable pub selection_from_bits : ℕ → CoefficientSelection
selection_from_bits b =
    let code = low_bits b 2 in
    if code == 0
    then dc_only
    else (if code == 1 then first_three else (if code == 2 then first_six else all))

unfoldable pub selection_to_bits : CoefficientSelection → ℕ
selection_to_bits dc_only = 0
selection_to_bits first_three = 1
selection_to_bits first_six = 2
selection_to_bits all = 3

pub data DsmTrickMode : Type 0 where
  fast_forward : FieldId → (intra_slice_refresh : Bool) → CoefficientSelection → DsmTrickMode
  slow_motion : (rep_cntrl : ℕ) → DsmTrickMode
  freeze_frame : FieldId → DsmTrickMode
  fast_reverse : FieldId → (intra_slice_refresh : Bool) → CoefficientSelection → DsmTrickMode
  slow_reverse : (rep_cntrl : ℕ) → DsmTrickMode
  reserved : (trick_mode_control bits : ℕ) → DsmTrickMode

unfoldable pub from_byte : ℕ → DsmTrickMode
unfolding field_from_bits selection_from_bits
from_byte b =
    let tail = low_bits b 5 in
    let control = low_bits (b >>> 5) 3 in
    let field = field_from_bits (tail >>> 3) in
    let selection = selection_from_bits tail in
    if control == 0
    then fast_forward field (flag tail 2) selection
    else (if control == 1
        then slow_motion tail
        else (if control == 2
            then freeze_frame field
            else (if control == 3
                then fast_reverse field (flag tail 2) selection
                else (if control == 4 then slow_reverse tail else reserved control tail))))

unfoldable pub to_byte : DsmTrickMode → ℕ
unfolding field_to_bits selection_to_bits
to_byte (fast_forward field refresh selection) =
    field_to_bits field <<< 3 + bit_of refresh <<< 2 + selection_to_bits selection
to_byte (slow_motion rep_cntrl) = 1 <<< 5 + low_bits rep_cntrl 5
to_byte (freeze_frame field) = 2 <<< 5 + field_to_bits field <<< 3 + 7
to_byte (fast_reverse field refresh selection) =
    3 <<< 5 + field_to_bits field <<< 3 + bit_of refresh <<< 2 + selection_to_bits selection
to_byte (slow_reverse rep_cntrl) = 4 <<< 5 + low_bits rep_cntrl 5
to_byte (reserved control bits) = low_bits control 3 <<< 5 + low_bits bits 5

-- The values that the wire format can hold.
abbrev pub IsTrickMode : DsmTrickMode → Type 0
IsTrickMode (fast_forward field refresh selection) = Unit {0}
IsTrickMode (slow_motion rep_cntrl) = rep_cntrl < 32
IsTrickMode (freeze_frame field) = Unit {0}
IsTrickMode (fast_reverse field refresh selection) = Unit {0}
IsTrickMode (slow_reverse rep_cntrl) = rep_cntrl < 32
IsTrickMode (reserved control bits) = (4 < control) × (control < 8) × (bits < 32)

-- The byte that `to_byte` makes again of a byte that was read.
abbrev pub canonical : ℕ → ℕ
canonical b = if b / 32 == 2 then b / 8 * 8 + 7 else b

field-round_trip : (f : FieldId) → field_from_bits (field_to_bits f) ≡ f
unfolding field_from_bits field_to_bits
field-round_trip f = ground arith

-- A value that the wire format can hold is written as a byte that reads back as the value.
pub from_byte-to_byte :
    (m : DsmTrickMode) → IsTrickMode m → (to_byte m < 256) × (from_byte (to_byte m) ≡ m)
unfolding from_byte to_byte
from_byte-to_byte m h = ground arith

-- Every byte is read as a value of that kind, and is written again as itself, except that the three
-- reserved bits of freeze-frame are set.
pub to_byte-from_byte :
    (b : ℕ) → b < 256 → IsTrickMode (from_byte b) × (to_byte (from_byte b) ≡ canonical b)
unfolding from_byte to_byte
to_byte-from_byte b h = ground arith
