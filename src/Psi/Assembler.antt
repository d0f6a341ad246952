-- ===== src/Psi/Assembler.antt =====
-- src/psi.rs: `PsiSectionAssembler`. A method returns what the source returns together with the
-- state that it leaves, on an error too. The accesses `rest[1]`, `in_flight[2]` and the like each
-- stand behind the source's own length check, so they are read with `byte_at`.
pub mod Invariant
pub mod Reassembly
pub mod Whole
pub mod Straddle
use oxideav_mpegts.Base.{
  ℕ, zero, suc, ◌+◌, ◌-◌, ◌*◌, ◌/◌, ◌%◌, ◌^◌, ◌≤◌, ◌<◌, min, max, String, ◌≡◌, refl, sym, ap, subst,
  ◌∙◌, ◌≢◌, ◌↔◌, ◌⊎◌, inl, inr, Bool, true, false, not, ◌&&◌, ◌||◌, Option, none, some, List, [],
  ◌∷◌, ◌++◌, map, append_assoc, append-nil, arith, ltb, leb, ◌==◌, if◌then◌else◌, ltb→lt, lt→ltb,
  leb→le, le→leb, lt→leb_false, le→ltb_false, ==_iff, Bool-cases, Option-cases, is_some, is_none,
  length, get_elem?, get_or, take, drop, replicate, All, length-append, length-take, length-drop,
  length-replicate, take-append-drop, take-append_length, drop-append_length, take_all,
  get_elem?-get_or, All-append, All-take, All-drop, All-get_or, All-replicate, IsByte, IsBytes,
  ◌>>>◌, ◌<<<◌, low_bits, flag, bit_of, be16, be32, Within, byte_at-IsByte, TsError, Outcome, ◌>>=◌,
  ◌>>◌, fail_if, index, slice, sub_usize, checked_add, Ensures, Ensures-bind, Ensures-weaken,
  Ensures-ok, Ensures-ne_panic, byte_at, index-ok, slice-ok, sub_usize-ok, truncated_from,
  truncated_from-err, add_or_truncated, add_or_truncated-ok, >>=-eq_ok, >>-eq_ok, fail_if-eq_ok,
  slice_front, slice_back, add_or_overrun, add_or_overrun-ok, take_counted, truncated,
  bad_sync_byte, section_length_overrun, psi_crc_mismatch, bad_pes_start_code, unsupported,
  invalid_field, ok, err, panic,
}

abbrev pub max_psi_section_len : ℕ
max_psi_section_len = 3 + 0x3FD

pub record Assembler : Type 0 where
  pub in_flight : List ℕ
  pub target_len : Option ℕ
  pub last_cc : Option ℕ

unfoldable pub new : Assembler
new = record { in_flight = []; target_len = none; last_cc = none }

unfoldable pub reset : Assembler → Assembler
reset s = record { in_flight = []; target_len = none; last_cc = none }

-- `self.in_flight.clear(); self.target_len = None;`
abbrev pub discard : Assembler → Assembler
discard s = record s { in_flight = []; target_len = none }

-- 3 + section_length, read from a section's second and third byte.
abbrev pub section_total : List ℕ → ℕ
section_total bytes = 3 + low_bits (low_bits (byte_at bytes 1) 4 <<< 8 + byte_at bytes 2) 12

-- `extend_in_flight` where the target is known.
unfoldable pub fill : Assembler → ℕ → List ℕ → Outcome (Option (List ℕ)) × Assembler
fill s target bytes =
    let grown = s.in_flight ++ take (min (target - length s.in_flight) (length bytes)) bytes in
    if ltb (length grown) target
    then (ok none, record s { in_flight = grown })
    else (ok (some grown), discard s)

-- `extend_in_flight` on a slice that may be empty, where the target is known.
unfoldable pub fill_any : Assembler → ℕ → List ℕ → Outcome (Option (List ℕ)) × Assembler
unfolding fill
fill_any s target [] = (ok none, s)
fill_any s target (b ∷ bs) = fill s target (b ∷ bs)

-- `extend_in_flight` while the three header bytes are being gathered.
unfoldable pub gather_header : Assembler → List ℕ → Outcome (Option (List ℕ)) × Assembler
unfolding fill_any
gather_header s bytes =
    let taken = min (3 - length s.in_flight) (length bytes) in
    let grown = s.in_flight ++ take taken bytes in
    if ltb (length grown) 3
    then (ok none, record s { in_flight = grown })
    else (if ltb max_psi_section_len (section_total grown)
        then (
          err (section_length_overrun (section_total grown - 3) (length bytes - taken)),
          discard s,
        )
        else fill_any (record s { in_flight = grown; target_len = some (section_total grown) })
            (section_total grown) (drop taken bytes))

unfoldable pub extend_in_flight : Assembler → List ℕ → Outcome (Option (List ℕ)) × Assembler
unfolding gather_header fill
extend_in_flight s [] = (ok none, s)
extend_in_flight s (b ∷ bs) = elim s.target_len [
  | none ↦ gather_header s (b ∷ bs)
  | some target ↦ fill s target (b ∷ bs)
]

-- The loop over the sections that start in this payload. `out` is what was pushed before. Without
-- fuel it would panic.
unfoldable pub start_sections :
    ℕ → Assembler → List (List ℕ) → List ℕ → Outcome (List (List ℕ)) × Assembler
start_sections zero s out rest = (panic, s)
start_sections (suc fuel) s out [] = (ok out, s)
start_sections (suc fuel) s out (b ∷ bs) =
    let rest = b ∷ bs in
    let total = section_total rest in
    let later = start_sections fuel s (out ++ take total rest ∷ []) (drop total rest) in
    if b == 0xFF
    then (ok out, s)
    else (if ltb (length rest) 3
        then (ok out, record s { in_flight = s.in_flight ++ rest; target_len = none })
        else (if ltb max_psi_section_len total
            then (err (section_length_overrun (total - 3) (length rest - 3)), discard s)
            else (if leb total (length rest)
                then later
                else (ok out, record s { in_flight = rest; target_len = some total }))))

-- The check of the continuity counter.
unfoldable pub note_cc : Assembler → ℕ → Assembler
note_cc s continuity_counter =
    let cc = low_bits continuity_counter 4 in
    let kept : Assembler = elim s.last_cc [
      | none ↦ s
      | some prev ↦ if cc == low_bits (prev + 1) 4 then s else discard s
    ] in
    record kept { last_cc = some cc }

-- What `extend_in_flight` returned, before the sections that start here.
abbrev pub pushed : Option (List ℕ) → List (List ℕ)
pushed none = []
pushed (some section) = section ∷ []

-- The tail of the previous section, and then the sections that start here.
abbrev pub after_tail :
    Outcome (Option (List ℕ)) × Assembler → List ℕ → Outcome (List (List ℕ)) × Assembler
after_tail (ok done, s) rest = start_sections (length rest + 1) (discard s) (pushed done) rest
after_tail (err e, s) rest = (err e, s)
after_tail (panic, s) rest = (panic, s)

abbrev pub is_busy : Assembler → Bool
is_busy s = not (is_empty_list s.in_flight) || is_some s.target_len
  where
    is_empty_list : List ℕ → Bool
    is_empty_list [] = true
    is_empty_list (b ∷ bs) = false

-- A payload with `payload_unit_start_indicator` set: pointer_field, tail, new sections.
unfoldable pub feed_start : Assembler → List ℕ → Outcome (List (List ℕ)) × Assembler
unfolding extend_in_flight start_sections
feed_start s [] = (ok [], s)
feed_start s (ptr ∷ rest) =
    if ltb (length rest) ptr
    then (ok [], discard s)
    else (if is_busy s
        then after_tail (extend_in_flight s (take ptr rest)) (drop ptr rest)
        else start_sections (length (drop ptr rest) + 1) s [] (drop ptr rest))

abbrev pub only_tail : Outcome (Option (List ℕ)) × Assembler → Outcome (List (List ℕ)) × Assembler
only_tail (ok done, s) = (ok (pushed done), s)
only_tail (err e, s) = (err e, s)
only_tail (panic, s) = (panic, s)

-- A payload without it.
unfoldable pub feed_continuation : Assembler → List ℕ → Outcome (List (List ℕ)) × Assembler
unfolding extend_in_flight
feed_continuation s payload =
    if is_none s.target_len then (ok [], s) else only_tail (extend_in_flight s payload)

unfoldable pub feed : Assembler → List ℕ → Bool → ℕ → Outcome (List (List ℕ)) × Assembler
unfolding note_cc feed_start feed_continuation
feed s payload pusi continuity_counter =
    let noted = note_cc s continuity_counter in
    if pusi then feed_start noted payload else feed_continuation noted payload
