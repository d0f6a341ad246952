-- ===== src/Psi/Assembler/Whole.antt =====
-- src/psi.rs: `PsiSectionAssembler` on sections that are whole in one payload.
use oxideav_mpegts.Base.{
  ℕ, zero, suc, ◌≤◌, ◌<◌, ◌≡◌, refl, sym, ◌∙◌, ◌≢◌, false, Option, none, some, List, [], ◌∷◌, ◌++◌,
  append_assoc, append-nil, arith, ◌==◌, le→leb, le→ltb_false, length, take, drop, All,
  length-append, take-append_length, drop-append_length, low_bits, ok, lt→ltb,
}
use oxideav_mpegts.Psi.Assembler.{Assembler, section_total, start_sections, note_cc}
use oxideav_mpegts.Psi.Assembler.Invariant.{IsSection, state, section_total-append}
use oxideav_mpegts.Psi.Assembler.Reassembly.{joined}

pub note_cc-first :
    (last : Option ℕ) (cc : ℕ)
    → note_cc (state [] none last) cc ≡ state [] none (some (low_bits cc 4))
unfolding note_cc
note_cc-first none cc = refl
note_cc-first (some prev) cc = ground arith

-- A section that is whole at the front of a payload.
pub start_sections-one :
    (s : Assembler) (fuel b : ℕ) (bs : List ℕ) (out : List (List ℕ))
    → b ≢ 0xFF
    → 3 ≤ length (b ∷ bs)
    → section_total (b ∷ bs) ≤ 1024
    → section_total (b ∷ bs) ≤ length (b ∷ bs)
    → start_sections (suc fuel) s out (b ∷ bs)
      ≡ start_sections fuel s
          (out ++ take (section_total (b ∷ bs)) (b ∷ bs) ∷ [])
          (drop (section_total (b ∷ bs)) (b ∷ bs))
unfolding start_sections
start_sections-one s fuel b bs out plain lo hi fits =
    let not_stuffing : (b == 0xFF) ≡ false = ground arith in
    rw (
      not_stuffing,
      le→ltb_false (length (b ∷ bs)) 3 lo,
      le→ltb_false 1024 (section_total (b ∷ bs)) hi,
      le→leb (section_total (b ∷ bs)) (length (b ∷ bs)) fits,
    )

-- A section that can be told from stuffing.
abbrev pub IsWhole : List ℕ → Type 0
IsWhole [] = ⊥
IsWhole (b ∷ bs) = (b ≢ 0xFF) × IsSection (b ∷ bs)

pub start_sections-next :
    (s : Assembler) (fuel b : ℕ) (bs rest : List ℕ) (out : List (List ℕ))
    → IsWhole (b ∷ bs)
    → start_sections (suc fuel) s out ((b ∷ bs) ++ rest)
      ≡ start_sections fuel s (out ++ (b ∷ bs) ∷ []) rest
start_sections-next s fuel b bs rest out (plain, (lo, hi, eq)) =
    let total : section_total ((b ∷ bs) ++ rest) ≡ length (b ∷ bs) =
      section_total-append (b ∷ bs) rest lo ∙ sym eq in
    let size = length-append (b ∷ bs) rest in
    start_sections-one s fuel b (bs ++ rest) out plain (omega (arith, size)) (omega (arith, total))
      (omega (arith, total, size))
    ∙ rw (
      take-append_length (section_total ((b ∷ bs) ++ rest)) (b ∷ bs) rest (sym total),
      drop-append_length (section_total ((b ∷ bs) ++ rest)) (b ∷ bs) rest (sym total),
    )

-- One or two bytes at the end of a payload are kept.
start_sections-short :
    (s : Assembler) (fuel b : ℕ) (bs : List ℕ) (out : List (List ℕ))
    → b ≢ 0xFF
    → length (b ∷ bs) < 3
    → start_sections (suc fuel) s out (b ∷ bs)
      ≡ (ok out, record s { in_flight = s.in_flight ++ b ∷ bs; target_len = none })
unfolding start_sections
start_sections-short s fuel b bs out plain short =
    let not_stuffing : (b == 0xFF) ≡ false = ground arith in
    rw (not_stuffing, lt→ltb (length (b ∷ bs)) 3 short)

pub start_sections-joined :
    (sections : List (List ℕ)) (s : Assembler) (fuel b : ℕ) (bs : List ℕ) (out : List (List ℕ))
    → All IsWhole sections
    → b ≢ 0xFF
    → length (b ∷ bs) < 3
    → length (joined sections) < fuel
    → start_sections fuel s out (joined sections ++ b ∷ bs)
      ≡ (ok (out ++ sections), record s { in_flight = s.in_flight ++ b ∷ bs; target_len = none })
start_sections-joined sections s zero b bs out whole plain short room = absurd (omega arith)
start_sections-joined [] s (suc fuel) b bs out whole plain short room =
    start_sections-short s fuel b bs out plain short ∙ rw (append-nil out)
start_sections-joined ([] ∷ sections) s fuel b bs out (whole, others) plain short room =
    absurd whole
start_sections-joined ((x ∷ xs) ∷ sections) s (suc fuel) b bs out (whole, others) plain short room =
    rw (append_assoc (x ∷ xs) (joined sections) (b ∷ bs)) (
      start_sections-next s fuel x xs (joined sections ++ b ∷ bs) out whole
      ∙ start_sections-joined sections s fuel b bs (out ++ (x ∷ xs) ∷ []) others plain short
          (omega (arith, length-append (x ∷ xs) (joined sections)))
      ∙ rw (append_assoc out ((x ∷ xs) ∷ []) sections))
