-- ===== src/Psi/Assembler/Invariant.antt =====
-- What holds of the assembler after any payload: what it buffers is the front of one section.
use oxideav_mpegts.Base.{
  ℕ, ◌≤◌, ◌<◌, ◌≡◌, refl, Option, none, some, List, [], ◌∷◌, ◌++◌, arith, length, All, Outcome,
  Ensures,
}
use oxideav_mpegts.Psi.Assembler.{Assembler, section_total}

-- The buffer against the target: a part of a header, or a whole header and a part of the rest.
abbrev pub Assembling : List ℕ → Option ℕ → Type 0
Assembling buffer none = length buffer < 3
Assembling buffer (some target) =
    (3 ≤ length buffer)
    × (length buffer ≤ target)
    × (target ≤ 1024)
    × (target ≡ section_total buffer)

abbrev pub IsAssembling : Assembler → Type 0
IsAssembling s = Assembling s.in_flight s.target_len

-- A section of exactly the length that its own section_length states, within the maximum.
abbrev pub IsSection : List ℕ → Type 0
IsSection x = (3 ≤ length x) × (length x ≤ 1024) × (length x ≡ section_total x)

abbrev OptionalSection : Option (List ℕ) → Type 0
OptionalSection none = Unit {0}
OptionalSection (some x) = IsSection x

abbrev GoodStep : Outcome (Option (List ℕ)) × Assembler → Type 0
GoodStep (r, s) = Ensures OptionalSection r × IsAssembling s

abbrev pub GoodFeed : Outcome (List (List ℕ)) × Assembler → Type 0
GoodFeed (r, s) = Ensures (All IsSection) r × IsAssembling s

-- The header decides the length, whatever comes behind it.
pub section_total-append :
    (xs ys : List ℕ) → 3 ≤ length xs → section_total (xs ++ ys) ≡ section_total xs
section_total-append [] ys h = absurd (omega arith)
section_total-append (a ∷ []) ys h = absurd (omega arith)
section_total-append (a ∷ b ∷ []) ys h = absurd (omega arith)
section_total-append (a ∷ b ∷ c ∷ xs) ys h = refl

-- The state with these fields.
abbrev pub state : List ℕ → Option ℕ → Option ℕ → Assembler
state buffer target last = record { in_flight = buffer; target_len = target; last_cc = last }
