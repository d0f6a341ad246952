-- ===== src/Psi/Iterate.antt =====
-- src/psi.rs: `iter_sections` and its iterator, against the assembler.
use oxideav_mpegts.Base.{
  ℕ, zero, suc, ◌+◌, ◌≤◌, ◌<◌, ◌≡◌, refl, subst, ◌≢◌, ◌⊎◌, inl, inr, true, Option, none, some, List,
  [], ◌∷◌, ◌++◌, append_assoc, append-nil, arith, ltb, ◌==◌, if◌then◌else◌, Bool-cases, length,
  take, drop, length-drop, low_bits, byte_at, ok,
}
use oxideav_mpegts.Psi.Assembler.{
  Assembler, section_total, start_sections, note_cc, feed_start, feed,
}
use oxideav_mpegts.Psi.Assembler.Invariant.{state}

-- Where the sections of a payload start: the `rest` that the iterator begins with.
unfoldable pub iter_sections : List ℕ → List ℕ
iter_sections [] = []
iter_sections (ptr ∷ rest) =
    if ltb (length (ptr ∷ rest)) (1 + ptr) then [] else drop (1 + ptr) (ptr ∷ rest)

-- `next`: the section and what is left of the payload.
unfoldable pub next : List ℕ → Option (List ℕ × List ℕ)
next rest =
    let total = section_total rest in
    if ltb (length rest) 3
    then none
    else (if byte_at rest 0 == 0xFF
        then none
        else (if ltb (length rest) total then none else some (take total rest, drop total rest)))

-- All that the iterator yields. Each call shortens the rest by three bytes or more, so that fuel
-- above its length is enough.
unfoldable pub collect : ℕ → List ℕ → List (List ℕ)
collect zero rest = []
collect (suc fuel) rest = elim (next rest) [
  | none ↦ []
  | some (section, tail) ↦ section ∷ collect fuel tail
]

abbrev pub sections_of : List ℕ → List (List ℕ)
sections_of payload = collect (length payload + 1) (iter_sections payload)

-- Another section is there.
abbrev Continues : List ℕ → Type 0
Continues rest = (3 ≤ length rest) × (byte_at rest 0 ≢ 0xFF) × (section_total rest ≤ length rest)

next-cases :
    (rest : List ℕ)
    → (Continues rest
        × (next rest ≡ some (take (section_total rest) rest, drop (section_total rest) rest)))
      ⊎ ((Continues rest → ⊥) × (next rest ≡ none))
unfolding next
next-cases rest = ground arith

collect-next :
    (fuel : ℕ) (rest : List ℕ)
    → Continues rest
    → collect (suc fuel) rest
      ≡ take (section_total rest) rest ∷ collect fuel (drop (section_total rest) rest)
unfolding collect
collect-next fuel rest h = elim (next-cases rest) [
  | inl (k, e) ↦ rw (e, collect)
  | inr (k, e) ↦ absurd (k h)
]

collect-done : (fuel : ℕ) (rest : List ℕ) → (Continues rest → ⊥) → collect (suc fuel) rest ≡ []
unfolding collect
collect-done fuel rest h = elim (next-cases rest) [
  | inl (k, e) ↦ absurd (h k)
  | inr (k, e) ↦ rw (e, collect)
]

-- Whatever the assembler returns for the sections of a payload is what the iterator yields.
start_sections-collect :
    (fuel : ℕ) (s : Assembler) (out r : List (List ℕ)) (rest : List ℕ)
    → length rest < fuel
    → (start_sections fuel s out rest).0 ≡ ok r
    → r ≡ out ++ collect fuel rest
unfolding start_sections
start_sections-collect zero s out r rest h e = absurd (omega arith)
start_sections-collect (suc fuel) s out r [] h e =
    ground (arith, collect-done fuel [] (λ k. omega arith), append-nil out)
start_sections-collect (suc fuel) s out r (b ∷ bs) h e =
    let rest = b ∷ bs in
    let total = section_total rest in
    let section = take total rest in
    let tail = drop total rest in
    elim (next-cases rest) [
      | inl (k, n) ↦ ground (
        arith,
        collect-next fuel rest k,
        append_assoc out (section ∷ []) (collect fuel tail),
        start_sections-collect fuel s (out ++ section ∷ []) r tail
            (omega (arith, length-drop total rest)),
      )
      | inr (k, n) ↦ ground (arith, collect-done fuel rest k, append-nil out)
    ]

collect-more_fuel :
    (n m : ℕ) (rest : List ℕ) → length rest < n → length rest < m → collect n rest ≡ collect m rest
collect-more_fuel zero m rest h k = absurd (omega arith)
collect-more_fuel (suc n) zero rest h k = absurd (omega arith)
collect-more_fuel (suc n) (suc m) rest h k = elim (next-cases rest) [
  | inl (c, e) ↦ rw (
    collect-next n rest c,
    collect-next m rest c,
    collect-more_fuel n m (drop (section_total rest) rest)
        (omega (arith, length-drop (section_total rest) rest))
        (omega (arith, length-drop (section_total rest) rest)),
  )
  | inr (c, e) ↦ rw (collect-done n rest c, collect-done m rest c)
]

iter_sections-cons :
    (ptr : ℕ) (rest : List ℕ)
    → iter_sections (ptr ∷ rest) ≡ (if ltb (length rest) ptr then [] else drop ptr rest)
unfolding iter_sections
iter_sections-cons ptr rest = let one : 1 + ptr ≡ suc ptr = omega arith in rw one (ground arith)

note_idle :
    (last : Option ℕ) (cc : ℕ)
    → note_cc (state [] none last) cc ≡ state [] none (some (low_bits cc 4))
unfolding note_cc
note_idle none cc = refl
note_idle (some prev) cc = ground arith

feed_start-sections :
    (last : Option ℕ) (payload : List ℕ) (r : List (List ℕ))
    → (feed_start (state [] none last) payload).0 ≡ ok r
    → r ≡ sections_of payload
unfolding feed_start iter_sections
feed_start-sections last [] r h = ground (arith, collect-done 0 [] (λ k. omega arith))
feed_start-sections last (ptr ∷ rest) r h =
    let fuel = length (ptr ∷ rest) + 1 in
    let later = drop ptr rest in
    let size = length-drop ptr rest in
    elim (Bool-cases (ltb (length rest) ptr)) [
      | inl e ↦ ground (
        arith,
        iter_sections-cons ptr rest,
        collect-done (length (ptr ∷ rest)) [] (λ k. omega arith),
      )
      | inr e ↦ ground (
        arith,
        iter_sections-cons ptr rest,
        start_sections-collect (length later + 1) (state [] none last) [] r later (omega arith),
        collect-more_fuel (length later + 1) fuel later (omega arith) (omega (arith, size)),
      )
    ]

-- From an assembler that buffers nothing, whatever `feed` returns for a payload with a unit start,
-- unless it is an error, is what `iter_sections` yields for this payload alone.
pub feed-iter_sections :
    (last : Option ℕ) (payload : List ℕ) (cc : ℕ) (r : List (List ℕ))
    → (feed (state [] none last) payload true cc).0 ≡ ok r
    → r ≡ sections_of payload
unfolding feed
feed-iter_sections last payload cc r h =
    feed_start-sections (some (low_bits cc 4)) payload r
      (subst (λ s. (feed_start s payload).0 ≡ ok r) (note_idle last cc) h)
