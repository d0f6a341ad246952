-- ===== src/Psi/Assembler/Straddle.antt =====
-- src/psi.rs: `PsiSectionAssembler`, where the first three bytes of a section straddle two packets.
use oxideav_mpegts.Base.{
  ℕ, ◌+◌, ◌<◌, ◌≡◌, refl, ap, ◌∙◌, ◌≢◌, true, false, Option, none, some, List, [], ◌∷◌, ◌++◌, map,
  arith, ◌==◌, le→ltb_false, length, length-append, All, drop-append_length, low_bits,
  if◌then◌else◌, ok,
}
use oxideav_mpegts.Psi.Assembler.{note_cc, feed_start, feed_continuation, feed}
use oxideav_mpegts.Psi.Assembler.Invariant.{state}
use oxideav_mpegts.Psi.Assembler.Reassembly.{feed_each, joined}
use oxideav_mpegts.Psi.Assembler.Whole.{IsWhole, note_cc-first, start_sections-joined}

-- While no target is known, a payload without a unit start is skipped.
feed-skipped :
    (buffer : List ℕ) (last : Option ℕ) (payload : List ℕ) (cc : ℕ)
    → (kept : List ℕ) × (feed (state buffer none last) payload false cc
        ≡ (ok [], state kept none (some (low_bits cc 4))))
unfolding feed note_cc feed_continuation
feed-skipped buffer none payload cc = (buffer, refl)
feed-skipped buffer (some prev) payload cc =
    (if low_bits cc 4 == low_bits (prev + 1) 4 then buffer else [], ground arith)

feed_each-skipped :
    (buffer : List ℕ) (last : Option ℕ) (payloads : List (List ℕ)) (cc : ℕ)
    → (feed_each (state buffer none last) cc payloads).0 ≡ map (λ p. ok []) payloads
unfolding feed_each
feed_each-skipped buffer last [] cc = refl
feed_each-skipped buffer last (payload ∷ payloads) cc =
    let (kept, eq) = feed-skipped buffer last payload cc in
    rw (eq, feed_each-skipped kept (some (low_bits cc 4)) payloads (cc + 1))

-- The packet with the front of the section.
feed-front_only :
    (last : Option ℕ) (skipped : List ℕ) (sections : List (List ℕ)) (b : ℕ) (bs : List ℕ) (cc : ℕ)
    → All IsWhole sections
    → b ≢ 0xFF
    → length (b ∷ bs) < 3
    → feed (state [] none last) (length skipped ∷ (skipped ++ (joined sections ++ b ∷ bs))) true cc
      ≡ (ok sections, state (b ∷ bs) none (some (low_bits cc 4)))
unfolding feed feed_start
feed-front_only last skipped sections b bs cc whole plain short =
    let rest = joined sections ++ b ∷ bs in
    let size = length-append skipped rest in
    ap (λ s. feed_start s (length skipped ∷ (skipped ++ rest))) (note_cc-first last cc)
    ∙ rw
        (
          le→ltb_false (length (skipped ++ rest)) (length skipped) (omega (arith, size)),
          drop-append_length (length skipped) skipped rest refl,
        )
        (start_sections-joined sections (state [] none (some (low_bits cc 4))) (length rest + 1) b
          bs [] whole plain short (omega (arith, length-append (joined sections) (b ∷ bs))))

-- An assembler that buffers nothing, fed a payload with a unit start in which, behind what
-- pointer_field skips and any whole sections, stand only the first one or two bytes of another section
-- (none of the sections starts with the stuffing byte 0xFF), returns the whole sections and buffers these
-- bytes; and it then skips every payload without a unit start, however many follow and whatever they
-- hold: no section and no error comes out of them, so that a section that goes on in them is lost.
pub feed-straddled_header :
    (last : Option ℕ) (skipped : List ℕ) (sections : List (List ℕ)) (b : ℕ) (bs : List ℕ)
    (payloads : List (List ℕ)) (cc next : ℕ)
    → All IsWhole sections
    → b ≢ 0xFF
    → length (b ∷ bs) < 3
    → let payload = length skipped ∷ (skipped ++ (joined sections ++ b ∷ bs)) in
      let first = feed (state [] none last) payload true cc in
      (first.0 ≡ ok sections)
      × (first.1.in_flight ≡ b ∷ bs)
      × ((feed_each first.1 next payloads).0 ≡ map (λ p. ok []) payloads)
feed-straddled_header last skipped sections b bs payloads cc next whole plain short =
    rw (feed-front_only last skipped sections b bs cc whole plain short)
      (refl, refl, feed_each-skipped (b ∷ bs) (some (low_bits cc 4)) payloads next)
