-- ===== src/Mux/Psi/Sections.antt =====
-- src/muxer.rs, src/psi.rs: what the section assembler makes of the first packet of `write_psi_packet`.
use oxideav_mpegts.Base.{
  ℕ, zero, suc, ◌+◌, ◌-◌, ◌<◌, ◌≡◌, refl, sym, ap, ◌∙◌, ◌≢◌, Bool, true, false, Option, none, some,
  List, [], ◌∷◌, ◌++◌, append-nil, arith, le→ltb_false, length, take, drop, replicate, length-take,
  take-append-drop, low_bits, ok,
}
use oxideav_mpegts.Psi.Assembler.{Assembler, section_total, feed, feed_start, start_sections}
use oxideav_mpegts.Psi.Assembler.Invariant.{IsSection, state, section_total-append}
use oxideav_mpegts.Psi.Assembler.Whole.{note_cc-first, start_sections-next}
use oxideav_mpegts.Psi.Assembler.Reassembly.{waiting, feed-first}

-- The payload of a packet.
abbrev pub psi_payload : Bool → List ℕ → List ℕ
psi_payload true chunk = 0 ∷ (chunk ++ replicate (183 - length chunk) 0xFF)
psi_payload false chunk = chunk ++ replicate (184 - length chunk) 0xFF

-- The assembler at the end.
abbrev pub idle : ℕ → Assembler
idle cc = state [] none (some (low_bits cc 4))

-- Stuffing ends the sections of a payload.
start_sections-stuffing :
    (s : Assembler) (fuel n : ℕ) (out : List (List ℕ))
    → start_sections (suc fuel) s out (replicate n 0xFF) ≡ (ok out, s)
unfolding start_sections
start_sections-stuffing s fuel zero out = refl
start_sections-stuffing s fuel (suc n) out = refl

-- A section that is whole in the first packet, with stuffing behind it.
start_sections-whole :
    (s : Assembler) (fuel n b : ℕ) (bs : List ℕ)
    → b ≢ 0xFF
    → IsSection (b ∷ bs)
    → start_sections (suc (suc fuel)) s [] ((b ∷ bs) ++ replicate n 0xFF) ≡ (ok ((b ∷ bs) ∷ []), s)
start_sections-whole s fuel n b bs plain h =
    start_sections-next s (suc fuel) b bs (replicate n 0xFF) [] (plain, h)
    ∙ start_sections-stuffing s fuel n ((b ∷ bs) ∷ [])

pub feed-whole :
    (last : Option ℕ) (n cc b : ℕ) (bs : List ℕ)
    → b ≢ 0xFF
    → IsSection (b ∷ bs)
    → feed (state [] none last) (0 ∷ ((b ∷ bs) ++ replicate n 0xFF)) true cc
      ≡ (ok ((b ∷ bs) ∷ []), idle cc)
unfolding feed feed_start
feed-whole last n cc b bs plain h =
    let fuel : length ((b ∷ bs) ++ replicate n 0xFF) + 1
        ≡ suc (suc (length (bs ++ replicate n 0xFF))) =
      omega arith in
    ap (λ s. feed_start s (0 ∷ ((b ∷ bs) ++ replicate n 0xFF))) (note_cc-first last cc)
    ∙ rw (
      le→ltb_false (length ((b ∷ bs) ++ replicate n 0xFF)) 0 (omega arith),
      fuel,
      start_sections-whole (idle cc) (length (bs ++ replicate n 0xFF)) n b bs plain h,
    )

-- The front of a longer section.
pub feed-front :
    (last : Option ℕ) (cc b : ℕ) (bs : List ℕ)
    → b ≢ 0xFF
    → IsSection (b ∷ bs)
    → 183 < length (b ∷ bs)
    → feed (state [] none last) (psi_payload true (take 183 (b ∷ bs))) true cc
      ≡ (ok [], waiting (take 183 (b ∷ bs)) (length (b ∷ bs)) cc)
feed-front last cc b bs plain (lo, hi, eq) over =
    let size : length (take 183 (b ∷ bs)) ≡ 183 = omega (arith, length-take 183 (b ∷ bs)) in
    let filled : 183 - length (take 183 (b ∷ bs)) ≡ 0 = omega arith in
    let front = section_total-append (take 183 (b ∷ bs)) (drop 183 (b ∷ bs)) (omega arith) in
    let whole = ap section_total (take-append-drop 183 (b ∷ bs)) in
    rw (filled, append-nil (take 183 (b ∷ bs)))
      (feed-first last b (take 182 bs) cc (length (b ∷ bs)) plain (omega arith)
        (sym front ∙ whole ∙ sym eq) hi (omega arith))
