-- ===== src/Psi/Assembler/Reassembly.antt =====
-- src/psi.rs: `PsiSectionAssembler` on a section that is split over several packets.
use oxideav_mpegts.Base.{
  ℕ, suc, ◌+◌, ◌-◌, ◌≤◌, ◌<◌, min, ◌≡◌, sym, ap, ◌∙◌, ◌≢◌, true, false, Option, none, some, List,
  [], ◌∷◌, ◌++◌, map, append_assoc, append-nil, arith, lt→ltb, le→ltb_false, length, take,
  length-append, take-append_length, take_all, low_bits, Outcome, ok,
}
use oxideav_mpegts.Psi.Assembler.{
  Assembler, section_total, discard, fill, extend_in_flight, start_sections, note_cc, feed_start,
  feed_continuation, feed,
}
use oxideav_mpegts.Psi.Assembler.Invariant.{IsSection, state, section_total-append}

-- `feed` on the payloads of packets that follow one another without a unit start. The results, in
-- order, and the state after them.
unfoldable pub feed_each :
    Assembler → ℕ → List (List ℕ) → List (Outcome (List (List ℕ))) × Assembler
feed_each s cc [] = ([], s)
feed_each s cc (chunk ∷ chunks) =
    let step = feed s chunk false cc in
    let rest = feed_each step.1 (cc + 1) chunks in (step.0 ∷ rest.0, rest.1)

abbrev pub joined : List (List ℕ) → List ℕ
joined [] = []
joined (x ∷ xs) = x ++ joined xs

abbrev pub waiting : List ℕ → ℕ → ℕ → Assembler
waiting buffer total cc = state buffer (some total) (some (low_bits cc 4))

note_cc-next :
    (buffer : List ℕ) (total cc : ℕ)
    → note_cc (waiting buffer total cc) (cc + 1) ≡ waiting buffer total (cc + 1)
unfolding note_cc
note_cc-next buffer total cc = ground arith

fill_partial :
    (s : Assembler) (t : ℕ) (bytes : List ℕ)
    → length s.in_flight + length bytes < t
    → fill s t bytes ≡ (ok none, record s { in_flight = s.in_flight ++ bytes })
unfolding fill
fill_partial s t bytes h = rw (
  take_all (min (t - length s.in_flight) (length bytes)) bytes (omega arith),
  length-append s.in_flight bytes,
  lt→ltb _ _ h,
)

fill_complete :
    (s : Assembler) (t : ℕ) (part more : List ℕ)
    → length s.in_flight + length part ≡ t
    → fill s t (part ++ more) ≡ (ok (some (s.in_flight ++ part)), discard s)
unfolding fill
fill_complete s t part more h =
    let n = min (t - length s.in_flight) (length (part ++ more)) in
    let whole : take n (part ++ more) ≡ part =
      take-append_length n part more (omega (arith, length-append part more)) in
    rw (
      whole,
      length-append s.in_flight part,
      le→ltb_false (length s.in_flight + length part) t (omega arith),
    )

pub continuation-middle :
    (buffer chunk : List ℕ) (total last : ℕ)
    → length buffer + length chunk < total
    → feed_continuation (waiting buffer total last) chunk
      ≡ (ok [], waiting (buffer ++ chunk) total last)
unfolding feed_continuation extend_in_flight
continuation-middle buffer [] total last h = rw (append-nil buffer)
continuation-middle buffer (b ∷ bs) total last h =
    rw (fill_partial (waiting buffer total last) total (b ∷ bs) h)

pub continuation-last :
    (buffer part stuffing : List ℕ) (total last : ℕ)
    → 0 < length part
    → length buffer + length part ≡ total
    → feed_continuation (waiting buffer total last) (part ++ stuffing)
      ≡ (ok ((buffer ++ part) ∷ []), state [] none (some (low_bits last 4)))
unfolding feed_continuation extend_in_flight
continuation-last buffer [] stuffing total last h k = absurd (omega arith)
continuation-last buffer (b ∷ bs) stuffing total last h k =
    rw (fill_complete (waiting buffer total last) total (b ∷ bs) stuffing k)

feed-waiting :
    (buffer chunk : List ℕ) (total last : ℕ)
    → feed (waiting buffer total last) chunk false (last + 1)
      ≡ feed_continuation (waiting buffer total (last + 1)) chunk
unfolding feed
feed-waiting buffer chunk total last =
    ap (λ s. feed_continuation s chunk) (note_cc-next buffer total last)

-- The packets behind the first one.
feed_each-section :
    (buffer : List ℕ) (chunks : List (List ℕ)) (part stuffing : List ℕ) (total last : ℕ)
    → 0 < length part
    → length buffer + length (joined chunks) + length part ≡ total
    → feed_each (waiting buffer total last) (last + 1) (chunks ++ (part ++ stuffing) ∷ []) ≡ (
      map (λ chunk. ok []) chunks ++ ok ((buffer ++ (joined chunks ++ part)) ∷ []) ∷ [],
      state [] none (some (low_bits (last + (length chunks + 1)) 4)),
    )
unfolding feed_each
feed_each-section buffer [] part stuffing total last h k = rw (
  feed-waiting buffer (part ++ stuffing) total last,
  continuation-last buffer part stuffing total (last + 1) h (omega arith),
)
feed_each-section buffer (c ∷ cs) part stuffing total last h k =
    let count : last + 1 + (length cs + 1) ≡ last + (suc (length cs) + 1) = omega arith in
    rw (
      feed-waiting buffer c total last,
      continuation-middle buffer c total (last + 1) (omega (arith, length-append c (joined cs))),
      feed_each-section (buffer ++ c) cs part stuffing total (last + 1) h
          (omega (arith, length-append c (joined cs), length-append buffer c)),
      append_assoc buffer c (joined cs ++ part),
      append_assoc c (joined cs) part,
      count,
    )

-- The first packet.
pub feed-first :
    (last : Option ℕ) (b : ℕ) (bs : List ℕ) (n total : ℕ)
    → b ≢ 0xFF
    → 3 ≤ length (b ∷ bs)
    → section_total (b ∷ bs) ≡ total
    → total ≤ 1024
    → length (b ∷ bs) < total
    → feed (state [] none last) (0 ∷ b ∷ bs) true n ≡ (ok [], waiting (b ∷ bs) total n)
unfolding feed feed_start start_sections note_cc
feed-first none b bs n total h k e l m = ground arith
feed-first (some prev) b bs n total h k e l m = ground arith

-- A section of the length that its section_length states, of at most 1024 bytes and not starting with
-- the stuffing byte 0xFF, starts in one packet behind a pointer_field of 0 and with at least its three
-- header bytes there, goes on in any number of packets and ends with at least one byte in a last one,
-- whose payload may hold anything behind it. From an assembler that buffers nothing, where the
-- continuity counters follow one another, the packets before the last one yield nothing, the last one
-- yields exactly this section, and the assembler buffers nothing again.
pub feed_each-split_section :
    (last : Option ℕ) (b : ℕ) (bs : List ℕ) (chunks : List (List ℕ)) (part stuffing : List ℕ)
    (n : ℕ)
    → b ≢ 0xFF
    → 3 ≤ length (b ∷ bs)
    → 0 < length part
    → IsSection ((b ∷ bs) ++ (joined chunks ++ part))
    → let first = feed (state [] none last) (0 ∷ b ∷ bs) true n in
      (first.0 ≡ ok [])
      × (feed_each first.1 (n + 1) (chunks ++ (part ++ stuffing) ∷ []) ≡ (
        map (λ chunk. ok []) chunks ++ ok (((b ∷ bs) ++ (joined chunks ++ part)) ∷ []) ∷ [],
        state [] none (some (low_bits (n + (length chunks + 1)) 4)),
      ))
feed_each-split_section last b bs chunks part stuffing n h k p (lo, hi, eq) =
    let x = (b ∷ bs) ++ (joined chunks ++ part) in
    let size : length x ≡ length (b ∷ bs) + length (joined chunks) + length part =
      omega (
        arith,
        length-append (b ∷ bs) (joined chunks ++ part),
        length-append (joined chunks) part,
      ) in
    let total : section_total (b ∷ bs) ≡ length x =
      omega (arith, section_total-append (b ∷ bs) (joined chunks ++ part) k) in
    let first = feed-first last b bs n (length x) h k total hi (omega arith) in
    (
      ap (λ r. r.0) first,
      ap (λ r. (feed_each r.1 (n + 1) (chunks ++ (part ++ stuffing) ∷ []))) first
          ∙ feed_each-section (b ∷ bs) chunks part stuffing (length x) n p (sym size),
    )
