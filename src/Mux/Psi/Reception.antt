-- ===== src/Mux/Psi/Reception.antt =====
-- The packets that `write_psi_packet` emits, read as packets and fed to the section assembler.
use oxideav_mpegts.Base.{
  ℕ, zero, suc, ◌+◌, ◌-◌, ◌^◌, ◌≤◌, ◌<◌, min, ◌≡◌, refl, ap, ◌∙◌, ◌≢◌, inl, inr, Bool, true, false,
  ◌||◌, Option, none, List, [], ◌∷◌, ◌++◌, append_assoc, append-nil, arith, ltb, leb, lt→ltb,
  leb→le, Bool-cases, length, take, drop, replicate, length-append, length-take, length-drop,
  length-replicate, take-append-drop, take_all, low_bits, Outcome, ◌>>=◌, ok, err, panic,
}
use oxideav_mpegts.Packet.Header.{parse}
use oxideav_mpegts.Psi.Assembler.{Assembler, feed, feed_continuation, note_cc}
use oxideav_mpegts.Psi.Assembler.Invariant.{IsSection, state}
use oxideav_mpegts.Psi.Assembler.Reassembly.{waiting, continuation-middle, continuation-last}
use oxideav_mpegts.Mux.Frame.{framed, parse-payload}
use oxideav_mpegts.Mux.Psi.{psi_packet, psi_room, write_psi_loop, write_psi_packet}
use oxideav_mpegts.Mux.Psi.Sections.{psi_payload, idle, feed-whole, feed-front}

-- Each packet parsed and fed, as the demuxer does it on a PSI PID: the sections, in order, and the
-- assembler at the end.
unfoldable pub received : Assembler → List (List ℕ) → Outcome (List (List ℕ) × Assembler)
received s [] = ok ([], s)
received s (bytes ∷ packets) = do
  ts ← parse bytes
  let fed = feed s ts.payload ts.payload_unit_start ts.continuity_counter
  sections ← fed.0
  (later, end) ← received fed.1 packets
  ok (sections ++ later, end)

parse-psi_packet :
    (first : Bool) (pid cc : ℕ) (chunk : List ℕ)
    → pid < 2 ^ 13
    → cc < 16
    → length chunk ≤ psi_room first
    → parse (psi_packet first pid cc chunk)
      ≡ ok (framed first pid cc none (psi_payload first chunk) (psi_packet first pid cc chunk))
unfolding psi_packet
parse-psi_packet true pid cc chunk h k m = parse-payload true pid cc h k (psi_payload true chunk) (
    omega (
      arith,
      length-append chunk (replicate (183 - length chunk) 0xFF),
      length-replicate {A = ℕ} (183 - length chunk) 0xFF,
    ))
parse-psi_packet false pid cc chunk h k m =
    parse-payload false pid cc h k (psi_payload false chunk) (
      omega (
        arith,
        length-append chunk (replicate (184 - length chunk) 0xFF),
        length-replicate {A = ℕ} (184 - length chunk) 0xFF,
      ))

received-packet :
    (s : Assembler) (first : Bool) (pid cc : ℕ) (chunk : List ℕ) (packets sections : List (List ℕ))
    (next : Assembler)
    → pid < 2 ^ 13
    → cc < 16
    → length chunk ≤ psi_room first
    → feed s (psi_payload first chunk) first cc ≡ (ok sections, next)
    → received s (psi_packet first pid cc chunk ∷ packets)
      ≡ (received next packets >>= λ (later, end). ok (sections ++ later, end))
unfolding received
received-packet s first pid cc chunk packets sections next h k m e =
    rw (parse-psi_packet first pid cc chunk h k m, e)

note_cc-low :
    (buffer : List ℕ) (total last : ℕ)
    → last < 16
    → note_cc (waiting buffer total last) (low_bits (last + 1) 4)
      ≡ waiting buffer total (low_bits (last + 1) 4)
unfolding note_cc
note_cc-low buffer total last h = ground arith

feed-low :
    (buffer chunk : List ℕ) (total last : ℕ)
    → last < 16
    → feed (waiting buffer total last) chunk false (low_bits (last + 1) 4)
      ≡ feed_continuation (waiting buffer total (low_bits (last + 1) 4)) chunk
unfolding feed
feed-low buffer chunk total last h =
    ap (λ s. feed_continuation s chunk) (note_cc-low buffer total last h)

module _ (fuel : ℕ) (first : Bool) (pid cc : ℕ) where
  -- Nothing is left behind the section.
  write_psi_loop-stop : write_psi_loop fuel false pid cc [] ≡ ([], cc)
  unfolding write_psi_loop
  write_psi_loop-stop = stop fuel
    where
      stop : (n : ℕ) → write_psi_loop n false pid cc [] ≡ ([], cc)
      stop zero = refl
      stop (suc n) = ground arith

  -- The last packet, and any packet before it.
  write_psi_loop-last :
      (rest : List ℕ)
      → (first || ltb 0 (length rest)) ≡ true
      → length rest ≤ psi_room first
      → write_psi_loop (suc fuel) first pid cc rest ≡ (
        psi_packet first pid cc rest ∷ (write_psi_loop fuel false pid (low_bits (cc + 1) 4) []).0,
        (write_psi_loop fuel false pid (low_bits (cc + 1) 4) []).1,
      )
  unfolding write_psi_loop
  write_psi_loop-last rest go h =
      let n = min (psi_room first) (length rest) in
      let gone : drop n rest ≡ [] = length-zero (drop n rest) (omega (arith, length-drop n rest)) in
      rw (take_all n rest (omega arith), gone, go)
    where
      length-zero : (xs : List ℕ) → length xs ≡ 0 → xs ≡ []
      length-zero [] h = refl
      length-zero (x ∷ xs) h = absurd (omega arith)

  write_psi_loop-more :
      (rest : List ℕ)
      → psi_room first < length rest
      → let later =
          write_psi_loop fuel false pid (low_bits (cc + 1) 4) (drop (psi_room first) rest) in
        write_psi_loop (suc fuel) first pid cc rest
        ≡ (psi_packet first pid cc (take (psi_room first) rest) ∷ later.0, later.1)
  unfolding write_psi_loop
  write_psi_loop-more rest h =
      let size : min (psi_room first) (length rest) ≡ psi_room first = omega arith in
      let go : (first || ltb 0 (length rest)) ≡ true = ground arith in rw (size, go)

received-nil : (s : Assembler) → received s [] ≡ ok ([], s)
unfolding received
received-nil s = refl

bind-same :
    (m : Outcome (List (List ℕ) × Assembler)) → (m >>= λ (later, end). ok ([] ++ later, end)) ≡ m
bind-same (ok a) = refl
bind-same (err e) = refl
bind-same panic = refl

module _ (fuel : ℕ) (first : Bool) (pid cc : ℕ) (s next : Assembler) (rest : List ℕ)
    (h : pid < 2 ^ 13) (k : cc < 16) where
  -- The packet that ends the section, and a packet that does not.
  received-end :
      (section : List ℕ)
      → (first || ltb 0 (length rest)) ≡ true
      → length rest ≤ psi_room first
      → feed s (psi_payload first rest) first cc ≡ (ok (section ∷ []), next)
      → let written = write_psi_loop (suc fuel) first pid cc rest in
        (written.1 ≡ low_bits (cc + 1) 4) × (received s written.0 ≡ ok (section ∷ [], next))
  received-end section go fits fed =
      let last = write_psi_loop-last fuel first pid cc rest go fits in
      let stop = write_psi_loop-stop fuel false pid (low_bits (cc + 1) 4) in
      (
        rw (last, stop),
        rw (
          last,
          stop,
          received-packet s first pid cc rest [] (section ∷ []) next h k fits fed,
          received-nil next,
        ),
      )

  received-more :
      psi_room first < length rest
      → feed s (psi_payload first (take (psi_room first) rest)) first cc ≡ (ok [], next)
      → let written = write_psi_loop (suc fuel) first pid cc rest in
        let later =
          write_psi_loop fuel false pid (low_bits (cc + 1) 4) (drop (psi_room first) rest) in
        (written.1 ≡ later.1) × (received s written.0 ≡ received next later.0)
  received-more over fed =
      let later =
        write_psi_loop fuel false pid (low_bits (cc + 1) 4) (drop (psi_room first) rest) in
      let more = write_psi_loop-more fuel first pid cc rest over in
      (
        rw more,
        rw (
          more,
          received-packet s first pid cc (take (psi_room first) rest) later.0 [] next h k
              (omega (arith, length-take (psi_room first) rest)) fed,
          bind-same (received next later.0),
        ),
      )

-- What is left of a section behind what the assembler has.
received-loop :
    (fuel pid last total : ℕ) (buffer rest : List ℕ)
    → pid < 2 ^ 13
    → last < 16
    → 0 < length rest
    → length rest ≤ fuel
    → length buffer + length rest ≡ total
    → let written = write_psi_loop fuel false pid (low_bits (last + 1) 4) rest in
      (cc : ℕ) × (cc < 16)
      × (written.1 ≡ low_bits (cc + 1) 4)
      × (received (waiting buffer total last) written.0 ≡ ok ((buffer ++ rest) ∷ [], idle cc))
received-loop zero pid last total buffer rest h k p m e = absurd (omega arith)
received-loop (suc fuel) pid last total buffer rest h k p m e =
    elim (Bool-cases (leb (length rest) 184)) [
      | inl fits ↦
          let (counter, packets) =
            received-end fuel false pid now (waiting buffer total last) (idle now) rest h
              (omega arith) (buffer ++ rest) (lt→ltb 0 (length rest) p) (leb→le _ _ fits)
              (feed-low buffer (psi_payload false rest) total last k
                ∙ continuation-last buffer rest (replicate (184 - length rest) 0xFF) total now p
                    e) in
          (now, omega arith, counter, packets)
      | inr over ↦
          let big : 184 < length rest = ground arith in
          let size = length-take 184 rest in
          let (cc, small, next, read) =
            received-loop fuel pid now total (buffer ++ chunk) (drop 184 rest) h (omega arith)
              (omega (arith, length-drop 184 rest)) (omega (arith, length-drop 184 rest))
              (omega (arith, length-drop 184 rest, length-append buffer chunk, size)) in
          let (counter, packets) =
            received-more fuel false pid now (waiting buffer total last)
              (waiting (buffer ++ chunk) total now) rest h (omega arith) big
              (feed-low buffer (psi_payload false chunk) total last k ∙ middle big size) in
          (cc, small, counter ∙ next, packets ∙ read ∙ ap (λ x. ok (x ∷ [], idle cc)) whole)
    ]
  where
    now : ℕ
    now = low_bits (last + 1) 4

    chunk : List ℕ
    chunk = take 184 rest

    whole : (buffer ++ chunk) ++ drop 184 rest ≡ buffer ++ rest
    whole =
        append_assoc buffer chunk (drop 184 rest)
        ∙ ap (λ xs. buffer ++ xs) (take-append-drop 184 rest)

    middle :
        184 < length rest
        → length chunk ≡ min 184 (length rest)
        → feed_continuation (waiting buffer total now) (psi_payload false chunk)
          ≡ (ok [], waiting (buffer ++ chunk) total now)
    middle big size =
        let none_left : 184 - length chunk ≡ 0 = omega arith in
        rw (none_left, append-nil chunk) (continuation-middle buffer chunk total now (omega arith))

-- The packets that `write_psi_packet` emits for a section of a valid length that does not start with the
-- stuffing byte 0xFF, parsed one by one and fed to a section assembler that buffers nothing, give
-- exactly that section and leave the assembler with nothing buffered; the counter for the next packet
-- is one more than the last one received.
pub write_psi_packet-received :
    (last : Option ℕ) (pid cc b : ℕ) (bs : List ℕ)
    → pid < 2 ^ 13
    → cc < 16
    → b ≢ 0xFF
    → IsSection (b ∷ bs)
    → let written = write_psi_packet pid cc (b ∷ bs) in
      (end : ℕ) × (end < 16)
      × (written.1 ≡ low_bits (end + 1) 4)
      × (received (state [] none last) written.0 ≡ ok ((b ∷ bs) ∷ [], idle end))
unfolding write_psi_packet
write_psi_packet-received last pid cc b bs h k plain section =
    elim (Bool-cases (leb (length (b ∷ bs)) 183)) [
      | inl fits ↦
          let (counter, packets) =
            received-end (length (b ∷ bs)) true pid cc (state [] none last) (idle cc) (b ∷ bs) h k
              (b ∷ bs) refl (leb→le _ _ fits)
              (feed-whole last (183 - length (b ∷ bs)) cc b bs plain section) in
          (cc, k, counter, packets)
      | inr over ↦
          let big : 183 < length (b ∷ bs) = ground arith in
          let (counter, packets) =
            received-more (length (b ∷ bs)) true pid cc (state [] none last)
              (waiting (take 183 (b ∷ bs)) (length (b ∷ bs)) cc) (b ∷ bs) h k big
              (feed-front last cc b bs plain section big) in
          let size = length-drop 183 (b ∷ bs) in
          let (end, small, next, read) =
            received-loop (length (b ∷ bs)) pid cc (length (b ∷ bs)) (take 183 (b ∷ bs))
              (drop 183 (b ∷ bs)) h k (omega (arith, size)) (omega (arith, size))
              (omega (arith, size, length-take 183 (b ∷ bs))) in
          (
            end,
            small,
            counter ∙ next,
            packets ∙ read ∙ ap (λ x. ok (x ∷ [], idle end)) (take-append-drop 183 (b ∷ bs)),
          )
    ]
