-- ===== src/Psi/Pmt/RoundTrip.antt =====
-- The program map table that was built.
use oxideav_mpegts.Base.{
  ℕ, zero, suc, ◌+◌, ◌/◌, ◌%◌, ◌^◌, ◌≤◌, ◌<◌, min, ◌≡◌, refl, ap, subst, true, List, [], ◌∷◌, ◌++◌,
  arith, le→leb, le→ltb_false, length, All, length-append, take_all, All-append, IsByte, IsBytes,
  ◌>>>◌, low_bits, be16, index, add_or_overrun-ok, take_counted, ok,
}
use oxideav_mpegts.Base.View.{At, At-length, index-At, index-At_zero, At-append, slice-At}
use oxideav_mpegts.Psi.Section.{SectionHeader}
use oxideav_mpegts.Psi.Section.RoundTrip.{parse_section_header-long_section}
use oxideav_mpegts.Psi.Pat.{single_section}
use oxideav_mpegts.Psi.Pmt.{
  PmtStream, read_stream, read_streams, read_pmt_body, parse_pmt, loop_bytes, stream_bytes,
  pmt_body, build_pmt,
}

-- A stream whose fields fit the wire.
pub record IsStream (s : PmtStream) : Type 0 where
  pub type_fits : s.stream_type < 256
  pub pid_fits : s.elementary_pid < 2 ^ 13
  pub length_fits : length s.descriptors < 2 ^ 12
  pub descriptor_bytes : IsBytes s.descriptors

loop_bytes-short :
    (ds rest : List ℕ)
    → length ds < 2 ^ 12
    → loop_bytes ds rest ≡ (0b1111_0000 + length ds / 256) ∷ length ds % 256 ∷ (ds ++ rest)
unfolding loop_bytes
loop_bytes-short ds rest h = rw (same, take_all (length ds) ds (omega arith)) (ground arith)
  where
    same : low_bits (min (length ds) 0x0FFF) 16 ≡ length ds
    same = omega arith

length-loop_bytes :
    (ds rest : List ℕ)
    → length ds < 2 ^ 12
    → length (loop_bytes ds rest) ≡ 2 + length ds + length rest
length-loop_bytes ds rest h = rw (loop_bytes-short ds rest h) (omega (arith, length-append ds rest))

loop_bytes-IsBytes :
    (ds rest : List ℕ)
    → length ds < 2 ^ 12
    → IsBytes ds
    → IsBytes rest
    → IsBytes (loop_bytes ds rest)
loop_bytes-IsBytes ds rest h hd hr =
    rw (loop_bytes-short ds rest h) (omega arith, (omega arith, All-append IsByte ds rest hd hr))

take_counted-At :
    (body : List ℕ) (cursor n : ℕ) (ds post : List ℕ)
    → length ds ≡ n
    → n < 2 ^ 12
    → length body < 2 ^ 32
    → At body cursor (ds ++ post)
    → take_counted body cursor n ≡ ok (ds, cursor + n)
unfolding take_counted
take_counted-At body cursor n ds post e h small v =
    subst (λ k. take_counted body cursor k ≡ ok (ds, cursor + k)) e
      (rw (
        add_or_overrun-ok (length body) cursor (length ds) v.inside (omega (arith, v.inside, e)),
        le→ltb_false (length body) (cursor + length ds)
            (omega (arith, At-length body cursor (ds ++ post) v, length-append ds post)),
        slice-At body cursor ds post v,
        take_counted,
      ))

-- The five bytes in front of a stream's descriptors.
abbrev stream_front : PmtStream → List ℕ
stream_front s =
    s.stream_type
    ∷ (0b1110_0000 + low_bits (s.elementary_pid >>> 8) 5)
    ∷ low_bits s.elementary_pid 8
    ∷ (0b1111_0000 + length s.descriptors / 256)
    ∷ length s.descriptors % 256
    ∷ []

module _ (body : List ℕ) (i : ℕ) (s : PmtStream) (post : List ℕ) (small : length body < 2 ^ 32)
    (fits : IsStream s) where
  read_stream-At :
      At body i (stream_front s ++ (s.descriptors ++ post))
      → read_stream body i ≡ ok (s, i + 5 + length s.descriptors)
  unfolding read_stream index
  read_stream-At v =
      rw
        (
          index-At_zero body i (stream_front s ++ (s.descriptors ++ post)) v,
          index-At body i 1 (stream_front s ++ (s.descriptors ++ post)) v,
          index-At body i 2 (stream_front s ++ (s.descriptors ++ post)) v,
          index-At body i 3 (stream_front s ++ (s.descriptors ++ post)) v,
          index-At body i 4 (stream_front s ++ (s.descriptors ++ post)) v,
          counted,
          take_counted-At body (i + 5) (length s.descriptors) s.descriptors post refl
              fits.length_fits small (At-append body i (stream_front s) (s.descriptors ++ post) v),
        )
        (ground (arith, fits.pid_fits))
    where
      counted :
          be16 (low_bits (0b1111_0000 + length s.descriptors / 256) 4) (length s.descriptors % 256)
          ≡ length s.descriptors
      counted = omega (arith, fits.length_fits)

stream_bytes-cons :
    (s : PmtStream) (ss : List PmtStream)
    → IsStream s
    → stream_bytes (s ∷ ss) ≡ stream_front s ++ (s.descriptors ++ stream_bytes ss)
unfolding stream_bytes
stream_bytes-cons s ss fits = rw (loop_bytes-short s.descriptors (stream_bytes ss) fits.length_fits)

length-stream_bytes : (ss : List PmtStream) → All IsStream ss → length ss ≤ length (stream_bytes ss)
unfolding stream_bytes
length-stream_bytes [] h = omega arith
length-stream_bytes (s ∷ ss) (h, hs) = omega (
  arith,
  length-loop_bytes s.descriptors (stream_bytes ss) h.length_fits,
  length-stream_bytes ss hs,
)

stream_bytes-IsBytes : (ss : List PmtStream) → All IsStream ss → IsBytes (stream_bytes ss)
unfolding stream_bytes
stream_bytes-IsBytes [] h = tt
stream_bytes-IsBytes (s ∷ ss) (h, hs) = (
  h.type_fits,
  (
    omega arith,
    (
      omega arith,
      loop_bytes-IsBytes s.descriptors (stream_bytes ss) h.length_fits h.descriptor_bytes
          (stream_bytes-IsBytes ss hs),
    ),
  ),
)

read_streams-At :
    (ss : List PmtStream) (fuel : ℕ) (body : List ℕ) (i : ℕ)
    → All IsStream ss
    → length body < 2 ^ 32
    → length ss < fuel
    → At body i (stream_bytes ss)
    → read_streams fuel body i ≡ ok ss
unfolding read_streams
read_streams-At ss zero body i h small f v = absurd (omega arith)
read_streams-At [] (suc fuel) body i h small f v =
    unfold stream_bytes in ground (arith, At-length body i [] v)
read_streams-At (s ∷ ss) (suc fuel) body i (h, hs) small f v = rw (
  le→leb (i + 5) (length body)
      (omega (arith, At-length body i _ split, length-append s.descriptors (stream_bytes ss))),
  read_stream-At body i s (stream_bytes ss) small h split,
  read_streams-At ss fuel body (i + 5 + length s.descriptors) hs small (omega arith) (
      At-append body (i + 5) s.descriptors (stream_bytes ss)
        (At-append body i (stream_front s) (s.descriptors ++ stream_bytes ss) split)),
)
  where
    split : At body i (stream_front s ++ (s.descriptors ++ stream_bytes ss))
    split = subst (At body i) (stream_bytes-cons s ss h) v

-- The four bytes in front of the program's descriptors.
abbrev pmt_front : ℕ → List ℕ → List ℕ
pmt_front pcr_pid info =
    (0b1110_0000 + low_bits (pcr_pid >>> 8) 5)
    ∷ low_bits pcr_pid 8
    ∷ (0b1111_0000 + length info / 256)
    ∷ length info % 256
    ∷ []

pmt_body-split :
    (pcr_pid : ℕ) (info : List ℕ) (ss : List PmtStream)
    → length info < 2 ^ 12
    → pmt_body pcr_pid info ss ≡ pmt_front pcr_pid info ++ (info ++ stream_bytes ss)
unfolding pmt_body
pmt_body-split pcr_pid info ss h = rw (loop_bytes-short info (stream_bytes ss) h)

module _ (hdr : SectionHeader) (pcr_pid : ℕ) (info : List ℕ) (ss : List PmtStream)
    (pcr_fits : pcr_pid < 2 ^ 13) (info_fits : length info < 2 ^ 12)
    (streams_fit : All IsStream ss) where
  abbrev body : List ℕ
  body = pmt_front pcr_pid info ++ (info ++ stream_bytes ss)

  read_pmt_body-built :
      length body < 2 ^ 32
      → read_pmt_body hdr body
        ≡ ok (record {
          program_number = hdr.table_id_extension;
          version_number = hdr.version_number;
          current_next_indicator = hdr.current_next_indicator;
          pcr_pid = pcr_pid;
          program_info = info;
          streams = ss;
        })
  unfolding read_pmt_body index
  read_pmt_body-built small =
      rw
        (
          le→ltb_false (length body) 4 (omega arith),
          counted,
          take_counted-At body 4 (length info) info (stream_bytes ss) refl info_fits small at_info,
          read_streams-At ss (length body + 1) body (4 + length info) streams_fit small
              (omega
                (arith, length-stream_bytes ss streams_fit, length-append info (stream_bytes ss)))
              (At-append body 4 info (stream_bytes ss) at_info),
        )
        (ground arith)
    where
      counted :
          be16 (low_bits (0b1111_0000 + length info / 256) 4) (length info % 256) ≡ length info
      counted = omega arith

      at_info : At body 4 (info ++ stream_bytes ss)
      at_info = record { rest_eq = refl; inside = omega arith }

-- `parse` gives back everything that `build_pmt` was given, for values that fit their fields, less
-- than 4096 bytes of program info and a body of at most 4086 bytes, whatever follows the section.
pub parse_pmt-build_pmt :
    (number version pcr_pid : ℕ) (info : List ℕ) (ss : List PmtStream) (rest : List ℕ)
    → number < 2 ^ 16
    → version < 32
    → pcr_pid < 2 ^ 13
    → IsBytes info
    → All IsStream ss
    → length (pmt_body pcr_pid info ss) ≤ 4086
    → length info < 2 ^ 12
    → parse_pmt (build_pmt number version pcr_pid info ss ++ rest)
      ≡ ok (record {
        program_number = number;
        version_number = version;
        current_next_indicator = true;
        pcr_pid = pcr_pid;
        program_info = info;
        streams = ss;
      })
unfolding parse_pmt build_pmt
parse_pmt-build_pmt number version pcr_pid info ss rest hn hv hp hi hs room h =
    rw
      (
        parse_section_header-long_section 2 (single_section number version)
            (pmt_body pcr_pid info ss) rest (omega arith) (omega arith) whole_bytes room,
        pmt_body-split pcr_pid info ss h,
      )
      (read_pmt_body-built (single_section number version) pcr_pid info ss hp h hs
        (omega (arith, room, ap length (pmt_body-split pcr_pid info ss h))))
  where
    whole_bytes : IsBytes (pmt_body pcr_pid info ss)
    whole_bytes =
        unfold pmt_body in
        (
          omega arith,
          (
            omega arith,
            loop_bytes-IsBytes info (stream_bytes ss) h hi (stream_bytes-IsBytes ss hs),
          ),
        )
