-- ===== src/Psi/Tests.antt =====
-- src/psi.rs, src/build.rs: tests and examples on concrete sections.
use oxideav_mpegts.Base.{
  ℕ, ◌≤◌, ◌≡◌, refl, true, none, some, List, [], ◌∷◌, ◌++◌, arith, length, IsBytes, index, slice,
  sub_usize, checked_add, Ensures, add_or_overrun, take_counted, unsupported, ok, err,
}
use oxideav_mpegts.Psi.Crc.{mpeg2_crc32}
use oxideav_mpegts.Psi.Section.{
  parse_section_header, frame_section, check_crc, read_header, long_section,
}
use oxideav_mpegts.Psi.Section.Safety.{HeaderFits, parse_section_header-HeaderFits}
use oxideav_mpegts.Psi.Section.RoundTrip.{
  parse_section_header-long_section, parse_section_header-other,
}
use oxideav_mpegts.Psi.Pat.{read_program, read_programs, parse_pat, build_pat, single_section}
use oxideav_mpegts.Psi.Pat.Laws.{PatFits, parse_pat-PatFits, parse_pat-build_pat}
use oxideav_mpegts.Psi.Pmt.{
  PmtStream, read_pmt_body, read_streams, read_stream, parse_pmt, build_pmt, pmt_body, loop_bytes,
  stream_bytes,
}
use oxideav_mpegts.Psi.Pmt.Laws.{PmtFits, parse_pmt-PmtFits}
use oxideav_mpegts.Psi.Pmt.RoundTrip.{IsStream, parse_pmt-build_pmt}
use oxideav_mpegts.Psi.Assembler.{feed}
use oxideav_mpegts.Psi.Assembler.Invariant.{state}
use oxideav_mpegts.Psi.Assembler.Reassembly.{feed_each, feed_each-split_section}
use oxideav_mpegts.Psi.Assembler.Straddle.{feed-straddled_header}
use oxideav_mpegts.Psi.Iterate.{sections_of, feed-iter_sections}

-- The check value of CRC-32/MPEG-2.
crc_check :
    mpeg2_crc32 (0x31 ∷ 0x32 ∷ 0x33 ∷ 0x34 ∷ 0x35 ∷ 0x36 ∷ 0x37 ∷ 0x38 ∷ 0x39 ∷ []) ≡ 0x0376E6E7
unfolding mpeg2_crc32
crc_check = refl

-- A PAT with version 3 and one program, and a PMT with a descriptor and a video stream.
abbrev pat_section : List ℕ
pat_section =
    0 ∷ 0xB0 ∷ 0x0D ∷ 0 ∷ 1 ∷ 0xC7 ∷ 0 ∷ 0 ∷ 0 ∷ 1 ∷ 0xE1 ∷ 0 ∷ 0x4F ∷ 0xCB ∷ 0x33 ∷ 0xAC ∷ []

abbrev pmt_section : List ℕ
pmt_section =
    2 ∷ 0xB0 ∷ 0x17 ∷ 0 ∷ 1 ∷ 0xC1 ∷ 0 ∷ 0 ∷ 0xE1 ∷ 1 ∷ 0xF0 ∷ 2 ∷ 5 ∷ 0 ∷ 0x1B ∷ 0xE1 ∷ 1 ∷ 0xF0
    ∷ 3 ∷ 0x52 ∷ 1 ∷ 9 ∷ 0x3A ∷ 0x13 ∷ 0xF4 ∷ 0x24 ∷ []

pat_section-IsBytes : IsBytes pat_section
pat_section-IsBytes = ground arith

pmt_section-IsBytes : IsBytes pmt_section
pmt_section-IsBytes = ground arith

-- They are accepted.
parse_pat-section :
    parse_pat pat_section
    ≡ ok (record {
      transport_stream_id = 1;
      version_number = 3;
      current_next_indicator = true;
      section_number = 0;
      last_section_number = 0;
      programs = (1, 0x100) ∷ [];
    })
unfolding parse_pat parse_section_header frame_section check_crc read_header read_programs
    read_program index slice sub_usize mpeg2_crc32
parse_pat-section = refl

parse_pmt-section :
    parse_pmt pmt_section
    ≡ ok (record {
      program_number = 1;
      version_number = 0;
      current_next_indicator = true;
      pcr_pid = 0x101;
      program_info = 5 ∷ 0 ∷ [];
      streams =
          record { stream_type = 0x1B; elementary_pid = 0x101; descriptors = 0x52 ∷ 1 ∷ 9 ∷ [] }
          ∷ [];
    })
unfolding parse_pmt parse_section_header frame_section check_crc read_header read_pmt_body
    read_streams read_stream take_counted add_or_overrun checked_add index slice sub_usize
    mpeg2_crc32
parse_pmt-section = refl

parse_section_header-HeaderFits_example :
    Ensures (HeaderFits pat_section) (parse_section_header pat_section 0)
parse_section_header-HeaderFits_example =
    parse_section_header-HeaderFits pat_section 0 pat_section-IsBytes

parse_pat-PatFits_example : Ensures (PatFits pat_section) (parse_pat pat_section)
parse_pat-PatFits_example = parse_pat-PatFits pat_section pat_section-IsBytes

parse_pmt-PmtFits_example : Ensures (PmtFits pmt_section) (parse_pmt pmt_section)
parse_pmt-PmtFits_example = parse_pmt-PmtFits pmt_section pmt_section-IsBytes

parse_section_header-long_section_example :
    parse_section_header (long_section 0x42 (single_section 7 3) (1 ∷ 2 ∷ []) ++ (0xFF ∷ [])) 0x42
    ≡ ok (single_section 7 3, 1 ∷ 2 ∷ [])
parse_section_header-long_section_example =
    parse_section_header-long_section 0x42 (single_section 7 3) (1 ∷ 2 ∷ []) (0xFF ∷ [])
      (omega arith)
      (record {
        extension_fits = omega arith;
        version_fits = omega arith;
        number_fits = omega arith;
        last_fits = omega arith;
      })
      (omega arith) (omega arith)

parse_section_header-other_example :
    parse_section_header (long_section 0x42 (single_section 7 3) (1 ∷ 2 ∷ []) ++ []) 0x46
    ≡ err (unsupported "PSI table_id does not match expected value")
parse_section_header-other_example =
    parse_section_header-other 0x42 0x46 (single_section 7 3) (1 ∷ 2 ∷ []) [] (omega arith)

parse_pat-build_pat_example :
    parse_pat (build_pat 1 3 ((0, 0x10) ∷ (1, 0x100) ∷ []) ++ (0xFF ∷ []))
    ≡ ok (record {
      transport_stream_id = 1;
      version_number = 3;
      current_next_indicator = true;
      section_number = 0;
      last_section_number = 0;
      programs = (0, 0x10) ∷ (1, 0x100) ∷ [];
    })
parse_pat-build_pat_example =
    parse_pat-build_pat 1 3 ((0, 0x10) ∷ (1, 0x100) ∷ []) (0xFF ∷ []) (omega arith) (omega arith)
      ((omega arith, omega arith), ((omega arith, omega arith), tt)) (omega arith)

abbrev video : PmtStream
video = record { stream_type = 0x1B; elementary_pid = 0x101; descriptors = 0x52 ∷ 1 ∷ 9 ∷ [] }

video-IsStream : IsStream video
video-IsStream = record {
  type_fits = omega arith;
  pid_fits = omega arith;
  length_fits = omega arith;
  descriptor_bytes = (omega arith, (omega arith, (omega arith, tt)));
}

video_room : length (pmt_body 0x101 (5 ∷ 0 ∷ []) (video ∷ [])) ≤ 4086
unfolding pmt_body loop_bytes stream_bytes
video_room = omega arith

parse_pmt-build_pmt_example :
    parse_pmt (build_pmt 1 0 0x101 (5 ∷ 0 ∷ []) (video ∷ []) ++ [])
    ≡ ok (record {
      program_number = 1;
      version_number = 0;
      current_next_indicator = true;
      pcr_pid = 0x101;
      program_info = 5 ∷ 0 ∷ [];
      streams = video ∷ [];
    })
parse_pmt-build_pmt_example =
    parse_pmt-build_pmt 1 0 0x101 (5 ∷ 0 ∷ []) (video ∷ []) [] (omega arith) (omega arith)
      (omega arith) (omega arith, (omega arith, tt)) (video-IsStream, tt) video_room (omega arith)

feed_each-split_section_example :
    let first = feed (state [] none (some 14)) (0 ∷ 0x40 ∷ 0 ∷ 5 ∷ 1 ∷ []) true 15 in
    (first.0 ≡ ok [])
    × (feed_each first.1 16 ((2 ∷ 3 ∷ []) ∷ ((4 ∷ 5 ∷ []) ++ (0xFF ∷ [])) ∷ [])
        ≡ (ok [] ∷ ok ((0x40 ∷ 0 ∷ 5 ∷ 1 ∷ 2 ∷ 3 ∷ 4 ∷ 5 ∷ []) ∷ []) ∷ [], state [] none (some 1)))
feed_each-split_section_example =
    feed_each-split_section (some 14) 0x40 (0 ∷ 5 ∷ 1 ∷ []) ((2 ∷ 3 ∷ []) ∷ []) (4 ∷ 5 ∷ [])
      (0xFF ∷ []) 15 (omega arith) (omega arith) (omega arith) (omega arith, omega arith, refl)

-- A whole section behind one byte of an older one, and the first two bytes of the next.
feed-straddled_header_example :
    let first =
      feed
        (state [] none (some 6))
        (1 ∷ ((9 ∷ []) ++ (((0x40 ∷ 0 ∷ 1 ∷ 9 ∷ []) ++ []) ++ (0x41 ∷ 0 ∷ []))))
        true
        7 in
    (first.0 ≡ ok ((0x40 ∷ 0 ∷ 1 ∷ 9 ∷ []) ∷ []))
    × (first.1.in_flight ≡ 0x41 ∷ 0 ∷ [])
    × ((feed_each first.1 8 ((1 ∷ 8 ∷ []) ∷ (0xFF ∷ []) ∷ [])).0 ≡ ok [] ∷ ok [] ∷ [])
feed-straddled_header_example =
    feed-straddled_header (some 6) (9 ∷ []) ((0x40 ∷ 0 ∷ 1 ∷ 9 ∷ []) ∷ []) 0x41 (0 ∷ [])
      ((1 ∷ 8 ∷ []) ∷ (0xFF ∷ []) ∷ []) 7 8 ((omega arith, (omega arith, omega arith, refl)), tt)
      (omega arith) (omega arith)

two_sections :
    (feed (state [] none none) (0 ∷ 0x40 ∷ 0 ∷ 1 ∷ 9 ∷ 0x41 ∷ 0 ∷ 1 ∷ 8 ∷ 0xFF ∷ []) true 0).0
    ≡ ok ((0x40 ∷ 0 ∷ 1 ∷ 9 ∷ []) ∷ (0x41 ∷ 0 ∷ 1 ∷ 8 ∷ []) ∷ [])
unfolding feed
two_sections = refl

feed-iter_sections_example :
    (0x40 ∷ 0 ∷ 1 ∷ 9 ∷ []) ∷ (0x41 ∷ 0 ∷ 1 ∷ 8 ∷ []) ∷ []
    ≡ sections_of (0 ∷ 0x40 ∷ 0 ∷ 1 ∷ 9 ∷ 0x41 ∷ 0 ∷ 1 ∷ 8 ∷ 0xFF ∷ [])
feed-iter_sections_example =
    feed-iter_sections none (0 ∷ 0x40 ∷ 0 ∷ 1 ∷ 9 ∷ 0x41 ∷ 0 ∷ 1 ∷ 8 ∷ 0xFF ∷ []) 0
      ((0x40 ∷ 0 ∷ 1 ∷ 9 ∷ []) ∷ (0x41 ∷ 0 ∷ 1 ∷ 8 ∷ []) ∷ []) two_sections
