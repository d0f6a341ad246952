-- ===== src/Psi/Pat/Laws.antt =====
-- The program association table: hostile bytes, and the table that was built.
use oxideav_mpegts.Base.{
  ℕ, zero, suc, ◌+◌, ◌-◌, ◌*◌, ◌/◌, ◌^◌, ◌≤◌, ◌<◌, ◌≡◌, refl, inl, inr, true, List, [], ◌∷◌, ◌++◌,
  arith, leb, leb→le, le→leb, Bool-cases, length, All, IsBytes, byte_at-IsByte, index, Ensures,
  Ensures-bind, index-ok, ok,
}
use oxideav_mpegts.Base.View.{At, At-length, index-At, index-At_zero, At-append}
use oxideav_mpegts.Psi.Section.{parse_section_header}
use oxideav_mpegts.Psi.Section.Safety.{HeaderFits, parse_section_header-HeaderFits}
use oxideav_mpegts.Psi.Section.RoundTrip.{parse_section_header-long_section}
use oxideav_mpegts.Psi.Pat.{
  ProgramAssociationTable, read_program, read_programs, parse_pat, program_bytes, single_section,
  build_pat,
}

-- A program number of 16 bits and a PID of 13.
abbrev pub IsProgram : ℕ × ℕ → Type 0
IsProgram (number, pid) = (number < 2 ^ 16) × (pid < 2 ^ 13)

read_program-Ensures :
    (body : List ℕ) (i : ℕ)
    → IsBytes body
    → i + 4 ≤ length body
    → Ensures IsProgram (read_program body i)
unfolding read_program
read_program-Ensures body i bytes h = ground (
  arith,
  index-ok body i,
  index-ok body (i + 1),
  index-ok body (i + 2),
  index-ok body (i + 3),
  byte_at-IsByte body i bytes,
  byte_at-IsByte body (i + 1) bytes,
)

-- The entries, and how many there are.
abbrev IsProgramList : ℕ → List (ℕ × ℕ) → Type 0
IsProgramList n ps = All IsProgram ps × (length ps ≡ n / 4)

read_programs-Ensures :
    (fuel : ℕ) (body : List ℕ) (i : ℕ)
    → IsBytes body
    → i ≤ length body
    → length body < fuel + i
    → Ensures (IsProgramList (length body - i)) (read_programs fuel body i)
unfolding read_programs
read_programs-Ensures zero body i bytes h f = absurd (omega arith)
read_programs-Ensures (suc fuel) body i bytes h f = elim (Bool-cases (leb (i + 4) (length body))) [
  | inr e ↦ rw e (tt, ground arith)
  | inl e ↦
      let le : i + 4 ≤ length body = leb→le (i + 4) (length body) e in
      rw e (
        Ensures-bind _ (IsProgramList (length body - i)) (read_program body i) _
          (read_program-Ensures body i bytes le)
          λ entry is_entry.
            Ensures-bind _ (IsProgramList (length body - i)) (read_programs fuel body (i + 4)) _
              (read_programs-Ensures fuel body (i + 4) bytes le (omega arith))
              λ rest (hs, n). ((is_entry, hs), omega arith))
]

-- A PAT parser's result: the widths of its fields, and no byte of the section used twice.
pub record PatFits (section : List ℕ) (p : ProgramAssociationTable) : Type 0 where
  pub stream_fits : p.transport_stream_id < 2 ^ 16
  pub version_fits : p.version_number < 32
  pub number_fits : p.section_number < 256
  pub last_fits : p.last_section_number < 256
  pub programs_fit : All IsProgram p.programs
  pub programs_inside : 4 * length p.programs + 12 ≤ length section

-- On any bytes `parse_pat` never panics: it returns an error, or a table with a transport_stream_id of
-- 16 bits, a version of 5, section numbers of 8, program numbers of 16 and PIDs of 13, and with at most
-- one entry for four bytes of the section behind its header and CRC.
pub parse_pat-PatFits :
    (section : List ℕ) → IsBytes section → Ensures (PatFits section) (parse_pat section)
unfolding parse_pat
parse_pat-PatFits section bytes =
    Ensures-bind (HeaderFits section) (PatFits section) (parse_section_header section 0) _
      (parse_section_header-HeaderFits section 0 bytes)
      λ (hdr, body) f.
        Ensures-bind (IsProgramList (length body - 0)) (PatFits section)
          (read_programs (length body + 1) body 0) _
          (read_programs-Ensures (length body + 1) body 0 f.body_bytes (omega arith) (omega arith))
          λ programs (hs, n). record {
            stream_fits = f.extension_fits;
            version_fits = f.version_fits;
            number_fits = f.number_fits;
            last_fits = f.last_fits;
            programs_fit = hs;
            programs_inside = omega (arith, f.body_inside, n);
          }

read_program-At :
    (body : List ℕ) (i number pid : ℕ) (post : List ℕ)
    → IsProgram (number, pid)
    → At body i (program_bytes ((number, pid) ∷ []) ++ post)
    → read_program body i ≡ ok (number, pid)
unfolding read_program program_bytes index
read_program-At body i number pid post h v = ground (
  arith,
  index-At_zero body i (program_bytes ((number, pid) ∷ []) ++ post) v,
  index-At body i 1 (program_bytes ((number, pid) ∷ []) ++ post) v,
  index-At body i 2 (program_bytes ((number, pid) ∷ []) ++ post) v,
  index-At body i 3 (program_bytes ((number, pid) ∷ []) ++ post) v,
)

read_programs-At :
    (ps : List (ℕ × ℕ)) (fuel : ℕ) (body : List ℕ) (i : ℕ)
    → All IsProgram ps
    → length ps < fuel
    → At body i (program_bytes ps)
    → read_programs fuel body i ≡ ok ps
unfolding read_programs program_bytes
read_programs-At ps zero body i h f v = absurd (omega arith)
read_programs-At [] (suc fuel) body i h f v = ground (arith, At-length body i [] v)
read_programs-At ((number, pid) ∷ ps) (suc fuel) body i (h, hs) f v = rw (
  le→leb (i + 4) (length body)
      (omega (arith, At-length body i (program_bytes ((number, pid) ∷ ps)) v)),
  read_program-At body i number pid (program_bytes ps) h v,
  read_programs-At ps fuel body (i + 4) hs (omega arith)
      (At-append body i (program_bytes ((number, pid) ∷ [])) (program_bytes ps) v),
)

length-program_bytes : (ps : List (ℕ × ℕ)) → length (program_bytes ps) ≡ 4 * length ps
unfolding program_bytes
length-program_bytes [] = refl
length-program_bytes (p ∷ ps) = omega (arith, length-program_bytes ps)

program_bytes-IsBytes : (ps : List (ℕ × ℕ)) → IsBytes (program_bytes ps)
unfolding program_bytes
program_bytes-IsBytes [] = tt
program_bytes-IsBytes (p ∷ ps) =
    (omega arith, (omega arith, (omega arith, (omega arith, program_bytes-IsBytes ps))))

-- `parse` gives back the stream, the version and the programs, in their order, that `build_pat`
-- was given, for values that fit their fields and at most 1021 programs, whatever follows the section.
pub parse_pat-build_pat :
    (stream version : ℕ) (programs : List (ℕ × ℕ)) (rest : List ℕ)
    → stream < 2 ^ 16
    → version < 32
    → All IsProgram programs
    → length programs ≤ 1021
    → parse_pat (build_pat stream version programs ++ rest)
      ≡ ok (record {
        transport_stream_id = stream;
        version_number = version;
        current_next_indicator = true;
        section_number = 0;
        last_section_number = 0;
        programs = programs;
      })
unfolding parse_pat build_pat
parse_pat-build_pat stream version programs rest hs hv hp n = rw (
  parse_section_header-long_section 0 (single_section stream version) (program_bytes programs) rest
      (omega arith) (omega arith) (program_bytes-IsBytes programs)
      (omega (arith, length-program_bytes programs)),
  read_programs-At programs (length (program_bytes programs) + 1) (program_bytes programs) 0 hp
      (omega (arith, length-program_bytes programs))
      (record { rest_eq = refl; inside = omega arith }),
)
