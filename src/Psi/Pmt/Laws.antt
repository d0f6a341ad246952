-- ===== src/Psi/Pmt/Laws.antt =====
-- The program map table on hostile bytes.
use oxideav_mpegts.Base.{
  ℕ, zero, suc, ◌+◌, ◌-◌, ◌^◌, ◌≤◌, ◌<◌, ◌≡◌, inl, inr, List, [], ◌∷◌, arith, ltb, leb, leb→le,
  Bool-cases, length, take, drop, All, All-take, All-drop, IsByte, length-take, length-drop,
  IsBytes, low_bits, be16, byte_at-IsByte, Ensures, Ensures-bind, byte_at, index-ok, slice-ok,
  sub_usize-ok, add_or_overrun-ok, take_counted,
}
use oxideav_mpegts.Psi.Section.{SectionHeader, parse_section_header}
use oxideav_mpegts.Psi.Section.Safety.{HeaderFits, parse_section_header-HeaderFits}
use oxideav_mpegts.Psi.Pmt.{
  PmtStream, ProgramMapTable, read_stream, read_streams, read_pmt_body, parse_pmt,
}

taken-IsBytes : (body : List ℕ) (cursor n : ℕ) → IsBytes body → IsBytes (take n (drop cursor body))
taken-IsBytes body cursor n h = All-take IsByte n (drop cursor body) (All-drop IsByte cursor body h)

take_counted-Ensures :
    (body : List ℕ) (cursor n : ℕ)
    → cursor ≤ length body
    → cursor + n < 2 ^ 64
    → Ensures
        (λ (r : List ℕ × ℕ).
          (length r.0 ≡ n)
          × (r.1 ≡ cursor + n)
          × (cursor + n ≤ length body)
          × (IsBytes body → IsBytes r.0))
        (take_counted body cursor n)
unfolding take_counted
take_counted-Ensures body cursor n h k = ground (
  arith,
  add_or_overrun-ok (length body) cursor n h k,
  sub_usize-ok (length body) cursor h,
  slice-ok body cursor (cursor + n),
  length-take (cursor + n - cursor) (drop cursor body),
  length-drop cursor body,
  taken-IsBytes body cursor (cursor + n - cursor),
)

-- Widths of a stream's fields.
pub record IsPmtStream (s : PmtStream) : Type 0 where
  pub type_fits : s.stream_type < 256
  pub pid_fits : s.elementary_pid < 2 ^ 13
  pub length_fits : length s.descriptors < 2 ^ 12
  pub descriptor_bytes : IsBytes s.descriptors

-- A stream's fields, and the bytes that it takes behind `i`.
abbrev IsStreamAt : List ℕ → ℕ → PmtStream × ℕ → Type 0
IsStreamAt body i r = IsPmtStream r.0 × (r.1 ≡ i + 5 + length r.0.descriptors) × (r.1 ≤ length body)

read_stream-Ensures :
    (body : List ℕ) (i : ℕ)
    → IsBytes body
    → length body < 2 ^ 32
    → i + 5 ≤ length body
    → Ensures (IsStreamAt body i) (read_stream body i)
unfolding read_stream
read_stream-Ensures body i bytes small h =
    rw
      (
        index-ok body i (omega arith),
        index-ok body (i + 1) (omega arith),
        index-ok body (i + 2) (omega arith),
        index-ok body (i + 3) (omega arith),
        index-ok body (i + 4) (omega arith),
      )
      (Ensures-bind _ (IsStreamAt body i) (take_counted body (i + 5) n) _
        (take_counted-Ensures body (i + 5) n h (omega (arith, byte_at-IsByte body (i + 4) bytes)))
        λ (part, end) (l, e, le, typed). (
          record {
            type_fits = byte_at-IsByte body i bytes;
            pid_fits = omega (arith, byte_at-IsByte body (i + 2) bytes);
            length_fits = omega (arith, byte_at-IsByte body (i + 4) bytes, l);
            descriptor_bytes = typed bytes;
          },
          omega (arith, l, e),
          omega (arith, le, e),
        ))
  where
    n : ℕ
    n = be16 (low_bits (byte_at body (i + 3)) 4) (byte_at body (i + 4))

-- The bytes that the streams took: five for each, and its descriptors.
abbrev pub stream_bytes_read : List PmtStream → ℕ
stream_bytes_read [] = 0
stream_bytes_read (s ∷ ss) = 5 + length s.descriptors + stream_bytes_read ss

abbrev StreamsFrom : ℕ → List PmtStream → Type 0
StreamsFrom room ss = All IsPmtStream ss × (stream_bytes_read ss ≤ room)

read_streams-Ensures :
    (fuel : ℕ) (body : List ℕ) (i : ℕ)
    → IsBytes body
    → length body < 2 ^ 32
    → i ≤ length body
    → length body < fuel + i
    → Ensures (StreamsFrom (length body - i)) (read_streams fuel body i)
unfolding read_streams
read_streams-Ensures zero body i bytes small h f = absurd (omega arith)
read_streams-Ensures (suc fuel) body i bytes small h f =
    elim (Bool-cases (leb (i + 5) (length body))) [
      | inr e ↦ rw e (tt, omega arith)
      | inl e ↦ rw e (
          Ensures-bind _ (StreamsFrom (length body - i)) (read_stream body i) _
            (read_stream-Ensures body i bytes small (leb→le (i + 5) (length body) e))
            λ (s, next) (typed, e', le).
              Ensures-bind _ (StreamsFrom (length body - i)) (read_streams fuel body next) _
                (read_streams-Ensures fuel body next bytes small le (omega arith))
                λ rest (hs, n). ((typed, hs), omega arith))
    ]

-- The widths of the fields of a table, and no byte of the section used twice.
pub record PmtFits (section : List ℕ) (p : ProgramMapTable) : Type 0 where
  pub number_fits : p.program_number < 2 ^ 16
  pub version_fits : p.version_number < 32
  pub pcr_pid_fits : p.pcr_pid < 2 ^ 13
  pub info_fits : length p.program_info < 2 ^ 12
  pub info_bytes : IsBytes p.program_info
  pub streams_fit : All IsPmtStream p.streams
  pub inside : 16 + length p.program_info + stream_bytes_read p.streams ≤ length section

read_pmt_body-Ensures :
    (section : List ℕ) (hdr : SectionHeader) (body : List ℕ)
    → HeaderFits section (hdr, body)
    → Ensures (PmtFits section) (read_pmt_body hdr body)
unfolding read_pmt_body
read_pmt_body-Ensures section hdr body f = elim (Bool-cases (ltb (length body) 4)) [
  | inl short ↦ rw short tt
  | inr long ↦
      let le : 4 ≤ length body = ground arith in
      rw
        (
          long,
          index-ok body 0 (omega arith),
          index-ok body 1 (omega arith),
          index-ok body 2 (omega arith),
          index-ok body 3 (omega arith),
        )
        (Ensures-bind _ (PmtFits section) (take_counted body 4 n) _
          (take_counted-Ensures body 4 n le (omega (arith, byte_at-IsByte body 3 f.body_bytes)))
          λ (info, pi_end) (l, e, inside, typed).
            Ensures-bind _ (PmtFits section) (read_streams (length body + 1) body pi_end) _
              (read_streams-Ensures (length body + 1) body pi_end f.body_bytes
                (omega (arith, f.body_short)) (omega (arith, inside, e)) (omega arith))
              λ streams (hs, m). record {
                number_fits = f.extension_fits;
                version_fits = f.version_fits;
                pcr_pid_fits = omega (arith, byte_at-IsByte body 1 f.body_bytes);
                info_fits = omega (arith, l, byte_at-IsByte body 3 f.body_bytes);
                info_bytes = typed f.body_bytes;
                streams_fit = hs;
                inside = omega (arith, f.body_inside, m, l, e, inside);
              })
]
  where
    n : ℕ
    n = be16 (low_bits (byte_at body 2) 4) (byte_at body 3)

-- On any bytes `parse_pmt` never panics: it returns an error, or a table with a program number of 16
-- bits, a version of 5, PIDs of 13 and stream types of 8, descriptor loops of bytes shorter than 4096,
-- and with all that it holds inside the section: the descriptors, five bytes for each stream and 16 more.
pub parse_pmt-PmtFits :
    (section : List ℕ) → IsBytes section → Ensures (PmtFits section) (parse_pmt section)
unfolding parse_pmt
parse_pmt-PmtFits section bytes =
    Ensures-bind (HeaderFits section) (PmtFits section) (parse_section_header section 2) _
      (parse_section_header-HeaderFits section 2 bytes)
      λ (hdr, body) f. read_pmt_body-Ensures section hdr body f
