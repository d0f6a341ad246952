-- ===== src/Pes/Encode/RoundTrip.antt =====
-- The PES packet that `encode` writes, `PesPacket::parse` reads back whole.
use oxideav_mpegts.Base.{
  ℕ, ◌+◌, ◌≡◌, refl, subst, inl, inr, true, List, ◌∷◌, ◌++◌, arith, if◌then◌else◌, le→ltb_false,
  Bool-cases, length, length-append, ◌>>>◌, low_bits, index, slice_back, ok,
}
use oxideav_mpegts.Base.View.{At, At-length, At-append, slice-At}
use oxideav_mpegts.Pes.Header.{
  headerless, parse_optional_header, parse_with_header, parse_pes, has_optional_pes_header,
}
use oxideav_mpegts.Pes.Encode.{
  PesHeaderSpec, flags1_byte, flags2_byte, middle_bytes, encode_with_header, encode_pes,
}
use oxideav_mpegts.Pes.Encode.Fields.{parse_timestamps-At}
use oxideav_mpegts.Pes.Encode.Header.{IsTyped, decoded, decoded_pes, parse_optional_header_At}
use oxideav_mpegts.Pes.Encode.Written.{
  assembled, Written, encode_with_header-Written, encode_headerless-eq_ok,
}

-- Reading it is reading its optional header.
parse_with_header-assembled :
    (s : PesHeaderSpec) (flags n : ℕ) (opt payload : List ℕ)
    → parse_with_header s.stream_id (assembled s flags n opt payload)
      ≡ parse_optional_header s.stream_id (flags1_byte s) (flags2_byte s flags) opt payload
unfolding parse_with_header index
parse_with_header-assembled s flags n opt payload =
    let raw = assembled s flags n opt payload in
    let body : At raw 9 (opt ++ payload) = record { rest_eq = refl; inside = omega arith } in
    let total = At-length raw 9 (opt ++ payload) body in
    rw (
      le→ltb_false (length raw) 9 (omega arith),
      le→ltb_false (length raw) (9 + length opt) (omega (arith, total, length-append opt payload)),
      slice-At raw 9 opt payload body,
      slice_back raw (9 + length opt) (omega (arith, total, length-append opt payload)),
      (At-append raw 9 opt payload body).rest_eq,
    )

parse_optional_header-Written :
    (s : PesHeaderSpec) (payload out : List ℕ) (w : Written s payload out)
    → IsTyped s
    → parse_optional_header s.stream_id
        (flags1_byte s)
        (flags2_byte s w.flags)
        (w.times ++ (middle_bytes s ++ w.ext))
        payload
      ≡ ok (decoded s payload)
unfolding middle_bytes
parse_optional_header-Written s payload out w typed =
    let opt = w.times ++ (middle_bytes s ++ w.ext) in
    let whole : At opt 0 opt = record { rest_eq = refl; inside = omega arith } in
    let (small, read) =
      parse_timestamps-At opt (middle_bytes s ++ w.ext) s.pts_90k s.dts_90k w.flags w.times
        w.fits.pts_fits w.fits.dts_fits w.times_eq whole in
    let behind =
      subst (λ k. At opt k (middle_bytes s ++ w.ext)) (omega arith)
        (At-append opt 0 w.times (middle_bytes s ++ w.ext) whole) in
    parse_optional_header_At opt (length w.times) s w.ext behind w.flags payload typed w.fits small
      read w.ext_eq

-- A packet that starts with the start code and a `stream_id` of either kind.
parse_pes-started :
    (stream_id n1 n2 : ℕ) (rest : List ℕ)
    → parse_pes (0 ∷ 0 ∷ 1 ∷ stream_id ∷ n1 ∷ n2 ∷ rest) ≡ (
        if has_optional_pes_header stream_id
        then parse_with_header stream_id (0 ∷ 0 ∷ 1 ∷ stream_id ∷ n1 ∷ n2 ∷ rest)
        else ok (headerless stream_id rest))
unfolding parse_pes index
parse_pes-started stream_id n1 n2 rest =
    let raw = 0 ∷ 0 ∷ 1 ∷ stream_id ∷ n1 ∷ n2 ∷ rest in
    rw (le→ltb_false (length raw) 6 (omega arith), slice_back raw 6 (omega arith))

parse_pes-with_header :
    (s : PesHeaderSpec) (payload out : List ℕ)
    → IsTyped s
    → has_optional_pes_header s.stream_id ≡ true
    → encode_with_header s payload ≡ ok out
    → parse_pes out ≡ ok (decoded s payload)
parse_pes-with_header s payload out typed e h =
    let w = encode_with_header-Written s payload out h in
    let opt = w.times ++ (middle_bytes s ++ w.ext) in
    rw (
      w.out_eq,
      parse_pes-started s.stream_id (low_bits (w.n >>> 8) 8) (low_bits w.n 8)
          (flags1_byte s ∷ flags2_byte s w.flags ∷ length opt ∷ (opt ++ payload)),
      e,
      parse_with_header-assembled s w.flags w.n opt payload,
      parse_optional_header-Written s payload out w typed,
    )

-- What `encode` writes, the reader of a PES packet reads back: every field of the header and of its
-- extension and the payload; for a `stream_id` without an optional header, the `stream_id` and the
-- payload.
pub parse_pes-encode :
    (s : PesHeaderSpec) (payload out : List ℕ)
    → IsTyped s
    → encode_pes s payload ≡ ok out
    → parse_pes out ≡ ok (decoded_pes s payload)
unfolding encode_pes
parse_pes-encode s payload out typed h = elim (Bool-cases (has_optional_pes_header s.stream_id)) [
  | inl e ↦ rw e (parse_pes-with_header s payload out typed e (ground (arith, e, h)))
  | inr e ↦
      let w = encode_headerless-eq_ok s payload out (ground (arith, e, h)) in
      rw (
        w.2,
        parse_pes-started s.stream_id (low_bits (length payload >>> 8) 8)
            (low_bits (length payload) 8) payload,
        e,
      )
]
