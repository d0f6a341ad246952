-- ===== src/Pes/Encode/Written.antt =====
-- src/pes.rs: the parts of what `encode` returns.
use oxideav_mpegts.Base.{
  ℕ, ◌+◌, ◌≤◌, ◌≡◌, sym, false, List, ◌∷◌, ◌++◌, arith, ltb, length, ◌>>>◌, low_bits, fail_if,
  ok-injective, >>=-eq_ok, >>-eq_ok, fail_if-eq_ok, ok,
}
use oxideav_mpegts.Pes.Encode.{
  PesHeaderSpec, encode_timestamps, encode_pes_extension, check_spec, encode_length, flags1_byte,
  flags2_byte, middle_bytes, encode_with_header, encode_headerless, has_optional_fields,
}
use oxideav_mpegts.Pes.Encode.Accepts.{IsHeader, check_spec-IsHeader}

-- The packet with an optional header, from its parts.
abbrev pub assembled : PesHeaderSpec → ℕ → ℕ → List ℕ → List ℕ → List ℕ
assembled s flags n opt payload =
    0
    ∷ 0
    ∷ 1
    ∷ s.stream_id
    ∷ low_bits (n >>> 8) 8
    ∷ low_bits n 8
    ∷ flags1_byte s
    ∷ flags2_byte s flags
    ∷ length opt
    ∷ (opt ++ payload)

-- The parts of a packet that `encode` writes for a stream with an optional header.
pub record Written (s : PesHeaderSpec) (payload out : List ℕ) : Type 0 where
  pub flags : ℕ
  pub times : List ℕ
  pub ext : List ℕ
  pub n : ℕ
  pub fits : IsHeader s
  pub times_eq : encode_timestamps s.pts_90k s.dts_90k ≡ ok (flags, times)
  pub ext_eq : encode_pes_extension s.pes_extension ≡ ok ext
  pub short : ltb 255 (length (times ++ (middle_bytes s ++ ext))) ≡ false
  pub sized :
      encode_length s.unbounded_length s.stream_id
        (3 + length (times ++ (middle_bytes s ++ ext)) + length payload)
      ≡ ok n
  pub out_eq : out ≡ assembled s flags n (times ++ (middle_bytes s ++ ext)) payload

pub encode_with_header-Written :
    (s : PesHeaderSpec) (payload out : List ℕ)
    → encode_with_header s payload ≡ ok out
    → Written s payload out
unfolding encode_with_header
encode_with_header-Written s payload out h =
    let (checked, h1) = >>-eq_ok (check_spec s) _ h in
    let ((flags, times), written, h2) = >>=-eq_ok (encode_timestamps s.pts_90k s.dts_90k) _ h1 in
    let (ext, extended, h3) = >>=-eq_ok (encode_pes_extension s.pes_extension) _ h2 in
    let opt = times ++ (middle_bytes s ++ ext) in
    let (short, h4) = >>-eq_ok (fail_if (ltb 255 (length opt)) _) _ h3 in
    let (n, sized, h5) =
      >>=-eq_ok (encode_length s.unbounded_length s.stream_id (3 + length opt + length payload)) _
        h4 in
    record {
      flags = flags;
      times = times;
      ext = ext;
      n = n;
      fits = (check_spec-IsHeader s).0 checked;
      times_eq = written;
      ext_eq = extended;
      short = fail_if-eq_ok _ _ short;
      sized = sized;
      out_eq = sym (ok-injective h5);
    }

-- What `encode` writes without an optional header.
pub encode_headerless-eq_ok :
    (s : PesHeaderSpec) (payload out : List ℕ)
    → encode_headerless s payload ≡ ok out
    → (has_optional_fields s ≡ false)
      × (length payload ≤ 65535)
      × (out
          ≡ 0
            ∷ 0
            ∷ 1
            ∷ s.stream_id
            ∷ low_bits (length payload >>> 8) 8
            ∷ low_bits (length payload) 8
            ∷ payload)
unfolding encode_headerless
encode_headerless-eq_ok s payload out h =
    let (plain, h1) = >>-eq_ok (fail_if (has_optional_fields s) _) _ h in
    let (short, h2) = >>-eq_ok (fail_if (ltb 65535 (length payload)) _) _ h1 in
    let within = fail_if-eq_ok _ _ short in
    (fail_if-eq_ok _ _ plain, ground arith, sym (ok-injective h2))
