-- ===== src/Pes/Encode/Returns.antt =====
-- src/pes.rs: for which specifications and payloads `encode` returns a packet.
use oxideav_mpegts.Base.{
  ℕ, ◌+◌, ◌≤◌, ◌≡◌, refl, sym, ap, subst, ◌∙◌, ◌↔◌, inl, inr, Bool, true, false, Option, none, some,
  is_some, List, [], ◌∷◌, ◌++◌, arith, le→ltb_false, Bool-cases, length, length-append, ◌>>>◌,
  low_bits, ok-injective, >>-eq_ok, ok,
}
use oxideav_mpegts.Packet.Encode.Fields.{OptionAll}
use oxideav_mpegts.Pes.Extension.{PesExtension}
use oxideav_mpegts.Pes.Header.{has_optional_pes_header}
use oxideav_mpegts.Pes.Encode.{
  PesHeaderSpec, pes_extension_content, encode_pes_extension, check_pes_extension, encode_length,
  middle_bytes, has_optional_fields, encode_with_header, encode_headerless, encode_pes,
}
use oxideav_mpegts.Pes.Encode.Accepts.{
  IsHeader, IsExtension, check_spec-IsHeader, check_pes_extension-IsExtension,
}
use oxideav_mpegts.Pes.Encode.Written.{
  assembled, encode_with_header-Written, encode_headerless-eq_ok,
}
-- The bytes that a field occupies: a fixed count where it is given, and a counted array with its
-- length byte.
use oxideav_mpegts.Pes.Encode.Lengths.{
  given, extension_length, header_length, length-content, length-middle_bytes,
  encode_timestamps-IsPair, length-encode_timestamps,
}

encode_pes_extension-eq_ok :
    (ext : Option PesExtension) (bytes : List ℕ)
    → encode_pes_extension ext ≡ ok bytes
    → OptionAll IsExtension ext × (length bytes ≡ extension_length ext)
unfolding encode_pes_extension
encode_pes_extension-eq_ok none bytes h = (tt, ap length (sym (ok-injective h)))
encode_pes_extension-eq_ok (some e) bytes h =
    let (checked, content) = >>-eq_ok (check_pes_extension e) (ok (pes_extension_content e)) h in
    (
      (check_pes_extension-IsExtension e).0 checked,
      ap length (sym (ok-injective content)) ∙ length-content e,
    )

encode_pes_extension_returns :
    (ext : Option PesExtension)
    → OptionAll IsExtension ext
    → (bytes : List ℕ) × (encode_pes_extension ext ≡ ok bytes)
unfolding encode_pes_extension
encode_pes_extension_returns none h = ([], refl)
encode_pes_extension_returns (some e) h =
    (pes_extension_content e, rw ((check_pes_extension-IsExtension e).1 h))

-- `PES_packet_length` fits, or is unbounded on a video stream.
abbrev pub LengthFits : (unbounded_length : Bool) (stream_id tail_len : ℕ) → Type 0
LengthFits true stream_id n = (0xE0 ≤ stream_id) × (stream_id ≤ 0xEF)
LengthFits false stream_id n = n ≤ 65535

encode_length-eq_ok :
    (unbounded : Bool) (stream_id tail_len n : ℕ)
    → encode_length unbounded stream_id tail_len ≡ ok n
    → LengthFits unbounded stream_id tail_len
unfolding encode_length
encode_length-eq_ok true stream_id tail_len n h = ground arith
encode_length-eq_ok false stream_id tail_len n h = ground arith

encode_length_returns :
    (unbounded : Bool) (stream_id tail_len : ℕ)
    → LengthFits unbounded stream_id tail_len
    → (n : ℕ) × (encode_length unbounded stream_id tail_len ≡ ok n)
unfolding encode_length
encode_length_returns true stream_id tail_len h = (0, ground arith)
encode_length_returns false stream_id tail_len h = (tail_len, ground arith)

-- Nothing of the optional header is given.
abbrev pub IsPlain : PesHeaderSpec → Type 0
IsPlain s =
    (s.pts_90k ≡ none)
    × (s.dts_90k ≡ none)
    × (s.escr_27mhz ≡ none)
    × (s.es_rate_50bps ≡ none)
    × (s.trick_mode ≡ none)
    × (s.additional_copy_info ≡ none)
    × (s.previous_pes_packet_crc ≡ none)
    × (s.pes_extension ≡ none)

is_some-false_iff {ℓ} : {A : Type ℓ} (o : Option A) → (is_some o ≡ false) ↔ (o ≡ none)
is_some-false_iff none = (λ h. refl, λ h. refl)
is_some-false_iff (some a) = (λ h. cc h, λ h. cc h)

has_optional_fields-IsPlain : (s : PesHeaderSpec) → (has_optional_fields s ≡ false) ↔ IsPlain s
unfolding has_optional_fields
has_optional_fields-IsPlain s = (
  λ h. ground (
    arith,
    (is_some-false_iff s.pts_90k).0,
    (is_some-false_iff s.dts_90k).0,
    (is_some-false_iff s.escr_27mhz).0,
    (is_some-false_iff s.es_rate_50bps).0,
    (is_some-false_iff s.trick_mode).0,
    (is_some-false_iff s.additional_copy_info).0,
    (is_some-false_iff s.previous_pes_packet_crc).0,
    (is_some-false_iff s.pes_extension).0,
  ),
  λ (a, b, c, d, e, f, g, h). rw (a, b, c, d, e, f, g, h),
)

-- What `encode` accepts.
pub data Encodable (s : PesHeaderSpec) (payload : List ℕ) : Type 0 where
  with_header :
      has_optional_pes_header s.stream_id ≡ true
      → IsHeader s
      → OptionAll IsExtension s.pes_extension
      → header_length s ≤ 255
      → LengthFits s.unbounded_length s.stream_id (3 + header_length s + length payload)
      → Encodable s payload
  without_header :
      has_optional_pes_header s.stream_id ≡ false
      → IsPlain s
      → length payload ≤ 65535
      → Encodable s payload

-- The lengths of what was written.
header_length-written :
    (s : PesHeaderSpec) (times ext : List ℕ)
    → length times ≡ given s.pts_90k 5 + given s.dts_90k 5
    → length ext ≡ extension_length s.pes_extension
    → length (times ++ (middle_bytes s ++ ext)) ≡ header_length s
header_length-written s times ext ht he = rw (
  length-append times (middle_bytes s ++ ext),
  length-append (middle_bytes s) ext,
  length-middle_bytes s,
  ht,
  he,
)

encode_with_header-Encodable :
    (s : PesHeaderSpec) (payload out : List ℕ)
    → has_optional_pes_header s.stream_id ≡ true
    → encode_with_header s payload ≡ ok out
    → Encodable s payload
encode_with_header-Encodable s payload out e h =
    let w = encode_with_header-Written s payload out h in
    let (fits, le) = encode_pes_extension-eq_ok s.pes_extension w.ext w.ext_eq in
    let lt = length-encode_timestamps s.pts_90k s.dts_90k w.flags w.times w.times_eq in
    let total = header_length-written s w.times w.ext lt le in
    let short = w.short in
    let sized =
      encode_length-eq_ok s.unbounded_length s.stream_id
        (3 + length (w.times ++ (middle_bytes s ++ w.ext)) + length payload) w.n w.sized in
    with_header e w.fits fits (ground (arith, short, total))
      (subst (λ k. LengthFits s.unbounded_length s.stream_id (3 + k + length payload)) total sized)

encode_with_header_returns :
    (s : PesHeaderSpec) (payload : List ℕ)
    → IsHeader s
    → OptionAll IsExtension s.pes_extension
    → header_length s ≤ 255
    → LengthFits s.unbounded_length s.stream_id (3 + header_length s + length payload)
    → (out : List ℕ) × (encode_with_header s payload ≡ ok out)
unfolding encode_with_header
encode_with_header_returns s payload fits ext short bounded =
    let (flags, times, te) = encode_timestamps-IsPair s.pts_90k s.dts_90k fits.dts_paired in
    let (bytes, be) = encode_pes_extension_returns s.pes_extension ext in
    let le = (encode_pes_extension-eq_ok s.pes_extension bytes be).1 in
    let lt = length-encode_timestamps s.pts_90k s.dts_90k flags times te in
    let total = header_length-written s times bytes lt le in
    let (n, sized) =
      encode_length_returns s.unbounded_length s.stream_id (3 + header_length s + length payload)
        bounded in
    (
      assembled s flags n (times ++ (middle_bytes s ++ bytes)) payload,
      rw (
        (check_spec-IsHeader s).1 fits,
        te,
        be,
        total,
        le→ltb_false 255 (header_length s) short,
        sized,
      ),
    )

-- `encode` returns a packet exactly on these conditions. On a
-- `stream_id` with an optional header: the scrambling control, PTS, DTS, ESCR, additional_copy_info, the
-- counters, buffer size, pack header and second field of the extension are within their widths, a DTS
-- stands only beside a PTS that it differs from, an ES_rate is not zero and has 22 bits, the optional
-- fields are at most 255 bytes, and the length fits 16 bits or is unbounded on a video stream. On one
-- without: no timestamp, ESCR, ES_rate, trick mode, copy info, CRC or extension is given, and the payload
-- is at most 65535 bytes. The trick mode's own fields, and on a `stream_id` without the header the
-- scrambling control, the flags and `unbounded_length`, are on no condition.
pub encode_pes_returns_iff :
    (s : PesHeaderSpec) (payload : List ℕ)
    → ((out : List ℕ) × (encode_pes s payload ≡ ok out)) ↔ Encodable s payload
unfolding encode_pes encode_headerless
encode_pes_returns_iff s payload = (λ (out, h). forth out h, back)
  where
    forth : (out : List ℕ) → encode_pes s payload ≡ ok out → Encodable s payload
    forth out h = elim (Bool-cases (has_optional_pes_header s.stream_id)) [
      | inl e ↦ encode_with_header-Encodable s payload out e (ground (arith, e, h))
      | inr e ↦
          let (plain, short, eq) = encode_headerless-eq_ok s payload out (ground (arith, e, h)) in
          without_header e ((has_optional_fields-IsPlain s).0 plain) short
    ]

    back : Encodable s payload → (out : List ℕ) × (encode_pes s payload ≡ ok out)
    back (with_header e fits ext short bounded) =
        rw e (encode_with_header_returns s payload fits ext short bounded)
    back (without_header e plain short) = (
      0
          ∷ 0
          ∷ 1
          ∷ s.stream_id
          ∷ low_bits (length payload >>> 8) 8
          ∷ low_bits (length payload) 8
          ∷ payload,
      rw (e, (has_optional_fields-IsPlain s).1 plain, le→ltb_false 65535 (length payload) short),
    )
