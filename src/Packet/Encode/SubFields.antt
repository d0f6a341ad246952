-- ===== src/Packet/Encode/SubFields.antt =====
-- The extension inside the adaptation field: what `encode` writes, `parse_extension` reads back.
use oxideav_mpegts.Base.{
  ℕ, ◌+◌, ◌^◌, ◌≤◌, ◌<◌, ◌≡◌, refl, subst, Bool, true, false, Option, none, some, List, ◌∷◌, ◌++◌,
  append_assoc, arith, ◌==◌, if◌then◌else◌, is_some, length, length-append, low_bits, flag, bit_of,
  index, add_or_truncated-ok, ok,
}
use oxideav_mpegts.Base.View.{At, At-length, index-At_zero, At-append, At-cons}
use oxideav_mpegts.Packet.Extension.{
  AdaptationFieldExtension, parse_extension_body, parse_extension,
}
use oxideav_mpegts.Packet.Field.{parse_extension_field}
use oxideav_mpegts.Packet.Encode.{
  AdaptationFieldExtensionSpec, ltw_bytes, rate_bytes, splice_bytes, extension_len, extension_flags,
  extension_bytes,
}
use oxideav_mpegts.Packet.Encode.Fields.{
  OptionAll, first_of?, second_of?, parse_ltw-At, parse_piecewise_rate-At, parse_seamless_splice-At,
}

pub bit_of-lt : (b : Bool) → bit_of b < 2
bit_of-lt true = omega arith
bit_of-lt false = omega arith

pub bit_of-eq_one : (b : Bool) → (bit_of b == 1) ≡ b
bit_of-eq_one true = refl
bit_of-eq_one false = refl

-- The widths that an extension's fields have on the wire.
pub record IsExtension (e : AdaptationFieldExtensionSpec) : Type 0 where
  pub ltw_fits : OptionAll (λ (p : Bool × ℕ). p.1 < 2 ^ 15) e.ltw
  pub rate_fits : OptionAll (λ n. n < 2 ^ 22) e.piecewise_rate
  pub splice_fits : OptionAll (λ (p : ℕ × ℕ). (p.0 < 16) × (p.1 < 2 ^ 33)) e.seamless_splice

-- What the reader returns for an extension.
abbrev pub decoded_extension : AdaptationFieldExtensionSpec → AdaptationFieldExtension
decoded_extension e = record {
  ext_length = extension_len e;
  ltw_flag = is_some e.ltw;
  piecewise_rate_flag = is_some e.piecewise_rate;
  seamless_splice_flag = is_some e.seamless_splice;
  ltw_valid_flag = first_of? e.ltw;
  ltw_offset = second_of? e.ltw;
  piecewise_rate = e.piecewise_rate;
  splice_type = first_of? e.seamless_splice;
  dts_next_au = second_of? e.seamless_splice;
}

abbrev pub decoded_extension? :
    Option AdaptationFieldExtensionSpec → Option AdaptationFieldExtension
decoded_extension? none = none
decoded_extension? (some e) = some (decoded_extension e)

extension_flags_bits :
    (e : AdaptationFieldExtensionSpec)
    → (flag (extension_flags e) 7 ≡ is_some e.ltw)
      × (flag (extension_flags e) 6 ≡ is_some e.piecewise_rate)
      × (flag (extension_flags e) 5 ≡ is_some e.seamless_splice)
unfolding extension_flags
extension_flags_bits e = ground arith

abbrev sub_fields : AdaptationFieldExtensionSpec → List ℕ
sub_fields e = ltw_bytes e.ltw ++ (rate_bytes e.piecewise_rate ++ splice_bytes e.seamless_splice)

length-ltw_bytes : (l : Option (Bool × ℕ)) → length (ltw_bytes l) ≡ (if is_some l then 2 else 0)
unfolding ltw_bytes
length-ltw_bytes none = refl
length-ltw_bytes (some l) = refl

length-rate_bytes : (r : Option ℕ) → length (rate_bytes r) ≡ (if is_some r then 3 else 0)
unfolding rate_bytes
length-rate_bytes none = refl
length-rate_bytes (some r) = refl

length-splice_bytes : (s : Option (ℕ × ℕ)) → length (splice_bytes s) ≡ (if is_some s then 5 else 0)
unfolding splice_bytes
length-splice_bytes none = refl
length-splice_bytes (some s) = refl

-- The length byte counts the flags byte and the sub-fields.
pub extension_len-sub_fields :
    (e : AdaptationFieldExtensionSpec) → extension_len e ≡ 1 + length (sub_fields e)
unfolding extension_len
extension_len-sub_fields e = omega (
  arith,
  length-ltw_bytes e.ltw,
  length-rate_bytes e.piecewise_rate,
  length-splice_bytes e.seamless_splice,
  length-append (ltw_bytes e.ltw) (rate_bytes e.piecewise_rate ++ splice_bytes e.seamless_splice),
  length-append (rate_bytes e.piecewise_rate) (splice_bytes e.seamless_splice),
)

pub extension_len-le : (e : AdaptationFieldExtensionSpec) → extension_len e ≤ 11
unfolding extension_len
extension_len-le e = ground arith

-- A cursor in front of two parts, the second with more behind it.
pub At-assoc :
    (raw : List ℕ) (c : ℕ) (xs ys zs : List ℕ)
    → At raw c ((xs ++ ys) ++ zs)
    → At raw c (xs ++ (ys ++ zs))
At-assoc raw c xs ys zs v = subst (At raw c) (append_assoc xs ys zs) v

module _ (raw : List ℕ) (e : AdaptationFieldExtensionSpec) (cursor : ℕ) (post : List ℕ)
    (v : At raw cursor (extension_flags e ∷ (sub_fields e ++ post))) where
  abbrev behind_ltw : List ℕ
  behind_ltw = rate_bytes e.piecewise_rate ++ splice_bytes e.seamless_splice

  abbrev rate_cursor : ℕ
  rate_cursor = cursor + 1 + length (ltw_bytes e.ltw)

  abbrev splice_cursor : ℕ
  splice_cursor = rate_cursor + length (rate_bytes e.piecewise_rate)

  At-ltw : At raw (cursor + 1) (ltw_bytes e.ltw ++ (behind_ltw ++ post))
  At-ltw =
      At-assoc raw (cursor + 1) (ltw_bytes e.ltw) behind_ltw post
        (At-cons raw cursor (extension_flags e) (sub_fields e ++ post) v)

  At-rate :
      At raw rate_cursor (rate_bytes e.piecewise_rate ++ (splice_bytes e.seamless_splice ++ post))
  At-rate =
      At-assoc raw rate_cursor (rate_bytes e.piecewise_rate) (splice_bytes e.seamless_splice) post
        (At-append raw (cursor + 1) (ltw_bytes e.ltw) (behind_ltw ++ post) At-ltw)

  At-splice : At raw splice_cursor (splice_bytes e.seamless_splice ++ post)
  At-splice =
      At-append raw rate_cursor (rate_bytes e.piecewise_rate)
        (splice_bytes e.seamless_splice ++ post) At-rate

  sub_fields_end :
      splice_cursor + length (splice_bytes e.seamless_splice) ≡ cursor + extension_len e
  sub_fields_end = omega (
    arith,
    extension_len-sub_fields e,
    length-append (ltw_bytes e.ltw) behind_ltw,
    length-append (rate_bytes e.piecewise_rate) (splice_bytes e.seamless_splice),
  )

  parse_extension_body-At :
      (body_end : ℕ)
      → IsExtension e
      → body_end ≡ cursor + extension_len e
      → parse_extension_body raw (extension_len e) body_end cursor
        ≡ ok (decoded_extension e, body_end)
  unfolding parse_extension_body index
  parse_extension_body-At body_end fits end =
      let bits = extension_flags_bits e in
      rw
        (
          index-At_zero raw cursor (extension_flags e ∷ (sub_fields e ++ post)) v,
          bits.0,
          bits.1,
          bits.2,
          parse_ltw-At raw body_end (cursor + 1) (behind_ltw ++ post) e.ltw fits.ltw_fits
              (omega (arith, sub_fields_end)) At-ltw,
          parse_piecewise_rate-At raw body_end rate_cursor (splice_bytes e.seamless_splice ++ post)
              e.piecewise_rate fits.rate_fits (omega (arith, sub_fields_end)) At-rate,
          parse_seamless_splice-At raw body_end splice_cursor post e.seamless_splice
              fits.splice_fits (omega (arith, sub_fields_end)) At-splice,
        )
        (rw low)
    where
      low : low_bits (extension_len e) 8 ≡ extension_len e
      low = omega (arith, extension_len-le e)

parse_extension-At :
    (raw : List ℕ) (e : AdaptationFieldExtensionSpec) (cursor : ℕ) (post : List ℕ)
    → IsExtension e
    → length raw < 2 ^ 32
    → At raw cursor (extension_bytes (some e) ++ post)
    → parse_extension raw cursor
      ≡ ok (decoded_extension e, cursor + length (extension_bytes (some e)))
unfolding parse_extension extension_bytes index
parse_extension-At raw e cursor post fits small v = ground (
  arith,
  index-At_zero raw cursor (extension_bytes (some e) ++ post) v,
  At-length raw cursor (extension_bytes (some e) ++ post) v,
  length-append (sub_fields e) post,
  extension_len-sub_fields e,
  extension_len-le e,
  add_or_truncated-ok "TS adaptation_field_extension body" (length raw) (cursor + 1)
      (extension_len e),
  parse_extension_body-At raw e (cursor + 1) post
      (At-cons raw cursor (low_bits (extension_len e) 8)
        (extension_flags e ∷ (sub_fields e ++ post)) v)
      (cursor + 1 + extension_len e) fits,
)

pub parse_extension_field-At :
    (raw : List ℕ) (e : Option AdaptationFieldExtensionSpec) (cursor : ℕ) (post : List ℕ)
    → OptionAll IsExtension e
    → length raw < 2 ^ 32
    → At raw cursor (extension_bytes e ++ post)
    → parse_extension_field raw cursor (is_some e)
      ≡ ok (decoded_extension? e, cursor + length (extension_bytes e))
unfolding parse_extension_field extension_bytes
parse_extension_field-At raw none cursor post fits small v = ground arith
parse_extension_field-At raw (some e) cursor post fits small v =
    rw (parse_extension-At raw e cursor post fits small v)
