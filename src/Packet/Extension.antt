-- ===== src/Packet/Extension.antt =====
-- src/packet.rs: `AdaptationFieldExtension` and `parse_extension`. The three optional sub-fields
-- are functions of their own over the cursor, which they return moved on.
use oxideav_mpegts.Base.{
  ℕ, ◌+◌, ◌^◌, ◌≤◌, ◌<◌, Bool, false, Option, none, some, List, arith, ltb, if◌then◌else◌, length,
  IsBytes, ◌>>>◌, ◌<<<◌, low_bits, flag, Within, byte_at-IsByte, Outcome, ◌>>=◌, index, Ensures,
  Ensures-bind, byte_at, index-ok, truncated_from, truncated_from-err, add_or_truncated,
  add_or_truncated-ok, ok,
}

pub record AdaptationFieldExtension : Type 0 where
  pub ext_length : ℕ
  pub ltw_flag : Bool
  pub piecewise_rate_flag : Bool
  pub seamless_splice_flag : Bool
  pub ltw_valid_flag : Option Bool
  pub ltw_offset : Option ℕ
  pub piecewise_rate : Option ℕ
  pub splice_type : Option ℕ
  pub dts_next_au : Option ℕ

-- `AdaptationFieldExtension::default()`.
abbrev pub default_extension : AdaptationFieldExtension
default_extension = record {
  ext_length = 0;
  ltw_flag = false;
  piecewise_rate_flag = false;
  seamless_splice_flag = false;
  ltw_valid_flag = none;
  ltw_offset = none;
  piecewise_rate = none;
  splice_type = none;
  dts_next_au = none;
}

unfoldable pub parse_ltw : List ℕ → ℕ → ℕ → Bool → Outcome (Option Bool × Option ℕ × ℕ)
parse_ltw raw body_end cursor present =
    if present
    then (if ltb body_end (cursor + 2)
        then truncated_from "TS adaptation_field ltw" body_end cursor 2
        else do
          b0 ← index raw cursor
          b1 ← index raw (cursor + 1)
          ok (some (flag b0 7), some (low_bits b0 7 <<< 8 + b1), cursor + 2))
    else ok (none, none, cursor)

unfoldable pub parse_piecewise_rate : List ℕ → ℕ → ℕ → Bool → Outcome (Option ℕ × ℕ)
parse_piecewise_rate raw body_end cursor present =
    if present
    then (if ltb body_end (cursor + 3)
        then truncated_from "TS adaptation_field piecewise_rate" body_end cursor 3
        else do
          b0 ← index raw cursor
          b1 ← index raw (cursor + 1)
          b2 ← index raw (cursor + 2)
          ok (some (low_bits b0 6 <<< 16 + b1 <<< 8 + b2), cursor + 3))
    else ok (none, cursor)

unfoldable pub parse_seamless_splice : List ℕ → ℕ → ℕ → Bool → Outcome (Option ℕ × Option ℕ × ℕ)
parse_seamless_splice raw body_end cursor present =
    if present
    then (if ltb body_end (cursor + 5)
        then truncated_from "TS adaptation_field seamless_splice" body_end cursor 5
        else do
          b0 ← index raw cursor
          b1 ← index raw (cursor + 1)
          b2 ← index raw (cursor + 2)
          b3 ← index raw (cursor + 3)
          b4 ← index raw (cursor + 4)
          let dts =
              low_bits (b0 >>> 1) 3 <<< 30
              + b1 <<< 22
              + low_bits (b2 >>> 1) 7 <<< 15
              + b3 <<< 7
              + low_bits (b4 >>> 1) 7
          ok (some (low_bits (b0 >>> 4) 4), some dts, cursor + 5))
    else ok (none, none, cursor)

-- The part of `parse_extension` behind the length checks: the flags byte and the sub-fields.
-- Whatever they leave of the body is reserved, and the cursor jumps over it.
unfoldable pub parse_extension_body : List ℕ → ℕ → ℕ → ℕ → Outcome (AdaptationFieldExtension × ℕ)
parse_extension_body raw ext_len body_end cursor = do
  flags ← index raw cursor
  (valid, offset, c1) ← parse_ltw raw body_end (cursor + 1) (flag flags 7)
  (rate, c2) ← parse_piecewise_rate raw body_end c1 (flag flags 6)
  (stype, dts, c3) ← parse_seamless_splice raw body_end c2 (flag flags 5)
  ok (
    record {
      ext_length = low_bits ext_len 8;
      ltw_flag = flag flags 7;
      piecewise_rate_flag = flag flags 6;
      seamless_splice_flag = flag flags 5;
      ltw_valid_flag = valid;
      ltw_offset = offset;
      piecewise_rate = rate;
      splice_type = stype;
      dts_next_au = dts;
    },
    body_end,
  )

unfoldable pub parse_extension : List ℕ → ℕ → Outcome (AdaptationFieldExtension × ℕ)
parse_extension raw cursor =
    if ltb (length raw) (cursor + 1)
    then truncated_from "TS adaptation_field_extension_length" (length raw) cursor 1
    else (do
      ext_len ← index raw cursor
      ext_end ←
          add_or_truncated "TS adaptation_field_extension body" (length raw) (cursor + 1) ext_len
      if ltb (length raw) ext_end
          then truncated_from "TS adaptation_field_extension body" (length raw) (cursor + 1) ext_len
          else (if ltb ext_len 1
              then ok (default_extension, cursor + 1)
              else parse_extension_body raw ext_len ext_end (cursor + 1)))

-- Every field of the extension fits its width in Table 2-6.
abbrev pub ExtensionFits : AdaptationFieldExtension → Type 0
ExtensionFits e =
    (e.ext_length < 256)
    × Within (2 ^ 15) e.ltw_offset
    × Within (2 ^ 22) e.piecewise_rate
    × Within 16 e.splice_type
    × Within (2 ^ 33) e.dts_next_au

module _ (raw : List ℕ) (body_end : ℕ) (bytes : IsBytes raw) (fits : body_end ≤ length raw) where
  parse_ltw-Ensures :
      (cursor : ℕ) (present : Bool)
      → cursor ≤ body_end
      → Ensures
          (λ (t : Option Bool × Option ℕ × ℕ). Within (2 ^ 15) t.1 × (t.2 ≤ body_end))
          (parse_ltw raw body_end cursor present)
  unfolding parse_ltw
  parse_ltw-Ensures cursor present h = ground (
    arith,
    truncated_from-err {A = Option Bool × Option ℕ × ℕ} "TS adaptation_field ltw" body_end cursor 2,
    index-ok raw cursor,
    index-ok raw (cursor + 1),
    byte_at-IsByte raw cursor,
    byte_at-IsByte raw (cursor + 1),
  )

  parse_piecewise_rate-Ensures :
      (cursor : ℕ) (present : Bool)
      → cursor ≤ body_end
      → Ensures
          (λ (t : Option ℕ × ℕ). Within (2 ^ 22) t.0 × (t.1 ≤ body_end))
          (parse_piecewise_rate raw body_end cursor present)
  unfolding parse_piecewise_rate
  parse_piecewise_rate-Ensures cursor present h = ground (
    arith,
    truncated_from-err {A = Option ℕ × ℕ} "TS adaptation_field piecewise_rate" body_end cursor 3,
    index-ok raw cursor,
    index-ok raw (cursor + 1),
    index-ok raw (cursor + 2),
    byte_at-IsByte raw cursor,
    byte_at-IsByte raw (cursor + 1),
    byte_at-IsByte raw (cursor + 2),
  )

  parse_seamless_splice-Ensures :
      (cursor : ℕ) (present : Bool)
      → cursor ≤ body_end
      → Ensures
          (λ (t : Option ℕ × Option ℕ × ℕ). Within 16 t.0 × Within (2 ^ 33) t.1 × (t.2 ≤ body_end))
          (parse_seamless_splice raw body_end cursor present)
  unfolding parse_seamless_splice
  parse_seamless_splice-Ensures cursor present h = ground (
    arith,
    truncated_from-err {A = Option ℕ × Option ℕ × ℕ} "TS adaptation_field seamless_splice" body_end
        cursor 5,
    index-ok raw cursor,
    index-ok raw (cursor + 1),
    index-ok raw (cursor + 2),
    index-ok raw (cursor + 3),
    index-ok raw (cursor + 4),
    byte_at-IsByte raw cursor,
    byte_at-IsByte raw (cursor + 1),
    byte_at-IsByte raw (cursor + 2),
    byte_at-IsByte raw (cursor + 3),
    byte_at-IsByte raw (cursor + 4),
  )

  parse_extension_body-Ensures :
      (ext_len cursor : ℕ)
      → cursor < body_end
      → Ensures
          (λ (t : AdaptationFieldExtension × ℕ). ExtensionFits t.0 × (t.1 ≤ length raw))
          (parse_extension_body raw ext_len body_end cursor)
  unfolding parse_extension_body
  parse_extension_body-Ensures ext_len cursor h =
      rw (index-ok raw cursor (omega arith), parse_extension_body)
        (Ensures-bind _ _ (parse_ltw raw body_end (cursor + 1) _) _
          (parse_ltw-Ensures (cursor + 1) _ (omega arith))
          λ (valid, offset, c1) (o, h1).
            Ensures-bind _ _ (parse_piecewise_rate raw body_end c1 _) _
              (parse_piecewise_rate-Ensures c1 _ h1)
              λ (rate, c2) (r, h2).
                Ensures-bind _ _ (parse_seamless_splice raw body_end c2 _) _
                  (parse_seamless_splice-Ensures c2 _ h2)
                  λ (stype, dts, c3) (st, d, h3). ((omega arith, o, r, st, d), omega arith))

pub parse_extension-Ensures :
    (raw : List ℕ) (cursor : ℕ)
    → IsBytes raw
    → length raw < 2 ^ 32
    → cursor ≤ length raw
    → Ensures
        (λ (t : AdaptationFieldExtension × ℕ). ExtensionFits t.0 × (t.1 ≤ length raw))
        (parse_extension raw cursor)
unfolding parse_extension
parse_extension-Ensures raw cursor bytes small h = ground (
  arith,
  truncated_from-err {A = AdaptationFieldExtension × ℕ} "TS adaptation_field_extension_length"
      (length raw) cursor 1,
  truncated_from-err {A = AdaptationFieldExtension × ℕ} "TS adaptation_field_extension body"
      (length raw) (cursor + 1) (byte_at raw cursor),
  add_or_truncated-ok "TS adaptation_field_extension body" (length raw) (cursor + 1)
      (byte_at raw cursor),
  index-ok raw cursor,
  byte_at-IsByte raw cursor,
  λ (f : cursor + 1 + byte_at raw cursor ≤ length raw)
        (g : cursor + 1 < cursor + 1 + byte_at raw cursor).
      parse_extension_body-Ensures raw (cursor + 1 + byte_at raw cursor) bytes f
        (byte_at raw cursor) (cursor + 1) g,
)
