-- ===== src/Packet/Encode/Fields.antt =====
-- Each optional field of the adaptation field: what `encode` writes, its reader reads back.
use oxideav_mpegts.Base.{
  ℕ, ◌+◌, ◌^◌, ◌≤◌, ◌<◌, String, ◌≡◌, Bool, Option, none, some, List, ◌∷◌, ◌++◌, arith, is_some,
  length, length-append, low_bits, index, add_or_truncated-ok, ok,
}
use oxideav_mpegts.Base.Int.{ℤ, as_u8, IsI8, as_i8-as_u8}
use oxideav_mpegts.Base.View.{At, At-length, index-At, index-At_zero, At-cons, slice-At}
use oxideav_mpegts.Packet.Extension.{parse_ltw, parse_piecewise_rate, parse_seamless_splice}
use oxideav_mpegts.Packet.Field.{
  parse_clock_reference, parse_clock_field, parse_splice_countdown, parse_private_data,
}
use oxideav_mpegts.Packet.Encode.{
  encode_clock_reference, clock_bytes, countdown_bytes, private_bytes, ltw_bytes, rate_bytes,
  splice_bytes,
}

-- A reference that fits 33 and 9 bits.
abbrev pub IsReference : ℕ × ℕ → Type 0
IsReference (b, e) = (b < 2 ^ 33) × (e < 2 ^ 9)

abbrev pub OptionAll {ℓ} : {A : Type ℓ} → (A → Type 0) → Option A → Type 0
OptionAll P none = Unit {0}
OptionAll P (some a) = P a

abbrev pub first_of? {ℓ κ} : {A : Type ℓ} {B : Type κ} → Option (A × B) → Option A
first_of? none = none
first_of? (some (a, b)) = some a

abbrev pub second_of? {ℓ κ} : {A : Type ℓ} {B : Type κ} → Option (A × B) → Option B
second_of? none = none
second_of? (some (a, b)) = some b

module _ (raw : List ℕ) (cursor : ℕ) (post : List ℕ) where
  pub parse_clock_reference-At :
      (b e : ℕ) (what : String)
      → IsReference (b, e)
      → At raw cursor (encode_clock_reference b e ++ post)
      → parse_clock_reference raw cursor what ≡ ok (b, e)
  unfolding parse_clock_reference encode_clock_reference index
  parse_clock_reference-At b e what h v = ground (
    arith,
    At-length raw cursor (encode_clock_reference b e ++ post) v,
    index-At_zero raw cursor (encode_clock_reference b e ++ post) v,
    index-At raw cursor 1 (encode_clock_reference b e ++ post) v,
    index-At raw cursor 2 (encode_clock_reference b e ++ post) v,
    index-At raw cursor 3 (encode_clock_reference b e ++ post) v,
    index-At raw cursor 4 (encode_clock_reference b e ++ post) v,
    index-At raw cursor 5 (encode_clock_reference b e ++ post) v,
  )

  pub parse_clock_field-At :
      (r : Option (ℕ × ℕ)) (what : String)
      → OptionAll IsReference r
      → At raw cursor (clock_bytes r ++ post)
      → parse_clock_field raw cursor what (is_some r)
        ≡ ok (first_of? r, second_of? r, cursor + length (clock_bytes r))
  unfolding parse_clock_field clock_bytes
  parse_clock_field-At none what h v = ground arith
  parse_clock_field-At (some (b, e)) what h v = rw (parse_clock_reference-At b e what h v)

  pub parse_splice_countdown-At :
      (c : Option ℤ)
      → OptionAll IsI8 c
      → At raw cursor (countdown_bytes c ++ post)
      → parse_splice_countdown raw cursor (is_some c) ≡ ok (c, cursor + length (countdown_bytes c))
  unfolding parse_splice_countdown countdown_bytes index
  parse_splice_countdown-At none h v = ground arith
  parse_splice_countdown-At (some c) h v = ground (
    arith,
    At-length raw cursor (as_u8 c ∷ post) v,
    index-At_zero raw cursor (as_u8 c ∷ post) v,
    as_i8-as_u8 c h,
  )

  pub parse_private_data-At :
      (d : Option (List ℕ))
      → OptionAll (λ bytes. length bytes ≤ 255) d
      → length raw < 2 ^ 32
      → At raw cursor (private_bytes d ++ post)
      → parse_private_data raw cursor (is_some d) ≡ ok (d, cursor + length (private_bytes d))
  unfolding parse_private_data private_bytes index
  parse_private_data-At none h small v = ground arith
  parse_private_data-At (some bytes) h small v = ground (
    arith,
    At-length raw cursor (low_bits (length bytes) 8 ∷ (bytes ++ post)) v,
    length-append bytes post,
    index-At_zero raw cursor (low_bits (length bytes) 8 ∷ (bytes ++ post)) v,
    add_or_truncated-ok "TS adaptation_field private_data" (length raw) (cursor + 1) (length bytes),
    slice-At raw (cursor + 1) bytes post
        (At-cons raw cursor (low_bits (length bytes) 8) (bytes ++ post) v),
  )

module _ (raw : List ℕ) (body_end cursor : ℕ) (post : List ℕ) where
  pub parse_ltw-At :
      (l : Option (Bool × ℕ))
      → OptionAll (λ (p : Bool × ℕ). p.1 < 2 ^ 15) l
      → cursor + length (ltw_bytes l) ≤ body_end
      → At raw cursor (ltw_bytes l ++ post)
      → parse_ltw raw body_end cursor (is_some l)
        ≡ ok (first_of? l, second_of? l, cursor + length (ltw_bytes l))
  unfolding parse_ltw ltw_bytes index
  parse_ltw-At none h le v = ground arith
  parse_ltw-At (some (valid, offset)) h le v = ground (
    arith,
    index-At_zero raw cursor (ltw_bytes (some (valid, offset)) ++ post) v,
    index-At raw cursor 1 (ltw_bytes (some (valid, offset)) ++ post) v,
  )

  pub parse_piecewise_rate-At :
      (r : Option ℕ)
      → OptionAll (λ n. n < 2 ^ 22) r
      → cursor + length (rate_bytes r) ≤ body_end
      → At raw cursor (rate_bytes r ++ post)
      → parse_piecewise_rate raw body_end cursor (is_some r)
        ≡ ok (r, cursor + length (rate_bytes r))
  unfolding parse_piecewise_rate rate_bytes index
  parse_piecewise_rate-At none h le v = ground arith
  parse_piecewise_rate-At (some rate) h le v = ground (
    arith,
    index-At_zero raw cursor (rate_bytes (some rate) ++ post) v,
    index-At raw cursor 1 (rate_bytes (some rate) ++ post) v,
    index-At raw cursor 2 (rate_bytes (some rate) ++ post) v,
  )

  pub parse_seamless_splice-At :
      (s : Option (ℕ × ℕ))
      → OptionAll (λ (p : ℕ × ℕ). (p.0 < 16) × (p.1 < 2 ^ 33)) s
      → cursor + length (splice_bytes s) ≤ body_end
      → At raw cursor (splice_bytes s ++ post)
      → parse_seamless_splice raw body_end cursor (is_some s)
        ≡ ok (first_of? s, second_of? s, cursor + length (splice_bytes s))
  unfolding parse_seamless_splice splice_bytes index
  parse_seamless_splice-At none h le v = ground arith
  parse_seamless_splice-At (some (t, d)) h le v = ground (
    arith,
    index-At_zero raw cursor (splice_bytes (some (t, d)) ++ post) v,
    index-At raw cursor 1 (splice_bytes (some (t, d)) ++ post) v,
    index-At raw cursor 2 (splice_bytes (some (t, d)) ++ post) v,
    index-At raw cursor 3 (splice_bytes (some (t, d)) ++ post) v,
    index-At raw cursor 4 (splice_bytes (some (t, d)) ++ post) v,
  )
