-- ===== src/Packet/Encode/Accepts.antt =====
-- Which specifications `encode` accepts, and what it returns for them.
use oxideav_mpegts.Base.{
  ℕ, ◌^◌, ◌≤◌, ◌<◌, String, ◌≡◌, ◌↔◌, Bool, true, false, Option, none, some, List, arith, is_some,
  length, ◌>>◌, >>-eq_ok, ok,
}
use oxideav_mpegts.Base.Int.{ℤ, IsI8}
use oxideav_mpegts.Packet.Encode.{
  AdaptationFieldExtensionSpec, AdaptationFieldSpec, check_pcr, check_opcr, check_private_data,
  check_extension, check_reference, check_ltw, check_rate, check_splice,
}
use oxideav_mpegts.Packet.Encode.Fields.{IsReference, OptionAll}
use oxideav_mpegts.Packet.Encode.SubFields.{IsExtension}
use oxideav_mpegts.Packet.Encode.RoundTrip.{IsSpec}

abbrev pub wants_splice : Option AdaptationFieldExtensionSpec → Bool
wants_splice none = false
wants_splice (some e) = is_some e.seamless_splice

-- The pairings that section 2.4.3.5 of the standard forbids do not occur.
pub record IsPaired (s : AdaptationFieldSpec) : Type 0 where
  pub opcr_with_pcr : is_some s.opcr ≡ true → is_some s.pcr ≡ true
  pub splice_with_countdown : wants_splice s.extension ≡ true → is_some s.splice_countdown ≡ true

check_reference_iff :
    (t u : String) (r : Option (ℕ × ℕ)) → (check_reference t u r ≡ ok tt) ↔ OptionAll IsReference r
unfolding check_reference
check_reference_iff t u none = ground arith
check_reference_iff t u (some (b, e)) = ground arith

check_private_data_iff :
    (d : Option (List ℕ))
    → (check_private_data d ≡ ok tt) ↔ OptionAll (λ bytes. length bytes ≤ 255) d
unfolding check_private_data
check_private_data_iff none = ground arith
check_private_data_iff (some d) = ground arith

check_opcr_iff :
    (s : AdaptationFieldSpec)
    → (check_opcr s ≡ ok tt)
      ↔ (OptionAll IsReference s.opcr × (is_some s.opcr ≡ true → is_some s.pcr ≡ true))
unfolding check_opcr
check_opcr_iff s = ground arith

check_ltw_iff :
    (l : Option (Bool × ℕ)) → (check_ltw l ≡ ok tt) ↔ OptionAll (λ (p : Bool × ℕ). p.1 < 2 ^ 15) l
unfolding check_ltw
check_ltw_iff none = ground arith
check_ltw_iff (some l) = ground arith

check_rate_iff : (r : Option ℕ) → (check_rate r ≡ ok tt) ↔ OptionAll (λ n. n < 2 ^ 22) r
unfolding check_rate
check_rate_iff none = ground arith
check_rate_iff (some r) = ground arith

check_splice_iff :
    (c : Option ℤ) (x : Option (ℕ × ℕ))
    → (check_splice c x ≡ ok tt) ↔ (
        OptionAll (λ (p : ℕ × ℕ). (p.0 < 16) × (p.1 < 2 ^ 33)) x
        × (is_some x ≡ true → is_some c ≡ true))
unfolding check_splice
check_splice_iff c none = ground arith
check_splice_iff c (some x) = ground arith

check_extension_iff :
    (c : Option ℤ) (e : Option AdaptationFieldExtensionSpec)
    → (check_extension c e ≡ ok tt)
      ↔ (OptionAll IsExtension e × (wants_splice e ≡ true → is_some c ≡ true))
unfolding check_extension
check_extension_iff c none = ground arith
check_extension_iff c (some e) = (forth, back)
  where
    forth :
        (check_ltw e.ltw >> (check_rate e.piecewise_rate >> check_splice c e.seamless_splice))
          ≡ ok tt
        → IsExtension e × (is_some e.seamless_splice ≡ true → is_some c ≡ true)
    forth h =
        let (p, q) = >>-eq_ok (check_ltw e.ltw) _ h in
        let (r, s) = >>-eq_ok (check_rate e.piecewise_rate) _ q in
        let (t, u) = (check_splice_iff c e.seamless_splice).0 s in
        (
          record {
            ltw_fits = (check_ltw_iff e.ltw).0 p;
            rate_fits = (check_rate_iff e.piecewise_rate).0 r;
            splice_fits = t;
          },
          u,
        )

    back :
        IsExtension e × (is_some e.seamless_splice ≡ true → is_some c ≡ true)
        → (check_ltw e.ltw >> (check_rate e.piecewise_rate >> check_splice c e.seamless_splice))
          ≡ ok tt
    back (f, u) = rw (
      (check_ltw_iff e.ltw).1 f.ltw_fits,
      (check_rate_iff e.piecewise_rate).1 f.rate_fits,
      (check_splice_iff c e.seamless_splice).1 (f.splice_fits, u),
    )

-- Everything that `encode` demands of a specification besides its size.
abbrev pub Checks : AdaptationFieldSpec → Type 0
Checks s =
    (check_pcr s ≡ ok tt)
    × (check_opcr s ≡ ok tt)
    × (check_private_data s.transport_private_data ≡ ok tt)
    × (check_extension s.splice_countdown s.extension ≡ ok tt)

pub Checks-IsSpec :
    (s : AdaptationFieldSpec) → OptionAll IsI8 s.splice_countdown → Checks s → IsSpec s × IsPaired s
unfolding check_pcr
Checks-IsSpec s i8 (p, o, d, x) =
    let (of, op) = (check_opcr_iff s).0 o in
    let (xf, xp) = (check_extension_iff s.splice_countdown s.extension).0 x in
    (
      record {
        pcr_fits = (check_reference_iff _ _ s.pcr).0 p;
        opcr_fits = of;
        countdown_fits = i8;
        private_fits = (check_private_data_iff s.transport_private_data).0 d;
        extension_fits = xf;
      },
      record { opcr_with_pcr = op; splice_with_countdown = xp },
    )

pub IsSpec-Checks : (s : AdaptationFieldSpec) → IsSpec s → IsPaired s → Checks s
unfolding check_pcr
IsSpec-Checks s f p = (
  (check_reference_iff _ _ s.pcr).1 f.pcr_fits,
  (check_opcr_iff s).1 (f.opcr_fits, p.opcr_with_pcr),
  (check_private_data_iff s.transport_private_data).1 f.private_fits,
  (check_extension_iff s.splice_countdown s.extension).1
      (f.extension_fits, p.splice_with_countdown),
)
