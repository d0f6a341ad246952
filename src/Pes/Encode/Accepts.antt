-- ===== src/Pes/Encode/Accepts.antt =====
-- src/pes.rs: which specifications the checks of `encode` and of `encode_pes_extension` let through.
use oxideav_mpegts.Base.{
  ℕ, ◌-◌, ◌*◌, ◌^◌, ◌≤◌, ◌<◌, ◌≡◌, refl, ◌≢◌, ◌↔◌, Bool, false, Option, none, some, List, arith,
  ltb, le→ltb_false, length, TsError, fail_if, >>-eq_ok, fail_if-eq_ok, ok,
}
use oxideav_mpegts.Packet.Encode.Fields.{OptionAll}
use oxideav_mpegts.Pes.Extension.{PesExtension, ProgramPacketSequenceCounter, PStdBuffer}
use oxideav_mpegts.Pes.Encode.{
  PesHeaderSpec, exceeds, check_dts, check_escr, check_es_rate, check_spec, check_pes_extension,
}

-- A DTS stands only beside a PTS that it differs from.
abbrev pub IsPair : Option ℕ → Option ℕ → Type 0
IsPair pts none = Unit {0}
IsPair none (some d) = ⊥
IsPair (some p) (some d) = p ≢ d

-- Widths of Table 2-17, and the standard's rules on DTS and ES_rate.
pub record IsHeader (s : PesHeaderSpec) : Type 0 where
  pub scrambling_fits : s.pes_scrambling_control ≤ 3
  pub pts_fits : OptionAll (λ n. n ≤ 2 ^ 33 - 1) s.pts_90k
  pub dts_fits : OptionAll (λ n. n ≤ 2 ^ 33 - 1) s.dts_90k
  pub dts_paired : IsPair s.pts_90k s.dts_90k
  pub escr_fits : OptionAll (λ n. n < 2 ^ 33 * 300) s.escr_27mhz
  pub rate_fits : OptionAll (λ n. (1 ≤ n) × (n < 2 ^ 22)) s.es_rate_50bps
  pub copy_info_fits : OptionAll (λ n. n ≤ 0x7F) s.additional_copy_info

-- Widths of the extension.
pub record IsExtension (e : PesExtension) : Type 0 where
  pub counter_fits :
      OptionAll
        (λ (p : ProgramPacketSequenceCounter).
          (p.counter ≤ 0x7F) × (p.original_stuff_length ≤ 0x3F))
        e.program_packet_sequence_counter
  pub buffer_fits : OptionAll (λ (p : PStdBuffer). p.size ≤ 0x1FFF) e.p_std_buffer
  pub pack_fits : OptionAll (λ pack. length pack ≤ 255) e.pack_header
  pub field_2_fits : OptionAll (λ f2. length f2 ≤ 0x7F) e.extension_field_2

exceeds_iff : (o : Option ℕ) (limit : ℕ) → (exceeds o limit ≡ false) ↔ OptionAll (λ n. n ≤ limit) o
exceeds_iff none limit = (λ h. tt, λ h. refl)
exceeds_iff (some n) limit = ground arith

check_dts_iff :
    (pts dts : Option ℕ)
    → (check_dts pts dts ≡ ok tt) ↔ (OptionAll (λ n. n ≤ 2 ^ 33 - 1) dts × IsPair pts dts)
unfolding check_dts
check_dts_iff pts none = (λ h. (tt, tt), λ h. refl)
check_dts_iff none (some d) = ground arith
check_dts_iff (some p) (some d) = ground arith

check_escr_iff :
    (escr : Option ℕ) → (check_escr escr ≡ ok tt) ↔ OptionAll (λ n. n < 2 ^ 33 * 300) escr
unfolding check_escr
check_escr_iff none = (λ h. tt, λ h. refl)
check_escr_iff (some n) = ground arith

check_es_rate_iff :
    (rate : Option ℕ) → (check_es_rate rate ≡ ok tt) ↔ OptionAll (λ n. (1 ≤ n) × (n < 2 ^ 22)) rate
unfolding check_es_rate
check_es_rate_iff none = (λ h. tt, λ h. refl)
check_es_rate_iff (some n) = ground arith

fail_if-false : (b : Bool) (e : TsError) → b ≡ false → fail_if b e ≡ ok tt
fail_if-false b e h = rw h refl

pub check_spec-IsHeader : (s : PesHeaderSpec) → (check_spec s ≡ ok tt) ↔ IsHeader s
unfolding check_spec
check_spec-IsHeader s = (forth, back)
  where
    forth : check_spec s ≡ ok tt → IsHeader s
    forth h =
        let (a, h1) = >>-eq_ok (fail_if (ltb 3 s.pes_scrambling_control) _) _ h in
        let (b, h2) = >>-eq_ok (fail_if (exceeds s.pts_90k (2 ^ 33 - 1)) _) _ h1 in
        let (c, h3) = >>-eq_ok (check_dts s.pts_90k s.dts_90k) _ h2 in
        let (d, h4) = >>-eq_ok (check_escr s.escr_27mhz) _ h3 in
        let (e, h5) = >>-eq_ok (check_es_rate s.es_rate_50bps) _ h4 in
        let small = fail_if-eq_ok (ltb 3 s.pes_scrambling_control) _ a in
        let pair = (check_dts_iff s.pts_90k s.dts_90k).0 c in
        record {
          scrambling_fits = ground arith;
          pts_fits = (exceeds_iff s.pts_90k (2 ^ 33 - 1)).0 (fail_if-eq_ok _ _ b);
          dts_fits = pair.0;
          dts_paired = pair.1;
          escr_fits = (check_escr_iff s.escr_27mhz).0 d;
          rate_fits = (check_es_rate_iff s.es_rate_50bps).0 e;
          copy_info_fits = (exceeds_iff s.additional_copy_info 0x7F).0 (fail_if-eq_ok _ _ h5);
        }

    back : IsHeader s → check_spec s ≡ ok tt
    back w = rw (
      le→ltb_false 3 s.pes_scrambling_control w.scrambling_fits,
      (exceeds_iff s.pts_90k (2 ^ 33 - 1)).1 w.pts_fits,
      (check_dts_iff s.pts_90k s.dts_90k).1 (w.dts_fits, w.dts_paired),
      (check_escr_iff s.escr_27mhz).1 w.escr_fits,
      (check_es_rate_iff s.es_rate_50bps).1 w.rate_fits,
      (exceeds_iff s.additional_copy_info 0x7F).1 w.copy_info_fits,
    )

-- The same over the fields of an extension, which stand for themselves.
extension_checks :
    (counter : Option ProgramPacketSequenceCounter) (buffer : Option PStdBuffer)
    (private pack f2 : Option (List ℕ))
    → (check_pes_extension (record {
      private_data = private;
      pack_header = pack;
      program_packet_sequence_counter = counter;
      p_std_buffer = buffer;
      extension_field_2 = f2;
    })
        ≡ ok tt)
      ↔ (OptionAll
            (λ (p : ProgramPacketSequenceCounter).
              (p.counter ≤ 0x7F) × (p.original_stuff_length ≤ 0x3F))
            counter
          × OptionAll (λ (p : PStdBuffer). p.size ≤ 0x1FFF) buffer
          × OptionAll (λ bytes. length bytes ≤ 255) pack
          × OptionAll (λ bytes. length bytes ≤ 0x7F) f2)
unfolding check_pes_extension
extension_checks counter buffer private pack f2 = ground arith

pub check_pes_extension-IsExtension :
    (e : PesExtension) → (check_pes_extension e ≡ ok tt) ↔ IsExtension e
check_pes_extension-IsExtension e =
    let (forth, back) =
      extension_checks e.program_packet_sequence_counter e.p_std_buffer e.private_data e.pack_header
        e.extension_field_2 in
    (
      λ h.
          let (c, b, p, f) = forth h in
          record { counter_fits = c; buffer_fits = b; pack_fits = p; field_2_fits = f },
      λ w. back (w.counter_fits, w.buffer_fits, w.pack_fits, w.field_2_fits),
    )
