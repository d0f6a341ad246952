-- ===== src/Mux/Pes/Annotation.antt =====
-- The adaptation field of a packet of a PES packet: its splice countdown is a number that the wire
-- holds, and a run of annotated packets is as long as its countdown says.
use oxideav_mpegts.Base.{
  ℕ, ◌+◌, ◌-◌, ◌*◌, ◌/◌, ◌%◌, ◌^◌, ◌≤◌, ◌<◌, ◌≡◌, refl, inl, inr, Bool, true, false, Option, none,
  some, List, arith, leb, ◌==◌, if◌then◌else◌, Bool-cases, is_some, length, sub_usize-ok, ok,
}
use oxideav_mpegts.Base.Int.{ℤ, pos, IsI8}
use oxideav_mpegts.Packet.Encode.{
  AdaptationFieldSpec, is_empty, content, encode, clock_bytes, countdown_bytes, private_bytes,
  extension_bytes, encode_clock_reference, ltw_bytes, rate_bytes, splice_bytes,
}
use oxideav_mpegts.Packet.Encode.Fields.{OptionAll, IsReference}
use oxideav_mpegts.Packet.Encode.SubFields.{IsExtension}
use oxideav_mpegts.Packet.Encode.Accepts.{wants_splice}
use oxideav_mpegts.Packet.Encode.Result.{encode_returns_iff, length-encode_given}
use oxideav_mpegts.Mux.Pes.{
  SeamlessSpliceSpec, div_ceil, packets_needed, empty_spec, seamless_extension, start_run,
}
use oxideav_mpegts.Mux.Pes.Sent.{IsSmall}

-- The specification of a packet, by what the writer sets in it.
abbrev pub packet_spec :
    Bool → Bool → Option (ℕ × ℕ) → Option ℤ → Option SeamlessSpliceSpec → AdaptationFieldSpec
packet_spec random_access discontinuity pcr countdown seamless = record empty_spec {
  random_access_indicator = random_access;
  discontinuity_indicator = discontinuity;
  pcr = pcr;
  splice_countdown = countdown;
  extension = seamless_extension seamless;
}

abbrev pub IsSeamless : SeamlessSpliceSpec → Type 0
IsSeamless s = (s.splice_type < 16) × (s.dts_next_au < 2 ^ 33)

abbrev present {ℓ} : {A : Type ℓ} → Option A → ℕ → ℕ
present none n = 0
present (some a) n = n

pub length-content :
    (ra d : Bool) (pcr : Option (ℕ × ℕ)) (c : Option ℤ) (seamless : Option SeamlessSpliceSpec)
    → length (content (packet_spec ra d pcr c seamless))
      ≡ 1 + present pcr 6 + present c 1 + present seamless 7
unfolding content clock_bytes countdown_bytes private_bytes extension_bytes encode_clock_reference
    ltw_bytes rate_bytes splice_bytes
length-content ra d pcr c seamless = ground arith

-- Whatever is in it, it is small.
pub packet_spec-IsSmall :
    (ra d : Bool) (pcr : Option (ℕ × ℕ)) (c : Option ℤ) (seamless : Option SeamlessSpliceSpec)
    → OptionAll IsReference pcr
    → OptionAll IsI8 c
    → OptionAll IsSeamless seamless
    → (is_some seamless ≡ true → is_some c ≡ true)
    → IsSmall (packet_spec ra d pcr c seamless)
packet_spec-IsSmall ra d pcr c seamless p i8 s pair = record {
  fits = record {
    pcr_fits = p;
    opcr_fits = tt;
    countdown_fits = i8;
    private_fits = tt;
    extension_fits = extension seamless s;
  };
  paired = record {
    opcr_with_pcr = λ h. ground arith;
    splice_with_countdown = λ h. paired seamless h pair;
  };
  room = ground (arith, length-content ra d pcr c seamless);
}
  where
    extension :
        (o : Option SeamlessSpliceSpec)
        → OptionAll IsSeamless o
        → OptionAll IsExtension (seamless_extension o)
    extension none h = tt
    extension (some s) h = record { ltw_fits = tt; rate_fits = tt; splice_fits = h }

    paired :
        (o : Option SeamlessSpliceSpec)
        → wants_splice (seamless_extension o) ≡ true
        → (is_some o ≡ true → is_some c ≡ true)
        → is_some c ≡ true
    paired none h k = cc h
    paired (some s) h k = k refl

-- The payload bytes of a packet with a countdown.
abbrev pub capacity : Option (ℕ × ℕ) → Option SeamlessSpliceSpec → ℕ
capacity pcr seamless = 181 - present pcr 6 - present seamless 7

-- `m` packets of `c` bytes are what `r` bytes take.
abbrev pub Counts : ℕ → ℕ → ℕ → Type 0
Counts c m r = (r ≤ m * c) × (m * c < r + c)

pub countdown-given :
    (ra d : Bool) (pcr : Option (ℕ × ℕ)) (c : ℤ) (seamless : Option SeamlessSpliceSpec)
    → is_empty (packet_spec ra d pcr (some c) seamless) ≡ false
unfolding is_empty
countdown-given ra d pcr c seamless = ground arith

-- The bytes of a field with a countdown.
encode-countdown :
    (ra d : Bool) (pcr : Option (ℕ × ℕ)) (c : ℤ) (seamless : Option SeamlessSpliceSpec)
    → OptionAll IsReference pcr
    → IsI8 c
    → OptionAll IsSeamless seamless
    → (bare : List ℕ) × (encode (packet_spec ra d pcr (some c) seamless) none ≡ ok bare)
      × (length bare ≤ 184)
      × (184 - length bare ≡ capacity pcr seamless)
encode-countdown ra d pcr c seamless p i8 s =
    let spec = packet_spec ra d pcr (some c) seamless in
    let w = packet_spec-IsSmall ra d pcr (some c) seamless p i8 s (λ h. refl) in
    let (bare, b) = (encode_returns_iff spec none i8).1 (record {
      fits = w.fits;
      paired = w.paired;
      room = omega (arith, w.room);
      size = omega arith;
    }) in
    let given = countdown-given ra d pcr c seamless in
    let size = length-encode_given spec bare given b in
    let inside = length-content ra d pcr (some c) seamless in
    (bare, b, omega (arith, size, w.room), omega (arith, size, inside))

packets_needed-Counts :
    (r a : ℕ) (seamless : Option SeamlessSpliceSpec)
    → (m : ℕ) × (packets_needed r a (capacity none seamless) ≡ ok (1 + m))
      × Counts (capacity none seamless) m (r - a)
unfolding packets_needed div_ceil
packets_needed-Counts r a none = elim (Bool-cases (leb r a)) [
  | inl fits ↦ (0, rw fits, ground arith)
  | inr over ↦
      (if (r - a) % 181 == 0 then (r - a) / 181 else (r - a) / 181 + 1, rw over, ground arith)
]
packets_needed-Counts r a (some s) = elim (Bool-cases (leb r a)) [
  | inl fits ↦ (0, rw fits, ground arith)
  | inr over ↦
      (if (r - a) % 174 == 0 then (r - a) / 174 else (r - a) / 174 + 1, rw over, ground arith)
]

zero-IsI8 : IsI8 (pos 0)
zero-IsI8 = (omega arith, omega arith)

pub start_run-Counts :
    (ra d : Bool) (pcr : Option (ℕ × ℕ)) (seamless : Option SeamlessSpliceSpec) (r : ℕ)
    → OptionAll IsReference pcr
    → OptionAll IsSeamless seamless
    → (m : ℕ) × (start_run (seamless_extension seamless) (packet_spec ra d pcr none none) r
        ≡ ok (if leb (1 + m) 128 then some (1 + m) else none))
      × Counts (capacity none seamless) m (r - capacity pcr seamless)
unfolding start_run
start_run-Counts ra d pcr seamless r p s =
    let (here, h, hl, hc) = encode-countdown ra d pcr (pos 0) seamless p zero-IsI8 s in
    let (cont, k, kl, kc) = encode-countdown false false none (pos 0) seamless tt zero-IsI8 s in
    let (m, needed, counts) = packets_needed-Counts r (capacity pcr seamless) seamless in
    (
      m,
      rw (
        h,
        k,
        sub_usize-ok 184 (length here) hl,
        sub_usize-ok 184 (length cont) kl,
        hc,
        kc,
        needed,
      ),
      counts,
    )
