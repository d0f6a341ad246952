-- ===== src/Mux/Pes/Countdown.antt =====
-- What `annotate` makes of a packet: its specification, and the run that its countdown belongs to.
use oxideav_mpegts.Base.{
  ℕ, zero, suc, ◌+◌, ◌-◌, ◌≤◌, ◌<◌, ◌≡◌, refl, sym, ap, subst, ◌∙◌, inl, inr, Bool, Option, none,
  some, arith, ltb, leb, if◌then◌else◌, Bool-cases, low_bits, sub_usize-ok, ok,
}
use oxideav_mpegts.Base.Int.{ℤ, pos, negsuc, as_i8, IsI8}
use oxideav_mpegts.Packet.Encode.{AdaptationFieldSpec}
use oxideav_mpegts.Packet.Encode.Fields.{OptionAll, IsReference}
use oxideav_mpegts.Mux.Pes.{
  SeamlessSpliceSpec, SpliceSpec, WriterState, seamless_extension, negate_i8, annotate_run, run_of,
  annotate_post, annotate,
}
use oxideav_mpegts.Mux.Pes.Sent.{IsSmall}
use oxideav_mpegts.Mux.Pes.Annotation.{
  packet_spec, IsSeamless, packet_spec-IsSmall, capacity, Counts, start_run-Counts,
}

-- The splices that `signal_splice_after` arms, and the countdowns that they leave behind.
abbrev pub IsSplice : SpliceSpec → Type 0
IsSplice splice = OptionAll IsSeamless splice.seamless × (splice.post_splice_packets ≤ 127)

abbrev pub IsPost : Option (ℕ × ℕ) → Type 0
IsPost none = Unit {0}
IsPost (some (next, total)) = (next ≤ total) × (total ≤ 127)

-- A run counts the packets that are left, once it has started.
abbrev pub RunFits : Option SeamlessSpliceSpec → Option (ℕ × ℕ) → Option ℕ → ℕ → Type 0
RunFits seamless pcr none r = Unit {0}
RunFits seamless pcr (some n) r = (pcr ≡ none) × Counts (capacity none seamless) n r × (n ≤ 128)

-- Without a splice there is no run.
abbrev pub RunOf : Option SpliceSpec → Option (ℕ × ℕ) → Option ℕ → ℕ → Type 0
RunOf none pcr run r = run ≡ none
RunOf (some splice) pcr run r = RunFits splice.seamless pcr run r

-- Before a splice: no countdown while more than 128 packets are left, and then their number.
pub data Marked (seamless : Option SeamlessSpliceSpec) (pcr : Option (ℕ × ℕ)) (r : ℕ)
    : Option ℤ → Option SeamlessSpliceSpec → Option ℕ → Type 0 where
  unmarked : 184 < r → Marked seamless pcr r none none none
  marked :
      (m : ℕ)
      → m < 128
      → Counts (capacity none seamless) m (r - capacity pcr seamless)
      → Marked seamless pcr r (some (pos m)) seamless (some m)

abbrev pub MarkedBy :
    Option SpliceSpec
    → Option (ℕ × ℕ)
    → ℕ
    → Option ℤ
    → Option SeamlessSpliceSpec
    → Option ℕ
    → Type 0
MarkedBy none pcr r countdown seamless left = (seamless ≡ none) × (left ≡ none)
MarkedBy (some splice) pcr r countdown seamless left =
    Marked splice.seamless pcr r countdown seamless left

-- A run loses one packet at each packet.
abbrev pub Follows : Option ℕ → Option ℕ → Type 0
Follows none left = Unit {0}
Follows (some n) none = ⊥
Follows (some n) (some m) = n ≡ suc m

pub record Annotated (splice : Option SpliceSpec) (ra d : Bool) (pcr : Option (ℕ × ℕ))
    (run : Option ℕ) (s : WriterState) (r : ℕ) : Type 0 where
  pub countdown : Option ℤ
  pub seamless : Option SeamlessSpliceSpec
  pub left : Option ℕ
  pub post : Option (ℕ × ℕ)
  pub eq :
      annotate splice (packet_spec ra d pcr none none) run s r
      ≡ ok (packet_spec ra d pcr countdown seamless, left, record s { post_splice = post })
  pub small : IsSmall (packet_spec ra d pcr countdown seamless)
  pub post_fits : IsPost post
  pub mark : MarkedBy splice pcr r countdown seamless left
  pub follows : Follows run left

-- A countdown of at most 127 is itself as an `i8`.
as_i8-small : (m : ℕ) → m < 128 → as_i8 (low_bits m 8) ≡ pos m
as_i8-small m h = ground arith

next-IsPost :
    (n total : ℕ)
    → n ≤ total
    → total ≤ 127
    → IsPost (if ltb n total then some (n + 1, total) else none)
next-IsPost n total h k = ground arith

-- The countdown behind a splicing point.
abbrev negated : ℕ → ℤ
negated zero = pos 0
negated (suc n) = negsuc n

negate-as_i8 : (n : ℕ) → n ≤ 127 → negate_i8 (as_i8 n) ≡ ok (negated n)
unfolding negate_i8
negate-as_i8 zero h = refl
negate-as_i8 (suc n) h = ground arith

negated-IsI8 : (n : ℕ) → n ≤ 127 → IsI8 (negated n)
negated-IsI8 zero h = (omega arith, omega arith)
negated-IsI8 (suc n) h = (omega arith, omega arith)

-- What `n` left to count gives for the packet and the run.
run-Counts :
    (seamless : Option SeamlessSpliceSpec) (n r : ℕ)
    → 0 < r
    → Counts (capacity none seamless) n r
    → (m : ℕ) × (n ≡ suc m) × Counts (capacity none seamless) m (r - capacity none seamless)
run-Counts none zero r h k = absurd (omega arith)
run-Counts (some s) zero r h k = absurd (omega arith)
run-Counts none (suc m) r h k = (m, refl, ground arith)
run-Counts (some s) (suc m) r h k = (m, refl, ground arith)

-- A count over 128 leaves bytes for another packet.
over_128 :
    (seamless : Option SeamlessSpliceSpec) (pcr : Option (ℕ × ℕ)) (m r : ℕ)
    → 127 < m
    → Counts (capacity none seamless) m (r - capacity pcr seamless)
    → 184 < r
over_128 none none m r h k = omega arith
over_128 none (some p) m r h k = omega arith
over_128 (some s) none m r h k = omega arith
over_128 (some s) (some p) m r h k = omega arith

module _ (ra d : Bool) (pcr : Option (ℕ × ℕ)) (s : WriterState) (r : ℕ)
    (p : OptionAll IsReference pcr) (q : IsPost s.post_splice) where
  abbrev bare_spec : AdaptationFieldSpec
  bare_spec = packet_spec ra d pcr none none

  annotate_post-returns :
      (post : Option (ℕ × ℕ))
      → IsPost post
      → (c : Option ℤ) × (next : Option (ℕ × ℕ)) × (annotate_post bare_spec post
          ≡ ok (packet_spec ra d pcr c none, next))
        × IsPost next
        × OptionAll IsI8 c
  unfolding annotate_post
  annotate_post-returns none h = (none, none, refl, tt, tt)
  annotate_post-returns (some (n, total)) (h, k) = (
    some (negated n),
    if ltb n total then some (n + 1, total) else none,
    rw (negate-as_i8 n (omega arith)),
    next-IsPost n total h k,
    negated-IsI8 n (omega arith),
  )

  annotate-none : Annotated none ra d pcr none s r
  unfolding annotate
  annotate-none =
      let (c, next, e, fits, i8) = annotate_post-returns s.post_splice q in
      record {
        countdown = c;
        seamless = none;
        left = none;
        post = next;
        eq = rw e;
        small = packet_spec-IsSmall ra d pcr c none p i8 tt (λ h. cc h);
        post_fits = fits;
        mark = (refl, refl);
        follows = tt;
      }

  module _ (splice : SpliceSpec) (valid : IsSplice splice) where
    abbrev ext : Option SeamlessSpliceSpec
    ext = splice.seamless

    annotate-marked :
        (run : Option ℕ) (m : ℕ)
        → run_of (seamless_extension ext) bare_spec run r ≡ ok (some (suc m))
        → m < 128
        → Counts (capacity none ext) m (r - capacity pcr ext)
        → Follows run (some m)
        → Annotated (some splice) ra d pcr run s r
    unfolding annotate annotate_run
    annotate-marked run m e h k f = record {
      countdown = some (pos m);
      seamless = ext;
      left = some m;
      post = s.post_splice;
      eq = rw (e, sub_usize-ok (suc m) 1 (omega arith), one_less, as_i8-small m h);
      small =
          packet_spec-IsSmall ra d pcr (some (pos m)) ext p (h, omega arith) valid.0 (λ x. refl);
      post_fits = q;
      mark = marked m h k;
      follows = f;
    }
      where
        one_less : suc m - 1 ≡ m
        one_less = omega arith

    annotate-unmarked :
        run_of (seamless_extension ext) bare_spec none r ≡ ok none
        → 184 < r
        → Annotated (some splice) ra d pcr none s r
    unfolding annotate annotate_run
    annotate-unmarked e h = record {
      countdown = none;
      seamless = none;
      left = none;
      post = s.post_splice;
      eq = rw e;
      small = packet_spec-IsSmall ra d pcr none none p tt tt (λ x. cc x);
      post_fits = q;
      mark = unmarked h;
      follows = tt;
    }

    annotate-some :
        (run : Option ℕ) → 0 < r → RunFits ext pcr run r → Annotated (some splice) ra d pcr run s r
    unfolding run_of
    annotate-some none h k =
        let (m, e, counts) = start_run-Counts ra d pcr ext r p valid.0 in
        elim (Bool-cases (leb (1 + m) 128)) [
          | inl fits ↦
              annotate-marked none m (e ∙ ap ok (rw fits (ap some (omega arith)))) (ground arith)
                counts tt
          | inr over ↦ annotate-unmarked (e ∙ rw over) (over_128 ext pcr m r (ground arith) counts)
        ]
    annotate-some (some n) h (plain, counts, short) =
        let (m, e, less) = run-Counts ext n r h counts in
        annotate-marked (some n) m (ap (λ k. ok (some k)) e) (omega arith) (rw plain less) e

  -- In any state that the writer comes to, `annotate` returns.
  pub annotate-Annotated :
      (splice : Option SpliceSpec) (run : Option ℕ)
      → 0 < r
      → OptionAll IsSplice splice
      → RunOf splice pcr run r
      → Annotated splice ra d pcr run s r
  annotate-Annotated none run h v k =
      subst (λ x. Annotated none ra d pcr x s r) (sym k) annotate-none
  annotate-Annotated (some splice) run h v k = annotate-some splice v run h k
