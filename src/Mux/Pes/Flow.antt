-- ===== src/Mux/Pes/Flow.antt =====
-- The packets that `write_pes_bytes_as_ts` emits for a PES packet, as the reader sees them.
use oxideav_mpegts.Base.{
  ℕ, zero, suc, ◌+◌, ◌-◌, ◌^◌, ◌≤◌, ◌<◌, min, ◌≡◌, refl, ap, ◌∙◌, ◌⊎◌, inl, inr, Bool, true, false,
  not, ◌&&◌, Option, none, some, List, [], ◌∷◌, ◌++◌, arith, if◌then◌else◌, is_some, length,
  length-append, low_bits, Outcome, ◌>>=◌, ok,
}
use oxideav_mpegts.Base.Int.{ℤ, pos}
use oxideav_mpegts.Packet.Field.{AdaptationField}
use oxideav_mpegts.Packet.Header.{TsPacket, parse}
use oxideav_mpegts.Packet.Encode.Fields.{OptionAll, IsReference}
use oxideav_mpegts.Pes.Reassembler.{has_rai}
use oxideav_mpegts.Packet.Encode.{AdaptationFieldSpec, is_empty, content}
use oxideav_mpegts.Mux.Frame.{framed}
use oxideav_mpegts.Mux.Pes.{SeamlessSpliceSpec, SpliceSpec, WriterState, write_loop}
use oxideav_mpegts.Mux.Pes.Sent.{Carries, packet_bytes-Sent}
use oxideav_mpegts.Mux.Pes.Annotation.{
  packet_spec, capacity, Counts, length-content, countdown-given,
}
use oxideav_mpegts.Mux.Pes.Countdown.{
  IsSplice, IsPost, Follows, RunFits, RunOf, Marked, unmarked, marked, Annotated,
  annotate-Annotated,
}

-- Each packet, parsed.
unfoldable pub parse_all : List (List ℕ) → Outcome (List TsPacket)
parse_all [] = ok []
parse_all (bytes ∷ packets) = do ts ← parse bytes; frames ← parse_all packets; ok (ts ∷ frames)

abbrev pub countdown_of : TsPacket → Option ℤ
countdown_of ts = elim ts.adaptation_field [ none ↦ none | some af ↦ af.splice_countdown ]

-- The packets of one PES packet on a PID: the first one starts it, with the indicator if it is asked
-- for, the counters follow one another, and the payloads put together are its bytes.
abbrev pub Flow : ℕ → Bool → Bool → ℕ → List TsPacket → List ℕ → Type 0
Flow pid first rai cc [] bytes = bytes ≡ []
Flow pid first rai cc (ts ∷ rest) bytes =
    (ts.pid ≡ pid)
    × (ts.payload_unit_start ≡ first)
    × (ts.continuity_counter ≡ cc)
    × (has_rai ts.adaptation_field ≡ rai)
    × (more : List ℕ) × (ts.payload ++ more ≡ bytes)
    × Flow pid false false (low_bits (cc + 1) 4) rest more

-- Before a splicing point, a packet has no countdown while it is not the last one, or as its countdown
-- the number of packets behind it.
abbrev pub CountsDown : List TsPacket → Type 0
CountsDown [] = Unit {0}
CountsDown (ts ∷ rest) =
    (((countdown_of ts ≡ none) × (0 < length rest)) ⊎ (countdown_of ts ≡ some (pos (length rest))))
    × CountsDown rest

abbrev pub CountsDownTo : Option SpliceSpec → List TsPacket → Type 0
CountsDownTo none frames = Unit {0}
CountsDownTo (some splice) frames = CountsDown frames

-- A run is as long as the packets that follow.
abbrev Tally : Option ℕ → ℕ → Type 0
Tally none k = Unit {0}
Tally (some n) k = n ≡ k

pub record Written (fuel pid : ℕ) (pcr : Option (ℕ × ℕ)) (ra : Bool) (splice : Option SpliceSpec)
    (first : Bool) (run : Option ℕ) (s : WriterState) (pes : List ℕ) : Type 0 where
  pub packets : List (List ℕ)
  pub end : WriterState
  pub frames : List TsPacket
  pub eq : write_loop fuel pid pcr ra splice first run s pes ≡ ok (packets, end)
  pub cc_fits : end.cc < 16
  pub post_fits : IsPost end.post_splice
  pub read : parse_all packets ≡ ok frames
  pub flow : Flow pid first (first && ra) s.cc frames pes
  pub counts_down : CountsDownTo splice frames
  pub tally : Tally run (length frames)

-- What a packet carries is what was specified.
Carries-fields :
    (spec : AdaptationFieldSpec) (af : Option AdaptationField)
    → Carries spec af
    → (has_rai af ≡ spec.random_access_indicator)
      × ((elim af [ none ↦ none | some a ↦ a.splice_countdown ]) ≡ spec.splice_countdown)
unfolding has_rai is_empty
Carries-fields spec none h = ground arith
Carries-fields spec (some af) (n, raw, e) = ground (arith, e)

module _ (ra d : Bool) (pcr : Option (ℕ × ℕ)) where
  -- The run behind a packet that took what it can.
  next-RunFits :
      (seamless sm : Option SeamlessSpliceSpec) (c : Option ℤ) (left : Option ℕ) (r q k : ℕ)
      → Marked seamless pcr r c sm left
      → (is_empty (packet_spec ra d pcr c sm) ≡ false
          → q ≡ min (183 - length (content (packet_spec ra d pcr c sm))) r)
      → q + k ≡ r
      → RunFits seamless none left k
  next-RunFits seamless sm c left r q k (unmarked h) size e = tt
  next-RunFits seamless sm c left r q k (marked m lt counts) size e =
      let taken = size (countdown-given ra d pcr (pos m) seamless) in
      let inside = length-content ra d pcr (some (pos m)) seamless in
      let rest : k ≡ r - capacity pcr seamless = omega (arith, taken, inside) in
      (refl, rw rest counts, omega arith)

  -- The countdown of a packet against the packets behind it.
  head-CountsDown :
      (seamless sm : Option SeamlessSpliceSpec) (c : Option ℤ) (left : Option ℕ) (r n : ℕ)
      → Marked seamless pcr r c sm left
      → (184 < r → 0 < n)
      → Tally left n
      → ((c ≡ none) × (0 < n)) ⊎ (c ≡ some (pos n))
  head-CountsDown seamless sm c left r n (unmarked h) more t = inl (refl, more h)
  head-CountsDown seamless sm c left r n (marked m lt counts) more t =
      inr (ap (λ k. some (pos k)) t)

later-Tally : (run left : Option ℕ) (n : ℕ) → Follows run left → Tally left n → Tally run (suc n)
later-Tally none left n h t = tt
later-Tally (some k) none n h t = absurd h
later-Tally (some k) (some m) n h t = h ∙ ap suc t

Flow-some :
    (pid : ℕ) (first rai : Bool) (cc : ℕ) (frames : List TsPacket) (bytes : List ℕ)
    → Flow pid first rai cc frames bytes
    → 0 < length bytes
    → 0 < length frames
Flow-some pid first rai cc [] bytes h k = absurd (omega (arith, ap length h))
Flow-some pid first rai cc (ts ∷ rest) bytes h k = omega arith

next-RunOf :
    (splice : Option SpliceSpec) (ra d : Bool) (pcr : Option (ℕ × ℕ)) (run : Option ℕ)
    (s : WriterState) (r q k : ℕ) (a : Annotated splice ra d pcr run s r)
    → (is_empty (packet_spec ra d pcr a.countdown a.seamless) ≡ false
        → q ≡ min (183 - length (content (packet_spec ra d pcr a.countdown a.seamless))) r)
    → q + k ≡ r
    → RunOf splice none a.left k
next-RunOf none ra d pcr run s r q k a size e = a.mark.1
next-RunOf (some splice) ra d pcr run s r q k a size e =
    next-RunFits ra d pcr splice.seamless a.seamless a.countdown a.left r q k a.mark size e

next-CountsDown :
    (splice : Option SpliceSpec) (ra d : Bool) (pcr : Option (ℕ × ℕ)) (run : Option ℕ)
    (s : WriterState) (r : ℕ) (a : Annotated splice ra d pcr run s r) (ts : TsPacket)
    (frames : List TsPacket)
    → countdown_of ts ≡ a.countdown
    → (184 < r → 0 < length frames)
    → Tally a.left (length frames)
    → CountsDownTo splice frames
    → CountsDownTo splice (ts ∷ frames)
next-CountsDown none ra d pcr run s r a ts frames e more t h = tt
next-CountsDown (some splice) ra d pcr run s r a ts frames e more t h = (
  rw e (
      head-CountsDown ra d pcr splice.seamless a.seamless a.countdown a.left r (length frames)
        a.mark more t),
  h,
)

RunOf-end :
    (splice : Option SpliceSpec) (pcr : Option (ℕ × ℕ)) (run : Option ℕ)
    → RunOf splice pcr run 0
    → Tally run 0
RunOf-end none pcr none h = tt
RunOf-end none pcr (some n) h = cc h
RunOf-end (some splice) pcr none h = tt
RunOf-end (some splice) pcr (some n) (plain, counts, short) = none_left splice.seamless counts
  where
    none_left : (seamless : Option SeamlessSpliceSpec) → Counts (capacity none seamless) n 0 → n ≡ 0
    none_left none h = omega arith
    none_left (some x) h = omega arith

module _ (pid : ℕ) (pcr : Option (ℕ × ℕ)) (ra : Bool) (splice : Option SpliceSpec)
    (fits : pid < 2 ^ 13) (p : OptionAll IsReference pcr) (valid : OptionAll IsSplice splice) where
  abbrev pcr_of : Bool → Option (ℕ × ℕ)
  pcr_of first = if first then pcr else none

  pcr_of-fits : (first : Bool) → OptionAll IsReference (pcr_of first)
  pcr_of-fits true = p
  pcr_of-fits false = tt

  end-Written :
      (fuel : ℕ) (first : Bool) (run : Option ℕ) (s : WriterState)
      → s.cc < 16
      → IsPost s.post_splice
      → RunOf splice (pcr_of first) run 0
      → Written fuel pid pcr ra splice first run s []
  unfolding write_loop parse_all
  end-Written fuel first run s small q k = record {
    packets = [];
    end = s;
    frames = [];
    eq = elim fuel as (λ n. write_loop n pid pcr ra splice first run s [] ≡ ok ([], s)) [
      | zero ↦ refl
      | suc n ↦ refl
    ];
    cc_fits = small;
    post_fits = q;
    read = refl;
    flow = refl;
    counts_down = elim splice as (λ o. CountsDownTo o []) [ none ↦ tt | some x ↦ tt ];
    tally = RunOf-end splice (pcr_of first) run k;
  }

  -- The loop with enough fuel.
  pub write_loop-Written :
      (fuel : ℕ) (first : Bool) (run : Option ℕ) (s : WriterState) (pes : List ℕ)
      → length pes ≤ fuel
      → s.cc < 16
      → IsPost s.post_splice
      → RunOf splice (pcr_of first) run (length pes)
      → Written fuel pid pcr ra splice first run s pes
  unfolding write_loop parse_all
  write_loop-Written fuel first run s [] h small q k = end-Written fuel first run s small q k
  write_loop-Written zero first run s (b ∷ bs) h small q k = absurd (omega arith)
  write_loop-Written (suc fuel) first run s (b ∷ bs) h small q k =
      let d = is_some (pcr_of first) && s.pending_discontinuity in
      let taken : WriterState = record s {
        pending_discontinuity = not (is_some (pcr_of first)) && s.pending_discontinuity;
      } in
      let a =
        annotate-Annotated (first && ra) d (pcr_of first) taken (length (b ∷ bs))
          (pcr_of-fits first) q splice run (omega arith) valid k in
      let spec = packet_spec (first && ra) d (pcr_of first) a.countdown a.seamless in
      let sent = packet_bytes-Sent first pid s.cc fits small spec (b ∷ bs) a.small (omega arith) in
      let size = length-append sent.chunk sent.left in
      let whole = ap length sent.split in
      let later =
        write_loop-Written fuel false a.left
          (record taken { post_splice = a.post; cc = low_bits (s.cc + 1) 4 }) sent.left
          (omega (arith, size, whole, sent.progress)) (omega arith) a.post_fits
          (next-RunOf splice (first && ra) d (pcr_of first) run taken (length (b ∷ bs))
            (length sent.chunk) (length sent.left) a sent.size (omega (arith, size, whole))) in
      let fields = Carries-fields spec sent.af sent.carried in
      let frame = framed first pid s.cc sent.af sent.chunk sent.packet in
      record {
        packets = sent.packet ∷ later.packets;
        end = later.end;
        frames = frame ∷ later.frames;
        eq = rw (a.eq, sent.written, later.eq);
        cc_fits = later.cc_fits;
        post_fits = later.post_fits;
        read = rw (sent.read, later.read);
        flow = (refl, refl, refl, fields.0, sent.left, sent.split, later.flow);
        counts_down =
            next-CountsDown splice (first && ra) d (pcr_of first) run taken (length (b ∷ bs)) a
              frame later.frames fields.1
              (λ over.
                Flow-some pid false false (low_bits (s.cc + 1) 4) later.frames sent.left later.flow
                  (omega (arith, size, whole, sent.bounded, over)))
              later.tally later.counts_down;
        tally = later-Tally run a.left (length later.frames) a.follows later.tally;
      }
