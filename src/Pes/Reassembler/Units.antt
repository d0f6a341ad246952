-- ===== src/Pes/Reassembler/Units.antt =====
-- What a stream of TS packets of one PID says: the PES packets that start in it, each with the bytes up
-- to the next start, and with the random access indicator that announced it.
use oxideav_mpegts.Base.{
  ℕ, ◌≡◌, refl, ◌∙◌, inl, inr, Bool, true, false, ◌||◌, none, some, List, [], ◌∷◌, ◌++◌,
  append_assoc, append-nil, arith, if◌then◌else◌, Bool-cases, Outcome, ◌>>=◌, ok, err, panic,
}
use oxideav_mpegts.Packet.Header.{TsPacket}
use oxideav_mpegts.Pes.Header.{PesPacket}
use oxideav_mpegts.Pes.Reassembler.{
  PesReassembler, new_reassembler, has_rai, parse_announced, parse_started, feed, flush, emitted,
  reassemble, step,
}

-- The payload up to the next start, whether a packet up to there has the indicator, and the packets
-- from the start on.
unfoldable pub unit_bytes : List TsPacket → List ℕ
unit_bytes [] = []
unit_bytes (ts ∷ rest) = if ts.payload_unit_start then [] else ts.payload ++ unit_bytes rest

-- The PES packets of a stream, behind packets of which one may have the indicator.
unfoldable pub units : Bool → List TsPacket → List (Bool × List ℕ)
units pending [] = []
units pending (ts ∷ rest) =
    if ts.payload_unit_start
    then (pending || has_rai ts.adaptation_field, ts.payload ++ unit_bytes rest) ∷ units false rest
    else units (pending || has_rai ts.adaptation_field) rest

unfoldable pub parse_units : List (Bool × List ℕ) → Outcome (List PesPacket)
parse_units [] = ok []
parse_units ((rai, bytes) ∷ rest) = do
  pes ← parse_announced rai bytes
  others ← parse_units rest
  ok (pes ∷ others)

-- What is left to do in a state: finish the packet in the buffer, then the packets to come.
abbrev left : PesReassembler → List TsPacket → List (Bool × List ℕ)
left r packets =
    if r.started
    then (r.current_rai, r.buf ++ unit_bytes packets) ∷ units r.pending_rai packets
    else units r.pending_rai packets

-- A finished packet comes out before what the rest of the stream gives.
finish-step :
    (m : Outcome PesPacket) (kept next : PesReassembler) (rest : List TsPacket)
    → (step kept next (m >>= λ pes. ok (some pes))).1 >>= (λ out.
        reassemble (step kept next (m >>= λ pes. ok (some pes))).0 rest >>= λ others.
        ok (emitted out others))
      ≡ (m >>= λ pes. reassemble next rest >>= λ others. ok (pes ∷ others))
finish-step (ok pes) kept next rest = refl
finish-step (err e) kept next rest = refl
finish-step panic kept next rest = refl

finish-flush :
    (m : Outcome PesPacket) (kept next : PesReassembler)
    → (step kept next (m >>= λ pes. ok (some pes))).1 >>= (λ out. ok (emitted out []))
      ≡ (m >>= λ pes. ok (pes ∷ []))
finish-flush (ok pes) kept next = refl
finish-flush (err e) kept next = refl
finish-flush panic kept next = refl

only-emitted : (m : Outcome (List PesPacket)) → (m >>= λ others. ok (emitted none others)) ≡ m
only-emitted (ok a) = refl
only-emitted (err e) = refl
only-emitted panic = refl

or_true : (b a : Bool) → (if b then true else a) ≡ a || b
or_true b a = ground arith

module _ (buf : List ℕ) (current pending : Bool) where
  abbrev started_at : PesReassembler
  started_at = record { buf = buf; started = true; current_rai = current; pending_rai = pending }

  abbrev waiting_at : PesReassembler
  waiting_at = record { buf = buf; started = false; current_rai = current; pending_rai = pending }

  started_end : reassemble started_at [] ≡ parse_units (left started_at [])
  unfolding reassemble flush parse_units units unit_bytes parse_started
  started_end = rw (append-nil buf) (
      finish-flush (parse_announced current buf) (record started_at { buf = []; started = false })
        (record started_at { buf = []; started = false; current_rai = false }))

  waiting_end : reassemble waiting_at [] ≡ parse_units (left waiting_at [])
  unfolding reassemble flush parse_units units
  waiting_end = refl

  module _ (ts : TsPacket) (rest : List TsPacket)
      (later : (r : PesReassembler) → reassemble r rest ≡ parse_units (left r rest)) where
    abbrev restarted : PesReassembler
    restarted = record {
      buf = ts.payload;
      started = true;
      current_rai = pending || has_rai ts.adaptation_field;
      pending_rai = false;
    }

    started_start :
        ts.payload_unit_start ≡ true
        → reassemble started_at (ts ∷ rest) ≡ parse_units (left started_at (ts ∷ rest))
    unfolding reassemble feed parse_units units unit_bytes parse_started
    started_start e =
        rw (e, append-nil buf)
          (finish-step (parse_announced current buf) started_at restarted rest
            ∙ rw (later restarted))

    waiting_start :
        ts.payload_unit_start ≡ true
        → reassemble waiting_at (ts ∷ rest) ≡ parse_units (left waiting_at (ts ∷ rest))
    unfolding reassemble feed units unit_bytes parse_started
    waiting_start e = rw (e, later restarted) (only-emitted (parse_units (left restarted rest)))

    started_middle :
        ts.payload_unit_start ≡ false
        → reassemble started_at (ts ∷ rest) ≡ parse_units (left started_at (ts ∷ rest))
    unfolding reassemble feed units unit_bytes
    started_middle e =
        let next : PesReassembler = record started_at {
          buf = buf ++ ts.payload;
          pending_rai = if has_rai ts.adaptation_field then true else pending;
        } in
        rw (
          e,
          later next,
          only-emitted (parse_units (left next rest)),
          append_assoc buf ts.payload (unit_bytes rest),
          or_true (has_rai ts.adaptation_field) pending,
        )

    waiting_middle :
        ts.payload_unit_start ≡ false
        → reassemble waiting_at (ts ∷ rest) ≡ parse_units (left waiting_at (ts ∷ rest))
    unfolding reassemble feed units
    waiting_middle e =
        let next : PesReassembler = record waiting_at {
          pending_rai = if has_rai ts.adaptation_field then true else pending;
        } in
        rw (
          e,
          later next,
          only-emitted (parse_units (left next rest)),
          or_true (has_rai ts.adaptation_field) pending,
        )

reassemble-left :
    (buf : List ℕ) (started current pending : Bool) (packets : List TsPacket)
    → (let r : PesReassembler = record {
      buf = buf;
      started = started;
      current_rai = current;
      pending_rai = pending;
    } in
        reassemble r packets ≡ parse_units (left r packets))
reassemble-left buf true current pending [] = started_end buf current pending
reassemble-left buf false current pending [] = waiting_end buf current pending
reassemble-left buf true current pending (ts ∷ rest) =
    let later =
      λ (r : PesReassembler). reassemble-left r.buf r.started r.current_rai r.pending_rai rest in
    elim (Bool-cases ts.payload_unit_start) [
      | inl e ↦ started_start buf current pending ts rest later e
      | inr e ↦ started_middle buf current pending ts rest later e
    ]
reassemble-left buf false current pending (ts ∷ rest) =
    let later =
      λ (r : PesReassembler). reassemble-left r.buf r.started r.current_rai r.pending_rai rest in
    elim (Bool-cases ts.payload_unit_start) [
      | inl e ↦ waiting_start buf current pending ts rest later e
      | inr e ↦ waiting_middle buf current pending ts rest later e
    ]

-- A reassembler that is fed a stream of TS packets and flushed returns the PES packets that start in the
-- stream, in order, each parsed from the payload bytes up to the next start and marked with the
-- random access indicator seen since the start before; or the first error among them.
pub reassemble-parse_units :
    (packets : List TsPacket)
    → reassemble new_reassembler packets ≡ parse_units (units false packets)
unfolding new_reassembler
reassemble-parse_units packets = reassemble-left [] false false false packets
