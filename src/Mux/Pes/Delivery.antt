-- ===== src/Mux/Pes/Delivery.antt =====
-- src/muxer.rs: `write_pes_bytes_as_ts` on the PES packets of one frame, from the frame to the PES
-- packets that a reassembler returns.
use oxideav_mpegts.Base.{
  ℕ, ◌+◌, ◌^◌, ◌≤◌, ◌<◌, ◌≡◌, refl, sym, ap, ◌∙◌, Bool, true, false, Option, none, some, List, [],
  ◌∷◌, ◌++◌, arith, ltb, if◌then◌else◌, length, low_bits, ok,
}
use oxideav_mpegts.Packet.Header.{TsPacket}
use oxideav_mpegts.Packet.Encode.Fields.{OptionAll, IsReference}
use oxideav_mpegts.Pes.Reassembler.Units.{unit_bytes, units}
use oxideav_mpegts.Mux.Pes.{SpliceSpec, WriterState, write_pes_bytes_as_ts}
use oxideav_mpegts.Mux.Pes.Countdown.{IsSplice, IsPost}
use oxideav_mpegts.Mux.Pes.Flow.{parse_all, Flow, CountsDown, CountsDownTo, write_loop-Written}

-- The states of a writer between PES packets.
abbrev pub IsState : WriterState → Type 0
IsState s = (s.cc < 16) × IsPost s.post_splice

-- What is true of the packets of one PES packet.
pub record Delivered (pid : ℕ) (pcr : Option (ℕ × ℕ)) (ra : Bool) (splice : Option SpliceSpec)
    (s : WriterState) (pes : List ℕ) : Type 0 where
  pub packets : List (List ℕ)
  pub end : WriterState
  pub frames : List TsPacket
  pub eq : write_pes_bytes_as_ts pid pes pcr ra splice s ≡ ok (packets, end)
  pub end_fits : IsState end
  pub read : parse_all packets ≡ ok frames
  pub flow : Flow pid true ra s.cc frames pes
  pub counts_down : CountsDownTo splice frames

-- The values that the muxer hands over: a PID, a PCR and a splice that fit the wire.
abbrev pub IsRequest : ℕ → Option (ℕ × ℕ) → Option SpliceSpec → Type 0
IsRequest pid pcr splice = (pid < 2 ^ 13) × OptionAll IsReference pcr × OptionAll IsSplice splice

armed-IsState :
    (n : ℕ) (s : WriterState)
    → IsState s
    → n ≤ 127
    → IsState (if ltb 0 n then record s { post_splice = some (1, n) } else s)
armed-IsState n s h k = ground arith

pub write_pes-Delivered :
    (pid : ℕ) (pes : List ℕ) (pcr : Option (ℕ × ℕ)) (ra : Bool) (splice : Option SpliceSpec)
    (s : WriterState)
    → IsRequest pid pcr splice
    → IsState s
    → Delivered pid pcr ra splice s pes
unfolding write_pes_bytes_as_ts
write_pes-Delivered pid pes pcr ra none s (fits, p, v) (small, q) =
    let w =
      write_loop-Written pid pcr ra none fits p v (length pes) true none s pes (omega arith) small q
        refl in
    record {
      packets = w.packets;
      end = w.end;
      frames = w.frames;
      eq = w.eq;
      end_fits = (w.cc_fits, w.post_fits);
      read = w.read;
      flow = w.flow;
      counts_down = w.counts_down;
    }
write_pes-Delivered pid pes pcr ra (some splice) s (fits, p, v) (small, q) =
    let w =
      write_loop-Written pid pcr ra (some splice) fits p v (length pes) true none
        (record s { post_splice = none }) pes (omega arith) small tt tt in
    record {
      packets = w.packets;
      end =
          if ltb 0 splice.post_splice_packets
          then record w.end { post_splice = some (1, splice.post_splice_packets) }
          else w.end;
      frames = w.frames;
      eq = rw w.eq;
      end_fits = armed-IsState splice.post_splice_packets w.end (w.cc_fits, w.post_fits) v.1;
      read = w.read;
      flow = w.flow;
      counts_down = w.counts_down;
    }

-- For any PES packet, PID, PCR, random access flag and splice that fit the wire, from any state that the
-- writer comes to, `write_pes_bytes_as_ts` returns: it neither fails nor panics nor runs on. Each packet
-- that it emits is one that the reader of TS packets accepts; the first one and no other starts a PES
-- packet and has the random access indicator if that was asked for, the continuity counters follow one
-- another from the track's, and the payloads put together are the PES packet.
pub write_pes_bytes_as_ts-Flow :
    (pid : ℕ) (pes : List ℕ) (pcr : Option (ℕ × ℕ)) (ra : Bool) (splice : Option SpliceSpec)
    (s : WriterState)
    → IsRequest pid pcr splice
    → IsState s
    → (packets : List (List ℕ)) × (end : WriterState) × (frames : List TsPacket)
      × (write_pes_bytes_as_ts pid pes pcr ra splice s ≡ ok (packets, end))
      × IsState end
      × (parse_all packets ≡ ok frames)
      × Flow pid true ra s.cc frames pes
write_pes_bytes_as_ts-Flow pid pes pcr ra splice s h k =
    let w = write_pes-Delivered pid pes pcr ra splice s h k in
    (w.packets, w.end, w.frames, w.eq, w.end_fits, w.read, w.flow)

-- With a splice that was armed, for a PES packet, PID and PCR that fit the wire, from any state that the
-- writer comes to, each packet that `write_pes_bytes_as_ts` emits, read back, either has no splice
-- countdown and is not the last one, or has as its countdown the number of packets behind it, so that
-- the last one has the countdown 0.
pub write_pes_bytes_as_ts-CountsDown :
    (pid : ℕ) (pes : List ℕ) (pcr : Option (ℕ × ℕ)) (ra : Bool) (splice : SpliceSpec)
    (s : WriterState)
    → IsRequest pid pcr (some splice)
    → IsState s
    → (packets : List (List ℕ)) × (end : WriterState) × (frames : List TsPacket)
      × (write_pes_bytes_as_ts pid pes pcr ra (some splice) s ≡ ok (packets, end))
      × (parse_all packets ≡ ok frames)
      × CountsDown frames
write_pes_bytes_as_ts-CountsDown pid pes pcr ra splice s h k =
    let w = write_pes-Delivered pid pes pcr ra (some splice) s h k in
    (w.packets, w.end, w.frames, w.eq, w.read, w.counts_down)

-- The packets that follow are those of another PES packet, or none.
abbrev pub Starts : List TsPacket → Type 0
Starts [] = Unit {0}
Starts (ts ∷ rest) = ts.payload_unit_start ≡ true

unit_bytes-Starts : (tail : List TsPacket) → Starts tail → unit_bytes tail ≡ []
unfolding unit_bytes
unit_bytes-Starts [] h = refl
unit_bytes-Starts (ts ∷ rest) h = rw h

-- Behind the start, the payloads and nothing to announce.
unit_bytes-Flow :
    (pid cc : ℕ) (frames tail : List TsPacket) (bytes : List ℕ)
    → Flow pid false false cc frames bytes
    → Starts tail
    → (unit_bytes (frames ++ tail) ≡ bytes) × (units false (frames ++ tail) ≡ units false tail)
unfolding unit_bytes units
unit_bytes-Flow pid cc [] tail bytes h k = (unit_bytes-Starts tail k ∙ sym h, refl)
unit_bytes-Flow pid cc (ts ∷ rest) tail bytes (p, start, c, rai, more, split, flow) k =
    let (joined, same) = unit_bytes-Flow pid (low_bits (cc + 1) 4) rest tail more flow k in
    (rw (start, joined) split, rw (start, rai, same))

pub units-Flow :
    (pid cc : ℕ) (ra : Bool) (frames tail : List TsPacket) (bytes : List ℕ)
    → Flow pid true ra cc frames bytes
    → 0 < length bytes
    → Starts tail
    → units false (frames ++ tail) ≡ (ra, bytes) ∷ units false tail
unfolding units
units-Flow pid cc ra [] tail bytes h some_left k = absurd (omega (arith, ap length h))
units-Flow pid cc ra (ts ∷ rest) tail bytes (p, start, c, rai, more, split, flow) some_left k =
    let (joined, same) = unit_bytes-Flow pid (low_bits (cc + 1) 4) rest tail more flow k in
    rw (start, rai, joined, same, split)
