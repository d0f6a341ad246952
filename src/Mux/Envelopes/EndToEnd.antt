-- ===== src/Mux/Envelopes/EndToEnd.antt =====
-- The PES packets of a frame, written as TS packets, parsed and reassembled.
use oxideav_mpegts.Base.{
  ℕ, ◌<◌, ◌≡◌, refl, sym, ap, ◌∙◌, Bool, true, false, ◌&&◌, Option, none, List, [], ◌∷◌, ◌++◌,
  append-nil, is_some, is_none, length, All, ok-injective, >>=-eq_ok, ok,
}
use oxideav_mpegts.Packet.Header.{TsPacket, parse}
use oxideav_mpegts.Pes.Reassembler.{new_reassembler, reassemble}
use oxideav_mpegts.Pes.Reassembler.Units.{units, parse_units, reassemble-parse_units}
use oxideav_mpegts.Mux.Pes.{SpliceSpec, WriterState}
use oxideav_mpegts.Mux.Pes.Flow.{parse_all, Flow}
use oxideav_mpegts.Mux.Pes.Delivery.{IsState, IsRequest, Starts, write_pes-Delivered, units-Flow}
use oxideav_mpegts.Pes.Header.{PesPacket, has_optional_pes_header, parse_pes}
use oxideav_mpegts.Pes.Reassembler.{parse_announced}
use oxideav_mpegts.Mux.Envelopes.{FrameData, ring?, build_pes, write_envelopes}
use oxideav_mpegts.Mux.Envelopes.Parsed.{parse_pes_all, payloads, HasTimes, coded_dts}
use oxideav_mpegts.Mux.Envelopes.Built.{build_pes-Built}

-- The PES packets, of which the first is announced.
abbrev pub announced : Bool → List (List ℕ) → List (Bool × List ℕ)
announced ra [] = []
announced ra (pes ∷ rest) = (ra, pes) ∷ announced false rest

parse_all-append :
    (a b : List (List ℕ)) (fa fb : List TsPacket)
    → parse_all a ≡ ok fa
    → parse_all b ≡ ok fb
    → parse_all (a ++ b) ≡ ok (fa ++ fb)
unfolding parse_all
parse_all-append [] b fa fb h k = k ∙ ap (λ xs. ok (xs ++ fb)) (ok-injective h)
parse_all-append (x ∷ a) b fa fb h k =
    let (ts, p, h1) = >>=-eq_ok (parse x) _ h in
    let (frames, q, h2) = >>=-eq_ok (parse_all a) _ h1 in
    rw (p, parse_all-append a b frames fb q k) (ap (λ xs. ok (xs ++ fb)) (ok-injective h2))

record Carried (pid : ℕ) (pcr : Option (ℕ × ℕ)) (ra : Bool) (splice : Option SpliceSpec)
    (s : WriterState) (envelopes : List (List ℕ)) : Type 0 where
  packets : List (List ℕ)
  end : WriterState
  frames : List TsPacket
  eq : write_envelopes pid pcr ra splice s envelopes ≡ ok (packets, end)
  end_fits : IsState end
  read : parse_all packets ≡ ok frames
  starts : Starts frames
  units_eq : units false frames ≡ announced ra envelopes

units-nil : units false [] ≡ []
unfolding units
units-nil = refl

Flow-Starts :
    (pid cc : ℕ) (ra : Bool) (frames : List TsPacket) (bytes : List ℕ)
    → Flow pid true ra cc frames bytes
    → Starts frames
Flow-Starts pid cc ra [] bytes h = tt
Flow-Starts pid cc ra (ts ∷ rest) bytes h = h.1

Starts-append : (a b : List TsPacket) → Starts a → Starts b → Starts (a ++ b)
Starts-append [] b h k = k
Starts-append (ts ∷ a) b h k = h

module _ (pid : ℕ) (splice : Option SpliceSpec) where
  write_envelopes-Carried :
      (pcr : Option (ℕ × ℕ)) (ra : Bool) (s : WriterState) (envelopes : List (List ℕ))
      → IsRequest pid pcr splice
      → IsState s
      → All (λ pes. 0 < length pes) envelopes
      → Carried pid pcr ra splice s envelopes
  unfolding write_envelopes
  write_envelopes-Carried pcr ra s [] h k some_bytes = record {
    packets = [];
    end = s;
    frames = [];
    eq = refl;
    end_fits = k;
    read = unfold parse_all in refl;
    starts = tt;
    units_eq = units-nil;
  }
  write_envelopes-Carried pcr ra s (pes ∷ []) h k (some_byte, rest) =
      let w = write_pes-Delivered pid pes pcr ra splice s h k in
      record {
        packets = w.packets;
        end = w.end;
        frames = w.frames;
        eq = w.eq;
        end_fits = w.end_fits;
        read = w.read;
        starts = Flow-Starts pid s.cc ra w.frames pes w.flow;
        units_eq =
            ap (units false) (sym (append-nil w.frames))
            ∙ units-Flow pid s.cc ra w.frames [] pes w.flow some_byte tt
            ∙ ap (λ xs. (ra, pes) ∷ xs) units-nil;
      }
  write_envelopes-Carried pcr ra s (pes ∷ next ∷ rest) (fits, p, v) k (some_byte, some_bytes) =
      let w = write_pes-Delivered pid pes pcr ra none s (fits, p, tt) k in
      let later =
        write_envelopes-Carried none false w.end (next ∷ rest) (fits, tt, v) w.end_fits
          some_bytes in
      record {
        packets = w.packets ++ later.packets;
        end = later.end;
        frames = w.frames ++ later.frames;
        eq = rw (w.eq, later.eq);
        end_fits = later.end_fits;
        read = parse_all-append w.packets later.packets w.frames later.frames w.read later.read;
        starts =
            Starts-append w.frames later.frames (Flow-Starts pid s.cc ra w.frames pes w.flow)
              later.starts;
        units_eq =
            units-Flow pid s.cc ra w.frames later.frames pes w.flow some_byte later.starts
            ∙ ap (λ xs. (ra, pes) ∷ xs) later.units_eq;
      }

-- The PES packets of a frame, none of them empty, written as TS packets under a PID, a PCR and a splice
-- that fit the wire from any state that the writer comes to: the writer returns, every packet is one that
-- the reader accepts, and a reassembler that is fed them and flushed returns exactly these PES packets,
-- each as the reader of PES packets parses it, in their order, with the random access indicator on the
-- first one if it was asked for.
pub reassemble-write_envelopes :
    (pid : ℕ) (pcr : Option (ℕ × ℕ)) (ra : Bool) (splice : Option SpliceSpec) (s : WriterState)
    (envelopes : List (List ℕ))
    → IsRequest pid pcr splice
    → IsState s
    → All (λ pes. 0 < length pes) envelopes
    → (packets : List (List ℕ)) × (end : WriterState) × (frames : List TsPacket) × (write_envelopes
          pid pcr ra splice s envelopes
        ≡ ok (packets, end))
      × IsState end
      × (parse_all packets ≡ ok frames)
      × (reassemble new_reassembler frames ≡ parse_units (announced ra envelopes))
reassemble-write_envelopes pid pcr ra splice s envelopes h k some_bytes =
    let w = write_envelopes-Carried pid splice pcr ra s envelopes h k some_bytes in
    (
      w.packets,
      w.end,
      w.frames,
      w.eq,
      w.end_fits,
      w.read,
      reassemble-parse_units w.frames ∙ ap parse_units w.units_eq,
    )

-- The packets as the reassembler returns them.
abbrev pub marked : Bool → List PesPacket → List PesPacket
marked ra [] = []
marked ra (pes ∷ rest) = record pes { random_access = ra } ∷ marked false rest

parse_units-announced :
    (ra : Bool) (envelopes : List (List ℕ)) (list : List PesPacket)
    → parse_pes_all envelopes ≡ ok list
    → parse_units (announced ra envelopes) ≡ ok (marked ra list)
unfolding parse_pes_all parse_units parse_announced
parse_units-announced ra [] list h = ap (λ xs. ok (marked ra xs)) (ok-injective h)
parse_units-announced ra (bytes ∷ rest) list h =
    let (pes, p, h1) = >>=-eq_ok (parse_pes bytes) _ h in
    let (others, q, h2) = >>=-eq_ok (parse_pes_all rest) _ h1 in
    rw (p, parse_units-announced false rest others q)
      (ap (λ xs. ok (marked ra xs)) (ok-injective h2))

payloads-marked : (ra : Bool) (list : List PesPacket) → payloads (marked ra list) ≡ payloads list
payloads-marked ra [] = refl
payloads-marked ra (pes ∷ rest) = ap (λ xs. pes.payload ++ xs) (payloads-marked false rest)

marked-HasTimes :
    (stream_id : ℕ) (list : List PesPacket)
    → All (HasTimes stream_id none none) list
    → All
        (λ pes. HasTimes stream_id none none pes × (pes.random_access ≡ false))
        (marked false list)
marked-HasTimes stream_id [] h = tt
marked-HasTimes stream_id (pes ∷ rest) (h, hs) = ((h, refl), marked-HasTimes stream_id rest hs)

-- A frame with a PTS or without a DTS, on a stream with the optional PES header: `build_pes` returns PES
-- packets, these are written as TS packets that the reader accepts, for a PID, a PCR and a splice that
-- fit the wire and from any state that the writer comes to, and a reassembler that is fed the TS packets
-- and flushed returns PES packets of the frame's stream, whose payloads put together are the frame. The
-- first one has the frame's times on the 33-bit ring (the DTS only where it differs from the PTS) and the
-- random access indicator if it was asked for, and the others have neither.
pub reassemble-build_pes :
    (stream_id pid : ℕ) (frame : FrameData) (pcr : Option (ℕ × ℕ)) (ra : Bool)
    (splice : Option SpliceSpec) (s : WriterState)
    → stream_id < 256
    → has_optional_pes_header stream_id ≡ true
    → (is_some frame.dts && is_none frame.pts) ≡ false
    → IsRequest pid pcr splice
    → IsState s
    → (envelopes packets : List (List ℕ)) × (end : WriterState) × (frames : List TsPacket)
      × (first : PesPacket) × (rest : List PesPacket) × (build_pes stream_id frame ≡ ok envelopes)
      × (write_envelopes pid pcr ra splice s envelopes ≡ ok (packets, end))
      × (parse_all packets ≡ ok frames)
      × (reassemble new_reassembler frames ≡ ok (first ∷ rest))
      × HasTimes stream_id (ring? frame.pts) (coded_dts frame) first
      × (first.random_access ≡ ra)
      × All (λ pes. HasTimes stream_id none none pes × (pes.random_access ≡ false)) rest
      × (payloads (first ∷ rest) ≡ frame.payload)
reassemble-build_pes stream_id pid frame pcr ra splice s byte header paired h k =
    let b = build_pes-Built stream_id byte header frame paired in
    let (packets, end, frames, eq, fits, read, back) =
      reassemble-write_envelopes pid pcr ra splice s b.packets h k b.some_bytes in
    (
      b.packets,
      packets,
      end,
      frames,
      record b.first { random_access = ra },
      marked false b.rest,
      b.eq,
      eq,
      read,
      back ∙ parse_units-announced ra b.packets (b.first ∷ b.rest) b.read,
      b.first_times,
      refl,
      marked-HasTimes stream_id b.rest b.rest_times,
      payloads-marked ra (b.first ∷ b.rest) ∙ b.payload_eq,
    )
