-- ===== src/Mux/Tests.antt =====
-- src/muxer.rs: examples on concrete frames and sections.
use oxideav_mpegts.Base.{
  ℕ, ◌+◌, ◌%◌, ◌^◌, ◌≤◌, ◌<◌, max, ◌≡◌, refl, true, false, none, some, List, [], ◌∷◌, arith,
  replicate, All, low_bits, ok,
}
use oxideav_mpegts.Base.Int.{pos}
use oxideav_mpegts.Packet.Field.{AdaptationField}
use oxideav_mpegts.Packet.Header.{TsPacket, parse}
use oxideav_mpegts.Psi.Assembler.Invariant.{state}
use oxideav_mpegts.Pes.Header.{PesPacket, has_optional_pes_header}
use oxideav_mpegts.Pes.Reassembler.{new_reassembler, reassemble}
use oxideav_mpegts.Mux.Psi.{write_psi_packet}
use oxideav_mpegts.Mux.Psi.Sections.{idle}
use oxideav_mpegts.Mux.Psi.Reception.{received, write_psi_packet-received}
use oxideav_mpegts.Mux.Pes.{SpliceSpec, WriterState, write_pes_bytes_as_ts}
use oxideav_mpegts.Mux.Pcr.{IsGuarded, write_pcr_only_packet, write_pcr_only_packet-received}
use oxideav_mpegts.Mux.Cadence.{maybe_emit_periodic_pcr, Spaced, maybe_emit_periodic_pcr-Spaced}
use oxideav_mpegts.Mux.Pes.Flow.{parse_all, Flow, CountsDown}
use oxideav_mpegts.Mux.Pes.Delivery.{
  IsRequest, IsState, write_pes_bytes_as_ts-Flow, write_pes_bytes_as_ts-CountsDown,
}
use oxideav_mpegts.Mux.Envelopes.{FrameData, ring?, build_pes, write_envelopes}
use oxideav_mpegts.Mux.Envelopes.Parsed.{HasTimes, coded_dts, payloads}
use oxideav_mpegts.Mux.Envelopes.EndToEnd.{reassemble-build_pes}

-- An audio frame that takes two PES packets, and a splicing point with a negative countdown behind it.
abbrev frame : FrameData
frame = record { pts = some (pos 900000); dts = some (pos 896400); payload = replicate 70000 7 }

abbrev splice : SpliceSpec
splice = record {
  seamless = some (record { splice_type = 3; dts_next_au = 90000 });
  post_splice_packets = 2;
}

abbrev writer : WriterState
writer = record { cc = 15; post_splice = some (1, 2); pending_discontinuity = true }

abbrev pes_bytes : List ℕ
pes_bytes = 0 ∷ 0 ∷ 1 ∷ replicate 400 7

-- A section of 300 bytes, which takes two packets.
abbrev section_tail : List ℕ
section_tail = 0xB1 ∷ 41 ∷ replicate 297 1

request : IsRequest 256 (some (27000, 123)) (some splice)
request = (omega arith, (omega arith, omega arith), ((omega arith, omega arith), omega arith))

writing : IsState writer
writing = (omega arith, (omega arith, omega arith))

audio_header : has_optional_pes_header 0xC0 ≡ true
unfolding has_optional_pes_header
audio_header = refl

reassemble-build_pes_example :
    (envelopes packets : List (List ℕ)) × (end : WriterState) × (frames : List TsPacket)
    × (first : PesPacket) × (rest : List PesPacket) × (build_pes 0xC0 frame ≡ ok envelopes)
    × (write_envelopes 256 (some (27000, 123)) true (some splice) writer envelopes
        ≡ ok (packets, end))
    × (parse_all packets ≡ ok frames)
    × (reassemble new_reassembler frames ≡ ok (first ∷ rest))
    × HasTimes 0xC0 (ring? frame.pts) (coded_dts frame) first
    × (first.random_access ≡ true)
    × All (λ pes. HasTimes 0xC0 none none pes × (pes.random_access ≡ false)) rest
    × (payloads (first ∷ rest) ≡ frame.payload)
reassemble-build_pes_example =
    reassemble-build_pes 0xC0 256 frame (some (27000, 123)) true (some splice) writer (omega arith)
      audio_header refl request writing

write_pes_bytes_as_ts-Flow_example :
    (packets : List (List ℕ)) × (end : WriterState) × (frames : List TsPacket)
    × (write_pes_bytes_as_ts 256 pes_bytes (some (27000, 123)) true (some splice) writer
        ≡ ok (packets, end))
    × IsState end
    × (parse_all packets ≡ ok frames)
    × Flow 256 true true 15 frames pes_bytes
write_pes_bytes_as_ts-Flow_example =
    write_pes_bytes_as_ts-Flow 256 pes_bytes (some (27000, 123)) true (some splice) writer request
      writing

write_pes_bytes_as_ts-CountsDown_example :
    (packets : List (List ℕ)) × (end : WriterState) × (frames : List TsPacket)
    × (write_pes_bytes_as_ts 256 pes_bytes (some (27000, 123)) true (some splice) writer
        ≡ ok (packets, end))
    × (parse_all packets ≡ ok frames)
    × CountsDown frames
write_pes_bytes_as_ts-CountsDown_example =
    write_pes_bytes_as_ts-CountsDown 256 pes_bytes (some (27000, 123)) true splice writer request
      writing

write_psi_packet-received_example :
    (end : ℕ) × (end < 16)
    × ((write_psi_packet 0x1FF0 15 (2 ∷ section_tail)).1 ≡ low_bits (end + 1) 4)
    × (received (state [] none (some 3)) (write_psi_packet 0x1FF0 15 (2 ∷ section_tail)).0
        ≡ ok ((2 ∷ section_tail) ∷ [], idle end))
write_psi_packet-received_example =
    write_psi_packet-received (some 3) 0x1FF0 15 2 section_tail (omega arith) (omega arith)
      (omega arith) (omega arith, omega arith, refl)

write_pcr_only_packet-received_example :
    (packet : List ℕ) × (ts : TsPacket) × (af : AdaptationField) × (base : ℕ) × IsGuarded
      (pos 90000)
      base
    × (write_pcr_only_packet 256 true writer (pos 90000)
        ≡ ok (packet ∷ [], record writer { pending_discontinuity = false }, some base))
    × (parse packet ≡ ok ts)
    × (ts.pid ≡ 256)
    × (low_bits (ts.continuity_counter + 1) 4 ≡ 15)
    × (ts.payload ≡ [])
    × (ts.adaptation_field ≡ some af)
    × (af.pcr_base ≡ some (base % 2 ^ 33))
    × (af.pcr_extension ≡ some 0)
    × (af.discontinuity_indicator ≡ true)
write_pcr_only_packet-received_example =
    write_pcr_only_packet-received 256 writer (pos 90000) (omega arith) (omega arith)

maybe_emit_periodic_pcr-Spaced_example :
    (packets : List (List ℕ)) × (end : WriterState) × (stop : ℕ) × (frames : List TsPacket)
    × (maybe_emit_periodic_pcr 256 true writer (some 81000) (pos 90000)
        ≡ ok (packets, end, some stop))
    × (parse_all packets ≡ ok frames)
    × Spaced 256 81000 stop frames
    × (target : ℕ) × IsGuarded (pos 90000) target
    × (target ≤ stop + 3600)
    × (stop ≤ max 81000 target)
maybe_emit_periodic_pcr-Spaced_example =
    maybe_emit_periodic_pcr-Spaced 256 writer 81000 (pos 90000) (omega arith)
