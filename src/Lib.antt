-- ===== src/Lib.antt =====
-- A verification library for the MPEG transport stream crate `oxideav-mpegts`: the packet, section,
-- clock and timestamp layers of the crate, translated from its source.
--
-- The program. A transport stream is a sequence of 188-byte packets. src/packet.rs reads a packet
-- with its adaptation field, writes adaptation fields, walks a buffer packet by packet and detects
-- the physical framing. src/psi.rs joins the payloads of a PID into sections, checks their CRC and
-- reads the tables PAT and PMT from them, and src/build.rs writes these sections. src/clock.rs
-- follows the clock references, the continuity counters and the timestamps of a PID, from the
-- adaptation fields that the packet layer reads. src/pes.rs reads and writes PES packets, with their
-- timestamps and extension, and joins the payloads of a PID into them. src/muxer.rs writes the frames
-- of a track as PES packets, and PES packets and sections as transport packets with the writers of the
-- other files.
--
-- The modules.
--   Base: lists, bytes, tests, integers and the outcome of a fallible function. `Outcome` has an
--     `ok`, an `err` with `TsError` (src/error.rs) and a `panic`, which an index or a slice out of
--     range and a `usize` subtraction below zero return. Base.Bits relates the bit operations of the
--     source to the arithmetic of the models: `|` of fields that share no bit is written `+`, a mask
--     of low bits is `low_bits`, a test of one bit is `flag`.
--     Base.View states that given bytes stand at a cursor.
--   Packet (src/packet.rs): Extension, Field and Header read (`parse_extension`,
--     `parse_adaptation_field`, `TsPacket::parse` as `parse`); Stream is `iter_packets`; Layout is
--     `detect_packet_layout`; Encode is `AdaptationFieldSpec::encode`.
--   Psi (src/psi.rs, src/build.rs): Crc is `mpeg2_crc32`; Section is `parse_section_header` and
--     `long_section`; Pat and Pmt are the two tables with `build_pat` and `build_pmt`; Assembler is
--     `PsiSectionAssembler`, whose methods return their result together with the next state;
--     Iterate is `iter_sections`.
--   Clock (src/clock.rs): Pcr is `Pcr`, Recovery is `PcrTracker`, Continuity is
--     `ContinuityTracker`, Timestamps is `PtsTracker` with `nearest_epoch` and `extend_near`.
--   Pes (src/pes.rs): Timestamp is `decode_timestamp`, `decode_escr` and their writers; TrickMode
--     is `DsmTrickMode`; Fields, Extension and Header read (`PesPacket::parse` as `parse_pes`,
--     `PesExtension::parse` as `parse_pes_extension`); Encode is `PesHeaderSpec::encode` as
--     `encode_pes`; Reassembler is `PesReassembler`.
--   Mux (src/muxer.rs): Frame is the header of a packet that the muxer writes; Psi is
--     `write_psi_packet`; Pcr is `write_pcr_only_packet`; Cadence is `maybe_emit_periodic_pcr`, where a
--     program's `last_pcr_pts` is a natural number, since what is stored there is at least 0; Pes is
--     `write_pes_bytes_as_ts` with its splice countdowns; Envelopes is `build_pes` and the loop of
--     `write_pes_packet` over its PES packets. They return the packets that they emit, in order, with
--     the next state of the track (`WriterState`).
--   A module named Tests holds concrete runs and one example for each result.
--
-- Conventions. Numbers are natural numbers, and a byte list is any list of them: what a theorem
-- needs of their size it assumes (`IsBytes`). A slice is the list of its bytes. A cursor that the
-- source moves is returned moved on. Where the source casts or shifts a value out of its width, the
-- model keeps the low bits. `usize` is 64 bits wide. Where clock.rs can overflow, the wrap-around of
-- a release build is written out. The muxer is modelled at a variable rate (`self.cbr` is `None`), so
-- that it paces nothing; its splice, PCR and random access flag are arguments, and `FrameData` has the
-- fields that it reads of the framework's `Packet`. Its errors are the framework's `CoreError::invalid`
-- with a text; the models return the `TsError` behind it, or `invalid_field` with that text.
--
-- Fuel. The loops of PAT and PMT run on fuel one above the length of the body, those of the
-- assembler on one above the length of the payload, and each turn moves on by at least three
-- bytes, so that the fuel outlasts the bytes; without fuel the models panic. The loop over packets
-- and the loop over sections take their fuel from the caller. The muxer's loop over a section has one
-- more than the section's length as its fuel, its loop over a PES packet the length of the packet,
-- the loop of `build_pes` the length of the frame, and that of `backfill_pcr_chain` one more than the
-- PCR that it goes to: a turn writes at least a byte (of a section, in each turn but the first) or
-- comes closer to that PCR.
--
-- Not modelled: the other tables of psi.rs and their builders, the descriptors, the demuxer, the
-- validator, the decoder buffer model, program streams, ATSC tables and the probes of elementary
-- streams; of the muxer, the constant rate, the rest of `write_pes_packet`, the tables that it repeats
-- and its configuration. They stand on the layers that are modelled here.
pub mod Base
pub mod Packet
pub mod Psi
pub mod Clock
pub mod Pes
pub mod Mux
