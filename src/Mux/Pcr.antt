-- ===== src/Mux/Pcr.antt =====
-- src/muxer.rs: the packets with a PCR and no payload, at a variable rate. A function returns the
-- packets that it emits, in order, with the next state.
use oxideav_mpegts.Base.{
  ℕ, ◌+◌, ◌-◌, ◌%◌, ◌^◌, ◌<◌, ◌≡◌, refl, ◌⊎◌, inr, sym, ap, subst, Bool, true, false, Option, none,
  some, List, [], ◌∷◌, ◌++◌, append-nil, arith, if◌then◌else◌, length, replicate, low_bits, Outcome,
  ◌>>=◌, ok,
}
use oxideav_mpegts.Base.Int.{ℤ, pos, negsuc, ◌-ℤ◌, ◌≤ℤ◌}
use oxideav_mpegts.Packet.Field.{AdaptationField, parse_adaptation_field}
use oxideav_mpegts.Packet.Header.{TsPacket, parse}
use oxideav_mpegts.Packet.Encode.{encode}
use oxideav_mpegts.Packet.Encode.RoundTrip.{decoded}
use oxideav_mpegts.Packet.Encode.Result.{
  encode_returns_iff, encode-framed, length-encode, parse_adaptation_field-encode,
}
use oxideav_mpegts.Mux.Frame.{header_bytes, framed, parse-field_only}
use oxideav_mpegts.Mux.Pes.{WriterState, empty_spec}
use oxideav_mpegts.Mux.Pes.Annotation.{packet_spec, packet_spec-IsSmall}

-- `has_track` is whether a track has the PID of the PCR; the state is that of this track.
unfoldable pub emit_pcr_only :
    ℕ → Bool → WriterState → ℕ → ℕ → Outcome (List (List ℕ) × WriterState)
emit_pcr_only pcr_pid has_track s base ext =
    let taken = record s { pending_discontinuity = false } in
    if has_track
    then (do
      af ←
          encode
            (record empty_spec {
              discontinuity_indicator = s.pending_discontinuity;
              pcr = some (base, ext);
            })
            (some 184)
      ok (
        (header_bytes false pcr_pid 2 (low_bits ((s.cc + 255) % 256) 4)
              ++ (af ++ replicate (184 - length af) 0xFF))
            ∷ [],
        taken,
      ))
    else ok ([], taken)

-- `pts.saturating_sub(900).max(0)` of an `i64`.
unfoldable pub guarded : ℤ → ℕ
guarded (pos n) = n - 900
guarded (negsuc n) = 0

-- The packets, the next state and the program's `last_pcr_pts`.
unfoldable pub write_pcr_only_packet :
    ℕ → Bool → WriterState → ℤ → Outcome (List (List ℕ) × WriterState × Option ℕ)
write_pcr_only_packet pcr_pid has_track s pts = do
  (packets, next) ← emit_pcr_only pcr_pid has_track s (guarded pts % 2 ^ 33) 0
  ok (packets, next, some (guarded pts))

-- An adaptation field with a PCR fills the packet.
pub emit_pcr_only-read :
    (pid : ℕ) (s : WriterState) (base ext : ℕ)
    → pid < 2 ^ 13
    → base < 2 ^ 33
    → ext < 2 ^ 9
    → (af : List ℕ) × (emit_pcr_only pid true s base ext
        ≡ ok (
          (header_bytes false pid 2 (low_bits ((s.cc + 255) % 256) 4) ++ af) ∷ [],
          record s { pending_discontinuity = false },
        ))
      × (parse (header_bytes false pid 2 (low_bits ((s.cc + 255) % 256) 4) ++ af)
          ≡ ok (
              framed false pid
                (low_bits ((s.cc + 255) % 256) 4)
                (some (
                  decoded
                    (packet_spec false s.pending_discontinuity (some (base, ext)) none none)
                    (length af - 1)
                    af))
                []
                (header_bytes false pid 2 (low_bits ((s.cc + 255) % 256) 4) ++ af)))
unfolding emit_pcr_only
emit_pcr_only-read pid s base ext h b e =
    let spec = packet_spec false s.pending_discontinuity (some (base, ext)) none none in
    let w =
      packet_spec-IsSmall false s.pending_discontinuity (some (base, ext)) none none (b, e) tt tt
        (λ h. h) in
    let (out, eq) = (encode_returns_iff spec (some 184) tt).1 (record {
      fits = w.fits;
      paired = w.paired;
      room = omega (arith, w.room);
      size = omega arith;
    }) in
    let (body, split) = encode-framed spec (some 184) out eq in
    let size = length-encode spec (some 184) out eq in
    let full : 184 - length out ≡ 0 = omega (arith, size) in
    (
      out,
      rw (eq, full, append-nil out),
      subst
          (λ a.
            parse_adaptation_field a ≡ ok (decoded spec (length out - 1) out)
            → parse (header_bytes false pid 2 (low_bits ((s.cc + 255) % 256) 4) ++ a)
              ≡ ok (
                  framed false pid (low_bits ((s.cc + 255) % 256) 4)
                    (some (decoded spec (length out - 1) out)) []
                    (header_bytes false pid 2 (low_bits ((s.cc + 255) % 256) 4) ++ a)))
          (sym split)
          (parse-field_only false pid (low_bits ((s.cc + 255) % 256) 4) h (omega arith)
            (length body) body (decoded spec (length out - 1) out) refl
            (omega (arith, size, ap length split)))
          (parse_adaptation_field-encode spec (some 184) out tt eq),
    )

-- `base` is 900 less than `pts`, but at least 0.
abbrev pub IsGuarded : ℤ → ℕ → Type 0
IsGuarded pts base = (pts -ℤ pos 900 ≡ pos base) ⊎ ((pts ≤ℤ pos 900) × (base ≡ 0))

pub guarded-IsGuarded : (pts : ℤ) → IsGuarded pts (guarded pts)
unfolding guarded ◌-ℤ◌
guarded-IsGuarded (pos n) = ground arith
guarded-IsGuarded (negsuc n) = inr (omega arith, refl)

-- For a PID that a track has and any PTS, `write_pcr_only_packet` emits one packet, which the reader of
-- TS packets accepts: it has no payload, the continuity counter before the one of the track's next
-- packet, and a PCR of the PTS less 900, but at least 0, on the 33-bit ring, with a discontinuity where
-- one was pending. After it none is pending, the track's counter is as it was, and `last_pcr_pts` is
-- that PTS less 900, but at least 0.
pub write_pcr_only_packet-received :
    (pid : ℕ) (s : WriterState) (pts : ℤ)
    → pid < 2 ^ 13
    → s.cc < 16
    → (packet : List ℕ) × (ts : TsPacket) × (af : AdaptationField) × (base : ℕ) × IsGuarded pts base
      × (write_pcr_only_packet pid true s pts
          ≡ ok (packet ∷ [], record s { pending_discontinuity = false }, some base))
      × (parse packet ≡ ok ts)
      × (ts.pid ≡ pid)
      × (low_bits (ts.continuity_counter + 1) 4 ≡ s.cc)
      × (ts.payload ≡ [])
      × (ts.adaptation_field ≡ some af)
      × (af.pcr_base ≡ some (base % 2 ^ 33))
      × (af.pcr_extension ≡ some 0)
      × (af.discontinuity_indicator ≡ s.pending_discontinuity)
unfolding write_pcr_only_packet
write_pcr_only_packet-received pid s pts h k =
    let (af, eq, read) =
      emit_pcr_only-read pid s (guarded pts % 2 ^ 33) 0 h (omega arith) (omega arith) in
    (
      header_bytes false pid 2 (low_bits ((s.cc + 255) % 256) 4) ++ af,
      framed false pid (low_bits ((s.cc + 255) % 256) 4)
          (some (
            decoded
              (packet_spec false s.pending_discontinuity (some (guarded pts % 2 ^ 33, 0)) none none)
              (length af - 1) af))
          [] (header_bytes false pid 2 (low_bits ((s.cc + 255) % 256) 4) ++ af),
      decoded (packet_spec false s.pending_discontinuity (some (guarded pts % 2 ^ 33, 0)) none none)
          (length af - 1) af,
      guarded pts,
      guarded-IsGuarded pts,
      rw eq,
      read,
      refl,
      omega arith,
      refl,
      refl,
      refl,
      refl,
      refl,
    )
