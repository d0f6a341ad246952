-- ===== src/Mux/Cadence.antt =====
-- src/muxer.rs: how the muxer keeps the PCRs of a program close to one another, at a variable rate.
use oxideav_mpegts.Base.{
  ℕ, zero, suc, ◌+◌, ◌-◌, ◌%◌, ◌^◌, ◌≤◌, ◌<◌, max, ◌≡◌, refl, inl, inr, Bool, true, false, Option,
  none, some, List, [], ◌∷◌, ◌++◌, arith, leb, if◌then◌else◌, leb→le, le→leb, lt→leb_false,
  Bool-cases, length, low_bits, Outcome, ◌>>=◌, ok, panic,
}
use oxideav_mpegts.Base.Int.{ℤ}
use oxideav_mpegts.Packet.Header.{TsPacket}
use oxideav_mpegts.Packet.Encode.RoundTrip.{decoded}
use oxideav_mpegts.Mux.Frame.{header_bytes, framed}
use oxideav_mpegts.Mux.Pes.{WriterState}
use oxideav_mpegts.Mux.Pes.Annotation.{packet_spec}
use oxideav_mpegts.Mux.Pes.Flow.{parse_all}
use oxideav_mpegts.Mux.Pcr.{
  emit_pcr_only, guarded, write_pcr_only_packet, emit_pcr_only-read, IsGuarded, guarded-IsGuarded,
}

abbrev pub pcr_max_interval_90k : ℕ
pcr_max_interval_90k = 3600

-- `backfill_pcr_chain` from `last_pcr_pts`, which is never negative. Without fuel it would panic.
unfoldable pub backfill_loop :
    ℕ → ℕ → Bool → WriterState → ℕ → ℕ → Outcome (List (List ℕ) × WriterState × ℕ)
backfill_loop zero pcr_pid has_track s last target = panic
backfill_loop (suc fuel) pcr_pid has_track s last target =
    if leb (target - last) pcr_max_interval_90k then ok ([], s, last) else (do
      let next = last + (pcr_max_interval_90k - 900)
      (packets, s1) ← emit_pcr_only pcr_pid has_track s (next % 2 ^ 33) 0
      (more, end, stop) ← backfill_loop fuel pcr_pid has_track s1 next target
      ok (packets ++ more, end, stop))

unfoldable pub backfill_pcr_chain :
    ℕ → Bool → WriterState → Option ℕ → ℕ → Outcome (List (List ℕ) × WriterState × Option ℕ)
backfill_pcr_chain pcr_pid has_track s none target = ok ([], s, none)
backfill_pcr_chain pcr_pid has_track s (some last) target = do
  (packets, end, stop) ← backfill_loop (suc target) pcr_pid has_track s last target
  ok (packets, end, some stop)

unfoldable pub maybe_emit_periodic_pcr :
    ℕ → Bool → WriterState → Option ℕ → ℤ → Outcome (List (List ℕ) × WriterState × Option ℕ)
unfolding backfill_pcr_chain
maybe_emit_periodic_pcr pcr_pid has_track s none pts = write_pcr_only_packet pcr_pid has_track s pts
maybe_emit_periodic_pcr pcr_pid has_track s (some last) pts =
    backfill_pcr_chain pcr_pid has_track s (some last) (guarded pts)

abbrev pub pcr_of : TsPacket → Option ℕ × Option ℕ
pcr_of ts = elim ts.adaptation_field [
  | none ↦ (none, none)
  | some af ↦ (af.pcr_base, af.pcr_extension)
]

-- Packets on the PID with nothing but a PCR, 2700 ticks of the 90 kHz clock apart, from `last` to `stop`.
abbrev pub Spaced : ℕ → ℕ → ℕ → List TsPacket → Type 0
Spaced pid last stop [] = stop ≡ last
Spaced pid last stop (ts ∷ rest) =
    (ts.pid ≡ pid)
    × (ts.payload ≡ [])
    × (pcr_of ts ≡ (some ((last + 2700) % 2 ^ 33), some 0))
    × Spaced pid (last + 2700) stop rest

backfill_loop-stop :
    (fuel pid : ℕ) (s : WriterState) (last target : ℕ)
    → target - last ≤ 3600
    → backfill_loop (suc fuel) pid true s last target ≡ ok ([], s, last)
unfolding backfill_loop
backfill_loop-stop fuel pid s last target h = rw (le→leb (target - last) 3600 h)

backfill_loop-more :
    (fuel pid : ℕ) (s s1 end : WriterState) (last target stop : ℕ) (packet : List ℕ)
    (more : List (List ℕ))
    → 3600 < target - last
    → emit_pcr_only pid true s ((last + 2700) % 2 ^ 33) 0 ≡ ok (packet ∷ [], s1)
    → backfill_loop fuel pid true s1 (last + 2700) target ≡ ok (more, end, stop)
    → backfill_loop (suc fuel) pid true s last target ≡ ok (packet ∷ more, end, stop)
unfolding backfill_loop
backfill_loop-more fuel pid s s1 end last target stop packet more h e eq =
    rw (lt→leb_false (target - last) 3600 h, e, eq)

backfill_loop-Spaced :
    (fuel pid : ℕ) (s : WriterState) (last target : ℕ)
    → pid < 2 ^ 13
    → target - last < fuel
    → (packets : List (List ℕ)) × (end : WriterState) × (stop : ℕ) × (frames : List TsPacket)
      × (backfill_loop fuel pid true s last target ≡ ok (packets, end, stop))
      × (parse_all packets ≡ ok frames)
      × Spaced pid last stop frames
      × (target ≤ stop + 3600)
      × (stop ≤ max last target)
unfolding parse_all
backfill_loop-Spaced zero pid s last target h room = absurd (omega arith)
backfill_loop-Spaced (suc fuel) pid s last target h room =
    elim (Bool-cases (leb (target - last) 3600)) [
      | inl near ↦
          let n = leb→le _ _ near in
          (
            [],
            s,
            last,
            [],
            backfill_loop-stop fuel pid s last target n,
            refl,
            refl,
            omega arith,
            omega arith,
          )
      | inr far ↦
          let big : 3600 < target - last = ground arith in
          let (af, eq, read) =
            emit_pcr_only-read pid s ((last + 2700) % 2 ^ 33) 0 h (omega arith) (omega arith) in
          let (more, end, stop, frames, later, back, spaced, near, inside) =
            backfill_loop-Spaced fuel pid (record s { pending_discontinuity = false }) (last + 2700)
              target h (omega arith) in
          (
            (header_bytes false pid 2 (low_bits ((s.cc + 255) % 256) 4) ++ af) ∷ more,
            end,
            stop,
            framed false pid (low_bits ((s.cc + 255) % 256) 4)
                  (some (
                    decoded
                      (packet_spec false s.pending_discontinuity (some ((last + 2700) % 2 ^ 33, 0))
                        none none)
                      (length af - 1) af))
                  [] (header_bytes false pid 2 (low_bits ((s.cc + 255) % 256) 4) ++ af)
                ∷ frames,
            backfill_loop-more fuel pid s (record s { pending_discontinuity = false }) end last
                target stop (header_bytes false pid 2 (low_bits ((s.cc + 255) % 256) 4) ++ af) more
                big eq later,
            rw (read, back),
            (refl, refl, refl, spaced),
            near,
            omega arith,
          )
    ]

-- On a program that has emitted a PCR, for a PID that a track has and any PTS, `maybe_emit_periodic_pcr`
-- returns: it emits packets that the reader of TS packets accepts, with no payload and with PCRs 2700
-- ticks of the 90 kHz clock (30 ms) from one to the next, on the 33-bit ring, the first as far behind
-- the PCR before. The last PCR is then at most 3600 ticks (40 ms) before the PTS less 900, and not
-- past the later one of that and the PCR before.
pub maybe_emit_periodic_pcr-Spaced :
    (pid : ℕ) (s : WriterState) (last : ℕ) (pts : ℤ)
    → pid < 2 ^ 13
    → (packets : List (List ℕ)) × (end : WriterState) × (stop : ℕ) × (frames : List TsPacket)
      × (maybe_emit_periodic_pcr pid true s (some last) pts ≡ ok (packets, end, some stop))
      × (parse_all packets ≡ ok frames)
      × Spaced pid last stop frames
      × (target : ℕ) × IsGuarded pts target
      × (target ≤ stop + 3600)
      × (stop ≤ max last target)
unfolding maybe_emit_periodic_pcr
maybe_emit_periodic_pcr-Spaced pid s last pts h =
    let (packets, end, stop, frames, eq, read, spaced, near, inside) =
      backfill_loop-Spaced (suc (guarded pts)) pid s last (guarded pts) h (omega arith) in
    (
      packets,
      end,
      stop,
      frames,
      rw eq,
      read,
      spaced,
      guarded pts,
      guarded-IsGuarded pts,
      near,
      inside,
    )
