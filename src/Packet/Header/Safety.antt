-- ===== src/Packet/Header/Safety.antt =====
-- `TsPacket::parse` on hostile bytes.
use oxideav_mpegts.Base.{
  ℕ, ◌+◌, ◌-◌, ◌^◌, ◌≤◌, ◌<◌, ◌≡◌, refl, sym, ap, subst, ◌⊎◌, inl, inr, Bool, true, false, Option,
  none, some, List, [], arith, ltb, ◌==◌, if◌then◌else◌, Bool-cases, length, take, drop,
  length-take, length-drop, All-take, All-drop, IsByte, IsBytes, ◌>>>◌, low_bits, flag,
  byte_at-IsByte, ◌>>=◌, index, slice, Ensures, Ensures-bind, byte_at, index-ok, slice-ok,
  truncated_from-err, add_or_truncated-ok, bad_sync_byte, ok, err,
}
use oxideav_mpegts.Packet.Field.{AdaptationField, parse_adaptation_field}
use oxideav_mpegts.Packet.Field.Safety.{FieldFits, parse_adaptation_field-FieldFits}
use oxideav_mpegts.Packet.Header.{TsPacket, ts_sync_byte, parse_af_part, parse_synced, parse}

-- The bytes that the adaptation field takes, its length byte included.
abbrev pub af_size : Option AdaptationField → ℕ
af_size none = 0
af_size (some af) = length af.raw

abbrev pub AfFits : Option AdaptationField → Type 0
AfFits none = Unit {0}
AfFits (some af) = FieldFits af.raw af

-- The fields fit their widths, and header, adaptation field and payload fill the 188 bytes, unless
-- the packet is marked as carrying no payload.
pub record PacketFits (buf : List ℕ) (p : TsPacket) : Type 0 where
  pub pid_fits : p.pid < 2 ^ 13
  pub scrambling_fits : p.transport_scrambling_control < 4
  pub counter_fits : p.continuity_counter < 16
  pub af_fits : AfFits p.adaptation_field
  pub af_inside : 4 + af_size p.adaptation_field ≤ 188
  pub filled : (p.payload ≡ []) ⊎ (4 + af_size p.adaptation_field + length p.payload ≡ 188)
  pub window : p.bytes ≡ take 188 buf

module _ (bytes : List ℕ) (is_bytes : IsBytes bytes) (whole : length bytes ≡ 188) where
  af_raw : (n : ℕ) → List ℕ
  af_raw n = take (4 + (n + 1) - 4) (drop 4 bytes)

  length-af_raw : (n : ℕ) → n + 5 ≤ 188 → length (af_raw n) ≡ n + 1
  unfolding af_raw
  length-af_raw n h =
      omega (arith, length-take (4 + (n + 1) - 4) (drop 4 bytes), length-drop 4 bytes)

  -- The cursor behind the field counts the header and the field.
  abbrev Placed : Option AdaptationField × ℕ → Type 0
  Placed (af, c) = AfFits af × (c ≡ 4 + af_size af) × (c ≤ 188)

  Placed-some :
      (n : ℕ) (af : AdaptationField)
      → n + 5 ≤ 188
      → FieldFits (af_raw n) af
      → Placed (some af, 4 + (n + 1))
  Placed-some n af h f = (
    subst (λ r. FieldFits r af) (sym f.raw_eq) f,
    omega (arith, ap length f.raw_eq, length-af_raw n),
    omega arith,
  )

  parse_af_part-Ensures : (has_af : Bool) → Ensures Placed (parse_af_part bytes 4 has_af)
  unfolding parse_af_part af_raw
  parse_af_part-Ensures false = (tt, refl, omega arith)
  parse_af_part-Ensures true =
      rw
        (
          index-ok bytes 4 (omega arith),
          add_or_truncated-ok "TS adaptation_field" (length bytes) 4 (n + 1) (omega arith)
              (omega (arith, byte_at-IsByte bytes 4 is_bytes)),
        )
        (elim (Bool-cases (ltb 188 (4 + (n + 1)))) [
          | inl over ↦
              rw (over, truncated_from-err "TS adaptation_field" 188 4 (n + 1) (omega arith)) tt
          | inr fits ↦
              rw (fits, slice-ok bytes 4 (4 + (n + 1)) (omega arith) (inside fits)) (rest fits)
        ])
    where
      n : ℕ
      n = byte_at bytes 4

      inside : ltb 188 (4 + (n + 1)) ≡ false → 4 + (n + 1) ≤ length bytes
      inside e = ground arith

      rest :
          ltb 188 (4 + (n + 1)) ≡ false
          → Ensures Placed (parse_adaptation_field (af_raw n) >>= λ af. ok (some af, 4 + (n + 1)))
      rest e =
          Ensures-bind (FieldFits (af_raw n)) Placed (parse_adaptation_field (af_raw n)) _
            (parse_adaptation_field-FieldFits (af_raw n)
              (All-take IsByte _ _ (All-drop IsByte 4 bytes is_bytes))
              (omega
                (arith, length-af_raw n (omega (arith, inside e)), byte_at-IsByte bytes 4 is_bytes))
              (omega (arith, length-af_raw n (omega (arith, inside e)))))
            (λ af f. Placed-some n af (omega (arith, inside e)) f)

  payload-Ensures :
      (has : Bool) (af : Option AdaptationField) (c : ℕ)
      → Placed (af, c)
      → Ensures
          (λ p. (p ≡ []) ⊎ (4 + af_size af + length p ≡ 188))
          (if has then slice bytes c (length bytes) else ok [])
  payload-Ensures false af c h = inl refl
  payload-Ensures true af c (f, e, le) =
      rw (slice-ok bytes c (length bytes) (omega arith) (omega arith))
        (inr (omega (arith, length-take (length bytes - c) (drop c bytes), length-drop c bytes)))

  parse_synced-Ensures :
      (buf : List ℕ) → bytes ≡ take 188 buf → Ensures (PacketFits buf) (parse_synced bytes)
  unfolding parse_synced
  parse_synced-Ensures buf e =
      rw
        (
          index-ok bytes 1 (omega arith),
          index-ok bytes 2 (omega arith),
          index-ok bytes 3 (omega arith),
        )
        (Ensures-bind Placed (PacketFits buf) (parse_af_part bytes 4 _) _ (parse_af_part-Ensures _)
          λ (af, c) placed.
            Ensures-bind _ (PacketFits buf)
              (if flag (low_bits (byte_at bytes 3 >>> 4) 2) 0
                then slice bytes c (length bytes)
                else ok [])
              _ (payload-Ensures (flag (low_bits (byte_at bytes 3 >>> 4) 2) 0) af c placed)
              λ payload filled. record {
                pid_fits = omega (arith, byte_at-IsByte bytes 2 is_bytes);
                scrambling_fits = omega arith;
                counter_fits = omega arith;
                af_fits = placed.0;
                af_inside = omega (arith, placed.1, placed.2);
                filled = filled;
                window = e;
              })

-- On any bytes `parse` never panics: it returns an error, or a packet with a PID of 13 bits, a scrambling
-- control of 2 and a counter of 4, and, where it has an adaptation field, with the length, the clock
-- references, the signed splice countdown, the private data and the fields of the extension within
-- their widths. Header, adaptation field and payload fill the 188 bytes, unless there is no payload.
pub parse-PacketFits : (buf : List ℕ) → IsBytes buf → Ensures (PacketFits buf) (parse buf)
unfolding parse
parse-PacketFits buf bytes = elim (Bool-cases (ltb (length buf) 188)) [
  | inl short ↦ rw (short, parse) tt
  | inr long ↦
      let le : 188 ≤ length buf = ground arith in
      rw (long, slice-ok buf 0 188 (omega arith) le) (checked (omega (arith, length-take 188 buf)))
]
  where
    checked :
        length (take 188 buf) ≡ 188
        → Ensures (PacketFits buf) (
            index (take 188 buf) 0 >>= λ b0.
            if b0 == ts_sync_byte then parse_synced (take 188 buf) else err (bad_sync_byte b0))
    checked w =
        rw (index-ok (take 188 buf) 0 (omega arith))
          (elim (Bool-cases (byte_at (take 188 buf) 0 == ts_sync_byte)) [
            | inl sync ↦
                rw sync
                  (parse_synced-Ensures (take 188 buf) (All-take IsByte 188 buf bytes) w buf refl)
            | inr lost ↦ rw lost tt
          ])
