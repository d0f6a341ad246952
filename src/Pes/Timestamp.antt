-- ===== src/Pes/Timestamp.antt =====
-- src/pes.rs: the 33-bit timestamps (PTS, DTS) and the 42-bit ESCR, read and written.
use oxideav_mpegts.Base.{
  ℕ, ◌+◌, ◌*◌, ◌/◌, ◌%◌, ◌^◌, ◌<◌, ◌≡◌, refl, ap, List, [], ◌∷◌, ◌++◌, arith, ltb, le→ltb_false,
  length, IsBytes, ◌>>>◌, ◌<<<◌, low_bits, Outcome, ◌>>=◌, ◌>>◌, fail_if, index, truncated, ok,
}

unfoldable pub decode_timestamp : List ℕ → Outcome ℕ
decode_timestamp b = do
  fail_if (ltb (length b) 5) (truncated "PTS/DTS" (length b) 5)
  b0 ← index b 0
  b1 ← index b 1
  b2 ← index b 2
  b3 ← index b 3
  b4 ← index b 4
  let t32_30 = low_bits (b0 >>> 1) 3
  let t29_22 = b1
  let t21_15 = low_bits (b2 >>> 1) 7
  let t14_7 = b3
  let t6_0 = low_bits (b4 >>> 1) 7
  ok (t32_30 <<< 30 + t29_22 <<< 22 + t21_15 <<< 15 + t14_7 <<< 7 + t6_0)

unfoldable pub encode_ts33 : ℕ → ℕ → List ℕ
encode_ts33 prefix ts =
    let t = low_bits ts 33 in
    (low_bits (prefix <<< 4) 8 + low_bits (t >>> 30) 3 <<< 1 + 1)
    ∷ low_bits (t >>> 22) 8
    ∷ (low_bits (t >>> 15) 7 <<< 1 + 1)
    ∷ low_bits (t >>> 7) 8
    ∷ (low_bits t 7 <<< 1 + 1)
    ∷ []

unfoldable pub decode_escr : List ℕ → Outcome ℕ
decode_escr b = do
  fail_if (ltb (length b) 6) (truncated "ESCR" (length b) 6)
  b0 ← index b 0
  b1 ← index b 1
  b2 ← index b 2
  b3 ← index b 3
  b4 ← index b 4
  b5 ← index b 5
  let base_32_30 = low_bits (b0 >>> 3) 3
  let base_29_15 = low_bits b0 2 <<< 13 + b1 <<< 5 + low_bits (b2 >>> 3) 5
  let base_14_0 = low_bits b2 2 <<< 13 + b3 <<< 5 + low_bits (b4 >>> 3) 5
  let escr_ext = low_bits b4 2 <<< 7 + low_bits (b5 >>> 1) 7
  let base = base_32_30 <<< 30 + base_29_15 <<< 15 + base_14_0
  ok (base * 300 + escr_ext)

unfoldable pub encode_escr : ℕ → List ℕ
encode_escr escr_27mhz =
    let base = escr_27mhz / 300 in
    let ext = escr_27mhz % 300 in
    (192 + low_bits (base >>> 30) 3 <<< 3 + 4 + low_bits (base >>> 28) 2)
    ∷ low_bits (base >>> 20) 8
    ∷ (low_bits (base >>> 15) 5 <<< 3 + 4 + low_bits (base >>> 13) 2)
    ∷ low_bits (base >>> 5) 8
    ∷ (low_bits base 5 <<< 3 + 4 + low_bits (ext >>> 7) 2)
    ∷ (low_bits ext 7 <<< 1 + 1)
    ∷ []

-- A written timestamp is five bytes, which, whatever comes behind them and whatever the 4-bit
-- prefix, read back as the low 33 bits of the time.
pub decode_timestamp-encode_ts33 :
    (prefix ts : ℕ) (rest : List ℕ)
    → prefix < 16
    → (length (encode_ts33 prefix ts) ≡ 5)
      × IsBytes (encode_ts33 prefix ts)
      × (decode_timestamp (encode_ts33 prefix ts ++ rest) ≡ ok (ts % 2 ^ 33))
unfolding decode_timestamp encode_ts33 index
decode_timestamp-encode_ts33 prefix ts rest h = (
  refl,
  (omega arith, (omega arith, (omega arith, (omega arith, (omega arith, tt))))),
  rw (le→ltb_false (length (encode_ts33 prefix ts ++ rest)) 5 (omega arith)) (ap ok (omega arith)),
)

-- A written ESCR is six bytes, which, whatever comes behind them, read back as the value, for every
-- value whose base fits 33 bits.
pub decode_escr-encode_escr :
    (escr : ℕ) (rest : List ℕ)
    → escr < 2 ^ 33 * 300
    → (length (encode_escr escr) ≡ 6)
      × IsBytes (encode_escr escr)
      × (decode_escr (encode_escr escr ++ rest) ≡ ok escr)
unfolding decode_escr encode_escr index
decode_escr-encode_escr escr rest h = (
  refl,
  (omega arith, (omega arith, (omega arith, (omega arith, (omega arith, (omega arith, tt)))))),
  rw (le→ltb_false (length (encode_escr escr ++ rest)) 6 (omega arith)) (ap ok (omega arith)),
)
