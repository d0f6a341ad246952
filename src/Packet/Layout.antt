-- ===== src/Packet/Layout.antt =====
-- src/packet.rs: `TsPacketLayout` and `detect_packet_layout`.
use oxideav_mpegts.Base.{
  ℕ, zero, suc, ◌+◌, ◌*◌, ◌/◌, ◌≤◌, ◌<◌, min, ◌≡◌, ◌⊎◌, Bool, true, false, Option, none, some, List,
  [], ◌∷◌, ltb, ◌==◌, if◌then◌else◌, length, Outcome, ◌>>=◌, index, slice, byte_at, ok,
}
use oxideav_mpegts.Packet.Header.{ts_packet_len, ts_sync_byte}

pub record TsPacketLayout : Type 0 where
  pub packet_size : ℕ
  pub sync_offset : ℕ

abbrev pub standard : TsPacketLayout
standard = record { packet_size = 188; sync_offset = 0 }

abbrev pub prefixed_192 : TsPacketLayout
prefixed_192 = record { packet_size = 192; sync_offset = 4 }

abbrev pub trailer_204 : TsPacketLayout
trailer_204 = record { packet_size = 204; sync_offset = 0 }

unfoldable pub window : TsPacketLayout → List ℕ → Outcome (List ℕ)
window l chunk = slice chunk l.sync_offset (l.sync_offset + ts_packet_len)

-- `(k..k + left).all(|k| buf[k * packet_size + sync_offset] == TS_SYNC_BYTE)`.
unfoldable pub all_synced : TsPacketLayout → List ℕ → ℕ → ℕ → Outcome Bool
all_synced l buf k zero = ok true
all_synced l buf k (suc left) = do
  b ← index buf (k * l.packet_size + l.sync_offset)
  let more = all_synced l buf (k + 1) left
  if b == ts_sync_byte then more else ok false

abbrev pub max_check : ℕ
max_check = 8

-- The packets that are looked at.
abbrev pub checked : TsPacketLayout → List ℕ → ℕ
checked l buf = min (length buf / l.packet_size) max_check

unfoldable pub detect_among : List TsPacketLayout → List ℕ → Outcome (Option TsPacketLayout)
unfolding all_synced
detect_among [] buf = ok none
detect_among (l ∷ ls) buf =
    let others = detect_among ls buf in
    if ltb (checked l buf) 2
    then others
    else (do hit ← all_synced l buf 0 (checked l buf); if hit then ok (some l) else others)

unfoldable pub detect_packet_layout : List ℕ → Outcome (Option TsPacketLayout)
unfolding detect_among
detect_packet_layout = detect_among (standard ∷ prefixed_192 ∷ trailer_204 ∷ [])

-- A sync byte stands in each of the packets `k`, …, `k + left - 1`.
abbrev pub SyncedFrom : TsPacketLayout → List ℕ → ℕ → ℕ → Type 0
SyncedFrom l buf k zero = Unit {0}
SyncedFrom l buf k (suc left) =
    (byte_at buf (k * l.packet_size + l.sync_offset) ≡ ts_sync_byte) × SyncedFrom l buf (k + 1) left

-- The layout's grid: two whole packets at least, and a sync byte in each of the first eight.
abbrev pub OnGrid : TsPacketLayout → List ℕ → Type 0
OnGrid l buf = (2 ≤ checked l buf) × SyncedFrom l buf 0 (checked l buf)

-- The first layout of the list whose grid the buffer is on.
abbrev pub FirstOnGrid : List TsPacketLayout → List ℕ → Option TsPacketLayout → Type 0
FirstOnGrid [] buf r = r ≡ none
FirstOnGrid (l ∷ ls) buf r = (OnGrid l buf × (r ≡ some l)) ⊎ (¬ OnGrid l buf × FirstOnGrid ls buf r)

abbrev IsLayout : TsPacketLayout → Type 0
IsLayout l = l.sync_offset < l.packet_size
