-- ===== src/Pes/Reassembler.antt =====
-- src/pes.rs: `PesReassembler`. `feed` and `flush` return the next state beside their result, which
-- they leave as it was before the `?` of an error.
pub mod Units
use oxideav_mpegts.Base.{
  ℕ, zero, suc, ◌+◌, ◌-◌, ◌*◌, ◌/◌, ◌%◌, ◌^◌, ◌≤◌, ◌<◌, min, max, String, ◌≡◌, refl, sym, ap, subst,
  ◌∙◌, ◌≢◌, ◌↔◌, ◌⊎◌, inl, inr, Bool, true, false, not, ◌&&◌, ◌||◌, Option, none, some, List, [],
  ◌∷◌, ◌++◌, map, append_assoc, append-nil, arith, ltb, leb, ◌==◌, if◌then◌else◌, ltb→lt, lt→ltb,
  leb→le, le→leb, lt→leb_false, le→ltb_false, ==_iff, Bool-cases, Option-cases, is_some, is_none,
  length, get_elem?, get_or, take, drop, replicate, All, length-append, length-take, length-drop,
  length-replicate, take-append-drop, take-append_length, drop-append_length, take_all,
  get_elem?-get_or, All-append, All-take, All-drop, All-get_or, All-replicate, IsByte, IsBytes,
  ◌>>>◌, ◌<<<◌, low_bits, flag, bit_of, be16, be32, Within, byte_at-IsByte, TsError, Outcome, ◌>>=◌,
  ◌>>◌, fail_if, index, slice, sub_usize, checked_add, Ensures, Ensures-bind, Ensures-weaken,
  Ensures-ok, Ensures-ne_panic, byte_at, index-ok, slice-ok, sub_usize-ok, truncated_from,
  truncated_from-err, add_or_truncated, add_or_truncated-ok, ok-injective, >>=-eq_ok, >>-eq_ok,
  fail_if-eq_ok, slice_front, slice_back, add_or_overrun, add_or_overrun-ok, take_counted,
  truncated, bad_sync_byte, section_length_overrun, psi_crc_mismatch, bad_pes_start_code,
  unsupported, invalid_field, ok, err, panic,
}
use oxideav_mpegts.Packet.Field.{AdaptationField}
use oxideav_mpegts.Packet.Header.{TsPacket}
use oxideav_mpegts.Pes.Header.{PesPacket, parse_pes}

pub record PesReassembler : Type 0 where
  pub buf : List ℕ
  pub started : Bool
  pub current_rai : Bool
  pub pending_rai : Bool

unfoldable pub new_reassembler : PesReassembler
new_reassembler = record { buf = []; started = false; current_rai = false; pending_rai = false }

unfoldable pub has_rai : Option AdaptationField → Bool
has_rai none = false
has_rai (some af) = af.random_access_indicator

-- `PesPacket::parse(&buf)?` with `pes.random_access = rai`.
unfoldable pub parse_announced : Bool → List ℕ → Outcome PesPacket
parse_announced rai buf = do pes ← parse_pes buf; ok (record pes { random_access = rai })

-- The packet in `buf`, if there is one.
unfoldable pub parse_started : PesReassembler → Outcome (Option PesPacket)
unfolding parse_announced
parse_started r =
    if r.started then (do pes ← parse_announced r.current_rai r.buf; ok (some pes)) else ok none

-- The next state of an operation, which an error leaves at `kept`.
abbrev pub step {ℓ} : {A : Type ℓ} {S : Type 0} → S → S → Outcome A → S × Outcome A
step kept next (ok a) = (next, ok a)
step kept next (err e) = (kept, err e)
step kept next panic = (kept, panic)

unfoldable pub feed : PesReassembler → TsPacket → PesReassembler × Outcome (Option PesPacket)
unfolding has_rai parse_started
feed r ts =
    let rai = has_rai ts.adaptation_field in
    if ts.payload_unit_start
    then step r
        (record {
          buf = ts.payload;
          started = true;
          current_rai = r.pending_rai || rai;
          pending_rai = false;
        })
        (parse_started r)
    else (
      record r {
        buf = if r.started then r.buf ++ ts.payload else r.buf;
        pending_rai = if rai then true else r.pending_rai;
      },
      ok none,
    )

-- The buffer is taken before the packet is parsed.
unfoldable pub flush : PesReassembler → PesReassembler × Outcome (Option PesPacket)
unfolding parse_started
flush r =
    if r.started
    then step (record r { buf = []; started = false })
        (record r { buf = []; started = false; current_rai = false }) (parse_started r)
    else (r, ok none)

-- A stream of packets fed in order up to the first error, and a flush at its end: the PES packets in
-- the order in which they come out.
abbrev pub emitted : Option PesPacket → List PesPacket → List PesPacket
emitted none rest = rest
emitted (some pes) rest = pes ∷ rest

unfoldable pub reassemble : PesReassembler → List TsPacket → Outcome (List PesPacket)
unfolding feed flush
reassemble r [] = do out ← (flush r).1; ok (emitted out [])
reassemble r (ts ∷ rest) = do
  out ← (feed r ts).1
  others ← reassemble (feed r ts).0 rest
  ok (emitted out others)
