-- ===== src/Packet/Stream.antt =====
-- src/packet.rs: `TsPacketIter` and `iter_packets`.
use oxideav_mpegts.Base.{
  ℕ, zero, suc, ◌+◌, ◌<◌, ◌≡◌, refl, sym, ap, ◌∙◌, ◌⊎◌, inl, inr, Bool, true, false, ◌||◌, Option,
  none, some, List, [], ◌∷◌, ◌++◌, map, append_assoc, append-nil, arith, ltb, if◌then◌else◌, lt→ltb,
  le→ltb_false, length, take, drop, All, length-append, take-append_length, drop-append_length,
  TsError, Outcome, ok, err, panic,
}
use native.Mathlib.Nat.{zero-add, suc-add}
use oxideav_mpegts.Packet.Header.{TsPacket, parse}

pub record TsPacketIter : Type 0 where
  pub rest : List ℕ
  pub halted : Bool

unfoldable pub iter_packets : List ℕ → TsPacketIter
iter_packets bytes = record { rest = bytes; halted = false }

-- What `next` does with the result of `parse`.
unfoldable pub settle :
    TsPacketIter → List ℕ → Outcome TsPacket → Option (Outcome TsPacket) × TsPacketIter
settle it tail (ok p) = (some (ok p), record it { rest = tail })
settle it tail (err e) = (some (err e), record { rest = tail; halted = true })
settle it tail panic = (some panic, it)

-- One item of the iterator. After a packet that does not parse it is halted.
unfoldable pub next : TsPacketIter → Option (Outcome TsPacket) × TsPacketIter
unfolding settle
next it =
    if it.halted || ltb (length it.rest) 188
    then (none, it)
    else settle it (drop 188 it.rest) (parse (take 188 it.rest))

-- An item, and what the loop does next.
abbrev gather :
    (TsPacketIter → List (Outcome TsPacket) × TsPacketIter)
    → Option (Outcome TsPacket) × TsPacketIter
    → List (Outcome TsPacket) × TsPacketIter
gather go_on (none, it) = ([], it)
gather go_on (some x, it) = let (items, last) = go_on it in (x ∷ items, last)

-- The items that a `for` loop with `fuel` rounds sees, and the iterator that it leaves.
unfoldable pub collect : ℕ → TsPacketIter → List (Outcome TsPacket) × TsPacketIter
collect zero it = ([], it)
collect (suc fuel) it = gather (collect fuel) (next it)

abbrev pub IsFrame : List ℕ → Type 0
IsFrame f = (length f ≡ 188) × ((p : TsPacket) × (parse f ≡ ok p))

-- Frames laid end to end.
abbrev pub concat : List (List ℕ) → List ℕ
concat [] = []
concat (f ∷ fs) = f ++ concat fs

next_frame :
    (f rest : List ℕ) (p : TsPacket)
    → length f ≡ 188
    → parse f ≡ ok p
    → next (record { rest = f ++ rest; halted = false })
      ≡ (some (ok p), record { rest = rest; halted = false })
unfolding next
next_frame f rest p l e = rw (
  le→ltb_false (length (f ++ rest)) 188 (omega (arith, length-append f rest)),
  take-append_length 188 f rest l,
  drop-append_length 188 f rest l,
  e,
)

next_bad :
    (f rest : List ℕ) (x : TsError)
    → length f ≡ 188
    → parse f ≡ err x
    → next (record { rest = f ++ rest; halted = false })
      ≡ (some (err x), record { rest = rest; halted = true })
unfolding next
next_bad f rest x l e = rw (
  le→ltb_false (length (f ++ rest)) 188 (omega (arith, length-append f rest)),
  take-append_length 188 f rest l,
  drop-append_length 188 f rest l,
  e,
)

next_end :
    (rest : List ℕ) (h : Bool)
    → (h ≡ true) ⊎ (length rest < 188)
    → next (record { rest = rest; halted = h }) ≡ (none, record { rest = rest; halted = h })
unfolding next
next_end rest h (inl e) = rw e
next_end rest false (inr l) = rw (lt→ltb (length rest) 188 l)
next_end rest true (inr l) = refl

-- The items that frames give, in their order.
collect_end :
    (fuel : ℕ) (rest : List ℕ) (h : Bool)
    → 0 < fuel
    → (h ≡ true) ⊎ (length rest < 188)
    → collect fuel (record { rest = rest; halted = h }) ≡ ([], record { rest = rest; halted = h })
unfolding collect
collect_end zero rest h pos e = elim pos [ ]
collect_end (suc fuel) rest h pos e = rw (next_end rest h e)

collect_frames :
    (fs : List (List ℕ)) (rest : List ℕ) (fuel : ℕ) (tail : List (Outcome TsPacket))
    (last : TsPacketIter)
    → All IsFrame fs
    → collect fuel (record { rest = rest; halted = false }) ≡ (tail, last)
    → collect (length fs + fuel) (record { rest = concat fs ++ rest; halted = false })
      ≡ (map parse fs ++ tail, last)
unfolding collect
collect_frames [] rest fuel tail last h e = rw zero-add e
collect_frames (f ∷ fs) rest fuel tail last ((l, (p, ok_f)), h) e =
    rw
      (
        suc-add,
        append_assoc f (concat fs) rest,
        next_frame f (concat fs ++ rest) p l ok_f,
        collect_frames fs rest fuel tail last h e,
      )
      (ap (λ x. (x ∷ (map parse fs ++ tail), last)) (sym ok_f))

-- Over frames of 188 bytes that all parse, and at most 187 bytes behind them, the iterator yields the parsed
-- frames in order and stops with the bytes left over.
pub collect-frames :
    (fs : List (List ℕ)) (rest : List ℕ)
    → All IsFrame fs
    → length rest < 188
    → collect (length fs + 1) (iter_packets (concat fs ++ rest))
      ≡ (map parse fs, record { rest = rest; halted = false })
unfolding iter_packets
collect-frames fs rest h l =
    collect_frames fs rest 1 [] _ h (collect_end 1 rest false (omega arith) (inr l))
    ∙ ap (λ x. (x, record { rest = rest; halted = false })) (append-nil (map parse fs))

-- Behind frames that all parse, a frame of 188 bytes on which `parse` returns an error is the last
-- item of the iterator, whatever follows it, and leaves it halted.
pub collect-bad_frame :
    (fs : List (List ℕ)) (bad rest : List ℕ) (x : TsError) (fuel : ℕ)
    → All IsFrame fs
    → length bad ≡ 188
    → parse bad ≡ err x
    → collect (length fs + suc (suc fuel)) (iter_packets (concat fs ++ (bad ++ rest)))
      ≡ (map parse fs ++ err x ∷ [], record { rest = rest; halted = true })
unfolding iter_packets collect
collect-bad_frame fs bad rest x fuel h l e =
    collect_frames fs (bad ++ rest) (suc (suc fuel)) _ _ h
      (rw (next_bad bad rest x l e, next_end rest true (inl refl)))
