-- ===== src/Base/Fallible.antt =====
-- What a fallible function of the crate does: it returns `Ok`, it returns an `Err` of src/error.rs,
-- or it panics (an index or a slice out of range, an underflow of `usize`).
use Prim.Native.Nat.{ℕ, ◌+◌, ◌-◌, ◌≤◌, ◌<◌, ◌^◌}
use Prim.Native.String.{String}
use mathlib.Core.Path.{◌≡◌, refl, subst, ap, ◌∙◌}
use mathlib.Core.Logic.{◌≢◌}
use mathlib.Core.Bool.{Bool, true, false, ◌&&◌}
use mathlib.Core.Option.{Option, none, some}
use mathlib.Core.List.{List}
use native.Mathlib.Omega.{arith}
use oxideav_mpegts.Base.Tests.{ltb, leb, lt→ltb, if◌then◌else◌}
use oxideav_mpegts.Base.Lists.{
  length, get_elem?, get_or, take, drop, get_elem?-get_or, take_all, length-drop,
}

-- `TsError`. The texts of `what` are those of the source.
pub data TsError : Type 0 where
  truncated : (what : String) (have need : ℕ) → TsError
  bad_sync_byte : ℕ → TsError
  section_length_overrun : (claimed have : ℕ) → TsError
  psi_crc_mismatch : (header computed : ℕ) → TsError
  bad_pes_start_code : ℕ → ℕ → ℕ → TsError
  unsupported : String → TsError
  invalid_field : (what : String) → TsError

pub data Outcome {ℓ} (A : Type ℓ) : Type ℓ where
  ok : A → Outcome A
  err : TsError → Outcome A
  panic : Outcome A

infixl 5 ◌>>=◌ ◌>>◌
abbrev pub ◌>>=◌ {ℓ κ} : {A : Type ℓ} {B : Type κ} → Outcome A → (A → Outcome B) → Outcome B
ok a >>= f = f a
err e >>= f = err e
panic >>= f = panic

abbrev pub ◌>>◌ {ℓ} : {B : Type ℓ} → Outcome (Unit {0}) → Outcome B → Outcome B
m >> k = m >>= λ _. k

-- `if test { return Err(e) }`.
abbrev pub fail_if : Bool → TsError → Outcome (Unit {0})
fail_if true e = err e
fail_if false e = ok tt

-- `bytes[i]`.
unfoldable pub index : List ℕ → ℕ → Outcome ℕ
index bs i = elim (get_elem? bs i) [ none ↦ panic | some b ↦ ok b ]

-- `&bytes[from..to]`.
unfoldable pub slice : List ℕ → ℕ → ℕ → Outcome (List ℕ)
slice bs from to =
    if leb from to && leb to (length bs) then ok (take (to - from) (drop from bs)) else panic

-- `a - b` on `usize`, which panics below zero.
unfoldable pub sub_usize : ℕ → ℕ → Outcome ℕ
sub_usize a b = if leb b a then ok (a - b) else panic

-- `a.checked_add(b)` on a 64-bit `usize`.
unfoldable pub checked_add : ℕ → ℕ → Option ℕ
checked_add a b = if ltb (a + b) (2 ^ 64) then some (a + b) else none

-- The result, if there is one, has the property, and there is no panic.
abbrev pub Ensures {ℓ} : {A : Type ℓ} → (A → Type 0) → Outcome A → Type 0
Ensures P (ok a) = P a
Ensures P (err e) = Unit {0}
Ensures P panic = ⊥

module _ {ℓ} {A : Type ℓ} where
  pub Ensures-bind {κ} :
      {B : Type κ} (P : A → Type 0) (Q : B → Type 0) (m : Outcome A) (f : A → Outcome B)
      → Ensures P m
      → ((a : A) → P a → Ensures Q (f a))
      → Ensures Q (m >>= f)
  Ensures-bind P Q (ok a) f h k = k a h
  Ensures-bind P Q (err e) f h k = tt
  Ensures-bind P Q panic f h k = h

  pub Ensures-weaken :
      (P Q : A → Type 0) (m : Outcome A) → ((a : A) → P a → Q a) → Ensures P m → Ensures Q m
  Ensures-weaken P Q (ok a) k h = k a h
  Ensures-weaken P Q (err e) k h = tt
  Ensures-weaken P Q panic k h = h

  pub Ensures-ok : (P : A → Type 0) (m : Outcome A) (a : A) → Ensures P m → m ≡ ok a → P a
  Ensures-ok P (ok b) a h e = subst P (cc) h
  Ensures-ok P (err x) a h e = cc
  Ensures-ok P panic a h e = absurd h

  pub Ensures-ne_panic : (P : A → Type 0) (m : Outcome A) → Ensures P m → m ≢ panic
  Ensures-ne_panic P (ok a) h e = cc
  Ensures-ne_panic P (err x) h e = cc
  Ensures-ne_panic P panic h e = h

-- A byte of a slice, 0 out of range: what `index` returns in range.
abbrev pub byte_at : List ℕ → ℕ → ℕ
byte_at bs i = get_or bs i 0

pub index-ok : (bs : List ℕ) (i : ℕ) → i < length bs → index bs i ≡ ok (byte_at bs i)
unfolding index
index-ok bs i h = rw (get_elem?-get_or bs i 0 h, index)

pub slice-ok :
    (bs : List ℕ) (from to : ℕ)
    → from ≤ to
    → to ≤ length bs
    → slice bs from to ≡ ok (take (to - from) (drop from bs))
unfolding slice
slice-ok bs from to h k = ground arith

pub sub_usize-ok : (a b : ℕ) → b ≤ a → sub_usize a b ≡ ok (a - b)
unfolding sub_usize
sub_usize-ok a b h = ground arith

-- A `Truncated` error whose `have` is `end - cursor`.
unfoldable pub truncated_from {ℓ} : {A : Type ℓ} → String → ℕ → ℕ → ℕ → Outcome A
truncated_from what end cursor need = do have ← sub_usize end cursor; err (truncated what have need)

pub truncated_from-err {ℓ} :
    {A : Type ℓ} (what : String) (end cursor need : ℕ)
    → cursor ≤ end
    → truncated_from {A = A} what end cursor need ≡ err (truncated what (end - cursor) need)
unfolding truncated_from
truncated_from-err what end cursor need h = rw (sub_usize-ok end cursor h)

-- `cursor.checked_add(n).ok_or(Truncated { have: end - cursor, need: n })?`. The argument of
-- `ok_or` is computed whether or not it is needed.
unfoldable pub add_or_truncated : String → ℕ → ℕ → ℕ → Outcome ℕ
add_or_truncated what end cursor n = do
  have ← sub_usize end cursor
  elim (checked_add cursor n) [ none ↦ err (truncated what have n) | some sum ↦ ok sum ]

pub add_or_truncated-ok :
    (what : String) (end cursor n : ℕ)
    → cursor ≤ end
    → cursor + n < 2 ^ 64
    → add_or_truncated what end cursor n ≡ ok (cursor + n)
unfolding add_or_truncated checked_add
add_or_truncated-ok what end cursor n h k = rw (sub_usize-ok end cursor h, lt→ltb _ _ k)

-- The value that is returned.
pub ok-injective {ℓ} : {A : Type ℓ} {a b : A} → ok a ≡ ok b → a ≡ b
ok-injective h = cc h

-- Inversion of a chain that returned.
pub >>=-eq_ok {ℓ κ} :
    {A : Type ℓ} {B : Type κ} (m : Outcome A) (f : A → Outcome B) {b : B}
    → (m >>= f) ≡ ok b
    → (a : A) × (m ≡ ok a) × (f a ≡ ok b)
>>=-eq_ok (ok a) f h = (a, refl, h)
>>=-eq_ok (err e) f h = cc
>>=-eq_ok panic f h = cc

pub >>-eq_ok {ℓ} :
    {B : Type ℓ} (m : Outcome (Unit {0})) (k : Outcome B) {b : B}
    → (m >> k) ≡ ok b
    → (m ≡ ok tt) × (k ≡ ok b)
>>-eq_ok (ok tt) k h = (refl, h)
>>-eq_ok (err e) k h = cc
>>-eq_ok panic k h = cc

pub fail_if-eq_ok : (b : Bool) (e : TsError) → fail_if b e ≡ ok tt → b ≡ false
fail_if-eq_ok true e h = cc
fail_if-eq_ok false e h = refl

-- `&bytes[..n]` and `&bytes[n..]`.
pub slice_front : (bs : List ℕ) (n : ℕ) → n ≤ length bs → slice bs 0 n ≡ ok (take n bs)
slice_front bs n h = slice-ok bs 0 n (omega arith) h ∙ ap (λ k. ok (take k bs)) (omega arith)

pub slice_back : (bs : List ℕ) (n : ℕ) → n ≤ length bs → slice bs n (length bs) ≡ ok (drop n bs)
slice_back bs n h =
    slice-ok bs n (length bs) h (omega arith)
    ∙ ap ok (take_all (length bs - n) (drop n bs) (omega (arith, length-drop n bs)))

-- The same with a `SectionLengthOverrun { claimed: n, have: end - cursor }`.
unfoldable pub add_or_overrun : ℕ → ℕ → ℕ → Outcome ℕ
add_or_overrun end cursor n = do
  have ← sub_usize end cursor
  elim (checked_add cursor n) [ none ↦ err (section_length_overrun n have) | some sum ↦ ok sum ]

pub add_or_overrun-ok :
    (end cursor n : ℕ)
    → cursor ≤ end
    → cursor + n < 2 ^ 64
    → add_or_overrun end cursor n ≡ ok (cursor + n)
unfolding add_or_overrun checked_add
add_or_overrun-ok end cursor n h k = rw (sub_usize-ok end cursor h, lt→ltb _ _ k)

-- `&body[cursor..cursor + n]`, with that error when it ends behind the body, and where it ends.
unfoldable pub take_counted : List ℕ → ℕ → ℕ → Outcome (List ℕ × ℕ)
take_counted body cursor n = do
  end ← add_or_overrun (length body) cursor n
  if ltb (length body) end
      then (do have ← sub_usize (length body) cursor; err (section_length_overrun n have))
      else (do part ← slice body cursor end; ok (part, end))
