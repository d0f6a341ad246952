-- ===== src/Base/View.antt =====
-- A cursor into a byte slice, seen as the bytes that are still to come.
use Prim.Native.Nat.{ℕ, zero, suc, ◌+◌, ◌-◌, ◌≤◌}
use mathlib.Core.Path.{◌≡◌, refl, ap, sym, ◌∙◌}
use mathlib.Core.List.{List, [], ◌∷◌, ◌++◌}
use native.Mathlib.Omega.{arith}
use oxideav_mpegts.Base.Lists.{
  length, drop, take, get_elem?, length-append, drop-append_length, take-append_length, length-drop,
}
use oxideav_mpegts.Base.Fallible.{ok, index, slice, slice-ok}

-- `xs` is what `raw` holds from the cursor on.
pub record At (raw : List ℕ) (cursor : ℕ) (xs : List ℕ) : Type 0 where
  pub rest_eq : drop cursor raw ≡ xs
  pub inside : cursor ≤ length raw

pub At-length :
    (raw : List ℕ) (cursor : ℕ) (xs : List ℕ) → At raw cursor xs → length raw ≡ cursor + length xs
At-length raw cursor xs v = omega (arith, ap length v.rest_eq, length-drop cursor raw, v.inside)

get_elem?-drop {ℓ} :
    {A : Type ℓ} (n k : ℕ) (xs : List A) → get_elem? (drop n xs) k ≡ get_elem? xs (n + k)
get_elem?-drop zero k xs = ap (get_elem? xs) (omega arith)
get_elem?-drop (suc n) k [] = refl
get_elem?-drop (suc n) k (x ∷ xs) =
    get_elem?-drop n k xs ∙ sym (ap (get_elem? (x ∷ xs)) (simp_suc n k))
  where
    simp_suc : (n k : ℕ) → suc n + k ≡ suc (n + k)
    simp_suc n k = omega arith

drop-nil {ℓ} : {A : Type ℓ} (n : ℕ) → drop {A = A} n [] ≡ []
drop-nil zero = refl
drop-nil (suc n) = refl

drop-drop {ℓ} : {A : Type ℓ} (n k : ℕ) (xs : List A) → drop k (drop n xs) ≡ drop (n + k) xs
drop-drop zero k xs = ap (λ m. drop m xs) (omega arith)
drop-drop (suc n) k [] = drop-nil k ∙ sym (drop-nil (suc n + k))
drop-drop (suc n) k (x ∷ xs) = drop-drop n k xs ∙ sym (ap (λ m. drop m (x ∷ xs)) (simp_suc n k))
  where
    simp_suc : (n k : ℕ) → suc n + k ≡ suc (n + k)
    simp_suc n k = omega arith

module _ (raw : List ℕ) (cursor : ℕ) where
  pub index-At : (k : ℕ) (xs : List ℕ) → At raw cursor xs → index raw (cursor + k) ≡ index xs k
  unfolding index
  index-At k xs v = rw (← get_elem?-drop cursor k raw, v.rest_eq, index)

  pub index-At_zero : (xs : List ℕ) → At raw cursor xs → index raw cursor ≡ index xs 0
  index-At_zero xs v = ap (index raw) (omega arith) ∙ index-At 0 xs v

  -- The cursor moves over what was read.
  pub At-append : (ys zs : List ℕ) → At raw cursor (ys ++ zs) → At raw (cursor + length ys) zs
  At-append ys zs v = record {
    rest_eq =
        sym (drop-drop cursor (length ys) raw)
        ∙ ap (drop (length ys)) v.rest_eq
        ∙ drop-append_length (length ys) ys zs refl;
    inside = omega (arith, At-length raw cursor (ys ++ zs) v, length-append ys zs);
  }

  pub At-cons : (y : ℕ) (zs : List ℕ) → At raw cursor (y ∷ zs) → At raw (cursor + 1) zs
  At-cons y zs v = At-append (y ∷ []) zs v

  pub slice-At :
      (ys zs : List ℕ) → At raw cursor (ys ++ zs) → slice raw cursor (cursor + length ys) ≡ ok ys
  slice-At ys zs v =
      slice-ok raw cursor (cursor + length ys) (omega arith)
        (omega (arith, At-length raw cursor (ys ++ zs) v, length-append ys zs))
      ∙ ap ok (
          ap (take (cursor + length ys - cursor)) v.rest_eq
          ∙ take-append_length (cursor + length ys - cursor) ys zs (omega arith))
