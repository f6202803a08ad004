-- ===== src/Prelude/Distinct.antt =====
-- Lists of strings without repetition.
use mathlib.Core.Path.{◌≡◌, refl, ◌∙◌}
use mathlib.Core.Bool.{Bool-set, Bool, true, false}
use mathlib.Core.List.{List, [], ◌∷◌, ◌++◌, Perm, Permᴰ, map}
use mathlib.Core.Logic.{∥∥₁_elim, inl, inr}
use mathlib.Core.HLevel.{Unit-prop, ×_prop}
use Prim.Native.String.{String}
use native.Mathlib.Omega.{arith}
use text.Mathlib.TextEquality.{eq_iff}
use library_olm.Prelude.Lists.{keep}
use library_olm.Prelude.Tests.{Bool-cases, if◌then◌else◌}
use library_olm.Prelude.Text.{insert, contains, contains-append, IsDistinct}

pub IsDistinct-append :
    (xs : List String) (a : String)
    → IsDistinct xs
    → contains xs a ≡ false
    → IsDistinct (xs ++ (a ∷ []))
unfolding contains
IsDistinct-append [] a h k = (refl, tt)
IsDistinct-append (x ∷ xs) a h k = (
  ground (arith, contains-append xs (a ∷ []) x, eq_iff x a, eq_iff a x),
  IsDistinct-append xs a h.1 (ground arith),
)

-- Neither what a list contains nor its being distinct turns on its order.
contains-permᴰ : {xs ys : List String} → Permᴰ xs ys → (a : String) → contains xs a ≡ contains ys a
unfolding contains
contains-permᴰ Permᴰ.nil a = refl
contains-permᴰ (Permᴰ.cons e d) a = ground (arith, contains-permᴰ d a)
contains-permᴰ (Permᴰ.swap e f) a = ground arith
contains-permᴰ (Permᴰ.trans d e) a = contains-permᴰ d a ∙ contains-permᴰ e a

pub contains-perm :
    {xs ys : List String} → Perm xs ys → (a : String) → contains xs a ≡ contains ys a
contains-perm {xs} {ys} s a =
    ∥∥₁_elim s (Bool-set (contains xs a) (contains ys a)) (λ d. contains-permᴰ d a)

pub IsDistinct-insert : (xs : List String) (a : String) → IsDistinct xs → IsDistinct (insert xs a)
unfolding insert
IsDistinct-insert xs a h = elim (Bool-cases (contains xs a)) [
  | inl old ↦ rw old h
  | inr new ↦ rw new (IsDistinct-append xs a h new)
]

IsDistinct-permᴰ : {xs ys : List String} → Permᴰ xs ys → IsDistinct xs → IsDistinct ys
IsDistinct-permᴰ Permᴰ.nil h = tt
IsDistinct-permᴰ (Permᴰ.cons {a} {b} {l₁} e d) h =
    (rw (← e, ← contains-permᴰ d a) h.0, IsDistinct-permᴰ d h.1)
IsDistinct-permᴰ (Permᴰ.swap {a} {b} {l} e f) h =
    rw (← e, ← f) (unfold contains in ground (arith, eq_iff a b, eq_iff b a))
IsDistinct-permᴰ (Permᴰ.trans d e) h = IsDistinct-permᴰ e (IsDistinct-permᴰ d h)

IsDistinct-prop : (xs : List String) → IsProp (IsDistinct xs)
IsDistinct-prop [] = Unit-prop
IsDistinct-prop (x ∷ xs) = ×_prop (Bool-set (contains xs x) false) (IsDistinct-prop xs)

pub IsDistinct-perm : {xs ys : List String} → Perm xs ys → IsDistinct xs → IsDistinct ys
IsDistinct-perm {ys} s h = ∥∥₁_elim s (IsDistinct-prop ys) (λ d. IsDistinct-permᴰ d h)

-- A part of a list has no key twice where the list has none.
module _ {ℓ} {A : Type ℓ} (key : A → String) (p : A → Bool) where
  contains-keep :
      (xs : List A) (a : String)
      → contains (map key xs) a ≡ false
      → contains (map key (keep p xs)) a ≡ false
  unfolding contains keep
  contains-keep [] a h = refl
  contains-keep (x ∷ xs) a h = ground (arith, contains-keep xs a)

  pub IsDistinct-keep : (xs : List A) → IsDistinct (map key xs) → IsDistinct (map key (keep p xs))
  unfolding keep
  IsDistinct-keep [] h = tt
  IsDistinct-keep (x ∷ xs) h = split (p x) (IsDistinct-keep xs h.1) (contains-keep xs (key x) h.0)
    where
      split :
          (b : Bool)
          → IsDistinct (map key (keep p xs))
          → contains (map key (keep p xs)) (key x) ≡ false
          → IsDistinct (map key (if b then x ∷ keep p xs else keep p xs))
      split true d k = (k, d)
      split false d k = d
