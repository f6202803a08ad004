-- ===== src/Prelude/Empty.antt =====
-- When a list that a loop collects is empty, as an equation of Booleans.
use mathlib.Core.Path.{◌≡◌, refl}
use mathlib.Core.Bool.{Bool, true, false, ◌&&◌, not}
use mathlib.Core.List.{List, [], ◌∷◌, ◌++◌, map}
use mathlib.Core.Logic.{◌↔◌}
use Prim.Native.String.{String}
use native.Mathlib.Omega.{arith}
use text.Mathlib.TextEquality.{eq_iff}
use Prim.Native.Nat.{Ordering}
use library_olm.Prelude.Lists.{any, all, is_empty, keep}
use library_olm.Prelude.Text.{contains}
use library_olm.Prelude.Sort.{sort_func, sort_func-any}

-- The loop that appends what each element gives.
unfoldable pub flat_map {ℓ κ} : {A : Type ℓ} {B : Type κ} → (A → List B) → List A → List B
flat_map f [] = []
flat_map f (x ∷ xs) = f x ++ flat_map f xs

pub is_empty_iff {ℓ} : {A : Type ℓ} (xs : List A) → (xs ≡ []) ↔ (is_empty xs ≡ true)
is_empty_iff [] = (λ h. refl, λ h. refl)
is_empty_iff (x ∷ xs) = (λ h. cc, λ h. cc)

pub is_empty-append {ℓ} :
    {A : Type ℓ} (xs ys : List A) → is_empty (xs ++ ys) ≡ (is_empty xs && is_empty ys)
is_empty-append [] ys = refl
is_empty-append (x ∷ xs) ys = refl

pub is_empty-map {ℓ κ} :
    {A : Type ℓ} {B : Type κ} (f : A → B) (xs : List A) → is_empty (map f xs) ≡ is_empty xs
is_empty-map f [] = refl
is_empty-map f (x ∷ xs) = refl

pub is_empty-flat_map {ℓ κ} :
    {A : Type ℓ} {B : Type κ} (f : A → List B) (xs : List A)
    → is_empty (flat_map f xs) ≡ all (λ x. is_empty (f x)) xs
unfolding flat_map
is_empty-flat_map f [] = refl
is_empty-flat_map f (x ∷ xs) =
    ground (arith, is_empty-append (f x) (flat_map f xs), is_empty-flat_map f xs)

pub is_empty-keep {ℓ} :
    {A : Type ℓ} (p : A → Bool) (xs : List A) → is_empty (keep p xs) ≡ not (any p xs)
unfolding keep
is_empty-keep p [] = refl
is_empty-keep p (x ∷ xs) = ground (arith, is_empty-keep p xs)

pub not-any {ℓ} :
    {A : Type ℓ} (p : A → Bool) (xs : List A) → not (any p xs) ≡ all (λ x. not (p x)) xs
not-any p [] = refl
not-any p (x ∷ xs) = ground (arith, not-any p xs)

pub any-congr {ℓ} :
    {A : Type ℓ} (p q : A → Bool) (xs : List A) → ((x : A) → p x ≡ q x) → any p xs ≡ any q xs
any-congr p q [] h = refl
any-congr p q (x ∷ xs) h = ground (arith, h x, any-congr p q xs h)

pub all-congr {ℓ} :
    {A : Type ℓ} (p q : A → Bool) (xs : List A) → ((x : A) → p x ≡ q x) → all p xs ≡ all q xs
all-congr p q [] h = refl
all-congr p q (x ∷ xs) h = ground (arith, h x, all-congr p q xs h)

pub is_empty-any {ℓ} : {A : Type ℓ} (xs : List A) → is_empty xs ≡ not (any (λ x. true) xs)
is_empty-any [] = refl
is_empty-any (x ∷ xs) = refl

module _ {ℓ} {A : Type ℓ} (cmp : A → A → Ordering) where
  pub is_empty-sort_func : (xs : List A) → is_empty (sort_func cmp xs) ≡ is_empty xs
  is_empty-sort_func xs =
      ground
        (arith, is_empty-any (sort_func cmp xs), is_empty-any xs, sort_func-any cmp (λ x. true) xs)

  pub sort_func-all : (p : A → Bool) (xs : List A) → all p (sort_func cmp xs) ≡ all p xs
  sort_func-all p xs =
      ground (arith, all_not (sort_func cmp xs), all_not xs, sort_func-any cmp (λ x. not (p x)) xs)
    where
      all_not : (ys : List A) → all p ys ≡ not (any (λ x. not (p x)) ys)
      all_not [] = refl
      all_not (y ∷ ys) = ground (arith, all_not ys)

-- The Boolean form of `IsDistinct`.
abbrev pub distinct : List String → Bool
distinct [] = true
distinct (x ∷ xs) = not (contains xs x) && distinct xs

-- A list is empty when it contains nothing.
pub is_empty-contains :
    (xs : List String) → ((a : String) → contains xs a ≡ false) → is_empty xs ≡ true
unfolding contains
is_empty-contains [] h = refl
is_empty-contains (x ∷ xs) h = ground (arith, h x, eq_iff x x)
