-- ===== src/Prelude/Sort.antt =====
-- `slices.SortFunc`. Its result is fixed up to the order of elements that compare equal; the model
-- is an insertion sort, and the lemmas say only what every such sort has.
use Prim.Native.Nat.{suc, Ordering}
use mathlib.Core.Path.{◌≡◌, refl, ap, ◌∙◌}
use mathlib.Core.Logic.{◌≢◌}
use mathlib.Core.Bool.{Bool, ◌||◌}
use mathlib.Core.List.{List, [], ◌∷◌, Perm}
use mathlib.Core.List.Perm
use native.Mathlib.Omega.{arith}
use library_olm.Prelude.Lists.{All, All-map, any, length}
use library_olm.Prelude.Order.{IsOrder, IsOrder-trans, IsOrder-total}

module _ {ℓ} {A : Type ℓ} (cmp : A → A → Ordering) where
  insert_sorted : A → List A → List A
  insert_sorted x [] = x ∷ []
  insert_sorted x (y ∷ ys) =
      let rest = insert_sorted x ys in elim (cmp x y) [ Ordering.gt ↦ y ∷ rest | _ ↦ x ∷ y ∷ ys ]

  unfoldable pub sort_func : List A → List A
  unfolding insert_sorted
  sort_func [] = []
  sort_func (x ∷ xs) = insert_sorted x (sort_func xs)

  -- Each element is not greater than those behind it.
  abbrev pub IsSorted : List A → Type ℓ
  IsSorted [] = Unit
  IsSorted (x ∷ xs) = All (λ y. cmp x y ≢ Ordering.gt) xs × IsSorted xs

  insert_sorted-perm : (x : A) (ys : List A) → Perm (insert_sorted x ys) (x ∷ ys)
  unfolding insert_sorted
  insert_sorted-perm x [] = Perm.refl (x ∷ [])
  insert_sorted-perm x (y ∷ ys) =
      elim (cmp x y)
        as (λ o.
          Perm (elim o [ Ordering.gt ↦ y ∷ insert_sorted x ys | _ ↦ x ∷ y ∷ ys ]) (x ∷ y ∷ ys)) [
            | Ordering.gt ↦ Perm.trans (Perm.cons y (insert_sorted-perm x ys)) (Perm.swap x y ys)
            | _ ↦ Perm.refl (x ∷ y ∷ ys)
          ]

  pub sort_func-perm : (xs : List A) → Perm (sort_func xs) xs
  unfolding sort_func
  sort_func-perm [] = Perm.refl []
  sort_func-perm (x ∷ xs) =
      Perm.trans (insert_sorted-perm x (sort_func xs)) (Perm.cons x (sort_func-perm xs))

  module _ {κ} (P : A → Type κ) where
    insert_sorted-All : (x : A) (ys : List A) → P x → All P ys → All P (insert_sorted x ys)
    unfolding insert_sorted
    insert_sorted-All x [] h k = (h, tt)
    insert_sorted-All x (y ∷ ys) h k =
        elim (cmp x y)
          as (λ o. All P (elim o [ Ordering.gt ↦ y ∷ insert_sorted x ys | _ ↦ x ∷ y ∷ ys ])) [
            | Ordering.gt ↦ (k.0, insert_sorted-All x ys h k.1)
            | _ ↦ (h, k)
          ]

    pub sort_func-All : (xs : List A) → All P xs → All P (sort_func xs)
    unfolding sort_func
    sort_func-All [] h = tt
    sort_func-All (x ∷ xs) h = insert_sorted-All x (sort_func xs) h.0 (sort_func-All xs h.1)

  module _ (p : A → Bool) where
    insert_sorted-any : (x : A) (ys : List A) → any p (insert_sorted x ys) ≡ (p x || any p ys)
    unfolding insert_sorted
    insert_sorted-any x [] = refl
    insert_sorted-any x (y ∷ ys) = ground (arith, insert_sorted-any x ys)

    pub sort_func-any : (xs : List A) → any p (sort_func xs) ≡ any p xs
    unfolding sort_func
    sort_func-any [] = refl
    sort_func-any (x ∷ xs) = ground (arith, insert_sorted-any x (sort_func xs), sort_func-any xs)

  insert_sorted-length : (x : A) (ys : List A) → length (insert_sorted x ys) ≡ suc (length ys)
  unfolding insert_sorted
  insert_sorted-length x [] = refl
  insert_sorted-length x (y ∷ ys) = ground (arith, insert_sorted-length x ys)

  pub sort_func-length : (xs : List A) → length (sort_func xs) ≡ length xs
  unfolding sort_func
  sort_func-length [] = refl
  sort_func-length (x ∷ xs) = insert_sorted-length x (sort_func xs) ∙ ap suc (sort_func-length xs)

  module _ (o : IsOrder cmp) where
    insert_sorted-IsSorted : (x : A) (ys : List A) → IsSorted ys → IsSorted (insert_sorted x ys)
    unfolding insert_sorted
    insert_sorted-IsSorted x [] h = (tt, tt)
    insert_sorted-IsSorted x (y ∷ ys) h = at (insert_sorted-IsSorted x ys h.1) (cmp x y) refl
      where
        below : cmp x y ≢ Ordering.gt → All (λ z. cmp x z ≢ Ordering.gt) ys
        below e = All-map (λ z k. IsOrder-trans cmp o x y z e k) ys h.0

        at :
            IsSorted (insert_sorted x ys)
            → (r : Ordering) → cmp x y ≡ r
            → IsSorted (elim r [ Ordering.gt ↦ y ∷ insert_sorted x ys | _ ↦ x ∷ y ∷ ys ])
        at ih Ordering.gt e = (
          insert_sorted-All (λ z. cmp y z ≢ Ordering.gt) x ys (IsOrder-total cmp o x y e) h.0,
          ih,
        )
        at ih Ordering.lt e = let ne : cmp x y ≢ Ordering.gt = λ e'. cc in ((ne, below ne), h)
        at ih Ordering.eq e = let ne : cmp x y ≢ Ordering.gt = λ e'. cc in ((ne, below ne), h)

    -- The result of a sort is in order.
    pub sort_func-IsSorted : (xs : List A) → IsSorted (sort_func xs)
    unfolding sort_func
    sort_func-IsSorted [] = tt
    sort_func-IsSorted (x ∷ xs) = insert_sorted-IsSorted x (sort_func xs) (sort_func-IsSorted xs)
