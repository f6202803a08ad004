-- ===== src/Prelude/Filter.antt =====
-- What a loop that keeps the elements passing a test has of its input.
use mathlib.Core.Path.{◌≡◌, refl}
use mathlib.Core.Bool.{Bool, true, false, ◌&&◌}
use mathlib.Core.Logic.{∥∥₁_elim, ∥∥₁_prop, inl, inr}
use mathlib.Core.List.{List, [], ◌∷◌, ◌++◌, map, Perm, Permᴰ}
use mathlib.Core.List.Perm
use native.Mathlib.Omega.{arith}
use library_olm.Prelude.Tests.{Bool-cases}
use library_olm.Prelude.Lists.{All, keep}

module _ {ℓ} {A : Type ℓ} (p : A → Bool) where
  pub keep-append : (xs ys : List A) → keep p (xs ++ ys) ≡ keep p xs ++ keep p ys
  unfolding keep
  keep-append [] ys = refl
  keep-append (x ∷ xs) ys = ground (arith, keep-append xs ys)

  -- Every kept element passes the test.
  pub keep-passes : (xs : List A) → All (λ x. p x ≡ true) (keep p xs)
  unfolding keep
  keep-passes [] = tt
  keep-passes (x ∷ xs) = elim (Bool-cases (p x)) [
    | inl h ↦ rw h (h, keep-passes xs)
    | inr h ↦ rw h (keep-passes xs)
  ]

  pub keep-All {κ} : (P : A → Type κ) (xs : List A) → All P xs → All P (keep p xs)
  unfolding keep
  keep-All P [] h = tt
  keep-All P (x ∷ xs) h = elim (Bool-cases (p x)) [
    | inl e ↦ rw e (h.0, keep-All P xs h.1)
    | inr e ↦ rw e (keep-All P xs h.1)
  ]

  pub keep-nil : (xs : List A) → All (λ x. p x ≡ false) xs → keep p xs ≡ []
  unfolding keep
  keep-nil [] h = refl
  keep-nil (x ∷ xs) h = rw h.0 (keep-nil xs h.1)

  keep-permᴰ : {xs ys : List A} → Permᴰ xs ys → Perm (keep p xs) (keep p ys)
  unfolding keep
  keep-permᴰ Permᴰ.nil = Perm.nil
  keep-permᴰ (Permᴰ.cons {a} e d) = rw (← e) (elim (Bool-cases (p a)) [
    | inl h ↦ rw h (Perm.cons a (keep-permᴰ d))
    | inr h ↦ rw h (keep-permᴰ d)
  ])
  keep-permᴰ (Permᴰ.swap {a} {b} {l} e f) =
      rw (← e, ← f)
        (elim (Bool-cases (p a)) [
          | inl h ↦ elim (Bool-cases (p b)) [
            | inl k ↦ rw (h, k) (Perm.swap b a (keep p l))
            | inr k ↦ rw (h, k) (Perm.refl _)
          ]
          | inr h ↦ elim (Bool-cases (p b)) [
            | inl k ↦ rw (h, k) (Perm.refl _)
            | inr k ↦ rw (h, k) (Perm.refl _)
          ]
        ])
  keep-permᴰ (Permᴰ.trans d e) = Perm.trans (keep-permᴰ d) (keep-permᴰ e)

  pub keep-perm : {xs ys : List A} → Perm xs ys → Perm (keep p xs) (keep p ys)
  keep-perm h = ∥∥₁_elim h ∥∥₁_prop keep-permᴰ

-- Two tests that agree on the elements keep the same.
pub keep-congr {ℓ} :
    {A : Type ℓ} (p q : A → Bool) (xs : List A) → All (λ x. p x ≡ q x) xs → keep p xs ≡ keep q xs
unfolding keep
keep-congr p q [] h = refl
keep-congr p q (x ∷ xs) h = ground (arith, keep-congr p q xs h.1)

-- A test that adds a condition keeps a part of what the test keeps.
module _ {ℓ} {A : Type ℓ} (p q : A → Bool) where
  pub keep_both : (xs : List A) → keep (λ x. p x && q x) xs ≡ keep q (keep p xs)
  unfolding keep
  keep_both [] = refl
  keep_both (x ∷ xs) = ground (arith, keep_both xs)

  pub keep_both-nil : (xs : List A) → keep p xs ≡ [] → keep (λ x. p x && q x) xs ≡ []
  keep_both-nil xs h = rw (keep_both xs, h) (unfold keep in refl)

  pub keep_both-nil_right :
      (xs : List A) → All (λ x. q x ≡ false) xs → keep (λ x. p x && q x) xs ≡ []
  unfolding keep
  keep_both-nil_right [] h = refl
  keep_both-nil_right (x ∷ xs) h = ground (arith, keep_both-nil_right xs h.1)

  pub keep_both_left :
      (xs : List A) → All (λ x. q x ≡ true) xs → keep (λ x. p x && q x) xs ≡ keep p xs
  unfolding keep
  keep_both_left [] h = refl
  keep_both_left (x ∷ xs) h = ground (arith, keep_both_left xs h.1)

module _ {ℓ} {A : Type ℓ} (p : A → Bool) where
  -- A test that refuses nothing of what `p` passes, and a change that `p` does not see.
  pub keep-keep :
      (q : A → Bool)
      → ((x : A) → p x ≡ true → q x ≡ true)
      → (xs : List A) → keep p (keep q xs) ≡ keep p xs
  unfolding keep
  keep-keep q h [] = refl
  keep-keep q h (x ∷ xs) = elim (Bool-cases (p x)) [
    | inl e ↦ rw (h x e, e, keep-keep q h xs) refl
    | inr e ↦ elim (Bool-cases (q x)) [
      | inl d ↦ rw (d, e) (keep-keep q h xs)
      | inr d ↦ rw (d, e) (keep-keep q h xs)
    ]
  ]

  pub keep-map :
      (f : A → A)
      → ((x : A) → p (f x) ≡ p x)
      → ((x : A) → p x ≡ true → f x ≡ x)
      → (xs : List A) → keep p (map f xs) ≡ keep p xs
  unfolding keep
  keep-map f h i [] = refl
  keep-map f h i (x ∷ xs) = elim (Bool-cases (p x)) [
    | inl e ↦ rw (h x, e, i x e, keep-map f h i xs) refl
    | inr e ↦ rw (h x, e) (keep-map f h i xs)
  ]
