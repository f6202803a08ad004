-- ===== src/Bundle/Order.antt =====
-- The comparisons of bundle/v1 are total orders.
use library_olm.Prelude.{
  compare, Ordering, lt, eq, gt, ◌≡◌, refl, List, [], ◌∷◌, arith, flip, then_by, Agrees, IsOrder,
  IsOrder-on, IsOrder-then_by, then_by-flip, then_by-Agrees, compare_strings,
  compare_strings-IsOrder, length,
}
use mathlib.Core.Path.{subst⁻¹, fun_ext}
use library_olm.Bundle.Versions.{SemVer, IsPrecedence}
use library_olm.Bundle.Releases.{Release, compare_common, compare_releases}
use library_olm.Bundle.Identity.{
  VersionRelease, NameVersionRelease, compare_version_releases, version_release, compare_nvrs,
}

-- Lexicographic order: the first difference decides, and a proper prefix is lower.
module _ {ℓ} {A : Type ℓ} (cmp : A → A → Ordering) where
  pub lexicographic : List A → List A → Ordering
  lexicographic [] [] = eq
  lexicographic [] (y ∷ ys) = lt
  lexicographic (x ∷ xs) [] = gt
  lexicographic (x ∷ xs) (y ∷ ys) = then_by (cmp x y) (lexicographic xs ys)

  module _ (o : IsOrder cmp) where
    lexicographic_swap : (xs ys : List A) → lexicographic ys xs ≡ flip (lexicographic xs ys)
    unfolding lexicographic
    lexicographic_swap [] [] = refl
    lexicographic_swap [] (y ∷ ys) = refl
    lexicographic_swap (x ∷ xs) [] = refl
    lexicographic_swap (x ∷ xs) (y ∷ ys) =
        rw (o.swap x y, lexicographic_swap xs ys) (then_by-flip (cmp x y) (lexicographic xs ys))

    lexicographic_chain :
        (xs ys zs : List A)
        → Agrees (lexicographic xs ys) (lexicographic ys zs) (lexicographic xs zs)
    unfolding lexicographic
    lexicographic_chain [] [] zs = refl
    lexicographic_chain [] (y ∷ ys) [] = tt
    lexicographic_chain [] (y ∷ ys) (z ∷ zs) = ground arith
    lexicographic_chain (x ∷ xs) [] [] = refl
    lexicographic_chain (x ∷ xs) [] (z ∷ zs) = tt
    lexicographic_chain (x ∷ xs) (y ∷ ys) [] = ground arith
    lexicographic_chain (x ∷ xs) (y ∷ ys) (z ∷ zs) =
        then_by-Agrees (cmp x y) (cmp y z) (cmp x z) (lexicographic xs ys) (lexicographic ys zs)
          (lexicographic xs zs) (o.chain x y z) (lexicographic_chain xs ys zs)

    pub lexicographic-IsOrder : IsOrder lexicographic
    lexicographic-IsOrder = record { swap = lexicographic_swap; chain = lexicographic_chain }

module _ (v : SemVer) where
  common-eq-lexicographic :
      (xs ys : List v.PRVersion)
      → then_by (compare_common v xs ys) (compare (length xs) (length ys))
        ≡ lexicographic v.compare_pr xs ys
  unfolding compare_common lexicographic
  common-eq-lexicographic [] [] = refl
  common-eq-lexicographic [] (y ∷ ys) = ground arith
  common-eq-lexicographic (x ∷ xs) [] = ground arith
  common-eq-lexicographic (x ∷ xs) (y ∷ ys) = ground (arith, common-eq-lexicographic xs ys)

  -- `Release.Compare` is the lexicographic order of the identifiers, for every two releases: the
  -- first identifier that differs decides, and where none does the shorter release is lower, the
  -- empty one lowest.
  pub compare_releases-lexicographic :
      (r other : Release v)
      → compare_releases v r other ≡ lexicographic v.compare_pr r.ids other.ids
  unfolding compare_releases
  compare_releases-lexicographic r other = ground (arith, common-eq-lexicographic r.ids other.ids)

IsOrder-eq {ℓ} :
    {A : Type ℓ} (f g : A → A → Ordering) → ((a b : A) → f a b ≡ g a b) → IsOrder g → IsOrder f
IsOrder-eq f g e o = subst⁻¹ IsOrder (fun_ext (λ a. fun_ext (e a))) o

module _ (v : SemVer) (precedence : IsPrecedence v) where
  open precedence use {pr_order, version_order}

  pub compare_releases-IsOrder : IsOrder (compare_releases v)
  compare_releases-IsOrder = IsOrder-eq _ _ (compare_releases-lexicographic v) (
      IsOrder-on (λ (r : Release v). r.ids) (lexicographic v.compare_pr)
        (lexicographic-IsOrder v.compare_pr pr_order))

  pub compare_version_releases-IsOrder : IsOrder (compare_version_releases v)
  unfolding compare_version_releases
  compare_version_releases-IsOrder =
      IsOrder-then_by _ _
        (IsOrder-on (λ (a : VersionRelease v). a.version) v.compare_version version_order)
        (IsOrder-on (λ (a : VersionRelease v). a.release) (compare_releases v)
          compare_releases-IsOrder)

  -- `NameVersionRelease.Compare` is a total order up to ties, which is what sorting by it asks:
  -- exchanging the arguments reverses the result, and the results chain. This rests on the order
  -- of semantic versions and of their identifiers being one.
  pub compare_nvrs-IsOrder : IsOrder (compare_nvrs v)
  unfolding compare_nvrs version_release
  compare_nvrs-IsOrder =
      IsOrder-then_by _ _
        (IsOrder-on (λ (a : NameVersionRelease v). a.name) compare_strings compare_strings-IsOrder)
        (IsOrder-on (version_release v) (compare_version_releases v)
          compare_version_releases-IsOrder)
