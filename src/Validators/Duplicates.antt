-- ===== src/Validators/Duplicates.antt =====
-- Which names the check of the deployments' names reports.
use library_olm.Prelude.{
  String, ◌≡◌, refl, ◌∙◌, Bool, false, ◌&&◌, ◌||◌, List, [], ◌∷◌, map, contains, contains-insert,
  contains-perm, insert, IsDistinct, IsDistinct-insert, IsDistinct-perm, sort_func, sort_func-perm,
  sort_func-IsSorted, IsSorted, compare_strings, compare_strings-IsOrder, ◌==◌, arith, eq_iff,
  Bool-cases, inl, inr,
}
use mathlib.Core.List.Perm
use library_olm.Registry.{Kube, RegistryV1}
use library_olm.Validators.Errors.{duplicate_deployment}
use library_olm.Validators.Names.{
  duplicates_loop, deployment_names, check_deployment_spec_uniqueness,
}

-- The name stands in the list more than once.
pub is_repeated : List String → String → Bool
is_repeated [] n = false
is_repeated (m ∷ ms) n = (m == n && contains ms n) || is_repeated ms n

contains-duplicates_loop :
    (ns seen dups : List String) (n : String)
    → contains (duplicates_loop ns seen dups) n
      ≡ (contains dups n || ((contains seen n && contains ns n) || is_repeated ns n))
unfolding duplicates_loop is_repeated contains
contains-duplicates_loop [] seen dups n = ground arith
contains-duplicates_loop (m ∷ ns) seen dups n = elim (Bool-cases (contains seen m)) [
  | inl old ↦ rw old (
      contains-duplicates_loop ns (insert seen m) (insert dups m) n
      ∙ (ground (arith, contains-insert dups m n, contains-insert seen m n, old, eq_iff m n)))
  | inr new ↦ rw new (
      contains-duplicates_loop ns (insert seen m) dups n
      ∙ (ground (arith, contains-insert seen m n, new, eq_iff m n)))
]

IsDistinct-duplicates_loop :
    (ns seen dups : List String) → IsDistinct dups → IsDistinct (duplicates_loop ns seen dups)
unfolding duplicates_loop
IsDistinct-duplicates_loop [] seen dups h = h
IsDistinct-duplicates_loop (m ∷ ns) seen dups h = elim (Bool-cases (contains seen m)) [
  | inl old ↦
      rw old
        (IsDistinct-duplicates_loop ns (insert seen m) (insert dups m) (IsDistinct-insert dups m h))
  | inr new ↦ rw new (IsDistinct-duplicates_loop ns (insert seen m) dups h)
]

-- `CheckDeploymentSpecUniqueness` reports each name that two or more deployments have, once, in
-- ascending order, and no other.
pub check_deployment_spec_uniqueness-exact :
    (k : Kube) (rv1 : RegistryV1 k)
    → (names : List String) × (check_deployment_spec_uniqueness k rv1
        ≡ map duplicate_deployment names)
      × IsDistinct names
      × IsSorted compare_strings names
      × ((n : String) → contains names n ≡ is_repeated (deployment_names k rv1) n)
unfolding check_deployment_spec_uniqueness
check_deployment_spec_uniqueness-exact k rv1 =
    let found = duplicates_loop (deployment_names k rv1) [] [] in
    (
      sort_func compare_strings found,
      refl,
      IsDistinct-perm (Perm.symm (sort_func-perm compare_strings found))
          (IsDistinct-duplicates_loop (deployment_names k rv1) [] [] tt),
      sort_func-IsSorted compare_strings compare_strings-IsOrder found,
      λ n.
          contains-perm (sort_func-perm compare_strings found) n
          ∙ contains-duplicates_loop (deployment_names k rv1) [] [] n
          ∙ (unfold contains in refl),
    )
