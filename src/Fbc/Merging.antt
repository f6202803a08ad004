-- ===== src/Fbc/Merging.antt =====
-- `mergePackageErrors` (catalog/v1/fbc/error.go): whose errors it reports, and in which order.
use mathlib.Core.Path.{subst}
use mathlib.Core.List.Perm
use library_olm.Prelude.{
  Ordering, gt, IsOrder, All, IsDistinct, IsDistinct-perm, sort_func-perm, Bool-cases, inl, inr,
  ◌≢◌, String, false, ◌||◌, List, [], ◌∷◌, ◌++◌, map, any, keys, contains, contains-keys-put,
  contains-perm, sort_func, sort_func-IsSorted, sorted_entries, IsSorted, compare_strings,
  compare_strings-IsOrder, Map, get, put, eq_iff, ◌==◌, ◌≡◌, refl, ap, ◌∙◌, arith,
}
use library_olm.Fbc.Ingest.{errors_of}
use library_olm.Fbc.Importer.{PackageError, merge_entries, merge_map_slices, merge_package_errors}

module _ {E : Type 0} where
  contains-merge_entries :
      (merged m : Map (List E)) (name : String)
      → contains (keys (merge_entries merged m)) name
        ≡ (contains (keys merged) name || contains (keys m) name)
  unfolding merge_entries contains
  contains-merge_entries merged [] name = ground arith
  contains-merge_entries merged (e ∷ m) name =
      contains-merge_entries (put merged e.0 (errors_of (get merged e.0) ++ e.1)) m name
      ∙ (ground (
        arith,
        contains-keys-put merged e.0 (errors_of (get merged e.0) ++ e.1) name,
        eq_iff e.0 name,
      ))

  contains-merge_map_slices :
      (merged : Map (List E)) (ms : List (Map (List E))) (name : String)
      → contains (keys (merge_map_slices merged ms)) name
        ≡ (contains (keys merged) name || any (λ m. contains (keys m) name) ms)
  unfolding merge_map_slices
  contains-merge_map_slices merged [] name = ground arith
  contains-merge_map_slices merged (m ∷ ms) name =
      contains-merge_map_slices (merge_entries merged m) ms name
      ∙ (rw (contains-merge_entries merged m name) (ground arith))

  abbrev pub package_of : PackageError E → String
  package_of e = e.pkg

  abbrev pub by_package : PackageError E → PackageError E → Ordering
  by_package a b = compare_strings a.pkg b.pkg

  IsDistinct-put :
      (m : Map (List E)) (k : String) (a : List E)
      → IsDistinct (keys m)
      → IsDistinct (keys (put m k a))
  unfolding put contains
  IsDistinct-put [] k a h = (refl, tt)
  IsDistinct-put (e ∷ m) k a h = elim (Bool-cases (e.0 == k)) [
    | inl same ↦
        let eq : e.0 ≡ k = (eq_iff e.0 k).0 same in
        rw same (subst (λ x. contains (keys m) x ≡ false) eq h.0, h.1)
    | inr other ↦ rw other (
      contains-keys-put m k a e.0 ∙ (ground (arith, h.0, eq_iff k e.0, eq_iff e.0 k)),
      IsDistinct-put m k a h.1,
    )
  ]

  IsDistinct-merge_entries :
      (merged m : Map (List E))
      → IsDistinct (keys merged)
      → IsDistinct (keys (merge_entries merged m))
  unfolding merge_entries
  IsDistinct-merge_entries merged [] h = h
  IsDistinct-merge_entries merged (e ∷ m) h =
      IsDistinct-merge_entries (put merged e.0 (errors_of (get merged e.0) ++ e.1)) m
        (IsDistinct-put merged e.0 _ h)

  IsDistinct-merge_map_slices :
      (merged : Map (List E)) (ms : List (Map (List E)))
      → IsDistinct (keys merged)
      → IsDistinct (keys (merge_map_slices merged ms))
  unfolding merge_map_slices
  IsDistinct-merge_map_slices merged [] h = h
  IsDistinct-merge_map_slices merged (m ∷ ms) h =
      IsDistinct-merge_map_slices (merge_entries merged m) ms (IsDistinct-merge_entries merged m h)

module _ {E : Type 0} (text : E → String) where
  abbrev package_error : String × List E → PackageError E
  package_error e = record {
    pkg = e.0;
    errs = sort_func (λ a b. compare_strings (text a) (text b)) e.1;
  }

  map-package_error : (m : Map (List E)) → map package_of (map package_error m) ≡ keys m
  map-package_error [] = refl
  map-package_error (e ∷ m) = ap (λ ks. e.0 ∷ ks) (map-package_error m)

  IsSorted-package_error :
      (m : Map (List E))
      → IsSorted (λ (e f : String × List E). compare_strings e.0 f.0) m
      → IsSorted by_package (map package_error m)
  IsSorted-package_error [] h = tt
  IsSorted-package_error (e ∷ m) h = (All-package_error m h.0, IsSorted-package_error m h.1)
    where
      All-package_error :
          (m : Map (List E))
          → All (λ (f : String × List E). compare_strings e.0 f.0 ≢ gt) m
          → All (λ b. by_package (package_error e) b ≢ gt) (map package_error m)
      All-package_error [] h = tt
      All-package_error (f ∷ m) h = (h.0, All-package_error m h.1)

  -- The error of an import names every package that any phase has an error of, and no other, once
  -- each, in ascending order.
  pub merge_package_errors_lem :
      (ms : List (Map (List E)))
      → ((name : String)
          → contains (map package_of (merge_package_errors text ms)) name
            ≡ any (λ m. contains (keys m) name) ms)
        × IsDistinct (map package_of (merge_package_errors text ms))
        × IsSorted by_package (merge_package_errors text ms)
  unfolding merge_package_errors sorted_entries contains
  merge_package_errors_lem ms = (
    λ name. rw (map-package_error (sorted_entries (merge_map_slices [] ms))) (
        contains-perm (Perm.map (λ (e : String × List E). e.0) (sort_func-perm by_key merged)) name
        ∙ contains-merge_map_slices [] ms name),
    rw (map-package_error (sorted_entries merged)) (
        IsDistinct-perm
          (Perm.symm (Perm.map (λ (e : String × List E). e.0) (sort_func-perm by_key merged)))
          (IsDistinct-merge_map_slices [] ms tt)),
    IsSorted-package_error (sorted_entries (merge_map_slices [] ms))
        (sort_func-IsSorted by_key by_key-IsOrder merged),
  )
    where
      merged : Map (List E)
      merged = merge_map_slices [] ms

      by_key : String × List E → String × List E → Ordering
      by_key e f = compare_strings e.0 f.0

      by_key-IsOrder : IsOrder by_key
      by_key-IsOrder = record {
        swap = λ a b. compare_strings-IsOrder.swap a.0 b.0;
        chain = λ a b c. compare_strings-IsOrder.chain a.0 b.0 c.0;
      }
