-- ===== src/Generators/TargetNamespaces.antt =====
-- What target namespaces a bundle's install modes allow.
use library_olm.Prelude.{
  contains_self, distinct-insert, only, only-insert, singleton, ◌++◌, String, ◌≡◌, refl, sym, ◌∙◌,
  ◌↔◌, Bool, true, false, not, ◌&&◌, ◌||◌, List, [], ◌∷◌, Result, ok, err, contains, insert, length,
  nat_eq, distinct, if◌then◌else◌, ◌==◌, arith, eq_iff, inl, inr, Bool-cases,
}
use library_olm.Registry.{
  Kube, RegistryV1, own_namespace, single_namespace, multi_namespace, all_namespaces,
  supported_install_modes,
}
use library_olm.Validators.{insert_all}
use library_olm.Validators.NameChecks.{contains-set}
use library_olm.Generators.{first_target, check_targets, validate_target_namespaces}

first_target-insert_all :
    (ns : String) (set nss : List String) → first_target (insert_all (ns ∷ set) nss) ≡ ns
unfolding insert_all insert contains
first_target-insert_all ns set [] = refl
first_target-insert_all ns set (n ∷ nss) = elim (Bool-cases (contains (ns ∷ set) n)) [
  | inl old ↦ rw old (first_target-insert_all ns set nss)
  | inr new ↦ rw new (first_target-insert_all ns (set ++ (n ∷ [])) nss)
]

distinct-insert_all :
    (nss set : List String) → distinct set ≡ true → distinct (insert_all set nss) ≡ true
unfolding insert_all
distinct-insert_all [] set d = d
distinct-insert_all (n ∷ nss) set d =
    distinct-insert_all nss (insert set n) (distinct-insert set n d)

only-insert_all :
    (a : String) (nss set : List String) → only a (insert_all set nss) ≡ (only a set && only a nss)
unfolding insert_all
only-insert_all a [] set = ground arith
only-insert_all a (n ∷ nss) set =
    only-insert_all a nss (insert set n) ∙ (ground (arith, only-insert a set n))

-- The set of the targets has one element where they are all the same.
one_target :
    (t : String) (ts : List String) → nat_eq (length (insert_all [] (t ∷ ts))) 1 ≡ only t (t ∷ ts)
one_target t ts =
    let set = insert_all [] (t ∷ ts) in
    let has_t : contains set t ≡ true = contains-set (t ∷ ts) t ∙ contains_self ts t in
    ground (
      arith,
      has_t,
      singleton t set (distinct-insert_all (t ∷ ts) [] refl),
      only-insert_all t (t ∷ ts) [],
    )

accepted {ℓ} : {E A : Type ℓ} → Result E A → Bool
accepted (ok a) = true
accepted (err e) = false

module _ (modes : List String) (install_namespace : String) where
  -- The install modes allow the target namespaces: one, the empty name, stands for all namespaces;
  -- one is the operator's own or another; several do not include all namespaces, nor the operator's
  -- own unless that is supported.
  unfoldable pub allows_targets : List String → Bool
  allows_targets [] = false
  allows_targets (t ∷ ts) =
      if only t ts
      then (if t == ""
          then contains modes all_namespaces
          else if t == install_namespace
          then contains modes own_namespace
          else contains modes single_namespace)
      else contains modes multi_namespace
        && not (contains (t ∷ ts) "")
        && (contains modes own_namespace || not (contains (t ∷ ts) install_namespace))

  only-contains_other :
      (t : String) (ts : List String) (a : String)
      → only t ts ≡ true
      → contains (t ∷ ts) a ≡ (t == a)
  unfolding contains
  only-contains_other t [] a h = ground arith
  only-contains_other t (x ∷ ts) a h =
      ground (arith, only-contains_other t ts a, eq_iff x t, eq_iff x a, eq_iff t a)

  check_targets-allowed :
      (targets : List String)
      → accepted (check_targets modes (insert_all [] targets) install_namespace targets)
        ≡ allows_targets targets
  unfolding check_targets accepted allows_targets
  check_targets-allowed [] = unfold insert_all in ground arith
  check_targets-allowed (t ∷ ts) =
      let set = insert_all [] (t ∷ ts) in
      let has_t : contains set t ≡ true = contains-set (t ∷ ts) t ∙ contains_self ts t in
      let some_in : nat_eq (length set) 0 ≡ false = filled set t has_t in
      let one : nat_eq (length set) 1 ≡ only t ts =
        one_target t ts ∙ (ground (arith, eq_iff t t)) in
      rw (some_in, one, contains-set (t ∷ ts) "", contains-set (t ∷ ts) install_namespace)
        (elim (Bool-cases (only t ts)) [
          | inl same ↦
              rw
                (
                  same,
                  only-contains_other t ts "" same,
                  only-contains_other t ts install_namespace same,
                )
                (ground arith)
          | inr differ ↦ rw differ (ground arith)
        ])
    where
      filled : (xs : List String) (a : String) → contains xs a ≡ true → nat_eq (length xs) 0 ≡ false
      filled [] a h = unfold contains in cc
      filled (x ∷ xs) a h = ground arith

ok_iff_accepted : {E : Type 0} (r : Result E Unit) → (r ≡ ok tt) ↔ (accepted r ≡ true)
unfolding accepted
ok_iff_accepted (ok tt) = (λ h. refl, λ h. refl)
ok_iff_accepted (err e) = (λ h. cc, λ h. cc)

-- `validateTargetNamespaces` returns no error exactly where the bundle's supported install modes
-- allow the targets: at least one is given; the empty name, alone, needs AllNamespaces; one other
-- name needs OwnNamespace if it is the install namespace and SingleNamespace if not; several names
-- need MultiNamespace, none of them empty, and OwnNamespace if the install namespace is one. A name
-- may be repeated.
pub validate_target_namespaces_iff :
    (k : Kube) (rv1 : RegistryV1 k) (install_namespace : String) (targets : List String)
    → (validate_target_namespaces k rv1 install_namespace targets ≡ ok tt)
      ↔ (allows_targets (supported_install_modes k rv1) install_namespace targets ≡ true)
unfolding validate_target_namespaces
validate_target_namespaces_iff k rv1 install_namespace targets =
    let modes = supported_install_modes k rv1 in
    let (to, from) =
      ok_iff_accepted (check_targets modes (insert_all [] targets) install_namespace targets) in
    let agree = check_targets-allowed modes install_namespace targets in
    (λ h. sym agree ∙ to h, λ h. from (agree ∙ h))
