-- ===== src/Config/Agreement.antt =====
-- The formats of the configuration's schema against the check of the target namespaces that rendering
-- makes (bundle/registry/v1/internal).
use library_olm.Prelude.{
  String, Bool, true, false, ok, List, [], ◌∷◌, ◌||◌, contains, ◌==◌, ◌≡◌, ◌↔◌, refl, Bool-cases,
  inl, inr,
}
use library_olm.Registry.{
  Kube, RegistryV1, own_namespace, single_namespace, supported_install_modes,
}
use library_olm.Generators.{validate_target_namespaces}
use library_olm.Generators.TargetNamespaces.{allows_targets, validate_target_namespaces_iff}
use library_olm.Config.{
  string, has_mode, select_namespace_format, validate_format, validate_own_namespace,
  validate_single_namespace,
}
use library_olm.Config.SchemaFor.{single_or_own, contains-has_mode}

-- The format's check accepts the name where the modes allow it as the one target.
format_allows :
    (own single : Bool) (modes : List String) (install_namespace name : String)
    → install_namespace == "" ≡ false
    → name == "" ≡ false
    → contains modes own_namespace ≡ own
    → contains modes single_namespace ≡ single
    → single || own ≡ true
    → (validate_format (select_namespace_format own single) install_namespace (string name) ≡ ok tt)
      ↔ (allows_targets modes install_namespace (name ∷ []) ≡ true)
unfolding validate_own_namespace validate_single_namespace validate_format select_namespace_format
    allows_targets
format_allows true true modes i n filled named has_own has_single some =
    rw named (elim (Bool-cases (n == i)) [
      | inl e ↦ rw (e, has_own) (λ h. refl, λ h. refl)
      | inr e ↦ rw (e, has_single) (λ h. refl, λ h. refl)
    ])
format_allows true false modes i n filled named has_own has_single some =
    rw (named, filled)
      (elim (Bool-cases (n == i)) [
        | inl e ↦ rw (e, has_own) (λ h. refl, λ h. refl)
        | inr e ↦ rw (e, has_single) (λ h. cc, λ h. cc)
      ])
format_allows false true modes i n filled named has_own has_single some =
    rw (named, filled)
      (elim (Bool-cases (n == i)) [
        | inl e ↦ rw (e, has_own) (λ h. cc, λ h. cc)
        | inr e ↦ rw (e, has_single) (λ h. refl, λ h. refl)
      ])
format_allows false false modes i n filled named has_own has_single some = cc

-- For a bundle that supports the install mode SingleNamespace or OwnNamespace, an install namespace
-- and a name, neither empty: the format that the schema gives the property `watchNamespace` admits
-- the name exactly where rendering accepts it as the one target namespace.
pub validate_format-validate_target_namespaces :
    (k : Kube) (rv1 : RegistryV1 k) (install_namespace name : String)
    → install_namespace == "" ≡ false
    → name == "" ≡ false
    → single_or_own (supported_install_modes k rv1) ≡ true
    → (validate_format
          (select_namespace_format
            (has_mode rv1.csv.install_modes own_namespace)
            (has_mode rv1.csv.install_modes single_namespace))
          install_namespace
          (string name)
        ≡ ok tt)
      ↔ (validate_target_namespaces k rv1 install_namespace (name ∷ []) ≡ ok tt)
validate_format-validate_target_namespaces k rv1 i n filled named some =
    let (to, from) = validate_target_namespaces_iff k rv1 i (n ∷ []) in
    let (there, back) = format_agrees in (λ h. from (there h), λ h. back (to h))
  where
    format_agrees :
        (validate_format
            (select_namespace_format
              (has_mode rv1.csv.install_modes own_namespace)
              (has_mode rv1.csv.install_modes single_namespace))
            i
            (string n)
          ≡ ok tt)
        ↔ (allows_targets (supported_install_modes k rv1) i (n ∷ []) ≡ true)
    format_agrees =
        rw (contains-has_mode k rv1 own_namespace, contains-has_mode k rv1 single_namespace)
          (format_allows _ _ (supported_install_modes k rv1) i n filled named refl refl some)
