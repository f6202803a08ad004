-- ===== src/Validators/SupportChecks.antt =====
-- The install modes that a bundle supports, and the check of its conversion webhooks against them.
use library_olm.Prelude.{
  distinct-insert, only, only-insert, singleton, String, ◌≡◌, refl, ap, ◌∙◌, Bool, true, false,
  ◌&&◌, ◌||◌, not, List, [], ◌∷◌, map, contains, contains-insert, insert, is_empty, all, any,
  length, nat_eq, sort_func, compare_strings, distinct, if◌then◌else◌, ◌==◌, arith, Bool-cases, inl,
  inr,
}
use library_olm.Registry.{
  Kube, RegistryV1, Webhook, InstallMode, all_namespaces, supported_install_modes, collect_modes,
}
use library_olm.Validators.Errors.{unsupported_conversion_webhook}
use library_olm.Validators.References.{conversion_webhooks, check_conversion_webhook_support}

contains-collect_modes :
    (ims : List InstallMode) (modes : List String) (a : String)
    → contains (collect_modes ims modes) a
      ≡ (contains modes a || any (λ (im : InstallMode). im.supported && im.mode_type == a) ims)
unfolding collect_modes
contains-collect_modes [] modes a = ground arith
contains-collect_modes (im ∷ ims) modes a = elim (Bool-cases im.supported) [
  | inl on ↦ rw on (
      contains-collect_modes ims (insert modes im.mode_type) a
      ∙ (ground (arith, contains-insert modes im.mode_type a)))
  | inr off ↦ rw off (contains-collect_modes ims modes a)
]

only-collect_modes :
    (a : String) (ims : List InstallMode) (modes : List String)
    → only a (collect_modes ims modes)
      ≡ (only a modes && all (λ (im : InstallMode). not im.supported || im.mode_type == a) ims)
unfolding collect_modes
only-collect_modes a [] modes = ground arith
only-collect_modes a (im ∷ ims) modes = elim (Bool-cases im.supported) [
  | inl on ↦ rw on (
      only-collect_modes a ims (insert modes im.mode_type)
      ∙ (ground (arith, only-insert a modes im.mode_type)))
  | inr off ↦ rw off (only-collect_modes a ims modes)
]

distinct-collect_modes :
    (ims : List InstallMode) (modes : List String)
    → distinct modes ≡ true
    → distinct (collect_modes ims modes) ≡ true
unfolding collect_modes
distinct-collect_modes [] modes d = d
distinct-collect_modes (im ∷ ims) modes d = elim (Bool-cases im.supported) [
  | inl on ↦ rw on (
      distinct-collect_modes ims (insert modes im.mode_type) (distinct-insert modes im.mode_type d))
  | inr off ↦ rw off (distinct-collect_modes ims modes d)
]

-- An install mode is declared as supported.
abbrev pub supports : List InstallMode → String → Bool
supports ims mode = any (λ (im : InstallMode). im.supported && im.mode_type == mode) ims

abbrev pub supports_only : List InstallMode → String → Bool
supports_only ims mode = all (λ (im : InstallMode). not im.supported || im.mode_type == mode) ims

module _ (k : Kube) (rv1 : RegistryV1 k) where
  -- A mode is in the set `SupportedInstallModes` where the bundle declares it as supported.
  pub contains-supported_install_modes :
      (mode : String)
      → contains (supported_install_modes k rv1) mode ≡ supports rv1.csv.install_modes mode
  unfolding supported_install_modes contains
  contains-supported_install_modes mode = contains-collect_modes rv1.csv.install_modes [] mode

  pub check_conversion_webhook_support_lem : is_empty (check_conversion_webhook_support k rv1) ≡ (
      is_empty (conversion_webhooks k rv1)
      || supports rv1.csv.install_modes all_namespaces
        && supports_only rv1.csv.install_modes all_namespaces)
  unfolding check_conversion_webhook_support
  check_conversion_webhook_support_lem =
      report (conversion_webhooks k rv1) (
        nat_eq (length (supported_install_modes k rv1)) 1
        && contains (supported_install_modes k rv1) all_namespaces)
      ∙ ap (λ b. is_empty (conversion_webhooks k rv1) || b)
          (singleton all_namespaces (supported_install_modes k rv1) (
              unfold supported_install_modes in
              distinct-collect_modes rv1.csv.install_modes [] refl)
            ∙ (rw (contains-supported_install_modes all_namespaces, only_supported) refl))
    where
      only_supported :
          only all_namespaces (supported_install_modes k rv1)
          ≡ supports_only rv1.csv.install_modes all_namespaces
      only_supported =
          unfold supported_install_modes in
          only-collect_modes all_namespaces rv1.csv.install_modes []

      report :
          (ws : List (Webhook k)) (good : Bool)
          → is_empty (
              if is_empty (map (λ (w : Webhook k). w.generate_name) ws)
              then []
              else if good
              then []
              else map
                  (λ name.
                    unsupported_conversion_webhook name
                      (sort_func compare_strings (supported_install_modes k rv1)))
                  (map (λ (w : Webhook k). w.generate_name) ws))
            ≡ (is_empty ws || good)
      report [] good = refl
      report (w ∷ ws) true = refl
      report (w ∷ ws) false = refl
