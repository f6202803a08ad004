-- ===== src/Generators/InstallNamespace.antt =====
-- What the context holds once the namespace generator has run.
use library_olm.Prelude.{
  String, ◌≡◌, sym, ap, ◌∙◌, Bool, true, false, Option, none, some, List, [], ◌∷◌, ◌++◌, Result, ok,
  err, ◌>>=◌, >>=-eq-ok, wrap_err, is_empty, if◌then◌else◌, Bool-cases, inl, inr,
}
use library_olm.Registry.{Kube, Namespace, RegistryV1, supported_install_modes}
use library_olm.Generators.{
  namespace_object, Options, GeneratorContext, RenderError, validate_namespace_name,
  invalid_self_managed_namespace, invalid_install_namespace, derive_namespace,
  resolve_install_namespace, validate_target_namespaces, bundle_namespace_generator, new_namespace,
}
use library_olm.Generators.TargetNamespaces.{allows_targets, validate_target_namespaces_iff}

ok_injective : {E A : Type 0} {a b : A} → ◌≡◌ {A = Result E A} (ok a) (ok b) → a ≡ b
ok_injective h = cc

module _ (k : Kube) where
  -- Where the install namespace comes from and what is emitted for it.
  abbrev pub IsOrigin :
      RegistryV1 k → Option String → GeneratorContext k → GeneratorContext k → Type 0
  IsOrigin rv1 (some name) ctx ctx' = (ctx'.install_namespace ≡ name) × (ctx'.objects ≡ ctx.objects)
  IsOrigin rv1 none ctx ctx' =
      (ns : Namespace) × (derive_namespace k rv1 ≡ ok ns)
      × (ctx'.install_namespace ≡ ns.name)
      × (ctx'.objects ≡ ctx.objects ++ (namespace_object ns ∷ []))

  wrap_err-ok :
      {E F A : Type 0} (f : E → F) (r : Result E A) (a : A) → wrap_err f r ≡ ok a → r ≡ ok a
  wrap_err-ok f (ok b) a h = cc
  wrap_err-ok f (err e) a h = cc

  validate_namespace_name-ok :
      (wrap : String → List String → RenderError k) (name : String) (u : Unit)
      → validate_namespace_name k wrap name ≡ ok u
      → is_empty (k.is_dns1123_label name) ≡ true
  validate_namespace_name-ok wrap name u h =
      elim (Bool-cases (is_empty (k.is_dns1123_label name))) [
        | inl good ↦ good
        | inr bad ↦
            let failed : err (wrap name (k.is_dns1123_label name)) ≡ ok u = rw bad at h in cc
      ]

  resolve_install_namespace-ok :
      (rv1 : RegistryV1 k) (managed : Option String) (ns : Namespace) (emit : Bool)
      (ctx ctx' : GeneratorContext k)
      → resolve_install_namespace k rv1 managed ≡ ok (ns, emit)
      → ctx'.install_namespace ≡ ns.name
      → ctx'.objects ≡ (if emit then ctx.objects ++ (namespace_object ns ∷ []) else ctx.objects)
      → (is_empty (k.is_dns1123_label ns.name) ≡ true) × IsOrigin rv1 managed ctx ctx'
  unfolding resolve_install_namespace
  resolve_install_namespace-ok rv1 (some name) ns emit ctx ctx' h n o =
      let (u, valid, found) =
        >>=-eq-ok (validate_namespace_name k invalid_self_managed_namespace name)
          (λ _. ok (new_namespace name, false)) h in
      let same : new_namespace name ≡ ns =
        ap (λ (p : Namespace × Bool). p.0) (ok_injective found) in
      let quiet : false ≡ emit = ap (λ (p : Namespace × Bool). p.1) (ok_injective found) in
      (
        rw (← same) (validate_namespace_name-ok invalid_self_managed_namespace name u valid),
        (
          n ∙ sym (ap (λ (x : Namespace). x.name) same),
          o
              ∙ sym (
                  ap (λ b. if b then ctx.objects ++ (namespace_object ns ∷ []) else ctx.objects)
                    quiet),
        ),
      )
  resolve_install_namespace-ok rv1 none ns emit ctx ctx' h n o =
      let (ns', derived, rest) =
        >>=-eq-ok (derive_namespace k rv1)
          (λ x. validate_namespace_name k invalid_install_namespace x.name >>= λ _. ok (x, true))
          h in
      let (u, valid, found) =
        >>=-eq-ok (validate_namespace_name k invalid_install_namespace ns'.name)
          (λ _. ok (ns', true)) rest in
      let same : ns' ≡ ns = ap (λ (p : Namespace × Bool). p.0) (ok_injective found) in
      let loud : true ≡ emit = ap (λ (p : Namespace × Bool). p.1) (ok_injective found) in
      (
        rw (← same) (validate_namespace_name-ok invalid_install_namespace ns'.name u valid),
        (
          ns,
          derived ∙ ap ok same,
          n,
          o
              ∙ sym (
                  ap (λ b. if b then ctx.objects ++ (namespace_object ns ∷ []) else ctx.objects)
                    loud),
        ),
      )

  -- Where `BundleNamespaceGenerator` succeeds, the install namespace is a valid name, it is the
  -- caller's name and nothing is emitted if the caller manages it, it is that of the namespace derived
  -- from the bundle and that namespace is appended to the objects if not, and the install modes
  -- allow the target namespaces.
  pub bundle_namespace_generator_lem :
      (rv1 : RegistryV1 k) (opts : Options k) (ctx ctx' : GeneratorContext k)
      → bundle_namespace_generator k rv1 opts ctx ≡ ok ctx'
      → (is_empty (k.is_dns1123_label ctx'.install_namespace) ≡ true)
        × IsOrigin rv1 opts.self_managed_install_namespace ctx ctx'
        × (allows_targets
              (supported_install_modes k rv1)
              ctx'.install_namespace
              opts.target_namespaces
            ≡ true)
  unfolding bundle_namespace_generator
  bundle_namespace_generator_lem rv1 opts ctx ctx' h =
      let ((ns, emit), resolved, rest) =
        >>=-eq-ok (resolve_install_namespace k rv1 opts.self_managed_install_namespace) _ h in
      let (u, checked, made) =
        >>=-eq-ok (wrap_err _ (validate_target_namespaces k rv1 ns.name opts.target_namespaces)) _
          rest in
      let made_context = ok_injective made in
      let name : ctx'.install_namespace ≡ ns.name =
        sym (ap (λ (c : GeneratorContext k). c.install_namespace) made_context) in
      let (valid, origin) =
        resolve_install_namespace-ok rv1 opts.self_managed_install_namespace ns emit ctx ctx'
          resolved name (sym (ap (λ (c : GeneratorContext k). c.objects) made_context)) in
      (
        rw name valid,
        origin,
        rw name (
            (validate_target_namespaces_iff k rv1 ns.name opts.target_namespaces).0
              (wrap_err-ok _ _ u checked)),
      )
