-- ===== src/Generators/Dedupe.antt =====
-- What the configuration appends without duplicates: tolerations and sources of environments.
use library_olm.Prelude.{
  ◌≡◌, refl, sym, ap, ◌∙◌, Bool, true, false, ◌||◌, List, [], ◌∷◌, ◌++◌, any, all, is_empty, arith,
  Bool-cases, inl, inr,
}
use mathlib.Core.List.{append_assoc, append-nil}
use library_olm.Registry.{Kube, IsDeepEqual, Deployment}
use library_olm.Generators.{DeploymentConfig, append_new, apply_tolerations_config}

module _ {A : Type 0} (same : A → A → Bool) where
  -- Each element that is appended is new where it is appended.
  abbrev pub IsFresh : List A → List A → Type 0
  IsFresh xs [] = Unit
  IsFresh xs (a ∷ added) = (any (λ x. same x a) xs ≡ false) × IsFresh (xs ++ (a ∷ [])) added

  -- What is appended to a list: only what is new, so that each element asked for is there.
  pub record IsAppended (xs asked ys : List A) : Type 0 where
    pub added : List A
    pub behind : ys ≡ xs ++ added
    pub fresh : IsFresh xs added
    pub there : all (λ a. any (λ y. same y a) ys) asked ≡ true

  any-append : (p : A → Bool) (xs ys : List A) → any p (xs ++ ys) ≡ (any p xs || any p ys)
  any-append p [] ys = refl
  any-append p (x ∷ xs) ys = ground (arith, any-append p xs ys)

  module _ (same_refl : (a : A) → same a a ≡ true) where
    append_new-IsAppended : (xs asked : List A) → IsAppended xs asked (append_new same xs asked)
    unfolding append_new
    append_new-IsAppended xs [] = record {
      added = [];
      behind = sym (append-nil xs);
      fresh = tt;
      there = refl;
    }
    append_new-IsAppended xs (a ∷ asked) = elim (Bool-cases (any (λ x. same x a) xs)) [
      | inl old ↦ rw old (seen (append_new-IsAppended xs asked) old)
      | inr new ↦ rw new (unseen (append_new-IsAppended (xs ++ (a ∷ [])) asked) new)
    ]
      where
        -- the element is there before
        seen :
            {ys : List A}
            → IsAppended xs asked ys
            → any (λ x. same x a) xs ≡ true
            → IsAppended xs (a ∷ asked) ys
        seen {ys} h old =
            let found : any (λ y. same y a) ys ≡ true =
              ap (any (λ y. same y a)) h.behind
              ∙ (ground (arith, any-append (λ y. same y a) xs h.added)) in
            record {
              added = h.added;
              behind = h.behind;
              fresh = h.fresh;
              there = ground (arith, found, h.there);
            }

        -- the element is appended first
        unseen :
            {ys : List A}
            → IsAppended (xs ++ (a ∷ [])) asked ys
            → any (λ x. same x a) xs ≡ false
            → IsAppended xs (a ∷ asked) ys
        unseen {ys} h new =
            let found : any (λ y. same y a) ys ≡ true =
              ap (any (λ y. same y a)) h.behind
              ∙ (ground (
                arith,
                any-append (λ y. same y a) (xs ++ (a ∷ [])) h.added,
                any-append (λ y. same y a) xs (a ∷ []),
                same_refl a,
              )) in
            record {
              added = a ∷ h.added;
              behind = h.behind ∙ append_assoc xs (a ∷ []) h.added;
              fresh = (new, h.fresh);
              there = ground (arith, found, h.there);
            }

module _ (k : Kube) (deep : IsDeepEqual k) where
  toleration_refl : (t : k.Toleration) → k.toleration_equal t t ≡ true
  toleration_refl t = (deep.toleration_iff t t).1 refl

  env_from_refl : (s : k.EnvFromSource) → k.env_from_equal s s ≡ true
  env_from_refl s = (deep.env_from_iff s s).1 refl

  nothing_asked :
      {A : Type 0} (same : A → A → Bool) (xs asked : List A)
      → is_empty asked ≡ true
      → IsAppended same xs asked xs
  nothing_asked same xs [] h = record {
    added = [];
    behind = sym (append-nil xs);
    fresh = tt;
    there = refl;
  }
  nothing_asked same xs (a ∷ asked) h = cc

  -- Applying the configuration's tolerations keeps the pod's and appends those that are not there yet,
  -- so that in the end each toleration of the configuration is there and none of those appended
  -- equals an earlier one, where `reflect.DeepEqual` is equality.
  pub apply_tolerations_config-IsAppended :
      (d : Deployment k) (config : DeploymentConfig k)
      → IsAppended k.toleration_equal d.spec.template.spec.tolerations config.tolerations
          (apply_tolerations_config k d config).spec.template.spec.tolerations
  unfolding apply_tolerations_config
  apply_tolerations_config-IsAppended d config = elim (Bool-cases (is_empty config.tolerations)) [
    | inl none_asked ↦ rw none_asked (
        nothing_asked k.toleration_equal d.spec.template.spec.tolerations config.tolerations
          none_asked)
    | inr some_asked ↦ rw some_asked (
        append_new-IsAppended k.toleration_equal toleration_refl d.spec.template.spec.tolerations
          config.tolerations)
  ]
