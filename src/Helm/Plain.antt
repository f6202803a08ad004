-- ===== src/Helm/Plain.antt =====
-- Which rendered objects `HelmMetadata` (bundle/helm/v1/internal/validate/metadata.go) accepts.
use library_olm.Prelude.{
  String, Bool, false, ◌&&◌, ◌||◌, not, List, [], ◌∷◌, ◌++◌, all, contains, is_empty, Bool-cases,
  inl, inr, eq_iff, ◌==◌, ◌≡◌, refl, sym, ap, ◌∙◌, arith,
}
use library_olm.Helm.Metadata.{
  has_prefix, HelmObject, MetadataError, disallowed, helm_metadata, annotation_allow_list,
  label_allow_list,
}

-- No annotation is Helm's, and of Helm's labels there is the one with the chart's name only.
abbrev pub is_plain : HelmObject → Bool
is_plain obj =
    all (λ key. not (has_prefix "helm.sh/" key)) obj.annotations
    && all (λ key. not (has_prefix "helm.sh/" key) || key == "helm.sh/chart") obj.labels

disallowed-nil :
    (mk : String → MetadataError) (allow_list keys : List String)
    → is_empty (disallowed mk allow_list keys)
      ≡ all (λ key. not (has_prefix "helm.sh/" key) || contains allow_list key) keys
unfolding disallowed
disallowed-nil mk allow_list [] = refl
disallowed-nil mk allow_list (key ∷ keys) = elim (Bool-cases (has_prefix "helm.sh/" key)) [
  | inr e ↦ rw e (disallowed-nil mk allow_list keys)
  | inl e ↦ elim (Bool-cases (contains allow_list key)) [
    | inl d ↦ rw (e, d) (disallowed-nil mk allow_list keys)
    | inr d ↦ rw (e, d) refl
  ]
]

all-congr :
    (f g : String → Bool) → ((s : String) → f s ≡ g s) → (xs : List String) → all f xs ≡ all g xs
all-congr f g h [] = refl
all-congr f g h (x ∷ xs) = rw (h x, all-congr f g h xs) refl

none_allowed :
    (key : String)
    → (not (has_prefix "helm.sh/" key) || contains annotation_allow_list key)
      ≡ not (has_prefix "helm.sh/" key)
unfolding contains
none_allowed key = elim (Bool-cases (has_prefix "helm.sh/" key)) [
  | inl e ↦ rw e refl
  | inr e ↦ rw e refl
]

chart_allowed :
    (key : String)
    → (not (has_prefix "helm.sh/" key) || contains label_allow_list key)
      ≡ (not (has_prefix "helm.sh/" key) || key == "helm.sh/chart")
unfolding contains
chart_allowed key = ap (λ b. not (has_prefix "helm.sh/" key) || b) (swapped key)
  where
    swapped : (key : String) → ("helm.sh/chart" == key || false) ≡ key == "helm.sh/chart"
    swapped key = ground (arith, eq_iff "helm.sh/chart" key, eq_iff key "helm.sh/chart")

-- Three lists of errors, none of which has any.
is_empty-three :
    {A : Type 0} (xs ys zs : List A) {a b c : Bool}
    → is_empty xs ≡ a
    → is_empty ys ≡ b
    → is_empty zs ≡ c
    → is_empty (xs ++ (ys ++ zs)) ≡ ((a && b) && c)
is_empty-three [] [] zs h k l = rw (sym h, sym k) l
is_empty-three [] (y ∷ ys) zs h k l = rw (sym h, sym k) refl
is_empty-three (x ∷ xs) ys zs h k l = rw (sym h) refl

-- The check reports no error exactly where no object has an annotation of Helm's, or a label of
-- Helm's other than the one with the chart's name.
pub helm_metadata_iff :
    (objects : List HelmObject) → is_empty (helm_metadata objects) ≡ all is_plain objects
unfolding helm_metadata
helm_metadata_iff [] = refl
helm_metadata_iff (obj ∷ objects) =
    is_empty-three (disallowed _ annotation_allow_list obj.annotations)
      (disallowed _ label_allow_list obj.labels) (helm_metadata objects)
      (disallowed-nil _ annotation_allow_list obj.annotations
        ∙ all-congr _ _ none_allowed obj.annotations)
      (disallowed-nil _ label_allow_list obj.labels ∙ all-congr _ _ chart_allowed obj.labels)
      (helm_metadata_iff objects)
