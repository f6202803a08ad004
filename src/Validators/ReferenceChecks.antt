-- ===== src/Validators/ReferenceChecks.antt =====
-- The checks of what webhooks refer to report nothing exactly where the references are good.
use library_olm.Prelude.{
  Ordering, String, ◌≡◌, refl, sym, ap, ◌∙◌, Bool, true, false, ◌&&◌, ◌||◌, not, List, [], ◌∷◌,
  ◌++◌, map, Map, keys, get, put, get_or, delete, contains-keys-put, sorted_entries, contains,
  is_empty, is_empty-map, is_empty-sort_func, is_empty-flat_map, is_empty-keep, not-any,
  sort_func-all, all-congr, all, length, nat_eq, keep, sort_func, compare_strings, flat_map,
  distinct, if◌then◌else◌, ◌==◌, arith, eq_iff, Bool-cases, inl, inr,
}
use library_olm.Registry.{Kube, RegistryV1, Webhook}
use library_olm.Validators.Names.{deployment_names}
use library_olm.Validators.Crds.{insert_all}
use library_olm.Validators.References.{
  append_at, delete_all, is_conversion, conversion_webhooks, webhooks_by_deployment,
  by_type_and_name, check_webhook_deployment_referential_integrity, unowned_crds,
  check_conversion_webhooks_reference_owned_crds, add_references, crd_to_webhooks,
  check_conversion_webhook_crd_reference_uniqueness,
}
use library_olm.Validators.NameChecks.{all-true, contains-set}
use library_olm.Validators.WebhookChecks.{is_empty-report}

is_empty-snoc {ℓ} : {A : Type ℓ} (xs : List A) (a : A) → is_empty (xs ++ (a ∷ [])) ≡ false
is_empty-snoc [] a = refl
is_empty-snoc (x ∷ xs) a = refl

-- A group is empty or of a name listed: what deleting the names listed leaves of it.
abbrev excused {ℓ} : {A : Type ℓ} → List String → String × List A → Bool
excused names e = is_empty e.1 || contains names e.0

module _ {ℓ} {A : Type ℓ} where
  all-put_snoc :
      (names : List String) (m : Map (List A)) (k : String) (xs : List A) (a : A)
      → (get_or [] (get m k) ≡ xs)
      → all (excused names) (put m k (xs ++ (a ∷ []))) ≡ (all (excused names) m && contains names k)
  unfolding put get
  all-put_snoc names [] k xs a h = ground (arith, is_empty-snoc xs a)
  all-put_snoc names (e ∷ m) k xs a h = elim (Bool-cases (e.0 == k)) [
    | inl same ↦
        let eq_key : e.0 ≡ k = (eq_iff e.0 k).0 same in
        rw (same, eq_key) (ground (arith, is_empty-snoc xs a))
    | inr other ↦ rw other (ground (arith, all-put_snoc names m k xs a (rw other at h)))
  ]

  all-append_at :
      (names : List String) (m : Map (List A)) (k : String) (a : A)
      → all (excused names) (append_at m k a) ≡ (all (excused names) m && contains names k)
  unfolding append_at
  all-append_at names m k a = all-put_snoc names m k (get_or [] (get m k)) a refl

  all-delete :
      (p : String × List A → Bool) (m : Map (List A)) (n : String)
      → all p (delete m n) ≡ all (λ (e : String × List A). p e || e.0 == n) m
  unfolding delete keep
  all-delete p [] n = refl
  all-delete p (e ∷ m) n = ground (arith, all-delete p m n)

  all-delete_all :
      (m : Map (List A)) (names done : List String)
      → all (excused done) (delete_all m names)
        ≡ all (λ (e : String × List A). excused done e || contains names e.0) m
  unfolding delete_all contains
  all-delete_all m [] done = all-congr _ _ m (λ e. ground arith)
  all-delete_all m (n ∷ names) done =
      all-delete_all (delete m n) names done
      ∙ all-delete (λ e. excused done e || contains names e.0) m n
      ∙ all-congr _ _ m (λ e. ground (arith, eq_iff e.0 n, eq_iff n e.0))

  -- No group is left where every group is of a name deleted.
  all-deleted :
      (m : Map (List A)) (names : List String)
      → all (λ (e : String × List A). is_empty e.1) (delete_all m names) ≡ all (excused names) m
  unfolding contains
  all-deleted m names =
      all-congr _ _ (delete_all m names) (λ e. ground arith)
      ∙ all-delete_all m names []
      ∙ all-congr _ _ m (λ e. ground arith)

  -- A group has one member.
  abbrev single : String × List A → Bool
  single e = nat_eq (length e.1) 1

  abbrev filled : String × List A → Bool
  filled e = not (is_empty e.1)

  single-snoc : (xs : List A) (a : A) → nat_eq (length (xs ++ (a ∷ []))) 1 ≡ is_empty xs
  single-snoc [] a = ground arith
  single-snoc (x ∷ []) a = ground arith
  single-snoc (x ∷ y ∷ ys) a = ground arith

  all-put-single :
      (m : Map (List A)) (k : String) (xs : List A) (a : A)
      → get_or [] (get m k) ≡ xs
      → all filled m ≡ true
      → all single (put m k (xs ++ (a ∷ []))) ≡ (all single m && not (contains (keys m) k))
  unfolding put get contains
  all-put-single [] k xs a h f = ground (arith, single-snoc xs a)
  all-put-single (e ∷ m) k xs a h f = ground (arith, single-snoc xs a, all-put-single m k xs a)

  all-put-filled :
      (m : Map (List A)) (k : String) (xs : List A) (a : A)
      → all filled m ≡ true
      → all filled (put m k (xs ++ (a ∷ []))) ≡ true
  unfolding put
  all-put-filled [] k xs a f = ground (arith, is_empty-snoc xs a)
  all-put-filled (e ∷ m) k xs a f = ground (arith, is_empty-snoc xs a, all-put-filled m k xs a)

-- The two loops of the map from definitions to webhooks, as one loop over pairs.
add_pairs : List (String × String) → Map (List String) → Map (List String)
add_pairs [] m = m
add_pairs (p ∷ ps) m = add_pairs ps (append_at m p.0 p.1)

add_pairs-append :
    (ps qs : List (String × String)) (m : Map (List String))
    → add_pairs (ps ++ qs) m ≡ add_pairs qs (add_pairs ps m)
unfolding add_pairs
add_pairs-append [] qs m = refl
add_pairs-append (p ∷ ps) qs m = add_pairs-append ps qs (append_at m p.0 p.1)

pub all_absent :
    (cs ks ks' : List String) (c : String)
    → ((b : String) → contains ks' b ≡ (c == b || contains ks b))
    → all (λ b. not (contains ks' b)) cs
      ≡ (not (contains cs c) && all (λ b. not (contains ks b)) cs)
unfolding contains
all_absent [] ks ks' c h = refl
all_absent (a ∷ cs) ks ks' c h =
    ground (arith, h a, all_absent cs ks ks' c h, eq_iff a c, eq_iff c a)

abbrev firsts : List (String × String) → List String
firsts ps = map (λ (p : String × String). p.0) ps

add_pairs-single :
    (ps : List (String × String)) (m : Map (List String))
    → all filled m ≡ true
    → all single (add_pairs ps m)
      ≡ (all single m && (distinct (firsts ps) && all (λ c. not (contains (keys m) c)) (firsts ps)))
unfolding add_pairs append_at
add_pairs-single [] m f = ground arith
add_pairs-single (p ∷ ps) m f =
    let xs = get_or [] (get m p.0) in
    let m' = put m p.0 (xs ++ (p.1 ∷ [])) in
    add_pairs-single ps m' (all-put-filled m p.0 xs p.1 f)
    ∙ (rw
        (
          all-put-single m p.0 xs p.1 refl f,
          all_absent (firsts ps) (keys m) (keys m') p.0
              (contains-keys-put m p.0 (xs ++ (p.1 ∷ []))),
        )
        (ground arith))

-- The early return on no webhook changes nothing.
is_empty-sorted_report {ℓ κ} :
    {A : Type ℓ} {B : Type κ} (cmp : A → A → Ordering) (f : A → List B) (xs : List A)
    → is_empty (if is_empty xs then [] else flat_map f (sort_func cmp xs))
      ≡ all (λ x. is_empty (f x)) xs
is_empty-sorted_report cmp f [] = refl
is_empty-sorted_report cmp f (x ∷ xs) =
    is_empty-flat_map f (sort_func cmp (x ∷ xs)) ∙ sort_func-all cmp (λ y. is_empty (f y)) (x ∷ xs)

module _ (k : Kube) where
  webhooks_by_deployment-excused :
      (names : List String) (ws : List (Webhook k)) (m : Map (List (Webhook k)))
      → all (excused names) (webhooks_by_deployment k ws m)
        ≡ (all (excused names) m && all (λ (w : Webhook k). contains names w.deployment_name) ws)
  unfolding webhooks_by_deployment
  webhooks_by_deployment-excused names [] m = ground arith
  webhooks_by_deployment-excused names (w ∷ ws) m =
      webhooks_by_deployment-excused names ws (append_at m w.deployment_name w)
      ∙ (rw (all-append_at names m w.deployment_name w) (ground arith))

  abbrev pairs_of : String → List String → List (String × String)
  pairs_of name cs = map (λ c. (c, name)) cs

  add_references-add_pairs :
      (name : String) (cs : List String) (m : Map (List String))
      → add_references name cs m ≡ add_pairs (pairs_of name cs) m
  unfolding add_references add_pairs
  add_references-add_pairs name [] m = refl
  add_references-add_pairs name (c ∷ cs) m = add_references-add_pairs name cs (append_at m c name)

  abbrev pairs : List (Webhook k) → List (String × String)
  pairs ws = flat_map (λ (w : Webhook k). pairs_of w.generate_name w.conversion_crds) ws

  crd_to_webhooks-add_pairs :
      (ws : List (Webhook k)) (m : Map (List String))
      → crd_to_webhooks k ws m ≡ add_pairs (pairs (keep (is_conversion k) ws)) m
  unfolding crd_to_webhooks keep flat_map
  crd_to_webhooks-add_pairs [] m = unfold add_pairs in refl
  crd_to_webhooks-add_pairs (w ∷ ws) m = elim (Bool-cases (is_conversion k w)) [
    | inl conversion ↦ rw conversion (
        crd_to_webhooks-add_pairs ws (add_references w.generate_name w.conversion_crds m)
        ∙ ap (λ n. add_pairs (pairs (keep (is_conversion k) ws)) n)
            (add_references-add_pairs w.generate_name w.conversion_crds m)
        ∙ sym (
            add_pairs-append (pairs_of w.generate_name w.conversion_crds)
              (pairs (keep (is_conversion k) ws)) m))
    | inr admission ↦ rw admission (crd_to_webhooks-add_pairs ws m)
  ]

  firsts-append : (ps qs : List (String × String)) → firsts (ps ++ qs) ≡ firsts ps ++ firsts qs
  firsts-append [] qs = refl
  firsts-append (p ∷ ps) qs = ap (λ cs. p.0 ∷ cs) (firsts-append ps qs)

  firsts-pairs_of : (name : String) (cs : List String) → firsts (pairs_of name cs) ≡ cs
  firsts-pairs_of name [] = refl
  firsts-pairs_of name (c ∷ cs) = ap (λ ds. c ∷ ds) (firsts-pairs_of name cs)

  -- The definitions that webhooks convert, with repetitions.
  abbrev pub converted : List (Webhook k) → List String
  converted ws = flat_map (λ (w : Webhook k). w.conversion_crds) ws

  firsts-pairs : (ws : List (Webhook k)) → firsts (pairs ws) ≡ converted ws
  unfolding flat_map
  firsts-pairs [] = refl
  firsts-pairs (w ∷ ws) =
      rw
        (
          firsts-append (pairs_of w.generate_name w.conversion_crds) (pairs ws),
          firsts-pairs_of w.generate_name w.conversion_crds,
          firsts-pairs ws,
        )
        refl

  is_empty-unowned_crds :
      (owned : List String) (name : String) (cs : List String)
      → is_empty (unowned_crds owned name cs) ≡ all (λ c. contains owned c) cs
  unfolding unowned_crds
  is_empty-unowned_crds owned name [] = refl
  is_empty-unowned_crds owned name (c ∷ cs) = ground (arith, is_empty-unowned_crds owned name cs)

  all_absent_nil : (cs : List String) → all (λ c. not (contains [] c)) cs ≡ true
  unfolding contains
  all_absent_nil cs = all-true cs

  not-not-single : (e : String × List String) → not (not (single e)) ≡ single e
  not-not-single e = ground arith

  module _ (rv1 : RegistryV1 k) where
    pub check_webhook_deployment_lem :
        is_empty (check_webhook_deployment_referential_integrity k rv1)
        ≡ all
            (λ (w : Webhook k). contains (deployment_names k rv1) w.deployment_name)
            rv1.csv.webhook_definitions
    unfolding check_webhook_deployment_referential_integrity
    check_webhook_deployment_lem =
        let groups = webhooks_by_deployment k rv1.csv.webhook_definitions [] in
        is_empty-report (delete_all groups (deployment_names k rv1)) _ (λ e.
          is_empty-map _ (sort_func (by_type_and_name k) e.1)
          ∙ is_empty-sort_func (by_type_and_name k) e.1)
        ∙ all-deleted groups (deployment_names k rv1)
        ∙ webhooks_by_deployment-excused (deployment_names k rv1) rv1.csv.webhook_definitions []

    pub check_conversion_webhook_crd_lem :
        is_empty (check_conversion_webhook_crd_reference_uniqueness k rv1)
        ≡ distinct (converted (conversion_webhooks k rv1))
    unfolding check_conversion_webhook_crd_reference_uniqueness sorted_entries
    check_conversion_webhook_crd_lem =
        let ps = pairs (conversion_webhooks k rv1) in
        let m = crd_to_webhooks k rv1.csv.webhook_definitions [] in
        is_empty-map _ (sorted_entries (keep (λ e. not (single e)) m))
        ∙ is_empty-sort_func _ (keep (λ e. not (single e)) m)
        ∙ is_empty-keep (λ e. not (single e)) m
        ∙ not-any (λ e. not (single e)) m
        ∙ all-congr _ _ m not-not-single
        ∙ ap (all single) (crd_to_webhooks-add_pairs rv1.csv.webhook_definitions [])
        ∙ add_pairs-single ps [] refl
        ∙ (ground (arith, all_absent_nil (firsts ps), firsts-pairs (conversion_webhooks k rv1)))

    pub check_conversion_webhooks_owned_lem :
        is_empty (check_conversion_webhooks_reference_owned_crds k rv1)
        ≡ all
            (λ (w : Webhook k). all (λ c. contains rv1.csv.owned c) w.conversion_crds)
            (conversion_webhooks k rv1)
    unfolding check_conversion_webhooks_reference_owned_crds
    check_conversion_webhooks_owned_lem =
        is_empty-sorted_report _ _ (conversion_webhooks k rv1)
        ∙ all-congr _ _ (conversion_webhooks k rv1) owned_only
      where
        owned_only :
            (w : Webhook k)
            → is_empty (
                unowned_crds
                  (insert_all [] rv1.csv.owned)
                  w.generate_name
                  (sort_func compare_strings w.conversion_crds))
              ≡ all (λ c. contains rv1.csv.owned c) w.conversion_crds
        owned_only w =
            let owned = insert_all [] rv1.csv.owned in
            is_empty-unowned_crds owned w.generate_name
              (sort_func compare_strings w.conversion_crds)
            ∙ sort_func-all compare_strings (λ c. contains owned c) w.conversion_crds
            ∙ all-congr _ _ w.conversion_crds (contains-set rv1.csv.owned)
