-- ===== src/Validators/WebhookChecks.antt =====
-- The checks of the webhooks' names report nothing exactly where the names are distinct within each
-- type, or valid.
use library_olm.Prelude.{
  ℕ, ◌+◌, String, ◌≡◌, refl, sym, ◌∙◌, Bool, true, false, ◌&&◌, ◌||◌, not, List, [], ◌∷◌, Map, keys,
  get, put, get_or, get-put, sorted_entries, contains, contains-insert, insert, is_empty,
  is_empty-map, is_empty-sort_func, is_empty-flat_map, sort_func-all, all-congr, all, any, length,
  nat_eq, sort_func, compare_strings, flat_map, if◌then◌else◌, ◌==◌, arith, eq_iff, Bool-cases, inl,
  inr, none, some, ◌⊎◌,
}
use library_olm.Registry.{Kube, RegistryV1, Webhook}
use library_olm.Validators.Errors.{duplicate_webhook, invalid_webhook_name}
use library_olm.Validators.Webhooks.{
  ensure, total, NamesByType, add_webhook_name, names_by_type, check_webhook_name_uniqueness,
  invalid_webhooks, check_webhook_name_is_dns1123_subdomain,
}
use library_olm.Validators.NameChecks.{is_empty-insert, is_empty-put, all-true}

module _ {ℓ} {A : Type ℓ} where
  get-missing : (m : Map A) (k : String) → contains (keys m) k ≡ false → get m k ≡ none
  unfolding contains get
  get-missing [] k h = refl
  get-missing (e ∷ m) k h = ground (arith, get-missing m k)

  module _ (p : A → Bool) where
    all-put-false :
        (m : Map A) (k : String) (a : A)
        → p a ≡ false
        → all (λ (e : String × A). p e.1) (put m k a) ≡ false
    unfolding put
    all-put-false [] k a h = ground arith
    all-put-false (e ∷ m) k a h = ground (arith, all-put-false m k a h)

    all-put-true :
        (m : Map A) (k : String) (a : A)
        → contains (keys m) k ≡ false
        → p a ≡ true
        → all (λ (e : String × A). p e.1) (put m k a) ≡ all (λ (e : String × A). p e.1) m
    unfolding put contains
    all-put-true [] k a h h' = ground arith
    all-put-true (e ∷ m) k a h h' = ground (arith, all-put-true m k a)

    all-ensure :
        (m : Map A) (k : String) (a : A)
        → p a ≡ true
        → all (λ (e : String × A). p e.1) (ensure m k a) ≡ all (λ (e : String × A). p e.1) m
    unfolding ensure
    all-ensure m k a h = elim (Bool-cases (contains (keys m) k)) [
      | inl old ↦ rw old refl
      | inr new ↦ rw new (all-put-true m k a new h)
    ]

module _ {ℓ} {A : Type ℓ} where
  get-ensure :
      (m : Map (List A)) (k b : String) → get_or [] (get (ensure m k []) b) ≡ get_or [] (get m b)
  unfolding ensure
  get-ensure m k b = elim (Bool-cases (contains (keys m) k)) [
    | inl old ↦ rw old refl
    | inr new ↦ rw (new, get-put m k [] b) (at (Bool-cases (k == b)) new)
  ]
    where
      at :
          ((k == b) ≡ true) ⊎ ((k == b) ≡ false)
          → contains (keys m) k ≡ false
          → get_or [] (if k == b then some [] else get m b) ≡ get_or [] (get m b)
      at (inl e) new =
          let same : k ≡ b = (eq_iff k b).0 e in rw (e, get-missing m b (rw (← same) new)) refl
      at (inr e) new = rw e refl

nat_eq-length {ℓ} :
    {A : Type ℓ} (xs : List A) (n : ℕ) → nat_eq (length xs + n) 0 ≡ (is_empty xs && nat_eq n 0)
nat_eq-length [] n = ground arith
nat_eq-length (x ∷ xs) n = ground arith

pub total-zero {ℓ} :
    {A : Type ℓ} (m : Map (List A))
    → nat_eq (total m) 0 ≡ all (λ (e : String × List A). is_empty e.1) m
unfolding total
total-zero [] = ground arith
total-zero (e ∷ m) = nat_eq-length e.1 (total m) ∙ (ground (arith, total-zero m))

-- The early return on a total of zero changes nothing.
pub is_empty-report {ℓ κ} :
    {A : Type ℓ} {B : Type κ} (m : Map (List A)) (f : String × List A → List B)
    → ((e : String × List A) → is_empty (f e) ≡ is_empty e.1)
    → is_empty (if nat_eq (total m) 0 then [] else flat_map f (sorted_entries m))
      ≡ all (λ (e : String × List A). is_empty e.1) m
unfolding sorted_entries
is_empty-report m f h = elim (Bool-cases (nat_eq (total m) 0)) [
  | inl zero ↦ rw zero (sym zero ∙ total-zero m)
  | inr more ↦ rw more (
      is_empty-flat_map f (sorted_entries m)
      ∙ sort_func-all _ (λ e. is_empty (f e)) m
      ∙ all-congr _ _ m h)
]

module _ (k : Kube) where
  -- No two webhooks have one type and one name.
  pub webhooks_distinct : List (Webhook k) → Bool
  webhooks_distinct [] = true
  webhooks_distinct (w ∷ ws) =
      not (
        any
          (λ (x : Webhook k).
            x.webhook_type == w.webhook_type && x.generate_name == w.generate_name)
          ws)
      && webhooks_distinct ws

  abbrev is_seen : Map (List String) → String → String → Bool
  is_seen seen t n = contains (get_or [] (get seen t)) n

  is_seen-add :
      (seen : Map (List String)) (t n t' n' : String)
      → let first = ensure seen t [] in
        is_seen (put first t (insert (get_or [] (get first t)) n)) t' n'
        ≡ ((t == t' && n == n') || is_seen seen t' n')
  is_seen-add seen t n t' n' =
      let first = ensure seen t [] in
      let names = get_or [] (get first t) in
      elim (Bool-cases (t == t')) [
        | inl e ↦
            let same : t ≡ t' = (eq_iff t t').0 e in
            rw
              (
                get-put first t (insert names n) t',
                e,
                contains-insert names n n',
                get-ensure seen t t,
                same,
              )
              refl
        | inr e ↦ rw (get-put first t (insert names n) t', e, get-ensure seen t t') refl
      ]

  -- One round: a name that was seen makes a duplicate, and no duplicate is forgotten.
  add_webhook_name-duplicates :
      (wh : Webhook k) (s : NamesByType k)
      → all (λ (e : String × List String). is_empty e.1) (add_webhook_name k wh s).duplicates ≡ (
          all (λ (e : String × List String). is_empty e.1) s.duplicates
          && not (is_seen s.seen wh.webhook_type wh.generate_name))
  unfolding add_webhook_name
  add_webhook_name-duplicates wh s =
      let t = wh.webhook_type in
      let duplicates = ensure s.duplicates t [] in
      let names = insert (get_or [] (get duplicates t)) wh.generate_name in
      elim (Bool-cases (is_seen s.seen t wh.generate_name)) [
        | inl old ↦
            rw
              (
                get-ensure s.seen t t,
                old,
                all-put-false is_empty duplicates t names (is_empty-insert _ wh.generate_name),
              )
              (ground arith)
        | inr new ↦ rw (get-ensure s.seen t t, new) (ground arith)
      ]

  all_unseen :
      (seen : Map (List String)) (w : Webhook k) (ws : List (Webhook k))
      → let t = w.webhook_type in
        let first = ensure seen t [] in
        all
          (λ (x : Webhook k). not (
            is_seen
              (put first t (insert (get_or [] (get first t)) w.generate_name))
              x.webhook_type
              x.generate_name))
          ws
        ≡ (not (
              any (λ (x : Webhook k). x.webhook_type == t && x.generate_name == w.generate_name) ws)
            && all (λ (x : Webhook k). not (is_seen seen x.webhook_type x.generate_name)) ws)
  all_unseen seen w [] = refl
  all_unseen seen w (x ∷ ws) = ground (
    arith,
    is_seen-add seen w.webhook_type w.generate_name x.webhook_type x.generate_name,
    all_unseen seen w ws,
    eq_iff w.webhook_type x.webhook_type,
    eq_iff x.webhook_type w.webhook_type,
    eq_iff w.generate_name x.generate_name,
    eq_iff x.generate_name w.generate_name,
  )

  names_by_type-duplicates :
      (ws : List (Webhook k)) (s : NamesByType k)
      → all (λ (e : String × List String). is_empty e.1) (names_by_type k ws s).duplicates ≡ (
          all (λ (e : String × List String). is_empty e.1) s.duplicates
          && (webhooks_distinct ws
              && all (λ (x : Webhook k). not (is_seen s.seen x.webhook_type x.generate_name)) ws))
  unfolding names_by_type webhooks_distinct
  names_by_type-duplicates [] s = ground arith
  names_by_type-duplicates (w ∷ ws) s =
      names_by_type-duplicates ws (add_webhook_name k w s)
      ∙ (rw (add_webhook_name-duplicates w s, add_webhook_name-seen w s)
          (rw (all_unseen s.seen w ws) (ground arith)))
    where
      add_webhook_name-seen :
          (w : Webhook k) (s : NamesByType k)
          → (add_webhook_name k w s).seen
            ≡ put (ensure s.seen w.webhook_type []) w.webhook_type (
                insert
                  (get_or [] (get (ensure s.seen w.webhook_type []) w.webhook_type))
                  w.generate_name)
      add_webhook_name-seen w s = unfold add_webhook_name in refl

  none_seen :
      (ws : List (Webhook k))
      → all (λ (x : Webhook k). not (is_seen [] x.webhook_type x.generate_name)) ws ≡ true
  unfolding get contains
  none_seen ws = all-true ws

  invalid_webhooks-empty :
      (ws : List (Webhook k)) (m : Map (Map (List String)))
      → all (λ (e : String × Map (List String)). is_empty e.1) (invalid_webhooks k ws m) ≡ (
          all (λ (e : String × Map (List String)). is_empty e.1) m
          && all (λ (w : Webhook k). is_empty (k.is_dns1123_subdomain w.generate_name)) ws)
  unfolding invalid_webhooks
  invalid_webhooks-empty [] m = ground arith
  invalid_webhooks-empty (w ∷ ws) m =
      let m' = ensure m w.webhook_type [] in
      let errs = k.is_dns1123_subdomain w.generate_name in
      let names =
        put (get_or [] (get m' w.webhook_type)) w.generate_name (sort_func compare_strings errs) in
      elim (Bool-cases (is_empty errs)) [
        | inl good ↦ rw good (
            invalid_webhooks-empty ws m' ∙ (rw (all-ensure is_empty m w.webhook_type [] refl) refl))
        | inr bad ↦ rw bad (
            invalid_webhooks-empty ws (put m' w.webhook_type names)
            ∙ (rw
                (all-put-false is_empty m' w.webhook_type names
                  (is_empty-put _ w.generate_name (sort_func compare_strings errs)))
                (ground arith)))
      ]

  module _ (rv1 : RegistryV1 k) where
    pub check_webhook_name_uniqueness_lem :
        is_empty (check_webhook_name_uniqueness k rv1)
        ≡ webhooks_distinct rv1.csv.webhook_definitions
    unfolding check_webhook_name_uniqueness
    check_webhook_name_uniqueness_lem =
        let whs = rv1.csv.webhook_definitions in
        let s = names_by_type k whs (record { seen = []; duplicates = [] }) in
        is_empty-report s.duplicates _ (λ e.
          is_empty-map (λ name. duplicate_webhook name e.0) (sort_func compare_strings e.1)
          ∙ is_empty-sort_func compare_strings e.1)
        ∙ names_by_type-duplicates whs (record { seen = []; duplicates = [] })
        ∙ (ground (arith, none_seen whs))

    pub check_webhook_name_lem :
        is_empty (check_webhook_name_is_dns1123_subdomain k rv1)
        ≡ all
            (λ (w : Webhook k). is_empty (k.is_dns1123_subdomain w.generate_name))
            rv1.csv.webhook_definitions
    unfolding check_webhook_name_is_dns1123_subdomain
    check_webhook_name_lem =
        is_empty-report (invalid_webhooks k rv1.csv.webhook_definitions []) _ (λ e.
          is_empty-map (λ n. invalid_webhook_name e.0 n.0 n.1) (sorted_entries e.1)
          ∙ (unfold sorted_entries in is_empty-sort_func _ e.1))
        ∙ invalid_webhooks-empty rv1.csv.webhook_definitions []
