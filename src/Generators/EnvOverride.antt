-- ===== src/Generators/EnvOverride.antt =====
-- What a container's environment is once the configuration's variables are applied.
use library_olm.Prelude.{
  ℕ, zero, suc, ◌+◌, String, ◌≡◌, refl, sym, ap, ◌∙◌, Bool, true, false, Option, none, some, List,
  [], ◌∷◌, ◌++◌, Map, get, put, get-put, if◌then◌else◌, ◌==◌, arith, eq_iff, Bool-cases,
  Option-cases, inl, inr,
}
use library_olm.Registry.{Kube, EnvVar}
use library_olm.Generators.{set_at, env_indices, override_env, apply_env}

abbrev pub or_else {ℓ} : {A : Type ℓ} → Option A → Option A → Option A
or_else none b = b
or_else (some a) b = some a

abbrev shift : Option ℕ → ℕ → Option ℕ
shift none i = none
shift (some j) i = some (i + j)

or_else_assoc {ℓ} :
    {A : Type ℓ} (o a b : Option A) → or_else (or_else o a) b ≡ or_else o (or_else a b)
or_else_assoc none a b = refl
or_else_assoc (some x) a b = refl

absent_differs :
    (m : Map ℕ) (c n : String) (i : ℕ) → get m c ≡ none → get m n ≡ some i → c == n ≡ false
absent_differs m c n i absent found = elim (Bool-cases (c == n)) [
  | inl same ↦ let found_too : get m c ≡ some i = rw ((eq_iff c n).0 same) found in cc
  | inr other ↦ other
]

some_injective : {i j : ℕ} → some i ≡ some j → i ≡ j
some_injective h = cc

zero_case :
    (o : Option ℕ) (b : Bool)
    → or_else (shift o 1) (if b then some zero else none) ≡ some zero
    → (o ≡ none) × (b ≡ true)
zero_case none true h = (refl, refl)
zero_case none false h = cc
zero_case (some j) b h = absurd (omega (arith, some_injective h))

suc_case :
    (o : Option ℕ) (b : Bool) (i : ℕ)
    → or_else (shift o 1) (if b then some zero else none) ≡ some (suc i)
    → o ≡ some i
suc_case none true i h = cc
suc_case none false i h = cc
suc_case (some j) b i h = ap some (omega (arith, some_injective h))

none_case :
    (o : Option ℕ) (b : Bool)
    → or_else (shift o 1) (if b then some zero else none) ≡ none
    → (o ≡ none) × (b ≡ false)
none_case none true h = cc
none_case none false h = (refl, refl)
none_case (some j) b h = cc

module _ (k : Kube) where
  -- The variable that a name has in a container: of several, the last.
  pub effective : List (EnvVar k) → String → Option (EnvVar k)
  effective [] n = none
  effective (e ∷ es) n = or_else (effective es n) (if e.name == n then some e else none)

  last_index : List (EnvVar k) → String → Option ℕ
  last_index [] n = none
  last_index (e ∷ es) n =
      or_else (shift (last_index es n) 1) (if e.name == n then some zero else none)

  get-env_indices :
      (es : List (EnvVar k)) (i : ℕ) (m : Map ℕ) (n : String)
      → get (env_indices k es i m) n ≡ or_else (shift (last_index es n) i) (get m n)
  unfolding env_indices last_index
  get-env_indices [] i m n = refl
  get-env_indices (e ∷ es) i m n =
      get-env_indices es (suc i) (put m e.name i) n
      ∙ (rw (get-put m e.name i n) (join (last_index es n) (e.name == n)))
    where
      join :
          (o : Option ℕ) (b : Bool)
          → or_else (shift o (suc i)) (if b then some i else get m n)
            ≡ or_else (shift (or_else (shift o 1) (if b then some zero else none)) i) (get m n)
      join none true = ap some (omega arith)
      join none false = refl
      join (some j) b = ap some (omega arith)

  effective-append :
      (es : List (EnvVar k)) (c : EnvVar k) (n : String)
      → effective (es ++ (c ∷ [])) n
        ≡ or_else (if c.name == n then some c else none) (effective es n)
  unfolding effective
  effective-append [] c n = elim (Bool-cases (c.name == n)) [
    | inl h ↦ rw h refl
    | inr h ↦ rw h refl
  ]
  effective-append (e ∷ es) c n =
      rw (effective-append es c n)
        (elim (Bool-cases (c.name == n)) [ inl h ↦ rw h refl | inr h ↦ rw h refl ])

  last_index-append :
      (es : List (EnvVar k)) (c : EnvVar k) (n : String)
      → c.name == n ≡ false
      → last_index (es ++ (c ∷ [])) n ≡ last_index es n
  unfolding last_index
  last_index-append [] c n h = rw h refl
  last_index-append (e ∷ es) c n h = rw (last_index-append es c n h) refl

  effective-none :
      (es : List (EnvVar k)) (n : String) → last_index es n ≡ none → effective es n ≡ none
  unfolding last_index effective
  effective-none [] n h = refl
  effective-none (e ∷ es) n h =
      let (none_behind, other) = none_case (last_index es n) (e.name == n) h in
      rw (effective-none es n none_behind, other) refl

  -- Overriding the last variable of a name.
  last_index-set_at :
      (es : List (EnvVar k)) (c : EnvVar k) (i : ℕ) (n : String)
      → last_index es c.name ≡ some i
      → last_index (set_at es i c) n ≡ last_index es n
  unfolding last_index set_at
  last_index-set_at [] c i n h = cc
  last_index-set_at (e ∷ es) c zero n h =
      let same : e.name ≡ c.name =
        (eq_iff e.name c.name).0 (zero_case (last_index es c.name) (e.name == c.name) h).1 in
      rw same refl
  last_index-set_at (e ∷ es) c (suc i) n h =
      rw (last_index-set_at es c i n (suc_case (last_index es c.name) (e.name == c.name) i h)) refl

  effective-set_at :
      (es : List (EnvVar k)) (c : EnvVar k) (i : ℕ) (n : String)
      → last_index es c.name ≡ some i
      → effective (set_at es i c) n
        ≡ or_else (if c.name == n then some c else none) (effective es n)
  unfolding last_index set_at effective
  effective-set_at [] c i n h = cc
  effective-set_at (e ∷ es) c zero n h =
      let (none_behind, found) = zero_case (last_index es c.name) (e.name == c.name) h in
      let same : e.name ≡ c.name = (eq_iff e.name c.name).0 found in
      elim (Bool-cases (c.name == n)) [
        | inl at ↦
            let same_name : c.name ≡ n = (eq_iff c.name n).0 at in
            let none_set : effective es n ≡ none =
              effective-none es n (rw (← same_name) none_behind) in
            rw (none_set, at) refl
        | inr other ↦ rw (same, other) refl
      ]
  effective-set_at (e ∷ es) c (suc i) n h =
      rw (effective-set_at es c i n (suc_case (last_index es c.name) (e.name == c.name) i h))
        (or_else_assoc (if c.name == n then some c else none) _ _)

  prepend :
      (c : EnvVar k) (cs env : List (EnvVar k)) (n : String)
      → or_else (effective cs n) (or_else (if c.name == n then some c else none) (effective env n))
        ≡ or_else (effective (c ∷ cs) n) (effective env n)
  unfolding effective
  prepend c cs env n =
      sym (or_else_assoc (effective cs n) (if c.name == n then some c else none) (effective env n))

  -- Each index of the map is that of the last variable of its name.
  Indexes : Map ℕ → List (EnvVar k) → Type 0
  Indexes m env = (n : String) (i : ℕ) → get m n ≡ some i → last_index env n ≡ some i

  effective-override_env :
      (m : Map ℕ) (env cs : List (EnvVar k)) (n : String)
      → Indexes m env
      → effective (override_env k m env cs) n ≡ or_else (effective cs n) (effective env n)
  unfolding override_env Indexes
  effective-override_env m env [] n h = unfold effective in refl
  effective-override_env m env (c ∷ cs) n h = elim (Option-cases (get m c.name)) [
    | inl missing ↦ rw missing (
        effective-override_env m (env ++ (c ∷ [])) cs n (λ n' i found.
          last_index-append env c n' (absent_differs m c.name n' i missing found) ∙ h n' i found)
        ∙ ap (λ o. or_else (effective cs n) o) (effective-append env c n)
        ∙ prepend c cs env n)
    | inr (i, found) ↦ rw found (
        effective-override_env m (set_at env i c) cs n
          (λ n' j at. last_index-set_at env c i n' (h c.name i found) ∙ h n' j at)
        ∙ ap (λ o. or_else (effective cs n) o) (effective-set_at env c i n (h c.name i found))
        ∙ prepend c cs env n)
  ]

  -- A container's variable is the configuration's, the last of several, where that has the name, and
  -- else it is what it was before.
  pub effective-apply_env :
      (env config : List (EnvVar k)) (n : String)
      → effective (apply_env k env config) n ≡ or_else (effective config n) (effective env n)
  unfolding apply_env Indexes
  effective-apply_env env config n =
      effective-override_env (env_indices k env 0 []) env config n
        (λ n' i found. sym (get-env_indices env 0 [] n' ∙ unshift n' (last_index env n')) ∙ found)
    where
      unshift : (name : String) (o : Option ℕ) → or_else (shift o 0) (get [] name) ≡ o
      unshift name none = unfold get in refl
      unshift name (some j) = ap some (omega arith)
