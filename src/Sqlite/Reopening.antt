-- ===== src/Sqlite/Reopening.antt =====
-- Opening a store (`OpenStore`, catalog/v1/sqlite/sqlite.go) that was opened before.
use library_olm.Prelude.{
  ℕ, Bool, true, false, not, ◌&&◌, Option, none, some, List, [], ◌∷◌, ◌++◌, keep, contains, ltb,
  nat_eq, ◌⊎◌, all, Result, ok, err, is_err, is_ok, Result-cases, ◌>>=◌, Bool-cases, inl, inr, ◌≡◌,
  refl, sym, ap, ◌∙◌, arith, if◌then◌else◌,
}
use library_olm.Sqlite.Migrations.{
  Schema, OpenError, no_metadata_version, current_version, run_metadata_migrations,
  check_content_schema_version, drop_content_tables, create_content_tables, clear_all_digests,
  open_store, migrated, renew_content, no_content, content_tables_drop_order, unknown_content_table,
}

append_nothing : (xs : List ℕ) → xs ++ [] ≡ xs
append_nothing [] = refl
append_nothing (x ∷ xs) = ap (λ ys. x ∷ ys) (append_nothing xs)

-- a version that no migration is left for
abbrev is_last : Option ℕ → Bool
is_last none = false
is_last (some n) = not (ltb n 3)

abbrev is_migrated : Schema → Bool
is_migrated s = s.metadata_table && is_last s.metadata_version

not_below : (n k : ℕ) → ltb n 3 ≡ false → ltb k 3 ≡ true → ltb n k ≡ false
not_below n k h l = ground arith

not_zero : (n : ℕ) → ltb n 3 ≡ false → nat_eq n 0 ≡ false
not_zero n h = ground arith

migrated_last : (s : Schema) (n : ℕ) → s.metadata_table ≡ true → ltb n 3 ≡ false → migrated n s ≡ s
unfolding keep
migrated_last s n t h =
    rw (not_below n 1 h refl, not_below n 2 h refl, h, not_zero n h)
      (ap (λ (x : Bool). record s { metadata_table = x; migrations_run = s.migrations_run ++ [] })
          (sym t)
        ∙ ap (λ (ms : List ℕ). record s { migrations_run = ms }) (append_nothing s.migrations_run))

run-migrated : (s : Schema) → is_migrated s ≡ true → run_metadata_migrations s ≡ ok s
unfolding run_metadata_migrations
run-migrated s h = version s.metadata_version refl
  where
    current_version_lem :
        (n : ℕ) → s.metadata_table ≡ true → s.metadata_version ≡ some n → current_version s ≡ ok n
    current_version_lem n t e = rw (t, e) refl

    version : (m : Option ℕ) → s.metadata_version ≡ m → run_metadata_migrations s ≡ ok s
    version none e = absurd (ground arith)
    version (some n) e =
        let t : s.metadata_table ≡ true = ground arith in
        rw (current_version_lem n t e) (ap ok (migrated_last s n t (ground arith)))

-- The three ways in which the version is written, or left.
migrated-is_migrated :
    (s : Schema) (n : ℕ)
    → (nat_eq n 0 ≡ true ⊎ s.metadata_version ≡ some n)
    → is_migrated (migrated n s) ≡ true
migrated-is_migrated s n e = elim (Bool-cases (nat_eq n 0)) [
  | inl z ↦ rw z refl
  | inr z ↦ elim (Bool-cases (ltb n 3)) [
    | inl l ↦ rw (z, l) refl
    | inr l ↦ elim e [ inl z' ↦ absurd (ground arith) | inr v ↦ rw (z, l, v, l) refl ]
  ]
]

module _ (s t : Schema) where
  ran-is_migrated :
      (n : ℕ)
      → (nat_eq n 0 ≡ true ⊎ s.metadata_version ≡ some n)
      → run_metadata_migrations s ≡ ok (migrated n s)
      → run_metadata_migrations s ≡ ok t
      → is_migrated t ≡ true
  ran-is_migrated n v e h = rw (the_same e h) (migrated-is_migrated s n v)
    where
      the_same : {r : Result OpenError Schema} {a b : Schema} → r ≡ ok a → r ≡ ok b → b ≡ a
      the_same e h = cc

  run-is_migrated : run_metadata_migrations s ≡ ok t → is_migrated t ≡ true
  unfolding run_metadata_migrations
  run-is_migrated h = elim (Bool-cases s.metadata_table) [
    | inl e ↦ with_table e s.metadata_version refl
    | inr e ↦ ran-is_migrated 0 (inl refl) (rw e refl) h
  ]
    where
      with_table :
          s.metadata_table ≡ true → (m : Option ℕ) → s.metadata_version ≡ m → is_migrated t ≡ true
      with_table e none v = absurd (no_version {o = no_metadata_version} (rw (e, v) refl) h)
        where
          no_version : {r : Result OpenError Schema} {o : OpenError} → r ≡ err o → r ≡ ok t → ⊥
          no_version i j = cc
      with_table e (some n) v = ran-is_migrated n (inr v) (rw (e, v) refl) h

-- Content that was made anew is of the version of the code.
module _ (s : Schema) where
  abbrev renewed : Schema
  renewed = clear_all_digests (
      create_content_tables (record s {
        content_tables = [];
        content_version = none;
        database = no_content s.database;
      }))

  open-renewed : is_migrated s ≡ true → open_store renewed ≡ ok renewed
  unfolding open_store check_content_schema_version create_content_tables clear_all_digests contains
  open-renewed h = rw (run-migrated renewed h) refl

  renew_content-cases :
      (renew_content s ≡ err unknown_content_table) ⊎ (renew_content s ≡ ok renewed)
  unfolding drop_content_tables
  renew_content-cases =
      elim (Bool-cases (all (λ t. contains content_tables_drop_order t) s.content_tables)) [
        | inl h ↦ inr (rw h refl)
        | inr h ↦ inl (rw h refl)
      ]

-- Opening a store that was opened changes nothing: no migration is run again, and the content and the
-- digests stay.
pub open_store-open_store : (s : Schema) → (open_store s >>= open_store) ≡ open_store s
unfolding open_store
open_store-open_store s = elim (Result-cases (run_metadata_migrations s)) [
  | is_err e h ↦ rw h refl
  | is_ok t h ↦ rw h (opened t (run-is_migrated s t h))
]
  where
    opened :
        (t : Schema)
        → is_migrated t ≡ true
        → (◌>>=◌
            (check_content_schema_version t >>= λ current.
              if current then ok t else renew_content t)
            open_store)
          ≡ (check_content_schema_version t >>= λ current.
              if current then ok t else renew_content t)
    opened t m = elim (Result-cases (check_content_schema_version t)) [
      | is_err e h ↦ rw h refl
      | is_ok true h ↦ rw (h, run-migrated t m, h) refl
      | is_ok false h ↦ elim (renew_content-cases t) [
        | inl e ↦ rw (h, e) refl
        | inr e ↦ rw (h, e) (open-renewed t m)
      ]
    ]
