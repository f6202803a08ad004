-- ===== src/Bundle/RoundTrip.antt =====
-- Parsing a release and printing it.
use Prim.Native.Char.{Char, code}
use Prim.Native.String
use Prim.Native.String.append
use text.Mathlib.TextEquality.{codes_equal}
use text.Mathlib.TextLemmas.{nil-append, cons-append}
use library_olm.Prelude.{
  String, ◌≡◌, ◌≢◌, refl, sym, ap, ◌∙◌, Bool, true, false, is_some, Option, none, some, List, [],
  ◌∷◌, map, ok, all, nat_eq, if◌then◌else◌, ◌==◌, arith, eq_iff, inl, inr, Bool-cases, Option-cases,
  is_empty, >>=-eq-ok, ◌↔◌,
}
use library_olm.Bundle.Versions.{SemVer, IsPrinted}
use library_olm.Bundle.Releases.{
  split_dots, join_dots, onto_first, Release, or_invalid, parse_ids, parse_release, release_string,
}

split_dots-ne-nil : (s : String) → split_dots s ≢ []
unfolding split_dots
split_dots-ne-nil String.[] h = cc
split_dots-ne-nil (String.◌∷◌ c s) h = two (nat_eq (code c) b'.') (split_dots s) h
  where
    two : (b : Bool) (r : List String) → (if b then "" ∷ r else onto_first c r) ≢ []
    two true r e = cc
    two false [] e = cc
    two false (x ∷ xs) e = cc

join_dots-onto_first :
    (c : Char) (xs : List String)
    → xs ≢ []
    → join_dots (onto_first c xs) ≡ String.◌∷◌ c (join_dots xs)
unfolding join_dots
join_dots-onto_first c [] h = absurd (h refl)
join_dots-onto_first c (x ∷ []) h = refl
join_dots-onto_first c (x ∷ y ∷ ys) h = cons-append c x _

join_dots-empty_first :
    (xs : List String) → xs ≢ [] → join_dots ("" ∷ xs) ≡ String.◌++◌ "." (join_dots xs)
unfolding join_dots
join_dots-empty_first [] h = absurd (h refl)
join_dots-empty_first (y ∷ ys) h = nil-append _

abbrev dot : Char
dot = "."

dot-append : (s : String) → String.◌++◌ "." s ≡ String.◌∷◌ dot s
dot-append s = cons-append dot "" s ∙ ap (String.◌∷◌ dot) (nil-append s)

pub join_dots-split_dots : (s : String) → join_dots (split_dots s) ≡ s
unfolding split_dots
join_dots-split_dots String.[] = unfold join_dots in refl
join_dots-split_dots (String.◌∷◌ c s) = elim (Bool-cases (nat_eq (code c) b'.')) [
  | inl h ↦
      rw
        (
          h,
          join_dots-empty_first (split_dots s) (split_dots-ne-nil s),
          join_dots-split_dots s,
          dot-append s,
        )
        (ap (λ d. String.◌∷◌ d s) (codes_equal dot c (ground arith)))
  | inr h ↦
      rw (h, join_dots-onto_first c (split_dots s) (split_dots-ne-nil s), join_dots-split_dots s)
        refl
]

module _ (v : SemVer) where
  or_invalid-eq-ok :
      (p : String) (o : Option v.PRVersion) (pr : v.PRVersion)
      → or_invalid v p o ≡ ok pr
      → o ≡ some pr
  unfolding or_invalid
  or_invalid-eq-ok p none pr h = cc
  or_invalid-eq-ok p (some x) pr h = cc

  map-parse_ids :
      IsPrinted v
      → (ps : List String) (ids : List v.PRVersion) → parse_ids v ps ≡ ok ids
      → map v.pr_string ids ≡ ps
  unfolding parse_ids
  map-parse_ids pr [] ids h = let e : [] ≡ ids = cc in rw (← e) refl
  map-parse_ids pr (p ∷ ps) ids h =
      let (x, e, k) = >>=-eq-ok (or_invalid v p (v.new_pr_version p)) _ h in
      let (xs, e', k') = >>=-eq-ok (parse_ids v ps) _ k in
      let same : x ∷ xs ≡ ids = cc in
      rw (← same) (cc (pr.printed p x (or_invalid-eq-ok p _ x e), map-parse_ids pr ps xs e'))

  is_empty_of_map :
      (ids : List v.PRVersion) (ps : List String)
      → map v.pr_string ids ≡ ps
      → ps ≢ []
      → is_empty ids ≡ false
  is_empty_of_map [] ps e h = absurd (h (sym e))
  is_empty_of_map (x ∷ xs) ps e h = refl

  -- A release that was parsed prints as the text that it was parsed from, where identifiers print
  -- as they were read.
  pub string-parse_release :
      IsPrinted v → (s : String) (r : Release v) → parse_release v s ≡ ok r → release_string v r ≡ s
  unfolding parse_release release_string
  string-parse_release pr s r h = elim (Bool-cases (s == "")) [
    | inl e ↦ let empty : r.ids ≡ [] = ground arith in rw empty (sym ((eq_iff s "").0 e))
    | inr e ↦
        let (ids, parsed, k) = >>=-eq-ok (parse_ids v (split_dots s)) _ (rw e at h) in
        let same : ids ≡ r.ids = cc in
        let parts = map-parse_ids pr (split_dots s) ids parsed in
        rw (← same, is_empty_of_map ids (split_dots s) parts (split_dots-ne-nil s), parts)
          (join_dots-split_dots s)
  ]

  parse_ids-valid :
      (ps : List String) (ids : List v.PRVersion)
      → parse_ids v ps ≡ ok ids
      → all (λ p. is_some (v.new_pr_version p)) ps ≡ true
  unfolding parse_ids
  parse_ids-valid [] ids h = refl
  parse_ids-valid (p ∷ ps) ids h =
      let (x, e, k) = >>=-eq-ok (or_invalid v p (v.new_pr_version p)) _ h in
      let (xs, e', k') = >>=-eq-ok (parse_ids v ps) _ k in
      rw (or_invalid-eq-ok p _ x e) (parse_ids-valid ps xs e')

  parse_ids-total :
      (ps : List String)
      → all (λ p. is_some (v.new_pr_version p)) ps ≡ true
      → (ids : List v.PRVersion) × (parse_ids v ps ≡ ok ids)
  unfolding parse_ids or_invalid
  parse_ids-total [] h = ([], refl)
  parse_ids-total (p ∷ ps) h = elim (Option-cases (v.new_pr_version p)) [
    | inl missing ↦ absurd (ground arith)
    | inr (x, found) ↦
        let (xs, parsed) = parse_ids-total ps (ground arith) in
        (x ∷ xs, rw (found, or_invalid) (rw parsed))
  ]

  -- A text that is not empty is parsed exactly when each of its dot-separated parts is an
  -- identifier.
  pub parse_release_iff :
      (s : String)
      → s ≢ ""
      → ((r : Release v) × (parse_release v s ≡ ok r))
        ↔ (all (λ p. is_some (v.new_pr_version p)) (split_dots s) ≡ true)
  unfolding parse_release
  parse_release_iff s ne =
      let unequal : (s == "") ≡ false = ground (arith, eq_iff s "") in
      (
        λ found.
            let (ids, parsed, k) =
              >>=-eq-ok (parse_ids v (split_dots s)) _ (rw unequal at found.1) in
            parse_ids-valid (split_dots s) ids parsed,
        λ valid.
            let (ids, parsed) = parse_ids-total (split_dots s) valid in
            (record { ids = ids }, rw (unequal, parsed) refl),
      )
