-- ===== src/Prelude/Split.antt =====
-- `strings.Split` and `strings.Join` with a separator of one character.
use Prim.Native.Char.{Char, code}
use Prim.Native.String
use Prim.Native.String.{String}
use text.Mathlib.TextLemmas.{nil-append, cons-append}
use mathlib.Core.Path.{◌≡◌, refl, ap, ◌∙◌}
use mathlib.Core.Bool.{Bool, false, ◌||◌}
use mathlib.Core.List.{List, [], ◌∷◌}
use mathlib.Core.Logic.{inl, inr}
use native.Mathlib.Omega.{arith}
use library_olm.Prelude.Tests.{nat_eq, if◌then◌else◌, Bool-cases}
use library_olm.Prelude.Lists.{All}

-- A character put before the first part.
abbrev pub before_first : Char → List String → List String
before_first c [] = String.◌∷◌ c String.[] ∷ []
before_first c (x ∷ xs) = String.◌∷◌ c x ∷ xs

module _ (sep : Char) where
  unfoldable pub split : String → List String
  split String.[] = "" ∷ []
  split (String.◌∷◌ c s) =
      let rest = split s in if nat_eq (code c) (code sep) then "" ∷ rest else before_first c rest

  unfoldable pub join : List String → String
  join [] = ""
  join (x ∷ []) = x
  join (x ∷ y ∷ ys) = String.◌++◌ x (String.◌∷◌ sep (join (y ∷ ys)))

  -- `strings.Contains` of the separator
  unfoldable pub has_char : String → Bool
  has_char String.[] = false
  has_char (String.◌∷◌ c s) = nat_eq (code c) (code sep) || has_char s

  split-append :
      (x s : String) → has_char x ≡ false → split (String.◌++◌ x (String.◌∷◌ sep s)) ≡ x ∷ split s
  unfolding split has_char
  split-append String.[] s h = rw (nil-append (String.◌∷◌ sep s)) (ground arith)
  split-append (String.◌∷◌ c x) s h =
      rw (cons-append c x (String.◌∷◌ sep s)) (elim (Bool-cases (nat_eq (code c) (code sep))) [
        | inl e ↦ absurd (ground arith)
        | inr e ↦ rw (e, split-append x s (ground arith)) refl
      ])

  split_whole : (x : String) → has_char x ≡ false → split x ≡ x ∷ []
  unfolding split has_char
  split_whole String.[] h = refl
  split_whole (String.◌∷◌ c x) h = elim (Bool-cases (nat_eq (code c) (code sep))) [
    | inl e ↦ absurd (ground arith)
    | inr e ↦ rw (e, split_whole x (ground arith)) refl
  ]

  -- Parts without the separator, at least one, come back.
  pub split-join :
      (x : String) (xs : List String)
      → All (λ y. has_char y ≡ false) (x ∷ xs)
      → split (join (x ∷ xs)) ≡ x ∷ xs
  unfolding join
  split-join x [] h = split_whole x h.0
  split-join x (y ∷ ys) h =
      split-append x (join (y ∷ ys)) h.0 ∙ ap (λ zs. x ∷ zs) (split-join y ys h.1)
