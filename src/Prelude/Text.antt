-- ===== src/Prelude/Text.antt =====
-- Go's `strings.Compare`, `==` and sets of strings.
use Prim.Native.Nat.{Ordering, compare as compare_ℕ}
use Prim.Native.Char.{Char, code}
use Prim.Native.String.{String, [], ◌∷◌, compare, then as first_of_two}
use Prim.Native.String.compare
use mathlib.Core.Path.{◌≡◌, refl}
use mathlib.Core.Bool.{Bool, true, false, ◌||◌}
use mathlib.Core.List
use mathlib.Core.List.{List}
use native.Mathlib.Omega.{arith}
use text.Mathlib.Text.{◌==◌ as text_eq}
use text.Mathlib.TextEquality.{eq_iff}
use library_olm.Prelude.Lists.{any}
use library_olm.Prelude.Tests.{if◌then◌else◌}
use library_olm.Prelude.Order.{
  flip, then_by, Agrees, IsOrder, then_by-flip, then_by-Agrees, compare-flip, compare-Agrees,
}

infix 50 ◌==◌
abbrev pub ◌==◌ : String → String → Bool
s == t = text_eq s t

-- `strings.Compare`: byte order, which on valid UTF-8 is the order of the code points.
abbrev pub compare_strings : String → String → Ordering
compare_strings s t = compare s t

first_of_two-eq : (p q : Ordering) → first_of_two p q ≡ then_by p q
first_of_two-eq Ordering.lt q = refl
first_of_two-eq Ordering.eq q = refl
first_of_two-eq Ordering.gt q = refl

compare-cons-cons :
    (c d : Char) (s t : String)
    → compare (c ∷ s) (d ∷ t) ≡ then_by (compare_ℕ (code c) (code d)) (compare s t)
compare-cons-cons c d s t =
    cc (compare.cons-cons c d s t, first_of_two-eq (compare_ℕ (code c) (code d)) (compare s t))

ruleset clauses = (compare.nil-cons, compare.cons-nil, compare-cons-cons)

compare_strings_swap : (s t : String) → compare t s ≡ flip (compare s t)
compare_strings_swap [] [] = refl
compare_strings_swap [] (d ∷ t) = simp clauses
compare_strings_swap (c ∷ s) [] = simp clauses
compare_strings_swap (c ∷ s) (d ∷ t) = simp clauses (
    rw (compare-flip (code c) (code d), compare_strings_swap s t)
      (then_by-flip (compare_ℕ (code c) (code d)) (compare s t)))

compare_strings_chain : (s t u : String) → Agrees (compare s t) (compare t u) (compare s u)
compare_strings_chain [] [] u = refl
compare_strings_chain [] (d ∷ t) [] = simp clauses tt
compare_strings_chain [] (d ∷ t) (e ∷ u) = simp clauses (less _)
  where
    less : (q : Ordering) → Agrees Ordering.lt q Ordering.lt
    less Ordering.lt = refl
    less Ordering.eq = refl
    less Ordering.gt = tt
compare_strings_chain (c ∷ s) [] [] = simp clauses refl
compare_strings_chain (c ∷ s) [] (e ∷ u) = simp clauses tt
compare_strings_chain (c ∷ s) (d ∷ t) [] = simp clauses (more _)
  where
    more : (q : Ordering) → Agrees q Ordering.gt Ordering.gt
    more Ordering.lt = tt
    more Ordering.eq = refl
    more Ordering.gt = refl
compare_strings_chain (c ∷ s) (d ∷ t) (e ∷ u) = simp clauses (
    then_by-Agrees (compare_ℕ (code c) (code d)) (compare_ℕ (code d) (code e))
      (compare_ℕ (code c) (code e)) (compare s t) (compare t u) (compare s u)
      (compare-Agrees (code c) (code d) (code e)) (compare_strings_chain s t u))

pub compare_strings-IsOrder : IsOrder compare_strings
compare_strings-IsOrder = record { swap = compare_strings_swap; chain = compare_strings_chain }

-- A `map[string]…` or `sets.Set[string]` is the list of its keys, in the order of insertion.
unfoldable pub contains : List String → String → Bool
contains xs a = any (λ x. x == a) xs

unfoldable pub insert : List String → String → List String
insert xs a = if contains xs a then xs else List.◌++◌ xs (List.◌∷◌ a List.[])

-- No string stands twice.
abbrev pub IsDistinct : List String → Type 0
IsDistinct List.[] = Unit
IsDistinct (List.◌∷◌ x xs) = (contains xs x ≡ false) × IsDistinct xs

pub contains-append :
    (xs ys : List String) (a : String)
    → contains (List.◌++◌ xs ys) a ≡ (contains xs a || contains ys a)
unfolding contains
contains-append List.[] ys a = refl
contains-append (List.◌∷◌ x xs) ys a = ground (arith, contains-append xs ys a)

pub contains-insert :
    (xs : List String) (a b : String) → contains (insert xs a) b ≡ (a == b || contains xs b)
unfolding contains insert
contains-insert xs a b = ground (arith, contains-append xs (List.◌∷◌ a List.[]) b, eq_iff a b)

-- What is told twice by `contains` is told once by `≡`.
pub contains_self : (xs : List String) (a : String) → contains (List.◌∷◌ a xs) a ≡ true
unfolding contains
contains_self xs a = ground (arith, eq_iff a a)
