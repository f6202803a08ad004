-- ===== src/Generators/NameLength.antt =====
-- How long the name is that `ObjectNameForBaseAndSuffix` makes.
use Prim.Native.Char.{Char, len_utf8}
use Prim.Native.String
use Prim.Native.String.{len, slice, fits}
use Prim.Native.String.len
use Prim.Native.String.slice
use text.Mathlib.TextPositions.{len-append}
use library_olm.Prelude.{
  ℕ, suc, ◌+◌, ◌-◌, ◌≤◌, ◌<◌, compare, Ordering, lt, eq, gt, String, ◌≡◌, ◌≢◌, refl, ap, ◌∙◌, some,
  ltb, false, Bool-cases, inl, inr, arith,
}
use library_olm.Generators.{max_name_length, object_name_for_base_and_suffix}

len-fits :
    (c : Char) (s : String) (n : ℕ)
    → len s ≤ n - len_utf8 c
    → len (fits (compare (len_utf8 c) n) c s) ≤ n
len-fits c s n h = at (compare (len_utf8 c) n) refl
  where
    at : (o : Ordering) → compare (len_utf8 c) n ≡ o → len (fits o c s) ≤ n
    at lt e = rw (len.cons c s) (ground (arith, h))
    at eq e = rw (len.cons c s) (ground (arith, h))
    at gt e = rw len.nil (omega arith)

-- A slice is not longer than its bound.
len-slice : (s : String) (n : ℕ) → len (slice s 0 n) ≤ n
len-slice String.[] n = rw (slice.nil 0 n, len.nil) (omega arith)
len-slice (String.◌∷◌ c s) n =
    rw (slice.cons-zero c s n) (len-fits c _ n (len-slice s (n - len_utf8 c)))

-- A name is no longer than a Kubernetes label may be, except where the base and the suffix have 63
-- bytes between them: then it has 64. The suffix must have less than 63.
pub len-object_name :
    (base suffix : String)
    → len suffix < max_name_length
    → (name : String) × (object_name_for_base_and_suffix base suffix ≡ some name)
      × (len base + len suffix ≢ max_name_length → len name ≤ max_name_length)
      × (len base + len suffix ≡ max_name_length → len name ≡ 64)
unfolding object_name_for_base_and_suffix
len-object_name base suffix h = elim (Bool-cases (ltb max_name_length (len base + len suffix))) [
  | inl long ↦
      let short_suffix : ltb max_name_length (len suffix + 1) ≡ false = ground arith in
      let cut = slice base 0 (max_name_length - len suffix - 1) in
      (
        String.◌++◌ cut (String.◌++◌ "-" suffix),
        rw (long, short_suffix) refl,
        λ _.
            rw (len-append cut (String.◌++◌ "-" suffix), len-append "-" suffix)
              (omega (arith, len-slice base (max_name_length - len suffix - 1), dash)),
        λ exact. absurd (ground arith),
      )
  | inr short ↦ (
    String.◌++◌ base (String.◌++◌ "-" suffix),
    rw short refl,
    λ other.
        rw (len-append base (String.◌++◌ "-" suffix), len-append "-" suffix) (ground (arith, dash)),
    λ exact.
        rw (len-append base (String.◌++◌ "-" suffix), len-append "-" suffix) (omega (arith, dash)),
  )
]
  where
    dash : len "-" ≡ 1
    dash = len.cons "-" "" ∙ ap suc len.nil
