-- ===== src/Prelude/Maps.antt =====
-- `map[string]T` as the list of its entries, in the order in which their keys came in.
use mathlib.Core.Path.{◌≡◌, refl}
use mathlib.Core.Bool.{◌&&◌, ◌||◌, not}
use mathlib.Core.Option.{Option, none, some}
use mathlib.Core.List.{List, [], ◌∷◌, map}
use Prim.Native.String.{String}
use native.Mathlib.Omega.{arith}
use text.Mathlib.TextEquality.{eq_iff}
use library_olm.Prelude.Tests.{if◌then◌else◌}
use library_olm.Prelude.Lists.{keep}
use library_olm.Prelude.Text.{contains, ◌==◌, compare_strings}
use library_olm.Prelude.Sort.{sort_func}

abbrev pub Map {ℓ} : Type ℓ → Type ℓ
Map A = List (String × A)

module _ {ℓ} {A : Type ℓ} where
  abbrev pub keys : Map A → List String
  keys m = map (λ (e : String × A). e.0) m

  unfoldable pub get : Map A → String → Option A
  get [] k = none
  get (e ∷ m) k = let rest = get m k in if e.0 == k then some e.1 else rest

  unfoldable pub put : Map A → String → A → Map A
  put [] k a = (k, a) ∷ []
  put (e ∷ m) k a = let rest = put m k a in if e.0 == k then (k, a) ∷ m else e ∷ rest

  unfoldable pub delete : Map A → String → Map A
  delete m k = keep (λ (e : String × A). not (e.0 == k)) m

  -- `m[k]`, with the zero value where the key is missing
  abbrev pub get_or : A → Option A → A
  get_or d none = d
  get_or d (some a) = a

  -- The loop over `slices.Sorted(maps.Keys(m))`, which reads `m[k]`: no key stands twice.
  unfoldable pub sorted_entries : Map A → List (String × A)
  sorted_entries m = sort_func (λ e f. compare_strings e.0 f.0) m

  pub contains-keys-put :
      (m : Map A) (k : String) (a : A) (b : String)
      → contains (keys (put m k a)) b ≡ (k == b || contains (keys m) b)
  unfolding contains put
  contains-keys-put [] k a b = ground arith
  contains-keys-put (e ∷ m) k a b =
      ground (arith, contains-keys-put m k a b, eq_iff e.0 k, eq_iff k b)

  pub contains-keys-delete :
      (m : Map A) (k b : String)
      → contains (keys (delete m k)) b ≡ (contains (keys m) b && not (k == b))
  unfolding contains delete keep
  contains-keys-delete [] k b = refl
  contains-keys-delete (e ∷ m) k b =
      ground (arith, contains-keys-delete m k b, eq_iff e.0 k, eq_iff e.0 b, eq_iff k b)

  pub get-put :
      (m : Map A) (k : String) (a : A) (b : String)
      → get (put m k a) b ≡ (if k == b then some a else get m b)
  unfolding get put
  get-put [] k a b = refl
  get-put (e ∷ m) k a b = ground (arith, get-put m k a b, eq_iff e.0 k, eq_iff k b, eq_iff e.0 b)
