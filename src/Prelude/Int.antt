-- ===== src/Prelude/Int.antt =====
-- Go's `int`, as far as the program compares values of it. `negsuc n` is -(n + 1).
use Prim.Native.Nat.{ℕ, compare, Ordering}
use mathlib.Core.Path.{◌≡◌, refl}
use mathlib.Core.Bool.{Bool, true, false}
use native.Mathlib.Omega.{arith}
use library_olm.Prelude.Order.{flip, Agrees, IsOrder, compare-flip, compare-Agrees}

pub data ℤ : Type 0 where
  pos : ℕ → ℤ
  negsuc : ℕ → ℤ

-- `cmp.Compare` at `int`
unfoldable pub compare_ℤ : ℤ → ℤ → Ordering
compare_ℤ (pos a) (pos b) = compare a b
compare_ℤ (pos a) (negsuc b) = Ordering.gt
compare_ℤ (negsuc a) (pos b) = Ordering.lt
compare_ℤ (negsuc a) (negsuc b) = compare b a

abbrev pub is_eq : Ordering → Bool
is_eq Ordering.eq = true
is_eq _ = false

abbrev pub is_lt : Ordering → Bool
is_lt Ordering.lt = true
is_lt _ = false

compare_ℤ_swap : (a b : ℤ) → compare_ℤ b a ≡ flip (compare_ℤ a b)
unfolding compare_ℤ
compare_ℤ_swap (pos a) (pos b) = compare-flip a b
compare_ℤ_swap (pos a) (negsuc b) = refl
compare_ℤ_swap (negsuc a) (pos b) = refl
compare_ℤ_swap (negsuc a) (negsuc b) = compare-flip b a

compare_ℤ_chain : (a b c : ℤ) → Agrees (compare_ℤ a b) (compare_ℤ b c) (compare_ℤ a c)
unfolding compare_ℤ
compare_ℤ_chain (pos a) (pos b) (pos c) = compare-Agrees a b c
compare_ℤ_chain a b c = ground arith

pub compare_ℤ-IsOrder : IsOrder compare_ℤ
compare_ℤ-IsOrder = record { swap = compare_ℤ_swap; chain = compare_ℤ_chain }
