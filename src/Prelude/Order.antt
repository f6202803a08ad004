-- ===== src/Prelude/Order.antt =====
-- Three-way comparison functions: Go's `func(a, b T) int` returns -1, 0 or 1, here lt, eq or gt.
use Prim.Native.Nat.{ℕ, compare, Ordering}
use mathlib.Core.Path.{◌≡◌, refl}
use mathlib.Core.Logic.{◌≢◌}
use native.Mathlib.Omega.{arith}

abbrev pub flip : Ordering → Ordering
flip Ordering.lt = Ordering.gt
flip Ordering.eq = Ordering.eq
flip Ordering.gt = Ordering.lt

-- `cmp.Or` of two comparisons: the first that is not 0.
abbrev pub then_by : Ordering → Ordering → Ordering
then_by Ordering.lt q = Ordering.lt
then_by Ordering.eq q = q
then_by Ordering.gt q = Ordering.gt

-- What the comparisons of a with b and of b with c say of the comparison of a with c.
abbrev pub Agrees : Ordering → Ordering → Ordering → Type 0
Agrees Ordering.lt Ordering.lt r = r ≡ Ordering.lt
Agrees Ordering.lt Ordering.eq r = r ≡ Ordering.lt
Agrees Ordering.lt Ordering.gt r = Unit {0}
Agrees Ordering.eq q r = r ≡ q
Agrees Ordering.gt Ordering.lt r = Unit {0}
Agrees Ordering.gt Ordering.eq r = r ≡ Ordering.gt
Agrees Ordering.gt Ordering.gt r = r ≡ Ordering.gt

-- The laws of a total preorder, which `slices.SortFunc` asks of its comparison.
pub record IsOrder {ℓ} {A : Type ℓ} (cmp : A → A → Ordering) : Type ℓ where
  pub swap : (a b : A) → cmp b a ≡ flip (cmp a b)
  pub chain : (a b c : A) → Agrees (cmp a b) (cmp b c) (cmp a c)

pub then_by-flip : (p q : Ordering) → then_by (flip p) (flip q) ≡ flip (then_by p q)
then_by-flip Ordering.lt q = refl
then_by-flip Ordering.eq q = refl
then_by-flip Ordering.gt q = refl

pub then_by-Agrees :
    (p q r p' q' r' : Ordering)
    → Agrees p q r
    → Agrees p' q' r'
    → Agrees (then_by p p') (then_by q q') (then_by r r')
then_by-Agrees p q r p' q' r' h k = ground arith

pub eq_self_of_swap : (o : Ordering) → o ≡ flip o → o ≡ Ordering.eq
eq_self_of_swap o h = ground arith

module _ {ℓ} {A : Type ℓ} (cmp : A → A → Ordering) (o : IsOrder cmp) where
  pub IsOrder-refl : (a : A) → cmp a a ≡ Ordering.eq
  IsOrder-refl a = eq_self_of_swap (cmp a a) (o.swap a a)

  pub IsOrder-trans :
      (a b c : A) → cmp a b ≢ Ordering.gt → cmp b c ≢ Ordering.gt → cmp a c ≢ Ordering.gt
  IsOrder-trans a b c h k = ground (arith, o.chain a b c)

  pub IsOrder-total : (a b : A) → cmp a b ≡ Ordering.gt → cmp b a ≢ Ordering.gt
  IsOrder-total a b h = ground (arith, o.swap a b)

  -- The comparison with its arguments exchanged, for a descending sort.
  pub IsOrder-reverse : IsOrder (λ a b. cmp b a)
  IsOrder-reverse = record {
    swap = λ a b. o.swap b a;
    chain = λ a b c. ground (arith, o.chain c b a, o.swap a b, o.swap b c, o.swap a c);
  }

-- Two comparisons, the second breaking the ties of the first.
pub IsOrder-then_by {ℓ} :
    {A : Type ℓ} (f g : A → A → Ordering)
    → IsOrder f
    → IsOrder g
    → IsOrder (λ a b. then_by (f a b) (g a b))
IsOrder-then_by f g of og = record {
  swap = λ a b. ground (arith, of.swap a b, og.swap a b);
  chain = λ a b c.
      then_by-Agrees (f a b) (f b c) (f a c) (g a b) (g b c) (g a c) (of.chain a b c)
        (og.chain a b c);
}

-- Values compared by a key of theirs.
pub IsOrder-on {ℓ κ} :
    {A : Type ℓ} {B : Type κ} (key : A → B) (cmp : B → B → Ordering)
    → IsOrder cmp
    → IsOrder (λ a b. cmp (key a) (key b))
IsOrder-on key cmp o = record {
  swap = λ a b. o.swap (key a) (key b);
  chain = λ a b c. o.chain (key a) (key b) (key c);
}

pub compare-flip : (a b : ℕ) → compare b a ≡ flip (compare a b)
compare-flip a b = ground arith

pub compare-Agrees : (a b c : ℕ) → Agrees (compare a b) (compare b c) (compare a c)
compare-Agrees a b c = ground arith

pub compare-IsOrder : IsOrder compare
compare-IsOrder = record { swap = compare-flip; chain = compare-Agrees }
