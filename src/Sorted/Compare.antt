-- ===== src/Sorted/Compare.antt =====
-- The comparison of rows is a total order.
use Prim.Native.Nat.{Ordering}
use scry.Prelude.{[], ◌∷◌, ◌≡◌, refl, arith, true, false}
use scry.Bytes.{cmp}
use scry.Sorted.{Row, Le, Lt, row_lt}

pub cmp_refl : (x : Row) → cmp x x ≡ Ordering.eq
unfolding cmp
cmp_refl [] = refl
cmp_refl (x ∷ xs) = ground (arith, cmp_refl xs)

pub eq_of_cmp : (x y : Row) → cmp x y ≡ Ordering.eq → x ≡ y
unfolding cmp
eq_of_cmp [] [] e = refl
eq_of_cmp [] (y ∷ ys) e = cc
eq_of_cmp (x ∷ xs) [] e = cc
eq_of_cmp (x ∷ xs) (y ∷ ys) e = ground (arith, eq_of_cmp xs ys)

abbrev pub reversed : Ordering → Ordering
reversed Ordering.lt = Ordering.gt
reversed Ordering.eq = Ordering.eq
reversed Ordering.gt = Ordering.lt

pub cmp_flip : (x y : Row) → cmp y x ≡ reversed (cmp x y)
unfolding cmp
cmp_flip [] [] = refl
cmp_flip [] (y ∷ ys) = refl
cmp_flip (x ∷ xs) [] = refl
cmp_flip (x ∷ xs) (y ∷ ys) = ground (arith, cmp_flip xs ys)

pub le_trans : (x y z : Row) → Le x y → Le y z → Le x z
unfolding cmp
le_trans [] [] z p q = q
le_trans [] (y ∷ ys) [] p q = λ e. cc
le_trans [] (y ∷ ys) (z ∷ zs) p q = λ e. cc
le_trans (x ∷ xs) [] z p q = absurd (p refl)
le_trans (x ∷ xs) (y ∷ ys) [] p q = absurd (q refl)
le_trans (x ∷ xs) (y ∷ ys) (z ∷ zs) p q = ground (arith, le_trans xs ys zs)

pub lt_of_le_lt : (x y z : Row) → Le x y → Lt y z → Lt x z
unfolding cmp
lt_of_le_lt [] [] z p q = q
lt_of_le_lt [] (y ∷ ys) [] p q = cc
lt_of_le_lt [] (y ∷ ys) (z ∷ zs) p q = refl
lt_of_le_lt (x ∷ xs) [] z p q = absurd (p refl)
lt_of_le_lt (x ∷ xs) (y ∷ ys) [] p q = cc
lt_of_le_lt (x ∷ xs) (y ∷ ys) (z ∷ zs) p q = ground (arith, lt_of_le_lt xs ys zs)

pub lt_of_lt_le : (x y z : Row) → Lt x y → Le y z → Lt x z
unfolding cmp
lt_of_lt_le [] [] z p q = cc
lt_of_lt_le [] (y ∷ ys) [] p q = absurd (q refl)
lt_of_lt_le [] (y ∷ ys) (z ∷ zs) p q = refl
lt_of_lt_le (x ∷ xs) [] z p q = cc
lt_of_lt_le (x ∷ xs) (y ∷ ys) [] p q = absurd (q refl)
lt_of_lt_le (x ∷ xs) (y ∷ ys) (z ∷ zs) p q = ground (arith, lt_of_lt_le xs ys zs)

pub lt_trans : (x y z : Row) → Lt x y → Lt y z → Lt x z
lt_trans x y z p q = lt_of_le_lt x y z (λ e. cc) q

pub row_lt_trans : (x y z : Row) → row_lt x y ≡ true → row_lt y z ≡ true → row_lt x z ≡ true
row_lt_trans x y z p q = ground (arith, lt_trans x y z)

pub row_lt_asym : (x y : Row) → row_lt x y ≡ true → row_lt y x ≡ false
row_lt_asym x y p = ground (arith, cmp_flip x y)

-- If neither `y < x` nor `z < y`, then not `z < x`.
pub row_lt_negtrans : (x y z : Row) → row_lt y x ≡ false → row_lt z y ≡ false → row_lt z x ≡ false
row_lt_negtrans x y z p q = ground (
  arith,
  le_trans x y z (λ e. ground (arith, cmp_flip x y)) (λ e. ground (arith, cmp_flip y z)),
  cmp_flip x z,
)

pub row_lt_total : (x y : Row) → row_lt x y ≡ false → row_lt y x ≡ false → x ≡ y
row_lt_total x y p q = ground (arith, cmp_flip x y, eq_of_cmp x y)
