-- ===== src/Bytes/Order.antt =====
-- Big-endian bytes compare like the integers that they stand for, and are read back.
use Prim.Native.Nat.{compare}
use scry.Prelude.{
  ℕ, zero, suc, ◌+◌, ◌*◌, ◌/◌, ◌%◌, ◌^◌, ◌<◌, ◌≤◌, List, ◌++◌, length, ◌≡◌, refl, arith, ap, ◌∙◌,
}
use native.Mathlib.Nat.{div-add-mod, div-add-mod', div-lt_iff_lt-mul, mod-lt, one-le-pow, pow-suc}
use scry.Bytes.{to_be_bytes, from_be_bytes, from_be_loop, cmp, then_order}

pub length-to_be_bytes : (w n : ℕ) → length (to_be_bytes w n) ≡ w
unfolding to_be_bytes
length-to_be_bytes zero n = refl
length-to_be_bytes (suc w) n = ap suc (length-to_be_bytes w (n % 256 ^ w))

pow_pos : (w : ℕ) → 0 < 256 ^ w
pow_pos w = one-le-pow w 256 (omega arith)

mul_mono : (a b p : ℕ) → a < b → a * p + p ≤ b * p
mul_mono a b p h = grind arith

compare-digits :
    (p a b : ℕ)
    → 0 < p
    → compare a b ≡ then_order (compare (a / p) (b / p)) (compare (a % p) (b % p))
compare-digits p a b h = ground (
  arith,
  div-add-mod a p,
  div-add-mod b p,
  mod-lt a h,
  mod-lt b h,
  mul_mono (a / p) (b / p) p,
  mul_mono (b / p) (a / p) p,
)

digit_small : (w a : ℕ) → a < 256 ^ suc w → a / 256 ^ w % 256 ≡ a / 256 ^ w
digit_small w a h =
    let small : a / 256 ^ w < 256 =
      (div-lt_iff_lt-mul (pow_pos w)).1 (omega (arith, pow-suc 256 w)) in
    omega arith

pub cmp-to_be_bytes :
    (w a b : ℕ) (xs ys : List ℕ)
    → a < 256 ^ w
    → b < 256 ^ w
    → cmp (to_be_bytes w a ++ xs) (to_be_bytes w b ++ ys) ≡ then_order (compare a b) (cmp xs ys)
unfolding to_be_bytes cmp
cmp-to_be_bytes zero a b xs ys ha hb = ground arith
cmp-to_be_bytes (suc w) a b xs ys ha hb = ground (
  arith,
  digit_small w a ha,
  digit_small w b hb,
  compare-digits (256 ^ w) a b (pow_pos w),
  mod-lt a (pow_pos w),
  mod-lt b (pow_pos w),
  cmp-to_be_bytes w (a % 256 ^ w) (b % 256 ^ w) xs ys,
)

from_be_loop-to_be_bytes :
    (w acc n : ℕ) → n < 256 ^ w → from_be_loop acc (to_be_bytes w n) ≡ acc * 256 ^ w + n
unfolding to_be_bytes from_be_loop
from_be_loop-to_be_bytes zero acc n h = omega arith
from_be_loop-to_be_bytes (suc w) acc n h =
    from_be_loop-to_be_bytes w (acc * 256 + n / 256 ^ w % 256) (n % 256 ^ w) (mod-lt n (pow_pos w))
    ∙ rw (digit_small w n h)
        (omega (arith, ap (λ (t : ℕ). acc * t) (pow-suc 256 w), div-add-mod' n (256 ^ w)))

pub from_be_bytes-to_be_bytes : (w n : ℕ) → n < 256 ^ w → from_be_bytes (to_be_bytes w n) ≡ n
unfolding from_be_bytes
from_be_bytes-to_be_bytes w n h = omega (arith, from_be_loop-to_be_bytes w 0 n h)
